-- ===== src/Tests/Receiving.antt =====
-- Receipts of a batch of transactions, and the bytes of a log.
use mathlib.Core.List.{Perm}
use hemera_indexer.Prelude.{
  beq_refl, ◌<◌, ◌≡◌, refl, false, none, some, [], ◌∷◌, ◌++◌, All, arith, keys, lookup, length,
}
use hemera_indexer.Errors.{Message, codes, Outcome, returns, lower, same_text, Returns}
use hemera_indexer.Utils.Sorting.{Sorted, nat_order, pair_order}
use hemera_indexer.Domain.{EthUtils, text_eq}
use hemera_indexer.Domain.Logs.{
  Log, InBlock, LogDict, get_topic_with_data, printed, get_topic_with_data-printed,
}
use hemera_indexer.Domain.Receipts.{ReceiptDict, Transaction, receipt_from_rpc}
use hemera_indexer.Domain.Job.{collect_receipts, place_of, process, block_of, logs_in}
use hemera_indexer.Domain.Collected.{IsReadable, collect_receipts-process}

abbrev eth : EthUtils
eth = record {
  to_int = λ text. returns (length text);
  to_normalized_address = λ text. returns (lower text);
}

abbrev to_float : Message → Outcome Message
to_float text = returns text

abbrev block : InBlock
block = record { timestamp = 9; hash = some (codes "0xee"); number = 20 }

abbrev transaction : Transaction Message
transaction = record {
  hash = some (codes "0x01");
  nonce = 0;
  transaction_index = 0;
  from_address = codes "0x0a";
  to_address = none;
  value = 0;
  gas_price = 0;
  gas = 0;
  transaction_type = 0;
  input = some (codes "0x");
  block = block;
  blob_versioned_hashes = [];
  max_fee_per_gas = none;
  max_priority_fee_per_gas = none;
  receipt = none;
  exist_error = false;
  error = none;
  revert_reason = none;
}

abbrev log : Message → LogDict
log index = record {
  fields =
      ("logIndex", some index)
      ∷ ("address", some (codes "0x0C"))
      ∷ ("data", some (codes "0x"))
      ∷ ("transactionHash", some (codes "0x01"))
      ∷ ("transactionIndex", some (codes "0"))
      ∷ [];
  topics = codes "0xaa" ∷ [];
}

abbrev receipt : ReceiptDict
receipt = record {
  fields =
      ("transactionHash", some (codes "0x01"))
      ∷ ("transactionIndex", some (codes "0"))
      ∷ ("contractAddress", some (codes "0x0C"))
      ∷ ("status", some (codes "1"))
      ∷ [];
  logs = log (codes "11") ∷ log (codes "1") ∷ [];
}

receipt-IsReadable :
    IsReadable to_float eth ((some (codes "0x01"), transaction) ∷ []) (some receipt)
unfolding receipt_from_rpc lookup same_text
receipt-IsReadable = (
  receipt,
  refl,
  (some (codes "0x01"), refl, (transaction, rw (lookup, beq_refl (some (codes "0x01"))) refl)),
  λ b. (_, refl),
)

collect_receipts-process_example :
    Returns
      (λ (done, logs).
        (keys done ≡ some (codes "0x01") ∷ [])
        × (length logs ≡ logs_in (some receipt ∷ []))
        × All (λ l. (block_of l).number < 21) (process logs)
        × Perm (process logs) logs
        × Sorted place_of (process logs))
      (collect_receipts to_float eth
        (some receipt ∷ [])
        ((some (codes "0x01"), transaction) ∷ [], []))
collect_receipts-process_example =
    collect_receipts-process to_float eth (λ b. b.number < 21) (some receipt ∷ [])
      ((some (codes "0x01"), transaction) ∷ []) (omega arith, tt) (receipt-IsReadable, tt)

abbrev stored : Log
stored = record {
  log_index = 1;
  address = codes "0x0c";
  data_text = some (printed (7 ∷ 8 ∷ []));
  transaction_hash = some (codes "0x01");
  transaction_index = 0;
  block_timestamp = 9;
  block_number = 20;
  block_hash = some (codes "0xee");
  topic0 = some (printed (1 ∷ []));
  topic1 = some (printed (255 ∷ 2 ∷ []));
  topic2 = none;
  topic3 = some (printed (3 ∷ []));
}

get_topic_with_data-printed_example :
    get_topic_with_data stored ≡ returns (((255 ∷ 2 ∷ []) ++ [] ++ (3 ∷ [])) ++ 7 ∷ 8 ∷ [])
get_topic_with_data-printed_example =
    get_topic_with_data-printed stored (some (255 ∷ 2 ∷ [])) none (some (3 ∷ [])) (7 ∷ 8 ∷ []) refl
      refl refl refl (omega arith, (omega arith, tt)) tt (omega arith, tt)
      (omega arith, (omega arith, tt))
