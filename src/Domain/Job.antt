-- ===== src/Domain/Job.antt =====
-- indexer/jobs/export_transactions_and_logs_job.py: the receipts of a batch of transactions, and the logs.
use hemera_indexer.Prelude.{
  ℕ, ◌+◌, ◌≡◌, refl, ap, Bool, true, false, Option, none, some, List, [], ◌∷◌, ◌++◌, length, Dict,
  keys, lookup, insert, ◌==◌, Bool-cases, inl, inr,
}
use hemera_indexer.Errors.{Message, Outcome, returns, raises, other, ◌>>=◌}
use hemera_indexer.Utils.Rpc.{Response, rpc_response_batch_to_results}
use hemera_indexer.Utils.Sorting.{nat_order, pair_order, sort_by}
use hemera_indexer.Domain.{Text, text_eq, field, EthUtils}
use hemera_indexer.Domain.Logs.{Log, InBlock}
use hemera_indexer.Domain.Receipts.{ReceiptDict, Transaction, receipt_from_rpc, fill_with_receipt}

-- The provider, for a batch of hashes and for a single one.
pub record Provider : Type 0 where
  pub batch : List Text → Outcome (List (Response ReceiptDict))
  pub single : Text → Outcome (Response ReceiptDict)

abbrev answers_to : Provider → List Text → Bool → Outcome (List (Response ReceiptDict))
answers_to make_request hashes true = make_request.batch hashes
answers_to make_request [] false = raises other
answers_to make_request (hash ∷ rest) false =
    make_request.single hash >>= λ response. returns (response ∷ [])

-- `receipt_rpc_requests(make_request, transaction_hashes, is_batch)`
unfoldable pub receipt_rpc_requests :
    Provider → List Text → Bool → Outcome (List (Option ReceiptDict))
receipt_rpc_requests make_request transaction_hashes is_batch =
    answers_to make_request transaction_hashes is_batch >>= rpc_response_batch_to_results

-- The transactions by their hashes, and the logs that are collected.
abbrev pub Collected : Type 0 → Type 0
Collected Float = Dict Text (Transaction Float) × List Log

module _ {Float : Type 0} (to_float : Message → Outcome Float) (eth : EthUtils) where
  abbrev pub known : Option (Transaction Float) → Outcome (Transaction Float)
  known none = raises other
  known (some transaction) = returns transaction

  abbrev pub given : Option ReceiptDict → Outcome ReceiptDict
  given none = raises other
  given (some receipt) = returns receipt

  -- One round of the loop over the receipts.
  unfoldable pub collect_receipt : Option ReceiptDict → Collected Float → Outcome (Collected Float)
  collect_receipt result (mapper, logs) = given result >>= λ receipt.
      field "transactionHash" receipt.fields >>= λ hash.
      known (lookup hash mapper) >>= λ transaction.
      receipt_from_rpc to_float eth transaction.block receipt >>= λ entity.
      returns (insert hash (fill_with_receipt entity transaction) mapper, logs ++ entity.logs)

  unfoldable pub collect_receipts :
      List (Option ReceiptDict) → Collected Float → Outcome (Collected Float)
  collect_receipts [] state = returns state
  collect_receipts (result ∷ results) state =
      collect_receipt result state >>= λ later. collect_receipts results later

  -- `transaction_hash_mapper`
  abbrev pub mapper_onto :
      List (Transaction Float) → Dict Text (Transaction Float) → Dict Text (Transaction Float)
  mapper_onto [] mapper = mapper
  mapper_onto (t ∷ transactions) mapper = mapper_onto transactions (insert t.hash t mapper)

  -- `_collect_batch(transactions)`
  unfoldable pub collect_batch :
      Provider → Bool → List (Transaction Float) → Outcome (Collected Float)
  unfolding receipt_rpc_requests collect_receipts
  collect_batch make_request is_batch transactions =
      let mapper = mapper_onto transactions [] in
      receipt_rpc_requests make_request (keys mapper) is_batch >>= λ results.
      collect_receipts results (mapper, [])

-- `(x.block_number, x.log_index)`
abbrev pub place_of : Log → ℕ × ℕ
place_of x = (x.block_number, x.log_index)

-- `_process`
unfoldable pub process : List Log → List Log
process = sort_by place_of

-- The block that a log says it is in.
abbrev pub block_of : Log → InBlock
block_of l = record { timestamp = l.block_timestamp; hash = l.block_hash; number = l.block_number }

abbrev pub logs_in : List (Option ReceiptDict) → ℕ
logs_in [] = 0
logs_in (none ∷ results) = logs_in results
logs_in (some receipt ∷ results) = length receipt.logs + logs_in results

pub keys-insert {ℓ} :
    {V : Type ℓ} (k : Text) {v : V} (w : V) (d : Dict Text V)
    → lookup k d ≡ some v
    → keys (insert k w d) ≡ keys d
unfolding insert lookup
keys-insert k w [] h = cc
keys-insert k w ((j, u) ∷ d) h = elim (Bool-cases (k == j)) [
  | inl same ↦ rw same refl
  | inr differ ↦ rw differ (ap (λ l. j ∷ l) (keys-insert k w d (rw differ at h)))
]
