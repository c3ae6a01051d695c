-- ===== src/Tests/Reading.antt =====
-- Blocks and their transactions.
use hemera_indexer.Prelude.{◌≡◌, refl, none, some, [], ◌∷◌, All, lookup, length}
use hemera_indexer.Errors.{Message, codes, returns, lower, Returns}
use hemera_indexer.Domain.{Fields, EthUtils}
use hemera_indexer.Domain.Logs.{InBlock}
use hemera_indexer.Domain.Receipts.{TransactionDict, no_block}
use hemera_indexer.Domain.Blocks.{
  Block, BlockDict, IsReadable, block_from_rpc, block_from_rpc-transactions,
}

abbrev eth : EthUtils
eth = record {
  to_int = λ text. returns (length text);
  to_normalized_address = λ text. returns (lower text);
}

abbrev sent : TransactionDict
sent = record {
  fields =
      ("hash", some (codes "0x01"))
      ∷ ("transactionIndex", some (codes "0"))
      ∷ ("from", some (codes "0x0A"))
      ∷ ("value", some (codes "0"))
      ∷ ("input", some (codes "0x"))
      ∷ ("nonce", some (codes "0"))
      ∷ ("gas", some (codes "0"))
      ∷ ("gasPrice", some (codes "0"))
      ∷ [];
  blob_versioned_hashes = [];
}

abbrev fields : Fields
fields =
    ("number", some (codes "20"))
    ∷ ("timestamp", some (codes "9"))
    ∷ ("hash", some (codes "0xee"))
    ∷ ("parentHash", some (codes "0xed"))
    ∷ ("nonce", some (codes "0x0"))
    ∷ ("gasLimit", some (codes "0"))
    ∷ ("gasUsed", some (codes "0"))
    ∷ ("difficulty", some (codes "0"))
    ∷ ("size", some (codes "0"))
    ∷ ("miner", some (codes "0x0B"))
    ∷ ("sha3Uncles", some (codes "0x"))
    ∷ ("transactionsRoot", some (codes "0x"))
    ∷ ("stateRoot", some (codes "0x"))
    ∷ ("receiptsRoot", some (codes "0x"))
    ∷ []

abbrev block_dict : BlockDict
block_dict = record { fields = fields; transactions = sent ∷ [] }

abbrev place : InBlock
place = record { timestamp = 1; hash = some (codes "0xee"); number = 2 }

abbrev rest : Block Message
rest = record {
  block = no_block;
  parent_hash = some (codes "0xed");
  nonce = some (codes "0x0");
  gas_limit = 1;
  gas_used = 1;
  base_fee_per_gas = 1;
  blob_gas_used = 1;
  excess_blob_gas = 1;
  difficulty = 1;
  total_difficulty = 1;
  size = 1;
  miner = lower (codes "0x0B");
  sha3_uncles = some (codes "0x");
  transactions_root = some (codes "0x");
  state_root = some (codes "0x");
  receipts_root = some (codes "0x");
  transactions = [];
  extra_data = none;
  withdrawals_root = none;
}

sent-IsReadable : IsReadable Message eth sent
unfolding lookup
sent-IsReadable = (_, refl)

block_from_rpc-transactions_example :
    Returns
      (λ b.
        (b.block ≡ place) × (length b.transactions ≡ 1) × All (λ t. t.block ≡ place) b.transactions)
      (block_from_rpc Message eth block_dict)
unfolding lookup
block_from_rpc-transactions_example =
    block_from_rpc-transactions Message eth block_dict place rest refl refl (sent-IsReadable, tt)
