-- ===== src/Domain/Blocks.antt =====
-- indexer/domain/block.py: `Block` and its reading from an answer, with its transactions.
use hemera_indexer.Prelude.{ℕ, ◌≡◌, refl, ap, ◌∙◌, List, [], ◌∷◌, All, arith, length}
use hemera_indexer.Errors.{Outcome, returns, ◌>>=◌, Returns}
use hemera_indexer.Transfers.{Address}
use hemera_indexer.Domain.{
  Text, Fields, field, get, EthUtils, int_field, int_or_zero, address_field,
}
use hemera_indexer.Domain.Logs.{InBlock}
use hemera_indexer.Domain.Receipts.{
  Transaction, TransactionDict, transaction_of, transaction_from_rpc, no_block,
}

-- The number, the timestamp and the hash are its `block`.
pub record Block (Float : Type 0) : Type 0 where
  pub block : InBlock
  pub parent_hash : Text
  pub nonce : Text
  pub gas_limit : ℕ
  pub gas_used : ℕ
  pub base_fee_per_gas : ℕ
  pub blob_gas_used : ℕ
  pub excess_blob_gas : ℕ
  pub difficulty : ℕ
  pub total_difficulty : ℕ
  pub size : ℕ
  pub miner : Address
  pub sha3_uncles : Text
  pub transactions_root : Text
  pub state_root : Text
  pub receipts_root : Text
  pub transactions : List (Transaction Float)
  pub extra_data : Text
  pub withdrawals_root : Text

-- `block_dict`; transactions that are missing are none, `block_dict.get("transactions", [])`.
pub record BlockDict : Type 0 where
  pub fields : Fields
  pub transactions : List TransactionDict

module _ (Float : Type 0) (eth : EthUtils) where
  abbrev pub block_read : Fields → Outcome InBlock
  block_read d = do
    timestamp ← int_field eth "timestamp" d
    hash ← field "hash" d
    number ← int_field eth "number" d
    returns (record { timestamp = timestamp; hash = hash; number = number })

  abbrev pub transactions_from_rpc :
      Fields → List TransactionDict → Outcome (List (Transaction Float))
  transactions_from_rpc d [] = returns []
  transactions_from_rpc d (t ∷ ts) = do
    block ← block_read d
    transaction ← transaction_from_rpc Float eth block t
    transactions ← transactions_from_rpc d ts
    returns (transaction ∷ transactions)

  -- The other arguments of the block, its transactions aside.
  abbrev pub block_of : Fields → Outcome (Block Float)
  block_of d = do
    parent_hash ← field "parentHash" d
    nonce ← field "nonce" d
    gas_limit ← int_field eth "gasLimit" d
    gas_used ← int_field eth "gasUsed" d
    base_fee_per_gas ← int_or_zero eth "baseFeePerGas" d
    blob_gas_used ← int_or_zero eth "blobGasUsed" d
    excess_blob_gas ← int_or_zero eth "excessBlobGas" d
    difficulty ← int_field eth "difficulty" d
    total_difficulty ← int_or_zero eth "totalDifficulty" d
    size ← int_field eth "size" d
    miner ← address_field eth "miner" d
    sha3_uncles ← field "sha3Uncles" d
    transactions_root ← field "transactionsRoot" d
    state_root ← field "stateRoot" d
    receipts_root ← field "receiptsRoot" d
    returns (record {
      block = no_block;
      parent_hash = parent_hash;
      nonce = nonce;
      gas_limit = gas_limit;
      gas_used = gas_used;
      base_fee_per_gas = base_fee_per_gas;
      blob_gas_used = blob_gas_used;
      excess_blob_gas = excess_blob_gas;
      difficulty = difficulty;
      total_difficulty = total_difficulty;
      size = size;
      miner = miner;
      sha3_uncles = sha3_uncles;
      transactions_root = transactions_root;
      state_root = state_root;
      receipts_root = receipts_root;
      transactions = [];
      extra_data = get "extraData" d;
      withdrawals_root = get "withdrawalsRoot" d;
    })

  -- `Block.from_rpc(block_dict)`
  unfoldable pub block_from_rpc : BlockDict → Outcome (Block Float)
  block_from_rpc d = transactions_from_rpc d.fields d.transactions >>= λ transactions.
      block_read d.fields >>= λ block. block_of d.fields >>= λ rest.
      returns (record rest { block = block; transactions = transactions })

  -- The arguments of the transaction can be read.
  abbrev pub IsReadable : TransactionDict → Type 0
  IsReadable t = (x : Transaction Float) × (transaction_of Float eth t ≡ returns x)

  abbrev IsWithin : InBlock → List TransactionDict → List (Transaction Float) → Type 0
  IsWithin block dicts transactions =
      (length transactions ≡ length dicts) × All (λ t. t.block ≡ block) transactions

  transactions_from_rpc-Returns :
      (d : Fields) (block : InBlock) (dicts : List TransactionDict)
      → block_read d ≡ returns block
      → All IsReadable dicts
      → Returns (IsWithin block dicts) (transactions_from_rpc d dicts)
  unfolding transaction_from_rpc
  transactions_from_rpc-Returns d block [] placed readable = ([], refl, (refl, tt))
  transactions_from_rpc-Returns d block (t ∷ dicts) placed ((x, read), readable) =
      let (xs, rest, (count, within)) =
        transactions_from_rpc-Returns d block dicts placed readable in
      let rest_of : InBlock → Outcome (List (Transaction Float)) = λ b.
        transaction_from_rpc Float eth b t >>= λ y.
        transactions_from_rpc d dicts >>= λ ys. returns (y ∷ ys) in
      let placed_in : Transaction Float → Transaction Float = λ y. record y { block = block } in
      let finish : Transaction Float → Outcome (Transaction Float) = λ y. returns (placed_in y) in
      let first : transaction_from_rpc Float eth block t ≡ returns (placed_in x) =
        ap (λ o. o >>= finish) read in
      (
        placed_in x ∷ xs,
        ap (λ o. o >>= rest_of) placed
            ∙ ap (λ o. o >>= λ y. transactions_from_rpc d dicts >>= λ ys. returns (y ∷ ys)) first
            ∙ ap (λ o. o >>= λ ys. returns (placed_in x ∷ ys)) rest,
        (omega (arith, count), (refl, within)),
      )

  -- If the number, the hash and the timestamp of a block, its other fields and those of each of its
  -- transactions can be read, then the block is read, with as many transactions as the node gave, each
  -- with the number, the hash and the timestamp of the block.
  pub block_from_rpc-transactions :
      (d : BlockDict) (block : InBlock) (rest : Block Float)
      → block_read d.fields ≡ returns block
      → block_of d.fields ≡ returns rest
      → All IsReadable d.transactions
      → Returns
          (λ b.
            (b.block ≡ block)
            × (length b.transactions ≡ length d.transactions)
            × All (λ t. t.block ≡ block) b.transactions)
          (block_from_rpc d)
  unfolding block_from_rpc
  block_from_rpc-transactions d block rest placed others readable =
      let (transactions, read, (count, within)) =
        transactions_from_rpc-Returns d.fields block d.transactions placed readable in
      let finish : List (Transaction Float) → InBlock → Block Float → Outcome (Block Float) =
        λ ts b r. returns (record r { block = b; transactions = ts }) in
      (
        record rest { block = block; transactions = transactions },
        ap (λ o. o >>= λ ts. block_read d.fields >>= λ b. block_of d.fields >>= finish ts b) read
            ∙ ap (λ o. o >>= λ b. block_of d.fields >>= finish transactions b) placed
            ∙ ap (λ o. o >>= finish transactions block) others,
        (refl, count, within),
      )
