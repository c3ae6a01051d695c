-- ===== src/Balances/Coins.antt =====
-- indexer/jobs/export_coin_balances_job.py: the addresses of a range of blocks, each with its block,
-- and the balances in the node's answers.
use hemera_indexer.Prelude.{
  has, ℕ, ◌≡◌, refl, String, Bool, false, ◌||◌, Option, none, some, List, [], ◌∷◌, ◌++◌, arith,
  ◌==◌, Eq, eq_of_discrete, string_discrete, nat_discrete, Distinct,
}
use hemera_indexer.Balances.{set_of, has-set_of, Distinct-set_of}

pub record AddressRecord : Type 0 where
  pub address : String
  pub block_number : ℕ
  pub block_timestamp : ℕ

pub AddressRecord-discrete : Discrete AddressRecord
AddressRecord-discrete = hlevel (string_discrete, nat_discrete)

instance abbrev pub record_eq : Eq AddressRecord
record_eq = eq_of_discrete AddressRecord-discrete

-- The fields that are read of `Block`, `Transaction` and `ContractInternalTransaction`.
pub record Mined : Type 0 where
  pub miner : String
  pub number : ℕ
  pub timestamp : ℕ

pub record Moved : Type 0 where
  pub from_address : Option String
  pub to_address : Option String
  pub block_number : ℕ
  pub block_timestamp : ℕ

abbrev at_block : Option String → Moved → List AddressRecord
at_block none m = []
at_block (some address) m =
    record { address = address; block_number = m.block_number; block_timestamp = m.block_timestamp }
    ∷ []

-- The records that the three loops add, in their order.
abbrev of_blocks : List Mined → List AddressRecord
of_blocks [] = []
of_blocks (b ∷ bs) =
    record { address = b.miner; block_number = b.number; block_timestamp = b.timestamp }
    ∷ of_blocks bs

abbrev of_transactions : List Moved → List AddressRecord
of_transactions [] = []
of_transactions (t ∷ ts) =
    at_block t.from_address t ++ at_block t.to_address t ++ of_transactions ts

abbrev of_traces : List Moved → List AddressRecord
of_traces [] = []
of_traces (t ∷ ts) = at_block t.to_address t ++ at_block t.from_address t ++ of_traces ts

-- `distinct_addresses(blocks, transactions, traces)`
unfoldable pub distinct_addresses : List Mined → List Moved → List Moved → List AddressRecord
distinct_addresses blocks transactions traces =
    set_of (set_of (set_of [] (of_blocks blocks)) (of_transactions transactions)) (of_traces traces)

-- An address takes part in the movement, at its block.
abbrev takes_part : AddressRecord → Moved → Bool
takes_part r m = has r (at_block m.from_address m) || has r (at_block m.to_address m)

abbrev pub any_part : AddressRecord → List Moved → Bool
any_part r [] = false
any_part r (m ∷ ms) = takes_part r m || any_part r ms

abbrev pub any_mined : AddressRecord → List Mined → Bool
any_mined r [] = false
any_mined r (b ∷ bs) =
    r == record { address = b.miner; block_number = b.number; block_timestamp = b.timestamp }
    || any_mined r bs

has-append :
    (r : AddressRecord) (xs ys : List AddressRecord) → has r (xs ++ ys) ≡ (has r xs || has r ys)
has-append r [] ys = refl
has-append r (x ∷ xs) ys = ground (arith, has-append r xs ys)

has-of_blocks : (r : AddressRecord) (bs : List Mined) → has r (of_blocks bs) ≡ any_mined r bs
has-of_blocks r [] = refl
has-of_blocks r (b ∷ bs) = ground (arith, has-of_blocks r bs)

has-of_transactions :
    (r : AddressRecord) (ts : List Moved) → has r (of_transactions ts) ≡ any_part r ts
has-of_transactions r [] = refl
has-of_transactions r (t ∷ ts) = ground (
  arith,
  has-append r (at_block t.from_address t) (at_block t.to_address t ++ of_transactions ts),
  has-append r (at_block t.to_address t) (of_transactions ts),
  has-of_transactions r ts,
)

has-of_traces : (r : AddressRecord) (ts : List Moved) → has r (of_traces ts) ≡ any_part r ts
has-of_traces r [] = refl
has-of_traces r (t ∷ ts) = ground (
  arith,
  has-append r (at_block t.to_address t) (at_block t.from_address t ++ of_traces ts),
  has-append r (at_block t.from_address t) (of_traces ts),
  has-of_traces r ts,
)

-- The balances that are asked for are, each once, those of the miners of the blocks at their blocks,
-- and of the two sides of each transaction and of each internal transaction, as far as they have them.
pub distinct_addresses-exact :
    (blocks : List Mined) (transactions traces : List Moved)
    → Distinct (distinct_addresses blocks transactions traces)
      × ((r : AddressRecord)
          → has r (distinct_addresses blocks transactions traces)
            ≡ (any_mined r blocks || any_part r transactions || any_part r traces))
unfolding distinct_addresses
distinct_addresses-exact blocks transactions traces =
    let mined = set_of [] (of_blocks blocks) in
    let sent = set_of mined (of_transactions transactions) in
    (
      Distinct-set_of sent (of_traces traces) (
          Distinct-set_of mined (of_transactions transactions)
            (Distinct-set_of [] (of_blocks blocks) tt)),
      λ r. ground (
        arith,
        has-set_of r sent (of_traces traces),
        has-set_of r mined (of_transactions transactions),
        has-set_of r [] (of_blocks blocks),
        has-of_blocks r blocks,
        has-of_transactions r transactions,
        has-of_traces r traces,
      ),
    )
