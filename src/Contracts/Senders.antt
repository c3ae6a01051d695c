-- ===== src/Contracts/Senders.antt =====
-- `ExportContractsJob._process` of indexer/jobs/export_contracts_job.py: the senders of the transactions
-- that created the contracts, and the order in which the contracts are stored.
use mathlib.Core.List.{Perm}
use hemera_indexer.Prelude.{
  ℕ, ◌≡◌, refl, Option, none, some, List, [], ◌∷◌, ◌++◌, All, Dict, lookup, insert, lookup-insert,
  arith, ◌==◌, if◌then◌else◌, String, string_eq, Option-cases, inl, inr,
}
use hemera_indexer.Errors.{Message, Outcome, returns, raises, other, ◌>>=◌, Returns}
use hemera_indexer.Utils.Sorting.{
  nat_order, text_order, pair_order, sort_by, Sorted, sort_by-Sorted, sort_by-perm,
}
use hemera_indexer.Contracts.{Contract}

-- The fields that are read of `Transaction`.
pub record Sent : Type 0 where
  pub hash : String
  pub from_address : String

-- `transaction_mapping`, of the transactions of all blocks in their order.
abbrev pub mapping_onto : List Sent → Dict String String → Dict String String
mapping_onto [] mapping = mapping
mapping_onto (t ∷ transactions) mapping =
    mapping_onto transactions (insert t.hash t.from_address mapping)

-- `contract.fill_transaction_from_address(transaction_mapping[contract.transaction_hash])`
abbrev pub fill_transaction_from_address : Contract → String → Contract
fill_transaction_from_address contract address = record contract {
  transaction_from_address = some address;
}

abbrev pub sender_or_key_error : Option String → Outcome String
sender_or_key_error none = raises other
sender_or_key_error (some address) = returns address

abbrev pub fill_all : Dict String String → List Contract → Outcome (List Contract)
fill_all mapping [] = returns []
fill_all mapping (contract ∷ contracts) =
    sender_or_key_error (lookup contract.transaction_hash mapping) >>= λ address.
    fill_all mapping contracts >>= λ rest.
    returns (fill_transaction_from_address contract address ∷ rest)

-- `(x.block_number, x.transaction_index, x.address)`
abbrev pub place_of : Contract → ℕ × (ℕ × Message)
place_of x = (x.block_number, (x.transaction_index, x.address))

-- `_process`
unfoldable pub process : List Sent → List Contract → Outcome (List Contract)
process transactions contracts = fill_all (mapping_onto transactions []) contracts >>= λ filled.
    returns (sort_by place_of filled)

-- The sender of the last transaction with a hash.
abbrev pub sender_of : String → List Sent → Option String
sender_of hash [] = none
sender_of hash (t ∷ transactions) = elim (sender_of hash transactions) [
  | some later ↦ some later
  | none ↦ if hash == t.hash then some t.from_address else none
]

abbrev or_else : Option String → Option String → Option String
or_else (some a) o = some a
or_else none o = o

lookup-mapping_onto :
    (hash : String) (transactions : List Sent) (mapping : Dict String String)
    → lookup hash (mapping_onto transactions mapping)
      ≡ or_else (sender_of hash transactions) (lookup hash mapping)
lookup-mapping_onto hash [] mapping = refl
lookup-mapping_onto hash (t ∷ transactions) mapping = ground (
  arith,
  lookup-mapping_onto hash transactions (insert t.hash t.from_address mapping),
  lookup-insert t.hash hash t.from_address mapping,
)

sender_of-lookup :
    (hash : String) (transactions : List Sent)
    → lookup hash (mapping_onto transactions []) ≡ sender_of hash transactions
unfolding lookup
sender_of-lookup hash transactions = ground (arith, lookup-mapping_onto hash transactions [])

-- `filled` are the contracts in their order, each with the sender of its transaction.
abbrev pub IsFilled : List Sent → List Contract → List Contract → Type 0
IsFilled transactions [] [] = Unit
IsFilled transactions (c ∷ contracts) (d ∷ filled) =
    (sender_of c.transaction_hash transactions ≡ d.transaction_from_address)
    × (record c { transaction_from_address = d.transaction_from_address } ≡ d)
    × IsFilled transactions contracts filled
IsFilled transactions _ _ = ⊥

fill_all-Returns :
    (transactions : List Sent) (contracts : List Contract)
    → All (λ c. (a : String) × (sender_of c.transaction_hash transactions ≡ some a)) contracts
    → Returns (IsFilled transactions contracts) (fill_all (mapping_onto transactions []) contracts)
fill_all-Returns transactions [] h = ([], refl, tt)
fill_all-Returns transactions (c ∷ contracts) ((a, found), others) =
    let (filled, rest, is) = fill_all-Returns transactions contracts others in
    (
      fill_transaction_from_address c a ∷ filled,
      rw (sender_of-lookup c.transaction_hash transactions, found, rest) refl,
      (found, refl, is),
    )

-- If the transaction of each contract is in the blocks, then the job stores the contracts, each once
-- with the sender of its transaction, sorted by block, transaction and address.
pub process-Sorted :
    (transactions : List Sent) (contracts : List Contract)
    → All (λ c. (a : String) × (sender_of c.transaction_hash transactions ≡ some a)) contracts
    → Returns
        (λ stored.
          Sorted place_of stored
          × ((filled : List Contract) × IsFilled transactions contracts filled
              × Perm stored filled))
        (process transactions contracts)
unfolding process
process-Sorted transactions contracts known =
    let (filled, done, is) = fill_all-Returns transactions contracts known in
    (
      sort_by place_of filled,
      rw done refl,
      (sort_by-Sorted place_of filled, (filled, is, sort_by-perm place_of filled)),
    )

fill_all-raises :
    (transactions : List Sent) (before : List Contract) (c : Contract) (after : List Contract)
    → sender_of c.transaction_hash transactions ≡ none
    → fill_all (mapping_onto transactions []) (before ++ c ∷ after) ≡ raises other
fill_all-raises transactions [] c after missing =
    rw (sender_of-lookup c.transaction_hash transactions, missing) refl
fill_all-raises transactions (b ∷ before) c after missing =
    let rest = fill_all-raises transactions before c after missing in
    elim (Option-cases (sender_of b.transaction_hash transactions)) [
      | inl none_too ↦ rw (sender_of-lookup b.transaction_hash transactions, none_too) refl
      | inr (a, found) ↦ rw (sender_of-lookup b.transaction_hash transactions, found, rest) refl
    ]

-- One contract whose transaction is in none of the blocks makes the job raise, and no contract of the
-- range is stored.
pub process-raises :
    (transactions : List Sent) (before : List Contract) (c : Contract) (after : List Contract)
    → sender_of c.transaction_hash transactions ≡ none
    → process transactions (before ++ c ∷ after) ≡ raises other
unfolding process
process-raises transactions before c after missing =
    rw (fill_all-raises transactions before c after missing) refl
