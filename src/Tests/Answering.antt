-- ===== src/Tests/Answering.antt =====
-- Balances and contracts, and answers to the calls for them that come in another order.
use mathlib.Core.List.{Mem, Perm}
use hemera_indexer.Prelude.{
  ℕ, ◌≤◌, ◌≡◌, refl, String, lookup, insert, none, some, List, [], ◌∷◌, map, All, Distinct,
}
use hemera_indexer.Errors.{codes, Returns}
use hemera_indexer.Transfers.{erc1155}
use hemera_indexer.Utils.Distinct.{distinct_collections_by_group, keep_item}
use hemera_indexer.Utils.Sorting.{Sorted, sort_by, insert_by, pair_order, nat_order, text_order}
use hemera_indexer.Balances.Answers.{TokenBalance}
use hemera_indexer.Balances.Current.{place_of, holder_of, process, process-current}
use hemera_indexer.Contracts.{Contract}
use hemera_indexer.Contracts.Senders as Senders
use hemera_indexer.Contracts.Senders.{Sent, IsFilled, process-Sorted, process-raises}

abbrev balance : ℕ → ℕ → TokenBalance
balance id block = record {
  address = codes "0x0a";
  token_id = some id;
  token_type = erc1155;
  token_address = codes "0xaa";
  balance = some 3;
  block_number = block;
  block_timestamp = 9;
}

-- Of the balances of two token ids, that of the later block is kept alone.
one_current :
    (process (balance 5 21 ∷ balance 6 20 ∷ [])).current_token_balances ≡ balance 5 21 ∷ []
unfolding process distinct_collections_by_group sort_by insert_by keep_item lookup insert
one_current = refl

process-current_example :
    let collected = balance 5 21 ∷ balance 6 20 ∷ [] in
    let done = process collected in
    Sorted place_of done.token_balances
    × Distinct (map holder_of done.current_token_balances)
    × All
        (λ x.
          (v : TokenBalance) × Mem v done.current_token_balances
          × (holder_of v ≡ holder_of x)
          × (x.block_number ≤ v.block_number))
        collected
process-current_example = process-current (balance 5 21 ∷ balance 6 20 ∷ [])

abbrev contract : String → ℕ → Contract
contract hash index = record {
  address = codes "0xc1";
  contract_creator = none;
  creation_code = none;
  deployed_code = none;
  block_number = 20;
  block_hash = "0xee";
  block_timestamp = 9;
  transaction_index = index;
  transaction_hash = hash;
  name = none;
  transaction_from_address = none;
}

abbrev sent : List Sent
sent =
    record { hash = "0x01"; from_address = "0x0a" }
    ∷ record { hash = "0x02"; from_address = "0x0b" }
    ∷ []

process-Sorted_example :
    Returns
      (λ stored.
        Sorted Senders.place_of stored
        × ((filled : List Contract) × IsFilled sent
              (contract "0x01" 1 ∷ contract "0x02" 0 ∷ [])
              filled
            × Perm stored filled))
      (Senders.process sent (contract "0x01" 1 ∷ contract "0x02" 0 ∷ []))
unfolding lookup insert
process-Sorted_example =
    process-Sorted sent (contract "0x01" 1 ∷ contract "0x02" 0 ∷ [])
      (("0x0a", refl), (("0x0b", refl), tt))
