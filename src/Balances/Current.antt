-- ===== src/Balances/Current.antt =====
-- `ExportTokenBalancesJob._process` of indexer/jobs/export_token_balances_job.py: the balances in order,
-- and the current one of each holder.
use mathlib.Core.List.{Mem}
use hemera_indexer.Prelude.{ℕ, ◌≤◌, ◌≡◌, some, List, map, All, Distinct, Eq}
use hemera_indexer.Transfers.{Address}
use hemera_indexer.Utils.Sorting.{
  nat_order, text_order, pair_order, eq_of_order, sort_by, Sorted, sort_by-Sorted, All-of_sort_by,
}
use hemera_indexer.Utils.Distinct.{
  distinct_collections_by_group, distinct_collections_by_group-Distinct,
  distinct_collections_by_group_max,
}
use hemera_indexer.Balances.Answers.{TokenBalance}

-- `(x.block_number, x.address)`
abbrev pub place_of : TokenBalance → ℕ × Address
place_of x = (x.block_number, x.address)

-- `group_by=["token_address", "address"]`
abbrev pub holder_of : TokenBalance → Address × Address
holder_of x = (x.token_address, x.address)

instance abbrev pub holder_eq : Eq (Address × Address)
holder_eq = eq_of_order pair_order

pub record BalanceBuff : Type 0 where
  pub token_balances : List TokenBalance
  pub current_token_balances : List TokenBalance

-- `_process`, of the balances that the job has collected; a `CurrentTokenBalance` has the fields of the
-- balance.
unfoldable pub process : List TokenBalance → BalanceBuff
process collected =
    let sorted = sort_by place_of collected in
    record {
      token_balances = sorted;
      current_token_balances =
          distinct_collections_by_group holder_of (some (λ x. x.block_number)) sorted;
    }

-- The balances are sorted by block and holder. There is one current balance for each token contract and
-- holder, whatever token ids it has been asked for, and for each balance that was collected the current
-- one of its contract and holder is of its block or of a later one.
pub process-current :
    (collected : List TokenBalance)
    → let done = process collected in
      Sorted place_of done.token_balances
      × Distinct (map holder_of done.current_token_balances)
      × All
          (λ x.
            (v : TokenBalance) × Mem v done.current_token_balances
            × (holder_of v ≡ holder_of x)
            × (x.block_number ≤ v.block_number))
          collected
unfolding process
process-current collected =
    let sorted = sort_by place_of collected in
    (
      sort_by-Sorted place_of collected,
      distinct_collections_by_group-Distinct holder_of (some (λ x. x.block_number)) sorted,
      All-of_sort_by place_of _ collected
          (distinct_collections_by_group_max holder_of (λ x. x.block_number) sorted),
    )
