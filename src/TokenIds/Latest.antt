-- ===== src/TokenIds/Latest.antt =====
-- The buffer of `ExportTokenIdInfosJob`, which details a batch puts into it, and what `_process` keeps.
use mathlib.Core.List.{Mem, mem-cons_self, mem-cons_of_mem}
use hemera_indexer.Prelude.{ℕ, ◌≤◌, ◌≡◌, refl, List, [], ◌∷◌, ◌++◌, map, All, All-map, Distinct, Eq}
use hemera_indexer.Errors.{Message}
use hemera_indexer.Transfers.{Address}
use hemera_indexer.Utils.Sorting.{nat_order, text_order, pair_order, eq_of_order}
use hemera_indexer.Utils.Groups.{latest_of_each, latest_of_each-latest}
use hemera_indexer.TokenIds.Requests.{
  Place, Detail, erc721_detail, erc721_update, erc721_change, erc1155_detail, erc1155_update,
}

-- `_data_buff`, with a list for each type of output.
pub record DataBuff : Type 0 where
  pub erc721_details : List (Place × Message)
  pub erc721_updates : List (Place × Address)
  pub erc721_changes : List (Place × Address)
  pub erc1155_details : List (Place × Message)
  pub erc1155_updates : List (Place × ℕ)

-- `_collect_item(item.type(), item)`
unfoldable pub collect_item : Detail → DataBuff → DataBuff
collect_item (erc721_detail p uri) b = record b {
  erc721_details = b.erc721_details ++ (p, uri) ∷ [];
}
collect_item (erc721_update p owner) b = record b {
  erc721_updates = b.erc721_updates ++ (p, owner) ∷ [];
}
collect_item (erc721_change p owner) b = record b {
  erc721_changes = b.erc721_changes ++ (p, owner) ∷ [];
}
collect_item (erc1155_detail p uri) b = record b {
  erc1155_details = b.erc1155_details ++ (p, uri) ∷ [];
}
collect_item (erc1155_update p supply) b = record b {
  erc1155_updates = b.erc1155_updates ++ (p, supply) ∷ [];
}

-- The loop of `_collect_batch`.
unfoldable pub collect_items : List Detail → DataBuff → DataBuff
collect_items [] b = b
collect_items (item ∷ items) b = collect_items items (collect_item item b)

-- `(x.token_address, x.token_id)`
abbrev pub token_of {ℓ} : {V : Type ℓ} → Place × V → Address × ℕ
token_of (p, v) = (p.token_address, p.token_id)

abbrev pub block_of {ℓ} : {V : Type ℓ} → Place × V → ℕ
block_of (p, v) = p.block_number

instance abbrev pub token_eq : Eq (Address × ℕ)
token_eq = eq_of_order pair_order

-- `_process`
unfoldable pub process : DataBuff → DataBuff
process b = record b {
  erc721_updates = latest_of_each token_of block_of b.erc721_updates;
  erc1155_updates = latest_of_each token_of block_of b.erc1155_updates;
}

-- `kept` has exactly one of the entries of each token id, and one of its last block.
abbrev pub IsLatest : {V : Type 0} → List (Place × V) → List (Place × V) → Type 0
IsLatest {V} entries kept =
    Distinct (map token_of kept)
    × All
        (λ x. (v : Place × V) × Mem v kept × (token_of v ≡ token_of x) × (block_of x ≤ block_of v))
        entries
    × All (λ v. Mem v entries) kept

All-Mem {ℓ} : {A : Type ℓ} (xs : List A) → All (λ x. Mem x xs) xs
All-Mem [] = tt
All-Mem (x ∷ xs) = (mem-cons_self, All-map (λ y h. mem-cons_of_mem x h) xs (All-Mem xs))

latest_of_each-IsLatest :
    {V : Type 0} (entries : List (Place × V))
    → IsLatest entries (latest_of_each token_of block_of entries)
latest_of_each-IsLatest entries =
    let (apart, covered, from) = latest_of_each-latest token_of block_of entries in
    (apart, covered, from _ (All-Mem entries))

-- After `_process` there is one update for each token id that was updated, with an owner or a supply
-- that was read at the last of its blocks; the changes and the details stay as they were collected.
pub process-IsLatest :
    (b : DataBuff)
    → IsLatest b.erc721_updates (process b).erc721_updates
      × IsLatest b.erc1155_updates (process b).erc1155_updates
      × ((process b).erc721_changes ≡ b.erc721_changes)
      × ((process b).erc721_details ≡ b.erc721_details)
      × ((process b).erc1155_details ≡ b.erc1155_details)
unfolding process
process-IsLatest b = (
  latest_of_each-IsLatest b.erc721_updates,
  latest_of_each-IsLatest b.erc1155_updates,
  refl,
  refl,
  refl,
)
