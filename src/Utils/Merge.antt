-- ===== src/Utils/Merge.antt =====
-- `merge_sort` of indexer/utils/utils.py: the merge of two collections that are sorted by "id".
-- The indices into the two columns are modelled by what is left of each column.
use mathlib.Core.List.{Perm, perm_middle}
use mathlib.Core.List.Perm
use hemera_indexer.Prelude.{
  ℕ, ◌≤◌, inl, inr, List, [], ◌∷◌, ◌++◌, append-nil, arith, if◌then◌else◌, ltb, ltb→lt, ltb→le,
  Bool-cases, All,
}

module _ {ℓ} {A : Type ℓ} (id : A → ℕ) where
  pub merge_sort : List A → List A → List A
  merge_sort [] col_b = col_b
  merge_sort (a ∷ col_a) [] = a ∷ col_a
  merge_sort (a ∷ col_a) (b ∷ col_b) =
      let take_a = merge_sort col_a (b ∷ col_b) in
      let take_b = merge_sort (a ∷ col_a) col_b in
      if ltb (id a) (id b) then a ∷ take_a else b ∷ take_b

  -- The merge has the entries of both columns, each as often as they have it.
  pub merge_sort-perm : (col_a col_b : List A) → Perm (merge_sort col_a col_b) (col_a ++ col_b)
  unfolding merge_sort
  merge_sort-perm [] col_b = Perm.rfl
  merge_sort-perm (a ∷ col_a) [] = rw append-nil Perm.rfl
  merge_sort-perm (a ∷ col_a) (b ∷ col_b) = elim (Bool-cases (ltb (id a) (id b))) [
    | inl first ↦ rw first (Perm.cons a (merge_sort-perm col_a (b ∷ col_b)))
    | inr second ↦ rw second (
        Perm.trans (Perm.cons b (merge_sort-perm (a ∷ col_a) col_b))
          (Perm.symm (perm_middle (a ∷ col_a) col_b)))
  ]

  -- Every entry is at least as large as those before it.
  abbrev pub Ascending : List A → Type 0
  Ascending [] = Unit
  Ascending (x ∷ xs) = All (λ y. id x ≤ id y) xs × Ascending xs

  All-le_of_le : (x y : ℕ) (xs : List A) → x ≤ y → All (λ z. y ≤ id z) xs → All (λ z. x ≤ id z) xs
  All-le_of_le x y [] h below = tt
  All-le_of_le x y (z ∷ xs) h below = (omega arith, All-le_of_le x y xs h below.1)

  All-merge_sort :
      (P : A → Type 0) (col_a col_b : List A)
      → All P col_a
      → All P col_b
      → All P (merge_sort col_a col_b)
  unfolding merge_sort
  All-merge_sort P [] col_b ha hb = hb
  All-merge_sort P (a ∷ col_a) [] ha hb = ha
  All-merge_sort P (a ∷ col_a) (b ∷ col_b) ha hb = elim (Bool-cases (ltb (id a) (id b))) [
    | inl first ↦ rw first (ha.0, All-merge_sort P col_a (b ∷ col_b) ha.1 hb)
    | inr second ↦ rw second (hb.0, All-merge_sort P (a ∷ col_a) col_b ha hb.1)
  ]

  -- The merge of two sorted columns is sorted.
  pub merge_sort-Ascending :
      (col_a col_b : List A)
      → Ascending col_a
      → Ascending col_b
      → Ascending (merge_sort col_a col_b)
  unfolding merge_sort
  merge_sort-Ascending [] col_b ha hb = hb
  merge_sort-Ascending (a ∷ col_a) [] ha hb = ha
  merge_sort-Ascending (a ∷ col_a) (b ∷ col_b) ha hb = elim (Bool-cases (ltb (id a) (id b))) [
    | inl first ↦
        let less = ltb→lt (id a) (id b) first in
        let above = All-le_of_le (id a) (id b) col_b (omega arith) hb.0 in
        rw first (
          All-merge_sort (λ y. id a ≤ id y) col_a (b ∷ col_b) ha.0 (omega arith, above),
          merge_sort-Ascending col_a (b ∷ col_b) ha.1 hb,
        )
    | inr second ↦
        let le = ltb→le (id a) (id b) second in
        let above = All-le_of_le (id b) (id a) col_a le ha.0 in
        rw second (
          All-merge_sort (λ y. id b ≤ id y) (a ∷ col_a) col_b (le, above) hb.0,
          merge_sort-Ascending (a ∷ col_a) col_b ha hb.1,
        )
  ]
