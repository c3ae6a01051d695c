-- ===== src/Utils/Groups.antt =====
-- `[list(group)[-1] for key, group in groupby(items, key)]` after a sort by the key and a rank, as
-- indexer/jobs/export_token_id_infos_job.py has it: the last entry of each key.
use mathlib.Core.List.{Mem, mem-cons_self, mem-cons_of_mem}
use hemera_indexer.Prelude.{
  ℕ, ◌≤◌, ◌≡◌, refl, sym, ap, subst, ◌∙◌, inl, inr, ◌≢◌, true, false, List, [], ◌∷◌, map, arith,
  if◌then◌else◌, ◌==◌, Eq, ltb→le, All, All-map, Bool-cases, beq→eq, ne_of_beq, Distinct,
}
use hemera_indexer.Utils.Sorting.{
  Order, nat_order, pair_order, sort_by, Sorted, Before, sort_by-Sorted, All-sort_by,
  All-of_sort_by,
}

module _ {ℓ κ} {A : Type ℓ} {K : Type κ} ⦃e : Eq K⦄ (key : A → K) where
  -- A group is its first entry and those that follow it.
  abbrev add_to_groups : A → List (A × List A) → List (A × List A)
  add_to_groups x [] = (x, []) ∷ []
  add_to_groups x ((y, ys) ∷ groups) =
      if key x == key y then (x, y ∷ ys) ∷ groups else (x, []) ∷ (y, ys) ∷ groups

  -- `groupby(items, key)`: the runs of entries with the same key.
  unfoldable pub group_by : List A → List (A × List A)
  group_by [] = []
  group_by (x ∷ xs) = add_to_groups x (group_by xs)

  -- `list(group)[-1]`
  abbrev pub last : A → List A → A
  last x [] = x
  last x (y ∷ ys) = last y ys

  abbrev pub last_of : A × List A → A
  last_of (x, xs) = last x xs

  -- The last entries of the runs, without the runs.
  abbrev lasts : List A → List A
  lasts [] = []
  lasts (x ∷ []) = x ∷ []
  lasts (x ∷ y ∷ rest) =
      let others = lasts (y ∷ rest) in if key x == key y then others else x ∷ others

  group_by-first :
      (y : A) (rest : List A)
      → (ys : List A) × (groups : List (A × List A)) × (group_by (y ∷ rest) ≡ (y, ys) ∷ groups)
  unfolding group_by
  group_by-first y rest =
      elim (group_by rest)
        as (λ gs.
          (ys : List A) × (groups : List (A × List A)) × (add_to_groups y gs ≡ (y, ys) ∷ groups)) [
            | [] ↦ ([], [], refl)
            | ◌∷◌ (z, zs) groups ↦ elim (Bool-cases (key y == key z)) [
              | inl same ↦ (z ∷ zs, groups, rw same refl)
              | inr differ ↦ ([], (z, zs) ∷ groups, rw differ refl)
            ]
          ]

  group_by-eq-lasts : (xs : List A) → map last_of (group_by xs) ≡ lasts xs
  unfolding group_by
  group_by-eq-lasts [] = refl
  group_by-eq-lasts (x ∷ []) = refl
  group_by-eq-lasts (x ∷ y ∷ rest) =
      let (ys, groups, starts) = group_by-first y rest in
      let others = group_by-eq-lasts (y ∷ rest) in
      elim (Bool-cases (key x == key y)) [
        | inl same ↦ rw (starts, same) (ap (map last_of) (sym starts) ∙ others)
        | inr differ ↦
            rw (starts, differ) (ap (λ l. x ∷ l) (ap (map last_of) (sym starts) ∙ others))
      ]

  All-lasts {μ} : (P : A → Type μ) (xs : List A) → All P xs → All P (lasts xs)
  All-lasts P [] h = tt
  All-lasts P (x ∷ []) h = h
  All-lasts P (x ∷ y ∷ rest) h =
      let others = All-lasts P (y ∷ rest) h.1 in
      elim (Bool-cases (key x == key y)) [
        | inl same ↦ rw same others
        | inr differ ↦ rw differ (h.0, others)
      ]

All-map_of {ℓ κ μ} :
    {A : Type ℓ} {K : Type κ} (key : A → K) (P : K → Type μ) (xs : List A)
    → All (λ x. P (key x)) xs
    → All P (map key xs)
All-map_of key P [] h = tt
All-map_of key P (x ∷ xs) h = (h.0, All-map_of key P xs h.1)

module _ {ℓ κ} {A : Type ℓ} {K : Type κ} ⦃e : Eq K⦄ ⦃o : Order K⦄ where
  module _ (key : A → K) (rank : A → ℕ) where
    -- The sort and the comprehension.
    unfoldable pub latest_of_each : List A → List A
    latest_of_each items =
        map (last_of key) (group_by key (sort_by {K = K × ℕ} (λ x. (key x, rank x)) items))

    abbrev SortedBy : List A → Type 0
    SortedBy = Sorted {K = K × ℕ} (λ x. (key x, rank x))

    -- What stands before an entry has a smaller key, or the same and no larger a rank.
    Before-key :
        (x y : A)
        → Before {K = K × ℕ} (λ z. (key z, rank z)) x y
        → (key x == key y) ≡ false
        → o.less (key x) (key y) ≡ true
    Before-key x y h differ = elim (Bool-cases (o.less (key x) (key y))) [
      | inl less ↦ less
      | inr other ↦ absurd (ne_of_beq differ (o.total (key x) (key y) other (ground arith)))
    ]

    Before-rank :
        (x y : A) → Before {K = K × ℕ} (λ z. (key z, rank z)) x y → key x ≡ key y → rank x ≤ rank y
    Before-rank x y h same =
        let swapped : o.less (key x) (key y) ≡ false = rw same (o.irrefl (key y)) in
        ltb→le (rank y) (rank x) (ground arith)

    larger-differs :
        (x y z : A)
        → o.less (key x) (key y) ≡ true
        → Before {K = K × ℕ} (λ u. (key u, rank u)) y z
        → key z ≢ key x
    larger-differs x y z less h p =
        let swapped : o.less (key z) (key y) ≡ true = rw p less in ground arith

    -- In a sorted list, the keys of the last entries are each smaller than the next.
    lasts-Distinct : (xs : List A) → SortedBy xs → Distinct (map key (lasts key xs))
    lasts-Distinct [] h = tt
    lasts-Distinct (x ∷ []) h = (tt, tt)
    lasts-Distinct (x ∷ y ∷ rest) h =
        let others = lasts-Distinct (y ∷ rest) h.1 in
        elim (Bool-cases (key x == key y)) [
          | inl same ↦ rw same others
          | inr differ ↦
              let first = Before-key x y h.0.0 differ in
              let above : All (λ z. key z ≢ key x) (y ∷ rest) = (
                λ p. ne_of_beq differ (sym p),
                All-map (λ z g. larger-differs x y z first g) rest h.1.0,
              ) in
              rw differ (
                All-map_of key (λ k. k ≢ key x) (lasts key (y ∷ rest))
                    (All-lasts key _ (y ∷ rest) above),
                others,
              )
        ]

    abbrev Covered : List A → A → Type (ℓ ⊔ κ)
    Covered found x = (v : A) × Mem v found × (key v ≡ key x) × (rank x ≤ rank v)

    Covered-cons : (y : A) (found : List A) (x : A) → Covered found x → Covered (y ∷ found) x
    Covered-cons y found x (v, held, same, enough) = (v, mem-cons_of_mem y held, same, enough)

    lasts-Covered : (xs : List A) → SortedBy xs → All (Covered (lasts key xs)) xs
    lasts-Covered [] h = tt
    lasts-Covered (x ∷ []) h = ((x, mem-cons_self, refl, omega arith), tt)
    lasts-Covered (x ∷ y ∷ rest) h =
        let others = lasts-Covered (y ∷ rest) h.1 in
        elim (Bool-cases (key x == key y)) [
          | inl same ↦
              let one : key x ≡ key y = beq→eq same in
              let (v, held, is, enough) = others.0 in
              let less = Before-rank x y h.0.0 one in
              let kept : lasts key (x ∷ y ∷ rest) ≡ lasts key (y ∷ rest) = rw same refl in
              subst (λ l. All (Covered l) (x ∷ y ∷ rest)) (sym kept)
                ((v, held, is ∙ sym one, omega arith), others)
          | inr differ ↦
              let kept : lasts key (x ∷ y ∷ rest) ≡ x ∷ lasts key (y ∷ rest) = rw differ refl in
              subst (λ l. All (Covered l) (x ∷ y ∷ rest)) (sym kept)
                (
                  (x, mem-cons_self, refl, omega arith),
                  All-map (Covered-cons x (lasts key (y ∷ rest))) (y ∷ rest) others,
                )
        ]

    -- Of the entries with one key, exactly one is kept: one of the input, with the largest rank.
    pub latest_of_each-latest :
        (items : List A)
        → Distinct (map key (latest_of_each items))
          × All
              (λ x. (v : A) × Mem v (latest_of_each items) × (key v ≡ key x) × (rank x ≤ rank v))
              items
          × ((P : A → Type 0) → All P items → All P (latest_of_each items))
    unfolding latest_of_each
    latest_of_each-latest items =
        let full : A → K × ℕ = λ x. (key x, rank x) in
        let sorted = sort_by-Sorted full items in
        rw (group_by-eq-lasts key (sort_by full items)) (
          lasts-Distinct (sort_by full items) sorted,
          All-of_sort_by full _ items (lasts-Covered (sort_by full items) sorted),
          λ P h. All-lasts key P (sort_by full items) (All-sort_by full P items h),
        )
