-- ===== src/Utils/Distinct.antt =====
-- `distinct_collections_by_group` of indexer/utils/utils.py: one item for each key of a group of
-- fields, by default the first, and with a `max_key` the first of those with the largest value.
use mathlib.Core.List.{Mem}
use hemera_indexer.Prelude.{
  ℕ, ◌≤◌, ◌≡◌, refl, ◌⊎◌, inl, inr, Bool, false, Option, none, some, List, [], ◌∷◌, map, arith,
  Dict, lookup, insert, keys, values, Distinct, lookup-insert, Distinct-update, Eq, All, All-insert,
  All-lookup, mem-values, beq→eq, if◌then◌else◌, ◌==◌, ltb, ltb→lt, ltb→le, ap, All-map, Bool-cases,
  Option-cases, beq_refl,
}

module _ {ℓ κ} {A : Type ℓ} {K : Type κ} ⦃e : Eq K⦄ (group_key : A → K) where
  -- `max_key is not None and distinct[key].max_key < item.max_key`
  abbrev is_larger : Option (A → ℕ) → A → A → Bool
  is_larger none held item = false
  is_larger (some rank) held item = ltb (rank held) (rank item)

  -- One round of the loop.
  unfoldable pub keep_item : Option (A → ℕ) → A → Dict K A → Dict K A
  keep_item max_key item distinct = elim (lookup (group_key item) distinct) [
    | none ↦ insert (group_key item) item distinct
    | some held ↦
        if is_larger max_key held item then insert (group_key item) item distinct else distinct
  ]

  distinct_loop : Option (A → ℕ) → List A → Dict K A → Dict K A
  distinct_loop max_key [] distinct = distinct
  distinct_loop max_key (item ∷ rest) distinct =
      distinct_loop max_key rest (keep_item max_key item distinct)

  -- `distinct_collections_by_group(collections, group_by, max_key)`
  unfoldable pub distinct_collections_by_group : Option (A → ℕ) → List A → List A
  unfolding distinct_loop
  distinct_collections_by_group max_key collections = values (distinct_loop max_key collections [])

  -- Every entry is filed under its own key.
  abbrev OwnKey : K × A → Type κ
  OwnKey (k, v) = group_key v ≡ k

  insert-OwnKey :
      (item : A) (distinct : Dict K A)
      → All OwnKey distinct
      → All OwnKey (insert (group_key item) item distinct)
  insert-OwnKey item distinct =
      All-insert OwnKey (group_key item) item distinct (λ j h. beq→eq h) refl

  -- A round writes the item or leaves the dict alone.
  keep_item-cases :
      (max_key : Option (A → ℕ)) (item : A) (distinct : Dict K A)
      → (keep_item max_key item distinct ≡ distinct)
        ⊎ (keep_item max_key item distinct ≡ insert (group_key item) item distinct)
  unfolding keep_item
  keep_item-cases max_key item distinct = elim (Option-cases (lookup (group_key item) distinct)) [
    | inl new ↦ inr (rw (new, keep_item))
    | inr (held, old) ↦ elim (Bool-cases (is_larger max_key held item)) [
      | inl larger ↦ inr (rw (old, keep_item, larger))
      | inr smaller ↦ inl (rw (old, keep_item, smaller))
    ]
  ]

  -- What both of these keep, a round keeps.
  keep_item-Keeps :
      (P : Dict K A → Type κ) (max_key : Option (A → ℕ)) (item : A) (distinct : Dict K A)
      → P distinct
      → P (insert (group_key item) item distinct)
      → P (keep_item max_key item distinct)
  keep_item-Keeps P max_key item distinct old new = elim (keep_item-cases max_key item distinct) [
    | inl same ↦ rw same old
    | inr written ↦ rw written new
  ]

  record IsFiled (distinct : Dict K A) : Type κ where
    own : All OwnKey distinct
    apart : Distinct (keys distinct)

  keep_item-IsFiled :
      (max_key : Option (A → ℕ)) (item : A) (distinct : Dict K A)
      → IsFiled distinct
      → IsFiled (keep_item max_key item distinct)
  unfolding insert
  keep_item-IsFiled max_key item distinct h = record {
    own =
        keep_item-Keeps (All OwnKey) max_key item distinct h.own
          (insert-OwnKey item distinct h.own);
    apart =
        keep_item-Keeps (λ d. Distinct (keys d)) max_key item distinct h.apart
          (Distinct-update (λ _. item) (group_key item) distinct h.apart);
  }

  distinct_loop-IsFiled :
      (max_key : Option (A → ℕ)) (items : List A) (distinct : Dict K A)
      → IsFiled distinct
      → IsFiled (distinct_loop max_key items distinct)
  unfolding distinct_loop
  distinct_loop-IsFiled max_key [] distinct h = h
  distinct_loop-IsFiled max_key (item ∷ rest) distinct h =
      distinct_loop-IsFiled max_key rest (keep_item max_key item distinct)
        (keep_item-IsFiled max_key item distinct h)

  keys-eq-map :
      (distinct : Dict K A) → All OwnKey distinct → map group_key (values distinct) ≡ keys distinct
  keys-eq-map [] h = refl
  keys-eq-map ((k, v) ∷ d) h = cc (h.0, keys-eq-map d h.1)

  -- No two of the items that are kept agree in their group fields.
  pub distinct_collections_by_group-Distinct :
      (max_key : Option (A → ℕ)) (items : List A)
      → Distinct (map group_key (distinct_collections_by_group max_key items))
  unfolding distinct_collections_by_group
  distinct_collections_by_group-Distinct max_key items =
      let filed = distinct_loop-IsFiled max_key items [] (record { own = tt; apart = tt }) in
      rw (keys-eq-map (distinct_loop max_key items []) filed.own) filed.apart

  module _ (rank : A → ℕ) where
    -- Entry `k` holds an item of the given rank or more.
    abbrev Covers : Dict K A → K → ℕ → Type ℓ
    Covers distinct k bound = (v : A) × (lookup k distinct ≡ some v) × (bound ≤ rank v)

    keep_item-Covers_self :
        (item : A) (distinct : Dict K A)
        → Covers (keep_item (some rank) item distinct) (group_key item) (rank item)
    unfolding keep_item
    keep_item-Covers_self item distinct =
        let written = lookup-insert (group_key item) (group_key item) item distinct in
        let same = beq_refl (group_key item) in
        elim (Option-cases (lookup (group_key item) distinct)) [
          | inl new ↦ (item, rw (new, keep_item) (rw (written, same)), omega arith)
          | inr (held, old) ↦ elim (Bool-cases (ltb (rank held) (rank item))) [
            | inl larger ↦ (item, rw (old, keep_item, larger) (rw (written, same)), omega arith)
            | inr smaller ↦ (held, rw (old, keep_item, smaller) old, ltb→le _ _ smaller)
          ]
        ]

    keep_item-Covers :
        (item : A) (distinct : Dict K A) (k : K) (bound : ℕ)
        → Covers distinct k bound
        → Covers (keep_item (some rank) item distinct) k bound
    unfolding keep_item
    keep_item-Covers item distinct k bound (v, found, enough) =
        let written = lookup-insert (group_key item) k item distinct in
        elim (Option-cases (lookup (group_key item) distinct)) [
          | inl new ↦ elim (Bool-cases (k == group_key item)) [
            | inl same ↦ let one : k ≡ group_key item = beq→eq same in cc
            | inr other ↦ (v, rw (new, keep_item) (rw (written, other) found), enough)
          ]
          | inr (held, old) ↦ elim (Bool-cases (ltb (rank held) (rank item))) [
            | inl larger ↦ elim (Bool-cases (k == group_key item)) [
              | inl same ↦
                  let where_k : k ≡ group_key item = beq→eq same in
                  let one : held ≡ v = ground arith in
                  let less = ltb→lt _ _ larger in
                  let gives : rank held ≡ rank v = ap rank one in
                  (item, rw (old, keep_item, larger) (rw (written, same)), omega arith)
              | inr other ↦ (v, rw (old, keep_item, larger) (rw (written, other) found), enough)
            ]
            | inr smaller ↦ (v, rw (old, keep_item, smaller) found, enough)
          ]
        ]

    distinct_loop-Covers_kept :
        (items : List A) (distinct : Dict K A) (k : K) (bound : ℕ)
        → Covers distinct k bound
        → Covers (distinct_loop (some rank) items distinct) k bound
    unfolding distinct_loop
    distinct_loop-Covers_kept [] distinct k bound h = h
    distinct_loop-Covers_kept (item ∷ rest) distinct k bound h =
        distinct_loop-Covers_kept rest (keep_item (some rank) item distinct) k bound
          (keep_item-Covers item distinct k bound h)

    distinct_loop-Covers :
        (items : List A) (distinct : Dict K A)
        → All (λ x. Covers (distinct_loop (some rank) items distinct) (group_key x) (rank x)) items
    unfolding distinct_loop
    distinct_loop-Covers [] distinct = tt
    distinct_loop-Covers (item ∷ rest) distinct = (
      distinct_loop-Covers_kept rest (keep_item (some rank) item distinct) (group_key item)
          (rank item) (keep_item-Covers_self item distinct),
      distinct_loop-Covers rest (keep_item (some rank) item distinct),
    )

    -- With a `max_key`, every item of the input is represented in the result by an item that agrees
    -- with it in the group fields and whose value is as large or larger.
    pub distinct_collections_by_group_max :
        (items : List A)
        → All
            (λ x.
              (v : A) × Mem v (distinct_collections_by_group (some rank) items)
              × (group_key v ≡ group_key x)
              × (rank x ≤ rank v))
            items
    unfolding distinct_collections_by_group
    distinct_collections_by_group_max items =
        let distinct = distinct_loop (some rank) items [] in
        let filed = distinct_loop-IsFiled (some rank) items [] (record { own = tt; apart = tt }) in
        All-map
          (λ x (v, found, enough). (
            v,
            mem-values (group_key x) distinct found,
            All-lookup (λ k u. group_key u ≡ k) (group_key x) distinct filed.own found,
            enough,
          ))
          items (distinct_loop-Covers items [])
