-- ===== src/Prelude/Maps.antt =====
-- Python's `dict` as an association list in insertion order: a write to a known key keeps its
-- place, a write to a new key goes to the end.
use mathlib.Core.Path.{◌≡◌, refl, sym, subst, subst₂}
use mathlib.Core.Logic.{◌≢◌, inl, inr}
use mathlib.Core.Bool.{Bool, true, false}
use mathlib.Core.Option.{Option, none, some}
use mathlib.Core.List.{List, [], ◌∷◌, map, Mem, mem-cons_self, mem-cons_of_mem}
use native.Mathlib.Omega.{arith}
use hemera_indexer.Prelude.Lists.{All}
use hemera_indexer.Prelude.Tests.{Eq, ◌==◌, if◌then◌else◌, is_some, Bool-cases, ne_of_beq, beq→eq}

abbrev pub Dict {ℓ κ} : Type ℓ → Type κ → Type (ℓ ⊔ κ)
Dict K V = List (K × V)

module _ {ℓ κ} {K : Type ℓ} {V : Type κ} where
  abbrev pub keys : Dict K V → List K
  keys = map (λ e. e.0)

  abbrev pub values : Dict K V → List V
  values = map (λ e. e.1)

-- The keys of a dict differ from one another.
abbrev pub Distinct {ℓ} : {K : Type ℓ} → List K → Type ℓ
Distinct [] = Unit
Distinct (k ∷ ks) = All (λ j. j ≢ k) ks × Distinct ks

-- `k in ks`
abbrev pub has {ℓ} : {K : Type ℓ} ⦃e : Eq K⦄ → K → List K → Bool
has k [] = false
has k (j ∷ ks) = if k == j then true else has k ks

module _ {ℓ κ} {K : Type ℓ} {V : Type κ} ⦃e : Eq K⦄ where
  -- `d.get(k)`
  unfoldable pub lookup : K → Dict K V → Option V
  lookup k [] = none
  lookup k ((j, v) ∷ d) = if k == j then some v else lookup k d

  -- `k in d`
  abbrev pub contains : K → Dict K V → Bool
  contains k d = is_some (lookup k d)

  -- `d[k] = f(d.get(k))`, as in an update of a defaultdict.
  unfoldable pub update : (Option V → V) → K → Dict K V → Dict K V
  update f k [] = (k, f none) ∷ []
  update f k ((j, w) ∷ d) = if k == j then (j, f (some w)) ∷ d else (j, w) ∷ update f k d

  -- `d[k] = v`
  unfoldable pub insert : K → V → Dict K V → Dict K V
  unfolding update
  insert k v = update (λ _. v) k

  pub lookup-update :
      (f : Option V → V) (k j : K) (d : Dict K V)
      → lookup j (update f k d) ≡ (if j == k then some (f (lookup k d)) else lookup j d)
  unfolding lookup update
  lookup-update f k j [] = refl
  lookup-update f k j ((i, w) ∷ d) =
      ground (arith, lookup-update f k j d, e.beq_iff k i, e.beq_iff j i, e.beq_iff j k)

  pub lookup-insert :
      (k j : K) (v : V) (d : Dict K V)
      → lookup j (insert k v d) ≡ (if j == k then some v else lookup j d)
  unfolding insert
  lookup-insert k j v d = lookup-update (λ _. v) k j d

  All-keys-update :
      (P : K → Type ℓ) (f : Option V → V) (k : K) (d : Dict K V)
      → P k
      → All P (keys d)
      → All P (keys (update f k d))
  unfolding update
  All-keys-update P f k [] p h = (p, tt)
  All-keys-update P f k ((j, w) ∷ d) p h = elim (Bool-cases (k == j)) [
    | inl same ↦ rw same h
    | inr other ↦ rw other (h.0, All-keys-update P f k d p h.1)
  ]

  -- A write keeps the keys distinct.
  pub Distinct-update :
      (f : Option V → V) (k : K) (d : Dict K V) → Distinct (keys d) → Distinct (keys (update f k d))
  unfolding update
  Distinct-update f k [] h = (tt, tt)
  Distinct-update f k ((j, w) ∷ d) h = elim (Bool-cases (k == j)) [
    | inl same ↦ rw same h
    | inr other ↦
        rw other
          (All-keys-update (λ i. i ≢ j) f k d (ne_of_beq other) h.0, Distinct-update f k d h.1)
  ]

  -- What holds of the old entries and of the new one holds of all entries after a write.
  pub All-insert {μ} :
      (P : K × V → Type μ) (k : K) (v : V) (d : Dict K V)
      → ((j : K) → (k == j) ≡ true → P (j, v))
      → P (k, v)
      → All P d
      → All P (insert k v d)
  unfolding insert
  All-insert P k v [] same p h = (p, tt)
  All-insert P k v ((j, w) ∷ d) same p h = elim (Bool-cases (k == j)) [
    | inl here ↦ rw here (same j here, h.1)
    | inr there ↦ rw there (h.0, All-insert P k v d same p h.1)
  ]

  -- A value that is found is among the values.
  pub mem-values : (k : K) {v : V} (d : Dict K V) → lookup k d ≡ some v → Mem v (values d)
  unfolding lookup
  mem-values k [] h = cc
  mem-values k {v} ((j, w) ∷ d) h = elim (Bool-cases (k == j)) [
    | inl here ↦ let e : w ≡ v = ground arith in subst (λ u. Mem u (w ∷ values d)) e mem-cons_self
    | inr there ↦ mem-cons_of_mem w (mem-values k d (rw there at h))
  ]

  -- An entry that is found has what all entries have.
  pub All-lookup {μ} :
      (P : K → V → Type μ) (k : K) {v : V} (d : Dict K V)
      → All (λ x. P x.0 x.1) d
      → lookup k d ≡ some v
      → P k v
  unfolding lookup
  All-lookup P k [] h f = cc
  All-lookup P k {v} ((j, w) ∷ d) h f = elim (Bool-cases (k == j)) [
    | inl here ↦
        let u : w ≡ v = ground arith in let i : j ≡ k = sym (beq→eq here) in subst₂ P i u h.0
    | inr there ↦ All-lookup P k d h.1 (rw there at f)
  ]
