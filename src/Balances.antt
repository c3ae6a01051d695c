-- ===== src/Balances.antt =====
-- indexer/jobs/export_coin_balances_job.py and indexer/jobs/export_token_balances_job.py: the balances
-- that a range of blocks makes the indexer ask for, and what it makes of the answers.
pub mod Coins
pub mod Tokens
pub mod Answers
pub mod Current
use hemera_indexer.Prelude.{
  has, ℕ, Bool, true, false, List, [], ◌∷◌, ◌++◌, if◌then◌else◌, ◌==◌, Eq, ◌≡◌, refl, ◌||◌, arith,
  Bool-cases, beq→eq, inl, inr, ap, ◌∙◌, All, All-append, ◌≢◌, ne_of_beq, Distinct, beq_refl,
}

module _ {ℓ} {A : Type ℓ} ⦃e : Eq A⦄ where
  -- `set.add`; the order in which a set is read is of no account.
  abbrev pub set_add : A → List A → List A
  set_add x xs = if has x xs then xs else xs ++ x ∷ []

  abbrev pub set_of : List A → List A → List A
  set_of found [] = found
  set_of found (x ∷ xs) = set_of (set_add x found) xs

  has-snoc : (y : A) (xs : List A) (x : A) → has y (xs ++ x ∷ []) ≡ (has y xs || y == x)
  has-snoc y [] x = ground arith
  has-snoc y (z ∷ xs) x = ground (arith, has-snoc y xs x)

  has-set_add : (y x : A) (xs : List A) → has y (set_add x xs) ≡ (has y xs || y == x)
  has-set_add y x xs = elim (Bool-cases (has x xs)) [
    | inl old ↦ elim (Bool-cases (y == x)) [
      | inl same ↦
          let y_is : y ≡ x = beq→eq same in
          let found : has y xs ≡ true = ap (λ z. has z xs) y_is ∙ old in rw (old, same, found) refl
      | inr differ ↦ rw (old, differ) (ground arith)
    ]
    | inr new ↦ rw new (has-snoc y xs x)
  ]

  pub has-set_of : (y : A) (found xs : List A) → has y (set_of found xs) ≡ (has y found || has y xs)
  has-set_of y found [] = ground arith
  has-set_of y found (x ∷ xs) =
      ground (arith, has-set_of y (set_add x found) xs, has-set_add y x found)

  All-set_add {κ} : (P : A → Type κ) (x : A) (xs : List A) → All P xs → P x → All P (set_add x xs)
  All-set_add P x xs h p = elim (Bool-cases (has x xs)) [
    | inl old ↦ rw old h
    | inr new ↦ rw new (All-append P xs (x ∷ []) h (p, tt))
  ]

  pub All-set_of {κ} :
      (P : A → Type κ) (found xs : List A) → All P found → All P xs → All P (set_of found xs)
  All-set_of P found [] h k = h
  All-set_of P found (x ∷ xs) h k =
      All-set_of P (set_add x found) xs (All-set_add P x found h k.0) k.1

  Distinct-snoc : (xs : List A) (x : A) → has x xs ≡ false → Distinct xs → Distinct (xs ++ x ∷ [])
  Distinct-snoc [] x new h = (tt, tt)
  Distinct-snoc (y ∷ xs) x new h =
      let differ : (x == y) ≡ false = ground arith in
      (
        All-append (λ j. j ≢ y) xs (x ∷ []) h.0 (ne_of_beq differ, tt),
        Distinct-snoc xs x (ground arith) h.1,
      )

  Distinct-set_add : (x : A) (xs : List A) → Distinct xs → Distinct (set_add x xs)
  Distinct-set_add x xs h = elim (Bool-cases (has x xs)) [
    | inl old ↦ rw old h
    | inr new ↦ rw new (Distinct-snoc xs x new h)
  ]

  pub Distinct-set_of : (found xs : List A) → Distinct found → Distinct (set_of found xs)
  Distinct-set_of found [] h = h
  Distinct-set_of found (x ∷ xs) h =
      Distinct-set_of (set_add x found) xs (Distinct-set_add x found h)
