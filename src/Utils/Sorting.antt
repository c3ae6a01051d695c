-- ===== src/Utils/Sorting.antt =====
-- Python's `list.sort` with a `key`, and `itertools.groupby` as the jobs use it after a sort. Tuples and
-- texts are compared as Python compares them, position by position.
use mathlib.Core.List.{Perm}
use mathlib.Core.List.Perm
use hemera_indexer.Prelude.{
  ℕ, ◌≡◌, ◌↔◌, Eq, refl, inl, inr, Bool, true, false, ◌||◌, ◌&&◌, not, List, [], ◌∷◌, arith,
  if◌then◌else◌, ltb, nat_beq, All, All-map, Bool-cases,
}
use hemera_indexer.Errors.{Message}

-- `<` on the keys.
pub record Order {ℓ} (K : Type ℓ) : Type ℓ where
  pub less : K → K → Bool
  pub irrefl : (a : K) → less a a ≡ false
  pub trans : (a b c : K) → less a b ≡ true → less b c ≡ true → less a c ≡ true
  pub total : (a b : K) → less a b ≡ false → less b a ≡ false → a ≡ b

module _ {ℓ} {K : Type ℓ} (o : Order K) where
  -- Keys of which neither is the smaller are the same.
  abbrev pub same_key : K → K → Bool
  same_key a b = not (o.less a b) && not (o.less b a)

  pub same_key_iff : (a b : K) → (same_key a b ≡ true) ↔ (a ≡ b)
  same_key_iff a b =
      (λ h. o.total a b (ground arith) (ground arith), λ p. rw p (rw (o.irrefl b) refl))

  abbrev pub eq_of_order : Eq K
  eq_of_order = record { beq = same_key; beq_iff = same_key_iff }

pub ltb_irrefl : (a : ℕ) → ltb a a ≡ false
ltb_irrefl a = ground arith

pub ltb_trans : (a b c : ℕ) → ltb a b ≡ true → ltb b c ≡ true → ltb a c ≡ true
ltb_trans a b c h g = ground arith

pub ltb-total : (a b : ℕ) → ltb a b ≡ false → ltb b a ≡ false → a ≡ b
ltb-total a b h g = ground arith

instance abbrev pub nat_order : Order ℕ
nat_order = record { less = ltb; irrefl = ltb_irrefl; trans = ltb_trans; total = ltb-total }

abbrev pub less_text : Message → Message → Bool
less_text s [] = false
less_text [] (d ∷ t) = true
less_text (c ∷ s) (d ∷ t) = ltb c d || nat_beq c d && less_text s t

pub less_text_irrefl : (s : Message) → less_text s s ≡ false
less_text_irrefl [] = refl
less_text_irrefl (c ∷ s) = ground (arith, less_text_irrefl s)

pub less_text_trans :
    (s t u : Message) → less_text s t ≡ true → less_text t u ≡ true → less_text s u ≡ true
less_text_trans s [] u h g = cc
less_text_trans s (d ∷ t) [] h g = cc
less_text_trans [] (d ∷ t) (e ∷ u) h g = refl
less_text_trans (c ∷ s) (d ∷ t) (e ∷ u) h g = ground (arith, less_text_trans s t u)

pub less_text-total : (s t : Message) → less_text s t ≡ false → less_text t s ≡ false → s ≡ t
less_text-total [] [] h g = refl
less_text-total [] (d ∷ t) h g = cc
less_text-total (c ∷ s) [] h g = cc
less_text-total (c ∷ s) (d ∷ t) h g =
    let heads : c ≡ d = ground arith in
    let tails : s ≡ t = less_text-total s t (ground arith) (ground arith) in cc

instance abbrev pub text_order : Order Message
text_order = record {
  less = less_text;
  irrefl = less_text_irrefl;
  trans = less_text_trans;
  total = less_text-total;
}

module _ {ℓ κ} {K : Type ℓ} {L : Type κ} ⦃o : Order K⦄ ⦃p : Order L⦄ where
  -- The first position decides, unless it is the same in both.
  abbrev pub less_pair : K × L → K × L → Bool
  less_pair (a, x) (b, y) = o.less a b || not (o.less b a) && p.less x y

  pub less_pair_irrefl : (s : K × L) → less_pair s s ≡ false
  less_pair_irrefl (a, x) = ground (arith, o.irrefl a, p.irrefl x)

  pub less_pair_trans :
      (s t u : K × L) → less_pair s t ≡ true → less_pair t u ≡ true → less_pair s u ≡ true
  less_pair_trans (a, x) (b, y) (c, z) h g =
      ground (
        arith,
        o.trans a b c,
        o.trans b c a,
        o.trans c a b,
        o.total a b,
        o.total b c,
        p.trans x y z,
      )

  pub less_pair-total : (s t : K × L) → less_pair s t ≡ false → less_pair t s ≡ false → s ≡ t
  less_pair-total (a, x) (b, y) h g =
      let firsts : a ≡ b = o.total a b (ground arith) (ground arith) in
      let seconds : x ≡ y = p.total x y (ground arith) (ground arith) in cc

  instance abbrev pub pair_order : Order (K × L)
  pair_order = record {
    less = less_pair;
    irrefl = less_pair_irrefl;
    trans = less_pair_trans;
    total = less_pair-total;
  }

module _ {ℓ κ} {A : Type ℓ} {K : Type κ} ⦃o : Order K⦄ (key : A → K) where
  -- A new entry stands before those of the same key: the entries come from the right.
  unfoldable pub insert_by : A → List A → List A
  insert_by x [] = x ∷ []
  insert_by x (y ∷ ys) =
      let rest = insert_by x ys in if o.less (key y) (key x) then y ∷ rest else x ∷ y ∷ ys

  -- `items.sort(key=key)`; it is stable.
  unfoldable pub sort_by : List A → List A
  sort_by [] = []
  sort_by (x ∷ xs) = insert_by x (sort_by xs)

  -- `x` may stand before `y`.
  abbrev pub Before : A → A → Type 0
  Before x y = o.less (key y) (key x) ≡ false

  -- No entry stands before one with a smaller key.
  abbrev pub Sorted : List A → Type 0
  Sorted [] = Unit
  Sorted (x ∷ xs) = All (Before x) xs × Sorted xs

  Before-trans : (x y z : A) → Before x y → Before y z → Before x z
  Before-trans x y z h g = elim (Bool-cases (o.less (key z) (key x))) [
    | inr holds ↦ holds
    | inl swapped ↦ elim (Bool-cases (o.less (key x) (key y))) [
      | inl first ↦ cc (o.trans (key z) (key x) (key y) swapped first)
      | inr same ↦ let one : key x ≡ key y = o.total (key x) (key y) same h in cc
    ]
  ]

  Before-of_less : (x y : A) → o.less (key x) (key y) ≡ true → Before x y
  Before-of_less x y h = elim (Bool-cases (o.less (key y) (key x))) [
    | inr holds ↦ holds
    | inl swapped ↦ cc (o.trans (key x) (key y) (key x) h swapped, o.irrefl (key x))
  ]

  insert_by-perm : (x : A) (ys : List A) → Perm (insert_by x ys) (x ∷ ys)
  unfolding insert_by
  insert_by-perm x [] = Perm.rfl
  insert_by-perm x (y ∷ ys) = elim (Bool-cases (o.less (key y) (key x))) [
    | inl later ↦ rw later (Perm.trans (Perm.cons y (insert_by-perm x ys)) (Perm.swap x y ys))
    | inr here ↦ rw here Perm.rfl
  ]

  -- Sorting keeps every entry as often as it is there.
  pub sort_by-perm : (xs : List A) → Perm (sort_by xs) xs
  unfolding sort_by
  sort_by-perm [] = Perm.rfl
  sort_by-perm (x ∷ xs) = Perm.trans (insert_by-perm x (sort_by xs)) (Perm.cons x (sort_by-perm xs))

  pub All-insert_by {μ} :
      (P : A → Type μ) (x : A) (ys : List A) → P x → All P ys → All P (insert_by x ys)
  unfolding insert_by
  All-insert_by P x [] p h = (p, tt)
  All-insert_by P x (y ∷ ys) p h = elim (Bool-cases (o.less (key y) (key x))) [
    | inl later ↦ rw later (h.0, All-insert_by P x ys p h.1)
    | inr here ↦ rw here (p, h)
  ]

  All-of_insert_by {μ} :
      (P : A → Type μ) (x : A) (ys : List A) → All P (insert_by x ys) → P x × All P ys
  unfolding insert_by
  All-of_insert_by P x [] h = h
  All-of_insert_by P x (y ∷ ys) h = elim (Bool-cases (o.less (key y) (key x))) [
    | inl later ↦
        let (p, q) = rw later at h in let (r, s) = All-of_insert_by P x ys q in (r, (p, s))
    | inr here ↦ rw here at h
  ]

  pub All-sort_by {μ} : (P : A → Type μ) (xs : List A) → All P xs → All P (sort_by xs)
  unfolding sort_by
  All-sort_by P [] h = tt
  All-sort_by P (x ∷ xs) h = All-insert_by P x (sort_by xs) h.0 (All-sort_by P xs h.1)

  pub All-of_sort_by {μ} : (P : A → Type μ) (xs : List A) → All P (sort_by xs) → All P xs
  unfolding sort_by
  All-of_sort_by P [] h = tt
  All-of_sort_by P (x ∷ xs) h =
      let (p, q) = All-of_insert_by P x (sort_by xs) h in (p, All-of_sort_by P xs q)

  insert_by-Sorted : (x : A) (ys : List A) → Sorted ys → Sorted (insert_by x ys)
  unfolding insert_by
  insert_by-Sorted x [] h = (tt, tt)
  insert_by-Sorted x (y ∷ ys) h = elim (Bool-cases (o.less (key y) (key x))) [
    | inl later ↦
        rw later
          (All-insert_by (Before y) x ys (Before-of_less y x later) h.0, insert_by-Sorted x ys h.1)
    | inr here ↦ rw here ((here, All-map (λ z g. Before-trans x y z here g) ys h.0), h)
  ]

  pub sort_by-Sorted : (xs : List A) → Sorted (sort_by xs)
  unfolding sort_by
  sort_by-Sorted [] = tt
  sort_by-Sorted (x ∷ xs) = insert_by-Sorted x (sort_by xs) (sort_by-Sorted xs)
