-- ===== src/Scheduler/Counts.antt =====
-- How often a class occurs in a list, and sums over a list of classes.
use hemera_indexer.Prelude.{
  ℕ, ◌+◌, ◌≤◌, ◌≡◌, refl, true, List, [], ◌∷◌, ◌++◌, arith, if◌then◌else◌, ◌==◌, nat_eq, ltb,
  length,
}
use hemera_indexer.Scheduler.{JobClass, elem}

abbrev pub count : JobClass → List JobClass → ℕ
count j [] = 0
count j (k ∷ ks) = (if j == k then 1 else 0) + count j ks

abbrev pub total : (JobClass → ℕ) → List JobClass → ℕ
total f [] = 0
total f (k ∷ ks) = f k + total f ks

abbrev pub NoTwice : List JobClass → Type 0
NoTwice ks = (j : JobClass) → count j ks ≤ 1

pub count-append :
    (j : JobClass) (xs ys : List JobClass) → count j (xs ++ ys) ≡ count j xs + count j ys
count-append j [] ys = omega arith
count-append j (x ∷ xs) ys = omega (arith, count-append j xs ys)

pub elem-eq-ltb : (j : JobClass) (ks : List JobClass) → elem j ks ≡ ltb 0 (count j ks)
elem-eq-ltb j [] = refl
elem-eq-ltb j (k ∷ ks) = ground (arith, elem-eq-ltb j ks)

pub NoTwice-tail : (k : JobClass) (ks : List JobClass) → NoTwice (k ∷ ks) → NoTwice ks
NoTwice-tail k ks h j = omega (arith, h j)

-- `remove` takes a class out of a list.
abbrev without : JobClass → List JobClass → List JobClass
without k [] = []
without k (x ∷ xs) = if k == x then without k xs else x ∷ without k xs

length-without :
    (k : JobClass) (xs : List JobClass) → length xs ≡ count k xs + length (without k xs)
length-without k [] = refl
length-without k (x ∷ xs) = ground (arith, length-without k xs)

count-without :
    (j k : JobClass) (xs : List JobClass)
    → count j (without k xs) ≡ (if j == k then 0 else count j xs)
count-without j k [] = ground arith
count-without j k (x ∷ xs) = ground (arith, count-without j k xs)

count-without-le :
    (k : JobClass) (ks xs : List JobClass)
    → NoTwice (k ∷ ks)
    → ((j : JobClass) → count j xs ≤ count j (k ∷ ks))
    → (j : JobClass) → count j (without k xs) ≤ count j ks
count-without-le k ks xs once h j = rw (count-without j k xs) (ground (arith, h j))

count-head-le :
    (k : JobClass) (ks xs : List JobClass)
    → NoTwice (k ∷ ks)
    → ((j : JobClass) → count j xs ≤ count j (k ∷ ks))
    → count k xs ≤ 1
count-head-le k ks xs once h = omega (arith, h k, once k)

pub length-le :
    (ks xs : List JobClass)
    → NoTwice ks
    → ((j : JobClass) → count j xs ≤ count j ks)
    → length xs ≤ length ks
length-le [] [] once h = omega arith
length-le [] (x ∷ xs) once h = absurd (ground (arith, h x))
length-le (k ∷ ks) xs once h = omega (
  arith,
  length-without k xs,
  count-head-le k ks xs once h,
  length-le ks (without k xs) (NoTwice-tail k ks once) (count-without-le k ks xs once h),
)

pub count-eq :
    (ks xs : List JobClass)
    → NoTwice ks
    → ((j : JobClass) → count j xs ≤ count j ks)
    → length xs ≡ length ks
    → (j : JobClass) → count j xs ≡ count j ks
count-eq [] [] once h same j = refl
count-eq [] (x ∷ xs) once h same j = absurd (ground (arith, h x))
count-eq (k ∷ ks) xs once h same j =
    let le = count-without-le k ks xs once h in
    let tail_once = NoTwice-tail k ks once in
    let split = length-without k xs in
    let head = count-head-le k ks xs once h in
    let shorter = length-le ks (without k xs) tail_once le in
    let rest = count-eq ks (without k xs) tail_once le (omega arith) j in
    ground (arith, count-without j k xs, once k)

-- A sum that changes at one class.
pub total-cong :
    (f g : JobClass → ℕ) (ks : List JobClass)
    → ((j : JobClass) → f j ≡ g j)
    → total f ks ≡ total g ks
total-cong f g [] h = refl
total-cong f g (k ∷ ks) h = omega (arith, h k, total-cong f g ks h)

pub total-bump :
    (f g : JobClass → ℕ) (i : JobClass) (n : ℕ) (ks : List JobClass)
    → NoTwice ks
    → ((j : JobClass) → g j ≡ f j + (if j == i then n else 0))
    → total g ks ≡ total f ks + (if elem i ks then n else 0)
total-bump f g i n [] once h = omega arith
total-bump f g i n (k ∷ ks) once h =
    ground (arith, h k, once i, elem-eq-ltb i ks, total-bump f g i n ks (NoTwice-tail k ks once) h)

pub le-total :
    (f : JobClass → ℕ) (i : JobClass) (ks : List JobClass) → elem i ks ≡ true → f i ≤ total f ks
le-total f i (k ∷ ks) h = ground (arith, le-total f i ks)
le-total f i [] h = absurd cc

pub total-zero :
    (f : JobClass → ℕ) (ks : List JobClass)
    → ((i : JobClass) → elem i ks ≡ true → f i ≡ 0)
    → total f ks ≡ 0
total-zero f [] h = refl
total-zero f (k ∷ ks) h =
    omega (arith, h k (ground arith), total-zero f ks (λ i hi. h i (ground arith)))
