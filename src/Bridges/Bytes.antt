-- ===== src/Bridges/Bytes.antt =====
-- Python's `bytes` as the bridges use them: lists of numbers below 256, slices, and numbers written in
-- big-endian order.
use hemera_indexer.Prelude.{
  ℕ, zero, suc, ◌+◌, ◌-◌, ◌*◌, ◌/◌, ◌%◌, ◌≤◌, ◌<◌, ◌≡◌, refl, List, [], ◌∷◌, ◌++◌, arith, length,
  length-append, length-take, length-drop, take, drop, get_elem?, some, All, All-append, ap, ◌∙◌,
  sym, append-nil,
}

abbrev pub Bytes : Type 0
Bytes = List ℕ

abbrev pub IsBytes : Bytes → Type 0
IsBytes = All (λ b. b < 256)

-- `data[start : stop]`, which like Python's slices stops at the end of the data.
unfoldable pub slice : ℕ → ℕ → Bytes → Bytes
slice start stop bytes = take (stop - start) (drop start bytes)

unfoldable pub from_bytes_onto : ℕ → Bytes → ℕ
from_bytes_onto acc [] = acc
from_bytes_onto acc (b ∷ bytes) = from_bytes_onto (256 * acc + b) bytes

-- `int.from_bytes(bytes, "big")`
unfoldable pub from_bytes : Bytes → ℕ
unfolding from_bytes_onto
from_bytes = from_bytes_onto 0

-- `n.to_bytes(width, "big")` for a number that fits.
unfoldable pub to_bytes : ℕ → ℕ → Bytes
to_bytes zero n = []
to_bytes (suc width) n = to_bytes width (n / 256) ++ (n % 256) ∷ []

-- `pow256 w` is the number of the values of `w` bytes.
abbrev pub pow256 : ℕ → ℕ
pow256 zero = 1
pow256 (suc w) = 256 * pow256 w

pub length-to_bytes : (w n : ℕ) → length (to_bytes w n) ≡ w
unfolding to_bytes
length-to_bytes zero n = refl
length-to_bytes (suc w) n =
    omega (
      arith,
      length-append {0} (to_bytes w (n / 256)) ((n % 256) ∷ []),
      length-to_bytes w (n / 256),
    )

pub to_bytes-IsBytes : (w n : ℕ) → IsBytes (to_bytes w n)
unfolding to_bytes
to_bytes-IsBytes zero n = tt
to_bytes-IsBytes (suc w) n =
    All-append (λ b. b < 256) (to_bytes w (n / 256)) ((n % 256) ∷ []) (to_bytes-IsBytes w (n / 256))
      (omega arith, tt)

from_bytes_onto-snoc :
    (acc : ℕ) (bytes : Bytes) (b : ℕ)
    → from_bytes_onto acc (bytes ++ b ∷ []) ≡ 256 * from_bytes_onto acc bytes + b
unfolding from_bytes_onto
from_bytes_onto-snoc acc [] b = refl
from_bytes_onto-snoc acc (c ∷ bytes) b = from_bytes_onto-snoc (256 * acc + c) bytes b

-- A number that fits is read back.
pub from_bytes-to_bytes : (w n : ℕ) → n < pow256 w → from_bytes (to_bytes w n) ≡ n
unfolding from_bytes from_bytes_onto to_bytes
from_bytes-to_bytes zero n h = omega arith
from_bytes-to_bytes (suc w) n h = omega (
  arith,
  from_bytes_onto-snoc 0 (to_bytes w (n / 256)) (n % 256),
  from_bytes-to_bytes w (n / 256) (omega arith),
)

from_bytes_onto-lt :
    (acc m : ℕ) (bytes : Bytes)
    → IsBytes bytes
    → acc < m
    → from_bytes_onto acc bytes < m * pow256 (length bytes)
unfolding from_bytes_onto
from_bytes_onto-lt acc m [] h lt = omega arith
from_bytes_onto-lt acc m (b ∷ bytes) h lt =
    grind (arith, from_bytes_onto-lt (256 * acc + b) (256 * m) bytes h.1 (omega (arith, h.0)))

-- A number read from `w` bytes fits into them.
pub from_bytes-lt : (bytes : Bytes) → IsBytes bytes → from_bytes bytes < pow256 (length bytes)
unfolding from_bytes
from_bytes-lt bytes h = omega (arith, from_bytes_onto-lt 0 1 bytes h)

minus-zero : (k : ℕ) → k - 0 ≡ k
minus-zero k = omega arith

minus_self : (k : ℕ) → k - k ≡ 0
minus_self k = omega arith

add-minus_self : (k w : ℕ) → k + w - k ≡ w
add-minus_self k w = omega arith

take-append : (xs ys : Bytes) (w : ℕ) → length xs ≡ w → take w (xs ++ ys) ≡ xs
take-append [] ys w h = rw (← h) refl
take-append (x ∷ xs) ys zero h = absurd (omega (arith, h))
take-append (x ∷ xs) ys (suc w) h = ap (λ l. x ∷ l) (take-append xs ys w (omega (arith, h)))

drop-append :
    (xs ys : Bytes) (w k : ℕ) → length xs ≡ w → w ≤ k → drop k (xs ++ ys) ≡ drop (k - w) ys
drop-append [] ys w k h le = rw (← h) (rw (minus-zero k) refl)
drop-append (x ∷ xs) ys zero k h le = absurd (omega (arith, h))
drop-append (x ∷ xs) ys (suc w) zero h le = absurd (omega arith)
drop-append (x ∷ xs) ys (suc w) (suc k) h le =
    drop-append xs ys w k (omega (arith, h)) (omega arith) ∙ ap (λ n. drop n ys) (omega arith)

get_elem?-append :
    (xs ys : Bytes) (w k : ℕ)
    → length xs ≡ w
    → w ≤ k
    → get_elem? (xs ++ ys) k ≡ get_elem? ys (k - w)
get_elem?-append [] ys w k h le = rw (← h) (rw (minus-zero k) refl)
get_elem?-append (x ∷ xs) ys zero k h le = absurd (omega (arith, h))
get_elem?-append (x ∷ xs) ys (suc w) zero h le = absurd (omega arith)
get_elem?-append (x ∷ xs) ys (suc w) (suc k) h le =
    get_elem?-append xs ys w k (omega (arith, h)) (omega arith)
    ∙ ap (λ n. get_elem? ys n) (omega arith)

-- What stands behind a number of `w` bytes is found past them, and the number itself before them.
module _ (w n : ℕ) (rest : Bytes) where
  slice-to_bytes : slice 0 w (to_bytes w n ++ rest) ≡ to_bytes w n
  unfolding slice
  slice-to_bytes = rw (minus-zero w) (take-append (to_bytes w n) rest w (length-to_bytes w n))

  pub drop-past : (k : ℕ) → w ≤ k → drop k (to_bytes w n ++ rest) ≡ drop (k - w) rest
  drop-past k = drop-append (to_bytes w n) rest w k (length-to_bytes w n)

  pub get_elem?-past : (k : ℕ) → w ≤ k → get_elem? (to_bytes w n ++ rest) k ≡ get_elem? rest (k - w)
  get_elem?-past k = get_elem?-append (to_bytes w n) rest w k (length-to_bytes w n)

  pub length-past : length (to_bytes w n ++ rest) ≡ w + length rest
  length-past = omega (arith, length-append {0} (to_bytes w n) rest, length-to_bytes w n)

-- Numbers written one behind the other, each with its width, and what follows them.
abbrev pub pack : List (ℕ × ℕ) → Bytes → Bytes
pack [] rest = rest
pack ((w, n) ∷ fields) rest = to_bytes w n ++ pack fields rest

abbrev pub width : List (ℕ × ℕ) → ℕ
width [] = 0
width ((w, n) ∷ fields) = w + width fields

pub length-pack :
    (fields : List (ℕ × ℕ)) (rest : Bytes) → length (pack fields rest) ≡ width fields + length rest
length-pack [] rest = omega arith
length-pack ((w, n) ∷ fields) rest =
    omega (arith, length-past w n (pack fields rest), length-pack fields rest)

-- Behind the fields stands the rest.
pub drop-pack :
    (fields : List (ℕ × ℕ)) (rest : Bytes) (k : ℕ)
    → width fields ≤ k
    → drop k (pack fields rest) ≡ drop (k - width fields) rest
drop-pack [] rest k h = rw (minus-zero k) refl
drop-pack ((w, n) ∷ fields) rest k h =
    drop-past w n (pack fields rest) k (omega arith)
    ∙ drop-pack fields rest (k - w) (omega arith)
    ∙ ap (λ i. drop i rest) (omega arith)

pub get_elem?-pack :
    (fields : List (ℕ × ℕ)) (rest : Bytes) (k : ℕ)
    → width fields ≤ k
    → get_elem? (pack fields rest) k ≡ get_elem? rest (k - width fields)
get_elem?-pack [] rest k h = rw (minus-zero k) refl
get_elem?-pack ((w, n) ∷ fields) rest k h =
    get_elem?-past w n (pack fields rest) k (omega arith)
    ∙ get_elem?-pack fields rest (k - w) (omega arith)
    ∙ ap (λ i. get_elem? rest i) (omega arith)

pub slice-pack :
    (fields : List (ℕ × ℕ)) (rest : Bytes) (start stop : ℕ)
    → width fields ≤ start
    → slice start stop (pack fields rest) ≡ slice (start - width fields) (stop - width fields) rest
unfolding slice
slice-pack fields rest start stop h =
    ap (λ l. take (stop - start) l) (drop-pack fields rest start h)
    ∙ ap (λ k. take k (drop (start - width fields) rest)) (omega arith)

-- The field behind others is found between their width and its end.
pub field-slice :
    (fields : List (ℕ × ℕ)) (w n : ℕ) (rest : Bytes)
    → slice (width fields) (width fields + w) (pack fields (to_bytes w n ++ rest)) ≡ to_bytes w n
field-slice fields w n rest =
    slice-pack fields (to_bytes w n ++ rest) (width fields) (width fields + w) (omega arith)
    ∙ rw (minus_self (width fields))
        (rw (add-minus_self (width fields) w) (slice-to_bytes w n rest))

pub field-pack :
    (fields : List (ℕ × ℕ)) (w n : ℕ) (rest : Bytes)
    → n < pow256 w
    → from_bytes (slice (width fields) (width fields + w) (pack fields (to_bytes w n ++ rest))) ≡ n
field-pack fields w n rest fits =
    ap from_bytes (field-slice fields w n rest) ∙ from_bytes-to_bytes w n fits

IsBytes-take : (n : ℕ) (bytes : Bytes) → IsBytes bytes → IsBytes (take n bytes)
IsBytes-take zero bytes h = tt
IsBytes-take (suc n) [] h = tt
IsBytes-take (suc n) (b ∷ bytes) h = (h.0, IsBytes-take n bytes h.1)

pub IsBytes-drop : (n : ℕ) (bytes : Bytes) → IsBytes bytes → IsBytes (drop n bytes)
IsBytes-drop zero bytes h = h
IsBytes-drop (suc n) [] h = tt
IsBytes-drop (suc n) (b ∷ bytes) h = IsBytes-drop n bytes h.1

pub slice-IsBytes :
    (start stop : ℕ) (bytes : Bytes) → IsBytes bytes → IsBytes (slice start stop bytes)
unfolding slice
slice-IsBytes start stop bytes h =
    IsBytes-take (stop - start) (drop start bytes) (IsBytes-drop start bytes h)

pub pack-IsBytes :
    (fields : List (ℕ × ℕ)) (rest : Bytes) → IsBytes rest → IsBytes (pack fields rest)
pack-IsBytes [] rest h = h
pack-IsBytes ((w, n) ∷ fields) rest h =
    All-append (λ b. b < 256) (to_bytes w n) (pack fields rest) (to_bytes-IsBytes w n)
      (pack-IsBytes fields rest h)

-- A slice from the start up to the end of a first part is that part.
pub slice-append : (xs ys : Bytes) → slice 0 (length xs) (xs ++ ys) ≡ xs
unfolding slice
slice-append xs ys = rw (minus-zero (length xs)) (take-append xs ys (length xs) refl)

pub length-slice :
    (start stop : ℕ) (bytes : Bytes)
    → stop ≤ length bytes
    → length (slice start stop bytes) ≡ stop - start
unfolding slice
length-slice start stop bytes h =
    omega (arith, length-take {0} (stop - start) (drop start bytes), length-drop {0} start bytes)

-- The byte at a place is the slice of that place.
pub slice-one :
    (bytes : Bytes) (k : ℕ)
    → k < length bytes
    → (b : ℕ) × (get_elem? bytes k ≡ some b) × (from_bytes (take 1 (drop k bytes)) ≡ b)
unfolding from_bytes from_bytes_onto
slice-one [] k h = absurd (omega arith)
slice-one (b ∷ bytes) zero h = (b, refl, omega arith)
slice-one (b ∷ bytes) (suc k) h = slice-one bytes k (omega arith)

-- Behind the fields, a slice of the length of the rest is the rest.
pub slice-rest :
    (fields : List (ℕ × ℕ)) (rest : Bytes)
    → slice (width fields) (width fields + length rest) (pack fields rest) ≡ rest
slice-rest fields rest =
    slice-pack fields rest (width fields) (width fields + length rest) (omega arith)
    ∙ rw (minus_self (width fields)) (
        rw (add-minus_self (width fields) (length rest))
          (ap (slice 0 (length rest)) (sym (append-nil rest)) ∙ slice-append rest []))
