-- ===== src/Recorders/Decimal.antt =====
-- `str(n)` and `int(s)` of a number: the text of a file recorder.
use hemera_indexer.Prelude.{
  ℕ, zero, suc, ◌+◌, ◌-◌, ◌*◌, ◌/◌, ◌%◌, ◌≤◌, ◌<◌, ◌≡◌, refl, Bool, true, ◌&&◌, Option, none, some,
  [], ◌∷◌, ◌++◌, arith, if◌then◌else◌, leb, ltb, ◌==◌, nat_eq, length, length-append, ap,
}
use hemera_indexer.Errors.{Message}

-- The digits, on fuel: a number has no more digits than it counts.
unfoldable pub digits_of : ℕ → ℕ → Message
digits_of zero n = (48 + n % 10) ∷ []
digits_of (suc fuel) n =
    let rest = digits_of fuel (n / 10) in
    if ltb n 10 then (48 + n % 10) ∷ [] else rest ++ (48 + n % 10) ∷ []

-- `str(n)`
abbrev pub str_of : ℕ → Message
str_of n = digits_of n n

abbrev is_digit : ℕ → Bool
is_digit c = leb 48 c && leb c 57

abbrev if_last : ℕ → Message → Option ℕ
if_last n [] = some n
if_last n (c ∷ text) = none

unfoldable pub read_digits : ℕ → Message → Option ℕ
read_digits n [] = some n
read_digits n (c ∷ text) =
    let rest = read_digits (n * 10 + (c - 48)) text in
    if is_digit c then rest else if c == 10 then if_last n text else none

-- `int(text)`, for a text of digits that a line end may follow. Python reads other texts as well, with
-- signs, spaces and underscores, which a recorder does not write: they are `none` here.
abbrev pub int_of : Message → Option ℕ
int_of [] = none
int_of (c ∷ text) = if is_digit c then read_digits 0 (c ∷ text) else none

abbrev all_digits : Message → Bool
all_digits [] = true
all_digits (c ∷ text) = is_digit c && all_digits text

abbrev value : ℕ → Message → ℕ
value n [] = n
value n (c ∷ text) = value (n * 10 + (c - 48)) text

read_digits-line :
    (n : ℕ) (text : Message)
    → all_digits text ≡ true
    → read_digits n (text ++ 10 ∷ []) ≡ some (value n text)
unfolding read_digits
read_digits-line n [] h = refl
read_digits-line n (c ∷ text) h =
    ground (arith, read_digits-line (n * 10 + (c - 48)) text (ground arith))

value-snoc :
    (n : ℕ) (text : Message) (c : ℕ) → value n (text ++ c ∷ []) ≡ value n text * 10 + (c - 48)
value-snoc n [] c = refl
value-snoc n (d ∷ text) c = value-snoc (n * 10 + (d - 48)) text c

all_digits-snoc :
    (text : Message) (c : ℕ) → all_digits (text ++ c ∷ []) ≡ (all_digits text && is_digit c)
all_digits-snoc [] c = ground arith
all_digits-snoc (d ∷ text) c = ground (arith, all_digits-snoc text c)

digits_of-digits : (fuel n : ℕ) → all_digits (digits_of fuel n) ≡ true
unfolding digits_of
digits_of-digits zero n = ground arith
digits_of-digits (suc fuel) n =
    ground (
      arith,
      digits_of-digits fuel (n / 10),
      all_digits-snoc (digits_of fuel (n / 10)) (48 + n % 10),
    )

value-digits_of : (fuel n : ℕ) → n ≤ fuel → value 0 (digits_of fuel n) ≡ n
unfolding digits_of
value-digits_of zero n h = ground arith
value-digits_of (suc fuel) n h =
    let shorter : n / 10 ≤ fuel = omega arith in
    ground (
      arith,
      value-digits_of fuel (n / 10) shorter,
      value-snoc 0 (digits_of fuel (n / 10)) (48 + n % 10),
    )

int_of-line :
    (text : Message)
    → all_digits text ≡ true
    → 0 < length text
    → int_of (text ++ 10 ∷ []) ≡ some (value 0 text)
int_of-line [] h l = absurd (omega arith)
int_of-line (c ∷ text) h l = ground (arith, read_digits-line 0 (c ∷ text) h)

length-digits_of : (fuel n : ℕ) → 0 < length (digits_of fuel n)
unfolding digits_of
length-digits_of zero n = omega arith
length-digits_of (suc fuel) n =
    ground (arith, length-append (digits_of fuel (n / 10)) ((48 + n % 10) ∷ []))

-- The text of a number with a line end behind it is read as the number.
pub int_of-str_of : (n : ℕ) → int_of (str_of n ++ 10 ∷ []) ≡ some n
int_of-str_of n =
    rw (int_of-line (str_of n) (digits_of-digits n n) (length-digits_of n n))
      (ap some (value-digits_of n n (omega arith)))
