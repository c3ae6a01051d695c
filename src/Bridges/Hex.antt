-- ===== src/Bridges/Hex.antt =====
-- Hexadecimal text as Python reads and writes it: `bytes.hex`, `bytes.fromhex` and `int(text, 16)`. A
-- text is the list of its code points. White space and signs are refused here; the texts of the node
-- have none.
use hemera_indexer.Prelude.{
  ℕ, zero, suc, ◌+◌, ◌-◌, ◌*◌, ◌/◌, ◌%◌, ◌<◌, ◌≡◌, refl, ◌&&◌, Option, none, some, [], ◌∷◌, arith,
  length, take, drop, ltb, leb, if◌then◌else◌, ap, ◌∙◌, All,
}
use hemera_indexer.Errors.{Message, Outcome, returns, raises, value_error, ◌>>=◌}
use hemera_indexer.Bridges.Bytes.{Bytes, IsBytes, slice, from_bytes, from_bytes_onto}

-- The code point of the digit `d`.
unfoldable pub hex_digit : ℕ → ℕ
hex_digit d = if ltb d 10 then 48 + d else 87 + d

-- `bytes.hex()`
unfoldable pub hex_of : Bytes → Message
unfolding hex_digit
hex_of [] = []
hex_of (b ∷ bytes) = hex_digit (b / 16) ∷ hex_digit (b % 16) ∷ hex_of bytes

-- The value of a digit, in small or in capital letters.
unfoldable pub digit_value : ℕ → Option ℕ
digit_value c =
    if leb 48 c && leb c 57
    then some (c - 48)
    else if leb 97 c && leb c 102
    then some (c - 87)
    else if leb 65 c && leb c 70
    then some (c - 55)
    else none

from_digits : Option ℕ → Option ℕ → Outcome Bytes → Outcome Bytes
from_digits (some high) (some low) rest = rest >>= λ bytes. returns ((16 * high + low) ∷ bytes)
from_digits (some high) none rest = raises value_error
from_digits none low rest = raises value_error

-- `bytes.fromhex(text)`
unfoldable pub from_hex : Message → Outcome Bytes
unfolding from_digits digit_value
from_hex [] = returns []
from_hex (c ∷ []) = raises value_error
from_hex (c ∷ d ∷ text) = from_digits (digit_value c) (digit_value d) (from_hex text)

read_hex : ℕ → Message → Outcome ℕ
read_hex acc [] = returns acc
read_hex acc (c ∷ text) = elim (digit_value c) [
  | none ↦ raises value_error
  | some d ↦ read_hex (16 * acc + d) text
]

-- `int(text, 16)`, which refuses an empty text.
unfoldable pub int_16 : Message → Outcome ℕ
unfolding read_hex digit_value
int_16 [] = raises value_error
int_16 (c ∷ text) = read_hex 0 (c ∷ text)

digit_value-hex_digit : (d : ℕ) → d < 16 → digit_value (hex_digit d) ≡ some d
unfolding digit_value hex_digit
digit_value-hex_digit d h = ground arith

-- Bytes are read back as they were written.
pub from_hex-hex_of : (bytes : Bytes) → IsBytes bytes → from_hex (hex_of bytes) ≡ returns bytes
unfolding from_hex hex_of
from_hex-hex_of [] h = refl
from_hex-hex_of (b ∷ bytes) h = rw (digit_value-hex_digit (b / 16) (omega (arith, h.0))) (
    rw (digit_value-hex_digit (b % 16) (omega arith))
      (rw (from_hex-hex_of bytes h.1) (ap (λ n. returns (n ∷ bytes)) (omega arith))))

read_hex-hex_of :
    (acc : ℕ) (bytes : Bytes)
    → IsBytes bytes
    → read_hex acc (hex_of bytes) ≡ returns (from_bytes_onto acc bytes)
unfolding read_hex hex_of from_bytes_onto
read_hex-hex_of acc [] h = refl
read_hex-hex_of acc (b ∷ bytes) h =
    rw (digit_value-hex_digit (b / 16) (omega (arith, h.0)), read_hex)
      (rw (digit_value-hex_digit (b % 16) (omega arith), read_hex)
        (ap (λ n. read_hex n (hex_of bytes)) (omega arith)
          ∙ read_hex-hex_of (256 * acc + b) bytes h.1))

-- And so is a number.
pub int_16-hex_of :
    (bytes : Bytes)
    → IsBytes bytes
    → 0 < length bytes
    → int_16 (hex_of bytes) ≡ returns (from_bytes bytes)
unfolding int_16 hex_of from_bytes
int_16-hex_of [] h pos = absurd (omega arith)
int_16-hex_of (b ∷ bytes) h pos = read_hex-hex_of 0 (b ∷ bytes) h

two_more : (n : ℕ) → 2 * suc n ≡ suc (suc (2 * n))
two_more n = omega arith

two_minus : (a b : ℕ) → 2 * b - 2 * a ≡ 2 * (b - a)
two_minus a b = omega arith

take-hex_of : (n : ℕ) (bytes : Bytes) → take (2 * n) (hex_of bytes) ≡ hex_of (take n bytes)
unfolding hex_of
take-hex_of zero bytes = refl
take-hex_of (suc n) [] = ap (λ k. take k (hex_of [])) (two_more n)
take-hex_of (suc n) (b ∷ bytes) =
    ap (λ k. take k (hex_of (b ∷ bytes))) (two_more n)
    ∙ ap (λ l. hex_digit (b / 16) ∷ hex_digit (b % 16) ∷ l) (take-hex_of n bytes)

pub drop-hex_of : (n : ℕ) (bytes : Bytes) → drop (2 * n) (hex_of bytes) ≡ hex_of (drop n bytes)
unfolding hex_of
drop-hex_of zero bytes = refl
drop-hex_of (suc n) [] = ap (λ k. drop k (hex_of [])) (two_more n)
drop-hex_of (suc n) (b ∷ bytes) =
    ap (λ k. drop k (hex_of (b ∷ bytes))) (two_more n) ∙ drop-hex_of n bytes

-- A slice of the text at even places is the text of a slice.
pub slice-hex_of :
    (start stop : ℕ) (bytes : Bytes)
    → slice (2 * start) (2 * stop) (hex_of bytes) ≡ hex_of (slice start stop bytes)
unfolding slice
slice-hex_of start stop bytes = rw (drop-hex_of start bytes) (
    ap (λ k. take k (hex_of (drop start bytes))) (two_minus start stop)
    ∙ take-hex_of (stop - start) (drop start bytes))

-- A text of digits, of an even length, is read.
abbrev pub IsHexDigit : ℕ → Type 0
IsHexDigit c = (d : ℕ) × (digit_value c ≡ some d) × (d < 16)

pub from_hex-IsHexDigit :
    (k : ℕ) (text : Message)
    → All IsHexDigit text
    → length text ≡ 2 * k
    → (bytes : Bytes) × (from_hex text ≡ returns bytes) × IsBytes bytes
unfolding from_hex
from_hex-IsHexDigit k [] h even = ([], refl, tt)
from_hex-IsHexDigit k (c ∷ []) h even = absurd (omega (arith, even))
from_hex-IsHexDigit zero (c ∷ d ∷ text) h even = absurd (omega (arith, even))
from_hex-IsHexDigit (suc k) (c ∷ d ∷ text)
      ((high, high_read, high_fits), ((low, low_read, low_fits), rest)) even =
    let (bytes, read, fit) = from_hex-IsHexDigit k text rest (omega (arith, even)) in
    (
      (16 * high + low) ∷ bytes,
      rw (high_read, from_digits) (rw low_read (rw read refl)),
      (omega arith, fit),
    )

pub hex_of-IsHexDigit : (bytes : Bytes) → IsBytes bytes → All IsHexDigit (hex_of bytes)
unfolding hex_of
hex_of-IsHexDigit [] h = tt
hex_of-IsHexDigit (b ∷ bytes) h = (
  (b / 16, digit_value-hex_digit (b / 16) (omega (arith, h.0)), omega (arith, h.0)),
  (
    (b % 16, digit_value-hex_digit (b % 16) (omega arith), omega arith),
    hex_of-IsHexDigit bytes h.1,
  ),
)

pub hex_digit-IsHexDigit : (d : ℕ) → d < 16 → IsHexDigit (hex_digit d)
hex_digit-IsHexDigit d h = (d, digit_value-hex_digit d h, h)

pub length-hex_of : (bytes : Bytes) → length (hex_of bytes) ≡ 2 * length bytes
unfolding hex_of
length-hex_of [] = refl
length-hex_of (b ∷ bytes) = omega (arith, length-hex_of bytes)
