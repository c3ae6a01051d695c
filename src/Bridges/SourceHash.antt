-- ===== src/Bridges/SourceHash.antt =====
-- indexer/modules/bridge/bridge_utils.py: the hash of the source of a deposit is made of text that is read.
use hemera_indexer.Prelude.{
  ℕ, zero, suc, ◌-◌, ◌*◌, ◌/◌, ◌%◌, ◌≤◌, ◌<◌, ◌≡◌, refl, [], ◌∷◌, ◌++◌, arith, length,
  length-append, ltb, ap, All, All-append, Bool-cases, inl, inr, ltb→le,
}
use hemera_indexer.Errors.{Message, returns}
use hemera_indexer.Bridges.Bytes.{Bytes, IsBytes}
use hemera_indexer.Bridges.Hex.{
  hex_digit, hex_of, from_hex-hex_of, IsHexDigit, from_hex-IsHexDigit, hex_of-IsHexDigit,
  hex_digit-IsHexDigit, length-hex_of,
}
use hemera_indexer.Bridges.DepositTx.{DepositEvent, source_hash_of, hex_digits_of, zeros, rjust_64}

-- The text `0x…` of bytes.
abbrev pub prefixed : Bytes → Message
prefixed bytes = 48 ∷ 120 ∷ hex_of bytes

zeros-IsHexDigit : (n : ℕ) → All IsHexDigit (zeros n) × (length (zeros n) ≡ n)
unfolding zeros hex_digit
zeros-IsHexDigit zero = (tt, refl)
zeros-IsHexDigit (suc n) =
    let (digits, long) = zeros-IsHexDigit n in
    ((hex_digit-IsHexDigit 0 (omega arith), digits), ap suc long)

-- A text of at most 64 digits is brought to 64.
rjust_64-IsHexDigit :
    (text : Message)
    → All IsHexDigit text
    → length text ≤ 64
    → All IsHexDigit (rjust_64 text) × (length (rjust_64 text) ≡ 64)
unfolding rjust_64
rjust_64-IsHexDigit text h short =
    let (digits, long) = zeros-IsHexDigit (64 - length text) in
    (
      All-append IsHexDigit (zeros (64 - length text)) text digits h,
      omega (arith, length-append {0} (zeros (64 - length text)) text, long),
    )

abbrev pub pow16 : ℕ → ℕ
pow16 zero = 1
pow16 (suc n) = 16 * pow16 n

two_zeros : All IsHexDigit (48 ∷ 48 ∷ [])
unfolding hex_digit
two_zeros = (hex_digit-IsHexDigit 0 (omega arith), (hex_digit-IsHexDigit 0 (omega arith), tt))

more_digits :
    (fuel n k : ℕ)
    → k < pow16 (suc n)
    → 16 ≤ k
    → ((m j : ℕ)
        → j < pow16 (suc m)
        → All IsHexDigit (hex_digits_of fuel j) × (length (hex_digits_of fuel j) ≤ suc m))
    → All IsHexDigit (hex_digits_of fuel (k / 16) ++ hex_digit (k % 16) ∷ [])
      × (length (hex_digits_of fuel (k / 16) ++ hex_digit (k % 16) ∷ []) ≤ suc n)
more_digits fuel zero k h big rest = absurd (omega arith)
more_digits fuel (suc n) k h big rest =
    let (digits, short) = rest n (k / 16) (omega arith) in
    (
      All-append IsHexDigit (hex_digits_of fuel (k / 16)) (hex_digit (k % 16) ∷ []) digits
          (hex_digit-IsHexDigit (k % 16) (omega arith), tt),
      omega
          (arith, length-append {0} (hex_digits_of fuel (k / 16)) (hex_digit (k % 16) ∷ []), short),
    )

-- The digits of a number below 16 ^ (n + 1) are at most n + 1.
hex_digits_of-IsHexDigit :
    (fuel n k : ℕ)
    → k < pow16 (suc n)
    → All IsHexDigit (hex_digits_of fuel k) × (length (hex_digits_of fuel k) ≤ suc n)
unfolding hex_digits_of
hex_digits_of-IsHexDigit zero n k h =
    ((hex_digit-IsHexDigit (k % 16) (omega arith), tt), omega arith)
hex_digits_of-IsHexDigit (suc fuel) n k h = elim (Bool-cases (ltb k 16)) [
  | inl one ↦ rw one ((hex_digit-IsHexDigit (k % 16) (omega arith), tt), omega arith)
  | inr more ↦ rw more (more_digits fuel n k h (ltb→le k 16 more) (hex_digits_of-IsHexDigit fuel))
]

-- The place of a log is text of 64 digits, and so is the domain: all of it is read.
pub source_hash_of-returns :
    (keccak : Bytes → Bytes) (event : DepositEvent) (block_hash : Bytes)
    → ((bytes : Bytes) → IsBytes (keccak bytes) × (length (keccak bytes) ≡ 32))
    → event.block_hash ≡ prefixed block_hash
    → IsBytes block_hash
    → length block_hash ≡ 32
    → event.log_index < pow16 64
    → (hash : Bytes) × (source_hash_of keccak event ≡ returns hash)
unfolding source_hash_of
source_hash_of-returns keccak event block_hash hashes written bytes long small =
    let (index_digits, index_short) =
      hex_digits_of-IsHexDigit event.log_index 63 event.log_index small in
    let (index, index_64) =
      rjust_64-IsHexDigit (hex_digits_of event.log_index event.log_index) index_digits
        index_short in
    let (block, block_64) =
      rjust_64-IsHexDigit (hex_of block_hash) (hex_of-IsHexDigit block_hash bytes)
        (omega (arith, length-hex_of block_hash, long)) in
    let (domain, domain_64) = rjust_64-IsHexDigit (48 ∷ 48 ∷ []) two_zeros (omega arith) in
    let place : Message =
      rjust_64 (hex_of block_hash) ++ rjust_64 (hex_digits_of event.log_index event.log_index) in
    let (id, id_read, _) =
      from_hex-IsHexDigit 64 place
        (All-append IsHexDigit (rjust_64 (hex_of block_hash))
          (rjust_64 (hex_digits_of event.log_index event.log_index)) block index)
        (omega (
          arith,
          length-append {0} (rjust_64 (hex_of block_hash))
              (rjust_64 (hex_digits_of event.log_index event.log_index)),
          block_64,
          index_64,
        )) in
    let (source, source_read, _) =
      from_hex-IsHexDigit 64 (rjust_64 (48 ∷ 48 ∷ []) ++ hex_of (keccak id))
        (All-append IsHexDigit (rjust_64 (48 ∷ 48 ∷ [])) (hex_of (keccak id)) domain
          (hex_of-IsHexDigit (keccak id) (hashes id).0))
        (omega (
          arith,
          length-append {0} (rjust_64 (48 ∷ 48 ∷ [])) (hex_of (keccak id)),
          domain_64,
          length-hex_of (keccak id),
          (hashes id).1,
        )) in
    (
      keccak source,
      rw written (rw id_read (rw source_read (from_hex-hex_of (keccak source) (hashes source).0))),
    )
