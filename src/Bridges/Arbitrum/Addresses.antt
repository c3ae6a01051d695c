-- ===== src/Bridges/Arbitrum/Addresses.antt =====
-- indexer/modules/bridge/arbitrum/arb_parser.py: what `strip_leading_zeros` makes of the word that holds an
-- address.
use hemera_indexer.Prelude.{
  ℕ, zero, suc, ◌≤◌, ◌<◌, ◌≡◌, refl, true, false, [], ◌∷◌, ◌++◌, arith, length, nat_beq,
  if◌then◌else◌, All-append, ap, ◌∙◌, sym,
}
use hemera_indexer.Errors.{returns}
use hemera_indexer.Bridges.Bytes.{Bytes, IsBytes, to_bytes, to_bytes-IsBytes}
use hemera_indexer.Bridges.Hex.{from_hex-hex_of}
use hemera_indexer.Bridges.Arbitrum.Messages.{
  to_hex, zero_address, lstrip_zeros, is_zeros, strip_bytes_leading_zeros, strip_leading_zeros,
}

-- An address in a word of 32 bytes, as the ABI has it.
abbrev pub address_word : Bytes → Bytes
address_word address = to_bytes 12 0 ++ address

nat_beq-zero : (n : ℕ) → 0 < n → nat_beq n 0 ≡ false
nat_beq-zero n h = ground arith

lstrip_zeros-le : (bytes : Bytes) → length (lstrip_zeros bytes) ≤ length bytes
unfolding lstrip_zeros
lstrip_zeros-le [] = omega arith
lstrip_zeros-le (b ∷ bytes) = ground (arith, lstrip_zeros-le bytes)

kept :
    (first : ℕ) (rest : Bytes)
    → 0 < first
    → (if is_zeros (first ∷ rest) then zero_address else lstrip_zeros (first ∷ rest)) ≡ first ∷ rest
unfolding is_zeros lstrip_zeros
kept first rest h = rw (nat_beq-zero first h) refl

shorter :
    (first : ℕ) (rest : Bytes)
    → first ≡ 0
    → length (first ∷ rest) ≡ 20
    → length (lstrip_zeros (first ∷ rest)) < 20
unfolding lstrip_zeros
shorter first rest none long = rw none (omega (arith, lstrip_zeros-le rest, long))

zero_bytes : ℕ → Bytes
zero_bytes zero = []
zero_bytes (suc n) = 0 ∷ zero_bytes n

-- Twenty bytes that are all zero are `bytes(20)`.
zeros-eq : (n : ℕ) (bytes : Bytes) → is_zeros bytes ≡ true → length bytes ≡ n → bytes ≡ zero_bytes n
unfolding is_zeros zero_bytes
zeros-eq zero [] h e = refl
zeros-eq zero (b ∷ bytes) h e = absurd (omega (arith, e))
zeros-eq (suc n) [] h e = absurd (omega (arith, e))
zeros-eq (suc n) (b ∷ bytes) h e = ground (arith, zeros-eq n bytes)

strip-word :
    (address : Bytes)
    → length address ≡ 20
    → strip_bytes_leading_zeros (address_word address)
      ≡ (if is_zeros address then zero_address else lstrip_zeros address)
unfolding strip_bytes_leading_zeros lstrip_zeros is_zeros to_bytes
strip-word address long = rw long refl

strip_leading_zeros-word :
    (address : Bytes)
    → IsBytes address
    → length address ≡ 20
    → strip_leading_zeros (to_hex (address_word address))
      ≡ returns (to_hex (if is_zeros address then zero_address else lstrip_zeros address))
unfolding strip_leading_zeros
strip_leading_zeros-word address bytes long =
    rw
      (from_hex-hex_of (address_word address)
        (All-append (λ b. b < 256) (to_bytes 12 0) address (to_bytes-IsBytes 12 0) bytes))
      (ap (λ b. returns (to_hex b)) (strip-word address long))

-- Of the word of an address the address is left if it begins with a byte that is not zero, or is all
-- zero. Any other address that begins with a zero byte is left with fewer than its twenty bytes.
pub strip_leading_zeros-address :
    (first : ℕ) (rest : Bytes)
    → IsBytes (first ∷ rest)
    → length (first ∷ rest) ≡ 20
    → (0 < first
        → strip_leading_zeros (to_hex (address_word (first ∷ rest)))
          ≡ returns (to_hex (first ∷ rest)))
      × (is_zeros (first ∷ rest) ≡ true
          → strip_leading_zeros (to_hex (address_word (first ∷ rest)))
            ≡ returns (to_hex (first ∷ rest)))
      × (first ≡ 0
          → is_zeros (first ∷ rest) ≡ false
          → (short : Bytes) × (strip_leading_zeros (to_hex (address_word (first ∷ rest)))
              ≡ returns (to_hex short))
            × (length short < 20))
unfolding to_bytes zero_bytes
strip_leading_zeros-address first rest bytes long =
    let stripped = strip_leading_zeros-word (first ∷ rest) bytes long in
    (
      λ positive. stripped ∙ ap (λ b. returns (to_hex b)) (kept first rest positive),
      λ all_zero.
          stripped
          ∙ rw all_zero
              (ap (λ b. returns (to_hex b)) (sym (zeros-eq 20 (first ∷ rest) all_zero long))),
      λ leading other.
          (lstrip_zeros (first ∷ rest), stripped ∙ rw other refl, shorter first rest leading long),
    )
