-- ===== src/Bridges/Deposits.antt =====
-- indexer/modules/bridge/bridge_utils.py: the opaque data of a deposit in its two versions, and the
-- nonces of messages.
use hemera_indexer.Prelude.{
  ℕ, ◌+◌, ◌*◌, ◌/◌, ◌%◌, ◌^◌, ◌≤◌, ◌<◌, ◌≡◌, refl, Bool, true, false, Option, none, some, List, [],
  ◌∷◌, arith, length, drop, get_elem?, ltb, leb, nat_beq, if◌then◌else◌, subst,
}
use hemera_indexer.Errors.{Outcome, returns, raises, assertion_error, index_error}
use hemera_indexer.Bridges.Bytes.{
  Bytes, IsBytes, slice, slice-one, length-slice, slice-IsBytes, from_bytes-lt, from_bytes, pow256,
  pack, length-pack, drop-pack, get_elem?-pack, field-pack,
}

-- `nonce >> 240` and `nonce & (2 ** 240 - 1)`
unfoldable pub get_version_and_index_from_nonce : ℕ → ℕ × ℕ
get_version_and_index_from_nonce nonce = (nonce / 2 ^ 240, nonce % 2 ^ 240)

-- What `unmarshal_deposit_version0` returns.
pub record DepositVersion0 : Type 0 where
  pub mint_option : Option ℕ
  pub value : ℕ
  pub gas : ℕ
  pub is_creation : Bool
  pub tx_data : Bytes

-- What `unmarshal_deposit_version1` returns.
pub record DepositVersion1 : Type 0 where
  pub mint_option : Option ℕ
  pub value : ℕ
  pub eth_value : ℕ
  pub eth_tx_value : ℕ
  pub gas : ℕ
  pub is_creation : Bool
  pub tx_data : Bytes

-- `None if mint == 0 else mint`
unfoldable pub mint_option_of : ℕ → Option ℕ
mint_option_of mint = if nat_beq mint 0 then none else some mint

-- An assertion that fails raises.
checked {ℓ} : {A : Type ℓ} → Bool → Outcome A → Outcome A
checked true rest = rest
checked false rest = raises assertion_error

-- `bytes[offset]`, which raises past the end.
byte_at {ℓ} : {A : Type ℓ} → Bytes → ℕ → (ℕ → Outcome A) → Outcome A
byte_at bytes offset rest = elim (get_elem? bytes offset) [
  | none ↦ raises index_error
  | some b ↦ rest b
]

-- `n.bit_length() <= 64`
abbrev fits_64 : ℕ → Bool
fits_64 n = ltb n (2 ^ 64)

-- `len(bytes) >= n`
abbrev not_shorter : ℕ → Bytes → Bool
not_shorter n bytes = leb n (length bytes)

le→leb : (a b : ℕ) → a ≤ b → leb a b ≡ true
le→leb a b h = ground arith

lt→ltb : (a b : ℕ) → a < b → ltb a b ≡ true
lt→ltb a b h = ground arith

unfoldable pub unmarshal_deposit_version0 : Bytes → Outcome DepositVersion0
unfolding checked byte_at mint_option_of
unmarshal_deposit_version0 opaque_data =
    let mint = from_bytes (slice 0 32 opaque_data) in
    let value = from_bytes (slice 32 64 opaque_data) in
    let gas = from_bytes (slice 64 72 opaque_data) in
    checked (not_shorter 73 opaque_data) (
      checked (fits_64 gas) (
        byte_at opaque_data 72 λ flag. returns (record {
          mint_option = mint_option_of mint;
          value = value;
          gas = gas;
          is_creation = nat_beq flag 1;
          tx_data = drop 73 opaque_data;
        })))

unfoldable pub unmarshal_deposit_version1 : Bytes → Outcome DepositVersion1
unfolding checked byte_at mint_option_of
unmarshal_deposit_version1 opaque_data =
    let mint = from_bytes (slice 0 32 opaque_data) in
    let value = from_bytes (slice 32 64 opaque_data) in
    let eth_value = from_bytes (slice 64 96 opaque_data) in
    let eth_tx_value = from_bytes (slice 96 128 opaque_data) in
    let gas = from_bytes (slice 128 136 opaque_data) in
    checked (not_shorter 137 opaque_data) (
      checked (fits_64 gas) (
        byte_at opaque_data 136 λ flag. returns (record {
          mint_option = mint_option_of mint;
          value = value;
          eth_value = eth_value;
          eth_tx_value = eth_tx_value;
          gas = gas;
          is_creation = nat_beq flag 1;
          tx_data = drop 137 opaque_data;
        })))

-- The layout that the contract packs: `abi.encodePacked(mint, value, gas, isCreation, data)`.
abbrev pub packed_version0 : (mint value gas flag : ℕ) → Bytes → Bytes
packed_version0 mint value gas flag tx_data =
    pack ((32, mint) ∷ (32, value) ∷ (8, gas) ∷ []) (flag ∷ tx_data)

abbrev pub packed_version1 : (mint value eth_value eth_tx_value gas flag : ℕ) → Bytes → Bytes
packed_version1 mint value eth_value eth_tx_value gas flag tx_data =
    pack ((32, mint) ∷ (32, value) ∷ (32, eth_value) ∷ (32, eth_tx_value) ∷ (8, gas) ∷ [])
      (flag ∷ tx_data)

-- Deposits of the first version are read as they were packed.
pub unmarshal_deposit_version0-packed_version0 :
    (mint value gas flag : ℕ) (tx_data : Bytes)
    → mint < pow256 32
    → value < pow256 32
    → gas < pow256 8
    → unmarshal_deposit_version0 (packed_version0 mint value gas flag tx_data)
      ≡ returns (record {
        mint_option = mint_option_of mint;
        value = value;
        gas = gas;
        is_creation = nat_beq flag 1;
        tx_data = tx_data;
      })
unfolding unmarshal_deposit_version0 mint_option_of
unmarshal_deposit_version0-packed_version0 mint value gas flag tx_data m v g =
    let rest : Bytes = flag ∷ tx_data in
    let fields : List (ℕ × ℕ) = (32, mint) ∷ (32, value) ∷ (8, gas) ∷ [] in
    rw (le→leb 73 (length (pack fields rest)) (omega (arith, length-pack fields rest))) (
      rw (field-pack [] 32 mint (pack ((32, value) ∷ (8, gas) ∷ []) rest) m) (
        rw (field-pack ((32, mint) ∷ []) 32 value (pack ((8, gas) ∷ []) rest) v) (
          rw (field-pack ((32, mint) ∷ (32, value) ∷ []) 8 gas rest g) (
            rw (lt→ltb gas (2 ^ 64) g) (
              rw (get_elem?-pack fields rest 72 (omega arith), byte_at)
                (rw (drop-pack fields rest 73 (omega arith)) refl))))))

pub unmarshal_deposit_version1-packed_version1 :
    (mint value eth_value eth_tx_value gas flag : ℕ) (tx_data : Bytes)
    → mint < pow256 32
    → value < pow256 32
    → eth_value < pow256 32
    → eth_tx_value < pow256 32
    → gas < pow256 8
    → unmarshal_deposit_version1
        (packed_version1 mint value eth_value eth_tx_value gas flag tx_data)
      ≡ returns (record {
        mint_option = mint_option_of mint;
        value = value;
        eth_value = eth_value;
        eth_tx_value = eth_tx_value;
        gas = gas;
        is_creation = nat_beq flag 1;
        tx_data = tx_data;
      })
unfolding unmarshal_deposit_version1 mint_option_of
unmarshal_deposit_version1-packed_version1 mint value eth_value eth_tx_value gas flag tx_data m v e
      t g =
    let rest : Bytes = flag ∷ tx_data in
    let fourth : List (ℕ × ℕ) = (32, eth_tx_value) ∷ (8, gas) ∷ [] in
    let first : List (ℕ × ℕ) = (32, mint) ∷ (32, value) ∷ (32, eth_value) ∷ [] in
    let fields : List (ℕ × ℕ) = (32, mint) ∷ (32, value) ∷ (32, eth_value) ∷ fourth in
    rw (le→leb 137 (length (pack fields rest)) (omega (arith, length-pack fields rest))) (
      rw (field-pack [] 32 mint (pack ((32, value) ∷ (32, eth_value) ∷ fourth) rest) m) (
        rw (field-pack ((32, mint) ∷ []) 32 value (pack ((32, eth_value) ∷ fourth) rest) v) (
          rw (field-pack ((32, mint) ∷ (32, value) ∷ []) 32 eth_value (pack fourth rest) e) (
            rw (field-pack first 32 eth_tx_value (pack ((8, gas) ∷ []) rest) t) (
              rw
                (field-pack ((32, mint) ∷ (32, value) ∷ (32, eth_value) ∷ (32, eth_tx_value) ∷ []) 8
                  gas rest g)
                (rw (lt→ltb gas (2 ^ 64) g) (
                  rw (get_elem?-pack fields rest 136 (omega arith), byte_at)
                    (rw (drop-pack fields rest 137 (omega arith)) refl))))))))

-- Eight bytes are a number of at most 64 bits.
gas_fits :
    (start : ℕ) (bytes : Bytes)
    → IsBytes bytes
    → start + 8 ≤ length bytes
    → from_bytes (slice start (start + 8) bytes) < 2 ^ 64
gas_fits start bytes h long =
    let eight : length (slice start (start + 8) bytes) ≡ 8 =
      omega (arith, length-slice start (start + 8) bytes long) in
    subst (λ w. from_bytes (slice start (start + 8) bytes) < pow256 w) eight
      (from_bytes-lt (slice start (start + 8) bytes) (slice-IsBytes start (start + 8) bytes h))

-- Data that is long enough is unmarshalled: the gas, of eight bytes, has no more than 64 bits.
pub unmarshal_deposit_version0-reads :
    (opaque_data : Bytes)
    → IsBytes opaque_data
    → 73 ≤ length opaque_data
    → unmarshal_deposit_version0 opaque_data
      ≡ returns (record {
        mint_option = mint_option_of (from_bytes (slice 0 32 opaque_data));
        value = from_bytes (slice 32 64 opaque_data);
        gas = from_bytes (slice 64 72 opaque_data);
        is_creation = nat_beq (from_bytes (slice 72 73 opaque_data)) 1;
        tx_data = drop 73 opaque_data;
      })
unfolding unmarshal_deposit_version0 mint_option_of slice
unmarshal_deposit_version0-reads opaque_data h long =
    let (flag, found, read) = slice-one opaque_data 72 (omega arith) in
    rw (le→leb 73 (length opaque_data) long) (
      rw
        (lt→ltb (from_bytes (slice 64 72 opaque_data)) (2 ^ 64)
          (gas_fits 64 opaque_data h (omega arith)))
        (rw (found, byte_at) (rw read refl)))

unmarshal_deposit_version1-reads :
    (opaque_data : Bytes)
    → IsBytes opaque_data
    → 137 ≤ length opaque_data
    → unmarshal_deposit_version1 opaque_data
      ≡ returns (record {
        mint_option = mint_option_of (from_bytes (slice 0 32 opaque_data));
        value = from_bytes (slice 32 64 opaque_data);
        eth_value = from_bytes (slice 64 96 opaque_data);
        eth_tx_value = from_bytes (slice 96 128 opaque_data);
        gas = from_bytes (slice 128 136 opaque_data);
        is_creation = nat_beq (from_bytes (slice 136 137 opaque_data)) 1;
        tx_data = drop 137 opaque_data;
      })
unfolding unmarshal_deposit_version1 mint_option_of slice
unmarshal_deposit_version1-reads opaque_data h long =
    let (flag, found, read) = slice-one opaque_data 136 (omega arith) in
    rw (le→leb 137 (length opaque_data) long) (
      rw
        (lt→ltb (from_bytes (slice 128 136 opaque_data)) (2 ^ 64)
          (gas_fits 128 opaque_data h (omega arith)))
        (rw (found, byte_at) (rw read refl)))

lt→leb : (a b : ℕ) → b < a → leb a b ≡ false
lt→leb a b h = ground arith

-- Whatever the bytes are, the opaque data of either version is unmarshalled if it is long enough: the
-- words of 32 bytes, the eight bytes of the gas, which never fail their assertion, the flag and the rest
-- stand behind one another. If it is shorter, an assertion fails, and never an index.
pub unmarshal_deposit-total :
    (opaque_data : Bytes)
    → IsBytes opaque_data
    → (73 ≤ length opaque_data
        → unmarshal_deposit_version0 opaque_data
          ≡ returns (record {
            mint_option = mint_option_of (from_bytes (slice 0 32 opaque_data));
            value = from_bytes (slice 32 64 opaque_data);
            gas = from_bytes (slice 64 72 opaque_data);
            is_creation = nat_beq (from_bytes (slice 72 73 opaque_data)) 1;
            tx_data = drop 73 opaque_data;
          }))
      × (length opaque_data < 73 → unmarshal_deposit_version0 opaque_data ≡ raises assertion_error)
      × (137 ≤ length opaque_data
          → unmarshal_deposit_version1 opaque_data
            ≡ returns (record {
              mint_option = mint_option_of (from_bytes (slice 0 32 opaque_data));
              value = from_bytes (slice 32 64 opaque_data);
              eth_value = from_bytes (slice 64 96 opaque_data);
              eth_tx_value = from_bytes (slice 96 128 opaque_data);
              gas = from_bytes (slice 128 136 opaque_data);
              is_creation = nat_beq (from_bytes (slice 136 137 opaque_data)) 1;
              tx_data = drop 137 opaque_data;
            }))
      × (length opaque_data < 137 → unmarshal_deposit_version1 opaque_data ≡ raises assertion_error)
unfolding unmarshal_deposit_version0 unmarshal_deposit_version1
unmarshal_deposit-total opaque_data h = (
  λ long. unmarshal_deposit_version0-reads opaque_data h long,
  λ short. rw (lt→leb 73 (length opaque_data) short) refl,
  λ long. unmarshal_deposit_version1-reads opaque_data h long,
  λ short. rw (lt→leb 137 (length opaque_data) short) refl,
)

-- A nonce that is made of a version and of an index of 240 bits gives the two back.
pub get_version_and_index_from_nonce-joined :
    (version index : ℕ)
    → index < 2 ^ 240
    → get_version_and_index_from_nonce (version * 2 ^ 240 + index) ≡ (version, index)
unfolding get_version_and_index_from_nonce
get_version_and_index_from_nonce-joined version index h = ground arith
