-- ===== src/Bridges/Agreement.antt =====
-- indexer/modules/bridge/bridge_utils.py: a deposit event is read twice, by `unmarshal_deposit_version0`
-- from its bytes and by `deposit_event_to_op_bedrock_transaction` from its text.
use hemera_indexer.Prelude.{
  ℕ, suc, ◌+◌, ◌*◌, ◌≤◌, ◌<◌, ◌≡◌, refl, true, not, List, [], ◌∷◌, ◌++◌, arith, length, take, drop,
  nat_beq, ap, ◌∙◌, All-append,
}
use hemera_indexer.Errors.{returns, ◌>>=◌}
use hemera_indexer.Bridges.Bytes.{
  Bytes, IsBytes, slice, slice-IsBytes, slice-append, slice-pack, from_bytes, pow256, pack,
  pack-IsBytes, length-pack, field-pack, length-slice, IsBytes-drop,
}
use hemera_indexer.Bridges.Hex.{
  hex_of, int_16, from_hex-hex_of, int_16-hex_of, slice-hex_of, drop-hex_of,
}
use hemera_indexer.Bridges.Deposits.{
  DepositVersion0, unmarshal_deposit_version0, unmarshal_deposit_version0-reads, mint_option_of,
}
use hemera_indexer.Bridges.DepositTx.{
  DepositEvent, OpBedrockDepositTx, int_of_hex, deposit_tx_of,
  deposit_event_to_op_bedrock_transaction,
}
use hemera_indexer.Bridges.SourceHash.{prefixed, pow16, source_hash_of-returns}

-- What both make of the data is the same.
pub record Agrees (d : DepositVersion0) (tx : OpBedrockDepositTx) : Type 0 where
  pub same_mint : mint_option_of tx.mint ≡ d.mint_option
  pub same_value : tx.value ≡ d.value
  pub same_gas : tx.gas ≡ d.gas
  pub same_data : tx.tx_data ≡ d.tx_data
  pub same_creation : d.is_creation ≡ true → tx.is_system_transaction ≡ true

-- A number is read from the text as from the bytes.
int_of_hex-slice :
    (start stop : ℕ) (bytes : Bytes)
    → IsBytes bytes
    → int_of_hex (slice (2 * start) (2 * stop) (hex_of bytes))
      ≡ returns (from_bytes (slice start stop bytes))
unfolding int_of_hex
int_of_hex-slice start stop bytes h =
    rw (slice-hex_of start stop bytes)
      (rw (from_hex-hex_of (slice start stop bytes) (slice-IsBytes start stop bytes h)) refl)

int_16-slice :
    (start width : ℕ) (bytes : Bytes)
    → IsBytes bytes
    → 0 < width
    → start + width ≤ length bytes
    → int_16 (slice (2 * start) (2 * (start + width)) (hex_of bytes))
      ≡ returns (from_bytes (slice start (start + width) bytes))
int_16-slice start width bytes h wide long = rw (slice-hex_of start (start + width) bytes) (
    int_16-hex_of (slice start (start + width) bytes) (slice-IsBytes start (start + width) bytes h)
      (omega (arith, length-slice start (start + width) bytes long)))

-- The data of a log that carries `opaque_data`, as the ABI has it: an offset, a length, the bytes and
-- what fills up the last word.
abbrev pub log_data : Bytes → Bytes → Bytes
log_data opaque_data padding =
    pack ((32, 32) ∷ (32, length opaque_data) ∷ []) (opaque_data ++ padding)

two_past : (n : ℕ) → 2 + n ≡ suc (suc n)
two_past n = omega arith

stop_at : (n : ℕ) → 130 + n * 2 ≡ 2 + 2 * (64 + n)
stop_at n = omega arith

-- The digits `0x` are passed over.
prefixed-slice :
    (start stop : ℕ) (bytes : Bytes)
    → slice (2 + start) (2 + stop) (prefixed bytes) ≡ slice start stop (hex_of bytes)
unfolding slice
prefixed-slice start stop bytes =
    rw (two_past start) (ap (λ k. take k (drop start (hex_of bytes))) (omega arith))

prefixed-drop : (n : ℕ) (bytes : Bytes) → drop (2 + 2 * n) (prefixed bytes) ≡ hex_of (drop n bytes)
prefixed-drop n bytes = rw (two_past (2 * n)) (drop-hex_of n bytes)

-- The opaque data is found in the text of the log.
opaque_data-slice :
    (opaque_data padding : Bytes)
    → slice 130 (130 + length opaque_data * 2) (prefixed (log_data opaque_data padding))
      ≡ hex_of opaque_data
opaque_data-slice opaque_data padding =
    let fields : List (ℕ × ℕ) = (32, 32) ∷ (32, length opaque_data) ∷ [] in
    let whole : Bytes = log_data opaque_data padding in
    ap (λ stop. slice 130 stop (prefixed whole)) (stop_at (length opaque_data))
    ∙ prefixed-slice (2 * 64) (2 * (64 + length opaque_data)) whole
    ∙ slice-hex_of 64 (64 + length opaque_data) whole
    ∙ ap hex_of
        (slice-pack fields (opaque_data ++ padding) 64 (64 + length opaque_data) (omega arith))
    ∙ ap hex_of (
        ap (λ n. slice 0 n (opaque_data ++ padding)) (omega arith)
        ∙ slice-append opaque_data padding)

-- What is read from the text of a log that carries the opaque data.
deposit_tx_of-reads :
    (hash from_word to_word opaque_data padding : Bytes)
    → IsBytes from_word
    → IsBytes to_word
    → IsBytes opaque_data
    → IsBytes padding
    → length opaque_data < pow256 32
    → deposit_tx_of hash
        (prefixed from_word)
        (prefixed to_word)
        (prefixed (log_data opaque_data padding))
      ≡ returns (record {
        source_hash = hash;
        from_address = drop 12 from_word;
        to_address = drop 12 to_word;
        mint = from_bytes (slice 0 32 opaque_data);
        value = from_bytes (slice 32 64 opaque_data);
        gas = from_bytes (slice 64 72 opaque_data);
        is_system_transaction = not (nat_beq (from_bytes (slice 72 73 opaque_data)) 0);
        tx_data = drop 73 opaque_data;
      })
unfolding deposit_tx_of
deposit_tx_of-reads hash from_word to_word opaque_data padding from_ok to_ok bytes fill fits =
    let fields : List (ℕ × ℕ) = (32, 32) ∷ (32, length opaque_data) ∷ [] in
    let rest : Bytes = opaque_data ++ padding in
    let whole : Bytes = log_data opaque_data padding in
    let whole_bytes =
      pack-IsBytes fields rest (All-append (λ b. b < 256) opaque_data padding bytes fill) in
    let long : length whole ≡ 64 + length rest = length-pack fields rest in
    let offset =
      ap int_16 (prefixed-slice 0 64 whole)
      ∙ int_16-slice 0 32 whole whole_bytes (omega arith) (omega (arith, long)) in
    let count =
      ap int_16 (prefixed-slice 64 128 whole)
      ∙ int_16-slice 32 32 whole whole_bytes (omega arith) (omega (arith, long))
      ∙ ap returns (field-pack ((32, 32) ∷ []) 32 (length opaque_data) rest fits) in
    rw offset (
      rw count (
        rw (opaque_data-slice opaque_data padding) (
          rw (int_of_hex-slice 0 32 opaque_data bytes) (
            rw (int_of_hex-slice 32 64 opaque_data bytes) (
              rw (int_of_hex-slice 64 72 opaque_data bytes) (
                rw (int_of_hex-slice 72 73 opaque_data bytes) (
                  rw (drop-hex_of 73 opaque_data) (
                    rw (from_hex-hex_of (drop 73 opaque_data) (IsBytes-drop 73 opaque_data bytes)) (
                      rw (prefixed-drop 12 from_word) (
                        rw (from_hex-hex_of (drop 12 from_word) (IsBytes-drop 12 from_word from_ok))
                          (rw (prefixed-drop 12 to_word) (
                            rw (from_hex-hex_of (drop 12 to_word) (IsBytes-drop 12 to_word to_ok))
                              refl))))))))))))

one_ne_zero : (n : ℕ) → nat_beq n 1 ≡ true → not (nat_beq n 0) ≡ true
one_ne_zero n h = ground arith

module _ (keccak : Bytes → Bytes) (event : DepositEvent)
    (block_hash from_word to_word opaque_data padding : Bytes) where
  -- A deposit event whose data is long enough is read by both, and they agree; the addresses are the
  -- last twenty bytes of its topics.
  pub deposit_event_to_op_bedrock_transaction-Agrees :
      ((bytes : Bytes) → IsBytes (keccak bytes) × (length (keccak bytes) ≡ 32))
      → event.block_hash ≡ prefixed block_hash
      → event.topic1 ≡ prefixed from_word
      → event.topic2 ≡ prefixed to_word
      → event.data_hex ≡ prefixed (log_data opaque_data padding)
      → event.log_index < pow16 64
      → IsBytes block_hash
      → length block_hash ≡ 32
      → IsBytes from_word
      → IsBytes to_word
      → IsBytes opaque_data
      → IsBytes padding
      → 73 ≤ length opaque_data
      → length opaque_data < pow256 32
      → (d : DepositVersion0) × (tx : OpBedrockDepositTx) × (unmarshal_deposit_version0 opaque_data
          ≡ returns d)
        × (deposit_event_to_op_bedrock_transaction keccak event ≡ returns tx)
        × Agrees d tx
        × (tx.from_address ≡ drop 12 from_word)
        × (tx.to_address ≡ drop 12 to_word)
  unfolding deposit_event_to_op_bedrock_transaction
  deposit_event_to_op_bedrock_transaction-Agrees hashes block topic1 topic2 carried place block_ok
        block_long from_ok to_ok bytes fill long fits =
      let (hash, hashed) =
        source_hash_of-returns keccak event block_hash hashes block block_ok block_long place in
      (
        _,
        _,
        unmarshal_deposit_version0-reads opaque_data bytes long,
        ap (λ h. h >>= λ hash'. deposit_tx_of hash' event.topic1 event.topic2 event.data_hex) hashed
            ∙ ap (λ t. deposit_tx_of hash t event.topic2 event.data_hex) topic1
            ∙ ap (λ t. deposit_tx_of hash (prefixed from_word) t event.data_hex) topic2
            ∙ ap (λ t. deposit_tx_of hash (prefixed from_word) (prefixed to_word) t) carried
            ∙ deposit_tx_of-reads hash from_word to_word opaque_data padding from_ok to_ok bytes
                fill fits,
        record {
          same_mint = refl;
          same_value = refl;
          same_gas = refl;
          same_data = refl;
          same_creation = one_ne_zero (from_bytes (slice 72 73 opaque_data));
        },
        refl,
        refl,
      )
