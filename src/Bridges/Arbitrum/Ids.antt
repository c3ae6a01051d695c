-- ===== src/Bridges/Arbitrum/Ids.antt =====
-- indexer/modules/bridge/arbitrum/arb_rlp.py: the hashes of the transactions of the second layer. The
-- encoding of the library rlp and the hash function of web3 are parameters.
use hemera_indexer.Prelude.{ℕ, ◌^◌, ◌≡◌, List, [], ◌∷◌, drop, ltb, if◌then◌else◌, ◌==◌}
use hemera_indexer.Errors.{Message, message_eq, Outcome, returns, raises, other, ◌>>=◌}
use hemera_indexer.Bridges.Bytes.{Bytes, IsBytes, to_bytes}
use hemera_indexer.Bridges.Hex.{from_hex, from_hex-hex_of}
use hemera_indexer.Bridges.Arbitrum.Messages.{to_hex, zero_address}

-- What rlp encodes: a number or bytes.
pub data Field : Type 0 where
  number : ℕ → Field
  bytes_field : Bytes → Field

-- `convert_int_bytes(value, 32)`, which raises for a number of more than 32 bytes.
unfoldable pub convert_int_bytes : ℕ → Outcome Bytes
convert_int_bytes value = if ltb value (2 ^ 256) then returns (to_bytes 32 value) else raises other

-- `bytes.fromhex(text[2:])`
unfoldable pub address_bytes : Message → Outcome Bytes
unfolding from_hex
address_bytes address = from_hex (drop 2 address)

pub record Hashing : Type 0 where
  pub encode : List Field → Bytes
  pub keccak : Bytes → Bytes

module _ (h : Hashing) where
  unfoldable pub calculate_deposit_tx_id : ℕ → ℕ → Message → Message → ℕ → Outcome Message
  unfolding convert_int_bytes address_bytes
  calculate_deposit_tx_id l2_chain_id message_number from_address to_address value = do
    number' ← convert_int_bytes message_number
    from ← address_bytes from_address
    to ← address_bytes to_address
    returns (
        to_hex (
          h.keccak (
            100
            ∷ h.encode (
                number l2_chain_id
                ∷ bytes_field number'
                ∷ bytes_field from
                ∷ bytes_field to
                ∷ number value
                ∷ []))))

  -- A ticket that is sent to the zero address is encoded with no address.
  unfoldable pub calculate_submit_retryable_id :
      (l2_chain_id message_number : ℕ)
      → (from_address : Message) → (l1_base_fee : ℕ) → (dest_address : Message)
      → (l2_call_value l1_value max_submission_fee : ℕ)
      → (excess_fee_refund_address call_value_refund_address : Message)
      → (gas_limit max_fee_per_gas : ℕ) → (content : Message) → Outcome Message
  unfolding convert_int_bytes address_bytes
  calculate_submit_retryable_id l2_chain_id message_number from_address l1_base_fee dest_address
        l2_call_value l1_value max_submission_fee excess_fee_refund_address
        call_value_refund_address gas_limit max_fee_per_gas content =
      do
        let r_dest_address =
            if dest_address == to_hex zero_address then 48 ∷ 120 ∷ [] else dest_address
        number' ← convert_int_bytes message_number
        from ← address_bytes from_address
        dest ← address_bytes r_dest_address
        call_value_refund ← address_bytes call_value_refund_address
        excess_fee_refund ← address_bytes excess_fee_refund_address
        call ← address_bytes content
        returns (
            to_hex (
              h.keccak (
                105
                ∷ h.encode (
                    number l2_chain_id
                    ∷ bytes_field number'
                    ∷ bytes_field from
                    ∷ number l1_base_fee
                    ∷ number l1_value
                    ∷ number max_fee_per_gas
                    ∷ number gas_limit
                    ∷ bytes_field dest
                    ∷ number l2_call_value
                    ∷ bytes_field call_value_refund
                    ∷ number max_submission_fee
                    ∷ bytes_field excess_fee_refund
                    ∷ bytes_field call
                    ∷ []))))

-- The text of bytes is read back.
pub address_bytes-to_hex :
    (bytes : Bytes) → IsBytes bytes → address_bytes (to_hex bytes) ≡ returns bytes
unfolding address_bytes
address_bytes-to_hex bytes h = from_hex-hex_of bytes h
