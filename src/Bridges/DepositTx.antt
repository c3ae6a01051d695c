-- ===== src/Bridges/DepositTx.antt =====
-- `OpBedrockDepositTx` and `deposit_event_to_op_bedrock_transaction` of
-- indexer/modules/bridge/bridge_utils.py: the transaction of the second layer that a deposit event stands
-- for. The hash function of web3 and the encoding of the library rlp are parameters.
use hemera_indexer.Prelude.{
  ℕ, zero, suc, ◌+◌, ◌-◌, ◌*◌, ◌/◌, ◌%◌, Bool, not, [], ◌∷◌, ◌++◌, length, drop, ltb, nat_beq,
  if◌then◌else◌,
}
use hemera_indexer.Errors.{Message, Outcome, returns, ◌>>=◌}
use hemera_indexer.Bridges.Bytes.{Bytes, slice, from_bytes}
use hemera_indexer.Bridges.Hex.{hex_digit, hex_of, from_hex, int_16}

-- The fields of the log that are read.
pub record DepositEvent : Type 0 where
  pub block_hash : Message
  pub log_index : ℕ
  pub topic1 : Message
  pub topic2 : Message
  pub data_hex : Message

pub record OpBedrockDepositTx : Type 0 where
  pub source_hash : Bytes
  pub from_address : Bytes
  pub to_address : Bytes
  pub mint : ℕ
  pub value : ℕ
  pub gas : ℕ
  pub is_system_transaction : Bool
  pub tx_data : Bytes

-- The digits of `hex(n)` behind its `0x`, on fuel: a number has no more digits than it counts.
unfoldable pub hex_digits_of : ℕ → ℕ → Message
unfolding hex_digit
hex_digits_of zero n = hex_digit (n % 16) ∷ []
hex_digits_of (suc fuel) n =
    let rest = hex_digits_of fuel (n / 16) in
    if ltb n 16 then hex_digit (n % 16) ∷ [] else rest ++ hex_digit (n % 16) ∷ []

unfoldable pub zeros : ℕ → Message
zeros zero = []
zeros (suc n) = 48 ∷ zeros n

-- `text.rjust(64, "0")`
unfoldable pub rjust_64 : Message → Message
unfolding zeros
rjust_64 text = zeros (64 - length text) ++ text

-- `int.from_bytes(bytes.fromhex(text), "big")`
unfoldable pub int_of_hex : Message → Outcome ℕ
unfolding from_hex from_bytes
int_of_hex text = from_hex text >>= λ bytes. returns (from_bytes bytes)

-- The part of the function that reads the data and the topics.
unfoldable pub deposit_tx_of : Bytes → Message → Message → Message → Outcome OpBedrockDepositTx
deposit_tx_of source_hash topic1 topic2 data_hex = do
  opaque_content_offset ← int_16 (slice 2 66 data_hex)
  opaque_content_length ← int_16 (slice 66 130 data_hex)
  let opaque_data = slice 130 (130 + opaque_content_length * 2) data_hex
  msg_value ← int_of_hex (slice 0 64 opaque_data)
  value ← int_of_hex (slice 64 128 opaque_data)
  gas_limit ← int_of_hex (slice 128 144 opaque_data)
  creation ← int_of_hex (slice 144 146 opaque_data)
  tx_data ← from_hex (drop 146 opaque_data)
  from_address ← from_hex (drop 26 topic1)
  to_address ← from_hex (drop 26 topic2)
  returns (record {
    source_hash = source_hash;
    from_address = from_address;
    to_address = to_address;
    mint = msg_value;
    value = value;
    gas = gas_limit;
    is_system_transaction = not (nat_beq creation 0);
    tx_data = tx_data;
  })

module _ (keccak : Bytes → Bytes) where
  -- The hash of the place of the deposit, and the hash of that in the domain of the user's deposits.
  unfoldable pub source_hash_of : DepositEvent → Outcome Bytes
  unfolding hex_digits_of rjust_64 from_hex hex_of
  source_hash_of event = do
    id ← from_hex (
        rjust_64 (drop 2 event.block_hash)
        ++ rjust_64 (hex_digits_of event.log_index event.log_index))
    source ← from_hex (rjust_64 (48 ∷ 48 ∷ []) ++ hex_of (keccak id))
    from_hex (hex_of (keccak source))

  unfoldable pub deposit_event_to_op_bedrock_transaction : DepositEvent → Outcome OpBedrockDepositTx
  unfolding source_hash_of deposit_tx_of
  deposit_event_to_op_bedrock_transaction event = do
    source_hash ← source_hash_of event
    deposit_tx_of source_hash event.topic1 event.topic2 event.data_hex

  -- `OpBedrockDepositTx.hash`
  unfoldable pub deposit_hash : (OpBedrockDepositTx → Bytes) → OpBedrockDepositTx → Bytes
  deposit_hash encode tx = keccak (126 ∷ encode tx)
