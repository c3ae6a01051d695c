-- ===== src/Bridges/Arbitrum/Messages.antt =====
-- indexer/modules/bridge/arbitrum/arb_parser.py: the data of the messages that go between the chains.
-- Python's `bytes` and the text that `Web3.to_hex` makes of them are told apart.
use hemera_indexer.Prelude.{
  ℕ, ◌+◌, Bool, true, ◌&&◌, Option, none, some, [], ◌∷◌, drop, length, leb, nat_beq, if◌then◌else◌,
}
use hemera_indexer.Prelude.Int.{ℤ, pos, negsuc}
use hemera_indexer.Errors.{Message, Outcome, returns, raises, value_error, other, ◌>>=◌}
use hemera_indexer.Bridges.Bytes.{Bytes, slice, from_bytes, to_bytes}
use hemera_indexer.Bridges.Hex.{hex_of, from_hex}

-- `Web3.to_hex`
abbrev pub to_hex : Bytes → Message
to_hex bytes = 48 ∷ 120 ∷ hex_of bytes

-- A field that is `bytes` on one branch and text on another.
pub data Word : Type 0 where
  raw : Bytes → Word
  text : Message → Word

-- `bytes(20)`
abbrev pub zero_address : Bytes
zero_address = to_bytes 20 0

-- `Network.Arbitrum` and `Network.DODO_TESTNET`
abbrev pub arbitrum : ℕ
arbitrum = 42161

abbrev pub dodo_testnet : ℕ
dodo_testnet = 53457

unfoldable pub lstrip_zeros : Bytes → Bytes
lstrip_zeros [] = []
lstrip_zeros (b ∷ bytes) = if nat_beq b 0 then lstrip_zeros bytes else b ∷ bytes

unfoldable pub is_zeros : Bytes → Bool
is_zeros [] = true
is_zeros (b ∷ bytes) = nat_beq b 0 && is_zeros bytes

-- `byte_array != ZERO_ADDRESS_32` is a test for 32 bytes that are all zero.
unfoldable pub strip_bytes_leading_zeros : Bytes → Bytes
unfolding lstrip_zeros is_zeros
strip_bytes_leading_zeros byte_array =
    if nat_beq (length byte_array) 32 && is_zeros byte_array
    then zero_address
    else lstrip_zeros byte_array

-- The text that has no `0x` raises.
unfoldable pub strip_leading_zeros : Message → Outcome Message
unfolding strip_bytes_leading_zeros
strip_leading_zeros [] = raises value_error
strip_leading_zeros (c ∷ []) = raises value_error
strip_leading_zeros (c ∷ d ∷ hex) =
    if nat_beq c 48 && nat_beq d 120
    then (from_hex hex >>= λ bytes. returns (to_hex (strip_bytes_leading_zeros bytes)))
    else raises value_error

-- What `un_marshal_tx_to_l1` returns.
pub record TxToL1 : Type 0 where
  pub selector : Bytes
  pub token : Option Message
  pub from : Message
  pub to : Message
  pub amount : ℕ
  pub rest_data : Word

unfoldable pub un_marshal_tx_to_l1 : Bytes → TxToL1
un_marshal_tx_to_l1 [] = record {
  selector = [];
  token = none;
  from = to_hex zero_address;
  to = to_hex zero_address;
  amount = 0;
  rest_data = raw [];
}
un_marshal_tx_to_l1 (b ∷ bytes) =
    let content : Bytes = b ∷ bytes in
    record {
      selector = slice 0 4 content;
      token = some (to_hex (slice 4 36 content));
      from = to_hex (slice 36 68 content);
      to = to_hex (slice 68 100 content);
      amount = from_bytes (slice 100 132 content);
      rest_data = text (to_hex (drop 132 content));
    }

-- What `un_marshal_inbox_message_delivered_data` returns.
pub record InboxMessage : Type 0 where
  pub dest_address : Word
  pub l2_call_value : ℕ
  pub msg_value : ℕ
  pub gas_limit : ℕ
  pub max_submission_cost : ℕ
  pub excess_fee_refund_address : Word
  pub call_value_refund_address : Word
  pub max_fee_per_gas : ℕ
  pub data_bytes : Message
  pub l1_token_id : Option Message
  pub l1_token_amount : ℕ

-- The values before the branch on the kind.
abbrev pub no_message : InboxMessage
no_message = record {
  dest_address = raw zero_address;
  l2_call_value = 0;
  msg_value = 0;
  gas_limit = 0;
  max_submission_cost = 0;
  excess_fee_refund_address = raw zero_address;
  call_value_refund_address = raw zero_address;
  max_fee_per_gas = 0;
  data_bytes = to_hex [];
  l1_token_id = none;
  l1_token_amount = 0;
}

-- The token and the amount that the data of a retryable ticket names, by the chain.
unfoldable pub token_of : ℕ → Bytes → Outcome (Option Message × ℕ)
unfolding strip_leading_zeros
token_of chain_id rest_data =
    if nat_beq chain_id arbitrum
    then returns
        (none, (if leb 68 (length rest_data) then from_bytes (slice 36 68 rest_data) else 0))
    else if nat_beq chain_id dodo_testnet
    then ((if leb 36 (length rest_data)
          then (strip_leading_zeros (to_hex (slice 4 36 rest_data)) >>= λ t. returns (some t))
          else returns none)
        >>= λ token. returns (
          token,
          (if leb 100 (length rest_data) then from_bytes (slice 100 132 rest_data) else 0),
        ))
    else returns (none, 0)

-- `L1MessageType_submitRetryableTx`
unfoldable pub submit_retryable : ℕ → Bytes → Outcome InboxMessage
submit_retryable chain_id content = do
  let data_length = from_bytes (slice 256 288 content)
  token ← token_of chain_id (drop 288 content)
  returns (record {
    dest_address = text (to_hex (slice 0 32 content));
    l2_call_value = from_bytes (slice 32 64 content);
    msg_value = from_bytes (slice 64 96 content);
    gas_limit = from_bytes (slice 192 224 content);
    max_submission_cost = from_bytes (slice 96 128 content);
    excess_fee_refund_address = text (to_hex (slice 128 160 content));
    call_value_refund_address = text (to_hex (slice 160 192 content));
    max_fee_per_gas = from_bytes (slice 224 256 content);
    data_bytes = to_hex (slice 288 (288 + data_length) content);
    l1_token_id = token.0;
    l1_token_amount = token.1;
  })

-- `L1MessageType_ethDeposit`
unfoldable pub eth_deposit : Bytes → InboxMessage
eth_deposit content = record no_message {
  dest_address = text (to_hex (slice 0 20 content));
  msg_value = from_bytes (slice 20 52 content);
  l1_token_amount = from_bytes (slice 20 52 content);
}

-- The branches of a kind that is not -1. The two that ask `bytes` for a `length` raise.
unfoldable pub un_marshal_kind : ℕ → Bytes → ℕ → Outcome InboxMessage
un_marshal_kind kind content chain_id =
    if nat_beq kind 11
    then returns no_message
    else if nat_beq kind 0
    then raises other
    else if nat_beq kind 1
    then raises other
    else if nat_beq kind 9
    then submit_retryable chain_id content
    else if nat_beq kind 3
    then returns no_message
    else if nat_beq kind 13
    then returns no_message
    else if nat_beq kind 12
    then returns (eth_deposit content)
    else raises other

-- With the kind -1 the kind becomes the first byte, as `bytes`, which is equal to no number.
unfoldable pub un_marshal_inbox_message_delivered_data : ℤ → Bytes → ℕ → Outcome InboxMessage
unfolding un_marshal_kind
un_marshal_inbox_message_delivered_data (pos kind) content chain_id =
    un_marshal_kind kind content chain_id
un_marshal_inbox_message_delivered_data (negsuc n) content chain_id = raises other
