-- ===== src/Bridges/Bedrock/Events.antt =====
-- indexer/modules/bridge/bedrock/parser/bedrock_bridge_parser.py: deposits, withdrawals, relayed messages
-- and proposed outputs.
use hemera_indexer.Prelude.{ℕ, String, Bool, ◌&&◌, Option, none, some, ◌==◌, nat_beq, if◌then◌else◌}
use hemera_indexer.Errors.{
  assertion_error, index_error, Message, message_eq, codes, value_error, hemera, network, other,
  Outcome, returns, raises, ◌>>=◌,
}
use hemera_indexer.Transfers.{Log, Address}
use hemera_indexer.Bridges.Bytes.{Bytes}
use hemera_indexer.Bridges.Arbitrum.Messages.{to_hex}
use hemera_indexer.Bridges.Arbitrum.Events.{Transaction, is_topic}
use hemera_indexer.Bridges.Deposits.{unmarshal_deposit_version0, unmarshal_deposit_version1}
use hemera_indexer.Bridges.DepositTx.{DepositEvent, OpBedrockDepositTx}
use hemera_indexer.Bridges.Bedrock.Calls.{
  TokenInfo, no_token, BridgeRemoteFunctionCallInfo, CallCodec,
}

-- `relayMessage`
pub record RelayMessage : Type 0 where
  pub nonce : ℕ
  pub sender : Address
  pub target : Address
  pub value : ℕ
  pub min_gas_limit : ℕ
  pub message : Bytes

pub record DepositedArgs : Type 0 where
  pub version : ℕ
  pub tx_origin : Address
  pub opaque_data : Bytes

pub record MessagePassedArgs : Type 0 where
  pub nonce : ℕ
  pub content : Bytes
  pub withdrawal_hash : Bytes

pub record BedrockCodec : Type 0 where
  pub calls : CallCodec
  pub relay_message : Bytes → Outcome RelayMessage
  pub transaction_deposited_sig : String
  pub transaction_deposited : Log → Outcome DepositedArgs
  pub message_passed_sig : String
  pub message_passed : Log → Outcome MessagePassedArgs
  pub output_proposed_sig : String
  -- l2OutputIndex, l2BlockNumber, outputRoot
  pub output_proposed : Log → Outcome (ℕ × ℕ × Bytes)
  pub keccak : Bytes → Bytes
  pub encode : OpBedrockDepositTx → Bytes

-- `extra_info`: what the call has of a token, and what the deposit adds.
pub record ExtraInfo : Type 0 where
  pub token : TokenInfo
  pub gas_limit : Option ℕ
  pub tx_origin : Option Address

-- `DepositedTransaction`, and `WithdrawnTransaction` with the hash of the withdrawal and no transaction
-- of the other layer.
pub record BridgeTransaction : Type 0 where
  pub msg_hash : Message
  pub version : Option ℕ
  pub index : Option ℕ
  pub block_number : ℕ
  pub block_timestamp : ℕ
  pub block_hash : String
  pub transaction_hash : String
  pub from_address : Address
  pub to_address : Address
  pub local_token_address : Option Address
  pub remote_token_address : Option Address
  pub bridge_from_address : Address
  pub bridge_to_address : Address
  pub amount : ℕ
  pub sender : Address
  pub target : Address
  pub gas_limit : ℕ
  pub value : ℕ
  pub l2_transaction_hash : Option Message
  pub bridge_transaction_type : ℕ
  pub message : Option Message
  pub extra_info : ExtraInfo

-- `RelayedMessageTransaction`
pub record RelayedMessageTransaction : Type 0 where
  pub msg_hash : Message
  pub block_number : ℕ
  pub block_timestamp : ℕ
  pub block_hash : String
  pub transaction_hash : String
  pub from_address : Address
  pub to_address : Address

-- `OpStateBatch`
pub record OpStateBatch : Type 0 where
  pub batch_index : ℕ
  pub l1_block_number : ℕ
  pub l1_block_timestamp : ℕ
  pub l1_block_hash : String
  pub l1_transaction_hash : String
  pub end_block_number : ℕ
  pub batch_root : Message

unfoldable pub is_event_of : String → Address → Log → Bool
unfolding is_topic
is_event_of sig contract_address log = is_topic sig log.topic0 && (log.address == contract_address)

-- `except ValueError`
unfoldable pub or_on_value_error {ℓ} : {A : Type ℓ} → Outcome A → A → Outcome A
or_on_value_error (returns a) fallback = returns a
or_on_value_error (raises value_error) fallback = returns fallback
or_on_value_error (raises (hemera e)) fallback = raises (hemera e)
or_on_value_error (raises network) fallback = raises network
or_on_value_error (raises assertion_error) fallback = raises assertion_error
or_on_value_error (raises index_error) fallback = raises index_error
or_on_value_error (raises other) fallback = raises other

unfoldable pub text_of : Option String → Outcome Message
text_of none = raises other
text_of (some topic) = returns (codes topic)

-- The parts of the log that the hash of the deposit is made of.
unfoldable pub deposit_event_of : Log → Outcome DepositEvent
unfolding text_of
deposit_event_of log = do
  topic1 ← text_of log.topic1
  topic2 ← text_of log.topic2
  returns (record {
    block_hash = codes log.block_hash;
    log_index = log.log_index;
    topic1 = topic1;
    topic2 = topic2;
    data_hex = codes log.data_hex;
  })

-- value, gas and data, which are what is used of either version.
unfoldable pub unmarshal : ℕ → Bytes → Outcome (ℕ × ℕ × Bytes)
unmarshal version tx_data =
    if nat_beq version 1
    then (unmarshal_deposit_version1 tx_data >>= λ d. returns (d.value, d.gas, d.tx_data))
    else (unmarshal_deposit_version0 tx_data >>= λ d. returns (d.value, d.gas, d.tx_data))

-- The transaction with its block, and what both kinds of messages have of the call.
abbrev pub record_of :
    Transaction
    → (msg_hash : Message) → ℕ × ℕ
    → RelayMessage
    → BridgeRemoteFunctionCallInfo
    → (l2_transaction_hash : Option Message) → Option Address
    → BridgeTransaction
record_of t msg_hash (version, index) r info l2_transaction_hash tx_origin = record {
  msg_hash = msg_hash;
  version = some version;
  index = some index;
  block_number = t.block_number;
  block_timestamp = t.block_timestamp;
  block_hash = t.block_hash;
  transaction_hash = t.hash;
  from_address = t.from_address;
  to_address = t.to_address;
  local_token_address = info.local_token_address;
  remote_token_address = info.remote_token_address;
  bridge_from_address = info.bridge_from_address;
  bridge_to_address = info.bridge_to_address;
  amount = info.amount;
  sender = r.sender;
  target = r.target;
  gas_limit = r.min_gas_limit;
  value = r.value;
  l2_transaction_hash = l2_transaction_hash;
  bridge_transaction_type = info.remote_function_call_type;
  message = some (to_hex r.message);
  extra_info = record { token = info.extra_info; gas_limit = none; tx_origin = tx_origin };
}

-- What stands for a call that no decoder knows.
abbrev pub normal_call : Transaction → ℕ → BridgeRemoteFunctionCallInfo
normal_call t value = record {
  bridge_from_address = t.from_address;
  bridge_to_address = t.to_address;
  local_token_address = none;
  remote_token_address = none;
  amount = value;
  extra_info = no_token;
  remote_function_call_type = 7;
}

-- A deposit with no data: the sender gives ETH to itself.
abbrev pub native_deposit : Transaction → Message → (value gas : ℕ) → Address → BridgeTransaction
native_deposit t l2_transaction_hash value gas tx_origin = record {
  msg_hash = l2_transaction_hash;
  version = none;
  index = none;
  block_number = t.block_number;
  block_timestamp = t.block_timestamp;
  block_hash = t.block_hash;
  transaction_hash = t.hash;
  from_address = t.from_address;
  to_address = t.to_address;
  local_token_address = none;
  remote_token_address = none;
  bridge_from_address = t.from_address;
  bridge_to_address = t.from_address;
  amount = value;
  sender = t.from_address;
  target = t.from_address;
  gas_limit = gas;
  value = value;
  l2_transaction_hash = some l2_transaction_hash;
  bridge_transaction_type = 0;
  message = none;
  extra_info = record { token = no_token; gas_limit = some gas; tx_origin = some tx_origin };
}
