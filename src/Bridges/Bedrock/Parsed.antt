-- ===== src/Bridges/Bedrock/Parsed.antt =====
-- indexer/modules/bridge/bedrock/parser/bedrock_bridge_parser.py: the parsers of the four events.
use hemera_indexer.Prelude.{ℕ, String, none, some, List, [], ◌∷◌}
use hemera_indexer.Errors.{Message, message_eq, Outcome, returns, ◌>>=◌}
use hemera_indexer.Transfers.{Log, Address}
use hemera_indexer.Bridges.Bytes.{Bytes}
use hemera_indexer.Bridges.Arbitrum.Messages.{to_hex}
use hemera_indexer.Bridges.Arbitrum.Events.{Transaction, collect}
use hemera_indexer.Bridges.Deposits.{get_version_and_index_from_nonce}
use hemera_indexer.Bridges.DepositTx.{deposit_event_to_op_bedrock_transaction, deposit_hash}
use hemera_indexer.Bridges.Bedrock.Calls.{
  BridgeRemoteFunctionCallInfo, get_remote_function_call_info,
}
use hemera_indexer.Bridges.Bedrock.Events.{
  RelayMessage, BedrockCodec, BridgeTransaction, RelayedMessageTransaction, OpStateBatch,
  is_event_of, or_on_value_error, deposit_event_of, unmarshal, record_of, normal_call,
  native_deposit,
}

module _ (codec : BedrockCodec) where
  unfoldable pub call_info : Transaction → RelayMessage → Outcome BridgeRemoteFunctionCallInfo
  unfolding or_on_value_error
  call_info transaction r =
      or_on_value_error (get_remote_function_call_info codec.calls r.message)
        (normal_call transaction r.value)

  unfoldable pub relayed_deposit :
      Transaction → (l2_transaction_hash : Message) → Address → Bytes → Outcome BridgeTransaction
  unfolding call_info
  relayed_deposit transaction l2_transaction_hash tx_origin content = do
    r ← codec.relay_message content
    info ← call_info transaction r
    returns (
        record_of transaction (to_hex (codec.keccak content))
          (get_version_and_index_from_nonce r.nonce) r info (some l2_transaction_hash)
          (some tx_origin))

  deposit_or_native :
      Transaction
      → (l2_transaction_hash : Message) → Address
      → ℕ × ℕ × Bytes
      → Outcome BridgeTransaction
  unfolding relayed_deposit
  deposit_or_native transaction l2_transaction_hash tx_origin (value, gas, []) =
      returns (native_deposit transaction l2_transaction_hash value gas tx_origin)
  deposit_or_native transaction l2_transaction_hash tx_origin (value, gas, b ∷ content) =
      relayed_deposit transaction l2_transaction_hash tx_origin (b ∷ content)

  unfoldable pub deposited_of : Transaction → Log → Outcome BridgeTransaction
  unfolding unmarshal deposit_event_of deposit_or_native
  deposited_of transaction log = do
    deposited ← codec.transaction_deposited log
    values ← unmarshal deposited.version deposited.opaque_data
    event ← deposit_event_of log
    tx ← deposit_event_to_op_bedrock_transaction codec.keccak event
    deposit_or_native transaction (to_hex (deposit_hash codec.keccak codec.encode tx))
        deposited.tx_origin values

  unfoldable pub parse_transaction_deposited_event :
      Transaction → (contract_address : Address) → Outcome (List BridgeTransaction)
  unfolding is_event_of collect deposited_of
  parse_transaction_deposited_event transaction contract_address =
      collect (is_event_of codec.transaction_deposited_sig contract_address)
        (deposited_of transaction) transaction.logs

  -- The nonce is that of the event, and the rest of the message is that of its call.
  unfoldable pub withdrawn_of : Transaction → Log → Outcome BridgeTransaction
  unfolding call_info
  withdrawn_of transaction log = do
    passed ← codec.message_passed log
    r ← codec.relay_message passed.content
    info ← call_info transaction r
    returns (
        record_of transaction (to_hex passed.withdrawal_hash)
          (get_version_and_index_from_nonce passed.nonce) r info none none)

  unfoldable pub parse_message_passed_event :
      Transaction → (contract_address : Address) → Outcome (List BridgeTransaction)
  unfolding is_event_of collect withdrawn_of
  parse_message_passed_event transaction contract_address =
      collect (is_event_of codec.message_passed_sig contract_address) (withdrawn_of transaction)
        transaction.logs

  -- The event and the field that has the hash of the message are arguments.
  unfoldable pub parse_relayed_message :
      String
      → (Log → Outcome Bytes)
      → Transaction
      → (contract_address : Address) → Outcome (List RelayedMessageTransaction)
  unfolding is_event_of collect
  parse_relayed_message sig msg_field transaction contract_address =
      collect (is_event_of sig contract_address)
        (λ log. do
          msg_hash ← msg_field log
          returns (record {
            msg_hash = to_hex msg_hash;
            block_number = transaction.block_number;
            block_timestamp = transaction.block_timestamp;
            block_hash = transaction.block_hash;
            transaction_hash = transaction.hash;
            from_address = transaction.from_address;
            to_address = transaction.to_address;
          }))
        transaction.logs

  unfoldable pub parse_propose_l2_output :
      Transaction → (contract_address : Address) → Outcome (List OpStateBatch)
  unfolding is_event_of collect
  parse_propose_l2_output transaction contract_address =
      collect (is_event_of codec.output_proposed_sig contract_address)
        (λ log. do
          (l2_output_index, l2_block_number, output_root) ← codec.output_proposed log
          returns (record {
            batch_index = l2_output_index;
            l1_block_number = transaction.block_number;
            l1_block_timestamp = transaction.block_timestamp;
            l1_block_hash = transaction.block_hash;
            l1_transaction_hash = transaction.hash;
            end_block_number = l2_block_number;
            batch_root = to_hex output_root;
          }))
        transaction.logs
