-- ===== src/Bridges/Arbitrum/Rollup.antt =====
-- indexer/modules/bridge/arbitrum/arb_parser.py: the batches and nodes of the rollup, the tokens of the
-- bridge and the calls of the outbox. What the codec reads from the input of a transaction and from its
-- logs is a parameter.
use hemera_indexer.Prelude.{
  ℕ, ◌+◌, String, ◌&&◌, ◌||◌, nat_beq, Option, none, some, List, [], ◌∷◌, if◌then◌else◌, ◌==◌,
  string_eq, has,
}
use hemera_indexer.Errors.{Message, codes, message_eq, other, Outcome, returns, raises, ◌>>=◌}
use hemera_indexer.Transfers.{Log, Address}
use hemera_indexer.Bridges.Bytes.{Bytes, slice}
use hemera_indexer.Bridges.Hex.{int_16}
use hemera_indexer.Bridges.Arbitrum.Messages.{to_hex}
use hemera_indexer.Bridges.Arbitrum.Events.{Transaction, is_topic, is_event, collect}

-- sequenceNumber, prevMessageCount, newMessageCount
pub record BatchInput : Type 0 where
  pub sequence_number : ℕ
  pub prev_message_count : ℕ
  pub new_message_count : ℕ

-- outbox, to, value, data
pub record CallArgs : Type 0 where
  pub outbox : Address
  pub to : Address
  pub value : ℕ
  pub content : Bytes

-- A topic is the text of a word; that of an address or of a hash is stored as it is.
pub record RollupCodec : Type 0 where
  pub sequencer_batch_delivered_sig : String
  pub from_blobs_sig : Message
  pub from_origin_sig : Message
  pub from_blobs : Message → Outcome BatchInput
  pub from_origin : Message → Outcome BatchInput
  pub node_confirmed_sig : String
  -- nodeNum, blockHash, sendRoot
  pub node_confirmed : Log → Outcome (ℕ × Bytes × Bytes)
  pub node_created_sig : String
  pub beacon_upgraded_sig : String
  pub deposit_finalized_sig : String
  pub outbound_transfer_sig : Message
  -- _l1Token, _amount
  pub outbound_transfer : Message → Outcome (Address × ℕ)
  pub bridge_call_triggered_sig : String
  -- index
  pub execute_transaction : Message → Outcome ℕ
  pub bridge_call_triggered : Log → Outcome CallArgs

-- `ArbitrumTransactionBatch`, less the count that is always `None`.
pub record TransactionBatch : Type 0 where
  pub batch_index : ℕ
  pub l1_block_number : ℕ
  pub l1_block_timestamp : ℕ
  pub l1_block_hash : String
  pub l1_transaction_hash : String
  pub end_block_number : ℕ
  pub start_block_number : ℕ

-- `ArbitrumStateBatchConfirmed`, less the fields that are always `None`.
pub record StateBatchConfirmed : Type 0 where
  pub node_num : ℕ
  pub block_hash : Message
  pub send_root : Message
  pub l1_block_number : ℕ
  pub l1_block_timestamp : ℕ
  pub l1_block_hash : String
  pub l1_transaction_hash : String

-- `ArbitrumStateBatchCreated`
pub record StateBatchCreated : Type 0 where
  pub node_num : ℕ
  pub create_l1_block_number : ℕ
  pub create_l1_block_timestamp : ℕ
  pub create_l1_block_hash : String
  pub create_l1_transaction_hash : String
  pub parent_node_hash : Option String
  pub node_hash : Option String

-- `BridgeToken`
pub record BridgeToken : Type 0 where
  pub l1_token_address : String
  pub l2_token_address : Address

-- `TransactionToken`
pub record TransactionToken : Type 0 where
  pub transaction_hash : String
  pub l1_token : Address
  pub amount : ℕ

-- `BridgeCallTriggeredData`
pub record BridgeCallTriggeredData : Type 0 where
  pub msg_hash : ℕ
  pub l1_transaction_hash : String
  pub l1_block_number : ℕ
  pub l1_block_timestamp : ℕ
  pub l1_block_hash : String
  pub l1_from_address : Address
  pub l1_to_address : Address
  pub outbox : Address
  pub to : Address
  pub value : ℕ
  pub content : Bytes

-- A text with no `0x` is read as it is.
drop_prefix : Message → Message
drop_prefix [] = []
drop_prefix (c ∷ []) = c ∷ []
drop_prefix (c ∷ d ∷ digits) = if nat_beq c 48 && nat_beq d 120 then digits else c ∷ d ∷ digits

-- `int(log.topic1, 16)`; for `None` it is a `TypeError`.
unfoldable pub int_of_topic : Option String → Outcome ℕ
unfolding drop_prefix int_16
int_of_topic none = raises other
int_of_topic (some topic) = int_16 (drop_prefix (codes topic))

-- A token with an empty text counts as absent.
both_tokens : Option String × Option Address → List BridgeToken
both_tokens (some l1_token, some l2_token) =
    if l1_token == "" || l2_token == []
    then []
    else record { l1_token_address = l1_token; l2_token_address = l2_token } ∷ []
both_tokens (some l1_token, none) = []
both_tokens (none, l2_token) = []

module _ (codec : RollupCodec) where
  -- The input of any other function leaves the numbers at 0.
  unfoldable pub batch_input : Message → Outcome BatchInput
  batch_input input =
      let input_sig = slice 0 10 input in
      if input_sig == codec.from_blobs_sig
      then codec.from_blobs input
      else if input_sig == codec.from_origin_sig
      then codec.from_origin input
      else returns (record { sequence_number = 0; prev_message_count = 0; new_message_count = 0 })

  unfoldable pub parse_sequencer_batch_delivered :
      Transaction → List Address → (transaction_batch_offset : ℕ) → Outcome (List TransactionBatch)
  unfolding is_event collect batch_input
  parse_sequencer_batch_delivered transaction contract_set transaction_batch_offset =
      collect (is_event codec.sequencer_batch_delivered_sig contract_set)
        (λ _. do
          input ← batch_input transaction.input
          returns (record {
            batch_index = input.sequence_number;
            l1_block_number = transaction.block_number;
            l1_block_timestamp = transaction.block_timestamp;
            l1_block_hash = transaction.block_hash;
            l1_transaction_hash = transaction.hash;
            end_block_number = input.new_message_count + transaction_batch_offset;
            start_block_number = input.prev_message_count + transaction_batch_offset;
          }))
        transaction.logs

  unfoldable pub parse_node_confirmed :
      Transaction → List Address → Outcome (List StateBatchConfirmed)
  unfolding is_event collect
  parse_node_confirmed transaction contract_set =
      collect (is_event codec.node_confirmed_sig contract_set)
        (λ log. do
          (node_num, block_hash, send_root) ← codec.node_confirmed log
          returns (record {
            node_num = node_num;
            block_hash = to_hex block_hash;
            send_root = to_hex send_root;
            l1_block_number = transaction.block_number;
            l1_block_timestamp = transaction.block_timestamp;
            l1_block_hash = transaction.block_hash;
            l1_transaction_hash = transaction.hash;
          }))
        transaction.logs

  unfoldable pub parse_node_created : Transaction → List Address → Outcome (List StateBatchCreated)
  unfolding is_event collect int_of_topic
  parse_node_created transaction contract_set =
      collect (is_event codec.node_created_sig contract_set)
        (λ log. do
          node_num ← int_of_topic log.topic1
          returns (record {
            node_num = node_num;
            create_l1_block_number = transaction.block_number;
            create_l1_block_timestamp = transaction.block_timestamp;
            create_l1_block_hash = transaction.block_hash;
            create_l1_transaction_hash = transaction.hash;
            parent_node_hash = log.topic2;
            node_hash = log.topic3;
          }))
        transaction.logs

  -- The last log of either kind decides.
  scan_tokens : List Log → Option String × Option Address → Option String × Option Address
  unfolding is_topic
  scan_tokens [] tokens = tokens
  scan_tokens (log ∷ logs) (l1_token, l2_token) = scan_tokens logs (
    (if is_topic codec.deposit_finalized_sig log.topic0 then log.topic1 else l1_token),
    (if is_topic codec.beacon_upgraded_sig log.topic0 then some log.address else l2_token),
  )

  unfoldable pub parse_bridge_token : Transaction → List Address → List BridgeToken
  unfolding scan_tokens both_tokens
  parse_bridge_token transaction contract_set =
      if has transaction.to_address contract_set
      then both_tokens (scan_tokens transaction.logs (none, none))
      else []

  unfoldable pub parse_outbound_transfer_function :
      List Transaction → List Address → Outcome (List TransactionToken)
  unfolding collect
  parse_outbound_transfer_function transactions contract_set =
      collect
        (λ tnx.
          has tnx.to_address contract_set && (slice 0 10 tnx.input == codec.outbound_transfer_sig))
        (λ tnx. do
          (l1_token, amount) ← codec.outbound_transfer tnx.input
          returns (record { transaction_hash = tnx.hash; l1_token = l1_token; amount = amount }))
        transactions

  unfoldable pub parse_bridge_call_triggered :
      Transaction → List Address → Outcome (List BridgeCallTriggeredData)
  unfolding is_event collect
  parse_bridge_call_triggered transaction contract_set =
      collect (is_event codec.bridge_call_triggered_sig contract_set)
        (λ log. do
          msg_num ← codec.execute_transaction transaction.input
          event ← codec.bridge_call_triggered log
          returns (record {
            msg_hash = msg_num;
            l1_transaction_hash = transaction.hash;
            l1_block_number = transaction.block_number;
            l1_block_timestamp = transaction.block_timestamp;
            l1_block_hash = transaction.block_hash;
            l1_from_address = transaction.from_address;
            l1_to_address = transaction.to_address;
            outbox = event.outbox;
            to = event.to;
            value = event.value;
            content = event.content;
          }))
        transaction.logs
