-- ===== src/Bridges/Arbitrum/Job.antt =====
-- indexer/modules/bridge/arbitrum/arb_bridge_on_l1_job.py: the deposits, which are put together from the
-- two messages with one number.
use hemera_indexer.Prelude.{
  ℕ, String, Option, none, some, List, [], ◌∷◌, ◌++◌, if◌then◌else◌, ◌==◌, nat_beq, nat_eq,
  string_eq, Dict, lookup, insert,
}
use hemera_indexer.Prelude.Int.{ℤ, pos, negsuc}
use hemera_indexer.Errors.{Message, message_eq, Outcome, returns, raises, other, ◌>>=◌}
use hemera_indexer.Transfers.{Address}
use hemera_indexer.Bridges.Arbitrum.Messages.{
  Word, raw, text, InboxMessage, strip_leading_zeros, un_marshal_inbox_message_delivered_data,
}
use hemera_indexer.Bridges.Arbitrum.Events.{
  Transaction, Codec, InboxMessageDeliveredData, MessageDeliveredData, parse_message_delivered,
  parse_inbox_message_delivered, stripped_token,
}
use hemera_indexer.Bridges.Arbitrum.Rollup.{TransactionToken}
use hemera_indexer.Bridges.Arbitrum.Ids.{
  Hashing, calculate_deposit_tx_id, calculate_submit_retryable_id,
}

-- `ArbitrumL1ToL2TransactionOnL1`, less `l2_token_address`, which is always `None`.
pub record Deposit : Type 0 where
  pub msg_hash : Message
  pub index : ℕ
  pub l1_block_number : ℕ
  pub l1_block_timestamp : ℕ
  pub l1_block_hash : String
  pub l1_transaction_hash : String
  pub l1_from_address : Address
  pub l1_to_address : Address
  pub l1_token_address : Option Message
  pub from_address : Address
  pub to_address : Address
  pub amount : ℕ
  pub extra_info : ℕ × ℕ
  pub bridge_type : ℕ

-- The constructor call that the branches share.
abbrev pub deposit : Message → ℕ → MessageDeliveredData → Option Message → (amount : ℕ) → Deposit
deposit l2_tx_hash msg_num m l1_token_address amount = record {
  msg_hash = l2_tx_hash;
  index = msg_num;
  l1_block_number = m.block_number;
  l1_block_timestamp = m.block_timestamp;
  l1_block_hash = m.block_hash;
  l1_transaction_hash = m.transaction_hash;
  l1_from_address = m.from_address;
  l1_to_address = m.to_address;
  l1_token_address = l1_token_address;
  from_address = m.bridge_from_address;
  to_address = m.bridge_to_address;
  amount = amount;
  extra_info = m.extra_info;
  bridge_type = 1;
}

-- `kind if kind else -1`
unfoldable pub kind_of : ℕ → ℤ
kind_of kind = if nat_beq kind 0 then negsuc 0 else pos kind

-- `strip_leading_zeros` of `bytes` raises.
unfoldable pub stripped_word : Word → Outcome Message
stripped_word (raw bytes) = raises other
stripped_word (text hex) = strip_leading_zeros hex

-- The token and the amount that the call of the gateway has, where it has them.
unfoldable pub token_or : Option TransactionToken → Option Message → ℕ → Option Message × ℕ
token_or none l1_token_id l1_token_amount = (l1_token_id, l1_token_amount)
token_or (some t) l1_token_id l1_token_amount = (
  (if t.l1_token == [] then l1_token_id else some t.l1_token),
  (if nat_beq t.amount 0 then l1_token_amount else t.amount),
)

module _ (h : Hashing) (l2_chain_id : ℕ) where
  unfoldable pub retryable_deposit :
      ℕ → MessageDeliveredData → Option TransactionToken → InboxMessage → Outcome Deposit
  unfolding stripped_word token_or
  retryable_deposit msg_num m token_transaction i = do
    dest ← stripped_word i.dest_address
    excess ← stripped_word i.excess_fee_refund_address
    call_value ← stripped_word i.call_value_refund_address
    l2_tx_hash ←
        calculate_submit_retryable_id h l2_chain_id msg_num m.sender m.base_fee_l1 dest
          i.l2_call_value i.msg_value i.max_submission_cost excess call_value i.gas_limit
          i.max_fee_per_gas i.data_bytes
    let token = token_or token_transaction i.l1_token_id i.l1_token_amount
    returns (deposit l2_tx_hash msg_num m token.0 token.1)

  -- The branches of the kinds 12, 11 and 3, which are the same.
  unfoldable pub plain_deposit : ℕ → MessageDeliveredData → InboxMessage → Outcome Deposit
  plain_deposit msg_num m i = do
    l2_tx_hash ← calculate_deposit_tx_id h l2_chain_id msg_num m.sender m.from_address i.msg_value
    token ← stripped_token i.l1_token_id
    returns (deposit l2_tx_hash msg_num m token i.l1_token_amount)

  one : Outcome Deposit → Outcome (List Deposit)
  one made = made >>= λ d. returns (d ∷ [])

  unfoldable pub branches :
      ℕ → MessageDeliveredData → Option TransactionToken → InboxMessage → Outcome (List Deposit)
  unfolding one
  branches msg_num m token_transaction i =
      if nat_beq m.kind 9
      then one (retryable_deposit msg_num m token_transaction i)
      else if nat_beq m.kind 12
      then one (plain_deposit msg_num m i)
      else if nat_beq m.kind 11
      then one (plain_deposit msg_num m i)
      else if nat_beq m.kind 3
      then one (plain_deposit msg_num m i)
      else returns []

  -- A message of the inbox that was not delivered is passed over.
  unfoldable pub deposit_if :
      ℕ
      → InboxMessageDeliveredData
      → Option TransactionToken
      → Option MessageDeliveredData
      → Outcome (List Deposit)
  unfolding kind_of
  deposit_if msg_num inbox_message token_transaction none = returns []
  deposit_if msg_num inbox_message token_transaction (some m) =
      un_marshal_inbox_message_delivered_data (kind_of m.kind) inbox_message.content l2_chain_id
      >>= branches msg_num m token_transaction

  unfoldable pub deposit_of :
      Dict String TransactionToken
      → Dict ℕ MessageDeliveredData
      → ℕ × InboxMessageDeliveredData
      → Outcome (List Deposit)
  unfolding deposit_if
  deposit_of tnx_input_map message_delivered_event_map (msg_num, inbox_message) =
      deposit_if msg_num inbox_message (lookup inbox_message.transaction_hash tnx_input_map)
        (lookup msg_num message_delivered_event_map)

  -- The loop over the messages of the inbox.
  unfoldable pub arb_deposits :
      Dict String TransactionToken
      → Dict ℕ MessageDeliveredData
      → Dict ℕ InboxMessageDeliveredData
      → Outcome (List Deposit)
  arb_deposits tnx_input_map message_delivered_event_map [] = returns []
  arb_deposits tnx_input_map message_delivered_event_map (entry ∷ entries) = do
    some_deposits ← deposit_of tnx_input_map message_delivered_event_map entry
    others ← arb_deposits tnx_input_map message_delivered_event_map entries
    returns (some_deposits ++ others)

-- The messages of all of the transactions by their numbers, where a later one replaces an earlier one.
unfoldable pub by_number {ℓ} : {V : Type ℓ} → (V → ℕ) → List V → Dict ℕ V → Dict ℕ V
by_number number_of [] messages = messages
by_number number_of (m ∷ ms) messages = by_number number_of ms (insert (number_of m) m messages)

-- The lists of all of the transactions, one behind the other.
unfoldable pub parse_all {ℓ} :
    {A : Type ℓ} → (Transaction → Outcome (List A)) → List Transaction → Outcome (List A)
parse_all parse [] = returns []
parse_all parse (tnx ∷ transactions) = do
  items ← parse tnx
  others ← parse_all parse transactions
  returns (items ++ others)

-- The first part of `_process`: what the deposits of the transactions are.
unfoldable pub l1_to_l2_deposits :
    Hashing
    → Codec
    → (l2_chain_id : ℕ) → List Address
    → Dict String TransactionToken
    → List Transaction
    → Outcome (List Deposit)
unfolding by_number parse_all arb_deposits
l1_to_l2_deposits h codec l2_chain_id contract_list tnx_input_map transactions = do
  delivered ← parse_all (λ x. parse_message_delivered codec x contract_list) transactions
  inbox ← parse_all (λ x. parse_inbox_message_delivered codec x contract_list) transactions
  arb_deposits h l2_chain_id tnx_input_map (by_number (λ m. m.message_index) delivered [])
      (by_number (λ m. m.msg_number) inbox [])
