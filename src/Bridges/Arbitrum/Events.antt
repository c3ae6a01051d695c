-- ===== src/Bridges/Arbitrum/Events.antt =====
-- indexer/modules/bridge/arbitrum/arb_parser.py: the events of the messages and of the tickets. The ABI
-- codec and the hashes of the signatures are not code of the repository: a `Codec` has what they answer.
use hemera_indexer.Prelude.{
  ℕ, String, Bool, ◌&&◌, Option, none, some, List, [], ◌∷◌, if◌then◌else◌, ◌==◌, nat_beq, string_eq,
  has, true, false, map, All, Bool-cases, inl, inr, ◌≡◌, refl, ap,
}
use hemera_indexer.Errors.{Message, message_eq, Outcome, returns, ◌>>=◌, Returns}
use hemera_indexer.Transfers.{Log, Address}
use hemera_indexer.Bridges.Bytes.{Bytes}
use hemera_indexer.Bridges.Arbitrum.Messages.{to_hex, un_marshal_tx_to_l1, strip_leading_zeros}

-- The fields of `Transaction` that the bridge reads, with the logs of its receipt.
pub record Transaction : Type 0 where
  pub hash : String
  pub block_number : ℕ
  pub block_timestamp : ℕ
  pub block_hash : String
  pub from_address : Address
  pub to_address : Address
  pub input : Message
  pub logs : List Log

-- The arguments of the events.
pub record MessageDeliveredArgs : Type 0 where
  pub message_index : ℕ
  pub before_inbox_acc : Bytes
  pub inbox : Address
  pub kind : ℕ
  pub sender : Address
  pub message_data_hash : Bytes
  pub base_fee_l1 : ℕ
  pub timestamp : ℕ

pub record L2ToL1Args : Type 0 where
  pub caller : Address
  pub destination : Address
  pub hash : ℕ
  pub position : ℕ
  pub arb_block_num : ℕ
  pub eth_block_num : ℕ
  pub timestamp : ℕ
  pub callvalue : ℕ
  pub content : Bytes

pub record Codec : Type 0 where
  pub message_delivered_sig : String
  pub message_delivered : Log → Outcome MessageDeliveredArgs
  pub inbox_message_delivered_sig : String
  -- messageNum, data
  pub inbox_message_delivered : Log → Outcome (ℕ × Bytes)
  pub ticket_created_sig : String
  -- ticketId
  pub ticket_created : Log → Outcome Bytes
  pub l2_to_l1_sig : String
  pub l2_to_l1 : Log → Outcome L2ToL1Args

unfoldable pub is_topic : String → Option String → Bool
is_topic sig none = false
is_topic sig (some topic) = topic == sig

-- The test of every parser, and the loop over the logs that they share.
unfoldable pub is_event : String → List Address → Log → Bool
unfolding is_topic
is_event sig contract_set log = is_topic sig log.topic0 && has log.address contract_set

unfoldable pub collect {ℓ κ} :
    {A : Type ℓ} {B : Type κ} → (A → Bool) → (A → Outcome B) → List A → Outcome (List B)
collect matches make [] = returns []
collect matches make (log ∷ logs) =
    let rest = collect matches make logs in
    if matches log then (make log >>= λ item. rest >>= λ items. returns (item ∷ items)) else rest

-- `InboxMessageDeliveredData`
pub record InboxMessageDeliveredData : Type 0 where
  pub transaction_hash : String
  pub msg_number : ℕ
  pub content : Bytes

-- `MessageDeliveredData`; its `extra_info` has the fee and the kind.
pub record MessageDeliveredData : Type 0 where
  pub msg_hash : Option Message
  pub block_number : ℕ
  pub block_timestamp : ℕ
  pub block_hash : String
  pub transaction_hash : String
  pub from_address : Address
  pub to_address : Address
  pub bridge_from_address : Address
  pub bridge_to_address : Address
  pub extra_info : ℕ × ℕ
  pub before_inbox_acc : Bytes
  pub message_index : ℕ
  pub inbox : Address
  pub kind : ℕ
  pub sender : Address
  pub message_data_hash : Bytes
  pub base_fee_l1 : ℕ
  pub timestamp : ℕ

-- `TicketCreatedData`
pub record TicketCreatedData : Type 0 where
  pub msg_hash : Message
  pub transaction_hash : String
  pub block_number : ℕ
  pub block_timestamp : ℕ
  pub block_hash : String
  pub from_address : Address
  pub to_address : Address

-- `L2ToL1Tx_64`
pub record L2ToL1Tx64 : Type 0 where
  pub msg_hash : ℕ
  pub l2_block_number : ℕ
  pub l2_block_timestamp : ℕ
  pub l2_block_hash : String
  pub l2_transaction_hash : String
  pub l2_from_address : Address
  pub l2_to_address : Address
  pub l2_token_address : Option Message
  pub caller : Address
  pub destination : Address
  pub hash : ℕ
  pub position : ℕ
  pub arb_block_num : ℕ
  pub eth_block_num : ℕ
  pub timestamp : ℕ
  pub callvalue : ℕ
  pub content : Bytes

-- `strip_leading_zeros(_token) if _token else None`
unfoldable pub stripped_token : Option Message → Outcome (Option Message)
unfolding strip_leading_zeros
stripped_token none = returns none
stripped_token (some token) = strip_leading_zeros token >>= λ t. returns (some t)

module _ (codec : Codec) where
  unfoldable pub parse_inbox_message_delivered :
      Transaction → List Address → Outcome (List InboxMessageDeliveredData)
  unfolding is_event collect
  parse_inbox_message_delivered transaction contract_set =
      collect (is_event codec.inbox_message_delivered_sig contract_set)
        (λ log. do
          (message_num, content) ← codec.inbox_message_delivered log
          returns (record {
            transaction_hash = transaction.hash;
            msg_number = message_num;
            content = content;
          }))
        transaction.logs

  unfoldable pub parse_message_delivered :
      Transaction → List Address → Outcome (List MessageDeliveredData)
  unfolding is_event collect
  parse_message_delivered transaction contract_set =
      collect (is_event codec.message_delivered_sig contract_set)
        (λ log. do
          event ← codec.message_delivered log
          returns (record {
            msg_hash = none;
            block_number = transaction.block_number;
            block_timestamp = transaction.block_timestamp;
            block_hash = transaction.block_hash;
            transaction_hash = transaction.hash;
            from_address = transaction.from_address;
            to_address = transaction.to_address;
            bridge_from_address = event.sender;
            bridge_to_address = event.sender;
            extra_info = (event.base_fee_l1, event.kind);
            before_inbox_acc = event.before_inbox_acc;
            message_index = event.message_index;
            inbox = event.inbox;
            kind = event.kind;
            sender = event.sender;
            message_data_hash = event.message_data_hash;
            base_fee_l1 = event.base_fee_l1;
            timestamp = event.timestamp;
          }))
        transaction.logs

  unfoldable pub parse_ticket_created_event :
      Transaction → List Address → Outcome (List TicketCreatedData)
  unfolding is_event collect
  parse_ticket_created_event transaction contract_set =
      collect (is_event codec.ticket_created_sig contract_set)
        (λ log. do
          ticket_id ← codec.ticket_created log
          returns (record {
            msg_hash = to_hex ticket_id;
            transaction_hash = transaction.hash;
            block_number = transaction.block_number;
            block_timestamp = transaction.block_timestamp;
            block_hash = transaction.block_hash;
            from_address = transaction.from_address;
            to_address = transaction.to_address;
          }))
        transaction.logs

  -- An amount that is not in the data is the value of the call.
  unfoldable pub parse_l2_to_l1_tx_64_event : Transaction → List Address → Outcome (List L2ToL1Tx64)
  unfolding is_event collect un_marshal_tx_to_l1 stripped_token
  parse_l2_to_l1_tx_64_event transaction contract_set =
      collect (is_event codec.l2_to_l1_sig contract_set)
        (λ log. do
          event ← codec.l2_to_l1 log
          let call = un_marshal_tx_to_l1 event.content
          token ← stripped_token call.token
          returns (record {
            msg_hash = event.position;
            l2_block_number = transaction.block_number;
            l2_block_timestamp = transaction.block_timestamp;
            l2_block_hash = transaction.block_hash;
            l2_transaction_hash = transaction.hash;
            l2_from_address = transaction.from_address;
            l2_to_address = transaction.to_address;
            l2_token_address = token;
            caller = event.caller;
            destination = event.destination;
            hash = event.hash;
            position = event.position;
            arb_block_num = event.arb_block_num;
            eth_block_num = event.eth_block_num;
            timestamp = event.timestamp;
            callvalue = if nat_beq call.amount 0 then event.callvalue else call.amount;
            content = event.content;
          }))
        transaction.logs

-- The members that a test accepts.
abbrev pub select {ℓ} : {A : Type ℓ} → (A → Bool) → List A → List A
select p [] = []
select p (x ∷ xs) = if p x then x ∷ select p xs else select p xs

-- When the codec reads each of the events, the loop returns an item for each, in the order of the logs.
pub collect-eq-map {ℓ κ} :
    {A : Type ℓ} {B : Type κ} (matches : A → Bool) (make : A → Outcome B) (item : A → B)
    (logs : List A)
    → All (λ log. matches log ≡ true → make log ≡ returns (item log)) logs
    → collect matches make logs ≡ returns (map item (select matches logs))
unfolding collect
collect-eq-map matches make item [] h = refl
collect-eq-map matches make item (log ∷ logs) h = elim (Bool-cases (matches log)) [
  | inl hit ↦ rw hit (rw (h.0 hit) (rw (collect-eq-map matches make item logs h.1) refl))
  | inr miss ↦ rw miss (collect-eq-map matches make item logs h.1)
]

-- And when each item has the key of its log, the items have the keys of the logs, in their order.
pub collect-keys {ℓ κ μ} :
    {A : Type ℓ} {B : Type κ} {K : Type μ} (matches : A → Bool) (make : A → Outcome B) (key : B → K)
    (log_key : A → K) (logs : List A)
    → All (λ log. matches log ≡ true → Returns (λ b. key b ≡ log_key log) (make log)) logs
    → Returns (λ bs. map key bs ≡ map log_key (select matches logs)) (collect matches make logs)
unfolding collect
collect-keys matches make key log_key [] h = ([], refl, refl)
collect-keys matches make key log_key (log ∷ logs) h = elim (Bool-cases (matches log)) [
  | inl hit ↦
      let (b, made, same) = h.0 hit in
      let (bs, others, keys) = collect-keys matches make key log_key logs h.1 in
      rw hit (b ∷ bs, rw made (rw others refl), rw same (ap (λ ks. log_key log ∷ ks) keys))
  | inr miss ↦ rw miss (collect-keys matches make key log_key logs h.1)
]
