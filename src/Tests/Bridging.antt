-- ===== src/Tests/Bridging.antt =====
-- Messages between the chains: a deposit of the Optimism portal, and messages of the Arbitrum inbox.
use hemera_indexer.Prelude.{
  nat_beq, ℕ, ◌<◌, ◌≤◌, ◌≡◌, refl, true, false, none, some, List, [], ◌∷◌, ◌++◌, arith, length,
  drop, map, inl, inr, nat_eq, lookup, Dict, subst,
}
use hemera_indexer.Prelude.Int.{pos}
use hemera_indexer.Errors.{assertion_error, returns, raises, other, Returns}
use hemera_indexer.Bridges.Bytes.{
  Bytes, IsBytes, to_bytes, to_bytes-IsBytes, length-to_bytes, pack-IsBytes, length-pack, slice,
  from_bytes,
}
use hemera_indexer.Bridges.Deposits.{
  DepositVersion0, packed_version0, packed_version1, unmarshal_deposit_version0,
  unmarshal_deposit_version1, unmarshal_deposit-total, unmarshal_deposit_version1-packed_version1,
  mint_option_of,
}
use hemera_indexer.Bridges.DepositTx.{
  DepositEvent, OpBedrockDepositTx, deposit_event_to_op_bedrock_transaction,
}
use hemera_indexer.Bridges.SourceHash.{prefixed}
use hemera_indexer.Bridges.Agreement.{
  log_data, Agrees, deposit_event_to_op_bedrock_transaction-Agrees,
}
use hemera_indexer.Bridges.Arbitrum.Messages.{
  to_hex, text, strip_leading_zeros, un_marshal_inbox_message_delivered_data, arbitrum, is_zeros,
}
use hemera_indexer.Bridges.Arbitrum.Addresses.{address_word, strip_leading_zeros-address}
use hemera_indexer.Bridges.Arbitrum.Events.{InboxMessageDeliveredData, MessageDeliveredData}
use hemera_indexer.Bridges.Arbitrum.Ids.{Hashing}
use hemera_indexer.Bridges.Arbitrum.Job.{arb_deposits}
use hemera_indexer.Bridges.Arbitrum.Deposited.{
  IsMessage, IsEntry, IsRead, numbers, arb_deposits-numbers, arb_deposits-raises,
}
use hemera_indexer.Bridges.Arbitrum.Retryables.{packed_retryable, submit_retryable-packed_retryable}

-- 7 wei with 21000 gas, and two bytes of data.
abbrev portal_fields : List (ℕ × ℕ)
portal_fields = (32, 7) ∷ (32, 7) ∷ (8, 21000) ∷ []

abbrev portal_deposit : Bytes
portal_deposit = packed_version0 7 7 21000 1 (18 ∷ 52 ∷ [])

portal_deposit-IsBytes : IsBytes portal_deposit
portal_deposit-IsBytes = pack-IsBytes portal_fields (1 ∷ 18 ∷ 52 ∷ []) (omega arith)

portal_deposit-long : length portal_deposit ≡ 75
portal_deposit-long = length-pack portal_fields (1 ∷ 18 ∷ 52 ∷ [])

portal_deposit_read :
    unmarshal_deposit_version0 portal_deposit
    ≡ returns (record {
      mint_option = some 7;
      value = 7;
      gas = 21000;
      is_creation = true;
      tx_data = 18 ∷ 52 ∷ [];
    })
unfolding unmarshal_deposit_version0 slice from_bytes to_bytes
portal_deposit_read = refl

-- A stand-in for the hash function, with results of 32 bytes.
abbrev hash_32 : Bytes → Bytes
hash_32 bytes = to_bytes 32 (length bytes)

abbrev portal_event : DepositEvent
portal_event = record {
  block_hash = prefixed (to_bytes 32 99);
  log_index = 17;
  topic1 = prefixed (to_bytes 32 1000);
  topic2 = prefixed (to_bytes 32 2000);
  data_hex = prefixed (log_data portal_deposit (to_bytes 21 0));
}

deposit_event_to_op_bedrock_transaction-Agrees_example :
    (d : DepositVersion0) × (tx : OpBedrockDepositTx) × (unmarshal_deposit_version0 portal_deposit
      ≡ returns d)
    × (deposit_event_to_op_bedrock_transaction hash_32 portal_event ≡ returns tx)
    × Agrees d tx
    × (tx.from_address ≡ drop 12 (to_bytes 32 1000))
    × (tx.to_address ≡ drop 12 (to_bytes 32 2000))
deposit_event_to_op_bedrock_transaction-Agrees_example =
    deposit_event_to_op_bedrock_transaction-Agrees hash_32 portal_event (to_bytes 32 99)
      (to_bytes 32 1000) (to_bytes 32 2000) portal_deposit (to_bytes 21 0)
      (λ bytes. (to_bytes-IsBytes 32 (length bytes), length-to_bytes 32 (length bytes))) refl refl
      refl refl (omega arith) (to_bytes-IsBytes 32 99) (length-to_bytes 32 99)
      (to_bytes-IsBytes 32 1000) (to_bytes-IsBytes 32 2000) portal_deposit-IsBytes
      (to_bytes-IsBytes 21 0) (omega (arith, portal_deposit-long))
      (omega (arith, portal_deposit-long))

unmarshal_deposit-total_example :
    (73 ≤ length portal_deposit
      → unmarshal_deposit_version0 portal_deposit
        ≡ returns (record {
          mint_option = mint_option_of (from_bytes (slice 0 32 portal_deposit));
          value = from_bytes (slice 32 64 portal_deposit);
          gas = from_bytes (slice 64 72 portal_deposit);
          is_creation = nat_beq (from_bytes (slice 72 73 portal_deposit)) 1;
          tx_data = drop 73 portal_deposit;
        }))
    × (length portal_deposit < 73
        → unmarshal_deposit_version0 portal_deposit ≡ raises assertion_error)
    × (137 ≤ length portal_deposit
        → unmarshal_deposit_version1 portal_deposit
          ≡ returns (record {
            mint_option = mint_option_of (from_bytes (slice 0 32 portal_deposit));
            value = from_bytes (slice 32 64 portal_deposit);
            eth_value = from_bytes (slice 64 96 portal_deposit);
            eth_tx_value = from_bytes (slice 96 128 portal_deposit);
            gas = from_bytes (slice 128 136 portal_deposit);
            is_creation = nat_beq (from_bytes (slice 136 137 portal_deposit)) 1;
            tx_data = drop 137 portal_deposit;
          }))
    × (length portal_deposit < 137
        → unmarshal_deposit_version1 portal_deposit ≡ raises assertion_error)
unmarshal_deposit-total_example = unmarshal_deposit-total portal_deposit portal_deposit-IsBytes

unmarshal_deposit_version1-packed_version1_example :
    unmarshal_deposit_version1 (packed_version1 0 5 6 7 21000 0 (18 ∷ []))
    ≡ returns (record {
      mint_option = mint_option_of 0;
      value = 5;
      eth_value = 6;
      eth_tx_value = 7;
      gas = 21000;
      is_creation = false;
      tx_data = 18 ∷ [];
    })
unmarshal_deposit_version1-packed_version1_example =
    unmarshal_deposit_version1-packed_version1 0 5 6 7 21000 0 (18 ∷ []) (omega arith) (omega arith)
      (omega arith) (omega arith) (omega arith)

-- An address that begins with a zero byte, as those do that are searched for to save gas.
abbrev vanity : Bytes
vanity = 7 ∷ to_bytes 18 12345

strip_leading_zeros-address_example :
    (0 < 0
      → strip_leading_zeros (to_hex (address_word (0 ∷ vanity))) ≡ returns (to_hex (0 ∷ vanity)))
    × (is_zeros (0 ∷ vanity) ≡ true
        → strip_leading_zeros (to_hex (address_word (0 ∷ vanity))) ≡ returns (to_hex (0 ∷ vanity)))
    × (◌≡◌ {A = ℕ} 0 0
        → is_zeros (0 ∷ vanity) ≡ false
        → (short : Bytes) × (strip_leading_zeros (to_hex (address_word (0 ∷ vanity)))
            ≡ returns (to_hex short))
          × (length short < 20))
strip_leading_zeros-address_example =
    strip_leading_zeros-address 0 vanity (omega arith, (omega arith, to_bytes-IsBytes 18 12345))
      (omega (arith, length-to_bytes 18 12345))

-- A ticket with a call of two bytes.
submit_retryable-packed_retryable_example :
    un_marshal_inbox_message_delivered_data
      (pos 9)
      (packed_retryable 11 12 13 14 15 16 17 18 (1 ∷ 2 ∷ []))
      arbitrum
    ≡ returns (record {
      dest_address = text (to_hex (to_bytes 32 11));
      l2_call_value = 12;
      msg_value = 13;
      gas_limit = 17;
      max_submission_cost = 14;
      excess_fee_refund_address = text (to_hex (to_bytes 32 15));
      call_value_refund_address = text (to_hex (to_bytes 32 16));
      max_fee_per_gas = 18;
      data_bytes = to_hex (1 ∷ 2 ∷ []);
      l1_token_id = none;
      l1_token_amount = 0;
    })
submit_retryable-packed_retryable_example =
    submit_retryable-packed_retryable 11 12 13 14 15 16 17 18 (1 ∷ 2 ∷ []) (omega arith)
      (omega arith) (omega arith) (omega arith) (omega arith) (omega arith)

-- Three messages of the inbox, of which one was delivered as a deposit and one as a ticket.
abbrev delivered_as : ℕ → MessageDeliveredData
delivered_as kind = record {
  msg_hash = none;
  block_number = 100;
  block_timestamp = 1700000000;
  block_hash = "0xb1";
  transaction_hash = "0xt1";
  from_address = to_hex (to_bytes 20 1);
  to_address = to_hex (to_bytes 20 2);
  bridge_from_address = to_hex (to_bytes 20 3);
  bridge_to_address = to_hex (to_bytes 20 3);
  extra_info = (9, kind);
  before_inbox_acc = [];
  message_index = 5;
  inbox = to_hex (to_bytes 20 4);
  kind = kind;
  sender = to_hex (to_bytes 20 3);
  message_data_hash = [];
  base_fee_l1 = 9;
  timestamp = 1700000000;
}

abbrev in_inbox : ℕ → InboxMessageDeliveredData
in_inbox n = record { transaction_hash = "0xt1"; msg_number = n; content = to_bytes 52 1000 }

abbrev two_delivered : Dict ℕ MessageDeliveredData
two_delivered = (5, delivered_as 12) ∷ (7, delivered_as 9) ∷ []

abbrev hashing : Hashing
hashing = record { encode = λ fields. []; keccak = hash_32 }

delivered_as-IsMessage : (kind : ℕ) → IsRead kind → IsMessage (delivered_as kind)
delivered_as-IsMessage kind known = record {
  kind_read = known;
  sender_hex = (to_bytes 20 3, refl, to_bytes-IsBytes 20 3);
  from_hex_text = (to_bytes 20 1, refl, to_bytes-IsBytes 20 1);
}

found-IsMessage :
    (n : ℕ) (known : MessageDeliveredData)
    → lookup n two_delivered ≡ some known
    → IsMessage known
    → (m : MessageDeliveredData) → lookup n two_delivered ≡ some m
    → IsMessage m
found-IsMessage n known e ok m found = let same : known ≡ m = cc in subst IsMessage same ok

deposit-IsEntry : IsEntry hashing arbitrum [] two_delivered (5, in_inbox 5)
unfolding lookup
deposit-IsEntry = (
  omega arith,
  to_bytes-IsBytes 52 1000,
  found-IsMessage 5 (delivered_as 12) refl (delivered_as-IsMessage 12 (inr (inl refl))),
)

missing-IsEntry : IsEntry hashing arbitrum [] two_delivered (6, in_inbox 6)
unfolding lookup
missing-IsEntry = (omega arith, to_bytes-IsBytes 52 1000, λ m found. cc)

ticket-IsEntry : IsEntry hashing arbitrum [] two_delivered (7, in_inbox 7)
unfolding lookup
ticket-IsEntry = (
  omega arith,
  to_bytes-IsBytes 52 1000,
  found-IsMessage 7 (delivered_as 9) refl (delivered_as-IsMessage 9 (inl refl)),
)

arb_deposits-numbers_example :
    Returns
      (λ ds.
        map (λ d. d.index) ds
        ≡ numbers hashing arbitrum [] two_delivered
            ((5, in_inbox 5) ∷ (6, in_inbox 6) ∷ (7, in_inbox 7) ∷ []))
      (arb_deposits hashing arbitrum [] two_delivered
        ((5, in_inbox 5) ∷ (6, in_inbox 6) ∷ (7, in_inbox 7) ∷ []))
arb_deposits-numbers_example =
    arb_deposits-numbers hashing arbitrum [] two_delivered
      ((5, in_inbox 5) ∷ (6, in_inbox 6) ∷ (7, in_inbox 7) ∷ [])
      (deposit-IsEntry, (missing-IsEntry, (ticket-IsEntry, tt)))

numbers_5_7 :
    numbers hashing arbitrum [] two_delivered
      ((5, in_inbox 5) ∷ (6, in_inbox 6) ∷ (7, in_inbox 7) ∷ [])
    ≡ 5 ∷ 7 ∷ []
unfolding lookup
numbers_5_7 = refl

-- A message of the kind 7, which is funded by the first layer.
abbrev funded : Dict ℕ MessageDeliveredData
funded = (8, delivered_as 7) ∷ []

funded_found : lookup 8 funded ≡ some (delivered_as 7)
unfolding lookup
funded_found = refl

seven_unread : ¬ IsRead 7
seven_unread known = elim known [
  | inl e ↦ absurd (omega (arith, e))
  | inr (inl e) ↦ absurd (omega (arith, e))
  | inr (inr (inl e)) ↦ absurd (omega (arith, e))
  | inr (inr (inr (inl e))) ↦ absurd (omega (arith, e))
  | inr (inr (inr (inr e))) ↦ absurd (omega (arith, e))
]

arb_deposits-raises_example :
    arb_deposits hashing arbitrum [] funded ([] ++ (8, in_inbox 8) ∷ []) ≡ raises other
arb_deposits-raises_example =
    arb_deposits-raises hashing arbitrum [] funded [] 8 (in_inbox 8) [] (delivered_as 7) tt
      (omega arith) funded_found seven_unread
