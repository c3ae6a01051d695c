-- ===== src/Tests/Withdrawing.antt =====
-- A withdrawal of the OP Stack: its events, its row in the database and its states.
use hemera_indexer.Prelude.{
  Bool, true, false, Option, lookup, ℕ, ◌+◌, ◌^◌, ◌≡◌, refl, inr, String, none, some, [], ◌∷◌, map,
  string_eq,
}
use hemera_indexer.Errors.{codes, Outcome, returns, raises, value_error, other, Returns}
use hemera_indexer.Transfers.{Log}
use hemera_indexer.Bridges.Rows.{Scalar, item, null, num, str, scalar, Row}
use hemera_indexer.Bridges.Status.{Time, determine_op_bedrock_withdrawal_state}
use hemera_indexer.Bridges.Arbitrum.Events.{Transaction, select}
use hemera_indexer.Bridges.Bedrock.Calls.{CallCodec, get_remote_function_call_info}
use hemera_indexer.Bridges.Bedrock.Events.{
  BedrockCodec, RelayMessage, MessagePassedArgs, is_event_of,
}
use hemera_indexer.Bridges.Bedrock.Parsed.{parse_message_passed_event}
use hemera_indexer.Bridges.Bedrock.Recorded.{
  key_of, log_key, IsReadable, parse_message_passed_event-keys,
}

-- The row of a withdrawal of block 90 that was proven and has its L1 block, if it has been relayed.
abbrev row : Scalar → Scalar → Row
row proven relayed =
    ("l2_block_number", scalar (num 90))
    ∷ ("l1_proven_block_number", scalar proven)
    ∷ ("l1_proven_block_timestamp", scalar (str "1970-01-01T00:16:40+00:00"))
    ∷ ("l1_finalized_block_number", scalar relayed)
    ∷ []

abbrev at_1000 : Bool → String → Outcome Time
at_1000 is_aware text = returns (record { seconds = 1000; is_aware = is_aware })

abbrev state : ℕ → Row → Option ℕ → Outcome ℕ
state now r finalized = determine_op_bedrock_withdrawal_state (at_1000 true) now r finalized 7

states_on_the_way :
    (state 1000 (row null null) none ≡ returns 1)
    × (state 1000 (row null null) (some 100) ≡ returns 2)
    × (state 1000 (row (num 500) null) (some 100) ≡ returns 3)
    × (state 1000000 (row (num 500) null) (some 100) ≡ returns 4)
    × (state 1000000 (row (num 500) (num 600)) (some 100) ≡ returns 5)
unfolding determine_op_bedrock_withdrawal_state item lookup
states_on_the_way = (refl, refl, refl, refl, refl)

-- A time without its zone cannot be compared.
naive_time :
    determine_op_bedrock_withdrawal_state (at_1000 false) 1000 (row (num 500) null) (some 100) 7
    ≡ raises other
unfolding determine_op_bedrock_withdrawal_state item lookup
naive_time = refl

-- A codec that knows no function, so that the message is a call of the normal kind.
abbrev calls : CallCodec
calls = record {
  eth_selector = codes "0x1635f5fd";
  erc20_selector = codes "0x0166a07a";
  erc721_selector = codes "0x761f4493";
  finalize_eth = λ input. raises value_error;
  finalize_erc20 = λ input. raises value_error;
  finalize_erc721 = λ input. raises value_error;
}

abbrev passed_args : MessagePassedArgs
passed_args = record { nonce = 2 ^ 240 + 7; content = 1 ∷ []; withdrawal_hash = 171 ∷ 205 ∷ [] }

abbrev relayed_args : RelayMessage
relayed_args = record {
  nonce = 2 ^ 240 + 7;
  sender = codes "0x01";
  target = codes "0x02";
  value = 5;
  min_gas_limit = 21000;
  message = 1 ∷ 2 ∷ 3 ∷ [];
}

abbrev bedrock : BedrockCodec
bedrock = record {
  calls = calls;
  relay_message = λ content. returns relayed_args;
  transaction_deposited_sig = "deposited";
  transaction_deposited = λ log. raises value_error;
  message_passed_sig = "passed";
  message_passed = λ log. returns passed_args;
  output_proposed_sig = "proposed";
  output_proposed = λ log. raises value_error;
  keccak = λ bytes. bytes;
  encode = λ tx. [];
}

abbrev log_of : String → Log
log_of topic = record {
  log_index = 0;
  address = codes "0x16";
  data_hex = "0x";
  transaction_hash = "0xt";
  block_number = 90;
  block_hash = "0xb";
  block_timestamp = 1000;
  topic0 = some topic;
  topic1 = none;
  topic2 = none;
  topic3 = none;
}

abbrev withdrawing : Transaction
withdrawing = record {
  hash = "0xt";
  block_number = 90;
  block_timestamp = 1000;
  block_hash = "0xb";
  from_address = codes "0x01";
  to_address = codes "0x16";
  input = [];
  logs = log_of "other" ∷ log_of "passed" ∷ [];
}

unknown_call : get_remote_function_call_info calls (1 ∷ 2 ∷ 3 ∷ []) ≡ raises value_error
unfolding get_remote_function_call_info
unknown_call = refl

readable :
    (log : Log)
    → IsReadable bedrock withdrawing (codes "0x16") (λ log. passed_args) (λ log. relayed_args) log
readable log = (refl, refl, inr unknown_call)

parse_message_passed_event-keys_example :
    Returns
      (λ ws.
        map key_of ws
        ≡ map
            (log_key bedrock withdrawing (codes "0x16") (λ log. passed_args) (λ log. relayed_args))
            (select (is_event_of "passed" (codes "0x16")) (log_of "other" ∷ log_of "passed" ∷ [])))
      (parse_message_passed_event bedrock withdrawing (codes "0x16"))
parse_message_passed_event-keys_example =
    parse_message_passed_event-keys bedrock withdrawing (codes "0x16") (λ log. passed_args)
      (λ log. relayed_args)
      (λ hit. readable (log_of "other"), (λ hit. readable (log_of "passed"), tt))
