-- ===== src/Bridges/Bedrock/Recorded.antt =====
-- indexer/modules/bridge/bedrock/parser/bedrock_bridge_parser.py: every message is recorded, whatever call
-- it makes on the other side.
use hemera_indexer.Prelude.{
  ℕ, ◌≡◌, refl, ◌⊎◌, inl, inr, true, Option, none, some, map, All, All-map,
}
use hemera_indexer.Errors.{Message, returns, raises, value_error, Returns}
use hemera_indexer.Transfers.{Log, Address}
use hemera_indexer.Bridges.Arbitrum.Messages.{to_hex}
use hemera_indexer.Bridges.Arbitrum.Events.{Transaction, select, collect-keys}
use hemera_indexer.Bridges.Deposits.{get_version_and_index_from_nonce}
use hemera_indexer.Bridges.Bedrock.Calls.{
  BridgeRemoteFunctionCallInfo, get_remote_function_call_info,
}
use hemera_indexer.Bridges.Bedrock.Events.{
  BedrockCodec, RelayMessage, MessagePassedArgs, BridgeTransaction, is_event_of, or_on_value_error,
  normal_call, record_of,
}
use hemera_indexer.Bridges.Bedrock.Parsed.{call_info, withdrawn_of, parse_message_passed_event}

-- The hash, the version, the index and the value of a message.
pub record Key : Type 0 where
  pub hash : Message
  pub version : Option ℕ
  pub index : Option ℕ
  pub value : ℕ

abbrev pub key_of : BridgeTransaction → Key
key_of w = record { hash = w.msg_hash; version = w.version; index = w.index; value = w.value }

module _ (codec : BedrockCodec) (t : Transaction) (contract_address : Address)
    (passed : Log → MessagePassedArgs) (relay : Log → RelayMessage) where
  -- The codec reads the event and its message; of the call it reads what it knows, or it does not know
  -- the function or the call is too short.
  abbrev pub IsReadable : Log → Type 0
  IsReadable log =
      (codec.message_passed log ≡ returns (passed log))
      × (codec.relay_message (passed log).content ≡ returns (relay log))
      × (((info : BridgeRemoteFunctionCallInfo) × (get_remote_function_call_info codec.calls
                (relay log).message
              ≡ returns info))
          ⊎ (get_remote_function_call_info codec.calls (relay log).message ≡ raises value_error))

  abbrev pub log_key : Log → Key
  log_key log =
      let (version, index) = get_version_and_index_from_nonce (passed log).nonce in
      record {
        hash = to_hex (passed log).withdrawal_hash;
        version = some version;
        index = some index;
        value = (relay log).value;
      }

  call_info-returns :
      (log : Log)
      → IsReadable log
      → (info : BridgeRemoteFunctionCallInfo) × (call_info codec t (relay log) ≡ returns info)
  unfolding call_info or_on_value_error
  call_info-returns log (_, _, inl (info, known)) = (info, rw known refl)
  call_info-returns log (_, _, inr unknown) = (normal_call t (relay log).value, rw unknown refl)

  withdrawn_of-key :
      (log : Log)
      → IsReadable log
      → Returns (λ w. key_of w ≡ log_key log) (withdrawn_of codec t log)
  unfolding withdrawn_of
  withdrawn_of-key log (read, relayed, known) =
      let (info, called) = call_info-returns log (read, relayed, known) in
      (
        record_of t (to_hex (passed log).withdrawal_hash)
            (get_version_and_index_from_nonce (passed log).nonce) (relay log) info none none,
        rw read (rw relayed (rw called refl)),
        refl,
      )

  -- Each event of the contract becomes one withdrawal, in the order of the logs, under the hash that the
  -- event has, with the version and the index of its nonce and the value of its message.
  pub parse_message_passed_event-keys :
      All
        (λ log. is_event_of codec.message_passed_sig contract_address log ≡ true → IsReadable log)
        t.logs
      → Returns
          (λ ws.
            map key_of ws
            ≡ map log_key (select (is_event_of codec.message_passed_sig contract_address) t.logs))
          (parse_message_passed_event codec t contract_address)
  unfolding parse_message_passed_event
  parse_message_passed_event-keys readable =
      collect-keys (is_event_of codec.message_passed_sig contract_address) (withdrawn_of codec t)
        key_of log_key t.logs (All-map (λ log h hit. withdrawn_of-key log (h hit)) t.logs readable)
