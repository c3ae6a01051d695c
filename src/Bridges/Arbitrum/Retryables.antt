-- ===== src/Bridges/Arbitrum/Retryables.antt =====
-- indexer/modules/bridge/arbitrum/arb_parser.py: a retryable ticket is read as it was packed.
use hemera_indexer.Prelude.{
  ℕ, ◌<◌, ◌≡◌, refl, List, [], ◌∷◌, ◌++◌, none, arith, length, take, leb, if◌then◌else◌,
}
use hemera_indexer.Prelude.Int.{pos}
use hemera_indexer.Errors.{returns}
use hemera_indexer.Bridges.Bytes.{
  Bytes, slice, from_bytes, to_bytes, pow256, pack, drop-pack, slice-rest, field-slice, field-pack,
}
use hemera_indexer.Bridges.Arbitrum.Messages.{
  to_hex, text, arbitrum, token_of, submit_retryable, un_marshal_inbox_message_delivered_data,
}

module _
    (dest l2_call_value msg_value max_submission_cost excess call_value gas_limit max_fee : ℕ) where
  abbrev words : List (ℕ × ℕ)
  words =
      (32, dest)
      ∷ (32, l2_call_value)
      ∷ (32, msg_value)
      ∷ (32, max_submission_cost)
      ∷ (32, excess)
      ∷ (32, call_value)
      ∷ (32, gas_limit)
      ∷ (32, max_fee)
      ∷ []

  -- The message that the inbox of the first layer packs for a ticket.
  abbrev pub packed_retryable : Bytes → Bytes
  packed_retryable call = pack words (to_bytes 32 (length call) ++ call)

  pub submit_retryable-packed_retryable :
      (call : Bytes)
      → l2_call_value < pow256 32
      → msg_value < pow256 32
      → max_submission_cost < pow256 32
      → gas_limit < pow256 32
      → max_fee < pow256 32
      → length call < pow256 32
      → un_marshal_inbox_message_delivered_data (pos 9) (packed_retryable call) arbitrum
        ≡ returns (record {
          dest_address = text (to_hex (to_bytes 32 dest));
          l2_call_value = l2_call_value;
          msg_value = msg_value;
          gas_limit = gas_limit;
          max_submission_cost = max_submission_cost;
          excess_fee_refund_address = text (to_hex (to_bytes 32 excess));
          call_value_refund_address = text (to_hex (to_bytes 32 call_value));
          max_fee_per_gas = max_fee;
          data_bytes = to_hex call;
          l1_token_id = none;
          l1_token_amount = if leb 68 (length call) then from_bytes (slice 36 68 call) else 0;
        })
  unfolding un_marshal_inbox_message_delivered_data submit_retryable token_of
  submit_retryable-packed_retryable call l m s g f fits =
      let end : Bytes = to_bytes 32 (length call) ++ call in
      let v7 : Bytes = to_bytes 32 max_fee ++ end in
      let v6 : Bytes = to_bytes 32 gas_limit ++ v7 in
      let v5 : Bytes = to_bytes 32 call_value ++ v6 in
      let v4 : Bytes = to_bytes 32 excess ++ v5 in
      let v3 : Bytes = to_bytes 32 max_submission_cost ++ v4 in
      let v2 : Bytes = to_bytes 32 msg_value ++ v3 in
      let v1 : Bytes = to_bytes 32 l2_call_value ++ v2 in
      rw (field-slice [] 32 dest v1) (
        rw (field-pack (take 1 words) 32 l2_call_value v2 l) (
          rw (field-pack (take 2 words) 32 msg_value v3 m) (
            rw (field-pack (take 3 words) 32 max_submission_cost v4 s) (
              rw (field-slice (take 4 words) 32 excess v5) (
                rw (field-slice (take 5 words) 32 call_value v6) (
                  rw (field-pack (take 6 words) 32 gas_limit v7 g) (
                    rw (field-pack (take 7 words) 32 max_fee end f) (
                      rw (field-pack words 32 (length call) call fits) (
                        rw (drop-pack (words ++ (32, length call) ∷ []) call 288 (omega arith))
                          (rw (slice-rest (words ++ (32, length call) ∷ []) call) refl))))))))))
