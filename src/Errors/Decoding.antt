-- ===== src/Errors/Decoding.antt =====
-- `decode_response_error`: which exception an RPC error object raises.
use hemera_indexer.Prelude.{
  ◌≡◌, ◌≢◌, ◌↔◌, ◌⊎◌, Bool, true, false, ◌&&◌, ◌||◌, Option, none, some, [], if◌then◌else◌, ◌==◌,
  arith,
}
use hemera_indexer.Prelude.Int.{ℤ, pos, neg, ltb_ℤ, leb_ℤ, int_eq}
use hemera_indexer.Errors.{
  Message, codes, lower, has_text, same_text, HemeraError, history_unavailable, no_batch_mode,
  rpc_not_reachable, fast_shutdown, retriable_error, Outcome, returns, raises, hemera,
}

-- The error object of a JSON-RPC response; either field may be missing.
pub record RpcError : Type 0 where
  pub code : Option ℤ
  pub message : Option Message

abbrev code_of : RpcError → ℤ
code_of error = elim error.code [ none ↦ pos 0 | some c ↦ c ]

abbrev message_of : RpcError → Message
message_of error = elim error.message [ none ↦ [] | some m ↦ m ]

-- The messages of an EVM that rejects an opcode.
unfoldable pub is_invalid_opcode : Message → Bool
is_invalid_opcode message =
    has_text (codes "invalid") (lower message) && has_text (codes "opcode") (lower message)

-- The messages of a call that the EVM ran and that failed.
unfoldable pub is_execution_failure : Message → Bool
is_execution_failure message =
    same_text message (codes "execution reverted")
    || same_text message (codes "out of gas")
    || same_text message (codes "invalid jump destination")

unfoldable pub is_history_missing : Message → Bool
is_history_missing message = has_text (codes "required historical state unavailable") message

-- `decode_response_error(error)`; `returns tt` is the result `None`.
unfoldable pub decode_response_error : RpcError → Outcome (Unit {0})
decode_response_error error =
    let code = code_of error in
    let message = message_of error in
    if is_invalid_opcode message
    then returns tt
    else if code == neg 32000
    then (if is_execution_failure message
        then returns tt
        else if is_history_missing message
        then raises (hemera (history_unavailable message))
        else raises (hemera (rpc_not_reachable message)))
    else if code == neg 32700 || code == neg 32600 || code == neg 32602
    then raises (hemera (fast_shutdown message))
    else if ltb_ℤ code (neg 32000) && leb_ℤ (neg 32099) code || code == neg 32603
    then raises (hemera (retriable_error message))
    else returns tt

-- `is_retriable_error(error_code)` of indexer/utils/utils.py, for a code that is an integer or
-- `None`.
unfoldable pub is_retriable_error : Option ℤ → Bool
is_retriable_error none = false
is_retriable_error (some error_code) =
    error_code == neg 32603 || leb_ℤ error_code (neg 32000) && leb_ℤ (neg 32099) error_code

-- The error object is for an exception: its code and its message are those that stand for it.
abbrev pub RaisedFor : RpcError → HemeraError → Type 0
RaisedFor error (retriable_error m) =
    (m ≡ message_of error)
    × (is_invalid_opcode (message_of error) ≡ false)
    × (is_retriable_error (some (code_of error)) ≡ true)
    × (code_of error ≢ neg 32000)
RaisedFor error (history_unavailable m) =
    (m ≡ message_of error)
    × (is_invalid_opcode (message_of error) ≡ false)
    × (code_of error ≡ neg 32000)
    × (is_execution_failure (message_of error) ≡ false)
    × (is_history_missing (message_of error) ≡ true)
RaisedFor error (rpc_not_reachable m) =
    (m ≡ message_of error)
    × (is_invalid_opcode (message_of error) ≡ false)
    × (code_of error ≡ neg 32000)
    × (is_execution_failure (message_of error) ≡ false)
    × (is_history_missing (message_of error) ≡ false)
RaisedFor error (fast_shutdown m) =
    (m ≡ message_of error)
    × (is_invalid_opcode (message_of error) ≡ false)
    × ((code_of error ≡ neg 32700) ⊎ (code_of error ≡ neg 32600) ⊎ (code_of error ≡ neg 32602))
RaisedFor error (no_batch_mode m) = ⊥

raised-RaisedFor :
    (error : RpcError) (e : HemeraError)
    → decode_response_error error ≡ raises (hemera e)
    → RaisedFor error e
unfolding decode_response_error is_retriable_error
raised-RaisedFor error (retriable_error m) h = ground arith
raised-RaisedFor error (history_unavailable m) h = ground arith
raised-RaisedFor error (no_batch_mode m) h = ground arith
raised-RaisedFor error (rpc_not_reachable m) h = ground arith
raised-RaisedFor error (fast_shutdown m) h = ground arith

RaisedFor-raised :
    (error : RpcError) (e : HemeraError)
    → RaisedFor error e
    → decode_response_error error ≡ raises (hemera e)
unfolding decode_response_error is_retriable_error
RaisedFor-raised error (retriable_error m) h = ground arith
RaisedFor-raised error (history_unavailable m) h = ground arith
RaisedFor-raised error (no_batch_mode m) h = absurd h
RaisedFor-raised error (rpc_not_reachable m) h = ground arith
RaisedFor-raised error (fast_shutdown m) h = ground arith

-- An error object raises an exception exactly if its code and its message, which is that of the exception
-- and does not speak of an invalid opcode, are for it: a retriable error for a code other than -32000 that
-- `is_retriable_error` accepts; a history error for the code -32000 with the words of a pruned node; an
-- unreachable node for the code -32000 with none of the known messages; a fast shutdown for the codes of a
-- malformed request; and a missing batch mode for none.
pub decode_response_error-RaisedFor :
    (error : RpcError) (e : HemeraError)
    → (decode_response_error error ≡ raises (hemera e)) ↔ RaisedFor error e
decode_response_error-RaisedFor error e = (raised-RaisedFor error e, RaisedFor-raised error e)

-- A revert, an exhausted gas limit, an invalid jump or an invalid opcode is no failure of the node:
-- the result of such a call is `None`, whatever the code of the error.
pub decode_response_error-execution :
    (error : RpcError)
    → (is_invalid_opcode (message_of error) ≡ true)
      ⊎ (code_of error ≡ neg 32000) × (is_execution_failure (message_of error) ≡ true)
    → decode_response_error error ≡ returns tt
unfolding decode_response_error
decode_response_error-execution error h = ground arith
