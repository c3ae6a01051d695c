-- ===== src/Bridges/Status.antt =====
-- common/utils/bridge_utils.py: `determine_op_bedrock_withdrawal_state`. The clock is an argument, and so
-- is the reading of a time, which `datetime` does.
use hemera_indexer.Prelude.{
  ℕ, ◌+◌, ◌*◌, String, Bool, true, false, Option, none, some, [], ◌∷◌, ◌==◌, string_eq, nat_eq,
  if◌then◌else◌, ltb,
}
use hemera_indexer.Errors.{Outcome, returns, raises, other, ◌>>=◌}
use hemera_indexer.Bridges.Rows.{
  null, num, str, flag, texts, Value, scalar, tokens, extra, Row, item, as_number,
}

-- A `datetime`, in seconds; it is aware of its time zone or naive.
pub record Time : Type 0 where
  pub seconds : ℕ
  pub is_aware : Bool

-- The time of a proof, which a false value does not have; `fromisoformat` takes a text alone.
unfoldable pub proven_time : (String → Outcome Time) → Value → Outcome (Option Time)
proven_time fromisoformat (scalar null) = returns none
proven_time fromisoformat (scalar (str s)) =
    if s == "" then returns none else (fromisoformat s >>= λ t. returns (some t))
proven_time fromisoformat (scalar (num n)) = if n == 0 then returns none else raises other
proven_time fromisoformat (scalar (flag b)) = if b then raises other else returns none
proven_time fromisoformat (scalar (texts [])) = returns none
proven_time fromisoformat (scalar (texts (t ∷ ts))) = raises other
proven_time fromisoformat (tokens []) = returns none
proven_time fromisoformat (tokens (t ∷ ts)) = raises other
proven_time fromisoformat (extra none) = returns none
proven_time fromisoformat (extra (some token)) = raises other

-- `value is None`
abbrev pub is_none : Value → Bool
is_none (scalar null) = true
is_none (scalar (str s)) = false
is_none (scalar (num n)) = false
is_none (scalar (flag b)) = false
is_none (scalar (texts t)) = false
is_none (tokens t) = false
is_none (extra none) = true
is_none (extra (some token)) = false

-- The challenge period of a proof is over when its days have passed. The current time is aware, and it
-- cannot be compared with a naive one.
unfoldable pub challenge : (current_time expired_day : ℕ) → Option Time → Outcome ℕ
challenge current_time expired_day none = returns 4
challenge current_time expired_day (some proven) =
    if proven.is_aware
    then returns (if ltb current_time (proven.seconds + 86400 * expired_day) then 3 else 4)
    else raises other

-- The tests on a withdrawal whose block is finalized.
unfoldable pub after_finalized : (current_time expired_day : ℕ) → Option Time → Row → Outcome ℕ
unfolding challenge
after_finalized current_time expired_day l1_proven_timestamp transaction =
    item "l1_finalized_block_number" transaction >>= λ relayed.
    if is_none relayed
    then (item "l1_proven_block_number" transaction >>= λ proven.
        if is_none proven
        then returns 2
        else challenge current_time expired_day l1_proven_timestamp)
    else returns 5

-- Not finalized, ready to prove, in the challenge period, ready to relay and relayed are 1 to 5.
unfoldable pub determine_op_bedrock_withdrawal_state :
    (String → Outcome Time) → (current_time : ℕ) → Row → Option ℕ → (expired_day : ℕ) → Outcome ℕ
unfolding proven_time after_finalized
determine_op_bedrock_withdrawal_state fromisoformat current_time transaction finalized expired_day =
    item "l1_proven_block_timestamp" transaction >>= proven_time fromisoformat >>= λ time.
    elim finalized [
      | none ↦ returns 1
      | some finalized_block_number ↦
          item "l2_block_number" transaction >>= as_number >>= λ l2_block_number.
          if ltb finalized_block_number l2_block_number
          then returns 1
          else after_finalized current_time expired_day time transaction
    ]
