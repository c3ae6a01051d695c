-- ===== src/Executor.antt =====
-- indexer/executors/batch_work_executor.py: the execution of one batch, with its retries and the
-- adaptation of the batch size. The world `W` is all that a work handler reads and writes; `now`
-- reads the clock from it, in microseconds.
pub mod Sizes
pub mod Retries
pub mod Races
pub mod Futures
pub mod Progress
use hemera_indexer.Prelude.{
  ℕ, zero, suc, ◌+◌, ◌-◌, ◌*◌, ◌/◌, Bool, true, false, ◌&&◌, Option, none, some, List, [], ◌∷◌,
  if◌then◌else◌, ltb, leb, ◌==◌, nat_eq, length,
}
use hemera_indexer.Errors.{
  assertion_error, index_error, Exception, hemera, network, value_error, other, Outcome, returns,
  raises,
}

-- The fields that `_fail_safe_execute` reads and writes.
pub record BatchWorkExecutor : Type 0 where
  pub batch_size : ℕ
  pub max_batch_size : ℕ
  pub latest_batch_size_change_time : Option ℕ
  pub max_retries : ℕ
  -- the counter of the progress logger
  pub processed : ℕ

-- `__init__`
unfoldable pub init : ℕ → ℕ → BatchWorkExecutor
init starting_batch_size max_retries = record {
  batch_size = starting_batch_size;
  max_batch_size = starting_batch_size;
  latest_batch_size_change_time = none;
  max_retries = max_retries;
  processed = 0;
}

-- `BATCH_CHANGE_COOLDOWN_PERIOD_SECONDS`, in microseconds
abbrev pub cooldown_period : ℕ
cooldown_period = 2 * 60 * 1000000

-- `RETRY_EXCEPTIONS`
unfoldable pub is_retry_exception : Exception → Bool
is_retry_exception (hemera e) = false
is_retry_exception network = true
is_retry_exception value_error = false
is_retry_exception assertion_error = false
is_retry_exception index_error = false
is_retry_exception other = false

-- `_try_decrease_batch_size`, at the time `current_time`
unfoldable pub try_decrease_batch_size : ℕ → ℕ → BatchWorkExecutor → BatchWorkExecutor
try_decrease_batch_size current_batch_size current_time self =
    if self.batch_size == current_batch_size && ltb 1 self.batch_size
    then record self {
      batch_size = current_batch_size / 2;
      latest_batch_size_change_time = some current_time;
    }
    else self

abbrev since_last_change : ℕ → Option ℕ → ℕ
since_last_change current_time none = 0
since_last_change current_time (some latest) = current_time - latest

-- `_try_increase_batch_size`, at the time `current_time`. A clock that went back gives a negative
-- difference in the source and 0 here: neither is over the period.
unfoldable pub try_increase_batch_size : ℕ → ℕ → BatchWorkExecutor → BatchWorkExecutor
try_increase_batch_size current_batch_size current_time self =
    if leb (current_batch_size * 2) self.max_batch_size
      && ltb cooldown_period (since_last_change current_time self.latest_batch_size_change_time)
    then record self {
      batch_size = current_batch_size * 2;
      latest_batch_size_change_time = some current_time;
    }
    else self

-- A call that may raise, on the world.
abbrev pub Call : Type 0 → Type 0
Call W = W → Outcome (Unit {0}) × W

abbrev pub track : ℕ → Outcome (Unit {0}) → BatchWorkExecutor → BatchWorkExecutor
track n (returns a) self = record self { processed = self.processed + n }
track n (raises e) self = self

module _ {W : Type 0} where
  -- `execute_with_retries(func, max_retries)` from round `max_retries - left` on. With no round at
  -- all the function is not called and the result is `None`.
  unfoldable pub execute_with_retries : ℕ → Call W → Call W
  execute_with_retries zero func w = (returns tt, w)
  execute_with_retries (suc left) func w =
      let (result, w') = func w in
      let again = execute_with_retries left func w' in
      elim result [
        | returns a ↦ (returns tt, w')
        | raises e ↦
            if is_retry_exception e
            then (elim left [ zero ↦ (raises e, w') | suc more ↦ again ])
            else (raises e, w')
      ]

  module _ {A : Type 0} (work_handler : List A → Call W) where
    -- The loop over the items of a failed batch: an item that keeps failing ends it.
    unfoldable pub each_with_retries : ℕ → List A → Call W
    each_with_retries max_retries [] w = (returns tt, w)
    each_with_retries max_retries (item ∷ rest) w =
        let (result, w') = execute_with_retries max_retries (work_handler (item ∷ [])) w in
        let others = each_with_retries max_retries rest w' in
        elim result [ returns a ↦ others | raises e ↦ (raises e, w') ]

    module _ (now : W → ℕ) where
      -- The handler has returned.
      unfoldable pub on_success :
          List A → Bool → BatchWorkExecutor → W → Outcome (Unit {0}) × BatchWorkExecutor × W
      on_success batch custom_splitting self w =
          let n = length batch in
          let larger = try_increase_batch_size n (now w) self in
          (returns tt, track n (returns tt) (if custom_splitting then self else larger), w)

      -- The handler has raised one of the exceptions that are retried.
      unfoldable pub on_failure :
          List A → Bool → BatchWorkExecutor → W → Outcome (Unit {0}) × BatchWorkExecutor × W
      on_failure batch true self w =
          let (result, w') = execute_with_retries self.max_retries (work_handler batch) w in
          (result, track (length batch) result self, w')
      on_failure batch false self w =
          let smaller = try_decrease_batch_size (length batch) (now w) self in
          let (result, w') = each_with_retries self.max_retries batch w in
          (result, track (length batch) result smaller, w')

      after_handler :
          List A
          → Bool
          → BatchWorkExecutor
          → Outcome (Unit {0})
          → W
          → Outcome (Unit {0}) × BatchWorkExecutor × W
      after_handler batch custom_splitting self (returns a) w =
          on_success batch custom_splitting self w
      after_handler batch custom_splitting self (raises e) w =
          if is_retry_exception e
          then on_failure batch custom_splitting self w
          else (raises e, self, w)

      -- `_fail_safe_execute(work_handler, batch, custom_splitting)`
      unfoldable pub fail_safe_execute :
          List A → Bool → BatchWorkExecutor → W → Outcome (Unit {0}) × BatchWorkExecutor × W
      unfolding after_handler
      fail_safe_execute batch custom_splitting self w =
          let (result, w') = work_handler batch w in
          after_handler batch custom_splitting self result w'
