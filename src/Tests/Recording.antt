-- ===== src/Tests/Recording.antt =====
-- The recorders at small inputs.
use hemera_indexer.Prelude.{
  refl, none, some, ◌≡◌, ◌<◌, false, List, [], ◌∷◌, ◌++◌, if◌then◌else◌, ◌==◌, length, String,
}
use hemera_indexer.Errors.{same_text, codes, returns, raises, other}
use hemera_indexer.Recorders.Sync.{
  Store, pg_recorder, file_recorder, recorder_eq, set_last_synced_block, recorded,
  set_last_synced_block-recorded,
}
use hemera_indexer.Recorders.Exceptions.{
  ExceptionRecorder, Action, logs, flushes, construct, init_pg_service, act, act_all, logged,
  entries, force_to_flush, flush_logs_to_db, log_buffer_size, log-conserved,
}

abbrev store : Store
store = record { sync_records = []; files = []; stdin = raises other }

set_last_synced_block-recorded_example :
    recorded
      (pg_recorder (codes "last"))
      (set_last_synced_block (file_recorder (codes "last")) 120 (returns tt) store).1
    ≡ (if pg_recorder (codes "last") == file_recorder (codes "last")
        then returns 120
        else recorded (pg_recorder (codes "last")) store)
unfolding same_text
set_last_synced_block-recorded_example =
    set_last_synced_block-recorded (file_recorder (codes "last")) (pg_recorder (codes "last")) 120
      store refl

abbrev actions : List (Action String)
actions = logs "a" ∷ flushes ∷ logs "b" ∷ []

abbrev before : ExceptionRecorder String
before = record { has_service = false; log_buffer = []; written = some "old" ∷ [] }

-- A flush with nothing logged makes a row.
empty_flush : (act flushes (init_pg_service (construct before))).written ≡ some "old" ∷ none ∷ []
unfolding init_pg_service construct force_to_flush flush_logs_to_db
empty_flush = refl

log-conserved_example :
    let after = act_all actions (init_pg_service (construct before)) in
    (entries after.written ++ after.log_buffer ≡ entries (some "old" ∷ []) ++ logged actions)
    × (length after.log_buffer < log_buffer_size)
log-conserved_example = log-conserved actions (some "old" ∷ [])
