-- ===== src/Jobs.antt =====
-- indexer/jobs/base_job.py, `run_jobs` of indexer/jobs/job_scheduler.py and the dispatcher of
-- indexer/controller/dispatcher/stream_dispatcher.py: a range of blocks runs through the jobs.
pub mod Export
use hemera_indexer.Prelude.{
  suc, length, ℕ, String, Bool, true, false, List, [], ◌∷◌, ◌++◌, Option, none, some, if◌then◌else◌,
  ◌==◌, string_eq, Dict, has, contains, insert, lookup,
}
use hemera_indexer.Recorders.Exceptions.{ExceptionRecorder, log, force_to_flush}
use hemera_indexer.Errors.{Exception, Outcome, returns, raises}

-- What a run leaves behind: a job that began, what was handed to the exporters, a job that ended.
pub data Event (I : Type 0) : Type 0 where
  started ended : ℕ → Event I
  exported : List I → Event I

-- The buffers of `BaseJob._data_buff`, which all jobs share, and the events.
pub record State (I : Type 0) : Type 0 where
  pub data_buff : Dict String (List I)
  pub events : List (Event I)

abbrev pub Stage : Type 0 → Type 0
Stage I = State I → Outcome (Unit {0}) × State I

-- A job: its place among the jobs, its class's output types, and the methods that it overrides.
pub record Job (I : Type 0) : Type 0 where
  pub name : ℕ
  pub output_types : List String
  pub start : Stage I
  pub collect : Stage I
  pub process : Stage I
  pub end_stage : Stage I

-- The record of the kind `item_counter` that a dispatch logs.
pub record ItemCount : Type 0 where
  pub dataclass : String
  pub count : ℕ

module _ {I : Type 0} where
  abbrev pub emit : Event I → State I → State I
  emit event s = record { data_buff = s.data_buff; events = s.events ++ event ∷ [] }

  -- One stage after another; an exception ends them.
  abbrev pub then_stage : Outcome (Unit {0}) × State I → Stage I → Outcome (Unit {0}) × State I
  then_stage (returns done, s) stage = stage s
  then_stage (raises e, s) stage = (raises e, s)

  -- The read of a key of the `defaultdict` makes an entry where there is none.
  abbrev pub touch : String → Dict String (List I) → Dict String (List I)
  touch key buff = if contains key buff then buff else insert key [] buff

  abbrev pub items_at : String → Dict String (List I) → List I
  items_at key buff = elim (lookup key buff) [ none ↦ [] | some items ↦ items ]

  -- The items of the output types that are required, and the buffers after they were read.
  unfoldable pub required_items :
      List String → List String → Dict String (List I) → List I × Dict String (List I)
  required_items [] required buff = ([], buff)
  required_items (output_type ∷ rest) required buff =
      let others =
        required_items rest required
          (if has output_type required then touch output_type buff else buff) in
      ((if has output_type required then items_at output_type buff else []) ++ others.0, others.1)

  -- The exporters, each with whether it takes the items.
  abbrev pub export_to : List (List I → Outcome (Unit {0})) → List I → Stage I
  export_to [] items s = (returns tt, s)
  export_to (exporter ∷ exporters) items s =
      then_stage (exporter items, emit (exported items) s) (export_to exporters items)

  module _ (required : List String) (exporters : List (List I → Outcome (Unit {0}))) where
    -- `_export`
    unfoldable pub export : Job I → Stage I
    unfolding required_items
    export job s =
        let read = required_items job.output_types required s.data_buff in
        export_to exporters read.0 (record { data_buff = read.1; events = s.events })

    -- `finally: self._end()`: an exception of the end takes the place of the body's.
    abbrev pub finally_end :
        Outcome (Unit {0}) → Outcome (Unit {0}) × State I → Outcome (Unit {0}) × State I
    finally_end result (returns done, s) = (result, s)
    finally_end result (raises e, s) = (raises e, s)

    -- `run(**kwargs)`
    unfoldable pub run : Job I → Stage I
    unfolding export
    run job s =
        let started_state = emit (started job.name) s in
        let body =
          then_stage (then_stage (then_stage (job.start started_state) job.collect) job.process)
            (export job) in
        let ending = finally_end body.0 (job.end_stage body.1) in
        (ending.0, emit (ended job.name) ending.1)

    -- `run_jobs(start_block, end_block)`, with the range in the jobs' methods.
    unfoldable pub run_jobs : List (Job I) → Stage I
    unfolding run
    run_jobs [] s = (returns tt, s)
    run_jobs (job ∷ jobs) s = then_stage (run job s) (run_jobs jobs)

    -- The loop over the buffers and the flush behind it, with the answers of the database: each buffer's
    -- count is logged, and the first exception ends it.
    unfoldable pub record_counts :
        (ℕ → Outcome (Unit {0}))
        → ℕ
        → Dict String (List I)
        → ExceptionRecorder ItemCount
        → Outcome (Unit {0}) × ExceptionRecorder ItemCount
    unfolding log force_to_flush
    record_counts answers n [] recorder = force_to_flush (answers n) recorder
    record_counts answers n ((key, items) ∷ rest) recorder =
        let logged = log (record { dataclass = key; count = length items }) (answers n) recorder in
        let others = record_counts answers (suc n) rest logged.1 in
        elim logged.0 [ returns done ↦ others | raises e ↦ (raises e, logged.1) ]

    -- `StreamDispatcher.run`: when the jobs have ended well, the counts of the buffers are recorded, and
    -- the buffers are emptied, however the jobs and the recorder end.
    unfoldable pub dispatch :
        (ℕ → Outcome (Unit {0}))
        → List (Job I)
        → State I
        → ExceptionRecorder ItemCount
        → Outcome (Unit {0}) × State I × ExceptionRecorder ItemCount
    unfolding run_jobs record_counts
    dispatch answers jobs s recorder =
        let result = run_jobs jobs s in
        let emptied : State I = record { data_buff = []; events = result.1.events } in
        let counted = record_counts answers 0 result.1.data_buff recorder in
        elim result.0 [
          | returns done ↦ (counted.0, emptied, counted.1)
          | raises e ↦ (raises e, emptied, recorder)
        ]
