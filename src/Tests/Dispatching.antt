-- ===== src/Tests/Dispatching.antt =====
-- Two jobs, the first of which collects a block and the second of which fails.
use hemera_indexer.Prelude.{true, ℕ, ◌≡◌, refl, String, List, [], ◌∷◌, ◌++◌, lookup}
use hemera_indexer.Errors.{network, Outcome, returns, raises, other}
use hemera_indexer.Jobs.{
  started, ended, exported, State, Stage, Job, dispatch, export, ItemCount, items_at,
}
use hemera_indexer.Recorders.Exceptions.{ExceptionRecorder}
use hemera_indexer.Jobs.Export.{wanted, repeated, export-wanted}

abbrev passes : Stage ℕ
passes s = (returns tt, s)

abbrev collects : Stage ℕ
collects s = (returns tt, record { data_buff = ("block", 7 ∷ []) ∷ s.data_buff; events = s.events })

abbrev fails : Stage ℕ
fails s = (raises other, s)

abbrev job_of : ℕ → Stage ℕ → Job ℕ
job_of name collect = record {
  name = name;
  output_types = "block" ∷ "log" ∷ [];
  start = passes;
  collect = collect;
  process = passes;
  end_stage = passes;
}

abbrev accepts : List ℕ → Outcome (Unit {0})
accepts items = returns tt

abbrev jobs : List (Job ℕ)
jobs = job_of 0 collects ∷ job_of 1 fails ∷ job_of 2 passes ∷ []

abbrev empty : State ℕ
empty = record { data_buff = []; events = [] }

abbrev recorder : ExceptionRecorder ItemCount
recorder = record { has_service = true; log_buffer = []; written = [] }

second_fails : dispatch ("block" ∷ []) (accepts ∷ []) (λ n. returns tt) jobs empty recorder ≡ (
  raises other,
  record {
    data_buff = [];
    events = started 0 ∷ exported (7 ∷ []) ∷ ended 0 ∷ started 1 ∷ ended 1 ∷ [];
  },
  recorder,
)
unfolding dispatch lookup
second_fails = refl

-- The jobs end well, but the database does not take the counts.
unrecorded :
    dispatch
      ("block" ∷ [])
      (accepts ∷ [])
      (λ n. raises network)
      (job_of 0 collects ∷ [])
      empty
      recorder
    ≡ (
      raises network,
      record { data_buff = []; events = started 0 ∷ exported (7 ∷ []) ∷ ended 0 ∷ [] },
      recorder,
    )
unfolding dispatch lookup
unrecorded = refl

abbrev collected : State ℕ
collected = (collects empty).1

export-wanted_example :
    let job = job_of 0 collects in
    let items = wanted job.output_types ("block" ∷ []) (λ u. items_at u collected.data_buff) in
    ((export ("block" ∷ []) (accepts ∷ []) job collected).0 ≡ returns tt)
    × ((export ("block" ∷ []) (accepts ∷ []) job collected).1.events
        ≡ [] ++ repeated (accepts ∷ []) items)
    × ((u : String)
        → items_at u (export ("block" ∷ []) (accepts ∷ []) job collected).1.data_buff
          ≡ items_at u collected.data_buff)
export-wanted_example =
    export-wanted ("block" ∷ []) (accepts ∷ []) (job_of 0 collects) collected (refl, tt)
