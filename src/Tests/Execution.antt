-- ===== src/Tests/Execution.antt =====
-- The batch executor at small inputs.
use hemera_indexer.Prelude.{ℕ, ◌≡◌, refl, false, none, some, List, [], ◌∷◌, ◌++◌, append-nil, arith}
use hemera_indexer.Errors.{Exception, network, returns, raises}
use hemera_indexer.Executor.{
  BatchWorkExecutor, Call, on_failure, on_success, each_with_retries, try_decrease_batch_size,
  fail_safe_execute, execute_with_retries, is_retry_exception,
}
use hemera_indexer.Executor.Retries.{IsAtomic, Progressed, fail_safe_execute-Progressed}
use hemera_indexer.Executor.Races.{Shared, Reach, here, next, decide_smaller, decide_larger, write}

-- A node that refuses batches of more than one item: the world is the list of what was done.
abbrev refuse_batches : List ℕ → Call (List ℕ)
refuse_batches [] done = (returns tt, done)
refuse_batches (x ∷ []) done = (returns tt, done ++ x ∷ [])
refuse_batches (x ∷ y ∷ rest) done = (raises network, done)

abbrev done_items : List ℕ → List ℕ
done_items w = w

refuse_batches-IsAtomic : IsAtomic done_items refuse_batches
refuse_batches-IsAtomic = record { on_return = on_return; on_raise = on_raise }
  where
    on_return :
        (batch : List ℕ) (w : List ℕ)
        → (refuse_batches batch w).0 ≡ returns tt
        → (refuse_batches batch w).1 ≡ w ++ batch
    on_return [] w h = rw append-nil
    on_return (x ∷ []) w h = refl
    on_return (x ∷ y ∷ rest) w h = cc

    on_raise :
        (batch : List ℕ) (w : List ℕ) (e : Exception)
        → (refuse_batches batch w).0 ≡ raises e
        → (refuse_batches batch w).1 ≡ w
    on_raise [] w e h = cc
    on_raise (x ∷ []) w e h = cc
    on_raise (x ∷ y ∷ rest) w e h = refl

abbrev executor : BatchWorkExecutor
executor = record {
  batch_size = 3;
  max_batch_size = 3;
  latest_batch_size_change_time = none;
  max_retries = 5;
  processed = 0;
}

abbrev no_time : List ℕ → ℕ
no_time w = 0

fail_safe_execute-Progressed_example :
    let (r, _, w) = fail_safe_execute refuse_batches no_time (7 ∷ 8 ∷ 9 ∷ []) false executor [] in
    Progressed done_items refuse_batches refuse_batches-IsAtomic [] (7 ∷ 8 ∷ 9 ∷ []) (r, w)
fail_safe_execute-Progressed_example =
    fail_safe_execute-Progressed done_items refuse_batches refuse_batches-IsAtomic no_time
      (7 ∷ 8 ∷ 9 ∷ []) false executor [] (omega arith)

-- The whole run: the batch fails, each item succeeds, and the batch size is halved.
fail_safe_execute-run :
    fail_safe_execute refuse_batches no_time (7 ∷ 8 ∷ 9 ∷ []) false executor [] ≡ (
      returns tt,
      record executor { batch_size = 1; latest_batch_size_change_time = some 0; processed = 3 },
      7 ∷ 8 ∷ 9 ∷ [],
    )
unfolding fail_safe_execute on_failure on_success each_with_retries execute_with_retries
    is_retry_exception try_decrease_batch_size
fail_safe_execute-run = refl

abbrev shared : Shared
shared = record { batch_size = 8; max_batch_size = 8; decided = [] }

abbrev shared' : Shared
shared' = record { batch_size = 4; max_batch_size = 8; decided = 6 ∷ [] }

-- One worker decides to halve, another decides to double its short batch, the first writes.
interleaved : Reach shared shared'
interleaved =
    next
      (next (next here (decide_smaller 8 refl (omega arith)))
        (decide_larger 3 (omega arith) (omega arith)))
      (write (6 ∷ []) 4 [] refl)
