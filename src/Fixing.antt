-- ===== src/Fixing.antt =====
-- indexer/controller/fixing_controller.py: the loop of `action` over the blocks that may have to be fixed,
-- downwards from a block, and the progress that it records for a later resumption.
pub mod Resumption
use hemera_indexer.Prelude.{
  ℕ, zero, suc, ◌+◌, ◌-◌, Bool, true, false, ◌&&◌, List, [], ◌∷◌, ◌++◌, if◌then◌else◌, ◌==◌, nat_eq,
}
use hemera_indexer.Prelude.Int.{ℤ, pos, ◌-ℤ◌}
use hemera_indexer.Errors.{Exception, Outcome, returns, raises, ◌>>=◌, other}

-- What happens for one block: whether it is in the database, whether the node has another hash for it,
-- whether someone stops the program while it is tried to be fixed, and how the two writes of
-- `update_job_info` end, that of the loop and that of its `except`.
pub record Answers : Type 0 where
  pub been_synced : Outcome Bool
  pub hash_differs : Outcome Bool
  pub stopped : Bool
  pub recorded : Outcome (Unit {0})
  pub interruption_recorded : Outcome (Unit {0})

-- `check_block_been_synced(n) and check_block_need_fix(n)`
unfoldable pub fix_need : Answers → Outcome Bool
fix_need a = do synced ← a.been_synced; if synced then a.hash_differs else returns false

pub data Fixed : Type 0 where
  fixed still_fixing : Fixed
  failed : Exception → Fixed

-- `_do_fixing(block, retry_errors)`: `FixingBlockConsensusJob` has no `set_fix_block_number`, so that each
-- try raises an `AttributeError`. It ends the call, or the tries go on until a `KeyboardInterrupt`.
unfoldable pub do_fixing : (retry_errors stopped : Bool) → Fixed
do_fixing retry_errors stopped =
    if retry_errors then (if stopped then failed other else still_fixing) else failed other

-- Of `unrecorded`, the action has ended with the exception, but the record does not tell.
pub data Status : Type 0 where
  running completed : Status
  interrupted unrecorded : Exception → Status

-- `last_fixed_block_number` and `remain_process` of the `FixRecord`, and the offsets of the blocks that
-- the loop has passed.
pub record Progress : Type 0 where
  pub last_fixed_block_number : ℤ
  pub remain_process : ℤ
  pub status : Status
  pub passed : List ℕ

module _ (block_number limit : ℕ) where
  -- `update_job_info` in the loop and in its `except`.
  abbrev pub update_job_info : ℕ → Status → List ℕ → Progress
  update_job_info offset status passed = record {
    last_fixed_block_number = pos block_number -ℤ pos offset;
    remain_process = pos limit -ℤ pos (offset + 1);
    status = status;
    passed = passed;
  }

  -- The `except` clause at an offset.
  abbrev pub interrupt : Outcome (Unit {0}) → Exception → ℕ → List ℕ → Progress → Progress
  interrupt (returns done) e offset passed p = update_job_info offset (interrupted e) passed
  interrupt (raises e2) e offset passed p = record p { status = unrecorded e2; passed = passed }

  -- One block: `none` of its parts may raise, else the loop is interrupted.
  abbrev pub fix_block : Bool → Answers → Outcome Bool → Fixed
  fix_block retry_errors a (returns true) = do_fixing retry_errors a.stopped
  fix_block retry_errors a (returns false) = fixed
  fix_block retry_errors a (raises e) = failed e

  abbrev pub is_needed : Outcome Bool → Bool
  is_needed (returns need) = need
  is_needed (raises e) = false

  -- The offset that the loop records after a block: the last block that needs a fix moves it one further.
  abbrev pub offset_after : Outcome Bool → ℕ → ℕ
  offset_after need offset = if is_needed need && offset + 1 == limit then offset + 1 else offset

  -- The record that the job is completed.
  abbrev pub complete : Outcome (Unit {0}) → Progress → Progress
  complete (returns done) p = record p { status = completed }
  complete (raises e) p = record p { status = unrecorded e }

  module _ (retry_errors : Bool) (answers : ℕ → Answers) (completion : Outcome (Unit {0})) where
    -- The loop from an offset on, with as many blocks left.
    unfoldable pub fix_blocks : (left offset : ℕ) → Progress → Progress
    unfolding fix_need do_fixing
    fix_blocks zero offset p = complete completion p
    fix_blocks (suc left) offset p =
        let a = answers offset in
        let need = fix_need a in
        let passed = p.passed ++ offset ∷ [] in
        let end = offset_after need offset in
        let rest = fix_blocks left (offset + 1) (update_job_info end running passed) in
        elim (fix_block retry_errors a need) [
          | fixed ↦ elim a.recorded [
            | returns done ↦ rest
            | raises e ↦ interrupt a.interruption_recorded e end passed p
          ]
          | still_fixing ↦ p
          | failed e ↦ interrupt a.interruption_recorded e offset p.passed p
        ]

-- `action(job_id, block_number, remains)`, from the start of the loop.
unfoldable pub action :
    (block_number remains : ℕ)
    → (retry_errors : Bool) → (ℕ → Answers)
    → Outcome (Unit {0})
    → Progress
unfolding fix_blocks
action block_number remains retry_errors answers completion =
    fix_blocks block_number remains retry_errors answers completion remains 0 (record {
      last_fixed_block_number = pos (block_number + 1);
      remain_process = pos remains;
      status = running;
      passed = [];
    })

-- The block from which `wake_up_next_job` resumes a job, and the number of its blocks.
unfoldable pub resumed_from : Progress → ℤ × ℤ
resumed_from p = (p.last_fixed_block_number -ℤ pos 1, p.remain_process)
