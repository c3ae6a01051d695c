-- ===== src/Fixing/Resumption.antt =====
-- What a fixing job has done when it ends, and where it is resumed.
use hemera_indexer.Prelude.{
  ℕ, zero, suc, ◌+◌, ◌<◌, ◌≡◌, refl, ap, ◌∙◌, Bool, List, [], ◌∷◌, ◌++◌, arith, subst,
}
use hemera_indexer.Prelude.Int.{pos, ◌-ℤ◌, int_laws}
use hemera_indexer.Errors.{Exception, Outcome, returns, raises}
use hemera_indexer.Fixing.{
  Answers, fix_need, Fixed, fixed, still_fixing, failed, running, interrupted, Progress,
  update_job_info, interrupt, offset_after, fix_block, fix_blocks, action, resumed_from,
}
use hemera_indexer.Traces.Splitting.{count_up, count_up-append}

plus_zero : (n : ℕ) → 0 + n ≡ n
plus_zero n = omega arith

one_more : (b k : ℕ) → pos b -ℤ pos k -ℤ pos 1 ≡ pos b -ℤ pos (k + 1)
one_more b k = omega int_laws

next_passed :
    (offset : ℕ) (passed : List ℕ)
    → passed ≡ count_up 0 offset
    → passed ++ offset ∷ [] ≡ count_up 0 (offset + 1)
next_passed offset passed h =
    ap (λ l. l ++ offset ∷ []) h
    ∙ subst (λ k. count_up 0 offset ++ count_up k 1 ≡ count_up 0 (offset + 1)) (plus_zero offset)
        (count_up-append 0 offset 1)

module _ (block_number limit : ℕ) (retry_errors : Bool) (answers : ℕ → Answers) where
  abbrev pub ending : ℕ → Fixed
  ending offset =
      fix_block block_number limit retry_errors (answers offset) (fix_need (answers offset))

  -- The offset that the loop records after the block.
  abbrev pub after : ℕ → ℕ
  after offset = offset_after block_number limit (fix_need (answers offset)) offset

  -- The loop was interrupted at a block that raised, and has passed the blocks before it; or at the record
  -- of a block that it had passed.
  pub data Cause (at : ℕ) (p : Progress) (e : Exception) : Type 0 where
    block_raised :
        ending at ≡ failed e
        → p.passed ≡ count_up 0 at
        → resumed_from p ≡ (pos block_number -ℤ pos (at + 1), pos limit -ℤ pos (at + 1))
        → Cause at p e
    record_raised :
        ending at ≡ fixed
        → (answers at).recorded ≡ raises e
        → p.passed ≡ count_up 0 (at + 1)
        → resumed_from p ≡ (pos block_number -ℤ pos (after at + 1), pos limit -ℤ pos (after at + 1))
        → Cause at p e

  pub record Interruption (offset left : ℕ) (p : Progress) (e : Exception) : Type 0 where
    pub at : ℕ
    pub in_range : at < offset + left
    pub cause : Cause at p e

  later_in :
      (offset left : ℕ) (p : Progress) (e : Exception)
      → Interruption (offset + 1) left p e
      → Interruption offset (suc left) p e
  later_in offset left p e later = record {
    at = later.at;
    in_range = omega (arith, later.in_range);
    cause = later.cause;
  }

  -- The record that the `except` clause leaves.
  resumed_behind :
      (offset : ℕ) (e : Exception) (passed : List ℕ)
      → resumed_from (update_job_info block_number limit offset (interrupted e) passed)
        ≡ (pos block_number -ℤ pos (offset + 1), pos limit -ℤ pos (offset + 1))
  unfolding resumed_from
  resumed_behind offset e passed =
      ap (λ z. (z, pos limit -ℤ pos (offset + 1))) (one_more block_number offset)

  -- What is interrupted with `e` was so at this offset, with the record of the interruption.
  interrupt-eq :
      (o : Outcome (Unit {0})) (e e2 : Exception) (offset : ℕ) (passed : List ℕ) (p : Progress)
      → (interrupt block_number limit o e2 offset passed p).status ≡ interrupted e
      → (interrupt block_number limit o e2 offset passed p
          ≡ update_job_info block_number limit offset (interrupted e) passed)
        × (e2 ≡ e)
  interrupt-eq (returns done) e e2 offset passed p h =
      let same : e2 ≡ e = cc in
      (ap (λ x. update_job_info block_number limit offset (interrupted x) passed) same, same)
  interrupt-eq (raises e3) e e2 offset passed p h = absurd cc

  one_record :
      (left offset : ℕ) (p q : Progress) (e : Exception) (o : Outcome (Unit {0}))
      → ending offset ≡ fixed
      → (answers offset).recorded ≡ o
      → p.passed ≡ count_up 0 offset
      → (q.status ≡ interrupted e → Interruption (offset + 1) left q e)
      → let r : Progress = elim o [
        | returns done ↦ q
        | raises e2 ↦
            interrupt block_number limit
              (answers offset).interruption_recorded
              e2
              (after offset)
              (p.passed ++ offset ∷ [])
              p
      ] in
        r.status ≡ interrupted e → Interruption offset (suc left) r e
  one_record left offset p q e (returns done) fine made passed rest h =
      later_in offset left q e (rest h)
  one_record left offset p q e (raises e2) fine failed_record passed rest h =
      let (same, e_same) =
        interrupt-eq (answers offset).interruption_recorded e e2 (after offset)
          (p.passed ++ offset ∷ []) p h in
      record {
        at = offset;
        in_range = omega arith;
        cause =
            record_raised fine (failed_record ∙ ap raises e_same)
              (ap (λ r. r.passed) same ∙ next_passed offset p.passed passed)
              (ap resumed_from same ∙ resumed_behind (after offset) e (p.passed ++ offset ∷ []));
      }

  -- The cases of one block.
  one_block :
      (left offset : ℕ) (p q : Progress) (e : Exception) (f : Fixed)
      → ending offset ≡ f
      → p.status ≡ running
      → p.passed ≡ count_up 0 offset
      → (q.status ≡ interrupted e → Interruption (offset + 1) left q e)
      → let r : Progress = elim f [
        | fixed ↦ elim (answers offset).recorded [
          | returns done ↦ q
          | raises e2 ↦
              interrupt block_number limit
                (answers offset).interruption_recorded
                e2
                (after offset)
                (p.passed ++ offset ∷ [])
                p
        ]
        | still_fixing ↦ p
        | failed e2 ↦
            interrupt block_number limit (answers offset).interruption_recorded e2 offset p.passed p
      ] in
        r.status ≡ interrupted e → Interruption offset (suc left) r e
  one_block left offset p q e fixed fine is_running passed rest h =
      one_record left offset p q e (answers offset).recorded fine refl passed rest h
  one_block left offset p q e still_fixing fine is_running passed rest h = absurd cc
  one_block left offset p q e (failed e2) fine is_running passed rest h =
      let (same, e_same) =
        interrupt-eq (answers offset).interruption_recorded e e2 offset p.passed p h in
      record {
        at = offset;
        in_range = omega arith;
        cause =
            block_raised (fine ∙ ap failed e_same) (ap (λ r. r.passed) same ∙ passed)
              (ap resumed_from same ∙ resumed_behind offset e p.passed);
      }

  fix_blocks-Interruption :
      (completion : Outcome (Unit {0})) (left offset : ℕ) (p : Progress) (e : Exception)
      → p.status ≡ running
      → p.passed ≡ count_up 0 offset
      → let r = fix_blocks block_number limit retry_errors answers completion left offset p in
        r.status ≡ interrupted e → Interruption offset left r e
  unfolding fix_blocks
  fix_blocks-Interruption (returns done) zero offset p e is_running passed h = absurd cc
  fix_blocks-Interruption (raises e2) zero offset p e is_running passed h = absurd cc
  fix_blocks-Interruption completion (suc left) offset p e is_running passed h =
      let next =
        update_job_info block_number limit (after offset) running (p.passed ++ offset ∷ []) in
      one_block left offset p
        (fix_blocks block_number limit retry_errors answers completion left (offset + 1) next) e
        (ending offset) refl is_running passed
        (fix_blocks-Interruption completion left (offset + 1) next e refl
          (next_passed offset p.passed passed))
        h

-- A job that is interrupted was so at a block that raised, or at the record of a block that it had passed.
-- In the first case it has passed the blocks before the one that raised, and it is resumed behind that
-- one: the block that raised is neither passed nor looked at again, and the number of the blocks that the
-- record has left does not count it either. In the second it is resumed behind the offset that it was to
-- record.
pub action-Interruption :
    (block_number remains : ℕ) (retry_errors : Bool) (answers : ℕ → Answers)
    (completion : Outcome (Unit {0})) (e : Exception)
    → (action block_number remains retry_errors answers completion).status ≡ interrupted e
    → Interruption block_number remains retry_errors answers 0 remains
        (action block_number remains retry_errors answers completion)
        e
unfolding action
action-Interruption block_number remains retry_errors answers completion e h =
    fix_blocks-Interruption block_number remains retry_errors answers completion remains 0 _ e refl
      refl h
