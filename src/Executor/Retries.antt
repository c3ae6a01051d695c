-- ===== src/Executor/Retries.antt =====
-- What a batch that the executor handles leaves behind, for a work handler that is atomic.
use hemera_indexer.Prelude.{
  ℕ, zero, suc, ◌+◌, ◌-◌, ◌≤◌, ◌<◌, ◌≡◌, refl, true, false, List, ◌∷◌, [], ◌++◌, append_assoc,
  append-nil, arith, Bool, Bool-cases, inl, inr,
}
use hemera_indexer.Errors.{Exception, Outcome, returns, raises, Outcome-cases}
use hemera_indexer.Executor.{
  BatchWorkExecutor, Call, is_retry_exception, execute_with_retries, each_with_retries, on_success,
  on_failure, after_handler, fail_safe_execute,
}

-- A handler that does all of a batch or nothing: `done` is the list of the items that were done.
pub record IsAtomic {W A : Type 0} (done : W → List A) (work_handler : List A → Call W)
    : Type 0 where
  pub on_return :
      (batch : List A) (w : W)
      → (work_handler batch w).0 ≡ returns tt
      → done (work_handler batch w).1 ≡ done w ++ batch
  pub on_raise :
      (batch : List A) (w : W) (e : Exception)
      → (work_handler batch w).0 ≡ raises e
      → done (work_handler batch w).1 ≡ done w

module _ {W A : Type 0} (done : W → List A) (work_handler : List A → Call W)
    (atomic : IsAtomic done work_handler) where
  -- From `start` on, the call has done all of `batch` and returned, or nothing and raised.
  abbrev pub Whole : List A → List A → Outcome (Unit {0}) × W → Type 0
  Whole start batch (returns a, w) = done w ≡ start ++ batch
  Whole start batch (raises e, w) = done w ≡ start

  retries-Whole :
      (left : ℕ) (batch : List A) (w : W)
      → Whole (done w) batch (execute_with_retries (suc left) (work_handler batch) w)
  unfolding execute_with_retries
  retries-Whole zero batch w = elim (Outcome-cases (work_handler batch w).0) [
    | inl (a, ok) ↦ rw (ok, execute_with_retries) (atomic.on_return batch w ok)
    | inr (e, failed) ↦
        let same = atomic.on_raise batch w e failed in
        elim (Bool-cases (is_retry_exception e)) [
          | inr fatal ↦ rw (failed, execute_with_retries, fatal) same
          | inl again ↦ rw (failed, execute_with_retries, again) same
        ]
  ]
  retries-Whole (suc left) batch w = elim (Outcome-cases (work_handler batch w).0) [
    | inl (a, ok) ↦ rw (ok, execute_with_retries) (atomic.on_return batch w ok)
    | inr (e, failed) ↦
        let same = atomic.on_raise batch w e failed in
        let later = retries-Whole left batch (work_handler batch w).1 in
        elim (Bool-cases (is_retry_exception e)) [
          | inr fatal ↦ rw (failed, execute_with_retries, fatal) same
          | inl again ↦ rw (failed, execute_with_retries, again) (rw same at later)
        ]
  ]

  -- From `start` on, the call has done all of `batch` and returned, or it has done a first part of
  -- it and raised.
  abbrev pub Progressed : List A → List A → Outcome (Unit {0}) × W → Type 0
  Progressed start batch (returns a, w) = done w ≡ start ++ batch
  Progressed start batch (raises e, w) =
      (first : List A) × (rest : List A) × (batch ≡ first ++ rest) × (done w ≡ start ++ first)

  Progressed-Whole :
      (start batch : List A) (r : Outcome (Unit {0})) (w : W)
      → Whole start batch (r, w)
      → Progressed start batch (r, w)
  Progressed-Whole start batch (returns a) w h = h
  Progressed-Whole start batch (raises e) w h = ([], batch, refl, rw append-nil h)

  Progressed-cons :
      (start : List A) (x : A) (xs : List A) (r : Outcome (Unit {0})) (w : W)
      → Progressed (start ++ x ∷ []) xs (r, w)
      → Progressed start (x ∷ xs) (r, w)
  Progressed-cons start x xs (returns a) w h = rw append_assoc at h
  Progressed-cons start x xs (raises e) w (first, rest, split, h) =
      (x ∷ first, rest, rw split, rw append_assoc at h)

  each-Progressed :
      (max_retries : ℕ) (batch : List A) (w : W)
      → Progressed (done w) batch (each_with_retries work_handler (suc max_retries) batch w)
  unfolding each_with_retries
  each-Progressed max_retries [] w = rw append-nil
  each-Progressed max_retries (item ∷ rest) w =
      let (result, w') = execute_with_retries (suc max_retries) (work_handler (item ∷ [])) w in
      first result w' (retries-Whole max_retries (item ∷ []) w)
        (each-Progressed max_retries rest w')
    where
      first :
          (r : Outcome (Unit {0})) (w' : W)
          → Whole (done w) (item ∷ []) (r, w')
          → Progressed (done w') rest (each_with_retries work_handler (suc max_retries) rest w')
          → Progressed (done w) (item ∷ rest) (elim r [
            | returns a ↦ each_with_retries work_handler (suc max_retries) rest w'
            | raises e ↦ (raises e, w')
          ])
      first (returns a) w' one others =
          let (r, w'') = each_with_retries work_handler (suc max_retries) rest w' in
          Progressed-cons (done w) item rest r w'' (rw one at others)
      first (raises e) w' none_done others = ([], item ∷ rest, refl, rw append-nil none_done)

  module _ (now : W → ℕ) where
    failure-Progressed :
        (batch : List A) (custom : Bool) (self : BatchWorkExecutor) (w : W) {k : ℕ}
        → self.max_retries ≡ suc k
        → let (r, _, w') = on_failure work_handler now batch custom self w in
          Progressed (done w) batch (r, w')
    unfolding on_failure
    failure-Progressed batch true self w {k} retries = rw retries (
        let (r, w') = execute_with_retries (suc k) (work_handler batch) w in
        Progressed-Whole (done w) batch r w' (retries-Whole k batch w))
    failure-Progressed batch false self w {k} retries = rw retries (each-Progressed k batch w)

    -- With an atomic handler and at least one retry, a batch that the executor reports as finished
    -- has had each of its items done exactly once and in order, whatever failed on the way; and a
    -- batch that raises has had exactly a first part of its items done.
    pub fail_safe_execute-Progressed :
        (batch : List A) (custom : Bool) (self : BatchWorkExecutor) (w : W)
        → 0 < self.max_retries
        → let (r, _, w') = fail_safe_execute work_handler now batch custom self w in
          Progressed (done w) batch (r, w')
    unfolding fail_safe_execute after_handler on_success
    fail_safe_execute-Progressed batch custom self w some_retry =
        let retries : self.max_retries ≡ suc (self.max_retries - 1) = omega arith in
        elim (Outcome-cases (work_handler batch w).0) [
          | inl (a, ok) ↦ rw (ok, after_handler) (atomic.on_return batch w ok)
          | inr (e, failed) ↦
              let same = atomic.on_raise batch w e failed in
              elim (Bool-cases (is_retry_exception e)) [
                | inr fatal ↦
                    rw (failed, after_handler, fatal)
                      (Progressed-Whole (done w) batch (raises e) (work_handler batch w).1 same)
                | inl again ↦
                    rw (failed, after_handler, again)
                      (rw same at
                        (failure-Progressed batch custom self (work_handler batch w).1 retries))
              ]
        ]

-- A call is made at most as often as there are retries, and exactly as often when the last
-- exception is one that would have been retried.
pub execute_with_retries-calls :
    {W : Type 0} (calls : W → ℕ) (func : Call W)
    → ((w : W) → calls (func w).1 ≡ calls w + 1)
    → (max_retries : ℕ) (w : W)
    → let (r, w') = execute_with_retries max_retries func w in
      (calls w' ≤ calls w + max_retries)
      × ((e : Exception)
          → r ≡ raises e
          → is_retry_exception e ≡ true
          → calls w' ≡ calls w + max_retries)
unfolding execute_with_retries
execute_with_retries-calls calls func counts zero w = (omega arith, λ e h again. omega arith)
execute_with_retries-calls calls func counts (suc zero) w =
    (ground (arith, counts w), λ e h again. ground (arith, counts w))
execute_with_retries-calls calls func counts (suc (suc left)) w =
    let later = execute_with_retries-calls calls func counts (suc left) (func w).1 in
    (ground (arith, counts w, later.0), λ e h again. ground (arith, counts w, later.1 e))
