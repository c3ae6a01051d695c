-- ===== src/Executor/Futures.antt =====
-- The futures of the executor: `_check_completed_futures` and `wait`.
use hemera_indexer.Prelude.{◌≡◌, refl, Bool, true, false, List, [], ◌∷◌, ◌++◌, All, arith}
use hemera_indexer.Errors.{Exception, Outcome, returns, raises}

-- A future of the thread pool: still running, or ended by a return or an exception.
pub data Future : Type 0 where
  running : Future
  ended : Outcome (Unit {0}) → Future

-- `_check_completed_futures`, over the copy of the list: the futures that stay, behind `kept`, and
-- whether an exception was raised. The first future that failed stays in the list.
check_from : List Future → List Future → Outcome (Unit {0}) × List Future
check_from kept [] = (returns tt, kept)
check_from kept (running ∷ rest) = check_from (kept ++ running ∷ []) rest
check_from kept (ended (returns a) ∷ rest) = check_from kept rest
check_from kept (ended (raises e) ∷ rest) = (raises e, kept ++ ended (raises e) ∷ rest)

unfoldable pub check_completed_futures : List Future → Outcome (Unit {0}) × List Future
unfolding check_from
check_completed_futures futures = check_from [] futures

abbrev pub IsEnded : Future → Type 0
IsEnded running = ⊥
IsEnded (ended r) = Unit

-- The exception of the first future that has one.
abbrev pub first_exception : List Future → Outcome (Unit {0})
first_exception [] = returns tt
first_exception (running ∷ rest) = first_exception rest
first_exception (ended (returns a) ∷ rest) = first_exception rest
first_exception (ended (raises e) ∷ rest) = raises e

check_from-exception :
    (kept futures : List Future) → (check_from kept futures).0 ≡ first_exception futures
unfolding check_from
check_from-exception kept [] = refl
check_from-exception kept (running ∷ rest) = check_from-exception (kept ++ running ∷ []) rest
check_from-exception kept (ended (returns a) ∷ rest) = check_from-exception kept rest
check_from-exception kept (ended (raises e) ∷ rest) = refl

check_from-ended :
    (futures : List Future)
    → All IsEnded futures
    → (check_from [] futures).0 ≡ returns tt
    → (check_from [] futures).1 ≡ []
unfolding check_from
check_from-ended [] h ok = refl
check_from-ended (running ∷ rest) h ok = absurd h.0
check_from-ended (ended (returns a) ∷ rest) h ok = check_from-ended rest h.1 ok
check_from-ended (ended (raises e) ∷ rest) h ok = cc

-- `wait`, once `futures.wait` has seen every future end: the check, and then the assertion that no
-- future is left, whose failure is `false`.
unfoldable pub wait : List Future → Outcome Bool × List Future
wait futures =
    let (r, left) = check_completed_futures futures in
    elim r [
      | returns a ↦ (returns (elim left [ [] ↦ true | f ∷ more ↦ false ]), left)
      | raises e ↦ (raises e, left)
    ]

-- When every future has ended, `wait` raises the exception of the first that failed, and if none
-- failed it leaves no future and its assertion holds.
pub wait_lem :
    (futures : List Future)
    → All IsEnded futures
    → ((e : Exception) → first_exception futures ≡ raises e → (wait futures).0 ≡ raises e)
      × (first_exception futures ≡ returns tt → wait futures ≡ (returns true, []))
unfolding wait check_completed_futures
wait_lem futures h = (
  λ e raised. ground (arith, check_from-exception [] futures),
  λ none_raised. ground (arith, check_from-exception [] futures, check_from-ended futures h),
)
