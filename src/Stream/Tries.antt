-- ===== src/Stream/Tries.antt =====
-- When the stream gives up.
use hemera_indexer.Prelude.{
  ℕ, ◌+◌, ◌≤◌, ◌≡◌, refl, ◌⊎◌, inl, inr, Bool, true, false, Option, some, List, [], ◌∷◌, arith,
  Bool-cases, Option-cases, length, All,
}
use hemera_indexer.Prelude.Int.{ℤ}
use hemera_indexer.Errors.{
  assertion_error, index_error, Exception, hemera, network, value_error, other, HemeraError,
  Outcome, returns, raises, crashable, retriable,
}
use hemera_indexer.Stream.{
  Config, Stream, Answers, try_body, sync_range, gives_up, after_body, round, rounds, wants_more,
  raised, do_stream, start_after, begin,
}

-- Why the loop may end with an exception after `tries` failed rounds in a row.
abbrev pub StopReason : Config → Exception → ℕ → Type 0
StopReason c (hemera e) tries =
    (crashable e ≡ true) ⊎ (retriable e ≡ false) ⊎ (c.max_retries ≤ tries)
StopReason c network tries = (c.retry_errors ≡ false) ⊎ (c.max_retries ≤ tries)
StopReason c value_error tries = (c.retry_errors ≡ false) ⊎ (c.max_retries ≤ tries)
StopReason c assertion_error tries = (c.retry_errors ≡ false) ⊎ (c.max_retries ≤ tries)
StopReason c index_error tries = (c.retry_errors ≡ false) ⊎ (c.max_retries ≤ tries)
StopReason c other tries = (c.retry_errors ≡ false) ⊎ (c.max_retries ≤ tries)

gives_up-StopReason :
    (c : Config) (e : Exception) (tries : ℕ) → gives_up c e tries ≡ true → StopReason c e tries
unfolding gives_up
gives_up-StopReason c (hemera e) tries h = ground arith
gives_up-StopReason c network tries h = ground arith
gives_up-StopReason c value_error tries h = ground arith
gives_up-StopReason c assertion_error tries h = ground arith
gives_up-StopReason c index_error tries h = ground arith
gives_up-StopReason c other tries h = ground arith

sync_range-tries :
    (run written : Outcome (Unit {0})) (target : ℤ) (s : Stream)
    → (sync_range run written target s).1.tries ≡ s.tries
unfolding sync_range
sync_range-tries (raises e) written target s = refl
sync_range-tries (returns a) (raises e) target s = refl
sync_range-tries (returns a) (returns b) target s = refl

try_body-tries : (c : Config) (a : Answers) (s : Stream) → (try_body c a s).2.tries ≡ s.tries
unfolding try_body
try_body-tries c a s = grind (arith, sync_range-tries)

after_body-tries :
    (c : Config) (r : Outcome (Unit {0})) (busy : Bool) (s : Stream)
    → (after_body c r busy s).1.tries ≤ s.tries + 1
unfolding after_body
after_body-tries c (returns a) true s = omega arith
after_body-tries c (returns a) false s = omega arith
after_body-tries c (raises e) busy s = ground arith

after_body-stop :
    (c : Config) (r : Outcome (Unit {0})) (busy : Bool) (s : Stream) (e : Exception)
    → (after_body c r busy s).0 ≡ some e
    → (r ≡ raises e) × (gives_up c e (s.tries + 1) ≡ true)
unfolding after_body
after_body-stop c (returns a) busy s e h = cc
after_body-stop c (raises x) busy s e h = elim (Bool-cases (gives_up c x (s.tries + 1))) [
  | inl stop ↦
      let h' = rw stop at h in let same : x ≡ e = ground arith in (rw same, rw same at stop)
  | inr on ↦ let h' = rw on at h in cc
]

-- One round adds one to `tries` at most, and ends the loop only for a reason.
round-tries :
    (c : Config) (a : Answers) (s : Stream)
    → ((round c a s).1.tries ≤ s.tries + 1)
      × ((e : Exception) → (round c a s).0 ≡ some e → StopReason c e (s.tries + 1))
unfolding round
round-tries c a s =
    let (result, busy, s') = try_body c a s in
    let same = try_body-tries c a s in
    (
      (let le = after_body-tries c result busy s' in omega arith),
      λ e h.
          rw same at
            (gives_up-StopReason c e (s'.tries + 1) (after_body-stop c result busy s' e h).1),
    )

StopReason-le : (c : Config) (e : Exception) (m n : ℕ) → m ≤ n → StopReason c e m → StopReason c e n
StopReason-le c (hemera e) m n le h = ground arith
StopReason-le c network m n le h = ground arith
StopReason-le c value_error m n le h = ground arith
StopReason-le c assertion_error m n le h = ground arith
StopReason-le c index_error m n le h = ground arith
StopReason-le c other m n le h = ground arith

rounds-stop :
    (c : Config) (answers : List Answers) (s : Stream) (e : Exception)
    → (rounds c answers s).0 ≡ raised e
    → StopReason c e (s.tries + length answers)
unfolding rounds
rounds-stop c [] s e h = elim (Bool-cases (wants_more c s)) [
  | inl more ↦ let h' = rw more at h in cc
  | inr done ↦ let h' = rw done at h in cc
]
rounds-stop c (a ∷ answers) s e h =
    let (le, stops) = round-tries c a s in
    elim (Bool-cases (wants_more c s)) [
      | inr done ↦ let h' = rw (done, rounds) at h in cc
      | inl more ↦ elim (Option-cases (round c a s).0) [
        | inl on ↦
            let later = rounds-stop c answers (round c a s).1 e (rw (more, rounds, on) at h) in
            StopReason-le c e _ _ (omega arith) later
        | inr (x, off) ↦
            let h' : raised x ≡ raised e = rw (more, rounds, off) at h in
            let same : x ≡ e = cc in StopReason-le c e _ _ (omega arith) (stops e (rw same at off))
      ]
    ]

-- The loop ends with an exception only for a reason: the exception says so itself, by being
-- crashable or not retriable; or it is one that the source does not know and errors are not
-- retried; or there have been at least `max_retries` rounds.
pub do_stream-StopReason :
    (c : Config) (start_block : Option ℤ) (recorded : ℤ) (answers : List Answers) (e : Exception)
    → (do_stream c start_block (returns recorded) answers).0 ≡ raised e
    → StopReason c e (length answers)
unfolding do_stream
do_stream-StopReason c start_block recorded answers e h =
    StopReason-le c e _ _ (omega arith)
      (rounds-stop c answers (begin (start_after start_block recorded)) e h)

-- The node answers every round of these with the same retriable exception.
abbrev pub AllFail : HemeraError → List Answers → Type 0
AllFail e = All (λ a. a.current_block ≡ raises (hemera e))
