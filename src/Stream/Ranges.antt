-- ===== src/Stream/Ranges.antt =====
-- The ranges that the stream dispatches follow on one another.
use hemera_indexer.Prelude.{
  ◌≡◌, refl, sym, ◌∙◌, inl, inr, Bool, true, false, Option, List, [], ◌∷◌, ◌++◌, append_assoc,
  append-nil, arith, Bool-cases, Option-cases, ltb→lt,
}
use hemera_indexer.Prelude.Int.{ℤ, pos, ◌+ℤ◌, ◌≤ℤ◌, int_laws}
use hemera_indexer.Errors.{Outcome, returns, raises, Outcome-cases}
use hemera_indexer.Stream.{
  Config, Event, run_failed, write_failed, synced, Stream, Answers, calculate_target_block,
  has_work, sync_range, try_body, after_body, round, rounds, wants_more, do_stream, start_after,
  begin,
}
use hemera_indexer.Stream.Target.{Within, calculate_target_block-greatest}

abbrev pub IsNext : Config → ℤ → ℤ → ℤ → Type 0
IsNext c last a b =
    (a ≡ last +ℤ pos 1) × (a ≤ℤ b) × (b ≤ℤ last +ℤ pos c.steps) × Within c.end_block b

-- The events of a loop that starts behind block `from` and ends behind block `to`: every call is
-- for the blocks after the last synced one, has at least one block and at most `steps`, and does
-- not pass the end block; only a call that is dispatched and recorded moves the last synced block.
abbrev pub Follows : Config → ℤ → List Event → ℤ → Type 0
Follows c from [] to = from ≡ to
Follows c from (run_failed a b ∷ rest) to = IsNext c from a b × Follows c from rest to
Follows c from (write_failed a b ∷ rest) to = IsNext c from a b × Follows c from rest to
Follows c from (synced a b ∷ rest) to = IsNext c from a b × Follows c b rest to

Follows-append :
    (c : Config) (from mid to : ℤ) (xs ys : List Event)
    → Follows c from xs mid
    → Follows c mid ys to
    → Follows c from (xs ++ ys) to
Follows-append c from mid to [] ys h k = rw h k
Follows-append c from mid to (run_failed a b ∷ xs) ys h k =
    (h.0, Follows-append c from mid to xs ys h.1 k)
Follows-append c from mid to (write_failed a b ∷ xs) ys h k =
    (h.0, Follows-append c from mid to xs ys h.1 k)
Follows-append c from mid to (synced a b ∷ xs) ys h k = (h.0, Follows-append c b mid to xs ys h.1 k)

-- What one round adds: its events, and the move from the old last synced block to the new one.
record IsExtension (c : Config) (s s' : Stream) : Type 0 where
  new_events : List Event
  appended : s'.events ≡ s.events ++ new_events
  follows : Follows c s.last_synced_block new_events s'.last_synced_block

IsExtension-refl : (c : Config) (s : Stream) → IsExtension c s s
IsExtension-refl c s = record {
  new_events = [];
  appended = sym (append-nil s.events);
  follows = refl;
}

sync_range-IsExtension :
    (c : Config) (run written : Outcome (Unit {0})) (target : ℤ) (s : Stream)
    → IsNext c s.last_synced_block (s.last_synced_block +ℤ pos 1) target
    → IsExtension c s (sync_range run written target s).1
unfolding sync_range
sync_range-IsExtension c (raises e) written target s h = record {
  new_events = run_failed (s.last_synced_block +ℤ pos 1) target ∷ [];
  appended = refl;
  follows = (h, refl);
}
sync_range-IsExtension c (returns a) (raises e) target s h = record {
  new_events = write_failed (s.last_synced_block +ℤ pos 1) target ∷ [];
  appended = refl;
  follows = (h, refl);
}
sync_range-IsExtension c (returns a) (returns b) target s h = record {
  new_events = synced (s.last_synced_block +ℤ pos 1) target ∷ [];
  appended = refl;
  follows = (h, refl);
}

IsNext-range :
    (c : Config) (current : ℤ) (s : Stream)
    → let target = calculate_target_block current s.last_synced_block c.end_block c.steps in
      has_work s.last_synced_block target ≡ true
      → IsNext c s.last_synced_block (s.last_synced_block +ℤ pos 1) target
IsNext-range c current s work =
    let (_, within_steps, within_end, _) =
      calculate_target_block-greatest current s.last_synced_block c.end_block c.steps in
    let ahead = ltb→lt _ _ work in (refl, omega int_laws, within_steps, within_end)

try_body-IsExtension : (c : Config) (a : Answers) (s : Stream) → IsExtension c s (try_body c a s).2
unfolding try_body
try_body-IsExtension c a s = elim (Outcome-cases a.current_block) [
  | inr (e, failed) ↦ rw (failed, try_body) (IsExtension-refl c s)
  | inl (current, ok) ↦
      let target = calculate_target_block current s.last_synced_block c.end_block c.steps in
      elim (Bool-cases (has_work s.last_synced_block target)) [
        | inl work ↦
            rw (ok, try_body, work)
              (sync_range-IsExtension c a.run a.set_last_synced_block target s
                (IsNext-range c current s work))
        | inr idle ↦ rw (ok, try_body, idle) (IsExtension-refl c s)
      ]
]

-- The `except` clauses, `finally` and the sleep leave the events and the last synced block alone.
after_body_keeps :
    (c : Config) (r : Outcome (Unit {0})) (busy : Bool) (s : Stream)
    → ((after_body c r busy s).1.events ≡ s.events)
      × ((after_body c r busy s).1.last_synced_block ≡ s.last_synced_block)
      × ((after_body c r busy s).1.recorded ≡ s.recorded)
unfolding after_body
after_body_keeps c (returns a) true s = (refl, refl, refl)
after_body_keeps c (returns a) false s = (refl, refl, refl)
after_body_keeps c (raises e) busy s = ground arith

round-IsExtension : (c : Config) (a : Answers) (s : Stream) → IsExtension c s (round c a s).1
unfolding round
round-IsExtension c a s =
    let (result, busy, s') = try_body c a s in
    let (same_events, same_last, _) = after_body_keeps c result busy s' in
    let body = try_body-IsExtension c a s in
    record {
      new_events = body.new_events;
      appended = same_events ∙ body.appended;
      follows = rw same_last body.follows;
    }

IsExtension-trans :
    (c : Config) (s t u : Stream) → IsExtension c s t → IsExtension c t u → IsExtension c s u
IsExtension-trans c s t u h k = record {
  new_events = h.new_events ++ k.new_events;
  appended = rw (k.appended, h.appended) (append_assoc s.events h.new_events k.new_events);
  follows =
      Follows-append c s.last_synced_block t.last_synced_block u.last_synced_block h.new_events
        k.new_events h.follows k.follows;
}

rounds-IsExtension :
    (c : Config) (answers : List Answers) (s : Stream) → IsExtension c s (rounds c answers s).1
unfolding rounds
rounds-IsExtension c [] s = IsExtension-refl c s
rounds-IsExtension c (a ∷ answers) s =
    let one = round-IsExtension c a s in
    let others = rounds-IsExtension c answers (round c a s).1 in
    elim (Bool-cases (wants_more c s)) [
      | inr done ↦ rw (done, rounds) (IsExtension-refl c s)
      | inl more ↦ elim (Option-cases (round c a s).0) [
        | inl on ↦
            rw (more, rounds, on)
              (IsExtension-trans c s (round c a s).1 (rounds c answers (round c a s).1).1 one
                others)
        | inr (e, off) ↦ rw (more, rounds, off) one
      ]
    ]

-- From any start and with any answers, whether the loop goes on, ends or raises: the calls of the
-- dispatcher follow on one another from the block after the start to the last synced block, with no
-- gap, each with at least one block and at most `steps`, and none past the end block; a range whose
-- dispatch or record failed is dispatched again from the same block on.
pub do_stream-Follows :
    (c : Config) (start_block : Option ℤ) (recorded : ℤ) (answers : List Answers)
    → let s = (do_stream c start_block (returns recorded) answers).1 in
      Follows c (start_after start_block recorded) s.events s.last_synced_block
unfolding do_stream
do_stream-Follows c start_block recorded answers =
    let begun = begin (start_after start_block recorded) in
    let h = rounds-IsExtension c answers begun in rw h.appended h.follows
