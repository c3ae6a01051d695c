-- ===== src/Stream/Finish.antt =====
-- The stream comes to its end block.
use hemera_indexer.Prelude.{
  ℕ, ◌<◌, ◌≡◌, refl, ◌∙◌, inl, inr, true, Option, none, some, List, [], ◌∷◌, arith, Bool-cases,
  length, All, ltb, ltb→lt, ltb→le,
}
use hemera_indexer.Prelude.Int.{ℤ, pos, ◌+ℤ◌, ◌≤ℤ◌, int_laws, ltb_ℤ}
use hemera_indexer.Errors.{returns}
use hemera_indexer.Stream.{
  Config, Stream, Answers, try_body, sync_range, calculate_target_block, after_body, round, rounds,
  wants_more, has_work, finished, do_stream, start_after, begin,
}
use hemera_indexer.Stream.Target.{calculate_target_block-greatest}

-- An answer to a round in which all is well and the head of the chain has reached block `e`.
pub record IsGood (e : ℤ) (a : Answers) : Type 0 where
  pub current : ℤ
  pub reached : e ≤ℤ current
  pub answered : a.current_block ≡ returns current
  pub ran : a.run ≡ returns tt
  pub wrote : a.set_last_synced_block ≡ returns tt

good_target :
    (current e last : ℤ) (end_block : Option ℤ) (steps : ℕ)
    → end_block ≡ some e
    → 0 < steps
    → e ≤ℤ current
    → ltb_ℤ last e ≡ true
    → let target = calculate_target_block current last end_block steps in
      (last +ℤ pos 1 ≤ℤ target) × (target ≤ℤ e)
good_target current e last end_block steps ends positive reached more = rw ends (
    let (_, _, within_end, greatest) =
      calculate_target_block-greatest current last (some e) steps in
    let less = ltb→lt _ _ more in
    (greatest (last +ℤ pos 1) (omega int_laws) (omega int_laws) (omega int_laws), within_end))

lt→ltb : (a b : ℕ) → a < b → ltb a b ≡ true
lt→ltb a b h = ground arith

good_round :
    (c : Config) (e : ℤ) (a : Answers) (s : Stream)
    → c.end_block ≡ some e
    → 0 < c.steps
    → IsGood e a
    → ltb_ℤ s.last_synced_block e ≡ true
    → ((round c a s).0 ≡ none)
      × (s.last_synced_block +ℤ pos 1 ≤ℤ (round c a s).1.last_synced_block)
      × ((round c a s).1.last_synced_block ≤ℤ e)
unfolding round try_body sync_range after_body
good_round c e a s ends positive good more =
    let (ahead, within) =
      good_target good.current e s.last_synced_block c.end_block c.steps ends positive good.reached
        more in
    let target = calculate_target_block good.current s.last_synced_block c.end_block c.steps in
    let work : has_work s.last_synced_block target ≡ true = lt→ltb _ _ (omega int_laws) in
    rw (good.answered, try_body) (rw (work, good.ran, good.wrote, sync_range) (refl, ahead, within))

-- The blocks from `last` to `e` are at most `n`.
abbrev Remaining : ℤ → ℤ → ℕ → Type 0
Remaining last e n = e ≤ℤ last +ℤ pos n

wants_more-eq :
    (c : Config) (e : ℤ) (s : Stream)
    → c.end_block ≡ some e
    → wants_more c s ≡ ltb_ℤ s.last_synced_block e
unfolding wants_more
wants_more-eq c e s ends = ground arith

good_rounds :
    (c : Config) (e : ℤ) (answers : List Answers) (s : Stream)
    → c.end_block ≡ some e
    → 0 < c.steps
    → All (IsGood e) answers
    → s.last_synced_block ≤ℤ e
    → Remaining s.last_synced_block e (length answers)
    → ((rounds c answers s).0 ≡ finished) × ((rounds c answers s).1.last_synced_block ≡ e)
unfolding rounds
good_rounds c e [] s ends positive good below few =
    let at_end : s.last_synced_block ≡ e = omega int_laws in
    (rw (wants_more-eq c e s ends) (ground arith), at_end)
good_rounds c e (a ∷ answers) s ends positive good below few =
    elim (Bool-cases (ltb_ℤ s.last_synced_block e)) [
      | inr done ↦
          let ge = ltb→le _ _ done in
          let at_end : s.last_synced_block ≡ e = omega int_laws in
          rw (wants_more-eq c e s ends ∙ done, rounds) (refl, at_end)
      | inl more ↦
          let (on, ahead, within) = good_round c e a s ends positive good.0 more in
          let later =
            good_rounds c e answers (round c a s).1 ends positive good.1 within (omega int_laws) in
          rw (wants_more-eq c e s ends ∙ more, rounds, on) later
    ]

-- When every round goes well and the chain has reached the end block, with at least one block for each
-- round and a start that is not past the end block, the loop ends by itself after at most as many rounds
-- as there are blocks to sync, with the end block as the last synced block.
pub do_stream-finished :
    (c : Config) (start_block : Option ℤ) (recorded e : ℤ) (answers : List Answers)
    → c.end_block ≡ some e
    → 0 < c.steps
    → All (IsGood e) answers
    → start_after start_block recorded ≤ℤ e
    → e ≤ℤ start_after start_block recorded +ℤ pos (length answers)
    → let (status, s) = do_stream c start_block (returns recorded) answers in
      (status ≡ finished) × (s.last_synced_block ≡ e)
unfolding do_stream
do_stream-finished c start_block recorded e answers ends positive good below few =
    good_rounds c e answers (begin (start_after start_block recorded)) ends positive good below few
