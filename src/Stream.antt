-- ===== src/Stream.antt =====
-- indexer/controller/stream_controller.py: the loop that follows the head of the chain. Block
-- numbers are signed, since the loop starts from `start_block - 1`. The answers of the node, of the
-- dispatcher and of the sync recorder are inputs, one record for each round of the loop.
pub mod Target
pub mod Ranges
pub mod Tries
pub mod Finish
use hemera_indexer.Prelude.{
  ℕ, suc, ◌+◌, ◌≤◌, Bool, true, false, not, ◌||◌, Option, none, some, List, [], ◌∷◌, ◌++◌,
  if◌then◌else◌, leb, ◌==◌,
}
use hemera_indexer.Prelude.Int.{ℤ, pos, ◌+ℤ◌, ◌-ℤ◌, ltb_ℤ, leb_ℤ, min_ℤ, int_eq}
use hemera_indexer.Errors.{Exception, hemera, Outcome, returns, raises, crashable, retriable}

-- The arguments of `action` and of the constructor that the loop reads.
pub record Config : Type 0 where
  pub end_block : Option ℤ
  pub steps : ℕ
  pub retry_errors : Bool
  pub max_retries : ℕ

-- What the round asked of the dispatcher and of the recorder: the call of `run` for a range failed,
-- or it succeeded and the write of the range's end failed, or both succeeded.
pub data Event : Type 0 where
  run_failed write_failed synced : ℤ → ℤ → Event

pub record Stream : Type 0 where
  pub last_synced_block : ℤ
  pub tries : ℕ
  -- what the recorder holds, once this loop has written it
  pub recorded : Option ℤ
  pub sleeps : ℕ
  pub events : List Event

-- The answers of one round: `eth_blockNumber`, `job_dispatcher.run`, and the recorder's write.
pub record Answers : Type 0 where
  pub current_block : Outcome ℤ
  pub run : Outcome (Unit {0})
  pub set_last_synced_block : Outcome (Unit {0})

-- `_calculate_target_block(current_block, last_synced_block, end_block, steps)`
unfoldable pub calculate_target_block : ℤ → ℤ → Option ℤ → ℕ → ℤ
calculate_target_block current_block last_synced_block end_block steps =
    let target_block = min_ℤ current_block (last_synced_block +ℤ pos steps) in
    elim end_block [ none ↦ target_block | some e ↦ min_ℤ target_block e ]

-- `max(target_block - last_synced_block, 0) != 0`
abbrev pub has_work : ℤ → ℤ → Bool
has_work last_synced_block target_block = ltb_ℤ last_synced_block target_block

abbrev log : Event → Stream → Stream
log event s = record s { events = s.events ++ event ∷ [] }

-- The dispatch of a range and the record of its end.
unfoldable pub sync_range :
    Outcome (Unit {0}) → Outcome (Unit {0}) → ℤ → Stream → Outcome (Unit {0}) × Stream
sync_range (raises e) written target_block s =
    (raises e, log (run_failed (s.last_synced_block +ℤ pos 1) target_block) s)
sync_range (returns a) (raises e) target_block s =
    (raises e, log (write_failed (s.last_synced_block +ℤ pos 1) target_block) s)
sync_range (returns a) (returns b) target_block s = (
  returns tt,
  record (log (synced (s.last_synced_block +ℤ pos 1) target_block) s) {
    last_synced_block = target_block;
    recorded = some target_block;
  },
)

abbrev sleep : Stream → Stream
sleep s = record s { sleeps = suc s.sleeps }

-- The body of the `try`: its result, whether `synced_blocks` is above zero at its end, the state.
unfoldable pub try_body : Config → Answers → Stream → Outcome (Unit {0}) × Bool × Stream
unfolding sync_range calculate_target_block
try_body c a s = elim a.current_block [
  | raises e ↦ (raises e, false, s)
  | returns current_block ↦
      let target_block =
        calculate_target_block current_block s.last_synced_block c.end_block c.steps in
      let (result, s') = sync_range a.run a.set_last_synced_block target_block s in
      if has_work s.last_synced_block target_block
      then (result, true, s')
      else (returns tt, false, s)
]

-- Whether the `except` clauses end the loop, with `tries` counted up where they count it.
unfoldable pub gives_up : Config → Exception → ℕ → Bool
unfolding crashable retriable
gives_up c (hemera e) tries =
    if crashable e then true else if retriable e then leb c.max_retries tries else true
gives_up c e tries = not c.retry_errors || leb c.max_retries tries

-- A crash and a failure that is not retried leave `tries` alone, and `finally` resets it.
unfoldable pub counts_try : Exception → Bool
unfolding crashable retriable
counts_try (hemera e) = if crashable e then false else retriable e
counts_try e = true

abbrev set_tries : ℕ → Stream → Stream
set_tries n s = record s { tries = n }

abbrev sleep_unless : Bool → Stream → Stream
sleep_unless busy s = if busy then s else sleep s

-- What follows the body: the `except` clauses, `finally`, and the sleep of a round with no work.
unfoldable pub after_body : Config → Outcome (Unit {0}) → Bool → Stream → Option Exception × Stream
unfolding gives_up counts_try
after_body c (returns a) busy s = (none, sleep_unless busy (set_tries 0 s))
after_body c (raises e) busy s =
    let counted = set_tries (if counts_try e then s.tries + 1 else 0) s in
    if gives_up c e (s.tries + 1) then (some e, counted) else (none, sleep_unless busy counted)

-- One round of the loop; an exception ends it.
unfoldable pub round : Config → Answers → Stream → Option Exception × Stream
unfolding try_body after_body
round c a s = let (result, busy, s') = try_body c a s in after_body c result busy s'

-- The condition of the loop.
unfoldable pub wants_more : Config → Stream → Bool
wants_more c s = elim c.end_block [ none ↦ true | some e ↦ ltb_ℤ s.last_synced_block e ]

pub data Status : Type 0 where
  running finished : Status
  raised : Exception → Status

-- `_do_stream`, for as many rounds as there are answers.
unfoldable pub rounds : Config → List Answers → Stream → Status × Stream
unfolding wants_more round
rounds c [] s = (if wants_more c s then running else finished, s)
rounds c (a ∷ answers) s =
    let (stop, s') = round c a s in
    let others = rounds c answers s' in
    if wants_more c s
    then (elim stop [ none ↦ others | some e ↦ (raised e, s') ])
    else (finished, s)

-- The start of `_do_stream`: the recorder is read, and a given start block takes precedence.
unfoldable pub start_after : Option ℤ → ℤ → ℤ
start_after none recorded = recorded
start_after (some start_block) recorded = start_block -ℤ pos 1

abbrev pub begin : ℤ → Stream
begin last_synced_block = record {
  last_synced_block = last_synced_block;
  tries = 0;
  recorded = none;
  sleeps = 0;
  events = [];
}

unfoldable pub do_stream : Config → Option ℤ → Outcome ℤ → List Answers → Status × Stream
unfolding rounds start_after
do_stream c start_block (raises e) answers = (raised e, begin (pos 0))
do_stream c start_block (returns recorded) answers =
    rounds c answers (begin (start_after start_block recorded))
