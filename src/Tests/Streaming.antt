-- ===== src/Tests/Streaming.antt =====
-- The stream controller at small inputs.
use hemera_indexer.Prelude.{ℕ, ◌≡◌, refl, true, none, some, List, [], ◌∷◌, arith}
use hemera_indexer.Prelude.Int.{ℤ, pos, ◌+ℤ◌, ◌≤ℤ◌}
use hemera_indexer.Errors.{hemera, network, retriable_error, returns, raises}
use hemera_indexer.Stream.{
  Config, Answers, synced, run_failed, calculate_target_block, do_stream, start_after, finished,
  raised,
}
use hemera_indexer.Stream.Target.{Within, calculate_target_block-greatest}
use hemera_indexer.Stream.Ranges.{Follows, do_stream-Follows}
use hemera_indexer.Stream.Finish.{IsGood, do_stream-finished}

abbrev config : Config
config = record { end_block = some (pos 25); steps = 10; retry_errors = true; max_retries = 3 }

abbrev good : ℕ → Answers
good n = record {
  current_block = returns (pos n);
  run = returns tt;
  set_last_synced_block = returns tt;
}

abbrev bad : Answers
bad = record {
  current_block = returns (pos 30);
  run = raises network;
  set_last_synced_block = returns tt;
}

abbrev behind : Answers
behind = record {
  current_block = raises (hemera (retriable_error []));
  run = returns tt;
  set_last_synced_block = returns tt;
}

-- Blocks 1 to 10, a failed dispatch, 11 to 20, a failure, 21 to 25.
abbrev history : List Answers
history = good 30 ∷ bad ∷ good 30 ∷ behind ∷ good 30 ∷ []

do_stream-history :
    (do_stream config none (returns (pos 0)) history).1.events
    ≡ synced (pos 1) (pos 10)
      ∷ run_failed (pos 11) (pos 20)
      ∷ synced (pos 11) (pos 20)
      ∷ synced (pos 21) (pos 25)
      ∷ []
unfolding do_stream ◌+ℤ◌
do_stream-history = refl

do_stream-Follows_example :
    let s = (do_stream config (some (pos 5)) (returns (pos 0)) history).1 in
    Follows config (start_after (some (pos 5)) (pos 0)) s.events s.last_synced_block
do_stream-Follows_example = do_stream-Follows config (some (pos 5)) (pos 0) history

calculate_target_block-greatest_example :
    let target = calculate_target_block (pos 30) (pos 10) (some (pos 15)) 10 in
    (target ≤ℤ pos 30)
    × (target ≤ℤ pos 10 +ℤ pos 10)
    × Within (some (pos 15)) target
    × ((n : ℤ) → n ≤ℤ pos 30 → n ≤ℤ pos 10 +ℤ pos 10 → Within (some (pos 15)) n → n ≤ℤ target)
calculate_target_block-greatest_example =
    calculate_target_block-greatest (pos 30) (pos 10) (some (pos 15)) 10

abbrev failures : List Answers
failures = behind ∷ behind ∷ behind ∷ []

stops : (do_stream config none (returns (pos 0)) failures).0 ≡ raised (hemera (retriable_error []))
unfolding do_stream
stops = refl

abbrev short : Config
short = record config { end_block = some (pos 2) }

good-IsGood : IsGood (pos 2) (good 30)
good-IsGood = record {
  current = pos 30;
  reached = omega arith;
  answered = refl;
  ran = refl;
  wrote = refl;
}

start_zero : (start_after none (pos 0) ≤ℤ pos 2) × (pos 2 ≤ℤ start_after none (pos 0) +ℤ pos 2)
unfolding start_after ◌+ℤ◌
start_zero = omega arith

do_stream-finished_example :
    let (status, s) = do_stream short none (returns (pos 0)) (good 30 ∷ good 30 ∷ []) in
    (status ≡ finished) × (s.last_synced_block ≡ pos 2)
do_stream-finished_example =
    do_stream-finished short none (pos 0) (pos 2) (good 30 ∷ good 30 ∷ []) refl (omega arith)
      (good-IsGood, (good-IsGood, tt)) start_zero.0 start_zero.1
