-- ===== src/Tests/Fixing.antt =====
-- Fixing jobs over three blocks, the second of which cannot be read from the node in one of them.
use hemera_indexer.Prelude.{ℕ, zero, suc, ◌≡◌, refl, true, false}
use hemera_indexer.Errors.{returns, raises, network, other}
use hemera_indexer.Prelude.Int.{pos, ◌-ℤ◌}
use hemera_indexer.Fixing.{
  Answers, action, interrupted, failed, still_fixing, resumed_from, do_fixing,
}
use hemera_indexer.Fixing.Resumption.{Interruption, action-Interruption}

abbrev correct : Answers
correct = record {
  been_synced = returns true;
  hash_differs = returns false;
  stopped = false;
  recorded = returns tt;
  interruption_recorded = returns tt;
}

abbrev unreadable : Answers
unreadable = record correct { hash_differs = raises network }

abbrev second_unreadable : ℕ → Answers
second_unreadable zero = correct
second_unreadable (suc zero) = unreadable
second_unreadable (suc (suc offset)) = correct

-- Blocks 100 to 98: the job is resumed at 98, and 99 is left as it is.
resumed_at_98 : resumed_from (action 100 3 true second_unreadable (returns tt)) ≡ (pos 98, pos 1)
unfolding action resumed_from ◌-ℤ◌
resumed_at_98 = refl

-- A block that has another hash is never fixed: the action ends with the block, or it does not end.
never_fixed :
    (do_fixing false true ≡ failed other)
    × (do_fixing true true ≡ failed other)
    × (do_fixing true false ≡ still_fixing)
unfolding do_fixing
never_fixed = (refl, refl, refl)

second_raises : (action 100 3 true second_unreadable (returns tt)).status ≡ interrupted network
unfolding action
second_raises = refl

action-Interruption_example :
    Interruption 100 3 true second_unreadable 0 3
      (action 100 3 true second_unreadable (returns tt))
      network
action-Interruption_example =
    action-Interruption 100 3 true second_unreadable (returns tt) network second_raises
