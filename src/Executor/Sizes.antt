-- ===== src/Executor/Sizes.antt =====
-- The adaptive batch size of the executor stays between one and the size that it started from.
use hemera_indexer.Prelude.{ℕ, ◌+◌, ◌*◌, ◌≤◌, ◌<◌, ◌≡◌, some, arith}
use hemera_indexer.Executor.{
  BatchWorkExecutor, cooldown_period, try_decrease_batch_size, try_increase_batch_size,
}

pub record IsSized (self : BatchWorkExecutor) : Type 0 where
  pub not_empty : 1 ≤ self.batch_size
  pub capped : self.batch_size ≤ self.max_batch_size

pub try_decrease-IsSized :
    (n t : ℕ) (self : BatchWorkExecutor) → IsSized self → IsSized (try_decrease_batch_size n t self)
unfolding try_decrease_batch_size
try_decrease-IsSized n t self h = ground arith

pub try_increase-IsSized :
    (n t : ℕ) (self : BatchWorkExecutor)
    → 0 < n
    → IsSized self
    → IsSized (try_increase_batch_size n t self)
unfolding try_increase_batch_size
try_increase-IsSized n t self filled h = ground arith

-- A successful batch that is short, such as the last of an iterable, makes the batch size smaller
-- although the method is there to increase it: after the cooldown, any batch of less than half the
-- batch size sets the batch size to twice its own length.
pub try_increase-shrinks :
    (n t latest : ℕ) (self : BatchWorkExecutor)
    → IsSized self
    → self.latest_batch_size_change_time ≡ some latest
    → latest + cooldown_period < t
    → n * 2 < self.batch_size
    → ((try_increase_batch_size n t self).batch_size ≡ n * 2)
      × ((try_increase_batch_size n t self).batch_size < self.batch_size)
unfolding try_increase_batch_size
try_increase-shrinks n t latest self h changed cooled short = ground arith
