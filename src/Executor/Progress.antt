-- ===== src/Executor/Progress.antt =====
-- indexer/utils/atomic_counter.py and indexer/utils/progress_logger.py. Durations and the texts of
-- the messages are left out: a message is what it reports. A percentage is a quotient of floats in
-- the source; here it is the exact quotient, which has the same integer part for counts below 10^12.
use hemera_indexer.Prelude.{
  ℕ, zero, suc, ◌+◌, ◌-◌, ◌*◌, ◌/◌, ◌≤◌, ◌<◌, ◌≡◌, refl, ◌∙◌, Option, none, some, List, [], ◌∷◌,
  ◌++◌, length, length-append, sum, arith, All, if◌then◌else◌, ltb, ◌==◌, nat_eq,
}
use hemera_indexer.Errors.{other, Outcome, returns, raises, ◌>>=◌}

-- `AtomicCounter`, by the last value that it handed out.
abbrev pub AtomicCounter : Type 0
AtomicCounter = ℕ

-- `increment(increment)`: the last of `increment` calls of `next`; its assertion fails for zero.
unfoldable pub increment : AtomicCounter → ℕ → Outcome (ℕ × AtomicCounter)
increment counter n = if ltb 0 n then returns (counter + n, counter + n) else raises other

pub data Report : Type 0 where
  started : Option ℕ → Report
  progressed : ℕ → Option ℕ → Report
  finished : ℕ → Report

pub record ProgressLogger : Type 0 where
  pub total_items : Option ℕ
  pub counter : Option AtomicCounter
  pub printed : List Report

-- The defaults of `log_percentage_step` and `log_item_step`.
abbrev pub percentage_step : ℕ
percentage_step = 10

abbrev pub item_step : ℕ
item_step = 5000

abbrev pub fresh : ProgressLogger
fresh = record { total_items = none; counter = some 0; printed = [] }

abbrev print : Report → ProgressLogger → ProgressLogger
print r self = record self { printed = self.printed ++ r ∷ [] }

-- `start(total_items)`
unfoldable pub start : Option ℕ → ProgressLogger → ProgressLogger
start total self = print (started total) (record self {
  total_items = total;
  counter = elim self.counter [ none ↦ some 0 | some c ↦ some c ];
})

-- The message of `track`, if the count passes a step.
unfoldable pub track_message : Option ℕ → ℕ → ℕ → Option Report
track_message none before processed =
    if before / item_step == processed / item_step then none else some (progressed processed none)
track_message (some zero) before processed =
    if before / item_step == processed / item_step then none else some (progressed processed none)
track_message (some (suc n)) before processed =
    let percentage = processed * 100 / suc n in
    let percentage_before = before * 100 / suc n in
    if percentage_before / percentage_step == percentage / percentage_step
    then none
    else some (progressed processed (some percentage))

abbrev print_some : Option Report → ProgressLogger → ProgressLogger
print_some none self = self
print_some (some r) self = print r self

-- `track(item_count)`; after `finish` there is no counter to increment.
unfoldable pub track : ℕ → ProgressLogger → Outcome ProgressLogger
unfolding increment
track item_count self = elim self.counter [
  | none ↦ raises other
  | some counter ↦ do
    (processed, counter') ← increment counter item_count
    let message = track_message self.total_items (processed - item_count) processed
    returns (print_some message (record self { counter = some counter' }))
]

-- `finish()`
unfoldable pub finish : ProgressLogger → Outcome ProgressLogger
unfolding increment
finish self = elim self.counter [
  | none ↦ raises other
  | some counter ↦ do
    (value, counter') ← increment counter 1
    returns (print (finished (value - 1)) (record self { counter = none }))
]

unfoldable pub track_all : List ℕ → ProgressLogger → Outcome ProgressLogger
track_all [] self = returns self
track_all (n ∷ counts) self = do self' ← track n self; track_all counts self'

abbrev tracked : ℕ → ℕ → ProgressLogger → ProgressLogger
tracked n c self =
    print_some (track_message self.total_items (c + n - n) (c + n))
      (record self { counter = some (c + n) })

counter-print_some :
    (m : Option Report) (self : ProgressLogger)
    → ((print_some m self).counter ≡ self.counter)
      × ((print_some m self).total_items ≡ self.total_items)
counter-print_some none self = (refl, refl)
counter-print_some (some r) self = (refl, refl)

track-eq-tracked :
    (n c : ℕ) (self : ProgressLogger)
    → 0 < n
    → self.counter ≡ some c
    → track n self ≡ returns (tracked n c self)
unfolding track
track-eq-tracked n c self positive h = ground arith

track_all-counter :
    (counts : List ℕ) (c : ℕ) (self : ProgressLogger)
    → All (λ n. 0 < n) counts
    → self.counter ≡ some c
    → (self' : ProgressLogger) × (track_all counts self ≡ returns self')
      × (self'.counter ≡ some (c + sum counts))
unfolding track_all
track_all-counter [] c self h e = (self, refl, ground arith)
track_all-counter (n ∷ counts) c self h e =
    let same =
      counter-print_some (track_message self.total_items (c + n - n) (c + n))
        (record self { counter = some (c + n) }) in
    let (self', ran, counted) = track_all-counter counts (c + n) (tracked n c self) h.1 same.0 in
    let regroup : c + n + sum counts ≡ c + (n + sum counts) = omega arith in
    (self', rw (track-eq-tracked n c self h.0 e) ran, rw regroup at counted)

-- `finish` reports the number of the items that were tracked since the counter was made, however
-- they were divided into batches, as long as no batch was empty; and it takes the counter away.
pub finish-track_all :
    (counts : List ℕ) (self : ProgressLogger)
    → All (λ n. 0 < n) counts
    → self.counter ≡ some 0
    → (self' : ProgressLogger) × (track_all counts self ≡ returns self')
      × (finish self'
          ≡ returns (record self' {
            counter = none;
            printed = self'.printed ++ finished (sum counts) ∷ [];
          }))
unfolding finish
finish-track_all counts self h e =
    let (self', ran, counted) = track_all-counter counts 0 self h e in
    let minus : sum counts + 1 - 1 ≡ sum counts = omega arith in (self', ran, ground arith)

-- A count that was tracked prints at most one message for each step of 5000 that it passes.
print_some-length :
    (total : Option ℕ) (before processed : ℕ) (self : ProgressLogger)
    → total ≡ none
    → before ≤ processed
    → length (print_some (track_message total before processed) self).printed + before / item_step
      ≤ length self.printed + processed / item_step
unfolding track_message
print_some-length total before processed self t h =
    rw t (ground (arith, length-append self.printed (progressed processed none ∷ [])))

-- Without a total, tracking prints at most one message for each 5000 items that were counted.
pub track_all-printed :
    (counts : List ℕ) (c : ℕ) (self : ProgressLogger)
    → All (λ n. 0 < n) counts
    → self.counter ≡ some c
    → self.total_items ≡ none
    → (self' : ProgressLogger) × (track_all counts self ≡ returns self')
      × (length self'.printed + c / item_step ≤ length self.printed + (c + sum counts) / item_step)
unfolding track_all
track_all-printed [] c self h e t = (self, refl, omega arith)
track_all-printed (n ∷ counts) c self h e t =
    let same =
      counter-print_some (track_message self.total_items (c + n - n) (c + n))
        (record self { counter = some (c + n) }) in
    let (self', ran, few) =
      track_all-printed counts (c + n) (tracked n c self) h.1 same.0 (same.1 ∙ t) in
    let step =
      print_some-length self.total_items (c + n - n) (c + n)
        (record self { counter = some (c + n) }) t (omega arith) in
    (self', rw (track-eq-tracked n c self h.0 e) ran, omega (arith, few, step))
