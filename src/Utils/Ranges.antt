-- ===== src/Utils/Ranges.antt =====
-- `validate_range` and `split_to_batches` of indexer/utils/utils.py: block ranges with both ends
-- included. Block numbers are natural here; `validate_range` reads the signed input.
use hemera_indexer.Prelude.{
  ℕ, zero, suc, ◌+◌, ◌-◌, ◌≤◌, ◌<◌, min, ◌≡◌, inl, inr, List, [], ◌∷◌, true, false, ◌||◌, arith,
  if◌then◌else◌, leb, leb→le, leb→lt, Bool-cases, ◌↔◌,
}
use hemera_indexer.Prelude.Int.{ℤ, pos, ltb_ℤ, ◌≤ℤ◌}

pub data RangeError : Type 0 where
  negative_bound reversed_range : RangeError

pub data Checked : Type 0 where
  valid : Checked
  value_error : RangeError → Checked

-- `validate_range(range_start_incl, range_end_incl)`
pub validate_range : ℤ → ℤ → Checked
validate_range range_start_incl range_end_incl =
    if ltb_ℤ range_start_incl (pos 0) || ltb_ℤ range_end_incl (pos 0)
    then value_error negative_bound
    else if ltb_ℤ range_end_incl range_start_incl
    then value_error reversed_range
    else valid

-- `range(start, stop, step)`, walked by `for`: the rounds are counted by `fuel`.
batches_from : ℕ → ℕ → ℕ → ℕ → List (ℕ × ℕ)
batches_from zero batch_start end_incl batch_size = []
batches_from (suc fuel) batch_start end_incl batch_size = elim (leb batch_start end_incl) [
  | true ↦
      (batch_start, min (batch_start + batch_size - 1) end_incl)
      ∷ batches_from fuel (batch_start + batch_size) end_incl batch_size
  | false ↦ []
]

-- `split_to_batches(start_incl, end_incl, batch_size)`, for a positive `batch_size`: `range`
-- raises for a step of zero.
pub split_to_batches : ℕ → ℕ → ℕ → List (ℕ × ℕ)
unfolding batches_from
split_to_batches start_incl end_incl batch_size =
    batches_from (end_incl + 1 - start_incl) start_incl end_incl batch_size

-- The ranges follow on one another from `next` up to the block before `stop`, none is empty and none
-- is longer than `size`.
abbrev pub Tiles : ℕ → ℕ → ℕ → List (ℕ × ℕ) → Type 0
Tiles size next stop [] = next ≡ stop
Tiles size next stop ((a, b) ∷ rest) =
    (a ≡ next) × (a ≤ b) × (b < a + size) × Tiles size (b + 1) stop rest

batches_from-Tiles :
    (fuel start end_incl size : ℕ)
    → 0 < size
    → end_incl + 1 ≤ start + fuel
    → Tiles size (min start (end_incl + 1)) (end_incl + 1) (batches_from fuel start end_incl size)
unfolding batches_from
batches_from-Tiles zero start end_incl size positive enough = omega arith
batches_from-Tiles (suc fuel) start end_incl size positive enough =
    elim (Bool-cases (leb start end_incl)) [
      | inl more ↦
          let inside = leb→le start end_incl more in
          let rest = batches_from-Tiles fuel (start + size) end_incl size positive (omega arith) in
          let seam : min (start + size) (end_incl + 1) ≡ min (start + size - 1) end_incl + 1 =
            omega arith in
          rw (more, batches_from) (omega arith, omega arith, omega arith, rw seam at rest)
      | inr done ↦ let past = leb→lt start end_incl done in rw (done, batches_from) (omega arith)
    ]

-- The batches of a positive size cover the blocks from `start_incl` to `end_incl`, in order, with
-- no gap and no overlap, and no batch has more than `batch_size` blocks.
pub split_to_batches-Tiles :
    (start_incl end_incl batch_size : ℕ)
    → 0 < batch_size
    → start_incl ≤ end_incl
    → Tiles batch_size start_incl (end_incl + 1) (split_to_batches start_incl end_incl batch_size)
unfolding split_to_batches
split_to_batches-Tiles start_incl end_incl batch_size positive ordered =
    let whole =
      batches_from-Tiles (end_incl + 1 - start_incl) start_incl end_incl batch_size positive
        (omega arith) in
    let low : min start_incl (end_incl + 1) ≡ start_incl = omega arith in rw low at whole

-- A range passes the check exactly when it is a range of block numbers.
pub validate_range_iff : (s e : ℤ) → (validate_range s e ≡ valid) ↔ ((pos 0 ≤ℤ s) × (s ≤ℤ e))
unfolding validate_range
validate_range_iff s e = (λ h. ground arith, λ h. ground arith)
