-- ===== src/Stream/Target.antt =====
-- `_calculate_target_block`.
use hemera_indexer.Prelude.{
  ℕ, ◌≡◌, ◌⊎◌, inl, inr, Option, none, some, arith, Bool-cases, leb→le, leb→lt,
}
use hemera_indexer.Prelude.Int.{ℤ, pos, ◌+ℤ◌, ◌≤ℤ◌, min_ℤ, leb_ℤ}
use hemera_indexer.Stream.{calculate_target_block}

pub min_ℤ-cases : (a b : ℤ) → ((min_ℤ a b ≡ a) × (a ≤ℤ b)) ⊎ ((min_ℤ a b ≡ b) × (b ≤ℤ a))
min_ℤ-cases a b = elim (Bool-cases (leb_ℤ a b)) [
  | inl le ↦ inl (rw le, leb→le _ _ le)
  | inr gt ↦ inr (rw gt, (let h = leb→lt _ _ gt in omega arith))
]

abbrev pub Within : Option ℤ → ℤ → Type 0
Within none target = Unit
Within (some e) target = target ≤ℤ e

-- The target is the largest block that is neither past the head of the chain, nor more than `steps`
-- past the last synced block, nor past the end block, if there is one.
pub calculate_target_block-greatest :
    (current last : ℤ) (end_block : Option ℤ) (steps : ℕ)
    → let target = calculate_target_block current last end_block steps in
      (target ≤ℤ current)
      × (target ≤ℤ last +ℤ pos steps)
      × Within end_block target
      × ((n : ℤ) → n ≤ℤ current → n ≤ℤ last +ℤ pos steps → Within end_block n → n ≤ℤ target)
unfolding calculate_target_block
calculate_target_block-greatest current last none steps =
    elim (min_ℤ-cases current (last +ℤ pos steps)) [
      | inl (e, le) ↦ rw e (omega arith, le, tt, λ n a b w. a)
      | inr (e, le) ↦ rw e (le, omega arith, tt, λ n a b w. b)
    ]
calculate_target_block-greatest current last (some e) steps =
    elim (min_ℤ-cases current (last +ℤ pos steps)) [
      | inl (p, le) ↦ elim (min_ℤ-cases current e) [
        | inl (q, le') ↦ rw p (rw q (omega arith, le, le', λ n a b w. a))
        | inr (q, le') ↦ rw p (rw q (le', omega arith, omega arith, λ n a b w. w))
      ]
      | inr (p, le) ↦ elim (min_ℤ-cases (last +ℤ pos steps) e) [
        | inl (q, le') ↦ rw p (rw q (le, omega arith, le', λ n a b w. b))
        | inr (q, le') ↦ rw p (rw q (omega arith, le', omega arith, λ n a b w. w))
      ]
    ]
