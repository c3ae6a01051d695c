-- ===== src/Traces/Counts.antt =====
-- The counts for each block.
use hemera_indexer.Prelude.{
  ℕ, ◌+◌, ◌≡◌, refl, false, List, [], ◌∷◌, arith, string_eq, Bool-cases, String, inl, inr, not,
  ◌&&◌,
}
use hemera_indexer.Errors.{Message, codes, lower, same_text}
use hemera_indexer.Traces.{
  UpdateBlockInternalCount, types_of, is_call, Block, CallFields, trace_of, is_transfer_value,
  has_value, same_address,
}

abbrev pub all_counts : List UpdateBlockInternalCount → ℕ
all_counts [] = 0
all_counts (c ∷ cs) = c.traces_count + all_counts cs

types_of-not_delegatecall :
    (type : Message) → same_text (types_of type).0 (codes "delegatecall") ≡ false
unfolding types_of
types_of-not_delegatecall type = elim (Bool-cases (same_text (lower type) (codes "selfdestruct"))) [
  | inl destructs ↦ rw destructs (unfold same_text in refl)
  | inr destructs_not ↦ elim (Bool-cases (is_call (lower type))) [
    | inl calls ↦ rw (destructs_not, calls) (unfold same_text in refl)
    | inr calls_not ↦ rw (destructs_not, calls_not) (ground arith)
  ]
]

-- The test for delegate calls in `is_transfer_value` has no effect on the traces that the job makes: a
-- call counts as a transfer exactly if it has a value and two addresses that differ, and a delegate
-- call with a value, which moves nothing, counts as well.
pub is_transfer_value-trace_of :
    (block : Block) (tx_index : ℕ) (tx_hash : String) (f : CallFields) (subtraces : ℕ)
    (address : List ℕ) (idx : ℕ)
    → is_transfer_value (trace_of block tx_index tx_hash f subtraces address idx)
      ≡ (has_value f.value && not (same_address f.from f.to))
unfolding is_transfer_value trace_of
is_transfer_value-trace_of block tx_index tx_hash f subtraces address idx =
    ground (arith, types_of-not_delegatecall f.type)
