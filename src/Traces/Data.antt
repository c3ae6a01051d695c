-- ===== src/Traces/Data.antt =====
-- What a flat trace of indexer/jobs/export_traces_job.py has of its call.
use hemera_indexer.Prelude.{
  ℕ, suc, ◌+◌, ◌≡◌, refl, String, Option, none, some, List, [], arith, is_some, if◌then◌else◌, true,
  false,
}
use hemera_indexer.Errors.{Message, codes, lower, same_text}
use hemera_indexer.Traces.{
  CallFields, CallTrace, call, Calls, number_of, Trace, Block, trace_of, types_of, is_call,
}

-- A call that self-destructs, the calls of the four kinds, and all others.
abbrev pub HasType : Message → Message → Message → Type 0
HasType type trace_type call_type =
    (same_text (lower type) (codes "selfdestruct") ≡ true
      → (trace_type ≡ codes "suicide") × (call_type ≡ []))
    × (same_text (lower type) (codes "selfdestruct") ≡ false
        → is_call (lower type) ≡ true
        → (trace_type ≡ codes "call") × (call_type ≡ lower type))
    × (same_text (lower type) (codes "selfdestruct") ≡ false
        → is_call (lower type) ≡ false
        → (trace_type ≡ lower type) × (call_type ≡ []))

types_of-HasType : (type : Message) → HasType type (types_of type).0 (types_of type).1
unfolding types_of
types_of-HasType type = (
  λ dead. (ground arith, ground arith),
  λ alive called. (ground arith, ground arith),
  λ alive differs. (ground arith, ground arith),
)

-- A call with an error has failed.
abbrev pub status_of : Option String → ℕ
status_of none = 1
status_of (some error) = 0

status_of-eq : (error : Option String) → (if is_some error then 0 else 1) ≡ status_of error
status_of-eq none = refl
status_of-eq (some error) = refl

module _ (block : Block) (tx_index : ℕ) (tx_hash : String) where
  -- The trace has the data of the call, and the count of the calls that it makes.
  abbrev pub IsTraceOf : CallTrace → Trace → Type 0
  IsTraceOf (call f calls) t =
      (t ≡ record {
        id_index = t.id_index;
        from_address = f.from;
        to_address = f.to;
        input = f.input;
        output = f.output;
        value = f.value;
        gas = f.gas;
        gas_used = f.gas_used;
        trace_type = t.trace_type;
        call_type = t.call_type;
        subtraces = number_of calls;
        trace_address = t.trace_address;
        error = f.error;
        status = status_of f.error;
        block_number = block.number;
        block_hash = block.hash;
        block_timestamp = block.timestamp;
        transaction_index = tx_index;
        transaction_hash = tx_hash;
        trace_index = suc t.id_index;
      })
      × HasType f.type t.trace_type t.call_type

  pub trace_of-IsTraceOf :
      (f : CallFields) (calls : Calls) (address : List ℕ) (idx : ℕ)
      → IsTraceOf (call f calls) (trace_of block tx_index tx_hash f (number_of calls) address idx)
  unfolding trace_of
  trace_of-IsTraceOf f calls address idx =
      let next : idx + 1 ≡ suc idx = omega arith in
      (rw (next, status_of-eq f.error) refl, types_of-HasType f.type)
