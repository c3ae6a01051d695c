-- ===== src/Tests/Tracing.antt =====
-- A transaction that calls two contracts, the first of which calls a third.
use hemera_indexer.Prelude.{◌≡◌, refl, String, none, some, List, [], ◌∷◌, map, All, ℕ}
use mathlib.Core.List.{Mem}
use hemera_indexer.Errors.{codes}
use hemera_indexer.Traces.{
  CallFields, CallTrace, call, no_calls, call_then, Trace, Block, iterate_transaction_trace,
}
use hemera_indexer.Traces.Splitting.{count_up, size, iterate_transaction_trace-numbered}
use hemera_indexer.Traces.Data.{IsTraceOf}
use hemera_indexer.Traces.Addresses.{node_at, iterate_transaction_trace-at}

abbrev fields : String → CallFields
fields to = record {
  type = codes "DELEGATECALL";
  from = some "0xaa";
  to = some to;
  input = none;
  output = none;
  value = some 5;
  gas = none;
  gas_used = none;
  error = none;
}

abbrev tree : CallTrace
tree = call (fields "0x01") (
    call_then (call (fields "0x02") (call_then (call (fields "0x03") no_calls) no_calls))
      (call_then (call (fields "0x04") no_calls) no_calls))

abbrev block : Block
block = record { number = 7; hash = "0xee"; timestamp = 9; transaction_hashes = "0xdd" ∷ [] }

abbrev traces : List Trace
traces = (iterate_transaction_trace block 0 "0xdd" tree [] 0).0

tree_addresses : map (λ t. t.trace_address) traces ≡ [] ∷ (0 ∷ []) ∷ (0 ∷ 0 ∷ []) ∷ (1 ∷ []) ∷ []
unfolding iterate_transaction_trace
tree_addresses = refl

iterate_transaction_trace-numbered_example :
    map (λ t. t.trace_index) traces ≡ count_up 1 (size tree)
iterate_transaction_trace-numbered_example =
    iterate_transaction_trace-numbered block 0 "0xdd" tree []

iterate_transaction_trace-at_example :
    All
      (λ t.
        (node : CallTrace) × (node_at t.trace_address tree ≡ some node)
        × IsTraceOf block 0 "0xdd" node t)
      traces
    × ((address : List ℕ) (node : CallTrace)
        → node_at address tree ≡ some node
        → Mem address (map (λ t. t.trace_address) traces))
iterate_transaction_trace-at_example = iterate_transaction_trace-at block 0 "0xdd" tree
