-- ===== src/Traces/Addresses.antt =====
-- The address of a flat trace leads back to its call in the tree.
use hemera_indexer.Prelude.{
  ℕ, zero, suc, ◌+◌, ◌≡◌, refl, sym, ◌∙◌, String, Option, none, some, List, [], ◌∷◌, ◌++◌,
  append_assoc, append-nil, subst, arith, All, All-append, All-map, map, ap,
}
use hemera_indexer.Traces.Data.{IsTraceOf, trace_of-IsTraceOf}
use mathlib.Core.List.{Mem, mem-cons_self, mem-cons_of_mem, mem-append_left, mem-append_right}
use hemera_indexer.Traces.{
  CallFields, CallTrace, call, Calls, no_calls, call_then, Trace, Block, iterate_transaction_trace,
  iterate_calls,
}

abbrev pub call_at : ℕ → Calls → Option CallTrace
call_at i no_calls = none
call_at zero (call_then tree calls) = some tree
call_at (suc i) (call_then tree calls) = call_at i calls

abbrev calls_of : CallTrace → Calls
calls_of (call f calls) = calls

-- The call that an address names: the index of a call among the calls of each that it is in.
abbrev pub node_at : List ℕ → CallTrace → Option CallTrace
node_at [] tree = some tree
node_at (i ∷ address) tree = elim (call_at i (calls_of tree)) [
  | none ↦ none
  | some child ↦ node_at address child
]

child_of :
    (o : Option CallTrace) (path : List ℕ) (node : CallTrace)
    → elim o [ none ↦ none | some child ↦ node_at path child ] ≡ some node
    → (child : CallTrace) × (o ≡ some child) × (node_at path child ≡ some node)
child_of none path node h = cc
child_of (some child) path node h = (child, refl, h)

module _ (block : Block) (tx_index : ℕ) (tx_hash : String) where
  abbrev IsAt : List ℕ → CallTrace → Trace → Type 0
  IsAt address tree t =
      (path : List ℕ) × (t.trace_address ≡ address ++ path)
      × (node : CallTrace) × (node_at path tree ≡ some node)
      × IsTraceOf block tx_index tx_hash node t

  abbrev IsAmong : List ℕ → ℕ → Calls → Trace → Type 0
  IsAmong address base calls t =
      (i : ℕ) × (path : List ℕ) × (t.trace_address ≡ address ++ (base + i) ∷ path)
      × (child : CallTrace) × (call_at i calls ≡ some child)
      × (node : CallTrace) × (node_at path child ≡ some node)
      × IsTraceOf block tx_index tx_hash node t

  IsAt-IsAmong :
      (address : List ℕ) (base : ℕ) (tree : CallTrace) (calls : Calls) (t : Trace)
      → IsAt (address ++ base ∷ []) tree t
      → IsAmong address base (call_then tree calls) t
  IsAt-IsAmong address base tree calls t (path, here, node, found, is) =
      let at_base : base + 0 ≡ base = omega arith in
      (
        zero,
        path,
        rw at_base (here ∙ append_assoc address (base ∷ []) path),
        tree,
        refl,
        node,
        found,
        is,
      )

  IsAmong-shift :
      (address : List ℕ) (base : ℕ) (tree : CallTrace) (calls : Calls) (t : Trace)
      → IsAmong address (base + 1) calls t
      → IsAmong address base (call_then tree calls) t
  IsAmong-shift address base tree calls t (i, path, here, child, nth, node, found, is) =
      let shifted : base + 1 + i ≡ base + suc i = omega arith in
      (
        suc i,
        path,
        subst (λ k. t.trace_address ≡ address ++ k ∷ path) shifted here,
        child,
        nth,
        node,
        found,
        is,
      )

  IsAmong-IsAt :
      (address : List ℕ) (f : CallFields) (calls : Calls) (t : Trace)
      → IsAmong address 0 calls t
      → IsAt address (call f calls) t
  IsAmong-IsAt address f calls t (i, path, here, child, nth, node, found, is) =
      let at_zero : 0 + i ≡ i = omega arith in
      (
        i ∷ path,
        subst (λ k. t.trace_address ≡ address ++ k ∷ path) at_zero here,
        node,
        rw (node_at, nth) found,
        is,
      )

  mutual
    unfolding iterate_transaction_trace iterate_calls

    All-IsAt :
        (tree : CallTrace) (address : List ℕ) (idx : ℕ)
        → All
            (IsAt address tree)
            (iterate_transaction_trace block tx_index tx_hash tree address idx).0
    All-IsAt (call f calls) address idx = (
      (
        [],
        sym (append-nil address),
        call f calls,
        refl,
        trace_of-IsTraceOf block tx_index tx_hash f calls address idx,
      ),
      All-map (IsAmong-IsAt address f calls)
          (iterate_calls block tx_index tx_hash calls address 0 (idx + 1)).0
          (All-IsAmong calls address 0 (idx + 1)),
    )

    All-IsAmong :
        (calls : Calls) (address : List ℕ) (base idx : ℕ)
        → All
            (IsAmong address base calls)
            (iterate_calls block tx_index tx_hash calls address base idx).0
    All-IsAmong no_calls address base idx = tt
    All-IsAmong (call_then tree calls) address base idx =
        let first =
          iterate_transaction_trace block tx_index tx_hash tree (address ++ base ∷ []) idx in
        let rest = iterate_calls block tx_index tx_hash calls address (base + 1) first.1 in
        All-append (IsAmong address base (call_then tree calls)) first.0 rest.0
          (All-map (IsAt-IsAmong address base tree calls) first.0
            (All-IsAt tree (address ++ base ∷ []) idx))
          (All-map (IsAmong-shift address base tree calls) rest.0
            (All-IsAmong calls address (base + 1) first.1))

  abbrev addresses : List Trace → List (List ℕ)
  addresses ts = map (λ t. t.trace_address) ts

  addresses-append : (xs ys : List Trace) → addresses (xs ++ ys) ≡ addresses xs ++ addresses ys
  addresses-append [] ys = refl
  addresses-append (x ∷ xs) ys = ap (λ l. x.trace_address ∷ l) (addresses-append xs ys)

  mutual
    unfolding iterate_transaction_trace iterate_calls

    covers :
        (tree : CallTrace) (address path : List ℕ) (idx : ℕ) (node : CallTrace)
        → node_at path tree ≡ some node
        → Mem
            (address ++ path)
            (addresses (iterate_transaction_trace block tx_index tx_hash tree address idx).0)
    covers (call f calls) address [] idx node found = rw (append-nil address) mem-cons_self
    covers (call f calls) address (i ∷ path) idx node found =
        let (child, nth, there) = child_of (call_at i calls) path node found in
        let at_zero : 0 + i ≡ i = omega arith in
        mem-cons_of_mem address (
          subst
            (λ k.
              Mem (address ++ k ∷ path)
                (addresses (iterate_calls block tx_index tx_hash calls address 0 (idx + 1)).0))
            at_zero (covers_calls calls address 0 i path (idx + 1) child node nth there))

    covers_calls :
        (calls : Calls) (address : List ℕ) (base i : ℕ) (path : List ℕ) (idx : ℕ)
        (child node : CallTrace)
        → call_at i calls ≡ some child
        → node_at path child ≡ some node
        → Mem
            (address ++ (base + i) ∷ path)
            (addresses (iterate_calls block tx_index tx_hash calls address base idx).0)
    covers_calls no_calls address base i path idx child node nth found = cc
    covers_calls (call_then tree calls) address base zero path idx child node nth found =
        let first =
          iterate_transaction_trace block tx_index tx_hash tree (address ++ base ∷ []) idx in
        let rest = iterate_calls block tx_index tx_hash calls address (base + 1) first.1 in
        let tree_is : tree ≡ child = cc in
        let at_base : base + 0 ≡ base = omega arith in
        let inside : node_at path tree ≡ some node =
          subst (λ c. node_at path c ≡ some node) (sym tree_is) found in
        let there : Mem ((address ++ base ∷ []) ++ path) (addresses first.0) =
          covers tree (address ++ base ∷ []) path idx node inside in
        let place : (address ++ base ∷ []) ++ path ≡ address ++ base ∷ path =
          append_assoc address (base ∷ []) path in
        rw (at_base, addresses-append first.0 rest.0)
          (mem-append_left (addresses rest.0) (subst (λ a. Mem a (addresses first.0)) place there))
    covers_calls (call_then tree calls) address base (suc i) path idx child node nth found =
        let first =
          iterate_transaction_trace block tx_index tx_hash tree (address ++ base ∷ []) idx in
        let rest = iterate_calls block tx_index tx_hash calls address (base + 1) first.1 in
        let shifted : base + 1 + i ≡ base + suc i = omega arith in
        let there = covers_calls calls address (base + 1) i path first.1 child node nth found in
        rw (addresses-append first.0 rest.0) (
          mem-append_right (addresses first.0)
            (subst (λ k. Mem (address ++ k ∷ path) (addresses rest.0)) shifted there))

-- The flat traces of a transaction are at the addresses of the calls of the tree: each is at the address
-- of a call, and has the data of that call and the number of the calls that it makes, and each address of
-- a call has a trace.
pub iterate_transaction_trace-at :
    (block : Block) (tx_index : ℕ) (tx_hash : String) (tree : CallTrace)
    → All
        (λ t.
          (node : CallTrace) × (node_at t.trace_address tree ≡ some node)
          × IsTraceOf block tx_index tx_hash node t)
        (iterate_transaction_trace block tx_index tx_hash tree [] 0).0
      × ((address : List ℕ) (node : CallTrace)
          → node_at address tree ≡ some node
          → Mem address (
              map
                (λ t. t.trace_address)
                (iterate_transaction_trace block tx_index tx_hash tree [] 0).0))
iterate_transaction_trace-at block tx_index tx_hash tree = (
  All-map (λ t (path, here, node, found, is). (node, rw here found, is))
      (iterate_transaction_trace block tx_index tx_hash tree [] 0).0
      (All-IsAt block tx_index tx_hash tree [] 0),
  λ address node found. covers block tx_index tx_hash tree [] address 0 node found,
)
