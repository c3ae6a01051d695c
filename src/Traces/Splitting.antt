-- ===== src/Traces/Splitting.antt =====
-- The splitting of a call tree: as many traces as calls, numbered in order.
use hemera_indexer.Prelude.{
  ℕ, zero, suc, ◌+◌, ◌≡◌, refl, ap, ◌∙◌, String, List, [], ◌∷◌, ◌++◌, map, arith,
}
use hemera_indexer.Traces.{
  CallTrace, call, Calls, no_calls, call_then, Trace, Block, iterate_transaction_trace,
  iterate_calls,
}

-- The number of the calls of a tree.
mutual
  pub size : CallTrace → ℕ
  size (call f calls) = suc (size_calls calls)

  pub size_calls : Calls → ℕ
  size_calls no_calls = 0
  size_calls (call_then tree calls) = size tree + size_calls calls

abbrev pub count_up : ℕ → ℕ → List ℕ
count_up from zero = []
count_up from (suc n) = from ∷ count_up (suc from) n

pub count_up-append :
    (from m n : ℕ) → count_up from m ++ count_up (from + m) n ≡ count_up from (m + n)
count_up-append from zero n = ground arith
count_up-append from (suc m) n =
    let e : from + suc m ≡ suc from + m = omega arith in
    let e2 : suc m + n ≡ suc (m + n) = omega arith in
    rw (e, e2) (ap (λ l. from ∷ l) (count_up-append (suc from) m n))

map-append-index :
    (xs ys : List Trace)
    → map (λ t. t.trace_index) (xs ++ ys)
      ≡ map (λ t. t.trace_index) xs ++ map (λ t. t.trace_index) ys
map-append-index [] ys = refl
map-append-index (x ∷ xs) ys = ap (λ l. x.trace_index ∷ l) (map-append-index xs ys)

module _ (block : Block) (tx_index : ℕ) (tx_hash : String) where
  mutual
    unfolding iterate_transaction_trace iterate_calls size size_calls

    numbered :
        (tree : CallTrace) (address : List ℕ) (idx : ℕ)
        → let result = iterate_transaction_trace block tx_index tx_hash tree address idx in
          (result.1 ≡ idx + size tree)
          × (map (λ t. t.trace_index) result.0 ≡ count_up (idx + 1) (size tree))
    numbered (call f calls) address idx =
        let (next, indexes) = numbered_calls calls address 0 (idx + 1) in
        (
          omega (arith, next),
          ap (λ l. (idx + 1) ∷ l) (indexes ∙ ap (λ n. count_up n (size_calls calls)) (omega arith)),
        )

    numbered_calls :
        (calls : Calls) (address : List ℕ) (i idx : ℕ)
        → let result = iterate_calls block tx_index tx_hash calls address i idx in
          (result.1 ≡ idx + size_calls calls)
          × (map (λ t. t.trace_index) result.0 ≡ count_up (idx + 1) (size_calls calls))
    numbered_calls no_calls address i idx = (omega arith, refl)
    numbered_calls (call_then tree calls) address i idx =
        let first = iterate_transaction_trace block tx_index tx_hash tree (address ++ i ∷ []) idx in
        let (next, indexes) = numbered tree (address ++ i ∷ []) idx in
        let (next2, indexes2) = numbered_calls calls address (i + 1) first.1 in
        let after : first.1 + 1 ≡ idx + 1 + size tree = omega (arith, next) in
        (
          omega (arith, next, next2),
          rw
              (
                map-append-index first.0
                    (iterate_calls block tx_index tx_hash calls address (i + 1) first.1).0,
                indexes,
                indexes2,
                after,
                count_up-append (idx + 1) (size tree) (size_calls calls),
              )
              refl,
        )

-- The call tree of a transaction gives one trace for each of its calls, with the indexes from 1 on.
pub iterate_transaction_trace-numbered :
    (block : Block) (tx_index : ℕ) (tx_hash : String) (tree : CallTrace) (address : List ℕ)
    → map (λ t. t.trace_index) (iterate_transaction_trace block tx_index tx_hash tree address 0).0
      ≡ count_up 1 (size tree)
iterate_transaction_trace-numbered block tx_index tx_hash tree address =
    (numbered block tx_index tx_hash tree address 0).1
