-- ===== src/Blocks/Selection.antt =====
-- What the filters of a run select.
use hemera_indexer.Prelude.{
  length, String, none, some, has, ℕ, zero, suc, ◌+◌, ◌-◌, ◌≡◌, refl, ap, subst, Bool, true, false,
  not, ◌&&◌, ◌||◌, List, [], ◌∷◌, ◌++◌, map, arith, if◌then◌else◌, ◌==◌, nat_eq, string_eq, leb,
}
use hemera_indexer.Errors.{Outcome, returns, raises, >>=-eq-returns}
use hemera_indexer.Blocks.Specification.{
  Transaction, Specification, always_true, always_false, is_satisfied_by, any_satisfied,
  to_specifications,
}
use hemera_indexer.Blocks.Filters.{
  Filter, by_logs, by_transaction_info, unsupported, TopicSpecification, FoundLog, LogQuery,
  Collected, to_filter_params, if_any, add_all, take_logs, collect_topics, collect_filter,
  collect_filters, collect_blocks, from_on,
}

has-snoc : (n : ℕ) (ns : List ℕ) (m : ℕ) → has n (ns ++ m ∷ []) ≡ (has n ns || n == m)
has-snoc n [] m = ground arith
has-snoc n (k ∷ ns) m = ground (arith, has-snoc n ns m)

has-add_one :
    (n m : ℕ) (ns : List ℕ) → has n (if has m ns then ns else ns ++ m ∷ []) ≡ (has n ns || n == m)
has-add_one n m ns = ground (arith, has-snoc n ns m, has-same n m ns)
  where
    has-same : (n m : ℕ) (ns : List ℕ) → n ≡ m → has n ns ≡ has m ns
    has-same n m ns e = ap (λ k. has k ns) e

has-add_all : (n : ℕ) (ns rest : List ℕ) → has n (add_all ns rest) ≡ (has n ns || has n rest)
has-add_all n ns [] = ground arith
has-add_all n ns (m ∷ rest) =
    ground (arith, has-add_all n (if has m ns then ns else ns ++ m ∷ []) rest, has-add_one n m ns)

has-from_on : (start n m : ℕ) → has m (from_on start n) ≡ (leb start m && not (leb (start + n) m))
has-from_on start zero m = ground arith
has-from_on start (suc n) m = ground (arith, has-from_on (suc start) n m)

module _ (to_checksum_address : String → String) (get_logs : LogQuery → Outcome (List FoundLog))
    (first last : ℕ) where
  -- What the node answers for the topics and addresses, in the blocks of the range.
  abbrev logs_of : TopicSpecification → List FoundLog
  logs_of spec =
      let answer = get_logs (record {
        topics = if length spec.topics == 0 then none else some (spec.topics ∷ []);
        address =
            if length spec.addresses == 0
            then none
            else some (map to_checksum_address spec.addresses);
        from_block = first;
        to_block = last;
      }) in
      elim answer [ returns logs ↦ logs | raises e ↦ [] ]

  -- A block with a log that a filter asks for.
  abbrev pub found_by_topics : List TopicSpecification → ℕ → Bool
  found_by_topics [] n = false
  found_by_topics (spec ∷ specs) n =
      has n (map (λ l. l.block_number) (logs_of spec)) || found_by_topics specs n

  abbrev pub found : List Filter → ℕ → Bool
  found [] n = false
  found (by_logs specs ∷ filters) n = found_by_topics specs n || found filters n
  found (filter ∷ filters) n = found filters n

  -- A transaction with a log that a filter asks for, or that satisfies one of its specifications.
  abbrev pub accepted_by_topics : List TopicSpecification → Transaction → Bool
  accepted_by_topics [] tx = false
  accepted_by_topics (spec ∷ specs) tx =
      has tx.hash (map (λ l. l.transaction_hash) (logs_of spec)) || accepted_by_topics specs tx

  abbrev pub some_satisfied : List Specification → Transaction → Bool
  some_satisfied [] tx = false
  some_satisfied (spec ∷ specs) tx = is_satisfied_by spec tx || some_satisfied specs tx

  abbrev pub accepted : List Filter → Transaction → Bool
  accepted [] tx = false
  accepted (by_logs specs ∷ filters) tx = accepted_by_topics specs tx || accepted filters tx
  accepted (by_transaction_info specs ∷ filters) tx = some_satisfied specs tx || accepted filters tx
  accepted (unsupported ∷ filters) tx = accepted filters tx

  abbrev pub only_logs : List Filter → Bool
  only_logs [] = true
  only_logs (by_transaction_info specs ∷ filters) = false
  only_logs (filter ∷ filters) = only_logs filters

  record Extends (c c2 : Collected) (blocks : ℕ → Bool) (txs : Transaction → Bool) (only : Bool)
      : Type 0 where
    blocks_added : (n : ℕ) → has n c2.filter_blocks ≡ (has n c.filter_blocks || blocks n)
    accepts :
        (tx : Transaction)
        → is_satisfied_by c2.specification tx ≡ (is_satisfied_by c.specification tx || txs tx)
    only_log : c2.only_log_filter ≡ (c.only_log_filter && only)

  any_satisfied-eq :
      (specs : List Specification) (tx : Transaction)
      → any_satisfied (to_specifications specs) tx ≡ some_satisfied specs tx
  unfolding is_satisfied_by any_satisfied
  any_satisfied-eq [] tx = refl
  any_satisfied-eq (spec ∷ specs) tx = ground (arith, any_satisfied-eq specs tx)

  if_any-eq {ℓ} :
      {A : Type ℓ} (xs : List String) (value : A)
      → if_any xs value ≡ (if length xs == 0 then none else some value)
  if_any-eq [] value = ground arith
  if_any-eq (x ∷ xs) value = ground arith

  logs_of-returned :
      (spec : TopicSpecification) (logs : List FoundLog)
      → get_logs (to_filter_params to_checksum_address first last spec) ≡ returns logs
      → logs_of spec ≡ logs
  logs_of-returned spec logs h =
      rw
        (
          logs_of,
          ← if_any-eq spec.topics (spec.topics ∷ []),
          ← if_any-eq spec.addresses (map to_checksum_address spec.addresses),
          h,
        )
        refl

  collect_topics-Extends :
      (specs : List TopicSpecification) (c c2 : Collected)
      → collect_topics to_checksum_address get_logs first last specs c ≡ returns c2
      → Extends c c2 (found_by_topics specs) (accepted_by_topics specs) true
  unfolding collect_topics is_satisfied_by any_satisfied
  collect_topics-Extends [] c c2 h =
      let same : c ≡ c2 = cc in
      subst (λ x. Extends c x (λ n. false) (λ tx. false) true) same
        (record {
          blocks_added = λ n. ground arith;
          accepts = λ tx. ground arith;
          only_log = ground arith;
        })
  collect_topics-Extends (spec ∷ specs) c c2 h =
      let (logs, found_logs, rest) =
        >>=-eq-returns (get_logs (to_filter_params to_checksum_address first last spec)) _ h in
      let later = collect_topics-Extends specs (take_logs logs c) c2 rest in
      let same = logs_of-returned spec logs found_logs in
      record {
        blocks_added = λ n. ground (
          arith,
          later.blocks_added n,
          has-add_all n c.filter_blocks (map (λ l. l.block_number) logs),
          ap (λ ls. has n (map (λ l. l.block_number) ls)) same,
        );
        accepts = λ tx. ground (
          arith,
          later.accepts tx,
          ap (λ ls. has tx.hash (map (λ l. l.transaction_hash) ls)) same,
        );
        only_log = later.only_log;
      }

  collect_filters-Extends :
      (filters : List Filter) (c c2 : Collected)
      → collect_filters to_checksum_address get_logs first last filters c ≡ returns c2
      → Extends c c2 (found filters) (accepted filters) (only_logs filters)
  unfolding collect_filters collect_filter is_satisfied_by any_satisfied
  collect_filters-Extends [] c c2 h =
      let same : c ≡ c2 = cc in
      subst (λ x. Extends c x (λ n. false) (λ tx. false) true) same
        (record {
          blocks_added = λ n. ground arith;
          accepts = λ tx. ground arith;
          only_log = ground arith;
        })
  collect_filters-Extends (by_logs specs ∷ filters) c c2 h =
      let (mid, first, rest) =
        >>=-eq-returns (collect_topics to_checksum_address get_logs first last specs c) _ h in
      let one = collect_topics-Extends specs c mid first in
      let later = collect_filters-Extends filters mid c2 rest in
      record {
        blocks_added = λ n. ground (arith, one.blocks_added n, later.blocks_added n);
        accepts = λ tx. ground (arith, one.accepts tx, later.accepts tx);
        only_log = ground (arith, one.only_log, later.only_log);
      }
  collect_filters-Extends (by_transaction_info specs ∷ filters) c c2 h =
      let later = collect_filters-Extends filters _ c2 h in
      record {
        blocks_added = later.blocks_added;
        accepts = λ tx. ground (arith, later.accepts tx, any_satisfied-eq specs tx);
        only_log = ground (arith, later.only_log);
      }
  collect_filters-Extends (unsupported ∷ filters) c c2 h = cc

-- If the node answers and the filters are of the two kinds, a run that exports filter data alone takes
-- exactly the transactions with a log that the node found in the range for a log filter, or that satisfy
-- at least one of the specifications of an info filter; any other run takes all of them. The blocks that
-- are fetched are those of the range, but if the run is for filter data and has filters for logs alone,
-- they are exactly the blocks in which the node found a log for them.
pub collect_blocks-selects :
    (to_checksum_address : String → String) (get_logs : LogQuery → Outcome (List FoundLog))
    (is_filter : Bool) (first last : ℕ) (filters : List Filter) (blocks : List ℕ)
    (spec : Specification)
    → collect_blocks to_checksum_address get_logs is_filter first last filters
      ≡ returns (blocks, spec)
    → ((tx : Transaction)
        → is_satisfied_by spec tx
          ≡ (not is_filter || accepted to_checksum_address get_logs first last filters tx))
      × ((n : ℕ)
          → has n blocks ≡ (
              if is_filter && only_logs to_checksum_address get_logs first last filters
              then found to_checksum_address get_logs first last filters n
              else leb first n && leb n last))
unfolding collect_blocks is_satisfied_by
collect_blocks-selects to_checksum_address get_logs is_filter first last filters blocks spec h =
    let (c, collected, end) =
      >>=-eq-returns (collect_filters to_checksum_address get_logs first last filters beginning) _
        h in
    let selected =
      collect_filters-Extends to_checksum_address get_logs first last filters beginning c
        collected in
    let mine : List ℕ × Specification = (
      if is_filter && c.only_log_filter then c.filter_blocks else from_on first (last + 1 - first),
      c.specification,
    ) in
    let pair : mine ≡ (blocks, spec) = cc in
    let same_blocks = ap (λ p. p.0) pair in
    let same_spec = ap (λ p. p.1) pair in
    (
      λ tx. rw (← same_spec) (ground (arith, selected.accepts tx)),
      λ n. rw (← same_blocks) (
          ground (
            arith,
            selected.blocks_added n,
            selected.only_log,
            has-from_on first (last + 1 - first) n,
          )),
    )
  where
    beginning : Collected
    beginning = record {
      only_log_filter = true;
      filter_blocks = [];
      specification = if is_filter then always_false else always_true;
    }
