-- ===== src/Scheduler/Resolve.antt =====
-- `resolve_dependencies`: it returns an order of the jobs, or there is none.
use hemera_indexer.Prelude.{
  ℕ, zero, suc, ◌≤◌, ◌<◌, ◌≡◌, refl, ◌⊎◌, inl, inr, String, Bool, true, false, List, [], ◌∷◌, ◌++◌,
  arith, if◌then◌else◌, ◌==◌, nat_eq, length, ltb, Bool-cases, beq→eq, ne_of_beq,
}
use hemera_indexer.Prelude.Int.{ℤ, pos, int_eq}
use hemera_indexer.Errors.{returns, raises, other}
use hemera_indexer.Scheduler.{
  JobClass, Declarations, elem, sort_loop, without_parents, resolve_dependencies,
}
use hemera_indexer.Scheduler.Counts.{
  count, NoTwice, NoTwice-tail, elem-eq-ltb, le-total, total-zero, length-le, count-eq,
}
use hemera_indexer.Scheduler.Graph.{producers, full_graph, full_graph-IsCounted, count-full_graph}
use hemera_indexer.Scheduler.Order.{
  unmet, InOrder, nothing, then_class, Invariant, counts-le, sort_loop-Invariant,
}

count-without_parents :
    (in_degree : JobClass → ℤ) (ks : List JobClass)
    → NoTwice ks
    → (j : JobClass)
    → count j (without_parents in_degree ks)
      ≡ (if elem j ks then (if in_degree j == pos 0 then 1 else 0) else 0)
count-without_parents in_degree [] once j = refl
count-without_parents in_degree (k ∷ ks) once j =
    ground (
      arith,
      once k,
      elem-eq-ltb k ks,
      count-without_parents in_degree ks (NoTwice-tail k ks once) j,
    )

abbrev pub any {ℓ} : {A : Type ℓ} → (A → Bool) → List A → Bool
any f [] = false
any f (x ∷ xs) = if f x then true else any f xs

-- The class `p` has an output that `j` depends on.
abbrev pub is_parent : Declarations → (String → List JobClass) → JobClass → JobClass → Bool
is_parent d job_map p j = any (λ dependency. elem p (job_map dependency)) (d.dependency_types j)

module _ (d : Declarations) (job_map : String → List JobClass) where
  any-eq-ltb :
      (p : JobClass) (deps : List String)
      → any (λ dependency. elem p (job_map dependency)) deps ≡ ltb 0 (producers d job_map p deps)
  any-eq-ltb p [] = refl
  any-eq-ltb p (t ∷ deps) = ground (arith, elem-eq-ltb p (job_map t), any-eq-ltb p deps)

  module _ (required : List JobClass) where
    -- Each class is one of the required, and stands behind its parents among the required.
    pub data IsOrdered : List JobClass → Type 0 where
      first : IsOrdered []
      next :
          {xs : List JobClass}
          → IsOrdered xs
          → (j : JobClass)
          → ((p : JobClass)
              → is_parent d job_map p j ≡ true
              → elem p required ≡ true
              → elem p xs ≡ true)
          → IsOrdered (xs ++ j ∷ [])

    -- A number for each class, so that parents have smaller ones: there is no cycle.
    abbrev pub IsRanking : (JobClass → ℕ) → Type 0
    IsRanking rank =
        (p j : JobClass)
        → elem p required ≡ true
        → elem j required ≡ true
        → is_parent d job_map p j ≡ true
        → rank p < rank j

  module _ (required : List JobClass) (once : NoTwice required) where
    abbrev graph : JobClass → List JobClass
    graph = (full_graph d job_map required once).job_graph

    parents-before :
        (xs : List JobClass) (j : JobClass)
        → elem j required ≡ true
        → unmet required graph xs j ≡ 0
        → (p : JobClass) → is_parent d job_map p j ≡ true
        → elem p required ≡ true
        → elem p xs ≡ true
    parents-before xs j j_required met p parent p_required =
        let le = le-total (λ q. if elem q xs then 0 else count j (graph q)) p required p_required in
        ground
          (arith, count-full_graph d job_map required once p j, any-eq-ltb p (d.dependency_types j))

    InOrder-IsOrdered : {xs : List JobClass} → InOrder required graph xs → IsOrdered required xs
    InOrder-IsOrdered nothing = first
    InOrder-IsOrdered (then_class {xs} rest j j_required met) =
        next (InOrder-IsOrdered rest) j (parents-before xs j j_required met)

    closed : (p j : JobClass) → elem j required ≡ false → count j (graph p) ≡ 0
    closed p j h = rw (count-full_graph d job_map required once p j, h) refl

    abbrev first_sources : List JobClass
    first_sources = without_parents (full_graph d job_map required once).in_degree required

    start-Invariant :
        Invariant required graph [] first_sources (full_graph d job_map required once).in_degree
    start-Invariant = record {
      degrees = full_graph-IsCounted d job_map required once;
      counts = λ j.
          rw
            (
              count-without_parents (full_graph d job_map required once).in_degree required once j,
              full_graph-IsCounted d job_map required once j,
            )
            (ground arith);
      in_order = nothing;
    }

    module _ (order : List JobClass) (in_degree : JobClass → ℤ)
        (inv : Invariant required graph order [] in_degree) (rank : JobClass → ℕ)
        (ranking : IsRanking required rank) where
      unmet-none :
          (bound : ℕ) (j : JobClass)
          → rank j < bound
          → elem j required ≡ true
          → unmet required graph order j ≡ 0
      unmet-none zero j h j_required = absurd (omega arith)
      unmet-none (suc bound) j h j_required =
          total-zero (λ p. if elem p order then 0 else count j (graph p)) required
            (λ p p_required. elim (Bool-cases (is_parent d job_map p j)) [
              | inl parent ↦
                  let before : rank p < rank j = ranking p j p_required j_required parent in
                  ground (
                    arith,
                    unmet-none bound p (omega arith) p_required,
                    inv.counts p,
                    elem-eq-ltb p order,
                  )
              | inr no_parent ↦ ground (
                arith,
                count-full_graph d job_map required once p j,
                any-eq-ltb p (d.dependency_types j),
              )
            ])

      count-ranked : (j : JobClass) → count j required ≤ count j order
      count-ranked j = elim (Bool-cases (elem j required)) [
        | inl h ↦ ground (
          arith,
          unmet-none (suc (rank j)) j (omega arith) h,
          inv.counts j,
          elem-eq-ltb j required,
          once j,
        )
        | inr h ↦ ground (arith, elem-eq-ltb j required)
      ]

      ranked-length : length order ≡ length required
      ranked-length =
          let le = counts-le required graph once closed order [] in_degree inv in
          omega (
            arith,
            length-le required order once (λ j. omega (arith, le j)),
            length-le order required (λ j. omega (arith, le j, once j)) count-ranked,
          )

-- The result is an order of the jobs in which each stands behind the jobs that it depends on, with
-- each of them once; or it is an exception, and there is no such order, as the jobs have no ranking by
-- which a parent is smaller than its child.
pub resolve_dependencies-sorted :
    (d : Declarations) (job_map : String → List JobClass) (required : List JobClass)
    → NoTwice required
    → ((order : List JobClass) × (resolve_dependencies d job_map required ≡ returns order)
        × ((j : JobClass) → count j order ≡ count j required)
        × IsOrdered d job_map required order)
      ⊎ ((resolve_dependencies d job_map required ≡ raises other)
          × ((rank : JobClass → ℕ) → ¬ IsRanking d job_map required rank))
unfolding resolve_dependencies
resolve_dependencies-sorted d job_map required once =
    let g = full_graph d job_map required once in
    let (_, in_degree, inv) =
      sort_loop-Invariant required g.job_graph once (closed d job_map required once)
        (length required) [] (without_parents g.in_degree required) g.in_degree (omega arith)
        (start-Invariant d job_map required once) in
    let order =
      (sort_loop (length required) g.job_graph (without_parents g.in_degree required) []
        g.in_degree).1 in
    elim (Bool-cases (length order == length required)) [
      | inl same ↦ inl (
        order,
        rw same refl,
        count-eq required order once
            (λ j.
              let le =
                counts-le required g.job_graph once (closed d job_map required once) order []
                  in_degree inv j in
              omega arith)
            (beq→eq same),
        InOrder-IsOrdered d job_map required once inv.in_order,
      )
      | inr differ ↦ inr (
        rw differ refl,
        λ rank ranking.
            ne_of_beq differ
              (ranked-length d job_map required once order in_degree inv rank ranking),
      )
    ]
