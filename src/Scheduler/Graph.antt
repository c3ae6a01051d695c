-- ===== src/Scheduler/Graph.antt =====
-- The graph that `resolve_dependencies` builds: its edges, and the in-degrees.
use hemera_indexer.Prelude.{
  ℕ, ◌+◌, ◌≡◌, refl, sym, ap, String, Bool, true, false, List, [], ◌∷◌, arith, if◌then◌else◌, ◌==◌,
  nat_eq,
}
use hemera_indexer.Prelude.Int.{pos, ◌+ℤ◌}
use hemera_indexer.Scheduler.{
  JobClass, Declarations, JobGraph, elem, add_edge, add_parents, add_dependencies, add_jobs,
  empty_graph,
}
use hemera_indexer.Scheduler.Counts.{
  count, total, NoTwice, NoTwice-tail, count-append, elem-eq-ltb, total-bump, total-zero,
}

pub pos-suc : (n : ℕ) → pos n +ℤ pos 1 ≡ pos (n + 1)
unfolding ◌+ℤ◌
pos-suc n = ground arith

module _ (d : Declarations) (job_map : String → List JobClass) where
  -- How often the class is registered for the dependencies.
  abbrev pub producers : JobClass → List String → ℕ
  producers p [] = 0
  producers p (dependency ∷ rest) = count p (job_map dependency) + producers p rest

  -- The edges from a parent to a job that the jobs of a list give.
  abbrev pub edges : List JobClass → JobClass → JobClass → List JobClass → ℕ
  edges required p j [] = 0
  edges required p j (k ∷ ks) =
      (if j == k then (if elem p required then producers p (d.dependency_types k) else 0) else 0)
      + edges required p j ks

  module _ (required : List JobClass) (once : NoTwice required) where
    abbrev pub IsCounted : JobGraph → Type 0
    IsCounted g =
        (j : JobClass) → g.in_degree j ≡ pos (total (λ p. count j (g.job_graph p)) required)

    count-add_edge :
        (job parent p j : JobClass) (g : JobGraph)
        → count j ((add_edge d job_map required job parent g).job_graph p)
          ≡ count j (g.job_graph p) + (if p == parent then (if j == job then 1 else 0) else 0)
    unfolding add_edge
    count-add_edge job parent p j g = ground (arith, count-append j (g.job_graph parent) (job ∷ []))

    add_edge-IsCounted :
        (job parent : JobClass) (g : JobGraph)
        → elem parent required ≡ true
        → IsCounted g
        → IsCounted (add_edge d job_map required job parent g)
    unfolding add_edge
    add_edge-IsCounted job parent g h counted j =
        let bump =
          total-bump (λ p. count j (g.job_graph p))
            (λ p. count j ((add_edge d job_map required job parent g).job_graph p)) parent
            (if j == job then 1 else 0) required once (λ p. count-add_edge job parent p j g) in
        rw bump
          (ground (arith, h, counted j, pos-suc (total (λ p. count j (g.job_graph p)) required)))

    count-add_edge_if :
        (job parent p j : JobClass) (b : Bool) (g : JobGraph)
        → count j ((if b then add_edge d job_map required job parent g else g).job_graph p)
          ≡ count j (g.job_graph p)
            + (if b then (if p == parent then (if j == job then 1 else 0) else 0) else 0)
    count-add_edge_if job parent p j true g = count-add_edge job parent p j g
    count-add_edge_if job parent p j false g = omega arith

    add_edge_if-IsCounted :
        (job parent : JobClass) (b : Bool) (g : JobGraph)
        → elem parent required ≡ b
        → IsCounted g
        → IsCounted (if b then add_edge d job_map required job parent g else g)
    add_edge_if-IsCounted job parent true g h counted = add_edge-IsCounted job parent g h counted
    add_edge_if-IsCounted job parent false g h counted = counted

    count-add_parents :
        (job p j : JobClass) (parents : List JobClass) (g : JobGraph)
        → count j ((add_parents d job_map required job parents g).job_graph p)
          ≡ count j (g.job_graph p)
            + (if j == job then (if elem p required then count p parents else 0) else 0)
    unfolding add_parents
    count-add_parents job p j [] g = ground arith
    count-add_parents job p j (parent ∷ parents) g =
        let b = elem parent required in
        let g2 = if b then add_edge d job_map required job parent g else g in
        ground (arith, count-add_parents job p j parents g2, count-add_edge_if job parent p j b g)

    add_parents-IsCounted :
        (job : JobClass) (parents : List JobClass) (g : JobGraph)
        → IsCounted g
        → IsCounted (add_parents d job_map required job parents g)
    unfolding add_parents
    add_parents-IsCounted job [] g counted = counted
    add_parents-IsCounted job (parent ∷ parents) g counted =
        add_parents-IsCounted job parents _
          (add_edge_if-IsCounted job parent (elem parent required) g refl counted)

    count-add_dependencies :
        (job p j : JobClass) (deps : List String) (g : JobGraph)
        → count j ((add_dependencies d job_map required job deps g).job_graph p)
          ≡ count j (g.job_graph p)
            + (if j == job then (if elem p required then producers p deps else 0) else 0)
    unfolding add_dependencies
    count-add_dependencies job p j [] g = ground arith
    count-add_dependencies job p j (t ∷ deps) g = ground (
      arith,
      count-add_parents job p j (job_map t) g,
      count-add_dependencies job p j deps (add_parents d job_map required job (job_map t) g),
    )

    add_dependencies-IsCounted :
        (job : JobClass) (deps : List String) (g : JobGraph)
        → IsCounted g
        → IsCounted (add_dependencies d job_map required job deps g)
    unfolding add_dependencies
    add_dependencies-IsCounted job [] g counted = counted
    add_dependencies-IsCounted job (t ∷ deps) g counted =
        add_dependencies-IsCounted job deps _ (add_parents-IsCounted job (job_map t) g counted)

    count-add_jobs :
        (p j : JobClass) (jobs : List JobClass) (g : JobGraph)
        → count j ((add_jobs d job_map required jobs g).job_graph p)
          ≡ count j (g.job_graph p) + edges required p j jobs
    unfolding add_jobs
    count-add_jobs p j [] g = omega arith
    count-add_jobs p j (k ∷ ks) g =
        let g2 = add_dependencies d job_map required k (d.dependency_types k) g in
        omega
          (arith, count-add_jobs p j ks g2, count-add_dependencies k p j (d.dependency_types k) g)

    add_jobs-IsCounted :
        (jobs : List JobClass) (g : JobGraph)
        → IsCounted g
        → IsCounted (add_jobs d job_map required jobs g)
    unfolding add_jobs
    add_jobs-IsCounted [] g counted = counted
    add_jobs-IsCounted (k ∷ ks) g counted =
        add_jobs-IsCounted ks _ (add_dependencies-IsCounted k (d.dependency_types k) g counted)

    -- The graph of all of the required jobs.
    abbrev pub full_graph : JobGraph
    full_graph = add_jobs d job_map required required (empty_graph d job_map required)

    pub full_graph-IsCounted : IsCounted full_graph
    full_graph-IsCounted =
        add_jobs-IsCounted required (empty_graph d job_map required)
          (λ j. ap pos (sym (total-zero (λ p. 0) required (λ i h. refl))))

    edges-required :
        (p j : JobClass) (ks : List JobClass)
        → NoTwice ks
        → edges required p j ks ≡ (
            if elem j ks
            then (if elem p required then producers p (d.dependency_types j) else 0)
            else 0)
    edges-required p j [] h = refl
    edges-required p j (k ∷ ks) h =
        ground (arith, h k, elem-eq-ltb k ks, edges-required p j ks (NoTwice-tail k ks h))

    pub count-full_graph :
        (p j : JobClass)
        → count j (full_graph.job_graph p) ≡ (
            if elem j required
            then (if elem p required then producers p (d.dependency_types j) else 0)
            else 0)
    count-full_graph p j = omega (
      arith,
      count-add_jobs p j required (empty_graph d job_map required),
      edges-required p j required once,
    )
