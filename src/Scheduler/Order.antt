-- ===== src/Scheduler/Order.antt =====
-- The loop of `resolve_dependencies`: what holds of its order, its sources and its in-degrees.
use hemera_indexer.Prelude.{
  ℕ, zero, suc, ◌+◌, ◌≤◌, ◌≡◌, refl, ap, ◌∙◌, true, false, List, [], ◌∷◌, ◌++◌, arith,
  if◌then◌else◌, ◌==◌, nat_eq, ltb, length, length-append,
}
use hemera_indexer.Prelude.Int.{ℤ, pos, ◌-ℤ◌, int_eq}
use hemera_indexer.Scheduler.{JobClass, put, elem, release, sort_loop}
use hemera_indexer.Scheduler.Counts.{
  count, total, NoTwice, count-append, elem-eq-ltb, total-bump, count-eq,
}

pos-pred : (n : ℕ) → pos (suc n) -ℤ pos 1 ≡ pos n
unfolding ◌-ℤ◌
pos-pred n = ground arith

-- `f` is what is left of the in-degrees when the children are released.
pub release_lem :
    (children : List JobClass) (in_degree : JobClass → ℤ) (sources : List JobClass)
    (f : JobClass → ℕ)
    → ((j : JobClass) → in_degree j ≡ pos (f j + count j children))
    → (j : JobClass)
    → ((release children in_degree sources).0 j ≡ pos (f j))
      × (count j (release children in_degree sources).1
          ≡ count j sources + (if ltb 0 (count j children) then (if f j == 0 then 1 else 0) else 0))
unfolding release
release_lem [] in_degree sources f h j = ((rw (h j) (ground arith)), omega arith)
release_lem (c ∷ cs) in_degree sources f h j =
    let left = in_degree c -ℤ pos 1 in
    let one : f c + count c (c ∷ cs) ≡ suc (f c + count c cs) = ground arith in
    let found : left ≡ pos (f c + count c cs) =
      ap (λ x. x -ℤ pos 1) (h c ∙ ap pos one) ∙ pos-pred (f c + count c cs) in
    let rest =
      release_lem cs (put c left in_degree) (if left == pos 0 then sources ++ c ∷ [] else sources) f
        (λ i. ground (arith, h i)) j in
    (rest.0, ground (arith, rest.1, count-append j sources (c ∷ [])))

module _ (required : List JobClass) (job_graph : JobClass → List JobClass) where
  -- The edges into a class from classes that are not in the order yet.
  abbrev pub unmet : List JobClass → JobClass → ℕ
  unmet order j = total (λ p. if elem p order then 0 else count j (job_graph p)) required

  -- Each class of the order stands behind all that it has an edge from.
  pub data InOrder : List JobClass → Type 0 where
    nothing : InOrder []
    then_class :
        {xs : List JobClass}
        → InOrder xs
        → (j : JobClass) → elem j required ≡ true
        → unmet xs j ≡ 0
        → InOrder (xs ++ j ∷ [])

  pub record Invariant (order sources : List JobClass) (in_degree : JobClass → ℤ) : Type 0 where
    pub degrees : (j : JobClass) → in_degree j ≡ pos (unmet order j)
    pub counts :
        (j : JobClass)
        → count j order + count j sources
          ≡ (if elem j required then (if unmet order j == 0 then 1 else 0) else 0)
    pub in_order : InOrder order

  unmet-snoc :
      (order : List JobClass) (job j : JobClass)
      → NoTwice required
      → elem job required ≡ true
      → count job order ≡ 0
      → unmet order j ≡ unmet (order ++ job ∷ []) j + count j (job_graph job)
  unmet-snoc order job j once h new =
      let bump =
        total-bump (λ p. if elem p (order ++ job ∷ []) then 0 else count j (job_graph p))
          (λ p. if elem p order then 0 else count j (job_graph p)) job (count j (job_graph job))
          required once
          (λ p. ground (
            arith,
            elem-eq-ltb p order,
            elem-eq-ltb p (order ++ job ∷ []),
            count-append p order (job ∷ []),
          )) in
      ground (arith, bump, h)

  module _ (once : NoTwice required)
      (closed : (p j : JobClass) → elem j required ≡ false → count j (job_graph p) ≡ 0) where
    step-Invariant :
        (order sources : List JobClass) (job : JobClass) (in_degree : JobClass → ℤ)
        → Invariant order (job ∷ sources) in_degree
        → let step = release (job_graph job) in_degree sources in
          Invariant (order ++ job ∷ []) step.1 step.0
    step-Invariant order sources job in_degree inv =
        let at_job = inv.counts job in
        let job_required : elem job required ≡ true = ground arith in
        let job_new : count job order ≡ 0 = ground arith in
        let job_met : unmet order job ≡ 0 = ground arith in
        let snoc = λ (j : JobClass). unmet-snoc order job j once job_required job_new in
        let released =
          release_lem (job_graph job) in_degree sources (unmet (order ++ job ∷ []))
            (λ j. inv.degrees j ∙ ap pos (snoc j)) in
        record {
          degrees = λ j. (released j).0;
          counts = λ j. ground (
            arith,
            (released j).1,
            inv.counts j,
            snoc j,
            closed job j,
            count-append j order (job ∷ []),
          );
          in_order = then_class inv.in_order job job_required job_met;
        }

    pub counts-le :
        (order sources : List JobClass) (in_degree : JobClass → ℤ)
        → Invariant order sources in_degree
        → (j : JobClass) → count j order + count j sources ≤ count j required
    counts-le order sources in_degree inv j = ground (arith, inv.counts j, elem-eq-ltb j required)

    -- With as much fuel as there are classes that are not in the order, no source is left.
    pub sort_loop-Invariant :
        (fuel : ℕ) (order sources : List JobClass) (in_degree : JobClass → ℤ)
        → length order + fuel ≡ length required
        → Invariant order sources in_degree
        → let end = sort_loop fuel job_graph sources order in_degree in
          (end.0 ≡ []) × (degrees_end : JobClass → ℤ) × Invariant end.1 [] degrees_end
    unfolding sort_loop
    sort_loop-Invariant zero order [] in_degree h inv = (refl, in_degree, inv)
    sort_loop-Invariant zero order (s ∷ sources) in_degree h inv =
        let le = counts-le order (s ∷ sources) in_degree inv in
        absurd (
          ground
            (arith, le s, count-eq required order once (λ j. omega (arith, le j)) (omega arith) s))
    sort_loop-Invariant (suc fuel) order [] in_degree h inv = (refl, in_degree, inv)
    sort_loop-Invariant (suc fuel) order (s ∷ sources) in_degree h inv =
        let step = release (job_graph s) in_degree sources in
        sort_loop-Invariant fuel (order ++ s ∷ []) step.1 step.0
          (omega (arith, length-append order (s ∷ [])))
          (step-Invariant order sources s in_degree inv)
