-- ===== src/Scheduler/Required.antt =====
-- `get_required_job_classes`: the least set of classes that gives the output types and all that its
-- own classes depend on.
use hemera_indexer.Prelude.{
  has, ℕ, zero, suc, ◌+◌, ◌≤◌, ◌≡◌, refl, subst, ◌⊎◌, inl, inr, String, true, false, ◌||◌, List, [],
  ◌∷◌, ◌++◌, arith, if◌then◌else◌, ◌==◌, nat_eq, string_eq, length, length-append, Bool-cases,
  beq→eq, beq_refl,
}
use hemera_indexer.Scheduler.{JobClass, Declarations, elem, require_classes, require_loop}
use hemera_indexer.Scheduler.Counts.{total, NoTwice, count-append, elem-eq-ltb, total-bump}

has-append : (t : String) (us vs : List String) → has t (us ++ vs) ≡ (has t us || has t vs)
has-append t [] vs = refl
has-append t (u ∷ us) vs = ground (arith, has-append t us vs)

has-head : (t : String) (us : List String) → has t (t ∷ us) ≡ true
has-head t us = rw (beq_refl t) refl

pub elem-snoc :
    (j : JobClass) (ks : List JobClass) (k : JobClass)
    → elem j (ks ++ k ∷ []) ≡ (elem j ks || j == k)
elem-snoc j [] k = ground arith
elem-snoc j (i ∷ ks) k = ground (arith, elem-snoc j ks k)

module _ (d : Declarations) (job_map : String → List JobClass) (output_types : List String) where
  -- A class that has one of the output types, or a type that a class that is needed depends on.
  pub data IsNeeded : JobClass → Type 0 where
    for_output :
        (t : String)
        → has t output_types ≡ true
        → (c : JobClass) → elem c (job_map t) ≡ true
        → IsNeeded c
    for_job :
        (child : JobClass)
        → IsNeeded child
        → (t : String) → has t (d.dependency_types child) ≡ true
        → (c : JobClass) → elem c (job_map t) ≡ true
        → IsNeeded c

  abbrev IsWanted : String → Type 0
  IsWanted t =
      (has t output_types ≡ true)
      ⊎ ((child : JobClass) × IsNeeded child × (has t (d.dependency_types child) ≡ true))

  IsWanted-IsNeeded :
      (t : String) → IsWanted t → (c : JobClass) → elem c (job_map t) ≡ true → IsNeeded c
  IsWanted-IsNeeded t (inl h) c m = for_output t h c m
  IsWanted-IsNeeded t (inr (child, needed, h)) c m = for_job child needed t h c m

  module _ (classes : List JobClass) (classes_once : NoTwice classes)
      (registered : (t : String) (c : JobClass)
        → elem c (job_map t) ≡ true
        → elem c classes ≡ true) where
    -- The types that can still enter the queue.
    abbrev to_come : List JobClass → ℕ
    to_come required =
        total (λ c. if elem c required then 0 else length (d.dependency_types c)) classes

    to_come-snoc :
        (required : List JobClass) (c : JobClass)
        → elem c classes ≡ true
        → elem c required ≡ false
        → to_come required ≡ to_come (required ++ c ∷ []) + length (d.dependency_types c)
    to_come-snoc required c h new =
        let bump =
          total-bump (λ i. if elem i (required ++ c ∷ []) then 0 else length (d.dependency_types i))
            (λ i. if elem i required then 0 else length (d.dependency_types i)) c
            (length (d.dependency_types c)) classes classes_once
            (λ i. ground (arith, elem-snoc i required c)) in
        ground (arith, bump, h)

    -- `pending` are the classes of a type out of the queue that the inner loop still looks at.
    pub record Invariant (fuel : ℕ) (pending : List JobClass) (queue : List String)
        (required : List JobClass) : Type 0 where
      pub wanted : (t : String) → has t queue ≡ true → IsWanted t
      pub pending_needed : (c : JobClass) → elem c pending ≡ true → IsNeeded c
      pub pending_known : (c : JobClass) → elem c pending ≡ true → elem c classes ≡ true
      pub needed : (c : JobClass) → elem c required ≡ true → IsNeeded c
      pub outputs :
          (t : String)
          → has t output_types ≡ true
          → has t queue ≡ false
          → (c : JobClass) → elem c (job_map t) ≡ true
          → (elem c required || elem c pending) ≡ true
      pub dependencies :
          (child : JobClass) (t : String)
          → elem child required ≡ true
          → has t (d.dependency_types child) ≡ true
          → has t queue ≡ false
          → (c : JobClass) → elem c (job_map t) ≡ true
          → (elem c required || elem c pending) ≡ true
      pub once : NoTwice required
      pub fuelled : length queue + to_come required ≤ fuel

    skip-Invariant :
        (fuel : ℕ) (c : JobClass) (pending : List JobClass) (queue : List String)
        (required : List JobClass)
        → elem c required ≡ true
        → Invariant fuel (c ∷ pending) queue required
        → Invariant fuel pending queue required
    skip-Invariant fuel c pending queue required h inv = record {
      wanted = inv.wanted;
      pending_needed = λ i m. inv.pending_needed i (ground arith);
      pending_known = λ i m. inv.pending_known i (ground arith);
      needed = inv.needed;
      outputs = λ t o q i m. ground (arith, inv.outputs t o q i m);
      dependencies = λ k t r e q i m. ground (arith, inv.dependencies k t r e q i m);
      once = inv.once;
      fuelled = inv.fuelled;
    }

    add-Invariant :
        (fuel : ℕ) (c : JobClass) (pending : List JobClass) (queue : List String)
        (required : List JobClass)
        → elem c required ≡ false
        → Invariant fuel (c ∷ pending) queue required
        → Invariant fuel pending (queue ++ d.dependency_types c) (required ++ c ∷ [])
    add-Invariant fuel c pending queue required h inv = record {
      wanted = λ t q. elim (Bool-cases (has t queue)) [
        | inl queued ↦ inv.wanted t queued
        | inr added ↦ inr (
          c,
          inv.pending_needed c (ground arith),
          ground (arith, has-append t queue (d.dependency_types c)),
        )
      ];
      pending_needed = λ i m. inv.pending_needed i (ground arith);
      pending_known = λ i m. inv.pending_known i (ground arith);
      needed = λ i m. elim (Bool-cases (elem i required)) [
        | inl old ↦ inv.needed i old
        | inr added ↦
            let here : c ≡ i = ground (arith, elem-snoc i required c) in
            subst IsNeeded here (inv.pending_needed c (ground arith))
      ];
      outputs = λ t o q i m. ground (
        arith,
        inv.outputs t o (ground (arith, has-append t queue (d.dependency_types c))) i m,
        elem-snoc i required c,
      );
      dependencies = λ k t r e q i m. elim (Bool-cases (elem k required)) [
        | inl old ↦ ground (
          arith,
          elem-snoc i required c,
          inv.dependencies k t old e (ground (arith, has-append t queue (d.dependency_types c))) i
              m,
        )
        | inr added ↦
            let here : k ≡ c = ground (arith, elem-snoc k required c) in
            let dependency : has t (d.dependency_types c) ≡ true =
              subst (λ x. has t (d.dependency_types x) ≡ true) here e in
            absurd (ground (arith, has-append t queue (d.dependency_types c)))
      ];
      once =
          λ i. ground (arith, inv.once i, count-append i required (c ∷ []), elem-eq-ltb c required);
      fuelled = omega (
        arith,
        inv.fuelled,
        length-append queue (d.dependency_types c),
        to_come-snoc required c (inv.pending_known c (ground arith)) h,
      );
    }

    require_classes-Invariant :
        (fuel : ℕ) (pending : List JobClass) (queue : List String) (required : List JobClass)
        → Invariant fuel pending queue required
        → let step = require_classes d job_map pending queue required in
          Invariant fuel [] step.0 step.1
    unfolding require_classes
    require_classes-Invariant fuel [] queue required inv = inv
    require_classes-Invariant fuel (c ∷ pending) queue required inv =
        elim (Bool-cases (elem c required)) [
          | inl h ↦ rw h (
              require_classes-Invariant fuel pending queue required
                (skip-Invariant fuel c pending queue required h inv))
          | inr h ↦ rw h (
              require_classes-Invariant fuel pending (queue ++ d.dependency_types c)
                (required ++ c ∷ []) (add-Invariant fuel c pending queue required h inv))
        ]

    pop-Invariant :
        (fuel : ℕ) (t : String) (queue : List String) (required : List JobClass)
        → Invariant (suc fuel) [] (t ∷ queue) required
        → Invariant fuel (job_map t) queue required
    pop-Invariant fuel t queue required inv =
        let t_wanted = inv.wanted t (has-head t queue) in
        record {
          wanted = λ u q. inv.wanted u (ground arith);
          pending_needed = IsWanted-IsNeeded t t_wanted;
          pending_known = registered t;
          needed = inv.needed;
          outputs = λ u o q i m. elim (Bool-cases (u == t)) [
            | inl here ↦
                let e : u ≡ t = beq→eq here in
                let n : elem i (job_map t) ≡ true = subst (λ x. elem i (job_map x) ≡ true) e m in
                ground arith
            | inr other ↦ ground (arith, inv.outputs u o (ground arith) i m)
          ];
          dependencies = λ k u r e q i m. elim (Bool-cases (u == t)) [
            | inl here ↦
                let same : u ≡ t = beq→eq here in
                let n : elem i (job_map t) ≡ true = subst (λ x. elem i (job_map x) ≡ true) same m in
                ground arith
            | inr other ↦ ground (arith, inv.dependencies k u r e (ground arith) i m)
          ];
          once = inv.once;
          fuelled = omega (arith, inv.fuelled);
        }

    pub require_loop-Invariant :
        (fuel : ℕ) (queue : List String) (required : List JobClass)
        → Invariant fuel [] queue required
        → let end = require_loop d job_map fuel queue required in
          (end.0 ≡ []) × ((left : ℕ) × Invariant left [] [] end.1)
    unfolding require_loop
    require_loop-Invariant zero [] required inv = (refl, (zero, inv))
    require_loop-Invariant zero (t ∷ queue) required inv = absurd (omega (arith, inv.fuelled))
    require_loop-Invariant (suc fuel) [] required inv = (refl, (suc fuel, inv))
    require_loop-Invariant (suc fuel) (t ∷ queue) required inv =
        let step = require_classes d job_map (job_map t) queue required in
        require_loop-Invariant fuel step.0 step.1 (
          require_classes-Invariant fuel (job_map t) queue required
            (pop-Invariant fuel t queue required inv))
