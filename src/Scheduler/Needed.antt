-- ===== src/Scheduler/Needed.antt =====
-- The classes that a run needs, by the tables that the scheduler registers.
use hemera_indexer.Prelude.{
  has, ℕ, ◌+◌, ◌≡◌, ◌↔◌, refl, sym, inl, String, true, ◌&&◌, ◌||◌, List, [], ◌∷◌, ◌++◌, arith, ◌==◌,
  nat_eq, string_eq, length, append-nil, append_assoc,
}
use hemera_indexer.Scheduler.{
  JobClass, Declarations, Registry, elem, register_all, discover_and_register_job_classes,
  append_at, append_all, dependency_count, get_required_job_classes,
}
use hemera_indexer.Scheduler.Counts.{total, NoTwice}
use hemera_indexer.Scheduler.Required.{
  elem-snoc, IsNeeded, for_output, for_job, Invariant, require_loop-Invariant,
}

elem-append_all :
    (keys : List String) (cls c : JobClass) (map : String → List JobClass) (t : String)
    → elem c (append_all keys cls map t) ≡ (elem c (map t) || (c == cls && has t keys))
elem-append_all [] cls c map t = ground arith
elem-append_all (key ∷ keys) cls c map t =
    ground (arith, elem-append_all keys cls c (append_at key cls map) t, elem-snoc c (map t) cls)

elem-register_all :
    (d : Declarations) (classes : List JobClass) (r : Registry) (t : String) (c : JobClass)
    → elem c ((register_all d classes r).job_map t)
      ≡ (elem c (r.job_map t) || (elem c classes && has t (d.output_types c)))
unfolding register_all
elem-register_all d [] r t c = ground arith
elem-register_all d (k ∷ ks) r t c =
    let r2 = register_all d (k ∷ []) r in
    ground
      (arith, elem-register_all d ks r2 t c, elem-append_all (d.output_types k) k c r.job_map t)

job_classes-register_all :
    (d : Declarations) (classes : List JobClass) (r : Registry)
    → (register_all d classes r).job_classes ≡ r.job_classes ++ classes
unfolding register_all
job_classes-register_all d [] r = sym (append-nil r.job_classes)
job_classes-register_all d (k ∷ ks) r =
    rw (job_classes-register_all d ks (register_all d (k ∷ []) r))
      (append_assoc r.job_classes (k ∷ []) ks)

total-dependency_count :
    (d : Declarations) (job_map : String → List JobClass) (cs : List JobClass)
    → total (λ c. length (d.dependency_types c)) cs ≡ dependency_count d job_map cs
total-dependency_count d job_map [] = refl
total-dependency_count d job_map (c ∷ cs) = omega (arith, total-dependency_count d job_map cs)

IsNeeded-elem :
    (d : Declarations) (job_map : String → List JobClass) (output_types : List String)
    (classes : List JobClass) (once : NoTwice classes)
    (registered : (t : String) (c : JobClass) → elem c (job_map t) ≡ true → elem c classes ≡ true)
    (left : ℕ) (required : List JobClass)
    → Invariant d job_map output_types classes once registered left [] [] required
    → {c : JobClass} → IsNeeded d job_map output_types c
    → elem c required ≡ true
IsNeeded-elem d job_map outs classes once registered left required inv (for_output t h c m) =
    ground (arith, inv.outputs t h refl c m)
IsNeeded-elem d job_map outs classes once registered left required inv (for_job child n t h c m) =
    let child_in = IsNeeded-elem d job_map outs classes once registered left required inv n in
    ground (arith, inv.dependencies child t child_in h refl c m)

-- The scheduler registers a class for exactly the types that it declares as its output. The queue of the
-- required types then runs empty, and it leaves, each once, exactly the classes that are needed: those
-- registered for one of the required types, and those for a type that a needed class depends on.
pub get_required_job_classes-least :
    (d : Declarations) (classes : List JobClass) (output_types : List String)
    → NoTwice classes
    → let r = discover_and_register_job_classes d classes in
      let result = get_required_job_classes d r output_types in
      ((t : String) (c : JobClass)
        → elem c (r.job_map t) ≡ (elem c classes && has t (d.output_types c)))
      × (result.0 ≡ [])
      × NoTwice result.1
      × ((c : JobClass) → (elem c result.1 ≡ true) ↔ IsNeeded d r.job_map output_types c)
unfolding discover_and_register_job_classes get_required_job_classes
get_required_job_classes-least d classes output_types classes_once =
    let r = discover_and_register_job_classes d classes in
    let empty : Registry = record {
      job_classes = [];
      job_map = λ t. [];
      dependency_map = λ t. [];
    } in
    let registered : (t : String) (c : JobClass)
        → elem c (r.job_map t) ≡ true
        → elem c classes ≡ true =
      λ t c m. ground (arith, elem-register_all d classes empty t c) in
    let fuel = length output_types + dependency_count d r.job_map r.job_classes in
    let start : Invariant d r.job_map output_types classes classes_once registered fuel []
        output_types [] =
      record {
        wanted = λ t h. inl h;
        pending_needed = λ c m. absurd cc;
        pending_known = λ c m. absurd cc;
        needed = λ c m. absurd cc;
        outputs = λ t h q c m. absurd cc;
        dependencies = λ k t h e q c m. absurd cc;
        once = λ j. omega arith;
        fuelled =
            rw (job_classes-register_all d classes empty)
              (omega (arith, total-dependency_count d r.job_map classes));
      } in
    let (done, (left, inv)) =
      require_loop-Invariant d r.job_map output_types classes classes_once registered fuel
        output_types [] start in
    (
      λ t c. ground (arith, elem-register_all d classes empty t c),
      done,
      inv.once,
      λ c. (
        inv.needed c,
        IsNeeded-elem d r.job_map output_types classes classes_once registered left _ inv,
      ),
    )
