-- ===== src/Tests/Scheduling.antt =====
-- The job scheduler with a job for blocks, one for logs and one for tokens.
use hemera_indexer.Prelude.{
  has, ◌&&◌, ℕ, zero, suc, ◌≡◌, ◌↔◌, refl, ◌⊎◌, String, true, List, [], ◌∷◌, arith, string_eq,
}
use hemera_indexer.Prelude.Int.{◌+ℤ◌, ◌-ℤ◌}
use hemera_indexer.Errors.{returns, raises, other}
use hemera_indexer.Scheduler.{
  JobClass, Declarations, elem, discover_and_register_job_classes, get_required_job_classes,
  resolve_dependencies,
}
use hemera_indexer.Scheduler.Counts.{count, NoTwice}
use hemera_indexer.Scheduler.Required.{IsNeeded}
use hemera_indexer.Scheduler.Needed.{get_required_job_classes-least}
use hemera_indexer.Scheduler.Resolve.{IsOrdered, IsRanking, resolve_dependencies-sorted}

abbrev outputs : JobClass → List String
outputs zero = "block" ∷ []
outputs (suc zero) = "log" ∷ []
outputs (suc (suc _)) = "token" ∷ []

abbrev dependencies : JobClass → List String
dependencies zero = []
dependencies (suc zero) = "block" ∷ []
dependencies (suc (suc _)) = "log" ∷ "block" ∷ []

abbrev declared : Declarations
declared = record { output_types = outputs; dependency_types = dependencies }

abbrev classes : List JobClass
classes = 2 ∷ 1 ∷ 0 ∷ []

classes-NoTwice : NoTwice classes
classes-NoTwice j = ground arith

three_ordered :
    resolve_dependencies declared
      (discover_and_register_job_classes declared classes).job_map
      classes
    ≡ returns (0 ∷ 1 ∷ 2 ∷ [])
unfolding resolve_dependencies discover_and_register_job_classes ◌+ℤ◌ ◌-ℤ◌
three_ordered = refl

logs_required :
    get_required_job_classes declared
      (discover_and_register_job_classes declared classes)
      ("log" ∷ [])
    ≡ ([], 1 ∷ 0 ∷ [])
unfolding get_required_job_classes discover_and_register_job_classes
logs_required = refl

resolve_dependencies-sorted_example :
    let job_map = (discover_and_register_job_classes declared classes).job_map in
    ((order : List JobClass) × (resolve_dependencies declared job_map classes ≡ returns order)
      × ((j : JobClass) → count j order ≡ count j classes)
      × IsOrdered declared job_map classes order)
    ⊎ ((resolve_dependencies declared job_map classes ≡ raises other)
        × ((rank : JobClass → ℕ) → ¬ IsRanking declared job_map classes rank))
resolve_dependencies-sorted_example =
    resolve_dependencies-sorted declared
      (discover_and_register_job_classes declared classes).job_map classes classes-NoTwice

get_required_job_classes-least_example :
    let r = discover_and_register_job_classes declared classes in
    let result = get_required_job_classes declared r ("token" ∷ []) in
    ((t : String) (c : JobClass)
      → elem c (r.job_map t) ≡ (elem c classes && has t (declared.output_types c)))
    × (result.0 ≡ [])
    × NoTwice result.1
    × ((c : JobClass) → (elem c result.1 ≡ true) ↔ IsNeeded declared r.job_map ("token" ∷ []) c)
get_required_job_classes-least_example =
    get_required_job_classes-least declared classes ("token" ∷ []) classes-NoTwice
