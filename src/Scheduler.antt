-- ===== src/Scheduler.antt =====
-- indexer/jobs/job_scheduler.py: which job classes are run for the output types that are asked for,
-- and in which order. A class is named by its place among the discovered classes, and an output or
-- dependency type by its `type()`. A Python set has no order: a set of classes is a list with no
-- class twice, and what is proved holds for each order.
pub mod Counts
pub mod Graph
pub mod Order
pub mod Resolve
pub mod Required
pub mod Needed
use hemera_indexer.Prelude.{
  ℕ, zero, suc, ◌+◌, String, Bool, true, false, not, ◌||◌, List, [], ◌∷◌, ◌++◌, if◌then◌else◌, ◌==◌,
  nat_eq, string_eq, length,
}
use hemera_indexer.Prelude.Int.{ℤ, pos, ◌+ℤ◌, ◌-ℤ◌, int_eq}
use hemera_indexer.Errors.{Outcome, returns, raises, other}

abbrev pub JobClass : Type 0
JobClass = ℕ

-- `output_types` and `dependency_types` of each class.
pub record Declarations : Type 0 where
  pub output_types : JobClass → List String
  pub dependency_types : JobClass → List String

-- `defaultdict`: a function, with the default where nothing was put.
abbrev pub put {ℓ} : {V : Type ℓ} → JobClass → V → (JobClass → V) → JobClass → V
put key value map j = if j == key then value else map j

abbrev pub elem : JobClass → List JobClass → Bool
elem j [] = false
elem j (k ∷ ks) = if j == k then true else elem j ks

-- The tables that `discover_and_register_job_classes` fills.
pub record Registry : Type 0 where
  pub job_classes : List JobClass
  pub job_map : String → List JobClass
  pub dependency_map : String → List JobClass

abbrev pub append_at : String → JobClass → (String → List JobClass) → String → List JobClass
append_at key cls map t = if t == key then map t ++ cls ∷ [] else map t

abbrev pub append_all : List String → JobClass → (String → List JobClass) → String → List JobClass
append_all [] cls map = map
append_all (key ∷ keys) cls map = append_all keys cls (append_at key cls map)

unfoldable pub register_all : Declarations → List JobClass → Registry → Registry
register_all d [] r = r
register_all d (cls ∷ classes) r = register_all d classes (record {
  job_classes = r.job_classes ++ cls ∷ [];
  job_map = append_all (d.output_types cls) cls r.job_map;
  dependency_map = append_all (d.dependency_types cls) cls r.dependency_map;
})

unfoldable pub discover_and_register_job_classes : Declarations → List JobClass → Registry
unfolding register_all
discover_and_register_job_classes d classes =
    register_all d classes
      (record { job_classes = []; job_map = λ t. []; dependency_map = λ t. [] })

-- The graph from a class to those that need its output, and the number of edges into each class.
pub record JobGraph : Type 0 where
  pub job_graph : JobClass → List JobClass
  pub in_degree : JobClass → ℤ

module _ (d : Declarations) (job_map : String → List JobClass) where
  -- `get_required_job_classes`: the inner loop, and the queue on fuel.
  unfoldable pub require_classes :
      List JobClass → List String → List JobClass → List String × List JobClass
  require_classes [] job_queue required_job_classes = (job_queue, required_job_classes)
  require_classes (job_class ∷ rest) job_queue required_job_classes =
      if elem job_class required_job_classes
      then require_classes rest job_queue required_job_classes
      else require_classes rest (job_queue ++ d.dependency_types job_class)
          (required_job_classes ++ job_class ∷ [])

  unfoldable pub require_loop : ℕ → List String → List JobClass → List String × List JobClass
  unfolding require_classes
  require_loop zero job_queue required = (job_queue, required)
  require_loop (suc fuel) [] required = ([], required)
  require_loop (suc fuel) (output_type ∷ job_queue) required =
      let step = require_classes (job_map output_type) job_queue required in
      require_loop fuel step.0 step.1

  abbrev pub dependency_count : List JobClass → ℕ
  dependency_count [] = 0
  dependency_count (c ∷ cs) = length (d.dependency_types c) + dependency_count cs

  module _ (required_jobs : List JobClass) where
    unfoldable pub add_edge : JobClass → JobClass → JobGraph → JobGraph
    add_edge job_class parent_class g = record {
      job_graph = put parent_class (g.job_graph parent_class ++ job_class ∷ []) g.job_graph;
      in_degree = put job_class (g.in_degree job_class +ℤ pos 1) g.in_degree;
    }

    unfoldable pub add_parents : JobClass → List JobClass → JobGraph → JobGraph
    unfolding add_edge
    add_parents job_class [] g = g
    add_parents job_class (parent_class ∷ rest) g =
        add_parents job_class rest
          (if elem parent_class required_jobs then add_edge job_class parent_class g else g)

    unfoldable pub add_dependencies : JobClass → List String → JobGraph → JobGraph
    unfolding add_parents
    add_dependencies job_class [] g = g
    add_dependencies job_class (dependency ∷ rest) g =
        add_dependencies job_class rest (add_parents job_class (job_map dependency) g)

    unfoldable pub add_jobs : List JobClass → JobGraph → JobGraph
    unfolding add_dependencies
    add_jobs [] g = g
    add_jobs (job_class ∷ rest) g =
        add_jobs rest (add_dependencies job_class (d.dependency_types job_class) g)

    abbrev pub empty_graph : JobGraph
    empty_graph = record { job_graph = λ j. []; in_degree = λ j. pos 0 }

-- `get_required_job_classes(output_types)`: what is left of the queue, and the classes. Each class of
-- the registry enters its dependencies into the queue at most once.
unfoldable pub get_required_job_classes :
    Declarations → Registry → List String → List String × List JobClass
unfolding require_loop
get_required_job_classes d r output_types =
    require_loop d r.job_map (length output_types + dependency_count d r.job_map r.job_classes)
      output_types []

-- The loop over the children of a class that is put into the order.
unfoldable pub release :
    List JobClass → (JobClass → ℤ) → List JobClass → (JobClass → ℤ) × List JobClass
release [] in_degree sources = (in_degree, sources)
release (child_class ∷ rest) in_degree sources =
    let left = in_degree child_class -ℤ pos 1 in
    release rest (put child_class left in_degree)
      (if left == pos 0 then sources ++ child_class ∷ [] else sources)

-- `while sources:`, on fuel; the first part of the result is what is left of `sources`.
unfoldable pub sort_loop :
    ℕ
    → (JobClass → List JobClass)
    → List JobClass
    → List JobClass
    → (JobClass → ℤ)
    → List JobClass × List JobClass
unfolding release
sort_loop zero job_graph sources sorted_order in_degree = (sources, sorted_order)
sort_loop (suc fuel) job_graph [] sorted_order in_degree = ([], sorted_order)
sort_loop (suc fuel) job_graph (job_class ∷ sources) sorted_order in_degree =
    let step = release (job_graph job_class) in_degree sources in
    sort_loop fuel job_graph step.1 (sorted_order ++ job_class ∷ []) step.0

abbrev pub without_parents : (JobClass → ℤ) → List JobClass → List JobClass
without_parents in_degree [] = []
without_parents in_degree (j ∷ js) =
    if in_degree j == pos 0 then j ∷ without_parents in_degree js else without_parents in_degree js

-- `resolve_dependencies(required_jobs)`; the fuel is the number of the jobs.
unfoldable pub resolve_dependencies :
    Declarations → (String → List JobClass) → List JobClass → Outcome (List JobClass)
unfolding add_jobs sort_loop
resolve_dependencies d job_map required_jobs =
    let g = add_jobs d job_map required_jobs required_jobs (empty_graph d job_map required_jobs) in
    let sources = without_parents g.in_degree required_jobs in
    let sorted_order = (sort_loop (length required_jobs) g.job_graph sources [] g.in_degree).1 in
    if not (length sorted_order == length required_jobs) then raises other else returns sorted_order
