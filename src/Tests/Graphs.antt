-- ===== src/Tests/Graphs.antt =====
-- internal/workspace/graph.go on a workspace of two members, `a` and `b`, where `a` depends on `b`.
use m.Base.{
  keys, put, ◌≡◌, ◌⊎◌, refl, true, false, Option, none, some, List, [], ◌∷◌, Str, bytes, str_eq,
  elem, find, if◌then◌else◌, arith, drop, has_prefix, str_lt, Bool-cases, inl, inr,
}
use m.Base.Int.{pos}
use m.Base.Sort.{sort_strings, sort, insert}
use m.Base.Space.{trim_space}
use m.Apperr.{Error, ok, err}
use m.Workspace.Filter.{dependency_closure, dependent_closure, dependents_of}
use m.Workspace.Filter.Closure.{
  ClosesTo, dependency_closure-IsClosureOf, dependent_closure-IsClosureOf,
}
use m.Workspace.Graph.{
  build_graph, Document, Member, WorkspaceGraph, workspace_deps_of, targets, target_for_dep,
}
use m.Workspace.Order.{topo_order_for, validate_selected_cycle, cyclic}
use m.Workspace.Order.Select.{IsKnown, root_path}
use m.Workspace.Order.Decide.{IsOrder, topo_order_for_decides}
use m.Workspace.Order.Validate.{
  succeeds, validate_selected_cycle-topo_order_for, topo_order_for_unknown, unknown_path,
}
use m.Runner.Schedule.{Schedule, build_schedule, order_topological}
use m.Runner.Schedule.Plan.{paths_of}
use m.Runner.Scheduler.Invariant.{IsPlan}
use m.Runner.Scheduler.Built.{build_schedule_lem}

abbrev path_a : Str
path_a = bytes "a"

abbrev path_b : Str
path_b = bytes "b"

abbrev document : Str → List (Str × Str) → Document
document name deps = record {
  name = name;
  version = bytes "1.0.0";
  dependencies = deps;
  dev_dependencies = [];
  optional_dependencies = [];
}

abbrev member : Str → Member
member name = record { name = name; version = bytes "1.0.0"; path = name }

abbrev load : Str → Option Document
load p =
    if str_eq p path_a
    then some (document path_a ((path_b, bytes "workspace:*") ∷ []))
    else if str_eq p path_b
    then some (document path_b [])
    else none

abbrev pub graph : WorkspaceGraph
graph = record {
  root = bytes "/w";
  index_members = path_a ∷ path_b ∷ [];
  load = load;
  members = (path_a, member path_a) ∷ (path_b, member path_b) ∷ [];
  by_path = (path_a, member path_a) ∷ (path_b, member path_b) ∷ [];
}

abbrev pub both : List Str
both = path_a ∷ path_b ∷ []

deps_of_a : workspace_deps_of graph path_a ≡ path_b ∷ []
unfolding workspace_deps_of targets target_for_dep str_eq find trim_space has_prefix drop elem
    sort_strings sort insert str_lt
deps_of_a = refl

both-IsKnown : IsKnown graph both
unfolding find elem
both-IsKnown = record {
  member = λ p h k. elim (Bool-cases (str_eq p path_a)) [
    | inl is_a ↦ (member path_a, rw is_a refl)
    | inr not_a ↦ (member path_b, ground arith)
  ];
}

topo_order_for_decides_example :
    ((order : List Str) × (topo_order_for graph both ≡ ok order) × IsOrder graph both order)
    ⊎ ((topo_order_for graph both ≡ err (cyclic (bytes "workspace.topo") graph))
        × ((order : List Str) → ¬ IsOrder graph both order))
topo_order_for_decides_example = topo_order_for_decides graph both both-IsKnown

validate_selected_cycle-topo_order_for_example :
    succeeds (validate_selected_cycle graph both) ≡ succeeds (topo_order_for graph both)
validate_selected_cycle-topo_order_for_example = validate_selected_cycle-topo_order_for graph both

abbrev with_unknown : List Str
with_unknown = path_a ∷ bytes "x" ∷ []

topo_order_for_unknown_example :
    (q : Str) × (topo_order_for graph with_unknown ≡ err (unknown_path q))
    × (elem q with_unknown ≡ true)
    × (str_eq q root_path ≡ false)
    × (find q graph.by_path ≡ none)
topo_order_for_unknown_example =
    topo_order_for_unknown graph with_unknown (bytes "x") (unfold elem str_eq in refl)
      (unfold str_eq in refl) (unfold find str_eq in refl)

build_schedule_lem_example :
    ((sched : Schedule) × (build_schedule 8 graph both order_topological (pos 0) ≡ ok sched)
      × IsPlan sched
      × IsOrder graph both (paths_of sched.tasks))
    ⊎ ((e : Error) × (build_schedule 8 graph both order_topological (pos 0) ≡ err e)
        × ((order : List Str) → ¬ IsOrder graph both order))
build_schedule_lem_example = build_schedule_lem 8 graph path_a (path_b ∷ []) (pos 0) both-IsKnown

built : build_graph graph.root graph.index_members load ≡ ok graph
unfolding str_eq find elem
built = unfold build_graph put in refl

dependency_closure-IsClosureOf_example :
    ClosesTo (workspace_deps_of graph) (path_a ∷ []) (dependency_closure graph (path_a ∷ []))
dependency_closure-IsClosureOf_example =
    dependency_closure-IsClosureOf graph.root graph.index_members load graph (path_a ∷ []) built

dependent_closure-IsClosureOf_example :
    ClosesTo
      (λ (p : Str). dependents_of graph p (keys graph.by_path))
      (path_b ∷ [])
      (dependent_closure graph (path_b ∷ []))
dependent_closure-IsClosureOf_example = dependent_closure-IsClosureOf graph (path_b ∷ [])
