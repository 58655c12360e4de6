-- ===== src/Runner/Schedule.antt =====
-- internal/runner/schedule.go, internal/runner/workspace.go: the plan that a workspace run follows.
-- An order is the text of the flag, as in the source, and `procs` is what runtime.GOMAXPROCS answers.
pub mod Plan
pub mod Limits
use m.Base.{
  ℕ, zero, suc, ◌+◌, Bool, true, false, Option, none, some, List, [], ◌∷◌, Str, bytes, str_eq, find,
  length, keys, ltb, ◌==◌, ◌||◌, ◌&&◌, not, if◌then◌else◌,
}
use m.Base.Int.{ℤ, pos, negsuc}
use m.Base.Sort.{sort_strings}
use m.Apperr.{Code, Error, Result, ok, err, ◌>>=◌}
use m.Workspace.Graph.{WorkspaceGraph, Member, Induced, induced_subgraph, no_degrees, failure}
use m.Workspace.Kahn.{Degrees}
use m.Workspace.Order.{topo_order_for, reverse_topo_order, validate_selected_cycle}

abbrev pub order_topological : Str
order_topological = bytes "topological"

abbrev order_reverse_topo : Str
order_reverse_topo = bytes "reverse-topological"

abbrev pub order_parallel : Str
order_parallel = bytes "parallel"

abbrev pub order_sequential : Str
order_sequential = bytes "sequential"

-- `ParseWorkspaceOrder`
unfoldable parse_workspace_order : Str → Result Str
parse_workspace_order s =
    if str_eq s order_topological
      || (str_eq s order_reverse_topo || (str_eq s order_parallel || str_eq s order_sequential))
    then ok s
    else err (failure Code.usage (bytes "runner.workspace") s)

-- `orderPaths`
unfoldable pub order_paths : WorkspaceGraph → List Str → Str → Result (List Str)
order_paths g paths order =
    if str_eq order order_topological
    then topo_order_for g paths
    else if str_eq order order_reverse_topo
    then reverse_topo_order g paths
    else if str_eq order order_parallel || str_eq order order_sequential
    then ok (sort_strings paths)
    else err (failure Code.usage (bytes "runner.schedule") order)

-- `effectiveConcurrency`
unfoldable pub effective_concurrency : ℕ → ℤ → ℕ → ℤ
effective_concurrency procs requested zero = pos 0
effective_concurrency procs (negsuc k) (suc n) = negsuc 0
effective_concurrency procs (pos requested) (suc n) =
    let eff = if requested == 0 then procs else requested in
    let eff = if ltb eff 1 then 1 else eff in pos (if ltb (suc n) eff then suc n else eff)

-- `ValidateConcurrency`
unfoldable pub validate_concurrency : ℤ → Result (Unit {0})
validate_concurrency (pos n) = ok tt
validate_concurrency (negsuc n) = err (failure Code.usage (bytes "runner.workspace") [])

-- `ScheduledTask`
pub record ScheduledTask : Type 0 where
  pub index : ℕ
  pub path : Str
  pub name : Str

-- `Schedule`
pub record Schedule : Type 0 where
  pub tasks : List ScheduledTask
  pub edges : List (Str × List Str)
  pub in_degree : Degrees
  pub effective_concurrent : ℤ
  pub order : Str

-- The name that `BuildSchedule` gives the task of a path.
unfoldable pub task_name : WorkspaceGraph → Str → Str
task_name g p = elim (find p g.by_path) [
  | none ↦ p
  | some mem ↦ if str_eq mem.name [] then p else mem.name
]

-- The loop of `BuildSchedule` over the ordered paths.
unfoldable pub number_tasks : WorkspaceGraph → ℕ → List Str → List ScheduledTask
number_tasks g i [] = []
number_tasks g i (p ∷ ps) =
    record { index = i; path = p; name = task_name g p } ∷ number_tasks g (suc i) ps

-- `BuildInducedSubgraph`
unfoldable pub build_induced_subgraph : WorkspaceGraph → List Str → Result Induced
build_induced_subgraph g paths = validate_selected_cycle g paths >>= λ _. induced_subgraph g paths

-- `BuildSchedule`
unfoldable pub build_schedule : ℕ → WorkspaceGraph → List Str → Str → ℤ → Result Schedule
build_schedule procs g [] order requested =
    err (failure Code.not_found (bytes "runner.schedule") [])
build_schedule procs g (q ∷ qs) order requested = build_induced_subgraph g (q ∷ qs) >>= λ s.
    order_paths g (q ∷ qs) order >>= λ ordered. ok (record {
      tasks = number_tasks g 0 ordered;
      edges = s.edges;
      in_degree =
          if str_eq order order_parallel then no_degrees (keys s.in_degree) else s.in_degree;
      effective_concurrent =
          effective_concurrency procs requested (length (number_tasks g 0 ordered));
      order = order;
    })
