-- ===== src/Tests/Runs.antt =====
-- internal/runner/scheduler.go on a schedule of two tasks, `b` and then `a`, which waits for `b`.
use m.Base.{
  ℕ, ◌+◌, ◌≡◌, ◌≤◌, ◌<◌, refl, ap, ◌∙◌, Bool, true, false, none, [], ◌∷◌, bytes, str_eq, count,
  find_or, put, elem, find, str_lt, keys, has_prefix, drop, if◌then◌else◌, arith,
}
use m.Base.Int.{pos, dec, inc, is_zero}
use m.Base.Sort.{sort, sort_strings, insert}
use m.Runner.Schedule.{
  ScheduledTask, Schedule, build_schedule, build_induced_subgraph, order_paths, number_tasks,
  task_name, order_topological, effective_concurrency, validate_concurrency,
}
use m.Tests.Graphs.{graph, both}
use m.Apperr.{ok}
use m.Base.Space.{trim_space}
use m.Workspace.Graph.{
  induced_subgraph, induce, collect_edges, add_edges, selected_workspace_deps, restrict, add_edge,
  no_degrees, sort_edges, select, workspace_deps_of, targets, target_for_dep,
}
use m.Workspace.Kahn.{drain, relax, sources}
use m.Workspace.Order.{
  topo_order_for, validate_selected_cycle, kahn_order, kahn_count, all_ordered, all_visited,
  count_path, append_path,
}
use m.Runner.Schedule.Limits.{effective_concurrency_lem}
use m.Runner.Scheduler.{
  State, Status, result, status_at, is_idle, is_success, is_failed, start, initial, enqueue_ready,
  handle_result, release_dependents, release, send, pending_at, collect_ready, no_results,
}
use m.Runner.Scheduler.Step.{
  Reachable, begun, next, receive, begin, finish, enqueue, is_terminal, worker_count,
}
use m.Runner.Scheduler.Tally.{total}
use m.Runner.Scheduler.Flight.{occ}
use m.Runner.Scheduler.Invariant.{IsPlan}
use m.Runner.Scheduler.Statuses.{is_pending}
use m.Runner.Scheduler.Safety.{dependencies_first, flies_once, waits_for_all, failure_blocks}
use m.Runner.Scheduler.Bound.{busy, allowed, workers_bound}
use m.Runner.Scheduler.Outcome.{outcome, is_set}
use m.Runner.Scheduler.Summary.{IsTally, run_counts}

abbrev task_b : ScheduledTask
task_b = record { index = 0; path = bytes "b"; name = bytes "b" }

abbrev task_a : ScheduledTask
task_a = record { index = 1; path = bytes "a"; name = bytes "a" }

abbrev two_tasks : Schedule
two_tasks = record {
  tasks = task_b ∷ task_a ∷ [];
  edges = (bytes "b", bytes "a" ∷ []) ∷ [];
  in_degree = (bytes "a", pos 1) ∷ (bytes "b", pos 0) ∷ [];
  effective_concurrent = pos 2;
  order = order_topological;
}

two_tasks-IsPlan : IsPlan two_tasks
unfolding find_or count total str_eq
two_tasks-IsPlan = record {
  numbered = (refl, (refl, tt));
  placed = (refl, (refl, tt));
  degrees = λ v. ground arith;
}

-- `b` in the channel, with a worker, running, ended, and the worker after `enqueueReady`.
abbrev received : State
received = record (start two_tasks) { ready = []; taken = task_b ∷ [] }

abbrev running_b : State
running_b = record received { taken = []; active = task_b ∷ [] }

abbrev ended_b : Bool → Status → State
ended_b bail status =
    handle_result two_tasks bail (result task_b status (pos 0) none)
      (record running_b { active = []; owed = 1 })

abbrev looked : Bool → Status → State
looked bail status = enqueue_ready two_tasks (record (ended_b bail status) { owed = 0 })

looked-Reachable :
    (bail : Bool) (status : Status)
    → is_terminal status ≡ true
    → Reachable two_tasks bail 2 (looked bail status)
unfolding start initial enqueue_ready send collect_ready sort handle_result find_or str_eq is_zero
    status_at is_idle no_results pending_at
looked-Reachable bail status h =
    next
      (next
        (next (next begun (receive task_b [] refl (omega arith))) (begin task_b [] [] refl refl))
        (finish task_b [] [] status (pos 0) none refl h))
      (enqueue 0 refl)

-- What the runs come to: `a` is sent when `b` is done, and stays behind when `b` failed.
after_done : (status_at 1 (looked true Status.done).results ≡ Status.pending)
unfolding start initial enqueue_ready send collect_ready sort handle_result release_dependents
    release find_or put str_eq is_zero dec status_at is_idle is_success is_failed no_results
    pending_at insert
after_done = refl

after_failed : status_at 0 (looked false Status.failed).results ≡ Status.failed
unfolding start initial enqueue_ready send collect_ready sort handle_result release_dependents
    release find_or put str_eq is_zero dec status_at is_idle is_success is_failed no_results
    pending_at insert
after_failed = refl

one_edge : 0 < count (bytes "a") (find_or [] (bytes "b") two_tasks.edges)
unfolding find_or str_eq count
one_edge = omega arith

dependencies_first_example : is_success (status_at 0 (looked true Status.done).results) ≡ true
dependencies_first_example =
    dependencies_first two_tasks true 2 (looked true Status.done) two_tasks-IsPlan
      (looked-Reachable true Status.done (unfold is_terminal in refl)) 1 0 task_a task_b refl refl
      (ap is_idle after_done ∙ unfold is_idle in refl) one_edge

flies_once_example :
    occ 1 (looked true Status.done).ready
      + (occ 1 (looked true Status.done).taken + occ 1 (looked true Status.done).active)
    ≡ (if is_pending (status_at 1 (looked true Status.done).results) then 1 else 0)
flies_once_example =
    flies_once two_tasks true 2 (looked true Status.done) two_tasks-IsPlan
      (looked-Reachable true Status.done (unfold is_terminal in refl)) 1

waits_for_all_example : (looked true Status.done).terminal < 2
waits_for_all_example =
    waits_for_all two_tasks true 2 (looked true Status.done) two_tasks-IsPlan
      (looked-Reachable true Status.done (unfold is_terminal in refl)) 1 task_a refl
      (ap is_terminal after_done ∙ unfold is_terminal in refl)

failure_blocks_example :
    (is_idle (status_at 1 (looked false Status.failed).results) ≡ true)
    × ((looked false Status.failed).terminal < 2)
    × ((looked false Status.failed).bailed ≡ false)
failure_blocks_example =
    failure_blocks two_tasks 2 (looked false Status.failed) two_tasks-IsPlan
      (looked-Reachable false Status.failed (unfold is_terminal in refl)) 1 0 task_a task_b refl
      refl one_edge after_failed

two_tasks-built : build_schedule 8 graph both order_topological (pos 0) ≡ ok two_tasks
unfolding build_schedule build_induced_subgraph order_paths topo_order_for induced_subgraph select
    validate_selected_cycle str_eq elem find find_or kahn_order kahn_count all_ordered all_visited
    drain relax sources count_path append_path sort_strings sort insert str_lt keys put number_tasks
    task_name effective_concurrency is_zero dec workspace_deps_of targets target_for_dep trim_space
    has_prefix drop induce collect_edges add_edges selected_workspace_deps restrict add_edge
    no_degrees inc sort_edges
two_tasks-built = refl

workers_bound_example :
    (worker_count two_tasks ≡ allowed 8 (pos 0) order_topological 2)
    × (busy (looked true Status.done) ≤ allowed 8 (pos 0) order_topological 2)
unfolding worker_count str_eq
workers_bound_example =
    workers_bound 8 graph both order_topological (pos 0) two_tasks true (looked true Status.done)
      two_tasks-built (looked-Reachable true Status.done (unfold is_terminal in refl))

run_counts_example :
    IsTally false two_tasks.tasks
      (looked true Status.failed).results
      (outcome two_tasks true none (looked true Status.failed)).0
unfolding is_set
run_counts_example =
    run_counts two_tasks true 2 (looked true Status.failed) none two_tasks-IsPlan
      (looked-Reachable true Status.failed (unfold is_terminal in refl))

effective_concurrency_lem_example :
    (e : ℕ) × (effective_concurrency 8 (pos 3) 5 ≡ pos e)
    × (0 < e)
    × (e ≤ 5)
    × ((r : ℕ) → pos 3 ≡ pos r → 0 < r → r ≤ 5 → e ≡ r)
unfolding validate_concurrency
effective_concurrency_lem_example = effective_concurrency_lem 8 5 (pos 3) refl (omega arith)
