-- ===== src/Runner/Scheduler.antt =====
-- internal/runner/scheduler.go: the state of a workspace run, and what its goroutines do to it. A
-- step is what one goroutine does while it holds the mutex, or one receive from `readyCh`; the
-- steps are those until the main goroutine closes `readyCh`.
pub mod Step
pub mod Statuses
pub mod Tally
pub mod Flight
pub mod Invariant
pub mod Kept
pub mod Safety
pub mod Bound
pub mod Built
pub mod Outcome
pub mod Running
pub mod Summary
use m.Base.{
  ℕ, zero, suc, ◌+◌, ◌<◌, ◌≡◌, Bool, true, false, Option, none, some, List, [], ◌∷◌, ◌++◌, Str,
  str_lt, find_or, put, length, set, not, ◌&&◌, ◌||◌, if◌then◌else◌,
}
use m.Base.Int.{ℤ, pos, dec, is_zero}
use m.Base.Sort.{sort}
use m.Apperr.{Failure, exit_code}
use m.Workspace.Kahn.{Degrees}
use m.Runner.Schedule.{ScheduledTask, Schedule}

-- `TaskStatus`; `idle` is the empty string of a result not yet written.
pub data Status : Type 0 where
  idle pending running done failed skipped cancelled not_run : Status

unfoldable pub is_idle : Status → Bool
is_idle Status.idle = true
is_idle _ = false

-- `res.Status == StatusDone || res.Status == StatusSkipped`
unfoldable pub is_success : Status → Bool
is_success Status.done = true
is_success Status.skipped = true
is_success _ = false

unfoldable pub is_failed : Status → Bool
is_failed Status.failed = true
is_failed _ = false

-- `WorkspaceTaskResult`; the selector and the root of a `WorkspaceTask` are those of the run.
pub record TaskResult : Type 0 where
  pub task : ScheduledTask
  pub status : Status
  pub exit_code : ℤ
  pub error : Option Failure

-- The variables of `runScheduler`. `ready` is what `readyCh` holds; `taken` are the tasks received
-- from it whose worker has not yet looked at `bailed`, `active` those that run; `owed` counts the
-- workers between `handleResult` and `enqueueReady`; `stopped` says that the context is done.
pub record State : Type 0 where
  pub results : List TaskResult
  pub remaining : Degrees
  pub ready : List ScheduledTask
  pub taken : List ScheduledTask
  pub active : List ScheduledTask
  pub owed : ℕ
  pub bailed : Bool
  pub trigger_err : Option Failure
  pub trigger_exit : ℤ
  pub terminal : ℕ
  pub stopped : Bool

abbrev pub result : ScheduledTask → Status → ℤ → Option Failure → TaskResult
result t status code e = record { task = t; status = status; exit_code = code; error = e }

abbrev no_task : ScheduledTask
no_task = record { index = 0; path = []; name = [] }

-- `make([]WorkspaceTaskResult, len(sched.Tasks))`
unfoldable pub no_results : List ScheduledTask → List TaskResult
no_results [] = []
no_results (t ∷ ts) = result no_task Status.idle (pos 0) none ∷ no_results ts

unfoldable pub status_at : ℕ → List TaskResult → Status
status_at i [] = Status.idle
status_at zero (r ∷ rs) = r.status
status_at (suc i) (r ∷ rs) = status_at i rs

-- `for _, dep := range sched.Edges[path] { remaining[dep]-- }`
unfoldable pub release : List Str → Degrees → Degrees
release [] remaining = remaining
release (d ∷ ds) remaining = release ds (put d (dec (find_or (pos 0) d remaining)) remaining)

-- `releaseDependents`
unfoldable pub release_dependents : Schedule → Str → Bool → Degrees → Degrees
release_dependents sched path success remaining =
    if success then release (find_or [] path sched.edges) remaining else remaining

-- `handleResult`, for the result of a task that ran.
unfoldable pub handle_result : Schedule → Bool → TaskResult → State → State
handle_result sched bail res s =
    let trips = is_failed res.status && (bail && not s.bailed) in
    let code = if is_zero res.exit_code then exit_code res.error else res.exit_code in
    record s {
      results = set s.results res.task.index res;
      terminal = suc s.terminal;
      remaining = release_dependents sched res.task.path (is_success res.status) s.remaining;
      bailed = trips || s.bailed;
      trigger_err = if trips then res.error else s.trigger_err;
      trigger_exit = if trips then code else s.trigger_exit;
      stopped = trips || s.stopped;
    }

-- The tasks that `enqueueReady` finds, in the order of the schedule.
unfoldable pub collect_ready : State → List ScheduledTask → List ScheduledTask
collect_ready s [] = []
collect_ready s (t ∷ ts) =
    if is_zero (find_or (pos 0) t.path s.remaining) && is_idle (status_at t.index s.results)
    then t ∷ collect_ready s ts
    else collect_ready s ts

abbrev pub by_path : ScheduledTask → ScheduledTask → Bool
by_path a b = str_lt a.path b.path

-- The result that stands at the index, with the status Pending.
unfoldable pub pending_at : ℕ → List TaskResult → TaskResult
pending_at i [] = result no_task Status.pending (pos 0) none
pending_at zero (r ∷ rs) = record r { status = Status.pending }
pending_at (suc i) (r ∷ rs) = pending_at i rs

-- `results[t.Index].Status = StatusPending; readyCh <- t`. The channel has room for every task.
unfoldable pub send : List ScheduledTask → State → State
send [] s = s
send (t ∷ ts) s = send ts (record s {
  results = set s.results t.index (pending_at t.index s.results);
  ready = s.ready ++ t ∷ [];
})

-- `enqueueReady`
unfoldable pub enqueue_ready : Schedule → State → State
enqueue_ready sched s = if s.bailed then s else send (sort by_path (collect_ready s sched.tasks)) s

-- The variables as `runScheduler` declares them.
unfoldable pub initial : Schedule → State
initial sched = record {
  results = no_results sched.tasks;
  remaining = sched.in_degree;
  ready = [];
  taken = [];
  active = [];
  owed = 0;
  bailed = false;
  trigger_err = none;
  trigger_exit = pos 0;
  terminal = 0;
  stopped = false;
}

-- The state when the main goroutine has called `enqueueReady` first.
unfoldable pub start : Schedule → State
start sched = enqueue_ready sched (initial sched)
