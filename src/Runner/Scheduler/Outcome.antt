-- ===== src/Runner/Scheduler/Outcome.antt =====
-- internal/runner/scheduler.go: what `runScheduler` makes of the results when the workers are gone.
-- `ctx_err` is the error of the caller's context, if it is done.
use m.Base.{
  ℕ, suc, Bool, true, false, not, ◌&&◌, Option, none, some, List, [], ◌∷◌, ltb, if◌then◌else◌,
}
use m.Base.Int.{ℤ, pos, is_zero}
use m.Base.Sort.{sort}
use m.Apperr.{Code, Failure, exit_code, exit_for_code}
use m.Runner.Schedule.{ScheduledTask, Schedule}
use m.Runner.Scheduler.{State, Status, TaskResult, result, is_failed}

-- `WorkspaceResult`
pub record WorkspaceResult : Type 0 where
  pub tasks : List TaskResult
  pub effective_concurrent : ℤ
  pub completed : ℕ
  pub failed : ℕ
  pub cancelled : ℕ
  pub skipped : ℕ
  pub not_run : ℕ
  pub exit_code : ℤ

-- The result that a task without one is given.
unfoldable pub settle : Status → ScheduledTask → Status → TaskResult → TaskResult
settle status t Status.idle r = result t status (pos 0) none
settle status t Status.pending r = result t status (pos 0) none
settle status t _ r = r

-- The loop over `results` after `wg.Wait()`.
unfoldable pub settle_all : Status → List ScheduledTask → List TaskResult → List TaskResult
settle_all status [] rs = rs
settle_all status (t ∷ ts) [] = []
settle_all status (t ∷ ts) (r ∷ rs) = settle status t r.status r ∷ settle_all status ts rs

-- The `switch` of `summarizeResults`.
unfoldable pub count_result : Status → WorkspaceResult → WorkspaceResult
count_result Status.done ws = record ws { completed = suc ws.completed }
count_result Status.failed ws = record ws { failed = suc ws.failed }
count_result Status.cancelled ws = record ws { cancelled = suc ws.cancelled }
count_result Status.skipped ws = record ws { skipped = suc ws.skipped }
count_result Status.not_run ws = record ws { not_run = suc ws.not_run }
count_result _ ws = ws

unfoldable pub count_results : List TaskResult → WorkspaceResult → WorkspaceResult
count_results [] ws = ws
count_results (r ∷ rs) ws = count_results rs (count_result r.status ws)

-- `summarizeResults`
unfoldable pub summarize_results : List TaskResult → ℤ → WorkspaceResult
summarize_results results eff_conc = count_results results (record {
  tasks = results;
  effective_concurrent = eff_conc;
  completed = 0;
  failed = 0;
  cancelled = 0;
  skipped = 0;
  not_run = 0;
  exit_code = pos 0;
})

-- The loop of `continueExit` over the sorted results.
unfoldable pub first_failed : List TaskResult → ℤ × Option Failure
first_failed [] = (pos 0, none)
first_failed (r ∷ rs) =
    let rest = first_failed rs in
    if is_failed r.status
    then (if is_zero r.exit_code then exit_code r.error else r.exit_code, r.error)
    else rest

abbrev by_index : TaskResult → TaskResult → Bool
by_index a b = ltb a.task.index b.task.index

-- `continueExit`
unfoldable pub continue_exit : List TaskResult → ℤ × Option Failure
continue_exit results = first_failed (sort by_index results)

-- `ctx.Err() != nil`, `triggerErr != nil`
unfoldable pub is_set : Option Failure → Bool
is_set none = false
is_set (some _) = true

-- The choice of the exit code and the error, for `externalCancel` and `opts.Bail`.
unfoldable pub conclude :
    Bool
    → Bool
    → Option Failure
    → State
    → ℤ × Option Failure
    → WorkspaceResult
    → WorkspaceResult × Option Failure
conclude true bail ctx_err s last ws =
    (record ws { exit_code = pos (exit_for_code Code.cancelled) }, ctx_err)
conclude false true ctx_err s last ws =
    (if is_set s.trigger_err then record ws { exit_code = s.trigger_exit } else ws, s.trigger_err)
conclude false false ctx_err s last ws = (record ws { exit_code = last.0 }, last.1)

-- The end of `runScheduler`: its result and its error.
unfoldable pub outcome : Schedule → Bool → Option Failure → State → WorkspaceResult × Option Failure
outcome sched bail ctx_err s =
    let external_cancel = is_set ctx_err && not s.bailed in
    let status = if external_cancel then Status.cancelled else Status.not_run in
    let results = settle_all status sched.tasks s.results in
    conclude external_cancel bail ctx_err s (continue_exit results)
      (summarize_results results sched.effective_concurrent)
