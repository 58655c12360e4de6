-- ===== src/Runner/Scheduler/Summary.antt =====
-- internal/runner/scheduler.go: the counts of `summarizeResults` at the end of a run.
use m.Base.{
  ℕ, ◌+◌, ◌≡◌, ◌≢◌, refl, ap, Bool, true, false, not, ◌&&◌, Option, List, [], ◌∷◌, length, subst,
  if◌then◌else◌, ◌==◌, arith,
}
use m.Base.Int.{ℤ}
use m.Apperr.{Failure}
use m.Runner.Schedule.{ScheduledTask, Schedule}
use m.Runner.Scheduler.{State, Status, TaskResult}
use m.Runner.Scheduler.Step.{Reachable}
use m.Runner.Scheduler.Invariant.{IsPlan}
use m.Runner.Scheduler.Kept.{reach-Inv}
use m.Runner.Scheduler.Running.{NoneRunning, reach-NoneRunning}
use m.Runner.Scheduler.Outcome.{
  WorkspaceResult, settle, settle_all, count_result, count_results, summarize_results,
  continue_exit, is_set, conclude, outcome,
}

-- The sum of the counts of a summary.
abbrev pub counted : WorkspaceResult → ℕ
counted ws = ws.completed + ws.failed + ws.cancelled + ws.skipped + ws.not_run

abbrev rank : Status → ℕ
rank Status.idle = 0
rank Status.pending = 1
rank Status.running = 2
rank Status.done = 3
rank Status.failed = 4
rank Status.cancelled = 5
rank Status.skipped = 6
rank Status.not_run = 7

-- One if the second status is the first, else zero.
abbrev hit : Status → Status → ℕ
hit wanted st = if rank st == rank wanted then 1 else 0

-- How many of the results have a status.
abbrev pub with_status : Status → List TaskResult → ℕ
with_status wanted [] = 0
with_status wanted (r ∷ rs) = hit wanted r.status + with_status wanted rs

-- The results of the tasks that nobody ran.
abbrev left : List TaskResult → ℕ
left rs = with_status Status.idle rs + with_status Status.pending rs

-- The counts that some results add to those of a summary: each status to its own counter, and the
-- tasks that nobody ran to the cancelled ones, when the caller cancelled, or to those not run.
record Adds (external : Bool) (rs : List TaskResult) (ws new : WorkspaceResult) : Type 0 where
  completed : new.completed ≡ ws.completed + with_status Status.done rs
  failed : new.failed ≡ ws.failed + with_status Status.failed rs
  skipped : new.skipped ≡ ws.skipped + with_status Status.skipped rs
  cancelled :
      new.cancelled
      ≡ ws.cancelled + (with_status Status.cancelled rs + (if external then left rs else 0))
  not_run :
      new.not_run ≡ ws.not_run + (with_status Status.not_run rs + (if external then 0 else left rs))

-- What a summary says of the results that the workers left: every counter is the number of the
-- results with its status, the tasks that nobody ran are cancelled or not run, and each task is
-- counted.
pub record IsTally (external : Bool) (tasks : List ScheduledTask) (rs : List TaskResult)
    (ws : WorkspaceResult) : Type 0 where
  completed : ws.completed ≡ with_status Status.done rs
  failed : ws.failed ≡ with_status Status.failed rs
  skipped : ws.skipped ≡ with_status Status.skipped rs
  cancelled : ws.cancelled ≡ with_status Status.cancelled rs + (if external then left rs else 0)
  not_run : ws.not_run ≡ with_status Status.not_run rs + (if external then 0 else left rs)
  all : counted ws ≡ length tasks

-- The status of the tasks that nobody ran.
abbrev status_left : Bool → Status
status_left external = if external then Status.cancelled else Status.not_run

-- The status of a result behind the loop over `results`.
abbrev settled : Status → Status → Status
settled status Status.idle = status
settled status Status.pending = status
settled status st = st

settle-settled :
    (status : Status) (t : ScheduledTask) (st : Status) (r : TaskResult)
    → r.status ≡ st
    → (settle status t st r).status ≡ settled status st
unfolding settle
settle-settled status t Status.idle r e = refl
settle-settled status t Status.pending r e = refl
settle-settled status t Status.running r e = e
settle-settled status t Status.done r e = e
settle-settled status t Status.failed r e = e
settle-settled status t Status.cancelled r e = e
settle-settled status t Status.skipped r e = e
settle-settled status t Status.not_run r e = e

module _ (external : Bool) (r : TaskResult) (st : Status) (rs : List TaskResult)
    (ws new : WorkspaceResult) (e : r.status ≡ st) where
  with_status-found : (w : Status) → with_status w (r ∷ rs) ≡ hit w st + with_status w rs
  with_status-found w = ap (λ x. hit w x + with_status w rs) e

  -- What one status adds to each counter, and the rest behind it.
  count_result-Adds :
      Adds external rs (count_result (settled (status_left external) st) ws) new
      → Adds external (r ∷ rs) ws new
  unfolding count_result
  count_result-Adds a = record {
    completed = ground (arith, a.completed, with_status-found Status.done);
    failed = ground (arith, a.failed, with_status-found Status.failed);
    skipped = ground (arith, a.skipped, with_status-found Status.skipped);
    cancelled = ground (
      arith,
      a.cancelled,
      with_status-found Status.cancelled,
      with_status-found Status.idle,
      with_status-found Status.pending,
    );
    not_run = ground (
      arith,
      a.not_run,
      with_status-found Status.not_run,
      with_status-found Status.idle,
      with_status-found Status.pending,
    );
  }

count_results-Adds :
    (external : Bool) (ts : List ScheduledTask) (rs : List TaskResult) (ws : WorkspaceResult)
    → length rs ≡ length ts
    → Adds external rs ws (count_results (settle_all (status_left external) ts rs) ws)
unfolding count_results settle_all
count_results-Adds external [] [] ws l = record {
  completed = omega arith;
  failed = omega arith;
  skipped = omega arith;
  cancelled = ground arith;
  not_run = ground arith;
}
count_results-Adds external [] (r ∷ rs) ws l = absurd (omega arith)
count_results-Adds external (t ∷ ts) [] ws l = absurd (omega arith)
count_results-Adds external (t ∷ ts) (r ∷ rs) ws l =
    let status = status_left external in
    count_result-Adds external r r.status rs ws _ refl (
      subst
        (λ (st : Status). Adds external rs (count_result st ws) (
          count_results (settle_all status ts rs)
            (count_result (settle status t r.status r).status ws)))
        (settle-settled status t r.status r refl)
        (count_results-Adds external ts rs (count_result (settle status t r.status r).status ws)
          (omega arith)))

-- Every status but Running is one that a summary counts.
hit_all :
    (st : Status)
    → st ≢ Status.running
    → hit Status.done st
        + hit Status.failed st
        + hit Status.skipped st
        + hit Status.cancelled st
        + hit Status.not_run st
        + hit Status.idle st
        + hit Status.pending st
      ≡ 1
hit_all Status.idle n = refl
hit_all Status.pending n = refl
hit_all Status.running n = absurd (n refl)
hit_all Status.done n = refl
hit_all Status.failed n = refl
hit_all Status.cancelled n = refl
hit_all Status.skipped n = refl
hit_all Status.not_run n = refl

with_status_all :
    (rs : List TaskResult)
    → NoneRunning rs
    → with_status Status.done rs
        + with_status Status.failed rs
        + with_status Status.skipped rs
        + with_status Status.cancelled rs
        + with_status Status.not_run rs
        + left rs
      ≡ length rs
with_status_all [] n = refl
with_status_all (r ∷ rs) n = omega (arith, with_status_all rs n.1, hit_all r.status n.0)

Adds-IsTally :
    (external : Bool) (ts : List ScheduledTask) (rs : List TaskResult) (ws new : WorkspaceResult)
    → Adds external rs ws new
    → counted ws ≡ 0
    → length rs ≡ length ts
    → NoneRunning rs
    → IsTally external ts rs new
Adds-IsTally external ts rs ws new a none l n = record {
  completed = omega (arith, a.completed);
  failed = omega (arith, a.failed);
  skipped = omega (arith, a.skipped);
  cancelled = omega (arith, a.cancelled);
  not_run = omega (arith, a.not_run);
  all =
      ground
        (arith, a.completed, a.failed, a.skipped, a.cancelled, a.not_run, with_status_all rs n);
}

exit-IsTally :
    {external : Bool} {ts : List ScheduledTask} {rs : List TaskResult} (ws : WorkspaceResult)
    (code : ℤ)
    → IsTally external ts rs ws
    → IsTally external ts rs (record ws { exit_code = code })
exit-IsTally ws code y = record {
  completed = y.completed;
  failed = y.failed;
  skipped = y.skipped;
  cancelled = y.cancelled;
  not_run = y.not_run;
  all = y.all;
}

conclude-IsTally :
    (cancel bail : Bool) (ctx_err : Option Failure) (s : State) (last : ℤ × Option Failure)
    (ws : WorkspaceResult) (external : Bool) (ts : List ScheduledTask) (rs : List TaskResult)
    → IsTally external ts rs ws
    → IsTally external ts rs (conclude cancel bail ctx_err s last ws).0
unfolding conclude
conclude-IsTally true bail ctx_err s last ws external ts rs y = exit-IsTally ws _ y
conclude-IsTally false true ctx_err s last ws external ts rs y = either (is_set s.trigger_err)
  where
    either :
        (b : Bool)
        → IsTally external ts rs (if b then record ws { exit_code = s.trigger_exit } else ws)
    either true = exit-IsTally ws s.trigger_exit y
    either false = y
conclude-IsTally false false ctx_err s last ws external ts rs y = exit-IsTally ws last.0 y

outcome-IsTally :
    (sched : Schedule) (bail : Bool) (ctx_err : Option Failure) (s : State)
    → length s.results ≡ length sched.tasks
    → NoneRunning s.results
    → IsTally
        (is_set ctx_err && not s.bailed)
        sched.tasks
        s.results
        (outcome sched bail ctx_err s).0
unfolding outcome summarize_results
outcome-IsTally sched bail ctx_err s l n =
    let external = is_set ctx_err && not s.bailed in
    let results = settle_all (status_left external) sched.tasks s.results in
    conclude-IsTally external bail ctx_err s (continue_exit results)
      (summarize_results results sched.effective_concurrent) external sched.tasks s.results
      (tally external)
  where
    tally :
        (external : Bool)
        → IsTally external sched.tasks s.results (
            summarize_results
              (settle_all (status_left external) sched.tasks s.results)
              sched.effective_concurrent)
    tally external =
        Adds-IsTally external sched.tasks s.results _ _
          (count_results-Adds external sched.tasks s.results _ l) refl l n

-- From every reachable state of a run of a plan, the summary that the run ends with has as done,
-- failed and skipped the numbers of the results with these statuses; the tasks that are still idle
-- or pending are added to the cancelled ones when the context of the caller is done and bailed is
-- not set, and else to those not run; and the five counts together are the number of the tasks.
pub run_counts :
    (sched : Schedule) (bail : Bool) (workers : ℕ) (s : State) (ctx_err : Option Failure)
    → IsPlan sched
    → Reachable sched bail workers s
    → IsTally
        (is_set ctx_err && not s.bailed)
        sched.tasks
        s.results
        (outcome sched bail ctx_err s).0
run_counts sched bail workers s ctx_err plan r =
    outcome-IsTally sched bail ctx_err s (reach-Inv sched bail workers plan r).core.len
      (reach-NoneRunning sched bail workers r)
