-- ===== src/Runner/Scheduler/Running.antt =====
-- internal/runner/scheduler.go: the status Running, which the scheduler never writes.
use m.Base.{
  ℕ, zero, suc, ◌≡◌, ◌≢◌, refl, ap, Bool, true, false, List, [], ◌∷◌, ◌++◌, set, if◌then◌else◌,
  arith,
}
use m.Base.Sort.{sort}
use m.Runner.Schedule.{ScheduledTask, Schedule}
use m.Runner.Scheduler.{
  State, Status, TaskResult, send, pending_at, enqueue_ready, by_path, collect_ready, handle_result,
  no_results, start, initial,
}
use m.Runner.Scheduler.Step.{
  is_terminal, Step, Reachable, receive, skip, begin, no_io, finish, enqueue, cancel, refuse, begun,
  next,
}

-- No result says Running, which the scheduler never writes.
abbrev pub NoneRunning : List TaskResult → Type 0
NoneRunning [] = Unit
NoneRunning (r ∷ rs) = (r.status ≢ Status.running) × NoneRunning rs

set-NoneRunning :
    (rs : List TaskResult) (i : ℕ) (r : TaskResult)
    → NoneRunning rs
    → r.status ≢ Status.running
    → NoneRunning (set rs i r)
set-NoneRunning [] i r n h = tt
set-NoneRunning (x ∷ rs) zero r n h = (h, n.1)
set-NoneRunning (x ∷ rs) (suc i) r n h = (n.0, set-NoneRunning rs i r n.1 h)

terminal_not_running : (st : Status) → is_terminal st ≡ true → st ≢ Status.running
unfolding is_terminal
terminal_not_running st h e = ground (arith, ap is_terminal e)

pending_not_running : (i : ℕ) (rs : List TaskResult) → (pending_at i rs).status ≢ Status.running
unfolding pending_at
pending_not_running i [] e = ground arith
pending_not_running zero (r ∷ rs) e = ground arith
pending_not_running (suc i) (r ∷ rs) e = pending_not_running i rs e

send-NoneRunning :
    (ts : List ScheduledTask) (s : State) → NoneRunning s.results → NoneRunning (send ts s).results
unfolding send
send-NoneRunning [] s n = n
send-NoneRunning (t ∷ ts) s n =
    send-NoneRunning ts
      (record s {
        results = set s.results t.index (pending_at t.index s.results);
        ready = s.ready ++ t ∷ [];
      })
      (set-NoneRunning s.results t.index (pending_at t.index s.results) n
        (pending_not_running t.index s.results))

enqueue-NoneRunning :
    (sched : Schedule) (s : State)
    → NoneRunning s.results
    → NoneRunning (enqueue_ready sched s).results
unfolding enqueue_ready
enqueue-NoneRunning sched s n = either s.bailed
  where
    either :
        (b : Bool)
        → NoneRunning (if b then s else send (sort by_path (collect_ready s sched.tasks)) s).results
    either true = n
    either false = send-NoneRunning (sort by_path (collect_ready s sched.tasks)) s n

Step-NoneRunning :
    (sched : Schedule) (bail : Bool) (workers : ℕ) {s t : State}
    → Step sched bail workers s t
    → NoneRunning s.results
    → NoneRunning t.results
unfolding handle_result refuse is_terminal
Step-NoneRunning sched bail workers (receive _ _ _ _) n = n
Step-NoneRunning sched bail workers {s = s} (skip t _ _ _ _) n =
    set-NoneRunning s.results t.index _ n (terminal_not_running Status.not_run refl)
Step-NoneRunning sched bail workers (begin _ _ _ _ _) n = n
Step-NoneRunning sched bail workers {s = s} (no_io t _ _ _ _) n =
    set-NoneRunning s.results t.index _ n (terminal_not_running Status.failed refl)
Step-NoneRunning sched bail workers {s = s} (finish t _ _ status _ _ _ k) n =
    set-NoneRunning s.results t.index _ n (terminal_not_running status k)
Step-NoneRunning sched bail workers {s = s} (enqueue m _) n =
    enqueue-NoneRunning sched (record s { owed = m }) n
Step-NoneRunning sched bail workers cancel n = n

no_results-NoneRunning : (ts : List ScheduledTask) → NoneRunning (no_results ts)
unfolding no_results
no_results-NoneRunning [] = tt
no_results-NoneRunning (t ∷ ts) = ((λ e. ground arith), no_results-NoneRunning ts)

pub reach-NoneRunning :
    (sched : Schedule) (bail : Bool) (workers : ℕ) {s : State}
    → Reachable sched bail workers s
    → NoneRunning s.results
unfolding start initial
reach-NoneRunning sched bail workers begun =
    enqueue-NoneRunning sched (initial sched) (no_results-NoneRunning sched.tasks)
reach-NoneRunning sched bail workers (next r st) =
    Step-NoneRunning sched bail workers st (reach-NoneRunning sched bail workers r)
