-- ===== src/Runner/Scheduler/Safety.antt =====
-- internal/runner/scheduler.go: the states that a run reaches, whatever the tasks report and however
-- the steps of the goroutines follow each other.
use m.Base.{
  ℕ, ◌+◌, ◌<◌, ◌≡◌, refl, ap, ◌∙◌, Bool, true, false, List, [], ◌∷◌, some, length, get_elem?,
  if◌then◌else◌, arith, Bool-cases, inl, inr, find_or, count,
}
use m.Base.Sort.{sort}
use m.Runner.Schedule.{ScheduledTask, Schedule}
use m.Runner.Scheduler.{
  State, Status, is_idle, is_success, status_at, handle_result, enqueue_ready, send, start, initial,
  by_path, collect_ready,
}
use m.Runner.Scheduler.Step.{
  Step, Reachable, receive, skip, begin, no_io, finish, enqueue, cancel, refuse, is_terminal, begun,
  next,
}
use m.Runner.Scheduler.Tally.{tally-success, ended-lt}
use m.Runner.Scheduler.Flight.{occ}
use m.Runner.Scheduler.Invariant.{IsPlan}
use m.Runner.Scheduler.Statuses.{is_pending}
use m.Runner.Scheduler.Kept.{reach-Inv}

-- In every reachable state of a run of a plan: when a task is more than idle, that is, sent to the
-- workers, every task with an edge to its path has succeeded.
pub dependencies_first :
    (sched : Schedule) (bail : Bool) (workers : ℕ) (s : State)
    → IsPlan sched
    → Reachable sched bail workers s
    → (i j : ℕ) (t u : ScheduledTask) → get_elem? sched.tasks i ≡ some t
    → get_elem? sched.tasks j ≡ some u
    → is_idle (status_at i s.results) ≡ false
    → 0 < count t.path (find_or [] u.path sched.edges)
    → is_success (status_at j s.results) ≡ true
dependencies_first sched bail workers s plan r i j t u at at' sent edge =
    let core = (reach-Inv sched bail workers plan r).core in
    tally-success sched t.path sched.tasks s.results core.len (core.clear i t at sent) j u at' edge

-- In every reachable state of a run of a plan, an index stands among the tasks in the channel, in
-- the hands of the workers and in execution once when its result is Pending, and else not at all.
pub flies_once :
    (sched : Schedule) (bail : Bool) (workers : ℕ) (s : State)
    → IsPlan sched
    → Reachable sched bail workers s
    → (i : ℕ)
    → occ i s.ready + (occ i s.taken + occ i s.active)
      ≡ (if is_pending (status_at i s.results) then 1 else 0)
flies_once sched bail workers s plan r = (reach-Inv sched bail workers plan r).core.flight

-- In every reachable state of a run of a plan, the count of the ended tasks is less than the
-- number of the tasks as long as the result of one of them is not terminal.
pub waits_for_all :
    (sched : Schedule) (bail : Bool) (workers : ℕ) (s : State)
    → IsPlan sched
    → Reachable sched bail workers s
    → (i : ℕ) (t : ScheduledTask) → get_elem? sched.tasks i ≡ some t
    → is_terminal (status_at i s.results) ≡ false
    → s.terminal < length sched.tasks
waits_for_all sched bail workers s plan r i t at h = omega (
  arith,
  (reach-Inv sched bail workers plan r).core.settled,
  ended-lt sched.tasks s.results i t at h,
)

-- Without bail, `bailed` is never set.
send-bailed : (ts : List ScheduledTask) (s : State) → (send ts s).bailed ≡ s.bailed
unfolding send
send-bailed [] s = refl
send-bailed (t ∷ ts) s = send-bailed ts _

enqueue-bailed : (sched : Schedule) (s : State) → (enqueue_ready sched s).bailed ≡ s.bailed
unfolding enqueue_ready
enqueue-bailed sched s = either s.bailed
  where
    either :
        (b : Bool)
        → (if b then s else send (sort by_path (collect_ready s sched.tasks)) s).bailed ≡ s.bailed
    either true = refl
    either false = send-bailed (sort by_path (collect_ready s sched.tasks)) s

Step-bailed :
    (sched : Schedule) (workers : ℕ) {s t : State}
    → Step sched false workers s t
    → s.bailed ≡ false
    → t.bailed ≡ false
unfolding handle_result refuse
Step-bailed sched workers (receive _ _ _ _) h = h
Step-bailed sched workers (skip _ _ _ _ _) h = h
Step-bailed sched workers (begin _ _ _ _ _) h = h
Step-bailed sched workers (no_io _ _ _ _ _) h = ground (arith, h)
Step-bailed sched workers (finish _ _ _ status _ _ _ _) h = ground (arith, h)
Step-bailed sched workers {s = s} (enqueue n _) h = enqueue-bailed sched (record s { owed = n }) ∙ h
Step-bailed sched workers cancel h = h

reach-bailed :
    (sched : Schedule) (workers : ℕ) {s : State}
    → Reachable sched false workers s
    → s.bailed ≡ false
unfolding start initial
reach-bailed sched workers begun = enqueue-bailed sched (initial sched)
reach-bailed sched workers (next r st) = Step-bailed sched workers st (reach-bailed sched workers r)

idle_not_terminal : (st : Status) → is_idle st ≡ true → is_terminal st ≡ false
unfolding is_idle is_terminal
idle_not_terminal Status.idle h = refl
idle_not_terminal Status.pending h = refl
idle_not_terminal Status.running h = refl
idle_not_terminal Status.done h = absurd (ground arith)
idle_not_terminal Status.failed h = absurd (ground arith)
idle_not_terminal Status.skipped h = absurd (ground arith)
idle_not_terminal Status.cancelled h = absurd (ground arith)
idle_not_terminal Status.not_run h = absurd (ground arith)

not_success : (st : Status) → st ≡ Status.failed → ¬ (is_success st ≡ true)
unfolding is_success
not_success st e h = ground (arith, ap is_success e)

-- In a run of a plan without bail, when a task with an edge to the path of another has failed,
-- then the other is idle, the count of the ended tasks that the main loop waits for is less than
-- the number of the tasks, and bailed is not set.
pub failure_blocks :
    (sched : Schedule) (workers : ℕ) (s : State)
    → IsPlan sched
    → Reachable sched false workers s
    → (i j : ℕ) (t u : ScheduledTask) → get_elem? sched.tasks i ≡ some t
    → get_elem? sched.tasks j ≡ some u
    → 0 < count t.path (find_or [] u.path sched.edges)
    → status_at j s.results ≡ Status.failed
    → (is_idle (status_at i s.results) ≡ true)
      × (s.terminal < length sched.tasks)
      × (s.bailed ≡ false)
unfolding is_success
failure_blocks sched workers s plan r i j t u at at' edge fail =
    elim (Bool-cases (is_idle (status_at i s.results))) [
      | inl idle ↦ (
        idle,
        waits_for_all sched false workers s plan r i t at
            (idle_not_terminal (status_at i s.results) idle),
        reach-bailed sched workers r,
      )
      | inr sent ↦ absurd (
          not_success (status_at j s.results) fail
            (dependencies_first sched false workers s plan r i j t u at at' sent edge))
    ]
