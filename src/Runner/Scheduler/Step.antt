-- ===== src/Runner/Scheduler/Step.antt =====
-- The steps of the goroutines of `runScheduler`, and the states that they reach. The outcome of a
-- task is whatever `exec.Run` reports.
use m.Base.{
  ℕ, suc, ◌+◌, ◌<◌, ◌≡◌, Bool, true, false, List, ◌∷◌, ◌++◌, length, set, Option, none, some,
  if◌then◌else◌, ltb, str_eq,
}
use m.Base.Int.{ℤ, pos, negsuc}
use m.Apperr.{Failure}
use m.Runner.Schedule.{ScheduledTask, Schedule, order_sequential}
use m.Runner.Scheduler.{Status, State, result, handle_result, enqueue_ready, start}

-- The statuses that a task ends with.
unfoldable pub is_terminal : Status → Bool
is_terminal Status.idle = false
is_terminal Status.pending = false
is_terminal Status.running = false
is_terminal _ = true

-- The worker that finds `bailed` set.
unfoldable pub refuse : ScheduledTask → State → State
refuse t s = record s {
  results = set s.results t.index (result t Status.not_run (pos 0) none);
  terminal = suc s.terminal;
}

module _ (sched : Schedule) (bail : Bool) (workers : ℕ) where
  pub data Step (s : State) : State → Type 0 where
    -- `t, ok := <-readyCh`, in a worker that is free
    receive :
        (t : ScheduledTask) (rest : List ScheduledTask)
        → s.ready ≡ t ∷ rest
        → length s.taken + length s.active + s.owed < workers
        → Step s (record s { ready = rest; taken = t ∷ s.taken })
    skip :
        (t : ScheduledTask) (front back : List ScheduledTask)
        → s.taken ≡ front ++ t ∷ back
        → s.bailed ≡ true
        → Step s (refuse t (record s { taken = front ++ back }))
    begin :
        (t : ScheduledTask) (front back : List ScheduledTask)
        → s.taken ≡ front ++ t ∷ back
        → s.bailed ≡ false
        → Step s (record s { taken = front ++ back; active = t ∷ s.active })
    -- `newTaskIO` failed: the worker goes on without `enqueueReady`
    no_io :
        (t : ScheduledTask) (front back : List ScheduledTask) (e : Failure)
        → s.active ≡ front ++ t ∷ back
        → Step s (
            handle_result sched bail
              (result t Status.failed (pos 0) (some e))
              (record s { active = front ++ back }))
    finish :
        (t : ScheduledTask) (front back : List ScheduledTask) (status : Status) (code : ℤ)
        (e : Option Failure)
        → s.active ≡ front ++ t ∷ back
        → is_terminal status ≡ true
        → Step s (
            handle_result sched bail
              (result t status code e)
              (record s { active = front ++ back; owed = suc s.owed }))
    enqueue : (n : ℕ) → s.owed ≡ suc n → Step s (enqueue_ready sched (record s { owed = n }))
    -- the context of the caller is cancelled
    cancel : Step s (record s { stopped = true })

  -- The states of a run.
  pub data Reachable : State → Type 0 where
    begun : Reachable (start sched)
    next : {s t : State} → Reachable s → Step s t → Reachable t

-- The number of workers that `runScheduler` starts.
unfoldable pub worker_count : Schedule → ℕ
worker_count sched =
    let workers =
      if str_eq sched.order order_sequential then pos 1 else sched.effective_concurrent in
    elim workers [ pos n ↦ if ltb n 1 then 1 else n | negsuc n ↦ 1 ]
