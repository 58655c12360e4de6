-- ===== src/Runner/Scheduler/Bound.antt =====
-- How many workers of a run are busy at once.
use m.Base.{
  ℕ, zero, suc, ◌+◌, ◌-◌, subst, min, Str, str_eq, ◌≤◌, ◌≡◌, refl, ap, ◌∙◌, Bool, true, false, List,
  [], ◌∷◌, ◌++◌, length, length-append, arith, if◌then◌else◌, keys, ltb,
}
use m.Base.Sort.{sort}
use m.Base.Int.{ℤ, pos, negsuc}
use m.Apperr.{Result, ok, err, ◌>>=◌}
use m.Workspace.Graph.{WorkspaceGraph, Induced, no_degrees}
use m.Runner.Schedule.{
  ScheduledTask, Schedule, build_schedule, effective_concurrency, order_sequential,
  build_induced_subgraph, order_paths, order_parallel, number_tasks,
}
use m.Runner.Scheduler.{
  State, handle_result, enqueue_ready, send, start, initial, by_path, collect_ready,
}
use m.Runner.Scheduler.Step.{
  Step, Reachable, receive, skip, begin, no_io, finish, enqueue, cancel, refuse, begun, next,
  worker_count,
}

-- Workers that hold a task, and those between `handleResult` and `enqueueReady`.
abbrev pub busy : State → ℕ
busy s = length s.taken + length s.active + s.owed

send-busy : (ts : List ScheduledTask) (s : State) → busy (send ts s) ≡ busy s
unfolding send
send-busy [] s = refl
send-busy (t ∷ ts) s = send-busy ts _

enqueue-busy : (sched : Schedule) (s : State) → busy (enqueue_ready sched s) ≡ busy s
unfolding enqueue_ready
enqueue-busy sched s = either s.bailed
  where
    either :
        (b : Bool)
        → busy (if b then s else send (sort by_path (collect_ready s sched.tasks)) s) ≡ busy s
    either true = refl
    either false = send-busy (sort by_path (collect_ready s sched.tasks)) s

length-out :
    (xs : List ScheduledTask) (t : ScheduledTask) (ys zs : List ScheduledTask)
    → zs ≡ xs ++ t ∷ ys
    → length zs ≡ suc (length (xs ++ ys))
length-out xs t ys zs e =
    ap length e ∙ omega (arith, length-append xs (t ∷ ys), length-append xs ys)

Step-busy :
    (sched : Schedule) (bail : Bool) (workers : ℕ) {s t : State}
    → Step sched bail workers s t
    → busy s ≤ workers
    → busy t ≤ workers
unfolding handle_result refuse
Step-busy sched bail workers (receive t rest e free) h = omega arith
Step-busy sched bail workers {s = s} (skip t front back e _) h =
    omega (arith, length-out front t back s.taken e)
Step-busy sched bail workers {s = s} (begin t front back e _) h =
    omega (arith, length-out front t back s.taken e)
Step-busy sched bail workers {s = s} (no_io t front back _ e) h =
    omega (arith, length-out front t back s.active e)
Step-busy sched bail workers {s = s} (finish t front back _ _ _ e _) h =
    omega (arith, length-out front t back s.active e)
Step-busy sched bail workers {s = s} (enqueue n e) h =
    omega (arith, enqueue-busy sched (record s { owed = n }))
Step-busy sched bail workers cancel h = h

reach-busy :
    (sched : Schedule) (bail : Bool) (workers : ℕ) (s : State)
    → Reachable sched bail workers s
    → busy s ≤ workers
unfolding start initial
reach-busy sched bail workers s begun = omega (arith, enqueue-busy sched (initial sched))
reach-busy sched bail workers s (next {s = s'} r st) =
    Step-busy sched bail workers st (reach-busy sched bail workers s' r)

-- The concurrency that was asked for, with the processors for a request of zero.
abbrev asked : ℕ → ℤ → ℕ
asked procs (pos zero) = procs
asked procs (pos (suc n)) = suc n
asked procs (negsuc n) = 0

-- How many tasks may run at once: one in the sequential order, and else the concurrency that was
-- asked for, of which one is always left and which no run needs beyond the number of its tasks.
abbrev pub allowed : ℕ → ℤ → Str → ℕ → ℕ
allowed procs requested order tasks =
    if str_eq order order_sequential then 1 else suc (min tasks (asked procs requested) - 1)

-- `workers < 1`
abbrev clamp : ℤ → ℕ
clamp workers = elim workers [ pos n ↦ if ltb n 1 then 1 else n | negsuc n ↦ 1 ]

clamp-effective_concurrency :
    (procs : ℕ) (requested : ℤ) (n : ℕ)
    → clamp (effective_concurrency procs requested n) ≡ suc (min n (asked procs requested) - 1)
unfolding effective_concurrency
clamp-effective_concurrency procs (pos zero) zero = ground arith
clamp-effective_concurrency procs (pos (suc k)) zero = ground arith
clamp-effective_concurrency procs (negsuc k) zero = ground arith
clamp-effective_concurrency procs (pos zero) (suc n) = ground arith
clamp-effective_concurrency procs (pos (suc k)) (suc n) = ground arith
clamp-effective_concurrency procs (negsuc k) (suc n) = ground arith

worker_count_lem :
    (procs : ℕ) (requested : ℤ) (sched : Schedule)
    → sched.effective_concurrent ≡ effective_concurrency procs requested (length sched.tasks)
    → worker_count sched ≡ allowed procs requested sched.order (length sched.tasks)
unfolding worker_count
worker_count_lem procs requested sched e = choose (str_eq sched.order order_sequential)
  where
    choose :
        (alone : Bool)
        → clamp (if alone then pos 1 else sched.effective_concurrent)
          ≡ (if alone then 1 else suc (min (length sched.tasks) (asked procs requested) - 1))
    choose true = refl
    choose false = ap clamp e ∙ clamp-effective_concurrency procs requested (length sched.tasks)

build_schedule_concurrency :
    (procs : ℕ) (g : WorkspaceGraph) (paths : List Str) (order : Str) (requested : ℤ)
    (sched : Schedule)
    → build_schedule procs g paths order requested ≡ ok sched
    → (sched.order ≡ order)
      × (sched.effective_concurrent ≡ effective_concurrency procs requested (length sched.tasks))
unfolding build_schedule
build_schedule_concurrency procs g [] order requested sched e = absurd (ground arith)
build_schedule_concurrency procs g (q ∷ qs) order requested sched e =
    after (build_induced_subgraph g (q ∷ qs)) (order_paths g (q ∷ qs) order) e
  where
    made : Induced → List Str → Schedule
    made s ordered = record {
      tasks = number_tasks g 0 ordered;
      edges = s.edges;
      in_degree =
          if str_eq order order_parallel then no_degrees (keys s.in_degree) else s.in_degree;
      effective_concurrent =
          effective_concurrency procs requested (length (number_tasks g 0 ordered));
      order = order;
    }

    after :
        (r : Result Induced) (o : Result (List Str))
        → (r >>= λ s. o >>= λ ordered. ok (made s ordered)) ≡ ok sched
        → (sched.order ≡ order)
          × (sched.effective_concurrent
              ≡ effective_concurrency procs requested (length sched.tasks))
    after (err x) o h = absurd (ground arith)
    after (ok s) (err x) h = absurd (ground arith)
    after (ok s) (ok ordered) h = ground arith

-- For a schedule that BuildSchedule made: runScheduler starts one worker in the sequential order,
-- and else as many as were asked for (the processors for a request of 0), but not more than there
-- are tasks and at least one. In every state that a run with so many workers reaches, at most so
-- many tasks are held by a worker, running, or ended with the worker not yet behind enqueueReady,
-- where a worker receives a task only when it has none of these.
pub workers_bound :
    (procs : ℕ) (g : WorkspaceGraph) (paths : List Str) (order : Str) (requested : ℤ)
    (sched : Schedule) (bail : Bool) (s : State)
    → build_schedule procs g paths order requested ≡ ok sched
    → Reachable sched bail (worker_count sched) s
    → (worker_count sched ≡ allowed procs requested order (length sched.tasks))
      × (busy s ≤ allowed procs requested order (length sched.tasks))
workers_bound procs g paths order requested sched bail s e r =
    let (same, eff) = build_schedule_concurrency procs g paths order requested sched e in
    let count : worker_count sched ≡ allowed procs requested order (length sched.tasks) =
      worker_count_lem procs requested sched eff
      ∙ ap (λ o. allowed procs requested o (length sched.tasks)) same in
    (count, subst (λ n. busy s ≤ n) count (reach-busy sched bail (worker_count sched) s r))
