-- ===== src/Runner/Scheduler/Kept.antt =====
-- internal/runner/scheduler.go: the invariant of a run at its start and after each step.
use m.Base.{
  ℕ, suc, ◌+◌, ◌≤◌, ◌≡◌, refl, sym, ap, ◌∙◌, subst, Bool, true, false, Option, none, some, List, [],
  ◌∷◌, ◌++◌, set, if◌then◌else◌, arith,
}
use m.Base.Int.{ℤ, pos}
use m.Base.Sort.{sort}
use m.Apperr.{Failure}
use m.Runner.Schedule.{ScheduledTask, Schedule}
use m.Workspace.Kahn.{Degrees}
use m.Runner.Scheduler.{
  State, TaskResult, result, Status, is_idle, is_success, status_at, pending_at, handle_result,
  enqueue_ready, send, by_path, collect_ready, start, initial, no_results, release_dependents,
}
use m.Runner.Scheduler.Step.{
  Step, Reachable, receive, skip, begin, no_io, finish, enqueue, cancel, refuse, is_terminal, begun,
  next,
}
use m.Runner.Scheduler.Tally.{
  payment, get_elem?-bound, status_at-set, ended, no_results-tally, length-no_results,
  status_at-no_results,
}
use m.Runner.Scheduler.Flight.{
  At, All, All-append, All-out, All-sort, occ, occ-append, occ-out, occ-sort, IsFit,
  collect_ready-IsFit, occ-collect_ready,
}
use m.Runner.Scheduler.Invariant.{IsPlan, Core, send-Core, end-Core}
use m.Runner.Scheduler.Statuses.{is_pending}

module _ (sched : Schedule) where
  abbrev pub flying : State → ℕ → ℕ
  flying s i = occ i s.ready + (occ i s.taken + occ i s.active)

  -- The core, and the tasks in flight are those of the schedule.
  pub record Inv (s : State) : Type 0 where
    pub core : Core sched s.results s.remaining (flying s) s.terminal
    ready_at : All (At sched) s.ready
    taken_at : All (At sched) s.taken
    active_at : All (At sched) s.active

  -- What is still fit after a task with another index was sent.
  still-IsFit :
      (s : State) (t : ScheduledTask) (ts : List ScheduledTask)
      → Inv s
      → At sched t
      → occ t.index ts ≡ 0
      → All (IsFit sched s) ts
      → All
          (IsFit sched (record s {
            results = set s.results t.index (pending_at t.index s.results);
            ready = s.ready ++ t ∷ [];
          }))
          ts
  unfolding occ
  still-IsFit s t [] inv at o a = tt
  still-IsFit s t (u ∷ ts) inv at o a = (
    record {
      at = a.0.at;
      unsent =
          rw
            (status_at-set s.results t.index u.index (pending_at t.index s.results)
              (omega (arith, inv.core.len, get_elem?-bound sched.tasks t.index t at)))
            (ground (arith, a.0.unsent));
      free = a.0.free;
    },
    still-IsFit s t ts inv at (omega arith) a.1,
  )

  send-Inv :
      (ts : List ScheduledTask) (s : State)
      → Inv s
      → All (IsFit sched s) ts
      → ((i : ℕ) → occ i ts ≤ 1)
      → Inv (send ts s)
  unfolding send occ
  send-Inv [] s inv a o = inv
  send-Inv (t ∷ ts) s inv a o =
      send-Inv ts
        (record s {
          results = set s.results t.index (pending_at t.index s.results);
          ready = s.ready ++ t ∷ [];
        })
        (record {
          core =
              send-Core sched inv.core t a.0.at a.0.unsent a.0.free
                (λ i. omega (arith, occ-append i s.ready (t ∷ [])));
          ready_at = All-append (At sched) s.ready (t ∷ []) inv.ready_at (a.0.at, tt);
          taken_at = inv.taken_at;
          active_at = inv.active_at;
        })
        (still-IsFit s t ts inv a.0.at (ground (arith, o t.index)) a.1) (λ i. omega (arith, o i))

  enqueue-Inv : IsPlan sched → (s : State) → Inv s → Inv (enqueue_ready sched s)
  unfolding enqueue_ready
  enqueue-Inv plan s inv = either s.bailed inv (
      send-Inv (sort by_path (collect_ready s sched.tasks)) s inv
        (All-sort (IsFit sched s) (collect_ready s sched.tasks)
          (collect_ready-IsFit sched s sched.tasks plan.placed))
        (λ i. omega (
          arith,
          occ-sort i (collect_ready s sched.tasks),
          occ-collect_ready sched s i plan.numbered,
        )))
    where
      either : (b : Bool) {x y : State} → Inv x → Inv y → Inv (if b then x else y)
      either true p q = p
      either false p q = q

  -- Tasks that move between the lists.
  moved :
      {rs : List TaskResult} {remaining : Degrees} {f f' : ℕ → ℕ} {terminal : ℕ}
      → Core sched rs remaining f terminal
      → ((i : ℕ) → f' i ≡ f i)
      → Core sched rs remaining f' terminal
  moved c h = record {
    len = c.len;
    flight = λ i. h i ∙ c.flight i;
    waits = c.waits;
    clear = c.clear;
    settled = c.settled;
  }

  -- The end of an active task, by either of its two steps.
  end-Inv :
      (bail : Bool) (s : State) (owed : ℕ) (t : ScheduledTask) (front back : List ScheduledTask)
      (status : Status) (code : ℤ) (x : Option Failure)
      → Inv s
      → s.active ≡ front ++ t ∷ back
      → is_terminal status ≡ true
      → Inv (
          handle_result sched bail
            (result t status code x)
            (record s { active = front ++ back; owed = owed }))
  unfolding handle_result
  end-Inv bail s owed t front back status code x inv e k =
      let (at, rest) = All-out (At sched) front t back (subst (All (At sched)) e inv.active_at) in
      record {
        core =
            end-Core sched inv.core t at (result t status code x) k
              (λ i. omega (arith, occ-out i front t back s.active e));
        ready_at = inv.ready_at;
        taken_at = inv.taken_at;
        active_at = rest;
      }

  Step-Inv :
      (bail : Bool) (workers : ℕ)
      → IsPlan sched
      → {s t : State} → Inv s
      → Step sched bail workers s t
      → Inv t
  unfolding occ refuse is_terminal is_success release_dependents
  Step-Inv bail workers plan {s = s} inv (receive t rest e _) =
      let (at, others) = subst (All (At sched)) e inv.ready_at in
      record {
        core = moved inv.core (λ i. omega (arith, ap (occ i) e));
        ready_at = others;
        taken_at = (at, inv.taken_at);
        active_at = inv.active_at;
      }
  Step-Inv bail workers plan {s = s} inv (skip t front back e _) =
      let (at, others) = All-out (At sched) front t back (subst (All (At sched)) e inv.taken_at) in
      record {
        core =
            end-Core sched inv.core t at (result t Status.not_run (pos 0) none) refl
              (λ i. omega (arith, occ-out i front t back s.taken e));
        ready_at = inv.ready_at;
        taken_at = others;
        active_at = inv.active_at;
      }
  Step-Inv bail workers plan {s = s} inv (begin t front back e _) =
      let (at, others) = All-out (At sched) front t back (subst (All (At sched)) e inv.taken_at) in
      record {
        core = moved inv.core (λ i. omega (arith, occ-out i front t back s.taken e));
        ready_at = inv.ready_at;
        taken_at = others;
        active_at = (at, inv.active_at);
      }
  Step-Inv bail workers plan {s = s} inv (no_io t front back x e) =
      end-Inv bail s s.owed t front back Status.failed (pos 0) (some x) inv e refl
  Step-Inv bail workers plan {s = s} inv (finish t front back status code x e k) =
      end-Inv bail s (suc s.owed) t front back status code x inv e k
  Step-Inv bail workers plan {s = s} inv (enqueue n e) =
      enqueue-Inv plan (record s { owed = n })
        (record {
          core = inv.core;
          ready_at = inv.ready_at;
          taken_at = inv.taken_at;
          active_at = inv.active_at;
        })
  Step-Inv bail workers plan {s = s} inv cancel = record {
    core = inv.core;
    ready_at = inv.ready_at;
    taken_at = inv.taken_at;
    active_at = inv.active_at;
  }

  start-Inv : IsPlan sched → Inv (start sched)
  unfolding start initial occ is_idle is_success payment ended is_terminal is_pending
  start-Inv plan = enqueue-Inv plan (initial sched) (record {
    core = record {
      len = length-no_results sched.tasks;
      flight = λ i. rw (status_at-no_results i sched.tasks) refl;
      waits = λ v.
          plan.degrees v
          ∙ ap pos (
              omega
                (arith, no_results-tally (payment sched v) (λ t. refl) sched.tasks sched.tasks));
      clear = λ i t at k. absurd (not_idle i k);
      settled = sym (no_results-tally ended (λ t. refl) sched.tasks sched.tasks);
    };
    ready_at = tt;
    taken_at = tt;
    active_at = tt;
  })
    where
      not_idle : (i : ℕ) → ¬ (is_idle (status_at i (no_results sched.tasks)) ≡ false)
      not_idle i k = ground (arith, status_at-no_results i sched.tasks)

  pub reach-Inv :
      (bail : Bool) (workers : ℕ)
      → IsPlan sched
      → {s : State} → Reachable sched bail workers s
      → Inv s
  reach-Inv bail workers plan begun = start-Inv plan
  reach-Inv bail workers plan (next r st) =
      Step-Inv bail workers plan (reach-Inv bail workers plan r) st
