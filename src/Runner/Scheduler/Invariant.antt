-- ===== src/Runner/Scheduler/Invariant.antt =====
-- The invariant of a run: what the results, the degrees and the tasks in flight have to do with
-- each other.
use m.Base.{
  ℕ, zero, suc, ◌+◌, ◌-◌, ◌≡◌, refl, sym, ap, ◌∙◌, true, false, Option, none, some, List, [], ◌∷◌,
  Str, length, length-set, set, get_elem?, if◌then◌else◌, arith, ◌==◌, ==_iff, Bool-cases, inl, inr,
  find_or, find_or-put, put, count, str_eq, str_eq_iff, str_eq_symm,
}
use m.Base.Int.{pos, dec, is_zero}
use m.Runner.Schedule.{ScheduledTask, Schedule}
use m.Workspace.Kahn.{Degrees}
use m.Workspace.Kahn.Relax.{is_zero_of}
use m.Runner.Scheduler.{
  TaskResult, Status, is_idle, is_success, status_at, pending_at, release, release_dependents,
}
use m.Runner.Scheduler.Step.{is_terminal}
use m.Runner.Scheduler.Statuses.{is_pending, idle-facts, pending-facts, terminal-facts}
use m.Runner.Scheduler.Tally.{
  tally, tally-set, status_at-set, payment, total, tally-le_total, ended, get_elem?-bound,
}
use m.Runner.Scheduler.Flight.{At, All, Numbered}

dec_pos : (n : ℕ) → dec (pos (suc n)) ≡ pos n
unfolding dec
dec_pos n = refl

-- `n - k` of the degree of `v` is left when `k` of its edges are released.
release-degree :
    (ds : List Str) (remaining : Degrees) (v : Str) (n : ℕ)
    → find_or (pos 0) v remaining ≡ pos (n + count v ds)
    → find_or (pos 0) v (release ds remaining) ≡ pos n
unfolding release count
release-degree [] remaining v n h = h ∙ ap pos (omega arith)
release-degree (d ∷ ds) remaining v n h = elim (Bool-cases (str_eq v d)) [
  | inl here ↦ release-degree ds (put d (dec (find_or (pos 0) d remaining)) remaining) v n (
      find_or-put (pos 0) d v (dec (find_or (pos 0) d remaining)) remaining
      ∙ rw (str_eq_symm d v, here)
          (ap (λ (k : Str). dec (find_or (pos 0) k remaining)) (sym ((str_eq_iff v d).0 here))
            ∙ ap dec (h ∙ ap pos (ground arith))
            ∙ dec_pos (n + count v ds)))
  | inr other ↦ release-degree ds (put d (dec (find_or (pos 0) d remaining)) remaining) v n (
      find_or-put (pos 0) d v (dec (find_or (pos 0) d remaining)) remaining
      ∙ rw (str_eq_symm d v, other) (h ∙ ap pos (ground arith)))
]

pending_at-status : (i : ℕ) (rs : List TaskResult) → (pending_at i rs).status ≡ Status.pending
unfolding pending_at
pending_at-status i [] = refl
pending_at-status zero (r ∷ rs) = refl
pending_at-status (suc i) (r ∷ rs) = pending_at-status i rs

-- A schedule that `BuildSchedule` makes of an acyclic selection.
pub record IsPlan (sched : Schedule) : Type 0 where
  pub numbered : Numbered 0 sched.tasks
  pub placed : All (At sched) sched.tasks
  pub degrees : (v : Str) → find_or (pos 0) v sched.in_degree ≡ pos (total sched v sched.tasks)

module _ (sched : Schedule) where
  abbrev pub paid : Str → List TaskResult → ℕ
  paid v rs = tally (payment sched v) sched.tasks rs

  -- `flying` is how many tasks with an index are in flight.
  pub record Core (rs : List TaskResult) (remaining : Degrees) (flying : ℕ → ℕ) (terminal : ℕ)
      : Type 0 where
    pub len : length rs ≡ length sched.tasks
    pub flight : (i : ℕ) → flying i ≡ (if is_pending (status_at i rs) then 1 else 0)
    pub waits :
        (v : Str) → find_or (pos 0) v remaining ≡ pos (total sched v sched.tasks - paid v rs)
    pub clear :
        (i : ℕ) (t : ScheduledTask)
        → get_elem? sched.tasks i ≡ some t
        → is_idle (status_at i rs) ≡ false
        → paid t.path rs ≡ total sched t.path sched.tasks
    pub settled : terminal ≡ tally ended sched.tasks rs

  -- A write at the position of a task that has neither ended nor succeeded before.
  module _ (rs : List TaskResult) (len : length rs ≡ length sched.tasks) (t : ScheduledTask)
      (at : At sched t) (r : TaskResult) where
    written :
        (i : ℕ)
        → status_at i (set rs t.index r) ≡ (if i == t.index then r.status else status_at i rs)
    written i =
        status_at-set rs t.index i r (omega (arith, len, get_elem?-bound sched.tasks t.index t at))

    paid-set :
        is_success (status_at t.index rs) ≡ false
        → (v : Str) → paid v (set rs t.index r) ≡ paid v rs + payment sched v t r.status
    unfolding payment
    paid-set h v = ground (arith, tally-set (payment sched v) sched.tasks rs t.index t r at len)

    ended-set :
        is_terminal (status_at t.index rs) ≡ false
        → tally ended sched.tasks (set rs t.index r) ≡ tally ended sched.tasks rs + ended t r.status
    unfolding ended
    ended-set h = ground (arith, tally-set ended sched.tasks rs t.index t r at len)

  same_path :
      (i : ℕ) (t u : ScheduledTask)
      → At sched t
      → get_elem? sched.tasks i ≡ some u
      → (i == t.index) ≡ true
      → u.path ≡ t.path
  same_path i t u at at' h =
      ap path_of (sym at' ∙ ap (get_elem? sched.tasks) ((==_iff i t.index).0 h) ∙ at)
    where
      path_of : Option ScheduledTask → Str
      path_of none = []
      path_of (some a) = a.path

  -- `results[t.Index].Status = StatusPending` for a fit task.
  pub send-Core :
      {rs : List TaskResult} {remaining : Degrees} {flying flying' : ℕ → ℕ} {terminal : ℕ}
      → Core rs remaining flying terminal
      → (t : ScheduledTask) → At sched t
      → is_idle (status_at t.index rs) ≡ true
      → is_zero (find_or (pos 0) t.path remaining) ≡ true
      → ((i : ℕ) → flying' i ≡ flying i + (if i == t.index then 1 else 0))
      → Core (set rs t.index (pending_at t.index rs)) remaining flying' terminal
  unfolding is_pending is_idle payment is_success ended is_terminal is_zero
  send-Core {rs = rs} {remaining = remaining} c t at idle free h = record {
    len = length-set rs t.index r ∙ c.len;
    flight = λ i.
        rw (written rs c.len t at r i)
          (ground (arith, h i, c.flight i, none_pending, pending_at-status t.index rs));
    waits = λ v. c.waits v ∙ ap pos (omega (arith, same v));
    clear = λ i u at' k. elim (Bool-cases (i == t.index)) [
      | inl here ↦ rw (same_path i t u at at' here) (same t.path ∙ free_paid)
      | inr other ↦ same u.path ∙ c.clear i u at' (rw (written rs c.len t at r i, other) at k)
    ];
    settled =
        c.settled
        ∙ ground (arith, ended-set rs c.len t at r not_ended, pending_at-status t.index rs);
  }
    where
      r : TaskResult
      r = pending_at t.index rs

      not_paid : is_success (status_at t.index rs) ≡ false
      not_paid = (idle-facts (status_at t.index rs) idle).0

      not_ended : is_terminal (status_at t.index rs) ≡ false
      not_ended = (idle-facts (status_at t.index rs) idle).1

      none_pending : is_pending (status_at t.index rs) ≡ false
      none_pending = (idle-facts (status_at t.index rs) idle).2

      same : (v : Str) → paid v (set rs t.index r) ≡ paid v rs
      same v = ground (arith, paid-set rs c.len t at r not_paid v, pending_at-status t.index rs)

      free_paid : paid t.path rs ≡ total sched t.path sched.tasks
      free_paid = ground (
        arith,
        is_zero_of (total sched t.path sched.tasks - paid t.path rs),
        c.waits t.path,
        tally-le_total sched t.path sched.tasks rs,
      )

  -- `handleResult` and the refusal of a worker: a task in flight ends.
  pub end-Core :
      {rs : List TaskResult} {remaining : Degrees} {flying flying' : ℕ → ℕ} {terminal : ℕ}
      → Core rs remaining flying terminal
      → (t : ScheduledTask) → At sched t
      → (r : TaskResult) → is_terminal r.status ≡ true
      → ((i : ℕ) → flying i ≡ flying' i + (if i == t.index then 1 else 0))
      → Core
          (set rs t.index r)
          (release_dependents sched t.path (is_success r.status) remaining)
          flying'
          (suc terminal)
  unfolding ended release_dependents payment
  end-Core {rs = rs} {remaining = remaining} c t at r e h = record {
    len = length-set rs t.index r ∙ c.len;
    flight = λ i.
        rw (written rs c.len t at r i)
          (ground (arith, h i, c.flight i, was_pending, (terminal-facts r.status e).0));
    waits = waits;
    clear = λ i u at' k. elim (Bool-cases (i == t.index)) [
      | inl here ↦ rw (same_path i t u at at' here) (full t.path (c.clear t.index t at not_idle))
      | inr other ↦ full u.path (c.clear i u at' (rw (written rs c.len t at r i, other) at k))
    ];
    settled = ground (arith, c.settled, ended-set rs c.len t at r not_ended);
  }
    where
      was_pending : is_pending (status_at t.index rs) ≡ true
      was_pending = ground (arith, h t.index, c.flight t.index)

      not_paid : is_success (status_at t.index rs) ≡ false
      not_paid = (pending-facts (status_at t.index rs) was_pending).0

      not_ended : is_terminal (status_at t.index rs) ≡ false
      not_ended = (pending-facts (status_at t.index rs) was_pending).1

      not_idle : is_idle (status_at t.index rs) ≡ false
      not_idle = (pending-facts (status_at t.index rs) was_pending).2

      full :
          (v : Str)
          → paid v rs ≡ total sched v sched.tasks
          → paid v (set rs t.index r) ≡ total sched v sched.tasks
      full v k = omega (
        arith,
        paid-set rs c.len t at r not_paid v,
        tally-le_total sched v sched.tasks (set rs t.index r),
      )

      waits :
          (v : Str)
          → find_or (pos 0) v (release_dependents sched t.path (is_success r.status) remaining)
            ≡ pos (total sched v sched.tasks - paid v (set rs t.index r))
      waits v = elim (Bool-cases (is_success r.status)) [
        | inl good ↦ rw good (
            release-degree (find_or [] t.path sched.edges) remaining v
              (total sched v sched.tasks - paid v (set rs t.index r))
              (c.waits v
                ∙ ap pos (
                    ground (
                      arith,
                      paid-set rs c.len t at r not_paid v,
                      tally-le_total sched v sched.tasks (set rs t.index r),
                    ))))
        | inr bad ↦
            rw bad (c.waits v ∙ ap pos (ground (arith, paid-set rs c.len t at r not_paid v)))
      ]
