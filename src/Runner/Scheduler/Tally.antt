-- ===== src/Runner/Scheduler/Tally.antt =====
-- Sums over the tasks of a schedule and the statuses of their results.
use m.Base.{
  ℕ, zero, suc, ◌+◌, ◌≤◌, ◌<◌, ◌≡◌, refl, ap, ◌∙◌, true, false, Option, none, some, List, [], ◌∷◌,
  Str, count, find_or, length, set, get_elem?, if◌then◌else◌, arith, ◌==◌,
}
use m.Runner.Schedule.{ScheduledTask, Schedule}
use m.Runner.Scheduler.{Status, TaskResult, status_at, is_success, no_results}
use m.Runner.Scheduler.Step.{is_terminal}

-- The sum of the weights of the tasks with the statuses that stand at their positions.
pub tally : (ScheduledTask → Status → ℕ) → List ScheduledTask → List TaskResult → ℕ
tally w [] rs = 0
tally w (t ∷ ts) [] = 0
tally w (t ∷ ts) (r ∷ rs) = w t r.status + tally w ts rs

-- A write exchanges the weight of one position.
pub tally-set :
    (w : ScheduledTask → Status → ℕ) (ts : List ScheduledTask) (rs : List TaskResult) (i : ℕ)
    (t : ScheduledTask) (r : TaskResult)
    → get_elem? ts i ≡ some t
    → length rs ≡ length ts
    → tally w ts (set rs i r) + w t (status_at i rs) ≡ tally w ts rs + w t r.status
unfolding tally status_at
tally-set w [] rs i t r h e = absurd (ground arith)
tally-set w (x ∷ ts) [] i t r h e = absurd (omega arith)
tally-set w (x ∷ ts) (y ∷ rs) zero t r h e =
    omega (arith, ap (weight y.status) h, ap (weight r.status) h)
  where
    weight : Status → Option ScheduledTask → ℕ
    weight status none = 0
    weight status (some a) = w a status
tally-set w (x ∷ ts) (y ∷ rs) (suc i) t r h e =
    omega (arith, tally-set w ts rs i t r h (omega arith))

pub status_at-set :
    (rs : List TaskResult) (i j : ℕ) (r : TaskResult)
    → i < length rs
    → status_at j (set rs i r) ≡ (if j == i then r.status else status_at j rs)
unfolding status_at
status_at-set [] i j r h = absurd (omega arith)
status_at-set (x ∷ rs) zero zero r h = refl
status_at-set (x ∷ rs) zero (suc j) r h = ground arith
status_at-set (x ∷ rs) (suc i) zero r h = ground arith
status_at-set (x ∷ rs) (suc i) (suc j) r h = status_at-set rs i j r (omega arith) ∙ ground arith

pub get_elem?-bound :
    (ts : List ScheduledTask) (i : ℕ) (t : ScheduledTask) → get_elem? ts i ≡ some t → i < length ts
get_elem?-bound [] i t h = absurd (ground arith)
get_elem?-bound (x ∷ ts) zero t h = omega arith
get_elem?-bound (x ∷ ts) (suc i) t h = omega (arith, get_elem?-bound ts i t h)

-- A task's weight in the paying of a path: how often its success counts down the path's degree.
unfoldable pub payment : Schedule → Str → ScheduledTask → Status → ℕ
payment sched v t status = if is_success status then count v (find_or [] t.path sched.edges) else 0

-- The edges into a path, over all tasks.
unfoldable pub total : Schedule → Str → List ScheduledTask → ℕ
total sched v [] = 0
total sched v (t ∷ ts) = count v (find_or [] t.path sched.edges) + total sched v ts

pub tally-le_total :
    (sched : Schedule) (v : Str) (ts : List ScheduledTask) (rs : List TaskResult)
    → tally (payment sched v) ts rs ≤ total sched v ts
unfolding tally total payment
tally-le_total sched v [] rs = omega arith
tally-le_total sched v (t ∷ ts) [] = omega arith
tally-le_total sched v (t ∷ ts) (r ∷ rs) = ground (arith, tally-le_total sched v ts rs)

-- When a path is wholly paid, each task with an edge into it has succeeded.
pub tally-success :
    (sched : Schedule) (v : Str) (ts : List ScheduledTask) (rs : List TaskResult)
    → length rs ≡ length ts
    → tally (payment sched v) ts rs ≡ total sched v ts
    → (i : ℕ) (t : ScheduledTask) → get_elem? ts i ≡ some t
    → 0 < count v (find_or [] t.path sched.edges)
    → is_success (status_at i rs) ≡ true
unfolding tally total payment status_at
tally-success sched v [] rs l e i t h p = absurd (ground arith)
tally-success sched v (x ∷ ts) [] l e i t h p = absurd (omega arith)
tally-success sched v (x ∷ ts) (r ∷ rs) l e zero t h p =
    ground (arith, tally-le_total sched v ts rs, ap edges_into h)
  where
    edges_into : Option ScheduledTask → ℕ
    edges_into none = 0
    edges_into (some a) = count v (find_or [] a.path sched.edges)
tally-success sched v (x ∷ ts) (r ∷ rs) l e (suc i) t h p =
    tally-success sched v ts rs (omega arith) (ground (arith, tally-le_total sched v ts rs)) i t h p

-- The results with a terminal status.
unfoldable pub ended : ScheduledTask → Status → ℕ
ended t status = if is_terminal status then 1 else 0

ended-le : (ts : List ScheduledTask) (rs : List TaskResult) → tally ended ts rs ≤ length ts
unfolding tally ended
ended-le [] rs = omega arith
ended-le (t ∷ ts) [] = omega arith
ended-le (t ∷ ts) (r ∷ rs) = ground (arith, ended-le ts rs)

pub ended-lt :
    (ts : List ScheduledTask) (rs : List TaskResult) (i : ℕ) (t : ScheduledTask)
    → get_elem? ts i ≡ some t
    → is_terminal (status_at i rs) ≡ false
    → tally ended ts rs < length ts
unfolding tally ended status_at
ended-lt [] rs i t h p = absurd (ground arith)
ended-lt (x ∷ ts) [] i t h p = omega arith
ended-lt (x ∷ ts) (r ∷ rs) zero t h p = ground (arith, ended-le ts rs)
ended-lt (x ∷ ts) (r ∷ rs) (suc i) t h p = ground (arith, ended-lt ts rs i t h p)

pub no_results-tally :
    (w : ScheduledTask → Status → ℕ)
    → ((t : ScheduledTask) → w t Status.idle ≡ 0)
    → (ts us : List ScheduledTask) → tally w ts (no_results us) ≡ 0
unfolding tally no_results
no_results-tally w h [] us = refl
no_results-tally w h (t ∷ ts) [] = refl
no_results-tally w h (t ∷ ts) (u ∷ us) = omega (arith, h t, no_results-tally w h ts us)

pub length-no_results : (ts : List ScheduledTask) → length (no_results ts) ≡ length ts
unfolding no_results
length-no_results [] = refl
length-no_results (t ∷ ts) = ap suc (length-no_results ts)

pub status_at-no_results :
    (i : ℕ) (ts : List ScheduledTask) → status_at i (no_results ts) ≡ Status.idle
unfolding no_results status_at
status_at-no_results i [] = refl
status_at-no_results zero (t ∷ ts) = refl
status_at-no_results (suc i) (t ∷ ts) = status_at-no_results i ts
