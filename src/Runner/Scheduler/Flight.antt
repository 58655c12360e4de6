-- ===== src/Runner/Scheduler/Flight.antt =====
-- The tasks in flight: how often an index stands in a list of tasks, and what holds of them all.
use m.Base.{
  ℕ, suc, ◌+◌, ◌≤◌, ◌≡◌, refl, ap, ◌∙◌, true, some, List, [], ◌∷◌, ◌++◌, get_elem?, if◌then◌else◌,
  arith, ◌==◌, Bool-cases, inl, inr, ◌&&◌, find_or, leb,
}
use m.Base.Int.{pos, is_zero}
use m.Base.Sort.{sort, insert}
use m.Runner.Schedule.{ScheduledTask, Schedule}
use m.Runner.Scheduler.{State, by_path, collect_ready, is_idle, status_at}

unfoldable pub occ : ℕ → List ScheduledTask → ℕ
occ i [] = 0
occ i (t ∷ ts) = (if i == t.index then 1 else 0) + occ i ts

pub occ-append : (i : ℕ) (xs ys : List ScheduledTask) → occ i (xs ++ ys) ≡ occ i xs + occ i ys
unfolding occ
occ-append i [] ys = omega arith
occ-append i (x ∷ xs) ys = omega (arith, occ-append i xs ys)

pub occ-out :
    (i : ℕ) (xs : List ScheduledTask) (t : ScheduledTask) (ys zs : List ScheduledTask)
    → zs ≡ xs ++ t ∷ ys
    → occ i zs ≡ occ i (xs ++ ys) + (if i == t.index then 1 else 0)
unfolding occ
occ-out i xs t ys zs e = ap (occ i) e ∙ omega (arith, occ-append i xs (t ∷ ys), occ-append i xs ys)

occ-insert :
    (i : ℕ) (x : ScheduledTask) (ys : List ScheduledTask)
    → occ i (insert by_path x ys) ≡ occ i (x ∷ ys)
unfolding occ insert
occ-insert i x [] = refl
occ-insert i x (y ∷ ys) = ground (arith, occ-insert i x ys)

pub occ-sort : (i : ℕ) (xs : List ScheduledTask) → occ i (sort by_path xs) ≡ occ i xs
unfolding occ sort
occ-sort i [] = refl
occ-sort i (x ∷ xs) = omega (arith, occ-insert i x (sort by_path xs), occ-sort i xs)

abbrev pub All : (ScheduledTask → Type 0) → List ScheduledTask → Type 0
All P [] = Unit
All P (t ∷ ts) = P t × All P ts

pub All-append :
    (P : ScheduledTask → Type 0) (xs ys : List ScheduledTask)
    → All P xs
    → All P ys
    → All P (xs ++ ys)
All-append P [] ys a b = b
All-append P (x ∷ xs) ys a b = (a.0, All-append P xs ys a.1 b)

-- Taking out one task.
pub All-out :
    (P : ScheduledTask → Type 0) (xs : List ScheduledTask) (t : ScheduledTask)
    (ys : List ScheduledTask)
    → All P (xs ++ t ∷ ys)
    → P t × All P (xs ++ ys)
All-out P [] t ys a = a
All-out P (x ∷ xs) t ys a = let (p, rest) = All-out P xs t ys a.1 in (p, (a.0, rest))

All-insert :
    (P : ScheduledTask → Type 0) (x : ScheduledTask) (ys : List ScheduledTask)
    → P x
    → All P ys
    → All P (insert by_path x ys)
unfolding insert
All-insert P x [] p a = (p, tt)
All-insert P x (y ∷ ys) p a = elim (Bool-cases (by_path y x)) [
  | inl h ↦ rw h (a.0, All-insert P x ys p a.1)
  | inr h ↦ rw h (p, a)
]

pub All-sort :
    (P : ScheduledTask → Type 0) (xs : List ScheduledTask) → All P xs → All P (sort by_path xs)
unfolding sort
All-sort P [] a = tt
All-sort P (x ∷ xs) a = All-insert P x (sort by_path xs) a.0 (All-sort P xs a.1)

-- The task stands in the schedule at its index.
abbrev pub At : Schedule → ScheduledTask → Type 0
At sched t = get_elem? sched.tasks t.index ≡ some t

-- The task waits for nothing and has not been sent.
pub record IsFit (sched : Schedule) (s : State) (t : ScheduledTask) : Type 0 where
  pub at : At sched t
  pub unsent : is_idle (status_at t.index s.results) ≡ true
  pub free : is_zero (find_or (pos 0) t.path s.remaining) ≡ true

-- Consecutive indices from `i`, at the positions that follow `i`.
abbrev pub Numbered : ℕ → List ScheduledTask → Type 0
Numbered i [] = Unit
Numbered i (t ∷ ts) = (t.index ≡ i) × Numbered (suc i) ts

occ-collect :
    (s : State) (i k : ℕ) (ts : List ScheduledTask)
    → Numbered k ts
    → occ i (collect_ready s ts) ≤ (if leb k i then 1 else 0)
unfolding occ collect_ready
occ-collect s i k [] n = omega arith
occ-collect s i k (t ∷ ts) n = ground (arith, n.0, occ-collect s i (suc k) ts n.1)

pub occ-collect_ready :
    (sched : Schedule) (s : State) (i : ℕ)
    → Numbered 0 sched.tasks
    → occ i (collect_ready s sched.tasks) ≤ 1
occ-collect_ready sched s i n = ground (arith, occ-collect s i 0 sched.tasks n)

pub collect_ready-IsFit :
    (sched : Schedule) (s : State) (ts : List ScheduledTask)
    → All (At sched) ts
    → All (IsFit sched s) (collect_ready s ts)
unfolding collect_ready
collect_ready-IsFit sched s [] a = tt
collect_ready-IsFit sched s (t ∷ ts) a =
    elim (Bool-cases
      (is_zero (find_or (pos 0) t.path s.remaining) && is_idle (status_at t.index s.results))) [
        | inl h ↦ rw h (
          record { at = a.0; unsent = ground arith; free = ground arith },
          collect_ready-IsFit sched s ts a.1,
        )
        | inr h ↦ rw h (collect_ready-IsFit sched s ts a.1)
      ]
