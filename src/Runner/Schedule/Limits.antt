-- ===== src/Runner/Schedule/Limits.antt =====
-- The number of workers that `effectiveConcurrency` allows.
use m.Base.{ℕ, zero, suc, ◌≤◌, ◌<◌, ◌≡◌, refl, ltb, ◌==◌, if◌then◌else◌, arith}
use m.Base.Int.{ℤ, pos, negsuc}
use m.Apperr.{ok}
use m.Runner.Schedule.{effective_concurrency, validate_concurrency}

-- When ValidateConcurrency accepts the request and there is a task, the concurrency is at least
-- one and at most the number of the tasks, and it is the request where that lies within these
-- bounds.
pub effective_concurrency_lem :
    (procs n : ℕ) (requested : ℤ)
    → validate_concurrency requested ≡ ok tt
    → 0 < n
    → (e : ℕ) × (effective_concurrency procs requested n ≡ pos e)
      × (0 < e)
      × (e ≤ n)
      × ((r : ℕ) → requested ≡ pos r → 0 < r → r ≤ n → e ≡ r)
unfolding effective_concurrency validate_concurrency
effective_concurrency_lem procs zero requested v h = absurd (omega arith)
effective_concurrency_lem procs (suc n) (negsuc k) v h = absurd (ground arith)
effective_concurrency_lem procs (suc n) (pos r) v h =
    (limited, refl, ground arith, ground arith, λ r' e p le. fits r' e p le)
  where
    asked : ℕ
    asked = if r == 0 then procs else r

    raised : ℕ
    raised = if ltb asked 1 then 1 else asked

    limited : ℕ
    limited = if ltb (suc n) raised then suc n else raised

    fits : (r' : ℕ) → pos r ≡ pos r' → 0 < r' → r' ≤ suc n → limited ≡ r'
    fits r' e p le = ground arith
