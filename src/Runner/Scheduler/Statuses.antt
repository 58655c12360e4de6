-- ===== src/Runner/Scheduler/Statuses.antt =====
-- internal/runner/workspace.go: how the tests of a task's status exclude each other.
use m.Base.{◌≡◌, refl, Bool, true, false, arith}
use m.Runner.Scheduler.{Status, is_idle, is_success}
use m.Runner.Scheduler.Step.{is_terminal}

unfoldable pub is_pending : Status → Bool
is_pending Status.pending = true
is_pending _ = false

pub idle-facts :
    (st : Status)
    → is_idle st ≡ true
    → (is_success st ≡ false) × (is_terminal st ≡ false) × (is_pending st ≡ false)
unfolding is_idle is_success is_terminal is_pending
idle-facts Status.idle h = (refl, refl, refl)
idle-facts Status.pending h = absurd (ground arith)
idle-facts Status.running h = absurd (ground arith)
idle-facts Status.done h = absurd (ground arith)
idle-facts Status.failed h = absurd (ground arith)
idle-facts Status.skipped h = absurd (ground arith)
idle-facts Status.cancelled h = absurd (ground arith)
idle-facts Status.not_run h = absurd (ground arith)

pub pending-facts :
    (st : Status)
    → is_pending st ≡ true
    → (is_success st ≡ false) × (is_terminal st ≡ false) × (is_idle st ≡ false)
unfolding is_idle is_success is_terminal is_pending
pending-facts Status.pending h = (refl, refl, refl)
pending-facts Status.idle h = absurd (ground arith)
pending-facts Status.running h = absurd (ground arith)
pending-facts Status.done h = absurd (ground arith)
pending-facts Status.failed h = absurd (ground arith)
pending-facts Status.skipped h = absurd (ground arith)
pending-facts Status.cancelled h = absurd (ground arith)
pending-facts Status.not_run h = absurd (ground arith)

pub terminal-facts :
    (st : Status) → is_terminal st ≡ true → (is_pending st ≡ false) × (is_idle st ≡ false)
unfolding is_idle is_success is_terminal is_pending
terminal-facts Status.pending h = absurd (ground arith)
terminal-facts Status.idle h = absurd (ground arith)
terminal-facts Status.running h = absurd (ground arith)
terminal-facts Status.done h = (refl, refl)
terminal-facts Status.failed h = (refl, refl)
terminal-facts Status.skipped h = (refl, refl)
terminal-facts Status.cancelled h = (refl, refl)
terminal-facts Status.not_run h = (refl, refl)
