-- ===== src/Transaction/Rollback/Quiet.antt =====
-- internal/transaction/runner.go: the first loop of Rollback, from the last index down, and which
-- operations are under way behind it.
use m.Base.{
  Each, ℕ, zero, suc, ◌≡◌, refl, ◌∙◌, subst, false, none, some, List, [], ◌∷◌, map, Str, get_elem?,
  length, arith,
}
use m.Transaction.Journal.{Op, Progress, pending_op, or_pending}
use m.Transaction.Session.{⊤, alter}
use m.Transaction.Rollback.{is_under_way, plan_has_applied_path}

-- Nothing is under way from the index `i` on.
pub Quiet : ℕ → List Op → Type 0
Quiet i [] = ⊤
Quiet zero (op ∷ plan) = (is_under_way op.progress ≡ false) × Quiet zero plan
Quiet (suc i) (op ∷ plan) = Quiet i plan

or_pending-quiet : (p : Progress) → is_under_way (or_pending p) ≡ is_under_way p
unfolding or_pending
or_pending-quiet Progress.unset = refl
or_pending-quiet Progress.pending = refl
or_pending-quiet Progress.applying = refl
or_pending-quiet Progress.applied = refl
or_pending-quiet Progress.rolling_back = refl
or_pending-quiet Progress.rolled_back = refl
or_pending-quiet (Progress.other s) = refl

pub pending-Quiet : (i : ℕ) (plan : List Op) → Quiet i plan → Quiet i (map pending_op plan)
unfolding Quiet pending_op
pending-Quiet i [] h = tt
pending-Quiet zero (op ∷ plan) (settled, rest) =
    (or_pending-quiet op.progress ∙ settled, pending-Quiet zero plan rest)
pending-Quiet (suc i) (op ∷ plan) h = pending-Quiet i plan h

-- A change at an index does not concern what is behind it.
pub alter-Quiet :
    (i : ℕ) (f : Op → Op) (plan : List Op) → Quiet (suc i) plan → Quiet (suc i) (alter i f plan)
unfolding Quiet alter
alter-Quiet i f [] h = tt
alter-Quiet zero f (op ∷ plan) h = h
alter-Quiet (suc i) f (op ∷ plan) h = alter-Quiet i f plan h

-- The change that ends an operation.
pub settle-Quiet :
    (i : ℕ) (f : Op → Op) (plan : List Op)
    → ((op : Op) → is_under_way (f op).progress ≡ false)
    → Quiet (suc i) plan
    → Quiet i (alter i f plan)
unfolding Quiet alter
settle-Quiet i f [] ends h = tt
settle-Quiet zero f (op ∷ plan) ends h = (ends op, quiet plan h)
  where
    quiet : (xs : List Op) → Quiet zero xs → Quiet zero xs
    quiet xs q = q
settle-Quiet (suc i) f (op ∷ plan) ends h = settle-Quiet i f plan ends h

pub skip-Quiet :
    (i : ℕ) (plan : List Op) (op : Op)
    → get_elem? plan i ≡ some op
    → is_under_way op.progress ≡ false
    → Quiet (suc i) plan
    → Quiet i plan
unfolding Quiet
skip-Quiet i [] op h settled q = tt
skip-Quiet zero (x ∷ plan) op h settled q =
    (subst (λ o. is_under_way o.progress ≡ false) same settled, q)
  where
    same : op ≡ x
    same = ground arith
skip-Quiet (suc i) (x ∷ plan) op h settled q = skip-Quiet i plan op h settled q

pub past-Quiet :
    (i : ℕ) (plan : List Op) → get_elem? plan i ≡ none → Quiet (suc i) plan → Quiet i plan
unfolding Quiet
past-Quiet i [] h q = tt
past-Quiet zero (x ∷ plan) h q = absurd (ground arith)
past-Quiet (suc i) (x ∷ plan) h q = past-Quiet i plan h q

-- Where nothing is under way, no path has an applied operation.
pub Quiet→not_applied :
    (path : Str) (plan : List Op) → Quiet 0 plan → plan_has_applied_path path plan ≡ false
unfolding Quiet plan_has_applied_path
Quiet→not_applied path [] h = refl
Quiet→not_applied path (op ∷ plan) (settled, rest) =
    ground (arith, settled, Quiet→not_applied path plan rest)

pub empty-Quiet : (i : ℕ) → Quiet i []
unfolding Quiet
empty-Quiet i = tt

pub length-Quiet : (plan : List Op) → Quiet (length plan) plan
unfolding Quiet
length-Quiet [] = tt
length-Quiet (op ∷ plan) = length-Quiet plan

-- No operation is applied or being applied.
abbrev pub AllSettled : List Op → Type 0
AllSettled plan = Each (λ op. is_under_way op.progress ≡ false) plan

pub Quiet→AllSettled : (plan : List Op) → Quiet 0 plan → AllSettled plan
unfolding Quiet
Quiet→AllSettled [] q = tt
Quiet→AllSettled (op ∷ plan) (settled, q) = (settled, Quiet→AllSettled plan q)
