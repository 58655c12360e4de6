-- ===== src/Transaction/Rollback/Settled.antt =====
-- internal/transaction/runner.go: what the journal says behind a Rollback, on any disk.
use m.Base.{
  Each, ℕ, zero, suc, ◌≡◌, refl, ap, subst, false, Option, none, some, List, [], ◌∷◌, map, Str,
  get_elem?, length, arith,
}
use m.Apperr.{Result, ok, err}
use m.Transaction.Journal.{Op, pending_op}
use m.Transaction.Disk.{System, Call}
use m.Transaction.Session.{⊤, Session, pure, gets, ◌>>=◌}
use m.Transaction.Publish.{when}
use m.Transaction.Finish.{FinishOpts, FinishResult}
use m.Transaction.Rollback.{is_under_way, roll_back_tree, rollback, undo_at, undo_below}
use m.Transaction.Rollback.Quiet.{Quiet, AllSettled, Quiet→AllSettled, pending-Quiet, length-Quiet}
use m.Transaction.Rollback.Kept.{repair-Keeps, finishing-Keeps, restore_all-Keeps}
use m.Transaction.Rollback.Undone.{undo_below-Settles}
use m.Transaction.Touch.{
  Restoring, Fits, Restores, Holds, Brings, OnOk, bind-Brings, gets-Brings, gets_here-Brings,
  Keeps-Brings, Clerical,
}
use m.Transaction.Touch.Saving.{clerk, hooked-Keeps, ignore-Keeps, set_state-Keeps}

module _ (S : System) (ops : List Op) where
  abbrev Any : Str → Str → Type 0
  Any path src = ⊤

  abbrev Nothing : S.World → List Op → Type 0
  Nothing w plan = ⊤

  abbrev Still : S.World → List Op → Type 0
  Still w plan = ⊤ × Quiet 0 plan

  abbrev Begun : Session S → Type 0
  Begun = Holds S Nothing Any ops

  abbrev Settled : Session S → Type 0
  Settled = Holds S Still Any ops

  all_fit : (plan : List Op) → Each (Fits Any) plan
  all_fit [] = tt
  all_fit (op ∷ plan) = (tt, all_fit plan)

  all_restore : (xs : List Op) → Each (Restores S Nothing) xs
  all_restore [] = tt
  all_restore (op ∷ xs) = ((λ c t w p h. h), all_restore xs)

  all_still : (xs : List Op) → Each (Restores S Still) xs
  all_still [] = tt
  all_still (op ∷ xs) = ((λ c t w p h. h), all_still xs)

  all_recorded :
      (xs : List Op)
      → Each (λ op. (c : Call) → Restoring op.path op.backup c → (w : S.World) → ⊤ → ⊤) xs
  all_recorded [] = tt
  all_recorded (op ∷ xs) = ((λ c t w h. h), all_recorded xs)

  pend : (w : S.World) (plan : List Op) → Still w plan → Still w (map pending_op plan)
  pend w plan (h, q) = (h, pending-Quiet 0 plan q)

  undone : (s : Session S) → Begun s → OnOk S Settled (undo_below (length s.doc.plan) s)
  undone s (h, same, fits) =
      (undo_below-Settles S (λ w. ⊤) Any ops (λ c t w i. i) (λ path src fit c t w i. i)
          (all_recorded ops) (length s.doc.plan)).brought
        s ((h, length-Quiet s.doc.plan), same, fits)

  roll_back_tree-Settled : Brings S Begun roll_back_tree Settled
  unfolding roll_back_tree
  roll_back_tree-Settled =
      bind-Brings S
        (Keeps-Brings S Nothing Any ops
          (clerk S Nothing Any ops (λ w p h. h) (λ c t w p h. h) Clerical.poll))
        λ _.
          bind-Brings S
            (Keeps-Brings S Nothing Any ops
              (hooked-Keeps S Nothing Any ops (λ w p h. h) (λ c t w p h. h) _ _ _))
            λ _.
              bind-Brings S
                (Keeps-Brings S Nothing Any ops (
                  ignore-Keeps S Nothing Any ops (λ w p h. h)
                    (repair-Keeps S Nothing Any ops (λ w p h. h) (λ c t w p h. h)
                      (λ path src f c t w p h. h) (all_restore ops) (λ c t w p h. h))))
                λ _. gets_here-Brings S _ undo_below _ undone λ _. gets-Brings S _ λ s h.
                  Keeps-Brings S Still Any ops (
                    restore_all-Keeps S Still Any ops pend (λ c t w p h'. h')
                      (λ path src f c t w p h'. h') (all_still ops) (λ c t w p h'. h') s.doc.ops
                      (all_still s.doc.ops))

  rollback-Brings : (opts : FinishOpts) → Brings S Begun (rollback opts) Settled
  unfolding rollback
  rollback-Brings opts = bind-Brings S roll_back_tree-Settled λ _.
      bind-Brings S
        (Keeps-Brings S Still Any ops (set_state-Keeps S Still Any ops pend (λ c t w p h. h) _))
        λ _.
          Keeps-Brings S Still Any ops (finishing-Keeps S Still Any ops pend (λ c t w p h. h) opts)

-- The loop over a plan without an operation under way does nothing.
settled_at :
    (plan : List Op) (i : ℕ) (op : Op)
    → AllSettled plan
    → get_elem? plan i ≡ some op
    → is_under_way op.progress ≡ false
settled_at [] i op h e = absurd (ground arith)
settled_at (x ∷ plan) zero op h e = subst (λ o. is_under_way o.progress ≡ false) same h.0
  where
    same : x ≡ op
    same = ground arith
settled_at (x ∷ plan) (suc i) op h e = settled_at plan i op h.1 e

module _ {S : System} (s : Session S) (h : AllSettled s.doc.plan) where
  undo_at-idle : (i : ℕ) (o : Option Op) → get_elem? s.doc.plan i ≡ o → undo_at i o s ≡ (ok tt, s)
  unfolding undo_at when pure
  undo_at-idle i none e = refl
  undo_at-idle i (some op) e = rw (settled_at s.doc.plan i op h e) refl

  undo_below-idle : (n : ℕ) → undo_below n s ≡ (ok tt, s)
  unfolding undo_below pure gets ◌>>=◌
  undo_below-idle zero = refl
  undo_below-idle (suc i) = rw (undo_at-idle i (get_elem? s.doc.plan i) refl) (undo_below-idle i)

-- On any disk, and from any progress of the operations of the plan: when Rollback returns without
-- an error, no operation of the plan is applied or being applied in the journal it leaves, the
-- recorded operations are the same, and the loop over the plan, run again from any index, makes no
-- call and changes nothing.
pub rollback-AllSettled :
    (S : System) (s s' : Session S) (opts : FinishOpts) (fr : FinishResult)
    → rollback opts s ≡ (ok fr, s')
    → AllSettled s'.doc.plan × (s'.doc.ops ≡ s.doc.ops) × ((n : ℕ) → undo_below n s' ≡ (ok tt, s'))
rollback-AllSettled S s s' opts fr done =
    after (rollback opts s) done
      ((rollback-Brings S s.doc.ops opts).brought s (tt, refl, all_fit S s.doc.ops s.doc.plan))
  where
    after :
        (r : Result FinishResult × Session S)
        → r ≡ (ok fr, s')
        → OnOk S (Settled S s.doc.ops) r
        → AllSettled s'.doc.plan
          × (s'.doc.ops ≡ s.doc.ops)
          × ((n : ℕ) → undo_below n s' ≡ (ok tt, s'))
    after (err e, x) same h = absurd (ground arith)
    after (ok a, x) same h =
        let settled : Settled S s.doc.ops s' =
          subst (λ y. Settled S s.doc.ops y) (ap (λ r. r.1) same) h in
        let quiet = Quiet→AllSettled s'.doc.plan settled.0.1 in
        (quiet, settled.1, undo_below-idle s' quiet)
