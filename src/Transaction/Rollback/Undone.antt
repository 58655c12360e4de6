-- ===== src/Transaction/Rollback/Undone.antt =====
-- internal/transaction/runner.go: the loop of Rollback over the plan, as a whole.
use m.Base.{
  Each, ℕ, zero, suc, ◌≡◌, refl, sym, subst, Bool, true, false, Option, none, some, List, [], ◌∷◌,
  map, Str, get_elem?,
}
use m.Transaction.Journal.{Op, pending_op}
use m.Transaction.Disk.{System, Call}
use m.Transaction.Session.{⊤, Session, Action, alter_plan, pure, set_doc}
use m.Transaction.Publish.{when, find_backup}
use m.Transaction.Rollback.{is_under_way, undo, undo_at, undo_below}
use m.Transaction.Rollback.Quiet.{
  Quiet, pending-Quiet, alter-Quiet, settle-Quiet, skip-Quiet, past-Quiet,
}
use m.Transaction.Rollback.Kept.{restore_found-Keeps, cleanup-Keeps, find-Restores, RestoresFound}
use m.Transaction.Touch.{
  Touch, Restoring, Safe, Fits, Restores, Holds, Brings, OnOk, bind-Brings, gets-Brings,
  gets_here-Brings, Keeps-Brings, Clerical, alter-Fits,
}
use m.Transaction.Touch.Saving.{
  Free, FitsAt, at-Fits, alter_plan-Keeps, save_journal-Keeps, clerk, hooked-Keeps,
}

module _ (S : System) (I : S.World → Type 0) (F : Str → Str → Type 0) (ops : List Op) where
  -- What is kept of the world, and nothing under way from the index `i` on.
  abbrev pub Q : ℕ → S.World → List Op → Type 0
  Q i w plan = I w × Quiet i plan

  -- A call that keeps what is kept of the world.
  abbrev pub SafeI : Call → Type 0
  SafeI c = (w : S.World) → I w → I (S.act c w).1

  pub safe_at : (i : ℕ) (c : Call) → SafeI c → Safe S (Q i) c
  safe_at i c safe w plan (h, q) = (safe w h, q)

  abbrev P : ℕ → Session S → Type 0
  P i = Holds S (Q i) F ops

  pub pend : (i : ℕ) (w : S.World) (plan : List Op) → Q i w plan → Q i w (map pending_op plan)
  pend i w plan (h, q) = (h, pending-Quiet i plan q)

  free : (i : ℕ) → Free S (Q (suc i)) F ops (pend (suc i)) i
  free i f w plan (h, q) = (h, alter-Quiet i f plan q)

  settles :
      (i : ℕ) (f : Op → Op)
      → ((op : Op) → is_under_way (f op).progress ≡ false)
      → ((op : Op) → Fits F op → Fits F (f op))
      → Brings S (P (suc i)) (alter_plan i f) (P i)
  unfolding alter_plan set_doc
  settles i f ends keeps = record {
    brought = λ s ((h, q), same, fits). (
      (h, settle-Quiet i f s.doc.plan ends q),
      same,
      alter-Fits S (Q i) F ops i f s.doc.plan keeps fits,
    );
  }

  module _ (clerical : (c : Call) → Clerical c → SafeI c)
      (able : (path src : Str) → F path src → (c : Call) → Touch path src c → SafeI c)
      (recorded : Each (λ op. (c : Call) → Restoring op.path op.backup c → SafeI c) ops) where
    clerical_at : (i : ℕ) (c : Call) → Clerical c → Safe S (Q i) c
    clerical_at i c t = safe_at i c (clerical c t)

    able_at : (i : ℕ) (path src : Str) → F path src → (c : Call) → Touch path src c → Safe S (Q i) c
    able_at i path src h c t = safe_at i c (able path src h c t)

    pub recorded_at :
        (i : ℕ) (xs : List Op)
        → Each (λ op. (c : Call) → Restoring op.path op.backup c → SafeI c) xs
        → Each (Restores S (Q i)) xs
    recorded_at i [] h = tt
    recorded_at i (op ∷ xs) (fits, rest) = ((λ c t. safe_at i c (fits c t)), recorded_at i xs rest)

    found :
        (i : ℕ) (path : Str) (xs : List Op)
        → xs ≡ ops
        → RestoresFound S (Q i) F ops (pend i) (clerical_at i) (find_backup path xs)
    found i path xs same =
        subst (λ ys. RestoresFound S (Q i) F ops (pend i) (clerical_at i) (find_backup path ys))
          (sym same)
          (find-Restores S (Q i) F ops (pend i) (clerical_at i) path ops
            (recorded_at i ops recorded))

    undo-Settles : (i : ℕ) (op : Op) → Fits F op → Brings S (P (suc i)) (undo i op) (P i)
    unfolding undo
    undo-Settles i op fits =
        let j = suc i in
        bind-Brings S
          (Keeps-Brings S (Q j) F ops (clerk S (Q j) F ops (pend j) (clerical_at j) Clerical.poll))
          λ _.
            bind-Brings S
              (Keeps-Brings S (Q j) F ops
                (alter_plan-Keeps S (Q j) F ops (pend j) i _ (free i) λ o h. h))
              λ _.
                bind-Brings S
                  (Keeps-Brings S (Q j) F ops
                    (save_journal-Keeps S (Q j) F ops (pend j) (clerical_at j)))
                  λ _. gets-Brings S _ λ s h.
                    bind-Brings S
                      (Keeps-Brings S (Q j) F ops (
                        restore_found-Keeps S (Q j) F ops (pend j) (clerical_at j) i _ (free i)
                          (found j op.path s.doc.ops h.1)))
                      λ _.
                        bind-Brings S
                          (Keeps-Brings S (Q j) F ops (
                            cleanup-Keeps S (Q j) F ops (pend j) (clerical_at j) (able_at j) op
                              op.kind fits))
                          λ _. bind-Brings S (settles i _ (λ o. refl) λ o h'. h') λ _.
                            Keeps-Brings S (Q i) F ops
                              (save_journal-Keeps S (Q i) F ops (pend i) (clerical_at i))

    undo_if :
        (i : ℕ) (b : Bool) (m : Action S ⊤) (s : Session S)
        → Brings S (P (suc i)) m (P i)
        → P (suc i) s
        → (b ≡ false → P i s)
        → OnOk S (P i) (when b m s)
    unfolding when pure
    undo_if i true m s undone h skipped = undone.brought s h
    undo_if i false m s undone h skipped = skipped refl

    undo_at-Settles :
        (i : ℕ) (o : Option Op) (s : Session S)
        → get_elem? s.doc.plan i ≡ o
        → P (suc i) s
        → OnOk S (P i) (undo_at i o s)
    unfolding undo_at pure
    undo_at-Settles i none s h ((w, q), same, fits) = ((w, past-Quiet i s.doc.plan h q), same, fits)
    undo_at-Settles i (some op) s h ((w, q), same, fits) =
        undo_if i (is_under_way op.progress) _ s
          (bind-Brings S
            (Keeps-Brings S (Q j) F ops (hooked-Keeps S (Q j) F ops (pend j) (clerical_at j) _ _ _))
            λ _. undo-Settles i op (
              subst (FitsAt S (Q j) F ops (pend j) (clerical_at j)) h
                (at-Fits S (Q j) F ops (pend j) (clerical_at j) s.doc.plan i fits)))
          ((w, q), same, fits) λ settled. ((w, skip-Quiet i s.doc.plan op h settled q), same, fits)
      where
        j : ℕ
        j = suc i

    -- When the loop over the plan has no error, nothing is under way behind it.
    pub undo_below-Settles : (n : ℕ) → Brings S (P n) (undo_below n) (P 0)
    unfolding undo_below pure
    undo_below-Settles zero = record { brought = λ s h. h }
    undo_below-Settles (suc i) =
        gets_here-Brings S _ (undo_at i) _ (λ s h. undo_at-Settles i _ s refl h)
          λ _. undo_below-Settles i
