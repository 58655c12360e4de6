-- ===== src/Transaction/Rollback/Kept.antt =====
-- internal/transaction/runner.go: what a rollback keeps.
use m.Base.{
  Each, ℕ, Bool, true, false, Option, none, some, List, [], ◌∷◌, map, Str, str_eq, ◌&&◌,
  if◌then◌else◌,
}
use m.Apperr.{Error}
use m.Transaction.Journal.{Op, Kind, DestKind, pending_op}
use m.Transaction.Disk.{System, Call, Place, Stat, FileRead}
use m.Transaction.Session.{⊤, Session, Action, gets, ◌>>=◌, call, wrap}
use m.Transaction.Publish.{find_backup, is_backup}
use m.Transaction.Finish.{
  FinishOpts, FinishResult, finish_critical_cleanup, cleared, unlocked, noting_if,
}
use m.Transaction.Rollback.{
  restore_junction, restore_symlink, restore_copy, restore_as, restore_prior, restore_backup,
  cleanup_partial_publish, restore_found, restore_unless, restore_all, repair_from,
  repair_partial_node_modules, finishing,
}
use m.Transaction.Touch.{
  Touch, Restoring, Repairing, Clerical, Safe, Fits, Restores, Holds, Keeps, call-Keeps,
}
use m.Transaction.Touch.Saving.{
  Free, next, pure-Keeps, raise-Keeps, ignore-Keeps, gets-Keeps, wrap-Keeps, when-Keeps,
  enter-Keeps,
}

module _ (S : System) (Q : S.World → List Op → Type 0) (F : Str → Str → Type 0) (ops : List Op)
    (pend : (w : S.World) (plan : List Op) → Q w plan → Q w (map pending_op plan)) where
  abbrev K : {A : Type 0} → Action S A → Type 0
  K m = Keeps S Q F ops m

  abbrev may : (op : Op) → Restores S Q op → {c : Call} → Restoring op.path op.backup c → K (call c)
  may op fits t = call-Keeps S Q F ops _ (fits _ t)

  abbrev cleared_first :
      (op : Op) (e : Error)
      → Restores S Q op
      → K (wrap e (call (Call.remove_all (Place.live op.path))))
  cleared_first op e fits = wrap-Keeps S Q F ops pend _ (may op fits Restoring.remove)

  restore_junction-Keeps :
      (op : Op) (r : FileRead (Str × Str)) → Restores S Q op → K (restore_junction op r)
  unfolding restore_junction
  restore_junction-Keeps op (FileRead.found (sub, print)) fits =
      next S Q F ops pend (cleared_first op _ fits) λ _. may op fits (Restoring.junction sub print)
  restore_junction-Keeps op FileRead.missing fits = may op fits Restoring.remove
  restore_junction-Keeps op FileRead.failed fits = raise-Keeps S Q F ops pend _ _

  restore_symlink-Keeps : (op : Op) (r : FileRead Str) → Restores S Q op → K (restore_symlink op r)
  unfolding restore_symlink
  restore_symlink-Keeps op (FileRead.found target) fits =
      next S Q F ops pend (ignore-Keeps S Q F ops pend (may op fits Restoring.remove))
        λ _. may op fits (Restoring.link _)
  restore_symlink-Keeps op FileRead.missing fits = may op fits Restoring.remove
  restore_symlink-Keeps op FileRead.failed fits = raise-Keeps S Q F ops pend _ _

  restore_copy-Keeps : (op : Op) (t : Stat) → Restores S Q op → K (restore_copy op t)
  unfolding restore_copy
  restore_copy-Keeps op Stat.missing fits = may op fits Restoring.remove
  restore_copy-Keeps op Stat.directory fits =
      next S Q F ops pend (cleared_first op _ fits) λ _. may op fits Restoring.copy
  restore_copy-Keeps op Stat.plain fits =
      next S Q F ops pend (cleared_first op _ fits) λ _. may op fits Restoring.copy
  restore_copy-Keeps op Stat.failed fits =
      next S Q F ops pend (cleared_first op _ fits) λ _. may op fits Restoring.copy

  copied :
      (op : Op)
      → Restores S Q op
      → K (do restore_copy op (← gets λ s. S.stat s.world (Place.txn op.backup)))
  copied op fits = gets-Keeps S Q F ops pend _ λ s h. restore_copy-Keeps op _ fits

  restore_as-Keeps : (op : Op) (kind : DestKind) → Restores S Q op → K (restore_as op kind)
  unfolding restore_as
  restore_as-Keeps op DestKind.junction fits =
      gets-Keeps S Q F ops pend _ λ s h. restore_junction-Keeps op _ fits
  restore_as-Keeps op DestKind.symlink fits =
      gets-Keeps S Q F ops pend _ λ s h. restore_symlink-Keeps op _ fits
  restore_as-Keeps op DestKind.nothing fits = copied op fits
  restore_as-Keeps op DestKind.file fits = copied op fits
  restore_as-Keeps op DestKind.dir fits = copied op fits
  restore_as-Keeps op (DestKind.other k) fits = copied op fits

  restore_prior-Keeps :
      (op : Op) (had unsaved : Bool) → Restores S Q op → K (restore_prior op had unsaved)
  unfolding restore_prior
  restore_prior-Keeps op false unsaved fits = may op fits Restoring.remove
  restore_prior-Keeps op true true fits = pure-Keeps S Q F ops pend _
  restore_prior-Keeps op true false fits = restore_as-Keeps op op.prior_kind fits

  pub restore_backup-Keeps : (op : Op) → Restores S Q op → K (restore_backup op)
  unfolding restore_backup
  restore_backup-Keeps op fits =
      next S Q F ops pend (may op fits Restoring.guard) λ _. restore_prior-Keeps op _ _ fits

  module _ (clerical : (c : Call) → Clerical c → Safe S Q c) where
    pub cleanup-Keeps :
        (able : (path src : Str) → F path src → (c : Call) → Touch path src c → Safe S Q c)
        (op : Op) (kind : Kind)
        → Fits F op
        → K (cleanup_partial_publish op kind)
    unfolding cleanup_partial_publish
    cleanup-Keeps able op Kind.backup fits = pure-Keeps S Q F ops pend _
    cleanup-Keeps able op Kind.rename fits =
        next S Q F ops pend
          (when-Keeps S Q F ops pend _ (
            ignore-Keeps S Q F ops pend
              (call-Keeps S Q F ops _ (able _ _ fits _ Touch.remove_src))))
          λ _. next S Q F ops pend (call-Keeps S Q F ops _ (able _ _ fits _ Touch.guard)) λ _.
            ignore-Keeps S Q F ops pend (call-Keeps S Q F ops _ (able _ _ fits _ Touch.remove_old))
    cleanup-Keeps able op Kind.write fits = pure-Keeps S Q F ops pend _
    cleanup-Keeps able op Kind.remove fits = pure-Keeps S Q F ops pend _
    cleanup-Keeps able op Kind.mkdir fits =
        next S Q F ops pend (call-Keeps S Q F ops _ (able _ _ fits _ Touch.guard))
          λ _. call-Keeps S Q F ops _ (able _ _ fits _ Touch.remove_live)
    cleanup-Keeps able op (Kind.other k) fits = pure-Keeps S Q F ops pend _

    -- What is recorded can be restored, and so can what is found among it.
    abbrev pub RestoresFound : Option Op → Type 0
    RestoresFound none = ⊤
    RestoresFound (some op) = Restores S Q op

    pub find-Restores :
        (path : Str) (xs : List Op) → Each (Restores S Q) xs → RestoresFound (find_backup path xs)
    unfolding find_backup
    find-Restores path [] h = tt
    find-Restores path (op ∷ xs) h =
        either (is_backup op.kind && str_eq op.path path) (find-Restores path xs h.1)
      where
        either :
            (b : Bool)
            → RestoresFound (find_backup path xs)
            → RestoresFound (if b then some op else find_backup path xs)
        either true rest = h.0
        either false rest = rest

    pub restore_found-Keeps :
        (i : ℕ) (o : Option Op) → Free S Q F ops pend i → RestoresFound o → K (restore_found i o)
    unfolding restore_found
    restore_found-Keeps i none free h = pure-Keeps S Q F ops pend _
    restore_found-Keeps i (some op) free h =
        next S Q F ops pend (restore_backup-Keeps op h)
          λ _. enter-Keeps S Q F ops pend clerical i _ free

    noted-Kept :
        (b : Bool) (c : Call) (note : FinishResult → Option Error → FinishResult)
        (r : FinishResult × Session S)
        → Clerical c
        → Holds S Q F ops r.1
        → Holds S Q F ops (noting_if b c note r).1
    noted-Kept true c note (fr, s) t (q, same, fits) =
        (clerical c t s.world s.doc.plan q, same, fits)
    noted-Kept false c note (fr, s) t h = h

    pub finishing-Keeps : (opts : FinishOpts) → K (finishing opts)
    unfolding finishing finish_critical_cleanup
    finishing-Keeps opts = record {
      kept = λ s h.
          noted-Kept opts.release_project_lock Call.release_project_lock unlocked _
            Clerical.release_project_lock
            (noted-Kept opts.clear_current Call.clear_current cleared _ Clerical.clear_current h);
    }

    module _ (able : (path src : Str) → F path src → (c : Call) → Touch path src c → Safe S Q c)
        (recorded : Each (Restores S Q) ops)
        (repairing : (c : Call) → Repairing c → Safe S Q c) where
      repair_from-Keeps : (a b : Stat) → K (repair_from a b)
      unfolding repair_from
      repair_from-Keeps Stat.missing Stat.directory =
          call-Keeps S Q F ops _ (repairing _ Repairing.back)
      repair_from-Keeps Stat.directory Stat.directory =
          ignore-Keeps S Q F ops pend (call-Keeps S Q F ops _ (repairing _ Repairing.remove))
      repair_from-Keeps Stat.missing Stat.missing = pure-Keeps S Q F ops pend _
      repair_from-Keeps Stat.missing Stat.plain = pure-Keeps S Q F ops pend _
      repair_from-Keeps Stat.missing Stat.failed = pure-Keeps S Q F ops pend _
      repair_from-Keeps Stat.directory Stat.missing = pure-Keeps S Q F ops pend _
      repair_from-Keeps Stat.directory Stat.plain = pure-Keeps S Q F ops pend _
      repair_from-Keeps Stat.directory Stat.failed = pure-Keeps S Q F ops pend _
      repair_from-Keeps Stat.plain b = pure-Keeps S Q F ops pend _
      repair_from-Keeps Stat.failed b = pure-Keeps S Q F ops pend _

      pub repair-Keeps : K repair_partial_node_modules
      unfolding repair_partial_node_modules
      repair-Keeps =
          gets-Keeps S Q F ops pend _
            λ s h. gets-Keeps S Q F ops pend _ λ s' h'. repair_from-Keeps _ _

      restore_unless-Keeps : (op : Op) (b : Bool) → Restores S Q op → K (restore_unless op b)
      unfolding restore_unless
      restore_unless-Keeps op true fits = pure-Keeps S Q F ops pend _
      restore_unless-Keeps op false fits = restore_backup-Keeps op fits

      pub restore_all-Keeps : (xs : List Op) → Each (Restores S Q) xs → K (restore_all xs)
      unfolding restore_all
      restore_all-Keeps [] h = pure-Keeps S Q F ops pend _
      restore_all-Keeps (op ∷ xs) h = next S Q F ops pend (restore_all-Keeps xs h.1) λ _.
          when-Keeps S Q F ops pend _
            (gets-Keeps S Q F ops pend _ λ s h'. restore_unless-Keeps op _ h.0)
