-- ===== src/Transaction/Touch.antt =====
-- internal/transaction/runner.go: which calls the handlers of an operation may make, and what
-- holds of an action when it holds of each of its calls.
pub mod Saving
use m.Base.{
  Each, ℕ, ◌≡◌, refl, Bool, true, false, Option, none, some, List, [], ◌∷◌, Str, bytes, zero, suc,
}
use m.Apperr.{Error, Result, ok, err}
use m.Transaction.Journal.{Document, Op, encode}
use m.Transaction.Disk.{System, Call, Place}
use m.Transaction.Session.{
  ⊤, Session, Action, pure, raise, gets, ◌>>=◌, ◌>>◌, and_then, ignore, wrap, call, set_doc,
  alter_plan, alter, save_journal, save_journal_generation,
}

-- The calls that publishing or undoing an operation may make, by its path and its source.
pub data Touch (path src : Str) : Call → Type 0 where
  guard : Touch path src (Call.guard path)
  remove_live : Touch path src (Call.remove_all (Place.live path))
  remove_live_retry : Touch path src (Call.remove_all_retry (Place.live path))
  remove_old : Touch path src (Call.remove_all (Place.old path))
  remove_old_retry : Touch path src (Call.remove_all_retry (Place.old path))
  remove_src : Touch path src (Call.remove_all (Place.txn src))
  aside : Touch path src (Call.rename_path (Place.live path) (Place.old path))
  back : Touch path src (Call.rename_path (Place.old path) (Place.live path))
  publish : Touch path src (Call.rename_path (Place.txn src) (Place.live path))
  replace : Touch path src (Call.replace_file_recoverable (Place.txn src) (Place.live path))
  make_live : Touch path src (Call.mkdir_all (Place.live path))
  make_parent : Touch path src (Call.mkdir_all (Place.parent path))
  sync_parent : Touch path src (Call.sync_dir (Place.parent path))
  sync_live : Touch path src (Call.sync_file (Place.live path))
  create_temp : Touch path src (Call.create_temp (Place.temp path))
  write_temp : (text : Str) → Touch path src (Call.write_temp (Place.temp path) text)
  sync_temp : Touch path src (Call.sync_temp (Place.temp path))
  close_temp : Touch path src (Call.close_temp (Place.temp path))
  remove_temp : Touch path src (Call.remove_file (Place.temp path))
  replace_temp : Touch path src (Call.replace_existing_file (Place.temp path) (Place.live path))

-- The calls that restoring a backup may make.
pub data Restoring (path src : Str) : Call → Type 0 where
  guard : Restoring path src (Call.guard path)
  remove : Restoring path src (Call.remove_all (Place.live path))
  link : (target : Str) → Restoring path src (Call.make_symlink target (Place.live path))
  junction :
      (sub print : Str) → Restoring path src (Call.create_junction (Place.live path) sub print)
  copy : Restoring path src (Call.restore_tree (Place.txn src) (Place.live path) path)

-- The calls of repairPartialNodeModules.
pub data Repairing : Call → Type 0 where
  back :
      Repairing (Call.rename (Place.old (bytes "node_modules")) (Place.live (bytes "node_modules")))
  remove : Repairing (Call.remove_all (Place.old (bytes "node_modules")))

-- The calls that concern no path of the tree.
pub data Clerical : Call → Type 0 where
  poll : Clerical Call.poll
  hook : (name : Str) (i : ℕ) → Clerical (Call.hook name i)
  write_generation : (gen : ℕ) (text : Str) → Clerical (Call.write_generation gen text)
  write_head : (gen : ℕ) (text : Str) → Clerical (Call.write_head gen text)
  clear_current : Clerical Call.clear_current
  release_project_lock : Clerical Call.release_project_lock

-- What is said of a planned operation, by its path and its source.
abbrev pub Fits : (Str → Str → Type 0) → Op → Type 0
Fits F op = F op.path op.backup

module _ (S : System) (Q : S.World → List Op → Type 0) where
  abbrev pub Safe : Call → Type 0
  Safe c = (w : S.World) (plan : List Op) → Q w plan → Q (S.act c w).1 plan

  abbrev pub Restores : Op → Type 0
  Restores op = (c : Call) → Restoring op.path op.backup c → Safe c

  module _ (F : Str → Str → Type 0) (ops : List Op) where
    -- The invariant: of the world and the plan, and that the document records `ops` and plans what fits.
    abbrev pub Holds : Session S → Type 0
    Holds s = Q s.world s.doc.plan × (s.doc.ops ≡ ops) × Each (Fits F) s.doc.plan

    -- Whatever an action returns, it leaves the invariant as it found it.
    pub record Keeps {A : Type 0} (m : Action S A) : Type 0 where
      pub kept : (s : Session S) → Holds s → Holds (m s).1

    pub call-Keeps : (c : Call) → Safe c → Keeps (call c)
    unfolding call
    call-Keeps c safe = record {
      kept = λ s (q, same, fits). (safe s.world s.doc.plan q, same, fits);
    }

    pub and_then-Keeps :
        {A B : Type 0} (r : Result A × Session S) (f : A → Action S B)
        → Holds r.1
        → ((a : A) → Keeps (f a))
        → Holds (and_then r f).1
    and_then-Keeps (ok a, s) f h keeps = (keeps a).kept s h
    and_then-Keeps (err e, s) f h keeps = h

    pub bind-Keeps :
        {A B : Type 0} {m : Action S A} {f : A → Action S B}
        → Keeps m
        → ((a : A) → Keeps (f a))
        → Keeps (m >>= f)
    unfolding ◌>>=◌
    bind-Keeps {m = m} {f = f} first rest = record {
      kept = λ s h. and_then-Keeps (m s) f (first.kept s h) rest;
    }

    pub alter-Fits :
        (i : ℕ) (f : Op → Op) (plan : List Op)
        → ((op : Op) → Fits F op → Fits F (f op))
        → Each (Fits F) plan
        → Each (Fits F) (alter i f plan)
    unfolding alter
    alter-Fits i f [] keeps h = tt
    alter-Fits zero f (op ∷ plan) keeps h = (keeps op h.0, h.1)
    alter-Fits (suc i) f (op ∷ plan) keeps h = (h.0, alter-Fits i f plan keeps h.1)

-- What holds when an action has returned without an error.
module _ (S : System) where
  abbrev pub OnOk : {A : Type 0} → (Session S → Type 0) → Result A × Session S → Type 0
  OnOk R (ok a, s) = R s
  OnOk R (err e, s) = ⊤

  pub record Brings {A : Type 0} (P : Session S → Type 0) (m : Action S A) (R : Session S → Type 0)
      : Type 0 where
    pub brought : (s : Session S) → P s → OnOk R (m s)

  OnOk-and_then :
      {A B : Type 0} (P R : Session S → Type 0) (r : Result A × Session S) (f : A → Action S B)
      → OnOk P r
      → ((a : A) → Brings P (f a) R)
      → OnOk R (and_then r f)
  OnOk-and_then P R (ok a, s) f h rest = (rest a).brought s h
  OnOk-and_then P R (err e, s) f h rest = tt

  pub bind-Brings :
      {A B : Type 0} {P R T : Session S → Type 0} {m : Action S A} {f : A → Action S B}
      → Brings P m R
      → ((a : A) → Brings R (f a) T)
      → Brings P (m >>= f) T
  unfolding ◌>>=◌
  bind-Brings {P = P} {R = R} {T = T} {m = m} {f = f} first rest = record {
    brought = λ s h. OnOk-and_then R T (m s) f (first.brought s h) rest;
  }

  on_ok : {A : Type 0} (P : Session S → Type 0) (r : Result A × Session S) → P r.1 → OnOk P r
  on_ok P (ok a, s) h = h
  on_ok P (err e, s) h = tt

  pub Keeps-Brings :
      {A : Type 0} (Q : S.World → List Op → Type 0) (F : Str → Str → Type 0) (ops : List Op)
      {m : Action S A}
      → Keeps S Q F ops m
      → Brings (Holds S Q F ops) m (Holds S Q F ops)
  Keeps-Brings Q F ops {m = m} keeps = record {
    brought = λ s h. on_ok (Holds S Q F ops) (m s) (keeps.kept s h);
  }

  pub gets-Brings :
      {A B : Type 0} {P R : Session S → Type 0} {f : Session S → A} (k : A → Action S B)
      → ((s : Session S) → P s → Brings P (k (f s)) R)
      → Brings P (gets f >>= k) R
  unfolding gets ◌>>=◌
  gets-Brings k rest = record { brought = λ s h. (rest s h).brought s h }

  -- As above, where the step is about the very session that was read.
  pub gets_here-Brings :
      {A B C : Type 0} {P R T : Session S → Type 0} (f : Session S → A) (m : A → Action S B)
      (k : B → Action S C)
      → ((s : Session S) → P s → OnOk R (m (f s) s))
      → ((b : B) → Brings R (k b) T)
      → Brings P (gets f >>= λ a. m a >>= k) T
  unfolding gets ◌>>=◌
  gets_here-Brings {R = R} {T = T} f m k here rest = record {
    brought = λ s h. OnOk-and_then R T (m (f s) s) k (here s h) rest;
  }

  pub weaken :
      {A : Type 0} (P P' R R' : Session S → Type 0) {m : Action S A}
      → ((s : Session S) → P s → P' s)
      → Brings P' m R'
      → ((s : Session S) → R' s → R s)
      → Brings P m R
  weaken P P' R R' {m = m} before m_brings after = record {
    brought = λ s h. through (m s) (m_brings.brought s (before s h));
  }
    where
      through : {A : Type 0} (r : Result A × Session S) → OnOk R' r → OnOk R r
      through (ok a, s) h = after s h
      through (err e, s) h = tt
