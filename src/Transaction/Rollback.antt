-- ===== src/Transaction/Rollback.antt =====
-- internal/transaction/runner.go: what undoes a planned operation, Rollback, and the recovery of
-- the transaction that was found.
pub mod Kept
pub mod Quiet
pub mod Undone
pub mod Settled
use m.Base.{
  ℕ, zero, suc, ◌+◌, Bool, true, false, Option, none, some, List, [], ◌∷◌, Str, bytes, str_eq,
  length, get_elem?, if◌then◌else◌, ◌&&◌, ◌||◌, not,
}
use m.Apperr.{Code, Error, Result, ok, err}
use m.Transaction.Journal.{Document, DocState, Op, Kind, Phase, Progress, DestKind}
use m.Transaction.Disk.{System, Call, Place, Stat, FileRead}
use m.Transaction.Session.{
  ⊤, Session, Action, pure, raise, gets, ◌>>=◌, ◌>>◌, ignore, wrap, call, set_doc, alter_plan,
  set_phase, save_journal, io_error, txn_error,
}
use m.Transaction.Publish.{
  find_backup, is_backup, when, guard_path, enter, set_state, hooked, is_directory, exists,
}
use m.Transaction.Finish.{
  FinishOpts, FinishResult, finish_critical_cleanup, discard, has_critical_cleanup_failure,
  critical_cleanup_error,
}

abbrev rollback_error : Error
rollback_error = io_error (bytes "transaction.rollback")

-- The progress of an operation that has to be undone.
abbrev pub is_under_way : Progress → Bool
is_under_way Progress.applied = true
is_under_way Progress.applying = true
is_under_way _ = false

abbrev pub node_modules : Str
node_modules = bytes "node_modules"

-- `planHasAppliedPath`
unfoldable pub plan_has_applied_path : Str → List Op → Bool
plan_has_applied_path path [] = false
plan_has_applied_path path (op ∷ plan) =
    (str_eq op.path path && is_under_way op.progress) || plan_has_applied_path path plan

-- The error that errors.As finds first in a join.
abbrev first_of : Option (List Error) → Error
first_of (some (e ∷ es)) = e
first_of _ = txn_error (bytes "transaction.cleanup") []

module _ {S : System} where
  unfoldable pub restore_junction : Op → FileRead (Str × Str) → Action S ⊤
  restore_junction op (FileRead.found (sub, print)) = do
    wrap rollback_error (call (Call.remove_all (Place.live op.path)))
    call (Call.create_junction (Place.live op.path) sub print)
  restore_junction op FileRead.missing = call (Call.remove_all (Place.live op.path))
  restore_junction op FileRead.failed = raise rollback_error

  unfoldable pub restore_symlink : Op → FileRead Str → Action S ⊤
  restore_symlink op (FileRead.found target) = do
    ignore (call (Call.remove_all (Place.live op.path)))
    call (Call.make_symlink (S.trim_space target) (Place.live op.path))
  restore_symlink op FileRead.missing = call (Call.remove_all (Place.live op.path))
  restore_symlink op FileRead.failed = raise rollback_error

  unfoldable pub restore_copy : Op → Stat → Action S ⊤
  restore_copy op Stat.missing = call (Call.remove_all (Place.live op.path))
  restore_copy op _ = do
    wrap rollback_error (call (Call.remove_all (Place.live op.path)))
    call (Call.restore_tree (Place.txn op.backup) (Place.live op.path) op.path)

  unfoldable pub restore_as : Op → DestKind → Action S ⊤
  restore_as op DestKind.junction = do
    restore_junction op (← gets λ s. S.read_reparse_meta s.world (Place.txn op.backup))
  restore_as op DestKind.symlink = do
    restore_symlink op (← gets λ s. S.read_file s.world (Place.txn op.backup))
  restore_as op _ = do restore_copy op (← gets λ s. S.stat s.world (Place.txn op.backup))

  -- The tests of restoreBackup: whether there was something before, and whether it was saved.
  unfoldable pub restore_prior : Op → Bool → Bool → Action S ⊤
  restore_prior op false unsaved = call (Call.remove_all (Place.live op.path))
  restore_prior op true true = pure tt
  restore_prior op true false = restore_as op op.prior_kind

  unfoldable pub restore_backup : Op → Action S ⊤
  restore_backup op = do
    guard_path op.path
    restore_prior op (op.had_prior || not (str_eq op.backup [])) (str_eq op.backup [])

  unfoldable pub cleanup_partial_publish : Op → Kind → Action S ⊤
  cleanup_partial_publish op Kind.rename = do
    when (not (str_eq op.backup [])) (ignore (call (Call.remove_all (Place.txn op.backup))))
    guard_path op.path
    ignore (call (Call.remove_all (Place.old op.path)))
  cleanup_partial_publish op Kind.mkdir = do
    guard_path op.path
    call (Call.remove_all (Place.live op.path))
  cleanup_partial_publish op _ = pure tt

  unfoldable pub restore_found : ℕ → Option Op → Action S ⊤
  restore_found i none = pure tt
  restore_found i (some backup) = do restore_backup backup; enter i Phase.prior_restored

  unfoldable pub undo : ℕ → Op → Action S ⊤
  undo i op = do
    call Call.poll
    alter_plan i λ o. record o { progress = Progress.rolling_back; phase = Phase.rollback_started }
    save_journal
    restore_found i (← gets λ s. find_backup op.path s.doc.ops)
    cleanup_partial_publish op op.kind
    alter_plan i λ o. record o { progress = Progress.rolled_back; phase = Phase.rollback_complete }
    save_journal

  -- `rollbackPlanOp` behind the test of the loop, which it repeats, and the hook.
  unfoldable pub undo_at : ℕ → Option Op → Action S ⊤
  undo_at i none = pure tt
  undo_at i (some op) = when (is_under_way op.progress) do
    hooked (txn_error (bytes "transaction.rollback") op.path) (bytes "rollback") (i + 1)
    undo i op

  -- The loop over the plan, from the last index down.
  unfoldable pub undo_below : ℕ → Action S ⊤
  undo_below zero = pure tt
  undo_below (suc i) = do undo_at i (← gets λ s. get_elem? s.doc.plan i); undo_below i

  unfoldable pub restore_unless : Op → Bool → Action S ⊤
  restore_unless op true = pure tt
  restore_unless op false = restore_backup op

  -- The loop over the recorded operations, from the last one on.
  unfoldable pub restore_all : List Op → Action S ⊤
  restore_all [] = pure tt
  restore_all (op ∷ ops) = do
    restore_all ops
    when (is_backup op.kind)
        (do restore_unless op (← gets λ s. plan_has_applied_path op.path s.doc.plan))

  -- The two cases of repairPartialNodeModules that do something.
  unfoldable pub repair_from : Stat → Stat → Action S ⊤
  repair_from Stat.missing Stat.directory =
      call (Call.rename (Place.old node_modules) (Place.live node_modules))
  repair_from Stat.directory Stat.directory =
      ignore (call (Call.remove_all (Place.old node_modules)))
  repair_from _ _ = pure tt

  unfoldable pub repair_partial_node_modules : Action S ⊤
  repair_partial_node_modules = do
    repair_from (← gets λ s. S.stat s.world (Place.live node_modules))
        (← gets λ s. S.stat s.world (Place.old node_modules))

  unfoldable pub finishing : FinishOpts → Action S FinishResult
  finishing opts s = let (fr, s') = finish_critical_cleanup opts s in (ok fr, s')

  -- Everything of Rollback up to the cleanup.
  unfoldable pub roll_back_tree : Action S ⊤
  roll_back_tree = do
    call Call.poll
    hooked (txn_error (bytes "transaction.rollback") []) (bytes "rollback") 0
    ignore repair_partial_node_modules
    undo_below (← gets λ s. length s.doc.plan)
    restore_all (← gets λ s. s.doc.ops)

  unfoldable pub rollback : FinishOpts → Action S FinishResult
  rollback opts = do roll_back_tree; set_state DocState.aborted; finishing opts

  abbrev pub critical_result : FinishResult × Session S → Result ⊤ × Session S
  critical_result (fr, s) =
      if has_critical_cleanup_failure fr
      then (err (first_of (critical_cleanup_error fr)), s)
      else (ok tt, s)

  -- What RecoverIncomplete and RecoverScanned do with the transaction that they found.
  unfoldable pub recover_found : FinishOpts → DocState → Action S ⊤
  recover_found opts DocState.staging s = critical_result (discard opts s)
  recover_found opts DocState.validated s = critical_result (discard opts s)
  recover_found opts DocState.committing s = (do rollback opts; pure tt) s
  recover_found opts _ s = (ok tt, s)
