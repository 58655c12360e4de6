-- ===== src/Transaction/Publish.antt =====
-- internal/transaction/runner.go: a planned operation carried out on the live tree, and the
-- commit of a plan. `applyPlanOp` and `renameOp` are only called forward.
use m.Base.{
  ℕ, zero, suc, ◌+◌, Bool, true, false, Option, none, some, List, [], ◌∷◌, Str, bytes, str_eq,
  length, get_elem?, ◌==◌, if◌then◌else◌, ◌&&◌, ◌||◌,
}
use m.Apperr.{Error, Result, ok, err}
use m.Transaction.Journal.{Document, DocState, Op, Kind, Phase, Progress}
use m.Transaction.Disk.{System, Call, Place, Stat, FileRead}
use m.Transaction.Session.{
  ⊤, Action, pure, raise, gets, ◌>>=◌, ◌>>◌, ignore, wrap, call, set_doc, alter_plan, set_phase,
  save_journal, io_error, txn_error,
}

abbrev pub exists : Stat → Bool
exists Stat.directory = true
exists Stat.plain = true
exists _ = false

abbrev pub is_directory : Stat → Bool
is_directory Stat.directory = true
is_directory _ = false

abbrev pub is_backup : Kind → Bool
is_backup Kind.backup = true
is_backup _ = false

-- `findBackupForPath`
unfoldable pub find_backup : Str → List Op → Option Op
find_backup path [] = none
find_backup path (op ∷ ops) =
    if is_backup op.kind && str_eq op.path path then some op else find_backup path ops

abbrev pub is_some : {A : Type 0} → Option A → Bool
is_some (some a) = true
is_some none = false

-- The error of a call as a value.
abbrev error_of : Result ⊤ → Option Error
error_of (ok _) = none
error_of (err e) = some e

abbrev publish_error : Error
publish_error = io_error (bytes "transaction.publish")

abbrev write_error : Error
write_error = io_error (bytes "transaction.write")

abbrev pub begun : Op → Op
begun op = record op {
  progress = Progress.applying;
  phase = elim op.phase [
    | Phase.unset ↦ Phase.publish_started
    | Phase.pending ↦ Phase.publish_started
    | p ↦ p
  ];
}

abbrev pub finished : Op → Op
finished op = record op { progress = Progress.applied; phase = Phase.applied }

abbrev pub is_applied : Progress → Bool
is_applied Progress.applied = true
is_applied _ = false

abbrev commit_error : Error
commit_error = txn_error (bytes "transaction.commit") []

-- The plan that Commit fills in when there is none.
abbrev pub with_plan : List Op → Document → Document
with_plan extra d = if length d.plan == 0 then record d { plan = extra } else d

module _ {S : System} where
  -- `if b { m }`
  unfoldable pub when : Bool → Action S ⊤ → Action S ⊤
  when true m = m
  when false m = pure tt

  unfoldable pub attempt : Action S ⊤ → Action S (Option Error)
  attempt m s = let (r, s') = m s in (ok (error_of r), s')

  -- `defer f()`
  unfoldable pub deferring : Action S ⊤ → Action S ⊤ → Action S ⊤
  deferring f m s = let (r, s') = m s in (r, (f s').1)

  abbrev stat_of : Place → Action S Stat
  stat_of p = gets λ s. S.stat s.world p

  -- `GuardPath`
  abbrev pub guard_path : Str → Action S ⊤
  guard_path path = call (Call.guard path)

  abbrev pub enter : ℕ → Phase → Action S ⊤
  enter i phase = do set_phase i phase; save_journal

  -- The old tree could not be moved aside: only a backup allows its removal.
  unfoldable pub clear_live : Str → Bool → Action S ⊤
  clear_live path true = wrap publish_error (call (Call.remove_all_retry (Place.live path)))
  clear_live path false = raise publish_error

  unfoldable pub moved_aside : ℕ → Str → Bool → Option Error → Action S ⊤
  moved_aside i path journaled none = enter i Phase.old_tree_moved
  moved_aside i path journaled (some e) = clear_live path journaled

  unfoldable pub move_aside : ℕ → Str → Bool → Action S ⊤
  move_aside i path journaled = do
    e ← attempt (call (Call.rename_path (Place.live path) (Place.old path)))
    moved_aside i path journaled e

  -- The new tree is put in place, or else the old one back.
  unfoldable pub put_back : Str → Option Error → Action S ⊤
  put_back path none = pure tt
  put_back path (some e) = do
    there ← stat_of (Place.old path)
    when (exists there)
        (wrap publish_error (call (Call.rename_path (Place.old path) (Place.live path))))
    raise publish_error

  unfoldable pub publish_tree : Str → Place → Action S ⊤
  publish_tree path src = do
    e ← attempt (call (Call.rename_path src (Place.live path)))
    put_back path e

  unfoldable pub publish_dir_op : ℕ → Str → Place → Action S ⊤
  publish_dir_op i path src = do
    journaled ← gets λ s. is_some (find_backup path s.doc.ops)
    wrap publish_error (call (Call.remove_all_retry (Place.old path)))
    there ← stat_of (Place.live path)
    when (exists there) (move_aside i path journaled)
    publish_tree path src
    enter i Phase.new_tree_published
    call (Call.sync_dir (Place.parent path))
    enter i Phase.parent_synced
    wrap publish_error (call (Call.remove_all_retry (Place.old path)))
    save_journal

  unfoldable pub publish_file_op : ℕ → Str → Place → Action S ⊤
  publish_file_op i path src = do
    wrap (io_error (bytes "transaction.rename")) (call (Call.mkdir_all (Place.parent path)))
    call (Call.replace_file_recoverable src (Place.live path))
    enter i Phase.published
    enter i Phase.parent_synced

  unfoldable pub move_op : ℕ → Op → Bool → Action S ⊤
  move_op i op true = publish_dir_op i op.path (Place.txn op.backup)
  move_op i op false = publish_file_op i op.path (Place.txn op.backup)

  -- Either end of the move being a directory decides how it is published.
  unfoldable pub rename_op : ℕ → Op → Action S ⊤
  rename_op i op = do
    guard_path op.path
    from ← stat_of (Place.txn op.backup)
    to ← stat_of (Place.live op.path)
    move_op i op (is_directory from || is_directory to)

  abbrev read_text : FileRead Str → Action S Str
  read_text (FileRead.found text) = pure text
  read_text _ = raise write_error

  -- A failed step closes the temporary file before it returns.
  abbrev closing : Str → Action S ⊤ → Action S ⊤
  closing path m = do
    e ← attempt m
    when (is_some e) (do ignore (call (Call.close_temp (Place.temp path))); raise write_error)

  unfoldable pub write_temp_op : ℕ → Str → Str → Action S ⊤
  write_temp_op i path text = do
    closing path (call (Call.write_temp (Place.temp path) text))
    enter i Phase.written
    closing path (call (Call.sync_temp (Place.temp path)))
    enter i Phase.synced
    wrap write_error (call (Call.close_temp (Place.temp path)))
    wrap write_error (call (Call.replace_existing_file (Place.temp path) (Place.live path)))
    enter i Phase.published
    wrap write_error (call (Call.sync_file (Place.live path)))
    wrap write_error (call (Call.sync_dir (Place.parent path)))
    enter i Phase.parent_synced

  unfoldable pub write_op : ℕ → Op → Action S ⊤
  write_op i op = do
    guard_path op.path
    text ← read_text (← gets λ s. S.read_file s.world (Place.txn op.backup))
    wrap write_error (call (Call.mkdir_all (Place.parent op.path)))
    wrap write_error (call (Call.create_temp (Place.temp op.path)))
    deferring (call (Call.remove_file (Place.temp op.path))) (write_temp_op i op.path text)

  unfoldable pub carry_out : ℕ → Op → Kind → Action S ⊤
  carry_out i op Kind.backup = pure tt
  carry_out i op Kind.rename = rename_op i op
  carry_out i op Kind.write = write_op i op
  carry_out i op Kind.remove = do guard_path op.path; call (Call.remove_all (Place.live op.path))
  carry_out i op Kind.mkdir = do guard_path op.path; call (Call.mkdir_all (Place.live op.path))
  carry_out i op (Kind.other k) = raise (txn_error (bytes "transaction.commit") k)

  unfoldable pub apply_forward : ℕ → Op → Action S ⊤
  apply_forward i op = do call Call.poll; carry_out i op op.kind

  abbrev pub carry_out_at : ℕ → Option Op → Action S ⊤
  carry_out_at i none = pure tt
  carry_out_at i (some op) = apply_forward i op

  unfoldable pub unless_applied : ℕ → Bool → Action S ⊤
  unless_applied i true = pure tt
  unless_applied i false = do
    alter_plan i begun
    save_journal
    carry_out_at i (← gets λ s. get_elem? s.doc.plan i)
    alter_plan i finished
    save_journal

  unfoldable pub apply_pending : ℕ → Option Op → Action S ⊤
  apply_pending i none = pure tt
  apply_pending i (some op) = unless_applied i (is_applied op.progress)

  unfoldable pub apply_plan_op : ℕ → Action S ⊤
  apply_plan_op i = do apply_pending i (← gets λ s. get_elem? s.doc.plan i)

  abbrev pub hooked : Error → Str → ℕ → Action S ⊤
  hooked e name i = wrap e (call (Call.hook name i))

  -- The loop of Commit over the indices from `i` on, `n` of them.
  unfoldable pub apply_from : ℕ → ℕ → Action S ⊤
  apply_from zero i = pure tt
  apply_from (suc n) i = do
    hooked commit_error (bytes "publish") i
    hooked commit_error (bytes "commit") i
    apply_plan_op i
    apply_from n (i + 1)

  unfoldable pub set_state : DocState → Action S ⊤
  set_state state = do set_doc λ d. record d { state = state }; save_journal

  unfoldable pub commit : List Op → Action S ⊤
  commit extra = do
    call Call.poll
    set_doc (with_plan extra)
    set_state DocState.committing
    n ← gets λ s. length s.doc.plan
    apply_from n 0
    hooked commit_error (bytes "pre_committed") 0
    set_state DocState.committed
    call (Call.hook (bytes "committed") 0)
