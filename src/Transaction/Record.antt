-- ===== src/Transaction/Record.antt =====
-- internal/transaction/runner.go: RecordBackup, which saves what stands at a path before the plan is
-- carried out. Paths are those of a system whose separator is a slash.
pub mod Names
use m.Base.{
  ℕ, ◌+◌, ◌-◌, ◌==◌, Bool, true, false, Option, none, some, List, [], ◌∷◌, ◌++◌, Str, bytes, str_eq,
  length, map, if◌then◌else◌, ◌&&◌, not,
}
use m.Apperr.{Code, Error, Result, ok, err}
use m.Transaction.Journal.{Document, DocState, Op, Kind, Phase, Progress, DestKind}
use m.Transaction.Disk.{System, Call, Place, Stat, LinkInfo}
use m.Transaction.Session.{
  ⊤, Session, Action, pure, raise, gets, ◌>>=◌, ◌>>◌, wrap, call, set_doc, save_journal, io_error,
  txn_error,
}
use m.Transaction.Publish.{guard_path}

-- The replacer of `sanitizeBackupName`: each separator, and each pair of dots, becomes `_`.
unfoldable pub replace_marks : Str → Str
replace_marks [] = []
replace_marks (c ∷ []) = (if c == b'/' then b'_' else c) ∷ []
replace_marks (c ∷ d ∷ s) =
    let next = replace_marks (d ∷ s) in
    let skipped = replace_marks s in
    if c == b'/' then b'_' ∷ next else if c == b'.' && d == b'.' then b'_' ∷ skipped else c ∷ next

unfoldable pub sanitize_backup_name : Str → Str
sanitize_backup_name rel = let s = replace_marks rel in if str_eq s [] then bytes "backup" else s

-- `filepath.Join(backupsDir, sanitizeBackupName(rel))`
unfoldable pub backup_name : Str → Str
backup_name rel = bytes "backups/" ++ sanitize_backup_name rel

-- The kind of what stands at a path, the target of a link, and whether anything does.
abbrev pub Prior : Type 0
Prior = DestKind × Str × Bool

path_error : Error
path_error = txn_error (bytes "transaction.pathkind") []

abbrev pub linked_as : DestKind → Error → Option Str → Result Prior
linked_as kind e (some target) = ok (kind, target, true)
linked_as kind e none = err e

abbrev pub mount_target : Option (Str × Str × ℕ) → Option Str
mount_target (some (sub, print, tag)) = some sub
mount_target none = none

abbrev io_reparse_tag_symlink : ℕ
io_reparse_tag_symlink = 2684354572

unfoldable pub plain_kind : Stat → Result Prior
plain_kind Stat.directory = ok (DestKind.dir, [], true)
plain_kind _ = ok (DestKind.file, [], true)

unfoldable pub kind_there : LinkInfo → Result Prior
kind_there info =
    if info.is_junction
    then linked_as DestKind.junction (txn_error (bytes "transaction.pathkind") [])
        (mount_target info.mount_point)
    else if not (info.reparse_tag == 0)
    then (if info.reparse_tag == io_reparse_tag_symlink
        then linked_as DestKind.symlink (txn_error (bytes "transaction.pathkind") [])
            info.reparse_target
        else err (txn_error (bytes "transaction.pathkind") []))
    else if info.mode_symlink
    then linked_as DestKind.symlink (io_error (bytes "transaction.pathkind")) info.readlink
    else plain_kind info.lstat

unfoldable pub path_kind_of : LinkInfo → Stat → Result Prior
path_kind_of info Stat.missing = ok (DestKind.nothing, [], false)
path_kind_of info Stat.failed = err (io_error (bytes "transaction.pathkind"))
path_kind_of info _ = kind_there info

unfoldable pub path_kind : LinkInfo → Result Prior
path_kind info = path_kind_of info info.lstat

unfoldable pub new_backup : Str → Bool → DestKind → Op
new_backup rel had_prior kind = record {
  kind = Kind.backup;
  path = rel;
  backup = [];
  progress = Progress.applied;
  phase = Phase.unset;
  staging_path = [];
  dest_kind = DestKind.other [];
  had_prior = had_prior;
  prior_kind = kind;
  symlink_target = [];
  reparse_tag = 0;
  reparse_print = [];
}

unfoldable pub saved_op : Str → DestKind → Str → Op
saved_op rel kind target = record (new_backup rel true kind) {
  backup = backup_name rel;
  dest_kind = kind;
  symlink_target = target;
}

abbrev mark : Str → Phase → Op → Op
mark path phase op = if str_eq op.path path then record op { phase = phase } else op

module _ {S : System} where
  unfoldable pub from_result : {A : Type 0} → Result A → Action S A
  from_result (ok a) = pure a
  from_result (err e) = raise e

  unfoldable pub append_op : Op → Action S ⊤
  append_op op = do set_doc λ d. record d { ops = d.ops ++ op ∷ [] }; save_journal

  -- `markPlanPhase`
  unfoldable pub mark_plan_phase : Str → Phase → Action S ⊤
  mark_plan_phase path phase = set_doc λ d. record d { plan = map (mark path phase) d.plan }

  unfoldable pub mount_point_of : Option (Str × Str × ℕ) → Action S (Str × Str × ℕ)
  mount_point_of (some m) = pure m
  mount_point_of none = raise (txn_error (bytes "transaction.backup") [])

  unfoldable pub save_junction : Op → Str × Str × ℕ → Action S Op
  save_junction op (sub, print, tag) = do
    call (Call.write_reparse_meta op.path sub print)
    pure (record op {
      backup = S.meta_rel op.path;
      reparse_tag = tag;
      reparse_print = print;
      symlink_target = sub;
    })

  -- What is saved, by its kind, and the operation with the name of the backup.
  unfoldable pub save_prior : Op → Str → DestKind → Action S Op
  save_prior op target DestKind.junction = do
    save_junction op
        (← mount_point_of (← gets λ s. (S.link_info s.world (Place.live op.path)).mount_point))
  save_prior op target DestKind.symlink = do
    wrap (io_error (bytes "transaction.backup"))
        (call (Call.write_file (Place.txn (op.backup ++ bytes ".link")) target))
    pure (record op { backup = op.backup ++ bytes ".link" })
  save_prior op target _ = do
    call (Call.backup_tree (Place.live op.path) (Place.txn op.backup) op.path)
    pure op

  unfoldable pub record_prior : Str → Prior → Action S ⊤
  record_prior rel (kind, target, false) = append_op (new_backup rel false kind)
  record_prior rel (kind, target, true) = do
    append_op (← save_prior (saved_op rel kind target) target kind)
    mark_plan_phase rel Phase.backup_ready
    save_journal
    call (Call.hook (bytes "backup") (← gets λ s. length s.doc.ops - 1))

  unfoldable pub record_backup : Str → Action S ⊤
  record_backup rel = do
    guard_path rel
    record_prior rel (← from_result (← gets λ s. path_kind (S.link_info s.world (Place.live rel))))
