-- ===== src/Tests/Recovery.antt =====
-- internal/transaction on a small disk.
use m.Base.{
  ℕ, ◌≡◌, refl, Bool, true, false, Option, none, some, [], ◌∷◌, Str, bytes, str_eq, if◌then◌else◌,
}
use m.Apperr.{Code, Error, ok}
use m.Transaction.Journal.{
  Document, DocState, Op, Kind, Progress, Phase, DestKind, Codec, with_version, supported, refuses,
  or_staging, or_pending, or_pending_phase, pending_op, with_defaults, filled, normalize, digested,
  semantic_checksum, printed, sealed, seal_if, encode_normal, encode,
}
use m.Transaction.Record.{backup_name, sanitize_backup_name}
use m.Transaction.Record.Names.{has_byte, has_dots, sanitize_backup_name_lem, backup_name_collides}
use m.Transaction.Disk.{LinkInfo, System, Call, Place, Stat, FileRead}
use m.Transaction.Session.{
  Session, alter, pure, raise, gets, ◌>>=◌, call, ignore, wrap, set_doc, alter_plan, set_phase,
  set_gen, save_generation, save_journal_generation, encode_in_place, save_journal,
}
use m.Transaction.Publish.{
  is_some, find_backup, when, attempt, deferring, clear_live, moved_aside, move_aside, put_back,
  publish_tree, publish_dir_op, publish_file_op, move_op, rename_op, write_temp_op, write_op,
  carry_out, apply_forward, unless_applied, apply_pending, apply_plan_op, apply_from, set_state,
  commit,
}
use m.Transaction.Finish.Paired.{finish_cleanup-has_critical}
use m.Transaction.Finish.{
  finish_cleanup, has_critical_cleanup_failure, critical_cleanup_error, FinishResult, FinishOpts,
  standalone_finish_opts, no_result, cleared, unlocked, finish_critical_cleanup,
  append_cleanup_warning,
}
use m.Transaction.Rollback.{
  plan_has_applied_path, restore_junction, restore_symlink, restore_copy, restore_as, restore_prior,
  restore_backup, cleanup_partial_publish, restore_found, undo, undo_at, undo_below, restore_unless,
  restore_all, repair_from, repair_partial_node_modules, finishing, roll_back_tree, rollback,
}
use m.Transaction.Rollback.Quiet.{AllSettled}
use m.Transaction.Rollback.Settled.{rollback-AllSettled}

data Node : Type 0 where
  absent : Node
  text : Str → Node
  link : Str → Node
  joint : Str → Str → Node

abbrev same_place : Place → Place → Bool
same_place (Place.live a) (Place.live b) = str_eq a b
same_place (Place.old a) (Place.old b) = str_eq a b
same_place (Place.parent a) (Place.parent b) = str_eq a b
same_place (Place.txn a) (Place.txn b) = str_eq a b
same_place (Place.temp a) (Place.temp b) = str_eq a b
same_place _ _ = false

abbrev put : Place → Node → (Place → Node) → Place → Node
put p v w q = if same_place p q then v else w q

abbrev stopped : Error
stopped = record { code = Code.transaction; op = bytes "stop"; subject = [] }

-- The disk does what it is asked, and the commit is stopped just before its end.
abbrev act : Call → (Place → Node) → Option Error × (Place → Node)
act (Call.hook name i) w = (if str_eq name (bytes "pre_committed") then some stopped else none, w)
act (Call.remove_all p) w = (none, put p Node.absent w)
act (Call.make_symlink t p) w = (none, put p (Node.link t) w)
act (Call.create_junction p sub print) w = (none, put p (Node.joint sub print) w)
act (Call.restore_tree from to rel) w = (none, put to (w from) w)
act (Call.backup_tree from to rel) w = (none, put to (w from) w)
act (Call.write_file p t) w = (none, put p (Node.text t) w)
act (Call.write_reparse_meta rel sub print) w = (some stopped, w)
act (Call.write_temp p t) w = (none, put p (Node.text t) w)
act (Call.replace_existing_file from to) w = (none, put to (w from) w)
act _ w = (none, w)

abbrev stat_of : Node → Stat
stat_of Node.absent = Stat.missing
stat_of _ = Stat.plain

abbrev info_of : Node → LinkInfo
info_of n = record {
  lstat = stat_of n;
  is_junction = false;
  mount_point = none;
  reparse_tag = 0;
  reparse_target = none;
  mode_symlink = false;
  readlink = none;
}

abbrev text_of : Node → FileRead Str
text_of (Node.text t) = FileRead.found t
text_of (Node.link t) = FileRead.found t
text_of (Node.joint a b) = FileRead.failed
text_of Node.absent = FileRead.missing

abbrev codec : Codec
codec = record { print = λ d. some []; parse = λ t. none; digest = λ t. bytes "sum" }

abbrev disk : System
disk = record {
  codec = codec;
  World = Place → Node;
  act = act;
  stat = λ w p. stat_of (w p);
  read_file = λ w p. text_of (w p);
  read_reparse_meta = λ w p. FileRead.missing;
  link_info = λ w p. info_of (w p);
  trim_space = λ t. t;
  meta_rel = λ t. t;
}

abbrev blank_op : Op
blank_op = record {
  kind = Kind.backup;
  path = bytes "f";
  backup = bytes "backups/f";
  progress = Progress.applied;
  phase = Phase.unset;
  staging_path = [];
  dest_kind = DestKind.file;
  had_prior = true;
  prior_kind = DestKind.file;
  symlink_target = [];
  reparse_tag = 0;
  reparse_print = [];
}

abbrev write_f : Op
write_f = record blank_op {
  kind = Kind.write;
  backup = bytes "stage/f";
  progress = Progress.pending;
}

abbrev journal : Document
journal = record {
  schema_version = 4;
  id = bytes "t";
  project_root = bytes "/p";
  state = DocState.validated;
  checksum = [];
  plan = write_f ∷ [];
  ops = blank_op ∷ [];
}

abbrev before : Place → Node
before = put (Place.live (bytes "f")) (Node.text (bytes "old")) (
    put (Place.txn (bytes "stage/f")) (Node.text (bytes "new"))
      (put (Place.txn (bytes "backups/f")) (Node.text (bytes "old")) λ p. Node.absent))

abbrev session : Session disk
session = record { world = before; doc = journal; journal_gen = 3 }

abbrev opts : FinishOpts
opts = standalone_finish_opts

abbrev result : FinishResult
result = (finish_critical_cleanup opts session).0

-- The machine stopped while the new text was published.
abbrev crashed : Session disk
crashed = record session {
  world = put (Place.live (bytes "f")) (Node.text (bytes "new")) before;
  doc = record journal {
    state = DocState.committing;
    plan = record write_f { progress = Progress.applying; phase = Phase.published } ∷ [];
  };
}

abbrev recovered : Session disk
recovered = (rollback opts crashed).1

recovered_done : rollback opts crashed ≡ (ok result, recovered)
recovered_done =
    unfold str_eq alter pure raise gets ◌>>=◌ call ignore wrap set_doc alter_plan set_phase set_gen
      save_generation save_journal_generation encode_in_place save_journal find_backup when attempt
      deferring clear_live moved_aside move_aside put_back publish_tree publish_dir_op
      publish_file_op move_op rename_op write_temp_op write_op carry_out apply_forward
      unless_applied apply_pending apply_plan_op apply_from set_state commit plan_has_applied_path
      restore_junction restore_symlink restore_copy restore_as restore_prior restore_backup
      cleanup_partial_publish restore_found undo undo_at undo_below restore_unless restore_all
      repair_from repair_partial_node_modules finishing roll_back_tree rollback no_result cleared
      unlocked finish_critical_cleanup append_cleanup_warning with_version supported refuses
      or_staging or_pending or_pending_phase pending_op with_defaults filled normalize digested
      semantic_checksum printed sealed seal_if encode_normal encode in
    refl

rollback-AllSettled_example :
    AllSettled recovered.doc.plan
    × (recovered.doc.ops ≡ crashed.doc.ops)
    × ((n : ℕ) → undo_below n recovered ≡ (ok tt, recovered))
rollback-AllSettled_example = rollback-AllSettled disk crashed recovered opts result recovered_done

-- The backup of a file is gone: to restore it removes the file, without an error.
backup_gone :
    let s = record session { world = put (Place.txn (bytes "backups/f")) Node.absent before } in
    restore_backup blank_op s
    ≡ (ok tt, record s { world = put (Place.live (bytes "f")) Node.absent s.world })
unfolding restore_backup restore_prior restore_as restore_copy call gets pure ◌>>=◌ str_eq
backup_gone = refl

finish_cleanup-has_critical_example :
    has_critical_cleanup_failure (finish_cleanup false opts session).0
    ≡ is_some (critical_cleanup_error (finish_cleanup false opts session).0)
finish_cleanup-has_critical_example = finish_cleanup-has_critical false opts session

sanitize_backup_name_lem_example :
    (has_byte b'/' (sanitize_backup_name (bytes "../a/b")) ≡ false)
    × (has_dots (sanitize_backup_name (bytes "../a/b")) ≡ false)
    × (str_eq (sanitize_backup_name (bytes "../a/b")) [] ≡ false)
sanitize_backup_name_lem_example = sanitize_backup_name_lem (bytes "../a/b")

backup_name_collides_example : backup_name (bytes "a/b") ≡ backup_name (bytes "a_b")
backup_name_collides_example = backup_name_collides (bytes "a") (bytes "b")
