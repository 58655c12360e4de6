-- ===== src/Transaction/Disk.antt =====
-- internal/transaction: what a runner asks of the operating system, of internal/fsx and of the
-- backups, and what it is told. Each call answers with an error or none, and changes the world
-- either way, so a call that fails may have done a part of its work.
use m.Base.{ℕ, Bool, Option, Str}
use m.Apperr.{Error}
use m.Transaction.Journal.{Codec}

-- Paths by how the source makes them: `GuardPath` of a relative path, with `.mew-old` behind it,
-- the directory that holds it, `filepath.Join(r.Root, rel)`, and a temporary file in that
-- directory.
pub data Place : Type 0 where
  live : Str → Place
  old : Str → Place
  parent : Str → Place
  txn : Str → Place
  temp : Str → Place

pub data Call : Type 0 where
  -- ctx.Err, invokeTestHook, and the checks of GuardPath on a relative path
  poll : Call
  hook : Str → ℕ → Call
  guard : Str → Call
  -- os.RemoveAll, os.MkdirAll, os.Rename, and the calls of fsx that retry
  remove_all : Place → Call
  mkdir_all : Place → Call
  rename : Place → Place → Call
  remove_all_retry : Place → Call
  rename_path : Place → Place → Call
  replace_file_recoverable : Place → Place → Call
  replace_existing_file : Place → Place → Call
  sync_file : Place → Call
  sync_dir : Place → Call
  -- the temporary file of a write
  create_temp : Place → Call
  write_temp : Place → Str → Call
  sync_temp : Place → Call
  close_temp : Place → Call
  remove_file : Place → Call
  -- os.WriteFile, os.Symlink, createJunction, writeReparseMeta, backupTree and restoreTree
  write_file : Place → Str → Call
  make_symlink : Str → Place → Call
  create_junction : Place → Str → Str → Call
  write_reparse_meta : Str → Str → Str → Call
  backup_tree : Place → Place → Str → Call
  restore_tree : Place → Place → Str → Call
  -- the generation of a journal, its head, and the cleanup behind a transaction
  write_generation : ℕ → Str → Call
  write_head : ℕ → Str → Call
  clear_current : Call
  release_project_lock : Call
  remove_txn_root : Call

-- What os.Stat says.
pub data Stat : Type 0 where
  missing directory plain failed : Stat

-- What a read says; `missing` is an error that os.IsNotExist accepts.
pub data FileRead (A : Type 0) : Type 0 where
  found : A → FileRead A
  missing : FileRead A
  failed : FileRead A

-- What os.Lstat, fsx.IsJunction, fsx.ReparseTag and the readers of links say of a path.
pub record LinkInfo : Type 0 where
  pub lstat : Stat
  pub is_junction : Bool
  pub mount_point : Option (Str × Str × ℕ)
  pub reparse_tag : ℕ
  pub reparse_target : Option Str
  pub mode_symlink : Bool
  pub readlink : Option Str

pub record System : Type 1 where
  pub codec : Codec
  pub World : Type 0
  pub act : Call → World → Option Error × World
  pub stat : World → Place → Stat
  pub read_file : World → Place → FileRead Str
  pub read_reparse_meta : World → Place → FileRead (Str × Str)
  pub link_info : World → Place → LinkInfo
  pub trim_space : Str → Str
  -- `reparseMetaBackupRel` of backup_tree.go
  pub meta_rel : Str → Str
