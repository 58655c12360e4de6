-- ===== src/Transaction/Finish.antt =====
-- internal/transaction/finish_result.go, cleanup_severity.go, finish_opts.go and the cleanup of
-- runner.go: what is done behind a transaction, and how its failures are told apart.
pub mod Paired
use m.Base.{
  Bool, true, false, Option, none, some, List, [], ◌∷◌, ◌++◌, Str, bytes, str_eq, length, ltb,
  if◌then◌else◌, ◌&&◌, ◌||◌, not,
}
use m.Apperr.{Code, Error, Result, ok, err}
use m.Transaction.Journal.{DocState}
use m.Transaction.Disk.{System, Call}
use m.Transaction.Session.{⊤, Session, Action, pure, gets, ◌>>=◌, ◌>>◌, call, txn_error, io_error}
use m.Transaction.Publish.{attempt}

-- fsx.ReleaseResult; the first is the zero value.
pub data ReleaseResult : Type 0 where
  released not_owner missing_owner malformed_owner : ReleaseResult

pub record FinishOpts : Type 0 where
  pub release_project_lock : Bool
  pub clear_current : Bool

pub record FinishResult : Type 0 where
  pub committed : Bool
  pub lock_released : Bool
  pub current_cleared : Bool
  pub lock_release_requested : Bool
  pub current_clear_requested : Bool
  pub lock_release_result : ReleaseResult
  pub cleanup_warnings : List Error
  pub cleanup_warning_codes : List Str

unfoldable pub no_result : FinishResult
no_result = record {
  committed = false;
  lock_released = false;
  current_cleared = false;
  lock_release_requested = false;
  current_clear_requested = false;
  lock_release_result = ReleaseResult.released;
  cleanup_warnings = [];
  cleanup_warning_codes = [];
}

abbrev pub code_lock_release : Str
code_lock_release = bytes "transaction_lock_release"

abbrev pub code_current_cleanup : Str
code_current_cleanup = bytes "transaction_current_cleanup"

abbrev pub default_finish_opts : FinishOpts
default_finish_opts = record { release_project_lock = false; clear_current = true }

abbrev pub standalone_finish_opts : FinishOpts
standalone_finish_opts = record { release_project_lock = true; clear_current = true }

unfoldable pub recovery_finish_opts : Bool → FinishOpts
recovery_finish_opts skip_takeover =
    if not skip_takeover
    then record default_finish_opts { release_project_lock = true }
    else default_finish_opts

-- `CleanupCodeSeverity(code) == CleanupCritical`; every other code is a warning.
unfoldable pub is_critical : Str → Bool
is_critical code = str_eq code code_current_cleanup || str_eq code code_lock_release

unfoldable pub append_cleanup_warning : FinishResult → Str → Error → FinishResult
append_cleanup_warning fr code e = record fr {
  cleanup_warnings = fr.cleanup_warnings ++ e ∷ [];
  cleanup_warning_codes =
      if str_eq code [] then fr.cleanup_warning_codes else fr.cleanup_warning_codes ++ code ∷ [];
}

-- The flags that say that a requested cleanup is not done.
abbrev is_not_owner : ReleaseResult → Bool
is_not_owner ReleaseResult.not_owner = true
is_not_owner _ = false

unfoldable pub incomplete : FinishResult → Bool
incomplete fr =
    (fr.lock_release_requested && is_not_owner fr.lock_release_result)
    || (fr.lock_release_requested && not fr.lock_released)
    || (fr.current_clear_requested && not fr.current_cleared)

unfoldable pub any_critical : List Str → Bool
any_critical [] = false
any_critical (code ∷ codes) = is_critical code || any_critical codes

unfoldable pub has_critical_cleanup_failure : FinishResult → Bool
has_critical_cleanup_failure fr = incomplete fr || any_critical fr.cleanup_warning_codes

-- The warnings whose code at the same index is critical, or is not; a warning past the last code
-- has the empty one.
unfoldable pub select_warnings : Bool → List Error → List Str → List Error
select_warnings critical [] codes = []
select_warnings critical (e ∷ es) [] =
    (if critical then [] else e ∷ []) ++ select_warnings critical es []
select_warnings critical (e ∷ es) (code ∷ codes) =
    (if is_critical code
      then (if critical then e ∷ [] else [])
      else (if critical then [] else e ∷ []))
    ++ select_warnings critical es codes

-- CriticalCleanupError: the critical warnings joined, or the one error of an incomplete cleanup.
unfoldable pub joined : FinishResult → List Error → Option (List Error)
joined fr (e ∷ es) = some (e ∷ es)
joined fr [] =
    if incomplete fr then some (txn_error (bytes "transaction.cleanup") [] ∷ []) else none

unfoldable pub critical_cleanup_error : FinishResult → Option (List Error)
critical_cleanup_error fr =
    joined fr (select_warnings true fr.cleanup_warnings fr.cleanup_warning_codes)

unfoldable pub warning_errors : FinishResult → List Error
warning_errors fr = select_warnings false fr.cleanup_warnings fr.cleanup_warning_codes

abbrev is_transaction : Code → Bool
is_transaction Code.transaction = true
is_transaction _ = false

unfoldable pub cleared : FinishResult → Option Error → FinishResult
cleared fr none = record fr { current_cleared = true }
cleared fr (some e) = append_cleanup_warning fr code_current_cleanup e

unfoldable pub unlocked : FinishResult → Option Error → FinishResult
unlocked fr none = record fr { lock_released = true; lock_release_result = ReleaseResult.released }
unlocked fr (some e) =
    let fr' = append_cleanup_warning fr code_lock_release e in
    record fr' {
      lock_release_result =
          if is_transaction e.code then ReleaseResult.not_owner else fr'.lock_release_result;
    }

unfoldable pub hook_noted : FinishResult → FinishResult
hook_noted fr =
    append_cleanup_warning fr (bytes "finish_hook") (txn_error (bytes "transaction.finish") [])

unfoldable pub root_noted : FinishResult → Option Error → FinishResult
root_noted fr none = fr
root_noted fr (some e) =
    append_cleanup_warning fr (bytes "txn_dir_remove") (io_error (bytes "transaction.finish"))

abbrev is_committed : DocState → Bool
is_committed DocState.committed = true
is_committed _ = false

module _ {S : System} where
  -- A call of the finish path, whose error becomes a note in the result.
  abbrev pub noting :
      Call
      → (FinishResult → Option Error → FinishResult)
      → FinishResult × Session S
      → FinishResult × Session S
  noting c note (fr, s) = let (e, w) = S.act c s.world in (note fr e, record s { world = w })

  abbrev pub noting_if :
      Bool
      → Call
      → (FinishResult → Option Error → FinishResult)
      → FinishResult × Session S
      → FinishResult × Session S
  noting_if true c note r = noting c note r
  noting_if false c note r = r

  -- clearCurrentVerified has no error only when it is verified.
  unfoldable pub finish_critical_cleanup : FinishOpts → Session S → FinishResult × Session S
  finish_critical_cleanup opts s =
      let asked = record no_result {
        current_clear_requested = opts.clear_current;
        lock_release_requested = opts.release_project_lock;
      } in
      noting_if opts.release_project_lock Call.release_project_lock unlocked
        (noting_if opts.clear_current Call.clear_current cleared (asked, s))

  unfoldable pub cleanup_behind :
      Bool → FinishOpts → Option Error → Session S → FinishResult × Session S
  cleanup_behind keep_journal opts (some e) s =
      let (fr, s') = finish_critical_cleanup opts s in (hook_noted fr, s')
  cleanup_behind keep_journal opts none s =
      noting_if (not keep_journal) Call.remove_txn_root root_noted (finish_critical_cleanup opts s)

  -- The root of a transaction that has begun is not empty.
  unfoldable pub finish_cleanup : Bool → FinishOpts → Session S → FinishResult × Session S
  finish_cleanup keep_journal opts s =
      let (e, w) = S.act (Call.hook (bytes "finish") 0) s.world in
      cleanup_behind keep_journal opts e (record s { world = w })

  unfoldable pub finish : Bool → FinishOpts → Session S → FinishResult × Session S
  finish keep_journal opts s =
      let (fr, s') = finish_cleanup keep_journal opts s in
      (if is_committed s'.doc.state then record fr { committed = true } else fr, s')

  unfoldable pub discard : FinishOpts → Session S → FinishResult × Session S
  discard opts = finish_cleanup false opts
