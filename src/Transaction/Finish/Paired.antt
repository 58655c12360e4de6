-- ===== src/Transaction/Finish/Paired.antt =====
-- internal/transaction/finish_result.go: the two lists of a finish result side by side, and what
-- the two tests for a critical failure make of them.
use m.Base.{
  ℕ, ◌+◌, ◌≡◌, refl, sym, ap, ◌∙◌, Bool, true, false, Option, none, some, List, [], ◌∷◌, ◌++◌, Str,
  bytes, str_eq, length, length-append, if◌then◌else◌, ◌||◌, not, arith,
}
use m.Apperr.{Error}
use m.Transaction.Disk.{System, Call}
use m.Transaction.Session.{Session}
use m.Transaction.Publish.{is_some}
use m.Transaction.Finish.{
  FinishResult, FinishOpts, append_cleanup_warning, no_result, is_critical, any_critical,
  select_warnings, has_critical_cleanup_failure, critical_cleanup_error, joined, incomplete,
  cleared, unlocked, hook_noted, root_noted, finish_critical_cleanup, cleanup_behind,
  finish_cleanup, noting_if, code_current_cleanup, code_lock_release,
}

-- Each warning has its code.
pub IsPaired : FinishResult → Type 0
IsPaired fr = length fr.cleanup_warnings ≡ length fr.cleanup_warning_codes

append-IsPaired :
    (fr : FinishResult) (code : Str) (e : Error)
    → str_eq code [] ≡ false
    → IsPaired fr
    → IsPaired (append_cleanup_warning fr code e)
unfolding append_cleanup_warning IsPaired
append-IsPaired fr code e named h = rw named (
    length-append fr.cleanup_warnings (e ∷ [])
    ∙ ap (λ (n : ℕ). n + 1) h
    ∙ sym (length-append fr.cleanup_warning_codes (code ∷ [])))

cleared-IsPaired : (fr : FinishResult) (e : Option Error) → IsPaired fr → IsPaired (cleared fr e)
unfolding cleared
cleared-IsPaired fr none h = unfold IsPaired in h
cleared-IsPaired fr (some e) h = append-IsPaired fr code_current_cleanup e (unfold str_eq in refl) h

unlocked-IsPaired : (fr : FinishResult) (e : Option Error) → IsPaired fr → IsPaired (unlocked fr e)
unfolding unlocked
unlocked-IsPaired fr none h = unfold IsPaired in h
unlocked-IsPaired fr (some e) h =
    unfold IsPaired in append-IsPaired fr code_lock_release e (unfold str_eq in refl) h

root_noted-IsPaired :
    (fr : FinishResult) (e : Option Error) → IsPaired fr → IsPaired (root_noted fr e)
unfolding root_noted
root_noted-IsPaired fr none h = h
root_noted-IsPaired fr (some e) h =
    append-IsPaired fr (bytes "txn_dir_remove") _ (unfold str_eq in refl) h

asked-IsPaired :
    (a b : Bool)
    → IsPaired (record no_result { current_clear_requested = a; lock_release_requested = b })
unfolding IsPaired no_result
asked-IsPaired a b = refl

module _ {S : System} where
  noting_if-IsPaired :
      (b : Bool) (c : Call) (note : FinishResult → Option Error → FinishResult)
      (r : FinishResult × Session S)
      → ((fr : FinishResult) (e : Option Error) → IsPaired fr → IsPaired (note fr e))
      → IsPaired r.0
      → IsPaired (noting_if b c note r).0
  noting_if-IsPaired true c note (fr, s) keeps h = keeps fr _ h
  noting_if-IsPaired false c note (fr, s) keeps h = h

  critical-IsPaired :
      (opts : FinishOpts) (s : Session S) → IsPaired (finish_critical_cleanup opts s).0
  unfolding finish_critical_cleanup
  critical-IsPaired opts s =
      noting_if-IsPaired opts.release_project_lock Call.release_project_lock unlocked _
        unlocked-IsPaired
        (noting_if-IsPaired opts.clear_current Call.clear_current cleared _ cleared-IsPaired
          (asked-IsPaired opts.clear_current opts.release_project_lock))

  behind-IsPaired :
      (keep : Bool) (opts : FinishOpts) (e : Option Error) (s : Session S)
      → IsPaired (cleanup_behind keep opts e s).0
  unfolding cleanup_behind hook_noted
  behind-IsPaired keep opts (some e) s =
      append-IsPaired _ (bytes "finish_hook") _ (unfold str_eq in refl) (critical-IsPaired opts s)
  behind-IsPaired keep opts none s =
      noting_if-IsPaired (not keep) Call.remove_txn_root root_noted _ root_noted-IsPaired
        (critical-IsPaired opts s)

  finish_cleanup-IsPaired :
      (keep : Bool) (opts : FinishOpts) (s : Session S) → IsPaired (finish_cleanup keep opts s).0
  unfolding finish_cleanup
  finish_cleanup-IsPaired keep opts s = behind-IsPaired keep opts _ _

-- A critical code finds its warning at the same index.
is_some-joined :
    (fr : FinishResult) (es : List Error) (codes : List Str)
    → length es ≡ length codes
    → is_some (joined fr (select_warnings true es codes)) ≡ (incomplete fr || any_critical codes)
unfolding select_warnings any_critical joined
is_some-joined fr [] [] h = ground arith
is_some-joined fr [] (code ∷ codes) h = absurd (omega arith)
is_some-joined fr (e ∷ es) [] h = absurd (omega arith)
is_some-joined fr (e ∷ es) (code ∷ codes) h =
    either (is_critical code) (is_some-joined fr es codes (omega arith))
  where
    either :
        (b : Bool)
        → is_some (joined fr (select_warnings true es codes))
          ≡ (incomplete fr || any_critical codes)
        → is_some (joined fr ((if b then e ∷ [] else []) ++ select_warnings true es codes))
          ≡ (incomplete fr || (b || any_critical codes))
    either true rest = ground arith
    either false rest = rest

-- Where each warning has its code, the two tests agree.
has_critical_lem :
    (fr : FinishResult)
    → IsPaired fr
    → has_critical_cleanup_failure fr ≡ is_some (critical_cleanup_error fr)
unfolding has_critical_cleanup_failure critical_cleanup_error IsPaired
has_critical_lem fr h = sym (is_some-joined fr fr.cleanup_warnings fr.cleanup_warning_codes h)

-- After the cleanup behind any transaction, whatever of it failed, HasCriticalCleanupFailure says
-- yes exactly when CriticalCleanupError is an error.
pub finish_cleanup-has_critical :
    {S : System} (keep : Bool) (opts : FinishOpts) (s : Session S)
    → let fr = (finish_cleanup keep opts s).0 in
      has_critical_cleanup_failure fr ≡ is_some (critical_cleanup_error fr)
finish_cleanup-has_critical keep opts s = has_critical_lem _ (finish_cleanup-IsPaired keep opts s)

-- Each warning is in one of the two selections.
length-select_warnings :
    (es : List Error) (codes : List Str)
    → length (select_warnings true es codes) + length (select_warnings false es codes) ≡ length es
unfolding select_warnings
length-select_warnings [] codes = refl
length-select_warnings (e ∷ es) [] = omega (arith, length-select_warnings es [])
length-select_warnings (e ∷ es) (code ∷ codes) = ground (arith, length-select_warnings es codes)
