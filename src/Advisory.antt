-- ===== src/Advisory.antt =====
-- internal/advisory/range.go, with `Compare` of internal/semver/semver.go: which versions an advisory
-- affects. `new_version` and `order` stand for NewVersion and Compare of Masterminds/semver, over its
-- type of versions.
pub mod Intervals
pub mod Unparsed
use m.Base.{
  ℕ, ◌+◌, Bool, true, false, not, ◌&&◌, ◌||◌, Option, none, some, List, [], ◌∷◌, ◌++◌, Str, bytes,
  str_eq, length, ltb, ◌==◌, if◌then◌else◌,
}

-- `RangeEvent`
pub record RangeEvent : Type 0 where
  pub introduced : Str
  pub fixed : Str
  pub last_affected : Str

-- `VersionRange`
pub record VersionRange : Type 0 where
  pub kind : Str
  pub events : List RangeEvent

-- `semverInterval`
pub record SemverInterval : Type 0 where
  pub introduced : Str
  pub fixed : Str
  pub last_affected : Str

-- `s != ""`
unfoldable pub is_set : Str → Bool
is_set [] = false
is_set (_ ∷ _) = true

-- The variables of `buildSemverIntervals`.
pub record Reading : Type 0 where
  pub intervals : List SemverInterval
  pub warnings : List Str
  pub current : Option SemverInterval

-- `if current != nil { intervals = append(intervals, *current) }`
pub close_current : Option SemverInterval → List SemverInterval → List SemverInterval
close_current none intervals = intervals
close_current (some iv) intervals = intervals ++ iv ∷ []

pub warn : Str → Reading → Reading
warn message s = record s { warnings = s.warnings ++ message ∷ [] }

-- The cases of an upper bound, by `current`.
pub end_fixed : Option SemverInterval → Str → Reading → Reading
end_fixed none fixed s = warn (bytes "fixed without introduced") s
end_fixed (some iv) fixed s = record s {
  intervals = s.intervals ++ record iv { fixed = fixed } ∷ [];
  current = none;
}

pub end_last : Option SemverInterval → Str → Reading → Reading
end_last none last s = warn (bytes "last_affected without introduced") s
end_last (some iv) last s = record s {
  intervals = s.intervals ++ record iv { last_affected = last } ∷ [];
  current = none;
}

pub bool_to_int : Bool → ℕ
bool_to_int b = if b then 1 else 0

-- The body of the loop of `buildSemverIntervals`.
pub read_event : RangeEvent → Reading → Reading
read_event ev s =
    let fields =
      bool_to_int (is_set ev.introduced)
      + bool_to_int (is_set ev.fixed)
      + bool_to_int (is_set ev.last_affected) in
    if fields == 0
    then warn (bytes "empty range event") s
    else if ltb 1 fields
    then warn (bytes "range event has multiple fields") s
    else if is_set ev.introduced
    then record s {
      intervals = close_current s.current s.intervals;
      current = some (record { introduced = ev.introduced; fixed = []; last_affected = [] });
    }
    else if is_set ev.fixed
    then end_fixed s.current ev.fixed s
    else end_last s.current ev.last_affected s

pub read_events : List RangeEvent → Reading → Reading
read_events [] s = s
read_events (ev ∷ evs) s = read_events evs (read_event ev s)

-- `buildSemverIntervals`
pub build_semver_intervals : List RangeEvent → List SemverInterval × List Str
build_semver_intervals events =
    let s = read_events events (record { intervals = []; warnings = []; current = none }) in
    let intervals = close_current s.current s.intervals in
    (
      intervals,
      if ltb 0 (length events) && (length intervals == 0 && length s.warnings == 0)
          then bytes "range produced no intervals" ∷ []
          else s.warnings,
    )

-- `v[:i]` up to the first of a byte, all of `v` without one.
unfoldable pub up_to : ℕ → Str → Str
up_to b [] = []
up_to b (c ∷ v) = let rest = up_to b v in if c == b then [] else c ∷ rest

-- `normalizeAuditVersion`
unfoldable pub normalize_audit_version : Str → Str
normalize_audit_version version = up_to b'#' version

-- `stripBuild`
unfoldable pub strip_build : Str → Str
strip_build v = up_to b'+' (up_to b'(' v)

-- The sign of a comparison.
pub data Sign : Type 0 where
  below same above : Sign

unfoldable pub is_below : Sign → Bool
is_below Sign.below = true
is_below _ = false

unfoldable pub is_above : Sign → Bool
is_above Sign.above = true
is_above _ = false

-- A comparison without an error whose sign passes the test.
unfoldable pub compares : (Sign → Bool) → Option Sign → Bool
compares test none = false
compares test (some sign) = test sign

module _ {V : Type 0} (new_version : Str → Option V) (order : V → V → Sign) where
  -- The versions that were parsed, compared; `none` is an error.
  unfoldable pub compare_parsed : Option V → Option V → Option Sign
  compare_parsed none vb = none
  compare_parsed (some va) none = none
  compare_parsed (some va) (some vb) = some (order va vb)

  -- `semver.Compare`
  unfoldable pub compare_versions : Str → Str → Option Sign
  compare_versions a b = compare_parsed (new_version (strip_build a)) (new_version (strip_build b))

  -- `versionInInterval`
  pub version_in_interval : Str → SemverInterval → Bool
  version_in_interval version iv =
      is_set iv.introduced
      && ((str_eq iv.introduced (bytes "0")
            || compares (λ c. not (is_below c)) (compare_versions version iv.introduced))
          && (if is_set iv.fixed
              then compares is_below (compare_versions version iv.fixed)
              else if is_set iv.last_affected
              then compares (λ c. not (is_above c)) (compare_versions version iv.last_affected)
              else true))

  unfoldable pub in_any : Str → List SemverInterval → Bool
  in_any version [] = false
  in_any version (iv ∷ ivs) = version_in_interval version iv || in_any version ivs

  -- `versionMatchesRange`
  unfoldable pub version_matches_range : VersionRange → Str → Bool
  version_matches_range r version =
      if is_set r.kind && not (str_eq r.kind (bytes "SEMVER"))
      then false
      else in_any (normalize_audit_version version) (build_semver_intervals r.events).0
