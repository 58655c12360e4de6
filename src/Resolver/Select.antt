-- ===== src/Resolver/Select.antt =====
-- internal/resolver/select.go: `selectVersion`.
pub mod Candidates
pub mod Highest
pub mod Chosen
use m.Base.{
  Bool, true, false, not, ◌&&◌, Option, none, some, List, [], ◌∷◌, ◌++◌, Str, bytes, elem, find,
  find_or, ltb, if◌then◌else◌,
}
use m.Base.Int.{ℤ, pos, negsuc}
use m.Deps.{Package}
use m.Deps.Validate.{is_empty}
use m.Policy.{Policy}
use m.Resolver.{
  External, VersionMeta, Packument, sorted_versions_semver, select_exact, max_satisfying,
}
use m.Resolver.Hints.{GraphHints, PinContext, reused_version, hinted_version, hinted_pkg}

-- The fields of `ResolutionDecision` that selectVersion sets.
pub record Decision : Type 0 where
  pub subject : Str
  pub requested : Str
  pub candidates : List Str
  pub selected : Str
  pub reason : Str
  pub rejected : List Str

-- `a < b` on durations.
unfoldable pub int_lt : ℤ → ℤ → Bool
int_lt (pos a) (pos b) = ltb a b
int_lt (pos a) (negsuc b) = false
int_lt (negsuc a) (pos b) = true
int_lt (negsuc a) (negsuc b) = ltb b a

-- The age by the first form in which the time parses.
unfoldable pub parsed_age : Option ℤ → Option ℤ → Option ℤ
parsed_age (some a) nano = some a
parsed_age none nano = nano

unfoldable pub too_young : Option ℤ → ℤ → Bool
unfolding int_lt
too_young none minimum = false
too_young (some a) minimum = int_lt a minimum

-- `policyRejectReason`, of a version that is there; no text means that it is not rejected.
unfoldable pub policy_reject_reason : External → VersionMeta → Option Policy → Str
unfolding is_empty too_young parsed_age int_lt
policy_reject_reason x m none = []
policy_reject_reason x m (some pol) =
    if pol.reject_deprecated && not (is_empty m.deprecated)
    then bytes "deprecated"
    else if int_lt (pos 0) pol.minimum_release_age
        && (not (is_empty m.time)
            && too_young (parsed_age (x.age m.time) (x.age_nano m.time)) pol.minimum_release_age)
    then bytes "minimum-release-age"
    else []

-- The zero value, of a version that is missing.
unfoldable pub no_meta : VersionMeta
no_meta = record {
  name = [];
  version = [];
  deprecated = [];
  time = [];
  integrity = [];
  tarball = [];
}

-- `p.Versions[ver]`
unfoldable pub meta_at : Packument → Str → VersionMeta
unfolding no_meta
meta_at p ver = find_or no_meta ver p.versions

-- `ver + ": " + reason`
unfoldable pub rejection : Str → Str → Str
rejection ver reason = ver ++ (bytes ": " ++ reason)

-- The loop over the candidates: the eligible ones, and the rejections.
unfoldable pub eligible_of : External → Packument → Option Policy → List Str → List Str
unfolding is_empty
eligible_of x p pol [] = []
eligible_of x p pol (ver ∷ vers) =
    let rest = eligible_of x p pol vers in
    if is_empty (policy_reject_reason x (meta_at p ver) pol) then ver ∷ rest else rest

unfoldable pub rejected_of : External → Packument → Option Policy → List Str → List Str
unfolding is_empty rejection
rejected_of x p pol [] = []
rejected_of x p pol (ver ∷ vers) =
    let reason = policy_reject_reason x (meta_at p ver) pol in
    let rest = rejected_of x p pol vers in
    if is_empty reason then rest else rejection ver reason ∷ rest

-- `appendUnique`, with `containsStr` as `elem`
unfoldable pub append_unique : List Str → Str → List Str
append_unique ss s = if elem s ss then ss else ss ++ s ∷ []

-- What selectVersion answers: the version or, for its error, none; and the decision.
abbrev pub Selection : Type 0
Selection = Option VersionMeta × Decision

unfoldable pub selected_as : Decision → Str → Str → VersionMeta → Selection
selected_as d ver reason m = (some m, record d { selected = ver; reason = reason })

-- The version that is made up of an earlier package.
unfoldable pub remembered : Str → Str → Package → VersionMeta
remembered name ver p = record {
  name = name;
  version = ver;
  deprecated = [];
  time = [];
  integrity = p.integrity;
  tarball = p.tarball_url;
}

module _ (x : External) (p : Packument) (name rng : Str) (pol : Option Policy) where
  -- From `semver.MaxSatisfying` on.
  unfoldable pub select_best : Decision → Option Str → Selection
  select_best d none = (none, d)
  select_best d (some best) = selected_as d best (bytes "max-satisfying") (meta_at p best)

  unfoldable pub select_max : List Str → Decision → Selection
  select_max eligible d = select_best d (max_satisfying x eligible rng)

  -- The rejection of an exact version or tag that is not eligible.
  unfoldable pub note_exact : VersionMeta → Decision → Decision
  note_exact m d =
      let reason = policy_reject_reason x m pol in
      if is_empty reason
      then d
      else record d { rejected = append_unique d.rejected (rejection m.version reason) }

  -- From `p.SelectVersion` on.
  unfoldable pub select_found : List Str → Decision → Option VersionMeta → Selection
  select_found eligible d none = select_max eligible d
  select_found eligible d (some m) =
      if elem m.version eligible
      then selected_as d m.version (bytes "tag-or-exact") m
      else select_max eligible (note_exact m d)

  unfoldable pub select_listed : List Str → Decision → Selection
  select_listed eligible d = select_found eligible d (select_exact p rng)

  -- The version of an earlier package that is not eligible.
  unfoldable pub select_remembered : List Str → Decision → Str → Option Package → Selection
  select_remembered eligible d ver none = select_listed eligible d
  select_remembered eligible d ver (some q) =
      if is_empty (policy_reject_reason x (record no_meta { version = ver }) pol)
      then selected_as d ver (bytes "hint") (remembered name ver q)
      else select_listed eligible d

  -- From `hints.version` on.
  unfoldable pub select_hinted : List Str → Decision → GraphHints → Selection
  select_hinted eligible d h =
      let ver = hinted_version x h name rng in
      if is_empty ver
      then select_listed eligible d
      else if elem ver eligible
      then selected_as d ver (bytes "hint") (meta_at p ver)
      else select_remembered eligible d ver (hinted_pkg h name ver)

  unfoldable pub select_reused : List Str → Decision → GraphHints → Option Str → Selection
  select_reused eligible d h none = select_hinted eligible d h
  select_reused eligible d h (some ver) =
      if elem ver eligible
      then selected_as d ver (bytes "reuse-key") (meta_at p ver)
      else select_hinted eligible d h

  -- From `hints != nil` on.
  unfoldable pub select_by_hints : List Str → Decision → Option GraphHints → PinContext → Selection
  select_by_hints eligible d none pin = select_listed eligible d
  select_by_hints eligible d (some h) pin = select_reused eligible d h (reused_version x h pin)

  -- `selectVersion`
  unfoldable pub select_version : Option GraphHints → PinContext → Selection
  select_version hints pin =
      let candidates = sorted_versions_semver x p in
      select_by_hints (eligible_of x p pol candidates)
        (record {
          subject = name;
          requested = rng;
          candidates = candidates;
          selected = [];
          reason = [];
          rejected = rejected_of x p pol candidates;
        })
        hints pin
