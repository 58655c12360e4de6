-- ===== src/Policy/Org.antt =====
-- internal/policy/org.go: the policy of a project about the packages that it takes, and its evaluation
-- over a graph.
pub mod Breaches
use m.Base.{
  Bool, true, false, not, ◌&&◌, ◌||◌, Option, none, some, List, [], ◌∷◌, ◌++◌, Str, bytes, str_eq,
  has_prefix, elem, find_or, map, if◌then◌else◌,
}
use m.Base.Int.{ℤ}
use m.Base.Sort.{sort}
use m.Base.Space.{trim_space}
use m.Apperr.{Error}
use m.Deps.{Package, Graph, package_key}
use m.Deps.Sorting.{by_field, by_last}
use m.Policy.{or_one, is_one, or_text, config_error}

-- `Waiver`
pub record Waiver : Type 0 where
  pub package_name : Str
  pub reason : Str
  pub expires : Str

-- `OrgPolicy`
pub record OrgPolicy : Type 0 where
  pub schema_version : ℤ
  pub deny_packages : List Str
  pub deny_licenses : List Str
  pub severity_threshold : Str
  pub waivers : List Waiver

-- `PolicyViolation`, without its message.
pub record PolicyViolation : Type 0 where
  pub subject : Str
  pub rule : Str
  pub severity : Str

-- `PolicyResult`
pub record PolicyResult : Type 0 where
  pub passed : Bool
  pub violations : List PolicyViolation

-- strings.ToLower and strings.ToUpper, and whether time.Parse reads a time before now in a text.
pub record Texts : Type 0 where
  pub lower : Str → Str
  pub upper : Str → Str
  pub is_past : Str → Bool

abbrev pub severity_error : Str
severity_error = bytes "error"

unfoldable pub known_severity : Str → Bool
known_severity s = str_eq s (bytes "warn") || str_eq s severity_error

-- `Normalize`: the policy that it leaves behind the pointer, and its error.
unfoldable pub normalize_org : OrgPolicy → OrgPolicy × Option Error
unfolding or_one is_one or_text known_severity config_error
normalize_org p =
    let v = record p { schema_version = or_one p.schema_version } in
    let s = record v { severity_threshold = or_text severity_error v.severity_threshold } in
    if is_one v.schema_version
    then if known_severity s.severity_threshold
      then (s, none)
      else (s, some (config_error (bytes "policy.normalize") (bytes "severityThreshold")))
    else (v, some (config_error (bytes "policy.normalize") (bytes "orgPolicy")))

-- strings.Contains
unfoldable pub contains : Str → Str → Bool
contains [] sub = has_prefix [] sub
contains (c ∷ s) sub = has_prefix (c ∷ s) sub || contains s sub

-- `s == ""`
unfoldable pub blank : Str → Bool
blank [] = true
blank (c ∷ s) = false

unfoldable pub violation : OrgPolicy → Package → Str → PolicyViolation
violation org p rule = record {
  subject = package_key p.id;
  rule = rule;
  severity = org.severity_threshold;
}

unfoldable pub violation_less : PolicyViolation → PolicyViolation → Bool
unfolding by_field by_last
violation_less = by_field (λ v. v.subject) (by_last (λ v. v.rule))

-- The loop that sets `passed`.
unfoldable pub all_below_error : List PolicyViolation → Bool
all_below_error [] = true
all_below_error (v ∷ vs) = if str_eq v.severity severity_error then false else all_below_error vs

module _ (t : Texts) where
  -- `licenseMatchesDenied`
  unfoldable pub license_matches_denied : Str → Str → Bool
  unfolding contains
  license_matches_denied license denied =
      let l = t.upper (trim_space license) in
      let d = t.upper (trim_space denied) in if str_eq l d then true else contains l d

  -- The loop of `waived`, with the name and the key in lower case.
  unfoldable pub waived_by : List Waiver → Str → Str → Bool
  unfolding blank
  waived_by [] name key = false
  waived_by (w ∷ ws) name key =
      let target = t.lower (trim_space w.package_name) in
      let rest = waived_by ws name key in
      if blank target
      then rest
      else if not (str_eq target name) && not (str_eq target key)
      then rest
      else if not (blank w.expires) && t.is_past w.expires
      then rest
      else true

  -- `waived`
  unfoldable pub waived : List Waiver → Str → Str → Bool
  unfolding waived_by
  waived waivers name key = waived_by waivers (t.lower name) (t.lower key)

  -- The loop over the denied licenses, up to the first that matches.
  unfoldable pub license_violations : OrgPolicy → Package → Str → List Str → List PolicyViolation
  unfolding license_matches_denied blank violation
  license_violations org p license [] = []
  license_violations org p license (denied ∷ rest) =
      let later = license_violations org p license rest in
      if blank denied
      then later
      else if license_matches_denied license denied
      then violation org p (bytes "denied_license") ∷ []
      else later

  unfoldable pub denied_packages : OrgPolicy → List Str
  denied_packages org = map (λ name. t.lower (trim_space name)) org.deny_packages

  unfoldable pub denied_licenses : OrgPolicy → List Str
  denied_licenses org = map (λ license. t.upper (trim_space license)) org.deny_licenses

  -- The body of the loop over the packages.
  unfoldable pub package_violations : List (Str × Str) → OrgPolicy → Package → List PolicyViolation
  unfolding waived denied_packages denied_licenses license_violations violation blank
  package_violations licenses org p =
      let license = trim_space (find_or [] (package_key p.id) licenses) in
      if waived org.waivers p.id.name (package_key p.id)
      then []
      else if elem (t.lower p.id.name) (denied_packages org)
      then violation org p (bytes "denied_package") ∷ []
      else if blank license
      then []
      else license_violations org p license (denied_licenses org)

  unfoldable pub all_violations : List (Str × Str) → OrgPolicy → List Package → List PolicyViolation
  unfolding package_violations
  all_violations licenses org [] = []
  all_violations licenses org (p ∷ ps) =
      package_violations licenses org p ++ all_violations licenses org ps

  -- `Evaluate`, for a graph and a policy that are there.
  unfoldable pub evaluate : Graph → List (Str × Str) → OrgPolicy → PolicyResult
  unfolding all_violations violation_less all_below_error
  evaluate g licenses org =
      let violations = sort violation_less (all_violations licenses org g.packages) in
      record { passed = all_below_error violations; violations = violations }
