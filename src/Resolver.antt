-- ===== src/Resolver.antt =====
-- internal/resolver: the choice of a version of a package, with what internal/semver and
-- internal/registry give for it. The functions of Masterminds/semver, time and crypto/sha256 are
-- parameters.
pub mod Hints
pub mod Select
pub mod Dedupe
pub mod Update
use m.Base.{
  ℕ, Bool, true, false, Option, none, some, List, [], ◌∷◌, Str, bytes, str_eq, str_lt, find, keys,
  if◌then◌else◌,
}
use m.Base.Int.{ℤ}
use m.Base.Sort.{sort}
use m.Base.Space.{trim_space}
use m.Advisory.{Sign, is_below, is_above, strip_build, compare_versions}

-- NewVersion, Compare, NewConstraint and Check of Masterminds/semver; how long ago a text in the form
-- RFC3339 or RFC3339Nano says, by time.Parse and time.Since; and the first eight bytes of a SHA-256
-- sum in hexadecimal. An error is no result.
pub record External : Type 1 where
  pub Version : Type 0
  pub Constraint : Type 0
  pub new_version : Str → Option Version
  pub order : Version → Version → Sign
  pub new_constraint : Str → Option Constraint
  pub check : Constraint → Version → Bool
  pub age : Str → Option ℤ
  pub age_nano : Str → Option ℤ
  pub digest : Str → Str

-- `VersionMeta`, less the lists of dependencies and platforms, with the fields of its `Dist`.
pub record VersionMeta : Type 0 where
  pub name : Str
  pub version : Str
  pub deprecated : Str
  pub time : Str
  pub integrity : Str
  pub tarball : Str

-- `Packument`
pub record Packument : Type 0 where
  pub name : Str
  pub dist_tags : List (Str × Str)
  pub versions : List (Str × VersionMeta)

-- `normalizeSpec`
unfoldable pub normalize_spec : Str → Str
normalize_spec spec = any_of (trim_space spec)
  where
    any_of : Str → Str
    any_of [] = bytes "*"
    any_of (c ∷ s) = c ∷ s

module _ (x : External) where
  open x use {Version, Constraint, new_version, order, new_constraint, check}

  -- The cases of `Satisfies`; `none` is an error.
  unfoldable pub satisfies_parsed : Option Version → Option Constraint → Option Bool
  satisfies_parsed none c = none
  satisfies_parsed (some v) none = none
  satisfies_parsed (some v) (some c) = some (check c v)

  -- `Satisfies`
  unfoldable pub satisfies : Str → Str → Option Bool
  unfolding satisfies_parsed
  satisfies version spec =
      satisfies_parsed (new_version (strip_build version)) (new_constraint (normalize_spec spec))

  -- `best == nil || v.GreaterThan(best)`
  unfoldable pub beats_best : Version → Option (Version × Str) → Bool
  beats_best v none = true
  beats_best v (some (b, raw)) = is_above (order v b)

  -- The body of the loop of `MaxSatisfying`, with the version that was parsed.
  unfoldable pub with_candidate :
      Constraint → Str → Option Version → Option (Version × Str) → Option (Version × Str)
  unfolding beats_best
  with_candidate c raw none best = best
  with_candidate c raw (some v) best =
      if check c v then if beats_best v best then some (v, raw) else best else best

  unfoldable pub best_of_versions :
      Constraint → Option (Version × Str) → List Str → Option (Version × Str)
  best_of_versions c best [] = best
  best_of_versions c best (raw ∷ rest) =
      best_of_versions c (with_candidate c raw (new_version (strip_build raw)) best) rest

  unfoldable pub raw_of : Option (Version × Str) → Option Str
  raw_of none = none
  raw_of (some (v, raw)) = some raw

  unfoldable pub max_satisfying_by : Option Constraint → List Str → Option Str
  max_satisfying_by none versions = none
  max_satisfying_by (some c) versions = raw_of (best_of_versions c none versions)

  -- `MaxSatisfying`; `none` is an error.
  unfoldable pub max_satisfying : List Str → Str → Option Str
  max_satisfying versions spec = max_satisfying_by (new_constraint (normalize_spec spec)) versions

  -- The comparison of `SortedVersionsSemver`.
  unfoldable pub semver_less : Str → Str → Bool
  unfolding is_below
  semver_less a b = by_sign (compare_versions new_version order a b)
    where
      by_sign : Option Sign → Bool
      by_sign none = str_lt a b
      by_sign (some sign) = is_below sign

  -- `SortedVersionsSemver`
  unfoldable pub sorted_versions_semver : Packument → List Str
  sorted_versions_semver p = sort semver_less (keys p.versions)

-- `tag, ok := p.DistTags[spec]` and `spec = tag`
unfoldable pub tagged : Option Str → Str → Str
tagged none spec = spec
tagged (some tag) spec = tag

unfoldable pub default_tag : Packument → Str → Str
unfolding tagged
default_tag p [] = tagged (find (bytes "latest") p.dist_tags) []
default_tag p (c ∷ s) =
    if str_eq (c ∷ s) (bytes "latest")
    then tagged (find (bytes "latest") p.dist_tags) (c ∷ s)
    else c ∷ s

-- `SelectVersion`; `none` is an error.
unfoldable pub select_exact : Packument → Str → Option VersionMeta
unfolding default_tag
select_exact p spec = let s = default_tag p spec in find (tagged (find s p.dist_tags) s) p.versions
