-- ===== src/Tests/Filters.antt =====
-- internal/workspace/filter.go and internal/runner/lookup.go on small inputs; a part of a path matches
-- a star or itself.
use m.Base.{
  List, has_prefix, keys, count, drop, take, ◌<◌, arith, ◌≡◌, refl, Bool, true, Option, some, [],
  ◌∷◌, Str, bytes, str_eq, ◌||◌,
}
use m.Base.Sort.{sort_strings, sort, insert}
use m.Runner.Scripts.{
  lookup, lookup_parsed, lookup_pattern, names_matching, parse_regex_selector, regex_body,
  last_index,
}
use m.Runner.Scripts.Found.{lookup-keys}
use m.Workspace.Filter.{
  match_path_parts, try_ends, split, split_from, cut_byte, expand_braces, expand_parts,
}

abbrev stars : Str → Str → Option Bool
stars p q = some (str_eq p (bytes "*") || str_eq p q)

double_star :
    match_path_parts stars
      (bytes "packages" ∷ bytes "**" ∷ bytes "ui" ∷ [])
      (bytes "packages" ∷ bytes "web" ∷ bytes "ui" ∷ [])
    ≡ some true
unfolding match_path_parts try_ends str_eq
double_star = refl

braces : expand_braces 6 (bytes "{a,b}c") ≡ bytes "ac" ∷ bytes "bc" ∷ []
unfolding expand_braces expand_parts split split_from cut_byte
braces = refl

abbrev scripts : List (Str × Str)
scripts = (bytes "build", bytes "tsc") ∷ (bytes "test", bytes "vitest") ∷ []

-- Every pattern compiles, and matches the names that start with it.
abbrev prefixes : Str → Option (Str → Bool)
prefixes pattern = some (λ name. has_prefix name pattern)

lookup-keys_example : 0 < count (bytes "test") (keys scripts)
unfolding lookup lookup_parsed lookup_pattern names_matching parse_regex_selector regex_body
    last_index str_eq has_prefix keys count drop take sort_strings sort insert
lookup-keys_example = lookup-keys prefixes scripts (bytes "/te/") (bytes "test") (omega arith)
