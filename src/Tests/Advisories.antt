-- ===== src/Tests/Advisories.antt =====
-- internal/advisory/range.go on an advisory with two intervals, the second of them open.
use m.Base.{
  ℕ, ◌≡◌, refl, not, ◌&&◌, Option, none, some, List, [], ◌∷◌, Str, bytes, str_eq, length, ltb, ◌==◌,
  if◌then◌else◌,
}
use m.Advisory.{
  RangeEvent, SemverInterval, is_set, build_semver_intervals, Sign, version_in_interval,
  strip_build, up_to,
}
use m.Advisory.Intervals.{
  AllBounded, spell, build_semver_intervals-spell, build_semver_intervals-AllBounded,
}
use m.Advisory.Unparsed.{version_in_interval_unparsed}

abbrev fixed_in : SemverInterval
fixed_in = record { introduced = bytes "1.0.0"; fixed = bytes "1.2.0"; last_affected = [] }

abbrev from_start : SemverInterval
from_start = record { introduced = bytes "0"; fixed = []; last_affected = [] }

two-AllBounded : AllBounded (fixed_in ∷ from_start ∷ [])
unfolding is_set
two-AllBounded =
    (record { started = refl; one_end = refl }, (record { started = refl; one_end = refl }, tt))

build_semver_intervals-spell_example :
    build_semver_intervals (spell (fixed_in ∷ from_start ∷ [])) ≡ (fixed_in ∷ from_start ∷ [], [])
build_semver_intervals-spell_example =
    build_semver_intervals-spell (fixed_in ∷ from_start ∷ []) two-AllBounded

-- An end without a start, and then a start that is followed by another.
abbrev odd_events : List RangeEvent
odd_events =
    record { introduced = []; fixed = bytes "1.2.0"; last_affected = [] }
    ∷ record { introduced = bytes "2.0.0"; fixed = []; last_affected = [] }
    ∷ record { introduced = bytes "3.0.0"; fixed = []; last_affected = [] }
    ∷ []

build_semver_intervals-AllBounded_example : AllBounded (build_semver_intervals odd_events).0
build_semver_intervals-AllBounded_example = build_semver_intervals-AllBounded odd_events

-- Versions by their length, of which those that start with an x do not parse.
abbrev parsed : Str → Option ℕ
parsed [] = none
parsed (c ∷ s) = if c == b'x' then none else some (length s)

abbrev by_length : ℕ → ℕ → Sign
by_length a b = if ltb a b then Sign.below else if ltb b a then Sign.above else Sign.same

version_in_interval_unparsed_example :
    version_in_interval parsed by_length (bytes "x.y") from_start ≡ (
      str_eq from_start.introduced (bytes "0")
      && (not (is_set from_start.fixed) && not (is_set from_start.last_affected)))
unfolding strip_build up_to
version_in_interval_unparsed_example =
    version_in_interval_unparsed parsed by_length (bytes "x.y") from_start refl
