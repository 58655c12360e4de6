-- ===== src/Advisory/Unparsed.antt =====
-- What a version that does not parse matches.
use m.Base.{
  ◌≡◌, refl, ap, [], ◌∷◌, Bool, true, false, not, ◌&&◌, Option, none, Str, bytes, str_eq, arith,
}
use m.Advisory.{
  SemverInterval, is_set, Sign, strip_build, compare_parsed, compare_versions, compares,
  version_in_interval,
}

zero-is_set : (s : Str) → str_eq s (bytes "0") ≡ true → is_set s ≡ true
unfolding str_eq is_set
zero-is_set [] h = absurd (ground arith)
zero-is_set (c ∷ s) h = refl

module _ {V : Type 0} (new_version : Str → Option V) (order : V → V → Sign) where
  compare_versions_unparsed :
      (v w : Str)
      → new_version (strip_build v) ≡ none
      → compare_versions new_version order v w ≡ none
  unfolding compare_versions compare_parsed
  compare_versions_unparsed v w e =
      ap (λ (o : Option V). compare_parsed new_version order o (new_version (strip_build w))) e

  compares_unparsed :
      (test : Sign → Bool) (v w : Str)
      → new_version (strip_build v) ≡ none
      → compares test (compare_versions new_version order v w) ≡ false
  unfolding compares
  compares_unparsed test v w e = ap (compares test) (compare_versions_unparsed v w e)

  -- A version that does not parse lies in an interval if and only if the interval starts at the
  -- version 0 and has no end of either kind.
  pub version_in_interval_unparsed :
      (v : Str) (iv : SemverInterval)
      → new_version (strip_build v) ≡ none
      → version_in_interval new_version order v iv ≡ (
          str_eq iv.introduced (bytes "0")
          && (not (is_set iv.fixed) && not (is_set iv.last_affected)))
  unfolding version_in_interval
  version_in_interval_unparsed v iv e =
      rw
        (
          compares_unparsed _ v iv.introduced e,
          compares_unparsed _ v iv.fixed e,
          compares_unparsed _ v iv.last_affected e,
        )
        (ground (arith, zero-is_set iv.introduced))
