-- ===== src/Resolver/Select/Highest.antt =====
-- internal/semver/semver.go: `MaxSatisfying`.
use m.Base.{
  ◌≡◌, ◌≢◌, refl, ap, sym, ◌∙◌, true, false, ◌||◌, Option, none, some, List, [], ◌∷◌, Str, str_eq,
  str_eq_iff, elem, arith, Bool-cases, Option-cases, inl, inr,
}
use m.Advisory.{is_above, strip_build, compares, compare_versions, compare_parsed}
use m.Resolver.{
  External, satisfies, satisfies_parsed, beats_best, with_candidate, best_of_versions, raw_of,
  max_satisfying_by, max_satisfying, normalize_spec,
}

-- Compare of Masterminds/semver orders versions: not above is transitive, and of two versions at most
-- one is above the other.
pub record IsOrder (x : External) : Type 0 where
  pub asymm : (a b : x.Version) → is_above (x.order a b) ≡ true → is_above (x.order b a) ≡ false
  pub trans :
      (a b c : x.Version)
      → is_above (x.order a b) ≡ false
      → is_above (x.order b c) ≡ false
      → is_above (x.order a c) ≡ false

module _ (x : External) (o : IsOrder x) where
  open x use {Version, Constraint, new_version, order, new_constraint, check}

  abbrev parse : Str → Option Version
  parse raw = new_version (strip_build raw)

  -- The best of the versions that were seen.
  abbrev IsBest : Constraint → Option (Version × Str) → List Str → Type 0
  IsBest c none seen =
      (raw : Str) (v : Version) → elem raw seen ≡ true → parse raw ≡ some v → check c v ≡ false
  IsBest c (some (b, r)) seen =
      (parse r ≡ some b)
      × (check c b ≡ true)
      × (elem r seen ≡ true)
      × ((raw : Str) (v : Version)
          → elem raw seen ≡ true
          → parse raw ≡ some v
          → check c v ≡ true
          → is_above (order v b) ≡ false)

  not_above_self : (v : Version) → is_above (order v v) ≡ false
  not_above_self v = elim (Bool-cases (is_above (order v v))) [
    | inl above ↦ o.asymm v v above
    | inr level ↦ level
  ]

  -- What holds of all that were seen and of one more.
  and_one :
      (P : Version → Type 0) (raw : Str) (seen : List Str)
      → ((a : Str) (v : Version) → elem a seen ≡ true → parse a ≡ some v → P v)
      → ((v : Version) → parse raw ≡ some v → P v)
      → (a : Str) (v : Version) → elem a (raw ∷ seen) ≡ true
      → parse a ≡ some v
      → P v
  unfolding elem
  and_one P raw seen h one a v s e = elim (Bool-cases (str_eq a raw)) [
    | inl same ↦ one v (ap parse (sym ((str_eq_iff a raw).0 same)) ∙ e)
    | inr other ↦ h a v (rw other at s) e
  ]

  same_version : (raw : Str) {v w : Version} → parse raw ≡ some v → parse raw ≡ some w → w ≡ v
  same_version raw h k = cc

  in_front : (raw : Str) (seen : List Str) → elem raw (raw ∷ seen) ≡ true
  unfolding elem
  in_front raw seen = rw ((str_eq_iff raw raw).1 refl) refl

  behind_front : (a raw : Str) (seen : List Str) → elem a seen ≡ true → elem a (raw ∷ seen) ≡ true
  unfolding elem
  behind_front a raw seen h = ground arith

  stays :
      (c : Constraint) (raw : Str) (best : Option (Version × Str)) (seen : List Str)
      → IsBest c best seen
      → ((v : Version) → parse raw ≡ some v → check c v ≡ true → beats_best x v best ≡ false)
      → IsBest c best (raw ∷ seen)
  unfolding beats_best
  stays c raw none seen h one = λ a v.
      and_one (λ w. check c w ≡ false) raw seen (λ b w. h b w)
        (λ w e. elim (Bool-cases (check c w)) [ inl fits ↦ cc (one w e fits) | inr unfit ↦ unfit ])
        a v
  stays c raw (some (b, r)) seen h one = (
    h.0,
    h.1,
    behind_front r raw seen h.2,
    and_one (λ w. check c w ≡ true → is_above (order w b) ≡ false) raw seen h.3 one,
  )

  replaced :
      (c : Constraint) (raw : Str) (v : Version) (best : Option (Version × Str)) (seen : List Str)
      → IsBest c best seen
      → parse raw ≡ some v
      → check c v ≡ true
      → beats_best x v best ≡ true
      → IsBest c (some (v, raw)) (raw ∷ seen)
  unfolding beats_best
  replaced c raw v best seen h e fits beats = (
    e,
    fits,
    in_front raw seen,
    and_one (λ w. check c w ≡ true → is_above (order w v) ≡ false) raw seen (below best h beats)
        (λ w e' k. rw (same_version raw e e') (not_above_self v)),
  )
    where
      below :
          (best : Option (Version × Str))
          → IsBest c best seen
          → beats_best x v best ≡ true
          → (a : Str) (w : Version) → elem a seen ≡ true
          → parse a ≡ some w
          → check c w ≡ true
          → is_above (order w v) ≡ false
      below none h beats a w s p k = absurd (cc (h a w s p))
      below (some (b, r)) h beats a w s p k = o.trans w b v (h.3 a w s p k) (o.asymm v b beats)

  with_candidate-IsBest :
      (c : Constraint) (raw : Str) (parsed : Option Version) (best : Option (Version × Str))
      → (seen : List Str) → parse raw ≡ parsed
      → IsBest c best seen
      → IsBest c (with_candidate x c raw parsed best) (raw ∷ seen)
  unfolding with_candidate
  with_candidate-IsBest c raw none best seen e h = stays c raw best seen h (λ v e'. absurd (cc))
  with_candidate-IsBest c raw (some v) best seen e h = elim (Bool-cases (check c v)) [
    | inr unfit ↦ rw unfit (stays c raw best seen h (λ w e' k. absurd (cc (same_version raw e e'))))
    | inl fits ↦ elim (Bool-cases (beats_best x v best)) [
      | inl beats ↦ rw (fits, beats) (replaced c raw v best seen h e fits beats)
      | inr level ↦
          rw (fits, level) (stays c raw best seen h (λ w e' k. rw (same_version raw e e') level))
    ]
  ]

  -- `xs` in front of `seen`, last first.
  onto : List Str → List Str → List Str
  onto seen [] = seen
  onto seen (y ∷ ys) = onto (y ∷ seen) ys

  elem-onto : (a : Str) (seen ys : List Str) → elem a (onto seen ys) ≡ (elem a seen || elem a ys)
  unfolding onto elem
  elem-onto a seen [] = ground arith
  elem-onto a seen (y ∷ ys) = ground (arith, elem-onto a (y ∷ seen) ys)

  best_of_versions-IsBest :
      (c : Constraint) (best : Option (Version × Str)) (seen vs : List Str)
      → IsBest c best seen
      → IsBest c (best_of_versions x c best vs) (onto seen vs)
  unfolding best_of_versions onto
  best_of_versions-IsBest c best seen [] h = h
  best_of_versions-IsBest c best seen (raw ∷ vs) h =
      best_of_versions-IsBest c (with_candidate x c raw (parse raw) best) (raw ∷ seen) vs
        (with_candidate-IsBest c raw (parse raw) best seen refl h)

  -- The highest of the versions of a list that fit.
  abbrev pub IsHighest : Str → List Str → Option Str → Type 0
  IsHighest rng vs none = (raw : Str) → elem raw vs ≡ true → satisfies x raw rng ≢ some true
  IsHighest rng vs (some best) =
      (elem best vs ≡ true)
      × (satisfies x best rng ≡ some true)
      × ((raw : Str)
          → elem raw vs ≡ true
          → satisfies x raw rng ≡ some true
          → compares is_above (compare_versions new_version order raw best) ≡ false)

  satisfies_check :
      (rng raw : Str) (c : Constraint) (v : Version)
      → new_constraint (normalize_spec rng) ≡ some c
      → parse raw ≡ some v
      → satisfies x raw rng ≡ some (check c v)
  unfolding satisfies satisfies_parsed
  satisfies_check rng raw c v e p = rw (p, e) refl

  satisfies_unparsed : (rng raw : Str) → parse raw ≡ none → satisfies x raw rng ≡ none
  unfolding satisfies satisfies_parsed
  satisfies_unparsed rng raw p = rw p refl

  satisfies_unconstrained :
      (rng raw : Str) → new_constraint (normalize_spec rng) ≡ none → satisfies x raw rng ≡ none
  unfolding satisfies satisfies_parsed
  satisfies_unconstrained rng raw e = elim (Option-cases (parse raw)) [
    | inl unparsed ↦ rw unparsed refl
    | inr (v, parsed) ↦ rw (parsed, e) refl
  ]

  -- A version that fits was parsed and passed the check.
  fits_check :
      (rng raw : Str) (c : Constraint)
      → new_constraint (normalize_spec rng) ≡ some c
      → satisfies x raw rng ≡ some true
      → (v : Version) × (parse raw ≡ some v) × (check c v ≡ true)
  fits_check rng raw c e fits = elim (Option-cases (parse raw)) [
    | inl unparsed ↦ absurd (cc (satisfies_unparsed rng raw unparsed))
    | inr (v, parsed) ↦ (v, parsed, cc (satisfies_check rng raw c v e parsed))
  ]

  not_above_parsed :
      (a b : Str) (v w : Version)
      → parse a ≡ some v
      → parse b ≡ some w
      → is_above (order v w) ≡ false
      → compares is_above (compare_versions new_version order a b) ≡ false
  unfolding compares compare_versions compare_parsed
  not_above_parsed a b v w p q h = rw (p, q) h

  raw_of-IsHighest :
      (rng : Str) (vs : List Str) (c : Constraint) (best : Option (Version × Str))
      → new_constraint (normalize_spec rng) ≡ some c
      → IsBest c best (onto [] vs)
      → IsHighest rng vs (raw_of x best)
  unfolding raw_of elem
  raw_of-IsHighest rng vs c none e h = λ raw s fits.
      let (v, parsed, good) = fits_check rng raw c e fits in
      absurd (cc (h raw v (elem-onto raw [] vs ∙ s) parsed))
  raw_of-IsHighest rng vs c (some (b, r)) e h = (
    sym (elem-onto r [] vs) ∙ h.2,
    satisfies_check rng r c b e h.0 ∙ ap some h.1,
    λ raw s fits.
        let (v, parsed, good) = fits_check rng raw c e fits in
        not_above_parsed raw r v b parsed h.0 (h.3 raw v (elem-onto raw [] vs ∙ s) parsed good),
  )

  -- MaxSatisfying answers the highest of the versions that satisfy the range, or none does.
  pub max_satisfying-IsHighest :
      (vs : List Str) (rng : Str) → IsHighest rng vs (max_satisfying x vs rng)
  unfolding max_satisfying max_satisfying_by raw_of elem
  max_satisfying-IsHighest vs rng = by_constraint (new_constraint (normalize_spec rng)) refl
    where
      by_constraint :
          (c : Option Constraint)
          → new_constraint (normalize_spec rng) ≡ c
          → IsHighest rng vs (max_satisfying_by x c vs)
      by_constraint none e = λ raw s fits. absurd (cc (satisfies_unconstrained rng raw e))
      by_constraint (some c) e =
          raw_of-IsHighest rng vs c (best_of_versions x c none vs) e
            (best_of_versions-IsBest c none [] vs (λ raw v s. absurd (ground arith)))
