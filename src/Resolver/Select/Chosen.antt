-- ===== src/Resolver/Select/Chosen.antt =====
-- internal/resolver/select.go: what the version that selectVersion answers is.
use m.Base.{
  ◌≡◌, ◌≢◌, ◌⊎◌, inl, inr, refl, sym, true, false, Option, none, some, List, Str, bytes, str_eq,
  str_eq_iff, subst, elem, find, find_or-find, arith, Bool-cases,
}
use m.Deps.{Package}
use m.Deps.Validate.{is_empty}
use m.Policy.{Policy}
use m.Resolver.{
  External, VersionMeta, Packument, satisfies, sorted_versions_semver, select_exact, max_satisfying,
  tagged, default_tag,
}
use m.Resolver.Hints.{GraphHints, PinContext, reused_version, hinted_version, hinted_pkg}
use m.Resolver.Select.{
  Decision, Selection, policy_reject_reason, no_meta, meta_at, eligible_of, selected_as, remembered,
  select_best, select_max, note_exact, select_found, select_listed, select_remembered,
  select_hinted, select_reused, select_by_hints, select_version,
}
use m.Resolver.Select.Candidates.{eligible_found, found_eligible}
use m.Resolver.Select.Highest.{IsOrder, IsHighest, max_satisfying-IsHighest}

-- Each version of the packument is filed under its own number.
abbrev pub HasOwnNumbers : Packument → Type 0
HasOwnNumbers p = (ver : Str) (m : VersionMeta) → find ver p.versions ≡ some m → m.version ≡ ver

abbrev pub eligible : External → Packument → Option Policy → List Str
eligible x p pol = eligible_of x p pol (sorted_versions_semver x p)

abbrev pub by_max : Str
by_max = bytes "max-satisfying"

exact_not_max : str_eq (bytes "tag-or-exact") by_max ≡ false
unfolding str_eq
exact_not_max = refl

hint_not_max : str_eq (bytes "hint") by_max ≡ false
unfolding str_eq
hint_not_max = refl

reuse_not_max : str_eq (bytes "reuse-key") by_max ≡ false
unfolding str_eq
reuse_not_max = refl

module _ (x : External) (o : IsOrder x) (p : Packument) (name rng : Str) (pol : Option Policy)
    (hints : Option GraphHints) where
  -- The version that was chosen is one of the packument that the policy does not reject.
  abbrev pub IsListed : VersionMeta → Decision → Type 0
  IsListed m d =
      (find d.selected p.versions ≡ some m) × (is_empty (policy_reject_reason x m pol) ≡ true)

  -- It is that of a package of the earlier graph, with nothing but what the graph says of it.
  abbrev pub IsRemembered : VersionMeta → Decision → Type 0
  IsRemembered m d =
      (h : GraphHints) × (q : Package) × (hints ≡ some h)
      × (hinted_version x h name rng ≡ d.selected)
      × (hinted_pkg h name d.selected ≡ some q)
      × (m ≡ remembered name d.selected q)

  abbrev pub IsSound : Selection → Type 0
  IsSound (none, d) =
      (ver : Str) (m : VersionMeta)
      → find ver p.versions ≡ some m
      → is_empty (policy_reject_reason x m pol) ≡ true
      → satisfies x ver rng ≢ some true
  IsSound (some m, d) =
      (IsListed m d ⊎ IsRemembered m d)
      × (d.reason ≡ by_max → IsHighest x o rng (eligible x p pol) (some d.selected))

  listed-IsSound :
      (d : Decision) (ver reason : Str)
      → elem ver (eligible x p pol) ≡ true
      → str_eq reason by_max ≡ false
      → IsSound (selected_as d ver reason (meta_at p ver))
  unfolding selected_as
  listed-IsSound d ver reason h other =
      (inl (eligible_found x p pol ver h), λ e. absurd (ground (arith, str_eq_iff reason by_max)))

  best-IsSound :
      (d : Decision) (best : Option Str)
      → IsHighest x o rng (eligible x p pol) best
      → IsSound (select_best x p name rng pol d best)
  unfolding select_best selected_as
  best-IsSound d none h =
      λ ver m found accepted. h ver (found_eligible x p pol ver m found accepted)
  best-IsSound d (some best) h = (inl (eligible_found x p pol best h.0), λ e. h)

  max-IsSound : (d : Decision) → IsSound (select_max x p name rng pol (eligible x p pol) d)
  unfolding select_max
  max-IsSound d =
      best-IsSound d (max_satisfying x (eligible x p pol) rng)
        (max_satisfying-IsHighest x o (eligible x p pol) rng)

  meta_at-find : (ver : Str) (m : VersionMeta) → find ver p.versions ≡ some m → meta_at p ver ≡ m
  unfolding meta_at
  meta_at-find ver m h = find_or-find no_meta ver m p.versions h

  module _ (own : HasOwnNumbers p) where
    found-IsSound :
        (d : Decision) (exact : Option VersionMeta)
        → ((m : VersionMeta) → exact ≡ some m → find m.version p.versions ≡ some m)
        → IsSound (select_found x p name rng pol (eligible x p pol) d exact)
    unfolding select_found
    found-IsSound d none h = max-IsSound d
    found-IsSound d (some m) h = elim (Bool-cases (elem m.version (eligible x p pol))) [
      | inr other ↦ rw other (max-IsSound (note_exact x p name rng pol m d))
      | inl fine ↦ rw fine (
          subst (λ n. IsSound (selected_as d m.version (bytes "tag-or-exact") n))
            (meta_at-find m.version m (h m refl))
            (listed-IsSound d m.version (bytes "tag-or-exact") fine exact_not_max))
    ]

    exact_filed :
        (m : VersionMeta) → select_exact p rng ≡ some m → find m.version p.versions ≡ some m
    unfolding select_exact
    exact_filed m e =
        let s = default_tag p rng in
        let key = tagged (find s p.dist_tags) s in
        subst (λ ver. find ver p.versions ≡ some m) (sym (own key m e)) e

    select_listed-IsSound :
        (d : Decision) → IsSound (select_listed x p name rng pol (eligible x p pol) d)
    unfolding select_listed
    select_listed-IsSound d = found-IsSound d (select_exact p rng) exact_filed

    select_remembered-IsSound :
        (d : Decision) (h : GraphHints) (ver : Str) (q : Option Package)
        → hints ≡ some h
        → hinted_version x h name rng ≡ ver
        → hinted_pkg h name ver ≡ q
        → IsSound (select_remembered x p name rng pol (eligible x p pol) d ver q)
    unfolding select_remembered
    select_remembered-IsSound d h ver none e v found = select_listed-IsSound d
    select_remembered-IsSound d h ver (some q) e v found =
        elim (Bool-cases
          (is_empty (policy_reject_reason x (record no_meta { version = ver }) pol))) [
            | inl accepted ↦
                rw accepted (
                  unfold selected_as in (inr (h, q, e, v, found, refl), λ r. absurd (ground arith)))
            | inr rejected ↦ rw rejected (select_listed-IsSound d)
          ]

    select_hinted-IsSound :
        (d : Decision) (h : GraphHints)
        → hints ≡ some h
        → IsSound (select_hinted x p name rng pol (eligible x p pol) d h)
    unfolding select_hinted
    select_hinted-IsSound d h e =
        let ver = hinted_version x h name rng in
        elim (Bool-cases (is_empty ver)) [
          | inl absent ↦ rw absent (select_listed-IsSound d)
          | inr present ↦ elim (Bool-cases (elem ver (eligible x p pol))) [
            | inl fine ↦ rw (present, fine) (listed-IsSound d ver (bytes "hint") fine hint_not_max)
            | inr other ↦
                rw (present, other)
                  (select_remembered-IsSound d h ver (hinted_pkg h name ver) e refl refl)
          ]
        ]

    select_reused-IsSound :
        (d : Decision) (h : GraphHints) (reused : Option Str)
        → hints ≡ some h
        → IsSound (select_reused x p name rng pol (eligible x p pol) d h reused)
    unfolding select_reused
    select_reused-IsSound d h none e = select_hinted-IsSound d h e
    select_reused-IsSound d h (some ver) e = elim (Bool-cases (elem ver (eligible x p pol))) [
      | inl fine ↦ rw fine (listed-IsSound d ver (bytes "reuse-key") fine reuse_not_max)
      | inr other ↦ rw other (select_hinted-IsSound d h e)
    ]

    by_hints-IsSound :
        (d : Decision) (pin : PinContext) (hs : Option GraphHints)
        → hints ≡ hs
        → IsSound (select_by_hints x p name rng pol (eligible x p pol) d hs pin)
    unfolding select_by_hints
    by_hints-IsSound d pin none e = select_listed-IsSound d
    by_hints-IsSound d pin (some h) e = select_reused-IsSound d h (reused_version x h pin) e

-- selectVersion, of a packument whose versions are filed under their own numbers, and with an
-- order of versions: a version that it answers is one of the packument that the policy does not
-- reject, or is made up of a package of the earlier graph that the hints name; where the reason
-- says max-satisfying, it satisfies the range and none of the versions of the packument that are
-- not rejected and satisfy it is above it. When it answers an error, no version of the packument
-- that the policy does not reject satisfies the range.
pub select_version-IsSound :
    (x : External) (o : IsOrder x) (p : Packument) (name rng : Str) (pol : Option Policy)
    (hints : Option GraphHints) (pin : PinContext)
    → HasOwnNumbers p
    → IsSound x o p name rng pol hints (select_version x p name rng pol hints pin)
unfolding select_version
select_version-IsSound x o p name rng pol hints pin own =
    by_hints-IsSound x o p name rng pol hints own _ pin hints refl
