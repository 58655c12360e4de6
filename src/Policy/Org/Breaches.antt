-- ===== src/Policy/Org/Breaches.antt =====
-- internal/policy/org.go: which packages breach a policy, and what Evaluate says of them.
use m.Base.{
  ◌≡◌, refl, ap, ◌∙◌, Bool, false, not, ◌&&◌, ◌||◌, List, [], ◌∷◌, ◌++◌, Str, bytes, str_eq, elem,
  find_or, if◌then◌else◌, arith, Bool-cases, inl, inr,
}
use m.Base.Sort.{insert, sort}
use m.Base.Ordered.{Asymmetric, InOrder, InOrder-sort}
use m.Base.Space.{trim_space}
use m.Deps.{Package, Graph, package_key}
use m.Deps.Sorting.{by_field-Asymmetric, by_last-Asymmetric}
use m.Policy.Org.{
  Waiver, OrgPolicy, PolicyViolation, Texts, severity_error, license_matches_denied, waived_by,
  blank, violation, violation_less, all_below_error, license_violations, denied_packages,
  denied_licenses, package_violations, all_violations, evaluate,
}

-- There is an element that passes.
unfoldable pub some_of : {A : Type 0} → (A → Bool) → List A → Bool
some_of p [] = false
some_of p (x ∷ xs) = p x || some_of p xs

module _ (t : Texts) where
  -- A waiver that names the package, by its name or its key, and has not run out.
  abbrev pub waives : Package → Waiver → Bool
  waives p w =
      let target = t.lower (trim_space w.package_name) in
      not (blank target)
      && ((str_eq target (t.lower p.id.name) || str_eq target (t.lower (package_key p.id)))
          && (blank w.expires || not (t.is_past w.expires)))

  -- A denied license that is none or stands in the license of the package.
  abbrev pub denies : Str → Str → Bool
  denies license denied = not (blank denied) && license_matches_denied t license denied

  abbrev pub license_of : List (Str × Str) → Package → Str
  license_of licenses p = trim_space (find_or [] (package_key p.id) licenses)

  -- A package that no waiver names and whose name or license is denied.
  unfoldable pub breaches : List (Str × Str) → OrgPolicy → Package → Bool
  breaches licenses org p =
      not (some_of (waives p) org.waivers)
      && (elem (t.lower p.id.name) (denied_packages t org)
          || (not (blank (license_of licenses p))
              && some_of (denies (license_of licenses p)) (denied_licenses t org)))

  waived_by-some_of :
      (p : Package) (ws : List Waiver)
      → waived_by t ws (t.lower p.id.name) (t.lower (package_key p.id)) ≡ some_of (waives p) ws
  unfolding waived_by some_of
  waived_by-some_of p [] = refl
  waived_by-some_of p (w ∷ ws) = ground (arith, waived_by-some_of p ws)

  license_violations-some_of :
      (org : OrgPolicy) (p : Package) (license : Str) (denied : List Str)
      → license_violations t org p license denied ≡ (
          if some_of (denies license) denied
          then violation org p (bytes "denied_license") ∷ []
          else [])
  unfolding license_violations some_of
  license_violations-some_of org p license [] = refl
  license_violations-some_of org p license (d ∷ ds) =
      ground (arith, license_violations-some_of org p license ds)

some_of-append :
    {A : Type 0} (q : A → Bool) (xs ys : List A)
    → some_of q (xs ++ ys) ≡ (some_of q xs || some_of q ys)
unfolding some_of
some_of-append q [] ys = refl
some_of-append q (x ∷ xs) ys = ground (arith, some_of-append q xs ys)

some_of-insert :
    {A : Type 0} (q : A → Bool) (less : A → A → Bool) (x : A) (ys : List A)
    → some_of q (insert less x ys) ≡ (q x || some_of q ys)
unfolding some_of insert
some_of-insert q less x [] = refl
some_of-insert q less x (y ∷ ys) = ground (arith, some_of-insert q less x ys)

some_of-sort :
    {A : Type 0} (q : A → Bool) (less : A → A → Bool) (xs : List A)
    → some_of q (sort less xs) ≡ some_of q xs
unfolding sort some_of
some_of-sort q less [] = refl
some_of-sort q less (x ∷ xs) =
    some_of-insert q less x (sort less xs) ∙ ap (λ rest. q x || rest) (some_of-sort q less xs)

abbrev is_error : PolicyViolation → Bool
is_error v = str_eq v.severity severity_error

all_below_error-some_of :
    (vs : List PolicyViolation) → all_below_error vs ≡ not (some_of is_error vs)
unfolding all_below_error some_of
all_below_error-some_of [] = refl
all_below_error-some_of (v ∷ vs) = ground (arith, all_below_error-some_of vs)

violation_less-Asymmetric : Asymmetric violation_less
unfolding violation_less
violation_less-Asymmetric = by_field-Asymmetric _ _ (by_last-Asymmetric _)

module _ (t : Texts) (licenses : List (Str × Str)) (org : OrgPolicy) where
  -- The rule that a package breaches: that of names goes first.
  abbrev pub rule_of : Package → Str
  rule_of p =
      if elem (t.lower p.id.name) (denied_packages t org)
      then bytes "denied_package"
      else bytes "denied_license"

  -- A package that breaches the policy with a violation that passes a test.
  abbrev pub breaches_with : (PolicyViolation → Bool) → Package → Bool
  breaches_with q p = breaches t licenses org p && q (violation org p (rule_of p))

  package_violations-breaches :
      (p : Package)
      → package_violations t licenses org p
        ≡ (if breaches t licenses org p then violation org p (rule_of p) ∷ [] else [])
  unfolding package_violations breaches
  package_violations-breaches p = ground (
    arith,
    waived_by-some_of t p org.waivers,
    license_violations-some_of t org p (license_of t licenses p) (denied_licenses t org),
  )

  package_violations-some_of :
      (q : PolicyViolation → Bool) (p : Package)
      → some_of q (package_violations t licenses org p) ≡ breaches_with q p
  unfolding some_of
  package_violations-some_of q p = elim (Bool-cases (breaches t licenses org p)) [
    | inl breach ↦ rw (package_violations-breaches p, breach) (ground arith)
    | inr fine ↦ rw (package_violations-breaches p, fine) refl
  ]

  all_violations-some_of :
      (q : PolicyViolation → Bool) (ps : List Package)
      → some_of q (all_violations t licenses org ps) ≡ some_of (breaches_with q) ps
  unfolding all_violations some_of
  all_violations-some_of q [] = refl
  all_violations-some_of q (p ∷ ps) =
      some_of-append q (package_violations t licenses org p) (all_violations t licenses org ps)
      ∙ rw (package_violations-some_of q p, all_violations-some_of q ps) refl

-- Every violation has the severity of the threshold.
severe :
    (t : Texts) (licenses : List (Str × Str)) (org : OrgPolicy) (ps : List Package)
    → some_of (breaches_with t licenses org is_error) ps
      ≡ (str_eq org.severity_threshold severity_error && some_of (breaches t licenses org) ps)
unfolding some_of violation
severe t licenses org [] = ground arith
severe t licenses org (p ∷ ps) = ground (arith, severe t licenses org ps)

-- Evaluate lists a violation for a package exactly when the package breaches the policy: no waiver
-- with its name or key, in lower case, that has not run out, and a name among the denied ones, in
-- lower case, or a license, if it has one, that is equal to a denied one or contains it, in upper
-- case. The violation has the key of the package, the rule of names or else that of licenses, and
-- the threshold as its severity. The violations are in the order of keys and rules, and the graph
-- does not pass exactly when the threshold is error and some package breaches the policy.
pub evaluate-breaches :
    (t : Texts) (g : Graph) (licenses : List (Str × Str)) (org : OrgPolicy)
    → ((q : PolicyViolation → Bool)
        → some_of q (evaluate t g licenses org).violations
          ≡ some_of (breaches_with t licenses org q) g.packages)
      × InOrder violation_less (evaluate t g licenses org).violations
      × ((evaluate t g licenses org).passed
          ≡ not (
              str_eq org.severity_threshold severity_error
              && some_of (breaches t licenses org) g.packages))
unfolding evaluate
evaluate-breaches t g licenses org =
    let all = all_violations t licenses org g.packages in
    let listed = λ (q : PolicyViolation → Bool).
      some_of-sort q violation_less all ∙ all_violations-some_of t licenses org q g.packages in
    (
      listed,
      InOrder-sort violation_less violation_less-Asymmetric all,
      all_below_error-some_of (sort violation_less all)
          ∙ ap not (listed is_error ∙ severe t licenses org g.packages),
    )
