-- ===== src/Resolver/Select/Candidates.antt =====
-- internal/resolver/select.go: the candidates of selectVersion and those that the policy leaves.
use m.Base.{
  ◌≡◌, refl, ap, ◌∙◌, Bool, true, ◌&&◌, ◌||◌, Option, some, List, [], ◌∷◌, Str, str_eq, str_eq_iff,
  elem, find, keys, find-keys, find_or-find, sym, arith, inl, inr,
}
use m.Base.Sort.{insert, sort}
use m.Deps.Validate.{is_empty}
use m.Policy.{Policy}
use m.Resolver.{External, VersionMeta, Packument, semver_less, sorted_versions_semver}
use m.Resolver.Select.{policy_reject_reason, meta_at, no_meta, eligible_of}

elem-insert :
    (less : Str → Str → Bool) (a y : Str) (ys : List Str)
    → elem a (insert less y ys) ≡ elem a (y ∷ ys)
unfolding elem insert
elem-insert less a y [] = refl
elem-insert less a y (z ∷ ys) = ground (arith, elem-insert less a y ys)

elem-sort : (less : Str → Str → Bool) (a : Str) (ys : List Str) → elem a (sort less ys) ≡ elem a ys
unfolding sort elem
elem-sort less a [] = refl
elem-sort less a (y ∷ ys) =
    elem-insert less a y (sort less ys) ∙ ap (λ rest. str_eq a y || rest) (elem-sort less a ys)

elem-eligible_of :
    (x : External) (p : Packument) (pol : Option Policy) (vers : List Str) (ver : Str)
    → elem ver (eligible_of x p pol vers)
      ≡ (elem ver vers && is_empty (policy_reject_reason x (meta_at p ver) pol))
unfolding elem eligible_of
elem-eligible_of x p pol [] ver = refl
elem-eligible_of x p pol (v ∷ vs) ver =
    ground (arith, elem-eligible_of x p pol vs ver, str_eq_iff ver v)

-- An eligible version is that of the packument, and the policy does not reject it.
pub eligible_found :
    (x : External) (p : Packument) (pol : Option Policy) (ver : Str)
    → elem ver (eligible_of x p pol (sorted_versions_semver x p)) ≡ true
    → (find ver p.versions ≡ some (meta_at p ver))
      × (is_empty (policy_reject_reason x (meta_at p ver) pol) ≡ true)
unfolding sorted_versions_semver meta_at
eligible_found x p pol ver h =
    let all = elem-eligible_of x p pol (sorted_versions_semver x p) ver in
    let known = elem-sort (semver_less x) ver (keys p.versions) in
    elim (find-keys ver p.versions) [
      | inl (absent, unseen) ↦ absurd (ground arith)
      | inr (m, found, seen) ↦
          (rw found (ap some (sym (find_or-find no_meta ver m p.versions found))), ground arith)
    ]

-- Each version of the packument that the policy does not reject is eligible.
pub found_eligible :
    (x : External) (p : Packument) (pol : Option Policy) (ver : Str) (m : VersionMeta)
    → find ver p.versions ≡ some m
    → is_empty (policy_reject_reason x m pol) ≡ true
    → elem ver (eligible_of x p pol (sorted_versions_semver x p)) ≡ true
unfolding sorted_versions_semver meta_at
found_eligible x p pol ver m h ok = elim (find-keys ver p.versions) [
  | inl (absent, unseen) ↦ absurd (ground arith)
  | inr (v, found, seen) ↦
      elem-eligible_of x p pol (sorted_versions_semver x p) ver
      ∙ rw
          (
            elem-sort (semver_less x) ver (keys p.versions),
            seen,
            find_or-find no_meta ver m p.versions h,
          )
          ok
]
