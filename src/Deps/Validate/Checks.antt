-- ===== src/Deps/Validate/Checks.antt =====
-- internal/graph/validate.go: what it means that the three loops report nothing.
use m.Base.{
  Each, ◌≡◌, ◌≢◌, ◌⊎◌, inl, inr, refl, Bool, true, false, not, ◌&&◌, Option, none, some, List, [],
  ◌∷◌, Str, str_eq_iff, str_lt, elem, keys, find-keys, map, arith, Bool-cases,
}
use m.Base.Ordered.{InOrder}
use m.Deps.{Package, Importer, Edge, package_key}
use m.Deps.Sorting.{by_last, str_lt_asymm, str_lt_trans, str_lt_total}
use m.Deps.Validate.{
  Problem, is_empty, check_importers, check_packages, check_edges, edge_problem, or_problem,
  importer_ids, package_keys, is_local_edge_target,
}

-- No string stands in `seen` or behind itself.
pub fresh : List Str → List Str → Bool
fresh seen [] = true
fresh seen (x ∷ xs) = not (elem x seen) && fresh (x ∷ seen) xs

abbrev pub Above : Str → List Str → Type 0
Above x ys = Each (λ y. str_lt x y ≡ true) ys

-- Each string is less than all that come later.
abbrev pub Increasing : List Str → Type 0
Increasing [] = Unit
Increasing (x ∷ xs) = Above x xs × Increasing xs

abbrev Distinct : List Str → Type 0
Distinct [] = Unit
Distinct (x ∷ xs) = (elem x xs ≡ false) × Distinct xs

fresh→unseen :
    (seen xs : List Str) (a : Str) → fresh seen xs ≡ true → elem a seen ≡ true → elem a xs ≡ false
unfolding fresh elem
fresh→unseen seen [] a h k = refl
fresh→unseen seen (x ∷ xs) a h k =
    ground (arith, fresh→unseen (x ∷ seen) xs a, str_eq_iff a x, str_eq_iff x a)

fresh→Distinct : (seen xs : List Str) → fresh seen xs ≡ true → Distinct xs
unfolding fresh elem
fresh→Distinct seen [] h = tt
fresh→Distinct seen (x ∷ xs) h =
    let rest : fresh (x ∷ seen) xs ≡ true = ground arith in
    (
      fresh→unseen (x ∷ seen) xs x rest (ground (arith, str_eq_iff x x)),
      fresh→Distinct (x ∷ seen) xs rest,
    )

Distinct→fresh :
    (seen xs : List Str)
    → Distinct xs
    → ((a : Str) → elem a seen ≡ true → elem a xs ≡ false)
    → fresh seen xs ≡ true
unfolding fresh elem
Distinct→fresh seen [] d h = refl
Distinct→fresh seen (x ∷ xs) d h =
    let rest = Distinct→fresh (x ∷ seen) xs d.1 (λ a k. ground (arith, h a, d.0, str_eq_iff a x)) in
    ground (arith, h x, str_eq_iff x x, rest)

Above-trans : (x y : Str) (ys : List Str) → str_lt x y ≡ true → Above y ys → Above x ys
Above-trans x y [] h k = tt
Above-trans x y (z ∷ ys) h k = (str_lt_trans x y z h k.0, Above-trans x y ys h k.1)

not_less_self : (x : Str) → str_lt x x ≡ false
not_less_self x = elim (Bool-cases (str_lt x x)) [ inl lt ↦ str_lt_asymm x x lt | inr ge ↦ ge ]

Above→unseen : (x : Str) (ys : List Str) → Above x ys → elem x ys ≡ false
unfolding elem
Above→unseen x [] h = refl
Above→unseen x (y ∷ ys) h =
    ground (arith, not_less_self x, str_eq_iff x y, h.0, Above→unseen x ys h.1)

Increasing→Distinct : (xs : List Str) → Increasing xs → Distinct xs
Increasing→Distinct [] h = tt
Increasing→Distinct (x ∷ xs) h = (Above→unseen x xs h.0, Increasing→Distinct xs h.1)

module _ {A : Type 0} (f : A → Str) where
  -- Sorted by a key and without a key twice: the keys increase.
  InOrder→Increasing :
      (xs : List A) → InOrder (by_last f) xs → Distinct (map f xs) → Increasing (map f xs)
  unfolding by_last elem
  InOrder→Increasing [] o d = tt
  InOrder→Increasing (x ∷ []) o d = (tt, tt)
  InOrder→Increasing (x ∷ y ∷ ys) o d =
      let rest = InOrder→Increasing (y ∷ ys) o.1 d.1 in
      let here = str_lt_total (f x) (f y) o.0 (ground (arith, d.0)) in
      ((here, Above-trans (f x) (f y) (map f ys) here rest.0), rest)

  pub Increasing→InOrder : (xs : List A) → Increasing (map f xs) → InOrder (by_last f) xs
  unfolding by_last
  Increasing→InOrder [] h = tt
  Increasing→InOrder (x ∷ []) h = tt
  Increasing→InOrder (x ∷ y ∷ ys) h =
      (str_lt_asymm (f x) (f y) h.0.0, Increasing→InOrder (y ∷ ys) h.1)

  pub fresh→Increasing :
      (xs : List A) → InOrder (by_last f) xs → fresh [] (map f xs) ≡ true → Increasing (map f xs)
  fresh→Increasing xs o h = InOrder→Increasing xs o (fresh→Distinct [] (map f xs) h)

pub Increasing→fresh : (xs : List Str) → Increasing xs → fresh [] xs ≡ true
unfolding elem
Increasing→fresh xs h =
    Distinct→fresh [] xs (Increasing→Distinct xs h) (λ a k. absurd (ground arith))

not_empty : (s : Str) → is_empty s ≡ false → s ≢ []
unfolding is_empty
not_empty [] h = cc
not_empty (c ∷ s) h = λ e. absurd (cc)

is_empty_filled : (s : Str) → s ≢ [] → is_empty s ≡ false
unfolding is_empty
is_empty_filled [] h = absurd (h refl)
is_empty_filled (c ∷ s) h = refl

abbrev pub HasId : Importer → Type 0
HasId im = im.id ≢ []

abbrev pub HasName : Package → Type 0
HasName p = (p.id.name ≢ []) × (p.id.version ≢ [])

pub importers_accepted :
    (seen : List Str) (ims : List Importer)
    → check_importers seen ims ≡ none
    → Each HasId ims × (fresh seen (importer_ids ims) ≡ true)
unfolding check_importers fresh importer_ids
importers_accepted seen [] h = (tt, refl)
importers_accepted seen (im ∷ ims) h =
    let nonempty : is_empty im.id ≡ false = ground arith in
    let (named, rest) = importers_accepted (im.id ∷ seen) ims (ground arith) in
    ((not_empty im.id nonempty, named), ground arith)

pub importers_pass :
    (seen : List Str) (ims : List Importer)
    → Each HasId ims
    → fresh seen (importer_ids ims) ≡ true
    → check_importers seen ims ≡ none
unfolding check_importers fresh importer_ids
importers_pass seen [] n h = refl
importers_pass seen (im ∷ ims) n h =
    ground (arith, is_empty_filled im.id n.0, importers_pass (im.id ∷ seen) ims n.1)

pub packages_accepted :
    (by_key : List (Str × Package)) (ps : List Package)
    → check_packages by_key ps ≡ none
    → Each HasName ps × (fresh (keys by_key) (package_keys ps) ≡ true)
unfolding check_packages fresh package_keys keys
packages_accepted by_key [] h = (tt, refl)
packages_accepted by_key (p ∷ ps) h = elim (find-keys (package_key p.id) by_key) [
  | inl (absent, unseen) ↦
      let n : is_empty p.id.name ≡ false = ground arith in
      let v : is_empty p.id.version ≡ false = ground arith in
      let (named, rest) =
        packages_accepted ((package_key p.id, p) ∷ by_key) ps (rw (n, v, absent) at h) in
      (((not_empty p.id.name n, not_empty p.id.version v), named), ground arith)
  | inr (prev, found, seen) ↦ absurd (ground arith)
]

pub packages_pass :
    (by_key : List (Str × Package)) (ps : List Package)
    → Each HasName ps
    → fresh (keys by_key) (package_keys ps) ≡ true
    → check_packages by_key ps ≡ none
unfolding check_packages fresh package_keys keys
packages_pass by_key [] n h = refl
packages_pass by_key (p ∷ ps) n h = elim (find-keys (package_key p.id) by_key) [
  | inl (absent, unseen) ↦
      rw (is_empty_filled p.id.name n.0.0, is_empty_filled p.id.version n.0.1, absent)
        (packages_pass ((package_key p.id, p) ∷ by_key) ps n.1 (ground arith))
  | inr (prev, found, seen) ↦ absurd (ground arith)
]

-- An edge with a name that goes from an importer or a package to a package or a local target.
pub record Connects (ids keys : List Str) (e : Edge) : Type 0 where
  pub named : e.name ≢ []
  pub to_something : e.to ≢ []
  pub from_something : e.from ≢ []
  pub target : (elem e.to keys ≡ true) ⊎ (is_local_edge_target e.to ≡ true)
  pub source : (elem e.from keys ≡ true) ⊎ (elem e.from ids ≡ true)

or_true : (a b : Bool) → (not a && not b) ≡ false → (a ≡ true) ⊎ (b ≡ true)
or_true true b h = inl refl
or_true false true h = inr refl
or_true false false h = cc

true_or : (a b : Bool) → (a ≡ true) ⊎ (b ≡ true) → (not a && not b) ≡ false
true_or a b (inl h) = rw h refl
true_or true b (inr h) = refl
true_or false b (inr h) = rw h refl

edge_accepted :
    (ids keys : List Str) (e : Edge) → edge_problem ids keys e ≡ none → Connects ids keys e
unfolding edge_problem
edge_accepted ids keys e h = record {
  named = not_empty e.name (ground arith);
  to_something = not_empty e.to (ground arith);
  from_something = not_empty e.from (ground arith);
  target = or_true (elem e.to keys) (is_local_edge_target e.to) (ground arith);
  source = or_true (elem e.from keys) (elem e.from ids) (ground arith);
}

edge_passes :
    (ids keys : List Str) (e : Edge) → Connects ids keys e → edge_problem ids keys e ≡ none
unfolding edge_problem
edge_passes ids keys e c =
    rw
      (
        is_empty_filled e.name c.named,
        is_empty_filled e.to c.to_something,
        true_or (elem e.to keys) (is_local_edge_target e.to) c.target,
        is_empty_filled e.from c.from_something,
        true_or (elem e.from keys) (elem e.from ids) c.source,
      )
      refl

pub or_problem-none : (a b : Option Problem) → or_problem a b ≡ none → (a ≡ none) × (b ≡ none)
unfolding or_problem
or_problem-none none b h = (refl, h)
or_problem-none (some e) b h = cc

pub edges_accepted :
    (ids keys : List Str) (es : List Edge)
    → check_edges ids keys es ≡ none
    → Each (Connects ids keys) es
unfolding check_edges
edges_accepted ids keys [] h = tt
edges_accepted ids keys (e ∷ es) h =
    let (here, rest) = or_problem-none (edge_problem ids keys e) (check_edges ids keys es) h in
    (edge_accepted ids keys e here, edges_accepted ids keys es rest)

pub edges_pass :
    (ids keys : List Str) (es : List Edge)
    → Each (Connects ids keys) es
    → check_edges ids keys es ≡ none
unfolding check_edges
edges_pass ids keys [] h = refl
edges_pass ids keys (e ∷ es) h = rw (edge_passes ids keys e h.0) (edges_pass ids keys es h.1)
