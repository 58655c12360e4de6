-- ===== src/Deps/Diff/Keyed.antt =====
-- internal/lockfile/diff.go: what the maps of DiffGraphs hold, by the lists that they are made of.
use m.Base.{
  Each, ◌≡◌, ◌↔◌, refl, ap, sym, ◌∙◌, true, Option, none, some, List, [], ◌∷◌, Str, str_eq,
  str_eq_iff, elem, if◌then◌else◌, arith, Bool-cases, inl, inr,
}
use m.Base.Tables.{
  find_by, put_by, HasUniqueKeys, find_by-put_by, put_by-HasUniqueKeys, Each-put_by,
}
use m.Deps.{Edge, Package, package_key}
use m.Deps.Validate.{package_keys, is_empty}
use m.Deps.Diff.{
  SpecKey, package_set, edge_key, edge_keys, same_spec, spec_key, with_specifier, specifiers_from,
}

pub same_spec_iff : (a b : SpecKey) → (same_spec a b ≡ true) ↔ (a ≡ b)
unfolding same_spec
same_spec_iff a b = (
  λ h.
      ground (
        arith,
        str_eq_iff a.importer b.importer,
        str_eq_iff a.name b.name,
        str_eq_iff a.kind b.kind,
      ),
  λ e. rw e (
      ground (
        arith,
        str_eq_iff b.importer b.importer,
        str_eq_iff b.name b.name,
        str_eq_iff b.kind b.kind,
      )),
)

unfoldable pub or_else : {A : Type 0} → Option A → Option A → Option A
or_else (some x) other = some x
or_else none other = other

or_else_assoc : {A : Type 0} (a b c : Option A) → or_else (or_else a b) c ≡ or_else a (or_else b c)
unfolding or_else
or_else_assoc (some x) b c = refl
or_else_assoc none b c = refl

-- The last of the edges with a key.
unfoldable pub last_with : Str → List Edge → Option Edge
unfolding or_else
last_with k [] = none
last_with k (e ∷ es) = or_else (last_with k es) (if str_eq k (edge_key e) then some e else none)

-- The specifier that the last of the edges with a specifier key carries, of those that come from an
-- importer and carry one.
unfoldable pub last_range : List Str → SpecKey → List Edge → Option Str
unfolding or_else
last_range ids k [] = none
last_range ids k (e ∷ es) = or_else (last_range ids k es) (
    if is_empty e.range
    then none
    else if elem e.from ids
    then if same_spec k (spec_key e) then some e.range else none
    else none)

pub find_by-edge_keys :
    (k : Str) (m : List (Str × Edge)) (es : List Edge)
    → find_by str_eq k (edge_keys m es) ≡ or_else (last_with k es) (find_by str_eq k m)
unfolding edge_keys last_with or_else
find_by-edge_keys k m [] = refl
find_by-edge_keys k m (e ∷ es) =
    find_by-edge_keys k (put_by str_eq (edge_key e) e m) es
    ∙ rw (find_by-put_by str_eq str_eq_iff k (edge_key e) e m) (ground arith)

pub edge_keys-HasUniqueKeys :
    (m : List (Str × Edge)) (es : List Edge)
    → HasUniqueKeys str_eq m
    → HasUniqueKeys str_eq (edge_keys m es)
unfolding edge_keys
edge_keys-HasUniqueKeys m [] h = h
edge_keys-HasUniqueKeys m (e ∷ es) h =
    edge_keys-HasUniqueKeys (put_by str_eq (edge_key e) e m) es
      (put_by-HasUniqueKeys str_eq str_eq_iff (edge_key e) e m h)

-- An entry that is filed under the key of its edge.
abbrev pub IsFiled : Str × Edge → Type 0
IsFiled p = p.0 ≡ edge_key p.1

pub edge_keys-IsFiled :
    (m : List (Str × Edge)) (es : List Edge) → Each IsFiled m → Each IsFiled (edge_keys m es)
unfolding edge_keys
edge_keys-IsFiled m [] h = h
edge_keys-IsFiled m (e ∷ es) h =
    edge_keys-IsFiled (put_by str_eq (edge_key e) e m) es
      (Each-put_by str_eq str_eq_iff IsFiled (edge_key e) e m refl h)

pub find_by-package_set :
    (k : Str) (set : List (Str × Unit {0})) (ps : List Package)
    → find_by str_eq k (package_set set ps)
      ≡ (if elem k (package_keys ps) then some tt else find_by str_eq k set)
unfolding package_set package_keys elem
find_by-package_set k set [] = refl
find_by-package_set k set (p ∷ ps) = ground (
  arith,
  find_by-package_set k (put_by str_eq (package_key p.id) tt set) ps,
  find_by-put_by str_eq str_eq_iff k (package_key p.id) tt set,
)

pub package_set-HasUniqueKeys :
    (set : List (Str × Unit {0})) (ps : List Package)
    → HasUniqueKeys str_eq set
    → HasUniqueKeys str_eq (package_set set ps)
unfolding package_set
package_set-HasUniqueKeys set [] h = h
package_set-HasUniqueKeys set (p ∷ ps) h =
    package_set-HasUniqueKeys (put_by str_eq (package_key p.id) tt set) ps
      (put_by-HasUniqueKeys str_eq str_eq_iff (package_key p.id) tt set h)

find_by-with_specifier :
    (ids : List Str) (k : SpecKey) (e : Edge) (m : List (SpecKey × Str))
    → find_by same_spec k (with_specifier ids e m)
      ≡ or_else
          (if is_empty e.range
            then none
            else if elem e.from ids
            then if same_spec k (spec_key e) then some e.range else none
            else none)
          (find_by same_spec k m)
unfolding with_specifier or_else
find_by-with_specifier ids k e m =
    ground (arith, find_by-put_by same_spec same_spec_iff k (spec_key e) e.range m)

pub find_by-specifiers_from :
    (ids : List Str) (k : SpecKey) (m : List (SpecKey × Str)) (es : List Edge)
    → find_by same_spec k (specifiers_from ids m es)
      ≡ or_else (last_range ids k es) (find_by same_spec k m)
unfolding specifiers_from last_range or_else
find_by-specifiers_from ids k m [] = refl
find_by-specifiers_from ids k m (e ∷ es) =
    find_by-specifiers_from ids k (with_specifier ids e m) es
    ∙ ap (or_else (last_range ids k es)) (find_by-with_specifier ids k e m)
    ∙ sym (or_else_assoc (last_range ids k es) _ (find_by same_spec k m))

pub specifiers_from-HasUniqueKeys :
    (ids : List Str) (m : List (SpecKey × Str)) (es : List Edge)
    → HasUniqueKeys same_spec m
    → HasUniqueKeys same_spec (specifiers_from ids m es)
unfolding specifiers_from with_specifier
specifiers_from-HasUniqueKeys ids m [] h = h
specifiers_from-HasUniqueKeys ids m (e ∷ es) h =
    specifiers_from-HasUniqueKeys ids (with_specifier ids e m) es
      (elim (Bool-cases (is_empty e.range)) [
        | inl empty ↦ rw empty h
        | inr carried ↦ elim (Bool-cases (elem e.from ids)) [
          | inl known ↦
              rw (carried, known)
                (put_by-HasUniqueKeys same_spec same_spec_iff (spec_key e) e.range m h)
          | inr other ↦ rw (carried, other) h
        ]
      ])
