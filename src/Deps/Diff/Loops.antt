-- ===== src/Deps/Diff/Loops.antt =====
-- internal/lockfile/diff.go: what the loops of DiffGraphs append for a key.
use m.Base.{
  Each-always, Each-mono, ◌≡◌, refl, ap, sym, ◌∙◌, Bool, true, false, not, ◌&&◌, Option, none, some,
  List, [], ◌∷◌, ◌++◌, Str, str_eq, str_eq_iff, str_lt, elem, if◌then◌else◌, arith, Bool-cases, inl,
  inr, append-nil,
}
use m.Base.Sort.{sort_strings}
use m.Base.Tables.{matching, matching-append, matching-sort, find_by, at_key, matching-range_over}
use m.Deps.{Edge, Graph}
use m.Deps.Sorting.{by_last, str_lt_asymm}
use m.Deps.Validate.{package_keys, importer_ids}
use m.Deps.Diff.{
  SpecKey, SpecifierDiff, package_set, edge_key, edge_keys, unless_found, missing_keys, sorted_diff,
  missing_edges, sort_diff_edges, same_spec, specifiers_from, importer_specifiers, specifier_diff,
  changed_specifier, changed_specifiers, dropped_specifier, dropped_specifiers,
  diff_importer_specifiers, specifier_less,
}
use m.Deps.Diff.Keyed.{
  same_spec_iff, or_else, last_with, last_range, IsFiled, find_by-edge_keys,
  edge_keys-HasUniqueKeys, edge_keys-IsFiled, find_by-package_set, package_set-HasUniqueKeys,
  find_by-specifiers_from, specifiers_from-HasUniqueKeys,
}

-- A key once where the second graph has it and the first one does not.
abbrev pub new_key : Str → Graph → Graph → List Str
new_key k a b =
    if elem k (package_keys b.packages) && not (elem k (package_keys a.packages))
    then k ∷ []
    else []

-- The last edge with a key, where the second graph has one and the first one does not.
unfoldable pub new_edge : Option Edge → Option Edge → List Edge
new_edge (some e) after = []
new_edge none (some e) = e ∷ []
new_edge none none = []

-- How a specifier has changed.
unfoldable pub change : SpecKey → Option Str → Option Str → List SpecifierDiff
unfolding specifier_diff
change k none none = []
change k none (some after) = specifier_diff k [] after ∷ []
change k (some before) none = specifier_diff k before [] ∷ []
change k (some before) (some after) =
    if str_eq before after then [] else specifier_diff k before after ∷ []

abbrev pub has_edge_key : Str → Edge → Bool
has_edge_key k e = str_eq k (edge_key e)

abbrev pub is_for_key : SpecKey → SpecifierDiff → Bool
is_for_key k d = same_spec k (record { importer = d.importer; name = d.name; kind = d.kind })

abbrev pub range_in : Graph → SpecKey → Option Str
range_in g k = last_range (importer_ids g.importers) k g.edges

not_less_equal : (k s t : Str) → str_eq k s ≡ true → str_eq k t ≡ true → str_lt t s ≡ false
not_less_equal k s t h i =
    ground (arith, str_eq_iff k s, str_eq_iff k t, str_lt_asymm s t, str_lt_asymm t s)

matching-unless_found :
    {A V : Type 0} (p : A → Bool) (o : Option V) (x : A)
    → matching p (unless_found o x) ≡ (if p x then unless_found o x else [])
unfolding matching unless_found
matching-unless_found p none x = refl
matching-unless_found p (some v) x = ground arith

new_key_step :
    (f : Str → Option (Unit {0})) (k : Str) (w : Option (Unit {0})) (in_a in_b : Bool)
    → f k ≡ (if in_a then some tt else none)
    → w ≡ (if in_b then some tt else none)
    → at_key (λ j v. unless_found (f j) j) k w ≡ (if in_b && not in_a then k ∷ [] else [])
unfolding at_key unless_found
new_key_step f k w in_a false e i = rw i refl
new_key_step f k w true true e i = rw (i, e) refl
new_key_step f k w false true e i = rw (i, e) refl

new_edge_step :
    (f : Str → Option Edge) (k : Str) (w before after : Option Edge)
    → f k ≡ or_else before none
    → w ≡ or_else after none
    → at_key (λ j e. unless_found (f j) e) k w ≡ new_edge before after
unfolding at_key unless_found or_else new_edge
new_edge_step f k w none none e i = rw i refl
new_edge_step f k w (some b) none e i = rw i refl
new_edge_step f k w none (some a) e i = rw (i, e) refl
new_edge_step f k w (some b) (some a) e i = rw (i, e) refl

pub sorted_diff-new_key :
    (a b : Graph) (k : Str)
    → matching (str_eq k) (sorted_diff (package_set [] a.packages) (package_set [] b.packages))
      ≡ new_key k a b
unfolding sorted_diff sort_strings find_by
sorted_diff-new_key a b k =
    let have = package_set [] a.packages in
    let want = package_set [] b.packages in
    matching-sort (str_eq k) str_lt (not_less_equal k) (missing_keys have want)
    ∙ matching-range_over str_eq str_eq_iff (λ j v. unless_found (find_by str_eq j have) j) str_eq k
        want (package_set-HasUniqueKeys [] b.packages tt)
        (Each-always _ (λ p i. matching-unless_found (str_eq i) (find_by str_eq p.0 have) p.0) want)
    ∙ new_key_step (λ j. find_by str_eq j have) k (find_by str_eq k want)
        (elem k (package_keys a.packages)) (elem k (package_keys b.packages))
        (find_by-package_set k [] a.packages) (find_by-package_set k [] b.packages)

pub sort_diff_edges-new_edge :
    (a b : Graph) (k : Str)
    → matching
        (has_edge_key k)
        (sort_diff_edges (missing_edges (edge_keys [] a.edges) (edge_keys [] b.edges)))
      ≡ new_edge (last_with k a.edges) (last_with k b.edges)
unfolding sort_diff_edges missing_edges by_last find_by
sort_diff_edges-new_edge a b k =
    let have = edge_keys [] a.edges in
    let want = edge_keys [] b.edges in
    matching-sort (has_edge_key k) (by_last edge_key)
      (λ x y. not_less_equal k (edge_key x) (edge_key y)) (missing_edges have want)
    ∙ matching-range_over str_eq str_eq_iff (λ j e. unless_found (find_by str_eq j have) e)
        has_edge_key k want (edge_keys-HasUniqueKeys [] b.edges tt)
        (Each-mono IsFiled _
          (λ p filed i.
            matching-unless_found (has_edge_key i) (find_by str_eq p.0 have) p.1
            ∙ ap (λ t. if str_eq i t then unless_found (find_by str_eq p.0 have) p.1 else [])
                (sym filed))
          want (edge_keys-IsFiled [] b.edges tt))
    ∙ new_edge_step (λ j. find_by str_eq j have) k (find_by str_eq k want) (last_with k a.edges)
        (last_with k b.edges) (find_by-edge_keys k [] a.edges) (find_by-edge_keys k [] b.edges)

matching-specifier_diff :
    (i j : SpecKey) (before after : Str)
    → matching (is_for_key i) (specifier_diff j before after ∷ [])
      ≡ (if same_spec i j then specifier_diff j before after ∷ [] else [])
unfolding matching specifier_diff
matching-specifier_diff i j before after = refl

matching-changed_specifier :
    (i j : SpecKey) (o : Option Str) (after : Str)
    → matching (is_for_key i) (changed_specifier j o after)
      ≡ (if same_spec i j then changed_specifier j o after else [])
unfolding changed_specifier
matching-changed_specifier i j none after = matching-specifier_diff i j [] after
matching-changed_specifier i j (some before) after = elim (Bool-cases (str_eq before after)) [
  | inl same ↦ rw same (unfold matching in ground arith)
  | inr differ ↦ rw differ (matching-specifier_diff i j before after)
]

matching-dropped_specifier :
    (i j : SpecKey) (before : Str) (o : Option Str)
    → matching (is_for_key i) (dropped_specifier j before o)
      ≡ (if same_spec i j then dropped_specifier j before o else [])
unfolding dropped_specifier
matching-dropped_specifier i j before none = matching-specifier_diff i j before []
matching-dropped_specifier i j before (some after) = unfold matching in ground arith

change_step :
    (f g : SpecKey → Option Str) (k : SpecKey) (before after : Option Str)
    → f k ≡ before
    → g k ≡ after
    → at_key (λ j v. changed_specifier j (f j) v) k after
        ++ at_key (λ j v. dropped_specifier j v (g j)) k before
      ≡ change k before after
unfolding at_key changed_specifier dropped_specifier change
change_step f g k none none e i = refl
change_step f g k none (some v) e i = rw e refl
change_step f g k (some u) none e i = rw i refl
change_step f g k (some u) (some v) e i = rw (e, i) (append-nil _)

pub matching-diff_importer_specifiers :
    (a b : Graph) (k : SpecKey)
    → matching (is_for_key k) (diff_importer_specifiers a b)
      ≡ change k
          (find_by same_spec k (importer_specifiers a))
          (find_by same_spec k (importer_specifiers b))
unfolding diff_importer_specifiers changed_specifiers dropped_specifiers importer_specifiers
matching-diff_importer_specifiers a b k =
    let before = specifiers_from (importer_ids a.importers) [] a.edges in
    let after = specifiers_from (importer_ids b.importers) [] b.edges in
    let f = λ (j : SpecKey). find_by same_spec j before in
    let g = λ (j : SpecKey). find_by same_spec j after in
    matching-append (is_for_key k) _ _
    ∙ ap (λ xs. xs ++ matching (is_for_key k) (dropped_specifiers after before))
        (matching-range_over same_spec same_spec_iff (λ j v. changed_specifier j (f j) v) is_for_key
          k after (specifiers_from-HasUniqueKeys _ [] b.edges tt)
          (Each-always _ (λ p i. matching-changed_specifier i p.0 (f p.0) p.1) after))
    ∙ ap (λ xs. at_key (λ j v. changed_specifier j (f j) v) k (g k) ++ xs)
        (matching-range_over same_spec same_spec_iff (λ j v. dropped_specifier j v (g j)) is_for_key
          k before (specifiers_from-HasUniqueKeys _ [] a.edges tt)
          (Each-always _ (λ p i. matching-dropped_specifier i p.0 p.1 (g p.0)) before))
    ∙ change_step f g k (f k) (g k) refl refl

pub specifier_not_less :
    (k : SpecKey) (x y : SpecifierDiff)
    → is_for_key k x ≡ true
    → is_for_key k y ≡ true
    → specifier_less y x ≡ false
unfolding specifier_less same_spec
specifier_not_less k x y h i = ground (
  arith,
  str_eq_iff k.importer x.importer,
  str_eq_iff k.importer y.importer,
  str_eq_iff k.name x.name,
  str_eq_iff k.name y.name,
  str_eq_iff y.importer x.importer,
  str_eq_iff y.name x.name,
  not_less_equal k.kind x.kind y.kind,
)

or_else-none : {A : Type 0} (a : Option A) → or_else a none ≡ a
unfolding or_else
or_else-none (some x) = refl
or_else-none none = refl

pub find_by-importer_specifiers :
    (g : Graph) (k : SpecKey) → find_by same_spec k (importer_specifiers g) ≡ range_in g k
unfolding importer_specifiers find_by
find_by-importer_specifiers g k =
    find_by-specifiers_from (importer_ids g.importers) k [] g.edges
    ∙ or_else-none (last_range (importer_ids g.importers) k g.edges)
