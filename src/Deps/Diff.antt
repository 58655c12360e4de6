-- ===== src/Deps/Diff.antt =====
-- internal/lockfile/diff.go: `DiffGraphs` and the maps that it compares.
pub mod Keyed
pub mod Loops
pub mod Described
use m.Base.{Bool, false, Option, none, some, List, [], ◌∷◌, ◌++◌, Str, str_eq, elem, if◌then◌else◌}
use m.Base.Tables.{find_by, put_by, range_over}
use m.Base.Sort.{sort, sort_strings}
use m.Apperr.{Result, ok, ◌>>=◌}
use m.Deps.{Edge, Package, Importer, Graph, package_key}
use m.Deps.Sorting.{by_field, by_last}
use m.Deps.Validate.{is_empty, importer_ids}
use m.Deps.Encode.{Codec, clone_graph}

-- `ImporterSpecifierDiff`
pub record SpecifierDiff : Type 0 where
  pub importer : Str
  pub name : Str
  pub kind : Str
  pub before : Str
  pub after : Str

-- `GraphDiff`
pub record GraphDiff : Type 0 where
  pub packages_added : List Str
  pub packages_removed : List Str
  pub edges_added : List Edge
  pub edges_removed : List Edge
  pub specifiers : List SpecifierDiff

-- The loop of `packageKeys`, from the set that it has filled so far.
unfoldable pub package_set : List (Str × Unit {0}) → List Package → List (Str × Unit {0})
package_set set [] = set
package_set set (p ∷ ps) = package_set (put_by str_eq (package_key p.id) tt set) ps

-- `edgeKey`
unfoldable pub edge_key : Edge → Str
edge_key e = e.from ++ 0 ∷ (e.name ++ 0 ∷ (e.to ++ 0 ∷ (e.kind ++ 0 ∷ e.range)))

-- The loop of `edgeKeys`
unfoldable pub edge_keys : List (Str × Edge) → List Edge → List (Str × Edge)
unfolding edge_key
edge_keys m [] = m
edge_keys m (e ∷ es) = edge_keys (put_by str_eq (edge_key e) e m) es

-- `if _, ok := have[k]; !ok { out = append(out, x) }`
unfoldable pub unless_found : {A V : Type 0} → Option V → A → List A
unless_found none x = x ∷ []
unless_found (some v) x = []

-- The loop of `sortedDiff`
unfoldable pub missing_keys : List (Str × Unit {0}) → List (Str × Unit {0}) → List Str
unfolding unless_found
missing_keys have want = range_over (λ k v. unless_found (find_by str_eq k have) k) want

-- `sortedDiff`
unfoldable pub sorted_diff : List (Str × Unit {0}) → List (Str × Unit {0}) → List Str
unfolding missing_keys
sorted_diff have want = sort_strings (missing_keys have want)

-- The loops of DiffGraphs over the edges.
unfoldable pub missing_edges : List (Str × Edge) → List (Str × Edge) → List Edge
unfolding unless_found
missing_edges have want = range_over (λ k e. unless_found (find_by str_eq k have) e) want

-- `sortEdges`
unfoldable pub sort_diff_edges : List Edge → List Edge
unfolding edge_key by_last
sort_diff_edges es = sort (by_last edge_key) es

-- `specKey`
pub record SpecKey : Type 0 where
  pub importer : Str
  pub name : Str
  pub kind : Str

unfoldable pub same_spec : SpecKey → SpecKey → Bool
same_spec a b =
    if str_eq a.importer b.importer
    then if str_eq a.name b.name then str_eq a.kind b.kind else false
    else false

unfoldable pub spec_key : Edge → SpecKey
spec_key e = record { importer = e.from; name = e.name; kind = e.kind }

-- The body of the loop of `importerSpecifiers`.
unfoldable pub with_specifier : List Str → Edge → List (SpecKey × Str) → List (SpecKey × Str)
unfolding spec_key
with_specifier ids e m =
    if is_empty e.range
    then m
    else if elem e.from ids
    then put_by same_spec (spec_key e) e.range m
    else m

unfoldable pub specifiers_from : List Str → List (SpecKey × Str) → List Edge → List (SpecKey × Str)
specifiers_from ids m [] = m
specifiers_from ids m (e ∷ es) = specifiers_from ids (with_specifier ids e m) es

-- `importerSpecifiers`
unfoldable pub importer_specifiers : Graph → List (SpecKey × Str)
unfolding importer_ids
importer_specifiers g = specifiers_from (importer_ids g.importers) [] g.edges

unfoldable pub specifier_diff : SpecKey → Str → Str → SpecifierDiff
specifier_diff k before after = record {
  importer = k.importer;
  name = k.name;
  kind = k.kind;
  before = before;
  after = after;
}

-- The body of the first loop of `diffImporterSpecifiers`.
unfoldable pub changed_specifier : SpecKey → Option Str → Str → List SpecifierDiff
unfolding specifier_diff
changed_specifier k none after = specifier_diff k [] after ∷ []
changed_specifier k (some before) after =
    if str_eq before after then [] else specifier_diff k before after ∷ []

unfoldable pub changed_specifiers : List (SpecKey × Str) → List (SpecKey × Str) → List SpecifierDiff
unfolding changed_specifier
changed_specifiers a b = range_over (λ k after. changed_specifier k (find_by same_spec k a) after) b

-- The second loop.
unfoldable pub dropped_specifier : SpecKey → Str → Option Str → List SpecifierDiff
unfolding specifier_diff
dropped_specifier k before none = specifier_diff k before [] ∷ []
dropped_specifier k before (some after) = []

unfoldable pub dropped_specifiers : List (SpecKey × Str) → List (SpecKey × Str) → List SpecifierDiff
unfolding dropped_specifier
dropped_specifiers b a =
    range_over (λ k before. dropped_specifier k before (find_by same_spec k b)) a

-- `diffImporterSpecifiers`
unfoldable pub diff_importer_specifiers : Graph → Graph → List SpecifierDiff
diff_importer_specifiers a b =
    let before = importer_specifiers a in
    let after = importer_specifiers b in
    changed_specifiers before after ++ dropped_specifiers after before

unfoldable pub specifier_less : SpecifierDiff → SpecifierDiff → Bool
unfolding by_field by_last
specifier_less = by_field (λ d. d.importer) (by_field (λ d. d.name) (by_last (λ d. d.kind)))

-- What DiffGraphs fills in, from the two clones.
unfoldable pub diff_of : Graph → Graph → GraphDiff
diff_of a b = record {
  packages_added = sorted_diff (package_set [] a.packages) (package_set [] b.packages);
  packages_removed = sorted_diff (package_set [] b.packages) (package_set [] a.packages);
  edges_added = sort_diff_edges (missing_edges (edge_keys [] a.edges) (edge_keys [] b.edges));
  edges_removed = sort_diff_edges (missing_edges (edge_keys [] b.edges) (edge_keys [] a.edges));
  specifiers = sort specifier_less (diff_importer_specifiers a b);
}

-- `DiffGraphs`
unfoldable pub diff_graphs : Codec → Graph → Graph → Result GraphDiff
unfolding diff_of
diff_graphs codec a b =
    clone_graph codec a >>= λ ac. clone_graph codec b >>= λ bc. ok (diff_of ac bc)
