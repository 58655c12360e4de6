-- ===== src/Deps/Diff/Described.antt =====
-- internal/lockfile/diff.go: what a diff says of the two graphs that it compares.
use m.Base.{◌≡◌, refl, ◌∙◌, none, List, [], Str, str_eq, str_lt}
use m.Base.Sort.{sort, sort_strings}
use m.Base.Ordered.{Asymmetric, InOrder, InOrder-sort}
use m.Base.Tables.{matching, matching-sort}
use m.Apperr.{ok}
use m.Deps.{Edge, Graph}
use m.Deps.Sorting.{by_last, str_lt_asymm, by_last-Asymmetric, by_field-Asymmetric}
use m.Deps.Validate.{validate}
use m.Deps.Encode.{Codec}
use m.Deps.Encode.Codes.{ReadsBack, clone_valid}
use m.Deps.Diff.{
  SpecKey, GraphDiff, package_set, edge_key, edge_keys, missing_keys, sorted_diff, missing_edges,
  sort_diff_edges, diff_importer_specifiers, specifier_less, diff_of, diff_graphs,
}
use m.Deps.Diff.Keyed.{last_with}
use m.Deps.Diff.Loops.{
  new_key, new_edge, change, has_edge_key, is_for_key, range_in, sorted_diff-new_key,
  sort_diff_edges-new_edge, matching-diff_importer_specifiers, specifier_not_less,
  find_by-importer_specifiers,
}

-- A diff lists, sorted and each once, the package keys, the edge keys and the changes of specifiers.
pub record Describes (a b : Graph) (d : GraphDiff) : Type 0 where
  pub packages_added : (k : Str) → matching (str_eq k) d.packages_added ≡ new_key k a b
  pub packages_removed : (k : Str) → matching (str_eq k) d.packages_removed ≡ new_key k b a
  pub edges_added :
      (k : Str)
      → matching (has_edge_key k) d.edges_added
        ≡ new_edge (last_with k a.edges) (last_with k b.edges)
  pub edges_removed :
      (k : Str)
      → matching (has_edge_key k) d.edges_removed
        ≡ new_edge (last_with k b.edges) (last_with k a.edges)
  pub specifiers :
      (k : SpecKey) → matching (is_for_key k) d.specifiers ≡ change k (range_in a k) (range_in b k)
  pub sorted_specifiers : InOrder specifier_less d.specifiers
  pub sorted_added : InOrder str_lt d.packages_added
  pub sorted_removed : InOrder str_lt d.packages_removed
  pub sorted_edges_added : InOrder (by_last edge_key) d.edges_added
  pub sorted_edges_removed : InOrder (by_last edge_key) d.edges_removed

diff_specifiers-change :
    (a b : Graph) (k : SpecKey)
    → matching (is_for_key k) (sort specifier_less (diff_importer_specifiers a b))
      ≡ change k (range_in a k) (range_in b k)
diff_specifiers-change a b k =
    matching-sort (is_for_key k) specifier_less (specifier_not_less k)
      (diff_importer_specifiers a b)
    ∙ matching-diff_importer_specifiers a b k
    ∙ rw (find_by-importer_specifiers a k, find_by-importer_specifiers b k) refl

specifier_less-Asymmetric : Asymmetric specifier_less
unfolding specifier_less
specifier_less-Asymmetric = by_field-Asymmetric _ _ (by_field-Asymmetric _ _ (by_last-Asymmetric _))

sorted_diff-InOrder : (have want : List (Str × Unit {0})) → InOrder str_lt (sorted_diff have want)
unfolding sorted_diff sort_strings
sorted_diff-InOrder have want = InOrder-sort str_lt str_lt_asymm (missing_keys have want)

sort_diff_edges-InOrder : (es : List Edge) → InOrder (by_last edge_key) (sort_diff_edges es)
unfolding sort_diff_edges
sort_diff_edges-InOrder es = InOrder-sort (by_last edge_key) (by_last-Asymmetric edge_key) es

pub diff_of-Describes : (a b : Graph) → Describes a b (diff_of a b)
unfolding diff_of
diff_of-Describes a b = record {
  packages_added = sorted_diff-new_key a b;
  packages_removed = sorted_diff-new_key b a;
  edges_added = sort_diff_edges-new_edge a b;
  edges_removed = sort_diff_edges-new_edge b a;
  specifiers = diff_specifiers-change a b;
  sorted_specifiers =
      InOrder-sort specifier_less specifier_less-Asymmetric (diff_importer_specifiers a b);
  sorted_added = sorted_diff-InOrder (package_set [] a.packages) (package_set [] b.packages);
  sorted_removed = sorted_diff-InOrder (package_set [] b.packages) (package_set [] a.packages);
  sorted_edges_added =
      sort_diff_edges-InOrder (missing_edges (edge_keys [] a.edges) (edge_keys [] b.edges));
  sorted_edges_removed =
      sort_diff_edges-InOrder (missing_edges (edge_keys [] b.edges) (edge_keys [] a.edges));
}

-- DiffGraphs of two graphs that Validate accepts, when the codec reads back what Validate leaves
-- of them, returns a diff that lists, sorted, each package key of one that the other does not
-- have, once; for each edge key of one that the other does not have the last edge with it, once;
-- and for each importer, name and kind whose last specifier is not the same in both the one before
-- and the one after, once.
pub diff_graphs-Describes :
    (codec : Codec) (a b : Graph)
    → (validate a).1 ≡ none
    → (validate b).1 ≡ none
    → ReadsBack codec (validate a).0
    → ReadsBack codec (validate b).0
    → (d : GraphDiff) × (diff_graphs codec a b ≡ ok d) × Describes (validate a).0 (validate b).0 d
unfolding diff_graphs
diff_graphs-Describes codec a b va vb ra rb = (
  diff_of (validate a).0 (validate b).0,
  rw (clone_valid codec a va ra, clone_valid codec b vb rb) refl,
  diff_of-Describes (validate a).0 (validate b).0,
)
