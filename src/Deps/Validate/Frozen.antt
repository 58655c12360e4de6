-- ===== src/Deps/Validate/Frozen.antt =====
-- internal/graph/validate.go: the graphs that Validate accepts and what it leaves behind.
use m.Base.{
  Each, ◌≡◌, ◌≢◌, refl, true, false, none, List, [], ◌∷◌, Str, map, keys, arith, Bool-cases, inl,
  inr,
}
use m.Base.Int.{ℤ, pos, negsuc, is_zero}
use m.Base.Sort.{sort}
use m.Base.Ordered.{InOrder, InOrder-sort, sort-InOrder, Each-sort}
use m.Deps.{Package, Edge, Graph}
use m.Deps.Sorting.{
  importer_less, package_less, edge_less, provider_less, importer_less-Asymmetric,
  package_less-Asymmetric, edge_less-Asymmetric, provider_less-Asymmetric,
}
use m.Deps.Validate.{
  schema, older, is_current, or_target, normalize_edge, normalize_package, with_current_version,
  in_order, problem, checked, validate, importer_ids, package_keys, check_importers, check_packages,
}
use m.Deps.Validate.Checks.{
  Increasing, HasId, HasName, Connects, fresh→Increasing, Increasing→fresh, Increasing→InOrder,
  importers_accepted, importers_pass, packages_accepted, packages_pass, edges_accepted, edges_pass,
  or_problem-none,
}

abbrev pub HasSortedProviders : Package → Type 0
HasSortedProviders p = InOrder provider_less p.id.providers

-- A graph as consumers find it.
pub record IsFrozen (g : Graph) : Type 0 where
  pub version : g.schema_version ≡ schema
  pub importers_increase : Increasing (importer_ids g.importers)
  pub importers_named : Each HasId g.importers
  pub packages_increase : Increasing (package_keys g.packages)
  pub packages_named : Each HasName g.packages
  pub providers_sorted : Each HasSortedProviders g.packages
  pub edges_sorted : InOrder edge_less g.edges
  pub edges_connect : Each (Connects (importer_ids g.importers) (package_keys g.packages)) g.edges

is_current→schema : (v : ℤ) → is_current v ≡ true → v ≡ schema
unfolding is_current
is_current→schema (pos n) h = ground arith
is_current→schema (negsuc n) h = cc

normalized-HasSortedProviders :
    (ps : List Package) → Each HasSortedProviders (map normalize_package ps)
unfolding normalize_package
normalized-HasSortedProviders [] = tt
normalized-HasSortedProviders (p ∷ ps) = (
  InOrder-sort provider_less provider_less-Asymmetric p.id.providers,
  normalized-HasSortedProviders ps,
)

in_order-IsFrozen :
    (g : Graph) → g.schema_version ≡ schema → problem (in_order g) ≡ none → IsFrozen (in_order g)
unfolding in_order problem importer_less package_less importer_ids package_keys keys
in_order-IsFrozen g version h =
    let ims = sort importer_less g.importers in
    let ps = sort package_less (map normalize_package g.packages) in
    let es = sort edge_less (map normalize_edge g.edges) in
    let (no_importer, behind) = or_problem-none (check_importers [] ims) _ h in
    let (no_package, no_edge) = or_problem-none (check_packages [] ps) _ behind in
    let (has_ids, ids_fresh) = importers_accepted [] ims no_importer in
    let (has_names, keys_fresh) = packages_accepted [] ps no_package in
    record {
      version = version;
      importers_increase =
          fresh→Increasing _ ims (InOrder-sort importer_less importer_less-Asymmetric g.importers)
            ids_fresh;
      importers_named = has_ids;
      packages_increase =
          fresh→Increasing _ ps
            (InOrder-sort package_less package_less-Asymmetric (map normalize_package g.packages))
            keys_fresh;
      packages_named = has_names;
      providers_sorted =
          Each-sort HasSortedProviders package_less _ (normalized-HasSortedProviders g.packages);
      edges_sorted = InOrder-sort edge_less edge_less-Asymmetric (map normalize_edge g.edges);
      edges_connect = edges_accepted (importer_ids ims) (package_keys ps) es no_edge;
    }

checked-IsFrozen : (g : Graph) → (checked g).1 ≡ none → IsFrozen (checked g).0
unfolding checked
checked-IsFrozen g h = elim (Bool-cases (is_current g.schema_version)) [
  | inl now ↦
      rw (now) (in_order-IsFrozen g (is_current→schema g.schema_version now) (rw (now) at h))
  | inr other ↦ absurd (ground arith)
]

-- A graph that Validate accepts is frozen.
pub validate-IsFrozen : (g : Graph) → (validate g).1 ≡ none → IsFrozen (validate g).0
unfolding validate
validate-IsFrozen g h = checked-IsFrozen (with_current_version g) h

or_target_named : (name to : Str) → name ≢ [] → or_target name to ≡ name
unfolding or_target
or_target_named [] to h = absurd (h refl)
or_target_named (c ∷ name) to h = refl

normalize_edges_again :
    (ids keys : List Str) (es : List Edge)
    → Each (Connects ids keys) es
    → map normalize_edge es ≡ es
unfolding normalize_edge
normalize_edges_again ids keys [] h = refl
normalize_edges_again ids keys (e ∷ es) h =
    rw (or_target_named e.name e.to (h.0.named), normalize_edges_again ids keys es h.1) refl

normalize_packages_again :
    (ps : List Package) → Each HasSortedProviders ps → map normalize_package ps ≡ ps
unfolding normalize_package
normalize_packages_again [] h = refl
normalize_packages_again (p ∷ ps) h =
    rw (sort-InOrder provider_less p.id.providers h.0, normalize_packages_again ps h.1) refl

in_order_again : (g : Graph) → IsFrozen g → in_order g ≡ g
unfolding in_order importer_less package_less importer_ids package_keys
in_order_again g f =
    let edges_again = normalize_edges_again _ _ g.edges f.edges_connect in
    rw
      (
        normalize_packages_again g.packages f.providers_sorted,
        edges_again,
        sort-InOrder edge_less g.edges f.edges_sorted,
        sort-InOrder _ g.packages (Increasing→InOrder _ g.packages f.packages_increase),
        sort-InOrder _ g.importers (Increasing→InOrder _ g.importers f.importers_increase),
      )
      refl

frozen_problem : (g : Graph) → IsFrozen g → problem g ≡ none
unfolding problem importer_ids package_keys keys
frozen_problem g f =
    rw
      (
        importers_pass [] g.importers f.importers_named (Increasing→fresh _ f.importers_increase),
        packages_pass [] g.packages f.packages_named (Increasing→fresh _ f.packages_increase),
      )
      (edges_pass _ _ g.edges f.edges_connect)

not_upgraded :
    (v : ℤ) → v ≡ schema → (is_zero v ≡ false) × (older v ≡ false) × (is_current v ≡ true)
unfolding older is_zero is_current
not_upgraded v h = rw h (refl, refl, refl)

upgraded_again : (g : Graph) → g.schema_version ≡ schema → with_current_version g ≡ g
unfolding with_current_version
upgraded_again g h =
    let (some_version, recent, now) = not_upgraded g.schema_version h in
    rw (some_version, recent) refl

-- Validate accepts a frozen graph and leaves it as it is.
pub IsFrozen-validate : (g : Graph) → IsFrozen g → validate g ≡ (g, none)
unfolding validate checked
IsFrozen-validate g f =
    let (some_version, recent, now) = not_upgraded g.schema_version f.version in
    rw (upgraded_again g f.version, now, in_order_again g f, frozen_problem g f) refl
