-- ===== src/Deps/Validate.antt =====
-- internal/graph/validate.go, and the normal forms of edge.go and id.go that it applies.
pub mod Checks
pub mod Frozen
use m.Base.{
  ℕ, Bool, true, false, not, ◌&&◌, ◌||◌, Option, none, some, List, [], ◌∷◌, Str, bytes, has_prefix,
  elem, find, map, ltb, if◌then◌else◌, str_eq,
}
use m.Base.Int.{ℤ, pos, negsuc, is_zero}
use m.Base.Sort.{sort}
use m.Apperr.{Code, Error}
use m.Deps.{
  PeerProvider, PackageId, Edge, Package, Importer, Graph, package_key, target_name_from_key,
}
use m.Deps.Sorting.{importer_less, package_less, edge_less, provider_less}

-- What Validate reports; the constructors stand for the messages.
pub data Problem : Type 0 where
  unsupported_version : ℤ → Problem
  empty_importer_id : Problem
  duplicate_importer : Str → Problem
  package_missing_name : Problem
  identity_collision : Str → Problem
  duplicate_package_key : Str → Problem
  edge_missing_name : Problem
  edge_missing_to : Problem
  dangling_edge : Str → Problem
  edge_missing_from : Problem
  edge_from_unknown : Str → Problem

graph_error : Str → Error
graph_error subject = record {
  code = Code.lockfile;
  op = bytes "graph.validate";
  subject = subject;
}

unfoldable pub problem_error : Problem → Error
unfolding graph_error
problem_error (identity_collision k) = graph_error (bytes "peer-context")
problem_error (duplicate_package_key k) = graph_error (bytes "peer-context")
problem_error _ = graph_error (bytes "graph")

-- the constant `SchemaVersion`
abbrev pub schema : ℤ
schema = pos 3

-- `v < SchemaVersion`
unfoldable pub older : ℤ → Bool
older (pos n) = ltb n 3
older (negsuc n) = true

-- `v == SchemaVersion`, for a version that is not older
unfoldable pub is_current : ℤ → Bool
is_current (pos n) = ltb 2 n && ltb n 4
is_current (negsuc n) = false

unfoldable pub is_empty : Str → Bool
is_empty [] = true
is_empty (c ∷ s) = false

unfoldable pub or_target : Str → Str → Str
or_target [] to = target_name_from_key to
or_target (c ∷ name) to = c ∷ name

-- `NormalizeEdge`
unfoldable pub normalize_edge : Edge → Edge
unfolding or_target
normalize_edge e = record e { name = or_target e.name e.to }

-- `PackageID.Normalize`, with `PeerProviderContext.Sort`
unfoldable pub normalize_id : PackageId → PackageId
normalize_id id = record id { providers = sort provider_less id.providers }

unfoldable pub normalize_package : Package → Package
unfolding normalize_id
normalize_package p = record p { id = normalize_id p.id }

-- `Migrate`
unfoldable pub migrate : Graph → Graph
migrate g =
    if older g.schema_version
    then record g { edges = map normalize_edge g.edges; schema_version = schema }
    else g

-- The version, when it is 0 or older: the first two conditions of Validate.
unfoldable pub with_current_version : Graph → Graph
unfolding migrate
with_current_version g =
    migrate (if is_zero g.schema_version then record g { schema_version = schema } else g)

-- The normal forms and the three sorts of Validate.
unfoldable pub in_order : Graph → Graph
unfolding normalize_package normalize_edge
in_order g = record g {
  importers = sort importer_less g.importers;
  packages = sort package_less (map normalize_package g.packages);
  edges = sort edge_less (map normalize_edge g.edges);
}

-- The loop over the importers; `seen` is `importerSeen`.
unfoldable pub check_importers : List Str → List Importer → Option Problem
check_importers seen [] = none
check_importers seen (im ∷ ims) =
    if is_empty im.id
    then some empty_importer_id
    else if elem im.id seen
    then some (duplicate_importer im.id)
    else check_importers (im.id ∷ seen) ims

-- `prev, ok := pkgByKey[key]`: a second package with a key is refused either way.
unfoldable pub with_previous : Package → Option Package → Option Problem → Option Problem
with_previous p none rest = rest
with_previous p (some prev) rest =
    if not (str_eq prev.integrity p.integrity) || not (str_eq prev.tarball_url p.tarball_url)
    then some (identity_collision (package_key p.id))
    else some (duplicate_package_key (package_key p.id))

-- The loop over the packages; `by_key` is `pkgByKey`.
unfoldable pub check_packages : List (Str × Package) → List Package → Option Problem
unfolding with_previous
check_packages by_key [] = none
check_packages by_key (p ∷ ps) =
    if is_empty p.id.name || is_empty p.id.version
    then some package_missing_name
    else with_previous p (find (package_key p.id) by_key)
        (check_packages ((package_key p.id, p) ∷ by_key) ps)

-- `isLocalEdgeTarget`
unfoldable pub is_local_edge_target : Str → Bool
is_local_edge_target to =
    has_prefix to (bytes "link:")
    || has_prefix to (bytes "workspace:")
    || has_prefix to (bytes "file:")

-- The body of the loop over the edges, with the ids and the keys that the other loops have seen.
unfoldable pub edge_problem : List Str → List Str → Edge → Option Problem
unfolding is_local_edge_target
edge_problem ids keys e =
    if is_empty e.name
    then some edge_missing_name
    else if is_empty e.to
    then some edge_missing_to
    else if not (elem e.to keys) && not (is_local_edge_target e.to)
    then some (dangling_edge e.to)
    else if is_empty e.from
    then some edge_missing_from
    else if not (elem e.from keys) && not (elem e.from ids)
    then some (edge_from_unknown e.from)
    else none

-- `if ... { return err }`, and what follows where there is no error
unfoldable pub or_problem : Option Problem → Option Problem → Option Problem
or_problem none rest = rest
or_problem (some e) rest = some e

unfoldable pub check_edges : List Str → List Str → List Edge → Option Problem
unfolding edge_problem or_problem
check_edges ids keys [] = none
check_edges ids keys (e ∷ es) = or_problem (edge_problem ids keys e) (check_edges ids keys es)

unfoldable pub importer_ids : List Importer → List Str
importer_ids ims = map (λ im. im.id) ims

unfoldable pub package_keys : List Package → List Str
package_keys ps = map (λ p. package_key p.id) ps

-- The three loops, one after the other.
unfoldable pub problem : Graph → Option Problem
unfolding check_importers check_packages check_edges or_problem importer_ids package_keys
problem g = or_problem (check_importers [] g.importers) (
    or_problem (check_packages [] g.packages)
      (check_edges (importer_ids g.importers) (package_keys g.packages) g.edges))

unfoldable pub checked : Graph → Graph × Option Problem
checked g =
    if is_current g.schema_version
    then (in_order g, problem (in_order g))
    else (g, some (unsupported_version g.schema_version))

-- `Validate`: the graph that it leaves behind the pointer, and what it reports.
unfoldable pub validate : Graph → Graph × Option Problem
validate g = checked (with_current_version g)
