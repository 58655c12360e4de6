-- ===== src/Deps/Builder.antt =====
-- internal/graph/builder.go, and the markers of provisional peers of edge.go.
use m.Base.{
  ◌≡◌, refl, subst, Bool, false, Option, none, some, List, [], ◌∷◌, ◌++◌, Str, bytes, str_eq,
  has_prefix, map, if◌then◌else◌,
}
use m.Apperr.{Result, ok}
use m.Deps.{
  PeerProvider, PackageId, Edge, Package, Importer, Graph, package_key, target_name_from_key,
}
use m.Deps.Validate.{Problem, schema, normalize_id, or_target, validate}
use m.Deps.Validate.Frozen.{IsFrozen, validate-IsFrozen}
use m.Deps.Encode.{accepted}

-- `Builder`; a method that changes it answers the new one.
pub record Builder : Type 0 where
  pub importers : List Importer
  pub packages : List Package
  pub edges : List Edge

-- `NewBuilder`
unfoldable pub new_builder : Builder
new_builder = record { importers = []; packages = []; edges = [] }

-- `Importer`
unfoldable pub add_importer : Builder → Str → Str → Builder
add_importer b id name = record b {
  importers = b.importers ++ record { id = id; name = name; path = id } ∷ [];
}

-- `Package`
unfoldable pub add_package : Builder → PackageId → Str → Str → Builder
add_package b id integrity tarball = record b {
  packages =
      b.packages
      ++ record { id = normalize_id id; integrity = integrity; tarball_url = tarball } ∷ [];
}

-- `EdgeEx`
unfoldable pub add_edge_ex : Builder → Str → Str → Str → Str → Str → Bool → Builder
add_edge_ex b from name to kind rng optional = record b {
  edges =
      b.edges
      ++ record {
        from = from;
        name = or_target name to;
        to = to;
        kind = kind;
        range = rng;
        optional = optional;
      }
        ∷ [];
}

-- `Edge`
unfoldable pub add_graph_edge : Builder → Str → Str → Str → Str → Builder
unfolding add_edge_ex
add_graph_edge b from to kind rng = add_edge_ex b from (target_name_from_key to) to kind rng false

-- The loop of `RemapPackageKey` over the packages, up to the first with the key.
unfoldable pub with_new_id : Str → PackageId → List Package → List Package
with_new_id old_key id [] = []
with_new_id old_key id (p ∷ ps) =
    if str_eq (package_key p.id) old_key
    then record p { id = id } ∷ ps
    else p ∷ with_new_id old_key id ps

unfoldable pub renamed : Str → Str → Str → Str
renamed old_key new_key key = if str_eq key old_key then new_key else key

unfoldable pub with_new_key : Str → Str → Edge → Edge
unfolding renamed
with_new_key old_key new_key e = record e {
  from = renamed old_key new_key e.from;
  to = renamed old_key new_key e.to;
}

-- `RemapPackageKey`
unfoldable pub remap_package_key : Builder → Str → Str → PackageId → Builder
unfolding with_new_id with_new_key
remap_package_key b old_key new_key id = record b {
  packages = with_new_id old_key (normalize_id id) b.packages;
  edges = map (with_new_key old_key new_key) b.edges;
}

-- The loop of `RemovePackage`
unfoldable pub without_package : Str → List Package → List Package
without_package key [] = []
without_package key (p ∷ ps) =
    if str_eq (package_key p.id) key then ps else p ∷ without_package key ps

-- `RemovePackage`
unfoldable pub remove_package : Builder → Str → Builder
unfolding without_package
remove_package b key = record b { packages = without_package key b.packages }

unfoldable pub graph_of_builder : Builder → Graph
graph_of_builder b = record {
  schema_version = schema;
  importers = b.importers;
  packages = b.packages;
  edges = b.edges;
}

-- `Build`
unfoldable pub build_deps : Builder → Result Graph
unfolding graph_of_builder
build_deps b = accepted (validate (graph_of_builder b))

-- `IsProvisionalPeerKey`
unfoldable pub is_provisional_peer_key : Str → Bool
is_provisional_peer_key key = has_prefix key (bytes "provisional:")

-- `ProvisionalPeerProvider`
unfoldable pub provisional_peer_provider : Str → PeerProvider
provisional_peer_provider instance_key = record {
  name = [];
  version = [];
  key = bytes "provisional:" ++ instance_key;
}

accepted_graph :
    (r : Graph × Option Problem) (g : Graph) → accepted r ≡ ok g → (r.1 ≡ none) × (r.0 ≡ g)
unfolding accepted
accepted_graph (h, none) g e = (refl, cc)
accepted_graph (h, some p) g e = absurd (cc)

-- What Build answers is frozen.
pub build_deps-IsFrozen : (b : Builder) (g : Graph) → build_deps b ≡ ok g → IsFrozen g
unfolding build_deps
build_deps-IsFrozen b g e =
    let (valid, same) = accepted_graph (validate (graph_of_builder b)) g e in
    subst IsFrozen same (validate-IsFrozen (graph_of_builder b) valid)
