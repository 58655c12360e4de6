-- ===== src/Resolver/Update.antt =====
-- internal/resolver/incremental.go: what an update resolves again, and the index by which it takes the
-- rest from the earlier graph.
use m.Base.{
  suc, ◌+◌, ◌≡◌, refl, not, ◌&&◌, Option, none, some, List, [], ◌∷◌, ◌++◌, Str, bytes, str_eq, elem,
  find, put, map, length, if◌then◌else◌, arith,
}
use m.Deps.{Edge, Package, Graph, package_key, join_comma, provider_parts}
use m.Workspace.Filter.{close}
use m.Workspace.Filter.Closure.{AllIn, ClosesTo, close-seed}
use m.Resolver.Hints.{ReuseKey, reuse_text}

-- `manifest.Dependency`
pub record Dependency : Type 0 where
  pub name : Str
  pub range : Str
  pub kind : Str

-- The names of the dependencies that are not peers.
unfoldable pub direct_names : List Dependency → List Str
direct_names [] = []
direct_names (d ∷ ds) =
    let rest = direct_names ds in if str_eq d.kind (bytes "peer") then rest else d.name ∷ rest

-- `targetSet`
unfoldable pub target_set : List Str → List Dependency → List Str
unfolding direct_names
target_set [] deps = direct_names deps
target_set (t ∷ targets) deps = t ∷ targets

-- The loop over the edges of the root, whose `seen`, queue and closure hold the same keys.
unfoldable pub seeds_from : List Str → List Str → List Edge → List Str
seeds_from names seen [] = seen
seeds_from names seen (e ∷ es) =
    seeds_from names
      (if str_eq e.from (bytes ".") && (elem e.name names && not (elem e.to seen))
        then seen ++ e.to ∷ []
        else seen)
      es

-- The targets of the edges from a key, in their order.
unfoldable pub targets_from : List Edge → Str → List Str
targets_from [] key = []
targets_from (e ∷ es) key =
    let rest = targets_from es key in if str_eq e.from key then e.to ∷ rest else rest

-- The loop over the queue, with a round for each key that can enter it.
unfoldable pub update_closure_over : List Str → List Edge → Option (List Str)
unfolding targets_from
update_closure_over seeds edges =
    close (λ queue. queue) (targets_from edges) (suc (length seeds + length edges)) seeds seeds

-- `buildUpdateClosure`, for a graph and a manifest that are there.
unfoldable pub build_update_closure : List Str → Graph → List Dependency → Option (List Str)
unfolding target_set seeds_from update_closure_over
build_update_closure targets prior deps =
    update_closure_over (seeds_from (target_set targets deps) [] prior.edges) prior.edges

unfoldable pub packages_by_key : List (Str × Package) → List Package → List (Str × Package)
packages_by_key m [] = m
packages_by_key m (p ∷ ps) = packages_by_key (put (package_key p.id) p m) ps

-- `peerCtx`
unfoldable pub peer_context_of : Option Package → Str
peer_context_of none = []
peer_context_of (some p) = join_comma (provider_parts p.id.providers)

unfoldable pub index_edges :
    Str → Str → List (Str × Package) → List (Str × Str) → List Edge → List (Str × Str)
unfolding peer_context_of
index_edges override_hash policy_fp by_key index [] = index
index_edges override_hash policy_fp by_key index (e ∷ es) =
    let k : ReuseKey = record {
      importer = e.from;
      dep_name = e.name;
      kind = e.kind;
      range_spec = e.range;
      peer_context = peer_context_of (find e.to by_key);
      override_hash = override_hash;
      policy_fp = policy_fp;
    } in
    index_edges override_hash policy_fp by_key (put (reuse_text k) e.to index) es

-- `buildReuseIndex`, for a graph that is there.
unfoldable pub build_reuse_index : Graph → Str → Str → List (Str × Str)
unfolding packages_by_key index_edges
build_reuse_index prior override_hash policy_fp =
    index_edges override_hash policy_fp (packages_by_key [] prior.packages) [] prior.edges

targets_from-AllIn :
    (edges : List Edge) (key : Str) → AllIn (targets_from edges key) (map (λ e. e.to) edges)
unfolding targets_from elem
targets_from-AllIn [] key d h = h
targets_from-AllIn (e ∷ es) key d h = ground (arith, targets_from-AllIn es key d)

length-map_to : (edges : List Edge) → length (map (λ e. e.to) edges) ≡ length edges
length-map_to [] = refl
length-map_to (e ∷ es) = omega (arith, length-map_to es)

-- The loop empties its queue: what an update resolves again is the least set that holds the targets
-- of the root and with each key those of its edges.
pub build_update_closure-ClosesTo :
    (targets : List Str) (prior : Graph) (deps : List Dependency)
    → ClosesTo
        (targets_from prior.edges)
        (seeds_from (target_set targets deps) [] prior.edges)
        (build_update_closure targets prior deps)
unfolding build_update_closure update_closure_over
build_update_closure-ClosesTo targets prior deps =
    let seeds = seeds_from (target_set targets deps) [] prior.edges in
    close-seed (λ queue. queue) (λ a xs. refl) (λ xs. refl) (targets_from prior.edges)
      (map (λ e. e.to) prior.edges) (targets_from-AllIn prior.edges)
      (suc (length seeds + length prior.edges)) seeds (omega (arith, length-map_to prior.edges))
