-- ===== src/Resolver/Dedupe.antt =====
-- internal/resolver/dedupe.go: several versions of a package made one, after a resolve. A range over a
-- map visits its keys in the order in which they came in.
pub mod Dropped
use m.Base.{
  ℕ, ◌+◌, Bool, true, false, not, ◌&&◌, ◌||◌, Option, none, some, List, [], ◌∷◌, ◌++◌, Str, str_eq,
  elem, find, find_or, put, length, take, drop, ltb, if◌then◌else◌,
}
use m.Base.Sort.{sort, sort_strings}
use m.Base.Tables.{put_by, range_over}
use m.Apperr.{Result, ok, err, ◌>>=◌}
use m.Advisory.{compares, compare_versions, is_above}
use m.Deps.{
  PackageId, Package, Importer, Edge, Graph, package_key, target_name_from_key, index_byte,
}
use m.Deps.Validate.{is_empty, or_target}
use m.Deps.Builder.{Builder, new_builder, add_importer, add_package, add_edge_ex, build_deps}
use m.Resolver.{External, satisfies}
use m.Resolver.Hints.{is_satisfied}

-- `counts[p.ID.Name]++`
unfoldable pub count_names : List (Str × ℕ) → List Package → List (Str × ℕ)
count_names counts [] = counts
count_names counts (p ∷ ps) = count_names (put p.id.name (find_or 0 p.id.name counts + 1) counts) ps

-- `duplicateNamesInGraph`
unfoldable pub duplicate_names_in_graph : Graph → List Str
unfolding count_names
duplicate_names_in_graph g =
    sort_strings
      (range_over (λ name n. if ltb 1 n then name ∷ [] else []) (count_names [] g.packages))

-- The set of the versions under a name.
unfoldable pub versions_of : Str → List (Str × Unit {0}) → List Package → List (Str × Unit {0})
versions_of name versions [] = versions
versions_of name versions (p ∷ ps) =
    versions_of name
      (if str_eq p.id.name name then put_by str_eq p.id.version tt versions else versions) ps

-- The loop of `edgeRangesForName`: each range once.
unfoldable pub ranges_from : Str → List Str → List Edge → List Str
ranges_from name ranges [] = ranges
ranges_from name ranges (e ∷ es) =
    ranges_from name
      (if not (str_eq (or_target e.name e.to) name)
        then ranges
        else if is_empty e.range || elem e.range ranges
        then ranges
        else ranges ++ e.range ∷ [])
      es

-- `edgeRangesForName`
unfoldable pub edge_ranges_for_name : Graph → Str → List Str
unfolding ranges_from
edge_ranges_for_name g name = sort_strings (ranges_from name [] g.edges)

module _ (x : External) where
  -- The loop over the ranges.
  unfoldable pub fits_all : Str → List Str → Bool
  fits_all ver [] = true
  fits_all ver (rng ∷ rngs) =
      if is_satisfied (satisfies x ver rng) then fits_all ver rngs else false

  unfoldable pub fitting : List Str → List (Str × Unit {0}) → List Str
  unfolding fits_all
  fitting ranges versions =
      range_over (λ ver v. if fits_all ver ranges then ver ∷ [] else []) versions

  -- `cmp > 0`, where an error counts as equal.
  unfoldable pub higher : Str → Str → Bool
  higher a b = compares is_above (compare_versions x.new_version x.order a b)

  unfoldable pub first_of_list : List Str → Option Str
  first_of_list [] = none
  first_of_list (v ∷ vs) = some v

  -- `pickConsolidationVersion`
  unfoldable pub pick_consolidation_version : Graph → Str → Option Str
  unfolding fitting higher first_of_list
  pick_consolidation_version g name =
      let versions = versions_of name [] g.packages in
      let ranges = edge_ranges_for_name g name in
      if ltb (length versions) 2
      then none
      else if ltb (length ranges) 1
      then none
      else first_of_list (sort higher (fitting ranges versions))

-- `packageKeyVersion`
unfoldable pub cut_before : Option ℕ → Str → Str
cut_before none s = s
cut_before (some i) s = take i s

unfoldable pub package_key_version : Str → Str
unfolding cut_before
package_key_version key = behind_at (index_byte key b'@')
  where
    behind_at : Option ℕ → Str
    behind_at none = []
    behind_at (some at) =
        let rest = drop (at + 1) key in
        let base = cut_before (index_byte rest b'#') rest in cut_before (index_byte base b'(') base

-- `remapKeyPeerContext`
unfoldable pub with_peers : Str → Str → Option ℕ → Option ℕ → Str
with_peers old_key new_key none own = new_key
with_peers old_key new_key (some i) none = new_key ++ drop i old_key
with_peers old_key new_key (some i) (some j) = new_key

unfoldable pub remap_key_peer_context : Str → Str → Str
unfolding with_peers
remap_key_peer_context old_key new_key =
    with_peers old_key new_key (index_byte old_key b'#') (index_byte new_key b'#')

unfoldable pub add_importers : Builder → List Importer → Builder
add_importers b [] = b
add_importers b (im ∷ ims) = add_importers (add_importer b im.id im.name) ims

-- `p.ID.Name == name && p.ID.Version != targetVersion`
unfoldable pub is_dropped : Str → Str → Package → Bool
is_dropped name target p = str_eq p.id.name name && not (str_eq p.id.version target)

unfoldable pub add_kept : Str → Str → Builder → List Package → Builder
add_kept name target b [] = b
add_kept name target b (p ∷ ps) =
    add_kept name target
      (if is_dropped name target p then b else add_package b p.id p.integrity p.tarball_url) ps

unfoldable pub new_target : Str → Str → Str → Str
new_target name target to =
    if str_eq (target_name_from_key to) name && not (str_eq (package_key_version to) target)
    then remap_key_peer_context to
        (package_key (record { name = name; version = target; providers = [] }))
    else to

unfoldable pub add_retargeted : Str → Str → Builder → List Edge → Builder
unfolding new_target
add_retargeted name target b [] = b
add_retargeted name target b (e ∷ es) =
    add_retargeted name target
      (add_edge_ex b e.from e.name (new_target name target e.to) e.kind e.range e.optional) es

-- What `remapPackageNameVersion` puts into its builder.
unfoldable pub remapped_parts : Graph → Str → Str → Builder
unfolding new_builder
remapped_parts g name target =
    add_retargeted name target
      (add_kept name target (add_importers new_builder g.importers) g.packages) g.edges

-- `remapPackageNameVersion`
unfoldable pub remap_package_name_version : Graph → Str → Str → Result Graph
unfolding remapped_parts
remap_package_name_version g name target = build_deps (remapped_parts g name target)

-- The body of the loop over the names.
unfoldable pub consolidate_name : Graph → Str → Option Str → Result Graph
consolidate_name g name none = ok g
consolidate_name g name (some target) = remap_package_name_version g name target

unfoldable pub consolidate_names : External → List Str → Graph → Result Graph
unfolding consolidate_name
consolidate_names x [] g = ok g
consolidate_names x (name ∷ names) g =
    consolidate_name g name (pick_consolidation_version x g name) >>= λ h.
    consolidate_names x names h

-- `consolidateDuplicateNames`; a graph that is nil is none.
unfoldable pub consolidate_duplicate_names : External → Graph → Option Graph → Result Graph
unfolding consolidate_names
consolidate_duplicate_names x g none = ok g
consolidate_duplicate_names x g (some prior) =
    consolidate_names x (duplicate_names_in_graph prior) g
