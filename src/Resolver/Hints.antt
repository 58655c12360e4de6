-- ===== src/Resolver/Hints.antt =====
-- internal/resolver/hints.go: the versions of an earlier graph that a resolve may take again, with
-- the keys of incremental.go by which an edge of it is found.
use m.Base.{
  ℕ, ◌+◌, Bool, true, false, not, ◌&&◌, ◌||◌, Option, none, some, List, [], ◌∷◌, ◌++◌, Str, bytes,
  str_eq, elem, find, find_or, keys, has_prefix, take, drop, if◌then◌else◌,
}
use m.Base.Sort.{sort_strings}
use m.Deps.{Graph, Package, index_byte, last_index_byte, cut_at, package_key}
use m.Resolver.{External, satisfies}

-- `pinContext`
pub record PinContext : Type 0 where
  pub importer : Str
  pub dep_name : Str
  pub kind : Str
  pub range_spec : Str
  pub peer_context : Str

-- `reuseKey`
pub record ReuseKey : Type 0 where
  pub importer : Str
  pub dep_name : Str
  pub kind : Str
  pub range_spec : Str
  pub peer_context : Str
  pub override_hash : Str
  pub policy_fp : Str

-- `reuseKey.String`
unfoldable pub reuse_text : ReuseKey → Str
reuse_text k =
    k.importer
    ++ 0
      ∷ (k.dep_name
          ++ 0
            ∷ (k.kind
                ++ 0
                  ∷ (k.range_spec
                      ++ 0 ∷ (k.peer_context ++ 0 ∷ (k.override_hash ++ 0 ∷ k.policy_fp)))))

-- `graphHints`; a map that is nil is none where the code tells it from an empty one.
pub record GraphHints : Type 0 where
  pub graph : Option Graph
  pub incremental : Bool
  pub update_closure : List Str
  pub prior_specs : List (Str × Str)
  pub manifest_specs : List (Str × Str)
  pub prior_overrides : Option (List (Str × Str))
  pub current_overrides : List (Str × Str)
  pub override_changed : Bool
  pub policy_drift : Bool
  pub platform_drift : Bool
  pub policy_fp : Str
  pub reuse_index : Option (List (Str × Str))

-- `canReuse`
unfoldable pub can_reuse : GraphHints → Bool
can_reuse h = if h.override_changed || (h.policy_drift || h.platform_drift) then false else true

-- The loop of `hashOverrides` over the sorted keys.
unfoldable pub overrides_text : List (Str × Str) → List Str → Str
overrides_text m [] = []
overrides_text m (k ∷ ks) = k ++ 0 ∷ (find_or [] k m ++ 0 ∷ overrides_text m ks)

-- `hashOverrides`
unfoldable pub hash_overrides : External → List (Str × Str) → Str
unfolding overrides_text
hash_overrides x [] = []
hash_overrides x (e ∷ m) = x.digest (overrides_text (e ∷ m) (sort_strings (keys (e ∷ m))))

-- `base[n+at+1:]` where `at` is the index of the last '@' behind the first `n` bytes, else nothing
unfoldable pub version_behind : ℕ → Str → Str
version_behind n base = behind (last_index_byte (drop n base) b'@')
  where
    behind : Option ℕ → Str
    behind none = []
    behind (some at) = drop (n + at + 1) base

-- The version that `splitNameVersion` answers.
unfoldable pub split_version : Str → Str
unfolding version_behind
split_version base =
    if has_prefix base (bytes "@") then scoped (index_byte base b'/') else version_behind 0 base
  where
    scoped : Option ℕ → Str
    scoped none = []
    scoped (some slash) = version_behind slash base

-- The version that `parsePackageKey` answers.
unfoldable pub parsed_version : Str → Str
unfolding split_version cut_at
parsed_version key = split_version (cut_at b'#' key)

unfoldable pub reuse_key : External → GraphHints → PinContext → ReuseKey
unfolding hash_overrides
reuse_key x h pin = record {
  importer = pin.importer;
  dep_name = pin.dep_name;
  kind = pin.kind;
  range_spec = pin.range_spec;
  peer_context = pin.peer_context;
  override_hash = hash_overrides x (overrides h.prior_overrides);
  policy_fp = h.policy_fp;
}
  where
    overrides : Option (List (Str × Str)) → List (Str × Str)
    overrides none = h.current_overrides
    overrides (some prior) = prior

-- `err != nil || !ok` of `Satisfies`, negated
unfoldable pub is_satisfied : Option Bool → Bool
is_satisfied none = false
is_satisfied (some fits) = fits

-- What is left of `reusedVersion` behind the lookup.
unfoldable pub reusable : External → GraphHints → PinContext → Option Str → Option Str
unfolding is_satisfied
reusable x h pin none = none
reusable x h pin (some prior_key) =
    if elem prior_key h.update_closure
    then none
    else if is_satisfied (satisfies x (parsed_version prior_key) pin.range_spec)
    then some (parsed_version prior_key)
    else none

-- `reusedVersion`
unfoldable pub reused_version : External → GraphHints → PinContext → Option Str
unfolding can_reuse reusable
reused_version x h pin = if h.incremental && can_reuse h then in_index h.reuse_index else none
  where
    in_index : Option (List (Str × Str)) → Option Str
    in_index none = none
    in_index (some index) = reusable x h pin (find (reuse_text (reuse_key x h pin)) index)

-- The two lookups of `canPin`: both are there and differ.
unfoldable pub range_changed : Option Str → Option Str → Bool
range_changed none now = false
range_changed (some prior) none = false
range_changed (some prior) (some now) = not (str_eq prior now)

-- `canPin`, for a graph that is there.
unfoldable pub can_pin : GraphHints → Str → Bool
unfolding can_reuse range_changed
can_pin h name =
    if h.incremental
    then false
    else if not (can_reuse h)
    then false
    else not (range_changed (find name h.prior_specs) (find name h.manifest_specs))

-- The loop of `version`; the empty string stands for none.
unfoldable pub pinned_in : External → Str → Str → List Package → Str
unfolding is_satisfied
pinned_in x name rng [] = []
pinned_in x name rng (p ∷ ps) =
    let rest = pinned_in x name rng ps in
    if str_eq p.id.name name && is_satisfied (satisfies x p.id.version rng)
    then p.id.version
    else rest

-- `version`
unfoldable pub hinted_version : External → GraphHints → Str → Str → Str
unfolding pinned_in can_pin
hinted_version x h name rng = in_graph h.graph
  where
    in_graph : Option Graph → Str
    in_graph none = []
    in_graph (some g) = if can_pin h name then pinned_in x name rng g.packages else []

-- `stripHintVersionSuffix`
unfoldable pub strip_hint_version_suffix : Str → Str
unfolding cut_at
strip_hint_version_suffix version = at_paren (index_byte version b'(')
  where
    at_paren : Option ℕ → Str
    at_paren (some i) = take i version
    at_paren none = cut_at b'#' version

-- The first package that passes, for both loops of `pkg`.
unfoldable pub first_package : (Package → Bool) → List Package → Option Package
first_package p [] = none
first_package p (q ∷ qs) = if p q then some q else first_package p qs

unfoldable pub pkg_in : Str → Str → List Package → Option Package
unfolding first_package strip_hint_version_suffix package_key
pkg_in name version ps = or_second (
    first_package
      (λ p.
        str_eq (package_key p.id)
          (package_key (record { name = name; version = version; providers = [] })))
      ps)
  where
    base : Str
    base = strip_hint_version_suffix version

    or_second : Option Package → Option Package
    or_second (some p) = some p
    or_second none =
        first_package
          (λ p.
            str_eq p.id.name name
            && (has_prefix p.id.version (base ++ bytes "(")
                || has_prefix p.id.version (base ++ bytes "#")))
          ps

-- `pkg`
unfoldable pub hinted_pkg : GraphHints → Str → Str → Option Package
unfolding pkg_in can_pin
hinted_pkg h name version = in_graph h.graph
  where
    in_graph : Option Graph → Option Package
    in_graph none = none
    in_graph (some g) =
        if h.incremental
        then none
        else if can_pin h name
        then pkg_in name version g.packages
        else none
