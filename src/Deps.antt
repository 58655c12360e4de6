-- ===== src/Deps.antt =====
-- internal/graph: the dependency graph of an install, as types.go, id.go and edge.go declare it.
pub mod Target
pub mod Sorting
pub mod Validate
pub mod Encode
pub mod Diff
pub mod Builder
use m.Base.{
  ℕ, ◌+◌, Bool, Option, none, some, List, [], ◌∷◌, ◌++◌, Str, bytes, has_prefix, take, drop, ◌==◌,
  if◌then◌else◌,
}
use mathlib.Core.Option
use m.Base.Int.{ℤ}

-- `PeerProvider`; a `PeerProviderContext` is a list of them.
pub record PeerProvider : Type 0 where
  pub name : Str
  pub version : Str
  pub key : Str

-- `PackageID`
pub record PackageId : Type 0 where
  pub name : Str
  pub version : Str
  pub providers : List PeerProvider

-- `Edge`; a `DepKind` is a string, which a document may fill with anything.
pub record Edge : Type 0 where
  pub from : Str
  pub name : Str
  pub to : Str
  pub kind : Str
  pub range : Str
  pub optional : Bool

-- `Package`
pub record Package : Type 0 where
  pub id : PackageId
  pub integrity : Str
  pub tarball_url : Str

-- `Importer`
pub record Importer : Type 0 where
  pub id : Str
  pub name : Str
  pub path : Str

-- `Graph`
pub record Graph : Type 0 where
  pub schema_version : ℤ
  pub importers : List Importer
  pub packages : List Package
  pub edges : List Edge

-- strings.Join(parts, ",")
unfoldable pub join_comma : List Str → Str
join_comma [] = []
join_comma (s ∷ []) = s
join_comma (s ∷ t ∷ rest) = s ++ b',' ∷ join_comma (t ∷ rest)

-- `p.Key`, or the name and the version where that is empty
unfoldable pub provider_part : PeerProvider → Str
provider_part p = part p.key
  where
    part : Str → Str
    part [] = p.name ++ b'@' ∷ p.version
    part (c ∷ k) = c ∷ k

unfoldable pub provider_parts : List PeerProvider → List Str
unfolding provider_part
provider_parts [] = []
provider_parts (p ∷ ps) = provider_part p ∷ provider_parts ps

-- `if suffix != ""`
unfoldable pub with_suffix : Str → Str → Str
with_suffix base [] = base
with_suffix base (c ∷ suffix) = base ++ b'#' ∷ c ∷ suffix

-- `PackageID.Key`, with `PeerProviderContext.String`
unfoldable pub package_key : PackageId → Str
unfolding with_suffix join_comma provider_parts
package_key id =
    with_suffix (id.name ++ b'@' ∷ id.version) (join_comma (provider_parts id.providers))

-- strings.IndexByte; `none` stands for -1.
unfoldable pub index_byte : Str → ℕ → Option ℕ
index_byte [] b = none
index_byte (c ∷ s) b = if c == b then some 0 else Option.map (λ i. i + 1) (index_byte s b)

-- strings.LastIndexByte
unfoldable pub last_index_byte : Str → ℕ → Option ℕ
last_index_byte [] b = none
last_index_byte (c ∷ s) b = later (last_index_byte s b)
  where
    later : Option ℕ → Option ℕ
    later (some i) = some (i + 1)
    later none = if c == b then some 0 else none

-- `to[:i]` where `i` is the index that was found, else `to`
unfoldable pub sliced_to : Str → Option ℕ → Str
sliced_to to none = to
sliced_to to (some i) = take i to

unfoldable pub cut_at : ℕ → Str → Str
unfolding sliced_to
cut_at b to = sliced_to to (index_byte to b)

-- `to[:n+at]` where `at` is the index of the last '@' behind the first `n` bytes, else `to`
unfoldable pub cut_version : ℕ → Str → Str
unfolding sliced_to
cut_version n to = sliced_to to (Option.map (λ at. n + at) (last_index_byte (drop n to) b'@'))

unfoldable pub cut_scoped : Str → Option ℕ → Str
unfolding cut_version
cut_scoped to none = to
cut_scoped to (some slash) = cut_version slash to

-- The cases of `TargetNameFromKey` for a key with a scope and without.
unfoldable pub base_name : Str → Str
unfolding cut_version cut_scoped
base_name to =
    if has_prefix to (bytes "@") then cut_scoped to (index_byte to b'/') else cut_version 0 to

-- `TargetNameFromKey`
unfoldable pub target_name_from_key : Str → Str
unfolding cut_at base_name
target_name_from_key key = base_name (cut_at b'~' (cut_at b'#' key))
