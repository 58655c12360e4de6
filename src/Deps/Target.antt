-- ===== src/Deps/Target.antt =====
-- internal/graph/edge.go: `TargetNameFromKey` of the key of a package.
use m.Base.{
  ℕ, zero, suc, ◌+◌, ◌-◌, ◌≤◌, ◌≡◌, ◌≢◌, refl, ap, ◌∙◌, true, false, none, some, [], ◌∷◌, ◌++◌, Str,
  bytes, length, length-drop, take, drop, has_prefix, ◌==◌, arith, Bool-cases, Option-cases, inl,
  inr,
}
use mathlib.Core.Option
use m.Deps.{
  PackageId, package_key, target_name_from_key, index_byte, last_index_byte, cut_at, cut_version,
  base_name, cut_scoped, sliced_to, with_suffix, join_comma, provider_parts,
}

-- A byte that does not stand in a string.
abbrev pub Lacks : ℕ → Str → Type 0
Lacks b s = index_byte s b ≡ none

Lacks-tail : (b c : ℕ) (s : Str) → Lacks b (c ∷ s) → ((c == b) ≡ false) × Lacks b s
unfolding index_byte
Lacks-tail b c s h = ground arith

index_byte-append : (b : ℕ) (s t : Str) → Lacks b s → index_byte (s ++ b ∷ t) b ≡ some (length s)
unfolding index_byte
index_byte-append b [] t h = ground arith
index_byte-append b (c ∷ s) t h =
    let (other, rest) = Lacks-tail b c s h in
    rw (other, index_byte-append b s t rest) (ground arith)

Lacks-append : (b : ℕ) (s t : Str) → Lacks b s → Lacks b t → Lacks b (s ++ t)
unfolding index_byte
Lacks-append b [] t h k = k
Lacks-append b (c ∷ s) t h k =
    let (other, rest) = Lacks-tail b c s h in rw (other, Lacks-append b s t rest k) refl

Lacks-last : (b : ℕ) (s : Str) → Lacks b s → last_index_byte s b ≡ none
unfolding index_byte last_index_byte
Lacks-last b [] h = refl
Lacks-last b (c ∷ s) h =
    let (other, rest) = Lacks-tail b c s h in rw (Lacks-last b s rest, other) refl

last_index_byte-append :
    (b : ℕ) (s t : Str) → Lacks b t → last_index_byte (s ++ b ∷ t) b ≡ some (length s)
unfolding last_index_byte
last_index_byte-append b [] t h = rw (Lacks-last b t h) (ground arith)
last_index_byte-append b (c ∷ s) t h = rw (last_index_byte-append b s t h) (ground arith)

take-length_append : (s t : Str) → take (length s) (s ++ t) ≡ s
unfolding take
take-length_append [] [] = refl
take-length_append [] (c ∷ t) = refl
take-length_append (c ∷ s) t = ap (◌∷◌ c) (take-length_append s t)

drop-append_le : (n : ℕ) (s t : Str) → n ≤ length s → drop n (s ++ t) ≡ drop n s ++ t
unfolding drop
drop-append_le zero [] [] h = refl
drop-append_le zero [] (c ∷ t) h = refl
drop-append_le (suc n) [] t h = absurd (omega arith)
drop-append_le zero (c ∷ s) t h = refl
drop-append_le (suc n) (c ∷ s) t h = drop-append_le n s t (omega arith)

cut_at-Lacks : (b : ℕ) (s : Str) → Lacks b s → cut_at b s ≡ s
unfolding cut_at sliced_to
cut_at-Lacks b s h = rw (h) refl

cut_at-append : (b : ℕ) (s t : Str) → Lacks b s → cut_at b (s ++ b ∷ t) ≡ s
unfolding cut_at sliced_to
cut_at-append b s t h = rw (index_byte-append b s t h) (take-length_append s (b ∷ t))

cut_version-append :
    (n : ℕ) (s t : Str) → Lacks b'@' t → n ≤ length s → cut_version n (s ++ b'@' ∷ t) ≡ s
unfolding cut_version sliced_to
cut_version-append n s t h le =
    rw (drop-append_le n s (b'@' ∷ t) le, last_index_byte-append b'@' (drop n s) t h)
      (ap (λ (k : ℕ). take k (s ++ b'@' ∷ t)) (omega (arith, length-drop n s))
        ∙ take-length_append s (b'@' ∷ t))

-- A name as registries take it: without the marks of a key, and with a slash behind a scope.
pub record IsRegistryName (name : Str) : Type 0 where
  pub filled : name ≢ []
  pub no_hash : Lacks b'#' name
  pub no_tilde : Lacks b'~' name
  pub scoped : has_prefix name (bytes "@") ≡ true → index_byte name b'/' ≢ none

-- A version has none of the marks of a key.
pub record IsVersion (version : Str) : Type 0 where
  pub no_at : Lacks b'@' version
  pub no_hash : Lacks b'#' version
  pub no_tilde : Lacks b'~' version

slash_within :
    (b i : ℕ) (s t : Str)
    → index_byte s b ≡ some i
    → (index_byte (s ++ t) b ≡ some i) × (i ≤ length s)
unfolding index_byte
slash_within b i [] t h = absurd (ground arith)
slash_within b i (c ∷ s) t h = ground (arith, slash_within b (i - 1) s t)

cut_scoped-append :
    (s v : Str)
    → Lacks b'@' v
    → index_byte s b'/' ≢ none
    → cut_scoped (s ++ b'@' ∷ v) (index_byte (s ++ b'@' ∷ v) b'/') ≡ s
unfolding cut_scoped
cut_scoped-append s v h some_slash = elim (Option-cases (index_byte s b'/')) [
  | inl missing ↦ absurd (some_slash missing)
  | inr (i, found) ↦
      let (eq, le) = slash_within b'/' i s (b'@' ∷ v) found in
      rw (eq) (cut_version-append i s v h le)
]

base_name-append : (s v : Str) → IsRegistryName s → Lacks b'@' v → base_name (s ++ b'@' ∷ v) ≡ s
unfolding base_name has_prefix
base_name-append [] v n h = absurd (n.filled refl)
base_name-append (c ∷ s) v n h = elim (Bool-cases (c == b'@')) [
  | inl scope ↦ rw (base_name, scope) (cut_scoped-append (c ∷ s) v h (n.scoped (ground arith)))
  | inr plain ↦ rw (base_name, plain) (cut_version-append 0 (c ∷ s) v h (omega arith))
]

Lacks-base :
    (b : ℕ) (name version : Str)
    → (b'@' == b) ≡ false
    → Lacks b name
    → Lacks b version
    → Lacks b (name ++ b'@' ∷ version)
unfolding index_byte
Lacks-base b name version at h k =
    Lacks-append b name (b'@' ∷ version) h (rw (at) (ap (Option.map (λ i. i + 1)) k))

cut_at-with_suffix :
    (base suffix : Str) → Lacks b'#' base → cut_at b'#' (with_suffix base suffix) ≡ base
unfolding with_suffix
cut_at-with_suffix base [] h = cut_at-Lacks b'#' base h
cut_at-with_suffix base (c ∷ suffix) h = cut_at-append b'#' base (c ∷ suffix) h

-- TargetNameFromKey of the key of a package is its name, whatever its peer providers are, when the
-- name and the version are of the form that registries take.
pub target_name_from_key-package_key :
    (id : PackageId)
    → IsRegistryName id.name
    → IsVersion id.version
    → target_name_from_key (package_key id) ≡ id.name
unfolding target_name_from_key package_key
target_name_from_key-package_key id n v =
    let base = id.name ++ b'@' ∷ id.version in
    ap (λ to. base_name (cut_at b'~' to))
      (cut_at-with_suffix base (join_comma (provider_parts id.providers))
        (Lacks-base b'#' id.name id.version refl n.no_hash v.no_hash))
    ∙ ap base_name
        (cut_at-Lacks b'~' base (Lacks-base b'~' id.name id.version refl n.no_tilde v.no_tilde))
    ∙ base_name-append id.name id.version n v.no_at
