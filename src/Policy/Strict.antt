-- ===== src/Policy/Strict.antt =====
-- internal/policy/policy.go: EncodeJSON and DecodeJSON, one after the other, and what becomes of the
-- setting of strict peer dependencies.
use m.Base.{
  ◌≡◌, refl, ap, sym, ◌∙◌, Bool, true, none, some, List, [], ◌∷◌, Str, bytes, str_eq, elem, arith,
  Bool-cases, inl, inr,
}
use m.Base.Int.{ℤ, pos, negsuc, is_zero}
use m.Apperr.{ok}
use m.Policy.{
  Policy, Codec, is_one, or_text, or_one, known_trust, known_linker, with_trust, normalize_policy,
  checked_linker, checked_trust, checked_version, encode_policy, accepted_policy, strict_field,
  with_strict, decode_policy,
}

-- A policy that Normalize accepts and leaves as it is.
pub record IsNormalPolicy (p : Policy) : Type 0 where
  pub version : p.schema_version ≡ pos 1
  pub trust : known_trust p.script_trust ≡ true
  pub linker : known_linker p.linker ≡ true

one : (v : ℤ) → is_one v ≡ true → v ≡ pos 1
unfolding is_one
one (pos n) h = ground arith
one (negsuc n) h = cc

checked_linker-accepts :
    (p : Policy)
    → (checked_linker p).1 ≡ none
    → (checked_linker p ≡ (p, none)) × (known_linker p.linker ≡ true)
unfolding checked_linker
checked_linker-accepts p h = elim (Bool-cases (known_linker p.linker)) [
  | inl known ↦ rw known (refl, refl)
  | inr unknown ↦ absurd (ground arith)
]

checked_trust-accepts :
    (p : Policy)
    → (checked_trust p).1 ≡ none
    → (checked_trust p ≡ (p, none))
      × (known_trust p.script_trust ≡ true)
      × (known_linker p.linker ≡ true)
unfolding checked_trust
checked_trust-accepts p h = elim (Bool-cases (known_trust p.script_trust)) [
  | inl known ↦
      let (kept, linker) = checked_linker-accepts p (rw known at h) in
      (rw known kept, known, linker)
  | inr unknown ↦ absurd (ground arith)
]

checked_version-accepts :
    (p : Policy) → (checked_version p).1 ≡ none → IsNormalPolicy (checked_version p).0
unfolding checked_version
checked_version-accepts p h = elim (Bool-cases (is_one p.schema_version)) [
  | inl now ↦
      let (kept, trust, linker) = checked_trust-accepts (with_trust p) (rw now at h) in
      rw (now, kept)
        (unfold with_trust in
          record { version = one p.schema_version now; trust = trust; linker = linker })
  | inr other ↦ absurd (ground arith)
]

-- A policy that Normalize accepts is normal.
pub normalize_policy-IsNormalPolicy :
    (p : Policy) → (normalize_policy p).1 ≡ none → IsNormalPolicy (normalize_policy p).0
unfolding normalize_policy
normalize_policy-IsNormalPolicy p h = checked_version-accepts _ h

known_or_ask : (t : Str) → known_trust t ≡ true → or_text (bytes "ask") t ≡ t
unfolding known_trust or_text str_eq
known_or_ask [] h = cc
known_or_ask (c ∷ t) h = refl

kept_version : (v : ℤ) → v ≡ pos 1 → (or_one v ≡ v) × (is_one v ≡ true)
unfolding or_one is_one is_zero
kept_version v h = rw h (refl, refl)

-- Normalize accepts a normal policy and leaves it as it is.
pub IsNormalPolicy-normalize_policy :
    (p : Policy) → IsNormalPolicy p → normalize_policy p ≡ (p, none)
unfolding normalize_policy checked_version checked_trust checked_linker with_trust
IsNormalPolicy-normalize_policy p n =
    let (kept, now) = kept_version p.schema_version n.version in
    rw (kept, now, known_or_ask p.script_trust n.trust, n.trust, n.linker) refl

-- The encoder has a text for the policy, from which the decoder reads the policy; the field of the
-- strict peer dependencies is left out of the text when it is false.
pub record ReadsBackPolicy (codec : Codec) (p : Policy) : Type 0 where
  pub text : Str
  pub fields : List Str
  pub marshalled : codec.marshal p ≡ some text
  pub names : codec.unmarshal_fields text ≡ some fields
  pub omitted : elem strict_field fields ≡ p.strict_peer_dependencies
  pub unmarshalled : codec.unmarshal text ≡ some p

strict_now :
    (p : Policy) (fields : List Str)
    → elem strict_field fields ≡ p.strict_peer_dependencies
    → with_strict fields p ≡ record p { strict_peer_dependencies = true }
unfolding with_strict
strict_now p fields h = elim (Bool-cases (elem strict_field fields)) [
  | inl present ↦
      rw present (ap (λ (b : Bool). record p { strict_peer_dependencies = b }) (sym h ∙ present))
  | inr absent ↦ rw absent refl
]

with_strict_again :
    (p : Policy) (fields : List Str)
    → IsNormalPolicy p
    → elem strict_field fields ≡ p.strict_peer_dependencies
    → accepted_policy (normalize_policy (with_strict fields p))
      ≡ ok (record p { strict_peer_dependencies = true })
unfolding accepted_policy
with_strict_again p fields n h =
    let strict = record p { strict_peer_dependencies = true } in
    rw (strict_now p fields h) (
      rw
        (IsNormalPolicy-normalize_policy strict
          (record { version = n.version; trust = n.trust; linker = n.linker }))
        refl)

-- EncodeJSON of a policy that Normalize accepts, when the codec reads back what Normalize leaves
-- of it and leaves out strictPeerDependencies exactly when it is false: DecodeJSON of the text is
-- the policy that EncodeJSON left behind with strict peer dependencies on, whether they were on or
-- off.
pub decode_policy-encode_policy :
    (codec : Codec) (p : Policy)
    → (normalize_policy p).1 ≡ none
    → ReadsBackPolicy codec (normalize_policy p).0
    → (s : Str) × (encode_policy codec p ≡ ((normalize_policy p).0, ok s))
      × (decode_policy codec s
          ≡ ok (record (normalize_policy p).0 { strict_peer_dependencies = true }))
unfolding encode_policy decode_policy
decode_policy-encode_policy codec p h r = (
  r.text,
  rw (h, r.marshalled) refl,
  rw (r.names, r.unmarshalled)
      (with_strict_again (normalize_policy p).0 r.fields (normalize_policy-IsNormalPolicy p h)
        r.omitted),
)
