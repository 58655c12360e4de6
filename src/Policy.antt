-- ===== src/Policy.antt =====
-- internal/policy/policy.go: the policy of resolving and installing, and its JSON form.
pub mod Strict
pub mod Org
use m.Base.{
  Bool, true, false, ◌||◌, Option, none, some, List, [], ◌∷◌, Str, bytes, str_eq, elem, ltb, ◌==◌,
  if◌then◌else◌,
}
use m.Base.Int.{ℤ, pos, negsuc, is_zero}
use m.Apperr.{Code, Error, Result, ok, err}

-- `Policy`
pub record Policy : Type 0 where
  pub schema_version : ℤ
  pub script_trust : Str
  pub offline : Bool
  pub linker : Str
  pub minimum_release_age : ℤ
  pub reject_deprecated : Bool
  pub auto_install_peers : Bool
  pub strict_peer_dependencies : Bool

unfoldable pub config_error : Str → Str → Error
config_error op subject = record { code = Code.config; op = op; subject = subject }

-- The constant `SchemaVersion` is 1, and so is `orgPolicySchemaVersion`.
unfoldable pub is_one : ℤ → Bool
is_one (pos n) = n == 1
is_one (negsuc n) = false

unfoldable pub or_text : Str → Str → Str
or_text default [] = default
or_text default (c ∷ s) = c ∷ s

-- The zero version stands for the current one.
unfoldable pub or_one : ℤ → ℤ
or_one v = if is_zero v then pos 1 else v

unfoldable pub known_trust : Str → Bool
known_trust t = str_eq t (bytes "allow") || str_eq t (bytes "deny") || str_eq t (bytes "ask")

-- `p.Linker != ""` and its switch
unfoldable pub known_linker : Str → Bool
known_linker [] = true
known_linker (c ∷ l) =
    str_eq (c ∷ l) (bytes "auto")
    || str_eq (c ∷ l) (bytes "hoisted")
    || str_eq (c ∷ l) (bytes "isolated")

pub policy_error : Error
policy_error = config_error (bytes "policy.normalize") (bytes "policy")

-- The default of an empty `ScriptTrust`.
unfoldable pub with_trust : Policy → Policy
with_trust p = record p { script_trust = or_text (bytes "ask") p.script_trust }

-- The rest of `Normalize` from each of its checks on.
unfoldable pub checked_linker : Policy → Policy × Option Error
checked_linker p = if known_linker p.linker then (p, none) else (p, some policy_error)

unfoldable pub checked_trust : Policy → Policy × Option Error
checked_trust p = if known_trust p.script_trust then checked_linker p else (p, some policy_error)

unfoldable pub checked_version : Policy → Policy × Option Error
checked_version p =
    if is_one p.schema_version then checked_trust (with_trust p) else (p, some policy_error)

-- `Normalize`: the policy that it leaves behind the pointer, and its error.
unfoldable pub normalize_policy : Policy → Policy × Option Error
normalize_policy p = checked_version (record p { schema_version = or_one p.schema_version })

-- What encoding/json writes of a policy and reads of a text: the names of the fields that stand in it
-- and the policy; no result where it reports an error.
pub record Codec : Type 0 where
  pub marshal : Policy → Option Str
  pub unmarshal_fields : Str → Option (List Str)
  pub unmarshal : Str → Option Policy

unfoldable pub encoded : Option Error → Option Str → Result Str
unfolding config_error
encoded (some e) text = err e
encoded none (some s) = ok s
encoded none none = err (config_error (bytes "policy.encode") (bytes "policy"))

-- `EncodeJSON`: the policy that it leaves behind the pointer, and the text.
unfoldable pub encode_policy : Codec → Policy → Policy × Result Str
unfolding encoded
encode_policy codec p = let (p', e) = normalize_policy p in (p', encoded e (codec.marshal p'))

unfoldable pub accepted_policy : Policy × Option Error → Result Policy
accepted_policy (p, none) = ok p
accepted_policy (p, some e) = err e

abbrev pub strict_field : Str
strict_field = bytes "strictPeerDependencies"

-- `if _, ok := raw["strictPeerDependencies"]; !ok`
unfoldable pub with_strict : List Str → Policy → Policy
with_strict fields p =
    if elem strict_field fields then p else record p { strict_peer_dependencies = true }

unfoldable pub decoded : Option (List Str) → Option Policy → Result Policy
unfolding config_error accepted_policy with_strict
decoded (some fields) (some p) = accepted_policy (normalize_policy (with_strict fields p))
decoded none p = err (config_error (bytes "policy.decode") (bytes "policy"))
decoded (some fields) none = err (config_error (bytes "policy.decode") (bytes "policy"))

-- `DecodeJSON`
unfoldable pub decode_policy : Codec → Str → Result Policy
unfolding decoded
decode_policy codec text = decoded (codec.unmarshal_fields text) (codec.unmarshal text)
