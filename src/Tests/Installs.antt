-- ===== src/Tests/Installs.antt =====
-- internal/graph, internal/lockfile, internal/policy and internal/resolver on small inputs.
use m.Base.{
  Bool, ℕ, ◌≡◌, refl, true, false, not, ◌&&◌, Option, none, some, List, [], ◌∷◌, Str, bytes, str_eq,
  str_eq_iff, str_lt, elem, find, has_prefix, ltb, ◌==◌, drop, take, if◌then◌else◌, arith,
}
use m.Base.Int.{pos, is_zero}
use m.Base.Sort.{sort, insert}
use m.Apperr.{ok, err}
use m.Deps.{Graph, Package, Edge, package_key, target_name_from_key, index_byte, last_index_byte}
use m.Deps.Sorting.{importer_less, package_less, edge_less, provider_less}
use m.Deps.Validate.{
  older, is_current, with_current_version, in_order, problem, checked, validate, is_empty,
}
use m.Deps.Validate.Frozen.{IsFrozen}
use m.Deps.Encode.{Codec, encode_json, decode_json}
use m.Deps.Encode.Codes.{ReadsBack, decode_json-encode_json}
use m.Deps.Diff.{GraphDiff, diff_graphs}
use m.Deps.Diff.Described.{Describes, diff_graphs-Describes}
use m.Policy.{
  Policy, normalize_policy, encode_policy, decode_policy, known_trust, known_linker, is_one, or_one,
}
use m.Policy
use m.Policy.Strict.{ReadsBackPolicy, decode_policy-encode_policy}
use m.Policy.Org.{Texts, OrgPolicy, severity_error, evaluate, PolicyViolation, violation_less}
use m.Policy.Org.Breaches.{some_of, breaches, breaches_with, evaluate-breaches}
use m.Base.Ordered.{InOrder}
use m.Advisory.{Sign, is_above}
use m.Resolver.{External, VersionMeta, Packument}
use m.Resolver.Hints.{PinContext}
use m.Resolver.Select.{select_version}
use m.Resolver.Select.Highest.{IsOrder}
use m.Resolver.Select.Chosen.{HasOwnNumbers, IsSound, select_version-IsSound}
use m.Deps.Validate.{problem_error, edge_from_unknown, normalize_id}
use m.Deps.Encode.{accepted}
use m.Deps.Builder.{add_importer, add_package, add_edge_ex, build_deps}
use m.Resolver.Dedupe.{
  remap_package_name_version, add_importers, add_kept, is_dropped, add_retargeted,
  package_key_version, remap_key_peer_context,
}

abbrev package_of : Str → Str → Package
package_of name version = record {
  id = record { name = name; version = version; providers = [] };
  integrity = [];
  tarball_url = [];
}

abbrev needs : Str → Str → Edge
needs from to = record {
  from = from;
  name = [];
  to = to;
  kind = bytes "prod";
  range = bytes "^1";
  optional = false;
}

abbrev graph_of : ℕ → List Package → List Edge → Graph
graph_of v ps es = record {
  schema_version = pos v;
  importers = record { id = bytes "."; name = []; path = [] } ∷ [];
  packages = ps;
  edges = es;
}

-- A graph of one package, and one of two packages in no order.
abbrev small : Graph
small = graph_of 0 (package_of (bytes "a") (bytes "1") ∷ []) (needs (bytes ".") (bytes "a@1") ∷ [])

abbrev larger : Graph
larger =
    graph_of 0 (package_of (bytes "b") (bytes "1") ∷ package_of (bytes "a") (bytes "1") ∷ [])
      (needs (bytes ".") (bytes "b@1") ∷ needs (bytes ".") (bytes "a@1") ∷ [])

small_valid : (validate small).1 ≡ none
unfolding validate with_current_version checked in_order problem older is_current is_zero sort
    insert importer_less package_less edge_less provider_less str_lt str_eq elem find has_prefix
    is_empty package_key target_name_from_key index_byte last_index_byte drop take
small_valid = refl

larger_valid : (validate larger).1 ≡ none
unfolding validate with_current_version checked in_order problem older is_current is_zero sort
    insert importer_less package_less edge_less provider_less str_lt str_eq elem find has_prefix
    is_empty package_key target_name_from_key index_byte last_index_byte drop take
larger_valid = refl

-- A codec of the two graphs as Validate leaves them, by the number of packages.
abbrev print_by_size : List Package → Option Str
print_by_size [] = none
print_by_size (p ∷ []) = some (bytes "small")
print_by_size (p ∷ q ∷ ps) = some (bytes "larger")

abbrev two_graphs : Codec
two_graphs = record {
  marshal = λ g. print_by_size g.packages;
  unmarshal =
      λ s. if str_eq s (bytes "small") then some (validate small).0 else some (validate larger).0;
}

small-ReadsBack : ReadsBack two_graphs (validate small).0
unfolding validate with_current_version checked in_order older is_current is_zero sort str_eq
small-ReadsBack = (bytes "small", refl, refl)

larger-ReadsBack : ReadsBack two_graphs (validate larger).0
unfolding validate with_current_version checked in_order older is_current is_zero sort insert
    package_less package_key str_lt str_eq
larger-ReadsBack = (bytes "larger", refl, refl)

decode_json-encode_json_example :
    (s : Str) × (encode_json two_graphs larger ≡ ((validate larger).0, ok s))
    × (decode_json two_graphs s ≡ ok (validate larger).0)
    × (encode_json two_graphs (validate larger).0 ≡ ((validate larger).0, ok s))
    × IsFrozen (validate larger).0
decode_json-encode_json_example =
    decode_json-encode_json two_graphs larger larger_valid larger-ReadsBack

diff_graphs-Describes_example :
    (d : GraphDiff) × (diff_graphs two_graphs small larger ≡ ok d)
    × Describes (validate small).0 (validate larger).0 d
diff_graphs-Describes_example =
    diff_graphs-Describes two_graphs small larger small_valid larger_valid small-ReadsBack
      larger-ReadsBack

-- A policy that turns strict peer dependencies off, and a codec that knows it and the one that is on.
abbrev lenient : Policy
lenient = record {
  schema_version = pos 1;
  script_trust = bytes "ask";
  offline = false;
  linker = [];
  minimum_release_age = pos 0;
  reject_deprecated = false;
  auto_install_peers = true;
  strict_peer_dependencies = false;
}

abbrev one_policy : Policy.Codec
one_policy = record {
  marshal = λ p. if p.strict_peer_dependencies then none else some (bytes "lenient");
  unmarshal_fields = λ s. some (bytes "schemaVersion" ∷ bytes "scriptTrust" ∷ []);
  unmarshal = λ s. some lenient;
}

lenient_accepted : normalize_policy lenient ≡ (lenient, none)
unfolding normalize_policy Policy.checked_version Policy.checked_trust Policy.checked_linker
    Policy.with_trust Policy.or_text is_one or_one known_trust known_linker is_zero str_eq
lenient_accepted = refl

lenient-ReadsBack : ReadsBackPolicy one_policy lenient
unfolding elem str_eq
lenient-ReadsBack = record {
  text = bytes "lenient";
  fields = bytes "schemaVersion" ∷ bytes "scriptTrust" ∷ [];
  marshalled = refl;
  names = refl;
  omitted = refl;
  unmarshalled = refl;
}

decode_policy-encode_policy_example :
    (s : Str) × (encode_policy one_policy lenient ≡ ((normalize_policy lenient).0, ok s))
    × (decode_policy one_policy s
        ≡ ok (record (normalize_policy lenient).0 { strict_peer_dependencies = true }))
decode_policy-encode_policy_example =
    decode_policy-encode_policy one_policy lenient (rw lenient_accepted refl)
      (rw lenient_accepted lenient-ReadsBack)

-- Texts in lower case, no time in the past.
abbrev plain : Texts
plain = record { lower = λ s. s; upper = λ s. s; is_past = λ s. false }

-- A policy that denies one package and a license, with a waiver for another package.
abbrev denying : OrgPolicy
denying = record {
  schema_version = pos 1;
  deny_packages = bytes "a" ∷ [];
  deny_licenses = bytes "GPL" ∷ [];
  severity_threshold = severity_error;
  waivers = record { package_name = bytes "b"; reason = []; expires = [] } ∷ [];
}

abbrev licensed : List (Str × Str)
licensed = (bytes "b@1", bytes "GPL-3.0") ∷ []

evaluate-breaches_example :
    ((q : PolicyViolation → Bool)
      → some_of q (evaluate plain small licensed denying).violations
        ≡ some_of (breaches_with plain licensed denying q) small.packages)
    × InOrder violation_less (evaluate plain small licensed denying).violations
    × ((evaluate plain small licensed denying).passed
        ≡ not (
            str_eq severity_error severity_error
            && some_of (breaches plain licensed denying) small.packages))
evaluate-breaches_example = evaluate-breaches plain small licensed denying

-- Versions of one digit, and constraints `>n`.
abbrev sign_of : ℕ → ℕ → Sign
sign_of a b = if ltb a b then Sign.below else if a == b then Sign.same else Sign.above

abbrev digit : Str → Option ℕ
digit (c ∷ []) = some c
digit _ = none

abbrev above_digit : Str → Option ℕ
above_digit (b ∷ c ∷ []) = if b == b'>' then some c else none
above_digit _ = none

abbrev digits : External
digits = record {
  Version = ℕ;
  Constraint = ℕ;
  new_version = digit;
  order = sign_of;
  new_constraint = above_digit;
  check = λ c v. ltb c v;
  age = λ s. none;
  age_nano = λ s. none;
  digest = λ s. s;
}

is_above-sign_of : (a b : ℕ) → is_above (sign_of a b) ≡ ltb b a
unfolding is_above
is_above-sign_of a b = ground arith

digits-IsOrder : IsOrder digits
digits-IsOrder = record {
  asymm = λ (a : ℕ) (b : ℕ) h. ground (arith, is_above-sign_of a b, is_above-sign_of b a);
  trans = λ (a : ℕ) (b : ℕ) (c : ℕ) h k.
      ground (arith, is_above-sign_of a b, is_above-sign_of b c, is_above-sign_of a c);
}

abbrev meta : Str → Str → VersionMeta
meta version deprecated = record {
  name = bytes "a";
  version = version;
  deprecated = deprecated;
  time = [];
  integrity = [];
  tarball = [];
}

-- Three versions, of which the last is deprecated.
abbrev three : Packument
three = record {
  name = bytes "a";
  dist_tags = (bytes "latest", bytes "3") ∷ [];
  versions =
      (bytes "1", meta (bytes "1") [])
      ∷ (bytes "3", meta (bytes "3") (bytes "no"))
      ∷ (bytes "2", meta (bytes "2") [])
      ∷ [];
}

three_own : HasOwnNumbers three
unfolding find
three_own ver m h =
    ground
      (arith, str_eq_iff ver (bytes "1"), str_eq_iff ver (bytes "3"), str_eq_iff ver (bytes "2"))

abbrev no_deprecated : Policy
no_deprecated = record lenient { reject_deprecated = true }

abbrev no_pin : PinContext
no_pin = record { importer = []; dep_name = []; kind = []; range_spec = []; peer_context = [] }

select_version-IsSound_example :
    IsSound digits digits-IsOrder three
      (bytes "a")
      (bytes ">1")
      (some no_deprecated)
      none
      (select_version digits three (bytes "a") (bytes ">1") (some no_deprecated) none no_pin)
select_version-IsSound_example =
    select_version-IsSound digits digits-IsOrder three (bytes "a") (bytes ">1") (some no_deprecated)
      none no_pin three_own

-- Two versions of one package, of which the first has a dependency of its own.
abbrev two_versions : Graph
two_versions =
    graph_of 3
      (package_of (bytes "a") (bytes "1")
        ∷ package_of (bytes "a") (bytes "2")
        ∷ package_of (bytes "c") (bytes "1")
        ∷ [])
      (needs (bytes ".") (bytes "a@1")
        ∷ needs (bytes ".") (bytes "a@2")
        ∷ needs (bytes "a@1") (bytes "c@1")
        ∷ [])

-- Dropping the first leaves its edge behind, which Build refuses.
dropped_with_edge :
    remap_package_name_version two_versions (bytes "a") (bytes "2")
    ≡ err (problem_error (edge_from_unknown (bytes "a@1")))
unfolding remap_package_name_version add_importers add_importer add_kept is_dropped add_package
    add_retargeted add_edge_ex package_key_version remap_key_peer_context build_deps accepted
    validate with_current_version checked in_order problem older is_current is_zero sort insert
    importer_less package_less edge_less provider_less str_lt str_eq elem find has_prefix is_empty
    package_key target_name_from_key index_byte last_index_byte drop take normalize_id
dropped_with_edge = refl
