-- ===== src/Deps/Encode/Codes.antt =====
-- internal/graph/encode.go and internal/lockfile/diff.go: encoding, decoding and comparing graphs.
use m.Base.{◌≡◌, ◌↔◌, refl, ap, sym, ◌∙◌, Bool, true, none, some, Str, str_eq, str_eq_iff}
use m.Apperr.{Result, ok}
use m.Deps.{Graph}
use m.Deps.Validate.{validate}
use m.Deps.Validate.Frozen.{IsFrozen, validate-IsFrozen, IsFrozen-validate}
use m.Deps.Encode.{Codec, encode_json, decode_json, clone_graph, graphs_equal}

-- The encoder has a text for the graph, from which the decoder reads the graph.
abbrev pub ReadsBack : Codec → Graph → Type 0
ReadsBack codec g = (s : Str) × (codec.marshal g ≡ some s) × (codec.unmarshal s ≡ some g)

module _ (codec : Codec) where
  -- A frozen graph that the codec reads back is encoded unchanged.
  encode_frozen :
      (g : Graph) (f : IsFrozen g) (r : ReadsBack codec g) → encode_json codec g ≡ (g, ok r.0)
  unfolding encode_json
  encode_frozen g f r = rw (IsFrozen-validate g f, r.1) refl

  decode_frozen :
      (g : Graph) (f : IsFrozen g) (r : ReadsBack codec g) → decode_json codec r.0 ≡ ok g
  unfolding decode_json
  decode_frozen g f r = rw (r.2, IsFrozen-validate g f) refl

  encode_valid :
      (g : Graph)
      → (validate g).1 ≡ none
      → (r : ReadsBack codec (validate g).0) → (encode_json codec g).1 ≡ ok r.0
  unfolding encode_json
  encode_valid g v r = rw (v, r.1) refl

  pub clone_valid :
      (g : Graph)
      → (validate g).1 ≡ none
      → ReadsBack codec (validate g).0
      → clone_graph codec g ≡ ok (validate g).0
  unfolding clone_graph
  clone_valid g v r =
      rw (encode_valid g v r) (decode_frozen (validate g).0 (validate-IsFrozen g v) r)

-- EncodeJSON of a graph that Validate accepts, when the codec reads back what Validate leaves of
-- it: DecodeJSON of the text is the graph that EncodeJSON left behind, which has the same text
-- again, and which is frozen: of the current version, its importers, packages, providers and edges
-- in order, no importer id and no package key twice or empty, and each edge named, from an
-- importer or a package, to a package or a local target.
pub decode_json-encode_json :
    (codec : Codec) (g : Graph)
    → (validate g).1 ≡ none
    → ReadsBack codec (validate g).0
    → (s : Str) × (encode_json codec g ≡ ((validate g).0, ok s))
      × (decode_json codec s ≡ ok (validate g).0)
      × (encode_json codec (validate g).0 ≡ ((validate g).0, ok s))
      × IsFrozen (validate g).0
unfolding encode_json
decode_json-encode_json codec g v r =
    let f = validate-IsFrozen g v in
    (
      r.0,
      λ i. ((validate g).0, encode_valid codec g v r i),
      decode_frozen codec (validate g).0 f r,
      encode_frozen codec (validate g).0 f r,
      f,
    )

same_text : (s t : Str) → ◌≡◌ {A = Result Bool} (ok (str_eq s t)) (ok true) → s ≡ t
same_text s t h = (str_eq_iff s t).0 (cc)

same_value : {A : Type 0} {a b : A} → some a ≡ some b → a ≡ b
same_value h = cc

-- GraphsEqual of two graphs that Validate accepts and the codec reads back says true exactly when
-- Validate leaves the same graph of both.
pub graphs_equal_iff :
    (codec : Codec) (a b : Graph)
    → (validate a).1 ≡ none
    → (validate b).1 ≡ none
    → ReadsBack codec (validate a).0
    → ReadsBack codec (validate b).0
    → (graphs_equal codec a b ≡ ok true) ↔ ((validate a).0 ≡ (validate b).0)
unfolding graphs_equal
graphs_equal_iff codec a b va vb ra rb =
    let ta = ap (λ p. p.1) (encode_frozen codec (validate a).0 (validate-IsFrozen a va) ra) in
    let tb = ap (λ p. p.1) (encode_frozen codec (validate b).0 (validate-IsFrozen b vb) rb) in
    rw (clone_valid codec a va ra, clone_valid codec b vb rb, ta, tb)
      (
        λ h. same_value (sym ra.2 ∙ ap codec.unmarshal (same_text ra.0 rb.0 h) ∙ rb.2),
        λ e.
            ap Result.ok
              ((str_eq_iff ra.0 rb.0).1 (same_value (sym ra.1 ∙ ap codec.marshal e ∙ rb.1))),
      )
