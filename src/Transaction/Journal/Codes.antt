-- ===== src/Transaction/Journal/Codes.antt =====
-- internal/transaction/journal.go: Encode and Decode, one after the other.
use m.Base.{
  ℕ, ◌≡◌, refl, ap, subst, ◌∙◌, ◌⊎◌, inl, inr, Bool, true, false, Option, none, some, List, [], ◌∷◌,
  Str, str_eq, str_eq_refl, str_eq→eq, map, ltb, ◌==◌, if◌then◌else◌, ◌||◌, arith, Bool-cases,
}
use m.Apperr.{Error, Result, ok, err}
use m.Transaction.Journal.{
  Document, Op, DocState, Progress, Phase, Codec, normalize, with_version, with_defaults, refuses,
  or_staging, or_pending, or_pending_phase, pending_op, encode, encode_normal, decode,
  decode_normal, sealed, printed, semantic_checksum, verify_checksum, verified, matches_sum,
  supported, filled, seal_if, digested, decode_parsed,
}

or_staging_again : (s : DocState) → or_staging (or_staging s) ≡ or_staging s
unfolding or_staging
or_staging_again DocState.unset = refl
or_staging_again DocState.staging = refl
or_staging_again DocState.validated = refl
or_staging_again DocState.committing = refl
or_staging_again DocState.committed = refl
or_staging_again DocState.aborted = refl
or_staging_again (DocState.other s) = refl

or_pending_again : (p : Progress) → or_pending (or_pending p) ≡ or_pending p
unfolding or_pending
or_pending_again Progress.unset = refl
or_pending_again Progress.pending = refl
or_pending_again Progress.applying = refl
or_pending_again Progress.applied = refl
or_pending_again Progress.rolling_back = refl
or_pending_again Progress.rolled_back = refl
or_pending_again (Progress.other s) = refl

or_pending_phase_again : (p : Phase) → or_pending_phase (or_pending_phase p) ≡ or_pending_phase p
unfolding or_pending_phase
or_pending_phase_again Phase.unset = refl
or_pending_phase_again Phase.pending = refl
or_pending_phase_again Phase.backup_ready = refl
or_pending_phase_again Phase.old_tree_moved = refl
or_pending_phase_again Phase.publish_started = refl
or_pending_phase_again Phase.written = refl
or_pending_phase_again Phase.synced = refl
or_pending_phase_again Phase.new_tree_published = refl
or_pending_phase_again Phase.parent_synced = refl
or_pending_phase_again Phase.published = refl
or_pending_phase_again Phase.applied = refl
or_pending_phase_again Phase.rollback_started = refl
or_pending_phase_again Phase.prior_restored = refl
or_pending_phase_again Phase.rollback_complete = refl
or_pending_phase_again (Phase.other s) = refl

pending_op_again : (op : Op) → pending_op (pending_op op) ≡ pending_op op
unfolding pending_op
pending_op_again op = rw (or_pending_again op.progress, or_pending_phase_again op.phase) refl

plan_again : (plan : List Op) → map pending_op (map pending_op plan) ≡ map pending_op plan
plan_again [] = refl
plan_again (op ∷ plan) = rw (pending_op_again op, plan_again plan) refl

-- A document that Normalize accepts and leaves as it is.
pub IsNormal : Document → Type 0
IsNormal d = (refuses d ≡ false) × (or_staging d.state ≡ d.state) × (map pending_op d.plan ≡ d.plan)

supported→nonzero : (v : ℕ) → supported v ≡ true → (v == 0) ≡ false
unfolding supported
supported→nonzero v h = ground arith

not_refused→supported : (d : Document) → refuses d ≡ false → supported d.schema_version ≡ true
unfolding refuses
not_refused→supported d h = ground arith

with_version_self : (d : Document) → refuses d ≡ false → with_version d ≡ d
unfolding with_version
with_version_self d h = rw (supported→nonzero d.schema_version (not_refused→supported d h)) refl

pub normalize_self : (d : Document) → IsNormal d → normalize d ≡ (none, d)
unfolding IsNormal normalize filled with_defaults
normalize_self d (kept, state, plan) = rw (with_version_self d kept, kept, state, plan) refl

filled-IsNormal : (b : Bool) (v d : Document) → refuses v ≡ b → filled b v ≡ (none, d) → IsNormal d
unfolding filled IsNormal with_defaults refuses
filled-IsNormal true v d kept h = absurd (ground arith)
filled-IsNormal false v d kept h =
    subst (λ x. IsNormal x) (ap (λ x. x.1) h) (kept, or_staging_again v.state, plan_again v.plan)

pub normalize-IsNormal : (doc d : Document) → normalize doc ≡ (none, d) → IsNormal d
unfolding normalize
normalize-IsNormal doc d h =
    filled-IsNormal (refuses (with_version doc)) (with_version doc) d refl h

module _ (c : Codec) where
  seal_accepted :
      (d : Document) (sum : Str)
      → semantic_checksum c d ≡ ok sum
      → matches_sum (record d { checksum = sum }) (semantic_checksum c d) ≡ none
  unfolding matches_sum
  seal_accepted d sum same = rw (same, str_eq_refl sum) refl

  verify_sealed :
      (d : Document) (sum : Str)
      → semantic_checksum c d ≡ ok sum
      → verify_checksum c (record d { checksum = sum }) ≡ none
  unfolding verify_checksum semantic_checksum
  verify_sealed d sum same = either (ltb d.schema_version 4 || str_eq sum [])
    where
      either :
          (b : Bool)
          → (if b
              then none
              else matches_sum
                  (record d { checksum = sum })
                  (digested c (c.print (record d { checksum = [] }))))
            ≡ none
      either true = refl
      either false = seal_accepted d sum same

  verify_unsealed : (d : Document) → ltb d.schema_version 4 ≡ true → verify_checksum c d ≡ none
  unfolding verify_checksum
  verify_unsealed d h = rw h refl

-- The JSON decoder reads back the text of the one document `left` that Encode leaves.
module _ (c : Codec) (left : Document)
    (reads_back : (t : Str) → c.print left ≡ some t → c.parse t ≡ some left) where
  -- Reading a normal document back comes down to its checksum.
  decode_printed :
      (t : Str)
      → IsNormal left
      → c.print left ≡ some t
      → verify_checksum c left ≡ none
      → decode c t ≡ ok left
  unfolding decode decode_parsed decode_normal verified
  decode_printed t normal h fits = rw (reads_back t h, normalize_self left normal, fits) refl

  -- A text that was printed is read back, once the checksum is settled.
  printed_back :
      (d : Document) (o : Option Str) (t : Str)
      → IsNormal d
      → verify_checksum c d ≡ none
      → c.print d ≡ o
      → printed d o ≡ (ok t, left)
      → decode c t ≡ ok left
  unfolding printed
  printed_back d none t normal fits text h = absurd (ground arith)
  printed_back d (some u) t normal fits text h =
      decode_printed t (subst (λ x. IsNormal x) same normal)
        (subst (λ x. c.print x ≡ some t) same (text ∙ ap some same_text))
        (subst (λ x. verify_checksum c x ≡ none) same fits)
    where
      same : d ≡ left
      same = ground arith

      same_text : u ≡ t
      same_text = ground arith

  sealed_back :
      (d : Document) (r : Result Str) (t : Str)
      → IsNormal d
      → semantic_checksum c d ≡ r
      → sealed c d r ≡ (ok t, left)
      → decode c t ≡ ok left
  unfolding sealed IsNormal refuses
  sealed_back d (err e) t normal sum h = absurd (ground arith)
  sealed_back d (ok sum) t normal same h =
      let s = record d { checksum = sum } in
      printed_back s (c.print s) t normal (verify_sealed c d sum same) refl h

  seal_if_back :
      (b : Bool) (d : Document) (t : Str)
      → ltb d.schema_version 4 ≡ b
      → IsNormal d
      → seal_if c b d ≡ (ok t, left)
      → decode c t ≡ ok left
  unfolding seal_if
  seal_if_back true d t old normal h =
      printed_back d (c.print d) t normal (verify_unsealed c d old) refl h
  seal_if_back false d t new normal h = sealed_back d (semantic_checksum c d) t normal refl h

  normal_back :
      (n : Option Error × Document) (doc : Document) (t : Str)
      → normalize doc ≡ n
      → encode_normal c n ≡ (ok t, left)
      → decode c t ≡ ok left
  unfolding encode_normal
  normal_back (some e, d) doc t normal h = absurd (ground arith)
  normal_back (none, d) doc t normal h =
      seal_if_back (ltb d.schema_version 4) d t refl (normalize-IsNormal doc d normal) h

  -- When the JSON decoder reads the text of the one document that Encode leaves in memory back as
  -- that document: Decode of the text that Encode returned without an error is that document, its
  -- checksum included.
  pub decode-encode :
      (doc : Document) (t : Str) → encode c doc ≡ (ok t, left) → decode c t ≡ ok left
  unfolding encode
  decode-encode doc t h = normal_back (normalize doc) doc t refl h

-- The seal of a journal: the version is older than checksums, there is none, or it is right.
pub IsSealed : Codec → Document → Type 0
IsSealed c d =
    (ltb d.schema_version 4 ≡ true) ⊎ ((d.checksum ≡ []) ⊎ (semantic_checksum c d ≡ ok d.checksum))

matches_sum-IsSealed :
    (c : Codec) (d : Document) (r : Result Str)
    → semantic_checksum c d ≡ r
    → matches_sum d r ≡ none
    → semantic_checksum c d ≡ ok d.checksum
unfolding matches_sum
matches_sum-IsSealed c d (err e) sum h = absurd (ground arith)
matches_sum-IsSealed c d (ok got) sum h = elim (Bool-cases (str_eq got d.checksum)) [
  | inl same ↦ sum ∙ ap ok (str_eq→eq got d.checksum same)
  | inr differs ↦ absurd (grind (arith, differs))
]

verify_checksum-IsSealed : (c : Codec) (d : Document) → verify_checksum c d ≡ none → IsSealed c d
unfolding verify_checksum IsSealed
verify_checksum-IsSealed c d h = elim (Bool-cases (ltb d.schema_version 4)) [
  | inl old ↦ inl old
  | inr new ↦ elim (Bool-cases (str_eq d.checksum [])) [
    | inl empty ↦ inr (inl (str_eq→eq d.checksum [] empty))
    | inr there ↦
        inr (inr (matches_sum-IsSealed c d (semantic_checksum c d) refl (rw (new, there) at h)))
  ]
]

verified-IsSealed :
    (c : Codec) (o : Option Error) (d dd : Document)
    → verify_checksum c d ≡ o
    → verified d o ≡ ok dd
    → IsNormal d
    → IsNormal dd × IsSealed c dd
unfolding verified
verified-IsSealed c (some e) d dd v h normal = absurd (ground arith)
verified-IsSealed c none d dd v h normal =
    subst (λ x. IsNormal x × IsSealed c x) same (normal, verify_checksum-IsSealed c d v)
  where
    same : d ≡ dd
    same = ground arith

decode_normal-IsSealed :
    (c : Codec) (n : Option Error × Document) (doc dd : Document)
    → normalize doc ≡ n
    → decode_normal c n ≡ ok dd
    → IsNormal dd × IsSealed c dd
unfolding decode_normal
decode_normal-IsSealed c (some e, d) doc dd n h = absurd (ground arith)
decode_normal-IsSealed c (none, d) doc dd n h =
    verified-IsSealed c (verify_checksum c d) d dd refl h (normalize-IsNormal doc d n)

decode_parsed-IsSealed :
    (c : Codec) (o : Option Document) (dd : Document)
    → decode_parsed c o ≡ ok dd
    → IsNormal dd × IsSealed c dd
unfolding decode_parsed
decode_parsed-IsSealed c none dd h = absurd (ground arith)
decode_parsed-IsSealed c (some doc) dd h = decode_normal-IsSealed c (normalize doc) doc dd refl h

-- A journal that Decode accepts passes Normalize unchanged, and it is older than checksums, has
-- none, or its checksum is the right one.
pub decode-IsSealed :
    (c : Codec) (t : Str) (d : Document) → decode c t ≡ ok d → IsNormal d × IsSealed c d
unfolding decode
decode-IsSealed c t d h = decode_parsed-IsSealed c (c.parse t) d h
