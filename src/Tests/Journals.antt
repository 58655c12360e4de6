-- ===== src/Tests/Journals.antt =====
-- internal/transaction/journal.go, finish_result.go and preflight.go on small inputs.
use m.Base.{
  Each, ℕ, ◌≡◌, ◌↔◌, ◌<◌, refl, subst, Option, none, some, List, [], ◌∷◌, Str, bytes, str_eq, arith,
}
use m.Apperr.{Error, ok, err}
use m.Transaction.Journal.{
  Document, DocState, Op, Codec, encode, decode, semantic_checksum, encode_normal, normalize,
  filled, refuses, supported, with_version, with_defaults, seal_if, sealed, printed, or_staging,
  digested,
}
use m.Transaction.Journal.Codes.{decode-encode, decode-IsSealed, IsNormal, IsSealed}
use m.Transaction.Preflight.{
  ScannedTxn, incomplete_txn_rank, best_of, beats, count_committing, chosen,
  resolve_authoritative_incomplete,
}
use m.Transaction.Preflight.Authority.{
  IsOne, IsNoBetter, resolve_authoritative_incomplete-Authority, refuses_ambiguous,
}

-- A codec of the journals of one byte of id and root that are staging and record nothing.
abbrev print_parts : ℕ → Str → Str → DocState → Str → List Op → List Op → Option Str
print_parts v (a ∷ []) (b ∷ []) DocState.staging sum [] [] = some (v ∷ a ∷ b ∷ sum)
print_parts _ _ _ _ _ _ _ = none

abbrev small : ℕ → ℕ → ℕ → Str → Document
small v a b sum = record {
  schema_version = v;
  id = a ∷ [];
  project_root = b ∷ [];
  state = DocState.staging;
  checksum = sum;
  plan = [];
  ops = [];
}

abbrev parse_small : Str → Option Document
parse_small (v ∷ a ∷ b ∷ sum) = some (small v a b sum)
parse_small _ = none

abbrev small_codec : Codec
small_codec = record {
  print = λ d. print_parts d.schema_version d.id d.project_root d.state d.checksum d.plan d.ops;
  parse = parse_small;
  digest = λ t. bytes "sum";
}

-- A new journal, with nothing but its names, and what becomes of it.
abbrev draft : Document
draft = record (small 0 116 112 []) { state = DocState.unset }

abbrev written : Document
written = small 4 116 112 (bytes "sum")

abbrev on_disk : Str
on_disk = 4 ∷ 116 ∷ 112 ∷ bytes "sum"

reads_back : (t : Str) → small_codec.print written ≡ some t → small_codec.parse t ≡ some written
reads_back t h = subst (λ u. parse_small u ≡ some written) same refl
  where
    same : on_disk ≡ t
    same = ground arith

decode-encode_example : decode small_codec on_disk ≡ ok written
decode-encode_example = decode-encode small_codec written reads_back draft on_disk (
    unfold encode encode_normal normalize filled refuses supported with_version with_defaults
      seal_if sealed printed semantic_checksum digested or_staging str_eq in
    refl)

decode-IsSealed_example : IsNormal written × IsSealed small_codec written
decode-IsSealed_example = decode-IsSealed small_codec on_disk written decode-encode_example

abbrev staged_txn : ScannedTxn
staged_txn = record {
  id = bytes "a";
  root = bytes "/p/a";
  state = DocState.staging;
  journal_gen = 7;
  doc = draft;
}

abbrev committing_txn : ScannedTxn
committing_txn = record staged_txn { id = bytes "b"; state = DocState.committing; journal_gen = 2 }

abbrev scanned : List ScannedTxn
scanned = staged_txn ∷ committing_txn ∷ []

resolve_authoritative_incomplete-Authority_example :
    IsOne committing_txn scanned
    × Each (λ t. IsNoBetter t committing_txn) scanned
    × (count_committing scanned < 2)
resolve_authoritative_incomplete-Authority_example =
    resolve_authoritative_incomplete-Authority scanned committing_txn (
      unfold resolve_authoritative_incomplete chosen best_of beats incomplete_txn_rank
        count_committing in
      refl)

refuses_ambiguous_example :
    ((e : Error) × (resolve_authoritative_incomplete scanned ≡ err e))
    ↔ (1 < count_committing scanned)
refuses_ambiguous_example = refuses_ambiguous scanned
