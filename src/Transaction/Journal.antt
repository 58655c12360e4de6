-- ===== src/Transaction/Journal.antt =====
-- internal/transaction/journal.go: the journal of a transaction, its normal form, and how it is
-- written and read. JSON and the checksum are a `Codec`. A schema version below 0, which Normalize
-- refuses like one above 4, is not told apart from those.
pub mod Codes
use m.Base.{
  ℕ, ◌≡◌, Bool, true, false, Option, none, some, List, [], ◌∷◌, Str, bytes, str_eq, elem, map, ltb,
  ◌==◌, if◌then◌else◌, ◌&&◌, ◌||◌, not,
}
use m.Apperr.{Code, Error, Result, ok, err, ◌>>=◌}

abbrev pub schema_version_now : ℕ
schema_version_now = 4

abbrev pub journal_name : Str
journal_name = bytes "journal.v4.json"

-- The constants of the source; `other` holds any other string that a journal may carry, and
-- `unset` is the empty string.
pub data DocState : Type 0 where
  unset staging validated committing committed aborted : DocState
  other : Str → DocState

pub data Kind : Type 0 where
  backup rename write remove mkdir : Kind
  other : Str → Kind

pub data Progress : Type 0 where
  unset pending applying applied rolling_back rolled_back : Progress
  other : Str → Progress

pub data Phase : Type 0 where
  unset pending backup_ready old_tree_moved publish_started written synced : Phase
  new_tree_published parent_synced published applied : Phase
  rollback_started prior_restored rollback_complete : Phase
  other : Str → Phase

pub data DestKind : Type 0 where
  nothing file dir symlink junction : DestKind
  other : Str → DestKind

pub record Op : Type 0 where
  pub kind : Kind
  pub path : Str
  pub backup : Str
  pub progress : Progress
  pub phase : Phase
  pub staging_path : Str
  pub dest_kind : DestKind
  pub had_prior : Bool
  pub prior_kind : DestKind
  pub symlink_target : Str
  pub reparse_tag : ℕ
  pub reparse_print : Str

pub record Document : Type 0 where
  pub schema_version : ℕ
  pub id : Str
  pub project_root : Str
  pub state : DocState
  pub checksum : Str
  pub plan : List Op
  pub ops : List Op

-- What encoding/json and crypto/sha256 make of a journal: its text, if it has one, the journal
-- that a text spells, and the hexadecimal digest of a text.
pub record Codec : Type 0 where
  pub print : Document → Option Str
  pub parse : Str → Option Document
  pub digest : Str → Str

abbrev journal_error : Code → Str → Error
journal_error c op = record { code = c; op = op; subject = journal_name }

-- The parts of Normalize: the default version, what it refuses, and the other defaults.
unfoldable pub with_version : Document → Document
with_version doc = record doc {
  schema_version = if doc.schema_version == 0 then schema_version_now else doc.schema_version;
}

unfoldable pub supported : ℕ → Bool
supported v = v == 1 || v == 2 || v == 3 || v == schema_version_now

unfoldable pub refuses : Document → Bool
refuses doc = not (supported doc.schema_version) || str_eq doc.id [] || str_eq doc.project_root []

unfoldable pub or_staging : DocState → DocState
or_staging DocState.unset = DocState.staging
or_staging s = s

unfoldable pub or_pending : Progress → Progress
or_pending Progress.unset = Progress.pending
or_pending p = p

unfoldable pub or_pending_phase : Phase → Phase
or_pending_phase Phase.unset = Phase.pending
or_pending_phase p = p

unfoldable pub pending_op : Op → Op
pending_op op = record op { progress = or_pending op.progress; phase = or_pending_phase op.phase }

unfoldable pub with_defaults : Document → Document
with_defaults doc = record doc { state = or_staging doc.state; plan = map pending_op doc.plan }

-- The error and the document that it leaves in place.
unfoldable pub filled : Bool → Document → Option Error × Document
filled true d = (some (journal_error Code.transaction (bytes "transaction.normalize")), d)
filled false d = (none, with_defaults d)

unfoldable pub normalize : Document → Option Error × Document
normalize doc = let d = with_version doc in filled (refuses d) d

unfoldable pub digested : Codec → Option Str → Result Str
digested c (some text) = ok (c.digest text)
digested c none = err (journal_error Code.transaction (bytes "transaction.checksum"))

unfoldable pub semantic_checksum : Codec → Document → Result Str
semantic_checksum c doc = digested c (c.print (record doc { checksum = [] }))

unfoldable pub printed : Document → Option Str → Result Str × Document
printed doc (some text) = (ok text, doc)
printed doc none = (err (journal_error Code.transaction (bytes "transaction.encode")), doc)

unfoldable pub sealed : Codec → Document → Result Str → Result Str × Document
sealed c doc (ok sum) = let d = record doc { checksum = sum } in printed d (c.print d)
sealed c doc (err e) = (err e, doc)

unfoldable pub seal_if : Codec → Bool → Document → Result Str × Document
seal_if c true doc = printed doc (c.print doc)
seal_if c false doc = sealed c doc (semantic_checksum c doc)

unfoldable pub encode_normal : Codec → Option Error × Document → Result Str × Document
encode_normal c (some e, doc) = (err e, doc)
encode_normal c (none, doc) = seal_if c (ltb doc.schema_version 4) doc

-- Encode normalizes and seals the document in place.
unfoldable pub encode : Codec → Document → Result Str × Document
encode c doc = encode_normal c (normalize doc)

unfoldable pub matches_sum : Document → Result Str → Option Error
matches_sum doc (err e) = some e
matches_sum doc (ok got) =
    if str_eq got doc.checksum
    then none
    else some (journal_error Code.integrity (bytes "transaction.decode"))

unfoldable pub verify_checksum : Codec → Document → Option Error
verify_checksum c doc =
    if ltb doc.schema_version 4 || str_eq doc.checksum []
    then none
    else matches_sum doc (semantic_checksum c doc)

unfoldable pub verified : Document → Option Error → Result Document
verified doc none = ok doc
verified doc (some e) = err e

unfoldable pub decode_normal : Codec → Option Error × Document → Result Document
decode_normal c (some e, doc) = err e
decode_normal c (none, doc) = verified doc (verify_checksum c doc)

unfoldable pub decode_parsed : Codec → Option Document → Result Document
decode_parsed c (some doc) = decode_normal c (normalize doc)
decode_parsed c none = err (journal_error Code.transaction (bytes "transaction.decode"))

unfoldable pub decode : Codec → Str → Result Document
decode c text = decode_parsed c (c.parse text)
