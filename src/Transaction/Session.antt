-- ===== src/Transaction/Session.antt =====
-- internal/transaction/runner.go and genfile.go: the state of a runner whose transaction has
-- begun, and how it saves its journal. An action returns a value or an error; what it did to the
-- disk and to the document in memory stays done either way.
use m.Base.{ℕ, zero, suc, ◌+◌, Option, none, some, List, [], ◌∷◌, Str, bytes, ltb, if◌then◌else◌}
use m.Apperr.{Code, Error, Result, ok, err}
use m.Transaction.Journal.{Document, Op, Phase, encode, schema_version_now}
use m.Transaction.Disk.{System, Call}

abbrev pub ⊤ : Type 0
⊤ = Unit

abbrev pub as_result : Option Error → Result ⊤
as_result none = ok tt
as_result (some e) = err e

-- `apperr.Wrap` around an error.
abbrev pub rewrapped : {A : Type 0} → Error → Result A → Result A
rewrapped e (ok a) = ok a
rewrapped e (err _) = err e

abbrev pub io_error : Str → Error
io_error op = record { code = Code.io; op = op; subject = [] }

abbrev pub txn_error : Str → Str → Error
txn_error op subject = record { code = Code.transaction; op = op; subject = subject }

-- `xs[i] = f(xs[i])`
unfoldable pub alter : ℕ → (Op → Op) → List Op → List Op
alter i f [] = []
alter zero f (op ∷ ops) = f op ∷ ops
alter (suc i) f (op ∷ ops) = op ∷ alter i f ops

abbrev pub upgraded : Document → Document
upgraded d = record d {
  schema_version =
      if ltb d.schema_version schema_version_now then schema_version_now else d.schema_version;
}

pub record Session (S : System) : Type 0 where
  pub world : S.World
  pub doc : Document
  pub journal_gen : ℕ

abbrev pub Action : System → Type 0 → Type 0
Action S A = Session S → Result A × Session S

module _ {S : System} where
  unfoldable pub pure : {A : Type 0} → A → Action S A
  pure a s = (ok a, s)

  unfoldable pub raise : {A : Type 0} → Error → Action S A
  raise e s = (err e, s)

  unfoldable pub gets : {A : Type 0} → (Session S → A) → Action S A
  gets f s = (ok (f s), s)

  abbrev pub and_then :
      {A B : Type 0} → Result A × Session S → (A → Action S B) → Result B × Session S
  and_then (ok a, s) f = f a s
  and_then (err e, s) f = (err e, s)

  infixl 5 ◌>>=◌ ◌>>◌
  unfoldable pub ◌>>=◌ : {A B : Type 0} → Action S A → (A → Action S B) → Action S B
  ◌>>=◌ m f s = and_then (m s) f

  abbrev pub ◌>>◌ : {A B : Type 0} → Action S A → Action S B → Action S B
  m >> k = m >>= λ _. k

  -- An error is returned to the caller.
  unfoldable pub call : Call → Action S ⊤
  call c s = let (e, w) = S.act c s.world in (as_result e, record s { world = w })

  -- `_ = f()`: the error is dropped.
  unfoldable pub ignore : Action S ⊤ → Action S ⊤
  ignore m s = (ok tt, (m s).1)

  unfoldable pub wrap : {A : Type 0} → Error → Action S A → Action S A
  wrap e m s = let (r, s') = m s in (rewrapped e r, s')

  unfoldable pub set_doc : (Document → Document) → Action S ⊤
  set_doc f s = (ok tt, record s { doc = f s.doc })

  -- `r.doc.Plan[i].Phase = phase` and the like
  unfoldable pub alter_plan : ℕ → (Op → Op) → Action S ⊤
  alter_plan i f = set_doc λ d. record d { plan = alter i f d.plan }

  unfoldable pub set_phase : ℕ → Phase → Action S ⊤
  set_phase i phase = alter_plan i λ op. record op { phase = phase }

  -- The next generation of `saveJournalGeneration`, which `journal_gen` becomes.
  unfoldable pub set_gen : ℕ → Action S ⊤
  set_gen gen s = (ok tt, record s { journal_gen = gen })

  unfoldable pub save_generation : Str → ℕ → Action S ⊤
  save_generation text next = do
    wrap (io_error (bytes "transaction.journal")) (call (Call.write_generation next text))
    call (Call.write_head next text)
    set_gen next

  unfoldable pub save_journal_generation : Str → Action S ⊤
  save_journal_generation text = do save_generation text (← gets λ s. s.journal_gen + 1)

  unfoldable pub encode_in_place : Action S Str
  encode_in_place s = let (r, d) = encode S.codec s.doc in (r, record s { doc = d })

  unfoldable pub save_journal : Action S ⊤
  save_journal = do set_doc upgraded; text ← encode_in_place; save_journal_generation text
