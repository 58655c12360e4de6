-- ===== src/Transaction/Touch/Saving.antt =====
-- internal/transaction/runner.go: what the small actions and the saving of the journal keep.
use m.Base.{
  Each, ℕ, zero, suc, get_elem?, ◌≡◌, Bool, true, false, Option, none, some, List, [], ◌∷◌, Str,
  map,
}
use m.Apperr.{Error, Result, ok, err}
use m.Transaction.Journal.{
  Document, DocState, Op, Phase, Codec, encode, encode_normal, normalize, filled, with_version,
  with_defaults, pending_op, printed, sealed, seal_if,
}
use m.Transaction.Disk.{System, Call}
use m.Transaction.Session.{
  ⊤, Session, Action, pure, raise, gets, ◌>>=◌, ignore, wrap, call, set_doc, alter_plan, alter,
  set_phase, save_journal, save_journal_generation, save_generation, set_gen, encode_in_place,
}
use m.Transaction.Publish.{when, attempt, deferring, enter, set_state, hooked}
use m.Transaction.Touch.{Clerical, Safe, Fits, Holds, Keeps, call-Keeps, bind-Keeps, alter-Fits}

module _ (S : System) (Q : S.World → List Op → Type 0) (F : Str → Str → Type 0) (ops : List Op)
    (pend : (w : S.World) (plan : List Op) → Q w plan → Q w (map pending_op plan)) where
  pending-Fits : (plan : List Op) → Each (Fits F) plan → Each (Fits F) (map pending_op plan)
  unfolding pending_op
  pending-Fits [] h = tt
  pending-Fits (op ∷ plan) h = (h.0, pending-Fits plan h.1)

  -- The part of the invariant that is about the document.
  abbrev pub Kept : S.World → Document → Type 0
  Kept w d = Q w d.plan × (d.ops ≡ ops) × Each (Fits F) d.plan

  module _ (w : S.World) where
    filled-Kept : (b : Bool) (d : Document) → Kept w d → Kept w (filled b d).1
    unfolding filled with_defaults
    filled-Kept true d h = h
    filled-Kept false d (q, same, fits) = (pend w d.plan q, same, pending-Fits d.plan fits)

    normalize-Kept : (d : Document) → Kept w d → Kept w (normalize d).1
    unfolding normalize with_version
    normalize-Kept d h = filled-Kept _ (with_version d) h

    printed-Kept : (d : Document) (o : Option Str) → Kept w d → Kept w (printed d o).1
    unfolding printed
    printed-Kept d none h = h
    printed-Kept d (some text) h = h

    sealed-Kept : (c : Codec) (d : Document) (r : Result Str) → Kept w d → Kept w (sealed c d r).1
    unfolding sealed
    sealed-Kept c d (ok sum) h = printed-Kept _ _ h
    sealed-Kept c d (err e) h = h

    seal_if-Kept : (c : Codec) (b : Bool) (d : Document) → Kept w d → Kept w (seal_if c b d).1
    unfolding seal_if
    seal_if-Kept c true d h = printed-Kept d _ h
    seal_if-Kept c false d h = sealed-Kept c d _ h

    encode_normal-Kept :
        (c : Codec) (n : Option Error × Document) → Kept w n.1 → Kept w (encode_normal c n).1
    unfolding encode_normal
    encode_normal-Kept c (some e, d) h = h
    encode_normal-Kept c (none, d) h = seal_if-Kept c _ d h

    encode-Kept : (c : Codec) (d : Document) → Kept w d → Kept w (encode c d).1
    unfolding encode
    encode-Kept c d h = encode_normal-Kept c (normalize d) (normalize-Kept d h)

  abbrev K : {A : Type 0} → Action S A → Type 0
  K m = Keeps S Q F ops m

  pub pure-Keeps : {A : Type 0} (a : A) → K (pure a)
  unfolding pure
  pure-Keeps a = record { kept = λ s h. h }

  pub raise-Keeps : (A : Type 0) (e : Error) → K (raise {A = A} e)
  unfolding raise
  raise-Keeps A e = record { kept = λ s h. h }

  pub ignore-Keeps : {m : Action S ⊤} → K m → K (ignore m)
  unfolding ignore
  ignore-Keeps keeps = record { kept = λ s h. keeps.kept s h }

  pub attempt-Keeps : {m : Action S ⊤} → K m → K (attempt m)
  unfolding attempt
  attempt-Keeps keeps = record { kept = λ s h. keeps.kept s h }

  pub deferring-Keeps : {f m : Action S ⊤} → K f → K m → K (deferring f m)
  unfolding deferring
  deferring-Keeps last first = record { kept = λ s h. last.kept _ (first.kept s h) }

  pub set_doc-Keeps :
      (f : Document → Document)
      → ((w : S.World) (d : Document) → Kept w d → Kept w (f d))
      → K (set_doc f)
  unfolding set_doc
  set_doc-Keeps f keeps = record { kept = λ s h. keeps s.world s.doc h }

  -- The part of the invariant that is about the plan stays when the operation at `i` changes.
  abbrev pub Free : ℕ → Type 0
  Free i = (f : Op → Op) (w : S.World) (plan : List Op) → Q w plan → Q w (alter i f plan)

  pub alter_plan-Keeps :
      (i : ℕ) (f : Op → Op) → Free i → ((op : Op) → Fits F op → Fits F (f op)) → K (alter_plan i f)
  unfolding alter_plan
  alter_plan-Keeps i f free keeps =
      set_doc-Keeps _
        λ w d (q, same, fits). (free f w d.plan q, same, alter-Fits S Q F ops i f d.plan keeps fits)

  -- What a step reads of the session is as the invariant says.
  pub gets-Keeps :
      {A B : Type 0} {f : Session S → A} (k : A → Action S B)
      → ((s : Session S) → Holds S Q F ops s → K (k (f s)))
      → K (gets f >>= k)
  unfolding gets ◌>>=◌
  gets-Keeps k keeps = record { kept = λ s h. (keeps s h).kept s h }

  pub wrap-Keeps : {A : Type 0} (e : Error) {m : Action S A} → K m → K (wrap e m)
  unfolding wrap
  wrap-Keeps e keeps = record { kept = λ s h. keeps.kept s h }

  pub when-Keeps : (b : Bool) {m : Action S ⊤} → K m → K (when b m)
  unfolding when
  when-Keeps true keeps = keeps
  when-Keeps false keeps = pure-Keeps tt

  abbrev pub next :
      {A B : Type 0} {m : Action S A} {f : A → Action S B} → K m → ((a : A) → K (f a)) → K (m >>= f)
  next first rest = bind-Keeps S Q F ops first rest

  module _ (clerical : (c : Call) → Clerical c → Safe S Q c) where
    pub clerk : {c : Call} → Clerical c → K (call c)
    clerk t = call-Keeps S Q F ops _ (clerical _ t)

    set_gen-Keeps : (gen : ℕ) → K (set_gen gen)
    unfolding set_gen
    set_gen-Keeps gen = record { kept = λ s h. h }

    encode_in_place-Keeps : K encode_in_place
    unfolding encode_in_place
    encode_in_place-Keeps = record { kept = λ s h. encode-Kept s.world S.codec s.doc h }

    save_generation-Keeps : (text : Str) (gen : ℕ) → K (save_generation text gen)
    unfolding save_generation
    save_generation-Keeps text gen =
        next (wrap-Keeps _ (clerk (Clerical.write_generation gen text)))
          λ _. next (clerk (Clerical.write_head gen text)) λ _. set_gen-Keeps gen

    save_journal_generation-Keeps : (text : Str) → K (save_journal_generation text)
    unfolding save_journal_generation
    save_journal_generation-Keeps text = gets-Keeps _ λ s h. save_generation-Keeps text _

    pub save_journal-Keeps : K save_journal
    unfolding save_journal
    save_journal-Keeps =
        next (set_doc-Keeps _ λ w d h. h)
          λ _. next encode_in_place-Keeps save_journal_generation-Keeps

    pub enter-Keeps : (i : ℕ) (phase : Phase) → Free i → K (enter i phase)
    unfolding set_phase
    enter-Keeps i phase free = next (alter_plan-Keeps i _ free λ op h. h) λ _. save_journal-Keeps

    pub hooked-Keeps : (e : Error) (name : Str) (i : ℕ) → K (hooked e name i)
    hooked-Keeps e name i = wrap-Keeps _ (clerk (Clerical.hook name i))

    pub set_state-Keeps : (state : DocState) → K (set_state state)
    unfolding set_state
    set_state-Keeps state = next (set_doc-Keeps _ λ w d h. h) λ _. save_journal-Keeps

    -- What is planned at an index fits, since all of the plan does.
    abbrev pub FitsAt : Option Op → Type 0
    FitsAt none = ⊤
    FitsAt (some op) = Fits F op

    pub at-Fits : (plan : List Op) (i : ℕ) → Each (Fits F) plan → FitsAt (get_elem? plan i)
    at-Fits [] i h = tt
    at-Fits (op ∷ plan) zero h = h.0
    at-Fits (op ∷ plan) (suc i) h = at-Fits plan i h.1
