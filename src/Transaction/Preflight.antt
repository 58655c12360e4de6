-- ===== src/Transaction/Preflight.antt =====
-- internal/transaction/preflight.go: which incomplete transaction is recovered.
pub mod Authority
use m.Base.{
  ℕ, ◌+◌, Bool, true, false, Option, none, some, List, [], ◌∷◌, Str, bytes, ltb, ◌==◌,
  if◌then◌else◌, ◌&&◌, ◌||◌,
}
use m.Apperr.{Code, Error, Result, ok, err}
use m.Transaction.Journal.{Document, DocState}

pub record ScannedTxn : Type 0 where
  pub id : Str
  pub root : Str
  pub state : DocState
  pub journal_gen : ℕ
  pub doc : Document

abbrev pub is_committing : DocState → Bool
is_committing DocState.committing = true
is_committing _ = false

unfoldable pub incomplete_txn_rank : ScannedTxn → ℕ
incomplete_txn_rank t = elim t.state [
  | DocState.committing ↦ 3
  | DocState.validated ↦ 2
  | DocState.staging ↦ 1
  | _ ↦ 0
]

-- Both tests of the loop: a higher rank, or the same rank and a later generation.
unfoldable pub beats : ScannedTxn → ScannedTxn → Bool
beats t best =
    ltb (incomplete_txn_rank best) (incomplete_txn_rank t)
    || (incomplete_txn_rank t == incomplete_txn_rank best && ltb best.journal_gen t.journal_gen)

-- The loop, with what `best` points at and the count `committing`.
unfoldable pub best_of : ScannedTxn → List ScannedTxn → ScannedTxn
best_of best [] = best
best_of best (t ∷ ts) = best_of (if beats t best then t else best) ts

unfoldable pub count_committing : List ScannedTxn → ℕ
count_committing [] = 0
count_committing (t ∷ ts) = (if is_committing t.state then 1 else 0) + count_committing ts

unfoldable pub chosen : ScannedTxn → Bool → Result (Option ScannedTxn)
chosen best true =
    err (record { code = Code.integrity; op = bytes "transaction.scan"; subject = [] })
chosen best false = ok (some best)

unfoldable pub resolve_authoritative_incomplete : List ScannedTxn → Result (Option ScannedTxn)
resolve_authoritative_incomplete [] = ok none
resolve_authoritative_incomplete (t ∷ ts) =
    chosen (best_of t ts) (ltb 1 (count_committing (t ∷ ts)))
