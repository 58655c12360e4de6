-- ===== src/Transaction/Preflight/Authority.antt =====
-- internal/transaction/preflight.go: the transaction that is chosen, among those that were found.
use m.Base.{
  Each, ◌<◌, ◌≤◌, ◌≡◌, refl, subst, ◌⊎◌, inl, inr, Bool, true, false, some, List, [], ◌∷◌, ltb,
  if◌then◌else◌, arith, ◌↔◌, ltb→lt, lt→ltb,
}
use m.Apperr.{Error, ok, err}
use m.Transaction.Preflight.{
  ScannedTxn, incomplete_txn_rank, beats, best_of, count_committing, chosen,
  resolve_authoritative_incomplete,
}

-- One of the list.
abbrev pub IsOne : ScannedTxn → List ScannedTxn → Type 0
IsOne a [] = ⊥
IsOne a (t ∷ ts) = (a ≡ t) ⊎ IsOne a ts

beats_self : (t : ScannedTxn) → beats t t ≡ false
unfolding beats
beats_self t = ground arith

beats_trans : (a b c : ScannedTxn) → beats a b ≡ false → beats b c ≡ false → beats a c ≡ false
unfolding beats
beats_trans a b c h k = ground arith

beats_after : (a b c : ScannedTxn) → beats a b ≡ false → beats c b ≡ true → beats a c ≡ false
unfolding beats
beats_after a b c h k = ground arith

-- The best is no worse than what was there, and than each that came.
best_of-start :
    (a best : ScannedTxn) (ts : List ScannedTxn)
    → beats a best ≡ false
    → beats a (best_of best ts) ≡ false
unfolding best_of
best_of-start a best [] h = h
best_of-start a best (t ∷ ts) h =
    best_of-start a (if beats t best then t else best) ts (either (beats t best) refl)
  where
    either : (b : Bool) → beats t best ≡ b → beats a (if b then t else best) ≡ false
    either true wins = beats_after a best t h wins
    either false keeps = h

best_of-all :
    (best : ScannedTxn) (ts : List ScannedTxn) → Each (λ t. beats t (best_of best ts) ≡ false) ts
unfolding best_of
best_of-all best [] = tt
best_of-all best (t ∷ ts) = (
  best_of-start t (if beats t best then t else best) ts (either (beats t best) refl),
  best_of-all (if beats t best then t else best) ts,
)
  where
    either : (b : Bool) → beats t best ≡ b → beats t (if b then t else best) ≡ false
    either true wins = beats_self t
    either false keeps = keeps

best_of-IsOne : (best : ScannedTxn) (ts : List ScannedTxn) → IsOne (best_of best ts) (best ∷ ts)
unfolding best_of
best_of-IsOne best [] = inl refl
best_of-IsOne best (t ∷ ts) =
    either (beats t best) (best_of-IsOne (if beats t best then t else best) ts)
  where
    either :
        (b : Bool)
        → IsOne (best_of (if b then t else best) ts) ((if b then t else best) ∷ ts)
        → IsOne (best_of (if b then t else best) ts) (best ∷ t ∷ ts)
    either true (inl here) = inr (inl here)
    either true (inr there) = inr (inr there)
    either false (inl here) = inl here
    either false (inr there) = inr (inr there)

-- A lower rank, or the same rank and no later generation.
abbrev pub IsNoBetter : ScannedTxn → ScannedTxn → Type 0
IsNoBetter t a =
    (incomplete_txn_rank t < incomplete_txn_rank a)
    ⊎ ((incomplete_txn_rank t ≡ incomplete_txn_rank a) × (t.journal_gen ≤ a.journal_gen))

beaten : (t a : ScannedTxn) → beats t a ≡ false → IsNoBetter t a
unfolding beats
beaten t a h = ground arith

all_beaten :
    (a : ScannedTxn) (ts : List ScannedTxn)
    → Each (λ t. beats t a ≡ false) ts
    → Each (λ t. IsNoBetter t a) ts
all_beaten a [] h = tt
all_beaten a (t ∷ ts) (first, h) = (beaten t a first, all_beaten a ts h)

abbrev Authority : List ScannedTxn → ScannedTxn → Type 0
Authority ts a = IsOne a ts × Each (λ t. IsNoBetter t a) ts × (count_committing ts < 2)

chosen-Authority :
    (b : Bool) (best a : ScannedTxn) (ts : List ScannedTxn)
    → ltb 1 (count_committing ts) ≡ b
    → chosen best b ≡ ok (some a)
    → IsOne best ts
    → Each (λ t. beats t best ≡ false) ts
    → Authority ts a
unfolding chosen
chosen-Authority true best a ts many h one best_of_all = absurd (ground arith)
chosen-Authority false best a ts few h one best_of_all =
    subst (Authority ts) same (one, all_beaten best ts best_of_all, ground arith)
  where
    same : best ≡ a
    same = ground arith

-- The transaction that ResolveAuthoritativeIncomplete picks is one of those it was given, each of
-- them has a lower rank or the same rank and no later generation, and at most one of them was
-- committing.
pub resolve_authoritative_incomplete-Authority :
    (ts : List ScannedTxn) (a : ScannedTxn)
    → resolve_authoritative_incomplete ts ≡ ok (some a)
    → IsOne a ts × Each (λ t. IsNoBetter t a) ts × (count_committing ts < 2)
unfolding resolve_authoritative_incomplete
resolve_authoritative_incomplete-Authority [] a h = absurd (ground arith)
resolve_authoritative_incomplete-Authority (t ∷ ts) a h =
    chosen-Authority _ (best_of t ts) a (t ∷ ts) refl h (best_of-IsOne t ts)
      (best_of-start t t ts (beats_self t), best_of-all t ts)

chosen-cases : (best : ScannedTxn) (b : Bool) → ((e : Error) × (chosen best b ≡ err e)) ↔ (b ≡ true)
unfolding chosen
chosen-cases best true = ((λ h. refl), λ h. (_, refl))
chosen-cases best false = ((λ (e, h). absurd (ground arith)), λ h. absurd (ground arith))

-- ResolveAuthoritativeIncomplete refuses with an error if and only if at least two of the
-- transactions were committing.
pub refuses_ambiguous :
    (ts : List ScannedTxn)
    → ((e : Error) × (resolve_authoritative_incomplete ts ≡ err e)) ↔ (1 < count_committing ts)
unfolding resolve_authoritative_incomplete count_committing
refuses_ambiguous [] = ((λ (e, h). absurd (ground arith)), λ h. absurd (omega arith))
refuses_ambiguous (t ∷ ts) =
    let (forth, back) = chosen-cases (best_of t ts) (ltb 1 (count_committing (t ∷ ts))) in
    (
      (λ h. ltb→lt 1 (count_committing (t ∷ ts)) (forth h)),
      λ h. back (lt→ltb 1 (count_committing (t ∷ ts)) h),
    )
