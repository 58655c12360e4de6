-- ===== src/Base/Ordered.antt =====
-- What sorting by a `less` function gives: lists in order, which it leaves as they are.
use m.Base.Tests.{Bool-cases}
use m.Base.Lists.{Each}
use m.Base.Sort.{insert, sort}
use mathlib.Core.Path.{◌≡◌, refl, ap, ◌∙◌}
use mathlib.Core.Logic.{inl, inr}
use mathlib.Core.Bool.{Bool, true, false}
use mathlib.Core.List.{List, [], ◌∷◌}

module _ {ℓ} {A : Type ℓ} where
  -- No element is less than the one before it.
  abbrev pub InOrder : (A → A → Bool) → List A → Type 0
  InOrder less [] = Unit
  InOrder less (x ∷ []) = Unit
  InOrder less (x ∷ y ∷ ys) = (less y x ≡ false) × InOrder less (y ∷ ys)

  abbrev pub Asymmetric : (A → A → Bool) → Type ℓ
  Asymmetric less = (x y : A) → less x y ≡ true → less y x ≡ false

  InOrder-insert :
      (less : A → A → Bool)
      → Asymmetric less
      → (x : A) (ys : List A) → InOrder less ys
      → InOrder less (insert less x ys)
  unfolding insert
  InOrder-insert less asym x [] h = tt
  InOrder-insert less asym x (y ∷ []) h = elim (Bool-cases (less y x)) [
    | inl lt ↦ rw lt (asym y x lt, tt)
    | inr ge ↦ rw ge (ge, tt)
  ]
  InOrder-insert less asym x (y ∷ z ∷ ys) h =
      let rest = InOrder-insert less asym x (z ∷ ys) h.1 in
      elim (Bool-cases (less y x)) [
        | inl lt ↦ elim (Bool-cases (less z x)) [
          | inl lt' ↦ rw (lt, lt') (h.0, rw lt' at rest)
          | inr ge' ↦ rw (lt, ge') (asym y x lt, (ge', h.1))
        ]
        | inr ge ↦ rw ge (ge, h)
      ]

  pub InOrder-sort :
      (less : A → A → Bool) → Asymmetric less → (xs : List A) → InOrder less (sort less xs)
  unfolding sort
  InOrder-sort less asym [] = tt
  InOrder-sort less asym (x ∷ xs) =
      InOrder-insert less asym x (sort less xs) (InOrder-sort less asym xs)

  insert_first :
      (less : A → A → Bool) (x : A) (xs : List A)
      → InOrder less (x ∷ xs)
      → insert less x xs ≡ x ∷ xs
  unfolding insert
  insert_first less x [] h = refl
  insert_first less x (y ∷ ys) h = rw (h.0) refl

  InOrder-tail :
      (less : A → A → Bool) (x : A) (xs : List A) → InOrder less (x ∷ xs) → InOrder less xs
  InOrder-tail less x [] h = tt
  InOrder-tail less x (y ∷ ys) h = h.1

  -- A list in order stays as it is.
  pub sort-InOrder : (less : A → A → Bool) (xs : List A) → InOrder less xs → sort less xs ≡ xs
  unfolding sort
  sort-InOrder less [] h = refl
  sort-InOrder less (x ∷ xs) h =
      ap (insert less x) (sort-InOrder less xs (InOrder-tail less x xs h))
      ∙ insert_first less x xs h

module _ {A : Type 0} (P : A → Type 0) where
  Each-insert :
      (less : A → A → Bool) (x : A) (ys : List A) → P x → Each P ys → Each P (insert less x ys)
  unfolding insert
  Each-insert less x [] p h = (p, tt)
  Each-insert less x (y ∷ ys) p h = elim (Bool-cases (less y x)) [
    | inl lt ↦ rw lt (h.0, Each-insert less x ys p h.1)
    | inr ge ↦ rw ge (p, h)
  ]

  pub Each-sort : (less : A → A → Bool) (xs : List A) → Each P xs → Each P (sort less xs)
  unfolding sort
  Each-sort less [] h = tt
  Each-sort less (x ∷ xs) h = Each-insert less x (sort less xs) h.0 (Each-sort less xs h.1)
