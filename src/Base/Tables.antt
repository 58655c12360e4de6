-- ===== src/Base/Tables.antt =====
-- Go maps whose keys are compared by a function, as association lists, loops over them, and the
-- elements of a list that pass a test.
use mathlib.Core.Path.{◌≡◌, refl, sym, ap, ◌∙◌}
use mathlib.Core.Logic.{◌↔◌, inl, inr}
use mathlib.Core.Bool.{Bool, true, false}
use mathlib.Core.Option.{Option, none, some}
use mathlib.Core.List.{List, [], ◌∷◌, ◌++◌, append-nil}
use native.Mathlib.Omega.{arith}
use m.Base.Tests.{if◌then◌else◌, Bool-cases}
use m.Base.Lists.{Each}
use m.Base.Sort.{insert, sort}

module _ {A : Type 0} where
  -- The elements that pass, in their order.
  unfoldable pub matching : (A → Bool) → List A → List A
  matching p [] = []
  matching p (x ∷ xs) = if p x then x ∷ matching p xs else matching p xs

  pub matching-append :
      (p : A → Bool) (xs ys : List A) → matching p (xs ++ ys) ≡ matching p xs ++ matching p ys
  unfolding matching
  matching-append p [] ys = refl
  matching-append p (x ∷ xs) ys = ground (arith, matching-append p xs ys)

  -- Sorting keeps the elements that pass in their order, when none of them is less than another.
  matching-insert :
      (p : A → Bool) (less : A → A → Bool)
      → ((x y : A) → p x ≡ true → p y ≡ true → less y x ≡ false)
      → (x : A) (ys : List A) → matching p (insert less x ys) ≡ matching p (x ∷ ys)
  unfolding matching insert
  matching-insert p less h x [] = refl
  matching-insert p less h x (y ∷ ys) = ground (arith, matching-insert p less h x ys, h x y)

  pub matching-sort :
      (p : A → Bool) (less : A → A → Bool)
      → ((x y : A) → p x ≡ true → p y ≡ true → less y x ≡ false)
      → (xs : List A) → matching p (sort less xs) ≡ matching p xs
  unfolding sort matching
  matching-sort p less h [] = refl
  matching-sort p less h (x ∷ xs) =
      matching-insert p less h x (sort less xs)
      ∙ ap (λ rest. if p x then x ∷ rest else rest) (matching-sort p less h xs)

module _ {K V : Type 0} (same : K → K → Bool) where
  -- v, ok := m[k]
  unfoldable pub find_by : K → List (K × V) → Option V
  find_by k [] = none
  find_by k ((j, v) ∷ m) = if same k j then some v else find_by k m

  -- m[k] = v
  unfoldable pub put_by : K → V → List (K × V) → List (K × V)
  put_by k v [] = (k, v) ∷ []
  put_by k v ((j, w) ∷ m) = if same k j then (k, v) ∷ m else (j, w) ∷ put_by k v m

  abbrev pub HasUniqueKeys : List (K × V) → Type 0
  HasUniqueKeys [] = Unit
  HasUniqueKeys ((k, v) ∷ m) = (find_by k m ≡ none) × HasUniqueKeys m

  module _ (same_iff : (a b : K) → (same a b ≡ true) ↔ (a ≡ b)) where
    pub find_by-put_by :
        (k j : K) (v : V) (m : List (K × V))
        → find_by k (put_by j v m) ≡ (if same k j then some v else find_by k m)
    unfolding find_by put_by
    find_by-put_by k j v [] = refl
    find_by-put_by k j v ((i, w) ∷ m) =
        ground
          (arith, same_iff j i, same_iff k j, same_iff k i, same_iff i j, find_by-put_by k j v m)

    pub Each-put_by :
        (P : K × V → Type 0) (k : K) (v : V) (m : List (K × V))
        → P (k, v)
        → Each P m
        → Each P (put_by k v m)
    unfolding put_by
    Each-put_by P k v [] p h = (p, tt)
    Each-put_by P k v ((j, w) ∷ m) p h = elim (Bool-cases (same k j)) [
      | inl eq ↦ rw eq (p, h.1)
      | inr ne ↦ rw ne (h.0, Each-put_by P k v m p h.1)
    ]

    pub put_by-HasUniqueKeys :
        (k : K) (v : V) (m : List (K × V)) → HasUniqueKeys m → HasUniqueKeys (put_by k v m)
    unfolding find_by put_by
    put_by-HasUniqueKeys k v [] h = (refl, tt)
    put_by-HasUniqueKeys k v ((j, w) ∷ m) h = elim (Bool-cases (same k j)) [
      | inl eq ↦ rw eq (rw (← (same_iff k j).0 eq) at h.0, h.1)
      | inr ne ↦ rw ne (
        find_by-put_by j k v m ∙ ground (arith, same_iff j k, same_iff k j, h.0),
        put_by-HasUniqueKeys k v m h.1,
      )
    ]

module _ {K V D : Type 0} where
  -- What a loop over a map appends, when its body appends `body k v`.
  unfoldable pub range_over : (K → V → List D) → List (K × V) → List D
  range_over body [] = []
  range_over body ((k, v) ∷ m) = body k v ++ range_over body m

  unfoldable pub at_key : (K → V → List D) → K → Option V → List D
  at_key body k none = []
  at_key body k (some v) = body k v

  -- What the body appends at a key is for that key.
  abbrev pub Appends :
      (same : K → K → Bool) (body : K → V → List D) (is_for : K → D → Bool) → K × V → Type 0
  Appends same body is_for p =
      (k : K) → matching (is_for k) (body p.0 p.1) ≡ (if same k p.0 then body p.0 p.1 else [])

  -- Of what the loop appends, the part for a key is what the body appends at the key.
  pub matching-range_over :
      (same : K → K → Bool)
      → ((a b : K) → (same a b ≡ true) ↔ (a ≡ b))
      → (body : K → V → List D) (is_for : K → D → Bool) (k : K) (m : List (K × V))
      → HasUniqueKeys same m
      → Each (Appends same body is_for) m
      → matching (is_for k) (range_over body m) ≡ at_key body k (find_by same k m)
  unfolding range_over at_key matching find_by
  matching-range_over same same_iff body is_for k [] u h = refl
  matching-range_over same same_iff body is_for k ((j, v) ∷ m) u h =
      let rest = matching-range_over same same_iff body is_for k m u.1 h.1 in
      let here = h.0 k in
      matching-append (is_for k) (body j v) (range_over body m) ∙ elim (Bool-cases (same k j)) [
        | inl eq ↦
            let k_is_j = (same_iff k j).0 eq in
            let alone : find_by same k m ≡ none = rw k_is_j u.0 in
            rw (rest, alone, here, eq) (append-nil (body j v) ∙ ap (λ i. body i v) (sym k_is_j))
        | inr ne ↦ rw (rest, here, ne) refl
      ]
