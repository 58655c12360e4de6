-- ===== src/Base/Sums.antt =====
-- Sums over lists of strings, compared by how often each string stands in them.
use Prim.Native.Nat.{ℕ, ◌+◌, ◌≤◌, ◌<◌}
use mathlib.Core.Path.{◌≡◌, refl}
use mathlib.Core.Logic.{inl, inr}
use mathlib.Core.List.{List, [], ◌∷◌, ◌++◌}
use native.Mathlib.Omega.{arith}
use m.Base.Tests.{if◌then◌else◌, Bool-cases, ltb}
use m.Base.Lists.{length}
use m.Base.Strings.{Str, str_eq, str_eq_refl, str_eq_iff, count}

-- the first occurrence is taken out
erase : Str → List Str → List Str
erase x [] = []
erase x (y ∷ ys) = if str_eq x y then ys else y ∷ erase x ys

count-erase :
    (a x : Str) (ys : List Str)
    → 0 < count x ys
    → count a ys ≡ (if str_eq a x then 1 else 0) + count a (erase x ys)
unfolding count erase
count-erase a x [] h = absurd (omega arith)
count-erase a x (y ∷ ys) h =
    ground (arith, str_eq_iff x y, str_eq_iff a x, str_eq_iff a y, count-erase a x ys)

unfoldable pub sum_by : (Str → ℕ) → List Str → ℕ
sum_by f [] = 0
sum_by f (x ∷ xs) = f x + sum_by f xs

sum_by-erase :
    (f : Str → ℕ) (x : Str) (ys : List Str)
    → 0 < count x ys
    → sum_by f ys ≡ f x + sum_by f (erase x ys)
unfolding sum_by erase count
sum_by-erase f x [] h = absurd (omega arith)
sum_by-erase f x (y ∷ ys) h = ground (arith, str_eq_iff x y, sum_by-erase f x ys)

pub sum_by-append :
    (f : Str → ℕ) (xs ys : List Str) → sum_by f (xs ++ ys) ≡ sum_by f xs + sum_by f ys
unfolding sum_by
sum_by-append f [] ys = omega arith
sum_by-append f (x ∷ xs) ys = omega (arith, sum_by-append f xs ys)

-- A sum grows with the list, where only the strings that weigh something count.
pub sum_by-le :
    (f : Str → ℕ) (xs ys : List Str)
    → ((a : Str) → 0 < f a → count a xs ≤ count a ys)
    → sum_by f xs ≤ sum_by f ys
unfolding sum_by count
sum_by-le f [] ys h = omega arith
sum_by-le f (x ∷ xs) ys h = elim (Bool-cases (ltb 0 (f x))) [
  | inl weighs ↦
      let here : 0 < count x ys = ground (arith, h x, str_eq_refl x) in
      omega (
        arith,
        sum_by-erase f x ys here,
        sum_by-le f xs (erase x ys) (λ a pos. omega (arith, h a pos, count-erase a x ys here)),
      )
  | inr weightless ↦
      let rest = sum_by-le f xs ys (λ a pos. omega (arith, h a pos)) in ground (arith, rest)
]

-- The length is the sum of ones.
length-sum_by : (xs : List Str) → sum_by (λ _. 1) xs ≡ length xs
unfolding sum_by
length-sum_by [] = refl
length-sum_by (x ∷ xs) = omega (arith, length-sum_by xs)

pub length-le_of_count :
    (xs ys : List Str) → ((a : Str) → count a xs ≤ count a ys) → length xs ≤ length ys
length-le_of_count xs ys h =
    omega (arith, length-sum_by xs, length-sum_by ys, sum_by-le (λ _. 1) xs ys (λ a _. h a))

-- A list as long as one that holds each of its strings as often holds the same strings as often.
pub count-eq_of_length :
    (xs ys : List Str)
    → ((a : Str) → count a xs ≤ count a ys)
    → length xs ≡ length ys
    → (a : Str) → count a xs ≡ count a ys
unfolding count
count-eq_of_length xs ys h e a = elim (Bool-cases (ltb (count a xs) (count a ys))) [
  | inl less ↦
      absurd
        (omega (arith, length-le_of_count (a ∷ xs) ys (λ c. ground (arith, h c, str_eq_iff c a))))
  | inr full ↦ ground (arith, h a)
]

sum_by-zero : (xs : List Str) → sum_by (λ _. 0) xs ≡ 0
unfolding sum_by
sum_by-zero [] = refl
sum_by-zero (x ∷ xs) = omega (arith, sum_by-zero xs)

sum_by-count_cons :
    (y : Str) (ys xs : List Str)
    → sum_by (λ a. count a (y ∷ ys)) xs ≡ count y xs + sum_by (λ a. count a ys) xs
unfolding sum_by count
sum_by-count_cons y ys [] = omega arith
sum_by-count_cons y ys (x ∷ xs) =
    ground (arith, str_eq_iff x y, str_eq_iff y x, sum_by-count_cons y ys xs)

-- How often the strings of `xs` stand in a list of which each string stands once in `xs`.
pub sum_by-count :
    (ys xs : List Str)
    → ((a : Str) → 0 < count a ys → count a xs ≡ 1)
    → sum_by (λ a. count a ys) xs ≡ length ys
unfolding count
sum_by-count [] xs h = sum_by-zero xs
sum_by-count (y ∷ ys) xs h =
    omega (arith, sum_by-count_cons y ys xs, here, sum_by-count ys xs (λ a pos. h a (omega arith)))
  where
    here : count y xs ≡ 1
    here = ground (arith, h y, str_eq_refl y)
