-- ===== src/Base/Sort.antt =====
-- A stable insertion sort by a `less` function, for sort.Strings and sort.Slice.
use m.Base.Tests.{if◌then◌else◌}
use Prim.Native.Nat.{suc}
use m.Base.Strings.{Str, str_lt, count}
use m.Base.Lists.{length}
use mathlib.Core.Path.{◌≡◌, refl}
use mathlib.Core.Bool.{Bool}
use mathlib.Core.List.{List, [], ◌∷◌}
use native.Mathlib.Omega.{arith}

module _ {ℓ} {A : Type ℓ} (less : A → A → Bool) where
  unfoldable pub insert : A → List A → List A
  insert x [] = x ∷ []
  insert x (y ∷ ys) = if less y x then y ∷ insert x ys else x ∷ y ∷ ys

  unfoldable pub sort : List A → List A
  unfolding insert
  sort [] = []
  sort (x ∷ xs) = insert x (sort xs)

-- sort.Strings
unfoldable pub sort_strings : List Str → List Str
unfolding sort
sort_strings = sort str_lt

pub count-insert : (a x : Str) (ys : List Str) → count a (insert str_lt x ys) ≡ count a (x ∷ ys)
unfolding count insert
count-insert a x [] = refl
count-insert a x (y ∷ ys) = ground (arith, count-insert a x ys)

pub count-sort_strings : (a : Str) (xs : List Str) → count a (sort_strings xs) ≡ count a xs
unfolding sort_strings count
count-sort_strings a [] = refl
count-sort_strings a (x ∷ xs) =
    ground (arith, count-insert a x (sort_strings xs), count-sort_strings a xs)

length-insert : (x : Str) (ys : List Str) → length (insert str_lt x ys) ≡ suc (length ys)
unfolding insert
length-insert x [] = refl
length-insert x (y ∷ ys) = ground (arith, length-insert x ys)

pub length-sort_strings : (xs : List Str) → length (sort_strings xs) ≡ length xs
unfolding sort_strings
length-sort_strings [] = refl
length-sort_strings (x ∷ xs) =
    ground (arith, length-insert x (sort_strings xs), length-sort_strings xs)
