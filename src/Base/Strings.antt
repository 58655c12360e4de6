-- ===== src/Base/Strings.antt =====
-- Go strings as lists of bytes: equality, the order of `<` (bytewise, a proper prefix first),
-- prefixes, and how often a string stands in a list.
use Prim.Native.Nat.{ℕ, ◌+◌, ◌<◌}
use Prim.Native.Char.{code}
use Prim.Native.String.{String}
use mathlib.Core.Path.{◌≡◌, refl}
use mathlib.Core.Logic.{◌↔◌}
use mathlib.Core.Bool.{Bool, true, false, ◌&&◌, ◌||◌}
use mathlib.Core.List.{List, [], ◌∷◌, ◌++◌}
use native.Mathlib.Omega.{arith}
use m.Base.Tests.{ltb, ◌==◌, if◌then◌else◌}

abbrev pub Str : Type 0
Str = List ℕ

-- The bytes of a literal in ASCII.
abbrev pub bytes : String → Str
bytes String.[] = []
bytes (String.◌∷◌ c s) = code c ∷ bytes s

unfoldable pub str_eq : Str → Str → Bool
str_eq [] [] = true
str_eq [] (y ∷ ys) = false
str_eq (x ∷ xs) [] = false
str_eq (x ∷ xs) (y ∷ ys) = x == y && str_eq xs ys

-- `a < b` on strings.
unfoldable pub str_lt : Str → Str → Bool
str_lt [] [] = false
str_lt [] (y ∷ ys) = true
str_lt (x ∷ xs) [] = false
str_lt (x ∷ xs) (y ∷ ys) = ltb x y || (x == y && str_lt xs ys)

-- strings.HasPrefix(s, pre)
unfoldable pub has_prefix : Str → Str → Bool
has_prefix s [] = true
has_prefix [] (p ∷ ps) = false
has_prefix (c ∷ s) (p ∷ ps) = c == p && has_prefix s ps

pub str_eq→eq : (s t : Str) → str_eq s t ≡ true → s ≡ t
unfolding str_eq
str_eq→eq [] [] h = refl
str_eq→eq [] (y ∷ ys) h = cc
str_eq→eq (x ∷ xs) [] h = cc
str_eq→eq (x ∷ xs) (y ∷ ys) h = ground (arith, str_eq→eq xs ys)

pub str_eq_refl : (s : Str) → str_eq s s ≡ true
unfolding str_eq
str_eq_refl [] = refl
str_eq_refl (x ∷ xs) = ground (arith, str_eq_refl xs)

-- The form that `ground` takes at each pair of strings that is compared.
pub str_eq_iff : (s t : Str) → (str_eq s t ≡ true) ↔ (s ≡ t)
str_eq_iff s t = (str_eq→eq s t, λ e. rw e (str_eq_refl t))

pub str_eq_symm : (s t : Str) → str_eq s t ≡ str_eq t s
str_eq_symm s t = ground (arith, str_eq_iff s t, str_eq_iff t s)

-- `_, ok := set[x]` for a set of strings that is kept as a list.
unfoldable pub elem : Str → List Str → Bool
elem x [] = false
elem x (y ∷ ys) = str_eq x y || elem x ys

pub elem-append : (x : Str) (ys zs : List Str) → elem x (ys ++ zs) ≡ (elem x ys || elem x zs)
unfolding elem
elem-append x [] zs = refl
elem-append x (y ∷ ys) zs = ground (arith, elem-append x ys zs)

-- How often `x` stands in a list.
unfoldable pub count : Str → List Str → ℕ
count x [] = 0
count x (y ∷ ys) = (if str_eq x y then 1 else 0) + count x ys

pub count-append : (x : Str) (ys zs : List Str) → count x (ys ++ zs) ≡ count x ys + count x zs
unfolding count
count-append x [] zs = omega arith
count-append x (y ∷ ys) zs = omega (arith, count-append x ys zs)

pub elem→count : (x : Str) (ys : List Str) → elem x ys ≡ true → 0 < count x ys
unfolding elem count
elem→count x [] h = cc
elem→count x (y ∷ ys) h = ground (arith, elem→count x ys)

not_elem→count : (x : Str) (ys : List Str) → elem x ys ≡ false → count x ys ≡ 0
unfolding elem count
not_elem→count x [] h = refl
not_elem→count x (y ∷ ys) h = ground (arith, not_elem→count x ys)

pub count→elem : (x : Str) (ys : List Str) → 0 < count x ys → elem x ys ≡ true
unfolding elem count
count→elem x [] h = absurd (omega arith)
count→elem x (y ∷ ys) h = ground (arith, count→elem x ys)

-- Membership is a positive count.
pub elem_of_count :
    (xs ys : List Str) → ((a : Str) → count a xs ≡ count a ys) → (a : Str) → elem a xs ≡ elem a ys
elem_of_count xs ys h a =
    ground (arith, h a, elem→count a xs, not_elem→count a xs, elem→count a ys, not_elem→count a ys)
