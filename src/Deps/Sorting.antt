-- ===== src/Deps/Sorting.antt =====
-- internal/graph/validate.go and id.go: the orders by which importers, packages, edges and peer
-- providers are sorted.
use m.Base.{
  ◌≡◌, refl, Bool, true, false, Str, str_eq, str_lt, str_eq_iff, str_eq_symm, [], ◌∷◌,
  if◌then◌else◌, arith,
}
use m.Base.Ordered.{Asymmetric}
use m.Deps.{PeerProvider, Edge, Package, Importer, package_key}

-- `if a.f != b.f { return a.f < b.f }`, and then the rest of the comparison
unfoldable pub by_field : {A : Type 0} → (A → Str) → (A → A → Bool) → A → A → Bool
by_field f rest a b = if str_eq (f a) (f b) then rest a b else str_lt (f a) (f b)

-- `return a.f < b.f`
unfoldable pub by_last : {A : Type 0} → (A → Str) → A → A → Bool
by_last f a b = str_lt (f a) (f b)

-- the functions that Validate and `PeerProviderContext.Sort` sort by
unfoldable pub importer_less : Importer → Importer → Bool
unfolding by_last
importer_less = by_last (λ im. im.id)

unfoldable pub package_less : Package → Package → Bool
unfolding by_last
package_less = by_last (λ p. package_key p.id)

unfoldable pub edge_less : Edge → Edge → Bool
unfolding by_field by_last
edge_less =
    by_field (λ e. e.from)
      (by_field (λ e. e.name)
        (by_field (λ e. e.to) (by_field (λ e. e.kind) (by_last (λ e. e.range)))))

unfoldable pub provider_less : PeerProvider → PeerProvider → Bool
unfolding by_field by_last
provider_less = by_field (λ p. p.name) (by_last (λ p. p.version))

pub str_lt_asymm : (s t : Str) → str_lt s t ≡ true → str_lt t s ≡ false
unfolding str_lt
str_lt_asymm [] [] h = refl
str_lt_asymm [] (y ∷ ys) h = refl
str_lt_asymm (x ∷ xs) [] h = absurd (ground arith)
str_lt_asymm (x ∷ xs) (y ∷ ys) h = ground (arith, str_lt_asymm xs ys)

pub str_lt_trans : (s t u : Str) → str_lt s t ≡ true → str_lt t u ≡ true → str_lt s u ≡ true
unfolding str_lt
str_lt_trans [] [] u h k = k
str_lt_trans [] (y ∷ ys) [] h k = k
str_lt_trans [] (y ∷ ys) (z ∷ zs) h k = refl
str_lt_trans (x ∷ xs) [] u h k = absurd (ground arith)
str_lt_trans (x ∷ xs) (y ∷ ys) [] h k = k
str_lt_trans (x ∷ xs) (y ∷ ys) (z ∷ zs) h k = ground (arith, str_lt_trans xs ys zs)

-- Of two strings that are not equal one is less.
pub str_lt_total : (s t : Str) → str_lt t s ≡ false → str_eq s t ≡ false → str_lt s t ≡ true
unfolding str_lt str_eq
str_lt_total [] [] h k = absurd (ground arith)
str_lt_total [] (y ∷ ys) h k = refl
str_lt_total (x ∷ xs) [] h k = absurd (ground arith)
str_lt_total (x ∷ xs) (y ∷ ys) h k = ground (arith, str_lt_total xs ys)

str_lt→ne : (s t : Str) → str_lt s t ≡ true → str_eq s t ≡ false
str_lt→ne s t h = ground (arith, str_lt_asymm s t, str_eq_iff s t)

module _ {A : Type 0} where
  pub by_last-Asymmetric : (f : A → Str) → Asymmetric (by_last f)
  unfolding by_last
  by_last-Asymmetric f x y h = str_lt_asymm (f x) (f y) h

  pub by_field-Asymmetric :
      (f : A → Str) (rest : A → A → Bool) → Asymmetric rest → Asymmetric (by_field f rest)
  unfolding by_field
  by_field-Asymmetric f rest asym x y h =
      ground (arith, str_eq_symm (f x) (f y), str_lt_asymm (f x) (f y), asym x y)

pub edge_less-Asymmetric : Asymmetric edge_less
unfolding edge_less
edge_less-Asymmetric = by_field-Asymmetric _ _ (
    by_field-Asymmetric _ _
      (by_field-Asymmetric _ _ (by_field-Asymmetric _ _ (by_last-Asymmetric _))))

pub package_less-Asymmetric : Asymmetric package_less
unfolding package_less
package_less-Asymmetric = by_last-Asymmetric _

pub importer_less-Asymmetric : Asymmetric importer_less
unfolding importer_less
importer_less-Asymmetric = by_last-Asymmetric _

pub provider_less-Asymmetric : Asymmetric provider_less
unfolding provider_less
provider_less-Asymmetric = by_field-Asymmetric _ _ (by_last-Asymmetric _)
