-- ===== src/Base/Maps.antt =====
-- Go maps with string keys, as association lists. A range over a map visits its keys in no fixed
-- order; here it is the order in which they came in.
use Prim.Native.Nat.{suc}
use mathlib.Core.Path.{◌≡◌, refl, ap}
use m.Base.Lists.{length}
use mathlib.Core.Logic.{◌⊎◌, inl, inr}
use mathlib.Core.Bool.{true, false}
use mathlib.Core.List.{List, [], ◌∷◌}
use mathlib.Core.Option.{Option, none, some}
use native.Mathlib.Omega.{arith}
use m.Base.Tests.{if◌then◌else◌, Bool-cases}
use m.Base.Strings.{Str, str_eq, str_eq_iff, elem}

module _ {ℓ} {V : Type ℓ} where
  -- v, ok := m[k]
  unfoldable pub find : Str → List (Str × V) → Option V
  find k [] = none
  find k ((j, v) ∷ m) = if str_eq k j then some v else find k m

  -- m[k], with the zero value of a missing key
  unfoldable pub find_or : V → Str → List (Str × V) → V
  find_or d k [] = d
  find_or d k ((j, v) ∷ m) = if str_eq k j then v else find_or d k m

  -- m[k] = v
  unfoldable pub put : Str → V → List (Str × V) → List (Str × V)
  put k v [] = (k, v) ∷ []
  put k v ((j, w) ∷ m) = if str_eq k j then (k, v) ∷ m else (j, w) ∷ put k v m

  unfoldable pub keys : List (Str × V) → List Str
  keys [] = []
  keys ((j, v) ∷ m) = j ∷ keys m

  pub find_or-put :
      (d : V) (k j : Str) (v : V) (m : List (Str × V))
      → find_or d j (put k v m) ≡ (if str_eq k j then v else find_or d j m)
  unfolding find_or put
  find_or-put d k j v [] = ground (arith, str_eq_iff j k, str_eq_iff k j)
  find_or-put d k j v ((i, w) ∷ m) =
      ground (
        arith,
        str_eq_iff k i,
        str_eq_iff j k,
        str_eq_iff k j,
        str_eq_iff j i,
        find_or-put d k j v m,
      )

  -- A key that is there keeps its place.
  pub keys-put :
      (k : Str) (v : V) (m : List (Str × V)) → elem k (keys m) ≡ true → keys (put k v m) ≡ keys m
  unfolding keys put elem
  keys-put k v [] h = cc
  keys-put k v ((i, w) ∷ m) h = ground (arith, str_eq_iff k i, keys-put k v m)

  pub length-keys : (m : List (Str × V)) → length (keys m) ≡ length m
  unfolding keys
  length-keys [] = refl
  length-keys ((j, v) ∷ m) = ap suc (length-keys m)

  -- A key is there with its value, or it is not there.
  pub find-keys :
      (k : Str) (m : List (Str × V))
      → ((find k m ≡ none) × (elem k (keys m) ≡ false))
        ⊎ ((v : V) × (find k m ≡ some v) × (elem k (keys m) ≡ true))
  unfolding find keys elem
  find-keys k [] = inl (refl, refl)
  find-keys k ((j, v) ∷ m) = elim (Bool-cases (str_eq k j)) [
    | inl eq ↦ inr (v, rw eq refl, rw eq refl)
    | inr ne ↦ rw ne (find-keys k m)
  ]

  pub find_or-find :
      (d : V) (k : Str) (v : V) (m : List (Str × V)) → find k m ≡ some v → find_or d k m ≡ v
  unfolding find find_or
  find_or-find d k v [] h = absurd (ground arith)
  find_or-find d k v ((j, w) ∷ m) h = ground (arith, find_or-find d k v m)
