-- ===== src/Base/Space.antt =====
-- strings.TrimSpace over bytes: the white space is that of Unicode, in UTF-8.
use Prim.Native.Nat.{ℕ, zero, suc}
use mathlib.Core.Bool.{Bool, ◌&&◌, ◌||◌}
use mathlib.Core.Path.{◌≡◌, refl}
use mathlib.Core.List.{[], ◌∷◌, reverse}
use m.Base.Tests.{◌==◌, leb, if◌then◌else◌}
use m.Base.Lists.{length, drop}
use m.Base.Strings.{Str, bytes}

-- The size of the white space of two or three bytes `a`, `b`, `c`, 0 for none.
wide : ℕ → ℕ → ℕ → ℕ
wide a b c =
    if a == 0xc2 && (b == 0x85 || b == 0xa0)
    then 2
    else if a == 0xe1 && b == 0x9a && c == 0x80
    then 3
    else if a == 0xe2
        && b == 0x80
        && (leb 0x80 c && leb c 0x8a || c == 0xa8 || c == 0xa9 || c == 0xaf)
    then 3
    else if a == 0xe2 && b == 0x81 && c == 0x9f
    then 3
    else if a == 0xe3 && b == 0x80 && c == 0x80
    then 3
    else 0

ascii : ℕ → Bool
ascii c = c == b' ' || leb 9 c && leb c 13

-- The size of the white space at the front.
leading : Str → ℕ
unfolding wide ascii
leading [] = 0
leading (a ∷ []) = if ascii a then 1 else 0
leading (a ∷ b ∷ []) = if ascii a then 1 else wide a b 0
leading (a ∷ b ∷ c ∷ s) = if ascii a then 1 else wide a b c

-- The same at the front of the reversed bytes.
trailing : Str → ℕ
unfolding wide ascii
trailing [] = 0
trailing (a ∷ []) = if ascii a then 1 else 0
trailing (a ∷ b ∷ []) = if ascii a then 1 else wide b a 0
trailing (a ∷ b ∷ c ∷ s) = if ascii a then 1 else if wide b a 0 == 2 then 2 else wide c b a

strip : (Str → ℕ) → ℕ → Str → Str
strip size zero s = s
strip size (suc n) s = let rest = strip size n (drop (size s) s) in if size s == 0 then s else rest

unfoldable pub trim_space : Str → Str
unfolding leading trailing strip drop
trim_space s = let t = strip leading (length s) s in reverse (strip trailing (length t) (reverse t))

trim_space_sample : trim_space (9 ∷ bytes " workspace:* ") ≡ bytes "workspace:*"
unfolding trim_space
trim_space_sample = refl
