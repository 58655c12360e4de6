-- ===== src/Runner/Utf8.antt =====
-- Go's unicode/utf8 as internal/runner/mux.go uses it: `DecodeRune` as far as the size and the
-- validity of the first encoding, and `Valid`; and `trimPartialUTF8` of mux.go.
use m.Base.{
  ℕ, zero, suc, ◌+◌, ◌≤◌, ◌<◌, ◌≡◌, refl, Bool, true, false, ◌&&◌, [], ◌∷◌, Str, length, take, drop,
  ltb, leb, ◌==◌, if◌then◌else◌, arith, length-drop, take_of_length_le,
}

in_range : ℕ → ℕ → ℕ → Bool
in_range lo hi b = leb lo b && leb b hi

-- `n` continuation bytes stand at the front, the first of them in the given range.
continued : ℕ → ℕ → ℕ → Str → Bool
unfolding in_range
continued lo hi zero s = true
continued lo hi (suc n) [] = false
continued lo hi (suc n) (b ∷ s) = in_range lo hi b && continued 0x80 0xbf n s

-- An encoding that is cut off or wrong counts as one byte.
multibyte : ℕ → ℕ → ℕ → Str → Bool × ℕ
multibyte lo hi n s = if continued lo hi n s then (true, suc n) else (false, 1)

-- utf8.DecodeRune: whether the first encoding is valid, and its size (0 at the end).
decode_rune : Str → Bool × ℕ
unfolding continued multibyte
decode_rune [] = (false, 0)
decode_rune (c ∷ s) =
    if ltb c 0x80
    then (true, 1)
    else if ltb c 0xc2
    then (false, 1)
    else if ltb c 0xe0
    then multibyte 0x80 0xbf 1 s
    else if c == 0xe0
    then multibyte 0xa0 0xbf 2 s
    else if c == 0xed
    then multibyte 0x80 0x9f 2 s
    else if ltb c 0xf0
    then multibyte 0x80 0xbf 2 s
    else if c == 0xf0
    then multibyte 0x90 0xbf 3 s
    else if ltb c 0xf4
    then multibyte 0x80 0xbf 3 s
    else if c == 0xf4
    then multibyte 0x80 0x8f 3 s
    else (false, 1)

valid_loop : ℕ → Str → Bool
valid_loop zero s = true
valid_loop (suc n) [] = true
valid_loop (suc n) (c ∷ s) =
    let (good, size) = decode_rune (c ∷ s) in
    let rest = valid_loop n (drop size (c ∷ s)) in if good then rest else false

-- utf8.Valid
pub valid : Str → Bool
unfolding valid_loop decode_rune
valid s = valid_loop (length s) s

-- The loop of `trimPartialUTF8` from index `i`, on fuel for each byte.
trim_loop : ℕ → Str → ℕ → ℕ
trim_loop zero b i = i
trim_loop (suc n) b i =
    let size = (decode_rune (drop i b)).1 in
    let rest = trim_loop n b (i + size) in
    if ltb i (length b) then (if size == 0 then i else rest) else i

pub trim_partial_utf8 : Str → Str
unfolding trim_loop
trim_partial_utf8 b = take (trim_loop (length b) b 0) b

-- An encoding has at least one byte, also where it is cut off.
decode_rune-pos : (s : Str) → 0 < length s → 0 < (decode_rune s).1
unfolding decode_rune
decode_rune-pos [] h = absurd (omega arith)
decode_rune-pos (c ∷ s) h = ground arith

-- The loop ends by its test, at the end of the bytes.
trim_loop-end : (n : ℕ) (b : Str) (i : ℕ) → length b ≤ n + i → length b ≤ trim_loop n b i
unfolding trim_loop
trim_loop-end zero b i h = omega arith
trim_loop-end (suc n) b i h = ground (
  arith,
  decode_rune-pos (drop i b),
  length-drop i b,
  trim_loop-end n b (i + (decode_rune (drop i b)).1),
)

-- trimPartialUTF8 trims nothing: every buffer comes back as it is, also one that ends in a cut off
-- encoding.
pub trim_partial_utf8_lem : (b : Str) → trim_partial_utf8 b ≡ b
unfolding trim_partial_utf8
trim_partial_utf8_lem b = take_of_length_le _ b (trim_loop-end (length b) b 0 (omega arith))

cut_off : decode_rune (0xe2 ∷ 0x82 ∷ []) ≡ (false, 1)
unfolding decode_rune
cut_off = refl

euro : (decode_rune (0xe2 ∷ 0x82 ∷ 0xac ∷ 0x41 ∷ []) ≡ (true, 3))
unfolding decode_rune
euro = refl

not_valid : valid (0x63 ∷ 0xe9 ∷ []) ≡ false
unfolding valid drop
not_valid = refl
