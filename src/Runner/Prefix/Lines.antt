-- ===== src/Runner/Prefix/Lines.antt =====
-- internal/runner/mux.go: `processBuffer` beside `feed`, a reader of one byte at a time.
use m.Base.{
  ℕ, zero, suc, ◌≤◌, ◌<◌, ◌≡◌, refl, sym, ap, ◌∙◌, Bool, true, false, ◌||◌, Option, none, some, [],
  ◌∷◌, ◌++◌, append-nil, append_assoc, foldl, Str, length, take, drop, ltb, ◌==◌, if◌then◌else◌,
  arith, Bool-cases, inl, inr, ◌⊎◌, Option-cases, length-drop, drop-zero,
}
use m.Runner.Utf8.{trim_partial_utf8_lem}
use m.Runner.Prefix.{
  prefix_writer_max_line, PrefixWriter, cr_size, find_line_break, emit_line, emit_found, last_line,
  process_buffer,
}

-- The reference: a byte ends the line or joins it.
unfoldable pub is_break : ℕ → Bool
is_break c = c == b'\n' || c == b'\r'

pub feed : PrefixWriter → ℕ → PrefixWriter
unfolding is_break
feed w c =
    if is_break c
    then emit_found w.buf (record w { buf = [] })
    else record w { buf = w.buf ++ c ∷ [] }

abbrev pub feed_all : PrefixWriter → Str → PrefixWriter
feed_all = foldl feed

abbrev pub with_buf : PrefixWriter → Str → PrefixWriter
with_buf w b = record w { buf = b }

emit_line-buf :
    (l : Str) (partial : Bool) (w : PrefixWriter) (b : Str)
    → emit_line l partial (with_buf w b) ≡ with_buf (emit_line l partial w) b
unfolding emit_line
emit_line-buf l partial w b = ground arith

emit_found-buf :
    (l : Str) (w : PrefixWriter) (b : Str)
    → emit_found l (with_buf w b) ≡ with_buf (emit_found l w) b
unfolding emit_found
emit_found-buf l w b = ground (arith, emit_line-buf l false w b)

-- What is left to do with `x` behind the bytes `l` of the line, by where the line ends.
unfoldable pub cut : Option (ℕ × ℕ) → Str → Str → PrefixWriter → PrefixWriter
cut none l x w = with_buf w (l ++ x)
cut (some (i, adv)) l x w = feed_all (with_buf (emit_found (l ++ take i x) w) []) (drop adv x)

later : Option (ℕ × ℕ) → Option (ℕ × ℕ)
later none = none
later (some (i, adv)) = some (suc i, suc adv)

find-break :
    (c : ℕ) (s : Str) → is_break c ≡ false → find_line_break (c ∷ s) ≡ later (find_line_break s)
unfolding find_line_break is_break later
find-break c s h = ground arith

cut-later :
    (o : Option (ℕ × ℕ)) (l : Str) (c : ℕ) (s : Str) (w : PrefixWriter)
    → cut (later o) l (c ∷ s) w ≡ cut o (l ++ c ∷ []) s w
unfolding cut later take drop
cut-later none l c s w = rw append_assoc
cut-later (some (i, adv)) l c s w = rw append_assoc

-- a line feed behind a line break changes nothing
feed-lf : (w : PrefixWriter) → feed (with_buf w []) b'\n' ≡ with_buf w []
unfolding feed emit_found
feed-lf w = refl

pub feed-break :
    (c : ℕ) (l : Str) (w : PrefixWriter)
    → is_break c ≡ true
    → feed (with_buf w l) c ≡ with_buf (emit_found l w) []
unfolding feed
feed-break c l w h = rw h (emit_found-buf l w [])

pub feed-join :
    (c : ℕ) (l : Str) (w : PrefixWriter)
    → is_break c ≡ false
    → feed (with_buf w l) c ≡ with_buf w (l ++ c ∷ [])
unfolding feed
feed-join c l w h = rw h

cr_of_is_break : (c : ℕ) → c == b'\n' ≡ false → is_break c ≡ true → c == b'\r' ≡ true
unfolding is_break
cr_of_is_break c h k = ground arith

-- A break takes one byte, or two where a line feed follows a carriage return.
find-is_break :
    (c : ℕ) (s : Str)
    → is_break c ≡ true
    → (find_line_break (c ∷ s) ≡ some (0, 1)) ⊎ (find_line_break (c ∷ s) ≡ some (0, cr_size s))
unfolding find_line_break is_break
find-is_break c s h = elim (Bool-cases (c == b'\n')) [
  | inl lf ↦ inl (rw lf)
  | inr not_lf ↦ inr (rw (not_lf, cr_of_is_break c not_lf h))
]

cr_size-cases : (s : Str) → (cr_size s ≡ 1) ⊎ ((t : Str) × (s ≡ b'\n' ∷ t) × (cr_size s ≡ 2))
unfolding cr_size
cr_size-cases [] = inl refl
cr_size-cases (d ∷ t) = elim (Bool-cases (d == b'\n')) [
  | inl lf ↦ inr (t, ground arith, rw lf)
  | inr no_lf ↦ inl (rw no_lf)
]

cut-break :
    (c : ℕ) (s l : Str) (w : PrefixWriter)
    → is_break c ≡ true
    → feed_all (with_buf (emit_found l w) []) s ≡ cut (find_line_break (c ∷ s)) l (c ∷ s) w
unfolding cut take drop
cut-break c s l w h = elim (find-is_break c s h) [
  | inl one ↦ rw (one, append-nil, drop-zero)
  | inr cr ↦ elim (cr_size-cases s) [
    | inl one ↦ rw (cr, one, append-nil, drop-zero)
    | inr (t, lf, two) ↦
        rw (cr, two, append-nil, lf, drop-zero)
          (ap (λ (v : PrefixWriter). feed_all v t) (feed-lf (emit_found l w)))
  ]
]

pub feed-cut :
    (x l : Str) (w : PrefixWriter) → feed_all (with_buf w l) x ≡ cut (find_line_break x) l x w
feed-cut [] l w = unfold find_line_break cut in rw append-nil
feed-cut (c ∷ s) l w = elim (Bool-cases (is_break c)) [
  | inl h ↦ ap (λ (v : PrefixWriter). feed_all v s) (feed-break c l w h) ∙ cut-break c s l w h
  | inr h ↦
      ap (λ (v : PrefixWriter). feed_all v s) (feed-join c l w h)
      ∙ feed-cut s (l ++ c ∷ []) w
      ∙ sym (rw (find-break c s h) (cut-later (find_line_break s) l c s w))
]

cr_size-pos : (s : Str) → 0 < cr_size s
unfolding cr_size
cr_size-pos [] = omega arith
cr_size-pos (d ∷ t) = ground arith

find-pos : (x : Str) {i adv : ℕ} → find_line_break x ≡ some (i, adv) → 0 < adv
unfolding find_line_break
find-pos [] h = cc
find-pos (c ∷ s) h = ground (arith, cr_size-pos s)

module _ (n c : ℕ) (s : Str) (w : PrefixWriter) (k : length (c ∷ s) ≤ prefix_writer_max_line) where
  not_empty : ltb 0 (length (c ∷ s)) ≡ true
  not_empty = ground arith

  not_long : ltb prefix_writer_max_line (length (c ∷ s)) ≡ false
  not_long = ground arith

  process-none :
      find_line_break (c ∷ s) ≡ none
      → process_buffer (suc n) false (with_buf w (c ∷ s)) ≡ with_buf w (c ∷ s)
  unfolding process_buffer last_line
  process-none e = rw (not_empty, not_long, e, trim_partial_utf8_lem)

  process-some :
      {i adv : ℕ}
      → find_line_break (c ∷ s) ≡ some (i, adv)
      → process_buffer (suc n) false (with_buf w (c ∷ s))
        ≡ process_buffer n false (emit_found (take i (c ∷ s)) (with_buf w (drop adv (c ∷ s))))
  unfolding process_buffer
  process-some e = rw (not_empty, not_long, e)

-- With room for a round per byte the loop does what the reference does byte by byte.
pub process-feed :
    (n : ℕ) (x : Str) (w : PrefixWriter)
    → length x < n
    → length x ≤ prefix_writer_max_line
    → process_buffer n false (with_buf w x) ≡ feed_all (with_buf w []) x
process-feed zero x w h k = absurd (omega arith)
process-feed (suc n) [] w h k = unfold process_buffer in refl
process-feed (suc n) (c ∷ s) w h k = elim (Option-cases (find_line_break (c ∷ s))) [
  | inl e ↦ process-none n c s w k e ∙ sym (feed-cut (c ∷ s) [] w ∙ unfold cut in rw e)
  | inr ((i, adv), e) ↦
      let v : PrefixWriter = emit_found (take i (c ∷ s)) w in
      process-some n c s w k e
      ∙ ap (process_buffer n false) (emit_found-buf (take i (c ∷ s)) w (drop adv (c ∷ s)))
      ∙ process-feed n (drop adv (c ∷ s)) v
          (omega (arith, length-drop adv (c ∷ s), find-pos (c ∷ s) e))
          (omega (arith, length-drop adv (c ∷ s)))
      ∙ sym (feed-cut (c ∷ s) [] w ∙ unfold cut in rw e)
]
