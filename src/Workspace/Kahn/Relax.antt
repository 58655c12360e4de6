-- ===== src/Workspace/Kahn/Relax.antt =====
-- What one round of the loop does to the degree of each path and to the queue.
use m.Base.{
  ℕ, zero, suc, ◌+◌, ◌-◌, ◌≤◌, ◌<◌, ◌≡◌, refl, sym, ap, ◌∙◌, true, false, ◌&&◌, List, [], ◌∷◌, ◌++◌,
  Str, str_eq, str_eq_iff, str_eq_symm, count, count-append, find_or, put, find_or-put, ltb, ◌==◌,
  if◌then◌else◌, arith, Bool-cases, inl, inr,
}
use m.Base.Int.{ℤ, pos, dec, is_zero}
use m.Workspace.Kahn.{Degrees, relax}

-- A path is queued when the last of `d` dependencies is taken, by the last of `c` edges.
unfoldable pub queued : ℕ → ℕ → ℕ
queued c d = if ltb 0 c && c == d then 1 else 0

degree_of : (d : ℕ) → 0 < d → dec (pos d) ≡ pos (d - 1)
unfolding dec
degree_of zero h = absurd (omega arith)
degree_of (suc d) h = ap pos (omega arith)

pub is_zero_of : (d : ℕ) → is_zero (pos d) ≡ (d == 0)
unfolding is_zero
is_zero_of zero = refl
is_zero_of (suc d) = ground arith

-- one edge to `next`, seen from the path `v`
module _ (v next : Str) (deg : Degrees) (queue : List Str) where
  abbrev taken : ℤ
  taken = dec (find_or (pos 0) next deg)

  abbrev deg' : Degrees
  deg' = put next taken deg

  abbrev queue' : List Str
  queue' = if is_zero taken then queue ++ next ∷ [] else queue

  deg_self :
      (d : ℕ) → str_eq v next ≡ true → find_or (pos 0) v deg ≡ pos d → 0 < d → taken ≡ pos (d - 1)
  deg_self d here e h =
      ap (λ (k : Str). dec (find_or (pos 0) k deg)) (sym ((str_eq_iff v next).0 here))
      ∙ ap dec e
      ∙ degree_of d h

  find_self :
      (d : ℕ)
      → str_eq v next ≡ true
      → find_or (pos 0) v deg ≡ pos d
      → 0 < d
      → find_or (pos 0) v deg' ≡ pos (d - 1)
  find_self d here e h =
      find_or-put (pos 0) next v taken deg ∙ rw (str_eq_symm next v, here) (deg_self d here e h)

  count_self :
      (d : ℕ)
      → str_eq v next ≡ true
      → find_or (pos 0) v deg ≡ pos d
      → 0 < d
      → count v queue' ≡ count v queue + (if d == 1 then 1 else 0)
  unfolding count
  count_self d here e h =
      rw (deg_self d here e h, is_zero_of) (ground (arith, count-append v queue (next ∷ [])))

  find-other : str_eq v next ≡ false → find_or (pos 0) v deg' ≡ find_or (pos 0) v deg
  find-other other = find_or-put (pos 0) next v taken deg ∙ rw (str_eq_symm next v, other)

  count-other : str_eq v next ≡ false → count v queue' ≡ count v queue
  unfolding count
  count-other other = ground (arith, count-append v queue (next ∷ []))

-- With at most as many edges to `v` as it has dependencies left, its degree falls by their number,
-- and `v` is queued once if and only if it falls to zero.
pub relax_lem :
    (v : Str) (l : List Str) (deg : Degrees) (queue : List Str) (d : ℕ)
    → find_or (pos 0) v deg ≡ pos d
    → count v l ≤ d
    → (find_or (pos 0) v (relax l deg queue).0 ≡ pos (d - count v l))
      × (count v (relax l deg queue).1 ≡ count v queue + queued (count v l) d)
unfolding relax queued count
relax_lem v [] deg queue d e h = (e ∙ ap pos (omega arith), ground arith)
relax_lem v (next ∷ rest) deg queue d e h = elim (Bool-cases (str_eq v next)) [
  | inl here ↦
      let some_left : 0 < d = ground arith in
      let r =
        relax_lem v rest (deg' v next deg queue) (queue' v next deg queue) (d - 1)
          (find_self v next deg queue d here e some_left) (ground arith) in
      (r.0 ∙ ap pos (ground arith), ground (arith, r.1, count_self v next deg queue d))
  | inr other ↦
      let r =
        relax_lem v rest (deg' v next deg queue) (queue' v next deg queue) d
          (find-other v next deg queue other ∙ e) (ground arith) in
      (r.0 ∙ ap pos (ground arith), ground (arith, r.1, count-other v next deg queue))
]

-- A path to which no edge leads is not queued.
pub relax-outside :
    (v : Str) (l : List Str) (deg : Degrees) (queue : List Str)
    → count v l ≡ 0
    → count v (relax l deg queue).1 ≡ count v queue
unfolding relax count
relax-outside v [] deg queue h = refl
relax-outside v (next ∷ rest) deg queue h =
    relax-outside v rest (deg' v next deg queue) (queue' v next deg queue) (ground arith)
    ∙ count-other v next deg queue (ground arith)
