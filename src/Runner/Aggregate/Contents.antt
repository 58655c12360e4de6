-- ===== src/Runner/Aggregate/Contents.antt =====
-- What `AggregateBuffer` holds after any sequence of writes that the file system accepts.
use m.Base.{
  ℕ, ◌+◌, ◌-◌, ◌≤◌, ◌<◌, ◌≡◌, refl, sym, ap, ◌∙◌, ◌⊎◌, inl, inr, true, false, Option, none, List,
  [], ◌∷◌, ◌++◌, append_assoc, append-nil, Str, length, take, drop, ltb, leb, ◌==◌, if◌then◌else◌,
  arith, length-append, length-take, take-append, take-append-drop, take_of_length_le, Bool-cases,
  nil_of_length, map, take-take_append, ==_iff, take-zero,
}
use m.Apperr.{Error}
use m.Runner.Aggregate.{
  write_after, aggregate_mem_threshold, aggregate_hard_cap, AggregateBuffer, SpillIo, append_spill,
  write_spill, write_capped, write,
}

-- The file system accepts everything.
abbrev pub accepting : SpillIo
accepting = record { open_err = none; write_fails = false; written = 0 }

abbrev pub contents : AggregateBuffer → Str
contents a = a.mem ++ a.file

-- No error, the counts agree, nothing is spilled before the memory part is full, and the spill
-- file is open as soon as it holds something, and not before the memory part is full.
pub record IsValid (a : AggregateBuffer) : Type 0 where
  pub healthy : a.err ≡ none
  pub counted : length a.mem + length a.file ≡ a.total
  pub in_memory : length a.mem ≤ aggregate_mem_threshold
  pub spilled : length a.mem < aggregate_mem_threshold → a.file ≡ []
  pub opened : a.spill ≡ false → a.file ≡ []
  pub filled : a.spill ≡ true → aggregate_mem_threshold ≤ length a.mem
  pub capped : a.total ≤ aggregate_hard_cap

append_spill_lem :
    (n : ℕ) (p : Str) (a : AggregateBuffer)
    → append_spill accepting n p a ≡ (record a { file = a.file ++ p }, (n, none))
unfolding append_spill
append_spill_lem n [] a = rw append-nil
append_spill_lem n (c ∷ p) a = ground arith

pub write_spill_lem :
    (n : ℕ) (p : Str) (a : AggregateBuffer)
    → write_spill accepting n p a ≡ (record a { file = a.file ++ p; spill = true }, (n, none))
unfolding write_spill
write_spill_lem n p a =
    ground (arith, append_spill_lem n p a, append_spill_lem n p (record a { spill = true }))

-- The two ways in which bytes below the cap are taken: all into memory, or past it to the file.
data Taken (a : AggregateBuffer) (p : Str) (b : AggregateBuffer) : Type 0 where
  in_mem :
      length a.mem + length p ≤ aggregate_mem_threshold
      → b ≡ record a { mem = a.mem ++ p }
      → Taken a p b
  past_mem :
      (q r : Str)
      → q ++ r ≡ p
      → length a.mem + length q ≡ aggregate_mem_threshold
      → b ≡ record a { mem = a.mem ++ q; file = a.file ++ r; spill = true }
      → Taken a p b

write_capped-Taken :
    (n : ℕ) (p : Str) (a : AggregateBuffer)
    → length a.mem ≤ aggregate_mem_threshold
    → Taken a p (write_capped accepting n p a).0
unfolding write_capped
write_capped-Taken n p a h =
    let space : ℕ = aggregate_mem_threshold - length a.mem in
    elim (Bool-cases (ltb (length a.mem) aggregate_mem_threshold)) [
      | inl room ↦ elim (Bool-cases (leb (length p) space)) [
        | inl fits ↦ in_mem (ground arith) (rw (room, fits))
        | inr over ↦
            past_mem (take space p) (drop space p) (take-append-drop space p)
              (ground (arith, length-take space p)) (rw (room, over, write_spill_lem))
      ]
      | inr full ↦ past_mem [] p refl (ground arith) (rw (full, write_spill_lem, append-nil))
    ]

write_capped-result :
    (n : ℕ) (p : Str) (a : AggregateBuffer) → (write_capped accepting n p a).1 ≡ (n, none)
unfolding write_capped
write_capped-result n p a =
    let space : ℕ = aggregate_mem_threshold - length a.mem in
    ground (
      arith,
      write_spill_lem n p a,
      write_spill_lem n (drop space p) (record a { mem = a.mem ++ take space p }),
    )

-- While memory has room nothing is in the file; at its end nothing more goes into memory.
module _ (a : AggregateBuffer)
    (spilled : length a.mem < aggregate_mem_threshold → a.file ≡ []) where
  mem_or_file :
      (p : Str) → length a.mem + length p ≤ aggregate_mem_threshold → (a.file ≡ []) ⊎ (p ≡ [])
  mem_or_file p h = elim (Bool-cases (ltb (length a.mem) aggregate_mem_threshold)) [
    | inl room ↦ inl (spilled (ground arith))
    | inr full ↦ inr (nil_of_length p (ground arith))
  ]

  Taken-contents : {b : AggregateBuffer} (p : Str) → Taken a p b → contents b ≡ contents a ++ p
  Taken-contents p (in_mem h e) = elim (mem_or_file p h) [
    | inl none_spilled ↦ rw (e, none_spilled) (simp (append-nil))
    | inr nothing ↦ rw (e, nothing) (simp (append-nil))
  ]
  Taken-contents p (past_mem q r split full e) = elim (mem_or_file q (omega arith)) [
    | inl none_spilled ↦ rw (e, ← split, none_spilled) (simp (append-nil, append_assoc))
    | inr nothing ↦ rw (e, ← split, nothing) (simp (append-nil, append_assoc))
  ]

module _ {a : AggregateBuffer} (v : IsValid a) where
  Taken-IsValid :
      {b : AggregateBuffer} {n : ℕ} (p : Str)
      → n ≡ a.total + length p
      → n ≤ aggregate_hard_cap
      → Taken (record a { total = n }) p b
      → IsValid b
  Taken-IsValid p e c (in_mem h d) = rw d (record {
    healthy = v.healthy;
    counted = omega (arith, length-append a.mem p);
    in_memory = omega (arith, length-append a.mem p);
    spilled = λ room. v.spilled (omega (arith, length-append a.mem p));
    opened = v.opened;
    filled = λ open_file. omega (arith, v.filled open_file, length-append a.mem p);
    capped = omega arith;
  })
  Taken-IsValid p e c (past_mem q r split full d) = rw d (record {
    healthy = v.healthy;
    counted =
        omega (
          arith,
          length-append a.mem q,
          length-append a.file r,
          length-append q r,
          ap length split,
        );
    in_memory = omega (arith, length-append a.mem q);
    spilled = λ room. absurd (omega (arith, length-append a.mem q));
    opened = λ shut. cc;
    filled = λ open_file. omega (arith, length-append a.mem q);
    capped = omega arith;
  })

kept_lem : (n : ℕ) (p : Str) → (if ltb n (length p) then take n p else p) ≡ take n p
kept_lem n p = elim (Bool-cases (ltb n (length p))) [
  | inl over ↦ rw over
  | inr fits ↦ rw fits (sym (take_of_length_le n p (ground arith)))
]

write_healthy :
    (io : SpillIo) (p : Str) (a : AggregateBuffer)
    → a.err ≡ none
    → write io p a ≡ (
        let kept = take (aggregate_hard_cap - a.total) p in
        if aggregate_hard_cap - a.total == 0
        then (a, (length p, none))
        else write_capped io (length p) kept (record a { total = a.total + length kept }))
unfolding write
write_healthy io p a h =
    ap (λ (o : Option Error). write_after o io p a) h
    ∙ rw (kept_lem (aggregate_hard_cap - a.total) p)

take-contents :
    (p : Str) (a : AggregateBuffer)
    → IsValid a
    → take aggregate_hard_cap (contents a ++ p)
      ≡ contents a ++ take (aggregate_hard_cap - a.total) p
take-contents p a v =
    let size : length (contents a) ≡ a.total = length-append a.mem a.file ∙ v.counted in
    take-append aggregate_hard_cap (contents a) p
    ∙ rw (take_of_length_le aggregate_hard_cap (contents a) (omega arith), size) refl

-- One accepted write keeps what fits under the cap, reports every byte as written, and leaves the
-- collector valid.
write_lem :
    (p : Str) (a : AggregateBuffer)
    → IsValid a
    → IsValid (write accepting p a).0
      × (contents (write accepting p a).0 ≡ take aggregate_hard_cap (contents a ++ p))
      × ((write accepting p a).1 ≡ (length p, none))
unfolding write
write_lem p a v =
    let left : ℕ = aggregate_hard_cap - a.total in
    let kept : Str = take left p in
    let b : AggregateBuffer = record a { total = a.total + length kept } in
    let taken : Taken b kept (write_capped accepting (length p) kept b).0 =
      write_capped-Taken (length p) kept b v.in_memory in
    rw (write_healthy accepting p a v.healthy, take-contents p a v)
      (elim (Bool-cases (left == 0)) [
        | inl full ↦ rw full (
          v,
          sym (
              ap (λ (k : ℕ). contents a ++ take k p) ((==_iff left 0).0 full)
              ∙ rw (take-zero p, append-nil)),
          refl,
        )
        | inr room ↦ rw room (
          Taken-IsValid v kept refl (ground (arith, length-take left p)) taken,
          Taken-contents b v.spilled kept taken,
          write_capped-result (length p) kept b,
        )
      ])

-- A run of writes, each with what io.Writer returned.
unfoldable pub write_all : List Str → AggregateBuffer → AggregateBuffer × List (ℕ × Option Error)
write_all [] a = (a, [])
write_all (p ∷ ps) a =
    let (b, r) = write accepting p a in let (c, rs) = write_all ps b in (c, r ∷ rs)

abbrev pub concat : List Str → Str
concat [] = []
concat (p ∷ ps) = p ++ concat ps

-- A run of accepted writes keeps the first bytes up to the cap, and reports every byte as written.
pub write_all_lem :
    (ps : List Str) (a : AggregateBuffer)
    → IsValid a
    → IsValid (write_all ps a).0
      × (contents (write_all ps a).0 ≡ take aggregate_hard_cap (contents a ++ concat ps))
      × ((write_all ps a).1 ≡ map (λ p. (length p, none)) ps)
unfolding write_all
write_all_lem [] a v = (
  v,
  sym (
      rw append-nil (
        take_of_length_le aggregate_hard_cap (contents a)
          (omega (arith, v.counted, v.capped, length-append a.mem a.file)))),
  refl,
)
write_all_lem (p ∷ ps) a v =
    let one = write_lem p a v in
    let rest = write_all_lem ps (write accepting p a).0 one.0 in
    (
      rest.0,
      rest.1
          ∙ ap (λ (s : Str). take aggregate_hard_cap (s ++ concat ps)) one.1
          ∙ take-take_append aggregate_hard_cap (contents a ++ p) (concat ps)
          ∙ ap (take aggregate_hard_cap) (append_assoc (contents a) p (concat ps)),
      cc (one.2, rest.2),
    )
