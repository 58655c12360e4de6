-- ===== src/Runner/Aggregate/Replay.antt =====
-- internal/runner/mux.go: `AggregateBuffer.Bytes` after any writes, and calls after a failed one.
use m.Base.{
  ℕ, ◌-◌, ◌≤◌, ◌⊎◌, true, drop, ◌≡◌, refl, sym, map, ap, ◌∙◌, Bool, false, Option, none, some, List,
  [], ◌∷◌, ◌++◌, append-nil, Str, length, take, leb, ltb, min, if◌then◌else◌, arith, length-append,
  length-take, take_of_length_le, Bool-cases, take-append, take-zero, take-take, append_assoc,
  drop-zero, inl, inr,
}
use mathlib.Core.Path.{ap₂}
use m.Apperr.{Error, Result, ok, err}
use m.Runner.Aggregate.{
  aggregate_mem_threshold, aggregate_hard_cap, aggregate_trunc_marker, AggregateBuffer,
  new_aggregate_buffer, SpillIo, append_spill, write_spill, write_capped, write, read_all,
  collect_after, collect,
}
use m.Runner.Aggregate.Contents.{IsValid, contents, write_all, concat, write_all_lem}
use m.Runner.Aggregate.Leftover.{behind, write_all-behind}

new-IsValid : (key : Str) → IsValid (new_aggregate_buffer key [])
unfolding new_aggregate_buffer
new-IsValid key = record {
  healthy = refl;
  counted = omega arith;
  in_memory = omega arith;
  spilled = λ _. refl;
  opened = λ _. refl;
  filled = λ open_file. absurd (ground arith);
  capped = omega arith;
}

abbrev pub marker_at : ℕ → Str
marker_at n = if leb aggregate_hard_cap n then aggregate_trunc_marker else []

marker_at-room : (n : ℕ) → n ≤ aggregate_mem_threshold → marker_at n ≡ []
marker_at-room n h = ground arith

marker_at-min : (n : ℕ) → marker_at (min aggregate_hard_cap n) ≡ marker_at n
marker_at-min n = ground arith

-- `Bytes` of a collector without an error: what `readAll` returns, and the marker at the cap.
collect_lem :
    (a : AggregateBuffer) (out : Str)
    → a.err ≡ none
    → read_all false a ≡ ok out
    → collect false a ≡ (record a { spill = false }, ok (out ++ marker_at a.total))
unfolding collect
collect_lem a out healthy read =
    ap₂ (λ (o : Option Error) (r : Result Str). collect_after o r a) healthy read
    ∙ elim (Bool-cases (leb aggregate_hard_cap a.total)) [
      | inl capped ↦ rw (capped, collect_after)
      | inr room ↦ rw (room, append-nil, collect_after)
    ]

-- `readAll` of a collector that the file system does not fail.
abbrev read_of : Bool → AggregateBuffer → Str
read_of open_file a = if open_file then a.mem ++ a.file else a.mem

read_all-read_of : (a : AggregateBuffer) → read_all false a ≡ ok (read_of a.spill a)
unfolding read_all
read_all-read_of a = ground arith

nothing_left :
    (a : AggregateBuffer)
    → ltb (length a.mem) aggregate_mem_threshold ≡ false
    → aggregate_mem_threshold - length a.mem ≡ 0
nothing_left a h = ground arith

-- what the memory part holds
mem-IsValid : (a : AggregateBuffer) → IsValid a → a.mem ≡ take aggregate_mem_threshold (contents a)
mem-IsValid a v = elim (Bool-cases (ltb (length a.mem) aggregate_mem_threshold)) [
  | inl room ↦ sym (
      rw (v.spilled (ground arith), append-nil)
        (take_of_length_le aggregate_mem_threshold a.mem v.in_memory))
  | inr full ↦ sym (
      take-append aggregate_mem_threshold a.mem a.file
      ∙ rw (take_of_length_le aggregate_mem_threshold a.mem v.in_memory) (
          ap (λ (k : ℕ). a.mem ++ take k a.file) (nothing_left a full)
          ∙ rw (take-zero a.file, append-nil)))
]

-- the collector after the writes `ps`, when its spill file held `on_disk`
abbrev pub after : Str → Str → List Str → AggregateBuffer
after key on_disk ps = (write_all ps (new_aggregate_buffer key on_disk)).0

-- the collector after the writes `ps`, when there was no spill file
abbrev clean : Str → List Str → AggregateBuffer
clean key ps = after key [] ps

clean-IsValid : (key : Str) (ps : List Str) → IsValid (clean key ps)
clean-IsValid key ps = (write_all_lem ps (new_aggregate_buffer key []) (new-IsValid key)).0

contents-clean :
    (key : Str) (ps : List Str) → contents (clean key ps) ≡ take aggregate_hard_cap (concat ps)
unfolding new_aggregate_buffer
contents-clean key ps = (write_all_lem ps (new_aggregate_buffer key []) (new-IsValid key)).1

marker-clean :
    (key : Str) (ps : List Str)
    → marker_at (length (contents (clean key ps))) ≡ marker_at (length (concat ps))
marker-clean key ps =
    rw (contents-clean key ps, length-take aggregate_hard_cap (concat ps))
      (marker_at-min (length (concat ps)))

-- What was on disk stands in front of what the writes spill.
new-behind :
    (key on_disk : Str)
    → new_aggregate_buffer key on_disk ≡ behind on_disk (new_aggregate_buffer key [])
unfolding new_aggregate_buffer
new-behind key on_disk = rw append-nil refl

write_all-new :
    (key on_disk : Str) (ps : List Str)
    → write_all ps (new_aggregate_buffer key on_disk)
      ≡ (behind on_disk (clean key ps), (write_all ps (new_aggregate_buffer key [])).1)
write_all-new key on_disk ps =
    ap (write_all ps) (new-behind key on_disk)
    ∙ write_all-behind on_disk ps (new_aggregate_buffer key [])

drop-length : (xs ys : Str) → drop (length xs) (xs ++ ys) ≡ ys
unfolding drop
drop-length [] ys = drop-zero ys
drop-length (x ∷ xs) ys = drop-length xs ys

-- The two shapes of a valid collector.
data Shape (a : AggregateBuffer) : Type 0 where
  open_file :
      a.spill ≡ true
      → aggregate_mem_threshold ≤ length (contents a)
      → a.file ≡ drop aggregate_mem_threshold (contents a)
      → Shape a
  in_memory :
      a.spill ≡ false → a.mem ≡ contents a → length (contents a) ≤ aggregate_mem_threshold → Shape a

shape : (a : AggregateBuffer) → IsValid a → Shape a
shape a v = elim (Bool-cases a.spill) [
  | inl spilled ↦ open_file spilled (omega (arith, v.filled spilled, length-append a.mem a.file)) (
      sym (
        ap (λ (n : ℕ). drop n (contents a)) {x = aggregate_mem_threshold} {y = length a.mem}
          (omega (arith, v.filled spilled, v.in_memory))
        ∙ drop-length a.mem a.file))
  | inr shut ↦
      in_memory shut (sym (rw (v.opened shut) (append-nil a.mem)))
        (omega (arith, v.in_memory, length-append a.mem a.file, ap length (v.opened shut)))
]

module _ (key on_disk : Str) (ps : List Str) where
  -- What `Bytes` returns and leaves, by what the same writes leave without a file on the disk.
  collect-after : (collect false (after key on_disk ps)) ≡ (
    record (behind on_disk (clean key ps)) { spill = false },
    ok (
        read_of (clean key ps).spill (behind on_disk (clean key ps))
        ++ marker_at (length (concat ps))),
  )
  collect-after =
      let a : AggregateBuffer = clean key ps in
      let v = clean-IsValid key ps in
      let size : a.total ≡ length (contents a) = sym (length-append a.mem a.file ∙ v.counted) in
      ap (λ (r : AggregateBuffer × List (ℕ × Option Error)). collect false r.0)
        (write_all-new key on_disk ps)
      ∙ collect_lem (behind on_disk a) (read_of a.spill (behind on_disk a)) v.healthy
          (read_all-read_of (behind on_disk a))
      ∙ ap
          (λ (m : Str). (
            record (behind on_disk a) { spill = false },
            ok (read_of a.spill (behind on_disk a) ++ m),
          ))
          (ap marker_at size ∙ marker-clean key ps)

  -- The memory part holds the first bytes that were written.
  mem-clean : (clean key ps).mem ≡ take aggregate_mem_threshold (concat ps)
  mem-clean =
      mem-IsValid (clean key ps) (clean-IsValid key ps)
      ∙ ap (take aggregate_mem_threshold) (contents-clean key ps)
      ∙ take-take aggregate_mem_threshold aggregate_hard_cap (concat ps) (omega arith)

  size-clean : length (contents (clean key ps)) ≡ min aggregate_hard_cap (length (concat ps))
  size-clean = ap length (contents-clean key ps) ∙ length-take aggregate_hard_cap (concat ps)

  collected :
      Shape (clean key ps)
      → ((aggregate_mem_threshold ≤ length (concat ps))
          × ((collect false (after key on_disk ps)).1
              ≡ ok (
                  take aggregate_mem_threshold (concat ps)
                  ++ (on_disk
                      ++ (drop aggregate_mem_threshold (take aggregate_hard_cap (concat ps))
                          ++ marker_at (length (concat ps)))))))
        ⊎ ((length (concat ps) ≤ aggregate_mem_threshold)
            × ((collect false (after key on_disk ps)).1 ≡ ok (concat ps)))
  collected (open_file spilled enough rest) = inl (
    ground (arith, size-clean),
    ap (λ (r : AggregateBuffer × Result Str). r.1) collect-after
        ∙ rw (spilled, mem-clean, rest, contents-clean key ps) (simp (append_assoc)),
  )
  collected (in_memory shut all small) = inr (
    ground (arith, size-clean),
    ap (λ (r : AggregateBuffer × Result Str). r.1) collect-after
        ∙ rw (shut, all, contents-clean key ps)
            (ap₂ (λ (s t : Str). ok (s ++ t))
                (take_of_length_le aggregate_hard_cap (concat ps) (ground (arith, size-clean)))
                (marker_at-room (length (concat ps)) (ground (arith, size-clean)))
              ∙ rw append-nil refl),
  )

-- After any writes that the file system accepts, however the bytes are cut into writes, and
-- whatever the spill file held before: each write reports all its bytes, and either at least as
-- many bytes as memory takes were written, and Bytes returns these first ones, then what the spill
-- file held before, then the rest up to the cap, with the marker behind if and only if at least as
-- many bytes as the cap were written; or at most so many were written, and Bytes returns them
-- alone.
pub replay :
    (key on_disk : Str) (ps : List Str)
    → ((write_all ps (new_aggregate_buffer key on_disk)).1 ≡ map (λ p. (length p, none)) ps)
      × (((aggregate_mem_threshold ≤ length (concat ps))
            × ((collect false (after key on_disk ps)).1
                ≡ ok (
                    take aggregate_mem_threshold (concat ps)
                    ++ (on_disk
                        ++ (drop aggregate_mem_threshold (take aggregate_hard_cap (concat ps))
                            ++ marker_at (length (concat ps)))))))
          ⊎ ((length (concat ps) ≤ aggregate_mem_threshold)
              × ((collect false (after key on_disk ps)).1 ≡ ok (concat ps))))
replay key on_disk ps = (
  ap (λ (r : AggregateBuffer × List (ℕ × Option Error)). r.1) (write_all-new key on_disk ps)
      ∙ (write_all_lem ps (new_aggregate_buffer key []) (new-IsValid key)).2,
  collected key on_disk ps (shape (clean key ps) (clean-IsValid key ps)),
)

-- A second Bytes after writes that the file system accepts has lost what was spilled, whatever the
-- spill file held before: it returns the bytes of the memory part alone, with the marker as
-- before.
pub replay_again :
    (key on_disk : Str) (ps : List Str)
    → (collect false (collect false (after key on_disk ps)).0).1
      ≡ ok (take aggregate_mem_threshold (concat ps) ++ marker_at (length (concat ps)))
replay_again key on_disk ps =
    let a : AggregateBuffer = clean key ps in
    let v = clean-IsValid key ps in
    let size : a.total ≡ length (contents a) = sym (length-append a.mem a.file ∙ v.counted) in
    let shut : AggregateBuffer = record (behind on_disk a) { spill = false } in
    ap (λ (r : AggregateBuffer × Result Str). (collect false r.0).1) (collect-after key on_disk ps)
    ∙ ap (λ (r : AggregateBuffer × Result Str). r.1)
        (collect_lem shut a.mem v.healthy (read_all-read_of shut))
    ∙ ap₂ (λ (s t : Str). ok (s ++ t)) (mem-clean key on_disk ps)
        (ap marker_at size ∙ marker-clean key ps)

-- A write that fails reports no bytes and leaves its error: every later write, whatever the file
-- system would answer, returns that error with no bytes and changes nothing, and so does Bytes.
pub write_error_stays :
    (io later : SpillIo) (p q : Str) (read_fails : Bool) (a : AggregateBuffer) {n : ℕ} {e : Error}
    → (write io p a).1 ≡ (n, some e)
    → (n ≡ 0)
      × (write later q (write io p a).0 ≡ ((write io p a).0, (0, some e)))
      × (collect read_fails (write io p a).0 ≡ ((write io p a).0, err e))
unfolding write collect write_capped write_spill append_spill
write_error_stays io later p q read_fails a h = ground arith
