-- ===== src/Runner/Aggregate/Leftover.antt =====
-- internal/runner/mux.go: a spill file that an earlier run left behind, in front of what is appended.
use m.Base.{
  ℕ, ◌+◌, ◌-◌, take, drop, ◌≡◌, refl, Option, none, some, List, [], ◌∷◌, ◌++◌, append_assoc, Str,
  length, arith, ltb, if◌then◌else◌,
}
use m.Apperr.{Error}
use m.Runner.Aggregate.{
  aggregate_mem_threshold, aggregate_hard_cap, AggregateBuffer, write_spill, write_capped,
  write_after, write, WriteResult,
}
use m.Runner.Aggregate.Contents.{accepting, write_spill_lem, write_all}

-- The collector whose file holds some bytes in front of its own.
abbrev pub behind : Str → AggregateBuffer → AggregateBuffer
behind on_disk a = record a { file = on_disk ++ a.file }

abbrev behind_result : Str → AggregateBuffer × WriteResult → AggregateBuffer × WriteResult
behind_result on_disk r = (behind on_disk r.0, r.1)

write_spill-behind :
    (on_disk : Str) (n : ℕ) (p : Str) (a : AggregateBuffer)
    → write_spill accepting n p (behind on_disk a)
      ≡ behind_result on_disk (write_spill accepting n p a)
write_spill-behind on_disk n p a =
    rw (write_spill_lem n p (behind on_disk a), write_spill_lem n p a, append_assoc) refl

write_capped-behind :
    (on_disk : Str) (n : ℕ) (p : Str) (a : AggregateBuffer)
    → write_capped accepting n p (behind on_disk a)
      ≡ behind_result on_disk (write_capped accepting n p a)
unfolding write_capped
write_capped-behind on_disk n p a =
    let space : ℕ = aggregate_mem_threshold - length a.mem in
    ground (
      arith,
      write_spill-behind on_disk n p a,
      write_spill-behind on_disk n (drop space p) (record a { mem = a.mem ++ take space p }),
    )

write-behind :
    (on_disk p : Str) (a : AggregateBuffer)
    → write accepting p (behind on_disk a) ≡ behind_result on_disk (write accepting p a)
unfolding write write_after
write-behind on_disk p a = either a.err
  where
    remaining : ℕ
    remaining = aggregate_hard_cap - a.total

    kept : Str
    kept = if ltb remaining (length p) then take remaining p else p

    either :
        (o : Option Error)
        → write_after o accepting p (behind on_disk a)
          ≡ behind_result on_disk (write_after o accepting p a)
    either (some e) = refl
    either none = ground (
      arith,
      write_capped-behind on_disk (length p) kept (record a { total = a.total + length kept }),
    )

-- Accepted writes do not look at the bytes in front.
pub write_all-behind :
    (on_disk : Str) (ps : List Str) (a : AggregateBuffer)
    → write_all ps (behind on_disk a) ≡ (behind on_disk (write_all ps a).0, (write_all ps a).1)
unfolding write_all
write_all-behind on_disk [] a = refl
write_all-behind on_disk (p ∷ ps) a =
    rw (write-behind on_disk p a, write_all-behind on_disk ps (write accepting p a).0) refl
