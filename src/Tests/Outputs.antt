-- ===== src/Tests/Outputs.antt =====
-- internal/runner/mux.go on small outputs.
use m.Base.{
  ℕ, ◌≡◌, ◌≤◌, ◌⊎◌, drop, refl, map, false, none, some, List, [], ◌∷◌, ◌++◌, Str, bytes, length,
  take, arith,
}
use m.Apperr.{Code, Error, ok, err}
use m.Runner.Aggregate.{
  AggregateBuffer, new_aggregate_buffer, SpillIo, write, collect, aggregate_hard_cap,
  aggregate_mem_threshold, write_after,
}
use m.Runner.Aggregate.Contents.{concat}
use m.Runner.Aggregate.Contents
use m.Runner.Aggregate.Replay.{after, marker_at, replay, replay_again, write_error_stays}
use m.Runner.Utf8.{trim_partial_utf8, trim_partial_utf8_lem}
use m.Runner.Prefix.{
  PrefixWriter, new_prefix_writer, prefix_writer_max_line, find_line_break, flush,
}
use m.Runner.Prefix
use m.Runner.Prefix.Lines.{feed_all}
use m.Runner.Prefix.Chunks.{IsReady, write_all-concat, write_all_reference}
use m.Runner.Prefix.Chunks

abbrev chunks : List Str
chunks = bytes "ab" ∷ bytes "c" ∷ []

-- what a run that was killed left in the spill file
abbrev stale : Str
stale = bytes "old"

replay_example :
    ((Contents.write_all chunks (new_aggregate_buffer (bytes "k") stale)).1
      ≡ map (λ p. (length p, none)) chunks)
    × (((aggregate_mem_threshold ≤ length (concat chunks))
          × ((collect false (after (bytes "k") stale chunks)).1
              ≡ ok (
                  take aggregate_mem_threshold (concat chunks)
                  ++ (stale
                      ++ (drop aggregate_mem_threshold (take aggregate_hard_cap (concat chunks))
                          ++ marker_at (length (concat chunks)))))))
        ⊎ ((length (concat chunks) ≤ aggregate_mem_threshold)
            × ((collect false (after (bytes "k") stale chunks)).1 ≡ ok (concat chunks))))
replay_example = replay (bytes "k") stale chunks

replay_again_example :
    (collect false (collect false (after (bytes "k") stale chunks)).0).1
    ≡ ok (take aggregate_mem_threshold (concat chunks) ++ marker_at (length (concat chunks)))
replay_again_example = replay_again (bytes "k") stale chunks

abbrev disk_full : Error
disk_full = record { code = Code.io; op = bytes "aggregate.spill"; subject = bytes "k" }

abbrev broken : AggregateBuffer
broken = record (new_aggregate_buffer (bytes "k") []) { err = some disk_full }

abbrev working : SpillIo
working = record { open_err = none; write_fails = false; written = 0 }

abbrev no_bytes : ℕ
no_bytes = 0

write_error_stays_example :
    (no_bytes ≡ 0)
    × (write working (bytes "d") (write working (bytes "c") broken).0
        ≡ ((write working (bytes "c") broken).0, (no_bytes, some disk_full)))
    × (collect false (write working (bytes "c") broken).0
        ≡ ((write working (bytes "c") broken).0, err disk_full))
write_error_stays_example =
    write_error_stays working working (bytes "c") (bytes "d") false broken
      (unfold write write_after new_aggregate_buffer in refl)

trim_partial_utf8_lem_example :
    trim_partial_utf8 (0x61 ∷ 0xe2 ∷ 0x82 ∷ []) ≡ 0x61 ∷ 0xe2 ∷ 0x82 ∷ []
trim_partial_utf8_lem_example = trim_partial_utf8_lem (0x61 ∷ 0xe2 ∷ 0x82 ∷ [])

abbrev writer : PrefixWriter
writer = new_prefix_writer (bytes "p") (λ _. none) false

writer-IsReady : IsReady writer
unfolding new_prefix_writer find_line_break
writer-IsReady = record { healthy = refl; accepts = λ n. refl; open_line = refl }

abbrev cut_lines : List Str
cut_lines = bytes "a\r" ∷ bytes "\nb" ∷ []

write_all-concat_example :
    Chunks.write_all cut_lines writer ≡ (Prefix.write (concat cut_lines) writer).0
unfolding new_prefix_writer
write_all-concat_example = write_all-concat cut_lines writer writer-IsReady (omega arith)

write_all_reference_example :
    (Chunks.write_all cut_lines writer ≡ feed_all writer (concat cut_lines))
    × IsReady (Chunks.write_all cut_lines writer)
unfolding new_prefix_writer
write_all_reference_example = write_all_reference cut_lines writer writer-IsReady (omega arith)
