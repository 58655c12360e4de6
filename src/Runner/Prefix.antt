-- ===== src/Runner/Prefix.antt =====
-- internal/runner/mux.go: `PrefixWriter` cuts the output of one task into lines and hands each
-- complete line on, behind a prefix or as a structured event. The mutex makes each call one step.
pub mod Lines
pub mod Chunks
use m.Base.{
  ℕ, zero, suc, ◌+◌, ◌-◌, Bool, true, false, ◌&&◌, Option, none, some, List, [], ◌∷◌, ◌++◌, Str,
  bytes, length, take, drop, ltb, ◌==◌, if◌then◌else◌,
}
use m.Apperr.{Error}
use m.Runner.Aggregate.{aggregate_trunc_marker, WriteResult}
use m.Runner.Utf8.{trim_partial_utf8, valid}

abbrev pub prefix_writer_max_line : ℕ
prefix_writer_max_line = 1048576

-- What leaves the writer: a call of the writer below, or a structured event.
pub data Sent : Type 0 where
  raw : Str → Sent
  child_output : (message : Str) → (partial : Bool) → (seq : ℕ) → Sent

-- `out_error n` is the answer of the writer below to its call number `n`, of which `writes` were
-- made; `sent` are the calls that it accepted and the events. `structured` stands for the test
-- that events are wanted and there is a reporter.
pub record PrefixWriter : Type 0 where
  pub prefix : Str
  pub buf : Str
  pub err : Option Error
  pub structured : Bool
  pub seq : ℕ
  pub out_error : ℕ → Option Error
  pub writes : ℕ
  pub sent : List Sent

-- `NewPrefixWriter`: the prefix is `[pkg] `.
unfoldable pub new_prefix_writer : Str → (ℕ → Option Error) → Bool → PrefixWriter
new_prefix_writer pkg out_error structured = record {
  prefix = bytes "[" ++ pkg ++ bytes "] ";
  buf = [];
  err = none;
  structured = structured;
  seq = 0;
  out_error = out_error;
  writes = 0;
  sent = [];
}

-- How far a carriage return goes, by what stands behind it.
pub cr_size : Str → ℕ
cr_size [] = 1
cr_size (d ∷ _) = if d == b'\n' then 2 else 1

-- `findLineBreak`: where the line ends and where the next one starts; `none` is -1.
unfoldable pub find_line_break : Str → Option (ℕ × ℕ)
unfolding cr_size
find_line_break [] = none
find_line_break (c ∷ s) =
    if c == b'\n'
    then some (0, 1)
    else (if c == b'\r'
        then some (0, cr_size s)
        else elim (find_line_break s) [ none ↦ none | some (i, adv) ↦ some (suc i, suc adv) ])

-- One call of the writer below, with its answer; after an error there are no more calls.
pub answered : Option Error → Str → PrefixWriter → PrefixWriter
answered (some e) s w = record w { err = some e; writes = suc w.writes }
answered none s w = record w { sent = w.sent ++ raw s ∷ []; writes = suc w.writes }

pub out_write : Str → PrefixWriter → PrefixWriter
unfolding answered
out_write s w = elim w.err [ some _ ↦ w | none ↦ answered (w.out_error w.writes) s w ]

-- `emitLine`
pub emit_line : Str → Bool → PrefixWriter → PrefixWriter
unfolding out_write
emit_line line partial w = elim w.err [
  | some _ ↦ w
  | none ↦
      if w.structured
      then record w { seq = suc w.seq; sent = w.sent ++ child_output line partial (suc w.seq) ∷ [] }
      else out_write (bytes "\n") (out_write line (out_write w.prefix w))
]

-- The line that `processBuffer` has cut off; empty lines are dropped.
pub emit_found : Str → PrefixWriter → PrefixWriter
emit_found line w = if ltb 0 (length line) then emit_line line false w else w

-- `processBuffer` where no line break is left: by whether the writer is flushed.
pub last_line : Bool → PrefixWriter → PrefixWriter
last_line false w = record w { buf = trim_partial_utf8 w.buf }
last_line true w =
    if ltb 0 (length w.buf) && valid w.buf then record (emit_line w.buf true w) { buf = [] } else w

-- The loop of `processBuffer`. A round takes a byte or more from the buffer, so more rounds than
-- the buffer is long are never made.
pub process_buffer : ℕ → Bool → PrefixWriter → PrefixWriter
process_buffer zero final w = w
process_buffer (suc n) final w =
    let too_long = process_buffer n final (
      emit_line aggregate_trunc_marker false
        (record (emit_line (take prefix_writer_max_line w.buf) false w) {
          buf = drop prefix_writer_max_line w.buf;
        })) in
    let by_line : PrefixWriter = elim (find_line_break w.buf) [
      | none ↦ last_line final w
      | some (idx, adv) ↦
          process_buffer n final (emit_found (take idx w.buf) (record w { buf = drop adv w.buf }))
    ] in
    if ltb 0 (length w.buf)
    then (if ltb prefix_writer_max_line (length w.buf) then too_long else by_line)
    else w

-- `PrefixWriter.Write`, by the error that an earlier call left.
unfoldable pub write_after : Option Error → Str → PrefixWriter → PrefixWriter × WriteResult
write_after (some e) p w = (w, (0, some e))
write_after none p w =
    let w' = process_buffer (suc (length (w.buf ++ p))) false (record w { buf = w.buf ++ p }) in
    (w', (length p, w'.err))

unfoldable pub write : Str → PrefixWriter → PrefixWriter × WriteResult
write p w = write_after w.err p w

-- `PrefixWriter.Flush`, and `Close`
pub flush : PrefixWriter → PrefixWriter × Option Error
flush w = let w' = process_buffer (suc (length w.buf)) true w in (w', w'.err)
