-- ===== src/Runner/Aggregate.antt =====
-- internal/runner/mux.go: `AggregateBuffer` collects the output of one stream, the first
-- `aggregateMemThreshold` bytes in memory and the rest in a spill file, up to a hard cap.
-- A call is handed what the file system answers to it; the mutex makes each call one step.
pub mod Contents
pub mod Leftover
pub mod Replay
use m.Base.{
  ℕ, ◌+◌, ◌-◌, Bool, true, false, Option, none, some, List, [], ◌∷◌, ◌++◌, Str, bytes, length, take,
  drop, ltb, leb, ◌==◌, if◌then◌else◌,
}
use m.Apperr.{Code, Error, Result, ok, err, ◌>>=◌}

abbrev pub aggregate_mem_threshold : ℕ
aggregate_mem_threshold = 262144

abbrev pub aggregate_hard_cap : ℕ
aggregate_hard_cap = 16777216

abbrev pub aggregate_trunc_marker : Str
aggregate_trunc_marker = bytes "[mew: output truncated]"

-- `spill` says whether a handle is held; `file` is what the file of that name holds on disk, and
-- stays when the handle is dropped. `key` names the collector in errors.
pub record AggregateBuffer : Type 0 where
  pub key : Str
  pub mem : Str
  pub spill : Bool
  pub file : Str
  pub total : ℕ
  pub err : Option Error

-- `on_disk` is what a file of that name holds: the constructor leaves it there, and a spill is
-- appended to it.
unfoldable pub new_aggregate_buffer : Str → Str → AggregateBuffer
new_aggregate_buffer key on_disk = record {
  key = key;
  mem = [];
  spill = false;
  file = on_disk;
  total = 0;
  err = none;
}

-- What the file system answers: to MkdirAll and OpenFile, and to a write, of which only the first
-- `written` bytes are on disk when it fails.
pub record SpillIo : Type 0 where
  pub open_err : Option Error
  pub write_fails : Bool
  pub written : ℕ

-- The result of io.Writer's Write: a count and an error.
abbrev pub WriteResult : Type 0
WriteResult = ℕ × Option Error

abbrev spill_error : AggregateBuffer → Error
spill_error a = record { code = Code.io; op = bytes "aggregate.spill"; subject = a.key }

pub append_spill : SpillIo → ℕ → Str → AggregateBuffer → AggregateBuffer × WriteResult
append_spill io total p a =
    if ltb 0 (length p)
    then (if io.write_fails
        then (
          record a { file = a.file ++ take io.written p; err = some (spill_error a) },
          (0, some (spill_error a)),
        )
        else (record a { file = a.file ++ p }, (total, none)))
    else (a, (total, none))

pub write_spill : SpillIo → ℕ → Str → AggregateBuffer → AggregateBuffer × WriteResult
write_spill io total p a = if a.spill then append_spill io total p a else elim io.open_err [
  | some e ↦ (record a { err = some e }, (0, some e))
  | none ↦ append_spill io total p (record a { spill = true })
]

pub write_capped : SpillIo → ℕ → Str → AggregateBuffer → AggregateBuffer × WriteResult
write_capped io total p a =
    if ltb (length a.mem) aggregate_mem_threshold
    then (let space = aggregate_mem_threshold - length a.mem in
        if leb (length p) space
        then (record a { mem = a.mem ++ p }, (total, none))
        else write_spill io total (drop space p) (record a { mem = a.mem ++ take space p }))
    else write_spill io total p a

-- `AggregateBuffer.Write`, by the error that an earlier call left.
unfoldable pub write_after :
    Option Error → SpillIo → Str → AggregateBuffer → AggregateBuffer × WriteResult
write_after (some e) io p a = (a, (0, some e))
write_after none io p a =
    let remaining = aggregate_hard_cap - a.total in
    if remaining == 0
    then (a, (length p, none))
    else (let kept = if ltb remaining (length p) then take remaining p else p in
        write_capped io (length p) kept (record a { total = a.total + length kept }))

unfoldable pub write : SpillIo → Str → AggregateBuffer → AggregateBuffer × WriteResult
unfolding write_after
write io p a = write_after a.err io p a

-- `readAll`; `read_fails` is the answer of os.ReadFile.
pub read_all : Bool → AggregateBuffer → Result Str
read_all read_fails a =
    if a.spill
    then (if read_fails
        then err (record { code = Code.io; op = bytes "aggregate.replay"; subject = a.key })
        else ok (a.mem ++ a.file))
    else ok a.mem

-- `AggregateBuffer.Bytes`, by the error that an earlier call left and by what `readAll` returns:
-- the bytes, with the marker when capped; the handle is dropped.
pub collect_after : Option Error → Result Str → AggregateBuffer → AggregateBuffer × Result Str
collect_after (some e) read a = (a, err e)
collect_after none (err e) a = (a, err e)
collect_after none (ok out) a = (
  record a { spill = false },
  ok (if leb aggregate_hard_cap a.total then out ++ aggregate_trunc_marker else out),
)

pub collect : Bool → AggregateBuffer → AggregateBuffer × Result Str
unfolding collect_after
collect read_fails a = collect_after a.err (read_all read_fails a) a
