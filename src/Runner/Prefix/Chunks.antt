-- ===== src/Runner/Prefix/Chunks.antt =====
-- internal/runner/mux.go: `PrefixWriter` and the cuts between the writes of a task.
use m.Base.{
  ℕ, suc, ◌+◌, ◌≤◌, ◌≡◌, refl, sym, ap, ◌∙◌, Bool, false, Option, none, List, [], ◌∷◌, ◌++◌, Str,
  bytes, length, arith, Bool-cases, inl, inr, length-append,
}
use m.Apperr.{Error}
use m.Runner.Prefix.{
  prefix_writer_max_line, PrefixWriter, find_line_break, answered, out_write, emit_line, emit_found,
  write_after, write,
}
use m.Runner.Prefix.Lines.{
  is_break, feed, feed_all, with_buf, cut, feed-cut, feed-join, feed-break, process-feed,
}
use m.Runner.Aggregate.Contents.{concat}

-- No error so far and none to come, and no complete line is held back.
pub record IsReady (w : PrefixWriter) : Type 0 where
  pub healthy : w.err ≡ none
  pub accepts : (n : ℕ) → w.out_error n ≡ none
  pub open_line : find_line_break w.buf ≡ none

feed_all-append : (w : PrefixWriter) (p q : Str) → feed_all w (p ++ q) ≡ feed_all (feed_all w p) q
feed_all-append w [] q = refl
feed_all-append w (c ∷ p) q = feed_all-append (feed w c) p q

-- One write does what the reference does byte by byte, and reports every byte.
write-feed_all :
    (p : Str) (w : PrefixWriter)
    → IsReady w
    → length w.buf + length p ≤ prefix_writer_max_line
    → (write p w).0 ≡ feed_all w p
unfolding write cut write_after
write-feed_all p w r h =
    ap (λ (o : Option Error). (write_after o p w).0) r.healthy
    ∙ process-feed (suc (length (w.buf ++ p))) (w.buf ++ p) w (omega arith)
        (omega (arith, length-append w.buf p))
    ∙ feed_all-append (with_buf w []) w.buf p
    ∙ ap (λ (v : PrefixWriter). feed_all v p) (feed-cut w.buf [] w ∙ rw r.open_line)

find-snoc :
    (b : Str) (c : ℕ)
    → find_line_break b ≡ none
    → is_break c ≡ false
    → find_line_break (b ++ c ∷ []) ≡ none
unfolding find_line_break is_break
find-snoc [] c h k = ground arith
find-snoc (d ∷ b) c h k = ground (arith, find-snoc b c)

out_write-keeps :
    (s : Str) (w : PrefixWriter)
    → ((n : ℕ) → w.out_error n ≡ none)
    → w.err ≡ none
    → ((out_write s w).err ≡ none) × ((out_write s w).out_error ≡ w.out_error)
unfolding out_write answered
out_write-keeps s w accepts h = ground (arith, accepts w.writes)

emit_line-keeps :
    (l : Str) (partial : Bool) (w : PrefixWriter)
    → ((n : ℕ) → w.out_error n ≡ none)
    → w.err ≡ none
    → ((emit_line l partial w).err ≡ none) × ((emit_line l partial w).out_error ≡ w.out_error)
unfolding emit_line
emit_line-keeps l partial w accepts h = ground (
  arith,
  accepts,
  out_write-keeps w.prefix w accepts h,
  out_write-keeps l (out_write w.prefix w),
  out_write-keeps (bytes "\n") (out_write l (out_write w.prefix w)),
)

emit_found-keeps :
    (l : Str) (w : PrefixWriter)
    → ((n : ℕ) → w.out_error n ≡ none)
    → w.err ≡ none
    → ((emit_found l w).err ≡ none) × ((emit_found l w).out_error ≡ w.out_error)
unfolding emit_found
emit_found-keeps l w accepts h = ground (arith, emit_line-keeps l false w accepts h)

module _ (w : PrefixWriter) (c : ℕ) where
  feed-IsReady : IsReady w → IsReady (feed w c)
  feed-IsReady r = elim (Bool-cases (is_break c)) [
    | inl h ↦
        let kept = emit_found-keeps w.buf w r.accepts r.healthy in
        rw (feed-break c w.buf w h) (record {
          healthy = kept.0;
          accepts = λ n. ap (λ (f : ℕ → Option Error). f n) kept.1 ∙ r.accepts n;
          open_line = unfold find_line_break in refl;
        })
    | inr h ↦ rw (feed-join c w.buf w h) (record {
      healthy = r.healthy;
      accepts = r.accepts;
      open_line = find-snoc w.buf c r.open_line h;
    })
  ]

  feed-length : length (feed w c).buf ≤ length w.buf + 1
  feed-length = elim (Bool-cases (is_break c)) [
    | inl h ↦ rw (feed-break c w.buf w h) (omega arith)
    | inr h ↦ rw (feed-join c w.buf w h) (omega (arith, length-append w.buf (c ∷ [])))
  ]

feed_all-IsReady : (p : Str) (w : PrefixWriter) → IsReady w → IsReady (feed_all w p)
feed_all-IsReady [] w r = r
feed_all-IsReady (c ∷ p) w r = feed_all-IsReady p (feed w c) (feed-IsReady w c r)

feed_all-length : (p : Str) (w : PrefixWriter) → length (feed_all w p).buf ≤ length w.buf + length p
feed_all-length [] w = omega arith
feed_all-length (c ∷ p) w = omega (arith, feed_all-length p (feed w c), feed-length w c)

-- The writer after a run of writes.
unfoldable pub write_all : List Str → PrefixWriter → PrefixWriter
write_all [] w = w
write_all (p ∷ ps) w = write_all ps (write p w).0

write_all-feed_all :
    (ps : List Str) (w : PrefixWriter)
    → IsReady w
    → length w.buf + length (concat ps) ≤ prefix_writer_max_line
    → write_all ps w ≡ feed_all w (concat ps)
unfolding write_all
write_all-feed_all [] w r h = refl
write_all-feed_all (p ∷ ps) w r h =
    let fits = length-append p (concat ps) in
    ap (write_all ps) (write-feed_all p w r (omega arith))
    ∙ write_all-feed_all ps (feed_all w p) (feed_all-IsReady p w r)
        (omega (arith, feed_all-length p w))
    ∙ sym (feed_all-append w p (concat ps))

-- From a writer that holds back no complete line, and while the writer below accepts everything:
-- when the bytes that it holds back and those of the writes are together at most the longest line,
-- the writes leave the same state, and so the same calls and events in the same order, as one
-- write of all their bytes.
pub write_all-concat :
    (ps : List Str) (w : PrefixWriter)
    → IsReady w
    → length w.buf + length (concat ps) ≤ prefix_writer_max_line
    → write_all ps w ≡ (write (concat ps) w).0
write_all-concat ps w r h = write_all-feed_all ps w r h ∙ sym (write-feed_all (concat ps) w r h)

-- Under the conditions of write_all-concat, the state that the writes leave is that of the
-- byte-by-byte reference feed, and the writer is ready for more: no error, none to come, and no
-- complete line held back.
pub write_all_reference :
    (ps : List Str) (w : PrefixWriter)
    → IsReady w
    → length w.buf + length (concat ps) ≤ prefix_writer_max_line
    → (write_all ps w ≡ feed_all w (concat ps)) × IsReady (write_all ps w)
write_all_reference ps w r h =
    let e = write_all-feed_all ps w r h in (e, rw e (feed_all-IsReady (concat ps) w r))
