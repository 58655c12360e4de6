-- ===== src/Advisory/Intervals.antt =====
-- The intervals of an advisory: what is read from events, and which events spell given intervals.
use m.Base.{
  ◌+◌, ◌≡◌, refl, sym, ap, ◌∙◌, Bool, true, false, ◌&&◌, Option, none, some, List, [], ◌∷◌, ◌++◌,
  append_assoc, append-nil, Str, bytes, length, ltb, ◌==◌, if◌then◌else◌, arith,
}
use mathlib.Core.Path.{ap₂}
use m.Advisory.{
  RangeEvent, SemverInterval, is_set, Reading, close_current, warn, end_fixed, end_last,
  bool_to_int, read_event, read_events, build_semver_intervals,
}

-- An interval has a start and at most one kind of end.
pub record IsBounded (iv : SemverInterval) : Type 0 where
  pub started : is_set iv.introduced ≡ true
  pub one_end : (is_set iv.fixed && is_set iv.last_affected) ≡ false

abbrev pub AllBounded : List SemverInterval → Type 0
AllBounded [] = Unit
AllBounded (iv ∷ ivs) = IsBounded iv × AllBounded ivs

AllBounded-append :
    (xs ys : List SemverInterval) → AllBounded xs → AllBounded ys → AllBounded (xs ++ ys)
AllBounded-append [] ys a b = b
AllBounded-append (x ∷ xs) ys a b = (a.0, AllBounded-append xs ys a.1 b)

-- The event that ends an interval, if it has an end.
unfoldable pub end_events : Str → Str → List RangeEvent
end_events [] [] = []
end_events (c ∷ fixed) last = record { introduced = []; fixed = c ∷ fixed; last_affected = [] } ∷ []
end_events [] (c ∷ last) = record { introduced = []; fixed = []; last_affected = c ∷ last } ∷ []

-- The events that spell intervals one after the other.
pub spell : List SemverInterval → List RangeEvent
spell [] = []
spell (iv ∷ ivs) =
    record { introduced = iv.introduced; fixed = []; last_affected = [] }
    ∷ (end_events iv.fixed iv.last_affected ++ spell ivs)

abbrev closed : Reading → List SemverInterval
closed s = close_current s.current s.intervals

read_events-append :
    (xs ys : List RangeEvent) (s : Reading)
    → read_events (xs ++ ys) s ≡ read_events ys (read_events xs s)
unfolding read_events
read_events-append [] ys s = refl
read_events-append (x ∷ xs) ys s = read_events-append xs ys (read_event x s)

-- One interval is read from its events.
read-one :
    (i f l : Str) (s : Reading)
    → is_set i ≡ true
    → (is_set f && is_set l) ≡ false
    → let t =
        read_events
          (record { introduced = i; fixed = []; last_affected = [] } ∷ end_events f l)
          s in
      (closed t ≡ closed s ++ record { introduced = i; fixed = f; last_affected = l } ∷ [])
      × (t.warnings ≡ s.warnings)
unfolding read_events read_event is_set bool_to_int close_current end_fixed end_last end_events
read-one [] f l s h k = absurd (ground arith)
read-one (c ∷ i) [] [] s h k = (refl, refl)
read-one (c ∷ i) (d ∷ f) [] s h k = (refl, refl)
read-one (c ∷ i) [] (d ∷ l) s h k = (refl, refl)
read-one (c ∷ i) (d ∷ f) (e ∷ l) s h k = absurd (ground arith)

read-spell :
    (ivs : List SemverInterval) (s : Reading)
    → AllBounded ivs
    → (closed (read_events (spell ivs) s) ≡ closed s ++ ivs)
      × ((read_events (spell ivs) s).warnings ≡ s.warnings)
unfolding spell read_events
read-spell [] s a = (sym (append-nil (closed s)), refl)
read-spell (iv ∷ ivs) s a =
    let one =
      record { introduced = iv.introduced; fixed = []; last_affected = [] }
      ∷ end_events iv.fixed iv.last_affected in
    let cut : read_events (spell (iv ∷ ivs)) s ≡ read_events (spell ivs) (read_events one s) =
      read_events-append one (spell ivs) s in
    let (first, quiet) =
      read-one iv.introduced iv.fixed iv.last_affected s a.0.started a.0.one_end in
    let (rest, quiet') = read-spell ivs (read_events one s) a.1 in
    (
      ap (λ t. closed t) cut
          ∙ rest
          ∙ ap (λ xs. xs ++ ivs) first
          ∙ append_assoc (closed s) (iv ∷ []) ivs,
      ap (λ (t : Reading). t.warnings) cut ∙ quiet' ∙ quiet,
    )

-- An interval that is still open has a start and no end.
abbrev IsOpen : Option SemverInterval → Type 0
IsOpen none = Unit
IsOpen (some iv) = (is_set iv.introduced ≡ true) × (iv.fixed ≡ []) × (iv.last_affected ≡ [])

record IsReading (s : Reading) : Type 0 where
  bounded : AllBounded s.intervals
  unended : IsOpen s.current

close-AllBounded :
    (o : Option SemverInterval) (xs : List SemverInterval)
    → IsOpen o
    → AllBounded xs
    → AllBounded (close_current o xs)
unfolding close_current is_set
close-AllBounded none xs u b = b
close-AllBounded (some iv) xs u b =
    AllBounded-append xs (iv ∷ []) b (record { started = u.0; one_end = rw u.1 refl }, tt)

warn-IsReading : (message : Str) (s : Reading) → IsReading s → IsReading (warn message s)
unfolding warn
warn-IsReading message s r = record { bounded = r.bounded; unended = r.unended }

end_fixed-IsReading :
    (o : Option SemverInterval) (fixed : Str) (s : Reading)
    → IsOpen o
    → IsReading s
    → IsReading (end_fixed o fixed s)
unfolding end_fixed is_set
end_fixed-IsReading none fixed s u r = warn-IsReading _ s r
end_fixed-IsReading (some iv) fixed s u r = record {
  bounded =
      AllBounded-append s.intervals (record iv { fixed = fixed } ∷ []) r.bounded
        (record { started = u.0; one_end = rw u.2 (ground arith) }, tt);
  unended = tt;
}

end_last-IsReading :
    (o : Option SemverInterval) (last : Str) (s : Reading)
    → IsOpen o
    → IsReading s
    → IsReading (end_last o last s)
unfolding end_last is_set
end_last-IsReading none last s u r = warn-IsReading _ s r
end_last-IsReading (some iv) last s u r = record {
  bounded =
      AllBounded-append s.intervals (record iv { last_affected = last } ∷ []) r.bounded
        (record { started = u.0; one_end = rw u.1 refl }, tt);
  unended = tt;
}

either : (b : Bool) (x y : Reading) → IsReading x → IsReading y → IsReading (if b then x else y)
either true x y p q = p
either false x y p q = q

start-IsReading :
    (i : Str) (s : Reading) (y : Reading)
    → IsReading s
    → IsReading y
    → IsReading (
        if is_set i
        then record s {
          intervals = close_current s.current s.intervals;
          current = some (record { introduced = i; fixed = []; last_affected = [] });
        }
        else y)
unfolding is_set
start-IsReading [] s y r q = q
start-IsReading (c ∷ i) s y r q = record {
  bounded = close-AllBounded s.current s.intervals r.unended r.bounded;
  unended = (refl, refl, refl);
}

read-IsReading : (ev : RangeEvent) (s : Reading) → IsReading s → IsReading (read_event ev s)
unfolding read_event
read-IsReading ev s r =
    let fields =
      bool_to_int (is_set ev.introduced)
      + bool_to_int (is_set ev.fixed)
      + bool_to_int (is_set ev.last_affected) in
    either (fields == 0) _ _ (warn-IsReading (bytes "empty range event") s r) (
      either (ltb 1 fields) _ _ (warn-IsReading (bytes "range event has multiple fields") s r) (
        start-IsReading ev.introduced s _ r (
          either (is_set ev.fixed) _ _ (end_fixed-IsReading s.current ev.fixed s r.unended r)
            (end_last-IsReading s.current ev.last_affected s r.unended r))))

read_all-IsReading :
    (evs : List RangeEvent) (s : Reading) → IsReading s → IsReading (read_events evs s)
unfolding read_events
read_all-IsReading [] s r = r
read_all-IsReading (ev ∷ evs) s r = read_all-IsReading evs (read_event ev s) (read-IsReading ev s r)

abbrev nothing_read : Reading
nothing_read = record { intervals = []; warnings = []; current = none }

-- Whatever the events are, each interval that buildSemverIntervals makes has a start and at most
-- one kind of end.
pub build_semver_intervals-AllBounded :
    (events : List RangeEvent) → AllBounded (build_semver_intervals events).0
unfolding build_semver_intervals
build_semver_intervals-AllBounded events =
    let r = read_all-IsReading events nothing_read (record { bounded = tt; unended = tt }) in
    close-AllBounded (read_events events nothing_read).current
      (read_events events nothing_read).intervals r.unended r.bounded

reported : List RangeEvent → List SemverInterval → List Str → List SemverInterval × List Str
reported events intervals warnings = (
  intervals,
  if ltb 0 (length events) && (length intervals == 0 && length warnings == 0)
      then bytes "range produced no intervals" ∷ []
      else warnings,
)

reported-spell : (ivs : List SemverInterval) → reported (spell ivs) ivs [] ≡ (ivs, [])
unfolding reported spell
reported-spell [] = refl
reported-spell (iv ∷ ivs) = ground arith

-- Intervals that each have a start and at most one kind of end are read back by
-- buildSemverIntervals from the events that spell them one after the other, without a warning.
pub build_semver_intervals-spell :
    (ivs : List SemverInterval) → AllBounded ivs → build_semver_intervals (spell ivs) ≡ (ivs, [])
unfolding build_semver_intervals reported close_current
build_semver_intervals-spell ivs a =
    let (same, quiet) = read-spell ivs nothing_read a in
    ap₂ (reported (spell ivs)) same quiet ∙ reported-spell ivs
