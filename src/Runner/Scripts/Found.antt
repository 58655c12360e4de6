-- ===== src/Runner/Scripts/Found.antt =====
-- internal/runner/lookup.go: the names that `Lookup` answers.
use m.Base.{
  ℕ, ◌≡◌, ◌<◌, ◌≤◌, refl, Bool, true, false, Option, none, some, List, [], ◌∷◌, Str, str_eq,
  str_eq_iff, find, keys, count, length, ◌==◌, if◌then◌else◌, arith, Bool-cases, inl, inr,
}
use m.Base.Sort.{sort_strings, count-sort_strings}
use m.Apperr.{Result, ok, err}
use m.Runner.Scripts.{
  names_matching, lookup_name, lookup_pattern, lookup_parsed, lookup, missing_script, bad_pattern,
  parse_regex_selector,
}

-- How often a name stands in an answer.
abbrev pub listed : Str → Result (List Str) → ℕ
listed name (ok names) = count name names
listed name (err _) = 0

find-count : (k : Str) (v : Str) (m : List (Str × Str)) → find k m ≡ some v → 0 < count k (keys m)
unfolding find keys count
find-count k v [] h = absurd (ground arith)
find-count k v ((k', w) ∷ m) h = ground (arith, find-count k v m)

names_matching-count :
    (test : Str → Bool) (name : Str) (names : List Str)
    → count name (names_matching test names) ≤ count name names
unfolding names_matching count
names_matching-count test name [] = omega arith
names_matching-count test name (n ∷ names) = elim (Bool-cases (test n)) [
  | inl yes_it ↦ rw yes_it (omega (arith, names_matching-count test name names))
  | inr not_it ↦ rw not_it (omega (arith, names_matching-count test name names))
]

lookup_name-keys :
    (scripts : List (Str × Str)) (selector name : Str) (o : Option Str)
    → find selector scripts ≡ o
    → 0 < listed name (lookup_name selector o)
    → 0 < count name (keys scripts)
unfolding lookup_name count
lookup_name-keys scripts selector name none e h = absurd (omega arith)
lookup_name-keys scripts selector name (some v) e h =
    ground (arith, find-count selector v scripts e, str_eq_iff name selector)

lookup_pattern-keys :
    (scripts : List (Str × Str)) (selector name : Str) (o : Option (Str → Bool))
    → 0 < listed name (lookup_pattern scripts selector o)
    → 0 < count name (keys scripts)
unfolding lookup_pattern
lookup_pattern-keys scripts selector name none h = absurd (omega arith)
lookup_pattern-keys scripts selector name (some test) h =
    either (length (names_matching test (keys scripts)) == 0) h
  where
    either :
        (b : Bool)
        → 0
          < listed name (
              if b
              then err (missing_script selector)
              else ok (sort_strings (names_matching test (keys scripts))))
        → 0 < count name (keys scripts)
    either true p = absurd (omega arith)
    either false p = omega (
      arith,
      count-sort_strings name (names_matching test (keys scripts)),
      names_matching-count test name (keys scripts),
    )

module _ (compile : Str → Option (Str → Bool)) (scripts : List (Str × Str)) where
  lookup_parsed-keys :
      (selector : Str) (parsed : Result (Option Str)) (name : Str)
      → 0 < listed name (lookup_parsed compile scripts selector parsed)
      → 0 < count name (keys scripts)
  unfolding lookup_parsed
  lookup_parsed-keys selector (err e) name h = absurd (omega arith)
  lookup_parsed-keys selector (ok none) name h =
      lookup_name-keys scripts selector name (find selector scripts) refl h
  lookup_parsed-keys selector (ok (some pattern)) name h =
      lookup_pattern-keys scripts selector name (compile pattern) h

  -- Every name that Lookup answers for a selector, a name or a pattern, is the name of a script.
  pub lookup-keys :
      (selector name : Str)
      → 0 < listed name (lookup compile scripts selector)
      → 0 < count name (keys scripts)
  unfolding lookup
  lookup-keys selector name h = either (str_eq selector []) h
    where
      either :
          (b : Bool)
          → 0
            < listed name (
                if b
                then err (bad_pattern selector)
                else lookup_parsed compile scripts selector (parse_regex_selector selector))
          → 0 < count name (keys scripts)
      either true p = absurd (omega arith)
      either false p = lookup_parsed-keys selector (parse_regex_selector selector) name p
