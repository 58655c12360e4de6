-- ===== src/Runner/Scripts.antt =====
-- internal/runner/hooks.go and lookup.go: which scripts a selector names, and the stages of a script.
-- `compile` stands for regexp.Compile: the test of the pattern, or none when it does not compile.
pub mod Found
use m.Base.{
  ℕ, suc, Bool, Option, none, some, List, [], ◌∷◌, ◌++◌, Str, bytes, str_eq, find, keys, length,
  take, drop, ltb, ◌==◌, if◌then◌else◌,
}
use m.Base.Sort.{sort_strings}
use m.Apperr.{Code, Error, Result, ok, err, ◌>>=◌}
use m.Workspace.Graph.{failure}

-- `HookStage`
pub record HookStage : Type 0 where
  pub event : Str
  pub script : Str

-- `ScriptPlan`
pub record ScriptPlan : Type 0 where
  pub name : Str
  pub stages : List HookStage

-- The loop of `ExpandHooks` over the events.
unfoldable expand_events : List (Str × Str) → List Str → List HookStage
expand_events scripts [] = []
expand_events scripts (event ∷ events) = elim (find event scripts) [
  | none ↦ expand_events scripts events
  | some body ↦ record { event = event; script = body } ∷ expand_events scripts events
]

-- `ExpandHooks`
unfoldable expand_hooks : List (Str × Str) → Str → List HookStage
expand_hooks scripts name =
    expand_events scripts ((bytes "pre" ++ name) ∷ name ∷ (bytes "post" ++ name) ∷ [])

-- `ExpandPlans`
unfoldable expand_plans : List (Str × Str) → List Str → List ScriptPlan
expand_plans scripts [] = []
expand_plans scripts (name ∷ names) =
    let stages = expand_hooks scripts name in
    if length stages == 0
    then expand_plans scripts names
    else record { name = name; stages = stages } ∷ expand_plans scripts names

-- strings.LastIndex for one byte; `none` is -1.
unfoldable pub last_index : ℕ → Str → Option ℕ
last_index b [] = none
last_index b (c ∷ s) = elim (last_index b s) [
  | some i ↦ some (suc i)
  | none ↦ if c == b then some 0 else none
]

unfoldable pub bad_pattern : Str → Error
bad_pattern selector = failure Code.usage (bytes "runner.lookup") selector

-- The part of `parseRegexSelector` behind the first `/`, by where the last one is.
unfoldable pub regex_body : Str → Option ℕ → Result (Option Str)
regex_body selector none = err (bad_pattern selector)
regex_body selector (some last) =
    let pattern = drop 1 (take last selector) in
    if last == 0
    then err (bad_pattern selector)
    else if length pattern == 0
    then err (bad_pattern selector)
    else ok (some pattern)

-- `parseRegexSelector`; none is a selector that is a name.
unfoldable pub parse_regex_selector : Str → Result (Option Str)
parse_regex_selector [] = ok none
parse_regex_selector (c ∷ rest) =
    if ltb (length (c ∷ rest)) 2
    then ok none
    else if c == b'/'
    then regex_body (c ∷ rest) (last_index b'/' (c ∷ rest))
    else ok none

-- `missingScriptError`, without its message
abbrev pub missing_script : Str → Error
missing_script selector = failure Code.not_found (bytes "runner.lookup") selector

unfoldable pub names_matching : (Str → Bool) → List Str → List Str
names_matching test [] = []
names_matching test (name ∷ names) =
    if test name then name ∷ names_matching test names else names_matching test names

-- `Lookup` of a name, by what the map of scripts holds for it
unfoldable pub lookup_name : Str → Option Str → Result (List Str)
lookup_name selector none = err (missing_script selector)
lookup_name selector (some _) = ok (selector ∷ [])

-- `Lookup` of a pattern, by what regexp.Compile answered
unfoldable pub lookup_pattern : List (Str × Str) → Str → Option (Str → Bool) → Result (List Str)
lookup_pattern scripts selector none = err (bad_pattern selector)
lookup_pattern scripts selector (some test) =
    let matches = names_matching test (keys scripts) in
    if length matches == 0 then err (missing_script selector) else ok (sort_strings matches)

module _ (compile : Str → Option (Str → Bool)) (scripts : List (Str × Str)) where
  -- `Lookup`, by what `parseRegexSelector` answered
  unfoldable pub lookup_parsed : Str → Result (Option Str) → Result (List Str)
  lookup_parsed selector (err e) = err e
  lookup_parsed selector (ok none) = lookup_name selector (find selector scripts)
  lookup_parsed selector (ok (some pattern)) = lookup_pattern scripts selector (compile pattern)

  -- `Lookup`
  unfoldable pub lookup : Str → Result (List Str)
  lookup selector =
      if str_eq selector []
      then err (bad_pattern selector)
      else lookup_parsed selector (parse_regex_selector selector)
