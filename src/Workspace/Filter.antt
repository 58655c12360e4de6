-- ===== src/Workspace/Filter.antt =====
-- internal/workspace/filter.go and `expandBraces` of expand.go: the members that --filter patterns
-- select. `part_match` is what filepath.Match answers for one part of a path, `none` an error.
pub mod Closure
use m.Base.{
  ℕ, zero, suc, ◌+◌, Bool, true, false, ◌&&◌, ◌||◌, Option, none, some, List, [], ◌∷◌, ◌++◌, Str,
  bytes, str_eq, elem, has_prefix, drop, take, length, find, keys, ◌==◌, ◌-◌, if◌then◌else◌,
}
use mathlib.Core.List.{reverse}
use m.Base.Sort.{sort_strings}
use m.Base.Space.{trim_space}
use m.Apperr.{Code, Result, ok, err, ◌>>=◌}
use m.Workspace.Graph.{WorkspaceGraph, workspace_deps_of, failure}

-- strings.HasSuffix
unfoldable pub has_suffix : Str → Str → Bool
has_suffix s t = has_prefix (reverse s) (reverse t)

-- strings.ContainsAny(s, "*?[")
unfoldable pub is_glob : Str → Bool
is_glob [] = false
is_glob (c ∷ s) = (c == b'*' || (c == b'?' || c == b'[')) || is_glob s

-- The text before the first of a byte and the text behind it; `none` is -1 of IndexByte.
unfoldable pub cut_byte : ℕ → Str → Option (Str × Str)
cut_byte b [] = none
cut_byte b (c ∷ s) =
    let rest = cut_byte b s in
    if c == b
    then some ([], s)
    else elim rest [ none ↦ none | some (front, back) ↦ some (c ∷ front, back) ]

-- The rest of strings.Split, on fuel for each byte of the text.
unfoldable pub split_from : ℕ → ℕ → Str → List Str
split_from zero b s = s ∷ []
split_from (suc n) b s = elim (cut_byte b s) [
  | none ↦ s ∷ []
  | some (front, back) ↦ front ∷ split_from n b back
]

-- strings.Split for a separator of one byte
unfoldable pub split : ℕ → Str → List Str
split b s = split_from (length s) b s

-- `expandBraces`: a round takes out a pair of braces, so there are fewer rounds than bytes.
unfoldable pub expand_parts : (Str → List Str) → Str → List Str → Str → List Str
expand_parts expand prefix [] suffix = []
expand_parts expand prefix (part ∷ parts) suffix =
    expand (prefix ++ (part ++ suffix)) ++ expand_parts expand prefix parts suffix

unfoldable pub expand_braces : ℕ → Str → List Str
expand_braces zero pat = pat ∷ []
expand_braces (suc n) pat = elim (cut_byte b'{' pat) [
  | none ↦ pat ∷ []
  | some (prefix, behind) ↦ elim (cut_byte b'}' behind) [
    | none ↦ pat ∷ []
    | some (inner, suffix) ↦ expand_parts (expand_braces n) prefix (split b',' inner) suffix
  ]
]

-- Adds what is not there yet, as a write to a set does.
unfoldable pub add_new : List Str → List Str → List Str
add_new set [] = set
add_new set (p ∷ ps) = if elem p set then add_new set ps else add_new (set ++ p ∷ []) ps

-- The loop of both closures over the successors of one path: the set and the queue.
unfoldable pub visit_all : List Str → List Str → List Str → List Str × List Str
visit_all [] out queue = (out, queue)
visit_all (p ∷ ps) out queue =
    if elem p out then visit_all ps out queue else visit_all ps (out ++ p ∷ []) (queue ++ p ∷ [])

-- The loop of `dependencyClosure` and `dependentClosure`, on fuel: every path enters the queue once.
-- `none` is a queue that is not empty when the fuel is used up. `tidy` is what is done to the queue
-- behind each round, here sort.Strings.
module _ (tidy : List Str → List Str) (successors : Str → List Str) where
  unfoldable pub close : ℕ → List Str → List Str → Option (List Str)
  close zero out [] = some out
  close zero out (cur ∷ queue) = none
  close (suc n) out [] = some out
  close (suc n) out (cur ∷ queue) =
      let next = visit_all (successors cur) out queue in close n next.0 (tidy next.1)

-- `reverseWorkspaceEdges`, read at one path: the members that depend on it, as often as they do.
unfoldable pub depend_on : Str → Str → List Str → List Str
depend_on dep path [] = []
depend_on dep path (d ∷ ds) =
    if str_eq d dep then path ∷ depend_on dep path ds else depend_on dep path ds

unfoldable pub dependents_of : WorkspaceGraph → Str → List Str → List Str
dependents_of g dep [] = []
dependents_of g dep (path ∷ paths) =
    depend_on dep path (workspace_deps_of g path) ++ dependents_of g dep paths

-- A seed and every member can enter the queue.
abbrev pub closure_rounds : WorkspaceGraph → List Str → ℕ
closure_rounds g seed = suc (length seed + length g.by_path)

unfoldable pub dependency_closure : WorkspaceGraph → List Str → Option (List Str)
dependency_closure g seed =
    close sort_strings (workspace_deps_of g) (closure_rounds g seed) seed (sort_strings seed)

unfoldable pub dependent_closure : WorkspaceGraph → List Str → Option (List Str)
dependent_closure g seed =
    close sort_strings (λ p. dependents_of g p (keys g.by_path)) (closure_rounds g seed) seed
      (sort_strings seed)

-- A closure, which is there with these rounds.
unfoldable pub reached : List Str → Option (List Str) → List Str
reached seed none = seed
reached seed (some set) = set

-- The loop of `matchPathParts` for `**`: what the rest of the pattern says of each end of the path.
unfoldable pub try_ends : (List Str → Option Bool) → List Str → Option Bool
try_ends match [] = match []
try_ends match (q ∷ qs) =
    let rest = try_ends match qs in
    elim (match (q ∷ qs)) [ none ↦ none | some true ↦ some true | some false ↦ rest ]

module _ (part_match : Str → Str → Option Bool) where
  -- `matchPathParts`; `none` is an error.
  unfoldable pub match_path_parts : List Str → List Str → Option Bool
  match_path_parts [] path = some (length path == 0)
  match_path_parts (p ∷ ps) [] =
      let ends = try_ends (match_path_parts ps) [] in
      if str_eq p (bytes "**") then (if length ps == 0 then some true else ends) else some false
  match_path_parts (p ∷ ps) (q ∷ qs) =
      let ends = try_ends (match_path_parts ps) (q ∷ qs) in
      let rest = match_path_parts ps qs in
      if str_eq p (bytes "**")
      then (if length ps == 0 then some true else ends)
      else elim (part_match p q) [ none ↦ none | some false ↦ some false | some true ↦ rest ]

  -- `filterPathMatch`, with `/` between the parts of paths
  unfoldable pub filter_path_match : Str → Str → Bool
  filter_path_match pat path =
      let pat = trim_space pat in
      if str_eq pat path
      then true
      else if is_glob pat
      then elim (match_path_parts (split b'/' pat) (split b'/' path)) [ none ↦ false | some b ↦ b ]
      else has_suffix path pat || has_prefix path pat

  unfoldable pub matching : Str → List Str → List Str
  matching pat [] = []
  matching pat (path ∷ paths) =
      if filter_path_match pat path then path ∷ matching pat paths else matching pat paths

  -- `matchFilterPattern`
  unfoldable pub match_filter_pattern : WorkspaceGraph → Str → List Str
  match_filter_pattern g pat =
      let pat = trim_space pat in
      if str_eq pat [] then [] else elim (find pat g.members) [
        | some mem ↦ mem.path ∷ []
        | none ↦ matching pat (keys g.by_path)
      ]

  -- The loop of `expandFilterPattern` over the expanded patterns.
  unfoldable pub match_each : WorkspaceGraph → List Str → List Str → List Str
  match_each g [] seed = seed
  match_each g (p ∷ ps) seed = match_each g ps (add_new seed (match_filter_pattern g p))

  -- `expandFilterPattern`
  unfoldable pub expand_filter_pattern : WorkspaceGraph → Str → Result (List Str)
  expand_filter_pattern g pat =
      let pat = trim_space pat in
      let deps = has_prefix pat (bytes "...") in
      let dependents = has_suffix pat (bytes "...") in
      let pat' = if deps then drop 3 pat else pat in
      let body =
        if dependents && has_suffix pat' (bytes "...") then take (length pat' - 3) pat' else pat' in
      let seed = match_each g (expand_braces (length body) body) [] in
      let seed = if deps then reached seed (dependency_closure g seed) else seed in
      let seed = if dependents then reached seed (dependent_closure g seed) else seed in
      if str_eq pat []
      then err (failure Code.usage (bytes "workspace.filter") [])
      else if has_prefix pat (bytes "[")
      then err (failure Code.usage (bytes "workspace.filter") pat)
      else ok seed

  -- The loop of `ExpandFilter` over the positive patterns, and that over the others.
  unfoldable pub include_all : WorkspaceGraph → List Str → List Str → Result (List Str)
  include_all g [] matched = ok matched
  include_all g (pat ∷ pats) matched =
      expand_filter_pattern g pat >>= λ set. include_all g pats (add_new matched set)

  unfoldable pub without : List Str → List Str → List Str
  without set [] = []
  without set (p ∷ ps) = if elem p set then without set ps else p ∷ without set ps

  unfoldable pub exclude_all : WorkspaceGraph → List Str → List Str → Result (List Str)
  exclude_all g [] matched = ok matched
  exclude_all g (pat ∷ pats) matched =
      expand_filter_pattern g pat >>= λ set. exclude_all g pats (without set matched)

  -- The patterns after trimming: the positive ones, and those behind a `!`.
  unfoldable pub sort_patterns : List Str → List Str × List Str
  sort_patterns [] = ([], [])
  sort_patterns (p ∷ ps) =
      let pat = trim_space p in
      let (includes, excludes) = sort_patterns ps in
      if str_eq pat []
      then (includes, excludes)
      else if has_prefix pat (bytes "!")
      then (includes, drop 1 pat ∷ excludes)
      else (pat ∷ includes, excludes)

  -- `ExpandFilter`; the subject of its last error is left out.
  unfoldable pub expand_filter : WorkspaceGraph → List Str → Result (List Str)
  expand_filter g patterns =
      let (includes, excludes) = sort_patterns patterns in
      let selected = include_all g includes [] >>= λ matched.
      exclude_all g excludes matched >>= λ rest.
      if length rest == 0
      then err (failure Code.not_found (bytes "workspace.filter") [])
      else ok (sort_strings rest) in
      if length g.by_path == 0
      then err (failure Code.manifest (bytes "workspace.filter") [])
      else if length patterns == 0 || length includes == 0
      then err (failure Code.usage (bytes "workspace.filter") [])
      else selected
