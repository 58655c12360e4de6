-- ===== src/Runner/Members.antt =====
-- internal/runner/workspace.go: `SelectMembers` and `ParseWorkspaceOutput`. `part_match` is that of
-- Workspace.Filter.
use m.Base.{Bool, Option, List, [], ◌∷◌, Str, bytes, str_eq, length, ◌==◌, ◌||◌, if◌then◌else◌}
use m.Base.Sort.{sort_strings}
use m.Apperr.{Code, Result, ok, err, ◌>>=◌}
use m.Workspace.Graph.{WorkspaceGraph, failure}
use m.Workspace.Whole.{member_paths}
use m.Workspace.Filter.{expand_filter}

-- The paths but the root.
unfoldable proper_paths : List Str → List Str
proper_paths [] = []
proper_paths (p ∷ ps) = if str_eq p (bytes ".") then proper_paths ps else p ∷ proper_paths ps

unfoldable not_empty : List Str → Result (List Str)
not_empty paths =
    if length paths == 0
    then err (failure Code.not_found (bytes "runner.workspace") [])
    else ok (sort_strings paths)

-- `SelectMembers`, of a workspace
unfoldable select_members :
    (Str → Str → Option Bool) → WorkspaceGraph → Bool → List Str → Result (List Str)
select_members part_match g recursive filters =
    let filtered = expand_filter part_match g filters >>= λ ids. not_empty (proper_paths ids) in
    if length filters == 0
    then (if recursive
        then not_empty (proper_paths (member_paths g))
        else err (failure Code.usage (bytes "runner.workspace") []))
    else filtered

-- `ParseWorkspaceOutput`
unfoldable parse_workspace_output : Str → Result Str
parse_workspace_output s =
    if str_eq s (bytes "stream") || str_eq s (bytes "aggregate")
    then ok s
    else err (failure Code.usage (bytes "runner.workspace") s)
