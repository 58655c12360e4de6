-- ===== src/Workspace/Whole.antt =====
-- internal/workspace/graph.go: the order of the whole workspace, `MemberPaths` and `TopoOrder`.
use m.Base.{
  suc, Option, none, some, List, [], ◌∷◌, ◌++◌, Str, bytes, str_eq, length, keys, ◌==◌,
  if◌then◌else◌,
}
use m.Base.Sort.{sort_strings}
use m.Apperr.{Code, Result, ok, err, ◌>>=◌}
use m.Workspace.Graph.{WorkspaceGraph, Induced, targets, add_edge, no_degrees, failure}
use m.Workspace.Kahn.{drain, sources}
use m.Workspace.Order.{append_path, cyclic}

-- `MemberPaths`
unfoldable pub member_paths : WorkspaceGraph → List Str
member_paths g = g.index_members

-- The loop over the targets of one member; a dependency on itself is skipped.
unfoldable add_targets : Str → List Str → Induced → Induced
add_targets path [] s = s
add_targets path (target ∷ rest) s =
    if str_eq target path
    then add_targets path rest s
    else add_targets path rest (add_edge path target s)

-- The loop of `TopoOrder` over the members.
unfoldable whole_edges : WorkspaceGraph → List Str → Induced → Result Induced
whole_edges g [] s = ok s
whole_edges g (path ∷ paths) s = elim (g.load path) [
  | none ↦ err (failure Code.manifest (bytes "workspace.topo") path)
  | some doc ↦ whole_edges g paths (
      add_targets path
        (targets g doc.dependencies
          ++ (targets g doc.dev_dependencies ++ targets g doc.optional_dependencies))
        s)
]

-- `if len(out) != len(g.ByPath)`; a run out of fuel counts as no result.
unfoldable all_members : WorkspaceGraph → Option (List Str) → Result (List Str)
all_members g none = err (cyclic (bytes "workspace.topo") g)
all_members g (some out) =
    if length out == length g.by_path then ok out else err (cyclic (bytes "workspace.topo") g)

-- `TopoOrder`
unfoldable topo_order : WorkspaceGraph → Result (List Str)
topo_order g =
    let paths = keys g.by_path in
    let ordered = whole_edges g paths (record { edges = []; in_degree = no_degrees paths }) >>= λ s.
    all_members g (
      drain append_path s.edges (suc (length s.in_degree)) s.in_degree
        (sort_strings (sources s.in_degree)) []) in
    if length paths == 0 then ok [] else ordered
