-- ===== src/Workspace/Graph.antt =====
-- internal/workspace/graph.go, internal/workspace/filter.go: the workspace graph and the edges
-- between its members. `Index` is what `BuildIndex` found, and `load` is what `manifest.Load`
-- answers for the package.json of a member.
pub mod Built
use m.Base.{
  Option, none, some, List, [], ◌∷◌, ◌++◌, Str, bytes, str_eq, elem, has_prefix, drop, length, find,
  find_or, put, ◌||◌, ◌&&◌, if◌then◌else◌,
}
use m.Base.Int.{ℤ, pos, inc}
use m.Base.Sort.{sort_strings}
use m.Base.Space.{trim_space}
use m.Apperr.{Code, Error, Result, ok, err, ◌>>=◌}

-- What the code reads of a package.json: the name, the version and three maps of dependencies.
pub record Document : Type 0 where
  pub name : Str
  pub version : Str
  pub dependencies : List (Str × Str)
  pub dev_dependencies : List (Str × Str)
  pub optional_dependencies : List (Str × Str)

pub record Member : Type 0 where
  pub name : Str
  pub version : Str
  pub path : Str

-- `index_members` are the member paths of the index; `load` reads the manifest of a path.
pub record WorkspaceGraph : Type 0 where
  pub root : Str
  pub index_members : List Str
  pub load : Str → Option Document
  pub members : List (Str × Member)
  pub by_path : List (Str × Member)

abbrev pub failure : Code → Str → Str → Error
failure code op subject = record { code = code; op = op; subject = subject }

-- The body of the loop of `BuildGraph` for a manifest that was read.
add_member : WorkspaceGraph → Str → Document → Result WorkspaceGraph
add_member g path doc =
    if str_eq doc.name []
    then err (failure Code.manifest (bytes "workspace.graph") path)
    else elim (find doc.name g.members) [
      | some prev ↦ err (failure Code.resolve (bytes "workspace.graph") doc.name)
      | none ↦
          let mem : Member = record {
            name = doc.name;
            version = if str_eq doc.version [] then bytes "0.0.0" else doc.version;
            path = path;
          } in
          ok (record g { members = put doc.name mem g.members; by_path = put path mem g.by_path })
    ]

add_members : WorkspaceGraph → List Str → Result WorkspaceGraph
add_members g [] = ok g
add_members g (path ∷ paths) =
    elim (g.load path) [
      | none ↦ err (failure Code.manifest (bytes "workspace.graph") path)
      | some doc ↦ add_member g path doc
    ]
    >>= λ h. add_members h paths

-- `BuildGraph`, on the index that `BuildIndex` returned.
unfoldable pub build_graph : Str → List Str → (Str → Option Document) → Result WorkspaceGraph
unfolding add_members add_member
build_graph root index_members load =
    add_members
      (record {
        root = root;
        index_members = index_members;
        load = load;
        members = [];
        by_path = [];
      })
      index_members

-- `WorkspaceTargetForDep`
unfoldable pub target_for_dep : Str → Str → WorkspaceGraph → Option Member
target_for_dep dep_name spec g =
    let spec' = trim_space spec in
    let rng = drop (length (bytes "workspace:")) spec' in
    if has_prefix spec' (bytes "workspace:") && (str_eq rng (bytes "*") || str_eq rng (bytes "^"))
    then find dep_name g.members
    else none

-- The inner loop of `workspaceDepsOf` over one map of dependencies.
unfoldable pub targets : WorkspaceGraph → List (Str × Str) → List Str
targets g [] = []
targets g ((dep_name, spec) ∷ deps) = elim (target_for_dep dep_name spec g) [
  | none ↦ targets g deps
  | some mem ↦ mem.path ∷ targets g deps
]

-- `workspaceDepsOf`: sorted, with a path as often as a map names it.
unfoldable pub workspace_deps_of : WorkspaceGraph → Str → List Str
unfolding targets
workspace_deps_of g path = elim (g.load path) [
  | none ↦ []
  | some doc ↦ sort_strings (
      targets g doc.dependencies
      ++ (targets g doc.dev_dependencies ++ targets g doc.optional_dependencies))
]

unfoldable pub restrict : List Str → List Str → List Str
restrict selected [] = []
restrict selected (dep ∷ deps) =
    if elem dep selected then dep ∷ restrict selected deps else restrict selected deps

-- `SelectedWorkspaceDeps`
unfoldable pub selected_workspace_deps : WorkspaceGraph → Str → List Str → List Str
selected_workspace_deps g path selected = restrict selected (workspace_deps_of g path)

-- The first loop of `InducedSubgraph`: the set of the selected paths, or the first one unknown.
unfoldable pub select : WorkspaceGraph → List Str → List Str → Result (List Str)
select g sel [] = ok sel
select g sel (p ∷ ps) =
    let insert = if elem p sel then sel else sel ++ p ∷ [] in
    let skipped = select g sel ps in
    let taken = select g insert ps in
    if str_eq p (bytes ".") then skipped else elim (find p g.by_path) [
      | none ↦ err (failure Code.not_found (bytes "workspace.induced") p)
      | some _ ↦ taken
    ]

-- A dependency's dependents, and how many dependencies a path waits for.
pub record Induced : Type 0 where
  pub edges : List (Str × List Str)
  pub in_degree : List (Str × ℤ)

-- edges[dep] = append(edges[dep], p); inDegree[p]++
unfoldable pub add_edge : Str → Str → Induced → Induced
add_edge p dep s = record {
  edges = put dep (find_or [] dep s.edges ++ p ∷ []) s.edges;
  in_degree = put p (inc (find_or (pos 0) p s.in_degree)) s.in_degree;
}

unfoldable pub add_edges : Str → List Str → Induced → Induced
add_edges p [] s = s
add_edges p (dep ∷ deps) s = add_edges p deps (add_edge p dep s)

unfoldable pub no_degrees : List Str → List (Str × ℤ)
no_degrees [] = []
no_degrees (p ∷ ps) = (p, pos 0) ∷ no_degrees ps

unfoldable pub collect_edges : WorkspaceGraph → List Str → List Str → Induced → Induced
collect_edges g sel [] s = s
collect_edges g sel (p ∷ ps) s =
    collect_edges g sel ps (add_edges p (selected_workspace_deps g p sel) s)

unfoldable pub sort_edges : List (Str × List Str) → List (Str × List Str)
sort_edges [] = []
sort_edges ((dep, ps) ∷ m) = (dep, sort_strings ps) ∷ sort_edges m

-- What `InducedSubgraph` builds for a set of selected paths.
unfoldable pub induce : WorkspaceGraph → List Str → Induced
induce g sel =
    let s = collect_edges g sel sel (record { edges = []; in_degree = no_degrees sel }) in
    record s { edges = sort_edges s.edges }

-- `InducedSubgraph`
unfoldable pub induced_subgraph : WorkspaceGraph → List Str → Result Induced
induced_subgraph g selected = select g [] selected >>= λ sel. ok (induce g sel)
