-- ===== src/Workspace/Order.antt =====
-- internal/workspace/graph.go: `TopoOrderFor`, `ReverseTopoOrder` and `ValidateSelectedCycle`.
pub mod Network
pub mod Correct
pub mod Select
pub mod Decide
pub mod Validate
use m.Base.{
  ℕ, zero, suc, ◌+◌, Bool, true, false, Option, none, some, List, [], ◌∷◌, ◌++◌, Str, bytes, length,
  str_eq, ◌==◌, find_or, put, keys, if◌then◌else◌,
}
use mathlib.Core.List.{reverse}
use m.Base.Int.{ℤ, pos, inc}
use m.Base.Sort.{sort_strings}
use m.Apperr.{Code, Error, Result, ok, err, ◌>>=◌}
use m.Workspace.Graph.{
  WorkspaceGraph, Member, Document, Induced, induced_subgraph, no_degrees, add_edge, target_for_dep,
  failure,
}
use m.Workspace.Kahn.{Degrees, drain, sources}

-- `out = append(out, cur)`
unfoldable pub append_path : List Str → Str → List Str
append_path out cur = out ++ cur ∷ []

-- `visited++`
unfoldable pub count_path : ℕ → Str → ℕ
count_path visited cur = suc visited

abbrev pub cyclic : Str → WorkspaceGraph → Error
cyclic op g = failure Code.resolve op g.root

-- The loop, with a round for each key and one to see the queue empty. A missing result stands for
-- a run out of fuel and has no counterpart in the source.
unfoldable pub kahn_order : List (Str × List Str) → Degrees → Option (List Str)
unfolding append_path
kahn_order edges deg =
    drain append_path edges (suc (length deg)) deg (sort_strings (sources deg)) []

unfoldable pub kahn_count : List (Str × List Str) → Degrees → Option ℕ
unfolding count_path
kahn_count edges deg = drain count_path edges (suc (length deg)) deg (sort_strings (sources deg)) 0

-- `if len(out) != len(inDegree)`; a run out of fuel counts as no result.
unfoldable pub all_ordered : Error → Degrees → Option (List Str) → Result (List Str)
all_ordered e deg none = err e
all_ordered e deg (some out) = if length out == length deg then ok out else err e

unfoldable pub all_visited : Error → Degrees → Option ℕ → Result (Unit {0})
all_visited e deg none = err e
all_visited e deg (some visited) = if visited == length deg then ok tt else err e

-- `TopoOrderFor`
unfoldable pub topo_order_for : WorkspaceGraph → List Str → Result (List Str)
topo_order_for g [] = ok []
topo_order_for g (p ∷ ps) = induced_subgraph g (p ∷ ps) >>= λ s.
    all_ordered (cyclic (bytes "workspace.topo") g) s.in_degree (kahn_order s.edges s.in_degree)

-- `ReverseTopoOrder`
unfoldable pub reverse_topo_order : WorkspaceGraph → List Str → Result (List Str)
reverse_topo_order g paths = topo_order_for g paths >>= λ order. ok (reverse order)

-- `ValidateSelectedCycle`
unfoldable pub validate_selected_cycle : WorkspaceGraph → List Str → Result (Unit {0})
validate_selected_cycle g [] = ok tt
validate_selected_cycle g (p ∷ ps) = induced_subgraph g (p ∷ ps) >>= λ s.
    all_visited (cyclic (bytes "workspace.graph") g) s.in_degree (kahn_count s.edges s.in_degree)
