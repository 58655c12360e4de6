-- ===== src/Workspace/Order/Correct.antt =====
-- internal/workspace/graph.go: the loop of `TopoOrderFor` at its start, on the selected subgraph.
use m.Base.{
  ◌*◌, ◌≤◌, ◌≡◌, ap, ◌∙◌, List, [], Str, count, count→elem, count→elem, find_or, keys, length,
  if◌then◌else◌, arith, sum_by, ◌==◌,
}
use m.Base.Int.{pos}
use m.Base.Sort.{sort_strings, count-sort_strings}
use m.Workspace.Graph.{
  WorkspaceGraph, no_degrees, collect_edges, induce, workspace_deps_of, selected_workspace_deps,
}
use m.Workspace.Kahn.{sources}
use m.Workspace.Kahn.Relax.{is_zero_of}
use m.Workspace.Kahn.Invariant.{IsNetwork, Inv}
use m.Workspace.Order.Network.{
  deps_in, collect-edges, collect-degree, collect-keys, sort_edges-lookup, no_degrees-lookup,
  keys-no_degrees, count-sources, count-restrict,
}

module _ (g : WorkspaceGraph) (sel : List Str) (once : (a : Str) → count a sel ≤ 1) where
  pub induce-IsNetwork : IsNetwork sel (deps_in g sel) (induce g sel).edges
  unfolding induce find_or count
  induce-IsNetwork = record {
    once = once;
    inward = λ u v h. edges_of u v ∙ grind (arith, once v);
    outward = λ u v h. edges_of u v ∙ rw h (omega arith);
    closed = λ u v h p.
        count-restrict sel (workspace_deps_of g v) u (unfold selected_workspace_deps in p);
  }
    where
      edges_of :
          (u v : Str)
          → count v (find_or [] u (induce g sel).edges) ≡ count v sel * count u (deps_in g sel v)
      edges_of u v =
          sort_edges-lookup
            (collect_edges g sel sel (record { edges = []; in_degree = no_degrees sel })).edges u v
          ∙ collect-edges g sel sel (record { edges = []; in_degree = no_degrees sel }) u v
          ∙ omega arith

  pub degree_of :
      (v : Str)
      → find_or (pos 0) v (induce g sel).in_degree ≡ pos (count v sel * length (deps_in g sel v))
  unfolding induce
  degree_of v =
      collect-degree g sel sel (record { edges = []; in_degree = no_degrees sel }) v 0
        (no_degrees-lookup sel v)
      ∙ ap pos (omega arith)

  pub keys_of : keys (induce g sel).in_degree ≡ sel
  unfolding induce
  keys_of =
      collect-keys g sel sel (record { edges = []; in_degree = no_degrees sel })
        (λ p h. rw (keys-no_degrees sel) (count→elem p sel h))
      ∙ keys-no_degrees sel

  count-start :
      (v : Str)
      → count v (sort_strings (sources (induce g sel).in_degree))
        ≡ (if count v sel * length (deps_in g sel v) == 0 then count v sel else 0)
  count-start v =
      count-sort_strings v (sources (induce g sel).in_degree)
      ∙ count-sources (induce g sel).in_degree v (rw keys_of (once v))
      ∙ rw (degree_of v, keys_of, is_zero_of)

  pub start-Inv :
      Inv induce-IsNetwork
        (induce g sel).in_degree
        (sort_strings (sources (induce g sel).in_degree))
        []
  unfolding count sum_by
  start-Inv = record {
    few = λ a. ground (arith, count-start a);
    degrees = λ v h. degree_of v ∙ ap pos (grind (arith, once v));
    ready = λ v p. ground (arith, count-start v, once v);
    reached = λ v h e. ground (arith, count-start v, once v);
    ordered = tt;
  }
