-- ===== src/Workspace/Order/Decide.antt =====
-- internal/workspace/graph.go: what `TopoOrderFor` answers for members of the workspace.
use m.Base.{
  suc, ◌≤◌, ◌≡◌, ◌⊎◌, refl, sym, ap, ◌∙◌, subst, some, List, [], ◌∷◌, Str, bytes, count, elem,
  elem_of_count, length-keys, length, if◌then◌else◌, ◌==◌, arith, Bool-cases, inl, inr,
  count-eq_of_length,
}
use m.Apperr.{Error, Result, ok, err, ◌>>=◌}
use m.Base.Sort.{sort_strings, sort}
use mathlib.Core.Path.{fun_ext}
use m.Workspace.Graph.{
  WorkspaceGraph, collect_edges, no_degrees, sort_edges, induce, induced_subgraph, select, restrict,
  selected_workspace_deps, workspace_deps_of,
}
use m.Workspace.Kahn.{drain, sources}
use m.Workspace.Kahn.Invariant.{Ordered}
use m.Workspace.Kahn.Total.{Finished, drain-Finished, complete}
use m.Workspace.Order.{kahn_order, all_ordered, topo_order_for, append_path, cyclic}
use m.Workspace.Order.Correct.{induce-IsNetwork, keys_of, start-Inv}
use m.Workspace.Order.Network.{deps_in}
use m.Workspace.Order.Select.{IsKnown, wanted, select-known}

-- An order of the selected paths: each of them once and nothing else, and each one behind all the
-- selected paths that it depends on.
pub record IsOrder (g : WorkspaceGraph) (paths order : List Str) : Type 0 where
  pub each : (a : Str) → count a order ≡ wanted paths a
  before : Ordered (λ p. selected_workspace_deps g p order) [] order

restrict_ext :
    (xs ys ds : List Str) → ((a : Str) → elem a xs ≡ elem a ys) → restrict xs ds ≡ restrict ys ds
unfolding restrict
restrict_ext xs ys [] h = refl
restrict_ext xs ys (d ∷ ds) h = rw (h d, restrict_ext xs ys ds h) refl

module _ (g : WorkspaceGraph) (sel : List Str) (once : (a : Str) → count a sel ≤ 1) where
  length_in_degree : length (induce g sel).in_degree ≡ length sel
  length_in_degree = sym (length-keys (induce g sel).in_degree) ∙ ap length (keys_of g sel once)

  kahn_lem :
      (r : List Str) × (kahn_order (induce g sel).edges (induce g sel).in_degree ≡ some r)
      × Finished (induce-IsNetwork g sel once) r
  unfolding kahn_order append_path
  kahn_lem =
      drain-Finished (induce-IsNetwork g sel once) (suc (length (induce g sel).in_degree))
        (induce g sel).in_degree (sort_strings (sources (induce g sel).in_degree))
        (start-Inv g sel once) (omega (arith, length_in_degree))

  module _ (paths : List Str) (same : (a : Str) → count a sel ≡ wanted paths a) where
    -- The dependencies within an order are those within the selection.
    deps_same :
        (order : List Str)
        → ((a : Str) → count a order ≡ wanted paths a)
        → (λ (p : Str). selected_workspace_deps g p order) ≡ deps_in g sel
    unfolding selected_workspace_deps
    deps_same order h = fun_ext (λ p.
        restrict_ext order sel (workspace_deps_of g p)
          (elem_of_count order sel (λ a. h a ∙ sym (same a))))

    length_shut :
        (r : List Str) → (length r == length (induce g sel).in_degree) ≡ (length r == length sel)
    length_shut r = ground (arith, length_in_degree)

    all-IsOrder :
        (r : List Str)
        → Finished (induce-IsNetwork g sel once) r
        → length r ≡ length sel
        → IsOrder g paths r
    all-IsOrder r f h = record {
      each = each;
      before = subst (λ deps. Ordered deps [] r) (sym (deps_same r each)) f.ordered;
    }
      where
        each : (a : Str) → count a r ≡ wanted paths a
        each a = count-eq_of_length r sel f.few h a ∙ same a

    none-IsOrder :
        (r : List Str)
        → Finished (induce-IsNetwork g sel once) r
        → ¬ (length r ≡ length sel)
        → (order : List Str) → ¬ IsOrder g paths order
    none-IsOrder r f left order o = left (
        complete (induce-IsNetwork g sel once) f order
          (subst (λ deps. Ordered deps [] order) (deps_same order o.each) o.before)
          (λ v p. omega (arith, o.each v, same v)))

    decides :
        (e : Error) (r : List Str)
        → Finished (induce-IsNetwork g sel once) r
        → ((all_ordered e (induce g sel).in_degree (some r) ≡ ok r) × IsOrder g paths r)
          ⊎ ((all_ordered e (induce g sel).in_degree (some r) ≡ err e)
              × ((order : List Str) → ¬ IsOrder g paths order))
    unfolding all_ordered
    decides e r f = elim (Bool-cases (length r == length (induce g sel).in_degree)) [
      | inl all ↦ inl (rw all refl, all-IsOrder r f (ground (arith, length_in_degree)))
      | inr few ↦ inr (rw few refl, none-IsOrder r f (λ h. ground (arith, length_in_degree)))
    ]

pub nothing_seen : (a : Str) → count a [] ≡ (if elem a [] then 1 else 0)
unfolding count elem
nothing_seen a = refl

unfoldable ordered_after : WorkspaceGraph → Result (List Str) → Result (List Str)
ordered_after g r = r >>= λ sel.
    all_ordered (cyclic (bytes "workspace.topo") g) (induce g sel).in_degree
      (kahn_order (induce g sel).edges (induce g sel).in_degree)

ordered_after-empty : (g : WorkspaceGraph) → ok [] ≡ ordered_after g (ok [])
unfolding ordered_after all_ordered kahn_order induce collect_edges no_degrees sort_edges drain
    sources sort_strings sort
ordered_after-empty g = refl

-- What `TopoOrderFor` answers for members, in either case.
topo-select :
    (g : WorkspaceGraph) (paths sel : List Str)
    → select g [] paths ≡ ok sel
    → topo_order_for g paths
      ≡ all_ordered
          (cyclic (bytes "workspace.topo") g)
          (induce g sel).in_degree
          (kahn_order (induce g sel).edges (induce g sel).in_degree)
unfolding topo_order_for induced_subgraph select ordered_after
topo-select g [] sel e = ordered_after-empty g ∙ ap (ordered_after g) e
topo-select g (p ∷ ps) sel e = rw e refl

-- When every selected path is a member of the workspace (or the root, which is skipped),
-- TopoOrderFor either returns an order of them, each once and behind the selected ones it depends
-- on, or it returns the cycle error and there is no such order.
pub topo_order_for_decides :
    (g : WorkspaceGraph) (paths : List Str)
    → IsKnown g paths
    → ((order : List Str) × (topo_order_for g paths ≡ ok order) × IsOrder g paths order)
      ⊎ ((topo_order_for g paths ≡ err (cyclic (bytes "workspace.topo") g))
          × ((order : List Str) → ¬ IsOrder g paths order))
unfolding elem
topo_order_for_decides g paths k =
    let (sel, e, c) = select-known g [] paths (λ a. nothing_seen a) k in
    let once : (a : Str) → count a sel ≤ 1 = λ a. ground (arith, c a) in
    let (r, eq, f) = kahn_lem g sel once in
    let topo =
      topo-select g paths sel e
      ∙ ap (all_ordered (cyclic (bytes "workspace.topo") g) (induce g sel).in_degree) eq in
    elim (decides g sel once paths (λ a. c a ∙ ground arith) (cyclic (bytes "workspace.topo") g) r
      f) [ inl (good, o) ↦ inl (r, topo ∙ good, o) | inr (bad, never) ↦ inr (topo ∙ bad, never) ]
