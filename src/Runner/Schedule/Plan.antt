-- ===== src/Runner/Schedule/Plan.antt =====
-- internal/runner/schedule.go: the degrees of a schedule and the edges between its tasks.
use m.Base.{
  ℕ, suc, ◌*◌, ◌≤◌, ◌≡◌, refl, sym, ap, ◌∙◌, List, [], ◌∷◌, Str, count, find_or, length, sum_by,
  sum_by-count, arith, ltb, ltb→lt, Bool-cases, inl, inr,
}
use m.Base.Int.{pos}
use m.Workspace.Graph.{WorkspaceGraph, induce}
use m.Workspace.Kahn.Invariant.{IsNetwork}
use m.Workspace.Order.Correct.{induce-IsNetwork, degree_of}
use m.Workspace.Order.Network.{deps_in}
use m.Runner.Schedule.{ScheduledTask, number_tasks}

-- The paths of tasks.
unfoldable pub paths_of : List ScheduledTask → List Str
paths_of [] = []
paths_of (t ∷ ts) = t.path ∷ paths_of ts

pub paths_of-number_tasks :
    (g : WorkspaceGraph) (i : ℕ) (ps : List Str) → paths_of (number_tasks g i ps) ≡ ps
unfolding paths_of number_tasks
paths_of-number_tasks g i [] = refl
paths_of-number_tasks g i (p ∷ ps) = ap (◌∷◌ p) (paths_of-number_tasks g (suc i) ps)

sum_by-ext : (f h : Str → ℕ) (xs : List Str) → ((a : Str) → f a ≡ h a) → sum_by f xs ≡ sum_by h xs
unfolding sum_by
sum_by-ext f h [] e = refl
sum_by-ext f h (x ∷ xs) e = omega (arith, e x, sum_by-ext f h xs e)

sum_by-none : (f : Str → ℕ) (xs : List Str) → ((a : Str) → f a ≡ 0) → sum_by f xs ≡ 0
unfolding sum_by
sum_by-none f [] e = refl
sum_by-none f (x ∷ xs) e = omega (arith, e x, sum_by-none f xs e)

-- The degree of a path in the selected subgraph is the number of its edges from the paths of an
-- order of it.
pub edges_into :
    (g : WorkspaceGraph) (sel : List Str) (once : (a : Str) → count a sel ≤ 1) (order : List Str)
    → ((a : Str) → count a order ≡ count a sel)
    → (v : Str)
    → find_or (pos 0) v (induce g sel).in_degree
      ≡ pos (sum_by (λ u. count v (find_or [] u (induce g sel).edges)) order)
edges_into g sel once order same v = degree_of g sel once v ∙ ap pos (sym (counted v))
  where
    net : IsNetwork sel (deps_in g sel) (induce g sel).edges
    net = induce-IsNetwork g sel once

    counted :
        (v : Str)
        → sum_by (λ u. count v (find_or [] u (induce g sel).edges)) order
          ≡ count v sel * length (deps_in g sel v)
    counted v = elim (Bool-cases (ltb 0 (count v sel))) [
      | inl here ↦
          let one : count v sel ≡ 1 = omega (arith, once v, ltb→lt 0 (count v sel) here) in
          sum_by-ext (λ u. count v (find_or [] u (induce g sel).edges))
            (λ u. count u (deps_in g sel v)) order (λ u. net.inward u v (omega arith))
          ∙ sum_by-count (deps_in g sel v) order
              (λ a p. omega (arith, same a, once a, net.closed a v (omega arith) p))
          ∙ rw one (omega arith)
      | inr absent ↦
          let zero_of : count v sel ≡ 0 = ground arith in
          sum_by-none (λ u. count v (find_or [] u (induce g sel).edges)) order
            (λ u. net.outward u v zero_of)
          ∙ rw zero_of (omega arith)
    ]
