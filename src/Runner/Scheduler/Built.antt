-- ===== src/Runner/Scheduler/Built.antt =====
-- internal/runner/schedule.go: the schedules that `BuildSchedule` makes in topological order.
use m.Base.{
  ℕ, suc, ◌≤◌, ◌≡◌, ◌⊎◌, refl, sym, ap, ◌∙◌, subst, true, false, some, List, [], ◌∷◌, ◌++◌, Str,
  count, find_or, length, length-append, append_assoc, get_elem?, sum_by, arith, inl, inr, str_eq,
  elem,
}
use m.Base.Int.{ℤ, pos}
use m.Apperr.{Error, Result, ok, err}
use m.Workspace.Graph.{WorkspaceGraph, induce, induced_subgraph}
use m.Workspace.Order.{validate_selected_cycle}
use m.Workspace.Order.Select.{IsKnown, select-known}
use m.Workspace.Order.Decide.{IsOrder, topo_order_for_decides, nothing_seen}
use m.Workspace.Order.Validate.{succeeds, validate_selected_cycle-topo_order_for}
use m.Runner.Schedule.{
  ScheduledTask, Schedule, number_tasks, build_schedule, build_induced_subgraph, order_topological,
  order_paths, effective_concurrency,
}
use m.Runner.Schedule.Plan.{paths_of, paths_of-number_tasks, edges_into}
use m.Runner.Scheduler.Tally.{total}
use m.Runner.Scheduler.Flight.{All, Numbered}
use m.Runner.Scheduler.Invariant.{IsPlan}

Numbered-number_tasks :
    (g : WorkspaceGraph) (i : ℕ) (ps : List Str) → Numbered i (number_tasks g i ps)
unfolding number_tasks
Numbered-number_tasks g i [] = tt
Numbered-number_tasks g i (p ∷ ps) = (refl, Numbered-number_tasks g (suc i) ps)

get_elem?-front :
    (front : List ScheduledTask) (t : ScheduledTask) (ts : List ScheduledTask)
    → get_elem? (front ++ t ∷ ts) (length front) ≡ some t
get_elem?-front [] t ts = refl
get_elem?-front (x ∷ front) t ts = get_elem?-front front t ts

placed_from :
    (front ts : List ScheduledTask)
    → Numbered (length front) ts
    → All (λ t. get_elem? (front ++ ts) t.index ≡ some t) ts
placed_from front [] n = tt
placed_from front (t ∷ ts) n = (
  ap (get_elem? (front ++ t ∷ ts)) n.0 ∙ get_elem?-front front t ts,
  subst (λ us. All (λ u. get_elem? us u.index ≡ some u) ts) (append_assoc front (t ∷ []) ts)
      (placed_from (front ++ t ∷ []) ts
        (subst (λ k. Numbered k ts) (omega (arith, length-append front (t ∷ []))) n.1)),
)

total-paths_of :
    (sched : Schedule) (v : Str) (ts : List ScheduledTask)
    → total sched v ts ≡ sum_by (λ u. count v (find_or [] u sched.edges)) (paths_of ts)
unfolding total sum_by paths_of
total-paths_of sched v [] = refl
total-paths_of sched v (t ∷ ts) = omega (arith, total-paths_of sched v ts)

abbrev plan_of : ℕ → WorkspaceGraph → List Str → List Str → ℤ → Schedule
plan_of procs g sel order requested = record {
  tasks = number_tasks g 0 order;
  edges = (induce g sel).edges;
  in_degree = (induce g sel).in_degree;
  effective_concurrent = effective_concurrency procs requested (length (number_tasks g 0 order));
  order = order_topological;
}

plan_of-IsPlan :
    (procs : ℕ) (g : WorkspaceGraph) (sel order : List Str) (requested : ℤ)
    → ((a : Str) → count a sel ≤ 1)
    → ((a : Str) → count a order ≡ count a sel)
    → IsPlan (plan_of procs g sel order requested)
plan_of-IsPlan procs g sel order requested once same = record {
  numbered = Numbered-number_tasks g 0 order;
  placed = placed_from [] (number_tasks g 0 order) (Numbered-number_tasks g 0 order);
  degrees = λ v.
      edges_into g sel once order same v
      ∙ ap pos (
          ap (sum_by (λ u. count v (find_or [] u (induce g sel).edges)))
            (sym (paths_of-number_tasks g 0 order))
          ∙ sym (total-paths_of (plan_of procs g sel order requested) v (number_tasks g 0 order)));
}

valid_of : (r : Result (Unit {0})) → succeeds r ≡ true → r ≡ ok tt
valid_of (ok tt) h = refl
valid_of (err e) h = absurd (ground arith)

invalid_of : (r : Result (Unit {0})) → succeeds r ≡ false → (e : Error) × (r ≡ err e)
invalid_of (ok u) h = absurd (ground arith)
invalid_of (err e) h = (e, refl)

-- When every path of a selection that is not empty is a member of the workspace (or the root),
-- BuildSchedule in topological order either makes a schedule whose tasks are an order of the
-- selection and whose indices and degrees fit its tasks and edges, or it returns an error and
-- there is no such order.
pub build_schedule_lem :
    (procs : ℕ) (g : WorkspaceGraph) (p : Str) (ps : List Str) (requested : ℤ)
    → IsKnown g (p ∷ ps)
    → ((sched : Schedule) × (build_schedule procs g (p ∷ ps) order_topological requested ≡ ok sched)
        × IsPlan sched
        × IsOrder g (p ∷ ps) (paths_of sched.tasks))
      ⊎ ((e : Error) × (build_schedule procs g (p ∷ ps) order_topological requested ≡ err e)
          × ((order : List Str) → ¬ IsOrder g (p ∷ ps) order))
unfolding build_schedule build_induced_subgraph order_paths induced_subgraph str_eq elem
build_schedule_lem procs g p ps requested k =
    let (sel, e, c) = select-known g [] (p ∷ ps) nothing_seen k in
    elim (topo_order_for_decides g (p ∷ ps) k) [
      | inl (order, eq, o) ↦
          let valid : validate_selected_cycle g (p ∷ ps) ≡ ok tt =
            valid_of (validate_selected_cycle g (p ∷ ps))
              (validate_selected_cycle-topo_order_for g (p ∷ ps) ∙ ap succeeds eq) in
          inl (
            plan_of procs g sel order requested,
            rw (valid, e, eq) refl,
            plan_of-IsPlan procs g sel order requested (λ a. ground (arith, c a))
                (λ a. o.each a ∙ sym (c a ∙ ground arith)),
            subst (IsOrder g (p ∷ ps)) (sym (paths_of-number_tasks g 0 order)) o,
          )
      | inr (eq, never) ↦
          let (e', invalid) =
            invalid_of (validate_selected_cycle g (p ∷ ps))
              (validate_selected_cycle-topo_order_for g (p ∷ ps) ∙ ap succeeds eq) in
          inr (e', rw invalid refl, never)
    ]
