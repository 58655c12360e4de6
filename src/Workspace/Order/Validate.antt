-- ===== src/Workspace/Order/Validate.antt =====
-- internal/workspace/graph.go: `ValidateSelectedCycle`, and the errors of `TopoOrderFor`.
use m.Base.{
  ℕ, zero, suc, ◌≡◌, refl, sym, ap, ◌∙◌, Bool, true, false, Option, none, some, List, [], ◌∷◌, ◌++◌,
  Str, bytes, str_eq, str_eq_iff, str_eq_refl, elem, find_or, length, length-append, find,
  if◌then◌else◌, ◌==◌, arith, Bool-cases, Option-cases, inl, inr,
}
use m.Base.Sort.{sort_strings}
use m.Apperr.{Code, Error, Result, ok, err, ◌>>=◌}
use m.Workspace.Graph.{WorkspaceGraph, Induced, induced_subgraph, select, failure}
use m.Workspace.Kahn.{Degrees, drain, relax, sources}
use m.Workspace.Order.{
  kahn_order, kahn_count, all_ordered, all_visited, topo_order_for, validate_selected_cycle,
  append_path, count_path, cyclic,
}
use m.Workspace.Order.Select.{root_path}

abbrev pub succeeds : {A : Type 0} → Result A → Bool
succeeds (ok _) = true
succeeds (err _) = false

abbrev counted : Option (List Str) → Option ℕ
counted none = none
counted (some out) = some (length out)

drain-count :
    (edges : List (Str × List Str)) (n : ℕ) (deg : Degrees) (queue out : List Str)
    → drain count_path edges n deg queue (length out)
      ≡ counted (drain append_path edges n deg queue out)
unfolding drain count_path append_path
drain-count edges zero deg queue out = refl
drain-count edges (suc n) deg [] out = refl
drain-count edges (suc n) deg (cur ∷ queue) out =
    let next = relax (find_or [] cur edges) deg queue in
    ap (drain count_path edges n next.0 (sort_strings next.1))
      (sym (length-append out (cur ∷ []) ∙ omega arith))
    ∙ drain-count edges n next.0 (sort_strings next.1) (out ++ cur ∷ [])

kahn_count-kahn_order :
    (edges : List (Str × List Str)) (deg : Degrees)
    → kahn_count edges deg ≡ counted (kahn_order edges deg)
unfolding kahn_count kahn_order
kahn_count-kahn_order edges deg =
    drain-count edges (suc (length deg)) deg (sort_strings (sources deg)) []

all_visited-all_ordered :
    (e e' : Error) (deg : Degrees) (o : Option (List Str))
    → succeeds (all_visited e deg (counted o)) ≡ succeeds (all_ordered e' deg o)
unfolding all_visited all_ordered
all_visited-all_ordered e e' deg none = refl
all_visited-all_ordered e e' deg (some out) = elim (Bool-cases (length out == length deg)) [
  | inl h ↦ rw h refl
  | inr h ↦ rw h refl
]

-- ValidateSelectedCycle accepts exactly the selections that TopoOrderFor orders.
pub validate_selected_cycle-topo_order_for :
    (g : WorkspaceGraph) (paths : List Str)
    → succeeds (validate_selected_cycle g paths) ≡ succeeds (topo_order_for g paths)
unfolding validate_selected_cycle topo_order_for
validate_selected_cycle-topo_order_for g [] = refl
validate_selected_cycle-topo_order_for g (p ∷ ps) = after (induced_subgraph g (p ∷ ps))
  where
    after :
        (r : Result Induced)
        → succeeds (
            r >>= λ s.
            all_visited
              (cyclic (bytes "workspace.graph") g)
              s.in_degree
              (kahn_count s.edges s.in_degree))
          ≡ succeeds (
              r >>= λ s.
              all_ordered
                (cyclic (bytes "workspace.topo") g)
                s.in_degree
                (kahn_order s.edges s.in_degree))
    after (err e) = refl
    after (ok s) =
        ap (λ o. succeeds (all_visited (cyclic (bytes "workspace.graph") g) s.in_degree o))
          (kahn_count-kahn_order s.edges s.in_degree)
        ∙ all_visited-all_ordered (cyclic (bytes "workspace.graph") g)
            (cyclic (bytes "workspace.topo") g) s.in_degree (kahn_order s.edges s.in_degree)

abbrev pub unknown_path : Str → Error
unknown_path q = failure Code.not_found (bytes "workspace.induced") q

select-unknown :
    (g : WorkspaceGraph) (sel paths : List Str) (p : Str)
    → elem p paths ≡ true
    → str_eq p root_path ≡ false
    → find p g.by_path ≡ none
    → (q : Str) × (select g sel paths ≡ err (unknown_path q))
      × (elem q paths ≡ true)
      × (str_eq q root_path ≡ false)
      × (find q g.by_path ≡ none)
unfolding select elem
select-unknown g sel [] p h proper e = absurd (ground arith)
select-unknown g sel (x ∷ xs) p h proper e = elim (Bool-cases (str_eq x root_path)) [
  | inl dot ↦
      let (q, eq, h', n', e') =
        select-unknown g sel xs p (ground (arith, str_eq_iff p x)) proper e in
      (q, rw dot eq, ground arith, n', e')
  | inr normal ↦ elim (Option-cases (find x g.by_path)) [
    | inl missing ↦ (x, rw (normal, missing) refl, ground (arith, str_eq_refl x), normal, missing)
    | inr (mem, found) ↦
        let (q, eq, h', n', e') =
          select-unknown g (if elem x sel then sel else sel ++ x ∷ []) xs p
            (ground (arith, str_eq_iff p x)) proper e in
        (q, rw (normal, found) eq, ground arith, n', e')
  ]
]

-- TopoOrderFor refuses a selection that names a path that is neither the root nor a member, with
-- the error NotFound about a path of the selection that is neither the root nor a member.
pub topo_order_for_unknown :
    (g : WorkspaceGraph) (paths : List Str) (p : Str)
    → elem p paths ≡ true
    → str_eq p root_path ≡ false
    → find p g.by_path ≡ none
    → (q : Str) × (topo_order_for g paths ≡ err (unknown_path q))
      × (elem q paths ≡ true)
      × (str_eq q root_path ≡ false)
      × (find q g.by_path ≡ none)
unfolding topo_order_for induced_subgraph elem
topo_order_for_unknown g [] p h proper e = absurd (ground arith)
topo_order_for_unknown g (x ∷ xs) p h proper e =
    let (q, eq, h', n', e') = select-unknown g [] (x ∷ xs) p h proper e in
    (q, rw eq refl, h', n', e')
