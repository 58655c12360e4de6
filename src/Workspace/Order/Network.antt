-- ===== src/Workspace/Order/Network.antt =====
-- internal/workspace/graph.go: the edges and the degrees of the subgraph of `InducedSubgraph`.
use m.Base.{
  ℕ, suc, ◌+◌, ◌*◌, ◌≤◌, ◌<◌, ◌≡◌, refl, sym, ap, ◌∙◌, true, List, [], ◌∷◌, ◌++◌, Str, str_eq,
  str_eq_iff, str_eq_symm, str_eq_refl, count, count-append, elem, elem→count, find_or, find_or-put,
  keys, keys-put, length, if◌then◌else◌, arith, Bool-cases, inl, inr,
}
use m.Base.Int.{pos, inc, is_zero}
use m.Base.Sort.{count-sort_strings}
use m.Workspace.Graph.{
  WorkspaceGraph, Induced, add_edge, add_edges, no_degrees, collect_edges, sort_edges, restrict,
  selected_workspace_deps,
}
use m.Workspace.Kahn.{Degrees, sources}

add_edges-edges :
    (p : Str) (ds : List Str) (s : Induced) (u v : Str)
    → count v (find_or [] u (add_edges p ds s).edges)
      ≡ count v (find_or [] u s.edges) + (if str_eq v p then count u ds else 0)
unfolding add_edges add_edge count
add_edges-edges p [] s u v = ground arith
add_edges-edges p (d ∷ ds) s u v = ground (
  arith,
  add_edges-edges p ds (add_edge p d s) u v,
  find_or-put [] d u (find_or [] d s.edges ++ p ∷ []) s.edges,
  count-append v (find_or [] d s.edges) (p ∷ []),
  str_eq_iff d u,
  str_eq_iff u d,
)

inc_pos : (n : ℕ) → inc (pos n) ≡ pos (suc n)
unfolding inc
inc_pos n = refl

add_edges-degree :
    (p : Str) (ds : List Str) (s : Induced) (v : Str) (d : ℕ)
    → find_or (pos 0) v s.in_degree ≡ pos d
    → find_or (pos 0) v (add_edges p ds s).in_degree
      ≡ pos (d + (if str_eq v p then length ds else 0))
unfolding add_edges add_edge
add_edges-degree p [] s v d e = e ∙ ap pos (ground arith)
add_edges-degree p (x ∷ ds) s v d e = elim (Bool-cases (str_eq v p)) [
  | inl here ↦
      let one_more : find_or (pos 0) v (add_edge p x s).in_degree ≡ pos (suc d) =
        find_or-put (pos 0) p v (inc (find_or (pos 0) p s.in_degree)) s.in_degree
        ∙ rw (str_eq_symm p v, here)
            (ap (λ (k : Str). inc (find_or (pos 0) k s.in_degree)) (sym ((str_eq_iff v p).0 here))
              ∙ ap inc e
              ∙ inc_pos d) in
      add_edges-degree p ds (add_edge p x s) v (suc d) one_more ∙ ap pos (ground arith)
  | inr other ↦
      let unchanged : find_or (pos 0) v (add_edge p x s).in_degree ≡ pos d =
        find_or-put (pos 0) p v (inc (find_or (pos 0) p s.in_degree)) s.in_degree
        ∙ rw (str_eq_symm p v, other) e in
      add_edges-degree p ds (add_edge p x s) v d unchanged ∙ ap pos (ground arith)
]

add_edges-keys :
    (p : Str) (ds : List Str) (s : Induced)
    → elem p (keys s.in_degree) ≡ true
    → keys (add_edges p ds s).in_degree ≡ keys s.in_degree
unfolding add_edges add_edge
add_edges-keys p [] s h = refl
add_edges-keys p (x ∷ ds) s h =
    let same = keys-put p (inc (find_or (pos 0) p s.in_degree)) s.in_degree h in
    add_edges-keys p ds (add_edge p x s) (rw same h) ∙ same

module _ (g : WorkspaceGraph) (sel : List Str) where
  abbrev pub deps_in : Str → List Str
  deps_in p = selected_workspace_deps g p sel

  pub collect-edges :
      (ps : List Str) (s : Induced) (u v : Str)
      → count v (find_or [] u (collect_edges g sel ps s).edges)
        ≡ count v (find_or [] u s.edges) + count v ps * count u (deps_in v)
  unfolding collect_edges count
  collect-edges [] s u v = omega arith
  collect-edges (p ∷ ps) s u v = ground (
    arith,
    collect-edges ps (add_edges p (deps_in p) s) u v,
    add_edges-edges p (deps_in p) s u v,
    str_eq_iff v p,
  )

  pub collect-degree :
      (ps : List Str) (s : Induced) (v : Str) (d : ℕ)
      → find_or (pos 0) v s.in_degree ≡ pos d
      → find_or (pos 0) v (collect_edges g sel ps s).in_degree
        ≡ pos (d + count v ps * length (deps_in v))
  unfolding collect_edges count
  collect-degree [] s v d e = e ∙ ap pos (omega arith)
  collect-degree (p ∷ ps) s v d e =
      collect-degree ps (add_edges p (deps_in p) s) v
        (d + (if str_eq v p then length (deps_in p) else 0))
        (add_edges-degree p (deps_in p) s v d e)
      ∙ ap pos (ground (arith, str_eq_iff v p))

  pub collect-keys :
      (ps : List Str) (s : Induced)
      → ((p : Str) → 0 < count p ps → elem p (keys s.in_degree) ≡ true)
      → keys (collect_edges g sel ps s).in_degree ≡ keys s.in_degree
  unfolding collect_edges count
  collect-keys [] s h = refl
  collect-keys (p ∷ ps) s h =
      let same = add_edges-keys p (deps_in p) s (h p (ground (arith, str_eq_refl p))) in
      collect-keys ps (add_edges p (deps_in p) s) (λ q k. rw same (h q (omega arith))) ∙ same

pub sort_edges-lookup :
    (m : List (Str × List Str)) (u v : Str)
    → count v (find_or [] u (sort_edges m)) ≡ count v (find_or [] u m)
unfolding sort_edges find_or
sort_edges-lookup [] u v = refl
sort_edges-lookup ((d, ps) ∷ m) u v =
    ground (arith, sort_edges-lookup m u v, count-sort_strings v ps)

pub no_degrees-lookup : (sel : List Str) (v : Str) → find_or (pos 0) v (no_degrees sel) ≡ pos 0
unfolding no_degrees find_or
no_degrees-lookup [] v = refl
no_degrees-lookup (p ∷ sel) v = ground (arith, no_degrees-lookup sel v)

pub keys-no_degrees : (sel : List Str) → keys (no_degrees sel) ≡ sel
unfolding no_degrees keys
keys-no_degrees [] = refl
keys-no_degrees (p ∷ sel) = ap (◌∷◌ p) (keys-no_degrees sel)

pub count-sources :
    (deg : Degrees) (v : Str)
    → count v (keys deg) ≤ 1
    → count v (sources deg) ≡ (if is_zero (find_or (pos 0) v deg) then count v (keys deg) else 0)
unfolding sources keys find_or count
count-sources [] v h = ground arith
count-sources ((p, d) ∷ deg) v h = ground (arith, count-sources deg v, str_eq_iff v p)

pub count-restrict : (sel ds : List Str) (a : Str) → 0 < count a (restrict sel ds) → 0 < count a sel
unfolding restrict count
count-restrict sel [] a h = absurd (omega arith)
count-restrict sel (d ∷ ds) a h =
    ground (arith, count-restrict sel ds a, str_eq_iff a d, elem→count d sel)
