-- ===== src/Workspace/Order/Select.antt =====
-- internal/workspace/graph.go: the set of the paths that `InducedSubgraph` takes.
use m.Base.{
  ℕ, ◌+◌, ◌≡◌, refl, ◌∙◌, true, false, not, ◌&&◌, ◌||◌, some, List, [], ◌∷◌, ◌++◌, Str, bytes,
  str_eq, str_eq_iff, str_eq_refl, count, count-append, elem, elem-append, find, if◌then◌else◌,
  arith, Bool-cases, inl, inr,
}
use m.Apperr.{ok}
use m.Workspace.Graph.{WorkspaceGraph, Member, select}

abbrev pub root_path : Str
root_path = bytes "."

-- How often a path stands in the set that is ordered.
abbrev pub wanted : List Str → Str → ℕ
wanted paths a = if elem a paths && not (str_eq a root_path) then 1 else 0

-- Every selected path but the root is a member.
pub record IsKnown (g : WorkspaceGraph) (paths : List Str) : Type 0 where
  pub member :
      (p : Str)
      → elem p paths ≡ true
      → str_eq p root_path ≡ false
      → (mem : Member) × (find p g.by_path ≡ some mem)

abbrev insert : Str → List Str → List Str
insert p sel = if elem p sel then sel else sel ++ p ∷ []

abbrev marks : List Str → List Str → Str → ℕ
marks sel paths a = if elem a sel || (elem a paths && not (str_eq a root_path)) then 1 else 0

count-insert :
    (p : Str) (sel : List Str) (a : Str)
    → count a (insert p sel) ≡ count a sel + (if str_eq a p && not (elem a sel) then 1 else 0)
unfolding count
count-insert p sel a = ground (arith, str_eq_iff a p, count-append a sel (p ∷ []))

elem-insert :
    (p : Str) (sel : List Str) (a : Str) → elem a (insert p sel) ≡ (elem a sel || str_eq a p)
unfolding elem
elem-insert p sel a = ground (arith, str_eq_iff a p, elem-append a sel (p ∷ []))

tail-IsKnown : (g : WorkspaceGraph) (p : Str) (ps : List Str) → IsKnown g (p ∷ ps) → IsKnown g ps
unfolding elem
tail-IsKnown g p ps k = record { member = λ q h. k.member q (ground (arith, h)) }

-- With every path known the set is found.
pub select-known :
    (g : WorkspaceGraph) (sel paths : List Str)
    → ((a : Str) → count a sel ≡ (if elem a sel then 1 else 0))
    → IsKnown g paths
    → (r : List Str) × (select g sel paths ≡ ok r) × ((a : Str) → count a r ≡ marks sel paths a)
unfolding select elem
select-known g sel [] h k = (sel, refl, λ a. ground (arith, h a))
select-known g sel (p ∷ ps) h k = elim (Bool-cases (str_eq p root_path)) [
  | inl dot ↦
      let (r, e, c) = select-known g sel ps h (tail-IsKnown g p ps k) in
      (r, rw dot e, λ a. c a ∙ ground (arith, str_eq_iff a p))
  | inr proper ↦
      let (mem, e) = k.member p (ground (arith, str_eq_refl p)) proper in
      let (r, e', c) =
        select-known g (insert p sel) ps
          (λ a. ground (arith, count-insert p sel a, elem-insert p sel a, h a))
          (tail-IsKnown g p ps k) in
      (r, rw (proper, e) e', λ a. c a ∙ ground (arith, elem-insert p sel a, str_eq_iff a p))
]
