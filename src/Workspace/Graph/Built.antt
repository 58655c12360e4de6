-- ===== src/Workspace/Graph/Built.antt =====
-- internal/workspace/graph.go and filter.go: the graphs that BuildGraph makes, and where the
-- dependencies of a manifest lead in them.
use m.Base.{
  ◌≡◌, refl, sym, ap, subst, ◌∙◌, inl, inr, true, ◌||◌, Option, none, some, List, [], ◌∷◌, ◌++◌,
  Str, str_eq, str_eq_iff, str_eq→eq, elem, elem-append, elem_of_count, find, put, keys,
  if◌then◌else◌, arith, Bool-cases, Option-cases,
}
use m.Base.Sort.{sort_strings, count-sort_strings}
use m.Apperr.{Error, Result, ok, err, ◌>>=◌}
use m.Workspace.Graph.{
  WorkspaceGraph, Member, Document, add_member, add_members, build_graph, target_for_dep, targets,
  workspace_deps_of,
}

find-put :
    (j k : Str) (v : Member) (m : List (Str × Member))
    → find j (put k v m) ≡ (if str_eq j k then some v else find j m)
unfolding find put
find-put j k v [] = ground (arith, str_eq_iff j k)
find-put j k v ((i, w) ∷ m) =
    ground (arith, str_eq_iff k i, str_eq_iff j k, str_eq_iff j i, find-put j k v m)

elem-put :
    (p k : Str) (v : Member) (m : List (Str × Member))
    → elem p (keys (put k v m)) ≡ (str_eq p k || elem p (keys m))
unfolding elem keys put
elem-put p k v [] = ground arith
elem-put p k v ((i, w) ∷ m) =
    ground (arith, str_eq_iff k i, str_eq_iff p k, str_eq_iff p i, elem-put p k v m)

-- The members by name are members by path.
pub HasMembers : WorkspaceGraph → Type 0
HasMembers g =
    (name : Str) (mem : Member)
    → find name g.members ≡ some mem
    → elem mem.path (keys g.by_path) ≡ true

-- Every dependency of a manifest leads to a member.
unfoldable pub HasTargets : WorkspaceGraph → Type 0
HasTargets g = (p d : Str) → elem d (workspace_deps_of g p) ≡ true → elem d (keys g.by_path) ≡ true

target-member :
    (g : WorkspaceGraph) (name spec : Str) (mem : Member)
    → target_for_dep name spec g ≡ some mem
    → find name g.members ≡ some mem
unfolding target_for_dep
target-member g name spec mem h = ground arith

targets-keys :
    (g : WorkspaceGraph) (deps : List (Str × Str)) (d : Str)
    → HasMembers g
    → elem d (targets g deps) ≡ true
    → elem d (keys g.by_path) ≡ true
unfolding targets elem HasMembers
targets-keys g [] d h k = absurd (ground arith)
targets-keys g ((name, spec) ∷ deps) d h k =
    either (target_for_dep name spec g) refl (targets-keys g deps d h) k
  where
    either :
        (o : Option Member)
        → target_for_dep name spec g ≡ o
        → (elem d (targets g deps) ≡ true → elem d (keys g.by_path) ≡ true)
        → elem d (elim o as (λ _. List Str) [
          | none ↦ targets g deps
          | some mem ↦ mem.path ∷ targets g deps
        ])
          ≡ true
        → elem d (keys g.by_path) ≡ true
    either none same rest k' = rest k'
    either (some mem) same rest k' = elim (Bool-cases (str_eq d mem.path)) [
      | inl here ↦
          subst (λ e. elem e (keys g.by_path) ≡ true) (sym (str_eq→eq d mem.path here))
            (h name mem (target-member g name spec mem same))
      | inr there ↦ rest (rw there at k')
    ]

-- A graph whose members by name are members by path has dependencies on members only.
HasMembers-HasTargets : (g : WorkspaceGraph) → HasMembers g → HasTargets g
unfolding HasTargets workspace_deps_of
HasMembers-HasTargets g h p d k = either (g.load p) k
  where
    three :
        (doc : Document)
        → elem d (
            targets g doc.dependencies
            ++ (targets g doc.dev_dependencies ++ targets g doc.optional_dependencies))
          ≡ true
        → elem d (keys g.by_path) ≡ true
    three doc l = ground (
      arith,
      elem-append d (targets g doc.dependencies)
          (targets g doc.dev_dependencies ++ targets g doc.optional_dependencies),
      elem-append d (targets g doc.dev_dependencies) (targets g doc.optional_dependencies),
      targets-keys g doc.dependencies d h,
      targets-keys g doc.dev_dependencies d h,
      targets-keys g doc.optional_dependencies d h,
    )

    either :
        (o : Option Document)
        → elem d (elim o as (λ _. List Str) [
          | none ↦ []
          | some doc ↦ sort_strings (
              targets g doc.dependencies
              ++ (targets g doc.dev_dependencies ++ targets g doc.optional_dependencies))
        ])
          ≡ true
        → elem d (keys g.by_path) ≡ true
    either none l = absurd (no_elem l)
      where
        no_elem : elem d [] ≡ true → ⊥
        no_elem e = unfold elem in ground arith
    either (some doc) l = three doc (
        sym (
          elem_of_count _ _
            (λ a. count-sort_strings a (
              targets g doc.dependencies
              ++ (targets g doc.dev_dependencies ++ targets g doc.optional_dependencies)))
            d)
        ∙ l)

-- A member that is added is one by its name and by its path.
added-HasMembers :
    (g : WorkspaceGraph) (name path : Str) (mem : Member)
    → mem.path ≡ path
    → HasMembers g
    → HasMembers (record g { members = put name mem g.members; by_path = put path mem g.by_path })
unfolding HasMembers
added-HasMembers g name path mem same h j m found = elim (Bool-cases (str_eq j name)) [
  | inl here ↦
      subst (λ p. elem p (keys (put path mem g.by_path)) ≡ true) (path_of here)
        (elem-put path path mem g.by_path ∙ ground (arith, str_eq_iff path path))
  | inr there ↦
      elem-put m.path path mem g.by_path
      ∙ ground (arith, h j m (sym (find-put j name mem g.members ∙ rw there refl) ∙ found))
]
  where
    path_of : str_eq j name ≡ true → path ≡ m.path
    path_of here =
        sym same
        ∙ ap (λ (x : Member). x.path)
            (some_inj (sym (find-put j name mem g.members ∙ rw here refl) ∙ found))
      where
        some_inj : ◌≡◌ {A = Option Member} (some mem) (some m) → mem ≡ m
        some_inj e = ground arith

ok_inj : (g h : WorkspaceGraph) → ◌≡◌ {A = Result WorkspaceGraph} (ok g) (ok h) → g ≡ h
ok_inj g h e = ground arith

add_member-HasMembers :
    (g h : WorkspaceGraph) (path : Str) (doc : Document)
    → add_member g path doc ≡ ok h
    → HasMembers g
    → HasMembers h
unfolding add_member
add_member-HasMembers g h path doc same k = elim (Bool-cases (str_eq doc.name [])) [
  | inl nameless ↦ absurd (refused (rw nameless at same))
  | inr named ↦ elim (Option-cases (find doc.name g.members)) [
    | inl fresh ↦
        subst HasMembers (ok_inj _ h (rw (named, fresh) at same))
          (added-HasMembers g doc.name path _ refl k)
    | inr (prev, taken) ↦ absurd (refused (rw (named, taken) at same))
  ]
]
  where
    refused : {e : Error} → ◌≡◌ {A = Result WorkspaceGraph} (err e) (ok h) → ⊥
    refused r = ground arith

bound-HasMembers :
    (r : Result WorkspaceGraph) (f : WorkspaceGraph → Result WorkspaceGraph) (h : WorkspaceGraph)
    → r >>= f ≡ ok h
    → ((g : WorkspaceGraph) → r ≡ ok g → f g ≡ ok h → HasMembers h)
    → HasMembers h
bound-HasMembers (ok g) f h same rest = rest g refl same
bound-HasMembers (err e) f h same rest = absurd (ground arith)

add_members-HasMembers :
    (g h : WorkspaceGraph) (paths : List Str)
    → add_members g paths ≡ ok h
    → HasMembers g
    → HasMembers h
unfolding add_members
add_members-HasMembers g h [] same k = subst HasMembers (ok_inj g h same) k
add_members-HasMembers g h (path ∷ paths) same k = elim (Option-cases (g.load path)) [
  | inl unread ↦ absurd (refused (rw unread at same))
  | inr (doc, read) ↦
      bound-HasMembers (add_member g path doc) (λ x. add_members x paths) h (rw read at same)
        λ x added rest.
          add_members-HasMembers x h paths rest (add_member-HasMembers g x path doc added k)
]
  where
    refused : {e : Error} → ◌≡◌ {A = Result WorkspaceGraph} (err e) (ok h) → ⊥
    refused r = ground arith

-- BuildGraph makes graphs in which every dependency leads to a member.
pub build_graph-HasTargets :
    (root : Str) (members : List Str) (load : Str → Option Document) (g : WorkspaceGraph)
    → build_graph root members load ≡ ok g
    → HasTargets g
unfolding build_graph HasMembers find
build_graph-HasTargets root members load g built =
    HasMembers-HasTargets g (add_members-HasMembers _ g members built empty)
  where
    empty :
        HasMembers
          (record { root = root; index_members = members; load = load; members = []; by_path = [] })
    empty name mem found = absurd (ground arith)
