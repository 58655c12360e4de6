-- ===== src/Workspace/Filter/Closure.antt =====
-- internal/workspace/filter.go: the loop of `dependencyClosure` and `dependentClosure`, which is
-- given a round for each path that can enter the queue.
use m.Base.{
  ℕ, zero, suc, ◌+◌, ◌≤◌, ◌<◌, ◌≡◌, refl, sym, ◌∙◌, subst, ◌⊎◌, inl, inr, Bool, true, false, ◌||◌,
  Option, some, List, [], ◌∷◌, ◌++◌, Str, str_eq, str_eq_refl, str_eq_iff, elem, elem-append,
  elem_of_count, length, length-append, keys, length-keys, if◌then◌else◌, arith,
}
use m.Apperr.{ok}
use m.Base.Sort.{sort_strings, count-sort_strings, length-sort_strings}
use m.Workspace.Graph.Built.{HasTargets, build_graph-HasTargets}
use m.Workspace.Graph.{build_graph, Document, WorkspaceGraph, workspace_deps_of}
use m.Workspace.Filter.{
  visit_all, close, depend_on, dependents_of, closure_rounds, dependency_closure, dependent_closure,
}

-- Each of the one list is in the other.
abbrev pub AllIn : List Str → List Str → Type 0
AllIn ds out = (d : Str) → elem d ds ≡ true → elem d out ≡ true

elem_snoc : (a p : Str) (xs : List Str) → elem a (xs ++ p ∷ []) ≡ (elem a xs || str_eq a p)
unfolding elem
elem_snoc a p xs = elem-append a xs (p ∷ []) ∙ ground (arith)

elem-sort : (a : Str) (xs : List Str) → elem a (sort_strings xs) ≡ elem a xs
elem-sort a xs = elem_of_count (sort_strings xs) xs (λ b. count-sort_strings b xs) a

none_in : (d : Str) → elem d [] ≡ true → ⊥
unfolding elem
none_in d h = cc

elem_here : (p : Str) (ps : List Str) → elem p (p ∷ ps) ≡ true
unfolding elem
elem_here p ps = ground (arith, str_eq_refl p)

elem_there : (d p : Str) (ps : List Str) → elem d ps ≡ true → elem d (p ∷ ps) ≡ true
unfolding elem
elem_there d p ps h = ground arith

elem_cases : (d p : Str) (ps : List Str) → elem d (p ∷ ps) ≡ true → (d ≡ p) ⊎ (elem d ps ≡ true)
unfolding elem
elem_cases d p ps h = ground (arith, str_eq_iff d p)

in_snoc : (d p : Str) (xs : List Str) → elem d xs ≡ true → elem d (xs ++ p ∷ []) ≡ true
in_snoc d p xs h = ground (arith, elem_snoc d p xs)

last_in_snoc : (p : Str) (xs : List Str) → elem p (xs ++ p ∷ []) ≡ true
last_in_snoc p xs = ground (arith, elem_snoc p p xs, str_eq_refl p)

snoc_cases :
    (d p : Str) (xs : List Str) → elem d (xs ++ p ∷ []) ≡ true → (elem d xs ≡ true) ⊎ (d ≡ p)
snoc_cases d p xs h = ground (arith, elem_snoc d p xs, str_eq_iff d p)

-- How many of the paths that there are have not been reached.
missing : List Str → List Str → ℕ
missing [] out = 0
missing (u ∷ us) out = (if elem u out then 0 else 1) + missing us out

missing-length : (us out : List Str) → missing us out ≤ length us
unfolding missing
missing-length [] out = omega arith
missing-length (u ∷ us) out = ground (arith, missing-length us out)

missing-snoc : (us out : List Str) (p : Str) → missing us (out ++ p ∷ []) ≤ missing us out
unfolding missing
missing-snoc [] out p = omega arith
missing-snoc (u ∷ us) out p = ground (arith, elem_snoc u p out, missing-snoc us out p)

missing_new :
    (us out : List Str) (p : Str)
    → elem p us ≡ true
    → elem p out ≡ false
    → missing us (out ++ p ∷ []) < missing us out
unfolding missing elem
missing_new [] out p h new = absurd (ground arith)
missing_new (u ∷ us) out p h new = ground (
  arith,
  str_eq_iff p u,
  str_eq_refl p,
  elem_snoc u p out,
  elem_snoc p p out,
  missing-snoc us out p,
  missing_new us out p,
)

-- What visiting the successors of a path does to the set and the queue.
record Visited (us ps out queue out' queue' : List Str) : Type 0 where
  grows : AllIn out out'
  queued : AllIn queue queue'
  all : AllIn ps out'
  fresh : (p : Str) → elem p out' ≡ true → (elem p out ≡ true) ⊎ (elem p queue' ≡ true)
  only : (x : List Str) → AllIn ps x → AllIn out x → AllIn out' x
  within : AllIn queue out → AllIn queue' out'
  fewer : length queue' + missing us out' ≤ length queue + missing us out

visit_all-Visited :
    (us ps out queue : List Str)
    → AllIn ps us
    → Visited us ps out queue (visit_all ps out queue).0 (visit_all ps out queue).1
unfolding visit_all
visit_all-Visited us [] out queue h = record {
  grows = λ d k. k;
  queued = λ d k. k;
  all = λ d k. absurd (none_in d k);
  fresh = λ p k. inl k;
  only = λ x a b. b;
  within = λ h. h;
  fewer = omega arith;
}
visit_all-Visited us (p ∷ ps) out queue h =
    either (elem p out) refl (visit_all-Visited us ps out queue rest_in)
      (visit_all-Visited us ps (out ++ p ∷ []) (queue ++ p ∷ []) rest_in)
  where
    rest_in : AllIn ps us
    rest_in d k = h d (elem_there d p ps k)

    either :
        (b : Bool)
        → elem p out ≡ b
        → Visited us ps out queue (visit_all ps out queue).0 (visit_all ps out queue).1
        → Visited us ps
            (out ++ p ∷ [])
            (queue ++ p ∷ [])
            (visit_all ps (out ++ p ∷ []) (queue ++ p ∷ [])).0
            (visit_all ps (out ++ p ∷ []) (queue ++ p ∷ [])).1
        → (let r =
              if b
              then visit_all ps out queue
              else visit_all ps (out ++ p ∷ []) (queue ++ p ∷ []) in
            Visited us (p ∷ ps) out queue r.0 r.1)
    either true known old new = record {
      grows = old.grows;
      queued = old.queued;
      all = λ d k. elim (elem_cases d p ps k) [
        | inl same ↦ old.grows d (rw same known)
        | inr there ↦ old.all d there
      ];
      fresh = old.fresh;
      only = λ x a b. old.only x (λ d k. a d (elem_there d p ps k)) b;
      within = old.within;
      fewer = old.fewer;
    }
    either false unknown old new = record {
      grows = λ d k. new.grows d (in_snoc d p out k);
      queued = λ d k. new.queued d (in_snoc d p queue k);
      all = λ d k. elim (elem_cases d p ps k) [
        | inl same ↦ new.grows d (rw same (last_in_snoc p out))
        | inr there ↦ new.all d there
      ];
      fresh = λ d k. elim (new.fresh d k) [
        | inr later ↦ inr later
        | inl here ↦ elim (snoc_cases d p out here) [
          | inl before ↦ inl before
          | inr same ↦ inr (new.queued d (rw same (last_in_snoc p queue)))
        ]
      ];
      only = λ x a b.
          new.only x (λ d k. a d (elem_there d p ps k))
            λ d k. elim (snoc_cases d p out k) [
              | inl before ↦ b d before
              | inr same ↦ a d (rw same (elem_here p ps))
            ];
      within = λ inside. new.within λ d k. elim (snoc_cases d p queue k) [
        | inl before ↦ in_snoc d p out (inside d before)
        | inr same ↦ rw same (last_in_snoc p out)
      ];
      fewer = omega (
        arith,
        new.fewer,
        missing_new us out p (h p (elem_here p ps)) unknown,
        length-append queue (p ∷ []),
      );
    }

module _ (successors : Str → List Str) where
  -- Each successor of a path of the set is in it.
  abbrev pub IsClosed : List Str → Type 0
  IsClosed x = (p : Str) → elem p x ≡ true → AllIn (successors p) x

  -- The least closed set over `seed`.
  abbrev pub IsClosureOf : List Str → List Str → Type 0
  IsClosureOf seed x =
      AllIn seed x × IsClosed x × ((y : List Str) → AllIn seed y → IsClosed y → AllIn x y)

-- The loop ends with an empty queue, and what it returns is the closure.
abbrev pub ClosesTo : (Str → List Str) → List Str → Option (List Str) → Type 0
ClosesTo successors seed ended = (x : List Str) × (ended ≡ some x) × IsClosureOf successors seed x

module _ (tidy : List Str → List Str)
    (tidy_elem : (a : Str) (xs : List Str) → elem a (tidy xs) ≡ elem a xs)
    (tidy_length : (xs : List Str) → length (tidy xs) ≡ length xs) (successors : Str → List Str)
    (us : List Str) (inside : (p : Str) → AllIn (successors p) us) where
  -- A path of the set waits in the queue, or its successors are in the set.
  abbrev IsPending : List Str → List Str → Type 0
  IsPending out queue =
      (p : Str) → elem p out ≡ true → (elem p queue ≡ true) ⊎ AllIn (successors p) out

  emptied : (out : List Str) → IsPending out [] → IsClosureOf successors out out
  emptied out pending = (
    (λ d k. k),
    (λ p k. elim (pending p k) [ inl waits ↦ absurd (none_in p waits) | inr done ↦ done ]),
    λ y over closed. over,
  )

  close-IsClosureOf :
      (n : ℕ) (out queue : List Str)
      → IsPending out queue
      → AllIn queue out
      → length queue + missing us out ≤ n
      → ClosesTo successors out (close tidy successors n out queue)
  unfolding close
  close-IsClosureOf zero out [] pending within enough = (out, refl, emptied out pending)
  close-IsClosureOf zero out (cur ∷ queue) pending within enough = absurd (omega arith)
  close-IsClosureOf (suc n) out [] pending within enough = (out, refl, emptied out pending)
  close-IsClosureOf (suc n) out (cur ∷ queue) pending within enough =
      let (x, ends, (over, closed, least)) =
        close-IsClosureOf n next.0 (tidy next.1) still
          (λ d k.
            step.within (λ e l. within e (elem_there e cur queue l)) d
              (sym (tidy_elem d next.1) ∙ k))
          fuel in
      (
        x,
        ends,
        (
          (λ d k. over d (step.grows d k)),
          closed,
          λ y seed_in y_closed.
              least y
                (step.only y (y_closed cur (seed_in cur (within cur (elem_here cur queue))))
                  seed_in)
                y_closed,
        ),
      )
    where
      next : List Str × List Str
      next = visit_all (successors cur) out queue

      step : Visited us (successors cur) out queue next.0 next.1
      step = visit_all-Visited us (successors cur) out queue (inside cur)

      fuel : length (tidy next.1) + missing us next.0 ≤ n
      fuel = omega (arith, step.fewer, enough, tidy_length next.1)

      still : IsPending next.0 (tidy next.1)
      still p k = elim (step.fresh p k) [
        | inr later ↦ inl (tidy_elem p next.1 ∙ later)
        | inl before ↦ elim (pending p before) [
          | inr done ↦ inr λ d l. step.grows d (done d l)
          | inl waits ↦ elim (elem_cases p cur queue waits) [
            | inl same ↦ inr (subst (λ q. AllIn (successors q) next.0) (sym same) step.all)
            | inr there ↦ inl (tidy_elem p next.1 ∙ step.queued p there)
          ]
        ]
      ]

  -- With a round for each path of the seed and each that there is, the loop ends by itself.
  pub close-seed :
      (n : ℕ) (seed : List Str)
      → length seed + length us ≤ n
      → ClosesTo successors seed (close tidy successors n seed (tidy seed))
  close-seed n seed enough =
      close-IsClosureOf n seed (tidy seed) (λ p k. inl (tidy_elem p seed ∙ k))
        (λ d k. sym (tidy_elem d seed) ∙ k)
        (omega (arith, tidy_length seed, missing-length us seed))

-- For a graph that BuildGraph made, the loop of dependencyClosure ends with an empty queue within
-- a round for each path of the seed and each member and one more, and its result is the least set
-- that holds the seed and with each path the members its manifest depends on.
pub dependency_closure-IsClosureOf :
    (root : Str) (members : List Str) (load : Str → Option Document) (g : WorkspaceGraph)
    (seed : List Str)
    → build_graph root members load ≡ ok g
    → ClosesTo (workspace_deps_of g) seed (dependency_closure g seed)
unfolding dependency_closure HasTargets
dependency_closure-IsClosureOf root members load g seed built =
    close-seed sort_strings elem-sort length-sort_strings (workspace_deps_of g) (keys g.by_path)
      (build_graph-HasTargets root members load g built) (closure_rounds g seed) seed
      (omega (arith, length-keys g.by_path))

append_cases :
    (d : Str) (xs ys : List Str)
    → elem d (xs ++ ys) ≡ true
    → (elem d xs ≡ true) ⊎ (elem d ys ≡ true)
append_cases d xs ys h = ground (arith, elem-append d xs ys)

depend_on_only : (d p path : Str) (ds : List Str) → elem d (depend_on p path ds) ≡ true → d ≡ path
unfolding depend_on elem
depend_on_only d p path [] h = absurd (ground arith)
depend_on_only d p path (e ∷ ds) h = ground (arith, str_eq_iff d path, depend_on_only d p path ds)

dependents_of-keys :
    (g : WorkspaceGraph) (p : Str) (paths : List Str) → AllIn (dependents_of g p paths) paths
unfolding dependents_of
dependents_of-keys g p [] d h = h
dependents_of-keys g p (path ∷ paths) d h =
    elim (append_cases d (depend_on p path (workspace_deps_of g path)) (dependents_of g p paths)
      h) [
        | inl here ↦
            rw (depend_on_only d p path (workspace_deps_of g path) here) (elem_here path paths)
        | inr there ↦ elem_there d path paths (dependents_of-keys g p paths d there)
      ]

-- For every graph, the loop of dependentClosure ends with an empty queue within a round for each
-- path of the seed and each member and one more, and its result is the least set that holds the
-- seed and with each path the members that depend on it.
pub dependent_closure-IsClosureOf :
    (g : WorkspaceGraph) (seed : List Str)
    → ClosesTo (λ (p : Str). dependents_of g p (keys g.by_path)) seed (dependent_closure g seed)
unfolding dependent_closure
dependent_closure-IsClosureOf g seed =
    close-seed sort_strings elem-sort length-sort_strings (λ p. dependents_of g p (keys g.by_path))
      (keys g.by_path) (λ p. dependents_of-keys g p (keys g.by_path)) (closure_rounds g seed) seed
      (omega (arith, length-keys g.by_path))
