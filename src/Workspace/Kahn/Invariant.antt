-- ===== src/Workspace/Kahn/Invariant.antt =====
-- The invariant of the loop, over any set of paths with any dependencies among them.
use m.Base.{
  ℕ, ◌+◌, ◌-◌, ◌≤◌, ◌<◌, ◌≡◌, ap, ◌∙◌, List, [], ◌∷◌, ◌++◌, Str, str_eq, str_eq_iff, str_eq_refl,
  count, count-append, find_or, length, sum_by, sum_by-append, sum_by-le, sum_by-count, ltb,
  if◌then◌else◌, arith, Bool-cases, inl, inr, ◌⊎◌, append-nil, append_assoc,
}
use m.Base.Int.{pos}
use m.Base.Sort.{sort_strings, count-sort_strings}
use m.Workspace.Kahn.{Degrees, relax}
use m.Workspace.Kahn.Relax.{queued, relax_lem, relax-outside}

-- Every path of `xs` stands behind all that it depends on, in `seen` or before it in `xs`.
abbrev pub Ordered : (Str → List Str) → List Str → List Str → Type 0
Ordered deps seen [] = Unit
Ordered deps seen (v ∷ vs) =
    ((u : Str) → 0 < count u (deps v) → 0 < count u seen) × Ordered deps (seen ++ v ∷ []) vs

Ordered-snoc :
    (deps : Str → List Str) (seen xs : List Str) (v : Str)
    → Ordered deps seen xs
    → ((u : Str) → 0 < count u (deps v) → 0 < count u (seen ++ xs))
    → Ordered deps seen (xs ++ v ∷ [])
Ordered-snoc deps seen [] v o h = (λ u p. rw append-nil at (h u p), tt)
Ordered-snoc deps seen (x ∷ xs) v o h =
    (o.0, Ordered-snoc deps (seen ++ x ∷ []) xs v o.1 (λ u p. rw append_assoc (h u p)))

-- `members` are the paths, `deps` what each depends on, and `edges` the same the other way round.
pub record IsNetwork (members : List Str) (deps : Str → List Str) (edges : List (Str × List Str))
    : Type 0 where
  pub once : (a : Str) → count a members ≤ 1
  pub inward : (u v : Str) → 0 < count v members → count v (find_or [] u edges) ≡ count u (deps v)
  pub outward : (u v : Str) → count v members ≡ 0 → count v (find_or [] u edges) ≡ 0
  pub closed : (u v : Str) → 0 < count v members → 0 < count u (deps v) → 0 < count u members

module _ {members : List Str} {deps : Str → List Str} {edges : List (Str × List Str)}
    (net : IsNetwork members deps edges) where
  abbrev pub paid : Str → List Str → ℕ
  paid v out = sum_by (λ u. count u (deps v)) out

  paid-members : (v : Str) → 0 < count v members → paid v members ≡ length (deps v)
  paid-members v h =
      sum_by-count (deps v) members (λ a p. omega (arith, net.once a, net.closed a v h p))

  paid-le :
      (v : Str) (xs : List Str)
      → 0 < count v members
      → ((a : Str) → count a xs ≤ count a members)
      → paid v xs ≤ length (deps v)
  paid-le v xs h le =
      omega (arith, sum_by-le (λ u. count u (deps v)) xs members (λ a _. le a), paid-members v h)

  -- Once all that `v` depends on has left the queue, all of it is paid.
  pub paid-full :
      (v : Str) (out : List Str)
      → 0 < count v members
      → ((a : Str) → count a out ≤ count a members)
      → ((u : Str) → 0 < count u (deps v) → 0 < count u out)
      → paid v out ≡ length (deps v)
  paid-full v out h few all = omega (
    arith,
    paid-le v out h few,
    paid-members v h,
    sum_by-le (λ u. count u (deps v)) members out (λ a p. omega (arith, net.once a, all a p)),
  )

  -- `out` has left the queue; a path is in `out` or in the queue once all it depends on is in `out`.
  pub record Inv (deg : Degrees) (queue out : List Str) : Type 0 where
    pub few : (a : Str) → count a out + count a queue ≤ count a members
    pub degrees :
        (v : Str) → 0 < count v members → find_or (pos 0) v deg ≡ pos (length (deps v) - paid v out)
    pub ready : (v : Str) → 0 < count v out + count v queue → paid v out ≡ length (deps v)
    pub reached :
        (v : Str)
        → 0 < count v members
        → paid v out ≡ length (deps v)
        → 0 < count v out + count v queue
    pub ordered : Ordered deps [] out

  module _ {deg : Degrees} {cur : Str} {queue out : List Str}
      (inv : Inv deg (cur ∷ queue) out) where
    out' : List Str
    out' = out ++ cur ∷ []

    abbrev pub after : Degrees × List Str
    after = relax (find_or [] cur edges) deg queue

    -- how `cur` counts
    is_cur : Str → ℕ
    is_cur a = if str_eq a cur then 1 else 0

    few_before : (a : Str) → count a out + is_cur a + count a queue ≤ count a members
    unfolding is_cur count
    few_before a = omega (arith, inv.few a)

    count-out' : (a : Str) → count a out' ≡ count a out + is_cur a
    unfolding is_cur count out'
    count-out' a = omega (arith, count-append a out (cur ∷ []))

    paid-out' : (v : Str) → paid v out' ≡ paid v out + count cur (deps v)
    unfolding out' sum_by
    paid-out' v = omega (arith, sum_by-append (λ u. count u (deps v)) out (cur ∷ []))

    paid_bound : (v : Str) → 0 < count v members → paid v out + count cur (deps v) ≤ length (deps v)
    paid_bound v h =
        omega
          (arith, paid-out' v, paid-le v out' h (λ a. omega (arith, few_before a, count-out' a)))

    ready_before :
        (v : Str) → 0 < count v out + is_cur v + count v queue → paid v out ≡ length (deps v)
    unfolding is_cur count
    ready_before v h = inv.ready v (omega arith)

    reached_before :
        (v : Str)
        → 0 < count v members
        → paid v out ≡ length (deps v)
        → 0 < count v out + is_cur v + count v queue
    unfolding is_cur count
    reached_before v h e = omega (arith, inv.reached v h e)

    -- a path of the set after the round: its degree, and how often it is queued
    relaxed :
        (v : Str)
        → 0 < count v members
        → (find_or (pos 0) v after.0 ≡ pos (length (deps v) - paid v out - count cur (deps v)))
          × (count v after.1
              ≡ count v queue + queued (count cur (deps v)) (length (deps v) - paid v out))
    relaxed v h =
        let edges_to = net.inward cur v h in
        let r =
          relax_lem v (find_or [] cur edges) deg queue (length (deps v) - paid v out)
            (inv.degrees v h) (omega (arith, paid_bound v h)) in
        (
          r.0 ∙ ap pos (omega arith),
          r.1 ∙ ap (λ (c : ℕ). count v queue + queued c (length (deps v) - paid v out)) edges_to,
        )

    not_queued : (v : Str) → count v members ≡ 0 → count v after.1 ≡ 0
    not_queued v h = omega (
      arith,
      relax-outside v (find_or [] cur edges) deg queue (net.outward cur v h),
      few_before v,
    )

    member-cases : (v : Str) → (0 < count v members) ⊎ (count v members ≡ 0)
    member-cases v = omega arith

    step-few : (a : Str) → count a out' + count a after.1 ≤ count a members
    unfolding queued
    step-few a = elim (member-cases a) [
      | inl h ↦ ground (arith, relaxed a h, count-out' a, few_before a, ready_before a, net.once a)
      | inr none ↦ omega (arith, not_queued a none, count-out' a, few_before a)
    ]

    step-ready : (v : Str) → 0 < count v out' + count v after.1 → paid v out' ≡ length (deps v)
    unfolding queued
    step-ready v p = elim (member-cases v) [
      | inl h ↦
          ground (arith, relaxed v h, count-out' v, paid-out' v, paid_bound v h, ready_before v)
      | inr none ↦ absurd (omega (arith, step-few v))
    ]

    step-reached :
        (v : Str)
        → 0 < count v members
        → paid v out' ≡ length (deps v)
        → 0 < count v out' + count v after.1
    unfolding queued
    step-reached v h e =
        ground (arith, relaxed v h, count-out' v, paid-out' v, paid_bound v h, reached_before v h)

    count_self : is_cur cur ≡ 1
    unfolding is_cur
    count_self = ground (arith, str_eq_refl cur)

    -- all that `cur` depends on has left the queue
    before_cur : (u : Str) → 0 < count u (deps cur) → 0 < count u out
    unfolding sum_by count
    before_cur u p = elim (Bool-cases (ltb 0 (count u out))) [
      | inl there ↦ ground arith
      | inr missing ↦
          let h : 0 < count cur members = omega (arith, few_before cur, count_self) in
          let full : paid cur out ≡ length (deps cur) =
            ready_before cur (omega (arith, count_self)) in
          let more : paid cur (u ∷ out) ≤ length (deps cur) =
            paid-le cur (u ∷ out) h
              (λ a. ground (arith, few_before a, str_eq_iff a u, net.closed u cur h p)) in
          absurd (omega arith)
    ]

    -- The round of the loop keeps the invariant.
    pub step-Inv : Inv after.0 (sort_strings after.1) (out ++ cur ∷ [])
    unfolding out'
    step-Inv = record {
      few = λ a. omega (arith, step-few a, count-sort_strings a after.1);
      degrees = λ v h. (relaxed v h).0 ∙ ap pos (omega (arith, paid-out' v));
      ready = λ v p. step-ready v (omega (arith, count-sort_strings v after.1));
      reached = λ v h e. omega (arith, step-reached v h e, count-sort_strings v after.1);
      ordered = Ordered-snoc deps [] out cur inv.ordered before_cur;
    }
