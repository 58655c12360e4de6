-- ===== src/Workspace/Kahn/Total.antt =====
-- internal/workspace/graph.go: how the loop ends, and the fuel it takes.
use m.Base.{
  ℕ, zero, suc, ◌+◌, ◌≤◌, ◌<◌, ◌≡◌, refl, true, some, List, [], ◌∷◌, ◌++◌, Str, str_eq, str_eq→eq,
  count, Bool-cases, inl, inr, ltb, ltb→lt, count-append, find_or, length, length-le_of_count,
  length-append, arith,
}
use m.Base.Sort.{sort_strings}
use m.Workspace.Kahn.{Degrees, relax, drain}
use m.Workspace.Kahn.Invariant.{IsNetwork, Inv, step-Inv, Ordered, paid-full}

-- `out = append(out, cur)`
abbrev append_path : List Str → Str → List Str
append_path out cur = out ++ cur ∷ []

module _ {members : List Str} {deps : Str → List Str} {edges : List (Str × List Str)}
    (net : IsNetwork members deps edges) where
  length-Inv :
      {deg : Degrees} {queue out : List Str}
      → Inv net deg queue out
      → length out + length queue ≤ length members
  length-Inv {queue = queue} {out = out} inv = omega (
    arith,
    length-append out queue,
    length-le_of_count (out ++ queue) members
        (λ a. omega (arith, count-append a out queue, inv.few a)),
  )

  -- What holds of the paths in the order in which they left the queue.
  pub record Finished (out : List Str) : Type 0 where
    pub few : (a : Str) → count a out ≤ count a members
    pub reached :
        (v : Str)
        → 0 < count v members
        → ((u : Str) → 0 < count u (deps v) → 0 < count u out)
        → 0 < count v out
    pub ordered : Ordered deps [] out

  drain-Inv :
      (n : ℕ) (deg : Degrees) (queue out : List Str)
      → Inv net deg queue out
      → length members < n + length out
      → (r : List Str) × (drain append_path edges n deg queue out ≡ some r)
        × (d : Degrees) × Inv net d [] r
  unfolding drain
  drain-Inv zero deg queue out inv h = absurd (omega (arith, length-Inv inv))
  drain-Inv (suc n) deg [] out inv h = (out, refl, deg, inv)
  drain-Inv (suc n) deg (cur ∷ queue) out inv h =
      let next = relax (find_or [] cur edges) deg queue in
      drain-Inv n next.0 (sort_strings next.1) (out ++ cur ∷ []) (step-Inv net inv)
        (omega (arith, length-append out (cur ∷ [])))

  Inv-Finished : {deg : Degrees} {out : List Str} → Inv net deg [] out → Finished out
  unfolding count
  Inv-Finished {out = out} inv = record {
    few = few;
    reached = λ v h all. omega (arith, inv.reached v h (paid-full net v out h few all));
    ordered = inv.ordered;
  }
    where
      few : (a : Str) → count a out ≤ count a members
      few a = omega (arith, inv.few a)

  pub drain-Finished :
      (n : ℕ) (deg : Degrees) (queue : List Str)
      → Inv net deg queue []
      → length members < n
      → (r : List Str) × (drain append_path edges n deg queue [] ≡ some r) × Finished r
  drain-Finished n deg queue inv h =
      let (r, e, d, last) = drain-Inv n deg queue [] inv (omega arith) in (r, e, Inv-Finished last)

  -- If the paths can be ordered at all, all of them have left the queue.
  module _ {out : List Str} (f : Finished out) where
    complete_from :
        (seen xs : List Str)
        → ((u : Str) → 0 < count u seen → 0 < count u members → 0 < count u out)
        → Ordered deps seen xs
        → (v : Str) → 0 < count v xs
        → 0 < count v members
        → 0 < count v out
    unfolding count
    complete_from seen [] h o v p k = absurd (omega arith)
    complete_from seen (x ∷ xs) h o v p k = elim (Bool-cases (str_eq v x)) [
      | inl here ↦ same v here k
      | inr later ↦ complete_from (seen ++ x ∷ []) xs more o.1 v (ground arith) k
    ]
      where
        same : (u : Str) → str_eq u x ≡ true → 0 < count u members → 0 < count u out
        same u e k' = rw (str_eq→eq u x e) (
            let kx : 0 < count x members = rw (str_eq→eq u x e) at k' in
            f.reached x kx (λ w p'. h w (o.0 w p') (net.closed w x kx p')))

        more : (u : Str) → 0 < count u (seen ++ x ∷ []) → 0 < count u members → 0 < count u out
        more u p' k' = elim (Bool-cases (str_eq u x)) [
          | inl e ↦ same u e k'
          | inr ne ↦ h u (ground (arith, count-append u seen (x ∷ []))) k'
        ]

    pub complete :
        (order : List Str)
        → Ordered deps [] order
        → ((v : Str) → 0 < count v members → 0 < count v order)
        → length out ≡ length members
    unfolding count
    complete order o all =
        let there = λ (v : Str) (k : 0 < count v members).
          complete_from [] order (λ u p k'. absurd (omega arith)) o v (all v k) k in
        omega (
          arith,
          length-le_of_count out members f.few,
          length-le_of_count members out (λ a. covers a there),
        )
      where
        covers :
            (a : Str)
            → ((v : Str) → 0 < count v members → 0 < count v out)
            → count a members ≤ count a out
        covers a there = elim (Bool-cases (ltb 0 (count a members))) [
          | inl k ↦ omega (arith, net.once a, there a (ltb→lt 0 (count a members) k))
          | inr absent ↦ ground arith
        ]
