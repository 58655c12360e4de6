-- ===== src/Workspace/Kahn.antt =====
-- internal/workspace/graph.go: the loop that `TopoOrder`, `TopoOrderFor` and `ValidateSelectedCycle`
-- share. They differ in what is done with a path when it leaves the queue: `visit`.
pub mod Relax
pub mod Invariant
pub mod Total
use m.Base.{
  ℕ, zero, suc, Bool, Option, none, some, List, [], ◌∷◌, ◌++◌, Str, find_or, put, if◌then◌else◌,
}
use m.Base.Int.{ℤ, pos, dec, is_zero}
use m.Base.Sort.{sort_strings}

abbrev pub Degrees : Type 0
Degrees = List (Str × ℤ)

-- `for _, next := range edges[cur]`: the degrees and the queue after it.
unfoldable pub relax : List Str → Degrees → List Str → Degrees × List Str
relax [] deg queue = (deg, queue)
relax (next ∷ rest) deg queue =
    let d = dec (find_or (pos 0) next deg) in
    relax rest (put next d deg) (if is_zero d then queue ++ next ∷ [] else queue)

-- `for len(queue) > 0`, with fuel; `none` means that the fuel ran out.
module _ {B : Type 0} (visit : B → Str → B) (edges : List (Str × List Str)) where
  unfoldable pub drain : ℕ → Degrees → List Str → B → Option B
  drain zero deg queue acc = none
  drain (suc n) deg [] acc = some acc
  drain (suc n) deg (cur ∷ queue) acc =
      let next = relax (find_or [] cur edges) deg queue in
      drain n next.0 (sort_strings next.1) (visit acc cur)

-- `for path, deg := range inDegree { if deg == 0 { ... } }`
unfoldable pub sources : Degrees → List Str
sources [] = []
sources ((p, d) ∷ m) = if is_zero d then p ∷ sources m else sources m
