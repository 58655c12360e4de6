-- ===== src/Resolver/Dedupe/Dropped.antt =====
-- internal/resolver/dedupe.go: what consolidating answers, and what becomes of a package that is
-- dropped with edges of its own.
use m.Base.{◌≡◌, refl, subst, Option, none, some, List, [], ◌∷◌, Str}
use m.Apperr.{Result, ok, err, ◌>>=◌}
use m.Deps.{Graph}
use m.Deps.Validate.Frozen.{IsFrozen}
use m.Deps.Builder.{build_deps-IsFrozen}
use m.Resolver.{External}
use m.Resolver.Dedupe.{
  pick_consolidation_version, remapped_parts, remap_package_name_version, consolidate_name,
  consolidate_names, consolidate_duplicate_names, duplicate_names_in_graph,
}

same_graph : (g h : Graph) → ◌≡◌ {A = Result Graph} (ok g) (ok h) → g ≡ h
same_graph g h e = cc

consolidate_name-IsFrozen :
    (g h : Graph) (name : Str) (v : Option Str)
    → IsFrozen g
    → consolidate_name g name v ≡ ok h
    → IsFrozen h
unfolding consolidate_name remap_package_name_version
consolidate_name-IsFrozen g h name none f e = subst IsFrozen (same_graph g h e) f
consolidate_name-IsFrozen g h name (some v) f e = build_deps-IsFrozen (remapped_parts g name v) h e

consolidate_names-IsFrozen :
    (x : External) (names : List Str) (g h : Graph)
    → IsFrozen g
    → consolidate_names x names g ≡ ok h
    → IsFrozen h
unfolding consolidate_names
consolidate_names-IsFrozen x [] g h f e = subst IsFrozen (same_graph g h e) f
consolidate_names-IsFrozen x (name ∷ names) g h f e =
    after (consolidate_name g name (pick_consolidation_version x g name)) refl e
      (λ k. consolidate_names-IsFrozen x names k h)
  where
    after :
        (r : Result Graph)
        → consolidate_name g name (pick_consolidation_version x g name) ≡ r
        → (r >>= λ k. consolidate_names x names k) ≡ ok h
        → ((k : Graph) → IsFrozen k → consolidate_names x names k ≡ ok h → IsFrozen h)
        → IsFrozen h
    after (err p) made e next = absurd (cc)
    after (ok k) made e next =
        next k (consolidate_name-IsFrozen g k name (pick_consolidation_version x g name) f made) e

-- A frozen graph stays frozen when its duplicates are consolidated.
pub consolidate_duplicate_names-IsFrozen :
    (x : External) (g : Graph) (prior : Option Graph) (h : Graph)
    → IsFrozen g
    → consolidate_duplicate_names x g prior ≡ ok h
    → IsFrozen h
unfolding consolidate_duplicate_names
consolidate_duplicate_names-IsFrozen x g none h f e = subst IsFrozen (same_graph g h e) f
consolidate_duplicate_names-IsFrozen x g (some prior) h f e =
    consolidate_names-IsFrozen x (duplicate_names_in_graph prior) g h f e
