-- ===== src/Scheduler/Pick.antt =====
-- internal/scheduler/scheduler.go, `pick`: weighted sampling among the eligible nodes.
use distributed_storage_plat.Common.{
  ℕ, ◌≡◌, refl, subst, Bool, true, false, Bool-cases, inl, inr, Option, none, some, List, [], ◌∷◌,
  if◌then◌else◌, length, map, All, All-map,
}
use distributed_storage_plat.Common.Int.{pos}
use mathlib.Core.List.{Memᴰ}
use mathlib.Core.Option.{some-injective}
use distributed_storage_plat.Scheduler.Nodes.{Node, ChunkUse, eligible}
use distributed_storage_plat.Scheduler.Score.{FloatOps, node_score}

module _ (ops : FloatOps) (now : ℕ) where
  open ops use {F, ratio, of_int, add_f, mul_f, div_f, leb_f}

  -- The candidates with their weights.
  unfoldable pub candidates : List (Node F) → ChunkUse → List (Node F × F)
  candidates [] u = []
  candidates (n ∷ ns) u =
      let rest = candidates ns u in if eligible now n u then (n, node_score ops n) ∷ rest else rest

  unfoldable pub sum_weights : F → List (Node F × F) → F
  sum_weights acc [] = acc
  sum_weights acc ((n, w) ∷ cs) = sum_weights (add_f acc w) cs

  -- The loop that walks the weights up to `x`; the last candidate is the fallback.
  unfoldable pub walk : F → F → Node F × F → List (Node F × F) → Node F
  walk x acc (n, w) [] = n
  walk x acc (n, w) (c ∷ cs) =
      let rest = walk x (add_f acc w) c cs in if leb_f x (add_f acc w) then n else rest

  unit_weight : Node F × F → Node F × F
  unit_weight (n, w) = (n, ratio 1 1)

  -- The sampling itself; `r` is the random number below 2 ^ 53.
  unfoldable pub sample : ℕ → Node F × F → List (Node F × F) → Node F
  unfolding unit_weight
  sample r c cs =
      let sum = sum_weights (ratio 0 1) (c ∷ cs) in
      let flat = leb_f sum (ratio 0 1) in
      let total = if flat then of_int (pos (length (c ∷ cs))) else sum in
      let x = mul_f (div_f (of_int (pos r)) (ratio 9007199254740992 1)) total in
      if flat
      then walk x (ratio 0 1) (unit_weight c) (map unit_weight cs)
      else walk x (ratio 0 1) c cs

  pick_from : Option ℕ → List (Node F × F) → Option (Node F)
  pick_from r [] = none
  pick_from none (c ∷ cs) = none
  pick_from (some r) (c ∷ cs) = some (sample r c cs)

  -- `none` is an error: no candidate, or no random number.
  unfoldable pub pick : Option ℕ → List (Node F) → ChunkUse → Option (Node F)
  unfolding pick_from
  pick r nodes u = pick_from r (candidates nodes u)

  -- What `pick` may return: an eligible one of the nodes.
  abbrev pub IsCandidate : List (Node F) → ChunkUse → Node F → Type 0
  IsCandidate nodes u n = (eligible now n u ≡ true) × Memᴰ n nodes

  IsCandidates : List (Node F) → ChunkUse → List (Node F × F) → Type 0
  IsCandidates nodes u = All (λ (c : Node F × F). IsCandidate nodes u c.0)

  kept :
      (n : Node F) (ns : List (Node F)) (u : ChunkUse) (rest : List (Node F × F))
      → IsCandidates ns u rest
      → (b : Bool) → eligible now n u ≡ b
      → IsCandidates (n ∷ ns) u (if b then (n, node_score ops n) ∷ rest else rest)
  unfolding IsCandidates
  kept n ns u rest h true e = (
    (e, Memᴰ.head refl),
    All-map (λ c. IsCandidate ns u c.0) (λ c. IsCandidate (n ∷ ns) u c.0)
        (λ c k. (k.0, Memᴰ.tail k.1)) rest h,
  )
  kept n ns u rest h false e =
      All-map (λ c. IsCandidate ns u c.0) (λ c. IsCandidate (n ∷ ns) u c.0)
        (λ c k. (k.0, Memᴰ.tail k.1)) rest h

  candidates-IsCandidates :
      (nodes : List (Node F)) (u : ChunkUse) → IsCandidates nodes u (candidates nodes u)
  unfolding candidates IsCandidates
  candidates-IsCandidates [] u = tt
  candidates-IsCandidates (n ∷ ns) u =
      kept n ns u (candidates ns u) (candidates-IsCandidates ns u) (eligible now n u) refl

  walk-All :
      (P : Node F → Type 0) (x acc : F) (c : Node F × F) (cs : List (Node F × F))
      → P c.0
      → All (λ (d : Node F × F). P d.0) cs
      → P (walk x acc c cs)
  unfolding walk
  walk-All P x acc (n, w) [] p h = p
  walk-All P x acc (n, w) (c ∷ cs) p h = elim (Bool-cases (leb_f x (add_f acc w))) [
    | inl stop ↦ rw stop p
    | inr on ↦ rw on (walk-All P x (add_f acc w) c cs h.0 h.1)
  ]

  All-unit :
      (P : Node F → Type 0) (cs : List (Node F × F))
      → All (λ (d : Node F × F). P d.0) cs
      → All (λ (d : Node F × F). P d.0) (map unit_weight cs)
  unfolding unit_weight
  All-unit P [] h = tt
  All-unit P (c ∷ cs) h = (h.0, All-unit P cs h.1)

  sample-All :
      (P : Node F → Type 0) (r : ℕ) (c : Node F × F) (cs : List (Node F × F))
      → P c.0
      → All (λ (d : Node F × F). P d.0) cs
      → P (sample r c cs)
  unfolding sample
  sample-All P r c cs p h =
      elim (Bool-cases (leb_f (sum_weights (ratio 0 1) (c ∷ cs)) (ratio 0 1))) [
        | inl flat ↦ rw flat (walk-All P _ _ (unit_weight c) _ p (All-unit P cs h))
        | inr weighted ↦ rw weighted (walk-All P _ _ c cs p h)
      ]

  -- A picked node is an eligible one of the nodes.
  pub pick-IsCandidate :
      (r : Option ℕ) (nodes : List (Node F)) (u : ChunkUse) (n : Node F)
      → pick r nodes u ≡ some n
      → IsCandidate nodes u n
  unfolding pick IsCandidates
  pick-IsCandidate r nodes u n h = go r (candidates nodes u) (candidates-IsCandidates nodes u) h
    where
      go :
          (r : Option ℕ) (cs : List (Node F × F))
          → IsCandidates nodes u cs
          → pick_from r cs ≡ some n
          → IsCandidate nodes u n
      go r [] k e = absurd (cc)
      go none (c ∷ cs) k e = absurd (cc)
      go (some r) (c ∷ cs) k e =
          subst (IsCandidate nodes u) (some-injective _ _ e)
            (sample-All (IsCandidate nodes u) r c cs k.0 k.1)

  -- With a random number at hand, no node is picked only if none is eligible.
  pub pick-none :
      (r : ℕ) (nodes : List (Node F)) (u : ChunkUse)
      → pick (some r) nodes u ≡ none
      → All (λ (n : Node F). eligible now n u ≡ false) nodes
  unfolding pick candidates
  pick-none r [] u h = tt
  pick-none r (n ∷ ns) u h = elim (Bool-cases (eligible now n u)) [
    | inl yes_it ↦ absurd (some_ne_none (rw yes_it at h))
    | inr no_it ↦ (no_it, pick-none r ns u (rw no_it at h))
  ]
    where
      some_ne_none : {x : Node F} → some x ≡ none → ⊥
      some_ne_none e = cc
