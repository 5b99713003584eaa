-- ===== src/Scheduler/Spread.antt =====
-- internal/scheduler/scheduler.go, `Service.Place`: the caps hold of every chunk of a request.
use distributed_storage_plat.Common.{
  ℕ, suc, ◌≡◌, refl, sym, ap, subst, ◌∙◌, Bool, true, false, Bool-cases, inl, inr, Option, List, [],
  ◌∷◌, ◌++◌, arith, ◌==◌, if◌then◌else◌, All, Result, ok, err, ok-injective, err_ne_ok,
  Option-cases,
}
use distributed_storage_plat.Scheduler.Nodes.{Node, ChunkUse, new_chunk_use, add, eligible}
use distributed_storage_plat.Scheduler.Score.{FloatOps}
use distributed_storage_plat.Scheduler.Pick.{pick, pick-IsCandidate}
use distributed_storage_plat.Scheduler.Place.{
  Need, Reservation, PlaceError, Assignment, Occupant, Answers, State, update, occupy, assign,
  reservation, place_needs, prepare, place, continue_with, chunk_ids, live_nodes, start, start_with,
  occupants_of, run,
}
use distributed_storage_plat.Scheduler.Caps.{Caps, Tally, Tally-add, Caps-add, Tally-new}
use mathlib.Core.List.{append_assoc, append-nil}

module _ {F : Type 0} where
  -- The nodes of one chunk among the rows of node occupants.
  unfoldable pub occupant_nodes : ℕ → List (Occupant F) → List (Node F)
  occupant_nodes c [] = []
  occupant_nodes c (o ∷ os) =
      let rest = occupant_nodes c os in if c == o.chunk_id then o.node ∷ rest else rest

  -- The nodes that an answer gives to one chunk; `chunk_of` is the chunk of a fragment.
  unfoldable pub assigned : (ℕ → ℕ) → ℕ → List (Assignment F) → List (Node F)
  assigned chunk_of c [] = []
  assigned chunk_of c (a ∷ more) =
      let rest = assigned chunk_of c more in
      if c == chunk_of a.fragment_id then a.node ∷ rest else rest

  assigned-snoc :
      (chunk_of : ℕ → ℕ) (c : ℕ) (out : List (Assignment F)) (a : Assignment F)
      → assigned chunk_of c (out ++ a ∷ [])
        ≡ assigned chunk_of c out ++ assigned chunk_of c (a ∷ [])
  unfolding assigned
  assigned-snoc chunk_of c [] a = refl
  assigned-snoc chunk_of c (b ∷ out) a = elim (Bool-cases (c == chunk_of b.fragment_id)) [
    | inl same ↦ rw same (ap (λ l. b.node ∷ l) (assigned-snoc chunk_of c out a))
    | inr other ↦ rw other (assigned-snoc chunk_of c out a)
  ]

  -- The maps of every chunk count its nodes, and no chunk exceeds a cap.
  pub record IsSpread (used : ℕ → ChunkUse) (hs : ℕ → List (Node F)) : Type 0 where
    pub tally : (c : ℕ) → Tally (used c) (hs c)
    pub caps : (c : ℕ) → Caps (hs c)

  extra : ℕ → Node F → ℕ → List (Node F)
  extra c n j = if j == c then n ∷ [] else []

  Tally-extra :
      (used : ℕ → ChunkUse) (c : ℕ) (n : Node F) (j : ℕ) (hs : List (Node F))
      → Tally (used j) hs
      → (b : Bool) → (j == c) ≡ b
      → Tally (if b then add (used c) n else used j) (hs ++ (if b then n ∷ [] else []))
  Tally-extra used c n j hs t true e =
      let same : j ≡ c = ground arith in
      subst (λ (i : ℕ). Tally (add (used i) n) (hs ++ n ∷ [])) same (Tally-add (used j) hs n t)
  Tally-extra used c n j hs t false e = subst (Tally (used j)) (sym (append-nil hs)) t

  IsSpread-update :
      (now : ℕ) (used : ℕ → ChunkUse) (hs : ℕ → List (Node F)) (c : ℕ) (n : Node F)
      → IsSpread used hs
      → eligible now n (used c) ≡ true
      → IsSpread (update used c (add (used c) n)) (λ j. hs j ++ extra c n j)
  unfolding extra
  IsSpread-update now used hs c n h e = record {
    tally = λ j. Tally-extra used c n j (hs j) (h.tally j) (j == c) refl;
    caps = λ j. go j (j == c) refl;
  }
    where
      go : (j : ℕ) (b : Bool) → (j == c) ≡ b → Caps (hs j ++ (if b then n ∷ [] else []))
      go j true same =
          let same_chunk : c ≡ j = ground arith in
          subst (λ (i : ℕ). Caps (hs i ++ n ∷ [])) same_chunk
            (Caps-add now (used c) (hs c) n (h.tally c) (h.caps c) e)
      go j false other = subst Caps (sym (append-nil (hs j))) (h.caps j)

module _ (ops : FloatOps) (now : ℕ) where
  open ops use {F}

  Tally-occupy :
      (occ : List (Occupant F)) (used : ℕ → ChunkUse) (hs : ℕ → List (Node F)) (c : ℕ)
      → ((j : ℕ) → Tally (used j) (hs j))
      → Tally (occupy ops now occ used c) (hs c ++ occupant_nodes c occ)
  unfolding occupy occupant_nodes extra
  Tally-occupy [] used hs c t = subst (Tally (used c)) (sym (append-nil (hs c))) (t c)
  Tally-occupy (o ∷ os) used hs c t =
      subst (Tally (occupy ops now (o ∷ os) used c)) (together (c == o.chunk_id)) (
        Tally-occupy os (update used o.chunk_id (add (used o.chunk_id) o.node))
          (λ j. hs j ++ extra o.chunk_id o.node j) c
          (λ j. Tally-extra used o.chunk_id o.node j (hs j) (t j) (j == o.chunk_id) refl))
    where
      together :
          (b : Bool)
          → (hs c ++ (if b then o.node ∷ [] else [])) ++ occupant_nodes c os
            ≡ hs c ++ (if b then o.node ∷ occupant_nodes c os else occupant_nodes c os)
      together true = append_assoc (hs c) (o.node ∷ []) (occupant_nodes c os)
      together false = ap (λ l. l ++ occupant_nodes c os) (append-nil (hs c))

  -- The nodes that hold fragments of a chunk after the answer `out`.
  holders : (ℕ → ℕ) → List (Occupant F) → List (Assignment F) → ℕ → List (Node F)
  holders chunk_of occ out c = occupant_nodes c occ ++ assigned chunk_of c out

  holders-snoc :
      (chunk_of : ℕ → ℕ) (occ : List (Occupant F)) (out : List (Assignment F)) (a : Assignment F)
      (c : ℕ)
      → holders chunk_of occ out c ++ extra (chunk_of a.fragment_id) a.node c
        ≡ holders chunk_of occ (out ++ a ∷ []) c
  unfolding holders extra assigned
  holders-snoc chunk_of occ out a c =
      append_assoc (occupant_nodes c occ) (assigned chunk_of c out) _
      ∙ ap (λ l. occupant_nodes c occ ++ l) (sym (assigned-snoc chunk_of c out a))

  IsSpread-assign :
      (chunk_of : ℕ → ℕ) (occ : List (Occupant F)) (need : Need) (n : Node F)
      (out : List (Assignment F)) (s : State ops now)
      → chunk_of need.fragment_id ≡ need.chunk_id
      → eligible now n (s.used need.chunk_id) ≡ true
      → IsSpread s.used (holders chunk_of occ out)
      → IsSpread
          (State.used (assign ops now need n s))
          (holders chunk_of occ (out ++ record { fragment_id = need.fragment_id; node = n } ∷ []))
  unfolding assign
  IsSpread-assign chunk_of occ need n out s e g h =
      let a : Assignment F = record { fragment_id = need.fragment_id; node = n } in
      let joined : (c : ℕ)
          → holders chunk_of occ out c ++ extra need.chunk_id n c
            ≡ holders chunk_of occ (out ++ a ∷ []) c =
        λ c.
          ap (λ (k : ℕ). holders chunk_of occ out c ++ extra k n c) (sym e)
          ∙ holders-snoc chunk_of occ out a c in
      subst (IsSpread (update s.used need.chunk_id (add (s.used need.chunk_id) n)))
        (λ i c. joined c i)
        (IsSpread-update now s.used (holders chunk_of occ out) need.chunk_id n h g)

  IsSpread-place_needs :
      (chunk_of : ℕ → ℕ) (occ : List (Occupant F)) (reserve : Reservation → Bool)
      (draw : ℕ → Option ℕ) (k : ℕ) (needs : List Need) (out out' : List (Assignment F))
      (s : State ops now)
      → All (λ (n : Need). chunk_of n.fragment_id ≡ n.chunk_id) needs
      → IsSpread s.used (holders chunk_of occ out)
      → (place_needs ops now reserve draw k needs out s).0 ≡ ok out'
      → (c : ℕ) → Caps (holders chunk_of occ out' c)
  unfolding place_needs
  IsSpread-place_needs chunk_of occ reserve draw k [] out out' s a h e c =
      subst (λ o. Caps (holders chunk_of occ o c)) (ok-injective e) (h.caps c)
  IsSpread-place_needs chunk_of occ reserve draw k (need ∷ needs) out out' s a h e c =
      elim (Option-cases (pick ops now (draw k) s.live (s.used need.chunk_id))) [
        | inl no_node ↦
            IsSpread-place_needs chunk_of occ reserve draw (suc k) needs out out' s a.1 h
              (rw (place_needs, no_node) at e) c
        | inr (n, picked) ↦
            let good = pick-IsCandidate ops now (draw k) s.live (s.used need.chunk_id) n picked in
            let next = IsSpread-assign chunk_of occ need n out s a.0 good.0 h in
            elim (Bool-cases (reserve (reservation ops now need n))) [
              | inl held ↦
                  IsSpread-place_needs chunk_of occ reserve draw (suc k) needs _ out' _ a.1 next
                    (rw held at (rw (place_needs, picked) at e)) c
              | inr refused ↦
                  absurd (err_ne_ok (sym (rw refused at (rw (place_needs, picked) at e))))
            ]
      ]

  continue_with-ok :
      {A B : Type 0} (r : Result PlaceError A) (f : A → Result PlaceError B) (b : B)
      → continue_with r f ≡ ok b
      → (a : A) × (r ≡ ok a) × (f a ≡ ok b)
  continue_with-ok (ok a) f b h = (a, refl, h)
  continue_with-ok (err e) f b h = absurd (err_ne_ok (sym h))

  -- The maps in which the loop starts count the nodes that hold fragments already.
  start-used :
      (needs : List Need) (need : Need) (as' : Answers F) (live : List (Node F))
      (occ : List (Occupant F)) (s : State ops now)
      → as'.occupants (chunk_ids (need ∷ needs)) ≡ ok occ
      → start ops now (need ∷ needs) as' live ≡ ok s
      → s.used ≡ occupy ops now occ (λ _. new_chunk_use)
  unfolding start occupants_of chunk_ids
  start-used needs need as' live occ s o h =
      let (stats, _, h1) = continue_with-ok as'.stats _ s h in
      let (counts, _, h2) = continue_with-ok as'.counts _ s h1 in
      let (occ', o', h3) = continue_with-ok (as'.occupants (chunk_ids (need ∷ needs))) _ s h2 in
      sym (ap (λ (t : State ops now). t.used) (ok-injective h3))
      ∙ ap (λ (l : List (Occupant F)). occupy ops now l (λ _. new_chunk_use))
          (ok-injective (sym o' ∙ o))

  start_with-used :
      (needs : List Need) (need : Need) (as' : Answers F) (live : List (Node F))
      (occ : List (Occupant F)) (s : State ops now)
      → as'.occupants (chunk_ids (need ∷ needs)) ≡ ok occ
      → start_with ops now (need ∷ needs) as' live ≡ ok s
      → s.used ≡ occupy ops now occ (λ _. new_chunk_use)
  unfolding start_with
  start_with-used needs need as' [] occ s o h = absurd (err_ne_ok (sym h))
  start_with-used needs need as' (n ∷ ns) occ s o h = start-used needs need as' (n ∷ ns) occ s o h

  prepare-used :
      (needs : List Need) (need : Need) (as' : Answers F) (occ : List (Occupant F))
      (s : State ops now)
      → as'.occupants (chunk_ids (need ∷ needs)) ≡ ok occ
      → prepare ops now (need ∷ needs) as' ≡ ok s
      → s.used ≡ occupy ops now occ (λ _. new_chunk_use)
  unfolding prepare
  prepare-used needs need as' occ s o h =
      let (nodes, _, h1) = continue_with-ok as'.online _ s h in
      let (live, _, h2) = continue_with-ok (live_nodes ops now as'.exists nodes) _ s h1 in
      start_with-used needs need as' live occ s o h2

  -- The answer of a request keeps the hard caps: when the fragments of the request belong to
  -- their chunks by `chunk_of`, the nodes that hold fragments of a chunk already are within the
  -- caps, and the request succeeds, then these nodes and those that the answer adds for the chunk
  -- are within the caps together, whatever the random numbers, the scores and Redis said.
  pub place-Caps :
      (chunk_of : ℕ → ℕ) (need : Need) (needs : List Need) (as' : Answers F)
      (occ : List (Occupant F)) (out : List (Assignment F)) (held : List Reservation)
      → All (λ (n : Need). chunk_of n.fragment_id ≡ n.chunk_id) (need ∷ needs)
      → as'.occupants (chunk_ids (need ∷ needs)) ≡ ok occ
      → ((c : ℕ) → Caps (occupant_nodes c occ))
      → place ops now (need ∷ needs) as' ≡ (ok out, held)
      → (c : ℕ) → Caps (occupant_nodes c occ ++ assigned chunk_of c out)
  unfolding place holders assigned
  place-Caps chunk_of need needs as' occ out held a o w e c =
      go (prepare ops now (need ∷ needs) as') refl (ap (λ p. p.0) e)
    where
      fresh : (j : ℕ) → holders chunk_of occ [] j ≡ occupant_nodes j occ
      fresh j = append-nil (occupant_nodes j occ)

      spread :
          (u : ℕ → ChunkUse)
          → u ≡ occupy ops now occ (λ _. new_chunk_use)
          → IsSpread u (holders chunk_of occ [])
      spread u e = record {
        tally = λ j.
            rw (e, fresh j) (Tally-occupy occ (λ _. new_chunk_use) (λ _. []) j (λ _. Tally-new));
        caps = λ j. subst Caps (sym (fresh j)) (w j);
      }

      go :
          (r : Result PlaceError (State ops now))
          → prepare ops now (need ∷ needs) as' ≡ r
          → (run ops now as' (need ∷ needs) r).0 ≡ ok out
          → Caps (occupant_nodes c occ ++ assigned chunk_of c out)
      go (err x) p h = absurd (err_ne_ok (sym h))
      go (ok s) p h =
          IsSpread-place_needs chunk_of occ as'.reserve as'.draw 0 (need ∷ needs) [] out s a
            (spread s.used (prepare-used needs need as' occ s o p)) h c
