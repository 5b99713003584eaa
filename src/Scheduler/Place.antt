-- ===== src/Scheduler/Place.antt =====
-- internal/scheduler/scheduler.go, `Service.Place`: one request for a list of fragments.
-- Postgres, Redis and crypto/rand are parameters: what each call of the request answers. The
-- clock is read once.
use distributed_storage_plat.Common.{
  ℕ, suc, Bool, true, false, ◌&&◌, Option, none, some, List, [], ◌∷◌, ◌++◌, ◌==◌, if◌then◌else◌,
  Result, ok, err, map,
}
use distributed_storage_plat.Common.Int.{ℤ, pos, ltb_ℤ}
use distributed_storage_plat.Common.Int64.{sub64}
use distributed_storage_plat.Scheduler.Nodes.{Node, ChunkUse, new_chunk_use, add}
use distributed_storage_plat.Scheduler.Score.{FloatOps}
use distributed_storage_plat.Scheduler.Pick.{pick}

pub record Need : Type 0 where
  pub fragment_id : ℕ
  pub chunk_id : ℕ
  pub size_bytes : ℤ

-- The key `reserve:<node>:<fragment>` with its value.
pub record Reservation : Type 0 where
  pub node_id : ℕ
  pub fragment_id : ℕ
  pub size_bytes : ℤ

pub data PlaceError : Type 0 where
  unavailable failed : PlaceError

pub record Assignment (F : Type 0) : Type 0 where
  pub fragment_id : ℕ
  pub node : Node F

pub record Occupant (F : Type 0) : Type 0 where
  pub chunk_id : ℕ
  pub node : Node F

-- A row of node_stats, and the Redis hash of a heartbeat.
pub record Metrics (F : Type 0) : Type 0 where
  pub uptime_ratio : F
  pub latency_ms : F
  pub cpu_load : F
  pub mem_used_ratio : F

-- What the services answer during one request. `exists` is the liveness key of a node.
pub record Answers (F : Type 0) : Type 0 where
  pub online : Result PlaceError (List (Node F))
  pub exists : ℕ → Result PlaceError Bool
  pub stats : Result PlaceError (ℕ → Option (Metrics F))
  pub counts : Result PlaceError (ℕ → ℕ)
  pub metrics : ℕ → Option (Metrics F)
  pub occupants : List ℕ → Result PlaceError (List (Occupant F))
  pub reserve : Reservation → Bool
  pub draw : ℕ → Option ℕ

unfoldable pub mem_id : ℕ → List ℕ → Bool
mem_id i [] = false
mem_id i (j ∷ js) = if i == j then true else mem_id i js

-- The chunks of the request, each once.
unfoldable pub chunk_ids_from : List ℕ → List Need → List ℕ
chunk_ids_from seen [] = []
chunk_ids_from seen (n ∷ needs) =
    let again = mem_id n.chunk_id seen in
    let rest = chunk_ids_from (if again then seen else n.chunk_id ∷ seen) needs in
    if again then rest else n.chunk_id ∷ rest

unfoldable pub chunk_ids : List Need → List ℕ
unfolding chunk_ids_from mem_id
chunk_ids needs = chunk_ids_from [] needs

-- `m[k] = v`
abbrev pub update {ℓ} : {A : Type ℓ} → (ℕ → A) → ℕ → A → ℕ → A
update m k v j = if j == k then v else m j

-- `continue_with` is the `if err != nil { return nil, err }` after each call.
abbrev pub continue_with :
    {A B : Type 0} → Result PlaceError A → (A → Result PlaceError B) → Result PlaceError B
continue_with (ok a) f = f a
continue_with (err e) f = err e

module _ (ops : FloatOps) (now : ℕ) where
  open ops use {F, ratio, eq_f}

  -- What the request has done so far.
  pub record State : Type 0 where
    pub live : List (Node F)
    pub used : ℕ → ChunkUse
    pub reserved : List Reservation

  -- The nodes with a liveness key and free space.
  unfoldable pub live_nodes :
      (ℕ → Result PlaceError Bool) → List (Node F) → Result PlaceError (List (Node F))
  live_nodes exists [] = ok []
  live_nodes exists (n ∷ ns) =
      let rest = live_nodes exists ns in
      elim (exists n.id) [
        | err e ↦ err e
        | ok alive ↦ elim rest [
          | err e ↦ err e
          | ok more ↦ ok (
              if alive && ltb_ℤ (pos 0) (sub64 n.capacity_bytes n.used_bytes)
              then n ∷ more
              else more)
        ]
      ]

  -- A measurement of 0 is taken from node_stats.
  abbrev or_stat : F → F → F
  or_stat own stat = if eq_f own (ratio 0 1) then stat else own

  with_stats : Option (Metrics F) → Node F → Node F
  with_stats none n = n
  with_stats (some st) n = record n {
    uptime_ratio = st.uptime_ratio;
    latency_ms = or_stat n.latency_ms st.latency_ms;
    cpu_load = or_stat n.cpu_load st.cpu_load;
    mem_used_ratio = or_stat n.mem_used_ratio st.mem_used_ratio;
  }

  with_metrics : Option (Metrics F) → Node F → Node F
  with_metrics none n = n
  with_metrics (some m) n = record n {
    latency_ms = m.latency_ms;
    cpu_load = m.cpu_load;
    mem_used_ratio = m.mem_used_ratio;
  }

  unfoldable pub enrich :
      (ℕ → Option (Metrics F)) → (ℕ → ℕ) → (ℕ → Option (Metrics F)) → Node F → Node F
  unfolding with_stats with_metrics
  enrich stats counts metrics n = record (with_metrics (metrics n.id) (with_stats (stats n.id) n)) {
    live_placements = counts n.id;
  }

  -- `live[i].LivePlacements++` for the first node with the id.
  unfoldable pub bump_live : ℕ → List (Node F) → List (Node F)
  bump_live i [] = []
  bump_live i (n ∷ ns) =
      if n.id == i
      then record n { live_placements = suc n.live_placements } ∷ ns
      else n ∷ bump_live i ns

  unfoldable pub occupy : List (Occupant F) → (ℕ → ChunkUse) → ℕ → ChunkUse
  occupy [] used = used
  occupy (o ∷ os) used = occupy os (update used o.chunk_id (add (used o.chunk_id) o.node))

  -- The state after a node was picked for a need.
  unfoldable pub assign : Need → Node F → State → State
  assign need n s = record {
    live = bump_live n.id s.live;
    used = update s.used need.chunk_id (add (s.used need.chunk_id) n);
    reserved = s.reserved;
  }

  unfoldable pub reservation : Need → Node F → Reservation
  reservation need n = record {
    node_id = n.id;
    fragment_id = need.fragment_id;
    size_bytes = need.size_bytes;
  }

  -- The loop over the needs; `k` counts them, and `out` is the answer so far.
  unfoldable pub place_needs :
      (Reservation → Bool)
      → (ℕ → Option ℕ)
      → ℕ
      → List Need
      → List (Assignment F)
      → State
      → Result PlaceError (List (Assignment F)) × State
  unfolding reservation
  place_needs reserve draw k [] out s = (ok out, s)
  place_needs reserve draw k (need ∷ needs) out s =
      elim (pick ops now (draw k) s.live (s.used need.chunk_id)) [
        | none ↦ place_needs reserve draw (suc k) needs out s
        | some n ↦
            let t = assign need n s in
            elim (reserve (reservation need n)) [
              | false ↦ (err failed, t)
              | true ↦
                  place_needs reserve draw (suc k) needs
                    (out ++ record { fragment_id = need.fragment_id; node = n } ∷ [])
                    (record t { reserved = t.reserved ++ reservation need n ∷ [] })
            ]
      ]

  -- Who holds fragments of the chunks; without chunks, nobody is asked.
  unfoldable pub occupants_of : Answers F → List ℕ → Result PlaceError (List (Occupant F))
  occupants_of as' [] = ok []
  occupants_of as' (i ∷ is) = as'.occupants (i ∷ is)

  unfoldable pub start : List Need → Answers F → List (Node F) → Result PlaceError State
  start needs as' live = continue_with as'.stats (λ stats. continue_with as'.counts (λ counts.
      continue_with (occupants_of as' (chunk_ids needs)) (λ occ. ok (record {
        live = map (enrich stats counts as'.metrics) live;
        used = occupy occ (λ _. new_chunk_use);
        reserved = [];
      }))))

  unfoldable pub start_with : List Need → Answers F → List (Node F) → Result PlaceError State
  start_with needs as' [] = err unavailable
  start_with needs as' (n ∷ ns) = start needs as' (n ∷ ns)

  -- The request up to the loop: the state in which the loop starts, or an error.
  unfoldable pub prepare : List Need → Answers F → Result PlaceError State
  unfolding start start_with occupants_of
  prepare needs as' =
      continue_with as'.online
        (λ nodes. continue_with (live_nodes as'.exists nodes) (λ live. start_with needs as' live))

  unfoldable pub run :
      Answers F
      → List Need
      → Result PlaceError State
      → Result PlaceError (List (Assignment F)) × List Reservation
  run as' needs (err e) = (err e, [])
  run as' needs (ok s) =
      let (r, t) = place_needs as'.reserve as'.draw 0 needs [] s in (r, t.reserved)

  -- The answer, with the reservations that Redis holds afterwards.
  unfoldable pub place :
      List Need → Answers F → Result PlaceError (List (Assignment F)) × List Reservation
  unfolding run
  place needs as' = run as' needs (prepare needs as')
