-- ===== src/Repair/Worker.antt =====
-- internal/repair/worker.go, internal/lifecycle/reaper.go and `PrioritySubject` of
-- internal/events/events.go. The calls of metadata over HTTP are calls of its model.
use distributed_storage_plat.Common.{
  ℕ, zero, suc, ◌+◌, Bool, true, false, ◌&&◌, ◌||◌, not, Option, none, some, List, [], ◌∷◌, ◌++◌,
  length, ◌==◌, ltb, leb, if◌then◌else◌, ok, err, Exec, pure, raise, ◌>>=◌, ◌>>◌,
}
use distributed_storage_plat.Common.Int.{ℤ, pos, ltb_ℤ, pos_part}
use distributed_storage_plat.Common.Bytes.{same_bytes}
use distributed_storage_plat.Common.Database.{Session}
use distributed_storage_plat.Uploads.Rows.{StoreError, db_error, invalid, Chunk, Tables, exists_row}
use distributed_storage_plat.Uploads.Placements.{mem_id}
use distributed_storage_plat.Uploads.Planned.{Run}
use distributed_storage_plat.Uploads.Repair.{
  LostPlacement, mark_placements_lost_by_node, mark_placement_lost, chunk_health,
  under_healthy_chunks, ExpiringPlacement, list_expiring_placements,
}
use distributed_storage_plat.Metadata.Repair.{
  RepairEnd, RepairPlan, LostRow, DeleteTicket, apply_flap, mark_deleted,
}

abbrev pub repair_threshold : ℕ
repair_threshold = 16

pub data Priority : Type 0 where
  critical high normal : Priority

-- `none` is the empty subject: no job.
unfoldable pub priority_subject : ℕ → Option Priority
priority_subject healthy =
    if leb 16 healthy
    then none
    else if leb healthy 10
    then some critical
    else if healthy == 11
    then some high
    else some normal

pub record RepairJob : Type 0 where
  pub chunk_id : ℕ
  pub healthy : ℕ

-- The database, the jobs published from a minute before on, which is as long as the stream
-- remembers their ids, whether there is a bus, and which of the publications to come fail.
pub record World : Type 0 where
  pub session : Session Tables
  pub jobs : List RepairJob
  pub has_bus : Bool
  pub refusals : List Bool

abbrev pub Act : Type 0 → Type 0
Act A = Exec World StoreError A

unfoldable pub in_store : {A : Type 0} → Run A → Act A
in_store m w = let (r, s) = m w.session in (r, record w { session = s })

-- The id of a message, `repair:<chunk>:<healthy>`.
unfoldable pub same_id : RepairJob → RepairJob → Bool
same_id a b = a.chunk_id == b.chunk_id && a.healthy == b.healthy

-- The stream drops a message whose id it remembers, and answers with success.
unfoldable pub add_job : RepairJob → List RepairJob → List RepairJob
unfolding same_id
add_job job jobs = if exists_row (same_id job) jobs then jobs else jobs ++ job ∷ []

-- The call of the stream, for a chunk that is not whole.
unfoldable pub send_job : RepairJob → Act (Unit {0})
unfolding add_job
send_job job w = elim (priority_subject job.healthy) [
  | none ↦ (ok tt, w)
  | some _ ↦ elim w.refusals [
    | [] ↦ (ok tt, record w { jobs = add_job job w.jobs })
    | true ∷ rest ↦ (err db_error, record w { refusals = rest })
    | false ∷ rest ↦ (ok tt, record w { jobs = add_job job w.jobs; refusals = rest })
  ]
]

-- `PublishRepair`, which does nothing without a bus.
unfoldable pub publish_repair : RepairJob → Act (Unit {0})
publish_repair job w = if not w.has_bus then (ok tt, w) else send_job job w

unfoldable pub queue_short : ℕ → ℕ → Act (Unit {0})
queue_short c healthy = elim (priority_subject healthy) [
  | none ↦ pure tt
  | some _ ↦ publish_repair (record { chunk_id = c; healthy = healthy })
]

unfoldable pub queue_chunk : ℕ → Act (Unit {0})
queue_chunk c = in_store (chunk_health c) >>= queue_short c

-- The loop with `seen`: each chunk once.
unfoldable pub queue_lost : List ℕ → List LostPlacement → Act (Unit {0})
queue_lost seen [] = pure tt
queue_lost seen (lp ∷ lps) =
    let skip : Act (Unit {0}) = queue_lost seen lps in
    let rest : Act (Unit {0}) = queue_lost (lp.chunk_id ∷ seen) lps in
    if mem_id lp.chunk_id seen then skip else queue_chunk lp.chunk_id >> rest

unfoldable pub on_node_offline : ℕ → Act (Unit {0})
on_node_offline n = in_store (mark_placements_lost_by_node n) >>= queue_lost []

-- A call whose error is logged and dropped.
unfoldable pub logged : {A : Type 0} → Act A → Act (Unit {0})
logged m w = (ok tt, (m w).1)

unfoldable pub enqueue_chunks : List Chunk → Act (Unit {0})
enqueue_chunks [] = pure tt
enqueue_chunks (c ∷ cs) =
    logged (
      in_store (chunk_health c.id) >>= λ healthy.
      publish_repair (record { chunk_id = c.id; healthy = healthy }))
    >> enqueue_chunks cs

unfoldable pub enqueue_unhealthy : Act (Unit {0})
enqueue_unhealthy = logged (in_store (under_healthy_chunks repair_threshold) >>= enqueue_chunks)

-- The answer of `revalidate` for each row, and the lists of `onNodeOnline`.
unfoldable pub flap_ids : (LostRow → Bool) → List LostRow → List ℕ × List ℕ
flap_ids holds [] = ([], [])
flap_ids holds (r ∷ rs) =
    let (restore, expire) = flap_ids holds rs in
    if not (holds r)
    then (restore, expire)
    else if r.reconstructed_elsewhere
    then (restore, r.placement.placement_id ∷ expire)
    else (r.placement.placement_id ∷ restore, expire)

unfoldable pub settle_flap : (LostRow → Bool) → List LostRow → Act (Unit {0})
settle_flap holds rows =
    let ids = flap_ids holds rows in
    if length ids.0 == 0 && length ids.1 == 0 then pure tt else in_store (apply_flap ids.0 ids.1)

-- `lost` is the list of metadata.
unfoldable pub on_node_online : (ℕ → Run (List LostRow)) → (LostRow → Bool) → ℕ → Act (Unit {0})
on_node_online lost holds n = in_store (lost n) >>= settle_flap holds

abbrev pub ec_total : ℕ
ec_total = 16

abbrev pub ec_data : ℕ
ec_data = 10

abbrev pub Shards : Type 0
Shards = List (Option (List ℕ))

unfoldable pub shard_at : ℕ → Shards → Option (List ℕ)
shard_at i [] = none
shard_at zero (x ∷ xs) = x
shard_at (suc i) (x ∷ xs) = shard_at i xs

unfoldable pub set_shard : ℕ → List ℕ → Shards → Shards
set_shard i d [] = []
set_shard zero d (x ∷ xs) = some d ∷ xs
set_shard (suc i) d (x ∷ xs) = x ∷ set_shard i d xs

unfoldable pub is_some : {A : Type 0} → Option A → Bool
is_some none = false
is_some (some a) = true

-- `idx < 0 || idx >= ECTotal`
unfoldable pub bad_index : ℤ → Bool
bad_index i = ltb_ℤ i (pos 0) || leb ec_total (pos_part i)

-- The loop over the hits: the shards and how many of them are filled.
unfoldable pub collect : Shards → ℕ → List (ℤ × List ℕ) → Shards × ℕ
collect shards got [] = (shards, got)
collect shards got ((i, d) ∷ hits) =
    let filled : Shards = set_shard (pos_part i) d shards in
    let skip = collect shards got hits in
    let next = collect filled (got + 1) hits in
    if bad_index i || is_some (shard_at (pos_part i) shards)
    then skip
    else if leb ec_data (got + 1)
    then (filled, got + 1)
    else next

unfoldable pub empty_shards : ℕ → Shards
empty_shards zero = []
empty_shards (suc n) = none ∷ empty_shards n

-- `get` is the answer of a node, `hash` is SHA-256, and `arrive` the order in which the answers come.
module _ (get : RepairEnd → Option (List ℕ)) (hash : List ℕ → List ℕ)
    (arrive : List (ℤ × List ℕ) → List (ℤ × List ℕ)) where
  unfoldable pub hits_of : List RepairEnd → List (ℤ × List ℕ)
  hits_of [] = []
  hits_of (src ∷ srcs) =
      let rest = hits_of srcs in
      elim (get src) [
        | none ↦ rest
        | some d ↦ if same_bytes (hash d) src.sha256 then (src.shard_index, d) ∷ rest else rest
      ]

  unfoldable pub fetch_sources : List RepairEnd → Act Shards
  fetch_sources srcs =
      let (shards, got) = collect (empty_shards ec_total) 0 (arrive (hits_of srcs)) in
      if ltb got ec_data then raise invalid else pure shards

  -- `put` sends a shard and returns the receipt of the node.
  module _ (put : RepairEnd → List ℕ → Option (List ℕ)) where
    unfoldable pub put_targets : Shards → List RepairEnd → Act (List (List ℕ))
    put_targets shards [] = pure []
    put_targets shards (tgt ∷ tgts) =
        let rest : Act (List (List ℕ)) = put_targets shards tgts in
        if bad_index tgt.shard_index
        then raise invalid
        else elim (shard_at (pos_part tgt.shard_index) shards) [
          | none ↦ raise invalid
          | some d ↦
              if not (same_bytes (hash d) tgt.sha256) then raise invalid else elim (put tgt d) [
                | none ↦ logged (in_store (mark_placement_lost tgt.fragment_id tgt.node_id)) >> rest
                | some receipt ↦ rest >>= λ more. pure (receipt ∷ more)
              ]
        ]

    -- `rebuild` is the reconstruction of the erasure code, `plan` and `commit` those of metadata.
    module _ (rebuild : Shards → Option Shards) (plan : ℕ → Run RepairPlan)
        (commit : ℕ → List (List ℕ) → Run (Unit {0})) where
      unfoldable pub publish_short : ℕ → ℕ → Act (Unit {0})
      publish_short c healthy =
          if ltb healthy repair_threshold
          then publish_repair (record { chunk_id = c; healthy = healthy })
          else pure tt

      unfoldable pub commit_receipts : ℕ → List (List ℕ) → Act (Unit {0})
      commit_receipts c receipts =
          if length receipts == 0
          then raise invalid
          else in_store (commit c receipts) >> (in_store (chunk_health c) >>= publish_short c)

      unfoldable pub rebuild_targets : ℕ → List RepairEnd → Shards → Act (Unit {0})
      rebuild_targets c tgts shards = elim (rebuild shards) [
        | none ↦ raise invalid
        | some whole ↦ put_targets whole tgts >>= commit_receipts c
      ]

      unfoldable pub run_plan : ℕ → RepairPlan → Act (Unit {0})
      run_plan c p =
          if length p.targets == 0
          then pure tt
          else fetch_sources p.sources >>= rebuild_targets c p.targets

      unfoldable pub repair_short : ℕ → ℕ → Act (Unit {0})
      repair_short c healthy =
          if leb repair_threshold healthy then pure tt else in_store (plan c) >>= run_plan c

      unfoldable pub on_job : ℕ → Act (Unit {0})
      on_job c = in_store (chunk_health c) >>= repair_short c

-- The reaper: `ticket` is the call of metadata, and `delete_fragment` whether the node confirmed.
module _ (ticket : ℕ → Run DeleteTicket) (delete_fragment : DeleteTicket → Bool) where
  unfoldable pub reap : ExpiringPlacement → Act (Unit {0})
  reap p = in_store (ticket p.placement.id) >>= λ tk.
      if delete_fragment tk then in_store (mark_deleted p.placement.id) else raise invalid

  unfoldable pub reap_each : List ExpiringPlacement → Act (Unit {0})
  reap_each [] = pure tt
  reap_each (p ∷ ps) = logged (reap p) >> reap_each ps

  unfoldable pub once : Act (Unit {0})
  once = logged (in_store (list_expiring_placements (pos 64)) >>= reap_each)
