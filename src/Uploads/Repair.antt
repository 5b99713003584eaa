-- ===== src/Uploads/Repair.antt =====
-- internal/store/repair.go, challenges.go and lifecycle.go: the calls that repair and the reaper
-- make.
use distributed_storage_plat.Common.{
  ℕ, Bool, true, false, ◌&&◌, ◌||◌, not, Option, none, some, List, [], ◌∷◌, ◌==◌, ltb, length, take,
  if◌then◌else◌, Result, ok, err, pure, ◌>>=◌, for,
}
use distributed_storage_plat.Common.Int.{ℤ, pos, leb_ℤ, pos_part}
use distributed_storage_plat.Common.Database.{select, exec, statement, transaction}
use distributed_storage_plat.Health.Rows.{offline, quarantined, same_status}
use distributed_storage_plat.Uploads.Rows.{
  StoreError, not_found, db_error, Chunk, Fragment, Placement, Node, Tables, is_pending, is_stored,
  is_lost, is_live, is_expiring, is_committed, where_rows, count, exists_row, find_fragment,
  find_chunk, find_version, find_node,
}
use distributed_storage_plat.Uploads.Placements.{
  at_key, lose_node, lose_fragment, restore_ids, expire_ids, delete_id,
}
use distributed_storage_plat.Uploads.Planned.{Run, row, join, order_by}
use distributed_storage_plat.Uploads.Commit.{PlacementTarget, target_of, confirm_row}

pub record LostPlacement : Type 0 where
  pub placement_id : ℕ
  pub fragment_id : ℕ
  pub chunk_id : ℕ
  pub shard_index : ℤ
  pub size_bytes : ℤ
  pub sha256 : List ℕ
  pub node_id : ℕ

-- The row with its fragment.
unfoldable pub lost_row : Tables → Placement → List LostPlacement
lost_row t p = elim (find_fragment p.fragment_id t.fragments) [
  | none ↦ []
  | some fr ↦
      (record {
        placement_id = p.id;
        fragment_id = p.fragment_id;
        chunk_id = fr.chunk_id;
        shard_index = fr.shard_index;
        size_bytes = fr.size_bytes;
        sha256 = fr.sha256;
        node_id = p.node_id;
      })
      ∷ []
]

-- UPDATE ... RETURNING
unfoldable pub mark_placements_lost_by_node : ℕ → Run (List LostPlacement)
mark_placements_lost_by_node n = statement db_error (λ (t : Tables).
    let hit = where_rows (λ (p : Placement). p.node_id == n && is_live p.status) t.placements in
    ok (join (lost_row t) hit, lose_node n t))

unfoldable pub first_of {ℓ} : {A : Type ℓ} → List A → Result StoreError A
first_of [] = err not_found
first_of (x ∷ xs) = ok x

unfoldable pub mark_placement_lost : ℕ → ℕ → Run LostPlacement
mark_placement_lost f n = statement db_error (λ (t : Tables).
    let hit = where_rows (λ (p : Placement). at_key f n p && is_live p.status) t.placements in
    elim (join (lost_row t) hit) [ [] ↦ err not_found | lp ∷ _ ↦ ok (lp, lose_fragment f n t) ])

-- `fr.chunk_id = $1` for the fragment of a placement.
unfoldable pub in_chunk : Tables → ℕ → Placement → Bool
in_chunk t c p = elim (find_fragment p.fragment_id t.fragments) [
  | none ↦ false
  | some fr ↦ fr.chunk_id == c
]

unfoldable pub health_of : Tables → ℕ → ℕ
health_of t c = count (λ (p : Placement). in_chunk t c p && is_stored p.status) t.placements

unfoldable pub chunk_health : ℕ → Run ℕ
chunk_health c = select db_error (λ (t : Tables). ok (health_of t c))

unfoldable pub commit_repair_placements : List ℕ → Run (Unit {0})
commit_repair_placements fs =
    if length fs == 0 then pure tt else transaction db_error (for confirm_row fs)

unfoldable pub restore_placements : List ℕ → Run (Unit {0})
restore_placements ids = if length ids == 0 then pure tt else exec db_error (restore_ids ids)

unfoldable pub expire_placements : List ℕ → Run (Unit {0})
expire_placements ids = if length ids == 0 then pure tt else exec db_error (expire_ids ids)

-- A lost row with its node, and whether another node stores the fragment.
unfoldable pub lost_on : Tables → Placement → List (LostPlacement × Node × Bool)
lost_on t p = elim (find_node p.node_id t.nodes) [
  | none ↦ []
  | some n ↦
      let elsewhere =
        exists_row
          (λ (q : Placement).
            q.fragment_id == p.fragment_id && (is_stored q.status && not (q.node_id == p.node_id)))
          t.placements in
      join (λ (lp : LostPlacement). (lp, n, elsewhere) ∷ []) (lost_row t p)
]

unfoldable pub list_lost_on_node : ℕ → Run (List (LostPlacement × Node × Bool))
list_lost_on_node n = select db_error (λ (t : Tables). ok (
    join (lost_on t)
      (where_rows (λ (p : Placement). p.node_id == n && is_lost p.status) t.placements)))

unfoldable pub pending_targets_for_chunk : ℕ → Run (List PlacementTarget)
pending_targets_for_chunk c = select db_error (λ (t : Tables). ok (
    join (target_of t)
      (where_rows (λ (p : Placement). in_chunk t c p && is_pending p.status) t.placements)))

pub record RepairFragment : Type 0 where
  pub fragment : Fragment
  pub placement : Option Placement
  pub node : Option Node

-- CASE p.status WHEN 'stored' THEN 0 WHEN 'pending' THEN 1 ELSE 2 END, p.id
unfoldable pub better : Placement → Placement → Bool
better p q =
    if is_stored p.status
    then (if is_stored q.status then ltb p.id q.id else true)
    else if is_stored q.status
    then false
    else ltb p.id q.id

unfoldable pub best : List Placement → Option Placement
best [] = none
best (p ∷ ps) = elim (best ps) [ none ↦ some p | some q ↦ if better q p then some q else some p ]

-- DISTINCT ON (fr.id) over the left joins with live placements and nodes.
unfoldable pub repair_row : Tables → Fragment → RepairFragment
repair_row t fr =
    let placement =
      best
        (where_rows (λ (p : Placement). p.fragment_id == fr.id && is_live p.status) t.placements) in
    record {
      fragment = fr;
      placement = placement;
      node = elim placement [ none ↦ none | some p ↦ find_node p.node_id t.nodes ];
    }

-- `chunks c JOIN file_versions v WHERE c.id = $1 AND v.status = 'committed'`
unfoldable pub committed_chunk : Tables → ℕ → Option Chunk
committed_chunk t c = elim (find_chunk c t.chunks) [
  | none ↦ none
  | some ch ↦ elim (find_version ch.version_id t.versions) [
    | none ↦ none
    | some v ↦ if is_committed v.status then some ch else none
  ]
]

unfoldable pub load_repair_chunk : ℕ → Run (Chunk × List RepairFragment)
load_repair_chunk c = select db_error (λ (t : Tables). row (committed_chunk t c)) >>= λ ch.
    select db_error (λ (t : Tables).
      let mine = where_rows (λ (fr : Fragment). fr.chunk_id == c) t.fragments in
      ok (
        ch,
        join (λ (fr : Fragment). repair_row t fr ∷ [])
            (order_by (λ (a : Fragment) (b : Fragment). ltb a.id b.id) mine),
      ))

-- `n.status NOT IN ('offline', 'quarantined')`
unfoldable pub is_healthy_node : Tables → ℕ → Bool
is_healthy_node t i = elim (find_node i t.nodes) [
  | none ↦ false
  | some n ↦ not (same_status n.status offline || same_status n.status quarantined)
]

-- The rows of a chunk in the joins of UnderHealthyChunks.
unfoldable pub healthy_copies : Tables → ℕ → ℕ
healthy_copies t c =
    count (λ (p : Placement). in_chunk t c p && (is_stored p.status && is_healthy_node t p.node_id))
      t.placements

unfoldable pub is_committed_chunk : Tables → Chunk → Bool
is_committed_chunk t c = elim (find_version c.version_id t.versions) [
  | none ↦ false
  | some v ↦ is_committed v.status
]

-- GROUP BY c.id HAVING count(*) < $1: the inner joins make no group without a row.
unfoldable pub is_under_healthy : Tables → ℕ → Chunk → Bool
is_under_healthy t min c =
    is_committed_chunk t c && (ltb 0 (healthy_copies t c.id) && ltb (healthy_copies t c.id) min)

unfoldable pub under_healthy_chunks : ℕ → Run (List Chunk)
under_healthy_chunks min =
    select db_error (λ (t : Tables). ok (where_rows (is_under_healthy t min) t.chunks))

pub record ExpiringPlacement : Type 0 where
  pub placement : Placement
  pub fragment : Fragment
  pub node : Node

unfoldable pub expiring_row : Tables → Placement → List ExpiringPlacement
expiring_row t p =
    join
      (λ (x : PlacementTarget).
        (record { placement = p; fragment = x.fragment; node = x.node }) ∷ [])
      (target_of t p)

-- `if limit <= 0 { limit = 64 }`
unfoldable pub list_limit : ℤ → ℕ
list_limit limit = if leb_ℤ limit (pos 0) then 64 else pos_part limit

unfoldable pub list_expiring_placements : ℤ → Run (List ExpiringPlacement)
list_expiring_placements limit = select db_error (λ (t : Tables).
    let rows =
      order_by (λ (p : Placement) (q : Placement). ltb p.id q.id)
        (where_rows (λ (p : Placement). is_expiring p.status) t.placements) in
    ok (take (list_limit limit) (join (expiring_row t) rows)))

unfoldable pub expiring_placement_by_id : ℕ → Run ExpiringPlacement
expiring_placement_by_id i = select db_error (λ (t : Tables). first_of (
    join (expiring_row t)
      (where_rows (λ (p : Placement). p.id == i && is_expiring p.status) t.placements)))

unfoldable pub mark_placement_deleted : ℕ → Run (Unit {0})
mark_placement_deleted i = exec db_error (delete_id i)
