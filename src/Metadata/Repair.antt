-- ===== src/Metadata/Repair.antt =====
-- internal/metadata/repair.go and lifecycle.go: plans of repair, and the placements that are lost
-- or expire. `sign_ticket` signs for an operation; the number before it counts the tickets of a call.
use distributed_storage_plat.Common.{
  ℕ, ◌+◌, Bool, ◌&&◌, ◌||◌, not, Option, none, some, List, [], ◌∷◌, ◌++◌, map, length, ◌==◌,
  if◌then◌else◌, Result, pure, raise, lift, ◌>>=◌, ◌>>◌,
}
use distributed_storage_plat.Common.Int.{ℤ, pos}
use distributed_storage_plat.Health.Rows.{offline, quarantined, same_status}
use distributed_storage_plat.Uploads.Rows.{
  StoreError, unavailable, Chunk, Fragment, Node, is_stored, is_pending,
}
use distributed_storage_plat.Uploads.Planned.{Run, insert_placements}
use distributed_storage_plat.Uploads.Repair.{
  LostPlacement, RepairFragment, load_repair_chunk, list_lost_on_node, restore_placements,
  expire_placements, expiring_placement_by_id, mark_placement_deleted,
}
use distributed_storage_plat.Metadata.Plan.{PlaceNeed, PlaceAssign, assigned, node_for}

pub data Op : Type 0 where
  put get delete challenge : Op

-- A source or a target of a repair.
pub record RepairEnd : Type 0 where
  pub shard_index : ℤ
  pub fragment_id : ℕ
  pub sha256 : List ℕ
  pub size_bytes : ℤ
  pub node_id : ℕ
  pub endpoint : List ℕ
  pub ticket : List ℕ

pub record RepairPlan : Type 0 where
  pub chunk_id : ℕ
  pub size_bytes : ℤ
  pub sha256 : List ℕ
  pub healthy : ℕ
  pub sources : List RepairEnd
  pub targets : List RepairEnd

pub record LostRow : Type 0 where
  pub placement : LostPlacement
  pub endpoint : List ℕ
  pub ticket : List ℕ
  pub challenge_ticket : List ℕ
  pub reconstructed_elsewhere : Bool

pub record DeleteTicket : Type 0 where
  pub placement_id : ℕ
  pub fragment_id : ℕ
  pub node_id : ℕ
  pub endpoint : List ℕ
  pub ticket : List ℕ

-- What a row of the chunk becomes: a survivor, a target that waits, or a fragment to place.
pub data Role : Type 0 where
  survivor : Node → Role
  waits_on : Node → Role
  missing : Role

unfoldable pub role_of : RepairFragment → Role
role_of rf = elim rf.placement [
  | none ↦ missing
  | some p ↦ elim rf.node [
    | none ↦ missing
    | some n ↦
        if is_stored p.status
        then survivor n
        else if is_pending p.status
            && not (same_status n.status offline || same_status n.status quarantined)
        then waits_on n
        else missing
  ]
]

unfoldable pub repair_end : Fragment → Node → List ℕ → RepairEnd
repair_end fr n wire = record {
  shard_index = fr.shard_index;
  fragment_id = fr.id;
  sha256 = fr.sha256;
  size_bytes = fr.size_bytes;
  node_id = n.id;
  endpoint = n.endpoint;
  ticket = wire;
}

module _ (sign_ticket : ℕ → Op → ℕ → ℕ → List ℕ → ℤ → Result StoreError (List ℕ)) where
  unfoldable pub sign_for : ℕ → Op → Fragment → Node → Run RepairEnd
  sign_for n op fr node = lift (sign_ticket n op fr.id node.id fr.sha256 fr.size_bytes) >>= λ wire.
      pure (repair_end fr node wire)

  -- The loop over the rows: the sources and targets so far, and the fragments to place.
  unfoldable pub sort_rows :
      ℕ → List RepairFragment → Run (List RepairEnd × List RepairEnd × List Fragment)
  sort_rows n [] = pure ([], [], [])
  sort_rows n (rf ∷ rfs) =
      let rest : ℕ → Run (List RepairEnd × List RepairEnd × List Fragment) = λ k. sort_rows k rfs in
      elim (role_of rf) [
        | survivor node ↦ sign_for n get rf.fragment node >>= λ e.
            rest (n + 1) >>= λ out. pure (e ∷ out.0, out.1, out.2)
        | waits_on node ↦ sign_for n put rf.fragment node >>= λ e.
            rest (n + 1) >>= λ out. pure (out.0, e ∷ out.1, out.2)
        | missing ↦ rest n >>= λ out. pure (out.0, out.1, rf.fragment ∷ out.2)
      ]

  -- A target for each fragment that the scheduler placed.
  unfoldable pub new_targets : ℕ → List (ℕ × Node) → List Fragment → Run (List RepairEnd)
  new_targets n by [] = pure []
  new_targets n by (fr ∷ frs) = elim (node_for by fr.id) [
    | none ↦ new_targets n by frs
    | some node ↦
        sign_for n put fr node >>= λ e. new_targets (n + 1) by frs >>= λ rest. pure (e ∷ rest)
  ]

  unfoldable pub need_of : ℕ → Fragment → PlaceNeed
  need_of c fr = record { fragment_id = fr.id; chunk_id = c; size_bytes = fr.size_bytes }

  module _ (place : List PlaceNeed → Option (List PlaceAssign)) where
    unfoldable pub place_missing : ℕ → ℕ → List Fragment → Run (List RepairEnd)
    place_missing n c frs =
        if length frs == 0 then pure [] else elim (place (map (need_of c) frs)) [
          | none ↦ raise unavailable
          | some assigns ↦
              insert_placements (map (λ (a : PlaceAssign). (a.fragment_id, a.node.id)) assigns)
              >> new_targets n (assigned [] assigns) frs
        ]

    unfoldable pub plan_rows : Chunk × List RepairFragment → Run RepairPlan
    plan_rows (c, rfs) = sort_rows 0 rfs >>= λ out.
        place_missing (length out.0 + length out.1) c.id out.2 >>= λ more. pure (record {
          chunk_id = c.id;
          size_bytes = c.size_bytes;
          sha256 = c.sha256;
          healthy = length out.0;
          sources = out.0;
          targets = out.1 ++ more;
        })

    unfoldable pub plan_repair : ℕ → Run RepairPlan
    plan_repair c = load_repair_chunk c >>= plan_rows

  -- `OpChallenge` tickets are for at most 64 KiB.
  unfoldable pub lost_rows : ℕ → List (LostPlacement × Node × Bool) → Run (List LostRow)
  lost_rows n [] = pure []
  lost_rows n ((lp, node, elsewhere) ∷ rest) =
      lift (sign_ticket n get lp.fragment_id lp.node_id lp.sha256 lp.size_bytes) >>= λ wire.
      lift (sign_ticket (n + 1) challenge lp.fragment_id lp.node_id lp.sha256 (pos 65536)) >>= λ ch.
      lost_rows (n + 2) rest >>= λ more. pure (
        (record {
          placement = lp;
          endpoint = node.endpoint;
          ticket = wire;
          challenge_ticket = ch;
          reconstructed_elsewhere = elsewhere;
        })
        ∷ more)

  unfoldable pub list_lost_for_node : ℕ → Run (List LostRow)
  list_lost_for_node n = list_lost_on_node n >>= lost_rows 0

  unfoldable pub issue_delete_ticket : ℕ → Run DeleteTicket
  issue_delete_ticket i = expiring_placement_by_id i >>= λ x.
      lift (
        sign_ticket 0 delete x.placement.fragment_id x.placement.node_id x.fragment.sha256
          x.fragment.size_bytes)
      >>= λ wire. pure (record {
        placement_id = x.placement.id;
        fragment_id = x.placement.fragment_id;
        node_id = x.placement.node_id;
        endpoint = x.node.endpoint;
        ticket = wire;
      })

unfoldable pub apply_flap : List ℕ → List ℕ → Run (Unit {0})
apply_flap restore expire = restore_placements restore >> expire_placements expire

unfoldable pub mark_deleted : ℕ → Run (Unit {0})
mark_deleted i = mark_placement_deleted i
