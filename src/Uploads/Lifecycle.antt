-- ===== src/Uploads/Lifecycle.antt =====
-- The life of a copy of a fragment on a node, through the statements of Uploads/Placements.
use distributed_storage_plat.Common.{
  ℕ, ◌≡◌, Bool, false, Option, none, some, List, [], ◌∷◌, if◌then◌else◌,
}
use distributed_storage_plat.Uploads.Rows.{
  PlacementStatus, Placement, Tables, pending, stored, lost, expiring, deleted, exists_row,
}
use distributed_storage_plat.Uploads.Placements.{
  at_key, insert_pending, confirm_fragment, lose_node, lose_fragment, restore_ids, expire_ids,
  expire_fragments, delete_id, drop_pending, touch_audit,
}

-- The steps of the copy of one fragment on one node; `none` is a copy that was never planned.
pub data Move : Option PlacementStatus → Option PlacementStatus → Type 0 where
  stays : {s : Option PlacementStatus} → Move s s
  is_planned : Move none (some pending)
  is_dropped : Move (some pending) none
  is_confirmed : Move (some pending) (some stored)
  is_missed : Move (some pending) (some lost)
  goes_missing : Move (some stored) (some lost)
  comes_back : Move (some lost) (some stored)
  is_withdrawn : Move (some pending) (some expiring)
  is_expired : Move (some stored) (some expiring)
  is_surplus : Move (some lost) (some expiring)
  is_reaped : Move (some expiring) (some deleted)

-- The status of the copy of fragment `f` on node `n`.
unfoldable pub status_at : ℕ → ℕ → List Placement → Option PlacementStatus
unfolding at_key
status_at f n [] = none
status_at f n (p ∷ ps) = let rest = status_at f n ps in if at_key f n p then some p.status else rest

-- The statements on placements.
pub data PlacementOp : Type 0 where
  plan : ℕ → ℕ → PlacementOp
  confirm : ℕ → PlacementOp
  lose_all : ℕ → PlacementOp
  lose : ℕ → ℕ → PlacementOp
  restore : List ℕ → PlacementOp
  expire : List ℕ → PlacementOp
  expire_files : (ℕ → Bool) → PlacementOp
  reap : ℕ → PlacementOp
  drop_plan : (ℕ → Bool) → PlacementOp
  audit : ℕ → ℕ → PlacementOp

unfoldable pub apply : PlacementOp → Tables → Tables
apply (plan f n) t = insert_pending f n t
apply (confirm f) t = confirm_fragment f t
apply (lose_all n) t = lose_node n t
apply (lose f n) t = lose_fragment f n t
apply (restore ids) t = restore_ids ids t
apply (expire ids) t = expire_ids ids t
apply (expire_files mine) t = expire_fragments mine t
apply (reap i) t = delete_id i t
apply (drop_plan mine) t = drop_pending mine t
apply (audit f n) t = touch_audit f n t

unfoldable pub run : List PlacementOp → Tables → Tables
run [] t = t
run (o ∷ os) t = run os (apply o t)

-- UNIQUE (fragment_id, node_id)
unfoldable pub UniqueKeys : List Placement → Type 0
unfolding at_key
UniqueKeys [] = Unit
UniqueKeys (p ∷ ps) = (exists_row (at_key p.fragment_id p.node_id) ps ≡ false) × UniqueKeys ps
