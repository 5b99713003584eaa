-- ===== src/Uploads/Placements.antt =====
-- internal/store/uploads.go, repair.go, challenges.go and lifecycle.go: the statements that
-- change the rows of `fragment_placements`.
use distributed_storage_plat.Common.{
  ℕ, ◌+◌, Bool, true, false, ◌&&◌, not, none, some, List, [], ◌∷◌, ◌++◌, ◌==◌, if◌then◌else◌,
}
use distributed_storage_plat.Uploads.Rows.{
  Placement, Tables, pending, stored, lost, expiring, deleted, is_pending, is_live, is_lost,
  is_expiring, is_held, where_rows, update_where, exists_row,
}

unfoldable pub at_key : ℕ → ℕ → Placement → Bool
at_key f n p = p.fragment_id == f && p.node_id == n

-- INSERT ... ON CONFLICT (fragment_id, node_id) DO NOTHING. A conflict takes a value of the sequence as well.
unfoldable pub insert_pending : ℕ → ℕ → Tables → Tables
unfolding at_key
insert_pending f n t =
    let row : Placement = record {
      id = t.next_placement;
      fragment_id = f;
      node_id = n;
      status = pending;
      stored_at = none;
      last_audit_at = none;
      lost_at = none;
    } in
    record t {
      placements =
          if exists_row (at_key f n) t.placements then t.placements else t.placements ++ row ∷ [];
      next_placement = t.next_placement + 1;
    }

unfoldable pub confirmed : ℕ → Placement → Placement
confirmed now p = record p { status = stored; stored_at = some now }

-- The UPDATE of CommitUpload and of CommitRepairPlacements.
unfoldable pub confirm_fragment : ℕ → Tables → Tables
unfolding confirmed
confirm_fragment f t = record t {
  placements =
      update_where (λ (p : Placement). p.fragment_id == f && is_pending p.status) (confirmed t.now)
        t.placements;
}

unfoldable pub set_lost : ℕ → Placement → Placement
set_lost now p = record p { status = lost; lost_at = some now }

-- The UPDATE of MarkPlacementsLostByNode.
unfoldable pub lose_node : ℕ → Tables → Tables
unfolding set_lost
lose_node n t = record t {
  placements =
      update_where (λ (p : Placement). p.node_id == n && is_live p.status) (set_lost t.now)
        t.placements;
}

-- The UPDATE of MarkPlacementLost.
unfoldable pub lose_fragment : ℕ → ℕ → Tables → Tables
unfolding set_lost at_key
lose_fragment f n t = record t {
  placements =
      update_where (λ (p : Placement). at_key f n p && is_live p.status) (set_lost t.now)
        t.placements;
}

-- `id = ANY($1)`
unfoldable pub mem_id : ℕ → List ℕ → Bool
mem_id i [] = false
mem_id i (x ∷ xs) = let rest = mem_id i xs in if x == i then true else rest

unfoldable pub set_restored : ℕ → Placement → Placement
set_restored now p = record p { status = stored; stored_at = some now; lost_at = none }

-- The UPDATE of RestorePlacements.
unfoldable pub restore_ids : List ℕ → Tables → Tables
unfolding set_restored
restore_ids ids t = record t {
  placements =
      update_where (λ (p : Placement). mem_id p.id ids && is_lost p.status) (set_restored t.now)
        t.placements;
}

unfoldable pub set_expiring : Placement → Placement
set_expiring p = record p { status = expiring }

-- The UPDATE of ExpirePlacements.
unfoldable pub expire_ids : List ℕ → Tables → Tables
unfolding set_expiring
expire_ids ids t = record t {
  placements =
      update_where (λ (p : Placement). mem_id p.id ids && is_lost p.status) set_expiring
        t.placements;
}

-- The UPDATE of SoftDeleteFile; `mine` holds of the fragments of the files that it deletes.
unfoldable pub expire_fragments : (ℕ → Bool) → Tables → Tables
unfolding set_expiring
expire_fragments mine t = record t {
  placements =
      update_where (λ (p : Placement). mine p.fragment_id && is_held p.status) set_expiring
        t.placements;
}

unfoldable pub set_deleted : Placement → Placement
set_deleted p = record p { status = deleted }

-- The UPDATE of MarkPlacementDeleted.
unfoldable pub delete_id : ℕ → Tables → Tables
unfolding set_deleted
delete_id i t = record t {
  placements =
      update_where (λ (p : Placement). p.id == i && is_expiring p.status) set_deleted t.placements;
}

-- The DELETE of AbortUpload; `mine` holds of the fragments of the version.
unfoldable pub drop_pending : (ℕ → Bool) → Tables → Tables
drop_pending mine t = record t {
  placements =
      where_rows (λ (p : Placement). not (mine p.fragment_id && is_pending p.status)) t.placements;
}

-- The UPDATE of TouchLastAudit.
unfoldable pub touch_audit : ℕ → ℕ → Tables → Tables
unfolding at_key
touch_audit f n t = record t {
  placements =
      update_where (at_key f n) (λ (p : Placement). record p { last_audit_at = some t.now })
        t.placements;
}
