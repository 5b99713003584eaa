-- ===== src/Repair/Examples.antt =====
-- A test of the worker: of fourteen copies one is lost.
use distributed_storage_plat.Common.{true, ℕ, ◌≡◌, refl, some, [], ◌∷◌, map, ok}
use distributed_storage_plat.Common.Int.{pos}
use distributed_storage_plat.Common.Database.{statement, calm}
use distributed_storage_plat.Uploads.Rows.{
  exists_row, is_live, count, where_rows, is_stored, update_where, find_fragment, is_pending,
  Placement, stored,
}
use distributed_storage_plat.Uploads.Repair.{
  chunk_health, health_of, in_chunk, lost_row, LostPlacement, mark_placements_lost_by_node,
}
use distributed_storage_plat.Uploads.Fixtures.{numbers, copy, planned}
use distributed_storage_plat.Repair.Worker.{
  send_job, same_id, add_job, queue_lost, publish_repair, priority_subject, in_store, queue_chunk,
  queue_short, World, on_node_offline,
}
use distributed_storage_plat.Repair.Queued.{Queued, on_node_offline-Queued}
use distributed_storage_plat.Uploads.Placements.{lose_node, mem_id, set_lost}
use distributed_storage_plat.Uploads.Planned.{join}
use mathlib.Core.List.{Memᴰ}

abbrev held : ℕ → Placement
held n = record (copy n) { status = stored; stored_at = some 900 }

abbrev world : World
world = record {
  session = calm (record planned { placements = map held numbers });
  jobs = [];
  has_bus = true;
  refusals = [];
}

abbrev lost_copy : LostPlacement
lost_copy = record {
  placement_id = 1;
  fragment_id = 1;
  chunk_id = 4;
  shard_index = pos 1;
  size_bytes = pos 10;
  sha256 = [];
  node_id = 21;
}

one_is_lost : (mark_placements_lost_by_node 21 world.session).0 ≡ ok (lost_copy ∷ [])
unfolding mark_placements_lost_by_node statement where_rows is_live is_pending is_stored join
    lost_row find_fragment lose_node
one_is_lost = refl

node_is_handled : (on_node_offline 21 world).0 ≡ ok tt
unfolding on_node_offline in_store mark_placements_lost_by_node statement where_rows is_live
    is_pending is_stored join lost_row find_fragment lose_node set_lost update_where queue_lost
    mem_id queue_chunk queue_short chunk_health health_of in_chunk count priority_subject
    publish_repair send_job add_job same_id exists_row
node_is_handled = refl

-- Thirteen copies are left.
job_is_queued : (on_node_offline 21 world).1.jobs ≡ (record { chunk_id = 4; healthy = 13 }) ∷ []
unfolding on_node_offline in_store mark_placements_lost_by_node statement where_rows is_live
    is_pending is_stored join lost_row find_fragment lose_node set_lost update_where queue_lost
    mem_id queue_chunk queue_short chunk_health health_of in_chunk count priority_subject
    publish_repair send_job add_job same_id exists_row
job_is_queued = refl

on_node_offline-Queued_example :
    Queued (on_node_offline 21 world).1.session.tables (on_node_offline 21 world).1.jobs 4
on_node_offline-Queued_example =
    on_node_offline-Queued 21 world refl one_is_lost node_is_handled (Memᴰ.head refl)

-- A job with the id of an earlier one is dropped, although `PublishRepair` succeeds.
second_is_dropped :
    publish_repair (record { chunk_id = 4; healthy = 13 }) (on_node_offline 21 world).1
    ≡ (ok tt, (on_node_offline 21 world).1)
unfolding on_node_offline in_store mark_placements_lost_by_node statement where_rows is_live
    is_pending is_stored join lost_row find_fragment lose_node set_lost update_where queue_lost
    mem_id queue_chunk queue_short chunk_health health_of in_chunk count priority_subject
    publish_repair send_job add_job same_id exists_row
second_is_dropped = refl
