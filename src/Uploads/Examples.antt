-- ===== src/Uploads/Examples.antt =====
-- Tests and witnesses for uploads and placements.
use distributed_storage_plat.Common.{
  ◌≡◌, refl, true, false, none, some, List, [], ◌∷◌, for, ok, err, ◌≤◌,
}
use distributed_storage_plat.Common.Int.{pos}
use distributed_storage_plat.Common.Database.{calm, transaction, statement, in_transaction}
use distributed_storage_plat.Uploads.Rows.{
  is_expiring, is_lost, is_live, where_rows, exists_row, find_version, find_file, find_fragment,
  find_chunk, update_where, is_pending, is_stored, is_open, is_committed, count, File, Chunk,
  Tables, deleted, incomplete, not_found,
}
use distributed_storage_plat.Uploads.Lifecycle.{
  PlacementOp, apply, plan, confirm, lose_all, lose, restore, expire, reap, status_at, run,
  UniqueKeys,
}
use distributed_storage_plat.Uploads.Planned.{
  PlannedUpload, join, order_by, left_join, by_seq_shard, has_stored, planned_rows, load_planned,
}
use distributed_storage_plat.Uploads.Begin.{
  new_version, fill_version, data_shards, begin_at, live_at, bad_manifest, first_file, same_int,
  insert_file, begins_slash, insert_version, last_version_no, insert_fragment, normalize_path,
  file_at, begin_checked, bucket_by_id, insert_chunk, insert_manifest_chunk, trim_slashes,
  find_bucket, owns, is_gone, begin_upload, file_by_id,
}
use distributed_storage_plat.Uploads.Commit.{
  set_active, set_committed, commit_version, is_short, short_chunks, activate_file, confirm_row,
  count_short, mark_file, finish_commit, check_and_commit, commit_pending, commit_found,
  version_by_id, commit_upload, commit_threshold, stored_copies, has_fragment, owned_version,
}
use distributed_storage_plat.Uploads.Delete.{delete_rows, soft_delete_file, like, under}
use distributed_storage_plat.Uploads.Final.{run-Moves, run-Leaving, Moves, Leaving}
use distributed_storage_plat.Uploads.Covered.{commit_upload-covers}
use distributed_storage_plat.Uploads.Again.{commit_upload-again}
use distributed_storage_plat.Uploads.Deleted.{
  soft_delete_file-leaves_none, live_files, current_versions, held_copies,
}
use distributed_storage_plat.Uploads.Resumed.{begin_upload-IsPlan, IsPlan}
use distributed_storage_plat.Uploads.Placements.{
  set_deleted, delete_id, set_expiring, expire_ids, mem_id, set_restored, restore_ids,
  lose_fragment, set_lost, lose_node, insert_pending, at_key, confirmed, confirm_fragment,
}
use distributed_storage_plat.Common.Bytes.{same_bytes}
use mathlib.Core.List.{Memᴰ}
use distributed_storage_plat.Uploads.Fixtures.{
  numbers, file, version, chunk, copy, planned, done, done_file, fresh, long_manifest, empty_bucket,
}

commit_upload_runs : (commit_upload 7 3 numbers (calm planned)).0 ≡ ok (done_file, done)
unfolding commit_upload transaction statement in_transaction version_by_id owned_version
    find_version find_file find_fragment find_chunk find_bucket owns is_gone commit_found
    commit_pending check_and_commit finish_commit mark_file count_short confirm_row confirm_fragment
    confirmed for update_where is_pending is_stored is_open is_committed short_chunks is_short count
    has_fragment stored_copies commit_version set_committed activate_file set_active
commit_upload_runs = refl

too_few : (commit_upload 7 3 (1 ∷ 2 ∷ 3 ∷ []) (calm planned)).0 ≡ err incomplete
unfolding commit_upload transaction statement in_transaction version_by_id owned_version
    find_version find_file find_fragment find_chunk find_bucket owns is_gone commit_found
    commit_pending check_and_commit finish_commit mark_file count_short confirm_row confirm_fragment
    confirmed for update_where is_pending is_stored is_open is_committed short_chunks is_short count
    has_fragment stored_copies commit_version set_committed activate_file set_active
too_few = refl

-- The owner is another: no row.
foreign : (commit_upload 8 3 numbers (calm planned)).0 ≡ err not_found
unfolding commit_upload transaction statement in_transaction version_by_id owned_version
    find_version find_file find_fragment find_chunk find_bucket owns is_gone commit_found
    commit_pending check_and_commit finish_commit mark_file count_short confirm_row confirm_fragment
    confirmed for update_where is_pending is_stored is_open is_committed short_chunks is_short count
    has_fragment stored_copies commit_version set_committed activate_file set_active
foreign = refl

planned_version : owned_version 7 3 planned ≡ some (file, version)
unfolding commit_upload transaction statement in_transaction version_by_id owned_version
    find_version find_file find_fragment find_chunk find_bucket owns is_gone commit_found
    commit_pending check_and_commit finish_commit mark_file count_short confirm_row confirm_fragment
    confirmed for update_where is_pending is_stored is_open is_committed short_chunks is_short count
    has_fragment stored_copies commit_version set_committed activate_file set_active
planned_version = refl

version_is_open : is_committed version.status ≡ false
unfolding commit_upload transaction statement in_transaction version_by_id owned_version
    find_version find_file find_fragment find_chunk find_bucket owns is_gone commit_found
    commit_pending check_and_commit finish_commit mark_file count_short confirm_row confirm_fragment
    confirmed for update_where is_pending is_stored is_open is_committed short_chunks is_short count
    has_fragment stored_copies commit_version set_committed activate_file set_active
version_is_open = refl

chunk_is_kept : Memᴰ chunk (commit_upload 7 3 numbers (calm planned)).1.tables.chunks
unfolding commit_upload transaction statement in_transaction version_by_id owned_version
    find_version find_file find_fragment find_chunk find_bucket owns is_gone commit_found
    commit_pending check_and_commit finish_commit mark_file count_short confirm_row confirm_fragment
    confirmed for update_where is_pending is_stored is_open is_committed short_chunks is_short count
    has_fragment stored_copies commit_version set_committed activate_file set_active
chunk_is_kept = Memᴰ.head refl

chunk_has_fragment :
    has_fragment (commit_upload 7 3 numbers (calm planned)).1.tables.fragments 4 ≡ true
unfolding commit_upload transaction statement in_transaction version_by_id owned_version
    find_version find_file find_fragment find_chunk find_bucket owns is_gone commit_found
    commit_pending check_and_commit finish_commit mark_file count_short confirm_row confirm_fragment
    confirmed for update_where is_pending is_stored is_open is_committed short_chunks is_short count
    has_fragment stored_copies commit_version set_committed activate_file set_active
chunk_has_fragment = refl

commit_upload-covers_example :
    commit_threshold
    ≤ stored_copies
        (commit_upload 7 3 numbers (calm planned)).1.tables.placements
        (commit_upload 7 3 numbers (calm planned)).1.tables.fragments
        4
commit_upload-covers_example =
    commit_upload-covers 7 3 numbers (calm planned) chunk commit_upload_runs planned_version
      version_is_open chunk_is_kept refl chunk_has_fragment

commit_upload-again_example :
    (h : File) × (h.id ≡ 2)
    × (commit_upload 7 3 [] (calm (commit_upload 7 3 numbers (calm planned)).1.tables)
        ≡ (ok (h, done), calm (commit_upload 7 3 numbers (calm planned)).1.tables))
commit_upload-again_example =
    commit_upload-again 7 3 numbers [] (calm planned) commit_upload_runs planned_version

-- Two copies alone, and a life of the first.
abbrev two_copies : Tables
two_copies = record planned { placements = copy 1 ∷ copy 2 ∷ [] }

two_copies-UniqueKeys : UniqueKeys two_copies.placements
unfolding UniqueKeys exists_row at_key
two_copies-UniqueKeys = (refl, (refl, tt))

abbrev life : List PlacementOp
life =
    plan 1 21
    ∷ confirm 1
    ∷ lose_all 21
    ∷ restore (1 ∷ [])
    ∷ lose 1 21
    ∷ expire (1 ∷ [])
    ∷ reap 1
    ∷ []

life_ends : status_at 1 21 (run life two_copies).placements ≡ some deleted
unfolding status_at run apply at_key exists_row update_where insert_pending confirm_fragment
    confirmed lose_node set_lost lose_fragment restore_ids set_restored mem_id expire_ids
    set_expiring delete_id set_deleted is_pending is_live is_stored is_lost is_expiring
life_ends = refl

run-Moves_example :
    Moves (status_at 1 21 two_copies.placements) (status_at 1 21 (run life two_copies).placements)
run-Moves_example = run-Moves life 1 21 two_copies two_copies-UniqueKeys

abbrev removed_copy : Tables
removed_copy = record planned { placements = (record (copy 1) { status = deleted }) ∷ [] }

removed_copy-UniqueKeys : UniqueKeys removed_copy.placements
unfolding UniqueKeys exists_row at_key
removed_copy-UniqueKeys = (refl, tt)

removed_copy-Leaving : Leaving (status_at 1 21 removed_copy.placements)
unfolding Leaving status_at at_key
removed_copy-Leaving = tt

run-Leaving_example : Leaving (status_at 1 21 (run life removed_copy).placements)
run-Leaving_example =
    run-Leaving life 1 21 removed_copy removed_copy-UniqueKeys removed_copy-Leaving

file_is_found : (file_by_id 7 2 (calm planned)).0 ≡ ok file
unfolding statement find_bucket owns is_gone file_by_id first_file
file_is_found = refl

file_is_deleted : (soft_delete_file 7 2 (calm planned)).0 ≡ ok tt
unfolding soft_delete_file transaction statement in_transaction find_bucket owns is_gone file_by_id
    first_file delete_rows exists_row
file_is_deleted = refl

soft_delete_file-leaves_none_example :
    (live_files file (soft_delete_file 7 2 (calm planned)).1.tables ≡ 0)
    × (current_versions file (soft_delete_file 7 2 (calm planned)).1.tables ≡ 0)
    × (held_copies file (soft_delete_file 7 2 (calm planned)).1.tables ≡ 0)
soft_delete_file-leaves_none_example =
    soft_delete_file-leaves_none 7 2 (calm planned) file_is_found file_is_deleted

-- In LIKE the underscore of a folder "/a_b" stands for any character: "/acb/x" is under it.
under_other_folder : under (47 ∷ 97 ∷ 95 ∷ 98 ∷ []) (47 ∷ 97 ∷ 99 ∷ 98 ∷ 47 ∷ 120 ∷ []) ≡ true
unfolding under like same_bytes
under_other_folder = refl

abbrev begun : PlannedUpload
begun =
    let f : File = record file { id = 100; updated_at = 1000 } in
    let c : Chunk = record {
      id = 100;
      version_id = 100;
      seq = pos 0;
      size_bytes = pos 100;
      sha256 = [];
    } in
    record {
      file = f;
      version = record version {
        id = 100;
        file_id = 100;
        content_sha256 = long_manifest.content_sha256;
      };
      resume = false;
      pending_rows =
          (record {
            chunk = c;
            fragment = record {
              id = 100;
              chunk_id = 100;
              shard_index = pos 0;
              size_bytes = pos 10;
              sha256 = [];
            };
            placement = none;
          })
          ∷ [];
      stored_rows = [];
    }

begin_upload_runs :
    (begin_upload fresh (λ p. p) (λ p. p) 7 long_manifest (calm empty_bucket)).0 ≡ ok begun
unfolding begin_upload transaction statement in_transaction normalize_path begins_slash trim_slashes
    exists_row same_bytes bucket_by_id find_bucket begin_checked bad_manifest file_at first_file
    live_at begin_at insert_file new_version insert_version last_version_no data_shards fill_version
    for insert_manifest_chunk insert_chunk insert_fragment same_int load_planned planned_rows
    order_by by_seq_shard join left_join where_rows has_stored is_live is_stored is_pending
begin_upload_runs = refl

begin_upload-IsPlan_example :
    IsPlan long_manifest empty_bucket begun
      (begin_upload fresh (λ p. p) (λ p. p) 7 long_manifest (calm empty_bucket)).1.tables
begin_upload-IsPlan_example =
    begin_upload-IsPlan fresh long_manifest (λ p. p) (λ p. p) 7 (calm empty_bucket)
      begin_upload_runs

-- The underscore stands for a character of two bytes, too: "/aäb/x" is under "/a_b".
under_folder_of_umlaut :
    under (47 ∷ 97 ∷ 95 ∷ 98 ∷ []) (47 ∷ 97 ∷ 195 ∷ 164 ∷ 98 ∷ 47 ∷ 120 ∷ []) ≡ true
unfolding under like same_bytes
under_folder_of_umlaut = refl
