-- ===== src/Metadata/Examples.antt =====
-- Tests and witnesses for receipts and download plans.
use distributed_storage_plat.Common.{
  min, none, ◌+◌, ◌==◌, ◌&&◌, Option, for, ℕ, ◌≤◌, ◌≡◌, refl, false, some, List, [], ◌∷◌, ◌++◌, map,
  length, All, ok, Result,
}
use distributed_storage_plat.Common.Int.{ℤ, pos}
use distributed_storage_plat.Common.Bytes.{same_bytes, index_byte, be}
use distributed_storage_plat.Common.Database.{in_transaction, statement, transaction, Session, calm}
use distributed_storage_plat.Health.Rows.{same_status}
use distributed_storage_plat.Tickets.Examples.{plain, sums, bytes}
use distributed_storage_plat.Receipts.Receipt.{
  verify, encode, match_check, parse, decode, Receipt, seal,
}
use distributed_storage_plat.Uploads.Rows.{
  Chunk, exists_row, is_live, is_pending, update_where, is_open, in_version, find_node,
  is_committed, find_file, count, version_of, find_version, is_stored, find_chunk, where_rows,
  find_fragment, Fragment, Placement, Node, Tables, StoreError, stored,
}
use distributed_storage_plat.Uploads.Fixtures.{
  version, long_manifest, file, empty_bucket, fresh, numbers, chunk, fragment, copy, node, planned,
  done, done_file,
}
use distributed_storage_plat.Uploads.Commit.{
  commit_found, has_fragment, short_chunks, targets_for_version, check_and_commit, version_by_id,
  confirm_row, target_of, owned_version, finish_commit, activate_file, set_active, stored_copies,
  set_committed, is_short, count_short, commit_version, commit_pending, mark_file, PlacementTarget,
  pending_targets_for_version, commit_upload,
}
use distributed_storage_plat.Uploads.Download.{
  add_download_row, group_rows, committed_version, download_rows, load_current, DownloadPlacement,
  DownloadChunk, load_download,
}
use distributed_storage_plat.Metadata.Receive.{
  by_frag, match_receipt, already_stored, put_target, accepts, commit_received, match_receipts,
  receive_upload,
}
use distributed_storage_plat.Metadata.Received.{IsVisit, Backed, receive_upload-Backed}
use distributed_storage_plat.Metadata.Download.{
  plan_fragments, plan_loaded, plan_chunks, record_ticket, online_placements, rest_placements,
  max_plan_fragments, PlannedChunk, DownloadResult, is_barred, pick_download_placements,
  shards_needed, planned_fragment, planned_chunk, plan_download,
}
use distributed_storage_plat.Uploads.Begin.{
  begins_slash, trim_slashes, fill_version, insert_fragment, live_at, file_at, bucket_by_id,
  insert_manifest_chunk, begin_checked, insert_version, last_version_no, bad_manifest, insert_file,
  insert_chunk, data_shards, begin_at, new_version, begin_upload, normalize_path, same_int,
  first_file, is_gone, owns, file_by_id, find_bucket,
}
use distributed_storage_plat.Uploads.Placements.{
  insert_pending, at_key, mem_id, confirm_fragment, confirmed,
}
use distributed_storage_plat.Uploads.Planned.{
  PlannedFragment, PlannedUpload, UploadManifest, insert_placements, has_stored, load_planned,
  planned_rows, left_join, order_by, by_seq_shard, join,
}
use distributed_storage_plat.Uploads.Delete.{checked}
use distributed_storage_plat.Tickets.Sign.{decode_unverified}
use distributed_storage_plat.Tickets.Wire.{decode_wire, encode_wire}
use mathlib.Core.List.{Memᴰ}
use distributed_storage_plat.Metadata.Plan.{
  PlaceAssign, PlanResult, PlaceNeed, assigned, put_tickets, earlier, plan_body, any_short,
  add_placed, finish_plan, or_abort, node_for, planned_placement, needs_of, is_placed, place_needs,
  per_chunk, plan_upload,
}
use distributed_storage_plat.Metadata.Planned.{plan_upload-covers, has_ticket}
use distributed_storage_plat.Metadata.Downloads.{
  allowed, fragments_in, pick_download_placements-enough, plan_download-bounds,
}

abbrev signer : ℕ → Node
signer n = record (node n) { public_key = bytes 32 6 }

abbrev hashed : ℕ → Fragment
hashed n = record (fragment n) { sha256 = bytes 32 3 }

abbrev held : ℕ → Placement
held n = record (copy n) { status = stored; stored_at = some 900 }

-- Thirteen fragments are stored, and the receipt for the last has come.
abbrev waiting : Tables
waiting = record planned {
  nodes = map signer numbers;
  fragments = map hashed numbers;
  placements =
      map held (1 ∷ 2 ∷ 3 ∷ 4 ∷ 5 ∷ 6 ∷ 7 ∷ 8 ∷ 9 ∷ 10 ∷ 11 ∷ 12 ∷ 13 ∷ []) ++ copy 14 ∷ [];
}

abbrev receipt : Receipt
receipt = record {
  node_id = be 16 34;
  fragment_id = be 16 14;
  sha256 = bytes 32 3;
  size = 10;
  stored_at = record { sec = pos 1900; nsec = 5 };
  nonce = [];
  raw = [];
}

abbrev wires : List (List ℕ)
wires = (seal sums plain (bytes 32 6) receipt).raw ∷ []

abbrev in_order : ℕ → List PlacementTarget → List PlacementTarget
in_order n ts = ts

in_order-IsVisit : IsVisit in_order
in_order-IsVisit = record { visits = λ n ts m. m }

received : (receive_upload sums plain in_order 7 3 wires (calm waiting)).0 ≡ ok (done_file, done)
unfolding receive_upload commit_received pending_targets_for_version targets_for_version target_of
    in_version version_of is_live where_rows find_node by_frag put_target already_stored
    match_receipts match_receipt mem_id accepts verify parse checked match_check seal encode decode
    encode_wire decode_wire be same_bytes index_byte commit_upload transaction statement
    in_transaction version_by_id owned_version find_version find_file find_fragment find_chunk
    find_bucket owns is_gone commit_found commit_pending check_and_commit finish_commit mark_file
    count_short confirm_row confirm_fragment confirmed for update_where is_pending is_stored is_open
    is_committed short_chunks is_short count has_fragment stored_copies commit_version set_committed
    activate_file set_active join
received = refl

receive_upload-Backed_example :
    (ids : List ℕ) × (targets : List PlacementTarget) × (t : Session Tables)
    × ((pending_targets_for_version 3 (calm waiting)).0 ≡ ok targets)
    × All (Backed sums plain targets wires) ids
    × ((commit_upload 7 3 ids t).0 ≡ ok (done_file, done))
    × (receive_upload sums plain in_order 7 3 wires (calm waiting) ≡ commit_upload 7 3 ids t)
receive_upload-Backed_example =
    receive_upload-Backed sums plain in_order in_order-IsVisit 7 3 wires (calm waiting) received

abbrev at_node : ℕ → DownloadPlacement
at_node n = record { fragment = hashed n; node = signer n }

pick_download_placements-enough_example :
    All
      (λ (p : DownloadPlacement). is_barred p.node ≡ false)
      (pick_download_placements (map at_node numbers) 10)
    × (min 10 (count allowed (map at_node numbers))
        ≤ length (pick_download_placements (map at_node numbers) 10))
pick_download_placements-enough_example = pick_download_placements-enough (map at_node numbers) 10

abbrev shared : Tables
shared = record waiting {
  files = done_file ∷ [];
  versions = done ∷ [];
  placements = map held numbers;
}

abbrev loaded_chunk : DownloadChunk
loaded_chunk = record { chunk = chunk; placements = map at_node numbers }

loaded : (load_download 7 2 (calm shared)).0 ≡ ok (done_file, done, loaded_chunk ∷ [])
unfolding load_download file_by_id first_file owns is_gone find_bucket load_current
    committed_version statement find_version is_committed download_rows join where_rows order_by
    by_seq_shard group_rows add_download_row same_int find_node is_stored
loaded = refl

abbrev no_ticket : ℕ → ℕ → ℕ → List ℕ → ℤ → Result StoreError (List ℕ × ℕ)
no_ticket n f d sha size = ok ([], 0)

abbrev plan : DownloadResult
plan = record {
  file_id = 2;
  version_no = 1;
  size_bytes = pos 100;
  content_sha256 = done.content_sha256;
  encryption_meta = [];
  chunks = planned_chunk chunk (map (λ n. planned_fragment (at_node n) []) numbers) ∷ [];
}

plan_is_made : (plan_download sums plain no_ticket 7 2 (calm shared)).0 ≡ ok plan
unfolding plan_download plan_loaded plan_chunks plan_fragments planned_fragment planned_chunk
    pick_download_placements online_placements rest_placements is_barred same_status shards_needed
    record_ticket decode_unverified decode_wire index_byte load_download file_by_id first_file owns
    is_gone find_bucket load_current committed_version statement find_version is_committed
    download_rows join where_rows order_by by_seq_shard group_rows add_download_row same_int
    find_node is_stored
plan_is_made = refl

plan_download-bounds_example :
    All (λ (c : PlannedChunk). shards_needed done ≤ length c.fragments) plan.chunks
    × (fragments_in plan.chunks ≤ max_plan_fragments)
plan_download-bounds_example =
    plan_download-bounds sums plain no_ticket 7 2 (calm shared) loaded plan_is_made

-- An upload of one chunk of fourteen fragments, all placed on one node.
abbrev wide_manifest : UploadManifest
wide_manifest = record long_manifest {
  chunks =
      (record {
        seq = pos 0;
        size_bytes = pos 100;
        sha256 = [];
        fragments =
            map (λ n. record { shard_index = pos n; size_bytes = pos 10; sha256 = [] }) numbers;
      })
      ∷ [];
}

abbrev new_chunk : Chunk
new_chunk = record { id = 100; version_id = 100; seq = pos 0; size_bytes = pos 100; sha256 = [] }

abbrev new_row : ℕ → PlannedFragment
new_row n = record {
  chunk = new_chunk;
  fragment = record {
    id = 99 + n;
    chunk_id = 100;
    shard_index = pos n;
    size_bytes = pos 10;
    sha256 = [];
  };
  placement = none;
}

abbrev new_upload : PlannedUpload
new_upload = record {
  file = record file { id = 100; updated_at = 1000 };
  version = record version {
    id = 100;
    file_id = 100;
    content_sha256 = long_manifest.content_sha256;
  };
  resume = false;
  pending_rows = map new_row numbers;
  stored_rows = [];
}

new_upload_begins :
    (begin_upload fresh (λ p. p) (λ p. p) 7 wide_manifest (calm empty_bucket)).0 ≡ ok new_upload
unfolding begin_upload transaction statement in_transaction normalize_path begins_slash trim_slashes
    exists_row same_bytes bucket_by_id find_bucket begin_checked bad_manifest file_at first_file
    live_at begin_at insert_file new_version insert_version last_version_no data_shards fill_version
    for insert_manifest_chunk insert_chunk insert_fragment same_int load_planned planned_rows
    order_by by_seq_shard join left_join where_rows has_stored is_live is_stored is_pending
new_upload_begins = refl

abbrev on_first : List PlaceNeed → Option (List PlaceAssign)
on_first needs =
    some (map (λ (nd : PlaceNeed). record { fragment_id = nd.fragment_id; node = node 1 }) needs)

abbrev new_plan : PlanResult
new_plan = record {
  upload_id = 100;
  file_id = 100;
  expires_at = some 0;
  placements = map (λ n. planned_placement (new_row n) (node 1) []) numbers;
}

new_plan_is_made :
    (plan_upload no_ticket on_first fresh
      (λ p. p)
      (λ p. p)
      (ok tt)
      7
      wide_manifest
      (calm empty_bucket)).0
    ≡ ok new_plan
unfolding begin_upload transaction statement in_transaction normalize_path begins_slash trim_slashes
    exists_row same_bytes bucket_by_id find_bucket begin_checked bad_manifest file_at first_file
    live_at begin_at insert_file new_version insert_version last_version_no data_shards fill_version
    for insert_manifest_chunk insert_chunk insert_fragment same_int load_planned planned_rows
    order_by by_seq_shard join left_join where_rows has_stored is_live is_stored is_pending
    plan_upload or_abort plan_body place_needs needs_of insert_placements find_node find_fragment
    insert_pending at_key assigned add_placed finish_plan any_short per_chunk is_placed node_for
    count put_tickets planned_placement earlier
new_plan_is_made = refl

plan_upload-covers_example :
    (14
      ≤ count (λ (x : PlannedFragment). x.chunk.id == 100) new_upload.stored_rows
        + count
            (λ (x : PlannedFragment). x.chunk.id == 100 && has_ticket new_plan.placements x)
            new_upload.pending_rows)
    × (length new_plan.placements ≤ max_plan_fragments)
plan_upload-covers_example =
    plan_upload-covers no_ticket on_first fresh (λ p. p) (λ p. p) (ok tt) 7 wide_manifest
      (calm empty_bucket) (new_row 1) new_upload_begins new_plan_is_made (Memᴰ.head refl)

abbrev nowhere : List PlaceNeed → Option (List PlaceAssign)
nowhere needs = none

abbrev begun : Session Tables
begun = (begin_upload fresh (λ p. p) (λ p. p) 7 wide_manifest (calm empty_bucket)).1
