-- ===== src/Uploads/Begin.antt =====
-- internal/store/uploads.go and files.go: `NormalizePath`, `BeginUpload` and `AbortUpload`.
-- `fresh` is gen_random_uuid() over the ids that a table has; `trim_space` is strings.TrimSpace and
-- `clean` is path.Clean.
use distributed_storage_plat.Common.{
  ℕ, ◌+◌, Bool, true, false, ◌&&◌, ◌||◌, not, Option, none, some, List, [], ◌∷◌, ◌++◌, map, ◌==◌,
  ltb, leb, length, if◌then◌else◌, Result, ok, err, pure, raise, lift, ◌>>=◌, ◌>>◌, for,
}
use distributed_storage_plat.Common.Int.{ℤ, pos, leb_ℤ}
use distributed_storage_plat.Common.Bytes.{same_bytes}
use distributed_storage_plat.Common.Database.{select, exec, statement, transaction}
use distributed_storage_plat.Uploads.Rows.{
  StoreError, conflict, invalid, db_error, FileStatus, uploading, active, open_version, aborted,
  Bucket, File, FileVersion, Chunk, Fragment, Placement, Tables, is_open, is_stored, in_version,
  count, update_where, exists_row,
}
use distributed_storage_plat.Uploads.Placements.{drop_pending}
use distributed_storage_plat.Uploads.Planned.{
  ManifestFragment, ManifestChunk, UploadManifest, PlannedUpload, Run, row, load_planned,
}

-- `bucket_id = $1 AND path = $2 AND deleted_at IS NULL`
unfoldable pub live_at : ℕ → List ℕ → File → Bool
live_at b path f =
    let live : Bool = elim f.deleted_at [ none ↦ true | some _ ↦ false ] in
    f.bucket_id == b && (same_bytes f.path path && live)

unfoldable pub first_file : (File → Bool) → List File → Option File
first_file q [] = none
first_file q (f ∷ fs) = let rest = first_file q fs in if q f then some f else rest

unfoldable pub is_uploading : FileStatus → Bool
is_uploading uploading = true
is_uploading _ = false

unfoldable pub is_active : FileStatus → Bool
is_active active = true
is_active _ = false

unfoldable pub later : FileVersion → Option FileVersion → FileVersion
later v none = v
later v (some w) = if leb w.version_no v.version_no then v else w

-- `WHERE file_id = $1 AND status = 'pending' ORDER BY version_no DESC LIMIT 1`
unfoldable pub latest_open : ℕ → List FileVersion → Option FileVersion
latest_open f [] = none
latest_open f (v ∷ vs) =
    let rest = latest_open f vs in
    if v.file_id == f && is_open v.status then some (later v rest) else rest

-- `COALESCE(MAX(version_no), 0)`
unfoldable pub last_version_no : ℕ → List FileVersion → ℕ
last_version_no f [] = 0
last_version_no f (v ∷ vs) =
    let rest = last_version_no f vs in
    if v.file_id == f then (if leb rest v.version_no then v.version_no else rest) else rest

unfoldable pub begins_slash : List ℕ → Bool
begins_slash [] = false
begins_slash (c ∷ cs) = c == 47

trim_last : ℕ → List ℕ → List ℕ
trim_last c [] = if c == 47 then [] else c ∷ []
trim_last c (d ∷ ds) = c ∷ d ∷ ds

-- `strings.TrimRight(p, "/")`
unfoldable pub trim_slashes : List ℕ → List ℕ
unfolding trim_last
trim_slashes [] = []
trim_slashes (c ∷ cs) = trim_last c (trim_slashes cs)

unfoldable pub normalize_path :
    (List ℕ → List ℕ) → (List ℕ → List ℕ) → List ℕ → Result StoreError (List ℕ)
unfolding begins_slash trim_slashes
normalize_path trim_space clean raw =
    let p = trim_space raw in
    let trimmed = trim_slashes p in
    if not (begins_slash p)
    then err invalid
    else if exists_row (λ (c : ℕ). c == 0) p
    then err invalid
    else if length trimmed == 0
    then err invalid
    else if same_bytes (clean trimmed) trimmed
    then ok (clean trimmed)
    else err invalid

-- `WHERE id = $1 AND owner_id = $2`
unfoldable pub find_bucket : ℕ → ℕ → List Bucket → Option Bucket
find_bucket owner i [] = none
find_bucket owner i (b ∷ bs) =
    let rest = find_bucket owner i bs in if b.id == i && b.owner_id == owner then some b else rest

-- `BucketByID`
unfoldable pub bucket_by_id : ℕ → ℕ → Run Bucket
bucket_by_id owner b = select db_error (λ (t : Tables). row (find_bucket owner b t.buckets))

-- `FileByID`, `FileByPath`: a live file in a bucket of the owner.
unfoldable pub owns : ℕ → File → Tables → Bool
owns owner f t = elim (find_bucket owner f.bucket_id t.buckets) [ none ↦ false | some _ ↦ true ]

unfoldable pub is_gone : File → Bool
is_gone f = elim f.deleted_at [ none ↦ false | some _ ↦ true ]

unfoldable pub file_by_id : ℕ → ℕ → Run File
unfolding owns is_gone
file_by_id owner i = select db_error (λ (t : Tables).
    row (first_file (λ (f : File). f.id == i && (owns owner f t && not (is_gone f))) t.files))

unfoldable pub file_by_path : (List ℕ → List ℕ) → (List ℕ → List ℕ) → ℕ → ℕ → List ℕ → Run File
unfolding owns normalize_path
file_by_path trim_space clean owner b raw = lift (normalize_path trim_space clean raw) >>= λ path.
    select db_error
      (λ (t : Tables). row (first_file (λ (f : File). live_at b path f && owns owner f t) t.files))

-- The checks of the manifest before the transaction.
unfoldable pub bad_manifest : UploadManifest → Bool
bad_manifest m =
    leb_ℤ m.chunk_size (pos 0) || (length m.chunks == 0 || not (length m.content_sha256 == 32))

-- `if m.ECData <= 0 { m.ECData = 1 }`
unfoldable pub data_shards : UploadManifest → ℤ
data_shards m = if leb_ℤ m.ec_data (pos 0) then pos 1 else m.ec_data

-- `SELECT ... FROM files`, where no row is no error.
unfoldable pub file_at : ℕ → List ℕ → Run (Option File)
file_at b path = select db_error (λ (t : Tables). ok (first_file (live_at b path) t.files))

unfoldable pub pending_version : ℕ → Run (Option FileVersion)
pending_version f = select db_error (λ (t : Tables). ok (latest_open f t.versions))

unfoldable pub same_int : ℤ → ℤ → Bool
same_int a b = leb_ℤ a b && leb_ℤ b a

module _ (fresh : List ℕ → ℕ) where
  -- The unique index on live paths is checked as well.
  unfoldable pub insert_file : ℕ → List ℕ → Run File
  insert_file b path = statement db_error (λ (t : Tables).
      let f : File = record {
        id = fresh (map (λ (g : File). g.id) t.files);
        bucket_id = b;
        path = path;
        is_folder = false;
        current_version = none;
        status = uploading;
        updated_at = t.now;
        deleted_at = none;
      } in
      if exists_row (live_at b path) t.files
      then err conflict
      else ok (f, record t { files = t.files ++ f ∷ [] }))

  -- `version_no` is one more than any of the file, so its unique constraint cannot break.
  unfoldable pub insert_version : File → UploadManifest → Run FileVersion
  insert_version f m = statement db_error (λ (t : Tables).
      let v : FileVersion = record {
        id = fresh (map (λ (w : FileVersion). w.id) t.versions);
        file_id = f.id;
        version_no = last_version_no f.id t.versions + 1;
        size_bytes = m.size_bytes;
        content_sha256 = m.content_sha256;
        encryption_meta = m.encryption_meta;
        chunk_size = m.chunk_size;
        ec_data = data_shards m;
        ec_parity = m.ec_parity;
        status = open_version;
        committed_at = none;
      } in
      ok (v, record t { versions = t.versions ++ v ∷ [] }))

  -- UNIQUE (version_id, seq)
  unfoldable pub insert_chunk : ℕ → ManifestChunk → Run Chunk
  insert_chunk v ch = statement db_error (λ (t : Tables).
      let c : Chunk = record {
        id = fresh (map (λ (d : Chunk). d.id) t.chunks);
        version_id = v;
        seq = ch.seq;
        size_bytes = ch.size_bytes;
        sha256 = ch.sha256;
      } in
      if exists_row (λ (d : Chunk). d.version_id == v && same_int d.seq ch.seq) t.chunks
      then err conflict
      else ok (c, record t { chunks = t.chunks ++ c ∷ [] }))

  -- UNIQUE (chunk_id, shard_index)
  unfoldable pub insert_fragment : ℕ → ManifestFragment → Run (Unit {0})
  insert_fragment c fr = statement db_error (λ (t : Tables).
      let row : Fragment = record {
        id = fresh (map (λ (g : Fragment). g.id) t.fragments);
        chunk_id = c;
        shard_index = fr.shard_index;
        size_bytes = fr.size_bytes;
        sha256 = fr.sha256;
      } in
      if exists_row (λ (g : Fragment). g.chunk_id == c && same_int g.shard_index fr.shard_index)
        t.fragments
      then err conflict
      else ok (tt, record t { fragments = t.fragments ++ row ∷ [] }))

  unfoldable pub insert_manifest_chunk : ℕ → ManifestChunk → Run (Unit {0})
  insert_manifest_chunk v ch = insert_chunk v ch >>= λ c.
      if length ch.fragments == 0 then raise invalid else for (insert_fragment c.id) ch.fragments

  -- The rest of `BeginUpload` once the version is there.
  unfoldable pub fill_version : File → UploadManifest → FileVersion → Run PlannedUpload
  fill_version f m v = for (insert_manifest_chunk v.id) m.chunks >> load_planned f v false

  unfoldable pub new_version : File → UploadManifest → Run PlannedUpload
  new_version f m = insert_version f m >>= fill_version f m

  -- A pending version is resumed for the same content.
  unfoldable pub resume_or_new : File → UploadManifest → Option FileVersion → Run PlannedUpload
  resume_or_new f m none = new_version f m
  resume_or_new f m (some v) =
      if same_bytes v.content_sha256 m.content_sha256 then load_planned f v true else raise conflict

  unfoldable pub begin_at : List ℕ → UploadManifest → Option File → Run PlannedUpload
  begin_at path m none = insert_file m.bucket_id path >>= λ f. new_version f m
  begin_at path m (some f) =
      if is_active f.status || f.is_folder
      then raise conflict
      else if is_uploading f.status
      then pending_version f.id >>= resume_or_new f m
      else new_version f m

  unfoldable pub begin_checked : UploadManifest → List ℕ → Run PlannedUpload
  begin_checked m path =
      if bad_manifest m
      then raise invalid
      else transaction db_error (file_at m.bucket_id path >>= begin_at path m)

  unfoldable pub begin_upload :
      (List ℕ → List ℕ) → (List ℕ → List ℕ) → ℕ → UploadManifest → Run PlannedUpload
  begin_upload trim_space clean owner m = lift (normalize_path trim_space clean m.path) >>= λ path.
      bucket_by_id owner m.bucket_id >> begin_checked m path

-- The tables when nothing of the version is stored.
unfoldable pub mark_aborted : ℕ → Tables → Tables
mark_aborted v t = record t {
  versions =
      update_where (λ (w : FileVersion). w.id == v && is_open w.status)
        (λ (w : FileVersion). record w { status = aborted }) t.versions;
}

-- `count(*)` of the stored placements of the version.
unfoldable pub stored_in : ℕ → Tables → ℕ
stored_in v t =
    count (λ (p : Placement). in_version t v p.fragment_id && is_stored p.status) t.placements

unfoldable pub abort_upload : ℕ → Run (Unit {0})
abort_upload v = transaction db_error (
    exec db_error (λ (t : Tables). drop_pending (in_version t v) t)
    >> (select db_error (λ (t : Tables). ok (stored_in v t)) >>= λ stored.
        if ltb 0 stored then pure tt else exec db_error (mark_aborted v)))
