-- ===== src/Uploads/Fixtures.antt =====
-- Rows and manifests that the tests of uploads, of metadata and of repair run on.
use distributed_storage_plat.Common.{◌++◌, ℕ, ◌+◌, false, none, some, List, [], ◌∷◌, map, length}
use distributed_storage_plat.Common.Int.{pos}
use distributed_storage_plat.Health.Rows.{online}
use distributed_storage_plat.Uploads.Rows.{
  File, FileVersion, Chunk, Fragment, Placement, Node, Tables, uploading, active, open_version,
  committed, pending,
}
use distributed_storage_plat.Uploads.Planned.{UploadManifest}

-- Bucket 1 of owner 7 has the file 2 at "/f", with the open version 3 of one chunk 4 of fourteen
-- fragments, each planned on one node.
abbrev pub path : List ℕ
path = 47 ∷ 102 ∷ []

abbrev pub numbers : List ℕ
numbers = 1 ∷ 2 ∷ 3 ∷ 4 ∷ 5 ∷ 6 ∷ 7 ∷ 8 ∷ 9 ∷ 10 ∷ 11 ∷ 12 ∷ 13 ∷ 14 ∷ []

abbrev pub file : File
file = record {
  id = 2;
  bucket_id = 1;
  path = path;
  is_folder = false;
  current_version = none;
  status = uploading;
  updated_at = 0;
  deleted_at = none;
}

abbrev pub hash : List ℕ
hash = map (λ n. n) (numbers)

abbrev pub version : FileVersion
version = record {
  id = 3;
  file_id = 2;
  version_no = 1;
  size_bytes = pos 100;
  content_sha256 = hash;
  encryption_meta = [];
  chunk_size = pos 100;
  ec_data = pos 10;
  ec_parity = pos 6;
  status = open_version;
  committed_at = none;
}

abbrev pub chunk : Chunk
chunk = record { id = 4; version_id = 3; seq = pos 0; size_bytes = pos 100; sha256 = [] }

abbrev pub fragment : ℕ → Fragment
fragment n = record { id = n; chunk_id = 4; shard_index = pos n; size_bytes = pos 10; sha256 = [] }

abbrev pub copy : ℕ → Placement
copy n = record {
  id = n;
  fragment_id = n;
  node_id = 20 + n;
  status = pending;
  stored_at = none;
  last_audit_at = none;
  lost_at = none;
}

abbrev pub node : ℕ → Node
node n = record { id = 20 + n; public_key = []; endpoint = []; status = online; revoked_at = none }

abbrev pub planned : Tables
planned = record {
  buckets = (record { id = 1; owner_id = 7 }) ∷ [];
  nodes = map node numbers;
  files = file ∷ [];
  versions = version ∷ [];
  chunks = chunk ∷ [];
  fragments = map fragment numbers;
  placements = map copy numbers;
  tickets = [];
  receipts = [];
  next_placement = 15;
  now = 1000;
}

-- The row of a committed version.
abbrev pub done : FileVersion
done = record version { status = committed; committed_at = some 1000 }

abbrev pub done_file : File
done_file = record file { status = active; current_version = some 3 }

abbrev pub fresh : List ℕ → ℕ
fresh ids = length ids + 100

abbrev pub manifest : UploadManifest
manifest = record {
  bucket_id = 1;
  path = path;
  size_bytes = pos 100;
  content_sha256 = hash;
  encryption_meta = [];
  chunk_size = pos 100;
  ec_data = pos 10;
  ec_parity = pos 6;
  chunks =
      (record {
        seq = pos 0;
        size_bytes = pos 100;
        sha256 = [];
        fragments = (record { shard_index = pos 0; size_bytes = pos 10; sha256 = [] }) ∷ [];
      })
      ∷ [];
}

-- The manifest's hash has 32 bytes.
abbrev pub long_manifest : UploadManifest
long_manifest = record manifest { content_sha256 = numbers ++ numbers ++ (1 ∷ 2 ∷ 3 ∷ 4 ∷ []) }

abbrev pub empty_bucket : Tables
empty_bucket = record planned {
  files = [];
  versions = [];
  chunks = [];
  fragments = [];
  placements = [];
}
