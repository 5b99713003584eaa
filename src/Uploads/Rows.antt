-- ===== src/Uploads/Rows.antt =====
-- internal/store/store.go and deploy/migrations: the rows that an upload writes.
-- Ids are numbers, since they are only compared; a path, a hash and the encryption metadata are
-- lists of bytes; times are nanoseconds.
use distributed_storage_plat.Common.{
  ℕ, ◌+◌, Bool, true, false, Option, none, some, List, [], ◌∷◌, ◌==◌, ◌||◌, if◌then◌else◌,
}
use distributed_storage_plat.Common.Int.{ℤ}
use distributed_storage_plat.Health.Rows.{Status}

-- `db_error` is any failure that is neither a missing row nor a broken unique constraint.
pub data StoreError : Type 0 where
  not_found conflict invalid incomplete unavailable db_error : StoreError

pub data FileStatus : Type 0 where
  uploading active removed : FileStatus

pub data VersionStatus : Type 0 where
  open_version committed aborted expired : VersionStatus

pub data PlacementStatus : Type 0 where
  pending stored lost expiring deleted : PlacementStatus

-- The columns of a node that downloads, receipts and repair take.
pub record Node : Type 0 where
  pub id : ℕ
  pub public_key : List ℕ
  pub endpoint : List ℕ
  pub status : Status
  pub revoked_at : Option ℕ

pub record Bucket : Type 0 where
  pub id : ℕ
  pub owner_id : ℕ

pub record File : Type 0 where
  pub id : ℕ
  pub bucket_id : ℕ
  pub path : List ℕ
  pub is_folder : Bool
  pub current_version : Option ℕ
  pub status : FileStatus
  pub updated_at : ℕ
  pub deleted_at : Option ℕ

pub record FileVersion : Type 0 where
  pub id : ℕ
  pub file_id : ℕ
  pub version_no : ℕ
  pub size_bytes : ℤ
  pub content_sha256 : List ℕ
  pub encryption_meta : List ℕ
  pub chunk_size : ℤ
  pub ec_data : ℤ
  pub ec_parity : ℤ
  pub status : VersionStatus
  pub committed_at : Option ℕ

pub record Chunk : Type 0 where
  pub id : ℕ
  pub version_id : ℕ
  pub seq : ℤ
  pub size_bytes : ℤ
  pub sha256 : List ℕ

pub record Fragment : Type 0 where
  pub id : ℕ
  pub chunk_id : ℕ
  pub shard_index : ℤ
  pub size_bytes : ℤ
  pub sha256 : List ℕ

pub record Placement : Type 0 where
  pub id : ℕ
  pub fragment_id : ℕ
  pub node_id : ℕ
  pub status : PlacementStatus
  pub stored_at : Option ℕ
  pub last_audit_at : Option ℕ
  pub lost_at : Option ℕ

-- A row of download_tickets.
pub record TicketRow : Type 0 where
  pub nonce : List ℕ
  pub file_id : ℕ
  pub fragment_id : ℕ
  pub node_id : ℕ
  pub size_bytes : ℤ
  pub expires_at : ℕ

-- A row of download_receipts.
pub record ReceiptRow : Type 0 where
  pub nonce : List ℕ
  pub file_id : ℕ
  pub fragment_id : ℕ
  pub node_id : ℕ
  pub bytes : ℤ

-- The tables, the sequence of the ids of placements, and the time of the transaction.
pub record Tables : Type 0 where
  pub buckets : List Bucket
  pub nodes : List Node
  pub files : List File
  pub versions : List FileVersion
  pub chunks : List Chunk
  pub fragments : List Fragment
  pub placements : List Placement
  pub tickets : List TicketRow
  pub receipts : List ReceiptRow
  pub next_placement : ℕ
  pub now : ℕ

unfoldable pub is_open : VersionStatus → Bool
is_open open_version = true
is_open _ = false

unfoldable pub is_committed : VersionStatus → Bool
is_committed committed = true
is_committed _ = false

unfoldable pub is_pending : PlacementStatus → Bool
is_pending pending = true
is_pending _ = false

unfoldable pub is_stored : PlacementStatus → Bool
is_stored stored = true
is_stored _ = false

unfoldable pub is_lost : PlacementStatus → Bool
is_lost lost = true
is_lost _ = false

unfoldable pub is_expiring : PlacementStatus → Bool
is_expiring expiring = true
is_expiring _ = false

-- `status IN ('pending', 'stored')`
unfoldable pub is_live : PlacementStatus → Bool
unfolding is_pending is_stored
is_live s = is_pending s || is_stored s

-- `status IN ('pending', 'stored', 'lost')`
unfoldable pub is_held : PlacementStatus → Bool
unfolding is_live is_lost
is_held s = is_live s || is_lost s

unfoldable pub find_chunk : ℕ → List Chunk → Option Chunk
find_chunk i [] = none
find_chunk i (c ∷ cs) = let rest = find_chunk i cs in if c.id == i then some c else rest

unfoldable pub find_fragment : ℕ → List Fragment → Option Fragment
find_fragment i [] = none
find_fragment i (f ∷ fs) = let rest = find_fragment i fs in if f.id == i then some f else rest

unfoldable pub find_file : ℕ → List File → Option File
find_file i [] = none
find_file i (f ∷ fs) = let rest = find_file i fs in if f.id == i then some f else rest

unfoldable pub find_node : ℕ → List Node → Option Node
find_node i [] = none
find_node i (n ∷ ns) = let rest = find_node i ns in if n.id == i then some n else rest

unfoldable pub find_version : ℕ → List FileVersion → Option FileVersion
find_version i [] = none
find_version i (v ∷ vs) = let rest = find_version i vs in if v.id == i then some v else rest

-- `fragments fr JOIN chunks c ON c.id = fr.chunk_id`, by the id of the fragment: its version.
unfoldable pub version_of : Tables → ℕ → Option ℕ
version_of t f = elim (find_fragment f t.fragments) [
  | none ↦ none
  | some fr ↦ elim (find_chunk fr.chunk_id t.chunks) [ none ↦ none | some c ↦ some c.version_id ]
]

-- `WHERE c.version_id = $1` over that join.
unfoldable pub in_version : Tables → ℕ → ℕ → Bool
unfolding version_of
in_version t v f = elim (version_of t f) [ none ↦ false | some w ↦ w == v ]

module _ {A : Type 0} where
  -- `rows WHERE p`
  unfoldable pub where_rows : (A → Bool) → List A → List A
  where_rows p [] = []
  where_rows p (x ∷ xs) = let rest = where_rows p xs in if p x then x ∷ rest else rest

  -- `count(*) FROM rows WHERE p`
  unfoldable pub count : (A → Bool) → List A → ℕ
  count p [] = 0
  count p (x ∷ xs) = let rest = count p xs in if p x then 1 + rest else rest

  -- `UPDATE rows SET f WHERE p`
  unfoldable pub update_where : (A → Bool) → (A → A) → List A → List A
  update_where p f [] = []
  update_where p f (x ∷ xs) = let rest = update_where p f xs in if p x then f x ∷ rest else x ∷ rest

  unfoldable pub exists_row : (A → Bool) → List A → Bool
  exists_row p [] = false
  exists_row p (x ∷ xs) = let rest = exists_row p xs in if p x then true else rest
