-- ===== src/Uploads/Planned.antt =====
-- internal/store/uploads.go: manifests, `loadPlanned` and `InsertPlacements`.
use distributed_storage_plat.Common.{
  ℕ, Bool, false, ◌&&◌, ◌||◌, not, Option, none, some, List, [], ◌∷◌, ◌++◌, map, ◌==◌,
  if◌then◌else◌, Result, ok, err, for,
}
use distributed_storage_plat.Common.Int.{ℤ, ltb_ℤ}
use distributed_storage_plat.Common.Database.{Query, select, statement}
use distributed_storage_plat.Uploads.Rows.{
  StoreError, not_found, db_error, File, FileVersion, Chunk, Fragment, Placement, Tables, is_stored,
  is_live, where_rows, find_fragment, find_node,
}
use distributed_storage_plat.Uploads.Placements.{insert_pending}

pub record ManifestFragment : Type 0 where
  pub shard_index : ℤ
  pub size_bytes : ℤ
  pub sha256 : List ℕ

pub record ManifestChunk : Type 0 where
  pub seq : ℤ
  pub size_bytes : ℤ
  pub sha256 : List ℕ
  pub fragments : List ManifestFragment

pub record UploadManifest : Type 0 where
  pub bucket_id : ℕ
  pub path : List ℕ
  pub size_bytes : ℤ
  pub content_sha256 : List ℕ
  pub encryption_meta : List ℕ
  pub chunk_size : ℤ
  pub ec_data : ℤ
  pub ec_parity : ℤ
  pub chunks : List ManifestChunk

-- `ChunkSeq` and `ShardIndex` repeat the columns of the chunk and the fragment.
pub record PlannedFragment : Type 0 where
  pub chunk : Chunk
  pub fragment : Fragment
  pub placement : Option Placement

pub record PlannedUpload : Type 0 where
  pub file : File
  pub version : FileVersion
  pub resume : Bool
  pub pending_rows : List PlannedFragment
  pub stored_rows : List PlannedFragment

abbrev pub Run : Type 0 → Type 0
Run A = Query Tables StoreError A

-- The answer of `QueryRow`: no row is ErrNotFound.
abbrev pub row {ℓ} : {A : Type ℓ} → Option A → Result StoreError A
row none = err not_found
row (some a) = ok a

-- The pairs of a join.
unfoldable pub join : {A B : Type 0} → (A → List B) → List A → List B
join f [] = []
join f (x ∷ xs) = f x ++ join f xs

module _ {A : Type 0} (before : A → A → Bool) where
  insert_sorted : A → List A → List A
  insert_sorted x [] = x ∷ []
  insert_sorted x (y ∷ ys) =
      let rest = insert_sorted x ys in if before y x then y ∷ rest else x ∷ y ∷ ys

  -- ORDER BY
  unfoldable pub order_by : List A → List A
  unfolding insert_sorted
  order_by [] = []
  order_by (x ∷ xs) = insert_sorted x (order_by xs)

-- ORDER BY c.seq, fr.shard_index
unfoldable pub by_seq_shard : PlannedFragment → PlannedFragment → Bool
by_seq_shard a b =
    ltb_ℤ a.chunk.seq b.chunk.seq
    || (not (ltb_ℤ b.chunk.seq a.chunk.seq) && ltb_ℤ a.fragment.shard_index b.fragment.shard_index)

-- The LEFT JOIN: a row without a placement, or one for each.
unfoldable pub left_join : Chunk → Fragment → List Placement → List PlannedFragment
left_join c fr [] = (record { chunk = c; fragment = fr; placement = none }) ∷ []
left_join c fr (p ∷ ps) =
    map (λ (q : Placement). record { chunk = c; fragment = fr; placement = some q }) (p ∷ ps)

unfoldable pub planned_rows : ℕ → Tables → List PlannedFragment
planned_rows v t = order_by by_seq_shard (
    join
      (λ (c : Chunk).
        join
          (λ (fr : Fragment). left_join c fr (
            where_rows (λ (p : Placement). p.fragment_id == fr.id && is_live p.status)
              t.placements))
          (where_rows (λ (fr : Fragment). fr.chunk_id == c.id) t.fragments))
      (where_rows (λ (c : Chunk). c.version_id == v) t.chunks))

-- `pl.Status == "stored"`
unfoldable pub has_stored : PlannedFragment → Bool
has_stored pf = elim pf.placement [ none ↦ false | some p ↦ is_stored p.status ]

unfoldable pub load_planned : File → FileVersion → Bool → Run PlannedUpload
load_planned f v resume = select db_error (λ (t : Tables).
    let rows = planned_rows v.id t in
    ok (record {
      file = f;
      version = v;
      resume = resume;
      pending_rows = where_rows (λ (pf : PlannedFragment). not (has_stored pf)) rows;
      stored_rows = where_rows has_stored rows;
    }))

-- One INSERT for each pair; a fragment or a node that is not there breaks a foreign key.
unfoldable pub insert_placements : List (ℕ × ℕ) → Run (Unit {0})
insert_placements = for (λ ((f, n) : ℕ × ℕ). statement db_error (λ (t : Tables).
    elim (find_fragment f t.fragments) [
      | none ↦ err db_error
      | some _ ↦ elim (find_node n t.nodes) [
        | none ↦ err db_error
        | some _ ↦ ok (tt, insert_pending f n t)
      ]
    ]))
