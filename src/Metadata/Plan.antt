-- ===== src/Metadata/Plan.antt =====
-- internal/metadata/upload.go: `PlanUpload`.
-- `quota` is the answer of `QuotaCheck`, `place` that of the scheduler, and `sign_ticket` the
-- signing of the n-th ticket of the call. The audit row, whose error is dropped, is left out.
use distributed_storage_plat.Common.{
  ℕ, ◌+◌, Bool, true, false, ◌&&◌, Option, none, some, List, [], ◌∷◌, ◌++◌, map, length, ◌==◌, ltb,
  min, if◌then◌else◌, Result, ok, err, pure, raise, lift, ◌>>=◌, ◌>>◌,
}
use distributed_storage_plat.Common.Int.{ℤ}
use distributed_storage_plat.Common.Database.{select}
use distributed_storage_plat.Uploads.Rows.{
  StoreError, invalid, unavailable, db_error, Node, Tables, find_node, count,
}
use distributed_storage_plat.Uploads.Planned.{
  UploadManifest, PlannedFragment, PlannedUpload, Run, row, insert_placements,
}
use distributed_storage_plat.Uploads.Begin.{begin_upload, abort_upload}
use distributed_storage_plat.Uploads.Commit.{commit_threshold}
use distributed_storage_plat.Metadata.Download.{max_plan_fragments}

pub record PlaceNeed : Type 0 where
  pub fragment_id : ℕ
  pub chunk_id : ℕ
  pub size_bytes : ℤ

pub record PlaceAssign : Type 0 where
  pub fragment_id : ℕ
  pub node : Node

pub record PlannedPlacement : Type 0 where
  pub chunk_seq : ℤ
  pub shard_index : ℤ
  pub fragment_id : ℕ
  pub node_id : ℕ
  pub endpoint : List ℕ
  pub ticket : List ℕ

-- `none` is the zero time.
pub record PlanResult : Type 0 where
  pub upload_id : ℕ
  pub file_id : ℕ
  pub expires_at : Option ℕ
  pub placements : List PlannedPlacement

-- The rows without a placement.
unfoldable pub needs_of : List PlannedFragment → List PlaceNeed
needs_of [] = []
needs_of (pf ∷ pfs) =
    let rest = needs_of pfs in
    elim pf.placement [
      | some _ ↦ rest
      | none ↦
          (record {
            fragment_id = pf.fragment.id;
            chunk_id = pf.chunk.id;
            size_bytes = pf.fragment.size_bytes;
          })
          ∷ rest
    ]

-- `byFrag`: the last entry for a key counts, so it stands first.
unfoldable pub node_for : List (ℕ × Node) → ℕ → Option Node
node_for [] f = none
node_for ((g, n) ∷ rest) f = let later = node_for rest f in if g == f then some n else later

unfoldable pub assigned : List (ℕ × Node) → List PlaceAssign → List (ℕ × Node)
assigned acc [] = acc
assigned acc (a ∷ as') = assigned ((a.fragment_id, a.node) ∷ acc) as'

unfoldable pub add_placed : List (ℕ × Node) → List PlannedFragment → Run (List (ℕ × Node))
add_placed acc [] = pure acc
add_placed acc (pf ∷ pfs) = elim pf.placement [
  | none ↦ add_placed acc pfs
  | some p ↦ select db_error (λ (t : Tables). row (find_node p.node_id t.nodes)) >>= λ n.
      add_placed ((pf.fragment.id, n) ∷ acc) pfs
]

unfoldable pub is_placed : List (ℕ × Node) → PlannedFragment → Bool
is_placed by pf = elim (node_for by pf.fragment.id) [ none ↦ false | some _ ↦ true ]

-- `perChunk[id]`
unfoldable pub per_chunk : List (ℕ × Node) → PlannedUpload → ℕ → ℕ
per_chunk by planned c =
    count (λ (pf : PlannedFragment). pf.chunk.id == c) planned.stored_rows
    + count (λ (pf : PlannedFragment). pf.chunk.id == c && is_placed by pf) planned.pending_rows

-- The loop over `chunks`, through the rows that put them there.
unfoldable pub any_short : List (ℕ × Node) → PlannedUpload → List PlannedFragment → Bool
any_short by planned [] = false
any_short by planned (pf ∷ pfs) =
    let rest = any_short by planned pfs in
    if ltb (per_chunk by planned pf.chunk.id) commit_threshold then true else rest

unfoldable pub earlier : ℕ → Option ℕ → Option ℕ
earlier t none = some t
earlier t (some u) = some (min t u)

unfoldable pub planned_placement : PlannedFragment → Node → List ℕ → PlannedPlacement
planned_placement pf n wire = record {
  chunk_seq = pf.chunk.seq;
  shard_index = pf.fragment.shard_index;
  fragment_id = pf.fragment.id;
  node_id = n.id;
  endpoint = n.endpoint;
  ticket = wire;
}

module _ (sign_ticket : ℕ → ℕ → ℕ → List ℕ → ℤ → Result StoreError (List ℕ × ℕ)) where
  -- The tickets, and the earliest expiry.
  unfoldable pub put_tickets :
      ℕ
      → List (ℕ × Node)
      → List PlannedFragment
      → Result StoreError (List PlannedPlacement × Option ℕ)
  put_tickets n by [] = ok ([], none)
  put_tickets n by (pf ∷ pfs) = elim (node_for by pf.fragment.id) [
    | none ↦ put_tickets n by pfs
    | some node ↦
        elim (sign_ticket n pf.fragment.id node.id pf.fragment.sha256 pf.fragment.size_bytes) [
          | err e ↦ err e
          | ok (wire, expires) ↦ elim (put_tickets (n + 1) by pfs) [
            | err e ↦ err e
            | ok (rest, first) ↦ ok (planned_placement pf node wire ∷ rest, earlier expires first)
          ]
        ]
  ]

  unfoldable pub finish_plan : PlannedUpload → List (ℕ × Node) → Run PlanResult
  finish_plan planned by =
      if any_short by planned (planned.stored_rows ++ planned.pending_rows)
      then raise unavailable
      else lift (put_tickets 0 by planned.pending_rows) >>= λ out.
          if ltb max_plan_fragments (length out.0)
          then raise invalid
          else pure (record {
            upload_id = planned.version.id;
            file_id = planned.file.id;
            expires_at = out.1;
            placements = out.0;
          })

  module _ (place : List PlaceNeed → Option (List PlaceAssign)) where
    -- Any error of the scheduler is ErrUnavailable.
    unfoldable pub place_needs : List PlaceNeed → Run (List PlaceAssign)
    place_needs needs = if length needs == 0 then pure [] else elim (place needs) [
      | none ↦ raise unavailable
      | some assigns ↦
          insert_placements (map (λ (a : PlaceAssign). (a.fragment_id, a.node.id)) assigns)
          >> pure assigns
    ]

    unfoldable pub plan_body : PlannedUpload → Run PlanResult
    plan_body planned = place_needs (needs_of planned.pending_rows) >>= λ assigns.
        add_placed (assigned [] assigns) planned.pending_rows >>= finish_plan planned

    -- The deferred compensation: an error of a new plan aborts it, and an error of that is logged.
    unfoldable pub or_abort : PlannedUpload → Run PlanResult
    or_abort planned s =
        let (r, s') = plan_body planned s in
        elim r [
          | ok out ↦ (ok out, s')
          | err e ↦
              if planned.resume
              then (err e, s')
              else (err e, (abort_upload planned.version.id s').1)
        ]

    unfoldable pub plan_upload :
        (List ℕ → ℕ)
        → (List ℕ → List ℕ)
        → (List ℕ → List ℕ)
        → Result StoreError (Unit {0})
        → ℕ
        → UploadManifest
        → Run PlanResult
    plan_upload fresh trim_space clean quota owner m =
        lift quota >> (begin_upload fresh trim_space clean owner m >>= or_abort)
