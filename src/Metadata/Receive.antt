-- ===== src/Metadata/Receive.antt =====
-- internal/metadata/upload.go and repair.go: the receipts of `CommitUpload` and `CommitRepair`.
-- `visit` is the order in which the range over a map visits it for the n-th receipt. The 16 bytes
-- of a uuid are those of its number.
use distributed_storage_plat.Common.{
  ℕ, ◌+◌, Bool, true, false, ◌&&◌, not, Option, none, some, List, [], ◌∷◌, ◌++◌, ◌==◌,
  if◌then◌else◌, Result, ok, err, lift, ◌>>=◌,
}
use distributed_storage_plat.Common.Int64.{bits64}
use distributed_storage_plat.Common.Bytes.{be}
use distributed_storage_plat.Tickets.Wire.{Base64, Ed25519}
use distributed_storage_plat.Receipts.Receipt.{verify}
use distributed_storage_plat.Uploads.Rows.{StoreError, invalid, File, FileVersion, is_stored}
use distributed_storage_plat.Uploads.Placements.{mem_id}
use distributed_storage_plat.Uploads.Planned.{Run}
use distributed_storage_plat.Uploads.Commit.{
  PlacementTarget, pending_targets_for_version, commit_upload,
}
use distributed_storage_plat.Uploads.Repair.{pending_targets_for_chunk, commit_repair_placements}

-- `byFrag[t.Fragment.ID] = t`
unfoldable pub put_target : List PlacementTarget → PlacementTarget → List PlacementTarget
put_target [] t = t ∷ []
put_target (x ∷ xs) t =
    let rest = put_target xs t in if x.fragment.id == t.fragment.id then t ∷ xs else x ∷ rest

unfoldable pub by_frag : List PlacementTarget → List PlacementTarget → List PlacementTarget
by_frag acc [] = acc
by_frag acc (t ∷ ts) = by_frag (put_target acc t) ts

-- The fragments that are stored already, in the order of the targets.
unfoldable pub already_stored : List PlacementTarget → List ℕ
already_stored [] = []
already_stored (t ∷ ts) =
    let rest = already_stored ts in
    if is_stored t.placement.status then t.fragment.id ∷ rest else rest

module _ (ed : Ed25519) (b64 : Base64) where
  -- `receipts.Verify(...)` without an error.
  unfoldable pub accepts : List ℕ → PlacementTarget → Bool
  accepts w t =
      elim (verify ed b64 w t.node.public_key (be 16 t.node.id) (be 16 t.fragment.id)
        t.fragment.sha256 (bits64 t.fragment.size_bytes)) [ ok _ ↦ true | err _ ↦ false ]

  -- The inner loop: the first fragment not seen before that the receipt is for.
  unfoldable pub match_receipt : List ℕ → List ℕ → List PlacementTarget → Option ℕ
  match_receipt w seen [] = none
  match_receipt w seen (t ∷ ts) =
      let rest = match_receipt w seen ts in
      if not (mem_id t.fragment.id seen) && accepts w t then some t.fragment.id else rest

  module _ (visit : ℕ → List PlacementTarget → List PlacementTarget) where
    -- The outer loop; `stored` and the keys of `seen` are the same ids.
    unfoldable pub match_receipts :
        ℕ → List PlacementTarget → List ℕ → List (List ℕ) → Result StoreError (List ℕ)
    match_receipts n targets stored [] = ok stored
    match_receipts n targets stored (w ∷ ws) = elim (match_receipt w stored (visit n targets)) [
      | none ↦ err invalid
      | some i ↦ match_receipts (n + 1) targets (stored ++ i ∷ []) ws
    ]

    unfoldable pub commit_received :
        ℕ → ℕ → List (List ℕ) → List PlacementTarget → Run (File × FileVersion)
    commit_received owner i wires targets =
        lift (match_receipts 0 (by_frag [] targets) (already_stored targets) wires) >>= λ stored.
        commit_upload owner i stored

    -- `CommitUpload` up to the metering, whose errors are only logged.
    unfoldable pub receive_upload : ℕ → ℕ → List (List ℕ) → Run (File × FileVersion)
    receive_upload owner i wires = pending_targets_for_version i >>= commit_received owner i wires

    unfoldable pub receive_repair : ℕ → List (List ℕ) → Run (Unit {0})
    receive_repair c wires = pending_targets_for_chunk c >>= λ targets.
        lift (match_receipts 0 (by_frag [] targets) [] wires) >>= λ stored.
        commit_repair_placements stored
