-- ===== src/Uploads/Download.antt =====
-- internal/store/uploads.go and lifecycle.go: `LoadDownload` and the tables of download tickets.
use distributed_storage_plat.Common.{
  ℕ, Bool, false, ◌&&◌, Option, none, some, List, [], ◌∷◌, ◌++◌, ◌==◌, if◌then◌else◌, ok, err,
  raise, ◌>>=◌,
}
use distributed_storage_plat.Common.Bytes.{same_bytes}
use distributed_storage_plat.Common.Database.{select, exec, statement}
use distributed_storage_plat.Uploads.Rows.{
  not_found, conflict, db_error, File, FileVersion, Chunk, Fragment, Placement, Node, TicketRow,
  ReceiptRow, Tables, is_committed, is_stored, where_rows, exists_row, find_file, find_node,
  find_version,
}
use distributed_storage_plat.Uploads.Planned.{
  PlannedFragment, Run, row, join, order_by, by_seq_shard,
}
use distributed_storage_plat.Uploads.Begin.{file_by_id, owns, same_int}

pub record DownloadPlacement : Type 0 where
  pub fragment : Fragment
  pub node : Node

pub record DownloadChunk : Type 0 where
  pub chunk : Chunk
  pub placements : List DownloadPlacement

-- A row of the query: the planned fragment is its chunk, fragment and placement.
unfoldable pub download_rows : Tables → ℕ → List (PlannedFragment × Node)
download_rows t v =
    join
      (λ (pf : PlannedFragment). elim pf.placement [
        | none ↦ []
        | some p ↦ elim (find_node p.node_id t.nodes) [ none ↦ [] | some n ↦ (pf, n) ∷ [] ]
      ])
      (order_by by_seq_shard (
        join
          (λ (c : Chunk).
            join
              (λ (fr : Fragment).
                join
                  (λ (p : Placement).
                    (record { chunk = c; fragment = fr; placement = some p }) ∷ [])
                  (where_rows (λ (p : Placement). p.fragment_id == fr.id && is_stored p.status)
                    t.placements))
              (where_rows (λ (fr : Fragment). fr.chunk_id == c.id) t.fragments))
          (where_rows (λ (c : Chunk). c.version_id == v) t.chunks)))

-- `bySeq` and `order`: a row joins the chunk of its sequence number, or starts one at the end.
unfoldable pub add_download_row : List DownloadChunk → PlannedFragment × Node → List DownloadChunk
add_download_row [] (pf, n) =
    (record { chunk = pf.chunk; placements = (record { fragment = pf.fragment; node = n }) ∷ [] })
    ∷ []
add_download_row (dc ∷ dcs) (pf, n) =
    let rest = add_download_row dcs (pf, n) in
    if same_int dc.chunk.seq pf.chunk.seq
    then (record dc {
      placements = dc.placements ++ (record { fragment = pf.fragment; node = n }) ∷ [];
    })
      ∷ dcs
    else dc ∷ rest

unfoldable pub group_rows : List DownloadChunk → List (PlannedFragment × Node) → List DownloadChunk
group_rows acc [] = acc
group_rows acc (r ∷ rs) = group_rows (add_download_row acc r) rs

-- `WHERE id = $1 AND status = 'committed'`
unfoldable pub committed_version : Tables → ℕ → Option FileVersion
committed_version t i = elim (find_version i t.versions) [
  | none ↦ none
  | some v ↦ if is_committed v.status then some v else none
]

unfoldable pub load_current : File → Option ℕ → Run (File × FileVersion × List DownloadChunk)
load_current f none = raise not_found
load_current f (some i) = select db_error (λ (t : Tables). row (committed_version t i)) >>= λ v.
    select db_error (λ (t : Tables). ok (f, v, group_rows [] (download_rows t v.id)))

unfoldable pub load_download : ℕ → ℕ → Run (File × FileVersion × List DownloadChunk)
load_download owner i = file_by_id owner i >>= λ f. load_current f f.current_version

-- INSERT ... ON CONFLICT (nonce) DO NOTHING
unfoldable pub insert_download_ticket : TicketRow → Run (Unit {0})
insert_download_ticket r = exec db_error (λ (t : Tables).
    if exists_row (λ (x : TicketRow). same_bytes x.nonce r.nonce) t.tickets
    then t
    else record t { tickets = t.tickets ++ r ∷ [] })

unfoldable pub find_ticket : ℕ → ℕ → List ℕ → Tables → List TicketRow → Option (TicketRow × Node)
find_ticket owner f nonce t [] = none
find_ticket owner f nonce t (x ∷ xs) =
    let rest = find_ticket owner f nonce t xs in
    let mine : Bool = elim (find_file f t.files) [ none ↦ false | some g ↦ owns owner g t ] in
    if same_bytes x.nonce nonce && (x.file_id == f && mine)
    then elim (find_node x.node_id t.nodes) [ none ↦ none | some n ↦ some (x, n) ]
    else rest

-- The ticket with the node, whose public key the caller takes.
unfoldable pub download_ticket_by_nonce : ℕ → ℕ → List ℕ → Run (TicketRow × Node)
download_ticket_by_nonce owner f nonce =
    select db_error (λ (t : Tables). row (find_ticket owner f nonce t t.tickets))

-- A nonce that is there breaks the primary key: ErrConflict.
unfoldable pub consume_download_receipt : ReceiptRow → Run (Unit {0})
consume_download_receipt r = statement db_error (λ (t : Tables).
    if exists_row (λ (x : ReceiptRow). same_bytes x.nonce r.nonce) t.receipts
    then err conflict
    else ok (tt, record t { receipts = t.receipts ++ r ∷ [] }))
