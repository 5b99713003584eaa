-- ===== src/Metadata/Report.antt =====
-- internal/metadata/upload.go: `ReportDownload`, which meters downloads by the receipts of nodes.
-- The metering itself, whose errors are only logged, is the list of the rows that were consumed.
use distributed_storage_plat.Common.{
  ℕ, Bool, false, ◌||◌, not, List, [], ◌∷◌, length, ◌==◌, if◌then◌else◌, ok, err, pure, raise,
  ◌>>=◌, ◌>>◌,
}
use distributed_storage_plat.Common.Int64.{bits64}
use distributed_storage_plat.Common.Bytes.{be, same_bytes}
use distributed_storage_plat.Tickets.Wire.{Base64, Ed25519}
use distributed_storage_plat.Receipts.Receipt.{Receipt, parse, parse_unsigned}
use distributed_storage_plat.Uploads.Rows.{invalid, Node, TicketRow, ReceiptRow, exists_row}
use distributed_storage_plat.Uploads.Planned.{Run}
use distributed_storage_plat.Uploads.Begin.{file_by_id}
use distributed_storage_plat.Uploads.Download.{download_ticket_by_nonce, consume_download_receipt}

-- `if err != nil { return ErrInvalid }`
unfoldable pub or_invalid : {A : Type 0} → Run A → Run A
or_invalid m s = let (r, s') = m s in elim r [ ok a ↦ (ok a, s') | err _ ↦ (err invalid, s') ]

module _ (ed : Ed25519) (b64 : Base64) where
  -- The checks of a signed receipt against its ticket.
  unfoldable pub is_for_ticket : TicketRow → Receipt → Bool
  is_for_ticket t r =
      if not (same_bytes r.node_id (be 16 t.node_id))
        || not (same_bytes r.fragment_id (be 16 t.fragment_id))
      then false
      else r.size == bits64 t.size_bytes

  unfoldable pub consume_for : ℕ → List ℕ → List ℕ → TicketRow × Node → Run ReceiptRow
  consume_for f w nonce (t, n) = elim (parse ed b64 w n.public_key) [
    | err _ ↦ raise invalid
    | ok got ↦
        let consumed : ReceiptRow = record {
          nonce = nonce;
          file_id = f;
          fragment_id = t.fragment_id;
          node_id = t.node_id;
          bytes = t.size_bytes;
        } in
        if is_for_ticket t got
        then or_invalid (consume_download_receipt consumed) >> pure consumed
        else raise invalid
  ]

  -- One receipt, after those whose nonces are `seen`.
  unfoldable pub report_one : ℕ → ℕ → List (List ℕ) → List ℕ → Run ReceiptRow
  report_one owner f seen w = elim (parse_unsigned ed b64 w) [
    | err _ ↦ raise invalid
    | ok rec ↦
        if not (length rec.nonce == 16)
        then raise invalid
        else if exists_row (same_bytes rec.nonce) seen
        then raise invalid
        else or_invalid (download_ticket_by_nonce owner f rec.nonce) >>= consume_for f w rec.nonce
  ]

  unfoldable pub report_all : ℕ → ℕ → List (List ℕ) → List (List ℕ) → Run (List ReceiptRow)
  report_all owner f seen [] = pure []
  report_all owner f seen (w ∷ ws) = report_one owner f seen w >>= λ r.
      report_all owner f (r.nonce ∷ seen) ws >>= λ rest. pure (r ∷ rest)

  unfoldable pub report_download : ℕ → ℕ → List (List ℕ) → Run (List ReceiptRow)
  report_download owner f wires = file_by_id owner f >> report_all owner f [] wires
