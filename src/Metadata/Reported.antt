-- ===== src/Metadata/Reported.antt =====
-- Tests of `ReportDownload` on one receipt.
use distributed_storage_plat.Common.{ℕ, ◌≡◌, refl, List, [], ◌∷◌, ◌++◌, length, ok, err}
use distributed_storage_plat.Common.Int.{pos}
use distributed_storage_plat.Common.Bytes.{same_bytes, index_byte, be}
use distributed_storage_plat.Common.Database.{statement, calm}
use distributed_storage_plat.Tickets.Examples.{plain, sums, bytes}
use distributed_storage_plat.Receipts.Receipt.{parse_unsigned, encode, parse, decode, Receipt, seal}
use distributed_storage_plat.Uploads.Rows.{
  find_node, exists_row, find_file, TicketRow, ReceiptRow, Tables, invalid,
}
use distributed_storage_plat.Uploads.Fixtures.{planned, node, done, done_file}
use distributed_storage_plat.Metadata.Report.{
  is_for_ticket, consume_for, report_all, report_one, or_invalid, report_download,
}
use distributed_storage_plat.Uploads.Begin.{first_file, owns, file_by_id, find_bucket, is_gone}
use distributed_storage_plat.Uploads.Download.{
  find_ticket, consume_download_receipt, download_ticket_by_nonce,
}
use distributed_storage_plat.Tickets.Wire.{encode_wire, decode_wire}
use distributed_storage_plat.Uploads.Delete.{checked}
use distributed_storage_plat.Metadata.Metered.{AreMetered, report_download-AreMetered}

abbrev issued : TicketRow
issued = record {
  nonce = bytes 16 4;
  file_id = 2;
  fragment_id = 14;
  node_id = 34;
  size_bytes = pos 10;
  expires_at = 2000;
}

abbrev downloaded : Tables
downloaded = record planned {
  files = done_file ∷ [];
  versions = done ∷ [];
  nodes = (record (node 14) { public_key = bytes 32 6 }) ∷ [];
  tickets = issued ∷ [];
}

abbrev receipt : Receipt
receipt = record {
  node_id = be 16 34;
  fragment_id = be 16 14;
  sha256 = bytes 32 3;
  size = 10;
  stored_at = record { sec = pos 1900; nsec = 5 };
  nonce = bytes 16 4;
  raw = [];
}

abbrev wires : List (List ℕ)
wires = (seal sums plain (bytes 32 6) receipt).raw ∷ []

abbrev metered : List ReceiptRow
metered =
    (record { nonce = bytes 16 4; file_id = 2; fragment_id = 14; node_id = 34; bytes = pos 10 })
    ∷ []

reported : (report_download sums plain 7 2 wires (calm downloaded)).0 ≡ ok metered
unfolding report_download file_by_id owns is_gone first_file find_file find_bucket report_all
    report_one parse_unsigned or_invalid download_ticket_by_nonce find_ticket find_node consume_for
    is_for_ticket consume_download_receipt exists_row statement parse checked seal encode decode
    encode_wire decode_wire be same_bytes index_byte
reported = refl

reported_again :
    (report_download sums plain 7 2 wires
      (report_download sums plain 7 2 wires (calm downloaded)).1).0
    ≡ err invalid
unfolding report_download file_by_id owns is_gone first_file find_file find_bucket report_all
    report_one parse_unsigned or_invalid download_ticket_by_nonce find_ticket find_node consume_for
    is_for_ticket consume_download_receipt exists_row statement parse checked seal encode decode
    encode_wire decode_wire be same_bytes index_byte
reported_again = refl

report_download-AreMetered_example :
    AreMetered sums plain 7 2 wires downloaded metered
    × (length metered ≡ length wires)
    × ((report_download sums plain 7 2 wires (calm downloaded)).1.tables.receipts
        ≡ downloaded.receipts ++ metered)
report_download-AreMetered_example =
    report_download-AreMetered sums plain 7 2 wires (calm downloaded) reported
