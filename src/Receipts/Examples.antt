-- ===== src/Receipts/Examples.antt =====
-- Tests of receipts with the simple encoding and signature of the ticket tests.
use distributed_storage_plat.Common.{◌≡◌, refl, inr, [], arith, ok}
use distributed_storage_plat.Common.Int.{pos}
use distributed_storage_plat.Common.Bytes.{be, same_bytes, index_byte}
use distributed_storage_plat.Tickets.Wire.{encode_wire, decode_wire}
use distributed_storage_plat.Tickets.Examples.{plain, sums, bytes}
use distributed_storage_plat.Receipts.Receipt.{
  Receipt, encode, decode, seal, checked, parse, match_check, verify,
}
use distributed_storage_plat.Receipts.Matching.{
  IsReceipt, kept, IsGenuine, decode-encode_receipt, verify-IsGenuine_receipt,
}

abbrev receipt : Receipt
receipt = record {
  node_id = bytes 16 1;
  fragment_id = bytes 16 2;
  sha256 = bytes 32 3;
  size = 4096;
  stored_at = record { sec = pos 1900; nsec = 5 };
  nonce = bytes 16 4;
  raw = [];
}

receipt-IsReceipt : IsReceipt receipt
receipt-IsReceipt = record {
  node_16 = refl;
  fragment_16 = refl;
  sha_32 = refl;
  size_64 = omega arith;
  sec_64 = (omega arith, omega arith);
  nonce_16 = inr refl;
}

decode-encode_receipt_example : decode (encode receipt) ≡ ok (kept receipt)
decode-encode_receipt_example = decode-encode_receipt receipt receipt-IsReceipt

abbrev signed : Receipt
signed = seal sums plain (bytes 32 6) receipt

abbrev read_back : Receipt
read_back = record (kept receipt) { raw = signed.raw }

accepted :
    verify sums plain signed.raw (bytes 32 6) (bytes 16 1) (bytes 16 2) (bytes 32 3) 4096
    ≡ ok read_back
unfolding verify parse checked match_check seal encode decode encode_wire decode_wire be same_bytes
    index_byte
accepted = refl

verify-IsGenuine_receipt_example :
    IsGenuine sums plain (bytes 32 6) signed.raw read_back
    × (bytes 16 1 ≡ bytes 16 1)
    × (bytes 16 2 ≡ bytes 16 2)
    × (read_back.size ≡ 4096)
    × (bytes 32 3 ≡ bytes 32 3)
verify-IsGenuine_receipt_example =
    verify-IsGenuine_receipt sums plain signed.raw (bytes 32 6) (bytes 16 1) (bytes 16 2)
      (bytes 32 3) 4096 read_back accepted
