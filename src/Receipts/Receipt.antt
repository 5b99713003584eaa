-- ===== src/Receipts/Receipt.antt =====
-- internal/receipts/receipts.go: a receipt, its bytes, and its signature.
-- Its wire form is that of tickets. Ed25519 and base64 are parameters.
use distributed_storage_plat.Common.{
  ℕ, not, ◌&&◌, ◌||◌, none, some, List, [], ◌++◌, ◌==◌, if◌then◌else◌, length, take, drop, Result,
  ok, err,
}
use distributed_storage_plat.Common.Int64.{bits64, of_bits64}
use distributed_storage_plat.Common.Bytes.{be, unbe, same_bytes}
use distributed_storage_plat.Tickets.Wire.{Base64, Ed25519, encode_wire, decode_wire}
use distributed_storage_plat.Tickets.Codec.{Time, unix}
use distributed_storage_plat.Tickets.Sign.{nil_id}

pub record Receipt : Type 0 where
  pub node_id : List ℕ
  pub fragment_id : List ℕ
  pub sha256 : List ℕ
  pub size : ℕ
  pub stored_at : Time
  pub nonce : List ℕ
  pub raw : List ℕ

pub data ReceiptError : Type 0 where
  invalid signature mismatch : ReceiptError

unfoldable pub encode : Receipt → List ℕ
encode r =
    let buf =
      r.node_id ++ r.fragment_id ++ r.sha256 ++ be 8 r.size ++ be 8 (bits64 r.stored_at.sec) in
    if length r.nonce == 16 then buf ++ r.nonce else buf

unfoldable pub decode : List ℕ → Result ReceiptError Receipt
decode p =
    if not (length p == 80) && not (length p == 96)
    then err invalid
    else ok (record {
      node_id = take 16 p;
      fragment_id = take 16 (drop 16 p);
      sha256 = take 32 (drop 32 p);
      size = unbe (take 8 (drop 64 p));
      stored_at = unix (of_bits64 (unbe (take 8 (drop 72 p))));
      nonce = if length p == 96 then drop 80 p else [];
      raw = [];
    })

module _ (ed : Ed25519) (b64 : Base64) where
  unfoldable pub seal : List ℕ → Receipt → Receipt
  seal key r = record r { raw = encode_wire b64 (encode r) (ed.sign_bytes key (encode r)) }

  -- The unexported `sign`; a private key of crypto/ed25519 has 64 bytes.
  unfoldable pub sign_with :
      List ℕ → List ℕ → List ℕ → List ℕ → ℕ → Time → List ℕ → Result ReceiptError Receipt
  unfolding seal
  sign_with key node fragment sha size stored nonce =
      if not (length key == 64) || not (length sha == 32)
      then err invalid
      else if same_bytes node nil_id || same_bytes fragment nil_id
      then err invalid
      else ok (
          seal key (record {
            node_id = node;
            fragment_id = fragment;
            sha256 = sha;
            size = size;
            stored_at = stored;
            nonce = nonce;
            raw = [];
          }))

  unfoldable pub sign : List ℕ → List ℕ → List ℕ → List ℕ → ℕ → Time → Result ReceiptError Receipt
  unfolding sign_with
  sign key node fragment sha size stored = sign_with key node fragment sha size stored []

  unfoldable pub sign_egress :
      List ℕ → List ℕ → List ℕ → List ℕ → ℕ → Time → List ℕ → Result ReceiptError Receipt
  unfolding sign_with
  sign_egress key node fragment sha size stored nonce =
      if not (length nonce == 16)
      then err invalid
      else sign_with key node fragment sha size stored nonce

  unfoldable pub checked : List ℕ → List ℕ → List ℕ × List ℕ → Result ReceiptError Receipt
  checked wire key (payload, sig) =
      if not (length key == 32) || not (ed.verify_bytes key payload sig)
      then err signature
      else elim (decode payload) [ err e ↦ err e | ok r ↦ ok (record r { raw = wire }) ]

  unfoldable pub parse : List ℕ → List ℕ → Result ReceiptError Receipt
  unfolding checked
  parse wire key = elim (decode_wire b64 wire) [
    | none ↦ err invalid
    | some parts ↦ checked wire key parts
  ]

  unfoldable pub match_check : List ℕ → List ℕ → List ℕ → ℕ → Receipt → Result ReceiptError Receipt
  match_check node fragment sha size r =
      if not (same_bytes r.node_id node) || not (same_bytes r.fragment_id fragment)
      then err mismatch
      else if not (r.size == size)
      then err mismatch
      else if not (length sha == 32) || not (same_bytes r.sha256 sha)
      then err mismatch
      else ok r

  unfoldable pub verify :
      List ℕ → List ℕ → List ℕ → List ℕ → List ℕ → ℕ → Result ReceiptError Receipt
  unfolding match_check
  verify wire key node fragment sha size = elim (parse wire key) [
    | err e ↦ err e
    | ok r ↦ match_check node fragment sha size r
  ]

  unfoldable pub parse_unsigned : List ℕ → Result ReceiptError Receipt
  parse_unsigned wire = elim (decode_wire b64 wire) [
    | none ↦ err invalid
    | some (payload, _) ↦ elim (decode payload) [
      | err e ↦ err e
      | ok r ↦ ok (record r { raw = wire })
    ]
  ]
