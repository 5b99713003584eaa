-- ===== src/Tickets/Examples.antt =====
-- Tests of tickets with an encoding and a signature that are simple enough to compute.
use distributed_storage_plat.Common.{
  ℕ, zero, suc, ◌+◌, ◌-◌, ◌≡◌, refl, ap, true, none, some, List, [], ◌∷◌, arith, length, ok,
}
use distributed_storage_plat.Common.Int.{pos}
use distributed_storage_plat.Common.Bytes.{length-be, be, same_bytes, IsFree, same_bytes_refl}
use distributed_storage_plat.Tickets.Wire.{Base64, Ed25519, IsCodec, IsSignature}
use distributed_storage_plat.Tickets.Codec.{unix, before, Ticket, op_put, encode, decode}
use distributed_storage_plat.Tickets.RoundTrip.{IsTicket, kept, decode-encode, encode_injective}
use distributed_storage_plat.Tickets.Sign.{
  seal, sign, verify, known_op, fill_nonce, finish, fill_expiry, is_zero_time,
}
use distributed_storage_plat.Tickets.Genuine.{IsGenuine, verify-IsGenuine}
use distributed_storage_plat.Tickets.Accepted.{IsTyped, verify-sign}

-- Every byte is moved past the dot.
abbrev pub shifted : List ℕ → List ℕ
shifted [] = []
shifted (b ∷ bs) = (b + 47) ∷ shifted bs

abbrev pub unshifted : List ℕ → List ℕ
unshifted [] = []
unshifted (b ∷ bs) = (b - 47) ∷ unshifted bs

abbrev pub plain : Base64
plain = record { encode_string = shifted; decode_string = λ bs. some (unshifted bs) }

unshifted-shifted : (bs : List ℕ) → unshifted (shifted bs) ≡ bs
unshifted-shifted [] = refl
unshifted-shifted (b ∷ bs) = grind (arith, unshifted-shifted bs)

shifted-IsFree : (bs : List ℕ) → IsFree 46 (shifted bs)
shifted-IsFree [] = tt
shifted-IsFree (b ∷ bs) = (ground arith, shifted-IsFree bs)

length-shifted : (bs : List ℕ) → length (shifted bs) ≡ length bs
length-shifted [] = refl
length-shifted (b ∷ bs) = omega (arith, length-shifted bs)

plain-IsCodec : IsCodec plain
plain-IsCodec = record {
  inverts = λ bs. ap some (unshifted-shifted bs);
  dotless = shifted-IsFree;
  grows = λ bs h. omega (arith, length-shifted bs);
}

-- A checksum in 64 bytes in place of a signature.
abbrev pub checksum : List ℕ → ℕ
checksum [] = 0
checksum (b ∷ bs) = b + checksum bs

abbrev pub mark : List ℕ → List ℕ → List ℕ
mark key msg = be 64 (checksum key + checksum msg)

abbrev pub sums : Ed25519
sums = record {
  public = λ key. key;
  sign_bytes = mark;
  verify_bytes = λ key msg sig. same_bytes sig (mark key msg);
}

sums-IsSignature : IsSignature sums
sums-IsSignature = record {
  size = λ key msg. length-be 64 _;
  accepts = λ key msg. same_bytes_refl (mark key msg);
}

abbrev pub bytes : ℕ → ℕ → List ℕ
bytes zero b = []
bytes (suc n) b = b ∷ bytes n b

abbrev ticket : Ticket
ticket = record {
  op = op_put;
  fragment_id = bytes 16 1;
  node_id = bytes 16 2;
  sha256 = bytes 32 3;
  max_bytes = 1048576;
  expires_at = record { sec = pos 1900; nsec = 5 };
  nonce = bytes 16 4;
  raw = [];
}

ticket-IsTicket : IsTicket ticket
ticket-IsTicket = record {
  op_fits = omega arith;
  fragment_16 = refl;
  node_16 = refl;
  sha_32 = refl;
  max_64 = omega arith;
  sec_64 = (omega arith, omega arith);
  nonce_16 = refl;
}

decode-encode_example : decode (encode ticket) ≡ ok (kept ticket)
decode-encode_example = decode-encode ticket ticket-IsTicket

abbrev copied : Ticket
copied = record ticket { raw = bytes 3 9 }

copied-IsTicket : IsTicket copied
copied-IsTicket = record {
  op_fits = omega arith;
  fragment_16 = refl;
  node_16 = refl;
  sha_32 = refl;
  max_64 = omega arith;
  sec_64 = (omega arith, omega arith);
  nonce_16 = refl;
}

same_payload : encode ticket ≡ encode copied
unfolding encode
same_payload = refl

encode_injective_example : kept ticket ≡ kept copied
encode_injective_example =
    encode_injective ticket copied ticket-IsTicket copied-IsTicket same_payload

abbrev key : List ℕ
key = bytes 4 6

abbrev signed : Ticket
signed = seal sums plain key ticket

signed-ok : sign sums plain key (unix (pos 1000)) none ticket ≡ ok signed
unfolding sign known_op fill_nonce finish fill_expiry is_zero_time same_bytes
signed-ok = refl

early : before (unix (pos 1000)) (unix (pos 1900)) ≡ true
unfolding before
early = refl

ticket-IsTyped : IsTyped ticket
ticket-IsTyped = record { fragment_16 = refl; node_16 = refl; max_64 = omega arith }

still_early : before (unix (pos 1500)) (unix (pos 1900)) ≡ true
unfolding before
still_early = refl

verify-sign_example :
    verify sums plain key (unix (pos 1500)) signed.raw op_put (bytes 16 2) (bytes 16 1)
    ≡ ok (record (kept signed) { raw = signed.raw })
unfolding seal
verify-sign_example =
    verify-sign sums plain key (unix (pos 1000)) (unix (pos 1500)) none ticket signed plain-IsCodec
      sums-IsSignature ticket-IsTyped signed-ok (omega arith, omega arith) still_early

verified :
    verify sums plain key (unix (pos 1000)) signed.raw op_put (bytes 16 2) (bytes 16 1)
    ≡ ok (record (kept signed) { raw = signed.raw })
unfolding seal
verified =
    verify-sign sums plain key (unix (pos 1000)) (unix (pos 1000)) none ticket signed plain-IsCodec
      sums-IsSignature ticket-IsTyped signed-ok (omega arith, omega arith) early

verify-IsGenuine_example :
    IsGenuine sums plain key signed.raw (record (kept signed) { raw = signed.raw })
    × (before (unix (pos 1000)) (unix (pos 1900)) ≡ true)
    × (op_put ≡ op_put)
    × (bytes 16 2 ≡ bytes 16 2)
    × (bytes 16 1 ≡ bytes 16 1)
unfolding seal
verify-IsGenuine_example =
    verify-IsGenuine sums plain key (unix (pos 1000)) signed.raw op_put (bytes 16 2) (bytes 16 1)
      (record (kept signed) { raw = signed.raw }) verified
