-- ===== src/Tickets/Wire.antt =====
-- internal/tickets/tickets.go: the wire form, `base64url(payload) . base64url(signature)`, which
-- internal/receipts/receipts.go has too.
-- Ed25519 and base64 are parameters; `IsCodec` and `IsSignature` are what their documentation says
-- of them.
use distributed_storage_plat.Common.{
  ℕ, zero, suc, ◌-◌, ◌<◌, ◌≡◌, refl, ap, ◌∙◌, Bool, true, Option, none, some, List, [], ◌∷◌, ◌++◌,
  arith, ◌==◌, if◌then◌else◌, length, take, drop, length-append, take-append,
}
use distributed_storage_plat.Common.Bytes.{index_byte, index_byte-append, IsFree}

-- base64.RawURLEncoding.
pub record Base64 : Type 0 where
  pub encode_string : List ℕ → List ℕ
  pub decode_string : List ℕ → Option (List ℕ)

-- crypto/ed25519.
pub record Ed25519 : Type 0 where
  pub public : List ℕ → List ℕ
  pub sign_bytes : List ℕ → List ℕ → List ℕ
  pub verify_bytes : List ℕ → List ℕ → List ℕ → Bool

-- Decoding inverts encoding, the alphabet has no dot (46), and only the empty string has an empty
-- encoding.
pub record IsCodec (b64 : Base64) : Type 0 where
  pub inverts : (bs : List ℕ) → b64.decode_string (b64.encode_string bs) ≡ some bs
  pub dotless : (bs : List ℕ) → IsFree 46 (b64.encode_string bs)
  pub grows : (bs : List ℕ) → 0 < length bs → 0 < length (b64.encode_string bs)

-- A signature has 64 bytes, and the public key of a private key accepts what the key signed.
pub record IsSignature (ed : Ed25519) : Type 0 where
  pub size : (key msg : List ℕ) → length (ed.sign_bytes key msg) ≡ 64
  pub accepts :
      (key msg : List ℕ) → ed.verify_bytes (ed.public key) msg (ed.sign_bytes key msg) ≡ true

module _ (b64 : Base64) where
  unfoldable pub encode_wire : List ℕ → List ℕ → List ℕ
  encode_wire payload sig = b64.encode_string payload ++ 46 ∷ b64.encode_string sig

  -- The first byte, a dot, is refused like a missing dot and a dot at the end.
  split_at : List ℕ → Option ℕ → Option (List ℕ × List ℕ)
  split_at wire none = none
  split_at wire (some i) =
      if i == 0
      then none
      else if i == length wire - 1
      then none
      else some (take i wire, drop (suc i) wire)

  sig_of : List ℕ → Option (List ℕ) → Option (List ℕ × List ℕ)
  sig_of payload none = none
  sig_of payload (some sig) = if length sig == 64 then some (payload, sig) else none

  payload_of : List ℕ → Option (List ℕ) → Option (List ℕ × List ℕ)
  payload_of tail none = none
  payload_of tail (some payload) = sig_of payload (b64.decode_string tail)

  parts_of : Option (List ℕ × List ℕ) → Option (List ℕ × List ℕ)
  parts_of none = none
  parts_of (some (head, tail)) = payload_of tail (b64.decode_string head)

  -- Every error of this function is ErrInvalid of its package: `none`.
  unfoldable pub decode_wire : List ℕ → Option (List ℕ × List ℕ)
  unfolding split_at sig_of payload_of parts_of
  decode_wire wire = parts_of (split_at wire (index_byte 46 wire))

module _ (b64 : Base64) (codec : IsCodec b64) where
  split-encode :
      (payload sig : List ℕ)
      → 0 < length payload
      → 0 < length sig
      → split_at b64 (encode_wire b64 payload sig) (some (length (b64.encode_string payload)))
        ≡ some (b64.encode_string payload, b64.encode_string sig)
  unfolding encode_wire split_at
  split-encode payload sig p q =
      let head : List ℕ = b64.encode_string payload in
      let tail : List ℕ = b64.encode_string sig in
      ground (
        arith,
        codec.grows payload p,
        codec.grows sig q,
        length-append head (46 ∷ tail),
        take-append (length head) head (46 ∷ tail) refl,
        drop_suc (length head) head 46 tail refl,
      )
    where
      drop_suc :
          (n : ℕ) (xs : List ℕ) (x : ℕ) (ys : List ℕ)
          → length xs ≡ n
          → drop (suc n) (xs ++ x ∷ ys) ≡ ys
      drop_suc zero [] x ys h = refl
      drop_suc zero (z ∷ xs) x ys h = absurd (omega arith)
      drop_suc (suc n) [] x ys h = absurd (omega arith)
      drop_suc (suc n) (z ∷ xs) x ys h = drop_suc n xs x ys (omega arith)

  pub decode-encode_wire :
      (payload sig : List ℕ)
      → 0 < length payload
      → length sig ≡ 64
      → decode_wire b64 (encode_wire b64 payload sig) ≡ some (payload, sig)
  unfolding decode_wire encode_wire parts_of payload_of sig_of
  decode-encode_wire payload sig p q =
      let head : List ℕ = b64.encode_string payload in
      let tail : List ℕ = b64.encode_string sig in
      ap (λ i. parts_of b64 (split_at b64 (encode_wire b64 payload sig) i))
        (index_byte-append 46 head tail (codec.dotless payload))
      ∙ ap (parts_of b64) (split-encode payload sig p (omega arith))
      ∙ ap (payload_of b64 tail) (codec.inverts payload)
      ∙ ap (sig_of b64 payload) (codec.inverts sig)
      ∙ ground arith
