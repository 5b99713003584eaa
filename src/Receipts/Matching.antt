-- ===== src/Receipts/Matching.antt =====
-- internal/receipts/receipts.go: the bytes of a receipt, and which receipts `Verify` accepts.
use distributed_storage_plat.Common.{
  ℕ, ◌+◌, ◌<◌, ◌≡◌, ◌⊎◌, refl, sym, ap, ◌∙◌, true, ◌||◌, Bool-cases, Option-cases, inl, inr, some,
  List, [], ◌++◌, arith, ◌==◌, if◌then◌else◌, length, take, drop, length-append, take-append,
  drop-append, drop-drop, Result, ok, err, ok-injective, err_ne_ok,
}
use distributed_storage_plat.Common.Int64.{InRange, bits64, of_bits64}
use distributed_storage_plat.Common.Bytes.{
  be, unbe, word, length-be, unbe-be, same_bytes, same_bytes-eq,
}
use distributed_storage_plat.Tickets.Wire.{Base64, Ed25519, decode_wire}
use distributed_storage_plat.Tickets.Codec.{unix}
use distributed_storage_plat.Tickets.RoundTrip.{unbe-bits64}
use distributed_storage_plat.Receipts.Receipt.{
  Receipt, ReceiptError, encode, decode, checked, parse, match_check, verify,
}
use mathlib.Core.List.{append_assoc, append-nil}

-- The sizes of the fields; a nonce is missing or has 16 bytes.
pub record IsReceipt (r : Receipt) : Type 0 where
  pub node_16 : length r.node_id ≡ 16
  pub fragment_16 : length r.fragment_id ≡ 16
  pub sha_32 : length r.sha256 ≡ 32
  pub size_64 : r.size < word 8
  pub sec_64 : InRange r.stored_at.sec
  pub nonce_16 : (r.nonce ≡ []) ⊎ (length r.nonce ≡ 16)

-- What a receipt keeps in its bytes.
abbrev pub kept : Receipt → Receipt
kept r = record r { stored_at = unix r.stored_at.sec; raw = [] }

decode-fields :
    (p a b c m e n : List ℕ)
    → (length p == 80) || (length p == 96) ≡ true
    → take 16 p ≡ a
    → take 16 (drop 16 p) ≡ b
    → take 32 (drop 32 p) ≡ c
    → take 8 (drop 64 p) ≡ m
    → take 8 (drop 72 p) ≡ e
    → (if length p == 96 then drop 80 p else []) ≡ n
    → decode p
      ≡ ok (record {
        node_id = a;
        fragment_id = b;
        sha256 = c;
        size = unbe m;
        stored_at = unix (of_bits64 (unbe e));
        nonce = n;
        raw = [];
      })
unfolding decode
decode-fields p a b c m e n l ha hb hc hm he hn = elim (Bool-cases (length p == 80)) [
  | inl short ↦ rw (decode, hn, short, ha, hb, hc, hm, he) refl
  | inr other ↦
      let full : (length p == 96) ≡ true = rw other at l in
      rw (decode, hn, other, full, ha, hb, hc, hm, he) refl
]

bytes_of : Receipt → List ℕ
bytes_of r =
    r.node_id
    ++ (r.fragment_id ++ (r.sha256 ++ (be 8 r.size ++ (be 8 (bits64 r.stored_at.sec) ++ r.nonce))))

encode-flat : (r : Receipt) → (r.nonce ≡ []) ⊎ (length r.nonce ≡ 16) → encode r ≡ bytes_of r
unfolding encode bytes_of
encode-flat r (inl none_there) = rw (none_there, append-nil) (simp (append_assoc) refl)
encode-flat r (inr full) =
    let full_size : (length r.nonce == 16) ≡ true = ground arith in
    rw full_size (simp (append_assoc) refl)

nonce_back :
    (p n : List ℕ)
    → drop 80 p ≡ n
    → length p ≡ 80 + length n
    → (n ≡ []) ⊎ (length n ≡ 16)
    → (((length p == 80) || (length p == 96)) ≡ true)
      × ((if length p == 96 then drop 80 p else []) ≡ n)
nonce_back p n d l (inl none_there) =
    let short : length p ≡ 80 = l ∙ ap (λ k. 80 + length k) none_there in
    (rw short refl, rw short (sym none_there))
nonce_back p n d l (inr full) =
    let long : length p ≡ 96 = l ∙ ap (λ k. 80 + k) full in (rw long refl, rw long d)

-- Decoding the bytes of a receipt with fields of the right sizes, and a nonce that is missing or
-- has 16 bytes, gives the receipt back, with the time in whole seconds and without the wire form.
pub decode-encode_receipt : (r : Receipt) → IsReceipt r → decode (encode r) ≡ ok (kept r)
unfolding bytes_of
decode-encode_receipt r h =
    let a : List ℕ = r.node_id in
    let b : List ℕ = r.fragment_id in
    let c : List ℕ = r.sha256 in
    let m : List ℕ = be 8 r.size in
    let e : List ℕ = be 8 (bits64 r.stored_at.sec) in
    let r5 : List ℕ = e ++ r.nonce in
    let r4 : List ℕ = m ++ r5 in
    let r3 : List ℕ = c ++ r4 in
    let r2 : List ℕ = b ++ r3 in
    let p : List ℕ = a ++ r2 in
    let lm : length m ≡ 8 = length-be 8 r.size in
    let le : length e ≡ 8 = length-be 8 (bits64 r.stored_at.sec) in
    let d1 : drop 16 p ≡ r2 = drop-append 16 a r2 h.node_16 in
    let d2 : drop 32 p ≡ r3 =
      sym (drop-drop 16 16 32 p refl) ∙ ap (drop 16) d1 ∙ drop-append 16 b r3 h.fragment_16 in
    let d3 : drop 64 p ≡ r4 =
      sym (drop-drop 32 32 64 p refl) ∙ ap (drop 32) d2 ∙ drop-append 32 c r4 h.sha_32 in
    let d4 : drop 72 p ≡ r5 =
      sym (drop-drop 64 8 72 p refl) ∙ ap (drop 8) d3 ∙ drop-append 8 m r5 lm in
    let d5 : drop 80 p ≡ r.nonce =
      sym (drop-drop 72 8 80 p refl) ∙ ap (drop 8) d4 ∙ drop-append 8 e r.nonce le in
    let size : length p ≡ 80 + length r.nonce = omega (
      arith,
      h.node_16,
      h.fragment_16,
      h.sha_32,
      lm,
      le,
      length-append a r2,
      length-append b r3,
      length-append c r4,
      length-append m r5,
      length-append e r.nonce,
    ) in
    let back = nonce_back p r.nonce d5 size h.nonce_16 in
    ap decode (encode-flat r h.nonce_16)
    ∙ decode-fields p a b c m e r.nonce back.0 (take-append 16 a r2 h.node_16)
        (ap (take 16) d1 ∙ take-append 16 b r3 h.fragment_16)
        (ap (take 32) d2 ∙ take-append 32 c r4 h.sha_32) (ap (take 8) d3 ∙ take-append 8 m r5 lm)
        (ap (take 8) d4 ∙ take-append 8 e r.nonce le) back.1
    ∙ rw (unbe-be 8 r.size h.size_64, unbe-bits64 r.stored_at.sec h.sec_64) refl

module _ (ed : Ed25519) (b64 : Base64) where
  match_check-ok :
      (node fragment sha : List ℕ) (size : ℕ) (q r : Receipt)
      → match_check ed b64 node fragment sha size q ≡ ok r
      → (q ≡ r)
        × (q.node_id ≡ node)
        × (q.fragment_id ≡ fragment)
        × (q.size ≡ size)
        × (q.sha256 ≡ sha)
  unfolding match_check
  match_check-ok node fragment sha size q r h = elim (Bool-cases (same_bytes q.node_id node)) [
    | inr bad ↦ absurd (err_ne_ok (sym (rw (match_check, bad) at h)))
    | inl s1 ↦ elim (Bool-cases (same_bytes q.fragment_id fragment)) [
      | inr bad ↦ absurd (err_ne_ok (sym (rw (match_check, s1, bad) at h)))
      | inl s2 ↦ elim (Bool-cases (q.size == size)) [
        | inr bad ↦ absurd (err_ne_ok (sym (rw (match_check, s1, s2, bad) at h)))
        | inl s3 ↦ elim (Bool-cases (length sha == 32)) [
          | inr bad ↦ absurd (err_ne_ok (sym (rw (match_check, s1, s2, s3, bad) at h)))
          | inl s4 ↦ elim (Bool-cases (same_bytes q.sha256 sha)) [
            | inr bad ↦ absurd (err_ne_ok (sym (rw (match_check, s1, s2, s3, s4, bad) at h)))
            | inl s5 ↦ (
              ok-injective (rw (match_check, s1, s2, s3, s4, s5) at h),
              same_bytes-eq _ _ s1,
              same_bytes-eq _ _ s2,
              ground arith,
              same_bytes-eq _ _ s5,
            )
          ]
        ]
      ]
    ]
  ]

  -- A wire form that is genuine for a node's key: a payload with a signature that the key accepts.
  pub record IsGenuine (key wire : List ℕ) (r : Receipt) : Type 0 where
    pub payload : List ℕ
    pub sig : List ℕ
    pub parts : decode_wire b64 wire ≡ some (payload, sig)
    pub accepted : ed.verify_bytes key payload sig ≡ true
    pub fields : (q : Receipt) × (decode payload ≡ ok q) × (r ≡ record q { raw = wire })

  checked-ok :
      (wire key payload sig : List ℕ) (r : Receipt)
      → decode_wire b64 wire ≡ some (payload, sig)
      → checked ed b64 wire key (payload, sig) ≡ ok r
      → IsGenuine key wire r
  unfolding checked
  checked-ok wire key payload sig r p h = elim (Bool-cases (length key == 32)) [
    | inr bad ↦ absurd (err_ne_ok (sym (rw (checked, bad) at h)))
    | inl size ↦ elim (Bool-cases (ed.verify_bytes key payload sig)) [
      | inr bad ↦ absurd (err_ne_ok (sym (rw (checked, size, bad) at h)))
      | inl good ↦ go good (decode payload) refl (rw (checked, size, good) at h)
    ]
  ]
    where
      go :
          ed.verify_bytes key payload sig ≡ true
          → (d : Result ReceiptError Receipt) → decode payload ≡ d
          → elim d [ err e ↦ err e | ok q ↦ ok (record q { raw = wire }) ] ≡ ok r
          → IsGenuine key wire r
      go good (err e) d k = absurd (err_ne_ok (sym k))
      go good (ok q) d k = record {
        payload = payload;
        sig = sig;
        parts = p;
        accepted = good;
        fields = (q, d, sym (ok-injective k));
      }

  parse-ok : (wire key : List ℕ) (r : Receipt) → parse ed b64 wire key ≡ ok r → IsGenuine key wire r
  unfolding parse
  parse-ok wire key r h = elim (Option-cases (decode_wire b64 wire)) [
    | inl no_parts ↦ absurd (err_ne_ok (sym (rw (parse, no_parts) at h)))
    | inr ((payload, sig), p) ↦ checked-ok wire key payload sig r p (rw (parse, p) at h)
  ]

  -- An accepted receipt is what the node signed: the wire form has a payload that the key of the
  -- node signed, the fields are those of the payload, and they name the expected node, fragment,
  -- hash and size.
  pub verify-IsGenuine_receipt :
      (wire key node fragment sha : List ℕ) (size : ℕ) (r : Receipt)
      → verify ed b64 wire key node fragment sha size ≡ ok r
      → IsGenuine key wire r
        × (r.node_id ≡ node)
        × (r.fragment_id ≡ fragment)
        × (r.size ≡ size)
        × (r.sha256 ≡ sha)
  unfolding verify
  verify-IsGenuine_receipt wire key node fragment sha size r h = go (parse ed b64 wire key) refl h
    where
      go :
          (d : Result ReceiptError Receipt)
          → parse ed b64 wire key ≡ d
          → elim d [ err e ↦ err e | ok q ↦ match_check ed b64 node fragment sha size q ] ≡ ok r
          → IsGenuine key wire r
            × (r.node_id ≡ node)
            × (r.fragment_id ≡ fragment)
            × (r.size ≡ size)
            × (r.sha256 ≡ sha)
      go (err e) p k = absurd (err_ne_ok (sym k))
      go (ok q) p k =
          let (same, h1, h2, h3, h4) = match_check-ok node fragment sha size q r k in
          (
            parse-ok wire key r (p ∙ ap ok same),
            sym (ap (λ (x : Receipt). x.node_id) same) ∙ h1,
            sym (ap (λ (x : Receipt). x.fragment_id) same) ∙ h2,
            sym (ap (λ (x : Receipt). x.size) same) ∙ h3,
            sym (ap (λ (x : Receipt). x.sha256) same) ∙ h4,
          )
