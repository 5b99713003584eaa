-- ===== src/Tickets/RoundTrip.antt =====
-- internal/tickets/tickets.go: `decode` inverts `encode`, and the bytes bind every field.
use distributed_storage_plat.Common.{
  ℕ, ◌<◌, ◌≤◌, ◌≡◌, refl, sym, ap, ◌∙◌, false, List, [], ◌++◌, arith, ltb, if◌then◌else◌, length,
  take, drop, length-append, take-append, drop-append, drop-drop, take-length, ok, ok-injective,
}
use distributed_storage_plat.Common.Int.{ℤ, pos, negsuc}
use distributed_storage_plat.Common.Int64.{InRange, bits64, of_bits64, wrap64, wrap64_id}
use distributed_storage_plat.Common.Bytes.{be, unbe, word, length-be, unbe-be}
use distributed_storage_plat.Tickets.Codec.{
  unix, Ticket, take_u16_string, decode_rest, append_u16_string, append_u64, append_i64, encode,
  decode,
}
use mathlib.Core.List.{append_assoc}

-- The sizes of the fields; ids, hashes and nonces have fixed sizes, and an operation fits its
-- length prefix.
pub record IsTicket (t : Ticket) : Type 0 where
  pub op_fits : length t.op ≤ 65535
  pub fragment_16 : length t.fragment_id ≡ 16
  pub node_16 : length t.node_id ≡ 16
  pub sha_32 : length t.sha256 ≡ 32
  pub max_64 : t.max_bytes < word 8
  pub sec_64 : InRange t.expires_at.sec
  pub nonce_16 : length t.nonce ≡ 16

-- What a ticket keeps in its bytes: whole seconds, and no wire form.
abbrev pub kept : Ticket → Ticket
kept t = record t { expires_at = unix t.expires_at.sec; raw = [] }

decode_rest-fields :
    (o rest a b c tail m e n : List ℕ)
    → length rest ≡ 96
    → length tail ≡ 32
    → drop 64 rest ≡ tail
    → take 16 rest ≡ a
    → take 16 (drop 16 rest) ≡ b
    → take 32 (drop 32 rest) ≡ c
    → take 8 tail ≡ m
    → take 8 (drop 8 tail) ≡ e
    → take 16 (drop 16 tail) ≡ n
    → decode_rest o rest
      ≡ ok (record {
        op = o;
        fragment_id = a;
        node_id = b;
        sha256 = c;
        max_bytes = unbe m;
        expires_at = unix (of_bits64 (unbe e));
        nonce = n;
        raw = [];
      })
unfolding decode_rest
decode_rest-fields o rest a b c tail m e n full last d ha hb hc hm he hn =
    rw (d, full, last, ha, hb, hc, hm, he, hn) refl

decode_rest-blocks :
    (o a b c m e n : List ℕ)
    → length a ≡ 16
    → length b ≡ 16
    → length c ≡ 32
    → length m ≡ 8
    → length e ≡ 8
    → length n ≡ 16
    → decode_rest o (a ++ (b ++ (c ++ (m ++ (e ++ n)))))
      ≡ ok (record {
        op = o;
        fragment_id = a;
        node_id = b;
        sha256 = c;
        max_bytes = unbe m;
        expires_at = unix (of_bits64 (unbe e));
        nonce = n;
        raw = [];
      })
decode_rest-blocks o a b c m e n la lb lc lm le ln =
    let r5 : List ℕ = e ++ n in
    let r4 : List ℕ = m ++ r5 in
    let r3 : List ℕ = c ++ r4 in
    let r2 : List ℕ = b ++ r3 in
    let rest : List ℕ = a ++ r2 in
    let d1 : drop 16 rest ≡ r2 = drop-append 16 a r2 la in
    let d2 : drop 32 rest ≡ r3 =
      sym (drop-drop 16 16 32 rest refl) ∙ ap (drop 16) d1 ∙ drop-append 16 b r3 lb in
    let d3 : drop 64 rest ≡ r4 =
      sym (drop-drop 32 32 64 rest refl) ∙ ap (drop 32) d2 ∙ drop-append 32 c r4 lc in
    let d4 : drop 8 r4 ≡ r5 = drop-append 8 m r5 lm in
    let d5 : drop 16 r4 ≡ n =
      sym (drop-drop 8 8 16 r4 refl) ∙ ap (drop 8) d4 ∙ drop-append 8 e n le in
    let t1 : take 16 rest ≡ a = take-append 16 a r2 la in
    let t2 : take 16 (drop 16 rest) ≡ b = ap (take 16) d1 ∙ take-append 16 b r3 lb in
    let t3 : take 32 (drop 32 rest) ≡ c = ap (take 32) d2 ∙ take-append 32 c r4 lc in
    let t4 : take 8 (drop 8 r4) ≡ e = ap (take 8) d4 ∙ take-append 8 e n le in
    let t5 : take 16 (drop 16 r4) ≡ n =
      ap (take 16) d5 ∙ ap (λ (j : ℕ). take j n) (sym ln) ∙ take-length n in
    let full : length rest ≡ 96 = omega (
      arith,
      length-append a r2,
      length-append b r3,
      length-append c r4,
      length-append m r5,
      length-append e n,
    ) in
    let last : length r4 ≡ 32 = omega (arith, length-append m r5, length-append e n) in
    decode_rest-fields o rest a b c r4 m e n full last d3 t1 t2 t3 (take-append 8 m r5 lm) t4 t5

op_bytes : Ticket → List ℕ
op_bytes t = be 2 (length t.op)

tail_bytes : Ticket → List ℕ
tail_bytes t =
    t.fragment_id
    ++ (t.node_id
        ++ (t.sha256 ++ (be 8 t.max_bytes ++ (be 8 (bits64 t.expires_at.sec) ++ t.nonce))))

append_u16_string-fits :
    (s : List ℕ) → length s ≤ 65535 → append_u16_string [] s ≡ be 2 (length s) ++ s
unfolding append_u16_string
append_u16_string-fits s h =
    ap (λ b. be 2 (length (if b then take 65535 s else s)) ++ (if b then take 65535 s else s))
      (short (length s) h)
  where
    short : (n : ℕ) → n ≤ 65535 → ltb 65535 n ≡ false
    short n h = ground arith

encode-flat : (t : Ticket) → IsTicket t → encode t ≡ op_bytes t ++ (t.op ++ tail_bytes t)
unfolding encode op_bytes tail_bytes append_u64 append_i64
encode-flat t h =
    ap
      (λ (b : List ℕ).
        append_i64 (append_u64 (b ++ t.fragment_id ++ t.node_id ++ t.sha256) t.max_bytes)
          t.expires_at.sec
        ++ t.nonce)
      (append_u16_string-fits t.op h.op_fits)
    ∙ simp (append_assoc) refl

take_u16_string-append :
    (o rest : List ℕ)
    → length o ≤ 65535
    → take_u16_string (be 2 (length o) ++ (o ++ rest)) ≡ ok (o, rest)
unfolding take_u16_string
take_u16_string-append o rest h =
    let p : List ℕ = be 2 (length o) ++ (o ++ rest) in
    let t : take 2 p ≡ be 2 (length o) = take-append 2 _ (o ++ rest) (length-be 2 _) in
    let d : drop 2 p ≡ o ++ rest = drop-append 2 _ (o ++ rest) (length-be 2 _) in
    let n : unbe (take 2 p) ≡ length o = ap unbe t ∙ unbe-be 2 (length o) (omega arith) in
    ground (
      arith,
      n,
      d,
      length-append (be 2 (length o)) (o ++ rest),
      length-be 2 (length o),
      length-append o rest,
      take-append (length o) o rest refl,
      drop-append (length o) o rest refl,
    )

decode-split :
    (p o rest : List ℕ) → take_u16_string p ≡ ok (o, rest) → decode p ≡ decode_rest o rest
unfolding decode
decode-split p o rest h = rw (decode, h) refl

bits64-bound : (a : ℤ) → bits64 a < word 8
bits64-bound (pos n) = omega arith
bits64-bound (negsuc n) = omega arith

-- The seconds of a time survive their eight bytes.
pub unbe-bits64 : (a : ℤ) → InRange a → of_bits64 (unbe (be 8 (bits64 a))) ≡ a
unfolding wrap64
unbe-bits64 a h = ap of_bits64 (unbe-be 8 (bits64 a) (bits64-bound a)) ∙ wrap64_id a h

-- Decoding the bytes of a ticket with fields of the right sizes gives the ticket back, with the
-- expiry time cut to whole seconds and without the wire form.
pub decode-encode : (t : Ticket) → IsTicket t → decode (encode t) ≡ ok (kept t)
unfolding tail_bytes op_bytes
decode-encode t h =
    decode-split (encode t) t.op (tail_bytes t)
      (ap take_u16_string (encode-flat t h) ∙ take_u16_string-append t.op (tail_bytes t) h.op_fits)
    ∙ decode_rest-blocks t.op t.fragment_id t.node_id t.sha256 (be 8 t.max_bytes)
        (be 8 (bits64 t.expires_at.sec)) t.nonce h.fragment_16 h.node_16 h.sha_32 (length-be 8 _)
        (length-be 8 _) h.nonce_16
    ∙ rw (unbe-be 8 t.max_bytes h.max_64, unbe-bits64 t.expires_at.sec h.sec_64) refl

-- Two tickets with fields of the right sizes and the same signed bytes agree in the operation,
-- the ids, the hash, the size limit, the nonce, and the expiry in seconds.
pub encode_injective :
    (t u : Ticket) → IsTicket t → IsTicket u → encode t ≡ encode u → kept t ≡ kept u
encode_injective t u h k e =
    ok-injective (sym (decode-encode t h) ∙ ap decode e ∙ decode-encode u k)
