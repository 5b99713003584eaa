-- ===== src/Tickets/Accepted.antt =====
-- internal/tickets/tickets.go: what `Sign` returns, `Verify` accepts until it expires.
use distributed_storage_plat.Common.{
  ℕ, ◌<◌, ◌≤◌, ◌≡◌, refl, sym, ap, subst, ◌∙◌, true, ◌||◌, Bool-cases, inl, inr, Option, none, some,
  List, arith, ◌==◌, length, length-append, Result, ok, err, ok-injective, err_ne_ok,
}
use distributed_storage_plat.Common.Int64.{InRange}
use distributed_storage_plat.Common.Bytes.{word, same_bytes, same_bytes-eq, same_bytes_refl}
use distributed_storage_plat.Tickets.Wire.{
  Base64, Ed25519, IsCodec, IsSignature, decode_wire, decode-encode_wire,
}
use distributed_storage_plat.Tickets.Codec.{
  Time, unix, before, Ticket, TicketError, op_put, op_get, op_delete, op_challenge, encode,
}
use distributed_storage_plat.Tickets.RoundTrip.{IsTicket, kept, decode-encode}
use distributed_storage_plat.Tickets.Sign.{
  nil_id, is_zero_time, known_op, fill_nonce, fill_expiry, seal, finish, sign, in_time, checked,
  parse, bind_check, verify,
}

known_op-short : (o : List ℕ) → known_op o ≡ true → length o ≤ 9
unfolding known_op
known_op-short o h = elim (Bool-cases (same_bytes o op_put)) [
  | inl e ↦ omega (arith, ap length (same_bytes-eq o op_put e))
  | inr e1 ↦ elim (Bool-cases (same_bytes o op_get)) [
    | inl e ↦ omega (arith, ap length (same_bytes-eq o op_get e))
    | inr e2 ↦ elim (Bool-cases (same_bytes o op_delete)) [
      | inl e ↦ omega (arith, ap length (same_bytes-eq o op_delete e))
      | inr e3 ↦ elim (Bool-cases (same_bytes o op_challenge)) [
        | inl e ↦ omega (arith, ap length (same_bytes-eq o op_challenge e))
        | inr e4 ↦ absurd (cc (rw (known_op, e1, e2, e3, e4) at h))
      ]
    ]
  ]
]

-- What the type `[16]byte` of ids and the width of `MaxBytes` say of a ticket.
pub record IsTyped (t : Ticket) : Type 0 where
  pub fragment_16 : length t.fragment_id ≡ 16
  pub node_16 : length t.node_id ≡ 16
  pub max_64 : t.max_bytes < word 8

-- The same with what `sign` checks: it does not look at the time and the nonce.
abbrev IsReady : Ticket → Type 0
IsReady t =
    (length t.fragment_id ≡ 16)
    × (length t.node_id ≡ 16)
    × (t.max_bytes < word 8)
    × (length t.op ≤ 9)
    × (length t.sha256 ≡ 32)

fill_nonce-IsReady :
    (entropy : Option (List ℕ)) (t u : Ticket) → IsReady t → fill_nonce entropy t ≡ ok u → IsReady u
unfolding fill_nonce
fill_nonce-IsReady entropy t u r h = elim (Bool-cases (length t.nonce == 0)) [
  | inr given ↦ subst IsReady (ok-injective (rw given at h)) r
  | inl empty ↦ go entropy (rw empty at h)
]
  where
    go :
        (e : Option (List ℕ))
        → elim e [ none ↦ err TicketError.no_entropy | some bs ↦ ok (record t { nonce = bs }) ]
          ≡ ok u
        → IsReady u
    go none k = absurd (err_ne_ok (sym k))
    go (some bs) k = subst IsReady (ok-injective k) r

fill_expiry-IsReady : (now : Time) (t : Ticket) → IsReady t → IsReady (fill_expiry now t)
unfolding fill_expiry
fill_expiry-IsReady now t r = elim (Bool-cases (is_zero_time t.expires_at)) [
  | inl zero_time ↦ rw (fill_expiry, zero_time) r
  | inr given ↦ rw (fill_expiry, given) r
]

nonce-fill_expiry :
    (now : Time) (t : Ticket) → length (Ticket.nonce (fill_expiry now t)) ≡ length t.nonce
unfolding fill_expiry
nonce-fill_expiry now t = elim (Bool-cases (is_zero_time t.expires_at)) [
  | inl zero_time ↦ rw (fill_expiry, zero_time) refl
  | inr given ↦ rw (fill_expiry, given) refl
]

module _ (ed : Ed25519) (b64 : Base64) where
  finish-ok :
      (key : List ℕ) (now : Time) (t s : Ticket)
      → IsReady t
      → finish ed b64 key now t ≡ ok s
      → (u : Ticket) × IsReady u × (length u.nonce ≡ 16) × (s ≡ seal ed b64 key u)
  unfolding finish
  finish-ok key now t s r h = elim (Bool-cases (length t.nonce == 16)) [
    | inr bad ↦ absurd (err_ne_ok (sym (rw (finish, bad) at h)))
    | inl full ↦ (
      fill_expiry now t,
      fill_expiry-IsReady now t r,
      nonce-fill_expiry now t ∙ ground arith,
      sym (ok-injective (rw (finish, full) at h)),
    )
  ]

  sign-ok :
      (key : List ℕ) (now : Time) (entropy : Option (List ℕ)) (t s : Ticket)
      → IsTyped t
      → sign ed b64 key now entropy t ≡ ok s
      → (u : Ticket) × IsReady u × (length u.nonce ≡ 16) × (s ≡ seal ed b64 key u)
  unfolding sign
  sign-ok key now entropy t s r h = elim (Bool-cases (known_op t.op)) [
    | inr bad ↦ absurd (err_ne_ok (sym (rw (sign, bad) at h)))
    | inl known ↦
        elim (Bool-cases (same_bytes t.fragment_id nil_id || same_bytes t.node_id nil_id)) [
          | inl bad ↦ absurd (err_ne_ok (sym (rw (sign, known, bad) at h)))
          | inr ids ↦ elim (Bool-cases (length t.sha256 == 32)) [
            | inr bad ↦ absurd (err_ne_ok (sym (rw (sign, known, ids, bad) at h)))
            | inl full ↦
                go (r.fragment_16, r.node_16, r.max_64, known_op-short t.op known, ground arith)
                  (fill_nonce entropy t) refl (rw (sign, known, ids, full) at h)
          ]
        ]
  ]
    where
      go :
          IsReady t
          → (f : Result TicketError Ticket) → fill_nonce entropy t ≡ f
          → elim f [ err e ↦ err e | ok u ↦ finish ed b64 key now u ] ≡ ok s
          → (u : Ticket) × IsReady u × (length u.nonce ≡ 16) × (s ≡ seal ed b64 key u)
      go q (err e) p k = absurd (err_ne_ok (sym k))
      go q (ok u) p k = finish-ok key now u s (fill_nonce-IsReady entropy t u q p) k

  sealed_wire :
      (key : List ℕ) (u : Ticket)
      → IsCodec b64
      → IsSignature ed
      → length u.nonce ≡ 16
      → decode_wire b64 (Ticket.raw (seal ed b64 key u))
        ≡ some (encode u, ed.sign_bytes key (encode u))
  unfolding seal encode
  sealed_wire key u codec sig n =
      decode-encode_wire b64 codec (encode u) (ed.sign_bytes key (encode u))
        (omega (arith, length-append _ u.nonce)) (sig.size key (encode u))

  parse-seal :
      (key : List ℕ) (now : Time) (u : Ticket)
      → IsCodec b64
      → IsSignature ed
      → IsTicket u
      → before now (unix u.expires_at.sec) ≡ true
      → parse ed b64 (ed.public key) now (Ticket.raw (seal ed b64 key u))
        ≡ ok (record (kept u) { raw = Ticket.raw (seal ed b64 key u) })
  unfolding parse checked in_time
  parse-seal key now u codec sig fits early =
      rw
        (
          parse,
          sealed_wire key u codec sig fits.nonce_16,
          checked,
          sig.accepts key (encode u),
          decode-encode u fits,
          in_time,
          early,
        )
        refl

  verify-seal :
      (key : List ℕ) (now : Time) (u : Ticket)
      → IsCodec b64
      → IsSignature ed
      → IsReady u
      → length u.nonce ≡ 16
      → InRange u.expires_at.sec
      → before now (unix u.expires_at.sec) ≡ true
      → verify ed b64
          (ed.public key)
          now
          (Ticket.raw (seal ed b64 key u))
          u.op
          u.node_id
          u.fragment_id
        ≡ ok (record (kept u) { raw = Ticket.raw (seal ed b64 key u) })
  unfolding verify bind_check
  verify-seal key now u codec sig (f16, n16, max, short, sha) n range early =
      let fits : IsTicket u = record {
        op_fits = omega arith;
        fragment_16 = f16;
        node_16 = n16;
        sha_32 = sha;
        max_64 = max;
        sec_64 = range;
        nonce_16 = n;
      } in
      rw
        (
          verify,
          parse-seal key now u codec sig fits early,
          bind_check,
          same_bytes_refl u.op,
          same_bytes_refl u.node_id,
          same_bytes_refl u.fragment_id,
        )
        refl

  -- A ticket that `Sign` returned is accepted: before the whole second of its expiry, the public
  -- key of the signer verifies its wire form for its own operation, node and fragment, and gives
  -- back its fields, the expiry cut to whole seconds. The ids of the ticket have 16 bytes, its
  -- size limit is a uint64 and its expiry an int64; base64 and Ed25519 are as documented.
  pub verify-sign :
      (key : List ℕ) (made now : Time) (entropy : Option (List ℕ)) (t s : Ticket)
      → IsCodec b64
      → IsSignature ed
      → IsTyped t
      → sign ed b64 key made entropy t ≡ ok s
      → InRange s.expires_at.sec
      → before now (unix s.expires_at.sec) ≡ true
      → verify ed b64 (ed.public key) now s.raw s.op s.node_id s.fragment_id
        ≡ ok (record (kept s) { raw = s.raw })
  unfolding seal
  verify-sign key made now entropy t s codec sig typed h range early =
      let (u, ready, n, same) = sign-ok key made entropy t s typed h in
      subst
        (λ (v : Ticket).
          InRange v.expires_at.sec
          → before now (unix v.expires_at.sec) ≡ true
          → verify ed b64 (ed.public key) now v.raw v.op v.node_id v.fragment_id
            ≡ ok (record (kept v) { raw = v.raw }))
        (sym same) (verify-seal key now u codec sig ready n) range early
