-- ===== src/Tickets/Genuine.antt =====
-- internal/tickets/tickets.go: which tickets `Verify` accepts, and that a signed one is accepted.
use distributed_storage_plat.Common.{
  ℕ, ◌≡◌, refl, sym, ap, ◌∙◌, true, Bool-cases, Option-cases, inl, inr, some, List, Result, ok, err,
  ok-injective, err_ne_ok,
}
use distributed_storage_plat.Common.Bytes.{same_bytes, same_bytes-eq}
use distributed_storage_plat.Tickets.Wire.{Base64, Ed25519, decode_wire}
use distributed_storage_plat.Tickets.Codec.{Time, before, Ticket, TicketError, decode}
use distributed_storage_plat.Tickets.Sign.{in_time, checked, parse, bind_check, verify}

module _ (ed : Ed25519) (b64 : Base64) where
  -- A wire form that is genuine for a key: a payload with a signature that the key accepts.
  pub record IsGenuine (key wire : List ℕ) (t : Ticket) : Type 0 where
    pub payload : List ℕ
    pub sig : List ℕ
    pub parts : decode_wire b64 wire ≡ some (payload, sig)
    pub accepted : ed.verify_bytes key payload sig ≡ true
    pub fields : (u : Ticket) × (decode payload ≡ ok u) × (t ≡ record u { raw = wire })

  in_time-ok :
      (now : Time) (wire : List ℕ) (u t : Ticket)
      → in_time ed b64 now wire u ≡ ok t
      → (before now u.expires_at ≡ true) × (t ≡ record u { raw = wire })
  unfolding in_time
  in_time-ok now wire u t h = elim (Bool-cases (before now u.expires_at)) [
    | inl early ↦ (early, sym (ok-injective (rw (in_time, early) at h)))
    | inr late ↦ absurd (err_ne_ok (sym (rw (in_time, late) at h)))
  ]

  checked-ok :
      (key : List ℕ) (now : Time) (wire payload sig : List ℕ) (t : Ticket)
      → decode_wire b64 wire ≡ some (payload, sig)
      → checked ed b64 key now wire (payload, sig) ≡ ok t
      → IsGenuine key wire t × (before now t.expires_at ≡ true)
  unfolding checked
  checked-ok key now wire payload sig t p h = elim (Bool-cases (ed.verify_bytes key payload sig)) [
    | inr bad ↦ absurd (err_ne_ok (sym (rw (checked, bad) at h)))
    | inl good ↦ go good (decode payload) refl (rw (checked, good) at h)
  ]
    where
      go :
          ed.verify_bytes key payload sig ≡ true
          → (r : Result TicketError Ticket) → decode payload ≡ r
          → elim r [ err e ↦ err e | ok u ↦ in_time ed b64 now wire u ] ≡ ok t
          → IsGenuine key wire t × (before now t.expires_at ≡ true)
      go good (err e) d k = absurd (err_ne_ok (sym k))
      go good (ok u) d k =
          let (early, same) = in_time-ok now wire u t k in
          (
            record {
              payload = payload;
              sig = sig;
              parts = p;
              accepted = good;
              fields = (u, d, same);
            },
            ap (λ (v : Ticket). before now v.expires_at) same ∙ early,
          )

  parse-ok :
      (key : List ℕ) (now : Time) (wire : List ℕ) (t : Ticket)
      → parse ed b64 key now wire ≡ ok t
      → IsGenuine key wire t × (before now t.expires_at ≡ true)
  unfolding parse
  parse-ok key now wire t h = elim (Option-cases (decode_wire b64 wire)) [
    | inl none_it ↦ absurd (err_ne_ok (sym (rw (parse, none_it) at h)))
    | inr ((payload, sig), p) ↦ checked-ok key now wire payload sig t p (rw (parse, p) at h)
  ]

  bind_check-ok :
      (o node fragment : List ℕ) (u t : Ticket)
      → bind_check ed b64 o node fragment u ≡ ok t
      → (u ≡ t) × (u.op ≡ o) × (u.node_id ≡ node) × (u.fragment_id ≡ fragment)
  unfolding bind_check
  bind_check-ok o node fragment u t h = elim (Bool-cases (same_bytes u.op o)) [
    | inr other ↦ absurd (err_ne_ok (sym (rw (bind_check, other) at h)))
    | inl same_op ↦ elim (Bool-cases (same_bytes u.node_id node)) [
      | inr other ↦ absurd (err_ne_ok (sym (rw (bind_check, same_op, other) at h)))
      | inl same_node ↦ elim (Bool-cases (same_bytes u.fragment_id fragment)) [
        | inr other ↦ absurd (err_ne_ok (sym (rw (bind_check, same_op, same_node, other) at h)))
        | inl same_frag ↦ (
          ok-injective (rw (bind_check, same_op, same_node, same_frag) at h),
          same_bytes-eq _ _ same_op,
          same_bytes-eq _ _ same_node,
          same_bytes-eq _ _ same_frag,
        )
      ]
    ]
  ]

  -- An accepted ticket is genuine: the wire form has a payload that the key signed, the fields are
  -- those of the payload, the ticket is of the wanted operation, node and fragment, and it has
  -- not expired.
  pub verify-IsGenuine :
      (key : List ℕ) (now : Time) (wire o node fragment : List ℕ) (t : Ticket)
      → verify ed b64 key now wire o node fragment ≡ ok t
      → IsGenuine key wire t
        × (before now t.expires_at ≡ true)
        × (t.op ≡ o)
        × (t.node_id ≡ node)
        × (t.fragment_id ≡ fragment)
  unfolding verify
  verify-IsGenuine key now wire o node fragment t h = go (parse ed b64 key now wire) refl h
    where
      go :
          (r : Result TicketError Ticket)
          → parse ed b64 key now wire ≡ r
          → elim r [ err e ↦ err e | ok u ↦ bind_check ed b64 o node fragment u ] ≡ ok t
          → IsGenuine key wire t
            × (before now t.expires_at ≡ true)
            × (t.op ≡ o)
            × (t.node_id ≡ node)
            × (t.fragment_id ≡ fragment)
      go (err e) p k = absurd (err_ne_ok (sym k))
      go (ok u) p k =
          let (same, ho, hn, hf) = bind_check-ok o node fragment u t k in
          let (real, early) = parse-ok key now wire t (p ∙ ap ok same) in
          (
            real,
            early,
            sym (ap (λ (v : Ticket). v.op) same) ∙ ho,
            sym (ap (λ (v : Ticket). v.node_id) same) ∙ hn,
            sym (ap (λ (v : Ticket). v.fragment_id) same) ∙ hf,
          )
