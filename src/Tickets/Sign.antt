-- ===== src/Tickets/Sign.antt =====
-- internal/tickets/tickets.go: `Signer.Sign`, `Verifier.Parse` and `Verifier.Verify`.
-- The clock and crypto/rand are arguments: the time at the call, and the random bytes or `none`
-- for an error.
use distributed_storage_plat.Common.{
  ℕ, Bool, false, not, ◌&&◌, ◌||◌, Option, none, some, List, [], ◌∷◌, ◌==◌, if◌then◌else◌, length,
  Result, ok, err,
}
use distributed_storage_plat.Common.Int.{pos, negsuc}
use distributed_storage_plat.Common.Int64.{add64}
use distributed_storage_plat.Common.Bytes.{same_bytes}
use distributed_storage_plat.Tickets.Wire.{Base64, Ed25519, encode_wire, decode_wire}
use distributed_storage_plat.Tickets.Codec.{
  Time, before, Ticket, TicketError, invalid, signature, expired, bound, op_error, no_entropy,
  op_put, op_get, op_delete, op_challenge, encode, decode,
}

-- `uuid.Nil`.
abbrev pub nil_id : List ℕ
nil_id = 0 ∷ 0 ∷ 0 ∷ 0 ∷ 0 ∷ 0 ∷ 0 ∷ 0 ∷ 0 ∷ 0 ∷ 0 ∷ 0 ∷ 0 ∷ 0 ∷ 0 ∷ 0 ∷ []

-- `t.IsZero()`: the start of the year 1.
unfoldable pub is_zero_time : Time → Bool
is_zero_time t = elim t.sec [ pos n ↦ false | negsuc n ↦ n == 62135596799 && t.nsec == 0 ]

-- `t.Add(DefaultTTL)`, 15 minutes.
abbrev pub add_ttl : Time → Time
add_ttl t = record t { sec = add64 t.sec (pos 900) }

unfoldable pub known_op : List ℕ → Bool
known_op o =
    same_bytes o op_put
    || same_bytes o op_get
    || same_bytes o op_delete
    || same_bytes o op_challenge

unfoldable pub fill_nonce : Option (List ℕ) → Ticket → Result TicketError Ticket
fill_nonce entropy t =
    if length t.nonce == 0
    then elim entropy [ none ↦ err no_entropy | some bs ↦ ok (record t { nonce = bs }) ]
    else ok t

unfoldable pub fill_expiry : Time → Ticket → Ticket
fill_expiry now t = if is_zero_time t.expires_at then record t { expires_at = add_ttl now } else t

module _ (ed : Ed25519) (b64 : Base64) where
  unfoldable pub seal : List ℕ → Ticket → Ticket
  seal key t = record t { raw = encode_wire b64 (encode t) (ed.sign_bytes key (encode t)) }

  unfoldable pub finish : List ℕ → Time → Ticket → Result TicketError Ticket
  finish key now t =
      if not (length t.nonce == 16) then err invalid else ok (seal key (fill_expiry now t))

  unfoldable pub sign : List ℕ → Time → Option (List ℕ) → Ticket → Result TicketError Ticket
  unfolding finish
  sign key now entropy t =
      if not (known_op t.op)
      then err op_error
      else if same_bytes t.fragment_id nil_id || same_bytes t.node_id nil_id
      then err invalid
      else if not (length t.sha256 == 32)
      then err invalid
      else elim (fill_nonce entropy t) [ err e ↦ err e | ok u ↦ finish key now u ]

  unfoldable pub in_time : Time → List ℕ → Ticket → Result TicketError Ticket
  in_time now wire t =
      if not (before now t.expires_at) then err expired else ok (record t { raw = wire })

  unfoldable pub checked : List ℕ → Time → List ℕ → List ℕ × List ℕ → Result TicketError Ticket
  checked key now wire (payload, sig) =
      if not (ed.verify_bytes key payload sig)
      then err signature
      else elim (decode payload) [ err e ↦ err e | ok t ↦ in_time now wire t ]

  unfoldable pub parse : List ℕ → Time → List ℕ → Result TicketError Ticket
  unfolding checked in_time
  parse key now wire = elim (decode_wire b64 wire) [
    | none ↦ err invalid
    | some parts ↦ checked key now wire parts
  ]

  unfoldable pub bind_check : List ℕ → List ℕ → List ℕ → Ticket → Result TicketError Ticket
  bind_check o node fragment t =
      if not (same_bytes t.op o)
      then err op_error
      else if not (same_bytes t.node_id node) || not (same_bytes t.fragment_id fragment)
      then err bound
      else ok t

  unfoldable pub verify :
      List ℕ → Time → List ℕ → List ℕ → List ℕ → List ℕ → Result TicketError Ticket
  unfolding bind_check
  verify key now wire o node fragment = elim (parse key now wire) [
    | err e ↦ err e
    | ok t ↦ bind_check o node fragment t
  ]

  -- `Decode`, which does not look at the signature.
  unfoldable pub decode_unverified : List ℕ → Result TicketError Ticket
  decode_unverified wire = elim (decode_wire b64 wire) [
    | none ↦ err invalid
    | some (payload, _) ↦ decode payload
  ]

-- `EqualSHA`.
unfoldable pub equal_sha : List ℕ → List ℕ → Bool
equal_sha a b = if not (length a == 32) || not (length b == 32) then false else same_bytes a b
