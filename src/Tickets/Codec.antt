-- ===== src/Tickets/Codec.antt =====
-- internal/tickets/tickets.go: a ticket and its bytes.
-- Strings, ids and hashes are byte lists. A time is its seconds since 1970 with nanoseconds.
use distributed_storage_plat.Common.{
  ℕ, Bool, true, false, not, List, [], ◌∷◌, ◌++◌, ltb, ◌==◌, if◌then◌else◌, length, take, drop,
  Result, ok, err,
}
use distributed_storage_plat.Common.Int.{ℤ, ltb_ℤ}
use distributed_storage_plat.Common.Int64.{bits64, of_bits64}
use distributed_storage_plat.Common.Bytes.{be, unbe}

pub record Time : Type 0 where
  pub sec : ℤ
  pub nsec : ℕ

-- `time.Unix(sec, 0)`.
abbrev pub unix : ℤ → Time
unix s = record { sec = s; nsec = 0 }

-- `a.Before(b)`.
unfoldable pub before : Time → Time → Bool
before a b =
    if ltb_ℤ a.sec b.sec then true else if ltb_ℤ b.sec a.sec then false else ltb a.nsec b.nsec

pub record Ticket : Type 0 where
  pub op : List ℕ
  pub fragment_id : List ℕ
  pub node_id : List ℕ
  pub sha256 : List ℕ
  pub max_bytes : ℕ
  pub expires_at : Time
  pub nonce : List ℕ
  pub raw : List ℕ

pub data TicketError : Type 0 where
  invalid signature expired bound op_error no_entropy : TicketError

-- The strings "put", "get", "delete" and "challenge".
abbrev pub op_put : List ℕ
op_put = 112 ∷ 117 ∷ 116 ∷ []

abbrev pub op_get : List ℕ
op_get = 103 ∷ 101 ∷ 116 ∷ []

abbrev pub op_delete : List ℕ
op_delete = 100 ∷ 101 ∷ 108 ∷ 101 ∷ 116 ∷ 101 ∷ []

abbrev pub op_challenge : List ℕ
op_challenge = 99 ∷ 104 ∷ 97 ∷ 108 ∷ 108 ∷ 101 ∷ 110 ∷ 103 ∷ 101 ∷ []

unfoldable pub append_u16_string : List ℕ → List ℕ → List ℕ
append_u16_string buf s =
    let t = if ltb 65535 (length s) then take 65535 s else s in buf ++ be 2 (length t) ++ t

unfoldable pub take_u16_string : List ℕ → Result TicketError (List ℕ × List ℕ)
take_u16_string p =
    let n = unbe (take 2 p) in
    let q = drop 2 p in
    if ltb (length p) 2
    then err invalid
    else if ltb (length q) n
    then err invalid
    else ok (take n q, drop n q)

unfoldable pub append_u64 : List ℕ → ℕ → List ℕ
append_u64 buf n = buf ++ be 8 n

unfoldable pub append_i64 : List ℕ → ℤ → List ℕ
append_i64 buf n = buf ++ be 8 (bits64 n)

unfoldable pub encode : Ticket → List ℕ
unfolding append_u16_string append_u64 append_i64
encode t =
    append_i64
      (append_u64 (append_u16_string [] t.op ++ t.fragment_id ++ t.node_id ++ t.sha256) t.max_bytes)
      t.expires_at.sec
    ++ t.nonce

-- The fields behind the operation.
unfoldable pub decode_rest : List ℕ → List ℕ → Result TicketError Ticket
decode_rest o rest =
    let tail = drop 64 rest in
    if ltb (length rest) 96
    then err invalid
    else if not (length tail == 32)
    then err invalid
    else ok (record {
      op = o;
      fragment_id = take 16 rest;
      node_id = take 16 (drop 16 rest);
      sha256 = take 32 (drop 32 rest);
      max_bytes = unbe (take 8 tail);
      expires_at = unix (of_bits64 (unbe (take 8 (drop 8 tail))));
      nonce = take 16 (drop 16 tail);
      raw = [];
    })

unfoldable pub decode : List ℕ → Result TicketError Ticket
unfolding take_u16_string decode_rest
decode p = elim (take_u16_string p) [ err e ↦ err e | ok (o, rest) ↦ decode_rest o rest ]
