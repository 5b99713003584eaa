-- ===== src/Agent/Nonces.antt =====
-- internal/agent/store.go, `ConsumeNonce`: a nonce is accepted once before its expiry.
use distributed_storage_plat.Common.{
  ℕ, ◌≡◌, ◌⊎◌, refl, sym, ap, ◌∙◌, Bool, true, false, Bool-cases, inl, inr, some, List, [], ◌∷◌,
  All, Result, ok, err, err_ne_ok,
}
use distributed_storage_plat.Common.Int.{ℤ, ltb_ℤ}
use distributed_storage_plat.Common.Int64.{InRange, bits64}
use distributed_storage_plat.Common.Bytes.{be, same_bytes, same_bytes-eq, same_bytes_refl}
use distributed_storage_plat.Tickets.RoundTrip.{unbe-bits64}
use distributed_storage_plat.Agent.ChunkStore.{
  ChunkStore, StoreError, replay, is_replay, consume_nonce,
}

-- A call of `ConsumeNonce`: whether the transaction works, the clock, the nonce and the expiry.
pub record Use : Type 0 where
  pub works : Bool
  pub now : ℤ
  pub nonce : List ℕ
  pub exp : ℤ

abbrev pub consume : Use → ChunkStore → Result StoreError (Unit {0}) × ChunkStore
consume u s = consume_nonce u.works u.now u.nonce u.exp s

-- The state after a sequence of calls.
unfoldable pub consume_all : List Use → ChunkStore → ChunkStore
consume_all [] s = s
consume_all (u ∷ us) s = consume_all us (consume u s).1

-- Another nonce, or a time before the expiry `exp`.
abbrev pub IsEarly : List ℕ → ℤ → Use → Type 0
IsEarly nonce exp u = (same_bytes nonce u.nonce ≡ false) ⊎ (ltb_ℤ u.now exp ≡ true)

-- The bucket holds the nonce with the expiry.
abbrev Holds : List ℕ → ℤ → ChunkStore → Type 0
Holds nonce exp s = s.nonces nonce ≡ some (be 8 (bits64 exp))

accepted-Holds :
    (now : ℤ) (nonce : List ℕ) (exp : ℤ) (works : Bool) (s t : ChunkStore)
    → consume_nonce works now nonce exp s ≡ (ok tt, t)
    → Holds nonce exp t
unfolding consume_nonce
accepted-Holds now nonce exp false s t h = absurd (err_ne_ok (sym (ap (λ p. p.0) h)))
accepted-Holds now nonce exp true s t h = elim (Bool-cases (is_replay now (s.nonces nonce))) [
  | inl used ↦ absurd (err_ne_ok (sym (ap (λ p. p.0) (rw (consume_nonce, used) at h))))
  | inr new ↦
      sym (
        ap (λ (p : Result StoreError (Unit {0}) × ChunkStore). p.1.nonces nonce)
          (rw (consume_nonce, new) at h))
      ∙ rw (same_bytes_refl nonce) refl
]

Holds-replay :
    (nonce : List ℕ) (exp now : ℤ) (s : ChunkStore)
    → InRange exp
    → ltb_ℤ now exp ≡ true
    → Holds nonce exp s
    → is_replay now (s.nonces nonce) ≡ true
unfolding is_replay
Holds-replay nonce exp now s r early h =
    ap (is_replay now) h ∙ ap (ltb_ℤ now) (unbe-bits64 exp r) ∙ early

consume-Holds :
    (nonce : List ℕ) (exp : ℤ) (u : Use) (s : ChunkStore)
    → InRange exp
    → IsEarly nonce exp u
    → Holds nonce exp s
    → Holds nonce exp (consume u s).1
unfolding consume_nonce
consume-Holds nonce exp u s r e h = elim (Bool-cases u.works) [
  | inr broken ↦ rw (consume_nonce, broken) h
  | inl works ↦ elim (Bool-cases (is_replay u.now (s.nonces u.nonce))) [
    | inl used ↦ rw (consume_nonce, works, used) h
    | inr new ↦ elim (Bool-cases (same_bytes nonce u.nonce)) [
      | inr other ↦ rw (consume_nonce, works, new, other) h
      | inl same ↦
          let nonces : nonce ≡ u.nonce = same_bytes-eq nonce u.nonce same in
          let early : ltb_ℤ u.now exp ≡ true = elim e [
            | inl other ↦ absurd (cc)
            | inr early ↦ early
          ] in
          let used : is_replay u.now (s.nonces u.nonce) ≡ true =
            ap (λ k. is_replay u.now (s.nonces k)) (sym nonces)
            ∙ Holds-replay nonce exp u.now s r early h in
          absurd (cc)
    ]
  ]
]

consume_all-Holds :
    (nonce : List ℕ) (exp : ℤ) (us : List Use) (s : ChunkStore)
    → InRange exp
    → All (IsEarly nonce exp) us
    → Holds nonce exp s
    → Holds nonce exp (consume_all us s)
unfolding consume_all
consume_all-Holds nonce exp [] s r e h = h
consume_all-Holds nonce exp (u ∷ us) s r e h =
    consume_all-Holds nonce exp us (consume u s).1 r e.1 (consume-Holds nonce exp u s r e.0 h)

-- A nonce is accepted once: after a call that accepted it with an expiry, and any later calls
-- with other nonces or before that expiry, a call with it before the expiry is a replay, and the
-- store stays as it is.
pub consume_nonce_once :
    (made now : ℤ) (nonce : List ℕ) (exp exp' : ℤ) (works : Bool) (s t : ChunkStore) (us : List Use)
    → InRange exp
    → consume_nonce works made nonce exp s ≡ (ok tt, t)
    → All (IsEarly nonce exp) us
    → ltb_ℤ now exp ≡ true
    → consume_nonce true now nonce exp' (consume_all us t) ≡ (err replay, consume_all us t)
unfolding consume_nonce
consume_nonce_once made now nonce exp exp' works s t us r h e early =
    rw
      (
        consume_nonce,
        Holds-replay nonce exp now (consume_all us t) r early
            (consume_all-Holds nonce exp us t r e (accepted-Holds made nonce exp works s t h)),
      )
      refl
