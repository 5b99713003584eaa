-- ===== src/Metadata/Consumed.antt =====
-- internal/metadata/upload.go: one receipt in the table of consumed receipts.
use distributed_storage_plat.Receipts.Receipt.{Receipt, checked, parse, parse_unsigned}
use distributed_storage_plat.Tickets.Wire.{Base64, Ed25519, decode_wire}
use distributed_storage_plat.Common.{
  Bool-cases, Option-cases, inl, inr, some, length, ◌==◌, if◌then◌else◌, ◌⊎◌, ℕ, ◌≡◌, refl, sym, ap,
  ◌∙◌, Bool, true, false, List, [], ◌∷◌, ◌++◌, inl, inr, Result, ok, err, err_ne_ok, ok-injective,
}
use distributed_storage_plat.Common.Bytes.{same_bytes}
use distributed_storage_plat.Common.Database.{Session, statement-ok}
use distributed_storage_plat.Uploads.Rows.{
  File, StoreError, db_error, conflict, ReceiptRow, Tables, exists_row,
}
use distributed_storage_plat.Uploads.Planned.{Run}
use distributed_storage_plat.Uploads.Download.{consume_download_receipt}
use distributed_storage_plat.Metadata.Report.{or_invalid}
use distributed_storage_plat.Uploads.Begin.{file_by_id}
use distributed_storage_plat.Uploads.Reads.{ReadsOnly, select-ReadsOnly}

-- The nonce is that of a consumed receipt.
unfoldable pub is_consumed : List ℕ → Tables → Bool
is_consumed nonce t = exists_row (λ (x : ReceiptRow). same_bytes x.nonce nonce) t.receipts

abbrev pub with_receipts : Tables → List ReceiptRow → Tables
with_receipts t rs = record t { receipts = t.receipts ++ rs }

module _ {A : Type 0} where
  invalid_cases :
      (r : Result StoreError A) (s : Session Tables) {a : A}
      → (let q : Result StoreError A × Session Tables = elim r [
        | ok b ↦ (ok b, s)
        | err _ ↦ (err StoreError.invalid, s)
      ] in
          q).0
        ≡ ok a
      → (r ≡ ok a)
        × ((let q : Result StoreError A × Session Tables = elim r [
          | ok b ↦ (ok b, s)
          | err _ ↦ (err StoreError.invalid, s)
        ] in
              q).1
            ≡ s)
  invalid_cases (ok b) s h = (h, refl)
  invalid_cases (err e) s h = absurd (err_ne_ok (sym h))

  pub or_invalid-ok :
      (m : Run A) (s : Session Tables) {a : A}
      → (or_invalid m s).0 ≡ ok a
      → ((m s).0 ≡ ok a) × ((or_invalid m s).1 ≡ (m s).1)
  unfolding or_invalid
  or_invalid-ok m s h = invalid_cases (m s).0 (m s).1 h

consumed_cases :
    (b : Bool) (r : ReceiptRow) (t : Tables) {u : Unit {0}} {t' : Tables}
    → (let q : Result StoreError (Unit {0} × Tables) =
          if b then err conflict else ok (tt, with_receipts t (r ∷ [])) in
        q)
      ≡ ok (u, t')
    → (b ≡ false) × (with_receipts t (r ∷ []) ≡ t')
consumed_cases true r t h = absurd (err_ne_ok (sym h))
consumed_cases false r t h = (refl, ap (λ (p : Unit {0} × Tables). p.1) (ok-injective h))

pub consume-ok :
    (r : ReceiptRow) (s : Session Tables) {u : Unit {0}}
    → (consume_download_receipt r s).0 ≡ ok u
    → (is_consumed r.nonce s.tables ≡ false)
      × ((consume_download_receipt r s).1.tables ≡ with_receipts s.tables (r ∷ []))
unfolding consume_download_receipt is_consumed
consume-ok r s h =
    let (t, said, left) =
      statement-ok db_error
        (λ (t : Tables).
          if is_consumed r.nonce t then err conflict else ok (tt, with_receipts t (r ∷ [])))
        s h in
    let (new, made) = consumed_cases (is_consumed r.nonce s.tables) r s.tables said in
    (new, left ∙ sym made)

pub file_by_id-reads :
    (owner i : ℕ) (s : Session Tables)
    → (let q : Result StoreError File × Session Tables = file_by_id owner i s in q).1.tables
      ≡ s.tables
unfolding file_by_id ReadsOnly
file_by_id-reads owner i s = select-ReadsOnly _ s

pub result_cases :
    {E A : Type 0} (r : Result E A) → ((e : E) × (r ≡ err e)) ⊎ ((a : A) × (r ≡ ok a))
result_cases (err e) = inl (e, refl)
result_cases (ok a) = inr (a, refl)

module _ (ed : Ed25519) (b64 : Base64) where
  checked-unsigned :
      (w key payload sig : List ℕ) {got : Receipt}
      → decode_wire b64 w ≡ some (payload, sig)
      → checked ed b64 w key (payload, sig) ≡ ok got
      → parse_unsigned ed b64 w ≡ ok got
  unfolding checked parse_unsigned
  checked-unsigned w key payload sig p h = elim (Bool-cases (length key == 32)) [
    | inr bad ↦ absurd (err_ne_ok (sym (rw (checked, bad) at h)))
    | inl size ↦ elim (Bool-cases (ed.verify_bytes key payload sig)) [
      | inr bad ↦ absurd (err_ne_ok (sym (rw (checked, size, bad) at h)))
      | inl good ↦ rw (parse_unsigned, p) (rw (checked, size, good) at h)
    ]
  ]

  -- A receipt that is accepted is read the same without its signature.
  pub parse-unsigned :
      (w key : List ℕ) {got : Receipt}
      → parse ed b64 w key ≡ ok got
      → parse_unsigned ed b64 w ≡ ok got
  unfolding parse
  parse-unsigned w key h = elim (Option-cases (decode_wire b64 w)) [
    | inl none_left ↦ absurd (err_ne_ok (sym (rw (parse, none_left) at h)))
    | inr ((payload, sig), p) ↦ checked-unsigned w key payload sig p (rw (parse, p) at h)
  ]
