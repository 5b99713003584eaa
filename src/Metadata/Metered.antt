-- ===== src/Metadata/Metered.antt =====
-- internal/metadata/upload.go: the receipts that `ReportDownload` consumes.
use distributed_storage_plat.Common.{
  arith, suc, ℕ, ◌≡◌, refl, sym, ap, subst, ◌∙◌, true, false, some, List, [], ◌∷◌, ◌++◌, length,
  All, ◌==◌, Bool-cases, inl, inr, ok, err_ne_ok, ok-injective, pure, ◌>>=◌,
}
use distributed_storage_plat.Common.Bytes.{same_bytes-eq, be, same_bytes}
use distributed_storage_plat.Common.Database.{Session, then-ok}
use distributed_storage_plat.Tickets.Wire.{Base64, Ed25519}
use distributed_storage_plat.Receipts.Receipt.{Receipt, parse, parse_unsigned}
use distributed_storage_plat.Uploads.Rows.{Node, TicketRow, ReceiptRow, Tables, exists_row}
use distributed_storage_plat.Uploads.Planned.{Run}
use distributed_storage_plat.Uploads.Download.{
  find_ticket, download_ticket_by_nonce, consume_download_receipt,
}
use distributed_storage_plat.Metadata.Report.{
  or_invalid, is_for_ticket, consume_for, report_one, report_all, report_download,
}
use distributed_storage_plat.Uploads.Begin.{file_by_id, owns}
use distributed_storage_plat.Uploads.Reads.{select-row}
use mathlib.Core.List.{Memᴰ, append-nil, append_assoc}
use distributed_storage_plat.Common.Int64.{bits64}
use distributed_storage_plat.Metadata.Consumed.{
  parse-unsigned, is_consumed, with_receipts, or_invalid-ok, consume-ok, file_by_id-reads,
  result_cases,
}

module _ (ed : Ed25519) (b64 : Base64) (owner f : ℕ) where
  -- The receipt has the ticket's node, fragment and size.
  unfoldable pub IsFor : TicketRow → Receipt → Type 0
  IsFor t got =
      (got.node_id ≡ be 16 t.node_id)
      × (got.fragment_id ≡ be 16 t.fragment_id)
      × (got.size ≡ bits64 t.size_bytes)

  is_for_ticket-IsFor :
      (t : TicketRow) (got : Receipt) → is_for_ticket ed b64 t got ≡ true → IsFor t got
  unfolding is_for_ticket IsFor
  is_for_ticket-IsFor t got h = elim (Bool-cases (same_bytes got.node_id (be 16 t.node_id))) [
    | inr other ↦ (let k = rw (is_for_ticket, other) at h in absurd (cc))
    | inl node ↦ elim (Bool-cases (same_bytes got.fragment_id (be 16 t.fragment_id))) [
      | inr other ↦ (let k = rw (is_for_ticket, node, other) at h in absurd (cc))
      | inl fragment ↦
          let k = rw (is_for_ticket, node, fragment) at h in
          (
            same_bytes-eq got.node_id (be 16 t.node_id) node,
            same_bytes-eq got.fragment_id (be 16 t.fragment_id) fragment,
            ground arith,
          )
    ]
  ]

  -- The row is of a ticket that was issued for the file and its owner, and one of the wires is a
  -- receipt for it with the nonce, signed by the node of the ticket.
  unfoldable pub IsMetered : List (List ℕ) → Tables → ReceiptRow → Type 0
  IsMetered wires t r =
      (x : TicketRow × Node) × (w : List ℕ) × (got : Receipt) × Memᴰ w wires
      × (find_ticket owner f r.nonce t t.tickets ≡ some x)
      × (parse ed b64 w x.1.public_key ≡ ok got)
      × (got.nonce ≡ r.nonce)
      × IsFor x.0 got
      × (r.fragment_id ≡ x.0.fragment_id)
      × (r.node_id ≡ x.0.node_id)
      × (r.bytes ≡ x.0.size_bytes)

  -- Each nonce is new to the receipts consumed before it, in the table and in the list.
  unfoldable pub AllNew : Tables → List ReceiptRow → Type 0
  AllNew t [] = Unit {0}
  AllNew t (r ∷ rs) = (is_consumed r.nonce t ≡ false) × AllNew (with_receipts t (r ∷ [])) rs

  row_of : List ℕ → TicketRow → ReceiptRow
  row_of nonce t = record {
    nonce = nonce;
    file_id = f;
    fragment_id = t.fragment_id;
    node_id = t.node_id;
    bytes = t.size_bytes;
  }

  consume_for-ok :
      (w nonce : List ℕ) (x : TicketRow × Node) (s : Session Tables) {r : ReceiptRow}
      → (consume_for ed b64 f w nonce x s).0 ≡ ok r
      → (got : Receipt) × (parse ed b64 w x.1.public_key ≡ ok got)
        × (is_for_ticket ed b64 x.0 got ≡ true)
        × (r ≡ row_of nonce x.0)
        × (is_consumed nonce s.tables ≡ false)
        × ((consume_for ed b64 f w nonce x s).1.tables ≡ with_receipts s.tables (r ∷ []))
  unfolding consume_for row_of
  consume_for-ok w nonce (t, n) s {r} h = elim (result_cases (parse ed b64 w n.public_key)) [
    | inl (e, bad) ↦ absurd (err_ne_ok (sym (rw (consume_for, bad) at h)))
    | inr (got, good) ↦ elim (Bool-cases (is_for_ticket ed b64 t got)) [
      | inr other ↦ absurd (err_ne_ok (sym (rw (consume_for, good, other) at h)))
      | inl mine ↦
          let consumed : ReceiptRow = row_of nonce t in
          let write : Run (Unit {0}) = or_invalid (consume_download_receipt consumed) in
          let (u, written, h1, e1) =
            then-ok write (λ _. pure consumed) s (rw (consume_for, good, mine) at h) in
          let (direct, left) = or_invalid-ok (consume_download_receipt consumed) s written in
          let (new, added) = consume-ok consumed s direct in
          let same : consumed ≡ r = ok-injective h1 in
          let tables =
            ap (λ q. q.1.tables) e1
            ∙ ap (λ (q : Session Tables). q.tables) left
            ∙ added
            ∙ ap (λ (q : ReceiptRow). with_receipts s.tables (q ∷ [])) same in
          (got, good, mine, sym same, new, rw (consume_for, good, mine) tables)
    ]
  ]

  find_ticket-receipts :
      (nonce : List ℕ) (t : Tables) (rs : List ReceiptRow) (xs : List TicketRow)
      → find_ticket owner f nonce (with_receipts t rs) xs ≡ find_ticket owner f nonce t xs
  unfolding find_ticket owns
  find_ticket-receipts nonce t rs [] = refl
  find_ticket-receipts nonce t rs (x ∷ xs) = rw (find_ticket-receipts nonce t rs xs) refl

  report_one-ok :
      (seen : List (List ℕ)) (w : List ℕ) (wires : List (List ℕ)) (s : Session Tables)
      {r : ReceiptRow}
      → Memᴰ w wires
      → (report_one ed b64 owner f seen w s).0 ≡ ok r
      → IsMetered wires s.tables r
        × (is_consumed r.nonce s.tables ≡ false)
        × ((report_one ed b64 owner f seen w s).1.tables ≡ with_receipts s.tables (r ∷ []))
  unfolding report_one IsMetered row_of download_ticket_by_nonce
  report_one-ok seen w wires s {r} m h = elim (result_cases (parse_unsigned ed b64 w)) [
    | inl (e, bad) ↦ absurd (err_ne_ok (sym (rw (report_one, bad) at h)))
    | inr (rec, good) ↦ elim (Bool-cases (length rec.nonce == 16)) [
      | inr short ↦ absurd (err_ne_ok (sym (rw (report_one, good, short) at h)))
      | inl full ↦ elim (Bool-cases (exists_row (same_bytes rec.nonce) seen)) [
        | inl twice ↦ absurd (err_ne_ok (sym (rw (report_one, good, full, twice) at h)))
        | inr once ↦
            let look : Run (TicketRow × Node) =
              or_invalid (download_ticket_by_nonce owner f rec.nonce) in
            let (x, looked, h1, e1) =
              then-ok look (consume_for ed b64 f w rec.nonce) s
                (rw (report_one, good, full, once) at h) in
            let (direct, left) =
              or_invalid-ok (download_ticket_by_nonce owner f rec.nonce) s looked in
            let (found, kept) =
              select-row (λ (t : Tables). find_ticket owner f rec.nonce t t.tickets) s direct in
            let s1 = (look s).1 in
            let same : s1.tables ≡ s.tables = ap (λ (q : Session Tables). q.tables) left ∙ kept in
            let (got, signed, mine, row, new, added) = consume_for-ok w rec.nonce x s1 h1 in
            let tables =
              ap (λ q. q.1.tables) e1
              ∙ added
              ∙ ap (λ (t : Tables). with_receipts t (r ∷ [])) same in
            let nonce : r.nonce ≡ rec.nonce = ap (λ (q : ReceiptRow). q.nonce) row in
            (
              (
                x,
                w,
                got,
                m,
                subst (λ (k : List ℕ). find_ticket owner f k s.tables s.tables.tickets ≡ some x)
                    (sym nonce) found,
                signed,
                ap (λ (q : Receipt). q.nonce)
                      (ok-injective (sym (parse-unsigned ed b64 w x.1.public_key signed) ∙ good))
                    ∙ sym nonce,
                is_for_ticket-IsFor x.0 got mine,
                ap (λ (q : ReceiptRow). q.fragment_id) row,
                ap (λ (q : ReceiptRow). q.node_id) row,
                ap (λ (q : ReceiptRow). q.bytes) row,
              ),
              subst (λ (k : List ℕ). is_consumed k s.tables ≡ false) (sym nonce)
                  (subst (λ (t : Tables). is_consumed rec.nonce t ≡ false) same new),
              rw (report_one, good, full, once) tables,
            )
      ]
    ]
  ]

  -- What `ReportDownload` says of the rows that it returns, from the tables that it finds.
  unfoldable pub AreMetered : List (List ℕ) → Tables → List ReceiptRow → Type 0
  AreMetered wires t out = AllNew t out × All (IsMetered wires t) out

  IsMetered-before :
      (wires : List (List ℕ)) (t : Tables) (rs : List ReceiptRow) (r : ReceiptRow)
      → IsMetered wires (with_receipts t rs) r
      → IsMetered wires t r
  unfolding IsMetered
  IsMetered-before wires t rs r (x, w, got, m, found, a, b, c, d, e, g) =
      (x, w, got, m, sym (find_ticket-receipts r.nonce t rs t.tickets) ∙ found, a, b, c, d, e, g)

  All-before :
      (wires : List (List ℕ)) (t : Tables) (rs out : List ReceiptRow)
      → All (IsMetered wires (with_receipts t rs)) out
      → All (IsMetered wires t) out
  All-before wires t rs [] h = tt
  All-before wires t rs (r ∷ out) h =
      (IsMetered-before wires t rs r h.0, All-before wires t rs out h.1)

  report_all-ok :
      (seen ws wires : List (List ℕ)) (s : Session Tables) {out : List ReceiptRow}
      → ((w : List ℕ) → Memᴰ w ws → Memᴰ w wires)
      → (report_all ed b64 owner f seen ws s).0 ≡ ok out
      → AreMetered wires s.tables out
        × (length out ≡ length ws)
        × ((report_all ed b64 owner f seen ws s).1.tables ≡ with_receipts s.tables out)
  unfolding report_all AreMetered AllNew
  report_all-ok seen [] wires s sub h =
      subst
        (λ (o : List ReceiptRow).
          (AllNew s.tables o × All (IsMetered wires s.tables) o)
          × (length o ≡ 0)
          × (s.tables ≡ with_receipts s.tables o))
        (ok-injective h)
        (
          (tt, tt),
          refl,
          ap (λ (l : List ReceiptRow). record s.tables { receipts = l })
              (sym (append-nil s.tables.receipts)),
        )
  report_all-ok seen (w ∷ ws) wires s sub h =
      let one : Run ReceiptRow = report_one ed b64 owner f seen w in
      let rest : ReceiptRow → Run (List ReceiptRow) =
        λ r. report_all ed b64 owner f (r.nonce ∷ seen) ws in
      let (r, first, h1, e1) = then-ok one (λ r. rest r >>= λ out. pure (r ∷ out)) s h in
      let s1 = (one s).1 in
      let (more, others, h2, e2) = then-ok (rest r) (λ out. pure (r ∷ out)) s1 h1 in
      let (metered, new, added) = report_one-ok seen w wires s (sub w (Memᴰ.head refl)) first in
      let ((fresh, backed), count, added') =
        report_all-ok (r.nonce ∷ seen) ws wires s1 (λ v m. sub v (Memᴰ.tail m)) others in
      let t1 : Tables = with_receipts s.tables (r ∷ []) in
      let tables =
        ap (λ q. q.1.tables) (e1 ∙ e2)
        ∙ added'
        ∙ ap (λ (t : Tables). with_receipts t more) added
        ∙ ap (λ (l : List ReceiptRow). record s.tables { receipts = l })
            (append_assoc s.tables.receipts (r ∷ []) more) in
      subst
        (λ (o : List ReceiptRow).
          (AllNew s.tables o × All (IsMetered wires s.tables) o)
          × (length o ≡ length (w ∷ ws))
          × ((report_all ed b64 owner f seen (w ∷ ws) s).1.tables ≡ with_receipts s.tables o))
        (ok-injective h2)
        (
          (
            (new, subst (λ (t : Tables). AllNew t more) added fresh),
            (
              metered,
              All-before wires s.tables (r ∷ []) more
                  (subst (λ (t : Tables). All (IsMetered wires t) more) added backed),
            ),
          ),
          ap suc count,
          tables,
        )

  -- When `ReportDownload` returns, the receipts that it meters are one for each that was sent, and
  -- exactly they are added to the consumed ones. Each has a nonce that was not consumed before, also
  -- not by the same report, and is of a ticket that was issued for the file and its owner: its
  -- fragment, node and bytes are those of the ticket, and one of the receipts that were sent is
  -- signed by the node and has the nonce and the ticket's fragment, node and size.
  pub report_download-AreMetered :
      (wires : List (List ℕ)) (s : Session Tables) {out : List ReceiptRow}
      → (report_download ed b64 owner f wires s).0 ≡ ok out
      → AreMetered wires s.tables out
        × (length out ≡ length wires)
        × ((report_download ed b64 owner f wires s).1.tables.receipts ≡ s.tables.receipts ++ out)
  unfolding report_download
  report_download-AreMetered wires s {out} h =
      let (g, read, h1, e1) =
        then-ok (file_by_id owner f) (λ _. report_all ed b64 owner f [] wires) s h in
      let s1 = (file_by_id owner f s).1 in
      let same : s1.tables ≡ s.tables = file_by_id-reads owner f s in
      let (metered, count, tables) = report_all-ok [] wires wires s1 (λ w m. m) h1 in
      (
        subst (λ (t : Tables). AreMetered wires t out) same metered,
        count,
        ap (λ q. q.1.tables.receipts) e1
            ∙ ap (λ (t : Tables). t.receipts) tables
            ∙ ap (λ (t : Tables). t.receipts ++ out) same,
      )
