-- ===== src/Ledger/Posting.antt =====
-- What one call of `InsertLedgerTxn` and `PostTxn` does to the tables.
use distributed_storage_plat.Common.{
  ℕ, ◌≡◌, refl, ◌⊎◌, inl, inr, Bool, true, false, Bool-cases, Option, some, List, [], ◌∷◌, ◌++◌,
  map, arith, Result, ok, err, for, >>=-ok, if◌then◌else◌, ◌>>◌,
}
use distributed_storage_plat.Ledger.Types.{
  EntryType, LedgerEntry, LedgerTxn, Db, Call, ⊤, Error, query, atomic, insert_entry, has_txn,
  insert_ledger_txn, insert_header, txn_body,
}
use distributed_storage_plat.Ledger.Post.{Entry, sum_zero, to_row, post_rows, post_txn}
use mathlib.Core.List.{append_assoc, append-nil}

-- An entry as the database stores it at `now`.
abbrev pub stamp : ℕ → LedgerEntry → LedgerEntry
stamp now e = record e { created_at = now }

-- The same tables; calls may have been used up.
abbrev pub SameTables : Db → Db → Type 0
SameTables s s' = s' ≡ record s { outages = s'.outages }

pub query-SameTables : (s : Db) → SameTables s (query s).1
unfolding query
query-SameTables s = ground arith

insert_entry_ok :
    (e : LedgerEntry) (s : Db)
    → (insert_entry e s).0 ≡ ok tt
    → (insert_entry e s).1 ≡ record s {
      outages = (insert_entry e s).1.outages;
      entries = s.entries ++ stamp s.now e ∷ [];
    }
unfolding insert_entry query
insert_entry_ok e s h = ground arith

insert_entries_ok :
    (es : List LedgerEntry) (s : Db)
    → (for insert_entry es s).0 ≡ ok tt
    → (for insert_entry es s).1 ≡ record s {
      outages = (for insert_entry es s).1.outages;
      entries = s.entries ++ map (stamp s.now) es;
    }
unfolding for
insert_entries_ok [] s h = rw append-nil
insert_entries_ok (e ∷ es) s h =
    let (_, first, same) = >>=-ok (insert_entry e) (λ _. for insert_entry es) s h in
    let s1 = (insert_entry e s).1 in
    let wrote = insert_entry_ok e s first in
    let ok_rest : (for insert_entry es s1).0 ≡ ok tt = rw same at h in
    let ih = insert_entries_ok es s1 ok_rest in
    cc (ih, wrote, append_assoc s.entries (stamp s.now e ∷ []) (map (stamp s.now) es))

-- The tables after a new transaction.
abbrev pub with_txn : Db → LedgerTxn → List LedgerEntry → List Bool → Db
with_txn s x es rest = record s {
  outages = rest;
  txns = s.txns ++ x ∷ [];
  entries = s.entries ++ map (stamp s.now) es;
}

-- How a posting of `es` under the header `x` may end.
abbrev pub Outcome : LedgerTxn → List LedgerEntry → Db → Result Error ⊤ × Db → Type 0
Outcome x es s (err _, s') = SameTables s s'
Outcome x es s (ok _, s') =
    ((has_txn x.txn_id s.txns ≡ true) × SameTables s s')
    ⊎ ((has_txn x.txn_id s.txns ≡ false) × (s' ≡ with_txn s x es s'.outages))

-- The body after BEGIN and after the insertion of the header.
body_ok :
    (t : ℕ) (k : EntryType) (w : Option ℕ) (es : List LedgerEntry) (s : Db)
    → has_txn t s.txns ≡ false
    → ((for insert_entry es >> query) (insert_header t k w s)).0 ≡ ok tt
    → ((for insert_entry es >> query) (insert_header t k w s)).1
      ≡ with_txn s
          (record { txn_id = t; kind = k; window_start = w })
          es
          ((for insert_entry es >> query) (insert_header t k w s)).1.outages
unfolding insert_header
body_ok t k w es s fresh h =
    let (_, first, same) = >>=-ok (for insert_entry es) (λ _. query) (insert_header t k w s) h in
    cc (
      same,
      insert_entries_ok es (insert_header t k w s) first,
      query-SameTables (for insert_entry es (insert_header t k w s)).1,
    )

atomic-Outcome :
    (x : LedgerTxn) (es : List LedgerEntry) (s : Db) (m : Call ⊤)
    → ((m s).0 ≡ ok tt → Outcome x es s (ok tt, (m s).1))
    → Outcome x es s (atomic m s)
unfolding atomic
atomic-Outcome x es s m h = go (m s).0 (m s).1 h
  where
    go :
        (r : Result Error ⊤) (s' : Db)
        → (r ≡ ok tt → Outcome x es s (ok tt, s'))
        → Outcome x es s (
            let q : Result Error ⊤ × Db = elim r [
              | ok a ↦ (ok a, s')
              | err e ↦ (err e, record s { outages = s'.outages })
            ] in
            q)
    go (ok _) s' h = h refl
    go (err e) s' h = refl

abbrev pub inner : ℕ → EntryType → Option ℕ → List LedgerEntry → Call ⊤
inner t k w es s =
    if has_txn t s.txns then (ok tt, s) else (for insert_entry es >> query) (insert_header t k w s)

inner-Outcome :
    (t : ℕ) (k : EntryType) (w : Option ℕ) (es : List LedgerEntry) (s : Db)
    → (inner t k w es s).0 ≡ ok tt
    → Outcome (record { txn_id = t; kind = k; window_start = w }) es s (ok tt, (inner t k w es s).1)
inner-Outcome t k w es s h = elim (Bool-cases (has_txn t s.txns)) [
  | inl old ↦ rw old (inl (refl, refl))
  | inr new ↦ rw new (inr (refl, body_ok t k w es s new (rw new at h)))
]

body-Outcome :
    (t : ℕ) (k : EntryType) (w : Option ℕ) (es : List LedgerEntry) (s : Db)
    → (txn_body t k w es s).0 ≡ ok tt
    → Outcome
        (record { txn_id = t; kind = k; window_start = w })
        es
        s
        (ok tt, (txn_body t k w es s).1)
unfolding txn_body
body-Outcome t k w es s h =
    let (_, first, same) = >>=-ok query (λ _. query >> inner t k w es) s h in
    let s1 = (query s).1 in
    let h1 : ((query >> inner t k w es) s1).0 ≡ ok tt = rw same at h in
    let (_, second, same2) = >>=-ok query (λ _. inner t k w es) s1 h1 in
    let s2 = (query s1).1 in
    let h2 : (inner t k w es s2).0 ≡ ok tt = rw same2 at h1 in
    let q1 = query-SameTables s in
    let q2 = query-SameTables s1 in
    elim (inner-Outcome t k w es s2 h2) [
      | inl (old, tables) ↦ inl (cc (q1, q2, old), cc (q1, q2, tables))
      | inr (new, tables) ↦ inr (cc (q1, q2, new), cc (q1, q2, tables))
    ]

insert_ledger_txn-Outcome :
    (t : ℕ) (k : EntryType) (w : Option ℕ) (e : LedgerEntry) (es : List LedgerEntry) (s : Db)
    → Outcome
        (record { txn_id = t; kind = k; window_start = w })
        (e ∷ es)
        s
        (insert_ledger_txn t (some k) w (e ∷ es) s)
unfolding insert_ledger_txn
insert_ledger_txn-Outcome t k w e es s =
    atomic-Outcome _ (e ∷ es) s (txn_body t k w (e ∷ es)) (body-Outcome t k w (e ∷ es) s)

-- The header and the rows that a posting asks for.
abbrev pub header : ℕ → Entry → LedgerTxn
header t e = record { txn_id = t; kind = e.type; window_start = e.window }

-- `PostTxn` is atomic and idempotent. An error leaves every table as it was, where a COMMIT that
-- fails counts as not committed. A success either finds the id already posted and changes no table,
-- or appends the header and one row for each leg and changes no other table; and the int64 sum of
-- the legs is then zero.
pub post_txn-Outcome :
    (t : ℕ) (e : Entry) (es : List Entry) (s : Db)
    → Outcome (header t e) (map (to_row t) (e ∷ es)) s (post_txn t (e ∷ es) s)
      × ((post_txn t (e ∷ es) s).0 ≡ ok tt → sum_zero (e ∷ es) ≡ ok tt)
unfolding post_txn post_rows
post_txn-Outcome t e es s = go (sum_zero (e ∷ es)) refl
  where
    go :
        (r : Result Error ⊤)
        → sum_zero (e ∷ es) ≡ r
        → Outcome (header t e) (map (to_row t) (e ∷ es)) s (post_txn t (e ∷ es) s)
          × ((post_txn t (e ∷ es) s).0 ≡ ok tt → sum_zero (e ∷ es) ≡ ok tt)
    go (ok _) same =
        rw (same, post_txn) (insert_ledger_txn-Outcome t e.type e.window _ _ s, λ _. refl)
    go (err x) same = rw (same, post_txn) (refl, λ h. absurd (cc))
