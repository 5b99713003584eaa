-- ===== src/Ledger/Idempotence.antt =====
-- A window that was accrued without an error can be accrued again without a change.
use distributed_storage_plat.Common.{
  ℕ, ◌≡◌, refl, ap, subst, inl, inr, true, Option, none, some, List, [], ◌∷◌, ◌++◌, map, arith,
  Result, ok, err, lift, for, Keeps, Keeps-bind, Keeps-for, Keeps-lift, ◌>>=◌, >>=-ok,
}
use distributed_storage_plat.Ledger.Amounts.{Rates, Floats}
use distributed_storage_plat.Ledger.Types.{
  OwnerType, Kind, EntryType, LedgerAccount, LedgerTxn, LedgerEntry, insert_entry, insert_header,
  Error, Db, Call, ⊤, query, catch, atomic, find_account, has_txn, ledger_account_by_key,
  insert_account, upsert, conflicting, ensure_ledger_account, insert_ledger_txn, txn_body,
}
use distributed_storage_plat.Ledger.Post.{Entry, sum_zero, post_rows, post_txn, to_row}
use distributed_storage_plat.Ledger.Accrual.{Meters, accrue_window}
use distributed_storage_plat.Ledger.Posting.{Outcome, header, inner, post_txn-Outcome}
use distributed_storage_plat.Ledger.Walk.{Compositional, accrue_window-K}

-- Accounts and transactions that are there stay, and no outage appears.
pub record Extends (s s' : Db) : Type 0 where
  pub accounts :
      (ot : OwnerType) (o : Option ℕ) (k : Kind) (a : LedgerAccount)
      → find_account ot o k s.accounts ≡ some a
      → find_account ot o k s'.accounts ≡ some a
  pub txns : (t : ℕ) → has_txn t s.txns ≡ true → has_txn t s'.txns ≡ true
  pub calm : s.outages ≡ [] → s'.outages ≡ []

Extends-refl : (s : Db) → Extends s s
Extends-refl s = record { accounts = λ ot o k a h. h; txns = λ t h. h; calm = λ h. h }

Extends-trans : {s t u : Db} → Extends s t → Extends t u → Extends s u
Extends-trans p q = record {
  accounts = λ ot o k a h. q.accounts ot o k a (p.accounts ot o k a h);
  txns = λ t h. q.txns t (p.txns t h);
  calm = λ h. q.calm (p.calm h);
}

-- A call that adds, and that changes nothing and gives the same answer when it is made again
-- later, once it has succeeded.
pub record Settles (A : Type 0) (m : Call A) : Type 0 where
  pub grows : (s : Db) → Extends s (m s).1
  pub again :
      (s : Db) (a : A)
      → s.outages ≡ []
      → (m s).0 ≡ ok a
      → (t : Db) → Extends (m s).1 t
      → t.outages ≡ []
      → m t ≡ (ok a, t)

lift-Settles : (A : Type 0) (r : Result Error A) → Settles A (lift r)
lift-Settles A r = record { grows = Extends-refl; again = λ s a calm h t e c i. (h i, t) }

module _ (A B : Type 0) (m : Call A) (f : A → Call B) (sm : Settles A m)
    (sf : (a : A) → Settles B (f a)) where
  bind_grows :
      (s : Db) (r : Result Error A) (t : Db)
      → Extends s t
      → Extends s
          (let q : Result Error B × Db = elim r [ ok a ↦ f a t | err e ↦ (err e, t) ] in q).1
  bind_grows s (ok a) t e = Extends-trans e ((sf a).grows t)
  bind_grows s (err x) t e = e

  bind_again :
      (s : Db) (b : B)
      → s.outages ≡ []
      → ((m >>= f) s).0 ≡ ok b
      → (t : Db) → Extends ((m >>= f) s).1 t
      → t.outages ≡ []
      → (m >>= f) t ≡ (ok b, t)
  bind_again s b calm h t e c =
      let (a, first, same) = >>=-ok m f s h in
      let s1 = (m s).1 in
      let e' : Extends (f a s1).1 t = subst (λ (d : Result Error B × Db). Extends d.1 t) same e in
      let h' : (f a s1).0 ≡ ok b = rw same at h in
      let m_again = sm.again s a calm first t (Extends-trans ((sf a).grows s1) e') c in
      let f_again = (sf a).again s1 b ((sm.grows s).calm calm) h' t e' c in cc (m_again, f_again)

bind-Settles :
    (A B : Type 0) (m : Call A) (f : A → Call B)
    → Settles A m
    → ((a : A) → Settles B (f a))
    → Settles B (m >>= f)
bind-Settles A B m f sm sf = record {
  grows = λ s. bind_grows A B m f sm sf s (m s).0 (m s).1 (sm.grows s);
  again = bind_again A B m f sm sf;
}

Settles-Compositional : Compositional Settles
Settles-Compositional = record { on_lift = lift-Settles; on_bind = bind-Settles }

query_calm : (s : Db) → s.outages ≡ [] → query s ≡ (ok tt, s)
unfolding query
query_calm s h = ground arith

find_account-append :
    (ot : OwnerType) (o : Option ℕ) (k : Kind) (xs ys : List LedgerAccount) (a : LedgerAccount)
    → find_account ot o k xs ≡ some a
    → find_account ot o k (xs ++ ys) ≡ some a
unfolding find_account
find_account-append ot o k [] ys a h = absurd (cc)
find_account-append ot o k (x ∷ xs) ys a h = ground (arith, find_account-append ot o k xs ys a)

find_account-snoc :
    (ot : OwnerType) (o : Option ℕ) (k : Kind) (xs : List LedgerAccount) (i : ℕ)
    → find_account ot o k xs ≡ none
    → find_account ot o k (xs ++ record { id = i; owner_type = ot; owner_id = o; kind = k } ∷ [])
      ≡ some (record { id = i; owner_type = ot; owner_id = o; kind = k })
unfolding find_account
find_account-snoc ot o k [] i h = ground arith
find_account-snoc ot o k (x ∷ xs) i h = ground (arith, find_account-snoc ot o k xs i)

module _ (fresh : List LedgerAccount → ℕ) (ot : OwnerType) (k : Kind) where
  ensure_hit :
      (o : Option ℕ) (t : Db) (a : LedgerAccount)
      → find_account ot o k t.accounts ≡ some a
      → t.outages ≡ []
      → ensure_ledger_account fresh ot o k t ≡ (ok a, t)
  unfolding ensure_ledger_account catch insert_account upsert conflicting ledger_account_by_key
  ensure_hit none t a h c = ground (arith, query_calm t c)
  ensure_hit (some o) t a h c = ground (arith, query_calm t c)

  ensure_found :
      (o : Option ℕ) (s : Db) (a : LedgerAccount)
      → s.outages ≡ []
      → (ensure_ledger_account fresh ot o k s).0 ≡ ok a
      → find_account ot o k (ensure_ledger_account fresh ot o k s).1.accounts ≡ some a
  unfolding ensure_ledger_account catch insert_account upsert conflicting ledger_account_by_key
  ensure_found none s a c h =
      ground (arith, query_calm s c, find_account-snoc ot none k s.accounts (fresh s.accounts))
  ensure_found (some o) s a c h =
      ground (arith, query_calm s c, find_account-snoc ot (some o) k s.accounts (fresh s.accounts))

  ensure_accounts :
      (o : Option ℕ) (s : Db) (ot' : OwnerType) (o' : Option ℕ) (k' : Kind) (a : LedgerAccount)
      → find_account ot' o' k' s.accounts ≡ some a
      → find_account ot' o' k' (ensure_ledger_account fresh ot o k s).1.accounts ≡ some a
  unfolding ensure_ledger_account catch insert_account upsert conflicting ledger_account_by_key
      query
  ensure_accounts none s ot' o' k' a h =
      let x : LedgerAccount = record {
        id = fresh s.accounts;
        owner_type = ot;
        owner_id = none;
        kind = k;
      } in
      ground (arith, find_account-append ot' o' k' s.accounts (x ∷ []) a h)
  ensure_accounts (some o) s ot' o' k' a h =
      let x : LedgerAccount = record {
        id = fresh s.accounts;
        owner_type = ot;
        owner_id = some o;
        kind = k;
      } in
      ground (arith, find_account-append ot' o' k' s.accounts (x ∷ []) a h)

  ensure_txns : (o : Option ℕ) (s : Db) → (ensure_ledger_account fresh ot o k s).1.txns ≡ s.txns
  unfolding ensure_ledger_account catch insert_account upsert conflicting ledger_account_by_key
      query
  ensure_txns none s = ground arith
  ensure_txns (some o) s = ground arith

  ensure_calm :
      (o : Option ℕ) (s : Db)
      → s.outages ≡ []
      → (ensure_ledger_account fresh ot o k s).1.outages ≡ []
  unfolding ensure_ledger_account catch insert_account upsert conflicting ledger_account_by_key
      query
  ensure_calm none s h = ground arith
  ensure_calm (some o) s h = ground arith

  ensure_grows : (o : Option ℕ) (s : Db) → Extends s (ensure_ledger_account fresh ot o k s).1
  ensure_grows o s = record {
    accounts = ensure_accounts o s;
    txns = λ t h. rw (ensure_txns o s) h;
    calm = ensure_calm o s;
  }

  ensure-Settles : (o : Option ℕ) → Settles LedgerAccount (ensure_ledger_account fresh ot o k)
  ensure-Settles o = record {
    grows = ensure_grows o;
    again =
        λ s a c h t e calm. ensure_hit o t a (e.accounts ot o k a (ensure_found o s a c h)) calm;
  }

has_txn-append :
    (t : ℕ) (xs ys : List LedgerTxn) → has_txn t xs ≡ true → has_txn t (xs ++ ys) ≡ true
unfolding has_txn
has_txn-append t [] ys h = absurd (cc)
has_txn-append t (x ∷ xs) ys h = ground (arith, has_txn-append t xs ys)

has_txn-snoc :
    (t : ℕ) (xs : List LedgerTxn) (x : LedgerTxn) → x.txn_id ≡ t → has_txn t (xs ++ x ∷ []) ≡ true
unfolding has_txn
has_txn-snoc t [] x h = ground arith
has_txn-snoc t (y ∷ xs) x h = ground (arith, has_txn-snoc t xs x h)

-- A posting whose id is there does nothing.
post_hit :
    (t : ℕ) (e : Entry) (es : List Entry) (s : Db)
    → sum_zero (e ∷ es) ≡ ok tt
    → has_txn t s.txns ≡ true
    → s.outages ≡ []
    → post_txn t (e ∷ es) s ≡ (ok tt, s)
unfolding post_txn post_rows insert_ledger_txn atomic txn_body
post_hit t e es s z h c = ground (arith, query_calm s c)

abbrev IsCalm : Db → Type 0
IsCalm s = s.outages ≡ []

query-IsCalm : Keeps IsCalm query
unfolding query
query-IsCalm = record { at = λ s c. ground arith }

insert_entry-IsCalm : (e : LedgerEntry) → Keeps IsCalm (insert_entry e)
unfolding insert_entry query
insert_entry-IsCalm e = record { at = λ s c. ground arith }

atomic-IsCalm : (m : Call ⊤) → Keeps IsCalm m → Keeps IsCalm (atomic m)
unfolding atomic
atomic-IsCalm m k = record { at = λ s c. ground (arith, k.at s c) }

inner-IsCalm :
    (t : ℕ) (k : EntryType) (w : Option ℕ) (es : List LedgerEntry) → Keeps IsCalm (inner t k w es)
unfolding insert_header
inner-IsCalm t k w es = record {
  at = λ s c.
      let posted =
        Keeps-bind (for insert_entry es) (λ _. query)
          (Keeps-for insert_entry es insert_entry-IsCalm) (λ _. query-IsCalm) in
      ground (arith, posted.at (insert_header t k w s) c);
}

post_txn-IsCalm : (t : ℕ) (e : Entry) (es : List Entry) → Keeps IsCalm (post_txn t (e ∷ es))
unfolding post_txn post_rows insert_ledger_txn txn_body
post_txn-IsCalm t e es = Keeps-bind _ _ (Keeps-lift (sum_zero (e ∷ es))) (λ _. atomic-IsCalm _ (
    Keeps-bind query _ query-IsCalm
      (λ _. Keeps-bind query _ query-IsCalm (λ _. inner-IsCalm t e.type e.window _))))

Outcome-accounts :
    (x : LedgerTxn) (es : List LedgerEntry) (s : Db) (r : Result Error ⊤) (s' : Db)
    → Outcome x es s (r, s')
    → s'.accounts ≡ s.accounts
Outcome-accounts x es s (err _) s' o = ap (λ (d : Db). d.accounts) o
Outcome-accounts x es s (ok _) s' (inl o) = ap (λ (d : Db). d.accounts) o.1
Outcome-accounts x es s (ok _) s' (inr o) = ap (λ (d : Db). d.accounts) o.1

Outcome-txns :
    (x : LedgerTxn) (es : List LedgerEntry) (s : Db) (r : Result Error ⊤) (s' : Db)
    → Outcome x es s (r, s')
    → (t : ℕ) → has_txn t s.txns ≡ true
    → has_txn t s'.txns ≡ true
Outcome-txns x es s (err _) s' o t h = rw (ap (λ (d : Db). d.txns) o) h
Outcome-txns x es s (ok _) s' (inl o) t h = rw (ap (λ (d : Db). d.txns) o.1) h
Outcome-txns x es s (ok _) s' (inr o) t h =
    rw (ap (λ (d : Db). d.txns) o.1) (has_txn-append t s.txns (x ∷ []) h)

-- After a success the id is there.
Outcome-posted :
    (x : LedgerTxn) (es : List LedgerEntry) (s s' : Db)
    → Outcome x es s (ok tt, s')
    → has_txn x.txn_id s'.txns ≡ true
Outcome-posted x es s s' (inl o) = rw (ap (λ (d : Db). d.txns) o.1) o.0
Outcome-posted x es s s' (inr o) =
    rw (ap (λ (d : Db). d.txns) o.1) (has_txn-snoc x.txn_id s.txns x refl)

post_txn-Settles : (t : ℕ) (e : Entry) (es : List Entry) → Settles ⊤ (post_txn t (e ∷ es))
post_txn-Settles t e es = record {
  grows = λ s.
      let out = (post_txn-Outcome t e es s).0 in
      record {
        accounts =
            λ ot o k a h. rw (Outcome-accounts (header t e) (map (to_row t) (e ∷ es)) s _ _ out) h;
        txns =
            Outcome-txns (header t e) (map (to_row t) (e ∷ es)) s _ (post_txn t (e ∷ es) s).1 out;
        calm = (post_txn-IsCalm t e es).at s;
      };
  again = λ s a c h u ext calm.
      let out = post_txn-Outcome t e es s in
      let rows = map (to_row t) (e ∷ es) in
      let done = subst (λ r. Outcome (header t e) rows s (r, (post_txn t (e ∷ es) s).1)) h out.0 in
      post_hit t e es u (out.1 h) (ext.txns t (Outcome-posted (header t e) rows s _ done)) calm;
}

-- Without outages, a window that was accrued without an error is accrued again, by the same
-- meters, without an error and without any change of the tables: no hour is billed twice.
pub accrue_window_idempotent :
    (fl : Floats) (fresh : List LedgerAccount → ℕ) (txn_id_of : EntryType → ℕ → ℕ → ℕ)
    (rates : Rates) (m : Meters fl) (window : ℕ) (s s' : Db)
    → s.outages ≡ []
    → accrue_window fl fresh txn_id_of rates m window s ≡ (ok tt, s')
    → accrue_window fl fresh txn_id_of rates m window s' ≡ (ok tt, s')
accrue_window_idempotent fl fresh txn_id_of rates m window s s' calm h =
    let settles =
      accrue_window-K fl fresh txn_id_of rates Settles-Compositional
        (λ ot o k. ensure-Settles fresh ot k o)
        (λ t x y n small ex ey. post_txn-Settles t x (y ∷ [])) m window in
    let run = accrue_window fl fresh txn_id_of rates m window s in
    let end : run.1 ≡ s' = ap (λ (q : Result Error ⊤ × Db). q.1) h in
    settles.again s tt calm (ap (λ (q : Result Error ⊤ × Db). q.0) h) s'
      (subst (λ (d : Db). Extends run.1 d) end (Extends-refl run.1))
      (subst (λ (d : Db). d.outages ≡ []) end ((settles.grows s).calm calm))
