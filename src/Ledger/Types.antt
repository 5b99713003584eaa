-- ===== src/Ledger/Types.antt =====
-- internal/store/ledger.go: the ledger tables and the statements on them.
-- A uuid is a number, since it is only compared. Times are seconds of Unix time. The owner types,
-- account kinds and entry types are the string constants of internal/ledger/ledger.go. An entry's
-- JSON reference is reduced to its "window". The currency is the column default throughout.
use distributed_storage_plat.Common.{
  ℕ, ◌-◌, ◌%◌, Bool, true, false, Option, none, some, List, [], ◌∷◌, ◌++◌, ◌&&◌, ◌||◌, ◌==◌, ltb,
  Result, ok, err, Exec, pure, raise, gets, lift, ◌>>=◌, ◌>>◌, for, if◌then◌else◌,
}
use distributed_storage_plat.Common.Int.{ℤ, pos, pos_part, neg_part, ◌+ℤ◌}
use distributed_storage_plat.Common.Int64.{i64_lim}
use distributed_storage_plat.Ledger.Amounts.{is_zero}
use distributed_storage_plat.Common.{leb}
use Prim.Native.String.{String}
use text.Mathlib.Text.{◌==◌ as str_eq}

pub data OwnerType : Type 0 where
  customer provider platform : OwnerType

pub data Kind : Type 0 where
  customer_balance provider_earnings platform_revenue : Kind

pub data EntryType : Type 0 where
  storage_charge egress_charge storage_earning egress_earning adjustment : EntryType

-- `db_error` is any failure of the database or of the connection to it.
pub data Error : Type 0 where
  not_found no_ledger db_error unbalanced adjustment_reason bad_amount quota : Error

pub record LedgerAccount : Type 0 where
  pub id : ℕ
  pub owner_type : OwnerType
  pub owner_id : Option ℕ
  pub kind : Kind

pub record LedgerEntry : Type 0 where
  pub txn_id : ℕ
  pub account_id : ℕ
  pub amount : ℤ
  pub entry_type : EntryType
  pub created_at : ℕ

-- A row of ledger_txns.
pub record LedgerTxn : Type 0 where
  pub txn_id : ℕ
  pub kind : EntryType
  pub window_start : Option ℕ

pub record Statement : Type 0 where
  pub account_id : ℕ
  pub cycle_start : ℕ
  pub cycle_end : ℕ
  pub opening_ucrd : ℤ
  pub closing_ucrd : ℤ
  pub charges_ucrd : ℤ
  pub earnings_ucrd : ℤ

-- A row that `InsertAudit` writes for an adjustment: the account, the reason and the amount.
pub record Audit : Type 0 where
  pub subject_id : ℕ
  pub reason : String
  pub amount : ℤ

-- The tables, the database clock, and what the network does to the calls to come: each call takes
-- one value of `outages` and fails if it is true. When the list is empty calls succeed.
pub record Db : Type 0 where
  pub accounts : List LedgerAccount
  pub txns : List LedgerTxn
  pub entries : List LedgerEntry
  pub watermarks : List (String × ℕ)
  pub statements : List Statement
  pub audits : List Audit
  pub now : ℕ
  pub outages : List Bool

abbrev pub Call : Type 0 → Type 0
Call A = Exec Db Error A

abbrev pub ⊤ : Type 0
⊤ = Unit

-- One round trip to Postgres.
unfoldable pub query : Call ⊤
query s = elim s.outages [
  | [] ↦ (ok tt, s)
  | down ∷ rest ↦ (if down then err db_error else ok tt, record s { outages = rest })
]

-- `if err != nil { ... }` with another call in its branch.
unfoldable pub catch : {A : Type 0} → Call A → (Error → Call A) → Call A
catch m f s = let (r, s') = m s in elim r [ ok a ↦ (ok a, s') | err e ↦ f e s' ]

-- `defer tx.Rollback(ctx)`: an error leaves the tables as they were. A COMMIT that fails counts as
-- one that did not commit.
unfoldable pub atomic : {A : Type 0} → Call A → Call A
atomic m s =
    let (r, s') = m s in
    elim r [ ok a ↦ (ok a, s') | err e ↦ (err e, record s { outages = s'.outages }) ]

abbrev pub same_owner_type : OwnerType → OwnerType → Bool
same_owner_type customer customer = true
same_owner_type provider provider = true
same_owner_type platform platform = true
same_owner_type _ _ = false

abbrev pub same_kind : Kind → Kind → Bool
same_kind customer_balance customer_balance = true
same_kind provider_earnings provider_earnings = true
same_kind platform_revenue platform_revenue = true
same_kind _ _ = false

abbrev pub same_owner : Option ℕ → Option ℕ → Bool
same_owner none none = true
same_owner (some a) (some b) = a == b
same_owner _ _ = false

-- WHERE owner_type = $1 AND owner_id = $2 AND kind = $3, with IS NULL where no owner is given.
unfoldable pub find_account :
    OwnerType → Option ℕ → Kind → List LedgerAccount → Option LedgerAccount
find_account ot oid k [] = none
find_account ot oid k (a ∷ as') =
    if same_owner_type a.owner_type ot && (same_owner a.owner_id oid && same_kind a.kind k)
    then some a
    else find_account ot oid k as'

abbrev pub or_not_found : Option LedgerAccount → Result Error LedgerAccount
or_not_found none = err not_found
or_not_found (some a) = ok a

unfoldable pub ledger_account_by_key : OwnerType → Option ℕ → Kind → Call LedgerAccount
ledger_account_by_key ot oid k = do
  query
  found ← gets (λ s. find_account ot oid k s.accounts)
  lift (or_not_found found)

-- The unique constraint of ledger_accounts: rows without an owner never conflict in SQL.
unfoldable pub conflicting : OwnerType → Option ℕ → Kind → List LedgerAccount → Option LedgerAccount
conflicting ot none k accounts = none
conflicting ot (some o) k accounts = find_account ot (some o) k accounts

-- `fresh` is the database's gen_random_uuid().
module _ (fresh : List LedgerAccount → ℕ) where
  unfoldable pub upsert : OwnerType → Option ℕ → Kind → Db → LedgerAccount × Db
  upsert ot oid k s = elim (conflicting ot oid k s.accounts) [
    | some a ↦ (a, s)
    | none ↦
        let a : LedgerAccount = record {
          id = fresh s.accounts;
          owner_type = ot;
          owner_id = oid;
          kind = k;
        } in
        (a, record s { accounts = s.accounts ++ a ∷ [] })
  ]

  -- INSERT ... ON CONFLICT DO UPDATE ... RETURNING
  unfoldable pub insert_account : OwnerType → Option ℕ → Kind → Call LedgerAccount
  insert_account ot oid k = query >> (λ s. let (a, s') = upsert ot oid k s in (ok a, s'))

  abbrev pub insert_platform : OwnerType → Kind → Error → Call LedgerAccount
  insert_platform ot k not_found =
      catch (insert_account ot none k) (λ e. catch (ledger_account_by_key ot none k) (λ _. raise e))
  insert_platform ot k e = raise e

  unfoldable pub ensure_ledger_account : OwnerType → Option ℕ → Kind → Call LedgerAccount
  ensure_ledger_account ot none k = catch (ledger_account_by_key ot none k) (insert_platform ot k)
  ensure_ledger_account ot (some o) k = insert_account ot (some o) k

unfoldable pub has_txn : ℕ → List LedgerTxn → Bool
has_txn t [] = false
has_txn t (x ∷ xs) = if x.txn_id == t then true else has_txn t xs

unfoldable pub has_account : ℕ → List LedgerAccount → Bool
has_account i [] = false
has_account i (a ∷ as') = if a.id == i then true else has_account i as'

-- INSERT INTO ledger_entries: account_id references ledger_accounts, and created_at is now().
unfoldable pub insert_entry : LedgerEntry → Call ⊤
insert_entry e = query >> (λ s.
    if has_account e.account_id s.accounts
    then (ok tt, record s { entries = s.entries ++ (record e { created_at = s.now }) ∷ [] })
    else (err db_error, s))

unfoldable pub insert_header : ℕ → EntryType → Option ℕ → Db → Db
insert_header t kind window s = record s {
  txns = s.txns ++ (record { txn_id = t; kind = kind; window_start = window }) ∷ [];
}

unfoldable pub txn_body : ℕ → EntryType → Option ℕ → List LedgerEntry → Call ⊤
txn_body t kind window entries =
    query
    >> (query >> (λ s.
        if has_txn t s.txns
        then (ok tt, s)
        else (for insert_entry entries >> query) (insert_header t kind window s)))

-- `if kind == ""`
abbrev pub or_entry_type : Option EntryType → EntryType → EntryType
or_entry_type none t = t
or_entry_type (some k) t = k

-- The deferred trigger, which compares the exact sum with zero at COMMIT, is left out: it could only
-- refuse more.
unfoldable pub insert_ledger_txn : ℕ → Option EntryType → Option ℕ → List LedgerEntry → Call ⊤
insert_ledger_txn t kind window [] = pure tt
insert_ledger_txn t kind window (e ∷ es) =
    atomic (txn_body t (or_entry_type kind e.entry_type) window (e ∷ es))

-- SUM(amount), which Postgres computes exactly.
unfoldable pub sum_account : ℕ → List LedgerEntry → ℤ
sum_account i [] = pos 0
sum_account i (e ∷ es) =
    if e.account_id == i then e.amount +ℤ sum_account i es else sum_account i es

unfoldable pub sum_account_at : ℕ → ℕ → List LedgerEntry → ℤ
sum_account_at i at [] = pos 0
sum_account_at i at (e ∷ es) =
    if e.account_id == i && ltb e.created_at at
    then e.amount +ℤ sum_account_at i at es
    else sum_account_at i at es

-- Scanning a numeric into an int64 fails outside its range.
unfoldable pub scan_int64 : ℤ → Result Error ℤ
scan_int64 n = if ltb (pos_part n) i64_lim && leb (neg_part n) i64_lim then ok n else err db_error

unfoldable pub account_balance : ℕ → Call ℤ
account_balance i = query >> (λ s. (scan_int64 (sum_account i s.entries), s))

unfoldable pub account_balance_at : ℕ → ℕ → Call ℤ
account_balance_at i at = query >> (λ s. (scan_int64 (sum_account_at i at s.entries), s))

missing_to_no_ledger : Error → Call LedgerAccount
missing_to_no_ledger not_found = raise no_ledger
missing_to_no_ledger e = raise e

unfoldable pub must_account : OwnerType → Option ℕ → Kind → Call LedgerAccount
unfolding missing_to_no_ledger
must_account ot oid k = catch (ledger_account_by_key ot oid k) missing_to_no_ledger

unfoldable pub has_statement : ℕ → ℕ → List Statement → Bool
has_statement i start [] = false
has_statement i start (x ∷ xs) =
    if x.account_id == i && x.cycle_start == start then true else has_statement i start xs

unfoldable pub insert_statement : Statement → Call ⊤
insert_statement st = query >> (λ s.
    if has_statement st.account_id st.cycle_start s.statements
    then (ok tt, s)
    else (ok tt, record s { statements = s.statements ++ st ∷ [] }))

unfoldable pub list_ledger_accounts : Call (List LedgerAccount)
list_ledger_accounts = query >> gets (λ s. s.accounts)

-- The name of the cursor: the production accruer has the empty name.
unfoldable pub watermark_name : String → String
watermark_name name = if str_eq name "" then "accrual" else name

unfoldable pub lookup_watermark : String → List (String × ℕ) → Option ℕ
lookup_watermark name [] = none
lookup_watermark name ((n, w) ∷ rest) = if str_eq n name then some w else lookup_watermark name rest

unfoldable pub put_watermark : String → ℕ → List (String × ℕ) → List (String × ℕ)
put_watermark name w [] = (name, w) ∷ []
put_watermark name w ((n, v) ∷ rest) =
    if str_eq n name then (name, w) ∷ rest else (n, v) ∷ put_watermark name w rest

-- `t.UTC().Truncate(time.Hour)`
abbrev pub truncate_hour : ℕ → ℕ
truncate_hour t = t - t % 3600

-- `none` is the zero time.
unfoldable pub accrual_watermark : String → Call (Option ℕ)
unfolding watermark_name
accrual_watermark name = query >> gets (λ s. lookup_watermark (watermark_name name) s.watermarks)

unfoldable pub set_accrual_watermark : String → ℕ → Call ⊤
unfolding watermark_name
set_accrual_watermark name window = query >> (λ s. (
  ok tt,
  record s { watermarks = put_watermark (watermark_name name) (truncate_hour window) s.watermarks },
))

unfoldable pub sum_txn : ℕ → List LedgerEntry → ℤ
sum_txn t [] = pos 0
sum_txn t (e ∷ es) = if e.txn_id == t then e.amount +ℤ sum_txn t es else sum_txn t es

unfoldable pub mem_txn : ℕ → List ℕ → Bool
mem_txn t [] = false
mem_txn t (x ∷ xs) = if x == t then true else mem_txn t xs

-- GROUP BY txn_id HAVING SUM(amount) <> 0, over the ids not seen so far.
unfoldable pub unbalanced_from : List ℕ → List LedgerEntry → List LedgerEntry → List ℕ
unbalanced_from seen all [] = []
unbalanced_from seen all (e ∷ es) =
    let rest = unbalanced_from (e.txn_id ∷ seen) all es in
    if mem_txn e.txn_id seen || is_zero (sum_txn e.txn_id all) then rest else e.txn_id ∷ rest

unfoldable pub ledger_unbalanced_txns : Call (List ℕ)
ledger_unbalanced_txns = query >> gets (λ s. unbalanced_from [] s.entries s.entries)
