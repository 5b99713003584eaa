-- ===== src/Ledger/Post.antt =====
-- internal/ledger/ledger.go: posting, adjustments, the quota check and the cycle statements.
use distributed_storage_plat.Common.{
  ℕ, Option, none, some, List, [], ◌∷◌, Result, ok, err, pure, raise, lift, ◌>>=◌, ◌>>◌, for,
  if◌then◌else◌, map,
}
use distributed_storage_plat.Common.Int.{ℤ, pos, ltb_ℤ, leb_ℤ}
use distributed_storage_plat.Common.Int64.{add64, neg64, sub64}
use distributed_storage_plat.Ledger.Amounts.{is_zero}
use distributed_storage_plat.Ledger.Types.{
  customer, Kind, customer_balance, provider_earnings, EntryType, adjustment, Error, unbalanced,
  adjustment_reason, bad_amount, quota, no_ledger, LedgerAccount, LedgerEntry, Statement, Audit,
  Call, ⊤, query, catch, insert_ledger_txn, account_balance, account_balance_at, must_account,
  insert_statement, list_ledger_accounts,
}
use Prim.Native.String.{String}
use text.Mathlib.Text.{◌==◌ as str_eq}

-- One posting leg. Of the reference only the "window" is read.
pub record Entry : Type 0 where
  pub account_id : ℕ
  pub amount : ℤ
  pub type : EntryType
  pub window : Option ℕ

-- The loop of `SumZero`: an int64 sum.
unfoldable pub sum_from : ℤ → List Entry → ℤ
sum_from sum [] = sum
sum_from sum (e ∷ es) = sum_from (add64 sum e.amount) es

unfoldable pub sum_zero : List Entry → Result Error ⊤
sum_zero [] = err unbalanced
sum_zero (e ∷ es) = if is_zero (sum_from (pos 0) (e ∷ es)) then ok tt else err unbalanced

-- The rows of a transaction; the database sets `created_at`.
unfoldable pub to_row : ℕ → Entry → LedgerEntry
to_row txn e = record {
  txn_id = txn;
  account_id = e.account_id;
  amount = e.amount;
  entry_type = e.type;
  created_at = 0;
}

unfoldable pub post_rows : ℕ → List Entry → Call ⊤
unfolding to_row
post_rows txn [] = insert_ledger_txn txn none none []
post_rows txn (e ∷ es) = insert_ledger_txn txn (some e.type) e.window (map (to_row txn) (e ∷ es))

unfoldable pub post_txn : ℕ → List Entry → Call ⊤
post_txn txn entries = lift (sum_zero entries) >> post_rows txn entries

-- `_ = l.Store.InsertAudit(...)`: a failure is ignored.
unfoldable pub insert_audit : Audit → Call ⊤
insert_audit a = catch (query >> (λ s. (ok tt, record s { audits = a ∷ s.audits }))) (λ _. pure tt)

abbrev pub adjustment_leg : ℕ → ℤ → Entry
adjustment_leg account a = record {
  account_id = account;
  amount = a;
  type = adjustment;
  window = none;
}

-- `txn` is the random uuid of the transaction.
unfoldable pub post_adjustment : ℕ → ℕ → ℕ → ℤ → String → Call ⊤
post_adjustment txn debit credit amount reason =
    if str_eq reason ""
    then raise adjustment_reason
    else if leb_ℤ amount (pos 0)
    then raise bad_amount
    else (post_txn txn (adjustment_leg debit (neg64 amount) ∷ adjustment_leg credit amount ∷ [])
        >> insert_audit (record { subject_id = debit; reason = reason; amount = amount }))

-- `credit_floor` is LEDGER_CREDIT_FLOOR_UCRD, parsed, or 0.
unfoldable pub credit_floor : (String → String) → (String → Option ℤ) → ℤ
credit_floor getenv parse_int =
    let v = getenv "LEDGER_CREDIT_FLOOR_UCRD" in
    if str_eq v "" then pos 0 else elim (parse_int v) [ some n ↦ n | none ↦ pos 0 ]

check_balance : ℤ → LedgerAccount → Call ⊤
check_balance floor acct = do
  bal ← account_balance acct.id
  if leb_ℤ bal floor then raise quota else pure tt

-- The account lookup of `CheckQuota` may fail; a missing account passes.
after_account : ℤ → Result Error LedgerAccount → Call ⊤
unfolding check_balance
after_account floor (ok acct) = check_balance floor acct
after_account floor (err no_ledger) = pure tt
after_account floor (err e) = raise e

unfoldable pub check_quota : ℤ → ℕ → Call ⊤
unfolding after_account
check_quota floor user s =
    let (r, s') = must_account customer (some user) customer_balance s in after_account floor r s'

charges_of : Kind → ℤ → ℤ → ℤ
charges_of customer_balance opening closing =
    if ltb_ℤ closing opening then sub64 opening closing else pos 0
charges_of _ opening closing = pos 0

earnings_of : Kind → ℤ → ℤ → ℤ
earnings_of provider_earnings opening closing =
    if ltb_ℤ opening closing then sub64 closing opening else pos 0
earnings_of _ opening closing = pos 0

-- The row that `CloseCycle` writes for one account.
unfoldable pub statement_of : LedgerAccount → ℕ → ℕ → ℤ → ℤ → Statement
unfolding charges_of earnings_of
statement_of a start end opening closing = record {
  account_id = a.id;
  cycle_start = start;
  cycle_end = end;
  opening_ucrd = opening;
  closing_ucrd = closing;
  charges_ucrd = charges_of a.kind opening closing;
  earnings_ucrd = earnings_of a.kind opening closing;
}

unfoldable pub close_account : ℕ → ℕ → LedgerAccount → Call ⊤
close_account start end a = do
  opening ← account_balance_at a.id start
  closing ← account_balance_at a.id end
  insert_statement (statement_of a start end opening closing)

unfoldable pub close_cycle : ℕ → ℕ → Call ⊤
close_cycle start end = do accts ← list_ledger_accounts; for (close_account start end) accts
