-- ===== src/Ledger/Examples.antt =====
-- Tests of the ledger on concrete tables.
use distributed_storage_plat.Common.{
  ℕ, suc, ◌+◌, ◌*◌, ◌/◌, ◌≤◌, ◌<◌, ◌≡◌, ◌≢◌, ◌↔◌, refl, Bool, true, false, some, List, [], ◌∷◌,
  arith, ltb, length, map, ok, for,
}
use distributed_storage_plat.Common.Int.{ℤ, pos, negsuc, ◌≤ℤ◌, ltb_ℤ, ◌+ℤ◌, ◌-ℤ◌, ◌*ℤ◌}
use distributed_storage_plat.Common.Int64.{InRange, wrap64}
use distributed_storage_plat.Ledger.Amounts.{
  Rates, Floats, storage_charge, storage_earning, reliability_bp, clamp01, clamp_bp, egress_charge,
  egress_earning, reputation_factor_bp,
}
use distributed_storage_plat.Ledger.Types.{
  EntryType, LedgerAccount, Db, unbalanced_from, sum_txn, has_txn, find_account,
  ensure_ledger_account, catch, ledger_account_by_key, query, insert_account, upsert, conflicting,
  atomic, has_account, insert_entry, insert_header, insert_ledger_txn, txn_body,
}
use distributed_storage_plat.Ledger.Types.{customer, provider, customer_balance, provider_earnings}
use distributed_storage_plat.Ledger.Post.{
  Entry, sum_from, post_rows, sum_zero, post_txn, to_row, post_adjustment,
}
use distributed_storage_plat.Ledger.Accrual.{
  accrue_loops, charge_storage, post_charge, charge_egress, earn_egress, earn_storage,
  held_reputation, post_earning, Meters, accrue_window, catch_up,
}
use distributed_storage_plat.Ledger.Charges.{
  storage_charge_exact, storage_charge_overflow, earning-le-charge,
}
use distributed_storage_plat.Ledger.Posting.{Outcome, header, post_txn-Outcome}
use distributed_storage_plat.Ledger.Balance.{IsBalanced, exact}
use distributed_storage_plat.Ledger.DoubleEntry.{catch_up-IsBalanced, post_adjustment-IsBalanced}
use distributed_storage_plat.Ledger.SumZero.{sum_zero_iff}
use distributed_storage_plat.Ledger.Idempotence.{accrue_window_idempotent}

-- Ratios in hundredths in place of `float32`.
abbrev hundredths : Floats
hundredths = record {
  Float = ℕ;
  zero_f = 0;
  one_f = 100;
  ltb_f = ltb;
  scale = λ v k. pos (v * k / 100);
}

abbrev prices : Rates
prices = record {
  customer_storage_per_gb_month = pos 3000000;
  provider_storage_per_gb_month = pos 1500000;
  customer_egress_per_gb = pos 1000000;
  provider_egress_per_gb = pos 500000;
}

abbrev code : EntryType → ℕ
code EntryType.storage_charge = 0
code EntryType.egress_charge = 1
code EntryType.storage_earning = 2
code EntryType.egress_earning = 3
code EntryType.adjustment = 4

abbrev ids : EntryType → ℕ → ℕ → ℕ
ids type subject window = code type + 8 * (subject + 1000 * window)

abbrev fresh : List LedgerAccount → ℕ
fresh as' = suc (length as')

-- A customer with 1 TB and a node that holds 1.6 TB of fragments.
abbrev readings : Meters hundredths
readings = record {
  customer_stored = ok (record { owner_id = 1; size_bytes = pos 1000000000000 } ∷ []);
  node_held =
      ok (
        record { node_id = 7; owner_id = 2; size_bytes = pos 1600000000000; reputation = 50 } ∷ []);
  customer_egress = λ _. ok (record { owner_id = 1; bytes = pos 5000000000 } ∷ []);
  node_served = λ _. ok (record { node_id = 7; owner_id = 2; bytes = pos 5000000000 } ∷ []);
  reliability = λ _. ok (99, 98);
}

abbrev empty_db : List Bool → Db
empty_db outages = record {
  accounts = [];
  txns = [];
  entries = [];
  watermarks = [];
  statements = [];
  audits = [];
  now = 10800;
  outages = outages;
}

empty-IsBalanced : (outages : List Bool) → IsBalanced (empty_db outages)
unfolding sum_txn
empty-IsBalanced outages t = refl

catch_up-IsBalanced_example :
    let s' =
      (catch_up hundredths fresh ids prices
        (λ _. readings)
        "accrual"
        10800
        (empty_db (false ∷ false ∷ false ∷ false ∷ true ∷ []))).1 in
    IsBalanced s' × (unbalanced_from [] s'.entries s'.entries ≡ [])
catch_up-IsBalanced_example =
    catch_up-IsBalanced hundredths fresh ids prices (λ _. readings) "accrual" 10800
      (empty_db (false ∷ false ∷ false ∷ false ∷ true ∷ []))
      (empty-IsBalanced (false ∷ false ∷ false ∷ false ∷ true ∷ []))

post_adjustment-IsBalanced_example :
    IsBalanced (post_adjustment 5 1 2 (pos 100) "refund" (empty_db [])).1
post_adjustment-IsBalanced_example =
    post_adjustment-IsBalanced 5 1 2 (pos 100) "refund" (empty_db []) (omega arith, omega arith)
      (empty-IsBalanced [])

abbrev leg : ℕ → ℤ → Entry
leg account amount = record {
  account_id = account;
  amount = amount;
  type = EntryType.storage_charge;
  window = some 7200;
}

-- Accounts 1 and 2, and a posted transaction.
abbrev book : Db
book = record (empty_db []) {
  accounts =
      record { id = 1; owner_type = customer; owner_id = some 1; kind = customer_balance }
      ∷ record { id = 2; owner_type = provider; owner_id = some 2; kind = provider_earnings }
      ∷ [];
}

post_txn-Outcome_example :
    Outcome
      (header 9 (leg 1 (negsuc 4)))
      (map (to_row 9) (leg 1 (negsuc 4) ∷ leg 2 (pos 5) ∷ []))
      book
      (post_txn 9 (leg 1 (negsuc 4) ∷ leg 2 (pos 5) ∷ []) book)
    × ((post_txn 9 (leg 1 (negsuc 4) ∷ leg 2 (pos 5) ∷ []) book).0 ≡ ok tt
        → sum_zero (leg 1 (negsuc 4) ∷ leg 2 (pos 5) ∷ []) ≡ ok tt)
post_txn-Outcome_example = post_txn-Outcome 9 (leg 1 (negsuc 4)) (leg 2 (pos 5) ∷ []) book

legs-InRange : InRange (exact (leg 1 (negsuc 4) ∷ leg 2 (pos 5) ∷ []))
unfolding exact ◌+ℤ◌
legs-InRange = (omega arith, omega arith)

sum_zero_iff_example : (sum_zero (leg 1 (negsuc 4) ∷ leg 2 (pos 5) ∷ []) ≡ ok tt) ↔ (
    ((leg 1 (negsuc 4) ∷ leg 2 (pos 5) ∷ []) ≢ [])
    × (exact (leg 1 (negsuc 4) ∷ leg 2 (pos 5) ∷ []) ≡ pos 0))
sum_zero_iff_example = sum_zero_iff (leg 1 (negsuc 4) ∷ leg 2 (pos 5) ∷ []) legs-InRange

abbrev accrued_db : Db
accrued_db = (accrue_window hundredths fresh ids prices readings 7205 (empty_db [])).1

accrued :
    accrue_window hundredths fresh ids prices readings 7205 (empty_db []) ≡ (ok tt, accrued_db)
unfolding accrue_window ensure_ledger_account catch ledger_account_by_key query find_account
    insert_account accrue_loops for charge_storage storage_charge wrap64 ◌*ℤ◌ ◌+ℤ◌ ◌-ℤ◌ post_charge
    upsert conflicting post_txn sum_zero sum_from charge_egress earn_egress earn_storage
    held_reputation post_earning clamp01 clamp_bp egress_charge egress_earning reliability_bp
    reputation_factor_bp storage_earning post_rows to_row atomic has_account has_txn insert_entry
    insert_header insert_ledger_txn txn_body
accrued = refl

accrue_window_idempotent_example :
    accrue_window hundredths fresh ids prices readings 7205 accrued_db ≡ (ok tt, accrued_db)
accrue_window_idempotent_example =
    accrue_window_idempotent hundredths fresh ids prices readings 7205 (empty_db []) accrued_db refl
      accrued

storage_charge_exact_example :
    (q : ℕ) × (storage_charge (pos 1000000000000) prices ≡ pos q)
    × (q * 730000000000 ≤ 1000000000000 * 3000000)
    × (1000000000000 * 3000000 < (q + 1) * 730000000000)
storage_charge_exact_example = storage_charge_exact 1000000000000 3000000 prices refl (omega arith)

storage_charge_overflow_example : ltb_ℤ (storage_charge (pos 4000000000000) prices) (pos 0) ≡ true
storage_charge_overflow_example =
    storage_charge_overflow 4000000000000 prices refl (omega arith) (omega arith)

earning-le-charge_example :
    storage_earning (pos 1600000000000) prices (pos 12000)
    ≤ℤ storage_charge (pos 1000000000000) prices
earning-le-charge_example =
    earning-le-charge 1600000000000 1000000000000 12000 prices refl refl (omega arith) (omega arith)
      (omega arith) (omega arith)
