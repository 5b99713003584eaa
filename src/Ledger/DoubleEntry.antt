-- ===== src/Ledger/DoubleEntry.antt =====
-- The accruer and the adjustments keep every transaction balanced, so the check for unbalanced
-- transactions of internal/store/ledger.go finds none.
use distributed_storage_plat.Common.{
  ℕ, ◌<◌, ◌≡◌, refl, Bool, Option, none, some, List, [], ◌∷◌, arith, Keeps-bind, Keeps-if,
  Keeps-raise, Keeps-lift, raise, if◌then◌else◌, true, false, Keeps, ◌>>◌,
}
use distributed_storage_plat.Common.Int.{ℤ, pos, neg_part, leb_ℤ}
use distributed_storage_plat.Common.Int64.{InRange, i64_lim, neg64}
use distributed_storage_plat.Ledger.Amounts.{Rates, Floats}
use distributed_storage_plat.Ledger.Charges.{IsSmall}
use distributed_storage_plat.Ledger.Types.{
  OwnerType, Kind, EntryType, LedgerAccount, Db, query, catch, ledger_account_by_key,
  insert_account, ensure_ledger_account, upsert, accrual_watermark, set_accrual_watermark,
  unbalanced_from,
}
use distributed_storage_plat.Ledger.Types.{Audit, adjustment_reason, bad_amount}
use distributed_storage_plat.Ledger.Post.{
  Entry, post_txn, post_adjustment, insert_audit, adjustment_leg,
}
use distributed_storage_plat.Ledger.Accrual.{Meters, catch_up}
use distributed_storage_plat.Ledger.Balance.{
  IsBalanced, exact-pair, post_txn-IsBalanced, unbalanced_from-nil,
}
use distributed_storage_plat.Ledger.Walk.{Compositional, catch_up-K}
use Prim.Native.String.{String}
use text.Mathlib.Text.{◌==◌ as str_eq}

query-entries : (s : Db) → (query s).1.entries ≡ s.entries
unfolding query
query-entries s = ground arith

ensure-entries :
    (fresh : List LedgerAccount → ℕ) (ot : OwnerType) (o : Option ℕ) (k : Kind) (s : Db)
    → (ensure_ledger_account fresh ot o k s).1.entries ≡ s.entries
unfolding ensure_ledger_account catch insert_account upsert ledger_account_by_key query
ensure-entries fresh ot (some o) k s = ground arith
ensure-entries fresh ot none k s = ground arith

query-Keeps : Keeps IsBalanced query
query-Keeps = record { at = λ s b t. rw (query-entries s) (b t) }

ensure-Keeps :
    (fresh : List LedgerAccount → ℕ) (ot : OwnerType) (o : Option ℕ) (k : Kind)
    → Keeps IsBalanced (ensure_ledger_account fresh ot o k)
ensure-Keeps fresh ot o k = record { at = λ s b t. rw (ensure-entries fresh ot o k s) (b t) }

post-Keeps :
    (t : ℕ) (x y : Entry) (c : ℤ)
    → IsSmall c
    → x.amount ≡ neg64 c
    → y.amount ≡ c
    → Keeps IsBalanced (post_txn t (x ∷ y ∷ []))
post-Keeps t x y c small ex ey = post_txn-IsBalanced t x (y ∷ []) (exact-pair x y c small ex ey)

watermark-entries : (name : String) (s : Db) → (accrual_watermark name s).1.entries ≡ s.entries
unfolding accrual_watermark query
watermark-entries name s = ground arith

set_watermark-entries :
    (name : String) (w : ℕ) (s : Db) → (set_accrual_watermark name w s).1.entries ≡ s.entries
unfolding set_accrual_watermark query
set_watermark-entries name w s = ground arith

audit-entries : (a : Audit) (s : Db) → (insert_audit a s).1.entries ≡ s.entries
unfolding insert_audit catch query
audit-entries a s = ground arith

audit-Keeps : (a : Audit) → Keeps IsBalanced (insert_audit a)
audit-Keeps a = record { at = λ s b t. rw (audit-entries a s) (b t) }

Keeps-Compositional : Compositional (λ A m. Keeps IsBalanced m)
Keeps-Compositional = record {
  on_lift = λ A r. Keeps-lift r;
  on_bind = λ A B m f h k. Keeps-bind m f h k;
}

-- A catch-up that may fail at any call keeps every transaction balanced: the check for
-- unbalanced transactions then finds none.
pub catch_up-IsBalanced :
    (fl : Floats) (fresh : List LedgerAccount → ℕ) (txn_id_of : EntryType → ℕ → ℕ → ℕ)
    (rates : Rates) (meters : ℕ → Meters fl) (name : String) (now : ℕ) (s : Db)
    → IsBalanced s
    → let s' = (catch_up fl fresh txn_id_of rates meters name now s).1 in
      IsBalanced s' × (unbalanced_from [] s'.entries s'.entries ≡ [])
catch_up-IsBalanced fl fresh txn_id_of rates meters name now s b =
    let b' =
      (catch_up-K fl fresh txn_id_of rates Keeps-Compositional (ensure-Keeps fresh) post-Keeps
          meters name (record { at = λ d h t. rw (watermark-entries name d) (h t) })
          (λ w. record { at = λ d h t. rw (set_watermark-entries name w d) (h t) }) now).at
        s b in
    (b', unbalanced_from-nil [] _ _ b')

-- An adjustment of any int64 amount keeps every transaction balanced, accepted or not.
pub post_adjustment-IsBalanced :
    (txn debit credit : ℕ) (amount : ℤ) (reason : String) (s : Db)
    → InRange amount
    → IsBalanced s
    → IsBalanced (post_adjustment txn debit credit amount reason s).1
unfolding post_adjustment
post_adjustment-IsBalanced txn debit credit amount reason s h b =
    (Keeps-if (str_eq reason "") _ _ (Keeps-raise adjustment_reason)
        (positive (leb_ℤ amount (pos 0)) refl)).at
      s b
  where
    positive :
        (c : Bool)
        → leb_ℤ amount (pos 0) ≡ c
        → Keeps IsBalanced (
            if c
            then raise bad_amount
            else (post_txn txn
                  (adjustment_leg debit (neg64 amount) ∷ adjustment_leg credit amount ∷ [])
                >> insert_audit (record { subject_id = debit; reason = reason; amount = amount })))
    positive true e = Keeps-raise bad_amount
    positive false e =
        Keeps-bind _ _ (post-Keeps txn _ _ amount (h.0, not_least e) refl refl) (λ _. audit-Keeps _)
      where
        not_least : leb_ℤ amount (pos 0) ≡ false → neg_part amount < i64_lim
        not_least e = ground arith
