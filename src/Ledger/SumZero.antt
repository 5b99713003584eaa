-- ===== src/Ledger/SumZero.antt =====
-- `SumZero` against the exact sum, and what `PostTxn` does with it.
use distributed_storage_plat.Common.{
  ◌≡◌, ◌≢◌, ◌↔◌, refl, ◌∙◌, sym, ap, Bool, true, false, List, [], ◌∷◌, arith, Result, ok, err,
  if◌then◌else◌,
}
use distributed_storage_plat.Common.Int.{ℤ, pos, negsuc, ◌+ℤ◌, int_laws}
use distributed_storage_plat.Common.Int64.{InRange, wrap64, wrap64_id, wrap64_add}
use distributed_storage_plat.Ledger.Amounts.{is_zero}
use distributed_storage_plat.Ledger.Types.{Error, unbalanced, ⊤}
use distributed_storage_plat.Ledger.Post.{Entry, sum_from, sum_zero}
use distributed_storage_plat.Ledger.Balance.{exact}

sum_from-wrap : (a : ℤ) (es : List Entry) → sum_from (wrap64 a) es ≡ wrap64 (a +ℤ exact es)
unfolding sum_from exact
sum_from-wrap a [] = ap wrap64 (omega int_laws)
sum_from-wrap a (e ∷ es) =
    rw (wrap64_add, sum_from-wrap (a +ℤ e.amount) es) (ap wrap64 (omega int_laws))

sum_from-exact : (es : List Entry) → InRange (exact es) → sum_from (pos 0) es ≡ exact es
sum_from-exact es h =
    let zero_id : wrap64 (pos 0) ≡ pos 0 = wrap64_id (pos 0) (omega arith) in
    ap (λ z. sum_from z es) (sym zero_id)
    ∙ sum_from-wrap (pos 0) es
    ∙ ap wrap64 (omega int_laws)
    ∙ wrap64_id (exact es) h

is_zero_iff : (a : ℤ) → (is_zero a ≡ true) ↔ (a ≡ pos 0)
is_zero_iff (pos n) = ground arith
is_zero_iff (negsuc n) = ground arith

tested :
    (b : Bool) → ◌≡◌ {A = Result Error ⊤} (if b then ok tt else err unbalanced) (ok tt) → b ≡ true
tested true e = refl
tested false e = absurd (cc)

-- When the exact sum of the legs fits an int64, `SumZero` accepts them if and only if there is a leg
-- and the exact sum is zero.
pub sum_zero_iff :
    (es : List Entry)
    → InRange (exact es)
    → (sum_zero es ≡ ok tt) ↔ ((es ≢ []) × (exact es ≡ pos 0))
unfolding sum_zero
sum_zero_iff [] h = ((λ e. absurd (cc)), λ p. absurd (p.0 refl))
sum_zero_iff (e ∷ es) h =
    let same = sum_from-exact (e ∷ es) h in
    (
      (λ k. ((λ n. absurd (cc)), (is_zero_iff _).0 (rw same at (tested _ k)))),
      (λ p. rw (same, (is_zero_iff _).1 p.1) refl),
    )
