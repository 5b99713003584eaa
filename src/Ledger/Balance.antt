-- ===== src/Ledger/Balance.antt =====
-- Double entry: the legs of every transaction sum to zero, whatever fails on the way.
use distributed_storage_plat.Common.{
  ℕ, ◌≡◌, refl, ap, inl, inr, Bool, true, false, List, [], ◌∷◌, ◌++◌, ◌==◌, map, arith,
  if◌then◌else◌, Result, ok, err, Keeps, Bool-cases,
}
use distributed_storage_plat.Common.Int.{ℤ, pos, negsuc, ◌+ℤ◌, ◌-ℤ◌, int_laws}
use distributed_storage_plat.Common.Int64.{InRange, wrap64_id, neg64}
use distributed_storage_plat.Ledger.Types.{LedgerEntry, Db, ⊤, Error, sum_txn, unbalanced_from}
use distributed_storage_plat.Ledger.Post.{Entry, to_row, post_txn}
use distributed_storage_plat.Ledger.Charges.{IsSmall}
use distributed_storage_plat.Ledger.Posting.{stamp, header, Outcome, post_txn-Outcome}

-- Every transaction sums to zero, as an exact sum.
abbrev pub IsBalanced : Db → Type 0
IsBalanced s = (t : ℕ) → sum_txn t s.entries ≡ pos 0

sum_txn-append :
    (t : ℕ) (xs ys : List LedgerEntry) → sum_txn t (xs ++ ys) ≡ sum_txn t xs +ℤ sum_txn t ys
unfolding sum_txn
sum_txn-append t [] ys = omega int_laws
sum_txn-append t (x ∷ xs) ys = elim (Bool-cases (x.txn_id == t)) [
  | inl same ↦ rw (same, sum_txn-append t xs ys) (omega int_laws)
  | inr other ↦ rw (other, sum_txn-append t xs ys) refl
]

-- The exact sum of the legs.
unfoldable pub exact : List Entry → ℤ
exact [] = pos 0
exact (e ∷ es) = e.amount +ℤ exact es

sum_txn-rows :
    (t u now : ℕ) (es : List Entry)
    → sum_txn u (map (stamp now) (map (to_row t) es)) ≡ (if t == u then exact es else pos 0)
unfolding sum_txn exact to_row
sum_txn-rows t u now [] = ground arith
sum_txn-rows t u now (e ∷ es) = elim (Bool-cases (t == u)) [
  | inl same ↦ rw (same, sum_txn-rows t u now es, same) refl
  | inr other ↦ rw (other, sum_txn-rows t u now es, other) refl
]

zero_either : (b : Bool) → pos 0 +ℤ (if b then pos 0 else pos 0) ≡ pos 0
unfolding ◌+ℤ◌
zero_either true = refl
zero_either false = refl

Outcome-IsBalanced :
    (t : ℕ) (e : Entry) (es : List Entry) (s : Db) (r : Result Error ⊤) (s' : Db)
    → exact (e ∷ es) ≡ pos 0
    → Outcome (header t e) (map (to_row t) (e ∷ es)) s (r, s')
    → IsBalanced s
    → IsBalanced s'
Outcome-IsBalanced t e es s (err _) s' z o b u = rw (ap (λ (d : Db). d.entries) o) (b u)
Outcome-IsBalanced t e es s (ok _) s' z o b u = elim o [
  | inl (_, same) ↦ rw (ap (λ (d : Db). d.entries) same) (b u)
  | inr (_, more) ↦
      rw (ap (λ (d : Db). d.entries) more)
        (rw (sum_txn-append, b u, sum_txn-rows t u s.now (e ∷ es), z) (zero_either (t == u)))
]

pub post_txn-IsBalanced :
    (t : ℕ) (e : Entry) (es : List Entry)
    → exact (e ∷ es) ≡ pos 0
    → Keeps IsBalanced (post_txn t (e ∷ es))
post_txn-IsBalanced t e es z = record {
  at = λ s b. Outcome-IsBalanced t e es s _ _ z (post_txn-Outcome t e es s).0 b;
}

neg64_exact : (c : ℤ) → IsSmall c → neg64 c ≡ pos 0 -ℤ c
neg64_exact c h = wrap64_id (pos 0 -ℤ c) (in_range c h)
  where
    in_range : (a : ℤ) → IsSmall a → InRange (pos 0 -ℤ a)
    in_range (pos n) k = unfold ◌-ℤ◌ in ground arith
    in_range (negsuc n) k = unfold ◌-ℤ◌ in ground arith

-- Two legs of opposite amounts.
pub exact-pair :
    (x y : Entry) (c : ℤ)
    → IsSmall c
    → x.amount ≡ neg64 c
    → y.amount ≡ c
    → exact (x ∷ y ∷ []) ≡ pos 0
unfolding exact
exact-pair x y c h ex ey = rw (ex, ey, neg64_exact c h) (omega int_laws)

pub unbalanced_from-nil :
    (seen : List ℕ) (all es : List LedgerEntry)
    → ((t : ℕ) → sum_txn t all ≡ pos 0)
    → unbalanced_from seen all es ≡ []
unfolding unbalanced_from
unbalanced_from-nil seen all [] b = refl
unbalanced_from-nil seen all (e ∷ es) b =
    ground (arith, b e.txn_id, unbalanced_from-nil (e.txn_id ∷ seen) all es b)
