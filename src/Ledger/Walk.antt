-- ===== src/Ledger/Walk.antt =====
-- The rule of the accruer: a predicate on calls that sequencing respects, and that holds of
-- `EnsureAccount` and of each posted pair, holds of a whole window and of a whole catch-up.
use distributed_storage_plat.Common.{
  ℕ, zero, suc, ◌+◌, ◌≡◌, refl, Bool, true, false, Option, List, [], ◌∷◌, if◌then◌else◌, Result, ok,
  ◌>>=◌, lift, for,
}
use distributed_storage_plat.Common.Int.{ℤ, pos, leb_ℤ}
use distributed_storage_plat.Common.Int64.{neg64}
use distributed_storage_plat.Ledger.Amounts.{
  Rates, Floats, is_zero, storage_earning, egress_earning, reliability_bp,
}
use distributed_storage_plat.Ledger.Charges.{
  IsSmall, storage_charge-IsSmall, storage_earning-IsSmall, egress_charge-IsSmall,
  egress_earning-IsSmall,
}
use distributed_storage_plat.Ledger.Types.{
  OwnerType, Kind, EntryType, LedgerAccount, Error, Db, Call, ⊤, ensure_ledger_account,
  accrual_watermark, set_accrual_watermark, truncate_hour,
}
use distributed_storage_plat.Ledger.Types
use distributed_storage_plat.Ledger.Post.{Entry, post_txn}
use distributed_storage_plat.Ledger.Accrual.{
  Meters, CustomerStored, CustomerEgress, NodeHeld, NodeWindowServed, post_charge, post_earning,
  charge_storage, earn_storage, charge_egress, earn_egress, accrue_loops, accrue_window,
  catch_up_one, catch_up_from, catch_up, held_reputation,
}
use Prim.Native.String.{String}

-- A predicate on calls that holds of values and errors and of calls in sequence.
pub record Compositional (K : (A : Type 0) → Call A → Type 0) : Type 1 where
  pub on_lift : (A : Type 0) (r : Result Error A) → K A (lift r)
  pub on_bind :
      (A B : Type 0) (m : Call A) (f : A → Call B) → K A m → ((a : A) → K B (f a)) → K B (m >>= f)

module _ {K : (A : Type 0) → Call A → Type 0} (c : Compositional K) where
  pub K-bind :
      {A B : Type 0} (m : Call A) (f : A → Call B) → K A m → ((a : A) → K B (f a)) → K B (m >>= f)
  K-bind {A} {B} m f = c.on_bind A B m f

  pub K-lift : {A : Type 0} (r : Result Error A) → K A (lift r)
  K-lift {A} r = c.on_lift A r

  pub K-if : {A : Type 0} (b : Bool) (m k : Call A) → K A m → K A k → K A (if b then m else k)
  K-if true m k hm hk = hm
  K-if false m k hm hk = hk

  pub K-for : {A : Type 0} (f : A → Call ⊤) (xs : List A) → ((a : A) → K ⊤ (f a)) → K ⊤ (for f xs)
  unfolding for
  K-for f [] k = c.on_lift ⊤ (ok tt)
  K-for f (x ∷ xs) k = c.on_bind ⊤ ⊤ (f x) (λ _. for f xs) (k x) (λ _. K-for f xs k)

module _ (fl : Floats) (fresh : List LedgerAccount → ℕ) (txn_id_of : EntryType → ℕ → ℕ → ℕ)
    (rates : Rates) {K : (A : Type 0) → Call A → Type 0} (c : Compositional K)
    (ensure : (ot : OwnerType) (o : Option ℕ) (k : Kind)
      → K LedgerAccount (ensure_ledger_account fresh ot o k))
    (post : (t : ℕ) (x y : Entry) (n : ℤ)
      → IsSmall n
      → x.amount ≡ neg64 n
      → y.amount ≡ n
      → K ⊤ (post_txn t (x ∷ y ∷ []))) where
  module _ (m : Meters fl) where
    charge-K :
        (revenue : ℕ) (type : EntryType) (owner window : ℕ) (n : ℤ)
        → IsSmall n
        → K ⊤ (post_charge fl fresh txn_id_of rates m revenue type owner window n)
    unfolding post_charge
    charge-K revenue type owner window n small =
        K-bind c _ _ (ensure _ _ _) (λ a. post _ _ _ n small refl refl)

    earning-K :
        (revenue : ℕ) (type : EntryType) (owner node window : ℕ) (n : ℤ)
        → IsSmall n
        → K ⊤ (post_earning fl fresh txn_id_of rates m revenue type owner node window n)
    unfolding post_earning
    earning-K revenue type owner node window n small =
        K-bind c _ _ (ensure _ _ _) (λ a. post _ _ _ n small refl refl)

    charge_storage-K :
        (revenue window : ℕ) (x : CustomerStored)
        → K ⊤ (charge_storage fl fresh txn_id_of rates m revenue window x)
    unfolding charge_storage
    charge_storage-K revenue window x =
        K-if c _ _ _ (K-lift c (ok tt))
          (charge-K _ _ _ _ _ (storage_charge-IsSmall x.size_bytes rates))

    charge_egress-K :
        (revenue window : ℕ) (x : CustomerEgress)
        → K ⊤ (charge_egress fl fresh txn_id_of rates m revenue window x)
    unfolding charge_egress
    charge_egress-K revenue window x =
        K-if c _ _ _ (K-lift c (ok tt)) (charge-K _ _ _ _ _ (egress_charge-IsSmall x.bytes rates))

    earn_storage-K :
        (revenue window : ℕ) (n : NodeHeld fl)
        → K ⊤ (earn_storage fl fresh txn_id_of rates m revenue window n)
    unfolding earn_storage
    earn_storage-K revenue window n = K-if c (leb_ℤ n.size_bytes (pos 0)) _ _ (K-lift c (ok tt)) (
        K-bind c (lift (m.reliability n.node_id)) _ (K-lift c (m.reliability n.node_id)) (λ rel.
          let bp = reliability_bp fl rel.0 rel.1 n.reputation in
          K-if c (is_zero (storage_earning n.size_bytes rates bp)) _ _ (K-lift c (ok tt)) (
            earning-K revenue Types.storage_earning n.owner_id n.node_id window _
              (storage_earning-IsSmall n.size_bytes rates bp))))

    earn_egress-K :
        (revenue window : ℕ) (held : List (NodeHeld fl)) (n : NodeWindowServed)
        → K ⊤ (earn_egress fl fresh txn_id_of rates m revenue window held n)
    unfolding earn_egress
    earn_egress-K revenue window held n =
        K-bind c (lift (m.reliability n.node_id)) _ (K-lift c (m.reliability n.node_id)) (λ rel.
          let bp = reliability_bp fl rel.0 rel.1 (held_reputation fl n.node_id held) in
          K-if c (is_zero (egress_earning n.bytes rates bp)) _ _ (K-lift c (ok tt)) (
            earning-K revenue Types.egress_earning n.owner_id n.node_id window _
              (egress_earning-IsSmall n.bytes rates bp)))

    accrue_loops-K :
        (revenue window : ℕ) → K ⊤ (accrue_loops fl fresh txn_id_of rates m revenue window)
    unfolding accrue_loops
    accrue_loops-K revenue window = K-bind c _ _ (K-lift c _) (λ cust.
        K-bind c _ _ (K-for c _ cust (charge_storage-K revenue window)) (λ _.
          K-bind c _ _ (K-lift c _) (λ held.
            K-bind c _ _ (K-for c _ held (earn_storage-K revenue window)) (λ _.
              K-bind c _ _ (K-lift c _) (λ eg.
                K-bind c _ _ (K-for c _ eg (charge_egress-K revenue window)) (λ _.
                  K-bind c _ _ (K-lift c _)
                    (λ served. K-for c _ served (earn_egress-K revenue window held))))))))

    pub accrue_window-K : (at : ℕ) → K ⊤ (accrue_window fl fresh txn_id_of rates m at)
    unfolding accrue_window
    accrue_window-K at = K-bind c _ _ (ensure _ _ _) (λ a. accrue_loops-K a.id (truncate_hour at))

  module _ (meters : ℕ → Meters fl) (name : String) (read : K (Option ℕ) (accrual_watermark name))
      (write : (w : ℕ) → K ⊤ (set_accrual_watermark name w)) where
    catch_up_one-K : (w : ℕ) → K ⊤ (catch_up_one fl fresh txn_id_of rates meters name w)
    unfolding catch_up_one
    catch_up_one-K w = K-bind c _ _ (accrue_window-K (meters w) w) (λ _. write w)

    catch_up_from-K :
        (rounds w target : ℕ)
        → K ⊤ (catch_up_from fl fresh txn_id_of rates meters name rounds w target)
    unfolding catch_up_from
    catch_up_from-K zero w target = K-lift c (ok tt)
    catch_up_from-K (suc rounds) w target =
        K-if c _ _ _ (K-lift c (ok tt))
          (K-bind c _ _ (catch_up_one-K w) (λ _. catch_up_from-K rounds (w + 3600) target))

    pub catch_up-K : (now : ℕ) → K ⊤ (catch_up fl fresh txn_id_of rates meters name now)
    unfolding catch_up
    catch_up-K now =
        K-bind c _ _ read (λ last. K-if c _ _ _ (K-lift c (ok tt)) (catch_up_from-K _ _ _))
