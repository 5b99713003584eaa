-- ===== src/Ledger/Accrual.antt =====
-- internal/ledger/accrue.go: the hourly accruer.
-- The meters, the uuid of gen_random_uuid() and the SHA-1 uuid of `DeterministicTxnID` are
-- parameters. `window` and the clock are seconds of Unix time.
use distributed_storage_plat.Common.{
  ℕ, zero, suc, ◌+◌, ◌-◌, Option, none, some, List, [], ◌∷◌, ltb, ◌==◌, Result, pure, lift, ◌>>=◌,
  ◌>>◌, for, if◌then◌else◌,
}
use distributed_storage_plat.Common.Int.{ℤ, pos, leb_ℤ}
use distributed_storage_plat.Common.Int64.{neg64}
use distributed_storage_plat.Ledger.Amounts.{
  Rates, Floats, is_zero, storage_charge, storage_earning, egress_charge, egress_earning,
  reliability_bp,
}
use distributed_storage_plat.Ledger.Types.{
  OwnerType, customer, provider, platform, Kind, customer_balance, provider_earnings,
  platform_revenue, EntryType, Error, LedgerAccount, Call, ⊤, ensure_ledger_account, truncate_hour,
  accrual_watermark, set_accrual_watermark,
}
use distributed_storage_plat.Ledger.Types
use distributed_storage_plat.Ledger.Post.{post_txn}
use Prim.Native.String.{String}

pub record CustomerStored : Type 0 where
  pub owner_id : ℕ
  pub size_bytes : ℤ

pub record CustomerEgress : Type 0 where
  pub owner_id : ℕ
  pub bytes : ℤ

pub record NodeWindowServed : Type 0 where
  pub node_id : ℕ
  pub owner_id : ℕ
  pub bytes : ℤ

abbrev pub max_catch_up_hours : ℕ
max_catch_up_hours = 48

module _ (fl : Floats) where
  open fl use {Float, one_f}

  pub record NodeHeld : Type 0 where
    pub node_id : ℕ
    pub owner_id : ℕ
    pub size_bytes : ℤ
    pub reputation : Float

  -- What the meters answer during one window, failures included.
  pub record Meters : Type 0 where
    pub customer_stored : Result Error (List CustomerStored)
    pub node_held : Result Error (List NodeHeld)
    pub customer_egress : ℕ → Result Error (List CustomerEgress)
    pub node_served : ℕ → Result Error (List NodeWindowServed)
    pub reliability : ℕ → Result Error (Float × Float)

  -- The reputation of the held row of a node, or 1.
  unfoldable pub held_reputation : ℕ → List NodeHeld → Float
  held_reputation node [] = one_f
  held_reputation node (h ∷ held) =
      if h.node_id == node then h.reputation else held_reputation node held

  module _ (fresh : List LedgerAccount → ℕ) (txn_id_of : EntryType → ℕ → ℕ → ℕ) (rates : Rates)
      (m : Meters) where
    -- The two legs between an account and the platform, posted under the id of the kind, the
    -- subject and the window.
    unfoldable pub post_charge : ℕ → EntryType → ℕ → ℕ → ℤ → Call ⊤
    post_charge revenue type owner window charge = do
      acct ← ensure_ledger_account fresh customer (some owner) customer_balance
      post_txn (txn_id_of type owner window) (
          record { account_id = acct.id; amount = neg64 charge; type = type; window = some window }
          ∷ record { account_id = revenue; amount = charge; type = type; window = some window }
          ∷ [])

    unfoldable pub post_earning : ℕ → EntryType → ℕ → ℕ → ℕ → ℤ → Call ⊤
    post_earning revenue type owner node window earn = do
      acct ← ensure_ledger_account fresh provider (some owner) provider_earnings
      post_txn (txn_id_of type node window) (
          record { account_id = revenue; amount = neg64 earn; type = type; window = some window }
          ∷ record { account_id = acct.id; amount = earn; type = type; window = some window }
          ∷ [])

    -- The bodies of the four loops; `continue` is `pure tt`.
    unfoldable pub charge_storage : ℕ → ℕ → CustomerStored → Call ⊤
    charge_storage revenue window c =
        let charge = storage_charge c.size_bytes rates in
        if is_zero charge
        then pure tt
        else post_charge revenue Types.storage_charge c.owner_id window charge

    unfoldable pub earn_storage : ℕ → ℕ → NodeHeld → Call ⊤
    earn_storage revenue window n = if leb_ℤ n.size_bytes (pos 0) then pure tt else do
      rel ← lift (m.reliability n.node_id)
      let bp = reliability_bp fl rel.0 rel.1 n.reputation
      let earn = storage_earning n.size_bytes rates bp
      if is_zero earn
          then pure tt
          else post_earning revenue Types.storage_earning n.owner_id n.node_id window earn

    unfoldable pub charge_egress : ℕ → ℕ → CustomerEgress → Call ⊤
    charge_egress revenue window c =
        let charge = egress_charge c.bytes rates in
        if is_zero charge
        then pure tt
        else post_charge revenue Types.egress_charge c.owner_id window charge

    unfoldable pub earn_egress : ℕ → ℕ → List NodeHeld → NodeWindowServed → Call ⊤
    earn_egress revenue window held n = do
      rel ← lift (m.reliability n.node_id)
      let bp = reliability_bp fl rel.0 rel.1 (held_reputation n.node_id held)
      let earn = egress_earning n.bytes rates bp
      if is_zero earn
          then pure tt
          else post_earning revenue Types.egress_earning n.owner_id n.node_id window earn

    unfoldable pub accrue_loops : ℕ → ℕ → Call ⊤
    accrue_loops revenue window = do
      cust ← lift m.customer_stored
      for (charge_storage revenue window) cust
      held ← lift m.node_held
      for (earn_storage revenue window) held
      eg ← lift (m.customer_egress window)
      for (charge_egress revenue window) eg
      served ← lift (m.node_served window)
      for (earn_egress revenue window held) served

    unfoldable pub accrue_window : ℕ → Call ⊤
    accrue_window at = do
      let window = truncate_hour at
      revenue ← ensure_ledger_account fresh platform none platform_revenue
      accrue_loops revenue.id window

  -- The loop of `CatchUp`: it stops behind the target or after `rounds` windows. The meters answer
  -- anew for each window.
  module _ (fresh : List LedgerAccount → ℕ) (txn_id_of : EntryType → ℕ → ℕ → ℕ) (rates : Rates)
      (meters : ℕ → Meters) (name : String) where
    unfoldable pub catch_up_one : ℕ → Call ⊤
    catch_up_one w =
        accrue_window fresh txn_id_of rates (meters w) w >> set_accrual_watermark name w

    unfoldable pub catch_up_from : ℕ → ℕ → ℕ → Call ⊤
    catch_up_from zero w target = pure tt
    catch_up_from (suc rounds) w target =
        let rest = catch_up_one w >> catch_up_from rounds (w + 3600) target in
        if ltb target w then pure tt else rest

    -- Where `CatchUp` starts; `none` is the zero time.
    unfoldable pub catch_up_start : Option ℕ → ℕ → ℕ
    catch_up_start none target = target
    catch_up_start (some last) target = truncate_hour last + 3600

    unfoldable pub catch_up : ℕ → Call ⊤
    catch_up now = do
      let target = truncate_hour now - 3600
      last ← accrual_watermark name
      let start = catch_up_start last target
      if ltb target start then pure tt else catch_up_from max_catch_up_hours start target
