-- ===== src/Ledger/Charges.antt =====
-- Charges and earnings of internal/ledger/ledger.go: exact amounts, overflow and bounds.
use distributed_storage_plat.Common.{ℕ, ◌+◌, ◌*◌, ◌/◌, ◌-◌, ◌≤◌, ◌<◌, ◌≡◌, true, arith}
use distributed_storage_plat.Common.Int.{
  ℤ, pos, negsuc, pos_part, neg_part, ◌*ℤ◌, ◌-ℤ◌, ◌≤ℤ◌, ltb_ℤ,
}
use distributed_storage_plat.Common.Int64.{
  u64_mod, i64_lim, InRange, wrap64, wrap64_id, wrap64-InRange, mul64, quot64,
}
use distributed_storage_plat.Ledger.Amounts.{
  Rates, storage_charge, storage_earning, egress_charge, egress_earning, Floats, reliability_bp,
  clamp_bp,
}

pub wrap64_pos : (n : ℕ) → n < i64_lim → wrap64 (pos n) ≡ pos n
wrap64_pos n h = wrap64_id (pos n) (h, omega arith)

mul64_pos : (n m : ℕ) → n * m < i64_lim → mul64 (pos n) (pos m) ≡ pos (n * m)
unfolding ◌*ℤ◌
mul64_pos n m h = ground (arith, wrap64_pos (n * m) h)

-- In range, and not the least int64: such an amount can be negated.
abbrev pub IsSmall : ℤ → Type 0
IsSmall a = (pos_part a < i64_lim) × (neg_part a < i64_lim)

-- Dividing by `d ≥ 2` leaves the range of an int64 far behind.
pub quot64-IsSmall : (a : ℤ) (d : ℕ) → InRange a → 2 ≤ d → IsSmall (quot64 a d)
unfolding ◌-ℤ◌
quot64-IsSmall (pos n) d h k = grind arith
quot64-IsSmall (negsuc n) d h k = grind arith

-- Where the product fits an int64, the charge is floor(size * rate / (10 ^ 9 * 730)).
storage_charge_div :
    (n m : ℕ) (r : Rates)
    → r.customer_storage_per_gb_month ≡ pos m
    → n * m < i64_lim
    → storage_charge (pos n) r ≡ pos (n * m / 1000000000 / 730)
unfolding storage_charge
storage_charge_div n m r e h = rw e (ground (arith, mul64_pos n m h))

-- The hourly storage charge is exact: when the product of the bytes and the rate fits an int64, it
-- is the rate for that many GB over 730 hours, rounded down, although the code rounds twice.
pub storage_charge_exact :
    (n m : ℕ) (r : Rates)
    → r.customer_storage_per_gb_month ≡ pos m
    → n * m < i64_lim
    → (q : ℕ) × (storage_charge (pos n) r ≡ pos q)
      × (q * 730000000000 ≤ n * m)
      × (n * m < (q + 1) * 730000000000)
storage_charge_exact n m r e h =
    (n * m / 1000000000 / 730, storage_charge_div n m r e h, omega arith, omega arith)

mul64_over :
    (n : ℕ)
    → 3100000000000 ≤ n
    → n ≤ 6000000000000
    → mul64 (pos n) (pos 3000000) ≡ negsuc (u64_mod - 1 - n * 3000000)
unfolding ◌*ℤ◌ wrap64
mul64_over n lo hi = ground arith

-- At the default rate the product overflows: a customer with 3.1 to 6 TB gets a negative charge.
pub storage_charge_overflow :
    (n : ℕ) (r : Rates)
    → r.customer_storage_per_gb_month ≡ pos 3000000
    → 3100000000000 ≤ n
    → n ≤ 6000000000000
    → ltb_ℤ (storage_charge (pos n) r) (pos 0) ≡ true
unfolding storage_charge ◌-ℤ◌
storage_charge_overflow n r e lo hi = rw e (ground (arith, mul64_over n lo hi))

-- No amount that the accruer posts is the least int64, whatever overflows on the way.
pub storage_charge-IsSmall : (a : ℤ) (r : Rates) → IsSmall (storage_charge a r)
unfolding storage_charge
storage_charge-IsSmall a r =
    let p = mul64 a r.customer_storage_per_gb_month in
    let q = quot64-IsSmall p 1000000000 (wrap64-InRange _) (omega arith) in
    ground (arith, quot64-IsSmall (quot64 p 1000000000) 730 (q.0, omega (arith, q.1)))

pub egress_charge-IsSmall : (a : ℤ) (r : Rates) → IsSmall (egress_charge a r)
unfolding egress_charge
egress_charge-IsSmall a r =
    ground (arith, quot64-IsSmall (mul64 a r.customer_egress_per_gb) 1000000000 (wrap64-InRange _))

pub storage_earning-IsSmall : (a : ℤ) (r : Rates) (bp : ℤ) → IsSmall (storage_earning a r bp)
unfolding storage_earning
storage_earning-IsSmall a r bp =
    let base = quot64 (quot64 (mul64 a r.provider_storage_per_gb_month) 1000000000) 730 in
    ground (arith, quot64-IsSmall (mul64 base bp) 10000 (wrap64-InRange _))

pub egress_earning-IsSmall : (a : ℤ) (r : Rates) (bp : ℤ) → IsSmall (egress_earning a r bp)
unfolding egress_earning
egress_earning-IsSmall a r bp =
    let base = quot64 (mul64 a r.provider_egress_per_gb) 1000000000 in
    ground (arith, quot64-IsSmall (mul64 base bp) 10000 (wrap64-InRange _))

storage_earning_div :
    (h bp : ℕ) (r : Rates)
    → r.provider_storage_per_gb_month ≡ pos 1500000
    → 0 < h
    → h * 1500000 < i64_lim
    → bp ≤ 12000
    → storage_earning (pos h) r (pos bp) ≡ pos (h * 1500000 / 1000000000 / 730 * bp / 10000)
unfolding storage_earning
storage_earning_div h bp r e p k b =
    let base = h * 1500000 / 1000000000 / 730 in
    let small : base * bp ≤ base * 12000 = grind arith in
    rw e (ground (arith, mul64_pos h 1500000 k, mul64_pos base bp (omega arith)))

-- At the default rates, what one node earns for an hour of holding fragments, with a factor of at
-- most 12000 basis points, is at most what one customer is charged for data of which the fragments
-- are at most 16 bytes for each 10, when the charge does not overflow. It compares one posting of
-- each kind, not their sums over many customers, whose charges are rounded down one by one.
pub earning-le-charge :
    (held logical bp : ℕ) (r : Rates)
    → r.customer_storage_per_gb_month ≡ pos 3000000
    → r.provider_storage_per_gb_month ≡ pos 1500000
    → 0 < held
    → 10 * held ≤ 16 * logical
    → logical * 3000000 < i64_lim
    → bp ≤ 12000
    → storage_earning (pos held) r (pos bp) ≤ℤ storage_charge (pos logical) r
earning-le-charge held logical bp r ec ep p ratio fits b =
    let base = held * 1500000 / 1000000000 / 730 in
    let small : base * bp ≤ base * 12000 = grind arith in
    rw (storage_charge_div logical 3000000 r ec fits)
      (rw (storage_earning_div held bp r ep p (omega arith) b) (omega arith))

clamp_bp_bounds : (r : ℤ) → (pos 0 ≤ℤ clamp_bp r) × (clamp_bp r ≤ℤ pos 12000)
unfolding clamp_bp
clamp_bp_bounds r = ground arith

-- The reliability factor is between 0 and 12000 basis points, for any float arithmetic.
pub reliability_bp_bounds :
    (fl : Floats) (up audit rep : fl.Float)
    → (pos 0 ≤ℤ reliability_bp fl up audit rep) × (reliability_bp fl up audit rep ≤ℤ pos 12000)
unfolding reliability_bp
reliability_bp_bounds fl up audit rep = clamp_bp_bounds _
