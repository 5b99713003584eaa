-- ===== src/Ledger/Amounts.antt =====
-- internal/ledger/ledger.go: rates, charges and earnings in µCRD.
-- Environment variables and `strconv.ParseInt` are parameters; so are the floats of a node's
-- reliability, of which the code uses only comparisons and the conversion to basis points.
use distributed_storage_plat.Common.{ℕ, ◌*◌, Bool, false, Option, none, some, ◌==◌, if◌then◌else◌}
use distributed_storage_plat.Common.Int.{ℤ, pos, negsuc, ltb_ℤ, leb_ℤ}
use distributed_storage_plat.Common.Int64.{mul64, add64, quot64}
use Prim.Native.String.{String}
use text.Mathlib.Text.{◌==◌ as str_eq}

abbrev pub micro_per_crd : ℕ
micro_per_crd = 1000000

abbrev pub bytes_per_gb : ℕ
bytes_per_gb = 1000000000

abbrev pub hours_per_month : ℕ
hours_per_month = 730

pub record Rates : Type 0 where
  pub customer_storage_per_gb_month : ℤ
  pub provider_storage_per_gb_month : ℤ
  pub customer_egress_per_gb : ℤ
  pub provider_egress_per_gb : ℤ

-- `if v := os.Getenv(name); v != ""` with `n > 0`, or else the default.
unfoldable pub env_rate : (String → String) → (String → Option ℤ) → String → ℤ → ℤ
env_rate getenv parse_int name default =
    let v = getenv name in
    if str_eq v ""
    then default
    else elim (parse_int v) [ none ↦ default | some n ↦ if ltb_ℤ (pos 0) n then n else default ]

abbrev pub is_zero : ℤ → Bool
is_zero (pos n) = n == 0
is_zero (negsuc _) = false

unfoldable pub default_rates : (String → String) → (String → Option ℤ) → Rates
unfolding env_rate
default_rates getenv parse_int = record {
  customer_storage_per_gb_month =
      env_rate getenv parse_int "LEDGER_CUSTOMER_STORAGE_UCRD_GB_MONTH" (pos (3 * micro_per_crd));
  provider_storage_per_gb_month =
      env_rate getenv parse_int "LEDGER_PROVIDER_STORAGE_UCRD_GB_MONTH" (pos 1500000);
  customer_egress_per_gb =
      env_rate getenv parse_int "LEDGER_CUSTOMER_EGRESS_UCRD_GB" (pos (1 * micro_per_crd));
  provider_egress_per_gb = env_rate getenv parse_int "LEDGER_PROVIDER_EGRESS_UCRD_GB" (pos 500000);
}

-- `CustomerStoragePerGBMonth == 0` picks the defaults.
unfoldable pub rates : Rates → Rates → Rates
rates own defaults = if is_zero own.customer_storage_per_gb_month then defaults else own

unfoldable pub storage_charge : ℤ → Rates → ℤ
storage_charge size r =
    if leb_ℤ size (pos 0)
    then pos 0
    else quot64 (quot64 (mul64 size r.customer_storage_per_gb_month) bytes_per_gb) hours_per_month

unfoldable pub storage_earning : ℤ → Rates → ℤ → ℤ
storage_earning size r bp =
    if leb_ℤ size (pos 0)
    then pos 0
    else let base =
        quot64 (quot64 (mul64 size r.provider_storage_per_gb_month) bytes_per_gb) hours_per_month in
      quot64 (mul64 base bp) 10000

unfoldable pub egress_charge : ℤ → Rates → ℤ
egress_charge bytes r =
    if leb_ℤ bytes (pos 0)
    then pos 0
    else quot64 (mul64 bytes r.customer_egress_per_gb) bytes_per_gb

unfoldable pub egress_earning : ℤ → Rates → ℤ → ℤ
egress_earning bytes r bp =
    if leb_ℤ bytes (pos 0)
    then pos 0
    else let base = quot64 (mul64 bytes r.provider_egress_per_gb) bytes_per_gb in
      quot64 (mul64 base bp) 10000

-- The two tests at the end of `ReliabilityBP`.
unfoldable pub clamp_bp : ℤ → ℤ
clamp_bp r =
    let capped = if ltb_ℤ (pos 12000) r then pos 12000 else r in
    if ltb_ℤ capped (pos 0) then pos 0 else capped

-- `float32`: the comparisons with 0 and 1 of `clamp01`, and `int64(float64(v) * k)`.
pub record Floats : Type 1 where
  pub Float : Type 0
  pub zero_f : Float
  pub one_f : Float
  pub ltb_f : Float → Float → Bool
  pub scale : Float → ℕ → ℤ

module _ (fl : Floats) where
  open fl use {Float, zero_f, one_f, ltb_f, scale}

  unfoldable pub clamp01 : Float → Float
  clamp01 v = if ltb_f v zero_f then zero_f else if ltb_f one_f v then one_f else v

  unfoldable pub reputation_factor_bp : Float → ℤ
  unfolding clamp01
  reputation_factor_bp reputation = add64 (pos 8000) (scale (clamp01 reputation) 4000)

  unfoldable pub reliability_bp : Float → Float → Float → ℤ
  unfolding clamp01 reputation_factor_bp
  reliability_bp uptime audit reputation =
      let up = scale (clamp01 uptime) 10000 in
      let aud = scale (clamp01 audit) 10000 in
      let fac = reputation_factor_bp reputation in
      clamp_bp (quot64 (mul64 (quot64 (mul64 up aud) 10000) fac) 10000)
