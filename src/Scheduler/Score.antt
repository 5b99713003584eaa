-- ===== src/Scheduler/Score.antt =====
-- internal/scheduler/score.go: the weight of a node. float64 arithmetic is a parameter: its
-- operations, its comparisons, decimal constants, and conversions of integers and of float32.
use distributed_storage_plat.Common.{ℕ, Bool, if◌then◌else◌}
use distributed_storage_plat.Common.Int.{ℤ, pos, ltb_ℤ}
use distributed_storage_plat.Common.Int64.{sub64}
use distributed_storage_plat.Scheduler.Nodes.{Node}

pub record FloatOps : Type 1 where
  pub F : Type 0
  -- `ratio a b` is the constant a / b.
  pub ratio : ℕ → ℕ → F
  pub of_int : ℤ → F
  pub add_f : F → F → F
  pub sub_f : F → F → F
  pub mul_f : F → F → F
  pub div_f : F → F → F
  pub ltb_f : F → F → Bool
  pub leb_f : F → F → Bool
  pub eq_f : F → F → Bool

module _ (ops : FloatOps) where
  open ops use {F, ratio, of_int, add_f, sub_f, mul_f, div_f, ltb_f, leb_f}

  abbrev zero_f : F
  zero_f = ratio 0 1

  abbrev one_f : F
  one_f = ratio 1 1

  -- `if v < 0 { v = 0 }; if v > 1 { v = 1 }`
  unfoldable pub clamp : F → F
  clamp v = let w = if ltb_f v zero_f then zero_f else v in if ltb_f one_f w then one_f else w

  unfoldable pub latency_factor : F → F
  latency_factor ms =
      if leb_f ms zero_f then one_f else div_f one_f (add_f one_f (div_f ms (ratio 50 1)))

  capacity_share : Node F → F
  capacity_share n =
      if ltb_ℤ (pos 0) n.capacity_bytes
      then clamp (div_f (of_int (sub64 n.capacity_bytes n.used_bytes)) (of_int n.capacity_bytes))
      else zero_f

  -- An unknown uptime counts as one half.
  uptime_share : F → F
  uptime_share u =
      let up = if leb_f u zero_f then ratio 1 2 else u in if ltb_f one_f up then one_f else up

  unfoldable pub min_score : F
  min_score = ratio 1 1000000

  unfoldable pub node_score : Node F → F
  unfolding capacity_share uptime_share clamp min_score
  node_score n =
      let cap = capacity_share n in
      let up = uptime_share n.uptime_ratio in
      let rep = clamp n.reputation in
      let lat = latency_factor n.latency_ms in
      let pressure =
        clamp (add_f (mul_f n.cpu_load (ratio 1 2)) (mul_f n.mem_used_ratio (ratio 1 2))) in
      let good =
        add_f
          (add_f
            (add_f (add_f (mul_f (ratio 20 100) cap) (mul_f (ratio 30 100) up))
              (mul_f (ratio 30 100) rep))
            (mul_f (ratio 10 100) lat))
          (mul_f (ratio 10 100) one_f) in
      let s = sub_f good pressure in if ltb_f s min_score then min_score else s
