-- ===== src/Scheduler/Nodes.antt =====
-- internal/scheduler/scheduler.go: the nodes of one chunk and who may join them.
-- Ids, regions and network numbers are numbers, since they are only compared; a region of `none`
-- is the empty string. A Go map with counts is a function, 0 where there is no key.
use distributed_storage_plat.Common.{
  ℕ, suc, Bool, true, false, ◌&&◌, ◌||◌, Option, none, some, ltb, leb, ◌==◌, if◌then◌else◌,
}
use distributed_storage_plat.Common.Int.{ℤ, pos, leb_ℤ}
use distributed_storage_plat.Common.Int64.{sub64}

abbrev pub region_cap : ℕ
region_cap = 3

abbrev pub asn_cap : ℕ
asn_cap = 3

abbrev pub owner_cap : ℕ
owner_cap = 2

abbrev pub probation_quota : ℕ
probation_quota = 2

-- The fields of store.Node that placement reads; `F` is float32.
pub record Node (F : Type 0) : Type 0 where
  pub id : ℕ
  pub owner_id : ℕ
  pub region : Option ℕ
  pub asn : Option ℕ
  pub capacity_bytes : ℤ
  pub used_bytes : ℤ
  pub probation_until : Option ℕ
  pub reputation : F
  pub uptime_ratio : F
  pub latency_ms : F
  pub cpu_load : F
  pub mem_used_ratio : F
  pub live_placements : ℕ

pub record ChunkUse : Type 0 where
  pub nodes : ℕ → Bool
  pub regions : ℕ → ℕ
  pub asns : ℕ → ℕ
  pub owners : ℕ → ℕ

unfoldable pub new_chunk_use : ChunkUse
new_chunk_use = record { nodes = λ _. false; regions = λ _. 0; asns = λ _. 0; owners = λ _. 0 }

-- `m[k]++`
abbrev pub bump : (ℕ → ℕ) → ℕ → ℕ → ℕ
bump m k j = if j == k then suc (m j) else m j

-- The same for a key that may be missing.
abbrev pub bump_opt : (ℕ → ℕ) → Option ℕ → ℕ → ℕ
bump_opt m none j = m j
bump_opt m (some k) j = bump m k j

-- A count at its cap, for a key that may be missing.
abbrev pub at_cap : (ℕ → ℕ) → ℕ → Option ℕ → Bool
at_cap m most none = false
at_cap m most (some k) = leb most (m k)

module _ {F : Type 0} where
  unfoldable pub add : ChunkUse → Node F → ChunkUse
  add u n = record {
    nodes = λ i. i == n.id || u.nodes i;
    regions = bump_opt u.regions n.region;
    asns = bump_opt u.asns n.asn;
    owners = bump u.owners n.owner_id;
  }

  unfoldable pub in_probation : ℕ → Node F → Bool
  in_probation now n = elim n.probation_until [ none ↦ false | some until ↦ ltb now until ]

  unfoldable pub eligible : ℕ → Node F → ChunkUse → Bool
  unfolding in_probation
  eligible now n u =
      if u.nodes n.id
      then false
      else if at_cap u.regions region_cap n.region
      then false
      else if at_cap u.asns asn_cap n.asn
      then false
      else if leb owner_cap (u.owners n.owner_id)
      then false
      else if leb_ℤ (sub64 n.capacity_bytes n.used_bytes) (pos 0)
      then false
      else if in_probation now n && leb probation_quota n.live_placements
      then false
      else true
