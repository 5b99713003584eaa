-- ===== src/Challenges/Sets.antt =====
-- `ComputeChallengeSet` of internal/healthmon/challenge.go, and the answer of a node to a challenge
-- in internal/agent/fragments.go. `hash` is SHA-256; `length_draw`, `offset_draw` and `nonce_of` are
-- what crypto/rand gives for the i-th challenge.
use distributed_storage_plat.Common.{
  ℕ, zero, suc, ◌+◌, ◌-◌, ◌%◌, min, List, [], ◌∷◌, ◌++◌, take, drop, length, ltb, ◌==◌,
  if◌then◌else◌, Result, ok, err,
}
use distributed_storage_plat.Common.Int.{ℤ, pos, leb_ℤ, pos_part}
use distributed_storage_plat.Agent.ChunkStore.{ChunkStore, StoreError, read_range}

pub record Challenge : Type 0 where
  pub fragment_id : ℕ
  pub node_id : ℕ
  pub seq : ℕ
  pub offset : ℕ
  pub range_length : ℕ
  pub nonce : List ℕ
  pub expected : List ℕ

abbrev pub default_set_size : ℕ
default_set_size = 8

abbrev pub default_max_range : ℕ
default_max_range = 4096

abbrev pub max_range_cap : ℕ
max_range_cap = 65536

-- `if n <= 0 { n = defaultChallengeSetSize }`
unfoldable pub or_default : ℕ → ℤ → ℕ
or_default d v = if leb_ℤ v (pos 0) then d else pos_part v

unfoldable pub range_limit : ℤ → ℕ
range_limit max_range = min (or_default default_max_range max_range) max_range_cap

module _ (hash : List ℕ → List ℕ) where
  unfoldable pub answer_challenge : ℕ → ℤ → ℤ → List ℕ → ChunkStore → Result StoreError (List ℕ)
  answer_challenge i offset len nonce s = elim (read_range i offset len s) [
    | err e ↦ err e
    | ok rng ↦ ok (hash (nonce ++ rng))
  ]

  module _ (length_draw offset_draw : ℕ → ℕ) (nonce_of : ℕ → List ℕ) where
    -- A length of 1 to the limit and to the size.
    unfoldable pub length_at : ℕ → ℕ → ℕ → ℕ
    length_at limit size i =
        let longest = min limit size in
        if ltb 1 longest then 1 + length_draw i % longest else longest

    unfoldable pub offset_at : ℕ → ℕ → ℕ → ℕ
    offset_at len size i =
        let max_off = size - len in if ltb 0 max_off then offset_draw i % (max_off + 1) else 0

    unfoldable pub challenge_at : List ℕ → ℕ → ℕ → ℕ → ℕ → Challenge
    challenge_at body f n limit i =
        let len = length_at limit (length body) i in
        let off = offset_at len (length body) i in
        record {
          fragment_id = f;
          node_id = n;
          seq = i;
          offset = off;
          range_length = len;
          nonce = nonce_of i;
          expected = hash (nonce_of i ++ take len (drop off body));
        }

    unfoldable pub challenges_from : List ℕ → ℕ → ℕ → ℕ → ℕ → ℕ → List Challenge
    challenges_from body f n limit i zero = []
    challenges_from body f n limit i (suc more) =
        challenge_at body f n limit i ∷ challenges_from body f n limit (i + 1) more

    unfoldable pub compute_challenge_set : List ℕ → ℕ → ℕ → ℤ → ℤ → List Challenge
    compute_challenge_set body f n count max_range =
        if length body == 0
        then []
        else challenges_from body f n (range_limit max_range) 0 (or_default default_set_size count)
