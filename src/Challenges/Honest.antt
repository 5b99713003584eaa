-- ===== src/Challenges/Honest.antt =====
-- internal/healthmon/challenge.go with internal/agent/fragments.go: a node that keeps a fragment.
use distributed_storage_plat.Common.{
  ℕ, zero, suc, ◌+◌, ◌-◌, min, ◌≤◌, ◌<◌, ◌≡◌, refl, true, false, some, List, [], ◌∷◌, ◌++◌, take,
  drop, length, ◌==◌, ok, arith,
}
use distributed_storage_plat.Common.Int.{ℤ, pos}
use distributed_storage_plat.Common.Int64.{i64_lim}
use distributed_storage_plat.Agent.ChunkStore.{ChunkStore, FragMeta, row, read_range}
use distributed_storage_plat.Agent.Ranges.{is_served, read_range_exact}
use distributed_storage_plat.Challenges.Sets.{
  Challenge, or_default, range_limit, answer_challenge, length_at, offset_at, challenge_at,
  challenges_from, compute_challenge_set, default_set_size,
}
use mathlib.Core.List.{Memᴰ}
use native.Mathlib.Nat.{mod-lt}

fits-served :
    (off len n : ℕ) → 1 ≤ len → len ≤ 65536 → off + len ≤ n → is_served (pos off) (pos len) n ≡ true
unfolding is_served
fits-served off len n long short within = ground arith

range_limit-bounds : (max_range : ℤ) → (1 ≤ range_limit max_range) × (range_limit max_range ≤ 65536)
unfolding range_limit or_default
range_limit-bounds max_range = ground arith

module _ (hash : List ℕ → List ℕ) (length_draw offset_draw : ℕ → ℕ) (nonce_of : ℕ → List ℕ) where
  answer_of :
      (f : ℕ) (off len : ℤ) (nonce : List ℕ) (s : ChunkStore) {range : List ℕ}
      → read_range f off len s ≡ ok range
      → answer_challenge hash f off len nonce s ≡ ok (hash (nonce ++ range))
  unfolding answer_challenge
  answer_of f off len nonce s h = rw (answer_challenge, h) refl

  length_at-bounds :
      (limit size i : ℕ)
      → 1 ≤ limit
      → 1 ≤ size
      → (1 ≤ length_at hash length_draw offset_draw nonce_of limit size i)
        × (length_at hash length_draw offset_draw nonce_of limit size i ≤ min limit size)
  unfolding length_at
  length_at-bounds limit size i wide full =
      let below = mod-lt (length_draw i) {m = min limit size} (omega arith) in ground (arith, below)

  offset_at-within :
      (len size i : ℕ)
      → len ≤ size
      → offset_at hash length_draw offset_draw nonce_of len size i + len ≤ size
  unfolding offset_at
  offset_at-within len size i fits =
      let below = mod-lt (offset_draw i) {m = size - len + 1} (omega arith) in ground (arith, below)

  -- A store that has the fragment, which is not near 2 ^ 63 bytes.
  module _ (f : ℕ) (body : List ℕ) (meta : FragMeta) (s : ChunkStore)
      (found : s.index f ≡ some (row meta)) (file : s.files f ≡ some body)
      (size : meta.size ≡ pos (length body)) (small : length body + 65536 < i64_lim) where
    challenge_at-answered :
        (n limit i : ℕ)
        → 1 ≤ limit
        → limit ≤ 65536
        → 1 ≤ length body
        → (let c = challenge_at hash length_draw offset_draw nonce_of body f n limit i in
            answer_challenge hash f (pos c.offset) (pos c.range_length) c.nonce s ≡ ok c.expected)
    unfolding challenge_at
    challenge_at-answered n limit i wide capped full =
        let len = length_at hash length_draw offset_draw nonce_of limit (length body) i in
        let off = offset_at hash length_draw offset_draw nonce_of len (length body) i in
        let (long, short) = length_at-bounds limit (length body) i wide full in
        let within = offset_at-within len (length body) i (omega arith) in
        let fits : is_served (pos off) (pos len) (length body) ≡ true =
          fits-served off len (length body) (omega arith) (omega arith) (omega arith) in
        let served = read_range_exact f (pos off) (pos len) body meta s found file size small in
        let whole : read_range f (pos off) (pos len) s ≡ ok (take len (drop off body)) =
          rw (served, fits) refl in
        answer_of f (pos off) (pos len) (nonce_of i) s whole

    challenges_from-answered :
        (n limit i more : ℕ) (c : Challenge)
        → 1 ≤ limit
        → limit ≤ 65536
        → 1 ≤ length body
        → Memᴰ c (challenges_from hash length_draw offset_draw nonce_of body f n limit i more)
        → answer_challenge hash f (pos c.offset) (pos c.range_length) c.nonce s ≡ ok c.expected
    unfolding challenges_from
    challenges_from-answered n limit i zero c wide capped full m = elim m [ ]
    challenges_from-answered n limit i (suc more) c wide capped full (Memᴰ.head e) =
        rw (e) (challenge_at-answered n limit i wide capped full)
    challenges_from-answered n limit i (suc more) c wide capped full (Memᴰ.tail m) =
        challenges_from-answered n limit (i + 1) more c wide capped full m

-- A node that has a fragment in its file, with the size in its row and not near 2 ^ 63 bytes,
-- answers each challenge of a set that was computed from the fragment's bytes with the expected
-- hash, whatever the random values, the number and the longest range asked for.
pub compute_challenge_set-answered :
    (hash : List ℕ → List ℕ) (length_draw offset_draw : ℕ → ℕ) (nonce_of : ℕ → List ℕ) (f n : ℕ)
    (body : List ℕ) (count max_range : ℤ) (meta : FragMeta) (s : ChunkStore) {c : Challenge}
    → s.index f ≡ some (row meta)
    → s.files f ≡ some body
    → meta.size ≡ pos (length body)
    → length body + 65536 < i64_lim
    → Memᴰ c (compute_challenge_set hash length_draw offset_draw nonce_of body f n count max_range)
    → answer_challenge hash f (pos c.offset) (pos c.range_length) c.nonce s ≡ ok c.expected
unfolding compute_challenge_set
compute_challenge_set-answered hash length_draw offset_draw nonce_of f n [] count max_range meta s
      found file size small m =
    elim m [ ]
compute_challenge_set-answered hash length_draw offset_draw nonce_of f n (b ∷ bs) count max_range
      meta s {c} found file size small m =
    let limits = range_limit-bounds max_range in
    let full : (length (b ∷ bs) == 0) ≡ false = ground arith in
    challenges_from-answered hash length_draw offset_draw nonce_of f (b ∷ bs) meta s found file size
      small n (range_limit max_range) 0 (or_default default_set_size count) c limits.0 limits.1
      (omega arith) (rw (compute_challenge_set, full) at m)
