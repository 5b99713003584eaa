-- ===== src/Scheduler/Caps.antt =====
-- The hard caps of internal/scheduler/scheduler.go hold of every chunk after a placement.
use distributed_storage_plat.Common.{
  ℕ, ◌+◌, ◌≤◌, ◌≡◌, refl, Bool, true, false, Option, none, some, List, [], ◌∷◌, ◌++◌, arith, ◌==◌,
  if◌then◌else◌,
}
use distributed_storage_plat.Scheduler.Nodes.{Node, ChunkUse, new_chunk_use, add, eligible}

abbrev pub key_is : Option ℕ → ℕ → Bool
key_is none j = false
key_is (some k) j = j == k

module _ {F : Type 0} where
  -- How many of the nodes have the key `j`.
  unfoldable pub count : (Node F → Option ℕ) → ℕ → List (Node F) → ℕ
  count f j [] = 0
  count f j (n ∷ ns) = (if key_is (f n) j then 1 else 0) + count f j ns

  abbrev pub by_id : Node F → Option ℕ
  by_id n = some n.id

  abbrev pub by_owner : Node F → Option ℕ
  by_owner n = some n.owner_id

  abbrev pub by_region : Node F → Option ℕ
  by_region n = n.region

  abbrev pub by_asn : Node F → Option ℕ
  by_asn n = n.asn

  -- The hard caps, of the nodes that hold fragments of one chunk: no node twice, at most three in
  -- one region and in one network, at most two of one owner.
  pub record Caps (hs : List (Node F)) : Type 0 where
    pub ids : (i : ℕ) → count by_id i hs ≤ 1
    pub regions : (r : ℕ) → count by_region r hs ≤ 3
    pub asns : (a : ℕ) → count by_asn a hs ≤ 3
    pub owners : (o : ℕ) → count by_owner o hs ≤ 2

  -- The maps of a chunk hold the counts of its nodes.
  pub record Tally (u : ChunkUse) (hs : List (Node F)) : Type 0 where
    pub ids : (i : ℕ) → u.nodes i ≡ false → count by_id i hs ≡ 0
    pub regions : (r : ℕ) → u.regions r ≡ count by_region r hs
    pub asns : (a : ℕ) → u.asns a ≡ count by_asn a hs
    pub owners : (o : ℕ) → u.owners o ≡ count by_owner o hs

  count-snoc :
      (f : Node F → Option ℕ) (j : ℕ) (hs : List (Node F)) (n : Node F)
      → count f j (hs ++ n ∷ []) ≡ count f j hs + (if key_is (f n) j then 1 else 0)
  unfolding count
  count-snoc f j [] n = omega arith
  count-snoc f j (h ∷ hs) n = omega (arith, count-snoc f j hs n)

  pub Tally-add :
      (u : ChunkUse) (hs : List (Node F)) (n : Node F) → Tally u hs → Tally (add u n) (hs ++ n ∷ [])
  unfolding add
  Tally-add u hs n t = record {
    ids = λ i h. ground (arith, count-snoc by_id i hs n, t.ids i);
    regions = λ r. ground (arith, count-snoc by_region r hs n, t.regions r);
    asns = λ a. ground (arith, count-snoc by_asn a hs n, t.asns a);
    owners = λ o. ground (arith, count-snoc by_owner o hs n, t.owners o);
  }

  pub Caps-add :
      (now : ℕ) (u : ChunkUse) (hs : List (Node F)) (n : Node F)
      → Tally u hs
      → Caps hs
      → eligible now n u ≡ true
      → Caps (hs ++ n ∷ [])
  unfolding eligible
  Caps-add now u hs n t c e = record {
    ids = λ i. ground (arith, count-snoc by_id i hs n, t.ids i, c.ids i);
    regions = λ r. ground (arith, count-snoc by_region r hs n, t.regions r, c.regions r);
    asns = λ a. ground (arith, count-snoc by_asn a hs n, t.asns a, c.asns a);
    owners = λ o. ground (arith, count-snoc by_owner o hs n, t.owners o, c.owners o);
  }

  pub Tally-new : Tally new_chunk_use []
  unfolding new_chunk_use count
  Tally-new = record {
    ids = λ i h. refl;
    regions = λ r. refl;
    asns = λ a. refl;
    owners = λ o. refl;
  }
