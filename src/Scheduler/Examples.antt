-- ===== src/Scheduler/Examples.antt =====
-- Tests of placement on three nodes.
use distributed_storage_plat.Common.{
  ℕ, ◌+◌, ◌-◌, ◌*◌, ◌/◌, ◌≡◌, refl, true, false, none, some, List, [], ◌∷◌, ◌++◌, arith, ltb, leb,
  ◌==◌, All, length, Result, ok, err,
}
use distributed_storage_plat.Common.Int.{pos, pos_part, ◌-ℤ◌}
use distributed_storage_plat.Common.Int64.{wrap64}
use distributed_storage_plat.Scheduler.Nodes.{
  Node, ChunkUse, new_chunk_use, add, eligible, in_probation,
}
use distributed_storage_plat.Scheduler.Score.{FloatOps, clamp, latency_factor, node_score}
use distributed_storage_plat.Scheduler.Pick.{candidates, sum_weights, walk, sample, pick, pick-none}
use distributed_storage_plat.Scheduler.Place.{
  Need, Reservation, PlaceError, Assignment, Occupant, Answers, mem_id, chunk_ids, chunk_ids_from,
  live_nodes, enrich, bump_live, occupy, assign, reservation, place_needs, occupants_of, start,
  start_with, prepare, run, place,
}
use distributed_storage_plat.Scheduler.Caps.{Caps, count}
use distributed_storage_plat.Scheduler.Spread.{occupant_nodes, assigned, place-Caps}

-- Thousandths in place of `float64`.
abbrev thousandths : FloatOps
thousandths = record {
  F = ℕ;
  ratio = λ a b. a * 1000 / b;
  of_int = λ a. pos_part a * 1000;
  add_f = λ a b. a + b;
  sub_f = λ a b. a - b;
  mul_f = λ a b. a * b / 1000;
  div_f = λ a b. a * 1000 / b;
  ltb_f = ltb;
  leb_f = leb;
  eq_f = λ a b. a == b;
}

abbrev node : ℕ → ℕ → ℕ → Node ℕ
node i owner region = record {
  id = i;
  owner_id = owner;
  region = some region;
  asn = some 64500;
  capacity_bytes = pos 1000;
  used_bytes = pos 100;
  probation_until = none;
  reputation = 500;
  uptime_ratio = 900;
  latency_ms = 20000;
  cpu_load = 100;
  mem_used_ratio = 200;
  live_placements = 0;
}

abbrev need : ℕ → Need
need i = record { fragment_id = i; chunk_id = 1; size_bytes = pos 10 }

abbrev occupant : Occupant ℕ
occupant = record { chunk_id = 1; node = node 3 8 1 }

abbrev answers : Answers ℕ
answers = record {
  online = ok (node 1 7 1 ∷ node 2 7 2 ∷ node 3 8 1 ∷ []);
  exists = λ _. ok true;
  stats = ok (λ _. none);
  counts = ok (λ _. 0);
  metrics = λ _. none;
  occupants = λ _. ok (occupant ∷ []);
  reserve = λ _. true;
  draw = λ _. some 9007199254740991;
}

abbrev out_of : Result PlaceError (List (Assignment ℕ)) → List (Assignment ℕ)
out_of (ok out) = out
out_of (err e) = []

abbrev placed : Result PlaceError (List (Assignment ℕ)) × List Reservation
placed = place thousandths 0 (need 11 ∷ need 12 ∷ []) answers

occupant-Caps : (c : ℕ) → Caps (occupant_nodes c (occupant ∷ []))
unfolding occupant_nodes count
occupant-Caps c = record {
  ids = λ i. ground arith;
  regions = λ r. ground arith;
  asns = λ a. ground arith;
  owners = λ o. ground arith;
}

place-ok : placed ≡ (ok (out_of placed.0), placed.1)
unfolding place run prepare start start_with occupants_of place_needs pick candidates sum_weights
    walk sample eligible in_probation new_chunk_use add node_score clamp latency_factor mem_id
    chunk_ids chunk_ids_from live_nodes enrich bump_live occupy assign reservation wrap64 ◌-ℤ◌
place-ok = refl

-- Both fragments found a node.
two_placed : length (out_of placed.0) ≡ 2
unfolding place run prepare start start_with occupants_of place_needs pick candidates sum_weights
    walk sample eligible in_probation new_chunk_use add node_score clamp latency_factor mem_id
    chunk_ids chunk_ids_from live_nodes enrich bump_live occupy assign reservation wrap64 ◌-ℤ◌
two_placed = refl

abbrev taken : ChunkUse
taken = add new_chunk_use (node 3 8 1)

nobody : pick thousandths 0 (some 5) (node 3 8 1 ∷ []) taken ≡ none
unfolding pick candidates eligible add new_chunk_use
nobody = refl

pick-none_example : All (λ (n : Node ℕ). eligible 0 n taken ≡ false) (node 3 8 1 ∷ [])
pick-none_example = pick-none thousandths 0 5 (node 3 8 1 ∷ []) taken nobody

place-Caps_example :
    Caps (occupant_nodes 1 (occupant ∷ []) ++ assigned (λ _. 1) 1 (out_of placed.0))
place-Caps_example =
    place-Caps thousandths 0 (λ _. 1) (need 11) (need 12 ∷ []) answers (occupant ∷ [])
      (out_of placed.0) placed.1 (refl, (refl, tt)) refl occupant-Caps place-ok 1
