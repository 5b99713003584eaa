-- ===== src/Uploads/Final.antt =====
-- internal/store: what no sequence of statements on placements can undo.
use distributed_storage_plat.Common.{ℕ, Option, none, some, List, [], ◌∷◌}
use distributed_storage_plat.Uploads.Rows.{
  PlacementStatus, Tables, pending, stored, lost, expiring, deleted,
}
use distributed_storage_plat.Uploads.Lifecycle.{
  Move, stays, is_planned, is_dropped, is_confirmed, is_missed, goes_missing, comes_back,
  is_withdrawn, is_expired, is_surplus, is_reaped, status_at, PlacementOp, apply, run, UniqueKeys,
}
use distributed_storage_plat.Uploads.Moves.{apply-Move}
use distributed_storage_plat.Uploads.Keys.{apply-UniqueKeys}

-- A sequence of moves.
pub data Moves : Option PlacementStatus → Option PlacementStatus → Type 0 where
  none_left : {s : Option PlacementStatus} → Moves s s
  then_moves : {a b c : Option PlacementStatus} → Move a b → Moves b c → Moves a c

-- Any sequence of statements takes the copy of any fragment on any node from its status to
-- another by allowed moves only, when the unique constraint held at first: the table refines the
-- state machine of one copy.
pub run-Moves :
    (os : List PlacementOp) (f n : ℕ) (t : Tables)
    → UniqueKeys t.placements
    → Moves (status_at f n t.placements) (status_at f n (run os t).placements)
unfolding run
run-Moves [] f n t u = none_left
run-Moves (o ∷ os) f n t u =
    then_moves (apply-Move o f n t u) (run-Moves os f n (apply o t) (apply-UniqueKeys o t u))

-- The statuses of a copy that is to be removed from its node, or is removed.
unfoldable pub Leaving : Option PlacementStatus → Type 0
Leaving none = ⊥
Leaving (some pending) = ⊥
Leaving (some stored) = ⊥
Leaving (some lost) = ⊥
Leaving (some expiring) = Unit
Leaving (some deleted) = Unit

Move-Leaving : {a b : Option PlacementStatus} → Move a b → Leaving a → Leaving b
unfolding Leaving
Move-Leaving stays h = h
Move-Leaving is_planned h = absurd h
Move-Leaving is_dropped h = absurd h
Move-Leaving is_confirmed h = absurd h
Move-Leaving is_missed h = absurd h
Move-Leaving goes_missing h = absurd h
Move-Leaving comes_back h = absurd h
Move-Leaving is_withdrawn h = absurd h
Move-Leaving is_expired h = absurd h
Move-Leaving is_surplus h = absurd h
Move-Leaving is_reaped h = tt

Moves-Leaving : {a b : Option PlacementStatus} → Moves a b → Leaving a → Leaving b
Moves-Leaving none_left h = h
Moves-Leaving (then_moves m ms) h = Moves-Leaving ms (Move-Leaving m h)

-- A copy that is expiring or deleted stays expiring or deleted under any sequence of statements:
-- it is never stored or planned again.
pub run-Leaving :
    (os : List PlacementOp) (f n : ℕ) (t : Tables)
    → UniqueKeys t.placements
    → Leaving (status_at f n t.placements)
    → Leaving (status_at f n (run os t).placements)
run-Leaving os f n t u h = Moves-Leaving (run-Moves os f n t u) h
