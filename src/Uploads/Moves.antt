-- ===== src/Uploads/Moves.antt =====
-- internal/store: each statement of Uploads/Placements takes each copy along a move.
use distributed_storage_plat.Common.{
  ℕ, ◌≡◌, refl, Bool, true, false, ◌&&◌, not, none, some, List, [], ◌∷◌, ◌++◌, ◌==◌, Bool-cases,
  inl, inr, arith,
}
use distributed_storage_plat.Uploads.Rows.{
  PlacementStatus, Placement, Tables, pending, stored, lost, expiring, deleted, is_pending,
  is_stored, is_live, is_lost, is_expiring, is_held, where_rows, update_where, exists_row,
}
use distributed_storage_plat.Uploads.Placements.{
  at_key, insert_pending, confirmed, confirm_fragment, set_lost, lose_node, lose_fragment, mem_id,
  set_restored, restore_ids, set_expiring, expire_ids, expire_fragments, set_deleted, delete_id,
  drop_pending, touch_audit,
}
use distributed_storage_plat.Uploads.Lifecycle.{
  Move, stays, is_planned, is_dropped, is_confirmed, is_missed, goes_missing, comes_back,
  is_withdrawn, is_expired, is_surplus, is_reaped, status_at, PlacementOp, plan, confirm, lose_all,
  lose, restore, expire, expire_files, reap, drop_plan, audit, apply, UniqueKeys,
}

-- An UPDATE that leaves the keys alone and moves each row that it touches moves every copy.
update-Move :
    (q : Placement → Bool) (g : Placement → Placement) (f n : ℕ) (ps : List Placement)
    → ((p : Placement) → at_key f n (g p) ≡ at_key f n p)
    → ((p : Placement) → q p ≡ true → Move (some p.status) (some (g p).status))
    → Move (status_at f n ps) (status_at f n (update_where q g ps))
unfolding status_at update_where
update-Move q g f n [] k m = stays
update-Move q g f n (p ∷ ps) k m = elim (Bool-cases (q p)) [
  | inl hit ↦ elim (Bool-cases (at_key f n p)) [
    | inl here ↦ rw (hit, k p, here) (m p hit)
    | inr there ↦ rw (hit, k p, there) (update-Move q g f n ps k m)
  ]
  | inr miss ↦ elim (Bool-cases (at_key f n p)) [
    | inl here ↦ rw (miss, here) stays
    | inr there ↦ rw (miss, there) (update-Move q g f n ps k m)
  ]
]

pub and_right : (a b : Bool) → (a && b) ≡ true → b ≡ true
and_right true b h = h
and_right false b h = absurd (cc)

from_pending :
    (s s' : PlacementStatus)
    → Move (some pending) (some s')
    → is_pending s ≡ true
    → Move (some s) (some s')
unfolding is_pending
from_pending pending s' m h = m
from_pending stored s' m h = absurd (cc)
from_pending lost s' m h = absurd (cc)
from_pending expiring s' m h = absurd (cc)
from_pending deleted s' m h = absurd (cc)

live-Move : (s : PlacementStatus) → is_live s ≡ true → Move (some s) (some lost)
unfolding is_live is_pending is_stored
live-Move pending h = is_missed
live-Move stored h = goes_missing
live-Move lost h = stays
live-Move expiring h = absurd (cc)
live-Move deleted h = absurd (cc)

lost-Move :
    (s s' : PlacementStatus)
    → Move (some lost) (some s')
    → is_lost s ≡ true
    → Move (some s) (some s')
unfolding is_lost
lost-Move lost s' m h = m
lost-Move pending s' m h = absurd (cc)
lost-Move stored s' m h = absurd (cc)
lost-Move expiring s' m h = absurd (cc)
lost-Move deleted s' m h = absurd (cc)

held-Move : (s : PlacementStatus) → is_held s ≡ true → Move (some s) (some expiring)
unfolding is_held is_live is_pending is_stored is_lost
held-Move pending h = is_withdrawn
held-Move stored h = is_expired
held-Move lost h = is_surplus
held-Move expiring h = stays
held-Move deleted h = absurd (cc)

expiring-Move : (s : PlacementStatus) → is_expiring s ≡ true → Move (some s) (some deleted)
unfolding is_expiring
expiring-Move expiring h = is_reaped
expiring-Move pending h = absurd (cc)
expiring-Move stored h = absurd (cc)
expiring-Move lost h = absurd (cc)
expiring-Move deleted h = absurd (cc)

exists-tail :
    (q : Placement → Bool) (p : Placement) (ps : List Placement)
    → exists_row q (p ∷ ps) ≡ false
    → exists_row q ps ≡ false
unfolding exists_row
exists-tail q p ps h = elim (Bool-cases (q p)) [
  | inl hit ↦ (let k = rw hit at h in absurd (cc))
  | inr miss ↦ rw miss at h
]

-- A copy that no row stands for has no status.
absent-none :
    (f n : ℕ) (ps : List Placement) → exists_row (at_key f n) ps ≡ false → status_at f n ps ≡ none
unfolding status_at exists_row
absent-none f n [] h = refl
absent-none f n (p ∷ ps) h = elim (Bool-cases (at_key f n p)) [
  | inl here ↦ (let k = rw here at h in absurd (cc))
  | inr there ↦ rw there (absent-none f n ps (rw there at h))
]

-- A new row gives a status to its own copy, when that had none, and to no other.
append-Move :
    (f n : ℕ) (r : Placement) (ps : List Placement)
    → r.status ≡ pending
    → exists_row (at_key r.fragment_id r.node_id) ps ≡ false
    → Move (status_at f n ps) (status_at f n (ps ++ r ∷ []))
unfolding status_at exists_row
append-Move f n r [] e h = elim (Bool-cases (at_key f n r)) [
  | inl here ↦ rw (here, e) is_planned
  | inr there ↦ rw there stays
]
append-Move f n r (p ∷ ps) e h = elim (Bool-cases (at_key f n p)) [
  | inl here ↦ rw here stays
  | inr there ↦
      rw there (append-Move f n r ps e (exists-tail (at_key r.fragment_id r.node_id) p ps h))
]

plan-Move :
    (g m f n : ℕ) (t : Tables)
    → Move (status_at f n t.placements) (status_at f n (insert_pending g m t).placements)
unfolding insert_pending
plan-Move g m f n t = elim (Bool-cases (exists_row (at_key g m) t.placements)) [
  | inl taken ↦ rw taken stays
  | inr free ↦ rw free (append-Move f n _ t.placements refl free)
]

pub at_key-eq :
    (f n : ℕ) (p : Placement) → at_key f n p ≡ true → (p.fragment_id ≡ f) × (p.node_id ≡ n)
unfolding at_key
at_key-eq f n p h = (ground arith, ground arith)

pub where-exists :
    (q r : Placement → Bool) (ps : List Placement)
    → exists_row q ps ≡ false
    → exists_row q (where_rows r ps) ≡ false
unfolding exists_row where_rows
where-exists q r [] h = refl
where-exists q r (p ∷ ps) h = elim (Bool-cases (q p)) [
  | inl hit ↦ (let k = rw hit at h in absurd (cc))
  | inr miss ↦
      let rest = where-exists q r ps (rw miss at h) in
      elim (Bool-cases (r p)) [ inl kept ↦ rw (kept, miss) rest | inr gone ↦ rw gone rest ]
]

pending-dropped : (s : PlacementStatus) → is_pending s ≡ true → Move (some s) none
unfolding is_pending
pending-dropped pending h = is_dropped
pending-dropped stored h = absurd (cc)
pending-dropped lost h = absurd (cc)
pending-dropped expiring h = absurd (cc)
pending-dropped deleted h = absurd (cc)

-- A DELETE of pending rows drops a copy or leaves it, since no second row stands for it.
drop-Move :
    (mine : ℕ → Bool) (f n : ℕ) (ps : List Placement)
    → UniqueKeys ps
    → Move (status_at f n ps) (
        status_at f n
          (where_rows (λ (p : Placement). not (mine p.fragment_id && is_pending p.status)) ps))
unfolding status_at where_rows UniqueKeys
drop-Move mine f n [] u = stays
drop-Move mine f n (p ∷ ps) u = elim (Bool-cases (mine p.fragment_id && is_pending p.status)) [
  | inl gone ↦ elim (Bool-cases (at_key f n p)) [
    | inl here ↦
        let (f≡, n≡) = at_key-eq f n p here in
        let none_left =
          where-exists (at_key f n)
            (λ (r : Placement). not (mine r.fragment_id && is_pending r.status)) ps
            (rw (f≡, n≡) at u.0) in
        rw (gone, here, absent-none f n _ none_left)
          (pending-dropped p.status (and_right (mine p.fragment_id) _ gone))
    | inr there ↦ rw (gone, there) (drop-Move mine f n ps u.1)
  ]
  | inr kept ↦ elim (Bool-cases (at_key f n p)) [
    | inl here ↦ rw (kept, here) stays
    | inr there ↦ rw (kept, there) (drop-Move mine f n ps u.1)
  ]
]

confirm-Move :
    (g : ℕ) (f n : ℕ) (t : Tables)
    → Move (status_at f n t.placements) (status_at f n (confirm_fragment g t).placements)
unfolding confirm_fragment confirmed at_key
confirm-Move g f n t =
    update-Move (λ (p : Placement). p.fragment_id == g && is_pending p.status) (confirmed t.now) f n
      t.placements (λ p. refl)
      (λ p h. from_pending p.status stored is_confirmed (and_right (p.fragment_id == g) _ h))

lose_all-Move :
    (m : ℕ) (f n : ℕ) (t : Tables)
    → Move (status_at f n t.placements) (status_at f n (lose_node m t).placements)
unfolding lose_node set_lost at_key
lose_all-Move m f n t =
    update-Move (λ (p : Placement). p.node_id == m && is_live p.status) (set_lost t.now) f n
      t.placements (λ p. refl) (λ p h. live-Move p.status (and_right (p.node_id == m) _ h))

lose-Move :
    (g m : ℕ) (f n : ℕ) (t : Tables)
    → Move (status_at f n t.placements) (status_at f n (lose_fragment g m t).placements)
unfolding lose_fragment set_lost at_key
lose-Move g m f n t =
    update-Move (λ (p : Placement). at_key g m p && is_live p.status) (set_lost t.now) f n
      t.placements (λ p. refl) (λ p h. live-Move p.status (and_right (at_key g m p) _ h))

restore-Move :
    (ids : List ℕ) (f n : ℕ) (t : Tables)
    → Move (status_at f n t.placements) (status_at f n (restore_ids ids t).placements)
unfolding restore_ids set_restored at_key
restore-Move ids f n t =
    update-Move (λ (p : Placement). mem_id p.id ids && is_lost p.status) (set_restored t.now) f n
      t.placements (λ p. refl)
      (λ p h. lost-Move p.status stored comes_back (and_right (mem_id p.id ids) _ h))

expire-Move :
    (ids : List ℕ) (f n : ℕ) (t : Tables)
    → Move (status_at f n t.placements) (status_at f n (expire_ids ids t).placements)
unfolding expire_ids set_expiring at_key
expire-Move ids f n t =
    update-Move (λ (p : Placement). mem_id p.id ids && is_lost p.status) set_expiring f n
      t.placements (λ p. refl)
      (λ p h. lost-Move p.status expiring is_surplus (and_right (mem_id p.id ids) _ h))

expire_files-Move :
    (mine : ℕ → Bool) (f n : ℕ) (t : Tables)
    → Move (status_at f n t.placements) (status_at f n (expire_fragments mine t).placements)
unfolding expire_fragments set_expiring at_key
expire_files-Move mine f n t =
    update-Move (λ (p : Placement). mine p.fragment_id && is_held p.status) set_expiring f n
      t.placements (λ p. refl) (λ p h. held-Move p.status (and_right (mine p.fragment_id) _ h))

reap-Move :
    (i : ℕ) (f n : ℕ) (t : Tables)
    → Move (status_at f n t.placements) (status_at f n (delete_id i t).placements)
unfolding delete_id set_deleted at_key
reap-Move i f n t =
    update-Move (λ (p : Placement). p.id == i && is_expiring p.status) set_deleted f n t.placements
      (λ p. refl) (λ p h. expiring-Move p.status (and_right (p.id == i) _ h))

audit-Move :
    (g m : ℕ) (f n : ℕ) (t : Tables)
    → Move (status_at f n t.placements) (status_at f n (touch_audit g m t).placements)
unfolding touch_audit at_key
audit-Move g m f n t =
    update-Move (at_key g m) (λ (p : Placement). record p { last_audit_at = some t.now }) f n
      t.placements (λ p. refl) (λ p h. stays)

drop_pending-Move :
    (mine : ℕ → Bool) (f n : ℕ) (t : Tables)
    → UniqueKeys t.placements
    → Move (status_at f n t.placements) (status_at f n (drop_pending mine t).placements)
unfolding drop_pending
drop_pending-Move mine f n t u = drop-Move mine f n t.placements u

-- Every statement takes every copy along an allowed move, or leaves it where it is.
pub apply-Move :
    (o : PlacementOp) (f n : ℕ) (t : Tables)
    → UniqueKeys t.placements
    → Move (status_at f n t.placements) (status_at f n (apply o t).placements)
unfolding apply
apply-Move (plan g m) f n t u = plan-Move g m f n t
apply-Move (confirm g) f n t u = confirm-Move g f n t
apply-Move (lose_all m) f n t u = lose_all-Move m f n t
apply-Move (lose g m) f n t u = lose-Move g m f n t
apply-Move (restore ids) f n t u = restore-Move ids f n t
apply-Move (expire ids) f n t u = expire-Move ids f n t
apply-Move (expire_files mine) f n t u = expire_files-Move mine f n t
apply-Move (reap i) f n t u = reap-Move i f n t
apply-Move (drop_plan mine) f n t u = drop_pending-Move mine f n t u
apply-Move (audit g m) f n t u = audit-Move g m f n t
