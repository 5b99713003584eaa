-- ===== src/Health/Stale.antt =====
-- internal/healthmon/state.go: what a scan does to the rows.
use distributed_storage_plat.Common.{
  ℕ, ◌+◌, ◌*◌, ◌/◌, ◌≤◌, ◌≡◌, ◌≢◌, refl, ap, true, Bool-cases, inl, inr, Option, none, some, List,
  [], ◌∷◌, arith, ltb, map,
}
use distributed_storage_plat.Common.Int.{ℤ}
use distributed_storage_plat.Health.Rows.{
  Status, pending, online, suspect, offline, draining, quarantined, retired, same_status, NodeRow,
  touched, touch_row,
}
use distributed_storage_plat.Health.Monitor.{
  second, next_status, stale_status, stale_row, transition_stale_nodes,
}

-- The edges that a scan may take.
pub data Edge : Status → Status → Type 0 where
  stays : {s : Status} → Edge s s
  falls_silent : Edge online suspect
  goes_offline : Edge online offline
  stays_silent : Edge suspect offline

-- A scan takes a status along an edge: a node goes from online to suspect or offline, from
-- suspect to offline, or keeps its status, and nothing else.
pub stale_status-Edge :
    (now suspect_secs offline_secs : ℕ) (s : Status) (last : Option ℕ)
    → Edge s (stale_status now suspect_secs offline_secs s last)
unfolding stale_status
stale_status-Edge now a b s none = stays
stale_status-Edge now a b online (some last) = elim (Bool-cases (ltb (last + b * second) now)) [
  | inl far ↦ rw far goes_offline
  | inr near ↦ elim (Bool-cases (ltb (last + a * second) now)) [
    | inl silent ↦ rw (near, silent) falls_silent
    | inr fresh ↦ rw (near, fresh) stays
  ]
]
stale_status-Edge now a b suspect (some last) = elim (Bool-cases (ltb (last + b * second) now)) [
  | inl far ↦ rw far stays_silent
  | inr near ↦ rw near stays
]
stale_status-Edge now a b pending (some last) = stays
stale_status-Edge now a b offline (some last) = stays
stale_status-Edge now a b draining (some last) = stays
stale_status-Edge now a b quarantined (some last) = stays
stale_status-Edge now a b retired (some last) = stays

-- The statement and `NextStatus` agree on every status, when the thresholds are whole seconds and
-- the time since the last heartbeat is not exactly a threshold.
pub stale_status_eq-next_status :
    (now a b last : ℕ) (s : Status)
    → last + a * second ≢ now
    → last + b * second ≢ now
    → stale_status now a b s (some last) ≡ next_status s (some last) now (a * second) (b * second)
unfolding stale_status next_status
stale_status_eq-next_status now a b last online h k = ground arith
stale_status_eq-next_status now a b last suspect h k = ground arith
stale_status_eq-next_status now a b last pending h k = refl
stale_status_eq-next_status now a b last offline h k = refl
stale_status_eq-next_status now a b last draining h k = refl
stale_status_eq-next_status now a b last quarantined h k = refl
stale_status_eq-next_status now a b last retired h k = refl

-- A second scan at the same time finds nothing to change.
stale_status_idempotent :
    (now a b : ℕ) (s : Status) (last : Option ℕ)
    → stale_status now a b (stale_status now a b s last) last ≡ stale_status now a b s last
unfolding stale_status
stale_status_idempotent now a b s none = refl
stale_status_idempotent now a b online (some last) = ground arith
stale_status_idempotent now a b suspect (some last) = ground arith
stale_status_idempotent now a b pending (some last) = refl
stale_status_idempotent now a b offline (some last) = refl
stale_status_idempotent now a b draining (some last) = refl
stale_status_idempotent now a b quarantined (some last) = refl
stale_status_idempotent now a b retired (some last) = refl

fresh_status :
    (now t a b : ℕ) (s : Status)
    → now ≤ t + a * second
    → a ≤ b
    → stale_status now a b s (some t) ≡ s
unfolding stale_status
fresh_status now t a b online h k = ground arith
fresh_status now t a b suspect h k = ground arith
fresh_status now t a b pending h k = refl
fresh_status now t a b offline h k = refl
fresh_status now t a b draining h k = refl
fresh_status now t a b quarantined h k = refl
fresh_status now t a b retired h k = refl

same_status_refl : (s : Status) → same_status s s ≡ true
unfolding same_status
same_status_refl pending = refl
same_status_refl online = refl
same_status_refl suspect = refl
same_status_refl offline = refl
same_status_refl draining = refl
same_status_refl quarantined = refl
same_status_refl retired = refl

module _ {F : Type 0} where
  -- The rows after a scan, each on its own.
  transition-rows :
      (now a b : ℕ) (ns : List (NodeRow F))
      → (transition_stale_nodes now a b ns).1 ≡ map (stale_row now a b) ns
  unfolding transition_stale_nodes
  transition-rows now a b [] = refl
  transition-rows now a b (n ∷ ns) = ap (λ l. stale_row now a b n ∷ l) (transition-rows now a b ns)

  -- A scan right after a scan reports no change and leaves the rows as they are.
  pub transition_idempotent :
      (now a b : ℕ) (ns : List (NodeRow F))
      → transition_stale_nodes now a b (transition_stale_nodes now a b ns).1
        ≡ ([], (transition_stale_nodes now a b ns).1)
  unfolding transition_stale_nodes stale_row
  transition_idempotent now a b [] = refl
  transition_idempotent now a b (n ∷ ns) =
      let st : Status = stale_status now (a / second) (b / second) n.status n.last_seen_at in
      rw
        (
          stale_status_idempotent now (a / second) (b / second) n.status n.last_seen_at,
          same_status_refl st,
          transition_idempotent now a b ns,
        )
        refl

  -- A node that sent a heartbeat keeps its status in every scan within the suspect threshold,
  -- cut to whole seconds, when that is not above the offline threshold.
  pub touch-stale_row :
      (t now a b : ℕ) (used capacity : ℤ) (n : NodeRow F)
      → now ≤ t + a / second * second
      → a ≤ b
      → stale_row now a b (touch_row t used capacity n) ≡ touch_row t used capacity n
  unfolding stale_row touch_row stale_status touched
  touch-stale_row t now a b used capacity n h k =
      ap (λ (st : Status). record (touch_row t used capacity n) { status = st })
        (fresh_status now t (a / second) (b / second) (touched n.status) h (omega arith))
