-- ===== src/Uploads/Keys.antt =====
-- internal/store: the unique constraint of `fragment_placements` holds after every statement.
use distributed_storage_plat.Common.{
  ℕ, ◌≡◌, refl, ◌∙◌, Bool, false, List, [], ◌∷◌, ◌++◌, Bool-cases, inl, inr, arith, some,
}
use distributed_storage_plat.Uploads.Rows.{Placement, Tables, where_rows, update_where, exists_row}
use distributed_storage_plat.Uploads.Placements.{
  at_key, insert_pending, confirmed, confirm_fragment, set_lost, lose_node, lose_fragment,
  set_restored, restore_ids, set_expiring, expire_ids, expire_fragments, set_deleted, delete_id,
  drop_pending, touch_audit,
}
use distributed_storage_plat.Uploads.Lifecycle.{
  PlacementOp, plan, confirm, lose_all, lose, restore, expire, expire_files, reap, drop_plan, audit,
  apply, UniqueKeys,
}
use distributed_storage_plat.Uploads.Moves.{where-exists}

-- An UPDATE that leaves the keys alone.
module _ (q : Placement → Bool) (g : Placement → Placement)
    (k : (f n : ℕ) (p : Placement) → at_key f n (g p) ≡ at_key f n p) where
  exists-update :
      (f n : ℕ) (ps : List Placement)
      → exists_row (at_key f n) (update_where q g ps) ≡ exists_row (at_key f n) ps
  unfolding exists_row update_where
  exists-update f n [] = refl
  exists-update f n (p ∷ ps) = elim (Bool-cases (q p)) [
    | inl hit ↦ rw (hit, k f n p, exists-update f n ps) refl
    | inr miss ↦ rw (miss, exists-update f n ps) refl
  ]

module _ (q : Placement → Bool) (g : Placement → Placement)
    (same_fragment : (p : Placement) → (g p).fragment_id ≡ p.fragment_id)
    (same_node : (p : Placement) → (g p).node_id ≡ p.node_id) where
  at_key-update : (f n : ℕ) (p : Placement) → at_key f n (g p) ≡ at_key f n p
  unfolding at_key
  at_key-update f n p = rw (same_fragment p, same_node p) refl

  update-UniqueKeys : (ps : List Placement) → UniqueKeys ps → UniqueKeys (update_where q g ps)
  unfolding UniqueKeys update_where
  update-UniqueKeys [] u = tt
  update-UniqueKeys (p ∷ ps) u =
      let free = exists-update q g at_key-update p.fragment_id p.node_id ps ∙ u.0 in
      elim (Bool-cases (q p)) [
        | inl hit ↦ rw hit (rw (same_fragment p, same_node p) free, update-UniqueKeys ps u.1)
        | inr miss ↦ rw miss (free, update-UniqueKeys ps u.1)
      ]

where-UniqueKeys :
    (r : Placement → Bool) (ps : List Placement) → UniqueKeys ps → UniqueKeys (where_rows r ps)
unfolding UniqueKeys where_rows
where-UniqueKeys r [] u = tt
where-UniqueKeys r (p ∷ ps) u = elim (Bool-cases (r p)) [
  | inl kept ↦
      rw kept (where-exists (at_key p.fragment_id p.node_id) r ps u.0, where-UniqueKeys r ps u.1)
  | inr gone ↦ rw gone (where-UniqueKeys r ps u.1)
]

at_key_sym :
    (p r : Placement)
    → at_key r.fragment_id r.node_id p ≡ false
    → at_key p.fragment_id p.node_id r ≡ false
unfolding at_key
at_key_sym p r h = ground arith

exists-append :
    (q : Placement → Bool) (ps : List Placement) (r : Placement)
    → exists_row q ps ≡ false
    → q r ≡ false
    → exists_row q (ps ++ r ∷ []) ≡ false
unfolding exists_row
exists-append q [] r h e = rw e refl
exists-append q (p ∷ ps) r h e = elim (Bool-cases (q p)) [
  | inl hit ↦ (let k = rw hit at h in absurd (cc))
  | inr miss ↦ rw miss (exists-append q ps r (rw miss at h) e)
]

append-UniqueKeys :
    (r : Placement) (ps : List Placement)
    → exists_row (at_key r.fragment_id r.node_id) ps ≡ false
    → UniqueKeys ps
    → UniqueKeys (ps ++ r ∷ [])
unfolding UniqueKeys exists_row
append-UniqueKeys r [] h u = (refl, tt)
append-UniqueKeys r (p ∷ ps) h u = elim (Bool-cases (at_key r.fragment_id r.node_id p)) [
  | inl hit ↦ (let k = rw hit at h in absurd (cc))
  | inr miss ↦ (
    exists-append (at_key p.fragment_id p.node_id) ps r u.0 (at_key_sym p r miss),
    append-UniqueKeys r ps (rw miss at h) u.1,
  )
]

plan-UniqueKeys :
    (f n : ℕ) (t : Tables) → UniqueKeys t.placements → UniqueKeys (insert_pending f n t).placements
unfolding insert_pending
plan-UniqueKeys f n t u = elim (Bool-cases (exists_row (at_key f n) t.placements)) [
  | inl taken ↦ rw taken u
  | inr free ↦ rw free (append-UniqueKeys _ t.placements free u)
]

-- No statement makes two rows of one fragment on one node.
pub apply-UniqueKeys :
    (o : PlacementOp) (t : Tables) → UniqueKeys t.placements → UniqueKeys (apply o t).placements
unfolding apply confirm_fragment lose_node lose_fragment restore_ids expire_ids expire_fragments
    delete_id drop_pending touch_audit confirmed set_lost set_restored set_expiring set_deleted
apply-UniqueKeys (plan f n) t u = plan-UniqueKeys f n t u
apply-UniqueKeys (confirm f) t u =
    update-UniqueKeys _ (confirmed t.now) (λ p. refl) (λ p. refl) t.placements u
apply-UniqueKeys (lose_all n) t u =
    update-UniqueKeys _ (set_lost t.now) (λ p. refl) (λ p. refl) t.placements u
apply-UniqueKeys (lose f n) t u =
    update-UniqueKeys _ (set_lost t.now) (λ p. refl) (λ p. refl) t.placements u
apply-UniqueKeys (restore ids) t u =
    update-UniqueKeys _ (set_restored t.now) (λ p. refl) (λ p. refl) t.placements u
apply-UniqueKeys (expire ids) t u =
    update-UniqueKeys _ set_expiring (λ p. refl) (λ p. refl) t.placements u
apply-UniqueKeys (expire_files mine) t u =
    update-UniqueKeys _ set_expiring (λ p. refl) (λ p. refl) t.placements u
apply-UniqueKeys (reap i) t u =
    update-UniqueKeys _ set_deleted (λ p. refl) (λ p. refl) t.placements u
apply-UniqueKeys (drop_plan mine) t u = where-UniqueKeys _ t.placements u
apply-UniqueKeys (audit f n) t u =
    update-UniqueKeys _ (λ (p : Placement). record p { last_audit_at = some t.now }) (λ p. refl)
      (λ p. refl) t.placements u
