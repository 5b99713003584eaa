-- ===== src/Health/Admission.antt =====
-- internal/store/nodes.go: a revoked or quarantined node is never let in again.
use distributed_storage_plat.Common.{
  ℕ, ◌/◌, ◌⊎◌, ◌≡◌, refl, ap, ◌∙◌, true, false, Bool-cases, inl, inr, Option, none, some,
}
use distributed_storage_plat.Common.Int.{ℤ}
use distributed_storage_plat.Health.Rows.{
  Status, quarantined, same_status, NodeRow, touched, touch_row, is_revoked, rotate_row, revoke_row,
  admit_node, admit_node_renew,
}
use distributed_storage_plat.Health.Monitor.{second, stale_status, stale_row}

still :
    (now a b : ℕ) (s : Status) (last : Option ℕ)
    → s ≡ quarantined
    → stale_status now (a / second) (b / second) s last ≡ quarantined
unfolding stale_status
still now a b s last h =
    ap (λ (t : Status). stale_status now (a / second) (b / second) t last) h ∙ at_rest last
  where
    at_rest :
        (last : Option ℕ)
        → stale_status now (a / second) (b / second) quarantined last ≡ quarantined
    at_rest none = refl
    at_rest (some l) = refl

module _ {F : Type 0} where
  -- What the statements of nodes.go do to a row: a heartbeat, a scan, a new certificate, a
  -- revocation, and a reputation event.
  pub data Step : NodeRow F → NodeRow F → Type 0 where
    touch : {n : NodeRow F} (now : ℕ) (used capacity : ℤ) → Step n (touch_row now used capacity n)
    scanned : {n : NodeRow F} (now a b : ℕ) → Step n (stale_row now a b n)
    rotate : {n : NodeRow F} (fp pem expires : ℕ) → Step n (rotate_row fp pem expires n)
    revoke : {n : NodeRow F} (now : ℕ) → Step n (revoke_row now n)
    rated :
        {n : NodeRow F} (now : ℕ) (r : F)
        → Step n (record n { reputation = r; reputation_updated_at = some now })

  pub data Steps : NodeRow F → NodeRow F → Type 0 where
    done : {n : NodeRow F} → Steps n n
    then_step : {n m k : NodeRow F} → Steps n m → Step m k → Steps n k

  -- Revoked or in quarantine.
  abbrev pub IsBarred : NodeRow F → Type 0
  IsBarred n = (is_revoked n ≡ true) ⊎ (n.status ≡ quarantined)

  IsBarred-rotate :
      (fp pem expires : ℕ) (n : NodeRow F) → IsBarred n → IsBarred (rotate_row fp pem expires n)
  unfolding rotate_row
  IsBarred-rotate fp pem expires n h = elim (Bool-cases (is_revoked n)) [
    | inl gone ↦ rw (rotate_row, gone) h
    | inr live ↦ rw (rotate_row, live) h
  ]

  IsBarred-revoke : (now : ℕ) (n : NodeRow F) → IsBarred (revoke_row now n)
  unfolding revoke_row is_revoked
  IsBarred-revoke now n = elim (Bool-cases (is_revoked n)) [
    | inl gone ↦ rw (revoke_row, gone) (inl gone)
    | inr live ↦ rw (revoke_row, live) (inl refl)
  ]

  IsBarred-Step : {n m : NodeRow F} → Step n m → IsBarred n → IsBarred m
  unfolding touch_row stale_row is_revoked touched
  IsBarred-Step (touch now used capacity) (inl gone) = inl gone
  IsBarred-Step (touch now used capacity) (inr held) = inr (ap touched held)
  IsBarred-Step (scanned now a b) (inl gone) = inl gone
  IsBarred-Step {n} (scanned now a b) (inr held) = inr (still now a b n.status n.last_seen_at held)
  IsBarred-Step {n} (rotate fp pem expires) h = IsBarred-rotate fp pem expires n h
  IsBarred-Step {n} (revoke now) h = IsBarred-revoke now n
  IsBarred-Step (rated now r) h = h

  IsBarred-Steps : {n m : NodeRow F} → Steps n m → IsBarred n → IsBarred m
  IsBarred-Steps done h = h
  IsBarred-Steps (then_step ss st) h = IsBarred-Step st (IsBarred-Steps ss h)

  denied :
      (now : ℕ) (n : NodeRow F)
      → IsBarred n
      → (admit_node now n ≡ false) × (admit_node_renew n ≡ false)
  unfolding admit_node admit_node_renew same_status
  denied now n (inl gone) = (rw (admit_node, gone) refl, rw (admit_node_renew, gone) refl)
  denied now n (inr held) = elim (Bool-cases (is_revoked n)) [
    | inl gone ↦ (rw (admit_node, gone) refl, rw (admit_node_renew, gone) refl)
    | inr live ↦ (rw (admit_node, live, held) refl, rw (admit_node_renew, live, held) refl)
  ]

  -- A node that is revoked or in quarantine stays out: after any heartbeats, scans, certificate
  -- rotations, revocations and reputation events, both `AdmitNode`, at any time, and
  -- `AdmitNodeRenew` deny it.
  pub barred-denied :
      (now : ℕ) (n m : NodeRow F)
      → IsBarred n
      → Steps n m
      → (admit_node now m ≡ false) × (admit_node_renew m ≡ false)
  barred-denied now n m h ss = denied now m (IsBarred-Steps ss h)
