-- ===== src/Health/Rows.antt =====
-- internal/store/nodes.go: the rows of `nodes` and the statements that change one.
-- Times are nanoseconds, ids and certificates are numbers, since they are only compared. `now` is
-- the time of the statement, and a result of `none` is ErrNotFound.
use distributed_storage_plat.Common.{
  ℕ, Bool, true, false, ◌||◌, Option, none, some, List, [], ◌∷◌, ltb, ◌==◌, if◌then◌else◌,
}
use distributed_storage_plat.Common.Int.{ℤ, pos, ltb_ℤ}

pub data Status : Type 0 where
  pending online suspect offline draining quarantined retired : Status

unfoldable pub same_status : Status → Status → Bool
same_status pending pending = true
same_status online online = true
same_status suspect suspect = true
same_status offline offline = true
same_status draining draining = true
same_status quarantined quarantined = true
same_status retired retired = true
same_status _ _ = false

-- The columns of a node that its status, its certificate and its reputation take; `F` is `real`.
pub record NodeRow (F : Type 0) : Type 0 where
  pub id : ℕ
  pub fingerprint : ℕ
  pub cert_pem : ℕ
  pub public_key : ℕ
  pub cert_expires_at : Option ℕ
  pub status : Status
  pub last_seen_at : Option ℕ
  pub used_bytes : ℤ
  pub capacity_bytes : ℤ
  pub reputation : F
  pub reputation_updated_at : Option ℕ
  pub revoked_at : Option ℕ

-- The `CASE` of TouchNodeStatus.
unfoldable pub touched : Status → Status
touched pending = online
touched suspect = online
touched offline = online
touched s = s

module _ {F : Type 0} where
  unfoldable pub node_by_id : ℕ → List (NodeRow F) → Option (NodeRow F)
  node_by_id i [] = none
  node_by_id i (n ∷ ns) = let rest = node_by_id i ns in if n.id == i then some n else rest

  -- `UPDATE nodes SET … WHERE id = $1`.
  unfoldable pub update_by_id : (NodeRow F → NodeRow F) → ℕ → List (NodeRow F) → List (NodeRow F)
  update_by_id f i [] = []
  update_by_id f i (n ∷ ns) =
      let rest = update_by_id f i ns in if n.id == i then f n ∷ rest else n ∷ rest

  unfoldable pub touch_row : ℕ → ℤ → ℤ → NodeRow F → NodeRow F
  touch_row now used capacity n = record n {
    last_seen_at = some now;
    used_bytes = used;
    capacity_bytes = if ltb_ℤ (pos 0) capacity then capacity else n.capacity_bytes;
    status = touched n.status;
  }

  -- The statuses before and after, with the rows.
  unfoldable pub touch_node_status :
      ℕ → ℕ → ℤ → ℤ → List (NodeRow F) → Option (Status × Status) × List (NodeRow F)
  touch_node_status now i used capacity ns = elim (node_by_id i ns) [
    | none ↦ (none, ns)
    | some n ↦ (some (n.status, touched n.status), update_by_id (touch_row now used capacity) i ns)
  ]

  unfoldable pub is_revoked : NodeRow F → Bool
  is_revoked n = elim n.revoked_at [ none ↦ false | some _ ↦ true ]

  unfoldable pub rotate_row : ℕ → ℕ → ℕ → NodeRow F → NodeRow F
  unfolding is_revoked
  rotate_row fp pem expires n =
      if is_revoked n
      then n
      else record n { fingerprint = fp; cert_pem = pem; cert_expires_at = some expires }

  unfoldable pub revoke_row : ℕ → NodeRow F → NodeRow F
  unfolding is_revoked
  revoke_row now n = if is_revoked n then n else record n { revoked_at = some now }

  -- Whether a row was affected, with the rows.
  affected : ℕ → List (NodeRow F) → Option (Unit {0})
  affected i ns = elim (node_by_id i ns) [
    | none ↦ none
    | some n ↦ if is_revoked n then none else some tt
  ]

  unfoldable pub rotate_node_cert :
      ℕ → ℕ → ℕ → ℕ → List (NodeRow F) → Option (Unit {0}) × List (NodeRow F)
  unfolding affected
  rotate_node_cert i fp pem expires ns =
      (affected i ns, update_by_id (rotate_row fp pem expires) i ns)

  unfoldable pub revoke_node : ℕ → ℕ → List (NodeRow F) → Option (Unit {0}) × List (NodeRow F)
  unfolding affected
  revoke_node now i ns = (affected i ns, update_by_id (revoke_row now) i ns)

  -- `AdmitNode`; `false` is ErrNodeDenied.
  unfoldable pub admit_node : ℕ → NodeRow F → Bool
  unfolding is_revoked
  admit_node now n =
      let current : Bool = elim n.cert_expires_at [ none ↦ true | some until ↦ ltb now until ] in
      if is_revoked n then false else if same_status n.status quarantined then false else current

  unfoldable pub admit_node_renew : NodeRow F → Bool
  unfolding is_revoked
  admit_node_renew n = if is_revoked n || same_status n.status quarantined then false else true
