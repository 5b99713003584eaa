-- ===== src/Health/Examples.antt =====
-- Tests of the node status on two rows.
use distributed_storage_plat.Common.{ℕ, ◌*◌, ◌≡◌, refl, inr, false, none, some, arith}
use distributed_storage_plat.Common.Int.{pos}
use distributed_storage_plat.Health.Rows.{
  Status, online, suspect, quarantined, NodeRow, touch_row, rotate_row, admit_node,
  admit_node_renew,
}
use distributed_storage_plat.Health.Monitor.{second, next_status, stale_status}
use distributed_storage_plat.Health.Stale.{Edge, stale_status-Edge, stale_status_eq-next_status}
use distributed_storage_plat.Health.Admission.{Step, Steps, barred-denied}

abbrev row : ℕ → Status → NodeRow ℕ
row i status = record {
  id = i;
  fingerprint = 70;
  cert_pem = 71;
  public_key = 72;
  cert_expires_at = none;
  status = status;
  last_seen_at = some (100 * second);
  used_bytes = pos 5;
  capacity_bytes = pos 9;
  reputation = 50;
  reputation_updated_at = none;
  revoked_at = none;
}

stale_status-Edge_example :
    Edge online (stale_status (131 * second) 30 300 online (some (100 * second)))
stale_status-Edge_example = stale_status-Edge (131 * second) 30 300 online (some (100 * second))

one_suspect : stale_status (131 * second) 30 300 online (some (100 * second)) ≡ suspect
unfolding stale_status
one_suspect = refl

stale_status_eq-next_status_example :
    stale_status (131 * second) 30 300 online (some (100 * second))
    ≡ next_status online (some (100 * second)) (131 * second) (30 * second) (300 * second)
stale_status_eq-next_status_example =
    stale_status_eq-next_status (131 * second) 30 300 (100 * second) online (λ e. omega arith)
      (λ e. omega arith)

-- At exactly the threshold they differ.
threshold :
    (stale_status (130 * second) 30 300 online (some (100 * second)) ≡ online)
    × (next_status online (some (100 * second)) (130 * second) (30 * second) (300 * second)
        ≡ suspect)
unfolding stale_status next_status
threshold = (refl, refl)

abbrev after : NodeRow ℕ
after =
    rotate_row 80 81 (900 * second) (touch_row (500 * second) (pos 6) (pos 0) (row 2 quarantined))

barred-denied_example : (admit_node (600 * second) after ≡ false) × (admit_node_renew after ≡ false)
barred-denied_example = barred-denied (600 * second) (row 2 quarantined) after (inr refl) (
    Steps.then_step (Steps.then_step Steps.done (Step.touch (500 * second) (pos 6) (pos 0)))
      (Step.rotate 80 81 (900 * second)))
