-- ===== src/Health/Monitor.antt =====
-- internal/healthmon/state.go and `TransitionStaleNodes` of internal/store/nodes.go: the scan for
-- silent nodes. NATS and the arithmetic of `real` are parameters.
use distributed_storage_plat.Common.{
  ℕ, ◌+◌, ◌*◌, ◌/◌, Bool, ◌&&◌, Option, none, some, List, [], ◌∷◌, ltb, leb, if◌then◌else◌,
}
use distributed_storage_plat.Health.Rows.{
  Status, online, suspect, offline, same_status, NodeRow, update_by_id,
}

-- Durations are nanoseconds.
abbrev pub second : ℕ
second = 1000000000

abbrev pub default_suspect_after : ℕ
default_suspect_after = 30 * second

abbrev pub default_offline_after : ℕ
default_offline_after = 300 * second

-- `NextStatus`: `last_seen` of `none` is the zero time, and being silent for at least `d` is
-- `last + d ≤ now`.
unfoldable pub next_status : Status → Option ℕ → ℕ → ℕ → ℕ → Status
next_status s none now suspect_after offline_after = s
next_status online (some last) now suspect_after offline_after =
    if leb (last + offline_after) now
    then offline
    else if leb (last + suspect_after) now
    then suspect
    else online
next_status suspect (some last) now suspect_after offline_after =
    if leb (last + offline_after) now then offline else suspect
next_status s (some last) now suspect_after offline_after = s

pub record NodeTransition : Type 0 where
  pub id : ℕ
  pub from : Status
  pub to : Status

-- The new status in the statement of TransitionStaleNodes, which compares with whole seconds.
unfoldable pub stale_status : ℕ → ℕ → ℕ → Status → Option ℕ → Status
stale_status now suspect_secs offline_secs s none = s
stale_status now suspect_secs offline_secs online (some last) =
    if ltb (last + offline_secs * second) now
    then offline
    else if ltb (last + suspect_secs * second) now
    then suspect
    else online
stale_status now suspect_secs offline_secs suspect (some last) =
    if ltb (last + offline_secs * second) now then offline else suspect
stale_status now suspect_secs offline_secs s (some last) = s

module _ {F : Type 0} where
  unfoldable pub stale_row : ℕ → ℕ → ℕ → NodeRow F → NodeRow F
  stale_row now suspect_after offline_after n = record n {
    status =
        stale_status now (suspect_after / second) (offline_after / second) n.status n.last_seen_at;
  }

  -- The rows after the statement, and the changes that it reports.
  unfoldable pub transition_stale_nodes :
      ℕ → ℕ → ℕ → List (NodeRow F) → List NodeTransition × List (NodeRow F)
  unfolding stale_row
  transition_stale_nodes now suspect_after offline_after [] = ([], [])
  transition_stale_nodes now suspect_after offline_after (n ∷ ns) =
      let (ts, rest) = transition_stale_nodes now suspect_after offline_after ns in
      let m = stale_row now suspect_after offline_after n in
      (
        if same_status n.status m.status
            then ts
            else record { id = n.id; from = n.status; to = m.status } ∷ ts,
        m ∷ rest,
      )

  -- The effect of `ApplyReputationEvent`: `ewma` is its arithmetic.
  unfoldable pub apply_reputation_event :
      (F → F → F) → ℕ → F → ℕ → List (NodeRow F) → List (NodeRow F)
  apply_reputation_event ewma now signal i ns =
      update_by_id
        (λ n. record n { reputation = ewma n.reputation signal; reputation_updated_at = some now })
        i ns

  -- The loop over the changes; errors of the bus and of the reputation statement are only logged,
  -- `works i` says whether the statement for the node succeeds.
  unfoldable pub penalise :
      (F → F → F) → F → ℕ → (ℕ → Bool) → List NodeTransition → List (NodeRow F) → List (NodeRow F)
  penalise ewma signal now works [] ns = ns
  penalise ewma signal now works (t ∷ ts) ns =
      if same_status t.to offline && works t.id
      then penalise ewma signal now works ts (apply_reputation_event ewma now signal t.id ns)
      else penalise ewma signal now works ts ns

  -- `Monitor.scan`: with the bus, the changes that it publishes and the rows; without, a `continue`
  -- skips the reputation too. `fails` says that the statement itself fails.
  unfoldable pub scan :
      (F → F → F)
      → F
      → ℕ
      → (ℕ → Bool)
      → Bool
      → Bool
      → ℕ
      → ℕ
      → List (NodeRow F)
      → List NodeTransition × List (NodeRow F)
  scan ewma signal now works fails has_bus suspect_after offline_after ns =
      let (ts, rows) = transition_stale_nodes now suspect_after offline_after ns in
      if fails
      then ([], ns)
      else if has_bus
      then (ts, penalise ewma signal now works ts rows)
      else ([], rows)
