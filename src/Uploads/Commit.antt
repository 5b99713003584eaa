-- ===== src/Uploads/Commit.antt =====
-- internal/store/uploads.go: `VersionByID`, `PendingTargetsForVersion` and `CommitUpload`.
use distributed_storage_plat.Common.{
  ℕ, ◌+◌, Bool, true, false, ◌&&◌, not, Option, none, some, List, [], ◌∷◌, ◌==◌, ltb, if◌then◌else◌,
  ok, err, pure, raise, ◌>>=◌, ◌>>◌, for,
}
use distributed_storage_plat.Common.Database.{select, exec, statement, transaction}
use distributed_storage_plat.Uploads.Rows.{
  not_found, conflict, incomplete, db_error, active, committed, File, FileVersion, Chunk, Fragment,
  Placement, Node, Tables, is_open, is_committed, is_stored, is_live, in_version, count,
  update_where, where_rows, find_file, find_version, find_fragment, find_node,
}
use distributed_storage_plat.Uploads.Placements.{confirm_fragment}
use distributed_storage_plat.Uploads.Planned.{Run, row, join}
use distributed_storage_plat.Uploads.Begin.{owns, is_gone}

-- The join of VersionByID and of `scanVersionTx`: a version of a live file of the owner.
unfoldable pub owned_version : ℕ → ℕ → Tables → Option (File × FileVersion)
unfolding owns is_gone
owned_version owner i t = elim (find_version i t.versions) [
  | none ↦ none
  | some v ↦ elim (find_file v.file_id t.files) [
    | none ↦ none
    | some f ↦ if owns owner f t && not (is_gone f) then some (f, v) else none
  ]
]

unfoldable pub version_by_id : ℕ → ℕ → Run (File × FileVersion)
version_by_id owner i = select db_error (λ (t : Tables). row (owned_version owner i t))

pub record PlacementTarget : Type 0 where
  pub placement : Placement
  pub fragment : Fragment
  pub node : Node

-- `fragment_placements p JOIN fragments fr JOIN nodes n`: at most one row for each placement.
unfoldable pub target_of : Tables → Placement → List PlacementTarget
target_of t p = elim (find_fragment p.fragment_id t.fragments) [
  | none ↦ []
  | some fr ↦ elim (find_node p.node_id t.nodes) [
    | none ↦ []
    | some n ↦ (record { placement = p; fragment = fr; node = n }) ∷ []
  ]
]

unfoldable pub targets_for_version : ℕ → Tables → List PlacementTarget
targets_for_version v t =
    join (target_of t) (
      where_rows (λ (p : Placement). in_version t v p.fragment_id && is_live p.status) t.placements)

unfoldable pub pending_targets_for_version : ℕ → Run (List PlacementTarget)
pending_targets_for_version v = select db_error (λ (t : Tables). ok (targets_for_version v t))

-- internal/store/store.go.
abbrev pub commit_threshold : ℕ
commit_threshold = 14

-- `count(p.id)` over the stored placements of the fragments of a chunk.
unfoldable pub stored_copies : List Placement → List Fragment → ℕ → ℕ
stored_copies ps [] c = 0
stored_copies ps (fr ∷ frs) c =
    let rest = stored_copies ps frs c in
    if fr.chunk_id == c
    then count (λ (p : Placement). p.fragment_id == fr.id && is_stored p.status) ps + rest
    else rest

-- The inner join with fragments: a chunk without fragments makes no row.
unfoldable pub has_fragment : List Fragment → ℕ → Bool
has_fragment [] c = false
has_fragment (fr ∷ frs) c = let rest = has_fragment frs c in if fr.chunk_id == c then true else rest

-- HAVING count(p.id) < $2
unfoldable pub is_short : Tables → ℕ → Chunk → Bool
is_short t v c =
    c.version_id == v
    && (has_fragment t.fragments c.id
        && ltb (stored_copies t.placements t.fragments c.id) commit_threshold)

unfoldable pub short_chunks : ℕ → Tables → ℕ
short_chunks v t = count (is_short t v) t.chunks

unfoldable pub set_committed : ℕ → FileVersion → FileVersion
set_committed now v = record v { status = committed; committed_at = some now }

-- UPDATE file_versions ... RETURNING
unfoldable pub commit_version : ℕ → Run FileVersion
unfolding set_committed
commit_version i = statement db_error (λ (t : Tables). elim (find_version i t.versions) [
  | none ↦ err not_found
  | some v ↦ ok (
    set_committed t.now v,
    record t {
      versions = update_where (λ (w : FileVersion). w.id == i) (set_committed t.now) t.versions;
    },
  )
])

unfoldable pub set_active : ℕ → ℕ → File → File
set_active now v f = record f { status = active; current_version = some v; updated_at = now }

unfoldable pub activate_file : ℕ → ℕ → Tables → Tables
activate_file i v t = record t {
  files = update_where (λ (f : File). f.id == i) (set_active t.now v) t.files;
}

-- The UPDATE of one listed fragment.
unfoldable pub confirm_row : ℕ → Run (Unit {0})
confirm_row f = exec db_error (confirm_fragment f)

unfoldable pub mark_file : File → FileVersion → Run (File × FileVersion)
mark_file f w =
    exec db_error (activate_file f.id w.id)
    >> pure (record f { status = active; current_version = some w.id }, w)

unfoldable pub finish_commit : File → ℕ → ℕ → Run (File × FileVersion)
finish_commit f i short = if ltb 0 short then raise incomplete else commit_version i >>= mark_file f

unfoldable pub count_short : ℕ → Run ℕ
count_short i = select db_error (λ (t : Tables). ok (short_chunks i t))

unfoldable pub check_and_commit : File → ℕ → Run (File × FileVersion)
check_and_commit f i = count_short i >>= finish_commit f i

unfoldable pub commit_pending : File → ℕ → List ℕ → Run (File × FileVersion)
commit_pending f i stored = for confirm_row stored >> check_and_commit f i

unfoldable pub commit_found : ℕ → List ℕ → File × FileVersion → Run (File × FileVersion)
commit_found i stored (f, v) =
    if is_committed v.status
    then pure (f, v)
    else if not (is_open v.status)
    then raise conflict
    else commit_pending f i stored

unfoldable pub commit_upload : ℕ → ℕ → List ℕ → Run (File × FileVersion)
commit_upload owner i stored =
    transaction db_error (version_by_id owner i >>= commit_found i stored)
