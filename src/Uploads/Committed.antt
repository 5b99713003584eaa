-- ===== src/Uploads/Committed.antt =====
-- internal/store/uploads.go: what `CommitUpload` guarantees of a version.
use distributed_storage_plat.Common.{
  ℕ, ◌≡◌, refl, sym, ap, ◌∙◌, some, List, ◌==◌, ltb, Bool-cases, Option-cases, inl, inr, arith, ok,
  pure, ◌>>=◌, for, err_ne_ok, ok-injective,
}
use distributed_storage_plat.Common.Database.{
  Session, exec, statement-ok, select-ok, exec-ok, then-ok,
}
use distributed_storage_plat.Uploads.Rows.{
  db_error, active, File, FileVersion, Tables, update_where, find_version,
}
use distributed_storage_plat.Uploads.Commit.{
  short_chunks, set_committed, commit_version, activate_file, confirm_row, commit_pending,
  check_and_commit, finish_commit, mark_file, count_short,
}

commit_version-ok :
    (i : ℕ) (s : Session Tables) {w : FileVersion}
    → (commit_version i s).0 ≡ ok w
    → (v : FileVersion) × (find_version i s.tables.versions ≡ some v)
      × (w ≡ set_committed s.tables.now v)
      × ((commit_version i s).1.tables ≡ record s.tables {
        versions =
            update_where
              (λ (x : FileVersion). x.id == i)
              (set_committed s.tables.now)
              s.tables.versions;
      })
unfolding commit_version
commit_version-ok i s h =
    let (t, said, left) = statement-ok db_error _ s h in
    elim (Option-cases (find_version i s.tables.versions)) [
      | inl missing ↦ absurd (err_ne_ok (sym (rw missing at said)))
      | inr (v, found) ↦
          let both = ok-injective (rw found at said) in
          (v, found, sym (ap (λ p. p.0) both), left ∙ sym (ap (λ p. p.1) both))
    ]

-- The tables after the two updates that end a commit.
unfoldable pub marked : File → ℕ → FileVersion → Tables → Tables
marked f i w t = activate_file f.id w.id (record t {
  versions = update_where (λ (x : FileVersion). x.id == i) (set_committed t.now) t.versions;
})

mark_file-ok :
    (f : File) (w : FileVersion) (s : Session Tables) {r : File × FileVersion}
    → (mark_file f w s).0 ≡ ok r
    → (r.1 ≡ w) × ((mark_file f w s).1.tables ≡ activate_file f.id w.id s.tables)
unfolding mark_file
mark_file-ok f w s h =
    let (u, wrote, said, same) =
      then-ok (exec db_error (activate_file f.id w.id))
        (λ _. pure (record f { status = active; current_version = some w.id }, w)) s h in
    (
      ap (λ q. q.1) (sym (ok-injective said)),
      ap (λ q. q.1.tables) same ∙ exec-ok db_error (activate_file f.id w.id) s wrote,
    )

commit_and_mark-ok :
    (f : File) (i : ℕ) (s : Session Tables) {r : File × FileVersion}
    → ((commit_version i >>= mark_file f) s).0 ≡ ok r
    → (v : FileVersion) × (find_version i s.tables.versions ≡ some v)
      × (r.1 ≡ set_committed s.tables.now v)
      × (((commit_version i >>= mark_file f) s).1.tables ≡ marked f i r.1 s.tables)
unfolding marked
commit_and_mark-ok f i s h =
    let (w, wrote, marked_file, same) = then-ok (commit_version i) (mark_file f) s h in
    let (v, found, w≡, left) = commit_version-ok i s wrote in
    let (r≡, left') = mark_file-ok f w (commit_version i s).1 marked_file in
    (
      v,
      found,
      r≡ ∙ w≡,
      ap (λ q. q.1.tables) same
          ∙ left'
          ∙ ap (activate_file f.id w.id) left
          ∙ ap
              (λ (x : FileVersion). activate_file f.id x.id (record s.tables {
                versions =
                    update_where (λ (y : FileVersion). y.id == i) (set_committed s.tables.now)
                      s.tables.versions;
              }))
              (sym r≡),
    )

finish_commit-ok :
    (f : File) (i n : ℕ) (s : Session Tables) {r : File × FileVersion}
    → (finish_commit f i n s).0 ≡ ok r
    → (n ≡ 0) × (finish_commit f i n s ≡ (commit_version i >>= mark_file f) s)
unfolding finish_commit
finish_commit-ok f i n s h = elim (Bool-cases (ltb 0 n)) [
  | inl short ↦ absurd (err_ne_ok (sym (rw short at h)))
  | inr whole ↦ (ground arith, rw whole refl)
]

-- A commit of an open version that returns found no chunk short of copies, after the listed
-- placements were confirmed, and marked the version and the file.
pub commit_pending-ok :
    (f : File) (i : ℕ) (stored : List ℕ) (s : Session Tables) {r : File × FileVersion}
    → (commit_pending f i stored s).0 ≡ ok r
    → (v : FileVersion) × (t : Tables) × (t ≡ (for confirm_row stored s).1.tables)
      × (short_chunks i t ≡ 0)
      × (find_version i t.versions ≡ some v)
      × (r.1 ≡ set_committed t.now v)
      × ((commit_pending f i stored s).1.tables ≡ marked f i r.1 t)
unfolding commit_pending check_and_commit count_short
commit_pending-ok f i stored s h =
    let (u, confirmed, h1, e1) = then-ok (for confirm_row stored) (λ _. check_and_commit f i) s h in
    let s1 = (for confirm_row stored s).1 in
    let (n, counted, h2, e2) = then-ok (count_short i) (finish_commit f i) s1 h1 in
    let (n≡, same) = select-ok db_error (short_chunks i) s1 counted in
    let s2 = (count_short i s1).1 in
    let (n≡0, e3) = finish_commit-ok f i n s2 h2 in
    let (v, found, r≡, left) = commit_and_mark-ok f i s2 (ap (λ q. q.0) (sym e3) ∙ h2) in
    (
      v,
      s2.tables,
      same,
      ap (short_chunks i) same ∙ sym n≡ ∙ n≡0,
      found,
      r≡,
      ap (λ q. q.1.tables) (e1 ∙ e2 ∙ e3) ∙ left,
    )
