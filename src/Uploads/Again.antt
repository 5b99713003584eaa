-- ===== src/Uploads/Again.antt =====
-- internal/store/uploads.go: a version that `CommitUpload` returns stays committed.
use distributed_storage_plat.Common.{
  ℕ, ◌≡◌, refl, sym, ap, subst, ◌∙◌, true, ◌&&◌, not, none, some, List, [], ◌∷◌, ◌==◌, Bool-cases,
  Option-cases, inl, inr, arith, Result, ok, ◌>>=◌, for, ok-injective,
}
use distributed_storage_plat.Common.Database.{
  Session, calm, transaction-calm, statement-calm, >>=-run,
}
use distributed_storage_plat.Uploads.Rows.{
  StoreError, db_error, File, FileVersion, Tables, is_committed, update_where, find_version,
  find_file,
}
use distributed_storage_plat.Uploads.Commit.{
  owned_version, version_by_id, set_committed, set_active, activate_file, confirm_row, commit_found,
  commit_upload,
}
use distributed_storage_plat.Common.{Keeps-for}
use distributed_storage_plat.Common.Database.{InSession, Keeps-statement}
use distributed_storage_plat.Uploads.Begin.{owns, is_gone}
use distributed_storage_plat.Uploads.Placements.{confirm_fragment}
use distributed_storage_plat.Uploads.Committed.{marked, commit_pending-ok}
use distributed_storage_plat.Uploads.Covered.{
  some-injective, commit_upload-run, commit_upload-pending,
}

-- The tables that a commit reads before it writes, of which confirming rows changes nothing.
Frame : Tables → Tables → Type 0
Frame s t = (t.buckets ≡ s.buckets) × (t.files ≡ s.files) × (t.versions ≡ s.versions)

confirm-Frame :
    (s : Session Tables) (stored : List ℕ) → Frame s.tables (for confirm_row stored s).1.tables
unfolding Frame confirm_row confirm_fragment
confirm-Frame s stored =
    (Keeps-for {P = InSession (Frame s.tables)} confirm_row stored (λ f.
        Keeps-statement db_error (λ (t : Tables). ok (tt, confirm_fragment f t))
          (λ t t' a h k.
            subst (Frame s.tables) (ap (λ (p : Unit {0} × Tables). p.1) (ok-injective k)) h))).at
      s (refl, refl, refl)

find_version-marked :
    (i : ℕ) (now : ℕ) (vs : List FileVersion) {v : FileVersion}
    → find_version i vs ≡ some v
    → find_version i (update_where (λ (x : FileVersion). x.id == i) (set_committed now) vs)
      ≡ some (set_committed now v)
unfolding find_version update_where set_committed
find_version-marked i now [] h = absurd (cc)
find_version-marked i now (x ∷ vs) h = elim (Bool-cases (x.id == i)) [
  | inl here ↦
      rw (here, here)
        (ap (λ o. elim o [ none ↦ none | some y ↦ some (set_committed now y) ]) (rw here at h))
  | inr there ↦ rw (there, there) (find_version-marked i now vs (rw there at h))
]

find_file-marked :
    (i now v : ℕ) (fs : List File) {f : File}
    → find_file i fs ≡ some f
    → find_file i (update_where (λ (x : File). x.id == i) (set_active now v) fs)
      ≡ some (set_active now v f)
unfolding find_file update_where set_active
find_file-marked i now v [] h = absurd (cc)
find_file-marked i now v (x ∷ fs) h = elim (Bool-cases (x.id == i)) [
  | inl here ↦
      rw (here, here)
        (ap (λ o. elim o [ none ↦ none | some y ↦ some (set_active now v y) ]) (rw here at h))
  | inr there ↦ rw (there, there) (find_file-marked i now v fs (rw there at h))
]

find_file-id : (i : ℕ) (fs : List File) {f : File} → find_file i fs ≡ some f → f.id ≡ i
unfolding find_file
find_file-id i [] h = absurd (cc)
find_file-id i (x ∷ fs) h = elim (Bool-cases (x.id == i)) [
  | inl here ↦ ground arith
  | inr there ↦ find_file-id i fs (rw there at h)
]

commit_found-done :
    (i : ℕ) (stored : List ℕ) (f : File) (v : FileVersion) (s : Session Tables)
    → is_committed v.status ≡ true
    → commit_found i stored (f, v) s ≡ (ok (f, v), s)
unfolding commit_found
commit_found-done i stored f v s c = rw c refl

owned-parts :
    (owner i : ℕ) (t : Tables) {f : File} {v : FileVersion}
    → owned_version owner i t ≡ some (f, v)
    → (find_version i t.versions ≡ some v)
      × (find_file v.file_id t.files ≡ some f)
      × ((owns owner f t && not (is_gone f)) ≡ true)
unfolding owned_version
owned-parts owner i t {f} {v} h = elim (Option-cases (find_version i t.versions)) [
  | inl missing ↦ (let k = rw (owned_version, missing) at h in absurd (cc))
  | inr (v', found) ↦ elim (Option-cases (find_file v'.file_id t.files)) [
    | inl missing ↦ (let k = rw (owned_version, found, missing) at h in absurd (cc))
    | inr (f', found') ↦ elim (Bool-cases (owns owner f' t && not (is_gone f'))) [
      | inl mine ↦
          let e = some-injective (rw (owned_version, found, found', mine) at h) in
          (
            found ∙ ap (λ (p : File × FileVersion). some p.1) e,
            subst (λ (p : File × FileVersion). find_file p.1.file_id t.files ≡ some p.0) e found',
            subst (λ (p : File × FileVersion). (owns owner p.0 t && not (is_gone p.0)) ≡ true) e
                mine,
          )
      | inr foreign ↦ (let k = rw (owned_version, found, found', foreign) at h in absurd (cc))
    ]
  ]
]

owned-intro :
    (owner i : ℕ) (t : Tables) {f : File} {v : FileVersion}
    → find_version i t.versions ≡ some v
    → find_file v.file_id t.files ≡ some f
    → (owns owner f t && not (is_gone f)) ≡ true
    → owned_version owner i t ≡ some (f, v)
unfolding owned_version
owned-intro owner i t h k m = rw (owned_version, h, k, m) refl

-- Marking the version and the file leaves the version the owner's, and committed.
marked-owned :
    (owner i : ℕ) (w : FileVersion) (t : Tables) {f : File} {v : FileVersion}
    → owned_version owner i t ≡ some (f, v)
    → owned_version owner i (marked f i w t) ≡ some (set_active t.now w.id f, set_committed t.now v)
unfolding marked activate_file owns is_gone set_active set_committed
marked-owned owner i w t {f} {v} h =
    let (found, found_file, mine) = owned-parts owner i t h in
    let same_id = find_file-id v.file_id t.files found_file in
    owned-intro owner i (marked f i w t) (find_version-marked i t.now t.versions found)
      (subst
        (λ (j : ℕ).
          find_file v.file_id
            (update_where (λ (x : File). x.id == j) (set_active t.now w.id) t.files)
          ≡ some (set_active t.now w.id f))
        (sym same_id) (find_file-marked v.file_id t.now w.id t.files found_file))
      mine

Frame-owned :
    (owner i : ℕ) (s t : Tables) → Frame s t → owned_version owner i t ≡ owned_version owner i s
unfolding Frame owned_version owns
Frame-owned owner i s t h = rw (h.0, h.1, h.2) refl

is_committed-marked : (now : ℕ) (v : FileVersion) → is_committed (set_committed now v).status ≡ true
unfolding is_committed set_committed
is_committed-marked now v = refl

-- A version that its owner has and that is committed is returned, whatever fragments are listed.
commit_upload-committed :
    (owner i : ℕ) (stored : List ℕ) (t : Tables) {f : File} {v : FileVersion}
    → owned_version owner i t ≡ some (f, v)
    → is_committed v.status ≡ true
    → commit_upload owner i stored (calm t) ≡ (ok (f, v), calm t)
unfolding commit_upload commit_found version_by_id
commit_upload-committed owner i stored t {f} {v} h c =
    let answer : Result StoreError ((File × FileVersion) × Tables) = ok ((f, v), t) in
    transaction-calm db_error (version_by_id owner i >>= commit_found i stored) t (
      >>=-run (version_by_id owner i) (commit_found i stored) (calm t)
        (statement-calm db_error _ t {t' = t} {a = (f, v)} (rw h refl))
      ∙ rw c refl)

-- After `CommitUpload` has returned a version, a second call for it by the same owner, with any
-- list of fragments and no failure of the database, returns the same version of the same file and
-- changes no table.
pub commit_upload-again :
    (owner i : ℕ) (stored again : List ℕ) (s : Session Tables) {f g : File} {v w : FileVersion}
    → (commit_upload owner i stored s).0 ≡ ok (g, w)
    → owned_version owner i s.tables ≡ some (f, v)
    → (h : File) × (h.id ≡ f.id)
      × (commit_upload owner i again (calm (commit_upload owner i stored s).1.tables)
          ≡ (ok (h, w), calm (commit_upload owner i stored s).1.tables))
unfolding set_active
commit_upload-again owner i stored again s {f} {g} {v} {w} h o =
    elim (Bool-cases (is_committed v.status)) [
      | inr unmarked ↦
          let (b, same, ran, left) = commit_upload-pending owner i stored s h o unmarked in
          let (u, t, t≡, whole, found, w≡, at_end) = commit_pending-ok f i stored b ran in
          let frame = subst (Frame b.tables) (sym t≡) (confirm-Frame b stored) in
          let before = Frame-owned owner i b.tables t frame ∙ ap (owned_version owner i) same ∙ o in
          let after = marked-owned owner i w t before in
          let after' = ap (owned_version owner i) (left ∙ at_end) ∙ after in
          let w_is =
            w≡
            ∙ ap (set_committed t.now)
                (some-injective (sym found ∙ (owned-parts owner i t before).0)) in
          (
            set_active t.now w.id f,
            refl,
            commit_upload-committed owner i again (commit_upload owner i stored s).1.tables
                (after' ∙ ap (λ (x : FileVersion). some (set_active t.now w.id f, x)) (sym w_is))
                (ap (λ (x : FileVersion). is_committed x.status) w_is
                  ∙ is_committed-marked t.now v),
          )
      | inl done ↦
          let run = commit_upload-run owner i stored s h in
          let is_found : run.found ≡ (f, v) = some-injective (sym run.owned ∙ o) in
          let same = ap (λ (p : File × FileVersion). commit_found i stored p run.start) is_found in
          let kept = commit_found-done i stored f v run.start done in
          let both = ok-injective (ap (λ q. q.0) (sym kept ∙ sym same) ∙ run.ran) in
          let tables = run.left ∙ ap (λ q. q.1.tables) (same ∙ kept) ∙ run.same_start in
          (
            f,
            refl,
            commit_upload-committed owner i again (commit_upload owner i stored s).1.tables
                (ap (owned_version owner i) tables
                  ∙ o
                  ∙ ap (λ (x : FileVersion). some (f, x)) (ap (λ p. p.1) both))
                (ap (λ (p : File × FileVersion). is_committed p.1.status) (sym both) ∙ done),
          )
    ]
