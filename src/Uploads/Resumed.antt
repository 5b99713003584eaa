-- ===== src/Uploads/Resumed.antt =====
-- internal/store/uploads.go: the version that `BeginUpload` returns.
use distributed_storage_plat.Common.{
  ℕ, ◌≡◌, refl, sym, ap, ◌∙◌, Bool, true, false, not, ◌&&◌, ◌||◌, leb, ◌==◌, subst, ◌⊎◌, Option,
  none, some, List, Bool-cases, Option-cases, inl, inr, ok, lift, ◌>>=◌, ◌>>◌, for, err_ne_ok,
  ok-injective, [], ◌∷◌,
}
use distributed_storage_plat.Common.Bytes.{same_bytes, same_bytes-eq}
use distributed_storage_plat.Common.Database.{
  Session, transaction, transaction-ok, statement-ok, select-ok, then-ok,
}
use distributed_storage_plat.Uploads.Rows.{db_error, File, FileVersion, Tables, is_open, where_rows}
use distributed_storage_plat.Uploads.Reads.{ReadsOnly, select-ReadsOnly}
use distributed_storage_plat.Uploads.Covered.{some-injective}
use distributed_storage_plat.Uploads.Moves.{and_right}
use distributed_storage_plat.Uploads.Planned.{
  Run, row, UploadManifest, PlannedUpload, PlannedFragment, planned_rows, has_stored, load_planned,
}
use distributed_storage_plat.Uploads.Begin.{
  first_file, live_at, find_bucket, is_active, is_uploading, latest_open, later, pending_version,
  insert_file, insert_version, insert_manifest_chunk, fill_version, new_version, resume_or_new,
  begin_at, begin_checked, begin_upload, bucket_by_id, file_at, bad_manifest, normalize_path,
}

-- The version is open and has the content of the manifest.
unfoldable pub IsFor : UploadManifest → FileVersion → Type 0
IsFor m v = (v.content_sha256 ≡ m.content_sha256) × (is_open v.status ≡ true)

-- A plan for the manifest; one that resumes an earlier plan has written nothing.
unfoldable pub IsPlan : UploadManifest → Tables → PlannedUpload → Tables → Type 0
unfolding IsFor
IsPlan m before p after = IsFor m p.version × ((p.resume ≡ false) ⊎ (after ≡ before))

load_planned-ok :
    (f : File) (v : FileVersion) (resume : Bool) (s : Session Tables) {p : PlannedUpload}
    → (load_planned f v resume s).0 ≡ ok p
    → (p.version ≡ v) × (p.resume ≡ resume) × ((load_planned f v resume s).1.tables ≡ s.tables)
unfolding load_planned
load_planned-ok f v resume s h =
    let planned : Tables → PlannedUpload = λ t. record {
      file = f;
      version = v;
      resume = resume;
      pending_rows =
          where_rows (λ (pf : PlannedFragment). not (has_stored pf)) (planned_rows v.id t);
      stored_rows = where_rows has_stored (planned_rows v.id t);
    } in
    let (e, kept) = select-ok db_error planned s h in
    (ap (λ (p : PlannedUpload). p.version) e, ap (λ (p : PlannedUpload). p.resume) e, kept)

later-open :
    (v w : FileVersion)
    → is_open v.status ≡ true
    → is_open w.status ≡ true
    → is_open (later v (some w)).status ≡ true
unfolding later
later-open v w h k = elim (Bool-cases (leb w.version_no v.version_no)) [
  | inl first ↦ rw first h
  | inr second ↦ rw second k
]

latest_open-open :
    (f : ℕ) (vs : List FileVersion) {v : FileVersion}
    → latest_open f vs ≡ some v
    → is_open v.status ≡ true
unfolding latest_open later
latest_open-open f [] h = absurd (cc)
latest_open-open f (x ∷ vs) h = elim (Bool-cases (x.file_id == f && is_open x.status)) [
  | inl mine ↦ elim (Option-cases (latest_open f vs)) [
    | inl alone ↦
        subst (λ (w : FileVersion). is_open w.status ≡ true)
          (some-injective (rw (mine, alone) at h)) (and_right (x.file_id == f) _ mine)
    | inr (w, before) ↦
        subst (λ (w : FileVersion). is_open w.status ≡ true)
          (some-injective (rw (mine, before) at h))
          (later-open x w (and_right (x.file_id == f) _ mine) (latest_open-open f vs before))
  ]
  | inr other ↦ latest_open-open f vs (rw other at h)
]

bucket_by_id-kept :
    (owner i : ℕ) (s : Session Tables) → (bucket_by_id owner i s).1.tables ≡ s.tables
unfolding bucket_by_id ReadsOnly
bucket_by_id-kept owner i s =
    select-ReadsOnly (λ (t : Tables). row (find_bucket owner i t.buckets)) s

module _ (fresh : List ℕ → ℕ) (m : UploadManifest) where
  insert_version-ok :
      (f : File) (s : Session Tables) {v : FileVersion}
      → (insert_version fresh f m s).0 ≡ ok v
      → IsFor m v
  unfolding insert_version IsFor is_open
  insert_version-ok f s h =
      let (t, said, left) = statement-ok db_error _ s h in
      let made = ap (λ (p : FileVersion × Tables). p.0) (ok-injective said) in
      (
        ap (λ (w : FileVersion). w.content_sha256) (sym made),
        ap (λ (w : FileVersion). is_open w.status) (sym made),
      )

  new_version-IsPlan :
      (f : File) (s : Session Tables) {p : PlannedUpload} (before : Tables)
      → (new_version fresh f m s).0 ≡ ok p
      → IsPlan m before p (new_version fresh f m s).1.tables
  unfolding new_version fill_version IsPlan
  new_version-IsPlan f s before h =
      let (v, made, h1, e1) = then-ok (insert_version fresh f m) (fill_version fresh f m) s h in
      let s1 = (insert_version fresh f m s).1 in
      let (u, filled, h2, e2) =
        then-ok (for (insert_manifest_chunk fresh v.id) m.chunks) (λ _. load_planned f v false) s1
          h1 in
      let (same, fresh_plan, kept) = load_planned-ok f v false _ h2 in
      (subst (IsFor m) (sym same) (insert_version-ok f s made), inl fresh_plan)

  resume_or_new-IsPlan :
      (f : File) (o : Option FileVersion) (s : Session Tables) {p : PlannedUpload}
      → ((v : FileVersion) → o ≡ some v → is_open v.status ≡ true)
      → (resume_or_new fresh f m o s).0 ≡ ok p
      → IsPlan m s.tables p (resume_or_new fresh f m o s).1.tables
  unfolding resume_or_new IsPlan IsFor
  resume_or_new-IsPlan f none s k h = new_version-IsPlan f s s.tables h
  resume_or_new-IsPlan f (some v) s k h =
      elim (Bool-cases (same_bytes v.content_sha256 m.content_sha256)) [
        | inl same ↦
            let (e, r, kept) = load_planned-ok f v true s (rw same at h) in
            rw same (
              (
                ap (λ (w : FileVersion). w.content_sha256) e
                    ∙ same_bytes-eq v.content_sha256 m.content_sha256 same,
                ap (λ (w : FileVersion). is_open w.status) e ∙ k v refl,
              ),
              inr kept,
            )
        | inr other ↦ absurd (err_ne_ok (sym (rw other at h)))
      ]

  pending_version-IsPlan :
      (f : File) (s : Session Tables) {p : PlannedUpload}
      → ((pending_version f.id >>= resume_or_new fresh f m) s).0 ≡ ok p
      → IsPlan m s.tables p ((pending_version f.id >>= resume_or_new fresh f m) s).1.tables
  unfolding pending_version
  pending_version-IsPlan f s {p} h =
      let (o, read, h1, e1) = then-ok (pending_version f.id) (resume_or_new fresh f m) s h in
      let (o≡, kept) = select-ok db_error (λ (t : Tables). latest_open f.id t.versions) s read in
      let plan =
        resume_or_new-IsPlan f o (pending_version f.id s).1
          (λ v is_v. latest_open-open f.id s.tables.versions (sym o≡ ∙ is_v)) h1 in
      subst
        (λ (t : Tables).
          IsPlan m t p ((pending_version f.id >>= resume_or_new fresh f m) s).1.tables)
        kept
        (subst (λ (t : Tables). IsPlan m (pending_version f.id s).1.tables p t)
          (ap (λ q. q.1.tables) (sym e1)) plan)

  begin_at-IsPlan :
      (path : List ℕ) (o : Option File) (s : Session Tables) {p : PlannedUpload}
      → (begin_at fresh path m o s).0 ≡ ok p
      → IsPlan m s.tables p (begin_at fresh path m o s).1.tables
  unfolding begin_at
  begin_at-IsPlan path none s {p} h =
      let (f, made, h1, e1) =
        then-ok (insert_file fresh m.bucket_id path) (λ f. new_version fresh f m) s h in
      subst (λ (t : Tables). IsPlan m s.tables p t) (ap (λ q. q.1.tables) (sym e1))
        (new_version-IsPlan f (insert_file fresh m.bucket_id path s).1 s.tables h1)
  begin_at-IsPlan path (some f) s h = elim (Bool-cases (is_active f.status || f.is_folder)) [
    | inl taken ↦ absurd (err_ne_ok (sym (rw taken at h)))
    | inr free ↦ elim (Bool-cases (is_uploading f.status)) [
      | inl going ↦ rw (free, going) (pending_version-IsPlan f s (rw (free, going) at h))
      | inr other ↦ rw (free, other) (new_version-IsPlan f s s.tables (rw (free, other) at h))
    ]
  ]

  begin_checked-IsPlan :
      (path : List ℕ) (s : Session Tables) {p : PlannedUpload}
      → (begin_checked fresh m path s).0 ≡ ok p
      → IsPlan m s.tables p (begin_checked fresh m path s).1.tables
  unfolding begin_checked file_at
  begin_checked-IsPlan path s {p} h = elim (Bool-cases (bad_manifest m)) [
    | inl bad ↦ absurd (err_ne_ok (sym (rw bad at h)))
    | inr good ↦
        let body : Run PlannedUpload = file_at m.bucket_id path >>= begin_at fresh path m in
        let ran = rw good at h in
        let (b, same, done, left) = transaction-ok db_error body s ran in
        let (o, read, h1, e1) = then-ok (file_at m.bucket_id path) (begin_at fresh path m) b done in
        let (o≡, kept) =
          select-ok db_error (λ (t : Tables). first_file (live_at m.bucket_id path) t.files) b
            read in
        let plan = begin_at-IsPlan path o (file_at m.bucket_id path b).1 h1 in
        rw good (
          subst (λ (t : Tables). IsPlan m t p (transaction db_error body s).1.tables) (kept ∙ same)
            (subst (λ (t : Tables). IsPlan m (file_at m.bucket_id path b).1.tables p t)
              (sym (left ∙ ap (λ q. q.1.tables) e1)) plan))
  ]

  -- When `BeginUpload` returns a plan, its version is pending and has the content hash of the
  -- manifest, and a plan that resumes an earlier upload has written nothing: the tables are those
  -- before the call.
  pub begin_upload-IsPlan :
      (trim_space clean : List ℕ → List ℕ) (owner : ℕ) (s : Session Tables) {p : PlannedUpload}
      → (begin_upload fresh trim_space clean owner m s).0 ≡ ok p
      → IsPlan m s.tables p (begin_upload fresh trim_space clean owner m s).1.tables
  unfolding begin_upload bucket_by_id
  begin_upload-IsPlan trim_space clean owner s {p} h =
      let (path, normal, h1, e1) =
        then-ok (lift (normalize_path trim_space clean m.path))
          (λ path. bucket_by_id owner m.bucket_id >> begin_checked fresh m path) s h in
      let (b, read, h2, e2) =
        then-ok (bucket_by_id owner m.bucket_id) (λ _. begin_checked fresh m path) s h1 in
      let plan = begin_checked-IsPlan path (bucket_by_id owner m.bucket_id s).1 h2 in
      subst (λ (t : Tables). IsPlan m t p (begin_upload fresh trim_space clean owner m s).1.tables)
        (bucket_by_id-kept owner m.bucket_id s)
        (subst (λ (t : Tables). IsPlan m (bucket_by_id owner m.bucket_id s).1.tables p t)
          (ap (λ q. q.1.tables) (sym (e1 ∙ e2))) plan)
