-- ===== src/Uploads/Covered.antt =====
-- internal/store/uploads.go: a version that `CommitUpload` returns is covered.
use distributed_storage_plat.Common.{
  ℕ, ◌≤◌, ◌≡◌, refl, sym, ap, subst, ◌∙◌, Bool, true, false, none, some, List, [], ◌∷◌, ◌==◌, ltb,
  Bool-cases, Option-cases, inl, inr, arith, ok, ◌>>=◌, err_ne_ok, ok-injective,
}
use distributed_storage_plat.Common.Database.{Session, transaction-ok, statement-ok, then-ok}
use distributed_storage_plat.Uploads.Rows.{
  db_error, File, FileVersion, Chunk, Tables, is_open, is_committed, count,
}
use distributed_storage_plat.Uploads.Planned.{Run}
use distributed_storage_plat.Uploads.Commit.{
  owned_version, version_by_id, commit_threshold, stored_copies, has_fragment, is_short,
  short_chunks, activate_file, commit_pending, commit_found, commit_upload,
}
use distributed_storage_plat.Uploads.Committed.{marked, commit_pending-ok}
use mathlib.Core.List.{Memᴰ}

none-hit :
    {A : Type 0} (q : A → Bool) (xs : List A) {x : A} → count q xs ≡ 0 → Memᴰ x xs → q x ≡ false
unfolding count
none-hit q [] h m = elim m [ ]
none-hit q (y ∷ ys) h (Memᴰ.head e) = elim (Bool-cases (q y)) [
  | inl hit ↦ (let k = rw hit at h in absurd (omega arith))
  | inr miss ↦ ap q e ∙ miss
]
none-hit q (y ∷ ys) h (Memᴰ.tail m) = elim (Bool-cases (q y)) [
  | inl hit ↦ (let k = rw hit at h in absurd (omega arith))
  | inr miss ↦ none-hit q ys (rw miss at h) m
]

not_short :
    (t : Tables) (c : Chunk)
    → is_short t c.version_id c ≡ false
    → has_fragment t.fragments c.id ≡ true
    → commit_threshold ≤ stored_copies t.placements t.fragments c.id
unfolding is_short
not_short t c h k = elim (Bool-cases (ltb (stored_copies t.placements t.fragments c.id) 14)) [
  | inl few ↦
      let same : (c.version_id == c.version_id) ≡ true = ground arith in
      (let hit = rw (k, few, same) at h in absurd (cc))
  | inr many ↦ ground arith
]

pub some-injective : {A : Type 0} {a b : A} → some a ≡ some b → a ≡ b
some-injective {a} h = ap (λ o. elim o [ none ↦ a | some x ↦ x ]) h

-- The two ways in which `CommitUpload` returns, from the version that its first statement found.
pub record FoundRun (owner i : ℕ) (stored : List ℕ) (s : Session Tables) (r : File × FileVersion)
    : Type 0 where
  pub start : Session Tables
  pub same_start : start.tables ≡ s.tables
  pub found : File × FileVersion
  pub owned : owned_version owner i s.tables ≡ some found
  pub ran : (commit_found i stored found start).0 ≡ ok r
  pub left :
      (commit_upload owner i stored s).1.tables ≡ (commit_found i stored found start).1.tables

version_by_id-ok :
    (owner i : ℕ) (s : Session Tables) {r : File × FileVersion}
    → (version_by_id owner i s).0 ≡ ok r
    → (owned_version owner i s.tables ≡ some r) × ((version_by_id owner i s).1.tables ≡ s.tables)
unfolding version_by_id
version_by_id-ok owner i s h =
    let (t, said, left) = statement-ok db_error _ s h in
    elim (Option-cases (owned_version owner i s.tables)) [
      | inl missing ↦ absurd (err_ne_ok (sym (rw missing at said)))
      | inr (v, found) ↦
          let both = ok-injective (rw found at said) in
          (found ∙ ap (λ p. some p.0) both, left ∙ sym (ap (λ p. p.1) both))
    ]

pub commit_upload-run :
    (owner i : ℕ) (stored : List ℕ) (s : Session Tables) {r : File × FileVersion}
    → (commit_upload owner i stored s).0 ≡ ok r
    → FoundRun owner i stored s r
unfolding commit_upload
commit_upload-run owner i stored s h =
    let body : Run (File × FileVersion) = version_by_id owner i >>= commit_found i stored in
    let (b, same, done, left) = transaction-ok db_error body s h in
    let (found, read, ran, rest) = then-ok (version_by_id owner i) (commit_found i stored) b done in
    let (owned, kept) = version_by_id-ok owner i b read in
    record {
      start = (version_by_id owner i b).1;
      same_start = kept ∙ same;
      found = found;
      owned = ap (owned_version owner i) (sym same) ∙ owned;
      ran = ran;
      left = left ∙ ap (λ q. q.1.tables) rest;
    }

commit_found-open :
    (i : ℕ) (stored : List ℕ) (f : File) (v : FileVersion) (s : Session Tables)
    {r : File × FileVersion}
    → is_committed v.status ≡ false
    → (commit_found i stored (f, v) s).0 ≡ ok r
    → commit_found i stored (f, v) s ≡ commit_pending f i stored s
unfolding commit_found
commit_found-open i stored f v s c h = elim (Bool-cases (is_open v.status)) [
  | inl still_open ↦ rw (c, still_open) refl
  | inr closed ↦ absurd (err_ne_ok (sym (rw (c, closed) at h)))
]

-- The commit of a version that its owner has and that is not committed.
pub commit_upload-pending :
    (owner i : ℕ) (stored : List ℕ) (s : Session Tables) {r : File × FileVersion} {f : File}
    {v : FileVersion}
    → (commit_upload owner i stored s).0 ≡ ok r
    → owned_version owner i s.tables ≡ some (f, v)
    → is_committed v.status ≡ false
    → (b : Session Tables) × (b.tables ≡ s.tables)
      × ((commit_pending f i stored b).0 ≡ ok r)
      × ((commit_upload owner i stored s).1.tables ≡ (commit_pending f i stored b).1.tables)
commit_upload-pending owner i stored s {f} {v} h o unmarked =
    let run = commit_upload-run owner i stored s h in
    let is_found : run.found ≡ (f, v) = some-injective (sym run.owned ∙ o) in
    let same = ap (λ (p : File × FileVersion). commit_found i stored p run.start) is_found in
    let ran = ap (λ q. q.0) (sym same) ∙ run.ran in
    let opened = commit_found-open i stored f v run.start unmarked ran in
    (
      run.start,
      run.same_start,
      ap (λ q. q.0) (sym opened) ∙ ran,
      run.left ∙ ap (λ q. q.1.tables) (same ∙ opened),
    )

commit_upload-whole :
    (owner i : ℕ) (stored : List ℕ) (s : Session Tables) {r : File × FileVersion} {f : File}
    {v : FileVersion}
    → (commit_upload owner i stored s).0 ≡ ok r
    → owned_version owner i s.tables ≡ some (f, v)
    → is_committed v.status ≡ false
    → short_chunks i (commit_upload owner i stored s).1.tables ≡ 0
unfolding short_chunks is_short marked activate_file
commit_upload-whole owner i stored s h o unmarked =
    let (b, same, ran, left) = commit_upload-pending owner i stored s h o unmarked in
    let (v, t, t≡, whole, found, r≡, at_end) = commit_pending-ok _ i stored b ran in
    ap (short_chunks i) (left ∙ at_end) ∙ whole

-- When `CommitUpload` commits a version that was not committed before, each of its chunks that has
-- a fragment has at least 14 stored placements in the tables that it leaves.
pub commit_upload-covers :
    (owner i : ℕ) (stored : List ℕ) (s : Session Tables) {f g : File} {v w : FileVersion}
    (c : Chunk)
    → (commit_upload owner i stored s).0 ≡ ok (g, w)
    → owned_version owner i s.tables ≡ some (f, v)
    → is_committed v.status ≡ false
    → Memᴰ c (commit_upload owner i stored s).1.tables.chunks
    → c.version_id ≡ i
    → has_fragment (commit_upload owner i stored s).1.tables.fragments c.id ≡ true
    → commit_threshold
      ≤ stored_copies
          (commit_upload owner i stored s).1.tables.placements
          (commit_upload owner i stored s).1.tables.fragments
          c.id
unfolding short_chunks
commit_upload-covers owner i stored s {f} {v = v} c h o unmarked m mine some_fragment =
    let after = (commit_upload owner i stored s).1.tables in
    let not_marked =
      none-hit (is_short after i) after.chunks (commit_upload-whole owner i stored s h o unmarked)
        m in
    not_short after c (subst (λ (j : ℕ). is_short after j c ≡ false) (sym mine) not_marked)
      some_fragment
