-- ===== src/Uploads/Aborted.antt =====
-- internal/store/uploads.go: what `AbortUpload` leaves behind.
use distributed_storage_plat.Common.{
  ℕ, ◌≤◌, ◌≡◌, refl, sym, ap, subst, ◌∙◌, Bool, false, ◌&&◌, not, List, [], ◌∷◌, ◌==◌, ltb,
  Bool-cases, inl, inr, ◌⊎◌, arith, ok, pure, ◌>>=◌, ◌>>◌, if◌then◌else◌,
}
use mathlib.Core.Bool.{and-false}
use distributed_storage_plat.Common.Database.{
  Session, exec, select, transaction-ok, exec-ok, select-ok, then-ok,
}
use distributed_storage_plat.Uploads.Rows.{
  db_error, aborted, FileVersion, Placement, Tables, version_of, in_version, is_open, is_pending,
  where_rows, count, update_where,
}
use distributed_storage_plat.Uploads.Placements.{drop_pending}
use distributed_storage_plat.Uploads.Planned.{Run}
use distributed_storage_plat.Uploads.Begin.{mark_aborted, stored_in, abort_upload}

-- The planned copies of a version.
unfoldable pub pending_in : ℕ → Tables → ℕ
pending_in v t =
    count (λ (p : Placement). in_version t v p.fragment_id && is_pending p.status) t.placements

-- The version, as long as it is open.
unfoldable pub open_with : ℕ → Tables → ℕ
open_with v t = count (λ (w : FileVersion). w.id == v && is_open w.status) t.versions

module _ {A : Type 0} (q : A → Bool) where
  count-dropped : (xs : List A) → count q (where_rows (λ (x : A). not (q x)) xs) ≡ 0
  unfolding count where_rows
  count-dropped [] = refl
  count-dropped (x ∷ xs) = elim (Bool-cases (q x)) [
    | inl hit ↦ rw (hit, count-dropped xs) refl
    | inr miss ↦ rw (miss, miss, count-dropped xs) refl
  ]

  count-updated :
      (g : A → A) → ((x : A) → q (g x) ≡ false) → (xs : List A) → count q (update_where q g xs) ≡ 0
  unfolding count update_where
  count-updated g k [] = refl
  count-updated g k (x ∷ xs) = elim (Bool-cases (q x)) [
    | inl hit ↦ rw (hit, k x, count-updated g k xs) refl
    | inr miss ↦ rw (miss, miss, count-updated g k xs) refl
  ]

dropped : ℕ → Tables → Tables
dropped v t = drop_pending (in_version t v) t

dropped-pending : (v : ℕ) (t : Tables) → pending_in v (dropped v t) ≡ 0
unfolding dropped pending_in drop_pending in_version version_of
dropped-pending v t =
    count-dropped (λ (p : Placement). in_version t v p.fragment_id && is_pending p.status)
      t.placements

marked-open : (v : ℕ) (t : Tables) → open_with v (mark_aborted v t) ≡ 0
unfolding open_with mark_aborted is_open
marked-open v t =
    count-updated (λ (w : FileVersion). w.id == v && is_open w.status)
      (λ (w : FileVersion). record w { status = aborted }) (λ w. and-false (w.id == v)) t.versions

marked-pending : (v : ℕ) (t : Tables) → pending_in v (mark_aborted v t) ≡ pending_in v t
unfolding pending_in mark_aborted in_version version_of
marked-pending v t = refl

-- The end of the body: nothing, where the version has stored copies.
finish : ℕ → ℕ → Run (Unit {0})
finish v stored = if ltb 0 stored then pure tt else exec db_error (mark_aborted v)

-- Nothing of the version is planned any more, and it has stored copies or is not open.
unfoldable pub IsCleared : ℕ → Tables → Type 0
IsCleared v t = (pending_in v t ≡ 0) × ((1 ≤ stored_in v t) ⊎ (open_with v t ≡ 0))

finish-IsCleared :
    (v : ℕ) (s : Session Tables) {u : Unit {0}}
    → pending_in v s.tables ≡ 0
    → (finish v (stored_in v s.tables) s).0 ≡ ok u
    → IsCleared v (finish v (stored_in v s.tables) s).1.tables
unfolding finish IsCleared
finish-IsCleared v s none_planned h = elim (Bool-cases (ltb 0 (stored_in v s.tables))) [
  | inl some_stored ↦ rw (finish, some_stored) (none_planned, inl (ground arith))
  | inr none_stored ↦
      let left = exec-ok db_error (mark_aborted v) s (rw (finish, none_stored) at h) in
      rw (finish, none_stored)
        (subst (λ (t : Tables). (pending_in v t ≡ 0) × ((1 ≤ stored_in v t) ⊎ (open_with v t ≡ 0)))
          (sym left) (marked-pending v s.tables ∙ none_planned, inr (marked-open v s.tables)))
]

pub abort_upload-IsCleared :
    (v : ℕ) (s : Session Tables) {u : Unit {0}}
    → (abort_upload v s).0 ≡ ok u
    → IsCleared v (abort_upload v s).1.tables
unfolding abort_upload finish dropped
abort_upload-IsCleared v s h =
    let drop : Run (Unit {0}) = exec db_error (dropped v) in
    let read : Run ℕ = select db_error (λ (t : Tables). ok (stored_in v t)) in
    let body : Run (Unit {0}) = drop >> (read >>= finish v) in
    let (b, same, done, left) = transaction-ok db_error body s h in
    let (u1, cut, h1, e1) = then-ok drop (λ _. read >>= finish v) b done in
    let s1 = (drop b).1 in
    let (n, counted, h2, e2) = then-ok read (finish v) s1 h1 in
    let s2 = (read s1).1 in
    let gone = exec-ok db_error (dropped v) b cut in
    let (n≡, kept) = select-ok db_error (λ (t : Tables). stored_in v t) s1 counted in
    let n2 : n ≡ stored_in v s2.tables = n≡ ∙ ap (stored_in v) (sym kept) in
    let planned : pending_in v s2.tables ≡ 0 =
      ap (pending_in v) (kept ∙ gone) ∙ dropped-pending v b.tables in
    let ran = subst (λ (k : ℕ). (finish v k s2).0 ≡ ok _) n2 h2 in
    let cleared = finish-IsCleared v s2 planned ran in
    let cleared' = subst (λ (k : ℕ). IsCleared v (finish v k s2).1.tables) (sym n2) cleared in
    subst (IsCleared v) (sym (left ∙ ap (λ q. q.1.tables) (e1 ∙ e2))) cleared'
