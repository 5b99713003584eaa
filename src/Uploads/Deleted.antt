-- ===== src/Uploads/Deleted.antt =====
-- internal/store/files.go: what `SoftDeleteFile` leaves of a file.
use distributed_storage_plat.Common.{
  ℕ, ◌≡◌, refl, sym, ap, subst, ◌∙◌, Bool, true, false, ◌&&◌, ◌||◌, not, List, [], ◌∷◌, Bool-cases,
  inl, inr, ok, ok-injective, ◌>>◌,
}
use distributed_storage_plat.Common.Database.{
  Session, exec, transaction, transaction-ok, exec-ok, then-ok,
}
use distributed_storage_plat.Uploads.Rows.{
  version_of, db_error, File, FileVersion, Placement, Tables, is_held, count, update_where, is_live,
  is_pending, is_stored, is_lost, is_open, is_committed,
}
use distributed_storage_plat.Uploads.Placements.{expire_fragments, set_expiring}
use distributed_storage_plat.Uploads.Begin.{file_by_id, is_gone}
use distributed_storage_plat.Uploads.Delete.{
  reached, reached_version, reached_fragment, remove_files, expire_versions, expire_placements_of,
  is_current, set_expired, set_removed, delete_rows, soft_delete_file,
}

-- An UPDATE that takes every row that `r` counts out of `r` leaves none.
count-update :
    {A : Type 0} (q r : A → Bool) (g : A → A) (xs : List A)
    → ((x : A) → q x ≡ true → r (g x) ≡ false)
    → ((x : A) → q x ≡ false → r x ≡ false)
    → count r (update_where q g xs) ≡ 0
unfolding count update_where
count-update q r g [] k m = refl
count-update q r g (x ∷ xs) k m = elim (Bool-cases (q x)) [
  | inl hit ↦ rw (hit, k x hit) (count-update q r g xs k m)
  | inr miss ↦ rw (miss, m x miss) (count-update q r g xs k m)
]

and_false : (a : Bool) → (a && false) ≡ false
and_false true = refl
and_false false = refl

-- The copies of fragments of the versions reached that could be read or come back.
unfoldable pub held_copies : File → Tables → ℕ
held_copies f t =
    count (λ (p : Placement). reached_fragment f t p.fragment_id && is_held p.status) t.placements

-- The versions reached that are open or committed.
unfoldable pub current_versions : File → Tables → ℕ
current_versions f t =
    count (λ (v : FileVersion). reached_version f t v && is_current v.status) t.versions

none_held : (f : File) (t : Tables) → held_copies f (expire_placements_of f t) ≡ 0
unfolding held_copies expire_placements_of expire_fragments set_expiring is_held is_live is_pending
    is_stored is_lost reached_fragment version_of
none_held f t =
    count-update (λ (p : Placement). reached_fragment f t p.fragment_id && is_held p.status)
      (λ (p : Placement). reached_fragment f t p.fragment_id && is_held p.status) set_expiring
      t.placements (λ p h. and_false (reached_fragment f t p.fragment_id)) (λ p h. h)

none_current : (f : File) (t : Tables) → current_versions f (expire_versions f t) ≡ 0
unfolding current_versions expire_versions set_expired is_current is_open is_committed
    reached_version
none_current f t =
    count-update (λ (v : FileVersion). reached_version f t v && is_current v.status)
      (λ (v : FileVersion). reached_version f t v && is_current v.status) set_expired t.versions
      (λ v h. and_false (reached_version f t v)) (λ v h. h)

-- The files reached that are not deleted.
unfoldable pub live_files : File → Tables → ℕ
live_files f t = count (λ (g : File). reached f g && not (is_gone g)) t.files

weaker : (a b c : Bool) → (a && (b || c)) ≡ false → (a && c) ≡ false
weaker true true c h = absurd (cc)
weaker true false c h = h
weaker false b c h = refl

none_live : (f : File) (t : Tables) → live_files f (remove_files f t) ≡ 0
unfolding live_files remove_files set_removed reached is_gone
none_live f t =
    count-update (λ (g : File). reached f g && (not f.is_folder || not (is_gone g)))
      (λ (g : File). reached f g && not (is_gone g)) (set_removed t.now) t.files
      (λ g h. and_false (reached f g))
      (λ g h. weaker (reached f g) (not f.is_folder) (not (is_gone g)) h)

delete_rows-ok :
    (f : File) (s : Session Tables) {u : Unit {0}}
    → (delete_rows f s).0 ≡ ok u
    → (delete_rows f s).1.tables
      ≡ expire_placements_of f (expire_versions f (remove_files f s.tables))
unfolding delete_rows
delete_rows-ok f s h =
    let (u, removed, h1, e1) =
      then-ok (exec db_error (remove_files f))
        (λ _. exec db_error (expire_versions f) >> exec db_error (expire_placements_of f)) s h in
    let s1 = (exec db_error (remove_files f) s).1 in
    let (u', expired_rows, h2, e2) =
      then-ok (exec db_error (expire_versions f)) (λ _. exec db_error (expire_placements_of f)) s1
        h1 in
    let s2 = (exec db_error (expire_versions f) s1).1 in
    ap (λ q. q.1.tables) (e1 ∙ e2)
    ∙ exec-ok db_error (expire_placements_of f) s2 h2
    ∙ ap (expire_placements_of f) (exec-ok db_error (expire_versions f) s1 expired_rows)
    ∙ ap (λ t. expire_placements_of f (expire_versions f t))
        (exec-ok db_error (remove_files f) s removed)

live_after :
    (f : File) (t : Tables)
    → live_files f (expire_placements_of f (expire_versions f (remove_files f t))) ≡ 0
unfolding live_files expire_placements_of expire_fragments expire_versions
live_after f t = none_live f t

current_after :
    (f : File) (t : Tables) → current_versions f (expire_placements_of f (expire_versions f t)) ≡ 0
unfolding current_versions expire_placements_of expire_fragments reached_version
current_after f t = none_current f t

-- When `SoftDeleteFile` returns for a file or folder, in the tables that it leaves no file that it
-- reaches is live, no version of one is pending or committed, and no copy of a fragment of one is
-- pending, stored or lost.
pub soft_delete_file-leaves_none :
    (owner i : ℕ) (s : Session Tables) {f : File} {u : Unit {0}}
    → (file_by_id owner i s).0 ≡ ok f
    → (soft_delete_file owner i s).0 ≡ ok u
    → (live_files f (soft_delete_file owner i s).1.tables ≡ 0)
      × (current_versions f (soft_delete_file owner i s).1.tables ≡ 0)
      × (held_copies f (soft_delete_file owner i s).1.tables ≡ 0)
unfolding soft_delete_file
soft_delete_file-leaves_none owner i s {f} found h =
    let (g, read, h1, e1) =
      then-ok (file_by_id owner i) (λ g. transaction db_error (delete_rows g)) s h in
    let same : g ≡ f = ok-injective (sym read ∙ found) in
    let s1 = (file_by_id owner i s).1 in
    let (b, kept, done, left) = transaction-ok db_error (delete_rows g) s1 h1 in
    let at_end = ap (λ q. q.1.tables) e1 ∙ left ∙ delete_rows-ok g b done in
    let t = remove_files g b.tables in
    subst
      (λ (x : File).
        (live_files x (soft_delete_file owner i s).1.tables ≡ 0)
        × (current_versions x (soft_delete_file owner i s).1.tables ≡ 0)
        × (held_copies x (soft_delete_file owner i s).1.tables ≡ 0))
      same
      (
        ap (live_files g) at_end ∙ live_after g b.tables,
        ap (current_versions g) at_end ∙ current_after g t,
        ap (held_copies g) at_end ∙ none_held g (expire_versions g t),
      )
