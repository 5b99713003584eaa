-- ===== src/Uploads/Delete.antt =====
-- internal/store/files.go: `SoftDeleteFile` and `RenameFile`, with the LIKE of their statements.
use distributed_storage_plat.Common.{
  ℕ, Bool, true, false, ◌&&◌, ◌||◌, not, none, some, List, [], ◌∷◌, ◌++◌, ◌==◌, ltb, leb, length,
  drop, if◌then◌else◌, Result, ok, err, pure, raise, lift, ◌>>=◌, ◌>>◌,
}
use distributed_storage_plat.Common.Bytes.{same_bytes}
use distributed_storage_plat.Common.Database.{select, exec, statement, transaction}
use distributed_storage_plat.Uploads.Rows.{
  StoreError, conflict, db_error, removed, expired, VersionStatus, File, FileVersion, Tables,
  is_open, is_committed, version_of, count, update_where, exists_row, find_file, find_version,
}
use distributed_storage_plat.Uploads.Placements.{expire_fragments}
use distributed_storage_plat.Uploads.Planned.{Run, row}
use distributed_storage_plat.Uploads.Begin.{normalize_path, file_by_id, is_gone, live_at}

-- A byte 128 to 191, which continues a character of UTF-8.
continues : ℕ → Bool
continues c = leb 128 c && ltb c 192

-- The bytes after those that continue the character.
skip_character : List ℕ → List ℕ
unfolding continues
skip_character [] = []
skip_character (c ∷ cs) = let rest = skip_character cs in if continues c then rest else c ∷ cs

-- `q` holds at the start, or at a later start of a character, or at the end.
some_suffix : (List ℕ → Bool) → List ℕ → Bool
unfolding continues
some_suffix q [] = q []
some_suffix q (c ∷ cs) = let later = some_suffix q cs in not (continues c) && q (c ∷ cs) || later

-- One byte that `q` takes.
after_first : (ℕ → Bool) → (List ℕ → Bool) → List ℕ → Bool
after_first q rest [] = false
after_first q rest (c ∷ cs) = q c && rest cs

-- One character, of one or more bytes.
after_character : (List ℕ → Bool) → List ℕ → Bool
unfolding skip_character
after_character rest [] = false
after_character rest (c ∷ cs) = rest (skip_character cs)

-- `escaped` holds after a backslash. A pattern that ends in one is an error of Postgres; the
-- patterns here end in `%`.
like_from : Bool → List ℕ → List ℕ → Bool
unfolding some_suffix after_first after_character
like_from escaped [] [] = not escaped
like_from escaped [] (c ∷ text) = false
like_from true (p ∷ pattern) text = after_first (λ (c : ℕ). p == c) (like_from false pattern) text
like_from false (p ∷ pattern) text =
    let plain : List ℕ → Bool = like_from false pattern in
    let literal : List ℕ → Bool = like_from true pattern in
    if p == 37
    then some_suffix plain text
    else if p == 95
    then after_character plain text
    else if p == 92
    then literal text
    else after_first (λ (c : ℕ). p == c) plain text

-- LIKE of Postgres on UTF-8: `%` (37) stands for any characters, `_` (95) for one, and `\` (92)
-- escapes.
unfoldable pub like : List ℕ → List ℕ → Bool
unfolding like_from
like pattern text = like_from false pattern text

-- `path = $2 OR path LIKE $2 || '/%'`
unfoldable pub under : List ℕ → List ℕ → Bool
unfolding like
under folder path = same_bytes path folder || like (folder ++ 47 ∷ 37 ∷ []) path

-- The files that a delete of `f` is about: the file, or the folder and what is under it.
unfoldable pub reached : File → File → Bool
unfolding under
reached f g =
    if f.is_folder then g.bucket_id == f.bucket_id && under f.path g.path else g.id == f.id

-- The versions join their file; for a file the statement compares `file_id` itself.
unfoldable pub reached_version : File → Tables → FileVersion → Bool
unfolding reached
reached_version f t v =
    if f.is_folder
    then elim (find_file v.file_id t.files) [ none ↦ false | some g ↦ reached f g ]
    else v.file_id == f.id

unfoldable pub reached_fragment : File → Tables → ℕ → Bool
unfolding reached_version
reached_fragment f t fr = elim (version_of t fr) [
  | none ↦ false
  | some i ↦ elim (find_version i t.versions) [ none ↦ false | some v ↦ reached_version f t v ]
]

unfoldable pub set_removed : ℕ → File → File
set_removed now g = record g { status = removed; deleted_at = some now; updated_at = now }

unfoldable pub remove_files : File → Tables → Tables
unfolding set_removed reached is_gone
remove_files f t = record t {
  files =
      update_where (λ (g : File). reached f g && (not f.is_folder || not (is_gone g)))
        (set_removed t.now) t.files;
}

unfoldable pub set_expired : FileVersion → FileVersion
set_expired v = record v { status = expired }

-- `status IN ('pending', 'committed')`
unfoldable pub is_current : VersionStatus → Bool
is_current s = is_open s || is_committed s

unfoldable pub expire_versions : File → Tables → Tables
unfolding set_expired reached_version is_current
expire_versions f t = record t {
  versions =
      update_where (λ (v : FileVersion). reached_version f t v && is_current v.status) set_expired
        t.versions;
}

unfoldable pub expire_placements_of : File → Tables → Tables
unfolding reached_fragment
expire_placements_of f t = expire_fragments (reached_fragment f t) t

unfoldable pub delete_rows : File → Run (Unit {0})
delete_rows f =
    exec db_error (remove_files f)
    >> (exec db_error (expire_versions f) >> exec db_error (expire_placements_of f))

unfoldable pub soft_delete_file : ℕ → ℕ → Run (Unit {0})
soft_delete_file owner i = file_by_id owner i >>= λ f. transaction db_error (delete_rows f)

-- `count(*)` of the live rows in the way of a folder that moves from `old` to `path`.
unfoldable pub collisions : File → List ℕ → Tables → ℕ
unfolding under is_gone
collisions f path t =
    count
      (λ (g : File).
        g.bucket_id == f.bucket_id
        && (not (is_gone g) && (under path g.path && not (under f.path g.path))))
      t.files

-- `path = $1 || substr(path, length($2) + 1)`
unfoldable pub moved_path : List ℕ → List ℕ → List ℕ → List ℕ
moved_path path old p = path ++ drop (length old) p

unfoldable pub move_folder : File → List ℕ → Tables → Tables
unfolding under is_gone moved_path
move_folder f path t = record t {
  files =
      update_where
        (λ (g : File). g.bucket_id == f.bucket_id && (not (is_gone g) && under f.path g.path))
        (λ (g : File). record g { path = moved_path path f.path g.path; updated_at = t.now })
        t.files;
}

-- Two live rows at one path break the unique index.
unfoldable pub twice_at : List File → Bool
unfolding is_gone live_at
twice_at [] = false
twice_at (f ∷ fs) =
    let rest = twice_at fs in
    if not (is_gone f) && exists_row (live_at f.bucket_id f.path) fs then true else rest

unfoldable pub checked : Tables → Result StoreError (Unit {0} × Tables)
unfolding twice_at
checked t = if twice_at t.files then err conflict else ok (tt, t)

unfoldable pub move_file : File → List ℕ → Tables → Tables
move_file f path t = record t {
  files =
      update_where (λ (g : File). g.id == f.id)
        (λ (g : File). record g { path = path; updated_at = t.now }) t.files;
}

-- `SELECT ... WHERE id = $1`
unfoldable pub read_back : ℕ → Run File
read_back i = select db_error (λ (t : Tables). row (find_file i t.files))

unfoldable pub rename_found : List ℕ → File → Run File
rename_found path f =
    if same_bytes f.path path
    then pure f
    else if f.is_folder
    then (select db_error (λ (t : Tables). ok (collisions f path t)) >>= λ n.
        if ltb 0 n
        then raise conflict
        else statement db_error (λ (t : Tables). checked (move_folder f path t)) >> read_back f.id)
    else statement db_error (λ (t : Tables). checked (move_file f path t)) >> read_back f.id

-- An equal path returns without COMMIT, which changes nothing.
unfoldable pub rename_file : (List ℕ → List ℕ) → (List ℕ → List ℕ) → ℕ → ℕ → List ℕ → Run File
rename_file trim_space clean owner i raw = lift (normalize_path trim_space clean raw) >>= λ path.
    transaction db_error (file_by_id owner i >>= rename_found path)
