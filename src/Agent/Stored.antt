-- ===== src/Agent/Stored.antt =====
-- internal/agent/store.go: what the index says of the files.
use distributed_storage_plat.Common.{
  ℕ, suc, ◌≤◌, ◌<◌, ◌≡◌, refl, sym, ap, subst, ◌∙◌, Bool, true, false, Bool-cases, inl, inr, ◌⊎◌,
  Option, none, some, List, arith, ltb, ◌==◌, if◌then◌else◌, length, take, length-take, take-short,
  ok, err, ok-injective, err_ne_ok, Result, ◌&&◌,
}
use distributed_storage_plat.Common.Int.{ℤ, ◌+ℤ◌, pos, pos_part}
use distributed_storage_plat.Common.Int64.{i64_lim, add64, of_bits64, wrap64}
use distributed_storage_plat.Common.Bytes.{same_bytes, same_bytes-eq}
use distributed_storage_plat.Agent.ChunkStore.{
  ChunkStore, FragMeta, IndexRow, row, empty_row, in_json_years, marshal, io_error, Faults,
  StoreError, put_key, equal_sha, limited, meta_of, commit_put, put, get, delete,
}

some-injective : {A : Type 0} {x y : A} → some x ≡ some y → x ≡ y
some-injective h = cc

self_eq : (i : ℕ) → (i == i) ≡ true
self_eq i = ground arith

put_key_self : {A : Type 0} → (m : ℕ → Option A) (i : ℕ) (v : Option A) → put_key m i v i ≡ v
put_key_self m i v = ap (λ b. if b then v else m i) (self_eq i)

get-found :
    (i : ℕ) (s : ChunkStore) (body : List ℕ) (meta : FragMeta)
    → s.files i ≡ some body
    → s.index i ≡ some (row meta)
    → get i s ≡ ok (body, meta)
unfolding get
get-found i s body meta h k = rw (get, k, h) refl

within : (a b : ℕ) → ltb a b ≡ false → b ≤ a
within a b h = ground arith

equal_sha-same : (a b : List ℕ) → equal_sha a b ≡ true → same_bytes a b ≡ true
unfolding equal_sha
equal_sha-same a b h = h

failed : {e : StoreError} {m : FragMeta} → err e ≡ (ok m) → ⊥
failed h = err_ne_ok (sym h)

take-whole : (n : ℕ) (xs : List ℕ) → length (take (suc n) xs) ≤ n → take (suc n) xs ≡ xs
take-whole n xs h = take-short (suc n) xs (omega (arith, length-take (suc n) xs))

-- A stream that stays within a limit below 2 ^ 63 - 1 is read as a whole.
limited-whole :
    (max : ℕ) (stream : List ℕ)
    → suc max < i64_lim
    → length (limited max stream) ≤ max
    → limited max stream ≡ stream
unfolding limited wrap64 ◌+ℤ◌
limited-whole max stream r h =
    let n : pos_part (add64 (of_bits64 max) (pos 1)) ≡ suc max = next max r in
    ap (λ k. take k stream) n
    ∙ take-whole max stream (subst (λ k. length (take k stream) ≤ max) n h)
  where
    next : (max : ℕ) → suc max < i64_lim → pos_part (add64 (of_bits64 max) (pos 1)) ≡ suc max
    next max r = ground arith

module _ (hash : List ℕ → List ℕ) where
  -- A row has the size and the hash of the file; an empty row has neither.
  unfoldable pub IsRowOf : IndexRow → List ℕ → Type 0
  IsRowOf (row meta) body = (meta.size ≡ pos (length body)) × (meta.sha256 ≡ hash body)
  IsRowOf empty_row body = Unit {0}

  -- Every indexed fragment has a file, of the indexed size and hash.
  unfoldable pub IsIndexed : ChunkStore → Type 0
  IsIndexed s =
      (i : ℕ) (r : IndexRow)
      → s.index i ≡ some r
      → (body : List ℕ) × (s.files i ≡ some body) × IsRowOf r body

  commit_put-ok :
      (f : Faults) (i : ℕ) (body : List ℕ) (meta m : FragMeta) (s t : ChunkStore)
      → commit_put hash f i body meta s ≡ (ok m, t)
      → (m ≡ meta)
        × (t ≡ record s {
          files = put_key s.files i (some body);
          index = put_key s.index i (some (marshal meta));
        })
  unfolding commit_put
  commit_put-ok f i body meta m s t h = elim (Bool-cases f.rename) [
    | inr bad ↦ absurd (failed (ap (λ p. p.0) (rw (commit_put, bad) at h)))
    | inl moved ↦ elim (Bool-cases f.update) [
      | inr bad ↦ absurd (failed (ap (λ p. p.0) (rw (commit_put, moved, bad) at h)))
      | inl done ↦ (
        sym (ok-injective (ap (λ p. p.0) (rw (commit_put, moved, done) at h))),
        sym (ap (λ p. p.1) (rw (commit_put, moved, done) at h)),
      )
    ]
  ]

  put-ok :
      (f : Faults) (now : ℤ) (i : ℕ) (stream want : List ℕ) (max : ℕ) (expires : ℤ) (m : FragMeta)
      (s t : ChunkStore)
      → put hash f now i stream want max expires s ≡ (ok m, t)
      → (length (limited max stream) ≤ max)
        × (want ≡ hash (limited max stream))
        × (commit_put hash f i
              (limited max stream)
              (meta_of hash now expires (limited max stream))
              s
            ≡ (ok m, t))
  unfolding put
  put-ok f now i stream want max expires m s t h = elim (Bool-cases f.create) [
    | inr bad ↦ absurd (failed (ap (λ p. p.0) (rw (put, bad) at h)))
    | inl c1 ↦ elim (Bool-cases f.copy) [
      | inr bad ↦ absurd (failed (ap (λ p. p.0) (rw (put, c1, bad) at h)))
      | inl c2 ↦ elim (Bool-cases (ltb max (length (limited max stream)))) [
        | inl bad ↦ absurd (failed (ap (λ p. p.0) (rw (put, c1, c2, bad) at h)))
        | inr small ↦ elim (Bool-cases (equal_sha want (hash (limited max stream)))) [
          | inr bad ↦ absurd (failed (ap (λ p. p.0) (rw (put, c1, c2, small, bad) at h)))
          | inl same ↦ elim (Bool-cases f.flush) [
            | inr bad ↦ absurd (failed (ap (λ p. p.0) (rw (put, c1, c2, small, same, bad) at h)))
            | inl c3 ↦ (
              within max (length (limited max stream)) small,
              same_bytes-eq want (hash (limited max stream)) (equal_sha-same _ _ same),
              rw (put, c1, c2, small, same, c3) at h,
            )
          ]
        ]
      ]
    ]
  ]

  -- What `Get` returns for a stored body with a row.
  read_back : List ℕ → FragMeta → Result StoreError (List ℕ × FragMeta)
  read_back body m =
      if in_json_years m.expires_at && in_json_years m.stored_at && in_json_years m.last_verified
      then ok (body, m)
      else err io_error

  get-marshal :
      (i : ℕ) (s : ChunkStore) (body : List ℕ) (m : FragMeta)
      → s.files i ≡ some body
      → s.index i ≡ some (marshal m)
      → get i s ≡ read_back body m
  unfolding get marshal read_back
  get-marshal i s body m h k =
      elim (Bool-cases (
        in_json_years m.expires_at && in_json_years m.stored_at && in_json_years m.last_verified)) [
          | inl good ↦ rw (get, k, marshal, good, h) refl
          | inr bad ↦ rw (get, k, marshal, bad) refl
        ]

  -- A `Put` that succeeds stored the whole stream, for a limit below 2 ^ 63 - 1: it is within the
  -- limit and has the wanted hash. `Get` then returns it with the row that `Put` returned if all
  -- times of the row, the expiry among them, are in the years 0 to 9999, and fails otherwise.
  pub put-get :
      (f : Faults) (now : ℤ) (i : ℕ) (stream want : List ℕ) (max : ℕ) (expires : ℤ) (m : FragMeta)
      (s t : ChunkStore)
      → suc max < i64_lim
      → put hash f now i stream want max expires s ≡ (ok m, t)
      → (length stream ≤ max)
        × (want ≡ hash stream)
        × (get i t ≡ (
            if in_json_years m.expires_at
              && in_json_years m.stored_at
              && in_json_years m.last_verified
            then ok (stream, m)
            else err io_error))
  unfolding read_back
  put-get f now i stream want max expires m s t r h =
      let (small, same, h1) = put-ok f now i stream want max expires m s t h in
      let body : List ℕ = limited max stream in
      let (made, store) = commit_put-ok f i body _ m s t h1 in
      let whole : body ≡ stream = limited-whole max stream r small in
      let file : t.files i ≡ some body =
        ap (λ (u : ChunkStore). u.files i) store ∙ put_key_self s.files i (some body) in
      let found : t.index i ≡ some (marshal m) =
        ap (λ (u : ChunkStore). u.index i) store
        ∙ put_key_self s.index i (some (marshal (meta_of hash now expires body)))
        ∙ ap (λ (x : FragMeta). some (marshal x)) (sym made) in
      (
        subst (λ b. length b ≤ max) whole small,
        same ∙ ap hash whole,
        get-marshal i t body m file found ∙ ap (λ b. read_back b m) whole,
      )

  -- What `IsIndexed` says of one key, with the lookups given.
  Indexed : Option IndexRow → Option (List ℕ) → Type 0
  Indexed found file =
      (r : IndexRow) → found ≡ some r → (body : List ℕ) × (file ≡ some body) × IsRowOf r body

  -- Setting a file together with its row, and the row alone where there is none.
  Indexed-set :
      (s : ChunkStore) (i j : ℕ) (found : Option IndexRow) (file : Option (List ℕ))
      → IsIndexed s
      → Indexed found file
      → Indexed (put_key s.index i found j) (put_key s.files i file j)
  unfolding IsIndexed Indexed
  Indexed-set s i j found file h k = go (j == i)
    where
      go : (b : Bool) → Indexed (if b then found else s.index j) (if b then file else s.files j)
      go true = k
      go false = h j

  fresh_IsRowOf :
      (now expires : ℤ) (body : List ℕ) → IsRowOf (marshal (meta_of hash now expires body)) body
  unfolding IsRowOf marshal meta_of
  fresh_IsRowOf now expires body =
      elim (Bool-cases (in_json_years expires && in_json_years now && in_json_years now)) [
        | inl good ↦ rw (marshal, good) (refl, refl)
        | inr bad ↦ rw (marshal, bad) tt
      ]

  fresh_row :
      (now expires : ℤ) (body : List ℕ)
      → Indexed (some (marshal (meta_of hash now expires body))) (some body)
  unfolding Indexed
  fresh_row now expires body r e = (
    body,
    refl,
    subst (λ (q : IndexRow). IsRowOf q body) (some-injective e) (fresh_IsRowOf now expires body),
  )

  no_row : (file : Option (List ℕ)) → Indexed none file
  unfolding Indexed
  no_row file r e = absurd (cc)

  Indexed-lost :
      (s : ChunkStore) (i j : ℕ) (file : Option (List ℕ))
      → IsIndexed s
      → s.index i ≡ none
      → Indexed (s.index j) (put_key s.files i file j)
  unfolding IsIndexed Indexed
  Indexed-lost s i j file h e = go (j == i) refl
    where
      go : (b : Bool) → (j == i) ≡ b → Indexed (s.index j) (if b then file else s.files j)
      go true same =
          let at_i : j ≡ i = ground arith in
          subst (λ r. Indexed r file) (sym (ap s.index at_i ∙ e)) (no_row file)
      go false other = h j

  commit_put-IsIndexed :
      (f : Faults) (i : ℕ) (body : List ℕ) (meta : FragMeta) (s : ChunkStore)
      → (f.update ≡ true) ⊎ (s.index i ≡ none)
      → IsIndexed s
      → Indexed (some (marshal meta)) (some body)
      → IsIndexed (commit_put hash f i body meta s).1
  unfolding commit_put IsIndexed Indexed
  commit_put-IsIndexed f i body meta s new h k = elim (Bool-cases f.rename) [
    | inr bad ↦ rw (commit_put, bad) h
    | inl moved ↦ elim (Bool-cases f.update) [
      | inl done ↦ rw (commit_put, moved, done) (λ j. Indexed-set s i j _ _ h k)
      | inr lost ↦
          rw (commit_put, moved, lost)
            (λ j.
              Indexed-lost s i j _ h
                (elim new [ inl done ↦ absurd (cc) | inr none_yet ↦ none_yet ]))
    ]
  ]

  -- `Put` keeps the index true: every indexed fragment has a file of the indexed size and hash
  -- afterwards, with or without an error, when the index update works or the fragment was not
  -- indexed before.
  pub put-IsIndexed :
      (f : Faults) (now : ℤ) (i : ℕ) (stream want : List ℕ) (max : ℕ) (expires : ℤ) (s : ChunkStore)
      → (f.update ≡ true) ⊎ (s.index i ≡ none)
      → IsIndexed s
      → IsIndexed (put hash f now i stream want max expires s).1
  unfolding put
  put-IsIndexed f now i stream want max expires s new h =
      let body : List ℕ = limited max stream in
      let done =
        commit_put-IsIndexed f i body (meta_of hash now expires body) s new h
          (fresh_row now expires body) in
      elim (Bool-cases f.create) [
        | inr bad ↦ rw (put, bad) h
        | inl c1 ↦ elim (Bool-cases f.copy) [
          | inr bad ↦ rw (put, c1, bad) h
          | inl c2 ↦ elim (Bool-cases (ltb max (length body))) [
            | inl bad ↦ rw (put, c1, c2, bad) h
            | inr small ↦ elim (Bool-cases (equal_sha want (hash body))) [
              | inr bad ↦ rw (put, c1, c2, small, bad) h
              | inl same ↦ elim (Bool-cases f.flush) [
                | inr bad ↦ rw (put, c1, c2, small, same, bad) h
                | inl c3 ↦ rw (put, c1, c2, small, same, c3) done
              ]
            ]
          ]
        ]
      ]

  -- `Delete` keeps the index true, when its index update works.
  pub delete-IsIndexed :
      (f : Faults) (i : ℕ) (s : ChunkStore)
      → f.update ≡ true
      → IsIndexed s
      → IsIndexed (delete f i s).1
  unfolding delete IsIndexed Indexed
  delete-IsIndexed f i s e h = elim (Bool-cases f.remove) [
    | inl gone ↦ rw (delete, e, gone) (λ j. Indexed-set s i j none none h (no_row none))
    | inr left ↦ rw (delete, e, left) (λ j. go j (j == i))
  ]
    where
      go : (j : ℕ) (b : Bool) → Indexed (if b then none else s.index j) (s.files j)
      go j true = no_row (s.files j)
      go j false = h j
