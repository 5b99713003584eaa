-- ===== src/Agent/Examples.antt =====
-- Tests of the fragment store on an empty one.
use distributed_storage_plat.Common.{
  ◌&&◌, ℕ, ◌≤◌, ◌≡◌, refl, inl, inr, true, false, none, List, [], ◌∷◌, arith, length, Result, ok,
  err,
}
use distributed_storage_plat.Common.Int.{pos, ◌+ℤ◌}
use distributed_storage_plat.Common.Int64.{wrap64}
use distributed_storage_plat.Common.Bytes.{same_bytes}
use distributed_storage_plat.Agent.ChunkStore.{
  row, marshal, in_json_years, ChunkStore, StoreError, FragMeta, Faults, io_error, replay, limited,
  equal_sha, meta_of, commit_put, put, get, delete, is_replay, consume_nonce,
}
use distributed_storage_plat.Agent.Stored.{IsIndexed, put-get, put-IsIndexed, delete-IsIndexed}
use distributed_storage_plat.Common.{some, take, drop, if◌then◌else◌}
use distributed_storage_plat.Agent.ChunkStore.{read_range, too_large}
use distributed_storage_plat.Agent.Ranges.{is_served, read_range_exact}
use distributed_storage_plat.Agent.Nonces.{Use, consume_all, consume_nonce_once}

-- A checksum in place of SHA-256.
abbrev sum_of : List ℕ → List ℕ
sum_of [] = 0 ∷ []
sum_of (b ∷ bs) = b ∷ sum_of bs

abbrev works : Faults
works = record {
  create = true;
  copy = true;
  flush = true;
  rename = true;
  remove = true;
  update = true;
}

abbrev empty_store : ChunkStore
empty_store = record { files = λ _. none; index = λ _. none; nonces = λ _. none }

abbrev fragment : List ℕ
fragment = 5 ∷ 6 ∷ 7 ∷ []

abbrev put_fragment : Faults → ChunkStore → Result StoreError FragMeta × ChunkStore
put_fragment f s = put sum_of f (pos 100) 4 fragment (sum_of fragment) 3 (pos 900) s

abbrev stored : ChunkStore
stored = (put_fragment works empty_store).1

abbrev stored_meta : FragMeta
stored_meta = meta_of sum_of (pos 100) (pos 900) fragment

put-ok : put_fragment works empty_store ≡ (ok stored_meta, stored)
unfolding put limited equal_sha meta_of commit_put marshal in_json_years same_bytes wrap64 ◌+ℤ◌
put-ok = refl

put-get_example :
    (length fragment ≤ 3)
    × (sum_of fragment ≡ sum_of fragment)
    × (get 4 stored ≡ (
        if in_json_years stored_meta.expires_at
          && in_json_years stored_meta.stored_at
          && in_json_years stored_meta.last_verified
        then ok (fragment, stored_meta)
        else err io_error))
put-get_example =
    put-get sum_of works (pos 100) 4 fragment (sum_of fragment) 3 (pos 900) stored_meta empty_store
      stored (omega arith) put-ok

empty-IsIndexed : IsIndexed sum_of empty_store
unfolding IsIndexed
empty-IsIndexed i r e = absurd (cc)

stored-IsIndexed : IsIndexed sum_of stored
stored-IsIndexed =
    put-IsIndexed sum_of works (pos 100) 4 fragment (sum_of fragment) 3 (pos 900) empty_store
      (inl refl) empty-IsIndexed

abbrev half : Faults
half = record works { update = false }

put-IsIndexed_example : IsIndexed sum_of (put_fragment half empty_store).1
put-IsIndexed_example =
    put-IsIndexed sum_of half (pos 100) 4 fragment (sum_of fragment) 3 (pos 900) empty_store
      (inr refl) empty-IsIndexed

delete-IsIndexed_example : IsIndexed sum_of (delete works 4 stored).1
delete-IsIndexed_example = delete-IsIndexed sum_of works 4 stored refl stored-IsIndexed

-- When the index update of a second `Put` fails, the file is removed and the first row stays.
lost_file : get 4 (put_fragment half stored).1 ≡ err io_error
unfolding put limited equal_sha meta_of commit_put marshal in_json_years same_bytes wrap64 ◌+ℤ◌ get
lost_file = refl

stored-row : (stored.index 4 ≡ some (row stored_meta)) × (stored.files 4 ≡ some fragment)
unfolding put limited equal_sha meta_of commit_put marshal in_json_years same_bytes wrap64 ◌+ℤ◌
stored-row = (refl, refl)

stored-size : stored_meta.size ≡ pos (length fragment)
unfolding meta_of
stored-size = refl

read_range_exact_example : read_range 4 (pos 1) (pos 2) stored ≡ (
    if is_served (pos 1) (pos 2) (length fragment)
    then ok (take 2 (drop 1 fragment))
    else err too_large)
read_range_exact_example =
    read_range_exact 4 (pos 1) (pos 2) fragment stored_meta stored stored-row.0 stored-row.1
      stored-size (omega arith)

-- The second 253402300800 is in the year 10000: the row of the fragment is empty then.
unreadable :
    get 4
      (put sum_of works (pos 100) 4 fragment (sum_of fragment) 3 (pos 253402300800) empty_store).1
    ≡ err io_error
unfolding put limited equal_sha meta_of commit_put marshal in_json_years same_bytes wrap64 ◌+ℤ◌ get
unreadable = refl

abbrev nonce : List ℕ
nonce = 1 ∷ 2 ∷ []

abbrev used : ChunkStore
used = (consume_nonce true (pos 100) nonce (pos 900) empty_store).1

first_use : consume_nonce true (pos 100) nonce (pos 900) empty_store ≡ (ok tt, used)
unfolding consume_nonce is_replay
first_use = refl

abbrev others : List Use
others =
    record { works = true; now = pos 200; nonce = 3 ∷ []; exp = pos 950 }
    ∷ record { works = true; now = pos 300; nonce = nonce; exp = pos 900 }
    ∷ []

consume_nonce_once_example :
    consume_nonce true (pos 400) nonce (pos 900) (consume_all others used)
    ≡ (err replay, consume_all others used)
unfolding same_bytes
consume_nonce_once_example =
    consume_nonce_once (pos 100) (pos 400) nonce (pos 900) (pos 900) true empty_store used others
      (omega arith, omega arith) first_use (inl refl, (inr refl, tt)) refl
