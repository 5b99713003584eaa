-- ===== src/Agent/ChunkStore.antt =====
-- internal/agent/store.go: the fragment directory and its bbolt index.
-- Fragment ids are numbers, and a file is named by its id: `pathFor` is injective. SHA-256 is a
-- parameter, and `Faults` says which calls to the system work. A temporary file is gone after
-- `Put`, so the state has none. Times are in seconds, as far as they are compared.
use distributed_storage_plat.Common.{
  ℕ, Bool, false, not, ◌||◌, ◌&&◌, Option, none, some, List, ltb, ◌==◌, if◌then◌else◌, length, take,
  drop, Result, ok, err,
}
use distributed_storage_plat.Common.Int.{ℤ, pos, negsuc, pos_part, ltb_ℤ, leb_ℤ}
use distributed_storage_plat.Common.Int64.{of_bits64, bits64, add64}
use distributed_storage_plat.Common.Bytes.{be, unbe, same_bytes}

pub data StoreError : Type 0 where
  not_stored replay hash_mismatch too_large io_error : StoreError

pub record FragMeta : Type 0 where
  pub size : ℤ
  pub sha256 : List ℕ
  pub expires_at : ℤ
  pub stored_at : ℤ
  pub last_verified : ℤ

-- A value of the bucket "fragments": the JSON of a row, or the empty value.
pub data IndexRow : Type 0 where
  row : FragMeta → IndexRow
  empty_row : IndexRow

-- The years 0 to 9999, which `Time.MarshalJSON` accepts, in seconds.
unfoldable pub in_json_years : ℤ → Bool
in_json_years t = leb_ℤ (negsuc 62167219199) t && ltb_ℤ t (pos 253402300800)

-- `raw, _ := json.Marshal(meta)`: a time out of these years leaves no bytes.
unfoldable pub marshal : FragMeta → IndexRow
unfolding in_json_years
marshal meta =
    if in_json_years meta.expires_at
      && in_json_years meta.stored_at
      && in_json_years meta.last_verified
    then row meta
    else empty_row

-- The files, the bucket "fragments" and the bucket "nonces".
pub record ChunkStore : Type 0 where
  pub files : ℕ → Option (List ℕ)
  pub index : ℕ → Option IndexRow
  pub nonces : List ℕ → Option (List ℕ)

-- Which calls work: up to the temporary file, the copy, `Sync` and `Close`, `Rename`, `Remove`,
-- and the bbolt transaction.
pub record Faults : Type 0 where
  pub create : Bool
  pub copy : Bool
  pub flush : Bool
  pub rename : Bool
  pub remove : Bool
  pub update : Bool

abbrev pub put_key {ℓ} : {A : Type ℓ} → (ℕ → Option A) → ℕ → Option A → ℕ → Option A
put_key m k v j = if j == k then v else m j

-- `equalSHA`, which collects the differences of the bytes.
unfoldable pub equal_sha : List ℕ → List ℕ → Bool
equal_sha a b = same_bytes a b

-- What `io.LimitReader(r, int64(maxBytes) + 1)` lets through.
unfoldable pub limited : ℕ → List ℕ → List ℕ
limited max_bytes stream = take (pos_part (add64 (of_bits64 max_bytes) (pos 1))) stream

module _ (hash : List ℕ → List ℕ) where
  unfoldable pub meta_of : ℤ → ℤ → List ℕ → FragMeta
  meta_of now expires body = record {
    size = pos (length body);
    sha256 = hash body;
    expires_at = expires;
    stored_at = now;
    last_verified = now;
  }

  -- The renamed file, and the index row or, when that fails, the removed file.
  unfoldable pub commit_put :
      Faults → ℕ → List ℕ → FragMeta → ChunkStore → Result StoreError FragMeta × ChunkStore
  unfolding marshal
  commit_put f i body meta s =
      if not f.rename
      then (err io_error, s)
      else if f.update
      then (
        ok meta,
        record s {
          files = put_key s.files i (some body);
          index = put_key s.index i (some (marshal meta));
        },
      )
      else (
        err io_error,
        record s { files = put_key s.files i (if f.remove then none else some body) },
      )

  unfoldable pub put :
      Faults
      → ℤ
      → ℕ
      → List ℕ
      → List ℕ
      → ℕ
      → ℤ
      → ChunkStore
      → Result StoreError FragMeta × ChunkStore
  unfolding limited equal_sha meta_of commit_put
  put f now i stream want_sha max_bytes expires s =
      let body = limited max_bytes stream in
      if not f.create
      then (err io_error, s)
      else if not f.copy
      then (err io_error, s)
      else if ltb max_bytes (length body)
      then (err too_large, s)
      else if not (equal_sha want_sha (hash body))
      then (err hash_mismatch, s)
      else if not f.flush
      then (err io_error, s)
      else commit_put f i body (meta_of now expires body) s

-- The file, which the caller reads, with the index row; `json.Unmarshal` refuses no bytes.
unfoldable pub get : ℕ → ChunkStore → Result StoreError (List ℕ × FragMeta)
get i s = elim (s.index i) [
  | none ↦ err not_stored
  | some empty_row ↦ err io_error
  | some (row meta) ↦ elim (s.files i) [ none ↦ err io_error | some body ↦ ok (body, meta) ]
]

abbrev pub max_challenge_range : ℤ
max_challenge_range = pos 65536

-- The bytes at an offset; `ReadAt` fails when the file ends before.
unfoldable pub read_at : ℤ → ℤ → List ℕ → Result StoreError (List ℕ)
read_at offset len body =
    let buf = take (pos_part len) (drop (pos_part offset) body) in
    if length buf == pos_part len then ok buf else err io_error

unfoldable pub range_of : ℤ → ℤ → List ℕ × FragMeta → Result StoreError (List ℕ)
range_of offset len (body, meta) =
    if ltb_ℤ offset (pos 0) || ltb_ℤ meta.size offset || ltb_ℤ meta.size (add64 offset len)
    then err too_large
    else read_at offset len body

unfoldable pub read_range : ℕ → ℤ → ℤ → ChunkStore → Result StoreError (List ℕ)
unfolding read_at range_of get
read_range i offset len s =
    if leb_ℤ len (pos 0) || ltb_ℤ max_challenge_range len
    then err too_large
    else elim (get i s) [ err e ↦ err e | ok got ↦ range_of offset len got ]

unfoldable pub delete : Faults → ℕ → ChunkStore → Result StoreError (Unit {0}) × ChunkStore
delete f i s =
    let t = if f.remove then record s { files = put_key s.files i none } else s in
    if f.update then (ok tt, record t { index = put_key t.index i none }) else (err io_error, t)

-- A recorded nonce is a replay while the time is before its recorded expiry.
unfoldable pub is_replay : ℤ → Option (List ℕ) → Bool
is_replay now none = false
is_replay now (some v) = ltb_ℤ now (of_bits64 (unbe v))

unfoldable pub consume_nonce :
    Bool → ℤ → List ℕ → ℤ → ChunkStore → Result StoreError (Unit {0}) × ChunkStore
unfolding is_replay
consume_nonce works now nonce exp s =
    if not works
    then (err io_error, s)
    else if is_replay now (s.nonces nonce)
    then (err replay, s)
    else (
      ok tt,
      record s {
        nonces = λ k. if same_bytes k nonce then some (be 8 (bits64 exp)) else s.nonces k;
      },
    )
