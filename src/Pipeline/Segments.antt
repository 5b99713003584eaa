-- ===== src/Pipeline/Segments.antt =====
-- internal/pipeline/pipeline.go: the segments of `Encrypt` and `Decrypt`.
-- AES-GCM is a parameter. Streams are byte strings, and reading and writing them does not fail;
-- `size` is the segment size of the plaintext.
use distributed_storage_plat.Common.{
  ℕ, zero, suc, ◌+◌, Bool, true, false, not, ◌||◌, Option, none, some, List, [], ◌∷◌, ◌++◌, ltb,
  ◌==◌, if◌then◌else◌, length, take, drop, Result, ok, err,
}
use distributed_storage_plat.Common.Bytes.{be, same_bytes}

-- `cipher.AEAD`: nonce, text and additional data.
pub record Aead : Type 0 where
  pub seal : List ℕ → List ℕ → List ℕ → List ℕ
  pub open_sealed : List ℕ → List ℕ → List ℕ → Option (List ℕ)

pub data PipelineError : Type 0 where
  auth truncated key_error no_entropy : PipelineError

abbrev pub segment_size : ℕ
segment_size = 65536

abbrev pub gcm_tag_size : ℕ
gcm_tag_size = 16

-- The prefix has 4 bytes.
unfoldable pub segment_nonce : List ℕ → ℕ → List ℕ
segment_nonce prefix seq = prefix ++ be 8 seq

unfoldable pub aad : ℕ → Bool → List ℕ
aad seq more = be 8 seq ++ (if more then 1 else 0) ∷ []

module _ (aead : Aead) (size : ℕ) (prefix : List ℕ) where
  unfoldable pub write_seg : ℕ → List ℕ → Bool → List ℕ
  write_seg seq plain more = aead.seal (segment_nonce prefix seq) plain (aad seq more)

  -- The loop of `Encrypt`, with what is left of the plaintext and the pending segment.
  unfoldable pub encrypt_loop : ℕ → List ℕ → Option (List ℕ) → ℕ → List ℕ
  encrypt_loop zero rest pending seq = []
  encrypt_loop (suc fuel) rest none seq =
      let buf = take size rest in
      let more = encrypt_loop fuel (drop size rest) (some buf) seq in
      if length buf == 0
      then write_seg 0 [] false
      else if length buf == size
      then more
      else write_seg seq buf false
  encrypt_loop (suc fuel) rest (some p) seq =
      let buf = take size rest in
      let more = encrypt_loop fuel (drop size rest) (some buf) (suc seq) in
      if length buf == 0
      then write_seg seq p false
      else if length buf == size
      then write_seg seq p true ++ more
      else write_seg seq p true ++ write_seg (suc seq) buf false

  unfoldable pub open_segment : ℕ → List ℕ → Bool → Result PipelineError (List ℕ)
  open_segment seq sealed more =
      if ltb (length sealed) gcm_tag_size
      then err truncated
      else elim (aead.open_sealed (segment_nonce prefix seq) sealed (aad seq more)) [
        | none ↦ err auth
        | some plain ↦ ok plain
      ]

  -- A segment is written to `dst`, and the run goes on; or it stops with an error.
  unfoldable pub then_write :
      Result PipelineError (List ℕ)
      → Result PipelineError (Unit {0}) × List ℕ
      → Result PipelineError (Unit {0}) × List ℕ
  then_write (err e) run = (err e, [])
  then_write (ok plain) (r, out) = (r, plain ++ out)

  -- The loop of `Decrypt`, with what is left of the ciphertext and the pending segment.
  unfoldable pub decrypt_loop :
      ℕ → List ℕ → Option (List ℕ) → ℕ → Result PipelineError (Unit {0}) × List ℕ
  decrypt_loop zero rest pending seq = (err truncated, [])
  decrypt_loop (suc fuel) rest none seq =
      let buf = take (size + gcm_tag_size) rest in
      let more = decrypt_loop fuel (drop (size + gcm_tag_size) rest) (some buf) seq in
      if length buf == 0
      then (err truncated, [])
      else if length buf == size + gcm_tag_size
      then more
      else then_write (open_segment seq buf false) (ok tt, [])
  decrypt_loop (suc fuel) rest (some p) seq =
      let buf = take (size + gcm_tag_size) rest in
      let more = decrypt_loop fuel (drop (size + gcm_tag_size) rest) (some buf) (suc seq) in
      if length buf == 0
      then then_write (open_segment seq p false) (ok tt, [])
      else if length buf == size + gcm_tag_size
      then then_write (open_segment seq p true) more
      else then_write (open_segment seq p true)
          (then_write (open_segment (suc seq) buf false) (ok tt, []))

-- `gcm` is the cipher of a key, `entropy` the random nonce prefix or `none` for an error, and `fuel`
-- bounds the rounds of the loop. Of the results, the prefix and what was written to `dst`.
unfoldable pub encrypt :
    (List ℕ → Aead) → ℕ → List ℕ → Option (List ℕ) → List ℕ → Result PipelineError (List ℕ × List ℕ)
encrypt gcm fuel fk entropy src = if not (length fk == 32) then err key_error else elim entropy [
  | none ↦ err no_entropy
  | some prefix ↦ ok (prefix, prefix ++ encrypt_loop (gcm fk) segment_size prefix fuel src none 0)
]

-- The result with what was written to `dst`.
unfoldable pub decrypt :
    (List ℕ → Aead) → ℕ → List ℕ → List ℕ → List ℕ → Result PipelineError (Unit {0}) × List ℕ
decrypt gcm fuel fk prefix src =
    if not (length fk == 32) || not (length prefix == 4)
    then (err key_error, [])
    else if ltb (length src) 4
    then (err truncated, [])
    else if not (same_bytes (take 4 src) prefix)
    then (err auth, [])
    else decrypt_loop (gcm fk) segment_size prefix fuel (drop 4 src) none 0
