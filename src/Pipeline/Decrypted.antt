-- ===== src/Pipeline/Decrypted.antt =====
-- internal/pipeline/pipeline.go: `Decrypt` gives back what `Encrypt` took.
use distributed_storage_plat.Common.{
  ℕ, zero, suc, ◌+◌, ◌<◌, ◌≡◌, refl, sym, ap, ◌∙◌, Bool, true, false, Bool-cases, inl, inr, none,
  some, List, [], ◌∷◌, ◌++◌, arith, ltb, ◌==◌, length, take, drop, length-append, length-take,
  length-drop, take-append, drop-append, take-append-drop, take-short, ok, ok-injective, err_ne_ok,
  subst,
}
use distributed_storage_plat.Pipeline.Segments.{
  Aead, segment_size, encrypt, decrypt, gcm_tag_size, segment_nonce, aad, write_seg, encrypt_loop,
  open_segment, then_write, decrypt_loop,
}
use mathlib.Core.List.{append-nil}
use distributed_storage_plat.Common.Bytes.{same_bytes_refl}

-- What the documentation of AES-GCM says: the tag adds 16 bytes, and opening inverts sealing.
pub record IsAead (aead : Aead) : Type 0 where
  pub grows :
      (nonce plain extra : List ℕ) → length (aead.seal nonce plain extra) ≡ length plain + 16
  pub opens :
      (nonce plain extra : List ℕ)
      → aead.open_sealed nonce (aead.seal nonce plain extra) extra ≡ some plain

empty_of : (xs : List ℕ) (n : ℕ) → 0 < n → (length (take n xs) == 0) ≡ true → xs ≡ []
empty_of [] n h e = refl
empty_of (x ∷ xs) zero h e = absurd (omega arith)
empty_of (x ∷ xs) (suc n) h e = absurd (ground arith)

no_bytes : (n : ℕ) → take {A = ℕ} n [] ≡ []
no_bytes zero = refl
no_bytes (suc n) = refl

shrinks :
    (n : ℕ) (xs : List ℕ) (fuel : ℕ)
    → 0 < n
    → length xs < suc fuel
    → (length (take n xs) == 0) ≡ false
    → length (drop n xs) < fuel
shrinks n xs fuel p h e = ground (arith, length-take n xs, length-drop n xs)

below : (n : ℕ) (xs : List ℕ) → (length (take n xs) == n) ≡ false → length (take n xs) < n
below n xs e = ground (arith, length-take n xs)

short_read : (n : ℕ) (xs : List ℕ) → (length (take n xs) == n) ≡ false → take n xs ≡ xs
short_read n xs e = take-short n xs (ground (arith, length-take n xs))

decrypt_read :
    (gcm : List ℕ → Aead) (fk prefix plain body : List ℕ)
    → (length fk == 32) ≡ true
    → length prefix ≡ 4
    → decrypt_loop (gcm fk) segment_size prefix (suc (length plain)) body none 0 ≡ (ok tt, plain)
    → decrypt gcm (suc (length plain)) fk prefix (prefix ++ body) ≡ (ok tt, plain)
unfolding decrypt
decrypt_read gcm fk prefix plain body key four h =
    let size_4 : (length prefix == 4) ≡ true = ground arith in
    let long : ltb (length (prefix ++ body)) 4 ≡ false =
      ground (arith, length-append prefix body) in
    rw
      (
        decrypt,
        key,
        size_4,
        long,
        take-append 4 prefix body four,
        drop-append 4 prefix body four,
        same_bytes_refl prefix,
      )
      h

module _ (aead : Aead) (size : ℕ) (prefix : List ℕ) (good : IsAead aead)
    (some_size : 0 < size) where
  open_written :
      (seq : ℕ) (plain : List ℕ) (more : Bool)
      → open_segment aead size prefix seq (write_seg aead size prefix seq plain more) more
        ≡ ok plain
  unfolding open_segment write_seg
  open_written seq plain more =
      let long : ltb (length (aead.seal (segment_nonce prefix seq) plain (aad seq more))) 16
          ≡ false =
        ground (arith, good.grows (segment_nonce prefix seq) plain (aad seq more)) in
      rw (long, good.opens (segment_nonce prefix seq) plain (aad seq more)) refl

  length-write_seg :
      (seq : ℕ) (plain : List ℕ) (more : Bool)
      → length (write_seg aead size prefix seq plain more) ≡ length plain + 16
  unfolding write_seg
  length-write_seg seq plain more = good.grows (segment_nonce prefix seq) plain (aad seq more)

  full_size :
      (seq : ℕ) (p : List ℕ) (more : Bool)
      → length p ≡ size
      → length (write_seg aead size prefix seq p more) ≡ size + 16
  full_size seq p more l = omega (arith, length-write_seg seq p more)

  some_bytes : (seq : ℕ) (p : List ℕ) → 0 < length (write_seg aead size prefix seq p false)
  some_bytes seq p = omega (arith, length-write_seg seq p false)

  short_size :
      (seq : ℕ) (p : List ℕ)
      → length p < size
      → length (write_seg aead size prefix seq p false) < size + 16
  short_size seq p l = omega (arith, length-write_seg seq p false)

  -- The steps of the loop of `Decrypt`, by what it reads.
  read_nothing :
      (fuel : ℕ) (p : List ℕ) (seq : ℕ)
      → decrypt_loop aead size prefix (suc fuel) [] (some p) seq
        ≡ then_write aead size prefix (open_segment aead size prefix seq p false) (ok tt, [])
  unfolding decrypt_loop
  read_nothing fuel p seq = rw (no_bytes (size + gcm_tag_size)) refl

  read_full :
      (fuel : ℕ) (x t p : List ℕ) (seq : ℕ)
      → length x ≡ size + 16
      → decrypt_loop aead size prefix (suc fuel) (x ++ t) (some p) seq
        ≡ then_write aead size prefix
            (open_segment aead size prefix seq p true)
            (decrypt_loop aead size prefix fuel t (some x) (suc seq))
  unfolding decrypt_loop
  read_full fuel x t p seq l =
      let a : take (size + 16) (x ++ t) ≡ x = take-append (size + 16) x t l in
      let b : drop (size + 16) (x ++ t) ≡ t = drop-append (size + 16) x t l in
      let c : (length x == 0) ≡ false = ground arith in
      let d : (length x == size + 16) ≡ true = ground arith in rw (a, b, c, d) refl

  read_first :
      (fuel : ℕ) (x t : List ℕ) (seq : ℕ)
      → length x ≡ size + 16
      → decrypt_loop aead size prefix (suc fuel) (x ++ t) none seq
        ≡ decrypt_loop aead size prefix fuel t (some x) seq
  unfolding decrypt_loop
  read_first fuel x t seq l =
      let a : take (size + 16) (x ++ t) ≡ x = take-append (size + 16) x t l in
      let b : drop (size + 16) (x ++ t) ≡ t = drop-append (size + 16) x t l in
      let c : (length x == 0) ≡ false = ground arith in
      let d : (length x == size + 16) ≡ true = ground arith in rw (a, b, c, d) refl

  read_last :
      (fuel : ℕ) (x p : List ℕ) (seq : ℕ)
      → 0 < length x
      → length x < size + 16
      → decrypt_loop aead size prefix (suc fuel) x (some p) seq
        ≡ then_write aead size prefix (open_segment aead size prefix seq p true) (
            then_write aead size prefix
              (open_segment aead size prefix (suc seq) x false)
              (ok tt, []))
  unfolding decrypt_loop
  read_last fuel x p seq some_bytes short =
      let a : take (size + 16) x ≡ x = take-short (size + 16) x (omega arith) in
      let c : (length x == 0) ≡ false = ground arith in
      let d : (length x == size + 16) ≡ false = ground arith in rw (a, c, d) refl

  read_only :
      (fuel : ℕ) (x : List ℕ) (seq : ℕ)
      → 0 < length x
      → length x < size + 16
      → decrypt_loop aead size prefix (suc fuel) x none seq
        ≡ then_write aead size prefix (open_segment aead size prefix seq x false) (ok tt, [])
  unfolding decrypt_loop
  read_only fuel x seq some_bytes short =
      let a : take (size + 16) x ≡ x = take-short (size + 16) x (omega arith) in
      let c : (length x == 0) ≡ false = ground arith in
      let d : (length x == size + 16) ≡ false = ground arith in rw (a, c, d) refl

  -- What the loop of `Encrypt` writes with a full pending segment: that segment, and a rest that the
  -- loop of `Decrypt`, with the segment pending, reads back.
  record Reads (p rest : List ℕ) (fuel : ℕ) (seq : ℕ) (cipher : List ℕ) : Type 0 where
    more : Bool
    tail : List ℕ
    splits : cipher ≡ write_seg aead size prefix seq p more ++ tail
    plain :
        decrypt_loop aead size prefix fuel tail (some (write_seg aead size prefix seq p more)) seq
        ≡ (ok tt, p ++ rest)

  encrypt_loop-Reads :
      (fuel : ℕ) (rest p : List ℕ) (seq : ℕ)
      → length p ≡ size
      → length rest < fuel
      → Reads p rest fuel seq (encrypt_loop aead size prefix fuel rest (some p) seq)
  unfolding encrypt_loop then_write
  encrypt_loop-Reads zero rest p seq l h = absurd (omega arith)
  encrypt_loop-Reads (suc fuel) rest p seq l h =
      let buf : List ℕ = take size rest in
      let left : List ℕ = drop size rest in
      let whole : take size rest ++ drop size rest ≡ rest = take-append-drop size rest in
      elim (Bool-cases (length buf == 0)) [
        | inl done ↦ record {
          more = false;
          tail = [];
          splits = rw (encrypt_loop, done) (sym (append-nil _));
          plain =
              read_nothing fuel (write_seg aead size prefix seq p false) seq
              ∙ ap (λ o. then_write aead size prefix o (ok tt, [])) (open_written seq p false)
              ∙ ap (λ (r : List ℕ). (ok tt, p ++ r)) (sym (empty_of rest size some_size done));
        }
        | inr some_left ↦ elim (Bool-cases (length buf == size)) [
          | inl full ↦
              let next =
                encrypt_loop-Reads fuel left buf (suc seq) (ground arith)
                  (shrinks size rest fuel some_size h some_left) in
              record {
                more = true;
                tail = encrypt_loop aead size prefix fuel left (some buf) (suc seq);
                splits = rw (encrypt_loop, some_left, full) refl;
                plain =
                    ap
                      (λ (t : List ℕ).
                        decrypt_loop aead size prefix (suc fuel) t
                          (some (write_seg aead size prefix seq p true)) seq)
                      next.splits
                    ∙ read_full fuel (write_seg aead size prefix (suc seq) buf next.more) next.tail
                        (write_seg aead size prefix seq p true) seq
                        (full_size (suc seq) buf next.more (ground arith))
                    ∙ ap
                        (λ o. then_write aead size prefix o (
                          decrypt_loop aead size prefix fuel next.tail
                            (some (write_seg aead size prefix (suc seq) buf next.more)) (suc seq)))
                        (open_written seq p true)
                    ∙ ap (λ o. then_write aead size prefix (ok p) o) next.plain
                    ∙ ap (λ (r : List ℕ). (ok tt, p ++ r)) whole;
              }
          | inr short ↦
              let all_read : buf ≡ rest = short_read size rest short in
              let last : List ℕ = write_seg aead size prefix (suc seq) buf false in
              record {
                more = true;
                tail = last;
                splits = rw (encrypt_loop, some_left, short) refl;
                plain =
                    read_last fuel last (write_seg aead size prefix seq p true) seq
                      (some_bytes (suc seq) buf) (short_size (suc seq) buf (below size rest short))
                    ∙ ap
                        (λ o. then_write aead size prefix o (
                          then_write aead size prefix
                            (open_segment aead size prefix (suc seq) last false) (ok tt, [])))
                        (open_written seq p true)
                    ∙ ap
                        (λ o.
                          then_write aead size prefix (ok p)
                            (then_write aead size prefix o (ok tt, [])))
                        (open_written (suc seq) buf false)
                    ∙ ap (λ (r : List ℕ). (ok tt, p ++ r)) (append-nil buf ∙ all_read);
              }
        ]
      ]

  decrypt_loop-encrypt_loop :
      (plain : List ℕ)
      → decrypt_loop aead size prefix
          (suc (length plain))
          (encrypt_loop aead size prefix (suc (length plain)) plain none 0)
          none
          0
        ≡ (ok tt, plain)
  unfolding encrypt_loop then_write
  decrypt_loop-encrypt_loop plain =
      let buf : List ℕ = take size plain in
      let left : List ℕ = drop size plain in
      let fuel : ℕ = length plain in
      elim (Bool-cases (length buf == 0)) [
        | inl done ↦
            rw (encrypt_loop, done)
              (read_only fuel (write_seg aead size prefix 0 [] false) 0 (some_bytes 0 [])
                  (short_size 0 [] some_size)
                ∙ ap (λ o. then_write aead size prefix o (ok tt, [])) (open_written 0 [] false)
                ∙ ap (λ (r : List ℕ). (ok tt, r)) (sym (empty_of plain size some_size done)))
        | inr some_left ↦ elim (Bool-cases (length buf == size)) [
          | inl full ↦
              let next =
                encrypt_loop-Reads fuel left buf 0 (ground arith)
                  (shrinks size plain fuel some_size (omega arith) some_left) in
              rw (encrypt_loop, some_left, full)
                (ap (λ (t : List ℕ). decrypt_loop aead size prefix (suc fuel) t none 0) next.splits
                  ∙ read_first fuel (write_seg aead size prefix 0 buf next.more) next.tail 0
                      (full_size 0 buf next.more (ground arith))
                  ∙ next.plain
                  ∙ ap (λ (r : List ℕ). (ok tt, r)) (take-append-drop size plain))
          | inr short ↦
              rw (encrypt_loop, some_left, short)
                (read_only fuel (write_seg aead size prefix 0 buf false) 0 (some_bytes 0 buf)
                    (short_size 0 buf (below size plain short))
                  ∙ ap (λ o. then_write aead size prefix o (ok tt, [])) (open_written 0 buf false)
                  ∙ ap (λ (r : List ℕ). (ok tt, r)) (append-nil buf ∙ short_read size plain short))
        ]
      ]

-- Decrypting what `Encrypt` returned, under the same key and with its nonce prefix, gives the
-- plaintext back without an error, for any plaintext, when the loops may run one round more than
-- the plaintext has bytes, the prefix has 4 bytes, and AES-GCM is as documented.
pub decrypt-encrypt :
    (gcm : List ℕ → Aead) (fk prefix plain cipher : List ℕ)
    → IsAead (gcm fk)
    → length prefix ≡ 4
    → encrypt gcm (suc (length plain)) fk (some prefix) plain ≡ ok (prefix, cipher)
    → decrypt gcm (suc (length plain)) fk prefix cipher ≡ (ok tt, plain)
unfolding encrypt decrypt
decrypt-encrypt gcm fk prefix plain cipher good four h = elim (Bool-cases (length fk == 32)) [
  | inr bad ↦ absurd (err_ne_ok (sym (rw (encrypt, bad) at h)))
  | inl key ↦
      let body : List ℕ =
        encrypt_loop (gcm fk) segment_size prefix (suc (length plain)) plain none 0 in
      let written : prefix ++ body ≡ cipher =
        ap (λ (q : List ℕ × List ℕ). q.1) (ok-injective (rw (encrypt, key) at h)) in
      subst (λ c. decrypt gcm (suc (length plain)) fk prefix c ≡ (ok tt, plain)) written
        (decrypt_read gcm fk prefix plain body key four
          (decrypt_loop-encrypt_loop (gcm fk) segment_size prefix good (omega arith) plain))
]
