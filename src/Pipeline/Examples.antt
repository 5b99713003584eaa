-- ===== src/Pipeline/Examples.antt =====
-- Tests of the segments with a cipher that only appends a tag.
use distributed_storage_plat.Common.{
  ℕ, ◌-◌, ◌≡◌, refl, ap, some, List, [], ◌∷◌, ◌++◌, arith, length, take, length-append, take-append,
  ok,
}
use distributed_storage_plat.Tickets.Examples.{bytes}
use distributed_storage_plat.Pipeline.Segments.{
  Aead, segment_nonce, aad, write_seg, encrypt_loop, encrypt, decrypt,
}
use distributed_storage_plat.Pipeline.Decrypted.{IsAead, decrypt-encrypt}

abbrev tagged : Aead
tagged = record {
  seal = λ nonce plain extra. plain ++ bytes 16 0;
  open_sealed = λ nonce sealed extra. some (take (length sealed - 16) sealed);
}

tagged-IsAead : IsAead tagged
tagged-IsAead = record {
  grows = λ nonce plain extra. length-append plain (bytes 16 0);
  opens = λ nonce plain extra. ap some (
      take-append (length (plain ++ bytes 16 0) - 16) plain (bytes 16 0)
        (omega (arith, length-append plain (bytes 16 0))));
}

abbrev cipher : List ℕ
cipher = bytes 4 1 ++ (5 ∷ 6 ∷ 7 ∷ []) ++ bytes 16 0

encrypted :
    encrypt (λ _. tagged) 4 (bytes 32 9) (some (bytes 4 1)) (5 ∷ 6 ∷ 7 ∷ [])
    ≡ ok (bytes 4 1, cipher)
unfolding encrypt encrypt_loop write_seg segment_nonce aad
encrypted = refl

decrypt-encrypt_example :
    decrypt (λ _. tagged) 4 (bytes 32 9) (bytes 4 1) cipher ≡ (ok tt, 5 ∷ 6 ∷ 7 ∷ [])
decrypt-encrypt_example =
    decrypt-encrypt (λ _. tagged) (bytes 32 9) (bytes 4 1) (5 ∷ 6 ∷ 7 ∷ []) cipher tagged-IsAead
      refl encrypted
