-- ===== src/Common/Bytes.antt =====
-- Byte strings: lists of numbers, with big-endian words (encoding/binary) and comparison.
use distributed_storage_plat.Common.Tests.{if◌then◌else◌, ◌==◌, Bool-cases}
use distributed_storage_plat.Common.Lists.{length, length-append}
use Prim.Native.Nat.{ℕ, zero, suc, ◌+◌, ◌*◌, ◌/◌, ◌%◌, ◌<◌}
use mathlib.Core.Path.{◌≡◌, refl}
use mathlib.Core.Logic.{inl, inr}
use mathlib.Core.Bool.{Bool, true, false}
use mathlib.Core.Option.{Option, none, some}
use mathlib.Core.List.{List, [], ◌∷◌, ◌++◌}
use native.Mathlib.Omega.{arith}

-- `AppendUint16` and `AppendUint64` of encoding/binary, for words of `k` bytes.
unfoldable pub be : ℕ → ℕ → List ℕ
be zero n = []
be (suc k) n = be k (n / 256) ++ n % 256 ∷ []

-- `binary.BigEndian.Uint16` and `Uint64`.
abbrev pub unbe_from : ℕ → List ℕ → ℕ
unbe_from acc [] = acc
unbe_from acc (b ∷ bs) = unbe_from (acc * 256 + b) bs

abbrev pub unbe : List ℕ → ℕ
unbe bs = unbe_from 0 bs

-- The number of values of a word of `k` bytes.
abbrev pub word : ℕ → ℕ
word zero = 1
word (suc k) = 256 * word k

pub length-be : (k n : ℕ) → length (be k n) ≡ k
unfolding be
length-be zero n = refl
length-be (suc k) n =
    omega (arith, length-append (be k (n / 256)) (n % 256 ∷ []), length-be k (n / 256))

unbe_from-snoc :
    (acc : ℕ) (bs : List ℕ) (b : ℕ) → unbe_from acc (bs ++ b ∷ []) ≡ unbe_from acc bs * 256 + b
unbe_from-snoc acc [] b = refl
unbe_from-snoc acc (c ∷ bs) b = unbe_from-snoc (acc * 256 + c) bs b

-- A word that fits is read back.
pub unbe-be : (k n : ℕ) → n < word k → unbe (be k n) ≡ n
unfolding be
unbe-be zero n h = omega arith
unbe-be (suc k) n h =
    omega (arith, unbe_from-snoc 0 (be k (n / 256)) (n % 256), unbe-be k (n / 256) (omega arith))

-- `bytes.Equal`, `==` on strings and arrays, and `subtle.ConstantTimeCompare`.
unfoldable pub same_bytes : List ℕ → List ℕ → Bool
same_bytes [] [] = true
same_bytes [] (y ∷ ys) = false
same_bytes (x ∷ xs) [] = false
same_bytes (x ∷ xs) (y ∷ ys) = let rest = same_bytes xs ys in if x == y then rest else false

pub same_bytes_refl : (xs : List ℕ) → same_bytes xs xs ≡ true
unfolding same_bytes
same_bytes_refl [] = refl
same_bytes_refl (x ∷ xs) = ground (arith, same_bytes_refl xs)

pub same_bytes-eq : (xs ys : List ℕ) → same_bytes xs ys ≡ true → xs ≡ ys
unfolding same_bytes
same_bytes-eq [] [] h = refl
same_bytes-eq [] (y ∷ ys) h = absurd (cc)
same_bytes-eq (x ∷ xs) [] h = absurd (cc)
same_bytes-eq (x ∷ xs) (y ∷ ys) h = elim (Bool-cases (x == y)) [
  | inl same ↦
      let heads : x ≡ y = ground arith in
      let tails : xs ≡ ys = same_bytes-eq xs ys (rw same at h) in cc
  | inr other ↦ absurd (cc (rw other at h))
]

-- `strings.IndexByte`; `none` is -1.
unfoldable pub index_byte : ℕ → List ℕ → Option ℕ
index_byte b [] = none
index_byte b (x ∷ xs) =
    let rest = index_byte b xs in
    if x == b then some 0 else elim rest [ none ↦ none | some i ↦ some (suc i) ]

-- The byte is nowhere in the string.
abbrev pub IsFree : ℕ → List ℕ → Type 0
IsFree b [] = Unit
IsFree b (x ∷ xs) = ((x == b) ≡ false) × IsFree b xs

pub index_byte-append :
    (b : ℕ) (xs ys : List ℕ) → IsFree b xs → index_byte b (xs ++ b ∷ ys) ≡ some (length xs)
unfolding index_byte
index_byte-append b [] ys h = ground arith
index_byte-append b (x ∷ xs) ys h = ground (arith, index_byte-append b xs ys h.1)
