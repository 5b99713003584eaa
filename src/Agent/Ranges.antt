-- ===== src/Agent/Ranges.antt =====
-- internal/agent/store.go, `ReadRange`: exactly the ranges within the file are served.
use distributed_storage_plat.Common.{
  ℕ, ◌+◌, ◌≤◌, ◌<◌, ◌≡◌, refl, Bool, true, false, ◌||◌, ◌&&◌, Bool-cases, inl, inr, some, List,
  arith, leb, ◌==◌, if◌then◌else◌, length, take, drop, length-take, length-drop, leb→le, ok, err,
}
use distributed_storage_plat.Common.Int.{ℤ, pos, negsuc, pos_part, ltb_ℤ, leb_ℤ, ◌+ℤ◌}
use distributed_storage_plat.Common.Int64.{add64, wrap64, i64_lim}
use distributed_storage_plat.Agent.ChunkStore.{
  ChunkStore, FragMeta, row, too_large, get, read_range, range_of, read_at,
}

read_at-whole :
    (off len : ℕ) (body : List ℕ)
    → off + len ≤ length body
    → read_at (pos off) (pos len) body ≡ ok (take len (drop off body))
unfolding read_at
read_at-whole off len body h =
    let full : (length (take len (drop off body)) == len) ≡ true =
      ground (arith, length-take len (drop off body), length-drop off body) in
    rw full refl

-- The test of `ReadRange` on the offset.
abbrev refused : ℤ → ℤ → ℤ → Bool
refused off len size = ltb_ℤ off (pos 0) || ltb_ℤ size off || ltb_ℤ size (add64 off len)

refused-false :
    (off len n : ℕ)
    → len ≤ 65536
    → n + 65536 < i64_lim
    → leb (off + len) n ≡ true
    → refused (pos off) (pos len) (pos n) ≡ false
unfolding wrap64 ◌+ℤ◌
refused-false off len n small fits h = ground arith

refused-true :
    (off len n : ℕ)
    → len ≤ 65536
    → n + 65536 < i64_lim
    → leb (off + len) n ≡ false
    → refused (pos off) (pos len) (pos n) ≡ true
unfolding wrap64 ◌+ℤ◌
refused-true off len n small fits h = ground arith

range_of-exact :
    (off len : ℕ) (body : List ℕ) (meta : FragMeta)
    → len ≤ 65536
    → length body + 65536 < i64_lim
    → meta.size ≡ pos (length body)
    → range_of (pos off) (pos len) (body, meta)
      ≡ (if leb (off + len) (length body) then ok (take len (drop off body)) else err too_large)
unfolding range_of
range_of-exact off len body meta small fits size =
    elim (Bool-cases (leb (off + len) (length body))) [
      | inl within ↦
          let pass : refused (pos off) (pos len) (pos (length body)) ≡ false =
            refused-false off len (length body) small fits within in
          rw (range_of, size, pass, within) (read_at-whole off len body (leb→le _ _ within))
      | inr outside ↦
          let stop : refused (pos off) (pos len) (pos (length body)) ≡ true =
            refused-true off len (length body) small fits outside in
          rw (range_of, size, stop, outside) refl
    ]

-- The ranges that are served: 1 to 65536 bytes, within the file.
unfoldable pub is_served : ℤ → ℤ → ℕ → Bool
is_served off len n =
    leb_ℤ (pos 1) len
    && leb_ℤ len (pos 65536)
    && leb_ℤ (pos 0) off
    && leb (pos_part off + pos_part len) n

bad_length : ℤ → Bool
bad_length len = leb_ℤ len (pos 0) || ltb_ℤ (pos 65536) len

bad_length-unserved : (off len : ℤ) (n : ℕ) → bad_length len ≡ true → is_served off len n ≡ false
unfolding bad_length is_served
bad_length-unserved off len n h = ground arith

before-unserved : (k n : ℕ) (len : ℤ) → is_served (negsuc k) len n ≡ false
unfolding is_served
before-unserved k n len = ground arith

within-served :
    (off len n : ℕ)
    → bad_length (pos len) ≡ false
    → is_served (pos off) (pos len) n ≡ leb (off + len) n
unfolding bad_length is_served
within-served off len n h = ground arith

good_length : (len : ℕ) → bad_length (pos len) ≡ false → len ≤ 65536
unfolding bad_length
good_length len h = ground arith

negative : (n : ℕ) → bad_length (negsuc n) ≡ true
unfolding bad_length
negative n = ground arith

range_of-before :
    (k : ℕ) (len : ℤ) (body : List ℕ) (meta : FragMeta)
    → range_of (negsuc k) len (body, meta) ≡ err too_large
unfolding range_of
range_of-before k len body meta =
    let before : ltb_ℤ (negsuc k) (pos 0) ≡ true = ground arith in rw (range_of, before) refl

-- For a fragment whose row has the size of its file, which is not near 2 ^ 63, and any offset and
-- length, `ReadRange` returns the bytes at the offset if the length is 1 to 65536 and the range is
-- within the file, and refuses the range otherwise, also at a negative offset.
pub read_range_exact :
    (i : ℕ) (off len : ℤ) (body : List ℕ) (meta : FragMeta) (s : ChunkStore)
    → s.index i ≡ some (row meta)
    → s.files i ≡ some body
    → meta.size ≡ pos (length body)
    → length body + 65536 < i64_lim
    → read_range i off len s ≡ (
        if is_served off len (length body)
        then ok (take (pos_part len) (drop (pos_part off) body))
        else err too_large)
unfolding read_range get bad_length
read_range_exact i off (negsuc n) body meta s found file size small =
    rw (negative n, bad_length-unserved off (negsuc n) (length body) (negative n)) refl
read_range_exact i (negsuc k) (pos len) body meta s found file size small =
    elim (Bool-cases (bad_length (pos len))) [
      | inl bad ↦ rw (bad, before-unserved k (length body) (pos len)) refl
      | inr good ↦
          rw (good, found, file, before-unserved k (length body) (pos len))
            (range_of-before k (pos len) body meta)
    ]
read_range_exact i (pos off) (pos len) body meta s found file size small =
    elim (Bool-cases (bad_length (pos len))) [
      | inl bad ↦ rw (bad, bad_length-unserved (pos off) (pos len) (length body) bad) refl
      | inr good ↦
          rw (good, found, file, within-served off len (length body) good)
            (range_of-exact off len body meta (good_length len good) small size)
    ]
