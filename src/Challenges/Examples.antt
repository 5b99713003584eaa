-- ===== src/Challenges/Examples.antt =====
-- Tests of challenges on a fragment of three bytes.
use distributed_storage_plat.Common.{
  ◌≢◌, true, for, ℕ, ◌+◌, ◌≡◌, refl, none, some, List, [], ◌∷◌, length, ok, arith,
}
use distributed_storage_plat.Common.Int.{pos}
use distributed_storage_plat.Agent.ChunkStore.{
  ChunkStore, FragMeta, row, not_stored, read_range, get,
}
use distributed_storage_plat.Common.{err}
use distributed_storage_plat.Challenges.Sets.{
  Challenge, answer_challenge, compute_challenge_set, challenges_from, challenge_at, length_at,
  offset_at, range_limit, or_default,
}
use distributed_storage_plat.Challenges.Once.{mark_challenge_spent-once}
use distributed_storage_plat.Challenges.Honest.{compute_challenge_set-answered}
use distributed_storage_plat.Challenges.Rows.{
  mark_challenge_spent, Rows, drop_unspent, is_unspent, take_next_unspent, upsert_challenge,
  same_key, least_seq, put_challenge, insert_challenge_set,
}
use distributed_storage_plat.Uploads.Rows.{exists_row, update_where, where_rows}
use distributed_storage_plat.Common.Database.{calm, in_transaction, transaction, statement}
use mathlib.Core.List.{Memᴰ}

abbrev fragment : List ℕ
fragment = 5 ∷ 6 ∷ 7 ∷ []

abbrev meta : FragMeta
meta = record {
  size = pos 3;
  sha256 = [];
  expires_at = pos 900;
  stored_at = pos 100;
  last_verified = pos 100;
}

abbrev keeper : ChunkStore
keeper = record { files = λ _. some fragment; index = λ _. some (row meta); nonces = λ _. none }

abbrev loser : ChunkStore
loser = record keeper { index = λ _. none }

-- A checksum in place of SHA-256.
abbrev sum_of : List ℕ → List ℕ
sum_of bs = length bs ∷ bs

abbrev length_draw : ℕ → ℕ
length_draw i = i + 5

abbrev offset_draw : ℕ → ℕ
offset_draw i = i + 4

abbrev nonce_of : ℕ → List ℕ
nonce_of i = i ∷ i ∷ []

abbrev second : Challenge
second = record {
  fragment_id = 4;
  node_id = 9;
  seq = 1;
  offset = 2;
  range_length = 1;
  nonce = 1 ∷ 1 ∷ [];
  expected = 3 ∷ 1 ∷ 1 ∷ 7 ∷ [];
}

second_is_in :
    Memᴰ second
      (compute_challenge_set sum_of length_draw offset_draw nonce_of fragment 4 9 (pos 2) (pos 2))
unfolding compute_challenge_set challenges_from challenge_at length_at offset_at range_limit
    or_default
second_is_in = Memᴰ.tail (Memᴰ.head refl)

lost_fragment : answer_challenge sum_of 4 (pos 2) (pos 1) (1 ∷ 1 ∷ []) loser ≡ err not_stored
unfolding answer_challenge read_range get
lost_fragment = refl

compute_challenge_set-answered_example :
    answer_challenge sum_of 4 (pos 2) (pos 1) (1 ∷ 1 ∷ []) keeper ≡ ok (3 ∷ 1 ∷ 1 ∷ 7 ∷ [])
compute_challenge_set-answered_example =
    compute_challenge_set-answered sum_of length_draw offset_draw nonce_of 4 9 fragment (pos 2)
      (pos 2) meta keeper {c = second} refl refl refl (omega arith) second_is_in

abbrev third : Challenge
third = record second { seq = 3 }

abbrev two_rows : Rows
two_rows =
    (record { challenge = third; spent_at = none })
    ∷ (record { challenge = second; spent_at = none })
    ∷ []

-- The challenge that is spent is not taken again; the next one is.
taken_once :
    ((take_next_unspent 4 9 (calm two_rows)).0 ≡ ok second)
    × ((take_next_unspent 4 9 (mark_challenge_spent 50 4 9 1 (calm two_rows)).1).0 ≡ ok (third))
unfolding take_next_unspent mark_challenge_spent least_seq where_rows update_where is_unspent
    statement
taken_once = (refl, refl)

-- A new set replaces the rows that are left and revives a spent one with the same number.
refilled :
    (insert_challenge_set
      (λ _ _. true)
      (second ∷ [])
      (mark_challenge_spent 50 4 9 1 (calm two_rows)).1)
    ≡ (ok tt, calm ((record { challenge = second; spent_at = none }) ∷ []))
unfolding insert_challenge_set upsert_challenge put_challenge drop_unspent same_key exists_row for
    mark_challenge_spent where_rows update_where is_unspent statement transaction in_transaction
refilled = refl

marked : (mark_challenge_spent 50 4 9 1 (calm two_rows)).0 ≡ ok tt
unfolding mark_challenge_spent statement
marked = refl

mark_challenge_spent-once_example : third.seq ≢ 1
mark_challenge_spent-once_example =
    mark_challenge_spent-once 50 4 9 1 (calm two_rows) {c = third} marked taken_once.1
