-- ===== src/Challenges/Rows.antt =====
-- internal/store/challenges.go: the rows of challenges. `known` says whether the fragment and the
-- node of a row exist, which its foreign keys require.
use distributed_storage_plat.Common.{
  ℕ, Bool, true, false, ◌&&◌, not, Option, none, some, List, [], ◌∷◌, ◌==◌, ltb, pure,
  if◌then◌else◌, ok, err, ◌>>◌, for,
}
use distributed_storage_plat.Common.Database.{Query, statement, select, exec, transaction}
use distributed_storage_plat.Uploads.Rows.{
  StoreError, db_error, where_rows, count, update_where, exists_row,
}
use distributed_storage_plat.Uploads.Planned.{row}
use distributed_storage_plat.Challenges.Sets.{Challenge}

pub record ChallengeRow : Type 0 where
  pub challenge : Challenge
  pub spent_at : Option ℕ

abbrev pub Rows : Type 0
Rows = List ChallengeRow

abbrev pub OnRows : Type 0 → Type 0
OnRows A = Query Rows StoreError A

-- `fragment_id = $1 AND node_id = $2 AND spent_at IS NULL`
unfoldable pub is_unspent : ℕ → ℕ → ChallengeRow → Bool
is_unspent f n r =
    r.challenge.fragment_id == f
    && r.challenge.node_id == n
    && elim r.spent_at [ none ↦ true | some _ ↦ false ]

unfoldable pub same_key : Challenge → ChallengeRow → Bool
same_key c r =
    r.challenge.fragment_id == c.fragment_id
    && r.challenge.node_id == c.node_id
    && r.challenge.seq == c.seq

-- `ON CONFLICT (fragment_id, node_id, seq) DO UPDATE`
unfoldable pub put_challenge : Challenge → Rows → Rows
put_challenge c rows =
    let fresh : ChallengeRow = record { challenge = c; spent_at = none } in
    if exists_row (same_key c) rows
    then update_where (same_key c) (λ _. fresh) rows
    else fresh ∷ rows

unfoldable pub drop_unspent : ℕ → ℕ → Rows → Rows
drop_unspent f n = where_rows (λ (r : ChallengeRow). not (is_unspent f n r))

module _ (known : ℕ → ℕ → Bool) where
  unfoldable pub upsert_challenge : Challenge → OnRows (Unit {0})
  upsert_challenge c = statement db_error (λ (rows : Rows).
      if known c.fragment_id c.node_id then ok (tt, put_challenge c rows) else err db_error)

  unfoldable pub insert_challenge_set : List Challenge → OnRows (Unit {0})
  insert_challenge_set [] = pure tt
  insert_challenge_set (c ∷ cs) =
      transaction db_error
        (exec db_error (drop_unspent c.fragment_id c.node_id) >> for upsert_challenge (c ∷ cs))

unfoldable pub count_remaining_challenges : ℕ → ℕ → OnRows ℕ
count_remaining_challenges f n = select db_error (λ (rows : Rows). ok (count (is_unspent f n) rows))

-- `ORDER BY seq LIMIT 1`
unfoldable pub least_seq : Rows → Option Challenge
least_seq [] = none
least_seq (r ∷ rs) = elim (least_seq rs) [
  | none ↦ some r.challenge
  | some c ↦ if ltb c.seq r.challenge.seq then some c else some r.challenge
]

unfoldable pub take_next_unspent : ℕ → ℕ → OnRows Challenge
take_next_unspent f n =
    select db_error (λ (rows : Rows). row (least_seq (where_rows (is_unspent f n) rows)))

unfoldable pub mark_challenge_spent : ℕ → ℕ → ℕ → ℕ → OnRows (Unit {0})
mark_challenge_spent now f n seq = exec db_error (
    update_where (λ (r : ChallengeRow). is_unspent f n r && r.challenge.seq == seq)
      (λ (r : ChallengeRow). record r { spent_at = some now }))
