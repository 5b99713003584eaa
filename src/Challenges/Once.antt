-- ===== src/Challenges/Once.antt =====
-- internal/store/challenges.go: a challenge is sent once.
use distributed_storage_plat.Common.{
  ℕ, ◌≡◌, ◌≢◌, sym, false, ◌&&◌, Bool-cases, Option-cases, subst, inl, inr, Option, none, some, [],
  ◌∷◌, ◌==◌, ltb, ok, arith,
}
use distributed_storage_plat.Common.Database.{Session, exec-ok}
use distributed_storage_plat.Uploads.Rows.{where_rows, update_where, db_error}
use distributed_storage_plat.Uploads.Reads.{select-row}
use distributed_storage_plat.Challenges.Sets.{Challenge}
use distributed_storage_plat.Challenges.Rows.{
  ChallengeRow, Rows, is_unspent, least_seq, take_next_unspent, mark_challenge_spent,
}

abbrev spend : ℕ → ℕ → ℕ → ℕ → Rows → Rows
spend now f n seq =
    update_where (λ (r : ChallengeRow). is_unspent f n r && r.challenge.seq == seq)
      (λ (r : ChallengeRow). record r { spent_at = some now })

-- No challenge, or one with another number.
IsOther : ℕ → Option Challenge → Type 0
IsOther seq none = Unit {0}
IsOther seq (some c) = c.seq ≢ seq

least_seq-IsOther :
    (seq : ℕ) (r : ChallengeRow) (rs : Rows)
    → r.challenge.seq ≢ seq
    → IsOther seq (least_seq rs)
    → IsOther seq (least_seq (r ∷ rs))
unfolding least_seq IsOther
least_seq-IsOther seq r rs h k = elim (Option-cases (least_seq rs)) [
  | inl e ↦ rw (least_seq, e) h
  | inr (c, e) ↦ elim (Bool-cases (ltb c.seq r.challenge.seq)) [
    | inl less ↦ rw (least_seq, e, less) (subst (IsOther seq) e k)
    | inr more ↦ rw (least_seq, e, more) h
  ]
]

differs : (m n : ℕ) → (m == n) ≡ false → m ≢ n
differs m n h = ground arith

spent_row :
    (now f n : ℕ) (r : ChallengeRow) → is_unspent f n (record r { spent_at = some now }) ≡ false
unfolding is_unspent
spent_row now f n r = ground arith

spend-IsOther :
    (now f n seq : ℕ) (rows : Rows)
    → IsOther seq (least_seq (where_rows (is_unspent f n) (spend now f n seq rows)))
unfolding where_rows update_where least_seq IsOther
spend-IsOther now f n seq [] = tt
spend-IsOther now f n seq (r ∷ rs) = elim (Bool-cases (is_unspent f n r)) [
  | inr spent ↦
      rw (update_where, where_rows, spent, where_rows, spent) (spend-IsOther now f n seq rs)
  | inl live ↦ elim (Bool-cases (r.challenge.seq == seq)) [
    | inl same ↦
        rw (update_where, live, same, where_rows, spent_row now f n r)
          (spend-IsOther now f n seq rs)
    | inr other ↦
        rw (update_where, where_rows, live, other, where_rows, live)
          (least_seq-IsOther seq r (where_rows (is_unspent f n) (spend now f n seq rs))
            (differs r.challenge.seq seq other) (spend-IsOther now f n seq rs))
  ]
]

-- When marking a challenge as spent returns, the challenge that is taken next for the same fragment
-- and node has another number.
pub mark_challenge_spent-once :
    (now f n seq : ℕ) (s : Session Rows) {u : Unit {0}} {c : Challenge}
    → (mark_challenge_spent now f n seq s).0 ≡ ok u
    → (take_next_unspent f n (mark_challenge_spent now f n seq s).1).0 ≡ ok c
    → c.seq ≢ seq
unfolding mark_challenge_spent take_next_unspent IsOther
mark_challenge_spent-once now f n seq s {c = c} marked taken =
    let s1 = (mark_challenge_spent now f n seq s).1 in
    let left : s1.tables ≡ spend now f n seq s.tables =
      exec-ok db_error (spend now f n seq) s marked in
    let (first, kept) =
      select-row (λ (rows : Rows). least_seq (where_rows (is_unspent f n) rows)) s1 taken in
    let other =
      subst (λ (rows : Rows). IsOther seq (least_seq (where_rows (is_unspent f n) rows))) (sym left)
        (spend-IsOther now f n seq s.tables) in
    subst (IsOther seq) first other
