-- ===== src/Common/Database.antt =====
-- Statements and transactions of Postgres: a statement that Postgres refuses writes nothing, and one
-- that returns has changed the tables; where the connection fails, the caller does not know whether
-- the statement or the COMMIT still took effect.
use distributed_storage_plat.Common.Calls.{
  Result, ok, err, Exec, ◌>>=◌, ◌>>◌, Keeps, err_ne_ok, ok-injective, >>=-ok,
}
use mathlib.Core.Bool.{Bool, true, false}
use mathlib.Core.List.{List, [], ◌∷◌}
use mathlib.Core.Path.{◌≡◌, refl, sym, ap, ◌∙◌}

-- The tables, and which of the round trips to come fail. After the `true` of a failure stands
-- whether the server had done its work all the same. When the list is empty they succeed.
pub record Session (T : Type 0) : Type 0 where
  pub tables : T
  pub outages : List Bool

abbrev pub Query : Type 0 → Type 0 → Type 0 → Type 0
Query T E A = Exec (Session T) E A

module _ {T E A : Type 0} where
  settle : Session T → Result E (A × T) → Result E A × Session T
  settle s (err e) = (err e, s)
  settle s (ok (a, t)) = (ok a, record s { tables = t })

  round_trip : E → (T → Result E (A × T)) → List Bool → Session T → Result E A × Session T
  unfolding settle
  round_trip lost f [] s = settle s (f s.tables)
  round_trip lost f (true ∷ []) s = (err lost, record s { outages = [] })
  round_trip lost f (true ∷ false ∷ rest) s = (err lost, record s { outages = rest })
  round_trip lost f (true ∷ true ∷ rest) s =
      (err lost, (settle (record s { outages = rest }) (f s.tables)).1)
  round_trip lost f (false ∷ rest) s = settle (record s { outages = rest }) (f s.tables)

  -- `lost` is the error of a failed round trip.
  unfoldable pub statement : E → (T → Result E (A × T)) → Query T E A
  unfolding round_trip
  statement lost f s = round_trip lost f s.outages s

-- A statement that only reads.
abbrev pub select : {T E A : Type 0} → E → (T → Result E A) → Query T E A
select lost f = statement lost (λ t. elim (f t) [ ok a ↦ ok (a, t) | err e ↦ err e ])

-- A statement that writes and returns nothing.
abbrev pub exec : {T E : Type 0} → E → (T → T) → Query T E (Unit {0})
exec lost f = statement lost (λ t. ok (tt, f t))

-- A round trip that changes no row, as `BEGIN`.
abbrev pub trip : {T E : Type 0} → E → Query T E (Unit {0})
trip lost = exec lost (λ t. t)

module _ {T E A : Type 0} where
  -- `BEGIN` and the body.
  unfoldable pub in_transaction : E → Query T E A → Query T E A
  in_transaction lost body = trip lost >> body

  -- `COMMIT`, from the session before the transaction and the one after its body.
  settle_commit : E → A → Session T → Session T → List Bool → Result E A × Session T
  settle_commit lost a s s' [] = (ok a, s')
  settle_commit lost a s s' (false ∷ rest) = (ok a, record s' { outages = rest })
  settle_commit lost a s s' (true ∷ []) = (err lost, record s { outages = [] })
  settle_commit lost a s s' (true ∷ false ∷ rest) = (err lost, record s { outages = rest })
  settle_commit lost a s s' (true ∷ true ∷ rest) = (err lost, record s' { outages = rest })

  -- `defer tx.Rollback(ctx)` undoes the body after an error of it.
  unfoldable pub transaction : E → Query T E A → Query T E A
  unfolding in_transaction settle_commit
  transaction lost body s =
      let (r, s') = in_transaction lost body s in
      elim r [
        | ok a ↦ settle_commit lost a s s' s'.outages
        | err e ↦ (err e, record s { outages = s'.outages })
      ]

-- An invariant of the tables, as one of the session.
abbrev pub InSession : {T : Type 0} → (T → Type 0) → Session T → Type 0
InSession P s = P s.tables

module _ {T E A : Type 0} {P : T → Type 0} where
  settle-keeps :
      (s : Session T) (r : Result E (A × T))
      → P s.tables
      → ((a : A) (t : T) → r ≡ ok (a, t) → P t)
      → P (settle s r).1.tables
  unfolding settle
  settle-keeps s (ok (a, t)) h k = k a t refl
  settle-keeps s (err x) h k = h

  round_trip-keeps :
      (lost : E) (f : T → Result E (A × T))
      → ((t t' : T) (a : A) → P t → f t ≡ ok (a, t') → P t')
      → (os : List Bool) (s : Session T) → P s.tables
      → P (round_trip lost f os s).1.tables
  unfolding round_trip
  round_trip-keeps lost f k [] s h = settle-keeps s (f s.tables) h (λ a t. k s.tables t a h)
  round_trip-keeps lost f k (true ∷ []) s h = h
  round_trip-keeps lost f k (true ∷ false ∷ os) s h = h
  round_trip-keeps lost f k (true ∷ true ∷ os) s h =
      settle-keeps (record s { outages = os }) (f s.tables) h (λ a t. k s.tables t a h)
  round_trip-keeps lost f k (false ∷ os) s h =
      settle-keeps (record s { outages = os }) (f s.tables) h (λ a t. k s.tables t a h)

  -- A statement keeps what each of its successful writes keeps.
  pub Keeps-statement :
      (lost : E) (f : T → Result E (A × T))
      → ((t t' : T) (a : A) → P t → f t ≡ ok (a, t') → P t')
      → Keeps (InSession P) (statement lost f)
  unfolding statement
  Keeps-statement lost f k = record { at = λ s h. round_trip-keeps lost f k s.outages s h }

module _ {T E A : Type 0} where
  settle-ok :
      (s : Session T) (r : Result E (A × T)) {a : A}
      → (settle s r).0 ≡ ok a
      → (t : T) × (r ≡ ok (a, t)) × ((settle s r).1.tables ≡ t)
  unfolding settle
  settle-ok s (ok (a, t)) h = (t, ap (λ b. ok (b, t)) (ok-injective h), refl)
  settle-ok s (err e) h = absurd (err_ne_ok (sym h))

  round_trip-ok :
      (lost : E) (f : T → Result E (A × T)) (os : List Bool) (s : Session T) {a : A}
      → (round_trip lost f os s).0 ≡ ok a
      → (t : T) × (f s.tables ≡ ok (a, t)) × ((round_trip lost f os s).1.tables ≡ t)
  unfolding round_trip
  round_trip-ok lost f [] s h = settle-ok s (f s.tables) h
  round_trip-ok lost f (true ∷ []) s h = absurd (err_ne_ok (sym h))
  round_trip-ok lost f (true ∷ false ∷ os) s h = absurd (err_ne_ok (sym h))
  round_trip-ok lost f (true ∷ true ∷ os) s h = absurd (err_ne_ok (sym h))
  round_trip-ok lost f (false ∷ os) s h = settle-ok (record s { outages = os }) (f s.tables) h

  -- A statement that returns has written what it says.
  pub statement-ok :
      (lost : E) (f : T → Result E (A × T)) (s : Session T) {a : A}
      → (statement lost f s).0 ≡ ok a
      → (t : T) × (f s.tables ≡ ok (a, t)) × ((statement lost f s).1.tables ≡ t)
  unfolding statement
  statement-ok lost f s h = round_trip-ok lost f s.outages s h

  settle_commit-ok :
      (lost : E) (b : A) (s s' : Session T) (os : List Bool) {a : A}
      → (settle_commit lost b s s' os).0 ≡ ok a
      → (b ≡ a) × ((settle_commit lost b s s' os).1.tables ≡ s'.tables)
  unfolding settle_commit
  settle_commit-ok lost b s s' [] h = (ok-injective h, refl)
  settle_commit-ok lost b s s' (false ∷ os) h = (ok-injective h, refl)
  settle_commit-ok lost b s s' (true ∷ []) h = absurd (err_ne_ok (sym h))
  settle_commit-ok lost b s s' (true ∷ false ∷ os) h = absurd (err_ne_ok (sym h))
  settle_commit-ok lost b s s' (true ∷ true ∷ os) h = absurd (err_ne_ok (sym h))

  commit_cases :
      (lost : E) (r : Result E A) (s s' : Session T) {a : A}
      → (let q : Result E A × Session T = elim r [
        | ok b ↦ settle_commit lost b s s' s'.outages
        | err e ↦ (err e, record s { outages = s'.outages })
      ] in
          q).0
        ≡ ok a
      → (r ≡ ok a)
        × ((let q : Result E A × Session T = elim r [
          | ok b ↦ settle_commit lost b s s' s'.outages
          | err e ↦ (err e, record s { outages = s'.outages })
        ] in
              q).1.tables
            ≡ s'.tables)
  commit_cases lost (ok b) s s' h =
      let (same, left) = settle_commit-ok lost b s s' s'.outages h in (ap (λ x. ok x) same, left)
  commit_cases lost (err e) s s' h = absurd (err_ne_ok (sym h))

trip-tables :
    {T E : Type 0} (lost : E) (s : Session T)
    → (let q : Result E (Unit {0}) × Session T = trip lost s in q).1.tables ≡ s.tables
trip-tables {T} lost s =
    (Keeps-statement {P = λ t. t ≡ s.tables} lost (λ t. ok (tt, t))
        (λ t t' a h k. sym (ap (λ (p : Unit {0} × T). p.1) (ok-injective k)) ∙ h)).at
      s refl

module _ {T E A : Type 0} where
  -- A transaction that commits has run its body on the tables it found, to the tables it leaves.
  pub transaction-ok :
      (lost : E) (body : Query T E A) (s : Session T) {a : A}
      → (transaction lost body s).0 ≡ ok a
      → (b : Session T) × (b.tables ≡ s.tables)
        × ((body b).0 ≡ ok a)
        × ((transaction lost body s).1.tables ≡ (body b).1.tables)
  unfolding transaction in_transaction
  transaction-ok lost body s h =
      let run = in_transaction lost body s in
      let (ran, at_end) = commit_cases lost run.0 s run.1 h in
      let (u, begun, rest) = >>=-ok (trip lost) (λ _. body) s ran in
      let b = (trip lost s).1 in
      (b, trip-tables lost s, ap (λ q. q.0) (sym rest) ∙ ran, at_end ∙ ap (λ q. q.1.tables) rest)

module _ {T E A : Type 0} where
  -- A read that returns answers from the tables and leaves them.
  pub select-ok :
      (lost : E) (g : T → A) (s : Session T) {a : A}
      → (select lost (λ t. ok (g t)) s).0 ≡ ok a
      → (a ≡ g s.tables) × ((select {A = A} lost (λ t. ok (g t)) s).1.tables ≡ s.tables)
  select-ok lost g s h =
      let (t, said, left) = statement-ok lost (λ t. ok (g t, t)) s h in
      let both = ok-injective said in
      (sym (ap (λ (p : A × T). p.0) both), left ∙ sym (ap (λ (p : A × T). p.1) both))

module _ {T E : Type 0} where
  pub exec-ok :
      (lost : E) (f : T → T) (s : Session T) {u : Unit {0}}
      → (exec lost f s).0 ≡ ok u
      → (let q : Result E (Unit {0}) × Session T = exec lost f s in q).1.tables ≡ f s.tables
  exec-ok lost f s h =
      let (t, said, left) = statement-ok lost (λ t. ok (tt, f t)) s h in
      left ∙ sym (ap (λ (p : Unit {0} × T). p.1) (ok-injective said))

module _ {S E A B : Type 0} where
  -- `>>=-ok` with the rest of the run in place of the whole.
  pub then-ok :
      (m : Exec S E A) (f : A → Exec S E B) (s : S) {b : B}
      → ((m >>= f) s).0 ≡ ok b
      → (a : A) × ((m s).0 ≡ ok a) × ((f a (m s).1).0 ≡ ok b) × ((m >>= f) s ≡ f a (m s).1)
  then-ok m f s h =
      let (a, done, rest) = >>=-ok m f s h in
      (a, done, ap (λ (q : Result E B × S). q.0) (sym rest) ∙ h, rest)

-- A session without failures.
abbrev pub calm : {T : Type 0} → T → Session T
calm t = record { tables = t; outages = [] }

module _ {S E A B : Type 0} where
  pub >>=-run :
      (m : Exec S E A) (f : A → Exec S E B) (s : S) {s' : S} {a : A}
      → m s ≡ (ok a, s')
      → (m >>= f) s ≡ f a s'
  >>=-run m f s h =
      ap
        (λ (q : Result E A × S).
          let r : Result E B × S = elim q.0 [ ok a ↦ f a q.1 | err e ↦ (err e, q.1) ] in r)
        h

module _ {T E A : Type 0} where
  pub statement-calm :
      (lost : E) (f : T → Result E (A × T)) (t : T) {t' : T} {a : A}
      → f t ≡ ok (a, t')
      → statement lost f (calm t) ≡ (ok a, calm t')
  unfolding statement round_trip settle
  statement-calm lost f t h = rw h refl

module _ {T E A : Type 0} where
  in_transaction-calm :
      (lost : E) (body : Query T E A) (t : T) {t' : T} {a : A}
      → body (calm t) ≡ (ok a, calm t')
      → in_transaction lost body (calm t) ≡ (ok a, calm t')
  unfolding in_transaction
  in_transaction-calm lost body t h =
      >>=-run (trip lost) (λ _. body) (calm t) (statement-calm lost (λ u. ok (tt, u)) t refl) ∙ h

  pub transaction-calm :
      (lost : E) (body : Query T E A) (t : T) {t' : T} {a : A}
      → body (calm t) ≡ (ok a, calm t')
      → transaction lost body (calm t) ≡ (ok a, calm t')
  unfolding transaction settle_commit
  transaction-calm lost body t h =
      ap
        (λ (q : Result E A × Session T).
          let r : Result E A × Session T = elim q.0 [
            | ok a ↦ settle_commit lost a (calm t) q.1 q.1.outages
            | err e ↦ (err e, record (calm t) { outages = q.1.outages })
          ] in
          r)
        (in_transaction-calm lost body t h)
