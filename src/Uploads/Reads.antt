-- ===== src/Uploads/Reads.antt =====
-- internal/store: statements that only read.
use distributed_storage_plat.Common.{
  Option, none, some, ◌≡◌, refl, sym, ap, ◌∙◌, Result, ok, err, err_ne_ok, ok-injective,
}
use distributed_storage_plat.Common.Database.{Session, select, Keeps-statement, statement-ok}
use distributed_storage_plat.Uploads.Rows.{StoreError, db_error, Tables}
use distributed_storage_plat.Uploads.Planned.{Run, row}

-- The call writes nothing at all.
unfoldable pub ReadsOnly : {A : Type 0} → Run A → Type 0
ReadsOnly m = (s : Session Tables) → (m s).1.tables ≡ s.tables

module _ {A : Type 0} where
  read_cases :
      (r : Result StoreError A) (t : Tables) {a : A} {t' : Tables}
      → (let q : Result StoreError (A × Tables) = elim r [ ok b ↦ ok (b, t) | err e ↦ err e ] in q)
        ≡ ok (a, t')
      → t ≡ t'
  read_cases (ok b) t k = ap (λ (p : A × Tables). p.1) (ok-injective k)
  read_cases (err e) t k = absurd (err_ne_ok (sym k))

  pub select-ReadsOnly : (f : Tables → Result StoreError A) → ReadsOnly (select db_error f)
  unfolding ReadsOnly
  select-ReadsOnly f s =
      (Keeps-statement {P = λ t. t ≡ s.tables} db_error _
          (λ t t' a h k. sym (read_cases (f t) t k) ∙ h)).at
        s refl

-- A query of one row that returns has found it, and writes nothing.
module _ {T A : Type 0} where
  row_cases :
      (o : Option A) (t : T) {a : A} {u : T}
      → (let q : Result StoreError (A × T) = elim (row o) [ ok b ↦ ok (b, t) | err e ↦ err e ] in q)
        ≡ ok (a, u)
      → (o ≡ some a) × (t ≡ u)
  row_cases none t h = absurd (err_ne_ok (sym h))
  row_cases (some x) t h =
      let both = ok-injective h in
      (ap some (ap (λ (p : A × T). p.0) both), ap (λ (p : A × T). p.1) both)

  pub select-row :
      (g : T → Option A) (s : Session T) {a : A}
      → (let q : Result StoreError A × Session T = select db_error (λ t. row (g t)) s in q).0 ≡ ok a
      → (g s.tables ≡ some a)
        × ((let q : Result StoreError A × Session T = select db_error (λ t. row (g t)) s in
              q).1.tables
            ≡ s.tables)
  select-row g s h =
      let (t, said, left) =
        statement-ok db_error (λ (t : T). elim (row (g t)) [ ok a ↦ ok (a, t) | err e ↦ err e ]) s
          h in
      let (found, same) = row_cases (g s.tables) s.tables said in (found, left ∙ sym same)
