-- ===== src/Common/Calls.antt =====
-- Effectful calls: a state that survives an error, and an error as a value. `Keeps` is the
-- rule for invariants of such calls.
use distributed_storage_plat.Common.Tests.{if◌then◌else◌}
use mathlib.Core.Bool.{Bool, true, false}
use mathlib.Core.List.{List, [], ◌∷◌}
use mathlib.Core.Path.{◌≡◌, refl, ap}

pub data Result {ℓ κ} (E : Type ℓ) (A : Type κ) : Type (ℓ ⊔ κ) where
  ok : A → Result E A
  err : E → Result E A

module _ {E A : Type 0} where
  abbrev good : A → Result E A
  good a = ok a

  pub ok-injective : {a b : A} → good a ≡ ok b → a ≡ b
  ok-injective {a} h = ap (λ (r : Result E A). elim r [ ok x ↦ x | err _ ↦ a ]) h

  pub err_ne_ok : {e : E} {a : A} → good a ≡ err e → ⊥
  err_ne_ok h = cc

-- What was written before an error stays written, so the state comes back with the error too.
abbrev pub Exec : Type 0 → Type 0 → Type 0 → Type 0
Exec S E A = S → Result E A × S

module _ {S E A : Type 0} where
  abbrev pub pure : A → Exec S E A
  pure a s = (ok a, s)

  abbrev pub raise : E → Exec S E A
  raise e s = (err e, s)

  abbrev pub gets : (S → A) → Exec S E A
  gets f s = (ok (f s), s)

  abbrev pub lift : Result E A → Exec S E A
  lift r s = (r, s)

infixl 5 ◌>>=◌ ◌>>◌
abbrev pub ◌>>=◌ : {S E A B : Type 0} → Exec S E A → (A → Exec S E B) → Exec S E B
◌>>=◌ m f s = let (r, s') = m s in elim r [ ok a ↦ f a s' | err e ↦ (err e, s') ]

abbrev pub ◌>>◌ : {S E A B : Type 0} → Exec S E A → Exec S E B → Exec S E B
m >> k = m >>= λ _. k

-- `for x in xs { if err := f(x); err != nil { return err } }`
unfoldable pub for : {S E A : Type 0} → (A → Exec S E (Unit {0})) → List A → Exec S E (Unit {0})
for f [] = pure tt
for f (x ∷ xs) = f x >> for f xs

-- Every run of the call from a state in `P` ends in `P`, with or without an error.
pub record Keeps {S E A : Type 0} (P : S → Type 0) (m : Exec S E A) : Type 0 where
  pub at : (s : S) → P s → P (m s).1

module _ {S E A B : Type 0} {P : S → Type 0} where
  bind_cases :
      (f : A → Exec S E B)
      → ((a : A) → Keeps P (f a))
      → (r : Result E A) (s : S) → P s
      → P (let q : Result E B × S = elim r [ ok a ↦ f a s | err e ↦ (err e, s) ] in q).1
  bind_cases f k (ok a) s h = (k a).at s h
  bind_cases f k (err e) s h = h

  pub Keeps-bind :
      (m : Exec S E A) (f : A → Exec S E B)
      → Keeps P m
      → ((a : A) → Keeps P (f a))
      → Keeps P (m >>= f)
  Keeps-bind m f km kf = record { at = λ s h. bind_cases f kf (m s).0 (m s).1 (km.at s h) }

module _ {S E A : Type 0} {P : S → Type 0} where
  pub Keeps-for :
      (f : A → Exec S E (Unit {0})) (xs : List A) → ((a : A) → Keeps P (f a)) → Keeps P (for f xs)
  unfolding for
  Keeps-for f [] k = record { at = λ s h. h }
  Keeps-for f (x ∷ xs) k = Keeps-bind (f x) (λ _. for f xs) (k x) (λ _. Keeps-for f xs k)

  pub Keeps-pure : (a : A) → Keeps {E = E} P (pure a)
  Keeps-pure a = record { at = λ s h. h }

  pub Keeps-raise : (e : E) → Keeps {A = A} P (raise e)
  Keeps-raise e = record { at = λ s h. h }

  pub Keeps-lift : (r : Result E A) → Keeps P (lift r)
  Keeps-lift r = record { at = λ s h. h }

  pub Keeps-if :
      (b : Bool) (m k : Exec S E A) → Keeps P m → Keeps P k → Keeps P (if b then m else k)
  Keeps-if true m k hm hk = hm
  Keeps-if false m k hm hk = hk

-- Inversion of a run that ends without an error.
module _ {S E A B : Type 0} where
  ok_cases :
      (f : A → Exec S E B) (r : Result E A) (s : S) {b : B}
      → (let q : Result E B × S = elim r [ ok a ↦ f a s | err e ↦ (err e, s) ] in q).0 ≡ ok b
      → (a : A) × (r ≡ ok a)
        × ((let q : Result E B × S = elim r [ ok a ↦ f a s | err e ↦ (err e, s) ] in q) ≡ f a s)
  ok_cases f (ok a) s h = (a, refl, refl)
  ok_cases f (err e) s h = absurd (cc)

  pub >>=-ok :
      (m : Exec S E A) (f : A → Exec S E B) (s : S) {b : B}
      → ((m >>= f) s).0 ≡ ok b
      → (a : A) × ((m s).0 ≡ ok a) × ((m >>= f) s ≡ f a (m s).1)
  >>=-ok m f s h = ok_cases f (m s).0 (m s).1 h
