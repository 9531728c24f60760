-- ===== src/Common/Results.antt =====
-- Rust's `Result<T, E>`, with the bind that the `?` operator stands for.
use mathlib.Core.Path.{◌≡◌, refl}
use mathlib.Core.Logic.{◌⊎◌, inl, inr}

pub data Result {ℓ} (A E : Type ℓ) : Type ℓ where
  ok : A → Result A E
  err : E → Result A E

infixl 5 ◌>>=◌ ◌>>◌
abbrev pub ◌>>=◌ {ℓ} : {A B E : Type ℓ} → Result A E → (A → Result B E) → Result B E
ok a >>= f = f a
err e >>= f = err e

abbrev pub ◌>>◌ {ℓ} : {B E : Type ℓ} → Result (Unit {ℓ}) E → Result B E → Result B E
m >> k = m >>= λ _. k

module _ {ℓ} {A E F : Type ℓ} where
  -- `map_err(f)`
  abbrev pub map_err : (E → F) → Result A E → Result A F
  map_err f (ok a) = ok a
  map_err f (err e) = err (f e)

module _ {ℓ} {A E : Type ℓ} where
  pub Result-cases : (r : Result A E) → ((a : A) × (r ≡ ok a)) ⊎ ((e : E) × (r ≡ err e))
  Result-cases (ok a) = inl (a, refl)
  Result-cases (err e) = inr (e, refl)

  pub ok_path : {a b : A} → ◌≡◌ {A = Result A E} (ok a) (ok b) → a ≡ b
  ok_path h = cc

  pub ok_err : {a : A} {e : E} → ◌≡◌ {A = Result A E} (ok a) (err e) → ⊥
  ok_err h = absurd (cc)
