-- ===== src/Base/Result.antt =====
-- Rust's `Result`.
use mathlib.Core.Path.{◌≡◌, refl}
use mathlib.Core.Logic.{◌⊎◌, inl, inr}

pub data Result {ℓ} (A E : Type ℓ) : Type ℓ where
  ok : A → Result A E
  err : E → Result A E

module _ {ℓ} {A B E : Type ℓ} where
  infixl 5 ◌>>=◌
  -- `?`: the first error ends the function.
  abbrev pub ◌>>=◌ : Result A E → (A → Result B E) → Result B E
  ok a >>= f = f a
  err e >>= f = err e

  abbrev pub map_err : (E → B) → Result A E → Result A B
  map_err f (ok a) = ok a
  map_err f (err e) = err (f e)

module _ {ℓ} {A E : Type ℓ} where
  pub Result-cases : (r : Result A E) → ((a : A) × (r ≡ ok a)) ⊎ ((e : E) × (r ≡ err e))
  Result-cases (ok a) = inl (a, refl)
  Result-cases (err e) = inr (e, refl)
