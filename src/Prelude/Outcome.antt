-- ===== src/Prelude/Outcome.antt =====
-- include/cppload/result.hpp: `Result<T, E>`, a value or an error.
use Prim.Native.Nat.{ℕ}
use mathlib.Core.Path.{◌≡◌, refl, ap}
use mathlib.Core.Logic.{◌⊎◌, inl, inr}
use mathlib.Core.Bool.{Bool, true, false}

pub data Result {ℓ κ} (T : Type ℓ) (E : Type κ) : Type (ℓ ⊔ κ) where
  ok : T → Result T E
  err : E → Result T E

module _ {ℓ κ} {T : Type ℓ} {E : Type κ} where
  abbrev pub has_value : Result T E → Bool
  has_value (ok t) = true
  has_value (err e) = false

  pub Result-cases : (r : Result T E) → ((e : E) × (r ≡ err e)) ⊎ ((t : T) × (r ≡ ok t))
  Result-cases (err e) = inl (e, refl)
  Result-cases (ok t) = inr (t, refl)

  value_or : T → Result T E → T
  value_or d (ok t) = t
  value_or d (err e) = d

  pub ok-injective : (a b : T) → ◌≡◌ {A = Result T E} (ok a) (ok b) → a ≡ b
  unfolding value_or
  ok-injective a b e = ap (value_or a) e

infixl 5 ◌>>=◌
abbrev pub ◌>>=◌ {ℓ κ μ} :
    {A : Type ℓ} {B : Type κ} {E : Type μ} → Result A E → (A → Result B E) → Result B E
ok a >>= f = f a
err e >>= f = err e

-- A number as the sources read it where only its sign is tested before it is used.
pub data Signed : Type 0 where
  nonneg : ℕ → Signed
  negative : Signed
