-- ===== src/Common/Outcome.antt =====
-- `Result<T, E>`, with the chaining that `?` and `map_err` do.
use mathlib.Core.Path.{◌≡◌, refl}
use mathlib.Core.Logic.{◌⊎◌, inl, inr}
use mathlib.Core.Option.{Option, none, some}

pub data Result {ℓ κ} (A : Type ℓ) (E : Type κ) : Type (ℓ ⊔ κ) where
  ok : A → Result A E
  err : E → Result A E

module _ {ℓ κ} {A : Type ℓ} {E : Type κ} where
  -- `Option::ok_or`
  abbrev pub ok_or : Option A → E → Result A E
  ok_or (some a) e = ok a
  ok_or none e = err e

  -- `Result::map_err`
  abbrev pub map_err {μ} : {F : Type μ} → (E → F) → Result A E → Result A F
  map_err f (err e) = err (f e)
  map_err f (ok a) = ok a

  pub Result-cases : (r : Result A E) → ((a : A) × (r ≡ ok a)) ⊎ ((e : E) × (r ≡ err e))
  Result-cases (ok a) = inl (a, refl)
  Result-cases (err e) = inr (e, refl)

-- `?`, as the do blocks write it.
infixl 5 ◌>>=◌ ◌>>◌
pub ok_injective {ℓ κ} :
    {A : Type ℓ} {E : Type κ} {a b : A} → ◌≡◌ {A = Result A E} (ok a) (ok b) → a ≡ b
ok_injective h = cc

abbrev pub ◌>>=◌ {ℓ κ μ} :
    {T : Type ℓ} {U : Type κ} {E : Type μ} → Result T E → (T → Result U E) → Result U E
err e >>= rest = err e
ok t >>= rest = rest t

abbrev pub ◌>>◌ {κ μ} : {U : Type κ} {E : Type μ} → Result (Unit {0}) E → Result U E → Result U E
check >> next = check >>= λ _. next
