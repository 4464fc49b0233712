-- ===== src/Prelude/Outcome.antt =====
-- How a call of the C code ends. A call that returns carries the new state; `exits` is a call of
-- exit(); `fault` is an access outside the memory that the program owns, or through NULL; and
-- `out_of_fuel` is a loop of the model that was given too few rounds.
use mathlib.Core.Path.{◌≡◌, refl}

pub data Run {ℓ} (A : Type ℓ) : Type ℓ where
  done : A → Run A
  exits fault out_of_fuel : Run A

-- RET_SUCC and RET_FAIL of include/comm.h.
pub data Ret : Type 0 where
  ret_succ ret_fail : Ret

infixl 5 ◌>>=◌
abbrev pub ◌>>=◌ {ℓ κ} : {A : Type ℓ} {B : Type κ} → Run A → (A → Run B) → Run B
done a >>= f = f a
exits >>= f = exits
fault >>= f = fault
out_of_fuel >>= f = out_of_fuel

-- The call returns, with a result that satisfies `P`.
abbrev pub Returns {ℓ} : {A : Type ℓ} → (A → Type 0) → Run A → Type 0
Returns P (done a) = P a
Returns P exits = ⊥
Returns P fault = ⊥
Returns P out_of_fuel = ⊥

module _ {ℓ κ} {A : Type ℓ} {B : Type κ} where
  pub Returns-bind :
      (P : A → Type 0) (Q : B → Type 0) (r : Run A) (f : A → Run B)
      → Returns P r
      → ((a : A) → P a → Returns Q (f a))
      → Returns Q (r >>= f)
  Returns-bind P Q (done a) f p k = k a p
  Returns-bind P Q exits f p k = absurd p
  Returns-bind P Q fault f p k = absurd p
  Returns-bind P Q out_of_fuel f p k = absurd p

module _ {ℓ} {A : Type ℓ} where
  pub Returns-map :
      (P Q : A → Type 0) (r : Run A) → Returns P r → ((a : A) → P a → Q a) → Returns Q r
  Returns-map P Q (done a) p k = k a p
  Returns-map P Q exits p k = absurd p
  Returns-map P Q fault p k = absurd p
  Returns-map P Q out_of_fuel p k = absurd p

  pub Returns-inv : (P : A → Type 0) (r : Run A) → Returns P r → (a : A) × (r ≡ done a) × P a
  Returns-inv P (done a) p = (a, refl, p)
  Returns-inv P exits p = absurd p
  Returns-inv P fault p = absurd p
  Returns-inv P out_of_fuel p = absurd p
