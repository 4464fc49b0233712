-- ===== src/Prelude/Unless.antt =====
-- What holds of a call if it returns.
use mathlib.Core.Bool.{Bool, true, false}
use mathlib.Core.Path.{◌≡◌, subst}
use tcpframe.Prelude.Tests.{if◌then◌else◌}
use tcpframe.Prelude.Outcome.{Run, done, exits, fault, out_of_fuel, ◌>>=◌, Ret, ret_succ, ret_fail}

abbrev pub HoldsOf {ℓ} : {A : Type ℓ} → (A → Type 0) → Run A → Type 0
HoldsOf P (done a) = P a
HoldsOf P exits = Unit
HoldsOf P fault = Unit
HoldsOf P out_of_fuel = Unit

-- `P` holds of the result, where there is one.
pub record Unless {A : Type 0} (P : A → Type 0) (r : Run A) : Type 0 where
  pub holds : HoldsOf P r

module _ {A : Type 0} where
  pub Unless-done : (P : A → Type 0) (a : A) → P a → Unless P (done a)
  Unless-done P a p = record { holds = p }

  pub Unless-exits : (P : A → Type 0) → Unless P exits
  Unless-exits P = record { holds = tt }

  pub Unless-fault : (P : A → Type 0) → Unless P fault
  Unless-fault P = record { holds = tt }

  pub Unless-fuel : (P : A → Type 0) → Unless P out_of_fuel
  Unless-fuel P = record { holds = tt }

  pub Unless-any : (r : Run A) → Unless (λ a. Unit) r
  Unless-any (done a) = record { holds = tt }
  Unless-any exits = record { holds = tt }
  Unless-any fault = record { holds = tt }
  Unless-any out_of_fuel = record { holds = tt }

  pub Unless-if :
      (P : A → Type 0) (b : Bool) (x y : Run A)
      → Unless P x
      → Unless P y
      → Unless P (if b then x else y)
  Unless-if P true x y p q = p
  Unless-if P false x y p q = q

  pub Unless-ret :
      (P : A → Type 0) (r : Ret) (x y : Run A)
      → Unless P x
      → Unless P y
      → Unless P (elim r [ ret_fail ↦ x | ret_succ ↦ y ])
  Unless-ret P ret_fail x y p q = p
  Unless-ret P ret_succ x y p q = q

module _ {A B : Type 0} where
  pub Unless-bind :
      (P : A → Type 0) (Q : B → Type 0) (r : Run A) (f : A → Run B)
      → Unless P r
      → ((a : A) → P a → Unless Q (f a))
      → Unless Q (r >>= f)
  Unless-bind P Q (done a) f p k = k a p.holds
  Unless-bind P Q exits f p k = record { holds = tt }
  Unless-bind P Q fault f p k = record { holds = tt }
  Unless-bind P Q out_of_fuel f p k = record { holds = tt }

module _ {A : Type 0} where
  -- A call that returned did so with a result of which `P` holds.
  pub Unless-returned : (P : A → Type 0) (r : Run A) (a : A) → Unless P r → r ≡ done a → P a
  Unless-returned P r a u e = (subst (Unless P) e u).holds

  pub Unless-weaken :
      (P Q : A → Type 0) (r : Run A) → Unless P r → ((a : A) → P a → Q a) → Unless Q r
  Unless-weaken P Q (done a) p k = record { holds = k a p.holds }
  Unless-weaken P Q exits p k = record { holds = tt }
  Unless-weaken P Q fault p k = record { holds = tt }
  Unless-weaken P Q out_of_fuel p k = record { holds = tt }
