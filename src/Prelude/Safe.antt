-- ===== src/Prelude/Safe.antt =====
-- Calls that come to an end without a fault.
use mathlib.Core.Bool.{Bool, true, false}
use mathlib.Core.Path.{◌≡◌, refl}
use tcpframe.Prelude.Tests.{if◌then◌else◌}
use tcpframe.Prelude.Unless.{Unless}
use tcpframe.Prelude.Outcome.{Run, done, exits, fault, out_of_fuel, ◌>>=◌, Returns}

abbrev pub SafeOf {ℓ} : {A : Type ℓ} → (A → Type 0) → Run A → Type 0
SafeOf P (done a) = P a
SafeOf P exits = Unit
SafeOf P fault = ⊥
SafeOf P out_of_fuel = ⊥

-- The call returns with a result of which `P` holds, or ends the process by exit().
pub record Safe {A : Type 0} (P : A → Type 0) (r : Run A) : Type 0 where
  pub safe : SafeOf P r

module _ {A : Type 0} where
  pub Safe-done : (P : A → Type 0) (a : A) → P a → Safe P (done a)
  Safe-done P a p = record { safe = p }

  pub Safe-exits : (P : A → Type 0) → Safe P exits
  Safe-exits P = record { safe = tt }

  pub Safe-if :
      (P : A → Type 0) (b : Bool) (x y : Run A)
      → (b ≡ true → Safe P x)
      → (b ≡ false → Safe P y)
      → Safe P (if b then x else y)
  Safe-if P true x y p q = p refl
  Safe-if P false x y p q = q refl

  pub Safe-weaken : (P Q : A → Type 0) (r : Run A) → Safe P r → ((a : A) → P a → Q a) → Safe Q r
  Safe-weaken P Q (done a) p k = record { safe = k a p.safe }
  Safe-weaken P Q exits p k = record { safe = tt }
  Safe-weaken P Q fault p k = absurd p.safe
  Safe-weaken P Q out_of_fuel p k = absurd p.safe

module _ {A : Type 0} (P Q : A → Type 0) where
  pub Safe-both : (r : Run A) → Safe P r → Safe Q r → Safe (λ a. P a × Q a) r
  Safe-both (done a) p q = record { safe = (p.safe, q.safe) }
  Safe-both exits p q = record { safe = tt }
  Safe-both fault p q = absurd p.safe
  Safe-both out_of_fuel p q = absurd p.safe

module _ {A B : Type 0} where
  pub Safe-bind :
      (P : A → Type 0) (Q : B → Type 0) (r : Run A) (f : A → Run B)
      → Safe P r
      → ((a : A) → P a → Safe Q (f a))
      → Safe Q (r >>= f)
  Safe-bind P Q (done a) f p k = k a p.safe
  Safe-bind P Q exits f p k = record { safe = tt }
  Safe-bind P Q fault f p k = absurd p.safe
  Safe-bind P Q out_of_fuel f p k = absurd p.safe

module _ {A : Type 0} where
  pub Returns-Safe : (P : A → Type 0) (r : Run A) → Returns P r → Safe P r
  Returns-Safe P (done a) p = record { safe = p }
  Returns-Safe P exits p = absurd p
  Returns-Safe P fault p = absurd p
  Returns-Safe P out_of_fuel p = absurd p

  pub Safe-Unless : (P : A → Type 0) (r : Run A) → Safe P r → Unless P r
  Safe-Unless P (done a) p = record { holds = p.safe }
  Safe-Unless P exits p = record { holds = tt }
  Safe-Unless P fault p = absurd p.safe
  Safe-Unless P out_of_fuel p = absurd p.safe
