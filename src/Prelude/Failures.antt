-- ===== src/Prelude/Failures.antt =====
-- Which outcomes a computation cannot have.
use Prim.Native.String.{String}
use Prim.Native.Nat.{ℕ, zero, suc, ◌<◌}
use mathlib.Core.Path.{◌≡◌, refl}
use mathlib.Core.Logic.{◌≢◌}
use mathlib.Core.Bool.{Bool, true, false}
use mathlib.Core.Option.{Option, none, some}
use mathlib.Core.List.{List, [], ◌∷◌}
use native.Mathlib.Omega.{arith}
use barustenberg.Prelude.Lists.{length}
use barustenberg.Prelude.Outcomes.{Outcome, ok, err, panic, index, assign, assert, ◌>>=◌}
use barustenberg.Prelude.Maps.{index_map, lookup}

pub index-lt {ℓ} : {A : Type ℓ} (xs : List A) (i : ℕ) {v : A} → index xs i ≡ ok v → i < length xs
index-lt [] i h = cc
index-lt (x ∷ xs) zero h = omega arith
index-lt (x ∷ xs) (suc i) h = omega (arith, index-lt xs i h)

-- A step that cannot fail with an `Err` panics if all that follows it panics.
module _ {ℓ κ} {A : Type ℓ} {B : Type κ} where
  pub bind-panic :
      (m : Outcome B) (k : B → Outcome A) → m ≢ err → ((b : B) → k b ≡ panic) → (m >>= k) ≡ panic
  bind-panic (ok b) k h g = g b
  bind-panic err k h g = absurd (h refl)
  bind-panic panic k h g = refl

  pub bind-ne_err :
      (m : Outcome B) (k : B → Outcome A) → m ≢ err → ((b : B) → k b ≢ err) → (m >>= k) ≢ err
  bind-ne_err (ok b) k h g = g b
  bind-ne_err err k h g = absurd (h refl)
  bind-ne_err panic k h g = λ e. cc

module _ {ℓ} {A : Type ℓ} where
  pub index-ne_err : (xs : List A) (i : ℕ) → index xs i ≢ err
  index-ne_err [] i = λ e. cc
  index-ne_err (x ∷ xs) zero = λ e. cc
  index-ne_err (x ∷ xs) (suc i) = index-ne_err xs i

  pub assign-ne_err : (xs : List A) (i : ℕ) (v : A) → assign xs i v ≢ err
  assign-ne_err [] i v = λ e. cc
  assign-ne_err (x ∷ xs) zero v = λ e. cc
  assign-ne_err (x ∷ xs) (suc i) v =
      bind-ne_err (assign xs i v) _ (assign-ne_err xs i v) (λ r e. cc)

  pub option-ne_err :
      (o : Option A) → elim o as (λ x. Outcome A) [ none ↦ panic | some v ↦ ok v ] ≢ err
  option-ne_err none e = cc
  option-ne_err (some v) e = cc

  pub index_map-ne_err : (k : String) (m : List (String × A)) → index_map k m ≢ err
  index_map-ne_err k m = option-ne_err (lookup k m)

pub assert-ne_err : (b : Bool) → assert b ≢ err
assert-ne_err true e = cc
assert-ne_err false e = cc
