-- ===== src/Prelude/Outcomes.antt =====
-- What a Rust call comes to, slices with their bounds checks, and counted loops.
use Prim.Native.Nat.{ℕ, zero, suc, ◌+◌}
use mathlib.Core.Path.{◌≡◌, refl}
use mathlib.Core.Bool.{Bool, true, false}
use mathlib.Core.List.{List, [], ◌∷◌}

pub data Outcome {ℓ} (A : Type ℓ) : Type ℓ where
  ok : A → Outcome A
  err : Outcome A
  panic : Outcome A

infixl 5 ◌>>=◌ ◌>>◌
abbrev pub ◌>>=◌ {ℓ κ} : {A : Type ℓ} {B : Type κ} → Outcome A → (A → Outcome B) → Outcome B
ok a >>= f = f a
err >>= f = err
panic >>= f = panic

abbrev pub ◌>>◌ {ℓ} : {B : Type ℓ} → Outcome (Unit {0}) → Outcome B → Outcome B
m >> k = m >>= λ _. k

pub >>=_assoc {ℓ κ μ} :
    {A : Type ℓ} {B : Type κ} {C : Type μ} (m : Outcome A) (f : A → Outcome B) (g : B → Outcome C)
    → (m >>= f >>= g) ≡ (m >>= λ a. f a >>= g)
>>=_assoc (ok a) f g = refl
>>=_assoc err f g = refl
>>=_assoc panic f g = refl

pub ok-injective {ℓ} : {A : Type ℓ} (a b : A) → ok a ≡ ok b → a ≡ b
ok-injective a b h = cc

-- What a successful chain came through.
pub >>=-eq-ok {ℓ κ} :
    {A : Type ℓ} {B : Type κ} (m : Outcome A) (f : A → Outcome B) {b : B}
    → (m >>= f) ≡ ok b
    → (a : A) × (f a ≡ ok b) × (m ≡ ok a)
>>=-eq-ok (ok a) f h = (a, h, refl)
>>=-eq-ok err f h = cc
>>=-eq-ok panic f h = cc

-- `assert!`
abbrev pub assert : Bool → Outcome (Unit {0})
assert true = ok tt
assert false = panic

module _ {ℓ} {A : Type ℓ} where
  -- `xs[i]`
  abbrev pub index : List A → ℕ → Outcome A
  index [] i = panic
  index (x ∷ xs) zero = ok x
  index (x ∷ xs) (suc i) = index xs i

  -- `xs[i] = v`
  abbrev pub assign : List A → ℕ → A → Outcome (List A)
  assign [] i v = panic
  assign (x ∷ xs) zero v = ok (v ∷ xs)
  assign (x ∷ xs) (suc i) v = do rest ← assign xs i v; ok (x ∷ rest)

-- `for i in (start..).step_by(step)`, `n` rounds.
unfoldable pub for_step {ℓ} :
    {S : Type ℓ} → (step n start : ℕ) → (ℕ → S → Outcome S) → S → Outcome S
for_step step zero i body s = ok s
for_step step (suc n) i body s = body i s >>= λ s'. for_step step n (i + step) body s'

-- `for i in start..start + n`
unfoldable pub for_range {ℓ} : {S : Type ℓ} → (n start : ℕ) → (ℕ → S → Outcome S) → S → Outcome S
for_range zero i body s = ok s
for_range (suc n) i body s = body i s >>= λ s'. for_range n (suc i) body s'
