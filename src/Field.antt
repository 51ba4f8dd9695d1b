-- ===== src/Field.antt =====
-- The scalar field that the whole crate is generic over: `ark_ff::Field` with the operations and
-- the documented laws that the source relies on. The crate does not implement it, so it is a
-- parameter. `a.square()` is read as `a * a`, and `a -= b` as `a + (- b)`.
pub mod Laws
pub mod Powers
pub mod Five
use barustenberg.Prelude.{ℕ, zero, suc, ◌≡◌, ◌≢◌, Option, none, some, Outcome, ok, panic}

pub record Field {ℓ} (A : Type ℓ) : Type ℓ where
  pub zero : A
  pub one : A
  pub add : A → A → A
  pub mul : A → A → A
  pub neg : A → A
  -- `inverse()`
  pub inverse : A → Option A
  -- `pow([n])`
  pub pow : A → ℕ → A
  pub neg-add_self : (a : A) → add (neg a) a ≡ zero
  pub zero-add : (a : A) → add zero a ≡ a
  pub mul_comm : (a b : A) → mul a b ≡ mul b a
  pub mul_assoc : (a b c : A) → mul (mul a b) c ≡ mul a (mul b c)
  pub one-mul : (a : A) → mul one a ≡ a
  pub add_comm : (a b : A) → add a b ≡ add b a
  pub add_assoc : (a b c : A) → add (add a b) c ≡ add a (add b c)
  pub mul-add : (a b c : A) → mul a (add b c) ≡ add (mul a b) (mul a c)
  pub one_ne_zero : one ≢ zero
  pub inverse-zero : inverse zero ≡ none
  pub inverse-some : (a b : A) → inverse a ≡ some b → mul a b ≡ one
  pub inverse-none : (a : A) → inverse a ≡ none → a ≡ zero
  pub pow-zero : (a : A) → pow a ℕ.zero ≡ one
  pub pow-suc : (a : A) (n : ℕ) → pow a (suc n) ≡ mul (pow a n) a

module _ {ℓ} {A : Type ℓ} ⦃f : Field A⦄ where
  infixl 65 ◌⊕◌ ◌⊖◌
  infixl 70 ◌⊗◌
  abbrev pub ◌⊕◌ : A → A → A
  a ⊕ b = f.add a b

  abbrev pub ◌⊗◌ : A → A → A
  a ⊗ b = f.mul a b

  abbrev pub ◌⊖◌ : A → A → A
  a ⊖ b = f.add a (f.neg b)

  -- `x.inverse().unwrap()`
  abbrev pub invert : A → Outcome A
  invert a = elim (f.inverse a) [ none ↦ panic | some b ↦ ok b ]

  -- `a / b`, which unwraps the inverse of `b`.
  abbrev pub divide : A → A → Outcome A
  divide a b = elim (f.inverse b) [ none ↦ panic | some c ↦ ok (a ⊗ c) ]
