-- ===== src/Polynomials.antt =====
-- barustenberg/src/polynomials/polynomial.rs: a dense polynomial, which keeps its size beside its
-- coefficients. An index out of range panics.
pub mod Evaluation
pub mod Arithmetic
pub mod Evaluate
pub mod Subgroup
pub mod Lagrange
pub mod Roots
pub mod Transform
pub mod Interpolation
pub mod Fft
pub mod Inplace
pub mod Serial
mod Tests
use barustenberg.Prelude.{
  ℕ, zero, suc, ◌-◌, List, [], ◌∷◌, ◌++◌, Outcome, ok, panic, index, assign, ◌>>=◌, ltb,
  if◌then◌else◌, length, replicate, take,
}
use barustenberg.Field.{Field, ◌⊕◌, ◌⊗◌, ◌⊖◌}

pub record Polynomial {ℓ} (A : Type ℓ) : Type ℓ where
  pub size : ℕ
  pub coefficients : List A

-- `Vec::resize`
abbrev pub resize_vec {ℓ} : {A : Type ℓ} → List A → ℕ → A → List A
resize_vec [] n v = replicate n v
resize_vec (x ∷ xs) zero v = []
resize_vec (x ∷ xs) (suc n) v = x ∷ resize_vec xs n v

-- The loops of `add_assign` and `sub_assign`: `xs[i] = op(xs[i], ys[i])` for `n` values of `i`.
unfoldable pub update_each {ℓ} :
    {A : Type ℓ} → (A → A → A) → (n i : ℕ) → List A → List A → Outcome (List A)
update_each op zero i xs ys = ok xs
update_each op (suc n) i xs ys = do
  a ← index xs i
  b ← index ys i
  xs' ← assign xs i (op a b)
  update_each op n (suc i) xs' ys

-- The loop of `mul_assign`.
unfoldable pub scale_each {ℓ} : {A : Type ℓ} → (A → A) → (n i : ℕ) → List A → Outcome (List A)
scale_each op zero i xs = ok xs
scale_each op (suc n) i xs = do
  a ← index xs i
  xs' ← assign xs i (op a)
  scale_each op n (suc i) xs'

module _ {ℓ} {A : Type ℓ} ⦃f : Field A⦄ where
  unfoldable pub new : ℕ → Polynomial A
  new size = record { size = size; coefficients = replicate size f.zero }

  unfoldable pub set_coefficient : Polynomial A → ℕ → A → Outcome (Polynomial A)
  set_coefficient p idx v = do cs ← assign p.coefficients idx v; ok (record p { coefficients = cs })

  -- The field `size` keeps its value.
  unfoldable pub resize : Polynomial A → ℕ → A → Polynomial A
  resize p new_len val = record p { coefficients = resize_vec p.coefficients new_len val }

  pub combine_assign : (A → A → A) → Polynomial A → Polynomial A → Outcome (Polynomial A)
  unfolding resize
  combine_assign op p rhs =
      let padded = if ltb p.size rhs.size then resize p rhs.size f.zero else p in
      do
        cs ← update_each op rhs.size 0 padded.coefficients rhs.coefficients
        ok (record padded { coefficients = cs })

  pub add_assign : Polynomial A → Polynomial A → Outcome (Polynomial A)
  unfolding combine_assign
  add_assign p rhs = combine_assign (λ a b. a ⊕ b) p rhs

  pub sub_assign : Polynomial A → Polynomial A → Outcome (Polynomial A)
  unfolding combine_assign
  sub_assign p rhs = combine_assign (λ a b. a ⊖ b) p rhs

  pub mul_assign : Polynomial A → A → Outcome (Polynomial A)
  mul_assign p rhs = do
    cs ← scale_each (λ a. a ⊗ rhs) p.size 0 p.coefficients
    ok (record p { coefficients = cs })
