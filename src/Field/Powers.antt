-- ===== src/Field/Powers.antt =====
-- Powers in the field.
use barustenberg.Prelude.{ℕ, zero, suc, ◌+◌, ◌*◌, ◌≡◌, sym, ap, ◌∙◌, arith}
use barustenberg.Field.{Field, ◌⊗◌}
use barustenberg.Field.Laws.{mul-one, mul_left_comm}

module _ {ℓ} {A : Type ℓ} ⦃f : Field A⦄ where
  pub pow-suc_left : (a : A) (n : ℕ) → f.pow a (suc n) ≡ a ⊗ f.pow a n
  pow-suc_left a n = f.pow-suc a n ∙ f.mul_comm (f.pow a n) a

  pub pow-one : (a : A) → f.pow a 1 ≡ a
  pow-one a = f.pow-suc a 0 ∙ ap (λ t. t ⊗ a) (f.pow-zero a) ∙ f.one-mul a

  pub pow-add : (a : A) (m n : ℕ) → f.pow a (m + n) ≡ f.pow a m ⊗ f.pow a n
  pow-add a m zero =
      ap (f.pow a) {x = m + 0} {y = m} (omega arith)
      ∙ sym (mul-one (f.pow a m))
      ∙ ap (λ t. f.pow a m ⊗ t) (sym (f.pow-zero a))
  pow-add a m (suc n) =
      ap (f.pow a) {x = m + suc n} {y = suc (m + n)} (omega arith)
      ∙ f.pow-suc a (m + n)
      ∙ ap (λ t. t ⊗ a) (pow-add a m n)
      ∙ f.mul_assoc (f.pow a m) (f.pow a n) a
      ∙ ap (λ t. f.pow a m ⊗ t) (sym (f.pow-suc a n))

  pub one-pow : (n : ℕ) → f.pow f.one n ≡ f.one
  one-pow zero = f.pow-zero f.one
  one-pow (suc n) = f.pow-suc f.one n ∙ mul-one _ ∙ one-pow n

  pub mul-pow : (a b : A) (n : ℕ) → f.pow (a ⊗ b) n ≡ f.pow a n ⊗ f.pow b n
  mul-pow a b zero =
      f.pow-zero (a ⊗ b)
      ∙ sym (f.one-mul f.one)
      ∙ ap (λ t. t ⊗ f.one) (sym (f.pow-zero a))
      ∙ ap (λ t. f.pow a 0 ⊗ t) (sym (f.pow-zero b))
  mul-pow a b (suc n) =
      f.pow-suc (a ⊗ b) n
      ∙ ap (λ t. t ⊗ (a ⊗ b)) (mul-pow a b n)
      ∙ f.mul_assoc (f.pow a n) (f.pow b n) (a ⊗ b)
      ∙ ap (λ t. f.pow a n ⊗ t) (mul_left_comm (f.pow b n) a b)
      ∙ sym (f.mul_assoc (f.pow a n) a (f.pow b n ⊗ b))
      ∙ ap (λ t. t ⊗ (f.pow b n ⊗ b)) (sym (f.pow-suc a n))
      ∙ ap (λ t. f.pow a (suc n) ⊗ t) (sym (f.pow-suc b n))

  pub pow-mul : (a : A) (m n : ℕ) → f.pow a (m * n) ≡ f.pow (f.pow a m) n
  pow-mul a m zero =
      ap (f.pow a) {x = m * 0} {y = 0} (omega arith) ∙ f.pow-zero a ∙ sym (f.pow-zero _)
  pow-mul a m (suc n) =
      ap (f.pow a) {x = m * suc n} {y = m * n + m} (omega arith)
      ∙ pow-add a (m * n) m
      ∙ ap (λ t. t ⊗ f.pow a m) (pow-mul a m n)
      ∙ sym (f.pow-suc (f.pow a m) n)
