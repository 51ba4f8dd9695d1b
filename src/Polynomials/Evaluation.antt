-- ===== src/Polynomials/Evaluation.antt =====
-- The value of a polynomial at a point, as the specification: the sum of the coefficients times the
-- powers of the point, by Horner's rule.
use barustenberg.Prelude.{
  ℕ, zero, suc, ◌+◌, ◌≡◌, refl, sym, ap, ◌∙◌, List, [], ◌∷◌, ◌++◌, arith, length, take, drop,
  replicate, map, take-nil,
}
use barustenberg.Field.{Field, ◌⊕◌, ◌⊗◌}
use barustenberg.Field.Laws.{mul-zero, zero-mul, add-mul}
use barustenberg.Field.Powers.{pow-suc_left}

module _ {ℓ} {A : Type ℓ} ⦃f : Field A⦄ where
  abbrev pub eval : List A → A → A
  eval [] z = f.zero
  eval (c ∷ cs) z = c ⊕ z ⊗ eval cs z

  -- A split of the coefficients at `a` is a sum, the second part times the `a`-th power.
  pub eval-split :
      (a b : ℕ) (cs : List A) (z : A)
      → eval (take (a + b) cs) z ≡ eval (take a cs) z ⊕ f.pow z a ⊗ eval (take b (drop a cs)) z
  eval-split zero b cs z =
      ap (λ k. eval (take k cs) z) {x = 0 + b} {y = b} (omega arith)
      ∙ sym (f.one-mul _)
      ∙ ap (λ t. t ⊗ eval (take b cs) z) (sym (f.pow-zero z))
      ∙ sym (f.zero-add _)
  eval-split (suc a) b [] z =
      ap (λ t. eval t z) (take-nil (suc a + b))
      ∙ sym (mul-zero (f.pow z (suc a)))
      ∙ sym (f.zero-add _)
      ∙ ap (λ t. f.zero ⊕ f.pow z (suc a) ⊗ eval t z) (sym (take-nil b))
  eval-split (suc a) b (c ∷ cs) z =
      ap (λ k. eval (take k (c ∷ cs)) z) {x = suc a + b} {y = suc (a + b)} (omega arith)
      ∙ ap (λ t. c ⊕ z ⊗ t) (eval-split a b cs z)
      ∙ ap (λ t. c ⊕ t) (f.mul-add z _ _)
      ∙ sym (f.add_assoc _ _ _)
      ∙ ap (λ t. (c ⊕ z ⊗ eval (take a cs) z) ⊕ t)
          (sym (f.mul_assoc z (f.pow z a) _)
            ∙ ap (λ t. t ⊗ eval (take b (drop a cs)) z) (sym (pow-suc_left z a)))

  pub eval-append :
      (xs ys : List A) (z : A) → eval (xs ++ ys) z ≡ eval xs z ⊕ f.pow z (length xs) ⊗ eval ys z
  eval-append [] ys z =
      sym (f.one-mul _) ∙ ap (λ t. t ⊗ eval ys z) (sym (f.pow-zero z)) ∙ sym (f.zero-add _)
  eval-append (x ∷ xs) ys z =
      ap (λ t. x ⊕ z ⊗ t) (eval-append xs ys z)
      ∙ ap (λ t. x ⊕ t) (f.mul-add z _ _)
      ∙ sym (f.add_assoc _ _ _)
      ∙ ap (λ t. (x ⊕ z ⊗ eval xs z) ⊕ t)
          (sym (f.mul_assoc z (f.pow z (length xs)) _)
            ∙ ap (λ t. t ⊗ eval ys z) (sym (pow-suc_left z (length xs))))

  pub eval-replicate_zero : (n : ℕ) (z : A) → eval (replicate n f.zero) z ≡ f.zero
  eval-replicate_zero zero z = refl
  eval-replicate_zero (suc n) z =
      f.zero-add _ ∙ ap (λ t. z ⊗ t) (eval-replicate_zero n z) ∙ mul-zero z

  pub eval-scale : (cs : List A) (a z : A) → eval (map (λ c. c ⊗ a) cs) z ≡ eval cs z ⊗ a
  eval-scale [] a z = sym (zero-mul a)
  eval-scale (c ∷ cs) a z =
      ap (λ t. c ⊗ a ⊕ z ⊗ t) (eval-scale cs a z)
      ∙ ap (λ t. c ⊗ a ⊕ t) (sym (f.mul_assoc z _ a))
      ∙ sym (add-mul c (z ⊗ eval cs z) a)
