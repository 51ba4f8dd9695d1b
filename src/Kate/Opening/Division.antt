-- ===== src/Kate/Opening/Division.antt =====
-- Division by `X - z` from the lowest coefficient up, and why it leaves no remainder.
use barustenberg.Prelude.{ℕ, ◌≡◌, sym, ap, ◌∙◌, List, [], ◌∷◌, length, ◌≡⟨◌⟩◌, ◌∎}
use barustenberg.Field.{Field, ◌⊕◌, ◌⊗◌, ◌⊖◌}
use barustenberg.Field.Laws.{
  add-zero, mul-zero, zero-mul, mul-one, add-neg_self, sub-add_cancel, add-neg_cancel, neg-mul,
  add_right_cancel, sub-mul, mul_left_comm,
}
use barustenberg.Field.Powers.{pow-suc_left, mul-pow, one-pow}
use barustenberg.Polynomials.Evaluation.{eval}

module _ {ℓ} {A : Type ℓ} ⦃f : Field A⦄ where
  -- The quotient's coefficients: each is the coefficient less the one before it, times the divisor.
  abbrev pub quotient : A → A → List A → List A
  quotient d before [] = []
  quotient d before (c ∷ cs) = (c ⊖ before) ⊗ d ∷ quotient d ((c ⊖ before) ⊗ d) cs

  -- The last one, or what stands before the list.
  abbrev pub last_of : A → List A → A
  last_of w [] = w
  last_of w (v ∷ vs) = last_of v vs

  step_identity : (b z w x s : A) → (b ⊖ z ⊗ w) ⊕ x ⊗ (w ⊕ (x ⊖ z) ⊗ s) ≡ b ⊕ (x ⊖ z) ⊗ (w ⊕ x ⊗ s)
  step_identity b z w x s =
      (b ⊖ z ⊗ w) ⊕ x ⊗ (w ⊕ (x ⊖ z) ⊗ s)
      ≡⟨ f.add_assoc b (f.neg (z ⊗ w)) _ ⟩ b ⊕ (f.neg (z ⊗ w) ⊕ x ⊗ (w ⊕ (x ⊖ z) ⊗ s))
      ≡⟨ ap (λ t. b ⊕ (f.neg (z ⊗ w) ⊕ t)) (f.mul-add x w ((x ⊖ z) ⊗ s)) ⟩
        b ⊕ (f.neg (z ⊗ w) ⊕ (x ⊗ w ⊕ x ⊗ ((x ⊖ z) ⊗ s)))
      ≡⟨ ap (λ t. b ⊕ t) (sym (f.add_assoc _ _ _)) ⟩
        b ⊕ ((f.neg (z ⊗ w) ⊕ x ⊗ w) ⊕ x ⊗ ((x ⊖ z) ⊗ s))
      ≡⟨ ap (λ t. b ⊕ (t ⊕ x ⊗ ((x ⊖ z) ⊗ s))) (f.add_comm _ _ ∙ sym (sub-mul x z w)) ⟩
        b ⊕ ((x ⊖ z) ⊗ w ⊕ x ⊗ ((x ⊖ z) ⊗ s))
      ≡⟨ ap (λ t. b ⊕ ((x ⊖ z) ⊗ w ⊕ t)) (mul_left_comm x (x ⊖ z) s) ⟩
        b ⊕ ((x ⊖ z) ⊗ w ⊕ (x ⊖ z) ⊗ (x ⊗ s))
      ≡⟨ ap (λ t. b ⊕ t) (sym (f.mul-add (x ⊖ z) w (x ⊗ s))) ⟩ b ⊕ (x ⊖ z) ⊗ (w ⊕ x ⊗ s) ∎

  module _ (z d : A) (unit : f.neg z ⊗ d ≡ f.one) where
    -- The divisor undoes the multiplication by `- z`.
    coefficient : (c b : A) → c ≡ b ⊖ z ⊗ ((c ⊖ b) ⊗ d)
    coefficient c b =
        c
        ≡⟨ sym (sub-add_cancel c b) ⟩ (c ⊖ b) ⊕ b
        ≡⟨ f.add_comm (c ⊖ b) b ⟩ b ⊕ (c ⊖ b)
        ≡⟨ ap (λ t. b ⊕ t) (sym (mul-one (c ⊖ b)) ∙ ap (λ t. (c ⊖ b) ⊗ t) (sym unit)) ⟩
          b ⊕ (c ⊖ b) ⊗ (f.neg z ⊗ d)
        ≡⟨ ap (λ t. b ⊕ t) (mul_left_comm (c ⊖ b) (f.neg z) d) ⟩ b ⊕ f.neg z ⊗ ((c ⊖ b) ⊗ d)
        ≡⟨ ap (λ t. b ⊕ t) (neg-mul z ((c ⊖ b) ⊗ d)) ⟩ b ⊖ z ⊗ ((c ⊖ b) ⊗ d) ∎

    -- The division with its remainder, which is the last coefficient at the power past the end.
    eval-quotient :
        (cs : List A) (b x : A)
        → eval cs x ⊕ f.pow x (length cs) ⊗ last_of b (quotient d b cs)
          ≡ b ⊕ (x ⊖ z) ⊗ eval (quotient d b cs) x
    eval-quotient [] b x =
        f.zero-add _
        ∙ ap (λ t. t ⊗ b) (f.pow-zero x)
        ∙ f.one-mul b
        ∙ sym (add-zero b)
        ∙ ap (λ t. b ⊕ t) (sym (mul-zero (x ⊖ z)))
    eval-quotient (c ∷ cs) b x =
        ap (λ t. (c ⊕ x ⊗ eval cs x) ⊕ t)
          (ap (λ t. t ⊗ l) (pow-suc_left x (length cs)) ∙ f.mul_assoc x (f.pow x (length cs)) l)
        ∙ f.add_assoc c _ _
        ∙ ap (λ t. c ⊕ t) (sym (f.mul-add x (eval cs x) (f.pow x (length cs) ⊗ l)))
        ∙ ap (λ t. c ⊕ x ⊗ t) (eval-quotient cs w x)
        ∙ ap (λ t. t ⊕ x ⊗ (w ⊕ (x ⊖ z) ⊗ eval (quotient d w cs) x)) (coefficient c b)
        ∙ step_identity b z w x (eval (quotient d w cs) x)
      where
        w : A
        w = (c ⊖ b) ⊗ d

        l : A
        l = last_of w (quotient d w cs)

    -- A power of a unit is cancelled.
    zero_of_pow-mul : (n : ℕ) (l : A) → f.pow z n ⊗ l ≡ f.zero → l ≡ f.zero
    zero_of_pow-mul n l h =
        l
        ≡⟨ sym (f.one-mul l) ⟩ f.one ⊗ l
        ≡⟨ ap (λ t. t ⊗ l)
            (sym (one-pow n) ∙ ap (λ t. f.pow t n) (sym unit') ∙ mul-pow (f.neg d) z n) ⟩
          (f.pow (f.neg d) n ⊗ f.pow z n) ⊗ l
        ≡⟨ f.mul_assoc _ _ _ ⟩ f.pow (f.neg d) n ⊗ (f.pow z n ⊗ l)
        ≡⟨ ap (λ t. f.pow (f.neg d) n ⊗ t) h ⟩ f.pow (f.neg d) n ⊗ f.zero
        ≡⟨ mul-zero _ ⟩ f.zero ∎
      where
        unit' : f.neg d ⊗ z ≡ f.one
        unit' = neg-mul d z ∙ ap f.neg (f.mul_comm d z) ∙ sym (neg-mul z d) ∙ unit

    -- From the value at `z` the division is exact: the last coefficient is zero.
    last-quotient : (cs : List A) → last_of (eval cs z) (quotient d (eval cs z) cs) ≡ f.zero
    last-quotient cs = zero_of_pow-mul (length cs) _ (
        add_right_cancel _ _ (eval cs z) (
          f.add_comm _ (eval cs z)
          ∙ eval-quotient cs (eval cs z) z
          ∙ ap (λ t. eval cs z ⊕ t ⊗ eval (quotient d (eval cs z) cs) z) (add-neg_self z)
          ∙ ap (λ t. eval cs z ⊕ t) (zero-mul _)
          ∙ f.add_comm (eval cs z) f.zero))

    pub quotient_exact :
        (cs : List A)
        → ((x : A) → (x ⊖ z) ⊗ eval (quotient d (eval cs z) cs) x ≡ eval cs x ⊖ eval cs z)
          × (last_of (eval cs z) (quotient d (eval cs z) cs) ≡ f.zero)
    quotient_exact cs = (λ x. exact x, last-quotient cs)
      where
        exact : (x : A) → (x ⊖ z) ⊗ eval (quotient d (eval cs z) cs) x ≡ eval cs x ⊖ eval cs z
        exact x =
            sym (add-neg_cancel _ (eval cs z))
            ∙ ap (λ t. t ⊖ eval cs z)
                (f.add_comm _ (eval cs z)
                  ∙ sym (eval-quotient cs (eval cs z) x)
                  ∙ ap (λ t. eval cs x ⊕ f.pow x (length cs) ⊗ t) (last-quotient cs)
                  ∙ ap (λ t. eval cs x ⊕ t) (mul-zero _)
                  ∙ add-zero (eval cs x))
