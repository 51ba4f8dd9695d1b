-- ===== src/Field/Laws.antt =====
-- Ring laws that follow from the interface.
use barustenberg.Prelude.{◌≡◌, sym, ap, ◌∙◌}
use barustenberg.Field.{Field, ◌⊕◌, ◌⊗◌, ◌⊖◌}

module _ {ℓ} {A : Type ℓ} ⦃f : Field A⦄ where
  pub add-zero : (a : A) → a ⊕ f.zero ≡ a
  add-zero a = f.add_comm a f.zero ∙ f.zero-add a

  pub mul-one : (a : A) → a ⊗ f.one ≡ a
  mul-one a = f.mul_comm a f.one ∙ f.one-mul a

  pub add-neg_self : (a : A) → a ⊖ a ≡ f.zero
  add-neg_self a = f.add_comm a (f.neg a) ∙ f.neg-add_self a

  pub add-mul : (a b c : A) → (a ⊕ b) ⊗ c ≡ a ⊗ c ⊕ b ⊗ c
  add-mul a b c = rw (f.mul_comm (a ⊕ b) c, f.mul-add c a b, f.mul_comm c a, f.mul_comm c b)

  pub add_left_comm : (a b c : A) → a ⊕ (b ⊕ c) ≡ b ⊕ (a ⊕ c)
  add_left_comm a b c =
      sym (f.add_assoc a b c) ∙ ap (λ t. t ⊕ c) (f.add_comm a b) ∙ f.add_assoc b a c

  pub mul_left_comm : (a b c : A) → a ⊗ (b ⊗ c) ≡ b ⊗ (a ⊗ c)
  mul_left_comm a b c =
      sym (f.mul_assoc a b c) ∙ ap (λ t. t ⊗ c) (f.mul_comm a b) ∙ f.mul_assoc b a c

  -- `- b` undone from the right, in both orders.
  pub add-neg_cancel : (a b : A) → (a ⊕ b) ⊖ b ≡ a
  add-neg_cancel a b = rw (f.add_assoc a b (f.neg b), add-neg_self b) (add-zero a)

  pub sub-add_cancel : (a b : A) → (a ⊖ b) ⊕ b ≡ a
  sub-add_cancel a b = rw (f.add_assoc a (f.neg b) b, f.neg-add_self b) (add-zero a)

  pub add_right_cancel : (a b c : A) → a ⊕ c ≡ b ⊕ c → a ≡ b
  add_right_cancel a b c h = sym (add-neg_cancel a c) ∙ ap (λ t. t ⊖ c) h ∙ add-neg_cancel b c

  pub zero-mul : (a : A) → f.zero ⊗ a ≡ f.zero
  zero-mul a =
      add_right_cancel (f.zero ⊗ a) f.zero (f.zero ⊗ a)
        (sym (add-mul f.zero f.zero a) ∙ ap (λ t. t ⊗ a) (f.zero-add f.zero) ∙ sym (f.zero-add _))

  pub mul-zero : (a : A) → a ⊗ f.zero ≡ f.zero
  mul-zero a = f.mul_comm a f.zero ∙ zero-mul a

  pub eq-neg_of_add : (a b : A) → a ⊕ b ≡ f.zero → a ≡ f.neg b
  eq-neg_of_add a b h = add_right_cancel a (f.neg b) b (h ∙ sym (f.neg-add_self b))

  pub neg-mul : (a b : A) → f.neg a ⊗ b ≡ f.neg (a ⊗ b)
  neg-mul a b =
      eq-neg_of_add _ _
        (sym (add-mul (f.neg a) a b) ∙ ap (λ t. t ⊗ b) (f.neg-add_self a) ∙ zero-mul b)

  pub mul-neg : (a b : A) → a ⊗ f.neg b ≡ f.neg (a ⊗ b)
  mul-neg a b = rw (f.mul_comm a (f.neg b), neg-mul b a, f.mul_comm b a)

  pub neg-neg : (a : A) → f.neg (f.neg a) ≡ a
  neg-neg a = sym (eq-neg_of_add a (f.neg a) (add-neg_self a))

  pub neg-zero : f.neg f.zero ≡ f.zero
  neg-zero = sym (eq-neg_of_add f.zero f.zero (f.zero-add f.zero))

  pub neg-add : (a b : A) → f.neg (a ⊕ b) ≡ f.neg a ⊕ f.neg b
  neg-add a b = sym (
      eq-neg_of_add (f.neg a ⊕ f.neg b) (a ⊕ b) (
        rw
          (
            f.add_assoc (f.neg a) (f.neg b) (a ⊕ b),
            add_left_comm (f.neg b) a b,
            f.neg-add_self b,
            add-zero a,
          )
          (f.neg-add_self a)))

  pub mul-sub : (a b c : A) → a ⊗ (b ⊖ c) ≡ a ⊗ b ⊖ a ⊗ c
  mul-sub a b c = rw (f.mul-add a b (f.neg c), mul-neg a c)

  pub sub-mul : (a b c : A) → (a ⊖ b) ⊗ c ≡ a ⊗ c ⊖ b ⊗ c
  sub-mul a b c = rw (add-mul a (f.neg b) c, neg-mul b c)

  pub add_interchange : (a b c d : A) → (a ⊕ b) ⊕ (c ⊕ d) ≡ (a ⊕ c) ⊕ (b ⊕ d)
  add_interchange a b c d =
      f.add_assoc a b (c ⊕ d)
      ∙ ap (λ t. a ⊕ t) (add_left_comm b c d)
      ∙ sym (f.add_assoc a c (b ⊕ d))

  pub add_right_comm : (a b c : A) → (a ⊕ b) ⊕ c ≡ (a ⊕ c) ⊕ b
  add_right_comm a b c =
      f.add_assoc a b c ∙ ap (λ t. a ⊕ t) (f.add_comm b c) ∙ sym (f.add_assoc a c b)

  pub mul_right_comm : (a b c : A) → (a ⊗ b) ⊗ c ≡ (a ⊗ c) ⊗ b
  mul_right_comm a b c =
      f.mul_assoc a b c ∙ ap (λ t. a ⊗ t) (f.mul_comm b c) ∙ sym (f.mul_assoc a c b)
