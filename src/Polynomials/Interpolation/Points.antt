-- ===== src/Polynomials/Interpolation/Points.antt =====
-- What `from_interpolations` makes of one, two, and more points.
use barustenberg.Prelude.{
  ℕ, ◌+◌, ◌≤◌, ◌≡◌, ◌≢◌, refl, sym, ap, ap₂, ◌∙◌, List, [], ◌∷◌, ok, panic, Option, none, some,
  true, false, length, replicate, arith, ◌==◌, ◌⊎◌, inl, inr,
}
use barustenberg.Field.{Field, ◌⊕◌, ◌⊗◌, ◌⊖◌}
use barustenberg.Field.Laws.{mul-one, mul-zero, zero-mul, neg-neg, neg-zero, sub-add_cancel}
use barustenberg.Polynomials.Lagrange.{invert_all}
use barustenberg.Polynomials.Interpolation.{
  sum_products, fill_product, compute_linear_polynomial_product, difference_product, prepare,
  divide_out, add_terms, finish_interpolation, compute_efficient_interpolation, from_interpolations,
}
use barustenberg.Polynomials.Interpolation.Product.{compute_linear_polynomial_product-panic}

module _ {ℓ} {A : Type ℓ} ⦃f : Field A⦄ where
  -- A point that is not zero has a negation with an inverse.
  has_inverse : (a : A) → a ≢ f.zero → (b : A) × (f.inverse a ≡ some b)
  has_inverse a h = by_inverse (f.inverse a) refl
    where
      by_inverse : (o : Option A) → f.inverse a ≡ o → (b : A) × (f.inverse a ≡ some b)
      by_inverse none e = absurd (h (f.inverse-none a e))
      by_inverse (some b) e = (b, e)

  neg_ne_zero : (a : A) → a ≢ f.zero → f.neg a ≢ f.zero
  neg_ne_zero a h e = h (sym (neg-neg a) ∙ ap f.neg e ∙ neg-zero)

  difference_ne_zero : (a b : A) → a ≢ b → a ⊖ b ≢ f.zero
  difference_ne_zero a b h e = h (sym (sub-add_cancel a b) ∙ ap (λ t. t ⊕ b) e ∙ f.zero-add b)

  one_inverse : (b : A) → f.inverse f.one ≡ some b → b ≡ f.one
  one_inverse b e = sym (f.one-mul b) ∙ f.inverse-some f.one b e

  -- With three points or more `from_interpolations` panics, whatever they and the values are, and so it
  -- does with none.
  pub from_interpolations-panic :
      (points evaluations : List A)
      → (length points ≡ 0) ⊎ (3 ≤ length points)
      → from_interpolations points evaluations ≡ panic
  unfolding from_interpolations compute_efficient_interpolation
  from_interpolations-panic points evaluations (inl e) = rw e refl
  from_interpolations-panic points evaluations (inr h) =
      rw
        (
          not_none (length points) h,
          compute_linear_polynomial_product-panic points (replicate (length points + 1) f.zero)
              (length points) h,
        )
        refl
    where
      not_none : (n : ℕ) → 3 ≤ n → (n == 0) ≡ false
      not_none n h = ground (arith, h)

  invert_two :
      (a b a' b' : A)
      → f.inverse a ≡ some a'
      → f.inverse b ≡ some b'
      → invert_all (a ∷ b ∷ []) ≡ (true, a' ∷ b' ∷ [])
  unfolding invert_all
  invert_two a b a' b' e e' = rw (invert_all, e) (rw e' refl)

  -- The negation of zero ends the inversion.
  invert_zero : (xs : List A) → invert_all (f.neg f.zero ∷ xs) ≡ (false, f.neg f.zero ∷ xs)
  unfolding invert_all
  invert_zero xs = rw (invert_all, ap f.inverse neg-zero ∙ f.inverse-zero) refl

  invert_four :
      (a b c d a' b' c' d' : A)
      → f.inverse a ≡ some a'
      → f.inverse b ≡ some b'
      → f.inverse c ≡ some c'
      → f.inverse d ≡ some d'
      → invert_all (a ∷ b ∷ c ∷ d ∷ []) ≡ (true, a' ∷ b' ∷ c' ∷ d' ∷ [])
  unfolding invert_all
  invert_four a b c d a' b' c' d' e e1 e2 e3 =
      rw (invert_all, e) (rw e1 (rw (invert_two c d c' d' e2 e3) refl))

  constant :
      (x v z i : A)
      → f.inverse (f.neg x) ≡ some z
      → f.inverse f.one ≡ some i
      → f.zero ⊕ ((v ⊗ i) ⊗ f.neg (f.zero ⊕ x)) ⊗ z ≡ v
  constant x v z i e e1 =
      rw
        (
          one_inverse i e1,
          f.zero-add x,
          mul-one v,
          f.zero-add ((v ⊗ f.neg x) ⊗ z),
          f.mul_assoc v (f.neg x) z,
          f.inverse-some (f.neg x) z e,
        )
        (mul-one v)

  first-zero : (x v d z : A) → ((v ⊗ d) ⊗ ((f.zero ⊕ x ⊗ f.zero) ⊗ f.one)) ⊗ z ≡ f.zero
  first-zero x v d z = simp (mul-zero, zero-mul, f.zero-add) refl

  -- One point other than zero gives the constant of its value, and the point zero the constant zero.
  -- Two points that are distinct and not zero give a polynomial of two coefficients, of which the first
  -- is zero whatever the values are.
  pub from_interpolations_lem :
      (x y v w : A)
      → x ≢ f.zero
      → y ≢ f.zero
      → x ≢ y
      → (c : A) × (from_interpolations (x ∷ []) (v ∷ [])
          ≡ ok (record { size = 1; coefficients = v ∷ [] }))
        × (from_interpolations (f.zero ∷ []) (v ∷ [])
            ≡ ok (record { size = 1; coefficients = f.zero ∷ [] }))
        × (from_interpolations (x ∷ y ∷ []) (v ∷ w ∷ [])
            ≡ ok (record { size = 2; coefficients = f.zero ∷ c ∷ [] }))
  unfolding from_interpolations compute_efficient_interpolation compute_linear_polynomial_product
      fill_product sum_products prepare difference_product finish_interpolation add_terms divide_out
  from_interpolations_lem x y v w hx hy ne =
      let (ix, ex) = has_inverse (f.neg x) (neg_ne_zero x hx) in
      let (iy, ey) = has_inverse (f.neg y) (neg_ne_zero y hy) in
      let (i1, e1) = has_inverse f.one f.one_ne_zero in
      let (id, ed) =
        has_inverse (f.one ⊗ (x ⊖ y))
          (λ e. difference_ne_zero x y ne (sym (f.one-mul (x ⊖ y)) ∙ e)) in
      let (id', ed') =
        has_inverse (f.one ⊗ (y ⊖ x))
          (λ e. difference_ne_zero y x (λ q. ne (sym q)) (sym (f.one-mul (y ⊖ x)) ∙ e)) in
      (
        (f.zero ⊕ second v id ix) ⊕ second w id' iy,
        rw (invert_two (f.neg x) f.one ix i1 ex e1)
            (ap (λ c. ok (record { size = 1; coefficients = c ∷ [] })) (constant x v ix i1 ex e1)),
        rw (invert_zero (f.one ∷ [])) refl,
        rw
            (invert_four (f.neg x) (f.neg y) (f.one ⊗ (x ⊖ y)) (f.one ⊗ (y ⊖ x)) ix iy id id' ex ey
              ed ed')
            (ap
              (λ c. ok (record {
                size = 2;
                coefficients = c ∷ ((f.zero ⊕ second v id ix) ⊕ second w id' iy) ∷ [];
              }))
              (ap₂ (λ a b. (f.zero ⊕ a) ⊕ b) (first-zero x v id ix) (first-zero x w id' iy)
                ∙ simp (f.zero-add) refl)),
      )
    where
      first : A → A → A → A
      first v d z = ((v ⊗ d) ⊗ ((f.zero ⊕ x ⊗ f.zero) ⊗ f.one)) ⊗ z

      second : A → A → A → A
      second v d z = ((v ⊗ d) ⊗ f.neg ((f.zero ⊕ x) ⊕ y) ⊖ first v d z) ⊗ z
