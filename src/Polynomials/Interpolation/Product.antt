-- ===== src/Polynomials/Interpolation/Product.antt =====
-- What `compute_linear_polynomial_product` computes, and for how many roots it panics.
use barustenberg.Prelude.{
  ℕ, zero, suc, ◌+◌, ◌-◌, ◌<◌, ◌≤◌, ◌≡◌, ◌≢◌, refl, sym, ap, ◌∙◌, List, [], ◌∷◌, ok, err, panic,
  index, assign, if◌then◌else◌, leb, ◌&&◌, Bool, true, false, take, drop, length, arith, dec_lt,
}
use barustenberg.Prelude.Failures.{bind-panic, index-ne_err, assign-ne_err}
use barustenberg.Field.{Field, ◌⊕◌, ◌⊗◌, ◌⊖◌}
use barustenberg.Field.Laws.{
  add-zero, mul-one, mul-zero, add-neg_cancel, add-mul, neg-mul, mul-neg, neg-neg, neg-add,
}
use barustenberg.Polynomials.Evaluation.{eval}
use barustenberg.Polynomials.Interpolation.{
  slice, compute_sum, sum_products, fill_product, compute_linear_polynomial_product,
}

slice-ne_err {ℓ} : {A : Type ℓ} (xs : List A) (a b : ℕ) → slice xs a b ≢ err
slice-ne_err xs a b = by_test (leb a b && leb b (length xs))
  where
    by_test : (t : Bool) → (if t then ok (take (b - a) (drop a xs)) else panic) ≢ err
    by_test true = λ e. cc
    by_test false = λ e. cc

slice-backwards {ℓ} : {A : Type ℓ} (xs : List A) (a b : ℕ) → b < a → slice xs a b ≡ panic
slice-backwards xs a b h = rw (backwards) refl
  where
    backwards : leb a b ≡ false
    backwards = ground (arith, h)

module _ {ℓ} {A : Type ℓ} ⦃f : Field A⦄ where
  -- At the last root the slice ends before it starts.
  sum_products-panic :
      (roots : List A) (end left j : ℕ) (scratch : List A) (temp : A)
      → 2 ≤ end
      → 0 < left
      → j + left ≡ end
      → sum_products roots end left j scratch temp ≡ panic
  unfolding sum_products
  sum_products-panic roots end zero j scratch temp h pos e = absurd (omega arith)
  sum_products-panic roots end (suc left) j scratch temp h pos e =
      bind-panic (index roots j) _ (index-ne_err roots j) (λ r. elim (dec_lt (end - j) (j + 1)) [
        | yes b ↦ rw (slice-backwards scratch (j + 1) (end - j) b) refl
        | no b ↦
            bind-panic (slice scratch (j + 1) (end - j)) _ (slice-ne_err scratch (j + 1) (end - j))
              (λ part.
                bind-panic (assign scratch j (r ⊗ compute_sum part)) _
                  (assign-ne_err scratch j (r ⊗ compute_sum part))
                  (λ scratch'.
                    sum_products-panic roots end left (suc j) scratch' (temp ⊕ r ⊗ compute_sum part)
                      h (omega (arith, b)) (omega arith)))
      ])

  -- With three roots or more `compute_linear_polynomial_product` panics, whatever they are.
  pub compute_linear_polynomial_product-panic :
      (roots dest : List A) (n : ℕ) → 3 ≤ n → compute_linear_polynomial_product roots dest n ≡ panic
  unfolding compute_linear_polynomial_product fill_product
  compute_linear_polynomial_product-panic roots dest zero h = refl
  compute_linear_polynomial_product-panic roots dest (suc zero) h = absurd (omega arith)
  compute_linear_polynomial_product-panic roots dest (suc (suc n)) h =
      bind-panic (slice roots 0 (suc (suc n))) _ (slice-ne_err roots 0 (suc (suc n))) (λ scratch.
        bind-panic (assign dest (suc (suc n)) f.one) _ (assign-ne_err dest (suc (suc n)) f.one)
          (λ dest1.
            bind-panic (assign dest1 (suc n) (f.neg (compute_sum scratch))) _
              (assign-ne_err dest1 (suc n) (f.neg (compute_sum scratch)))
              (λ dest2.
                rw
                  (sum_products-panic roots (suc n) (suc n) 0 scratch f.zero (omega arith)
                    (omega arith) (omega arith))
                  refl)))

  turn : (a b c : A) → (a ⊕ b) ⊕ c ≡ (c ⊕ b) ⊕ a
  turn a b c = f.add_comm (a ⊕ b) c ∙ ap (λ t. c ⊕ t) (f.add_comm a b) ∙ sym (f.add_assoc c b a)

  expand : (x r s : A) → (x ⊖ r) ⊗ (x ⊖ s) ≡ x ⊗ (f.neg (r ⊕ s) ⊕ x) ⊕ r ⊗ s
  expand x r s =
      simp (add-mul, f.mul-add, neg-mul, mul-neg, neg-neg, neg-add)
        (sym (f.add_assoc (x ⊗ x ⊕ f.neg (x ⊗ s)) (f.neg (r ⊗ x)) (r ⊗ s))
          ∙ ap (λ t. t ⊕ r ⊗ s)
              (turn (x ⊗ x) (f.neg (x ⊗ s)) (f.neg (r ⊗ x))
                ∙ ap (λ t. (f.neg t ⊕ f.neg (x ⊗ s)) ⊕ x ⊗ x) (f.mul_comm r x)))

  -- With one root the product is right. With two its value at each point is less than it should be by
  -- the product of the roots.
  pub compute_linear_polynomial_product_lem :
      (r s a b c : A)
      → (dest1 : List A) × (dest2 : List A) × (compute_linear_polynomial_product
            (r ∷ [])
            (a ∷ b ∷ [])
            1
          ≡ ok dest1)
        × (compute_linear_polynomial_product (r ∷ s ∷ []) (a ∷ b ∷ c ∷ []) 2 ≡ ok dest2)
        × ((x : A) → eval dest1 x ≡ x ⊖ r)
        × ((x : A) → eval dest2 x ≡ (x ⊖ r) ⊗ (x ⊖ s) ⊖ r ⊗ s)
  unfolding compute_linear_polynomial_product fill_product sum_products
  compute_linear_polynomial_product_lem r s a b c = (
    f.neg (f.zero ⊕ r) ∷ f.one ∷ [],
    ((f.zero ⊕ r ⊗ f.zero) ⊗ f.one) ∷ f.neg ((f.zero ⊕ r) ⊕ s) ∷ f.one ∷ [],
    refl,
    refl,
    λ x. simp (f.zero-add, mul-zero, add-zero, mul-one) (f.add_comm (f.neg r) x),
    λ x.
        simp (f.zero-add, mul-zero, add-zero, mul-one)
          (sym (add-neg_cancel (x ⊗ (f.neg (r ⊕ s) ⊕ x)) (r ⊗ s))
            ∙ ap (λ t. t ⊖ r ⊗ s) (sym (expand x r s))),
  )
