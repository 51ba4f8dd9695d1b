-- ===== src/Polynomials/Fft/Four.antt =====
-- `fft_inner_parallel` on four points.
use barustenberg.Prelude.{
  ◌≡◌, refl, sym, ap, ap₂, ◌∙◌, List, [], ◌∷◌, ok, arith, for_range, for_step,
}
use barustenberg.Numeric.{Profile, checked, wrapping, get_msb64}
use barustenberg.Numeric.Reverse.{reverse_bits-two}
use barustenberg.Numeric.Msb.{get_msb64_lem}
use barustenberg.Field.{Field, ◌⊕◌, ◌⊗◌, ◌⊖◌}
use barustenberg.Field.Laws.{
  add-zero, mul-zero, neg-mul, mul-neg, neg-neg, mul_left_comm, add_left_comm,
}
use barustenberg.Field.Powers.{pow-one}
use barustenberg.Polynomials.Evaluation.{eval}
use barustenberg.Polynomials.Lagrange.{EvaluationDomain}
use barustenberg.Polynomials.Fft.{
  first_butterfly, first_round, butterfly, thread_round, round, fft_inner_parallel,
}

pub msb_two : (p : Profile) → get_msb64 p 2 ≡ ok 1
msb_two checked = get_msb64_lem checked 1 2 (omega arith) (omega arith) (omega arith)
msb_two wrapping = get_msb64_lem wrapping 1 2 (omega arith) (omega arith) (omega arith)

module _ {ℓ} {A : Type ℓ} ⦃f : Field A⦄ where
  -- The value at a point of known square, from the even and the odd coefficients.
  even_odd :
      (z s a b c e : A) → z ⊗ z ≡ s → eval (a ∷ b ∷ c ∷ e ∷ []) z ≡ (a ⊕ s ⊗ c) ⊕ z ⊗ (b ⊕ s ⊗ e)
  even_odd z s a b c e h =
      ap (λ t. a ⊕ z ⊗ (b ⊕ z ⊗ (c ⊕ z ⊗ t))) (ap (λ t. e ⊕ t) (mul-zero z) ∙ add-zero e)
      ∙ ap (λ t. a ⊕ t)
          (f.mul-add z b (z ⊗ (c ⊕ z ⊗ e))
            ∙ ap (λ t. z ⊗ b ⊕ t)
                (sym (f.mul_assoc z z (c ⊕ z ⊗ e))
                  ∙ ap (λ t. t ⊗ (c ⊕ z ⊗ e)) h
                  ∙ f.mul-add s c (z ⊗ e)
                  ∙ ap (λ t. s ⊗ c ⊕ t) (mul_left_comm s z e))
            ∙ add_left_comm (z ⊗ b) (s ⊗ c) (z ⊗ (s ⊗ e))
            ∙ ap (λ t. s ⊗ c ⊕ t) (sym (f.mul-add z b (s ⊗ e))))
      ∙ sym (f.add_assoc a (s ⊗ c) (z ⊗ (b ⊕ s ⊗ e)))

  minus : (x : A) → f.neg f.one ⊗ x ≡ f.neg x
  minus x = neg-mul f.one x ∙ ap f.neg (f.one-mul x)

  first_round-four :
      (p : Profile) (d : EvaluationDomain A) (a b c e t0 t1 t2 t3 : A)
      → d.num_threads ≡ 1
      → d.thread_size ≡ 4
      → d.log2_size ≡ 2
      → first_round p d (a ∷ b ∷ c ∷ e ∷ []) (t0 ∷ t1 ∷ t2 ∷ t3 ∷ [])
        ≡ ok ((a ⊕ c) ∷ (a ⊖ c) ∷ (b ⊕ e) ∷ (b ⊖ e) ∷ [])
  unfolding first_round first_butterfly for_range for_step
  first_round-four p d a b c e t0 t1 t2 t3 ht hs hl =
      let (r0, r1, r2, r3) = reverse_bits-two p in
      rw (ht, hs, hl) (rw (first_butterfly, r0) (rw r1 (rw (first_butterfly, r2) (rw r3 refl))))

  second_round-four :
      (p : Profile) (d : EvaluationDomain A) (w u0 u1 u2 u3 : A) (rows : List (List A))
      → d.num_threads ≡ 1
      → d.thread_size ≡ 4
      → round p d ((f.one ∷ w ∷ []) ∷ rows) 2 (u0 ∷ u1 ∷ u2 ∷ u3 ∷ [])
        ≡ ok ((u0 ⊕ f.one ⊗ u2) ∷ (u1 ⊕ w ⊗ u3) ∷ (u0 ⊖ f.one ⊗ u2) ∷ (u1 ⊖ w ⊗ u3) ∷ [])
  unfolding round thread_round butterfly for_range
  second_round-four p d w u0 u1 u2 u3 rows ht hs = rw (ht, hs) (rw (msb_two p) refl)

  -- Two rounds of butterflies compute the values of the polynomial at the first four powers of `w`.
  pub values-four :
      (w a b c e : A)
      → w ⊗ w ≡ f.neg f.one
      → ◌≡◌ {A = List A}
          (((a ⊕ c) ⊕ f.one ⊗ (b ⊕ e))
            ∷ ((a ⊖ c) ⊕ w ⊗ (b ⊖ e))
            ∷ ((a ⊕ c) ⊖ f.one ⊗ (b ⊕ e))
            ∷ ((a ⊖ c) ⊖ w ⊗ (b ⊖ e))
            ∷ [])
          (eval (a ∷ b ∷ c ∷ e ∷ []) (f.pow w 0)
            ∷ eval (a ∷ b ∷ c ∷ e ∷ []) (f.pow w 1)
            ∷ eval (a ∷ b ∷ c ∷ e ∷ []) (f.pow w 2)
            ∷ eval (a ∷ b ∷ c ∷ e ∷ []) (f.pow w 3)
            ∷ [])
  values-four w a b c e h = ap₄ value0 value1 value2 value3
    where
      all : List A
      all = a ∷ b ∷ c ∷ e ∷ []

      ap₄ :
          {x x' y y' z z' v v' : A}
          → x ≡ x'
          → y ≡ y'
          → z ≡ z'
          → v ≡ v'
          → ◌≡◌ {A = List A} (x ∷ y ∷ z ∷ v ∷ []) (x' ∷ y' ∷ z' ∷ v' ∷ [])
      ap₄ p q r s = cc (p, q, r, s)

      two : f.pow w 2 ≡ f.neg f.one
      two = f.pow-suc w 1 ∙ ap (λ t. t ⊗ w) (pow-one w) ∙ h

      three : f.pow w 3 ≡ f.neg w
      three = f.pow-suc w 2 ∙ ap (λ t. t ⊗ w) two ∙ minus w

      square_neg : (x : A) → f.neg x ⊗ f.neg x ≡ x ⊗ x
      square_neg x = neg-mul x (f.neg x) ∙ ap f.neg (mul-neg x x) ∙ neg-neg (x ⊗ x)

      value0 : (a ⊕ c) ⊕ f.one ⊗ (b ⊕ e) ≡ eval all (f.pow w 0)
      value0 = sym (
          ap (eval all) (f.pow-zero w)
          ∙ even_odd f.one f.one a b c e (f.one-mul f.one)
          ∙ ap₂ (λ x y. (a ⊕ x) ⊕ f.one ⊗ (b ⊕ y)) (f.one-mul c) (f.one-mul e))

      value1 : (a ⊖ c) ⊕ w ⊗ (b ⊖ e) ≡ eval all (f.pow w 1)
      value1 = sym (
          ap (eval all) (pow-one w)
          ∙ even_odd w (f.neg f.one) a b c e h
          ∙ ap₂ (λ x y. (a ⊕ x) ⊕ w ⊗ (b ⊕ y)) (minus c) (minus e))

      value2 : (a ⊕ c) ⊖ f.one ⊗ (b ⊕ e) ≡ eval all (f.pow w 2)
      value2 = sym (
          ap (eval all) two
          ∙ even_odd (f.neg f.one) f.one a b c e (square_neg f.one ∙ f.one-mul f.one)
          ∙ ap₂ (λ x y. (a ⊕ x) ⊕ f.neg f.one ⊗ (b ⊕ y)) (f.one-mul c) (f.one-mul e)
          ∙ ap (λ t. (a ⊕ c) ⊕ t) (neg-mul f.one (b ⊕ e)))

      value3 : (a ⊖ c) ⊖ w ⊗ (b ⊖ e) ≡ eval all (f.pow w 3)
      value3 = sym (
          ap (eval all) three
          ∙ even_odd (f.neg w) (f.neg f.one) a b c e (square_neg w ∙ h)
          ∙ ap₂ (λ x y. (a ⊕ x) ⊕ f.neg w ⊗ (b ⊕ y)) (minus c) (minus e)
          ∙ ap (λ t. (a ⊖ c) ⊕ t) (neg-mul w (b ⊖ e)))

  -- On four points, with one thread and a first row of the table that holds one and `w`, whose square is
  -- minus one, `fft_inner_parallel` leaves in the target the values of the polynomial at the first four
  -- powers of `w`, and the coefficients as they are.
  pub fft_inner_parallel_lem :
      (p : Profile) (d : EvaluationDomain A) (w a b c e t0 t1 t2 t3 : A) (rows : List (List A))
      → d.num_threads ≡ 1
      → d.thread_size ≡ 4
      → d.log2_size ≡ 2
      → w ⊗ w ≡ f.neg f.one
      → fft_inner_parallel p 4 d
          (a ∷ b ∷ c ∷ e ∷ [])
          (t0 ∷ t1 ∷ t2 ∷ t3 ∷ [])
          ((f.one ∷ w ∷ []) ∷ rows)
        ≡ ok (
          a ∷ b ∷ c ∷ e ∷ [],
          eval (a ∷ b ∷ c ∷ e ∷ []) (f.pow w 0)
              ∷ eval (a ∷ b ∷ c ∷ e ∷ []) (f.pow w 1)
              ∷ eval (a ∷ b ∷ c ∷ e ∷ []) (f.pow w 2)
              ∷ eval (a ∷ b ∷ c ∷ e ∷ []) (f.pow w 3)
              ∷ [],
        )
  unfolding fft_inner_parallel for_step
  fft_inner_parallel_lem p d w a b c e t0 t1 t2 t3 rows ht hs hl h =
      rw (first_round-four p d a b c e t0 t1 t2 t3 ht hs hl) (
        rw (second_round-four p d w (a ⊕ c) (a ⊖ c) (b ⊕ e) (b ⊖ e) rows ht hs)
          (ap (λ t. ok (a ∷ b ∷ c ∷ e ∷ [], t)) (values-four w a b c e h)))
