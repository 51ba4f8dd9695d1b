-- ===== src/Permutation/Delta.antt =====
-- The public input delta as a quotient of two products, and the root of the last Lagrange polynomial.
use native.Mathlib.Nat.{div-add-mod}
use barustenberg.Prelude.{
  ℕ, zero, suc, ◌+◌, ◌*◌, ◌/◌, ◌%◌, ◌≡◌, ◌≢◌, refl, sym, ap, ap₂, ◌∙◌, List, [], ◌∷◌, ok, panic,
  ◌==◌, ==_iff, Bool-cases, inl, inr, arith, false, Option-cases,
}
use barustenberg.Field.{Field, ◌⊕◌, ◌⊗◌, divide}
use barustenberg.Field.Laws.{mul-one}
use barustenberg.Field.Powers.{pow-suc_left}
use barustenberg.Permutation.{delta_loop, compute_public_input_delta, times_square, l_end_root}

module _ {ℓ} {A : Type ℓ} ⦃f : Field A⦄ where
  -- The product over the public inputs from the `i`-th on of `k * beta * g ^ i + (input + gamma)`.
  abbrev pub product_from : (k beta gamma g : A) → List A → ℕ → A
  product_from k beta gamma g [] i = f.one
  product_from k beta gamma g (w ∷ ws) i =
      ((f.pow g i ⊗ beta) ⊗ k ⊕ (w ⊕ gamma)) ⊗ product_from k beta gamma g ws (suc i)

  delta_loop-products :
      (k e beta gamma g : A) (ws : List A) (i : ℕ) (n d : A)
      → delta_loop k e beta gamma g ws n d (f.pow g i)
        ≡ (n ⊗ product_from k beta gamma g ws i, d ⊗ product_from e beta gamma g ws i)
  unfolding delta_loop
  delta_loop-products k e beta gamma g [] i n d =
      ap₂ (λ a b. (a, b)) (sym (mul-one n)) (sym (mul-one d))
  delta_loop-products k e beta gamma g (w ∷ ws) i n d =
      ap (delta_loop k e beta gamma g ws _ _) (sym (f.pow-suc g i))
      ∙ delta_loop-products k e beta gamma g ws (suc i) _ _
      ∙ ap₂ (λ a b. (a, b)) (f.mul_assoc n _ _) (f.mul_assoc d _ _)

  divide-quotient : (a b : A) → b ≢ f.zero → (d : A) × (divide a b ≡ ok d) × (d ⊗ b ≡ a)
  divide-quotient a b h = elim (Option-cases (f.inverse b)) [
    | inl e ↦ absurd (h (f.inverse-none b e))
    | inr (c, e) ↦ (
      a ⊗ c,
      rw (divide, e) refl,
      f.mul_assoc a c b ∙ ap (λ t. a ⊗ t) (f.mul_comm c b ∙ f.inverse-some b c e) ∙ mul-one a,
    )
  ]

  -- If the product with the external generator is not zero, the delta is the quotient of the product
  -- with the coset generator by it, and if it is zero the division panics.
  pub compute_public_input_delta_lem :
      (k e beta gamma g : A) (ws : List A)
      → (product_from e beta gamma g ws 0 ≢ f.zero
          → (d : A) × (compute_public_input_delta k e ws beta gamma g ≡ ok d)
            × (d ⊗ product_from e beta gamma g ws 0 ≡ product_from k beta gamma g ws 0))
        × (product_from e beta gamma g ws 0 ≡ f.zero
            → compute_public_input_delta k e ws beta gamma g ≡ panic)
  unfolding compute_public_input_delta
  compute_public_input_delta_lem k e beta gamma g ws = (
    λ h.
        let (d, run, q) =
          divide-quotient (product_from k beta gamma g ws 0) (product_from e beta gamma g ws 0) h in
        (d, split ∙ run, q),
    λ h. split ∙ ap (divide (product_from k beta gamma g ws 0)) h ∙ by_zero _,
  )
    where
      by_zero : (a : A) → divide a f.zero ≡ panic
      by_zero a = rw (divide, f.inverse-zero) refl

      split :
          compute_public_input_delta k e ws beta gamma g
          ≡ divide (product_from k beta gamma g ws 0) (product_from e beta gamma g ws 0)
      split =
          ap
            (λ r.
              divide ((delta_loop k e beta gamma g ws f.one f.one r).0)
                ((delta_loop k e beta gamma g ws f.one f.one r).1))
            (sym (f.pow-zero g))
          ∙ ap (λ p. divide (p.0) (p.1)) (delta_loop-products k e beta gamma g ws 0 f.one f.one)
          ∙ ap₂ divide (f.one-mul _) (f.one-mul _)

  times_square-pow :
      (count : ℕ) (root r : A) → times_square count root r ≡ r ⊗ f.pow root (2 * count)
  unfolding times_square
  times_square-pow zero root r = sym (mul-one r) ∙ ap (λ t. r ⊗ t) (sym (f.pow-zero root))
  times_square-pow (suc count) root r =
      times_square-pow count root (r ⊗ (root ⊗ root))
      ∙ f.mul_assoc r (root ⊗ root) _
      ∙ ap (λ t. r ⊗ t)
          (f.mul_assoc root root _
            ∙ ap (λ t. root ⊗ t) (sym (pow-suc_left root (2 * count)))
            ∙ sym (pow-suc_left root (suc (2 * count)))
            ∙ ap (f.pow root) {x = suc (suc (2 * count))} {y = 2 * suc count} (omega arith))

  -- The root for the last Lagrange polynomial is the power of the root of the domain by one more than
  -- the number of roots cut out.
  pub l_end_root-pow : (k : ℕ) (root : A) → l_end_root k root ≡ f.pow root (k + 1)
  unfolding l_end_root
  l_end_root-pow k root = elim (Bool-cases (k % 2 == 0)) [
    | inl e ↦ rw e (
        times_square-pow (k / 2) root root
        ∙ sym (pow-suc_left root (2 * (k / 2)))
        ∙ ap (f.pow root) {x = suc (2 * (k / 2))} {y = k + 1}
            (omega (arith, (==_iff (k % 2) 0).0 e, div-add-mod k 2)))
    | inr e ↦ rw e (
        times_square-pow (k / 2) root (root ⊗ root)
        ∙ f.mul_assoc root root _
        ∙ ap (λ t. root ⊗ t) (sym (pow-suc_left root (2 * (k / 2))))
        ∙ sym (pow-suc_left root (suc (2 * (k / 2))))
        ∙ ap (f.pow root) {x = suc (suc (2 * (k / 2)))} {y = k + 1} (odd e))
  ]
    where
      odd : (k % 2 == 0) ≡ false → suc (suc (2 * (k / 2))) ≡ k + 1
      odd e = ground (arith, e, div-add-mod k 2)
