-- ===== src/Prover/Blinding.antt =====
-- Blinding the parts of the quotient leaves the quotient that they make up as it was.
use barustenberg.Prelude.{
  ℕ, zero, suc, ◌+◌, ◌-◌, ◌<◌, ◌≤◌, ◌≡◌, refl, sym, ap, ap₂, ◌∙◌, List, [], ◌∷◌, ◌++◌, ok, index,
  length, length-append, length-set, set, arith, append_assoc,
}
use barustenberg.Prelude.Slices.{
  index-append, assign-append, index-append_second, assign-append_second, assign-set, index-ok,
}
use barustenberg.Field.{Field, ◌⊕◌, ◌⊗◌, ◌⊖◌}
use barustenberg.Field.Laws.{mul-one, mul_left_comm, add_right_comm, sub-add_cancel}
use barustenberg.Field.Powers.{pow-suc_left}
use barustenberg.Polynomials.Evaluation.{eval}
use barustenberg.Prover.{blind_parts, add_blinding_to_quotient_polynomial_parts}

module _ {ℓ} {A : Type ℓ} ⦃f : Field A⦄ where
  -- The quotient at `x`: the parts' values by the powers of `x ^ n`.
  abbrev pub reconstructed : (n : ℕ) (x : A) → List (List A) → A
  reconstructed n x [] = f.zero
  reconstructed n x (p ∷ parts) = eval p x ⊕ f.pow x n ⊗ reconstructed n x parts

  -- Every part has a coefficient of degree `n`.
  abbrev pub AreLong : (n : ℕ) → List (List A) → Type 0
  AreLong n [] = Unit
  AreLong n (p ∷ parts) = (n < length p) × AreLong n parts

  eval-set :
      (p : List A) (k : ℕ) (a r x : A)
      → index p k ≡ ok a
      → eval (set p k (a ⊕ r)) x ≡ eval p x ⊕ r ⊗ f.pow x k
  eval-set [] k a r x h = cc
  eval-set (c ∷ cs) zero a r x h =
      ap (λ t. (t ⊕ r) ⊕ x ⊗ eval cs x) (sym (ok_same c a h))
      ∙ add_right_comm c r _
      ∙ ap (λ t. (c ⊕ x ⊗ eval cs x) ⊕ t) (sym (mul-one r) ∙ ap (λ t. r ⊗ t) (sym (f.pow-zero x)))
    where
      ok_same : (c a : A) → ok c ≡ ok a → c ≡ a
      ok_same c a h = cc
  eval-set (c ∷ cs) (suc k) a r x h =
      ap (λ t. c ⊕ x ⊗ t) (eval-set cs k a r x h)
      ∙ ap (λ t. c ⊕ t)
          (f.mul-add x (eval cs x) _
            ∙ ap (λ t. x ⊗ eval cs x ⊕ t)
                (mul_left_comm x r (f.pow x k) ∙ ap (λ t. r ⊗ t) (sym (pow-suc_left x k))))
      ∙ sym (f.add_assoc c _ _)

  -- What the random element adds to one part it takes from the next.
  exchanged :
      (e1 e2 rest r xn : A)
      → (e1 ⊕ r ⊗ xn) ⊕ xn ⊗ ((e2 ⊕ f.neg r ⊗ f.one) ⊕ rest) ≡ e1 ⊕ xn ⊗ (e2 ⊕ rest)
  exchanged e1 e2 rest r xn =
      f.add_assoc e1 _ _
      ∙ ap (λ t. e1 ⊕ t)
          (ap (λ t. t ⊕ xn ⊗ ((e2 ⊕ f.neg r ⊗ f.one) ⊕ rest)) (f.mul_comm r xn)
            ∙ sym (f.mul-add xn r _)
            ∙ ap (λ t. xn ⊗ t)
                (ap (λ t. r ⊕ ((e2 ⊕ t) ⊕ rest)) (mul-one (f.neg r))
                  ∙ ap (λ t. r ⊕ t) (add_right_comm e2 (f.neg r) rest)
                  ∙ f.add_comm r _
                  ∙ sub-add_cancel (e2 ⊕ rest) r))

  reconstructed-append :
      (n : ℕ) (x : A) (pre s t : List (List A))
      → reconstructed n x s ≡ reconstructed n x t
      → reconstructed n x (pre ++ s) ≡ reconstructed n x (pre ++ t)
  reconstructed-append n x [] s t h = h
  reconstructed-append n x (p ∷ pre) s t h =
      ap (λ v. eval p x ⊕ f.pow x n ⊗ v) (reconstructed-append n x pre s t h)

  blind_parts-reconstructed :
      (n : ℕ) (random : ℕ → A) (count i : ℕ) (pre : List (List A)) (p : List A)
      (parts : List (List A))
      → i ≡ length pre
      → count ≤ length parts
      → n < length p
      → AreLong n parts
      → (parts' : List (List A)) × (blind_parts n random count i (pre ++ (p ∷ parts)) ≡ ok parts')
        × ((x : A) → reconstructed n x parts' ≡ reconstructed n x (pre ++ (p ∷ parts)))
  unfolding blind_parts
  blind_parts-reconstructed n random zero i pre p parts hi hc hp hl =
      (pre ++ (p ∷ parts), refl, λ x. refl)
  blind_parts-reconstructed n random (suc count) i pre p [] hi hc hp hl = absurd (omega arith)
  blind_parts-reconstructed n random (suc count) i pre p (q ∷ parts) hi hc hp (hq, hl) =
      let (a, ea) = index-ok p n hp in
      let (b, eb) = index-ok q 0 (omega arith) in
      let p' = set p n (a ⊕ random i) in
      let q' = set q 0 (b ⊖ random i) in
      let (parts', run, same) =
        blind_parts-reconstructed n random count (suc i) (pre ++ (p' ∷ [])) q' parts
          (omega (arith, length-append pre (p' ∷ []))) (omega arith)
          (omega (arith, length-set q 0 (b ⊖ random i))) hl in
      (
        parts',
        rw (blind_parts, index-append pre p (q ∷ parts) i hi)
            (rw ea (
              rw (assign-set p n (a ⊕ random i) hp) (
                rw (assign-append pre p (q ∷ parts) i p' hi) (
                  rw (index-append_second pre p' q parts (i + 1) (omega arith)) (
                    rw eb (
                      rw (assign-set q 0 (b ⊖ random i) (omega arith)) (
                        rw (assign-append_second pre p' q parts (i + 1) q' (omega arith)) (
                          ap (blind_parts n random count (suc i))
                            (sym (append_assoc pre (p' ∷ []) (q' ∷ parts)))
                          ∙ run)))))))),
        λ x.
            same x
            ∙ ap (reconstructed n x) (append_assoc pre (p' ∷ []) (q' ∷ parts))
            ∙ reconstructed-append n x pre (p' ∷ q' ∷ parts) (p ∷ q ∷ parts) (one_step x a b ea eb),
      )
    where
      one_step :
          (x a b : A)
          → index p n ≡ ok a
          → index q 0 ≡ ok b
          → reconstructed n x (set p n (a ⊕ random i) ∷ set q 0 (b ⊖ random i) ∷ parts)
            ≡ reconstructed n x (p ∷ q ∷ parts)
      one_step x a b ea eb =
          ap₂ (λ s t. s ⊕ f.pow x n ⊗ (t ⊕ f.pow x n ⊗ reconstructed n x parts))
            (eval-set p n a (random i) x ea)
            (eval-set q 0 b (f.neg (random i)) x eb
              ∙ ap (λ t. eval q x ⊕ f.neg (random i) ⊗ t) (f.pow-zero x))
          ∙ exchanged (eval p x) (eval q x) (f.pow x n ⊗ reconstructed n x parts) (random i)
              (f.pow x n)

  -- With at least as many parts as the program's width, each with a coefficient of degree `n`, the
  -- blinding succeeds, and whatever the random elements are, the parts make up the same quotient at
  -- every point.
  pub add_blinding_lem :
      (program_width n : ℕ) (random : ℕ → A) (p : List A) (parts : List (List A))
      → program_width ≤ suc (length parts)
      → AreLong n (p ∷ parts)
      → (parts' : List (List A)) × (add_blinding_to_quotient_polynomial_parts program_width n random
            (p ∷ parts)
          ≡ ok parts')
        × ((x : A) → reconstructed n x parts' ≡ reconstructed n x (p ∷ parts))
  unfolding add_blinding_to_quotient_polynomial_parts
  add_blinding_lem program_width n random p parts h (hp, hl) =
      blind_parts-reconstructed n random (program_width - 1) 0 [] p parts refl (omega arith) hp hl
