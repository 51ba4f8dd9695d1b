-- ===== src/Kate/Opening.antt =====
-- One round of `generic_batch_open`: the exact quotient by `X - z` in its places of `dest`.
pub mod Division
use barustenberg.Kate.Opening.Division.{quotient, last_of, quotient_exact}
use barustenberg.Prelude.{
  ℕ, zero, suc, ◌+◌, ◌-◌, ◌*◌, ◌<◌, ◌≤◌, ◌≡◌, refl, sym, ap, ap₂, ◌∙◌, List, [], ◌∷◌, ◌++◌, length,
  arith, take, drop, get_or, Outcome, ok, index, assign, ◌>>=◌, Option, append_assoc, take_all,
  length-append, subst,
}
use barustenberg.Prelude.Slices.{
  index-append, assign-append, index-get_or, drop-append, take-append, index-append_second,
  assign-append_second,
}
use barustenberg.Numeric.{Profile}
use barustenberg.Field.{Field, ◌⊕◌, ◌⊗◌, ◌⊖◌}
use barustenberg.Field.Laws.{add-zero, mul-zero}
use barustenberg.Polynomials.Evaluation.{eval}
use barustenberg.Polynomials.Evaluate.{compute_num_threads, evaluate, evaluate-eval}
use barustenberg.Kate.{coeff_sum, combine, divide_rest, divide_out, open_point}

module _ {ℓ} {A : Type ℓ} ⦃f : Field A⦄ where
  -- The coefficients at place `k` of the polynomials from `j` on, as they lie in `src`.
  abbrev pub column : (src : List A) (offset n k left j : ℕ) → List A
  column src offset n k zero j = []
  column src offset n k (suc left) j =
      get_or src (offset + j * n + k) f.zero ∷ column src offset n k left (suc j)

  -- The linear combination: at each place, the column as a polynomial in the challenge.
  abbrev pub combination :
      (src : List A) (offset n num_polynomials : ℕ) (challenge : A) (left k : ℕ) → List A
  combination src offset n m challenge zero k = []
  combination src offset n m challenge (suc left) k =
      eval (column src offset n k m 0) challenge ∷ combination src offset n m challenge left (suc k)

  pub length-combination :
      (src : List A) (offset n m : ℕ) (c : A) (left k : ℕ)
      → length (combination src offset n m c left k) ≡ left
  length-combination src offset n m c zero k = refl
  length-combination src offset n m c (suc left) k =
      ap suc (length-combination src offset n m c left (suc k))

  coeff_sum-eval :
      (src : List A) (offset n k : ℕ) (c : A) (left j : ℕ) (s w : A)
      → k < n
      → offset + (j + left) * n ≤ length src
      → coeff_sum src offset n k c left j s w ≡ ok (s ⊕ w ⊗ eval (column src offset n k left j) c)
  unfolding coeff_sum
  coeff_sum-eval src offset n k c zero j s w hk h =
      ap ok (sym (add-zero s) ∙ ap (λ t. s ⊕ t) (sym (mul-zero w)))
  coeff_sum-eval src offset n k c (suc left) j s w hk h =
      rw (index-get_or src (offset + j * n + k) f.zero inside) (
        coeff_sum-eval src offset n k c left (suc j) _ _ hk rest
        ∙ ap ok (
            f.add_assoc s _ _
            ∙ ap (λ t. s ⊕ t) (ap (λ t. w ⊗ x ⊕ t) (f.mul_assoc w c _) ∙ sym (f.mul-add w x _))))
    where
      x : A
      x = get_or src (offset + j * n + k) f.zero

      inside : offset + j * n + k < length src
      inside = grind arith

      rest : offset + (suc j + left) * n ≤ length src
      rest =
          omega (arith, ap (λ (t : ℕ). t * n) {x = suc j + left} {y = j + suc left} (omega arith))

  combine-combination :
      (src : List A) (src_offset n m : ℕ) (c : A) (dest_offset k : ℕ) (pre old tail : List A)
      → length pre ≡ dest_offset + k
      → k + length old ≡ n
      → src_offset + m * n ≤ length src
      → combine src src_offset n m c dest_offset (length old) k (pre ++ (old ++ tail))
        ≡ ok (pre ++ (combination src src_offset n m c (length old) k ++ tail))
  unfolding combine
  combine-combination src so n m c o k pre [] tail hp hk hs = refl
  combine-combination src so n m c o k pre (x ∷ old) tail hp hk hs =
      rw (coeff_sum-eval src so n k c m 0 f.zero f.one (omega arith) enough) (
        rw (assign-append pre x (old ++ tail) (o + k) (f.zero ⊕ f.one ⊗ value) (sym hp)) (
          rw (f.one-mul value, f.zero-add value)
            (rw (← append_assoc pre (value ∷ []) (old ++ tail)) (
              combine-combination src so n m c o (suc k) (pre ++ (value ∷ [])) old tail
                (omega (arith, length-append pre (value ∷ []))) (omega arith) hs
              ∙ ap ok (append_assoc pre (value ∷ []) _)))))
    where
      value : A
      value = eval (column src so n k m 0) c

      enough : so + (0 + m) * n ≤ length src
      enough = omega (arith, ap (λ (t : ℕ). t * n) {x = 0 + m} {y = m} (omega arith))

  divide_rest-quotient :
      (o : ℕ) (d : A) (k : ℕ) (pre : List A) (w : A) (cs tail : List A)
      → length pre + 1 ≡ o + k
      → divide_rest o d (length cs) k (pre ++ (w ∷ (cs ++ tail)))
        ≡ ok (pre ++ (w ∷ (quotient d w cs ++ tail)))
  unfolding divide_rest
  divide_rest-quotient o d k pre w [] tail h = refl
  divide_rest-quotient o d k pre w (c ∷ cs) tail h =
      rw (index-append pre w (c ∷ (cs ++ tail)) (o + k - 1) (omega arith)) (
        rw (index-append_second pre w c (cs ++ tail) (o + k) (omega arith)) (
          rw (assign-append_second pre w c (cs ++ tail) (o + k) v (omega arith)) (
            rw (← append_assoc pre (w ∷ []) (v ∷ (cs ++ tail))) (
              divide_rest-quotient o d (suc k) (pre ++ (w ∷ [])) v cs tail
                (omega (arith, length-append pre (w ∷ [])))
              ∙ ap ok (append_assoc pre (w ∷ []) _)))))
    where
      v : A
      v = (c ⊖ w) ⊗ d

  divide_out-quotient :
      (o : ℕ) (value d : A) (pre : List A) (c : A) (cs tail : List A)
      → length pre ≡ o
      → divide_out o (suc (length cs)) value d (pre ++ (c ∷ (cs ++ tail)))
        ≡ ok (pre ++ (quotient d value (c ∷ cs) ++ tail))
  unfolding divide_out
  divide_out-quotient o value d pre c cs tail h = rw (index-append pre c (cs ++ tail) o (sym h)) (
      rw (assign-append pre c (cs ++ tail) o ((c ⊖ value) ⊗ d) (sym h)) (
        ap (λ n. divide_rest o d n 1 (pre ++ ((c ⊖ value) ⊗ d ∷ (cs ++ tail))))
          {x = suc (length cs) - 1} {y = length cs} (omega arith)
        ∙ divide_rest-quotient o d 1 pre ((c ⊖ value) ⊗ d) cs tail (omega arith)))

  divide_out-list :
      (o n : ℕ) (value d : A) (pre F tail : List A)
      → length pre ≡ o
      → n ≡ length F
      → 0 < n
      → divide_out o n value d (pre ++ (F ++ tail)) ≡ ok (pre ++ (quotient d value F ++ tail))
  divide_out-list o n value d pre [] tail h e pos = absurd (omega arith)
  divide_out-list o n value d pre (c ∷ cs) tail h e pos =
      ap (λ k. divide_out o k value d (pre ++ (c ∷ (cs ++ tail)))) {x = n} {y = suc (length cs)} e
      ∙ divide_out-quotient o value d pre c cs tail h

  -- A round leaves the quotient in its places.
  pub open_point_run :
      (p : Profile) (system : Option ℕ) (src challenges z_points divisors : List A) (m i : ℕ)
      (pre old tail : List A) (challenge z divisor : A) {t : ℕ}
      → index challenges i ≡ ok challenge
      → index z_points i ≡ ok z
      → index divisors i ≡ ok divisor
      → 0 < length old
      → length pre ≡ i * length old
      → i * length old * m + m * length old ≤ length src
      → compute_num_threads p system ≡ ok t
      → let F = combination src (i * length old * m) (length old) m challenge (length old) 0 in
        open_point p system src challenges z_points divisors (length old) m i (pre ++ (old ++ tail))
        ≡ ok (pre ++ (quotient divisor (eval F z) F ++ tail))
  unfolding open_point
  open_point_run p system src challenges z_points divisors m i pre old tail challenge z divisor hc
        hz hd pos hp hs ht =
      rw (hc, hd)
        (rw
          (combine-combination src (i * length old * m) (length old) m challenge (i * length old) 0
            pre old tail (omega arith) (omega arith) hs)
          (rw hz (
            rw (drop-append pre (F ++ tail) (i * length old) (sym hp)) (
              rw (evaluate-eval p system (F ++ tail) z (length old) ht) (
                rw (take-append F tail (length old) (sym count)) (
                  divide_out-list (i * length old) (length old) (eval F z) divisor pre F tail hp
                    (sym count) pos))))))
    where
      F : List A
      F = combination src (i * length old * m) (length old) m challenge (length old) 0

      count : length F ≡ length old
      count = length-combination src (i * length old * m) (length old) m challenge (length old) 0
