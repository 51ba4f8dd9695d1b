-- ===== src/Polynomials/Lagrange/Steps.antt =====
-- The steps of `compute_lagrange_polynomial_fft` on whole lists.
use barustenberg.Prelude.{
  Bool, bit_and, ℕ, zero, suc, ◌+◌, ◌*◌, ◌<◌, ◌≡◌, ◌≢◌, refl, sym, ap, ap₂, ◌∙◌, List, [], ◌∷◌,
  ◌++◌, length, arith, take, drop, get_or, ok, ◌>>=◌, Option-cases, inl, inr, append_assoc,
  length-append, length-take, length-drop, take-append-drop,
}
use barustenberg.Prelude.Slices.{index-append, assign-append, index-get_or}
use barustenberg.Field.{Field, ◌⊗◌, ◌⊖◌}
use barustenberg.Field.Laws.{mul-one}
use barustenberg.Field.Powers.{pow-suc_left, pow-add}
use barustenberg.Polynomials.Lagrange.{
  thread_points, all_points, invert_all, scale_thread, scale_all,
}

module _ {ℓ} {A : Type ℓ} ⦃f : Field A⦄ where
  -- The points of a progression, each less one.
  abbrev pub points : A → A → ℕ → List A
  points c w zero = []
  points c w (suc n) = (c ⊖ f.one) ∷ points (c ⊗ w) w n

  pub length-points : (c w : A) (n : ℕ) → length (points c w n) ≡ n
  length-points c w zero = refl
  length-points c w (suc n) = ap suc (length-points (c ⊗ w) w n)

  step-pow : (c w : A) (n : ℕ) → (c ⊗ w) ⊗ f.pow w n ≡ c ⊗ f.pow w (suc n)
  step-pow c w n = f.mul_assoc c w _ ∙ ap (λ t. c ⊗ t) (sym (pow-suc_left w n))

  pub get_or-points :
      (c w : A) (n i : ℕ) → i < n → get_or (points c w n) i f.zero ≡ (c ⊗ f.pow w i) ⊖ f.one
  get_or-points c w zero i h = absurd (omega arith)
  get_or-points c w (suc n) zero h =
      ap (λ t. t ⊖ f.one) (sym (mul-one c) ∙ ap (λ t. c ⊗ t) (sym (f.pow-zero w)))
  get_or-points c w (suc n) (suc i) h =
      get_or-points (c ⊗ w) w n i (omega arith) ∙ ap (λ t. t ⊖ f.one) (step-pow c w i)

  points-append :
      (c w : A) (m n : ℕ) → points c w (m + n) ≡ points c w m ++ points (c ⊗ f.pow w m) w n
  points-append c w zero n =
      ap₂ (λ k d. points d w k) {x = 0 + n} {y = n} (omega arith)
        (sym (mul-one c) ∙ ap (λ t. c ⊗ t) (sym (f.pow-zero w)))
  points-append c w (suc m) n =
      ap (points c w) {x = suc m + n} {y = suc (m + n)} (omega arith)
      ∙ ap (λ t. (c ⊖ f.one) ∷ t)
          (points-append (c ⊗ w) w m n
            ∙ ap (λ d. points (c ⊗ w) w m ++ points d w n) (step-pow c w m))

  thread_points-points :
      (w : A) (i : ℕ) (c : A) (pre old tail : List A)
      → i ≡ length pre
      → thread_points w (length old) i c (pre ++ (old ++ tail))
        ≡ ok (pre ++ (points c w (length old) ++ tail))
  unfolding thread_points
  thread_points-points w i c pre [] tail h = refl
  thread_points-points w i c pre (x ∷ old) tail h =
      rw (assign-append pre x (old ++ tail) i (c ⊖ f.one) h) (
        rw (← append_assoc pre ((c ⊖ f.one) ∷ []) (old ++ tail)) (
          thread_points-points w (suc i) (c ⊗ w) (pre ++ ((c ⊖ f.one) ∷ [])) old tail
            (omega (arith, length-append pre ((c ⊖ f.one) ∷ [])))
          ∙ ap ok (append_assoc pre ((c ⊖ f.one) ∷ []) _)))

  pub all_points-points :
      (g w : A) (ts left j : ℕ) (pre rest tail : List A)
      → length pre ≡ j * ts
      → length rest ≡ left * ts
      → all_points g w ts left j (pre ++ (rest ++ tail))
        ≡ ok (pre ++ (points (g ⊗ f.pow w (j * ts)) w (left * ts) ++ tail))
  unfolding all_points
  all_points-points g w ts zero j pre [] tail hp hr =
      ap (λ k. ok (pre ++ (points (g ⊗ f.pow w (j * ts)) w k ++ tail))) {x = 0} {y = 0 * ts}
        (omega arith)
  all_points-points g w ts zero j pre (x ∷ rest) tail hp hr = absurd (omega arith)
  all_points-points g w ts (suc left) j pre rest tail hp hr =
      ap (λ d. all_points g w ts (suc left) j (pre ++ d))
        (ap (λ d. d ++ tail) (sym (take-append-drop ts rest))
          ∙ append_assoc (take ts rest) (drop ts rest) tail)
      ∙ ap
          (λ k.
            thread_points w k (j * ts) c (pre ++ (take ts rest ++ (drop ts rest ++ tail)))
            >>= all_points g w ts left (suc j))
          {x = ts} {y = length (take ts rest)} count
      ∙ rw (thread_points-points w (j * ts) c pre (take ts rest) (drop ts rest ++ tail) (sym hp)) (
          ap (λ k. all_points g w ts left (suc j) (pre ++ (points c w k ++ (drop ts rest ++ tail))))
            {x = length (take ts rest)} {y = ts} (sym count)
          ∙ ap (all_points g w ts left (suc j))
              (sym (append_assoc pre (points c w ts) (drop ts rest ++ tail)))
          ∙ all_points-points g w ts left (suc j) (pre ++ points c w ts) (drop ts rest) tail
              (omega (arith, length-append pre (points c w ts), length-points c w ts))
              (omega (arith, length-drop ts rest))
          ∙ ap ok (
              append_assoc pre (points c w ts) _
              ∙ ap (λ d. pre ++ d)
                  (sym (append_assoc (points c w ts) _ tail) ∙ ap (λ d. d ++ tail) joined)))
    where
      c : A
      c = g ⊗ f.pow w (j * ts)

      count : ts ≡ length (take ts rest)
      count = omega (arith, length-take ts rest)

      joined :
          points c w ts ++ points (g ⊗ f.pow w (suc j * ts)) w (left * ts)
          ≡ points c w (suc left * ts)
      joined =
          ap (λ d. points c w ts ++ points d w (left * ts))
            (ap (λ k. g ⊗ f.pow w k) {x = suc j * ts} {y = j * ts + ts} (omega arith)
              ∙ ap (λ t. g ⊗ t) (pow-add w (j * ts) ts)
              ∙ sym (f.mul_assoc g _ _))
          ∙ sym (points-append c w ts (left * ts))
          ∙ ap (points c w) {x = ts + left * ts} {y = suc left * ts} (omega arith)

  -- Nonzero coefficients are inverted, and what stands behind them decides.
  pub invert_all-units :
      (xs tail : List A)
      → ((i : ℕ) → i < length xs → get_or xs i f.zero ≢ f.zero)
      → (ys : List A) × (invert_all (xs ++ tail) ≡ ((invert_all tail).0, ys ++ (invert_all tail).1))
        × (length ys ≡ length xs)
        × ((i : ℕ) → i < length xs → get_or xs i f.zero ⊗ get_or ys i f.zero ≡ f.one)
  unfolding invert_all
  invert_all-units [] tail h = ([], refl, refl, λ i l. absurd (omega arith))
  invert_all-units (x ∷ xs) tail h =
      let (ys, run, len, units) = invert_all-units xs tail (λ i l. h (suc i) (omega arith)) in
      elim (Option-cases (f.inverse x)) [
        | inl e ↦ absurd (h 0 (omega arith) (f.inverse-none x e))
        | inr (y, e) ↦ (
          y ∷ ys,
          rw (invert_all, e) (ap (λ (r : Bool × List A). (r.0, y ∷ r.1)) run),
          ap suc len,
          λ i l. each y ys (f.inverse-some x y e) units i l,
        )
      ]
    where
      each :
          (y : A) (ys : List A)
          → x ⊗ y ≡ f.one
          → ((i : ℕ) → i < length xs → get_or xs i f.zero ⊗ get_or ys i f.zero ≡ f.one)
          → (i : ℕ) → i < suc (length xs)
          → get_or (x ∷ xs) i f.zero ⊗ get_or (y ∷ ys) i f.zero ≡ f.one
      each y ys u units zero l = u
      each y ys u units (suc i) l = units i (omega arith)

  module _ (roots : List A) (mask : ℕ) where
    abbrev pub scaled : ℕ → List A → List A
    scaled k [] = []
    scaled k (c ∷ cs) = c ⊗ get_or roots (bit_and k mask) f.zero ∷ scaled (suc k) cs

    pub length-scaled : (k : ℕ) (cs : List A) → length (scaled k cs) ≡ length cs
    length-scaled k [] = refl
    length-scaled k (c ∷ cs) = ap suc (length-scaled (suc k) cs)

    pub get_or-scaled :
        (k : ℕ) (cs : List A) (i : ℕ)
        → i < length cs
        → get_or (scaled k cs) i f.zero
          ≡ get_or cs i f.zero ⊗ get_or roots (bit_and (k + i) mask) f.zero
    get_or-scaled k [] i h = absurd (omega arith)
    get_or-scaled k (c ∷ cs) zero h =
        ap (λ n. c ⊗ get_or roots (bit_and n mask) f.zero) {x = k} {y = k + 0} (omega arith)
    get_or-scaled k (c ∷ cs) (suc i) h =
        get_or-scaled (suc k) cs i (omega arith)
        ∙ ap (λ n. get_or cs i f.zero ⊗ get_or roots (bit_and n mask) f.zero) {x = suc k + i}
            {y = k + suc i} (omega arith)

    scaled-append :
        (k : ℕ) (xs ys : List A) → scaled k (xs ++ ys) ≡ scaled k xs ++ scaled (k + length xs) ys
    scaled-append k [] ys = ap (λ n. scaled n ys) {x = k} {y = k + 0} (omega arith)
    scaled-append k (x ∷ xs) ys =
        ap (λ t. x ⊗ get_or roots (bit_and k mask) f.zero ∷ t)
          (scaled-append (suc k) xs ys
            ∙ ap (λ n. scaled (suc k) xs ++ scaled n ys) {x = suc k + length xs}
                {y = k + suc (length xs)} (omega arith))

    module _ (fits : (k : ℕ) → bit_and k mask < length roots) where
      scale_thread-scaled :
          (k : ℕ) (pre old tail : List A)
          → k ≡ length pre
          → scale_thread roots mask (length old) k (pre ++ (old ++ tail))
            ≡ ok (pre ++ (scaled k old ++ tail))
      unfolding scale_thread
      scale_thread-scaled k pre [] tail h = refl
      scale_thread-scaled k pre (c ∷ old) tail h =
          rw (index-get_or roots (bit_and k mask) f.zero (fits k)) (
            rw (index-append pre c (old ++ tail) k h) (
              rw (assign-append pre c (old ++ tail) k v h) (
                rw (← append_assoc pre (v ∷ []) (old ++ tail)) (
                  scale_thread-scaled (suc k) (pre ++ (v ∷ [])) old tail
                    (omega (arith, length-append pre (v ∷ [])))
                  ∙ ap ok (append_assoc pre (v ∷ []) _)))))
        where
          v : A
          v = c ⊗ get_or roots (bit_and k mask) f.zero

      pub scale_all-scaled :
          (ts left i : ℕ) (pre rest : List A)
          → length pre ≡ i * ts
          → length rest ≡ left * ts
          → scale_all roots mask ts left i (pre ++ rest) ≡ ok (pre ++ scaled (i * ts) rest)
      unfolding scale_all
      scale_all-scaled ts zero i pre [] hp hr = refl
      scale_all-scaled ts zero i pre (x ∷ rest) hp hr = absurd (omega arith)
      scale_all-scaled ts (suc left) i pre rest hp hr =
          ap (λ d. scale_all roots mask ts (suc left) i (pre ++ d)) (sym (take-append-drop ts rest))
          ∙ ap
              (λ n.
                scale_thread roots mask n (i * ts) (pre ++ (take ts rest ++ drop ts rest))
                >>= scale_all roots mask ts left (suc i))
              {x = ts} {y = length (take ts rest)} count
          ∙ rw (scale_thread-scaled (i * ts) pre (take ts rest) (drop ts rest) (sym hp)) (
              ap (scale_all roots mask ts left (suc i))
                (sym (append_assoc pre (scaled (i * ts) (take ts rest)) (drop ts rest)))
              ∙ scale_all-scaled ts left (suc i) (pre ++ scaled (i * ts) (take ts rest))
                  (drop ts rest)
                  (omega (
                    arith,
                    length-append pre (scaled (i * ts) (take ts rest)),
                    length-scaled (i * ts) (take ts rest),
                    count,
                  ))
                  (omega (arith, length-drop ts rest))
              ∙ ap ok (
                  append_assoc pre (scaled (i * ts) (take ts rest)) _
                  ∙ ap (λ d. pre ++ d)
                      (ap (λ n. scaled (i * ts) (take ts rest) ++ scaled n (drop ts rest))
                          {x = suc i * ts} {y = i * ts + length (take ts rest)}
                          (omega (arith, count))
                        ∙ sym (scaled-append (i * ts) (take ts rest) (drop ts rest))
                        ∙ ap (scaled (i * ts)) (take-append-drop ts rest))))
        where
          count : ts ≡ length (take ts rest)
          count = omega (arith, length-take ts rest)
