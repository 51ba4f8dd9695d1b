-- ===== src/Prover/Lagrange.antt =====
-- `compute_lagrange_1_fft` of the prover, over `compute_lagrange_polynomial_fft` and the store.
use barustenberg.Prelude.{
  ℕ, zero, suc, ◌+◌, ◌*◌, ◌<◌, ◌≤◌, ◌≡◌, ◌≢◌, refl, sym, ap, ◌∙◌, List, [], ◌∷◌, ◌++◌, length,
  arith, take, get_or, replicate, length-replicate, Outcome, ok, index, assign, ◌>>=◌, Option, Bool,
  false, append_assoc, append-nil, length-append, length-take,
}
use barustenberg.Prelude.Slices.{index-get_or, index-append_left, assign-append}
use barustenberg.Numeric.{Profile}
use barustenberg.Field.{Field, ◌⊗◌, ◌⊖◌}
use barustenberg.Polynomials.{new}
use barustenberg.Polynomials.Lagrange.{
  EvaluationDomain, invert_all, finish_lagrange, compute_lagrange_polynomial_fft,
}
use barustenberg.Polynomials.Lagrange.Values.{first_steps}
use barustenberg.Storage.{PolynomialStore, put}

-- `for i in 0..8`, `end` being `4 * circuit_size`.
copy_first {ℓ} : {A : Type ℓ} → (end left i : ℕ) → List A → Outcome (List A)
copy_first end zero i cs = ok cs
copy_first end (suc left) i cs = do
  c ← index cs i
  cs' ← assign cs (end + i) c
  copy_first end left (suc i) cs'

-- The result of `compute_lagrange_polynomial_fft` is not looked at.
pub compute_lagrange_1_fft {ℓ} :
    {A : Type ℓ} ⦃f : Field A⦄
    → Profile
    → (get_root_of_unity : ℕ → Option A) (circuit_size : ℕ)
      (small_domain large_domain : EvaluationDomain A)
    → PolynomialStore A
    → Outcome (PolynomialStore A)
unfolding copy_first
compute_lagrange_1_fft p get_root_of_unity circuit_size small large store = do
  (_, l) ←
      compute_lagrange_polynomial_fft p get_root_of_unity small (new (4 * circuit_size + 8)) large
  cs ← copy_first (4 * circuit_size) 8 0 l.coefficients
  ok (put "lagrange_1_fft" (record l { coefficients = cs }) store)

module _ {ℓ} {A : Type ℓ} ⦃f : Field A⦄ where
  take-suc :
      (xs : List A) (i : ℕ)
      → i < length xs
      → take (suc i) xs ≡ take i xs ++ (get_or xs i f.zero ∷ [])
  take-suc [] i h = absurd (omega arith)
  take-suc (x ∷ xs) zero h = refl
  take-suc (x ∷ xs) (suc i) h = ap (λ t. x ∷ t) (take-suc xs i (omega arith))

  -- The first values are written behind the values.
  copy_first-take :
      (values old : List A) (end i : ℕ)
      → length values ≡ end
      → i + length old ≤ length values
      → copy_first end (length old) i (values ++ (take i values ++ old))
        ≡ ok (values ++ take (i + length old) values)
  unfolding copy_first
  copy_first-take values [] end i h e =
      ap (λ t. ok (values ++ t))
        (append-nil (take i values) ∙ ap (λ k. take k values) {x = i} {y = i + 0} (omega arith))
  copy_first-take values (x ∷ old) end i h e =
      rw (index-append_left values (take i values ++ (x ∷ old)) i (omega arith)) (
        rw (index-get_or values i f.zero (omega arith)) (
          ap (λ cs. assign cs (end + i) v >>= copy_first end (length old) (suc i))
            (sym (append_assoc values (take i values) (x ∷ old)))
          ∙ rw
              (assign-append (values ++ take i values) x old (end + i) v
                (omega (arith, length-append values (take i values), length-take i values)))
              (ap (copy_first end (length old) (suc i)) (
                  append_assoc values (take i values) (v ∷ old)
                  ∙ ap (λ t. values ++ t)
                      (sym (append_assoc (take i values) (v ∷ []) old)
                        ∙ ap (λ t. t ++ old) (sym (take-suc values i (omega arith)))))
                ∙ copy_first-take values old end (suc i) h (omega arith)
                ∙ ap (λ k. ok (values ++ take k values)) {x = suc i + length old}
                    {y = i + suc (length old)} (omega arith))))
    where
      v : A
      v = get_or values i f.zero

  replicate-add : (m n : ℕ) (a : A) → replicate (m + n) a ≡ replicate m a ++ replicate n a
  replicate-add zero n a = ap (λ k. replicate k a) {x = 0 + n} {y = n} (omega arith)
  replicate-add (suc m) n a =
      ap (λ k. replicate k a) {x = suc m + n} {y = suc (m + n)} (omega arith)
      ∙ ap (λ t. a ∷ t) (replicate-add m n a)

  -- With a large domain of four points for each of the circuit's, at least two, and none of the points
  -- `X_i = g * w^i` being one, the prover stores under `lagrange_1_fft` the inverses of `X_i - 1` with the
  -- first eight of them again behind them, whatever roots of unity the field has: the inversion ends in
  -- an error at the zeros behind the points, and no value is multiplied by its numerator.
  pub compute_lagrange_1_fft_lem :
      (p : Profile) (get_root_of_unity : ℕ → Option A) (n : ℕ) (small large : EvaluationDomain A)
      (store : PolynomialStore A)
      → 2 ≤ n
      → large.num_threads * large.thread_size ≡ 4 * n
      → ((i : ℕ) → i < 4 * n → small.generator ⊗ f.pow large.root i ≢ f.one)
      → (values : List A) × (compute_lagrange_1_fft p get_root_of_unity n small large store
          ≡ ok (
              put "lagrange_1_fft"
                (record { size = 4 * n + 8; coefficients = values ++ take 8 values })
                store))
        × (length values ≡ 4 * n)
        × ((i : ℕ)
            → i < 4 * n
            → ((small.generator ⊗ f.pow large.root i) ⊖ f.one) ⊗ get_or values i f.zero ≡ f.one)
  unfolding compute_lagrange_1_fft compute_lagrange_polynomial_fft finish_lagrange new invert_all
  compute_lagrange_1_fft_lem p get_root n small large store two four h =
      let (pts, ys, run, inverted, len, units) =
        first_steps small large (replicate (4 * n) f.zero) (replicate 8 f.zero)
          (length-replicate (4 * n) f.zero ∙ sym four)
          (λ i b. h i (omega (arith, length-replicate (4 * n) f.zero))) in
      (
        ys,
        rw (replicate-add (4 * n) 8 f.zero) (
            rw run (
              rw (inverted ∙ ap (λ (r : Bool × List A). (r.0, ys ++ r.1)) no_inverse) (
                rw
                  (copy_first-take ys (replicate 8 f.zero) (4 * n) 0
                    (len ∙ length-replicate (4 * n) f.zero)
                    (omega (arith, len, length-replicate (4 * n) f.zero)))
                  refl))),
        len ∙ length-replicate (4 * n) f.zero,
        λ i b. units i (omega (arith, length-replicate (4 * n) f.zero)),
      )
    where
      no_inverse : invert_all (replicate 8 f.zero) ≡ (false, replicate 8 f.zero)
      no_inverse = rw (invert_all, f.inverse-zero) refl
