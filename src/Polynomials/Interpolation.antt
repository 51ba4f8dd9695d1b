-- ===== src/Polynomials/Interpolation.antt =====
-- barustenberg/src/polynomials: `compute_linear_polynomial_product` and `compute_efficient_interpolation`
-- of polynomial_arithmetic.rs, `from_interpolations` of polynomial.rs.
pub mod Product
pub mod Points
mod Tests
use barustenberg.Prelude.{
  ℕ, zero, suc, ◌+◌, ◌-◌, ◌*◌, List, [], ◌∷◌, ◌++◌, Outcome, ok, panic, index, assign, ◌>>=◌, ◌>>◌,
  assert, if◌then◌else◌, ltb, leb, ◌==◌, ◌&&◌, not, Bool, true, false, take, drop, length,
  replicate,
}
use barustenberg.Field.{Field, ◌⊕◌, ◌⊗◌, ◌⊖◌}
use barustenberg.Polynomials.{Polynomial}
use barustenberg.Polynomials.Lagrange.{invert_all}

-- `&xs[a..b]`
abbrev pub slice {ℓ} : {A : Type ℓ} → List A → ℕ → ℕ → Outcome (List A)
slice xs a b = if leb a b && leb b (length xs) then ok (take (b - a) (drop a xs)) else panic

module _ {ℓ} {A : Type ℓ} ⦃f : Field A⦄ where
  -- The fold of `compute_sum`.
  abbrev pub fold_sum : A → List A → A
  fold_sum acc [] = acc
  fold_sum acc (x ∷ xs) = fold_sum (acc ⊕ x) xs

  abbrev pub compute_sum : List A → A
  compute_sum xs = fold_sum f.zero xs

  -- The loop over `j`, `end` being `n - 1 - i`. Returns the scratch space and `temp`.
  unfoldable pub sum_products :
      (roots : List A) (end left j : ℕ) (scratch : List A) (temp : A) → Outcome (List A × A)
  sum_products roots end zero j scratch temp = ok (scratch, temp)
  sum_products roots end (suc left) j scratch temp = do
    r ← index roots j
    part ← slice scratch (j + 1) (end - j)
    scratch' ← assign scratch j (r ⊗ compute_sum part)
    sum_products roots end left (suc j) scratch' (temp ⊕ r ⊗ compute_sum part)

  -- The loop over `i`, for `left` values; `n - 1` is `i + left`. It writes at `n - 2 - i`.
  unfoldable pub fill_product :
      (roots : List A) (left : ℕ) (scratch : List A) (constant : A) → List A → Outcome (List A)
  unfolding sum_products
  fill_product roots zero scratch constant dest = ok dest
  fill_product roots (suc left) scratch constant dest = do
    (scratch', temp) ← sum_products roots (suc left) (suc left) 0 scratch f.zero
    dest' ← assign dest left (temp ⊗ constant)
    fill_product roots left scratch' (f.neg constant) dest'

  -- `n - 1` panics or is out of range if `n` is 0.
  unfoldable pub compute_linear_polynomial_product :
      (roots dest : List A) (n : ℕ) → Outcome (List A)
  unfolding fill_product
  compute_linear_polynomial_product roots dest zero = panic
  compute_linear_polynomial_product roots dest (suc n) = do
    scratch ← slice roots 0 (suc n)
    dest1 ← assign dest (suc n) f.one
    dest2 ← assign dest1 n (f.neg (compute_sum scratch))
    fill_product roots n scratch f.one dest2

  -- `d_i`, the product of the differences to the other points, for `left` values of `j`.
  unfoldable pub difference_product : (evaluation_points : List A) (i left j : ℕ) → A → Outcome A
  difference_product evaluation_points i zero j acc = ok acc
  difference_product evaluation_points i (suc left) j acc = do
    acc' ←
        (if j == i
          then ok acc
          else (index evaluation_points i >>= λ x.
              index evaluation_points j >>= λ y. ok (acc ⊗ (x ⊖ y))))
    difference_product evaluation_points i left (suc j) acc'

  -- The first loop over `i`: the negated points, the denominators, the values and the cleared `dest`.
  unfoldable pub prepare :
      (src evaluation_points : List A) (n left i : ℕ) (roots denominators temp_src dest : List A)
      → Outcome (List A × List A × List A × List A)
  unfolding difference_product
  prepare src evaluation_points n zero i roots denominators temp_src dest =
      ok (roots, denominators, temp_src, dest)
  prepare src evaluation_points n (suc left) i roots denominators temp_src dest = do
    x ← index evaluation_points i
    v ← index src i
    dest' ← assign dest i f.zero
    d ← difference_product evaluation_points i n 0 f.one
    prepare src evaluation_points n left (suc i) (roots ++ (f.neg x ∷ []))
        (denominators ++ (d ∷ [])) (temp_src ++ (v ∷ [])) dest'

  -- The loop over `j`: the division of the numerator by a linear factor.
  unfoldable pub divide_out :
      (numerator : List A) (multiplier z : A) (left j : ℕ) (before : A) → List A → Outcome (List A)
  divide_out numerator multiplier z zero j before dest = ok dest
  divide_out numerator multiplier z (suc left) j before dest = do
    c ← index numerator j
    let t = (multiplier ⊗ c ⊖ before) ⊗ z
    d ← index dest j
    dest' ← assign dest j (d ⊕ t)
    divide_out numerator multiplier z left (suc j) t dest'

  -- The last loop over `i`.
  unfoldable pub add_terms :
      (n : ℕ) (numerator inverses temp_src : List A) (left i : ℕ) → List A → Outcome (List A)
  unfolding divide_out
  add_terms n numerator inverses temp_src zero i dest = ok dest
  add_terms n numerator inverses temp_src (suc left) i dest = do
    z ← index inverses i
    v ← index temp_src i
    e ← index inverses (n + i)
    c ← index numerator 0
    let t = ((v ⊗ e) ⊗ c) ⊗ z
    d ← index dest 0
    dest' ← assign dest 0 (d ⊕ t)
    dest'' ← divide_out numerator (v ⊗ e) z (n - 1) 1 t dest'
    add_terms n numerator inverses temp_src left (suc i) dest''

  -- The rest after the inversion, whose error is returned.
  unfoldable pub finish_interpolation :
      (n : ℕ) (numerator temp_src dest : List A) → Bool × List A → Outcome (Bool × List A)
  unfolding add_terms
  finish_interpolation n numerator temp_src dest (false, inverses) = ok (false, dest)
  finish_interpolation n numerator temp_src dest (true, inverses) =
      add_terms n numerator inverses temp_src n 0 dest >>= λ dest'. ok (true, dest')

  -- Whether it is `Ok`, and `dest` afterwards.
  unfoldable pub compute_efficient_interpolation :
      (src dest evaluation_points : List A) (n : ℕ) → Outcome (Bool × List A)
  unfolding compute_linear_polynomial_product prepare finish_interpolation
  compute_efficient_interpolation src dest evaluation_points n = do
    numerator ← compute_linear_polynomial_product evaluation_points (replicate (n + 1) f.zero) n
    (roots, denominators, temp_src, dest') ← prepare src evaluation_points n n 0 [] [] [] dest
    finish_interpolation n numerator temp_src dest' (invert_all (roots ++ denominators))

  -- The result of the interpolation is not looked at.
  unfoldable pub from_interpolations :
      (interpolation_points evaluations : List A) → Outcome (Polynomial A)
  unfolding compute_efficient_interpolation
  from_interpolations interpolation_points evaluations =
      let n = length interpolation_points in
      assert (not (n == 0))
      >> (compute_efficient_interpolation evaluations (replicate n f.zero) interpolation_points n
          >>= λ (_, coefficients). ok (record { size = n; coefficients = coefficients }))
