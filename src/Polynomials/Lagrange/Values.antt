-- ===== src/Polynomials/Lagrange/Values.antt =====
-- `compute_lagrange_polynomial_fft` as a whole.
use barustenberg.Prelude.{
  bit_and, ℕ, zero, suc, ◌+◌, ◌-◌, ◌*◌, ◌^◌, ◌<◌, ◌≡◌, ◌≢◌, refl, sym, ap, ◌∙◌, List, [], ◌∷◌, ◌++◌,
  map, length, arith, drop, get_or, replicate, ok, Option, some, append-nil, length-map, leb,
  le→leb, true,
}
use barustenberg.Prelude.Masks.{bit_and-mask_lt}
use barustenberg.Numeric.{Profile}
use barustenberg.Field.{Field, ◌⊗◌, ◌⊖◌}
use barustenberg.Field.Laws.{sub-add_cancel, mul-one}
use barustenberg.Polynomials.{Polynomial}
use barustenberg.Polynomials.Subgroup.Members.{
  progression, length-progression, get_or-progression, one_shl64_lem,
  compute_multiplicative_subgroup_run,
}
use barustenberg.Polynomials.Lagrange.{
  EvaluationDomain, finish_lagrange, invert_all, multiply_numerators, all_points,
  compute_lagrange_polynomial_fft,
}
use barustenberg.Polynomials.Lagrange.Steps.{
  points, length-points, get_or-points, all_points-points, invert_all-units, scaled, length-scaled,
  get_or-scaled, scale_all-scaled,
}

module _ {ℓ} {A : Type ℓ} where
  drop-replicate : (n : ℕ) (x : A) → drop n (replicate n x) ≡ []
  drop-replicate zero x = refl
  drop-replicate (suc n) x = drop-replicate n x

  length-replicate : (n : ℕ) (x : A) → length (replicate n x) ≡ n
  length-replicate zero x = refl
  length-replicate (suc n) x = ap suc (length-replicate n x)

  get_or-map :
      {B : Type ℓ} (g : A → B) (xs : List A) (i : ℕ) (d : A) (e : B)
      → i < length xs
      → get_or (map g xs) i e ≡ g (get_or xs i d)
  get_or-map g [] i d e h = absurd (omega arith)
  get_or-map g (x ∷ xs) zero d e h = refl
  get_or-map g (x ∷ xs) (suc i) d e h = get_or-map g xs i d e (omega arith)

module _ {ℓ} {A : Type ℓ} ⦃f : Field A⦄ where
  -- The first two steps on a list with places behind those of the threads.
  pub first_steps :
      (domain target : EvaluationDomain A) (old tail : List A)
      → length old ≡ target.num_threads * target.thread_size
      → ((i : ℕ) → i < length old → domain.generator ⊗ f.pow target.root i ≢ f.one)
      → (pts ys : List A) × (all_points domain.generator target.root target.thread_size
            target.num_threads 0
            (old ++ tail)
          ≡ ok (pts ++ tail))
        × (invert_all (pts ++ tail) ≡ ((invert_all tail).0, ys ++ (invert_all tail).1))
        × (length ys ≡ length old)
        × ((i : ℕ)
            → i < length old
            → ((domain.generator ⊗ f.pow target.root i) ⊖ f.one) ⊗ get_or ys i f.zero ≡ f.one)
  first_steps domain target old tail hl h =
      let (ys, run, len, units) = invert_all-units (points g w total) tail (λ i b z.
        h i (omega (arith, length-points g w total)) (
          one_of (g ⊗ f.pow w i)
            (sym (get_or-points g w total i (omega (arith, length-points g w total))) ∙ z))) in
      (
        points g w total,
        ys,
        all_points-points g w target.thread_size target.num_threads 0 [] old tail (omega arith) hl
            ∙ ap (λ c. ok (points c w total ++ tail))
                (ap (λ k. g ⊗ f.pow w k) {x = 0 * target.thread_size} {y = 0} (omega arith)
                  ∙ ap (λ t. g ⊗ t) (f.pow-zero w)
                  ∙ mul-one g),
        run,
        len ∙ length-points g w total ∙ sym hl,
        λ i b.
            ap (λ t. t ⊗ get_or ys i f.zero) (sym (get_or-points g w total i (omega arith)))
            ∙ units i (omega (arith, length-points g w total)),
      )
    where
      g : A
      g = domain.generator

      w : A
      w = target.root

      total : ℕ
      total = target.num_threads * target.thread_size

      one_of : (x : A) → (x ⊖ f.one) ≡ f.zero → x ≡ f.one
      one_of x z = sym (sub-add_cancel x f.one) ∙ ap (λ t. f.add t f.one) z ∙ f.zero-add f.one

  -- With a coefficient for each point that the threads of the target domain cover, the target's
  -- logarithm exceeding the domain's by `s`, less than 64, none of the points `g * w^i` being one, and a
  -- root from `get_root_of_unity s`, the function succeeds. The `i`-th coefficient, times `g * w^i - 1`,
  -- is then `g^n * root^(i & (2^s - 1)) - 1` times the domain's inverse, `n` being two to the domain's
  -- logarithm.
  pub compute_lagrange_polynomial_fft_lem :
      (p : Profile) (get_root_of_unity : ℕ → Option A) (domain target : EvaluationDomain A)
      (l : Polynomial A) (s : ℕ) (root : A)
      → length l.coefficients ≡ target.num_threads * target.thread_size
      → target.log2_size ≡ domain.log2_size + s
      → s < 64
      → get_root_of_unity s ≡ some root
      → ((i : ℕ) → i < length l.coefficients → domain.generator ⊗ f.pow target.root i ≢ f.one)
      → (values : List A) × (compute_lagrange_polynomial_fft p get_root_of_unity domain l target
          ≡ ok (true, record l { coefficients = values }))
        × (length values ≡ length l.coefficients)
        × ((i : ℕ)
            → i < length l.coefficients
            → ((domain.generator ⊗ f.pow target.root i) ⊖ f.one) ⊗ get_or values i f.zero
              ≡ ((f.pow domain.generator (2 ^ domain.log2_size)
                    ⊗ f.pow root (bit_and i (2 ^ s - 1)))
                  ⊖ f.one)
                ⊗ domain.domain_inverse)
  unfolding compute_lagrange_polynomial_fft finish_lagrange multiply_numerators invert_all
  compute_lagrange_polynomial_fft_lem p get_root domain target l s root hl ht hs e h =
      let (pts, ys, run, inverted, len, units) = first_steps domain target l.coefficients [] hl h in
      (
        scaled roots (2 ^ s - 1) 0 ys,
        rw
            (ap (all_points domain.generator target.root target.thread_size target.num_threads 0)
                (sym (append-nil l.coefficients))
              ∙ run
              ∙ ap ok (append-nil pts))
            (ap (finish_lagrange p get_root domain target l) (
                ap invert_all (sym (append-nil pts))
                ∙ inverted
                ∙ ap (λ d. (true, d)) (append-nil ys))
              ∙ rw (finish_lagrange, numerators ys (len ∙ hl)) refl),
        length-scaled roots (2 ^ s - 1) 0 ys ∙ len,
        λ i b.
            ap (λ t. ((domain.generator ⊗ f.pow target.root i) ⊖ f.one) ⊗ t)
              (get_or-scaled roots (2 ^ s - 1) 0 ys i (omega (arith, len))
                ∙ ap (λ k. get_or ys i f.zero ⊗ get_or roots (bit_and k (2 ^ s - 1)) f.zero)
                    {x = 0 + i} {y = i} (omega arith))
            ∙ sym (f.mul_assoc _ _ _)
            ∙ ap (λ t. t ⊗ get_or roots (bit_and i (2 ^ s - 1)) f.zero) (units i b)
            ∙ f.one-mul _
            ∙ root_at i,
      )
    where
      members : List A
      members = progression (f.pow domain.generator (2 ^ domain.log2_size)) root (2 ^ s)

      roots : List A
      roots = map (λ r. (r ⊖ f.one) ⊗ domain.domain_inverse) members

      count : length roots ≡ 2 ^ s
      count = length-map members _ ∙ length-progression _ root (2 ^ s)

      fits : (k : ℕ) → bit_and k (2 ^ s - 1) < length roots
      fits k = omega (arith, bit_and-mask_lt s k, count)

      above : leb domain.log2_size target.log2_size ≡ true
      above = le→leb domain.log2_size target.log2_size (omega arith)

      difference : target.log2_size - domain.log2_size ≡ s
      difference = omega arith

      numerators :
          (ys : List A)
          → length ys ≡ target.num_threads * target.thread_size
          → multiply_numerators p get_root domain target ys ≡ ok (scaled roots (2 ^ s - 1) 0 ys)
      numerators ys len =
          rw (multiply_numerators, above)
            (rw difference (
              rw (one_shl64_lem p s hs) (
                rw
                  (compute_multiplicative_subgroup_run p get_root domain.generator domain.log2_size
                    s (replicate (2 ^ s) f.one) root hs e
                    (omega (arith, length-replicate (2 ^ s) f.one)))
                  (rw (drop-replicate (2 ^ s) f.one, append-nil members)
                    (scale_all-scaled roots (2 ^ s - 1) fits target.thread_size target.num_threads 0
                        [] ys (omega arith) len
                      ∙ ap (λ k. ok (scaled roots (2 ^ s - 1) k ys)) {x = 0 * target.thread_size}
                          {y = 0} (omega arith))))))

      root_at :
          (i : ℕ)
          → get_or roots (bit_and i (2 ^ s - 1)) f.zero
            ≡ ((f.pow domain.generator (2 ^ domain.log2_size) ⊗ f.pow root (bit_and i (2 ^ s - 1)))
                ⊖ f.one)
              ⊗ domain.domain_inverse
      root_at i =
          get_or-map _ members (bit_and i (2 ^ s - 1)) f.zero f.zero (
            omega (
              arith,
              bit_and-mask_lt s i,
              length-progression (f.pow domain.generator (2 ^ domain.log2_size)) root (2 ^ s),
            ))
          ∙ ap (λ t. (t ⊖ f.one) ⊗ domain.domain_inverse)
              (get_or-progression (f.pow domain.generator (2 ^ domain.log2_size)) root (2 ^ s)
                (bit_and i (2 ^ s - 1)) (bit_and-mask_lt s i))
