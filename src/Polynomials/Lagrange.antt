-- ===== src/Polynomials/Lagrange.antt =====
-- `compute_lagrange_polynomial_fft` of barustenberg/src/polynomials/polynomial_arithmetic.rs: the
-- values of the first Lagrange polynomial on the coset of a larger domain.
pub mod Steps
pub mod Values
use barustenberg.Prelude.{
  bit_and, ℕ, zero, suc, ◌-◌, ◌*◌, List, [], ◌∷◌, Bool, true, false, panic, Outcome, ok, err, index,
  assign, assert, ◌>>=◌, ◌>>◌, Option, none, some, leb, map, replicate,
}
use barustenberg.Numeric.{Profile}
use barustenberg.Field.{Field, ◌⊗◌, ◌⊖◌}
use barustenberg.Polynomials.{Polynomial}
use barustenberg.Polynomials.Subgroup.{one_shl64, compute_multiplicative_subgroup}

-- The fields of a domain that the function reads.
pub record EvaluationDomain {ℓ} (A : Type ℓ) : Type ℓ where
  pub num_threads : ℕ
  pub thread_size : ℕ
  pub log2_size : ℕ
  pub root : A
  pub domain_inverse : A
  pub generator : A

module _ {ℓ} {A : Type ℓ} ⦃f : Field A⦄ where
  -- The inner loop of step 1: `X_i - 1`.
  unfoldable pub thread_points :
      (multiplicand : A) (left i : ℕ) (work_root : A) → List A → Outcome (List A)
  thread_points multiplicand zero i work_root cs = ok cs
  thread_points multiplicand (suc left) i work_root cs = do
    cs' ← assign cs i (work_root ⊖ f.one)
    thread_points multiplicand left (suc i) (work_root ⊗ multiplicand) cs'

  unfoldable pub all_points :
      (generator multiplicand : A) (thread_size left j : ℕ) → List A → Outcome (List A)
  unfolding thread_points
  all_points generator multiplicand thread_size zero j cs = ok cs
  all_points generator multiplicand thread_size (suc left) j cs = do
    cs' ←
        thread_points multiplicand thread_size (j * thread_size)
          (generator ⊗ f.pow multiplicand (j * thread_size)) cs
    all_points generator multiplicand thread_size left (suc j) cs'

  -- Every coefficient is inverted in its place, up to the first without an inverse, which is the
  -- error. The Boolean says whether there was none.
  unfoldable pub invert_all : List A → Bool × List A
  invert_all [] = (true, [])
  invert_all (x ∷ xs) = elim (f.inverse x) [
    | none ↦ (false, x ∷ xs)
    | some y ↦ ((invert_all xs).0, y ∷ (invert_all xs).1)
  ]

  -- The inner loop of step 3, `k` being `eval_idx`.
  unfoldable pub scale_thread :
      (subgroup_roots : List A) (subgroup_mask left k : ℕ) → List A → Outcome (List A)
  scale_thread subgroup_roots subgroup_mask zero k cs = ok cs
  scale_thread subgroup_roots subgroup_mask (suc left) k cs = do
    r ← index subgroup_roots (bit_and k subgroup_mask)
    c ← index cs k
    cs' ← assign cs k (c ⊗ r)
    scale_thread subgroup_roots subgroup_mask left (suc k) cs'

  unfoldable pub scale_all :
      (subgroup_roots : List A) (subgroup_mask thread_size left i : ℕ) → List A → Outcome (List A)
  unfolding scale_thread
  scale_all subgroup_roots subgroup_mask thread_size zero i cs = ok cs
  scale_all subgroup_roots subgroup_mask thread_size (suc left) i cs = do
    cs' ← scale_thread subgroup_roots subgroup_mask thread_size (i * thread_size) cs
    scale_all subgroup_roots subgroup_mask thread_size left (suc i) cs'

  -- The steps after the inversion. The assertion comes first: with a smaller target the subtraction
  -- before it panics too, or wraps and lets the assertion panic.
  unfoldable pub multiply_numerators :
      Profile
      → (get_root_of_unity : ℕ → Option A) (domain target_domain : EvaluationDomain A)
        (inverses : List A)
      → Outcome (List A)
  multiply_numerators p get_root_of_unity domain target inverses = do
    _ ← assert (leb domain.log2_size target.log2_size)
    let log2_subgroup_size = target.log2_size - domain.log2_size
    subgroup_size ← one_shl64 p log2_subgroup_size
    subgroup_roots ←
        compute_multiplicative_subgroup p get_root_of_unity domain.generator domain.log2_size
          log2_subgroup_size (replicate subgroup_size f.one)
    scale_all (map (λ r. (r ⊖ f.one) ⊗ domain.domain_inverse) subgroup_roots) (subgroup_size - 1)
        target.thread_size target.num_threads 0 inverses

  -- The rest after the inversion: `result?` returns its error, and so do the later steps.
  unfoldable pub finish_lagrange :
      Profile
      → (get_root_of_unity : ℕ → Option A) (domain target_domain : EvaluationDomain A)
        (l_1_coefficients : Polynomial A)
      → Bool × List A
      → Outcome (Bool × Polynomial A)
  finish_lagrange p get_root_of_unity domain target l (false, inverses) =
      ok (false, record l { coefficients = inverses })
  finish_lagrange p get_root_of_unity domain target l (true, inverses) =
      elim (multiply_numerators p get_root_of_unity domain target inverses) [
        | ok values ↦ ok (true, record l { coefficients = values })
        | err ↦ ok (false, record l { coefficients = inverses })
        | panic ↦ panic
      ]

  -- Whether it is `Ok`, and the polynomial afterwards. What returns an `Err` has changed it already.
  unfoldable pub compute_lagrange_polynomial_fft :
      Profile
      → (get_root_of_unity : ℕ → Option A) (domain : EvaluationDomain A)
        (l_1_coefficients : Polynomial A) (target_domain : EvaluationDomain A)
      → Outcome (Bool × Polynomial A)
  compute_lagrange_polynomial_fft p get_root_of_unity domain l target = do
    points ←
        all_points domain.generator target.root target.thread_size target.num_threads 0
          l.coefficients
    finish_lagrange p get_root_of_unity domain target l (invert_all points)
