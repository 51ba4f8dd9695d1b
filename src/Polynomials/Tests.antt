-- ===== src/Polynomials/Tests.antt =====
-- Polynomials over the integers modulo 5, run on small inputs.
use barustenberg.Prelude.{
  true, zero, suc, ◌≢◌, bit_and, none, ◌+◌, if◌then◌else◌, ◌==◌, ℕ, List, get_or, ◌<◌, ◌≡◌, ap,
  ◌>>=◌, ◌^◌, refl, ok, some, arith, [], ◌∷◌, ◌++◌, length,
}
use barustenberg.Numeric.{wrapping}
use barustenberg.Numeric.Msb.{get_msb64_lem}
use barustenberg.Field.{◌⊗◌, ◌⊖◌}
use barustenberg.Field.Five.{Five, f0, pow, mul, add, f1, f2, f3, f4, five}
use barustenberg.Polynomials.{Polynomial}
use barustenberg.Polynomials.Evaluation.{eval}
use barustenberg.Polynomials.Evaluate.{compute_num_threads, evaluate, evaluate-eval}
use barustenberg.Polynomials.Subgroup.{compute_multiplicative_subgroup}
use barustenberg.Polynomials.Subgroup.Members.{compute_multiplicative_subgroup_lem}
use barustenberg.Polynomials.Lagrange.{EvaluationDomain, compute_lagrange_polynomial_fft}
use barustenberg.Polynomials.Lagrange.Values.{compute_lagrange_polynomial_fft_lem}
use barustenberg.Polynomials.Arithmetic.{IsFilled}

abbrev short : Polynomial Five
short = record { size = 1; coefficients = f2 ∷ [] }

abbrev long : Polynomial Five
long = record { size = 3; coefficients = f1 ∷ f4 ∷ f3 ∷ [] }

short-IsFilled : IsFilled short
short-IsFilled = record { filled = refl }

long-IsFilled : IsFilled long
long-IsFilled = record { filled = refl }

four_threads : compute_num_threads wrapping (some 4) ≡ ok 4
unfolding compute_num_threads
four_threads =
    ap (λ m. m >>= λ k. ok (2 ^ k))
      (get_msb64_lem wrapping 2 4 (omega arith) (omega arith) (omega arith))

evaluate-eval_example :
    evaluate wrapping (some 4) (f1 ∷ f4 ∷ f3 ∷ f2 ∷ f2 ∷ f1 ∷ []) f3 5
    ≡ ok (eval (f1 ∷ f4 ∷ f3 ∷ f2 ∷ f2 ∷ []) f3)
evaluate-eval_example =
    evaluate-eval wrapping (some 4) (f1 ∷ f4 ∷ f3 ∷ f2 ∷ f2 ∷ f1 ∷ []) f3 5 four_threads

order_two : pow f4 2 ≡ f1
unfolding pow mul add
order_two = refl

-- Asked for the subgroup of order 4, it gets the root of order 2, and the values repeat.
compute_multiplicative_subgroup_lem_example :
    (members : List Five) × (compute_multiplicative_subgroup wrapping
        (λ n. if n == 2 then some f4 else none)
        f2
        1
        2
        (f0 ∷ f0 ∷ f0 ∷ f0 ∷ f3 ∷ [])
      ≡ ok (members ++ (f3 ∷ [])))
    × (length members ≡ 4)
    × ((i : ℕ) → i < 4 → get_or members i f0 ≡ pow f2 2 ⊗ pow f4 i)
    × ((i : ℕ) → i + 2 < 4 → get_or members (i + 2) f0 ≡ get_or members i f0)
unfolding five
compute_multiplicative_subgroup_lem_example =
    compute_multiplicative_subgroup_lem wrapping (λ n. if n == 2 then some f4 else none) f2 1 2
      (f0 ∷ f0 ∷ f0 ∷ f0 ∷ f3 ∷ []) f4 (omega arith) refl order_two (omega arith)

-- One point, and the two points 2 and 3 of the larger domain's coset.
abbrev one_point : EvaluationDomain Five
one_point = record {
  num_threads = 1;
  thread_size = 1;
  log2_size = 0;
  root = f1;
  domain_inverse = f1;
  generator = f2;
}

abbrev two_points : EvaluationDomain Five
two_points = record {
  num_threads = 1;
  thread_size = 2;
  log2_size = 1;
  root = f4;
  domain_inverse = f3;
  generator = f2;
}

points_ne_one : (i : ℕ) → i < 2 → f2 ⊗ pow f4 i ≢ f1
unfolding five pow mul add
points_ne_one zero h e = cc e
points_ne_one (suc zero) h e = cc e
points_ne_one (suc (suc i)) h e = absurd (omega arith)

compute_lagrange_polynomial_fft_lem_example :
    (values : List Five) × (compute_lagrange_polynomial_fft wrapping
        (λ n. if n == 1 then some f1 else none)
        one_point
        (record { size = 2; coefficients = f0 ∷ f0 ∷ [] })
        two_points
      ≡ ok (true, record { size = 2; coefficients = values }))
    × (length values ≡ 2)
    × ((i : ℕ)
        → i < 2
        → ((f2 ⊗ pow f4 i) ⊖ f1) ⊗ get_or values i f0
          ≡ ((pow f2 1 ⊗ pow f1 (bit_and i 1)) ⊖ f1) ⊗ f1)
unfolding five
compute_lagrange_polynomial_fft_lem_example =
    compute_lagrange_polynomial_fft_lem wrapping (λ n. if n == 1 then some f1 else none) one_point
      two_points (record { size = 2; coefficients = f0 ∷ f0 ∷ [] }) 1 f1 refl refl (omega arith)
      refl points_ne_one
