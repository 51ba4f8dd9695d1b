-- ===== src/Polynomials/Fft/Tests.antt =====
-- Four and eight points over the integers modulo 5.
use barustenberg.Prelude.{◌≡◌, refl, List, [], ◌∷◌, ok, panic, arith, replicate}
use barustenberg.Numeric.{checked}
use barustenberg.Field.Five.{Five, f0, f1, f2, f3, f4, five, pow, mul, add, neg}
use barustenberg.Polynomials.Evaluation.{eval}
use barustenberg.Polynomials.Lagrange.{EvaluationDomain}
use barustenberg.Polynomials.Fft.{fft_inner_parallel}
use barustenberg.Polynomials.Fft.Four.{fft_inner_parallel_lem}
use barustenberg.Polynomials.Fft.Rounds.{fft_inner_parallel-panic}
use barustenberg.Polynomials.Inplace.{fft_inner_parallel_vec_inplace}
use barustenberg.Polynomials.Inplace.Last.{fft_inner_parallel_vec_inplace-panic}

abbrev four_points : EvaluationDomain Five
four_points = record {
  num_threads = 1;
  thread_size = 4;
  log2_size = 2;
  root = f2;
  domain_inverse = f4;
  generator = f3;
}

abbrev eight_points : EvaluationDomain Five
eight_points = record {
  num_threads = 1;
  thread_size = 8;
  log2_size = 3;
  root = f2;
  domain_inverse = f2;
  generator = f3;
}

abbrev some_coefficients : List Five
some_coefficients = f1 ∷ f2 ∷ f0 ∷ f4 ∷ []

fft_inner_parallel_lem_example :
    fft_inner_parallel checked 4 four_points some_coefficients
      (replicate 4 f0)
      ((f1 ∷ f2 ∷ []) ∷ [])
    ≡ ok (
      some_coefficients,
      eval some_coefficients (pow f2 0)
          ∷ eval some_coefficients (pow f2 1)
          ∷ eval some_coefficients (pow f2 2)
          ∷ eval some_coefficients (pow f2 3)
          ∷ [],
    )
unfolding five mul add neg
fft_inner_parallel_lem_example =
    fft_inner_parallel_lem checked four_points f2 f1 f2 f0 f4 f0 f0 f0 f0 [] refl refl refl refl

fft_inner_parallel-panic_example :
    fft_inner_parallel checked 8 eight_points
      (replicate 8 f1)
      (replicate 8 f0)
      ((f1 ∷ f4 ∷ []) ∷ [])
    ≡ panic
fft_inner_parallel-panic_example =
    fft_inner_parallel-panic checked 8 eight_points (replicate 8 f1) (replicate 8 f0)
      ((f1 ∷ f4 ∷ []) ∷ []) refl (omega arith) (omega arith) refl (omega arith) (omega arith)

fft_inner_parallel_vec_inplace-panic_example :
    fft_inner_parallel_vec_inplace checked 4 four_points
      (some_coefficients ∷ [])
      ((f1 ∷ f2 ∷ []) ∷ [])
    ≡ panic
fft_inner_parallel_vec_inplace-panic_example =
    fft_inner_parallel_vec_inplace-panic checked 4 four_points (some_coefficients ∷ [])
      ((f1 ∷ f2 ∷ []) ∷ []) refl (omega arith) (omega arith) (omega arith)
