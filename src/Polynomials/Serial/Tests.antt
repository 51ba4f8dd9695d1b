-- ===== src/Polynomials/Serial/Tests.antt =====
-- Four coefficients over the integers modulo 5.
use barustenberg.Prelude.{◌≡◌, refl, [], ◌∷◌, ok, panic, arith, for_range, for_step}
use barustenberg.Numeric.{checked, get_msb64, reverse_bits, is_power_of_two}
use barustenberg.Field.Five.{f0, f1, f2, f3, f4, five, pow, mul, add, neg}
use barustenberg.Polynomials.Evaluation.{eval}
use barustenberg.Polynomials.Serial.{copy_polynomial, fft_inner_serial}
use barustenberg.Polynomials.Serial.Copies.{copy_polynomial_lem}
use barustenberg.Polynomials.Serial.Four.{fft_inner_serial_lem}

copy_polynomial_missing : copy_polynomial (f1 ∷ []) (f3 ∷ f3 ∷ []) 2 2 ≡ panic
unfolding copy_polynomial
copy_polynomial_missing = refl

fft_inner_serial_lem_example :
    fft_inner_serial checked ((f1 ∷ f2 ∷ f0 ∷ f4 ∷ []) ∷ []) 4 ((f1 ∷ f2 ∷ []) ∷ [])
    ≡ ok (
        (eval (f1 ∷ f0 ∷ f0 ∷ f4 ∷ []) (pow f2 0)
          ∷ eval (f1 ∷ f0 ∷ f0 ∷ f4 ∷ []) (pow f2 1)
          ∷ eval (f1 ∷ f0 ∷ f0 ∷ f4 ∷ []) (pow f2 2)
          ∷ eval (f1 ∷ f0 ∷ f0 ∷ f4 ∷ []) (pow f2 3)
          ∷ [])
        ∷ [])
unfolding five mul add neg
fft_inner_serial_lem_example = fft_inner_serial_lem checked f2 f1 f2 f0 f4 [] refl

copy_polynomial_lem_example :
    copy_polynomial (f1 ∷ f2 ∷ []) (f3 ∷ f3 ∷ f3 ∷ f3 ∷ []) 2 3 ≡ ok (f1 ∷ f2 ∷ f0 ∷ f3 ∷ [])
unfolding five
copy_polynomial_lem_example =
    copy_polynomial_lem (f1 ∷ f2 ∷ []) (f3 ∷ f3 ∷ f3 ∷ f3 ∷ []) 2 3 (omega arith) (omega arith)
      (omega arith)

fft_inner_serial_single : fft_inner_serial checked ((f1 ∷ []) ∷ (f2 ∷ []) ∷ []) 2 [] ≡ panic
unfolding fft_inner_serial five get_msb64 reverse_bits is_power_of_two for_range for_step
fft_inner_serial_single = refl
