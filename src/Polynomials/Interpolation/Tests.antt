-- ===== src/Polynomials/Interpolation/Tests.antt =====
-- The interpolation over the integers modulo 5.
use barustenberg.Prelude.{◌≡◌, List, [], ◌∷◌, ok, panic, inr, arith}
use barustenberg.Field.{◌⊗◌, ◌⊖◌}
use barustenberg.Field.Five.{Five, f0, f1, f2, f3, f4, five}
use barustenberg.Polynomials.Evaluation.{eval}
use barustenberg.Polynomials.Interpolation.{compute_linear_polynomial_product, from_interpolations}
use barustenberg.Polynomials.Interpolation.Product.{compute_linear_polynomial_product_lem}
use barustenberg.Polynomials.Interpolation.Points.{
  from_interpolations-panic, from_interpolations_lem,
}

compute_linear_polynomial_product_lem_example :
    (dest1 : List Five) × (dest2 : List Five) × (compute_linear_polynomial_product
        (f2 ∷ [])
        (f0 ∷ f0 ∷ [])
        1
      ≡ ok dest1)
    × (compute_linear_polynomial_product (f2 ∷ f3 ∷ []) (f0 ∷ f0 ∷ f0 ∷ []) 2 ≡ ok dest2)
    × ((x : Five) → eval dest1 x ≡ x ⊖ f2)
    × ((x : Five) → eval dest2 x ≡ (x ⊖ f2) ⊗ (x ⊖ f3) ⊖ f2 ⊗ f3)
compute_linear_polynomial_product_lem_example = compute_linear_polynomial_product_lem f2 f3 f0 f0 f0

from_interpolations-panic_example :
    from_interpolations (f1 ∷ f2 ∷ f3 ∷ []) (f1 ∷ f1 ∷ f1 ∷ []) ≡ panic
from_interpolations-panic_example =
    from_interpolations-panic (f1 ∷ f2 ∷ f3 ∷ []) (f1 ∷ f1 ∷ f1 ∷ []) (inr (omega arith))

from_interpolations_lem_example :
    (c : Five) × (from_interpolations (f1 ∷ []) (f3 ∷ [])
      ≡ ok (record { size = 1; coefficients = f3 ∷ [] }))
    × (from_interpolations (f0 ∷ []) (f3 ∷ []) ≡ ok (record { size = 1; coefficients = f0 ∷ [] }))
    × (from_interpolations (f1 ∷ f2 ∷ []) (f3 ∷ f4 ∷ [])
        ≡ ok (record { size = 2; coefficients = f0 ∷ c ∷ [] }))
unfolding five
from_interpolations_lem_example =
    from_interpolations_lem f1 f2 f3 f4 (λ e. cc e) (λ e. cc e) (λ e. cc e)
