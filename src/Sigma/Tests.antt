-- ===== src/Sigma/Tests.antt =====
-- Four points over the integers modulo 5, one generator for all columns.
use barustenberg.Prelude.{
  ℕ, zero, suc, ◌+◌, ◌-◌, ◌^◌, ◌<◌, ◌≤◌, ◌≡◌, refl, List, [], ◌∷◌, ok, index, length, get_or,
  bit_and, arith,
}
use barustenberg.Numeric.{checked}
use barustenberg.Numeric.Msb.{get_msb64_lem}
use barustenberg.Field.Five.{Five, f0, f1, f2, f3, f4, five, pow, mul, add, neg}
use barustenberg.Polynomials.{Polynomial}
use barustenberg.Sigma.{compute_permutation_lagrange_base_single}
use barustenberg.Sigma.Base.{image, compute_permutation_lagrange_base_single_lem}

-- The subtraction as negation.
abbrev subtract_five : Five → ℕ → Five
unfolding neg
subtract_five x zero = x
subtract_five x (suc n) = neg x

abbrev generator_five : ℕ → Five
generator_five column = f3

-- The first two points change places, the last two are in the second and the third column.
abbrev four_elements : List ℕ
four_elements = 1 ∷ 0 ∷ (2 ^ 30 + 2) ∷ (2 ^ 31 + 3) ∷ []

abbrev four_places : Polynomial Five
four_places = record { size = 4; coefficients = f0 ∷ f0 ∷ f0 ∷ f0 ∷ [] }

two_powers : (t : ℕ) → t < 2 → index (f1 ∷ f2 ∷ []) t ≡ ok (pow f2 t)
unfolding pow mul add
two_powers zero h = refl
two_powers (suc zero) h = refl
two_powers (suc (suc t)) h = absurd (omega arith)

half_power : pow f2 2 ≡ f4
unfolding pow mul add
half_power = refl

in_domain : (j : ℕ) → j < 4 → bit_and (get_or four_elements j 0) (2 ^ 24 - 1) < 4
in_domain zero h = omega arith
in_domain (suc zero) h = omega arith
in_domain (suc (suc zero)) h = omega arith
in_domain (suc (suc (suc zero))) h = omega arith
in_domain (suc (suc (suc (suc j)))) h = absurd (omega arith)

compute_permutation_lagrange_base_single_lem_example :
    (out : List Five) × (compute_permutation_lagrange_base_single subtract_five f1 f1 generator_five
        checked four_places four_elements 4 2
        ((f1 ∷ f2 ∷ []) ∷ [])
      ≡ ok (record { size = 4; coefficients = out }))
    × (length out ≡ 4)
    × ((j : ℕ)
        → j < 4
        → index out j ≡ ok (image subtract_five f1 f1 generator_five f2 (get_or four_elements j 0)))
    × ((j : ℕ) → 4 ≤ j → index out j ≡ index (f0 ∷ f0 ∷ f0 ∷ f0 ∷ []) j)
unfolding five neg
compute_permutation_lagrange_base_single_lem_example =
    compute_permutation_lagrange_base_single_lem subtract_five f1 f1 generator_five f2 1
      (f1 ∷ f2 ∷ []) four_elements two_powers half_power (λ x. refl) (λ x. refl) checked four_places
      ((f1 ∷ f2 ∷ []) ∷ []) (omega arith)
      (get_msb64_lem checked 1 2 (omega arith) (omega arith) (omega arith)) refl refl (omega arith)
      (omega arith) in_domain
