-- ===== src/Polynomials/Transform/Tests.antt =====
-- Four points over the integers modulo 5, with the root 2 of order four.
use barustenberg.Prelude.{
  ℕ, zero, suc, ◌+◌, ◌-◌, ◌*◌, ◌/◌, ◌^◌, ◌<◌, ◌≤◌, ◌≡◌, refl, List, [], ◌∷◌, ok, index, length,
  take, drop, arith,
}
use barustenberg.Numeric.{checked}
use barustenberg.Field.Five.{Five, f0, f1, f2, f3, f4, five, pow, mul, add, neg}
use barustenberg.Polynomials.Subgroup.Members.{progression}
use barustenberg.Polynomials.Roots.{compute_lookup_table_single}
use barustenberg.Polynomials.Roots.Table.{starts, compute_lookup_table_single_lem}
use barustenberg.Polynomials.Transform.{partial_fft_serial_inner}
use barustenberg.Polynomials.Transform.Partial.{output}
use barustenberg.Polynomials.Transform.Fourier.{partial_fft_serial_inner_lem}

compute_lookup_table_single_lem_example :
    (roots' : List Five) × (compute_lookup_table_single f2 (2 ^ 2) (f0 ∷ f0 ∷ f0 ∷ f0 ∷ []) []
      ≡ ok (roots', starts 1 0))
    × (length roots' ≡ 2 ^ 2)
    × ((k : ℕ)
        → k < 1
        → (index (starts 1 0) k ≡ ok (2 ^ suc k - 2))
          × (take (2 ^ suc k) (drop (2 ^ suc k - 2) roots')
              ≡ progression f1 (pow f2 (2 ^ 2 / (2 * 2 ^ suc k))) (2 ^ suc k)))
unfolding five
compute_lookup_table_single_lem_example =
    compute_lookup_table_single_lem f2 0 (f0 ∷ f0 ∷ f0 ∷ f0 ∷ []) (omega arith) refl

two_powers : (t : ℕ) → t < 2 → index (f1 ∷ f2 ∷ []) t ≡ ok (pow f2 t)
unfolding pow mul add
two_powers zero h = refl
two_powers (suc zero) h = refl
two_powers (suc (suc t)) h = absurd (omega arith)

half_power : pow f2 2 ≡ f4
unfolding pow mul add
half_power = refl

partial_fft_serial_inner_lem_example :
    (target' : List Five) × (partial_fft_serial_inner checked 4
        (f1 ∷ f2 ∷ f3 ∷ f4 ∷ [])
        (f0 ∷ f0 ∷ f0 ∷ f0 ∷ f3 ∷ [])
        ((f1 ∷ f2 ∷ []) ∷ [])
      ≡ ok target')
    × (length target' ≡ 5)
    × ((s i : ℕ)
        → s < 4
        → i < 1
        → index target' ((3 - s) * 1 + i) ≡ ok (output f2 (f1 ∷ f2 ∷ f3 ∷ f4 ∷ []) 1 s i))
    × ((q : ℕ) → 4 ≤ q → index target' q ≡ index (f0 ∷ f0 ∷ f0 ∷ f0 ∷ f3 ∷ []) q)
unfolding five neg
partial_fft_serial_inner_lem_example =
    partial_fft_serial_inner_lem checked f2 0 1 (f1 ∷ f2 ∷ f3 ∷ f4 ∷ [])
      (f0 ∷ f0 ∷ f0 ∷ f0 ∷ f3 ∷ []) ((f1 ∷ f2 ∷ []) ∷ []) (f1 ∷ f2 ∷ []) (omega arith) refl refl
      two_powers half_power (omega arith) (omega arith)
