-- ===== src/Polynomials/Inplace.antt =====
-- barustenberg/src/polynomials/polynomial_arithmetic.rs: `fft_inner_parallel_vec_inplace`, which works in a
-- scratch space on coefficients that several slices hold.
pub mod Last
use barustenberg.Prelude.{
  ℕ, zero, suc, ◌+◌, ◌-◌, ◌*◌, ◌/◌, ◌%◌, ◌^◌, List, [], ◌∷◌, Outcome, ok, index, assign, assert,
  ◌>>=◌, if◌then◌else◌, leb, ◌==◌, bit_and, length, replicate, for_range, for_step,
}
use barustenberg.Prelude.Bits.{shr}
use barustenberg.Numeric.{Profile, reverse_bits, pred_usize, is_power_of_two}
use barustenberg.Field.{Field, ◌⊕◌, ◌⊗◌, ◌⊖◌}
use barustenberg.Composer.{trailing_zeros}
use barustenberg.Polynomials.Lagrange.{EvaluationDomain}
use barustenberg.Polynomials.Fft.{butterfly}

-- `coeffs[poly][elem]`, read and written.
unfoldable pub read_at {ℓ} : {A : Type ℓ} → List (List A) → (poly elem : ℕ) → Outcome A
read_at coeffs poly elem = index coeffs poly >>= λ c. index c elem

unfoldable pub write_at {ℓ} :
    {A : Type ℓ} → List (List A) → (poly elem : ℕ) → A → Outcome (List (List A))
write_at coeffs poly elem v =
    index coeffs poly >>= λ c. assign c elem v >>= λ c'. assign coeffs poly c'

module _ {ℓ} {A : Type ℓ} ⦃f : Field A⦄ where
  -- The body of the first round.
  unfoldable pub gather :
      Profile
      → (log2_size log2_poly_size poly_mask : ℕ) (coeffs : List (List A)) → ℕ
      → List A
      → Outcome (List A)
  unfolding read_at
  gather p log2_size log2_poly_size poly_mask coeffs i scratch = do
    swap_index_1 ← reverse_bits p (i % 2 ^ 32) (log2_size % 2 ^ 32)
    swap_index_2 ← reverse_bits p ((i + 1) % 2 ^ 32) (log2_size % 2 ^ 32)
    temp_1 ← read_at coeffs (shr swap_index_1 log2_poly_size) (bit_and swap_index_1 poly_mask)
    temp_2 ← read_at coeffs (shr swap_index_2 log2_poly_size) (bit_and swap_index_2 poly_mask)
    scratch1 ← assign scratch (i + 1) (temp_1 ⊖ temp_2)
    assign scratch1 i (temp_1 ⊕ temp_2)

  unfoldable pub gather_all :
      Profile
      → EvaluationDomain A
      → (log2_poly_size poly_mask : ℕ) (coeffs : List (List A)) → List A
      → Outcome (List A)
  unfolding gather
  gather_all p d log2_poly_size poly_mask coeffs scratch =
      for_range d.num_threads 0
        (λ j.
          for_step 2 ((d.thread_size + 1) / 2) (j * d.thread_size)
            (gather p d.log2_size log2_poly_size poly_mask coeffs))
        scratch

  unfoldable pub copy_tiny : (coeffs : List (List A)) (scratch : List A) → Outcome (List (List A))
  unfolding write_at
  copy_tiny coeffs scratch = do
    t0 ← index scratch 0
    coeffs1 ← write_at coeffs 0 0 t0
    t1 ← index scratch 1
    write_at coeffs1 0 1 t1

  -- The body of the round that writes to the coefficients.
  unfoldable pub scatter :
      (log2_poly_size poly_mask m : ℕ) (round_roots : List A)
      → ℕ
      → List A × List (List A)
      → Outcome (List A × List (List A))
  unfolding write_at
  scatter log2_poly_size poly_mask m round_roots i (scratch, coeffs) =
      let block_mask = m - 1 in
      let low = bit_and i (2 ^ 64 - 1 - block_mask) * 2 + bit_and i block_mask in
      do
        r ← index round_roots (bit_and i block_mask)
        b ← index scratch (low + m)
        a ← index scratch low
        coeffs1 ←
            write_at coeffs (shr (low + m) log2_poly_size) (bit_and (low + m) poly_mask) (a ⊖ r ⊗ b)
        coeffs2 ← write_at coeffs1 (shr low log2_poly_size) (bit_and low poly_mask) (a ⊕ r ⊗ b)
        ok (scratch, coeffs2)

  unfoldable pub inplace_butterfly :
      (size log2_poly_size poly_mask m : ℕ) (round_roots : List A)
      → ℕ
      → List A × List (List A)
      → Outcome (List A × List (List A))
  unfolding scatter
  inplace_butterfly size log2_poly_size poly_mask m round_roots i (scratch, coeffs) =
      if m == shr size 1
      then scatter log2_poly_size poly_mask m round_roots i (scratch, coeffs)
      else (butterfly m round_roots i scratch >>= λ scratch'. ok (scratch', coeffs))

  unfoldable pub inplace_thread :
      Profile
      → (size : ℕ) → EvaluationDomain A
      → (log2_poly_size poly_mask : ℕ) (root_table : List (List A)) (m j : ℕ)
      → List A × List (List A)
      → Outcome (List A × List (List A))
  unfolding inplace_butterfly
  inplace_thread p size d log2_poly_size poly_mask root_table m j s = do
    place ← pred_usize p (trailing_zeros 64 m)
    round_roots ← index root_table place
    for_range (d.thread_size / 2) (j * (d.thread_size / 2))
        (inplace_butterfly size log2_poly_size poly_mask m round_roots) s

  -- `m` goes through the even numbers from 2 to the size.
  unfoldable pub fft_inner_parallel_vec_inplace :
      Profile
      → (size : ℕ) → EvaluationDomain A
      → (coeffs : List (List A)) (root_table : List (List A)) → Outcome (List (List A))
  unfolding gather_all copy_tiny inplace_thread
  fft_inner_parallel_vec_inplace p size d coeffs root_table = do
    _ ← assert (is_power_of_two (length coeffs))
    let poly_size = size / length coeffs
    _ ← assert (is_power_of_two poly_size)
    let log2_poly_size = trailing_zeros 64 poly_size
    scratch ← gather_all p d log2_poly_size (poly_size - 1) coeffs (replicate size f.zero)
    coeffs1 ← if leb size 2 then copy_tiny coeffs scratch else ok coeffs
    s ←
        for_step 2 (size / 2) 2
          (λ m.
            for_range d.num_threads 0
              (inplace_thread p size d log2_poly_size (poly_size - 1) root_table m))
          (scratch, coeffs1)
    ok s.1

  -- On one slice, with the round roots of the domain.
  unfoldable pub fft_inplace :
      Profile
      → (size : ℕ) → EvaluationDomain A
      → (coeffs : List A) (round_roots : List (List A)) → Outcome (List (List A))
  unfolding fft_inner_parallel_vec_inplace
  fft_inplace p size d coeffs round_roots =
      fft_inner_parallel_vec_inplace p size d (coeffs ∷ []) round_roots
