-- ===== src/Polynomials/Serial.antt =====
-- barustenberg/src/polynomials/polynomial_arithmetic.rs: `copy_polynomial` and `fft_inner_serial`, which
-- works in place on coefficients that several vectors hold.
pub mod Copies
pub mod Four
mod Tests
use barustenberg.Prelude.{
  ℕ, suc, ◌+◌, ◌-◌, ◌*◌, ◌/◌, ◌%◌, ◌^◌, List, [], ◌∷◌, ◌++◌, Outcome, ok, panic, index, assign,
  assert, ◌>>=◌, if◌then◌else◌, ltb, leb, ◌&&◌, bit_and, length, replicate, take, drop, for_range,
  for_step,
}
use barustenberg.Prelude.Bits.{shr}
use barustenberg.Numeric.{Profile, reverse_bits, get_msb64, pred_usize, is_power_of_two}
use barustenberg.Field.{Field, ◌⊕◌, ◌⊗◌, ◌⊖◌}
use barustenberg.Polynomials.Inplace.{read_at, write_at}

module _ {ℓ} {A : Type ℓ} ⦃f : Field A⦄ where
  -- The values of `dest` from `from` on and before `to` become zero.
  unfoldable pub clear_between : (from to : ℕ) → List A → List A
  clear_between from to dest =
      take from dest ++ (replicate (length (take to dest) - from) f.zero ++ drop to dest)

  -- Returns the destination.
  unfoldable pub copy_polynomial :
      (src dest : List A) (num_src_coefficients num_target_coefficients : ℕ) → Outcome (List A)
  unfolding clear_between
  copy_polynomial src dest n m = do
    _ ← assert (leb n (length dest))
    _ ← assert (leb n (length src))
    let copied = take n src ++ drop n dest
    ok (if ltb n m then clear_between n m copied else copied)

  -- The body of the loop that is to reverse the bits.
  unfoldable pub serial_swap :
      Profile
      → (log2_size log2_poly_size poly_domain_size i : ℕ) → List (List A)
      → Outcome (List (List A))
  unfolding read_at write_at
  serial_swap p log2_size log2_poly_size poly_domain_size i coeffs = do
    swap_index ← reverse_bits p (i % 2 ^ 32) (log2_size % 2 ^ 32)
    if ltb i swap_index
        then (do
          v ← read_at coeffs (shr swap_index log2_poly_size) (swap_index % poly_domain_size)
          write_at coeffs (shr i log2_poly_size) (i % poly_domain_size) v)
        else ok coeffs

  -- The body of the first round, on one vector.
  unfoldable pub serial_pair : ℕ → List A → Outcome (List A)
  serial_pair k coeffs_l = do
    temp ← index coeffs_l (k + 1)
    a ← index coeffs_l k
    coeffs1 ← assign coeffs_l (k + 1) (a ⊖ temp)
    assign coeffs1 k (a ⊕ temp)

  unfoldable pub serial_first : (poly_domain_size : ℕ) → List (List A) → Outcome (List (List A))
  unfolding serial_pair
  serial_first poly_domain_size [] = ok []
  serial_first poly_domain_size (c ∷ cs) = do
    c' ← for_step 2 ((poly_domain_size + 1) / 2) 0 serial_pair c
    cs' ← serial_first poly_domain_size cs
    ok (c' ∷ cs')

  -- The body of a later round.
  unfoldable pub serial_butterfly :
      Profile
      → (log2_poly_size poly_domain_size : ℕ) (root_table : List (List A)) (m i k j : ℕ)
      → List (List A)
      → Outcome (List (List A))
  unfolding read_at write_at
  serial_butterfly p log2_poly_size poly_domain_size root_table m i k j coeffs =
      let even_poly_idx = shr (k + j) log2_poly_size in
      let even_elem_idx = bit_and (k + j) (poly_domain_size - 1) in
      let odd_poly_idx = shr (k + j + m) log2_poly_size in
      let odd_elem_idx = bit_and (k + j + m) (poly_domain_size - 1) in
      do
        place ← pred_usize p i
        r ← read_at root_table place j
        b ← read_at coeffs odd_poly_idx odd_elem_idx
        a ← read_at coeffs even_poly_idx even_elem_idx
        coeffs1 ← write_at coeffs odd_poly_idx odd_elem_idx (a ⊖ r ⊗ b)
        a' ← read_at coeffs1 even_poly_idx even_elem_idx
        write_at coeffs1 even_poly_idx even_elem_idx (a' ⊕ r ⊗ b)

  -- `m` is not zero.
  unfoldable pub serial_round :
      Profile
      → (domain_size log2_poly_size poly_domain_size : ℕ) (root_table : List (List A)) (m : ℕ)
      → List (List A)
      → Outcome (List (List A))
  unfolding serial_butterfly
  serial_round p domain_size log2_poly_size poly_domain_size root_table m coeffs = do
    i ← get_msb64 p m
    for_step (2 * m) ((domain_size + 2 * m - 1) / (2 * m)) 0
        (λ k. for_range m 0 (serial_butterfly p log2_poly_size poly_domain_size root_table m i k))
        coeffs

  -- `m` goes up by two.
  unfoldable pub fft_inner_serial :
      Profile
      → (coeffs : List (List A)) (domain_size : ℕ) (root_table : List (List A))
      → Outcome (List (List A))
  unfolding serial_swap serial_first serial_round
  fft_inner_serial p coeffs domain_size root_table = do
    _ ← assert (is_power_of_two (length coeffs))
    let poly_domain_size = domain_size / length coeffs
    _ ← assert (is_power_of_two poly_domain_size)
    log2_size ← get_msb64 p domain_size
    log2_poly_size ← get_msb64 p poly_domain_size
    coeffs1 ←
        for_range (suc domain_size) 0 (serial_swap p log2_size log2_poly_size poly_domain_size)
          coeffs
    coeffs2 ← serial_first poly_domain_size coeffs1
    for_step 2 ((domain_size - 1) / 2) 2
        (serial_round p domain_size log2_poly_size poly_domain_size root_table) coeffs2
