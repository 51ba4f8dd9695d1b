-- ===== src/Polynomials/Fft.antt =====
-- barustenberg/src/polynomials/polynomial_arithmetic.rs: `fft_inner_parallel`. The threads of a round run
-- in order. The field `size` is passed beside the domain.
pub mod Four
pub mod Rounds
mod Tests
use barustenberg.Prelude.{
  ℕ, zero, suc, ◌+◌, ◌-◌, ◌*◌, ◌/◌, ◌%◌, ◌^◌, List, Outcome, ok, index, assign, ◌>>=◌,
  if◌then◌else◌, leb, bit_and, for_range, for_step,
}
use barustenberg.Numeric.{Profile, reverse_bits, get_msb64, pred_usize}
use barustenberg.Field.{Field, ◌⊕◌, ◌⊗◌, ◌⊖◌}
use barustenberg.Polynomials.Lagrange.{EvaluationDomain}

module _ {ℓ} {A : Type ℓ} ⦃f : Field A⦄ where
  -- The body of the first round, with the bit reversal.
  unfoldable pub first_butterfly :
      Profile → (log2_size : ℕ) (coeffs : List A) → ℕ → List A → Outcome (List A)
  first_butterfly p log2_size coeffs i target = do
    swap_index_1 ← reverse_bits p (i % 2 ^ 32) (log2_size % 2 ^ 32)
    swap_index_2 ← reverse_bits p ((i + 1) % 2 ^ 32) (log2_size % 2 ^ 32)
    temp_1 ← index coeffs swap_index_1
    temp_2 ← index coeffs swap_index_2
    target1 ← assign target (i + 1) (temp_1 ⊖ temp_2)
    assign target1 i (temp_1 ⊕ temp_2)

  unfoldable pub first_round :
      Profile → EvaluationDomain A → (coeffs target : List A) → Outcome (List A)
  unfolding first_butterfly
  first_round p d coeffs target =
      for_range d.num_threads 0
        (λ j.
          for_step 2 ((d.thread_size + 1) / 2) (j * d.thread_size)
            (first_butterfly p d.log2_size coeffs))
        target

  -- The exception for a domain of at most two points.
  unfoldable pub copy_back : (coeffs target : List A) → Outcome (List A)
  copy_back coeffs target = do
    t0 ← index target 0
    coeffs1 ← assign coeffs 0 t0
    t1 ← index target 1
    assign coeffs1 1 t1

  -- The body of a later round. `!block_mask` is the complement on 64 bits.
  unfoldable pub butterfly : (m : ℕ) (round_roots : List A) → ℕ → List A → Outcome (List A)
  butterfly m round_roots i target =
      let block_mask = m - 1 in
      let k1 = bit_and i (2 ^ 64 - 1 - block_mask) * 2 in
      let j1 = bit_and i block_mask in
      do
        r ← index round_roots j1
        b ← index target (k1 + j1 + m)
        a ← index target (k1 + j1)
        target1 ← assign target (k1 + j1 + m) (a ⊖ r ⊗ b)
        a' ← index target1 (k1 + j1)
        assign target1 (k1 + j1) (a' ⊕ r ⊗ b)

  -- The round of `m`, for one thread and for all.
  unfoldable pub thread_round :
      Profile
      → EvaluationDomain A
      → (root_table : List (List A)) (m j : ℕ) → List A
      → Outcome (List A)
  unfolding butterfly
  thread_round p d root_table m j target = do
    msb ← get_msb64 p m
    place ← pred_usize p msb
    round_roots ← index root_table place
    for_range (d.thread_size / 2) (j * (d.thread_size / 2)) (butterfly m round_roots) target

  unfoldable pub round :
      Profile
      → EvaluationDomain A
      → (root_table : List (List A)) (m : ℕ) → List A
      → Outcome (List A)
  unfolding thread_round
  round p d root_table m target = for_range d.num_threads 0 (thread_round p d root_table m) target

  -- Returns the coefficients and the target. `m` goes up by two.
  unfoldable pub fft_inner_parallel :
      Profile
      → (size : ℕ) → EvaluationDomain A
      → (coeffs target : List A) (root_table : List (List A)) → Outcome (List A × List A)
  unfolding first_round copy_back round
  fft_inner_parallel p size d coeffs target root_table = do
    target1 ← first_round p d coeffs target
    coeffs' ← if leb size 2 then copy_back coeffs target1 else ok coeffs
    target2 ← for_step 2 ((size - 1) / 2) 2 (round p d root_table) target1
    ok (coeffs', target2)
