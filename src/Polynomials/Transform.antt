-- ===== src/Polynomials/Transform.antt =====
-- barustenberg/src/polynomials/polynomial_arithmetic.rs: `partial_fft_serial_inner`, four outputs for
-- each of the first quarter of the points, and the table of roots that it reads.
pub mod Partial
pub mod Loops
pub mod Fourier
mod Tests
use barustenberg.Prelude.{
  ℕ, zero, suc, ◌+◌, ◌-◌, ◌*◌, List, Outcome, ok, index, assign, ◌>>=◌, if◌then◌else◌, ltb, bit_and,
}
use barustenberg.Prelude.Bits.{shr}
use barustenberg.Numeric.{Profile, pred_usize}
use barustenberg.Field.{Field, ◌⊕◌, ◌⊗◌}
use barustenberg.Polynomials.Roots.{log2_floor}

-- The local variables that the loops read.
pub record Fold {ℓ} (A : Type ℓ) : Type ℓ where
  pub n : ℕ
  pub full_mask : ℕ
  pub m : ℕ
  pub half_mask : ℕ
  pub round_roots : List A

module _ {ℓ} {A : Type ℓ} ⦃f : Field A⦄ where
  -- The sign in the second half of the roots.
  abbrev pub root_sign : (root_index m : ℕ) → A
  root_sign root_index m = if ltb root_index m then f.one else f.neg f.one

  -- The loop over `j`, for `left` of its values.
  unfoldable pub add_quarters :
      Fold A → (coeffs : List A) (i s left j : ℕ) → List A → Outcome (List A)
  add_quarters e coeffs i s zero j target = ok target
  add_quarters e coeffs i s (suc left) j target =
      let idx = i + j * e.n in
      let root_index = bit_and (idx * (s + 1)) e.full_mask in
      do
        before ← index target ((3 - s) * e.n + i)
        c ← index coeffs idx
        r ← index e.round_roots (bit_and root_index e.half_mask)
        target' ← assign target ((3 - s) * e.n + i) (before ⊕ (root_sign root_index e.m ⊗ c) ⊗ r)
        add_quarters e coeffs i s left (suc j) target'

  -- The loop over `s`.
  unfoldable pub fill_outputs :
      Fold A → (coeffs : List A) (i left s : ℕ) → List A → Outcome (List A)
  unfolding add_quarters
  fill_outputs e coeffs i zero s target = ok target
  fill_outputs e coeffs i (suc left) s target = do
    target1 ← assign target ((3 - s) * e.n + i) f.zero
    target2 ← add_quarters e coeffs i s 4 0 target1
    fill_outputs e coeffs i left (suc s) target2

  -- The loop over `i`.
  unfoldable pub fill_points : Fold A → (coeffs : List A) (left i : ℕ) → List A → Outcome (List A)
  unfolding fill_outputs
  fill_points e coeffs zero i target = ok target
  fill_points e coeffs (suc left) i target = do
    target' ← fill_outputs e coeffs i 4 0 target
    fill_points e coeffs left (suc i) target'

  -- It leaves the coefficients alone.
  unfoldable pub partial_fft_serial_inner :
      Profile → (size : ℕ) (coeffs target : List A) (root_table : List (List A)) → Outcome (List A)
  unfolding fill_points
  partial_fft_serial_inner p size coeffs target root_table =
      let n = shr size 2 in
      let m = shr size 1 in
      do
        full_mask ← pred_usize p size
        half_mask ← pred_usize p m
        round ← pred_usize p (log2_floor m)
        round_roots ← index root_table round
        fill_points
            (record {
              n = n;
              full_mask = full_mask;
              m = m;
              half_mask = half_mask;
              round_roots = round_roots;
            })
            coeffs n 0 target
