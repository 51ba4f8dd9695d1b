-- ===== src/Kate.antt =====
-- barustenberg/src/plonk/proof_system/commitment_scheme.rs: `generic_batch_open` and `commit` of the
-- Kate scheme. Its other methods are `todo!()`.
pub mod Opening
pub mod Batch
mod Tests
use barustenberg.Prelude.{
  ℕ, zero, suc, ◌+◌, ◌-◌, ◌*◌, List, [], ◌∷◌, ◌++◌, Outcome, ok, index, assign, ◌>>=◌, for_range,
  replicate, drop, Option,
}
use Prim.Native.String.{String}
use barustenberg.Numeric.{Profile}
use barustenberg.Field.{Field, ◌⊕◌, ◌⊗◌, ◌⊖◌, invert}
use barustenberg.Polynomials.Evaluate.{evaluate}

-- What `commit` puts on the work queue: a multiplication of the scalars in `dest`, which are shared
-- and not copied, with the constant and the tag.
pub record Commitment {ℓ} (A : Type ℓ) : Type ℓ where
  pub tag : String
  pub constant : A

module _ {ℓ} {A : Type ℓ} ⦃f : Field A⦄ where
  -- `vec![0; n]`, filled with the negated points, and each entry inverted and unwrapped.
  pub negated : (left i : ℕ) → List A → List A → Outcome (List A)
  negated zero i z_points ds = ok ds
  negated (suc left) i z_points ds = do
    z ← index z_points i
    ds' ← assign ds i (f.neg z)
    negated left (suc i) z_points ds'

  pub inverted : List A → Outcome (List A)
  inverted [] = ok []
  inverted (x ∷ xs) = do y ← invert x; ys ← inverted xs; ok (y ∷ ys)

  -- The sum over `j` of the challenge's powers times `src[offset + j * n + k]`.
  unfoldable pub coeff_sum :
      (src : List A) (offset n k : ℕ) (challenge : A) (left j : ℕ) → A → A → Outcome A
  coeff_sum src offset n k challenge zero j sum challenge_pow = ok sum
  coeff_sum src offset n k challenge (suc left) j sum challenge_pow = do
    c ← index src (offset + j * n + k)
    coeff_sum src offset n k challenge left (suc j) (sum ⊕ challenge_pow ⊗ c)
        (challenge_pow ⊗ challenge)

  -- The `i`-th linear combination, written into `dest` from `dest_offset` on.
  unfoldable pub combine :
      (src : List A) (src_offset n num_polynomials : ℕ) (challenge : A) (dest_offset left k : ℕ)
      → List A
      → Outcome (List A)
  combine src src_offset n num_polynomials challenge dest_offset zero k dest = ok dest
  combine src src_offset n num_polynomials challenge dest_offset (suc left) k dest = do
    c ← coeff_sum src src_offset n k challenge num_polynomials 0 f.zero f.one
    dest' ← assign dest (dest_offset + k) c
    combine src src_offset n num_polynomials challenge dest_offset left (suc k) dest'

  -- `for k in 1..n`: divide by `X - z` from the lowest coefficient up.
  unfoldable pub divide_rest : (offset : ℕ) (divisor : A) (left k : ℕ) → List A → Outcome (List A)
  divide_rest offset divisor zero k dest = ok dest
  divide_rest offset divisor (suc left) k dest = do
    sub ← index dest (offset + k - 1)
    c ← index dest (offset + k)
    dest' ← assign dest (offset + k) ((c ⊖ sub) ⊗ divisor)
    divide_rest offset divisor left (suc k) dest'

  -- The part after `evaluate`: subtract the value and divide.
  unfoldable pub divide_out : (offset n : ℕ) (value divisor : A) → List A → Outcome (List A)
  unfolding divide_rest
  divide_out offset n value divisor dest = do
    c ← index dest offset
    dest' ← assign dest offset ((c ⊖ value) ⊗ divisor)
    divide_rest offset divisor (n - 1) 1 dest'

  -- One round of the loop over the points, up to `commit`. The slice `dest[dest_offset..]` panics
  -- past the end, where the writes of `combine` would have panicked for every `n` but 0.
  unfoldable pub open_point :
      Profile
      → Option ℕ
      → (src challenges z_points divisors : List A) (n num_polynomials i : ℕ) → List A
      → Outcome (List A)
  open_point p system src challenges z_points divisors n num_polynomials i dest = do
    challenge ← index challenges i
    divisor ← index divisors i
    dest1 ← combine src (i * n * num_polynomials) n num_polynomials challenge (i * n) n 0 dest
    z ← index z_points i
    value ← evaluate p system (drop (i * n) dest1) z n
    divide_out (i * n) n value divisor dest1

  -- The loop over the points. Each round commits to the same shared `dest`.
  pub open_points :
      Profile
      → Option ℕ
      → (src challenges z_points divisors : List A) (n num_polynomials : ℕ)
      → (tags : List String) (item_constants : List A) (left i : ℕ) → List A
      → List (Commitment A)
      → Outcome (List A × List (Commitment A))
  open_points p system src challenges z_points divisors n num_polynomials tags item_constants zero i
        dest queue =
      ok (dest, queue)
  open_points p system src challenges z_points divisors n num_polynomials tags item_constants
        (suc left) i dest queue =
      do
        dest' ← open_point p system src challenges z_points divisors n num_polynomials i dest
        tag ← index tags i
        constant ← index item_constants i
        open_points p system src challenges z_points divisors n num_polynomials tags item_constants
            left (suc i) dest' (queue ++ (record { tag = tag; constant = constant } ∷ []))

  pub generic_batch_open :
      Profile
      → Option ℕ
      → (src dest : List A) (num_polynomials : ℕ) (z_points : List A) (num_z_points : ℕ)
      → (challenges : List A) (n : ℕ) (tags : List String) (item_constants : List A)
        (queue : List (Commitment A))
      → Outcome (List A × List (Commitment A))
  unfolding negated inverted open_points
  generic_batch_open p system src dest num_polynomials z_points num_z_points challenges n tags
        item_constants queue =
      do
        negatives ← negated num_z_points 0 z_points (replicate num_z_points f.zero)
        divisors ← inverted negatives
        open_points p system src challenges z_points divisors n num_polynomials tags item_constants
            num_z_points 0 dest queue
