-- ===== src/Sigma.antt =====
-- barustenberg/src/plonk/proof_system/utils/permutation.rs: the polynomial of a wire permutation. The
-- conditional subtraction and the generators are `todo!()` in the source, and parameters here.
pub mod Base
mod Tests
use barustenberg.Prelude.{
  ℕ, zero, suc, ◌-◌, ◌*◌, ◌^◌, List, map, Outcome, ok, panic, index, assign, ◌>>=◌, if◌then◌else◌,
  ltb, leb, length, bit_and, Bool, true, false,
}
use barustenberg.Prelude.Bits.{shr}
use barustenberg.Numeric.{Profile, get_msb64}
use barustenberg.Field.{Field, ◌⊗◌}
use barustenberg.Polynomials.{Polynomial}

pub record PermutationSubgroupElement : Type 0 where
  pub subgroup_index : ℕ
  pub column_index : ℕ
  pub is_public_input : Bool
  pub is_tag : Bool

-- The low 24 bits are the index, the two highest of the 32 the column.
abbrev pub read_element : ℕ → PermutationSubgroupElement
read_element permutation_element = record {
  subgroup_index = bit_and permutation_element (2 ^ 24 - 1);
  column_index = shr permutation_element 30;
  is_public_input = false;
  is_tag = false;
}

-- `xs[i] *= v`
abbrev pub scale_at {ℓ} : {A : Type ℓ} ⦃f : Field A⦄ → List A → ℕ → A → Outcome (List A)
scale_at xs i v = index xs i >>= λ x. assign xs i (x ⊗ v)

-- What the element's kind multiplies the coefficient by.
module _ {ℓ} {A : Type ℓ} ⦃f : Field A⦄ (conditionally_subtract : A → ℕ → A)
    (external_coset_generator tag_coset_generator : A) (coset_generator : ℕ → A) where
  unfoldable pub scale_column : List A → ℕ → (column_index : ℕ) → Outcome (List A)
  scale_column coefficients i zero = ok coefficients
  scale_column coefficients i (suc column) = scale_at coefficients i (coset_generator column)

  -- The loop over `i`, for `left` of its values.
  unfoldable pub fill_permutation :
      (permutation : List PermutationSubgroupElement) (roots : List A)
      (root_size log2_root_size left i : ℕ)
      → List A
      → Outcome (List A)
  unfolding scale_column
  fill_permutation permutation roots root_size log2_root_size zero i coefficients = ok coefficients
  fill_permutation permutation roots root_size log2_root_size (suc left) i coefficients = do
    e ← index permutation i
    let negative_idx = (if leb root_size e.subgroup_index then 1 else 0)
    r ← index roots (e.subgroup_index - negative_idx * 2 ^ log2_root_size)
    coefficients1 ← assign coefficients i (conditionally_subtract r negative_idx)
    coefficients2 ←
        (if e.is_public_input
          then scale_at coefficients1 i external_coset_generator
          else (if e.is_tag
              then scale_at coefficients1 i tag_coset_generator
              else scale_column coefficients1 i e.column_index))
    fill_permutation permutation roots root_size log2_root_size left (suc i) coefficients2

  -- Of the domain it reads the size, its logarithm and the table of roots. A logarithm below two is
  -- out of the range of the table.
  unfoldable pub compute_permutation_lagrange_base_single_helper :
      Profile
      → Polynomial A
      → List PermutationSubgroupElement
      → (size log2_size : ℕ) (round_roots : List (List A)) → Outcome (Polynomial A)
  unfolding fill_permutation
  compute_permutation_lagrange_base_single_helper p output permutation size log2_size round_roots =
      if ltb output.size (length permutation) then panic else (do
        roots ← if ltb log2_size 2 then panic else index round_roots (log2_size - 2)
        log2_root_size ← get_msb64 p (shr size 1)
        coefficients ←
            fill_permutation permutation roots (shr size 1) log2_root_size size 0
              output.coefficients
        ok (record output { coefficients = coefficients }))

  unfoldable pub compute_permutation_lagrange_base_single :
      Profile
      → Polynomial A
      → List ℕ
      → (size log2_size : ℕ) (round_roots : List (List A)) → Outcome (Polynomial A)
  unfolding compute_permutation_lagrange_base_single_helper
  compute_permutation_lagrange_base_single p output permutation size log2_size round_roots =
      compute_permutation_lagrange_base_single_helper p output (map read_element permutation) size
        log2_size round_roots
