-- ===== src/Polynomials/Subgroup.antt =====
-- `compute_multiplicative_subgroup` of barustenberg/src/polynomials/polynomial_arithmetic.rs.
pub mod Members
use barustenberg.Prelude.{
  ℕ, zero, suc, ◌-◌, ◌%◌, ◌^◌, List, [], ◌∷◌, Outcome, ok, err, panic, index, assign, ◌>>=◌, Option,
  none, some, leb, if◌then◌else◌,
}
use barustenberg.Numeric.{Profile, checked, wrapping}
use barustenberg.Field.{Field, ◌⊗◌}

-- `1 << s` on a 64-bit usize: past the width it panics in a build that checks, and otherwise the
-- amount is taken modulo 64.
unfoldable pub one_shl64 : Profile → ℕ → Outcome ℕ
one_shl64 checked s = if leb 64 s then panic else ok (2 ^ s)
one_shl64 wrapping s = ok (2 ^ (s % 64))

module _ {ℓ} {A : Type ℓ} ⦃f : Field A⦄ where
  -- `square_in_place`, `n` times.
  unfoldable pub square_times : ℕ → A → A
  square_times zero accumulator = accumulator
  square_times (suc n) accumulator = square_times n (accumulator ⊗ accumulator)

  -- `for i in 1..subgroup_size`
  unfoldable pub fill_subgroup : (subgroup_root : A) (left i : ℕ) → List A → Outcome (List A)
  fill_subgroup subgroup_root zero i subgroup_roots = ok subgroup_roots
  fill_subgroup subgroup_root (suc left) i subgroup_roots = do
    before ← index subgroup_roots (i - 1)
    subgroup_roots' ← assign subgroup_roots i (before ⊗ subgroup_root)
    fill_subgroup subgroup_root left (suc i) subgroup_roots'

  -- Of the domain it reads the generator and `log2_size`; `get_root_of_unity` is the field's, which
  -- takes an order. On an
  -- error nothing has been written yet.
  unfoldable pub compute_multiplicative_subgroup :
      Profile
      → (get_root_of_unity : ℕ → Option A) (generator : A) (log2_size log2_subgroup_size : ℕ)
        (subgroup_roots : List A)
      → Outcome (List A)
  unfolding one_shl64 square_times fill_subgroup
  compute_multiplicative_subgroup p get_root_of_unity generator log2_size log2_subgroup_size
        subgroup_roots =
      do
        subgroup_size ← one_shl64 p log2_subgroup_size
        subgroup_root ← elim (get_root_of_unity log2_subgroup_size) [
          | none ↦ err
          | some root ↦ ok root
        ]
        subgroup_roots' ← assign subgroup_roots 0 (square_times log2_size generator)
        fill_subgroup subgroup_root (subgroup_size - 1) 1 subgroup_roots'
