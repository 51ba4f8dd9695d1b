-- ===== src/Program.antt =====
-- barustenberg/src/plonk/proof_system/types: the settings of the five provers (prover_settings.rs)
-- and the index of a polynomial in the manifest (polynomial_manifest.rs).
pub mod Wires
pub mod Indices
use Prim.Native.String.{String}
use barustenberg.Prelude.{
  ℕ, zero, suc, ◌+◌, ◌==◌, List, [], ◌∷◌, Bool, true, false, Outcome, ok, index, if◌then◌else◌,
  bit_and,
}
use barustenberg.Prelude.Bits.{shr}

-- The constants of an implementation of `Settings`. Its hasher is left out.
pub record Settings : Type 0 where
  pub num_challenge_bytes : ℕ
  pub program_width : ℕ
  pub num_shifted_wire_evaluations : ℕ
  pub wire_shift_settings : ℕ
  pub permutation_shift : ℕ
  pub permutation_mask : ℕ
  pub num_roots_cut_out_of_vanishing_polynomial : ℕ
  pub is_plookup : Bool

abbrev pub standard_settings : Settings
standard_settings = record {
  num_challenge_bytes = 16;
  program_width = 3;
  num_shifted_wire_evaluations = 1;
  wire_shift_settings = 4;
  permutation_shift = 30;
  permutation_mask = 0xC0000000;
  num_roots_cut_out_of_vanishing_polynomial = 4;
  is_plookup = false;
}

abbrev pub turbo_settings : Settings
turbo_settings = record {
  num_challenge_bytes = 16;
  program_width = 4;
  num_shifted_wire_evaluations = 4;
  wire_shift_settings = 15;
  permutation_shift = 30;
  permutation_mask = 0xC0000000;
  num_roots_cut_out_of_vanishing_polynomial = 4;
  is_plookup = false;
}

abbrev pub ultra_settings : Settings
ultra_settings = record {
  num_challenge_bytes = 16;
  program_width = 4;
  num_shifted_wire_evaluations = 4;
  wire_shift_settings = 15;
  permutation_shift = 30;
  permutation_mask = 0xC0000000;
  num_roots_cut_out_of_vanishing_polynomial = 4;
  is_plookup = false;
}

abbrev pub ultra_to_standard_settings : Settings
ultra_to_standard_settings = record {
  num_challenge_bytes = 16;
  program_width = 4;
  num_shifted_wire_evaluations = 4;
  wire_shift_settings = 15;
  permutation_shift = 30;
  permutation_mask = 0xC0000000;
  num_roots_cut_out_of_vanishing_polynomial = 4;
  is_plookup = false;
}

abbrev pub ultra_with_keccak_settings : Settings
ultra_with_keccak_settings = record {
  num_challenge_bytes = 32;
  program_width = 4;
  num_shifted_wire_evaluations = 4;
  wire_shift_settings = 15;
  permutation_shift = 30;
  permutation_mask = 0xC0000000;
  num_roots_cut_out_of_vanishing_polynomial = 4;
  is_plookup = false;
}

pub requires_shifted_wire : (wire_shift_settings wire_index : ℕ) → Bool
requires_shifted_wire wire_shift_settings wire_index =
    bit_and (shr wire_shift_settings wire_index) 1 == 1

pub data PolynomialSource : Type 0 where
  witness selector permutation other : PolynomialSource

pub data EvaluationType : Type 0 where
  non_shifted shifted : EvaluationType

pub data PolynomialIndex : Type 0 where
  q1 q2 q3 q4 q5 q_m q_c q_arithmetic q_fixed_base q_range q_sort q_logic : PolynomialIndex
  table1 table2 table3 table4 table_index table_type q_elliptic q_aux : PolynomialIndex
  sigma1 sigma2 sigma3 sigma4 id1 id2 id3 id4 w1 w2 w3 w4 s z z_lookup : PolynomialIndex
  lagrange_first lagrange_last max_num_polynomials : PolynomialIndex

pub record PolynomialDescriptor : Type 0 where
  pub commitment_label : String
  pub polynomial_label : String
  pub requires_shifted_evaluation : Bool
  pub source : PolynomialSource
  pub polynomial_index : PolynomialIndex

-- `index as usize`: the place in the declaration.
unfoldable pub as_usize : PolynomialIndex → ℕ
as_usize q1 = 0
as_usize q2 = 1
as_usize q3 = 2
as_usize q4 = 3
as_usize q5 = 4
as_usize q_m = 5
as_usize q_c = 6
as_usize q_arithmetic = 7
as_usize q_fixed_base = 8
as_usize q_range = 9
as_usize q_sort = 10
as_usize q_logic = 11
as_usize table1 = 12
as_usize table2 = 13
as_usize table3 = 14
as_usize table4 = 15
as_usize table_index = 16
as_usize table_type = 17
as_usize q_elliptic = 18
as_usize q_aux = 19
as_usize sigma1 = 20
as_usize sigma2 = 21
as_usize sigma3 = 22
as_usize sigma4 = 23
as_usize id1 = 24
as_usize id2 = 25
as_usize id3 = 26
as_usize id4 = 27
as_usize w1 = 28
as_usize w2 = 29
as_usize w3 = 30
as_usize w4 = 31
as_usize s = 32
as_usize z = 33
as_usize z_lookup = 34
as_usize lagrange_first = 35
as_usize lagrange_last = 36
as_usize max_num_polynomials = 37

-- The results of the arms 0 to 36 of `From<usize>`.
unfoldable pub by_number : List PolynomialIndex
by_number =
    q1 ∷ q2 ∷ q3 ∷ q4 ∷ q5 ∷ q_m ∷ q_c ∷ q_arithmetic ∷ q_fixed_base ∷ q_range ∷ q_sort ∷ q_logic
    ∷ table1 ∷ table2 ∷ table3 ∷ table4 ∷ table_index ∷ table_type ∷ q_elliptic ∷ q_aux ∷ sigma1
    ∷ sigma2 ∷ sigma3 ∷ sigma4 ∷ id1 ∷ id2 ∷ id3 ∷ id4 ∷ w1 ∷ w2 ∷ w3 ∷ w4 ∷ s ∷ z ∷ z_lookup
    ∷ lagrange_first ∷ lagrange_last ∷ []

-- The arm for 37 is commented out.
unfoldable pub from_usize : ℕ → Outcome PolynomialIndex
unfolding by_number
from_usize n = if n == 38 then ok max_num_polynomials else index by_number n

-- `get` and the `Index` of a manifest.
pub get_descriptor : List PolynomialDescriptor → PolynomialIndex → Outcome PolynomialDescriptor
unfolding as_usize
get_descriptor manifest i = index manifest (as_usize i)
