-- ===== src/Program/Indices.antt =====
-- `From<usize>` for `PolynomialIndex` against the discriminants.
use barustenberg.Prelude.{◌≡◌, ◌≢◌, refl, ok, panic}
use barustenberg.Program.{
  PolynomialIndex, as_usize, from_usize, q1, q2, q3, q4, q5, q_m, q_c, q_arithmetic, q_fixed_base,
  q_range, q_sort, q_logic, table1, table2, table3, table4, table_index, table_type, q_elliptic,
  q_aux, sigma1, sigma2, sigma3, sigma4, id1, id2, id3, id4, w1, w2, w3, w4, s, z, z_lookup,
  lagrange_first, lagrange_last, max_num_polynomials,
}

-- Every index but the last is recovered from its discriminant. That of the last is rejected, and the
-- last is recovered from the next number.
pub from_usize-as_usize :
    ((i : PolynomialIndex) → i ≢ max_num_polynomials → from_usize (as_usize i) ≡ ok i)
    × (from_usize (as_usize max_num_polynomials) ≡ panic)
    × (from_usize 38 ≡ ok max_num_polynomials)
unfolding from_usize as_usize
from_usize-as_usize = (recovered, refl, refl)
  where
    recovered : (i : PolynomialIndex) → i ≢ max_num_polynomials → from_usize (as_usize i) ≡ ok i
    recovered q1 h = refl
    recovered q2 h = refl
    recovered q3 h = refl
    recovered q4 h = refl
    recovered q5 h = refl
    recovered q_m h = refl
    recovered q_c h = refl
    recovered q_arithmetic h = refl
    recovered q_fixed_base h = refl
    recovered q_range h = refl
    recovered q_sort h = refl
    recovered q_logic h = refl
    recovered table1 h = refl
    recovered table2 h = refl
    recovered table3 h = refl
    recovered table4 h = refl
    recovered table_index h = refl
    recovered table_type h = refl
    recovered q_elliptic h = refl
    recovered q_aux h = refl
    recovered sigma1 h = refl
    recovered sigma2 h = refl
    recovered sigma3 h = refl
    recovered sigma4 h = refl
    recovered id1 h = refl
    recovered id2 h = refl
    recovered id3 h = refl
    recovered id4 h = refl
    recovered w1 h = refl
    recovered w2 h = refl
    recovered w3 h = refl
    recovered w4 h = refl
    recovered s h = refl
    recovered z h = refl
    recovered z_lookup h = refl
    recovered lagrange_first h = refl
    recovered lagrange_last h = refl
    recovered max_num_polynomials h = absurd (h refl)
