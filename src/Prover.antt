-- ===== src/Prover.antt =====
-- barustenberg/src/plonk/proof_system/prover.rs: what the prover does with the quotient's parts and
-- with the wires. The rounds call `apply_fiat_shamir`, a `todo!()`, and are left out; the random
-- elements they draw are a function of the round.
pub mod Blinding
pub mod Memory
pub mod Quotient
pub mod Lagrange
mod Tests
use Prim.Native.String
use Prim.Native.String.{String}
use barustenberg.Prelude.{
  ℕ, zero, suc, ◌+◌, ◌-◌, ◌*◌, List, [], ◌∷◌, ◌++◌, Outcome, ok, err, panic, index, assign, ◌>>=◌,
  if◌then◌else◌, ◌==◌, ltb, Option, Bool,
}
use barustenberg.Numeric.{Profile}
use barustenberg.Field.{Field, ◌⊕◌, ◌⊗◌, ◌⊖◌}
use barustenberg.Polynomials.Evaluate.{evaluate}
use barustenberg.Storage.{PolynomialStore, get, deref}
use barustenberg.Queue.{Work, scalar_multiplication, WorkItem}
use barustenberg.Transcript.{Transcript, Codec, put_field_element_vector}

module _ {ℓ} {A : Type ℓ} ⦃f : Field A⦄ where
  -- `set_coefficient(circuit_size - num_roots + k, random)` for `k` below `w_randomness`, which is 3.
  pub blind_wire :
      (circuit_size num_roots : ℕ) (random : ℕ → A) (count k : ℕ) → List A → Outcome (List A)
  blind_wire circuit_size num_roots random zero k wire = ok wire
  blind_wire circuit_size num_roots random (suc count) k wire = do
    wire' ←
        if ltb circuit_size num_roots
        then panic
        else assign wire (circuit_size - num_roots + k) (random k)
    blind_wire circuit_size num_roots random count (suc k) wire'

  pub randomize_wire : (circuit_size num_roots : ℕ) (random : ℕ → A) → List A → Outcome (List A)
  unfolding blind_wire
  randomize_wire circuit_size num_roots random wire =
      if ltb 3 num_roots then blind_wire circuit_size num_roots random 3 0 wire else err

  -- For three wires the `n`-th coefficient of the third part is taken from the fourth part.
  pub move_last_coefficient :
      (program_width circuit_size : ℕ) → List (List A) → Outcome (List (List A))
  move_last_coefficient program_width circuit_size parts =
      if program_width == 3
      then (index parts 3 >>= λ t4. index t4 0 >>= λ c. index parts 2 >>= λ t3.
          assign t3 circuit_size c >>= λ t3'.
          assign parts 2 t3' >>= λ parts'. assign t4 0 f.zero >>= λ t4'. assign parts' 3 t4')
      else ok parts

  -- One round for each of `count` random elements, the `i`-th being `random i`.
  pub blind_parts :
      (circuit_size : ℕ) (random : ℕ → A) (count i : ℕ) → List (List A) → Outcome (List (List A))
  blind_parts n random zero i parts = ok parts
  blind_parts n random (suc count) i parts = do
    p ← index parts i
    a ← index p n
    p' ← assign p n (a ⊕ random i)
    parts1 ← assign parts i p'
    q ← index parts1 (i + 1)
    b ← index q 0
    q' ← assign q 0 (b ⊖ random i)
    parts2 ← assign parts1 (i + 1) q'
    blind_parts n random count (suc i) parts2

  pub add_blinding_to_quotient_polynomial_parts :
      (program_width circuit_size : ℕ) (random : ℕ → A) → List (List A) → Outcome (List (List A))
  unfolding blind_parts
  add_blinding_to_quotient_polynomial_parts program_width circuit_size random parts =
      blind_parts circuit_size random (program_width - 1) 0 parts

  -- The loops over `memory_read_records` and `memory_write_records`, which differ in what they finish
  -- a record with.
  pub add_records :
      (w_1 w_2 w_3 : List A) (eta : A) (finish : A → A)
      → (records : List ℕ) → List A
      → Outcome (List A)
  add_records w_1 w_2 w_3 eta finish [] w_4 = ok w_4
  add_records w_1 w_2 w_3 eta finish (gate_idx ∷ records) w_4 = do
    d ← index w_4 gate_idx
    c ← index w_3 gate_idx
    b ← index w_2 gate_idx
    a ← index w_1 gate_idx
    w_4' ← assign w_4 gate_idx (finish (((((d ⊕ c) ⊗ eta) ⊕ b) ⊗ eta ⊕ a) ⊗ eta))
    add_records w_1 w_2 w_3 eta finish records w_4'

  -- A write adds one. The wires are the ones of the store.
  pub add_plookup_memory_records_to_w_4 :
      (eta : A) (w_1 w_2 w_3 : List A) (memory_read_records memory_write_records : List ℕ)
      → List A
      → Outcome (List A)
  unfolding add_records
  add_plookup_memory_records_to_w_4 eta w_1 w_2 w_3 reads writes w_4 = do
    w_4' ← add_records w_1 w_2 w_3 eta (λ v. v) reads w_4
    add_records w_1 w_2 w_3 eta (λ v. v ⊕ f.one) writes w_4'

  -- `for j in j..j + count`: the coefficients of degree `n` of the parts.
  pub add_high :
      (circuit_size : ℕ) (zeta_pow_n : A) (parts : List (List A)) (count j : ℕ)
      → (t_eval scalar : A) → Outcome A
  add_high n zeta_pow_n parts zero j t_eval scalar = ok t_eval
  add_high n zeta_pow_n parts (suc count) j t_eval scalar = do
    part ← index parts j
    c ← index part n
    add_high n zeta_pow_n parts count (suc j) (t_eval ⊕ c ⊗ scalar) (scalar ⊗ zeta_pow_n)

  pub first_coefficient : List (List A) → ℕ → Outcome A
  first_coefficient parts j = index parts j >>= λ part. index part 0

  -- The value that is added to the transcript as `t`. `circuit_size` is the prover's, `n` the key's.
  pub quotient_evaluation :
      Profile
      → Option ℕ
      → (program_width circuit_size n : ℕ) → (parts : List (List A)) → (zeta : A) → Outcome A
  unfolding add_high first_coefficient
  quotient_evaluation p system program_width circuit_size n parts zeta = do
    c0 ← first_coefficient parts 0
    c1 ← first_coefficient parts 1
    c2 ← first_coefficient parts 2
    c3 ← first_coefficient parts 3
    t_eval ← evaluate p system (c0 ∷ c1 ∷ c2 ∷ c3 ∷ []) zeta (4 * circuit_size)
    add_high n (f.pow zeta n) parts
        (if program_width == 3 then program_width else program_width - 1) 0 t_eval (f.pow zeta n)

  -- The commitments to the parts, whose cells are given: the constant says the size of the product.
  pub quotient_commitments :
      (to_string : ℕ → String) (from_u64 : ℕ → A) (circuit_size : ℕ) (cells : List ℕ) (count i : ℕ)
      → Outcome (List (WorkItem A))
  quotient_commitments to_string from_u64 n cells zero i = ok []
  quotient_commitments to_string from_u64 n cells (suc count) i = do
    cell ← index cells i
    rest ← quotient_commitments to_string from_u64 n cells count (suc i)
    ok (
        record {
          work = scalar_multiplication (from_u64 (if ltb 2 i then n else n + 1)) cell;
          tag = String.◌++◌ "T_" (to_string (i + 1));
        }
        ∷ rest)

  -- The same for the wires, which are looked up in the store.
  pub wire_commitments :
      (to_string : ℕ → String) (from_u64 : ℕ → A) (circuit_size : ℕ)
      → PolynomialStore A
      → (count i : ℕ) → Outcome (List (WorkItem A))
  wire_commitments to_string from_u64 n store zero i = ok []
  wire_commitments to_string from_u64 n store (suc count) i = do
    cell ← get store (String.◌++◌ "w_" (to_string (i + 1)))
    rest ← wire_commitments to_string from_u64 n store count (suc i)
    ok (
        record {
          work = scalar_multiplication (from_u64 (if ltb 2 i then n else n + 1)) cell;
          tag = String.◌++◌ "W_" (to_string (i + 1));
        }
        ∷ rest)

  -- The first `count` values from the `i`-th on.
  pub read_values : List A → (count i : ℕ) → Outcome (List A)
  read_values xs zero i = ok []
  read_values xs (suc count) i = do
    x ← index xs i
    rest ← read_values xs count (suc i)
    ok (x ∷ rest)

  pub compute_wire_commitments :
      ⦃codec : Codec A⦄
      → (to_string : ℕ → String) (from_u64 : ℕ → A) (is_plookup : Bool)
        (program_width circuit_size num_public_inputs : ℕ)
      → PolynomialStore A
      → Transcript
      → (queue : List (WorkItem A)) → Outcome (Transcript × List (WorkItem A))
  unfolding wire_commitments read_values
  compute_wire_commitments to_string from_u64 is_plookup program_width n num_public_inputs store t
        queue =
      do
        items ←
            wire_commitments to_string from_u64 n store
              (if is_plookup then program_width - 1 else program_width) 0
        cell ← get store "w_2_lagrange"
        source ← deref store cell
        public_wires ← read_values source.coefficients num_public_inputs 0
        ok (put_field_element_vector "public_inputs" public_wires t, queue ++ items)
