-- ===== src/Lib.antt =====
-- barustenberg: a Rust port of the PLONK prover and verifier of Barretenberg.
--
-- A circuit is built in a composer, its wires become polynomials that a store keeps by name, the
-- prover goes through its rounds by adding work to a queue and elements to a transcript, and opens
-- its polynomials by the Kate scheme; the verifier recomputes the permutation's part of the quotient
-- from the transcript. The scalar field is a type parameter of the crate, and here an instance
-- argument with the laws that ark_ff documents.
--
-- What stands where, each file named for the part and its children for what they prove:
--   Prelude       the shared names; Rust's outcomes (a value, Err, a panic), slices, maps, bits.
--   Numeric       barustenberg/src/numeric/bitop/get_msb.rs (get_msb32 and get_msb64) and
--                 reverse_bits and is_power_of_two of
--                 barustenberg/src/polynomials/polynomial_arithmetic.rs. A Profile says whether
--                 the build checks for overflow.
--   Field         the interface of ark_ff::Field, its consequences, and the integers modulo 5.
--   Polynomials   barustenberg/src/polynomials/polynomial.rs; of polynomial_arithmetic.rs evaluate,
--                 compute_multiplicative_subgroup (Subgroup) and
--                 compute_lagrange_polynomial_fft (Lagrange); compute_num_threads of
--                 common/max_threads.rs and of evaluation_domain.rs, whose table of roots is in Roots;
--                 partial_fft_serial_inner in Transform; fft_inner_parallel in Fft,
--                 fft_inner_parallel_vec_inplace in Inplace; copy_polynomial and fft_inner_serial in
--                 Serial; the interpolation in Interpolation.
--   Kate          barustenberg/src/plonk/proof_system/commitment_scheme.rs: commit and
--                 generic_batch_open (open_point is one round of its loop).
--   Composer      barustenberg/src/plonk/composer/composer_base.rs. Circuit is what a client may call
--                 and what it is promised; Refinement and Runs are about how the composer keeps the
--                 promise, and Distinct about its public inputs after any calls.
--   Transcript    barustenberg/src/transcript.rs; ark_serialize is the interface Codec.
--   Program       barustenberg/src/plonk/proof_system/types: the settings and the polynomial index.
--   Storage       barustenberg/src/proof_system/polynomial_store.rs, with the heap that its shared
--                 pointers point into.
--   Queue         barustenberg/src/proof_system/work_queue.rs.
--   Permutation   the verifier of
--                 barustenberg/src/plonk/proof_system/widgets/random_widgets/permutation_widget.rs and
--                 compute_public_input_delta of barustenberg/src/plonk/proof_system/public_inputs/mod.rs.
--   Prover        barustenberg/src/plonk/proof_system/prover.rs: what the rounds do to wires, quotient
--                 parts and memory records, the commitments they queue, and compute_lagrange_1_fft.
--   Widgets       containers.rs and getters.rs of
--                 barustenberg/src/plonk/proof_system/widgets/transition_widgets; transition_widget.rs
--                 and arithmetic_widget.rs there (Transition). The kernel that a widget is generic in
--                 is a record of functions.
--   Sigma         barustenberg/src/plonk/proof_system/utils/permutation.rs.
--
-- How the code is read: a loop over a range is a recursion on its count; an index out of range, an
-- unwrap of nothing and a failed assert are the outcome panic, an Err the outcome err; a value that
-- is borrowed mutably is passed in and returned. A HashMap is a list of entries of which the newest
-- counts. The two loops of the composer that follow links carry fuel and return none when it runs
-- out: the theorems about them say that more fuel than there are links is enough.
--
-- Not modelled: what the source leaves as todo!() or unimplemented!(), which is apply_fiat_shamir,
-- the coset and inverse transforms, Pippenger, the coset generators and
-- conditionally_subtract_from_double_modulus (parameters where they are used), the sum and the
-- non-linear terms of the arithmetic kernel (panics of the model) and with them the rounds,
-- process_queue and construct_proof as wholes; the reference strings, which read files; the hash
-- functions, which other crates implement; the sizes and Display of the store.
-- Outside the development: the keys (proving_key.rs and verification_key/mod.rs) but for the fields
-- that the modelled operations read.
pub mod Prelude
pub mod Numeric
pub mod Field
pub mod Polynomials
pub mod Kate
pub mod Composer
pub mod Transcript
pub mod Program
pub mod Storage
pub mod Queue
pub mod Permutation
pub mod Prover
pub mod Widgets
pub mod Sigma
