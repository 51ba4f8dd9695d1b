-- ===== src/Permutation.antt =====
-- The verifier's side of the permutation argument: `compute_quotient_evaluation_contribution` of
-- barustenberg/src/plonk/proof_system/widgets/random_widgets/permutation_widget.rs and
-- `compute_public_input_delta` of barustenberg/src/plonk/proof_system/public_inputs/mod.rs. The coset
-- generators are `todo!()` in the source, and parameters here.
pub mod Delta
pub mod Contribution
mod Tests
use Prim.Native.String
use Prim.Native.String.{String}
use barustenberg.Prelude.{
  ℕ, zero, suc, ◌+◌, ◌-◌, ◌/◌, ◌%◌, List, [], ◌∷◌, ◌++◌, Outcome, ok, panic, index, ◌>>=◌,
  if◌then◌else◌, ◌==◌, Bool, take, some, none,
}
use barustenberg.Field.{Field, ◌⊕◌, ◌⊗◌, ◌⊖◌, divide}
use barustenberg.Transcript.{
  Transcript, Codec, get_field_element, get_challenge_field_element, get_field_element_vector,
}

-- `permutation_shift` and the like apart, the verifier's key holds what follows.
pub record VerificationKey {ℓ} (A : Type ℓ) : Type ℓ where
  pub program_width : ℕ
  pub z_pow_n : A
  pub domain_inverse : A
  pub root : A

pub record Evaluations {ℓ} (A : Type ℓ) : Type ℓ where
  pub z : A
  pub beta : A
  pub gamma : A
  pub sigma_evaluations : List A
  pub wire_evaluations : List A
  pub z_1_shifted_eval : A
  pub public_inputs : List A
  pub z_eval : A
  pub id_evaluations : List A

module _ {ℓ} {A : Type ℓ} ⦃f : Field A⦄ where
  -- The loop over the public inputs: numerator and denominator.
  pub delta_loop :
      (coset_generator external_coset_generator beta gamma subgroup_generator : A)
      → List A
      → (numerator denominator work_root : A) → A × A
  delta_loop k e beta gamma g [] numerator denominator work_root = (numerator, denominator)
  delta_loop k e beta gamma g (witness ∷ rest) numerator denominator work_root =
      let t0 = witness ⊕ gamma in
      let t1 = work_root ⊗ beta in
      delta_loop k e beta gamma g rest (numerator ⊗ (t1 ⊗ k ⊕ t0)) (denominator ⊗ (t1 ⊗ e ⊕ t0))
        (work_root ⊗ g)

  pub compute_public_input_delta :
      (coset_generator external_coset_generator : A)
      → List A
      → (beta gamma subgroup_generator : A) → Outcome A
  unfolding delta_loop
  compute_public_input_delta k e public_inputs beta gamma g =
      let (numerator, denominator) = delta_loop k e beta gamma g public_inputs f.one f.one f.one in
      divide numerator denominator

  -- `l_end_root` for `k` roots cut out of the vanishing polynomial.
  pub times_square : (count : ℕ) → A → A → A
  times_square zero root r = r
  times_square (suc count) root r = times_square count root (r ⊗ (root ⊗ root))

  pub l_end_root : (num_roots_cut_out : ℕ) → A → A
  unfolding times_square
  l_end_root k root = times_square (k / 2) root (if k % 2 == 0 then root else root ⊗ root)

  -- Part 1's loop: `sigma * beta + (wire + gamma)`.
  pub sigma_loop : (sigmas wires : List A) (beta gamma : A) (count i : ℕ) → A → Outcome A
  sigma_loop sigmas wires beta gamma zero i acc = ok acc
  sigma_loop sigmas wires beta gamma (suc count) i acc = do
    s ← index sigmas i
    w ← index wires i
    sigma_loop sigmas wires beta gamma count (suc i) (acc ⊗ (s ⊗ beta ⊕ (w ⊕ gamma)))

  -- Part 4's loop: `sigma * beta + wire + gamma`.
  pub sigma_loop_again : (sigmas wires : List A) (beta gamma : A) (count i : ℕ) → A → Outcome A
  sigma_loop_again sigmas wires beta gamma zero i acc = ok acc
  sigma_loop_again sigmas wires beta gamma (suc count) i acc = do
    s ← index sigmas i
    w ← index wires i
    sigma_loop_again sigmas wires beta gamma count (suc i) (acc ⊗ ((s ⊗ beta ⊕ w) ⊕ gamma))

  -- The loop of part 5, whose term is `id_i * beta` in 5.1 and `z * beta * k_i` in 5.2.
  pub identity_loop : (term : ℕ → Outcome A) (gamma : A) → List A → (i : ℕ) → A → Outcome A
  identity_loop term gamma [] i acc = ok acc
  identity_loop term gamma (eval_i ∷ rest) i acc = do
    t ← term i
    identity_loop term gamma rest (suc i) (acc ⊗ ((t ⊕ eval_i) ⊕ gamma))

  pub identity_term : Bool → (coset_generator : ℕ → A) → Evaluations A → ℕ → Outcome A
  identity_term idpolys coset_generator e i =
      if idpolys
      then (index e.id_evaluations i >>= λ id_evaluation. ok (id_evaluation ⊗ e.beta))
      else ok ((e.z ⊗ e.beta) ⊗ (if i == 0 then f.one else coset_generator (i - 1)))

  pub l_numerator : VerificationKey A → A
  l_numerator key = (key.z_pow_n ⊖ f.one) ⊗ key.domain_inverse

  -- The new value of `quotient_numerator_eval` and what is returned, from the evaluations read.
  pub contribution :
      (coset_generator : ℕ → A) (external_coset_generator : A) (num_roots_cut_out : ℕ)
      → VerificationKey A
      → Evaluations A
      → (alpha quotient_numerator_eval : A) → (idpolys : Bool) → Outcome (A × A)
  unfolding compute_public_input_delta l_end_root sigma_loop sigma_loop_again identity_loop
      identity_term l_numerator
  contribution coset_generator external num_roots key e alpha quotient idpolys =
      let alpha_squared = alpha ⊗ alpha in
      let alpha_cubed = alpha_squared ⊗ alpha in
      let last = key.program_width - 1 in
      do
        l_start ← divide (l_numerator key) (e.z ⊖ f.one)
        l_end ← divide (l_numerator key) (e.z ⊗ l_end_root num_roots key.root ⊖ f.one)
        product ←
            if key.program_width == 0
            then panic
            else sigma_loop e.sigma_evaluations e.wire_evaluations e.beta e.gamma last 0 f.one
        w_last ← index e.wire_evaluations last
        delta ←
            compute_public_input_delta (coset_generator 0) external e.public_inputs e.beta e.gamma
              key.root
        product' ←
            sigma_loop_again e.sigma_evaluations e.wire_evaluations e.beta e.gamma last 0 f.one
        s_last ← index e.sigma_evaluations last
        ids ←
            identity_loop (identity_term idpolys coset_generator e) e.gamma
              (take key.program_width e.wire_evaluations) 0 f.one
        (let sigma_contribution = ((product ⊗ (w_last ⊕ e.gamma)) ⊗ e.z_1_shifted_eval) ⊗ alpha in
            let t1 =
              (((e.z_1_shifted_eval ⊖ delta) ⊗ l_end) ⊗ alpha_squared ⊖ l_start ⊗ alpha_cubed)
              ⊖ sigma_contribution in
            let sigma_last_multiplicand =
              f.neg ((product' ⊗ e.z_1_shifted_eval) ⊗ alpha) ⊗ e.beta in
            ok (
              ((quotient ⊕ t1) ⊕ sigma_last_multiplicand ⊗ s_last)
                  ⊕ (ids ⊗ alpha ⊕ l_start ⊗ alpha_cubed) ⊗ e.z_eval,
              alpha_squared ⊗ alpha_squared,
            ))

  -- `transcript.get_field_element(prefix + (i + 1))` for `i` from `i` on. `to_string` prints a number.
  pub read_numbered :
      ⦃codec : Codec A⦄
      → (to_string : ℕ → String) → Transcript
      → String
      → (count i : ℕ) → Outcome (List A)
  read_numbered to_string t prefix zero i = ok []
  read_numbered to_string t prefix (suc count) i = do
    a ← get_field_element t (String.◌++◌ prefix (to_string (i + 1)))
    rest ← read_numbered to_string t prefix count (suc i)
    ok (a ∷ rest)

  pub read_evaluations :
      ⦃codec : Codec A⦄
      → (to_string : ℕ → String) → (program_width : ℕ) → Transcript
      → (idpolys : Bool) → Outcome (Evaluations A)
  unfolding read_numbered
  read_evaluations to_string width t idpolys = do
    z ← get_challenge_field_element t "z" none
    beta ← get_challenge_field_element t "beta" (some 0)
    gamma ← get_challenge_field_element t "beta" (some 1)
    sigmas ← read_numbered to_string t "sigma_" width 0
    wires ← read_numbered to_string t "w_" width 0
    z_1_shifted_eval ← get_field_element t "z_perm_omega"
    public_inputs ← get_field_element_vector f.one t "public_inputs"
    z_eval ← get_field_element t "z_perm"
    ids ← if idpolys then read_numbered to_string t "id_" width 0 else ok []
    ok (record {
      z = z;
      beta = beta;
      gamma = gamma;
      sigma_evaluations = sigmas;
      wire_evaluations = wires;
      z_1_shifted_eval = z_1_shifted_eval;
      public_inputs = public_inputs;
      z_eval = z_eval;
      id_evaluations = ids;
    })

  pub compute_quotient_evaluation_contribution :
      ⦃codec : Codec A⦄
      → (to_string : ℕ → String) (coset_generator : ℕ → A) (external_coset_generator : A)
        (num_roots_cut_out : ℕ)
      → VerificationKey A
      → (alpha : A) → Transcript
      → (quotient_numerator_eval : A) → (idpolys : Bool) → Outcome (A × A)
  unfolding read_evaluations contribution
  compute_quotient_evaluation_contribution to_string coset_generator external num_roots key alpha t
        quotient idpolys =
      do
        e ← read_evaluations to_string key.program_width t idpolys
        contribution coset_generator external num_roots key e alpha quotient idpolys

  pub append_scalar_multiplication_inputs :
      ⦃codec : Codec A⦄ → (alpha_base : A) → Transcript → Outcome A
  append_scalar_multiplication_inputs alpha_base t = do
    alpha_step ← get_challenge_field_element t "alpha" none
    ok ((alpha_base ⊗ (alpha_step ⊗ alpha_step)) ⊗ alpha_step)
