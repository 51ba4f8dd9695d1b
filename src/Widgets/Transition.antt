-- ===== src/Widgets/Transition.antt =====
-- transition_widget.rs and arithmetic_widget.rs: the interface of a kernel, the two generic widgets
-- over it, and the arithmetic kernel.
use Prim.Native.String.{String}
use barustenberg.Prelude.{
  ℕ, zero, suc, List, [], ◌∷◌, Outcome, ok, panic, index, assign, ◌>>=◌, replicate, bit_and, bit_or,
  Option, none, some,
}
use barustenberg.Prelude.Bits.{shr}
use barustenberg.Prelude.Maps.{index_map, insert}
use barustenberg.Numeric.{pred_usize, Profile}
use barustenberg.Field.{Field, ◌⊕◌, ◌⊗◌}
use barustenberg.Polynomials.{Polynomial}
use barustenberg.Storage.{PolynomialStore}
use barustenberg.Program.{
  EvaluationType, non_shifted, PolynomialIndex, PolynomialDescriptor, as_usize, from_usize, q1, q2,
  q3, q_m, q_c, w1, w2, w3,
}
use barustenberg.Transcript.{Transcript, Codec}
use barustenberg.Widgets.{
  ChallengeArray, get_challenges, update_alpha, get_polynomials, fft_get_value,
  get_polynomial_evaluations, evaluation_get_value,
}

-- `get_value` on the polynomials that a kernel is given, which is all that it does with them.
abbrev pub Reader {ℓ} : Type ℓ → Type ℓ
Reader A = EvaluationType → PolynomialIndex → Option ℕ → Outcome A

-- The trait `KernelBase`. The linear terms are a `CoefficientArray`, of 37 elements.
pub record Kernel {ℓ} (A : Type ℓ) : Type ℓ where
  pub num_independent_relations : ℕ
  pub get_required_polynomial_ids : List PolynomialIndex
  pub quotient_required_challenges : Outcome ℕ
  pub update_required_challenges : Outcome ℕ
  pub compute_linear_terms : Reader A → ChallengeArray A → List A → Option ℕ → Outcome (List A)
  pub sum_linear_terms : Reader A → ChallengeArray A → List A → ℕ → Outcome A
  pub compute_non_linear_terms : Reader A → ChallengeArray A → A → ℕ → Outcome A
  pub update_kate_opening_scalars :
      List A → List (String × A) → ChallengeArray A → Outcome (List (String × A))

-- The fields of the proving key that the widget reads. The parts stand behind their pointers.
pub record WidgetKey {ℓ} (A : Type ℓ) : Type ℓ where
  pub large_domain_size : ℕ
  pub small_domain_log2_size : ℕ
  pub circuit_size : ℕ
  pub polynomial_manifest : List PolynomialDescriptor
  pub polynomial_store : PolynomialStore A
  pub quotient_polynomial_parts : List (Polynomial A)

module _ {ℓ} {A : Type ℓ} ⦃f : Field A⦄ where
  abbrev pub default_coefficients : List A
  default_coefficients = replicate 37 f.zero

  -- The loop over the large domain, on the parts of the quotient. `quotient_term` is a local variable,
  -- and the parts are only read.
  unfoldable pub quotient_rounds :
      Profile
      → Kernel A
      → WidgetKey A
      → Reader A
      → ChallengeArray A
      → (left i : ℕ) → (parts : List (Polynomial A)) → Outcome (List (Polynomial A))
  quotient_rounds p kernel key reader challenges zero i parts = ok parts
  quotient_rounds p kernel key reader challenges (suc left) i parts = do
    linear_terms ← kernel.compute_linear_terms reader challenges default_coefficients (some i)
    sum_of_linear_terms ← kernel.sum_linear_terms reader challenges linear_terms i
    part ← index parts (shr i key.small_domain_log2_size)
    mask ← pred_usize p key.circuit_size
    quotient_term ← index part.coefficients (bit_and i mask)
    _ ← kernel.compute_non_linear_terms reader challenges (quotient_term ⊕ sum_of_linear_terms) i
    quotient_rounds p kernel key reader challenges left (suc i) parts

  module _ {κ} {R : Type κ} ⦃codec : Codec A⦄ (draw : R → Option A × R) where
    -- `compute_quotient_contribution` of `TransitionWidget`, with the parts of the quotient that it
    -- leaves behind the key's pointers.
    unfoldable pub compute_quotient_contribution :
        Profile
        → Kernel A
        → WidgetKey A
        → (alpha_base : A) → Transcript
        → R
        → Outcome (A × List (Polynomial A) × R)
    unfolding quotient_rounds
    compute_quotient_contribution p kernel key alpha_base t rng = do
      polynomials ←
          get_polynomials p key.large_domain_size key.polynomial_manifest key.polynomial_store
            kernel.get_required_polynomial_ids
      required ← kernel.quotient_required_challenges
      (challenges, rng') ←
          get_challenges draw kernel.num_independent_relations t alpha_base required rng
      parts ←
          quotient_rounds p kernel key (fft_get_value key.polynomial_store polynomials) challenges
            key.large_domain_size 0 key.quotient_polynomial_parts
      next_alpha ← update_alpha kernel.num_independent_relations challenges
      ok (next_alpha, parts, rng')

    -- `compute_quotient_evaluation_contribution` of `GenericVerifierWidget`; it returns the next power
    -- of alpha, the numerator and the generator.
    unfoldable pub compute_quotient_evaluation_contribution :
        Kernel A
        → List PolynomialDescriptor
        → (alpha_base : A) → Transcript
        → (quotient_numerator_eval : A) → R
        → Outcome (A × A × R)
    compute_quotient_evaluation_contribution kernel manifest alpha_base t quotient_numerator_eval
          rng =
        do
          polynomial_evaluations ← get_polynomial_evaluations manifest t
          required ← kernel.quotient_required_challenges
          (challenges, rng') ←
              get_challenges draw kernel.num_independent_relations t alpha_base required rng
          linear_terms ←
              kernel.compute_linear_terms (evaluation_get_value polynomial_evaluations) challenges
                default_coefficients (some 0)
          sum_of_linear_terms ←
              kernel.sum_linear_terms (evaluation_get_value polynomial_evaluations) challenges
                linear_terms 0
          numerator ←
              kernel.compute_non_linear_terms (evaluation_get_value polynomial_evaluations)
                challenges (quotient_numerator_eval ⊕ sum_of_linear_terms) 0
          next_alpha ← update_alpha kernel.num_independent_relations challenges
          ok (next_alpha, numerator, rng')

    -- `append_scalar_multiplication_inputs`, which leaves the scalars alone.
    unfoldable pub widget_append_scalar_multiplication_inputs :
        Kernel A → (alpha_base : A) → Transcript → R → Outcome (A × R)
    widget_append_scalar_multiplication_inputs kernel alpha_base t rng = do
      quotient ← kernel.quotient_required_challenges
      update ← kernel.update_required_challenges
      (challenges, rng') ←
          get_challenges draw kernel.num_independent_relations t alpha_base (bit_or quotient update)
            rng
      next_alpha ← update_alpha kernel.num_independent_relations challenges
      ok (next_alpha, rng')

  -- `terms[i.into()] = v`
  abbrev pub assign_term : ℕ → A → List A → Outcome (List A)
  assign_term i v terms = from_usize i >>= λ place. assign terms (as_usize place) v

  -- `terms[i.into()]`
  abbrev pub index_term : List A → ℕ → Outcome A
  index_term terms i = from_usize i >>= λ place. index terms (as_usize place)

  unfoldable pub arithmetic_linear_terms :
      Reader A → ChallengeArray A → List A → Option ℕ → Outcome (List A)
  arithmetic_linear_terms reader challenges linear_terms idx =
      let i : ℕ = elim idx [ none ↦ 0 | some i ↦ i ] in
      do
        w_1 ← reader non_shifted w1 (some i)
        w_2 ← reader non_shifted w2 (some i)
        w_3 ← reader non_shifted w3 (some i)
        terms1 ← assign_term 0 (w_1 ⊗ w_2) linear_terms
        terms2 ← assign_term 1 w_1 terms1
        terms3 ← assign_term 2 w_2 terms2
        assign_term 3 w_3 terms3

  -- `scalars.insert(name, scalars.get(name).unwrap() + v)`
  abbrev pub add_scalar : String → A → List (String × A) → Outcome (List (String × A))
  add_scalar name v scalars = index_map name scalars >>= λ old. ok (insert name (old ⊕ v) scalars)

  unfoldable pub arithmetic_opening_scalars :
      List A → List (String × A) → ChallengeArray A → Outcome (List (String × A))
  arithmetic_opening_scalars linear_terms scalars challenges = do
    alpha ← index challenges.alpha_powers 0
    t0 ← index_term linear_terms 0
    s1 ← add_scalar "Q_M" (t0 ⊗ alpha) scalars
    t1 ← index_term linear_terms 1
    s2 ← add_scalar "Q_1" (t1 ⊗ alpha) s1
    t2 ← index_term linear_terms 2
    s3 ← add_scalar "Q_2" (t2 ⊗ alpha) s2
    t3 ← index_term linear_terms 3
    s4 ← add_scalar "Q_3" (t3 ⊗ alpha) s3
    add_scalar "Q_C" alpha s4

  -- Its masks of challenges and `sum_linear_terms` are `todo!()`, the non-linear terms
  -- `unimplemented!()`.
  unfoldable pub arithmetic_kernel : Kernel A
  arithmetic_kernel = record {
    num_independent_relations = 1;
    get_required_polynomial_ids = q1 ∷ q2 ∷ q3 ∷ q_m ∷ q_c ∷ w1 ∷ w2 ∷ w3 ∷ [];
    quotient_required_challenges = panic;
    update_required_challenges = panic;
    compute_linear_terms = arithmetic_linear_terms;
    sum_linear_terms = λ reader challenges linear_terms idx. panic;
    compute_non_linear_terms = λ reader challenges quotient_term idx. panic;
    update_kate_opening_scalars = arithmetic_opening_scalars;
  }
