-- ===== src/Widgets/Contribution.antt =====
-- What the widgets return over any kernel, and what becomes of the parts of the quotient.
use barustenberg.Prelude.{
  ℕ, zero, suc, ◌+◌, ◌-◌, ◌<◌, ◌≡◌, refl, List, [], arith, ok, panic, index, bit_and, bit_or,
  Option, some,
}
use barustenberg.Prelude.Bits.{shr}
use barustenberg.Numeric.{pred_usize-pos, Profile}
use barustenberg.Field.{Field, ◌⊗◌}
use barustenberg.Polynomials.{Polynomial}
use barustenberg.Program.{PolynomialDescriptor}
use barustenberg.Transcript.{Transcript, Codec, get_challenge_field_element}
use barustenberg.Widgets.{
  ChallengeArray, PolyPtrMap, get_challenges, get_polynomials, fft_get_value,
  get_polynomial_evaluations, manifest_len,
}
use barustenberg.Widgets.Challenges.{get_challenges_lem}
use barustenberg.Widgets.Fft.{AllFound, collect_pointers-after}
use barustenberg.Widgets.Transition.{
  Kernel, Reader, WidgetKey, default_coefficients, quotient_rounds, compute_quotient_contribution,
  compute_quotient_evaluation_contribution, widget_append_scalar_multiplication_inputs,
}

module _ {ℓ} {A : Type ℓ} ⦃f : Field A⦄ where
  -- The kernel's three computations succeed at a point, whatever the quotient is there.
  pub record Succeeds (kernel : Kernel A) (reader : Reader A) (challenges : ChallengeArray A)
      (i : ℕ) : Type ℓ where
    pub terms : List A
    pub sum : A
    pub terms_run :
        kernel.compute_linear_terms reader challenges default_coefficients (some i) ≡ ok terms
    pub sum_run : kernel.sum_linear_terms reader challenges terms i ≡ ok sum
    pub rest_run :
        (q : A) → (v : A) × (kernel.compute_non_linear_terms reader challenges q i ≡ ok v)

  -- The quotient's parts have a coefficient for the point.
  pub record InParts (key : WidgetKey A) (i : ℕ) : Type ℓ where
    pub part : Polynomial A
    pub value : A
    pub part_run : index key.quotient_polynomial_parts (shr i key.small_domain_log2_size) ≡ ok part
    pub value_run : index part.coefficients (bit_and i (key.circuit_size - 1)) ≡ ok value

  quotient_rounds-ok :
      (p : Profile) (kernel : Kernel A) (key : WidgetKey A) (reader : Reader A)
      (challenges : ChallengeArray A) (left i n : ℕ)
      → i + left ≡ n
      → 0 < key.circuit_size
      → ((j : ℕ) → j < n → Succeeds kernel reader challenges j)
      → ((j : ℕ) → j < n → InParts key j)
      → quotient_rounds p kernel key reader challenges left i key.quotient_polynomial_parts
        ≡ ok key.quotient_polynomial_parts
  unfolding quotient_rounds
  quotient_rounds-ok p kernel key reader challenges zero i n e pos h g = refl
  quotient_rounds-ok p kernel key reader challenges (suc left) i n e pos h g =
      let here : Succeeds kernel reader challenges i = h i (omega arith) in
      let at : InParts key i = g i (omega arith) in
      rw (here.terms_run) (
        rw (here.sum_run) (
          rw (at.part_run) (
            rw (pred_usize-pos p key.circuit_size pos) (
              rw (at.value_run) (
                rw ((here.rest_run _).1) (
                  quotient_rounds-ok p kernel key reader challenges left (suc i) n (omega arith) pos
                    h g))))))

  module _ {κ} {R : Type κ} ⦃codec : Codec A⦄ (draw : R → Option A × R) where
    -- With the challenges in the transcript, the transforms in the store, parts that have a coefficient
    -- for each point, and a kernel that has a relation and whose computations succeed at each point on
    -- the polynomials and the challenges that the widget collects for it, the prover's widget returns
    -- alpha to the number of relations times the base and leaves the parts of the quotient as they were:
    -- what the kernel computed reaches neither.
    pub compute_quotient_contribution_lem :
        (p : Profile) (kernel : Kernel A) (key : WidgetKey A) (alpha_base : A) (t : Transcript)
        (rng : R) (required : ℕ) (a b g e z : A)
        → get_challenge_field_element t "alpha" (some 0) ≡ ok a
        → get_challenge_field_element t "beta" (some 0) ≡ ok b
        → get_challenge_field_element t "beta" (some 1) ≡ ok g
        → get_challenge_field_element t "eta" (some 0) ≡ ok e
        → get_challenge_field_element t "z" (some 0) ≡ ok z
        → kernel.quotient_required_challenges ≡ ok required
        → 0 < kernel.num_independent_relations
        → 0 < key.large_domain_size
        → 0 < key.circuit_size
        → AllFound key.polynomial_store kernel.get_required_polynomial_ids key.polynomial_manifest
        → ((polynomials : PolyPtrMap) (challenges : ChallengeArray A)
            → get_polynomials p key.large_domain_size key.polynomial_manifest key.polynomial_store
                kernel.get_required_polynomial_ids
              ≡ ok polynomials
            → get_challenges draw kernel.num_independent_relations t alpha_base required rng
              ≡ ok (challenges, rng)
            → (i : ℕ) → i < key.large_domain_size
            → Succeeds kernel (fft_get_value key.polynomial_store polynomials) challenges i)
        → ((i : ℕ) → i < key.large_domain_size → InParts key i)
        → compute_quotient_contribution draw p kernel key alpha_base t rng
          ≡ ok (
            alpha_base ⊗ f.pow a kernel.num_independent_relations,
            key.quotient_polynomial_parts,
            rng,
          )
    unfolding compute_quotient_contribution get_polynomials
    compute_quotient_contribution_lem p kernel key base t rng required a b g e z ha hb hg he hz hr
          pos large circuit found h parts =
        let (challenges, run, _, _, _, next) =
          get_challenges_lem draw kernel.num_independent_relations t base required rng a b g e z ha
            hb hg he hz pos in
        let (m, collected, _) =
          collect_pointers-after key.polynomial_store kernel.get_required_polynomial_ids
            key.polynomial_manifest [] found in
        let polynomials : PolyPtrMap = record {
          coefficients = m;
          block_mask = key.large_domain_size - 1;
          index_shift = 4;
        } in
        let got : get_polynomials p key.large_domain_size key.polynomial_manifest
              key.polynomial_store kernel.get_required_polynomial_ids
            ≡ ok polynomials =
          rw (pred_usize-pos p key.large_domain_size large) (rw collected refl) in
        rw got (
          simp (hr) (
            rw run (
              rw
                (quotient_rounds-ok p kernel key (fft_get_value key.polynomial_store polynomials)
                  challenges key.large_domain_size 0 key.large_domain_size (omega arith) circuit
                  (h polynomials challenges got run) parts)
                (rw next refl))))

    -- The verifier's scalar multiplication inputs are the same power of alpha, under the challenges that
    -- either mask requires.
    pub append_scalar_multiplication_inputs_lem :
        (kernel : Kernel A) (alpha_base : A) (t : Transcript) (rng : R) (quotient update : ℕ)
        (a b g e z : A)
        → get_challenge_field_element t "alpha" (some 0) ≡ ok a
        → get_challenge_field_element t "beta" (some 0) ≡ ok b
        → get_challenge_field_element t "beta" (some 1) ≡ ok g
        → get_challenge_field_element t "eta" (some 0) ≡ ok e
        → get_challenge_field_element t "z" (some 0) ≡ ok z
        → kernel.quotient_required_challenges ≡ ok quotient
        → kernel.update_required_challenges ≡ ok update
        → 0 < kernel.num_independent_relations
        → widget_append_scalar_multiplication_inputs draw kernel alpha_base t rng
          ≡ ok (alpha_base ⊗ f.pow a kernel.num_independent_relations, rng)
    unfolding widget_append_scalar_multiplication_inputs
    append_scalar_multiplication_inputs_lem kernel base t rng quotient update a b g e z ha hb hg he
          hz hq hu pos =
        let (challenges, run, _, _, _, next) =
          get_challenges_lem draw kernel.num_independent_relations t base (bit_or quotient update)
            rng a b g e z ha hb hg he hz pos in
        rw hq (rw hu (rw run (rw next refl)))

    -- The verifier's widget panics, on the length of the manifest.
    pub verifier_panics :
        (kernel : Kernel A) (manifest : List PolynomialDescriptor) (alpha_base : A) (t : Transcript)
        (numerator : A) (rng : R)
        → compute_quotient_evaluation_contribution draw kernel manifest alpha_base t numerator rng
          ≡ panic
    unfolding compute_quotient_evaluation_contribution get_polynomial_evaluations manifest_len
    verifier_panics kernel manifest base t numerator rng = refl
