-- ===== src/Permutation/Tests.antt =====
-- Two wires over the integers modulo 5.
use barustenberg.Prelude.{ℕ, ◌≡◌, ◌≢◌, refl, [], ◌∷◌, ok, panic, true}
use barustenberg.Field.{◌⊕◌, ◌⊗◌, ◌⊖◌, divide}
use barustenberg.Field.Five.{Five, f0, f1, f2, f3, f4, five, add, mul, neg, inverse}
use barustenberg.Permutation.{
  VerificationKey, Evaluations, compute_public_input_delta, l_end_root, identity_loop,
  identity_term, l_numerator, contribution, times_square, delta_loop,
}
use barustenberg.Permutation.Delta.{product_from, compute_public_input_delta_lem}
use barustenberg.Permutation.Contribution.{sigma_product, contribution_lem}

compute_public_input_delta_lem_example :
    (product_from f3 f1 f1 f2 (f3 ∷ f1 ∷ []) 0 ≢ f0
      → (d : Five) × (compute_public_input_delta f2 f3 (f3 ∷ f1 ∷ []) f1 f1 f2 ≡ ok d)
        × (d ⊗ product_from f3 f1 f1 f2 (f3 ∷ f1 ∷ []) 0
            ≡ product_from f2 f1 f1 f2 (f3 ∷ f1 ∷ []) 0))
    × (product_from f3 f1 f1 f2 (f3 ∷ f1 ∷ []) 0 ≡ f0
        → compute_public_input_delta f2 f3 (f3 ∷ f1 ∷ []) f1 f1 f2 ≡ panic)
unfolding five
compute_public_input_delta_lem_example =
    compute_public_input_delta_lem f2 f3 f1 f1 f2 (f3 ∷ f1 ∷ [])

abbrev key : VerificationKey Five
key = record { program_width = 2; z_pow_n = f3; domain_inverse = f1; root = f2 }

abbrev evaluations : Evaluations Five
evaluations = record {
  z = f2;
  beta = f1;
  gamma = f0;
  sigma_evaluations = f1 ∷ f2 ∷ [];
  wire_evaluations = f1 ∷ f1 ∷ [];
  z_1_shifted_eval = f3;
  public_inputs = [];
  z_eval = f2;
  id_evaluations = f2 ∷ f2 ∷ [];
}

abbrev generators : ℕ → Five
generators i = f2

start : divide (l_numerator key) (evaluations.z ⊖ f1) ≡ ok f2
unfolding five add mul neg inverse l_numerator
start = refl

end : divide (l_numerator key) (evaluations.z ⊗ l_end_root 4 key.root ⊖ f1) ≡ ok f4
unfolding five add mul neg inverse l_numerator l_end_root times_square
end = refl

delta : compute_public_input_delta f2 f3 [] f1 f0 f2 ≡ ok f1
unfolding five add mul neg inverse compute_public_input_delta delta_loop
delta = refl

identities :
    identity_loop (identity_term true generators evaluations) f0 evaluations.wire_evaluations 0 f1
    ≡ ok f4
unfolding five add mul identity_loop identity_term
identities = refl

contribution_lem_example :
    contribution generators f3 4 key evaluations f2 f1 true
    ≡ ok (
      f1
          ⊕ ((f2 ⊗ (f4 ⊗ f2) ⊖ f2 ⊗ (sigma_product f1 f0 (f1 ∷ f2 ∷ []) (f1 ∷ f1 ∷ []) ⊗ f3))
              ⊕ (((f3 ⊖ f1) ⊗ f4) ⊗ (f2 ⊗ f2) ⊕ (f2 ⊗ ((f2 ⊗ f2) ⊗ f2)) ⊗ (f2 ⊖ f1))),
      (f2 ⊗ f2) ⊗ (f2 ⊗ f2),
    )
unfolding five
contribution_lem_example =
    contribution_lem generators f3 4 key evaluations f2 f1 true (f1 ∷ []) (f1 ∷ []) f2 f1 refl refl
      refl refl start end delta identities
