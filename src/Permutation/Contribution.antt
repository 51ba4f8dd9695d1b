-- ===== src/Permutation/Contribution.antt =====
-- The permutation's part of the quotient numerator in closed form.
use barustenberg.Prelude.{
  ℕ, suc, ◌-◌, ◌≡◌, refl, sym, ap, ap₂, ◌∙◌, List, [], ◌∷◌, ◌++◌, ok, index, ◌==◌, Bool, false,
  take, take_all, length, length-append, arith, append_assoc,
}
use barustenberg.Prelude.Slices.{index-append}
use barustenberg.Field.{Field, ◌⊕◌, ◌⊗◌, ◌⊖◌, divide}
use barustenberg.Field.Laws.{mul-one, mul_right_comm, add_interchange, neg-mul, neg-add, mul-sub}
use barustenberg.Permutation.{
  VerificationKey, Evaluations, compute_public_input_delta, l_end_root, sigma_loop,
  sigma_loop_again, identity_loop, identity_term, l_numerator, contribution,
}

module _ {ℓ} {A : Type ℓ} ⦃f : Field A⦄ where
  -- The product of `sigma * beta + wire + gamma` over two lists.
  abbrev pub sigma_product : (beta gamma : A) → (sigmas wires : List A) → A
  sigma_product beta gamma [] wires = f.one
  sigma_product beta gamma (s ∷ ss) [] = f.one
  sigma_product beta gamma (s ∷ ss) (w ∷ ws) =
      ((s ⊗ beta ⊕ w) ⊕ gamma) ⊗ sigma_product beta gamma ss ws

  -- Both loops multiply the same product, over all but the last.
  sigma_loop-product :
      (pre pre' ss ws : List A) (s_last w_last beta gamma : A) (i : ℕ) (acc : A)
      → i ≡ length pre
      → i ≡ length pre'
      → length ss ≡ length ws
      → sigma_loop
          (pre ++ (ss ++ (s_last ∷ [])))
          (pre' ++ (ws ++ (w_last ∷ [])))
          beta
          gamma
          (length ss)
          i
          acc
        ≡ ok (acc ⊗ sigma_product beta gamma ss ws)
  unfolding sigma_loop
  sigma_loop-product pre pre' [] ws s_last w_last beta gamma i acc h h' e =
      ap ok (sym (mul-one acc))
  sigma_loop-product pre pre' (s ∷ ss) [] s_last w_last beta gamma i acc h h' e =
      absurd (omega arith)
  sigma_loop-product pre pre' (s ∷ ss) (w ∷ ws) s_last w_last beta gamma i acc h h' e =
      rw (sigma_loop, index-append pre s (ss ++ (s_last ∷ [])) i h)
        (rw (index-append pre' w (ws ++ (w_last ∷ [])) i h') (
          ap₂
            (λ ls lw.
              sigma_loop ls lw beta gamma (length ss) (suc i) (acc ⊗ (s ⊗ beta ⊕ (w ⊕ gamma))))
            (sym (append_assoc pre (s ∷ []) _)) (sym (append_assoc pre' (w ∷ []) _))
          ∙ sigma_loop-product (pre ++ (s ∷ [])) (pre' ++ (w ∷ [])) ss ws s_last w_last beta gamma
              (suc i) _ (omega (arith, length-append pre (s ∷ [])))
              (omega (arith, length-append pre' (w ∷ []))) (omega arith)
          ∙ ap ok (
              f.mul_assoc acc _ _
              ∙ ap (λ t. acc ⊗ (t ⊗ sigma_product beta gamma ss ws))
                  (sym (f.add_assoc (s ⊗ beta) w gamma)))))

  sigma_loop_again-product :
      (pre pre' ss ws : List A) (s_last w_last beta gamma : A) (i : ℕ) (acc : A)
      → i ≡ length pre
      → i ≡ length pre'
      → length ss ≡ length ws
      → sigma_loop_again
          (pre ++ (ss ++ (s_last ∷ [])))
          (pre' ++ (ws ++ (w_last ∷ [])))
          beta
          gamma
          (length ss)
          i
          acc
        ≡ ok (acc ⊗ sigma_product beta gamma ss ws)
  unfolding sigma_loop_again
  sigma_loop_again-product pre pre' [] ws s_last w_last beta gamma i acc h h' e =
      ap ok (sym (mul-one acc))
  sigma_loop_again-product pre pre' (s ∷ ss) [] s_last w_last beta gamma i acc h h' e =
      absurd (omega arith)
  sigma_loop_again-product pre pre' (s ∷ ss) (w ∷ ws) s_last w_last beta gamma i acc h h' e =
      rw (sigma_loop_again, index-append pre s (ss ++ (s_last ∷ [])) i h)
        (rw (index-append pre' w (ws ++ (w_last ∷ [])) i h') (
          ap₂
            (λ ls lw.
              sigma_loop_again ls lw beta gamma (length ss) (suc i)
                (acc ⊗ ((s ⊗ beta ⊕ w) ⊕ gamma)))
            (sym (append_assoc pre (s ∷ []) _)) (sym (append_assoc pre' (w ∷ []) _))
          ∙ sigma_loop_again-product (pre ++ (s ∷ [])) (pre' ++ (w ∷ [])) ss ws s_last w_last beta
              gamma (suc i) _ (omega (arith, length-append pre (s ∷ [])))
              (omega (arith, length-append pre' (w ∷ []))) (omega arith)
          ∙ ap ok (f.mul_assoc acc _ _)))

  sigma_product-last :
      (ss ws : List A) (s w beta gamma : A)
      → length ss ≡ length ws
      → sigma_product beta gamma (ss ++ (s ∷ [])) (ws ++ (w ∷ []))
        ≡ sigma_product beta gamma ss ws ⊗ ((s ⊗ beta ⊕ w) ⊕ gamma)
  sigma_product-last [] [] s w beta gamma e = mul-one _ ∙ sym (f.one-mul _)
  sigma_product-last [] (v ∷ ws) s w beta gamma e = absurd (omega arith)
  sigma_product-last (r ∷ ss) [] s w beta gamma e = absurd (omega arith)
  sigma_product-last (r ∷ ss) (v ∷ ws) s w beta gamma e =
      ap (λ t. ((r ⊗ beta ⊕ v) ⊕ gamma) ⊗ t) (sigma_product-last ss ws s w beta gamma (omega arith))
      ∙ sym (f.mul_assoc _ _ _)

  -- The last factor, added by parts 1 and 4 in two pieces.
  two_pieces :
      (p z alpha beta gamma w s : A)
      → f.neg (((p ⊗ (w ⊕ gamma)) ⊗ z) ⊗ alpha) ⊕ (f.neg ((p ⊗ z) ⊗ alpha) ⊗ beta) ⊗ s
        ≡ f.neg (alpha ⊗ ((p ⊗ ((s ⊗ beta ⊕ w) ⊕ gamma)) ⊗ z))
  two_pieces p z alpha beta gamma w s =
      ap₂ (λ a b. f.neg a ⊕ b) (factored (w ⊕ gamma))
        (ap (λ t. t ⊗ s) (neg-mul x beta)
          ∙ neg-mul (x ⊗ beta) s
          ∙ ap f.neg (f.mul_assoc x beta s ∙ ap (λ t. x ⊗ t) (f.mul_comm beta s)))
      ∙ sym (neg-add (x ⊗ (w ⊕ gamma)) (x ⊗ (s ⊗ beta)))
      ∙ ap f.neg (
          sym (f.mul-add x (w ⊕ gamma) (s ⊗ beta))
          ∙ ap (λ t. x ⊗ t)
              (f.add_comm (w ⊕ gamma) (s ⊗ beta) ∙ sym (f.add_assoc (s ⊗ beta) w gamma))
          ∙ sym (factored ((s ⊗ beta ⊕ w) ⊕ gamma))
          ∙ f.mul_comm _ alpha)
    where
      x : A
      x = (p ⊗ z) ⊗ alpha

      factored : (c : A) → ((p ⊗ c) ⊗ z) ⊗ alpha ≡ x ⊗ c
      factored c = ap (λ t. t ⊗ alpha) (mul_right_comm p c z) ∙ mul_right_comm (p ⊗ z) c alpha

  rearranged : (p m n j k : A) → ((p ⊕ m) ⊕ n) ⊕ (j ⊕ k) ≡ (j ⊕ n) ⊕ (p ⊕ (k ⊕ m))
  rearranged p m n j k =
      ap (λ t. ((p ⊕ m) ⊕ n) ⊕ t) (f.add_comm j k)
      ∙ add_interchange (p ⊕ m) n k j
      ∙ f.add_comm _ _
      ∙ ap₂ (λ a b. a ⊕ b) (f.add_comm n j) (f.add_assoc p m k ∙ ap (λ t. p ⊕ t) (f.add_comm m k))

  -- The five parts of the source, put together.
  assembled :
      (q p t sc v ids alpha ze : A) (n : A)
      → f.neg sc ⊕ v ≡ n
      → ((q ⊕ ((p ⊖ t) ⊖ sc)) ⊕ v) ⊕ (ids ⊗ alpha ⊕ t) ⊗ ze
        ≡ q ⊕ ((alpha ⊗ (ids ⊗ ze) ⊕ n) ⊕ (p ⊕ t ⊗ (ze ⊖ f.one)))
  assembled q p t sc v ids alpha ze n h =
      ap (λ x. x ⊕ (ids ⊗ alpha ⊕ t) ⊗ ze)
        (f.add_assoc q _ v
          ∙ ap (λ x. q ⊕ x) (f.add_assoc (p ⊖ t) (f.neg sc) v ∙ ap (λ x. (p ⊖ t) ⊕ x) h))
      ∙ f.add_assoc q _ _
      ∙ ap (λ x. q ⊕ x)
          (ap (λ x. ((p ⊖ t) ⊕ n) ⊕ x)
              (f.mul_comm _ ze
                ∙ f.mul-add ze (ids ⊗ alpha) t
                ∙ ap₂ (λ a b. a ⊕ b) first (f.mul_comm ze t))
            ∙ rearranged p (f.neg t) n (alpha ⊗ (ids ⊗ ze)) (t ⊗ ze)
            ∙ ap (λ x. (alpha ⊗ (ids ⊗ ze) ⊕ n) ⊕ (p ⊕ x))
                (ap (λ x. t ⊗ ze ⊖ x) (sym (mul-one t)) ∙ sym (mul-sub t ze f.one)))
    where
      first : ze ⊗ (ids ⊗ alpha) ≡ alpha ⊗ (ids ⊗ ze)
      first = f.mul_comm ze _ ∙ ap (λ x. x ⊗ ze) (f.mul_comm ids alpha) ∙ f.mul_assoc alpha ids ze

  -- With one sigma and one wire evaluation for each of the program's wires, of which there is at least
  -- one, and with the divisions for the Lagrange polynomials, the delta and the identity product
  -- succeeding, the quotient numerator grows by
  --   alpha * (identities * z - sigmas * z_omega)
  --   + alpha ^ 2 * (z_omega - delta) * l_end + alpha ^ 3 * l_start * (z - 1),
  -- `sigmas` the product over all the wires, and `alpha ^ 4` is returned.
  pub contribution_lem :
      (coset_generator : ℕ → A) (external : A) (num_roots : ℕ) (key : VerificationKey A)
      (e : Evaluations A) (alpha quotient : A) (idpolys : Bool) (ss ws : List A) (s_last w_last : A)
      {l_start l_end delta ids : A}
      → e.sigma_evaluations ≡ ss ++ (s_last ∷ [])
      → e.wire_evaluations ≡ ws ++ (w_last ∷ [])
      → length ss ≡ length ws
      → key.program_width ≡ suc (length ss)
      → divide (l_numerator key) (e.z ⊖ f.one) ≡ ok l_start
      → divide (l_numerator key) (e.z ⊗ l_end_root num_roots key.root ⊖ f.one) ≡ ok l_end
      → compute_public_input_delta
          (coset_generator 0)
          external
          e.public_inputs
          e.beta
          e.gamma
          key.root
        ≡ ok delta
      → identity_loop (identity_term idpolys coset_generator e) e.gamma e.wire_evaluations 0 f.one
        ≡ ok ids
      → contribution coset_generator external num_roots key e alpha quotient idpolys
        ≡ ok (
          quotient
              ⊕ ((alpha ⊗ (ids ⊗ e.z_eval)
                    ⊖ alpha
                      ⊗ (sigma_product e.beta e.gamma e.sigma_evaluations e.wire_evaluations
                          ⊗ e.z_1_shifted_eval))
                  ⊕ (((e.z_1_shifted_eval ⊖ delta) ⊗ l_end) ⊗ (alpha ⊗ alpha)
                      ⊕ (l_start ⊗ ((alpha ⊗ alpha) ⊗ alpha)) ⊗ (e.z_eval ⊖ f.one))),
          (alpha ⊗ alpha) ⊗ (alpha ⊗ alpha),
        )
  unfolding contribution
  contribution_lem k external num_roots key e alpha quotient idpolys ss ws s_last w_last {l_start}
        {l_end} {delta} {ids} hs hw same width h1 h2 h3 h4 =
      rw (h1, h2, h3, nonempty, first_loop, last_wire, second_loop, last_sigma, all_wires, h4)
        (ap (λ r. ok (r, (alpha ⊗ alpha) ⊗ (alpha ⊗ alpha)))
          (assembled quotient _ (l_start ⊗ ((alpha ⊗ alpha) ⊗ alpha)) _ _ ids alpha e.z_eval _ (
            two_pieces product e.z_1_shifted_eval alpha e.beta e.gamma w_last s_last
            ∙ ap (λ t. f.neg (alpha ⊗ (t ⊗ e.z_1_shifted_eval))) whole)))
    where
      product : A
      product = sigma_product e.beta e.gamma ss ws

      before_last : key.program_width - 1 ≡ length ss
      before_last = omega arith

      nonempty : (key.program_width == 0) ≡ false
      nonempty = ground arith

      first_loop :
          sigma_loop e.sigma_evaluations e.wire_evaluations e.beta e.gamma
            (key.program_width - 1)
            0
            f.one
          ≡ ok product
      first_loop =
          ap (λ n. sigma_loop e.sigma_evaluations e.wire_evaluations e.beta e.gamma n 0 f.one)
            before_last
          ∙ ap₂ (λ a b. sigma_loop a b e.beta e.gamma (length ss) 0 f.one) hs hw
          ∙ sigma_loop-product [] [] ss ws s_last w_last e.beta e.gamma 0 f.one refl refl same
          ∙ ap ok (f.one-mul product)

      second_loop :
          sigma_loop_again e.sigma_evaluations e.wire_evaluations e.beta e.gamma
            (key.program_width - 1)
            0
            f.one
          ≡ ok product
      second_loop =
          ap (λ n. sigma_loop_again e.sigma_evaluations e.wire_evaluations e.beta e.gamma n 0 f.one)
            before_last
          ∙ ap₂ (λ a b. sigma_loop_again a b e.beta e.gamma (length ss) 0 f.one) hs hw
          ∙ sigma_loop_again-product [] [] ss ws s_last w_last e.beta e.gamma 0 f.one refl refl same
          ∙ ap ok (f.one-mul product)

      last_wire : index e.wire_evaluations (key.program_width - 1) ≡ ok w_last
      last_wire = ap₂ index hw (before_last ∙ same) ∙ index-append ws w_last [] (length ws) refl

      last_sigma : index e.sigma_evaluations (key.program_width - 1) ≡ ok s_last
      last_sigma = ap₂ index hs before_last ∙ index-append ss s_last [] (length ss) refl

      all_wires : take key.program_width e.wire_evaluations ≡ e.wire_evaluations
      all_wires =
          take_all key.program_width e.wire_evaluations
            (omega (arith, ap length hw, length-append ws (w_last ∷ [])))

      whole :
          product ⊗ ((s_last ⊗ e.beta ⊕ w_last) ⊕ e.gamma)
          ≡ sigma_product e.beta e.gamma e.sigma_evaluations e.wire_evaluations
      whole =
          sym (sigma_product-last ss ws s_last w_last e.beta e.gamma same)
          ∙ sym (ap₂ (sigma_product e.beta e.gamma) hs hw)
