-- ===== src/Composer/Refinement.antt =====
-- The composer of composer_base.rs implements the circuit: every sequence of permitted calls leaves it
-- valid and reading as the circuit does.
use barustenberg.Prelude.{
  ℕ, suc, ◌+◌, ◌<◌, ◌≤◌, ◌^◌, ◌≡◌, refl, sym, ap, ◌∙◌, List, [], ◌∷◌, ◌++◌, ok, index, length, set,
  some, true, arith, lt→ltb, length-append, length-set, ℕ_discrete,
}
use barustenberg.Prelude.Slices.{
  AllBelow-set, index-append, index-append_left, index-ok, index-set_self, index-set_ne,
}
use barustenberg.Numeric.{Profile}
use barustenberg.Composer.{
  ComposerBase, default, real_variable, get_variable, add_public_variable, set_public_input,
  update_real_variable_indices, is_not_among,
}
use barustenberg.Composer.Classes.{relabel-chain}
use barustenberg.Composer.Validity.{
  IsValid, added, add_variable-added, added-IsValid, default-IsValid, read_new, read_old,
}
use barustenberg.Composer.PublicInputs.{with_public}
use barustenberg.Composer.Circuit.{
  Call, variable, public_variable, public_input, merge, Circuit, empty_circuit, step, steps,
  IsPermitted, ArePermitted, perform, run,
}

module _ {ℓ} {A : Type ℓ} where
  -- No variable has been linked to another: the source has no operation that would.
  pub record Refines (c : ComposerBase A) (s : Circuit A) : Type ℓ where
    pub valid : IsValid c
    pub created_eq : c.variables ≡ s.created
    pub current_length : length s.current ≡ length c.variables
    pub reads : (k : ℕ) → k < length c.variables → get_variable c k ≡ index s.current k
    pub publics_eq : c.public_inputs ≡ s.publics
    pub unlinked : (k : ℕ) → k < length c.variables → index c.next_var_index k ≡ ok real_variable

  pub empty-Refines : Refines default empty_circuit
  unfolding default
  empty-Refines = record {
    valid = default-IsValid;
    created_eq = refl;
    current_length = refl;
    reads = λ k h. absurd (omega arith);
    publics_eq = refl;
    unlinked = λ k h. absurd (omega arith);
  }

  added-Refines :
      (c : ComposerBase A) (s : Circuit A) (v : A)
      → Refines c s
      → length c.variables + 1 < 2 ^ 32
      → Refines (added c v) (step (variable v) s)
  added-Refines c s v r h = record {
    valid = added-IsValid c v r.valid h;
    created_eq = ap (λ xs. xs ++ (v ∷ [])) r.created_eq;
    current_length = omega (arith, r.current_length, length-append s.current (v ∷ []), longer);
    reads = reads;
    publics_eq = r.publics_eq;
    unlinked = unlinked;
  }
    where
      longer : length (c.variables ++ (v ∷ [])) ≡ length c.variables + 1
      longer = length-append c.variables (v ∷ [])

      reads :
          (k : ℕ)
          → k < length (c.variables ++ (v ∷ []))
          → get_variable (added c v) k ≡ index (s.current ++ (v ∷ [])) k
      reads k b = elim (ℕ_discrete k (length c.variables)) [
        | yes e ↦
            ap (get_variable (added c v)) e
            ∙ read_new c v r.valid
            ∙ sym (index-append s.current v [] k (e ∙ sym r.current_length))
        | no n ↦
            let below : k < length c.variables = omega (arith, longer) in
            read_old c v r.valid k below
            ∙ r.reads k below
            ∙ sym (index-append_left s.current (v ∷ []) k (omega (arith, r.current_length)))
      ]

      unlinked :
          (k : ℕ)
          → k < length (c.variables ++ (v ∷ []))
          → index (c.next_var_index ++ (real_variable ∷ [])) k ≡ ok real_variable
      unlinked k b = elim (ℕ_discrete k (length c.variables)) [
        | yes e ↦ index-append c.next_var_index real_variable [] k (e ∙ sym r.valid.next_length)
        | no n ↦
            let below : k < length c.variables = omega (arith, longer) in
            index-append_left c.next_var_index (real_variable ∷ []) k
              (omega (arith, r.valid.next_length))
            ∙ r.unlinked k below
      ]

  public-Refines :
      (c : ComposerBase A) (s : Circuit A) (k : ℕ)
      → Refines c s
      → k < length c.variables
      → Refines
          (record c { public_inputs = c.public_inputs ++ (k ∷ []) })
          (record s { publics = s.publics ++ (k ∷ []) })
  unfolding get_variable
  public-Refines c s k r h = record {
    valid = with_public c k r.valid h;
    created_eq = r.created_eq;
    current_length = r.current_length;
    reads = r.reads;
    publics_eq = ap (λ ks. ks ++ (k ∷ [])) r.publics_eq;
    unlinked = r.unlinked;
  }

  merged_reads :
      (c : ComposerBase A) (s : Circuit A) (i j : ℕ) (v : A)
      → Refines c s
      → i < length c.variables
      → index c.variables j ≡ ok v
      → (k : ℕ) → k < length c.variables
      → get_variable (record c { real_variable_index = set c.real_variable_index i j }) k
        ≡ index (set s.current i v) k
  unfolding get_variable
  merged_reads c s i j v r bi e k b = elim (ℕ_discrete i k) [
    | yes q ↦
        rw
          (
            lt→ltb k (length c.variables) b,
            sym q,
            index-set_self c.real_variable_index i j (omega (arith, r.valid.real_length)),
            e,
          )
          (sym (index-set_self s.current i v (omega (arith, r.current_length))))
    | no n ↦
        rw (index-set_ne c.real_variable_index i k j n, index-set_ne s.current i k v n)
          (r.reads k b)
  ]

  merged-Refines :
      (c : ComposerBase A) (s : Circuit A) (i j : ℕ)
      → Refines c s
      → i < length c.variables
      → j < length c.variables
      → Refines
          (record c { real_variable_index = set c.real_variable_index i j })
          (step (merge i j) s)
  unfolding get_variable
  merged-Refines c s i j r bi bj =
      let (v, e) = index-ok c.variables j bj in
      let q : index s.created j ≡ ok v = ap (λ (xs : List A). index xs j) (sym r.created_eq) ∙ e in
      rw q (record {
        valid = record {
          next_length = r.valid.next_length;
          prev_length = r.valid.prev_length;
          real_length = length-set c.real_variable_index i j ∙ r.valid.real_length;
          tags_length = r.valid.tags_length;
          cycles_length = r.valid.cycles_length;
          real_below = AllBelow-set _ c.real_variable_index i j bj r.valid.real_below;
          public_below = r.valid.public_below;
          few = r.valid.few;
        };
        created_eq = r.created_eq;
        current_length = length-set s.current i v ∙ r.current_length;
        reads = merged_reads c s i j v r bi e;
        publics_eq = r.publics_eq;
        unlinked = r.unlinked;
      })

  public_call :
      (c : ComposerBase A) (s : Circuit A) (k : ℕ)
      → Refines c s
      → is_not_among k s.publics ≡ true
      → set_public_input c k ≡ ok (record c { public_inputs = c.public_inputs ++ (k ∷ []) })
  unfolding set_public_input
  public_call c s k r n = rw (set_public_input, ap (is_not_among k) r.publics_eq ∙ n) refl

  merge_call :
      (fuel : ℕ) (c : ComposerBase A) (s : Circuit A) (i j : ℕ)
      → Refines c s
      → i < length c.variables
      → update_real_variable_indices (suc fuel) c i j
        ≡ some (ok (record c { real_variable_index = set c.real_variable_index i j }))
  unfolding update_real_variable_indices
  merge_call fuel c s i j r b =
      rw
        (
          update_real_variable_indices,
          relabel-chain (suc fuel) c.next_var_index i [] j c.real_variable_index (r.unlinked i b)
              (omega (arith, r.valid.real_length), tt) (omega arith),
        )
        refl

  -- A permitted call succeeds on a composer as on the circuit.
  perform-Refines :
      (p : Profile) (fuel : ℕ) (x : Call A) (c : ComposerBase A) (s : Circuit A)
      → Refines c s
      → IsPermitted x s
      → length c.variables + 1 < 2 ^ 32
      → (c' : ComposerBase A) × (perform p (suc fuel) x c ≡ some (ok c')) × Refines c' (step x s)
  unfolding perform add_public_variable
  perform-Refines p fuel (variable v) c s r h few =
      (added c v, rw (add_variable-added p c v few) refl, added-Refines c s v r few)
  perform-Refines p fuel (public_variable v) c s r h few = (
    record (added c v) { public_inputs = c.public_inputs ++ (length c.variables ∷ []) },
    rw (add_variable-added p c v few) refl,
    rw (r.current_length) (
        public-Refines (added c v) (step (variable v) s) (length c.variables)
          (added-Refines c s v r few) (omega (arith, length-append c.variables (v ∷ [])))),
  )
  perform-Refines p fuel (public_input k) c s r (b, n) few = (
    record c { public_inputs = c.public_inputs ++ (k ∷ []) },
    ap some (public_call c s k r n),
    public-Refines c s k r (omega (arith, r.current_length)),
  )
  perform-Refines p fuel (merge i j) c s r (b, b') few = (
    record c { real_variable_index = set c.real_variable_index i j },
    merge_call fuel c s i j r (omega (arith, r.current_length)),
    merged-Refines c s i j r (omega (arith, r.current_length))
        (omega (arith, ap length r.created_eq)),
  )

  perform-length : (x : Call A) (s : Circuit A) → length (step x s).created ≤ length s.created + 1
  perform-length (variable v) s = omega (arith, length-append s.created (v ∷ []))
  perform-length (public_variable v) s = omega (arith, length-append s.created (v ∷ []))
  perform-length (public_input k) s = omega arith
  perform-length (merge i j) s = omega arith

  pub run-Refines :
      (p : Profile) (fuel : ℕ) (xs : List (Call A)) (c : ComposerBase A) (s : Circuit A)
      → Refines c s
      → ArePermitted xs s
      → length s.created + length xs < 2 ^ 32
      → (c' : ComposerBase A) × (run p (suc fuel) xs c ≡ some (ok c')) × Refines c' (steps xs s)
  unfolding run
  run-Refines p fuel [] c s r h few = (c, refl, r)
  run-Refines p fuel (x ∷ xs) c s r (h, hs) few =
      let (c1, run1, r1) =
        perform-Refines p fuel x c s r h (omega (arith, ap length r.created_eq)) in
      let (c2, run2, r2) =
        run-Refines p fuel xs c1 (step x s) r1 hs (omega (arith, perform-length x s)) in
      (c2, rw (run, run1) run2, r2)
