-- ===== src/Prover/Quotient.antt =====
-- What `compute_quotient_evaluation` adds to the transcript.
use barustenberg.Prelude.{
  ℕ, zero, suc, ◌-◌, ◌*◌, ◌<◌, ◌≤◌, ◌≡◌, refl, sym, ap, ap₂, ◌∙◌, List, [], ◌∷◌, ok, length, arith,
  Option, if◌then◌else◌, ◌==◌, take_all, get_or, ◌⊎◌, inl, inr,
}
use barustenberg.Prelude.Slices.{index-get_or}
use barustenberg.Numeric.{Profile}
use barustenberg.Field.{Field, ◌⊕◌, ◌⊗◌}
use barustenberg.Field.Laws.{mul-zero, add-zero}
use barustenberg.Polynomials.Evaluation.{eval}
use barustenberg.Polynomials.Evaluate.{compute_num_threads, evaluate-eval}
use barustenberg.Prover.{add_high, first_coefficient, quotient_evaluation}

module _ {ℓ} {A : Type ℓ} ⦃f : Field A⦄ where
  -- The entry of the part at `j` of degree `k`, zero where there is none.
  abbrev pub entry : (parts : List (List A)) (j k : ℕ) → A
  entry parts j k = get_or (get_or parts j []) k f.zero

  -- The entries of degree `n` of the parts from `j` on.
  abbrev pub high_entries : (parts : List (List A)) (n count j : ℕ) → List A
  high_entries parts n zero j = []
  high_entries parts n (suc count) j = entry parts j n ∷ high_entries parts n count (suc j)

  -- The parts from the `j`-th on hold an entry of degree `n`.
  HasDegree : (parts : List (List A)) (n count j : ℕ) → Type 0
  HasDegree parts n zero j = Unit
  HasDegree parts n (suc count) j =
      (j < length parts) × (n < length (get_or parts j [])) × HasDegree parts n count (suc j)

  add_high-entries :
      (n : ℕ) (zn : A) (parts : List (List A)) (count j : ℕ) (t s : A)
      → HasDegree parts n count j
      → add_high n zn parts count j t s ≡ ok (t ⊕ s ⊗ eval (high_entries parts n count j) zn)
  unfolding add_high HasDegree
  add_high-entries n zn parts zero j t s h =
      ap ok (sym (add-zero t) ∙ ap (λ v. t ⊕ v) (sym (mul-zero s)))
  add_high-entries n zn parts (suc count) j t s (hj, hn, h) =
      rw (add_high, index-get_or parts j [] hj)
        (rw (index-get_or (get_or parts j []) n f.zero hn) (
          add_high-entries n zn parts count (suc j) _ _ h
          ∙ ap ok (
              f.add_assoc t _ _
              ∙ ap (λ v. t ⊕ v)
                  (ap₂ (λ a b. a ⊕ b) (f.mul_comm _ s) (f.mul_assoc s zn _)
                    ∙ sym (f.mul-add s _ _)))))

  -- For a program of three or four wires with a positive circuit size and three parts that have a
  -- coefficient of degree `n`, and if the number of threads can be computed, the value is that of the
  -- polynomial whose coefficients are the first ones of the four parts, plus the parts' coefficients
  -- of degree `n`, each by its power of `zeta ^ n`. No other coefficient counts.
  pub quotient_evaluation_lem :
      (p : Profile) (system : Option ℕ) (program_width circuit_size n : ℕ) (c0 c1 c2 c3 : A)
      (r0 r1 r2 r3 : List A) (zeta : A) {t : ℕ}
      → (program_width ≡ 3) ⊎ (program_width ≡ 4)
      → 0 < circuit_size
      → n ≤ length r0
      → n ≤ length r1
      → n ≤ length r2
      → compute_num_threads p system ≡ ok t
      → let parts = (c0 ∷ r0) ∷ (c1 ∷ r1) ∷ (c2 ∷ r2) ∷ (c3 ∷ r3) ∷ [] in
        quotient_evaluation p system program_width circuit_size n parts zeta
        ≡ ok (
            eval (c0 ∷ c1 ∷ c2 ∷ c3 ∷ []) zeta
            ⊕ f.pow zeta n
              ⊗ eval (entry parts 0 n ∷ entry parts 1 n ∷ entry parts 2 n ∷ []) (f.pow zeta n))
  unfolding quotient_evaluation first_coefficient HasDegree
  quotient_evaluation_lem p system program_width circuit_size n c0 c1 c2 c3 r0 r1 r2 r3 zeta width
        pos h0 h1 h2 ht =
      rw (evaluate-eval p system (c0 ∷ c1 ∷ c2 ∷ c3 ∷ []) zeta (4 * circuit_size) ht) (
        rw (take_all (4 * circuit_size) (c0 ∷ c1 ∷ c2 ∷ c3 ∷ []) (omega arith)) (
          ap
            (λ k.
              add_high n (f.pow zeta n) parts k 0 (eval (c0 ∷ c1 ∷ c2 ∷ c3 ∷ []) zeta)
                (f.pow zeta n))
            (three width)
          ∙ add_high-entries n (f.pow zeta n) parts 3 0 _ _ (
            omega arith,
            omega arith,
            (omega arith, omega arith, (omega arith, omega arith, tt)),
          )))
    where
      parts : List (List A)
      parts = (c0 ∷ r0) ∷ (c1 ∷ r1) ∷ (c2 ∷ r2) ∷ (c3 ∷ r3) ∷ []

      three :
          (program_width ≡ 3) ⊎ (program_width ≡ 4)
          → (if program_width == 3 then program_width else program_width - 1) ≡ 3
      three (inl e) = rw e refl
      three (inr e) = rw e refl
