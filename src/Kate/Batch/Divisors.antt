-- ===== src/Kate/Batch/Divisors.antt =====
-- The divisors of `generic_batch_open`: the negated points, inverted.
use barustenberg.Prelude.{
  ℕ, zero, suc, ◌<◌, ◌≡◌, ◌≢◌, refl, sym, ap, ap₂, ◌∙◌, List, [], ◌∷◌, ◌++◌, map, length, arith,
  get_or, replicate, ok, Option-cases, inl, inr, append_assoc, length-append,
}
use barustenberg.Prelude.Slices.{index-append, assign-append}
use barustenberg.Field.{Field, ◌⊗◌, invert}
use barustenberg.Field.Laws.{neg-neg, neg-zero}
use barustenberg.Kate.{negated, inverted}

module _ {ℓ} {A : Type ℓ} ⦃f : Field A⦄ where
  pub negated-map :
      (done zs before : List A) (i : ℕ)
      → i ≡ length done
      → i ≡ length before
      → negated (length zs) i (done ++ zs) (before ++ replicate (length zs) f.zero)
        ≡ ok (before ++ map f.neg zs)
  unfolding negated
  negated-map done [] before i h h' = refl
  negated-map done (z ∷ zs) before i h h' =
      rw (negated, index-append done z zs i h)
        (rw (assign-append before f.zero (replicate (length zs) f.zero) i (f.neg z) h') (
          ap₂ (negated (length zs) (suc i)) (sym (append_assoc done (z ∷ []) zs))
            (sym (append_assoc before (f.neg z ∷ []) _))
          ∙ negated-map (done ++ (z ∷ [])) zs (before ++ (f.neg z ∷ [])) (suc i)
              (omega (arith, length-append done (z ∷ [])))
              (omega (arith, length-append before (f.neg z ∷ [])))
          ∙ ap ok (append_assoc before (f.neg z ∷ []) (map f.neg zs))))

  abbrev pub AreNonzero : List A → Type ℓ
  AreNonzero [] = Unit
  AreNonzero (z ∷ zs) = (z ≢ f.zero) × AreNonzero zs

  neg_ne_zero : (z : A) → z ≢ f.zero → f.neg z ≢ f.zero
  neg_ne_zero z h e = h (sym (neg-neg z) ∙ ap f.neg e ∙ neg-zero)

  -- Nonzero points have divisors.
  pub inverted-map :
      (zs : List A)
      → AreNonzero zs
      → (ds : List A) × (inverted (map f.neg zs) ≡ ok ds)
        × (length ds ≡ length zs)
        × ((i : ℕ) → i < length zs → f.neg (get_or zs i f.zero) ⊗ get_or ds i f.zero ≡ f.one)
  unfolding inverted
  inverted-map [] h = ([], refl, refl, λ i l. absurd (omega arith))
  inverted-map (z ∷ zs) (h, hs) =
      let (ds, run, len, units) = inverted-map zs hs in
      elim (Option-cases (f.inverse (f.neg z))) [
        | inl e ↦ absurd (neg_ne_zero z h (f.inverse-none (f.neg z) e))
        | inr (d, e) ↦ (
          d ∷ ds,
          rw (inverted, map, invert, e) (rw run refl),
          ap suc len,
          λ i l. each d ds (f.inverse-some (f.neg z) d e) units i l,
        )
      ]
    where
      each :
          (d : A) (ds : List A)
          → f.neg z ⊗ d ≡ f.one
          → ((i : ℕ) → i < length zs → f.neg (get_or zs i f.zero) ⊗ get_or ds i f.zero ≡ f.one)
          → (i : ℕ) → i < suc (length zs)
          → f.neg (get_or (z ∷ zs) i f.zero) ⊗ get_or (d ∷ ds) i f.zero ≡ f.one
      each d ds u units zero l = u
      each d ds u units (suc i) l = units i (omega arith)
