-- ===== src/Widgets/Gate.antt =====
-- The arithmetic kernel: its linear terms, the scalars of its openings, and what it does over the
-- verifier's getter.
use Prim.Native.String.{String}
use barustenberg.Prelude.{
  ℕ, ◌≡◌, ◌≢◌, refl, List, ◌∷◌, ok, panic, index, replicate, Option, none, some,
}
use barustenberg.Prelude.Maps.{lookup, insert, index_map, same_name_ne}
use barustenberg.Field.{Field, ◌⊕◌, ◌⊗◌}
use barustenberg.Program.{non_shifted, w1, w2, w3, from_usize, as_usize, by_number}
use barustenberg.Widgets.{ChallengeArray, evaluation_get_value}
use barustenberg.Widgets.Transition.{
  Reader, default_coefficients, arithmetic_linear_terms, arithmetic_opening_scalars,
}

module _ {ℓ} {A : Type ℓ} ⦃f : Field A⦄ where
  abbrev pub gate_terms : A → A → A → List A
  gate_terms a b c = a ⊗ b ∷ a ∷ b ∷ c ∷ replicate 33 f.zero

  -- From the three wires at a point the kernel computes their terms, with zeros behind them. From scalars
  -- for the five selectors it then makes those with alpha times the terms added: the product of the
  -- first two wires for `Q_M`, the wires for `Q_1` to `Q_3`, and one for `Q_C`. The other scalars stay.
  pub gate_lem :
      (reader : Reader A) (challenges : ChallengeArray A) (scalars : List (String × A)) (i : ℕ)
      (a b c α m1 s1 s2 s3 sc : A)
      → reader non_shifted w1 (some i) ≡ ok a
      → reader non_shifted w2 (some i) ≡ ok b
      → reader non_shifted w3 (some i) ≡ ok c
      → index challenges.alpha_powers 0 ≡ ok α
      → lookup "Q_M" scalars ≡ some m1
      → lookup "Q_1" scalars ≡ some s1
      → lookup "Q_2" scalars ≡ some s2
      → lookup "Q_3" scalars ≡ some s3
      → lookup "Q_C" scalars ≡ some sc
      → (arithmetic_linear_terms reader challenges default_coefficients (some i)
          ≡ ok (gate_terms a b c))
        × (scalars' : List (String × A)) × (arithmetic_opening_scalars
              (gate_terms a b c)
              scalars
              challenges
            ≡ ok scalars')
        × (lookup "Q_M" scalars' ≡ some (m1 ⊕ (a ⊗ b) ⊗ α))
        × (lookup "Q_1" scalars' ≡ some (s1 ⊕ a ⊗ α))
        × (lookup "Q_2" scalars' ≡ some (s2 ⊕ b ⊗ α))
        × (lookup "Q_3" scalars' ≡ some (s3 ⊕ c ⊗ α))
        × (lookup "Q_C" scalars' ≡ some (sc ⊕ α))
        × ((name : String)
            → "Q_M" ≢ name
            → "Q_1" ≢ name
            → "Q_2" ≢ name
            → "Q_3" ≢ name
            → "Q_C" ≢ name
            → lookup name scalars' ≡ lookup name scalars)
  unfolding arithmetic_linear_terms arithmetic_opening_scalars from_usize by_number as_usize
  gate_lem reader challenges scalars i a b c α m1 s1 s2 s3 sc ha hb hc hα hM h1 h2 h3 hC = (
    rw (ha, hb, hc) refl,
    insert "Q_C" (sc ⊕ α) (
        insert "Q_3" (s3 ⊕ c ⊗ α) (
          insert "Q_2" (s2 ⊕ b ⊗ α)
            (insert "Q_1" (s1 ⊕ a ⊗ α) (insert "Q_M" (m1 ⊕ (a ⊗ b) ⊗ α) scalars)))),
    rw (hα, index_map, hM)
        (rw (index_map, h1) (rw (index_map, h2) (rw (index_map, h3) (rw (index_map, hC) refl)))),
    refl,
    refl,
    refl,
    refl,
    refl,
    λ name n0 n1 n2 n3 n4.
        rw
          (
            same_name_ne "Q_C" name n4,
            same_name_ne "Q_3" name n3,
            same_name_ne "Q_2" name n2,
            same_name_ne "Q_1" name n1,
            same_name_ne "Q_M" name n0,
          )
          refl,
  )

  -- Over the verifier's getter the kernel panics at whatever index it is asked for.
  pub evaluation_linear_terms_panic :
      (polynomials : List (A × A)) (challenges : ChallengeArray A) (linear_terms : List A)
      (idx : Option ℕ)
      → arithmetic_linear_terms (evaluation_get_value polynomials) challenges linear_terms idx
        ≡ panic
  unfolding arithmetic_linear_terms evaluation_get_value
  evaluation_linear_terms_panic polynomials challenges linear_terms none = refl
  evaluation_linear_terms_panic polynomials challenges linear_terms (some i) = refl
