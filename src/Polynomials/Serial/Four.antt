-- ===== src/Polynomials/Serial/Four.antt =====
-- `fft_inner_serial` on four coefficients in one vector. The bit reversal writes one of the two values that
-- it is to swap.
use barustenberg.Prelude.{◌≡◌, refl, ap, ◌∙◌, List, [], ◌∷◌, ok, for_range, for_step}
use barustenberg.Numeric.{Profile, checked, wrapping, reverse_bits, get_msb64, is_power_of_two}
use barustenberg.Field.{Field, ◌⊕◌, ◌⊗◌, ◌⊖◌}
use barustenberg.Polynomials.Evaluation.{eval}
use barustenberg.Polynomials.Inplace.{read_at, write_at}
use barustenberg.Polynomials.Fft.Four.{values-four}
use barustenberg.Polynomials.Serial.{
  serial_swap, serial_pair, serial_first, serial_butterfly, serial_round, fft_inner_serial,
}

module _ {ℓ} {A : Type ℓ} ⦃f : Field A⦄ where
  swaps-four :
      (p : Profile) (a b c e : A)
      → for_range 5 0 (serial_swap p 2 2 4) ((a ∷ b ∷ c ∷ e ∷ []) ∷ [])
        ≡ ok ((a ∷ c ∷ c ∷ e ∷ []) ∷ [])
  unfolding for_range serial_swap read_at write_at reverse_bits
  swaps-four checked a b c e = refl
  swaps-four wrapping a b c e = refl

  serial_round-four :
      (p : Profile) (w u0 u1 u2 u3 : A) (rows : List (List A))
      → serial_round p 4 2 4 ((f.one ∷ w ∷ []) ∷ rows) 2 ((u0 ∷ u1 ∷ u2 ∷ u3 ∷ []) ∷ [])
        ≡ ok (((u0 ⊕ f.one ⊗ u2) ∷ (u1 ⊕ w ⊗ u3) ∷ (u0 ⊖ f.one ⊗ u2) ∷ (u1 ⊖ w ⊗ u3) ∷ []) ∷ [])
  unfolding serial_round serial_butterfly for_range for_step read_at write_at get_msb64
  serial_round-four checked w u0 u1 u2 u3 rows = refl
  serial_round-four wrapping w u0 u1 u2 u3 rows = refl

  serial_rounds-four :
      (p : Profile) (w a b c e : A) (rows : List (List A))
      → fft_inner_serial p ((a ∷ b ∷ c ∷ e ∷ []) ∷ []) 4 ((f.one ∷ w ∷ []) ∷ rows)
        ≡ ok (
            (((a ⊕ c) ⊕ f.one ⊗ (c ⊕ e))
              ∷ ((a ⊖ c) ⊕ w ⊗ (c ⊖ e))
              ∷ ((a ⊕ c) ⊖ f.one ⊗ (c ⊕ e))
              ∷ ((a ⊖ c) ⊖ w ⊗ (c ⊖ e))
              ∷ [])
            ∷ [])
  unfolding fft_inner_serial serial_first serial_pair for_step get_msb64 is_power_of_two
  serial_rounds-four checked w a b c e rows =
      rw (swaps-four checked a b c e)
        (rw (serial_round-four checked w (a ⊕ c) (a ⊖ c) (c ⊕ e) (c ⊖ e) rows) refl)
  serial_rounds-four wrapping w a b c e rows =
      rw (swaps-four wrapping a b c e)
        (rw (serial_round-four wrapping w (a ⊕ c) (a ⊖ c) (c ⊕ e) (c ⊖ e) rows) refl)

  -- On four coefficients in one vector, with a first row of the table that holds one and `w`, whose square is
  -- minus one, `fft_inner_serial` returns the values at the first four powers of `w` of the polynomial
  -- whose second coefficient is replaced by the third.
  pub fft_inner_serial_lem :
      (p : Profile) (w a b c e : A) (rows : List (List A))
      → w ⊗ w ≡ f.neg f.one
      → fft_inner_serial p ((a ∷ b ∷ c ∷ e ∷ []) ∷ []) 4 ((f.one ∷ w ∷ []) ∷ rows)
        ≡ ok (
            (eval (a ∷ c ∷ c ∷ e ∷ []) (f.pow w 0)
              ∷ eval (a ∷ c ∷ c ∷ e ∷ []) (f.pow w 1)
              ∷ eval (a ∷ c ∷ c ∷ e ∷ []) (f.pow w 2)
              ∷ eval (a ∷ c ∷ c ∷ e ∷ []) (f.pow w 3)
              ∷ [])
            ∷ [])
  fft_inner_serial_lem p w a b c e rows h =
      serial_rounds-four p w a b c e rows ∙ ap (λ t. ok (t ∷ [])) (values-four w a c c e h)
