-- ===== src/Widgets/Fft.antt =====
-- `get_polynomials` and `get_value` of the getter of the coset transforms.
use Prim.Native.String
use Prim.Native.String.{String}
use barustenberg.Prelude.{
  ℕ, ◌+◌, ◌-◌, ◌%◌, ◌^◌, ◌≡◌, refl, ap, ◌∙◌, List, [], ◌∷◌, ◌++◌, arith, ok, index, some, Bool,
  true, false, Bool-cases, inl, inr, ◌||◌,
}
use native.Mathlib.Nat.{one-le-pow}
use barustenberg.Prelude.Masks.{bit_and-mask}
use barustenberg.Numeric.{pred_usize-pos, Profile}
use barustenberg.Polynomials.{Polynomial}
use barustenberg.Storage.{PolynomialStore, get, deref}
use barustenberg.Program.{PolynomialIndex, PolynomialDescriptor, non_shifted, shifted}
use barustenberg.Field.{Field}
use barustenberg.Widgets.{
  PolyPtrMap, same_index, is_required, find_pointer, collect_pointers, get_polynomials,
  fft_get_value,
}

same_index_refl : (i : PolynomialIndex) → same_index i i ≡ true
same_index_refl i = ground arith

abbrev pub fft_label : PolynomialDescriptor → String
fft_label d = String.◌++◌ d.polynomial_label "_fft"

-- A descriptor of the list has this index.
abbrev pub mentions : PolynomialIndex → List PolynomialDescriptor → Bool
mentions i [] = false
mentions i (d ∷ ds) = same_index d.polynomial_index i || mentions i ds

module _ {ℓ} {A : Type ℓ} where
  -- The store has a transform of every polynomial that is required.
  abbrev pub AllFound :
      PolynomialStore A → List PolynomialIndex → List PolynomialDescriptor → Type 0
  AllFound store required [] = Unit
  AllFound store required (d ∷ ds) =
      (is_required d.polynomial_index required ≡ true
        → (cell : ℕ) × (get store (fft_label d) ≡ ok cell))
      × AllFound store required ds

module _ {ℓ} {A : Type ℓ} ⦃f : Field A⦄ (store : PolynomialStore A)
    (required : List PolynomialIndex) where
  -- What one descriptor adds.
  collect_one :
      (d : PolynomialDescriptor) (ds : List PolynomialDescriptor) (m : List (PolynomialIndex × ℕ))
      → (is_required d.polynomial_index required ≡ true
          → (cell : ℕ) × (get store (fft_label d) ≡ ok cell))
      → (m' : List (PolynomialIndex × ℕ)) × (collect_pointers store required (d ∷ ds) m
          ≡ collect_pointers store required ds m')
        × ((i : PolynomialIndex)
            → same_index d.polynomial_index i ≡ false
            → find_pointer i m' ≡ find_pointer i m)
  unfolding collect_pointers
  collect_one d ds m h = elim (Bool-cases (is_required d.polynomial_index required)) [
    | inl e ↦
        let (cell, c) = h e in
        ((d.polynomial_index, cell) ∷ m, rw (collect_pointers, e) (rw c refl), λ i n. rw n refl)
    | inr e ↦ (m, rw (collect_pointers, e) refl, λ i n. refl)
  ]

  pub collect_pointers-after :
      (ds : List PolynomialDescriptor) (m : List (PolynomialIndex × ℕ))
      → AllFound store required ds
      → (m' : List (PolynomialIndex × ℕ)) × (collect_pointers store required ds m ≡ ok m')
        × ((i : PolynomialIndex) → mentions i ds ≡ false → find_pointer i m' ≡ find_pointer i m)
  unfolding collect_pointers
  collect_pointers-after [] m h = (m, refl, λ i n. refl)
  collect_pointers-after (d ∷ ds) m (h, hs) =
      let (m1, run1, keep1) = collect_one d ds m h in
      let (m2, run2, keep2) = collect_pointers-after ds m1 hs in
      (
        m2,
        run1 ∙ run2,
        λ i n.
            keep2 i (second (same_index d.polynomial_index i) _ n)
            ∙ keep1 i (first (same_index d.polynomial_index i) _ n),
      )
    where
      first : (a b : Bool) → (a || b) ≡ false → a ≡ false
      first true b h = h
      first false b h = refl

      second : (a b : Bool) → (a || b) ≡ false → b ≡ false
      second true b h = cc
      second false b h = h

  pub collect_pointers-found :
      (before after : List PolynomialDescriptor) (d : PolynomialDescriptor)
      (m : List (PolynomialIndex × ℕ)) (cell : ℕ)
      → AllFound store required (before ++ (d ∷ after))
      → is_required d.polynomial_index required ≡ true
      → mentions d.polynomial_index after ≡ false
      → get store (fft_label d) ≡ ok cell
      → (m' : List (PolynomialIndex × ℕ)) × (collect_pointers store required
            (before ++ (d ∷ after))
            m
          ≡ ok m')
        × (find_pointer d.polynomial_index m' ≡ some cell)
  unfolding collect_pointers
  collect_pointers-found [] after d m cell (h, hs) e n c =
      let (m', run, keep) = collect_pointers-after after ((d.polynomial_index, cell) ∷ m) hs in
      (
        m',
        rw (collect_pointers, e) (rw c run),
        keep d.polynomial_index n ∙ rw (same_index_refl d.polynomial_index) refl,
      )
  collect_pointers-found (b ∷ before) after d m cell (h, hs) e n c =
      let (m1, run1, keep1) = collect_one b (before ++ (d ∷ after)) m h in
      let (m2, run2, found) = collect_pointers-found before after d m1 cell hs e n c in
      (m2, run1 ∙ run2, found)

-- With a transform in the store for every required polynomial and a domain of `2 ^ k` points,
-- `get_polynomials` succeeds. Through its result a required polynomial, at the last descriptor of its
-- index, reads as the coefficient of its transform at the index, and shifted at four places on, around
-- the end of the domain.
pub get_polynomials_lem {ℓ} :
    {A : Type ℓ} ⦃f : Field A⦄ (p : Profile) (k : ℕ) (store : PolynomialStore A)
    (required : List PolynomialIndex) (before after : List PolynomialDescriptor)
    (d : PolynomialDescriptor) (cell : ℕ) (poly : Polynomial A)
    → AllFound store required (before ++ (d ∷ after))
    → is_required d.polynomial_index required ≡ true
    → mentions d.polynomial_index after ≡ false
    → get store (fft_label d) ≡ ok cell
    → deref store cell ≡ ok poly
    → (polynomials : PolyPtrMap) × (get_polynomials p (2 ^ k) (before ++ (d ∷ after)) store required
        ≡ ok polynomials)
      × ((i : ℕ)
          → fft_get_value store polynomials non_shifted d.polynomial_index (some i)
            ≡ index poly.coefficients i)
      × ((i : ℕ)
          → fft_get_value store polynomials shifted d.polynomial_index (some i)
            ≡ index poly.coefficients ((i + 4) % 2 ^ k))
unfolding get_polynomials fft_get_value
get_polynomials_lem p k store required before after d cell poly h e n c r =
    let (m, run, found) = collect_pointers-found store required before after d [] cell h e n c in
    (
      record { coefficients = m; block_mask = 2 ^ k - 1; index_shift = 4 },
      rw (pred_usize-pos p (2 ^ k) (omega (arith, one-le-pow k 2))) (rw run refl),
      λ i. rw (fft_get_value, found) (rw r refl),
      λ i. rw (fft_get_value, found) (rw r (ap (index poly.coefficients) (bit_and-mask k (i + 4)))),
    )
