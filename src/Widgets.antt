-- ===== src/Widgets.antt =====
-- barustenberg/src/plonk/proof_system/widgets/transition_widgets: containers.rs and getters.rs. The
-- random bytes of a missing challenge come from `draw`, which gives an element, if the bytes are one,
-- and the generator after it.
pub mod Transition
pub mod Challenges
pub mod Fft
pub mod Contribution
pub mod Gate
mod Tests
use Prim.Native.String
use Prim.Native.String.{String}
use barustenberg.Prelude.{
  ℕ, zero, suc, ◌+◌, ◌-◌, ◌^◌, List, [], ◌∷◌, Outcome, ok, err, panic, index, assign, assert, ◌>>=◌,
  ◌>>◌, if◌then◌else◌, ◌==◌, ltb, replicate, bit_and, Option, none, some, Bool, true, false, ◌||◌,
  not,
}
use barustenberg.Prelude.Bits.{shl}
use barustenberg.Numeric.{Profile, pred_usize}
use barustenberg.Field.{Field, ◌⊗◌}
use barustenberg.Polynomials.{Polynomial}
use barustenberg.Storage.{PolynomialStore, get, deref}
use barustenberg.Program.{
  EvaluationType, non_shifted, shifted, PolynomialIndex, PolynomialDescriptor, as_usize, from_usize,
  get_descriptor,
}
use barustenberg.Transcript.{
  Transcript, Codec, has_challenge, get_num_challenges, get_challenge_field_element,
  get_field_element,
}

pub data ChallengeIndex : Type 0 where
  alpha beta gamma eta zeta max_num_challenges : ChallengeIndex

-- `as usize`
abbrev pub place : ChallengeIndex → ℕ
place alpha = 0
place beta = 1
place gamma = 2
place eta = 3
place zeta = 4
place max_num_challenges = 5

-- The constants `CHALLENGE_BIT_*`.
abbrev pub challenge_bit : ChallengeIndex → ℕ
challenge_bit i = shl 1 (place i)

pub record ChallengeArray {ℓ} (A : Type ℓ) : Type ℓ where
  pub elements : List A
  pub alpha_powers : List A

-- A pointer is the place of its cell in the heap of the store.
pub record PolyPtrMap : Type 0 where
  pub coefficients : List (PolynomialIndex × ℕ)
  pub block_mask : ℕ
  pub index_shift : ℕ

-- The derived equality.
abbrev pub same_index : PolynomialIndex → PolynomialIndex → Bool
same_index i j = as_usize i == as_usize j

abbrev pub is_required : PolynomialIndex → List PolynomialIndex → Bool
is_required i [] = false
is_required i (j ∷ js) = same_index j i || is_required i js

abbrev pub find_pointer : PolynomialIndex → List (PolynomialIndex × ℕ) → Option ℕ
find_pointer i [] = none
find_pointer i ((j, cell) ∷ m) = if same_index j i then some cell else find_pointer i m

-- `PolynomialManifest::len` is a `todo!()`.
pub manifest_len : List PolynomialDescriptor → Outcome ℕ
manifest_len manifest = panic

module _ {ℓ} {A : Type ℓ} ⦃f : Field A⦄ where
  -- The powers `1` to `n - 1` of the loop.
  unfoldable pub alpha_loop : (elements : List A) (left i : ℕ) → List A → Outcome (List A)
  alpha_loop elements zero i alpha_powers = ok alpha_powers
  alpha_loop elements (suc left) i alpha_powers = do
    before ← index alpha_powers (i - 1)
    step ← index elements (place alpha)
    alpha_powers' ← assign alpha_powers i (before ⊗ step)
    alpha_loop elements left (suc i) alpha_powers'

  -- `n` is `NWidgetRelations`.
  unfoldable pub update_alpha : (n : ℕ) → ChallengeArray A → Outcome A
  update_alpha n challenges =
      if n == 0
      then index challenges.alpha_powers 0
      else (index challenges.alpha_powers (n - 1) >>= λ power.
          index challenges.elements (place alpha) >>= λ step. ok (power ⊗ step))

  module _ {κ} {R : Type κ} ⦃codec : Codec A⦄ (draw : R → Option A × R) where
    -- The closure `add_challenge`, on the elements and the generator.
    unfoldable pub add_challenge :
        Transcript
        → (label : String) (tag : ChallengeIndex) (required : Bool) (idx : ℕ) → List A × R
        → Outcome (List A × R)
    add_challenge t label tag required idx (elements, rng) =
        assert (not required || has_challenge t label) >> elim (has_challenge t label) [
          | true ↦
              (get_num_challenges t label >>= λ n.
              assert (ltb idx n)
              >> (get_challenge_field_element t label (some idx) >>= λ v.
                  assign elements (place tag) v >>= λ elements'. ok (elements', rng)))
          | false ↦
              (elim ((draw rng).0) [ none ↦ panic | some v ↦ assign elements (place tag) v ]
                >>= λ elements'. ok (elements', (draw rng).1))
        ]

    -- `required_challenges & CHALLENGE_BIT_* != 0`
    abbrev pub requires : (required_challenges : ℕ) → ChallengeIndex → Bool
    requires required_challenges i = not (bit_and required_challenges (challenge_bit i) == 0)

    -- The five calls of the closure.
    unfoldable pub challenge_elements :
        Transcript → (required_challenges : ℕ) → List A × R → Outcome (List A × R)
    challenge_elements t required_challenges s = do
      s1 ← add_challenge t "alpha" alpha (requires required_challenges alpha) 0 s
      s2 ← add_challenge t "beta" beta (requires required_challenges beta) 0 s1
      s3 ← add_challenge t "beta" gamma (requires required_challenges gamma) 1 s2
      s4 ← add_challenge t "eta" eta (requires required_challenges eta) 0 s3
      add_challenge t "z" zeta (requires required_challenges zeta) 0 s4

    unfoldable pub get_challenges :
        (n : ℕ)
        → Transcript
        → (alpha_base : A) → (required_challenges : ℕ) → R
        → Outcome (ChallengeArray A × R)
    get_challenges n t alpha_base required_challenges rng = do
      (elements, rng') ← challenge_elements t required_challenges (replicate 5 f.zero, rng)
      first ← assign (replicate n f.zero) 0 alpha_base
      alpha_powers ← alpha_loop elements (n - 1) 1 first
      ok (record { elements = elements; alpha_powers = alpha_powers }, rng')

  -- `PolyArray`: a pair of values, plain and shifted, for each polynomial.
  abbrev pub default_poly_array : List (A × A)
  default_poly_array = replicate 37 (f.zero, f.zero)

  -- `get_value` of `EvaluationGetterImpl`.
  unfoldable pub evaluation_get_value :
      List (A × A) → EvaluationType → PolynomialIndex → Option ℕ → Outcome A
  evaluation_get_value polynomials evaluation_type id idx =
      assert (elim idx [ none ↦ true | some _ ↦ false ])
      >> (index polynomials (as_usize id) >>= λ (first, second).
          ok (elim evaluation_type [ non_shifted ↦ second | shifted ↦ first ]))

  -- `get_evaluation_value` of the trait `EvaluationGetter`, with the places the other way round.
  unfoldable pub get_evaluation_value :
      List (A × A) → EvaluationType → PolynomialIndex → Option ℕ → Outcome A
  get_evaluation_value polynomials evaluation_type id idx =
      assert (elim idx [ none ↦ true | some _ ↦ false ])
      >> (index polynomials (as_usize id) >>= λ (first, second).
          ok (elim evaluation_type [ non_shifted ↦ first | shifted ↦ second ]))

  module _ ⦃codec : Codec A⦄ where
    -- The loop over the manifest.
    unfoldable pub read_openings :
        List PolynomialDescriptor
        → Transcript
        → (left i : ℕ) → List (A × A)
        → Outcome (List (A × A))
    read_openings manifest t zero i result = ok result
    read_openings manifest t (suc left) i result = do
      place ← from_usize i
      info ← get_descriptor manifest place
      v ← get_field_element t info.polynomial_label
      (_, old_second) ← index result (as_usize place)
      result1 ← assign result (as_usize place) (v, old_second)
      w ←
          if info.requires_shifted_evaluation
          then get_field_element t (String.◌++◌ info.polynomial_label "_omega")
          else ok f.zero
      (first, _) ← index result1 (as_usize info.polynomial_index)
      result2 ← assign result1 (as_usize info.polynomial_index) (first, w)
      read_openings manifest t left (suc i) result2

    unfoldable pub get_polynomial_evaluations :
        List PolynomialDescriptor → Transcript → Outcome (List (A × A))
    unfolding manifest_len
    get_polynomial_evaluations manifest t =
        manifest_len manifest >>= λ n. read_openings manifest t n 0 default_poly_array

  -- The loop of `get_polynomials`.
  unfoldable pub collect_pointers :
      PolynomialStore A
      → (required : List PolynomialIndex) → List PolynomialDescriptor
      → List (PolynomialIndex × ℕ)
      → Outcome (List (PolynomialIndex × ℕ))
  collect_pointers store required [] m = ok m
  collect_pointers store required (info ∷ rest) m =
      elim (is_required info.polynomial_index required) [
        | true ↦ elim (get store (String.◌++◌ info.polynomial_label "_fft")) [
          | ok cell ↦ collect_pointers store required rest ((info.polynomial_index, cell) ∷ m)
          | _ ↦ panic
        ]
        | false ↦ collect_pointers store required rest m
      ]

  -- Of the key it reads the size of the large domain, the manifest and the store.
  unfoldable pub get_polynomials :
      Profile
      → (large_size : ℕ) → List PolynomialDescriptor
      → PolynomialStore A
      → (required : List PolynomialIndex) → Outcome PolyPtrMap
  get_polynomials p large_size manifest store required = do
    block_mask ← pred_usize p large_size
    coefficients ← collect_pointers store required manifest []
    ok (record { coefficients = coefficients; block_mask = block_mask; index_shift = 4 })

  -- `get_value` of `FFTGetterImpl`, where no one holds a mutable borrow of the polynomial.
  unfoldable pub fft_get_value :
      PolynomialStore A → PolyPtrMap → EvaluationType → PolynomialIndex → Option ℕ → Outcome A
  fft_get_value store polynomials evaluation_type id idx = do
    i ← elim idx [ none ↦ panic | some i ↦ ok i ]
    cell ← elim (find_pointer id polynomials.coefficients) [ none ↦ panic | some cell ↦ ok cell ]
    poly ← deref store cell
    elim evaluation_type [
      | shifted ↦
          index poly.coefficients (bit_and (i + polynomials.index_shift) polynomials.block_mask)
      | non_shifted ↦ index poly.coefficients i
    ]
