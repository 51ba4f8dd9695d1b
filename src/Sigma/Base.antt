-- ===== src/Sigma/Base.antt =====
-- What `compute_permutation_lagrange_base_single` computes.
use barustenberg.Prelude.{
  ℕ, zero, suc, ◌+◌, ◌-◌, ◌*◌, ◌^◌, ◌<◌, ◌≤◌, ◌≡◌, refl, sym, ap, ◌∙◌, List, [], ◌∷◌, map, ok,
  index, ltb, leb, length, bit_and, true, false, get_or, set, length-set, length-map, arith, dec_le,
  ℕ_discrete, ◌⊎◌, inl, inr,
}
use barustenberg.Prelude.Bits.{shr}
use barustenberg.Prelude.Slices.{assign-set, index-set_self, index-set_ne}
use native.Mathlib.Nat.{pow-suc}
use barustenberg.Numeric.{Profile, get_msb64}
use barustenberg.Field.{Field, ◌⊗◌}
use barustenberg.Field.Laws.{neg-mul}
use barustenberg.Field.Powers.{pow-add}
use barustenberg.Polynomials.{Polynomial}
use barustenberg.Sigma.{
  read_element, scale_column, fill_permutation, compute_permutation_lagrange_base_single_helper,
  compute_permutation_lagrange_base_single,
}

index-map {ℓ κ} :
    {A : Type ℓ} {B : Type κ} (xs : List A) (g : A → B) (i : ℕ) (d : A)
    → i < length xs
    → index (map g xs) i ≡ ok (g (get_or xs i d))
index-map [] g i d h = absurd (omega arith)
index-map (x ∷ xs) g zero d h = refl
index-map (x ∷ xs) g (suc i) d h = index-map xs g i d (omega arith)

leb_above : (a b : ℕ) → a ≤ b → leb a b ≡ true
leb_above a b h = ground (arith, h)

leb_below : (a b : ℕ) → b < a → leb a b ≡ false
leb_below a b h = ground (arith, h)

set-set {ℓ} : {A : Type ℓ} (xs : List A) (i : ℕ) (v w : A) → set (set xs i v) i w ≡ set xs i w
set-set [] i v w = refl
set-set (x ∷ xs) zero v w = refl
set-set (x ∷ xs) (suc i) v w = ap (λ t. x ∷ t) (set-set xs i v w)

module _ {ℓ} {A : Type ℓ} ⦃f : Field A⦄ (conditionally_subtract : A → ℕ → A) (external tag : A)
    (coset_generator : ℕ → A) where
  -- The value of a place of the wires: a root of unity in the coset of the column.
  abbrev pub times_column : A → ℕ → A
  times_column v zero = v
  times_column v (suc column) = v ⊗ coset_generator column

  abbrev pub image : (w : A) (permutation_element : ℕ) → A
  image w e = times_column (f.pow w (bit_and e (2 ^ 24 - 1))) (shr e 30)

  scale_column-set :
      (xs : List A) (i : ℕ) (v : A) (column : ℕ)
      → i < length xs
      → scale_column conditionally_subtract external tag coset_generator (set xs i v) i column
        ≡ ok (set xs i (times_column v column))
  unfolding scale_column
  scale_column-set xs i v zero h = refl
  scale_column-set xs i v (suc column) h =
      rw
        (
          index-set_self xs i v h,
          assign-set (set xs i v) i (v ⊗ coset_generator column)
              (omega (arith, h, length-set xs i v)),
        )
        (ap ok (set-set xs i v (v ⊗ coset_generator column)))

  module _ (w : A) (k : ℕ) (roots : List A) (permutation : List ℕ)
      (row : (t : ℕ) → t < 2 ^ k → index roots t ≡ ok (f.pow w t))
      (minus_one : f.pow w (2 ^ k) ≡ f.neg f.one) (keep : (x : A) → conditionally_subtract x 0 ≡ x)
      (negate : (x : A) → conditionally_subtract x 1 ≡ f.neg x) where
    -- The power at an index of the second half is the negation of one in the first.
    high_half : (raw : ℕ) → 2 ^ k ≤ raw → f.neg (f.pow w (raw - 2 ^ k)) ≡ f.pow w raw
    high_half raw h =
        ap f.neg (sym (f.one-mul (f.pow w (raw - 2 ^ k))))
        ∙ sym (neg-mul f.one (f.pow w (raw - 2 ^ k)))
        ∙ ap (λ x. x ⊗ f.pow w (raw - 2 ^ k)) (sym minus_one)
        ∙ sym (pow-add w (2 ^ k) (raw - 2 ^ k))
        ∙ ap (f.pow w) {x = 2 ^ k + (raw - 2 ^ k)} {y = raw} (omega (arith, h))

    one_round :
        (left i e : ℕ) (coefficients : List A)
        → index (map read_element permutation) i ≡ ok (read_element e)
        → bit_and e (2 ^ 24 - 1) < 2 ^ suc k
        → i < length coefficients
        → fill_permutation conditionally_subtract external tag coset_generator
            (map read_element permutation)
            roots
            (2 ^ k)
            k
            (suc left)
            i
            coefficients
          ≡ fill_permutation conditionally_subtract external tag coset_generator
              (map read_element permutation)
              roots
              (2 ^ k)
              k
              left
              (suc i)
              (set coefficients i (image w e))
    unfolding fill_permutation
    one_round left i e coefficients at below room = elim (dec_le (2 ^ k) (bit_and e (2 ^ 24 - 1))) [
      | yes h ↦ rw at (
          rw
            (
              leb_above (2 ^ k) (bit_and e (2 ^ 24 - 1)) h,
              ap (index roots) {x = bit_and e (2 ^ 24 - 1) - 1 * 2 ^ k}
                    {y = bit_and e (2 ^ 24 - 1) - 2 ^ k} (omega arith)
                  ∙ row (bit_and e (2 ^ 24 - 1) - 2 ^ k) (omega (arith, below, h, pow-suc 2 k)),
            )
            (rw
              (
                negate (f.pow w (bit_and e (2 ^ 24 - 1) - 2 ^ k)),
                high_half (bit_and e (2 ^ 24 - 1)) h,
              )
              (rw (assign-set coefficients i (f.pow w (bit_and e (2 ^ 24 - 1))) room) (
                rw
                  (scale_column-set coefficients i (f.pow w (bit_and e (2 ^ 24 - 1))) (shr e 30)
                    room)
                  refl))))
      | no h ↦ rw at (
          rw
            (
              leb_below (2 ^ k) (bit_and e (2 ^ 24 - 1)) (omega (arith, h)),
              ap (index roots) {x = bit_and e (2 ^ 24 - 1) - 0 * 2 ^ k} {y = bit_and e (2 ^ 24 - 1)}
                    (omega arith)
                  ∙ row (bit_and e (2 ^ 24 - 1)) (omega (arith, h)),
            )
            (rw (keep (f.pow w (bit_and e (2 ^ 24 - 1)))) (
              rw (assign-set coefficients i (f.pow w (bit_and e (2 ^ 24 - 1))) room) (
                rw
                  (scale_column-set coefficients i (f.pow w (bit_and e (2 ^ 24 - 1))) (shr e 30)
                    room)
                  refl))))
    ]

    fill_permutation-images :
        (left i : ℕ) (coefficients : List A)
        → i + left ≤ length permutation
        → i + left ≤ length coefficients
        → ((j : ℕ) → j < i + left → bit_and (get_or permutation j 0) (2 ^ 24 - 1) < 2 ^ suc k)
        → (out : List A) × (fill_permutation conditionally_subtract external tag coset_generator
              (map read_element permutation)
              roots
              (2 ^ k)
              k
              left
              i
              coefficients
            ≡ ok out)
          × (length out ≡ length coefficients)
          × ((j : ℕ) → i ≤ j → j < i + left → index out j ≡ ok (image w (get_or permutation j 0)))
          × ((j : ℕ) → (j < i) ⊎ (i + left ≤ j) → index out j ≡ index coefficients j)
    unfolding fill_permutation
    fill_permutation-images zero i coefficients many room below =
        (coefficients, refl, refl, (λ j l h. absurd (omega arith)), λ j h. refl)
    fill_permutation-images (suc left) i coefficients many room below =
        let e : ℕ = get_or permutation i 0 in
        let v : A = image w e in
        let (out, run, len, images, others) =
          fill_permutation-images left (suc i) (set coefficients i v) (omega arith)
            (omega (arith, length-set coefficients i v)) (λ j h. below j (omega arith)) in
        (
          out,
          one_round left i e coefficients (index-map permutation read_element i 0 (omega arith))
                (below i (omega arith)) (omega arith)
              ∙ run,
          len ∙ length-set coefficients i v,
          λ j l h. elim (ℕ_discrete i j) [
            | yes q ↦
                ap (index out) (sym q)
                ∙ others i (inl (omega arith))
                ∙ index-set_self coefficients i v (omega arith)
                ∙ ap (λ o. ok (image w (get_or permutation o 0))) q
            | no q ↦ images j (omega arith) (omega arith)
          ],
          λ j h. elim h [
            | inl b ↦
                others j (inl (omega arith))
                ∙ index-set_ne coefficients i j v (λ q. omega (arith, q, b))
            | inr b ↦
                others j (inr (omega arith))
                ∙ index-set_ne coefficients i j v (λ q. omega (arith, q, b))
          ],
        )

    -- On a domain of `2 ^ (k + 1)` points with at least two rounds, the powers of `w` up to the half in the
    -- last row of its table and minus one at the half, with conditional subtraction as negation, an index
    -- within the domain in each element of the permutation, and if `get_msb` finds the logarithm of the
    -- half, the function succeeds. The coefficient of each point is then `w` to the index of its element,
    -- times the generator of the element's column, if that is not the first; later ones are kept.
    pub compute_permutation_lagrange_base_single_lem :
        (p : Profile) (output : Polynomial A) (round_roots : List (List A))
        → 1 ≤ k
        → get_msb64 p (2 ^ k) ≡ ok k
        → index round_roots (k - 1) ≡ ok roots
        → length permutation ≡ 2 ^ suc k
        → 2 ^ suc k ≤ output.size
        → 2 ^ suc k ≤ length output.coefficients
        → ((j : ℕ) → j < 2 ^ suc k → bit_and (get_or permutation j 0) (2 ^ 24 - 1) < 2 ^ suc k)
        → (out : List A) × (compute_permutation_lagrange_base_single conditionally_subtract external
              tag coset_generator p output permutation
              (2 ^ suc k)
              (suc k)
              round_roots
            ≡ ok (record output { coefficients = out }))
          × (length out ≡ length output.coefficients)
          × ((j : ℕ) → j < 2 ^ suc k → index out j ≡ ok (image w (get_or permutation j 0)))
          × ((j : ℕ) → 2 ^ suc k ≤ j → index out j ≡ index output.coefficients j)
    unfolding compute_permutation_lagrange_base_single
        compute_permutation_lagrange_base_single_helper
    compute_permutation_lagrange_base_single_lem p output round_roots two msb at len size room
          below =
        let (out, run, len', images, others) =
          fill_permutation-images (2 ^ suc k) 0 output.coefficients (omega (arith, len))
            (omega (arith, room)) (λ j h. below j (omega (arith, h))) in
        (
          out,
          rw
              (ltb_false output.size (length (map read_element permutation))
                (omega (arith, size, len, length-map permutation read_element)))
              (rw
                (
                  ltb_false (suc k) 2 (omega (arith, two)),
                  ap (index round_roots) {x = suc k - 2} {y = k - 1} (omega arith) ∙ at,
                  half,
                )
                (rw msb (rw run refl))),
          len',
          λ j h. images j (omega arith) (omega (arith, h)),
          λ j h. others j (inr (omega (arith, h))),
        )
      where
        half : shr (2 ^ suc k) 1 ≡ 2 ^ k
        half = omega (arith, pow-suc 2 k)

        ltb_false : (a b : ℕ) → b ≤ a → ltb a b ≡ false
        ltb_false a b h = ground (arith, h)
