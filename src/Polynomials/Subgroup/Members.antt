-- ===== src/Polynomials/Subgroup/Members.antt =====
-- What `compute_multiplicative_subgroup` fills in: the coset of the roots of unity.
use barustenberg.Prelude.{
  ℕ, zero, suc, ◌+◌, ◌-◌, ◌*◌, ◌^◌, ◌<◌, ◌≤◌, ◌≡◌, refl, sym, ap, ap₂, ◌∙◌, List, [], ◌∷◌, ◌++◌,
  length, arith, take, drop, get_or, ok, assign, ◌>>=◌, Option, some, append_assoc, length-append,
  length-take, take-append-drop,
}
use native.Mathlib.Nat.{pow-suc, one-le-pow, mod-eq_of_lt}
use barustenberg.Prelude.Slices.{index-append, assign-append_second}
use barustenberg.Numeric.{Profile, checked, wrapping}
use barustenberg.Field.{Field, ◌⊗◌}
use barustenberg.Field.Laws.{mul-one}
use barustenberg.Field.Powers.{pow-suc_left, pow-one, pow-add, pow-mul}
use barustenberg.Polynomials.Subgroup.{
  one_shl64, square_times, fill_subgroup, compute_multiplicative_subgroup,
}

pub one_shl64_lem : (p : Profile) (s : ℕ) → s < 64 → one_shl64 p s ≡ ok (2 ^ s)
unfolding one_shl64
one_shl64_lem checked s h = ground arith
one_shl64_lem wrapping s h = ap (λ k. ok (2 ^ k)) (mod-eq_of_lt h)

module _ {ℓ} {A : Type ℓ} ⦃f : Field A⦄ where
  square_times-pow : (n : ℕ) (a : A) → square_times n a ≡ f.pow a (2 ^ n)
  unfolding square_times
  square_times-pow zero a = sym (pow-one a)
  square_times-pow (suc n) a =
      square_times-pow n (a ⊗ a)
      ∙ ap (λ t. f.pow t (2 ^ n)) (ap (λ t. t ⊗ a) (sym (pow-one a)) ∙ sym (f.pow-suc a 1))
      ∙ sym (pow-mul a 2 (2 ^ n))
      ∙ ap (f.pow a) {x = 2 * 2 ^ n} {y = 2 ^ suc n} (omega (arith, pow-suc 2 n))

  -- The first term and its products with the powers of the ratio.
  abbrev pub progression : A → A → ℕ → List A
  progression c r zero = []
  progression c r (suc n) = c ∷ progression (c ⊗ r) r n

  pub length-progression : (c r : A) (n : ℕ) → length (progression c r n) ≡ n
  length-progression c r zero = refl
  length-progression c r (suc n) = ap suc (length-progression (c ⊗ r) r n)

  pub get_or-progression :
      (c r : A) (n i : ℕ) → i < n → get_or (progression c r n) i f.zero ≡ c ⊗ f.pow r i
  get_or-progression c r zero i h = absurd (omega arith)
  get_or-progression c r (suc n) zero h = sym (mul-one c) ∙ ap (λ t. c ⊗ t) (sym (f.pow-zero r))
  get_or-progression c r (suc n) (suc i) h =
      get_or-progression (c ⊗ r) r n i (omega arith)
      ∙ f.mul_assoc c r _
      ∙ ap (λ t. c ⊗ t) (sym (pow-suc_left r i))

  pub fill_subgroup-progression :
      (r : A) (i : ℕ) (pre : List A) (c : A) (old tail : List A)
      → i ≡ length pre + 1
      → fill_subgroup r (length old) i (pre ++ (c ∷ (old ++ tail)))
        ≡ ok (pre ++ (c ∷ (progression (c ⊗ r) r (length old) ++ tail)))
  unfolding fill_subgroup
  fill_subgroup-progression r i pre c [] tail h = refl
  fill_subgroup-progression r i pre c (x ∷ old) tail h =
      rw (index-append pre c (x ∷ (old ++ tail)) (i - 1) (omega arith)) (
        rw (assign-append_second pre c x (old ++ tail) i (c ⊗ r) (omega arith)) (
          rw (← append_assoc pre (c ∷ []) (c ⊗ r ∷ (old ++ tail))) (
            fill_subgroup-progression r (suc i) (pre ++ (c ∷ [])) (c ⊗ r) old tail
              (omega (arith, length-append pre (c ∷ [])))
            ∙ ap ok (append_assoc pre (c ∷ []) _))))

  fill_all :
      (c r : A) (n : ℕ) (roots : List A)
      → 0 < n
      → n ≤ length roots
      → (assign roots 0 c >>= fill_subgroup r (n - 1) 1) ≡ ok (progression c r n ++ drop n roots)
  fill_all c r zero roots pos h = absurd (omega arith)
  fill_all c r (suc n) [] pos h = absurd (omega arith)
  fill_all c r (suc n) (x ∷ roots) pos h =
      ap₂ (λ k cs. fill_subgroup r k 1 (c ∷ cs)) {x = suc n - 1} {y = length (take n roots)}
        (omega (arith, length-take n roots)) (sym (take-append-drop n roots))
      ∙ fill_subgroup-progression r 1 [] c (take n roots) (drop n roots) (omega arith)
      ∙ ap (λ k. ok (c ∷ (progression (c ⊗ r) r k ++ drop n roots))) {x = length (take n roots)}
          {y = n} (omega (arith, length-take n roots))

  pub compute_multiplicative_subgroup_run :
      (p : Profile) (get_root_of_unity : ℕ → Option A) (generator : A) (log2_size s : ℕ)
      (roots : List A) (root : A)
      → s < 64
      → get_root_of_unity s ≡ some root
      → 2 ^ s ≤ length roots
      → compute_multiplicative_subgroup p get_root_of_unity generator log2_size s roots
        ≡ ok (progression (f.pow generator (2 ^ log2_size)) root (2 ^ s) ++ drop (2 ^ s) roots)
  unfolding compute_multiplicative_subgroup
  compute_multiplicative_subgroup_run p get_root_of_unity generator log2_size s roots root hs e h =
      rw (one_shl64_lem p s hs) (
        rw e (
          rw (square_times-pow log2_size generator) (
            fill_all (f.pow generator (2 ^ log2_size)) root (2 ^ s) roots
              (omega (arith, one-le-pow s 2)) h)))

  -- The field's `get_root_of_unity` takes the order itself, and the function gives it the order's
  -- logarithm `s`. With `s` below 64, a root whose `s`-th power is one and 2^s places in the slice, it fills those
  -- places with `g^n` times the powers of that root, `n` being two to the domain's logarithm, and keeps
  -- the others; so the values repeat after each `s` of them.
  pub compute_multiplicative_subgroup_lem :
      (p : Profile) (get_root_of_unity : ℕ → Option A) (generator : A) (log2_size s : ℕ)
      (roots : List A) (root : A)
      → s < 64
      → get_root_of_unity s ≡ some root
      → f.pow root s ≡ f.one
      → 2 ^ s ≤ length roots
      → (members : List A) × (compute_multiplicative_subgroup p get_root_of_unity generator
            log2_size s roots
          ≡ ok (members ++ drop (2 ^ s) roots))
        × (length members ≡ 2 ^ s)
        × ((i : ℕ)
            → i < 2 ^ s
            → get_or members i f.zero ≡ f.pow generator (2 ^ log2_size) ⊗ f.pow root i)
        × ((i : ℕ) → i + s < 2 ^ s → get_or members (i + s) f.zero ≡ get_or members i f.zero)
  compute_multiplicative_subgroup_lem p get_root_of_unity generator log2_size s roots root hs e
        order h =
      (
        progression c root (2 ^ s),
        compute_multiplicative_subgroup_run p get_root_of_unity generator log2_size s roots root hs
            e h,
        length-progression c root (2 ^ s),
        get_or-progression c root (2 ^ s),
        λ i l.
            get_or-progression c root (2 ^ s) (i + s) l
            ∙ ap (λ t. c ⊗ t) (pow-add root i s ∙ ap (λ t. f.pow root i ⊗ t) order ∙ mul-one _)
            ∙ sym (get_or-progression c root (2 ^ s) i (omega arith)),
      )
    where
      c : A
      c = f.pow generator (2 ^ log2_size)
