-- ===== src/Polynomials/Transform/Partial.antt =====
-- What `partial_fft_serial_inner` computes.
use barustenberg.Prelude.{
  ℕ, zero, suc, ◌+◌, ◌-◌, ◌*◌, ◌/◌, ◌%◌, ◌^◌, ◌<◌, ◌≤◌, ◌≡◌, sym, ap, ap₂, ◌∙◌, List, ltb, arith,
  dec_lt, lt→ltb, false, get_or,
}
use native.Mathlib.Nat.{
  mod-eq_of_lt, add-mul-mod_self_right, add-mul-mod_self_left, eq_of_mul-eq-mul_right, div-add-mod,
  mod-lt, one-le-pow, pow-suc,
}
use barustenberg.Field.{Field, ◌⊕◌, ◌⊗◌}
use barustenberg.Field.Laws.{neg-neg, neg-mul}
use barustenberg.Field.Powers.{pow-add, one-pow, pow-mul}
use barustenberg.Polynomials.Transform.{root_sign}

-- Where the output `s` of the point `i` is written.
abbrev pub place : (n s i : ℕ) → ℕ
place n s i = (3 - s) * n + i

pub place-lt : (n s i : ℕ) → s < 4 → i < n → place n s i < 4 * n
place-lt n zero i h b = omega arith
place-lt n (suc zero) i h b = omega arith
place-lt n (suc (suc zero)) i h b = omega arith
place-lt n (suc (suc (suc zero))) i h b = omega arith
place-lt n (suc (suc (suc (suc s)))) i h b = absurd (omega arith)

-- Different outputs of one point stand apart, and so do the outputs of different points.
pub place-injective_point :
    (n s s' i i' : ℕ) → i < n → i' < n → place n s i ≡ place n s' i' → i ≡ i'
place-injective_point n s s' i i' b b' e =
    sym (mod-eq_of_lt b)
    ∙ sym (add-mul-mod_self_right i (3 - s) n)
    ∙ ap (λ t. t % n) {x = i + (3 - s) * n} {y = i' + (3 - s') * n} (omega arith)
    ∙ add-mul-mod_self_right i' (3 - s') n
    ∙ mod-eq_of_lt b'

pub place-injective_output :
    (n s s' i : ℕ) → i < n → s < 4 → s' < 4 → place n s i ≡ place n s' i → s ≡ s'
place-injective_output n s s' i b h h' e =
    omega (arith, eq_of_mul-eq-mul_right n (omega arith) (3 - s) (3 - s') (omega (arith, e)))

ltb_above : (a b : ℕ) → b ≤ a → ltb a b ≡ false
ltb_above a b h = ground arith

above : (r m : ℕ) → m ≤ r → r < 2 * m → r % m ≡ r - m
above r m h b =
    ap (λ t. t % m) {x = r} {y = (r - m) + m * 1} (omega arith)
    ∙ add-mul-mod_self_left (r - m) m 1
    ∙ mod-eq_of_lt (omega arith)

module _ {ℓ} {A : Type ℓ} ⦃f : Field A⦄ where
  -- What the loop over `j` adds for one of its values, if the roots are the powers of `w`.
  abbrev pub quarter : (w : A) (coeffs : List A) (n s i j : ℕ) → A
  quarter w coeffs n s i j = get_or coeffs (i + j * n) f.zero ⊗ f.pow w ((i + j * n) * (s + 1))

  abbrev pub output : (w : A) (coeffs : List A) (n s i : ℕ) → A
  output w coeffs n s i =
      quarter w coeffs n s i 0
      ⊕ quarter w coeffs n s i 1
      ⊕ quarter w coeffs n s i 2
      ⊕ quarter w coeffs n s i 3

  -- The power to twice the half is one.
  pow-mod : (w : A) (k t : ℕ) → f.pow w (2 ^ k) ≡ f.neg f.one → f.pow w t ≡ f.pow w (t % 2 ^ suc k)
  pow-mod w k t h =
      ap (f.pow w) {x = t} {y = 2 ^ suc k * (t / 2 ^ suc k) + t % 2 ^ suc k}
        (sym (div-add-mod t (2 ^ suc k)))
      ∙ pow-add w (2 ^ suc k * (t / 2 ^ suc k)) (t % 2 ^ suc k)
      ∙ ap (λ x. x ⊗ f.pow w (t % 2 ^ suc k))
          (pow-mul w (2 ^ suc k) (t / 2 ^ suc k)
            ∙ ap (λ x. f.pow x (t / 2 ^ suc k)) whole
            ∙ one-pow (t / 2 ^ suc k))
      ∙ f.one-mul (f.pow w (t % 2 ^ suc k))
    where
      whole : f.pow w (2 ^ suc k) ≡ f.one
      whole =
          ap (f.pow w) {x = 2 ^ suc k} {y = 2 ^ k + 2 ^ k} (omega (arith, pow-suc 2 k))
          ∙ pow-add w (2 ^ k) (2 ^ k)
          ∙ ap₂ (λ a b. a ⊗ b) h h
          ∙ neg-mul f.one (f.neg f.one)
          ∙ ap f.neg (f.one-mul (f.neg f.one))
          ∙ neg-neg f.one

  -- The powers of a root whose power to the half is minus one, read off the first half.
  pub signed_root :
      (w c : A) (k t : ℕ)
      → f.pow w (2 ^ k) ≡ f.neg f.one
      → (root_sign (t % 2 ^ suc k) (2 ^ k) ⊗ c) ⊗ f.pow w (t % 2 ^ suc k % 2 ^ k) ≡ c ⊗ f.pow w t
  signed_root w c k t h = elim (dec_lt (t % 2 ^ suc k) (2 ^ k)) [
    | yes b ↦
        rw (lt→ltb _ _ b, f.one-mul c, mod-eq_of_lt b) (ap (λ x. c ⊗ x) (sym (pow-mod w k t h)))
    | no b ↦
        let r : ℕ = t % 2 ^ suc k in
        let low : t % 2 ^ suc k % 2 ^ k ≡ t % 2 ^ suc k - 2 ^ k =
          above (t % 2 ^ suc k) (2 ^ k) (omega (arith, b))
            (omega (arith, mod-lt t (one-le-pow (suc k) 2 (omega arith)), pow-suc 2 k)) in
        rw (ltb_above (t % 2 ^ suc k) (2 ^ k) (omega (arith, b)), low)
          (ap (λ x. x ⊗ f.pow w (r - 2 ^ k)) (f.mul_comm (f.neg f.one) c)
            ∙ f.mul_assoc c (f.neg f.one) (f.pow w (r - 2 ^ k))
            ∙ ap (λ x. c ⊗ x)
                (ap (λ x. x ⊗ f.pow w (r - 2 ^ k)) (sym h)
                  ∙ sym (pow-add w (2 ^ k) (r - 2 ^ k))
                  ∙ ap (f.pow w) {x = 2 ^ k + (r - 2 ^ k)} {y = r} (omega (arith, b))
                  ∙ sym (pow-mod w k t h)))
  ]
