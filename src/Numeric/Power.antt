-- ===== src/Numeric/Power.antt =====
-- `is_power_of_two` and `is_power_of_two_usize`.
use barustenberg.Prelude.{
  ℕ, zero, suc, ◌+◌, ◌-◌, ◌*◌, ◌/◌, ◌%◌, ◌^◌, ◌≤◌, ◌<◌, bit_and, ◌≡◌, refl, arith, true, ◌↔◌, ◌∙◌,
  ap, ℕ_discrete,
}
use native.Mathlib.Nat.{pow-suc, one-le-pow}
use barustenberg.Prelude.Bits.{bit_and_low}
use barustenberg.Numeric.{is_power_of_two}

bit_and_self : (n a : ℕ) → a ≤ n → bit_and a a ≡ a
bit_and_self n zero h = refl
bit_and_self zero (suc a) h = absurd (omega arith)
bit_and_self (suc n) (suc a) h =
    omega (arith, bit_and_low (suc a) (suc a), bit_and_self n (suc a / 2) (omega arith))

bit_and_even : (y : ℕ) → 0 < y → bit_and (2 * y) (2 * y - 1) ≡ 2 * bit_and y (y - 1)
bit_and_even y h = omega (
  arith,
  bit_and_low (2 * y) (2 * y - 1),
  ap (λ (t : ℕ). bit_and t ((2 * y - 1) / 2)) {x = 2 * y / 2} {y = y} (omega arith),
  ap (bit_and y) {x = (2 * y - 1) / 2} {y = y - 1} (omega arith),
)

bit_and_odd : (y : ℕ) → bit_and (2 * y + 1) (2 * y) ≡ 2 * y
bit_and_odd y = omega (
  arith,
  bit_and_low (2 * y + 1) (2 * y),
  ap (λ (t : ℕ). bit_and t (2 * y / 2)) {x = (2 * y + 1) / 2} {y = y} (omega arith),
  ap (bit_and y) {x = 2 * y / 2} {y = y} (omega arith),
  bit_and_self y y (omega arith),
)

clear-pow : (k : ℕ) → bit_and (2 ^ k) (2 ^ k - 1) ≡ 0
clear-pow zero = refl
clear-pow (suc k) =
    ap (λ (t : ℕ). bit_and t (t - 1)) {x = 2 ^ suc k} {y = 2 * 2 ^ k} (omega (arith, pow-suc 2 k))
    ∙ omega (arith, bit_and_even (2 ^ k) (one-le-pow k 2 (omega arith)), clear-pow k)

-- By halving: an odd number that is cleared is 1, and an even one is twice a cleared number.
pow_of_clear : (n x : ℕ) → x ≤ n → 0 < x → bit_and x (x - 1) ≡ 0 → (k : ℕ) × (x ≡ 2 ^ k)
pow_of_clear zero x h p e = absurd (omega arith)
pow_of_clear (suc n) x h p e = elim (ℕ_discrete (x % 2) 0) [
  | yes even ↦
      let (k, q) =
        pow_of_clear n (x / 2) (omega arith) (omega arith)
          (half_clear (x / 2) (omega arith) (omega arith)) in
      (suc k, omega (arith, pow-suc 2 k))
  | no odd ↦ (0, omega (arith, odd_clear (x / 2) (omega arith)))
]
  where
    half_clear : (y : ℕ) → 0 < y → x ≡ 2 * y → bit_and y (y - 1) ≡ 0
    half_clear y l q = omega (arith, bit_and_even y l, ap (λ (t : ℕ). bit_and t (t - 1)) q)

    odd_clear : (y : ℕ) → x ≡ 2 * y + 1 → y ≡ 0
    odd_clear y q = omega (
      arith,
      bit_and_odd y,
      ap (λ (t : ℕ). bit_and t (t - 1)) q,
      ap (bit_and (2 * y + 1)) {x = 2 * y + 1 - 1} {y = 2 * y} (omega arith),
    )

-- The test accepts exactly the powers of two.
pub is_power_of_two_iff : (x : ℕ) → (is_power_of_two x ≡ true) ↔ ((k : ℕ) × (x ≡ 2 ^ k))
unfolding is_power_of_two
is_power_of_two_iff x =
    (λ h. pow_of_clear x x (omega arith) (ground arith) (ground arith), λ (k, e). rw e (accepted k))
  where
    accepted : (k : ℕ) → is_power_of_two (2 ^ k) ≡ true
    accepted k = ground (arith, clear-pow k, one-le-pow k 2)
