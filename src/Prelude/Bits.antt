-- ===== src/Prelude/Bits.antt =====
-- Bits of a native number, and the laws of `bit_and` and `bit_or` bit by bit.
use Prim.Native.Nat.{
  ℕ, zero, suc, ◌+◌, ◌*◌, ◌/◌, ◌%◌, ◌^◌, ◌≤◌, ◌<◌, min, max, bit_and, bit_or, digits, bitwise,
  bit_and-bitwise, bit_or-bitwise,
}
use mathlib.Core.Path.{◌≡◌, refl, ◌∙◌, ap}
use native.Mathlib.Omega.{arith}
use native.Mathlib.Nat.{pow-suc}

-- The bit of `x` at position `i`.
abbrev pub bit : ℕ → ℕ → ℕ
bit x zero = x % 2
bit x (suc i) = bit (x / 2) i

-- `x >> i`
abbrev pub shr : ℕ → ℕ → ℕ
shr x zero = x
shr x (suc i) = shr (x / 2) i

-- `x << i`, before it is cut to the width
abbrev pub shl : ℕ → ℕ → ℕ
shl x zero = x
shl x (suc i) = shl x i * 2

-- The native operations go through `bitwise`, which carries fuel; two amounts that suffice agree.
module _ (tail : ℕ → ℕ) (op : ℕ → ℕ → ℕ) where
  digits_enough : (n m a b : ℕ) → a ≤ n → a ≤ m → digits tail op n a b ≡ digits tail op m a b
  digits_enough zero zero a b p q = refl
  digits_enough zero (suc m) zero b p q = refl
  digits_enough zero (suc m) (suc a) b p q = absurd (omega arith)
  digits_enough (suc n) zero zero b p q = refl
  digits_enough (suc n) zero (suc a) b p q = absurd (omega arith)
  digits_enough (suc n) (suc m) zero b p q = refl
  digits_enough (suc n) (suc m) (suc a) b p q =
      rw (digits_enough n m (suc a / 2) (b / 2) (omega arith) (omega arith))

  bitwise_low :
      (a b : ℕ)
      → bitwise tail op (suc a) b ≡ bitwise tail op (suc a / 2) (b / 2) * 2 + op (suc a % 2) (b % 2)
  bitwise_low a b =
      omega (arith, digits_enough a (suc a / 2) (suc a / 2) (b / 2) (omega arith) (omega arith))

pub bit_and_low : (a b : ℕ) → bit_and a b ≡ bit_and (a / 2) (b / 2) * 2 + min (a % 2) (b % 2)
bit_and_low zero b = simp bit_and-bitwise (omega arith)
bit_and_low (suc a) b = simp bit_and-bitwise (bitwise_low (λ _. 0) min a b)

bit_or_low : (a b : ℕ) → bit_or a b ≡ bit_or (a / 2) (b / 2) * 2 + max (a % 2) (b % 2)
bit_or_low zero b = simp bit_or-bitwise (omega arith)
bit_or_low (suc a) b = simp bit_or-bitwise (bitwise_low (λ y. y) max a b)

half-bit_and : (a b : ℕ) → bit_and a b / 2 ≡ bit_and (a / 2) (b / 2)
half-bit_and a b = omega (arith, bit_and_low a b)

half-bit_or : (a b : ℕ) → bit_or a b / 2 ≡ bit_or (a / 2) (b / 2)
half-bit_or a b = omega (arith, bit_or_low a b)

pub bit-le : (x i : ℕ) → bit x i ≤ 1
bit-le x zero = omega arith
bit-le x (suc i) = bit-le (x / 2) i

pub bit-bit_and : (a b i : ℕ) → bit (bit_and a b) i ≡ min (bit a i) (bit b i)
bit-bit_and a b zero = omega (arith, bit_and_low a b)
bit-bit_and a b (suc i) = rw (half-bit_and a b) (bit-bit_and (a / 2) (b / 2) i)

pub bit-bit_or : (a b i : ℕ) → bit (bit_or a b) i ≡ max (bit a i) (bit b i)
bit-bit_or a b zero = omega (arith, bit_or_low a b)
bit-bit_or a b (suc i) = rw (half-bit_or a b) (bit-bit_or (a / 2) (b / 2) i)

pub bit-shr : (x k i : ℕ) → bit (shr x k) i ≡ bit x (k + i)
bit-shr x zero i = ap (bit x) {x = i} {y = 0 + i} (omega arith)
bit-shr x (suc k) i =
    bit-shr (x / 2) k i ∙ ap (bit x) {x = suc (k + i)} {y = suc k + i} (omega arith)

pub shr-lt : (x k n : ℕ) → x < n → shr x k < n
shr-lt x zero n h = h
shr-lt x (suc k) n h = shr-lt (x / 2) k n (omega arith)

pub bit_or-lt : (n a b : ℕ) → a < 2 ^ n → b < 2 ^ n → bit_or a b < 2 ^ n
bit_or-lt zero a b p q =
    omega (arith, bit_or_low a b, bit_or-zeros (a / 2) (b / 2) (omega arith) (omega arith))
  where
    bit_or-zeros : (c d : ℕ) → c ≡ 0 → d ≡ 0 → bit_or c d ≡ 0
    bit_or-zeros c d p q = rw (p, q)
bit_or-lt (suc n) a b p q = omega (
  arith,
  bit_or_low a b,
  pow-suc 2 n,
  bit_or-lt n (a / 2) (b / 2) (omega (arith, pow-suc 2 n)) (omega (arith, pow-suc 2 n)),
)

-- Two numbers below `2 ^ n` with the same `n` low bits are equal.
pub eq_of_bits : (n a b : ℕ) → a < 2 ^ n → b < 2 ^ n → ((i : ℕ) → i < n → bit a i ≡ bit b i) → a ≡ b
eq_of_bits zero a b p q h = omega arith
eq_of_bits (suc n) a b p q h =
    let low : a % 2 ≡ b % 2 = h 0 (omega arith) in
    let high : a / 2 ≡ b / 2 =
      eq_of_bits n (a / 2) (b / 2) (omega (arith, pow-suc 2 n)) (omega (arith, pow-suc 2 n))
        (λ i l. h (suc i) (omega arith)) in
    omega arith

pub bit_and-lt : (n a b : ℕ) → a < 2 ^ n → bit_and a b < 2 ^ n
bit_and-lt zero a b p = omega (
  arith,
  bit_and_low a b,
  ap (λ (t : ℕ). bit_and t (b / 2)) {x = a / 2} {y = 0} (omega arith),
  bit_and_low 0 (b / 2),
  zero-bit_and (b / 2),
)
  where
    zero-bit_and : (c : ℕ) → bit_and 0 c ≡ 0
    zero-bit_and c = bit_and-bitwise 0 c
bit_and-lt (suc n) a b p =
    omega (
      arith,
      bit_and_low a b,
      pow-suc 2 n,
      bit_and-lt n (a / 2) (b / 2) (omega (arith, pow-suc 2 n)),
    )

pub bit_above : (n x i : ℕ) → x < 2 ^ n → n ≤ i → bit x i ≡ 0
bit_above zero x zero p q = omega arith
bit_above zero x (suc i) p q = bit_above zero (x / 2) i (omega arith) (omega arith)
bit_above (suc n) x zero p q = absurd (omega arith)
bit_above (suc n) x (suc i) p q = bit_above n (x / 2) i (omega (arith, pow-suc 2 n)) (omega arith)

pub shr-lt_pow : (x k n : ℕ) → x < 2 ^ (k + n) → shr x k < 2 ^ n
shr-lt_pow x zero n h = omega (arith, ap (λ (t : ℕ). 2 ^ t) {x = 0 + n} {y = n} (omega arith))
shr-lt_pow x (suc k) n h = shr-lt_pow (x / 2) k n (
    omega (
      arith,
      ap (λ (t : ℕ). 2 ^ t) {x = suc k + n} {y = suc (k + n)} (omega arith),
      pow-suc 2 (k + n),
    ))
