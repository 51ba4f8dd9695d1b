-- ===== src/Prelude/Masks.antt =====
-- `x & (2 ^ s - 1)` is the remainder by `2 ^ s`.
use Prim.Native.Nat.{ℕ, zero, suc, ◌+◌, ◌-◌, ◌*◌, ◌/◌, ◌%◌, ◌^◌, ◌<◌, bit_and}
use mathlib.Core.Path.{◌≡◌, ap, ◌∙◌}
use native.Mathlib.Omega.{arith}
use native.Mathlib.Nat.{
  pow-suc, one-le-pow, mod-eq_of_lt, mod-lt, div-add-mod, add-mul-mod_self_left,
}
use barustenberg.Prelude.Bits.{bit_and_low, bit_and-lt, bit-bit_and, eq_of_bits}

-- The remainder by twice a number, from the halves.
mod-double : (x n : ℕ) → 0 < n → x % (2 * n) ≡ (x / 2 % n) * 2 + x % 2
mod-double x n h =
    ap (λ (t : ℕ). t % (2 * n)) {x = x} {y = (x / 2 % n) * 2 + x % 2 + 2 * n * (x / 2 / n)}
      (omega (arith, div-add-mod (x / 2) n))
    ∙ add-mul-mod_self_left ((x / 2 % n) * 2 + x % 2) (2 * n) (x / 2 / n)
    ∙ mod-eq_of_lt (omega (arith, mod-lt (x / 2) h))

pub n-lt-pow : (n : ℕ) → n < 2 ^ n
n-lt-pow zero = omega arith
n-lt-pow (suc n) = omega (arith, n-lt-pow n, pow-suc 2 n)

bit_and_comm : (a b : ℕ) → bit_and a b ≡ bit_and b a
bit_and_comm a b =
    eq_of_bits (a + b) _ _ (bit_and-lt (a + b) a b (omega (arith, n-lt-pow (a + b))))
      (bit_and-lt (a + b) b a (omega (arith, n-lt-pow (a + b))))
      (λ i h. omega (arith, bit-bit_and a b i, bit-bit_and b a i))

-- What a mask lets through.
pub bit_and-mask_lt : (s k : ℕ) → bit_and k (2 ^ s - 1) < 2 ^ s
bit_and-mask_lt s k =
    omega (
      arith,
      bit_and_comm k (2 ^ s - 1),
      bit_and-lt s (2 ^ s - 1) k (omega (arith, one-le-pow s 2)),
    )

bit_and-mask_zero : (x : ℕ) → bit_and x 0 ≡ 0
bit_and-mask_zero x = omega (arith, bit_and_comm x 0, bit_and-lt 0 0 x (omega arith))

pub bit_and-mask : (s x : ℕ) → bit_and x (2 ^ s - 1) ≡ x % 2 ^ s
bit_and-mask zero x = omega (arith, bit_and-mask_zero x)
bit_and-mask (suc s) x = omega (
  arith,
  bit_and_low x (2 ^ suc s - 1),
  pow-suc 2 s,
  one-le-pow s 2,
  ap (λ (t : ℕ). bit_and (x / 2) t) {x = (2 ^ suc s - 1) / 2} {y = 2 ^ s - 1}
      (omega (arith, pow-suc 2 s, one-le-pow s 2)),
  bit_and-mask s (x / 2),
  mod-double x (2 ^ s) (omega (arith, one-le-pow s 2)),
  ap (λ (t : ℕ). x % t) {x = 2 ^ suc s} {y = 2 * 2 ^ s} (omega (arith, pow-suc 2 s)),
)
