-- ===== src/Numeric/Reverse.antt =====
-- `reverse_bits` reverses the low `bit_length` bits.
mod Lines
use Lines.{bit-reverse_word, reverse_word-lt}
use barustenberg.Prelude.{
  ◌≢◌, err, ℕ, zero, suc, ◌+◌, ◌-◌, ◌*◌, ◌/◌, ◌%◌, ◌^◌, ◌≤◌, ◌<◌, min, max, bit_or, bit_and, ◌≡◌,
  refl, arith, Bool, true, false, ◌&&◌, ◌||◌, ok, panic, Outcome, ltb, dec_lt, ◌∙◌, ap, ◌==◌,
  ==_iff, if◌then◌else◌, Bool-cases, inl, inr, sym, ◌⊎◌, subst, ◌>>=◌,
}
use native.Mathlib.Nat.{
  pow-le-pow_right, pow-suc, one-le-pow, mod-eq_of_lt, add-mul-mod_self_left, div-add-mod, mod-lt,
}
use barustenberg.Prelude.Finite.{all_below, all_below_sound}
use barustenberg.Prelude.Bits.{
  bit, shr, shl, bit-le, bit-bit_or, bit-bit_and, bit-shr, shr-lt, bit_or-lt, eq_of_bits,
  bit_and-lt, bit_above, shr-lt_pow,
}
use barustenberg.Numeric.{
  Profile, checked, wrapping, shl32, exchange, swap_halves, reverse_word, reverse_bits,
}

-- What `reverse_bits` returns at a length from 1 to 32, under either profile.
reversed : ℕ → ℕ → ℕ
reversed x n = shr (reverse_word x) (32 - n)

reverse_bits-reversed :
    (p : Profile) (x n : ℕ) → 0 < n → n ≤ 32 → reverse_bits p x n ≡ ok (reversed x n)
unfolding reverse_bits reversed
reverse_bits-reversed checked x n h q = ground arith
reverse_bits-reversed wrapping x n h q =
    ap (λ k. ok (shr (reverse_word x) k)) {x = (2 ^ 32 + 32 - n) % 2 ^ 32 % 32} {y = 32 - n}
      (omega arith)

reversed-lt : (x n : ℕ) → x < 2 ^ 32 → n ≤ 32 → reversed x n < 2 ^ n
unfolding reversed
reversed-lt x n h q = shr-lt_pow (reverse_word x) (32 - n) n (
    subst (λ k. reverse_word x < 2 ^ k) {x = 32} {y = 32 - n + n} (omega arith)
      (reverse_word-lt x h))

bit-reversed : (x n i : ℕ) → x < 2 ^ 32 → n ≤ 32 → i < n → bit (reversed x n) i ≡ bit x (n - 1 - i)
unfolding reversed
bit-reversed x n i h q l =
    bit-shr (reverse_word x) (32 - n) i
    ∙ bit-reverse_word x (32 - n + i) h (omega arith)
    ∙ ap (bit x) {x = 31 - (32 - n + i)} {y = n - 1 - i} (omega arith)

-- On a 32-bit input and a length from 1 to 32, `reverse_bits` returns a number of that many bits
-- whose bits are the low bits of the input in the opposite order, under either profile.
pub reverse_bits_bits :
    (p : Profile) (x n : ℕ)
    → x < 2 ^ 32
    → 0 < n
    → n ≤ 32
    → (y : ℕ) × (reverse_bits p x n ≡ ok y)
      × (y < 2 ^ n)
      × ((i : ℕ) → i < n → bit y i ≡ bit x (n - 1 - i))
reverse_bits_bits p x n h lo hi = (
  reversed x n,
  reverse_bits-reversed p x n lo hi,
  reversed-lt x n h hi,
  λ i l. bit-reversed x n i h hi l,
)

pow-le32 : (n : ℕ) → n ≤ 32 → 2 ^ n ≤ 2 ^ 32
pow-le32 n h = pow-le-pow_right (omega arith) h

-- Reversing a number of `n` bits twice gives it back.
pub reverse_bits-reverse_bits :
    (p : Profile) (x n : ℕ)
    → x < 2 ^ n
    → 0 < n
    → n ≤ 32
    → (reverse_bits p x n >>= λ y. reverse_bits p y n) ≡ ok x
reverse_bits-reverse_bits p x n h lo hi =
    rw (reverse_bits-reversed p x n lo hi)
      (reverse_bits-reversed p (reversed x n) n lo hi ∙ ap ok twice)
  where
    wide : x < 2 ^ 32
    wide = omega (arith, pow-le32 n hi)

    twice : reversed (reversed x n) n ≡ x
    twice =
        eq_of_bits n _ x
          (reversed-lt (reversed x n) n (omega (arith, pow-le32 n hi, reversed-lt x n wide hi)) hi)
          h
          (λ i l.
            bit-reversed (reversed x n) n i (omega (arith, pow-le32 n hi, reversed-lt x n wide hi))
              hi l
            ∙ bit-reversed x n (n - 1 - i) wide hi (omega arith)
            ∙ ap (bit x) {x = n - 1 - (n - 1 - i)} {y = i} (omega arith))

-- The reversals on two bits.
pub reverse_bits-two :
    (p : Profile)
    → (reverse_bits p 0 2 ≡ ok 0)
      × (reverse_bits p 1 2 ≡ ok 2)
      × (reverse_bits p 2 2 ≡ ok 1)
      × (reverse_bits p 3 2 ≡ ok 3)
unfolding reverse_bits reverse_word exchange swap_halves
reverse_bits-two checked = (refl, refl, refl, refl)
reverse_bits-two wrapping = (refl, refl, refl, refl)

pub reverse_bits-ne_err : (p : Profile) (x n : ℕ) → reverse_bits p x n ≢ err
unfolding reverse_bits
reverse_bits-ne_err checked x n = by_test (ltb 0 n && ltb n 33)
  where
    by_test : (t : Bool) → (if t then ok (shr (reverse_word x) (32 - n)) else panic) ≢ err
    by_test true = λ e. cc
    by_test false = λ e. cc
reverse_bits-ne_err wrapping x n = λ e. cc
