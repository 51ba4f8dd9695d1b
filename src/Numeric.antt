-- ===== src/Numeric.antt =====
-- barustenberg/src/numeric/bitop/get_msb.rs: the index of the highest set bit, by a De Bruijn
-- product, and `reverse_bits` of barustenberg/src/polynomials/polynomial_arithmetic.rs.
pub mod Msb
pub mod Reverse
pub mod Power
mod Tests
use barustenberg.Prelude.{
  zero, suc, ◌<◌, ◌≡◌, ap, arith, ℕ, ◌+◌, ◌-◌, ◌*◌, ◌/◌, ◌%◌, ◌^◌, bit_or, bit_and, Bool, true,
  false, List, [], ◌∷◌, Outcome, ok, panic, index, ◌>>=◌, if◌then◌else◌, ltb, ◌&&◌, ◌==◌, not,
}
use barustenberg.Prelude.Bits.{shr, shl}

-- How the crate is compiled. With overflow checks an overflowing product or shift panics, and
-- without them it wraps.
pub data Profile : Type 0 where
  checked wrapping : Profile

-- `n - 1` on a usize.
abbrev pub pred_usize : Profile → ℕ → Outcome ℕ
pred_usize p (suc n) = ok n
pred_usize checked zero = panic
pred_usize wrapping zero = ok (2 ^ 64 - 1)

pub pred_usize-pos : (p : Profile) (n : ℕ) → 0 < n → pred_usize p n ≡ ok (n - 1)
pred_usize-pos p zero h = absurd (omega arith)
pred_usize-pos p (suc n) h = ap ok {x = n} {y = suc n - 1} (omega arith)

abbrev pub multiply_de_bruijn_bit_position : List ℕ
multiply_de_bruijn_bit_position =
    0 ∷ 9 ∷ 1 ∷ 10 ∷ 13 ∷ 21 ∷ 2 ∷ 29 ∷ 11 ∷ 14 ∷ 16 ∷ 18 ∷ 22 ∷ 25 ∷ 3 ∷ 30 ∷ 8 ∷ 12 ∷ 20 ∷ 28 ∷ 15
    ∷ 17 ∷ 24 ∷ 7 ∷ 19 ∷ 27 ∷ 23 ∷ 6 ∷ 26 ∷ 5 ∷ 4 ∷ 31 ∷ []

abbrev pub de_bruijn_sequence : List ℕ
de_bruijn_sequence =
    0 ∷ 47 ∷ 1 ∷ 56 ∷ 48 ∷ 27 ∷ 2 ∷ 60 ∷ 57 ∷ 49 ∷ 41 ∷ 37 ∷ 28 ∷ 16 ∷ 3 ∷ 61 ∷ 54 ∷ 58 ∷ 35 ∷ 52
    ∷ 50 ∷ 42 ∷ 21 ∷ 44 ∷ 38 ∷ 32 ∷ 29 ∷ 23 ∷ 17 ∷ 11 ∷ 4 ∷ 62 ∷ 46 ∷ 55 ∷ 26 ∷ 59 ∷ 40 ∷ 36 ∷ 15
    ∷ 53 ∷ 34 ∷ 51 ∷ 20 ∷ 43 ∷ 31 ∷ 22 ∷ 10 ∷ 45 ∷ 25 ∷ 39 ∷ 14 ∷ 33 ∷ 19 ∷ 30 ∷ 9 ∷ 24 ∷ 13 ∷ 18
    ∷ 8 ∷ 12 ∷ 7 ∷ 6 ∷ 5 ∷ 63 ∷ []

-- `a * b` on words of `w` bits.
abbrev pub mul_word : Profile → ℕ → ℕ → ℕ → Outcome ℕ
mul_word checked w a b = if ltb (a * b) (2 ^ w) then ok (a * b) else panic
mul_word wrapping w a b = ok (a * b % 2 ^ w)

-- `v | (v >> s)`
abbrev pub fold : ℕ → ℕ → ℕ
fold s v = bit_or v (shr v s)

pub smear32 : ℕ → ℕ
smear32 in_val = fold 16 (fold 8 (fold 4 (fold 2 (fold 1 in_val))))

unfoldable pub smear64 : ℕ → ℕ
smear64 in_val = fold 32 (fold 16 (fold 8 (fold 4 (fold 2 (fold 1 in_val)))))

pub get_msb32 : Profile → ℕ → Outcome ℕ
unfolding smear32
get_msb32 p in_val = do
  hash ← mul_word p 32 (smear32 in_val) 0x07C4ACDD
  index multiply_de_bruijn_bit_position (hash / 2 ^ 27)

unfoldable pub get_msb64 : Profile → ℕ → Outcome ℕ
unfolding smear64
get_msb64 p in_val = do
  hash ← mul_word p 64 (smear64 in_val) 0x03F79D71B4CB0A89
  index de_bruijn_sequence (hash / 2 ^ 58)

-- `x << s` on 32 bits
abbrev pub shl32 : ℕ → ℕ → ℕ
shl32 x s = shl x s % 2 ^ 32

-- One line of `reverse_bits`: the fields at the positions of `high` go down by `s`, those at the
-- positions of `low` go up by `s`.
unfoldable pub exchange : ℕ → ℕ → ℕ → ℕ → ℕ
exchange s high low x = bit_or (shr (bit_and x high) s) (shl32 (bit_and x low) s)

-- Its last line needs no mask.
unfoldable pub swap_halves : ℕ → ℕ
swap_halves x = bit_or (shr x 16) (shl32 x 16)

unfoldable pub reverse_word : ℕ → ℕ
unfolding exchange swap_halves
reverse_word x =
    let x1 = exchange 1 0xaaaaaaaa 0x55555555 x in
    let x2 = exchange 2 0xcccccccc 0x33333333 x1 in
    let x3 = exchange 4 0xf0f0f0f0 0x0f0f0f0f x2 in
    let x4 = exchange 8 0xff00ff00 0x00ff00ff x3 in swap_halves x4

-- `y >> (32 - bit_length)` on `u32`s. The difference overflows above 32 and the shift at 0. Without
-- the checks the difference wraps and the shift takes its low five bits.
unfoldable pub reverse_bits : Profile → ℕ → ℕ → Outcome ℕ
unfolding reverse_word
reverse_bits checked x bit_length =
    if ltb 0 bit_length && ltb bit_length 33
    then ok (shr (reverse_word x) (32 - bit_length))
    else panic
reverse_bits wrapping x bit_length =
    ok (shr (reverse_word x) ((2 ^ 32 + 32 - bit_length) % 2 ^ 32 % 32))

-- The source has it for `u64` and, as `is_power_of_two_usize`, for `usize`.
unfoldable pub is_power_of_two : ℕ → Bool
is_power_of_two x = not (x == 0) && (bit_and x (x - 1) == 0)
