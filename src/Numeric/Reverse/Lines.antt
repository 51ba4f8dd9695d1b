-- ===== src/Numeric/Reverse/Lines.antt =====
-- The five lines of `reverse_bits`: each exchanges neighbouring fields, and together they reverse
-- 32 bits.
use barustenberg.Prelude.{
  ℕ, zero, suc, ◌+◌, ◌-◌, ◌*◌, ◌/◌, ◌%◌, ◌^◌, ◌≤◌, ◌<◌, bit_and, ◌≡◌, refl, arith, Bool, true, ◌&&◌,
  ◌||◌, ltb, dec_lt, ◌∙◌, ap, ◌==◌, ==_iff, if◌then◌else◌,
}
use native.Mathlib.Nat.{pow-suc, one-le-pow, mod-eq_of_lt, add-mul-mod_self_left, div-add-mod}
use barustenberg.Prelude.Finite.{all_below, all_below_sound}
use barustenberg.Prelude.Bits.{
  bit, shr, shl, bit-le, bit-bit_or, bit-bit_and, bit-shr, shr-lt, bit_or-lt, bit_and-lt, bit_above,
}
use barustenberg.Numeric.{shl32, exchange, swap_halves, reverse_word}

mod-pow-suc : (n x : ℕ) → x % 2 ^ suc n ≡ (x / 2) % 2 ^ n * 2 + x % 2
mod-pow-suc n x =
    ap (λ (t : ℕ). t % 2 ^ suc n) parts
    ∙ add-mul-mod_self_left ((x / 2) % 2 ^ n * 2 + x % 2) (2 ^ suc n) (x / 2 / 2 ^ n)
    ∙ mod-eq_of_lt small
  where
    parts : x ≡ ((x / 2) % 2 ^ n * 2 + x % 2) + 2 ^ suc n * (x / 2 / 2 ^ n)
    parts = omega (
      arith,
      pow-suc 2 n,
      ap (λ (t : ℕ). t * (x / 2 / 2 ^ n)) (pow-suc 2 n),
      div-add-mod (x / 2) (2 ^ n),
    )

    small : (x / 2) % 2 ^ n * 2 + x % 2 < 2 ^ suc n
    small = omega (arith, pow-suc 2 n, one-le-pow n 2)

bit-mod : (n x i : ℕ) → i < n → bit (x % 2 ^ n) i ≡ bit x i
bit-mod zero x i h = absurd (omega arith)
bit-mod (suc n) x zero h = omega (arith, mod-pow-suc n x)
bit-mod (suc n) x (suc i) h =
    ap (λ t. bit t i) {x = x % 2 ^ suc n / 2} {y = (x / 2) % 2 ^ n} (omega (arith, mod-pow-suc n x))
    ∙ bit-mod n (x / 2) i (omega arith)

bit-shl_low : (x s i : ℕ) → i < s → bit (shl x s) i ≡ 0
bit-shl_low x zero i h = absurd (omega arith)
bit-shl_low x (suc s) zero h = omega arith
bit-shl_low x (suc s) (suc i) h =
    ap (λ t. bit t i) {x = shl x s * 2 / 2} {y = shl x s} (omega arith)
    ∙ bit-shl_low x s i (omega arith)

bit-shl_high : (x s i : ℕ) → bit (shl x s) (s + i) ≡ bit x i
bit-shl_high x zero i = ap (bit x) {x = 0 + i} {y = i} (omega arith)
bit-shl_high x (suc s) i =
    ap (bit (shl x s * 2)) {x = suc s + i} {y = suc (s + i)} (omega arith)
    ∙ ap (λ t. bit t (s + i)) {x = shl x s * 2 / 2} {y = shl x s} (omega arith)
    ∙ bit-shl_high x s i

bit-shl_sub : (x s i : ℕ) → s ≤ i → bit (shl x s) i ≡ bit x (i - s)
bit-shl_sub x s i h =
    ap (bit (shl x s)) {x = i} {y = s + (i - s)} (omega arith) ∙ bit-shl_high x s (i - s)

bit-shl32 : (x s i : ℕ) → i < 32 → bit (shl32 x s) i ≡ bit (shl x s) i
bit-shl32 x s i h = bit-mod 32 (shl x s) i h

-- The position that a line of width `s` exchanges with `i`.
partner : ℕ → ℕ → ℕ
partner s i = if i / s % 2 == 0 then i + s else i - s

-- The masks of a line of width `s`, at the position `i`: what is to move there is let through, and
-- nothing else is.
fits : ℕ → ℕ → ℕ → ℕ → Bool
fits s high low i =
    if i / s % 2 == 0
    then (bit high (s + i) == 1) && (ltb i s || bit low (i - s) == 0)
    else ltb (s - 1) i && ((bit high (s + i) == 0) && (bit low (i - s) == 1))

bit-exchange :
    (s high low x i : ℕ)
    → 0 < s
    → i < 32
    → fits s high low i ≡ true
    → bit (exchange s high low x) i ≡ bit x (partner s i)
unfolding fits partner exchange
bit-exchange s high low x i hs hi h = elim (dec_lt i s) [
  | yes near ↦ ground (
    arith,
    bit-bit_or (shr (bit_and x high) s) (shl32 (bit_and x low) s) i,
    bit-shr (bit_and x high) s i,
    bit-bit_and x high (s + i),
    bit-shl32 (bit_and x low) s i hi,
    bit-shl_low (bit_and x low) s i near,
    bit-le x (s + i),
    ap (bit x) {x = s + i} {y = i + s} (omega arith),
  )
  | no far ↦ ground (
    arith,
    bit-bit_or (shr (bit_and x high) s) (shl32 (bit_and x low) s) i,
    bit-shr (bit_and x high) s i,
    bit-bit_and x high (s + i),
    bit-bit_and x low (i - s),
    bit-shl32 (bit_and x low) s i hi,
    bit-shl_sub (bit_and x low) s i (omega arith),
    bit-le x (s + i),
    bit-le x (i - s),
    ap (bit x) {x = s + i} {y = i + s} (omega arith),
  )
]

exchange-lt : (s high low x : ℕ) → x < 2 ^ 32 → exchange s high low x < 2 ^ 32
unfolding exchange
exchange-lt s high low x h =
    bit_or-lt 32 _ _ (shr-lt (bit_and x high) s (2 ^ 32) (bit_and-lt 32 x high h)) (omega arith)

bit-swap_halves : (x i : ℕ) → x < 2 ^ 32 → i < 32 → bit (swap_halves x) i ≡ bit x (partner 16 i)
unfolding swap_halves partner
bit-swap_halves x i hx h = elim (dec_lt i 16) [
  | yes near ↦ ground (
    arith,
    bit-bit_or (shr x 16) (shl32 x 16) i,
    bit-shr x 16 i,
    bit-shl32 x 16 i h,
    bit-shl_low x 16 i near,
    ap (bit x) {x = 16 + i} {y = i + 16} (omega arith),
  )
  | no far ↦ ground (
    arith,
    bit-bit_or (shr x 16) (shl32 x 16) i,
    bit-shr x 16 i,
    bit-shl32 x 16 i h,
    bit-shl_sub x 16 i (omega arith),
    bit_above 32 x (16 + i) hx (omega arith),
  )
]

-- The masks of the source fit at every position.
masks_fit :
    all_below 32 (λ i.
      (fits 1 0xaaaaaaaa 0x55555555 i && fits 2 0xcccccccc 0x33333333 i)
      && (fits 4 0xf0f0f0f0 0x0f0f0f0f i && fits 8 0xff00ff00 0x00ff00ff i))
    ≡ true
unfolding all_below fits
masks_fit = refl

-- The five exchanges together send each position to its mirror image.
mirrored :
    all_below 32 (λ i. partner 1 (partner 2 (partner 4 (partner 8 (partner 16 i)))) == 31 - i)
    ≡ true
unfolding all_below partner
mirrored = refl

partners_bounded :
    all_below 32 (λ i.
      (ltb (partner 2 i) 32 && ltb (partner 4 i) 32)
      && (ltb (partner 8 i) 32 && ltb (partner 16 i) 32))
    ≡ true
unfolding all_below partner
partners_bounded = refl

bounds :
    (i : ℕ)
    → i < 32
    → (partner 2 i < 32) × (partner 4 i < 32) × (partner 8 i < 32) × (partner 16 i < 32)
bounds i h = grind (arith, all_below_sound 32 _ i h partners_bounded)

mask_facts :
    (i : ℕ)
    → i < 32
    → (fits 1 0xaaaaaaaa 0x55555555 i ≡ true)
      × (fits 2 0xcccccccc 0x33333333 i ≡ true)
      × (fits 4 0xf0f0f0f0 0x0f0f0f0f i ≡ true)
      × (fits 8 0xff00ff00 0x00ff00ff i ≡ true)
mask_facts i h = grind (arith, all_below_sound 32 _ i h masks_fit)

line1 : ℕ → ℕ
line1 x = exchange 1 0xaaaaaaaa 0x55555555 x

line2 : ℕ → ℕ
line2 x = exchange 2 0xcccccccc 0x33333333 (line1 x)

line4 : ℕ → ℕ
line4 x = exchange 4 0xf0f0f0f0 0x0f0f0f0f (line2 x)

line8 : ℕ → ℕ
line8 x = exchange 8 0xff00ff00 0x00ff00ff (line4 x)

lines-lt :
    (x : ℕ)
    → x < 2 ^ 32
    → (line1 x < 2 ^ 32) × (line2 x < 2 ^ 32) × (line4 x < 2 ^ 32) × (line8 x < 2 ^ 32)
unfolding line1 line2 line4 line8
lines-lt x h =
    let h1 = exchange-lt 1 0xaaaaaaaa 0x55555555 x h in
    let h2 = exchange-lt 2 0xcccccccc 0x33333333 _ h1 in
    let h4 = exchange-lt 4 0xf0f0f0f0 0x0f0f0f0f _ h2 in
    (h1, h2, h4, exchange-lt 8 0xff00ff00 0x00ff00ff _ h4)

bit-line1 : (x i : ℕ) → i < 32 → bit (line1 x) i ≡ bit x (partner 1 i)
unfolding line1
bit-line1 x i h = bit-exchange 1 0xaaaaaaaa 0x55555555 x i (omega arith) h (mask_facts i h).0

bit-line2 : (x i : ℕ) → i < 32 → bit (line2 x) i ≡ bit x (partner 1 (partner 2 i))
unfolding line2
bit-line2 x i h =
    bit-exchange 2 0xcccccccc 0x33333333 _ i (omega arith) h (mask_facts i h).1
    ∙ bit-line1 x (partner 2 i) (bounds i h).0

bit-line4 : (x i : ℕ) → i < 32 → bit (line4 x) i ≡ bit x (partner 1 (partner 2 (partner 4 i)))
unfolding line4
bit-line4 x i h =
    bit-exchange 4 0xf0f0f0f0 0x0f0f0f0f _ i (omega arith) h (mask_facts i h).2
    ∙ bit-line2 x (partner 4 i) (bounds i h).1

bit-line8 :
    (x i : ℕ) → i < 32 → bit (line8 x) i ≡ bit x (partner 1 (partner 2 (partner 4 (partner 8 i))))
unfolding line8
bit-line8 x i h =
    bit-exchange 8 0xff00ff00 0x00ff00ff _ i (omega arith) h (mask_facts i h).3
    ∙ bit-line4 x (partner 8 i) (bounds i h).2

pub bit-reverse_word : (x i : ℕ) → x < 2 ^ 32 → i < 32 → bit (reverse_word x) i ≡ bit x (31 - i)
unfolding reverse_word line1 line2 line4 line8
bit-reverse_word x i hx h =
    bit-swap_halves (line8 x) i (lines-lt x hx).3 h
    ∙ bit-line8 x (partner 16 i) (bounds i h).3
    ∙ ap (bit x) ((==_iff _ _).0 (all_below_sound 32 _ i h mirrored))

pub reverse_word-lt : (x : ℕ) → x < 2 ^ 32 → reverse_word x < 2 ^ 32
unfolding reverse_word swap_halves line1 line2 line4 line8
reverse_word-lt x h = bit_or-lt 32 _ _ (shr-lt (line8 x) 16 (2 ^ 32) (lines-lt x h).3) (omega arith)
