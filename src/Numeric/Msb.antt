-- ===== src/Numeric/Msb.antt =====
-- `get_msb` finds the highest set bit, and with overflow checks it panics from 32 on.
use barustenberg.Prelude.Failures.{bind-ne_err, index-ne_err}
use barustenberg.Prelude.{
  ◌≢◌, err, Bool, false, ◌*◌, ℕ, zero, suc, ◌+◌, ◌-◌, ◌/◌, ◌^◌, ◌≤◌, ◌<◌, ◌≡◌, refl, arith, true,
  ok, panic, Outcome, index, ltb, dec_lt, ◌∙◌, ap, if◌then◌else◌, ◌>>=◌,
}
use native.Mathlib.Nat.{pow-suc, one-le-pow}
use barustenberg.Prelude.Finite.{all_below, all_below_sound, agree, agree_sound}
use barustenberg.Prelude.Bits.{bit, shr, bit-le, bit-bit_or, bit-shr, shr-lt, bit_or-lt, eq_of_bits}
use barustenberg.Numeric.{
  Profile, checked, wrapping, mul_word, fold, smear32, smear64, get_msb32, get_msb64,
  multiply_de_bruijn_bit_position, de_bruijn_sequence,
}

-- The value with the bits `0 … k` set.
abbrev pub ones : ℕ → ℕ
ones k = 2 ^ suc k - 1

bit-top : (k x : ℕ) → 2 ^ k ≤ x → x < 2 ^ suc k → bit x k ≡ 1
bit-top zero x p q = omega arith
bit-top (suc k) x p q =
    bit-top k (x / 2) (omega (arith, pow-suc 2 k)) (omega (arith, pow-suc 2 k, pow-suc 2 (suc k)))

bit-ones : (k i : ℕ) → i ≤ k → bit (ones k) i ≡ 1
bit-ones k zero h = omega (arith, pow-suc 2 k, one-le-pow k 2)
bit-ones zero (suc i) h = absurd (omega arith)
bit-ones (suc k) (suc i) h =
    ap (λ t. bit t i) {x = ones (suc k) / 2} {y = ones k}
      (omega (arith, pow-suc 2 (suc k), one-le-pow (suc k) 2))
    ∙ bit-ones k i (omega arith)

-- The top `m` bits of `v`, among the bits `0 … k`, are set, and no bit is set above them.
record Smeared (k m v : ℕ) : Type 0 where
  below : v < 2 ^ suc k
  set : (i : ℕ) → i ≤ k → k < i + m → bit v i ≡ 1

fold-Smeared : (k m v : ℕ) → Smeared k m v → Smeared k (m + m) (fold m v)
fold-Smeared k m v s = record {
  below = bit_or-lt (suc k) v (shr v m) s.below (shr-lt v m (2 ^ suc k) s.below);
  set = λ i h q. either i h q (dec_lt k (i + m));
}
  where
    either : (i : ℕ) → i ≤ k → k < i + (m + m) → Dec (k < i + m) → bit (fold m v) i ≡ 1
    either i h q (yes near) =
        omega (arith, bit-bit_or v (shr v m) i, s.set i h near, bit-le (shr v m) i)
    either i h q (no far) = omega (
      arith,
      bit-bit_or v (shr v m) i,
      bit-shr v m i,
      s.set (m + i) (omega arith) (omega arith),
      bit-le v i,
    )

start-Smeared : (k x : ℕ) → 2 ^ k ≤ x → x < 2 ^ suc k → Smeared k 1 x
start-Smeared k x p q = record {
  below = q;
  set = λ i h l. ap (bit x) {x = i} {y = k} (omega arith) ∙ bit-top k x p q;
}

Smeared-ones : (k m v : ℕ) → k < m → Smeared k m v → v ≡ ones k
Smeared-ones k m v h s =
    eq_of_bits (suc k) v (ones k) s.below (omega (arith, one-le-pow (suc k) 2))
      (λ i l. omega (arith, s.set i (omega arith) (omega arith), bit-ones k i (omega arith)))

pub smear32-ones : (k x : ℕ) → k < 32 → 2 ^ k ≤ x → x < 2 ^ suc k → smear32 x ≡ ones k
unfolding smear32
smear32-ones k x h p q = Smeared-ones k 32 _ h (
    fold-Smeared k 16 _ (
      fold-Smeared k 8 _
        (fold-Smeared k 4 _ (fold-Smeared k 2 _ (fold-Smeared k 1 x (start-Smeared k x p q))))))

pub smear64-ones : (k x : ℕ) → k < 64 → 2 ^ k ≤ x → x < 2 ^ suc k → smear64 x ≡ ones k
unfolding smear64
smear64-ones k x h p q = Smeared-ones k 64 _ h (
    fold-Smeared k 32 _ (
      fold-Smeared k 16 _ (
        fold-Smeared k 8 _
          (fold-Smeared k 4 _ (fold-Smeared k 2 _ (fold-Smeared k 1 x (start-Smeared k x p q)))))))

-- The tables, at every position of the highest bit.
look32 : Profile → ℕ → Outcome ℕ
look32 p v =
    mul_word p 32 v 0x07C4ACDD >>= λ hash. index multiply_de_bruijn_bit_position (hash / 2 ^ 27)

look64 : Profile → ℕ → Outcome ℕ
look64 p v = mul_word p 64 v 0x03F79D71B4CB0A89 >>= λ hash. index de_bruijn_sequence (hash / 2 ^ 58)

-- What the product allows: with overflow checks it must not wrap.
abbrev pub expected : Profile → ℕ → ℕ → Outcome ℕ
expected checked limit k = if ltb k limit then ok k else panic
expected wrapping limit k = ok k

table32 : (p : Profile) → all_below 32 (λ k. agree (look32 p (ones k)) (expected p 5 k)) ≡ true
unfolding all_below agree look32
table32 checked = refl
table32 wrapping = refl

table64 : (p : Profile) → all_below 64 (λ k. agree (look64 p (ones k)) (expected p 6 k)) ≡ true
unfolding all_below agree look64
table64 checked = refl
table64 wrapping = refl

-- On a 32-bit input whose highest set bit is at position `k`, `get_msb32` returns `k` when compiled
-- without overflow checks. With them it returns `k` for `k < 5` and panics for every other `k`.
pub get_msb32_lem :
    (p : Profile) (k x : ℕ) → k < 32 → 2 ^ k ≤ x → x < 2 ^ suc k → get_msb32 p x ≡ expected p 5 k
unfolding get_msb32 look32
get_msb32_lem p k x h lo hi =
    rw (smear32-ones k x h lo hi)
      (agree_sound (look32 p (ones k)) (expected p 5 k) (all_below_sound 32 _ k h (table32 p)))

-- On a 64-bit input whose highest set bit is at position `k`, `get_msb64` returns `k` when compiled
-- without overflow checks. With them it returns `k` for `k < 6` and panics for every other `k`.
pub get_msb64_lem :
    (p : Profile) (k x : ℕ) → k < 64 → 2 ^ k ≤ x → x < 2 ^ suc k → get_msb64 p x ≡ expected p 6 k
unfolding get_msb64 look64
get_msb64_lem p k x h lo hi =
    rw (smear64-ones k x h lo hi)
      (agree_sound (look64 p (ones k)) (expected p 6 k) (all_below_sound 64 _ k h (table64 p)))

-- Zero has no highest bit, and is given position 0.
pub get_msb64-zero : (p : Profile) → get_msb64 p 0 ≡ ok 0
unfolding get_msb64
get_msb64-zero checked = refl
get_msb64-zero wrapping = refl

pub get_msb64-ne_err : (p : Profile) (x : ℕ) → get_msb64 p x ≢ err
unfolding get_msb64
get_msb64-ne_err p x =
    bind-ne_err (mul_word p 64 (smear64 x) 0x03F79D71B4CB0A89) _ (by_profile p)
      (λ hash. index-ne_err de_bruijn_sequence (hash / 2 ^ 58))
  where
    by_test : (t : Bool) (n : ℕ) → (if t then ok n else panic) ≢ err
    by_test true n = λ e. cc
    by_test false n = λ e. cc

    by_profile : (p : Profile) → mul_word p 64 (smear64 x) 0x03F79D71B4CB0A89 ≢ err
    by_profile checked =
        by_test (ltb (smear64 x * 0x03F79D71B4CB0A89) (2 ^ 64)) (smear64 x * 0x03F79D71B4CB0A89)
    by_profile wrapping = λ e. cc
