-- ===== src/Composer/Subgroup.antt =====
-- `get_circuit_subgroup_size` is the least power of two that holds the gates.
use barustenberg.Prelude.{
  ℕ, zero, suc, ◌+◌, ◌*◌, ◌/◌, ◌<◌, ◌≤◌, ◌^◌, ◌≡◌, refl, ap, ok, arith, leb, true, false,
  Bool-cases, inl, inr, lt→ltb, leb→le, le→leb, ℕ_discrete,
}
use native.Mathlib.Nat.{pow-suc}
use barustenberg.Numeric.{Profile}
use barustenberg.Composer.{power_from, next_power_of_two, trailing_zeros, get_circuit_subgroup_size}

double : (k : ℕ) → 2 * 2 ^ k ≡ 2 ^ suc k
double k = omega (arith, pow-suc 2 k)

power_from-found :
    (profile : Profile) (count k n : ℕ)
    → n ≤ 2 ^ (k + count)
    → (m : ℕ) × (power_from profile (suc count) (2 ^ k) n ≡ ok (2 ^ m))
      × (m ≤ k + count)
      × (n ≤ 2 ^ m)
      × ((j : ℕ) → k ≤ j → n ≤ 2 ^ j → m ≤ j)
unfolding power_from
power_from-found profile zero k n h = (
  k,
  rw (fits) refl,
  omega arith,
  omega (arith, ap (λ t. 2 ^ t) {x = k + 0} {y = k} (omega arith)),
  λ j a b. a,
)
  where
    fits : leb n (2 ^ k) ≡ true
    fits = le→leb n (2 ^ k) (omega (arith, ap (λ t. 2 ^ t) {x = k + 0} {y = k} (omega arith)))
power_from-found profile (suc count) k n h = elim (Bool-cases (leb n (2 ^ k))) [
  | inl e ↦ (k, rw e refl, omega arith, leb→le n (2 ^ k) e, λ j a b. a)
  | inr e ↦
      let (m, run, hi, lo, least) =
        power_from-found profile count (suc k) n
          (omega (arith, ap (λ t. 2 ^ t) {x = k + suc count} {y = suc k + count} (omega arith))) in
      (m, rw (e, double k) run, omega arith, lo, λ j a b. least j (above e j a b) b)
]
  where
    above : leb n (2 ^ k) ≡ false → (j : ℕ) → k ≤ j → n ≤ 2 ^ j → suc k ≤ j
    above e j a b = elim (ℕ_discrete k j) [
      | yes q ↦ absurd (ground (arith, ap (λ t. 2 ^ t) q))
      | no q ↦ omega arith
    ]

trailing_zeros-pow : (count m : ℕ) → m < count → trailing_zeros count (2 ^ m) ≡ m
unfolding trailing_zeros
trailing_zeros-pow zero m h = absurd (omega arith)
trailing_zeros-pow (suc count) zero h = refl
trailing_zeros-pow (suc count) (suc m) h = ground (
  arith,
  pow-suc 2 m,
  trailing_zeros-pow count m,
  ap (trailing_zeros count) {x = 2 ^ suc m / 2} {y = 2 ^ m} (omega (arith, pow-suc 2 m)),
)

-- For at most `2 ^ 63` gates the subgroup's size is the least power of two that is not below them,
-- under either profile.
pub get_circuit_subgroup_size_lem :
    (profile : Profile) (num_gates : ℕ)
    → num_gates ≤ 2 ^ 63
    → (m : ℕ) × (get_circuit_subgroup_size profile num_gates ≡ ok (2 ^ m))
      × (num_gates ≤ 2 ^ m)
      × ((j : ℕ) → num_gates ≤ 2 ^ j → m ≤ j)
unfolding get_circuit_subgroup_size next_power_of_two
get_circuit_subgroup_size_lem profile n h =
    let (m, run, hi, lo, least) = power_from-found profile 63 0 n h in
    (
      m,
      rw run (rw (trailing_zeros-pow 64 m (omega arith), lt→ltb m 64 (omega arith)) refl),
      lo,
      λ j b. least j (omega arith) b,
    )
