-- ===== src/Polynomials/Roots.antt =====
-- barustenberg/src/polynomials/evaluation_domain.rs: `compute_lookup_table_single`, the roots of unity
-- of each round of a transform.
pub mod Table
use barustenberg.Prelude.{
  ℕ, zero, suc, ◌+◌, ◌-◌, ◌*◌, ◌/◌, ◌^◌, List, [], ◌∷◌, ◌++◌, Outcome, ok, panic, index, assign,
  ◌>>=◌, if◌then◌else◌, ◌==◌,
}
use barustenberg.Field.{Field, ◌⊗◌}

-- How often `n` can be halved before it is zero, less one: `log2` rounded down. 64 halvings do.
pub halvings : (count n : ℕ) → ℕ
halvings zero n = 0
halvings (suc count) n = let rest = suc (halvings count (n / 2)) in if n / 2 == 0 then 0 else rest

-- `(n as f64).log2()`, down to a whole number. It is exact on powers of two, the sizes of domains; how
-- the logarithm of a number close below one of them is rounded is not modelled. For 0 the conversion
-- gives 0.
unfoldable pub log2_floor : ℕ → ℕ
log2_floor n = halvings 64 n

-- `(n as f64).log2().ceil()`
unfoldable pub log2_ceil : ℕ → ℕ
log2_ceil n =
    let floor = log2_floor n in if n == 0 then 0 else if 2 ^ floor == n then floor else suc floor

-- `round_roots.last().unwrap()`
unfoldable pub last_of : List ℕ → Outcome ℕ
last_of [] = panic
last_of (x ∷ []) = ok x
last_of (x ∷ y ∷ ys) = last_of (y ∷ ys)

-- The first loop, for `left` values of `i`.
unfoldable pub push_starts : (left i : ℕ) → List ℕ → Outcome (List ℕ)
unfolding last_of
push_starts zero i round_roots = ok round_roots
push_starts (suc left) i round_roots = do
  last ← last_of round_roots
  push_starts left (suc i) (round_roots ++ ((last + 2 ^ i) ∷ []))

-- `num_rounds - 1`. Without overflow checks the loop over the wrapped number pushes until there is no
-- memory left.
unfoldable pub rounds_before_last : ℕ → Outcome ℕ
rounds_before_last zero = panic
rounds_before_last (suc n) = ok n

module _ {ℓ} {A : Type ℓ} ⦃f : Field A⦄ where
  -- The innermost loop, for `left` values of `j`.
  unfoldable pub fill_round : (round_root : A) (start left j : ℕ) → List A → Outcome (List A)
  fill_round round_root start zero j roots = ok roots
  fill_round round_root start (suc left) j roots = do
    before ← index roots (start + j - 1)
    roots' ← assign roots (start + j) (before ⊗ round_root)
    fill_round round_root start left (suc j) roots'

  -- The loop over the first `left` of the starts. `m` is `2 ^ (i + 1)`.
  unfoldable pub fill_rounds :
      (input_root : A) (size left i : ℕ) (round_roots : List ℕ) → List A → Outcome (List A)
  unfolding fill_round
  fill_rounds input_root size zero i round_roots roots = ok roots
  fill_rounds input_root size (suc left) i [] roots = ok roots
  fill_rounds input_root size (suc left) i (start ∷ round_roots) roots =
      let m = 2 ^ suc i in
      do
        roots1 ← assign roots start f.one
        roots2 ← fill_round (f.pow input_root (size / (2 * m))) start (m - 1) 1 roots1
        fill_rounds input_root size left (suc i) round_roots roots2

  -- Returns the roots and the starts.
  unfoldable pub compute_lookup_table_single :
      (input_root : A) (size : ℕ) (roots : List A) (round_roots : List ℕ)
      → Outcome (List A × List ℕ)
  unfolding fill_rounds push_starts rounds_before_last log2_ceil
  compute_lookup_table_single input_root size roots round_roots =
      let first = round_roots ++ (0 ∷ []) in
      do
        left ← rounds_before_last (log2_ceil size)
        starts ← push_starts (left - 1) 1 first
        roots' ← fill_rounds input_root size left 0 starts roots
        ok (roots', starts)
