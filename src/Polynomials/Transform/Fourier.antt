-- ===== src/Polynomials/Transform/Fourier.antt =====
-- `partial_fft_serial_inner` on a domain of `2 ^ (k + 2)` points.
use barustenberg.Prelude.{
  ℕ, suc, ◌+◌, ◌-◌, ◌*◌, ◌^◌, ◌<◌, ◌≤◌, ◌≡◌, sym, ap, ◌∙◌, List, ok, index, length, arith,
}
use barustenberg.Prelude.Bits.{shr}
use native.Mathlib.Nat.{one-le-pow, pow-suc}
use barustenberg.Numeric.{Profile, pred_usize-pos}
use barustenberg.Field.{Field}
use barustenberg.Polynomials.Roots.{log2_floor, halvings}
use barustenberg.Polynomials.Roots.Table.{halvings-pow}
use barustenberg.Polynomials.Transform.{Fold, partial_fft_serial_inner}
use barustenberg.Polynomials.Transform.Partial.{place-lt, output}
use barustenberg.Polynomials.Transform.Loops.{IsFold, fill_points-written}

module _ {ℓ} {A : Type ℓ} ⦃f : Field A⦄ where
  -- On `4 n = 2 ^ (k + 2)` points, with as many coefficients and places, and in the row `k` of the table
  -- the powers of `w` up to the half, at which the power is minus one, the function succeeds under either
  -- profile. The output `s` of the point `i`, which stands at `(3 - s) n + i`, is the sum of the coefficients
  -- at `i`, `i + n`, `i + 2 n` and `i + 3 n`, each times the power of `w` to its index times `s + 1`; the
  -- places behind the points keep what they hold.
  pub partial_fft_serial_inner_lem :
      (p : Profile) (w : A) (k n : ℕ) (coeffs target : List A) (root_table : List (List A))
      (row : List A)
      → k + 1 < 64
      → n ≡ 2 ^ k
      → index root_table k ≡ ok row
      → ((t : ℕ) → t < 2 * n → index row t ≡ ok (f.pow w t))
      → f.pow w (2 * n) ≡ f.neg f.one
      → 4 * n ≤ length coeffs
      → 4 * n ≤ length target
      → (target' : List A) × (partial_fft_serial_inner p (4 * n) coeffs target root_table
          ≡ ok target')
        × (length target' ≡ length target)
        × ((s i : ℕ) → s < 4 → i < n → index target' ((3 - s) * n + i) ≡ ok (output w coeffs n s i))
        × ((q : ℕ) → 4 * n ≤ q → index target' q ≡ index target q)
  unfolding partial_fft_serial_inner log2_floor
  partial_fft_serial_inner_lem p w k n coeffs target root_table row few e at roots minus_one enough
        room =
      let (target', run, len, outs, keep) =
        fill_points-written w (suc k) env coeffs is_fold n 0 target (omega arith) room in
      (
        target',
        rw (quarter, middle)
            (rw
              (
                pred_usize-pos p (4 * n) (omega (arith, some_points)),
                pred_usize-pos p (2 * n) (omega (arith, some_points)),
              )
              (rw (ap (halvings 64) twice ∙ halvings-pow 64 (suc k) (omega arith)) (rw at run))),
        len,
        λ s i l b. outs s i l (omega arith) b,
        λ q h. keep q (λ s i l m b d. omega (arith, place-lt n s i l b, d)),
      )
    where
      env : Fold A
      env = record {
        n = n;
        full_mask = 4 * n - 1;
        m = 2 * n;
        half_mask = 2 * n - 1;
        round_roots = row;
      }

      twice : 2 * n ≡ 2 ^ suc k
      twice = omega (arith, e, pow-suc 2 k)

      some_points : 0 < n
      some_points = omega (arith, e, one-le-pow k 2)

      quarter : shr (4 * n) 2 ≡ n
      quarter = omega arith

      middle : shr (4 * n) 1 ≡ 2 * n
      middle = omega arith

      is_fold : IsFold w (suc k) env coeffs
      is_fold = record {
        full = omega (arith, twice, pow-suc 2 (suc k));
        half = omega (arith, twice);
        middle = twice;
        four = omega (arith, twice, pow-suc 2 (suc k));
        roots = λ t b. roots t (omega (arith, twice, b));
        minus_one = ap (f.pow w) (sym twice) ∙ minus_one;
        enough = omega (arith, twice, pow-suc 2 (suc k), enough);
      }
