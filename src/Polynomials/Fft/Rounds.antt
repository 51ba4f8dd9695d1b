-- ===== src/Polynomials/Fft/Rounds.antt =====
-- `fft_inner_parallel` on eight points or more: the loop over `m` goes through every even number, and
-- the last of them reaches past the target.
use barustenberg.Prelude.{
  ℕ, zero, suc, ◌+◌, ◌-◌, ◌*◌, ◌/◌, ◌%◌, ◌^◌, ◌<◌, ◌≤◌, ◌≡◌, ◌≢◌, refl, ap, List, ok, err, panic,
  index, assign, ◌>>=◌, if◌then◌else◌, leb, bit_and, Bool, true, false, length, arith, for_step,
}
use barustenberg.Prelude.Bits.{bit_and_low}
use barustenberg.Prelude.Failures.{bind-panic, index-ne_err, assign-ne_err, bind-ne_err}
use barustenberg.Prelude.Steps.{
  index-out, Holds, HasLength, bind-Holds, safe-Holds, assign-HasLength, for_range-Holds,
  for_step-Holds, Holds-panic, for_range-panic, for_step-panic,
}
use barustenberg.Numeric.{Profile, checked, wrapping, reverse_bits, get_msb64, pred_usize}
use barustenberg.Numeric.Reverse.{reverse_bits-ne_err}
use barustenberg.Numeric.Msb.{get_msb64-ne_err}
use barustenberg.Field.{Field, ◌⊕◌, ◌⊗◌, ◌⊖◌}
use barustenberg.Polynomials.Lagrange.{EvaluationDomain}
use barustenberg.Polynomials.Fft.{
  first_butterfly, first_round, copy_back, butterfly, thread_round, round, fft_inner_parallel,
}

bit_and-two : (y : ℕ) → y / 2 % 2 ≡ 1 → 2 ≤ bit_and 2 y
bit_and-two y h = omega (arith, h, bit_and_low 2 y, bit_and_low 1 (y / 2))

pub pred_usize-ne_err : (p : Profile) (n : ℕ) → pred_usize p n ≢ err
pred_usize-ne_err checked zero = λ e. cc
pred_usize-ne_err wrapping zero = λ e. cc
pred_usize-ne_err p (suc n) = λ e. cc

module _ {ℓ} {A : Type ℓ} ⦃f : Field A⦄ where
  first_round-Holds :
      (p : Profile) (d : EvaluationDomain A) (coeffs t : List A) (n : ℕ)
      → length t ≡ n
      → Holds (HasLength n) (first_round p d coeffs t)
  unfolding first_round first_butterfly
  first_round-Holds p d coeffs t n e =
      for_range-Holds (HasLength n) _ d.num_threads 0 t
        (λ j t1 e1.
          for_step-Holds (HasLength n) 2 _ ((d.thread_size + 1) / 2) (j * d.thread_size) t1
            (λ i t2 e2.
              safe-Holds (HasLength n) (reverse_bits p (i % 2 ^ 32) (d.log2_size % 2 ^ 32)) _
                (reverse_bits-ne_err p _ _)
                (λ s1.
                  safe-Holds (HasLength n)
                    (reverse_bits p ((i + 1) % 2 ^ 32) (d.log2_size % 2 ^ 32)) _
                    (reverse_bits-ne_err p _ _)
                    (λ s2.
                      safe-Holds (HasLength n) (index coeffs s1) _ (index-ne_err coeffs s1) (λ a.
                        safe-Holds (HasLength n) (index coeffs s2) _ (index-ne_err coeffs s2) (λ b.
                          bind-Holds (HasLength n) (HasLength n) (assign t2 (i + 1) (a ⊖ b)) _
                            (assign-HasLength n t2 (i + 1) (a ⊖ b) e2)
                            (λ t3 e3. assign-HasLength n t3 i (a ⊕ b) e3))))))
            e1)
        e

  copy_back-ne_err : (coeffs t : List A) → copy_back coeffs t ≢ err
  unfolding copy_back
  copy_back-ne_err coeffs t = bind-ne_err (index t 0) _ (index-ne_err t 0) (λ t0.
      bind-ne_err (assign coeffs 0 t0) _ (assign-ne_err coeffs 0 t0) (λ coeffs1.
        bind-ne_err (index t 1) _ (index-ne_err t 1) (λ t1. assign-ne_err coeffs1 1 t1)))

  pub butterfly-Holds :
      (m : ℕ) (round_roots : List A) (i n : ℕ) (t : List A)
      → length t ≡ n
      → Holds (HasLength n) (butterfly m round_roots i t)
  unfolding butterfly
  butterfly-Holds m round_roots i n t e =
      let k1 : ℕ = bit_and i (2 ^ 64 - 1 - (m - 1)) * 2 in
      let j1 : ℕ = bit_and i (m - 1) in
      safe-Holds (HasLength n) (index round_roots j1) _ (index-ne_err round_roots j1) (λ r.
        safe-Holds (HasLength n) (index t (k1 + j1 + m)) _ (index-ne_err t (k1 + j1 + m)) (λ b.
          safe-Holds (HasLength n) (index t (k1 + j1)) _ (index-ne_err t (k1 + j1)) (λ a.
            bind-Holds (HasLength n) (HasLength n) (assign t (k1 + j1 + m) (a ⊖ r ⊗ b)) _
              (assign-HasLength n t (k1 + j1 + m) (a ⊖ r ⊗ b) e)
              (λ t1 e1.
                safe-Holds (HasLength n) (index t1 (k1 + j1)) _ (index-ne_err t1 (k1 + j1))
                  (λ a'. assign-HasLength n t1 (k1 + j1) (a' ⊕ r ⊗ b) e1)))))

  thread_round-Holds :
      (p : Profile) (d : EvaluationDomain A) (root_table : List (List A)) (m j n : ℕ) (t : List A)
      → length t ≡ n
      → Holds (HasLength n) (thread_round p d root_table m j t)
  unfolding thread_round
  thread_round-Holds p d root_table m j n t e =
      safe-Holds (HasLength n) (get_msb64 p m) _ (get_msb64-ne_err p m) (λ msb.
        safe-Holds (HasLength n) (pred_usize p msb) _ (pred_usize-ne_err p msb) (λ place.
          safe-Holds (HasLength n) (index root_table place) _ (index-ne_err root_table place)
            (λ row.
              for_range-Holds (HasLength n) (butterfly m row) (d.thread_size / 2)
                (j * (d.thread_size / 2)) t (λ i t1 e1. butterfly-Holds m row i n t1 e1) e)))

  -- At the second point the round for the number of points less two reads behind the target.
  butterfly-panic :
      (size : ℕ) (round_roots t : List A)
      → size % 4 ≡ 0
      → 8 ≤ size
      → size ≤ 2 ^ 64
      → length t ≡ size
      → butterfly (size - 2) round_roots 2 t ≡ panic
  unfolding butterfly
  butterfly-panic size round_roots t four few many e =
      bind-panic (index round_roots j1) _ (index-ne_err round_roots j1)
        (λ r. rw (index-out t (k1 + j1 + (size - 2)) (omega (arith, e, four_on, high))) refl)
    where
      k1 : ℕ
      k1 = bit_and 2 (2 ^ 64 - 1 - (size - 2 - 1)) * 2

      j1 : ℕ
      j1 = bit_and 2 (size - 2 - 1)

      four_on : 4 ≤ k1
      four_on =
          omega (arith, bit_and-two (2 ^ 64 - 1 - (size - 2 - 1)) (omega (arith, four, few, many)))

      high : 0 ≤ j1
      high = omega arith

  round-Holds :
      (p : Profile) (d : EvaluationDomain A) (root_table : List (List A)) (m n : ℕ) (t : List A)
      → length t ≡ n
      → Holds (HasLength n) (round p d root_table m t)
  unfolding round
  round-Holds p d root_table m n t e =
      for_range-Holds (HasLength n) (thread_round p d root_table m) d.num_threads 0 t
        (λ j t1 e1. thread_round-Holds p d root_table m j n t1 e1) e

  -- So does the round of the first thread, and with it the round.
  round-panic :
      (p : Profile) (size : ℕ) (d : EvaluationDomain A) (root_table : List (List A)) (t : List A)
      → size % 4 ≡ 0
      → 8 ≤ size
      → size ≤ 2 ^ 64
      → 0 < d.num_threads
      → 6 ≤ d.thread_size
      → length t ≡ size
      → round p d root_table (size - 2) t ≡ panic
  unfolding round thread_round
  round-panic p size d root_table t four few many threads room e =
      for_range-panic (HasLength size) (thread_round p d root_table (size - 2)) 0 d.num_threads 0 t
        (λ j t1 e1. thread_round-Holds p d root_table (size - 2) j size t1 e1)
        (λ t1 e1. bind-panic (get_msb64 p (size - 2)) _ (get_msb64-ne_err p (size - 2)) (λ msb.
          bind-panic (pred_usize p msb) _ (pred_usize-ne_err p msb) (λ place.
            bind-panic (index root_table place) _ (index-ne_err root_table place) (λ row.
              for_range-panic (HasLength size) (butterfly (size - 2) row) 2 (d.thread_size / 2)
                (0 * (d.thread_size / 2)) t1
                (λ i t2 e2. butterfly-Holds (size - 2) row i size t2 e2)
                (λ t2 e2. butterfly-panic size row t2 four few many e2) (omega arith)
                (omega (arith, room)) e1))))
        (omega arith) (omega (arith, threads)) e

  -- With a number of points that four divides, at least eight, a target of that length and six places or
  -- more for the first thread, `fft_inner_parallel` panics, whatever the coefficients and the roots are.
  pub fft_inner_parallel-panic :
      (p : Profile) (size : ℕ) (d : EvaluationDomain A) (coeffs target : List A)
      (root_table : List (List A))
      → size % 4 ≡ 0
      → 8 ≤ size
      → size ≤ 2 ^ 64
      → length target ≡ size
      → 0 < d.num_threads
      → 6 ≤ d.thread_size
      → fft_inner_parallel p size d coeffs target root_table ≡ panic
  unfolding fft_inner_parallel
  fft_inner_parallel-panic p size d coeffs target root_table four few many e threads room =
      Holds-panic (HasLength size) (first_round p d coeffs target) _
        (first_round-Holds p d coeffs target size e)
        (λ t1 e1.
          bind-panic (if leb size 2 then copy_back coeffs t1 else ok coeffs) _
            (by_size (leb size 2) t1)
            (λ coeffs'. ap (λ m. m >>= λ t2. ok (coeffs', t2)) (rounds t1 e1)))
    where
      by_size : (t : Bool) (t1 : List A) → (if t then copy_back coeffs t1 else ok coeffs) ≢ err
      by_size true t1 = copy_back-ne_err coeffs t1
      by_size false t1 = λ e. cc e

      rounds :
          (t : List A)
          → length t ≡ size
          → for_step 2 ((size - 1) / 2) 2 (round p d root_table) t ≡ panic
      rounds t e =
          for_step-panic (HasLength size) (round p d root_table) (size - 2) ((size - 1) / 2) 2 t
            (λ m t1 e1. round-Holds p d root_table m size t1 e1)
            (λ t1 e1. round-panic p size d root_table t1 four few many threads room e1)
            ((size - 4) / 2) (omega (arith, four, few)) (omega (arith, four, few)) e
