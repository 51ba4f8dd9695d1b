-- ===== src/Polynomials/Inplace/Last.antt =====
-- The last round of `fft_inner_parallel_vec_inplace` takes `m` to be the number of points.
use barustenberg.Prelude.{
  ℕ, ◌+◌, ◌-◌, ◌*◌, ◌/◌, ◌%◌, ◌^◌, ◌<◌, ◌≤◌, ◌≡◌, ◌≢◌, refl, ap, List, Outcome, ok, err, panic,
  index, assign, assert, ◌>>=◌, if◌then◌else◌, leb, ◌==◌, bit_and, Bool, true, false, length,
  replicate, length-replicate, arith, for_range,
}
use barustenberg.Prelude.Bits.{shr}
use barustenberg.Prelude.Failures.{
  bind-panic, bind-ne_err, index-ne_err, assign-ne_err, assert-ne_err,
}
use barustenberg.Prelude.Steps.{
  index-out, Holds, HasLength, ok-Holds, bind-Holds, safe-Holds, assign-HasLength, for_range-Holds,
  for_step-Holds, Holds-panic, for_range-panic, for_step-panic,
}
use barustenberg.Numeric.{Profile, reverse_bits, pred_usize, is_power_of_two}
use barustenberg.Numeric.Reverse.{reverse_bits-ne_err}
use barustenberg.Field.{Field, ◌⊕◌, ◌⊗◌, ◌⊖◌}
use barustenberg.Composer.{trailing_zeros}
use barustenberg.Polynomials.Lagrange.{EvaluationDomain}
use barustenberg.Polynomials.Fft.{butterfly}
use barustenberg.Polynomials.Fft.Rounds.{butterfly-Holds, pred_usize-ne_err}
use barustenberg.Polynomials.Inplace.{
  read_at, write_at, gather, gather_all, copy_tiny, scatter, inplace_butterfly, inplace_thread,
  fft_inner_parallel_vec_inplace,
}

module _ {ℓ} {A : Type ℓ} where
  read_at-ne_err : (coeffs : List (List A)) (i j : ℕ) → read_at coeffs i j ≢ err
  unfolding read_at
  read_at-ne_err coeffs i j =
      bind-ne_err (index coeffs i) _ (index-ne_err coeffs i) (λ c. index-ne_err c j)

  write_at-ne_err : (coeffs : List (List A)) (i j : ℕ) (v : A) → write_at coeffs i j v ≢ err
  unfolding write_at
  write_at-ne_err coeffs i j v =
      bind-ne_err (index coeffs i) _ (index-ne_err coeffs i)
        (λ c. bind-ne_err (assign c j v) _ (assign-ne_err c j v) (λ c'. assign-ne_err coeffs i c'))

-- The scratch space has `n` places.
abbrev HasSpace {ℓ} : {A : Type ℓ} → ℕ → List A × List (List A) → Type 0
HasSpace n s = length s.0 ≡ n

module _ {ℓ} {A : Type ℓ} ⦃f : Field A⦄ where
  gather_all-Holds :
      (p : Profile) (d : EvaluationDomain A) (log2_poly_size poly_mask : ℕ) (coeffs : List (List A))
      (t : List A) (n : ℕ)
      → length t ≡ n
      → Holds (HasLength n) (gather_all p d log2_poly_size poly_mask coeffs t)
  unfolding gather_all gather
  gather_all-Holds p d l mask coeffs t n e =
      for_range-Holds (HasLength n) _ d.num_threads 0 t
        (λ j t1 e1.
          for_step-Holds (HasLength n) 2 _ ((d.thread_size + 1) / 2) (j * d.thread_size) t1
            (λ i t2 e2.
              safe-Holds (HasLength n) (reverse_bits p (i % 2 ^ 32) (d.log2_size % 2 ^ 32)) _
                (reverse_bits-ne_err p _ _)
                (λ s1.
                  safe-Holds (HasLength n)
                    (reverse_bits p ((i + 1) % 2 ^ 32) (d.log2_size % 2 ^ 32)) _
                    (reverse_bits-ne_err p _ _)
                    (λ s2.
                      safe-Holds (HasLength n) (read_at coeffs (shr s1 l) (bit_and s1 mask)) _
                        (read_at-ne_err coeffs _ _)
                        (λ a.
                          safe-Holds (HasLength n) (read_at coeffs (shr s2 l) (bit_and s2 mask)) _
                            (read_at-ne_err coeffs _ _)
                            (λ b.
                              bind-Holds (HasLength n) (HasLength n) (assign t2 (i + 1) (a ⊖ b)) _
                                (assign-HasLength n t2 (i + 1) (a ⊖ b) e2)
                                (λ t3 e3. assign-HasLength n t3 i (a ⊕ b) e3))))))
            e1)
        e

  copy_tiny-ne_err : (coeffs : List (List A)) (t : List A) → copy_tiny coeffs t ≢ err
  unfolding copy_tiny
  copy_tiny-ne_err coeffs t = bind-ne_err (index t 0) _ (index-ne_err t 0) (λ t0.
      bind-ne_err (write_at coeffs 0 0 t0) _ (write_at-ne_err coeffs 0 0 t0) (λ coeffs1.
        bind-ne_err (index t 1) _ (index-ne_err t 1) (λ t1. write_at-ne_err coeffs1 0 1 t1)))

  scatter-Holds :
      (l mask m : ℕ) (row : List A) (i n : ℕ) (t : List A) (coeffs : List (List A))
      → length t ≡ n
      → Holds (HasSpace n) (scatter l mask m row i (t, coeffs))
  unfolding scatter
  scatter-Holds l mask m row i n t coeffs e =
      safe-Holds (HasSpace n) (index row (bit_and i (m - 1))) _ (index-ne_err row _) (λ r.
        safe-Holds (HasSpace n) (index t _) _ (index-ne_err t _) (λ b.
          safe-Holds (HasSpace n) (index t _) _ (index-ne_err t _) (λ a.
            safe-Holds (HasSpace n) (write_at coeffs _ _ (a ⊖ r ⊗ b)) _
              (write_at-ne_err coeffs _ _ (a ⊖ r ⊗ b))
              (λ coeffs1.
                safe-Holds (HasSpace n) (write_at coeffs1 _ _ (a ⊕ r ⊗ b)) _
                  (write_at-ne_err coeffs1 _ _ (a ⊕ r ⊗ b))
                  (λ coeffs2. ok-Holds (HasSpace n) (t, coeffs2) e)))))

  inplace_butterfly-Holds :
      (size l mask m : ℕ) (row : List A) (i n : ℕ) (s : List A × List (List A))
      → HasSpace n s
      → Holds (HasSpace n) (inplace_butterfly size l mask m row i s)
  unfolding inplace_butterfly
  inplace_butterfly-Holds size l mask m row i n (t, coeffs) e = by_round (m == shr size 1)
    where
      by_round :
          (b : Bool)
          → Holds (HasSpace n) (
              if b
              then scatter l mask m row i (t, coeffs)
              else (butterfly m row i t >>= λ t'. ok (t', coeffs)))
      by_round true = scatter-Holds l mask m row i n t coeffs e
      by_round false =
          bind-Holds (HasSpace n) (HasLength n) (butterfly m row i t) _
            (butterfly-Holds m row i n t e) (λ t' e'. ok-Holds (HasSpace n) (t', coeffs) e')

  inplace_thread-Holds :
      (p : Profile) (size : ℕ) (d : EvaluationDomain A) (l mask : ℕ) (root_table : List (List A))
      (m j n : ℕ) (s : List A × List (List A))
      → HasSpace n s
      → Holds (HasSpace n) (inplace_thread p size d l mask root_table m j s)
  unfolding inplace_thread
  inplace_thread-Holds p size d l mask root_table m j n s e =
      safe-Holds (HasSpace n) (pred_usize p (trailing_zeros 64 m)) _ (pred_usize-ne_err p _)
        (λ place.
          safe-Holds (HasSpace n) (index root_table place) _ (index-ne_err root_table place) (λ row.
            for_range-Holds (HasSpace n) (inplace_butterfly size l mask m row) (d.thread_size / 2)
              (j * (d.thread_size / 2)) s
              (λ i s1 e1. inplace_butterfly-Holds size l mask m row i n s1 e1) e))

  -- In the round of all points the first read lies behind the scratch space.
  last_butterfly-panic :
      (size l mask : ℕ) (row : List A) (s : List A × List (List A))
      → 2 ≤ size
      → HasSpace size s
      → inplace_butterfly size l mask size row 0 s ≡ panic
  unfolding inplace_butterfly butterfly
  last_butterfly-panic size l mask row (t, coeffs) two e = rw (not_half) (
      ap (λ (m : Outcome (List A)). m >>= λ t'. ok (t', coeffs))
        (bind-panic (index row (bit_and 0 (size - 1))) _ (index-ne_err row _) (λ r.
          rw
            (index-out t (bit_and 0 (2 ^ 64 - 1 - (size - 1)) * 2 + bit_and 0 (size - 1) + size)
              (omega (arith, e)))
            refl)))
    where
      not_half : (size == shr size 1) ≡ false
      not_half = ground (arith, two)

  last_thread-panic :
      (p : Profile) (size : ℕ) (d : EvaluationDomain A) (l mask : ℕ) (root_table : List (List A))
      (s : List A × List (List A))
      → 2 ≤ size
      → 2 ≤ d.thread_size
      → HasSpace size s
      → inplace_thread p size d l mask root_table size 0 s ≡ panic
  unfolding inplace_thread
  last_thread-panic p size d l mask root_table s two room e =
      bind-panic (pred_usize p (trailing_zeros 64 size)) _ (pred_usize-ne_err p _) (λ place.
        bind-panic (index root_table place) _ (index-ne_err root_table place) (λ row.
          for_range-panic (HasSpace size) (inplace_butterfly size l mask size row) 0
            (d.thread_size / 2) (0 * (d.thread_size / 2)) s
            (λ i s1 e1. inplace_butterfly-Holds size l mask size row i size s1 e1)
            (λ s1 e1. last_butterfly-panic size l mask row s1 two e1) (omega arith)
            (omega (arith, room)) e))

  -- With an even number of points that is not zero, and two places or more for the first thread,
  -- `fft_inner_parallel_vec_inplace` panics, whatever the coefficients and the roots are.
  pub fft_inner_parallel_vec_inplace-panic :
      (p : Profile) (size : ℕ) (d : EvaluationDomain A) (coeffs root_table : List (List A))
      → size % 2 ≡ 0
      → 2 ≤ size
      → 0 < d.num_threads
      → 2 ≤ d.thread_size
      → fft_inner_parallel_vec_inplace p size d coeffs root_table ≡ panic
  unfolding fft_inner_parallel_vec_inplace
  fft_inner_parallel_vec_inplace-panic p size d coeffs root_table even two threads room =
      bind-panic (assert (is_power_of_two (length coeffs))) _ (assert-ne_err _) (λ u.
        bind-panic (assert (is_power_of_two poly_size)) _ (assert-ne_err _) (λ u'.
          Holds-panic (HasLength size) (gather_all p d l mask coeffs (replicate size f.zero)) _
            (gather_all-Holds p d l mask coeffs (replicate size f.zero) size
              (length-replicate size f.zero))
            (λ t e.
              bind-panic (if leb size 2 then copy_tiny coeffs t else ok coeffs) _
                (by_size (leb size 2) t)
                (λ coeffs1.
                  ap (λ (m : Outcome (List A × List (List A))). m >>= λ s. ok s.1)
                    (for_step-panic (HasSpace size)
                      (λ m. for_range d.num_threads 0 (inplace_thread p size d l mask root_table m))
                      size (size / 2) 2 (t, coeffs1)
                      (λ m s e1.
                        for_range-Holds (HasSpace size)
                          (inplace_thread p size d l mask root_table m) d.num_threads 0 s
                          (λ j s1 e2.
                            inplace_thread-Holds p size d l mask root_table m j size s1 e2)
                          e1)
                      (λ s e1.
                        for_range-panic (HasSpace size)
                          (inplace_thread p size d l mask root_table size) 0 d.num_threads 0 s
                          (λ j s1 e2.
                            inplace_thread-Holds p size d l mask root_table size j size s1 e2)
                          (λ s1 e2. last_thread-panic p size d l mask root_table s1 two room e2)
                          (omega arith) (omega (arith, threads)) e1)
                      (size / 2 - 1) (omega (arith, even, two)) (omega (arith, two)) e)))))
    where
      poly_size : ℕ
      poly_size = size / length coeffs

      l : ℕ
      l = trailing_zeros 64 poly_size

      mask : ℕ
      mask = poly_size - 1

      by_size : (b : Bool) (t : List A) → (if b then copy_tiny coeffs t else ok coeffs) ≢ err
      by_size true t = copy_tiny-ne_err coeffs t
      by_size false t = λ e. cc e
