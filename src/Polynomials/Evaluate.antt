-- ===== src/Polynomials/Evaluate.antt =====
-- `evaluate` of barustenberg/src/polynomials/polynomial_arithmetic.rs and the two
-- `compute_num_threads`: the coefficients are dealt to the threads in ranges, and the partial sums
-- are added up.
use barustenberg.Prelude.{
  ℕ, zero, suc, ◌+◌, ◌-◌, ◌*◌, ◌/◌, ◌^◌, ◌≤◌, ◌<◌, ◌≡◌, sym, ap, ◌∙◌, List, [], ◌∷◌, arith, take,
  drop, Outcome, ok, ◌>>=◌, >>=-eq-ok, ok-injective, leb, ◌==◌, if◌then◌else◌, drop-take, Option,
  none, some,
}
use native.Mathlib.Nat.{div-add-mod, one-le-pow}
use barustenberg.Numeric.{Profile, get_msb64}
use barustenberg.Field.{Field, ◌⊕◌, ◌⊗◌}
use barustenberg.Field.Laws.{add-zero, mul-zero}
use barustenberg.Polynomials.Evaluation.{eval, eval-split}

-- common/max_threads.rs: the number of threads of the system, `none` without the feature
-- `multithreading`, down to a power of two.
unfoldable pub compute_num_threads : Profile → Option ℕ → Outcome ℕ
compute_num_threads p system = do
  msb ← get_msb64 p (elim system [ none ↦ 1 | some n ↦ n ])
  ok (2 ^ msb)

-- evaluation_domain.rs: small domains take one thread.
pub compute_num_threads_for : Profile → Option ℕ → ℕ → Outcome ℕ
unfolding compute_num_threads
compute_num_threads_for p system size = do
  num_threads ← elim system [ none ↦ ok 1 | some n ↦ compute_num_threads p (some n) ]
  ok (if leb size (num_threads * 4) then 1 else num_threads)

compute_num_threads-pos :
    (p : Profile) (system : Option ℕ) {t : ℕ} → compute_num_threads p system ≡ ok t → 0 < t
unfolding compute_num_threads
compute_num_threads-pos p system {t} h =
    let (msb, e, _) =
      >>=-eq-ok (get_msb64 p (elim system [ none ↦ 1 | some n ↦ n ])) (λ k. ok (2 ^ k)) h in
    omega (arith, ok-injective (2 ^ msb) t e, one-le-pow msb 2)

module _ {ℓ} {A : Type ℓ} ⦃f : Field A⦄ where
  -- The inner loop of one thread, over the coefficients of its range.
  partial_sum : List A → A → A → A → A
  partial_sum [] z eval_j z_acc = eval_j
  partial_sum (c ∷ cs) z eval_j z_acc = partial_sum cs z (eval_j ⊕ z_acc ⊗ c) (z_acc ⊗ z)

  module _ (coeffs : List A) (z : A) (n num_threads : ℕ) where
    range_per_thread : ℕ
    range_per_thread = n / num_threads

    range_end : ℕ → ℕ
    unfolding range_per_thread
    range_end j =
        if j == num_threads - 1
        then j * range_per_thread + range_per_thread + (n - range_per_thread * num_threads)
        else j * range_per_thread + range_per_thread

    -- `coeffs.iter().take(end).skip(offset)`, summed from zero.
    thread_sum : ℕ → A
    unfolding range_end range_per_thread
    thread_sum j =
        partial_sum (drop (j * range_per_thread) (take (range_end j) coeffs)) z f.zero
          (f.pow z (j * range_per_thread))

    evaluations : (left j : ℕ) → List A
    evaluations zero j = []
    evaluations (suc left) j = thread_sum j ∷ evaluations left (suc j)

  add_up : List A → A → A
  add_up [] r = r
  add_up (e ∷ es) r = add_up es (r ⊕ e)

  -- `evaluate` once the number of threads is known.
  pub evaluate_on : ℕ → List A → A → ℕ → A
  unfolding thread_sum evaluations add_up
  evaluate_on num_threads coeffs z n =
      add_up (evaluations coeffs z n num_threads num_threads 0) f.zero

  pub evaluate : Profile → Option ℕ → List A → A → ℕ → Outcome A
  unfolding compute_num_threads evaluate_on
  evaluate p system coeffs z n = do
    num_threads ← compute_num_threads p system
    ok (evaluate_on num_threads coeffs z n)

  partial_sum-eval : (cs : List A) (z e a : A) → partial_sum cs z e a ≡ e ⊕ a ⊗ eval cs z
  unfolding partial_sum
  partial_sum-eval [] z e a = sym (add-zero e) ∙ ap (λ t. e ⊕ t) (sym (mul-zero a))
  partial_sum-eval (c ∷ cs) z e a =
      partial_sum-eval cs z (e ⊕ a ⊗ c) (a ⊗ z)
      ∙ f.add_assoc e (a ⊗ c) _
      ∙ ap (λ t. e ⊕ (a ⊗ c ⊕ t)) (f.mul_assoc a z _)
      ∙ ap (λ t. e ⊕ t) (sym (f.mul-add a c _))

  -- Adding the sum of one range extends the value of a prefix to the end of the range.
  add_range :
      (cs : List A) (z : A) (a e : ℕ)
      → a ≤ e
      → eval (take a cs) z ⊕ partial_sum (drop a (take e cs)) z f.zero (f.pow z a)
        ≡ eval (take e cs) z
  add_range cs z a e h =
      ap (λ t. eval (take a cs) z ⊕ t)
        (partial_sum-eval (drop a (take e cs)) z f.zero (f.pow z a) ∙ f.zero-add _)
      ∙ ap (λ k. eval (take a cs) z ⊕ f.pow z a ⊗ eval (drop a (take k cs)) z) whole
      ∙ ap (λ t. eval (take a cs) z ⊕ f.pow z a ⊗ eval t z) (drop-take a (e - a) cs)
      ∙ sym (eval-split a (e - a) cs z)
      ∙ ap (λ k. eval (take k cs) z) (sym whole)
    where
      whole : e ≡ a + (e - a)
      whole = omega arith

  module _ (coeffs : List A) (z : A) (n num_threads : ℕ) where
    range_end_last : (j : ℕ) → j + 1 ≡ num_threads → range_end coeffs z n num_threads j ≡ n
    unfolding range_end range_per_thread
    range_end_last j e =
        ground (arith, ap (λ (t : ℕ). t * (n / num_threads)) e, div-add-mod n num_threads)

    range_end_step :
        (j : ℕ)
        → suc j < num_threads
        → range_end coeffs z n num_threads j ≡ suc j * range_per_thread coeffs z n num_threads
    unfolding range_end range_per_thread
    range_end_step j h = ground arith

    add_thread_sum :
        (j : ℕ)
        → eval (take (j * range_per_thread coeffs z n num_threads) coeffs) z
            ⊕ thread_sum coeffs z n num_threads j
          ≡ eval (take (range_end coeffs z n num_threads j) coeffs) z
    unfolding thread_sum
    add_thread_sum j =
        add_range coeffs z (j * range_per_thread coeffs z n num_threads)
          (range_end coeffs z n num_threads j) (ground arith)

    -- The threads from `j` on complete the value of the prefix before the range of `j`.
    add_up-evaluations :
        (left j : ℕ)
        → j + suc left ≡ num_threads
        → add_up
            (evaluations coeffs z n num_threads (suc left) j)
            (eval (take (j * range_per_thread coeffs z n num_threads) coeffs) z)
          ≡ eval (take n coeffs) z
    unfolding add_up evaluations
    add_up-evaluations zero j e =
        add_thread_sum j ∙ ap (λ k. eval (take k coeffs) z) (range_end_last j e)
    add_up-evaluations (suc left) j e =
        ap (add_up (evaluations coeffs z n num_threads (suc left) (suc j)))
          (add_thread_sum j ∙ ap (λ k. eval (take k coeffs) z) (range_end_step j (omega arith)))
        ∙ add_up-evaluations left (suc j) (omega arith)

  evaluate_on-eval :
      (t : ℕ) (coeffs : List A) (z : A) (n : ℕ)
      → 0 < t
      → evaluate_on t coeffs z n ≡ eval (take n coeffs) z
  unfolding evaluate_on
  evaluate_on-eval zero coeffs z n h = absurd (omega arith)
  evaluate_on-eval (suc t) coeffs z n h =
      ap (λ k. add_up (evaluations coeffs z n (suc t) (suc t) 0) (eval (take k coeffs) z)) {x = 0}
        {y = 0 * range_per_thread coeffs z n (suc t)} (omega arith)
      ∙ add_up-evaluations coeffs z n (suc t) t 0 (omega arith)

  -- However many threads share the work, `evaluate` returns the value at `z` of the polynomial of the
  -- first `n` coefficients, if the number of threads can be computed.
  pub evaluate-eval :
      (p : Profile) (system : Option ℕ) (coeffs : List A) (z : A) (n : ℕ) {t : ℕ}
      → compute_num_threads p system ≡ ok t
      → evaluate p system coeffs z n ≡ ok (eval (take n coeffs) z)
  unfolding evaluate
  evaluate-eval p system coeffs z n {t} h =
      rw h (ap ok (evaluate_on-eval t coeffs z n (compute_num_threads-pos p system h)))
