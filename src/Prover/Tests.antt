-- ===== src/Prover/Tests.antt =====
-- The quotient's parts and the memory records over the integers modulo 5.
use barustenberg.Prelude.{
  ℕ, zero, suc, ◌<◌, ◌^◌, ◌≡◌, ◌≢◌, refl, sym, ap, ◌∙◌, ◌⊎◌, inl, inr, ◌>>=◌, List, [], ◌∷◌, ◌++◌,
  take, length, get_or, none, ok, index, arith,
}
use barustenberg.Numeric.{checked}
use barustenberg.Numeric.Msb.{get_msb64_lem}
use barustenberg.Field.{◌⊕◌, ◌⊗◌, ◌⊖◌}
use barustenberg.Field.Five.{Five, f0, f1, f2, f3, f4, five, pow, mul, add}
use barustenberg.Polynomials.Evaluation.{eval}
use barustenberg.Polynomials.Evaluate.{compute_num_threads}
use barustenberg.Polynomials.Lagrange.{EvaluationDomain}
use barustenberg.Storage.{empty_store, put}
use barustenberg.Prover.Lagrange.{compute_lagrange_1_fft, compute_lagrange_1_fft_lem}
use barustenberg.Prover.{
  add_blinding_to_quotient_polynomial_parts, add_plookup_memory_records_to_w_4, quotient_evaluation,
}
use barustenberg.Prover.Blinding.{reconstructed, add_blinding_lem}
use barustenberg.Prover.Memory.{IsAmong, IsOther, add_plookup_memory_records_lem}
use barustenberg.Prover.Quotient.{entry, quotient_evaluation_lem}

abbrev three_parts : List (List Five)
three_parts = (f1 ∷ f2 ∷ f0 ∷ []) ∷ (f3 ∷ f4 ∷ f0 ∷ []) ∷ (f2 ∷ f0 ∷ f1 ∷ []) ∷ []

abbrev random : ℕ → Five
random i = f4

add_blinding_lem_example :
    (parts' : List (List Five)) × (add_blinding_to_quotient_polynomial_parts 3 2 random three_parts
      ≡ ok parts')
    × ((x : Five) → reconstructed 2 x parts' ≡ reconstructed 2 x three_parts)
add_blinding_lem_example =
    add_blinding_lem 3 2 random (f1 ∷ f2 ∷ f0 ∷ []) ((f3 ∷ f4 ∷ f0 ∷ []) ∷ (f2 ∷ f0 ∷ f1 ∷ []) ∷ [])
      (omega arith) (omega arith, (omega arith, (omega arith, tt)))

add_plookup_memory_records_lem_example :
    (w : List Five) × (add_plookup_memory_records_to_w_4 f2
        (f1 ∷ f2 ∷ [])
        (f3 ∷ f4 ∷ [])
        (f1 ∷ f1 ∷ [])
        (0 ∷ [])
        (1 ∷ [])
        (f3 ∷ f2 ∷ [])
      ≡ ok w)
    × ((g : ℕ)
        → IsAmong g (0 ∷ [])
        → index w g
          ≡ ok (
              eval
                (f0
                  ∷ get_or (f1 ∷ f2 ∷ []) g f0
                  ∷ get_or (f3 ∷ f4 ∷ []) g f0
                  ∷ (get_or (f3 ∷ f2 ∷ []) g f0 ⊕ get_or (f1 ∷ f1 ∷ []) g f0)
                  ∷ [])
                f2))
    × ((g : ℕ)
        → IsAmong g (1 ∷ [])
        → index w g
          ≡ ok (
              eval
                (f1
                  ∷ get_or (f1 ∷ f2 ∷ []) g f0
                  ∷ get_or (f3 ∷ f4 ∷ []) g f0
                  ∷ (get_or (f3 ∷ f2 ∷ []) g f0 ⊕ get_or (f1 ∷ f1 ∷ []) g f0)
                  ∷ [])
                f2))
    × ((g : ℕ) → IsOther g (0 ∷ []) → IsOther g (1 ∷ []) → index w g ≡ index (f3 ∷ f2 ∷ []) g)
unfolding five
add_plookup_memory_records_lem_example =
    add_plookup_memory_records_lem (f1 ∷ f2 ∷ []) (f3 ∷ f4 ∷ []) (f1 ∷ f1 ∷ []) f2 2 refl refl refl
      (0 ∷ []) (1 ∷ []) (f3 ∷ f2 ∷ []) refl (omega arith, tt) (omega arith, tt) (tt, tt) (tt, tt)
      apart apart'
  where
    apart : (g : ℕ) → IsAmong g (0 ∷ []) → IsOther g (1 ∷ [])
    apart g (inl e) = (λ q. omega (arith, e, q), tt)
    apart g (inr m) = elim m [ ]

    apart' : (g : ℕ) → IsAmong g (1 ∷ []) → IsOther g (0 ∷ [])
    apart' g (inl e) = (λ q. omega (arith, e, q), tt)
    apart' g (inr m) = elim m [ ]

one_thread_used : compute_num_threads checked none ≡ ok 1
unfolding compute_num_threads
one_thread_used =
    ap (λ m. m >>= λ k. ok (2 ^ k))
      (get_msb64_lem checked 0 1 (omega arith) (omega arith) (omega arith))

abbrev four_parts : List (List Five)
four_parts = (f1 ∷ f2 ∷ f1 ∷ []) ∷ (f3 ∷ f4 ∷ f3 ∷ []) ∷ (f2 ∷ f0 ∷ f1 ∷ []) ∷ (f1 ∷ []) ∷ []

quotient_evaluation_lem_example :
    quotient_evaluation checked none 3 2 2 four_parts f3
    ≡ ok (
        eval (f1 ∷ f3 ∷ f2 ∷ f1 ∷ []) f3
        ⊕ pow f3 2
          ⊗ eval
              (entry four_parts 0 2 ∷ entry four_parts 1 2 ∷ entry four_parts 2 2 ∷ [])
              (pow f3 2))
unfolding five
quotient_evaluation_lem_example =
    quotient_evaluation_lem checked none 3 2 2 f1 f3 f2 f1 (f2 ∷ f1 ∷ []) (f4 ∷ f3 ∷ [])
      (f0 ∷ f1 ∷ []) [] f3 (inl refl) (omega arith) (omega arith) (omega arith) (omega arith)
      one_thread_used

abbrev small_domain : EvaluationDomain Five
small_domain = record {
  num_threads = 1;
  thread_size = 2;
  log2_size = 1;
  root = f4;
  domain_inverse = f3;
  generator = f2;
}

-- Its points are 2 and 3 in turn.
abbrev large_domain : EvaluationDomain Five
large_domain = record {
  num_threads = 2;
  thread_size = 4;
  log2_size = 3;
  root = f4;
  domain_inverse = f2;
  generator = f2;
}

one_or_four : (i : ℕ) → (pow f4 i ≡ f1) ⊎ (pow f4 i ≡ f4)
unfolding pow mul add
one_or_four zero = inl refl
one_or_four (suc i) = elim (one_or_four i) [
  | inl e ↦ inr (ap (λ v. mul v f4) e)
  | inr e ↦ inl (ap (λ v. mul v f4) e)
]

points_ne_one : (i : ℕ) → f2 ⊗ pow f4 i ≢ f1
unfolding five mul add
points_ne_one i e = elim (one_or_four i) [
  | inl q ↦ cc (sym (ap (λ v. mul f2 v) q) ∙ e)
  | inr q ↦ cc (sym (ap (λ v. mul f2 v) q) ∙ e)
]

compute_lagrange_1_fft_lem_example :
    (values : List Five) × (compute_lagrange_1_fft checked
        (λ n. none)
        2
        small_domain
        large_domain
        empty_store
      ≡ ok (
          put "lagrange_1_fft"
            (record { size = 16; coefficients = values ++ take 8 values })
            empty_store))
    × (length values ≡ 8)
    × ((i : ℕ) → i < 8 → ((f2 ⊗ pow f4 i) ⊖ f1) ⊗ get_or values i f0 ≡ f1)
unfolding five
compute_lagrange_1_fft_lem_example =
    compute_lagrange_1_fft_lem checked (λ n. none) 2 small_domain large_domain empty_store
      (omega arith) refl (λ i h. points_ne_one i)
