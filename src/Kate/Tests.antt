-- ===== src/Kate/Tests.antt =====
-- Openings over the integers modulo 5, run on small inputs.
use barustenberg.Prelude.{
  ℕ, ◌*◌, ◌<◌, length, take, drop, get_or, ◌≡◌, ap, ◌>>=◌, ◌^◌, List, [], ◌∷◌, ◌++◌, ok, none,
  arith,
}
use barustenberg.Numeric.{checked}
use barustenberg.Numeric.Msb.{get_msb64_lem}
use barustenberg.Field.{◌⊗◌, ◌⊖◌}
use barustenberg.Field.Five.{Five, f0, f1, f2, f3, f4, five}
use barustenberg.Polynomials.Evaluation.{eval}
use barustenberg.Polynomials.Evaluate.{compute_num_threads}
use barustenberg.Kate.{Commitment, generic_batch_open}
use barustenberg.Kate.Opening.{combination}
use barustenberg.Kate.Batch.{generic_batch_open-quotients}
use barustenberg.Kate.Opening.Division.{last_of}

-- The polynomials 1 + 2X and 3 + X.
abbrev two_polynomials : List Five
two_polynomials = f1 ∷ f2 ∷ f3 ∷ f1 ∷ []

one_thread : compute_num_threads checked none ≡ ok 1
unfolding compute_num_threads
one_thread =
    ap (λ m. m >>= λ k. ok (2 ^ k))
      (get_msb64_lem checked 0 1 (omega arith) (omega arith) (omega arith))

-- The first is opened at 2 and the second at 3.
generic_batch_open-quotients_example :
    (opened : List Five) × (items : List (Commitment Five)) × (generic_batch_open checked none
        two_polynomials
        (f4 ∷ f4 ∷ f0 ∷ f2 ∷ f1 ∷ [])
        1
        (f2 ∷ f3 ∷ [])
        2
        (f1 ∷ f2 ∷ [])
        2
        ("W_1" ∷ "W_2" ∷ [])
        (f3 ∷ f4 ∷ [])
        []
      ≡ ok (opened ++ (f1 ∷ []), items))
    × (length opened ≡ 4)
    × ((i : ℕ)
        → i < 2
        → let z = get_or (f2 ∷ f3 ∷ []) i f0 in
          let F = combination two_polynomials (i * 2 * 1) 2 1 (get_or (f1 ∷ f2 ∷ []) i f0) 2 0 in
          let W = take 2 (drop (i * 2) opened) in
          ((x : Five) → (x ⊖ z) ⊗ eval W x ≡ eval F x ⊖ eval F z) × (last_of (eval F z) W ≡ f0))
    × (items ≡ record { tag = "W_1"; constant = f3 } ∷ (record { tag = "W_2"; constant = f4 } ∷ []))
unfolding five
generic_batch_open-quotients_example =
    generic_batch_open-quotients checked none two_polynomials (f4 ∷ f4 ∷ f0 ∷ f2 ∷ f1 ∷ []) 1
      (f2 ∷ f3 ∷ []) (f1 ∷ f2 ∷ []) 2 ("W_1" ∷ "W_2" ∷ []) (f3 ∷ f4 ∷ []) []
      ((λ e. cc e), ((λ e. cc e), tt)) (omega arith) (omega arith) (omega arith) (omega arith)
      (omega arith) (omega arith) one_thread
