-- ===== src/Kate/Batch/Rounds.antt =====
-- The loop of `generic_batch_open` over the points.
use Prim.Native.String.{String}
use barustenberg.Prelude.{
  ℕ, zero, suc, ◌+◌, ◌*◌, ◌<◌, ◌≤◌, ◌≡◌, refl, sym, ap, ap₂, ◌∙◌, List, [], ◌∷◌, ◌++◌, length,
  arith, take, drop, get_or, ok, Option, append_assoc, append-nil, length-append, length-take,
  length-drop, take-append-drop, drop-drop, subst,
}
use barustenberg.Prelude.Slices.{index-get_or, take-append, drop-append}
use barustenberg.Numeric.{Profile}
use barustenberg.Field.{Field, ◌⊗◌, ◌⊖◌}
use barustenberg.Polynomials.Evaluation.{eval}
use barustenberg.Polynomials.Evaluate.{compute_num_threads}
use barustenberg.Kate.{Commitment, open_point, open_points}
use barustenberg.Kate.Opening.{combination, length-combination, open_point_run}
use barustenberg.Kate.Opening.Division.{quotient}

module _ {ℓ} {A : Type ℓ} ⦃f : Field A⦄ where
  -- The commitments of the rounds.
  abbrev pub committed :
      (tags : List String) (item_constants : List A) (count i : ℕ) → List (Commitment A)
  committed tags item_constants zero i = []
  committed tags item_constants (suc count) i =
      record { tag = get_or tags i ""; constant = get_or item_constants i f.zero }
      ∷ committed tags item_constants count (suc i)

  module _ (src challenges z_points divisors : List A) (n m : ℕ) where
    -- The linear combination that is opened at the `i`-th point.
    abbrev pub combined : ℕ → List A
    combined i = combination src (i * n * m) n m (get_or challenges i f.zero) n 0

    abbrev pub opening : ℕ → List A
    opening i =
        quotient (get_or divisors i f.zero) (eval (combined i) (get_or z_points i f.zero))
          (combined i)

    abbrev pub openings : (count i : ℕ) → List A
    openings zero i = []
    openings (suc count) i = opening i ++ openings count (suc i)

    length-opening : (i : ℕ) → length (opening i) ≡ n
    length-opening i =
        length-quotient (get_or divisors i f.zero) _ (combined i)
        ∙ length-combination src (i * n * m) n m _ n 0
      where
        length-quotient : (d w : A) (cs : List A) → length (quotient d w cs) ≡ length cs
        length-quotient d w [] = refl
        length-quotient d w (c ∷ cs) = ap suc (length-quotient d ((c ⊖ w) ⊗ d) cs)

    round :
        (p : Profile) (system : Option ℕ) (i : ℕ) (pre old tail : List A) {t : ℕ}
        → length old ≡ n
        → 0 < n
        → i < length challenges
        → i < length z_points
        → i < length divisors
        → length pre ≡ i * n
        → (i + 1) * n * m ≤ length src
        → compute_num_threads p system ≡ ok t
        → open_point p system src challenges z_points divisors n m i (pre ++ (old ++ tail))
          ≡ ok (pre ++ (opening i ++ tail))
    round p system i pre old tail e pos hc hz hd hp hs ht =
        subst
          (λ k.
            open_point p system src challenges z_points divisors k m i (pre ++ (old ++ tail))
            ≡ ok (
                pre
                ++ (quotient (get_or divisors i f.zero)
                      (eval (combination src (i * k * m) k m (get_or challenges i f.zero) k 0)
                        (get_or z_points i f.zero))
                      (combination src (i * k * m) k m (get_or challenges i f.zero) k 0)
                    ++ tail)))
          e
          (open_point_run p system src challenges z_points divisors m i pre old tail _ _ _
            (index-get_or challenges i f.zero hc) (index-get_or z_points i f.zero hz)
            (index-get_or divisors i f.zero hd) (omega arith) (hp ∙ ap (λ k. i * k) (sym e))
            (omega (arith, hs, ap (λ k. i * k * m + m * k) e)) ht)

    pub rounds :
        (p : Profile) (system : Option ℕ) (tags : List String) (item_constants : List A)
        (count i : ℕ) (pre rest : List A) (queue : List (Commitment A)) {t : ℕ}
        → 0 < n
        → i + count ≤ length challenges
        → i + count ≤ length z_points
        → i + count ≤ length divisors
        → i + count ≤ length tags
        → i + count ≤ length item_constants
        → length pre ≡ i * n
        → count * n ≤ length rest
        → (i + count) * n * m ≤ length src
        → compute_num_threads p system ≡ ok t
        → open_points p system src challenges z_points divisors n m tags item_constants count i
            (pre ++ rest)
            queue
          ≡ ok (
            pre ++ (openings count i ++ drop (count * n) rest),
            queue ++ committed tags item_constants count i,
          )
    unfolding open_points
    rounds p system tags consts zero i pre rest queue pos hc hz hd hg hk hp hr hs ht =
        ap₂ (λ k q. ok (pre ++ drop k rest, q)) {x = 0} {y = 0 * n} (omega arith)
          (sym (append-nil queue))
    rounds p system tags consts (suc count) i pre rest queue pos hc hz hd hg hk hp hr hs ht =
        ap
          (λ d.
            open_points p system src challenges z_points divisors n m tags consts (suc count) i
              (pre ++ d) queue)
          (sym (take-append-drop n rest))
        ∙ rw
            (
              open_points,
              round p system i pre (take n rest) (drop n rest) (omega (arith, length-take n rest))
                  pos (omega arith) (omega arith) (omega arith) hp (omega (arith, hs)) ht,
            )
            (rw (index-get_or tags i "" (omega arith), index-get_or consts i f.zero (omega arith))
              (ap
                  (λ d.
                    open_points p system src challenges z_points divisors n m tags consts count
                      (suc i) d
                      (queue
                        ++ (record { tag = get_or tags i ""; constant = get_or consts i f.zero }
                            ∷ [])))
                  (sym (append_assoc pre (opening i) (drop n rest)))
                ∙ rounds p system tags consts count (suc i) (pre ++ opening i) (drop n rest)
                    (queue
                      ++ (record { tag = get_or tags i ""; constant = get_or consts i f.zero }
                          ∷ []))
                    pos (omega arith) (omega arith) (omega arith) (omega arith) (omega arith)
                    (omega (arith, length-append pre (opening i), length-opening i))
                    (omega (arith, length-drop n rest))
                    (omega (
                      arith,
                      hs,
                      ap (λ (k : ℕ). k * n * m) {x = suc i + count} {y = i + suc count}
                          (omega arith),
                    ))
                    ht
                ∙ ap₂ (λ d q. ok (d, q))
                    (append_assoc pre (opening i) _
                      ∙ ap (λ d. pre ++ d)
                          (ap (λ d. opening i ++ (openings count (suc i) ++ d))
                              (sym (drop-drop n (count * n) rest)
                                ∙ ap (λ k. drop k rest) {x = n + count * n} {y = suc count * n}
                                    (omega arith))
                            ∙ sym (append_assoc (opening i) (openings count (suc i)) _)))
                    (append_assoc queue
                      (record { tag = get_or tags i ""; constant = get_or consts i f.zero } ∷ [])
                      (committed tags consts count (suc i)))))

    pub length-openings : (count i : ℕ) → length (openings count i) ≡ count * n
    length-openings zero i = omega arith
    length-openings (suc count) i = omega (
      arith,
      length-append (opening i) (openings count (suc i)),
      length-opening i,
      length-openings count (suc i),
    )

    -- The places of one round.
    pub openings-place :
        (count i j : ℕ) → j < count → take n (drop (j * n) (openings count i)) ≡ opening (i + j)
    openings-place zero i j h = absurd (omega arith)
    openings-place (suc count) i zero h =
        ap (λ k. take n (drop k (openings (suc count) i))) {x = 0 * n} {y = 0} (omega arith)
        ∙ take-append (opening i) (openings count (suc i)) n (sym (length-opening i))
        ∙ ap opening {x = i} {y = i + 0} (omega arith)
    openings-place (suc count) i (suc j) h =
        ap (λ k. take n (drop k (openings (suc count) i))) {x = suc j * n} {y = n + j * n}
          (omega arith)
        ∙ ap (take n) (
            drop-drop n (j * n) (opening i ++ openings count (suc i))
            ∙ ap (drop (j * n))
                (drop-append (opening i) (openings count (suc i)) n (sym (length-opening i))))
        ∙ openings-place count (suc i) j (omega arith)
        ∙ ap opening {x = suc i + j} {y = i + suc j} (omega arith)
