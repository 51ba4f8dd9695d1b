-- ===== src/Kate/Batch.antt =====
-- `generic_batch_open` as a whole: the divisors, the rounds and the commitments.
pub mod Divisors
pub mod Rounds
use Prim.Native.String.{String}
use barustenberg.Prelude.{
  ℕ, zero, suc, ◌+◌, ◌*◌, ◌<◌, ◌≤◌, ◌≡◌, ◌≢◌, refl, sym, ap, ap₂, ◌∙◌, List, [], ◌∷◌, ◌++◌, map,
  length, arith, take, drop, get_or, replicate, ok, Option, Option-cases, inl, inr, append_assoc,
  append-nil, length-append, length-take, length-drop, take-append-drop, drop-drop, subst,
}
use barustenberg.Prelude.Slices.{
  index-append, assign-append, index-get_or, take-append, drop-append,
}
use barustenberg.Numeric.{Profile}
use barustenberg.Field.{Field, ◌⊗◌, ◌⊖◌, invert}
use barustenberg.Field.Laws.{neg-neg, neg-zero}
use barustenberg.Polynomials.Evaluation.{eval}
use barustenberg.Polynomials.Evaluate.{compute_num_threads}
use barustenberg.Kate.{Commitment, negated, inverted, open_point, open_points, generic_batch_open}
use barustenberg.Kate.Opening.{combination, length-combination, open_point_run}
use barustenberg.Kate.Opening.Division.{quotient, last_of, quotient_exact}
use barustenberg.Kate.Batch.Divisors.{negated-map, AreNonzero, inverted-map}
use barustenberg.Kate.Batch.Rounds.{
  committed, opening, openings, rounds, length-openings, openings-place,
}

module _ {ℓ} {A : Type ℓ} ⦃f : Field A⦄ where
  -- At nonzero points, with a challenge, a tag and a constant for each, polynomials of a positive
  -- number of coefficients that `src` holds, and `dest` with as many places for each point, the
  -- function succeeds if the number of threads can be computed. At each point `z` the places in `dest`
  -- then hold a polynomial `W` with `(X - z) * W = F - F(z)` at every point and a last coefficient of 0,
  -- where `F` combines that point's polynomials of `src` by the powers of its challenge, the rest of
  -- `dest` is as before, and the commitments with the tags and the constants are at the end of the
  -- queue.
  pub generic_batch_open-quotients :
      (p : Profile) (system : Option ℕ) (src dest : List A) (m : ℕ) (z_points challenges : List A)
      (n : ℕ) (tags : List String) (item_constants : List A) (queue : List (Commitment A)) {t : ℕ}
      → AreNonzero z_points
      → 0 < n
      → length z_points ≤ length challenges
      → length z_points ≤ length tags
      → length z_points ≤ length item_constants
      → length z_points * n ≤ length dest
      → length z_points * n * m ≤ length src
      → compute_num_threads p system ≡ ok t
      → (opened : List A) × (items : List (Commitment A)) × (generic_batch_open p system src dest m
            z_points
            (length z_points)
            challenges
            n
            tags
            item_constants
            queue
          ≡ ok (opened ++ drop (length z_points * n) dest, queue ++ items))
        × (length opened ≡ length z_points * n)
        × ((i : ℕ)
            → i < length z_points
            → let z = get_or z_points i f.zero in
              let F = combination src (i * n * m) n m (get_or challenges i f.zero) n 0 in
              let W = take n (drop (i * n) opened) in
              ((x : A) → (x ⊖ z) ⊗ eval W x ≡ eval F x ⊖ eval F z)
              × (last_of (eval F z) W ≡ f.zero))
        × (items ≡ committed tags item_constants (length z_points) 0)
  unfolding generic_batch_open
  generic_batch_open-quotients p system src dest m z_points challenges n tags consts queue nonzero
        pos hc hg hk hd hs ht =
      let (divisors, run, len, units) = inverted-map z_points nonzero in
      (
        openings src challenges z_points divisors n m (length z_points) 0,
        committed tags consts (length z_points) 0,
        rw (negated-map [] z_points [] 0 refl refl) (
            rw run (
              rounds src challenges z_points divisors n m p system tags consts (length z_points) 0
                [] dest queue pos (omega arith) (omega arith) (omega arith) (omega arith)
                (omega arith) (omega arith) hd
                (omega (
                  arith,
                  hs,
                  ap (λ (k : ℕ). k * n * m) {x = 0 + length z_points} {y = length z_points}
                      (omega arith),
                ))
                ht)),
        length-openings src challenges z_points divisors n m (length z_points) 0,
        λ i l.
            subst
              (λ W.
                ((x : A)
                  → (x ⊖ get_or z_points i f.zero) ⊗ eval W x
                    ≡ eval (F i) x ⊖ eval (F i) (get_or z_points i f.zero))
                × (last_of (eval (F i) (get_or z_points i f.zero)) W ≡ f.zero))
              (ap (opening src challenges z_points divisors n m) {x = i} {y = 0 + i} (omega arith)
                ∙ sym (openings-place src challenges z_points divisors n m (length z_points) 0 i l))
              (quotient_exact (get_or z_points i f.zero) (get_or divisors i f.zero) (units i l)
                (F i)),
        refl,
      )
    where
      F : ℕ → List A
      F i = combination src (i * n * m) n m (get_or challenges i f.zero) n 0
