-- ===== src/Composer/Runs.antt =====
-- Sequences of calls of composer_base.rs from the default composer: what they leave in
-- `get_public_inputs`.
use barustenberg.Prelude.{
  ℕ, zero, suc, ◌+◌, ◌<◌, ◌≤◌, ◌^◌, ◌≡◌, ◌≢◌, refl, sym, ap, ◌∙◌, List, [], ◌∷◌, ◌++◌, Outcome, ok,
  err, panic, index, ◌>>=◌, length, some, true, arith, lt→ltb, length-append, append_assoc,
  append-nil, dec_lt, ◌⊎◌, inl, inr, drop, subst, set, length-set,
}
use barustenberg.Prelude.Failures.{index-lt}
use barustenberg.Prelude.Slices.{
  AllBelow, AllBelow-index, AllBelow-append, AllBelow-mono, index-append, index-append_left,
  index-ok,
}
use barustenberg.Numeric.{Profile}
use barustenberg.Composer.{
  ComposerBase, default, get_variable, get_public_input, get_public_inputs, get_num_public_inputs,
  collect_public_inputs, is_not_among,
}
use barustenberg.Composer.Circuit.{
  Call, variable, public_variable, public_input, merge, Circuit, empty_circuit, step, steps,
  ArePermitted, IsPermitted, read_all, run,
}
use barustenberg.Composer.Refinement.{Refines, empty-Refines, run-Refines}

-- No value stands at two places.
abbrev pub IsDistinct : List ℕ → Type 0
IsDistinct xs = (i j k : ℕ) → index xs i ≡ ok k → index xs j ≡ ok k → i ≡ j

pub is_not_among-index :
    (k : ℕ) (xs : List ℕ) (i : ℕ) → is_not_among k xs ≡ true → index xs i ≢ ok k
unfolding is_not_among
is_not_among-index k [] i n e = cc e
is_not_among-index k (x ∷ xs) zero n e = ground (arith, n, e)
is_not_among-index k (x ∷ xs) (suc i) n e = is_not_among-index k xs i (ground (arith, n)) e

-- A place of a list with one more value is a place of the list, or the last.
place_of :
    (xs : List ℕ) (k i v : ℕ)
    → index (xs ++ (k ∷ [])) i ≡ ok v
    → ((i < length xs) × (index xs i ≡ ok v)) ⊎ ((i ≡ length xs) × (v ≡ k))
place_of xs k i v e = elim (dec_lt i (length xs)) [
  | yes h ↦ inl (h, sym (index-append_left xs (k ∷ []) i h) ∙ e)
  | no n ↦
      let last : i ≡ length xs =
        omega (arith, index-lt (xs ++ (k ∷ [])) i e, length-append xs (k ∷ [])) in
      inr (last, cc (e, index-append xs k [] i last))
]

-- A new value keeps them distinct.
pub append-IsDistinct :
    (xs : List ℕ) (k : ℕ) → IsDistinct xs → is_not_among k xs ≡ true → IsDistinct (xs ++ (k ∷ []))
append-IsDistinct xs k d n i j v ei ej = elim (place_of xs k i v ei) [
  | inl (bi, pi) ↦ elim (place_of xs k j v ej) [
    | inl (bj, pj) ↦ d i j v pi pj
    | inr (lj, qj) ↦ absurd (is_not_among-index k xs i n (pi ∙ ap ok qj))
  ]
  | inr (li, qi) ↦ elim (place_of xs k j v ej) [
    | inl (bj, pj) ↦ absurd (is_not_among-index k xs j n (pj ∙ ap ok qi))
    | inr (lj, qj) ↦ li ∙ sym lj
  ]
]

-- The numbers below a bound do not hold the bound.
pub below-is_not_among : (n : ℕ) (xs : List ℕ) → AllBelow n xs → is_not_among n xs ≡ true
unfolding is_not_among
below-is_not_among n [] h = refl
below-is_not_among n (x ∷ xs) (b, h) = ground (arith, b, below-is_not_among n xs h)

drop-cons :
    (i : ℕ) (xs : List ℕ) (k : ℕ) (ks : List ℕ)
    → drop i xs ≡ k ∷ ks
    → (index xs i ≡ ok k) × (drop (suc i) xs ≡ ks)
drop-cons zero [] k ks e = cc e
drop-cons zero (x ∷ xs) k ks e = (cc e, cc e)
drop-cons (suc i) [] k ks e = cc e
drop-cons (suc i) (x ∷ xs) k ks e = drop-cons i xs k ks e

module _ {ℓ} {A : Type ℓ} where
  -- The public variables of a circuit exist and are distinct.
  record HasPublics (s : Circuit A) : Type 0 where
    below : AllBelow (length s.current) s.publics
    distinct : IsDistinct s.publics

  length-merged : (i j : ℕ) (s : Circuit A) → length (step (merge i j) s).current ≡ length s.current
  length-merged i j s =
      elim (index s.created j)
        as (λ o.
          length (elim o [ ok v ↦ set s.current i v | err ↦ s.current | panic ↦ s.current ])
          ≡ length s.current) [ ok v ↦ length-set s.current i v | err ↦ refl | panic ↦ refl ]

  step-HasPublics :
      (x : Call A) (s : Circuit A) → HasPublics s → IsPermitted x s → HasPublics (step x s)
  step-HasPublics (variable v) s h g = record {
    below =
        AllBelow-mono (length s.current) _ s.publics
          (omega (arith, length-append s.current (v ∷ []))) h.below;
    distinct = h.distinct;
  }
  step-HasPublics (public_variable v) s h g = record {
    below =
        AllBelow-append _ s.publics (length s.current ∷ [])
          (AllBelow-mono (length s.current) _ s.publics
            (omega (arith, length-append s.current (v ∷ []))) h.below)
          (omega (arith, length-append s.current (v ∷ [])), tt);
    distinct =
        append-IsDistinct s.publics (length s.current) h.distinct
          (below-is_not_among (length s.current) s.publics h.below);
  }
  step-HasPublics (public_input k) s h (b, n) = record {
    below = AllBelow-append _ s.publics (k ∷ []) h.below (b, tt);
    distinct = append-IsDistinct s.publics k h.distinct n;
  }
  step-HasPublics (merge i j) s h (b, b') = record {
    below = subst (λ n. AllBelow n s.publics) (sym (length-merged i j s)) h.below;
    distinct = h.distinct;
  }

  steps-HasPublics :
      (xs : List (Call A)) (s : Circuit A)
      → HasPublics s
      → ArePermitted xs s
      → HasPublics (steps xs s)
  steps-HasPublics [] s h g = h
  steps-HasPublics (x ∷ xs) s h (g, gs) =
      steps-HasPublics xs (step x s) (step-HasPublics x s h g) gs

  publics-length : (x : Call A) (s : Circuit A) → length (step x s).publics ≤ length s.publics + 1
  publics-length (variable v) s = omega arith
  publics-length (public_variable v) s =
      omega (arith, length-append s.publics (length s.current ∷ []))
  publics-length (public_input k) s = omega (arith, length-append s.publics (k ∷ []))
  publics-length (merge i j) s = omega arith

  steps-length :
      (xs : List (Call A)) (s : Circuit A)
      → length (steps xs s).publics ≤ length s.publics + length xs
  steps-length [] s = omega arith
  steps-length (x ∷ xs) s = omega (arith, steps-length xs (step x s), publics-length x s)

  regroup :
      (m : Outcome (List A)) (result : List A) (v : A)
      → (m >>= λ vs. ok ((result ++ (v ∷ [])) ++ vs))
        ≡ ((m >>= λ vs. ok (v ∷ vs)) >>= λ vs. ok (result ++ vs))
  regroup (ok vs) result v = ap ok (append_assoc result (v ∷ []) vs)
  regroup err result v = refl
  regroup panic result v = refl

  -- The loop reads what the circuit's public variables have.
  collect-read_all :
      (c : ComposerBase A) (s : Circuit A) (ks : List ℕ) (i : ℕ) (result : List A)
      → Refines c s
      → HasPublics s
      → drop i s.publics ≡ ks
      → i + length ks ≤ 2 ^ 32
      → collect_public_inputs c (length ks) i result
        ≡ (read_all s.current ks >>= λ vs. ok (result ++ vs))
  unfolding collect_public_inputs get_public_input
  collect-read_all c s [] i result r h e b = ap ok (sym (append-nil result))
  collect-read_all c s (k ∷ ks) i result r h e b =
      let (at, rest) = drop-cons i s.publics k ks e in
      let below : k < length s.current = AllBelow-index _ s.publics i k h.below at in
      let (v, ev) = index-ok s.current k below in
      rw (lt→ltb i (2 ^ 32) (omega arith)) (
        rw
          (ap (λ xs. index xs i) r.publics_eq ∙ at, r.reads k (omega (arith, r.current_length)), ev)
          (collect-read_all c s ks (suc i) (result ++ (v ∷ [])) r h rest (omega arith)
            ∙ regroup (read_all s.current ks) result v))

  nothing-HasPublics : HasPublics empty_circuit
  nothing-HasPublics = record { below = tt; distinct = λ i j k ei ej. cc ei }

  -- Whatever calls a client makes of those permitted, fewer than `2 ^ 32`, all succeed on the default
  -- composer, with any fuel but none. The composer then has the circuit's variables, of which each reads
  -- its current value, and `get_public_inputs` returns the current values of the public ones.
  pub run_lem :
      (p : Profile) (fuel : ℕ) (xs : List (Call A))
      → ArePermitted xs empty_circuit
      → length xs < 2 ^ 32
      → (c : ComposerBase A) × (run p (suc fuel) xs default ≡ some (ok c))
        × (c.variables ≡ (steps xs empty_circuit).created)
        × ((k : ℕ)
            → k < length c.variables
            → get_variable c k ≡ index (steps xs empty_circuit).current k)
        × (get_public_inputs c
            ≡ read_all (steps xs empty_circuit).current (steps xs empty_circuit).publics)
  unfolding get_public_inputs get_num_public_inputs
  run_lem p fuel xs h few =
      let s : Circuit A = steps xs empty_circuit in
      let (c, run1, r) =
        run-Refines p fuel xs default empty_circuit empty-Refines h (omega arith) in
      (
        c,
        run1,
        r.created_eq,
        r.reads,
        ap (λ (ks : List ℕ). collect_public_inputs c (length ks) 0 []) r.publics_eq
            ∙ collect-read_all c s s.publics 0 [] r
                (steps-HasPublics xs empty_circuit nothing-HasPublics h) refl
                (omega (arith, steps-length xs empty_circuit))
            ∙ bind_self (read_all s.current s.publics),
      )
    where
      bind_self : (m : Outcome (List A)) → (m >>= λ vs. ok vs) ≡ m
      bind_self (ok vs) = refl
      bind_self err = refl
      bind_self panic = refl
