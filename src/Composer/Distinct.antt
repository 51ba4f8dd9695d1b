-- ===== src/Composer/Distinct.antt =====
-- composer_base.rs: the public inputs that sequences of calls leave, and the guard of
-- `set_public_input`.
use barustenberg.Prelude.{
  ℕ, ◌+◌, ◌<◌, ◌≤◌, ◌^◌, ◌≡◌, refl, sym, List, [], ◌∷◌, ◌++◌, Outcome, ok, err, panic, index, ◌>>=◌,
  length, Option, none, some, true, false, arith, length-append, Bool-cases, inl, inr, subst,
}
use barustenberg.Prelude.Slices.{AllBelow, AllBelow-append, AllBelow-mono}
use barustenberg.Numeric.{Profile}
use barustenberg.Composer.{
  ComposerBase, default, relabel, add_public_variable, set_public_input,
  update_real_variable_indices, is_not_among,
}
use barustenberg.Composer.Validity.{added, add_variable-added}
use barustenberg.Composer.Circuit.{
  Call, variable, public_variable, public_input, merge, perform, run,
}
use barustenberg.Composer.Runs.{
  IsDistinct, append-IsDistinct, below-is_not_among, is_not_among-index,
}

among-is_not_among : (k : ℕ) (xs : List ℕ) (i : ℕ) → index xs i ≡ ok k → is_not_among k xs ≡ false
among-is_not_among k xs i e = elim (Bool-cases (is_not_among k xs)) [
  | inl n ↦ absurd (is_not_among-index k xs i n e)
  | inr n ↦ n
]

module _ {ℓ} {A : Type ℓ} where
  -- How many variables there are after a call, of `n` before it.
  abbrev pub count_after : Call A → ℕ → ℕ
  count_after (variable v) n = n + 1
  count_after (public_variable v) n = n + 1
  count_after (public_input k) n = n
  count_after (merge i j) n = n

  -- Every `public_input` names a variable that exists by then.
  abbrev pub AreCreated : List (Call A) → (n : ℕ) → Type 0
  AreCreated [] n = Unit
  AreCreated (public_input k ∷ xs) n = (k < n) × AreCreated xs n
  AreCreated (x ∷ xs) n = AreCreated xs (count_after x n)

  -- The public variables of a composer of `n` variables exist and are distinct.
  record HasPublics (n : ℕ) (c : ComposerBase A) : Type 0 where
    count : length c.variables ≡ n
    below : AllBelow n c.public_inputs
    distinct : IsDistinct c.public_inputs

  added-HasPublics :
      (n : ℕ) (c : ComposerBase A) (v : A) → HasPublics n c → HasPublics (n + 1) (added c v)
  added-HasPublics n c v h = record {
    count = omega (arith, length-append c.variables (v ∷ []), h.count);
    below = AllBelow-mono n _ c.public_inputs (omega arith) h.below;
    distinct = h.distinct;
  }

  pushed-HasPublics :
      (n : ℕ) (c : ComposerBase A) (k : ℕ)
      → HasPublics n c
      → k < n
      → is_not_among k c.public_inputs ≡ true
      → HasPublics n (record c { public_inputs = c.public_inputs ++ (k ∷ []) })
  pushed-HasPublics n c k h b e = record {
    count = h.count;
    below = AllBelow-append _ c.public_inputs (k ∷ []) h.below (b, tt);
    distinct = append-IsDistinct c.public_inputs k h.distinct e;
  }

  -- A variable that is public makes `set_public_input` panic.
  set_public_input-panic :
      (c : ComposerBase A) (k : ℕ)
      → is_not_among k c.public_inputs ≡ false
      → set_public_input c k ≡ panic
  unfolding set_public_input
  set_public_input-panic c k e = rw (set_public_input, e) refl

  set_public_input-HasPublics :
      (n : ℕ) (c c' : ComposerBase A) (k : ℕ)
      → HasPublics n c
      → k < n
      → set_public_input c k ≡ ok c'
      → HasPublics n c'
  unfolding set_public_input
  set_public_input-HasPublics n c c' k h b run =
      elim (Bool-cases (is_not_among k c.public_inputs)) [
        | inl e ↦
            let pushed : set_public_input c k
                ≡ ok (record c { public_inputs = c.public_inputs ++ (k ∷ []) }) =
              rw (set_public_input, e) refl in
            subst (HasPublics n) (cc (pushed, run)) (pushed-HasPublics n c k h b e)
        | inr e ↦ absurd (cc (set_public_input-panic c k e, run))
      ]

  update-HasPublics :
      (fuel n : ℕ) (c c' : ComposerBase A) (i j : ℕ)
      → HasPublics n c
      → update_real_variable_indices fuel c i j ≡ some (ok c')
      → HasPublics n c'
  unfolding update_real_variable_indices
  update-HasPublics fuel n c c' i j h run =
      written (relabel fuel c.next_var_index i j c.real_variable_index) run
    where
      kept : (r : List ℕ) → HasPublics n (record c { real_variable_index = r })
      kept r = record { count = h.count; below = h.below; distinct = h.distinct }

      written :
          (o : Option (Outcome (List ℕ)))
          → elim o as (λ _. Option (Outcome (ComposerBase A))) [
            | some m ↦ some (m >>= λ r. ok (record c { real_variable_index = r }))
            | none ↦ none
          ]
            ≡ some (ok c')
          → HasPublics n c'
      written (some (ok r)) e = subst (HasPublics n) (cc e) (kept r)
      written (some err) e = cc e
      written (some panic) e = cc e
      written none e = cc e

  -- One successful call.
  perform-HasPublics :
      (p : Profile) (fuel n : ℕ) (x : Call A) (xs : List (Call A)) (c c' : ComposerBase A)
      → HasPublics n c
      → AreCreated (x ∷ xs) n
      → n + 1 < 2 ^ 32
      → perform p fuel x c ≡ some (ok c')
      → HasPublics (count_after x n) c' × AreCreated xs (count_after x n)
  unfolding perform add_public_variable
  perform-HasPublics p fuel n (variable v) xs c c' h g few run =
      let made = add_variable-added p c v (omega (arith, h.count)) in
      (subst (HasPublics (n + 1)) (cc (made, run)) (added-HasPublics n c v h), g)
  perform-HasPublics p fuel n (public_variable v) xs c c' h g few run =
      let k = length c.variables in
      let pushed = record (added c v) { public_inputs = c.public_inputs ++ (k ∷ []) } in
      let made : perform p fuel (public_variable v) c ≡ some (ok pushed) =
        rw (add_variable-added p c v (omega (arith, h.count))) refl in
      let fresh =
        below-is_not_among k c.public_inputs
          (subst (λ m. AllBelow m c.public_inputs) (sym h.count) h.below) in
      (
        subst (HasPublics (n + 1)) (cc (made, run)) (
            pushed-HasPublics (n + 1) (added c v) k (added-HasPublics n c v h)
              (omega (arith, h.count)) fresh),
        g,
      )
  perform-HasPublics p fuel n (public_input k) xs c c' h (b, g) few run =
      (set_public_input-HasPublics n c c' k h b (cc run), g)
  perform-HasPublics p fuel n (merge i j) xs c c' h g few run =
      (update-HasPublics fuel n c c' i j h run, g)

  count_after-le : (x : Call A) (n : ℕ) → count_after x n ≤ n + 1
  count_after-le (variable v) n = omega arith
  count_after-le (public_variable v) n = omega arith
  count_after-le (public_input k) n = omega arith
  count_after-le (merge i j) n = omega arith

  -- The first call of a run that succeeds does, and so does the rest from what it leaves.
  run-cons :
      (p : Profile) (fuel : ℕ) (x : Call A) (xs : List (Call A)) (c c' : ComposerBase A)
      → run p fuel (x ∷ xs) c ≡ some (ok c')
      → (c1 : ComposerBase A) × (perform p fuel x c ≡ some (ok c1))
        × (run p fuel xs c1 ≡ some (ok c'))
  unfolding run
  run-cons p fuel x xs c c' e = first (perform p fuel x c) e
    where
      first :
          (o : Option (Outcome (ComposerBase A)))
          → elim o as (λ _. Option (Outcome (ComposerBase A))) [
            | none ↦ none
            | some m ↦ elim m [ ok c1 ↦ run p fuel xs c1 | err ↦ some err | panic ↦ some panic ]
          ]
            ≡ some (ok c')
          → (c1 : ComposerBase A) × (o ≡ some (ok c1)) × (run p fuel xs c1 ≡ some (ok c'))
      first none e = cc e
      first (some err) e = cc e
      first (some panic) e = cc e
      first (some (ok c1)) e = (c1, refl, e)

  run-HasPublics :
      (p : Profile) (fuel n : ℕ) (xs : List (Call A)) (c c' : ComposerBase A)
      → HasPublics n c
      → AreCreated xs n
      → n + length xs < 2 ^ 32
      → run p fuel xs c ≡ some (ok c')
      → HasPublics (length c'.variables) c'
  unfolding run
  run-HasPublics p fuel n [] c c' h g few e =
      subst (λ (c : ComposerBase A). HasPublics (length c.variables) c) (cc e)
        (subst (λ m. HasPublics m c) (sym h.count) h)
  run-HasPublics p fuel n (x ∷ xs) c c' h g few e =
      let (c1, run1, rest) = run-cons p fuel x xs c c' e in
      let (h1, g1) = perform-HasPublics p fuel n x xs c c1 h g (omega arith) run1 in
      run-HasPublics p fuel (count_after x n) xs c1 c' h1 g1 (omega (arith, count_after-le x n))
        rest

  default-HasPublics : HasPublics 0 (default {A = A})
  unfolding default
  default-HasPublics = record { count = refl; below = tt; distinct = λ i j k ei ej. cc ei }

  -- After any fewer than `2 ^ 32` calls that succeed on the default composer, where each variable made
  -- public by its index exists by then, no variable is public twice, each public one exists, and to
  -- make one of them public once more panics.
  pub run-IsDistinct :
      (p : Profile) (fuel : ℕ) (xs : List (Call A)) (c : ComposerBase A)
      → AreCreated xs 0
      → length xs < 2 ^ 32
      → run p fuel xs default ≡ some (ok c)
      → IsDistinct c.public_inputs
        × AllBelow (length c.variables) c.public_inputs
        × ((i k : ℕ) → index c.public_inputs i ≡ ok k → set_public_input c k ≡ panic)
  run-IsDistinct p fuel xs c g few e =
      let h = run-HasPublics p fuel 0 xs default c default-HasPublics g (omega arith) e in
      (
        h.distinct,
        h.below,
        λ i k q. set_public_input-panic c k (among-is_not_among k c.public_inputs i q),
      )
