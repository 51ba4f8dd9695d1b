-- ===== src/Widgets/Challenges.antt =====
-- What `get_challenges` and `update_alpha` compute, and when they panic.
use Prim.Native.String.{String}
use barustenberg.Prelude.{
  bit_and, ℕ, zero, suc, ◌+◌, ◌-◌, ◌<◌, ◌≡◌, ◌≢◌, refl, sym, ap, ◌∙◌, List, [], ◌∷◌, ◌++◌, length,
  arith, get_or, Outcome, ok, err, panic, index, assign, assert, ◌>>=◌, ◌>>◌, ltb, lt→ltb, ◌==◌,
  replicate, length-replicate, Option, none, some, Bool, true, false, ◌||◌, not, append_assoc,
  length-append, >>=_assoc,
}
use barustenberg.Prelude.Slices.{index-append, assign-append_second, index-get_or}
use barustenberg.Field.{Field, ◌⊗◌}
use barustenberg.Polynomials.Subgroup.Members.{progression, length-progression, get_or-progression}
use barustenberg.Prelude.Failures.{bind-panic, bind-ne_err, assign-ne_err, assert-ne_err}
use barustenberg.Transcript.Reads.{
  get_challenge_field_element-found, get_challenge_field_element-ne_err, get_num_challenges-ne_err,
}
use barustenberg.Transcript.{
  Transcript, Codec, has_challenge, get_num_challenges, get_challenge_field_element,
}
use barustenberg.Widgets.{
  ChallengeIndex, alpha, beta, gamma, eta, zeta, max_num_challenges, place, challenge_bit,
  ChallengeArray, alpha_loop, update_alpha, add_challenge, requires, challenge_elements,
  get_challenges,
}

or_true : (b : Bool) → (b || true) ≡ true
or_true true = refl
or_true false = refl

requires-set :
    (required : ℕ) (i : ChallengeIndex)
    → bit_and required (challenge_bit i) ≢ 0
    → not (bit_and required (challenge_bit i) == 0) ≡ true
requires-set required i h = ground (arith)

-- The label under which each challenge stands, and its place there.
abbrev pub challenge_label : ChallengeIndex → String
challenge_label alpha = "alpha"
challenge_label beta = "beta"
challenge_label gamma = "beta"
challenge_label eta = "eta"
challenge_label zeta = "z"
challenge_label max_num_challenges = ""

module _ {ℓ} {A : Type ℓ} ⦃f : Field A⦄ where
  -- The loop fills in the powers of the first element, times the first entry.
  alpha_loop-progression :
      (elements : List A) (a : A) (i : ℕ) (pre : List A) (c : A) (old : List A)
      → index elements 0 ≡ ok a
      → i ≡ length pre + 1
      → alpha_loop elements (length old) i (pre ++ (c ∷ old))
        ≡ ok (pre ++ (c ∷ progression (c ⊗ a) a (length old)))
  unfolding alpha_loop
  alpha_loop-progression elements a i pre c [] h e = refl
  alpha_loop-progression elements a i pre c (x ∷ old) h e =
      rw (index-append pre c (x ∷ old) (i - 1) (omega arith)) (
        rw h (
          rw (assign-append_second pre c x old i (c ⊗ a) (omega arith)) (
            rw (← append_assoc pre (c ∷ []) (c ⊗ a ∷ old)) (
              alpha_loop-progression elements a (suc i) (pre ++ (c ∷ [])) (c ⊗ a) old h
                (omega (arith, length-append pre (c ∷ [])))
              ∙ ap ok (append_assoc pre (c ∷ []) _)))))

  alpha_powers_run :
      (elements : List A) (a c : A) (n : ℕ) (old : List A)
      → index elements 0 ≡ ok a
      → length old ≡ n
      → 0 < n
      → (assign old 0 c >>= alpha_loop elements (n - 1) 1) ≡ ok (progression c a n)
  alpha_powers_run elements a c zero old h e pos = absurd (omega arith)
  alpha_powers_run elements a c (suc n) [] h e pos = absurd (omega arith)
  alpha_powers_run elements a c (suc n) (x ∷ old) h e pos =
      ap (λ k. alpha_loop elements k 1 (c ∷ old)) {x = suc n - 1} {y = length old} (omega arith)
      ∙ alpha_loop-progression elements a 1 [] c old h (omega arith)
      ∙ ap (λ k. ok (c ∷ progression (c ⊗ a) a k)) {x = length old} {y = n} (omega arith)

  update_alpha-progression :
      (n : ℕ) (elements : List A) (a c : A)
      → index elements 0 ≡ ok a
      → 0 < n
      → update_alpha n (record { elements = elements; alpha_powers = progression c a n })
        ≡ ok (c ⊗ f.pow a n)
  unfolding update_alpha
  update_alpha-progression zero elements a c h pos = absurd (omega arith)
  update_alpha-progression (suc n) elements a c h pos = rw (nonzero) (
      rw
        (index-get_or (progression c a (suc n)) (suc n - 1) f.zero
          (omega (arith, length-progression c a (suc n))))
        (rw h (
          ap (λ t. ok (t ⊗ a))
            (get_or-progression c a (suc n) (suc n - 1) (omega arith)
              ∙ ap (λ k. c ⊗ f.pow a k) {x = suc n - 1} {y = n} (omega arith))
          ∙ ap ok (f.mul_assoc c (f.pow a n) a ∙ ap (λ t. c ⊗ t) (sym (f.pow-suc a n))))))
    where
      nonzero : (suc n == 0) ≡ false
      nonzero = ground arith

  module _ {κ} {R : Type κ} ⦃codec : Codec A⦄ (draw : R → Option A × R) where
    -- A challenge that the transcript holds is read, and nothing is drawn.
    add_challenge-present :
        (t : Transcript) (label : String) (tag : ChallengeIndex) (required : Bool) (idx : ℕ)
        (elements : List A) (rng : R) {v : A}
        → get_challenge_field_element t label (some idx) ≡ ok v
        → add_challenge draw t label tag required idx (elements, rng)
          ≡ (assign elements (place tag) v >>= λ elements'. ok (elements', rng))
    unfolding add_challenge
    add_challenge-present t label tag required idx elements rng h =
        let (present, n, count, below) = get_challenge_field_element-found t label idx h in
        rw (add_challenge, present, or_true (not required))
          (rw count (rw (lt→ltb idx n below) (rw h refl)))

    add_challenge-missing :
        (t : Transcript) (label : String) (tag : ChallengeIndex) (idx : ℕ) (s : List A × R)
        → has_challenge t label ≡ false
        → add_challenge draw t label tag true idx s ≡ panic
    unfolding add_challenge
    add_challenge-missing t label tag idx (elements, rng) h = rw (add_challenge, h) refl

    add_challenge-ne_err :
        (t : Transcript) (label : String) (tag : ChallengeIndex) (required : Bool) (idx : ℕ)
        (s : List A × R)
        → add_challenge draw t label tag required idx s ≢ err
    unfolding add_challenge
    add_challenge-ne_err t label tag required idx (elements, rng) =
        bind-ne_err (assert (not required || has_challenge t label)) _ (assert-ne_err _)
          (λ u. branch (has_challenge t label))
      where
        written :
            (v : A) (rng' : R)
            → ◌>>=◌ {B = List A × R}
                (assign elements (place tag) v)
                (λ elements'. ok (elements', rng'))
              ≢ err
        written v rng' =
            bind-ne_err (assign elements (place tag) v) _ (assign-ne_err elements (place tag) v)
              (λ elements' q. cc)

        drawn :
            (o : Option A)
            → ◌>>=◌ {B = List A × R}
                (elim o as (λ x. Outcome (List A)) [
                  | none ↦ panic
                  | some v ↦ assign elements (place tag) v
                ])
                (λ elements'. ok (elements', (draw rng).1))
              ≢ err
        drawn none = λ q. cc
        drawn (some v) = written v (draw rng).1

        branch :
            (b : Bool)
            → elim b as (λ x. Outcome (List A × R)) [
              | true ↦
                  (get_num_challenges t label >>= λ n.
                  assert (ltb idx n)
                  >> (get_challenge_field_element t label (some idx) >>= λ v.
                      assign elements (place tag) v >>= λ elements'. ok (elements', rng)))
              | false ↦
                  (elim ((draw rng).0) [ none ↦ panic | some v ↦ assign elements (place tag) v ]
                    >>= λ elements'. ok (elements', (draw rng).1))
            ]
              ≢ err
        branch true =
            bind-ne_err (get_num_challenges t label) _ (get_num_challenges-ne_err t label) (λ n.
              bind-ne_err (assert (ltb idx n)) _ (assert-ne_err _) (λ u.
                bind-ne_err (get_challenge_field_element t label (some idx)) _
                  (get_challenge_field_element-ne_err t label (some idx)) (λ v. written v rng)))
        branch false = drawn ((draw rng).0)

    -- With the five challenges in the transcript and at least one relation, `get_challenges` succeeds,
    -- draws nothing and reads them in the order of their places; the powers of alpha are the base times
    -- its powers from 0 on, and `update_alpha` is the next one.
    pub get_challenges_lem :
        (n : ℕ) (t : Transcript) (alpha_base : A) (required : ℕ) (rng : R) (a b g e z : A)
        → get_challenge_field_element t "alpha" (some 0) ≡ ok a
        → get_challenge_field_element t "beta" (some 0) ≡ ok b
        → get_challenge_field_element t "beta" (some 1) ≡ ok g
        → get_challenge_field_element t "eta" (some 0) ≡ ok e
        → get_challenge_field_element t "z" (some 0) ≡ ok z
        → 0 < n
        → (challenges : ChallengeArray A) × (get_challenges draw n t alpha_base required rng
            ≡ ok (challenges, rng))
          × (challenges.elements ≡ a ∷ b ∷ g ∷ e ∷ z ∷ [])
          × (length challenges.alpha_powers ≡ n)
          × ((i : ℕ) → i < n → get_or challenges.alpha_powers i f.zero ≡ alpha_base ⊗ f.pow a i)
          × (update_alpha n challenges ≡ ok (alpha_base ⊗ f.pow a n))
    unfolding get_challenges challenge_elements
    get_challenges_lem n t base required rng a b g e z ha hb hg he hz pos = (
      record { elements = all; alpha_powers = progression base a n },
      rw
          (add_challenge-present t "alpha" alpha (requires draw required alpha) 0
            (replicate 5 f.zero) rng ha)
          (rw
            (add_challenge-present t "beta" beta (requires draw required beta) 0 (a ∷ zeros 4) rng
              hb)
            (rw
              (add_challenge-present t "beta" gamma (requires draw required gamma) 1
                (a ∷ b ∷ zeros 3) rng hg)
              (rw
                (add_challenge-present t "eta" eta (requires draw required eta) 0
                  (a ∷ b ∷ g ∷ zeros 2) rng he)
                (rw
                  (add_challenge-present t "z" zeta (requires draw required zeta) 0
                    (a ∷ b ∷ g ∷ e ∷ zeros 1) rng hz)
                  (sym (
                      >>=_assoc (assign (zeros n) 0 base) (alpha_loop all (n - 1) 1)
                        (λ p. ok (record { elements = all; alpha_powers = p }, rng)))
                    ∙ ap (λ m. m >>= λ p. ok (record { elements = all; alpha_powers = p }, rng))
                        (alpha_powers_run all a base n (zeros n) refl (length-replicate n f.zero)
                          pos)))))),
      refl,
      length-progression base a n,
      get_or-progression base a n,
      update_alpha-progression n all a base refl pos,
    )
      where
        zeros : ℕ → List A
        zeros k = replicate k f.zero

        all : List A
        all = a ∷ b ∷ g ∷ e ∷ z ∷ []

    -- With the bit of a challenge set in the mask and its label not in the transcript,
    -- `get_challenges` panics, whatever the transcript holds and the generator draws.
    pub get_challenges-missing :
        (n : ℕ) (t : Transcript) (alpha_base : A) (required : ℕ) (rng : R) (i : ChallengeIndex)
        → i ≢ max_num_challenges
        → bit_and required (challenge_bit i) ≢ 0
        → has_challenge t (challenge_label i) ≡ false
        → get_challenges draw n t alpha_base required rng ≡ panic
    unfolding get_challenges challenge_elements
    get_challenges-missing n t base required rng i h set miss =
        ap
          (λ (m : Outcome (List A × R)). m >>= λ (elements, rng').
            assign (replicate n f.zero) 0 base >>= λ first.
            alpha_loop elements (n - 1) 1 first >>= λ p.
            ok (record { elements = elements; alpha_powers = p }, rng'))
          (at i h set miss (replicate 5 f.zero, rng))
      where
        step : ChallengeIndex → ℕ → List A × R → Outcome (List A × R)
        step j idx = add_challenge draw t (challenge_label j) j (requires draw required j) idx

        here :
            (j : ChallengeIndex) (idx : ℕ)
            → bit_and required (challenge_bit j) ≢ 0
            → has_challenge t (challenge_label j) ≡ false
            → (s : List A × R) → step j idx s ≡ panic
        here j idx set miss s =
            rw (requires-set required j set)
              (add_challenge-missing t (challenge_label j) j idx s miss)

        safe : (j : ChallengeIndex) (idx : ℕ) (s : List A × R) → step j idx s ≢ err
        safe j idx s = add_challenge-ne_err t (challenge_label j) j (requires draw required j) idx s

        after :
            (m : Outcome (List A × R)) (k : List A × R → Outcome (List A × R))
            → m ≡ panic
            → (m >>= k) ≡ panic
        after m k e = ap (λ (o : Outcome (List A × R)). o >>= k) e

        at :
            (j : ChallengeIndex)
            → j ≢ max_num_challenges
            → bit_and required (challenge_bit j) ≢ 0
            → has_challenge t (challenge_label j) ≡ false
            → (s : List A × R) → challenge_elements draw t required s ≡ panic
        at alpha h set miss s = after _ _ (here alpha 0 set miss s)
        at beta h set miss s =
            bind-panic _ _ (safe alpha 0 s) (λ s1. after _ _ (here beta 0 set miss s1))
        at gamma h set miss s =
            bind-panic _ _ (safe alpha 0 s)
              (λ s1. bind-panic _ _ (safe beta 0 s1) (λ s2. after _ _ (here gamma 1 set miss s2)))
        at eta h set miss s = bind-panic _ _ (safe alpha 0 s) (λ s1.
            bind-panic _ _ (safe beta 0 s1)
              (λ s2. bind-panic _ _ (safe gamma 1 s2) (λ s3. after _ _ (here eta 0 set miss s3))))
        at zeta h set miss s = bind-panic _ _ (safe alpha 0 s) (λ s1.
            bind-panic _ _ (safe beta 0 s1) (λ s2.
              bind-panic _ _ (safe gamma 1 s2)
                (λ s3. bind-panic _ _ (safe eta 0 s3) (λ s4. here zeta 0 set miss s4))))
        at max_num_challenges h set miss s = absurd (h refl)
