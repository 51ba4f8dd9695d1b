-- ===== src/Prover/Memory.antt =====
-- The memory records of the fourth wire, as values of a polynomial in eta.
use barustenberg.Prelude.{
  ℕ, zero, suc, ◌≡◌, ◌≢◌, refl, sym, ap, ◌∙◌, List, [], ◌∷◌, Outcome, ok, index, length, length-set,
  set, arith, get_or, ◌⊎◌, inl, inr,
}
use barustenberg.Prelude.Slices.{assign-set, index-set_self, index-set_ne, AllBelow, index-get_or}
use barustenberg.Field.{Field, ◌⊕◌, ◌⊗◌}
use barustenberg.Field.Laws.{mul-zero, add-zero}
use barustenberg.Polynomials.Evaluation.{eval}
use barustenberg.Prover.{add_records, add_plookup_memory_records_to_w_4}

-- None of the gates is `g`.
abbrev pub IsOther : ℕ → List ℕ → Type 0
IsOther g [] = Unit
IsOther g (k ∷ ks) = (k ≢ g) × IsOther g ks

abbrev pub IsAmong : ℕ → List ℕ → Type 0
IsAmong g [] = ⊥
IsAmong g (k ∷ ks) = (k ≡ g) ⊎ IsAmong g ks

other_differs : (k g : ℕ) (ks : List ℕ) → IsOther k ks → IsAmong g ks → k ≢ g
other_differs k g [] o m q = elim m [ ]
other_differs k g (j ∷ ks) (h, o) (inl e) q = h (e ∙ sym q)
other_differs k g (j ∷ ks) (h, o) (inr m) q = other_differs k g ks o m q

get_or-set_ne {ℓ} :
    {A : Type ℓ} (xs : List A) (i j : ℕ) (v d : A) → i ≢ j → get_or (set xs i v) j d ≡ get_or xs j d
get_or-set_ne [] i j v d h = refl
get_or-set_ne (x ∷ xs) zero zero v d h = absurd (h refl)
get_or-set_ne (x ∷ xs) zero (suc j) v d h = refl
get_or-set_ne (x ∷ xs) (suc i) zero v d h = refl
get_or-set_ne (x ∷ xs) (suc i) (suc j) v d h = get_or-set_ne xs i j v d (λ e. h (ap suc e))

-- What an outcome holds, or the default.
value {ℓ} : {A : Type ℓ} → A → Outcome A → A
value d (ok a) = a
value d _ = d

get_or-value {ℓ} : {A : Type ℓ} (xs : List A) (g : ℕ) (d : A) → get_or xs g d ≡ value d (index xs g)
unfolding value
get_or-value [] g d = refl
get_or-value (x ∷ xs) zero d = refl
get_or-value (x ∷ xs) (suc g) d = get_or-value xs g d

abbrev pub AreDistinct : List ℕ → Type 0
AreDistinct [] = Unit
AreDistinct (k ∷ ks) = IsOther k ks × AreDistinct ks

module _ {ℓ} {A : Type ℓ} ⦃f : Field A⦄ where
  -- The steps of a record.
  abbrev stepped : (eta a b c d : A) → A
  stepped eta a b c d = ((((d ⊕ c) ⊗ eta) ⊕ b) ⊗ eta ⊕ a) ⊗ eta

  stepped-eval : (eta a b c d : A) → stepped eta a b c d ≡ eval (f.zero ∷ a ∷ b ∷ (d ⊕ c) ∷ []) eta
  stepped-eval eta a b c d =
      f.mul_comm _ eta
      ∙ ap (λ t. eta ⊗ t)
          (f.add_comm _ a
            ∙ ap (λ t. a ⊕ t)
                (f.mul_comm _ eta
                  ∙ ap (λ t. eta ⊗ t)
                      (f.add_comm _ b
                        ∙ ap (λ t. b ⊕ t)
                            (f.mul_comm _ eta
                              ∙ ap (λ t. eta ⊗ t)
                                  (sym (add-zero _)
                                    ∙ ap (λ t. (d ⊕ c) ⊕ t) (sym (mul-zero eta)))))))
      ∙ sym (f.zero-add _)

  flagged :
      (eta a b c d : A) → stepped eta a b c d ⊕ f.one ≡ eval (f.one ∷ a ∷ b ∷ (d ⊕ c) ∷ []) eta
  flagged eta a b c d =
      f.add_comm _ f.one ∙ ap (λ t. f.one ⊕ t) (stepped-eval eta a b c d ∙ f.zero-add _)

  module _ (w_1 w_2 w_3 : List A) (eta : A) (n : ℕ) (h1 : length w_1 ≡ n) (h2 : length w_2 ≡ n)
      (h3 : length w_3 ≡ n) where
    -- The value of a record before it is finished.
    abbrev at_gate : List A → ℕ → A
    at_gate w_4 g =
        stepped eta (get_or w_1 g f.zero) (get_or w_2 g f.zero) (get_or w_3 g f.zero)
          (get_or w_4 g f.zero)

    -- Every record of the list has its entry replaced, and no other entry changes.
    add_records-entries :
        (finish : A → A) (records : List ℕ) (w_4 : List A)
        → length w_4 ≡ n
        → AllBelow n records
        → AreDistinct records
        → (w : List A) × (add_records w_1 w_2 w_3 eta finish records w_4 ≡ ok w)
          × (length w ≡ n)
          × ((g : ℕ) → IsAmong g records → index w g ≡ ok (finish (at_gate w_4 g)))
          × ((g : ℕ) → IsOther g records → index w g ≡ index w_4 g)
    unfolding add_records
    add_records-entries finish [] w_4 h4 below distinct =
        (w_4, refl, h4, λ g m. absurd m, λ g o. refl)
    add_records-entries finish (k ∷ records) w_4 h4 (bk, below) (other, distinct) =
        let v = finish (at_gate w_4 k) in
        let (w, run, len, entries, frame) =
          add_records-entries finish records (set w_4 k v) (length-set w_4 k v ∙ h4) below
            distinct in
        (
          w,
          rw (add_records, index-get_or w_4 k f.zero (omega arith))
              (rw (index-get_or w_3 k f.zero (omega arith), index-get_or w_2 k f.zero (omega arith))
                (rw (index-get_or w_1 k f.zero (omega arith))
                  (rw (assign-set w_4 k v (omega arith)) run))),
          len,
          λ g m. each v w entries frame g m,
          λ g o. frame g (o.1) ∙ index-set_ne w_4 k g v (o.0),
        )
      where
        each :
            (v : A) (w : List A)
            → ((g : ℕ)
                → IsAmong g records
                → index w g ≡ ok (finish (at_gate (set w_4 k (finish (at_gate w_4 k))) g)))
            → ((g : ℕ)
                → IsOther g records
                → index w g ≡ index (set w_4 k (finish (at_gate w_4 k))) g)
            → (g : ℕ) → IsAmong g (k ∷ records)
            → index w g ≡ ok (finish (at_gate w_4 g))
        each v w entries frame g (inl e) =
            ap (index w) (sym e)
            ∙ frame k other
            ∙ index-set_self w_4 k _ (omega arith)
            ∙ ap (λ j. ok (finish (at_gate w_4 j))) e
        each v w entries frame g (inr m) =
            entries g m
            ∙ ap
                (λ d. ok (
                  finish (
                    stepped eta (get_or w_1 g f.zero) (get_or w_2 g f.zero) (get_or w_3 g f.zero)
                      d)))
                (get_or-set_ne w_4 k g _ f.zero (other_differs k g records other m))

    -- On wires of equal length, with all the records in range and no gate recorded twice, the function
    -- succeeds. The fourth wire then has at each record the value at eta of the polynomial with the
    -- coefficients flag, first wire, second wire and the sum of the third and the fourth, the flag
    -- zero for a read and one for a write, and is unchanged elsewhere.
    pub add_plookup_memory_records_lem :
        (reads writes : List ℕ) (w_4 : List A)
        → length w_4 ≡ n
        → AllBelow n reads
        → AllBelow n writes
        → AreDistinct reads
        → AreDistinct writes
        → ((g : ℕ) → IsAmong g reads → IsOther g writes)
        → ((g : ℕ) → IsAmong g writes → IsOther g reads)
        → (w : List A) × (add_plookup_memory_records_to_w_4 eta w_1 w_2 w_3 reads writes w_4 ≡ ok w)
          × ((g : ℕ)
              → IsAmong g reads
              → index w g
                ≡ ok (
                    eval
                      (f.zero
                        ∷ get_or w_1 g f.zero
                        ∷ get_or w_2 g f.zero
                        ∷ (get_or w_4 g f.zero ⊕ get_or w_3 g f.zero)
                        ∷ [])
                      eta))
          × ((g : ℕ)
              → IsAmong g writes
              → index w g
                ≡ ok (
                    eval
                      (f.one
                        ∷ get_or w_1 g f.zero
                        ∷ get_or w_2 g f.zero
                        ∷ (get_or w_4 g f.zero ⊕ get_or w_3 g f.zero)
                        ∷ [])
                      eta))
          × ((g : ℕ) → IsOther g reads → IsOther g writes → index w g ≡ index w_4 g)
    unfolding add_plookup_memory_records_to_w_4
    add_plookup_memory_records_lem reads writes w_4 h4 br bw dr dw rw_apart wr_apart =
        let (v, run, len, entries, frame) = add_records-entries (λ t. t) reads w_4 h4 br dr in
        let (w, run', len', entries', frame') =
          add_records-entries (λ t. t ⊕ f.one) writes v len bw dw in
        (
          w,
          rw run run',
          λ g m. frame' g (rw_apart g m) ∙ entries g m ∙ ap ok (stepped-eval eta _ _ _ _),
          λ g m.
              entries' g m
              ∙ ap ok (flagged eta _ _ _ _)
              ∙ ap
                  (λ t. ok (
                    eval
                      (f.one
                        ∷ get_or w_1 g f.zero
                        ∷ get_or w_2 g f.zero
                        ∷ (t ⊕ get_or w_3 g f.zero)
                        ∷ [])
                      eta))
                  (get_or-value v g f.zero
                    ∙ ap (value f.zero) (frame g (wr_apart g m))
                    ∙ sym (get_or-value w_4 g f.zero)),
          λ g o o'. frame' g o' ∙ frame g o,
        )
