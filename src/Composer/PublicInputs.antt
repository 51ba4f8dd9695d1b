-- ===== src/Composer/PublicInputs.antt =====
-- `add_public_variable`, `set_public_input` and `get_public_inputs`.
use barustenberg.Prelude.{
  ℕ, zero, suc, ◌+◌, ◌<◌, ◌≤◌, ◌^◌, ◌≡◌, refl, sym, ap, ◌∙◌, List, [], ◌∷◌, ◌++◌, ok, panic, index,
  length, arith, true, false, lt→ltb, length-append, append_assoc, append-nil,
}
use barustenberg.Prelude.Slices.{AllBelow-append, AllBelow-index, index-ok}
use barustenberg.Numeric.{Profile}
use barustenberg.Composer.{
  ComposerBase, add_public_variable, set_public_input, is_not_among, get_public_input,
  get_public_inputs, collect_public_inputs, get_num_public_inputs,
}
use barustenberg.Composer.Validity.{
  IsValid, added, add_variable-added, added-IsValid, get_variable-ok,
}

module _ {ℓ} {A : Type ℓ} where
  pub with_public :
      (c : ComposerBase A) (k : ℕ)
      → IsValid c
      → k < length c.variables
      → IsValid (record c { public_inputs = c.public_inputs ++ (k ∷ []) })
  with_public c k w h = record {
    next_length = w.next_length;
    prev_length = w.prev_length;
    real_length = w.real_length;
    tags_length = w.tags_length;
    cycles_length = w.cycles_length;
    real_below = w.real_below;
    public_below = AllBelow-append _ c.public_inputs (k ∷ []) w.public_below (h, tt);
    few = w.few;
  }

  -- With room for one more index, `add_public_variable` on a valid composer returns the index of the
  -- new variable and a valid composer whose public inputs are the old ones and that index.
  pub add_public_variable_lem :
      (p : Profile) (c : ComposerBase A) (v : A)
      → IsValid c
      → length c.variables + 1 < 2 ^ 32
      → (c' : ComposerBase A) × (add_public_variable p c v ≡ ok (length c.variables, c'))
        × IsValid c'
        × (c'.public_inputs ≡ c.public_inputs ++ (length c.variables ∷ []))
  unfolding add_public_variable
  add_public_variable_lem p c v w h = (
    record (added c v) { public_inputs = c.public_inputs ++ (length c.variables ∷ []) },
    rw (add_variable-added p c v h) refl,
    with_public (added c v) (length c.variables) (added-IsValid c v w h)
        (omega (arith, length-append c.variables (v ∷ []))),
    refl,
  )

  -- A variable in range that is not public becomes the last public input of a valid composer, and one
  -- that is public already makes `set_public_input` panic.
  pub set_public_input_lem :
      (c : ComposerBase A) (k : ℕ)
      → IsValid c
      → k < length c.variables
      → (is_not_among k c.public_inputs ≡ true
          → (c' : ComposerBase A) × (set_public_input c k ≡ ok c')
            × IsValid c'
            × (c'.public_inputs ≡ c.public_inputs ++ (k ∷ [])))
        × (is_not_among k c.public_inputs ≡ false → set_public_input c k ≡ panic)
  unfolding set_public_input
  set_public_input_lem c k w h = (
    λ e. (
      record c { public_inputs = c.public_inputs ++ (k ∷ []) },
      rw e refl,
      with_public c k w h,
      refl,
    ),
    λ e. rw e refl,
  )

  get_public_input-ok :
      (c : ComposerBase A) (i : ℕ)
      → IsValid c
      → i < length c.public_inputs
      → (v : A) × (get_public_input c i ≡ ok v)
  unfolding get_public_input
  get_public_input-ok c i w h =
      let (k, e) = index-ok c.public_inputs i h in
      let (v, e') = get_variable-ok c k w (AllBelow-index _ c.public_inputs i k w.public_below e) in
      (v, rw e e')

  collect-ok :
      (c : ComposerBase A) (count i : ℕ) (result : List A)
      → IsValid c
      → i + count ≡ length c.public_inputs
      → i + count ≤ 2 ^ 32
      → (vs : List A) × (collect_public_inputs c count i result ≡ ok (result ++ vs))
        × (length vs ≡ count)
        × ((j : ℕ) → j < count → index vs j ≡ get_public_input c (i + j))
  unfolding collect_public_inputs
  collect-ok c zero i result w e b =
      ([], ap ok (sym (append-nil result)), refl, λ j h. absurd (omega arith))
  collect-ok c (suc count) i result w e b =
      let (v, ev) = get_public_input-ok c i w (omega arith) in
      let (vs, run, len, each) =
        collect-ok c count (suc i) (result ++ (v ∷ [])) w (omega arith) (omega arith) in
      (
        v ∷ vs,
        rw (lt→ltb i (2 ^ 32) (omega arith))
            (rw ev (run ∙ ap ok (append_assoc result (v ∷ []) vs))),
        ap suc len,
        λ j h. shifted v vs ev each j h,
      )
    where
      shifted :
          (v : A) (vs : List A)
          → get_public_input c i ≡ ok v
          → ((j : ℕ) → j < count → index vs j ≡ get_public_input c (suc i + j))
          → (j : ℕ) → j < suc count
          → index (v ∷ vs) j ≡ get_public_input c (i + j)
      shifted v vs ev each zero h =
          sym ev ∙ ap (get_public_input c) {x = i} {y = i + 0} (omega arith)
      shifted v vs ev each (suc j) h =
          each j (omega arith)
          ∙ ap (get_public_input c) {x = suc i + j} {y = i + suc j} (omega arith)

  -- With at most `2 ^ 32` of them, the public inputs of a valid composer are read in order, one value
  -- for each.
  pub get_public_inputs_lem :
      (c : ComposerBase A)
      → IsValid c
      → length c.public_inputs ≤ 2 ^ 32
      → (vs : List A) × (get_public_inputs c ≡ ok vs)
        × (length vs ≡ length c.public_inputs)
        × ((i : ℕ) → i < length c.public_inputs → index vs i ≡ get_public_input c i)
  unfolding get_public_inputs get_num_public_inputs
  get_public_inputs_lem c w h =
      let (vs, run, len, each) =
        collect-ok c (length c.public_inputs) 0 [] w (omega arith) (omega arith) in
      (vs, run, len, λ i l. each i l ∙ ap (get_public_input c) {x = 0 + i} {y = i} (omega arith))
