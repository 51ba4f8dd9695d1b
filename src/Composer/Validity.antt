-- ===== src/Composer/Validity.antt =====
-- The invariant of `ComposerBase`: one entry for each variable in every vector, and every index in
-- range; that the operations keep it, and that the reads succeed under it.
use barustenberg.Prelude.{
  ℕ, ◌+◌, ◌<◌, ◌^◌, ◌%◌, ◌≡◌, refl, sym, ap, ◌∙◌, List, [], ◌∷◌, ◌++◌, ok, ◌>>=◌, length, arith,
  some, subst, lt→ltb, length-append,
}
use barustenberg.Prelude.Slices.{
  AllBelow, AllBelow-append, AllBelow-mono, AllBelow-index, index-append, index-append_left,
  index-ok,
}
use barustenberg.Numeric.{Profile, checked, wrapping}
use barustenberg.Composer.{
  ComposerBase, default, real_variable, first_variable_in_class, sub_u32, get_variable,
  add_variable, update_real_variable_indices,
}
use barustenberg.Composer.Classes.{
  IsChain, relabel-chain, write_all, length-write_all, AllBelow-write_all,
}

pub record IsValid {ℓ} {A : Type ℓ} (c : ComposerBase A) : Type 0 where
  pub next_length : length c.next_var_index ≡ length c.variables
  pub prev_length : length c.prev_var_index ≡ length c.variables
  pub real_length : length c.real_variable_index ≡ length c.variables
  pub tags_length : length c.real_variable_tags ≡ length c.variables
  pub cycles_length : length c.wire_copy_cycles ≡ length c.variables
  pub real_below : AllBelow (length c.variables) c.real_variable_index
  pub public_below : AllBelow (length c.variables) c.public_inputs
  pub few : length c.variables < 2 ^ 32

module _ {ℓ} {A : Type ℓ} where
  -- What `add_variable` leaves.
  abbrev pub added : ComposerBase A → A → ComposerBase A
  added c v = record c {
    variables = c.variables ++ (v ∷ []);
    real_variable_index = c.real_variable_index ++ (length c.variables ∷ []);
    next_var_index = c.next_var_index ++ (real_variable ∷ []);
    prev_var_index = c.prev_var_index ++ (first_variable_in_class ∷ []);
    real_variable_tags = c.real_variable_tags ++ (0 ∷ []);
    wire_copy_cycles = c.wire_copy_cycles ++ ([] ∷ []);
  }

  pub add_variable-added :
      (p : Profile) (c : ComposerBase A) (v : A)
      → length c.variables + 1 < 2 ^ 32
      → add_variable p c v ≡ ok (length c.variables, added c v)
  unfolding add_variable
  add_variable-added p c v h =
      ap
        (λ m. m >>= λ idx.
          ok
            (idx, record (added c v) { real_variable_index = c.real_variable_index ++ (idx ∷ []) }))
        (last p)
    where
      last :
          (p : Profile)
          → sub_u32 p (length (c.variables ++ (v ∷ [])) % 2 ^ 32) 1 ≡ ok (length c.variables)
      last checked = ground (arith, length-append c.variables (v ∷ []))
      last wrapping = ap ok (omega (arith, length-append c.variables (v ∷ [])))

  pub added-IsValid :
      (c : ComposerBase A) (v : A)
      → IsValid c
      → length c.variables + 1 < 2 ^ 32
      → IsValid (added c v)
  added-IsValid c v w h = record {
    next_length =
        omega (arith, longer, length-append c.next_var_index (real_variable ∷ []), w.next_length);
    prev_length = omega (
      arith,
      longer,
      length-append c.prev_var_index (first_variable_in_class ∷ []),
      w.prev_length,
    );
    real_length = omega (
      arith,
      longer,
      length-append c.real_variable_index (length c.variables ∷ []),
      w.real_length,
    );
    tags_length = omega (arith, longer, length-append c.real_variable_tags (0 ∷ []), w.tags_length);
    cycles_length =
        omega (arith, longer, length-append c.wire_copy_cycles ([] ∷ []), w.cycles_length);
    real_below =
        AllBelow-append _ c.real_variable_index (length c.variables ∷ [])
          (AllBelow-mono (length c.variables) _ c.real_variable_index (omega (arith, longer))
            w.real_below)
          (omega (arith, longer), tt);
    public_below =
        AllBelow-mono (length c.variables) _ c.public_inputs (omega (arith, longer)) w.public_below;
    few = omega (arith, longer);
  }
    where
      longer : length (c.variables ++ (v ∷ [])) ≡ length c.variables + 1
      longer = length-append c.variables (v ∷ [])

  pub read_new :
      (c : ComposerBase A) (v : A)
      → IsValid c
      → get_variable (added c v) (length c.variables) ≡ ok v
  unfolding get_variable
  read_new c v w =
      rw
        (lt→ltb (length c.variables) (length (c.variables ++ (v ∷ [])))
          (omega (arith, length-append c.variables (v ∷ []))))
        (rw
          (index-append c.real_variable_index (length c.variables) [] (length c.variables)
            (sym w.real_length))
          (index-append c.variables v [] (length c.variables) refl))

  pub read_old :
      (c : ComposerBase A) (v : A)
      → IsValid c
      → (k : ℕ) → k < length c.variables
      → get_variable (added c v) k ≡ get_variable c k
  unfolding get_variable
  read_old c v w k h =
      let (r, e) = index-ok c.real_variable_index k (omega (arith, w.real_length)) in
      rw
        (
          lt→ltb k (length (c.variables ++ (v ∷ [])))
              (omega (arith, length-append c.variables (v ∷ []))),
          lt→ltb k (length c.variables) h,
        )
        (rw
          (index-append_left c.real_variable_index (length c.variables ∷ []) k
            (omega (arith, w.real_length)))
          (rw e (
            index-append_left c.variables (v ∷ []) r
              (AllBelow-index _ c.real_variable_index k r w.real_below e))))

  -- With room for one more `u32` index, `add_variable` on a valid composer returns the next index and
  -- a valid composer, in which that variable has the value given and the others the value they had.
  pub add_variable_lem :
      (p : Profile) (c : ComposerBase A) (v : A)
      → IsValid c
      → length c.variables + 1 < 2 ^ 32
      → (c' : ComposerBase A) × (add_variable p c v ≡ ok (length c.variables, c'))
        × IsValid c'
        × (get_variable c' (length c.variables) ≡ ok v)
        × ((k : ℕ) → k < length c.variables → get_variable c' k ≡ get_variable c k)
  add_variable_lem p c v w h =
      (added c v, add_variable-added p c v h, added-IsValid c v w h, read_new c v w, read_old c v w)

  pub default-IsValid : IsValid (default {A = A})
  unfolding default
  default-IsValid = record {
    next_length = refl;
    prev_length = refl;
    real_length = refl;
    tags_length = refl;
    cycles_length = refl;
    real_below = tt;
    public_below = tt;
    few = omega arith;
  }

  pub get_variable-ok :
      (c : ComposerBase A) (k : ℕ)
      → IsValid c
      → k < length c.variables
      → (v : A) × (get_variable c k ≡ ok v)
  unfolding get_variable
  get_variable-ok c k w h =
      let (r, e) = index-ok c.real_variable_index k (omega (arith, w.real_length)) in
      let (v, e') =
        index-ok c.variables r (AllBelow-index _ c.real_variable_index k r w.real_below e) in
      (v, rw (lt→ltb k (length c.variables) h) (rw e e'))

  -- Merging a chain of variables in range into one in range keeps a composer valid.
  pub update_real_variable_indices-IsValid :
      (fuel : ℕ) (c : ComposerBase A) (i v : ℕ) (js : List ℕ)
      → IsValid c
      → IsChain c.next_var_index real_variable i js
      → AllBelow (length c.variables) (i ∷ js)
      → v < length c.variables
      → length js < fuel
      → (c' : ComposerBase A) × (update_real_variable_indices fuel c i v ≡ some (ok c'))
        × IsValid c'
  unfolding update_real_variable_indices
  update_real_variable_indices-IsValid fuel c i v js w ch a b h = (
    record c { real_variable_index = write_all (i ∷ js) v c.real_variable_index },
    rw
        (
          update_real_variable_indices,
          relabel-chain fuel c.next_var_index i js v c.real_variable_index ch
              (subst (λ n. AllBelow n (i ∷ js)) (sym w.real_length) a) h,
        )
        refl,
    record {
      next_length = w.next_length;
      prev_length = w.prev_length;
      real_length = length-write_all (i ∷ js) v c.real_variable_index ∙ w.real_length;
      tags_length = w.tags_length;
      cycles_length = w.cycles_length;
      real_below = AllBelow-write_all _ (i ∷ js) v c.real_variable_index b w.real_below;
      public_below = w.public_below;
      few = w.few;
    },
  )
