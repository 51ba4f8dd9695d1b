-- ===== src/Composer/Tests.antt =====
-- The composer's operations on a circuit of three variables, two of them in one class.
use barustenberg.Prelude.{
  ℕ, ◌<◌, ◌≤◌, ◌^◌, ◌≡◌, refl, List, [], ◌∷◌, ok, panic, index, length, arith, some, true, false,
}
use barustenberg.Numeric.{checked}
use barustenberg.Composer.{
  ComposerBase, default, real_variable, first_variable_in_class, update_real_variable_indices,
  get_variable, is_not_among, add_variable, add_public_variable, set_public_input, relabel,
  get_public_inputs, get_circuit_subgroup_size,
}
use barustenberg.Composer.Classes.{update_real_variable_indices_lem}
use barustenberg.Composer.Validity.{IsValid}
use barustenberg.Composer.Circuit.{
  Call, variable, public_variable, public_input, merge, empty_circuit, steps, ArePermitted,
  read_all, run, perform,
}
use barustenberg.Composer.Runs.{IsDistinct, run_lem}
use barustenberg.Composer.Distinct.{run-IsDistinct}
use barustenberg.Prelude.Slices.{AllBelow}
use barustenberg.Composer.Subgroup.{get_circuit_subgroup_size_lem}

-- The variables 7, 7 and 9, the first two linked.
abbrev linked : ComposerBase ℕ
unfolding default
linked = record default {
  variables = 7 ∷ 7 ∷ 9 ∷ [];
  next_var_index = 1 ∷ real_variable ∷ real_variable ∷ [];
  prev_var_index = first_variable_in_class ∷ 0 ∷ first_variable_in_class ∷ [];
  real_variable_index = 0 ∷ 1 ∷ 2 ∷ [];
  real_variable_tags = 0 ∷ 0 ∷ 0 ∷ [];
  wire_copy_cycles = [] ∷ [] ∷ [] ∷ [];
  public_inputs = 2 ∷ [];
}

linked-IsValid : IsValid linked
unfolding linked default
linked-IsValid = record {
  next_length = refl;
  prev_length = refl;
  real_length = refl;
  tags_length = refl;
  cycles_length = refl;
  real_below = (omega arith, (omega arith, (omega arith, tt)));
  public_below = (omega arith, tt);
  few = omega arith;
}

update_real_variable_indices_lem_example :
    (c' : ComposerBase ℕ) × (update_real_variable_indices 2 linked 0 2 ≡ some (ok c'))
    × ((k : ℕ) → is_not_among k (0 ∷ 1 ∷ []) ≡ false → get_variable c' k ≡ index linked.variables 2)
    × ((k : ℕ) → is_not_among k (0 ∷ 1 ∷ []) ≡ true → get_variable c' k ≡ get_variable linked k)
unfolding linked default
update_real_variable_indices_lem_example =
    update_real_variable_indices_lem 2 linked 0 2 (1 ∷ []) refl (refl, λ e. omega (arith, e), refl)
      (omega arith, (omega arith, tt)) (omega arith)

get_circuit_subgroup_size_lem_example :
    (m : ℕ) × (get_circuit_subgroup_size checked 1000 ≡ ok (2 ^ m))
    × (1000 ≤ 2 ^ m)
    × ((j : ℕ) → 1000 ≤ 2 ^ j → m ≤ j)
get_circuit_subgroup_size_lem_example = get_circuit_subgroup_size_lem checked 1000 (omega arith)

-- The variable 5 becomes public after 6, and reads as 6 from then on.
abbrev four_calls : List (Call ℕ)
four_calls = variable 5 ∷ public_variable 6 ∷ public_input 0 ∷ merge 0 1 ∷ []

four-ArePermitted : ArePermitted four_calls empty_circuit
unfolding is_not_among
four-ArePermitted = (tt, (tt, ((omega arith, refl), ((omega arith, omega arith), tt))))

run_lem_example :
    (c : ComposerBase ℕ) × (run checked 1 four_calls default ≡ some (ok c))
    × (c.variables ≡ (steps four_calls empty_circuit).created)
    × ((k : ℕ)
        → k < length c.variables
        → get_variable c k ≡ index (steps four_calls empty_circuit).current k)
    × (get_public_inputs c
        ≡ read_all
            (steps four_calls empty_circuit).current
            (steps four_calls empty_circuit).publics)
run_lem_example = run_lem checked 0 four_calls four-ArePermitted (omega arith)

abbrev after_calls : ComposerBase ℕ
unfolding default
after_calls = record default {
  variables = 5 ∷ 6 ∷ [];
  next_var_index = real_variable ∷ real_variable ∷ [];
  prev_var_index = first_variable_in_class ∷ first_variable_in_class ∷ [];
  real_variable_index = 1 ∷ 1 ∷ [];
  real_variable_tags = 0 ∷ 0 ∷ [];
  wire_copy_cycles = [] ∷ [] ∷ [];
  public_inputs = 1 ∷ 0 ∷ [];
}

calls_run : run checked 1 four_calls default ≡ some (ok after_calls)
unfolding run perform default add_variable add_public_variable set_public_input
    update_real_variable_indices relabel is_not_among
calls_run = refl

run-IsDistinct_example :
    IsDistinct (after_calls.public_inputs)
    × AllBelow (length after_calls.variables) (after_calls.public_inputs)
    × ((i k : ℕ)
        → index (after_calls.public_inputs) i ≡ ok k
        → set_public_input after_calls k ≡ panic)
run-IsDistinct_example =
    run-IsDistinct checked 1 four_calls after_calls (omega arith, tt) (omega arith) calls_run
