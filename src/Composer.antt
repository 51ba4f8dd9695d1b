-- ===== src/Composer.antt =====
-- barustenberg/src/plonk/composer/composer_base.rs: the circuit's variables, their copy classes and
-- the public inputs. Numbers are `u32` where the source says so, kept below `2 ^ 32`.
pub mod Classes
pub mod Validity
pub mod PublicInputs
pub mod Subgroup
pub mod Circuit
pub mod Refinement
pub mod Runs
pub mod Distinct
mod Tests
use Prim.Native.String.{String}
use barustenberg.Prelude.{
  ℕ, zero, suc, ◌+◌, ◌-◌, ◌*◌, ◌^◌, ◌%◌, ◌/◌, List, [], ◌∷◌, ◌++◌, Outcome, ok, panic, index,
  assign, ◌>>=◌, ◌>>◌, assert, ltb, leb, ◌==◌, if◌then◌else◌, length, replicate, Option, none, some,
  Bool, true, false, ◌&&◌, not,
}
use barustenberg.Numeric.{Profile, checked, wrapping}

abbrev pub dummy_tag : ℕ
dummy_tag = 0

-- `u32::MAX - 1`, the end of a class in `next_var_index`.
abbrev pub real_variable : ℕ
real_variable = 4294967294

-- `u32::MAX - 2`, the start of a class in `prev_var_index`.
abbrev pub first_variable_in_class : ℕ
first_variable_in_class = 4294967293

pub data WireType : Type 0 where
  left right output fourth : WireType

pub record CycleNode : Type 0 where
  pub gate_index : ℕ
  pub wire_type : WireType

pub record SelectorProperties : Type 0 where
  pub name : String
  pub requires_lagrange_base_polynomial : Bool

-- Without the reference string factory, the keys and the random engine, which no operation below reads.
pub record ComposerBase {ℓ} (A : Type ℓ) : Type ℓ where
  pub num_gates : ℕ
  pub num_selectors : ℕ
  pub selectors : List (List A)
  pub selector_properties : List SelectorProperties
  pub w_l : List ℕ
  pub w_r : List ℕ
  pub w_o : List ℕ
  pub w_4 : List ℕ
  pub failed : Bool
  pub zero_idx : ℕ
  pub public_inputs : List ℕ
  pub variables : List A
  pub next_var_index : List ℕ
  pub prev_var_index : List ℕ
  pub real_variable_index : List ℕ
  pub real_variable_tags : List ℕ
  pub current_tag : ℕ
  pub tau : List (ℕ × ℕ)
  pub wire_copy_cycles : List (List CycleNode)
  pub computed_witness : Bool

-- `as u32`
abbrev pub as_u32 : ℕ → ℕ
as_u32 n = n % 2 ^ 32

-- `a - b` on `u32`s.
abbrev pub sub_u32 : Profile → ℕ → ℕ → Outcome ℕ
sub_u32 checked a b = if ltb a b then panic else ok (a - b)
sub_u32 wrapping a b = ok ((a + 2 ^ 32 - b) % 2 ^ 32)

-- `none` when the fuel does not reach the start of the class.
pub first_from : (fuel : ℕ) → List ℕ → ℕ → Option (Outcome ℕ)
first_from zero prev idx = none
first_from (suc fuel) prev idx =
    let rest = λ (p : ℕ). first_from fuel prev p in
    elim (index prev idx) [
      | ok p ↦ if p == first_variable_in_class then some (ok idx) else rest p
      | _ ↦ some panic
    ]

-- The loop writes before it looks for the next one.
pub relabel : (fuel : ℕ) → List ℕ → ℕ → ℕ → List ℕ → Option (Outcome (List ℕ))
relabel zero next cur new_real_index real = none
relabel (suc fuel) next cur new_real_index real =
    let rest = λ (n : ℕ) (r : List ℕ). relabel fuel next n new_real_index r in
    elim (assign real cur new_real_index) [
      | ok r ↦ elim (index next cur) [
        | ok n ↦ if n == real_variable then some (ok r) else rest n r
        | _ ↦ some panic
      ]
      | _ ↦ some panic
    ]

pub is_not_among : ℕ → List ℕ → Bool
is_not_among w [] = true
is_not_among w (x ∷ xs) = not (x == w) && is_not_among w xs

module _ {ℓ} {A : Type ℓ} where
  pub default : ComposerBase A
  default = record {
    num_gates = 0;
    num_selectors = 0;
    selectors = [];
    selector_properties = [];
    w_l = [];
    w_r = [];
    w_o = [];
    w_4 = [];
    failed = false;
    zero_idx = 0;
    public_inputs = [];
    variables = [];
    next_var_index = [];
    prev_var_index = [];
    real_variable_index = [];
    real_variable_tags = [];
    current_tag = dummy_tag;
    tau = [];
    wire_copy_cycles = [];
    computed_witness = false;
  }

  -- `with_crs_factory` and `with_keys` differ in the fields left out here. The size hint is a capacity.
  pub with_selectors : (num_selectors : ℕ) → List SelectorProperties → ComposerBase A
  unfolding default
  with_selectors num_selectors selector_properties = record default {
    selectors = replicate num_selectors [];
    num_selectors = num_selectors;
    selector_properties = selector_properties;
    num_gates = 0;
  }

  pub get_first_variable_in_class : (fuel : ℕ) → ComposerBase A → ℕ → Option (Outcome ℕ)
  unfolding first_from
  get_first_variable_in_class fuel c idx = first_from fuel c.prev_var_index (as_u32 idx)

  pub update_real_variable_indices :
      (fuel : ℕ) → ComposerBase A → ℕ → ℕ → Option (Outcome (ComposerBase A))
  unfolding relabel
  update_real_variable_indices fuel c idx new_real_index =
      elim (relabel fuel c.next_var_index idx new_real_index c.real_variable_index) [
        | some m ↦ some (m >>= λ r. ok (record c { real_variable_index = r }))
        | none ↦ none
      ]

  pub get_variable : ComposerBase A → ℕ → Outcome A
  get_variable c idx =
      assert (ltb idx (length c.variables))
      >> (index c.real_variable_index idx >>= λ r. index c.variables r)

  pub get_public_input : ComposerBase A → ℕ → Outcome A
  unfolding get_variable
  get_public_input c idx = index c.public_inputs idx >>= λ v. get_variable c v

  pub get_num_public_inputs : ComposerBase A → ℕ
  get_num_public_inputs c = length c.public_inputs

  -- `for i in i..i + count`, pushed to `result`.
  pub collect_public_inputs : ComposerBase A → (count i : ℕ) → List A → Outcome (List A)
  unfolding get_public_input
  collect_public_inputs c zero i result = ok result
  collect_public_inputs c (suc count) i result = do
    v ← if ltb i (2 ^ 32) then get_public_input c i else panic
    collect_public_inputs c count (suc i) (result ++ (v ∷ []))

  pub get_public_inputs : ComposerBase A → Outcome (List A)
  unfolding collect_public_inputs get_num_public_inputs
  get_public_inputs c = collect_public_inputs c (get_num_public_inputs c) 0 []

  pub add_variable : Profile → ComposerBase A → A → Outcome (ℕ × ComposerBase A)
  add_variable p c in_value =
      let variables = c.variables ++ (in_value ∷ []) in
      do
        idx ← sub_u32 p (as_u32 (length variables)) 1
        ok (
          idx,
          record c {
            variables = variables;
            real_variable_index = c.real_variable_index ++ (idx ∷ []);
            next_var_index = c.next_var_index ++ (real_variable ∷ []);
            prev_var_index = c.prev_var_index ++ (first_variable_in_class ∷ []);
            real_variable_tags = c.real_variable_tags ++ (dummy_tag ∷ []);
            wire_copy_cycles = c.wire_copy_cycles ++ ([] ∷ []);
          },
        )

  pub add_public_variable : Profile → ComposerBase A → A → Outcome (ℕ × ComposerBase A)
  unfolding add_variable
  add_public_variable p c in_value = do
    (idx, c') ← add_variable p c in_value
    ok (idx, record c' { public_inputs = c'.public_inputs ++ (idx ∷ []) })

  -- The push comes before the `assert!`, whose panic leaves an unwound state that no caller sees.
  pub set_public_input : ComposerBase A → ℕ → Outcome (ComposerBase A)
  unfolding is_not_among
  set_public_input c witness_index =
      let does_not_exist = is_not_among witness_index c.public_inputs in
      let c' =
        if does_not_exist
        then record c { public_inputs = c.public_inputs ++ (witness_index ∷ []) }
        else c in
      assert does_not_exist >> ok c'

  pub is_valid_variable : ComposerBase A → ℕ → Bool
  is_valid_variable c variable_index = ltb variable_index (as_u32 (length c.variables))

  pub assert_valid_variables : ComposerBase A → List ℕ → Outcome (Unit {0})
  unfolding is_valid_variable
  assert_valid_variables c [] = ok tt
  assert_valid_variables c (i ∷ is) = assert (is_valid_variable c i) >> assert_valid_variables c is

-- `usize::next_power_of_two`: the first of `p, 2p, ...` that is not below `n`. Past `2 ^ 63` it
-- panics with overflow checks and is 0 without them.
pub power_from : Profile → (count p n : ℕ) → Outcome ℕ
power_from profile zero p n = elim profile [ checked ↦ panic | wrapping ↦ ok 0 ]
power_from profile (suc count) p n =
    let rest = power_from profile count (2 * p) n in if leb n p then ok p else rest

pub next_power_of_two : Profile → ℕ → Outcome ℕ
unfolding power_from
next_power_of_two profile n = power_from profile 64 1 n

-- `usize::trailing_zeros`: 64 for zero.
pub trailing_zeros : (count n : ℕ) → ℕ
trailing_zeros zero n = 0
trailing_zeros (suc count) n =
    let rest = trailing_zeros count (n / 2) in if n % 2 == 0 then suc rest else 0

-- A shift by 64 panics with overflow checks, and is a shift by 0 without them.
pub get_circuit_subgroup_size : Profile → ℕ → Outcome ℕ
unfolding next_power_of_two trailing_zeros
get_circuit_subgroup_size profile num_gates = do
  p ← next_power_of_two profile num_gates
  let log2_n = trailing_zeros 64 p in
      if ltb log2_n 64 then ok (2 ^ log2_n) else elim profile [ checked ↦ panic | wrapping ↦ ok 1 ]
