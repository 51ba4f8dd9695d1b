-- ===== src/Composer/Circuit.antt =====
-- What the composer of composer_base.rs promises to a client: a circuit of variables, of which each
-- has the value it was created with and a current one, and a list of public variables.
use barustenberg.Prelude.{
  ℕ, ◌<◌, ◌≡◌, List, [], ◌∷◌, ◌++◌, Outcome, ok, err, panic, index, ◌>>=◌, length, set, Option,
  none, some, true,
}
use barustenberg.Numeric.{Profile}
use barustenberg.Composer.{
  ComposerBase, add_variable, add_public_variable, set_public_input, update_real_variable_indices,
  is_not_among,
}

-- The calls that change a composer's variables. `merge i j` gives the class of `i` the real variable
-- `j`.
pub data Call {ℓ} (A : Type ℓ) : Type ℓ where
  variable public_variable : A → Call A
  public_input : ℕ → Call A
  merge : ℕ → ℕ → Call A

pub record Circuit {ℓ} (A : Type ℓ) : Type ℓ where
  pub created : List A
  pub current : List A
  pub publics : List ℕ

module _ {ℓ} {A : Type ℓ} where
  abbrev pub empty_circuit : Circuit A
  empty_circuit = record { created = []; current = []; publics = [] }

  -- What a call does to the circuit.
  abbrev pub step : Call A → Circuit A → Circuit A
  step (variable v) s = record s {
    created = s.created ++ (v ∷ []);
    current = s.current ++ (v ∷ []);
  }
  step (public_variable v) s = record {
    created = s.created ++ (v ∷ []);
    current = s.current ++ (v ∷ []);
    publics = s.publics ++ (length s.current ∷ []);
  }
  step (public_input i) s = record s { publics = s.publics ++ (i ∷ []) }
  step (merge i j) s = record s {
    current = elim (index s.created j) [
      | ok v ↦ set s.current i v
      | err ↦ s.current
      | panic ↦ s.current
    ];
  }

  abbrev pub steps : List (Call A) → Circuit A → Circuit A
  steps [] s = s
  steps (x ∷ xs) s = steps xs (step x s)

  -- A client names variables that exist, and makes none public twice.
  abbrev pub IsPermitted : Call A → Circuit A → Type 0
  IsPermitted (variable v) s = Unit
  IsPermitted (public_variable v) s = Unit
  IsPermitted (public_input i) s = (i < length s.current) × (is_not_among i s.publics ≡ true)
  IsPermitted (merge i j) s = (i < length s.current) × (j < length s.created)

  abbrev pub ArePermitted : List (Call A) → Circuit A → Type 0
  ArePermitted [] s = Unit
  ArePermitted (x ∷ xs) s = IsPermitted x s × ArePermitted xs (step x s)

  -- The values of the public variables, in order.
  abbrev pub read_all : List A → List ℕ → Outcome (List A)
  read_all current [] = ok []
  read_all current (k ∷ ks) = index current k >>= λ v. read_all current ks >>= λ vs. ok (v ∷ vs)

  -- The call on a composer.
  unfoldable pub perform :
      Profile → (fuel : ℕ) → Call A → ComposerBase A → Option (Outcome (ComposerBase A))
  perform p fuel (variable v) c = some (add_variable p c v >>= λ (_, c'). ok c')
  perform p fuel (public_variable v) c = some (add_public_variable p c v >>= λ (_, c'). ok c')
  perform p fuel (public_input i) c = some (set_public_input c i)
  perform p fuel (merge i j) c = update_real_variable_indices fuel c i j

  unfoldable pub run :
      Profile → (fuel : ℕ) → List (Call A) → ComposerBase A → Option (Outcome (ComposerBase A))
  unfolding perform
  run p fuel [] c = some (ok c)
  run p fuel (x ∷ xs) c = elim (perform p fuel x c) [
    | none ↦ none
    | some m ↦ elim m [ ok c' ↦ run p fuel xs c' | err ↦ some err | panic ↦ some panic ]
  ]
