-- ===== src/Widgets/Tests.antt =====
-- The widgets over the integers modulo 5, run on a transcript with one-byte challenges.
use Prim.Native.String.{String}
use barustenberg.Prelude.{
  ℕ, zero, suc, ◌+◌, ◌%◌, ◌<◌, ◌≡◌, ◌≢◌, refl, List, [], ◌∷◌, length, get_or, ok, panic, index,
  assign, ◌>>=◌, replicate, subst, if◌then◌else◌, ◌==◌, Option, none, some, true, false, arith,
}
use barustenberg.Prelude.Maps.{lookup}
use barustenberg.Numeric.{checked}
use barustenberg.Field.{◌⊕◌, ◌⊗◌}
use barustenberg.Field.Five.{Five, f0, f1, f2, f3, f4, five, pow}
use barustenberg.Polynomials.{Polynomial}
use barustenberg.Storage.{PolynomialStore, get, deref}
use barustenberg.Program.{
  PolynomialDescriptor, selector, witness, q1, w1, as_usize, non_shifted, shifted,
}
use barustenberg.Transcript.{
  Transcript, Codec, default_manifest, has_challenge, get_challenge, read_element,
  get_challenge_field_element,
}
use barustenberg.Widgets.{
  ChallengeArray, zeta, PolyPtrMap, get_challenges, update_alpha, get_polynomials, fft_get_value,
}
use barustenberg.Widgets.Transition.{
  Kernel, Reader, WidgetKey, default_coefficients, compute_quotient_contribution,
  arithmetic_linear_terms, arithmetic_opening_scalars,
}
use barustenberg.Widgets.Challenges.{get_challenges_lem, get_challenges-missing}
use barustenberg.Widgets.Fft.{get_polynomials_lem}
use barustenberg.Widgets.Contribution.{compute_quotient_contribution_lem, Succeeds, InParts}
use barustenberg.Widgets.Gate.{gate_terms, gate_lem}

to_byte : Five → ℕ
to_byte f0 = 0
to_byte f1 = 1
to_byte f2 = 2
to_byte f3 = 3
to_byte f4 = 4

of_byte : List ℕ → Option Five
of_byte [] = none
of_byte (b ∷ rest) =
    if b == 0
    then some f0
    else if b == 1
    then some f1
    else if b == 2
    then some f2
    else if b == 3
    then some f3
    else if b == 4
    then some f4
    else none

read_back : (a : Five) (rest : List ℕ) → of_byte (to_byte a ∷ rest) ≡ some a
unfolding to_byte of_byte
read_back f0 rest = refl
read_back f1 rest = refl
read_back f2 rest = refl
read_back f3 rest = refl
read_back f4 rest = refl

instance five_byte : Codec Five
unfolding to_byte of_byte
five_byte = record {
  serialized_size = λ a. 1;
  serialize = λ a. to_byte a ∷ [];
  deserialize = of_byte;
  length-serialize = λ a. refl;
  deserialize-serialize = read_back;
}

abbrev challenged : Transcript
challenged = record {
  current_round = 4;
  num_challenge_bytes = 1;
  elements = [];
  challenges =
      ("alpha", (2 ∷ []) ∷ [])
      ∷ ("beta", (3 ∷ []) ∷ (4 ∷ []) ∷ [])
      ∷ ("eta", (1 ∷ []) ∷ [])
      ∷ ("z", (4 ∷ []) ∷ [])
      ∷ [];
  current_challenge = [];
  manifest = default_manifest;
  challenge_map = [];
}

-- A generator that gives nothing.
abbrev no_draw : ℕ → Option Five × ℕ
no_draw r = (none, suc r)

alpha_read : get_challenge_field_element {A = Five} challenged "alpha" (some 0) ≡ ok f2
unfolding get_challenge_field_element get_challenge read_element five_byte
alpha_read = refl

beta_read : get_challenge_field_element {A = Five} challenged "beta" (some 0) ≡ ok f3
unfolding get_challenge_field_element get_challenge read_element five_byte
beta_read = refl

gamma_read : get_challenge_field_element {A = Five} challenged "beta" (some 1) ≡ ok f4
unfolding get_challenge_field_element get_challenge read_element five_byte
gamma_read = refl

eta_read : get_challenge_field_element {A = Five} challenged "eta" (some 0) ≡ ok f1
unfolding get_challenge_field_element get_challenge read_element five_byte
eta_read = refl

zeta_read : get_challenge_field_element {A = Five} challenged "z" (some 0) ≡ ok f4
unfolding get_challenge_field_element get_challenge read_element five_byte
zeta_read = refl

get_challenges_lem_example :
    (challenges : ChallengeArray Five) × (get_challenges no_draw 2 challenged f3 31 7
      ≡ ok (challenges, 7))
    × (challenges.elements ≡ f2 ∷ f3 ∷ f4 ∷ f1 ∷ f4 ∷ [])
    × (length challenges.alpha_powers ≡ 2)
    × ((i : ℕ) → i < 2 → get_or challenges.alpha_powers i f0 ≡ f3 ⊗ pow f2 i)
    × (update_alpha 2 challenges ≡ ok (f3 ⊗ pow f2 2))
unfolding five
get_challenges_lem_example =
    get_challenges_lem no_draw 2 challenged f3 31 7 f2 f3 f4 f1 f4 alpha_read beta_read gamma_read
      eta_read zeta_read (omega arith)

-- No challenge is there, and the last is required.
abbrev unchallenged : Transcript
unchallenged = record challenged { challenges = [] }

zeta_missing : has_challenge unchallenged "z" ≡ false
unfolding has_challenge
zeta_missing = refl

get_challenges-missing_example : get_challenges no_draw 2 unchallenged f3 16 7 ≡ panic
get_challenges-missing_example =
    get_challenges-missing no_draw 2 unchallenged f3 16 7 zeta (λ e. cc) (omega arith) zeta_missing

abbrev first_selector : PolynomialDescriptor
first_selector = record {
  commitment_label = "Q_1";
  polynomial_label = "q_1";
  requires_shifted_evaluation = false;
  source = selector;
  polynomial_index = q1;
}

abbrev first_wire : PolynomialDescriptor
first_wire = record {
  commitment_label = "W_1";
  polynomial_label = "w_1";
  requires_shifted_evaluation = true;
  source = witness;
  polynomial_index = w1;
}

abbrev wire_fft : Polynomial Five
wire_fft = record { size = 4; coefficients = f1 ∷ f2 ∷ f3 ∷ f4 ∷ [] }

abbrev wire_store : PolynomialStore Five
wire_store = record { polynomial_map = ("w_1_fft", 0) ∷ []; heap = wire_fft ∷ [] }

wire_stored : get wire_store "w_1_fft" ≡ ok 0
unfolding get
wire_stored = refl

wire_read : deref wire_store 0 ≡ ok wire_fft
unfolding deref
wire_read = refl

get_polynomials_lem_example :
    (polynomials : PolyPtrMap) × (get_polynomials checked 4
        (first_wire ∷ first_selector ∷ [])
        wire_store
        (w1 ∷ [])
      ≡ ok polynomials)
    × ((i : ℕ)
        → fft_get_value wire_store polynomials non_shifted w1 (some i)
          ≡ index wire_fft.coefficients i)
    × ((i : ℕ)
        → fft_get_value wire_store polynomials shifted w1 (some i)
          ≡ index wire_fft.coefficients ((i + 4) % 4))
unfolding as_usize
get_polynomials_lem_example =
    get_polynomials_lem checked 2 wire_store (w1 ∷ []) [] (first_selector ∷ []) first_wire 0
      wire_fft ((λ e. (0, wire_stored)), ((λ e. cc e), tt)) refl refl wire_stored wire_read

-- A kernel that reads the first wire, plain for its term and shifted for the rest.
abbrev reading_kernel : Kernel Five
reading_kernel = record {
  num_independent_relations = 2;
  get_required_polynomial_ids = w1 ∷ [];
  quotient_required_challenges = ok 1;
  update_required_challenges = ok 2;
  compute_linear_terms =
      λ reader challenges terms idx. reader non_shifted w1 idx >>= λ v. assign terms 0 v;
  sum_linear_terms = λ reader challenges terms idx. index terms 0;
  compute_non_linear_terms =
      λ reader challenges q idx. reader shifted w1 (some idx) >>= λ v. ok (q ⊗ v);
  update_kate_opening_scalars = λ terms scalars challenges. ok scalars;
}

-- Two points, which both lie in the first part.
abbrev two_points : WidgetKey Five
two_points = record {
  large_domain_size = 2;
  small_domain_log2_size = 1;
  circuit_size = 2;
  polynomial_manifest = first_wire ∷ first_selector ∷ [];
  polynomial_store = wire_store;
  quotient_polynomial_parts = wire_fft ∷ [];
}

-- It succeeds where the wire has values.
reading-Succeeds :
    (reader : Reader Five) (challenges : ChallengeArray Five) (i : ℕ) (v w : Five)
    → reader non_shifted w1 (some i) ≡ ok v
    → reader shifted w1 (some i) ≡ ok w
    → Succeeds reading_kernel reader challenges i
unfolding five
reading-Succeeds reader challenges i v w e e' = record {
  terms = v ∷ replicate 36 f0;
  sum = v;
  terms_run = rw e refl;
  sum_run = refl;
  rest_run = λ q. (q ⊗ w, rw e' refl);
}

kernel-Succeeds :
    (polynomials : PolyPtrMap) (challenges : ChallengeArray Five)
    → get_polynomials checked 2 (first_wire ∷ first_selector ∷ []) wire_store (w1 ∷ [])
      ≡ ok polynomials
    → get_challenges no_draw 2 challenged f3 1 7 ≡ ok (challenges, 7)
    → (i : ℕ) → i < 2
    → Succeeds reading_kernel (fft_get_value wire_store polynomials) challenges i
unfolding as_usize
kernel-Succeeds polynomials challenges got drawn i h =
    let (m, run, plain, next) =
      get_polynomials_lem checked 1 wire_store (w1 ∷ []) [] (first_selector ∷ []) first_wire 0
        wire_fft ((λ e. (0, wire_stored)), ((λ e. cc e), tt)) refl refl wire_stored wire_read in
    subst (λ m. Succeeds reading_kernel (fft_get_value wire_store m) challenges i) (cc (run, got))
      (at_point m i h (plain i) (next i))
  where
    at_point :
        (m : PolyPtrMap) (i : ℕ)
        → i < 2
        → fft_get_value wire_store m non_shifted w1 (some i) ≡ index wire_fft.coefficients i
        → fft_get_value wire_store m shifted w1 (some i) ≡ index wire_fft.coefficients ((i + 4) % 2)
        → Succeeds reading_kernel (fft_get_value wire_store m) challenges i
    at_point m zero h e e' = reading-Succeeds _ challenges 0 f1 f1 e e'
    at_point m (suc zero) h e e' = reading-Succeeds _ challenges 1 f2 f2 e e'
    at_point m (suc (suc i)) h e e' = absurd (omega arith)

two_points-InParts : (i : ℕ) → i < 2 → InParts two_points i
two_points-InParts zero h = record {
  part = wire_fft;
  value = f1;
  part_run = refl;
  value_run = refl;
}
two_points-InParts (suc zero) h = record {
  part = wire_fft;
  value = f2;
  part_run = refl;
  value_run = refl;
}
two_points-InParts (suc (suc i)) h = absurd (omega arith)

compute_quotient_contribution_lem_example :
    compute_quotient_contribution no_draw checked reading_kernel two_points f3 challenged 7
    ≡ ok (f3 ⊗ pow f2 2, two_points.quotient_polynomial_parts, 7)
unfolding five as_usize
compute_quotient_contribution_lem_example =
    compute_quotient_contribution_lem no_draw checked reading_kernel two_points f3 challenged 7 1 f2
      f3 f4 f1 f4 alpha_read beta_read gamma_read eta_read zeta_read refl (omega arith)
      (omega arith) (omega arith) ((λ e. (0, wire_stored)), ((λ e. cc e), tt)) kernel-Succeeds
      two_points-InParts

-- The three wires read 1, 2 and 3 everywhere.
wire_reader : Reader Five
unfolding as_usize
wire_reader ty i idx = if as_usize i == 28 then ok f1 else if as_usize i == 29 then ok f2 else ok f3

abbrev one_power : ChallengeArray Five
one_power = record { elements = f2 ∷ []; alpha_powers = f2 ∷ [] }

abbrev five_scalars : List (String × Five)
five_scalars = ("Q_M", f1) ∷ ("Q_1", f1) ∷ ("Q_2", f2) ∷ ("Q_3", f3) ∷ ("Q_C", f4) ∷ ("Z", f1) ∷ []

gate_lem_example :
    (arithmetic_linear_terms wire_reader one_power default_coefficients (some 5)
      ≡ ok (gate_terms f1 f2 f3))
    × (scalars' : List (String × Five)) × (arithmetic_opening_scalars
          (gate_terms f1 f2 f3)
          five_scalars
          one_power
        ≡ ok scalars')
    × (lookup "Q_M" scalars' ≡ some (f1 ⊕ (f1 ⊗ f2) ⊗ f2))
    × (lookup "Q_1" scalars' ≡ some (f1 ⊕ f1 ⊗ f2))
    × (lookup "Q_2" scalars' ≡ some (f2 ⊕ f2 ⊗ f2))
    × (lookup "Q_3" scalars' ≡ some (f3 ⊕ f3 ⊗ f2))
    × (lookup "Q_C" scalars' ≡ some (f4 ⊕ f2))
    × ((name : String)
        → "Q_M" ≢ name
        → "Q_1" ≢ name
        → "Q_2" ≢ name
        → "Q_3" ≢ name
        → "Q_C" ≢ name
        → lookup name scalars' ≡ lookup name five_scalars)
unfolding wire_reader
gate_lem_example =
    gate_lem wire_reader one_power five_scalars 5 f1 f2 f3 f2 f1 f1 f2 f3 f4 refl refl refl refl
      refl refl refl refl refl
