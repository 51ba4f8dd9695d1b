-- ===== src/Transcript.antt =====
-- barustenberg/src/transcript.rs: the protocol's manifest and the transcript of named byte strings.
-- `apply_fiat_shamir`, `from_serialized` and the body of `export_transcript` are `todo!()`.
pub mod Sizes
pub mod Parse
pub mod Challenges
pub mod Elements
pub mod Reads
mod Tests
use Prim.Native.String.{String}
use barustenberg.Prelude.{
  ℕ, zero, suc, ◌+◌, ◌-◌, ◌*◌, ◌^◌, ◌%◌, ◌/◌, List, [], ◌∷◌, ◌++◌, Outcome, ok, panic, index,
  assign, ◌>>=◌, ◌>>◌, assert, ltb, ◌==◌, ◌≡◌, ◌≤◌, if◌then◌else◌, length, replicate, Option, none,
  some, Bool, true, false, ◌||◌, not, take, drop, leb,
}
use barustenberg.Prelude.Maps.{lookup, insert, index_map, same_name}
use barustenberg.Prelude.Bits.{shr}

-- `i32`
pub data ℤ : Type 0 where
  pos negsuc : ℕ → ℤ

pub record ManifestEntry : Type 0 where
  pub name : String
  pub num_bytes : ℕ
  pub derived_by_verifier : Bool
  pub challenge_map_index : ℤ

pub record RoundManifest : Type 0 where
  pub elements : List ManifestEntry
  pub challenge : String
  pub num_challenges : ℕ
  pub map_challenges : Bool

pub includes_element : List ManifestEntry → String → Bool
includes_element [] element_name = false
includes_element (e ∷ es) element_name =
    same_name e.name element_name || includes_element es element_name

pub record Manifest : Type 0 where
  pub round_manifests : List RoundManifest
  pub num_rounds : ℕ

unfoldable pub new_manifest : List RoundManifest → Manifest
new_manifest round_manifests = record {
  round_manifests = round_manifests;
  num_rounds = length round_manifests;
}

pub get_round_manifest : Manifest → ℕ → Outcome RoundManifest
get_round_manifest m round = index m.round_manifests round

-- Bytes are numbers below 256. A challenge is the bytes of `data`.
pub record Transcript : Type 0 where
  pub current_round : ℕ
  pub num_challenge_bytes : ℕ
  pub elements : List (String × List ℕ)
  pub challenges : List (String × List (List ℕ))
  pub current_challenge : List ℕ
  pub manifest : Manifest
  pub challenge_map : List (String × ℤ)

pub add_element : String → List ℕ → Transcript → Transcript
add_element element_name buffer t = record t { elements = insert element_name buffer t.elements }

pub map_elements : List ManifestEntry → List (String × ℤ) → List (String × ℤ)
map_elements [] m = m
map_elements (e ∷ es) m = map_elements es (insert e.name e.challenge_map_index m)

pub map_rounds : List RoundManifest → List (String × ℤ) → List (String × ℤ)
unfolding map_elements
map_rounds [] m = m
map_rounds (r ∷ rs) m = map_rounds rs (if r.map_challenges then map_elements r.elements m else m)

pub compute_challenge_map : Transcript → Transcript
unfolding map_rounds
compute_challenge_map t = record t { challenge_map = map_rounds t.manifest.round_manifests [] }

abbrev pub default_manifest : Manifest
default_manifest = record { round_manifests = []; num_rounds = 0 }

-- `prng_output_size` is the hasher's, whose bytes a default challenge has all zero.
pub default_transcript : (prng_output_size : ℕ) → Transcript
default_transcript prng_output_size = record {
  current_round = 0;
  num_challenge_bytes = 0;
  elements = [];
  challenges = [];
  current_challenge = replicate prng_output_size 0;
  manifest = default_manifest;
  challenge_map = [];
}

pub new : (prng_output_size : ℕ) → Option Manifest → ℕ → Transcript
unfolding default_transcript compute_challenge_map
new prng_output_size input_manifest num_challenge_bytes =
    compute_challenge_map (record (default_transcript prng_output_size) {
      num_challenge_bytes = num_challenge_bytes;
      manifest = elim input_manifest [ none ↦ default_manifest | some m ↦ m ];
    })

pub required_size : List ManifestEntry → ℕ → ℕ
required_size [] total = total
required_size (e ∷ es) total =
    required_size es (if not e.derived_by_verifier then total + e.num_bytes else total)

pub total_required_size : Manifest → (count i total : ℕ) → Outcome ℕ
unfolding get_round_manifest required_size
total_required_size m zero i total = ok total
total_required_size m (suc count) i total = do
  r ← get_round_manifest m i
  total_required_size m count (suc i) (required_size r.elements total)

-- `xs[from..to]`
pub slice {ℓ} : {A : Type ℓ} → List A → (from to : ℕ) → Outcome (List A)
slice xs from to =
    if ltb to from
    then panic
    else if leb to (length xs)
    then ok (take (to - from) (drop from xs))
    else panic

pub read_elements :
    (input_transcript : List ℕ)
    → List ManifestEntry
    → (count : ℕ) → List (String × List ℕ)
    → Outcome (ℕ × List (String × List ℕ))
unfolding slice
read_elements input [] count elements = ok (count, elements)
read_elements input (e ∷ es) count elements =
    if not e.derived_by_verifier
    then (slice input count (count + e.num_bytes) >>= λ bytes.
        read_elements input es (count + e.num_bytes) (insert e.name bytes elements))
    else read_elements input es count elements

pub read_rounds :
    (input_transcript : List ℕ)
    → Manifest
    → (rounds i count : ℕ) → List (String × List ℕ)
    → Outcome (List (String × List ℕ))
unfolding get_round_manifest read_elements
read_rounds input m zero i count elements = ok elements
read_rounds input m (suc rounds) i count elements = do
  r ← get_round_manifest m i
  (count', elements') ← read_elements input r.elements count elements
  read_rounds input m rounds (suc i) count' elements'

pub new_from_transcript :
    (prng_output_size : ℕ) → (input_transcript : List ℕ) → Manifest → ℕ → Outcome Transcript
unfolding total_required_size read_rounds compute_challenge_map
new_from_transcript prng_output_size input_transcript input_manifest num_challenge_bytes = do
  total ← total_required_size input_manifest input_manifest.num_rounds 0 0
  assert (total == length input_transcript)
  elements ← read_rounds input_transcript input_manifest input_manifest.num_rounds 0 0 []
  ok (
      compute_challenge_map record {
        current_round = 0;
        num_challenge_bytes = num_challenge_bytes;
        elements = elements;
        challenges = [];
        current_challenge = replicate prng_output_size 0;
        manifest = input_manifest;
        challenge_map = [];
      })

pub apply_fiat_shamir : String → Transcript → Outcome Transcript
apply_fiat_shamir challenge_name t = panic

unfoldable pub get_challenge : Transcript → String → Option ℕ → Outcome (List ℕ)
get_challenge t challenge_name idx = do
  subchallenges ← index_map challenge_name t.challenges
  index subchallenges (elim idx [ none ↦ 0 | some i ↦ i ])

pub get_challenge_index_from_map : Transcript → String → Outcome ℤ
get_challenge_index_from_map t challenge_map_name = index_map challenge_map_name t.challenge_map

unfoldable pub has_challenge : Transcript → String → Bool
has_challenge t challenge_name = elim (lookup challenge_name t.challenges) [
  | none ↦ false
  | some _ ↦ true
]

-- `key as usize` of a negative key is past the end of any vector.
pub get_challenge_from_map :
    (prng_output_size : ℕ)
    → Transcript
    → (challenge_name challenge_map_name : String) → Outcome (List ℕ)
get_challenge_from_map prng_output_size t challenge_name challenge_map_name = do
  key ← index_map challenge_map_name t.challenge_map
  elim key [
    | negsuc zero ↦ assign (replicate prng_output_size 0) (prng_output_size - 1) 1
    | negsuc (suc n) ↦ index_map challenge_name t.challenges >>= λ _. panic
    | pos n ↦ index_map challenge_name t.challenges >>= λ values. index values n
  ]

pub get_num_challenges : Transcript → String → Outcome ℕ
get_num_challenges t challenge_name = do
  values ← index_map challenge_name t.challenges
  ok (length values)

pub get_element : Transcript → String → Outcome (List ℕ)
get_element t element_name = index_map element_name t.elements

pub size_in : List ManifestEntry → String → Option ℕ
size_in [] element_name = none
size_in (e ∷ es) element_name =
    if same_name e.name element_name then some e.num_bytes else size_in es element_name

pub size_in_rounds : List RoundManifest → String → ℕ
unfolding size_in
size_in_rounds [] element_name = 2 ^ 64 - 1
size_in_rounds (r ∷ rs) element_name = elim (size_in r.elements element_name) [
  | some n ↦ n
  | none ↦ size_in_rounds rs element_name
]

pub get_element_size : Transcript → String → ℕ
unfolding size_in_rounds
get_element_size t element_name = size_in_rounds t.manifest.round_manifests element_name

-- The four bytes of `circuit_size`, `as u8` each.
pub circuit_size_bytes : ℕ → List ℕ
circuit_size_bytes n = shr n 24 % 256 ∷ shr n 16 % 256 ∷ shr n 8 % 256 ∷ n % 256 ∷ []

pub mock_entries : (circuit_size : ℕ) → List ManifestEntry → Transcript → Transcript
unfolding add_element circuit_size_bytes
mock_entries circuit_size [] t = t
mock_entries circuit_size (e ∷ es) t = mock_entries circuit_size es (
    if same_name e.name "circuit_size"
    then add_element "circuit_size" (circuit_size_bytes circuit_size) t
    else add_element e.name (replicate e.num_bytes 1) t)

pub mock_rounds :
    (challenge_in : String) (circuit_size : ℕ)
    → List RoundManifest
    → Transcript
    → Outcome Transcript
unfolding mock_entries apply_fiat_shamir
mock_rounds challenge_in circuit_size [] t = ok t
mock_rounds challenge_in circuit_size (r ∷ rs) t =
    let t' = mock_entries circuit_size r.elements t in
    if same_name challenge_in r.challenge
    then ok t'
    else (apply_fiat_shamir r.challenge t' >>= λ t''. mock_rounds challenge_in circuit_size rs t'')

pub mock_inputs_prior_to_challenge : String → ℕ → Transcript → Outcome Transcript
unfolding mock_rounds
mock_inputs_prior_to_challenge challenge_in circuit_size t =
    mock_rounds challenge_in circuit_size t.manifest.round_manifests t

-- `ark_serialize` for one type of element: `serialize_uncompressed` writes these bytes, and
-- `deserialize_uncompressed` reads from the front and leaves the rest, or fails.
pub record Codec {ℓ} (A : Type ℓ) : Type ℓ where
  pub serialized_size : A → ℕ
  pub serialize : A → List ℕ
  pub deserialize : List ℕ → Option A
  pub length-serialize : (a : A) → length (serialize a) ≡ serialized_size a
  pub deserialize-serialize : (a : A) (rest : List ℕ) → deserialize (serialize a ++ rest) ≡ some a

module _ {ℓ} {A : Type ℓ} ⦃codec : Codec A⦄ where
  -- A `Vec<u8>` as a writer grows at its end, so the zeros that the buffer starts with stay in front.
  pub serialized : A → List ℕ
  serialized element = replicate (codec.serialized_size element) 0 ++ codec.serialize element

  -- `add_group_element` has the same body.
  pub add_field_element : String → A → Transcript → Transcript
  unfolding add_element serialized
  add_field_element element_name element t = add_element element_name (serialized element) t

  unfoldable pub read_element : List ℕ → Outcome A
  read_element buf = elim (codec.deserialize buf) [ none ↦ panic | some a ↦ ok a ]

  pub get_field_element : Transcript → String → Outcome A
  unfolding get_element read_element
  get_field_element t element_name = get_element t element_name >>= read_element

  pub serialized_all : List A → List ℕ
  unfolding serialized
  serialized_all [] = []
  serialized_all (a ∷ rest) = serialized a ++ serialized_all rest

  pub put_field_element_vector : String → List A → Transcript → Transcript
  unfolding add_element serialized_all
  put_field_element_vector element_name elements t =
      add_element element_name (serialized_all elements) t

  pub read_all : (serialized_size : ℕ) (buf : List ℕ) → (count i : ℕ) → List A → Outcome (List A)
  unfolding slice read_element
  read_all size buf zero i res = ok res
  read_all size buf (suc count) i res = do
    bytes ← slice buf (i * size) ((i + 1) * size)
    a ← read_element bytes
    read_all size buf count (suc i) (res ++ (a ∷ []))

  -- `one` is `Fr::ONE`, whose size is every element's.
  pub get_field_element_vector : (one : A) → Transcript → String → Outcome (List A)
  unfolding get_element read_all
  get_field_element_vector one t element_name = do
    buf ← get_element t element_name
    if codec.serialized_size one == 0
        then panic
        else read_all (codec.serialized_size one) buf (length buf / codec.serialized_size one) 0 []

  unfoldable pub get_challenge_field_element : Transcript → String → Option ℕ → Outcome A
  unfolding get_challenge read_element
  get_challenge_field_element t challenge_name idx =
      get_challenge t challenge_name idx >>= read_element

  pub get_challenge_field_element_from_map :
      (prng_output_size : ℕ) → Transcript → (challenge_name challenge_map_name : String) → Outcome A
  unfolding get_challenge_from_map read_element
  get_challenge_field_element_from_map prng_output_size t challenge_name challenge_map_name =
      get_challenge_from_map prng_output_size t challenge_name challenge_map_name >>= read_element
