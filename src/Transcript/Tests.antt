-- ===== src/Transcript/Tests.antt =====
-- Transcripts run on a manifest of two rounds, with one-byte elements.
use Prim.Native.String.{String}
use barustenberg.Prelude.{
  ℕ, suc, ◌≡◌, refl, List, [], ◌∷◌, ◌++◌, ok, panic, replicate, arith, Option, none, some, true,
  false,
}
use barustenberg.Transcript.{
  pos, negsuc, ManifestEntry, Manifest, Transcript, Codec, new_from_transcript, get_element,
  includes_element, compute_challenge_map, get_challenge_index_from_map, get_challenge_from_map,
  get_challenge, add_field_element, get_field_element,
}
use barustenberg.Transcript.Sizes.{all_elements}
use barustenberg.Transcript.Parse.{joined, new_from_transcript_lem, new_from_transcript-panic}
use barustenberg.Transcript.Challenges.{
  mapped, compute_challenge_map_lem, get_challenge_from_map_lem,
}
use barustenberg.Transcript.Elements.{add_field_element_lem}

abbrev beta : ManifestEntry
beta = record {
  name = "beta";
  num_bytes = 2;
  derived_by_verifier = false;
  challenge_map_index = negsuc 0;
}

abbrev t_eval : ManifestEntry
t_eval = record {
  name = "t";
  num_bytes = 1;
  derived_by_verifier = true;
  challenge_map_index = pos 3;
}

abbrev two_rounds : Manifest
two_rounds = record {
  round_manifests =
      record {
        elements = t_eval ∷ [];
        challenge = "init";
        num_challenges = 1;
        map_challenges = false;
      }
      ∷ record { elements = beta ∷ []; challenge = "nu"; num_challenges = 2; map_challenges = true }
      ∷ [];
  num_rounds = 2;
}

abbrev contents : ManifestEntry → List ℕ
contents e = replicate e.num_bytes 9

new_from_transcript_lem_example :
    (t : Transcript) × (new_from_transcript 32
        (joined contents (all_elements two_rounds.round_manifests))
        two_rounds
        16
      ≡ ok t)
    × ((before after : List ManifestEntry) (e : ManifestEntry)
        → all_elements two_rounds.round_manifests ≡ before ++ (e ∷ after)
        → e.derived_by_verifier ≡ false
        → includes_element after e.name ≡ false
        → get_element t e.name ≡ ok (contents e))
new_from_transcript_lem_example =
    new_from_transcript_lem contents 32 16 two_rounds refl (λ _. refl, (λ _. refl, tt))

new_from_transcript-panic_example : new_from_transcript 32 (1 ∷ []) two_rounds 16 ≡ panic
new_from_transcript-panic_example =
    new_from_transcript-panic 32 16 (1 ∷ []) two_rounds refl (λ e. omega (arith, e))

abbrev opened : Transcript
opened = record {
  current_round = 2;
  num_challenge_bytes = 16;
  elements = [];
  challenges = ("nu", (7 ∷ []) ∷ []) ∷ [];
  current_challenge = [];
  manifest = two_rounds;
  challenge_map = ("beta", negsuc 0) ∷ ("r", pos 0) ∷ [];
}

compute_challenge_map_lem_example :
    ((before after : List ManifestEntry) (e : ManifestEntry)
      → mapped two_rounds.round_manifests ≡ before ++ (e ∷ after)
      → includes_element after e.name ≡ false
      → get_challenge_index_from_map (compute_challenge_map opened) e.name
        ≡ ok e.challenge_map_index)
    × ((name : String)
        → includes_element (mapped two_rounds.round_manifests) name ≡ false
        → get_challenge_index_from_map (compute_challenge_map opened) name ≡ panic)
compute_challenge_map_lem_example = compute_challenge_map_lem opened

get_challenge_from_map_lem_example :
    (get_challenge_index_from_map opened "beta" ≡ ok (negsuc 0)
      → get_challenge_from_map 32 opened "nu" "beta" ≡ ok (replicate 31 0 ++ (1 ∷ [])))
    × ((k : ℕ)
        → get_challenge_index_from_map opened "beta" ≡ ok (pos k)
        → get_challenge_from_map 32 opened "nu" "beta" ≡ get_challenge opened "nu" (some k))
    × ((k : ℕ)
        → get_challenge_index_from_map opened "beta" ≡ ok (negsuc (suc k))
        → get_challenge_from_map 32 opened "nu" "beta" ≡ panic)
get_challenge_from_map_lem_example = get_challenge_from_map_lem 31 opened "nu" "beta"

read_byte : List ℕ → Option ℕ
read_byte [] = none
read_byte (b ∷ rest) = some b

-- One byte for each element.
instance unfoldable pub byte : Codec ℕ
unfolding read_byte
byte = record {
  serialized_size = λ a. 1;
  serialize = λ a. a ∷ [];
  deserialize = read_byte;
  length-serialize = λ a. refl;
  deserialize-serialize = λ a rest. refl;
}

-- The 8 that was stored is read back as 0.
add_field_element_lem_example :
    get_field_element {A = ℕ} (add_field_element {A = ℕ} "a" 8 opened) "a" ≡ ok 0
unfolding byte
add_field_element_lem_example = add_field_element_lem opened "a" 8 0 refl

abbrev stored : Transcript
stored = record opened { elements = ("v", 4 ∷ 5 ∷ []) ∷ [] }

stored_bytes : get_element stored "v" ≡ ok (4 ∷ 5 ∷ [])
unfolding get_element
stored_bytes = refl
