-- ===== src/Transcript/Challenges.antt =====
-- `compute_challenge_map` and the reads through it.
use Prim.Native.String.{String}
use barustenberg.Prelude.{
  ℕ, zero, suc, ◌-◌, ◌^◌, ◌≡◌, refl, sym, ap, ◌∙◌, List, [], ◌∷◌, ◌++◌, Outcome, ok, panic, assign,
  ◌>>=◌, if◌then◌else◌, replicate, arith, Option, none, some, true, false, Bool-cases, inl, inr,
}
use barustenberg.Prelude.Maps.{
  lookup, insert, index_map, same_name, same_name_refl, lookup-insert_self,
}
use barustenberg.Transcript.{
  ℤ, pos, negsuc, ManifestEntry, RoundManifest, Transcript, includes_element, map_elements,
  map_rounds, compute_challenge_map, get_challenge_index_from_map, get_challenge_from_map,
  get_challenge, get_element_size, size_in_rounds, size_in,
}
use barustenberg.Transcript.Sizes.{all_elements}

-- The elements of the rounds that map their challenges.
abbrev pub mapped : List RoundManifest → List ManifestEntry
mapped [] = []
mapped (r ∷ rs) = if r.map_challenges then r.elements ++ mapped rs else mapped rs

map_elements-append :
    (es fs : List ManifestEntry) (m : List (String × ℤ))
    → map_elements (es ++ fs) m ≡ map_elements fs (map_elements es m)
unfolding map_elements
map_elements-append [] fs m = refl
map_elements-append (e ∷ es) fs m = map_elements-append es fs _

map_rounds-mapped :
    (rs : List RoundManifest) (m : List (String × ℤ)) → map_rounds rs m ≡ map_elements (mapped rs) m
unfolding map_rounds
map_rounds-mapped [] m = refl
map_rounds-mapped (r ∷ rs) m = elim (Bool-cases r.map_challenges) [
  | inl h ↦ rw h (map_rounds-mapped rs _ ∙ sym (map_elements-append r.elements (mapped rs) m))
  | inr h ↦ rw h (map_rounds-mapped rs m)
]

lookup-map_elements_absent :
    (es : List ManifestEntry) (name : String) (m : List (String × ℤ))
    → includes_element es name ≡ false
    → lookup name (map_elements es m) ≡ lookup name m
unfolding map_elements includes_element
lookup-map_elements_absent [] name m h = refl
lookup-map_elements_absent (e ∷ es) name m h = elim (Bool-cases (same_name e.name name)) [
  | inl q ↦ absurd (clash q)
  | inr q ↦ lookup-map_elements_absent es name _ (rest q) ∙ rw q refl
]
  where
    clash : same_name e.name name ≡ true → ⊥
    clash q = ground (arith, q)

    rest : same_name e.name name ≡ false → includes_element es name ≡ false
    rest q = ground (arith, q)

lookup-map_elements :
    (before after : List ManifestEntry) (e : ManifestEntry) (m : List (String × ℤ))
    → includes_element after e.name ≡ false
    → lookup e.name (map_elements (before ++ (e ∷ after)) m) ≡ some e.challenge_map_index
unfolding map_elements
lookup-map_elements before after e m a =
    ap (lookup e.name) (map_elements-append before (e ∷ after) m)
    ∙ lookup-map_elements_absent after e.name
        (insert e.name e.challenge_map_index (map_elements before m)) a
    ∙ lookup-insert_self e.name e.challenge_map_index (map_elements before m)

-- After `compute_challenge_map` a name has the index of its last element in the rounds that map their
-- challenges, and asking for the index of a name that none of them has panics.
pub compute_challenge_map_lem :
    (t : Transcript)
    → ((before after : List ManifestEntry) (e : ManifestEntry)
        → mapped t.manifest.round_manifests ≡ before ++ (e ∷ after)
        → includes_element after e.name ≡ false
        → get_challenge_index_from_map (compute_challenge_map t) e.name ≡ ok e.challenge_map_index)
      × ((name : String)
          → includes_element (mapped t.manifest.round_manifests) name ≡ false
          → get_challenge_index_from_map (compute_challenge_map t) name ≡ panic)
unfolding compute_challenge_map get_challenge_index_from_map
compute_challenge_map_lem t = (
  λ before after e split a.
      rw (map_rounds-mapped t.manifest.round_manifests [])
        (rw split (rw (index_map, lookup-map_elements before after e [] a) refl)),
  λ name a.
      rw
        (
          map_rounds-mapped t.manifest.round_manifests [],
          index_map,
          lookup-map_elements_absent (mapped t.manifest.round_manifests) name [] a,
        )
        refl,
)

ones-last : (n : ℕ) → assign {A = ℕ} (replicate (suc n) 0) n 1 ≡ ok (replicate n 0 ++ (1 ∷ []))
ones-last zero = refl
ones-last (suc n) = ap (λ m. m >>= λ r. ok (0 ∷ r)) (ones-last n)

-- A subchallenge that is mapped to -1 is the big-endian number one, whatever the challenges are, one
-- mapped to `n` is the challenge's subchallenge `n`, and any other negative index panics.
pub get_challenge_from_map_lem :
    (n : ℕ) (t : Transcript) (challenge_name challenge_map_name : String)
    → (get_challenge_index_from_map t challenge_map_name ≡ ok (negsuc 0)
        → get_challenge_from_map (suc n) t challenge_name challenge_map_name
          ≡ ok (replicate n 0 ++ (1 ∷ [])))
      × ((k : ℕ)
          → get_challenge_index_from_map t challenge_map_name ≡ ok (pos k)
          → get_challenge_from_map (suc n) t challenge_name challenge_map_name
            ≡ get_challenge t challenge_name (some k))
      × ((k : ℕ)
          → get_challenge_index_from_map t challenge_map_name ≡ ok (negsuc (suc k))
          → get_challenge_from_map (suc n) t challenge_name challenge_map_name ≡ panic)
unfolding get_challenge_from_map get_challenge_index_from_map get_challenge
get_challenge_from_map_lem n t challenge_name challenge_map_name = (
  λ h. rw h (
      ap (λ k. assign {A = ℕ} (replicate (suc n) 0) k 1) {x = suc n - 1} {y = n} (omega arith)
      ∙ ones-last n),
  λ k h. rw h refl,
  λ k h. rw h (fails (lookup challenge_name t.challenges)),
)
  where
    fails :
        (o : Option (List (List ℕ)))
        → ◌≡◌ {A = Outcome (List ℕ)}
            (elim o as (λ _. Outcome (List (List ℕ))) [ none ↦ panic | some v ↦ ok v ] >>= λ _.
              panic)
            panic
    fails none = refl
    fails (some v) = refl

size_in-first :
    (before after : List ManifestEntry) (e : ManifestEntry)
    → includes_element before e.name ≡ false
    → size_in (before ++ (e ∷ after)) e.name ≡ some e.num_bytes
unfolding size_in includes_element
size_in-first [] after e h = rw (same_name_refl e.name) refl
size_in-first (b ∷ before) after e h = elim (Bool-cases (same_name b.name e.name)) [
  | inl q ↦ absurd (clash q)
  | inr q ↦ rw q (size_in-first before after e (rest q))
]
  where
    clash : same_name b.name e.name ≡ true → ⊥
    clash q = ground (arith, q)

    rest : same_name b.name e.name ≡ false → includes_element before e.name ≡ false
    rest q = ground (arith, q)

size_in-absent :
    (es : List ManifestEntry) (name : String)
    → includes_element es name ≡ false
    → size_in es name ≡ none
unfolding size_in includes_element
size_in-absent [] name h = refl
size_in-absent (b ∷ es) name h = ground (arith, h, size_in-absent es name)

size_in-append :
    (es fs : List ManifestEntry) (name : String)
    → size_in (es ++ fs) name
      ≡ elim (size_in es name) as (λ _. Option ℕ) [ some n ↦ some n | none ↦ size_in fs name ]
unfolding size_in
size_in-append [] fs name = refl
size_in-append (e ∷ es) fs name = elim (Bool-cases (same_name e.name name)) [
  | inl q ↦ rw q refl
  | inr q ↦ rw q (size_in-append es fs name)
]

size_in_rounds-all :
    (rs : List RoundManifest) (name : String)
    → size_in_rounds rs name
      ≡ elim (size_in (all_elements rs) name) as (λ _. ℕ) [ some n ↦ n | none ↦ 2 ^ 64 - 1 ]
unfolding size_in_rounds size_in
size_in_rounds-all [] name = refl
size_in_rounds-all (r ∷ rs) name =
    rw (size_in-append r.elements (all_elements rs) name)
      (step (size_in_rounds-all rs name) (size_in r.elements name))
  where
    step :
        size_in_rounds rs name
          ≡ elim (size_in (all_elements rs) name) as (λ _. ℕ) [ some n ↦ n | none ↦ 2 ^ 64 - 1 ]
        → (o : Option ℕ)
        → elim o as (λ _. ℕ) [ some n ↦ n | none ↦ size_in_rounds rs name ]
          ≡ elim (elim o as (λ _. Option ℕ) [
            | some n ↦ some n
            | none ↦ size_in (all_elements rs) name
          ])
              as (λ _. ℕ) [ some n ↦ n | none ↦ 2 ^ 64 - 1 ]
    step h none = h
    step h (some n) = refl

-- `get_element_size` returns the size of the first element of that name in the manifest, and the
-- greatest `usize` where there is none.
pub get_element_size_lem :
    (t : Transcript)
    → ((before after : List ManifestEntry) (e : ManifestEntry)
        → all_elements t.manifest.round_manifests ≡ before ++ (e ∷ after)
        → includes_element before e.name ≡ false
        → get_element_size t e.name ≡ e.num_bytes)
      × ((name : String)
          → includes_element (all_elements t.manifest.round_manifests) name ≡ false
          → get_element_size t name ≡ 2 ^ 64 - 1)
unfolding get_element_size
get_element_size_lem t = (
  λ before after e split a.
      rw (size_in_rounds-all t.manifest.round_manifests e.name)
        (rw split (rw (size_in-first before after e a) refl)),
  λ name a.
      rw
        (
          size_in_rounds-all t.manifest.round_manifests name,
          size_in-absent (all_elements t.manifest.round_manifests) name a,
        )
        refl,
)
