-- ===== src/Transcript/Parse.antt =====
-- `new_from_transcript` cuts the serialized transcript into the manifest's elements.
use Prim.Native.String.{String}
use barustenberg.Prelude.{
  ℕ, suc, ◌+◌, ◌≡◌, ◌≢◌, refl, sym, ap, ◌∙◌, List, [], ◌∷◌, ◌++◌, ok, panic, ◌==◌, ==_iff,
  if◌then◌else◌, length, replicate, length-append, append_assoc, arith, some, Bool, true, false,
  not, Bool-cases, inl, inr,
}
use barustenberg.Prelude.Maps.{index_map, lookup, insert, same_name, lookup-insert_self}
use barustenberg.Prelude.Slices.{index-append}
use barustenberg.Transcript.{
  ManifestEntry, RoundManifest, Manifest, Transcript, includes_element, get_round_manifest, slice,
  read_elements, read_rounds, new_from_transcript, compute_challenge_map, get_element, map_rounds,
}
use barustenberg.Transcript.Sizes.{
  all_elements, total_size, total_required_size-rounds, slice-middle,
}

module _ (content : ManifestEntry → List ℕ) where
  -- The serialized transcript: the contents of the elements that the verifier does not derive.
  abbrev pub joined : List ManifestEntry → List ℕ
  joined [] = []
  joined (e ∷ es) = if not e.derived_by_verifier then content e ++ joined es else joined es

  -- Each content has the size that the manifest states.
  abbrev pub IsSized : List ManifestEntry → Type 0
  IsSized [] = Unit
  IsSized (e ∷ es) = (e.derived_by_verifier ≡ false → length (content e) ≡ e.num_bytes) × IsSized es

  abbrev recorded : List ManifestEntry → List (String × List ℕ) → List (String × List ℕ)
  recorded [] acc = acc
  recorded (e ∷ es) acc =
      recorded es (if not e.derived_by_verifier then insert e.name (content e) acc else acc)

  joined-append : (es fs : List ManifestEntry) → joined (es ++ fs) ≡ joined es ++ joined fs
  joined-append [] fs = refl
  joined-append (e ∷ es) fs = elim (Bool-cases (not e.derived_by_verifier)) [
    | inl d ↦ rw d (
        ap (λ t. content e ++ t) (joined-append es fs)
        ∙ sym (append_assoc (content e) (joined es) (joined fs)))
    | inr d ↦ rw d (joined-append es fs)
  ]

  recorded-append :
      (es fs : List ManifestEntry) (acc : List (String × List ℕ))
      → recorded (es ++ fs) acc ≡ recorded fs (recorded es acc)
  recorded-append [] fs acc = refl
  recorded-append (e ∷ es) fs acc = recorded-append es fs _

  not_derived : (b : Bool) → not b ≡ true → b ≡ false
  not_derived true h = cc
  not_derived false h = refl

  length-joined : (es : List ManifestEntry) → IsSized es → length (joined es) ≡ total_size es
  length-joined [] s = refl
  length-joined (e ∷ es) (h, s) = elim (Bool-cases (not e.derived_by_verifier)) [
    | inl d ↦ rw d (
        omega (
          arith,
          length-append (content e) (joined es),
          h (not_derived e.derived_by_verifier d),
          length-joined es s,
        ))
    | inr d ↦ rw d (omega (arith, length-joined es s))
  ]

  read_elements-recorded :
      (es : List ManifestEntry) (input pre post : List ℕ) (count : ℕ) (acc : List (String × List ℕ))
      → input ≡ pre ++ (joined es ++ post)
      → IsSized es
      → count ≡ length pre
      → read_elements input es count acc ≡ ok (count + length (joined es), recorded es acc)
  unfolding read_elements
  read_elements-recorded [] input pre post count acc i s h =
      ap ok (ap (λ n. (n, acc)) (omega arith))
  read_elements-recorded (e ∷ es) input pre post count acc i (he, s) h =
      elim (Bool-cases (not e.derived_by_verifier)) [
        | inl d ↦ rw d (
            rw (here d) (
              read_elements-recorded es input (pre ++ content e) post (count + e.num_bytes) _
                (whole d ∙ sym (append_assoc pre (content e) _)) s
                (omega
                  (arith, length-append pre (content e), he (not_derived e.derived_by_verifier d)))
              ∙ ap (λ n. ok (n, recorded es (insert e.name (content e) acc)))
                  (omega (
                    arith,
                    length-append (content e) (joined es),
                    he (not_derived e.derived_by_verifier d),
                  ))))
        | inr d ↦ rw d (read_elements-recorded es input pre post count acc (i ∙ skip d) s h)
      ]
    where
      skip :
          not e.derived_by_verifier ≡ false
          → pre ++ (joined (e ∷ es) ++ post) ≡ pre ++ (joined es ++ post)
      skip d = rw d refl

      whole : not e.derived_by_verifier ≡ true → input ≡ pre ++ (content e ++ (joined es ++ post))
      whole d = i ∙ rw d (ap (λ t. pre ++ t) (append_assoc (content e) (joined es) post))

      here :
          not e.derived_by_verifier ≡ true
          → slice input count (count + e.num_bytes) ≡ ok (content e)
      here d =
          ap (λ t. slice t count (count + e.num_bytes)) (whole d)
          ∙ slice-middle pre (content e) (joined es ++ post) count (count + e.num_bytes) h
              (omega (arith, he (not_derived e.derived_by_verifier d)))

  IsSized-left : (es fs : List ManifestEntry) → IsSized (es ++ fs) → IsSized es
  IsSized-left [] fs s = tt
  IsSized-left (e ∷ es) fs (h, s) = (h, IsSized-left es fs s)

  IsSized-right : (es fs : List ManifestEntry) → IsSized (es ++ fs) → IsSized fs
  IsSized-right [] fs s = s
  IsSized-right (e ∷ es) fs (h, s) = IsSized-right es fs s

  read_rounds-recorded :
      (m : Manifest) (before rs : List RoundManifest) (input pre : List ℕ) (i count : ℕ)
      (acc : List (String × List ℕ))
      → m.round_manifests ≡ before ++ rs
      → i ≡ length before
      → input ≡ pre ++ joined (all_elements rs)
      → IsSized (all_elements rs)
      → count ≡ length pre
      → read_rounds input m (length rs) i count acc ≡ ok (recorded (all_elements rs) acc)
  unfolding read_rounds get_round_manifest
  read_rounds-recorded m before [] input pre i count acc hm hi hj s hc = refl
  read_rounds-recorded m before (r ∷ rs) input pre i count acc hm hi hj s hc = rw hm (
      rw (index-append before r rs i hi) (
        rw
          (read_elements-recorded r.elements input pre (joined (all_elements rs)) count acc split
            (IsSized-left r.elements _ s) hc)
          (read_rounds-recorded m (before ++ (r ∷ [])) rs input (pre ++ joined r.elements) (suc i)
              (count + length (joined r.elements)) (recorded r.elements acc)
              (hm ∙ sym (append_assoc before (r ∷ []) rs))
              (omega (arith, length-append before (r ∷ [])))
              (split ∙ sym (append_assoc pre (joined r.elements) _)) (IsSized-right r.elements _ s)
              (omega (arith, length-append pre (joined r.elements)))
            ∙ ap ok (sym (recorded-append r.elements (all_elements rs) acc)))))
    where
      split : input ≡ pre ++ (joined r.elements ++ joined (all_elements rs))
      split = hj ∙ ap (λ t. pre ++ t) (joined-append r.elements (all_elements rs))

  lookup-recorded_absent :
      (es : List ManifestEntry) (name : String) (acc : List (String × List ℕ))
      → includes_element es name ≡ false
      → lookup name (recorded es acc) ≡ lookup name acc
  unfolding includes_element
  lookup-recorded_absent [] name acc h = refl
  lookup-recorded_absent (e ∷ es) name acc h = elim (Bool-cases (same_name e.name name)) [
    | inl q ↦ absurd (clash q)
    | inr q ↦ elim (Bool-cases (not e.derived_by_verifier)) [
      | inl d ↦ rw d (lookup-recorded_absent es name _ (rest q) ∙ rw q refl)
      | inr d ↦ rw d (lookup-recorded_absent es name acc (rest q))
    ]
  ]
    where
      clash : same_name e.name name ≡ true → ⊥
      clash q = ground (arith, q)

      rest : same_name e.name name ≡ false → includes_element es name ≡ false
      rest q = ground (arith, q)

  lookup-recorded :
      (before after : List ManifestEntry) (e : ManifestEntry) (acc : List (String × List ℕ))
      → e.derived_by_verifier ≡ false
      → includes_element after e.name ≡ false
      → lookup e.name (recorded (before ++ (e ∷ after)) acc) ≡ some (content e)
  lookup-recorded before after e acc d a =
      ap (lookup e.name) (recorded-append before (e ∷ after) acc)
      ∙ ap
          (λ b. lookup e.name (
            recorded after (
              if not b
              then insert e.name (content e) (recorded before acc)
              else recorded before acc)))
          d
      ∙ lookup-recorded_absent after e.name (insert e.name (content e) (recorded before acc)) a
      ∙ lookup-insert_self e.name (content e) (recorded before acc)

  -- The concatenated contents of the elements that the verifier does not derive, each of its stated
  -- size, are parsed under a manifest that counts its rounds, and afterwards `get_element` of a name
  -- returns the content of the last such element of that name.
  pub new_from_transcript_lem :
      (prng_output_size num_challenge_bytes : ℕ) (m : Manifest)
      → m.num_rounds ≡ length m.round_manifests
      → IsSized (all_elements m.round_manifests)
      → (t : Transcript) × (new_from_transcript prng_output_size
            (joined (all_elements m.round_manifests))
            m
            num_challenge_bytes
          ≡ ok t)
        × ((before after : List ManifestEntry) (e : ManifestEntry)
            → all_elements m.round_manifests ≡ before ++ (e ∷ after)
            → e.derived_by_verifier ≡ false
            → includes_element after e.name ≡ false
            → get_element t e.name ≡ ok (content e))
  unfolding new_from_transcript compute_challenge_map get_element
  new_from_transcript_lem size n m counted s = (
    record {
      current_round = 0;
      num_challenge_bytes = n;
      elements = recorded entries [];
      challenges = [];
      current_challenge = replicate size 0;
      manifest = m;
      challenge_map = map_rounds m.round_manifests [];
    },
    rw counted (
        rw (total_required_size-rounds m [] m.round_manifests 0 0 refl refl) (
          rw (enough) (
            rw
              (read_rounds-recorded m [] m.round_manifests (joined entries) [] 0 0 [] refl refl refl
                s refl)
              refl))),
    λ before after e split d a.
        rw split (rw (index_map, lookup-recorded before after e [] d a) refl),
  )
    where
      entries : List ManifestEntry
      entries = all_elements m.round_manifests

      enough : ((0 + total_size entries) == length (joined entries)) ≡ true
      enough = (==_iff _ _).1 (omega (arith, length-joined entries s))

-- A serialized transcript of any other length than the manifest asks for makes it panic.
pub new_from_transcript-panic :
    (prng_output_size num_challenge_bytes : ℕ) (input : List ℕ) (m : Manifest)
    → m.num_rounds ≡ length m.round_manifests
    → length input ≢ total_size (all_elements m.round_manifests)
    → new_from_transcript prng_output_size input m num_challenge_bytes ≡ panic
unfolding new_from_transcript
new_from_transcript-panic size n input m counted h =
    rw counted
      (rw (total_required_size-rounds m [] m.round_manifests 0 0 refl refl) (rw differs refl))
  where
    differs : ((0 + total_size (all_elements m.round_manifests)) == length input) ≡ false
    differs = ground arith
