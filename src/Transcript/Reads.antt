-- ===== src/Transcript/Reads.antt =====
-- Reading challenges: what a successful read says, and that a read never fails with an `Err`.
use Prim.Native.String.{String}
use barustenberg.Prelude.{
  ℕ, ◌<◌, ◌≡◌, ◌≢◌, refl, ok, err, panic, index, length, >>=-eq-ok, Option, some, Option-cases, inl,
  inr, true,
}
use barustenberg.Prelude.Maps.{lookup, index_map}
use barustenberg.Prelude.Failures.{
  index-lt, index-ne_err, index_map-ne_err, option-ne_err, bind-ne_err,
}
use barustenberg.Transcript.{
  Transcript, Codec, has_challenge, get_num_challenges, get_challenge, get_challenge_field_element,
  read_element,
}

pub get_num_challenges-ne_err : (t : Transcript) (label : String) → get_num_challenges t label ≢ err
unfolding get_num_challenges
get_num_challenges-ne_err t label =
    bind-ne_err (index_map label t.challenges) _ (index_map-ne_err label t.challenges)
      (λ values e. cc)

module _ {ℓ} {A : Type ℓ} ⦃codec : Codec A⦄ where
  pub get_challenge_field_element-ne_err :
      (t : Transcript) (label : String) (idx : Option ℕ)
      → get_challenge_field_element {A = A} t label idx ≢ err
  unfolding get_challenge_field_element get_challenge read_element
  get_challenge_field_element-ne_err t label idx =
      bind-ne_err (get_challenge t label idx) read_element
        (bind-ne_err (index_map label t.challenges) _ (index_map-ne_err label t.challenges)
          (λ values. index-ne_err values _))
        (λ buf. option-ne_err (codec.deserialize buf))

  -- A subchallenge that is read stands in the transcript.
  pub get_challenge_field_element-found :
      (t : Transcript) (label : String) (idx : ℕ) {v : A}
      → get_challenge_field_element t label (some idx) ≡ ok v
      → (has_challenge t label ≡ true) × (n : ℕ) × (get_num_challenges t label ≡ ok n) × (idx < n)
  unfolding get_challenge_field_element get_challenge get_num_challenges has_challenge
  get_challenge_field_element-found t label idx h =
      let (buf, _, e) = >>=-eq-ok (get_challenge t label (some idx)) read_element h in
      let (values, at, e') =
        >>=-eq-ok (index_map label t.challenges) (λ values. index values idx) e in
      elim (Option-cases (lookup label t.challenges)) [
        | inl e0 ↦
            (let missing : index_map label t.challenges ≡ panic = rw (index_map, e0) refl in cc)
        | inr (vs, e1) ↦ (
          rw (has_challenge, e1) refl,
          length values,
          rw (get_num_challenges, e') refl,
          index-lt values idx at,
        )
      ]
