-- ===== src/Transcript/Elements.antt =====
-- Elements put into the transcript and read back, `add_field_element` and the vectors included.
use Prim.Native.String.{String}
use native.Mathlib.Nat.{mul-div_cancel}
use barustenberg.Prelude.{
  ℕ, suc, ◌+◌, ◌*◌, ◌/◌, ◌<◌, ◌≡◌, ◌≢◌, refl, sym, ap, ◌∙◌, List, [], ◌∷◌, ◌++◌, ok, ◌==◌, length,
  replicate, arith, some, false, length-append, append_assoc, append-nil,
}
use barustenberg.Prelude.Maps.{index_map, lookup-insert_self, lookup-insert_ne}
use barustenberg.Transcript.{
  Transcript, Codec, add_element, get_element, serialized, add_field_element, read_element,
  get_field_element, serialized_all, put_field_element_vector, read_all, get_field_element_vector,
  slice,
}
use barustenberg.Transcript.Sizes.{slice-middle}

-- An element is read back as the bytes that were added under its name last, and the others stay.
pub add_element_lem :
    (t : Transcript) (element_name : String) (buffer : List ℕ)
    → (get_element (add_element element_name buffer t) element_name ≡ ok buffer)
      × ((other : String)
          → element_name ≢ other
          → get_element (add_element element_name buffer t) other ≡ get_element t other)
unfolding add_element get_element
add_element_lem t name buffer = (
  rw (index_map, lookup-insert_self name buffer t.elements) refl,
  λ other h. rw (index_map, lookup-insert_ne other name buffer t.elements h) refl,
)

module _ {ℓ} {A : Type ℓ} ⦃codec : Codec A⦄ where
  -- Whatever element is added, `get_field_element` returns the element that is serialized as zeros.
  pub add_field_element_lem :
      (t : Transcript) (element_name : String) (element z : A)
      → codec.serialize z ≡ replicate (codec.serialized_size element) 0
      → get_field_element (add_field_element element_name element t) element_name ≡ ok z
  unfolding add_field_element get_field_element serialized read_element
  add_field_element_lem t name element z h =
      rw
        ((add_element_lem t name
          (replicate (codec.serialized_size element) 0 ++ codec.serialize element)).0)
        (rw (← h, read_element, codec.deserialize-serialize z (codec.serialize element)) refl)

  -- The serializations one after another.
  abbrev pub concatenated : List A → List ℕ
  concatenated [] = []
  concatenated (a ∷ rest) = codec.serialize a ++ concatenated rest

  module _ (size : ℕ) (uniform : (a : A) → codec.serialized_size a ≡ size) where
    read_all-concatenated :
        (xs : List A) (buf pre : List ℕ) (i : ℕ) (res : List A)
        → buf ≡ pre ++ concatenated xs
        → length pre ≡ i * size
        → read_all size buf (length xs) i res ≡ ok (res ++ xs)
    unfolding read_all read_element
    read_all-concatenated [] buf pre i res e h = ap ok (sym (append-nil res))
    read_all-concatenated (x ∷ xs) buf pre i res e h = rw (here) (
        rw (read_element, read_one)
          (read_all-concatenated xs buf (pre ++ codec.serialize x) (suc i) (res ++ (x ∷ []))
              (e ∙ sym (append_assoc pre (codec.serialize x) (concatenated xs)))
              (omega (arith, length-append pre (codec.serialize x), long))
            ∙ ap ok (append_assoc res (x ∷ []) xs)))
      where
        long : length (codec.serialize x) ≡ size
        long = codec.length-serialize x ∙ uniform x

        here : slice buf (i * size) ((i + 1) * size) ≡ ok (codec.serialize x)
        here =
            ap (λ b. slice b (i * size) ((i + 1) * size)) e
            ∙ slice-middle pre (codec.serialize x) (concatenated xs) (i * size) ((i + 1) * size)
                (sym h) (omega (arith, long))

        read_one : codec.deserialize (codec.serialize x) ≡ some x
        read_one =
            ap codec.deserialize (sym (append-nil (codec.serialize x)))
            ∙ codec.deserialize-serialize x []

    length-concatenated : (xs : List A) → length (concatenated xs) ≡ length xs * size
    length-concatenated [] = omega arith
    length-concatenated (x ∷ xs) = omega (
      arith,
      length-append (codec.serialize x) (concatenated xs),
      codec.length-serialize x,
      uniform x,
      length-concatenated xs,
    )

    -- With one positive size for all elements, `get_field_element_vector` reads back any elements
    -- from the concatenation of their serializations.
    pub get_field_element_vector_lem :
        (one : A) (t : Transcript) (element_name : String) (xs : List A)
        → 0 < size
        → get_element t element_name ≡ ok (concatenated xs)
        → get_field_element_vector one t element_name ≡ ok xs
    unfolding get_field_element_vector
    get_field_element_vector_lem one t name xs pos h = rw h (
        rw (uniform one, nonzero)
          (ap (λ n. read_all size (concatenated xs) n 0 []) count
            ∙ read_all-concatenated xs (concatenated xs) [] 0 [] refl (omega arith)))
      where
        nonzero : (size == 0) ≡ false
        nonzero = ground arith

        count : length (concatenated xs) / size ≡ length xs
        count = ap (λ n. n / size) (length-concatenated xs) ∙ mul-div_cancel (length xs) pos

    -- Each element preceded by `z`.
    abbrev pub preceded : A → List A → List A
    preceded z [] = []
    preceded z (a ∷ rest) = z ∷ a ∷ preceded z rest

    serialized_all-preceded :
        (z : A) (xs : List A)
        → codec.serialize z ≡ replicate size 0
        → serialized_all xs ≡ concatenated (preceded z xs)
    unfolding serialized_all serialized
    serialized_all-preceded z [] h = refl
    serialized_all-preceded z (x ∷ xs) h =
        rw (uniform x, ← h, serialized_all-preceded z xs h)
          (append_assoc (codec.serialize z) (codec.serialize x) _)

    -- A vector that is put comes back with the element that is serialized as zeros in front of each.
    pub put_field_element_vector_lem :
        (one z : A) (t : Transcript) (element_name : String) (xs : List A)
        → 0 < size
        → codec.serialize z ≡ replicate size 0
        → get_field_element_vector one (put_field_element_vector element_name xs t) element_name
          ≡ ok (preceded z xs)
    unfolding put_field_element_vector
    put_field_element_vector_lem one z t name xs pos h =
        get_field_element_vector_lem one (add_element name (serialized_all xs) t) name
          (preceded z xs) pos
          ((add_element_lem t name (serialized_all xs)).0 ∙ ap ok (serialized_all-preceded z xs h))
