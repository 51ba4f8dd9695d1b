-- ===== src/Transcript/Sizes.antt =====
-- The bytes that a manifest asks for, and the elements of its rounds in order.
use barustenberg.Prelude.{
  ℕ, suc, ◌+◌, ◌-◌, ◌≡◌, sym, ap, ◌∙◌, List, [], ◌∷◌, ◌++◌, ok, ltb, leb, le→leb, if◌then◌else◌,
  length, length-append, append_assoc, arith, true, false, not, take, Bool-cases, inl, inr,
}
use barustenberg.Prelude.Slices.{index-append, drop-append, take-append}
use barustenberg.Transcript.{
  ManifestEntry, RoundManifest, Manifest, get_round_manifest, required_size, total_required_size,
  slice,
}

abbrev pub all_elements : List RoundManifest → List ManifestEntry
all_elements [] = []
all_elements (r ∷ rs) = r.elements ++ all_elements rs

-- The bytes that the manifest asks for.
abbrev pub total_size : List ManifestEntry → ℕ
total_size [] = 0
total_size (e ∷ es) = (if not e.derived_by_verifier then e.num_bytes else 0) + total_size es

pub total_size-append :
    (es fs : List ManifestEntry) → total_size (es ++ fs) ≡ total_size es + total_size fs
total_size-append [] fs = omega arith
total_size-append (e ∷ es) fs = omega (arith, total_size-append es fs)

required_size-total :
    (es : List ManifestEntry) (total : ℕ) → required_size es total ≡ total + total_size es
unfolding required_size
required_size-total [] total = omega arith
required_size-total (e ∷ es) total = elim (Bool-cases (not e.derived_by_verifier)) [
  | inl d ↦ rw d (required_size-total es (total + e.num_bytes) ∙ omega arith)
  | inr d ↦ rw d (required_size-total es total ∙ omega arith)
]

pub total_required_size-rounds :
    (m : Manifest) (before rs : List RoundManifest) (i total : ℕ)
    → m.round_manifests ≡ before ++ rs
    → i ≡ length before
    → total_required_size m (length rs) i total ≡ ok (total + total_size (all_elements rs))
unfolding total_required_size get_round_manifest
total_required_size-rounds m before [] i total h e = ap ok (omega arith)
total_required_size-rounds m before (r ∷ rs) i total h e = rw h (
    rw (index-append before r rs i e) (
      total_required_size-rounds m (before ++ (r ∷ [])) rs (suc i) (required_size r.elements total)
        (h ∙ sym (append_assoc before (r ∷ []) rs)) (omega (arith, length-append before (r ∷ [])))
      ∙ ap ok (
          omega (
            arith,
            required_size-total r.elements total,
            total_size-append r.elements (all_elements rs),
          ))))

pub slice-middle {ℓ} :
    {A : Type ℓ} (pre b post : List A) (from to : ℕ)
    → from ≡ length pre
    → to ≡ from + length b
    → slice (pre ++ (b ++ post)) from to ≡ ok b
unfolding slice
slice-middle pre b post from to hf ht =
    rw (low, high)
      (ap ok (
        ap (take (to - from)) (drop-append pre (b ++ post) from hf)
        ∙ take-append b post (to - from) (omega arith)))
  where
    low : ltb to from ≡ false
    low = ground arith

    high : leb to (length (pre ++ (b ++ post))) ≡ true
    high = le→leb to _ (omega (arith, length-append pre (b ++ post), length-append b post))
