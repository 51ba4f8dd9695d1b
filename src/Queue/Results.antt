-- ===== src/Queue/Results.antt =====
-- The coefficients that `put_fft_data` computes, and what `put_ifft_data` stores.
use barustenberg.Prelude.{
  ℕ, zero, suc, ◌+◌, ◌*◌, ◌%◌, ◌<◌, ◌≤◌, ◌≡◌, ◌≢◌, refl, sym, ap, ◌∙◌, List, [], ◌∷◌, ◌++◌, ok,
  index, ◌==◌, ==_iff, length, replicate, length-replicate, length-set, set, true, false,
  Bool-cases, inl, inr, arith, ℕ_discrete,
}
use barustenberg.Prelude.Slices.{assign-set, index-set_self, index-set_ne, index-ok}
use barustenberg.Field.{Field}
use barustenberg.Polynomials.{new}
use barustenberg.Storage.{put}
use barustenberg.Queue.{
  WorkItem, WorkQueue, is_ifft, copy_from_slice, put_ifft_at, put_ifft_data, interleave,
  wire_fft_of,
}

module _ {ℓ} {A : Type ℓ} ⦃f : Field A⦄ where
  interleave-entries :
      (result : List A) (place count i : ℕ) (wire : List A)
      → place < 4
      → i + count ≤ length result
      → 4 * (i + count) + 4 ≤ length wire
      → (w : List A) × (interleave result place count i wire ≡ ok w)
        × (length w ≡ length wire)
        × ((j : ℕ) → i ≤ j → j < i + count → index w (4 * j + place) ≡ index result j)
        × ((p : ℕ)
            → ((j : ℕ) → i ≤ j → j < i + count → p ≢ 4 * j + place)
            → index w p ≡ index wire p)
  unfolding interleave
  interleave-entries result place zero i wire hp hr hw =
      (wire, refl, refl, λ j a b. absurd (omega arith), λ p n. refl)
  interleave-entries result place (suc count) i wire hp hr hw =
      let (r, er) = index-ok result i (omega arith) in
      let wire' = set wire (4 * i + place) r in
      let (w, run, len, new_entries, frame) =
        interleave-entries result place count (suc i) wire' hp (omega arith)
          (omega (arith, length-set wire (4 * i + place) r)) in
      (
        w,
        rw (interleave, er) (rw (assign-set wire (4 * i + place) r (omega arith)) run),
        len ∙ length-set wire (4 * i + place) r,
        λ j a b. entries r w er new_entries frame j a b,
        λ p n.
            frame p (λ j a b. n j (omega arith) (omega arith))
            ∙ index-set_ne wire (4 * i + place) p r (λ e. n i (omega arith) (omega arith) (sym e)),
      )
    where
      entries :
          (r : A) (w : List A)
          → index result i ≡ ok r
          → ((j : ℕ) → suc i ≤ j → j < suc i + count → index w (4 * j + place) ≡ index result j)
          → ((p : ℕ)
              → ((j : ℕ) → suc i ≤ j → j < suc i + count → p ≢ 4 * j + place)
              → index w p ≡ index (set wire (4 * i + place) r) p)
          → (j : ℕ) → i ≤ j
          → j < i + suc count
          → index w (4 * j + place) ≡ index result j
      entries r w er new_entries frame j a b = elim (ℕ_discrete i j) [
        | no n ↦ new_entries j (omega arith) (omega arith)
        | yes e ↦
            ap (λ k. index w (4 * k + place)) (sym e)
            ∙ frame (4 * i + place) (λ k u v q. omega (arith, q))
            ∙ index-set_self wire (4 * i + place) r (omega arith)
            ∙ sym er
            ∙ ap (index result) e
      ]

  index-replicate : (n p : ℕ) (a : A) → p < n → index (replicate n a) p ≡ ok a
  index-replicate zero p a h = absurd (omega arith)
  index-replicate (suc n) zero a h = refl
  index-replicate (suc n) (suc p) a h = index-replicate n p a (omega arith)

  pub wire_fft_of_lem :
      (n place : ℕ) (result : List A)
      → 0 < n
      → place < 4
      → length result ≡ n
      → (w : List A) × (wire_fft_of n place result ≡ ok w)
        × (length w ≡ 4 * n + 4)
        × ((j : ℕ) → j < n → index w (4 * j + place) ≡ index result j)
        × (index w (4 * n + place) ≡ index result 0)
        × ((p : ℕ) → p < 4 * n + 4 → p % 4 ≢ place → index w p ≡ ok f.zero)
  unfolding wire_fft_of new
  wire_fft_of_lem n place result hn hp hr =
      let (w, run, len, entries, frame) =
        interleave-entries result place n 0 (replicate (4 * n + 4) f.zero) hp (omega arith)
          (omega (arith, length-replicate (4 * n + 4) f.zero)) in
      let (first, ef) = index-ok result 0 (omega arith) in
      let long = len ∙ length-replicate (4 * n + 4) f.zero in
      (
        set w (4 * n + place) first,
        rw run (rw ef (assign-set w (4 * n + place) first (omega (arith, long)))),
        length-set w (4 * n + place) first ∙ long,
        λ j h.
            index-set_ne w (4 * n + place) (4 * j + place) first (λ e. omega (arith, e))
            ∙ entries j (omega arith) (omega arith),
        index-set_self w (4 * n + place) first (omega (arith, long)) ∙ sym ef,
        λ p h q.
            index-set_ne w (4 * n + place) p first (λ e. q (omega (arith, e)))
            ∙ frame p (λ j a b e. q (omega (arith, e)))
            ∙ index-replicate (4 * n + 4) p f.zero h,
      )

  put_ifft_at-before :
      (q : WorkQueue A) (before : List (WorkItem A)) (item : WorkItem A) (after : List (WorkItem A))
      (result : List A) (ix number : ℕ)
      → number ≡ ix + length before
      → put_ifft_at q (before ++ (item ∷ after)) result ix number
        ≡ put_ifft_at q (item ∷ after) result number number
  unfolding put_ifft_at
  put_ifft_at-before q [] item after result ix number h =
      ap (λ i. put_ifft_at q (item ∷ after) result i number) {x = ix} {y = number} (omega arith)
  put_ifft_at-before q (b ∷ before) item after result ix number h =
      elim (Bool-cases (is_ifft b.work)) [
        | inl e ↦
            rw (put_ifft_at, e, differ)
              (put_ifft_at-before q before item after result (suc ix) number (omega arith))
        | inr e ↦
            rw (put_ifft_at, e)
              (put_ifft_at-before q before item after result (suc ix) number (omega arith))
      ]
    where
      differ : (ix == number) ≡ false
      differ = ground arith

  -- At the place of an inverse transform in the queue, and given as many results as the circuit's
  -- size, `put_ifft_data` stores a polynomial of zeros under the item's tag and overwrites the results
  -- with zeros, whatever they were.
  pub put_ifft_data_lem :
      (q : WorkQueue A) (before : List (WorkItem A)) (item : WorkItem A) (after : List (WorkItem A))
      (result : List A)
      → q.work_items ≡ before ++ (item ∷ after)
      → is_ifft item.work ≡ true
      → length result ≡ q.circuit_size
      → put_ifft_data q result (length before)
        ≡ ok (
          replicate q.circuit_size f.zero,
          record q {
            polynomial_store =
                put item.tag
                  (record { size = q.circuit_size; coefficients = replicate q.circuit_size f.zero })
                  q.polynomial_store;
          },
        )
  unfolding put_ifft_data copy_from_slice new
  put_ifft_data_lem q before item after result h e len =
      ap (λ items. put_ifft_at q items result 0 (length before)) h
      ∙ put_ifft_at-before q before item after result 0 (length before) (omega arith)
      ∙ rw (put_ifft_at, e, (==_iff (length before) (length before)).1 refl)
          (rw
            (
              copy_from_slice,
              (==_iff (length result) (length (replicate q.circuit_size f.zero))).1
                  (len ∙ sym (length-replicate q.circuit_size f.zero)),
            )
            refl)
