-- ===== src/Queue/Transforms.antt =====
-- `put_fft_data`: which item a number names, and what is stored.
use Prim.Native.String
use Prim.Native.String.{String}
use barustenberg.Prelude.{
  ℕ, suc, ◌+◌, ◌*◌, ◌%◌, ◌<◌, ◌≤◌, ◌≡◌, ◌≢◌, refl, ap, ◌∙◌, List, [], ◌∷◌, ◌++◌, ok, index, ◌==◌,
  ==_iff, length, none, some, false, Option-cases, inl, inr, arith,
}
use barustenberg.Field.{Field}
use barustenberg.Storage.{put}
use barustenberg.Queue.{
  Work, fft, small_fft, ifft, scalar_multiplication, WorkItem, WorkItemInfo, WorkQueue, count_item,
  count_items, get_queued_work_item_info, small_fft_of, find_small_fft, put_fft_data,
}
use barustenberg.Queue.Results.{wire_fft_of_lem}

==-false : (a b : ℕ) → a < b → (a == b) ≡ false
==-false a b h = ground arith

module _ {ℓ} {A : Type ℓ} ⦃f : Field A⦄ where
  -- How many small transforms there are among the items.
  abbrev pub small_ffts : List (WorkItem A) → ℕ
  small_ffts [] = 0
  small_ffts (item ∷ items) = elim (small_fft_of item.work) [
    | some place ↦ suc (small_ffts items)
    | none ↦ small_ffts items
  ]

  small_ffts-skip :
      (b : WorkItem A) (items : List (WorkItem A))
      → small_fft_of b.work ≡ none
      → small_ffts (b ∷ items) ≡ small_ffts items
  small_ffts-skip b items e = rw (small_ffts, e) refl

  small_ffts-count :
      (b : WorkItem A) (items : List (WorkItem A)) (place : ℕ)
      → small_fft_of b.work ≡ some place
      → small_ffts (b ∷ items) ≡ suc (small_ffts items)
  small_ffts-count b items place e = rw (small_ffts, e) refl

  find_small_fft-before :
      (before after : List (WorkItem A)) (count number : ℕ)
      → number ≡ count + small_ffts before
      → find_small_fft (before ++ after) count number ≡ find_small_fft after number number
  unfolding find_small_fft
  find_small_fft-before [] after count number h =
      ap (λ i. find_small_fft after i number) {x = count} {y = number} (omega arith)
  find_small_fft-before (b ∷ before) after count number h =
      elim (Option-cases (small_fft_of b.work)) [
        | inl e ↦
            let here : number ≡ count + small_ffts before =
              omega (arith, h, small_ffts-skip b before e) in
            rw (find_small_fft, e) (find_small_fft-before before after count number here)
        | inr (place, e) ↦
            let further : number ≡ count + 1 + small_ffts before =
              omega (arith, h, small_ffts-count b before place e) in
            rw (find_small_fft, e, ==-false count number (omega arith))
              (find_small_fft-before before after (count + 1) number further)
      ]

  find_small_fft-past :
      (items : List (WorkItem A)) (count number : ℕ)
      → count + small_ffts items ≤ number
      → find_small_fft items count number ≡ none
  unfolding find_small_fft
  find_small_fft-past [] count number h = refl
  find_small_fft-past (b ∷ items) count number h = elim (Option-cases (small_fft_of b.work)) [
    | inl e ↦
        let here : count + small_ffts items ≤ number =
          omega (arith, h, small_ffts-skip b items e) in
        rw (find_small_fft, e) (find_small_fft-past items count number here)
    | inr (place, e) ↦
        let counted = small_ffts-count b items place e in
        let further : count + 1 + small_ffts items ≤ number = omega (arith, h, counted) in
        rw (find_small_fft, e, ==-false count number (omega arith))
          (find_small_fft-past items (count + 1) number further)
  ]

  counted_ffts :
      (w : Work A) (i : WorkItemInfo)
      → (count_item w i).num_ffts
        ≡ elim (small_fft_of w) as (λ _. ℕ) [ some _ ↦ i.num_ffts + 1 | none ↦ i.num_ffts ]
  unfolding count_item small_fft_of
  counted_ffts (fft place) i = refl
  counted_ffts (small_fft constant place) i = refl
  counted_ffts ifft i = refl
  counted_ffts (scalar_multiplication constant cell) i = refl

  count_items-small_ffts :
      (items : List (WorkItem A)) (i : WorkItemInfo)
      → (count_items items i).num_ffts ≡ i.num_ffts + small_ffts items
  unfolding count_items
  count_items-small_ffts [] i = omega arith
  count_items-small_ffts (b ∷ items) i = elim (Option-cases (small_fft_of b.work)) [
    | inl e ↦
        let one : (count_item b.work i).num_ffts ≡ i.num_ffts = counted_ffts b.work i ∙ rw e refl in
        count_items-small_ffts items (count_item b.work i)
        ∙ omega (arith, one, small_ffts-skip b items e)
    | inr (place, e) ↦
        let one : (count_item b.work i).num_ffts ≡ i.num_ffts + 1 =
          counted_ffts b.work i ∙ rw e refl in
        count_items-small_ffts items (count_item b.work i)
        ∙ omega (arith, one, small_ffts-count b items place e)
  ]

  -- Of the circuit size `n`, not zero, and as many results, with the number of small transforms before
  -- a small transform in the queue and its place below 4, `put_fft_data` stores a polynomial of
  -- `4 n + 4` coefficients under the item's tag with `_fft` and changes nothing else of the queue:
  -- every fourth coefficient from the place on is the next of the results and then the first of them
  -- again, and the others are zero. With a number that is not below that of the small transforms, of
  -- which the queue's information gives the count, it changes nothing.
  pub put_fft_data_lem :
      (q : WorkQueue A) (before : List (WorkItem A)) (item : WorkItem A) (after : List (WorkItem A))
      (result : List A) (constant : A) (n place : ℕ)
      → q.work_items ≡ before ++ (item ∷ after)
      → item.work ≡ small_fft constant place
      → q.circuit_size ≡ n
      → 0 < n
      → place < 4
      → length result ≡ n
      → ((w : List A) × (put_fft_data q result (small_ffts before)
            ≡ ok (record q {
              polynomial_store =
                  put
                    (String.◌++◌ item.tag "_fft")
                    (record { size = 4 * n + 4; coefficients = w })
                    q.polynomial_store;
            }))
          × (length w ≡ 4 * n + 4)
          × ((j : ℕ) → j < n → index w (4 * j + place) ≡ index result j)
          × (index w (4 * n + place) ≡ index result 0)
          × ((p : ℕ) → p < 4 * n + 4 → p % 4 ≢ place → index w p ≡ ok f.zero))
        × ((number : ℕ)
            → (get_queued_work_item_info q).num_ffts ≤ number
            → put_fft_data q result number ≡ ok q)
  unfolding put_fft_data get_queued_work_item_info find_small_fft small_fft_of
  put_fft_data_lem q before item after result constant n place items kind size hn hp hr = (
    let (w, run, long, entries, last, others) = wire_fft_of_lem n place result hn hp hr in
        (w, rw (put_fft_data, found) (rw size (rw run refl)), long, entries, last, others),
    λ number h.
        rw
          (
            put_fft_data,
            find_small_fft-past q.work_items 0 number
                (omega (arith, h, count_items-small_ffts q.work_items _)),
          )
          refl,
  )
    where
      found : find_small_fft q.work_items 0 (small_ffts before) ≡ some (item.tag, place)
      found =
          ap (λ xs. find_small_fft xs 0 (small_ffts before)) items
          ∙ find_small_fft-before before (item ∷ after) 0 (small_ffts before) (omega arith)
          ∙ rw (find_small_fft, kind, (==_iff (small_ffts before) (small_ffts before)).1 refl) refl
