-- ===== src/Queue/Items.antt =====
-- Which item a number names: `get_scalar_multiplication_data` counts the scalar multiplications,
-- `put_scalar_multiplication_data` counts all items.
use barustenberg.Prelude.{
  ℕ, zero, suc, ◌+◌, ◌<◌, ◌≡◌, refl, ap, ◌∙◌, List, [], ◌∷◌, ◌++◌, ◌==◌, ==_iff, if◌then◌else◌,
  Option, none, some, length, get_elem?, false, Option-cases, inl, inr, arith,
}
use barustenberg.Transcript.{Codec, add_field_element}
use barustenberg.Queue.{
  Work, fft, small_fft, ifft, scalar_multiplication, WorkItem, WorkItemInfo, WorkQueue, count_item,
  count_items, get_queued_work_item_info, scalars_of, find_scalars, get_scalar_multiplication_data,
  put_scalar_multiplication_at, put_scalar_multiplication_data,
}

module _ {ℓ} {A : Type ℓ} where
  -- The scalars of the queued multiplications, in order.
  pub queued_scalars : List (WorkItem A) → List ℕ
  unfolding scalars_of
  queued_scalars [] = []
  queued_scalars (item ∷ items) = elim (scalars_of item.work) [
    | some (constant, cell) ↦ cell ∷ queued_scalars items
    | none ↦ queued_scalars items
  ]

  abbrev cell_of : Option (A × ℕ) → Option ℕ
  cell_of none = none
  cell_of (some (constant, cell)) = some cell

  find_scalars-queued :
      (items : List (WorkItem A)) (count k : ℕ)
      → cell_of (find_scalars items count (count + k)) ≡ get_elem? (queued_scalars items) k
  unfolding find_scalars queued_scalars
  find_scalars-queued [] count k = refl
  find_scalars-queued (item ∷ items) count k = elim (Option-cases (scalars_of item.work)) [
    | inl e ↦ rw (find_scalars, queued_scalars, e) (find_scalars-queued items count k)
    | inr ((constant, cell), e) ↦
        rw (find_scalars, queued_scalars, e)
          (here constant cell k (λ j. find_scalars-queued items (count + 1) j))
  ]
    where
      here :
          (constant : A) (cell k : ℕ)
          → ((j : ℕ)
              → cell_of (find_scalars items (count + 1) (count + 1 + j))
                ≡ get_elem? (queued_scalars items) j)
          → cell_of (
              if count == (count + k)
              then some (constant, cell)
              else find_scalars items (count + 1) (count + k))
            ≡ get_elem? (cell ∷ queued_scalars items) k
      here constant cell zero h = rw ((==_iff count (count + 0)).1 (omega arith)) refl
      here constant cell (suc j) h = rw (differ) (
          ap (λ n. cell_of (find_scalars items (count + 1) n)) {x = count + suc j}
            {y = count + 1 + j} (omega arith)
          ∙ h j)
        where
          differ : (count == (count + suc j)) ≡ false
          differ = ground arith

  scalars_counted :
      (w : Work A) (i : WorkItemInfo)
      → (count_item w i).num_scalar_multiplications ≡ elim (scalars_of w) as (λ _. ℕ) [
        | some _ ↦ i.num_scalar_multiplications + 1
        | none ↦ i.num_scalar_multiplications
      ]
  unfolding count_item scalars_of
  scalars_counted (fft place) i = refl
  scalars_counted (small_fft constant place) i = refl
  scalars_counted ifft i = refl
  scalars_counted (scalar_multiplication constant cell) i = refl

  count_items-queued :
      (items : List (WorkItem A)) (i : WorkItemInfo)
      → (count_items items i).num_scalar_multiplications
        ≡ i.num_scalar_multiplications + length (queued_scalars items)
  unfolding count_items queued_scalars
  count_items-queued [] i = omega arith
  count_items-queued (item ∷ items) i = elim (Option-cases (scalars_of item.work)) [
    | inl e ↦
        rw (count_items, queued_scalars, e)
          (count_items-queued items (count_item item.work i)
            ∙ ap (λ n. n + length (queued_scalars items)) (scalars_counted item.work i ∙ rw e refl))
    | inr ((constant, cell), e) ↦
        rw (count_items, queued_scalars, e)
          (count_items-queued items (count_item item.work i)
            ∙ ap (λ n. n + length (queued_scalars items)) {y = i.num_scalar_multiplications + 1}
                (scalars_counted item.work i ∙ rw e refl)
            ∙ omega arith)
  ]

  -- `get_scalar_multiplication_data` returns the scalars of the multiplication of that number among
  -- the scalar multiplications, of which the queue's information gives the count.
  pub get_scalar_multiplication_data_lem :
      (q : WorkQueue A)
      → ((k : ℕ) → get_scalar_multiplication_data q k ≡ get_elem? (queued_scalars q.work_items) k)
        × ((get_queued_work_item_info q).num_scalar_multiplications
            ≡ length (queued_scalars q.work_items))
  unfolding get_scalar_multiplication_data get_queued_work_item_info
  get_scalar_multiplication_data_lem q = (
    λ k.
        flat (find_scalars q.work_items 0 k)
        ∙ ap (λ n. cell_of (find_scalars q.work_items 0 n)) {x = k} {y = 0 + k} (omega arith)
        ∙ find_scalars-queued q.work_items 0 k,
    count_items-queued q.work_items _ ∙ omega arith,
  )
    where
      flat :
          (o : Option (A × ℕ))
          → elim o as (λ _. Option ℕ) [ none ↦ none | some (constant, cell) ↦ some cell ]
            ≡ cell_of o
      flat none = refl
      flat (some (constant, cell)) = refl

module _ {ℓ κ} {A : Type ℓ} {G : Type κ} ⦃codec : Codec G⦄ where
  put_at-before :
      (q : WorkQueue A) (before : List (WorkItem A)) (item : WorkItem A) (after : List (WorkItem A))
      (result : G) (idx number : ℕ)
      → number ≡ idx + length before
      → put_scalar_multiplication_at q (before ++ (item ∷ after)) result idx number
        ≡ put_scalar_multiplication_at q (item ∷ after) result number number
  unfolding put_scalar_multiplication_at
  put_at-before q [] item after result idx number h =
      ap (λ i. put_scalar_multiplication_at q (item ∷ after) result i number) {x = idx} {y = number}
        (omega arith)
  put_at-before q (b ∷ before) item after result idx number h =
      elim (Option-cases (scalars_of b.work)) [
        | inl e ↦
            rw (put_scalar_multiplication_at, e)
              (put_at-before q before item after result (suc idx) number (omega arith))
        | inr (found, e) ↦
            rw (put_scalar_multiplication_at, e, differ)
              (put_at-before q before item after result (suc idx) number (omega arith))
      ]
    where
      differ : (idx == number) ≡ false
      differ = ground arith

  put_at-past :
      (q : WorkQueue A) (items : List (WorkItem A)) (result : G) (idx number : ℕ)
      → number < idx
      → put_scalar_multiplication_at q items result idx number ≡ q
  unfolding put_scalar_multiplication_at
  put_at-past q [] result idx number h = refl
  put_at-past q (b ∷ items) result idx number h = elim (Option-cases (scalars_of b.work)) [
    | inl e ↦
        rw (put_scalar_multiplication_at, e)
          (put_at-past q items result (suc idx) number (omega arith))
    | inr (found, e) ↦
        rw (put_scalar_multiplication_at, e, differ)
          (put_at-past q items result (suc idx) number (omega arith))
  ]
    where
      differ : (idx == number) ≡ false
      differ = ground arith

  -- `put_scalar_multiplication_data` takes the number as a place in the whole queue: at the place of
  -- a scalar multiplication it adds the result to the transcript under that item's tag, and at the
  -- place of any other item it does nothing.
  pub put_scalar_multiplication_data_lem :
      (q : WorkQueue A) (before : List (WorkItem A)) (item : WorkItem A) (after : List (WorkItem A))
      (result : G)
      → q.work_items ≡ before ++ (item ∷ after)
      → ((found : A × ℕ)
          → scalars_of item.work ≡ some found
          → put_scalar_multiplication_data q result (length before)
            ≡ record q { transcript = add_field_element item.tag result q.transcript })
        × (scalars_of item.work ≡ none
            → put_scalar_multiplication_data q result (length before) ≡ q)
  unfolding put_scalar_multiplication_data
  put_scalar_multiplication_data_lem q before item after result h = (
    λ found e.
        located
        ∙ rw (put_scalar_multiplication_at, e, (==_iff (length before) (length before)).1 refl)
            refl,
    λ e.
        located
        ∙ rw (put_scalar_multiplication_at, e)
            (put_at-past q after result (suc (length before)) (length before) (omega arith)),
  )
    where
      located :
          put_scalar_multiplication_at q q.work_items result 0 (length before)
          ≡ put_scalar_multiplication_at q (item ∷ after) result (length before) (length before)
      located =
          ap (λ items. put_scalar_multiplication_at q items result 0 (length before)) h
          ∙ put_at-before q before item after result 0 (length before) (omega arith)
