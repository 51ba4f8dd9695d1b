-- ===== src/Queue.antt =====
-- barustenberg/src/proof_system/work_queue.rs: the prover's work items and the places their inputs
-- are read from and their results are put. `process_queue` runs into a `todo!()` or
-- `unimplemented!()` of the transforms and of Pippenger at every kind of item, and is left out.
pub mod Items
pub mod Results
pub mod Transforms
mod Tests
use Prim.Native.String
use Prim.Native.String.{String}
use barustenberg.Prelude.{
  ℕ, zero, suc, ◌+◌, ◌*◌, List, [], ◌∷◌, ◌++◌, Outcome, ok, err, panic, index, assign, ◌>>=◌,
  Option, none, some, length, Bool, true, false, if◌then◌else◌, ◌==◌,
}
use barustenberg.Field.{Field}
use barustenberg.Polynomials.{Polynomial, new}
use barustenberg.Storage.{PolynomialStore, put, get}
use barustenberg.Transcript.{Transcript, Codec, add_field_element}

-- `mul_scalars` is a pointer into the heap of the polynomial store.
pub data Work {ℓ} (A : Type ℓ) : Type ℓ where
  fft : (place : ℕ) → Work A
  small_fft : (constant : A) (place : ℕ) → Work A
  ifft : Work A
  scalar_multiplication : (constant : A) (mul_scalars : ℕ) → Work A

pub record WorkItem {ℓ} (A : Type ℓ) : Type ℓ where
  pub work : Work A
  pub tag : String

pub record WorkItemInfo : Type 0 where
  pub num_scalar_multiplications : ℕ
  pub num_ffts : ℕ
  pub num_iffts : ℕ

pub record QueuedFftInputs {ℓ} (A : Type ℓ) : Type ℓ where
  pub cell : ℕ
  pub shift_factor : A

-- With what the queue reads of the proving key, which it shares with the prover: the circuit size,
-- the root of the large domain and the store.
pub record WorkQueue {ℓ} (A : Type ℓ) : Type ℓ where
  pub circuit_size : ℕ
  pub large_root : A
  pub polynomial_store : PolynomialStore A
  pub transcript : Transcript
  pub work_items : List (WorkItem A)

module _ {ℓ} {A : Type ℓ} where
  pub count_item : Work A → WorkItemInfo → WorkItemInfo
  count_item (fft place) i = i
  count_item (small_fft constant place) i = record i { num_ffts = i.num_ffts + 1 }
  count_item ifft i = record i { num_iffts = i.num_iffts + 1 }
  count_item (scalar_multiplication constant mul_scalars) i = record i {
    num_scalar_multiplications = i.num_scalar_multiplications + 1;
  }

  pub count_items : List (WorkItem A) → WorkItemInfo → WorkItemInfo
  unfolding count_item
  count_items [] i = i
  count_items (item ∷ items) i = count_items items (count_item item.work i)

  pub get_queued_work_item_info : WorkQueue A → WorkItemInfo
  unfolding count_items
  get_queued_work_item_info q =
      count_items q.work_items
        (record { num_scalar_multiplications = 0; num_ffts = 0; num_iffts = 0 })

  -- The constant and the pointer of a scalar multiplication.
  pub scalars_of : Work A → Option (A × ℕ)
  scalars_of (scalar_multiplication constant mul_scalars) = some (constant, mul_scalars)
  scalars_of _ = none

  pub find_scalars : List (WorkItem A) → (count work_item_number : ℕ) → Option (A × ℕ)
  unfolding scalars_of
  find_scalars [] count number = none
  find_scalars (item ∷ items) count number = elim (scalars_of item.work) [
    | some found ↦ if count == number then some found else find_scalars items (count + 1) number
    | none ↦ find_scalars items count number
  ]

  pub get_scalar_multiplication_data : WorkQueue A → ℕ → Option ℕ
  unfolding find_scalars
  get_scalar_multiplication_data q work_item_number =
      elim (find_scalars q.work_items 0 work_item_number) [
        | none ↦ none
        | some (constant, cell) ↦ some cell
      ]

  -- `field_element_to_usize` reads the first eight bytes of the element's representation.
  pub get_scalar_multiplication_size : (field_element_to_usize : A → ℕ) → WorkQueue A → ℕ → ℕ
  unfolding find_scalars
  get_scalar_multiplication_size field_element_to_usize q work_item_number =
      elim (find_scalars q.work_items 0 work_item_number) [
        | none ↦ 0
        | some (constant, cell) ↦ field_element_to_usize constant
      ]

  pub is_ifft : Work A → Bool
  is_ifft ifft = true
  is_ifft _ = false

  -- `get(..).unwrap()`
  pub get_unwrapped : PolynomialStore A → String → Outcome ℕ
  get_unwrapped s key = elim (get s key) [ ok cell ↦ ok cell | _ ↦ panic ]

  pub find_ifft :
      PolynomialStore A → List (WorkItem A) → (count work_item_number : ℕ) → Outcome (Option ℕ)
  unfolding is_ifft get_unwrapped
  find_ifft s [] count number = ok none
  find_ifft s (item ∷ items) count number =
      if is_ifft item.work
      then (if count == number
          then (get_unwrapped s (String.◌++◌ item.tag "_lagrange") >>= λ cell. ok (some cell))
          else find_ifft s items (count + 1) number)
      else find_ifft s items count number

  pub get_ifft_data : WorkQueue A → ℕ → Outcome (Option ℕ)
  unfolding find_ifft
  get_ifft_data q work_item_number = find_ifft q.polynomial_store q.work_items 0 work_item_number

  -- `slice.copy_from_slice(source)`, which wants equal lengths.
  pub copy_from_slice : List A → List A → Outcome (List A)
  copy_from_slice slice source = if length slice == length source then ok source else panic

module _ {ℓ} {A : Type ℓ} ⦃f : Field A⦄ where
  -- The new `wire` is copied over the caller's `result`, and stored.
  pub put_ifft_at :
      WorkQueue A
      → List (WorkItem A)
      → (result : List A) → (ix work_item_number : ℕ) → Outcome (List A × WorkQueue A)
  unfolding is_ifft copy_from_slice new
  put_ifft_at q [] result ix number = ok (result, q)
  put_ifft_at q (item ∷ items) result ix number =
      if is_ifft item.work
      then (if ix == number
          then (copy_from_slice result ((new q.circuit_size).coefficients) >>= λ result'. ok (
            result',
            record q { polynomial_store = put item.tag (new q.circuit_size) q.polynomial_store },
          ))
          else put_ifft_at q items result (suc ix) number)
      else put_ifft_at q items result (suc ix) number

  pub put_ifft_data : WorkQueue A → (result : List A) → ℕ → Outcome (List A × WorkQueue A)
  unfolding put_ifft_at
  put_ifft_data q result work_item_number = put_ifft_at q q.work_items result 0 work_item_number

  pub small_fft_of : Work A → Option ℕ
  small_fft_of (small_fft constant place) = some place
  small_fft_of _ = none

  pub find_small_fft : List (WorkItem A) → (count work_item_number : ℕ) → Option (String × ℕ)
  unfolding small_fft_of
  find_small_fft [] count number = none
  find_small_fft (item ∷ items) count number = elim (small_fft_of item.work) [
    | some place ↦
        if count == number then some (item.tag, place) else find_small_fft items (count + 1) number
    | none ↦ find_small_fft items count number
  ]

  pub get_fft_data : WorkQueue A → ℕ → Outcome (Option (QueuedFftInputs A))
  unfolding find_small_fft get_unwrapped
  get_fft_data q work_item_number = elim (find_small_fft q.work_items 0 work_item_number) [
    | none ↦ ok none
    | some (tag, place) ↦ get_unwrapped q.polynomial_store tag >>= λ cell.
        ok (some (record { cell = cell; shift_factor = f.pow q.large_root place }))
  ]

  -- `for i in i..i + count { wire_fft[4 * i + index] = result[i] }`
  pub interleave : (result : List A) (place count i : ℕ) → List A → Outcome (List A)
  interleave result place zero i wire_fft = ok wire_fft
  interleave result place (suc count) i wire_fft = do
    r ← index result i
    wire_fft' ← assign wire_fft (4 * i + place) r
    interleave result place count (suc i) wire_fft'

  pub wire_fft_of : (n place : ℕ) (result : List A) → Outcome (List A)
  unfolding interleave new
  wire_fft_of n place result = do
    wire_fft ← interleave result place n 0 ((new (4 * n + 4)).coefficients)
    first ← index result 0
    assign wire_fft (4 * n + place) first

  pub put_fft_data : WorkQueue A → (result : List A) → ℕ → Outcome (WorkQueue A)
  unfolding find_small_fft wire_fft_of
  put_fft_data q result work_item_number = elim (find_small_fft q.work_items 0 work_item_number) [
    | none ↦ ok q
    | some (tag, place) ↦ wire_fft_of q.circuit_size place result >>= λ wire_fft. ok (record q {
      polynomial_store =
          put (String.◌++◌ tag "_fft")
            (record { size = 4 * q.circuit_size + 4; coefficients = wire_fft }) q.polynomial_store;
    })
  ]

module _ {ℓ κ} {A : Type ℓ} {G : Type κ} ⦃codec : Codec G⦄ where
  pub put_scalar_multiplication_at :
      WorkQueue A → List (WorkItem A) → (result : G) → (idx work_item_number : ℕ) → WorkQueue A
  unfolding scalars_of
  put_scalar_multiplication_at q [] result idx number = q
  put_scalar_multiplication_at q (item ∷ items) result idx number = elim (scalars_of item.work) [
    | some _ ↦
        if idx == number
        then record q { transcript = add_field_element item.tag result q.transcript }
        else put_scalar_multiplication_at q items result (suc idx) number
    | none ↦ put_scalar_multiplication_at q items result (suc idx) number
  ]

  pub put_scalar_multiplication_data : WorkQueue A → (result : G) → ℕ → WorkQueue A
  unfolding put_scalar_multiplication_at
  put_scalar_multiplication_data q result work_item_number =
      put_scalar_multiplication_at q q.work_items result 0 work_item_number

module _ {ℓ} {A : Type ℓ} where
  pub flush_queue : WorkQueue A → WorkQueue A
  flush_queue q = record q { work_items = [] }

  pub add_to_queue : WorkItem A → WorkQueue A → WorkQueue A
  add_to_queue work_item q = record q { work_items = q.work_items ++ (work_item ∷ []) }
