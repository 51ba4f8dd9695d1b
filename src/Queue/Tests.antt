-- ===== src/Queue/Tests.antt =====
-- A queue of an inverse transform and a scalar multiplication, and one of small transforms.
use Prim.Native.String
use barustenberg.Prelude.{
  ℕ, ◌+◌, ◌*◌, ◌%◌, ◌<◌, ◌≤◌, ◌≡◌, ◌≢◌, refl, List, [], ◌∷◌, ok, index, length, arith, some, none,
  true, Option,
}
use barustenberg.Field.Five.{Five, f0, f1, f2, f4, five}
use barustenberg.Transcript.{Codec, default_transcript}
use barustenberg.Storage.{put}
use barustenberg.Queue.{
  WorkItem, WorkQueue, ifft, small_fft, scalar_multiplication, is_ifft, small_fft_of, put_fft_data,
  get_queued_work_item_info,
}
use barustenberg.Queue.Transforms.{put_fft_data_lem}

abbrev transform : WorkItem Five
transform = record { work = ifft; tag = "w_1" }

abbrev commitment : WorkItem Five
commitment = record { work = scalar_multiplication f2 7; tag = "W_1" }

abbrev two_items : WorkQueue Five
two_items = record {
  circuit_size = 2;
  large_root = f2;
  polynomial_store = record { polynomial_map = []; heap = [] };
  transcript = default_transcript 32;
  work_items = transform ∷ commitment ∷ [];
}

first_byte : List ℕ → Option ℕ
first_byte [] = none
first_byte (b ∷ rest) = some b

instance byte : Codec ℕ
unfolding first_byte
byte = record {
  serialized_size = λ a. 1;
  serialize = λ a. a ∷ [];
  deserialize = first_byte;
  length-serialize = λ a. refl;
  deserialize-serialize = λ a rest. refl;
}

abbrev small_transform : WorkItem Five
small_transform = record { work = small_fft f2 3; tag = "w_1" }

-- The second small transform, at place 3.
abbrev three_items : WorkQueue Five
three_items = record two_items {
  work_items =
      record { work = small_fft f1 0; tag = "z" } ∷ transform ∷ small_transform ∷ commitment ∷ [];
}

put_fft_data_lem_example :
    ((w : List Five) × (put_fft_data three_items (f1 ∷ f4 ∷ []) 1
        ≡ ok (record three_items {
          polynomial_store =
              put
                (String.◌++◌ "w_1" "_fft")
                (record { size = 4 * 2 + 4; coefficients = w })
                (three_items.polynomial_store);
        }))
      × (length w ≡ 4 * 2 + 4)
      × ((j : ℕ) → j < 2 → index w (4 * j + 3) ≡ index (f1 ∷ f4 ∷ []) j)
      × (index w (4 * 2 + 3) ≡ index (f1 ∷ f4 ∷ []) 0)
      × ((p : ℕ) → p < 4 * 2 + 4 → p % 4 ≢ 3 → index w p ≡ ok f0))
    × ((number : ℕ)
        → (get_queued_work_item_info three_items).num_ffts ≤ number
        → put_fft_data three_items (f1 ∷ f4 ∷ []) number ≡ ok three_items)
unfolding five small_fft_of
put_fft_data_lem_example =
    put_fft_data_lem three_items (record { work = small_fft f1 0; tag = "z" } ∷ transform ∷ [])
      small_transform (commitment ∷ []) (f1 ∷ f4 ∷ []) f2 2 3 refl refl refl (omega arith)
      (omega arith) refl

transform_is_ifft : is_ifft transform.work ≡ true
unfolding is_ifft
transform_is_ifft = refl
