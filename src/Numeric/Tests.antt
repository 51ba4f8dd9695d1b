-- ===== src/Numeric/Tests.antt =====
-- The bit operations, run on small inputs.
use barustenberg.Prelude.{ℕ, ◌<◌, ◌-◌, ◌^◌, ◌≡◌, ok, arith}
use barustenberg.Prelude.Bits.{bit}
use barustenberg.Numeric.{checked, wrapping, get_msb64, reverse_bits}
use barustenberg.Numeric.Msb.{get_msb64_lem}
use barustenberg.Numeric.Reverse.{reverse_bits_bits}

get_msb64_lem_example : get_msb64 wrapping 1000 ≡ ok 9
get_msb64_lem_example = get_msb64_lem wrapping 9 1000 (omega arith) (omega arith) (omega arith)

reverse_bits_bits_example :
    (y : ℕ) × (reverse_bits checked 6 4 ≡ ok y)
    × (y < 2 ^ 4)
    × ((i : ℕ) → i < 4 → bit y i ≡ bit 6 (4 - 1 - i))
reverse_bits_bits_example = reverse_bits_bits checked 6 4 (omega arith) (omega arith) (omega arith)
