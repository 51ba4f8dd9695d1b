-- ===== src/Program/Wires.antt =====
-- The settings agree with each other.
use barustenberg.Prelude.{ℕ, zero, suc, ◌+◌, ◌≤◌, ◌≡◌, refl, if◌then◌else◌, arith}
use barustenberg.Prelude.Bits.{shr}
use barustenberg.Program.{
  Settings, standard_settings, turbo_settings, ultra_settings, ultra_to_standard_settings,
  ultra_with_keccak_settings, requires_shifted_wire,
}

-- The wires below `n` that are to be shifted.
pub shifted_wires : (wire_shift_settings n : ℕ) → ℕ
unfolding requires_shifted_wire
shifted_wires w zero = 0
shifted_wires w (suc n) = shifted_wires w n + (if requires_shifted_wire w n then 1 else 0)

pub record IsConsistent (s : Settings) : Type 0 where
  pub shifts : shifted_wires s.wire_shift_settings s.program_width ≡ s.num_shifted_wire_evaluations
  pub two_bits : shr s.permutation_mask s.permutation_shift ≡ 3
  pub numbered : s.program_width ≤ suc (shr s.permutation_mask s.permutation_shift)

-- In each of the five settings as many wires of the program's width require a shift as there are
-- shifted wire evaluations, and the permutation's mask is exactly the two bits above its shift, enough
-- to number the wires.
pub settings-IsConsistent :
    IsConsistent standard_settings
    × IsConsistent turbo_settings
    × IsConsistent ultra_settings
    × IsConsistent ultra_to_standard_settings
    × IsConsistent ultra_with_keccak_settings
unfolding shifted_wires
settings-IsConsistent = (
  record { shifts = refl; two_bits = refl; numbered = omega arith },
  record { shifts = refl; two_bits = refl; numbered = omega arith },
  record { shifts = refl; two_bits = refl; numbered = omega arith },
  record { shifts = refl; two_bits = refl; numbered = omega arith },
  record { shifts = refl; two_bits = refl; numbered = omega arith },
)
