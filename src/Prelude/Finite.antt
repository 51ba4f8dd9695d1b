-- ===== src/Prelude/Finite.antt =====
-- A test of every number below a bound, by evaluation, and a test of an outcome.
use Prim.Native.Nat.{ℕ, zero, suc, ◌<◌, compare, Ordering}
use mathlib.Core.Path.{◌≡◌, refl, ap}
use mathlib.Core.Bool.{Bool, true, false, ◌&&◌}
use native.Mathlib.Omega.{arith}
use barustenberg.Prelude.Outcomes.{Outcome, ok, err, panic}

unfoldable pub all_below : ℕ → (ℕ → Bool) → Bool
all_below zero p = true
all_below (suc n) p = all_below n p && p n

pub all_below_sound : (n : ℕ) (p : ℕ → Bool) (x : ℕ) → x < n → all_below n p ≡ true → p x ≡ true
unfolding all_below
all_below_sound (suc n) p x l e = ground (arith, all_below_sound n p x)
all_below_sound zero p x l e = absurd (omega arith)

same : ℕ → ℕ → Bool
same a b = elim (compare a b) [ Ordering.eq ↦ true | _ ↦ false ]

same_sound : (a b : ℕ) → same a b ≡ true → a ≡ b
unfolding same
same_sound a b h = ground arith

unfoldable pub agree : Outcome ℕ → Outcome ℕ → Bool
unfolding same
agree (ok a) (ok b) = same a b
agree err err = true
agree panic panic = true
agree _ _ = false

pub agree_sound : (o q : Outcome ℕ) → agree o q ≡ true → o ≡ q
unfolding agree
agree_sound (ok a) (ok b) h = ap ok (same_sound a b h)
agree_sound err err h = refl
agree_sound panic panic h = refl
agree_sound _ _ h = cc
