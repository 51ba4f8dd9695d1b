-- ===== src/Prelude/Slices.antt =====
-- Reads and writes at a position of a slice that is given by what stands before it.
use Prim.Native.Nat.{ℕ, zero, suc, ◌+◌, ◌<◌, ◌≤◌}
use mathlib.Core.Path.{◌≡◌, refl, ap}
use mathlib.Core.Logic.{◌≢◌}
use mathlib.Core.List.{List, [], ◌∷◌, ◌++◌}
use native.Mathlib.Omega.{arith}
use barustenberg.Prelude.Lists.{length, get_or, take, drop, set}
use barustenberg.Prelude.Outcomes.{ok, ◌>>=◌, index, assign, ok-injective}

module _ {ℓ} {A : Type ℓ} where
  pub index-append :
      (xs : List A) (y : A) (ys : List A) (i : ℕ) → i ≡ length xs → index (xs ++ (y ∷ ys)) i ≡ ok y
  index-append [] y ys zero h = refl
  index-append [] y ys (suc i) h = absurd (omega arith)
  index-append (x ∷ xs) y ys zero h = absurd (omega arith)
  index-append (x ∷ xs) y ys (suc i) h = index-append xs y ys i (omega arith)

  pub assign-append :
      (xs : List A) (y : A) (ys : List A) (i : ℕ) (v : A)
      → i ≡ length xs
      → assign (xs ++ (y ∷ ys)) i v ≡ ok (xs ++ (v ∷ ys))
  assign-append [] y ys zero v h = refl
  assign-append [] y ys (suc i) v h = absurd (omega arith)
  assign-append (x ∷ xs) y ys zero v h = absurd (omega arith)
  assign-append (x ∷ xs) y ys (suc i) v h =
      ap (λ m. m >>= λ r. ok (x ∷ r)) (assign-append xs y ys i v (omega arith))

  pub index-get_or : (xs : List A) (i : ℕ) (d : A) → i < length xs → index xs i ≡ ok (get_or xs i d)
  index-get_or [] i d h = absurd (omega arith)
  index-get_or (x ∷ xs) zero d h = refl
  index-get_or (x ∷ xs) (suc i) d h = index-get_or xs i d (omega arith)

  pub drop-append : (xs ys : List A) (n : ℕ) → n ≡ length xs → drop n (xs ++ ys) ≡ ys
  drop-append [] ys zero h = refl
  drop-append [] ys (suc n) h = absurd (omega arith)
  drop-append (x ∷ xs) ys zero h = absurd (omega arith)
  drop-append (x ∷ xs) ys (suc n) h = drop-append xs ys n (omega arith)

  pub index-append_second :
      (xs : List A) (w y : A) (ys : List A) (i : ℕ)
      → i ≡ length xs + 1
      → index (xs ++ (w ∷ y ∷ ys)) i ≡ ok y
  index-append_second [] w y ys (suc i) h = index-append [] y ys i (omega arith)
  index-append_second [] w y ys zero h = absurd (omega arith)
  index-append_second (x ∷ xs) w y ys zero h = absurd (omega arith)
  index-append_second (x ∷ xs) w y ys (suc i) h = index-append_second xs w y ys i (omega arith)

  pub assign-append_second :
      (xs : List A) (w y : A) (ys : List A) (i : ℕ) (v : A)
      → i ≡ length xs + 1
      → assign (xs ++ (w ∷ y ∷ ys)) i v ≡ ok (xs ++ (w ∷ v ∷ ys))
  assign-append_second [] w y ys (suc i) v h =
      ap (λ m. m >>= λ r. ok (w ∷ r)) (assign-append [] y ys i v (omega arith))
  assign-append_second [] w y ys zero v h = absurd (omega arith)
  assign-append_second (x ∷ xs) w y ys zero v h = absurd (omega arith)
  assign-append_second (x ∷ xs) w y ys (suc i) v h =
      ap (λ m. m >>= λ r. ok (x ∷ r)) (assign-append_second xs w y ys i v (omega arith))

  pub take-append : (xs ys : List A) (n : ℕ) → n ≡ length xs → take n (xs ++ ys) ≡ xs
  take-append [] ys zero h = refl
  take-append [] ys (suc n) h = absurd (omega arith)
  take-append (x ∷ xs) ys zero h = absurd (omega arith)
  take-append (x ∷ xs) ys (suc n) h = ap (λ t. x ∷ t) (take-append xs ys n (omega arith))

module _ {ℓ} {A : Type ℓ} where
  pub assign-set : (xs : List A) (i : ℕ) (v : A) → i < length xs → assign xs i v ≡ ok (set xs i v)
  assign-set [] i v h = absurd (omega arith)
  assign-set (x ∷ xs) zero v h = refl
  assign-set (x ∷ xs) (suc i) v h =
      ap (λ m. m >>= λ r. ok (x ∷ r)) (assign-set xs i v (omega arith))

  pub index-set_self : (xs : List A) (i : ℕ) (v : A) → i < length xs → index (set xs i v) i ≡ ok v
  index-set_self [] i v h = absurd (omega arith)
  index-set_self (x ∷ xs) zero v h = refl
  index-set_self (x ∷ xs) (suc i) v h = index-set_self xs i v (omega arith)

  pub index-set_ne : (xs : List A) (i j : ℕ) (v : A) → i ≢ j → index (set xs i v) j ≡ index xs j
  index-set_ne [] i j v h = refl
  index-set_ne (x ∷ xs) zero zero v h = absurd (h refl)
  index-set_ne (x ∷ xs) zero (suc j) v h = refl
  index-set_ne (x ∷ xs) (suc i) zero v h = refl
  index-set_ne (x ∷ xs) (suc i) (suc j) v h = index-set_ne xs i j v (λ e. h (ap suc e))

  pub index-append_left : (xs ys : List A) (i : ℕ) → i < length xs → index (xs ++ ys) i ≡ index xs i
  index-append_left [] ys i h = absurd (omega arith)
  index-append_left (x ∷ xs) ys zero h = refl
  index-append_left (x ∷ xs) ys (suc i) h = index-append_left xs ys i (omega arith)

  -- A read in bounds succeeds.
  pub index-ok : (xs : List A) (i : ℕ) → i < length xs → (v : A) × (index xs i ≡ ok v)
  index-ok [] i h = absurd (omega arith)
  index-ok (x ∷ xs) zero h = (x, refl)
  index-ok (x ∷ xs) (suc i) h = index-ok xs i (omega arith)

-- Every entry is below the bound.
abbrev pub AllBelow : ℕ → List ℕ → Type 0
AllBelow n [] = Unit
AllBelow n (k ∷ ks) = (k < n) × AllBelow n ks

pub AllBelow-append :
    (n : ℕ) (xs ys : List ℕ) → AllBelow n xs → AllBelow n ys → AllBelow n (xs ++ ys)
AllBelow-append n [] ys a b = b
AllBelow-append n (x ∷ xs) ys (h, a) b = (h, AllBelow-append n xs ys a b)

pub AllBelow-mono : (m n : ℕ) (xs : List ℕ) → m ≤ n → AllBelow m xs → AllBelow n xs
AllBelow-mono m n [] h a = tt
AllBelow-mono m n (x ∷ xs) h (b, a) = (omega arith, AllBelow-mono m n xs h a)

pub AllBelow-set : (n : ℕ) (xs : List ℕ) (i v : ℕ) → v < n → AllBelow n xs → AllBelow n (set xs i v)
AllBelow-set n [] i v h a = tt
AllBelow-set n (x ∷ xs) zero v h (b, a) = (h, a)
AllBelow-set n (x ∷ xs) (suc i) v h (b, a) = (b, AllBelow-set n xs i v h a)

pub AllBelow-index : (n : ℕ) (xs : List ℕ) (i v : ℕ) → AllBelow n xs → index xs i ≡ ok v → v < n
AllBelow-index n [] i v a h = cc
AllBelow-index n (x ∷ xs) zero v (b, a) h = omega (arith, ok-injective x v h)
AllBelow-index n (x ∷ xs) (suc i) v (b, a) h = AllBelow-index n xs i v a h
