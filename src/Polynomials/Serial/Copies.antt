-- ===== src/Polynomials/Serial/Copies.antt =====
-- `copy_polynomial` on slices that are long enough.
use barustenberg.Prelude.{
  ℕ, zero, suc, ◌-◌, ◌≡◌, ◌≤◌, refl, sym, ap, ◌∙◌, List, [], ◌∷◌, ◌++◌, ok, ltb, ltb-false, le→leb,
  Bool-cases, inl, inr, length, length-take, length-drop, length-append, replicate, take, drop,
  arith,
}
use barustenberg.Prelude.Slices.{take-append}
use barustenberg.Field.{Field}
use barustenberg.Polynomials.Serial.{clear_between, copy_polynomial}

-- What stands from `m` on keeps its place when a prefix is written.
drop-copied {ℓ} :
    {A : Type ℓ} (src dest : List A) (n m : ℕ)
    → n ≤ m
    → n ≤ length src
    → n ≤ length dest
    → drop m (take n src ++ drop n dest) ≡ drop m dest
drop-copied src dest zero m h g k = refl
drop-copied [] dest (suc n) m h g k = absurd (omega arith)
drop-copied (x ∷ src) [] (suc n) m h g k = absurd (omega arith)
drop-copied (x ∷ src) (y ∷ dest) (suc n) zero h g k = absurd (omega arith)
drop-copied (x ∷ src) (y ∷ dest) (suc n) (suc m) h g k =
    drop-copied src dest n m (omega arith) (omega arith) (omega arith)

take-copied {ℓ} :
    {A : Type ℓ} (src dest : List A) (n : ℕ)
    → n ≤ length src
    → take n (take n src ++ drop n dest) ≡ take n src
take-copied src dest n h =
    take-append (take n src) (drop n dest) n (omega (arith, length-take n src))

length-take_copied {ℓ} :
    {A : Type ℓ} (src dest : List A) (n m : ℕ)
    → n ≤ length src
    → n ≤ m
    → m ≤ length dest
    → length (take m (take n src ++ drop n dest)) ≡ m
length-take_copied src dest n m h k l =
    length-take m (take n src ++ drop n dest)
    ∙ omega (arith, length-append (take n src) (drop n dest), length-take n src, length-drop n dest)

none_left {ℓ} :
    {A : Type ℓ} ⦃f : Field A⦄ (dest : List A) (n m : ℕ)
    → m ≡ n
    → replicate (m - n) f.zero ++ drop m dest ≡ drop n dest
none_left ⦃f⦄ dest n m h =
    ap (λ i. replicate (m - n) f.zero ++ drop i dest) h
    ∙ ap (λ i. replicate i f.zero ++ drop n dest) {x = m - n} {y = 0} (omega arith)

-- When the source has the coefficients to copy, the destination has the target's, and these are not fewer,
-- `copy_polynomial` returns the source's, then zeros up to the target's number, then what the destination
-- had behind them.
pub copy_polynomial_lem {ℓ} :
    {A : Type ℓ} ⦃f : Field A⦄ (src dest : List A) (n m : ℕ)
    → n ≤ length src
    → n ≤ m
    → m ≤ length dest
    → copy_polynomial src dest n m ≡ ok (take n src ++ (replicate (m - n) f.zero ++ drop m dest))
unfolding copy_polynomial clear_between
copy_polynomial_lem ⦃f⦄ src dest n m h k l = rw (le→leb n (length dest) (omega arith)) (
    rw (le→leb n (length src) h) (elim (Bool-cases (ltb n m)) [
      | inl d ↦ rw d (
          rw (take-copied src dest n h) (
            rw (drop-copied src dest n m k h (omega arith))
              (rw (length-take_copied src dest n m h k l) refl)))
      | inr d ↦ rw d (
          ap (λ t. ok (take n src ++ t))
            (sym (none_left dest n m (omega (arith, ltb-false n m d)))))
    ]))
