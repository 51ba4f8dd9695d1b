-- ===== src/Polynomials/Arithmetic.antt =====
-- `AddAssign`, `SubAssign` and `MulAssign` of `Polynomial`, against the value at every point.
use barustenberg.Prelude.{
  ℕ, zero, suc, ◌≤◌, ◌≡◌, refl, sym, ap, ◌∙◌, List, [], ◌∷◌, ◌++◌, arith, length, take, drop, map,
  ok, ◌>>=◌, >>=_assoc, ltb, if◌then◌else◌, Bool-cases, inl, inr, max, length-replicate, ltb→lt,
  ltb-false, take_all, drop_all, append-nil,
}
use barustenberg.Field.{Field, ◌⊕◌, ◌⊗◌, ◌⊖◌}
use barustenberg.Field.Laws.{neg-zero, add-zero, mul-sub, add_interchange, neg-add}
use barustenberg.Polynomials.{
  Polynomial, resize_vec, update_each, scale_each, combine_assign, add_assign, sub_assign,
  mul_assign,
}
use barustenberg.Polynomials.Evaluation.{eval, eval-scale, eval-replicate_zero}

-- What the loop leaves: the operation where both lists have an entry, the rest of the first.
abbrev merge {ℓ} : {A : Type ℓ} → (A → A → A) → List A → List A → List A
merge op xs [] = xs
merge op [] (y ∷ ys) = []
merge op (x ∷ xs) (y ∷ ys) = op x y ∷ merge op xs ys

module _ {ℓ} {A : Type ℓ} (op : A → A → A) where
  update_each-suc :
      (n i : ℕ) (x y : A) (xs ys : List A)
      → update_each op n (suc i) (x ∷ xs) (y ∷ ys) ≡ (update_each op n i xs ys >>= λ r. ok (x ∷ r))
  unfolding update_each
  update_each-suc zero i x y xs ys = refl
  update_each-suc (suc n) i x y xs ys = simp (>>=_assoc, update_each-suc n (suc i))

  update_each-merge :
      (xs ys : List A)
      → length ys ≤ length xs
      → update_each op (length ys) 0 xs ys ≡ ok (merge op xs ys)
  unfolding update_each
  update_each-merge xs [] h = refl
  update_each-merge [] (y ∷ ys) h = absurd (omega arith)
  update_each-merge (x ∷ xs) (y ∷ ys) h =
      update_each-suc (length ys) 0 (op x y) y xs ys
      ∙ ap (λ m. m >>= λ r. ok (op x y ∷ r)) (update_each-merge xs ys (omega arith))

module _ {ℓ} {A : Type ℓ} (op : A → A) where
  scale_each-suc :
      (n i : ℕ) (x : A) (xs : List A)
      → scale_each op n (suc i) (x ∷ xs) ≡ (scale_each op n i xs >>= λ r. ok (x ∷ r))
  unfolding scale_each
  scale_each-suc zero i x xs = refl
  scale_each-suc (suc n) i x xs = simp (>>=_assoc, scale_each-suc n (suc i))

  scale_each-map :
      (n : ℕ) (xs : List A)
      → n ≤ length xs
      → scale_each op n 0 xs ≡ ok (map op (take n xs) ++ drop n xs)
  unfolding scale_each
  scale_each-map zero xs h = refl
  scale_each-map (suc n) [] h = absurd (omega arith)
  scale_each-map (suc n) (x ∷ xs) h =
      scale_each-suc n 0 (op x) xs
      ∙ ap (λ m. m >>= λ r. ok (op x ∷ r)) (scale_each-map n xs (omega arith))

length-resize_vec {ℓ} : {A : Type ℓ} (xs : List A) (n : ℕ) (v : A) → length (resize_vec xs n v) ≡ n
length-resize_vec [] n v = length-replicate n v
length-resize_vec (x ∷ xs) zero v = refl
length-resize_vec (x ∷ xs) (suc n) v = ap suc (length-resize_vec xs n v)

length-merge {ℓ} :
    {A : Type ℓ} (op : A → A → A) (xs ys : List A) → length (merge op xs ys) ≡ length xs
length-merge op [] [] = refl
length-merge op (x ∷ xs) [] = refl
length-merge op [] (y ∷ ys) = refl
length-merge op (x ∷ xs) (y ∷ ys) = ap suc (length-merge op xs ys)

-- The coefficients fill the size, as in every polynomial that `new` makes.
pub record IsFilled {ℓ} {A : Type ℓ} (p : Polynomial A) : Type 0 where
  pub filled : length p.coefficients ≡ p.size

module _ {ℓ} {A : Type ℓ} ⦃f : Field A⦄ where
  eval-resize_vec :
      (xs : List A) (n : ℕ) (z : A) → length xs ≤ n → eval (resize_vec xs n f.zero) z ≡ eval xs z
  eval-resize_vec [] n z h = eval-replicate_zero n z
  eval-resize_vec (x ∷ xs) zero z h = absurd (omega arith)
  eval-resize_vec (x ∷ xs) (suc n) z h = ap (λ t. x ⊕ z ⊗ t) (eval-resize_vec xs n z (omega arith))

  eval-merge_add :
      (xs ys : List A) (z : A)
      → length ys ≤ length xs
      → eval (merge (λ a b. a ⊕ b) xs ys) z ≡ eval xs z ⊕ eval ys z
  eval-merge_add xs [] z h = sym (add-zero (eval xs z))
  eval-merge_add [] (y ∷ ys) z h = absurd (omega arith)
  eval-merge_add (x ∷ xs) (y ∷ ys) z h =
      ap (λ t. (x ⊕ y) ⊕ z ⊗ t) (eval-merge_add xs ys z (omega arith))
      ∙ ap (λ t. (x ⊕ y) ⊕ t) (f.mul-add z _ _)
      ∙ add_interchange x y _ _

  eval-merge_sub :
      (xs ys : List A) (z : A)
      → length ys ≤ length xs
      → eval (merge (λ a b. a ⊖ b) xs ys) z ≡ eval xs z ⊖ eval ys z
  eval-merge_sub xs [] z h = sym (add-zero _) ∙ ap (λ t. eval xs z ⊕ t) (sym neg-zero)
  eval-merge_sub [] (y ∷ ys) z h = absurd (omega arith)
  eval-merge_sub (x ∷ xs) (y ∷ ys) z h =
      ap (λ t. (x ⊖ y) ⊕ z ⊗ t) (eval-merge_sub xs ys z (omega arith))
      ∙ ap (λ t. (x ⊖ y) ⊕ t) (mul-sub z _ _)
      ∙ add_interchange x (f.neg y) _ _
      ∙ ap (λ t. (x ⊕ z ⊗ eval xs z) ⊕ t) (sym (neg-add y _))

  -- The list that the loop starts from.
  padded : Polynomial A → Polynomial A → List A
  padded p q = if ltb p.size q.size then resize_vec p.coefficients q.size f.zero else p.coefficients

  length-padded :
      (p q : Polynomial A) → IsFilled p → IsFilled q → length (padded p q) ≡ max p.size q.size
  unfolding padded
  length-padded p q a b = ground (arith, length-resize_vec p.coefficients q.size f.zero)

  eval-padded :
      (p q : Polynomial A) (z : A)
      → IsFilled p
      → IsFilled q
      → eval (padded p q) z ≡ eval p.coefficients z
  unfolding padded
  eval-padded p q z a b = elim (Bool-cases (ltb p.size q.size)) [
    | inl e ↦
        rw e (
          eval-resize_vec p.coefficients q.size z (omega (arith, ltb→lt p.size q.size e, a.filled)))
    | inr e ↦ rw e refl
  ]

  combine_assign-merge :
      (op : A → A → A) (p q : Polynomial A)
      → IsFilled p
      → IsFilled q
      → combine_assign op p q
        ≡ ok (record { size = p.size; coefficients = merge op (padded p q) q.coefficients })
  unfolding combine_assign padded
  combine_assign-merge op p q a b = elim (Bool-cases (ltb p.size q.size)) [
    | inl e ↦ rw e (
        merged (resize_vec p.coefficients q.size f.zero)
          (omega (arith, b.filled, length-resize_vec p.coefficients q.size f.zero)))
    | inr e ↦
        rw e (merged p.coefficients (omega (arith, a.filled, b.filled, ltb-false p.size q.size e)))
  ]
    where
      merged :
          (cs : List A)
          → length q.coefficients ≤ length cs
          → ◌>>=◌ {B = Polynomial A}
              (update_each op q.size 0 cs q.coefficients)
              (λ r. ok (record { size = p.size; coefficients = r }))
            ≡ ok (record { size = p.size; coefficients = merge op cs q.coefficients })
      merged cs h = rw (← b.filled, update_each-merge op cs q.coefficients h)

  -- Both polynomials filled, `+=` succeeds, and the value of the result is the sum of the values at
  -- every point. Its coefficients are as many as those of the longer, and its size stays that of the
  -- left one.
  pub add_assign_lem :
      (p q : Polynomial A)
      → IsFilled p
      → IsFilled q
      → (r : Polynomial A) × (add_assign p q ≡ ok r)
        × ((z : A) → eval r.coefficients z ≡ eval p.coefficients z ⊕ eval q.coefficients z)
        × (length r.coefficients ≡ max p.size q.size)
        × (r.size ≡ p.size)
  unfolding add_assign
  add_assign_lem p q a b = (
    record { size = p.size; coefficients = merge (λ x y. x ⊕ y) (padded p q) q.coefficients },
    combine_assign-merge (λ x y. x ⊕ y) p q a b,
    λ z.
        eval-merge_add (padded p q) q.coefficients z
          (omega (arith, length-padded p q a b, b.filled))
        ∙ ap (λ t. t ⊕ eval q.coefficients z) (eval-padded p q z a b),
    length-merge _ (padded p q) q.coefficients ∙ length-padded p q a b,
    refl,
  )

  -- Likewise `-=` and the difference of the values.
  pub sub_assign_lem :
      (p q : Polynomial A)
      → IsFilled p
      → IsFilled q
      → (r : Polynomial A) × (sub_assign p q ≡ ok r)
        × ((z : A) → eval r.coefficients z ≡ eval p.coefficients z ⊖ eval q.coefficients z)
        × (length r.coefficients ≡ max p.size q.size)
        × (r.size ≡ p.size)
  unfolding sub_assign
  sub_assign_lem p q a b = (
    record { size = p.size; coefficients = merge (λ x y. x ⊖ y) (padded p q) q.coefficients },
    combine_assign-merge (λ x y. x ⊖ y) p q a b,
    λ z.
        eval-merge_sub (padded p q) q.coefficients z
          (omega (arith, length-padded p q a b, b.filled))
        ∙ ap (λ t. t ⊖ eval q.coefficients z) (eval-padded p q z a b),
    length-merge _ (padded p q) q.coefficients ∙ length-padded p q a b,
    refl,
  )

  -- On a filled polynomial `*=` succeeds and scales the value at every point. On one whose size is
  -- less than its coefficients it scales only as many of them as the size says.
  pub mul_assign_lem :
      (p : Polynomial A) (a : A)
      → p.size ≤ length p.coefficients
      → (r : Polynomial A) × (mul_assign p a ≡ ok r)
        × (r.coefficients
            ≡ map (λ c. c ⊗ a) (take p.size p.coefficients) ++ drop p.size p.coefficients)
        × (IsFilled p → (z : A) → eval r.coefficients z ≡ eval p.coefficients z ⊗ a)
  unfolding mul_assign
  mul_assign_lem p a h = (
    record {
      size = p.size;
      coefficients = map (λ c. c ⊗ a) (take p.size p.coefficients) ++ drop p.size p.coefficients;
    },
    rw (scale_each-map (λ c. c ⊗ a) p.size p.coefficients h),
    refl,
    λ w z.
        rw
          (
            take_all p.size p.coefficients (omega (arith, w.filled)),
            drop_all p.size p.coefficients (omega (arith, w.filled)),
            append-nil,
          )
          (eval-scale p.coefficients a z),
  )
