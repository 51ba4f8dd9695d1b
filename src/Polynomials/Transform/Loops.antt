-- ===== src/Polynomials/Transform/Loops.antt =====
-- The three loops of `partial_fft_serial_inner`, from the inside out.
use barustenberg.Prelude.{
  ℕ, zero, suc, ◌+◌, ◌-◌, ◌*◌, ◌%◌, ◌^◌, ◌<◌, ◌≤◌, ◌≡◌, ◌≢◌, refl, sym, ap, ◌∙◌, List, Outcome, ok,
  index, assign, ◌>>=◌, bit_and, length, arith, get_or, set, length-set, ℕ_discrete,
}
use barustenberg.Prelude.Masks.{bit_and-mask}
use barustenberg.Prelude.Failures.{index-lt}
use barustenberg.Prelude.Slices.{index-get_or, assign-set, index-set_self, index-set_ne}
use native.Mathlib.Nat.{mod-lt, one-le-pow}
use barustenberg.Field.{Field, ◌⊕◌, ◌⊗◌}
use barustenberg.Polynomials.Transform.{Fold, root_sign, add_quarters, fill_outputs, fill_points}
use barustenberg.Polynomials.Transform.Partial.{
  place, place-lt, place-injective_point, place-injective_output, quarter, output, signed_root,
}

module _ {ℓ} {A : Type ℓ} ⦃f : Field A⦄ where
  -- What the loops are given for `2 ^ (k + 1)` points.
  pub record IsFold (w : A) (k : ℕ) (e : Fold A) (coeffs : List A) : Type ℓ where
    pub full : e.full_mask ≡ 2 ^ suc k - 1
    pub half : e.half_mask ≡ 2 ^ k - 1
    pub middle : e.m ≡ 2 ^ k
    pub four : 4 * e.n ≡ 2 ^ suc k
    pub roots : (t : ℕ) → t < 2 ^ k → index e.round_roots t ≡ ok (f.pow w t)
    pub minus_one : f.pow w (2 ^ k) ≡ f.neg f.one
    pub enough : 2 ^ suc k ≤ length coeffs

-- One place gets a value, and the others keep theirs.
record Writes {ℓ} {A : Type ℓ} (before after : List A) (at : ℕ) (v : A) : Type ℓ where
  same_length : length after ≡ length before
  written : index after at ≡ ok v
  kept : (q : ℕ) → at ≢ q → index after q ≡ index before q

set-Writes {ℓ} :
    {A : Type ℓ} (xs : List A) (at : ℕ) (v : A) → at < length xs → Writes xs (set xs at v) at v
set-Writes xs at v h = record {
  same_length = length-set xs at v;
  written = index-set_self xs at v h;
  kept = λ q n. index-set_ne xs at q v n;
}

quarter-lt : (n i j : ℕ) → j < 4 → i < n → i + j * n < 4 * n
quarter-lt n i zero h b = omega arith
quarter-lt n i (suc zero) h b = omega arith
quarter-lt n i (suc (suc zero)) h b = omega arith
quarter-lt n i (suc (suc (suc zero))) h b = omega arith
quarter-lt n i (suc (suc (suc (suc j)))) h b = absurd (omega arith)

module _ {ℓ} {A : Type ℓ} ⦃f : Field A⦄ (w : A) (k : ℕ) (e : Fold A) (coeffs : List A)
    (g : IsFold w k e coeffs) where
  -- What the loop over `j` adds up.
  abbrev sum_from : (s i : ℕ) (acc : A) (left j : ℕ) → A
  sum_from s i acc zero j = acc
  sum_from s i acc (suc left) j = sum_from s i (acc ⊕ quarter w coeffs e.n s i j) left (suc j)

  one_quarter :
      (i s j : ℕ) (target : List A) (acc : A) (k' : List A → Outcome (List A))
      → i < e.n
      → j < 4
      → index target (place e.n s i) ≡ ok acc
      → (index target (place e.n s i) >>= λ before. index coeffs (i + j * e.n) >>= λ c.
          index e.round_roots (bit_and (bit_and ((i + j * e.n) * (s + 1)) e.full_mask) e.half_mask)
          >>= λ r.
              assign target
                (place e.n s i)
                (before ⊕ (root_sign (bit_and ((i + j * e.n) * (s + 1)) e.full_mask) e.m ⊗ c) ⊗ r)
              >>= k')
        ≡ k' (set target (place e.n s i) (acc ⊕ quarter w coeffs e.n s i j))
  one_quarter i s j target acc k' b h at =
      rw
        (
          at,
          index-get_or coeffs (i + j * e.n) f.zero
              (omega (arith, quarter-lt e.n i j h b, g.four, g.enough)),
          g.full,
          g.half,
          g.middle,
        )
        (rw
          (
            bit_and-mask (suc k) t,
            bit_and-mask k (t % 2 ^ suc k),
            g.roots (t % 2 ^ suc k % 2 ^ k) (mod-lt (t % 2 ^ suc k) (one-le-pow k 2 (omega arith))),
          )
          (rw (signed_root w c k t g.minus_one) (
            rw
              (assign-set target (place e.n s i) (acc ⊕ quarter w coeffs e.n s i j)
                (index-lt target (place e.n s i) at))
              refl)))
    where
      t : ℕ
      t = (i + j * e.n) * (s + 1)

      c : A
      c = get_or coeffs (i + j * e.n) f.zero

  add_quarters-Writes :
      (i s left j : ℕ) (target : List A) (acc : A)
      → i < e.n
      → j + left ≤ 4
      → index target (place e.n s i) ≡ ok acc
      → (target' : List A) × (add_quarters e coeffs i s left j target ≡ ok target')
        × Writes target target' (place e.n s i) (sum_from s i acc left j)
  unfolding add_quarters
  add_quarters-Writes i s zero j target acc b h at =
      (target, refl, record { same_length = refl; written = at; kept = λ q n. refl })
  add_quarters-Writes i s (suc left) j target acc b h at =
      let v : A = acc ⊕ quarter w coeffs e.n s i j in
      let first : Writes target (set target (place e.n s i) v) (place e.n s i) v =
        set-Writes target (place e.n s i) v (index-lt target (place e.n s i) at) in
      let (target', run, rest) =
        add_quarters-Writes i s left (suc j) (set target (place e.n s i) v) v b (omega arith)
          first.written in
      (
        target',
        one_quarter i s j target acc (add_quarters e coeffs i s left (suc j)) b (omega arith) at
            ∙ run,
        record {
          same_length = rest.same_length ∙ first.same_length;
          written = rest.written;
          kept = λ q n. rest.kept q n ∙ first.kept q n;
        },
      )

  -- The outputs from `s` on of a point are written, and nothing else.
  fill_outputs-written :
      (i left s : ℕ) (target : List A)
      → i < e.n
      → s + left ≡ 4
      → 4 * e.n ≤ length target
      → (target' : List A) × (fill_outputs e coeffs i left s target ≡ ok target')
        × (length target' ≡ length target)
        × ((s' : ℕ)
            → s ≤ s'
            → s' < 4
            → index target' (place e.n s' i) ≡ ok (output w coeffs e.n s' i))
        × ((q : ℕ)
            → ((s' : ℕ) → s ≤ s' → s' < 4 → place e.n s' i ≢ q)
            → index target' q ≡ index target q)
  unfolding fill_outputs
  fill_outputs-written i zero s target b h few =
      (target, refl, refl, (λ s' l l'. absurd (omega arith)), λ q n. refl)
  fill_outputs-written i (suc left) s target b h few =
      let zeroed : List A = set target (place e.n s i) f.zero in
      let below : place e.n s i < length target = omega (arith, place-lt e.n s i (omega arith) b) in
      let (target2, run2, adds) =
        add_quarters-Writes i s 4 0 zeroed f.zero b (omega arith)
          (index-set_self target (place e.n s i) f.zero below) in
      let same : length target2 ≡ length target =
        adds.same_length ∙ length-set target (place e.n s i) f.zero in
      let (target3, run3, len, outs, keep) =
        fill_outputs-written i left (suc s) target2 b (omega arith) (omega (arith, same)) in
      (
        target3,
        rw (assign-set target (place e.n s i) f.zero below) (rw run2 run3),
        len ∙ same,
        λ s' l l'. elim (ℕ_discrete s s') [
          | yes q ↦
              ap (λ o. index target3 (place e.n o i)) (sym q)
              ∙ keep (place e.n s i) (λ o m m' q'.
                omega (arith, place-injective_output e.n o s i b m' (omega arith) q'))
              ∙ adds.written
              ∙ ap
                  (λ x. ok (
                    x
                    ⊕ quarter w coeffs e.n s i 1
                    ⊕ quarter w coeffs e.n s i 2
                    ⊕ quarter w coeffs e.n s i 3))
                  (f.zero-add (quarter w coeffs e.n s i 0))
              ∙ ap (λ o. ok (output w coeffs e.n o i)) q
          | no q ↦ outs s' (omega arith) l'
        ],
        λ q n.
            keep q (λ s' l l'. n s' (omega arith) l')
            ∙ adds.kept q (n s (omega arith) (omega arith))
            ∙ index-set_ne target (place e.n s i) q f.zero (n s (omega arith) (omega arith)),
      )

  -- The outputs of the points from `i` on are written, those of the points before are kept.
  pub fill_points-written :
      (left i : ℕ) (target : List A)
      → i + left ≡ e.n
      → 4 * e.n ≤ length target
      → (target' : List A) × (fill_points e coeffs left i target ≡ ok target')
        × (length target' ≡ length target)
        × ((s i' : ℕ)
            → s < 4
            → i ≤ i'
            → i' < e.n
            → index target' (place e.n s i') ≡ ok (output w coeffs e.n s i'))
        × ((q : ℕ)
            → ((s i' : ℕ) → s < 4 → i ≤ i' → i' < e.n → place e.n s i' ≢ q)
            → index target' q ≡ index target q)
  unfolding fill_points
  fill_points-written zero i target h few =
      (target, refl, refl, (λ s i' l m m'. absurd (omega arith)), λ q n. refl)
  fill_points-written (suc left) i target h few =
      let (target2, run2, len2, outs2, keep2) =
        fill_outputs-written i 4 0 target (omega arith) refl few in
      let (target3, run3, len3, outs3, keep3) =
        fill_points-written left (suc i) target2 (omega arith) (omega (arith, len2)) in
      (
        target3,
        rw run2 run3,
        len3 ∙ len2,
        λ s i' l m m'. elim (ℕ_discrete i i') [
          | yes q ↦
              ap (λ o. index target3 (place e.n s o)) (sym q)
              ∙ keep3 (place e.n s i) (λ s' o l' n n' q'.
                omega (arith, place-injective_point e.n s' s o i n' (omega arith) q'))
              ∙ outs2 s (omega arith) l
              ∙ ap (λ o. ok (output w coeffs e.n s o)) q
          | no q ↦ outs3 s i' l (omega arith) m'
        ],
        λ q n.
            keep3 q (λ s i' l m m'. n s i' l (omega arith) m')
            ∙ keep2 q (λ s m m'. n s i m' (omega arith) (omega arith)),
      )
