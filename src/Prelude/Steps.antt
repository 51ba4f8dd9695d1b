-- ===== src/Prelude/Steps.antt =====
-- Steps that keep an invariant, and loops of which one round panics.
use Prim.Native.Nat.{ℕ, zero, suc, ◌+◌, ◌*◌, ◌≤◌, ◌<◌}
use mathlib.Core.Path.{◌≡◌, refl, sym, ap, ◌∙◌, subst}
use mathlib.Core.Logic.{◌≢◌}
use mathlib.Core.List.{List, [], ◌∷◌}
use native.Mathlib.Omega.{arith}
use native.Mathlib.Decide.{ℕ_discrete}
use barustenberg.Prelude.Lists.{length}
use barustenberg.Prelude.Outcomes.{
  Outcome, ok, err, panic, index, assign, ◌>>=◌, for_range, for_step,
}
use barustenberg.Prelude.Failures.{assign-ne_err}

pub index-out {ℓ} : {A : Type ℓ} (xs : List A) (i : ℕ) → length xs ≤ i → index xs i ≡ panic
index-out [] i h = refl
index-out (x ∷ xs) zero h = absurd (omega arith)
index-out (x ∷ xs) (suc i) h = index-out xs i (omega arith)

-- A step that has no `Err`, and keeps `P` if it succeeds.
abbrev pub Holds {ℓ} : {S : Type ℓ} → (S → Type 0) → Outcome S → Type ℓ
Holds {S} P m = (m ≢ err) × ((t : S) → m ≡ ok t → P t)

abbrev pub HasLength {ℓ} : {A : Type ℓ} → ℕ → List A → Type 0
HasLength n t = length t ≡ n

module _ {ℓ} {S : Type ℓ} (P : S → Type 0) where
  pub ok-Holds : (t : S) → P t → Holds P (ok t)
  ok-Holds t h = ((λ e. cc e), λ t' e. subst P (cc e) h)

  pub panic-Holds : Holds P panic
  panic-Holds = ((λ e. cc e), λ t e. cc e)

  pub bind-Holds {κ} :
      {R : Type κ} (Q : R → Type 0) (m : Outcome R) (k : R → Outcome S)
      → Holds Q m
      → ((t : R) → Q t → Holds P (k t))
      → Holds P (m >>= k)
  bind-Holds Q (ok t) k (h, g) next = next t (g t refl)
  bind-Holds Q err k (h, g) next = absurd (h refl)
  bind-Holds Q panic k h next = panic-Holds

  pub safe-Holds {κ} :
      {R : Type κ} (m : Outcome R) (k : R → Outcome S)
      → m ≢ err
      → ((t : R) → Holds P (k t))
      → Holds P (m >>= k)
  safe-Holds m k h next = bind-Holds (λ t. Unit) m k (h, λ t e. tt) (λ t u. next t)

  pub for_range-Holds :
      (body : ℕ → S → Outcome S) (count start : ℕ) (t : S)
      → ((i : ℕ) (t : S) → P t → Holds P (body i t))
      → P t
      → Holds P (for_range count start body t)
  unfolding for_range
  for_range-Holds body zero start t h e = ok-Holds t e
  for_range-Holds body (suc count) start t h e =
      bind-Holds P (body start t) _ (h start t e)
        (λ t' e'. for_range-Holds body count (suc start) t' h e')

  pub for_step-Holds :
      (step : ℕ) (body : ℕ → S → Outcome S) (count start : ℕ) (t : S)
      → ((i : ℕ) (t : S) → P t → Holds P (body i t))
      → P t
      → Holds P (for_step step count start body t)
  unfolding for_step
  for_step-Holds step body zero start t h e = ok-Holds t e
  for_step-Holds step body (suc count) start t h e =
      bind-Holds P (body start t) _ (h start t e)
        (λ t' e'. for_step-Holds step body count (start + step) t' h e')

  -- Then a panic of what follows is a panic of the whole.
  pub Holds-panic {κ} :
      {R : Type κ} (m : Outcome S) (k : S → Outcome R)
      → Holds P m
      → ((t : S) → P t → k t ≡ panic)
      → (m >>= k) ≡ panic
  Holds-panic (ok t) k (h, g) next = next t (g t refl)
  Holds-panic err k (h, g) next = absurd (h refl)
  Holds-panic panic k h next = refl

  pub for_range-panic :
      (body : ℕ → S → Outcome S) (x count start : ℕ) (t : S)
      → ((i : ℕ) (t : S) → P t → Holds P (body i t))
      → ((t : S) → P t → body x t ≡ panic)
      → start ≤ x
      → x < start + count
      → P t
      → for_range count start body t ≡ panic
  unfolding for_range
  for_range-panic body x zero start t h g lo hi e = absurd (omega arith)
  for_range-panic body x (suc count) start t h g lo hi e = elim (ℕ_discrete start x) [
    | yes q ↦
        ap (λ i. body i t >>= for_range count (suc start) body) q
        ∙ ap (λ m. m >>= for_range count (suc start) body) (g t e)
    | no q ↦ Holds-panic (body start t) _ (h start t e) (λ t' e'.
        for_range-panic body x count (suc start) t' h g (omega (arith, q)) (omega arith) e')
  ]

  pub for_step-panic :
      (body : ℕ → S → Outcome S) (x count start : ℕ) (t : S)
      → ((i : ℕ) (t : S) → P t → Holds P (body i t))
      → ((t : S) → P t → body x t ≡ panic)
      → (r : ℕ) → start + 2 * r ≡ x
      → r < count
      → P t
      → for_step 2 count start body t ≡ panic
  unfolding for_step
  for_step-panic body x zero start t h g r at b e = absurd (omega arith)
  for_step-panic body x (suc count) start t h g zero at b e =
      ap (λ i. body i t >>= for_step 2 count (start + 2) body) {x = start} {y = x} (omega arith)
      ∙ ap (λ m. m >>= for_step 2 count (start + 2) body) (g t e)
  for_step-panic body x (suc count) start t h g (suc r) at b e =
      Holds-panic (body start t) _ (h start t e)
        (λ t' e'. for_step-panic body x count (start + 2) t' h g r (omega arith) (omega arith) e')

module _ {ℓ} {A : Type ℓ} where
  pub length-assign :
      (xs : List A) (i : ℕ) (v : A) (ys : List A) → assign xs i v ≡ ok ys → length ys ≡ length xs
  length-assign [] i v ys e = cc e
  length-assign (x ∷ xs) zero v ys e = sym (ap length {x = v ∷ xs} {y = ys} (cc e))
  length-assign (x ∷ xs) (suc i) v ys e =
      by_rest (assign xs i v) (λ rest q. length-assign xs i v rest q) e
    where
      by_rest :
          (m : Outcome (List A))
          → ((rest : List A) → m ≡ ok rest → length rest ≡ length xs)
          → (m >>= λ rest. ok (x ∷ rest)) ≡ ok ys
          → length ys ≡ suc (length xs)
      by_rest (ok rest) q e = sym (ap length {x = x ∷ rest} {y = ys} (cc e)) ∙ ap suc (q rest refl)
      by_rest err q e = cc e
      by_rest panic q e = cc e

  pub assign-HasLength :
      (n : ℕ) (t : List A) (i : ℕ) (v : A) → length t ≡ n → Holds (HasLength n) (assign t i v)
  assign-HasLength n t i v h = (assign-ne_err t i v, λ t' e. length-assign t i v t' e ∙ h)
