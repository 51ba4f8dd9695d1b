-- ===== src/Composer/Classes.antt =====
-- `get_first_variable_in_class` and `update_real_variable_indices` follow the links of a class to
-- its end, and what the second does to `get_variable`.
use barustenberg.Prelude.{
  ℕ, zero, suc, ◌<◌, ◌^◌, ◌%◌, ◌≡◌, ◌≢◌, refl, sym, ap, ◌∙◌, List, [], ◌∷◌, ok, index, length,
  arith, some, true, false, set, length-set, ◌==◌, subst, ℕ_discrete, ==_iff, lt→ltb,
}
use barustenberg.Prelude.Slices.{assign-set, index-set_self, index-set_ne, AllBelow, AllBelow-set}
use barustenberg.Composer.{
  ComposerBase, first_variable_in_class, real_variable, first_from, get_first_variable_in_class,
  relabel, update_real_variable_indices, get_variable, is_not_among,
}

-- The links from `cur` lead through `js`, and the last of them holds the end mark.
abbrev pub IsChain : (links : List ℕ) (mark cur : ℕ) → List ℕ → Type 0
IsChain links mark cur [] = index links cur ≡ ok mark
IsChain links mark cur (j ∷ js) = (index links cur ≡ ok j) × (j ≢ mark) × IsChain links mark j js

abbrev pub end_of : ℕ → List ℕ → ℕ
end_of cur [] = cur
end_of cur (j ∷ js) = end_of j js

differs : (a b : ℕ) → a ≢ b → (a == b) ≡ false
differs a b h = ground arith

first_from-chain :
    (fuel : ℕ) (prev : List ℕ) (i : ℕ) (js : List ℕ)
    → IsChain prev first_variable_in_class i js
    → length js < fuel
    → first_from fuel prev i ≡ some (ok (end_of i js))
unfolding first_from
first_from-chain zero prev i js c h = absurd (omega arith)
first_from-chain (suc fuel) prev i [] c h = rw (first_from, c) refl
first_from-chain (suc fuel) prev i (j ∷ js) (e, n, c) h =
    rw (first_from, e, differs j first_variable_in_class n)
      (first_from-chain fuel prev j js c (omega arith))

-- From a variable whose links back end in the mark of a first variable, the search returns the end of
-- the links, with more fuel than there are links.
pub get_first_variable_in_class_lem {ℓ} :
    {A : Type ℓ} (fuel : ℕ) (c : ComposerBase A) (i : ℕ) (js : List ℕ)
    → i < 2 ^ 32
    → IsChain c.prev_var_index first_variable_in_class i js
    → length js < fuel
    → get_first_variable_in_class fuel c i ≡ some (ok (end_of i js))
unfolding get_first_variable_in_class
get_first_variable_in_class_lem fuel c i js b ch h =
    ap (first_from fuel c.prev_var_index) {x = i % 2 ^ 32} {y = i} (omega arith)
    ∙ first_from-chain fuel c.prev_var_index i js ch h

-- What the second loop leaves in `real_variable_index`.
abbrev pub write_all : List ℕ → ℕ → List ℕ → List ℕ
write_all [] v real = real
write_all (k ∷ ks) v real = write_all ks v (set real k v)

pub length-write_all :
    (ks : List ℕ) (v : ℕ) (real : List ℕ) → length (write_all ks v real) ≡ length real
length-write_all [] v real = refl
length-write_all (k ∷ ks) v real = length-write_all ks v (set real k v) ∙ length-set real k v

pub AllBelow-write_all :
    (n : ℕ) (ks : List ℕ) (v : ℕ) (real : List ℕ)
    → v < n
    → AllBelow n real
    → AllBelow n (write_all ks v real)
AllBelow-write_all n [] v real h a = a
AllBelow-write_all n (k ∷ ks) v real h a =
    AllBelow-write_all n ks v (set real k v) h (AllBelow-set n real k v h a)

pub relabel-chain :
    (fuel : ℕ) (next : List ℕ) (i : ℕ) (js : List ℕ) (v : ℕ) (real : List ℕ)
    → IsChain next real_variable i js
    → AllBelow (length real) (i ∷ js)
    → length js < fuel
    → relabel fuel next i v real ≡ some (ok (write_all (i ∷ js) v real))
unfolding relabel
relabel-chain zero next i js v real c a h = absurd (omega arith)
relabel-chain (suc fuel) next i [] v real c (b, a) h =
    rw (relabel, assign-set real i v b) (rw c refl)
relabel-chain (suc fuel) next i (j ∷ js) v real (e, n, c) (b, a) h =
    rw (relabel, assign-set real i v b)
      (rw (e, differs j real_variable n)
        (relabel-chain fuel next j js v (set real i v) c
          (subst (λ k. AllBelow k (j ∷ js)) (sym (length-set real i v)) a) (omega arith)))

-- Once written, an entry keeps the value.
kept :
    (ks : List ℕ) (v : ℕ) (real : List ℕ) (k : ℕ)
    → AllBelow (length real) ks
    → index real k ≡ ok v
    → index (write_all ks v real) k ≡ ok v
kept [] v real k a h = h
kept (j ∷ ks) v real k (b, a) h =
    kept ks v (set real j v) k (subst (λ n. AllBelow n ks) (sym (length-set real j v)) a) now
  where
    now : index (set real j v) k ≡ ok v
    now = elim (ℕ_discrete j k) [
      | yes e ↦ ap (index (set real j v)) (sym e) ∙ index-set_self real j v b
      | no n ↦ index-set_ne real j k v n ∙ h
    ]

write_all-member :
    (ks : List ℕ) (v : ℕ) (real : List ℕ) (k : ℕ)
    → AllBelow (length real) ks
    → is_not_among k ks ≡ false
    → index (write_all ks v real) k ≡ ok v
unfolding is_not_among
write_all-member [] v real k a h = cc
write_all-member (j ∷ ks) v real k (b, a) h = elim (ℕ_discrete j k) [
  | yes e ↦
      kept ks v (set real j v) k a' (ap (index (set real j v)) (sym e) ∙ index-set_self real j v b)
  | no n ↦ write_all-member ks v (set real j v) k a' (ground (arith, differs j k n))
]
  where
    a' : AllBelow (length (set real j v)) ks
    a' = subst (λ n. AllBelow n ks) (sym (length-set real j v)) a

write_all-other :
    (ks : List ℕ) (v : ℕ) (real : List ℕ) (k : ℕ)
    → is_not_among k ks ≡ true
    → index (write_all ks v real) k ≡ index real k
unfolding is_not_among
write_all-other [] v real k h = refl
write_all-other (j ∷ ks) v real k h = elim (ℕ_discrete j k) [
  | yes e ↦ absurd (ground (arith, (==_iff j k).1 e))
  | no n ↦
      write_all-other ks v (set real j v) k (ground (arith, differs j k n))
      ∙ index-set_ne real j k v n
]

member-below : (n : ℕ) (ks : List ℕ) (k : ℕ) → AllBelow n ks → is_not_among k ks ≡ false → k < n
unfolding is_not_among
member-below n [] k a h = cc
member-below n (j ∷ ks) k (b, a) h = elim (ℕ_discrete j k) [
  | yes e ↦ omega arith
  | no d ↦ member-below n ks k a (ground (arith, differs j k d))
]

-- On a variable whose forward links end in the mark of a real variable, with every variable of the
-- chain in range and more fuel than there are links, `update_real_variable_indices` returns. Afterwards
-- each variable of the chain reads as the new representative, and any other reads as before.
pub update_real_variable_indices_lem {ℓ} :
    {A : Type ℓ} (fuel : ℕ) (c : ComposerBase A) (i v : ℕ) (js : List ℕ)
    → length c.real_variable_index ≡ length c.variables
    → IsChain c.next_var_index real_variable i js
    → AllBelow (length c.variables) (i ∷ js)
    → length js < fuel
    → (c' : ComposerBase A) × (update_real_variable_indices fuel c i v ≡ some (ok c'))
      × ((k : ℕ) → is_not_among k (i ∷ js) ≡ false → get_variable c' k ≡ index c.variables v)
      × ((k : ℕ) → is_not_among k (i ∷ js) ≡ true → get_variable c' k ≡ get_variable c k)
unfolding update_real_variable_indices get_variable
update_real_variable_indices_lem {A = A} fuel c i v js len ch a h = (
  record c { real_variable_index = write_all (i ∷ js) v c.real_variable_index },
  rw
      (
        update_real_variable_indices,
        relabel-chain fuel c.next_var_index i js v c.real_variable_index ch a' h,
      )
      refl,
  λ k m.
      rw (lt→ltb k (length c.variables) (member-below (length c.variables) (i ∷ js) k a m))
        (rw (write_all-member (i ∷ js) v c.real_variable_index k a' m) refl),
  λ k m. rw (write_all-other (i ∷ js) v c.real_variable_index k m) refl,
)
  where
    a' : AllBelow (length c.real_variable_index) (i ∷ js)
    a' = subst (λ n. AllBelow n (i ∷ js)) (sym len) a
