-- ===== src/Polynomials/Roots/Table.antt =====
-- The table that `compute_lookup_table_single` fills in.
use barustenberg.Prelude.{
  ℕ, zero, suc, fun_ext, false, ◌+◌, ◌-◌, ◌*◌, ◌/◌, ◌^◌, ◌<◌, ◌≤◌, ◌≡◌, refl, sym, ap, ap₂, ◌∙◌,
  List, [], ◌∷◌, ◌++◌, Outcome, ok, index, assign, ◌>>=◌, ◌==◌, length, arith, take, drop,
  length-append, append_assoc, length-take, length-drop, >>=_assoc, take-append-drop,
}
use barustenberg.Prelude.Slices.{assign-append, drop-append, take-append}
use native.Mathlib.Nat.{one-le-pow, pow-suc}
use barustenberg.Field.{Field, ◌⊗◌}
use barustenberg.Polynomials.Subgroup.{fill_subgroup}
use barustenberg.Polynomials.Subgroup.Members.{
  progression, length-progression, fill_subgroup-progression,
}
use barustenberg.Polynomials.Roots.{
  halvings, log2_floor, log2_ceil, last_of, push_starts, rounds_before_last, fill_round,
  fill_rounds, compute_lookup_table_single,
}

two : (n : ℕ) → 2 ^ suc n ≡ 2 * 2 ^ n
two n = omega (arith, pow-suc n 2)

le-pow-add : (i k : ℕ) → 2 ^ i ≤ 2 ^ (i + k)
le-pow-add i zero = le_of_eq (ap (λ n. 2 ^ n) {x = i} {y = i + 0} (omega arith))
  where
    le_of_eq : 2 ^ i ≡ 2 ^ (i + 0) → 2 ^ i ≤ 2 ^ (i + 0)
    le_of_eq e = omega (arith, e)
le-pow-add i (suc k) = omega (
  arith,
  le-pow-add i k,
  two (i + k),
  ap (λ n. 2 ^ n) {x = i + suc k} {y = suc (i + k)} (omega arith),
)

pub halvings-pow : (count s : ℕ) → s < count → halvings count (2 ^ s) ≡ s
unfolding halvings
halvings-pow zero s h = absurd (omega arith)
halvings-pow (suc count) zero h = refl
halvings-pow (suc count) (suc s) h =
    rw (halvings, nonzero (2 ^ suc s / 2) (omega (arith, half, one-le-pow s 2)))
      (ap (λ n. suc (halvings count n)) half ∙ ap suc (halvings-pow count s (omega arith)))
  where
    half : 2 ^ suc s / 2 ≡ 2 ^ s
    half = omega (arith, two s)

    nonzero : (n : ℕ) → 0 < n → (n == 0) ≡ false
    nonzero n h = ground arith

log2_ceil-pow : (s : ℕ) → s < 64 → log2_ceil (2 ^ s) ≡ s
unfolding log2_ceil log2_floor
log2_ceil-pow s h = rw (log2_ceil, log2_floor, halvings-pow 64 s h) (ground (arith, one-le-pow s 2))

-- Where the rounds start.
abbrev pub starts : (left i : ℕ) → List ℕ
starts zero i = []
starts (suc left) i = (2 ^ suc i - 2) ∷ starts left (suc i)

index-starts : (left i k : ℕ) → k < left → index (starts left i) k ≡ ok (2 ^ suc (i + k) - 2)
index-starts zero i k b = absurd (omega arith)
index-starts (suc left) i zero b = ap (λ n. ok (2 ^ suc n - 2)) {x = i} {y = i + 0} (omega arith)
index-starts (suc left) i (suc k) b =
    index-starts left (suc i) k (omega arith)
    ∙ ap (λ n. ok (2 ^ suc n - 2)) {x = suc i + k} {y = i + suc k} (omega arith)

last_of-append : (xs : List ℕ) (x : ℕ) → last_of (xs ++ (x ∷ [])) ≡ ok x
unfolding last_of
last_of-append [] x = refl
last_of-append (y ∷ []) x = refl
last_of-append (y ∷ z ∷ zs) x = last_of-append (z ∷ zs) x

push_starts-starts :
    (left i : ℕ) (pre : List ℕ)
    → push_starts left (suc i) (pre ++ ((2 ^ suc i - 2) ∷ [])) ≡ ok (pre ++ starts (suc left) i)
unfolding push_starts
push_starts-starts zero i pre = refl
push_starts-starts (suc left) i pre = rw (last_of-append pre (2 ^ suc i - 2)) (
    ap (λ n. push_starts left (suc (suc i)) ((pre ++ ((2 ^ suc i - 2) ∷ [])) ++ (n ∷ []))) next
    ∙ push_starts-starts left (suc i) (pre ++ ((2 ^ suc i - 2) ∷ []))
    ∙ ap ok (append_assoc pre ((2 ^ suc i - 2) ∷ []) (starts (suc left) (suc i))))
  where
    next : 2 ^ suc i - 2 + 2 ^ suc i ≡ 2 ^ suc (suc i) - 2
    next = omega (arith, one-le-pow (suc i) 2, two (suc i))

module _ {ℓ} {A : Type ℓ} ⦃f : Field A⦄ where
  fill_round-fill_subgroup :
      (r : A) (start left j : ℕ) (roots : List A)
      → fill_round r start left j roots ≡ fill_subgroup r left (start + j) roots
  unfolding fill_round fill_subgroup
  fill_round-fill_subgroup r start zero j roots = refl
  fill_round-fill_subgroup r start (suc left) j roots =
      ap
        (λ (k : List A → Outcome (List A)).
          index roots (start + j - 1) >>= λ before. assign roots (start + j) (before ⊗ r) >>= k)
        (fun_ext (λ roots'.
          fill_round-fill_subgroup r start left (suc j) roots'
          ∙ ap (λ n. fill_subgroup r left n roots') {x = start + suc j} {y = suc (start + j)}
              (omega arith)))

  -- A round writes its row behind what stands before it.
  one_round :
      (r : A) (n : ℕ) (pre rest : List A)
      → 0 < n
      → n ≤ length rest
      → (assign (pre ++ rest) (length pre) f.one >>= fill_round r (length pre) (n - 1) 1)
        ≡ ok (pre ++ (progression f.one r n ++ drop n rest))
  one_round r zero pre rest pos h = absurd (omega arith)
  one_round r (suc n) pre [] pos h = absurd (omega arith)
  one_round r (suc n) pre (x ∷ rest) pos h = rw (assign-append pre x rest (length pre) f.one refl) (
      fill_round-fill_subgroup r (length pre) (suc n - 1) 1 (pre ++ (f.one ∷ rest))
      ∙ ap₂ (λ k cs. fill_subgroup r k (length pre + 1) (pre ++ (f.one ∷ cs))) {x = suc n - 1}
          {y = length (take n rest)} (omega (arith, length-take n rest))
          (sym (take-append-drop n rest))
      ∙ fill_subgroup-progression r (length pre + 1) pre f.one (take n rest) (drop n rest) refl
      ∙ ap (λ k. ok (pre ++ (f.one ∷ (progression (f.one ⊗ r) r k ++ drop n rest))))
          {x = length (take n rest)} {y = n} (omega (arith, length-take n rest)))

  -- The row of a round: the powers of a root of unity of order twice their number.
  abbrev pub row : (input_root : A) (size i : ℕ) → List A
  row input_root size i = progression f.one (f.pow input_root (size / (2 * 2 ^ suc i))) (2 ^ suc i)

  next_rows :
      (input_root : A) (size left i : ℕ) (pre out : List A)
      → length pre ≡ 2 ^ suc i - 2
      → ((k : ℕ)
          → k < left
          → take
              (2 ^ suc (suc i + k))
              (drop (2 ^ suc (suc i + k) - 2) ((pre ++ row input_root size i) ++ out))
            ≡ row input_root size (suc i + k))
      → (k : ℕ) → k < suc left
      → take (2 ^ suc (i + k)) (drop (2 ^ suc (i + k) - 2) (pre ++ (row input_root size i ++ out)))
        ≡ row input_root size (i + k)
  next_rows input_root size left i pre out e each zero b =
      ap (λ n. take (2 ^ suc n) (drop (2 ^ suc n - 2) (pre ++ (row input_root size i ++ out))))
        {x = i + 0} {y = i} (omega arith)
      ∙ ap (take (2 ^ suc i))
          (drop-append pre (row input_root size i ++ out) (2 ^ suc i - 2) (sym e))
      ∙ take-append (row input_root size i) out (2 ^ suc i)
          (sym (length-progression f.one _ (2 ^ suc i)))
      ∙ ap (row input_root size) {x = i} {y = i + 0} (omega arith)
  next_rows input_root size left i pre out e each (suc k) b =
      ap₂ (λ n xs. take (2 ^ suc n) (drop (2 ^ suc n - 2) xs)) {x = i + suc k} {y = suc i + k}
        (omega arith) (sym (append_assoc pre (row input_root size i) out))
      ∙ each k (omega arith)
      ∙ ap (row input_root size) {x = suc i + k} {y = i + suc k} (omega arith)

  fill_rounds-rows :
      (input_root : A) (size left i : ℕ) (pre rest : List A)
      → length pre ≡ 2 ^ suc i - 2
      → 2 ^ suc (i + left) ≤ length pre + length rest + 2
      → (out : List A) × (fill_rounds input_root size left i (starts left i) (pre ++ rest)
          ≡ ok (pre ++ out))
        × (length out ≡ length rest)
        × ((k : ℕ)
            → k < left
            → take (2 ^ suc (i + k)) (drop (2 ^ suc (i + k) - 2) (pre ++ out))
              ≡ row input_root size (i + k))
  unfolding fill_rounds
  fill_rounds-rows input_root size zero i pre rest e h =
      (rest, refl, refl, λ k b. absurd (omega arith))
  fill_rounds-rows input_root size (suc left) i pre rest e h =
      let r : A = f.pow input_root (size / (2 * 2 ^ suc i)) in
      let this : List A = progression f.one r (2 ^ suc i) in
      let (out, run, len, each) =
        fill_rounds-rows input_root size left (suc i) (pre ++ this) (drop (2 ^ suc i) rest)
          (omega (arith, lengths, two (suc i), one-le-pow i 2, two i))
          (omega (
            arith,
            lengths,
            room,
            length-drop (2 ^ suc i) rest,
            ap (λ n. 2 ^ n) {x = suc (suc i + left)} {y = suc (i + suc left)} (omega arith),
          )) in
      (
        this ++ out,
        sym (
              >>=_assoc (assign (pre ++ rest) (2 ^ suc i - 2) f.one)
                (fill_round r (2 ^ suc i - 2) (2 ^ suc i - 1) 1)
                (λ roots2. fill_rounds input_root size left (suc i) (starts left (suc i)) roots2))
            ∙ ap
                (λ (m : Outcome (List A)). m >>= λ roots2.
                  fill_rounds input_root size left (suc i) (starts left (suc i)) roots2)
                (ap (λ n. assign (pre ++ rest) n f.one >>= fill_round r n (2 ^ suc i - 1) 1) (sym e)
                  ∙ one_round r (2 ^ suc i) pre rest (omega (arith, one-le-pow (suc i) 2)) room)
            ∙ ap (fill_rounds input_root size left (suc i) (starts left (suc i)))
                (sym (append_assoc pre this (drop (2 ^ suc i) rest)))
            ∙ run
            ∙ ap ok (append_assoc pre this out),
        omega (
          arith,
          length-append this out,
          length-progression f.one r (2 ^ suc i),
          len,
          length-drop (2 ^ suc i) rest,
          room,
        ),
        next_rows input_root size left i pre out e each,
      )
    where
      lengths :
          length (pre ++ progression f.one (f.pow input_root (size / (2 * 2 ^ suc i))) (2 ^ suc i))
          ≡ length pre + 2 ^ suc i
      lengths = omega (
        arith,
        length-append pre
            (progression f.one (f.pow input_root (size / (2 * 2 ^ suc i))) (2 ^ suc i)),
        length-progression f.one (f.pow input_root (size / (2 * 2 ^ suc i))) (2 ^ suc i),
      )

      room : 2 ^ suc i ≤ length rest
      room = omega (
        arith,
        e,
        h,
        le-pow-add (suc (suc i)) left,
        two (suc i),
        one-le-pow (suc i) 2,
        ap (λ n. 2 ^ n) {x = suc (suc i) + left} {y = suc (i + suc left)} (omega arith),
      )

  -- For `2 ^ (r + 2)` points, fewer than `2 ^ 64`, and as many places for roots, the table gets a row for
  -- each round but the last, behind one another: the row of the round `k` starts at `2 ^ (k + 1) - 2` and
  -- holds the `2 ^ (k + 1)` first powers of the root to the number of points over twice as many.
  pub compute_lookup_table_single_lem :
      (input_root : A) (r : ℕ) (roots : List A)
      → suc (suc r) < 64
      → length roots ≡ 2 ^ suc (suc r)
      → (roots' : List A) × (compute_lookup_table_single input_root (2 ^ suc (suc r)) roots []
          ≡ ok (roots', starts (suc r) 0))
        × (length roots' ≡ 2 ^ suc (suc r))
        × ((k : ℕ)
            → k < suc r
            → (index (starts (suc r) 0) k ≡ ok (2 ^ suc k - 2))
              × (take (2 ^ suc k) (drop (2 ^ suc k - 2) roots')
                  ≡ progression f.one
                      (f.pow input_root (2 ^ suc (suc r) / (2 * 2 ^ suc k)))
                      (2 ^ suc k)))
  unfolding compute_lookup_table_single rounds_before_last
  compute_lookup_table_single_lem input_root r roots h len =
      let (out, run, length_out, each) =
        fill_rounds-rows input_root (2 ^ suc (suc r)) (suc r) 0 [] roots refl (
          omega (
            arith,
            len,
            ap (λ n. 2 ^ n) {x = suc (0 + (suc r))} {y = suc (suc r)} (omega arith),
          )) in
      (
        out,
        rw (log2_ceil-pow (suc (suc r)) h) (
            ap
              (λ n. push_starts n 1 (0 ∷ []) >>= λ ss.
                fill_rounds input_root (2 ^ suc (suc r)) (suc r) 0 ss roots >>= λ roots'.
                ok (roots', ss))
              {x = suc r - 1} {y = r} (omega arith)
            ∙ rw (push_starts-starts r 0 []) (rw run refl)),
        length_out ∙ len,
        λ k b. (
          index-starts (suc r) 0 k b
              ∙ ap (λ n. ok (2 ^ suc n - 2)) {x = 0 + k} {y = k} (omega arith),
          ap (λ n. take (2 ^ suc n) (drop (2 ^ suc n - 2) out)) {x = k} {y = 0 + k} (omega arith)
              ∙ each k b
              ∙ ap (row input_root (2 ^ suc (suc r))) {x = 0 + k} {y = k} (omega arith),
        ),
      )
