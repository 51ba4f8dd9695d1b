-- ===== src/Storage.antt =====
-- barustenberg/src/proof_system/polynomial_store.rs: polynomials by name, behind shared pointers.
-- A pointer is the place of its cell in the heap.
pub mod Handles
mod Tests
use Prim.Native.String.{String}
use barustenberg.Prelude.{
  ℕ, zero, suc, ◌+◌, ◌*◌, List, [], ◌∷◌, ◌++◌, Outcome, ok, err, index, ◌>>=◌, Option, none, some,
  length, Bool, true, false, if◌then◌else◌,
}
use barustenberg.Prelude.Maps.{lookup, insert, erase}
use barustenberg.Polynomials.{Polynomial}

pub record PolynomialStore {ℓ} (A : Type ℓ) : Type ℓ where
  pub polynomial_map : List (String × ℕ)
  pub heap : List (Polynomial A)

module _ {ℓ} {A : Type ℓ} where
  pub empty_store : PolynomialStore A
  empty_store = record { polynomial_map = []; heap = [] }

  -- `insert` has the same body. The polynomial gets a new cell.
  unfoldable pub put : String → Polynomial A → PolynomialStore A → PolynomialStore A
  put name polynomial s = record {
    polynomial_map = insert name (length s.heap) s.polynomial_map;
    heap = s.heap ++ (polynomial ∷ []);
  }

  unfoldable pub get : PolynomialStore A → String → Outcome ℕ
  get s key = elim (lookup key s.polynomial_map) [ none ↦ err | some cell ↦ ok cell ]

  -- `is_shared` says of which cells some other owner holds a pointer. The entry is taken out of the
  -- map before `Rc::try_unwrap` looks at the owners.
  pub remove :
      (is_shared : ℕ → Bool)
      → String
      → PolynomialStore A
      → Outcome (Polynomial A) × PolynomialStore A
  remove is_shared key s =
      let s' = record s { polynomial_map = erase key s.polynomial_map } in
      elim (lookup key s.polynomial_map) [
        | none ↦ (err, s')
        | some cell ↦ (if is_shared cell then err else index s.heap cell, s')
      ]

  pub contains : PolynomialStore A → String → Bool
  contains s key = elim (lookup key s.polynomial_map) [ none ↦ false | some _ ↦ true ]

  -- What a pointer reads.
  unfoldable pub deref : PolynomialStore A → ℕ → Outcome (Polynomial A)
  deref s cell = index s.heap cell
