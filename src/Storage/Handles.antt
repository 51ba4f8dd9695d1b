-- ===== src/Storage/Handles.antt =====
-- What names and pointers read after `put` and `remove`.
use Prim.Native.String.{String}
use barustenberg.Prelude.{
  ℕ, ◌<◌, ◌≡◌, ◌≢◌, refl, [], ◌∷◌, ok, err, ◌>>=◌, some, length, Bool, true, false, arith,
  length-append,
}
use barustenberg.Prelude.Slices.{index-append, index-append_left}
use barustenberg.Prelude.Maps.{
  lookup, lookup-insert_self, lookup-insert_ne, lookup-erase_self, lookup-erase_ne,
}
use barustenberg.Polynomials.{Polynomial}
use barustenberg.Storage.{PolynomialStore, put, get, remove, deref}

module _ {ℓ} {A : Type ℓ} where
  found :
      (key : String) (s : PolynomialStore A) (cell : ℕ)
      → get s key ≡ ok cell
      → lookup key s.polynomial_map ≡ some cell
  unfolding get
  found key s cell h = ground (arith, h)

  -- Every name points to a cell of the heap.
  pub record IsAllocated (s : PolynomialStore A) : Type 0 where
    pub allocated :
        (key : String) (cell : ℕ) → lookup key s.polynomial_map ≡ some cell → cell < length s.heap

  -- `put` keeps every name allocated. The name then reads the new polynomial, the other names keep
  -- their cells, and a pointer obtained before reads what it read.
  pub put_lem :
      (name : String) (p : Polynomial A) (s : PolynomialStore A)
      → IsAllocated s
      → IsAllocated (put name p s)
        × ((get (put name p s) name >>= deref (put name p s)) ≡ ok p)
        × ((other : String) → name ≢ other → get (put name p s) other ≡ get s other)
        × ((cell : ℕ) → cell < length s.heap → deref (put name p s) cell ≡ deref s cell)
  unfolding put get deref
  put_lem name p s w = (
    record {
      allocated = λ key cell h. ground (arith, w.allocated key cell, length-append s.heap (p ∷ []));
    },
    rw (get, lookup-insert_self name (length s.heap) s.polynomial_map)
        (index-append s.heap p [] (length s.heap) refl),
    λ other h. rw (get, lookup-insert_ne other name (length s.heap) s.polynomial_map h) refl,
    λ cell h. index-append_left s.heap (p ∷ []) cell h,
  )

  -- `remove` takes the name away from any store in which it stands, and returns its polynomial if no
  -- one else holds a pointer to it. If someone does it fails, and the name is gone all the same.
  pub remove_lem :
      (is_shared : ℕ → Bool) (key : String) (s : PolynomialStore A) (cell : ℕ)
      → get s key ≡ ok cell
      → (get ((remove is_shared key s).1) key ≡ err)
        × ((other : String) → key ≢ other → get ((remove is_shared key s).1) other ≡ get s other)
        × (is_shared cell ≡ false → (remove is_shared key s).0 ≡ deref s cell)
        × (is_shared cell ≡ true → (remove is_shared key s).0 ≡ err)
  unfolding remove get deref
  remove_lem is_shared key s cell h = (
    rw (remove, get, e, lookup-erase_self key s.polynomial_map) refl,
    λ other n. rw (remove, get, e, lookup-erase_ne other key s.polynomial_map n) refl,
    λ q. rw (remove, e, q) refl,
    λ q. rw (remove, e, q) refl,
  )
    where
      e : lookup key s.polynomial_map ≡ some cell
      e = found key s cell h
