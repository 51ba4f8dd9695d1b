-- ===== src/Storage/Tests.antt =====
-- A store with one polynomial.
use Prim.Native.String.{String}
use barustenberg.Prelude.{ℕ, ◌<◌, ◌≡◌, ◌≢◌, refl, [], ◌∷◌, ok, err, ◌>>=◌, true, false, arith}
use barustenberg.Polynomials.{Polynomial}
use barustenberg.Storage.{PolynomialStore, put, get, remove, deref}
use barustenberg.Storage.Handles.{IsAllocated, put_lem, remove_lem}

abbrev constant_one : Polynomial ℕ
constant_one = record { size = 1; coefficients = 1 ∷ [] }

abbrev one_stored : PolynomialStore ℕ
one_stored = record { polynomial_map = ("w_1", 0) ∷ []; heap = constant_one ∷ [] }

one_stored-IsAllocated : IsAllocated one_stored
one_stored-IsAllocated = record { allocated = λ key cell h. ground (arith, h) }

one_stored-get : get one_stored "w_1" ≡ ok 0
unfolding get
one_stored-get = refl

put_lem_example :
    IsAllocated (put "z" constant_one one_stored)
    × ((get (put "z" constant_one one_stored) "z" >>= deref (put "z" constant_one one_stored))
        ≡ ok constant_one)
    × ((other : String)
        → "z" ≢ other
        → get (put "z" constant_one one_stored) other ≡ get one_stored other)
    × ((cell : ℕ) → cell < 1 → deref (put "z" constant_one one_stored) cell ≡ deref one_stored cell)
put_lem_example = put_lem "z" constant_one one_stored one_stored-IsAllocated

remove_lem_example :
    (get ((remove (λ cell. true) "w_1" one_stored).1) "w_1" ≡ err)
    × ((other : String)
        → "w_1" ≢ other
        → get ((remove (λ cell. true) "w_1" one_stored).1) other ≡ get one_stored other)
    × (true ≡ false → (remove (λ cell. true) "w_1" one_stored).0 ≡ deref one_stored 0)
    × (true ≡ true → (remove (λ cell. true) "w_1" one_stored).0 ≡ err)
remove_lem_example = remove_lem (λ cell. true) "w_1" one_stored 0 one_stored-get
