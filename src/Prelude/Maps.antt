-- ===== src/Prelude/Maps.antt =====
-- `HashMap<String, V>`: the entries, the newest first, of which a lookup reads the first that fits.
use Prim.Native.String.{String}
use text.Mathlib.Text.{◌==◌}
use text.Mathlib.TextEquality.{eq_iff}
use mathlib.Core.Path.{◌≡◌, refl}
use mathlib.Core.Logic.{◌≢◌}
use mathlib.Core.Bool.{Bool, true, false}
use mathlib.Core.Option.{Option, none, some}
use mathlib.Core.List.{List, [], ◌∷◌}
use native.Mathlib.Omega.{arith}
use barustenberg.Prelude.Tests.{if◌then◌else◌}
use barustenberg.Prelude.Outcomes.{Outcome, ok, panic}

-- Equality of names.
abbrev pub same_name : String → String → Bool
same_name a b = a == b

pub same_name_refl : (a : String) → same_name a a ≡ true
same_name_refl a = ground (arith, eq_iff a a)

pub same_name_ne : (a b : String) → a ≢ b → same_name a b ≡ false
same_name_ne a b h = ground (arith, eq_iff a b)

pub same_name→≡ : (a b : String) → same_name a b ≡ true → a ≡ b
same_name→≡ a b h = ground (arith, eq_iff a b)

module _ {ℓ} {V : Type ℓ} where
  abbrev pub lookup : String → List (String × V) → Option V
  lookup k [] = none
  lookup k ((j, v) ∷ m) = if same_name j k then some v else lookup k m

  abbrev pub insert : String → V → List (String × V) → List (String × V)
  insert k v m = (k, v) ∷ m

  abbrev pub erase : String → List (String × V) → List (String × V)
  erase k [] = []
  erase k ((j, v) ∷ m) = if same_name j k then erase k m else (j, v) ∷ erase k m

  -- `map[k]`, which panics without an entry.
  abbrev pub index_map : String → List (String × V) → Outcome V
  index_map k m = elim (lookup k m) [ none ↦ panic | some v ↦ ok v ]

  pub lookup-insert_self :
      (k : String) (v : V) (m : List (String × V)) → lookup k (insert k v m) ≡ some v
  lookup-insert_self k v m = rw (same_name_refl k) refl

  pub lookup-insert_ne :
      (k j : String) (v : V) (m : List (String × V)) → j ≢ k → lookup k (insert j v m) ≡ lookup k m
  lookup-insert_ne k j v m h = rw (same_name_ne j k h) refl

  pub lookup-erase_self : (k : String) (m : List (String × V)) → lookup k (erase k m) ≡ none
  lookup-erase_self k [] = refl
  lookup-erase_self k ((j, v) ∷ m) = ground (arith, lookup-erase_self k m)

  pub lookup-erase_ne :
      (k j : String) (m : List (String × V)) → j ≢ k → lookup k (erase j m) ≡ lookup k m
  lookup-erase_ne k j [] h = refl
  lookup-erase_ne k j ((i, v) ∷ m) h =
      ground (arith, eq_iff i j, eq_iff i k, lookup-erase_ne k j m h)
