-- ===== src/Prelude/Map.antt =====
-- Go's `map[string]V` as an association list with string keys. Its laws are equations with an
-- `if`, so that clients need not see the list; `range` visits the entries in the list's order.
use mathlib.Core.Path.{◌≡◌, refl}
use mathlib.Core.Bool.{Bool}
use mathlib.Core.List.{List, [], ◌∷◌}
use mathlib.Core.Option.{Option, none, some}
use native.Mathlib.Omega.{arith}
use text.Mathlib.Text.{◌==◌}
use Prim.Native.Nat.{◌+◌}
pub use Prim.Native.String.{String}
use gkit.Prelude.Lists.{length}
use gkit.Prelude.Tests.{if◌then◌else◌}
pub use text.Mathlib.TextEquality.{eq_iff}

abbrev pub Map {ℓ} : Type ℓ → Type ℓ
Map V = List (String × V)

-- The test of two keys.
infix 50 ◌=?◌
abbrev pub ◌=?◌ : String → String → Bool
k =? j = k == j

module _ {ℓ} {V : Type ℓ} where
  -- `v, ok := m[k]`
  unfoldable pub lookup : String → Map V → Option V
  lookup k [] = none
  lookup k ((j, v) ∷ m) = if j =? k then some v else lookup k m

  -- `m[k] = v`
  unfoldable pub put : String → V → Map V → Map V
  put k v [] = (k, v) ∷ []
  put k v ((j, w) ∷ m) = if j =? k then (j, v) ∷ m else (j, w) ∷ put k v m

  -- `delete(m, k)`
  unfoldable pub remove : String → Map V → Map V
  remove k [] = []
  remove k ((j, w) ∷ m) = let rest = remove k m in if j =? k then rest else (j, w) ∷ rest

  -- Every key stands once.
  abbrev pub IsDistinct : Map V → Type ℓ
  IsDistinct [] = Unit
  IsDistinct ((k, v) ∷ m) = (lookup k m ≡ none) × IsDistinct m

  pub lookup-put :
      (k j : String) (v : V) (m : Map V)
      → lookup j (put k v m) ≡ (if k =? j then some v else lookup j m)
  unfolding lookup put
  lookup-put k j v [] = refl
  lookup-put k j v ((i, w) ∷ m) =
      ground (arith, eq_iff k j, eq_iff i k, eq_iff i j, lookup-put k j v m)

  pub lookup-remove :
      (k j : String) (m : Map V) → lookup j (remove k m) ≡ (if k =? j then none else lookup j m)
  unfolding lookup remove
  lookup-remove k j [] = ground arith
  lookup-remove k j ((i, w) ∷ m) =
      ground (arith, eq_iff k j, eq_iff i k, eq_iff i j, lookup-remove k j m)

  pub lookup-empty : (k : String) → lookup k [] ≡ none
  unfolding lookup
  lookup-empty k = refl

  pub put-IsDistinct : (k : String) (v : V) (m : Map V) → IsDistinct m → IsDistinct (put k v m)
  unfolding put lookup
  put-IsDistinct k v [] h = (refl, tt)
  put-IsDistinct k v ((i, w) ∷ m) h =
      ground (arith, eq_iff i k, eq_iff k i, lookup-put k i v m, put-IsDistinct k v m h.1)

  pub remove-IsDistinct : (k : String) (m : Map V) → IsDistinct m → IsDistinct (remove k m)
  unfolding remove
  remove-IsDistinct k [] h = h
  remove-IsDistinct k ((i, w) ∷ m) h =
      ground (arith, eq_iff i k, eq_iff k i, lookup-remove k i m, remove-IsDistinct k m h.1)

  -- `len(m)` after a write and after a deletion.
  pub length-put :
      (k : String) (v : V) (m : Map V)
      → length (put k v m) ≡ elim (lookup k m) [ none ↦ length m + 1 | some _ ↦ length m ]
  unfolding put lookup
  length-put k v [] = refl
  length-put k v ((i, w) ∷ m) = ground (arith, length-put k v m)

pub ruleset map_laws = (lookup-put, lookup-remove, lookup-empty)
