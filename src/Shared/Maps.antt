-- ===== src/Shared/Maps.antt =====
-- Association lists for Go's maps: a key stands at most where it was first put.
use Prim.Native.Nat.{ℕ}
use mathlib.Core.Path.{◌≡◌, refl}
use mathlib.Core.Option.{Option, none, some}
use mathlib.Core.List.{List, [], ◌∷◌}
use native.Mathlib.Omega.{arith}
use nx_iio_t_gateway_max_gat.Shared.Tests.{◌==◌, if◌then◌else◌}

module _ {ℓ} {A : Type ℓ} where
  abbrev pub lookup : ℕ → List (ℕ × A) → Option A
  lookup k [] = none
  lookup k ((k', a) ∷ m) = if k == k' then some a else lookup k m

  abbrev pub insert : ℕ → A → List (ℕ × A) → List (ℕ × A)
  insert k a [] = (k, a) ∷ []
  insert k a ((k', a') ∷ m) =
      let rest = insert k a m in if k == k' then (k', a) ∷ m else (k', a') ∷ rest

  pub lookup-insert :
      (j k : ℕ) (a : A) (m : List (ℕ × A))
      → lookup j (insert k a m) ≡ (if j == k then some a else lookup j m)
  lookup-insert j k a [] = refl
  lookup-insert j k a ((k', a') ∷ m) = ground (arith, lookup-insert j k a m)

  abbrev pub remove : ℕ → List (ℕ × A) → List (ℕ × A)
  remove k [] = []
  remove k ((k', a') ∷ m) = let rest = remove k m in if k == k' then rest else (k', a') ∷ rest

  pub lookup-remove :
      (j k : ℕ) (m : List (ℕ × A)) → lookup j (remove k m) ≡ (if j == k then none else lookup j m)
  lookup-remove j k [] = ground arith
  lookup-remove j k ((k', a') ∷ m) = ground (arith, lookup-remove j k m)
