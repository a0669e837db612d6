-- ===== src/Prelude/OrderedMap/Values.antt =====
-- Ordered maps whose values are replaced.
use Prim.Native.Nat.{ℕ}
use mathlib.Core.Path.{◌≡◌, refl}
use mathlib.Core.Option.{none, some}
use mathlib.Core.List.{List, [], ◌∷◌}
use native.Mathlib.Omega.{arith}
use mathlib.Core.Logic.{inl, inr}
use mp_video_simulation.Prelude.Tests.{Bool-cases, ◌==◌}
use mp_video_simulation.Prelude.OrderedMap.{find, insert, erase_to, Above, sum_values}

module _ {V W : Type 0} (f : V → W) where
  -- The map with each value replaced.
  abbrev pub map_values : List (ℕ × V) → List (ℕ × W)
  map_values [] = []
  map_values ((k, v) ∷ m) = (k, f v) ∷ map_values m

  pub map_values-insert :
      (k : ℕ) (v : V) (m : List (ℕ × V)) → map_values (insert k v m) ≡ insert k (f v) (map_values m)
  unfolding insert
  map_values-insert k v [] = refl
  map_values-insert k v ((j, w) ∷ m) = ground (arith, map_values-insert k v m)

  pub map_values-erase_to :
      (k : ℕ) (m : List (ℕ × V)) → map_values (erase_to k m) ≡ erase_to k (map_values m)
  unfolding erase_to
  map_values-erase_to k [] = refl
  map_values-erase_to k ((j, w) ∷ m) = ground (arith, map_values-erase_to k m)

  pub find-map_values :
      (k : ℕ) (m : List (ℕ × V))
      → find k (map_values m) ≡ elim (find k m) [ none ↦ none | some v ↦ some (f v) ]
  find-map_values k [] = refl
  find-map_values k ((j, w) ∷ m) = elim (Bool-cases (j == k)) [
    | inl hit ↦ rw hit refl
    | inr miss ↦ rw miss (find-map_values k m)
  ]

  pub map_values-Above : (b : ℕ) (m : List (ℕ × V)) → Above b m → Above b (map_values m)
  map_values-Above b [] a = tt
  map_values-Above b ((j, w) ∷ m) a = (a.0, map_values-Above j m a.1)

  pub sum_values-map_values :
      (g : W → ℕ) (m : List (ℕ × V)) → sum_values g (map_values m) ≡ sum_values (λ v. g (f v)) m
  sum_values-map_values g [] = refl
  sum_values-map_values g ((j, w) ∷ m) = omega (arith, sum_values-map_values g m)
