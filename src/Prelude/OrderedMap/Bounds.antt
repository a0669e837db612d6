-- ===== src/Prelude/OrderedMap/Bounds.antt =====
-- Ordered maps whose keys are below a bound.
use Prim.Native.Nat.{◌+◌, ℕ, ◌≤◌, ◌<◌}
use mathlib.Core.Path.{◌≡◌, refl}
use mathlib.Core.Option.{none}
use mathlib.Core.List.{List, [], ◌∷◌, ◌++◌}
use native.Mathlib.Omega.{arith}
use mp_video_simulation.Prelude.OrderedMap.{find, insert, Every, Every-insert}

module _ {V : Type 0} where
  -- All keys are below a bound.
  abbrev pub Below : ℕ → List (ℕ × V) → Type 0
  Below b m = Every (λ k v. k < b) m

  pub Below-mono : (b c : ℕ) (m : List (ℕ × V)) → b ≤ c → Below b m → Below c m
  Below-mono b c [] h e = tt
  Below-mono b c ((k, v) ∷ m) h e = (omega (arith, e.0), Below-mono b c m h e.1)

  pub insert-Below : (k : ℕ) (v : V) (m : List (ℕ × V)) → Below k m → Below (k + 1) (insert k v m)
  insert-Below k v m e =
      Every-insert (λ j w. j < k + 1) k v m (omega arith) (Below-mono k (k + 1) m (omega arith) e)

  pub Below-find : (b k : ℕ) (m : List (ℕ × V)) → Below b m → b ≤ k → find k m ≡ none
  Below-find b k [] e h = refl
  Below-find b k ((j, v) ∷ m) e h = ground (arith, Below-find b k m e.1)

  -- A key above all others comes last.
  pub insert_at_end :
      (k : ℕ) (v : V) (m : List (ℕ × V)) → Below k m → insert k v m ≡ m ++ (k, v) ∷ []
  unfolding insert
  insert_at_end k v [] e = refl
  insert_at_end k v ((j, w) ∷ m) e = ground (arith, insert_at_end k v m e.1)
