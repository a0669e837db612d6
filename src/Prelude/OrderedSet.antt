-- ===== src/Prelude/OrderedSet.antt =====
-- std::set<uint32_t> as the strictly increasing list of its elements.
use Prim.Native.Nat.{ℕ, ◌≤◌, ◌<◌}
use mathlib.Core.Path.{◌≡◌, refl}
use mathlib.Core.Bool.{Bool, true, false, ◌||◌}
use mathlib.Core.List.{List, [], ◌∷◌}
use native.Mathlib.Omega.{arith}
use mp_video_simulation.Prelude.Tests.{ltb, ◌==◌, if◌then◌else◌}
use mp_video_simulation.Prelude.Lists.{All}

-- find(k) != end().
abbrev pub contains : List ℕ → ℕ → Bool
contains [] k = false
contains (x ∷ xs) k = (x == k) || contains xs k

-- insert(k): an element that is present stays.
unfoldable pub insert : ℕ → List ℕ → List ℕ
insert k [] = k ∷ []
insert k (x ∷ xs) = if ltb k x then k ∷ x ∷ xs else if k == x then x ∷ xs else x ∷ insert k xs

-- erase(k).
unfoldable pub erase : ℕ → List ℕ → List ℕ
erase k [] = []
erase k (x ∷ xs) = if k == x then xs else x ∷ erase k xs

-- Increasing, and above a bound.
abbrev pub Above : ℕ → List ℕ → Type 0
Above b [] = Unit
Above b (x ∷ xs) = (b < x) × Above x xs

pub Above-mono : (b c : ℕ) (xs : List ℕ) → b ≤ c → Above c xs → Above b xs
Above-mono b c [] h a = tt
Above-mono b c (x ∷ xs) h a = (omega arith, a.1)

-- Nothing at or below the bound is in the set.
pub Above-contains : (b k : ℕ) (xs : List ℕ) → Above b xs → k ≤ b → contains xs k ≡ false
Above-contains b k [] a h = refl
Above-contains b k (x ∷ xs) a h = ground (arith, Above-contains x k xs a.1)

pub contains-insert :
    (k j : ℕ) (xs : List ℕ) → contains (insert k xs) j ≡ (if k == j then true else contains xs j)
unfolding insert
contains-insert k j [] = ground arith
contains-insert k j (x ∷ xs) = ground (arith, contains-insert k j xs)

pub insert-Above : (b k : ℕ) (xs : List ℕ) → b < k → Above b xs → Above b (insert k xs)
unfolding insert
insert-Above b k [] h a = (h, tt)
insert-Above b k (x ∷ xs) h a = ground (arith, insert-Above x k xs)

pub contains-erase :
    (b k j : ℕ) (xs : List ℕ)
    → Above b xs
    → contains (erase k xs) j ≡ (if k == j then false else contains xs j)
unfolding erase
contains-erase b k j [] a = ground arith
contains-erase b k j (x ∷ xs) a =
    ground (arith, contains-erase x k j xs a.1, Above-contains x j xs a.1)

pub erase-Above : (b k : ℕ) (xs : List ℕ) → Above b xs → Above b (erase k xs)
unfolding erase
erase-Above b k [] a = tt
erase-Above b k (x ∷ xs) a = ground (arith, erase-Above x k xs a.1, Above-mono b x xs)

pub insert_front : (k b : ℕ) (xs : List ℕ) → k ≤ b → Above b xs → insert k xs ≡ k ∷ xs
unfolding insert
insert_front k b [] h a = refl
insert_front k b (x ∷ xs) h a = ground arith

module _ {κ} (P : ℕ → Type κ) where
  pub All-insert : (k : ℕ) (xs : List ℕ) → P k → All P xs → All P (insert k xs)
  unfolding insert
  All-insert k [] p a = (p, tt)
  All-insert k (x ∷ xs) p a = ground (arith, All-insert k xs p a.1)

  pub All-erase : (k : ℕ) (xs : List ℕ) → All P xs → All P (erase k xs)
  unfolding erase
  All-erase k [] a = tt
  All-erase k (x ∷ xs) a = ground (arith, All-erase k xs a.1)
