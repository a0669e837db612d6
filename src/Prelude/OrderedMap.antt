-- ===== src/Prelude/OrderedMap.antt =====
-- std::map<uintN_t, V> as the list of its entries, by increasing key.
pub mod Bounds
pub mod Values
use Prim.Native.Nat.{zero, suc, ◌+◌, ℕ, ◌≤◌, ◌<◌}
use mathlib.Core.Path.{◌≡◌, refl, sym, ◌∙◌}
use mathlib.Core.Option.{Option, none, some}
use mathlib.Core.List.{List, [], ◌∷◌, ◌++◌}
use native.Mathlib.Omega.{arith}
use mathlib.Core.Logic.{inl, inr}
use mp_video_simulation.Prelude.Tests.{Bool-cases, ==_iff, ltb, leb, ◌==◌, if◌then◌else◌}

module _ {ℓ} {V : Type ℓ} where
  -- find(k).
  abbrev pub find : ℕ → List (ℕ × V) → Option V
  find k [] = none
  find k ((j, v) ∷ m) = if j == k then some v else find k m

  -- insert(make_pair(k, v)): an entry that is present stays as it is.
  unfoldable pub insert : ℕ → V → List (ℕ × V) → List (ℕ × V)
  insert k v [] = (k, v) ∷ []
  insert k v ((j, w) ∷ m) =
      if ltb k j then (k, v) ∷ (j, w) ∷ m else if k == j then (j, w) ∷ m else (j, w) ∷ insert k v m

  -- it->second = v, at the entry of k.
  unfoldable pub update : ℕ → V → List (ℕ × V) → List (ℕ × V)
  update k v [] = []
  update k v ((j, w) ∷ m) = if j == k then (j, v) ∷ m else (j, w) ∷ update k v m

  -- erase(find(k)).
  unfoldable pub erase : ℕ → List (ℕ × V) → List (ℕ × V)
  erase k [] = []
  erase k ((j, w) ∷ m) = if j == k then m else (j, w) ∷ erase k m

  -- erase(begin()) as long as its key is at most k.
  unfoldable pub erase_to : ℕ → List (ℕ × V) → List (ℕ × V)
  erase_to k [] = []
  erase_to k ((j, w) ∷ m) = if leb j k then erase_to k m else (j, w) ∷ m

  -- erase of each key that is there, for n keys from k on.
  unfoldable pub erase_run : (n k : ℕ) → List (ℕ × V) → List (ℕ × V)
  unfolding erase
  erase_run zero k m = m
  erase_run (suc n) k m = erase_run n (k + 1) (erase k m)

  -- Keys increase, above a bound.
  abbrev pub Above : ℕ → List (ℕ × V) → Type 0
  Above b [] = Unit
  Above b ((j, w) ∷ m) = (b < j) × Above j m

  pub Above-mono : (b c : ℕ) (m : List (ℕ × V)) → b ≤ c → Above c m → Above b m
  Above-mono b c [] h a = tt
  Above-mono b c ((j, w) ∷ m) h a = (omega arith, a.1)

  pub Above-find : (b k : ℕ) (m : List (ℕ × V)) → Above b m → k ≤ b → find k m ≡ none
  Above-find b k [] a h = refl
  Above-find b k ((j, w) ∷ m) a h = ground (arith, Above-find j k m a.1)

  pub find-insert :
      (b k j : ℕ) (v : V) (m : List (ℕ × V))
      → Above b m
      → find k m ≡ none
      → find j (insert k v m) ≡ (if k == j then some v else find j m)
  unfolding insert
  find-insert b k j v [] a h = ground arith
  find-insert b k j v ((i, w) ∷ m) a h =
      ground (arith, find-insert i k j v m a.1, Above-find i j m a.1)

  pub insert-Above :
      (b k : ℕ) (v : V) (m : List (ℕ × V)) → b < k → Above b m → Above b (insert k v m)
  unfolding insert
  insert-Above b k v [] h a = (h, tt)
  insert-Above b k v ((i, w) ∷ m) h a = ground (arith, insert-Above i k v m)

  pub erase-Above : (b k : ℕ) (m : List (ℕ × V)) → Above b m → Above b (erase k m)
  unfolding erase
  erase-Above b k [] a = tt
  erase-Above b k ((i, w) ∷ m) a = ground (arith, erase-Above i k m a.1, Above-mono b i m)

  pub find-erase :
      (b k j : ℕ) (m : List (ℕ × V))
      → Above b m
      → find j (erase k m) ≡ (if k == j then none else find j m)
  unfolding erase
  find-erase b k j [] a = ground arith
  find-erase b k j ((i, w) ∷ m) a = ground (arith, find-erase i k j m a.1, Above-find i j m a.1)

  pub erase_to-Above : (b k : ℕ) (m : List (ℕ × V)) → Above b m → Above k (erase_to k m)
  unfolding erase_to
  erase_to-Above b k [] a = tt
  erase_to-Above b k ((i, w) ∷ m) a = ground (arith, erase_to-Above i k m a.1)

  pub erase_to_below : (b k : ℕ) (m : List (ℕ × V)) → Above b m → k ≤ b → erase_to k m ≡ m
  unfolding erase_to
  erase_to_below b k [] a h = refl
  erase_to_below b k ((i, w) ∷ m) a h = ground arith

  pub erase_to_twice :
      (j k : ℕ) (m : List (ℕ × V)) → j ≤ k → erase_to k (erase_to j m) ≡ erase_to k m
  unfolding erase_to
  erase_to_twice j k [] h = refl
  erase_to_twice j k ((i, w) ∷ m) h = ground (arith, erase_to_twice j k m h)

  pub erase_below : (b k : ℕ) (m : List (ℕ × V)) → Above b m → k ≤ b → erase k m ≡ m
  unfolding erase
  erase_below b k [] a h = refl
  erase_below b k ((i, w) ∷ m) a h = ground (arith, erase_below i k m a.1)

  pub erase_absent : (k : ℕ) (m : List (ℕ × V)) → find k m ≡ none → erase k m ≡ m
  unfolding erase
  erase_absent k [] h = refl
  erase_absent k ((i, w) ∷ m) h = ground (arith, erase_absent k m)

  -- The key after the bound can only come first.
  pub erase-erase_to : (b : ℕ) (m : List (ℕ × V)) → Above b m → erase (b + 1) m ≡ erase_to (b + 1) m
  unfolding erase erase_to
  erase-erase_to b [] a = refl
  erase-erase_to b ((i, w) ∷ m) a =
      ground (arith, erase_below i (b + 1) m a.1, erase_to_below i (b + 1) m a.1)

  pub erase_run-erase_to :
      (n b : ℕ) (m : List (ℕ × V)) → Above b m → erase_run n (b + 1) m ≡ erase_to (b + n) m
  unfolding erase_run
  erase_run-erase_to zero b m a = sym (erase_to_below b (b + zero) m a (omega arith))
  erase_run-erase_to (suc n) b m a =
      let first : erase (b + 1) m ≡ erase_to (b + 1) m = erase-erase_to b m a in
      let rest = erase_run-erase_to n (b + 1) (erase_to (b + 1) m) (erase_to-Above b (b + 1) m a) in
      let place : b + suc n ≡ b + 1 + n = omega arith in
      rw (first, place) (rest ∙ erase_to_twice (b + 1) (b + 1 + n) m (omega arith))

  -- An entry that is present keeps its place.
  pub update-Above : (b k : ℕ) (v : V) (m : List (ℕ × V)) → Above b m → Above b (update k v m)
  unfolding update
  update-Above b k v [] a = tt
  update-Above b k v ((i, w) ∷ m) a = ground (arith, update-Above i k v m a.1)

  -- What the values come to.
  abbrev pub sum_values : (V → ℕ) → List (ℕ × V) → ℕ
  sum_values g [] = 0
  sum_values g ((i, w) ∷ m) = g w + sum_values g m

  pub sum_values-insert :
      (g : V → ℕ) (k : ℕ) (v : V) (m : List (ℕ × V))
      → find k m ≡ none
      → sum_values g (insert k v m) ≡ g v + sum_values g m
  unfolding insert
  sum_values-insert g k v [] h = omega arith
  sum_values-insert g k v ((i, w) ∷ m) h = ground (arith, sum_values-insert g k v m)

  pub sum_values-update :
      (g : V → ℕ) (k : ℕ) (v old : V) (m : List (ℕ × V))
      → find k m ≡ some old
      → sum_values g (update k v m) + g old ≡ g v + sum_values g m
  unfolding update
  sum_values-update g k v old [] h = cc
  sum_values-update g k v old ((i, w) ∷ m) h = ground (arith, sum_values-update g k v old m)

  pub sum_values-erase :
      (g : V → ℕ) (k : ℕ) (old : V) (m : List (ℕ × V))
      → find k m ≡ some old
      → g old + sum_values g (erase k m) ≡ sum_values g m
  unfolding erase
  sum_values-erase g k old [] h = cc
  sum_values-erase g k old ((i, w) ∷ m) h = ground (arith, sum_values-erase g k old m)

module _ {ℓ κ} {V : Type ℓ} (P : ℕ → V → Type κ) where
  -- A predicate on every entry.
  abbrev pub Every : List (ℕ × V) → Type κ
  Every [] = Unit
  Every ((k, v) ∷ m) = P k v × Every m

  pub Every-insert : (k : ℕ) (v : V) (m : List (ℕ × V)) → P k v → Every m → Every (insert k v m)
  unfolding insert
  Every-insert k v [] p e = (p, tt)
  Every-insert k v ((i, w) ∷ m) p e = ground (arith, Every-insert k v m p e.1)

  pub Every-update : (k : ℕ) (v : V) (m : List (ℕ × V)) → P k v → Every m → Every (update k v m)
  unfolding update
  Every-update k v [] p e = tt
  Every-update k v ((i, w) ∷ m) p e = elim (Bool-cases (i == k)) [
    | inl hit ↦ rw hit (rw ((==_iff i k).0 hit) p, e.1)
    | inr miss ↦ rw miss (e.0, Every-update k v m p e.1)
  ]

  pub Every-erase : (k : ℕ) (m : List (ℕ × V)) → Every m → Every (erase k m)
  unfolding erase
  Every-erase k [] e = tt
  Every-erase k ((i, w) ∷ m) e = ground (arith, Every-erase k m e.1)

  pub Every-erase_to : (k : ℕ) (m : List (ℕ × V)) → Every m → Every (erase_to k m)
  unfolding erase_to
  Every-erase_to k [] e = tt
  Every-erase_to k ((i, w) ∷ m) e = ground (arith, Every-erase_to k m e.1)

  pub Every-find : (k : ℕ) (v : V) (m : List (ℕ × V)) → find k m ≡ some v → Every m → P k v
  Every-find k v [] h e = cc
  Every-find k v ((i, w) ∷ m) h e = elim (Bool-cases (i == k)) [
    | inl hit ↦ let same : w ≡ v = ground arith in rw (← same, ← (==_iff i k).0 hit) e.0
    | inr miss ↦ Every-find k v m (rw miss at h) e.1
  ]
