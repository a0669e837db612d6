-- ===== src/V1/FrameBuffer/Indices.antt =====
-- The indices of the packets that a frame of ns3/mp-video/model/video_proto.cc keeps.
use mp_video_simulation.Prelude.{
  ℕ, suc, ◌-◌, ◌≤◌, ◌<◌, ◌≡◌, ◌≢◌, refl, inl, inr, Bool, true, false, ◌||◌, none, some, List, [],
  ◌∷◌, ltb, ◌==◌, if◌then◌else◌, length, arith, Bool-cases,
}
use mp_video_simulation.Prelude.OrderedMap
use mp_video_simulation.Prelude.OrderedMap.{
  find, Above, Every, find-insert, insert-Above, Every-insert, Above-find,
}

-- Keys increase, the first is at least `b`.
abbrev pub From {ℓ} : {V : Type ℓ} → ℕ → List (ℕ × V) → Type 0
From b [] = Unit
From b ((j, v) ∷ m) = (b ≤ j) × Above j m

module _ {V : Type 0} where
  Above-From : (b : ℕ) (m : List (ℕ × V)) → Above b m → From (suc b) m
  Above-From b [] a = tt
  Above-From b ((j, v) ∷ m) a = (omega (arith, a.0), a.1)

  pub From-insert : (k : ℕ) (v : V) (m : List (ℕ × V)) → From 0 m → From 0 (OrderedMap.insert k v m)
  unfolding OrderedMap.insert
  From-insert k v [] a = (omega arith, tt)
  From-insert k v ((j, w) ∷ m) a = ground (arith, insert-Above j k v m)

  find-insert-From :
      (k j : ℕ) (v : V) (m : List (ℕ × V))
      → From 0 m
      → find k m ≡ none
      → find j (OrderedMap.insert k v m) ≡ (if k == j then some v else find j m)
  unfolding OrderedMap.insert
  find-insert-From k j v [] a h = ground arith
  find-insert-From k j v ((i, w) ∷ m) a h =
      ground (arith, find-insert i k j v m a.1, Above-find i j m a.1)

  -- Whether the map has the key.
  abbrev pub present : ℕ → List (ℕ × V) → Bool
  present i m = elim (find i m) [ none ↦ false | some v ↦ true ]

  pub present-insert :
      (k j : ℕ) (v : V) (m : List (ℕ × V))
      → From 0 m
      → find k m ≡ none
      → present j (OrderedMap.insert k v m) ≡ ((k == j) || present j m)
  present-insert k j v m a h = rw (present, find-insert-From k j v m a h) (ground arith)

  pub length-insert :
      (k : ℕ) (v : V) (m : List (ℕ × V))
      → find k m ≡ none
      → length (OrderedMap.insert k v m) ≡ suc (length m)
  unfolding OrderedMap.insert
  length-insert k v [] h = refl
  length-insert k v ((j, w) ∷ m) h = ground (arith, length-insert k v m)

  -- Keys from `b` on and below `t` are at most `t - b`.
  pub length-bound :
      (b t : ℕ) (m : List (ℕ × V)) → From b m → Every (λ k v. k < t) m → length m ≤ t - b
  length-bound b t [] a e = omega arith
  length-bound b t ((j, v) ∷ m) a e =
      omega (arith, a.0, e.0, length-bound (suc j) t m (Above-From j m a.1) e.1)

  -- As many of them as there can be are all of them.
  pub full-find :
      (b t : ℕ) (m : List (ℕ × V))
      → From b m
      → Every (λ k v. k < t) m
      → length m ≡ t - b
      → (i : ℕ) → b ≤ i
      → i < t
      → find i m ≢ none
  full-find b t [] a e h i lo hi = absurd (omega (arith, h, lo, hi))
  full-find b t ((j, v) ∷ m) a e h i lo hi =
      let bound : length m ≤ t - suc j = length-bound (suc j) t m (Above-From j m a.1) e.1 in
      let rest : suc j ≤ i → find i m ≢ none = λ le.
        full-find (suc j) t m (Above-From j m a.1) e.1 (omega (arith, h, bound, a.0, e.0)) i le
          hi in
      elim (Bool-cases (j == i)) [
        | inl hit ↦ rw hit (λ none_found. cc)
        | inr miss ↦ rw miss (rest (ground (arith, bound, a.0, e.0)))
      ]

  pub find-full :
      (b t : ℕ) (m : List (ℕ × V))
      → From b m
      → ((i : ℕ) → b ≤ i → i < t → find i m ≢ none)
      → t - b ≤ length m
  find-full b t [] a h = elim (Bool-cases (ltb b t)) [
    | inl lt ↦ absurd (h b (omega arith) (ground arith) refl)
    | inr ge ↦ ground arith
  ]
  find-full b t ((j, v) ∷ m) a h =
      let rest : t - suc j ≤ length m =
        find-full (suc j) t m (Above-From j m a.1)
          (λ i lo hi. ground (arith, h i (omega (arith, a.0)) hi)) in
      let gap : b < j → find b ((j, v) ∷ m) ≡ none = λ lt. ground (arith, Above-find j b m a.1) in
      elim (Bool-cases (ltb b j)) [
        | inl lt ↦ elim (Bool-cases (ltb b t)) [
          | inl more ↦ absurd (h b (omega arith) (ground arith) (gap (ground arith)))
          | inr done ↦ ground arith
        ]
        | inr ge ↦ ground (arith, rest)
      ]
