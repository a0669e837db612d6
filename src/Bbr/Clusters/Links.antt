-- ===== src/Bbr/Clusters/Links.antt =====
-- The clusters of ns3/mp-video/model/congestion/bbr_sender_v1.cc are linked in the table's order.
use mp_video_simulation.Prelude.{
  ℕ, zero, suc, ◌≤◌, ◌<◌, ◌≡◌, ◌∙◌, refl, Bool, true, false, Option, none, some, List, [], ◌∷◌, leb,
  ◌==◌, arith, length, Returns, Returns-then, Returns-map, Bool-cases, if-cases, inl, inr,
}
use mp_video_simulation.Prelude.OrderedMap.{find, update}
use mp_video_simulation.Bbr.State.{Clusters}
use mp_video_simulation.Bbr.Clusters.{unlink_prev, remove_clusters, remove_cluster_le}

-- A key is in a table.
pub record Has {C : Type 0} (k : ℕ) (m : List (ℕ × C)) : Type 0 where
  pub cluster : C
  pub at : find k m ≡ some cluster

-- What the links rely on of SentClusterInfo: its setters set, and no more.
pub record ClusterLaws {C : Type 0} (ops : Clusters C) : Type 0 where
  pub next_of_new : (round : ℕ) (is_probe : Bool) → ops.get_next (ops.new round is_probe) ≡ none
  pub next_of_set_next : (next : Option ℕ) (c : C) → ops.get_next (ops.set_next next c) ≡ next
  pub next_of_set_prev :
      (prev : Option ℕ) (c : C) → ops.get_next (ops.set_prev prev c) ≡ ops.get_next c
  pub id_of_new :
      (round : ℕ) (is_probe : Bool) → ops.get_cluster_id (ops.new round is_probe) ≡ round
  pub id_of_set_next :
      (next : Option ℕ) (c : C) → ops.get_cluster_id (ops.set_next next c) ≡ ops.get_cluster_id c
  pub id_of_set_prev :
      (prev : Option ℕ) (c : C) → ops.get_cluster_id (ops.set_prev prev c) ≡ ops.get_cluster_id c

module _ {C : Type 0} (ops : Clusters C) where
  -- Each cluster points to the next of the table, and is the one of its key.
  abbrev pub IsLinked : List (ℕ × C) → Type 0
  IsLinked [] = Unit
  IsLinked ((k, c) ∷ []) = (ops.get_next c ≡ none) × (ops.get_cluster_id c ≡ k)
  IsLinked ((k, c) ∷ (j, d) ∷ m) =
      (ops.get_next c ≡ some j) × (ops.get_cluster_id c ≡ k) × IsLinked ((j, d) ∷ m)

  IsLinked-tail : (k : ℕ) (c : C) (m : List (ℕ × C)) → IsLinked ((k, c) ∷ m) → IsLinked m
  IsLinked-tail k c [] v = tt
  IsLinked-tail k c ((j, d) ∷ m) v = v.2

  head-id : (k : ℕ) (c : C) (m : List (ℕ × C)) → IsLinked ((k, c) ∷ m) → ops.get_cluster_id c ≡ k
  head-id k c [] v = v.1
  head-id k c ((j, d) ∷ m) v = v.1

  -- The head of a table may change, as long as its links and its id do not.
  IsLinked-head :
      (k : ℕ) (c d : C) (m : List (ℕ × C))
      → ops.get_next d ≡ ops.get_next c
      → ops.get_cluster_id d ≡ ops.get_cluster_id c
      → IsLinked ((k, c) ∷ m)
      → IsLinked ((k, d) ∷ m)
  IsLinked-head k c d [] next id v = (next ∙ v.0, id ∙ v.1)
  IsLinked-head k c d ((j, e) ∷ m) next id v = (next ∙ v.0, id ∙ v.1, v.2)

  Has-head : (i k : ℕ) (c d : C) (m : List (ℕ × C)) → Has i ((k, c) ∷ m) → Has i ((k, d) ∷ m)
  Has-head i k c d m h = elim (Bool-cases (k == i)) [
    | inl hit ↦ record { cluster = d; at = rw hit refl }
    | inr miss ↦ record { cluster = h.cluster; at = rw miss (rw miss at h.at) }
  ]

  -- What a call leaves of a table.
  abbrev LeavesAll : List (ℕ × C) → List (ℕ × C) → Type 0
  LeavesAll m m' = IsLinked m' × (length m' ≡ length m) × ((i : ℕ) → Has i m → Has i m')

  unlink_prev-LeavesAll :
      (laws : ClusterLaws ops) (k : ℕ) (c : C) (m : List (ℕ × C))
      → IsLinked ((k, c) ∷ m)
      → Returns (LeavesAll m) (unlink_prev ops (ops.get_next c) m)
  unfolding unlink_prev update
  unlink_prev-LeavesAll laws k c [] v = rw v.0 (tt, refl, λ i h. h)
  unlink_prev-LeavesAll laws k c ((j, d) ∷ m) v =
      let hit : (j == j) ≡ true = ground arith in
      let set : update j (ops.set_prev none d) ((j, d) ∷ m) ≡ (j, ops.set_prev none d) ∷ m =
        rw hit refl in
      rw (v.0, unlink_prev, hit, set)
        (
          IsLinked-head j d (ops.set_prev none d) m (laws.next_of_set_prev none d)
              (laws.id_of_set_prev none d) v.2,
          refl,
          λ i h. Has-head i j d (ops.set_prev none d) m h,
        )

  -- The clusters above a round are left.
  abbrev pub LeavesAbove : (round : ℕ) → List (ℕ × C) → List (ℕ × C) → Type 0
  LeavesAbove round m m' = IsLinked m' × ((i : ℕ) → round < i → Has i m → Has i m')

  Has-tail : (i k : ℕ) (c : C) (m : List (ℕ × C)) → k < i → Has i ((k, c) ∷ m) → Has i m
  Has-tail i k c m less h =
      let miss : (k == i) ≡ false = ground arith in
      record { cluster = h.cluster; at = rw miss at h.at }

  remove_clusters-LeavesAbove :
      (laws : ClusterLaws ops) (fuel round : ℕ) (m : List (ℕ × C))
      → length m ≤ fuel
      → IsLinked m
      → Returns (LeavesAbove round m) (remove_clusters ops fuel round m)
  unfolding remove_clusters
  remove_clusters-LeavesAbove laws fuel round [] enough v = (tt, λ i less h. h)
  remove_clusters-LeavesAbove laws zero round ((k, c) ∷ m) enough v = absurd (omega (arith, enough))
  remove_clusters-LeavesAbove laws (suc fuel) round ((k, c) ∷ m) enough v =
      if-cases {A = Option (List (ℕ × C))} (Returns (LeavesAbove round ((k, c) ∷ m))) (leb k round)
        _ _
        (λ old.
          Returns-then (LeavesAll m) (LeavesAbove round ((k, c) ∷ m))
            (unlink_prev ops (ops.get_next c) m) (remove_clusters ops fuel round)
            (unlink_prev-LeavesAll laws k c m v)
            (λ m' left.
              Returns-map (LeavesAbove round m') (LeavesAbove round ((k, c) ∷ m))
                (remove_clusters ops fuel round m')
                (λ t later. (
                  later.0,
                  λ i less h.
                      later.1 i less (left.2 i (Has-tail i k c m (ground (arith, old, less)) h)),
                ))
                (remove_clusters-LeavesAbove laws fuel round m' (omega (arith, enough, left.1))
                  left.0)))
        (λ new. (v, λ i less h. h))

  pub remove_cluster_le-LeavesAbove :
      (laws : ClusterLaws ops) (round : ℕ) (m : List (ℕ × C))
      → IsLinked m
      → Returns (LeavesAbove round m) (remove_cluster_le ops round m)
  unfolding remove_cluster_le
  remove_cluster_le-LeavesAbove laws round m v =
      remove_clusters-LeavesAbove laws (length m) round m (omega arith) v

  pub IsLinked-id :
      (k : ℕ) (c : C) (m : List (ℕ × C)) → IsLinked m → find k m ≡ some c → ops.get_cluster_id c ≡ k
  IsLinked-id k c [] v e = absurd (cc e)
  IsLinked-id k c ((j, d) ∷ m) v e = elim (Bool-cases (j == k)) [
    | inl hit ↦
        let same : d ≡ c = cc (rw hit at e) in
        let key : j ≡ k = ground (arith, hit) in rw (← same, ← key) (head-id j d m v)
    | inr miss ↦ IsLinked-id k c m (IsLinked-tail j d m v) (rw miss at e)
  ]
