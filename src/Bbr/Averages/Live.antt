-- ===== src/Bbr/Averages/Live.antt =====
-- No cluster that ns3/mp-video/model/congestion/bbr_sender_v1.cc still refers to is deleted.
use mp_video_simulation.Prelude.{
  ℕ, zero, suc, ◌+◌, ◌-◌, ◌≤◌, ◌<◌, ◌≡◌, sym, subst, List, [], ◌∷◌, arith, length, All, Returns,
  Returns-then, Returns-map,
}
use mp_video_simulation.Bbr.State.{Parts, Clusters, Bbr}
use mp_video_simulation.Bbr.Clusters.{remove_cluster_le}
use mp_video_simulation.Bbr.Clusters.Links.{
  Has, ClusterLaws, IsLinked, IsLinked-id, LeavesAbove, remove_cluster_le-LeavesAbove,
}
use mp_video_simulation.Bbr.Averages.{
  Totals, no_totals, count_cluster, total_of, drop_stale, average,
}

-- Keys that rise, above a bound.
abbrev pub Rising : ℕ → List ℕ → Type 0
Rising b [] = Unit
Rising b (k ∷ ks) = (b < k) × Rising k ks

Rising-from : (b i : ℕ) (ks : List ℕ) → b < i → Rising i ks → Rising b ks
Rising-from b i [] h r = tt
Rising-from b i (k ∷ ks) h r = (omega (arith, h, r.0), r.1)

module _ {C : Type 0} (ops : Clusters C) where
  -- Clusters that were acknowledged, in the order of their keys, and that are in the linked table.
  pub record IsTracked (ks : List ℕ) (table : List (ℕ × C)) : Type 0 where
    pub linked : IsLinked ops table
    pub bound : ℕ
    pub rising : Rising bound ks
    pub live : All (λ k. Has k table) ks

  total_of_returns :
      (ks : List ℕ) (table : List (ℕ × C)) (t : Totals)
      → All (λ k. Has k table) ks
      → Returns (λ t'. Unit) (total_of ops ks table t)
  unfolding total_of
  total_of_returns [] table t a = tt
  total_of_returns (k ∷ ks) table t a =
      rw (total_of, a.0.at) (total_of_returns ks table (count_cluster ops a.0.cluster t) a.1)

  -- The keys above one stay in the table.
  stay_live :
      (k : ℕ) (ks : List ℕ) (m m' : List (ℕ × C))
      → Rising k ks
      → LeavesAbove ops k m m'
      → All (λ i. Has i m) ks
      → All (λ i. Has i m') ks
  stay_live k [] m m' r left a = tt
  stay_live k (i ∷ ks) m m' r left a =
      (left.1 i r.0 a.0, stay_live k ks m m' (Rising-from k i ks r.0 r.1) left a.1)

  drop_stale-IsTracked :
      (laws : ClusterLaws ops) (n : ℕ) (ks : List ℕ) (table : List (ℕ × C))
      → n ≤ length ks
      → IsTracked ks table
      → Returns
          (λ (ks', table'). IsTracked ks' table' × (length ks' + n ≡ length ks))
          (drop_stale ops n ks table)
  unfolding drop_stale
  drop_stale-IsTracked laws zero ks table enough v = (v, omega arith)
  drop_stale-IsTracked laws (suc n) [] table enough v = absurd (omega (arith, enough))
  drop_stale-IsTracked laws (suc n) (k ∷ ks) table enough v =
      let c = v.live.0.cluster in
      let id = IsLinked-id ops k c table v.linked v.live.0.at in
      let removed : Returns (LeavesAbove ops k table)
          (remove_cluster_le ops (ops.get_cluster_id c) table) =
        subst (λ r. Returns (LeavesAbove ops k table) (remove_cluster_le ops r table)) (sym id)
          (remove_cluster_le-LeavesAbove ops laws k table v.linked) in
      rw (drop_stale, v.live.0.at)
        (Returns-then (LeavesAbove ops k table) _
          (remove_cluster_le ops (ops.get_cluster_id c) table) (drop_stale ops n ks) removed
          (λ table' left.
            Returns-map _ _ (drop_stale ops n ks table') (λ r e. (e.0, omega (arith, e.1)))
              (drop_stale-IsTracked laws n ks table' (omega (arith, enough)) (record {
                linked = left.0;
                bound = k;
                rising = v.rising.1;
                live = stay_live k ks table table' v.rising.1 left v.live.1;
              }))))

module _ {F C : Type 0} (ops : Clusters C) (parts : Parts F) where
  -- The last block of OnAck, with ten acknowledged clusters or more, whose keys rise, which are
  -- in the table, and where each cluster links to the next: the call returns, so that no
  -- deleted cluster is read or written, nine acknowledged clusters are left, and they are in
  -- the table, whose links still follow its order.
  pub average-IsTracked :
      (laws : ClusterLaws ops) (s : Bbr F C)
      → 10 ≤ length s.acked_clusters
      → IsTracked ops s.acked_clusters s.connection_info
      → Returns
          (λ t. IsTracked ops t.acked_clusters t.connection_info × (length t.acked_clusters ≡ 9))
          (average ops parts s)
  unfolding average
  average-IsTracked laws s enough v =
      let ks = s.acked_clusters in
      let table = s.connection_info in
      let stale = length ks - 9 in
      let tracked : List ℕ × List (ℕ × C) → Type 0 =
        λ (ks', table'). IsTracked ops ks' table' × (length ks' + stale ≡ length ks) in
      Returns-then (λ t. Unit) _ (total_of ops ks table no_totals) _
        (total_of_returns ops ks table no_totals v.live)
        (λ t u.
          Returns-then tracked _ (drop_stale ops stale ks table) _
            (drop_stale-IsTracked ops laws stale ks table (omega arith) v)
            (λ r e. (e.0, omega (arith, e.1, enough))))
