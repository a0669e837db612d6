-- ===== src/Bbr/Clusters.antt =====
-- ns3/mp-video/model/congestion/bbr_sender_v1.cc: the table of clusters and its links.
pub mod Links
use mp_video_simulation.Prelude.{
  ℕ, zero, suc, length, Bool, true, false, Option, none, some, List, [], ◌∷◌, leb, if◌then◌else◌,
}
use mp_video_simulation.Prelude.OrderedMap
use mp_video_simulation.Prelude.OrderedMap.{find, update}
use mp_video_simulation.Bbr.State.{
  Mode, start_up, probe_ab, probe_bw, probe_rtt, insisit_phase, Gain, higher, lower, even, Clusters,
  Bbr,
}

-- The key of rbegin(), if there is one.
unfoldable pub last_key : {V : Type 0} → List (ℕ × V) → Option ℕ
last_key [] = none
last_key ((k, v) ∷ []) = some k
last_key ((k, v) ∷ w ∷ m) = last_key (w ∷ m)

-- pacing_gain_ > 1.
abbrev pub is_higher : Gain → Bool
is_higher higher = true
is_higher lower = false
is_higher even = false

-- `ShouldSendProbePacket`.
abbrev pub should_send_probe_packet : {F C : Type 0} → Bbr F C → Bool
should_send_probe_packet s = elim s.mode [
  | start_up ↦ is_higher s.pacing_gain
  | probe_ab ↦ is_higher s.pacing_gain
  | probe_bw ↦ is_higher s.pacing_gain
  | probe_rtt ↦ is_higher s.pacing_gain
  | insisit_phase ↦ true
]

module _ {C : Type 0} (ops : Clusters C) where
  -- SetNext on the cluster of a key.
  unfoldable pub link_next : (next : ℕ) → Option ℕ → List (ℕ × C) → List (ℕ × C)
  unfolding update
  link_next next none m = m
  link_next next (some prev) m = elim (find prev m) [
    | none ↦ m
    | some c ↦ update prev (ops.set_next (some next) c) m
  ]

  -- A new cluster, after the last one.
  unfoldable pub add_cluster : (round : ℕ) → (is_probe : Bool) → List (ℕ × C) → List (ℕ × C)
  unfolding last_key link_next
  add_cluster round is_probe m =
      let prev = last_key m in
      OrderedMap.insert round (ops.set_prev prev (ops.new round is_probe)) (link_next round prev m)

  -- The beginning of `AddPacketInfoSampler`.
  unfoldable pub open_cluster : (round : ℕ) → (is_probe : Bool) → List (ℕ × C) → List (ℕ × C)
  unfolding add_cluster
  open_cluster round is_probe m = elim (find round m) [
    | none ↦ add_cluster round is_probe m
    | some c ↦ m
  ]

  -- SetPrev(NULL) on the cluster that a link points to; `none` if it is gone.
  unfoldable pub unlink_prev : Option ℕ → List (ℕ × C) → Option (List (ℕ × C))
  unfolding update
  unlink_prev none m = some m
  unlink_prev (some next) m = elim (find next m) [
    | none ↦ none
    | some c ↦ some (update next (ops.set_prev none c) m)
  ]

  -- The loop of `RemoveClusterLE`, on as many clusters as there are.
  unfoldable pub remove_clusters : (fuel round : ℕ) → List (ℕ × C) → Option (List (ℕ × C))
  unfolding unlink_prev
  remove_clusters fuel round [] = some []
  remove_clusters zero round ((id, c) ∷ m) = some ((id, c) ∷ m)
  remove_clusters (suc fuel) round ((id, c) ∷ m) =
      if leb id round
      then elim (unlink_prev (ops.get_next c) m) [
        | none ↦ none
        | some m' ↦ remove_clusters fuel round m'
      ]
      else some ((id, c) ∷ m)

  -- `RemoveClusterLE`.
  unfoldable pub remove_cluster_le : (round : ℕ) → List (ℕ × C) → Option (List (ℕ × C))
  unfolding remove_clusters
  remove_cluster_le round m = remove_clusters (length m) round m

  -- `AddPacketInfoSampler`.
  unfoldable pub add_packet_info_sampler :
      {F : Type 0} → (now packet_number bytes : ℕ) → Bbr F C → Bbr F C
  unfolding open_cluster
  add_packet_info_sampler now packet_number bytes s =
      let round = s.round_trip_count in
      let opened = open_cluster round (should_send_probe_packet s) s.connection_info in
      record s {
        connection_info = ops.on_packet_sent round now packet_number bytes opened;
        seq_round_map = OrderedMap.insert packet_number round s.seq_round_map;
      }
