-- ===== src/Bbr/Averages.antt =====
-- ns3/mp-video/model/congestion/bbr_sender_v1.cc: the average of the last clusters, and `OnAck`.
pub mod Live
use mp_video_simulation.Prelude.{
  ℕ, ◌+◌, ◌-◌, ◌*◌, ◌%◌, zero, suc, Bool, true, false, Option, none, some, List, [], ◌∷◌, length,
  leb, ltb, ◌==◌, min, if◌then◌else◌, add64,
}
use mp_video_simulation.Prelude.OrderedMap.{find}
use mp_video_simulation.Bbr.State.{Parts, Clusters, Bbr}
use mp_video_simulation.Bbr.Rates.{calculate_pacing_rate, begin_ack}
use mp_video_simulation.Bbr.Clusters.{remove_cluster_le}
use mp_video_simulation.Bbr.Estimates.{average_ack_rate_window_size, tell_cluster, change_mode}

-- What the loop over the clusters adds up.
pub record Totals : Type 0 where
  pub sent_bytes : ℕ
  pub acked_bytes : ℕ
  pub sent_delta : ℕ
  pub ack_delta : ℕ
  pub cluster_id : ℕ

abbrev pub no_totals : Totals
no_totals = record {
  sent_bytes = 0;
  acked_bytes = 0;
  sent_delta = 0;
  ack_delta = 0;
  cluster_id = 0;
}

module _ {C : Type 0} (ops : Clusters C) where
  abbrev pub count_cluster : C → Totals → Totals
  count_cluster c t =
      let (sent_delta, sent_bytes) = ops.get_sent_info c in
      let (ack_delta, acked_bytes) = ops.get_acked_info c in
      record {
        sent_bytes = if sent_delta == 0 then t.sent_bytes else add64 t.sent_bytes sent_bytes;
        sent_delta = add64 t.sent_delta sent_delta;
        acked_bytes = if ack_delta == 0 then t.acked_bytes else add64 t.acked_bytes acked_bytes;
        ack_delta = add64 t.ack_delta ack_delta;
        cluster_id = if ack_delta == 0 then t.cluster_id else ops.get_cluster_id c;
      }

  -- The loop; `none` is a cluster that is deleted.
  unfoldable pub total_of : List ℕ → List (ℕ × C) → Totals → Option Totals
  total_of [] table t = some t
  total_of (k ∷ ks) table t = elim (find k table) [
    | none ↦ none
    | some c ↦ total_of ks table (count_cluster c t)
  ]

  -- The loop that forgets the oldest clusters, `n` of them.
  unfoldable pub drop_stale : (n : ℕ) → List ℕ → List (ℕ × C) → Option (List ℕ × List (ℕ × C))
  unfolding remove_cluster_le
  drop_stale zero ks table = some (ks, table)
  drop_stale (suc n) [] table = none
  drop_stale (suc n) (k ∷ ks) table = elim (find k table) [
    | none ↦ none
    | some c ↦ elim (remove_cluster_le ops (ops.get_cluster_id c) table) [
      | none ↦ none
      | some table' ↦ drop_stale n ks table'
    ]
  ]

module _ {F C : Type 0} (ops : Clusters C) (parts : Parts F) where
  -- The rate of bytes in a time in milliseconds.
  abbrev pub rate_of : (bytes delta : ℕ) → ℕ
  rate_of bytes delta =
      if delta == 0 then parts.infinite else parts.from_bytes_and_time bytes (delta * 1000)

  abbrev pub average_rate : (min_bps : ℕ) → Totals → ℕ
  average_rate min_bps t =
      let rate = min (rate_of t.sent_bytes t.sent_delta) (rate_of t.acked_bytes t.ack_delta) in
      if rate == parts.infinite then min_bps else rate

  -- The last block of `OnAck`.
  unfoldable pub average : Bbr F C → Option (Bbr F C)
  unfolding total_of drop_stale
  average s = elim (total_of ops s.acked_clusters s.connection_info no_totals) [
    | none ↦ none
    | some t ↦
        let round = add64 s.average_round (t.cluster_id % average_ack_rate_window_size) in
        let stale = length s.acked_clusters - (average_ack_rate_window_size - 1) in
        elim (drop_stale ops stale s.acked_clusters s.connection_info) [
          | none ↦ none
          | some (ks, table) ↦ some (record s {
            average_round = round;
            avergae_bandwidth = parts.update (average_rate s.min_bps t) round s.avergae_bandwidth;
            acked_clusters = ks;
            connection_info = table;
          })
        ]
  ]

  -- The end of `OnAck`, and whether the observer is told.
  unfoldable pub end_ack : (random now packet_number : ℕ) → Bbr F C → Option (Bbr F C × Bool)
  unfolding tell_cluster change_mode calculate_pacing_rate average
  end_ack random now packet_number s =
      let heard = tell_cluster ops parts now packet_number s in
      elim (calculate_pacing_rate parts (change_mode random now heard)) [
        | none ↦ none
        | some (s', told) ↦
            if leb average_ack_rate_window_size (length heard.acked_clusters)
            then elim (average s') [ none ↦ none | some s'' ↦ some (s'', told) ]
            else some (s', told)
      ]

  -- `OnAck`, with two draws; `none` is a failed assertion or a cluster that is deleted.
  unfoldable pub on_ack : (draw draw' now packet_number : ℕ) → Bbr F C → Option (Bbr F C × Bool)
  unfolding begin_ack end_ack
  on_ack draw draw' now packet_number s = elim (begin_ack parts draw now packet_number s) [
    | none ↦ some (s, false)
    | some s' ↦ end_ack draw' now packet_number s'
  ]
