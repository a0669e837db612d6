-- ===== src/Bbr/Examples.antt =====
-- Concrete inputs of the congestion controller.
use mp_video_simulation.Prelude.OrderedMap.{find}
use mp_video_simulation.Bbr.Clusters.Links.{Has, ClusterLaws}
use mp_video_simulation.Bbr.Averages.{average}
use mp_video_simulation.Bbr.Averages.Live.{IsTracked, average-IsTracked}
use mp_video_simulation.Prelude.{
  List, ◌+◌, ◌≡◌, zero, suc, Option, some, none, length, max, ℕ, ◌*◌, ◌/◌, true, false, refl, [],
  ◌∷◌, Returns, arith,
}
use mp_video_simulation.Bbr.State.{Clusters, probe_ab, Gain, higher, lower, even, Parts, Bbr}
use mp_video_simulation.Bbr.Modes.{pacing_gain_2_at}
use mp_video_simulation.Bbr.Rates.{begin_ack}
use mp_video_simulation.Bbr.Gains.{gain_of, Settled}
use mp_video_simulation.Bbr.Acks.{begin_ack-Settled}

abbrev exact_times : Gain → ℕ → ℕ
exact_times higher n = n * 5 / 4
exact_times lower n = n * 3 / 4
exact_times even n = n

-- A filter that keeps the largest sample, with the arithmetic rounded down.
abbrev exact : Parts ℕ
exact = record {
  get_best = λ best. best;
  update = λ sample time best. sample;
  reset = λ sample time best. sample;
  infinite = 1000000000000;
  from_bytes_and_time = λ bytes delta. bytes * 8000000 / delta;
  nine_tenths = λ n. n * 9 / 10;
  eight_tenths = λ n. n * 8 / 10;
  exit_fast_probe = λ n. n * 12 / 10;
  loss_back_off = λ num den n. max (n * 8 / 10) (n * num / den);
  similar = λ n. n * 9 / 8;
  insist_factor = λ n. n * 95 / 100;
  insist_back_off = λ n. n * 6 / 10;
  cogestion_back_off = λ n. n / 2;
  times = exact_times;
}

-- In PROBE_AB, eleven seconds after the last minimum.
abbrev probing_with : {C : Type 0} → List (ℕ × C) → List ℕ → Bbr ℕ C
probing_with table acked = record {
  min_bps = 500000;
  mode = probe_ab;
  round_trip_count = 4;
  connection_info = table;
  seq_round_map = [];
  seq_ts_map = (7, 11900000) ∷ (8, 11950000) ∷ [];
  min_rtt = 40000;
  recored_min_rtt = 0;
  global_min_rtt = 40000;
  min_rtt_timestamp = 1000000;
  exit_probe_rtt_at = 0;
  pacing_rate = 500000;
  pacing_gain = lower;
  cycle_current_offset = 3;
  last_cycle_start = 11900000;
  last_ack_seq = 6;
  max_bandwidth = 900000;
  avergae_bandwidth = 0;
  max_rate_record = 800000;
  sending_rate = 500000;
  recover_rate = 0;
  last_target_rate = 0;
  is_recover_effective = false;
  average_round = 0;
  acked_clusters = acked;
  user_period = 0;
  change_state_probe_ab_bw = false;
  change_state_probe_bw_insist = false;
  stable_rate = 0;
  ai_factor = 0;
  observer = true;
  back_off_id = 0;
}

abbrev probing : Bbr ℕ ℕ
probing = probing_with [] []

begin_ack-Settled_example : Returns (Settled 12000000) (begin_ack exact 3 12000000 7 probing)
unfolding gain_of pacing_gain_2_at
begin_ack-Settled_example =
    begin_ack-Settled exact 3 12000000 7 probing (record { in_cycle = omega arith; due = refl })
      (omega arith)

-- A cluster as its id and its link.
abbrev linked : Clusters (ℕ × Option ℕ)
linked = record {
  new = λ round is_probe. (round, none);
  set_prev = λ prev c. c;
  set_next = λ next (id, old). (id, next);
  get_next = λ (id, next). next;
  get_cluster_id = λ (id, next). id;
  on_packet_sent = λ round now packet_number bytes m. m;
  on_ack = λ round packet_number now m. (m, []);
  get_sent_info = λ c. (20, 1000);
  get_acked_info = λ c. (25, 1000);
}

linked-ClusterLaws : ClusterLaws linked
linked-ClusterLaws = record {
  next_of_new = λ round is_probe. refl;
  next_of_set_next = λ next c. refl;
  next_of_set_prev = λ prev c. refl;
  id_of_new = λ round is_probe. refl;
  id_of_set_next = λ next c. refl;
  id_of_set_prev = λ prev c. refl;
}

-- Clusters 1 to 11, of which the first ten were acknowledged.
abbrev chain : (n k : ℕ) → List (ℕ × (ℕ × Option ℕ))
chain zero k = (k, (k, none)) ∷ []
chain (suc n) k = (k, (k, some (k + 1))) ∷ chain n (k + 1)

abbrev ten_acked : Bbr ℕ (ℕ × Option ℕ)
ten_acked = probing_with (chain 10 1) (1 ∷ 2 ∷ 3 ∷ 4 ∷ 5 ∷ 6 ∷ 7 ∷ 8 ∷ 9 ∷ 10 ∷ [])

abbrev has : (k : ℕ) (c : ℕ × Option ℕ) → find k (chain 10 1) ≡ some c → Has k (chain 10 1)
has k c e = record { cluster = c; at = e }

average-IsTracked_example :
    Returns
      (λ t. IsTracked linked t.acked_clusters t.connection_info × (length t.acked_clusters ≡ 9))
      (average linked exact ten_acked)
average-IsTracked_example =
    average-IsTracked linked exact linked-ClusterLaws ten_acked (omega arith) (record {
      linked = (
        refl,
        refl,
        (
          refl,
          refl,
          (
            refl,
            refl,
            (
              refl,
              refl,
              (
                refl,
                refl,
                (refl, refl, (refl, refl, (refl, refl, (refl, refl, (refl, refl, (refl, refl)))))),
              ),
            ),
          ),
        ),
      );
      bound = 0;
      rising = omega arith;
      live = (
        has 1 (1, some 2) refl,
        (
          has 2 (2, some 3) refl,
          (
            has 3 (3, some 4) refl,
            (
              has 4 (4, some 5) refl,
              (
                has 5 (5, some 6) refl,
                (
                  has 6 (6, some 7) refl,
                  (
                    has 7 (7, some 8) refl,
                    (
                      has 8 (8, some 9) refl,
                      (has 9 (9, some 10) refl, (has 10 (10, some 11) refl, tt)),
                    ),
                  ),
                ),
              ),
            ),
          ),
        ),
      );
    })
