-- ===== src/Bbr/State.antt =====
-- ns3/mp-video/model/congestion/bbr_sender_v1.h: the controller's state.
use mp_video_simulation.Prelude.{ℕ, Bool, Option, List}

pub data Mode : Type 0 where
  start_up probe_ab probe_bw probe_rtt insisit_phase : Mode

-- The gains that occur: 1.25, 0.75 and 1.
pub data Gain : Type 0 where
  higher lower even : Gain

-- The floating point that the controller uses, and the filter of bandwidths. Times are in
-- microseconds and bandwidths in bits per second; zero stands for a value that is not set.
pub record Parts (F : Type 0) : Type 0 where
  pub get_best : F → ℕ
  pub update : (sample time : ℕ) → F → F
  pub reset : (sample time : ℕ) → F → F
  -- QuicBandwidth::Infinite and FromBytesAndTimeDelta.
  pub infinite : ℕ
  pub from_bytes_and_time : (bytes delta : ℕ) → ℕ
  -- A bandwidth by 0.9, 0.8 and kExitFastProbeThreshold, and by 0.8 or a ratio, if that is more.
  pub nine_tenths : ℕ → ℕ
  pub eight_tenths : ℕ → ℕ
  pub exit_fast_probe : ℕ → ℕ
  pub loss_back_off : (num den bandwidth : ℕ) → ℕ
  -- kSimilarMinRttThreshold.
  pub similar : ℕ → ℕ
  pub insist_factor : ℕ → ℕ
  pub insist_back_off : ℕ → ℕ
  pub cogestion_back_off : ℕ → ℕ
  pub times : Gain → ℕ → ℕ

-- What a cluster reports: its key, its id, and the rates that it has seen.
pub record Estimate : Type 0 where
  pub cluster : ℕ
  pub cluster_id : ℕ
  pub sent_bw : ℕ
  pub acked_bw : ℕ
  pub is_probe : Bool

-- SentClusterInfo, whose links are the keys of the clusters that they point to. The calls that
-- count a packet act on the whole table.
pub record Clusters (C : Type 0) : Type 0 where
  pub new : (round : ℕ) → (is_probe : Bool) → C
  pub set_prev : Option ℕ → C → C
  pub set_next : Option ℕ → C → C
  pub get_next : C → Option ℕ
  pub get_cluster_id : C → ℕ
  pub on_packet_sent : (round now packet_number bytes : ℕ) → List (ℕ × C) → List (ℕ × C)
  pub on_ack : (round packet_number now : ℕ) → List (ℕ × C) → List (ℕ × C) × List Estimate
  -- The time in milliseconds and the bytes of GetSentInfo and of GetAckedInfo.
  pub get_sent_info : C → ℕ × ℕ
  pub get_acked_info : C → ℕ × ℕ

-- MyBbrSenderV1, over the type of the filters and that of SentClusterInfo. The clusters that were
-- acknowledged are the keys of their objects.
pub record Bbr (F C : Type 0) : Type 0 where
  pub min_bps : ℕ
  pub mode : Mode
  pub round_trip_count : ℕ
  pub connection_info : List (ℕ × C)
  pub seq_round_map : List (ℕ × ℕ)
  pub seq_ts_map : List (ℕ × ℕ)
  pub min_rtt : ℕ
  pub recored_min_rtt : ℕ
  pub global_min_rtt : ℕ
  pub min_rtt_timestamp : ℕ
  pub exit_probe_rtt_at : ℕ
  pub pacing_rate : ℕ
  pub pacing_gain : Gain
  pub cycle_current_offset : ℕ
  pub last_cycle_start : ℕ
  pub last_ack_seq : ℕ
  pub max_bandwidth : F
  pub avergae_bandwidth : F
  pub max_rate_record : ℕ
  pub sending_rate : ℕ
  pub recover_rate : ℕ
  pub last_target_rate : ℕ
  pub is_recover_effective : Bool
  pub average_round : ℕ
  pub acked_clusters : List ℕ
  pub user_period : ℕ
  pub change_state_probe_ab_bw : Bool
  pub change_state_probe_bw_insist : Bool
  pub stable_rate : ℕ
  pub ai_factor : ℕ
  pub observer : Bool
  pub back_off_id : ℕ
