-- ===== src/Bbr2/State.antt =====
-- ns3/mp-video/model/congestion/bbr_sender_v2.h: the controller's state.
use mp_video_simulation.Prelude.{ℕ, Bool, false, Option, none}
use mp_video_simulation.Sampler.{Bandwidths}
use mp_video_simulation.Bbr2.Flight
use mp_video_simulation.Bbr2.Flight.{Flight}

pub data Mode : Type 0 where
  st_start st_drain st_increase st_decrease : Mode

-- What the controller uses of float (`Fl`), of the quic types and of the filter of bandwidths (`F`).
-- Times are in microseconds, bandwidths in bits per second, and zero is a value that is not set.
pub record Parts (Fl F : Type 0) : Type 0 where
  pub bandwidths : Bandwidths
  -- A literal of so many thousandths.
  pub milli : ℕ → Fl
  pub is_one : Fl → Bool
  pub ratio : ℕ → ℕ → Fl
  pub max_of : Fl → Fl → Fl
  -- The products of a float with a bandwidth, with a time and with bytes.
  pub times : Fl → ℕ → ℕ
  pub times_delta : Fl → ℕ → ℕ
  pub times_bytes : Fl → ℕ → ℕ
  -- A time by a bandwidth, in bytes.
  pub bdp : (delta bandwidth : ℕ) → ℕ
  pub get_best : F → ℕ
  pub update : (sample round : ℕ) → F → F
  pub reset : (sample round : ℕ) → F → F

-- MyBbrSenderV2, less the constants that the constructor keeps in fields. A Bool says whether the
-- observer and the trace are set; `none` is an infinite time.
pub record Bbr2 (Fl F : Type 0) : Type 0 where
  pub min_bw : ℕ
  pub observer : Bool
  pub trace_state : Bool
  pub mode : Mode
  pub flight : Flight
  pub min_rtt : ℕ
  pub min_rtt_timestamp : ℕ
  pub min_rtt_in_decrease : Option ℕ
  pub min_rtt_timestamp_in_decrease : ℕ
  pub min_rtt_record : ℕ
  pub exit_probe_rtt_at : ℕ
  pub max_bw_in_increase : ℕ
  pub congestion_start_round : ℕ
  pub congestion_round_count : ℕ
  pub pacing_rate : ℕ
  pub sending_rate : ℕ
  pub max_bandwidth : F
  pub pacing_gain : Fl
  pub is_at_full_bandwidth : Bool
  pub rounds_without_bandwidth_gain : ℕ
  pub bandwidth_at_last_round : ℕ
  pub dynamic_congestion_back_off : Fl

-- kDefaultHighGain, 1 / kDefaultHighGain, kDecreaseGain, kStartupGrowthTarget,
-- kBandwidthLossFactor, kSimilarMinRttThreshold and kSelfInflictQueueBackoff.
module _ {Fl F : Type 0} (parts : Parts Fl F) where
  abbrev pub high_gain : Fl
  high_gain = parts.milli 2000

  abbrev pub drain_gain : Fl
  drain_gain = parts.milli 500

  abbrev pub even_gain : Fl
  even_gain = parts.milli 1000

  abbrev pub decrease_gain : Fl
  decrease_gain = parts.milli 750

  abbrev pub startup_growth_target : Fl
  startup_growth_target = parts.milli 1250

  abbrev pub bandwidth_loss_factor : Fl
  bandwidth_loss_factor = parts.milli 900

  abbrev pub similar_min_rtt_threshold : Fl
  similar_min_rtt_threshold = parts.milli 1125

  abbrev pub self_inflict_queue_backoff : Fl
  self_inflict_queue_backoff = parts.milli 900

  -- The constructor, with the filter that it makes.
  abbrev pub init : (min_bps : ℕ) → (observer : Bool) → F → Bbr2 Fl F
  init min_bps observer filter = record {
    min_bw = min_bps;
    observer = observer;
    trace_state = false;
    mode = st_start;
    flight = Flight.init;
    min_rtt = 0;
    min_rtt_timestamp = 0;
    min_rtt_in_decrease = none;
    min_rtt_timestamp_in_decrease = 0;
    min_rtt_record = 0;
    exit_probe_rtt_at = 0;
    max_bw_in_increase = 0;
    congestion_start_round = 0;
    congestion_round_count = 0;
    pacing_rate = 0;
    sending_rate = 0;
    max_bandwidth = filter;
    pacing_gain = high_gain;
    is_at_full_bandwidth = false;
    rounds_without_bandwidth_gain = 0;
    bandwidth_at_last_round = 0;
    dynamic_congestion_back_off = parts.milli 0;
  }

-- kRoundTripsWithoutGrowthBeforeExitingStartup, kContinuousBandwidthLoss, the initial window in
-- bytes, kMinRttExpiry in microseconds, and kPacketIncreaseSize.
abbrev pub num_startup_rtts : ℕ
num_startup_rtts = 3

abbrev pub num_bw_decrease_rtts : ℕ
num_bw_decrease_rtts = 1

abbrev pub initial_congestion_window : ℕ
initial_congestion_window = 10000

abbrev pub min_rtt_expiry : ℕ
min_rtt_expiry = 10000000

abbrev pub packet_increase_size : ℕ
packet_increase_size = 1000
