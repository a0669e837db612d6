-- ===== src/Bbr5/State.antt =====
-- ns3/mp-video/model/congestion/bbr_sender_v5.h: the controller's state.
use mp_video_simulation.Prelude.{ℕ, Bool, false, Option, none}
use mp_video_simulation.Bbr2.Flight
use mp_video_simulation.Bbr2.Flight.{Flight}
use mp_video_simulation.Bbr2.State.{Mode, st_start, Parts, high_gain}

-- MyBbrSenderV5, less the constants that the constructor keeps in fields and the fields that no
-- call reads. The modes and the packets in flight are those of bbr_sender_v2, whose code is repeated.
-- A Bool says whether the observer and the trace are set; `none` is an infinite time.
pub record Bbr5 (Fl F : Type 0) : Type 0 where
  pub min_bw : ℕ
  pub observer : Bool
  pub trace_state : Bool
  pub mode : Mode
  pub flight : Flight
  pub last_backoff_count : ℕ
  pub seq_at_backoff : ℕ
  pub congestion_backoff_flag : Bool
  pub base_line_rtt : Option ℕ
  pub base_line_rtt_timestamp : ℕ
  pub min_rtt : ℕ
  pub s_rtt : ℕ
  pub min_rtt_timestamp : ℕ
  pub min_rtt_in_decrease : Option ℕ
  pub min_rtt_timestamp_in_decrease : ℕ
  pub min_rtt_record : ℕ
  pub exit_probe_rtt_at : ℕ
  pub max_bw_in_increase : ℕ
  pub pacing_rate : ℕ
  pub reference_rate : ℕ
  pub max_bandwidth : F
  pub pacing_gain : Fl
  pub is_at_full_bandwidth : Bool
  pub cycle_current_offset : ℕ
  pub last_cycle_start : ℕ
  pub rounds_without_bandwidth_gain : ℕ
  pub bandwidth_at_last_round : ℕ
  pub bdp : ℕ
  pub congestion_recv_seq : ℕ
  pub congestion_recv_cut_seq : ℕ
  pub min_rtt_expired : Bool

abbrev pub gain_cycle_length : ℕ
gain_cycle_length = 8

module _ {Fl F : Type 0} (parts : Parts Fl F) where
  -- kTolerableDelayFactor.
  abbrev pub tolerable_delay_factor : Fl
  tolerable_delay_factor = parts.milli 1200

  -- The constructor, with the filter that it makes.
  abbrev pub init : (min_bps : ℕ) → (observer : Bool) → F → Bbr5 Fl F
  init min_bps observer filter = record {
    min_bw = min_bps;
    observer = observer;
    trace_state = false;
    mode = st_start;
    flight = Flight.init;
    last_backoff_count = 0;
    seq_at_backoff = 0;
    congestion_backoff_flag = false;
    base_line_rtt = none;
    base_line_rtt_timestamp = 0;
    min_rtt = 0;
    s_rtt = 0;
    min_rtt_timestamp = 0;
    min_rtt_in_decrease = none;
    min_rtt_timestamp_in_decrease = 0;
    min_rtt_record = 0;
    exit_probe_rtt_at = 0;
    max_bw_in_increase = 0;
    pacing_rate = 0;
    reference_rate = 0;
    max_bandwidth = filter;
    pacing_gain = high_gain parts;
    is_at_full_bandwidth = false;
    cycle_current_offset = 0;
    last_cycle_start = 0;
    rounds_without_bandwidth_gain = 0;
    bandwidth_at_last_round = 0;
    bdp = 0;
    congestion_recv_seq = 0;
    congestion_recv_cut_seq = 0;
    min_rtt_expired = false;
  }
