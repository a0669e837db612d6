-- ===== src/V1/PathSender/State.antt =====
-- ns3/mp-video/model/path_sender_v1.h: the fields of the sending end, and what its calls emit.
use mp_video_simulation.Prelude.{
  ℕ, ◌/◌, ◌%◌, Bool, true, false, Option, none, some, List, [], if◌then◌else◌, ◌==◌, u32_mod, add32,
}
use mp_video_simulation.V1.Wire.{VideoPacketWrapper}
use mp_video_simulation.V1.Doubles.{Doubles}

-- PathSenderV1. A Bool says of a pointer or a trace whether it is set, and of the timer whether its
-- event is pending. The packets of the queues stand for the objects that the upper layer shares;
-- the rates are int64_t numbers that are not negative.
pub record PathSender : Type 0 where
  pub min_bps : ℕ
  pub max_bps : ℕ
  pub first_packet : Bool
  pub mpsender : Bool
  pub pid : ℕ
  pub sending_queue : List VideoPacketWrapper
  pub resending_queue : List VideoPacketWrapper
  pub id_delay_map : List (ℕ × ℕ)
  pub seq_id_map : List (ℕ × ℕ)
  pub seq_delay_map : List (ℕ × ℕ)
  pub seq : ℕ
  pub recv_seq : ℕ
  pub heart_timer : Bool
  pub trace_rate : Bool
  pub trace_loss : Bool
  pub trace_time_offset : Bool
  pub rate_out_next : ℕ
  pub cur_rtt : ℕ
  pub aggregate_delay : ℕ
  pub pending_bytes : ℕ
  pub bps : ℕ
  pub s_bps : ℕ
  pub rate_update_next : ℕ
  pub over_offset_ts : ℕ
  pub queue_offset : ℕ

-- Messages on the network, calls of the pacer, of the upper layer and of the traces, and timers.
pub data Output : Type 0 where
  send_ping : (now : ℕ) → Output
  send_padding : (seq now : ℕ) → Output
  send_stream : (seq : ℕ) → (body : List ℕ) → Output
  on_packet_sent : (seq size : ℕ) → Output
  on_congestion_event : (seq : ℕ) → Output
  packet_lost : (pid packet_id : ℕ) → Output
  rate_update : Output
  network_available : (pid : ℕ) → Output
  network_stop : (pid : ℕ) → Output
  rate : (bps : ℕ) → Output
  loss : (seq rtt : ℕ) → Output
  time_offset_of : (packet_id offset : ℕ) → Output
  schedule_heart_beat : (delay : ℕ) → Output

-- MAX_BUF_SIZE and PADDING_SIZE.
abbrev pub max_buf_size : ℕ
max_buf_size = 1400

abbrev pub padding_size : ℕ
padding_size = 500

-- The constructor.
abbrev pub init : (min_bps max_bps : ℕ) → PathSender
init min_bps max_bps = record {
  min_bps = min_bps;
  max_bps = max_bps;
  first_packet = true;
  mpsender = false;
  pid = 0;
  sending_queue = [];
  resending_queue = [];
  id_delay_map = [];
  seq_id_map = [];
  seq_delay_map = [];
  seq = 1;
  recv_seq = 0;
  heart_timer = false;
  trace_rate = false;
  trace_loss = false;
  trace_time_offset = false;
  rate_out_next = 0;
  cur_rtt = 0;
  aggregate_delay = 0;
  pending_bytes = 0;
  bps = 500000;
  s_bps = 500000;
  rate_update_next = 0;
  over_offset_ts = 0;
  queue_offset = 0;
}

-- `get_first_ts`, where `none` is -1.
unfoldable pub get_first_ts : (mpsender_first_ts : ℕ) → PathSender → Option ℕ
get_first_ts first_ts s = if s.mpsender then some first_ts else none

module _ (fl : Doubles) where
  -- The milliseconds that the pending bytes take at the rate.
  unfoldable pub waitting : PathSender → fl.Float
  waitting s =
      fl.divide (fl.times (fl.times (fl.float s.pending_bytes) (fl.float 8)) (fl.float 1000))
        (fl.float s.s_bps)

  -- `get_cost`.
  unfoldable pub get_cost : PathSender → ℕ
  unfolding waitting
  get_cost s = add32 (fl.truncate (fl.plus (fl.float 0) (waitting s)) % u32_mod) (s.cur_rtt / 2)

  -- `get_aggregate_delay`.
  unfoldable pub get_aggregate_delay : PathSender → ℕ
  unfolding waitting
  get_aggregate_delay s = fl.truncate (
      fl.plus (fl.float (if s.aggregate_delay == 0 then s.cur_rtt / 2 else s.aggregate_delay))
        (waitting s))
