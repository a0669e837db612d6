-- ===== src/PathSender/State.antt =====
-- ns3/mp-video/model/pathsender.h: the fields of the sending end, and what its calls emit.
use mp_video_simulation.Prelude.{ℕ, Bool, false, Option, none, List, []}
use mp_video_simulation.Common.{PathState, path_ini, PaceMode, with_congestion, Controller}
use mp_video_simulation.Protocol.{Segment, Message}
use mp_video_simulation.PathReceiver.Delays.{Delays}

-- send_buf_t.
pub record SendBuf : Type 0 where
  pub ts : ℕ
  pub seg : Segment

-- mpsender_, with the answers of its GetUid and GetFirstTs as uint32_t.
pub record Session : Type 0 where
  pub uid : ℕ
  pub first_ts : ℕ

-- A Bool says of a timer whether its event is pending, and of a pointer whether it is set.
pub record PathSender : Type 0 where
  pub pid : ℕ
  pub state : PathState
  pub con_c : ℕ
  pub delays : Delays
  pub open delays use *
  pub min_rtt : ℕ
  pub trans_seq : ℕ
  pub packet_seed : ℕ
  pub rate : ℕ
  pub s_rate : ℕ
  pub base_seq : ℕ
  pub s_sent_ts : ℕ
  pub pace_mode : PaceMode
  pub controller : Controller
  pub send_bucket : Bool
  pub mpsender : Option Session
  pub stop : Bool
  pub first_packet : Bool
  pub buf : List (ℕ × Segment)
  pub sent_buf : List SendBuf
  pub last_sentbuf_collect_ts : ℕ
  pub len : ℕ
  pub pending_len : ℕ
  pub bound : Bool
  pub rx_timer : Bool
  pub gc_timer : Bool
  pub ping_timer : Bool
  pub pacing_timer : Bool
  pub pacing_running : Bool
  -- pending_delay_cb_ is set.
  pub delay_trace : Bool

pub data Output : Type 0 where
  send : Message → Output
  schedule_connect : (delay : ℕ) → Output
  schedule_heart_beat : (delay : ℕ) → Output
  schedule_check_ping : (delay : ℕ) → Output
  -- PacingSendSegment at once, and after len * 8 / (rate * 1.2) seconds.
  schedule_pacing_now : Output
  schedule_pacing : (len rate : ℕ) → Output
  insert_packet : (uid id now size : ℕ) → Output
  add_packet : (uid seq size : ℕ) → Output
  on_sent_packet : (seq ts : ℕ) → Output
  on_rtt_update : (average longest : ℕ) → Output
  on_feedback : List ℕ → Output
  pending_delay : (packet_id ts : ℕ) → Output
  start_modules : Output
  stop_modules : Output
  network_changed : (pid bitrate loss rtt : ℕ) → Output
  notify_usable : (pid : ℕ) → Output

-- A call on the object; `none` is a dereference of a null pointer.
abbrev pub Call : Type 0
Call = PathSender → Option (PathSender × List Output)

-- The object as its constructor leaves it; the fields that it does not set are given.
unfoldable pub init : (sum_rtt max_rtt last_sentbuf_collect_ts : ℕ) → PathSender
init sum_rtt max_rtt last_sentbuf_collect_ts = record {
  pid = 0;
  state = path_ini;
  con_c = 0;
  delays = record {
    rtt = 0;
    sum_rtt = sum_rtt;
    max_rtt = max_rtt;
    rtt_num = 0;
    rtt_var = 5;
    rtt_update_ts = 0;
    ping_resend = 0;
  };
  min_rtt = 0;
  trans_seq = 1;
  packet_seed = 1;
  rate = 0;
  s_rate = 0;
  base_seq = 0;
  s_sent_ts = 0;
  pace_mode = with_congestion;
  controller = Controller.absent;
  send_bucket = false;
  mpsender = none;
  stop = false;
  first_packet = false;
  buf = [];
  sent_buf = [];
  last_sentbuf_collect_ts = last_sentbuf_collect_ts;
  len = 0;
  pending_len = 0;
  bound = false;
  rx_timer = false;
  gc_timer = false;
  ping_timer = false;
  pacing_timer = false;
  pacing_running = false;
  delay_trace = false;
}
