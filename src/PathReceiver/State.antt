-- ===== src/PathReceiver/State.antt =====
-- ns3/mp-video/model/pathreceiver.h: the fields of the receiving end, and what its calls emit.
use mp_video_simulation.Prelude.{ℕ, Bool, true, false, Option, none, List, []}
use mp_video_simulation.Common.{PathState, path_ini, PaceMode, with_congestion}
pub use mp_video_simulation.Common.{Controller}
pub use mp_video_simulation.Prelude.Calls.{then_call, ◌>>◌}
use mp_video_simulation.Protocol.{Segment, Message}
use mp_video_simulation.PathReceiver.Tables.{Tables}
use mp_video_simulation.PathReceiver.Delays.{Delays}

pub record PathReceiver : Type 0 where
  pub pid : ℕ
  pub state : PathState
  pub delays : Delays
  pub open delays use *
  pub tables : Tables
  pub open tables use *
  pub ack_ts : ℕ
  pub first_packet : Bool
  pub stop : Bool
  pub controller : Controller
  pub pace_mode : PaceMode
  pub random_loss : Bool
  -- socket_ is set.
  pub bound : Bool
  pub peer : ℕ
  -- mpreceiver_, with the answer of its GetUid.
  pub receiver_uid : Option ℕ
  -- sender_, with the answer of its GetFirstTs.
  pub sender_first_ts : Option ℕ
  -- delay_cb_ is set.
  pub delay_trace : Bool
  -- pingTimer_ has not expired.
  pub ping_timer : Bool

-- The effects of a call, in order: messages to the peer, timers, calls of the congestion
-- controller, and the two calls that leave the object.
pub data Output : Type 0 where
  send : (peer : ℕ) → Message → Output
  schedule_check_ping : (delay : ℕ) → Output
  on_received_packet : (now overhead ssrc transport_seq : ℕ) → Output
  on_rtt_update : (average longest : ℕ) → Output
  packet_delay : (packet_id owd : ℕ) → Output
  deliver_to_cache : (pid : ℕ) → Segment → Output

-- A call on the object; `none` is a dereference of a null pointer.
abbrev pub Call : Type 0
Call = PathReceiver → Option (PathReceiver × List Output)

-- The object as its constructor leaves it; the fields that it does not set are given.
unfoldable pub init : (sum_rtt max_rtt : ℕ) → PathReceiver
init sum_rtt max_rtt = record {
  pid = 0;
  state = path_ini;
  delays = record {
    rtt = 0;
    sum_rtt = sum_rtt;
    max_rtt = max_rtt;
    rtt_num = 0;
    rtt_var = 5;
    rtt_update_ts = 0;
    ping_resend = 0;
  };
  tables = record { base_seq = 0; max_seq = 0; loss = []; recv_table = [] };
  ack_ts = 0;
  first_packet = true;
  stop = false;
  controller = Controller.absent;
  pace_mode = with_congestion;
  random_loss = false;
  bound = false;
  peer = 0;
  receiver_uid = none;
  sender_first_ts = none;
  delay_trace = false;
  ping_timer = false;
}
