-- ===== src/PathReceiver/Handlers.antt =====
-- ns3/mp-video/model/pathreceiver.cc: the handlers of the receiving end. The clock, the peer's
-- address and the random draw of the fake loss are arguments.
pub mod Ensures
pub mod Quiet
pub mod Reception
pub mod Messages
pub mod Runs
use mp_video_simulation.Prelude.{
  ℕ, suc, ◌+◌, ◌-◌, ◌*◌, ◌%◌, Bool, true, false, ◌||◌, ◌&&◌, not, Option, none, some, List, [], ◌∷◌,
  ltb, leb, ◌==◌, if◌then◌else◌, add32, sub32, u32_mod, u8_mod,
}
use mp_video_simulation.Common.{
  PaceMode, no_congestion, no_webrtc, with_congestion, path_conned, ping_interval,
}
use mp_video_simulation.Protocol.{Segment, Message, Body, wire_size, pad_header_len}
use mp_video_simulation.PathReceiver.Tables.{
  Tables, enter_packet, is_stale, start_at, update_loss, update_max, update_recv_table, consume,
}
use mp_video_simulation.PathReceiver.Delays.{update_rtt, rtt_report}
use mp_video_simulation.PathReceiver.Ack.{is_ack_due, make_ack}
use mp_video_simulation.PathReceiver.State.{
  PathReceiver, Controller, Output, send, schedule_check_ping, on_received_packet, on_rtt_update,
  packet_delay, deliver_to_cache, Call, then_call, ◌>>◌,
}

abbrev skip : Call
skip s = some (s, [])

-- `SendToNetwork`: without a socket the message is dropped.
pub send_to_network : Message → Call
send_to_network m s = some (s, (if s.bound then send s.peer m ∷ [] else []))

-- The messages carry the id of the session, which comes from mpreceiver_.
pub send_body : Body → Call
unfolding send_to_network
send_body body s = elim s.receiver_uid [
  | none ↦ none
  | some uid ↦ send_to_network (record { ver = s.pid; uid = uid; body = body }) s
]

unfoldable pub send_connect_ack : ℕ → Call
unfolding send_body
send_connect_ack cid = send_body (Body.connect_ack cid 0)

unfoldable pub send_disconnect : ℕ → Call
unfolding send_body
send_disconnect now = send_body (Body.disconnect now)

pub stamp_ping : ℕ → Call
stamp_ping now s = some (
  record s {
    delays = record (s.delays) { rtt_update_ts = now; ping_resend = add32 s.ping_resend 1 };
  },
  [],
)

unfoldable pub send_ping_msg : ℕ → Call
unfolding send_body stamp_ping
send_ping_msg now = send_body (Body.ping now) >> stamp_ping now

pub set_ping_timer : Call
set_ping_timer s = some (record s { ping_timer = true }, schedule_check_ping ping_interval ∷ [])

-- `CheckPing`. The event that the timer holds clears `ping_timer` before it makes this call.
unfoldable pub check_ping : ℕ → Call
unfolding send_ping_msg set_ping_timer
check_ping now s =
    if s.ping_timer
    then some (s, [])
    else if (s.rtt_update_ts == 0) || ltb ping_interval (sub32 now s.rtt_update_ts)
    then (send_ping_msg now >> set_ping_timer) s
    else set_ping_timer s

-- The acknowledgement has the session's id, or 0 without an mpreceiver_.
pub send_segment_ack : ℕ → Call
unfolding send_to_network make_ack
send_segment_ack seq s =
    let uid : ℕ = elim s.receiver_uid [ none ↦ 0 | some uid ↦ uid ] in
    send_to_network (record { ver = s.pid; uid = uid; body = Body.seg_ack (make_ack seq s.tables) })
      s

unfoldable pub video_real_ack : ℕ → ℕ → ℕ → Call
unfolding send_segment_ack is_ack_due
video_real_ack hb seq now s =
    if is_ack_due hb s.ack_ts now
    then (send_segment_ack seq >> (λ s'. some (record s' { ack_ts = now }, []))) s
    else some (s, [])

-- `ConfigureCongestion` and `ConfigureOracleCongestion`: a controller that is there stays.
unfoldable pub configure : Call
configure s = elim s.controller [
  | Controller.absent ↦ elim s.pace_mode [
    | PaceMode.with_congestion ↦ some (record s { controller = Controller.congestion }, [])
    | _ ↦ some (record s { controller = Controller.oracle }, [])
  ]
  | _ ↦ some (s, [])
]

pub first_call : ℕ → Call
unfolding configure check_ping
first_call now s =
    if s.first_packet
    then (configure >> check_ping now >> (λ s'. some (record s' { first_packet = false }, []))) s
    else some (s, [])

-- The report to the congestion controller, which a lost draw suppresses.
pub report_packet : ℕ → ℕ → ℕ → ℕ → Bool → Call
report_packet now overhead ssrc transport_seq lost s = elim s.controller [
  | Controller.absent ↦ none
  | Controller.oracle ↦ some (s, [])
  | Controller.congestion ↦
      if s.random_loss && lost
      then some (s, [])
      else some (s, on_received_packet now overhead ssrc transport_seq ∷ [])
]

pub trace_delay : ℕ → Segment → Call
trace_delay now seg s =
    let first_ts : ℕ = elim s.sender_first_ts [ none ↦ 0 | some ts ↦ ts % u32_mod ] in
    let owd = sub32 now (add32 seg.timestamp first_ts) in
    some (s, (if s.delay_trace then packet_delay seg.packet_id owd ∷ [] else []))

pub deliver : Segment → Call
deliver seg s = elim s.receiver_uid [
  | none ↦ some (s, [])
  | some _ ↦ some (s, deliver_to_cache s.pid seg ∷ [])
]

pub enter_tables : Segment → Call
unfolding enter_packet
enter_tables seg s = some (record s { tables = enter_packet seg.packet_id seg.index s.tables }, [])

-- What follows the two guards on the packet id.
pub accept_segment : ℕ → Segment → Call
unfolding enter_tables video_real_ack trace_delay deliver
accept_segment now seg =
    enter_tables seg >> video_real_ack 0 seg.packet_id now >> trace_delay now seg >> deliver seg

pub admit_segment : ℕ → Segment → Call
unfolding accept_segment is_stale
admit_segment now seg s =
    if is_stale seg.packet_id s.tables then some (s, []) else accept_segment now seg s

unfoldable pub on_receive_segment : (uid : ℕ) → Segment → (now : ℕ) → (lost : Bool) → Call
unfolding first_call report_packet admit_segment
on_receive_segment uid seg now lost s =
    if s.stop
    then some (s, [])
    else (first_call now
          >> report_packet now (wire_size seg) uid seg.transport_seq lost
          >> admit_segment now seg)
        s

-- `Consume`, on the object.
unfoldable pub consume_packet : ℕ → Call
unfolding consume
consume_packet packet_id s = some (record s { tables = consume packet_id s.tables }, [])

-- `UpdateRtt`, with the call of the congestion controller.
unfoldable pub on_rtt : ℕ → ℕ → Call
unfolding update_rtt rtt_report
on_rtt time now s =
    let d = update_rtt time now s.delays in
    let (average, longest) = rtt_report d in
    some (
      record s { delays = d },
      elim s.controller [ Controller.congestion ↦ on_rtt_update average longest ∷ [] | _ ↦ [] ],
    )

-- Padding reaches the congestion controller by the library's clock, and is never lost to a draw.
pub report_pad : (rtc_now overhead uid seq : ℕ) → Call
report_pad rtc_now overhead uid seq s = elim s.controller [
  | Controller.absent ↦ none
  | Controller.oracle ↦ some (s, [])
  | Controller.congestion ↦ some (s, on_received_packet rtc_now overhead uid seq ∷ [])
]

pub on_connect : (addr ver cid : ℕ) → Call
unfolding send_connect_ack
on_connect addr ver cid =
    (λ s. some (record s { state = path_conned; peer = addr; pid = ver }, []))
    >> send_connect_ack cid

pub on_pong : (now ts : ℕ) → Call
unfolding on_rtt
on_pong now ts s =
    let rtt = sub32 now (ts % u32_mod) in if ltb 0 rtt then on_rtt rtt now s else some (s, [])

-- What the outside gives to a message: the sender's address, the clocks and the random draw.
pub record Arrival : Type 0 where
  pub addr : ℕ
  pub now : ℕ
  pub rtc_now : ℕ
  pub lost : Bool

pub on_message : Arrival → (ver uid : ℕ) → Body → Call
unfolding on_connect on_receive_segment report_pad send_body on_pong
on_message a ver uid (Body.connect cid) s = on_connect a.addr ver cid s
on_message a ver uid (Body.seg seg) s =
    if s.pid == ver then on_receive_segment uid seg a.now a.lost s else some (s, [])
on_message a ver uid (Body.pad send_ts transport_seq data_size) s =
    if s.pid == ver
    then report_pad a.rtc_now (data_size + pad_header_len) uid transport_seq s
    else some (s, [])
on_message a ver uid (Body.ping ts) s = send_body (Body.pong ts) s
on_message a ver uid (Body.pong ts) s = on_pong a.now ts s
on_message a ver uid _ s = some (s, [])

-- What the codec makes of the bytes that come in. Without a header, or without the body of a segment
-- or of padding, nothing happens; SIM_CONNECT takes effect in part before its body is read. The
-- bodies of SIM_PING and SIM_PONG are used whether or not they decode: such a one is `whole` with
-- whatever time the memory has.
pub data Decoded : Type 0 where
  undecoded : Decoded
  cut_connect : Decoded
  whole : Message → Decoded

-- `ProcessingMsg`.
unfoldable pub processing_msg : Decoded → Arrival → Call
unfolding on_message
processing_msg undecoded a s = some (s, [])
processing_msg cut_connect a s =
    if s.stop then some (s, []) else some (record s { state = path_conned; peer = a.addr }, [])
processing_msg (whole m) a s = if s.stop then some (s, []) else on_message a m.ver m.uid m.body s

-- `Stop`.
unfoldable pub stop_path : Call
stop_path s = some (record s { stop = true }, [])
