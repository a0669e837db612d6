-- ===== src/PathSender/Pacing.antt =====
-- ns3/mp-video/model/pathsender.cc: segments and padding on their way to the socket.
use mp_video_simulation.Prelude.{
  ℕ, zero, suc, ◌+◌, ◌-◌, ◌%◌, Bool, true, false, none, some, List, [], ◌∷◌, leb, ltb, ◌==◌,
  if◌then◌else◌, add16, sub32, u16_mod,
}
use mp_video_simulation.Prelude.Calls.{then_call, ◌>>◌}
use mp_video_simulation.Common.{Controller, PaceMode, no_congestion, no_webrtc, with_congestion}
use mp_video_simulation.Protocol.{Segment, Message, Body, wire_size, pad_header_len}
use mp_video_simulation.PathSender.State.{
  Session, send, schedule_heart_beat, schedule_pacing_now, schedule_pacing, insert_packet,
  add_packet, on_sent_packet, pending_delay, Call,
}
use mp_video_simulation.PathSender.Buffer.{
  enqueue, get_first, get_segment, sent_buf_collection, buf_collect_time,
}
use mp_video_simulation.PathSender.Rates.{update_pace_queue_delay}

abbrev pub skip : Call
skip s = some (s, [])

-- `SendToNetwork`: without a socket the message is dropped.
unfoldable pub send_to_network : Message → Call
send_to_network m s = some (s, (if s.bound then send m ∷ [] else []))

-- The messages carry the id of the session, which comes from mpsender_.
unfoldable pub send_body : Body → Call
unfolding send_to_network
send_body body s = elim s.mpsender [
  | none ↦ none
  | some m ↦ send_to_network (record { ver = s.pid; uid = m.uid; body = body }) s
]

-- seg->send_ts of `SendSegment`.
abbrev pub stamp_segment : ℕ → Session → Segment → Segment
stamp_segment now m seg = record seg {
  send_ts = sub32 (sub32 now m.first_ts) seg.timestamp % u16_mod;
}

-- `SendSegment`.
unfoldable pub send_segment : ℕ → Segment → Call
unfolding send_body
send_segment now seg s = elim s.mpsender [
  | none ↦ none
  | some m ↦ send_body (Body.seg (stamp_segment now m seg)) s
]

-- `HeartBeat`. The event that the timer holds clears `gc_timer` before it makes this call.
unfoldable pub heart_beat : ℕ → Call
unfolding sent_buf_collection
heart_beat now s = if s.gc_timer then some (s, []) else elim (sent_buf_collection now s) [
  | none ↦ none
  | some s' ↦ some (record s' { gc_timer = true }, schedule_heart_beat buf_collect_time ∷ [])
]

-- The first call of `put` sets the timer, so that the heart beat after it does nothing yet.
pub first_put : ℕ → Call
unfolding heart_beat
first_put now s =
    if s.first_packet
    then some (s, [])
    else ((λ s'. some (
      record s' { first_packet = true; gc_timer = true },
      schedule_heart_beat buf_collect_time ∷ [],
    ))
          >> heart_beat now)
        s

-- `StartPacing`.
unfoldable pub start_pacing : Call
start_pacing s =
    if s.stop
    then some (s, [])
    else if s.pacing_running
    then some (s, [])
    else some (record s { pacing_running = true; pacing_timer = true }, schedule_pacing_now ∷ [])

pub insert_bucket : (uid id now size : ℕ) → Call
insert_bucket uid id now size s =
    if s.send_bucket then some (s, insert_packet uid id now size ∷ []) else none

-- `cc` says whether the congestion controller is set.
pub pace_mode_call : PaceMode → (cc : Bool) → (id now size : ℕ) → Call
unfolding insert_bucket start_pacing
pace_mode_call mode cc id now size s = elim s.mpsender [
  | none ↦ none
  | some m ↦ elim mode [
    | with_congestion ↦ if cc then insert_bucket m.uid id now size s else some (s, [])
    | no_congestion ↦ insert_bucket m.uid id now size s
    | no_webrtc ↦ start_pacing s
  ]
]

-- The end of `put`: the pacer that the mode asks for hears of the segment.
pub pace_segment : (id now size : ℕ) → Call
unfolding insert_bucket start_pacing pace_mode_call
pace_segment id now size s = elim s.controller [
  | Controller.absent ↦ none
  | Controller.oracle ↦ pace_mode_call s.pace_mode false id now size s
  | Controller.congestion ↦ pace_mode_call s.pace_mode true id now size s
]

unfoldable pub put : Segment → (now rtc_now : ℕ) → Call
unfolding first_put enqueue pace_segment
put seg now rtc_now s =
    if s.stop
    then some (s, [])
    else (first_put now
          >> (λ s'. some (enqueue seg s', []))
          >> pace_segment s.trans_seq rtc_now (wire_size seg))
        s

-- `PacingSendSegment`, from its timer, which has then expired.
unfoldable pub pacing_send_segment : ℕ → Call
unfolding get_first send_segment
pacing_send_segment now s =
    let (s', first) = get_first s in
    elim first [
      | none ↦ some (record s { pacing_timer = false; pacing_running = false }, [])
      | some seg ↦ then_call (send_segment now seg s') (λ s''.
          some (record s'' { pacing_timer = true }, schedule_pacing (wire_size seg) s''.rate ∷ []))
    ]

-- What the congestion controller hears of bytes that went out.
pub report_sent : (seq size now : ℕ) → Call
report_sent seq size now s = elim s.mpsender [
  | none ↦ none
  | some m ↦ elim s.controller [
    | Controller.absent ↦ none
    | Controller.oracle ↦ some (s, [])
    | Controller.congestion ↦ some (s, add_packet m.uid seq size ∷ on_sent_packet seq now ∷ [])
  ]
]

pub trace_pending : Segment → Call
unfolding update_pace_queue_delay
trace_pending seg s = some (
  record s { s_sent_ts = update_pace_queue_delay seg.send_ts s.s_sent_ts },
  (if s.delay_trace then pending_delay seg.packet_id seg.send_ts ∷ [] else []),
)

abbrev is_absent : Controller → Bool
is_absent Controller.absent = true
is_absent Controller.oracle = false
is_absent Controller.congestion = false

-- `TimeToSendPacket`, which the pacer calls.
unfoldable pub time_to_send_packet : (seq : ℕ) → (retransmission : Bool) → (now rtc_now : ℕ) → Call
unfolding get_segment send_segment report_sent trace_pending
time_to_send_packet seq retransmission now rtc_now s =
    if s.stop then some (s, []) else if is_absent s.controller then none else elim s.mpsender [
      | none ↦ none
      | some m ↦
          (let (s', found) = get_segment seq retransmission s in
            elim found [
              | none ↦ some (s', [])
              | some seg ↦
                  (send_segment now seg
                      >> report_sent seq (wire_size seg) rtc_now
                      >> trace_pending (stamp_segment now m seg))
                    s'
            ])
    ]

-- `SendPadding`.
pub send_padding : (payload_len now : ℕ) → Call
unfolding send_body report_sent
send_padding payload_len now s = elim s.controller [
  | Controller.absent ↦ none
  | _ ↦
      ((λ s'. some (record s' { trans_seq = add16 s'.trans_seq 1 }, []))
          >> send_body (Body.pad now s.trans_seq payload_len)
          >> report_sent s.trans_seq (pad_header_len + payload_len) now)
        s
]

-- The payloads of the loop of `TimeToSendPadding`, by fuel, for a burst that an int holds; the rest
-- is 0 where the int has gone below it.
unfoldable pub pad_sizes : ℕ → ℕ → List ℕ
pad_sizes zero remain = []
pad_sizes (suc fuel) remain =
    let rest = pad_sizes fuel (remain - (pad_header_len + 500)) in
    if remain == 0
    then []
    else if leb 500 remain
    then 500 ∷ rest
    else if leb 100 remain
    then remain ∷ []
    else []

pub send_paddings : List ℕ → ℕ → Call
unfolding send_padding
send_paddings [] now s = some (s, [])
send_paddings (size ∷ sizes) now s = then_call (send_padding size now s) (send_paddings sizes now)

unfoldable pub time_to_send_padding : (bytes now : ℕ) → Call
unfolding pad_sizes send_paddings
time_to_send_padding bytes now s = elim s.pace_mode [
  | no_congestion ↦ some (s, [])
  | _ ↦ if ltb bytes 100 then some (s, []) else send_paddings (pad_sizes bytes bytes) now s
]
