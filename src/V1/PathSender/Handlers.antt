-- ===== src/V1/PathSender/Handlers.antt =====
-- ns3/mp-video/model/path_sender_v1.cc: the beat, the rates, the messages that come in.
use mp_video_simulation.Prelude.{
  ℕ, ◌*◌, Bool, true, false, Option, some, List, [], ◌∷◌, ◌++◌, leb, ltb, ◌==◌, if◌then◌else◌,
  add32,
}
use mp_video_simulation.Prelude.Calls.{then_call}
use mp_video_simulation.V1.Wire.{QuicData}
use mp_video_simulation.V1.Doubles.{Doubles}
use mp_video_simulation.V1.PathSender.State.{
  PathSender, Output, send_ping, rate_update, network_available, network_stop, rate,
  schedule_heart_beat,
}
use mp_video_simulation.V1.PathSender.Queue.{update_queue_offset, process_video_packet}
use mp_video_simulation.V1.PathSender.Acks.{on_ack}

abbrev pub tell_rate : PathSender → List Output
tell_rate s = if s.mpsender then rate_update ∷ [] else []

-- `OnBandwidthUpdate`, with the controller's reference rate in kilobits per second.
unfoldable pub on_bandwidth_update : Doubles → (kbps : ℕ) → PathSender → PathSender × List Output
on_bandwidth_update fl kbps s =
    let s_bps = kbps * 1000 in
    let protection_rate = fl.four_fifths s_bps in
    (
      record s {
        s_bps = s_bps;
        bps = if ltb protection_rate s.min_bps then s.min_bps else protection_rate;
      },
      tell_rate s,
    )

-- `RecordRate`.
unfoldable pub record_rate : (kbps now : ℕ) → PathSender → PathSender × List Output
record_rate kbps now s =
    if s.trace_rate
    then (if s.rate_out_next == 0
        then (record s { rate_out_next = add32 now 100 }, [])
        else if leb s.rate_out_next now
        then (record s { rate_out_next = add32 now 100 }, rate (kbps * 1000) ∷ [])
        else (s, []))
    else (s, [])

-- `UpdateRate`.
unfoldable pub update_rate : (kbps now : ℕ) → PathSender → PathSender × List Output
update_rate kbps now s =
    if s.cur_rtt == 0
    then (record s { rate_update_next = now }, [])
    else if leb s.rate_update_next now
    then (
      record s {
        bps = if ltb (kbps * 1000) s.min_bps then s.min_bps else kbps * 1000;
        rate_update_next = add32 now s.cur_rtt;
      },
      tell_rate s,
    )
    else (s, [])

-- `SendPingMessage`.
unfoldable pub send_ping_message : (now : ℕ) → List Output
send_ping_message now = send_ping now ∷ []

-- `StartApplication`: the beat is due at once.
unfoldable pub start_application : PathSender → PathSender × List Output
start_application s = (
  record s { heart_timer = true },
  (if s.mpsender then network_available s.pid ∷ [] else []) ++ schedule_heart_beat 0 ∷ [],
)

-- `StopApplication`.
unfoldable pub stop_application : PathSender → PathSender × List Output
stop_application s =
    (record s { heart_timer = false }, if s.mpsender then network_stop s.pid ∷ [] else [])

-- The messages that the other end sends.
pub data Message : Type 0 where
  pong : (sent_time : ℕ) → Message
  ack : (seq : ℕ) → Message
  other : Message

-- `OnIncomingMessage`; the round trip of a pong is not used.
unfoldable pub on_incoming_message : (now : ℕ) → Message → PathSender → PathSender × List Output
unfolding on_ack
on_incoming_message now (pong sent_time) s = (s, [])
on_incoming_message now (ack seq) s = on_ack now seq s
on_incoming_message now other s = (s, [])

-- `HeartBeat`. The event that the timer holds clears `heart_timer` before this call.
unfoldable pub heart_beat :
    QuicData
    → (ℕ → ℕ)
    → Doubles
    → (may_send probe : Bool) → (kbps now : ℕ) → PathSender
    → Option (PathSender × List Output)
unfolding update_queue_offset process_video_packet record_rate
heart_beat q min_seq_length fl may_send probe kbps now s =
    if s.heart_timer
    then some (s, [])
    else then_call
        (process_video_packet q min_seq_length fl may_send probe now (update_queue_offset s))
        (λ s'.
          let (s'', out) = record_rate kbps now s' in
          some (record s'' { heart_timer = true }, out ++ schedule_heart_beat 1 ∷ []))
