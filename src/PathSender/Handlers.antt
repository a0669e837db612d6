-- ===== src/PathSender/Handlers.antt =====
-- ns3/mp-video/model/pathsender.cc: connection, timers and messages of the sending end. The clocks
-- are arguments.
use mp_video_simulation.Prelude.{
  ℕ, ◌+◌, ◌*◌, ◌%◌, Bool, true, false, Option, none, some, List, [], ◌∷◌, ◌||◌, ltb, ◌==◌, not,
  if◌then◌else◌, add32, sub32, u32_mod, u8_mod,
}
use mp_video_simulation.Prelude.Calls.{then_call, ◌>>◌}
use mp_video_simulation.Common.{
  PathState, path_ini, path_conning, path_conned, path_discon, Controller, PaceMode, no_congestion,
  no_webrtc, with_congestion,
}
use mp_video_simulation.Protocol.{SegmentAck, Message, Body}
use mp_video_simulation.PathReceiver.Delays.{rtt_report}
use mp_video_simulation.PathSender.State.{
  PathSender, schedule_connect, schedule_check_ping, on_rtt_update, on_feedback, start_modules,
  stop_modules, network_changed, notify_usable, Call,
}
use mp_video_simulation.PathSender.Buffer.{
  get_sent_packet_info, remove_acked_packet, remove_sent_buf_until, free_pending_buf,
}
use mp_video_simulation.PathSender.Rates.{smooth_rate, sample_rtt, update_min_rtt}
use mp_video_simulation.PathSender.Pacing.{send_body}

abbrev pub connected : PathState → Bool
connected path_ini = false
connected path_conning = false
connected path_conned = true
connected path_discon = false

abbrev pub connecting : PathState → Bool
connecting path_ini = true
connecting path_conning = true
connecting path_conned = false
connecting path_discon = false

-- `SendConnect`, which runs again after a time that grows with the count of attempts (uint8_t).
unfoldable pub send_connect : ℕ → Call
unfolding send_body
send_connect now s =
    if connecting s.state
    then (send_body (Body.connect now) >> (λ s'.
          let con_c = (s'.con_c + 1) % u8_mod in
          some (
            record s' { state = path_conning; con_c = con_c; rx_timer = true },
            schedule_connect (con_c * 500) ∷ [],
          )))
        s
    else if connected s.state
    then some (record s { rx_timer = false }, [])
    else some (s, [])

unfoldable pub send_disconnect : ℕ → Call
unfolding send_body
send_disconnect now = send_body (Body.disconnect now)

unfoldable pub send_ping_msg : ℕ → Call
unfolding send_body
send_ping_msg now = send_body (Body.ping now) >> (λ s. some (
  record s {
    delays = record (s.delays) { rtt_update_ts = now; ping_resend = add32 s.ping_resend 1 };
  },
  [],
))

-- `CheckPing`. The event that the timer holds clears `ping_timer` before it makes this call.
unfoldable pub check_ping : ℕ → Call
unfolding send_ping_msg
check_ping now s =
    if s.ping_timer
    then some (s, [])
    else then_call (send_ping_msg now s)
        (λ s'. some (record s' { ping_timer = true }, schedule_check_ping s'.rtt ∷ []))

-- The call of mpsender_ that `ConfigureOracleCongestion` and `ConfigureNoCongestion` make.
abbrev report_rate : Call
report_rate s = elim s.mpsender [
  | none ↦ some (s, [])
  | some m ↦ some (s, network_changed s.pid s.rate 0 s.rtt ∷ [])
]

-- `ConfigureCongestion`, `ConfigureOracleCongestion` and `ConfigureNoCongestion`, by the mode: a
-- controller that is there stays.
unfoldable pub configure : Call
configure s = elim s.controller [
  | Controller.absent ↦ elim s.pace_mode [
    | with_congestion ↦
        some
          (record s { controller = Controller.congestion; send_bucket = true }, start_modules ∷ [])
    | no_congestion ↦
        then_call (report_rate (record s { controller = Controller.oracle; send_bucket = true }))
          (λ s'. some (s', start_modules ∷ []))
    | no_webrtc ↦ report_rate (record s { controller = Controller.oracle })
  ]
  | _ ↦ some (s, [])
]

-- `OnNetworkChanged`.
unfoldable pub on_network_changed : (bitrate_bps fraction_loss rtt_ms : ℕ) → Call
unfolding smooth_rate
on_network_changed bitrate_bps fraction_loss rtt_ms s = some (
  record s { s_rate = smooth_rate s.s_rate bitrate_bps; rate = bitrate_bps },
  elim s.mpsender [
    | none ↦ []
    | some m ↦ network_changed s.pid bitrate_bps fraction_loss rtt_ms ∷ []
  ],
)

-- `SetOracleRate` and `SetOracleWithOwnPace`.
unfoldable pub set_oracle_rate : PaceMode → ℕ → PathSender → PathSender
set_oracle_rate mode bps s = record s { rate = bps; s_rate = bps; pace_mode = mode }

-- `UpdateRtt`, with the call of the congestion controller.
unfoldable pub on_rtt : ℕ → ℕ → Call
unfolding sample_rtt rtt_report
on_rtt time now s =
    let s' = sample_rtt time now s in
    let (average, longest) = rtt_report s'.delays in
    some (
      s',
      elim s.controller [
        | Controller.congestion ↦ on_rtt_update (average % u32_mod) longest ∷ []
        | _ ↦ []
      ],
    )

-- `RecvSegAck`.
unfoldable pub recv_seg_ack : SegmentAck → ℕ → Call
unfolding on_rtt get_sent_packet_info remove_sent_buf_until remove_acked_packet
recv_seg_ack ack now s =
    if ltb s.packet_seed ack.acked_packet_id || ltb s.packet_seed ack.base_packet_id
    then some (s, [])
    else then_call
        (elim (get_sent_packet_info ack.acked_packet_id s.sent_buf) [
          | none ↦ some (s, [])
          | some b ↦ on_rtt (sub32 now b.ts) now s
        ])
        (λ s'.
          let s'' = remove_sent_buf_until ack.base_packet_id s' in
          some (record s'' { sent_buf = remove_acked_packet ack.acked_packet_id s''.sent_buf }, []))

-- `IncomingFeedBack`.
unfoldable pub incoming_feedback : List ℕ → Call
incoming_feedback bytes s = elim s.controller [
  | Controller.absent ↦ none
  | Controller.oracle ↦ some (s, [])
  | Controller.congestion ↦ some (s, on_feedback bytes ∷ [])
]

-- The answer to SIM_CONNECT: the first one sets the path up and reports it as usable.
unfoldable pub on_connect_ack : (cid now : ℕ) → Call
unfolding update_min_rtt configure check_ping
on_connect_ack cid now s =
    let rtt = sub32 now (cid % u32_mod) in
    let timed = record s {
      delays = record (s.delays) { rtt = rtt; rtt_update_ts = now };
      min_rtt = update_min_rtt rtt s.min_rtt;
    } in
    then_call
      (elim s.mpsender [
        | none ↦ some (timed, [])
        | some m ↦
            if connected s.state
            then some (timed, [])
            else (configure >> check_ping now >> (λ s'. some (s', notify_usable s'.pid ∷ []))) timed
      ])
      (λ s'. some (record s' { state = path_conned }, []))

-- The switch of `ProcessingMsg`.
unfoldable pub on_message : (now rtc_now : ℕ) → Body → Call
unfolding on_connect_ack recv_seg_ack incoming_feedback send_body on_rtt
on_message now rtc_now (Body.connect_ack cid result) s = on_connect_ack cid now s
on_message now rtc_now (Body.seg_ack ack) s = recv_seg_ack ack rtc_now s
on_message now rtc_now (Body.feedback base bytes) s = incoming_feedback bytes s
on_message now rtc_now (Body.ping ts) s = send_body (Body.pong ts) s
on_message now rtc_now (Body.pong ts) s =
    let rtt = sub32 now (ts % u32_mod) in if ltb 0 rtt then on_rtt rtt now s else some (s, [])
on_message now rtc_now (Body.connect cid) s = some (s, [])
on_message now rtc_now (Body.disconnect cid) s = some (s, [])
on_message now rtc_now (Body.seg seg) s = some (s, [])
on_message now rtc_now (Body.pad send_ts seq size) s = some (s, [])
on_message now rtc_now Body.other s = some (s, [])

-- `ProcessingMsg`; `none` is a message that does not decode, which changes nothing. The bodies
-- of SIM_PING and SIM_PONG are used whether or not they decode: such a one is there with whatever
-- time the memory has.
unfoldable pub processing_msg : Option Message → (now rtc_now : ℕ) → Call
unfolding on_message
processing_msg none now rtc_now s = some (s, [])
processing_msg (some m) now rtc_now s =
    if s.stop
    then some (s, [])
    else if not (m.ver == s.pid)
    then some (s, [])
    else on_message now rtc_now m.body s

-- `Stop`.
unfoldable pub stop_path : Call
unfolding free_pending_buf
stop_path s = if s.stop then some (s, []) else elim s.controller [
  | Controller.absent ↦ none
  | _ ↦ some (
    record (free_pending_buf s) {
      stop = true;
      gc_timer = false;
      ping_timer = false;
      sent_buf = [];
    },
    stop_modules ∷ [],
  )
]
