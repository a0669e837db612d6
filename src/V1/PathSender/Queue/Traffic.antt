-- ===== src/V1/PathSender/Queue/Traffic.antt =====
-- What ns3/mp-video/model/path_sender_v1.cc puts on the network and tells the pacer for packets.
use mp_video_simulation.Prelude.{
  u16_mod, ℕ, ◌+◌, ◌%◌, ◌≡◌, refl, ap, Bool, true, false, none, some, List, [], ◌∷◌, ◌++◌,
  if◌then◌else◌,
}
use mp_video_simulation.V1.Wire.{QuicData, VideoPacketWrapper, time_offset, write_segment}
use mp_video_simulation.V1.PathSender.State.{
  PathSender, Output, send_ping, send_padding, send_stream, on_packet_sent, on_congestion_event,
  packet_lost, rate_update, network_available, network_stop, rate, loss, time_offset_of,
  schedule_heart_beat,
}
use mp_video_simulation.V1.PathSender.Queue.{fitting, offset_trace}

-- Messages on the network, and the pacer's packets.
abbrev is_traffic : Output → Bool
is_traffic (send_ping now) = true
is_traffic (send_padding seq now) = true
is_traffic (send_stream seq body) = true
is_traffic (on_packet_sent seq size) = true
is_traffic (on_congestion_event seq) = false
is_traffic (packet_lost pid packet_id) = false
is_traffic rate_update = false
is_traffic (network_available pid) = false
is_traffic (network_stop pid) = false
is_traffic (rate bps) = false
is_traffic (loss seq rtt) = false
is_traffic (time_offset_of packet_id offset) = false
is_traffic (schedule_heart_beat delay) = false

abbrev pub traffic : List Output → List Output
traffic [] = []
traffic (o ∷ out) = let rest = traffic out in if is_traffic o then o ∷ rest else rest

pub traffic-append : (xs ys : List Output) → traffic (xs ++ ys) ≡ traffic xs ++ traffic ys
traffic-append [] ys = refl
traffic-append (o ∷ out) ys = kept (is_traffic o) (traffic-append out ys)
  where
    kept :
        (b : Bool)
        → traffic (out ++ ys) ≡ traffic out ++ traffic ys
        → (if b then o ∷ traffic (out ++ ys) else traffic (out ++ ys))
          ≡ (if b then o ∷ traffic out else traffic out) ++ traffic ys
    kept true e = ap (◌∷◌ o) e
    kept false e = e

-- The bytes of video of a packet.
abbrev pub video_size : VideoPacketWrapper → ℕ
video_size p = elim p.segment [ none ↦ 0 | some seg ↦ seg.data_size ]

module _ (q : QuicData) (min_seq_length : ℕ → ℕ) where
  -- The trace is no traffic.
  pub traffic-offset_trace :
      (now : ℕ) (p : VideoPacketWrapper) (s : PathSender) (out : List Output)
      → traffic (offset_trace q min_seq_length now p s ++ out) ≡ traffic out
  traffic-offset_trace now p s out = untraced s.trace_time_offset
    where
      untraced :
          (b : Bool)
          → traffic ((if b then time_offset_of p.packet_id (time_offset now p) ∷ [] else []) ++ out)
            ≡ traffic out
      untraced true = refl
      untraced false = refl

  -- The bytes of a packet behind the header of its message: its segment, stamped with the time
  -- that the packet has waited, or nothing where the buffer has no room for them.
  abbrev pub video_bytes : (now seq : ℕ) → VideoPacketWrapper → List ℕ
  video_bytes now seq p = elim p.segment [
    | none ↦ []
    | some seg ↦
        fitting q min_seq_length seq
          (write_segment q (record seg { send_ts = time_offset now p % u16_mod }))
  ]

  -- A packet's message under a number, and the pacer's call for it.
  abbrev pub letter : (now seq : ℕ) → VideoPacketWrapper → List Output
  letter now seq p =
      send_stream seq (video_bytes now seq p) ∷ on_packet_sent seq (video_size p) ∷ []

  -- Packets that leave a millisecond apart, under consecutive numbers.
  abbrev pub letters : (now seq : ℕ) → List VideoPacketWrapper → List Output
  letters now seq [] = []
  letters now seq (p ∷ ps) = letter now seq p ++ letters (now + 1) (seq + 1) ps
