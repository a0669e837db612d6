-- ===== src/V1/PathSender/Queue.antt =====
-- ns3/mp-video/model/path_sender_v1.cc: the two queues of packets, and how packets leave them.
pub mod Accounts
pub mod Traffic
pub mod Turns
pub mod Drain
use mp_video_simulation.Prelude.{
  u64_mod, ℕ, ◌+◌, ◌-◌, ◌*◌, ◌/◌, ◌%◌, Bool, true, false, Option, none, some, List, [], ◌∷◌, ◌++◌,
  ltb, leb, ◌==◌, if◌then◌else◌, ◌&&◌, ◌||◌, add32, sub32, mul32, u16_mod, u32_mod, length,
}
use mp_video_simulation.Prelude.OrderedMap
use mp_video_simulation.Prelude.OrderedMap.{find}
use mp_video_simulation.V1.Wire.{QuicData, VideoPacketWrapper, serialize, time_offset}
use mp_video_simulation.V1.Doubles.{Doubles}
use mp_video_simulation.V1.PathSender.State.{
  PathSender, Output, send_padding, send_stream, on_packet_sent, time_offset_of, rate_update,
  max_buf_size, padding_size,
}

-- `OnVideoPacket`.
unfoldable pub on_video_packet :
    (now packet_id : ℕ) → VideoPacketWrapper → (is_retrans : Bool) → PathSender → PathSender
on_video_packet now packet_id packet is_retrans s =
    let stamped : VideoPacketWrapper = record packet { enqueue_ts = now } in
    record s {
      sending_queue = if is_retrans then s.sending_queue else s.sending_queue ++ stamped ∷ [];
      resending_queue = if is_retrans then s.resending_queue ++ stamped ∷ [] else s.resending_queue;
      pending_bytes = add32 s.pending_bytes packet.payload_size;
      id_delay_map = OrderedMap.insert packet_id now s.id_delay_map;
      first_packet = false;
    }

-- `get_queue_delay`.
abbrev pub get_queue_delay : (now : ℕ) → VideoPacketWrapper → ℕ
get_queue_delay now p = sub32 now p.enqueue_ts

-- `UpdateQueueOffset`.
unfoldable pub update_queue_offset : PathSender → PathSender
update_queue_offset s = elim s.resending_queue [
  | p ∷ rest ↦ s
  | [] ↦ elim s.sending_queue [ p ∷ rest ↦ s | [] ↦ record s { queue_offset = 0 } ]
]

-- GetMinSeqLength, the bytes of a sequence number, belongs to the quic library, as does the
-- writer's way with bytes.
module _ (q : QuicData) (min_seq_length : ℕ → ℕ) where
  -- `SendPaddingPacket`; the two maps take the number with the time and with the id 0.
  unfoldable pub send_padding_packet : (now : ℕ) → PathSender → PathSender × List Output
  send_padding_packet now s = (
    record s {
      seq = (s.seq + 1) % u64_mod;
      seq_delay_map = OrderedMap.insert s.seq now s.seq_delay_map;
      seq_id_map = OrderedMap.insert s.seq 0 s.seq_id_map;
    },
    send_padding s.seq now
        ∷ on_packet_sent s.seq ((padding_size + u16_mod - (1 + min_seq_length s.seq)) % u16_mod)
        ∷ [],
  )

  -- What the message has behind its header: the writer drops what does not fit.
  abbrev pub fitting : (seq : ℕ) → List ℕ → List ℕ
  fitting seq body = if leb (1 + min_seq_length seq + length body) max_buf_size then body else []

  -- The message of a packet at a time, and its video bytes; `none` is a null segment or the failed assertion
  -- on its size.
  unfoldable pub write_packet : (now seq : ℕ) → VideoPacketWrapper → Option (List ℕ × ℕ)
  unfolding serialize
  write_packet now seq p = elim p.segment [
    | none ↦ none
    | some seg ↦ elim (serialize q max_buf_size now p).1 [
      | none ↦ none
      | some body ↦ some (fitting seq body, seg.data_size)
    ]
  ]

  -- The accounts after a packet left with the state's next sequence number.
  abbrev pub account : (now : ℕ) → VideoPacketWrapper → PathSender → PathSender
  account now p s = record s {
    seq = (s.seq + 1) % u64_mod;
    pending_bytes = sub32 s.pending_bytes p.payload_size;
    seq_delay_map = OrderedMap.insert s.seq now s.seq_delay_map;
    seq_id_map = OrderedMap.insert s.seq p.packet_id s.seq_id_map;
  }

  abbrev pub offset_trace : (now : ℕ) → VideoPacketWrapper → PathSender → List Output
  offset_trace now p s =
      if s.trace_time_offset then time_offset_of p.packet_id (time_offset now p) ∷ [] else []

  -- `SendPacketWithoutCongestion`.
  unfoldable pub send_packet_without_congestion :
      (now : ℕ) → VideoPacketWrapper → PathSender → Option (PathSender × List Output)
  unfolding write_packet
  send_packet_without_congestion now p s = elim (write_packet now s.seq p) [
    | none ↦ none
    | some (body, size) ↦
        some (account now p s, offset_trace now p s ++ send_stream s.seq body ∷ [])
  ]

  module _ (fl : Doubles) where
    -- smooth_offset_num of smooth_offset_den: 90 in 100 of the new value.
    unfoldable pub smooth_offset : (queue_offset offset : ℕ) → ℕ
    smooth_offset queue_offset offset = fl.truncate (
        fl.divide (fl.float ((queue_offset * (100 - 90) + mul32 90 offset) % u64_mod))
          (fl.float 100))

    -- `SendStreamPacket` once the packet is taken off its queue.
    unfoldable pub send_taken :
        (now : ℕ) → VideoPacketWrapper → PathSender → Option (PathSender × List Output)
    unfolding write_packet smooth_offset
    send_taken now p s = elim (write_packet now s.seq p) [
      | none ↦ none
      | some (body, size) ↦ some (
        record (account now p s) {
          queue_offset = smooth_offset s.queue_offset (time_offset now p);
        },
        offset_trace now p s ++ send_stream s.seq body ∷ on_packet_sent s.seq size ∷ [],
      )
    ]

    -- `SendStreamPacket`; `none` is also an empty queue, whose begin() is dereferenced.
    unfoldable pub send_stream_packet :
        (now : ℕ) → (is_retrans : Bool) → PathSender → Option (PathSender × List Output)
    unfolding send_taken
    send_stream_packet now true s = elim s.resending_queue [
      | [] ↦ none
      | p ∷ rest ↦ send_taken now p (record s { resending_queue = rest })
    ]
    send_stream_packet now false s = elim s.sending_queue [
      | [] ↦ none
      | p ∷ rest ↦ send_taken now p (record s { sending_queue = rest })
    ]

    -- `ProcessVideoPacket`. The pacer says whether it may send now, the controller whether it
    -- wants a probe.
    unfoldable pub process_video_packet :
        (may_send probe : Bool) → (now : ℕ) → PathSender → Option (PathSender × List Output)
    unfolding send_stream_packet send_padding_packet
    process_video_packet false probe now s = some (s, [])
    process_video_packet true probe now s = elim s.resending_queue [
      | p ∷ rest ↦ send_stream_packet now true s
      | [] ↦ elim s.sending_queue [
        | p ∷ rest ↦ send_stream_packet now false s
        | [] ↦ if probe then some (send_padding_packet now s) else some (s, [])
      ]
    ]

-- max_pacer_queue_delay, in milliseconds.
abbrev pub max_pacer_queue_delay : ℕ
max_pacer_queue_delay = 100

-- The packet at the front waits too long.
unfoldable pub front_exceeds : (now : ℕ) → List VideoPacketWrapper → Bool
front_exceeds now [] = false
front_exceeds now (p ∷ rest) = ltb max_pacer_queue_delay (get_queue_delay now p)

-- `CheckQueueExceed`.
unfoldable pub check_queue_exceed : Doubles → (now : ℕ) → PathSender → PathSender × List Output
unfolding front_exceeds
check_queue_exceed fl now s =
    if front_exceeds now s.resending_queue || front_exceeds now s.sending_queue
    then (if ltb s.cur_rtt (sub32 now s.over_offset_ts)
        then (
          record s { bps = fl.four_fifths s.bps; over_offset_ts = now },
          (if s.mpsender then rate_update ∷ [] else []),
        )
        else (s, []))
    else (s, [])
