-- ===== src/V1/FrameBuffer.antt =====
-- ns3/mp-video/model/video_proto.cc: the packets of one frame at the receiver.
pub mod Indices
pub mod Completion
use mp_video_simulation.Prelude.{
  ℕ, ◌+◌, ◌%◌, Bool, true, false, Option, none, some, List, [], ◌∷◌, ltb, ◌==◌, if◌then◌else◌,
  sub32, u8_mod,
}
use mp_video_simulation.Prelude.OrderedMap
use mp_video_simulation.Prelude.OrderedMap.{find}
use mp_video_simulation.V1.Wire.{VideoPacketReceiveWrapper, get_index, get_frame_timestamp}

-- VideoFrameBuffer; the keys of `packets` are indices, so they are not negative.
pub record VideoFrameBuffer : Type 0 where
  pub ftype : ℕ
  pub fid : ℕ
  pub frame_timestamp : ℕ
  pub max_recv_ts : ℕ
  pub received : ℕ
  pub total : ℕ
  pub is_completed : Bool
  pub packets : List (ℕ × VideoPacketReceiveWrapper)

-- The constructor.
abbrev pub new_frame : (ftype fid total : ℕ) → VideoFrameBuffer
new_frame ftype fid total = record {
  ftype = ftype;
  fid = fid;
  frame_timestamp = 0;
  max_recv_ts = 0;
  received = 0;
  total = total;
  is_completed = false;
  packets = [];
}

-- `is_expired`.
unfoldable pub is_expired : (now threshold : ℕ) → VideoFrameBuffer → Bool
is_expired now threshold f = ltb threshold (sub32 now f.max_recv_ts)

-- `get_frame_delay`.
unfoldable pub get_frame_delay : VideoFrameBuffer → ℕ
get_frame_delay f = sub32 f.max_recv_ts f.frame_timestamp

-- The time of the frame is set by its first packet; the packet has a segment, since it has an index.
unfoldable pub stamp_frame : VideoPacketReceiveWrapper → VideoFrameBuffer → ℕ
unfolding get_frame_timestamp
stamp_frame packet f =
    if f.frame_timestamp == 0
    then elim (get_frame_timestamp packet) [ none ↦ 0 | some t ↦ t ]
    else f.frame_timestamp

-- From the lookup of the index on.
unfoldable pub add_packet :
    ℕ → VideoPacketReceiveWrapper → (ts : ℕ) → VideoFrameBuffer → VideoFrameBuffer
unfolding stamp_frame
add_packet index packet ts f = elim (find index f.packets) [
  | some old ↦ f
  | none ↦
      let received = (f.received + 1) % u8_mod in
      record f {
        max_recv_ts = ts;
        frame_timestamp = stamp_frame packet f;
        packets = OrderedMap.insert index packet f.packets;
        received = received;
        is_completed = if received == f.total then true else f.is_completed;
      }
]

-- `OnNewPacket`; a packet without an index is dropped.
unfoldable pub on_new_packet :
    VideoPacketReceiveWrapper → (ts : ℕ) → VideoFrameBuffer → VideoFrameBuffer
unfolding add_packet
on_new_packet packet ts f = elim (get_index packet) [
  | none ↦ f
  | some index ↦ add_packet index packet ts f
]
