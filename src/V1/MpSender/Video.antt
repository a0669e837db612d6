-- ===== src/V1/MpSender/Video.antt =====
-- ns3/mp-video/model/mp_sender_v1.cc: how a frame is cut, and how its packets come to the paths.
use mp_video_simulation.Prelude.{
  ℕ, ◌+◌, ◌/◌, ◌%◌, true, false, not, Option, none, some, List, [], ◌∷◌, ◌++◌, ltb, ◌==◌,
  if◌then◌else◌, length, take, drop, add32, sub32, u8_mod, u32_mod,
}
use mp_video_simulation.Prelude.Calls.{then_call}
use mp_video_simulation.Prelude.OrderedMap
use mp_video_simulation.Prelude.OrderedMap.{find}
use mp_video_simulation.Frame.{frame_split, max_split_number, sim_video_size}
use mp_video_simulation.V1.Wire.{
  VideoSegment, VideoPacketWrapper, new_packet, on_new_segment, is_stale,
}
use mp_video_simulation.V1.MpSender.State.{MpSender, Output, put, path_error, schedule_process}

-- What the segments of a frame share.
pub record FrameHead : Type 0 where
  pub now : ℕ
  pub first_ts : ℕ
  pub fid : ℕ
  pub timestamp : ℕ
  pub ftype : ℕ
  pub total : ℕ

-- The local `seg`, filled for the segment `i` with the first `size` bytes of what is left of the frame.
abbrev pub fill_segment : FrameHead → (i size : ℕ) → (frame : List ℕ) → VideoSegment → VideoSegment
fill_segment h i size frame seg = record seg {
  fid = h.fid;
  timestamp = h.timestamp;
  index = i % u8_mod;
  total = h.total % u8_mod;
  ftype = h.ftype % u8_mod;
  data_size = size;
  payload = take size frame ++ drop size seg.payload;
}

-- The loop: the packets from the segment `i` and the id `packet_id` on.
unfoldable pub cut_frame :
    FrameHead
    → (i packet_id : ℕ) → List ℕ
    → (frame : List ℕ) → VideoSegment
    → List VideoPacketWrapper
unfolding on_new_segment
cut_frame h i packet_id [] frame seg = []
cut_frame h i packet_id (size ∷ splits) frame seg =
    on_new_segment (fill_segment h i size frame seg) (h.now % u32_mod)
      (new_packet packet_id (h.first_ts % u32_mod))
    ∷ cut_frame h (i + 1) (add32 packet_id 1) splits (drop size frame)
        (fill_segment h i size frame seg)

-- Each packet waits in `pend_buf_`.
unfoldable pub enter_pending :
    List VideoPacketWrapper → List (ℕ × VideoPacketWrapper) → List (ℕ × VideoPacketWrapper)
enter_pending [] pending = pending
enter_pending (p ∷ ps) pending = enter_pending ps (OrderedMap.insert p.packet_id p pending)

-- `id_len_map`.
unfoldable pub id_len_map : List VideoPacketWrapper → List ℕ → List (ℕ × ℕ) → List (ℕ × ℕ)
id_len_map [] sizes ids = ids
id_len_map (p ∷ ps) [] ids = ids
id_len_map (p ∷ ps) (size ∷ sizes) ids =
    id_len_map ps sizes (OrderedMap.insert p.packet_id size ids)

-- `PacketSchedule`; `none` is a packet that does not wait, whose iterator is dereferenced.
unfoldable pub packet_schedule : (packet_id pid : ℕ) → MpSender → Option (MpSender × List Output)
packet_schedule packet_id pid s =
    if not s.running then some (s, []) else elim (find packet_id s.pend_buf) [
      | none ↦ none
      | some packet ↦ elim (find pid s.usable_paths) [
        | none ↦
            some
              (record s { pend_buf = OrderedMap.erase packet_id s.pend_buf }, path_error pid ∷ [])
        | some path ↦ some (
          record s {
            pend_buf = OrderedMap.erase packet_id s.pend_buf;
            sent_buf = OrderedMap.insert packet_id packet s.sent_buf;
          },
          put path packet_id packet false ∷ [],
        )
      ]
    ]

-- The calls of `PacketSchedule` that the scheduler makes, in order.
unfoldable pub packet_schedule_all : List (ℕ × ℕ) → MpSender → Option (MpSender × List Output)
unfolding packet_schedule
packet_schedule_all [] s = some (s, [])
packet_schedule_all ((packet_id, pid) ∷ decisions) s =
    then_call (packet_schedule packet_id pid s) (packet_schedule_all decisions)

-- `PacketRetrans`.
unfoldable pub packet_retrans : (packet_id pid : ℕ) → MpSender → List Output
packet_retrans packet_id pid s = elim (find packet_id s.sent_buf) [
  | none ↦ []
  | some packet ↦ elim (find pid s.usable_paths) [
    | none ↦ path_error pid ∷ []
    | some path ↦ put path packet_id packet true ∷ []
  ]
]

-- max_packet_delay_threshold, in milliseconds.
abbrev pub max_packet_delay_threshold : ℕ
max_packet_delay_threshold = 500

unfoldable pub drop_stale :
    (now : ℕ) → List (ℕ × VideoPacketWrapper) → List (ℕ × VideoPacketWrapper)
unfolding is_stale
drop_stale now [] = []
drop_stale now ((packet_id, p) ∷ sent) =
    if is_stale now max_packet_delay_threshold p then drop_stale now sent else (packet_id, p) ∷ sent

-- `CheckStalePacket`.
unfoldable pub check_stale_packet : (now : ℕ) → MpSender → MpSender
unfolding drop_stale
check_stale_packet now s = record s { sent_buf = drop_stale now s.sent_buf }

-- The head of the next frame.
abbrev pub frame_head : (ftype now total : ℕ) → MpSender → FrameHead
frame_head ftype now total s =
    let first_ts = if s.first_ts == 0 then now else s.first_ts in
    record {
      now = now;
      first_ts = first_ts;
      fid = s.fid;
      timestamp = sub32 (now % u32_mod) (first_ts % u32_mod);
      ftype = ftype;
      total = total;
    }

-- `IncomingPackets` of the scheduler decides on a path for each id, and calls back in that order.
-- `seg` is the local segment before it is filled, whose bytes the code does not set.
module _ (incoming_packets : List (ℕ × ℕ) → ℕ → List (ℕ × ℕ)) (seg : VideoSegment) where
  -- `OnVideoFrame`; `none` is a failed assertion on the size or on the number of segments.
  unfoldable pub on_video_frame :
      (ftype : ℕ) → (frame : List ℕ) → (now : ℕ) → MpSender → Option (MpSender × List Output)
  unfolding frame_split cut_frame enter_pending id_len_map packet_schedule_all
  on_video_frame ftype frame now s =
      let splits = frame_split (length frame) in
      let head = frame_head ftype now (length splits) s in
      let packets = cut_frame head 0 s.packet_id splits frame seg in
      let entered : MpSender = record s {
        first_ts = head.first_ts;
        pend_buf = enter_pending packets s.pend_buf;
        packet_id = (s.packet_id + length packets) % u32_mod;
        fid = add32 s.fid 1;
      } in
      if not (ltb (length frame / sim_video_size) max_split_number)
      then none
      else if not (ltb (length splits) 256)
      then none
      else if s.schedule
      then packet_schedule_all (incoming_packets (id_len_map packets splits []) (length frame))
          entered
      else some (entered, [])

-- `Process`. The source's beat may hand in frames, so what it does is a call on the sender. The
-- event that the timer holds clears `heart_timer` before this call.
unfoldable pub process :
    (source_beat : (now : ℕ) → MpSender → Option (MpSender × List Output))
    → (now : ℕ) → MpSender
    → Option (MpSender × List Output)
unfolding check_stale_packet
process source_beat now s =
    let rearm : MpSender → Option (MpSender × List Output) =
      λ t. some (record t { heart_timer = true }, schedule_process 1 ∷ []) in
    let check : MpSender → Option (MpSender × List Output) = λ t. some (
      (if ltb t.next_stale_check now
          then record (check_stale_packet now t) { next_stale_check = add32 now 100 }
          else t),
      [],
    ) in
    if not s.running
    then some (s, [])
    else if s.heart_timer
    then some (s, [])
    else if length s.usable_paths == 0
    then rearm s
    else if not s.source
    then none
    else then_call (then_call (source_beat now s) check) rearm
