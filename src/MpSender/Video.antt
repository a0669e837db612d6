-- ===== src/MpSender/Video.antt =====
-- ns3/mp-video/model/mpsender.cc: `SendVideo`, `SchedulePendingBuf` and `PacketSchedule`.
use mp_video_simulation.Prelude.{
  ℕ, ◌+◌, ◌/◌, ◌%◌, not, Option, none, some, List, [], ◌∷◌, ◌++◌, ltb, if◌then◌else◌, length, take,
  drop, add32, sub32, u8_mod, u16_mod, u32_mod,
}
use mp_video_simulation.Prelude.OrderedMap
use mp_video_simulation.Prelude.OrderedMap.{find, sum_values}
use mp_video_simulation.Frame.{frame_split, max_split_number, sim_video_size}
use mp_video_simulation.Protocol.{Segment, wire_size}
use mp_video_simulation.MpSender.State.{MultipathSender, Output, put, schedule_error}

-- What all segments of a frame share.
pub record FrameHead : Type 0 where
  pub fid : ℕ
  pub timestamp : ℕ
  pub ftype : ℕ
  pub payload_type : ℕ
  pub total : ℕ

-- The loop that fills the segments, from the `i`-th on.
unfoldable pub cut_frame : FrameHead → ℕ → List ℕ → List ℕ → List Segment
cut_frame h i [] frame = []
cut_frame h i (size ∷ splits) frame =
    record {
      packet_id = 0;
      fid = h.fid;
      timestamp = h.timestamp;
      index = i % u16_mod;
      total = h.total;
      ftype = h.ftype % u8_mod;
      payload_type = h.payload_type;
      remb = 1;
      send_ts = 0;
      transport_seq = 0;
      data_size = size;
      bytes = take size frame;
    }
    ∷ cut_frame h (i + 1) splits (drop size frame)

-- Each segment enters `pending_buf_` under the next schedule id.
unfoldable pub enter_pending : List Segment → ℕ → List (ℕ × Segment) → ℕ × List (ℕ × Segment)
enter_pending [] seed pending = (seed, pending)
enter_pending (seg ∷ segs) seed pending =
    enter_pending segs (add32 seed 1) (OrderedMap.insert seed seg pending)

-- `PacketSchedule` on the two maps: a segment whose path is not usable is lost.
unfoldable pub dispatch :
    ℕ → ℕ → List (ℕ × ℕ) → List (ℕ × Segment) → List (ℕ × Segment) × List Output
dispatch id pid usable pending = elim (find id pending) [
  | none ↦ (pending, [])
  | some seg ↦ (
    OrderedMap.erase id pending,
    elim (find pid usable) [ none ↦ schedule_error pid ∷ [] | some path ↦ put path seg ∷ [] ],
  )
]

unfoldable pub packet_schedule : ℕ → ℕ → MultipathSender → MultipathSender × List Output
unfolding dispatch
packet_schedule id pid s =
    let (pending, out) = dispatch id pid s.usable_path s.pending_buf in
    (record s { pending_buf = pending }, out)

-- The calls of `PacketSchedule` that the scheduler makes, in order.
unfoldable pub dispatch_all :
    List (ℕ × ℕ) → List (ℕ × ℕ) → List (ℕ × Segment) → List (ℕ × Segment) × List Output
unfolding dispatch
dispatch_all [] usable pending = (pending, [])
dispatch_all ((id, pid) ∷ decisions) usable pending =
    let (pending', out) = dispatch id pid usable pending in
    let (pending'', out') = dispatch_all decisions usable pending' in (pending'', out ++ out')

-- `pending_info`: the sizes by schedule id.
unfoldable pub pending_info : List (ℕ × Segment) → List (ℕ × ℕ)
pending_info [] = []
pending_info ((id, seg) ∷ pending) = (id, wire_size seg) ∷ pending_info pending

-- The head of the next frame, at a time.
abbrev pub frame_head :
    (payload_type ftype : ℕ) → (frame : List ℕ) → (now : ℕ) → MultipathSender → FrameHead
frame_head payload_type ftype frame now s = record {
  fid = s.frame_seed;
  timestamp = sub32 now (elim s.first_ts [ none ↦ now | some ts ↦ ts ]);
  ftype = ftype;
  payload_type = payload_type;
  total = length (frame_split (length frame));
}

-- `IncomingPackets` of the scheduler decides on a path for each id, and calls back in that order.
module _ (incoming_packets : List (ℕ × ℕ) → ℕ → List (ℕ × ℕ)) where
  -- Without packets the scheduler is not called.
  unfoldable pub decisions_for : List (ℕ × Segment) → List (ℕ × ℕ)
  unfolding pending_info
  decisions_for [] = []
  decisions_for (p ∷ pending) =
      incoming_packets (pending_info (p ∷ pending)) (sum_values wire_size (p ∷ pending) % u32_mod)

  unfoldable pub schedule_pending_buf : MultipathSender → MultipathSender × List Output
  unfolding dispatch_all decisions_for
  schedule_pending_buf s =
      if not s.scheduler
      then (s, [])
      else (let (pending, out) =
            dispatch_all (decisions_for s.pending_buf) s.usable_path s.pending_buf in
          (record s { pending_buf = pending }, out))

  -- `none` is the failed assertion on the size.
  unfoldable pub send_video :
      (payload_type ftype : ℕ)
      → (frame : List ℕ) → (now : ℕ) → MultipathSender
      → Option (MultipathSender × List Output)
  unfolding schedule_pending_buf cut_frame enter_pending frame_split
  send_video payload_type ftype frame now s =
      if s.stop
      then some (s, [])
      else if not (ltb (length frame / sim_video_size) max_split_number)
      then none
      else (let first_ts : ℕ = elim s.first_ts [ none ↦ now | some ts ↦ ts ] in
          let splits = frame_split (length frame) in
          let head = frame_head payload_type ftype frame now s in
          let (seed, pending) =
            enter_pending (cut_frame head 0 splits frame) s.schedule_seed s.pending_buf in
          some (
            schedule_pending_buf (record s {
              first_ts = some first_ts;
              schedule_seed = seed;
              frame_seed = add32 s.frame_seed 1;
              pending_buf = pending;
            })))
