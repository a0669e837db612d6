-- ===== src/V1/MpReceiver.antt =====
-- ns3/mp-video/model/mp_receiver_v1.cc: the receiver that puts the frames of all paths together.
pub mod Order
pub mod Liveness
use mp_video_simulation.Prelude.{
  ℕ, Bool, true, false, Option, none, some, List, [], ◌∷◌, ◌++◌, ltb, leb, not, if◌then◌else◌,
}
use mp_video_simulation.Prelude.OrderedMap
use mp_video_simulation.Prelude.OrderedMap.{find}
use mp_video_simulation.V1.Wire.{VideoSegment, VideoPacketReceiveWrapper}
use mp_video_simulation.V1.FrameBuffer.{
  VideoFrameBuffer, new_frame, is_expired, get_frame_delay, on_new_packet,
}

-- MpReceiverV1. A path stands for its object by a handle; a Bool says of the timer whether its event
-- is pending, and of the trace whether it is set.
pub record MpReceiver : Type 0 where
  pub first_packet : Bool
  pub running : Bool
  pub trace_frame_delay : Bool
  pub path_receivers : List (ℕ × ℕ)
  pub frames : List (ℕ × VideoFrameBuffer)
  pub delivered_fid : ℕ
  pub heart_timer : Bool

pub data Output : Type 0 where
  frame_delay : (fid delay received total : ℕ) → Output
  register_mp_sink : (path : ℕ) → Output
  schedule_heart_beat : (delay : ℕ) → Output

-- The object as it is created.
abbrev pub init : MpReceiver
init = record {
  first_packet = true;
  running = true;
  trace_frame_delay = false;
  path_receivers = [];
  frames = [];
  delivered_fid = 0;
  heart_timer = false;
}

-- max_frame_wait and `heart_beat_t_`, in milliseconds.
abbrev pub max_frame_wait : ℕ
max_frame_wait = 300

abbrev pub heart_beat_t : ℕ
heart_beat_t = 1

-- `RegisteReceiver`, for a path with the id `pid`.
unfoldable pub registe_receiver : (pid path : ℕ) → MpReceiver → MpReceiver × List Output
registe_receiver pid path s = (
  record s { path_receivers = OrderedMap.insert pid path s.path_receivers },
  register_mp_sink path ∷ [],
)

-- `DeliverFrame`.
unfoldable pub deliver_frame : ℕ → VideoFrameBuffer → MpReceiver → List Output
unfolding get_frame_delay
deliver_frame fid f s =
    if s.trace_frame_delay then frame_delay fid (get_frame_delay f) f.received f.total ∷ [] else []

-- The frame leaves the receiver, complete or too old.
unfoldable pub is_due : (now : ℕ) → VideoFrameBuffer → Bool
unfolding is_expired
is_due now f = if f.is_completed then true else is_expired now max_frame_wait f

-- The loop over the frames by rising id.
unfoldable pub deliver_due :
    (now : ℕ) → List (ℕ × VideoFrameBuffer) → MpReceiver → MpReceiver × List Output
unfolding is_due deliver_frame
deliver_due now [] s = (record s { frames = [] }, [])
deliver_due now ((fid, f) ∷ frames) s =
    let (s', out) = deliver_due now frames (record s { delivered_fid = fid }) in
    if is_due now f
    then (s', deliver_frame fid f s ++ out)
    else (record s { frames = (fid, f) ∷ frames }, [])

-- `CheckDeliverable`.
unfoldable pub check_deliverable : (now : ℕ) → MpReceiver → MpReceiver × List Output
unfolding deliver_due
check_deliverable now s = if not s.running then (s, []) else deliver_due now s.frames s

-- `HeartBeat`.
unfoldable pub heart_beat : (now : ℕ) → MpReceiver → MpReceiver × List Output
unfolding check_deliverable
heart_beat now s =
    if s.heart_timer
    then (s, [])
    else if not s.running
    then (s, [])
    else (let (s', out) = check_deliverable now s in
        (record s' { heart_timer = true }, out ++ schedule_heart_beat heart_beat_t ∷ []))

-- The frame of a segment with the packet in it: a new one, or the one that the map shares.
unfoldable pub store_packet :
    (now : ℕ)
    → VideoSegment
    → VideoPacketReceiveWrapper
    → List (ℕ × VideoFrameBuffer)
    → List (ℕ × VideoFrameBuffer)
unfolding on_new_packet
store_packet now seg packet frames = elim (find seg.fid frames) [
  | none ↦
      OrderedMap.insert seg.fid (on_new_packet packet now (new_frame seg.ftype seg.fid seg.total))
        frames
  | some f ↦ OrderedMap.update seg.fid (on_new_packet packet now f) frames
]

-- The first packet starts the beat.
unfoldable pub start_beat : MpReceiver → MpReceiver × List Output
start_beat s =
    if s.first_packet
    then (record s { heart_timer = true; first_packet = false }, schedule_heart_beat 0 ∷ [])
    else (s, [])

-- `OnVideoPacket`; `none` is a packet without a segment, which the code dereferences.
unfoldable pub on_video_packet :
    (now : ℕ) → VideoPacketReceiveWrapper → MpReceiver → Option (MpReceiver × List Output)
unfolding start_beat store_packet
on_video_packet now packet s =
    if not s.running
    then some (s, [])
    else (let (s', out) = start_beat s in
        elim packet.segment [
          | none ↦ none
          | some seg ↦
              if leb seg.fid s'.delivered_fid
              then some (s', out)
              else some (record s' { frames = store_packet now seg packet s'.frames }, out)
        ])

-- `StopReceiver`.
unfoldable pub stop_receiver : MpReceiver → MpReceiver
stop_receiver s = record s { running = false; heart_timer = false }

-- What happens to a receiver: a packet comes, the timer's event is due, or it is stopped.
pub data Event : Type 0 where
  packet_event : (now : ℕ) → VideoPacketReceiveWrapper → Event
  timer_event : (now : ℕ) → Event
  stop_event : Event

-- The simulator runs an event that is pending, and no other.
unfoldable pub on_timer : (now : ℕ) → MpReceiver → MpReceiver × List Output
unfolding heart_beat
on_timer now s =
    if s.heart_timer then heart_beat now (record s { heart_timer = false }) else (s, [])

unfoldable pub handle : Event → MpReceiver → Option (MpReceiver × List Output)
unfolding on_video_packet on_timer stop_receiver
handle (packet_event now packet) s = on_video_packet now packet s
handle (timer_event now) s = some (on_timer now s)
handle stop_event s = some (stop_receiver s, [])
