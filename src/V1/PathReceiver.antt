-- ===== src/V1/PathReceiver.antt =====
-- ns3/mp-video/model/path_receiver_v1.cc: the receiving end of a path.
pub mod Incoming
mod Examples
use mp_video_simulation.Prelude.{
  ℕ, ◌+◌, ◌*◌, ◌/◌, ◌%◌, Bool, true, false, Option, none, some, List, [], ◌∷◌, ◌++◌, ◌==◌,
  if◌then◌else◌, sub32, u32_mod,
}
use mp_video_simulation.V1.Wire.{
  QuicData, VideoPacketReceiveWrapper, new_received, deserialize, get_owd,
}

-- PathReceiverV1, without the socket and its addresses; a Bool says of a pointer whether it is set.
pub record PathReceiver : Type 0 where
  pub owd : ℕ
  pub owd_var : ℕ
  pub mpsink : Bool
  pub pid : ℕ
  pub sender : Bool

-- Messages on the network and calls of the upper layer.
pub data Output : Type 0 where
  send_pong : (sent_ts : ℕ) → Output
  send_ack : (seq : ℕ) → Output
  video_packet : VideoPacketReceiveWrapper → Output
  stop_receiver : Output

-- The object as it is created.
abbrev pub init : PathReceiver
init = record { owd = 0; owd_var = 5; mpsink = false; pid = 0; sender = false }

-- `RegisterMpSink` and `RegisterPathSender`.
unfoldable pub register_mp_sink : PathReceiver → PathReceiver
register_mp_sink s = record s { mpsink = true }

unfoldable pub register_path_sender : PathReceiver → PathReceiver
register_path_sender s = record s { sender = true }

-- `StopApplication`.
unfoldable pub stop_application : PathReceiver → List Output
stop_application s = if s.mpsink then stop_receiver ∷ [] else []

-- `ProcessVideoPacket`.
unfoldable pub process_video_packet : VideoPacketReceiveWrapper → PathReceiver → List Output
process_video_packet packet s = if s.mpsink then video_packet packet ∷ [] else []

-- What the other end sends: a stream message has the bytes of a packet behind its number.
pub data Message : Type 0 where
  ping : (sent_ts : ℕ) → Message
  stream : (seq : ℕ) → (video_buf : List ℕ) → Message
  padding : (seq sent_ts : ℕ) → Message
  other : Message

-- The timed packet goes up.
unfoldable pub hand_up :
    Option (PathReceiver × VideoPacketReceiveWrapper) → Option (PathReceiver × List Output)
unfolding process_video_packet
hand_up none = none
hand_up (some (s, packet)) = some (s, process_video_packet packet s)

-- `abs` is std::abs on the uint32_t difference, as the library takes that word.
module _ (abs : ℕ → ℕ) where
  -- `UpdateOneWayDelay`.
  unfoldable pub update_one_way_delay : (new_owd : ℕ) → PathReceiver → PathReceiver
  update_one_way_delay new_owd s = if s.owd == 0 then record s { owd = new_owd } else record s {
    owd_var = (s.owd_var * 3 + abs (sub32 new_owd s.owd)) % u32_mod / 4;
    owd = (7 * s.owd + new_owd) % u32_mod / 8;
  }

  -- A packet with the time of the sender's first frame, if that is known, and what it tells of the
  -- delay; `get_owd` needs the segment, which `Deserialize` makes.
  unfoldable pub time_packet :
      (first_ts : Option ℕ)
      → VideoPacketReceiveWrapper
      → PathReceiver
      → Option (PathReceiver × VideoPacketReceiveWrapper)
  unfolding get_owd update_one_way_delay
  time_packet none packet s = some (s, packet)
  time_packet (some first_ts) packet s =
      elim (get_owd (record packet { first_ts = first_ts % u32_mod })) [
        | none ↦ none
        | some (timed, owd) ↦ some (update_one_way_delay owd s, timed)
      ]

  -- The branch of `OnIncomingMessage` for a stream message, behind the acknowledgement; `none` is a
  -- null sender, or bytes that are written past the end of the segment's array.
  unfoldable pub on_stream :
      QuicData
      → (first_ts : Option ℕ) → (now : ℕ) → List ℕ
      → PathReceiver
      → Option (PathReceiver × List Output)
  unfolding deserialize time_packet hand_up
  on_stream q first_ts now video_buf s =
      if s.sender
      then elim (deserialize q video_buf (new_received now)) [
        | none ↦ none
        | some packet ↦ hand_up (time_packet first_ts packet s)
      ]
      else none

  -- `OnIncomingMessage`. `first_ts` is what the path's sender answers, `none` where that is -1.
  unfoldable pub on_incoming_message :
      QuicData
      → (first_ts : Option ℕ) → (now : ℕ) → Message
      → PathReceiver
      → Option (PathReceiver × List Output)
  unfolding on_stream update_one_way_delay
  on_incoming_message q first_ts now (ping sent_ts) s =
      some (update_one_way_delay (sub32 now sent_ts) s, send_pong sent_ts ∷ [])
  on_incoming_message q first_ts now (stream seq video_buf) s =
      elim (on_stream q first_ts now video_buf s) [
        | none ↦ none
        | some (s', out) ↦ some (s', send_ack seq ∷ out)
      ]
  on_incoming_message q first_ts now (padding seq sent_ts) s =
      some (update_one_way_delay (sub32 now sent_ts) s, send_ack seq ∷ [])
  on_incoming_message q first_ts now other s = some (s, [])
