-- ===== src/V1/PathReceiver/Incoming.antt =====
-- What the receiving end of ns3/mp-video/model/path_receiver_v1.cc makes of a packet that was sent.
use mp_video_simulation.Prelude.{
  ℕ, ◌+◌, ◌%◌, ◌≤◌, ◌<◌, ◌≡◌, ◌∙◌, refl, ap, true, some, List, [], ◌∷◌, arith, add32, sub32,
  u16_mod, u32_mod,
}
use mp_video_simulation.Prelude.Calls.{Ensures}
use mp_video_simulation.V1.Wire.{
  QuicData, VideoSegment, VideoPacketWrapper, VideoPacketReceiveWrapper, serialize, deserialize,
  new_received, time_offset, video_segment_header_size, get_owd,
}
use mp_video_simulation.V1.Wire.RoundTrip.{IsSegment, on_the_wire, deserialize-serialize}
use mp_video_simulation.V1.PathReceiver.{
  PathReceiver, Output, send_ack, video_packet, stream, on_incoming_message, on_stream, time_packet,
  hand_up, process_video_packet, update_one_way_delay,
}

-- The packet that the upper layer gets: with its times, and the segment as it was stamped.
abbrev pub arrival :
    (sent_at received_at : ℕ) → VideoPacketWrapper → VideoSegment → VideoPacketReceiveWrapper
arrival sent_at received_at p seg = record {
  received_ts = received_at;
  sent_ts = sent_at;
  first_ts = p.ref_time;
  segment = some (on_the_wire (record seg { send_ts = time_offset sent_at p % u16_mod }));
}

-- What the path does with it.
pub record Delivers (abs : ℕ → ℕ) (seq sent_at received_at : ℕ) (p : VideoPacketWrapper)
    (seg : VideoSegment) (s s' : PathReceiver) (out : List Output) : Type 0 where
  pub emitted : out ≡ send_ack seq ∷ video_packet (arrival sent_at received_at p seg) ∷ []
  pub delayed : s' ≡ update_one_way_delay abs (sub32 received_at sent_at) s

-- The time of sending comes out of the sum of the three times, as long as the offset fits 16 bits.
sent_time :
    (sent_at : ℕ) (p : VideoPacketWrapper) (ts : ℕ)
    → p.timestamp ≡ ts
    → sent_at < u32_mod
    → p.ref_time < u32_mod
    → ts < u32_mod
    → time_offset sent_at p < u16_mod
    → add32 (add32 ts (time_offset sent_at p % u16_mod)) p.ref_time ≡ sent_at
sent_time sent_at p ts same now ref stamp small = omega (arith, same, small)

hand_up_lem :
    (s : PathReceiver) (packet : VideoPacketReceiveWrapper)
    → s.mpsink ≡ true
    → hand_up (some (s, packet)) ≡ some (s, video_packet packet ∷ [])
unfolding hand_up process_video_packet
hand_up_lem s packet h = ground (arith, h)

module _ (abs : ℕ → ℕ) (q : QuicData) where
  update_one_way_delay-mpsink :
      (owd : ℕ) (s : PathReceiver) → (update_one_way_delay abs owd s).mpsink ≡ s.mpsink
  unfolding update_one_way_delay
  update_one_way_delay-mpsink owd s = ground arith

  -- What the deserialized packet tells of its way.
  time_packet-arrival :
      (sent_at received_at : ℕ) (p : VideoPacketWrapper) (seg : VideoSegment) (s : PathReceiver)
      → seg.timestamp < u32_mod
      → p.timestamp ≡ seg.timestamp
      → sent_at < u32_mod
      → p.ref_time < u32_mod
      → time_offset sent_at p < u16_mod
      → time_packet abs
          (some p.ref_time)
          (record (arrival sent_at received_at p seg) { sent_ts = 0; first_ts = 0 })
          s
        ≡ some (
          update_one_way_delay abs (sub32 received_at sent_at) s,
          arrival sent_at received_at p seg,
        )
  unfolding time_packet get_owd
  time_packet-arrival sent_at received_at p seg s stamp same now ref small =
      let time = sent_time sent_at p seg.timestamp same now ref stamp small in
      let word : p.ref_time % u32_mod ≡ p.ref_time = omega arith in rw (word, time) refl

  on_stream-arrival :
      (sent_at received_at : ℕ) (p : VideoPacketWrapper) (seg : VideoSegment) (s : PathReceiver)
      (bytes : List ℕ)
      → s.sender ≡ true
      → s.mpsink ≡ true
      → deserialize q bytes (new_received received_at)
        ≡ some (record (arrival sent_at received_at p seg) { sent_ts = 0; first_ts = 0 })
      → time_packet abs
          (some p.ref_time)
          (record (arrival sent_at received_at p seg) { sent_ts = 0; first_ts = 0 })
          s
        ≡ some (
          update_one_way_delay abs (sub32 received_at sent_at) s,
          arrival sent_at received_at p seg,
        )
      → on_stream abs q (some p.ref_time) received_at bytes s
        ≡ some (
          update_one_way_delay abs (sub32 received_at sent_at) s,
          video_packet (arrival sent_at received_at p seg) ∷ [],
        )
  unfolding on_stream
  on_stream-arrival sent_at received_at p seg s bytes known sink read timed =
      let kept = update_one_way_delay-mpsink (sub32 received_at sent_at) s ∙ sink in
      let packet : VideoPacketReceiveWrapper = record (arrival sent_at received_at p seg) {
        sent_ts = 0;
        first_ts = 0;
      } in
      let found : on_stream abs q (some p.ref_time) received_at bytes s
          ≡ hand_up (time_packet abs (some p.ref_time) packet s) =
        simp (on_stream, known, read) in
      found ∙ ap hand_up timed ∙ hand_up_lem _ _ kept

  -- A packet with a segment that fits the wire, whose time is the segment's, is written at
  -- `sent_at` into a buffer that holds it, less than 2 ^ 16 ms after its frame; the times are
  -- words. The path that receives these bytes, with its sender and its upper layer set,
  -- acknowledges the number and then hands up the packet, once: with the segment as it was
  -- stamped, and with `sent_at` as its time of sending; and the delay that it learns is the
  -- time between sending and receiving.
  pub on_incoming_message-Delivers :
      (seq len sent_at received_at : ℕ) (p : VideoPacketWrapper) (seg : VideoSegment)
      (s : PathReceiver)
      → p.segment ≡ some seg
      → IsSegment seg
      → p.payload_size ≡ video_segment_header_size + seg.data_size
      → p.payload_size ≤ len
      → p.timestamp ≡ seg.timestamp
      → sent_at < u32_mod
      → p.ref_time < u32_mod
      → time_offset sent_at p < u16_mod
      → s.sender ≡ true
      → s.mpsink ≡ true
      → (bytes : List ℕ) × ((serialize q len sent_at p).1 ≡ some bytes)
        × Ensures
            (Delivers abs seq sent_at received_at p seg s)
            (on_incoming_message abs q (some p.ref_time) received_at (stream seq bytes) s)
  unfolding on_incoming_message
  on_incoming_message-Delivers seq len sent_at received_at p seg s there v sized le same now ref
        small known sink =
      let (bytes, written, size, read) =
        deserialize-serialize q len sent_at received_at p seg there v sized le in
      let timed =
        time_packet-arrival sent_at received_at p seg s v.timestamp_word same now ref small in
      let step = on_stream-arrival sent_at received_at p seg s bytes known sink read timed in
      (bytes, written, rw (on_incoming_message, step) (record { emitted = refl; delayed = refl }))
