-- ===== src/V1/EndToEnd.antt =====
-- A frame from the sender of ns3/mp-video/model/mp_sender_v1.cc to the frame buffer of
-- ns3/mp-video/model/video_proto.cc.
use mp_video_simulation.Prelude.{
  ℕ, zero, suc, ◌+◌, ◌≤◌, ◌<◌, ◌≡◌, ◌^◌, ◌↔◌, ◌∙◌, refl, sym, Bool, true, false, ◌||◌, Option, none,
  some, List, [], ◌∷◌, length, get_elem?, ◌==◌, All, Returns, arith,
}
use mp_video_simulation.Frame.{frame_split}
use mp_video_simulation.Frame.Laws.{frame_split_total}
use mp_video_simulation.V1.Wire.{
  QuicData, VideoSegment, VideoPacketWrapper, VideoPacketReceiveWrapper, serialize, deserialize,
  new_received, video_packet_size,
}
use mp_video_simulation.V1.Wire.RoundTrip.{deserialize-serialize}
use mp_video_simulation.V1.FrameBuffer.{new_frame}
use mp_video_simulation.V1.FrameBuffer.Completion.{
  Fits, has_index, arrived, on_new_packets, on_new_packets_complete_iff,
}
use mp_video_simulation.V1.MpSender.State.{MpSender}
use mp_video_simulation.V1.MpSender.Video.{frame_head, cut_frame}
use mp_video_simulation.V1.MpSender.Cutting.{
  IsReady, get_index_of, indices, counted, frame_head-IsCut,
}

-- Which segment of the frame travels, when it is written and when it is read.
pub record Journey : Type 0 where
  pub place : ℕ
  pub sent_at : ℕ
  pub received_at : ℕ

-- Whether the segment `i` travels.
abbrev pub travels : ℕ → List Journey → Bool
travels i [] = false
travels i (j ∷ js) = (j.place == i) || travels i js

Returns-value :
    {A : Type 0} (P : A → Type 0) (o : Option A) → Returns P o → (a : A) × (o ≡ some a) × P a
Returns-value P none h = absurd h
Returns-value P (some a) h = (a, refl, h)

module _ (q : QuicData) where
  -- A packet is written into a buffer of 1400 bytes, and what it leaves there is read.
  abbrev pub transmit : Journey → VideoPacketWrapper → Option VideoPacketReceiveWrapper
  transmit j p = elim (serialize q 1400 j.sent_at p).1 [
    | none ↦ none
    | some bytes ↦ deserialize q bytes (new_received j.received_at)
  ]

  -- The packets of a frame travel, in any order, repeated or not at all.
  abbrev pub transmit_all :
      List VideoPacketWrapper → List Journey → Option (List (VideoPacketReceiveWrapper × ℕ))
  transmit_all packets [] = some []
  transmit_all packets (j ∷ js) = elim (get_elem? packets j.place) [
    | none ↦ none
    | some p ↦ elim (transmit j p) [
      | none ↦ none
      | some r ↦ elim (transmit_all packets js) [
        | none ↦ none
        | some rs ↦ some ((r, j.received_at) ∷ rs)
      ]
    ]
  ]

  -- The packet at a place of the cut.
  record Found (total i pos : ℕ) (packets : List VideoPacketWrapper) : Type 0 where
    p : VideoPacketWrapper
    at : get_elem? packets pos ≡ some p
    ready : IsReady total p
    placed : ready.seg.index ≡ i + pos

  find_packet :
      (total i n pos : ℕ) (packets : List VideoPacketWrapper)
      → All (IsReady total) packets
      → indices packets ≡ counted i n
      → pos < n
      → Found total i pos packets
  find_packet total i zero pos packets r e h = absurd (omega (arith, h))
  find_packet total i (suc n) pos [] r e h = absurd cc
  find_packet total i (suc n) zero (p ∷ ps) r e h =
      let first : get_index_of p ≡ some i = cc in
      record {
        p = p;
        at = refl;
        ready = r.0;
        placed =
            (let same : some r.0.seg.index ≡ some i = rw r.0.there at first in
              let equal : r.0.seg.index ≡ i = cc in omega (arith, equal));
      }
  find_packet total i (suc n) (suc pos) (p ∷ ps) r e h =
      let rest : indices ps ≡ counted (i + 1) n = cc in
      let found = find_packet total (i + 1) n pos ps r.1 rest (omega (arith, h)) in
      record {
        p = found.p;
        at = found.at;
        ready = found.ready;
        placed = omega (arith, found.placed);
      }

  -- What arrives of a packet.
  record Arrives (total pos : ℕ) (r : VideoPacketReceiveWrapper) : Type 0 where
    fits : Fits total r
    same : (i : ℕ) → has_index i r ≡ (pos == i)

  transmit-Arrives :
      (total pos : ℕ) (j : Journey) (p : VideoPacketWrapper) (v : IsReady total p)
      → v.seg.index ≡ pos
      → Returns (Arrives total pos) (transmit j p)
  transmit-Arrives total pos j p v e =
      let (bytes, written, size, read) =
        deserialize-serialize q 1400 j.sent_at j.received_at p v.seg v.there v.valid v.sized
          (omega (arith, v.sized, v.valid.fits)) in
      rw (transmit, written, read) (record { fits = omega (arith, v.low); same = λ i. rw e refl })

  -- What all the journeys bring.
  record Brings (total : ℕ) (js : List Journey) (arrivals : List (VideoPacketReceiveWrapper × ℕ))
      : Type 0 where
    fit : All (λ (r, ts). Fits total r) arrivals
    same : (i : ℕ) → arrived i arrivals ≡ travels i js

  transmit_all-Brings :
      (total : ℕ) (packets : List VideoPacketWrapper) (js : List Journey)
      → All (IsReady total) packets
      → indices packets ≡ counted 0 total
      → All (λ j. j.place < total) js
      → Returns (Brings total js) (transmit_all packets js)
  transmit_all-Brings total packets [] r e h = record { fit = tt; same = λ i. refl }
  transmit_all-Brings total packets (j ∷ js) r e h =
      let f = find_packet total 0 total j.place packets r e h.0 in
      let (got, sent, a) =
        Returns-value (Arrives total j.place) (transmit j f.p)
          (transmit-Arrives total j.place j f.p f.ready (omega (arith, f.placed))) in
      let (others, rest, b) =
        Returns-value (Brings total js) (transmit_all packets js)
          (transmit_all-Brings total packets js r e h.1) in
      rw (transmit_all, f.at, sent, rest)
        (record { fit = (a.fits, b.fit); same = λ i. rw (a.same i, b.same i) refl })

  -- A frame of 1 to 255000 bytes is cut by a sender whose frame id is a word, from a local
  -- segment with its whole array. Its packets travel, in any order, repeated or not at all,
  -- through buffers of 1400 bytes. All of them arrive, and the frame buffer of the receiver,
  -- made for that many packets, is complete exactly if each of them travelled.
  pub transmit_all_complete_iff :
      (ftype now : ℕ) (frame : List ℕ) (seg : VideoSegment) (s : MpSender) (js : List Journey)
      → 0 < length frame
      → length frame ≤ 255000
      → s.fid < 2 ^ 32
      → seg.send_ts < 2 ^ 16
      → length seg.payload ≡ video_packet_size
      → let splits = frame_split (length frame) in
        let total = length splits in
        All (λ j. j.place < total) js
        → Returns
            (λ arrivals.
              ((on_new_packets arrivals (new_frame ftype s.fid total)).is_completed ≡ true)
              ↔ ((i : ℕ) → i < total → travels i js ≡ true))
            (transmit_all
              (cut_frame (frame_head ftype now total s) 0 s.packet_id splits frame seg)
              js)
  transmit_all_complete_iff ftype now frame seg s js pos small fid send_ts array places =
      let (all_of_it, pieces, count, few) =
        frame_split_total (length frame) pos (omega (arith, small)) in
      let splits = frame_split (length frame) in
      let total = length splits in
      let packets = cut_frame (frame_head ftype now total s) 0 s.packet_id splits frame seg in
      let cut = frame_head-IsCut ftype now frame seg s pos small fid send_ts array in
      let (arrivals, came, b) =
        Returns-value (Brings total js) (transmit_all packets js)
          (transmit_all-Brings total packets js cut.ready cut.numbered places) in
      let (only, enough) =
        on_new_packets_complete_iff ftype s.fid total arrivals (omega (arith, count, pos))
          (omega (arith, count, small)) b.fit in
      rw came (
        (λ done i lt. sym (b.same i) ∙ only done i lt),
        (λ all. enough (λ i lt. b.same i ∙ all i lt)),
      )
