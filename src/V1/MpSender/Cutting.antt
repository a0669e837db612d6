-- ===== src/V1/MpSender/Cutting.antt =====
-- What ns3/mp-video/model/mp_sender_v1.cc makes of a frame.
use mp_video_simulation.Prelude.{
  ℕ, zero, suc, ◌+◌, ◌-◌, ◌%◌, ◌≤◌, ◌<◌, ◌≡◌, ◌^◌, ◌∙◌, refl, ap, sym, Option, none, some, List, [],
  ◌∷◌, ◌++◌, length, take, drop, sum, All, All-map, arith, length-append, add32, u8_mod,
}
use mp_video_simulation.Frame.{frame_split}
use mp_video_simulation.Frame.Laws.{frame_split_total}
use mp_video_simulation.V1.Wire.{
  VideoSegment, VideoPacketWrapper, video_packet_size, video_segment_header_size,
}
use mp_video_simulation.V1.Wire.RoundTrip.{IsSegment, length-take}
use mp_video_simulation.V1.MpSender.Video.{FrameHead, fill_segment, cut_frame, frame_head}
use mp_video_simulation.V1.MpSender.State.{MpSender}

-- A packet that can be sent: its segment fits the wire and belongs to a frame of `total`.
pub record IsReady (total : ℕ) (p : VideoPacketWrapper) : Type 0 where
  pub seg : VideoSegment
  pub there : p.segment ≡ some seg
  pub valid : IsSegment seg
  pub sized : p.payload_size ≡ video_segment_header_size + seg.data_size
  pub whole : seg.total ≡ total
  pub low : seg.index < total

-- The data of the packets in their order, their indices and their ids.
abbrev pub contents : List VideoPacketWrapper → List ℕ
contents [] = []
contents (p ∷ ps) =
    elim p.segment [ none ↦ [] | some seg ↦ take seg.data_size seg.payload ] ++ contents ps

abbrev pub get_index_of : VideoPacketWrapper → Option ℕ
get_index_of p = elim p.segment [ none ↦ none | some seg ↦ some seg.index ]

abbrev pub indices : List VideoPacketWrapper → List (Option ℕ)
indices [] = []
indices (p ∷ ps) = get_index_of p ∷ indices ps

abbrev pub counted : (i n : ℕ) → List (Option ℕ)
counted i zero = []
counted i (suc n) = some i ∷ counted (i + 1) n

-- The numbers of the head and of the local segment are words, and the segment's array is whole.
pub record IsHead (h : FrameHead) (seg : VideoSegment) : Type 0 where
  pub fid_word : h.fid < 2 ^ 32
  pub timestamp_word : h.timestamp < 2 ^ 32
  pub total_byte : h.total < 2 ^ 8
  pub send_ts_half : seg.send_ts < 2 ^ 16
  pub array : length seg.payload ≡ video_packet_size

length-drop : (n : ℕ) (xs : List ℕ) → length (drop n xs) ≡ length xs - n
length-drop zero xs = omega arith
length-drop (suc n) [] = omega arith
length-drop (suc n) (x ∷ xs) = omega (arith, length-drop n xs)

take-append : (xs ys : List ℕ) → take (length xs) (xs ++ ys) ≡ xs
take-append [] ys = refl
take-append (x ∷ xs) ys = ap (◌∷◌ x) (take-append xs ys)

take-drop : (n : ℕ) (xs : List ℕ) → take n xs ++ drop n xs ≡ xs
take-drop zero xs = refl
take-drop (suc n) [] = refl
take-drop (suc n) (x ∷ xs) = ap (◌∷◌ x) (take-drop n xs)

abbrev Piece : ℕ → Type 0
Piece n = n ≤ video_packet_size

fill_segment-array :
    (h : FrameHead) (i size : ℕ) (frame : List ℕ) (seg : VideoSegment)
    → size ≤ length frame
    → size ≤ video_packet_size
    → IsHead h seg
    → (length (take size frame ++ drop size seg.payload) ≡ video_packet_size)
      × (take size (take size frame ++ drop size seg.payload) ≡ take size frame)
fill_segment-array h i size frame seg le fits v =
    let front : length (take size frame) ≡ size = length-take size frame le in
    (
      omega (
        arith,
        length-append (take size frame) (drop size seg.payload),
        front,
        length-drop size seg.payload,
        v.array,
        fits,
      ),
      ap (λ n. take n (take size frame ++ drop size seg.payload)) (sym front)
          ∙ take-append (take size frame) (drop size seg.payload),
    )

-- What the cut makes of the frame from a segment on.
pub record IsCut (h : FrameHead) (i n : ℕ) (frame : List ℕ) (ps : List VideoPacketWrapper)
    : Type 0 where
  pub ready : All (IsReady h.total) ps
  pub held : contents ps ≡ frame
  pub numbered : indices ps ≡ counted i n

cut_frame-IsCut :
    (h : FrameHead) (i packet_id : ℕ) (splits frame : List ℕ) (seg : VideoSegment)
    → IsHead h seg
    → All Piece splits
    → i + length splits ≡ h.total
    → sum splits ≡ length frame
    → IsCut h i (length splits) frame (cut_frame h i packet_id splits frame seg)
unfolding cut_frame
cut_frame-IsCut h i packet_id [] [] seg v f c t = record {
  ready = tt;
  held = refl;
  numbered = refl;
}
cut_frame-IsCut h i packet_id [] (x ∷ frame) seg v f c t = absurd (omega (arith, t))
cut_frame-IsCut h i packet_id (size ∷ splits) frame seg v f c t =
    let (array, taken) = fill_segment-array h i size frame seg (omega (arith, t)) f.0 v in
    let filled = fill_segment h i size frame seg in
    let rest =
      cut_frame-IsCut h (i + 1) (add32 packet_id 1) splits (drop size frame) filled
        (record {
          fid_word = v.fid_word;
          timestamp_word = v.timestamp_word;
          total_byte = v.total_byte;
          send_ts_half = v.send_ts_half;
          array = array;
        })
        f.1 (omega (arith, c)) (omega (arith, t, length-drop size frame)) in
    record {
      ready = (
        record {
          seg = filled;
          there = refl;
          valid = record {
            fid_word = v.fid_word;
            timestamp_word = v.timestamp_word;
            index_byte = omega arith;
            total_byte = omega arith;
            ftype_byte = omega arith;
            send_ts_half = v.send_ts_half;
            fits = f.0;
            array = array;
          };
          sized = refl;
          whole = omega (arith, v.total_byte);
          low = omega (arith, c, v.total_byte);
        },
        rest.ready,
      );
      held = rw (taken, rest.held) (take-drop size frame);
      numbered =
          (let low : i % u8_mod ≡ i = omega (arith, c, v.total_byte) in
            ap
              (λ k.
                some k
                ∷ indices (cut_frame h (i + 1) (add32 packet_id 1) splits (drop size frame) filled))
              low
            ∙ ap (◌∷◌ (some i)) rest.numbered);
    }

-- A frame of 1 to 255000 bytes, a sender whose frame id is a word, and a local segment with its whole array: the frame is cut
-- into packets that together hold its bytes in order, with the indices from 0 on and the total of
-- them, and each can be sent.
pub frame_head-IsCut :
    (ftype now : ℕ) (frame : List ℕ) (seg : VideoSegment) (s : MpSender)
    → 0 < length frame
    → length frame ≤ 255000
    → s.fid < 2 ^ 32
    → seg.send_ts < 2 ^ 16
    → length seg.payload ≡ video_packet_size
    → let splits = frame_split (length frame) in
      let head = frame_head ftype now (length splits) s in
      IsCut head 0 (length splits) frame (cut_frame head 0 s.packet_id splits frame seg)
frame_head-IsCut ftype now frame seg s pos small fid send_ts array =
    let (total, fits, count, array_fits) =
      frame_split_total (length frame) pos (omega (arith, small)) in
    let splits = frame_split (length frame) in
    let head = frame_head ftype now (length splits) s in
    cut_frame-IsCut head 0 s.packet_id splits frame seg
      (record {
        fid_word = fid;
        timestamp_word = omega arith;
        total_byte = omega (arith, count, small);
        send_ts_half = send_ts;
        array = array;
      })
      (All-map _ Piece splits (λ n (p, q). q) fits) (omega arith) total
