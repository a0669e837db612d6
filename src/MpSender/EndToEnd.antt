-- ===== src/MpSender/EndToEnd.antt =====
-- A frame from ns3/mp-video/model/mpsender.cc to the sink of mpreceiver.cc.
use mp_video_simulation.Prelude.{
  ℕ, suc, ◌+◌, ◌/◌, ◌<◌, ◌≡◌, ◌∙◌, refl, sym, ap, Option, none, some, List, [], ◌∷◌, ◌++◌, length,
  get_elem?, All, All-map, arith,
}
use mp_video_simulation.Prelude.Calls.{Ensures, Ensures-map}
use mp_video_simulation.Prelude.Runs.{run, AreAllowed}
use mp_video_simulation.Prelude.OrderedMap.{Every}
use mp_video_simulation.Frame.{frame_split, sim_video_size, max_split_number}
use mp_video_simulation.Protocol.{Segment}
use mp_video_simulation.MpReceiver.State.{
  VideoPacket, MultipathReceiver, Output, gap, frame_info, forward_up, consume, recv_len,
  schedule_heart_beat, stop_path,
}
use mp_video_simulation.MpReceiver.Delivery.{assemble, count_packets}
use mp_video_simulation.MpReceiver.Slots.{count_packets-le-length}
use mp_video_simulation.MpReceiver.Intake.{IsRunning}
use mp_video_simulation.MpReceiver.Integrity.{Slots, IsFilled, IsWhole}
use mp_video_simulation.MpReceiver.Runs.{Event, handle}
use mp_video_simulation.MpReceiver.Integrity.Runs.{IsFitting, handle_all-IsWhole}
use mp_video_simulation.MpSender.Video.{FrameHead, cut_frame}
use mp_video_simulation.MpSender.Sending.{arrived, assemble-cut_frame}

abbrev bytes_of_all : List Segment → List ℕ
bytes_of_all [] = []
bytes_of_all (seg ∷ segs) = seg.bytes ++ bytes_of_all segs

assemble-arrived :
    (pid_of : ℕ → ℕ) (segs : List Segment) → assemble (arrived pid_of segs) ≡ bytes_of_all segs
unfolding assemble
assemble-arrived pid_of [] = refl
assemble-arrived pid_of (seg ∷ segs) = ap (◌++◌ seg.bytes) (assemble-arrived pid_of segs)

-- The frames that a sender has cut, under their ids.
module _ (head_of : ℕ → FrameHead) (video : ℕ → List ℕ) where
  abbrev pub cut : ℕ → List Segment
  cut fid = cut_frame (head_of fid) 0 (frame_split (length (video fid))) (video fid)

  -- A segment of one of the frames; what a path writes to it is its own.
  abbrev pub IsPiece : Segment → Type 0
  IsPiece d =
      (seg : Segment) × (get_elem? (cut d.fid) d.index ≡ some seg)
      × (d.bytes ≡ seg.bytes)
      × (d.total ≡ length (cut d.fid))

  -- A frame that goes up with all of its packets is the frame that was cut.
  abbrev pub IsVideo : Output → Type 0
  IsVideo (forward_up fid buf len recv total) = recv ≡ total → buf ≡ video fid
  IsVideo (gap fid delta) = Unit
  IsVideo (frame_info info) = Unit
  IsVideo (consume path id) = Unit
  IsVideo (recv_len len) = Unit
  IsVideo (schedule_heart_beat delay) = Unit
  IsVideo (stop_path path) = Unit

  -- Slots that are all filled hold the segments from the `i`th on.
  assemble_full :
      (fid i : ℕ) (slots : List (Option VideoPacket)) (segs : List Segment)
      → Slots IsPiece fid i slots
      → ((j : ℕ) → get_elem? (cut fid) (i + j) ≡ get_elem? segs j)
      → count_packets slots ≡ length slots
      → length slots ≡ length segs
      → assemble slots ≡ bytes_of_all segs
  unfolding assemble count_packets
  assemble_full fid i [] [] h at_i c l = refl
  assemble_full fid i [] (seg ∷ segs) h at_i c l = absurd (omega (arith, l))
  assemble_full fid i (none ∷ slots) segs h at_i c l =
      absurd (omega (arith, c, count_packets-le-length slots))
  assemble_full fid i (some p ∷ slots) [] h at_i c l = absurd (omega (arith, l))
  assemble_full fid i (some p ∷ slots) (seg ∷ segs)
        (((found, there, same, total), key, place), rest) at_i c l =
      let here : get_elem? (cut fid) i ≡ some found = rw (key, place) at there in
      let start : i ≡ i + 0 = omega arith in
      let first : get_elem? (cut fid) i ≡ some seg = ap (get_elem? (cut fid)) start ∙ at_i 0 in
      let one : found ≡ seg = cc (here, first) in
      let next : (j : ℕ) → get_elem? (cut fid) (suc i + j) ≡ get_elem? segs j = λ j.
        let move : suc i + j ≡ i + suc j = omega arith in
        ap (get_elem? (cut fid)) move ∙ at_i (suc j) in
      let others : assemble slots ≡ bytes_of_all segs =
        assemble_full fid (suc i) slots segs rest next (omega (arith, c)) (omega (arith, l)) in
      rw (same, one, others) refl

  module _
      (fits : (fid : ℕ)
        → (0 < length (video fid)) × (length (video fid) / sim_video_size < max_split_number)) where
    whole-IsVideo : (o : Output) → IsWhole IsPiece o → IsVideo o
    whole-IsVideo (forward_up fid buf len recv total)
          (slots, h, put_together, counted, all, (d, (seg, there, same, n), key, told)) =
        λ full.
          let enough : length slots ≡ length (cut fid) = rw key at (sym all ∙ sym told ∙ n) in
          put_together
          ∙ assemble_full fid 0 slots (cut fid) h
              (λ j. let same : 0 + j ≡ j = omega arith in ap (get_elem? (cut fid)) same)
              (sym counted ∙ full ∙ all) enough
          ∙ sym (assemble-arrived (λ i. 0) (cut fid))
          ∙ assemble-cut_frame (λ i. 0) (head_of fid) (video fid) (fits fid).0 (fits fid).1
    whole-IsVideo (gap fid delta) h = tt
    whole-IsVideo (frame_info info) h = tt
    whole-IsVideo (consume path id) h = tt
    whole-IsVideo (recv_len len) h = tt
    whole-IsVideo (schedule_heart_beat delay) h = tt
    whole-IsVideo (stop_path path) h = tt

    -- The frames of a sender are not empty and pass the assertion on their size. A running
    -- receiver, whose slots hold segments of theirs, gets any sequence of such segments, in any
    -- order, repeated or not at all and by whatever path, of beats of its timer, new paths and
    -- stops; a segment has fewer than 2 ^ 16 packets in its frame and an index inside the
    -- frame. Every call returns, and every frame that goes up with all of its packets has the
    -- bytes that the sender was given for it.
    pub handle_all-IsVideo :
        (es : List Event) (s : MultipathReceiver)
        → IsRunning s
        → Every (IsFilled IsPiece) s.frame_cache
        → AreAllowed handle (IsFitting IsPiece) es s
        → Ensures (λ t out. All IsVideo out) (run handle es s)
    handle_all-IsVideo es s v h fit =
        Ensures-map (λ t out. All (IsWhole IsPiece) out) _ (run handle es s)
          (handle_all-IsWhole IsPiece es s v h fit)
          (λ t out whole. All-map (IsWhole IsPiece) IsVideo out whole-IsVideo whole)
