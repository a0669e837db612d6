-- ===== src/MpSender/Frames.antt =====
-- `SendVideo` of ns3/mp-video/model/mpsender.cc under a scheduler that decides on every segment.
use mp_video_simulation.Prelude.{
  ℕ, suc, ◌+◌, ◌/◌, ◌<◌, ◌≡◌, ◌∙◌, refl, sym, ap, true, false, not, Option, none, some, List, [],
  ◌∷◌, ◌++◌, ltb, length, add32, u32_mod, arith, Returns, if-cases,
}
use mp_video_simulation.Prelude.OrderedMap
use mp_video_simulation.Frame.{frame_split, sim_video_size, max_split_number}
use mp_video_simulation.Frame.Laws.{frame_split_total}
use mp_video_simulation.Protocol.{Segment}
use mp_video_simulation.PathSender.Queue.{
  segments, Below, insert-last, segments-append, Below-append, append_assoc, append-[],
}
use mp_video_simulation.MpSender.State.{MultipathSender, Output}
use mp_video_simulation.MpSender.Video.{
  FrameHead, cut_frame, frame_head, enter_pending, pending_info, schedule_pending_buf,
  decisions_for, send_video,
}
use mp_video_simulation.MpSender.Sending.{Decides, put_segments, dispatch_all_lem}

length-cut_frame :
    (h : FrameHead) (i : ℕ) (splits frame : List ℕ)
    → length (cut_frame h i splits frame) ≡ length splits
unfolding cut_frame
length-cut_frame h i [] frame = refl
length-cut_frame h i (size ∷ splits) frame = ap suc (length-cut_frame h (i + 1) splits _)

-- New segments wait behind the others.
segments-enter_pending :
    (segs : List Segment) (seed : ℕ) (pending : List (ℕ × Segment))
    → Below seed pending
    → seed + length segs < u32_mod
    → segments (enter_pending segs seed pending).1 ≡ segments pending ++ segs
unfolding enter_pending
segments-enter_pending [] seed pending b h = sym (append-[] (segments pending))
segments-enter_pending (seg ∷ segs) seed pending b h =
    let next : add32 seed 1 ≡ seed + 1 = omega (arith, h) in
    let later =
      segments-enter_pending segs (seed + 1) (pending ++ (seed, seg) ∷ [])
        (Below-append seed (seed + 1) seg pending b (omega arith)) (omega (arith, h)) in
    let entered =
      ap (λ n. enter_pending segs n (OrderedMap.insert seed seg pending)) next
      ∙ ap (enter_pending segs (seed + 1)) (insert-last seed seg pending b) in
    ap (λ r. segments r.1) entered
    ∙ later
    ∙ ap (λ l. l ++ segs) (segments-append pending ((seed, seg) ∷ []))
    ∙ append_assoc (segments pending) seg segs

module _ (incoming_packets : List (ℕ × ℕ) → ℕ → List (ℕ × ℕ)) (s : MultipathSender)
    (decides : (pending : List (ℕ × Segment)) (size : ℕ)
      → Decides s.usable_path pending (incoming_packets (pending_info pending) size)) where
  decisions_for-Decides :
      (pending : List (ℕ × Segment))
      → Decides s.usable_path pending (decisions_for incoming_packets pending)
  unfolding decisions_for
  decisions_for-Decides [] = tt
  decisions_for-Decides (p ∷ pending) = decides (p ∷ pending) _

  schedule_pending_buf_lem :
      (t : MultipathSender)
      → t.usable_path ≡ s.usable_path
      → t.scheduler ≡ true
      → let (t', out) = schedule_pending_buf incoming_packets t in
        (t'.pending_buf ≡ []) × (put_segments out ≡ segments t.pending_buf)
  unfolding schedule_pending_buf
  schedule_pending_buf_lem t u on =
      if-cases {A = MultipathSender × List Output}
        (λ r. (r.0.pending_buf ≡ []) × (put_segments r.1 ≡ segments t.pending_buf))
        (not t.scheduler) (t, []) _ (λ off. absurd (cc (off, on)))
        (λ _.
          dispatch_all_lem t.usable_path t.pending_buf
            (decisions_for incoming_packets t.pending_buf)
            (rw u (decisions_for-Decides t.pending_buf)))

  -- A frame for a running sender whose scheduler decides on every waiting segment with usable
  -- paths: the call returns, every segment that waited and then every segment of the frame is
  -- put on one path, in order, and none waits any more. The frame is not empty and passes the
  -- assertion on its size, and the schedule ids are above those that wait and do not wrap.
  pub send_video-puts :
      (payload_type ftype : ℕ) (frame : List ℕ) (now : ℕ)
      → s.stop ≡ false
      → s.scheduler ≡ true
      → Below s.schedule_seed s.pending_buf
      → s.schedule_seed + max_split_number < u32_mod
      → 0 < length frame
      → length frame / sim_video_size < max_split_number
      → Returns
          (λ (s', out).
            (s'.pending_buf ≡ [])
            × (put_segments out
                ≡ segments s.pending_buf
                  ++ cut_frame
                      (frame_head payload_type ftype frame now s)
                      0
                      (frame_split (length frame))
                      frame))
          (send_video incoming_packets payload_type ftype frame now s)
  unfolding send_video
  send_video-puts payload_type ftype frame now run on below room pos fits =
      let Sent : Option (MultipathSender × List Output) → Type 0 = Returns (λ (s', out).
        (s'.pending_buf ≡ [])
        × (put_segments out
            ≡ segments s.pending_buf
              ++ cut_frame (frame_head payload_type ftype frame now s) 0
                  (frame_split (length frame)) frame)) in
      let splits = frame_split (length frame) in
      let segs = cut_frame (frame_head payload_type ftype frame now s) 0 splits frame in
      let count = length-cut_frame (frame_head payload_type ftype frame now s) 0 splits frame in
      let few = (frame_split_total (length frame) pos fits).3 in
      if-cases Sent s.stop (some (s, [])) _ (λ stopped. absurd (cc (stopped, run)))
        (λ _.
          if-cases Sent (not (ltb (length frame / sim_video_size) max_split_number)) none _
            (λ long. absurd (ground (arith, long, fits)))
            (λ _.
              let (rest, all) = schedule_pending_buf_lem _ refl on in
              (
                rest,
                all
                    ∙ segments-enter_pending segs s.schedule_seed s.pending_buf below
                        (omega (arith, room, count, few)),
              )))
