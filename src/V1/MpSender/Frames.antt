-- ===== src/V1/MpSender/Frames.antt =====
-- A frame goes from ns3/mp-video/model/mp_sender_v1.cc to the paths.
use mp_video_simulation.Prelude.{
  append_assoc, append_nil, drop, ℕ, ◌+◌, ◌/◌, ◌≤◌, ◌<◌, ◌≡◌, ◌^◌, ◌∙◌, refl, ap, sym, subst, true,
  false, not, some, List, [], ◌∷◌, ◌++◌, length, ltb, ◌==◌, add32, u32_mod, arith, All,
}
use mp_video_simulation.Prelude.Calls.{Ensures, Ensures-map, Ensures-then, Ensures-if}
use mp_video_simulation.Prelude.OrderedMap
use mp_video_simulation.Prelude.OrderedMap.{find}
use mp_video_simulation.Prelude.OrderedMap.Bounds.{Below, insert-Below, insert_at_end}
use mp_video_simulation.Frame.{frame_split, sim_video_size, max_split_number}
use mp_video_simulation.Frame.Laws.{frame_split_total}
use mp_video_simulation.V1.Wire.{
  VideoSegment, VideoPacketWrapper, on_new_segment, video_packet_size,
}
use mp_video_simulation.V1.MpSender.State.{
  MpSender, Output, put, path_error, set_path_id, configure_fps, register_mpsender,
  register_at_schedule, unregister_at_schedule, retrans, change_rate, sum_rate, schedule_process,
}
use mp_video_simulation.V1.MpSender.Video.{
  FrameHead, cut_frame, fill_segment, enter_pending, id_len_map, packet_schedule,
  packet_schedule_all, frame_head, on_video_frame,
}
use mp_video_simulation.V1.MpSender.Cutting.{IsReady, contents, indices, counted, frame_head-IsCut}

-- The packets that a call hands to paths for the first time.
abbrev pub puts : List Output → List VideoPacketWrapper
puts [] = []
puts (put path packet_id p true ∷ out) = puts out
puts (put path packet_id p false ∷ out) = p ∷ puts out
puts (path_error pid ∷ out) = puts out
puts (set_path_id path pid ∷ out) = puts out
puts (configure_fps path fps ∷ out) = puts out
puts (register_mpsender path ∷ out) = puts out
puts (register_at_schedule pid ∷ out) = puts out
puts (unregister_at_schedule pid ∷ out) = puts out
puts (retrans packet_id pid ∷ out) = puts out
puts (change_rate bps ∷ out) = puts out
puts (sum_rate bps ∷ out) = puts out
puts (schedule_process delay ∷ out) = puts out

puts-append : (xs ys : List Output) → puts (xs ++ ys) ≡ puts xs ++ puts ys
puts-append [] ys = refl
puts-append (put path packet_id p true ∷ out) ys = puts-append out ys
puts-append (put path packet_id p false ∷ out) ys = ap (◌∷◌ p) (puts-append out ys)
puts-append (path_error pid ∷ out) ys = puts-append out ys
puts-append (set_path_id path pid ∷ out) ys = puts-append out ys
puts-append (configure_fps path fps ∷ out) ys = puts-append out ys
puts-append (register_mpsender path ∷ out) ys = puts-append out ys
puts-append (register_at_schedule pid ∷ out) ys = puts-append out ys
puts-append (unregister_at_schedule pid ∷ out) ys = puts-append out ys
puts-append (retrans packet_id pid ∷ out) ys = puts-append out ys
puts-append (change_rate bps ∷ out) ys = puts-append out ys
puts-append (sum_rate bps ∷ out) ys = puts-append out ys
puts-append (schedule_process delay ∷ out) ys = puts-append out ys

-- The packets under their ids, and their ids with the sizes of the split.
abbrev pub keyed : List VideoPacketWrapper → List (ℕ × VideoPacketWrapper)
keyed [] = []
keyed (p ∷ ps) = (p.packet_id, p) ∷ keyed ps

-- The decisions are on the packets, in order, and for usable paths.
abbrev pub Decides : List (ℕ × ℕ) → List (ℕ × ℕ) → List VideoPacketWrapper → Type 0
Decides usable [] [] = Unit
Decides usable [] (p ∷ ps) = ⊥
Decides usable (d ∷ ds) [] = ⊥
Decides usable ((packet_id, pid) ∷ ds) (p ∷ ps) =
    (packet_id ≡ p.packet_id) × ((path : ℕ) × (find pid usable ≡ some path)) × Decides usable ds ps

-- What becomes of the packets.
pub record Puts (s : MpSender) (ps : List VideoPacketWrapper) (s' : MpSender) (out : List Output)
    : Type 0 where
  pub handed : puts out ≡ ps
  pub none_waits : s'.pend_buf ≡ []
  pub same_paths : s'.usable_paths ≡ s.usable_paths

-- The first packet goes to its path.
record PutsFirst (s : MpSender) (p : VideoPacketWrapper) (rest : List (ℕ × VideoPacketWrapper))
    (s' : MpSender) (out : List Output) : Type 0 where
  same_running : s'.running ≡ s.running
  same_paths : s'.usable_paths ≡ s.usable_paths
  left : s'.pend_buf ≡ rest
  handed : puts out ≡ p ∷ []

packet_schedule-PutsFirst :
    (packet_id pid path : ℕ) (p : VideoPacketWrapper) (rest : List (ℕ × VideoPacketWrapper))
    (s : MpSender)
    → s.running ≡ true
    → s.pend_buf ≡ (packet_id, p) ∷ rest
    → find pid s.usable_paths ≡ some path
    → Ensures (PutsFirst s p rest) (packet_schedule packet_id pid s)
unfolding packet_schedule OrderedMap.erase
packet_schedule-PutsFirst packet_id pid path p rest s on waits usable =
    let hit : (packet_id == packet_id) ≡ true = ground arith in
    let found : find packet_id s.pend_buf ≡ some p = rw (waits, hit) refl in
    let erased : OrderedMap.erase packet_id s.pend_buf ≡ rest =
      rw (waits, OrderedMap.erase, hit) refl in
    let step : packet_schedule packet_id pid s
        ≡ some (
          record s { pend_buf = rest; sent_buf = OrderedMap.insert packet_id p s.sent_buf },
          put path packet_id p false ∷ [],
        ) =
      simp (packet_schedule, on, found, usable, erased) in
    rw step (record { same_running = refl; same_paths = refl; left = refl; handed = refl })

packet_schedule_all-Puts :
    (ps : List VideoPacketWrapper) (ds : List (ℕ × ℕ)) (s : MpSender)
    → s.running ≡ true
    → s.pend_buf ≡ keyed ps
    → Decides s.usable_paths ds ps
    → Ensures (Puts s ps) (packet_schedule_all ds s)
unfolding packet_schedule_all
packet_schedule_all-Puts [] [] s on e d = record {
  handed = refl;
  none_waits = e;
  same_paths = refl;
}
packet_schedule_all-Puts [] (x ∷ ds) s on e d = absurd d
packet_schedule_all-Puts (p ∷ ps) [] s on e d = absurd d
packet_schedule_all-Puts (p ∷ ps) ((packet_id, pid) ∷ ds) s on e (same, (path, usable), d) =
    let waits : s.pend_buf ≡ (packet_id, p) ∷ keyed ps = rw same e in
    Ensures-then (PutsFirst s p (keyed ps)) (Puts s (p ∷ ps)) (packet_schedule packet_id pid s)
      (packet_schedule_all ds)
      (packet_schedule-PutsFirst packet_id pid path p (keyed ps) s on waits usable)
      (λ s' out f.
        Ensures-map (Puts s' ps) _ (packet_schedule_all ds s')
          (packet_schedule_all-Puts ps ds s' (f.same_running ∙ on) f.left (rw f.same_paths d))
          (λ s'' out' g. record {
            handed = puts-append out out' ∙ rw (f.handed, g.handed) refl;
            none_waits = g.none_waits;
            same_paths = g.same_paths ∙ f.same_paths;
          }))

-- Packets whose ids rise from `packet_id` on.
abbrev Rising : (packet_id : ℕ) → List VideoPacketWrapper → Type 0
Rising packet_id [] = Unit
Rising packet_id (p ∷ ps) = (p.packet_id ≡ packet_id) × Rising (packet_id + 1) ps

cut_frame-Rising :
    (h : FrameHead) (i packet_id : ℕ) (splits frame : List ℕ) (seg : VideoSegment)
    → packet_id + length splits < u32_mod
    → Rising packet_id (cut_frame h i packet_id splits frame seg)
unfolding cut_frame on_new_segment
cut_frame-Rising h i packet_id [] frame seg l = tt
cut_frame-Rising h i packet_id (size ∷ splits) frame seg l =
    let next : add32 packet_id 1 ≡ packet_id + 1 = omega (arith, l) in
    (
      refl,
      rw next (
          cut_frame-Rising h (i + 1) (packet_id + 1) splits (drop size frame)
            (fill_segment h i size frame seg) (omega (arith, l))),
    )

enter_pending-keyed :
    (packet_id : ℕ) (ps : List VideoPacketWrapper) (m : List (ℕ × VideoPacketWrapper))
    → Rising packet_id ps
    → Below packet_id m
    → enter_pending ps m ≡ m ++ keyed ps
unfolding enter_pending
enter_pending-keyed packet_id [] m r e = sym (append_nil m)
enter_pending-keyed packet_id (p ∷ ps) m r e =
    let own : OrderedMap.insert p.packet_id p m ≡ m ++ (p.packet_id, p) ∷ [] =
      insert_at_end p.packet_id p m (subst (λ k. Below k m) (sym r.0) e) in
    let below : Below (packet_id + 1) (OrderedMap.insert p.packet_id p m) =
      subst (λ k. Below (k + 1) (OrderedMap.insert p.packet_id p m)) r.0
        (insert-Below p.packet_id p m (subst (λ k. Below k m) (sym r.0) e)) in
    enter_pending-keyed (packet_id + 1) ps (OrderedMap.insert p.packet_id p m) r.1 below
    ∙ ap (λ l. l ++ keyed ps) own
    ∙ append_assoc m ((p.packet_id, p) ∷ []) (keyed ps)

-- What a frame is on its paths.
pub record Sends (frame : List ℕ) (s' : MpSender) (out : List Output) : Type 0 where
  pub held : contents (puts out) ≡ frame
  pub placed : indices (puts out) ≡ counted 0 (length (frame_split (length frame)))
  pub ready : All (IsReady (length (frame_split (length frame)))) (puts out)
  pub none_waits : s'.pend_buf ≡ []

-- How a scheduler has to answer: for the packets that it is told of, in order, with usable paths.
module _ (incoming_packets : List (ℕ × ℕ) → ℕ → List (ℕ × ℕ)) (seg : VideoSegment) where
  abbrev pub packets_of : (ftype now : ℕ) → (frame : List ℕ) → MpSender → List VideoPacketWrapper
  packets_of ftype now frame s =
      let splits = frame_split (length frame) in
      cut_frame (frame_head ftype now (length splits) s) 0 s.packet_id splits frame seg

  -- A running sender with a scheduler, where no packet waits, gets a frame of 1 to 255000
  -- bytes; the ids of its packets and of the frame stay words; the local segment has its whole
  -- array; and the scheduler decides, in order, on a usable path for each packet. Then the call
  -- returns, each packet of the frame is put on a path, in order, with its index and the number
  -- of them all; each fits the wire format; none waits; and the packets hold together the bytes
  -- of the frame.
  pub on_video_frame-Puts :
      (ftype now : ℕ) (frame : List ℕ) (s : MpSender)
      → s.running ≡ true
      → s.schedule ≡ true
      → s.pend_buf ≡ []
      → 0 < length frame
      → length frame ≤ 255000
      → s.packet_id + 255 < u32_mod
      → s.fid < 2 ^ 32
      → seg.send_ts < 2 ^ 16
      → length seg.payload ≡ video_packet_size
      → (let ps = packets_of ftype now frame s in
          Decides s.usable_paths
            (incoming_packets (id_len_map ps (frame_split (length frame)) []) (length frame))
            ps)
      → Ensures (Sends frame) (on_video_frame incoming_packets seg ftype frame now s)
  unfolding on_video_frame
  on_video_frame-Puts ftype now frame s on sched idle pos small ids fid send_ts array decides =
      let (all_of_it, pieces, count, few) =
        frame_split_total (length frame) pos (omega (arith, small)) in
      let splits = frame_split (length frame) in
      let ps = packets_of ftype now frame s in
      let ds = incoming_packets (id_len_map ps splits []) (length frame) in
      let cut = frame_head-IsCut ftype now frame seg s pos small fid send_ts array in
      let rising =
        cut_frame-Rising (frame_head ftype now (length splits) s) 0 s.packet_id splits frame seg
          (omega (arith, ids, count, small)) in
      let waits : enter_pending ps s.pend_buf ≡ keyed ps =
        ap (enter_pending ps) idle ∙ enter_pending-keyed s.packet_id ps [] rising tt in
      let Post = Sends frame in
      Ensures-if Post (not (ltb (length frame / sim_video_size) max_split_number)) _ _
        (λ long. absurd (ground (arith, small)))
        (λ fits.
          Ensures-if Post (not (ltb (length splits) 256)) _ _
            (λ many. absurd (ground (arith, small, count)))
            (λ some_few.
              Ensures-if Post s.schedule _ _
                (λ yes.
                  Ensures-map (Puts _ ps) Post (packet_schedule_all ds _)
                    (packet_schedule_all-Puts ps ds _ on waits decides)
                    (λ s' out p. record {
                      held = ap contents p.handed ∙ cut.held;
                      placed = ap indices p.handed ∙ cut.numbered;
                      ready = rw p.handed cut.ready;
                      none_waits = p.none_waits;
                    }))
                (λ no. absurd (ground (arith, no, sched)))))
