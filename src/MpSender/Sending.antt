-- ===== src/MpSender/Sending.antt =====
-- A frame of ns3/mp-video/model/mpsender.cc on its way to the paths.
use mp_video_simulation.Prelude.{
  ℕ, zero, suc, ◌+◌, ◌-◌, ◌/◌, ◌<◌, ◌≡◌, ◌∙◌, refl, sym, ap, Option, some, List, [], ◌∷◌, ◌++◌,
  length, take, drop, sum, arith,
}
use mp_video_simulation.Prelude.OrderedMap
use mp_video_simulation.Prelude.OrderedMap.{find}
use mp_video_simulation.Frame.{frame_split, sim_video_size, max_split_number}
use mp_video_simulation.Frame.Laws.{frame_split_total}
use mp_video_simulation.Protocol.{Segment}
use mp_video_simulation.MpReceiver.State.{VideoPacket}
use mp_video_simulation.MpReceiver.Delivery.{assemble}
use mp_video_simulation.PathSender.Queue.{segments}
use mp_video_simulation.MpSender.State.{Output, put}
use mp_video_simulation.MpSender.Video.{FrameHead, cut_frame, dispatch, dispatch_all}

-- The slots of a frame that is whole: each segment came by some path.
abbrev pub arrived : (ℕ → ℕ) → List Segment → List (Option VideoPacket)
arrived pid_of [] = []
arrived pid_of (seg ∷ segs) =
    some (record { pid = pid_of seg.index; seg = seg }) ∷ arrived pid_of segs

take-drop : (n : ℕ) (xs : List ℕ) → take n xs ++ drop n xs ≡ xs
take-drop zero xs = refl
take-drop (suc n) [] = refl
take-drop (suc n) (x ∷ xs) = ap (◌∷◌ x) (take-drop n xs)

length-drop : (n : ℕ) (xs : List ℕ) → length (drop n xs) ≡ length xs - n
length-drop zero xs = omega arith
length-drop (suc n) [] = omega arith
length-drop (suc n) (x ∷ xs) = omega (arith, length-drop n xs)

assemble-cut_frame_from :
    (pid_of : ℕ → ℕ) (h : FrameHead) (i : ℕ) (splits frame : List ℕ)
    → length frame ≡ sum splits
    → assemble (arrived pid_of (cut_frame h i splits frame)) ≡ frame
unfolding assemble cut_frame
assemble-cut_frame_from pid_of h i [] [] e = refl
assemble-cut_frame_from pid_of h i [] (x ∷ frame) e = absurd (omega (arith, e))
assemble-cut_frame_from pid_of h i (size ∷ splits) frame e =
    ap (◌++◌ (take size frame)) (
      assemble-cut_frame_from pid_of h (i + 1) splits (drop size frame)
        (omega (arith, e, length-drop size frame)))
    ∙ take-drop size frame

-- The bytes that the receiver puts together from the slots of a whole frame are those that the
-- sender cut: for any frame that is not empty and passes the assertion on its size, whichever
-- path brought each segment.
pub assemble-cut_frame :
    (pid_of : ℕ → ℕ) (h : FrameHead) (frame : List ℕ)
    → 0 < length frame
    → length frame / sim_video_size < max_split_number
    → assemble (arrived pid_of (cut_frame h 0 (frame_split (length frame)) frame)) ≡ frame
assemble-cut_frame pid_of h frame pos fits =
    assemble-cut_frame_from pid_of h 0 (frame_split (length frame)) frame
      (sym (frame_split_total (length frame) pos fits).0)

-- The decisions of a scheduler name each waiting id once, in order, each with a usable path.
abbrev pub Decides : List (ℕ × ℕ) → List (ℕ × Segment) → List (ℕ × ℕ) → Type 0
Decides usable [] [] = Unit
Decides usable [] (d ∷ decisions) = ⊥
Decides usable (p ∷ pending) [] = ⊥
Decides usable ((id, seg) ∷ pending) ((id', pid) ∷ decisions) =
    (id' ≡ id) × ((path : ℕ) × (find pid usable ≡ some path)) × Decides usable pending decisions

-- The segments that calls put on a path.
abbrev pub put_segments : List Output → List Segment
put_segments [] = []
put_segments (put path seg ∷ out) = seg ∷ put_segments out
put_segments (_ ∷ out) = put_segments out

dispatch_first :
    (id pid path : ℕ) (usable : List (ℕ × ℕ)) (seg : Segment) (pending : List (ℕ × Segment))
    → find pid usable ≡ some path
    → dispatch id pid usable ((id, seg) ∷ pending) ≡ (pending, put path seg ∷ [])
unfolding dispatch OrderedMap.erase
dispatch_first id pid path usable seg pending h = ground (arith, h)

-- When a scheduler decides on every waiting segment with usable paths, each of them is put on
-- one path, in order, and none waits any more.
pub dispatch_all_lem :
    (usable : List (ℕ × ℕ)) (pending : List (ℕ × Segment)) (decisions : List (ℕ × ℕ))
    → Decides usable pending decisions
    → let (rest, out) = dispatch_all decisions usable pending in
      (rest ≡ []) × (put_segments out ≡ segments pending)
unfolding dispatch_all
dispatch_all_lem usable [] [] d = (refl, refl)
dispatch_all_lem usable [] (x ∷ decisions) d = absurd d
dispatch_all_lem usable (p ∷ pending) [] d = absurd d
dispatch_all_lem usable ((id, seg) ∷ pending) ((id', pid) ∷ decisions)
      (same, (path, known), later) =
    let (rest, all) = dispatch_all_lem usable pending decisions later in
    rw (same, dispatch_first id pid path usable seg pending known) (rest, ap (◌∷◌ seg) all)
