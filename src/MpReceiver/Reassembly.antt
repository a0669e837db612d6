-- ===== src/MpReceiver/Reassembly.antt =====
-- A segment that enters the frame cache of ns3/mp-video/model/mpreceiver.cc.
use mp_video_simulation.Prelude.{
  ℕ, ◌+◌, ◌^◌, ◌<◌, ◌≡◌, ◌∙◌, refl, sym, inl, inr, none, some, arith, Option-cases, get_elem?, set,
  length-set, length-replicate, add32,
}
use mp_video_simulation.Prelude.OrderedMap.{
  Above, Every, sum_values, find, sum_values-insert, sum_values-update, Every-insert, Every-update,
  Every-find, insert-Above, update-Above,
}
use mp_video_simulation.Protocol.{Segment, wire_size}
use mp_video_simulation.MpReceiver.State.{VideoFrame, Env, MultipathReceiver}
use mp_video_simulation.MpReceiver.Delivery.{count_packets}
use mp_video_simulation.MpReceiver.Cache.{new_frame, find_frame, fill_slot, put_frame, store_packet}
use mp_video_simulation.MpReceiver.Slots.{
  used, IsFrame, count_packets-set, count_packets-lt, used-set, empty_slots,
}
use mp_video_simulation.MpReceiver.Order.{IsConsistent}

new_frame-IsFrame : (d : Segment) → d.total < 2 ^ 16 → IsFrame d.fid (new_frame d)
unfolding new_frame
new_frame-IsFrame d small = record {
  keyed = refl;
  slots = length-replicate d.total none;
  counted = sym ((empty_slots d.total).0);
  small = small;
}

pub find_frame-IsFrame :
    (d : Segment) (s : MultipathReceiver)
    → IsConsistent s
    → d.total < 2 ^ 16
    → IsFrame d.fid (find_frame d s)
unfolding find_frame
find_frame-IsFrame d s v small = elim (Option-cases (find d.fid s.frame_cache)) [
  | inl e ↦ rw (e, find_frame) (new_frame-IsFrame d small)
  | inr (f, e) ↦ rw (e, find_frame) (Every-find IsFrame d.fid f s.frame_cache e v.frames)
]

module _ (env : Env) (pid : ℕ) (d : Segment) (s : MultipathReceiver) (f : VideoFrame) where
  pub fill_slot-rest :
      let g = fill_slot env pid d s f in
      (g.fid ≡ f.fid)
      × (g.total ≡ f.total)
      × (g.recv ≡ add32 f.recv 1)
      × (g.packets ≡ set f.packets d.index (some (record { pid = pid; seg = d })))
  unfolding fill_slot
  fill_slot-rest = ground arith

  fill_slot-IsFrame :
      (key : ℕ)
      → IsFrame key f
      → get_elem? f.packets d.index ≡ some none
      → IsFrame key (fill_slot env pid d s f)
  fill_slot-IsFrame key v free =
      let (a, b, c, e) = fill_slot-rest in
      record {
        keyed = a ∙ v.keyed;
        slots = rw (e, b) (length-set f.packets d.index _ ∙ v.slots);
        counted =
            rw (e, c, count_packets-set f.packets d.index (record { pid = pid; seg = d }) free)
              (omega (arith, v.counted, count_packets-lt f.packets d.index free, v.slots, v.small));
        small = rw b v.small;
      }

-- Putting the frame adds what it has gained, in any count of its slots.
put_frame-sum :
    (g : VideoFrame → ℕ) (gain : ℕ) (d : Segment) (s : MultipathReceiver) (f' : VideoFrame)
    → g (new_frame d) ≡ 0
    → g f' ≡ gain + g (find_frame d s)
    → sum_values g (put_frame d.fid f' s.frame_cache) ≡ gain + sum_values g s.frame_cache
unfolding put_frame find_frame
put_frame-sum g gain d s f' z h = elim (Option-cases (find d.fid s.frame_cache)) [
  | inl e ↦
      rw (e, put_frame)
        (omega (arith, sum_values-insert g d.fid f' s.frame_cache e, z, (rw (e, find_frame) at h)))
  | inr (old, e) ↦
      rw (e, put_frame)
        (omega (arith, sum_values-update g d.fid f' old s.frame_cache e, (rw (e, find_frame) at h)))
]

module _ (env : Env) (pid : ℕ) (d : Segment) (s : MultipathReceiver) (v : IsConsistent s) where
  -- The slot is free, and the frame is not late.
  module _ (small : d.total < 2 ^ 16) (fresh : s.min_fid < d.fid)
      (free : get_elem? (find_frame d s).packets d.index ≡ some none) where
    filled : VideoFrame
    filled = fill_slot env pid d s (find_frame d s)

    filled-packets :
        filled.packets ≡ set (find_frame d s).packets d.index (some (record { pid = pid; seg = d }))
    unfolding filled
    filled-packets = (fill_slot-rest env pid d s (find_frame d s)).3

    filled-IsFrame : IsFrame d.fid filled
    unfolding filled
    filled-IsFrame =
        fill_slot-IsFrame env pid d s (find_frame d s) d.fid (find_frame-IsFrame d s v small) free

    put_frame-Every : Every IsFrame (put_frame d.fid filled s.frame_cache)
    unfolding put_frame
    put_frame-Every = elim (Option-cases (find d.fid s.frame_cache)) [
      | inl e ↦
          rw (e, put_frame)
            (Every-insert IsFrame d.fid filled s.frame_cache filled-IsFrame v.frames)
      | inr (old, e) ↦
          rw (e, put_frame)
            (Every-update IsFrame d.fid filled s.frame_cache filled-IsFrame v.frames)
    ]

    put_frame-Above : Above s.min_fid (put_frame d.fid filled s.frame_cache)
    unfolding put_frame
    put_frame-Above = elim (Option-cases (find d.fid s.frame_cache)) [
      | inl e ↦
          rw (e, put_frame) (insert-Above s.min_fid d.fid filled s.frame_cache fresh v.ordered)
      | inr (old, e) ↦
          rw (e, put_frame) (update-Above s.min_fid d.fid filled s.frame_cache v.ordered)
    ]

    pub store_packet-IsConsistent : IsConsistent (store_packet env pid d (find_frame d s) s)
    unfolding store_packet new_frame filled
    store_packet-IsConsistent =
        let (no_count, no_bytes) = empty_slots d.total in
        let bytes =
          put_frame-sum (λ f. used f.packets) (wire_size d) d s filled no_bytes
            (rw filled-packets (used-set _ d.index (record { pid = pid; seg = d }) free)) in
        let count =
          put_frame-sum (λ f. count_packets f.packets) 1 d s filled no_count
            (rw filled-packets
              (count_packets-set _ d.index (record { pid = pid; seg = d }) free ∙ omega arith)) in
        record {
          sink = v.sink;
          ordered = put_frame-Above;
          frames = put_frame-Every;
          buffered = rw bytes (omega (arith, v.buffered));
          pooled = rw count (ground (arith, v.pooled));
        }
