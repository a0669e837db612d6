-- ===== src/MpReceiver/Integrity.antt =====
-- What the bytes of a frame come from that ns3/mp-video/model/mpreceiver.cc hands up.
pub mod Delivery
pub mod Runs
use mp_video_simulation.Prelude.{
  ℕ, zero, suc, ◌+◌, ◌≡◌, ◌∙◌, refl, sym, sub32, Bool, true, false, Option, none, some, List, [],
  ◌∷◌, ◌++◌, if◌then◌else◌, leb, ◌&&◌, arith, Bool-cases, Option-cases, inl, inr, if-cases, All,
  All-append, map, set, replicate, length, get_elem?,
}
use mp_video_simulation.Prelude.OrderedMap
use mp_video_simulation.Prelude.OrderedMap.{find, Every, Every-insert, Every-update, Every-find}
use mp_video_simulation.Protocol.{Segment}
use mp_video_simulation.MpReceiver.State.{
  VideoPacket, VideoFrame, Env, MultipathReceiver, Output, gap, frame_info, forward_up, consume,
  recv_len, schedule_heart_beat, stop_path, get_path_info,
}
use mp_video_simulation.MpReceiver.Delivery.{
  assemble, count_packets, trace_frame, deliver_frame, packet_consumed, is_due, take_frame, drain,
  some_due, check_deliver_frame,
}
use mp_video_simulation.MpReceiver.Cache.{
  process, heart_beat, new_frame, find_frame, fill_slot, put_frame, store_packet, cache_segment,
  start_heart, check_late_frame, deliver_to_cache,
}
use mp_video_simulation.MpReceiver.Slots.{IsFrame}
use mp_video_simulation.MpReceiver.Reassembly.{fill_slot-rest}

-- A property of the segments that come in.
module _ (Good : Segment → Type 0) where
  -- The slots from the `i`th on hold good segments of the frame, each its own.
  abbrev pub Slots : (fid i : ℕ) → List (Option VideoPacket) → Type 0
  Slots fid i [] = Unit
  Slots fid i (none ∷ slots) = Slots fid (suc i) slots
  Slots fid i (some p ∷ slots) =
      (Good p.seg × (p.seg.fid ≡ fid) × (p.seg.index ≡ i)) × Slots fid (suc i) slots

  -- A good segment of the frame has said how many packets it has.
  abbrev pub Announced : (fid total : ℕ) → Type 0
  Announced fid total = (d : Segment) × Good d × (d.fid ≡ fid) × (d.total ≡ total)

  abbrev pub IsFilled : ℕ → VideoFrame → Type 0
  IsFilled fid f = Slots fid 0 f.packets × Announced fid f.total

  -- A frame that goes up is put together from such slots, one for each of its packets, of which so
  -- many are filled as it says, and a good segment has said how many packets there are.
  abbrev pub IsWhole : Output → Type 0
  IsWhole (forward_up fid buf len recv total) =
      (slots : List (Option VideoPacket)) × Slots fid 0 slots
      × (buf ≡ assemble slots)
      × (recv ≡ count_packets slots)
      × (total ≡ length slots)
      × Announced fid total
  IsWhole (gap fid delta) = Unit
  IsWhole (frame_info info) = Unit
  IsWhole (consume path id) = Unit
  IsWhole (recv_len len) = Unit
  IsWhole (schedule_heart_beat delay) = Unit
  IsWhole (stop_path path) = Unit

  empty-Slots : (fid i n : ℕ) → Slots fid i (replicate n none)
  empty-Slots fid i zero = tt
  empty-Slots fid i (suc n) = empty-Slots fid (suc i) n

  set-Slots :
      (fid i j : ℕ) (slots : List (Option VideoPacket)) (p : VideoPacket)
      → Slots fid i slots
      → Good p.seg
      → p.seg.fid ≡ fid
      → p.seg.index ≡ i + j
      → Slots fid i (set slots j (some p))
  set-Slots fid i j [] p h g k n = tt
  set-Slots fid i zero (none ∷ slots) p h g k n = ((g, k, omega (arith, n)), h)
  set-Slots fid i zero (some q ∷ slots) p h g k n = ((g, k, omega (arith, n)), h.1)
  set-Slots fid i (suc j) (none ∷ slots) p h g k n =
      set-Slots fid (suc i) j slots p h g k (omega (arith, n))
  set-Slots fid i (suc j) (some q ∷ slots) p h g k n =
      (h.0, set-Slots fid (suc i) j slots p h.1 g k (omega (arith, n)))

  find_frame-IsFilled :
      (d : Segment) (s : MultipathReceiver)
      → Good d
      → Every IsFilled s.frame_cache
      → IsFilled d.fid (find_frame d s)
  unfolding find_frame new_frame
  find_frame-IsFilled d s g v = elim (Option-cases (find d.fid s.frame_cache)) [
    | inl e ↦ rw (e, find_frame) (empty-Slots d.fid 0 d.total, (d, g, refl, refl))
    | inr (f, e) ↦ rw (e, find_frame) (Every-find IsFilled d.fid f s.frame_cache e v)
  ]

  put_frame-Every :
      (P : ℕ → VideoFrame → Type 0) (fid : ℕ) (f : VideoFrame) (cache : List (ℕ × VideoFrame))
      → P fid f
      → Every P cache
      → Every P (put_frame fid f cache)
  unfolding put_frame
  put_frame-Every P fid f cache p v = elim (Option-cases (find fid cache)) [
    | inl e ↦ rw (e, put_frame) (Every-insert P fid f cache p v)
    | inr (old, e) ↦ rw (e, put_frame) (Every-update P fid f cache p v)
  ]

  pub store_packet-IsFilled :
      (env : Env) (pid : ℕ) (d : Segment) (s : MultipathReceiver)
      → Good d
      → Every IsFilled s.frame_cache
      → Every IsFilled (store_packet env pid d (find_frame d s) s).frame_cache
  unfolding store_packet
  store_packet-IsFilled env pid d s g v =
      let f = find_frame d s in
      let found = find_frame-IsFilled d s g v in
      let (fid, total, recv, packets) = fill_slot-rest env pid d s f in
      let filled : IsFilled d.fid (fill_slot env pid d s f) =
        rw (packets, total)
          (
            set-Slots d.fid 0 d.index f.packets (record { pid = pid; seg = d }) found.0 g refl
                (omega arith),
            found.1,
          ) in
      put_frame-Every IsFilled d.fid (fill_slot env pid d s f) s.frame_cache filled v
