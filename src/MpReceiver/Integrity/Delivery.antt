-- ===== src/MpReceiver/Integrity/Delivery.antt =====
-- The frames that the loop of ns3/mp-video/model/mpreceiver.cc hands up.
use mp_video_simulation.Prelude.{
  ℕ, refl, sym, sub32, Option, none, some, List, [], ◌∷◌, if◌then◌else◌, ◌&&◌, Bool-cases,
  Option-cases, inl, inr, if-cases, All, All-append,
}
use mp_video_simulation.Prelude.OrderedMap.{Every}
use mp_video_simulation.Protocol.{Segment}
use mp_video_simulation.MpReceiver.State.{
  VideoPacket, VideoFrame, Env, MultipathReceiver, Output, gap, get_path_info,
}
use mp_video_simulation.MpReceiver.Delivery.{
  trace_frame, deliver_frame, packet_consumed, is_due, take_frame, drain, some_due,
  check_deliver_frame,
}
use mp_video_simulation.MpReceiver.Cache.{process, heart_beat}
use mp_video_simulation.MpReceiver.Slots.{IsFrame}
use mp_video_simulation.MpReceiver.Integrity.{Slots, Announced, IsFilled, IsWhole}

module _ (Good : Segment → Type 0) where
  consumed-IsWhole :
      (env : Env) (paths : List ℕ) (slots : List (Option VideoPacket))
      → All (IsWhole Good) (packet_consumed env paths slots)
  unfolding packet_consumed
  consumed-IsWhole env paths [] = tt
  consumed-IsWhole env paths (none ∷ slots) = consumed-IsWhole env paths slots
  consumed-IsWhole env paths (some p ∷ slots) =
      elim (Option-cases (get_path_info env p.pid paths)) [
        | inl e ↦ rw e (consumed-IsWhole env paths slots)
        | inr (path, e) ↦ rw e (tt, consumed-IsWhole env paths slots)
      ]

  traced-IsWhole :
      (env : Env) (f : VideoFrame) (s : MultipathReceiver)
      → All (IsWhole Good) (trace_frame env f s)
  unfolding trace_frame
  traced-IsWhole env f s =
      if-cases {A = List Output} (All (IsWhole Good)) s.frame_info_cb _ [] (λ on. (tt, tt))
        (λ off. tt)

  deliver_frame-IsWhole :
      (env : Env) (fid : ℕ) (f : VideoFrame) (s : MultipathReceiver)
      → IsFrame fid f
      → IsFilled Good fid f
      → All (IsWhole Good) (deliver_frame env f s).1
  unfolding deliver_frame
  deliver_frame-IsWhole env fid f s v h =
      let gaps = if s.gap_cb then gap f.fid (sub32 f.ts f.first_ts) ∷ [] else [] in
      let all_gaps : All (IsWhole Good) gaps =
        if-cases {A = List Output} (All (IsWhole Good)) s.gap_cb _ [] (λ on. (tt, tt))
          (λ off. tt) in
      let filled : Slots Good f.fid 0 f.packets = rw v.keyed h.0 in
      let told : Announced Good f.fid f.total = rw v.keyed h.1 in
      if-cases {A = MultipathReceiver × List Output} (λ r. All (IsWhole Good) r.1) s.deliver _
        (s, gaps)
        (λ on. All-append (IsWhole Good) gaps _ all_gaps (
          All-append (IsWhole Good) (trace_frame env f s) _ (traced-IsWhole env f s)
            ((f.packets, filled, refl, v.counted, sym v.slots, told), tt)))
        (λ off. all_gaps)

  -- A call that leaves good slots and hands up nothing else.
  abbrev pub IsSound : MultipathReceiver × List Output → Type 0
  IsSound r = Every (IsFilled Good) r.0.frame_cache × All (IsWhole Good) r.1

  abbrev IsStored : ℕ → VideoFrame → Type 0
  IsStored fid f = IsFrame fid f × IsFilled Good fid f

  stored :
      (cache : List (ℕ × VideoFrame))
      → Every IsFrame cache
      → Every (IsFilled Good) cache
      → Every IsStored cache
  stored [] v h = tt
  stored ((fid, f) ∷ cache) v h = ((v.0, h.0), stored cache v.1 h.1)

  stored-IsFilled :
      (cache : List (ℕ × VideoFrame)) → Every IsStored cache → Every (IsFilled Good) cache
  stored-IsFilled [] h = tt
  stored-IsFilled ((fid, f) ∷ cache) h = (h.0.1, stored-IsFilled cache h.1)

  drain-IsSound :
      (env : Env) (cache : List (ℕ × VideoFrame)) (s : MultipathReceiver)
      → Every IsStored cache
      → IsSound (drain env cache s)
  unfolding drain take_frame
  drain-IsSound env [] s h = (tt, tt)
  drain-IsSound env ((fid, f) ∷ cache) s h = elim (Bool-cases (is_due env f)) [
    | inl due ↦
        let taken = take_frame env f s in
        let rest = drain-IsSound env cache taken.0 h.1 in
        rw due (
          rest.0,
          All-append (IsWhole Good) taken.1 (drain env cache taken.0).1
              (All-append (IsWhole Good) (deliver_frame env f s).1
                (packet_consumed env s.paths f.packets)
                (deliver_frame-IsWhole env fid f s h.0.0 h.0.1)
                (consumed-IsWhole env s.paths f.packets))
              rest.1,
        )
    | inr early ↦ rw early (stored-IsFilled ((fid, f) ∷ cache) h, tt)
  ]

  pub check_deliver_frame-IsSound :
      (env : Env) (s : MultipathReceiver)
      → Every IsFrame s.frame_cache
      → Every (IsFilled Good) s.frame_cache
      → IsSound (check_deliver_frame env s)
  unfolding check_deliver_frame
  check_deliver_frame-IsSound env s v h =
      let drained = drain-IsSound env s.frame_cache s (stored s.frame_cache v h) in
      let due = some_due env s.frame_cache && (drain env s.frame_cache s).0.recv_len_cb in
      (
        drained.0,
        All-append (IsWhole Good) (drain env s.frame_cache s).1 _ drained.1
            (if-cases {A = List Output} (All (IsWhole Good)) due _ [] (λ on. (tt, tt)) (λ off. tt)),
      )

  process-IsSound :
      (env : Env) (s : MultipathReceiver)
      → Every IsFrame s.frame_cache
      → Every (IsFilled Good) s.frame_cache
      → IsSound (process env s)
  unfolding process
  process-IsSound env s v h =
      if-cases {A = MultipathReceiver × List Output} IsSound s.stop (s, [])
        (check_deliver_frame env s) (λ stopped. (h, tt))
        (λ runs. check_deliver_frame-IsSound env s v h)

  pub heart_beat-IsSound :
      (env : Env) (s : MultipathReceiver)
      → Every IsFrame s.frame_cache
      → Every (IsFilled Good) s.frame_cache
      → IsSound (heart_beat env s)
  unfolding heart_beat
  heart_beat-IsSound env s v h =
      let p = process-IsSound env s v h in
      if-cases {A = MultipathReceiver × List Output} IsSound s.hb_timer (s, []) _
        (λ pending. (h, tt))
        (λ free. (p.0, All-append (IsWhole Good) (process env s).1 _ p.1 (tt, tt)))
