-- ===== src/MpReceiver/Order.antt =====
-- Frames go up in the order of their ids, each at most once, and the accounts of the receiver
-- follow the packets that it holds (ns3/mp-video/model/mpreceiver.cc).
use mp_video_simulation.Prelude.{
  ℕ, ◌+◌, ◌%◌, ◌<◌, ◌≡◌, ◌∙◌, refl, ap, inl, inr, true, Option, none, some, List, [], ◌∷◌, ◌++◌,
  u32_mod, ltb, if◌then◌else◌, arith, Bool-cases,
}
use mp_video_simulation.Prelude.OrderedMap.{Above, Every, sum_values}
use mp_video_simulation.MpReceiver.State.{
  VideoPacket, VideoFrame, Env, MultipathReceiver, Output, gap, frame_info, forward_up, consume,
  recv_len, schedule_heart_beat, stop_path,
}
use mp_video_simulation.MpReceiver.Delivery.{
  deliver_frame, packet_consumed, is_due, take_frame, drain, check_deliver_frame, count_packets,
  release_buf,
}
use mp_video_simulation.MpReceiver.Slots.{used, IsFrame, release_buf_lem}

-- The ids of the frames that a call hands to the sink.
abbrev pub forwarded : List Output → List ℕ
forwarded [] = []
forwarded (forward_up fid buf len recv total ∷ out) = fid ∷ forwarded out
forwarded (gap fid delta ∷ out) = forwarded out
forwarded (frame_info info ∷ out) = forwarded out
forwarded (consume path id ∷ out) = forwarded out
forwarded (recv_len len ∷ out) = forwarded out
forwarded (schedule_heart_beat delay ∷ out) = forwarded out
forwarded (stop_path path ∷ out) = forwarded out

pub forwarded-append : (xs ys : List Output) → forwarded (xs ++ ys) ≡ forwarded xs ++ forwarded ys
forwarded-append [] ys = refl
forwarded-append (forward_up fid buf len recv total ∷ out) ys =
    ap (◌∷◌ fid) (forwarded-append out ys)
forwarded-append (gap fid delta ∷ out) ys = forwarded-append out ys
forwarded-append (frame_info info ∷ out) ys = forwarded-append out ys
forwarded-append (consume path id ∷ out) ys = forwarded-append out ys
forwarded-append (recv_len len ∷ out) ys = forwarded-append out ys
forwarded-append (schedule_heart_beat delay ∷ out) ys = forwarded-append out ys
forwarded-append (stop_path path ∷ out) ys = forwarded-append out ys

-- The ids rise strictly from above `a`, and the last is `b`; without ids `b` is `a`.
abbrev pub Rises : ℕ → List ℕ → ℕ → Type 0
Rises a [] b = a ≡ b
Rises a (x ∷ xs) b = (a < x) × Rises x xs b

pub Rises-append : (a b c : ℕ) (xs ys : List ℕ) → Rises a xs b → Rises b ys c → Rises a (xs ++ ys) c
Rises-append a b c [] ys r q = rw r q
Rises-append a b c (x ∷ xs) ys r q = (r.0, Rises-append x b c xs ys r.1 q)

Rises-next : (a a' x b : ℕ) (xs : List ℕ) → a < x → a' ≡ x → Rises a' xs b → Rises a (x ∷ xs) b
Rises-next a a' x b xs h e r = (h, rw (← e) r)

-- A cache that belongs to the receiver: frames are whole records above the last id that went up,
-- and the two counters are exact.
pub record IsCached (s : MultipathReceiver) (cache : List (ℕ × VideoFrame)) : Type 0 where
  pub sink : s.deliver ≡ true
  pub ordered : Above s.min_fid cache
  pub frames : Every IsFrame cache
  pub buffered : s.recv_buf_len ≡ sum_values (λ f. used f.packets) cache % u32_mod
  pub pooled : s.seg_c ≡ (s.free_segs + sum_values (λ f. count_packets f.packets) cache) % u32_mod

packet_consumed-forwarded :
    (env : Env) (paths : List ℕ) (slots : List (Option VideoPacket))
    → forwarded (packet_consumed env paths slots) ≡ []
unfolding packet_consumed
packet_consumed-forwarded env paths [] = refl
packet_consumed-forwarded env paths (none ∷ slots) = packet_consumed-forwarded env paths slots
packet_consumed-forwarded env paths (some p ∷ slots) =
    ground (arith, packet_consumed-forwarded env paths slots)

deliver_frame-forwarded :
    (env : Env) (f : VideoFrame) (s : MultipathReceiver)
    → s.deliver ≡ true
    → forwarded (deliver_frame env f s).1 ≡ f.fid ∷ []
unfolding deliver_frame
deliver_frame-forwarded env f s h = ground arith

deliver_frame-state :
    (env : Env) (f : VideoFrame) (s : MultipathReceiver)
    → s.deliver ≡ true
    → (deliver_frame env f s).0 ≡ record s {
      recv_buf_len = release_buf f.packets s.recv_buf_len;
      min_fid = if ltb s.min_fid f.fid then f.fid else s.min_fid;
    }
unfolding deliver_frame
deliver_frame-state env f s h = simp h

-- A due frame goes up once.
take_frame-forwarded :
    (env : Env) (f : VideoFrame) (s : MultipathReceiver)
    → s.deliver ≡ true
    → forwarded (take_frame env f s).1 ≡ f.fid ∷ []
unfolding take_frame
take_frame-forwarded env f s h = rw (
  forwarded-append (deliver_frame env f s).1 (packet_consumed env s.paths f.packets),
  packet_consumed-forwarded env s.paths f.packets,
  deliver_frame-forwarded env f s h,
)

take_frame-IsCached :
    (env : Env) (fid : ℕ) (f : VideoFrame) (cache : List (ℕ × VideoFrame)) (s : MultipathReceiver)
    → IsCached s ((fid, f) ∷ cache)
    → IsCached (take_frame env f s).0 cache × ((take_frame env f s).0.min_fid ≡ fid)
unfolding take_frame
take_frame-IsCached env fid f cache s v =
    let up : (if ltb s.min_fid f.fid then f.fid else s.min_fid) ≡ fid =
      ground (arith, v.ordered.0, v.frames.0.keyed) in
    rw (deliver_frame-state env f s v.sink, up)
      (
        record {
          sink = v.sink;
          ordered = v.ordered.1;
          frames = v.frames.1;
          buffered = release_buf_lem f.packets s.recv_buf_len _ v.buffered;
          pooled = v.pooled ∙ ap (λ n. n % u32_mod) (omega arith);
        },
        refl,
      )

-- The loop sends up due frames by rising id, and what it keeps still belongs to the receiver.
drain-IsCached :
    (env : Env) (cache : List (ℕ × VideoFrame)) (s : MultipathReceiver)
    → IsCached s cache
    → let (s', out) = drain env cache s in
      IsCached s' s'.frame_cache × Rises s.min_fid (forwarded out) s'.min_fid
unfolding drain
drain-IsCached env [] s v = (
  record { sink = v.sink; ordered = tt; frames = tt; buffered = v.buffered; pooled = v.pooled },
  refl,
)
drain-IsCached env ((fid, f) ∷ cache) s v = elim (Bool-cases (is_due env f)) [
  | inl due ↦
      let (w, top) = take_frame-IsCached env fid f cache s v in
      let (x, rises) = drain-IsCached env cache (take_frame env f s).0 w in
      rw
        (
          due,
          forwarded-append (take_frame env f s).1 (drain env cache (take_frame env f s).0).1,
          take_frame-forwarded env f s v.sink,
        )
        (
          x,
          Rises-next s.min_fid (take_frame env f s).0.min_fid f.fid _ _
              (ground (arith, v.ordered.0, v.frames.0.keyed))
              (ground (arith, top, v.frames.0.keyed)) rises,
        )
  | inr early ↦ rw early (
    record {
      sink = v.sink;
      ordered = v.ordered;
      frames = v.frames;
      buffered = v.buffered;
      pooled = v.pooled;
    },
    refl,
  )
]

abbrev pub IsConsistent : MultipathReceiver → Type 0
IsConsistent s = IsCached s s.frame_cache

-- One run of the delivery loop: whatever is due goes up by rising id above the last id, which
-- becomes the last one sent; the rest of the cache stays consistent.
pub check_deliver_frame-IsConsistent :
    (env : Env) (s : MultipathReceiver)
    → IsConsistent s
    → let (s', out) = check_deliver_frame env s in
      IsConsistent s' × Rises s.min_fid (forwarded out) s'.min_fid
unfolding check_deliver_frame
check_deliver_frame-IsConsistent env s v =
    let (w, rises) = drain-IsCached env s.frame_cache s v in
    (
      w,
      rw (forwarded-append (drain env s.frame_cache s).1)
          (Rises-append _ _ _ _ _ rises (ground arith)),
    )
