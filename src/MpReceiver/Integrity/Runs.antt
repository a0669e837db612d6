-- ===== src/MpReceiver/Integrity/Runs.antt =====
-- The bytes of the frames that ns3/mp-video/model/mpreceiver.cc hands up over a run of events.
use mp_video_simulation.Prelude.{
  ℕ, ◌^◌, ◌<◌, ◌≡◌, false, Option, none, some, List, [], ◌∷◌, ◌++◌, leb, arith, Option-cases, inl,
  inr, if-cases, All, All-append, map, get_elem?,
}
use mp_video_simulation.Prelude.Calls.{Ensures, Ensures-map}
use mp_video_simulation.Prelude.Runs.{run, AreAllowed, run-Ensures}
use mp_video_simulation.Prelude.OrderedMap.{Every}
use mp_video_simulation.Protocol.{Segment}
use mp_video_simulation.MpReceiver.State.{Env, MultipathReceiver, Output, register_path, stop_path}
use mp_video_simulation.MpReceiver.Cache.{
  heart_beat, find_frame, store_packet, cache_segment, start_heart, check_late_frame,
  deliver_to_cache, stop_receiver,
}
use mp_video_simulation.MpReceiver.Order.{IsConsistent}
use mp_video_simulation.MpReceiver.Reassembly.{store_packet-IsConsistent}
use mp_video_simulation.MpReceiver.Intake.{IsRunning, Delivers, start_heart-IsStarted}
use mp_video_simulation.MpReceiver.Runs.{
  Event, segment_event, timer_event, path_event, stop_event, on_timer, handle, IsFit,
  handle-Delivers,
}
use mp_video_simulation.MpReceiver.Integrity.{IsFilled, IsWhole, store_packet-IsFilled}
use mp_video_simulation.MpReceiver.Integrity.Delivery.{
  IsSound, check_deliver_frame-IsSound, heart_beat-IsSound,
}

-- What holds of a result, if there is one.
abbrev IfReturned : {A : Type 0} → (A → Type 0) → Option A → Type 0
IfReturned P none = Unit
IfReturned P (some a) = P a

both :
    {S O : Type 0} (P : S → List O → Type 0) (Q : S × List O → Type 0) (r : Option (S × List O))
    → Ensures P r
    → IfReturned Q r
    → Ensures (λ s out. P s out × Q (s, out)) r
both P Q none h a = absurd h
both P Q (some (s, out)) h a = (h, a)

module _ (Good : Segment → Type 0) where
  joined-IsSound :
      (out : List Output) (o : Option (MultipathReceiver × List Output))
      → All (IsWhole Good) out
      → IfReturned (IsSound Good) o
      → IfReturned (IsSound Good) (elim o as (λ x. Option (MultipathReceiver × List Output)) [
        | none ↦ none
        | some (s, out') ↦ some (s, out ++ out')
      ])
  joined-IsSound out none w h = tt
  joined-IsSound out (some (s, out')) w h = (h.0, All-append (IsWhole Good) out out' w h.1)

  cache_segment-IsSound :
      (env : Env) (pid : ℕ) (d : Segment) (s : MultipathReceiver)
      → IsConsistent s
      → d.total < 2 ^ 16
      → s.min_fid < d.fid
      → Good d
      → Every (IsFilled Good) s.frame_cache
      → IfReturned (IsSound Good) (cache_segment env pid d s)
  unfolding cache_segment
  cache_segment-IsSound env pid d s v small fresh g h =
      elim (Option-cases (get_elem? (find_frame d s).packets d.index)) [
        | inl outside ↦ rw (cache_segment, outside) tt
        | inr (none, e) ↦
            rw (cache_segment, e)
              (check_deliver_frame-IsSound Good env (store_packet env pid d (find_frame d s) s)
                (store_packet-IsConsistent env pid d s v small fresh e).frames
                (store_packet-IsFilled Good env pid d s g h))
        | inr (some old, e) ↦ rw (cache_segment, e) (h, tt)
      ]

  start_heart-IsWhole :
      (env : Env) (s : MultipathReceiver)
      → IsRunning s
      → Every (IsFilled Good) s.frame_cache
      → All (IsWhole Good) (start_heart env s).1
  unfolding start_heart
  start_heart-IsWhole env s v h =
      if-cases {A = MultipathReceiver × List Output} (λ r. All (IsWhole Good) r.1) s.first_packet
        (s, []) _ (λ begun. tt) (λ first. (heart_beat-IsSound Good env s v.consistent.frames h).1)

  deliver_to_cache-IsSound :
      (env : Env) (pid : ℕ) (d : Segment) (s : MultipathReceiver)
      → IsRunning s
      → d.total < 2 ^ 16
      → Good d
      → Every (IsFilled Good) s.frame_cache
      → IfReturned (IsSound Good) (deliver_to_cache env pid d s)
  unfolding deliver_to_cache check_late_frame
  deliver_to_cache-IsSound env pid d s v small g h =
      let (s', out) = start_heart env s in
      let start = start_heart-IsStarted env s v in
      let begun : Every (IsFilled Good) s'.frame_cache = rw start.cache h in
      let whole = start_heart-IsWhole env s v h in
      if-cases (IfReturned (IsSound Good)) s.stop (some (s, [])) _ (λ stopped. (h, tt))
        (λ runs.
          if-cases (IfReturned (IsSound Good)) (leb d.fid s'.min_fid) (some (s', out)) _
            (λ late. (begun, whole))
            (λ fresh. joined-IsSound out (cache_segment env pid d s') whole (
              cache_segment-IsSound env pid d s' start.consistent small (ground (arith, fresh)) g
                begun)))

  stops-IsWhole : (paths : List ℕ) → All (IsWhole Good) (map stop_path paths)
  stops-IsWhole [] = tt
  stops-IsWhole (path ∷ paths) = (tt, stops-IsWhole paths)

  register_path-cache :
      (path : ℕ) (s : MultipathReceiver) → (register_path path s).frame_cache ≡ s.frame_cache
  unfolding register_path
  register_path-cache path s = ground arith

  -- A segment that comes has the property.
  abbrev pub Brings : Event → Type 0
  Brings (segment_event env pid d) = Good d
  Brings (timer_event env) = Unit
  Brings (path_event path) = Unit
  Brings stop_event = Unit

  abbrev pub IsFitting : Event → MultipathReceiver → Type 0
  IsFitting e s = IsFit e s × Brings e

  abbrev IsKept : MultipathReceiver → Type 0
  IsKept s = IsRunning s × Every (IsFilled Good) s.frame_cache

  handle-IsSound :
      (e : Event) (s : MultipathReceiver)
      → IsKept s
      → IsFitting e s
      → IfReturned (IsSound Good) (handle e s)
  unfolding handle on_timer stop_receiver
  handle-IsSound (segment_event env pid d) s (v, h) (fit, g) =
      deliver_to_cache-IsSound env pid d s v fit.0 g h
  handle-IsSound (timer_event env) s (v, h) fit =
      if-cases {A = MultipathReceiver × List Output} (IsSound Good) s.hb_timer
        (heart_beat env (record s { hb_timer = false })) (s, [])
        (λ pending.
          heart_beat-IsSound Good env (record s { hb_timer = false }) v.consistent.frames h)
        (λ free. (h, tt))
  handle-IsSound (path_event path) s (v, h) fit = (rw (register_path-cache path s) h, tt)
  handle-IsSound stop_event s (v, h) fit = (h, stops-IsWhole s.paths)

  step-IsSound :
      (e : Event) (s : MultipathReceiver)
      → IsKept s
      → IsFitting e s
      → Ensures (λ t out. IsKept t × All (IsWhole Good) out) (handle e s)
  step-IsSound e s v fit =
      Ensures-map (λ t out. Delivers s (t, out) × IsSound Good (t, out)) _ (handle e s)
        (both (λ t out. Delivers s (t, out)) (IsSound Good) (handle e s)
          (handle-Delivers e s v.0 fit.0) (handle-IsSound e s v fit))
        (λ t out (up, sound). ((up.0, sound.0), sound.1))

  -- A running receiver, whose slots hold segments that have a property, gets any sequence of segments that have it, beats of its timer, new paths and stops; a segment has fewer than 2 ^ 16 packets in its frame and an index inside the frame, as far as it has come. Every call returns, and each frame that goes up is the bytes of slots, in their order, each of which is empty or holds a segment with the property, of that frame, and with the number of the slot as its index; with it go the number of those that are filled and the number of the slots, which a segment with the property, of that frame, has announced.
  pub handle_all-IsWhole :
      (es : List Event) (s : MultipathReceiver)
      → IsRunning s
      → Every (IsFilled Good) s.frame_cache
      → AreAllowed handle IsFitting es s
      → Ensures (λ t out. All (IsWhole Good) out) (run handle es s)
  handle_all-IsWhole es s v h fit =
      Ensures-map (λ t out. IsKept t × All (IsWhole Good) out) _ (run handle es s)
        (run-Ensures handle IsFitting IsKept (λ s out t. All (IsWhole Good) out) (λ s. tt)
          (λ s t u out out' first rest. All-append (IsWhole Good) out out' first rest) step-IsSound
          es s (v, h) fit)
        (λ t out (kept, whole). whole)
