-- ===== src/MpReceiver/Runs.antt =====
-- The receiver of ns3/mp-video/model/mpreceiver.cc over a run of events.
use mp_video_simulation.Prelude.{
  ℕ, ◌^◌, ◌<◌, ◌≡◌, ◌∙◌, refl, true, false, Option, some, List, [], ◌∷◌, ◌++◌, if◌then◌else◌, arith,
  Bool-cases, inl, inr, if-cases, map,
}
use mp_video_simulation.Prelude.Calls.{Ensures, Returns-Ensures}
use mp_video_simulation.Prelude.Runs.{run, AreAllowed, run-Ensures}
use mp_video_simulation.Protocol.{Segment}
use mp_video_simulation.MpReceiver.State.{
  Env, MultipathReceiver, Output, init, register_data_sink, register_path, schedule_heart_beat,
  stop_path,
}
use mp_video_simulation.MpReceiver.Delivery.{check_deliver_frame}
use mp_video_simulation.MpReceiver.Cache.{
  process, heart_beat, find_frame, deliver_to_cache, stop_receiver,
}
use mp_video_simulation.MpReceiver.Order.{
  forwarded, forwarded-append, Rises, Rises-append, check_deliver_frame-IsConsistent,
}
use mp_video_simulation.MpReceiver.Intake.{
  IsRunning, Delivers, process-idle, check_deliver_frame-first_packet, deliver_to_cache-IsRunning,
}

-- What comes to a receiver, each with the clock and the answers of the paths at that time:
-- segments, beats of the timer, paths that register, and the stop.
pub data Event : Type 0 where
  segment_event : Env → (pid : ℕ) → Segment → Event
  timer_event : Env → Event
  path_event : (path : ℕ) → Event
  stop_event : Event

-- The simulator runs an event that is pending, and no other.
unfoldable pub on_timer : Env → MultipathReceiver → MultipathReceiver × List Output
unfolding heart_beat
on_timer env s = if s.hb_timer then heart_beat env (record s { hb_timer = false }) else (s, [])

unfoldable pub handle : Event → MultipathReceiver → Option (MultipathReceiver × List Output)
unfolding deliver_to_cache on_timer register_path stop_receiver
handle (segment_event env pid d) s = deliver_to_cache env pid d s
handle (timer_event env) s = some (on_timer env s)
handle (path_event path) s = some (register_path path s, [])
handle stop_event s = some (stop_receiver s)

-- A segment has fewer than 2 ^ 16 packets in its frame and an index inside the frame.
abbrev pub IsFit : Event → MultipathReceiver → Type 0
IsFit (segment_event env pid d) s = (d.total < 2 ^ 16) × (d.index < (find_frame d s).total)
IsFit (timer_event env) s = Unit
IsFit (path_event path) s = Unit
IsFit stop_event s = Unit

-- The fields that the invariant reads.
record IsSame (s t : MultipathReceiver) : Type 0 where
  same_sink : t.deliver ≡ s.deliver
  same_cache : t.frame_cache ≡ s.frame_cache
  same_min : t.min_fid ≡ s.min_fid
  same_len : t.recv_buf_len ≡ s.recv_buf_len
  same_free : t.free_segs ≡ s.free_segs
  same_all : t.seg_c ≡ s.seg_c
  same_first : t.first_packet ≡ s.first_packet

IsSame-IsRunning : (s t : MultipathReceiver) → IsSame s t → IsRunning s → IsRunning t
IsSame-IsRunning s t e v = record {
  consistent = record {
    sink = e.same_sink ∙ v.consistent.sink;
    ordered = rw (e.same_min, e.same_cache) v.consistent.ordered;
    frames = rw e.same_cache v.consistent.frames;
    buffered = rw (e.same_len, e.same_cache) v.consistent.buffered;
    pooled = rw (e.same_all, e.same_free, e.same_cache) v.consistent.pooled;
  };
  idle = λ no. e.same_cache ∙ v.idle (ground (arith, e.same_first, no));
}

process-Delivers : (env : Env) (s : MultipathReceiver) → IsRunning s → Delivers s (process env s)
unfolding process
process-Delivers env s v = elim (Bool-cases s.first_packet) [
  | inr first ↦ rw (process-idle env s (v.idle first)) (v, refl)
  | inl begun ↦
      let (w, rises) = check_deliver_frame-IsConsistent env s v.consistent in
      let kept = check_deliver_frame-first_packet env s in
      if-cases (Delivers s) s.stop (s, []) (check_deliver_frame env s) (λ stopped. (v, refl))
        (λ runs. (record { consistent = w; idle = λ no. absurd (cc (kept, begun, no)) }, rises))
]

-- A call that hands nothing up and writes none of those fields.
quiet-Delivers :
    (s t : MultipathReceiver) (out : List Output)
    → IsSame s t
    → forwarded out ≡ []
    → IsRunning s
    → Delivers s (t, out)
quiet-Delivers s t out e q v = (IsSame-IsRunning s t e v, rw q (ground (arith, e.same_min)))

heart_beat-Delivers :
    (env : Env) (s : MultipathReceiver) → IsRunning s → Delivers s (heart_beat env s)
unfolding heart_beat
heart_beat-Delivers env s v =
    let (t, out) = process env s in
    let (w, rises) = process-Delivers env s v in
    if-cases (Delivers s) s.hb_timer (s, [])
      (record t { hb_timer = true }, out ++ schedule_heart_beat 100 ∷ []) (λ pending. (v, refl))
      (λ free. (
        IsSame-IsRunning t (record t { hb_timer = true }) (ground arith) w,
        rw (forwarded-append out (schedule_heart_beat 100 ∷ []))
            (Rises-append _ _ _ _ _ rises refl),
      ))

on_timer-Delivers : (env : Env) (s : MultipathReceiver) → IsRunning s → Delivers s (on_timer env s)
unfolding on_timer
on_timer-Delivers env s v =
    let fired = record s { hb_timer = false } in
    if-cases (Delivers s) s.hb_timer (heart_beat env fired) (s, [])
      (λ pending. heart_beat-Delivers env fired (IsSame-IsRunning s fired (ground arith) v))
      (λ free. (v, refl))

register_path-Delivers :
    (path : ℕ) (s : MultipathReceiver) → IsRunning s → Delivers s (register_path path s, [])
unfolding register_path
register_path-Delivers path s v = quiet-Delivers s (register_path path s) [] (ground arith) refl v

stops-forwarded : (paths : List ℕ) → forwarded (map stop_path paths) ≡ []
stops-forwarded [] = refl
stops-forwarded (path ∷ paths) = stops-forwarded paths

pub handle-Delivers :
    (e : Event) (s : MultipathReceiver)
    → IsRunning s
    → IsFit e s
    → Ensures (λ t out. Delivers s (t, out)) (handle e s)
unfolding handle stop_receiver
handle-Delivers (segment_event env pid d) s v fit =
    Returns-Ensures (λ t out. Delivers s (t, out)) (deliver_to_cache env pid d s)
      (deliver_to_cache-IsRunning env pid d s v fit.0 fit.1)
handle-Delivers (timer_event env) s v fit = on_timer-Delivers env s v
handle-Delivers (path_event path) s v fit = register_path-Delivers path s v
handle-Delivers stop_event s v fit =
    quiet-Delivers s (record s { hb_timer = false; stop = true }) (map stop_path s.paths)
      (ground arith) (stops-forwarded s.paths) v

-- A receiver with its sink set.
pub fresh-IsRunning : (uid : ℕ) → IsRunning (register_data_sink (init uid)).0
unfolding init register_data_sink
fresh-IsRunning uid = record {
  consistent = record { sink = refl; ordered = tt; frames = tt; buffered = refl; pooled = refl };
  idle = λ e. refl;
}

-- A running receiver gets any sequence of segments, beats of its timer, new paths and stops. A
-- segment has fewer than 2 ^ 16 packets in its frame and an index inside the frame, as far as
-- it has come. Every call returns, the counters stay exact, and the ids of all the frames that
-- are sent up rise strictly from above the last one before, so that each goes up at most once;
-- the last of them is the one that the receiver has noted.
pub handle_all-Delivers :
    (es : List Event) (s : MultipathReceiver)
    → IsRunning s
    → AreAllowed handle IsFit es s
    → Ensures (λ t out. IsRunning t × Rises s.min_fid (forwarded out) t.min_fid) (run handle es s)
handle_all-Delivers =
    run-Ensures handle IsFit IsRunning (λ s out t. Rises s.min_fid (forwarded out) t.min_fid)
      (λ s. refl)
      (λ s t u out out' first rest.
        rw (forwarded-append out out') (Rises-append _ _ _ _ _ first rest))
      handle-Delivers
