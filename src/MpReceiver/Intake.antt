-- ===== src/MpReceiver/Intake.antt =====
-- A segment from its path to the sink: `DeliverToCache` of ns3/mp-video/model/mpreceiver.cc.
use mp_video_simulation.Prelude.{
  ℕ, ◌^◌, ◌<◌, ◌≡◌, ◌∙◌, refl, sym, ap, inl, inr, Bool, true, false, Option, none, some, List, [],
  ◌∷◌, ◌++◌, leb, arith, Bool-cases, subst, if-cases, Returns, get_elem?,
}
use mp_video_simulation.Prelude.OrderedMap.{find}
use mp_video_simulation.Protocol.{Segment}
use mp_video_simulation.MpReceiver.State.{
  VideoPacket, VideoFrame, Env, MultipathReceiver, Output, schedule_heart_beat,
}
use mp_video_simulation.MpReceiver.Delivery.{
  check_deliver_frame, drain, take_frame, deliver_frame, is_due,
}
use mp_video_simulation.MpReceiver.Cache.{
  process, heart_beat, find_frame, new_frame, store_packet, cache_segment, start_heart,
  deliver_to_cache, check_late_frame,
}
use mp_video_simulation.MpReceiver.Slots.{get_elem?_in}
use mp_video_simulation.MpReceiver.Order.{
  IsConsistent, forwarded, forwarded-append, Rises, check_deliver_frame-IsConsistent,
}
use mp_video_simulation.MpReceiver.Reassembly.{find_frame-IsFrame, store_packet-IsConsistent}

-- Consistent, and with nothing cached before the first packet.
pub record IsRunning (s : MultipathReceiver) : Type 0 where
  pub consistent : IsConsistent s
  pub idle : s.first_packet ≡ false → s.frame_cache ≡ []

-- What a call promises that starts in `s`.
abbrev pub Delivers : MultipathReceiver → MultipathReceiver × List Output → Type 0
Delivers s (s', out) = IsRunning s' × Rises s.min_fid (forwarded out) s'.min_fid

take_frame-first_packet :
    (env : Env) (f : VideoFrame) (s : MultipathReceiver)
    → (take_frame env f s).0.first_packet ≡ s.first_packet
unfolding take_frame deliver_frame
take_frame-first_packet env f s = ground arith

drain-first_packet :
    (env : Env) (cache : List (ℕ × VideoFrame)) (s : MultipathReceiver)
    → (drain env cache s).0.first_packet ≡ s.first_packet
unfolding drain
drain-first_packet env [] s = refl
drain-first_packet env ((fid, f) ∷ cache) s = elim (Bool-cases (is_due env f)) [
  | inl due ↦
      rw due (drain-first_packet env cache (take_frame env f s).0 ∙ take_frame-first_packet env f s)
  | inr early ↦ rw early refl
]

pub check_deliver_frame-first_packet :
    (env : Env) (s : MultipathReceiver)
    → (check_deliver_frame env s).0.first_packet ≡ s.first_packet
unfolding check_deliver_frame
check_deliver_frame-first_packet env s = drain-first_packet env s.frame_cache s

-- Without frames there is nothing to process.
pub process-idle :
    (env : Env) (s : MultipathReceiver) → s.frame_cache ≡ [] → process env s ≡ (s, [])
unfolding process check_deliver_frame drain
process-idle env s e =
    let emptied : check_deliver_frame env s ≡ (record s { frame_cache = [] }, []) = simp e in
    if-cases (λ r. r ≡ (s, [])) s.stop (s, []) (check_deliver_frame env s) (λ stopped. refl)
      (λ runs. emptied ∙ ap (λ cache. (record s { frame_cache = cache }, [])) (sym e))

pub record IsStarted (s s' : MultipathReceiver) (out : List Output) : Type 0 where
  pub consistent : IsConsistent s'
  pub started : s'.first_packet ≡ true
  pub cache : s'.frame_cache ≡ s.frame_cache
  pub min_fid : s'.min_fid ≡ s.min_fid
  pub quiet : forwarded out ≡ []

abbrev begin : MultipathReceiver × List Output → MultipathReceiver × List Output
begin (s, out) = (record s { first_packet = true }, out)

begin-IsStarted :
    (on : Bool) (s : MultipathReceiver) (out : List Output)
    → IsConsistent s
    → forwarded out ≡ []
    → IsStarted s (record s { first_packet = true; hb_timer = on }) out
begin-IsStarted on s out v q = record {
  consistent = record {
    sink = v.sink;
    ordered = v.ordered;
    frames = v.frames;
    buffered = v.buffered;
    pooled = v.pooled;
  };
  started = refl;
  cache = refl;
  min_fid = refl;
  quiet = q;
}

heart_beat-IsStarted :
    (env : Env) (s : MultipathReceiver)
    → IsConsistent s
    → s.frame_cache ≡ []
    → let (s', out) = begin (heart_beat env s) in IsStarted s s' out
unfolding heart_beat
heart_beat-IsStarted env s v e =
    let P : (MultipathReceiver × List Output) → Type 0 = λ r. IsStarted s (begin r).0 (begin r).1 in
    let Q : (MultipathReceiver × List Output) → Type 0 =
      λ r. P (record r.0 { hb_timer = true }, r.1 ++ schedule_heart_beat 100 ∷ []) in
    if-cases P s.hb_timer (s, []) _ (λ on. begin-IsStarted s.hb_timer s [] v refl)
      (λ off. subst Q (sym (process-idle env s e)) (begin-IsStarted true s _ v refl))

pub start_heart-IsStarted :
    (env : Env) (s : MultipathReceiver)
    → IsRunning s
    → let (s', out) = start_heart env s in IsStarted s s' out
unfolding start_heart
start_heart-IsStarted env s v =
    if-cases (λ r. IsStarted s r.0 r.1) s.first_packet (s, []) (begin (heart_beat env s))
      (λ begun.
        subst (λ b. IsStarted s (record s { first_packet = b }) []) (sym begun)
          (begin-IsStarted s.hb_timer s [] v.consistent refl))
      (λ first. heart_beat-IsStarted env s v.consistent (v.idle first))

pub find_frame-cache :
    (d : Segment) (s s' : MultipathReceiver)
    → s'.frame_cache ≡ s.frame_cache
    → find_frame d s' ≡ find_frame d s
unfolding find_frame
find_frame-cache d s s' e =
    ap (λ cache. elim (find d.fid cache) [ none ↦ new_frame d | some f ↦ f ]) e

store_packet-kept :
    (env : Env) (pid : ℕ) (d : Segment) (s : MultipathReceiver)
    → let s' = store_packet env pid d (find_frame d s) s in
      (s'.first_packet ≡ s.first_packet) × (s'.min_fid ≡ s.min_fid)
unfolding store_packet
store_packet-kept env pid d s = (refl, refl)

Rises-from : (a a' b : ℕ) (xs : List ℕ) → a ≡ a' → Rises a xs b → Rises a' xs b
Rises-from a a' b xs e rises = rw (← e) rises

-- What caching a segment promises.
abbrev Caches : MultipathReceiver → MultipathReceiver × List Output → Type 0
Caches s (s', out) =
    IsConsistent s'
    × (s'.first_packet ≡ s.first_packet)
    × Rises s.min_fid (forwarded out) s'.min_fid

-- The slot of the segment is empty, or taken.
cache_segment-slot :
    (env : Env) (pid : ℕ) (d : Segment) (s : MultipathReceiver) (slot : Option VideoPacket)
    → IsConsistent s
    → d.total < 2 ^ 16
    → s.min_fid < d.fid
    → get_elem? (find_frame d s).packets d.index ≡ some slot
    → Returns (Caches s) (cache_segment env pid d s)
unfolding cache_segment
cache_segment-slot env pid d s (some old) v small fresh e = rw (e, cache_segment) (v, refl, refl)
cache_segment-slot env pid d s none v small fresh e =
    let w = store_packet-IsConsistent env pid d s v small fresh e in
    let stored = store_packet env pid d (find_frame d s) s in
    let (x, rises) = check_deliver_frame-IsConsistent env stored w in
    let (kept, same) = store_packet-kept env pid d s in
    rw (e, cache_segment)
      (x, check_deliver_frame-first_packet env stored ∙ kept, Rises-from _ _ _ _ same rises)

-- A fresh segment inside its frame is cached, and whatever is due goes up.
cache_segment-IsConsistent :
    (env : Env) (pid : ℕ) (d : Segment) (s : MultipathReceiver)
    → IsConsistent s
    → d.total < 2 ^ 16
    → d.index < (find_frame d s).total
    → s.min_fid < d.fid
    → Returns (Caches s) (cache_segment env pid d s)
cache_segment-IsConsistent env pid d s v small inside fresh =
    let slots = (find_frame-IsFrame d s v small).slots in
    let (slot, e) = get_elem?_in (find_frame d s).packets d.index (omega (arith, slots)) in
    cache_segment-slot env pid d s slot v small fresh e

-- The start, and then the segment.
start-Delivers :
    (s s' : MultipathReceiver) (out : List Output) (o : Option (MultipathReceiver × List Output))
    → IsStarted s s' out
    → Returns (Caches s') o
    → Returns (Delivers s) (elim o [ none ↦ none | some (s'', out') ↦ some (s'', out ++ out') ])
start-Delivers s s' out none start r = r
start-Delivers s s' out (some (s'', out')) start (w, kept, rises) = (
  record { consistent = w; idle = λ no. absurd (cc (start.started, kept, no)) },
  rw (forwarded-append out out', start.quiet) (Rises-from _ _ _ _ start.min_fid rises),
)

-- A segment of a path keeps a running receiver so: the call has a result, the counters stay
-- exact, and the frames that it sends up have rising ids above all those that went up before.
-- The segment has fewer than 2 ^ 16 packets in its frame and an index inside the frame.
pub deliver_to_cache-IsRunning :
    (env : Env) (pid : ℕ) (d : Segment) (s : MultipathReceiver)
    → IsRunning s
    → d.total < 2 ^ 16
    → d.index < (find_frame d s).total
    → Returns (Delivers s) (deliver_to_cache env pid d s)
unfolding deliver_to_cache check_late_frame
deliver_to_cache-IsRunning env pid d s v small inside =
    let (s', out) = start_heart env s in
    let start = start_heart-IsStarted env s v in
    if-cases (Returns (Delivers s)) s.stop (some (s, [])) _ (λ stopped. (v, refl))
      (λ runs.
        if-cases (Returns (Delivers s)) (leb d.fid s'.min_fid) (some (s', out)) _
          (λ late. (
            record { consistent = start.consistent; idle = λ no. absurd (cc (start.started, no)) },
            rw start.quiet (sym start.min_fid),
          ))
          (λ fresh. start-Delivers s s' out (cache_segment env pid d s') start (
            cache_segment-IsConsistent env pid d s' start.consistent small
              (rw (find_frame-cache d s s' start.cache) inside) (ground (arith, fresh)))))
