-- ===== src/V1/MpReceiver/Order.antt =====
-- The order in which ns3/mp-video/model/mp_receiver_v1.cc hands frames on.
use mp_video_simulation.Prelude.{
  ℕ, ◌<◌, ◌≡◌, refl, ap, inl, inr, true, false, Option, none, some, List, [], ◌∷◌, ◌++◌, leb, not,
  All, arith, Bool-cases, Option-cases, if-cases,
}
use mp_video_simulation.Prelude.Calls.{Ensures, Ensures-then, Ensures-if, Ensures-map, then_call}
use mp_video_simulation.Prelude.OrderedMap.{find, Above, insert-Above, update-Above}
use mp_video_simulation.MpReceiver.Order.{Rises, Rises-append}
use mp_video_simulation.V1.Wire.{VideoSegment, VideoPacketReceiveWrapper}
use mp_video_simulation.V1.FrameBuffer.{VideoFrameBuffer}
use mp_video_simulation.V1.MpReceiver.{
  MpReceiver, Output, frame_delay, register_mp_sink, schedule_heart_beat, deliver_frame, is_due,
  deliver_due, check_deliverable, heart_beat, store_packet, start_beat, on_video_packet,
  stop_receiver, Event, packet_event, timer_event, stop_event, on_timer, handle,
}

-- The ids of the frames that a call hands on.
abbrev pub reported : List Output → List ℕ
reported [] = []
reported (frame_delay fid delay received total ∷ out) = fid ∷ reported out
reported (register_mp_sink path ∷ out) = reported out
reported (schedule_heart_beat delay ∷ out) = reported out

pub reported-append : (xs ys : List Output) → reported (xs ++ ys) ≡ reported xs ++ reported ys
reported-append [] ys = refl
reported-append (frame_delay fid delay received total ∷ out) ys =
    ap (◌∷◌ fid) (reported-append out ys)
reported-append (register_mp_sink path ∷ out) ys = reported-append out ys
reported-append (schedule_heart_beat delay ∷ out) ys = reported-append out ys

-- The frames that wait have ids above the last one handed on; the trace hears of each.
pub record IsReceiver (s : MpReceiver) : Type 0 where
  pub traced : s.trace_frame_delay ≡ true
  pub ordered : Above s.delivered_fid s.frames

-- What a call does to a receiver.
pub record Hands (s s' : MpReceiver) (out : List Output) : Type 0 where
  pub holds : IsReceiver s'
  pub rises : Rises s.delivered_fid (reported out) s'.delivered_fid

pub deliver_frame-reported :
    (fid : ℕ) (f : VideoFrameBuffer) (s : MpReceiver)
    → s.trace_frame_delay ≡ true
    → reported (deliver_frame fid f s) ≡ fid ∷ []
unfolding deliver_frame
deliver_frame-reported fid f s t = ground (arith, t)

deliver_due-Hands :
    (now : ℕ) (frames : List (ℕ × VideoFrameBuffer)) (s : MpReceiver)
    → s.trace_frame_delay ≡ true
    → Above s.delivered_fid frames
    → let (s', out) = deliver_due now frames s in Hands s s' out
unfolding deliver_due
deliver_due-Hands now [] s t a = record {
  holds = record { traced = t; ordered = tt };
  rises = refl;
}
deliver_due-Hands now ((fid, f) ∷ frames) s t a =
    let rest = deliver_due-Hands now frames (record s { delivered_fid = fid }) t a.1 in
    elim (Bool-cases (is_due now f)) [
      | inl due ↦ rw due (record {
        holds = rest.holds;
        rises =
            rw
              (
                reported-append (deliver_frame fid f s)
                    (deliver_due now frames (record s { delivered_fid = fid })).1,
                deliver_frame-reported fid f s t,
              )
              (a.0, rest.rises);
      })
      | inr early ↦ rw early (record { holds = record { traced = t; ordered = a }; rises = refl })
    ]

store_packet-Above :
    (b now : ℕ) (seg : VideoSegment) (p : VideoPacketReceiveWrapper)
    (frames : List (ℕ × VideoFrameBuffer))
    → b < seg.fid
    → Above b frames
    → Above b (store_packet now seg p frames)
unfolding store_packet
store_packet-Above b now seg p frames h a = elim (Option-cases (find seg.fid frames)) [
  | inl new ↦ rw (store_packet, new) (insert-Above b seg.fid _ frames h a)
  | inr (f, old) ↦ rw (store_packet, old) (update-Above b seg.fid _ frames a)
]

abbrev pub HasSegment : VideoPacketReceiveWrapper → Type 0
HasSegment p = elim p.segment [ none ↦ ⊥ | some seg ↦ Unit ]

-- A packet that has its segment.
abbrev pub Loaded : Event → Type 0
Loaded (packet_event now p) = HasSegment p
Loaded (timer_event now) = Unit
Loaded stop_event = Unit

-- A call whose result is a pair.
abbrev Handed : MpReceiver → MpReceiver × List Output → Type 0
Handed s (s', out) = Hands s s' out

check_deliverable-Hands :
    (now : ℕ) (s : MpReceiver) → IsReceiver s → Handed s (check_deliverable now s)
unfolding check_deliverable
check_deliverable-Hands now s v =
    if-cases {A = MpReceiver × List Output} (Handed s) (not s.running) _ _
      (λ stopped. record { holds = v; rises = refl })
      (λ on. deliver_due-Hands now s.frames s v.traced v.ordered)

heart_beat-Hands : (now : ℕ) (s : MpReceiver) → IsReceiver s → Handed s (heart_beat now s)
unfolding heart_beat
heart_beat-Hands now s v =
    let idle : Handed s (s, []) = record { holds = v; rises = refl } in
    let c = check_deliverable-Hands now s v in
    if-cases {A = MpReceiver × List Output} (Handed s) s.heart_timer _ _ (λ pending. idle)
      (λ free.
        if-cases {A = MpReceiver × List Output} (Handed s) (not s.running) _ _ (λ stopped. idle)
          (λ on. record {
            holds = record { traced = c.holds.traced; ordered = c.holds.ordered };
            rises =
                rw (reported-append (check_deliverable now s).1 (schedule_heart_beat 1 ∷ []))
                  (Rises-append _ _ _ _ _ c.rises refl);
          }))

on_timer-Hands : (now : ℕ) (s : MpReceiver) → IsReceiver s → Handed s (on_timer now s)
unfolding on_timer
on_timer-Hands now s v =
    let beat =
      heart_beat-Hands now (record s { heart_timer = false })
        (record { traced = v.traced; ordered = v.ordered }) in
    if-cases {A = MpReceiver × List Output} (Handed s) s.heart_timer _ _
      (λ pending. record { holds = beat.holds; rises = beat.rises })
      (λ free. record { holds = v; rises = refl })

start_beat-Hands : (s : MpReceiver) → IsReceiver s → Handed s (start_beat s)
unfolding start_beat
start_beat-Hands s v =
    if-cases {A = MpReceiver × List Output} (Handed s) s.first_packet _ _
      (λ first. record { holds = record { traced = v.traced; ordered = v.ordered }; rises = refl })
      (λ later. record { holds = v; rises = refl })

on_video_packet-Hands :
    (now : ℕ) (p : VideoPacketReceiveWrapper) (s : MpReceiver)
    → HasSegment p
    → IsReceiver s
    → Ensures (Hands s) (on_video_packet now p s)
unfolding on_video_packet
on_video_packet-Hands now p s l v = elim (Option-cases p.segment) [
  | inl empty ↦ absurd (rw empty at l)
  | inr (seg, there) ↦
      let b = start_beat-Hands s v in
      let s' = (start_beat s).0 in
      rw (on_video_packet, there)
        (Ensures-if (Hands s) (not s.running) _ _ (λ stopped. record { holds = v; rises = refl })
          (λ on.
            Ensures-if (Hands s) (leb seg.fid s'.delivered_fid) _ _ (λ late. b)
              (λ new. record {
                holds = record {
                  traced = b.holds.traced;
                  ordered =
                      store_packet-Above s'.delivered_fid now seg p s'.frames (ground arith)
                        b.holds.ordered;
                };
                rises = b.rises;
              })))
]

handle-Hands :
    (e : Event) (s : MpReceiver) → Loaded e → IsReceiver s → Ensures (Hands s) (handle e s)
unfolding handle stop_receiver
handle-Hands (packet_event now p) s l v = on_video_packet-Hands now p s l v
handle-Hands (timer_event now) s l v = on_timer-Hands now s v
handle-Hands stop_event s l v = record {
  holds = record { traced = v.traced; ordered = v.ordered };
  rises = refl;
}

-- What happens to a receiver, one event after the other.
abbrev pub handle_all : List Event → MpReceiver → Option (MpReceiver × List Output)
handle_all [] s = some (s, [])
handle_all (e ∷ es) s = then_call (handle e s) (handle_all es)

-- A receiver with its trace set, whose waiting frames have ids above the last one handed on,
-- takes any packets that have their segments, any beats of its timer and a stop, in any order:
-- every call returns, the frames are handed on by strictly rising id above that last one, so
-- each at most once, the last of them is the one that the receiver has noted, and what waits is
-- again above it.
pub handle_all-Hands :
    (es : List Event) (s : MpReceiver)
    → All Loaded es
    → IsReceiver s
    → Ensures (Hands s) (handle_all es s)
handle_all-Hands [] s l v = record { holds = v; rises = refl }
handle_all-Hands (e ∷ es) s l v =
    Ensures-then (Hands s) (Hands s) (handle e s) (handle_all es) (handle-Hands e s l.0 v)
      (λ s' out h.
        Ensures-map (Hands s') _ (handle_all es s') (handle_all-Hands es s' l.1 h.holds)
          (λ s'' out' h'. record {
            holds = h'.holds;
            rises = rw (reported-append out out') (Rises-append _ _ _ _ _ h.rises h'.rises);
          }))
