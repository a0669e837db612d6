-- ===== src/V1/MpReceiver/Liveness.antt =====
-- No frame waits for ever in ns3/mp-video/model/mp_receiver_v1.cc.
use mp_video_simulation.Prelude.{
  append_nil, ℕ, zero, suc, ◌+◌, ◌≤◌, ◌<◌, ◌≡◌, ◌∙◌, refl, ap, inl, inr, true, false, List, [], ◌∷◌,
  ◌++◌, u32_mod, arith, Bool-cases,
}
use mp_video_simulation.Prelude.OrderedMap.{Every}
use mp_video_simulation.V1.FrameBuffer.{VideoFrameBuffer, is_expired}
use mp_video_simulation.V1.MpReceiver.{
  MpReceiver, Output, schedule_heart_beat, deliver_frame, is_due, deliver_due, check_deliverable,
  heart_beat, on_timer,
}
use mp_video_simulation.V1.MpReceiver.Order.{reported, reported-append, deliver_frame-reported}

abbrev pub fids : List (ℕ × VideoFrameBuffer) → List ℕ
fids [] = []
fids ((fid, f) ∷ frames) = fid ∷ fids frames

-- `n` beats of the timer, a millisecond apart, the first at `now`.
abbrev pub beats : ℕ → (now : ℕ) → MpReceiver → MpReceiver × List Output
beats zero now s = (s, [])
beats (suc n) now s =
    let (s', out) = on_timer now s in let (s'', out') = beats n (now + 1) s' in (s'', out ++ out')

-- A receiver that beats, and whose frames got their last packet by the time `t`.
pub record IsBeating (t : ℕ) (s : MpReceiver) : Type 0 where
  pub on : s.running ≡ true
  pub traced : s.trace_frame_delay ≡ true
  pub pending : s.heart_timer ≡ true
  pub old : Every (λ fid f. f.max_recv_ts ≤ t) s.frames

-- What the loop takes away is what it reports.
record Splits (t : ℕ) (s : MpReceiver) (frames : List (ℕ × VideoFrameBuffer))
    (r : MpReceiver × List Output) : Type 0 where
  same_running : r.0.running ≡ s.running
  same_trace : r.0.trace_frame_delay ≡ s.trace_frame_delay
  split : reported r.1 ++ fids r.0.frames ≡ fids frames
  old : Every (λ fid f. f.max_recv_ts ≤ t) r.0.frames

module _ (t now : ℕ) where
  deliver_due-Splits :
      (frames : List (ℕ × VideoFrameBuffer)) (s : MpReceiver)
      → s.trace_frame_delay ≡ true
      → Every (λ fid f. f.max_recv_ts ≤ t) frames
      → Splits t s frames (deliver_due now frames s)
  unfolding deliver_due
  deliver_due-Splits [] s h e = record {
    same_running = refl;
    same_trace = refl;
    split = refl;
    old = tt;
  }
  deliver_due-Splits ((fid, f) ∷ frames) s h e =
      let rest = deliver_due-Splits frames (record s { delivered_fid = fid }) h e.1 in
      elim (Bool-cases (is_due now f)) [
        | inl due ↦ rw due (record {
          same_running = rest.same_running;
          same_trace = rest.same_trace;
          split =
              rw
                (
                  reported-append (deliver_frame fid f s)
                      (deliver_due now frames (record s { delivered_fid = fid })).1,
                  deliver_frame-reported fid f s h,
                )
                (ap (◌∷◌ fid) rest.split);
          old = rest.old;
        })
        | inr early ↦
            rw early (record { same_running = refl; same_trace = refl; split = refl; old = e })
      ]

  -- When every frame is too old, none stays.
  deliver_due_all :
      (frames : List (ℕ × VideoFrameBuffer)) (s : MpReceiver)
      → Every (λ fid f. f.max_recv_ts ≤ t) frames
      → t + 300 < now
      → now < u32_mod
      → (deliver_due now frames s).0.frames ≡ []
  unfolding deliver_due is_due is_expired
  deliver_due_all [] s e h l = refl
  deliver_due_all ((fid, f) ∷ frames) s e h l =
      ground (arith, deliver_due_all frames (record s { delivered_fid = fid }) e.1 h l)

-- One beat: the timer is set again, and what leaves is reported, in the order of the ids.
record Beats (t : ℕ) (s : MpReceiver) (r : MpReceiver × List Output) : Type 0 where
  holds : IsBeating t r.0
  split : reported r.1 ++ fids r.0.frames ≡ fids s.frames

module _ (t now : ℕ) (s : MpReceiver) (v : IsBeating t s) where
  -- The state in which the timer calls, and the delivery from it.
  abbrev fired : MpReceiver
  fired = record s { heart_timer = false }

  on_timer_lem : on_timer now s ≡ (
    record ((deliver_due now s.frames fired).0) { heart_timer = true },
    (deliver_due now s.frames fired).1 ++ schedule_heart_beat 1 ∷ [],
  )
  unfolding on_timer heart_beat check_deliverable
  on_timer_lem = simp (v.pending, v.on)

  on_timer-Beats : Beats t s (on_timer now s)
  on_timer-Beats =
      let d = deliver_due-Splits t now s.frames fired v.traced v.old in
      rw on_timer_lem (record {
        holds = record {
          on = d.same_running ∙ v.on;
          traced = d.same_trace ∙ v.traced;
          pending = refl;
          old = d.old;
        };
        split =
            rw
              (
                reported-append (deliver_due now s.frames fired).1 (schedule_heart_beat 1 ∷ []),
                append_nil,
              )
              d.split;
      })

  on_timer_last : t + 300 < now → now < u32_mod → (on_timer now s).0.frames ≡ []
  on_timer_last h l = rw on_timer_lem (deliver_due_all t now s.frames fired v.old h l)

-- A running receiver whose timer is set gets no more packets, and its frames got their last one
-- by the time `t`. After `n` beats and one more, a millisecond apart from `now` on, the last of
-- them more than 300 ms after `t`, no frame waits; the frames that waited have all been
-- reported once, in the order of their ids; and the timer is set again.
pub beats-Beats :
    (n t now : ℕ) (s : MpReceiver)
    → IsBeating t s
    → t + 300 < now + n
    → now + n < u32_mod
    → let (s', out) = beats (suc n) now s in
      IsBeating t s' × (s'.frames ≡ []) × (reported out ≡ fids s.frames)
beats-Beats zero t now s v h l =
    let b = on_timer-Beats t now s v in
    let last = on_timer_last t now s v (omega (arith, h)) (omega (arith, l)) in
    let split : reported (on_timer now s).1 ++ [] ≡ fids s.frames = rw last at b.split in
    (b.holds, last, reported-append (on_timer now s).1 [] ∙ split)
beats-Beats (suc n) t now s v h l =
    let b = on_timer-Beats t now s v in
    let (w, empty, rest) =
      beats-Beats n t (now + 1) (on_timer now s).0 b.holds (omega (arith, h)) (omega (arith, l)) in
    (
      w,
      empty,
      reported-append (on_timer now s).1 (beats (suc n) (now + 1) (on_timer now s).0).1
          ∙ ap (λ ids. reported (on_timer now s).1 ++ ids) rest
          ∙ b.split,
    )
