-- ===== src/Bbr2/Reports.antt =====
-- What ns3/mp-video/model/congestion/bbr_sender_v2.cc tells of its rate.
use mp_video_simulation.Prelude.{
  ℕ, ◌+◌, ◌*◌, ◌/◌, ◌≡◌, ◌∙◌, refl, true, Option, none, some, List, [], ◌∷◌, ◌++◌, leb, ◌==◌,
  if◌then◌else◌, arith, if-cases, Bool-cases, inl, inr,
}
use mp_video_simulation.Prelude.OrderedMap.{find}
use mp_video_simulation.Prelude.Calls.{
  Ensures, Ensures-map, Ensures-then, Ensures-IfDone, Ensures-eq,
}
use mp_video_simulation.Prelude.Runs.{run, AreAllowed}
use mp_video_simulation.Bbr2.Flight.{ack_flight}
use mp_video_simulation.Bbr2.State.{Parts, Bbr2}
use mp_video_simulation.Bbr2.Modes.{is_increase, get_min_rtt, learn_rtt, update_rtt}
use mp_video_simulation.Bbr2.Acks.{
  Output, trace_state, on_bandwidth_update, on_packet_sent, report_rate, increase_rate, set_rate,
  calculate_pacing_rate, after_sample, on_ack,
}
use mp_video_simulation.Bbr2.Events.{Event, sent_event, ack_event}
use mp_video_simulation.Bbr2.Follows.{
  Follows, follows, Follows-trans, learn_rtt-Follows, after_sample-Follows,
}
use mp_video_simulation.Bbr2.Running.{IsRunning}
use mp_video_simulation.Bbr2.Runs.{handle, IsTimely, Arrives, handle-Arrives}

-- The trace has whole kilobits per second, in bits.
abbrev pub whole_kbits : ℕ → ℕ
whole_kbits bps = bps / 1000 * 1000

-- The last rate that the trace shows, after one that it showed before.
abbrev pub shown : (before : ℕ) → List Output → ℕ
shown before [] = before
shown before (trace_state bps mode ∷ out) = shown bps out
shown before (on_bandwidth_update ∷ out) = shown before out

-- How often the observer is told of a new rate.
abbrev pub told : List Output → ℕ
told [] = 0
told (trace_state bps mode ∷ out) = told out
told (on_bandwidth_update ∷ out) = 1 + told out

shown-append :
    (before : ℕ) (xs ys : List Output) → shown before (xs ++ ys) ≡ shown (shown before xs) ys
shown-append before [] ys = refl
shown-append before (trace_state bps mode ∷ out) ys = shown-append bps out ys
shown-append before (on_bandwidth_update ∷ out) ys = shown-append before out ys

told-append : (xs ys : List Output) → told (xs ++ ys) ≡ told xs + told ys
told-append [] ys = omega arith
told-append (trace_state bps mode ∷ out) ys = told-append out ys
told-append (on_bandwidth_update ∷ out) ys = omega (arith, told-append out ys)

same_change : (r : ℕ) → ◌≡◌ {A = ℕ} 0 (if r == r then 0 else 1)
same_change r = ground arith

module _ {Fl F : Type 0} where
  -- Whether the rate is another one.
  abbrev pub change : (s t : Bbr2 Fl F) → ℕ
  change s t = if t.pacing_rate == s.pacing_rate then 0 else 1

  -- What a call tells of the rate.
  record Shows (s t : Bbr2 Fl F) (out : List Output) : Type 0 where
    observer : t.observer ≡ s.observer
    trace : t.trace_state ≡ s.trace_state
    traced :
        s.trace_state ≡ true → shown (whole_kbits s.pacing_rate) out ≡ whole_kbits t.pacing_rate
    heard : s.observer ≡ true → told out ≡ change s t

  unchanged : (s t : Bbr2 Fl F) → Follows s t → Shows s t []
  unchanged s t f = record {
    observer = f.observer;
    trace = f.trace;
    traced = λ e. rw f.rate refl;
    heard = λ e. rw f.rate (same_change s.pacing_rate);
  }

  report_rate-traced :
      (last : ℕ) (t : Bbr2 Fl F)
      → t.trace_state ≡ true
      → shown (whole_kbits last) (report_rate last t) ≡ whole_kbits t.pacing_rate
  unfolding report_rate
  report_rate-traced last t on = elim (Bool-cases (t.pacing_rate == last)) [
    | inl same ↦ rw same (ground (arith, same))
    | inr new ↦ elim (Bool-cases t.observer) [
      | inl there ↦ rw (new, on, there) refl
      | inr gone ↦ rw (new, on, gone) refl
    ]
  ]

  report_rate-heard :
      (last : ℕ) (t : Bbr2 Fl F)
      → t.observer ≡ true
      → told (report_rate last t) ≡ (if t.pacing_rate == last then 0 else 1)
  unfolding report_rate
  report_rate-heard last t on = elim (Bool-cases (t.pacing_rate == last)) [
    | inl same ↦ rw same refl
    | inr new ↦ elim (Bool-cases t.trace_state) [
      | inl there ↦ rw (new, on, there) refl
      | inr gone ↦ rw (new, on, gone) refl
    ]
  ]

module _ {Fl F : Type 0} (parts : Parts Fl F) where
  -- The new rate leaves who hears of it.
  abbrev Hears : Bbr2 Fl F → Option (Bbr2 Fl F) → Type 0
  Hears s none = Unit
  Hears s (some t) = (t.observer ≡ s.observer) × (t.trace_state ≡ s.trace_state)

  set_rate-Hears : (s : Bbr2 Fl F) → Hears s (set_rate parts s)
  unfolding set_rate increase_rate
  set_rate-Hears s =
      if-cases {A = Option (Bbr2 Fl F)} (Hears s) (is_increase s.mode) _ _
        (λ rises.
          if-cases {A = Option (Bbr2 Fl F)} (Hears s) (get_min_rtt parts s / 1000 == 0) _ _
            (λ e. tt) (λ e. (refl, refl)))
        (λ flat. (refl, refl))

  abbrev Tells : Bbr2 Fl F → Option (Bbr2 Fl F × List Output) → Type 0
  Tells s none = Unit
  Tells s (some (t, out)) = Shows s t out

  reported :
      (s x : Bbr2 Fl F) (r : Option (Bbr2 Fl F))
      → Follows s x
      → Hears x r
      → Tells s (elim r [ none ↦ none | some t ↦ some (t, report_rate x.pacing_rate t) ])
  reported s x none f h = tt
  reported s x (some t) f (observer, trace) =
      let by = observer ∙ f.observer in
      let on = trace ∙ f.trace in
      record {
        observer = by;
        trace = on;
        traced = λ e. rw (← f.rate) (report_rate-traced x.pacing_rate t (on ∙ e));
        heard = λ e. rw (← f.rate) (report_rate-heard x.pacing_rate t (by ∙ e));
      }

  rate-Tells : (s x : Bbr2 Fl F) → Follows s x → Tells s (calculate_pacing_rate parts x)
  unfolding calculate_pacing_rate
  rate-Tells s x f = reported s x (set_rate parts x) f (set_rate-Hears x)

  on_ack-Tells :
      (now packet_number : ℕ) (s : Bbr2 Fl F) → Tells s (on_ack parts now packet_number s)
  unfolding on_ack update_rtt
  on_ack-Tells now packet_number s =
      let (f, r, bw) = ack_flight parts.bandwidths now packet_number s.flight in
      let packet = find packet_number s.flight.sent_packets_map in
      let acked = record (learn_rtt parts now packet s) { flight = f } in
      let round = s.flight.round_trip_count in
      let learnt : Follows s acked = learn_rtt-Follows parts now packet f s in
      elim (Bool-cases (leb packet_number s.flight.last_ack_seq)) [
        | inl old ↦ rw old (unchanged s s (follows s))
        | inr new ↦ elim (Bool-cases (round == 0)) [
          | inl first ↦ rw (new, first) (rate-Tells s acked learnt)
          | inr later ↦
              rw (new, later)
                (rate-Tells s (after_sample parts now r bw round acked)
                  (Follows-trans learnt (after_sample-Follows parts now r bw round acked)))
        ]
      ]

  handle-Tells : (e : Event) (s : Bbr2 Fl F) → Tells s (handle parts e s)
  unfolding handle on_packet_sent
  handle-Tells (sent_event now packet_number bytes) s =
      unchanged s (on_packet_sent now packet_number bytes s)
        (record { rate = refl; observer = refl; trace = refl })
  handle-Tells (ack_event draw now packet_number) s = on_ack-Tells now packet_number s

  -- How many of the events change the rate.
  abbrev pub changes : List Event → Bbr2 Fl F → ℕ
  changes [] s = 0
  changes (e ∷ es) s = elim (handle parts e s) [
    | none ↦ 0
    | some (t, out) ↦ change s t + changes es t
  ]

  changes-next :
      (e : Event) (es : List Event) (s t : Bbr2 Fl F) (out : List Output)
      → handle parts e s ≡ some (t, out)
      → changes (e ∷ es) s ≡ change s t + changes es t
  changes-next e es s t out done = rw (changes, done) refl

  -- What a run tells of the rate, from a state to a state.
  abbrev pub Tracks : List Event → Bbr2 Fl F → Bbr2 Fl F → List Output → Type 0
  Tracks es s t out =
      (shown (whole_kbits s.pacing_rate) out ≡ whole_kbits t.pacing_rate)
      × (told out ≡ changes es s)

  -- The first call tells of its rate, and the calls after it of theirs.
  Tracks-next :
      (e : Event) (es : List Event) (s t u : Bbr2 Fl F) (out out' : List Output)
      → handle parts e s ≡ some (t, out)
      → s.trace_state ≡ true
      → s.observer ≡ true
      → Shows s t out
      → Tracks es t u out'
      → Tracks (e ∷ es) s u (out ++ out')
  Tracks-next e es s t u out out' done traced heard first (rest, more) = (
    shown-append (whole_kbits s.pacing_rate) out out' ∙ rw (first.traced traced) rest,
    omega (arith, told-append out out', first.heard heard, more, changes-next e es s t out done),
  )

  -- A controller that runs, with its trace and its observer set, over any sequence of packets
  -- that are sent and acknowledgements: the bytes sent do not wrap, only what was sent is
  -- acknowledged, and a packet in flight a millisecond or more after it was sent. Every call
  -- returns. The last rate that the trace shows, or the rate before the run where it shows
  -- none, is the rate that the controller has in the end, in whole kilobits per second; and the
  -- observer is told exactly as often as an event changes the rate.
  pub handle_all-Tracks :
      (es : List Event) (s : Bbr2 Fl F)
      → IsRunning parts s
      → AreAllowed (handle parts) (IsTimely parts) es s
      → s.trace_state ≡ true
      → s.observer ≡ true
      → Ensures (Tracks es s) (run (handle parts) es s)
  unfolding run
  handle_all-Tracks [] s v a traced heard = (refl, refl)
  handle_all-Tracks (e ∷ es) s v a traced heard =
      Ensures-then
        (λ t out.
          (Arrives parts s t × (handle parts e s ≡ some (t, out)))
          × AreAllowed (handle parts) (IsTimely parts) es t)
        (Tracks (e ∷ es) s) (handle parts e s) (run (handle parts) es)
        (Ensures-IfDone (λ t out. Arrives parts s t × (handle parts e s ≡ some (t, out)))
          (AreAllowed (handle parts) (IsTimely parts) es) (handle parts e s)
          (Ensures-eq (λ t out. Arrives parts s t) (handle parts e s)
            (handle-Arrives parts e s v a.0))
          a.1)
        (λ t out ((arrives, done), rest).
          let first : Shows s t out = rw done at (handle-Tells e s) in
          Ensures-map (Tracks es t) _ (run (handle parts) es t)
            (handle_all-Tracks es t arrives.0 rest (first.trace ∙ traced) (first.observer ∙ heard))
            (λ u out' tracks. Tracks-next e es s t u out out' done traced heard first tracks))
