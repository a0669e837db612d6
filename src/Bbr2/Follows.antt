-- ===== src/Bbr2/Follows.antt =====
-- What ns3/mp-video/model/congestion/bbr_sender_v2.cc leaves alone until it sets its rate.
use mp_video_simulation.Prelude.{
  ℕ, ◌+◌, ◌≡◌, ◌∙◌, refl, Bool, true, false, Option, none, some, ltb, ◌==◌, ◌&&◌, if◌then◌else◌,
  arith,
}
use mp_video_simulation.Bbr2.Flight.{PerPacket, Flight}
use mp_video_simulation.Bbr2.State.{Parts, Bbr2, min_rtt_expiry}
use mp_video_simulation.Bbr2.Modes.{
  is_increase, take_rtt, learn_rtt, update_max_bw, check_if_full_bandwidth_reached, weak_round,
  check_if_congestion, exit_startup, exit_drain, maybe_exit_startup_or_drain, enter_decrease,
  leave_decrease, exit_decrease, maybe_enter_or_exit_decrease,
}
use mp_video_simulation.Bbr2.Acks.{end_round, after_sample}

-- What of a state the report depends on, all but the new rate.
pub record Follows {Fl F : Type 0} (s t : Bbr2 Fl F) : Type 0 where
  pub rate : t.pacing_rate ≡ s.pacing_rate
  pub observer : t.observer ≡ s.observer
  pub trace : t.trace_state ≡ s.trace_state

module _ {Fl F : Type 0} where
  pub follows : (s : Bbr2 Fl F) → Follows s s
  follows s = record { rate = refl; observer = refl; trace = refl }

  pub Follows-trans : {s t u : Bbr2 Fl F} → Follows s t → Follows t u → Follows s u
  Follows-trans f g = record {
    rate = g.rate ∙ f.rate;
    observer = g.observer ∙ f.observer;
    trace = g.trace ∙ f.trace;
  }

  Follows-if :
      (b : Bool) (s t u : Bbr2 Fl F) → Follows s t → Follows s u → Follows s (if b then t else u)
  Follows-if true s t u f g = f
  Follows-if false s t u f g = g

  Follows-first :
      {X : Type 0} (b : Bool) (s : Bbr2 Fl F) (t u : Bbr2 Fl F × X)
      → Follows s t.0
      → Follows s u.0
      → Follows s (if b then t else u).0
  Follows-first true s t u f g = f
  Follows-first false s t u f g = g

module _ {Fl F : Type 0} (parts : Parts Fl F) where
  pub learn_rtt-Follows :
      (now : ℕ) (packet : Option PerPacket) (f : Flight) (s : Bbr2 Fl F)
      → Follows s (record (learn_rtt parts now packet s) { flight = f })
  unfolding learn_rtt take_rtt
  learn_rtt-Follows now none f s = record { rate = refl; observer = refl; trace = refl }
  learn_rtt-Follows now (some p) f s = record { rate = refl; observer = refl; trace = refl }

  full-Follows : (s : Bbr2 Fl F) → Follows s (check_if_full_bandwidth_reached parts s)
  unfolding check_if_full_bandwidth_reached
  full-Follows s = record { rate = ground arith; observer = ground arith; trace = ground arith }

  end_round-Follows : (bw round : ℕ) (s : Bbr2 Fl F) → Follows s (end_round parts bw round s)
  unfolding end_round update_max_bw
  end_round-Follows bw round s =
      let learnt = record s { max_bandwidth = parts.update bw round s.max_bandwidth } in
      let raised = if is_increase s.mode then update_max_bw parts learnt else learnt in
      let kept : Follows s raised =
        Follows-if (is_increase s.mode) s (update_max_bw parts learnt) learnt
          (record { rate = refl; observer = refl; trace = refl })
          (record { rate = refl; observer = refl; trace = refl }) in
      Follows-if s.is_at_full_bandwidth s raised (check_if_full_bandwidth_reached parts raised) kept
        (Follows-trans kept (full-Follows raised))

  exit_startup_or_drain-Follows : (s : Bbr2 Fl F) → Follows s (maybe_exit_startup_or_drain parts s)
  unfolding maybe_exit_startup_or_drain exit_startup exit_drain
  exit_startup_or_drain-Follows s = record {
    rate = ground arith;
    observer = ground arith;
    trace = ground arith;
  }

  weak_round-Follows : (bw round : ℕ) (s : Bbr2 Fl F) → Follows s (weak_round parts bw round s).0
  unfolding weak_round
  weak_round-Follows bw round s = record {
    rate = ground arith;
    observer = ground arith;
    trace = ground arith;
  }

  congestion-Follows :
      (bw round : ℕ) (s : Bbr2 Fl F) → Follows s (check_if_congestion parts bw round s).0
  unfolding check_if_congestion
  congestion-Follows bw round s =
      let weak = weak_round-Follows bw round s in
      record {
        rate = ground (arith, weak.rate);
        observer = ground (arith, weak.observer);
        trace = ground (arith, weak.trace);
      }

  leave_decrease-Follows :
      (now : ℕ) (least : Option ℕ) (s : Bbr2 Fl F) → Follows s (leave_decrease parts now least s)
  unfolding leave_decrease
  leave_decrease-Follows now none s = record { rate = refl; observer = refl; trace = refl }
  leave_decrease-Follows now (some least) s = record { rate = refl; observer = refl; trace = refl }

  exit_decrease-Follows : (now : ℕ) (s : Bbr2 Fl F) → Follows s (exit_decrease parts now s)
  unfolding exit_decrease
  exit_decrease-Follows now s =
      let timed = record s {
        exit_probe_rtt_at = if s.exit_probe_rtt_at == 0 then now else s.exit_probe_rtt_at;
      } in
      let left = leave_decrease-Follows now s.min_rtt_in_decrease timed in
      record {
        rate = ground (arith, left.rate);
        observer = ground (arith, left.observer);
        trace = ground (arith, left.trace);
      }

  decrease-Follows :
      (now : ℕ) (expired is_congested : Bool) (round : ℕ) (s : Bbr2 Fl F)
      → Follows s (maybe_enter_or_exit_decrease parts now expired is_congested round s)
  unfolding maybe_enter_or_exit_decrease enter_decrease
  decrease-Follows now expired is_congested round s =
      Follows-trans (record { rate = ground arith; observer = ground arith; trace = ground arith })
        (exit_decrease-Follows now (enter_decrease parts expired is_congested round s))

  pub after_sample-Follows :
      (now : ℕ) (round_update : Bool) (bw round : ℕ) (s : Bbr2 Fl F)
      → Follows s (after_sample parts now round_update bw round s)
  unfolding after_sample
  after_sample-Follows now round_update bw round s =
      let ended = if round_update then end_round parts bw round s else s in
      let started = maybe_exit_startup_or_drain parts ended in
      let checked =
        if is_increase started.mode && round_update
        then check_if_congestion parts bw round started
        else (started, false) in
      let to_start : Follows s started =
        Follows-trans
          (Follows-if round_update s (end_round parts bw round s) s (end_round-Follows bw round s)
            (follows s))
          (exit_startup_or_drain-Follows ended) in
      Follows-trans
        (Follows-trans to_start (
          Follows-first _ started (check_if_congestion parts bw round started) (started, false)
            (congestion-Follows bw round started) (follows started)))
        (decrease-Follows now (ltb (started.min_rtt_timestamp + min_rtt_expiry) now) checked.1 round
          checked.0)
