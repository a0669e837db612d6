-- ===== src/Bbr5/Settled.antt =====
-- The modes of ns3/mp-video/model/congestion/bbr_sender_v5.cc after an acknowledgement.
use mp_video_simulation.Prelude.{
  &&_both, &&_right, lt_of_not_leb, le_of_not_ltb, ℕ, ◌+◌, ◌<◌, ◌≤◌, ◌≡◌, refl, subst, inl, Bool,
  false, leb, ltb, ◌&&◌, if◌then◌else◌, arith, if-cases,
}
use mp_video_simulation.Bbr2.Flight.{Flight}
use mp_video_simulation.Bbr2.State.{
  Mode, st_start, st_drain, st_increase, Parts, startup_growth_target,
}
use mp_video_simulation.Bbr2.Modes.{is_start, is_drain, is_increase}
use mp_video_simulation.Bbr2.Reach.{Reaches, is_start_lem, is_increase_lem}
use mp_video_simulation.Bbr5.State.{Bbr5}
use mp_video_simulation.Bbr5.Modes.{
  get_target_congestion_window, update_max_bw, check_if_full_bandwidth_reached, enter_increase_mode,
  exit_startup, exit_drain, update_gain_cycle_phase,
}
use mp_video_simulation.Bbr5.Acks.{end_round, after_sample}
use mp_video_simulation.Bbr5.Rtt.{get_min_rtt}
use mp_video_simulation.Bbr5.Backoff.{IsPaced, Falls, Base, increase-HasGain}

module _ {Fl F : Type 0} (parts : Parts Fl F) where
  abbrev Backed : (from : Mode) → (f : Flight) → (now : ℕ) → Bbr5 Fl F → Type 0
  Backed from f now t = Base parts from f t × Falls parts now t

  check_full-Backed :
      (from : Mode) (f : Flight) (now : ℕ) (s : Bbr5 Fl F)
      → Backed from f now s
      → Backed from f now (check_if_full_bandwidth_reached parts s)
  unfolding check_if_full_bandwidth_reached
  check_full-Backed from f now s v =
      if-cases {A = Bbr5 Fl F} (λ t. Backed from f now t)
        (leb (parts.times (startup_growth_target parts) s.bandwidth_at_last_round)
          (parts.get_best s.max_bandwidth))
        _ _ (λ e. v) (λ e. v)

  end_round-Backed :
      (from : Mode) (f : Flight) (now bw round : ℕ) (s : Bbr5 Fl F)
      → Backed from f now s
      → Backed from f now (end_round parts bw round s)
  unfolding end_round update_max_bw
  end_round-Backed from f now bw round s v =
      let learnt = record s { max_bandwidth = parts.update bw round s.max_bandwidth } in
      let raised = if is_increase s.mode then update_max_bw parts learnt else learnt in
      let first : Backed from f now raised =
        if-cases {A = Bbr5 Fl F} (λ t. Backed from f now t) (is_increase s.mode) _ _ (λ e. v)
          (λ e. v) in
      if-cases {A = Bbr5 Fl F} (λ t. Backed from f now t) s.is_at_full_bandwidth raised
        (check_if_full_bandwidth_reached parts raised) (λ e. first)
        (λ e. check_full-Backed from f now raised first)

  -- What a controller that stays in START, DRAIN or DECREASE waits for has not come.
  pub record IsSettled (from : Mode) (f : Flight) (now : ℕ) (t : Bbr5 Fl F) : Type 0 where
    pub paced : IsPaced parts t
    pub reached : Reaches from t.mode
    pub flown : t.flight ≡ f
    pub slow : t.mode ≡ st_start → t.is_at_full_bandwidth ≡ false
    pub draining :
        t.mode ≡ st_drain → get_target_congestion_window parts t < t.flight.bytes_in_flight
    pub falling : Falls parts now t

  -- In INCREASE it waits for nothing.
  increase-IsSettled :
      (from : Mode) (f : Flight) (now : ℕ) (t : Bbr5 Fl F)
      → t.mode ≡ st_increase
      → IsPaced parts t
      → t.flight ≡ f
      → IsSettled from f now t
  increase-IsSettled from f now t m p fl = record {
    paced = p;
    flown = fl;
    reached = rw m tt;
    slow = λ e. absurd (cc (m, e));
    draining = λ e. absurd (cc (m, e));
    falling = λ e. absurd (cc (m, e));
  }

  exit_startup-Backed :
      (now : ℕ) (s : Bbr5 Fl F) (from : Mode) (f : Flight)
      → Backed from f now s
      → Backed from f now (exit_startup parts s)
        × ((exit_startup parts s).mode ≡ st_start
            → (exit_startup parts s).is_at_full_bandwidth ≡ false)
  unfolding exit_startup
  exit_startup-Backed now s from f v =
      let full = s.is_at_full_bandwidth in
      if-cases {A = Bbr5 Fl F}
        (λ t. Backed from f now t × (t.mode ≡ st_start → t.is_at_full_bandwidth ≡ false))
        (is_start s.mode && full) _ _
        (λ e.
          let start = is_start_lem s.mode (&&_both (is_start s.mode) full e).0 in
          let began : from ≡ st_start = subst (Reaches from) start v.0.1 in
          (
            (
              (
                record {
                  high = λ d. absurd (cc d);
                  low = λ d. refl;
                  cycling = λ d. absurd (cc d);
                  fallen = λ d. absurd (cc d);
                },
                inl began,
                v.0.2,
              ),
              λ d. absurd (cc d),
            ),
            λ d. absurd (cc d),
          ))
        (λ e. (v, λ d. &&_right (is_start s.mode) full e (rw d refl)))

  exit_drain-IsSettled :
      (from : Mode) (f : Flight) (draw now : ℕ) (s : Bbr5 Fl F)
      → Backed from f now s
      → (s.mode ≡ st_start → s.is_at_full_bandwidth ≡ false)
      → IsSettled from f now (exit_drain parts draw now s)
  unfolding exit_drain
  exit_drain-IsSettled from f draw now s v slow =
      let target = get_target_congestion_window parts s in
      let fits = leb s.flight.bytes_in_flight target in
      if-cases {A = Bbr5 Fl F} (IsSettled from f now) (is_drain s.mode && fits) _ _
        (λ e.
          increase-IsSettled from f now (enter_increase_mode parts draw now s) refl
            (increase-HasGain parts draw now s) v.0.2)
        (λ e. record {
          paced = v.0.0;
          reached = v.0.1;
          flown = v.0.2;
          slow = slow;
          draining = λ d.
              lt_of_not_leb s.flight.bytes_in_flight target
                (&&_right (is_drain s.mode) fits e (rw d refl));
          falling = v.1;
        })

  update_gain_cycle_phase-IsSettled :
      (from : Mode) (f : Flight) (now : ℕ) (s : Bbr5 Fl F)
      → s.mode ≡ st_increase
      → IsPaced parts s
      → s.flight ≡ f
      → IsSettled from f now (update_gain_cycle_phase parts now s)
  unfolding update_gain_cycle_phase
  update_gain_cycle_phase-IsSettled from f now s m p fl =
      if-cases {A = Bbr5 Fl F} (IsSettled from f now) (ltb (s.last_cycle_start + get_min_rtt s) now)
        _ _
        (λ e.
          increase-IsSettled from f now _ m
            (record {
              high = λ d. absurd (cc (m, d));
              low = λ d. absurd (cc (m, d));
              cycling = λ d. (omega arith, refl);
              fallen = λ d. absurd (cc (m, d));
            })
            fl)
        (λ e. increase-IsSettled from f now s m p fl)

  pub after_sample-IsSettled :
      (from : Mode) (f : Flight) (draw now : ℕ) (round_update : Bool) (bw round : ℕ) (s : Bbr5 Fl F)
      → Backed from f now s
      → IsSettled from f now (after_sample parts draw now round_update bw round s)
  unfolding after_sample
  after_sample-IsSettled from f draw now round_update bw round s v =
      let ended = if round_update then end_round parts bw round s else s in
      let known : Backed from f now ended =
        if-cases {A = Bbr5 Fl F} (λ t. Backed from f now t) round_update _ _
          (λ e. end_round-Backed from f now bw round s v) (λ e. v) in
      let opened = exit_startup-Backed now ended from f known in
      let started = exit_drain parts draw now (exit_startup parts ended) in
      let settled =
        exit_drain-IsSettled from f draw now (exit_startup parts ended) opened.0 opened.1 in
      if-cases {A = Bbr5 Fl F} (IsSettled from f now) (is_increase started.mode) _ _
        (λ e.
          update_gain_cycle_phase-IsSettled from f now started (is_increase_lem started.mode e)
            settled.paced settled.flown)
        (λ e. settled)

  -- The time of the gain in INCREASE is not over.
  abbrev pub Cycles : (now : ℕ) → Bbr5 Fl F → Type 0
  Cycles now t = t.mode ≡ st_increase → now ≤ t.last_cycle_start + get_min_rtt t

  pub after_sample-Cycles :
      (draw now : ℕ) (round_update : Bool) (bw round : ℕ) (s : Bbr5 Fl F)
      → Cycles now (after_sample parts draw now round_update bw round s)
  unfolding after_sample update_gain_cycle_phase
  after_sample-Cycles draw now round_update bw round s =
      let ended = if round_update then end_round parts bw round s else s in
      let started = exit_drain parts draw now (exit_startup parts ended) in
      let turns = ltb (started.last_cycle_start + get_min_rtt started) now in
      if-cases {A = Bbr5 Fl F} (Cycles now) (is_increase started.mode)
        (update_gain_cycle_phase parts now started) started
        (λ e.
          if-cases {A = Bbr5 Fl F} (Cycles now) turns _ started (λ d m. omega arith)
            (λ d m. le_of_not_ltb now (started.last_cycle_start + get_min_rtt started) d))
        (λ e m. absurd (cc (e, m)))
