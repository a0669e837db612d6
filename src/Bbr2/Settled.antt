-- ===== src/Bbr2/Settled.antt =====
-- The modes of ns3/mp-video/model/congestion/bbr_sender_v2.cc after an acknowledgement.
use mp_video_simulation.Bbr2.Reach.{
  Reaches, Reaches-same, is_start_lem, is_increase_lem, not_decrease,
}
use mp_video_simulation.Prelude.{
  &&_both, &&_right, lt_of_not_leb, ℕ, ◌+◌, ◌<◌, ◌≡◌, ◌∙◌, refl, subst, inl, Bool, false, Option,
  none, some, leb, ltb, ◌==◌, not, ◌||◌, ◌&&◌, if◌then◌else◌, if-cases,
}
use mp_video_simulation.Bbr2.State.{
  Mode, st_start, st_drain, st_decrease, Parts, Bbr2, even_gain, min_rtt_expiry,
}
use mp_video_simulation.Bbr2.Modes.{
  is_start, is_drain, is_increase, is_decrease, get_target_congestion_window,
  get_target_inflight_in_decrease, check_if_congestion, enter_increase_mode, exit_startup,
  exit_drain, maybe_exit_startup_or_drain, enter_decrease, leave_decrease, exit_decrease,
  maybe_enter_or_exit_decrease,
}
use mp_video_simulation.Bbr2.Acks.{end_round, after_sample}
use mp_video_simulation.Bbr2.Quiet.{
  IsPaced, IsQuiet, IsQuiet-IsPaced, end_round-IsQuiet, check_if_congestion-IsQuiet,
}

module _ {Fl F : Type 0} (parts : Parts Fl F) where
  -- What a controller that stays in START or DRAIN waits for has not come.
  record IsStarted (from : Mode) (t : Bbr2 Fl F) : Type 0 where
    paced : IsPaced parts t
    reached : Reaches from t.mode
    slow : t.mode ≡ st_start → t.is_at_full_bandwidth ≡ false

  -- The same of DRAIN and of DECREASE.
  pub record IsSettled (from : Mode) (t : Bbr2 Fl F) : Type 0 where
    pub paced : IsPaced parts t
    pub reached : Reaches from t.mode
    pub slow : t.mode ≡ st_start → t.is_at_full_bandwidth ≡ false
    pub draining :
        t.mode ≡ st_drain
        → get_target_congestion_window parts (even_gain parts) t < t.flight.bytes_in_flight
    pub falling :
        t.mode ≡ st_decrease
        → get_target_inflight_in_decrease parts (even_gain parts) t < t.flight.bytes_in_flight

  increase-IsSettled : (from : Mode) (s : Bbr2 Fl F) → IsSettled from (enter_increase_mode parts s)
  increase-IsSettled from s = record {
    paced = record { high = λ e. cc; low = λ e. cc; even = λ e. refl };
    reached = tt;
    slow = λ e. cc;
    draining = λ e. absurd (cc e);
    falling = λ e. absurd (cc e);
  }

  exit_startup-IsStarted :
      (s : Bbr2 Fl F) → IsPaced parts s → IsStarted s.mode (exit_startup parts s)
  unfolding exit_startup
  exit_startup-IsStarted s p =
      if-cases {A = Bbr2 Fl F} (IsStarted s.mode) (is_start s.mode && s.is_at_full_bandwidth) _ _
        (λ e. record {
          paced = record { high = λ d. absurd (cc d); low = λ d. refl; even = λ d. absurd (cc d) };
          reached =
              inl (is_start_lem s.mode (&&_both (is_start s.mode) s.is_at_full_bandwidth e).0);
          slow = λ d. absurd (cc d);
        })
        (λ e. record {
          paced = p;
          reached = Reaches-same s.mode;
          slow = λ d. &&_right (is_start s.mode) s.is_at_full_bandwidth e (rw d refl);
        })

  -- START and DRAIN wait; DECREASE has not been looked at.
  record IsDrained (from : Mode) (t : Bbr2 Fl F) : Type 0 where
    started : IsStarted from t
    draining :
        t.mode ≡ st_drain
        → get_target_congestion_window parts (even_gain parts) t < t.flight.bytes_in_flight

  IsSettled-IsDrained : (from : Mode) (t : Bbr2 Fl F) → IsSettled from t → IsDrained from t
  IsSettled-IsDrained from t v = record {
    started = record { paced = v.paced; reached = v.reached; slow = v.slow };
    draining = v.draining;
  }

  exit_drain-IsDrained :
      (from : Mode) (s : Bbr2 Fl F) → IsStarted from s → IsDrained from (exit_drain parts s)
  unfolding exit_drain
  exit_drain-IsDrained from s v =
      let target = get_target_congestion_window parts (even_gain parts) s in
      let fits = leb s.flight.bytes_in_flight target in
      if-cases {A = Bbr2 Fl F} (IsDrained from) (is_drain s.mode && fits) _ _
        (λ e. IsSettled-IsDrained from (enter_increase_mode parts s) (increase-IsSettled from s))
        (λ e. record {
          started = v;
          draining = λ d.
              let over : fits ≡ false = &&_right (is_drain s.mode) fits e (rw d refl) in
              lt_of_not_leb s.flight.bytes_in_flight target over;
        })

  -- The test for congestion, which is made in INCREASE only.
  abbrev checked : (round_update : Bool) → (bw round : ℕ) → Bbr2 Fl F → Bbr2 Fl F × Bool
  checked round_update bw round s =
      if is_increase s.mode && round_update
      then check_if_congestion parts bw round s
      else (s, false)

  checked-IsDrained :
      (from : Mode) (round_update : Bool) (bw round : ℕ) (s : Bbr2 Fl F)
      → IsDrained from s
      → IsDrained from (checked round_update bw round s).0
  checked-IsDrained from round_update bw round s v =
      if-cases {A = Bbr2 Fl F × Bool} (λ r. IsDrained from r.0) (is_increase s.mode && round_update)
        _ _
        (λ e.
          let mode = is_increase_lem s.mode (&&_both (is_increase s.mode) round_update e).0 in
          let quiet = check_if_congestion-IsQuiet parts bw round s in
          let now = quiet.0 ∙ mode in
          record {
            started = record {
              paced =
                  IsQuiet-IsPaced parts s (check_if_congestion parts bw round s).0 quiet
                    v.started.paced;
              reached = rw now tt;
              slow = λ d. absurd (cc (now, d));
            };
            draining = λ d. absurd (cc (now, d));
          })
        (λ e. v)

  enter_decrease-IsDrained :
      (from : Mode) (expired congested : Bool) (round : ℕ) (s : Bbr2 Fl F)
      → IsDrained from s
      → IsDrained from (enter_decrease parts expired congested round s)
  unfolding enter_decrease
  enter_decrease-IsDrained from expired congested round s v =
      if-cases {A = Bbr2 Fl F} (IsDrained from) (not (is_decrease s.mode) && (expired || congested))
        _ _
        (λ e. record {
          started = record {
            paced = record {
              high = λ d. absurd (cc d);
              low = λ d. absurd (cc d);
              even = λ d. absurd (cc d);
            };
            reached = tt;
            slow = λ d. absurd (cc d);
          };
          draining = λ d. absurd (cc d);
        })
        (λ e. v)

  leave_decrease-IsSettled :
      (from : Mode) (now : ℕ) (least : Option ℕ) (s : Bbr2 Fl F)
      → IsSettled from (leave_decrease parts now least s)
  unfolding leave_decrease
  leave_decrease-IsSettled from now none s =
      increase-IsSettled from (record s { min_rtt = s.min_rtt_record; min_rtt_timestamp = now })
  leave_decrease-IsSettled from now (some least) s =
      increase-IsSettled from
        (record s { min_rtt = least; min_rtt_timestamp = s.min_rtt_timestamp_in_decrease })

  exit_decrease-IsSettled :
      (from : Mode) (now : ℕ) (s : Bbr2 Fl F)
      → IsDrained from s
      → IsSettled from (exit_decrease parts now s)
  unfolding exit_decrease get_target_congestion_window get_target_inflight_in_decrease
  exit_decrease-IsSettled from now s v =
      let timed = record s {
        exit_probe_rtt_at = if s.exit_probe_rtt_at == 0 then now else s.exit_probe_rtt_at;
      } in
      let target = get_target_inflight_in_decrease parts (even_gain parts) s in
      let fits = leb s.flight.bytes_in_flight target in
      if-cases {A = Bbr2 Fl F} (IsSettled from) (not (is_decrease s.mode)) _ _
        (λ e. record {
          paced = v.started.paced;
          reached = v.started.reached;
          slow = v.started.slow;
          draining = v.draining;
          falling = λ d. absurd (not_decrease s.mode e d);
        })
        (λ e.
          if-cases {A = Bbr2 Fl F} (IsSettled from) fits _ _
            (λ d. leave_decrease-IsSettled from now s.min_rtt_in_decrease timed)
            (λ d. record {
              paced = record {
                high = v.started.paced.high;
                low = v.started.paced.low;
                even = v.started.paced.even;
              };
              reached = v.started.reached;
              slow = v.started.slow;
              draining = v.draining;
              falling = λ m. lt_of_not_leb s.flight.bytes_in_flight target d;
            }))

  pub after_sample-IsSettled :
      (now : ℕ) (round_update : Bool) (bw round : ℕ) (s : Bbr2 Fl F)
      → IsPaced parts s
      → IsSettled s.mode (after_sample parts now round_update bw round s)
  unfolding after_sample maybe_exit_startup_or_drain maybe_enter_or_exit_decrease
  after_sample-IsSettled now round_update bw round s p =
      let ended = if round_update then end_round parts bw round s else s in
      let quiet : IsQuiet parts s ended =
        if-cases {A = Bbr2 Fl F} (λ t. IsQuiet parts s t) round_update _ _
          (λ e. end_round-IsQuiet parts bw round s) (λ e. (refl, refl)) in
      let started = exit_startup-IsStarted ended (IsQuiet-IsPaced parts s ended quiet p) in
      let drained = exit_drain-IsDrained ended.mode (exit_startup parts ended) started in
      let open_s = exit_drain parts (exit_startup parts ended) in
      let tested = checked-IsDrained ended.mode round_update bw round open_s drained in
      let c = checked round_update bw round open_s in
      let entered =
        enter_decrease-IsDrained ended.mode (ltb (open_s.min_rtt_timestamp + min_rtt_expiry) now)
          c.1 round c.0 tested in
      subst (λ m. IsSettled m (after_sample parts now round_update bw round s)) quiet.0
        (exit_decrease-IsSettled ended.mode now
          (enter_decrease parts (ltb (open_s.min_rtt_timestamp + min_rtt_expiry) now) c.1 round c.0)
          entered)
