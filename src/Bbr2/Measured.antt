-- ===== src/Bbr2/Measured.antt =====
-- When ns3/mp-video/model/congestion/bbr_sender_v2.cc can divide by its round trip.
use mp_video_simulation.Prelude.{
  ℕ, ◌+◌, ◌-◌, ◌≤◌, ◌≡◌, ◌⊎◌, refl, inr, Bool, false, Option, none, some, leb, ltb, ◌==◌, not, ◌||◌,
  ◌&&◌, if◌then◌else◌, if-cases,
}
use mp_video_simulation.Bbr2.Flight.{PerPacket, Flight}
use mp_video_simulation.Bbr2.State.{
  Parts, Bbr2, even_gain, min_rtt_expiry, startup_growth_target, bandwidth_loss_factor,
  num_bw_decrease_rtts,
}
use mp_video_simulation.Bbr2.Modes.{
  is_start, is_drain, is_increase, is_decrease, get_target_congestion_window,
  get_target_inflight_in_decrease, falls, take_rtt, learn_rtt, update_max_bw,
  check_if_full_bandwidth_reached, weak_round, check_if_congestion, exit_startup, exit_drain,
  maybe_exit_startup_or_drain, enter_decrease, leave_decrease, exit_decrease,
  maybe_enter_or_exit_decrease,
}
use mp_video_simulation.Bbr2.Acks.{end_round, after_sample}

-- A time that is not set, or at least a millisecond.
abbrev pub IsLong : ℕ → Type 0
IsLong rtt = (rtt ≡ 0) ⊎ (1000 ≤ rtt)

abbrev pub AreLong : Option ℕ → Type 0
AreLong none = Unit
AreLong (some rtt) = IsLong rtt

-- A controller's round trips, none of them shorter than a millisecond.
pub record AreMeasured (rtt recorded : ℕ) (fallen : Option ℕ) : Type 0 where
  pub least : IsLong rtt
  pub record_long : IsLong recorded
  pub fallen_long : AreLong fallen

abbrev pub IsMeasured : {Fl F : Type 0} → Bbr2 Fl F → Type 0
IsMeasured s = AreMeasured s.min_rtt s.min_rtt_record s.min_rtt_in_decrease

-- A state with the packets `f` and such round trips.
abbrev pub Keeps : {Fl F : Type 0} → Flight → Bbr2 Fl F → Type 0
Keeps f s = (s.flight ≡ f) × IsMeasured s

module _ {Fl F : Type 0} (parts : Parts Fl F) where
  take_rtt-IsMeasured :
      (now rtt : ℕ) (s : Bbr2 Fl F)
      → 1000 ≤ rtt
      → IsMeasured s
      → IsMeasured (take_rtt parts now rtt s)
  unfolding take_rtt
  take_rtt-IsMeasured now rtt s long v = record {
    least =
        if-cases {A = ℕ} IsLong ((s.min_rtt == 0) || ltb rtt s.min_rtt) _ _ (λ e. inr long)
          (λ e. v.least);
    record_long = v.record_long;
    fallen_long =
        if-cases {A = Option ℕ} AreLong (falls parts rtt s) (some rtt) _ (λ e. inr long)
          (λ e. v.fallen_long);
  }

  pub learn_rtt-IsMeasured :
      (now : ℕ) (packet : Option PerPacket) (s : Bbr2 Fl F)
      → ((p : PerPacket) → packet ≡ some p → 1000 ≤ now - p.sent_ts)
      → IsMeasured s
      → IsMeasured (learn_rtt parts now packet s)
  unfolding learn_rtt
  learn_rtt-IsMeasured now none s long v = v
  learn_rtt-IsMeasured now (some p) s long v =
      take_rtt-IsMeasured now (now - p.sent_ts) s (long p refl) v

module _ {Fl F : Type 0} (parts : Parts Fl F) (f : Flight) where
  end_round-Keeps :
      (bw round : ℕ) (s : Bbr2 Fl F) → Keeps f s → Keeps f (end_round parts bw round s)
  unfolding end_round update_max_bw check_if_full_bandwidth_reached
  end_round-Keeps bw round s v =
      let learnt = record s { max_bandwidth = parts.update bw round s.max_bandwidth } in
      let raised = if is_increase s.mode then update_max_bw parts learnt else learnt in
      let first : Keeps f raised =
        if-cases {A = Bbr2 Fl F} (λ t. Keeps f t) (is_increase s.mode) _ _ (λ e. v) (λ e. v) in
      let grows =
        leb (parts.times (startup_growth_target parts) raised.bandwidth_at_last_round)
          (parts.get_best raised.max_bandwidth) in
      if-cases {A = Bbr2 Fl F} (λ t. Keeps f t) s.is_at_full_bandwidth _ _ (λ e. first)
        (λ e. if-cases {A = Bbr2 Fl F} (λ t. Keeps f t) grows _ _ (λ d. first) (λ d. first))

  exit_startup-Keeps : (s : Bbr2 Fl F) → Keeps f s → Keeps f (exit_startup parts s)
  unfolding exit_startup
  exit_startup-Keeps s v =
      if-cases {A = Bbr2 Fl F} (λ t. Keeps f t) (is_start s.mode && s.is_at_full_bandwidth) _ _
        (λ e. v) (λ e. v)

  exit_drain-Keeps : (s : Bbr2 Fl F) → Keeps f s → Keeps f (exit_drain parts s)
  unfolding exit_drain
  exit_drain-Keeps s v =
      if-cases {A = Bbr2 Fl F} (λ t. Keeps f t)
        (is_drain s.mode
          && leb s.flight.bytes_in_flight (get_target_congestion_window parts (even_gain parts) s))
        _ _ (λ e. v) (λ e. v)

  weak_round-Keeps :
      (bw round : ℕ) (s : Bbr2 Fl F) → Keeps f s → Keeps f (weak_round parts bw round s).0
  unfolding weak_round
  weak_round-Keeps bw round s v =
      if-cases {A = Bbr2 Fl F × Bool} (λ r. Keeps f r.0) (s.congestion_start_round == 0) _ _
        (λ e. v)
        (λ e.
          if-cases {A = Bbr2 Fl F × Bool} (λ r. Keeps f r.0)
            (not (round == s.congestion_round_count + 1)) _ _ (λ e. v)
            (λ e.
              if-cases {A = Bbr2 Fl F × Bool} (λ r. Keeps f r.0)
                (leb (s.congestion_start_round + num_bw_decrease_rtts) round) _ _ (λ e. v)
                (λ e. v)))

  check_if_congestion-Keeps :
      (bw round : ℕ) (s : Bbr2 Fl F) → Keeps f s → Keeps f (check_if_congestion parts bw round s).0
  unfolding check_if_congestion
  check_if_congestion-Keeps bw round s v =
      if-cases {A = Bbr2 Fl F × Bool} (λ r. Keeps f r.0)
        ((s.max_bw_in_increase == 0) || (s.sending_rate == 0)) _ _ (λ e. v)
        (λ e.
          if-cases {A = Bbr2 Fl F × Bool} (λ r. Keeps f r.0)
            (leb bw (parts.times (bandwidth_loss_factor parts) s.sending_rate)) _ _
            (λ d. weak_round-Keeps bw round s v) (λ d. v))

  enter_decrease-Keeps :
      (expired congested : Bool) (round : ℕ) (s : Bbr2 Fl F)
      → Keeps f s
      → Keeps f (enter_decrease parts expired congested round s)
  unfolding enter_decrease
  enter_decrease-Keeps expired congested round s v =
      if-cases {A = Bbr2 Fl F} (λ t. Keeps f t) (not (is_decrease s.mode) && (expired || congested))
        _ _ (λ e. (v.0, record { least = v.1.least; record_long = v.1.least; fallen_long = tt }))
        (λ e. v)

  leave_decrease-Keeps :
      (now : ℕ) (least : Option ℕ) (s : Bbr2 Fl F)
      → AreLong least
      → Keeps f s
      → Keeps f (leave_decrease parts now least s)
  unfolding leave_decrease
  leave_decrease-Keeps now none s long v = (
    v.0,
    record {
      least = v.1.record_long;
      record_long = v.1.record_long;
      fallen_long = v.1.fallen_long;
    },
  )
  leave_decrease-Keeps now (some least) s long v =
      (v.0, record { least = long; record_long = v.1.record_long; fallen_long = v.1.fallen_long })

  exit_decrease-Keeps : (now : ℕ) (s : Bbr2 Fl F) → Keeps f s → Keeps f (exit_decrease parts now s)
  unfolding exit_decrease
  exit_decrease-Keeps now s v =
      let timed = record s {
        exit_probe_rtt_at = if s.exit_probe_rtt_at == 0 then now else s.exit_probe_rtt_at;
      } in
      let fits =
        leb s.flight.bytes_in_flight (get_target_inflight_in_decrease parts (even_gain parts) s) in
      if-cases {A = Bbr2 Fl F} (λ t. Keeps f t) (not (is_decrease s.mode)) _ _ (λ e. v)
        (λ e.
          if-cases {A = Bbr2 Fl F} (λ t. Keeps f t) fits _ _
            (λ d. leave_decrease-Keeps now s.min_rtt_in_decrease timed v.1.fallen_long v) (λ d. v))

  pub after_sample-Keeps :
      (now : ℕ) (round_update : Bool) (bw round : ℕ) (s : Bbr2 Fl F)
      → Keeps f s
      → Keeps f (after_sample parts now round_update bw round s)
  unfolding after_sample maybe_exit_startup_or_drain maybe_enter_or_exit_decrease
  after_sample-Keeps now round_update bw round s v =
      let ended = if round_update then end_round parts bw round s else s in
      let o = exit_drain parts (exit_startup parts ended) in
      let c =
        if is_increase o.mode && round_update
        then check_if_congestion parts bw round o
        else (o, false) in
      let expired = ltb (o.min_rtt_timestamp + min_rtt_expiry) now in
      let known : Keeps f ended =
        if-cases {A = Bbr2 Fl F} (λ t. Keeps f t) round_update _ _
          (λ e. end_round-Keeps bw round s v) (λ e. v) in
      let opened = exit_drain-Keeps (exit_startup parts ended) (exit_startup-Keeps ended known) in
      let tested : Keeps f c.0 =
        if-cases {A = Bbr2 Fl F × Bool} (λ r. Keeps f r.0) (is_increase o.mode && round_update) _ _
          (λ e. check_if_congestion-Keeps bw round o opened) (λ e. opened) in
      exit_decrease-Keeps now (enter_decrease parts expired c.1 round c.0)
        (enter_decrease-Keeps expired c.1 round c.0 tested)
