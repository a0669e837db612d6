-- ===== src/Bbr5/Backoff.antt =====
-- What ns3/mp-video/model/congestion/bbr_sender_v5.cc waits for in DECREASE, and its gains.
use mp_video_simulation.Prelude.{
  ℕ, ◌+◌, ◌*◌, ◌<◌, ◌≤◌, ◌≡◌, ◌∙◌, refl, Bool-cases, Option-cases, inl, inr, Bool, true, false, leb,
  ltb, ◌==◌, not, ◌||◌, ◌&&◌, if◌then◌else◌, arith, if-cases,
}
use mp_video_simulation.Bbr2.Flight.{Flight}
use mp_video_simulation.Bbr2.State.{
  Mode, st_start, st_drain, st_increase, st_decrease, Parts, high_gain, drain_gain, min_rtt_expiry,
}
use mp_video_simulation.Bbr2.Modes.{is_increase, is_decrease}
use mp_video_simulation.Bbr2.Reach.{Reaches, Reaches-same, not_decrease}
use mp_video_simulation.Bbr5.State.{Bbr5, gain_cycle_length}
use mp_video_simulation.Bbr5.Modes.{
  pacing_gain_at, check_if_congestion, enter_increase_mode, enter_decrease, leave_decrease,
  renew_min_rtt, is_over, exit_decrease,
}
use mp_video_simulation.Bbr5.Acks.{back_off}

over_lem :
    (expired : Bool) (now end in_flight bdp : ℕ)
    → (expired && ltb end now) || leb in_flight bdp ≡ false
    → (bdp < in_flight) × (expired ≡ true → now ≤ end)
over_lem true now end in_flight bdp e = (ground (arith, e), λ h. ground (arith, e))
over_lem false now end in_flight bdp e = (ground (arith, e), λ h. absurd (cc h))

module _ {Fl F : Type 0} (parts : Parts Fl F) where
  -- The gain of a mode, and of the offset in INCREASE.
  pub record HasGain (mode : Mode) (offset : ℕ) (gain : Fl) : Type 0 where
    pub high : mode ≡ st_start → gain ≡ high_gain parts
    pub low : mode ≡ st_drain → gain ≡ drain_gain parts
    pub cycling :
        mode ≡ st_increase → (offset < gain_cycle_length) × (gain ≡ pacing_gain_at parts offset)
    pub fallen : mode ≡ st_decrease → gain ≡ parts.milli 750

  abbrev pub IsPaced : Bbr5 Fl F → Type 0
  IsPaced t = HasGain t.mode t.cycle_current_offset t.pacing_gain

  -- DECREASE waits: more is in flight than it drains, and if the minimum had expired, four of the
  -- recorded round trips are not over.
  abbrev pub Falls : (now : ℕ) → Bbr5 Fl F → Type 0
  Falls now t =
      t.mode ≡ st_decrease
      → (t.bdp < t.flight.bytes_in_flight)
        × (t.min_rtt_expired ≡ true → now ≤ t.exit_probe_rtt_at + 4 * t.min_rtt_record)

  abbrev pub Base : Mode → Flight → Bbr5 Fl F → Type 0
  Base from f t = IsPaced t × Reaches from t.mode × (t.flight ≡ f)

  pub increase-HasGain :
      (draw : ℕ) (now : ℕ) (s : Bbr5 Fl F) → IsPaced (enter_increase_mode parts draw now s)
  increase-HasGain draw now s = record {
    high = λ e. absurd (cc e);
    low = λ e. absurd (cc e);
    cycling = λ e. (ground arith, refl);
    fallen = λ e. absurd (cc e);
  }

  enter_decrease-Base :
      (from : Mode) (f : Flight) (expired congested : Bool) (round : ℕ) (s : Bbr5 Fl F)
      → Base from f s
      → Base from f (enter_decrease parts expired congested round s)
  unfolding enter_decrease
  enter_decrease-Base from f expired congested round s v =
      if-cases {A = Bbr5 Fl F} (λ t. Base from f t)
        (not (is_decrease s.mode) && (expired || congested)) _ _
        (λ e. (
          record {
            high = λ d. absurd (cc d);
            low = λ d. absurd (cc d);
            cycling = λ d. absurd (cc d);
            fallen = λ d. refl;
          },
          tt,
          v.2,
        ))
        (λ e. v)

  leave_decrease-flight :
      (draw now : ℕ) (s : Bbr5 Fl F) → (leave_decrease parts draw now s).flight ≡ s.flight
  unfolding leave_decrease renew_min_rtt
  leave_decrease-flight draw now s = elim (Bool-cases s.min_rtt_expired) [
    | inl late ↦ elim (Option-cases s.min_rtt_in_decrease) [
      | inl unset ↦ rw (late, unset) refl
      | inr (least, set) ↦ rw (late, set) refl
    ]
    | inr early ↦ rw early refl
  ]

  exit_decrease-Falls :
      (from : Mode) (f : Flight) (draw now : ℕ) (s : Bbr5 Fl F)
      → Base from f s
      → Base from f (exit_decrease parts draw now s) × Falls now (exit_decrease parts draw now s)
  unfolding exit_decrease leave_decrease
  exit_decrease-Falls from f draw now s v =
      let timed = record s {
        exit_probe_rtt_at = if s.exit_probe_rtt_at == 0 then now else s.exit_probe_rtt_at;
      } in
      if-cases {A = Bbr5 Fl F} (λ t. Base from f t × Falls now t) (not (is_decrease s.mode)) _ _
        (λ e. (v, λ d. absurd (not_decrease s.mode e d)))
        (λ e.
          if-cases {A = Bbr5 Fl F} (λ t. Base from f t × Falls now t) (is_over now timed) _ _
            (λ d. (
              (increase-HasGain draw now timed, tt, leave_decrease-flight draw now timed ∙ v.2),
              λ m. absurd (cc m),
            ))
            (λ d. (
              v,
              λ m.
                  over_lem s.min_rtt_expired now (timed.exit_probe_rtt_at + 4 * s.min_rtt_record)
                    s.flight.bytes_in_flight s.bdp d,
            )))

  pub back_off-Falls :
      (draw now packet_number round : ℕ) (s : Bbr5 Fl F)
      → IsPaced s
      → Base s.mode s.flight (back_off parts draw now packet_number round s)
        × Falls now (back_off parts draw now packet_number round s)
  unfolding back_off check_if_congestion
  back_off-Falls draw now packet_number round s p =
      let c =
        if is_increase s.mode then check_if_congestion parts packet_number s else (s, false) in
      let expired = ltb (s.min_rtt_timestamp + min_rtt_expiry) now in
      let checked : Base s.mode s.flight c.0 =
        if-cases {A = Bbr5 Fl F × Bool} (λ r. Base s.mode s.flight r.0) (is_increase s.mode) _ _
          (λ e. (p, Reaches-same s.mode, refl)) (λ e. (p, Reaches-same s.mode, refl)) in
      exit_decrease-Falls s.mode s.flight draw now (enter_decrease parts expired c.1 round c.0)
        (enter_decrease-Base s.mode s.flight expired c.1 round c.0 checked)
