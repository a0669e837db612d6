-- ===== src/Bbr2/Quiet.antt =====
-- What the tests of a round in ns3/mp-video/model/congestion/bbr_sender_v2.cc leave alone.
use mp_video_simulation.Prelude.{
  ℕ, ◌+◌, ◌≡◌, ◌∙◌, refl, sym, Bool, leb, ◌==◌, not, ◌||◌, if◌then◌else◌, if-cases,
}
use mp_video_simulation.Bbr2.State.{
  st_start, st_drain, st_increase, Parts, Bbr2, high_gain, drain_gain, even_gain,
  startup_growth_target, bandwidth_loss_factor, num_bw_decrease_rtts,
}
use mp_video_simulation.Bbr2.Modes.{
  is_increase, update_max_bw, check_if_full_bandwidth_reached, weak_round, check_if_congestion,
}
use mp_video_simulation.Bbr2.Acks.{end_round}

module _ {Fl F : Type 0} (parts : Parts Fl F) where
  -- The gain of a mode; in DECREASE it follows the loss.
  pub record IsPaced (t : Bbr2 Fl F) : Type 0 where
    pub high : t.mode ≡ st_start → t.pacing_gain ≡ high_gain parts
    pub low : t.mode ≡ st_drain → t.pacing_gain ≡ drain_gain parts
    pub even : t.mode ≡ st_increase → t.pacing_gain ≡ even_gain parts

  -- The tests of a round change neither the mode nor the gain.
  abbrev pub IsQuiet : Bbr2 Fl F → Bbr2 Fl F → Type 0
  IsQuiet s t = (t.mode ≡ s.mode) × (t.pacing_gain ≡ s.pacing_gain)

  pub IsQuiet-IsPaced : (s t : Bbr2 Fl F) → IsQuiet s t → IsPaced s → IsPaced t
  IsQuiet-IsPaced s t (m, g) p = record {
    high = λ e. g ∙ p.high (sym m ∙ e);
    low = λ e. g ∙ p.low (sym m ∙ e);
    even = λ e. g ∙ p.even (sym m ∙ e);
  }

  check_if_full-IsQuiet : (s : Bbr2 Fl F) → IsQuiet s (check_if_full_bandwidth_reached parts s)
  unfolding check_if_full_bandwidth_reached
  check_if_full-IsQuiet s =
      if-cases {A = Bbr2 Fl F} (λ t. IsQuiet s t)
        (leb (parts.times (startup_growth_target parts) s.bandwidth_at_last_round)
          (parts.get_best s.max_bandwidth))
        _ _ (λ e. (refl, refl)) (λ e. (refl, refl))

  pub end_round-IsQuiet : (bw round : ℕ) (s : Bbr2 Fl F) → IsQuiet s (end_round parts bw round s)
  unfolding end_round update_max_bw
  end_round-IsQuiet bw round s =
      let learnt = record s { max_bandwidth = parts.update bw round s.max_bandwidth } in
      let raised = if is_increase s.mode then update_max_bw parts learnt else learnt in
      let first : IsQuiet s raised =
        if-cases {A = Bbr2 Fl F} (λ t. IsQuiet s t) (is_increase s.mode) _ _ (λ e. (refl, refl))
          (λ e. (refl, refl)) in
      let full = check_if_full-IsQuiet raised in
      if-cases {A = Bbr2 Fl F} (λ t. IsQuiet s t) s.is_at_full_bandwidth _ _ (λ e. first)
        (λ e. (full.0 ∙ first.0, full.1 ∙ first.1))

  weak_round-IsQuiet : (bw round : ℕ) (s : Bbr2 Fl F) → IsQuiet s (weak_round parts bw round s).0
  unfolding weak_round
  weak_round-IsQuiet bw round s =
      if-cases {A = Bbr2 Fl F × Bool} (λ r. IsQuiet s r.0) (s.congestion_start_round == 0) _ _
        (λ e. (refl, refl))
        (λ e.
          if-cases {A = Bbr2 Fl F × Bool} (λ r. IsQuiet s r.0)
            (not (round == s.congestion_round_count + 1)) _ _ (λ e. (refl, refl))
            (λ e.
              if-cases {A = Bbr2 Fl F × Bool} (λ r. IsQuiet s r.0)
                (leb (s.congestion_start_round + num_bw_decrease_rtts) round) _ _
                (λ e. (refl, refl)) (λ e. (refl, refl))))

  pub check_if_congestion-IsQuiet :
      (bw round : ℕ) (s : Bbr2 Fl F) → IsQuiet s (check_if_congestion parts bw round s).0
  unfolding check_if_congestion
  check_if_congestion-IsQuiet bw round s =
      if-cases {A = Bbr2 Fl F × Bool} (λ r. IsQuiet s r.0)
        ((s.max_bw_in_increase == 0) || (s.sending_rate == 0)) _ _ (λ e. (refl, refl))
        (λ e.
          if-cases {A = Bbr2 Fl F × Bool} (λ r. IsQuiet s r.0)
            (leb bw (parts.times (bandwidth_loss_factor parts) s.sending_rate)) _ _
            (λ d. weak_round-IsQuiet bw round s) (λ d. (refl, refl)))
