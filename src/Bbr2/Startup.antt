-- ===== src/Bbr2/Startup.antt =====
-- How ns3/mp-video/model/congestion/bbr_sender_v2.cc ends its start.
use mp_video_simulation.Prelude.{
  ℕ, ◌+◌, ◌≤◌, ◌<◌, ◌≡◌, refl, Bool, true, false, List, [], ◌∷◌, leb, ◌||◌, if◌then◌else◌, arith,
  length, add64, if-cases, inl, inr, ◌⊎◌,
}
use mp_video_simulation.Bbr2.State.{Parts, Bbr2, startup_growth_target}
use mp_video_simulation.Bbr2.Modes.{is_increase, update_max_bw, check_if_full_bandwidth_reached}
use mp_video_simulation.Bbr2.Acks.{end_round}

not_leb : (target best : ℕ) → best < target → leb target best ≡ true → ⊥
not_leb target best h e = ground arith

-- The third round without growth ends the start.
end_of_start :
    (n rounds : ℕ) (full : Bool)
    → rounds ≡ n
    → full ≡ false
    → ((leb 3 rounds || full) ≡ true) ⊎ (((leb 3 rounds || full) ≡ false) × (rounds ≡ n) × (n < 3))
end_of_start n rounds full same e = ground arith

module _ {Fl F : Type 0} (parts : Parts Fl F) where
  -- Rounds one after another, each with its bandwidth and its number.
  abbrev pub end_rounds : List (ℕ × ℕ) → Bbr2 Fl F → Bbr2 Fl F
  end_rounds [] s = s
  end_rounds ((bw, round) ∷ rounds) s = end_rounds rounds (end_round parts bw round s)

  -- The estimate stays below the target that a growth would need.
  abbrev pub Stalls : (target : ℕ) → List (ℕ × ℕ) → F → Type 0
  Stalls target [] filter = Unit
  Stalls target ((bw, round) ∷ rounds) filter =
      let next = parts.update bw round filter in
      (parts.get_best next < target) × Stalls target rounds next

  -- What of a state the end of START depends on.
  abbrev target_of : Bbr2 Fl F → ℕ
  target_of s = parts.times (startup_growth_target parts) s.bandwidth_at_last_round

  record Stalled (bw round : ℕ) (s t : Bbr2 Fl F) : Type 0 where
    filter : t.max_bandwidth ≡ parts.update bw round s.max_bandwidth
    last : t.bandwidth_at_last_round ≡ s.bandwidth_at_last_round
    full :
        (t.is_at_full_bandwidth ≡ true)
        ⊎ ((t.is_at_full_bandwidth ≡ false)
            × (t.rounds_without_bandwidth_gain ≡ s.rounds_without_bandwidth_gain + 1)
            × (s.rounds_without_bandwidth_gain + 1 < 3))

  end_round_full :
      (bw round : ℕ) (s : Bbr2 Fl F)
      → s.is_at_full_bandwidth ≡ true
      → (end_round parts bw round s).is_at_full_bandwidth ≡ true
  unfolding end_round update_max_bw
  end_round_full bw round s full =
      let learnt = record s { max_bandwidth = parts.update bw round s.max_bandwidth } in
      if-cases {A = Bbr2 Fl F} (λ t. t.is_at_full_bandwidth ≡ true) s.is_at_full_bandwidth _ _
        (λ e.
          if-cases {A = Bbr2 Fl F} (λ t. t.is_at_full_bandwidth ≡ true) (is_increase s.mode) _ _
            (λ d. full) (λ d. full))
        (λ e. absurd (cc (e, full)))

  check_if_full-Stalled :
      (bw round : ℕ) (s t : Bbr2 Fl F)
      → s.rounds_without_bandwidth_gain < 3
      → parts.get_best (parts.update bw round s.max_bandwidth) < target_of s
      → t.max_bandwidth ≡ parts.update bw round s.max_bandwidth
      → t.bandwidth_at_last_round ≡ s.bandwidth_at_last_round
      → t.rounds_without_bandwidth_gain ≡ s.rounds_without_bandwidth_gain
      → t.is_at_full_bandwidth ≡ false
      → Stalled bw round s (check_if_full_bandwidth_reached parts t)
  unfolding check_if_full_bandwidth_reached
  check_if_full-Stalled bw round s t few below filter last count open_yet =
      let stays : parts.get_best t.max_bandwidth < target_of t = rw (filter, last) below in
      let rounds : add64 t.rounds_without_bandwidth_gain 1 ≡ s.rounds_without_bandwidth_gain + 1 =
        omega (arith, count) in
      if-cases {A = Bbr2 Fl F} (Stalled bw round s)
        (leb (target_of t) (parts.get_best t.max_bandwidth)) _ _
        (λ e. absurd (not_leb (target_of t) (parts.get_best t.max_bandwidth) stays e))
        (λ e. record {
          filter = filter;
          last = last;
          full =
              end_of_start (s.rounds_without_bandwidth_gain + 1)
                (add64 t.rounds_without_bandwidth_gain 1) t.is_at_full_bandwidth rounds open_yet;
        })

  end_round-Stalled :
      (bw round : ℕ) (s : Bbr2 Fl F)
      → s.rounds_without_bandwidth_gain < 3
      → parts.get_best (parts.update bw round s.max_bandwidth) < target_of s
      → Stalled bw round s (end_round parts bw round s)
  unfolding end_round update_max_bw
  end_round-Stalled bw round s few below =
      let learnt = record s { max_bandwidth = parts.update bw round s.max_bandwidth } in
      let raised = if is_increase s.mode then update_max_bw parts learnt else learnt in
      if-cases {A = Bbr2 Fl F} (Stalled bw round s) s.is_at_full_bandwidth _ _
        (λ e.
          if-cases {A = Bbr2 Fl F} (Stalled bw round s) (is_increase s.mode) _ _
            (λ d. record { filter = refl; last = refl; full = inl e })
            (λ d. record { filter = refl; last = refl; full = inl e }))
        (λ e.
          if-cases {A = Bbr2 Fl F}
            (λ t. Stalled bw round s (check_if_full_bandwidth_reached parts t)) (is_increase s.mode)
            _ _
            (λ d.
              check_if_full-Stalled bw round s (update_max_bw parts learnt) few below refl refl refl
                e)
            (λ d. check_if_full-Stalled bw round s learnt few below refl refl refl e))

  -- A round leaves the full bandwidth as found.
  end_rounds_full :
      (rounds : List (ℕ × ℕ)) (s : Bbr2 Fl F)
      → s.is_at_full_bandwidth ≡ true
      → (end_rounds rounds s).is_at_full_bandwidth ≡ true
  end_rounds_full [] s h = h
  end_rounds_full ((bw, round) ∷ rounds) s h =
      end_rounds_full rounds (end_round parts bw round s) (end_round_full bw round s h)

  -- Rounds one after another whose estimate stays below the target of growth, three of them
  -- with those that the controller has counted already, which are fewer: the full bandwidth,
  -- which ends START, is found.
  pub end_rounds_lem :
      (rounds : List (ℕ × ℕ)) (s : Bbr2 Fl F)
      → s.rounds_without_bandwidth_gain < 3
      → 3 ≤ s.rounds_without_bandwidth_gain + length rounds
      → Stalls
          (parts.times (startup_growth_target parts) s.bandwidth_at_last_round)
          rounds
          s.max_bandwidth
      → (end_rounds rounds s).is_at_full_bandwidth ≡ true
  end_rounds_lem [] s few enough stalls = absurd (omega (arith, few, enough))
  end_rounds_lem ((bw, round) ∷ rounds) s few enough (below, stalls) =
      let t = end_round parts bw round s in
      let next = end_round-Stalled bw round s few below in
      elim next.full [
        | inl full ↦ end_rounds_full rounds t full
        | inr (_, counted, fewer) ↦
            end_rounds_lem rounds t (omega (arith, counted, fewer)) (omega (arith, counted, enough))
              (rw (next.last, next.filter) stalls)
      ]
