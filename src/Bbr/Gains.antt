-- ===== src/Bbr/Gains.antt =====
-- The gain of ns3/mp-video/model/congestion/bbr_sender_v1.cc follows the mode.
use mp_video_simulation.Prelude.{
  ℕ, ◌+◌, ◌%◌, ◌<◌, ◌≤◌, ◌≡◌, ◌∙◌, sym, refl, true, u32_mod, ◌==◌, if◌then◌else◌, arith, if-cases,
}
use mp_video_simulation.Bbr.State.{
  Mode, start_up, probe_ab, probe_bw, probe_rtt, insisit_phase, Gain, even, Bbr,
}
use mp_video_simulation.Bbr.Modes.{
  gain_cycle_length, set_probe_bw, set_probe_ab, set_insist, cycles, cycle_gain, pacing_gain_at,
  pacing_gain_2_at, enter_probe_bandwidth_mode, enter_fast_probe_mode, enter_insist_stable_mode,
  update_gain_cycle_phase, leave_probe_rtt,
}
use mp_video_simulation.Bbr.Rates.{start_probing, turn_cycle}

-- The gain that a mode has in a phase of the cycle.
unfoldable pub gain_of : Mode → ℕ → Gain
gain_of start_up i = even
gain_of probe_ab i = pacing_gain_2_at i
gain_of probe_bw i = pacing_gain_at i
gain_of probe_rtt i = even
gain_of insisit_phase i = even

-- A phase of the cycle, with the gain that is due in it.
pub record IsGained (mode : Mode) (offset : ℕ) (gain : Gain) : Type 0 where
  pub in_cycle : offset < gain_cycle_length
  pub due : gain ≡ gain_of mode offset

-- A result by cases on the mode.
pub Mode-cases :
    {A : Type 0} (P : A → Type 0) (a b c d e : A) (m : Mode)
    → (m ≡ start_up → P a)
    → (m ≡ probe_ab → P b)
    → (m ≡ probe_bw → P c)
    → (m ≡ probe_rtt → P d)
    → (m ≡ insisit_phase → P e)
    → P (elim m [ start_up ↦ a | probe_ab ↦ b | probe_bw ↦ c | probe_rtt ↦ d | insisit_phase ↦ e ])
Mode-cases P a b c d e start_up x0 x1 x2 x3 x4 = x0 refl
Mode-cases P a b c d e probe_ab x0 x1 x2 x3 x4 = x1 refl
Mode-cases P a b c d e probe_bw x0 x1 x2 x3 x4 = x2 refl
Mode-cases P a b c d e probe_rtt x0 x1 x2 x3 x4 = x3 refl
Mode-cases P a b c d e insisit_phase x0 x1 x2 x3 x4 = x4 refl

abbrev pub Gained : {F C : Type 0} → Bbr F C → Type 0
Gained s = IsGained s.mode s.cycle_current_offset s.pacing_gain

-- PROBE_RTT waits until a time that is not over.
abbrev pub Timely : {F C : Type 0} → (now : ℕ) → Bbr F C → Type 0
Timely now s = s.mode ≡ probe_rtt → now ≤ s.exit_probe_rtt_at

-- A phase with its gain, and not in PROBE_RTT.
abbrev pub Probes : {F C : Type 0} → Bbr F C → Type 0
Probes s = Gained s × (s.mode ≡ probe_rtt → ⊥) × (s.mode ≡ start_up → ⊥)

module _ {F C : Type 0} where
  set_probe_bw-Probes : (random now : ℕ) (s : Bbr F C) → Probes (set_probe_bw random now s)
  unfolding gain_of
  set_probe_bw-Probes random now s =
      (record { in_cycle = ground arith; due = refl }, (λ e. cc), (λ e. cc))

  set_probe_ab-Probes : (now : ℕ) (s : Bbr F C) → Probes (set_probe_ab now s)
  unfolding gain_of
  set_probe_ab-Probes now s = (record { in_cycle = omega arith; due = refl }, (λ e. cc), (λ e. cc))

  enter_probe_bandwidth_mode-Probes :
      (random now : ℕ) (s : Bbr F C) → Gained s → Probes (enter_probe_bandwidth_mode random now s)
  unfolding enter_probe_bandwidth_mode
  enter_probe_bandwidth_mode-Probes random now s g =
      let set = set_probe_bw-Probes random now s in
      Mode-cases Probes (set_probe_bw random now s) (set_probe_bw random now s) s
        (set_probe_bw random now s) (set_probe_bw random now s) s.mode (λ e. set) (λ e. set)
        (λ e. (g, (λ d. cc), (λ d. cc))) (λ e. set) (λ e. set)

  enter_fast_probe_mode-Probes :
      (now : ℕ) (s : Bbr F C) → Gained s → Probes (enter_fast_probe_mode now s)
  unfolding enter_fast_probe_mode
  enter_fast_probe_mode-Probes now s g =
      let set = set_probe_ab-Probes now s in
      Mode-cases Probes (set_probe_ab now s) s (set_probe_ab now s) (set_probe_ab now s)
        (set_probe_ab now s) s.mode (λ e. set) (λ e. (g, (λ d. cc), (λ d. cc))) (λ e. set)
        (λ e. set) (λ e. set)

  enter_insist_stable_mode-Gained :
      (now : ℕ) (s : Bbr F C) → Gained s → Gained (enter_insist_stable_mode now s)
  unfolding enter_insist_stable_mode gain_of
  enter_insist_stable_mode-Gained now s g =
      let set : Gained (set_insist now s) = record { in_cycle = omega arith; due = refl } in
      Mode-cases Gained (set_insist now s) (set_insist now s) (set_insist now s) (set_insist now s)
        s s.mode (λ e. set) (λ e. set) (λ e. set) (λ e. set) (λ e. g)

  -- A turn of the cycle stays in its mode.
  cycle_gain-Turns :
      (offset : ℕ) (s : Bbr F C)
      → offset < gain_cycle_length
      → (cycles s.mode ≡ true)
      → s.cycle_current_offset ≡ offset
      → Gained (cycle_gain offset s) × ((cycle_gain offset s).mode ≡ s.mode)
  unfolding gain_of cycles
  cycle_gain-Turns offset s h live e =
      Mode-cases (λ t. Gained t × (t.mode ≡ s.mode)) s
        (record s { pacing_gain = pacing_gain_2_at offset })
        (record s { pacing_gain = pacing_gain_at offset }) s
        (record s { ai_factor = (s.ai_factor + 1) % u32_mod; pacing_gain = even }) s.mode
        (λ m. absurd (cc (live, m)))
        (λ m. (record { in_cycle = rw e h; due = rw (m, e) refl }, refl))
        (λ m. (record { in_cycle = rw e h; due = rw (m, e) refl }, refl))
        (λ m. absurd (cc (live, m))) (λ m. (record { in_cycle = rw e h; due = rw m refl }, refl))

  update_gain_cycle_phase-Turns :
      (now : ℕ) (s : Bbr F C)
      → (cycles s.mode ≡ true)
      → Gained s
      → Gained (update_gain_cycle_phase now s) × ((update_gain_cycle_phase now s).mode ≡ s.mode)
  unfolding update_gain_cycle_phase
  update_gain_cycle_phase-Turns now s live g =
      let offset = (s.cycle_current_offset + 1) % gain_cycle_length in
      let turned = record s { cycle_current_offset = offset; last_cycle_start = now } in
      let turn = cycle_gain-Turns offset turned (omega arith) live refl in
      if-cases {A = Bbr F C} (λ t. Gained t × (t.mode ≡ s.mode)) _ _ _
        (λ e. (record { in_cycle = turn.0.in_cycle; due = turn.0.due }, turn.1)) (λ e. (g, refl))

  -- After the checks: a phase with its gain, or a wait whose end is ahead.
  abbrev pub Settled : (now : ℕ) → Bbr F C → Type 0
  Settled now s = Gained s × Timely now s × (s.mode ≡ start_up → ⊥)

  pub Probes-Settled : (now : ℕ) (s : Bbr F C) → Probes s → Settled now s
  Probes-Settled now s p = (p.0, (λ e. absurd (p.1 e)), p.2)

  pub leave_probe_rtt-Probes :
      (random now : ℕ) (s : Bbr F C) → Gained s → Probes (leave_probe_rtt random now s)
  unfolding leave_probe_rtt
  leave_probe_rtt-Probes random now s g =
      let cleared =
        record (if s.min_rtt == 0
          then record s { min_rtt = s.recored_min_rtt; min_rtt_timestamp = now }
          else s) { recored_min_rtt = 0 } in
      let known : Gained cleared =
        if-cases {A = Bbr F C} (λ t. Gained t) (s.min_rtt == 0) _ _ (λ e. g) (λ e. g) in
      if-cases {A = Bbr F C} Probes s.is_recover_effective _ _
        (λ e. enter_probe_bandwidth_mode-Probes random now cleared known)
        (λ e. enter_fast_probe_mode-Probes now cleared known)

  -- The first branch of `OnAck`: PROBE_AB in place of START_UP.
  abbrev pub Starts : Bbr F C → Type 0
  Starts s = Gained s × (s.mode ≡ start_up → ⊥)

  pub start_probing-Starts : (now : ℕ) (s : Bbr F C) → Gained s → Starts (start_probing now s)
  start_probing-Starts now s g =
      let p = enter_fast_probe_mode-Probes now s g in
      Mode-cases Starts (enter_fast_probe_mode now s) s s s s s.mode (λ e. (p.0, p.2))
        (λ e. (g, (λ d. cc))) (λ e. (g, (λ d. cc))) (λ e. (g, (λ d. cc))) (λ e. (g, (λ d. cc)))

  pub turn_cycle-Starts : (now : ℕ) (s : Bbr F C) → Starts s → Starts (turn_cycle now s)
  turn_cycle-Starts now s g =
      if-cases {A = Bbr F C} Starts (cycles s.mode) _ _
        (λ e. let t = update_gain_cycle_phase-Turns now s e g.0 in (t.0, (λ d. g.1 (sym t.1 ∙ d))))
        (λ e. g)
