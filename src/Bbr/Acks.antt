-- ===== src/Bbr/Acks.antt =====
-- An acknowledgement keeps ns3/mp-video/model/congestion/bbr_sender_v1.cc in a phase of its cycle.
use mp_video_simulation.Prelude.{
  ℕ, ◌+◌, ◌<◌, ◌≤◌, ◌≡◌, ◌-◌, refl, Bool, true, false, Option, none, some, leb, ltb, ◌==◌, ◌||◌,
  ◌&&◌, arith, Returns, if-cases,
}
use mp_video_simulation.Prelude.OrderedMap.{find}
use mp_video_simulation.Bbr.State.{start_up, probe_rtt, Parts, Bbr}
use mp_video_simulation.Bbr.Modes.{
  set_exit, set_probe_rtt, enter_probe_rtt, has_sampled_last_min_rtt, min_rtt_expiry,
  leave_probe_rtt, end_probe_rtt, exit_probe_rtt, maybe_enter_or_exit_probe_rtt,
}
use mp_video_simulation.Bbr.Rates.{
  start_probing, turn_cycle, learn_rtt, begin_ack, update_rtt, take_rtt,
}
use mp_video_simulation.Bbr.Gains.{
  gain_of, Gained, Mode-cases, Settled, Probes-Settled, start_probing-Starts, turn_cycle-Starts,
  leave_probe_rtt-Probes,
}

not_over_le : (now exit : ℕ) (sampled : Bool) → ltb exit now || sampled ≡ false → now ≤ exit
not_over_le now exit sampled e = ground arith

module _ {F C : Type 0} (parts : Parts F) where
  enter_probe_rtt-Gained :
      (expired : Bool) (s : Bbr F C) → Gained s → Gained (enter_probe_rtt parts expired s)
  unfolding enter_probe_rtt gain_of
  enter_probe_rtt-Gained false s g = g
  enter_probe_rtt-Gained true s g =
      let set : Gained (set_probe_rtt parts s) = record { in_cycle = g.in_cycle; due = refl } in
      Mode-cases Gained (set_probe_rtt parts s) (set_probe_rtt parts s) (set_probe_rtt parts s) s
        (set_probe_rtt parts s) s.mode (λ e. set) (λ e. set) (λ e. set) (λ e. g) (λ e. set)

  enter_probe_rtt_started :
      (expired : Bool) (s : Bbr F C)
      → (s.mode ≡ start_up → ⊥)
      → (enter_probe_rtt parts expired s).mode ≡ start_up
      → ⊥
  unfolding enter_probe_rtt
  enter_probe_rtt_started false s started = started
  enter_probe_rtt_started true s started =
      Mode-cases (λ t. t.mode ≡ start_up → ⊥) (set_probe_rtt parts s) (set_probe_rtt parts s)
        (set_probe_rtt parts s) s (set_probe_rtt parts s) s.mode (λ e d. cc) (λ e d. cc) (λ e d. cc)
        (λ e. started) (λ e d. cc)

  -- A sample of the round trip leaves the phase, the gain and the mode.
  take_rtt-Gained : (now rtt : ℕ) (s : Bbr F C) → Gained s → Gained (take_rtt parts now rtt s)
  unfolding take_rtt
  take_rtt-Gained now rtt s g =
      if-cases {A = Bbr F C} (λ t. Gained t) ((s.min_rtt == 0) || ltb rtt s.min_rtt) _ _ (λ e. g)
        (λ e.
          if-cases {A = Bbr F C} (λ t. Gained t)
            (ltb s.min_rtt rtt && leb rtt (parts.similar s.min_rtt)) _ _ (λ d. g) (λ d. g))

  learn_rtt-Gained :
      (now : ℕ) (sent : Option ℕ) (s : Bbr F C) → Gained s → Gained (learn_rtt parts now sent s)
  unfolding learn_rtt
  learn_rtt-Gained now none s g = g
  learn_rtt-Gained now (some sent) s g = take_rtt-Gained now (now - sent) s g

  update_rtt-Gained :
      (now packet_number : ℕ) (s : Bbr F C)
      → Gained s
      → Gained (update_rtt parts now packet_number s)
  unfolding update_rtt
  update_rtt-Gained now packet_number s g =
      learn_rtt-Gained now (find packet_number s.seq_ts_map) s g

  end_probe_rtt-Settled :
      (random now : ℕ) (s : Bbr F C)
      → Gained s
      → (s.mode ≡ probe_rtt)
      → Settled now (end_probe_rtt parts random now s)
  unfolding end_probe_rtt
  end_probe_rtt-Settled random now s g m =
      let left = leave_probe_rtt random now s in
      let ends = ltb s.exit_probe_rtt_at now || has_sampled_last_min_rtt parts s in
      if-cases {A = Bbr F C} (Settled now) ends _ _
        (λ e. Probes-Settled now left (leave_probe_rtt-Probes random now s g))
        (λ e. (
          g,
          (λ d. not_over_le now s.exit_probe_rtt_at (has_sampled_last_min_rtt parts s) e),
          (λ d. cc (m, d)),
        ))

  exit_probe_rtt-Settled :
      (random now : ℕ) (s : Bbr F C)
      → Gained s
      → (s.mode ≡ start_up → ⊥)
      → Settled now (exit_probe_rtt parts random now s)
  unfolding exit_probe_rtt
  exit_probe_rtt-Settled random now s g started =
      Mode-cases (Settled now) s s s (end_probe_rtt parts random now (set_exit now s)) s s.mode
        (λ e. absurd (started e)) (λ e. (g, (λ d. cc), (λ d. cc))) (λ e. (g, (λ d. cc), (λ d. cc)))
        (λ e. end_probe_rtt-Settled random now (set_exit now s) g e)
        (λ e. (g, (λ d. cc), (λ d. cc)))

  maybe_enter_or_exit_probe_rtt-Settled :
      (random now : ℕ) (expired : Bool) (s : Bbr F C)
      → Gained s
      → (s.mode ≡ start_up → ⊥)
      → Settled now (maybe_enter_or_exit_probe_rtt parts random now expired s)
  unfolding maybe_enter_or_exit_probe_rtt
  maybe_enter_or_exit_probe_rtt-Settled random now expired s g started =
      exit_probe_rtt-Settled random now (enter_probe_rtt parts expired s)
        (enter_probe_rtt-Gained expired s g) (enter_probe_rtt_started expired s started)

  -- On an acknowledgement that is newer than the last one, a controller in a phase of the gain
  -- cycle, whose gain is the one of its mode and phase, updates its round trips and its mode
  -- and is in such a phase again; it is not in START_UP any more, and if it is in PROBE_RTT,
  -- then until a time that is not over.
  pub begin_ack-Settled :
      (random now packet_number : ℕ) (s : Bbr F C)
      → Gained s
      → s.last_ack_seq < packet_number
      → Returns (Settled now) (begin_ack parts random now packet_number s)
  unfolding begin_ack
  begin_ack-Settled random now packet_number s g newer =
      let fresh : leb packet_number s.last_ack_seq ≡ false = ground arith in
      let updated =
        update_rtt parts now packet_number (record s { last_ack_seq = packet_number }) in
      let known =
        update_rtt-Gained now packet_number (record s { last_ack_seq = packet_number }) g in
      let started = start_probing-Starts now updated known in
      let turned = turn_cycle-Starts now (start_probing now updated) started in
      rw fresh (
        maybe_enter_or_exit_probe_rtt-Settled random now
          (ltb ((turn_cycle now (start_probing now updated)).min_rtt_timestamp + min_rtt_expiry)
            now)
          (turn_cycle now (start_probing now updated)) turned.0 turned.1)
