-- ===== src/V1/PathSender/Runs.antt =====
-- A sending end of ns3/mp-video/model/path_sender_v1.cc over a run of events.
use mp_video_simulation.Prelude.{ℕ, ◌+◌, ◌<◌, u64_mod, refl, true, List, arith}
use mp_video_simulation.Prelude.Calls.{Ensures}
use mp_video_simulation.Prelude.Runs.{run, AreAllowed, run-Keeps}
use mp_video_simulation.V1.Wire.{QuicData}
use mp_video_simulation.V1.Doubles.{Doubles}
use mp_video_simulation.V1.PathSender.State.{PathSender, init}
use mp_video_simulation.V1.PathSender.Queue.Accounts.{IsSender}
use mp_video_simulation.V1.PathSender.Invariant.{Event, Sensible, handle, handle-IsSender}

-- A sender that its upper layer is given.
pub fresh-IsSender :
    (min_bps max_bps : ℕ) → IsSender (record (init min_bps max_bps) { mpsender = true })
fresh-IsSender min_bps max_bps = record {
  registered = refl;
  resent = tt;
  queued = tt;
  counted = refl;
  above = tt;
  below = tt;
  received = omega arith;
}

-- The event makes sense, and the numbers do not run out.
abbrev pub IsTimely : Event → PathSender → Type 0
IsTimely e s = (s.seq + 1 < u64_mod) × Sensible e s

module _ (q : QuicData) (min_seq_length : ℕ → ℕ) (fl : Doubles) where
  -- A sender with its upper layer set, whose packets in the queues can be sent and are counted
  -- in the pending bytes, and whose numbers in flight lie between the last one acknowledged and
  -- the next one, is such a sender after any sequence of events, and every call returns:
  -- packets that can be sent, beats whatever the pacer says, acknowledgements of numbers that
  -- were sent by then, other messages, new rates, starts and stops, as long as the numbers stay
  -- below 2 ^ 64 - 1.
  pub handle_all-IsSender :
      (es : List Event) (s : PathSender)
      → IsSender s
      → AreAllowed (handle q min_seq_length fl) IsTimely es s
      → Ensures (λ s' out. IsSender s') (run (handle q min_seq_length fl) es s)
  handle_all-IsSender =
      run-Keeps (handle q min_seq_length fl) IsTimely IsSender
        (λ e s v a. handle-IsSender q min_seq_length fl e s a.0 a.1 v)
