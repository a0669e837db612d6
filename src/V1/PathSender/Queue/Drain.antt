-- ===== src/V1/PathSender/Queue/Drain.antt =====
-- Every packet that waits in ns3/mp-video/model/path_sender_v1.cc is sent, in order.
use mp_video_simulation.Prelude.{
  ℕ, zero, suc, ◌+◌, ◌≡◌, true, false, Option, some, List, [], ◌∷◌, ◌++◌,
}
use mp_video_simulation.Prelude.Calls.{then_call}
use mp_video_simulation.V1.Wire.{QuicData, VideoPacketWrapper}
use mp_video_simulation.V1.Doubles.{Doubles}
use mp_video_simulation.V1.PathSender.State.{PathSender, Output}
use mp_video_simulation.V1.PathSender.Queue.{process_video_packet}
use mp_video_simulation.V1.PathSender.Queue.Accounts.{IsSender}
use mp_video_simulation.V1.PathSender.Queue.Traffic.{traffic, letters}
use mp_video_simulation.V1.PathSender.Queue.Turns.{queue}

-- The packets under consecutive numbers.
abbrev pub numbered : (seq : ℕ) → List VideoPacketWrapper → List (ℕ × ℕ)
numbered seq [] = []
numbered seq (p ∷ ps) = (seq, p.packet_id) ∷ numbered (seq + 1) ps

-- What a sender is after all of its packets left.
pub record Drains (q : QuicData) (min_seq_length : ℕ → ℕ) (now : ℕ) (s s' : PathSender)
    (out : List Output) : Type 0 where
  pub holds : IsSender s'
  pub empty : queue s' ≡ []
  pub sent : traffic out ≡ letters q min_seq_length now s.seq (queue s)
  pub flight : s'.seq_id_map ≡ s.seq_id_map ++ numbered s.seq (queue s)
  pub paid : s'.pending_bytes ≡ 0

module _ (q : QuicData) (min_seq_length : ℕ → ℕ) (fl : Doubles) where
  -- `n` turns that the pacer allows, a millisecond apart.
  abbrev pub turns : ℕ → (now : ℕ) → PathSender → Option (PathSender × List Output)
  turns zero now s = some (s, [])
  turns (suc n) now s =
      then_call (process_video_packet q min_seq_length fl true false now s) (turns n (now + 1))
