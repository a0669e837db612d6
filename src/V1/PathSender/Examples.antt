-- ===== src/V1/PathSender/Examples.antt =====
-- Concrete inputs of the sending end of the second line.
use mp_video_simulation.Prelude.{refl, true, false, List, [], ◌∷◌, arith}
use mp_video_simulation.Prelude.Calls.{Ensures}
use mp_video_simulation.Prelude.Runs.{run}
use mp_video_simulation.V1.Samples.{quic, whole, packet}
use mp_video_simulation.V1.PathSender.State.{PathSender, init}
use mp_video_simulation.V1.PathSender.Queue.Accounts.{IsSender}
use mp_video_simulation.V1.PathSender.Acks.{on_ack}
use mp_video_simulation.V1.PathSender.Acks.Losses.{Settles, on_ack-Settles}
use mp_video_simulation.V1.PathSender.Handlers.{ack}
use mp_video_simulation.V1.PathSender.Invariant.{
  Event, video_event, timer_event, message_event, start_event, handle,
}
use mp_video_simulation.V1.PathSender.Runs.{fresh-IsSender, handle_all-IsSender}

-- Three numbers are in flight, one of them padding; a packet waits to be sent again and another to be sent.
abbrev sender : PathSender
unfolding packet
sender = record (init 100000 2000000) {
  mpsender = true;
  pid = 2;
  sending_queue = packet ∷ [];
  resending_queue = packet ∷ [];
  pending_bytes = 36;
  seq = 5;
  recv_seq = 1;
  seq_id_map = (2, 11) ∷ (3, 0) ∷ (4, 12) ∷ [];
  seq_delay_map = (2, 20) ∷ (3, 21) ∷ (4, 22) ∷ [];
}

on_ack-Settles_example : Settles 4 sender (on_ack 60 4 sender)
unfolding sender
on_ack-Settles_example =
    on_ack-Settles 60 4 sender refl (omega arith, (omega arith, (omega arith, tt))) (omega arith)

-- A sender that starts, gets a packet, sends it and hears of it.
abbrev exchange : List Event
unfolding packet
exchange =
    start_event
    ∷ video_event 20 7 packet false
    ∷ timer_event true true 500 25
    ∷ message_event 60 (ack 1)
    ∷ []

abbrev fresh : PathSender
fresh = record (init 100000 2000000) { mpsender = true }

handle_all-IsSender_example :
    Ensures (λ s' out. IsSender s') (run (handle quic (λ seq. 1) whole) exchange fresh)
unfolding exchange packet handle
handle_all-IsSender_example =
    handle_all-IsSender quic (λ seq. 1) whole exchange fresh (fresh-IsSender 100000 2000000)
      (
        (omega arith, tt),
        ((omega arith, omega arith), ((omega arith, tt), ((omega arith, omega arith), tt))),
      )
