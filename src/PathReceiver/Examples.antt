-- ===== src/PathReceiver/Examples.antt =====
-- Runs of the receiving end on concrete packets (ns3/mp-video/model/pathreceiver.cc).
use mp_video_simulation.Prelude.{
  ℕ, ◌+◌, ◌≡◌, ◌≤◌, refl, true, false, some, List, [], ◌∷◌, arith, length, All, ◌||◌, ◌==◌, not,
  ◌&&◌,
}
use mp_video_simulation.Prelude.OrderedSet
use mp_video_simulation.Prelude.OrderedSet.{contains}
use mp_video_simulation.Protocol.{Segment, Body, nack_num}
use mp_video_simulation.PathReceiver.Tables.{
  Tables, add_missing, remove_until, absorb, enter_packet, update_recv_table, is_stale,
}
use mp_video_simulation.PathReceiver.Tables.Prefix.{
  IsTight, received, update_recv_table_lem, is_stale-eq-received,
}
use mp_video_simulation.PathReceiver.Tables.Partition.{
  IsPartitioned, is_missing, enter_packet-IsPartitioned,
}
use mp_video_simulation.PathReceiver.Delays.{Delays}
use mp_video_simulation.PathReceiver.Ack.{make_ack, make_ack_sound, make_ack_complete}
use mp_video_simulation.PathReceiver.State.{PathReceiver, init}
use mp_video_simulation.PathReceiver.Handlers.{Arrival, whole, on_receive_segment}
use mp_video_simulation.PathReceiver.Handlers.Ensures.{Ensures}
use mp_video_simulation.PathReceiver.Handlers.Quiet.{IsReady}
use mp_video_simulation.PathReceiver.Handlers.Reception.{Handled, on_receive_segment-IsReady}
use mp_video_simulation.Prelude.Runs.{run}
use mp_video_simulation.PathReceiver.Handlers.Runs.{
  Event, message_event, consume_event, timer_event, stop_event, handle, handle_all-IsReady,
}

-- Packets 1 to 3, 5, 7 and 8 have come in.
abbrev gaps : Tables
gaps = record { base_seq = 3; max_seq = 8; loss = 4 ∷ 6 ∷ []; recv_table = 5 ∷ 7 ∷ 8 ∷ [] }

gaps-IsPartitioned : IsPartitioned gaps
gaps-IsPartitioned = record {
  tight = record { base_id = omega arith; keys_id = omega arith; keys_above = omega arith };
  max_id = omega arith;
  loss_sorted = omega arith;
  loss_missing = λ n. ground arith;
  received_le = λ n. ground arith;
}

gap_filled :
    enter_packet 4 0 gaps
    ≡ record { base_seq = 5; max_seq = 8; loss = 6 ∷ []; recv_table = 7 ∷ 8 ∷ [] }
unfolding enter_packet add_missing remove_until absorb OrderedSet.insert OrderedSet.erase
gap_filled = refl

update_recv_table_lem_example :
    IsTight (update_recv_table 4 gaps)
    × ((n : ℕ) → received (update_recv_table 4 gaps) n ≡ (4 == n) || received gaps n)
update_recv_table_lem_example = update_recv_table_lem 4 gaps (omega arith) gaps-IsPartitioned.tight

is_stale-eq-received_example : is_stale 3 gaps ≡ (received gaps 3 && not (3 == 3))
is_stale-eq-received_example = is_stale-eq-received 3 gaps gaps-IsPartitioned.tight

enter_packet-IsPartitioned_example : IsPartitioned (enter_packet 11 2 gaps)
enter_packet-IsPartitioned_example =
    enter_packet-IsPartitioned 11 2 gaps (omega arith) gaps-IsPartitioned

abbrev measured : Delays
measured = record {
  rtt = 40;
  sum_rtt = 90;
  max_rtt = 50;
  rtt_num = 2;
  rtt_var = 12;
  rtt_update_ts = 1000;
  ping_resend = 1;
}

make_ack_sound_example :
    ((make_ack 8 gaps).base_packet_id ≡ 3)
    × ((make_ack 8 gaps).acked_packet_id ≡ 8)
    × (length (make_ack 8 gaps).nack ≤ nack_num)
    × All (λ m. is_missing gaps (3 + m) ≡ true) (make_ack 8 gaps).nack
make_ack_sound_example = make_ack_sound 8 gaps gaps-IsPartitioned (omega arith)

make_ack_complete_example : contains (make_ack 8 gaps).nack 1 ≡ is_missing gaps (3 + 1)
make_ack_complete_example =
    make_ack_complete 8 gaps gaps-IsPartitioned (omega arith) (omega arith) 1

nacks_named : (make_ack 8 gaps).nack ≡ 1 ∷ 3 ∷ []
unfolding make_ack
nacks_named = refl

-- A path that is set up, before its first segment.
abbrev ready : PathReceiver
unfolding init
ready = record (init 0 0) { bound = true; receiver_uid = some 77; tables = gaps; pid = 1 }

ready-IsReady : IsReady ready
unfolding init
ready-IsReady = record {
  partitioned = gaps-IsPartitioned;
  uid = 77;
  registered = refl;
  started = λ e. cc;
}

abbrev video : Segment
video = record {
  packet_id = 9;
  fid = 4;
  timestamp = 120;
  index = 0;
  total = 2;
  ftype = 0;
  payload_type = 0;
  remb = 1;
  send_ts = 3;
  transport_seq = 9;
  data_size = 1000;
  bytes = [];
}

abbrev at_500 : Arrival
at_500 = record { addr = 5; now = 500; rtc_now = 500; lost = false }

on_receive_segment-IsReady_example :
    Ensures (Handled video ready) (on_receive_segment 77 video 500 false ready)
on_receive_segment-IsReady_example =
    on_receive_segment-IsReady 77 video 500 false ready ready-IsReady (omega arith)

-- A segment, a packet that is given up, a beat and the stop.
abbrev exchange : List Event
exchange =
    message_event (whole (record { ver = 1; uid = 77; body = Body.seg video })) at_500
    ∷ consume_event 6
    ∷ timer_event 600
    ∷ stop_event
    ∷ []

handle_all-IsReady_example : Ensures (λ s out. IsReady s) (run handle exchange ready)
unfolding handle ready
handle_all-IsReady_example =
    handle_all-IsReady exchange ready ready-IsReady (omega arith, (omega arith, (tt, (tt, tt))))
