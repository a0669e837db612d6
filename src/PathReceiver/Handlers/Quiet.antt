-- ===== src/PathReceiver/Handlers/Quiet.antt =====
-- The calls of ns3/mp-video/model/pathreceiver.cc that leave the tables alone.
use mp_video_simulation.Prelude.{
  ℕ, ◌≡◌, ◌∙◌, ◌≢◌, Bool, false, Option, none, some, List, [], ◌++◌, arith,
}
use mp_video_simulation.Protocol.{Segment}
use mp_video_simulation.PathReceiver.Tables.Partition.{IsPartitioned}
use mp_video_simulation.PathReceiver.State.{PathReceiver, Controller, Output, ◌>>◌}
use mp_video_simulation.PathReceiver.Handlers.{
  check_ping, configure, first_call, report_packet, video_real_ack, trace_delay,
}
use mp_video_simulation.PathReceiver.Handlers.Ensures.{
  Ensures, Ensures-then, Ensures-if, delivered, delivered-append,
}

-- A call that leaves the tables and hands on nothing.
pub record IsQuiet (s s' : PathReceiver) (out : List Output) : Type 0 where
  pub tables_eq : s'.tables ≡ s.tables
  pub uid_eq : s'.receiver_uid ≡ s.receiver_uid
  pub stop_eq : s'.stop ≡ s.stop
  pub none_delivered : delivered out ≡ []
  pub controller_kept : s.controller ≢ Controller.absent → s'.controller ≢ Controller.absent

module _ (s : PathReceiver) (uid : ℕ) (h : s.receiver_uid ≡ some uid) where
  pub check_ping-IsQuiet : (now : ℕ) → Ensures (IsQuiet s) (check_ping now s)
  unfolding check_ping
  check_ping-IsQuiet now = ground arith

  pub configure-IsQuiet :
      Ensures (λ s' out. IsQuiet s s' out × (s'.controller ≢ Controller.absent)) (configure s)
  unfolding configure
  configure-IsQuiet = ground arith

  pub video_real_ack-IsQuiet : (hb seq now : ℕ) → Ensures (IsQuiet s) (video_real_ack hb seq now s)
  unfolding video_real_ack
  video_real_ack-IsQuiet hb seq now = ground arith

  pub trace_delay-IsQuiet : (now : ℕ) (seg : Segment) → Ensures (IsQuiet s) (trace_delay now seg s)
  unfolding trace_delay
  trace_delay-IsQuiet now seg = ground arith

  pub report_packet-IsQuiet :
      (now overhead ssrc seq : ℕ) (lost : Bool)
      → s.controller ≢ Controller.absent
      → Ensures (IsQuiet s) (report_packet now overhead ssrc seq lost s)
  unfolding report_packet
  report_packet-IsQuiet now overhead ssrc seq lost c = ground arith

pub IsQuiet-trans :
    (s s' s'' : PathReceiver) (out out' : List Output)
    → IsQuiet s s' out
    → IsQuiet s' s'' out'
    → IsQuiet s s'' (out ++ out')
IsQuiet-trans s s' s'' out out' p q = record {
  tables_eq = q.tables_eq ∙ p.tables_eq;
  uid_eq = q.uid_eq ∙ p.uid_eq;
  stop_eq = q.stop_eq ∙ p.stop_eq;
  none_delivered = rw (delivered-append out out', p.none_delivered) q.none_delivered;
  controller_kept = λ c. q.controller_kept (p.controller_kept c);
}

-- mpreceiver_ is set, and the first packet has brought a congestion controller.
pub record IsReady (s : PathReceiver) : Type 0 where
  pub partitioned : IsPartitioned s.tables
  pub uid : ℕ
  pub registered : s.receiver_uid ≡ some uid
  pub started : s.first_packet ≡ false → s.controller ≢ Controller.absent

abbrev pub IsStarted : PathReceiver → PathReceiver → List Output → Type 0
IsStarted s s' out = IsQuiet s s' out × (s'.controller ≢ Controller.absent)

pub weaken :
    (s s' : PathReceiver) (out : List Output)
    → IsStarted s s' out
    → (r : Option (PathReceiver × List Output)) → Ensures (IsQuiet s') r
    → Ensures (λ s'' out'. IsStarted s s'' (out ++ out')) r
weaken s s' out q none h = absurd h
weaken s s' out q (some (s'', out')) h =
    (IsQuiet-trans s s' s'' out out' q.0 h, h.controller_kept q.1)

pub first_call-IsQuiet :
    (now : ℕ) (s : PathReceiver) → IsReady s → Ensures (IsStarted s) (first_call now s)
unfolding first_call
first_call-IsQuiet now s v =
    Ensures-if (IsStarted s) s.first_packet _ _
      (λ _.
        Ensures-then (IsStarted s) (IsStarted s) ((configure >> check_ping now) s) _
          (Ensures-then (IsStarted s) (IsStarted s) (configure s) _
            (configure-IsQuiet s v.uid v.registered)
            λ s' out q.
              weaken s s' out q (check_ping now s')
                (check_ping-IsQuiet s' v.uid (q.0.uid_eq ∙ v.registered) now))
          λ s' out q. (IsQuiet-trans s s' _ out [] q.0 (ground arith), q.1))
      (λ later. ground (arith, v.started later))
