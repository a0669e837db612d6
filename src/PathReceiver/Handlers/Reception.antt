-- ===== src/PathReceiver/Handlers/Reception.antt =====
-- What `OnReceiveSegment` of ns3/mp-video/model/pathreceiver.cc does on every branch.
use mp_video_simulation.Prelude.{
  ℕ, ◌≡◌, ◌∙◌, refl, ◌≢◌, inl, inr, Bool, false, not, ◌&&◌, Option, none, some, List, [], ◌∷◌, ◌++◌,
  if◌then◌else◌, arith, Bool-cases,
}
use mp_video_simulation.Protocol.{Segment, wire_size}
use mp_video_simulation.PathReceiver.Tables.{enter_packet, is_stale}
use mp_video_simulation.PathReceiver.Tables.Prefix.{IsId}
use mp_video_simulation.PathReceiver.Tables.Partition.{enter_packet-IsPartitioned}
use mp_video_simulation.PathReceiver.State.{
  PathReceiver, Controller, Output, deliver_to_cache, ◌>>◌,
}
use mp_video_simulation.PathReceiver.Handlers.{
  first_call, report_packet, video_real_ack, trace_delay, deliver, enter_tables, accept_segment,
  admit_segment, on_receive_segment,
}
use mp_video_simulation.PathReceiver.Handlers.Ensures.{
  Ensures, Ensures-then, Ensures-map, Ensures-if, delivered, delivered-append,
}
use mp_video_simulation.PathReceiver.Handlers.Quiet.{
  IsQuiet, video_real_ack-IsQuiet, trace_delay-IsQuiet, report_packet-IsQuiet, IsReady, IsStarted,
  weaken, first_call-IsQuiet,
}

-- What a segment is to do: a stale one nothing, any other enters the tables and is handed on.
record IsReceived (seg : Segment) (s s' : PathReceiver) (out : List Output) : Type 0 where
  pub uid_same : s'.receiver_uid ≡ s.receiver_uid
  pub tables_new : s'.tables ≡ (
      if is_stale seg.packet_id s.tables
      then s.tables
      else enter_packet seg.packet_id seg.index s.tables)
  pub handed_on : delivered out ≡ (if is_stale seg.packet_id s.tables then [] else seg ∷ [])
  pub controller_same : s.controller ≢ Controller.absent → s'.controller ≢ Controller.absent

-- The state between the table update and the delivery.
record IsEntered (seg : Segment) (s s' : PathReceiver) (out : List Output) : Type 0 where
  entered : s'.tables ≡ enter_packet seg.packet_id seg.index s.tables
  same_uid : s'.receiver_uid ≡ s.receiver_uid
  nothing_yet : delivered out ≡ []
  same_controller : s.controller ≢ Controller.absent → s'.controller ≢ Controller.absent

IsEntered-then :
    (seg : Segment) (s s' : PathReceiver) (out : List Output)
    → IsEntered seg s s' out
    → (r : Option (PathReceiver × List Output)) → Ensures (IsQuiet s') r
    → Ensures (λ s'' out'. IsEntered seg s s'' (out ++ out')) r
IsEntered-then seg s s' out e none h = absurd h
IsEntered-then seg s s' out e (some (s'', out')) h = record {
  entered = h.tables_eq ∙ e.entered;
  same_uid = h.uid_eq ∙ e.same_uid;
  nothing_yet = rw (delivered-append out out', e.nothing_yet) h.none_delivered;
  same_controller = λ c. h.controller_kept (e.same_controller c);
}

deliver-lem :
    (seg : Segment) (s s' : PathReceiver) (out : List Output) (uid : ℕ)
    → s.receiver_uid ≡ some uid
    → is_stale seg.packet_id s.tables ≡ false
    → IsEntered seg s s' out
    → Ensures (λ s'' out'. IsReceived seg s s'' (out ++ out')) (deliver seg s')
unfolding deliver
deliver-lem seg s s' out uid r fresh e =
    let reg : s'.receiver_uid ≡ some uid = e.same_uid ∙ r in
    simp (reg, deliver)
      (record {
        uid_same = e.same_uid;
        tables_new = rw fresh e.entered;
        handed_on =
            rw (fresh, delivered-append out (deliver_to_cache s'.pid seg ∷ []), e.nothing_yet);
        controller_same = e.same_controller;
      })

accept_segment-lem :
    (now : ℕ) (seg : Segment) (s : PathReceiver) (uid : ℕ)
    → s.receiver_uid ≡ some uid
    → is_stale seg.packet_id s.tables ≡ false
    → Ensures (IsReceived seg s) (accept_segment now seg s)
unfolding accept_segment enter_tables
accept_segment-lem now seg s uid r fresh =
    let E = IsEntered seg s in
    Ensures-then E (IsReceived seg s)
      ((enter_tables seg >> video_real_ack 0 seg.packet_id now >> trace_delay now seg) s)
      (deliver seg)
      (Ensures-then E E ((enter_tables seg >> video_real_ack 0 seg.packet_id now) s) _
        (Ensures-then E E (enter_tables seg s) _
          (record { entered = refl; same_uid = refl; nothing_yet = refl; same_controller = λ c. c })
          λ s' out e.
            IsEntered-then seg s s' out e _
              (video_real_ack-IsQuiet s' uid (e.same_uid ∙ r) 0 seg.packet_id now))
        λ s' out e.
          IsEntered-then seg s s' out e (trace_delay now seg s')
            (trace_delay-IsQuiet s' uid (e.same_uid ∙ r) now seg))
      λ s' out e. deliver-lem seg s s' out uid r fresh e

admit_segment-lem :
    (now : ℕ) (seg : Segment) (s : PathReceiver) (uid : ℕ)
    → s.receiver_uid ≡ some uid
    → Ensures (IsReceived seg s) (admit_segment now seg s)
unfolding admit_segment
admit_segment-lem now seg s uid r =
    Ensures-if (IsReceived seg s) (is_stale seg.packet_id s.tables) _ _
      (λ stale. record {
        uid_same = refl;
        tables_new = rw stale;
        handed_on = rw stale;
        controller_same = λ c. c;
      })
      (λ fresh. accept_segment-lem now seg s uid r fresh)

-- After a call that is quiet the segment still finds the tables that the object began with.
IsReceived-after :
    (seg : Segment) (s s' s'' : PathReceiver) (out out' : List Output)
    → IsStarted s s' out
    → IsReceived seg s' s'' out'
    → IsReceived seg s s'' (out ++ out') × (s''.controller ≢ Controller.absent)
IsReceived-after seg s s' s'' out out' q h = (
  record {
    uid_same = h.uid_same ∙ q.0.uid_eq;
    tables_new = rw (← q.0.tables_eq) h.tables_new;
    handed_on = rw (delivered-append out out', q.0.none_delivered, ← q.0.tables_eq) h.handed_on;
    controller_same = λ _. h.controller_same q.1;
  },
  h.controller_same q.1,
)

steps-IsReceived :
    (uid : ℕ) (seg : Segment) (now : ℕ) (lost : Bool) (s : PathReceiver)
    → IsReady s
    → Ensures
        (λ s' out. IsReceived seg s s' out × (s'.controller ≢ Controller.absent))
        ((first_call now
            >> report_packet now (wire_size seg) uid seg.transport_seq lost
            >> admit_segment now seg)
          s)
steps-IsReceived uid seg now lost s v =
    Ensures-then (IsStarted s) _
      ((first_call now >> report_packet now (wire_size seg) uid seg.transport_seq lost) s)
      (admit_segment now seg)
      (Ensures-then (IsStarted s) (IsStarted s) (first_call now s) _ (first_call-IsQuiet now s v)
        λ s' out q.
          weaken s s' out q (report_packet now (wire_size seg) uid seg.transport_seq lost s') (
            report_packet-IsQuiet s' v.uid (q.0.uid_eq ∙ v.registered) now (wire_size seg) uid
              seg.transport_seq lost q.1))
      λ s' out q.
        Ensures-map (IsReceived seg s') _ (admit_segment now seg s')
          (admit_segment-lem now seg s' v.uid (q.0.uid_eq ∙ v.registered))
          λ s'' out' h. IsReceived-after seg s s' s'' out out' q h

-- The segment reaches the tables: the path runs, and the segment is not stale.
abbrev pub goes_in : Segment → PathReceiver → Bool
goes_in seg s = not s.stop && not (is_stale seg.packet_id s.tables)

received-IsReady :
    (seg : Segment) (s s' : PathReceiver) (out : List Output)
    → IsReady s
    → IsId seg.packet_id
    → IsReceived seg s s' out
    → s'.controller ≢ Controller.absent
    → IsReady s'
received-IsReady seg s s' out v i h c = record {
  partitioned = elim (Bool-cases (is_stale seg.packet_id s.tables)) [
    | inl old ↦ rw (h.tables_new, old) v.partitioned
    | inr new ↦ rw (h.tables_new, new) (enter_packet-IsPartitioned _ seg.index _ i v.partitioned)
  ];
  uid = v.uid;
  registered = h.uid_same ∙ v.registered;
  started = λ _. c;
}

abbrev pub Handled : Segment → PathReceiver → PathReceiver → List Output → Type 0
Handled seg s s' out =
    IsReady s'
    × (s'.tables
        ≡ (if goes_in seg s then enter_packet seg.packet_id seg.index s.tables else s.tables))
    × (delivered out ≡ (if goes_in seg s then seg ∷ [] else []))

-- A segment for a path that is set up, with an id that + 1 does not wrap: the call returns
-- without touching a null pointer, the tables stay exact, and a segment that is not stale
-- enters them and is handed to the frame assembly once, if the path runs; any other segment
-- does neither.
pub on_receive_segment-IsReady :
    (uid : ℕ) (seg : Segment) (now : ℕ) (lost : Bool) (s : PathReceiver)
    → IsReady s
    → IsId seg.packet_id
    → Ensures (Handled seg s) (on_receive_segment uid seg now lost s)
unfolding on_receive_segment
on_receive_segment-IsReady uid seg now lost s v i =
    Ensures-if (Handled seg s) s.stop _ _ (λ stopped. (v, simp stopped, simp stopped))
      λ running.
        Ensures-map (λ s' out. IsReceived seg s s' out × (s'.controller ≢ Controller.absent))
          (Handled seg s)
          ((first_call now
              >> report_packet now (wire_size seg) uid seg.transport_seq lost
              >> admit_segment now seg)
            s)
          (steps-IsReceived uid seg now lost s v)
          λ s' out h. (
            received-IsReady seg s s' out v i h.0 h.1,
            h.0.tables_new ∙ ground (arith, running),
            h.0.handed_on ∙ ground (arith, running),
          )
