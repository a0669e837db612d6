-- ===== src/PathSender/Connection.antt =====
-- How a path of ns3/mp-video/model/pathsender.cc becomes usable.
use mp_video_simulation.Prelude.{
  ℕ, ◌≡◌, ◌≢◌, ◌∙◌, refl, sym, ap, inl, inr, Bool, true, false, Option, some, List, [], ◌∷◌, ◌++◌,
  not, ◌&&◌, ◌||◌, ltb, ◌==◌, if◌then◌else◌, ◌%◌, subst, sub32, u32_mod, arith, Bool-cases,
}
use mp_video_simulation.Prelude.Calls.{Ensures, Ensures-map, Ensures-if}
use mp_video_simulation.Common.{Controller, path_conned}
use mp_video_simulation.Protocol.{SegmentAck, Message, Body}
use mp_video_simulation.PathSender.State.{
  PathSender, Session, Output, send, schedule_connect, schedule_heart_beat, schedule_check_ping,
  schedule_pacing_now, schedule_pacing, insert_packet, add_packet, on_sent_packet, on_rtt_update,
  on_feedback, pending_delay, start_modules, stop_modules, network_changed, notify_usable,
}
use mp_video_simulation.PathSender.Pacing.{send_body}
use mp_video_simulation.PathSender.Handlers.{
  connected, configure, check_ping, on_rtt, recv_seg_ack, incoming_feedback, on_connect_ack,
  on_message, processing_msg,
}

-- The paths that a call reports as usable.
abbrev pub notified : List Output → List ℕ
notified [] = []
notified (notify_usable pid ∷ out) = pid ∷ notified out
notified (send m ∷ out) = notified out
notified (schedule_connect delay ∷ out) = notified out
notified (schedule_heart_beat delay ∷ out) = notified out
notified (schedule_check_ping delay ∷ out) = notified out
notified (schedule_pacing_now ∷ out) = notified out
notified (schedule_pacing len rate ∷ out) = notified out
notified (insert_packet uid id now size ∷ out) = notified out
notified (add_packet uid seq size ∷ out) = notified out
notified (on_sent_packet seq ts ∷ out) = notified out
notified (on_rtt_update average longest ∷ out) = notified out
notified (on_feedback bytes ∷ out) = notified out
notified (pending_delay packet_id ts ∷ out) = notified out
notified (start_modules ∷ out) = notified out
notified (stop_modules ∷ out) = notified out
notified (network_changed pid bitrate loss rtt ∷ out) = notified out

notified-append : (xs ys : List Output) → notified (xs ++ ys) ≡ notified xs ++ notified ys
notified-append [] ys = refl
notified-append (notify_usable pid ∷ out) ys = ap (◌∷◌ pid) (notified-append out ys)
notified-append (send m ∷ out) ys = notified-append out ys
notified-append (schedule_connect delay ∷ out) ys = notified-append out ys
notified-append (schedule_heart_beat delay ∷ out) ys = notified-append out ys
notified-append (schedule_check_ping delay ∷ out) ys = notified-append out ys
notified-append (schedule_pacing_now ∷ out) ys = notified-append out ys
notified-append (schedule_pacing len rate ∷ out) ys = notified-append out ys
notified-append (insert_packet uid id now size ∷ out) ys = notified-append out ys
notified-append (add_packet uid seq size ∷ out) ys = notified-append out ys
notified-append (on_sent_packet seq ts ∷ out) ys = notified-append out ys
notified-append (on_rtt_update average longest ∷ out) ys = notified-append out ys
notified-append (on_feedback bytes ∷ out) ys = notified-append out ys
notified-append (pending_delay packet_id ts ∷ out) ys = notified-append out ys
notified-append (start_modules ∷ out) ys = notified-append out ys
notified-append (stop_modules ∷ out) ys = notified-append out ys
notified-append (network_changed pid bitrate loss rtt ∷ out) ys = notified-append out ys

-- mpsender_ is set, and a path that is set up has a controller.
pub record IsAttached (s : PathSender) : Type 0 where
  pub session : Session
  pub registered : s.mpsender ≡ some session
  pub equipped : connected s.state ≡ true → s.controller ≢ Controller.absent

-- A call that leaves the connection as it is.
record IsQuiet (s s' : PathSender) (out : List Output) : Type 0 where
  same_pid : s'.pid ≡ s.pid
  same_session : s'.mpsender ≡ s.mpsender
  same_state : s'.state ≡ s.state
  same_controller : s'.controller ≡ s.controller
  none_notified : notified out ≡ []

module _ (s : PathSender) (m : Session) (h : s.mpsender ≡ some m) where
  send_body-IsQuiet : (b : Body) → Ensures (IsQuiet s) (send_body b s)
  unfolding send_body
  send_body-IsQuiet b = ground (arith, h)

  check_ping-IsQuiet : (now : ℕ) → Ensures (IsQuiet s) (check_ping now s)
  unfolding check_ping
  check_ping-IsQuiet now = ground (arith, h)

on_rtt-IsQuiet : (time now : ℕ) (s : PathSender) → Ensures (IsQuiet s) (on_rtt time now s)
unfolding on_rtt
on_rtt-IsQuiet time now s = ground arith

recv_seg_ack-IsQuiet :
    (ack : SegmentAck) (now : ℕ) (s : PathSender) → Ensures (IsQuiet s) (recv_seg_ack ack now s)
unfolding recv_seg_ack on_rtt
recv_seg_ack-IsQuiet ack now s = ground arith

incoming_feedback-IsQuiet :
    (bytes : List ℕ) (s : PathSender)
    → s.controller ≢ Controller.absent
    → Ensures (IsQuiet s) (incoming_feedback bytes s)
unfolding incoming_feedback
incoming_feedback-IsQuiet bytes s c = ground arith

module _ (s : PathSender) (m : Session) (h : s.mpsender ≡ some m) (cid now : ℕ) where
  -- The first answer sets the path up and reports it once.
  on_connect_ack-opens :
      connected s.state ≡ false
      → Ensures
          (λ s' out.
            (s'.state ≡ path_conned)
            × (s'.mpsender ≡ s.mpsender)
            × (s'.controller ≢ Controller.absent)
            × (notified out ≡ s.pid ∷ []))
          (on_connect_ack cid now s)
  unfolding on_connect_ack configure check_ping
  on_connect_ack-opens c = ground (arith, h, c)

  -- A later one only takes the time.
  on_connect_ack-again :
      connected s.state ≡ true
      → Ensures
          (λ s' out.
            (s'.state ≡ path_conned)
            × (s'.mpsender ≡ s.mpsender)
            × (s'.controller ≡ s.controller)
            × (notified out ≡ []))
          (on_connect_ack cid now s)
  unfolding on_connect_ack
  on_connect_ack-again c = ground (arith, h, c)

abbrev pub answers : Body → Bool
answers (Body.connect_ack cid result) = true
answers _ = false

-- Whether a message opens the connection.
abbrev pub opens : Message → PathSender → Bool
opens m s = not s.stop && (m.ver == s.pid) && answers m.body && not (connected s.state)

-- What a message does to the connection.
abbrev pub Connects : Bool → PathSender → PathSender → List Output → Type 0
Connects opening s s' out =
    IsAttached s'
    × (connected s'.state ≡ (connected s.state || opening))
    × (notified out ≡ (if opening then s.pid ∷ [] else []))

-- Feedback needs a controller.
abbrev pub IsFit : PathSender → Body → Type 0
IsFit s (Body.feedback base bytes) = s.controller ≢ Controller.absent
IsFit s _ = Unit

module _ (s : PathSender) (v : IsAttached s) where
  quiet-Connects :
      (r : Option (PathSender × List Output)) → Ensures (IsQuiet s) r → Ensures (Connects false s) r
  quiet-Connects r q = Ensures-map (IsQuiet s) (Connects false s) r q λ s' out h. (
    record {
      session = v.session;
      registered = h.same_session ∙ v.registered;
      equipped = rw (h.same_state, h.same_controller) v.equipped;
    },
    rw h.same_state (ground arith),
    h.none_notified,
  )

  on_message-Connects :
      (now rtc_now : ℕ) (b : Body)
      → IsFit s b
      → Ensures (Connects (answers b && not (connected s.state)) s) (on_message now rtc_now b s)
  unfolding on_message
  on_message-Connects now rtc_now (Body.connect_ack cid result) f =
      elim (Bool-cases (connected s.state)) [
        | inl on ↦
            Ensures-map _ (Connects (not (connected s.state)) s) (on_connect_ack cid now s)
              (on_connect_ack-again s v.session v.registered cid now on)
              λ s' out h. (
                record {
                  session = v.session;
                  registered = h.1 ∙ v.registered;
                  equipped = λ _. rw h.2 (v.equipped on);
                },
                ground (arith, on, h.0),
                ground (arith, on, h.3),
              )
        | inr off ↦
            Ensures-map _ (Connects (not (connected s.state)) s) (on_connect_ack cid now s)
              (on_connect_ack-opens s v.session v.registered cid now off)
              λ s' out h. (
                record {
                  session = v.session;
                  registered = h.1 ∙ v.registered;
                  equipped = λ _. h.2;
                },
                ground (arith, off, h.0),
                ground (arith, off, h.3),
              )
      ]
  on_message-Connects now rtc_now (Body.seg_ack ack) f =
      quiet-Connects _ (recv_seg_ack-IsQuiet ack rtc_now s)
  on_message-Connects now rtc_now (Body.feedback base bytes) f =
      quiet-Connects _ (incoming_feedback-IsQuiet bytes s f)
  on_message-Connects now rtc_now (Body.ping ts) f =
      quiet-Connects _ (send_body-IsQuiet s v.session v.registered (Body.pong ts))
  on_message-Connects now rtc_now (Body.pong ts) f = quiet-Connects _ (
      Ensures-if (IsQuiet s) (ltb 0 (sub32 now (ts % u32_mod))) _ _
        (λ _. on_rtt-IsQuiet (sub32 now (ts % u32_mod)) now s) (λ _. ground arith))
  on_message-Connects now rtc_now (Body.connect cid) f = (v, ground arith, refl)
  on_message-Connects now rtc_now (Body.disconnect cid) f = (v, ground arith, refl)
  on_message-Connects now rtc_now (Body.seg seg) f = (v, ground arith, refl)
  on_message-Connects now rtc_now (Body.pad send_ts seq size) f = (v, ground arith, refl)
  on_message-Connects now rtc_now Body.other f = (v, ground arith, refl)

  stay : (opening : Bool) → opening ≡ false → Connects opening s s []
  stay true e = absurd (cc e)
  stay false e = (v, ground arith, refl)

-- A path reports itself as usable exactly once: a message opens the connection, and is
-- reported, exactly if it is an answer to a connect with the path's own id at a running path
-- that is not connected; no message closes the connection again. Every message returns, as long
-- as mpsender_ is set and feedback finds a controller.
pub processing_msg-Connects :
    (m : Message) (now rtc_now : ℕ) (s : PathSender)
    → IsAttached s
    → IsFit s m.body
    → Ensures (Connects (opens m s) s) (processing_msg (some m) now rtc_now s)
unfolding processing_msg
processing_msg-Connects m now rtc_now s v f =
    Ensures-if (Connects (opens m s) s) s.stop _ _
      (λ stopped. stay s v (opens m s) (ground (arith, stopped)))
      (λ runs.
        Ensures-if (Connects (opens m s) s) (not (m.ver == s.pid)) _ _
          (λ other. stay s v (opens m s) (ground (arith, other)))
          (λ own.
            let same : opens m s ≡ (answers m.body && not (connected s.state)) =
              ground (arith, runs, own) in
            subst (λ b. Ensures (Connects b s) (on_message now rtc_now m.body s)) (sym same)
              (on_message-Connects s v now rtc_now m.body f)))
