-- ===== src/Bbr2/Flight/Accounts.antt =====
-- The tables of ns3/mp-video/model/congestion/bbr_sender_v2.cc agree, and its bytes are exact.
use mp_video_simulation.Prelude.{
  ℕ, zero, suc, ◌+◌, ◌-◌, ◌≤◌, ◌<◌, ◌≡◌, ◌∙◌, refl, sym, ap, Bool, true, false, none, List, [], ◌∷◌,
  leb, ltb, arith, u64_mod, sub64, Option-cases, Bool-cases, inl, inr, subst,
}
use mp_video_simulation.Prelude.OrderedMap
use mp_video_simulation.Prelude.OrderedMap.{
  find, erase, erase_to, erase_run, Every, Every-erase_to, Above, insert-Above, sum_values,
  sum_values-insert, erase_absent, erase-erase_to, erase_run-erase_to, erase_to-Above,
  erase_to_twice,
}
use mp_video_simulation.Prelude.OrderedMap.Bounds.{Below, Below-mono, Below-find, insert-Below}
use mp_video_simulation.Prelude.OrderedMap.Values.{
  map_values, map_values-insert, map_values-erase_to, find-map_values, sum_values-map_values,
}
use mp_video_simulation.Sampler
use mp_video_simulation.Sampler.{
  Bandwidths, PacketState, MySampler, on_packet_lost, on_packet_acknowledged, acknowledge,
  on_packet_acknowledged_inner,
}
use mp_video_simulation.Sampler.Totals.{
  IsSampler, on_packet_sent-IsSampler, on_packet_lost-IsSampler, on_packet_acknowledged_keeps,
}
use mp_video_simulation.Bbr2.Flight
use mp_video_simulation.Bbr2.Flight.{
  PerPacket, Flight, on_packet_sent, lose_run, lose_until, settle, update_inflight,
  update_round_trip_counter, take_sample, ack_flight,
}

-- What the controller keeps of a packet that the sampler follows.
abbrev pub per_packet : PacketState → PerPacket
per_packet p = record { sent_ts = p.sent_time; bytes = p.size }

-- The controller and the sampler follow the same packets, sent after the last one acknowledged,
-- and the bytes in flight are those of the packets.
pub record IsFlight (f : Flight) : Type 0 where
  pub sampled : IsSampler f.sampler
  pub same : map_values per_packet f.sampler.packet_infos ≡ f.sent_packets_map
  pub above : Above f.last_ack_seq f.sampler.packet_infos
  pub below : Below (f.last_sent_packet + 1) f.sampler.packet_infos
  pub known : f.last_ack_seq ≤ f.last_sent_packet
  pub counted : f.bytes_in_flight ≡ sum_values (λ p. p.bytes) f.sent_packets_map

pub init-IsFlight : IsFlight Flight.init
init-IsFlight = record {
  sampled = record { word = omega arith; within = omega arith; last = omega arith; snapshots = tt };
  same = refl;
  above = tt;
  below = tt;
  known = omega arith;
  counted = refl;
}

-- The bytes in flight are those of the sampler's packets.
in_flight_lem :
    (f : Flight) → IsFlight f → f.bytes_in_flight ≡ sum_values (λ p. p.size) f.sampler.packet_infos
in_flight_lem f v =
    v.counted
    ∙ rw (← v.same) (sum_values-map_values per_packet (λ p. p.bytes) f.sampler.packet_infos)

pub on_packet_sent-IsFlight :
    (now packet_number bytes : ℕ) (f : Flight)
    → IsFlight f
    → f.last_sent_packet < packet_number
    → f.sampler.total_bytes_sent + bytes < u64_mod
    → IsFlight (on_packet_sent now packet_number bytes f)
unfolding on_packet_sent Sampler.on_packet_sent
on_packet_sent-IsFlight now packet_number bytes f v newer room =
    let fresh : leb packet_number f.last_sent_packet ≡ false = ground arith in
    let m = f.sampler.packet_infos in
    let new : find packet_number m ≡ none =
      Below-find (f.last_sent_packet + 1) packet_number m v.below (omega arith) in
    let within = v.sampled.within in
    let bytes_now = in_flight_lem f v in
    let grown =
      sum_values-insert (λ p. p.bytes) packet_number (record { sent_ts = now; bytes = bytes })
        f.sent_packets_map
        (rw (← v.same) (find-map_values per_packet packet_number m ∙ rw new refl)) in
    rw fresh (record {
      sampled =
          on_packet_sent-IsSampler now packet_number bytes f.bytes_in_flight f.sampler v.sampled
            room new;
      same =
          map_values-insert per_packet packet_number _ m
          ∙ ap (OrderedMap.insert packet_number (record { sent_ts = now; bytes = bytes })) v.same;
      above = insert-Above f.last_ack_seq packet_number _ m (omega (arith, v.known)) v.above;
      below =
          insert-Below packet_number _ m
            (Below-mono (f.last_sent_packet + 1) packet_number m (omega arith) v.below);
      known = omega (arith, v.known);
      counted = omega (arith, v.counted, bytes_now, within, grown);
    })

-- The loop over the lost packets forgets each of them, and nothing else.
lose_run_lem :
    (n k : ℕ) (s : MySampler)
    → lose_run n k s ≡ record s { packet_infos = erase_run n k s.packet_infos }
unfolding lose_run on_packet_lost erase_run
lose_run_lem zero k s = refl
lose_run_lem (suc n) k s = lose_run_lem n (k + 1) (on_packet_lost k s)

lose_run-IsSampler : (n k : ℕ) (s : MySampler) → IsSampler s → IsSampler (lose_run n k s)
unfolding lose_run
lose_run-IsSampler zero k s v = v
lose_run-IsSampler (suc n) k s v =
    lose_run-IsSampler n (k + 1) (on_packet_lost k s) (on_packet_lost-IsSampler k s v)

-- The sampler has forgotten a packet that is acknowledged.
acknowledged_infos :
    (b : Bandwidths) (now packet_number : ℕ) (r : Bool) (s : MySampler)
    → (on_packet_acknowledged b now packet_number r s).0.packet_infos
      ≡ erase packet_number s.packet_infos
unfolding on_packet_acknowledged acknowledge on_packet_acknowledged_inner on_packet_lost
acknowledged_infos b now packet_number r s =
    elim (Option-cases (find packet_number s.packet_infos)) [
      | inl gone ↦ rw gone (sym (erase_absent packet_number s.packet_infos gone))
      | inr (p, known) ↦ rw known refl
    ]

settle_lem :
    (packet_number : ℕ) (m : List (ℕ × PerPacket))
    → sum_values (λ p. p.bytes) m < u64_mod
    → settle packet_number (sum_values (λ p. p.bytes) m) m
      ≡ (sum_values (λ p. p.bytes) (erase_to packet_number m), erase_to packet_number m)
unfolding settle erase_to
settle_lem packet_number [] h = refl
settle_lem packet_number ((k, p) ∷ m) h = elim (Bool-cases (leb k packet_number)) [
  | inl gone ↦
      let less : sub64 (p.bytes + sum_values (λ q. q.bytes) m) p.bytes
          ≡ sum_values (λ q. q.bytes) m =
        omega arith in
      rw (gone, less) (settle_lem packet_number m (omega arith))
  | inr kept ↦ rw kept refl
]

-- The packets up to the one before, and then that one.
erase_next :
    (l j k : ℕ) (m : List (ℕ × PacketState))
    → Above l m
    → k ≡ j + 1
    → erase k (erase_to j m) ≡ erase_to k m
erase_next l j k m a next = rw next (
    erase-erase_to j (erase_to j m) (erase_to-Above l j m a)
    ∙ erase_to_twice j (j + 1) m (omega arith))

-- What the sampler follows after an acknowledgement.
lost_infos :
    (b : Bandwidths) (now packet_number : ℕ) (r : Bool) (f : Flight)
    → IsFlight f
    → f.last_ack_seq < packet_number
    → (on_packet_acknowledged b now packet_number r
        (lose_until packet_number f).sampler).0.packet_infos
      ≡ erase_to packet_number f.sampler.packet_infos
unfolding lose_until
lost_infos b now packet_number r f v newer =
    let l = f.last_ack_seq in
    let m = f.sampler.packet_infos in
    let n = packet_number - (l + 1) in
    let lost : lose_run n (l + 1) f.sampler
        ≡ record f.sampler { packet_infos = erase_run n (l + 1) m } =
      lose_run_lem n (l + 1) f.sampler in
    let passed : erase_run n (l + 1) m ≡ erase_to (l + n) m = erase_run-erase_to n l m v.above in
    let next : packet_number ≡ l + n + 1 = omega arith in
    acknowledged_infos b now packet_number r (lose_run n (l + 1) f.sampler)
    ∙ ap (λ s. erase packet_number s.packet_infos) lost
    ∙ rw passed (erase_next l (l + n) packet_number m v.above next)

-- A controller that has settled all packets up to one.
acked-IsFlight :
    (b : Bandwidths) (now packet_number : ℕ) (r : Bool) (f g : Flight)
    → IsFlight f
    → f.last_ack_seq < packet_number
    → packet_number ≤ f.last_sent_packet
    → g.sampler
      ≡ (on_packet_acknowledged b now packet_number r (lose_until packet_number f).sampler).0
    → g.last_ack_seq ≡ packet_number
    → g.last_sent_packet ≡ f.last_sent_packet
    → g.sent_packets_map ≡ erase_to packet_number f.sent_packets_map
    → g.bytes_in_flight ≡ sum_values (λ p. p.bytes) (erase_to packet_number f.sent_packets_map)
    → IsFlight g
unfolding lose_until
acked-IsFlight b now packet_number r f g v newer sent s_eq a_eq l_eq m_eq c_eq =
    let m = f.sampler.packet_infos in
    let infos : g.sampler.packet_infos ≡ erase_to packet_number m =
      ap (λ s. s.packet_infos) s_eq ∙ lost_infos b now packet_number r f v newer in
    record {
      sampled = subst IsSampler (sym s_eq) (
          on_packet_acknowledged_keeps b now packet_number r (lose_until packet_number f).sampler (
            lose_run-IsSampler (packet_number - (f.last_ack_seq + 1)) (f.last_ack_seq + 1) f.sampler
              v.sampled));
      same =
          ap (map_values per_packet) infos
          ∙ map_values-erase_to per_packet packet_number m
          ∙ ap (erase_to packet_number) v.same
          ∙ sym m_eq;
      above = rw (infos, a_eq) (erase_to-Above f.last_ack_seq packet_number m v.above);
      below = rw (infos, l_eq) (Every-erase_to _ packet_number m v.below);
      known = rw (a_eq, l_eq) sent;
      counted = rw m_eq c_eq;
    }

-- The controller and its sampler follow the same packets, and the bytes in flight are those of
-- the packets: an acknowledgement of a packet that was sent, newer than the last one
-- acknowledged, keeps this so.
pub ack_flight-IsFlight :
    (b : Bandwidths) (now packet_number : ℕ) (f : Flight)
    → IsFlight f
    → f.last_ack_seq < packet_number
    → packet_number ≤ f.last_sent_packet
    → IsFlight (ack_flight b now packet_number f).0
unfolding ack_flight take_sample update_inflight lose_until update_round_trip_counter
ack_flight-IsFlight b now packet_number f v newer sent =
    let bytes_now = in_flight_lem f v in
    let settled : settle packet_number f.bytes_in_flight f.sent_packets_map ≡ (
      sum_values (λ p. p.bytes) (erase_to packet_number f.sent_packets_map),
      erase_to packet_number f.sent_packets_map,
    ) =
      rw v.counted (
        settle_lem packet_number f.sent_packets_map
          (omega (arith, v.counted, bytes_now, v.sampled.word, v.sampled.within))) in
    let turned = ltb f.current_round_trip_end packet_number in
    elim (Bool-cases turned) [
      | inl due ↦ rw due (
          acked-IsFlight b now packet_number true f _ v newer sent refl refl refl
            (ap (λ x. x.1) settled) (ap (λ x. x.0) settled))
      | inr early ↦ rw early (
          acked-IsFlight b now packet_number false f _ v newer sent refl refl refl
            (ap (λ x. x.1) settled) (ap (λ x. x.0) settled))
    ]
