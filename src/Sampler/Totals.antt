-- ===== src/Sampler/Totals.antt =====
-- The totals of ns3/mp-video/model/congestion/sampler.cc and the differences that a sample takes.
use mp_video_simulation.Prelude.{
  ℕ, ◌+◌, ◌-◌, ◌≤◌, ◌<◌, ◌≡◌, Bool, true, none, some, List, [], ◌∷◌, leb, ltb, ◌==◌, min,
  if◌then◌else◌, arith, u64_mod, add64, sub64, Option-cases, inl, inr, ◌||◌,
}
use mp_video_simulation.Prelude.OrderedMap.{
  find, erase, Every, Every-insert, Every-erase, Every-find, sum_values, sum_values-insert,
  sum_values-erase,
}
use mp_video_simulation.Sampler.{
  Bandwidths, PacketState, MySampler, count_sent, snapshot, on_packet_sent, on_packet_lost,
  send_rate, sample, on_packet_acknowledged_inner, acknowledge, on_packet_acknowledged,
}

-- The totals of a packet's snapshot are ordered, and at most those of the sampler.
abbrev pub IsSnapshot : (sent acked : ℕ) → PacketState → Type 0
IsSnapshot sent acked p =
    (p.total_bytes_sent_at_last_acked_packet ≤ p.total_bytes_sent)
    × (p.total_bytes_sent ≤ sent)
    × (p.total_bytes_acked_at_the_last_acked_packet ≤ acked)

-- What is acknowledged and what the sampler still waits for was sent.
pub record IsSampler (s : MySampler) : Type 0 where
  pub word : s.total_bytes_sent < u64_mod
  pub within : s.total_bytes_acked + sum_values (λ p. p.size) s.packet_infos ≤ s.total_bytes_sent
  pub last : s.total_bytes_sent_at_last_acked_packet ≤ s.total_bytes_sent
  pub snapshots : Every (λ k p. IsSnapshot s.total_bytes_sent s.total_bytes_acked p) s.packet_infos

Every-map :
    (P Q : ℕ → PacketState → Type 0) (m : List (ℕ × PacketState))
    → ((k : ℕ) (p : PacketState) → P k p → Q k p)
    → Every P m
    → Every Q m
Every-map P Q [] h e = tt
Every-map P Q ((k, p) ∷ m) h e = (h k p e.0, Every-map P Q m h e.1)

pub on_packet_sent-IsSampler :
    (now packet_number bytes in_flight : ℕ) (s : MySampler)
    → IsSampler s
    → s.total_bytes_sent + bytes < u64_mod
    → find packet_number s.packet_infos ≡ none
    → IsSampler (on_packet_sent now packet_number bytes in_flight s)
unfolding on_packet_sent
on_packet_sent-IsSampler now packet_number bytes in_flight s v room new =
    let total : add64 s.total_bytes_sent bytes ≡ s.total_bytes_sent + bytes = omega arith in
    let counted = count_sent now bytes in_flight s in
    let grown =
      sum_values-insert (λ p. p.size) packet_number (snapshot now bytes counted) s.packet_infos
        new in
    let last : counted.total_bytes_sent_at_last_acked_packet ≤ counted.total_bytes_sent =
      ground (arith, v.last) in
    record {
      word = omega (arith, total);
      within = omega (arith, total, v.within, grown);
      last = last;
      snapshots =
          Every-insert _ packet_number _ s.packet_infos (last, omega arith, omega arith)
            (Every-map _ _ s.packet_infos (λ k p e. (e.0, omega (arith, e, total), e.2))
              v.snapshots);
    }

sum_values-erase_le :
    (k : ℕ) (m : List (ℕ × PacketState))
    → sum_values (λ p. p.size) (erase k m) ≤ sum_values (λ p. p.size) m
unfolding erase
sum_values-erase_le k [] = omega arith
sum_values-erase_le k ((j, p) ∷ m) = ground (arith, sum_values-erase_le k m)

pub on_packet_lost-IsSampler :
    (packet_number : ℕ) (s : MySampler) → IsSampler s → IsSampler (on_packet_lost packet_number s)
unfolding on_packet_lost
on_packet_lost-IsSampler packet_number s v = record {
  word = v.word;
  within = omega (arith, v.within, sum_values-erase_le packet_number s.packet_infos);
  last = v.last;
  snapshots = Every-erase _ packet_number s.packet_infos v.snapshots;
}

module _ (b : Bandwidths) where
  -- The rate between two totals.
  abbrev pub exact_rate : (before after since until : ℕ) → ℕ
  exact_rate before after since until = b.from_bytes_and_time (after - before) (until - since)

  -- The sample by differences that do not wrap: the slower of sending, since the packet that was
  -- acknowledged last when this one was sent, and of acknowledging.
  abbrev pub exact_sample : (ack_time total_acked : ℕ) → PacketState → ℕ
  exact_sample ack_time total_acked p =
      let sending =
        exact_rate p.total_bytes_sent_at_last_acked_packet p.total_bytes_sent
          p.last_acked_packet_sent_time p.sent_time in
      let acking =
        exact_rate p.total_bytes_acked_at_the_last_acked_packet total_acked
          p.last_acked_packet_ack_time ack_time in
      if (p.last_acked_packet_sent_time == 0) || leb ack_time p.last_acked_packet_ack_time
      then 0
      else if ltb p.last_acked_packet_sent_time p.sent_time
      then min sending acking
      else min b.infinite acking

  sub64_exact : (a c : ℕ) → a < u64_mod → c ≤ a → sub64 a c ≡ a - c
  sub64_exact a c h le = omega arith

  sample_lem :
      (ack_time total sent : ℕ) (p : PacketState)
      → sent < u64_mod
      → total ≤ sent
      → IsSnapshot sent total p
      → sample b ack_time total true p ≡ exact_sample ack_time total p
  unfolding sample send_rate
  sample_lem ack_time total sent p word le (past, old, acked) =
      let sent_diff =
        sub64_exact p.total_bytes_sent p.total_bytes_sent_at_last_acked_packet (omega arith) past in
      let ack_diff =
        sub64_exact total p.total_bytes_acked_at_the_last_acked_packet (omega arith) acked in
      rw (sent_diff, ack_diff) ground arith

  module _ (ack_time packet_number : ℕ) (s : MySampler) (p : PacketState) (v : IsSampler s)
      (known : find packet_number s.packet_infos ≡ some p) where
    total_exact : add64 s.total_bytes_acked p.size ≡ s.total_bytes_acked + p.size
    total_exact =
        let rest = sum_values-erase (λ q. q.size) packet_number p s.packet_infos known in
        omega (arith, v.word, v.within, rest)

    pub acknowledge-IsSampler :
        (round_update : Bool)
        → IsSampler (acknowledge b ack_time packet_number round_update (some p) s).0
    unfolding acknowledge on_packet_acknowledged_inner on_packet_lost
    acknowledge-IsSampler round_update =
        let entry = Every-find _ packet_number p s.packet_infos known v.snapshots in
        let rest = sum_values-erase (λ q. q.size) packet_number p s.packet_infos known in
        record {
          word = v.word;
          within = omega (arith, total_exact, v.within, rest);
          last = entry.1;
          snapshots =
              Every-map _ _ (erase packet_number s.packet_infos)
                (λ k q e. (e.0, e.1, omega (arith, e.2, total_exact)))
                (Every-erase _ packet_number s.packet_infos v.snapshots);
        }

  -- An acknowledgement of a packet that the sampler follows, in a round that ends, where what
  -- is acknowledged and what is followed was sent: the same holds after it, the total counts
  -- the packet, and the sample is the one by differences that do not wrap.
  pub on_packet_acknowledged-IsSampler :
      (ack_time packet_number : ℕ) (s : MySampler) (p : PacketState)
      → IsSampler s
      → find packet_number s.packet_infos ≡ some p
      → let (s', bw) = on_packet_acknowledged b ack_time packet_number true s in
        IsSampler s'
        × (s'.total_bytes_acked ≡ s.total_bytes_acked + p.size)
        × (bw ≡ exact_sample ack_time s'.total_bytes_acked p)
  unfolding on_packet_acknowledged acknowledge on_packet_acknowledged_inner on_packet_lost
  on_packet_acknowledged-IsSampler ack_time packet_number s p v known =
      let total = total_exact ack_time packet_number s p v known in
      let entry = Every-find _ packet_number p s.packet_infos known v.snapshots in
      let rest = sum_values-erase (λ q. q.size) packet_number p s.packet_infos known in
      rw known (
        acknowledge-IsSampler ack_time packet_number s p v known true,
        total,
        sample_lem ack_time (add64 s.total_bytes_acked p.size) s.total_bytes_sent p v.word
            (omega (arith, total, v.within, rest))
            (entry.0, entry.1, omega (arith, entry.2, total)),
      )

  pub on_packet_acknowledged_keeps :
      (ack_time packet_number : ℕ) (round_update : Bool) (s : MySampler)
      → IsSampler s
      → IsSampler (on_packet_acknowledged b ack_time packet_number round_update s).0
  unfolding on_packet_acknowledged acknowledge
  on_packet_acknowledged_keeps ack_time packet_number round_update s v =
      elim (Option-cases (find packet_number s.packet_infos)) [
        | inl gone ↦ rw gone v
        | inr (p, known) ↦
            rw known (acknowledge-IsSampler ack_time packet_number s p v known round_update)
      ]
