-- ===== src/V1/PathSender/Acks/Losses.antt =====
-- Which packets ns3/mp-video/model/path_sender_v1.cc reports as lost.
use mp_video_simulation.Prelude.{
  u64_mod, ℕ, zero, suc, ◌+◌, ◌-◌, ◌%◌, ◌≤◌, ◌<◌, ◌≡◌, ◌∙◌, refl, ap, sym, inl, inr, true, Option,
  none, some, List, [], ◌∷◌, ◌++◌, ◌&&◌, max, leb, ltb, ◌==◌, if◌then◌else◌, arith, Bool-cases,
  Option-cases, if-cases, subst,
}
use mp_video_simulation.Prelude.OrderedMap.{find, Above, Above-mono, Above-find}
use mp_video_simulation.V1.PathSender.State.{
  PathSender, Output, send_ping, send_padding, send_stream, on_packet_sent, on_congestion_event,
  packet_lost, rate_update, network_available, network_stop, rate, loss, time_offset_of,
  schedule_heart_beat,
}
use mp_video_simulation.V1.PathSender.Acks.{
  remove_le, report_lost, report_all, detect_loss, update_rtt, on_ack, remove_seq_id_map_le,
  remove_seq_delay_map_le, remove_id_delay_map_le, update_aggregete_delay, learn_delay, learn_rtt,
}

-- The losses that the upper layer hears of, each with the path's id.
abbrev pub lost : List Output → List (ℕ × ℕ)
lost [] = []
lost (packet_lost pid packet_id ∷ out) = (pid, packet_id) ∷ lost out
lost (send_ping now ∷ out) = lost out
lost (send_padding seq now ∷ out) = lost out
lost (send_stream seq body ∷ out) = lost out
lost (on_packet_sent seq size ∷ out) = lost out
lost (on_congestion_event seq ∷ out) = lost out
lost (rate_update ∷ out) = lost out
lost (network_available pid ∷ out) = lost out
lost (network_stop pid ∷ out) = lost out
lost (rate bps ∷ out) = lost out
lost (loss seq rtt ∷ out) = lost out
lost (time_offset_of packet_id offset ∷ out) = lost out
lost (schedule_heart_beat delay ∷ out) = lost out

pub lost-append : (xs ys : List Output) → lost (xs ++ ys) ≡ lost xs ++ lost ys
lost-append [] ys = refl
lost-append (packet_lost pid packet_id ∷ out) ys = ap (◌∷◌ (pid, packet_id)) (lost-append out ys)
lost-append (send_ping now ∷ out) ys = lost-append out ys
lost-append (send_padding seq now ∷ out) ys = lost-append out ys
lost-append (send_stream seq body ∷ out) ys = lost-append out ys
lost-append (on_packet_sent seq size ∷ out) ys = lost-append out ys
lost-append (on_congestion_event seq ∷ out) ys = lost-append out ys
lost-append (rate_update ∷ out) ys = lost-append out ys
lost-append (network_available pid ∷ out) ys = lost-append out ys
lost-append (network_stop pid ∷ out) ys = lost-append out ys
lost-append (rate bps ∷ out) ys = lost-append out ys
lost-append (loss seq rtt ∷ out) ys = lost-append out ys
lost-append (time_offset_of packet_id offset ∷ out) ys = lost-append out ys
lost-append (schedule_heart_beat delay ∷ out) ys = lost-append out ys

-- The packets sent under a number from `a` on and below `b`, in order; padding has the id 0.
abbrev pub passed_over : (pid a b : ℕ) → List (ℕ × ℕ) → List (ℕ × ℕ)
passed_over pid a b [] = []
passed_over pid a b ((seq, packet_id) ∷ m) =
    let rest = passed_over pid a b m in
    if leb a seq && ltb seq b
    then (if packet_id == 0 then rest else (pid, packet_id) ∷ rest)
    else rest

-- The packet of one number.
abbrev one_lost : (pid : ℕ) → Option ℕ → List (ℕ × ℕ)
one_lost pid none = []
one_lost pid (some packet_id) = if packet_id == 0 then [] else (pid, packet_id) ∷ []

report_lost-lost :
    (seq : ℕ) (s : PathSender)
    → s.mpsender ≡ true
    → lost (report_lost seq s) ≡ one_lost s.pid (find seq s.seq_id_map)
unfolding report_lost
report_lost-lost seq s h = elim (Option-cases (find seq s.seq_id_map)) [
  | inl unknown ↦ ground (arith, unknown)
  | inr (id, known) ↦ ground (arith, known, h)
]

passed_over_empty : (pid a b : ℕ) (m : List (ℕ × ℕ)) → b ≤ a → passed_over pid a b m ≡ []
passed_over_empty pid a b [] h = refl
passed_over_empty pid a b ((seq, id) ∷ m) h = ground (arith, passed_over_empty pid a b m h)

-- Numbers above `c`: whether the range starts there or at the next one is the same.
passed_over-Above :
    (pid a b c : ℕ) (m : List (ℕ × ℕ))
    → a ≤ c
    → Above c m
    → passed_over pid a b m ≡ passed_over pid (a + 1) b m
passed_over-Above pid a b c [] h v = refl
passed_over-Above pid a b c ((seq, id) ∷ m) h v =
    ground (arith, passed_over-Above pid a b seq m (omega (arith, v.0)) v.1)

-- The first number of a range, and the rest of it.
passed_over_step :
    (pid a b c : ℕ) (m : List (ℕ × ℕ))
    → a < b
    → Above c m
    → passed_over pid a b m ≡ one_lost pid (find a m) ++ passed_over pid (a + 1) b m
passed_over_step pid a b c [] h v = refl
passed_over_step pid a b c ((seq, id) ∷ m) h v = elim (Bool-cases (seq == a)) [
  | inl hit ↦
      let same : seq ≡ a = ground arith in
      let rest = passed_over-Above pid a b seq m (omega (arith, same)) v.1 in
      rw (hit, ← rest) (ground arith)
  | inr miss ↦ elim (Bool-cases (ltb a seq)) [
    | inl later ↦
        let rest = passed_over-Above pid a b seq m (ground arith) v.1 in
        let none_at = Above-find seq a m v.1 (ground arith) in
        rw (miss, none_at, ← rest) (ground arith)
    | inr earlier ↦ rw miss (ground (arith, passed_over_step pid a b seq m h v.1))
  ]
]

report_all-lost :
    (n a c : ℕ) (s : PathSender)
    → s.mpsender ≡ true
    → Above c s.seq_id_map
    → lost (report_all n a s) ≡ passed_over s.pid a (a + n) s.seq_id_map
unfolding report_all
report_all-lost zero a c s h v = sym (passed_over_empty s.pid a (a + 0) s.seq_id_map (omega arith))
report_all-lost (suc n) a c s h v =
    lost-append (report_lost a s) (report_all n (a + 1) s)
    ∙ rw (report_lost-lost a s h, report_all-lost n (a + 1) c s h v)
        (sym (passed_over_step s.pid a (a + 1 + n) c s.seq_id_map (omega arith) v)
          ∙ ap (λ b. passed_over s.pid a b s.seq_id_map) (omega arith))

-- What stays lies above the bound, and above what it did before.
remove_le-Above : (c k : ℕ) (m : List (ℕ × ℕ)) → Above c m → Above (max c k) (remove_le k m)
unfolding remove_le
remove_le-Above c k [] v = tt
remove_le-Above c k ((j, id) ∷ m) v =
    ground (arith, remove_le-Above c k m (Above-mono c j m (omega (arith, v.0)) v.1))

-- What an acknowledgement of `seq` does to the numbers: all of those passed over are reported, and those
-- up to it are forgotten.
pub record Settles (seq : ℕ) (s : PathSender) (r : PathSender × List Output) : Type 0 where
  pub same_seq : r.0.seq ≡ s.seq
  pub reported : lost r.1 ≡ passed_over s.pid (s.recv_seq + 1) seq s.seq_id_map
  pub received : r.0.recv_seq ≡ max s.recv_seq seq
  pub kept : r.0.seq_id_map ≡ remove_le seq s.seq_id_map
  pub above : Above r.0.recv_seq r.0.seq_id_map

detect_loss-Settles :
    (seq : ℕ) (s : PathSender)
    → s.mpsender ≡ true
    → Above s.recv_seq s.seq_id_map
    → s.recv_seq + 1 < u64_mod
    → Settles seq s (detect_loss seq s)
unfolding detect_loss remove_seq_id_map_le
detect_loss-Settles seq s h v l =
    let first : (s.recv_seq + 1) % u64_mod ≡ s.recv_seq + 1 = omega arith in
    let all = report_all-lost (seq - (s.recv_seq + 1)) (s.recv_seq + 1) s.recv_seq s h v in
    let higher = remove_le-Above s.recv_seq seq s.seq_id_map v in
    rw first (
      if-cases {A = PathSender × List Output} (Settles seq s) (leb (s.recv_seq + 1) seq) _ _
        (λ new. record {
          same_seq = refl;
          reported =
              all ∙ ap (λ b. passed_over s.pid (s.recv_seq + 1) b s.seq_id_map) (ground arith);
          received = ground arith;
          kept = refl;
          above = subst (λ b. Above b (remove_le seq s.seq_id_map)) (ground arith) higher;
        })
        (λ old. record {
          same_seq = refl;
          reported = sym (passed_over_empty s.pid (s.recv_seq + 1) seq s.seq_id_map (ground arith));
          received = ground arith;
          kept = refl;
          above = subst (λ b. Above b (remove_le seq s.seq_id_map)) (ground arith) higher;
        }))

-- The round trip leaves what the loop reads.
record KeepsNumbers (s s' : PathSender) : Type 0 where
  same_map : s'.seq_id_map ≡ s.seq_id_map
  same_recv : s'.recv_seq ≡ s.recv_seq
  same_seq : s'.seq ≡ s.seq
  same_pid : s'.pid ≡ s.pid
  same_mpsender : s'.mpsender ≡ s.mpsender

update_rtt-KeepsNumbers : (now seq : ℕ) (s : PathSender) → KeepsNumbers s (update_rtt now seq s)
unfolding update_rtt learn_rtt learn_delay remove_seq_delay_map_le remove_id_delay_map_le
    update_aggregete_delay
update_rtt-KeepsNumbers now seq s = ground arith

-- The upper layer is set, and the numbers that are not settled are above the last one
-- acknowledged, which is below 2 ^ 64 - 1. An acknowledgement of `seq` then reports as lost, in
-- order and each once, exactly the packets sent under unsettled numbers below `seq`, padding
-- excepted; the last number acknowledged becomes `seq` where that is more; and only numbers
-- above it stay unsettled.
pub on_ack-Settles :
    (now seq : ℕ) (s : PathSender)
    → s.mpsender ≡ true
    → Above s.recv_seq s.seq_id_map
    → s.recv_seq + 1 < u64_mod
    → Settles seq s (on_ack now seq s)
unfolding on_ack
on_ack-Settles now seq s h v l =
    let k = update_rtt-KeepsNumbers now seq s in
    let s' = update_rtt now seq s in
    let d =
      detect_loss-Settles seq s' (k.same_mpsender ∙ h) (rw (k.same_map, k.same_recv) v)
        (rw k.same_recv l) in
    record {
      same_seq = d.same_seq ∙ k.same_seq;
      reported = d.reported ∙ rw (k.same_map, k.same_recv, k.same_pid) refl;
      received = d.received ∙ rw k.same_recv refl;
      kept = d.kept ∙ rw k.same_map refl;
      above = d.above;
    }
