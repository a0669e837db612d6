-- ===== src/PathReceiver/Ack.antt =====
-- ns3/mp-video/model/pathreceiver.cc: the acknowledgement that `VideoRealAck` builds.
use mp_video_simulation.Prelude.{
  ℕ, zero, suc, ◌+◌, ◌-◌, ◌%◌, ◌≤◌, ◌<◌, ◌≡◌, refl, List, [], ◌∷◌, Bool, true, false, ◌||◌, ◌&&◌,
  ltb, ◌==◌, if◌then◌else◌, add32, u16_mod, length, drop, All, arith, Bool-cases, inl, inr, ◌∙◌,
}
use mp_video_simulation.Prelude.OrderedSet.{contains}
use mp_video_simulation.Protocol.{SegmentAck, nack_num}
use mp_video_simulation.PathReceiver.Tables.{Tables}
use mp_video_simulation.PathReceiver.Tables.Partition.{IsPartitioned, is_missing}

-- PATH_ACK_REAL_TIME and PATH_ACK_HB_TIME have passed since the last acknowledgement.
unfoldable pub is_ack_due : ℕ → ℕ → ℕ → Bool
is_ack_due hb ack_ts now = (hb == 0 && ltb (add32 ack_ts 20) now) || ltb (add32 ack_ts 200) now

-- The loop over the loss table; `room` is what is left of the array. Entries are uint16_t.
unfoldable pub collect_nacks : ℕ → ℕ → List ℕ → List ℕ
collect_nacks room base [] = []
collect_nacks zero base (key ∷ keys) = if ltb key base then collect_nacks zero base keys else []
collect_nacks (suc room) base (key ∷ keys) = elim (ltb key base) [
  | true ↦ collect_nacks (suc room) base keys
  | false ↦ (key - base) % u16_mod ∷ collect_nacks room base keys
]

-- Only the newest 80 losses are looked at.
unfoldable pub make_ack : ℕ → Tables → SegmentAck
unfolding collect_nacks
make_ack seq t = record {
  base_packet_id = t.base_seq;
  acked_packet_id = seq;
  nack = collect_nacks nack_num t.base_seq (drop (length t.loss - nack_num) t.loss);
}

length-collect_nacks :
    (room base : ℕ) (keys : List ℕ) → length (collect_nacks room base keys) ≤ room
unfolding collect_nacks
length-collect_nacks room base [] = omega arith
length-collect_nacks zero base (k ∷ keys) = ground (arith, length-collect_nacks zero base keys)
length-collect_nacks (suc room) base (k ∷ keys) =
    ground (arith, length-collect_nacks (suc room) base keys, length-collect_nacks room base keys)

module _ (P : ℕ → Type 0) where
  All-collect_nacks :
      (room base : ℕ) (keys : List ℕ)
      → All (λ k. (k < base + u16_mod) × P k) keys
      → All (λ m. P (base + m)) (collect_nacks room base keys)
  unfolding collect_nacks
  All-collect_nacks room base [] h = tt
  All-collect_nacks zero base (k ∷ keys) h = ground (arith, All-collect_nacks zero base keys h.1)
  All-collect_nacks (suc room) base (k ∷ keys) h = elim (Bool-cases (ltb k base)) [
    | inl old ↦ rw (old, collect_nacks) (All-collect_nacks (suc room) base keys h.1)
    | inr new ↦
        let e : base + (k - base) % u16_mod ≡ k = ground (arith, h.0.0) in
        rw (new, collect_nacks) (rw e h.0.1, All-collect_nacks room base keys h.1)
  ]

  All-of_contains : (keys : List ℕ) → ((k : ℕ) → contains keys k ≡ true → P k) → All P keys
  All-of_contains [] h = tt
  All-of_contains (k ∷ keys) h =
      (h k (ground arith), All-of_contains keys (λ j e. h j (ground arith)))

  All-drop : (n : ℕ) (keys : List ℕ) → All P keys → All P (drop n keys)
  All-drop zero keys h = h
  All-drop (suc n) [] h = tt
  All-drop (suc n) (k ∷ keys) h = All-drop n keys h.1

contains-collect_nacks :
    (room base m : ℕ) (keys : List ℕ)
    → All (λ k. (base ≤ k) × (k < base + u16_mod)) keys
    → length keys ≤ room
    → contains (collect_nacks room base keys) m ≡ contains keys (base + m)
unfolding collect_nacks
contains-collect_nacks room base m [] h l = refl
contains-collect_nacks zero base m (k ∷ keys) h l = absurd (omega arith)
contains-collect_nacks (suc room) base m (k ∷ keys) h l =
    ground (arith, contains-collect_nacks room base m keys h.1)

loss_lem :
    (t : Tables) (k : ℕ)
    → IsPartitioned t
    → t.max_seq < t.base_seq + u16_mod
    → contains t.loss k ≡ true
    → (t.base_seq ≤ k) × (k < t.base_seq + u16_mod) × (is_missing t k ≡ true)
loss_lem t k v near e = ground (arith, v.loss_missing k)

-- An acknowledgement of exact tables, whose newest packet is less than 2^16 above the base,
-- names the base and at most 80 packets, and each packet that it asks for has not come in.
pub make_ack_sound :
    (seq : ℕ) (t : Tables)
    → IsPartitioned t
    → t.max_seq < t.base_seq + u16_mod
    → ((make_ack seq t).base_packet_id ≡ t.base_seq)
      × ((make_ack seq t).acked_packet_id ≡ seq)
      × (length (make_ack seq t).nack ≤ nack_num)
      × All (λ m. is_missing t (t.base_seq + m) ≡ true) (make_ack seq t).nack
unfolding make_ack
make_ack_sound seq t v near = (
  refl,
  refl,
  length-collect_nacks nack_num t.base_seq (drop (length t.loss - nack_num) t.loss),
  All-collect_nacks (λ k. is_missing t k ≡ true) nack_num t.base_seq _
      (All-drop _ (length t.loss - nack_num) t.loss (
        All-of_contains _ t.loss
          λ k e. let (low, high, missing) = loss_lem t k v near e in (high, missing))),
)

-- With at most 80 losses, exact tables and a newest packet less than 2^16 above the base, an
-- acknowledgement asks for exactly the packets that have not come in.
pub make_ack_complete :
    (seq : ℕ) (t : Tables)
    → IsPartitioned t
    → t.max_seq < t.base_seq + u16_mod
    → length t.loss ≤ nack_num
    → (m : ℕ) → contains (make_ack seq t).nack m ≡ is_missing t (t.base_seq + m)
unfolding make_ack
make_ack_complete seq t v near few m =
    let none_left : length t.loss - nack_num ≡ 0 = omega arith in
    rw none_left (
      contains-collect_nacks nack_num t.base_seq m t.loss
        (All-of_contains _ t.loss
          λ k e. let (low, high, missing) = loss_lem t k v near e in (low, high))
        few
      ∙ v.loss_missing (t.base_seq + m))
