-- ===== src/PathReceiver/Tables/Partition.antt =====
-- The loss table holds exactly the packets up to the newest that have not come in.
use mp_video_simulation.Prelude.{
  ℕ, zero, suc, ◌+◌, ◌-◌, ◌≤◌, ◌<◌, ◌≡◌, refl, ◌∙◌, inl, inr, List, [], ◌∷◌, Bool, true, ◌||◌, ◌&&◌,
  not, leb, ltb, ◌==◌, add32, arith, Bool-cases,
}
use mp_video_simulation.Prelude.OrderedSet
use mp_video_simulation.Prelude.OrderedSet.{
  contains, Above, Above-mono, Above-contains, contains-insert, insert-Above, contains-erase,
  erase-Above,
}
use mp_video_simulation.PathReceiver.Tables.{
  Tables, remove_until, add_missing, update_loss, update_max, update_recv_table,
  recv_table_remove_until, loss_table_remove_until, consume, start_at, enter_packet,
}
use mp_video_simulation.PathReceiver.Tables.Prefix.{
  IsId, IsTight, received, received_by, update_recv_table_lem, recv_table_remove_until_lem,
}

-- What the loss table has to be: the packets up to the newest one that have not come in.
abbrev pub is_missing : Tables → ℕ → Bool
is_missing t n = leb n t.max_seq && not (received t n)

pub record IsPartitioned (t : Tables) : Type 0 where
  pub tight : IsTight t
  pub max_id : IsId t.max_seq
  pub loss_sorted : Above 0 t.loss
  pub loss_missing : (n : ℕ) → contains t.loss n ≡ is_missing t n
  pub received_le : (n : ℕ) → received t n ≡ true → n ≤ t.max_seq

contains-add_missing :
    (rounds i n : ℕ) (loss : List ℕ)
    → contains (add_missing rounds i loss) n ≡ ((leb i n && ltb n (i + rounds)) || contains loss n)
unfolding add_missing
contains-add_missing zero i n loss = ground arith
contains-add_missing (suc rounds) i n loss = ground (
  arith,
  contains-add_missing rounds (i + 1) n loss,
  contains-add_missing rounds (i + 1) n (OrderedSet.insert i loss),
  contains-insert i n loss,
)

add_missing-Above :
    (rounds i : ℕ) (loss : List ℕ) → 0 < i → Above 0 loss → Above 0 (add_missing rounds i loss)
unfolding add_missing
add_missing-Above zero i loss h a = a
add_missing-Above (suc rounds) i loss h a = ground (
  arith,
  add_missing-Above rounds (i + 1) loss,
  add_missing-Above rounds (i + 1) (OrderedSet.insert i loss),
  insert-Above 0 i loss h a,
)

contains-remove_until :
    (seq b n : ℕ) (keys : List ℕ)
    → Above b keys
    → contains (remove_until seq keys) n ≡ (ltb seq n && contains keys n)
unfolding remove_until
contains-remove_until seq b n [] a = ground arith
contains-remove_until seq b n (k ∷ keys) a =
    ground (arith, contains-remove_until seq k n keys a.1, Above-contains k n keys a.1)

remove_until-Above_same :
    (seq b : ℕ) (keys : List ℕ) → Above b keys → Above b (remove_until seq keys)
unfolding remove_until
remove_until-Above_same seq b [] a = tt
remove_until-Above_same seq b (k ∷ keys) a =
    ground (arith, remove_until-Above_same seq k keys a.1, Above-mono b k (remove_until seq keys))

update_recv_table_rest :
    (seq : ℕ) (t : Tables)
    → ((update_recv_table seq t).max_seq ≡ t.max_seq) × ((update_recv_table seq t).loss ≡ t.loss)
unfolding update_recv_table
update_recv_table_rest seq t = ground arith

recv_table_remove_until_rest :
    (seq : ℕ) (t : Tables)
    → ((recv_table_remove_until seq t).max_seq ≡ t.max_seq)
      × ((recv_table_remove_until seq t).loss ≡ t.loss)
unfolding recv_table_remove_until
recv_table_remove_until_rest seq t = ground arith

no_keys :
    (base : ℕ) (keys : List ℕ)
    → Above (base + 1) keys
    → ((n : ℕ) → received_by base keys n ≡ true → n ≤ 0)
    → keys ≡ []
no_keys base [] a h = refl
no_keys base (k ∷ keys) a h = absurd (ground (arith, h k))

restart-IsPartitioned :
    (p : ℕ) (t : Tables)
    → IsId p
    → t.max_seq ≡ 0
    → IsPartitioned t
    → IsPartitioned (record t { max_seq = p; base_seq = p })
restart-IsPartitioned p t i z v =
    let nothing =
      no_keys t.base_seq t.recv_table v.tight.keys_above (λ n h. rw (← z) (v.received_le n h)) in
    record {
      tight = record { base_id = i; keys_id = v.tight.keys_id; keys_above = rw nothing tt };
      max_id = i;
      loss_sorted = v.loss_sorted;
      loss_missing = λ n. ground (arith, nothing, v.loss_missing n);
      received_le = λ n. ground (arith, nothing);
    }

-- Before the first packet the table is empty, so its start is free to be moved.
start_at-IsPartitioned :
    (packet_id index : ℕ) (t : Tables)
    → IsId packet_id
    → IsPartitioned t
    → IsPartitioned (start_at packet_id index t)
unfolding start_at
start_at-IsPartitioned packet_id index t i v = elim (Bool-cases (t.max_seq == 0)) [
  | inl fresh ↦ elim (Bool-cases (ltb index packet_id)) [
    | inl later ↦
        rw (fresh, later)
          (restart-IsPartitioned (packet_id - index - 1) t (omega arith) (ground arith) v)
    | inr early ↦ rw (fresh, early) v
  ]
  | inr running ↦ rw running v
]

module _ (seq : ℕ) (t : Tables) (i : IsId seq) (v : IsPartitioned t) where
  -- The tables between the loss update and the receive update.
  marked : Tables
  unfolding update_loss update_max
  marked = update_max seq (update_loss seq t)

  marked-IsTight : IsTight marked
  unfolding marked
  marked-IsTight = record {
    base_id = v.tight.base_id;
    keys_id = v.tight.keys_id;
    keys_above = v.tight.keys_above;
  }

  contains-marked :
      (n : ℕ)
      → contains marked.loss n
        ≡ ((ltb t.max_seq n && ltb n seq) || (not (seq == n) && contains t.loss n))
  unfolding marked
  contains-marked n = ground (
    arith,
    v.max_id,
    contains-add_missing (seq - add32 t.max_seq 1) (add32 t.max_seq 1) n
        (OrderedSet.erase seq t.loss),
    contains-erase 0 seq n t.loss v.loss_sorted,
  )

  marked-sorted : Above 0 marked.loss
  unfolding marked
  marked-sorted =
      add_missing-Above (seq - add32 t.max_seq 1) (add32 t.max_seq 1) _ (omega (arith, v.max_id))
        (erase-Above 0 seq t.loss v.loss_sorted)

  entered-IsPartitioned : IsPartitioned (update_recv_table seq marked)
  unfolding marked
  entered-IsPartitioned =
      let (tight, add) = update_recv_table_lem seq marked i marked-IsTight in
      let (same_max, same_loss) = update_recv_table_rest seq marked in
      record {
        tight = tight;
        max_id = rw same_max (ground (arith, v.max_id));
        loss_sorted = rw same_loss marked-sorted;
        loss_missing = λ n.
            rw (same_loss, same_max, add n)
              (ground (arith, contains-marked n, v.loss_missing n, v.received_le n));
        received_le = λ n. rw (same_max, add n) (ground (arith, v.received_le n));
      }

-- A packet keeps the loss table exact: it holds just the packets up to the newest that have not
-- come in. For any packet id that + 1 does not wrap.
pub enter_packet-IsPartitioned :
    (packet_id index : ℕ) (t : Tables)
    → IsId packet_id
    → IsPartitioned t
    → IsPartitioned (enter_packet packet_id index t)
unfolding enter_packet marked
enter_packet-IsPartitioned packet_id index t i v =
    entered-IsPartitioned packet_id (start_at packet_id index t) i
      (start_at-IsPartitioned packet_id index t i v)

-- A packet marks itself as come in and changes nothing else of the set, but that before the
-- first packet it also settles where counting starts.
pub received-enter_packet :
    (packet_id index : ℕ) (t : Tables)
    → IsId packet_id
    → IsPartitioned t
    → (n : ℕ)
    → received (enter_packet packet_id index t) n
      ≡ ((packet_id == n) || received (start_at packet_id index t) n)
unfolding enter_packet marked
received-enter_packet packet_id index t i v n =
    let u : Tables = start_at packet_id index t in
    let w = start_at-IsPartitioned packet_id index t i v in
    (update_recv_table_lem packet_id (update_max packet_id (update_loss packet_id u)) i
        (marked-IsTight packet_id u i w)).1
      n
    ∙ ground arith

-- Giving up a packet that is not newer than the newest keeps the loss table exact.
pub consume-IsPartitioned :
    (packet_id : ℕ) (t : Tables)
    → packet_id ≤ t.max_seq
    → IsPartitioned t
    → IsPartitioned (consume packet_id t)
unfolding consume loss_table_remove_until
consume-IsPartitioned p t h v =
    let u : Tables = loss_table_remove_until p t in
    let same : IsTight u = record {
      base_id = v.tight.base_id;
      keys_id = v.tight.keys_id;
      keys_above = v.tight.keys_above;
    } in
    let (tight, add) = recv_table_remove_until_lem p u (omega (arith, v.max_id)) same in
    let (same_max, same_loss) = recv_table_remove_until_rest p u in
    record {
      tight = tight;
      max_id = rw same_max v.max_id;
      loss_sorted = rw same_loss (remove_until-Above_same p 0 t.loss v.loss_sorted);
      loss_missing = λ n.
          rw (same_loss, same_max, add n)
            (ground (arith, contains-remove_until p 0 n t.loss v.loss_sorted, v.loss_missing n));
      received_le = λ n. rw (same_max, add n) (ground (arith, v.received_le n));
    }
