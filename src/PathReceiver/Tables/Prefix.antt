-- ===== src/PathReceiver/Tables/Prefix.antt =====
-- The receive table stands for the set of packets that have come in: all up to the base, and
-- those of the table.
use mp_video_simulation.Prelude.{
  ℕ, ◌+◌, ◌≤◌, ◌<◌, ◌≡◌, refl, ◌∙◌, inl, inr, List, [], ◌∷◌, Bool, ◌||◌, not, ◌&&◌, leb, ◌==◌,
  add32, u32_mod, All, arith, Bool-cases, leb→le,
}
use mp_video_simulation.Prelude.OrderedSet
use mp_video_simulation.Prelude.OrderedSet.{
  contains, Above, Above-mono, Above-contains, contains-insert, insert-Above, All-insert,
  insert_front,
}
use mp_video_simulation.PathReceiver.Tables.{
  Tables, is_stale, remove_until, absorb, absorb_tables, update_recv_table, recv_table_remove_until,
}

-- The abstract view.
abbrev pub received_by : ℕ → List ℕ → ℕ → Bool
received_by base keys n = leb n base || contains keys n

abbrev pub received : Tables → ℕ → Bool
received t n = received_by t.base_seq t.recv_table n

-- Ids that `+ 1` does not wrap.
abbrev pub IsId : ℕ → Type 0
IsId n = n + 1 < u32_mod

-- The table is increasing and does not hold the successor of the base: the base is the end of the
-- longest run of packets without a gap.
pub record IsTight (t : Tables) : Type 0 where
  pub base_id : IsId t.base_seq
  pub keys_id : All IsId t.recv_table
  pub keys_above : Above (t.base_seq + 1) t.recv_table

remove_until-Above : (seq b : ℕ) (keys : List ℕ) → Above b keys → Above seq (remove_until seq keys)
unfolding remove_until
remove_until-Above seq b [] a = tt
remove_until-Above seq b (k ∷ keys) a = ground (arith, remove_until-Above seq k keys a.1)

remove_until-IsId : (seq : ℕ) (keys : List ℕ) → All IsId keys → All IsId (remove_until seq keys)
unfolding remove_until
remove_until-IsId seq [] a = tt
remove_until-IsId seq (k ∷ keys) a = ground (arith, remove_until-IsId seq keys a.1)

remove_until_low :
    (seq b : ℕ) (keys : List ℕ) → seq ≤ b → Above b keys → remove_until seq keys ≡ keys
unfolding remove_until
remove_until_low seq b [] h a = refl
remove_until_low seq b (k ∷ keys) h a = ground arith

received_by-remove_until :
    (seq n b : ℕ) (keys : List ℕ)
    → Above b keys
    → received_by seq (remove_until seq keys) n ≡ received_by seq keys n
unfolding remove_until
received_by-remove_until seq n b [] a = refl
received_by-remove_until seq n b (k ∷ keys) a =
    ground (arith, received_by-remove_until seq n k keys a.1)

absorb-received :
    (base n : ℕ) (keys : List ℕ)
    → IsId base
    → All IsId keys
    → Above base keys
    → received_by (absorb base keys).0 (absorb base keys).1 n ≡ received_by base keys n
unfolding absorb
absorb-received base n [] i is a = refl
absorb-received base n (k ∷ keys) i is a =
    ground (arith, absorb-received k n keys is.0 is.1 a.1, Above-contains k n keys a.1)

absorb-IsTight :
    (base : ℕ) (keys : List ℕ)
    → IsId base
    → All IsId keys
    → Above base keys
    → IsId (absorb base keys).0
      × All IsId (absorb base keys).1
      × Above ((absorb base keys).0 + 1) (absorb base keys).1
unfolding absorb
absorb-IsTight base [] i is a = (i, tt, tt)
absorb-IsTight base (k ∷ keys) i is a = ground (arith, absorb-IsTight k keys is.0 is.1 a.1)

absorb_tables-received :
    (base : ℕ) (keys : List ℕ) (t : Tables) (n : ℕ)
    → IsId base
    → All IsId keys
    → Above base keys
    → received (absorb_tables base keys t) n ≡ received_by base keys n
unfolding absorb_tables
absorb_tables-received base keys t n i is a = absorb-received base n keys i is a

absorb_tables-IsTight :
    (base : ℕ) (keys : List ℕ) (t : Tables)
    → IsId base
    → All IsId keys
    → Above base keys
    → IsTight (absorb_tables base keys t)
unfolding absorb_tables
absorb_tables-IsTight base keys t i is a =
    let (x, y, z) = absorb-IsTight base keys i is a in
    record { base_id = x; keys_id = y; keys_above = z }

module _ (seq : ℕ) (t : Tables) (i : IsId seq) (v : IsTight t) where
  recv_table-Above : Above t.base_seq t.recv_table
  recv_table-Above = Above-mono _ _ t.recv_table (omega arith) v.keys_above

  in_order : List ℕ
  in_order = remove_until seq t.recv_table

  out_of_order : List ℕ
  out_of_order = remove_until t.base_seq (OrderedSet.insert seq t.recv_table)

  in_order_lem :
      seq ≡ t.base_seq + 1
      → All IsId in_order
        × Above seq in_order
        × ((n : ℕ) → received_by seq in_order n ≡ (seq == n) || received t n)
  unfolding in_order
  in_order_lem e = (
    remove_until-IsId seq t.recv_table v.keys_id,
    remove_until-Above seq _ t.recv_table v.keys_above,
    λ n. ground (arith, received_by-remove_until seq n _ t.recv_table v.keys_above),
  )

  out_of_order_lem :
      All IsId out_of_order
      × Above t.base_seq out_of_order
      × ((n : ℕ) → received_by t.base_seq out_of_order n ≡ (seq == n) || received t n)
  unfolding out_of_order remove_until
  out_of_order_lem = elim (Bool-cases (leb seq t.base_seq)) [
    | inl late ↦
        let front = insert_front seq _ t.recv_table (omega (arith, leb→le _ _ late)) v.keys_above in
        rw (front, late)
          (
            remove_until-IsId t.base_seq t.recv_table v.keys_id,
            remove_until-Above t.base_seq _ t.recv_table v.keys_above,
            λ n. ground (arith, received_by-remove_until t.base_seq n _ t.recv_table v.keys_above),
          )
    | inr early ↦
        let low : t.base_seq < seq = ground arith in
        let above =
          insert-Above t.base_seq seq t.recv_table low
            (Above-mono _ _ t.recv_table (omega arith) v.keys_above) in
        (
          remove_until-IsId t.base_seq _ (All-insert IsId seq t.recv_table i v.keys_id),
          remove_until-Above t.base_seq _ _ above,
          λ n. ground (
            arith,
            received_by-remove_until t.base_seq n _ _ above,
            contains-insert seq n t.recv_table,
          ),
        )
  ]

  -- The receive table refines the set of the packets that have come in: a packet adds itself to
  -- the set and nothing else, and the base ends up at the end of the longest run without a gap.
  pub update_recv_table_lem :
      IsTight (update_recv_table seq t)
      × ((n : ℕ) → received (update_recv_table seq t) n ≡ (seq == n) || received t n)
  unfolding update_recv_table in_order out_of_order
  update_recv_table_lem = elim (Bool-cases (seq == add32 t.base_seq 1)) [
    | inl next ↦
        let (a, b, c) = in_order_lem (ground (arith, v.base_id)) in
        rw next
          (absorb_tables-IsTight seq _ t i a b, λ n. absorb_tables-received seq _ t n i a b ∙ c n)
    | inr gap ↦
        let (a, b, c) = out_of_order_lem in
        rw gap (
          absorb_tables-IsTight t.base_seq _ t v.base_id a b,
          λ n. absorb_tables-received t.base_seq _ t n v.base_id a b ∙ c n,
        )
  ]

  -- Giving up a packet counts all packets up to it as come in, and nothing else, and the base
  -- ends up at the end of the longest run without a gap.
  pub recv_table_remove_until_lem :
      IsTight (recv_table_remove_until seq t)
      × ((n : ℕ) → received (recv_table_remove_until seq t) n ≡ leb n seq || received t n)
  unfolding recv_table_remove_until
  recv_table_remove_until_lem = elim (Bool-cases (leb t.base_seq seq)) [
    | inl up ↦ rw up (
      absorb_tables-IsTight seq _ t i (remove_until-IsId seq t.recv_table v.keys_id)
          (remove_until-Above seq _ t.recv_table v.keys_above),
      λ n.
          absorb_tables-received seq _ t n i (remove_until-IsId seq t.recv_table v.keys_id)
            (remove_until-Above seq _ t.recv_table v.keys_above)
          ∙ ground (arith, received_by-remove_until seq n _ t.recv_table v.keys_above),
    )
    | inr old ↦
        let kept = remove_until_low seq _ t.recv_table (ground arith) v.keys_above in
        rw (old, kept)
          (
            absorb_tables-IsTight t.base_seq _ t v.base_id v.keys_id recv_table-Above,
            λ n.
                absorb_tables-received t.base_seq _ t n v.base_id v.keys_id recv_table-Above
                ∙ ground (arith, Above-contains (t.base_seq + 1) n t.recv_table v.keys_above),
          )
  ]

-- The guards of OnReceiveSegment drop exactly the packets that have come in, but for the base
-- itself: a second copy of the packet at the base is taken again.
pub is_stale-eq-received :
    (seq : ℕ) (t : Tables)
    → IsTight t
    → is_stale seq t ≡ (received t seq && not (seq == t.base_seq))
unfolding is_stale
is_stale-eq-received seq t v =
    ground (arith, Above-contains (t.base_seq + 1) seq t.recv_table v.keys_above)
