-- ===== src/PathReceiver/Tables.antt =====
-- ns3/mp-video/model/pathreceiver.cc: the loss table, the receive table and the base sequence.
pub mod Prefix
pub mod Partition
use mp_video_simulation.Prelude.{
  ℕ, zero, suc, ◌+◌, ◌-◌, List, [], ◌∷◌, Bool, true, false, ◌||◌, leb, ltb, ◌==◌, if◌then◌else◌,
  add32,
}
use mp_video_simulation.Prelude.OrderedSet
use mp_video_simulation.Prelude.OrderedSet.{contains}

-- base_seq_, max_seq_, loss_ and recv_table_.
pub record Tables : Type 0 where
  pub base_seq : ℕ
  pub max_seq : ℕ
  pub loss : List ℕ
  pub recv_table : List ℕ

-- The loops that erase the front of a set while it is at most `seq`.
unfoldable pub remove_until : ℕ → List ℕ → List ℕ
remove_until seq [] = []
remove_until seq (key ∷ keys) = if leb key seq then remove_until seq keys else key ∷ keys

-- The loop that moves the base over the keys that follow it without a gap.
unfoldable pub absorb : ℕ → List ℕ → ℕ × List ℕ
absorb base [] = (base, [])
absorb base (key ∷ keys) = if key == add32 base 1 then absorb key keys else (base, key ∷ keys)

absorb_tables : ℕ → List ℕ → Tables → Tables
absorb_tables base keys t =
    let (base_seq, recv_table) = absorb base keys in
    record t { base_seq = base_seq; recv_table = recv_table }

-- `for (i = max_seq_ + 1; i < seq; i++)`, on the count of rounds left.
unfoldable pub add_missing : ℕ → ℕ → List ℕ → List ℕ
add_missing zero i loss = loss
add_missing (suc rounds) i loss =
    add_missing rounds (i + 1) (if contains loss i then loss else OrderedSet.insert i loss)

unfoldable pub update_loss : ℕ → Tables → Tables
update_loss seq t =
    let first = add32 t.max_seq 1 in
    record t { loss = add_missing (seq - first) first (OrderedSet.erase seq t.loss) }

unfoldable pub update_max : ℕ → Tables → Tables
update_max seq t = record t { max_seq = if ltb seq t.max_seq then t.max_seq else seq }

-- An in-order packet moves the base, any other enters the table.
unfoldable pub update_recv_table : ℕ → Tables → Tables
unfolding absorb_tables
update_recv_table seq t =
    if seq == add32 t.base_seq 1
    then absorb_tables seq (remove_until seq t.recv_table) t
    else absorb_tables t.base_seq (remove_until t.base_seq (OrderedSet.insert seq t.recv_table)) t

unfoldable pub loss_table_remove_until : ℕ → Tables → Tables
loss_table_remove_until seq t = record t { loss = remove_until seq t.loss }

unfoldable pub recv_table_remove_until : ℕ → Tables → Tables
unfolding absorb_tables
recv_table_remove_until seq t =
    absorb_tables (if leb t.base_seq seq then seq else t.base_seq) (remove_until seq t.recv_table) t

-- `Consume`, which the frame assembly calls for each packet of a frame that it gives up.
unfoldable pub consume : ℕ → Tables → Tables
unfolding loss_table_remove_until recv_table_remove_until
consume packet_id t = recv_table_remove_until packet_id (loss_table_remove_until packet_id t)

-- `CheckRecvTableExist`.
unfoldable pub check_recv_table_exist : ℕ → Tables → Bool
check_recv_table_exist seq t = contains t.recv_table seq

-- What a packet that passes the two guards of `OnReceiveSegment` does to the tables.
unfoldable pub start_at : ℕ → ℕ → Tables → Tables
start_at packet_id index t =
    if t.max_seq == 0
    then (if ltb index packet_id
        then record t { max_seq = packet_id - index - 1; base_seq = packet_id - index - 1 }
        else t)
    else t

unfoldable pub enter_packet : ℕ → ℕ → Tables → Tables
unfolding start_at update_loss update_max update_recv_table
enter_packet packet_id index t =
    update_recv_table packet_id
      (update_max packet_id (update_loss packet_id (start_at packet_id index t)))

-- The guards: a packet that waits in the table, or that is older than the base, is dropped.
unfoldable pub is_stale : ℕ → Tables → Bool
unfolding check_recv_table_exist
is_stale seq t = check_recv_table_exist seq t || ltb seq t.base_seq
