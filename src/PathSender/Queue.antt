-- ===== src/PathSender/Queue.antt =====
-- The buffer of ns3/mp-video/model/pathsender.cc as a queue, and its byte accounts.
use mp_video_simulation.Prelude.{
  ℕ, suc, ◌+◌, ◌%◌, ◌<◌, ◌≡◌, ◌∙◌, refl, sym, ap, inl, inr, Bool, Option, none, some, List, [], ◌∷◌,
  ◌++◌, add16, u32_mod, u16_mod, arith, Option-cases, subst,
}
use mp_video_simulation.Prelude.OrderedMap
use mp_video_simulation.Prelude.OrderedMap.{
  find, Above, sum_values, sum_values-insert, sum_values-erase, insert-Above, erase-Above,
}
use mp_video_simulation.Protocol.{Segment, wire_size}
use mp_video_simulation.PathSender.State.{PathSender}
use mp_video_simulation.PathSender.Buffer.{
  enqueue, number_segment, get_first, get_segment, leave_buf, free_len,
}

-- The segments of a buffer by their keys.
abbrev pub segments : List (ℕ × Segment) → List Segment
segments [] = []
segments ((id, seg) ∷ buf) = seg ∷ segments buf

-- All keys are below a bound.
abbrev pub Below : ℕ → List (ℕ × Segment) → Type 0
Below b [] = Unit
Below b ((id, seg) ∷ buf) = (id < b) × Below b buf

-- The byte counts are those of the segments in the buffer.
pub record IsAccounted (s : PathSender) : Type 0 where
  pub len_eq : s.len ≡ sum_values wire_size s.buf % u32_mod
  pub pending_eq : s.pending_len ≡ sum_values wire_size s.buf % u32_mod

pub insert-last :
    (k : ℕ) (v : Segment) (buf : List (ℕ × Segment))
    → Below k buf
    → OrderedMap.insert k v buf ≡ buf ++ (k, v) ∷ []
unfolding OrderedMap.insert
insert-last k v [] b = refl
insert-last k v ((j, w) ∷ buf) b = ground (arith, insert-last k v buf b.1)

pub segments-append :
    (xs ys : List (ℕ × Segment)) → segments (xs ++ ys) ≡ segments xs ++ segments ys
segments-append [] ys = refl
segments-append ((id, seg) ∷ xs) ys = ap (◌∷◌ seg) (segments-append xs ys)

pub Below-append :
    (b c : ℕ) (v : Segment) (buf : List (ℕ × Segment))
    → Below b buf
    → b < c
    → Below c (buf ++ (b, v) ∷ [])
Below-append b c v [] h i = (i, tt)
Below-append b c v ((j, w) ∷ buf) h i = (omega arith, Below-append b c v buf h.1 i)

-- Until the 16-bit transport number wraps, a segment that is put joins the end of the queue of
-- waiting segments with the next two numbers, and the keys stay below the next number.
pub enqueue-last :
    (seg : Segment) (s : PathSender)
    → Below s.trans_seq s.buf
    → s.trans_seq + 1 < u16_mod
    → let s' = enqueue seg s in
      (segments s'.buf ≡ segments s.buf ++ number_segment seg s ∷ []) × Below s'.trans_seq s'.buf
unfolding enqueue
enqueue-last seg s b h =
    let next : add16 s.trans_seq 1 ≡ s.trans_seq + 1 = omega arith in
    rw (insert-last s.trans_seq (number_segment seg s) s.buf b, next)
      (
        segments-append s.buf _,
        Below-append s.trans_seq (s.trans_seq + 1) (number_segment seg s) s.buf b (omega arith),
      )

-- The first segment leaves, where there is one.
abbrev IsTaken : PathSender → PathSender × Option Segment → Type 0
IsTaken s (s', none) = (s' ≡ s) × (s.buf ≡ [])
IsTaken s (s', some seg) =
    (id : ℕ) × (rest : List (ℕ × Segment)) × (s' ≡ leave_buf seg rest s)
    × (s.buf ≡ (id, seg) ∷ rest)

get_first-IsTaken : (s : PathSender) → IsTaken s (get_first s)
unfolding get_first
get_first-IsTaken s =
    (elim s.buf
        as (λ b.
          s.buf ≡ b
          → IsTaken s
              (elim b [ [] ↦ (s, none) | (id, seg) ∷ rest ↦ (leave_buf seg rest s, some seg) ])) [
                | [] ↦ λ e. (refl, e)
                | (id, seg) ∷ rest ↦ λ e. (id, rest, refl, e)
              ])
      refl

IsTaken-front :
    (s s' : PathSender) (first : Option Segment)
    → IsTaken s (s', first)
    → segments s.buf ≡ elim first [ none ↦ segments s'.buf | some seg ↦ seg ∷ segments s'.buf ]
IsTaken-front s s' none (e, b) = ap (λ t. segments t.buf) (sym e)
IsTaken-front s s' (some seg) (id, rest, e, b) =
    ap segments b ∙ ap (λ t. seg ∷ segments t.buf) (sym e)

pub enqueue-IsAccounted :
    (seg : Segment) (s : PathSender)
    → find s.trans_seq s.buf ≡ none
    → IsAccounted s
    → IsAccounted (enqueue seg s)
unfolding enqueue
enqueue-IsAccounted seg s free v =
    let more = sum_values-insert wire_size s.trans_seq (number_segment seg s) s.buf free in
    record {
      len_eq = omega (arith, more, v.len_eq);
      pending_eq = omega (arith, more, v.pending_eq);
    }

-- A segment that leaves the buffer takes its bytes along.
leave_buf-IsAccounted :
    (seg : Segment) (rest : List (ℕ × Segment)) (s : PathSender)
    → sum_values wire_size s.buf ≡ wire_size seg + sum_values wire_size rest
    → IsAccounted s
    → IsAccounted (leave_buf seg rest s)
leave_buf-IsAccounted seg rest s e v = record {
  len_eq = omega (arith, e, v.len_eq);
  pending_eq = omega (arith, e, v.pending_eq);
}

-- Taking a segment by its transport number, or not finding it, keeps the byte counts exact.
pub get_segment-IsAccounted :
    (seq : ℕ) (retrans : Bool) (s : PathSender)
    → IsAccounted s
    → IsAccounted (get_segment seq retrans s).0
unfolding get_segment
get_segment-IsAccounted seq retrans s v = elim (Option-cases (find seq s.buf)) [
  | inl e ↦ rw (e, get_segment) (ground (arith, v))
  | inr (seg, e) ↦
      let left =
        leave_buf-IsAccounted seg (OrderedMap.erase seq s.buf) s
          (sym (sum_values-erase wire_size seq seg s.buf e)) v in
      rw (e, get_segment) (ground (arith, v, left))
]

-- Freeing the waiting segments brings the first count to 0, and leaves the second as it was.
pub free_len_lem :
    (buf : List (ℕ × Segment)) (len : ℕ)
    → len ≡ sum_values wire_size buf % u32_mod
    → free_len buf len ≡ 0
unfolding free_len
free_len_lem [] len h = h
free_len_lem ((id, seg) ∷ buf) len h = free_len_lem buf _ (omega (arith, h))

-- What the sender does to its buffer while it runs.
pub data BufferOp : Type 0 where
  enter : Segment → BufferOp
  take_first : BufferOp

-- A run of the two operations: the state after it, the segments that left, and those that entered.
abbrev pub run : List BufferOp → PathSender → PathSender × List Segment × List Segment
run [] s = (s, [], [])
run (enter seg ∷ ops) s =
    let (s', taken, entered) = run ops (enqueue seg s) in
    (s', taken, number_segment seg s ∷ entered)
run (take_first ∷ ops) s =
    let (s', taken, entered) = run ops (get_first s).0 in
    (s', elim (get_first s).1 [ none ↦ taken | some seg ↦ seg ∷ taken ], entered)

Below-find : (b : ℕ) (buf : List (ℕ × Segment)) → Below b buf → find b buf ≡ none
Below-find b [] h = refl
Below-find b ((j, w) ∷ buf) h = ground (arith, Below-find b buf h.1)

-- A sender whose buffer is a queue with exact accounts, below a bound on its transport numbers.
pub record IsQueue (s : PathSender) : Type 0 where
  pub accounted : IsAccounted s
  pub below : Below s.trans_seq s.buf

pub enqueue-IsQueue :
    (seg : Segment) (s : PathSender)
    → IsQueue s
    → s.trans_seq + 1 < u16_mod
    → IsQueue (enqueue seg s) × ((enqueue seg s).trans_seq ≡ s.trans_seq + 1)
unfolding enqueue
enqueue-IsQueue seg s v h = (
  record {
    accounted = enqueue-IsAccounted seg s (Below-find s.trans_seq s.buf v.below) v.accounted;
    below = (enqueue-last seg s v.below h).1;
  },
  omega arith,
)

IsTaken-IsQueue :
    (s s' : PathSender) (first : Option Segment)
    → IsTaken s (s', first)
    → IsQueue s
    → IsQueue s' × (s'.trans_seq ≡ s.trans_seq)
IsTaken-IsQueue s s' none (e, b) v = (subst IsQueue (sym e) v, ap (λ t. t.trans_seq) e)
IsTaken-IsQueue s s' (some seg) (id, rest, e, b) v =
    let left = leave_buf-IsAccounted seg rest s (ap (sum_values wire_size) b) v.accounted in
    let below = (subst (Below s.trans_seq) b v.below).1 in
    (subst IsQueue (sym e) (record { accounted = left; below = below }), ap (λ t. t.trans_seq) e)

-- One segment more in front, on both sides.
take-join :
    (first : Option Segment) (taken waiting rest all entered : List Segment)
    → all ≡ elim first [ none ↦ rest | some seg ↦ seg ∷ rest ]
    → taken ++ waiting ≡ rest ++ entered
    → elim first [ none ↦ taken | some seg ↦ seg ∷ taken ] ++ waiting ≡ all ++ entered
take-join none taken waiting rest all entered e h = rw e h
take-join (some seg) taken waiting rest all entered e h = rw e (ap (◌∷◌ seg) h)

pub append-[] : (xs : List Segment) → xs ++ [] ≡ xs
append-[] [] = refl
append-[] (x ∷ xs) = ap (◌∷◌ x) (append-[] xs)

pub append_assoc :
    (xs : List Segment) (x : Segment) (ys : List Segment) → (xs ++ x ∷ []) ++ ys ≡ xs ++ x ∷ ys
append_assoc [] x ys = refl
append_assoc (y ∷ xs) x ys = ap (◌∷◌ y) (append_assoc xs x ys)

abbrev pub count_entered : List BufferOp → ℕ
count_entered [] = 0
count_entered (enter seg ∷ ops) = suc (count_entered ops)
count_entered (take_first ∷ ops) = count_entered ops

-- As long as the transport numbers do not wrap, the buffer is a first-in first-out queue: what
-- a run of the sender took out, and then what still waits, is what waited before and then what
-- the run entered, in the same order with nothing lost or doubled; and the byte counts stay
-- exact.
pub run_fifo :
    (ops : List BufferOp) (s : PathSender)
    → IsQueue s
    → s.trans_seq + count_entered ops < u16_mod
    → let (s', taken, entered) = run ops s in
      IsQueue s' × (taken ++ segments s'.buf ≡ segments s.buf ++ entered)
run_fifo [] s v h = (v, sym (append-[] (segments s.buf)))
run_fifo (enter seg ∷ ops) s v h =
    let (w, next) = enqueue-IsQueue seg s v (omega arith) in
    let (last, below) = enqueue-last seg s v.below (omega arith) in
    let (x, e) = run_fifo ops (enqueue seg s) w (omega (arith, next)) in
    (x, e ∙ ap (λ l. l ++ (run ops (enqueue seg s)).2) last ∙ append_assoc (segments s.buf) _ _)
run_fifo (take_first ∷ ops) s v h =
    let t = get_first-IsTaken s in
    let (w, next) = IsTaken-IsQueue s (get_first s).0 (get_first s).1 t v in
    let (x, e) = run_fifo ops (get_first s).0 w (omega (arith, next)) in
    (x, take-join (get_first s).1 _ _ _ _ _ (IsTaken-front s (get_first s).0 (get_first s).1 t) e)
