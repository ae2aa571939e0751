-- ===== src/Queue/Fifo.antt =====
-- Sequences of operations on the queue of datagrams of crates/ssh3-core/src/queue.rs.
use ssh.Base.{
  ℕ, ◌≤◌, Bytes, List, [], ◌∷◌, ◌++◌, ◌≡◌, refl, sym, ap, ◌∙◌, Bool, true, false, Option, none,
  some, length, length-append, append_assoc, arith,
}
use ssh.Queue.Datagram.{DatagramQueue, new, add, wait_add, next, wait_next}

-- One operation, at the moment when it holds the lock.
pub data Op : Type 0 where
  add_op : Bytes → Op
  wait_add_op : Bytes → Op
  next_op : Op
  wait_next_op : Op

-- The queue with all that it has taken in and given out.
pub record History : Type 0 where
  pub state : DatagramQueue
  pub taken : List Bytes
  pub given : List Bytes

abbrev after_add : History → Bytes → Bool × DatagramQueue → History
after_add h d (true, q) = record h { state = q; taken = h.taken ++ (d ∷ []) }
after_add h d (false, q) = record h { state = q }

abbrev after_wait_add : History → Bytes → Option DatagramQueue → History
after_wait_add h d none = h
after_wait_add h d (some q) = record h { state = q; taken = h.taken ++ (d ∷ []) }

abbrev after_next : History → Option Bytes × DatagramQueue → History
after_next h (none, q) = record h { state = q }
after_next h (some d, q) = record h { state = q; given = h.given ++ (d ∷ []) }

abbrev after_wait_next : History → Option (Bytes × DatagramQueue) → History
after_wait_next h none = h
after_wait_next h (some (d, q)) = record h { state = q; given = h.given ++ (d ∷ []) }

unfoldable pub run_op : History → Op → History
run_op h (add_op d) = after_add h d (add h.state d)
run_op h (wait_add_op d) = after_wait_add h d (wait_add h.state d)
run_op h next_op = after_next h (next h.state)
run_op h wait_next_op = after_wait_next h (wait_next h.state)

unfoldable pub run : History → List Op → History
run h [] = h
run h (op ∷ ops) = run (run_op h op) ops

pub record IsFifo (room : ℕ) (h : History) : Type 0 where
  pub kept : h.state.capacity ≡ room
  pub bounded : length h.state.queue ≤ room
  pub in_order : h.given ++ h.state.queue ≡ h.taken

appended :
    (h : History) (d : Bytes)
    → h.given ++ h.state.queue ≡ h.taken
    → h.given ++ (h.state.queue ++ (d ∷ [])) ≡ h.taken ++ (d ∷ [])
appended h d e = sym (append_assoc h.given h.state.queue (d ∷ [])) ∙ ap (λ xs. xs ++ (d ∷ [])) e

module _ (room capacity : ℕ) (taken given : List Bytes) where
  -- A history over the items `xs`.
  abbrev holding : List Bytes → History
  holding xs = record {
    state = record { queue = xs; capacity = capacity };
    taken = taken;
    given = given;
  }

  next_keeps :
      (xs : List Bytes) → IsFifo room (holding xs) → IsFifo room (run_op (holding xs) next_op)
  unfolding run_op next
  next_keeps [] v = v
  next_keeps (d ∷ xs) v = record {
    kept = v.kept;
    bounded = omega arith;
    in_order = append_assoc given (d ∷ []) xs ∙ v.in_order;
  }

  wait_next_keeps :
      (xs : List Bytes) → IsFifo room (holding xs) → IsFifo room (run_op (holding xs) wait_next_op)
  unfolding run_op wait_next
  wait_next_keeps [] v = v
  wait_next_keeps (d ∷ xs) v = record {
    kept = v.kept;
    bounded = omega arith;
    in_order = append_assoc given (d ∷ []) xs ∙ v.in_order;
  }

run_op-IsFifo : (room : ℕ) (h : History) (op : Op) → IsFifo room h → IsFifo room (run_op h op)
run_op-IsFifo room h (add_op d) v =
    unfold run_op add in ground (arith, appended h d, length-append h.state.queue (d ∷ []))
run_op-IsFifo room h (wait_add_op d) v =
    unfold run_op wait_add in ground (arith, appended h d, length-append h.state.queue (d ∷ []))
run_op-IsFifo room h next_op v = next_keeps room h.state.capacity h.taken h.given h.state.queue v
run_op-IsFifo room h wait_next_op v =
    wait_next_keeps room h.state.capacity h.taken h.given h.state.queue v

run-IsFifo : (room : ℕ) (h : History) (ops : List Op) → IsFifo room h → IsFifo room (run h ops)
unfolding run
run-IsFifo room h [] v = v
run-IsFifo room h (op ∷ ops) v = run-IsFifo room (run_op h op) ops (run_op-IsFifo room h op v)

abbrev pub start : ℕ → History
start capacity = record { state = new capacity; taken = []; given = [] }

start-IsFifo : (capacity : ℕ) → IsFifo capacity (start capacity)
unfolding new
start-IsFifo capacity = record { kept = refl; bounded = omega arith; in_order = refl }

-- From a new queue, after any operations in any order, the datagrams given out and then those that
-- wait are exactly the datagrams taken in, in their order, and at most `capacity` of them wait,
-- where `capacity` is the one that the queue was made with.
pub run_in_order :
    (capacity : ℕ) (ops : List Op)
    → ((run (start capacity) ops).given ++ (run (start capacity) ops).state.queue
        ≡ (run (start capacity) ops).taken)
      × (length (run (start capacity) ops).state.queue ≤ capacity)
run_in_order capacity ops =
    let v = run-IsFifo capacity (start capacity) ops (start-IsFifo capacity) in
    (v.in_order, v.bounded)
