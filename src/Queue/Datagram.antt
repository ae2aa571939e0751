-- ===== src/Queue/Datagram.antt =====
-- `DatagramQueue` of crates/ssh3-core/src/queue.rs: a queue of at most `capacity` datagrams.
use ssh.Base.{
  ℕ, Bytes, List, [], ◌∷◌, ◌++◌, Bool, true, false, Option, none, some, if◌then◌else◌, leb, ltb,
  length,
}
use ssh.Queue.Accept.{pop_front}

pub record DatagramQueue : Type 0 where
  pub queue : List Bytes
  pub capacity : ℕ

unfoldable pub new : ℕ → DatagramQueue
new capacity = record { queue = []; capacity = capacity }

unfoldable pub add : DatagramQueue → Bytes → Bool × DatagramQueue
add q datagram =
    if leb q.capacity (length q.queue)
    then (false, q)
    else (true, record q { queue = q.queue ++ (datagram ∷ []) })

-- One round: in a full queue the task waits.
unfoldable pub wait_add : DatagramQueue → Bytes → Option DatagramQueue
wait_add q datagram =
    if ltb (length q.queue) q.capacity
    then some (record q { queue = q.queue ++ (datagram ∷ []) })
    else none

unfoldable pub next : DatagramQueue → Option Bytes × DatagramQueue
next q = let (datagram, rest) = pop_front q.queue in (datagram, record q { queue = rest })

-- One round: in an empty queue the task waits.
unfoldable pub wait_next : DatagramQueue → Option (Bytes × DatagramQueue)
unfolding next
wait_next q = let (datagram, q') = next q in elim datagram [ none ↦ none | some d ↦ some (d, q') ]
