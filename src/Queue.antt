-- ===== src/Queue.antt =====
-- crates/ssh3-core/src/queue.rs: the queue of channels to accept and the bounded queue of
-- datagrams. Each operation is what happens while the queue's lock is held. A waiting operation is
-- one round of its loop: where it finds nothing to do, the task sleeps until it is notified and
-- makes another round.
pub mod Accept
pub mod Datagram
pub mod Fifo
