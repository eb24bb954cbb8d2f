-- ===== src/Queues.antt =====
-- src/queues: the queues of linked nodes.
pub mod Queue
pub mod HazardQueue
pub mod SharedQueue
