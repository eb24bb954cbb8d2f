-- ===== src/Fibheap.antt =====
-- src/fibheap/fibheap.hpp and fibheap.tpp: a Fibonacci heap of linked nodes.
pub mod Memory
pub mod Nodes
pub mod Methods
pub mod Inspect
pub mod Pop
pub mod Rings
pub mod Family
pub mod Newborn
pub mod Forest
pub mod Clear
pub mod Push
pub mod Cascade
pub mod Decrease
mod Tests
