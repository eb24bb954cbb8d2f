-- ===== src/Synchro.antt =====
-- src/synchro: hazard pointers, the countdown latch and the atomic shared pointer.
pub mod Hazard
pub mod Latch
pub mod AtomicShared
pub mod RwLock
