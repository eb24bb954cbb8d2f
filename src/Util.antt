-- ===== src/Util.antt =====
-- src/util: the containers of at most one object, the printing of containers and the radix sort.
pub mod Optional
pub mod AtomicOptional
pub mod Container
pub mod Radix
mod Tests
