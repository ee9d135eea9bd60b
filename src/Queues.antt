-- ===== src/Queues.antt =====
-- include/utils/DataStructures.hpp: the containers behind the queue manager.
pub mod Trace
pub mod Family
pub mod IntrusiveList
pub mod Stack
pub mod SkipList
