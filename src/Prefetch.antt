-- ===== src/Prefetch.antt =====
-- prefetch.rs: the group of workers that decode the epochs to come beside their consumer.
pub mod State
pub mod Settle
pub mod WarmUp
pub mod Admit
pub mod Group
pub mod Take
pub mod Worker
pub mod Invariant
pub mod System
