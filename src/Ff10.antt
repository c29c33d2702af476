-- ===== src/Ff10.antt =====
-- format/ff10.rs: the selection of archive members by name and by pattern.
pub mod Glob
pub mod Members
