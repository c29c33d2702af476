-- ===== src/Array.antt =====
-- format/mod.rs: native arrays, what is selected from them, and the gather of the selected cells.
pub mod Select
pub mod Field
pub mod Gather
