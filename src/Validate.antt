-- ===== src/Validate.antt =====
-- validate.rs: the validation ladder, and the recheck of `file://` sources with its memo.
pub mod Ladder
pub mod Revalidator
