-- ===== src/Examples.antt =====
-- Concrete inputs at which the theorems apply.
pub mod Codec
pub mod Setting
pub mod Served
pub mod Mirrors
pub mod Checks
pub mod Arrays
mod Prefetching
mod Prefetched
mod Formats
mod Templates
mod Buckets
