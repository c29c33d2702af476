-- ===== src/Cache.antt =====
-- cache.rs: the fetcher, which ties store, transports, offline mode, auth and validation together.
pub mod Url
pub mod Request
pub mod Hit
pub mod Commit
pub mod Download
pub mod Fetch
pub mod Builder
