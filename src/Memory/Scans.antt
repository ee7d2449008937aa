-- ===== src/Memory/Scans.antt =====
-- What Scan visits, in a store that does not change meanwhile.
mod Ordered
mod Chunks
pub mod Whole
