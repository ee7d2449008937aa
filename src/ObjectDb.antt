-- ===== src/ObjectDb.antt =====
-- core/objectdb: the key layout, the change log and what is computed from it.
pub mod Keys
pub mod Changes
pub mod ChangedIds
pub mod Trim
pub mod Schema
pub mod Indexing
pub mod Blobs
pub mod Update
pub mod Lookup
pub mod Commit
