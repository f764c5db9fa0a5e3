-- ===== src/Persist.antt =====
-- crates/veclite/src/persist: the state of a collection in the segments of a file.
pub mod Config
pub mod Lanes
pub mod Seal
pub mod Load
pub mod Buckets
pub mod Directory
pub mod Ids
pub mod Tables
pub mod Sealable
pub mod Stages
pub mod Restored
