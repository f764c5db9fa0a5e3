-- ===== src/Tests.antt =====
-- The theorems on concrete inputs.
pub mod Params
pub mod Formats
pub mod Image
pub mod Log
pub mod Checkpoint
pub mod Slots
pub mod Bodies
pub mod Sealing
pub mod Filters
pub mod Registry
pub mod Chunks
pub mod Sparse
