-- ===== src/Storage.antt =====
-- crates/veclite/src/storage: the on-disk format.
pub mod Le
pub mod Crc
pub mod File
pub mod Wal
pub mod Compression
pub mod Body
pub mod Iddir
pub mod Vectors
pub mod Segment
pub mod Header
pub mod Msgpack
pub mod Toc
pub mod Pager
pub mod Image
