-- ===== src/Storage/Crc.antt =====
-- The crate crc32fast, a parameter. A `Hasher` that is updated with two slices and finalized gives
-- the hash of their concatenation.
use veclite.Base.{ℕ, ◌<◌, ◌^◌, Bytes}

pub record Crc32 : Type 0 where
  pub hash : Bytes → ℕ
  pub hash_lt : (bytes : Bytes) → hash bytes < 2 ^ 32
