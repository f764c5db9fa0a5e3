-- ===== src/Storage/Compression.antt =====
-- crates/veclite/src/storage/compression.rs, on a native target. The crates lz4_flex and zstd are
-- parameters: what they write they read back. `compress_prepend_size` of lz4_flex writes the length in 32
-- bits, so that of lz4 this holds below 4 GiB.
use veclite.Base.{
  ℕ, ◌≡◌, ◌<◌, ◌^◌, refl, not, Option, some, arith, Bytes, length, ◌==◌, ==-refl, if◌then◌else◌,
}
use veclite.Error.{Result, ok, err, corrupt, ◌>>=◌, ok_or}

pub data Codec : Type 0 where
  identity lz4 zstd : Codec

pub record Codecs : Type 0 where
  pub lz4_compress : Bytes → Bytes
  pub lz4_decompress : Bytes → Option Bytes
  pub lz4_round_trip : (b : Bytes) → length b < 2 ^ 32 → lz4_decompress (lz4_compress b) ≡ some b
  pub zstd_compress : Bytes → Option Bytes
  pub zstd_decompress : Bytes → Option Bytes
  pub zstd_round_trip : (b c : Bytes) → zstd_compress b ≡ some c → zstd_decompress c ≡ some b

unfoldable pub from_byte : ℕ → Result Codec
from_byte b =
    if b == 0
    then ok identity
    else if b == 1
    then ok lz4
    else if b == 2
    then ok zstd
    else err (corrupt "segment: unknown compression codec {}")

unfoldable pub to_byte : Codec → ℕ
to_byte identity = 0
to_byte lz4 = 1
to_byte zstd = 2

pub from_byte-to_byte : (c : Codec) → from_byte (to_byte c) ≡ ok c
unfolding from_byte to_byte
from_byte-to_byte identity = refl
from_byte-to_byte lz4 = refl
from_byte-to_byte zstd = refl

module _ (lib : Codecs) where
  unfoldable pub compress : Codec → Bytes → Result Bytes
  compress identity bytes = ok bytes
  compress lz4 bytes = ok (lib.lz4_compress bytes)
  compress zstd bytes = ok_or (lib.zstd_compress bytes) (corrupt "zstd compress: {}")

  unfoldable pub decoded : Codec → Bytes → Result Bytes
  decoded identity bytes = ok bytes
  decoded lz4 bytes = ok_or (lib.lz4_decompress bytes) (corrupt "lz4 decompress: {}")
  decoded zstd bytes = ok_or (lib.zstd_decompress bytes) (corrupt "zstd decompress: {}")

  unfoldable pub decompress : Codec → Bytes → ℕ → Result Bytes
  unfolding decoded
  decompress codec bytes uncompressed_len = do
    out ← decoded codec bytes
    if not (length out == uncompressed_len)
        then err (corrupt "segment: decompressed length {} != declared {}")
        else ok out

  decoded-compress :
      (codec : Codec) (body stored : Bytes)
      → (codec ≡ lz4 → length body < 2 ^ 32)
      → compress codec body ≡ ok stored
      → decoded codec stored ≡ ok body
  unfolding compress decoded
  decoded-compress identity body stored small h = cc
  decoded-compress lz4 body stored small h = ground (arith, lib.lz4_round_trip body (small refl))
  decoded-compress zstd body stored small h = ground (arith, lib.zstd_round_trip body stored)

  -- What `compress` wrote is read back where the right length is declared, below 4 GiB for lz4.
  pub decompress-compress :
      (codec : Codec) (body stored : Bytes)
      → (codec ≡ lz4 → length body < 2 ^ 32)
      → compress codec body ≡ ok stored
      → decompress codec stored (length body) ≡ ok body
  unfolding decompress
  decompress-compress codec body stored small h =
      rw (decoded-compress codec body stored small h, ==-refl (length body)) refl
