-- ===== src/Persist/Config.antt =====
-- crates/veclite/src/persist/config.rs: the options of a collection in their stored form. A conversion
-- by `as u32` wraps.
use veclite.Base.{ℕ, ◌%◌, ◌^◌, ◌<◌, ◌≡◌, refl, arith, [], ◌==◌, if◌then◌else◌}
use veclite.Error.{Result, ok, err, corrupt, ◌>>=◌}
use veclite.Options.{
  Metric, cosine, euclidean, dot_product, Quantization, unquantized, scalar, binary, Compression,
  uncompressed, lz4, zstd, CollectionOptions,
}
use veclite.Filter.KeyIndex.{PayloadIndexKind, keyword_kind, integer_kind, float_kind}
use veclite.Storage.Body.{StoredConfig}

unfoldable pub metric_byte : Metric → ℕ
metric_byte cosine = 0
metric_byte euclidean = 1
metric_byte dot_product = 2

unfoldable pub metric_from : ℕ → Result Metric
metric_from b =
    if b == 0
    then ok cosine
    else if b == 1
    then ok euclidean
    else if b == 2
    then ok dot_product
    else err (corrupt "config: unknown metric {other}")

unfoldable pub quant_bytes : Quantization → ℕ × ℕ
quant_bytes unquantized = (0, 0)
quant_bytes (scalar bits) = (1, bits)
quant_bytes binary = (2, 0)

unfoldable pub quant_from : ℕ → ℕ → Result Quantization
quant_from byte bits =
    if byte == 0
    then ok unquantized
    else if byte == 1
    then ok (scalar bits)
    else if byte == 2
    then ok binary
    else err (corrupt "config: unknown quantization {other}")

unfoldable pub compression_byte : Compression → ℕ
compression_byte uncompressed = 0
compression_byte (lz4 threshold) = 1
compression_byte (zstd threshold) = 2

unfoldable pub compression_from : ℕ → Result Compression
compression_from b =
    if b == 0
    then ok uncompressed
    else if b == 1
    then ok (lz4 1024)
    else if b == 2
    then ok (zstd 1024)
    else err (corrupt "config: unknown compression {other}")

unfoldable pub pidx_kind_byte : PayloadIndexKind → ℕ
pidx_kind_byte keyword_kind = 1
pidx_kind_byte integer_kind = 2
pidx_kind_byte float_kind = 3

unfoldable pub pidx_kind_from : ℕ → Result PayloadIndexKind
pidx_kind_from b =
    if b == 1
    then ok keyword_kind
    else if b == 2
    then ok integer_kind
    else if b == 3
    then ok float_kind
    else err (corrupt "config: unknown pidx kind {other}")

unfoldable pub to_stored : CollectionOptions → ℕ → StoredConfig
unfolding metric_byte quant_bytes compression_byte
to_stored options created_epoch_s =
    let q = quant_bytes options.quantization in
    record {
      dimension = options.dimension % 2 ^ 32;
      metric = metric_byte options.metric;
      m = options.hnsw.m % 2 ^ 32;
      ef_construction = options.hnsw.ef_construction % 2 ^ 32;
      ef_search = options.hnsw.ef_search % 2 ^ 32;
      quantization = q.0;
      quant_bits = q.1;
      compression = compression_byte options.compression;
      embedding_provider = options.embedding_provider;
      created_epoch_s = created_epoch_s;
    }

unfoldable pub from_stored : StoredConfig → Result CollectionOptions
unfolding metric_from quant_from compression_from
from_stored stored = do
  metric ← metric_from stored.metric
  quantization ← quant_from stored.quantization stored.quant_bits
  compression ← compression_from stored.compression
  ok (record {
    dimension = stored.dimension;
    metric = metric;
    hnsw = record {
      m = stored.m;
      ef_construction = stored.ef_construction;
      ef_search = stored.ef_search;
    };
    quantization = quantization;
    compression = compression;
    embedding_provider = stored.embedding_provider;
    payload_indexes = [];
  })

-- The options with the thresholds of compression at their default and without indexes.
unfoldable pub default_threshold : Compression → Compression
default_threshold uncompressed = uncompressed
default_threshold (lz4 threshold) = lz4 1024
default_threshold (zstd threshold) = zstd 1024

unfoldable pub as_stored : CollectionOptions → CollectionOptions
unfolding default_threshold
as_stored options = record options {
  compression = default_threshold options.compression;
  payload_indexes = [];
}

-- The numbers of the options fit their stored fields.
pub record InRange (options : CollectionOptions) : Type 0 where
  pub dimension_lt : options.dimension < 2 ^ 32
  pub m_lt : options.hnsw.m < 2 ^ 32
  pub ef_construction_lt : options.hnsw.ef_construction < 2 ^ 32
  pub ef_search_lt : options.hnsw.ef_search < 2 ^ 32

metric_from-metric_byte : (m : Metric) → metric_from (metric_byte m) ≡ ok m
unfolding metric_from metric_byte
metric_from-metric_byte cosine = refl
metric_from-metric_byte euclidean = refl
metric_from-metric_byte dot_product = refl

quant_from-quant_bytes : (q : Quantization) → quant_from (quant_bytes q).0 (quant_bytes q).1 ≡ ok q
unfolding quant_from quant_bytes
quant_from-quant_bytes unquantized = refl
quant_from-quant_bytes (scalar bits) = refl
quant_from-quant_bytes binary = refl

compression_from-compression_byte :
    (c : Compression) → compression_from (compression_byte c) ≡ ok (default_threshold c)
unfolding compression_from compression_byte default_threshold
compression_from-compression_byte uncompressed = refl
compression_from-compression_byte (lz4 threshold) = refl
compression_from-compression_byte (zstd threshold) = refl

pub pidx_kind_from-pidx_kind_byte :
    (k : PayloadIndexKind) → pidx_kind_from (pidx_kind_byte k) ≡ ok k
unfolding pidx_kind_from pidx_kind_byte
pidx_kind_from-pidx_kind_byte keyword_kind = refl
pidx_kind_from-pidx_kind_byte integer_kind = refl
pidx_kind_from-pidx_kind_byte float_kind = refl

mod_small : (n m : ℕ) → n < m → n % m ≡ n
mod_small n m h = grind arith

-- Options whose numbers fit come back, but for the thresholds and the payload indexes.
pub from_stored-to_stored :
    (options : CollectionOptions) (created_epoch_s : ℕ)
    → InRange options
    → from_stored (to_stored options created_epoch_s) ≡ ok (as_stored options)
unfolding from_stored to_stored as_stored
from_stored-to_stored options created_epoch_s r =
    rw
      (
        metric_from-metric_byte options.metric,
        quant_from-quant_bytes options.quantization,
        compression_from-compression_byte options.compression,
        mod_small options.dimension (2 ^ 32) r.dimension_lt,
        mod_small options.hnsw.m (2 ^ 32) r.m_lt,
        mod_small options.hnsw.ef_construction (2 ^ 32) r.ef_construction_lt,
        mod_small options.hnsw.ef_search (2 ^ 32) r.ef_search_lt,
      )
      refl
