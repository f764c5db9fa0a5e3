-- ===== src/Options.antt =====
-- crates/veclite/src/options.rs: the options of a collection, and their builder.
use veclite.Base.{ℕ, String, Option, none, some, List, [], ◌∷◌, ◌++◌}
use veclite.Filter.KeyIndex.{PayloadIndexKind}

pub data Metric : Type 0 where
  cosine euclidean dot_product : Metric

pub data Quantization : Type 0 where
  unquantized : Quantization
  scalar : ℕ → Quantization
  binary : Quantization

-- `lz4` and `zstd` with the smallest body that they compress.
pub data Compression : Type 0 where
  uncompressed : Compression
  lz4 zstd : ℕ → Compression

pub record HnswOptions : Type 0 where
  pub m : ℕ
  pub ef_construction : ℕ
  pub ef_search : ℕ

pub record CollectionOptions : Type 0 where
  pub dimension : ℕ
  pub metric : Metric
  pub hnsw : HnswOptions
  pub quantization : Quantization
  pub compression : Compression
  pub embedding_provider : Option String
  pub payload_indexes : List (String × PayloadIndexKind)

unfoldable pub new : ℕ → Metric → CollectionOptions
new dimension metric = record {
  dimension = dimension;
  metric = metric;
  hnsw = record { m = 16; ef_construction = 200; ef_search = 100 };
  quantization = scalar 8;
  compression = lz4 1024;
  embedding_provider = none;
  payload_indexes = [];
}

unfoldable pub auto_embed : String → ℕ → CollectionOptions
unfolding new
auto_embed provider dimension = record (new dimension cosine) { embedding_provider = some provider }

unfoldable pub with_hnsw : CollectionOptions → ℕ → ℕ → ℕ → CollectionOptions
with_hnsw options m ef_construction ef_search = record options {
  hnsw = record { m = m; ef_construction = ef_construction; ef_search = ef_search };
}

unfoldable pub payload_index : CollectionOptions → String → PayloadIndexKind → CollectionOptions
payload_index options key kind = record options {
  payload_indexes = options.payload_indexes ++ (key, kind) ∷ [];
}
