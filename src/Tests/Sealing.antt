-- ===== src/Tests/Sealing.antt =====
-- The round trip of a sealed collection, on two points.
use veclite.Base.{
  ℕ, ◌≡◌, ◌⊎◌, refl, sym, String, Bool, true, false, Option, none, some, List, [], ◌∷◌, arith,
  Bytes, length, ap, ◌∙◌, some_inj, leb, same,
}
use veclite.Error.{Result, ok, err}
use veclite.Utf8.{as_bytes}
use veclite.Options.{CollectionOptions, euclidean, scalar, lz4}
use veclite.Sparse.{SparseVector}
use veclite.Filter.{Value, null, boolean, number, string, array, object}
use veclite.Filter.KeyIndex.{PayloadIndexKind, keyword_kind}
use veclite.Filter.Index
use veclite.Filter.Sealed.{postings}
use veclite.Storage.Msgpack.{guard_msgpack_depth, read_marker}
use veclite.Storage.Body.{StoredConfig, encode_config}
use veclite.Storage.Body.Payload
use veclite.Storage.Body.Pidx
use veclite.Storage.Body.Sparse
use veclite.Storage.Body.Loops.{write_each}
use veclite.Storage.Pager.{CheckpointColl}
use veclite.Persist.Config.{to_stored, as_stored}
use veclite.Persist.Lanes.{sparse_to_postings}
use veclite.Persist.Stages.{kept_vocab}
use veclite.Persist.Seal.{Crates, LivePoint, payload_entries, index_all, seal}
use veclite.Persist.Load.{load}
use veclite.Persist.Sealable.{IsSealable}
use veclite.Persist.Restored.{load-seal}
use veclite.Tests.Bodies.{float_bits}
use veclite.Tests.Filters.{num, bits}

-- A coder of the configs without a provider: a nought, and their numbers.
abbrev config_fields : StoredConfig → Bytes
config_fields c =
    0 ∷ c.dimension ∷ c.metric ∷ c.m ∷ c.ef_construction ∷ c.ef_search ∷ c.quantization
    ∷ c.quant_bits ∷ c.compression ∷ c.created_epoch_s ∷ []

abbrev without_provider : Bytes → Option String → Option Bytes
without_provider b none = some b
without_provider b (some name) = none

abbrev write_config : StoredConfig → Option Bytes
write_config c = without_provider (config_fields c) c.embedding_provider

abbrev read_config : Bytes → Option StoredConfig
read_config
      (z ∷ dimension ∷ metric ∷ m ∷ ef_construction ∷ ef_search ∷ quantization ∷ quant_bits
        ∷ compression ∷ epoch ∷ []) =
    some (record {
      dimension = dimension;
      metric = metric;
      m = m;
      ef_construction = ef_construction;
      ef_search = ef_search;
      quantization = quantization;
      quant_bits = quant_bits;
      compression = compression;
      embedding_provider = none;
      created_epoch_s = epoch;
    })
read_config _ = none

fields_trip :
    (c : StoredConfig) (o : Option String) (b : Bytes)
    → without_provider (config_fields c) o ≡ some b
    → read_config b ≡ some (record c { embedding_provider = o })
fields_trip c none b h = ap read_config (sym (some_inj h))
fields_trip c (some name) b h = cc

pub config_trip : (c : StoredConfig) (b : Bytes) → write_config c ≡ some b → read_config b ≡ some c
config_trip c b h = fields_trip c c.embedding_provider b h

fields_shallow : (c : StoredConfig) → guard_msgpack_depth (config_fields c) ≡ ok tt
unfolding guard_msgpack_depth read_marker
fields_shallow c = refl

config_shallow :
    (c : StoredConfig) (o : Option String) (b : Bytes)
    → without_provider (config_fields c) o ≡ some b
    → guard_msgpack_depth b ≡ ok tt
config_shallow c none b h = ap guard_msgpack_depth (sym (some_inj h)) ∙ fields_shallow c
config_shallow c (some name) b h = cc

-- A coder of the value `null` alone.
abbrev write_value : {N : Type 0} → Value N → Option Bytes
write_value null = some (0xc0 ∷ [])
write_value _ = none

pub value_trip :
    {N : Type 0} (v : Value N) (b : Bytes) → write_value v ≡ some b → some null ≡ some v
value_trip null b h = refl
value_trip (boolean x) b h = cc
value_trip (number x) b h = cc
value_trip (string x) b h = cc
value_trip (array x) b h = cc
value_trip (object x) b h = cc

-- A coder that writes nothing.
abbrev write_nothing : {A : Type 0} → A → Option Bytes
write_nothing t = none

abbrev read_nothing : {A : Type 0} → Bytes → Option A
read_nothing b = none

pub nothing_trip :
    {A : Type 0} (t : A) (b : Bytes) → write_nothing t ≡ some b → read_nothing b ≡ some t
nothing_trip t b h = cc

abbrev crates : Crates num bits Bool
crates = record {
  float_bits = float_bits;
  config_coder = record { write = write_config; read = read_config; round_trip = config_trip };
  value_coder = record { write = write_value; read = λ b. some null; round_trip = value_trip };
  roaring = record { write = write_nothing; read = read_nothing; round_trip = nothing_trip };
  xxh64 = length;
  orders = record {
    text_le = λ s t. true;
    int_le = leb;
    total_le = leb;
    slots = λ b. [];
    of_slots = λ s t. false;
  };
  int_bytes = λ i. i ∷ [];
  double_bytes = λ x. x ∷ [];
}

abbrev options : CollectionOptions
options = record {
  dimension = 2;
  metric = euclidean;
  hnsw = record { m = 16; ef_construction = 200; ef_search = 100 };
  quantization = scalar 8;
  compression = lz4 4096;
  embedding_provider = none;
  payload_indexes = [];
}

abbrev lane : SparseVector Bool
lane = record { indices = 3 ∷ 5 ∷ []; values = true ∷ false ∷ [] }

abbrev live : List (LivePoint Bool (Value (ℕ ⊎ ℕ)))
live =
    record { id = "a"; vector = true ∷ false ∷ []; payload = some null; sparse = none }
    ∷ record { id = "b"; vector = false ∷ true ∷ []; payload = none; sparse = some lane }
    ∷ []

abbrev declared : List (String × PayloadIndexKind)
declared = ("lang", keyword_kind) ∷ []

null_shallow : (b : Bytes) → some (0xc0 ∷ []) ≡ some b → guard_msgpack_depth b ≡ ok tt
unfolding guard_msgpack_depth read_marker
null_shallow b h = ap guard_msgpack_depth (sym (some_inj h))

sealable : IsSealable crates options live
unfolding payload_entries as_bytes
sealable = record {
  in_range = record {
    dimension_lt = omega arith;
    m_lt = omega arith;
    ef_construction_lt = omega arith;
    ef_search_lt = omega arith;
  };
  positive = omega arith;
  few = omega arith;
  small = omega arith;
  same_dimension = (refl, (refl, tt));
  short_ids = (omega arith, (omega arith, tt));
  shallow_config = λ c b h. config_shallow c c.embedding_provider b h;
  shallow_payloads = (null_shallow, tt);
  lanes = (
    tt,
    ((((omega arith, tt), (tt, tt)), refl, omega arith, (omega arith, (omega arith, tt))), tt),
  );
}

-- The collection as it was sealed.
abbrev sealed : Result CheckpointColl
sealed = seal crates 1 "docs" [] options declared (some (9 ∷ [])) live 7

abbrev of_result : Result CheckpointColl → CheckpointColl
of_result (ok c) = c
of_result (err e) = record {
  coll_id = 0;
  name = "";
  aliases = [];
  vector_count = 0;
  tombstone_count = 0;
  segments = [];
  reused = none;
}

it_seals : sealed ≡ ok (of_result sealed)
unfolding seal encode_config to_stored payload_entries Payload.encode Pidx.encode postings index_all
    Index.insert Index.new same write_each sparse_to_postings Sparse.encode
it_seals = refl

load-seal_example :
    load crates (of_result sealed).segments
    ≡ ok (record {
      options = record options { compression = lz4 1024; payload_indexes = declared };
      points = live;
      vocab = some (9 ∷ []);
    })
unfolding as_stored kept_vocab
load-seal_example =
    load-seal crates 1 options declared (some (9 ∷ [])) live 7 sealable "docs" [] (of_result sealed)
      it_seals
