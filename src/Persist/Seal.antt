-- ===== src/Persist/Seal.antt =====
-- crates/veclite/src/persist/seal.rs, `seal`: the live points of a collection as segments. The crates
-- that write values are parameters.
use veclite.Base.{
  ℕ, zero, suc, ◌+◌, ◌*◌, ◌^◌, max, String, Option, none, some, List, [], ◌∷◌, ◌++◌, map, Bytes,
  length, ltb, leb, if◌then◌else◌,
}
use veclite.Error.{Result, ok, corrupt, ◌>>=◌, ◌>>◌, guard}
use veclite.Utf8.{as_bytes}
use veclite.Options.{CollectionOptions}
use veclite.Sparse.{SparseVector}
use veclite.Filter.{Numbers, Value}
use veclite.Filter.Postings.{Bitmaps}
use veclite.Filter.KeyIndex.{PayloadIndexKind}
use veclite.Filter.Index
use veclite.Filter.Index.{PayloadIndexes}
use veclite.Filter.Sealed.{Orders, PostingValue, keyword, integer, float, postings}
use veclite.Storage.Le.{to_le}
use veclite.Storage.Body.{Coder, FloatBits, StoredConfig, encode_config, encode_vocab}
use veclite.Storage.Body.Loops.{concat_each}
use veclite.Storage.Body.Payload
use veclite.Storage.Body.Pidx
use veclite.Storage.Body.Pidx.{PayloadIndex}
use veclite.Storage.Body.Sparse
use veclite.Storage.Iddir
use veclite.Storage.Iddir.{IdDir}
use veclite.Storage.Vectors
use veclite.Storage.Vectors.{VectorsBody, f32}
use veclite.Storage.Segment.{
  Segment, SegmentType, config, vectors, iddir, payload, pidx, sparse, vocab,
}
use veclite.Storage.Pager.{CheckpointColl}
use veclite.Persist.Config.{to_stored, pidx_kind_byte}
use veclite.Persist.Lanes.{sparse_to_postings}

-- What the code calls of other crates: coders and the hash; and the bytes of i64 and f64.
pub record Crates (num : Numbers) (bits : Bitmaps) (F : Type 0) : Type 0 where
  pub float_bits : FloatBits F
  pub config_coder : Coder StoredConfig
  pub value_coder : Coder (Value num.Number)
  pub roaring : Coder bits.Bitmap
  pub xxh64 : Bytes → ℕ
  pub orders : Orders num bits
  pub int_bytes : num.Int → Bytes
  pub double_bytes : num.Float → Bytes

pub record LivePoint (F J : Type 0) : Type 0 where
  pub id : String
  pub vector : List F
  pub payload : Option J
  pub sparse : Option (SparseVector F)

-- The doubling of `next_power_of_two`.
unfoldable pub double_up : ℕ → ℕ → ℕ → ℕ
double_up zero p n = p
double_up (suc fuel) p n = let more = double_up fuel (2 * p) n in if leb n p then p else more

unfoldable pub next_power_of_two : ℕ → ℕ
unfolding double_up
next_power_of_two n = double_up n 1 n

unfoldable pub bucket_count : ℕ → ℕ
unfolding next_power_of_two
bucket_count n = max (next_power_of_two n) 8

abbrev pub segment : SegmentType → ℕ → Bytes → Segment
segment t coll_id body = record { seg_type = t; seg_flags = 0; coll_id = coll_id; body = body }

module _ {num : Numbers} {bits : Bitmaps} {F : Type 0} (crates : Crates num bits F) where
  open num use {Number, Int, Float}
  open crates use {float_bits, config_coder, value_coder, roaring, xxh64, orders}

  abbrev pub Live : Type 0
  Live = List (LivePoint F (Value Number))

  unfoldable pub posting_value_bytes : PostingValue Int Float → Bytes
  unfolding as_bytes
  posting_value_bytes (keyword s) = as_bytes s
  posting_value_bytes (integer i) = crates.int_bytes i
  posting_value_bytes (float f) = crates.double_bytes f

  -- `f.to_le_bytes()`
  unfoldable pub float_bytes : F → Bytes
  float_bytes f = to_le 4 (float_bits.to_bits f)

  unfoldable pub records_of : Live → Bytes
  unfolding float_bytes
  records_of live = concat_each (λ p. concat_each float_bytes (LivePoint.vector p)) live

  unfoldable pub vectors_body : ℕ → Live → Result (VectorsBody F)
  unfolding records_of
  vectors_body dim live = do
    guard (ltb dim (2 ^ 32)) (corrupt "seal: dimension exceeds u32")
    ok (record {
      encoding = f32;
      dimension = dim;
      first_slot = 0;
      count = length live;
      sq_params = none;
      records = records_of live;
    })

  -- The loop of insertions from a slot on.
  unfoldable pub insert_all : ℕ → Live → IdDir → IdDir
  insert_all slot [] dir = dir
  insert_all slot (p ∷ ps) dir =
      insert_all (slot + 1) ps (Iddir.insert xxh64 dir (LivePoint.id p) slot)

  unfoldable pub directory : Live → IdDir
  unfolding insert_all bucket_count
  directory live = insert_all 0 live (Iddir.new (bucket_count (length live)))

  -- `filter_map`
  unfoldable pub entry_then :
      ℕ → Option (Value Number) → List (ℕ × Value Number) → List (ℕ × Value Number)
  entry_then slot none rest = rest
  entry_then slot (some v) rest = (slot, v) ∷ rest

  unfoldable pub payload_entries : ℕ → Live → List (ℕ × Value Number)
  unfolding entry_then
  payload_entries slot [] = []
  payload_entries slot (p ∷ ps) =
      entry_then slot (LivePoint.payload p) (payload_entries (slot + 1) ps)

  unfoldable pub payload_segments : ℕ → List (ℕ × Value Number) → Result (List Segment)
  payload_segments coll_id [] = ok []
  payload_segments coll_id (e ∷ es) = do
    body ← Payload.encode value_coder (e ∷ es)
    ok (segment payload coll_id body ∷ [])

  unfoldable pub index_all : ℕ → Live → PayloadIndexes num bits → PayloadIndexes num bits
  index_all slot [] indexes = indexes
  index_all slot (p ∷ ps) indexes =
      index_all (slot + 1) ps (Index.insert num bits indexes slot (LivePoint.payload p))

  abbrev or_default : {A : Type 0} → Option (List A) → List A
  or_default none = []
  or_default (some xs) = xs

  unfoldable pub pidx_body :
      PayloadIndexes num bits → String → PayloadIndexKind → PayloadIndex bits.Bitmap
  unfolding posting_value_bytes
  pidx_body indexes key kind = record {
    kind = pidx_kind_byte kind;
    key = key;
    postings =
        map (λ e. (posting_value_bytes (e.0), orders.of_slots (e.1)))
          (or_default (postings num bits orders indexes key));
  }

  unfoldable pub pidx_segments :
      ℕ → PayloadIndexes num bits → List (String × PayloadIndexKind) → Result (List Segment)
  unfolding pidx_body
  pidx_segments coll_id indexes [] = ok []
  pidx_segments coll_id indexes ((key, kind) ∷ rest) = do
    body ← Pidx.encode roaring (pidx_body indexes key kind)
    more ← pidx_segments coll_id indexes rest
    ok (segment pidx coll_id body ∷ more)

  unfoldable pub sparse_segments : ℕ → List (ℕ × List (ℕ × F)) → Result (List Segment)
  sparse_segments coll_id [] = ok []
  sparse_segments coll_id (t ∷ ts) = do
    body ← Sparse.encode float_bits (t ∷ ts)
    ok (segment sparse coll_id body ∷ [])

  unfoldable pub vocab_segments : ℕ → Option Bytes → List Segment
  vocab_segments coll_id none = []
  vocab_segments coll_id (some []) = []
  vocab_segments coll_id (some (b ∷ bs)) = segment vocab coll_id (encode_vocab (b ∷ bs)) ∷ []

  unfoldable pub seal_segments :
      ℕ
      → CollectionOptions
      → List (String × PayloadIndexKind)
      → Option Bytes
      → Live
      → ℕ
      → Result (List Segment)
  unfolding vectors_body directory payload_segments pidx_segments sparse_segments vocab_segments
  seal_segments coll_id options declared state live created_epoch_s = do
    config_body ← encode_config config_coder (to_stored options created_epoch_s)
    body ← vectors_body options.dimension live
    payloads ← payload_segments coll_id (payload_entries 0 live)
    pidxs ← pidx_segments coll_id (index_all 0 live (Index.new num bits declared)) declared
    lanes ← sparse_segments coll_id (sparse_to_postings (map LivePoint.sparse live))
    ok (
        segment config coll_id config_body
        ∷ segment vectors coll_id (Vectors.encode float_bits body)
        ∷ segment iddir coll_id (Iddir.encode (directory live))
        ∷ (payloads ++ (pidxs ++ (lanes ++ vocab_segments coll_id state))))

  unfoldable pub seal :
      ℕ
      → String
      → List String
      → CollectionOptions
      → List (String × PayloadIndexKind)
      → Option Bytes
      → Live
      → ℕ
      → Result CheckpointColl
  unfolding seal_segments
  seal coll_id name aliases options declared state live created_epoch_s = do
    segments ← seal_segments coll_id options declared state live created_epoch_s
    ok (record {
      coll_id = coll_id;
      name = name;
      aliases = aliases;
      vector_count = length live;
      tombstone_count = 0;
      segments = segments;
      reused = none;
    })
