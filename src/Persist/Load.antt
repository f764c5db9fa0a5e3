-- ===== src/Persist/Load.antt =====
-- crates/veclite/src/persist/seal.rs, `load` and `load_based`: a collection from its segments, with its
-- vectors or without.
use veclite.Base.{
  ℕ, zero, suc, ◌+◌, String, Option, none, some, List, [], ◌∷◌, ◌++◌, Bytes, length, get_or, set,
  replicate, ltb,
}
use veclite.Error.{Result, ok, corrupt, ◌>>=◌, ◌>>◌, ok_or, guard}
use veclite.Options.{CollectionOptions}
use veclite.Sparse.{SparseVector}
use veclite.Filter.{Numbers, Value}
use veclite.Filter.Postings.{Bitmaps}
use veclite.Filter.KeyIndex.{PayloadIndexKind}
use veclite.Storage.Body.{StoredConfig, decode_config, decode_vocab}
use veclite.Storage.Body.Payload
use veclite.Storage.Body.Pidx
use veclite.Storage.Body.Sparse
use veclite.Storage.Iddir
use veclite.Storage.Iddir.{IdDir, entries}
use veclite.Storage.Vectors
use veclite.Storage.Vectors.{VectorsBody, record_of}
use veclite.Storage.Vectors.View.{chunks_of_4}
use veclite.Storage.Segment.{
  Segment, SegmentType, config, vectors, tombstone, payload, pidx, sparse, hnsw, vocab, iddir,
}
use veclite.Persist.Config.{from_stored, pidx_kind_from}
use veclite.Persist.Lanes.{postings_to_sparse}
use veclite.Persist.Seal.{Crates, LivePoint}

-- The variables that the loop over the segments assigns.
pub record Parts (F V : Type 0) : Type 0 where
  pub stored : Option StoredConfig
  pub vectors : Option (VectorsBody F)
  pub iddir : Option IdDir
  pub payload : List (ℕ × V)
  pub declared : List (String × PayloadIndexKind)
  pub vocab : Option Bytes
  pub sparse_postings : Option (List (ℕ × List (ℕ × F)))

unfoldable pub no_parts : {F V : Type 0} → Parts F V
no_parts = record {
  stored = none;
  vectors = none;
  iddir = none;
  payload = [];
  declared = [];
  vocab = none;
  sparse_postings = none;
}

pub record LoadedCollection (F V : Type 0) : Type 0 where
  pub options : CollectionOptions
  pub points : List (LivePoint F V)
  pub vocab : Option Bytes

unfoldable pub fill_ids : List (String × ℕ) → List (Option String) → Result (List (Option String))
fill_ids [] ids = ok ids
fill_ids ((id, slot) ∷ es) ids = do
  guard (ltb slot (length ids)) (corrupt "load: IDDIR slot out of range")
  fill_ids es (set ids slot (some id))

-- A slot behind the end is passed over.
unfoldable pub fill_payloads : {V : Type 0} → List (ℕ × V) → List (Option V) → List (Option V)
fill_payloads [] payloads = payloads
fill_payloads ((slot, value) ∷ es) payloads = fill_payloads es (set payloads slot (some value))

unfoldable pub lanes_of :
    {F : Type 0} → Option (List (ℕ × List (ℕ × F))) → ℕ → List (Option (SparseVector F))
unfolding postings_to_sparse
lanes_of none count = replicate count none
lanes_of (some postings) count = postings_to_sparse postings count

module _ {num : Numbers} {bits : Bitmaps} {F : Type 0} (crates : Crates num bits F) where
  open num use {Number}
  open crates use {float_bits, config_coder, value_coder, roaring}

  unfoldable pub load_body :
      SegmentType → Bytes → Parts F (Value Number) → Result (Parts F (Value Number))
  load_body config body p = do
    c ← decode_config config_coder body
    ok (record p { stored = some c })
  load_body vectors body p = do
    v ← Vectors.decode float_bits body
    ok (record p { vectors = some v })
  load_body tombstone body p = ok p
  load_body payload body p = do es ← Payload.decode value_coder body; ok (record p { payload = es })
  load_body pidx body p = do
    i ← Pidx.decode roaring body
    kind ← pidx_kind_from i.kind
    ok (record p { declared = p.declared ++ (i.key, kind) ∷ [] })
  load_body sparse body p = do
    s ← Sparse.decode float_bits body
    ok (record p { sparse_postings = some s })
  load_body hnsw body p = ok p
  load_body vocab body p = ok (record p { vocab = some (decode_vocab body) })
  load_body iddir body p = do d ← Iddir.decode body; ok (record p { iddir = some d })

  unfoldable pub load_each : List Segment → Parts F (Value Number) → Result (Parts F (Value Number))
  unfolding load_body
  load_each [] p = ok p
  load_each (s ∷ ss) p = load_body s.seg_type s.body p >>= load_each ss

  -- The loop over the slots, with `left` of them to go.
  unfoldable pub read_points :
      VectorsBody F
      → List (Option String)
      → List (Option (Value Number))
      → List (Option (SparseVector F))
      → ℕ
      → ℕ
      → Result (List (LivePoint F (Value Number)))
  unfolding record_of chunks_of_4
  read_points body ids payloads sparses zero slot = ok []
  read_points body ids payloads sparses (suc left) slot = do
    id ← ok_or (get_or ids slot none) (corrupt "load: slot {slot} has no id")
    bytes ← ok_or (record_of body slot) (corrupt "load: slot {slot} has no vector")
    rest ← read_points body ids payloads sparses left (slot + 1)
    ok (
        record {
          id = id;
          vector = chunks_of_4 float_bits bytes;
          payload = get_or payloads slot none;
          sparse = get_or sparses slot none;
        }
        ∷ rest)

  unfoldable pub assemble : Parts F (Value Number) → Result (LoadedCollection F (Value Number))
  unfolding from_stored entries fill_ids fill_payloads lanes_of read_points
  assemble p = do
    stored ← ok_or p.stored (corrupt "load: missing CONFIG")
    body ← ok_or p.vectors (corrupt "load: missing VECTORS")
    dir ← ok_or p.iddir (corrupt "load: missing IDDIR")
    options ← from_stored stored
    ids ← fill_ids (entries dir) (replicate body.count none)
    points ←
        read_points body ids (fill_payloads p.payload (replicate body.count none))
          (lanes_of p.sparse_postings body.count) body.count 0
    ok (record {
      options = record options { payload_indexes = p.declared };
      points = points;
      vocab = p.vocab;
    })

  unfoldable pub load : List Segment → Result (LoadedCollection F (Value Number))
  unfolding load_each assemble no_parts
  load segments = load_each segments no_parts >>= assemble

  -- `load_based` passes over the vectors and the vocabulary.
  unfoldable pub load_based_body :
      SegmentType → Bytes → Parts F (Value Number) → Result (Parts F (Value Number))
  unfolding load_body
  load_based_body config body p = load_body config body p
  load_based_body vectors body p = ok p
  load_based_body tombstone body p = ok p
  load_based_body payload body p = load_body payload body p
  load_based_body pidx body p = load_body pidx body p
  load_based_body sparse body p = load_body sparse body p
  load_based_body hnsw body p = ok p
  load_based_body vocab body p = ok p
  load_based_body iddir body p = load_body iddir body p

  unfoldable pub load_based_each :
      List Segment → Parts F (Value Number) → Result (Parts F (Value Number))
  unfolding load_based_body
  load_based_each [] p = ok p
  load_based_each (s ∷ ss) p = load_based_body s.seg_type s.body p >>= load_based_each ss

  -- `BasedMeta`
  abbrev pub Meta : Type 0
  Meta =
      CollectionOptions
      × List (Option String)
      × List (Option (Value Number))
      × List (Option (SparseVector F))

  unfoldable pub load_based : List Segment → ℕ → Result Meta
  unfolding load_based_each no_parts from_stored entries fill_ids fill_payloads lanes_of
  load_based segments slot_count = do
    p ← load_based_each segments no_parts
    stored ← ok_or p.stored (corrupt "load: missing CONFIG")
    dir ← ok_or p.iddir (corrupt "load: missing IDDIR")
    options ← from_stored stored
    ids ← fill_ids (entries dir) (replicate slot_count none)
    ok (
      record options { payload_indexes = p.declared },
      ids,
      fill_payloads p.payload (replicate slot_count none),
      lanes_of p.sparse_postings slot_count,
    )
