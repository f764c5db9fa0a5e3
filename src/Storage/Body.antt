-- ===== src/Storage/Body.antt =====
-- crates/veclite/src/storage/body.rs: the bodies of the segments of MessagePack, of bitmaps and of
-- plain fields. rmp_serde and roaring are coders, parameters; so are the bits of an f32.
pub mod Fields
pub mod Loops
pub mod Payload
pub mod Pidx
pub mod Sparse
use veclite.Base.{ℕ, ◌<◌, ◌^◌, ◌≡◌, refl, arith, String, Option, none, some, List, [], ◌∷◌, Bytes}
use veclite.Error.{Result, ok, err, corrupt, ◌>>=◌, ◌>>◌, ok_or}
use veclite.Storage.Msgpack.{guard_msgpack_depth}

-- A coder of another crate at a type: a value that it writes it reads back.
pub record Coder (T : Type 0) : Type 0 where
  pub write : T → Option Bytes
  pub read : Bytes → Option T
  pub round_trip : (t : T) (b : Bytes) → write t ≡ some b → read b ≡ some t

-- `to_bits` and `from_bits` of f32.
pub record FloatBits (F : Type 0) : Type 0 where
  pub to_bits : F → ℕ
  pub from_bits : ℕ → F
  pub to_bits_lt : (x : F) → to_bits x < 2 ^ 32
  pub from_bits-to_bits : (x : F) → from_bits (to_bits x) ≡ x

pub record StoredConfig : Type 0 where
  pub dimension : ℕ
  pub metric : ℕ
  pub m : ℕ
  pub ef_construction : ℕ
  pub ef_search : ℕ
  pub quantization : ℕ
  pub quant_bits : ℕ
  pub compression : ℕ
  pub embedding_provider : Option String
  pub created_epoch_s : ℕ

module _ (serde : Coder StoredConfig) where
  unfoldable pub encode_config : StoredConfig → Result Bytes
  encode_config c = ok_or (serde.write c) (corrupt "config: {}")

  unfoldable pub decode_config : Bytes → Result StoredConfig
  decode_config b = do guard_msgpack_depth b; ok_or (serde.read b) (corrupt "config: {}")

  -- A config that was encoded decodes to itself, where the guard accepts its bytes.
  pub decode-encode_config :
      (c : StoredConfig) (b : Bytes)
      → encode_config c ≡ ok b
      → (serde.write c ≡ some b → guard_msgpack_depth b ≡ ok tt)
      → decode_config b ≡ ok c
  unfolding encode_config decode_config
  decode-encode_config c b h g = ground (arith, serde.round_trip c b, g)

module _ {Bitmap : Type 0} (roaring : Coder Bitmap) where
  unfoldable pub encode_tombstone : Bitmap → Result Bytes
  encode_tombstone slots = ok_or (roaring.write slots) (corrupt "tombstone: {}")

  unfoldable pub decode_tombstone : Bytes → Result Bitmap
  decode_tombstone b = ok_or (roaring.read b) (corrupt "tombstone: {}")

unfoldable pub encode_vocab : Bytes → Bytes
encode_vocab state = state

unfoldable pub decode_vocab : Bytes → Bytes
decode_vocab b = b

pub record HnswBody : Type 0 where
  pub graph_format : ℕ
  pub dump : Bytes

unfoldable pub encode_hnsw : HnswBody → Bytes
encode_hnsw h = h.graph_format ∷ h.dump

unfoldable pub decode_hnsw : Bytes → Result HnswBody
decode_hnsw [] = err (corrupt "hnsw: empty body")
decode_hnsw (b ∷ bs) = ok (record { graph_format = b; dump = bs })
