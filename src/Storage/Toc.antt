-- ===== src/Storage/Toc.antt =====
-- crates/veclite/src/storage/toc.rs: the table of contents. Its MessagePack form (the crate rmp_serde)
-- is a parameter; `sort_by_key` of the standard library is a stable sort, here by insertion.
pub mod Order
use veclite.Base.{
  ℕ, ◌<◌, ◌≡◌, String, Bool, true, false, ◌&&◌, ◌||◌, arith, Option, none, some, List, [], ◌∷◌,
  Bytes, ltb, leb, ◌==◌, if◌then◌else◌, length, ◌^◌, ◌≤◌,
}
use veclite.Error.{VecLiteError, Result, ok, err, corrupt, ◌>>=◌, ◌>>◌, ok_or}
use veclite.Storage.Segment.{from_byte, replay_rank}
use veclite.Storage.Msgpack.{guard_msgpack_depth}

pub record SegRef : Type 0 where
  pub seg_type : ℕ
  pub offset : ℕ
  pub len : ℕ

-- `map(replay_rank).unwrap_or(u8::MAX)`
rank_or_max : ℕ → ℕ
rank_or_max b = elim (from_byte b) [ ok t ↦ replay_rank t | err e ↦ 255 ]

unfoldable pub replay_key : SegRef → ℕ × ℕ
unfolding rank_or_max
replay_key r = (rank_or_max r.seg_type, r.offset)

pub record CollEntry : Type 0 where
  pub coll_id : ℕ
  pub name : String
  pub aliases : List String
  pub vector_count : ℕ
  pub tombstone_count : ℕ
  pub live_segments : List SegRef

-- The order of pairs of numbers.
abbrev pub key_le : ℕ × ℕ → ℕ × ℕ → Bool
key_le (a, b) (c, d) = ltb a c || (a == c && leb b d)

unfoldable pub insert_by_key : SegRef → List SegRef → List SegRef
insert_by_key r [] = r ∷ []
insert_by_key r (x ∷ xs) =
    if key_le (replay_key r) (replay_key x) then r ∷ x ∷ xs else x ∷ insert_by_key r xs

unfoldable pub sort_by_key : List SegRef → List SegRef
unfolding insert_by_key
sort_by_key [] = []
sort_by_key (x ∷ xs) = insert_by_key x (sort_by_key xs)

unfoldable pub sort_replay_order : CollEntry → CollEntry
unfolding sort_by_key
sort_replay_order e = record e { live_segments = sort_by_key e.live_segments }

pub record Toc : Type 0 where
  pub generation : ℕ
  pub collections : List CollEntry
  pub free_tail_offset : ℕ

-- rmp_serde at the type `Toc`: a value that it writes it reads back, and what it writes nests no
-- deeper than the guard accepts.
pub record TocSerde : Type 0 where
  pub to_vec : Toc → Option Bytes
  pub from_slice : Bytes → Option Toc
  pub round_trip : (t : Toc) (b : Bytes) → to_vec t ≡ some b → from_slice b ≡ some t
  pub shallow : (t : Toc) (b : Bytes) → to_vec t ≡ some b → guard_msgpack_depth b ≡ ok tt

module _ (serde : TocSerde) where
  unfoldable pub encode : Toc → Result Bytes
  encode t = ok_or (serde.to_vec t) (corrupt "toc: encode failed: {}")

  unfoldable pub decode : Bytes → Result Toc
  decode bytes = do guard_msgpack_depth bytes; ok_or (serde.from_slice bytes) (corrupt "toc: {}")

  -- A table of contents that was encoded decodes to itself.
  pub decode-encode_toc : (t : Toc) (b : Bytes) → encode t ≡ ok b → decode b ≡ ok t
  unfolding encode decode
  decode-encode_toc t b h = ground (arith, serde.round_trip t b, serde.shallow t b)
