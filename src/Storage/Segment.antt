-- ===== src/Storage/Segment.antt =====
-- crates/veclite/src/storage/segment.rs: the framing of segments. The file offset that `read` takes
-- for its messages alone is left out.
pub mod RoundTrip
pub mod Read
use veclite.Base.{
  ℕ, ◌+◌, ◌^◌, ◌≡◌, Bool, not, ◌||◌, Option, none, some, List, [], ◌∷◌, ◌++◌, Bytes, length, take,
  drop, get_or, ltb, leb, ◌==◌, if◌then◌else◌, String,
}
use veclite.Error.{VecLiteError, Result, ok, err, corrupt, ◌>>=◌, ◌>>◌, guard}
use veclite.Storage.Crc.{Crc32}
use veclite.Storage.Le.{to_le, u16, u32, u64}
use veclite.Storage.Compression
use veclite.Storage.Compression.{Codec, Codecs, identity, compress, decompress}

abbrev pub segment_header_size : ℕ
segment_header_size = 32

abbrev pub compress_threshold : ℕ
compress_threshold = 1024

pub data SegmentType : Type 0 where
  config vectors tombstone payload pidx sparse hnsw vocab iddir : SegmentType

unfoldable pub to_byte : SegmentType → ℕ
to_byte config = 1
to_byte vectors = 2
to_byte tombstone = 3
to_byte payload = 4
to_byte pidx = 5
to_byte sparse = 6
to_byte hnsw = 7
to_byte vocab = 8
to_byte iddir = 9

unfoldable pub replay_rank : SegmentType → ℕ
replay_rank config = 0
replay_rank iddir = 1
replay_rank vectors = 2
replay_rank tombstone = 3
replay_rank payload = 4
replay_rank pidx = 5
replay_rank sparse = 6
replay_rank vocab = 7
replay_rank hnsw = 8

unfoldable pub from_byte : ℕ → Result SegmentType
from_byte b =
    if b == 1
    then ok config
    else if b == 2
    then ok vectors
    else if b == 3
    then ok tombstone
    else if b == 4
    then ok payload
    else if b == 5
    then ok pidx
    else if b == 6
    then ok sparse
    else if b == 7
    then ok hnsw
    else if b == 8
    then ok vocab
    else if b == 9
    then ok iddir
    else err (corrupt "segment: unknown seg_type {}")

pub record Segment : Type 0 where
  pub seg_type : SegmentType
  pub seg_flags : ℕ
  pub coll_id : ℕ
  pub body : Bytes

unfoldable pub codec_for : SegmentType → Codec → ℕ → Codec
unfolding to_byte
codec_for seg_type requested body_len =
    if to_byte seg_type == to_byte vectors || ltb body_len compress_threshold
    then identity
    else requested

module _ (crc : Crc32) (lib : Codecs) where
  -- The header of a segment whose stored bytes are `stored`, and those bytes.
  unfoldable pub frame : Segment → Codec → Bytes → Bytes
  frame s codec stored =
      (to_byte s.seg_type ∷ Compression.to_byte codec ∷ [])
      ++ (to_le 2 s.seg_flags
          ++ (to_le 4 s.coll_id
              ++ (to_le 8 (length stored)
                  ++ (to_le 8 (length s.body)
                      ++ (to_le 4 (crc.hash stored) ++ ((0 ∷ 0 ∷ 0 ∷ 0 ∷ []) ++ stored))))))

  unfoldable pub encode : Segment → Codec → Result Bytes
  unfolding frame
  encode s codec = do stored ← compress lib codec s.body; ok (frame s codec stored)

  -- `.map_err(|_| e)`
  abbrev map_err : Result Bytes → VecLiteError → Result Bytes
  map_err (ok b) e = ok b
  map_err (err _) e = err e

  unfoldable pub read : Bytes → ℕ → Result (Segment × ℕ)
  read buf at = do
    guard (leb (at + segment_header_size) (length buf)) (corrupt "segment@{}: truncated header")
    seg_type ← from_byte (get_or buf at 0)
    codec ← Compression.from_byte (get_or buf (at + 1) 0)
    seg_flags ← u16 buf (at + 2) "segment"
    coll_id ← u32 buf (at + 4) "segment"
    body_len ← u64 buf (at + 8) "segment"
    uncompressed_len ← u64 buf (at + 16) "segment"
    body_crc32 ← u32 buf (at + 24) "segment"
    guard (leb (at + segment_header_size + body_len) (length buf))
        (corrupt "segment@{}: body past end of file")
    let stored = take body_len (drop (at + segment_header_size) buf)
    guard (crc.hash stored == body_crc32) (corrupt "segment@{}: body crc mismatch")
    body ←
        map_err (decompress lib codec stored uncompressed_len)
          (corrupt "segment@{}: body decode failed")
    ok (
      record { seg_type = seg_type; seg_flags = seg_flags; coll_id = coll_id; body = body },
      segment_header_size + body_len,
    )
