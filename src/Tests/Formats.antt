-- ===== src/Tests/Formats.antt =====
-- The theorems on the file formats, on small inputs.
use mathlib.Core.List.{Perm}
use veclite.Base.{◌+◌, ◌-◌, ◌≤◌, ◌≡◌, refl, arith, some, [], ◌∷◌, ◌++◌, Bytes, length, take, drop}
use veclite.Error.{ok}
use veclite.Storage.Le.{to_le, from_le, from_le-to_le, u32}
use veclite.Storage.Compression.{lz4, zstd, compress, decompress, decompress-compress}
use veclite.Storage.Segment
use veclite.Storage.Segment.{Segment, payload, frame}
use veclite.Storage.Segment.RoundTrip.{read-encode}
use veclite.Storage.Segment.Read.{read_accepts}
use veclite.Storage.Header
use veclite.Storage.Header.{Header, new}
use veclite.Storage.Header.RoundTrip as HeaderRoundTrip
use veclite.Storage.Toc
use veclite.Storage.Toc.{SegRef, CollEntry, sort_replay_order}
use veclite.Storage.Toc.Order.{IsReplayOrder, sort_replay_order_lem}
use veclite.Storage.Msgpack.{guard_loop, guard_msgpack_depth}
use veclite.Storage.Msgpack.Depth.{guard_msgpack_depth_lem}
use veclite.Tests.Params.{crc, lib, serde, empty_toc}

from_le-to_le_example : from_le (to_le 2 513) ≡ 513
from_le-to_le_example = from_le-to_le 2 513 (omega arith)

packed : compress lib lz4 (1 ∷ 2 ∷ 3 ∷ []) ≡ ok (4 ∷ 1 ∷ 2 ∷ 3 ∷ [])
unfolding compress
packed = refl

unpacked_again : decompress lib lz4 (4 ∷ 1 ∷ 2 ∷ 3 ∷ []) 3 ≡ ok (1 ∷ 2 ∷ 3 ∷ [])
unpacked_again =
    decompress-compress lib lz4 (1 ∷ 2 ∷ 3 ∷ []) (4 ∷ 1 ∷ 2 ∷ 3 ∷ []) (λ _. omega arith) packed

abbrev segment : Segment
segment = record { seg_type = payload; seg_flags = 1; coll_id = 3; body = 1 ∷ 2 ∷ 3 ∷ [] }

abbrev segment_bytes : Bytes
segment_bytes = frame crc lib segment zstd (5 ∷ 1 ∷ 2 ∷ 3 ∷ [])

segment-encode : Segment.encode crc lib segment zstd ≡ ok segment_bytes
unfolding Segment.encode compress
segment-encode = refl

length-segment_bytes : length segment_bytes ≡ 36
unfolding frame Segment.to_byte to_le
length-segment_bytes = refl

read-encode_example :
    Segment.read crc lib (segment_bytes ++ 0 ∷ []) 0 ≡ ok (segment, length segment_bytes)
read-encode_example =
    read-encode crc lib segment zstd segment_bytes (segment_bytes ++ 0 ∷ []) (0 ∷ []) 0
      (omega arith) (omega arith) (omega arith) (omega (arith, length-segment_bytes))
      (λ _. omega arith) segment-encode refl

segment-read : Segment.read crc lib (segment_bytes ++ 0 ∷ []) 0 ≡ ok (segment, length segment_bytes)
segment-read =
    read-encode crc lib segment zstd segment_bytes (segment_bytes ++ 0 ∷ []) (0 ∷ []) 0
      (omega arith) (omega arith) (omega arith) (omega (arith, length-segment_bytes))
      (λ _. omega arith) segment-encode refl

read_accepts_example :
    (32 ≤ length segment_bytes)
    × (0 + length segment_bytes ≤ length (segment_bytes ++ 0 ∷ []))
    × (u32 (segment_bytes ++ 0 ∷ []) (0 + 24) "segment"
        ≡ ok
            (crc.hash (take (length segment_bytes - 32) (drop (0 + 32) (segment_bytes ++ 0 ∷ [])))))
read_accepts_example =
    read_accepts crc lib (segment_bytes ++ 0 ∷ []) 0 (length segment_bytes) segment segment-read

abbrev uuid : Bytes
uuid = 1 ∷ 2 ∷ 3 ∷ 4 ∷ 5 ∷ 6 ∷ 7 ∷ 8 ∷ 1 ∷ 2 ∷ 3 ∷ 4 ∷ 5 ∷ 6 ∷ 7 ∷ 8 ∷ []

header-InRange : HeaderRoundTrip.InRange (new uuid 1700000000)
unfolding new
header-InRange = record {
  format_version_lt = omega arith;
  reader_le = omega arith;
  flags_lt = omega arith;
  toc_offset_lt = omega arith;
  toc_len_lt = omega arith;
  toc_crc32_lt = omega arith;
  uuid_len = refl;
  created_lt = omega arith;
  modified_lt = omega arith;
}

decode-encode_example :
    (length (Header.encode crc (new uuid 1700000000)) ≡ 4096)
    × (Header.decode crc (Header.encode crc (new uuid 1700000000)) ≡ ok (new uuid 1700000000))
decode-encode_example = HeaderRoundTrip.decode-encode crc (new uuid 1700000000) header-InRange

toc-encode : Toc.encode serde (empty_toc 1 4096) ≡ ok (1 ∷ [])
unfolding Toc.encode
toc-encode = refl

empty_toc-read : Toc.decode serde (1 ∷ []) ≡ ok (empty_toc 1 4096)
empty_toc-read = Toc.decode-encode_toc serde (empty_toc 1 4096) (1 ∷ []) toc-encode

abbrev unsorted : CollEntry
unsorted = record {
  coll_id = 1;
  name = "a";
  aliases = [];
  vector_count = 0;
  tombstone_count = 0;
  live_segments =
      record { seg_type = 7; offset = 4096; len = 1 }
      ∷ record { seg_type = 2; offset = 9000; len = 1 }
      ∷ record { seg_type = 2; offset = 5000; len = 1 }
      ∷ [];
}

sort_replay_order_lem_example :
    IsReplayOrder (sort_replay_order unsorted).live_segments
    × Perm (sort_replay_order unsorted).live_segments unsorted.live_segments
sort_replay_order_lem_example = sort_replay_order_lem unsorted

guard_msgpack_depth_lem_example :
    guard_loop 6 (145 ∷ 7 ∷ []) (1 ∷ []) 0 ≡ some (guard_msgpack_depth (145 ∷ 7 ∷ []))
guard_msgpack_depth_lem_example = guard_msgpack_depth_lem (145 ∷ 7 ∷ [])
