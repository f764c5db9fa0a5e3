-- ===== src/Storage/Image.antt =====
-- crates/veclite/src/storage/image.rs: a database file that is assembled in memory, and parsed. A
-- `usize` has 64 bits, so that `as_usize` always succeeds.
pub mod Native
pub mod Parsed
use veclite.Base.{
  ℕ, ◌+◌, ◌-◌, ◌==◌, ◌&&◌, ltb, leb, if◌then◌else◌, Bool, true, false, Option, none, some, List, [],
  ◌∷◌, ◌++◌, Bytes, length, take, drop,
}
use veclite.Error.{Result, ok, err, corrupt, ◌>>=◌, ◌>>◌, ok_or, guard}
use veclite.Storage.Crc.{Crc32}
use veclite.Storage.File.{write_at}
use veclite.Storage.Compression.{Codec, Codecs}
use veclite.Storage.Segment
use veclite.Storage.Segment.{Segment, codec_for}
use veclite.Storage.Header
use veclite.Storage.Header.{zeros, header_size}
use veclite.Storage.Toc
use veclite.Storage.Toc.{SegRef, CollEntry, Toc, TocSerde}
use veclite.Storage.Pager.{CheckpointColl, committed_header, coll_entry}

pub record ImageColl : Type 0 where
  pub entry : CollEntry
  pub segments : List Segment

unfoldable pub saturating_add : ℕ → ℕ → ℕ
saturating_add a b = if ltb (a + b) 18446744073709551616 then a + b else 18446744073709551615

-- `bytes.get(off..off.saturating_add(len))`
unfoldable pub slice : Bytes → ℕ → ℕ → Option Bytes
slice bytes off len =
    if leb off (saturating_add off len) && leb (saturating_add off len) (length bytes)
    then some (take (saturating_add off len - off) (drop off bytes))
    else none

-- The loop over the segments of a collection, with the reading of one of them.
unfoldable pub read_refs : (SegRef → Result Segment) → List SegRef → Result (List Segment)
read_refs read [] = ok []
read_refs read (seg ∷ segs) = do found ← read seg; rest ← read_refs read segs; ok (found ∷ rest)

-- The loop over the collections.
unfoldable pub read_entries : (SegRef → Result Segment) → List CollEntry → Result (List ImageColl)
unfolding read_refs
read_entries read [] = ok []
read_entries read (entry ∷ entries) = do
  segments ← read_refs read entry.live_segments
  rest ← read_entries read entries
  ok (record { entry = entry; segments = segments } ∷ rest)

module _ (crc : Crc32) (lib : Codecs) (serde : TocSerde) where
  -- The inner loop: the references, and the buffer with the segments behind it.
  unfoldable pub image_segments : Codec → List Segment → Bytes → Result (List SegRef × Bytes)
  image_segments codec [] buf = ok ([], buf)
  image_segments codec (seg ∷ segs) buf = do
    bytes ← Segment.encode crc lib seg (codec_for seg.seg_type codec (length seg.body))
    rest ← image_segments codec segs (buf ++ bytes)
    ok (
      record { seg_type = Segment.to_byte seg.seg_type; offset = length buf; len = length bytes }
          ∷ rest.0,
      rest.1,
    )

  -- An image seals every segment afresh.
  unfoldable pub image_coll :
      Codec → CheckpointColl → Option (List SegRef) → Bytes → Result (List SegRef × Bytes)
  unfolding image_segments
  image_coll codec c (some refs) buf = err (
      corrupt
        "image: collection {} was carried forward (reused refs) but an image seals every segment fresh")
  image_coll codec c none buf = image_segments codec c.segments buf

  unfoldable pub image_colls : Codec → List CheckpointColl → Bytes → Result (List CollEntry × Bytes)
  unfolding image_coll
  image_colls codec [] buf = ok ([], buf)
  image_colls codec (c ∷ cs) buf = do
    w ← image_coll codec c c.reused buf
    rest ← image_colls codec cs w.1
    ok (coll_entry c w.0 ∷ rest.0, rest.1)

  unfoldable pub write_image : Bytes → ℕ → ℕ → ℕ → List CheckpointColl → Codec → Result Bytes
  write_image file_uuid created_epoch_s modified_epoch_s generation colls codec = do
    w ← image_colls codec colls (zeros header_size)
    let toc_start : ℕ = length w.1
    let toc : Toc = record {
      generation = generation;
      collections = w.0;
      free_tail_offset = toc_start;
    }
    tbytes ← Toc.encode serde toc
    let header =
        committed_header
          (record { uuid = file_uuid; created_epoch_s = created_epoch_s; tail = header_size })
          toc_start (length tbytes) (crc.hash tbytes) modified_epoch_s
    ok (write_at 0 (Header.encode crc header) (w.1 ++ tbytes))

  -- The committed table of contents.
  unfoldable pub image_toc : Bytes → Result Toc
  image_toc bytes = do
    guard (leb header_size (length bytes)) (corrupt "image: shorter than 4 KiB")
    header ← Header.decode crc (take header_size bytes)
    tbuf ← ok_or (slice bytes header.toc_offset header.toc_len) (corrupt "image: TOC out of range")
    guard (crc.hash tbuf == header.toc_crc32) (corrupt "image: TOC crc mismatch")
    Toc.decode serde tbuf

  unfoldable pub image_segment : Bytes → SegRef → Result Segment
  image_segment bytes seg = do
    sbuf ← ok_or (slice bytes seg.offset seg.len) (corrupt "image: segment@{} out of range")
    found ← Segment.read crc lib sbuf 0
    ok found.0

  unfoldable pub read_image : Bytes → Result (List ImageColl)
  unfolding image_toc image_segment read_entries
  read_image bytes = do toc ← image_toc bytes; read_entries (image_segment bytes) toc.collections
