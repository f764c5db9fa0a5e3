-- ===== src/Storage/Pager.antt =====
-- crates/veclite/src/storage/pager.rs: the checkpoint and the committed state of a database file.
-- A checkpoint is the list of its writes and syncs; locks, paths and I/O errors are left out.
pub mod Appends
pub mod Commit
pub mod Committed
pub mod Crash
pub mod Readback
use veclite.Base.{
  ℕ, ◌+◌, ◌≤◌, ◌<◌, ◌≡◌, String, Bool, true, false, ◌&&◌, ◌||◌, arith, Option, none, some, List, [],
  ◌∷◌, ◌++◌, Bytes, ltb, leb, ◌==◌, if◌then◌else◌, length, take, drop, min,
}
use veclite.Error.{VecLiteError, Result, ok, err, corrupt, ◌>>=◌, ◌>>◌, guard}
use veclite.Storage.Crc.{Crc32}
use veclite.Storage.File.{write_at}
use veclite.Storage.Compression.{Codec, Codecs}
use veclite.Storage.Segment
use veclite.Storage.Segment.{Segment, codec_for}
use veclite.Storage.Header
use veclite.Storage.Header.{Header, flag_clean_close, header_size}
use veclite.Storage.Toc
use veclite.Storage.Toc.{SegRef, CollEntry, Toc, TocSerde, sort_replay_order}

-- `CheckpointColl` of storage/image.rs.
pub record CheckpointColl : Type 0 where
  pub coll_id : ℕ
  pub name : String
  pub aliases : List String
  pub vector_count : ℕ
  pub tombstone_count : ℕ
  pub segments : List Segment
  pub reused : Option (List SegRef)

pub record Pager : Type 0 where
  pub uuid : Bytes
  pub created_epoch_s : ℕ
  pub tail : ℕ

-- The calls on the file: `write_all` at an offset, the rewrite of the header page, `sync_all`.
pub data Write : Type 0 where
  append : ℕ → Bytes → Write
  rewrite_header : Bytes → Write
  sync_all : Write

-- What the file holds when all calls have returned.
unfoldable pub run : List Write → Bytes → Bytes
run [] file = file
run (append off bytes ∷ ws) file = run ws (write_at off bytes file)
run (rewrite_header bytes ∷ ws) file = run ws (write_at 0 bytes file)
run (sync_all ∷ ws) file = run ws file

-- The segments of a collection: their references, their writes, and the offset behind them.
pub record Written : Type 0 where
  pub refs : List SegRef
  pub writes : List Write
  pub cur : ℕ

pub record WrittenColls : Type 0 where
  pub entries : List CollEntry
  pub writes : List Write
  pub cur : ℕ

pub record Checkpoint : Type 0 where
  pub pager : Pager
  pub toc : Toc
  pub writes : List Write

unfoldable pub coll_entry : CheckpointColl → List SegRef → CollEntry
coll_entry c refs = sort_replay_order (record {
  coll_id = c.coll_id;
  name = c.name;
  aliases = c.aliases;
  vector_count = c.vector_count;
  tombstone_count = c.tombstone_count;
  live_segments = refs;
})

unfoldable pub committed_header : Pager → ℕ → ℕ → ℕ → ℕ → Header
committed_header p toc_offset toc_len toc_crc32 modified_epoch_s =
    let fresh = Header.new p.uuid p.created_epoch_s in
    record fresh {
      flags = flag_clean_close;
      toc_offset = toc_offset;
      toc_len = toc_len;
      toc_crc32 = toc_crc32;
      modified_epoch_s = modified_epoch_s;
    }

module _ (crc : Crc32) (lib : Codecs) (serde : TocSerde) where
  unfoldable pub write_segments : Codec → List Segment → ℕ → Result Written
  write_segments codec [] cur = ok (record { refs = []; writes = []; cur = cur })
  write_segments codec (seg ∷ segs) cur = do
    bytes ← Segment.encode crc lib seg (codec_for seg.seg_type codec (length seg.body))
    rest ← write_segments codec segs (cur + length bytes)
    ok (record {
      refs =
          record { seg_type = Segment.to_byte seg.seg_type; offset = cur; len = length bytes }
          ∷ rest.refs;
      writes = append cur bytes ∷ rest.writes;
      cur = rest.cur;
    })

  unfoldable pub write_coll : Codec → CheckpointColl → Option (List SegRef) → ℕ → Result Written
  write_coll codec c (some refs) cur = ok (record { refs = refs; writes = []; cur = cur })
  write_coll codec c none cur = write_segments codec c.segments cur

  -- Step (1) of `checkpoint`, over the collections.
  unfoldable pub write_colls : Codec → List CheckpointColl → ℕ → Result WrittenColls
  unfolding write_coll
  write_colls codec [] cur = ok (record { entries = []; writes = []; cur = cur })
  write_colls codec (c ∷ cs) cur = do
    w ← write_coll codec c c.reused cur
    rest ← write_colls codec cs w.cur
    ok (record {
      entries = coll_entry c w.refs ∷ rest.entries;
      writes = w.writes ++ rest.writes;
      cur = rest.cur;
    })

  unfoldable pub checkpoint : Pager → ℕ → List CheckpointColl → Codec → ℕ → Result Checkpoint
  checkpoint p generation colls codec modified_epoch_s = do
    w ← write_colls codec colls p.tail
    let toc : Toc = record {
      generation = generation;
      collections = w.entries;
      free_tail_offset = w.cur;
    }
    tbytes ← Toc.encode serde toc
    let header = committed_header p w.cur (length tbytes) (crc.hash tbytes) modified_epoch_s
    ok (record {
      pager = record p { tail = w.cur + length tbytes };
      toc = toc;
      writes =
          w.writes
          ++ (sync_all
              ∷ append w.cur tbytes
              ∷ sync_all
              ∷ rewrite_header (Header.encode crc header)
              ∷ sync_all
              ∷ []);
    })

  unfoldable pub read_committed : Bytes → Result (Header × Toc × ℕ)
  read_committed file = do
    guard (leb header_size (length file)) (corrupt "header: file shorter than 4 KiB")
    header ← Header.decode crc (take header_size file)
    guard (header.toc_len == 0 || leb (header.toc_offset + header.toc_len) (length file))
        (corrupt "toc: truncated")
    let tbuf = take header.toc_len (drop header.toc_offset file)
    guard (crc.hash tbuf == header.toc_crc32) (corrupt "toc: crc mismatch")
    toc ← Toc.decode serde tbuf
    ok (header, toc, header.toc_offset + header.toc_len)

  -- `Pager::open` on the bytes of an existing file.
  unfoldable pub open_pager : Bytes → Result (Pager × Toc)
  unfolding read_committed
  open_pager file = do
    committed ← read_committed file
    ok (
      record {
        uuid = committed.0.file_uuid;
        created_epoch_s = committed.0.created_epoch_s;
        tail = committed.2;
      },
      committed.1,
    )

  -- The file that `Pager::create_compacted` leaves at a new path.
  unfoldable pub create_compacted : Bytes → ℕ → List CheckpointColl → Codec → ℕ → Result Bytes
  unfolding run
  create_compacted uuid generation colls codec epoch = do
    done ←
        checkpoint (record { uuid = uuid; created_epoch_s = epoch; tail = header_size }) generation
          colls codec epoch
    ok (run done.writes [])

  unfoldable pub read_segment : Bytes → SegRef → Result Segment
  read_segment file r = do
    guard (r.len == 0 || leb (r.offset + r.len) (length file)) (corrupt "segment@{}: truncated")
    found ← Segment.read crc lib (take r.len (drop r.offset file)) 0
    ok found.0
