-- ===== src/Lib.antt =====
-- A verification library for VecLite, an embedded vector database in one file.
--
-- The program (crates/veclite/src) keeps collections of points in memory and their state in a
-- `.veclite` file: a header page, immutable segments, and a table of contents that the header points
-- at. A write-ahead log beside the file takes each write between checkpoints; a checkpoint appends
-- fresh segments and a table of contents, swaps the header page, and empties the log; opening a
-- database reads the committed state and replays the log.
--
-- The files and what they model:
-- - Base.antt and its children: Boolean tests on numbers, byte lists, list lemmas.
-- - Error.antt: `VecLiteError` and `Result` of error.rs.
-- - Storage/Le.antt: the module `le` of storage/mod.rs and `to_le_bytes`.
-- - Storage/File.antt: a file as its bytes; `write_at` is a seek and `write_all`, `set_len` as in std.
-- - Storage/Crc.antt: the crate crc32fast, a parameter whose values are below 2 ^ 32.
-- - Storage/Wal.antt and its children: storage/wal.rs; `scan` is the loop of `Wal::scan`, `Manager`
--   the operations `open`, `append`, `sync`, `replay`, `truncate`, `size` and `is_empty`.
-- - Storage/Compression.antt: storage/compression.rs; the crates lz4_flex and zstd are parameters,
--   and lz4_flex is taken to read back what it wrote below 4 GiB, as its prefix has 32 bits.
-- - Storage/Segment.antt, Storage/Header.antt, Storage/Toc.antt: storage/segment.rs, header.rs, toc.rs.
--   The coder rmp_serde is a parameter at the type `Toc`.
-- - Storage/Msgpack.antt: `guard_msgpack_depth` of storage/body.rs. Storage/Body.antt and its children: the
--   bodies of that file. `Body.Loops` has the loops over the items that they share; rmp_serde and the
--   bitmaps of roaring are records `Coder`.
-- - Storage/Iddir.antt: storage/iddir.rs; the hash of xxhash_rust is a parameter. Storage/Vectors.antt:
--   storage/vectors.rs; `View` has `VectorsView`, the bits of f32 are the record `FloatBits`.
-- - Utf8.antt: `as_bytes` and `from_utf8` of the standard library.
-- - Options.antt: the options of a collection in options.rs.
-- - Persist.antt and its children: `Config` is persist/config.rs, and persist/seal.rs is in `Seal`, `Load`
--   and `Lanes` (sparse vectors as postings by term). `Crates` has what the sealing calls of other
--   crates, `Sealable` says which collections can be sealed; `Buckets`, `Directory`, `Ids`, `Tables` and
--   `Stages` have the parts of the proof in `Restored`.
-- - Storage/Pager.antt and its children: storage/pager.rs; `checkpoint` gives the list of writes and
--   syncs of `Pager::checkpoint`, `run` is what they do to a file, and `CrashOf` what a crash leaves.
-- - Storage/Image.antt and its children: `write_image` and `read_image` of storage/image.rs.
-- - Collection.antt and its children: the slots of collection.rs. `CollectionData` is the struct without
--   the search structures derived from it; `bury_old` and `push_point` are the two halves of
--   `apply_upsert`, `WellFormed` has the invariant, `Refinement` the view as a map from ids to
--   points, `Batches` batches of writes, `Reached` the slots that batches lead to; `Handle`
--   has the operations behind the test that the collection was not deleted.
-- - Point.antt: the validation of ids and collection names of point.rs.
-- - Sparse.antt and its child: `SparseVector` of point.rs; f32 is a parameter.
-- - Filter.antt and its children: filter/mod.rs and filter/index.rs. `Eval` has `Filter::matches`,
--   `Validate` and `Parse` the functions `validate` and `from_json`; `Postings`, `KeyIndex` and `Index`
--   the payload indexes. `Meaning`, `Keys`, `Print` and the children of `Index` have the proofs. JSON
--   values are a data type; their numbers, i64, f64 and the bitmaps of the crate roaring are parameters.
-- - Dict.antt: maps with text keys as association lists.
-- - Database.antt and its children: the registry of database.rs. `Create`, `Edit` and `Embedders` have
--   the operations, `Replay` has `apply_wal_entry`; what a collection keeps and how its embedder is
--   made is the record `Contents`. `Registry` has the invariant, `Reachable` the databases that
--   operations lead to, `Resolve` and `Delete` what names stand for, `Recovered` and `Lost` the replay
--   of journaled operations. Only a read-only handle makes a write of the journal fail.
--   The counter of the collection ids wraps around at 2^32, as that of the code.
-- - Chunk.antt and its children: the text chunker of chunk.rs on byte positions; `none` is
--   its panic where `start + max` overflows.
-- - Tests.antt: the theorems at concrete inputs.
--
-- Numbers are natural numbers; where a field has a width the theorems name the bound (InRange). A
-- loop without a structural argument runs on fuel: `scan_loop` gets one more than the length of the
-- file, as every round reads at least one byte, and `guard_loop` two rounds for each byte and two
-- more, as every round pops its stack or reads a byte. `chunk_loop` gets the length of the text, as
-- its start moves on in every round but the last; the loop over payloads gets one more than the length of
-- its body, as an entry has twelve bytes at least, and `double_up` as many rounds as the number that it
-- has to reach.
--
-- Not modelled: paths, locks, renames and I/O errors, memory mapping, floating-point search (index,
-- quantization, simd, embedding), the bindings, and the parts of the program that no file here names
-- (persist/mod.rs, hybrid.rs, interop; of database.rs the sealing and `open_with`).
pub mod Base
pub mod Chunk
pub mod Collection
pub mod Database
pub mod Dict
pub mod Error
pub mod Filter
pub mod Options
pub mod Persist
pub mod Point
pub mod Sparse
pub mod Storage
pub mod Tests
pub mod Utf8
