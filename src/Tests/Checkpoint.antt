-- ===== src/Tests/Checkpoint.antt =====
-- The theorems on checkpoints, on two checkpoints of a database without collections.
use veclite.Base.{
  ℕ, ◌+◌, ◌≤◌, ◌≡◌, refl, ◌⊎◌, arith, [], ◌∷◌, Bytes, length, replicate, length-replicate,
}
use veclite.Error.{ok}
use veclite.Storage.File.{write_at}
use veclite.Storage.Compression.{zstd}
use veclite.Storage.Header
use veclite.Storage.Toc
use veclite.Storage.Toc.{SegRef}
use veclite.Storage.Pager.{
  Pager, append, rewrite_header, sync_all, run, Checkpoint, committed_header, write_colls,
  checkpoint, open_pager, read_segment,
}
use veclite.Storage.Pager.Crash.{CrashOf, crash, after_append, after_sync}
use veclite.Storage.Pager.Commit.{
  checkpoint_commits, length-checkpoint, checkpoint_keeps_segments, checkpoint_crash,
}
use veclite.Tests.Params.{crc, lib, serde, empty_toc}

abbrev uuid : Bytes
uuid = 1 ∷ 2 ∷ 3 ∷ 4 ∷ 5 ∷ 6 ∷ 7 ∷ 8 ∷ 1 ∷ 2 ∷ 3 ∷ 4 ∷ 5 ∷ 6 ∷ 7 ∷ 8 ∷ []

abbrev pager_at : ℕ → Pager
pager_at tail = record { uuid = uuid; created_epoch_s = 1700000000; tail = tail }

-- What a checkpoint at `tail` does that writes the byte `b` as its table of contents.
abbrev checkpoint_at : ℕ → ℕ → ℕ → Checkpoint
checkpoint_at tail generation b = record {
  pager = pager_at (tail + 1);
  toc = empty_toc generation tail;
  writes =
      sync_all
      ∷ append tail (b ∷ [])
      ∷ sync_all
      ∷ rewrite_header (Header.encode crc (committed_header (pager_at tail) tail 1 1 1700000001))
      ∷ sync_all
      ∷ [];
}

first_checkpoint :
    checkpoint crc lib serde (pager_at 4096) 1 [] zstd 1700000001 ≡ ok (checkpoint_at 4096 1 1)
unfolding checkpoint write_colls Toc.encode
first_checkpoint = refl

second_checkpoint :
    checkpoint crc lib serde (pager_at 4097) 2 [] zstd 1700000001 ≡ ok (checkpoint_at 4097 2 2)
unfolding checkpoint write_colls Toc.encode
second_checkpoint = refl

unfoldable zeroed : Bytes
zeroed = replicate 4096 0

length-zeroed : length zeroed ≡ 4096
unfolding zeroed
length-zeroed = length-replicate {A = ℕ} 4096 0

abbrev file : Bytes
file = run (checkpoint_at 4096 1 1).writes zeroed

file-open : open_pager crc lib serde file ≡ ok (pager_at 4097, empty_toc 1 4096)
file-open =
    checkpoint_commits crc lib serde (pager_at 4096) 1 [] zstd 1700000001 (checkpoint_at 4096 1 1)
      zeroed first_checkpoint refl (omega arith) (omega arith) (omega arith) (omega arith)
      (omega (arith, length-zeroed))

length-file : 4097 ≤ length file
length-file =
    length-checkpoint crc lib serde (pager_at 4096) 1 [] zstd 1700000001 (checkpoint_at 4096 1 1)
      zeroed first_checkpoint refl (omega arith) (omega arith) (omega arith) (omega arith)
      (omega (arith, length-zeroed))

checkpoint_commits_example :
    open_pager crc lib serde (run (checkpoint_at 4097 2 2).writes file)
    ≡ ok (pager_at 4098, empty_toc 2 4097)
checkpoint_commits_example =
    checkpoint_commits crc lib serde (pager_at 4097) 2 [] zstd 1700000001 (checkpoint_at 4097 2 2)
      file second_checkpoint refl (omega arith) (omega arith) (omega arith) (omega arith)
      length-file

abbrev old_ref : SegRef
old_ref = record { seg_type = 4; offset = 4096; len = 1 }

checkpoint_keeps_segments_example :
    read_segment crc lib serde (run (checkpoint_at 4097 2 2).writes file) old_ref
    ≡ read_segment crc lib serde file old_ref
checkpoint_keeps_segments_example =
    checkpoint_keeps_segments crc lib serde (pager_at 4097) 2 [] zstd 1700000001
      (checkpoint_at 4097 2 2) file old_ref second_checkpoint refl (omega arith) (omega arith)
      (omega arith) (omega arith) length-file (omega arith) (omega arith)

-- A crash after the table of contents was written and synced, and before the header.
abbrev torn : Bytes
torn = write_at 4097 (2 ∷ []) file

torn-CrashOf : CrashOf (length file) file (checkpoint_at 4097 2 2).writes torn
torn-CrashOf = after_sync (after_append (after_sync (crash (omega arith) refl)))

checkpoint_crash_example :
    (open_pager crc lib serde torn ≡ ok (pager_at 4097, empty_toc 1 4096))
    ⊎ (open_pager crc lib serde torn ≡ ok (pager_at 4098, empty_toc 2 4097))
checkpoint_crash_example =
    checkpoint_crash crc lib serde (pager_at 4097) 2 [] zstd 1700000001 (checkpoint_at 4097 2 2)
      file torn (empty_toc 1 4096) second_checkpoint refl (omega arith) (omega arith) (omega arith)
      (omega arith) length-file file-open torn-CrashOf
