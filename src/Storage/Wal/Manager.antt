-- ===== src/Storage/Wal/Manager.antt =====
-- The file manager `Wal` of storage/wal.rs. `synced` is the length up to which the file is known to
-- have been fsynced; a crash keeps at least that much.
use veclite.Base.{
  ℕ, ◌+◌, Bool, Option, none, some, List, [], ◌∷◌, ◌++◌, Bytes, length, take, ltb, leb,
  if◌then◌else◌,
}
use veclite.Error.{Result, ok, ◌>>=◌}
use veclite.Storage.Le.{to_le}
use veclite.Storage.File.{write_at, set_len}
use veclite.Storage.Crc.{Crc32}
use veclite.Storage.Wal.{
  WalOp, WalEntry, Replay, encode, scan, magic, format_version, wal_header_size,
}

pub data Durability : Type 0 where
  full normal off : Durability

pub record Wal : Type 0 where
  pub file : Bytes
  pub synced : ℕ
  pub uuid_prefix : Bytes
  pub next_seq : ℕ

unfoldable pub write_header : Bytes → Bytes → Bytes
write_header file uuid_prefix = write_at 0 (magic ++ (to_le 4 format_version ++ uuid_prefix)) file

-- `found` is what the file holds when it is opened, `[]` if it was just created. Opening syncs nothing,
-- so that nothing of it is known to have been.
unfoldable pub open_wal : Bytes → Bytes → Wal
open_wal found uuid =
    if ltb (length found) wal_header_size
    then record {
      file = write_header found (take 8 uuid);
      synced = 0;
      uuid_prefix = take 8 uuid;
      next_seq = 1;
    }
    else record { file = found; synced = 0; uuid_prefix = take 8 uuid; next_seq = 1 }

unfoldable pub sync : Wal → Wal
sync w = record w { synced = length w.file }

unfoldable pub sync_if_full : Durability → Wal → Wal
sync_if_full full w = sync w
sync_if_full normal w = w
sync_if_full off w = w

-- `entries.last().map_or(1, |entry| entry.seq + 1)`
unfoldable pub seq_after : List WalEntry → ℕ
seq_after [] = 1
seq_after (e ∷ []) = e.seq + 1
seq_after (e ∷ e' ∷ es) = seq_after (e' ∷ es)

unfoldable pub truncate : Wal → Wal
unfolding sync
truncate w =
    let cut : Wal = record w {
      file = write_header (set_len wal_header_size w.file) w.uuid_prefix;
    } in
    record (sync cut) { next_seq = 1 }

unfoldable pub size : Wal → ℕ
size w = length w.file

unfoldable pub is_empty : Wal → Bool
unfolding size
is_empty w = leb (size w) wal_header_size

module _ (crc : Crc32) where
  unfoldable pub append : Wal → ℕ → WalOp → Bytes → Durability → Result (Wal × ℕ)
  unfolding sync_if_full sync
  append w coll_id op body durability = do
    let seq = w.next_seq
    bytes ← encode crc (record { seq = seq; coll_id = coll_id; op = op; body = body })
    let written =
        sync_if_full durability (record w { file = write_at (length w.file) bytes w.file })
    ok (record written { next_seq = seq + 1 }, seq)

  unfoldable pub replay : Wal → Option (Wal × Replay)
  unfolding seq_after
  replay w = elim (scan crc w.file w.uuid_prefix) [
    | some r ↦ some (record w { next_seq = seq_after r.entries }, r)
    | none ↦ none
  ]
