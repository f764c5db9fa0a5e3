-- ===== src/Tests/Log.antt =====
-- The theorems on the write-ahead log, on a log of two entries.
use veclite.Base.{
  ◌≤◌, ◌≡◌, refl, arith, true, false, none, some, List, [], ◌∷◌, ◌++◌, Bytes, All, length, ltb,
}
use veclite.Error.{ok}
use veclite.Storage.Le.{to_le, u64, from_le}
use veclite.Storage.Wal.{WalEntry, upsert_batch, delete_batch, frame, scan, decode_entry}
use veclite.Storage.Wal.Entry.{InRange}
use veclite.Storage.Wal.Scan.{header, encodings, scan-encodings}
use veclite.Storage.Wal.Crash.{survivors}
use veclite.Storage.Wal.Manager.{Wal, full, append, replay, open_wal, truncate}
use veclite.Storage.Wal.Log.{IsLog, new_entry, append-IsLog, replay-open_wal, truncate-IsLog}
use veclite.Storage.Wal.Recovery.{
  crashed, scan-crashed, full_append_survives, append_behind_tail_lost,
}
use veclite.Tests.Params.{crc}

abbrev uuid_prefix : Bytes
uuid_prefix = 1 ∷ 2 ∷ 3 ∷ 4 ∷ 5 ∷ 6 ∷ 7 ∷ 8 ∷ []

abbrev entries : List WalEntry
entries =
    record { seq = 1; coll_id = 1; op = upsert_batch; body = 7 ∷ 7 ∷ [] }
    ∷ record { seq = 2; coll_id = 1; op = delete_batch; body = [] }
    ∷ []

abbrev log : Wal
log = record {
  file = header uuid_prefix ++ encodings crc entries;
  synced = 0;
  uuid_prefix = uuid_prefix;
  next_seq = 3;
}

entries-InRange : All InRange entries
entries-InRange = (
  record { seq_lt = omega arith; coll_id_lt = omega arith; body_lt = omega arith },
  (record { seq_lt = omega arith; coll_id_lt = omega arith; body_lt = omega arith }, tt),
)

log-IsLog : IsLog crc log entries
log-IsLog = record {
  uuid_len = refl;
  bytes = refl;
  numbered = (refl, (refl, tt));
  in_range = entries-InRange;
  next = refl;
  synced_le = omega arith;
}

new_entry-InRange : InRange (new_entry log 1 upsert_batch (9 ∷ []))
new_entry-InRange = record { seq_lt = omega arith; coll_id_lt = omega arith; body_lt = omega arith }

append-IsLog_example :
    (w' : Wal) × (append crc log 1 upsert_batch (9 ∷ []) full ≡ ok (w', 3))
    × IsLog crc w' (entries ++ new_entry log 1 upsert_batch (9 ∷ []) ∷ [])
    × (full ≡ full → w'.synced ≡ length w'.file)
append-IsLog_example =
    append-IsLog crc log entries log-IsLog 1 upsert_batch (9 ∷ []) full new_entry-InRange

entries_length : length (encodings crc entries) ≡ 50
unfolding frame to_le
entries_length = refl

thirty_inside : 30 ≤ length (encodings crc entries)
thirty_inside = omega (arith, entries_length)

-- 30 bytes behind the header hold the first entry and four bytes of the second.
scan-crashed_example :
    scan crc (crashed 46 log) uuid_prefix
    ≡ some (record {
      entries = survivors crc 30 entries;
      discarded_tail = ltb (length (encodings crc (survivors crc 30 entries))) 30;
    })
scan-crashed_example = scan-crashed crc log entries log-IsLog 30 thirty_inside

abbrev appended : Wal
appended = (append-IsLog crc log entries log-IsLog 1 upsert_batch (9 ∷ []) full new_entry-InRange).0

full_append_survives_example :
    scan crc (crashed (length appended.file) appended) appended.uuid_prefix
    ≡ some (record {
      entries = entries ++ new_entry log 1 upsert_batch (9 ∷ []) ∷ [];
      discarded_tail = false;
    })
full_append_survives_example =
    full_append_survives crc log entries log-IsLog 1 upsert_batch (9 ∷ []) (length appended.file)
      appended 3 new_entry-InRange
      (append-IsLog crc log entries log-IsLog 1 upsert_batch (9 ∷ []) full new_entry-InRange).1
      (omega (
        arith,
        (append-IsLog crc log entries log-IsLog 1 upsert_batch (9 ∷ []) full new_entry-InRange).3
            refl,
      ))

replay-open_wal_example :
    (w' : Wal) × (replay crc (open_wal log.file (uuid_prefix ++ uuid_prefix))
      ≡ some (w', record { entries = entries; discarded_tail = false }))
    × IsLog crc w' entries
replay-open_wal_example =
    replay-open_wal crc log entries log-IsLog (uuid_prefix ++ uuid_prefix) refl

truncate-IsLog_example : IsLog crc (truncate log) []
truncate-IsLog_example = truncate-IsLog crc log entries log-IsLog

abbrev stale : Bytes
stale = 9 ∷ 0 ∷ 0 ∷ 0 ∷ 0 ∷ 0 ∷ 0 ∷ 0 ∷ []

abbrev log_with_tail : Wal
log_with_tail = record {
  file = header uuid_prefix ++ (encodings crc entries ++ stale);
  synced = 0;
  uuid_prefix = uuid_prefix;
  next_seq = 3;
}

stale_seq : u64 stale 0 "wal" ≡ ok 9
unfolding u64 from_le
stale_seq = refl

append_behind_tail_lost_example :
    (w' : Wal) × (append crc log_with_tail 1 upsert_batch (9 ∷ []) full ≡ ok (w', 3))
    × (scan crc w'.file w'.uuid_prefix ≡ some (record { entries = entries; discarded_tail = true }))
append_behind_tail_lost_example =
    append_behind_tail_lost crc log_with_tail entries stale 9 refl refl (refl, (refl, tt))
      entries-InRange stale_seq (omega arith) 1 upsert_batch (9 ∷ []) full (omega arith)

stale_stops : decode_entry crc stale 0 3 ≡ none
unfolding decode_entry
stale_stops = refl

scan-encodings_example :
    scan crc (header uuid_prefix ++ (encodings crc entries ++ stale)) uuid_prefix
    ≡ some (record { entries = entries; discarded_tail = true })
scan-encodings_example =
    scan-encodings crc uuid_prefix refl entries stale (refl, (refl, tt)) entries-InRange stale_stops
