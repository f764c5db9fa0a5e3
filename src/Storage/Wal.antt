-- ===== src/Storage/Wal.antt =====
-- crates/veclite/src/storage/wal.rs: the write-ahead log. The file is the list of its bytes; CRC32
-- (the crate crc32fast) is a parameter. `scan` walks the file on fuel, `none` if the fuel ran out.
pub mod Entry
pub mod Decode
pub mod Scan
pub mod Crash
pub mod Manager
pub mod Log
pub mod Recovery
use veclite.Base.{
  ℕ, zero, suc, ◌+◌, ◌^◌, ◌<◌, Bool, true, false, not, ◌&&◌, ◌||◌, Option, none, some, List, [],
  ◌∷◌, ◌++◌, Bytes, length, take, drop, get_or, ltb, leb, ◌==◌, if◌then◌else◌, ◌>>=?◌,
}
use veclite.Error.{Result, ok, err, corrupt, to_option}
use veclite.Storage.Crc.{Crc32}
use veclite.Storage.Le.{to_le, u32, u64}

pub data WalOp : Type 0 where
  upsert_batch delete_batch create_coll drop_coll rename alias vocab_update pidx_declare : WalOp

unfoldable pub to_byte : WalOp → ℕ
to_byte upsert_batch = 1
to_byte delete_batch = 2
to_byte create_coll = 3
to_byte drop_coll = 4
to_byte rename = 5
to_byte alias = 6
to_byte vocab_update = 7
to_byte pidx_declare = 8

unfoldable pub from_byte : ℕ → Result WalOp
from_byte b =
    if b == 1
    then ok upsert_batch
    else if b == 2
    then ok delete_batch
    else if b == 3
    then ok create_coll
    else if b == 4
    then ok drop_coll
    else if b == 5
    then ok rename
    else if b == 6
    then ok alias
    else if b == 7
    then ok vocab_update
    else if b == 8
    then ok pidx_declare
    else err (corrupt "wal: unknown op")

pub record WalEntry : Type 0 where
  pub seq : ℕ
  pub coll_id : ℕ
  pub op : WalOp
  pub body : Bytes

abbrev pub wal_header_size : ℕ
wal_header_size = 16

abbrev pub entry_header_size : ℕ
entry_header_size = 24

abbrev pub entry_crc_prefix : ℕ
entry_crc_prefix = 20

abbrev pub magic : Bytes
magic = b'V' ∷ b'L' ∷ b'W' ∷ b'L' ∷ []

abbrev pub format_version : ℕ
format_version = 1

-- The header fields of an entry that its checksum covers.
unfoldable pub entry_prefix : WalEntry → Bytes
entry_prefix e =
    to_le 8 e.seq
    ++ (to_le 4 e.coll_id ++ ((to_byte e.op ∷ 0 ∷ 0 ∷ 0 ∷ []) ++ to_le 4 (length e.body)))

pub record Replay : Type 0 where
  pub entries : List WalEntry
  pub discarded_tail : Bool

abbrev pub eq_bytes : Bytes → Bytes → Bool
eq_bytes [] [] = true
eq_bytes (x ∷ xs) (y ∷ ys) = x == y && eq_bytes xs ys
eq_bytes _ _ = false

module _ (crc : Crc32) where
  unfoldable pub entry_crc : Bytes → Bytes → ℕ
  entry_crc header_prefix body = crc.hash (header_prefix ++ body)

  -- The bytes of an entry whose body is not too long.
  unfoldable pub frame : WalEntry → Bytes
  unfolding entry_prefix entry_crc
  frame e = entry_prefix e ++ (to_le 4 (entry_crc (entry_prefix e) e.body) ++ e.body)

  unfoldable pub encode : WalEntry → Result Bytes
  encode e =
      if ltb (length e.body) (2 ^ 32)
      then ok (frame e)
      else err (corrupt "wal: entry body exceeds 4 GiB")

  -- The end of the body, if it does not pass the end of the file.
  body_end? : Bytes → ℕ → ℕ → Option ℕ
  body_end? all body_start body_len =
      if leb (body_start + body_len) (length all) then some (body_start + body_len) else none

  unfoldable pub decode_entry : Bytes → ℕ → ℕ → Option (WalEntry × ℕ)
  unfolding body_end? entry_crc
  decode_entry all at expected_seq =
      if ltb (length all) (at + entry_header_size)
      then none
      else to_option (u64 all at "wal") >>=? λ seq.
          if not (seq == expected_seq)
          then none
          else to_option (u32 all (at + 8) "wal") >>=? λ coll_id.
              to_option (from_byte (get_or all (at + 12) 0)) >>=? λ op.
              to_option (u32 all (at + 16) "wal") >>=? λ body_len.
              to_option (u32 all (at + 20) "wal") >>=? λ stored_crc.
              body_end? all (at + entry_header_size) body_len >>=? λ body_end.
              (let body = take body_len (drop (at + entry_header_size) all) in
                if not (entry_crc (take entry_crc_prefix (drop at all)) body == stored_crc)
                then none
                else some (record { seq = seq; coll_id = coll_id; op = op; body = body }, body_end))

  -- The loop of `Wal::scan`.
  unfoldable pub scan_loop : ℕ → Bytes → ℕ → ℕ → List WalEntry → Option Replay
  scan_loop zero all at expected_seq entries = none
  scan_loop (suc fuel) all at expected_seq entries = elim (ltb at (length all)) [
    | false ↦ some (record { entries = entries; discarded_tail = false })
    | true ↦ elim (decode_entry all at expected_seq) [
      | some (entry, next) ↦ scan_loop fuel all next (entry.seq + 1) (entries ++ entry ∷ [])
      | none ↦ some (record { entries = entries; discarded_tail = ltb at (length all) })
    ]
  ]

  unfoldable pub scan : Bytes → Bytes → Option Replay
  scan all uuid_prefix =
      if ltb (length all) wal_header_size
      then some (record { entries = []; discarded_tail = false })
      else if not (eq_bytes (take 4 all) magic) || not (eq_bytes (take 8 (drop 8 all)) uuid_prefix)
      then some (record { entries = []; discarded_tail = true })
      else scan_loop (suc (length all)) all wal_header_size 1 []
