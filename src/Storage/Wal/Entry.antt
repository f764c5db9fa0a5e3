-- ===== src/Storage/Wal/Entry.antt =====
-- WAL entries of storage/wal.rs: what `decode_entry` reads back of an encoded entry.
use veclite.Base.{
  ℕ, ◌+◌, ◌^◌, ◌≤◌, ◌<◌, ◌≡◌, refl, ◌∙◌, some, [], ◌∷◌, ◌++◌, append_assoc, arith, Bytes, length,
  drop, ==-refl, le→ltb, length-append, drop_next, take_next, get_or-drop, fits, leb_of_le,
}
use veclite.Error.{ok}
use veclite.Storage.Le.{to_le, length-to_le, u64_at, u32_at}
use veclite.Storage.Crc.{Crc32}
use veclite.Storage.Wal.{
  WalOp, WalEntry, upsert_batch, delete_batch, create_coll, drop_coll, rename, alias, vocab_update,
  pidx_declare, to_byte, from_byte, entry_prefix, entry_crc, frame, body_end?, decode_entry,
}

-- The machine widths of the fields of an entry.
pub record InRange (e : WalEntry) : Type 0 where
  pub seq_lt : e.seq < 2 ^ 64
  pub coll_id_lt : e.coll_id < 2 ^ 32
  pub body_lt : length e.body < 2 ^ 32

pub from_byte-to_byte : (op : WalOp) → from_byte (to_byte op) ≡ ok op
unfolding from_byte to_byte
from_byte-to_byte upsert_batch = refl
from_byte-to_byte delete_batch = refl
from_byte-to_byte create_coll = refl
from_byte-to_byte drop_coll = refl
from_byte-to_byte rename = refl
from_byte-to_byte alias = refl
from_byte-to_byte vocab_update = refl
from_byte-to_byte pidx_declare = refl

length-entry_prefix : (e : WalEntry) → length (entry_prefix e) ≡ 20
unfolding entry_prefix
length-entry_prefix e = simp (length-append, length-to_le)

module _ (crc : Crc32) where
  pub length-frame : (e : WalEntry) → length (frame crc e) ≡ 24 + length e.body
  unfolding frame
  length-frame e = simp (length-append, length-to_le) (omega arith)

  -- The fields of the entry that starts at `at`, one after the other.
  module _ (e : WalEntry) (all rest : Bytes) (at : ℕ) (r : InRange e)
      (h : drop at all ≡ frame crc e ++ rest) where
    abbrev checksum : ℕ
    checksum = entry_crc crc (entry_prefix e) e.body

    at_prefix : drop at all ≡ entry_prefix e ++ (to_le 4 checksum ++ (e.body ++ rest))
    unfolding frame
    at_prefix = h ∙ simp append_assoc

    at_seq :
        drop at all
        ≡ to_le 8 e.seq
          ++ (to_le 4 e.coll_id
              ++ ((to_byte e.op ∷ 0 ∷ 0 ∷ 0 ∷ [])
                  ++ (to_le 4 (length e.body) ++ (to_le 4 checksum ++ (e.body ++ rest)))))
    unfolding entry_prefix
    at_seq = at_prefix ∙ simp append_assoc

    at_coll_id :
        drop (at + 8) all
        ≡ to_le 4 e.coll_id
          ++ ((to_byte e.op ∷ 0 ∷ 0 ∷ 0 ∷ [])
              ++ (to_le 4 (length e.body) ++ (to_le 4 checksum ++ (e.body ++ rest))))
    at_coll_id = drop_next all _ _ at 8 (at + 8) at_seq (length-to_le 8 e.seq) refl

    at_op :
        drop (at + 12) all
        ≡ (to_byte e.op ∷ 0 ∷ 0 ∷ 0 ∷ [])
          ++ (to_le 4 (length e.body) ++ (to_le 4 checksum ++ (e.body ++ rest)))
    at_op =
        drop_next all _ _ (at + 8) 4 (at + 12) at_coll_id (length-to_le 4 e.coll_id) (omega arith)

    at_body_len :
        drop (at + 16) all ≡ to_le 4 (length e.body) ++ (to_le 4 checksum ++ (e.body ++ rest))
    at_body_len =
        drop_next all (to_byte e.op ∷ 0 ∷ 0 ∷ 0 ∷ []) _ (at + 12) 4 (at + 16) at_op refl
          (omega arith)

    at_crc : drop (at + 20) all ≡ to_le 4 checksum ++ (e.body ++ rest)
    at_crc =
        drop_next all _ _ (at + 16) 4 (at + 20) at_body_len (length-to_le 4 (length e.body))
          (omega arith)

    at_body : drop (at + 24) all ≡ e.body ++ rest
    at_body = drop_next all _ _ (at + 20) 4 (at + 24) at_crc (length-to_le 4 checksum) (omega arith)

    whole_fits : at + 24 + length e.body ≤ length all
    whole_fits = omega (
      arith,
      fits all (frame crc e) rest at (24 + length e.body) h (length-frame e) (omega arith),
    )

    -- The entry that was encoded is decoded, whatever follows it, and the offset behind it returned.
    pub decode_entry-frame : decode_entry crc all at e.seq ≡ some (e, at + 24 + length e.body)
    unfolding decode_entry body_end?
    decode_entry-frame =
        rw
          (
            le→ltb (length all) (at + 24) (omega (arith, whole_fits)),
            u64_at all _ at e.seq "wal" at_seq r.seq_lt,
            ==-refl e.seq,
            u32_at all _ (at + 8) e.coll_id "wal" at_coll_id r.coll_id_lt,
            get_or-drop (at + 12) all _ (to_byte e.op) 0 at_op,
            from_byte-to_byte e.op,
            u32_at all _ (at + 16) (length e.body) "wal" at_body_len r.body_lt,
            u32_at all _ (at + 20) checksum "wal" at_crc (crc.hash_lt _),
            leb_of_le (at + 24 + length e.body) (length all) whole_fits,
            take_next all _ _ (at + 24) (length e.body) at_body refl,
            take_next all _ _ at 20 at_prefix (length-entry_prefix e),
            ==-refl checksum,
          )
          refl
