-- ===== src/Storage/Wal/Decode.antt =====
-- `decode_entry` of storage/wal.rs, characterised by the bytes that it accepts.
use veclite.Base.{
  ℕ, ◌+◌, ◌≤◌, ◌<◌, ◌≡◌, refl, sym, ap, ◌∙◌, inl, inr, some, ◌++◌, arith, Bytes, length, take, drop,
  length-take, length-drop, get_or-drop_add, get_or-append_lt, get_or,
}
use veclite.Error.{ok, Result-cases}
use veclite.Storage.Le.{u64, u32, u64-window, u32-window, window_take, window_fits}
use veclite.Storage.Crc.{Crc32}
use veclite.Storage.Wal.{WalEntry, from_byte, entry_crc, body_end?, decode_entry}

module _ (crc : Crc32) where
  pub record Decoded (all : Bytes) (at s : ℕ) (e : WalEntry) (next : ℕ) : Type 0 where
    pub seq_expected : e.seq ≡ s
    pub seq_read : u64 all at "wal" ≡ ok e.seq
    pub coll_id_read : u32 all (at + 8) "wal" ≡ ok e.coll_id
    pub op_read : from_byte (get_or all (at + 12) 0) ≡ ok e.op
    pub body_len_read : u32 all (at + 16) "wal" ≡ ok (length e.body)
    pub body_read : take (length e.body) (drop (at + 24) all) ≡ e.body
    pub crc_read : u32 all (at + 20) "wal" ≡ ok (entry_crc crc (take 20 (drop at all)) e.body)
    pub next_is : next ≡ at + 24 + length e.body
    pub next_fits : next ≤ length all

  body_len_of :
      (all : Bytes) (at s : ℕ) (e : WalEntry) (next : ℕ)
      → decode_entry crc all at s ≡ some (e, next)
      → (n : ℕ) × (u32 all (at + 16) "wal" ≡ ok n)
        × (take n (drop (at + 24) all) ≡ e.body)
        × (next ≡ at + 24 + n)
        × (at + 24 + n ≤ length all)
  unfolding decode_entry body_end?
  body_len_of all at s e next h = elim (Result-cases (u32 all (at + 16) "wal")) [
    | inl (n, read) ↦ (n, read, ground arith, ground arith, ground arith)
    | inr (x, read) ↦ absurd (ground arith)
  ]

  pub decode_entry-Decoded :
      (all : Bytes) (at s : ℕ) (e : WalEntry) (next : ℕ)
      → decode_entry crc all at s ≡ some (e, next)
      → Decoded all at s e next
  unfolding decode_entry body_end?
  decode_entry-Decoded all at s e next h =
      let (n, n_read, body, behind, inside) = body_len_of all at s e next h in
      let n_is : n ≡ length e.body =
        omega
          (arith, ap length body, length-take n (drop (at + 24) all), length-drop (at + 24) all) in
      record {
        seq_expected = ground arith;
        seq_read = ground arith;
        coll_id_read = ground arith;
        op_read = ground arith;
        body_len_read = n_read ∙ ap ok n_is;
        body_read = ap (λ t. take t (drop (at + 24) all)) (sym n_is) ∙ body;
        crc_read = ground arith;
        next_is = omega arith;
        next_fits = omega arith;
      }

  pub decode_entry_of_Decoded :
      (all : Bytes) (at s : ℕ) (e : WalEntry) (next : ℕ)
      → Decoded all at s e next
      → decode_entry crc all at s ≡ some (e, next)
  unfolding decode_entry body_end?
  decode_entry_of_Decoded all at s e next d = ground arith

  -- Decoding looks at the bytes of the entry alone: at a window `w` of a buffer it gives the same.
  module _ (buf w rest : Bytes) (at m s : ℕ) (e : WalEntry) (h : drop at buf ≡ w ++ rest)
      (inside : m ≤ length w) where
    get_or-window : (k : ℕ) → k < length w → get_or buf (at + k) 0 ≡ get_or w k 0
    get_or-window k l =
        sym (get_or-drop_add at k (at + k) buf 0 refl)
        ∙ ap (λ t. get_or t k 0) h
        ∙ get_or-append_lt k w rest 0 l

    pub Decoded-widen : Decoded w 0 s e m → Decoded buf at s e (at + m)
    Decoded-widen d = record {
      seq_expected = d.seq_expected;
      seq_read = u64-window buf w rest at 0 at "wal" h (omega arith) (omega arith) ∙ d.seq_read;
      coll_id_read =
          u32-window buf w rest at 8 (at + 8) "wal" h refl (omega arith) ∙ d.coll_id_read;
      op_read = ap from_byte (get_or-window 12 (omega arith)) ∙ d.op_read;
      body_len_read =
          u32-window buf w rest at 16 (at + 16) "wal" h refl (omega arith) ∙ d.body_len_read;
      body_read =
          window_take buf w rest at 24 (at + 24) "wal" h refl (length e.body) (omega arith)
          ∙ d.body_read;
      crc_read =
          u32-window buf w rest at 20 (at + 20) "wal" h refl (omega arith)
          ∙ d.crc_read
          ∙ ap (λ t. ok (entry_crc crc t e.body))
              (sym (window_take buf w rest at 0 at "wal" h (omega arith) 20 (omega arith)));
      next_is = omega arith;
      next_fits =
          window_fits buf w rest at 0 at "wal" h (omega arith) m (omega arith) (omega arith);
    }

    pub Decoded-narrow : Decoded buf at s e (at + m) → Decoded w 0 s e m
    Decoded-narrow d = record {
      seq_expected = d.seq_expected;
      seq_read =
          sym (u64-window buf w rest at 0 at "wal" h (omega arith) (omega arith)) ∙ d.seq_read;
      coll_id_read =
          sym (u32-window buf w rest at 8 (at + 8) "wal" h refl (omega arith)) ∙ d.coll_id_read;
      op_read = ap from_byte (sym (get_or-window 12 (omega arith))) ∙ d.op_read;
      body_len_read =
          sym (u32-window buf w rest at 16 (at + 16) "wal" h refl (omega arith)) ∙ d.body_len_read;
      body_read =
          sym (window_take buf w rest at 24 (at + 24) "wal" h refl (length e.body) (omega arith))
          ∙ d.body_read;
      crc_read =
          sym (u32-window buf w rest at 20 (at + 20) "wal" h refl (omega arith))
          ∙ d.crc_read
          ∙ ap (λ t. ok (entry_crc crc t e.body))
              (window_take buf w rest at 0 at "wal" h (omega arith) 20 (omega arith));
      next_is = omega arith;
      next_fits = omega arith;
    }
