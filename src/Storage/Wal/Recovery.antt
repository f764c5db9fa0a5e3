-- ===== src/Storage/Wal/Recovery.antt =====
-- The log of storage/wal.rs across crashes: what fsync guarantees, and what an append behind a
-- discarded tail is worth.
use veclite.Base.{
  ℕ, ◌+◌, ◌^◌, ◌≤◌, ◌<◌, ◌≡◌, ◌≢◌, refl, sym, ap, ap₂, subst, ◌∙◌, Bool, true, false, none, some,
  List, [], ◌∷◌, ◌++◌, append_assoc, arith, Bytes, All, length, take, ltb, length-append, lt→ltb,
  take_all, take-append_ge,
}
use veclite.Error.{ok}
use veclite.Storage.Le.{u64, u64-window, u64_fits}
use veclite.Storage.File.{write_at, write_at_end}
use veclite.Storage.Crc.{Crc32}
use veclite.Storage.Wal.{WalOp, WalEntry, encode, scan, frame, decode_entry}
use veclite.Storage.Wal.Entry.{InRange}
use veclite.Storage.Wal.Scan.{Contiguous, header, encodings, scan-encodings}
use veclite.Storage.Wal.Crash.{survivors, scan_cut}
use veclite.Storage.Wal.Manager.{Durability, full, Wal, append, sync_if_full}
use veclite.Storage.Wal.Log.{
  IsLog, length-header, new_entry, append-IsLog, scan-IsLog, file-sync_if_full,
  uuid_prefix-sync_if_full,
}

-- What a crash leaves of a log: its first `n` bytes.
abbrev pub crashed : ℕ → Wal → Bytes
crashed n w = take n w.file

module _ (crc : Crc32) where
  module _ (w : Wal) (es : List WalEntry) (l : IsLog crc w es) where
    -- Whatever a crash leaves behind the header, replay recovers a prefix of the log: exactly the
    -- entries that were left whole, with the tail reported if part of another one was left.
    pub scan-crashed :
        (n : ℕ)
        → n ≤ length (encodings crc es)
        → scan crc (crashed (16 + n) w) w.uuid_prefix
          ≡ some (record {
            entries = survivors crc n es;
            discarded_tail = ltb (length (encodings crc (survivors crc n es))) n;
          })
    scan-crashed n h =
        let head : Bytes = header w.uuid_prefix in
        let whole : length head ≡ 16 = length-header w.uuid_prefix l.uuid_len in
        let cut : crashed (16 + n) w ≡ head ++ take n (encodings crc es) =
          ap (take (16 + n)) l.bytes
          ∙ take-append_ge (16 + n) head (encodings crc es) (omega arith)
          ∙ ap (λ t. head ++ take t (encodings crc es)) (omega arith) in
        rw cut (scan_cut crc w.uuid_prefix es n l.uuid_len l.numbered l.in_range h)

    -- Once an append in range under `full` has returned, replay of what a crash leaves finds the whole
    -- log with the new entry, if the crash keeps the synced bytes.
    pub full_append_survives :
        (coll_id : ℕ) (op : WalOp) (body : Bytes) (n : ℕ) (w' : Wal) (seq : ℕ)
        → InRange (new_entry w coll_id op body)
        → append crc w coll_id op body full ≡ ok (w', seq)
        → w'.synced ≤ n
        → scan crc (crashed n w') w'.uuid_prefix
          ≡ some
              (record { entries = es ++ new_entry w coll_id op body ∷ []; discarded_tail = false })
    full_append_survives coll_id op body n w' seq r done kept =
        let (w'', eq, log, synced) = append-IsLog crc w es l coll_id op body full r in
        let same : w'' ≡ w' = cc (sym eq ∙ done) in
        let log' : IsLog crc w' (es ++ new_entry w coll_id op body ∷ []) =
          subst (λ t. IsLog crc t (es ++ new_entry w coll_id op body ∷ [])) same log in
        let all_synced : w'.synced ≡ length w'.file =
          subst (λ (t : Wal). t.synced ≡ length t.file) same (synced refl) in
        rw (take_all n w'.file (omega arith)) (scan-IsLog crc w' _ log')

  -- A tail whose first eight bytes are not the expected sequence number never decodes, whatever is
  -- appended to it.
  stale_tail :
      (tail more : Bytes) (s v : ℕ)
      → u64 tail 0 "wal" ≡ ok v
      → v ≢ s
      → decode_entry crc (tail ++ more) 0 s ≡ none
  unfolding decode_entry
  stale_tail tail more s v read differs = ground (
    arith,
    u64-window (tail ++ more) tail more 0 0 0 "wal" refl (omega arith)
        (omega (arith, u64_fits tail 0 "wal" read)),
  )

  -- Behind a tail of a log in range that replay discards since it starts with another sequence number,
  -- an append of less than 4 GiB succeeds and is lost: the next replay returns the entries before the
  -- tail, and no more.
  pub append_behind_tail_lost :
      (w : Wal) (es : List WalEntry) (tail : Bytes) (v : ℕ)
      → length w.uuid_prefix ≡ 8
      → w.file ≡ header w.uuid_prefix ++ (encodings crc es ++ tail)
      → Contiguous 1 es
      → All InRange es
      → u64 tail 0 "wal" ≡ ok v
      → v ≢ 1 + length es
      → (coll_id : ℕ) (op : WalOp) (body : Bytes) (durability : Durability) → length body < 2 ^ 32
      → (w' : Wal) × (append crc w coll_id op body durability ≡ ok (w', w.next_seq))
        × (scan crc w'.file w'.uuid_prefix ≡ some (record { entries = es; discarded_tail = true }))
  append_behind_tail_lost w es tail v u f c r read differs coll_id op body durability short =
      let e : WalEntry = new_entry w coll_id op body in
      let w₁ : Wal = record w { file = write_at (length w.file) (frame crc e) w.file } in
      let w' : Wal = record (sync_if_full durability w₁) { next_seq = w.next_seq + 1 } in
      let tail' : Bytes = tail ++ frame crc e in
      let file : w'.file ≡ header w.uuid_prefix ++ (encodings crc es ++ tail') =
        file-sync_if_full w₁ durability
        ∙ write_at_end (frame crc e) w.file
        ∙ ap (λ t. t ++ frame crc e) f
        ∙ append_assoc (header w.uuid_prefix) (encodings crc es ++ tail) (frame crc e)
        ∙ ap (λ t. header w.uuid_prefix ++ t)
            (append_assoc (encodings crc es) tail (frame crc e)) in
      let flag : ltb 0 (length tail') ≡ true =
        lt→ltb 0 (length tail')
          (omega (arith, length-append tail (frame crc e), u64_fits tail 0 "wal" read)) in
      (
        w',
        unfold append encode in rw (lt→ltb (length body) (2 ^ 32) short) refl,
        ap₂ (scan crc) file (uuid_prefix-sync_if_full w₁ durability)
            ∙ scan-encodings crc w.uuid_prefix u es tail' c r
                (stale_tail tail (frame crc e) (1 + length es) v read differs)
            ∙ ap (λ (b : Bool). some (record { entries = es; discarded_tail = b })) flag,
      )
