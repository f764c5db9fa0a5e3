-- ===== src/Storage/Wal/Log.antt =====
-- The file manager of storage/wal.rs against the list of entries that its log stands for.
use veclite.Base.{
  ℕ, ◌+◌, ◌-◌, ◌^◌, ◌≤◌, ◌≡◌, refl, sym, ap, ap₂, ◌∙◌, false, none, some, List, [], ◌∷◌, ◌++◌,
  append_assoc, append-nil, arith, Bytes, All, length, take, length-append, length-take, lt→ltb,
  le→ltb, drop_all, replicate, length-replicate,
}
use veclite.Error.{ok, err, corrupt}
use veclite.Storage.Le.{length-to_le}
use veclite.Storage.File.{write_at, write_at_end, write_at_start, set_len}
use veclite.Storage.Crc.{Crc32}
use veclite.Storage.Wal.{WalOp, WalEntry, encode, scan, frame, decode_entry}
use veclite.Storage.Wal.Entry.{InRange}
use veclite.Storage.Wal.Scan.{Contiguous, header, encodings, scan-encodings}
use veclite.Storage.Wal.Manager.{
  Durability, full, normal, off, sync_if_full, Wal, write_header, open_wal, sync, truncate, append,
  replay, seq_after,
}

pub length-header :
    (uuid_prefix : Bytes) → length uuid_prefix ≡ 8 → length (header uuid_prefix) ≡ 16
length-header uuid_prefix h = simp (length-append, length-to_le) (omega arith)

module _ (w : Wal) where
  pub file-sync_if_full : (d : Durability) → (sync_if_full d w).file ≡ w.file
  unfolding sync_if_full sync
  file-sync_if_full full = refl
  file-sync_if_full normal = refl
  file-sync_if_full off = refl

  pub uuid_prefix-sync_if_full : (d : Durability) → (sync_if_full d w).uuid_prefix ≡ w.uuid_prefix
  unfolding sync_if_full sync
  uuid_prefix-sync_if_full full = refl
  uuid_prefix-sync_if_full normal = refl
  uuid_prefix-sync_if_full off = refl

  synced-sync_if_full :
      (d : Durability)
      → w.synced ≤ length w.file
      → ((sync_if_full d w).synced ≤ length w.file)
        × (d ≡ full → (sync_if_full d w).synced ≡ length w.file)
  unfolding sync_if_full sync
  synced-sync_if_full full h = (omega arith, λ _. refl)
  synced-sync_if_full normal h = (h, λ e. cc)
  synced-sync_if_full off h = (h, λ e. cc)

-- The entry that `append` makes.
abbrev pub new_entry : Wal → ℕ → WalOp → Bytes → WalEntry
new_entry w coll_id op body = record { seq = w.next_seq; coll_id = coll_id; op = op; body = body }

module _ (crc : Crc32) where
  -- The log of `w` holds the entries `es`, numbered from 1, and no more bytes.
  pub record IsLog (w : Wal) (es : List WalEntry) : Type 0 where
    pub uuid_len : length w.uuid_prefix ≡ 8
    pub bytes : w.file ≡ header w.uuid_prefix ++ encodings crc es
    pub numbered : Contiguous 1 es
    pub in_range : All InRange es
    pub next : w.next_seq ≡ 1 + length es
    pub synced_le : w.synced ≤ length w.file

  encodings-append :
      (xs ys : List WalEntry) → encodings crc (xs ++ ys) ≡ encodings crc xs ++ encodings crc ys
  encodings-append [] ys = refl
  encodings-append (x ∷ xs) ys =
      ap (λ t. frame crc x ++ t) (encodings-append xs ys)
      ∙ sym (append_assoc (frame crc x) (encodings crc xs) (encodings crc ys))

  Contiguous-append :
      (s : ℕ) (xs : List WalEntry) (e : WalEntry)
      → Contiguous s xs
      → e.seq ≡ s + length xs
      → Contiguous s (xs ++ e ∷ [])
  Contiguous-append s [] e c h = (omega arith, tt)
  Contiguous-append s (x ∷ xs) e (c, cs) h = (c, Contiguous-append (s + 1) xs e cs (omega arith))

  All-append :
      (xs : List WalEntry) (e : WalEntry) → All InRange xs → InRange e → All InRange (xs ++ e ∷ [])
  All-append [] e h r = (r, tt)
  All-append (x ∷ xs) e (h, hs) r = (h, All-append xs e hs r)

  seq_after-Contiguous :
      (s : ℕ) (e : WalEntry) (es : List WalEntry)
      → Contiguous s (e ∷ es)
      → seq_after (e ∷ es) ≡ s + length (e ∷ es)
  unfolding seq_after
  seq_after-Contiguous s e [] (c, cs) = omega arith
  seq_after-Contiguous s e (e' ∷ es) (c, cs) = omega (arith, seq_after-Contiguous (s + 1) e' es cs)

  seq_after-next : (es : List WalEntry) → Contiguous 1 es → seq_after es ≡ 1 + length es
  seq_after-next [] c = unfold seq_after in omega arith
  seq_after-next (e ∷ es) c = seq_after-Contiguous 1 e es c

  module _ (w : Wal) (es : List WalEntry) (l : IsLog w es) where
    IsLog-written :
        (w' : Wal) (e : WalEntry)
        → w'.file ≡ write_at (length w.file) (frame crc e) w.file
        → w'.uuid_prefix ≡ w.uuid_prefix
        → w'.next_seq ≡ w.next_seq + 1
        → w'.synced ≤ length w'.file
        → e.seq ≡ w.next_seq
        → InRange e
        → IsLog w' (es ++ e ∷ [])
    IsLog-written w' e f u n s q r = record {
      uuid_len = rw u l.uuid_len;
      bytes =
          f
          ∙ write_at_end (frame crc e) w.file
          ∙ ap (λ t. t ++ frame crc e) l.bytes
          ∙ append_assoc (header w.uuid_prefix) (encodings crc es) (frame crc e)
          ∙ ap₂ (λ t u. header t ++ u) (sym u)
              (sym (
                encodings-append es (e ∷ [])
                ∙ ap (λ t. encodings crc es ++ t) (append-nil (frame crc e))));
      numbered = Contiguous-append 1 es e l.numbered (omega (arith, l.next));
      in_range = All-append es e l.in_range r;
      next = omega (arith, l.next, length-append es (e ∷ []));
      synced_le = s;
    }

    -- An append in range returns the next sequence number and adds one entry to the log; under
    -- `full` the file is then synced to its end.
    pub append-IsLog :
        (coll_id : ℕ) (op : WalOp) (body : Bytes) (durability : Durability)
        → InRange (new_entry w coll_id op body)
        → (w' : Wal) × (append crc w coll_id op body durability ≡ ok (w', w.next_seq))
          × IsLog w' (es ++ new_entry w coll_id op body ∷ [])
          × (durability ≡ full → w'.synced ≡ length w'.file)
    append-IsLog coll_id op body durability r =
        let e : WalEntry = new_entry w coll_id op body in
        let f : Bytes = write_at (length w.file) (frame crc e) w.file in
        let longer : w.synced ≤ length f = omega (
          arith,
          l.synced_le,
          ap length (write_at_end (frame crc e) w.file),
          length-append w.file (frame crc e),
        ) in
        let w₁ : Wal = record w { file = f } in
        let w' : Wal = record (sync_if_full durability w₁) { next_seq = w.next_seq + 1 } in
        let same_file : w'.file ≡ f = file-sync_if_full w₁ durability in
        let synced_if_full = synced-sync_if_full w₁ durability longer in
        (
          w',
          unfold append encode in rw (lt→ltb (length body) (2 ^ 32) r.body_lt) refl,
          IsLog-written w' e same_file (uuid_prefix-sync_if_full w₁ durability) refl
              (rw same_file (synced_if_full.0)) refl r,
          λ d. synced_if_full.1 d ∙ ap length (sym same_file),
        )

    -- An append of a body of 4 GiB or more fails.
    pub append_too_long :
        (coll_id : ℕ) (op : WalOp) (body : Bytes) (durability : Durability)
        → 2 ^ 32 ≤ length body
        → append crc w coll_id op body durability ≡ err (corrupt "wal: entry body exceeds 4 GiB")
    unfolding append encode
    append_too_long coll_id op body durability h = rw (le→ltb (length body) (2 ^ 32) h)

    decode_entry-nil : (s : ℕ) → decode_entry crc [] 0 s ≡ none
    unfolding decode_entry
    decode_entry-nil s = refl

    pub scan-IsLog :
        scan crc w.file w.uuid_prefix ≡ some (record { entries = es; discarded_tail = false })
    scan-IsLog =
        ap (λ t. scan crc t w.uuid_prefix)
          (l.bytes ∙ ap (λ t. header w.uuid_prefix ++ t) (sym (append-nil (encodings crc es))))
        ∙ scan-encodings crc w.uuid_prefix l.uuid_len es [] l.numbered l.in_range
            (decode_entry-nil (1 + length es))

    replay_file :
        (w₀ : Wal)
        → w₀.file ≡ w.file
        → w₀.uuid_prefix ≡ w.uuid_prefix
        → replay crc w₀
          ≡ some
              (record w₀ { next_seq = w.next_seq }, record { entries = es; discarded_tail = false })
    unfolding replay
    replay_file w₀ f u =
        let found : scan crc w₀.file w₀.uuid_prefix
            ≡ some (record { entries = es; discarded_tail = false }) =
          ap₂ (scan crc) f u ∙ scan-IsLog in
        let next : seq_after es ≡ w.next_seq = seq_after-next es l.numbered ∙ sym l.next in
        rw (replay, found, next) refl

    -- Replaying a log returns its entries, discards nothing and keeps the log.
    pub replay-IsLog : replay crc w ≡ some (w, record { entries = es; discarded_tail = false })
    replay-IsLog = replay_file w refl refl

    length-file : length w.file ≡ 16 + length (encodings crc es)
    length-file = omega (
      arith,
      ap length l.bytes,
      length-append (header w.uuid_prefix) (encodings crc es),
      length-header w.uuid_prefix l.uuid_len,
    )

    -- A log that is opened again and replayed is the log that was written.
    pub replay-open_wal :
        (uuid : Bytes)
        → take 8 uuid ≡ w.uuid_prefix
        → (w' : Wal) × (replay crc (open_wal w.file uuid)
            ≡ some (w', record { entries = es; discarded_tail = false }))
          × IsLog w' es
    replay-open_wal uuid h =
        let w₀ : Wal = record {
          file = w.file;
          synced = 0;
          uuid_prefix = take 8 uuid;
          next_seq = 1;
        } in
        let opened : open_wal w.file uuid ≡ w₀ =
          unfold open_wal in rw (le→ltb (length w.file) 16 (omega (arith, length-file))) refl in
        (
          record w₀ { next_seq = w.next_seq },
          rw opened (replay_file w₀ refl h),
          record {
            uuid_len = rw h l.uuid_len;
            bytes = rw h l.bytes;
            numbered = l.numbered;
            in_range = l.in_range;
            next = l.next;
            synced_le = omega arith;
          },
        )

    -- After a checkpoint's truncation the log is empty and counts from 1 again.
    pub truncate-IsLog : IsLog (truncate w) []
    unfolding truncate write_header set_len
    truncate-IsLog =
        let head : Bytes = header w.uuid_prefix in
        let cut : Bytes = set_len 16 w.file in
        let n : length head ≡ 16 = length-header w.uuid_prefix l.uuid_len in
        let short : length cut ≤ length head = omega (
          arith,
          n,
          length-append (take 16 w.file) (replicate (16 - length w.file) 0),
          length-take 16 w.file,
          length-replicate {A = ℕ} (16 - length w.file) 0,
          length-file,
        ) in
        record {
          uuid_len = l.uuid_len;
          bytes = write_at_start head cut ∙ ap (λ t. head ++ t) (drop_all (length head) cut short);
          numbered = tt;
          in_range = tt;
          next = omega arith;
          synced_le = omega arith;
        }
