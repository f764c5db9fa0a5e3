-- ===== src/Storage/Pager/Commit.antt =====
-- storage/pager.rs: the state that a checkpoint commits, when it returns and when a crash cuts it off.
use veclite.Base.{
  ℕ, leb, leb_of_le, ◌+◌, ◌≤◌, ◌<◌, ◌≡◌, refl, sym, ap, ap₂, ◌∙◌, ◌^◌, subst, ◌⊎◌, inl, inr, List,
  ◌++◌, arith, Bytes, length, take, drop,
}
use veclite.Error.{ok, ok_inj, >>=-eq-ok}
use veclite.Storage.Crc.{Crc32}
use veclite.Storage.Compression.{Codec, Codecs}
use veclite.Storage.Header
use veclite.Storage.Header.{Header, header_size}
use veclite.Storage.Header.RoundTrip
use veclite.Storage.Toc.{SegRef, Toc, TocSerde}
use veclite.Storage.Pager.{
  CheckpointColl, Pager, Checkpoint, run, committed_header, checkpoint, read_committed, open_pager,
  read_segment,
}
use veclite.Storage.Pager.Committed.{read_committed_prefix, window_same}
use veclite.Storage.Pager.Readback.{
  Shape, checkpoint-Shape, appended, committed_file, length-appended, length-committed_file,
  read_committed_file, run-writes, drop-committed_file,
}
use veclite.Storage.Pager.Crash.{
  CrashOf, Keeps, Keeps-le, Keeps-trans, overlaid-Keeps, crash-Appends, commit_cases,
}

module _ (crc : Crc32) (lib : Codecs) (serde : TocSerde) where
  header_InRange :
      (p : Pager) (epoch : ℕ) (ck : Checkpoint) (s : Shape crc lib serde p epoch ck)
      → length p.uuid ≡ 16
      → p.created_epoch_s < 2 ^ 64
      → epoch < 2 ^ 64
      → ck.pager.tail < 2 ^ 64
      → Header.RoundTrip.InRange s.header
  unfolding committed_header Header.new
  header_InRange p epoch ck s u c m t = subst Header.RoundTrip.InRange (sym s.header_eq) (record {
    format_version_lt = omega arith;
    reader_le = omega arith;
    flags_lt = omega arith;
    toc_offset_lt = omega (arith, s.tail, t);
    toc_len_lt = omega (arith, s.tail, t);
    toc_crc32_lt = crc.hash_lt s.table;
    uuid_len = u;
    created_lt = c;
    modified_lt = m;
  })

  open_pager_of :
      (f : Bytes) (h : Header) (toc : Toc) (t : ℕ) (p : Pager)
      → read_committed crc lib serde f ≡ ok (h, toc, t)
      → record { uuid = h.file_uuid; created_epoch_s = h.created_epoch_s; tail = t } ≡ p
      → open_pager crc lib serde f ≡ ok (p, toc)
  unfolding open_pager
  open_pager_of f h toc t p e q = rw e (ap (λ x. ok (x, toc)) q)

  open_pager-read :
      (f : Bytes) (p : Pager) (toc : Toc)
      → open_pager crc lib serde f ≡ ok (p, toc)
      → (h : Header) × (read_committed crc lib serde f ≡ ok (h, toc, p.tail))
        × (record { uuid = h.file_uuid; created_epoch_s = h.created_epoch_s; tail = p.tail } ≡ p)
  unfolding open_pager
  open_pager-read f p toc e =
      let (c, e1, e2) = >>=-eq-ok (read_committed crc lib serde f) _ e in
      let q = ok_inj e2 in
      let tl : c.2 ≡ p.tail = ap (λ (x : Pager × Toc). x.0.tail) q in
      let tc : c.1 ≡ toc = ap (λ (x : Pager × Toc). x.1) q in
      (
        c.0,
        e1 ∙ ap₂ (λ a b. ok (c.0, a, b)) tc tl,
        ap (λ t. record { uuid = c.0.file_uuid; created_epoch_s = c.0.created_epoch_s; tail = t })
              (sym tl)
            ∙ ap (λ (x : Pager × Toc). x.0) q,
      )

  open_pager_prefix :
      (f g : Bytes) (p : Pager) (toc : Toc)
      → open_pager crc lib serde f ≡ ok (p, toc)
      → header_size ≤ p.tail
      → p.tail ≤ length f
      → Keeps p.tail f g
      → open_pager crc lib serde g ≡ ok (p, toc)
  open_pager_prefix f g p toc e low fits (l, same) =
      let (h, r, q) = open_pager-read f p toc e in
      open_pager_of g h toc p.tail p
        (read_committed_prefix crc lib serde f g h toc p.tail r low fits l same) q

  open_pager-committed_file :
      (p : Pager) (epoch : ℕ) (ck : Checkpoint) (s : Shape crc lib serde p epoch ck)
      (r : Header.RoundTrip.InRange s.header) (file : Bytes) (low : header_size ≤ p.tail)
      (fits : p.tail ≤ length file)
      → open_pager crc lib serde (committed_file crc lib serde p epoch ck s r file low fits)
        ≡ ok (ck.pager, ck.toc)
  unfolding committed_header Header.new
  open_pager-committed_file p epoch ck s r file low fits =
      open_pager_of (committed_file crc lib serde p epoch ck s r file low fits) s.header ck.toc
        ck.pager.tail ck.pager (read_committed_file crc lib serde p epoch ck s r file low fits)
        (ap
            (λ (h : Header). record {
              uuid = h.file_uuid;
              created_epoch_s = h.created_epoch_s;
              tail = ck.pager.tail;
            })
            s.header_eq
          ∙ sym s.pager)

  -- After a checkpoint that succeeds, reopening the file gives the pager and the table of contents
  -- that the checkpoint holds in memory, if the uuid has 16 bytes, the times and the new tail are
  -- below 2 ^ 64, and the old tail lies behind the header page and inside the file.
  pub checkpoint_commits :
      (p : Pager) (generation : ℕ) (colls : List CheckpointColl) (codec : Codec) (epoch : ℕ)
      (ck : Checkpoint) (file : Bytes)
      → checkpoint crc lib serde p generation colls codec epoch ≡ ok ck
      → length p.uuid ≡ 16
      → p.created_epoch_s < 2 ^ 64
      → epoch < 2 ^ 64
      → ck.pager.tail < 2 ^ 64
      → header_size ≤ p.tail
      → p.tail ≤ length file
      → open_pager crc lib serde (run ck.writes file) ≡ ok (ck.pager, ck.toc)
  checkpoint_commits p generation colls codec epoch ck file h u c m t low fits =
      let s = checkpoint-Shape crc lib serde p generation colls codec epoch ck h in
      let r = header_InRange p epoch ck s u c m t in
      ap (open_pager crc lib serde) (run-writes crc lib serde p epoch ck s r file low fits)
      ∙ open_pager-committed_file p epoch ck s r file low fits

  -- The file then reaches at least to the new tail.
  pub length-checkpoint :
      (p : Pager) (generation : ℕ) (colls : List CheckpointColl) (codec : Codec) (epoch : ℕ)
      (ck : Checkpoint) (file : Bytes)
      → checkpoint crc lib serde p generation colls codec epoch ≡ ok ck
      → length p.uuid ≡ 16
      → p.created_epoch_s < 2 ^ 64
      → epoch < 2 ^ 64
      → ck.pager.tail < 2 ^ 64
      → header_size ≤ p.tail
      → p.tail ≤ length file
      → ck.pager.tail ≤ length (run ck.writes file)
  length-checkpoint p generation colls codec epoch ck file h u c m t low fits =
      let s = checkpoint-Shape crc lib serde p generation colls codec epoch ck h in
      let r = header_InRange p epoch ck s u c m t in
      omega (
        arith,
        ap length (run-writes crc lib serde p epoch ck s r file low fits),
        length-committed_file crc lib serde p epoch ck s r file low fits,
        length-appended crc lib serde p epoch ck s r file low fits,
      )

  -- A segment between the header page and the old tail is read from the file that a successful
  -- checkpoint leaves as it was read before, so references that are carried forward stay valid; with
  -- the bounds of `checkpoint_commits`.
  pub checkpoint_keeps_segments :
      (p : Pager) (generation : ℕ) (colls : List CheckpointColl) (codec : Codec) (epoch : ℕ)
      (ck : Checkpoint) (file : Bytes) (seg : SegRef)
      → checkpoint crc lib serde p generation colls codec epoch ≡ ok ck
      → length p.uuid ≡ 16
      → p.created_epoch_s < 2 ^ 64
      → epoch < 2 ^ 64
      → ck.pager.tail < 2 ^ 64
      → header_size ≤ p.tail
      → p.tail ≤ length file
      → header_size ≤ seg.offset
      → seg.offset + seg.len ≤ p.tail
      → read_segment crc lib serde (run ck.writes file) seg ≡ read_segment crc lib serde file seg
  unfolding read_segment
  checkpoint_keeps_segments p generation colls codec epoch ck file seg h u c m t low fits lo hi =
      let s = checkpoint-Shape crc lib serde p generation colls codec epoch ck h in
      let r = header_InRange p epoch ck s u c m t in
      let g = committed_file crc lib serde p epoch ck s r file low fits in
      let w : take seg.len (drop seg.offset g) ≡ take seg.len (drop seg.offset file) =
        ap (take seg.len)
          (drop-committed_file crc lib serde p epoch ck s r file low fits seg.offset lo)
        ∙ window_same seg.len seg.offset p.tail file
            (appended crc lib serde p epoch ck s r file low fits) hi
            (overlaid-Keeps p.tail p.tail (s.blob ++ s.table) file (omega arith) fits).1 in
      let n : leb (seg.offset + seg.len) (length g) ≡ leb (seg.offset + seg.len) (length file) =
        leb_of_le (seg.offset + seg.len) (length g) (
          omega (
            arith,
            hi,
            s.tail,
            length-committed_file crc lib serde p epoch ck s r file low fits,
            length-appended crc lib serde p epoch ck s r file low fits,
          ))
        ∙ sym (leb_of_le (seg.offset + seg.len) (length file) (omega (arith, hi, fits))) in
      rw (run-writes crc lib serde p epoch ck s r file low fits, n, w) refl

  -- If the file opens as the state that a checkpoint starts from, then a crash at any point of the
  -- checkpoint leaves a file that opens as that state or as the one the checkpoint commits; with the
  -- bounds of `checkpoint_commits`.
  pub checkpoint_crash :
      (p : Pager) (generation : ℕ) (colls : List CheckpointColl) (codec : Codec) (epoch : ℕ)
      (ck : Checkpoint) (file g : Bytes) (old : Toc)
      → checkpoint crc lib serde p generation colls codec epoch ≡ ok ck
      → length p.uuid ≡ 16
      → p.created_epoch_s < 2 ^ 64
      → epoch < 2 ^ 64
      → ck.pager.tail < 2 ^ 64
      → header_size ≤ p.tail
      → p.tail ≤ length file
      → open_pager crc lib serde file ≡ ok (p, old)
      → CrashOf (length file) file ck.writes g
      → (open_pager crc lib serde g ≡ ok (p, old))
        ⊎ (open_pager crc lib serde g ≡ ok (ck.pager, ck.toc))
  checkpoint_crash p generation colls codec epoch ck file g old h u c m t low fits o cr =
      let s = checkpoint-Shape crc lib serde p generation colls codec epoch ck h in
      let r = header_InRange p epoch ck s u c m t in
      let a : Bytes = appended crc lib serde p epoch ck s r file low fits in
      let ka = overlaid-Keeps p.tail p.tail (s.blob ++ s.table) file (omega arith) fits in
      elim (crash-Appends {n = p.tail} s.appends (omega arith) fits fits
        (subst (λ ws. CrashOf (length file) file ws g) s.writes cr)) [
          | inl kept ↦ inl (open_pager_prefix file g p old o low fits kept)
          | inr (safe, le, c') ↦
              elim (commit_cases p.tail safe a (Header.encode crc s.header) g le ka.0 c') [
                | inl kept ↦ inl (
                    open_pager_prefix file g p old o low fits (Keeps-trans p.tail file a g ka kept))
                | inr whole ↦
                    let n : Bytes = committed_file crc lib serde p epoch ck s r file low fits in
                    let la = length-appended crc lib serde p epoch ck s r file low fits in
                    let ln : length n ≡ length a =
                      length-committed_file crc lib serde p epoch ck s r file low fits in
                    let kn : Keeps ck.pager.tail n g = elim whole [
                      | inl k ↦ Keeps-le ck.pager.tail (length a) n g la k
                      | inr k ↦ Keeps-le ck.pager.tail (length n) n g (omega (arith, la, ln)) k
                    ] in
                    inr (
                      open_pager_prefix n g ck.pager ck.toc
                        (open_pager-committed_file p epoch ck s r file low fits)
                        (omega (arith, s.tail, low)) (omega (arith, la, ln)) kn)
              ]
        ]
