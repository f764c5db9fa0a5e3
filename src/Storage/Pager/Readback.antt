-- ===== src/Storage/Pager/Readback.antt =====
-- What a checkpoint of storage/pager.rs leaves in the file.
use veclite.Base.{
  ℕ, ◌+◌, ◌-◌, ◌≤◌, ◌≡◌, refl, sym, ap, ap₂, ◌∙◌, subst, List, [], ◌∷◌, ◌++◌, append_assoc,
  append-nil, arith, Bytes, length, take, drop, length-append, length-take, length-drop,
  take-append, drop-append, drop-drop,
}
use veclite.Error.{ok, ok_inj, >>=-eq-ok}
use veclite.Storage.Crc.{Crc32}
use veclite.Storage.File.{write_at, write_at_start}
use veclite.Storage.Compression.{Codec, Codecs}
use veclite.Storage.Header
use veclite.Storage.Header.{Header, header_size}
use veclite.Storage.Header.RoundTrip
use veclite.Storage.Toc
use veclite.Storage.Toc.{Toc, TocSerde}
use veclite.Storage.Pager.{
  CheckpointColl, Pager, Write, Checkpoint, append, rewrite_header, sync_all, run, write_colls,
  committed_header, checkpoint, read_committed,
}
use veclite.Storage.Pager.Appends.{
  Appends, done, piece, barrier, Appends-at, split_at, Appends-append, run-Appends, run-append,
  overlaid, length-overlaid, write_colls-Appends,
}
use veclite.Storage.Pager.Committed.{read_committed_of}

module _ (crc : Crc32) (lib : Codecs) (serde : TocSerde) where
  -- The writes of a checkpoint: the segments and the table of contents behind the tail, then the page.
  pub record Shape (p : Pager) (epoch : ℕ) (ck : Checkpoint) : Type 0 where
    pub blob : Bytes
    pub table : Bytes
    pub body : List Write
    pub appends : Appends p.tail body (blob ++ table)
    pub encoded : Toc.encode serde ck.toc ≡ ok table
    pub header : Header
    pub header_eq :
        header ≡ committed_header p (p.tail + length blob) (length table) (crc.hash table) epoch
    pub writes :
        ck.writes ≡ body ++ (sync_all ∷ rewrite_header (Header.encode crc header) ∷ sync_all ∷ [])
    pub pager : ck.pager ≡ record p { tail = ck.pager.tail }
    pub tail : ck.pager.tail ≡ p.tail + length blob + length table

  pub checkpoint-Shape :
      (p : Pager) (generation : ℕ) (colls : List CheckpointColl) (codec : Codec) (epoch : ℕ)
      (ck : Checkpoint)
      → checkpoint crc lib serde p generation colls codec epoch ≡ ok ck
      → Shape p epoch ck
  unfolding checkpoint
  checkpoint-Shape p generation colls codec epoch ck h =
      let (w, hw, h2) = >>=-eq-ok (write_colls crc lib serde codec colls p.tail) _ h in
      let toc : Toc = record {
        generation = generation;
        collections = w.entries;
        free_tail_offset = w.cur;
      } in
      let (table, ht, h3) = >>=-eq-ok (Toc.encode serde toc) _ h2 in
      let (blob, a, e) = write_colls-Appends crc lib serde codec colls p.tail w hw in
      let header = committed_header p w.cur (length table) (crc.hash table) epoch in
      let a' : Appends (p.tail + length blob) (sync_all ∷ append w.cur table ∷ []) table =
        Appends-at (p.tail + length blob) w.cur (sync_all ∷ append w.cur table ∷ []) table e (
          barrier (
            subst (Appends w.cur (append w.cur table ∷ [])) (append-nil table)
              (piece table refl done))) in
      subst (Shape p epoch) (ok_inj h3) (record {
        blob = blob;
        table = table;
        body = w.writes ++ (sync_all ∷ append w.cur table ∷ []);
        appends = Appends-append a a';
        encoded = ht;
        header = header;
        header_eq = ap (λ t. committed_header p t (length table) (crc.hash table) epoch) e;
        writes = sym (append_assoc w.writes (sync_all ∷ append w.cur table ∷ []) _);
        pager = refl;
        tail = ap (λ t. t + length table) e;
      })

  -- The committed state behind the writes of a checkpoint.
  module _ (p : Pager) (epoch : ℕ) (ck : Checkpoint) (s : Shape p epoch ck)
      (r : Header.RoundTrip.InRange s.header) (file : Bytes) (low : header_size ≤ p.tail)
      (fits : p.tail ≤ length file) where
    abbrev pub appended : Bytes
    appended = overlaid p.tail (s.blob ++ s.table) file

    abbrev pub committed_file : Bytes
    committed_file = write_at 0 (Header.encode crc s.header) appended

    pub length-appended : ck.pager.tail ≤ length appended
    length-appended = omega (
      arith,
      s.tail,
      length-overlaid p.tail (s.blob ++ s.table) file fits,
      length-append s.blob s.table,
    )

    page_split : committed_file ≡ Header.encode crc s.header ++ drop 4096 appended
    page_split =
        write_at_start (Header.encode crc s.header) appended
        ∙ ap (λ t. Header.encode crc s.header ++ drop t appended)
            (Header.RoundTrip.decode-encode crc s.header r).0

    pub drop-committed_file : (n : ℕ) → header_size ≤ n → drop n committed_file ≡ drop n appended
    drop-committed_file n h =
        let e : n ≡ length (Header.encode crc s.header) + (n - 4096) =
          omega (arith, (Header.RoundTrip.decode-encode crc s.header r).0) in
        let k : 4096 + (n - 4096) ≡ n = omega arith in
        ap (drop n) page_split
        ∙ split_at (Header.encode crc s.header) (drop 4096 appended) n (n - 4096) e
        ∙ drop-drop 4096 (n - 4096) appended
        ∙ ap (λ t. drop t appended) k

    pub length-committed_file : length committed_file ≡ length appended
    length-committed_file = omega (
      arith,
      ap length page_split,
      length-append (Header.encode crc s.header) (drop 4096 appended),
      (Header.RoundTrip.decode-encode crc s.header r).0,
      length-drop 4096 appended,
      length-appended,
      s.tail,
      low,
    )

    table_at : take (length s.table) (drop (p.tail + length s.blob) appended) ≡ s.table
    table_at =
        let rest : Bytes = drop (p.tail + length (s.blob ++ s.table)) file in
        let e : p.tail + length s.blob ≡ length (take p.tail file) + length s.blob =
          omega (arith, length-take p.tail file) in
        ap (take (length s.table)) (
          split_at (take p.tail file) ((s.blob ++ s.table) ++ rest) (p.tail + length s.blob)
            (length s.blob) e
          ∙ ap (drop (length s.blob)) (append_assoc s.blob s.table rest)
          ∙ drop-append s.blob (s.table ++ rest))
        ∙ take-append s.table rest

    offset_eq : s.header.toc_offset ≡ p.tail + length s.blob
    unfolding committed_header
    offset_eq = ap (λ (h : Header). h.toc_offset) s.header_eq

    len_eq : s.header.toc_len ≡ length s.table
    unfolding committed_header
    len_eq = ap (λ (h : Header). h.toc_len) s.header_eq

    sum_eq : s.header.toc_crc32 ≡ crc.hash s.table
    unfolding committed_header
    sum_eq = ap (λ (h : Header). h.toc_crc32) s.header_eq

    window : take s.header.toc_len (drop s.header.toc_offset committed_file) ≡ s.table
    window =
        ap₂ (λ n k. take n (drop k committed_file)) len_eq offset_eq
        ∙ ap (take (length s.table))
            (drop-committed_file (p.tail + length s.blob) (omega (arith, low)))
        ∙ table_at

    page_at : take header_size committed_file ≡ Header.encode crc s.header
    page_at =
        let e = (Header.RoundTrip.decode-encode crc s.header r).0 in
        ap (take header_size) page_split
        ∙ ap (λ t. take t (Header.encode crc s.header ++ drop 4096 appended)) (sym e)
        ∙ take-append (Header.encode crc s.header) (drop 4096 appended)

    pub read_committed_file :
        read_committed crc lib serde committed_file ≡ ok (s.header, ck.toc, ck.pager.tail)
    read_committed_file =
        let end : s.header.toc_offset + s.header.toc_len ≡ ck.pager.tail =
          omega (arith, offset_eq, len_eq, s.tail) in
        read_committed_of crc lib serde committed_file s.header ck.toc (record {
          long = omega (arith, length-committed_file, length-appended, s.tail, low);
          header =
              ap (Header.decode crc) page_at ∙ (Header.RoundTrip.decode-encode crc s.header r).1;
          inside = omega (arith, end, length-committed_file, length-appended);
          sum = ap crc.hash window ∙ sym sum_eq;
          table =
              ap (Toc.decode serde) window ∙ Toc.decode-encode_toc serde ck.toc s.table s.encoded;
        })
        ∙ ap (λ t. ok (s.header, ck.toc, t)) end

    pub run-writes : run ck.writes file ≡ committed_file
    unfolding run
    run-writes =
        ap (λ ws. run ws file) s.writes
        ∙ run-append s.body _ file
        ∙ ap (λ f. write_at 0 (Header.encode crc s.header) f) (run-Appends file s.appends fits)
