-- ===== src/Storage/Image/Native.antt =====
-- `write_image` of storage/image.rs against `Pager::checkpoint`, which it mirrors.
use veclite.Base.{
  ℕ, ◌+◌, ◌≡◌, refl, sym, ap, ap₂, ◌∙◌, arith, Option, none, some, List, [], ◌∷◌, ◌++◌, Bytes,
  length, length-append,
}
use veclite.Error.{Result, ok, ok_inj, >>=-eq-ok, >>=-ok}
use veclite.Storage.Crc.{Crc32}
use veclite.Storage.File.{write_at, write_at_end}
use veclite.Storage.Compression.{Codec, Codecs}
use veclite.Storage.Segment
use veclite.Storage.Segment.{Segment, codec_for}
use veclite.Storage.Header
use veclite.Storage.Header.{zeros, header_size}
use veclite.Storage.Header.RoundTrip.{length-zeros}
use veclite.Storage.Toc
use veclite.Storage.Toc.{SegRef, CollEntry, Toc, TocSerde}
use veclite.Storage.Pager.{
  CheckpointColl, Pager, Checkpoint, Write, Written, WrittenColls, append, sync_all, rewrite_header,
  run, committed_header, coll_entry, write_segments, write_coll, write_colls, checkpoint,
}
use veclite.Storage.Pager.Appends.{run-append}
use veclite.Storage.Image.{image_segments, image_coll, image_colls, write_image}

module _ (crc : Crc32) (lib : Codecs) (serde : TocSerde) where
  -- The pager writes the same segments: the same references, and the same bytes.
  abbrev Mirrors : Bytes → List SegRef → Bytes → Result Written → Type 0
  Mirrors buf refs out r =
      (w : Written) × (r ≡ ok w) × (w.refs ≡ refs) × (w.cur ≡ length out) × (run w.writes buf ≡ out)

  image_segments-Mirrors :
      (codec : Codec) (segs : List Segment) (buf : Bytes) (refs : List SegRef) (out : Bytes)
      (cur : ℕ)
      → cur ≡ length buf
      → image_segments crc lib serde codec segs buf ≡ ok (refs, out)
      → Mirrors buf refs out (write_segments crc lib serde codec segs cur)
  unfolding image_segments write_segments run
  image_segments-Mirrors codec [] buf refs out cur n h =
      (record { refs = []; writes = []; cur = cur }, refl, cc h, n ∙ ap length (cc h), cc h)
  image_segments-Mirrors codec (seg ∷ segs) buf refs out cur n h =
      let (bytes, hb, h2) =
        >>=-eq-ok (Segment.encode crc lib seg (codec_for seg.seg_type codec (length seg.body))) _
          h in
      let (rest, hr, h3) =
        >>=-eq-ok (image_segments crc lib serde codec segs (buf ++ bytes)) _ h2 in
      let (w, e1, e2, e3, e4) =
        image_segments-Mirrors codec segs (buf ++ bytes) rest.0 rest.1 (cur + length bytes)
          (omega (arith, n, length-append buf bytes)) hr in
      let q = ok_inj h3 in
      let out_eq : rest.1 ≡ out = ap (λ (t : List SegRef × Bytes). t.1) q in
      (
        record {
          refs =
              record { seg_type = Segment.to_byte seg.seg_type; offset = cur; len = length bytes }
              ∷ w.refs;
          writes = append cur bytes ∷ w.writes;
          cur = w.cur;
        },
        >>=-ok (Segment.encode crc lib seg (codec_for seg.seg_type codec (length seg.body))) bytes _
              hb
            ∙ >>=-ok (write_segments crc lib serde codec segs (cur + length bytes)) w _ e1,
        ap₂
              (λ o rs.
                record { seg_type = Segment.to_byte seg.seg_type; offset = o; len = length bytes }
                ∷ rs)
              n e2
            ∙ ap (λ (t : List SegRef × Bytes). t.0) q,
        e3 ∙ ap length out_eq,
        ap (run w.writes) (ap (λ t. write_at t bytes buf) n ∙ write_at_end bytes buf) ∙ e4 ∙ out_eq,
      )

  image_coll-Mirrors :
      (codec : Codec) (c : CheckpointColl) (reused : Option (List SegRef)) (buf : Bytes)
      (refs : List SegRef) (out : Bytes) (cur : ℕ)
      → cur ≡ length buf
      → image_coll crc lib serde codec c reused buf ≡ ok (refs, out)
      → Mirrors buf refs out (write_coll crc lib serde codec c reused cur)
  unfolding image_coll write_coll
  image_coll-Mirrors codec c (some rs) buf refs out cur n h = cc
  image_coll-Mirrors codec c none buf refs out cur n h =
      image_segments-Mirrors codec c.segments buf refs out cur n h

  abbrev MirrorsColls : Bytes → List CollEntry → Bytes → Result WrittenColls → Type 0
  MirrorsColls buf entries out r =
      (w : WrittenColls) × (r ≡ ok w)
      × (w.entries ≡ entries)
      × (w.cur ≡ length out)
      × (run w.writes buf ≡ out)

  image_colls-Mirrors :
      (codec : Codec) (cs : List CheckpointColl) (buf : Bytes) (entries : List CollEntry)
      (out : Bytes) (cur : ℕ)
      → cur ≡ length buf
      → image_colls crc lib serde codec cs buf ≡ ok (entries, out)
      → MirrorsColls buf entries out (write_colls crc lib serde codec cs cur)
  unfolding image_colls write_colls run
  image_colls-Mirrors codec [] buf entries out cur n h =
      (record { entries = []; writes = []; cur = cur }, refl, cc h, n ∙ ap length (cc h), cc h)
  image_colls-Mirrors codec (c ∷ cs) buf entries out cur n h =
      let (a, ha, h2) = >>=-eq-ok (image_coll crc lib serde codec c c.reused buf) _ h in
      let (rest, hr, h3) = >>=-eq-ok (image_colls crc lib serde codec cs a.1) _ h2 in
      let (u, d1, d2, d3, d4) = image_coll-Mirrors codec c c.reused buf a.0 a.1 cur n ha in
      let (w, e1, e2, e3, e4) = image_colls-Mirrors codec cs a.1 rest.0 rest.1 u.cur d3 hr in
      let q = ok_inj h3 in
      let out_eq : rest.1 ≡ out = ap (λ (t : List CollEntry × Bytes). t.1) q in
      (
        record {
          entries = coll_entry c u.refs ∷ w.entries;
          writes = u.writes ++ w.writes;
          cur = w.cur;
        },
        >>=-ok (write_coll crc lib serde codec c c.reused cur) u _ d1
            ∙ >>=-ok (write_colls crc lib serde codec cs u.cur) w _ e1,
        ap₂ (λ r es. coll_entry c r ∷ es) d2 e2 ∙ ap (λ (t : List CollEntry × Bytes). t.0) q,
        e3 ∙ ap length out_eq,
        run-append u.writes w.writes buf ∙ ap (run w.writes) d4 ∙ e4 ∙ out_eq,
      )

  -- An image that `write_image` returns is what `Pager::checkpoint` with the same arguments, which
  -- then succeeds too, leaves in a file that holds one zeroed page.
  pub write_image-checkpoint :
      (file_uuid : Bytes) (created_epoch_s modified_epoch_s generation : ℕ)
      (colls : List CheckpointColl) (codec : Codec) (image : Bytes)
      → write_image crc lib serde file_uuid created_epoch_s modified_epoch_s generation colls codec
        ≡ ok image
      → (ck : Checkpoint) × (checkpoint crc lib serde
            (record { uuid = file_uuid; created_epoch_s = created_epoch_s; tail = header_size })
            generation
            colls
            codec
            modified_epoch_s
          ≡ ok ck)
        × (run ck.writes (zeros header_size) ≡ image)
  unfolding write_image checkpoint run
  write_image-checkpoint file_uuid created_epoch_s modified_epoch_s generation colls codec image h =
      let p : Pager = record {
        uuid = file_uuid;
        created_epoch_s = created_epoch_s;
        tail = header_size;
      } in
      let (w, hw, h2) = >>=-eq-ok (image_colls crc lib serde codec colls (zeros header_size)) _ h in
      let toc : Toc = record {
        generation = generation;
        collections = w.0;
        free_tail_offset = length w.1;
      } in
      let (tb, ht, h3) = >>=-eq-ok (Toc.encode serde toc) _ h2 in
      let (u, e1, e2, e3, e4) =
        image_colls-Mirrors codec colls (zeros header_size) w.0 w.1 header_size
          (sym (length-zeros header_size)) hw in
      let toc' : Toc = record {
        generation = generation;
        collections = u.entries;
        free_tail_offset = u.cur;
      } in
      let page : (ℕ → Bytes) =
        λ c. Header.encode crc (committed_header p c (length tb) (crc.hash tb) modified_epoch_s) in
      let rest : List Write =
        sync_all ∷ append u.cur tb ∷ sync_all ∷ rewrite_header (page u.cur) ∷ sync_all ∷ [] in
      (
        record {
          pager = record p { tail = u.cur + length tb };
          toc = toc';
          writes = u.writes ++ rest;
        },
        >>=-ok (write_colls crc lib serde codec colls header_size) u _ e1
            ∙ >>=-ok (Toc.encode serde toc') tb _ (
                ap₂
                  (λ es c.
                    Toc.encode serde
                      (record { generation = generation; collections = es; free_tail_offset = c }))
                  e2 e3
                ∙ ht),
        run-append u.writes rest (zeros header_size)
            ∙ ap (run rest) e4
            ∙ ap (λ c. write_at 0 (page c) (write_at c tb w.1)) e3
            ∙ ap (write_at 0 (page (length w.1))) (write_at_end tb w.1)
            ∙ ok_inj h3,
      )
