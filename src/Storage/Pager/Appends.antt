-- ===== src/Storage/Pager/Appends.antt =====
-- The writes of the first steps of a checkpoint of storage/pager.rs: they follow one another from
-- the tail of the file on.
use veclite.Base.{
  ℕ, ◌+◌, ◌-◌, ◌≤◌, ◌≡◌, refl, sym, ap, ap₂, ◌∙◌, subst, List, [], ◌∷◌, ◌++◌, Option, none, some,
  append_assoc, arith, Bytes, length, take, drop, take-append-drop, length-append, length-take,
  take-append, drop-append_ge, drop-drop,
}
use veclite.Error.{ok, ok_inj, >>=-eq-ok}
use veclite.Storage.Crc.{Crc32}
use veclite.Storage.File.{write_at, write_at_inside}
use veclite.Storage.Compression.{Codec, Codecs}
use veclite.Storage.Segment
use veclite.Storage.Segment.{Segment, codec_for}
use veclite.Storage.Toc.{SegRef, TocSerde}
use veclite.Storage.Pager.{
  CheckpointColl, Write, Written, WrittenColls, append, rewrite_header, sync_all, run,
  write_segments, write_coll, write_colls,
}

-- `ws` writes the bytes `blob` from the offset `cur` on, piece by piece.
pub data Appends : ℕ → List Write → Bytes → Type 0 where
  done : {cur : ℕ} → Appends cur [] []
  piece :
      {cur next : ℕ} {ws : List Write} {blob : Bytes} (bytes : Bytes)
      → next ≡ cur + length bytes
      → Appends next ws blob
      → Appends cur (append cur bytes ∷ ws) (bytes ++ blob)
  barrier :
      {cur : ℕ} {ws : List Write} {blob : Bytes}
      → Appends cur ws blob
      → Appends cur (sync_all ∷ ws) blob

pub Appends-at :
    (cur next : ℕ) (ws : List Write) (blob : Bytes)
    → next ≡ cur
    → Appends next ws blob
    → Appends cur ws blob
Appends-at cur next ws blob e a = subst (λ t. Appends t ws blob) e a

pub Appends-append :
    {cur : ℕ} {ws ws' : List Write} {blob blob' : Bytes}
    → Appends cur ws blob
    → Appends (cur + length blob) ws' blob'
    → Appends cur (ws ++ ws') (blob ++ blob')
Appends-append {cur} {ws' = ws'} {blob' = blob'} done b =
    Appends-at cur (cur + 0) ws' blob' (omega arith) b
Appends-append {cur} {ws' = ws'} {blob' = blob'}
      (piece {next = next} {ws = ws} {blob = blob} bytes e a) b =
    subst (Appends cur (append cur bytes ∷ (ws ++ ws'))) (sym (append_assoc bytes blob blob')) (
      piece bytes e (
        Appends-append a (
          Appends-at (next + length blob) (cur + length (bytes ++ blob)) ws' blob'
            (omega (arith, length-append bytes blob)) b)))
Appends-append (barrier a) b = barrier (Appends-append a b)

-- The file with the bytes `blob` written over it from `cur` on.
abbrev pub overlaid : ℕ → Bytes → Bytes → Bytes
overlaid cur blob file = take cur file ++ (blob ++ drop (cur + length blob) file)

pub overlaid_nil : (cur : ℕ) (file : Bytes) → file ≡ overlaid cur [] file
overlaid_nil cur file =
    let n : cur ≡ cur + 0 = omega arith in
    sym (take-append-drop cur file) ∙ ap (λ t. take cur file ++ drop t file) n

pub length-overlaid :
    (cur : ℕ) (blob file : Bytes)
    → cur ≤ length file
    → cur + length blob ≤ length (overlaid cur blob file)
length-overlaid cur blob file h =
    let rest = drop (cur + length blob) file in
    omega (
      arith,
      length-append (take cur file) (blob ++ rest),
      length-append blob rest,
      length-take cur file,
    )

-- Behind the first `cur` bytes and a piece stands what `R` holds.
pub split_at : (xs ys : Bytes) (n k : ℕ) → n ≡ length xs + k → drop n (xs ++ ys) ≡ drop k ys
split_at xs ys n k e =
    let m : n - length xs ≡ k = omega arith in
    drop-append_ge n xs ys (omega arith) ∙ ap (λ t. drop t ys) m

pub overlaid_twice :
    (cur next : ℕ) (bytes blob file : Bytes)
    → cur ≤ length file
    → next ≡ cur + length bytes
    → overlaid next blob (overlaid cur bytes file) ≡ overlaid cur (bytes ++ blob) file
overlaid_twice cur next bytes blob file h e =
    let p : Bytes = take cur file in
    let rest : Bytes = drop (cur + length bytes) file in
    let n : length (p ++ bytes) ≡ next =
      omega (arith, length-append p bytes, length-take cur file) in
    let m : next + length blob ≡ length (p ++ bytes) + length blob = omega arith in
    let k : (cur + length bytes) + length blob ≡ cur + length (bytes ++ blob) =
      omega (arith, length-append bytes blob) in
    let f : p ++ (bytes ++ rest) ≡ (p ++ bytes) ++ rest = sym (append_assoc p bytes rest) in
    let front : take next (p ++ (bytes ++ rest)) ≡ p ++ bytes =
      ap (take next) f
      ∙ ap (λ t. take t ((p ++ bytes) ++ rest)) (sym n)
      ∙ take-append (p ++ bytes) rest in
    let back : drop (next + length blob) (p ++ (bytes ++ rest))
        ≡ drop (cur + length (bytes ++ blob)) file =
      ap (drop (next + length blob)) f
      ∙ split_at (p ++ bytes) rest (next + length blob) (length blob) m
      ∙ drop-drop (cur + length bytes) (length blob) file
      ∙ ap (λ t. drop t file) k in
    ap₂ (λ a b. a ++ (blob ++ b)) front back
    ∙ append_assoc p bytes (blob ++ drop (cur + length (bytes ++ blob)) file)
    ∙ ap (λ t. p ++ t) (sym (append_assoc bytes blob (drop (cur + length (bytes ++ blob)) file)))

pub run-Appends :
    {cur : ℕ} {ws : List Write} {blob : Bytes} (file : Bytes)
    → Appends cur ws blob
    → cur ≤ length file
    → run ws file ≡ overlaid cur blob file
unfolding run
run-Appends {cur} file done h = overlaid_nil cur file
run-Appends {cur} file (piece {next = next} {ws = ws} {blob = blob} bytes e a) h =
    let le : next ≤ length (overlaid cur bytes file) =
      omega (arith, length-overlaid cur bytes file h) in
    ap (run ws) (write_at_inside cur bytes file h)
    ∙ run-Appends (overlaid cur bytes file) a le
    ∙ overlaid_twice cur next bytes blob file h e
run-Appends file (barrier a) h = run-Appends file a h

pub run-append : (ws ws' : List Write) (file : Bytes) → run (ws ++ ws') file ≡ run ws' (run ws file)
unfolding run
run-append [] ws' file = refl
run-append (append off bytes ∷ ws) ws' file = run-append ws ws' (write_at off bytes file)
run-append (rewrite_header bytes ∷ ws) ws' file = run-append ws ws' (write_at 0 bytes file)
run-append (sync_all ∷ ws) ws' file = run-append ws ws' file

module _ (crc : Crc32) (lib : Codecs) (serde : TocSerde) where
  write_segments-Appends :
      (codec : Codec) (segs : List Segment) (cur : ℕ) (w : Written)
      → write_segments crc lib serde codec segs cur ≡ ok w
      → (blob : Bytes) × Appends cur w.writes blob × (w.cur ≡ cur + length blob)
  unfolding write_segments
  write_segments-Appends codec [] cur w h =
      let e : record { refs = []; writes = []; cur = cur } ≡ w = ok_inj h in
      (
        [],
        subst (λ (t : Written). Appends cur t.writes []) e done,
        omega (arith, ap (λ (t : Written). t.cur) e),
      )
  write_segments-Appends codec (seg ∷ segs) cur w h =
      let codec' : Codec = codec_for seg.seg_type codec (length seg.body) in
      let (bytes, hb, h2) = >>=-eq-ok (Segment.encode crc lib seg codec') _ h in
      let (rest, hr, h3) =
        >>=-eq-ok (write_segments crc lib serde codec segs (cur + length bytes)) _ h2 in
      let (blob, a, e) = write_segments-Appends codec segs (cur + length bytes) rest hr in
      (
        bytes ++ blob,
        subst (λ (t : Written). Appends cur t.writes (bytes ++ blob)) (ok_inj h3)
            (piece bytes refl a),
        omega (arith, ap (λ (t : Written). t.cur) (ok_inj h3), e, length-append bytes blob),
      )

  write_coll-Appends :
      (codec : Codec) (c : CheckpointColl) (reused : Option (List SegRef)) (cur : ℕ) (w : Written)
      → write_coll crc lib serde codec c reused cur ≡ ok w
      → (blob : Bytes) × Appends cur w.writes blob × (w.cur ≡ cur + length blob)
  unfolding write_coll
  write_coll-Appends codec c (some refs) cur w h =
      let e : record { refs = refs; writes = []; cur = cur } ≡ w = ok_inj h in
      (
        [],
        subst (λ (t : Written). Appends cur t.writes []) e done,
        omega (arith, ap (λ (t : Written). t.cur) e),
      )
  write_coll-Appends codec c none cur w h = write_segments-Appends codec c.segments cur w h

  pub write_colls-Appends :
      (codec : Codec) (cs : List CheckpointColl) (cur : ℕ) (w : WrittenColls)
      → write_colls crc lib serde codec cs cur ≡ ok w
      → (blob : Bytes) × Appends cur w.writes blob × (w.cur ≡ cur + length blob)
  unfolding write_colls
  write_colls-Appends codec [] cur w h =
      let e : record { entries = []; writes = []; cur = cur } ≡ w = ok_inj h in
      (
        [],
        subst (λ (t : WrittenColls). Appends cur t.writes []) e done,
        omega (arith, ap (λ (t : WrittenColls). t.cur) e),
      )
  write_colls-Appends codec (c ∷ cs) cur w h =
      let (u, hu, h2) = >>=-eq-ok (write_coll crc lib serde codec c c.reused cur) _ h in
      let (rest, hr, h3) = >>=-eq-ok (write_colls crc lib serde codec cs u.cur) _ h2 in
      let (b1, a1, e1) = write_coll-Appends codec c c.reused cur u hu in
      let (b2, a2, e2) = write_colls-Appends codec cs u.cur rest hr in
      (
        b1 ++ b2,
        subst (λ (t : WrittenColls). Appends cur t.writes (b1 ++ b2)) (ok_inj h3)
            (Appends-append a1 (Appends-at (cur + length b1) u.cur rest.writes b2 e1 a2)),
        omega (arith, ap (λ (t : WrittenColls). t.cur) (ok_inj h3), e1, e2, length-append b1 b2),
      )
