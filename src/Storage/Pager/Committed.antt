-- ===== src/Storage/Pager/Committed.antt =====
-- `read_committed` of storage/pager.rs: which bytes of a file its committed state depends on, and
-- what a checkpoint commits.
use veclite.Base.{
  ℕ, zero, suc, ◌+◌, ◌≤◌, ◌≡◌, refl, sym, ap, ◌∙◌, subst, [], ◌∷◌, true, false, Bool, ◌||◌, arith,
  Bytes, length, take, drop, leb, ◌==◌, leb_of_le, leb→le, ==_iff, take-take,
}
use veclite.Error.{VecLiteError, ok, >>=-eq-ok, guard}
use veclite.Storage.Crc.{Crc32}
use veclite.Storage.Compression.{Codecs}
use veclite.Storage.Header
use veclite.Storage.Header.{Header, header_size}
use veclite.Storage.Toc
use veclite.Storage.Toc.{Toc, TocSerde}
use veclite.Storage.Pager.{read_committed}

pub take-drop : (n m k : ℕ) (xs : Bytes) → k ≡ m + n → take n (drop m xs) ≡ drop m (take k xs)
take-drop n zero k xs e = ap (λ t. take t xs) (omega arith)
take-drop n (suc m) zero xs e = absurd (omega arith)
take-drop zero (suc m) (suc k) [] e = refl
take-drop (suc n) (suc m) (suc k) [] e = refl
take-drop n (suc m) (suc k) (x ∷ xs) e = take-drop n m k xs (omega arith)

-- A window below `t` is the same in two files that agree below `t`.
pub window_same :
    (n m t : ℕ) (f g : Bytes)
    → m + n ≤ t
    → take t g ≡ take t f
    → take n (drop m g) ≡ take n (drop m f)
window_same n m t f g h e =
    take-drop n m (m + n) g refl
    ∙ ap (drop m) (sym (take-take (m + n) t g h) ∙ ap (take (m + n)) e ∙ take-take (m + n) t f h)
    ∙ sym (take-drop n m (m + n) f refl)

or_inside : (n off len : ℕ) → off + n ≤ len → (n == 0 || leb (off + n) len) ≡ true
or_inside n off len h = ground arith

module _ (crc : Crc32) (lib : Codecs) (serde : TocSerde) where
  pub record Committed (file : Bytes) (h : Header) (toc : Toc) : Type 0 where
    pub long : header_size ≤ length file
    pub header : Header.decode crc (take header_size file) ≡ ok h
    pub inside : h.toc_offset + h.toc_len ≤ length file
    pub sum : crc.hash (take h.toc_len (drop h.toc_offset file)) ≡ h.toc_crc32
    pub table : Toc.decode serde (take h.toc_len (drop h.toc_offset file)) ≡ ok toc

  pub read_committed_of :
      (file : Bytes) (h : Header) (toc : Toc)
      → Committed file h toc
      → read_committed crc lib serde file ≡ ok (h, toc, h.toc_offset + h.toc_len)
  unfolding read_committed
  read_committed_of file h toc c =
      let w = take h.toc_len (drop h.toc_offset file) in
      let inside : (h.toc_len == 0 || leb (h.toc_offset + h.toc_len) (length file)) ≡ true =
        or_inside h.toc_len h.toc_offset (length file) c.inside in
      let sum : (crc.hash w == h.toc_crc32) ≡ true = (==_iff (crc.hash w) h.toc_crc32).1 c.sum in
      rw (leb_of_le header_size (length file) c.long, c.header, inside, sum, c.table) refl

  guard_ok : (b : Bool) (e : VecLiteError) (u : Unit) → guard b e ≡ ok u → b ≡ true
  guard_ok true e u h = refl
  guard_ok false e u h = cc

  pub read_committed-Committed :
      (file : Bytes) (h : Header) (toc : Toc) (t : ℕ)
      → read_committed crc lib serde file ≡ ok (h, toc, t)
      → t ≤ length file
      → Committed file h toc × (t ≡ h.toc_offset + h.toc_len)
  unfolding read_committed
  read_committed-Committed file h toc t e le =
      let (u1, e1, h1) = >>=-eq-ok (guard (leb header_size (length file)) _) _ e in
      let (h', e2, h2) = >>=-eq-ok (Header.decode crc (take header_size file)) _ h1 in
      let (u3, e3, h3) =
        >>=-eq-ok (guard (h'.toc_len == 0 || leb (h'.toc_offset + h'.toc_len) (length file)) _) _
          h2 in
      let w = take h'.toc_len (drop h'.toc_offset file) in
      let (u4, e4, h4) = >>=-eq-ok (guard (crc.hash w == h'.toc_crc32) _) _ h3 in
      let (toc', e5, h5) = >>=-eq-ok (Toc.decode serde w) _ h4 in
      let eh : h' ≡ h = cc in
      let et : toc' ≡ toc = cc in
      let off_len : t ≡ h'.toc_offset + h'.toc_len = cc in
      let c : Committed file h' toc' = record {
        long = leb→le header_size (length file) (guard_ok _ _ u1 e1);
        header = e2;
        inside = omega (arith, le, off_len);
        sum = (==_iff (crc.hash w) h'.toc_crc32).0 (guard_ok _ _ u4 e4);
        table = e5;
      } in
      subst (λ (a : Header). Committed file a toc × (t ≡ a.toc_offset + a.toc_len)) eh
        (subst (λ b. Committed file h' b) et c, off_len)

  -- The committed state that ends at `t` is read from any file with the same first `t` bytes.
  pub read_committed_prefix :
      (f g : Bytes) (h : Header) (toc : Toc) (t : ℕ)
      → read_committed crc lib serde f ≡ ok (h, toc, t)
      → header_size ≤ t
      → t ≤ length f
      → t ≤ length g
      → take t g ≡ take t f
      → read_committed crc lib serde g ≡ ok (h, toc, t)
  read_committed_prefix f g h toc t e p lf lg same =
      let (c, off_len) = read_committed-Committed f h toc t e lf in
      let page : take header_size g ≡ take header_size f =
        window_same header_size 0 t f g (omega arith) same in
      let table : take h.toc_len (drop h.toc_offset g) ≡ take h.toc_len (drop h.toc_offset f) =
        window_same h.toc_len h.toc_offset t f g (omega (arith, off_len)) same in
      let c' : Committed g h toc = record {
        long = omega (arith, p, lg);
        header = ap (Header.decode crc) page ∙ c.header;
        inside = omega (arith, lg, off_len);
        sum = ap crc.hash table ∙ c.sum;
        table = ap (Toc.decode serde) table ∙ c.table;
      } in
      read_committed_of g h toc c' ∙ ap (λ k. ok (h, toc, k)) (sym off_len)
