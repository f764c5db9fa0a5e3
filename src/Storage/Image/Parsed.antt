-- ===== src/Storage/Image/Parsed.antt =====
-- `read_image` of storage/image.rs against the reading of the pager, which it mirrors.
use veclite.Base.{
  ℕ, zero, suc, ◌+◌, ◌-◌, ◌<◌, ◌≤◌, ◌≡◌, refl, ap, ◌∙◌, Bool, true, false, Bool-cases, ◌==◌, ◌||◌,
  inl, inr, none, some, some_inj, List, [], ◌∷◌, arith, Bytes, length, take, drop, leb, leb→le,
  leb_of_le,
}
use veclite.Error.{
  VecLiteError, Result, ok, err, corrupt, ◌>>=◌, ◌>>◌, guard, to_option, Result-cases,
}
use veclite.Storage.Crc.{Crc32}
use veclite.Storage.Compression.{Codecs}
use veclite.Storage.Msgpack.{guard_msgpack_depth}
use veclite.Storage.Segment
use veclite.Storage.Segment.{Segment}
use veclite.Storage.Header
use veclite.Storage.Header.{Header, header_size}
use veclite.Storage.Toc
use veclite.Storage.Toc.{SegRef, CollEntry, Toc, TocSerde}
use veclite.Storage.Pager.{read_committed, read_segment}
use veclite.Storage.Image.{
  saturating_add, slice, read_refs, read_entries, image_toc, image_segment, read_image,
}

-- The same value, or a failure of both.
abbrev Agree : {A : Type 0} → Result A → Result A → Type 0
Agree r s = to_option r ≡ to_option s

Agree->>= :
    {A B : Type 0} (r s : Result A) (f g : A → Result B)
    → Agree r s
    → ((a : A) → Agree (f a) (g a))
    → Agree (r >>= f) (s >>= g)
Agree->>= (ok a) (ok b) f g h k = k a ∙ ap (λ x. to_option (g x)) (some_inj h)
Agree->>= (ok a) (err e) f g h k = cc h
Agree->>= (err e) (ok b) f g h k = cc h
Agree->>= (err e) (err e') f g h k = refl

||-true : (b : Bool) → (b || true) ≡ true
||-true true = refl
||-true false = refl

saturating_add_lem : (a b n : ℕ) → n < 18446744073709551615 → a + b ≤ n → saturating_add a b ≡ a + b
unfolding saturating_add
saturating_add_lem a b n small h = ground arith

-- `?` twice is `?` of the two.
>>=-assoc :
    {A B C : Type 0} (r : Result A) (f : A → Result B) (g : B → Result C)
    → (r >>= f >>= g) ≡ (r >>= λ a. f a >>= g)
>>=-assoc (ok a) f g = refl
>>=-assoc (err e) f g = refl

slice-inside :
    (bytes : Bytes) (off len : ℕ)
    → length bytes < 18446744073709551615
    → leb (off + len) (length bytes) ≡ true
    → slice bytes off len ≡ some (take len (drop off bytes))
unfolding slice
slice-inside bytes off len small h =
    let fits = leb→le (off + len) (length bytes) h in
    let d : off + len - off ≡ len = omega arith in
    rw
      (
        saturating_add_lem off len (length bytes) small fits,
        leb_of_le off (off + len) (omega arith),
        h,
        d,
      )
      refl

slice-outside :
    (bytes : Bytes) (off len : ℕ)
    → length bytes < 18446744073709551615
    → leb (off + len) (length bytes) ≡ false
    → slice bytes off len ≡ none
unfolding slice saturating_add
slice-outside bytes off len small h = ground arith

abbrev Fails : {A : Type 0} → Result A → Type 0
Fails r = (e : VecLiteError) × (r ≡ err e)

-- A window outside the file fails: it is refused, or empty.
outside-Fails :
    {A : Type 0} (read : Bytes → Result A) (w : Bytes) (len : ℕ) (b : Bool) (e : VecLiteError)
    → Fails (read [])
    → b ≡ false
    → Fails (guard (len == 0 || b) e >>= λ _. read (take len w))
outside-Fails read w zero b e h z = h
outside-Fails read w (suc n) b e h z =
    let positive : (suc n == 0) ≡ false = ground arith in (e, rw (positive, z) refl)

module _ (crc : Crc32) (lib : Codecs) (serde : TocSerde) (eof : serde.from_slice [] ≡ none)
    (bytes : Bytes) (small : length bytes < 18446744073709551615) where
  read-Fails : Fails (Segment.read crc lib [] 0 >>= λ found. ok found.0)
  unfolding Segment.read
  read-Fails = (_, refl)

  decode-Fails : Fails (Toc.decode serde [])
  unfolding Toc.decode
  decode-Fails = elim (Result-cases (guard_msgpack_depth [])) [
    | inl (u, h) ↦ (corrupt "toc: {}", rw (h, eof) refl)
    | inr (e, h) ↦ (e, rw h refl)
  ]

  image_segment-Agree :
      (r : SegRef)
      → Agree (image_segment crc lib serde bytes r) (read_segment crc lib serde bytes r)
  unfolding image_segment read_segment
  image_segment-Agree r = elim (Bool-cases (leb (r.offset + r.len) (length bytes))) [
    | inl h ↦ rw (slice-inside bytes r.offset r.len small h, h, ||-true (r.len == 0)) refl
    | inr h ↦
        let (e, bad) =
          outside-Fails (λ b. Segment.read crc lib b 0 >>= λ found. ok found.0)
            (drop r.offset bytes) r.len (leb (r.offset + r.len) (length bytes))
            (corrupt "segment@{}: truncated") read-Fails h in
        rw (slice-outside bytes r.offset r.len small h, bad) refl
  ]

  -- The checksum and the decoding of the table, and what `read_committed` returns with it.
  abbrev checked_table : Header → Bytes → Result (Header × Toc × ℕ)
  checked_table h tbuf = do
    guard (crc.hash tbuf == h.toc_crc32) (corrupt "toc: crc mismatch")
    toc ← Toc.decode serde tbuf
    ok (h, toc, h.toc_offset + h.toc_len)

  checked_table-Fails : (h : Header) → Fails (checked_table h [])
  checked_table-Fails h = elim (Bool-cases (crc.hash [] == h.toc_crc32)) [
    | inl sum ↦ let (e, bad) = decode-Fails in (e, rw (sum, bad) refl)
    | inr other ↦ (corrupt "toc: crc mismatch", rw other refl)
  ]

  checked_table-Agree :
      (h : Header) (tbuf : Bytes)
      → Agree
          (do
            guard (crc.hash tbuf == h.toc_crc32) (corrupt "image: TOC crc mismatch")
            Toc.decode serde tbuf)
          (checked_table h tbuf >>= λ c. ok c.1)
  checked_table-Agree h tbuf = elim (Bool-cases (crc.hash tbuf == h.toc_crc32)) [
    | inr other ↦ rw other refl
    | inl sum ↦ elim (Result-cases (Toc.decode serde tbuf)) [
      | inl (toc, good) ↦ rw (sum, good) refl
      | inr (e, bad) ↦ rw (sum, bad) refl
    ]
  ]

  image_toc-Agree :
      Agree (image_toc crc lib serde bytes) (read_committed crc lib serde bytes >>= λ c. ok c.1)
  unfolding image_toc read_committed
  image_toc-Agree = elim (Bool-cases (leb header_size (length bytes))) [
    | inr short ↦ rw short refl
    | inl long ↦ elim (Result-cases (Header.decode crc (take header_size bytes))) [
      | inr (e, bad) ↦ rw (long, bad) refl
      | inl (h, good) ↦ elim (Bool-cases (leb (h.toc_offset + h.toc_len) (length bytes))) [
        | inl inside ↦
            rw
              (
                long,
                good,
                slice-inside bytes h.toc_offset h.toc_len small inside,
                inside,
                ||-true (h.toc_len == 0),
              )
              (checked_table-Agree h (take h.toc_len (drop h.toc_offset bytes)))
        | inr outside ↦
            let (e, bad) =
              outside-Fails (checked_table h) (drop h.toc_offset bytes) h.toc_len
                (leb (h.toc_offset + h.toc_len) (length bytes)) (corrupt "toc: truncated")
                (checked_table-Fails h) outside in
            rw (long, good, slice-outside bytes h.toc_offset h.toc_len small outside, bad) refl
      ]
    ]
  ]

  read_refs-Agree :
      (segs : List SegRef)
      → Agree
          (read_refs (image_segment crc lib serde bytes) segs)
          (read_refs (read_segment crc lib serde bytes) segs)
  unfolding read_refs
  read_refs-Agree [] = refl
  read_refs-Agree (seg ∷ segs) =
      Agree->>= _ _ _ _ (image_segment-Agree seg)
        (λ found. Agree->>= _ _ _ _ (read_refs-Agree segs) (λ rest. refl))

  read_entries-Agree :
      (entries : List CollEntry)
      → Agree
          (read_entries (image_segment crc lib serde bytes) entries)
          (read_entries (read_segment crc lib serde bytes) entries)
  unfolding read_entries
  read_entries-Agree [] = refl
  read_entries-Agree (entry ∷ entries) =
      Agree->>= _ _ _ _ (read_refs-Agree entry.live_segments)
        (λ segments. Agree->>= _ _ _ _ (read_entries-Agree entries) (λ rest. refl))

  -- With a coder of tables that finds none in an empty slice, and fewer than 2^64 - 1 bytes,
  -- `read_image` succeeds exactly where the pager's `read_committed` and its `read_segment` of every
  -- live segment do, with the same collections.
  pub read_image-Agree :
      to_option (read_image crc lib serde bytes)
      ≡ to_option (
          read_committed crc lib serde bytes >>= λ c.
          read_entries (read_segment crc lib serde bytes) c.1.collections)
  unfolding read_image
  read_image-Agree =
      Agree->>= (image_toc crc lib serde bytes) (read_committed crc lib serde bytes >>= λ c. ok c.1)
        _ (λ toc. read_entries (read_segment crc lib serde bytes) toc.collections) image_toc-Agree
        (λ toc. read_entries-Agree toc.collections)
      ∙ ap to_option (
          >>=-assoc (read_committed crc lib serde bytes) (λ c. ok c.1)
            (λ toc. read_entries (read_segment crc lib serde bytes) toc.collections))
