-- ===== src/Storage/Segment/Read.antt =====
-- `Segment::read` of storage/segment.rs on any bytes: what a success means.
use veclite.Base.{ℕ, ◌+◌, ◌-◌, ◌≤◌, ◌≡◌, sym, ap, ◌∙◌, arith, Bytes, length, take, drop, inl, inr}
use veclite.Error.{ok, Result-cases}
use veclite.Storage.Crc.{Crc32}
use veclite.Storage.Le.{u32, u64}
use veclite.Storage.Compression.{Codecs}
use veclite.Storage.Segment.{Segment, read}

module _ (crc : Crc32) (lib : Codecs) where
  read_parts :
      (buf : Bytes) (at n len sum m : ℕ) (s : Segment)
      → u64 buf (at + 8) "segment" ≡ ok len
      → u64 buf (at + 16) "segment" ≡ ok m
      → u32 buf (at + 24) "segment" ≡ ok sum
      → read crc lib buf at ≡ ok (s, n)
      → (n ≡ 32 + len) × (at + n ≤ length buf) × (crc.hash (take len (drop (at + 32) buf)) ≡ sum)
  unfolding read
  read_parts buf at n len sum m s l u c h = (ground arith, ground arith, ground arith)

  -- Where `read` succeeds, the header and the stored bytes lie inside the buffer, and the checksum
  -- in the header is that of the stored bytes.
  pub read_accepts :
      (buf : Bytes) (at n : ℕ) (s : Segment)
      → read crc lib buf at ≡ ok (s, n)
      → (32 ≤ n)
        × (at + n ≤ length buf)
        × (u32 buf (at + 24) "segment" ≡ ok (crc.hash (take (n - 32) (drop (at + 32) buf))))
  unfolding read
  read_accepts buf at n s h = elim (Result-cases (u64 buf (at + 8) "segment")) [
    | inr (x, l) ↦ absurd (ground arith)
    | inl (len, l) ↦ elim (Result-cases (u64 buf (at + 16) "segment")) [
      | inr (x, u) ↦ absurd (ground arith)
      | inl (m, u) ↦ elim (Result-cases (u32 buf (at + 24) "segment")) [
        | inr (x, c) ↦ absurd (ground arith)
        | inl (sum, c) ↦
            let (n_is, inside, summed) = read_parts buf at n len sum m s l u c h in
            let len_is : len ≡ n - 32 = omega arith in
            (
              omega arith,
              inside,
              c ∙ ap ok (sym summed ∙ ap (λ t. crc.hash (take t (drop (at + 32) buf))) len_is),
            )
      ]
    ]
  ]
