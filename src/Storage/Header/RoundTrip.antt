-- ===== src/Storage/Header/RoundTrip.antt =====
-- The header of storage/header.rs: its page is 4096 bytes, and decodes to what was encoded.
use veclite.Base.{
  ℕ, zero, suc, ◌^◌, ◌≤◌, ◌<◌, ◌≡◌, refl, sym, ap, ap₂, ◌∙◌, ◌++◌, append_assoc, arith, Bytes,
  length, take, drop, ==-refl, leb_of_le, length-append, drop_next, take_next,
}
use veclite.Error.{ok}
use veclite.Storage.Crc.{Crc32}
use veclite.Storage.Le.{to_le, length-to_le, u32_at, u64_at}
use veclite.Storage.Header.{
  Header, magic, zeros, head_bytes, tail_bytes, page, header_crc, encode, decode,
}

-- The machine widths of the fields, and a version that this reader supports.
pub record InRange (h : Header) : Type 0 where
  pub format_version_lt : h.format_version < 2 ^ 32
  pub reader_le : h.min_reader_version ≤ 1
  pub flags_lt : h.flags < 2 ^ 64
  pub toc_offset_lt : h.toc_offset < 2 ^ 64
  pub toc_len_lt : h.toc_len < 2 ^ 64
  pub toc_crc32_lt : h.toc_crc32 < 2 ^ 32
  pub uuid_len : length h.file_uuid ≡ 16
  pub created_lt : h.created_epoch_s < 2 ^ 64
  pub modified_lt : h.modified_epoch_s < 2 ^ 64

pub length-zeros : (n : ℕ) → length (zeros n) ≡ n
unfolding zeros
length-zeros zero = refl
length-zeros (suc n) = ap suc (length-zeros n)

length-head_bytes : (h : Header) → length (head_bytes h) ≡ 12
unfolding head_bytes
length-head_bytes h = simp (length-append, length-to_le)

module _ (h : Header) (uuid_len : length h.file_uuid ≡ 16) where
  length-tail_bytes : length (tail_bytes h) ≡ 4080
  unfolding tail_bytes
  length-tail_bytes = simp (length-append, length-to_le, length-zeros, uuid_len)

  pub length-page : (sum : ℕ) → length (page h sum) ≡ 4096
  unfolding page
  length-page sum = simp (length-append, length-to_le, length-head_bytes, length-tail_bytes)

module _ (crc : Crc32) (h : Header) (r : InRange h) (sum : ℕ) where
  at_head :
      drop 0 (page h sum)
      ≡ magic
        ++ (to_le 4 h.format_version
            ++ (to_le 4 h.min_reader_version ++ (to_le 4 sum ++ tail_bytes h)))
  unfolding page head_bytes
  at_head = simp append_assoc

  at_format_version :
      drop 4 (page h sum)
      ≡ to_le 4 h.format_version ++ (to_le 4 h.min_reader_version ++ (to_le 4 sum ++ tail_bytes h))
  at_format_version = drop_next (page h sum) magic _ 0 4 4 at_head refl refl

  at_reader : drop 8 (page h sum) ≡ to_le 4 h.min_reader_version ++ (to_le 4 sum ++ tail_bytes h)
  at_reader =
      drop_next (page h sum) _ _ 4 4 8 at_format_version (length-to_le 4 h.format_version) refl

  at_crc : drop 12 (page h sum) ≡ to_le 4 sum ++ tail_bytes h
  at_crc = drop_next (page h sum) _ _ 8 4 12 at_reader (length-to_le 4 h.min_reader_version) refl

  at_tail : drop 16 (page h sum) ≡ tail_bytes h
  at_tail = drop_next (page h sum) _ _ 12 4 16 at_crc (length-to_le 4 sum) refl

  page_parts : drop 0 (page h sum) ≡ head_bytes h ++ (to_le 4 sum ++ tail_bytes h)
  unfolding page
  page_parts = refl

  -- The checksum does not depend on the number in its own field.
  pub header_crc-page :
      header_crc crc (page h sum) ≡ crc.hash (head_bytes h ++ take 240 (tail_bytes h))
  unfolding header_crc
  header_crc-page =
      ap₂ (λ s t. crc.hash (s ++ take 240 t))
        (take_next (page h sum) (head_bytes h) (to_le 4 sum ++ tail_bytes h) 0 12 (page_parts)
          (length-head_bytes h))
        at_tail

  at_flags :
      drop 16 (page h sum)
      ≡ to_le 8 h.flags
        ++ (to_le 8 h.toc_offset
            ++ (to_le 8 h.toc_len
                ++ (to_le 4 h.toc_crc32
                    ++ (zeros 4
                        ++ (h.file_uuid
                            ++ (to_le 8 h.created_epoch_s
                                ++ (to_le 8 h.modified_epoch_s ++ zeros 4016)))))))
  unfolding tail_bytes
  at_flags = at_tail

  at_toc_offset :
      drop 24 (page h sum)
      ≡ to_le 8 h.toc_offset
        ++ (to_le 8 h.toc_len
            ++ (to_le 4 h.toc_crc32
                ++ (zeros 4
                    ++ (h.file_uuid
                        ++ (to_le 8 h.created_epoch_s
                            ++ (to_le 8 h.modified_epoch_s ++ zeros 4016))))))
  at_toc_offset = drop_next (page h sum) _ _ 16 8 24 at_flags (length-to_le 8 h.flags) refl

  at_toc_len :
      drop 32 (page h sum)
      ≡ to_le 8 h.toc_len
        ++ (to_le 4 h.toc_crc32
            ++ (zeros 4
                ++ (h.file_uuid
                    ++ (to_le 8 h.created_epoch_s ++ (to_le 8 h.modified_epoch_s ++ zeros 4016)))))
  at_toc_len = drop_next (page h sum) _ _ 24 8 32 at_toc_offset (length-to_le 8 h.toc_offset) refl

  at_toc_crc32 :
      drop 40 (page h sum)
      ≡ to_le 4 h.toc_crc32
        ++ (zeros 4
            ++ (h.file_uuid
                ++ (to_le 8 h.created_epoch_s ++ (to_le 8 h.modified_epoch_s ++ zeros 4016))))
  at_toc_crc32 = drop_next (page h sum) _ _ 32 8 40 at_toc_len (length-to_le 8 h.toc_len) refl

  at_reserved :
      drop 44 (page h sum)
      ≡ zeros 4
        ++ (h.file_uuid
            ++ (to_le 8 h.created_epoch_s ++ (to_le 8 h.modified_epoch_s ++ zeros 4016)))
  at_reserved = drop_next (page h sum) _ _ 40 4 44 at_toc_crc32 (length-to_le 4 h.toc_crc32) refl

  at_uuid :
      drop 48 (page h sum)
      ≡ h.file_uuid ++ (to_le 8 h.created_epoch_s ++ (to_le 8 h.modified_epoch_s ++ zeros 4016))
  at_uuid = drop_next (page h sum) _ _ 44 4 48 at_reserved (length-zeros 4) refl

  at_created :
      drop 64 (page h sum) ≡ to_le 8 h.created_epoch_s ++ (to_le 8 h.modified_epoch_s ++ zeros 4016)
  at_created = drop_next (page h sum) _ _ 48 16 64 at_uuid r.uuid_len refl

  at_modified : drop 72 (page h sum) ≡ to_le 8 h.modified_epoch_s ++ zeros 4016
  at_modified =
      drop_next (page h sum) _ _ 64 8 72 at_created (length-to_le 8 h.created_epoch_s) refl

  decode-page : sum < 2 ^ 32 → header_crc crc (page h sum) ≡ sum → decode crc (page h sum) ≡ ok h
  unfolding decode
  decode-page fits_sum summed =
      rw
        (
          leb_of_le 4096 (length (page h sum)) (omega (arith, length-page h r.uuid_len sum)),
          take_next (page h sum) magic _ 0 4 at_head refl,
          u32_at (page h sum) _ 12 sum "header" at_crc fits_sum,
          summed,
          ==-refl sum,
          u32_at (page h sum) _ 8 h.min_reader_version "header" at_reader
              (omega (arith, r.reader_le)),
          leb_of_le h.min_reader_version 1 r.reader_le,
          u32_at (page h sum) _ 4 h.format_version "header" at_format_version r.format_version_lt,
          u64_at (page h sum) _ 16 h.flags "header" at_flags r.flags_lt,
          u64_at (page h sum) _ 24 h.toc_offset "header" at_toc_offset r.toc_offset_lt,
          u64_at (page h sum) _ 32 h.toc_len "header" at_toc_len r.toc_len_lt,
          u32_at (page h sum) _ 40 h.toc_crc32 "header" at_toc_crc32 r.toc_crc32_lt,
          u64_at (page h sum) _ 64 h.created_epoch_s "header" at_created r.created_lt,
          u64_at (page h sum) _ 72 h.modified_epoch_s "header" at_modified r.modified_lt,
          take_next (page h sum) h.file_uuid _ 48 16 at_uuid r.uuid_len,
        )
        refl

header_crc-lt : (crc : Crc32) (buf : Bytes) → header_crc crc buf < 2 ^ 32
unfolding header_crc
header_crc-lt crc buf = crc.hash_lt _

module _ (crc : Crc32) (h : Header) (r : InRange h) where
  -- A header whose fields are in range is encoded to 4096 bytes, which decode to it.
  pub decode-encode : (length (encode crc h) ≡ 4096) × (decode crc (encode crc h) ≡ ok h)
  unfolding encode
  decode-encode =
      let sum = header_crc crc (page h 0) in
      (
        length-page h r.uuid_len sum,
        decode-page crc h r sum (header_crc-lt crc (page h 0))
            (header_crc-page crc h r sum ∙ sym (header_crc-page crc h r 0)),
      )
