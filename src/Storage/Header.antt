-- ===== src/Storage/Header.antt =====
-- crates/veclite/src/storage/header.rs: the 4 KiB header page.
pub mod RoundTrip
use veclite.Base.{
  ℕ, zero, suc, ◌+◌, ◌^◌, ◌≡◌, Bool, not, ◌||◌, List, [], ◌∷◌, ◌++◌, Bytes, length, take, drop, ltb,
  leb, ◌==◌, if◌then◌else◌,
}
use veclite.Error.{Result, ok, err, corrupt, unsupported_format_version, ◌>>=◌, ◌>>◌, guard}
use veclite.Storage.Crc.{Crc32}
use veclite.Storage.Le.{to_le, u32, u64}
use veclite.Storage.Wal.{eq_bytes}

abbrev pub magic : Bytes
magic = b'V' ∷ b'E' ∷ b'C' ∷ b'L' ∷ []

abbrev pub format_version : ℕ
format_version = 1

abbrev pub supported_reader_version : ℕ
supported_reader_version = 1

abbrev pub header_size : ℕ
header_size = 4096

abbrev pub flag_clean_close : ℕ
flag_clean_close = 1

pub record Header : Type 0 where
  pub format_version : ℕ
  pub min_reader_version : ℕ
  pub flags : ℕ
  pub toc_offset : ℕ
  pub toc_len : ℕ
  pub toc_crc32 : ℕ
  pub file_uuid : Bytes
  pub created_epoch_s : ℕ
  pub modified_epoch_s : ℕ

unfoldable pub new : Bytes → ℕ → Header
new file_uuid created_epoch_s = record {
  format_version = format_version;
  min_reader_version = supported_reader_version;
  flags = 0;
  toc_offset = 0;
  toc_len = 0;
  toc_crc32 = 0;
  file_uuid = file_uuid;
  created_epoch_s = created_epoch_s;
  modified_epoch_s = created_epoch_s;
}

-- `[0u8; n]`
unfoldable pub zeros : ℕ → Bytes
zeros zero = []
zeros (suc n) = 0 ∷ zeros n

-- The bytes of the page before its checksum, and those behind it.
unfoldable pub head_bytes : Header → Bytes
head_bytes h = magic ++ (to_le 4 h.format_version ++ to_le 4 h.min_reader_version)

unfoldable pub tail_bytes : Header → Bytes
tail_bytes h =
    to_le 8 h.flags
    ++ (to_le 8 h.toc_offset
        ++ (to_le 8 h.toc_len
            ++ (to_le 4 h.toc_crc32
                ++ (zeros 4
                    ++ (h.file_uuid
                        ++ (to_le 8 h.created_epoch_s
                            ++ (to_le 8 h.modified_epoch_s ++ zeros 4016)))))))

-- The page with the number `sum` in its checksum field.
unfoldable pub page : Header → ℕ → Bytes
page h sum = head_bytes h ++ (to_le 4 sum ++ tail_bytes h)

module _ (crc : Crc32) where
  unfoldable pub header_crc : Bytes → ℕ
  header_crc buf = crc.hash (take 12 buf ++ take 240 (drop 16 buf))

  unfoldable pub encode : Header → Bytes
  unfolding header_crc
  encode h = page h (header_crc (page h 0))

  unfoldable pub decode : Bytes → Result Header
  unfolding header_crc
  decode buf = do
    guard (leb header_size (length buf)) (corrupt "header: header too short")
    guard (eq_bytes (take 4 buf) magic) (corrupt "header: bad magic")
    stored_crc ← u32 buf 12 "header"
    guard (header_crc buf == stored_crc) (corrupt "header: crc mismatch")
    min_reader_version ← u32 buf 8 "header"
    guard (leb min_reader_version supported_reader_version)
        (unsupported_format_version min_reader_version supported_reader_version)
    format_version ← u32 buf 4 "header"
    flags ← u64 buf 16 "header"
    toc_offset ← u64 buf 24 "header"
    toc_len ← u64 buf 32 "header"
    toc_crc32 ← u32 buf 40 "header"
    created_epoch_s ← u64 buf 64 "header"
    modified_epoch_s ← u64 buf 72 "header"
    ok (record {
      format_version = format_version;
      min_reader_version = min_reader_version;
      flags = flags;
      toc_offset = toc_offset;
      toc_len = toc_len;
      toc_crc32 = toc_crc32;
      file_uuid = take 16 (drop 48 buf);
      created_epoch_s = created_epoch_s;
      modified_epoch_s = modified_epoch_s;
    })
