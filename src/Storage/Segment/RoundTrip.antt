-- ===== src/Storage/Segment/RoundTrip.antt =====
-- Segments of storage/segment.rs: what `encode` wrote `read` reads back, and what `read` accepts.
use veclite.Base.{
  ℕ, ◌+◌, ◌^◌, ◌≤◌, ◌<◌, ◌≡◌, refl, sym, ap, ◌∙◌, [], ◌∷◌, ◌++◌, append_assoc, arith, Bytes, length,
  drop, ==-refl, leb_of_le, length-append, drop_next, take_next, get_or-drop, fits,
}
use veclite.Error.{ok, >>=-eq-ok}
use veclite.Storage.Crc.{Crc32}
use veclite.Storage.Le.{to_le, length-to_le, u16_at, u32_at, u64_at}
use veclite.Storage.Compression
use veclite.Storage.Compression.{Codec, lz4, Codecs, compress, decompress, decompress-compress}
use veclite.Storage.Segment.{
  SegmentType, Segment, config, vectors, tombstone, payload, pidx, sparse, hnsw, vocab, iddir,
  to_byte, from_byte, frame, encode, read,
}

pub from_byte-to_byte : (t : SegmentType) → from_byte (to_byte t) ≡ ok t
unfolding from_byte to_byte
from_byte-to_byte config = refl
from_byte-to_byte vectors = refl
from_byte-to_byte tombstone = refl
from_byte-to_byte payload = refl
from_byte-to_byte pidx = refl
from_byte-to_byte sparse = refl
from_byte-to_byte hnsw = refl
from_byte-to_byte vocab = refl
from_byte-to_byte iddir = refl

-- The machine widths of the fields of a segment and of the length of its stored bytes.
pub record InRange (s : Segment) (stored : Bytes) : Type 0 where
  pub flags_lt : s.seg_flags < 2 ^ 16
  pub coll_id_lt : s.coll_id < 2 ^ 32
  pub body_lt : length s.body < 2 ^ 64
  pub stored_lt : length stored < 2 ^ 64

module _ (crc : Crc32) (lib : Codecs) where
  pub length-frame :
      (s : Segment) (codec : Codec) (stored : Bytes)
      → length (frame crc lib s codec stored) ≡ 32 + length stored
  unfolding frame
  length-frame s codec stored = simp (length-append, length-to_le) (omega arith)

  module _ (s : Segment) (codec : Codec) (stored buf rest : Bytes) (at : ℕ) (r : InRange s stored)
      (small : codec ≡ lz4 → length s.body < 2 ^ 32)
      (packed : compress lib codec s.body ≡ ok stored)
      (h : drop at buf ≡ frame crc lib s codec stored ++ rest) where
    abbrev sum : ℕ
    sum = crc.hash stored

    abbrev behind_sum : Bytes
    behind_sum = (0 ∷ 0 ∷ 0 ∷ 0 ∷ []) ++ (stored ++ rest)

    abbrev behind_flags : Bytes
    behind_flags =
        to_le 4 s.coll_id
        ++ (to_le 8 (length stored) ++ (to_le 8 (length s.body) ++ (to_le 4 sum ++ behind_sum)))

    at_type :
        drop at buf
        ≡ (to_byte s.seg_type ∷ Compression.to_byte codec ∷ [])
          ++ (to_le 2 s.seg_flags ++ behind_flags)
    unfolding frame
    at_type = h ∙ simp append_assoc

    at_codec : drop (at + 1) buf ≡ Compression.to_byte codec ∷ (to_le 2 s.seg_flags ++ behind_flags)
    at_codec = drop_next buf (to_byte s.seg_type ∷ []) _ at 1 (at + 1) at_type refl refl

    at_flags : drop (at + 2) buf ≡ to_le 2 s.seg_flags ++ behind_flags
    at_flags =
        drop_next buf (Compression.to_byte codec ∷ []) _ (at + 1) 1 (at + 2) at_codec refl
          (omega arith)

    at_coll_id : drop (at + 4) buf ≡ behind_flags
    at_coll_id =
        drop_next buf _ _ (at + 2) 2 (at + 4) at_flags (length-to_le 2 s.seg_flags) (omega arith)

    at_body_len :
        drop (at + 8) buf
        ≡ to_le 8 (length stored) ++ (to_le 8 (length s.body) ++ (to_le 4 sum ++ behind_sum))
    at_body_len =
        drop_next buf _ _ (at + 4) 4 (at + 8) at_coll_id (length-to_le 4 s.coll_id) (omega arith)

    at_uncompressed_len :
        drop (at + 16) buf ≡ to_le 8 (length s.body) ++ (to_le 4 sum ++ behind_sum)
    at_uncompressed_len =
        drop_next buf _ _ (at + 8) 8 (at + 16) at_body_len (length-to_le 8 (length stored))
          (omega arith)

    at_crc : drop (at + 24) buf ≡ to_le 4 sum ++ behind_sum
    at_crc =
        drop_next buf _ _ (at + 16) 8 (at + 24) at_uncompressed_len (length-to_le 8 (length s.body))
          (omega arith)

    at_reserved : drop (at + 28) buf ≡ behind_sum
    at_reserved = drop_next buf _ _ (at + 24) 4 (at + 28) at_crc (length-to_le 4 sum) (omega arith)

    at_stored : drop (at + 32) buf ≡ stored ++ rest
    at_stored =
        drop_next buf (0 ∷ 0 ∷ 0 ∷ 0 ∷ []) _ (at + 28) 4 (at + 32) at_reserved refl (omega arith)

    whole_fits : at + 32 + length stored ≤ length buf
    whole_fits = omega (
      arith,
      fits buf (frame crc lib s codec stored) rest at (32 + length stored) h
          (length-frame s codec stored) (omega arith),
    )

    pub read-frame : read crc lib buf at ≡ ok (s, 32 + length stored)
    unfolding read
    read-frame =
        rw
          (
            leb_of_le (at + 32) (length buf) (omega (arith, whole_fits)),
            get_or-drop at buf _ (to_byte s.seg_type) 0 at_type,
            from_byte-to_byte s.seg_type,
            get_or-drop (at + 1) buf _ (Compression.to_byte codec) 0 at_codec,
            Compression.from_byte-to_byte codec,
            u16_at buf _ (at + 2) s.seg_flags "segment" at_flags r.flags_lt,
            u32_at buf _ (at + 4) s.coll_id "segment" at_coll_id r.coll_id_lt,
            u64_at buf _ (at + 8) (length stored) "segment" at_body_len r.stored_lt,
            u64_at buf _ (at + 16) (length s.body) "segment" at_uncompressed_len r.body_lt,
            u32_at buf _ (at + 24) sum "segment" at_crc (crc.hash_lt stored),
            leb_of_le (at + 32 + length stored) (length buf) whole_fits,
            take_next buf stored rest (at + 32) (length stored) at_stored refl,
            ==-refl sum,
            decompress-compress lib codec s.body stored small packed,
          )
          refl

  -- A segment with fields in range, and with lz4 a body below 4 GiB, that was encoded is read back from
  -- wherever its bytes stand, with their number.
  pub read-encode :
      (s : Segment) (codec : Codec) (bytes buf rest : Bytes) (at : ℕ)
      → s.seg_flags < 2 ^ 16
      → s.coll_id < 2 ^ 32
      → length s.body < 2 ^ 64
      → length bytes < 2 ^ 64
      → (codec ≡ lz4 → length s.body < 2 ^ 32)
      → encode crc lib s codec ≡ ok bytes
      → drop at buf ≡ bytes ++ rest
      → read crc lib buf at ≡ ok (s, length bytes)
  unfolding encode
  read-encode s codec bytes buf rest at f c b n small e h =
      let (stored, packed, framed) = >>=-eq-ok (compress lib codec s.body) _ e in
      let same : frame crc lib s codec stored ≡ bytes = cc in
      let total : 32 + length stored ≡ length bytes =
        omega (arith, length-frame s codec stored, ap length same) in
      rw (← total) (
        read-frame s codec stored buf rest at
          (record { flags_lt = f; coll_id_lt = c; body_lt = b; stored_lt = omega arith }) small
          packed (h ∙ ap (λ t. t ++ rest) (sym same)))
