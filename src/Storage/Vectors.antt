-- ===== src/Storage/Vectors.antt =====
-- crates/veclite/src/storage/vectors.rs: the body of vectors of equal size, owned and as a view of the
-- mapped file. A `usize` has 64 bits; `checked_mul` and `checked_add` are tests of the result.
pub mod View
pub mod RoundTrip
pub mod Records
use veclite.Base.{
  ℕ, zero, suc, ◌+◌, ◌*◌, ◌-◌, ◌/◌, ◌%◌, ◌^◌, String, Bool, true, false, ◌==◌, not, Option, none,
  some, List, [], ◌∷◌, ◌++◌, Bytes, length, take, drop, get_elem?, ltb, leb, if◌then◌else◌, ◌>>=?◌,
  usize_limit,
}
use veclite.Error.{
  VecLiteError, Result, ok, err, corrupt, unsupported_provider, ◌>>=◌, ◌>>◌, ok_or, guard,
  to_option,
}
use veclite.Storage.Le.{to_le, from_le, u32, u64}
use veclite.Storage.Body.{FloatBits}

pub data Encoding : Type 0 where
  f32 sq8 sq4 sq2 sq1 binary pq : Encoding

unfoldable pub to_byte : Encoding → ℕ
to_byte f32 = 0
to_byte sq8 = 1
to_byte sq4 = 2
to_byte sq2 = 3
to_byte sq1 = 4
to_byte binary = 5
to_byte pq = 6

unfoldable pub from_byte : ℕ → Result Encoding
from_byte b =
    if b == 0
    then ok f32
    else if b == 1
    then ok sq8
    else if b == 2
    then ok sq4
    else if b == 3
    then ok sq2
    else if b == 4
    then ok sq1
    else if b == 5
    then ok binary
    else if b == 6
    then ok pq
    else err (corrupt "vectors: unknown encoding {other}")

unfoldable pub has_sq_params : Encoding → Bool
has_sq_params f32 = false
has_sq_params sq8 = true
has_sq_params sq4 = true
has_sq_params sq2 = true
has_sq_params sq1 = true
has_sq_params binary = false
has_sq_params pq = false

abbrev pub header_len : ℕ
header_len = 21

unfoldable pub checked_mul : ℕ → ℕ → Option ℕ
checked_mul a b = if ltb (a * b) usize_limit then some (a * b) else none

unfoldable pub checked_add : ℕ → ℕ → Option ℕ
checked_add a b = if ltb (a + b) usize_limit then some (a + b) else none

unfoldable pub stride_of : Encoding → ℕ → Result ℕ
unfolding checked_mul
stride_of f32 dim = ok_or (checked_mul dim 4) (corrupt "vectors: stride overflow")
stride_of sq8 dim = ok dim
stride_of sq4 dim = ok ((dim + 1) / 2)
stride_of sq2 dim = ok ((dim + 3) / 4)
stride_of sq1 dim = ok ((dim + 7) / 8)
stride_of binary dim =
    if dim % 8 == 0
    then ok (dim / 8)
    else err (corrupt "vectors: binary dimension {dim} not a multiple of 8")
stride_of pq dim = err (corrupt "vectors: pq stride requires the pq feature")

unfoldable pub stride_for : Encoding → ℕ → Result ℕ
unfolding stride_of
stride_for encoding dimension = do
  guard (not (dimension == 0)) (corrupt "vectors: zero dimension")
  stride_of encoding dimension

pub record BodyHeader (F : Type 0) : Type 0 where
  pub encoding : Encoding
  pub dimension : ℕ
  pub count : ℕ
  pub first_slot : ℕ
  pub sq_params : Option (F × F)
  pub records_at : ℕ

pub record VectorsBody (F : Type 0) : Type 0 where
  pub encoding : Encoding
  pub dimension : ℕ
  pub first_slot : ℕ
  pub count : ℕ
  pub sq_params : Option (F × F)
  pub records : Bytes

unfoldable pub is_pq : Encoding → Bool
is_pq f32 = false
is_pq sq8 = false
is_pq sq4 = false
is_pq sq2 = false
is_pq sq1 = false
is_pq binary = false
is_pq pq = true

module _ {F : Type 0} (bits : FloatBits F) where
  -- The scale and the offset, and where the records begin.
  unfoldable pub parse_params : Bytes → Bool → Result (Option (F × F) × ℕ)
  parse_params bytes false = ok (none, header_len)
  parse_params bytes true = do
    scale ← u32 bytes header_len "vectors"
    offset ← u32 bytes (header_len + 4) "vectors"
    ok (some (bits.from_bits scale, bits.from_bits offset), header_len + 8)

  unfoldable pub parse_header : Bytes → Result (BodyHeader F)
  unfolding parse_params from_byte is_pq has_sq_params
  parse_header bytes = do
    encoding_byte ← ok_or (get_elem? bytes 0) (corrupt "vectors: empty body")
    encoding ← from_byte encoding_byte
    guard (not (is_pq encoding)) (unsupported_provider "pq" [])
    dimension ← u32 bytes 1 "vectors"
    count ← u64 bytes 5 "vectors"
    first_slot ← u64 bytes 13 "vectors"
    p ← parse_params bytes (has_sq_params encoding)
    ok (record {
      encoding = encoding;
      dimension = dimension;
      count = count;
      first_slot = first_slot;
      sq_params = p.0;
      records_at = p.1;
    })

  unfoldable pub write_params : Option (F × F) → Bytes
  write_params none = []
  write_params (some (scale, offset)) =
      to_le 4 (bits.to_bits scale) ++ to_le 4 (bits.to_bits offset)

  unfoldable pub encode : VectorsBody F → Bytes
  unfolding to_byte write_params
  encode v =
      (to_byte v.encoding ∷ [])
      ++ (to_le 4 v.dimension
          ++ (to_le 8 v.count ++ (to_le 8 v.first_slot ++ (write_params v.sq_params ++ v.records))))

  unfoldable pub decode : Bytes → Result (VectorsBody F)
  unfolding parse_header stride_for checked_mul
  decode bytes = do
    h ← parse_header bytes
    stride ← stride_for h.encoding h.dimension
    want ← ok_or (checked_mul stride h.count) (corrupt "vectors: record size overflow")
    guard (leb h.records_at (length bytes)) (corrupt "vectors: truncated header")
    guard (length (drop h.records_at bytes) == want)
        (corrupt "vectors: expected {want} record bytes, got {}")
    ok (record {
      encoding = h.encoding;
      dimension = h.dimension;
      first_slot = h.first_slot;
      count = h.count;
      sq_params = h.sq_params;
      records = drop h.records_at bytes;
    })

-- `records.get(start..end)`
unfoldable pub range : Bytes → ℕ → ℕ → Option Bytes
range records start end =
    if leb end (length records) then some (take (end - start) (drop start records)) else none

-- The arithmetic of `record`, on a stride.
unfoldable pub record_at : ℕ → ℕ → ℕ → Bytes → ℕ → Option Bytes
unfolding checked_mul checked_add range
record_at stride first_slot count records slot =
    if ltb slot first_slot
    then none
    else if leb count (slot - first_slot)
    then none
    else checked_mul (slot - first_slot) stride >>=? λ start.
        checked_add start stride >>=? λ end. range records start end

module _ {F : Type 0} where
  unfoldable pub stride : VectorsBody F → Result ℕ
  unfolding stride_for
  stride v = stride_for v.encoding v.dimension

  -- The code asks for the stride after the tests of the slot; either way there is no record if one
  -- fails.
  unfoldable pub record_of : VectorsBody F → ℕ → Option Bytes
  unfolding stride record_at
  record_of v slot = to_option (stride v) >>=? λ s. record_at s v.first_slot v.count v.records slot
