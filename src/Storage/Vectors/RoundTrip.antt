-- ===== src/Storage/Vectors/RoundTrip.antt =====
-- The bodies of storage/vectors.rs: what was encoded decodes, and what decodes has a record for each
-- of its slots.
use veclite.Base.{
  ℕ, ◌+◌, ◌*◌, ◌-◌, ◌^◌, ◌<◌, ◌≤◌, ◌≡◌, refl, ap, ◌∙◌, Bool, true, false, not, ◌==◌, Option, none,
  some, [], ◌∷◌, ◌++◌, append_assoc, arith, Bytes, length, take, drop, get_elem?, leb, lt→ltb,
  le→ltb, leb_of_le, ==-refl, usize_limit,
}
use veclite.Error.{ok}
use veclite.Storage.Le.{to_le, u32_at, u64_at}
use veclite.Storage.Body.{FloatBits}
use veclite.Storage.Body.Fields.{drop_le, le_fits}
use veclite.Storage.Vectors.{
  Encoding, f32, sq8, sq4, sq2, sq1, binary, pq, to_byte, from_byte, has_sq_params, is_pq,
  stride_for, stride_of, checked_mul, checked_add, VectorsBody, parse_params, parse_header,
  write_params, encode, decode, range, record_at, stride,
}

from_byte-to_byte : (e : Encoding) → from_byte (to_byte e) ≡ ok e
unfolding from_byte to_byte
from_byte-to_byte f32 = refl
from_byte-to_byte sq8 = refl
from_byte-to_byte sq4 = refl
from_byte-to_byte sq2 = refl
from_byte-to_byte sq1 = refl
from_byte-to_byte binary = refl
from_byte-to_byte pq = refl

abbrev has_params : {F : Type 0} → Option (F × F) → Bool
has_params none = false
has_params (some p) = true

module _ {F : Type 0} where
  -- The fields have their widths, the encoding is one of this build, the parameters are there where
  -- the encoding has them, and the records are as many as `count` says.
  pub record IsWhole (v : VectorsBody F) (stride : ℕ) : Type 0 where
    pub decodable : is_pq v.encoding ≡ false
    pub dimension_lt : v.dimension < 2 ^ 32
    pub count_lt : v.count < 2 ^ 64
    pub first_slot_lt : v.first_slot < 2 ^ 64
    pub params : has_params v.sq_params ≡ has_sq_params v.encoding
    pub strided : stride_for v.encoding v.dimension ≡ ok stride
    pub records_lt : stride * v.count < 2 ^ 64
    pub full : length v.records ≡ stride * v.count

pub last_end : (i stride count : ℕ) → i < count → i * stride + stride ≤ stride * count
last_end i stride count h = grind arith

leb_above : (a b : ℕ) → b < a → leb a b ≡ false
leb_above a b h = ground arith

checked_mul_lem : (a b : ℕ) → a * b < 2 ^ 64 → checked_mul a b ≡ some (a * b)
unfolding checked_mul
checked_mul_lem a b h = rw (lt→ltb (a * b) usize_limit h) refl

checked_add_lem : (a b : ℕ) → a + b < 2 ^ 64 → checked_add a b ≡ some (a + b)
unfolding checked_add
checked_add_lem a b h = rw (lt→ltb (a + b) usize_limit h) refl

-- The records of `count` strides have one for each index.
pub record_at_lem :
    (stride first count slot : ℕ) (records : Bytes)
    → length records ≡ stride * count
    → stride * count < 2 ^ 64
    → first ≤ slot
    → slot < first + count
    → record_at stride first count records slot
      ≡ some (take stride (drop ((slot - first) * stride) records))
unfolding record_at range
record_at_lem stride first count slot records full l p q =
    let i : ℕ = slot - first in
    let i_lt : i < count = omega arith in
    let end : i * stride + stride ≤ stride * count = last_end i stride count i_lt in
    rw
      (
        le→ltb slot first p,
        leb_above count i i_lt,
        checked_mul_lem i stride (omega arith),
        checked_add_lem (i * stride) stride (omega arith),
        leb_of_le (i * stride + stride) (length records) (omega (arith, end, full)),
      )
      (ap (λ (n : ℕ). some (take n (drop (i * stride) records))) (omega arith))

module _ {F : Type 0} (bits : FloatBits F) where
  parse_params_lem :
      (sq : Option (F × F)) (flag : Bool) (bytes rest : Bytes)
      → has_params sq ≡ flag
      → drop 21 bytes ≡ write_params bits sq ++ rest
      → 21 ≤ length bytes
      → (at : ℕ) × (parse_params bits bytes flag ≡ ok (sq, at))
        × (drop at bytes ≡ rest)
        × (at ≤ length bytes)
  unfolding parse_params write_params
  parse_params_lem none true bytes rest p h l = cc
  parse_params_lem (some sq) false bytes rest p h l = cc
  parse_params_lem none false bytes rest p h l = (21, refl, h, l)
  parse_params_lem (some (scale, offset)) true bytes rest p h l =
      let here : drop 21 bytes
          ≡ to_le 4 (bits.to_bits scale) ++ (to_le 4 (bits.to_bits offset) ++ rest) =
        h ∙ append_assoc (to_le 4 (bits.to_bits scale)) _ rest in
      let next = drop_le bytes _ 21 4 (bits.to_bits scale) 25 here refl in
      (
        29,
        rw
            (
              u32_at bytes _ 21 (bits.to_bits scale) "vectors" here (bits.to_bits_lt scale),
              u32_at bytes rest 25 (bits.to_bits offset) "vectors" next (bits.to_bits_lt offset),
              bits.from_bits-to_bits scale,
              bits.from_bits-to_bits offset,
            )
            refl,
        drop_le bytes rest 25 4 (bits.to_bits offset) 29 next refl,
        le_fits bytes rest 25 4 (bits.to_bits offset) next (omega arith),
      )

  module _ (v : VectorsBody F) (stride : ℕ) (w : IsWhole v stride) (bytes : Bytes)
      (h : bytes
        ≡ (to_byte v.encoding ∷ [])
          ++ (to_le 4 v.dimension
              ++ (to_le 8 v.count
                  ++ (to_le 8 v.first_slot ++ (write_params bits v.sq_params ++ v.records))))) where
    at_dimension :
        drop 1 bytes
        ≡ to_le 4 v.dimension
          ++ (to_le 8 v.count
              ++ (to_le 8 v.first_slot ++ (write_params bits v.sq_params ++ v.records)))
    at_dimension = ap (drop 1) h

    at_count :
        drop 5 bytes
        ≡ to_le 8 v.count ++ (to_le 8 v.first_slot ++ (write_params bits v.sq_params ++ v.records))
    at_count = drop_le bytes _ 1 4 v.dimension 5 at_dimension refl

    at_first_slot :
        drop 13 bytes ≡ to_le 8 v.first_slot ++ (write_params bits v.sq_params ++ v.records)
    at_first_slot = drop_le bytes _ 5 8 v.count 13 at_count refl

    decode_lem : decode bits bytes ≡ ok v
    unfolding decode parse_header
    decode_lem =
        let (at, parsed, records, inside) =
          parse_params_lem v.sq_params (has_sq_params v.encoding) bytes v.records w.params
            (drop_le bytes _ 13 8 v.first_slot 21 at_first_slot refl)
            (le_fits bytes _ 13 8 v.first_slot at_first_slot (omega arith)) in
        let total : checked_mul stride v.count ≡ some (stride * v.count) =
          checked_mul_lem stride v.count w.records_lt in
        rw
          (
            ap (λ b. get_elem? b 0) h,
            from_byte-to_byte v.encoding,
            w.decodable,
            u32_at bytes _ 1 v.dimension "vectors" at_dimension w.dimension_lt,
            u64_at bytes _ 5 v.count "vectors" at_count w.count_lt,
            u64_at bytes _ 13 v.first_slot "vectors" at_first_slot w.first_slot_lt,
            parsed,
            w.strided,
            total,
            leb_of_le at (length bytes) inside,
            records,
            w.full,
            ==-refl (stride * v.count),
          )
          refl

  -- A body that is whole decodes from its bytes.
  pub decode-encode_vectors :
      (v : VectorsBody F) (stride : ℕ) → IsWhole v stride → decode bits (encode bits v) ≡ ok v
  unfolding encode
  decode-encode_vectors v stride w = decode_lem v stride w (encode bits v) refl

-- Four bytes for each component.
pub stride_for-f32 : (dim : ℕ) → 0 < dim → dim * 4 < 2 ^ 64 → stride_for f32 dim ≡ ok (dim * 4)
unfolding stride_for stride_of
stride_for-f32 dim p l =
    let some_dim : not (dim == 0) ≡ true = ground arith in
    rw (some_dim, checked_mul_lem dim 4 l) refl
