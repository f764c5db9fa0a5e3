-- ===== src/Storage/Vectors/View.antt =====
-- `VectorsView` of storage/vectors.rs: the records read in place.
use veclite.Base.{
  ℕ, ◌≡◌, refl, Bool, true, false, Option-cases, Bool-cases, inl, inr, ◌==◌, Option, none, some,
  List, [], ◌∷◌, Bytes, length, drop, leb, if◌then◌else◌, ◌>>=?◌,
}
use veclite.Error.{Result, ok, corrupt, ◌>>=◌, ◌>>◌, ok_or, guard, Result-cases}
use veclite.Storage.Le.{from_le}
use veclite.Storage.Body.{FloatBits}
use veclite.Storage.Vectors.{
  Encoding, f32, sq8, sq4, sq2, sq1, binary, pq, parse_header, stride_for, checked_mul, decode,
  record_at, record_of, stride,
}

pub record VectorsView (F : Type 0) : Type 0 where
  pub encoding : Encoding
  pub dimension : ℕ
  pub first_slot : ℕ
  pub count : ℕ
  pub sq_params : Option (F × F)
  pub stride : ℕ
  pub records : Bytes

-- `chunks_exact(4)`, with what is left in front of the next chunk.
unfoldable pub chunks_of_4 : {F : Type 0} → FloatBits F → Bytes → List F
chunks_of_4 bits (a ∷ b ∷ c ∷ d ∷ rest) =
    bits.from_bits (from_le (a ∷ b ∷ c ∷ d ∷ [])) ∷ chunks_of_4 bits rest
chunks_of_4 bits _ = []

is_f32 : Encoding → Bool
is_f32 f32 = true
is_f32 sq8 = false
is_f32 sq4 = false
is_f32 sq2 = false
is_f32 sq1 = false
is_f32 binary = false
is_f32 pq = false

module _ {F : Type 0} where
  unfoldable pub record_in : VectorsView F → ℕ → Option Bytes
  unfolding record_at
  record_in v slot = record_at v.stride v.first_slot v.count v.records slot

  module _ (bits : FloatBits F) where
    unfoldable pub parse : Bytes → Result (VectorsView F)
    unfolding parse_header stride_for checked_mul
    parse bytes = do
      h ← parse_header bits bytes
      stride ← stride_for h.encoding h.dimension
      want ← ok_or (checked_mul stride h.count) (corrupt "vectors: record size overflow")
      guard (leb h.records_at (length bytes)) (corrupt "vectors: truncated header")
      guard (length (drop h.records_at bytes) == want)
          (corrupt "vectors: expected {want} record bytes, got {}")
      ok (record {
        encoding = h.encoding;
        dimension = h.dimension;
        first_slot = h.first_slot;
        count = h.count;
        sq_params = h.sq_params;
        stride = stride;
        records = drop h.records_at bytes;
      })

    unfoldable pub f32_record : VectorsView F → ℕ → Option (List F)
    unfolding is_f32 record_in chunks_of_4
    f32_record v slot =
        if is_f32 v.encoding
        then (record_in v slot >>=? λ bytes. some (chunks_of_4 bits bytes))
        else none

    -- Reading a record in place gives what decoding the body and reading it gives, errors included.
    pub record_in-record_of :
        (bytes : Bytes) (slot : ℕ)
        → (parse bytes >>= λ v. ok (record_in v slot))
          ≡ (decode bits bytes >>= λ w. ok (record_of w slot))
    unfolding parse decode record_in record_of stride
    record_in-record_of bytes slot = elim (Result-cases (parse_header bits bytes)) [
      | inr (e, bad) ↦ rw (bad) refl
      | inl (h, good) ↦ elim (Result-cases (stride_for h.encoding h.dimension)) [
        | inr (e, bad) ↦ rw (good, bad) refl
        | inl (s, sized) ↦ elim (Option-cases (checked_mul s h.count)) [
          | inl bad ↦ rw (good, sized, bad) refl
          | inr (want, total) ↦ elim (Bool-cases (leb h.records_at (length bytes))) [
            | inr bad ↦ rw (good, sized, total, bad) refl
            | inl long ↦ elim (Bool-cases (length (drop h.records_at bytes) == want)) [
              | inr bad ↦ rw (good, sized, total, long, bad) refl
              | inl exact ↦ rw (good, sized, total, long, exact, sized) refl
            ]
          ]
        ]
      ]
    ]
