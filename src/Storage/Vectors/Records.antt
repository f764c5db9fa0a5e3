-- ===== src/Storage/Vectors/Records.antt =====
-- The records of a decoded body of storage/vectors.rs.
use veclite.Base.{
  ℕ, ◌+◌, ◌*◌, ◌-◌, ◌^◌, ◌<◌, ◌≤◌, ◌≡◌, refl, sym, subst, ◌∙◌, ◌==◌, none, some, Bool-cases, inl,
  inr, ◌⊎◌, arith, Bytes, length, take, drop, ltb, leb, lt→ltb, le→ltb, ltb→le, ltb→lt, leb_of_le,
  ==_iff, length-take, length-drop, usize_limit,
}
use veclite.Error.{ok, Result-cases, ok_inj}
use veclite.Storage.Body.{FloatBits}
use veclite.Storage.Vectors.{
  VectorsBody, checked_mul, decode, parse_header, record_at, record_of, stride, stride_for,
}
use veclite.Storage.Vectors.RoundTrip.{record_at_lem, last_end}

outside_lem :
    (stride first count slot : ℕ) (records : Bytes)
    → (slot < first) ⊎ (first + count ≤ slot)
    → record_at stride first count records slot ≡ none
unfolding record_at
outside_lem stride first count slot records (inl p) = rw (lt→ltb slot first p) refl
outside_lem stride first count slot records (inr p) =
    rw (le→ltb slot first (omega arith), leb_of_le count (slot - first) (omega arith)) refl

length_record :
    (stride first count slot : ℕ) (records : Bytes)
    → length records ≡ stride * count
    → first ≤ slot
    → slot < first + count
    → length (take stride (drop ((slot - first) * stride) records)) ≡ stride
length_record stride first count slot records full p q =
    let end = last_end (slot - first) stride count (omega arith) in
    omega (
      arith,
      full,
      end,
      length-take stride (drop ((slot - first) * stride) records),
      length-drop ((slot - first) * stride) records,
    )

module _ {F : Type 0} (bits : FloatBits F) where
  -- What decoding has checked.
  pub decode_inv :
      (bytes : Bytes) (w : VectorsBody F)
      → decode bits bytes ≡ ok w
      → (s : ℕ) × (stride w ≡ ok s) × (length w.records ≡ s * w.count) × (s * w.count < 2 ^ 64)
  unfolding decode stride checked_mul
  decode_inv bytes w e = elim (Result-cases (parse_header bits bytes)) [
    | inr (_, bad) ↦ ground arith
    | inl (h, good) ↦ elim (Result-cases (stride_for h.encoding h.dimension)) [
      | inr (_, bad) ↦ ground arith
      | inl (s, sized) ↦ elim (Bool-cases (ltb (s * h.count) usize_limit)) [
        | inr bad ↦ ground arith
        | inl small ↦ elim (Bool-cases (leb h.records_at (length bytes))) [
          | inr bad ↦ ground arith
          | inl long ↦ elim (Bool-cases (length (drop h.records_at bytes) == s * h.count)) [
            | inr bad ↦ ground arith
            | inl exact ↦
                let out : VectorsBody F = record {
                  encoding = h.encoding;
                  dimension = h.dimension;
                  first_slot = h.first_slot;
                  count = h.count;
                  sq_params = h.sq_params;
                  records = drop h.records_at bytes;
                } in
                let same : ok out ≡ ok w = sym (rw (good, sized, small, long, exact) refl) ∙ e in
                subst
                  (λ (v : VectorsBody F).
                    (s : ℕ) × (stride v ≡ ok s)
                    × (length v.records ≡ s * v.count)
                    × (s * v.count < 2 ^ 64))
                  (ok_inj same)
                  (s, sized, (==_iff _ _).0 exact, ltb→lt (s * h.count) usize_limit small)
          ]
        ]
      ]
    ]
  ]

  -- Of a body that decodes, every slot from the first on, `count` many, has a record of the stride's
  -- length, and no other slot has a record.
  pub decode-record_of :
      (bytes : Bytes) (w : VectorsBody F) (slot : ℕ)
      → decode bits bytes ≡ ok w
      → ((r : Bytes) × (s : ℕ) × (record_of w slot ≡ some r)
          × (stride w ≡ ok s)
          × (length r ≡ s)
          × (w.first_slot ≤ slot)
          × (slot < w.first_slot + w.count))
        ⊎ ((record_of w slot ≡ none) × (w.first_slot ≤ slot → w.first_slot + w.count ≤ slot))
  unfolding record_of
  decode-record_of bytes w slot e =
      let (s, sized, full, l) = decode_inv bytes w e in
      elim (Bool-cases (ltb slot w.first_slot)) [
        | inl early ↦ inr (
          rw (sized) (outside_lem s w.first_slot w.count slot w.records (inl (ltb→lt _ _ early))),
          λ p. absurd (omega (arith, ltb→lt _ _ early)),
        )
        | inr late ↦ elim (Bool-cases (ltb slot (w.first_slot + w.count))) [
          | inl there ↦ inl (
            take s (drop ((slot - w.first_slot) * s) w.records),
            s,
            rw (sized) (
                record_at_lem s w.first_slot w.count slot w.records full l (ltb→le _ _ late)
                  (ltb→lt _ _ there)),
            sized,
            length_record s w.first_slot w.count slot w.records full (ltb→le _ _ late)
                (ltb→lt _ _ there),
            ltb→le _ _ late,
            ltb→lt _ _ there,
          )
          | inr beyond ↦ inr (
            rw (sized)
                (outside_lem s w.first_slot w.count slot w.records (inr (ltb→le _ _ beyond))),
            λ p. ltb→le _ _ beyond,
          )
        ]
      ]
