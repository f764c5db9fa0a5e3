-- ===== src/Storage/Body/Payload/RoundTrip.antt =====
-- The loop of `PayloadBlock::decode` of storage/body.rs: its end, and what `encode` wrote.
use veclite.Base.{
  ℕ, zero, suc, ◌+◌, ◌^◌, ◌≤◌, ◌<◌, ◌≡◌, refl, sym, ap, ◌∙◌, some, Option-cases, Bool-cases, inl,
  inr, List, [], ◌∷◌, ◌++◌, append_assoc, arith, Bytes, All, length, drop, ltb, ltb→lt, lt→ltb,
  le→ltb, length-append, length-drop, drop_next,
}
use veclite.Error.{ok, err, corrupt, ◌>>=◌, ◌>>◌, ok_or, >>=-eq-ok, ok_inj, VecLiteError}
use veclite.Storage.Le.{to_le, u32_at, u64_at}
use veclite.Storage.Msgpack.{guard_msgpack_depth}
use veclite.Storage.Body.{Coder}
use veclite.Storage.Body.Fields.{drop_le, le_fits, slice_at}
use veclite.Storage.Body.Payload.{encode_entry, encode, decode_entry, decode_loop, decode}

module _ {V : Type 0} (serde : Coder V) where
  -- Every value is written so that the guard lets it pass.
  abbrev pub AreShallow : List (ℕ × V) → Type 0
  AreShallow =
      All (λ e. (mp : Bytes) → serde.write (e.1) ≡ some mp → guard_msgpack_depth mp ≡ ok tt)

  abbrev pub InRange : List (ℕ × V) → Type 0
  InRange = All (λ e. e.0 < 2 ^ 64)

  -- What `encode_entry` wrote, taken apart.
  encode_entry_inv :
      (slot : ℕ) (value : V) (entry : Bytes)
      → encode_entry serde slot value ≡ ok entry
      → (mp : Bytes) × (serde.write value ≡ some mp)
        × (length mp < 2 ^ 32)
        × (entry ≡ to_le 8 slot ++ (to_le 4 (length mp) ++ mp))
  unfolding encode_entry
  encode_entry_inv slot value entry h = elim (Option-cases (serde.write value)) [
    | inl e ↦ cc
    | inr (mp, e) ↦ elim (Bool-cases (ltb (length mp) (2 ^ 32))) [
      | inl l ↦ (mp, e, ltb→lt (length mp) (2 ^ 32) l, ground arith)
      | inr l ↦ ground arith
    ]
  ]

  module _ (slot : ℕ) (value : V) (mp buf rest : Bytes) (at : ℕ)
      (h : drop at buf ≡ to_le 8 slot ++ (to_le 4 (length mp) ++ (mp ++ rest))) (s : slot < 2 ^ 64)
      (l : length mp < 2 ^ 32) where
    at_len : drop (at + 8) buf ≡ to_le 4 (length mp) ++ (mp ++ rest)
    at_len = drop_le buf _ at 8 slot (at + 8) h refl

    at_bytes : drop (at + 12) buf ≡ mp ++ rest
    at_bytes = drop_le buf _ (at + 8) 4 (length mp) (at + 12) at_len (omega arith)

    at_rest : drop (at + 12 + length mp) buf ≡ rest
    at_rest = drop_next buf mp rest (at + 12) (length mp) (at + 12 + length mp) at_bytes refl refl

    inside : at + 12 ≤ length buf
    inside = omega (arith, le_fits buf _ (at + 8) 4 (length mp) at_len (omega arith))

    total : at + 12 + length mp ≤ length buf
    total =
        omega (arith, inside, length-drop (at + 12) buf, ap length at_bytes, length-append mp rest)

    -- The entry is read up to the guard on its nesting.
    decode_entry_up_to_guard : decode_entry serde buf at ≡ (
        guard_msgpack_depth mp
        >> (ok_or (serde.read mp) (corrupt "payload: {}") >>= λ v.
            ok ((slot, v), at + 12 + length mp)))
    unfolding decode_entry
    decode_entry_up_to_guard =
        rw
          (
            u64_at buf _ at slot "payload" h s,
            u32_at buf _ (at + 8) (length mp) "payload" at_len l,
            slice_at buf mp rest (at + 12) (length mp) at_bytes refl inside,
          )
          refl

  loop_done :
      (fuel : ℕ) (b : Bytes) (at : ℕ) → at ≡ length b → decode_loop serde (suc fuel) b at ≡ ok []
  unfolding decode_loop
  loop_done fuel b at e = rw (le→ltb at (length b) (omega arith)) refl

  decode_entry_lem :
      (slot : ℕ) (value : V) (mp buf rest : Bytes) (at : ℕ)
      (h : drop at buf ≡ to_le 8 slot ++ (to_le 4 (length mp) ++ (mp ++ rest)))
      → slot < 2 ^ 64
      → length mp < 2 ^ 32
      → serde.write value ≡ some mp
      → guard_msgpack_depth mp ≡ ok tt
      → decode_entry serde buf at ≡ ok ((slot, value), at + 12 + length mp)
  decode_entry_lem slot value mp buf rest at h s l w g =
      decode_entry_up_to_guard slot value mp buf rest at h s l
      ∙ rw (g, serde.round_trip value mp w) refl

  loop_next :
      (fuel : ℕ) (b : Bytes) (at : ℕ) (e : ℕ × V) (j : ℕ) (es : List (ℕ × V))
      → at < length b
      → decode_entry serde b at ≡ ok (e, j)
      → decode_loop serde fuel b j ≡ ok es
      → decode_loop serde (suc fuel) b at ≡ ok (e ∷ es)
  unfolding decode_loop
  loop_next fuel b at e j es l d r = rw (lt→ltb at (length b) l, d, r) refl

  decode_loop-encode :
      (entries : List (ℕ × V)) (bytes buf : Bytes) (at fuel : ℕ)
      → encode serde entries ≡ ok bytes
      → InRange entries
      → AreShallow entries
      → drop at buf ≡ bytes
      → at ≤ length buf
      → length buf < at + fuel
      → decode_loop serde fuel buf at ≡ ok entries
  unfolding encode
  decode_loop-encode [] bytes buf at zero e r s h l f = absurd (omega arith)
  decode_loop-encode [] bytes buf at (suc fuel) e r s h l f =
      loop_done fuel buf at (omega (arith, length-drop at buf, ap length (h ∙ sym (ok_inj e))))
  decode_loop-encode (entry ∷ entries) bytes buf at zero e r s h l f = absurd (omega arith)
  decode_loop-encode ((slot, value) ∷ entries) bytes buf at (suc fuel) e r s h l f =
      let (entry, one, e₁) =
        >>=-eq-ok (encode_entry serde slot value)
          (λ x. encode serde entries >>= λ rest. ok (x ++ rest)) e in
      let (rest, more, e₂) = >>=-eq-ok (encode serde entries) (λ rest. ok (entry ++ rest)) e₁ in
      let (mp, w, small, shape) = encode_entry_inv slot value entry one in
      let there : drop at buf ≡ to_le 8 slot ++ (to_le 4 (length mp) ++ (mp ++ rest)) =
        h ∙ sym (ok_inj e₂) ∙ ap (λ t. t ++ rest) shape ∙ simp append_assoc in
      loop_next fuel buf at (slot, value) (at + 12 + length mp) entries
        (omega (arith, inside slot value mp buf rest at there (r.0) small))
        (decode_entry_lem slot value mp buf rest at there (r.0) small w (s.0 mp w))
        (decode_loop-encode entries rest buf (at + 12 + length mp) fuel more (r.1) (s.1)
          (at_rest slot value mp buf rest at there (r.0) small)
          (omega (arith, total slot value mp buf rest at there (r.0) small)) (omega arith))

  -- A block that was encoded decodes to itself, where its slots are 64-bit and its payloads nest no
  -- deeper than the guard accepts.
  pub decode-encode_payload :
      (entries : List (ℕ × V)) (bytes : Bytes)
      → encode serde entries ≡ ok bytes
      → InRange entries
      → AreShallow entries
      → decode serde bytes ≡ ok entries
  unfolding decode
  decode-encode_payload entries bytes e r s =
      decode_loop-encode entries bytes bytes 0 (length bytes + 1) e r s refl (omega arith)
        (omega arith)

  encode_entry_lem :
      (slot : ℕ) (value : V) (mp : Bytes)
      → length mp < 2 ^ 32
      → serde.write value ≡ some mp
      → encode_entry serde slot value ≡ ok (to_le 8 slot ++ (to_le 4 (length mp) ++ mp))
  unfolding encode_entry
  encode_entry_lem slot value mp l w = rw (w, lt→ltb (length mp) (2 ^ 32) l) refl

  loop_fails :
      (fuel : ℕ) (b : Bytes) (at : ℕ) (e : VecLiteError)
      → at < length b
      → decode_entry serde b at ≡ err e
      → decode_loop serde (suc fuel) b at ≡ err e
  unfolding decode_loop
  loop_fails fuel b at e l d = rw (lt→ltb at (length b) l, d) refl

  -- A block of one payload, at a slot of 64 bits and with MessagePack below 4 GiB, that the guard on
  -- nesting refuses is encoded all the same, and does not decode.
  pub decode-encode_deep :
      (slot : ℕ) (value : V) (mp : Bytes) (e : VecLiteError)
      → slot < 2 ^ 64
      → length mp < 2 ^ 32
      → serde.write value ≡ some mp
      → guard_msgpack_depth mp ≡ err e
      → (bytes : Bytes) × (encode serde ((slot, value) ∷ []) ≡ ok bytes)
        × (decode serde bytes ≡ err e)
  unfolding encode decode
  decode-encode_deep slot value mp e s l w g =
      let bytes : Bytes = to_le 8 slot ++ (to_le 4 (length mp) ++ (mp ++ [])) in
      let here : drop 0 bytes ≡ to_le 8 slot ++ (to_le 4 (length mp) ++ (mp ++ [])) = refl in
      let n : length bytes + 1 ≡ suc (length bytes) = omega arith in
      (
        bytes,
        rw (encode_entry_lem slot value mp l w) (ap ok (simp append_assoc)),
        ap (λ f. decode_loop serde f bytes 0) n
            ∙ loop_fails (length bytes) bytes 0 e
                (omega (arith, inside slot value mp bytes [] 0 here s l))
                (decode_entry_up_to_guard slot value mp bytes [] 0 here s l ∙ rw (g) refl),
      )
