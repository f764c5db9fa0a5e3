-- ===== src/Storage/Body/Pidx.antt =====
-- `PayloadIndex` of storage/body.rs: a payload index with its postings.
use veclite.Base.{
  ℕ, ◌+◌, ◌^◌, ◌<◌, ◌≡◌, refl, sym, ap, ◌∙◌, String, some, Option-cases, inl, inr, List, [], ◌∷◌,
  ◌++◌, append_assoc, append-nil, arith, Bytes, All, length, drop, get_elem?, ltb, length-append,
  drop_next,
}
use veclite.Error.{Result, ok, corrupt, ◌>>=◌, ◌>>◌, ok_or, guard, Result-cases}
use veclite.Utf8.{as_bytes, from_utf8, from_utf8-as_bytes}
use veclite.Storage.Le.{to_le, u16, u32, u16_at, u32_at, length-to_le}
use veclite.Storage.Msgpack.{slice}
use veclite.Storage.Body.{Coder}
use veclite.Storage.Body.Fields.{drop_le, le_fits, slice_at}
use veclite.Storage.Body.Loops.{write_each, read_each, write_each-Written, read_each-Written}

pub record PayloadIndex (Bitmap : Type 0) : Type 0 where
  pub kind : ℕ
  pub key : String
  pub postings : List (Bytes × Bitmap)

module _ {Bitmap : Type 0} (roaring : Coder Bitmap) where
  unfoldable pub write_posting : Bytes × Bitmap → Result Bytes
  write_posting (value, bitmap) = do
    guard (ltb (length value) (2 ^ 32)) (corrupt "pidx: value too long")
    bm ← ok_or (roaring.write bitmap) (corrupt "pidx: {}")
    guard (ltb (length bm) (2 ^ 32)) (corrupt "pidx: bitmap too large")
    ok (to_le 4 (length value) ++ (value ++ (to_le 4 (length bm) ++ bm)))

  unfoldable pub encode : PayloadIndex Bitmap → Result Bytes
  unfolding write_posting
  encode i = do
    guard (ltb (length (as_bytes i.key)) (2 ^ 16)) (corrupt "pidx: key exceeds 64 KiB")
    guard (ltb (length i.postings) (2 ^ 32)) (corrupt "pidx: too many postings")
    postings ← write_each write_posting i.postings
    ok (
        (i.kind ∷ [])
        ++ (to_le 2 (length (as_bytes i.key))
            ++ (as_bytes i.key ++ (to_le 4 (length i.postings) ++ postings))))

  unfoldable pub read_posting : Bytes → ℕ → Result ((Bytes × Bitmap) × ℕ)
  read_posting b at = do
    vl ← u32 b at "pidx"
    value ← slice b (at + 4) vl
    bl ← u32 b (at + 4 + vl) "pidx"
    bm ← slice b (at + 4 + vl + 4) bl
    bitmap ← ok_or (roaring.read bm) (corrupt "pidx: {}")
    ok ((value, bitmap), at + 4 + vl + 4 + bl)

  unfoldable pub decode : Bytes → Result (PayloadIndex Bitmap)
  unfolding read_posting
  decode b = do
    kind ← ok_or (get_elem? b 0) (corrupt "pidx: empty body")
    key_len ← u16 b 1 "pidx"
    name ← slice b 3 key_len
    key ← ok_or (from_utf8 name) (corrupt "pidx: key not utf-8")
    count ← u32 b (3 + key_len) "pidx"
    r ← read_each read_posting count b (3 + key_len + 4)
    ok (record { kind = kind; key = key; postings = r.0 })

  write_posting_inv :
      (value : Bytes) (bitmap : Bitmap) (item : Bytes)
      → write_posting (value, bitmap) ≡ ok item
      → (bm : Bytes) × (roaring.write bitmap ≡ some bm)
        × (length value < 2 ^ 32)
        × (length bm < 2 ^ 32)
        × (item ≡ to_le 4 (length value) ++ (value ++ (to_le 4 (length bm) ++ bm)))
  unfolding write_posting
  write_posting_inv value bitmap item h = elim (Option-cases (roaring.write bitmap)) [
    | inl e ↦ ground arith
    | inr (bm, e) ↦ (bm, e, ground arith, ground arith, ground arith)
  ]

  module _ (value bm buf rest : Bytes) (at : ℕ)
      (h : drop at buf ≡ to_le 4 (length value) ++ (value ++ (to_le 4 (length bm) ++ (bm ++ rest))))
      (lv : length value < 2 ^ 32) (lb : length bm < 2 ^ 32) where
    at_value : drop (at + 4) buf ≡ value ++ (to_le 4 (length bm) ++ (bm ++ rest))
    at_value = drop_le buf _ at 4 (length value) (at + 4) h refl

    at_bl : drop (at + 4 + length value) buf ≡ to_le 4 (length bm) ++ (bm ++ rest)
    at_bl = drop_next buf value _ (at + 4) (length value) (at + 4 + length value) at_value refl refl

    at_bm : drop (at + 4 + length value + 4) buf ≡ bm ++ rest
    at_bm =
        drop_le buf _ (at + 4 + length value) 4 (length bm) (at + 4 + length value + 4) at_bl refl

    read_posting_lem :
        (bitmap : Bitmap)
        → roaring.write bitmap ≡ some bm
        → read_posting buf at ≡ ok ((value, bitmap), at + 4 + length value + 4 + length bm)
    unfolding read_posting
    read_posting_lem bitmap w =
        rw
          (
            u32_at buf _ at (length value) "pidx" h lv,
            slice_at buf value _ (at + 4) (length value) at_value refl
                (le_fits buf _ at 4 (length value) h (omega arith)),
            u32_at buf _ (at + 4 + length value) (length bm) "pidx" at_bl lb,
            slice_at buf bm rest (at + 4 + length value + 4) (length bm) at_bm refl
                (le_fits buf _ (at + 4 + length value) 4 (length bm) at_bl (omega arith)),
            roaring.round_trip bitmap bm w,
          )
          refl

  reads_posting :
      (p : Bytes × Bitmap) (item buf rest : Bytes) (at : ℕ)
      → Unit {0} × (write_posting p ≡ ok item)
      → drop at buf ≡ item ++ rest
      → read_posting buf at ≡ ok (p, at + length item)
  reads_posting (value, bitmap) item buf rest at (_, w) h =
      let (bm, written, lv, lb, shape) = write_posting_inv value bitmap item w in
      let here : drop at buf
          ≡ to_le 4 (length value) ++ (value ++ (to_le 4 (length bm) ++ (bm ++ rest))) =
        h ∙ ap (λ t. t ++ rest) shape ∙ simp append_assoc in
      let size : at + 4 + length value + 4 + length bm ≡ at + length item = omega (
        arith,
        ap length shape,
        length-append (to_le 4 (length value)) (value ++ (to_le 4 (length bm) ++ bm)),
        length-append value (to_le 4 (length bm) ++ bm),
        length-append (to_le 4 (length bm)) bm,
        length-to_le 4 (length value),
        length-to_le 4 (length bm),
      ) in
      read_posting_lem value bm buf rest at here lv lb bitmap written
      ∙ ap (λ (j : ℕ). ok ((value, bitmap), j)) size

  any : (ps : List (Bytes × Bitmap)) → All (λ p. Unit {0}) ps
  any [] = tt
  any (p ∷ ps) = (tt, any ps)

  encode_inv :
      (i : PayloadIndex Bitmap) (bytes : Bytes)
      → encode i ≡ ok bytes
      → (ps : Bytes) × (write_each write_posting i.postings ≡ ok ps)
        × (length (as_bytes i.key) < 2 ^ 16)
        × (length i.postings < 2 ^ 32)
        × (bytes
            ≡ (i.kind ∷ [])
              ++ (to_le 2 (length (as_bytes i.key))
                  ++ (as_bytes i.key ++ (to_le 4 (length i.postings) ++ ps))))
  unfolding encode
  encode_inv i bytes h = elim (Result-cases (write_each write_posting i.postings)) [
    | inl (ps, e) ↦ (ps, e, ground arith, ground arith, ground arith)
    | inr (_, e) ↦ ground arith
  ]

  module _ (i : PayloadIndex Bitmap) (key ps bytes : Bytes) (kept : from_utf8 key ≡ some i.key)
      (written : write_each write_posting i.postings ≡ ok ps) (lk : length key < 2 ^ 16)
      (lp : length i.postings < 2 ^ 32)
      (h : bytes
        ≡ (i.kind ∷ [])
          ++ (to_le 2 (length key) ++ (key ++ (to_le 4 (length i.postings) ++ ps)))) where
    at_key_len : drop 1 bytes ≡ to_le 2 (length key) ++ (key ++ (to_le 4 (length i.postings) ++ ps))
    at_key_len = ap (drop 1) h

    at_key : drop 3 bytes ≡ key ++ (to_le 4 (length i.postings) ++ ps)
    at_key = drop_le bytes _ 1 2 (length key) 3 at_key_len refl

    at_count : drop (3 + length key) bytes ≡ to_le 4 (length i.postings) ++ (ps ++ [])
    at_count =
        drop_next bytes key _ 3 (length key) (3 + length key) at_key refl refl
        ∙ ap (λ t. to_le 4 (length i.postings) ++ t) (sym (append-nil ps))

    at_postings : drop (3 + length key + 4) bytes ≡ ps ++ []
    at_postings =
        drop_le bytes _ (3 + length key) 4 (length i.postings) (3 + length key + 4) at_count refl

    postings_read :
        read_each read_posting (length i.postings) bytes (3 + length key + 4)
        ≡ ok (i.postings, 3 + length key + 4 + length ps)
    postings_read =
        read_each-Written read_posting (λ p b. Unit {0} × (write_posting p ≡ ok b)) reads_posting
          i.postings ps bytes [] (3 + length key + 4)
          (write_each-Written (λ p. Unit {0}) write_posting i.postings ps written (any i.postings))
          at_postings

    decode_lem : decode bytes ≡ ok i
    unfolding decode
    decode_lem =
        rw
          (
            ap (λ b. get_elem? b 0) h,
            u16_at bytes _ 1 (length key) "pidx" at_key_len lk,
            slice_at bytes key _ 3 (length key) at_key refl
                (le_fits bytes _ 1 2 (length key) at_key_len (omega arith)),
            kept,
            u32_at bytes _ (3 + length key) (length i.postings) "pidx" at_count lp,
            postings_read,
          )
          refl

  -- An index that was encoded decodes to itself.
  pub decode-encode_index :
      (i : PayloadIndex Bitmap) (bytes : Bytes) → encode i ≡ ok bytes → decode bytes ≡ ok i
  decode-encode_index i bytes h =
      let (ps, written, lk, lp, shape) = encode_inv i bytes h in
      decode_lem i (as_bytes i.key) ps bytes (from_utf8-as_bytes i.key) written lk lp shape
