-- ===== src/Storage/Iddir/RoundTrip.antt =====
-- The bytes of an id directory of storage/iddir.rs, written and read.
use veclite.Base.{
  ℕ, ◌+◌, ◌%◌, ◌^◌, ◌<◌, ◌≡◌, refl, sym, ap, ◌∙◌, String, not, ◌==◌, true, List, [], ◌++◌,
  append_assoc, append-nil, arith, Bytes, All, length, drop, length-append, drop_next, take_next,
  leb_of_le,
}
use veclite.Error.{ok}
use veclite.Utf8.{as_bytes, from_utf8-as_bytes}
use veclite.Storage.Le.{to_le, u16_at, u32_at, u64_at, length-to_le}
use veclite.Storage.Body.Fields.{drop_le, le_fits}
use veclite.Storage.Body.Loops.{concat_each, concat_each-Written, read_each-Written}
use veclite.Storage.Iddir.{
  IdDir, write_entry, write_bucket, encode, read_entry, read_bucket, decode,
}

abbrev pub EntryInRange : String × ℕ → Type 0
EntryInRange (id, slot) = (length (as_bytes id) < 2 ^ 16) × (slot < 2 ^ 64)

abbrev pub BucketInRange : List (String × ℕ) → Type 0
BucketInRange bucket = (length bucket < 2 ^ 32) × All EntryInRange bucket

mod_small : (n m : ℕ) → n < m → n % m ≡ n
mod_small n m h = grind arith

reads_entry :
    (e : String × ℕ) (item buf rest : Bytes) (at : ℕ)
    → EntryInRange e × (item ≡ write_entry e)
    → drop at buf ≡ item ++ rest
    → read_entry buf at ≡ ok (e, at + length item)
unfolding read_entry write_entry
reads_entry (id, slot) item buf rest at ((lk, ls), e) h =
    let name : Bytes = as_bytes id in
    let shape : item ≡ to_le 2 (length name) ++ (name ++ to_le 8 slot) =
      e ∙ ap (λ n. to_le 2 n ++ (name ++ to_le 8 slot)) (mod_small (length name) (2 ^ 16) lk) in
    let here : drop at buf ≡ to_le 2 (length name) ++ (name ++ (to_le 8 slot ++ rest)) =
      h ∙ ap (λ t. t ++ rest) shape ∙ simp append_assoc in
    let at_name = drop_le buf _ at 2 (length name) (at + 2) here refl in
    let at_slot =
      drop_next buf name _ (at + 2) (length name) (at + 2 + length name) at_name refl refl in
    let end : at + 2 + length name + 8 ≡ at + length item = omega (
      arith,
      ap length shape,
      length-append (to_le 2 (length name)) (name ++ to_le 8 slot),
      length-append name (to_le 8 slot),
      length-to_le 2 (length name),
      length-to_le 8 slot,
    ) in
    rw
      (
        u16_at buf _ at (length name) "iddir" here lk,
        leb_of_le (at + 2 + length name) (length buf)
            (omega (arith, le_fits buf rest (at + 2 + length name) 8 slot at_slot (omega arith))),
        take_next buf name _ (at + 2) (length name) at_name refl,
        from_utf8-as_bytes id,
        u64_at buf rest (at + 2 + length name) slot "iddir" at_slot ls,
        end,
      )
      refl

reads_bucket :
    (b : List (String × ℕ)) (item buf rest : Bytes) (at : ℕ)
    → BucketInRange b × (item ≡ write_bucket b)
    → drop at buf ≡ item ++ rest
    → read_bucket buf at ≡ ok (b, at + length item)
unfolding read_bucket write_bucket
reads_bucket b item buf rest at ((lb, le), e) h =
    let body : Bytes = concat_each write_entry b in
    let shape : item ≡ to_le 4 (length b) ++ body =
      e ∙ ap (λ n. to_le 4 n ++ body) (mod_small (length b) (2 ^ 32) lb) in
    let here : drop at buf ≡ to_le 4 (length b) ++ (body ++ rest) =
      h ∙ ap (λ t. t ++ rest) shape ∙ append_assoc (to_le 4 (length b)) body rest in
    let all =
      read_each-Written read_entry (λ p x. EntryInRange p × (x ≡ write_entry p)) reads_entry b body
        buf rest (at + 4) (concat_each-Written EntryInRange write_entry b le)
        (drop_le buf _ at 4 (length b) (at + 4) here refl) in
    let end : at + 4 + length body ≡ at + length item = omega (
      arith,
      ap length shape,
      length-append (to_le 4 (length b)) body,
      length-to_le 4 (length b),
    ) in
    rw (u32_at buf _ at (length b) "iddir" here lb, all, end) refl

-- A directory decodes from its bytes, where its lengths fit their fields and there is a bucket.
pub decode-encode_dir :
    (d : IdDir)
    → 0 < length d.buckets
    → length d.buckets < 2 ^ 32
    → All BucketInRange d.buckets
    → decode (encode d) ≡ ok d
unfolding decode encode
decode-encode_dir d p l r =
    let body : Bytes = concat_each write_bucket d.buckets in
    let bytes : Bytes = encode d in
    let here : drop 0 bytes ≡ to_le 4 (length d.buckets) ++ (body ++ []) =
      ap (λ n. to_le 4 n ++ body) (mod_small (length d.buckets) (2 ^ 32) l)
      ∙ ap (λ t. to_le 4 (length d.buckets) ++ t) (sym (append-nil body)) in
    let all =
      read_each-Written read_bucket (λ b x. BucketInRange b × (x ≡ write_bucket b)) reads_bucket
        d.buckets body bytes [] 4 (concat_each-Written BucketInRange write_bucket d.buckets r)
        (drop_le bytes _ 0 4 (length d.buckets) 4 here refl) in
    let some_bucket : not (length d.buckets == 0) ≡ true = ground arith in
    rw (u32_at bytes _ 0 (length d.buckets) "iddir" here l, some_bucket, all) refl
