-- ===== src/Storage/Iddir.antt =====
-- crates/veclite/src/storage/iddir.rs: the directory from ids to slots. The hash of the crate
-- xxhash_rust is a parameter. A length is written by `as`, which wraps.
pub mod Lookup
pub mod RoundTrip
use veclite.Base.{
  ℕ, zero, suc, ◌+◌, ◌%◌, ◌^◌, max, String, Option, none, some, List, [], ◌∷◌, ◌++◌, Bytes, length,
  take, drop, leb, get_or, set, replicate, not, ◌==◌, same, if◌then◌else◌,
}
use veclite.Error.{Result, ok, corrupt, ◌>>=◌, ◌>>◌, ok_or, guard}
use veclite.Utf8.{as_bytes, from_utf8}
use veclite.Storage.Le.{to_le, u16, u32, u64}
use veclite.Storage.Body.Loops.{concat_each, read_each}

pub record IdDir : Type 0 where
  pub buckets : List (List (String × ℕ))

unfoldable pub new : ℕ → IdDir
new bucket_count = record { buckets = replicate (max bucket_count 1) [] }

-- `iter().find(..)`
unfoldable pub find : String → List (String × ℕ) → Option ℕ
find id [] = none
find id ((k, slot) ∷ rest) = if same k id then some slot else find id rest

module _ (xxh64 : Bytes → ℕ) where
  unfoldable pub bucket_of : IdDir → String → ℕ
  bucket_of d id = xxh64 (as_bytes id) % length d.buckets

  unfoldable pub insert : IdDir → String → ℕ → IdDir
  unfolding bucket_of
  insert d id slot =
      let b = bucket_of d id in
      record { buckets = set d.buckets b (get_or d.buckets b [] ++ (id, slot) ∷ []) }

  unfoldable pub get : IdDir → String → Option ℕ
  unfolding bucket_of find
  get d id = find id (get_or d.buckets (bucket_of d id) [])

unfoldable pub flatten : List (List (String × ℕ)) → List (String × ℕ)
flatten [] = []
flatten (b ∷ bs) = b ++ flatten bs

unfoldable pub entries : IdDir → List (String × ℕ)
unfolding flatten
entries d = flatten d.buckets

sum_lengths : List (List (String × ℕ)) → ℕ
sum_lengths [] = 0
sum_lengths (b ∷ bs) = length b + sum_lengths bs

unfoldable pub len : IdDir → ℕ
unfolding sum_lengths
len d = sum_lengths d.buckets

unfoldable pub write_entry : String × ℕ → Bytes
write_entry (id, slot) = to_le 2 (length (as_bytes id) % 2 ^ 16) ++ (as_bytes id ++ to_le 8 slot)

unfoldable pub write_bucket : List (String × ℕ) → Bytes
unfolding write_entry
write_bucket bucket = to_le 4 (length bucket % 2 ^ 32) ++ concat_each write_entry bucket

unfoldable pub encode : IdDir → Bytes
unfolding write_bucket
encode d = to_le 4 (length d.buckets % 2 ^ 32) ++ concat_each write_bucket d.buckets

unfoldable pub read_entry : Bytes → ℕ → Result ((String × ℕ) × ℕ)
read_entry bytes at = do
  id_len ← u16 bytes at "iddir"
  guard (leb (at + 2 + id_len) (length bytes)) (corrupt "iddir: id past end")
  id ← ok_or (from_utf8 (take id_len (drop (at + 2) bytes))) (corrupt "iddir: id not utf-8")
  slot ← u64 bytes (at + 2 + id_len) "iddir"
  ok ((id, slot), at + 2 + id_len + 8)

unfoldable pub read_bucket : Bytes → ℕ → Result (List (String × ℕ) × ℕ)
unfolding read_entry
read_bucket bytes at = do
  entry_count ← u32 bytes at "iddir"
  read_each read_entry entry_count bytes (at + 4)

unfoldable pub decode : Bytes → Result IdDir
unfolding read_bucket
decode bytes = do
  bucket_count ← u32 bytes 0 "iddir"
  guard (not (bucket_count == 0)) (corrupt "iddir: zero buckets")
  r ← read_each read_bucket bucket_count bytes 4
  ok (record { buckets = r.0 })
