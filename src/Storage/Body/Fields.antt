-- ===== src/Storage/Body/Fields.antt =====
-- Fields behind one another in a buffer, as the codecs of storage/body.rs read them.
use veclite.Base.{
  ℕ, ◌+◌, ◌≤◌, ◌<◌, ◌≡◌, refl, ◌++◌, arith, Bytes, length, drop, leb_of_le, drop_next, fits,
  take_next, length-drop, length-append, ap,
}
use veclite.Error.{ok}
use veclite.Storage.Le.{to_le, length-to_le}
use veclite.Storage.Msgpack.{slice}

-- Behind a number of `n` bytes.
pub drop_le :
    (buf rest : Bytes) (at n v k : ℕ)
    → drop at buf ≡ to_le n v ++ rest
    → k ≡ at + n
    → drop k buf ≡ rest
drop_le buf rest at n v k h e = drop_next buf (to_le n v) rest at n k h (length-to_le n v) e

-- A number of `n` bytes ends inside the buffer.
pub le_fits :
    (buf rest : Bytes) (at n v : ℕ) → drop at buf ≡ to_le n v ++ rest → 0 < n → at + n ≤ length buf
le_fits buf rest at n v h p = fits buf (to_le n v) rest at n h (length-to_le n v) p

-- A slice is the field that stands there.
pub slice_at :
    (buf xs rest : Bytes) (at n : ℕ)
    → drop at buf ≡ xs ++ rest
    → length xs ≡ n
    → at ≤ length buf
    → slice buf at n ≡ ok xs
unfolding slice
slice_at buf xs rest at n h e l =
    let inside : at + n ≤ length buf =
      omega (arith, length-drop at buf, ap length h, length-append xs rest) in
    rw (leb_of_le (at + n) (length buf) inside, take_next buf xs rest at n h e) refl
