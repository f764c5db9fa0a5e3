-- ===== src/Storage/File.antt =====
-- Files as the lists of their bytes: what `seek` with `write_all`, and `set_len`, do to one. The
-- calls of std::fs are taken to succeed; a crash is modelled by a cut of the file's bytes.
use veclite.Base.{
  ℕ, ◌+◌, ◌-◌, ◌≤◌, ◌≡◌, refl, ap, ◌∙◌, ◌++◌, append-nil, arith, Bytes, length, take, drop,
  replicate, take_all, drop_all,
}

-- A write behind the end fills the gap with zeros.
unfoldable pub write_at : ℕ → Bytes → Bytes → Bytes
write_at off bytes file =
    take off file ++ (replicate (off - length file) 0 ++ (bytes ++ drop (off + length bytes) file))

unfoldable pub set_len : ℕ → Bytes → Bytes
set_len n file = take n file ++ replicate (n - length file) 0

no_gap : (n : ℕ) (bytes : Bytes) → n ≡ 0 → replicate n 0 ++ bytes ≡ bytes
no_gap n bytes e = ap (λ t. replicate t 0 ++ bytes) e

pub write_at_end : (bytes file : Bytes) → write_at (length file) bytes file ≡ file ++ bytes
unfolding write_at
write_at_end bytes file =
    rw
      (
        take_all (length file) file (omega arith),
        no_gap (length file - length file) (bytes ++ drop (length file + length bytes) file)
            (omega arith),
        drop_all (length file + length bytes) file (omega arith),
        append-nil bytes,
      )
      refl

-- A write inside a file replaces what it covers and nothing else.
pub write_at_inside :
    (off : ℕ) (bytes file : Bytes)
    → off ≤ length file
    → write_at off bytes file ≡ take off file ++ (bytes ++ drop (off + length bytes) file)
unfolding write_at
write_at_inside off bytes file h =
    ap (λ t. take off file ++ t)
      (no_gap (off - length file) (bytes ++ drop (off + length bytes) file) (omega arith))

pub write_at_start :
    (bytes file : Bytes) → write_at 0 bytes file ≡ bytes ++ drop (length bytes) file
write_at_start bytes file =
    let n : 0 + length bytes ≡ length bytes = omega arith in
    write_at_inside 0 bytes file (omega arith) ∙ ap (λ t. bytes ++ drop t file) n
