-- ===== src/Storage/Le.antt =====
-- crates/veclite/src/storage/mod.rs, module `le`: little-endian readers over a byte slice.
-- `to_le n v` is `to_le_bytes` at a width of `n` bytes.
use veclite.Base.{
  ℕ, zero, suc, ◌+◌, ◌*◌, ◌/◌, ◌%◌, ◌^◌, ◌<◌, ◌≤◌, String, ◌≡◌, refl, sym, ap, ◌∙◌, drop-drop,
  drop-append_le, take-append_le, length-drop, [], ◌∷◌, ◌++◌, arith, Bytes, All, length, take, drop,
  ltb, le→ltb, if◌then◌else◌, take_next, fits,
}
use native.Mathlib.Nat.{pow-suc}
use veclite.Error.{Result, ok, err, corrupt, ◌>>◌}

unfoldable pub to_le : ℕ → ℕ → Bytes
to_le zero v = []
to_le (suc n) v = (v % 256) ∷ to_le n (v / 256)

unfoldable pub from_le : Bytes → ℕ
from_le [] = 0
from_le (b ∷ bs) = b + 256 * from_le bs

unfoldable pub need : Bytes → ℕ → ℕ → String → Result (Unit {0})
need buf at n ctx = if ltb (length buf) (at + n) then err (corrupt ctx) else ok tt

unfoldable pub u16 : Bytes → ℕ → String → Result ℕ
unfolding need
u16 buf at ctx = do need buf at 2 ctx; ok (from_le (take 2 (drop at buf)))

unfoldable pub u32 : Bytes → ℕ → String → Result ℕ
unfolding need
u32 buf at ctx = do need buf at 4 ctx; ok (from_le (take 4 (drop at buf)))

unfoldable pub u64 : Bytes → ℕ → String → Result ℕ
unfolding need
u64 buf at ctx = do need buf at 8 ctx; ok (from_le (take 8 (drop at buf)))

pub length-to_le : (n v : ℕ) → length (to_le n v) ≡ n
unfolding to_le
length-to_le zero v = refl
length-to_le (suc n) v = ap suc (length-to_le n (v / 256))

pub to_le-IsByte : (n v : ℕ) → All (λ b. b < 256) (to_le n v)
unfolding to_le
to_le-IsByte zero v = tt
to_le-IsByte (suc n) v = (omega arith, to_le-IsByte n (v / 256))

shifted_lt : (n v : ℕ) → v < 256 ^ suc n → v / 256 < 256 ^ n
shifted_lt n v h = omega (arith, pow-suc 256 n)

-- A number below 256 ^ n is read back from its n bytes.
pub from_le-to_le : (n v : ℕ) → v < 256 ^ n → from_le (to_le n v) ≡ v
unfolding from_le to_le
from_le-to_le zero v h = omega arith
from_le-to_le (suc n) v h =
    omega (arith, ap (λ (t : ℕ). 256 * t) (from_le-to_le n (v / 256) (shifted_lt n v h)))

-- A field that stands at an offset is read back, whatever follows it.
module _ (buf rest : Bytes) (at v : ℕ) (ctx : String) where
  pub u16_at : drop at buf ≡ to_le 2 v ++ rest → v < 2 ^ 16 → u16 buf at ctx ≡ ok v
  unfolding u16
  u16_at h r = rw (le→ltb _ _ (fits buf (to_le 2 v) rest at 2 h (length-to_le 2 v) (omega arith))) (
      rw (take_next buf (to_le 2 v) rest at 2 h (length-to_le 2 v))
        (ap ok (from_le-to_le 2 v (omega arith))))

  pub u32_at : drop at buf ≡ to_le 4 v ++ rest → v < 2 ^ 32 → u32 buf at ctx ≡ ok v
  unfolding u32
  u32_at h r = rw (le→ltb _ _ (fits buf (to_le 4 v) rest at 4 h (length-to_le 4 v) (omega arith))) (
      rw (take_next buf (to_le 4 v) rest at 4 h (length-to_le 4 v))
        (ap ok (from_le-to_le 4 v (omega arith))))

  pub u64_at : drop at buf ≡ to_le 8 v ++ rest → v < 2 ^ 64 → u64 buf at ctx ≡ ok v
  unfolding u64
  u64_at h r = rw (le→ltb _ _ (fits buf (to_le 8 v) rest at 8 h (length-to_le 8 v) (omega arith))) (
      rw (take_next buf (to_le 8 v) rest at 8 h (length-to_le 8 v))
        (ap ok (from_le-to_le 8 v (omega arith))))

-- A read that succeeds lies inside the buffer.
pub u64_fits :
    (buf : Bytes) (at : ℕ) (ctx : String) {v : ℕ} → u64 buf at ctx ≡ ok v → at + 8 ≤ length buf
unfolding u64
u64_fits buf at ctx h = ground arith

-- A read inside a window of the buffer is the read of the window.
module _ (buf w rest : Bytes) (at k j : ℕ) (ctx : String) (h : drop at buf ≡ w ++ rest)
    (p : j ≡ at + k) where
  pub window_fits : (n : ℕ) → 0 < n → k + n ≤ length w → j + n ≤ length buf
  window_fits n q l = omega (arith, fits buf w rest at (length w) h refl (omega arith))

  pub window_take : (n : ℕ) → k + n ≤ length w → take n (drop j buf) ≡ take n (drop k w)
  window_take n l =
      ap (λ t. take n (drop t buf)) p
      ∙ ap (take n)
          (sym (drop-drop at k buf) ∙ ap (drop k) h ∙ drop-append_le k w rest (omega arith))
      ∙ take-append_le n (drop k w) rest (omega (arith, length-drop k w))

  pub u16-window : k + 2 ≤ length w → u16 buf j ctx ≡ u16 w k ctx
  unfolding u16
  u16-window l = rw (le→ltb _ _ (window_fits 2 (omega arith) l), le→ltb _ _ l, window_take 2 l) refl

  pub u32-window : k + 4 ≤ length w → u32 buf j ctx ≡ u32 w k ctx
  unfolding u32
  u32-window l = rw (le→ltb _ _ (window_fits 4 (omega arith) l), le→ltb _ _ l, window_take 4 l) refl

  pub u64-window : k + 8 ≤ length w → u64 buf j ctx ≡ u64 w k ctx
  unfolding u64
  u64-window l = rw (le→ltb _ _ (window_fits 8 (omega arith) l), le→ltb _ _ l, window_take 8 l) refl
