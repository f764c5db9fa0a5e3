-- ===== src/Chunk.antt =====
-- crates/veclite/src/chunk.rs: the text chunker, on byte positions of the text. `none` is its panic: where
-- `start + max` overflows a `usize`, a debug build panics on the addition, and a release build, where the
-- sum wraps around to less than `start`, on the slice `text[start..end]`.
pub mod Bounds
pub mod Progress
use Prim.Native.Char.{code}
use Prim.Native.String.{len, char_at, slice}
use text.Mathlib.Text.{is_char_boundary}
use veclite.Base.{
  ℕ, zero, suc, ◌+◌, ◌-◌, min, max, String, Bool, true, false, not, ◌&&◌, ◌||◌, ◌==◌, ltb, leb,
  Option, none, some, List, [], ◌∷◌, ◌++◌, if◌then◌else◌, ◌>>=?◌, usize_limit,
}
use veclite.Point.{is_whitespace}

pub record ChunkOptions : Type 0 where
  pub max_chars : ℕ
  pub overlap : ℕ

-- `byte_range` is the two fields `start` and `end`.
pub record Chunk : Type 0 where
  pub text : String
  pub start : ℕ
  pub end : ℕ

-- The end of a round: the chunk of the round, and the further rounds unless there is no progress.
unfoldable pub chunk_loop_rest : List Chunk → Bool → Option (List Chunk) → Option (List Chunk)
chunk_loop_rest here true rest = some here
chunk_loop_rest here false rest = rest >>=? λ chunks. some (here ++ chunks)

module _ (text : String) where
  -- `c.is_whitespace() || c == '.' || c == '!' || c == '?' || c == '\n'`
  unfoldable pub is_break : ℕ → Bool
  unfolding is_whitespace
  is_break c = is_whitespace c || (c == 46) || (c == 33) || (c == 63) || (c == 10)

  -- `while end > start && !is_char_boundary(end) { end -= 1 }`
  unfoldable pub step_back : ℕ → ℕ → ℕ
  step_back start zero = zero
  step_back start (suc end) =
      let rest = step_back start end in
      if ltb start (suc end) && not (is_char_boundary text (suc end)) then rest else suc end

  -- `rfind` in `text[start..start + n]`: the offset of the last character that passes a test.
  unfoldable pub rfind : (ℕ → Bool) → ℕ → ℕ → Option ℕ
  rfind test start zero = none
  rfind test start (suc n) =
      let rest = rfind test start n in
      if is_char_boundary text (start + n) && test (code (char_at text (start + n)))
      then some n
      else rest

  -- The first of `n` positions from `start` on with a character that is not white space.
  unfoldable pub trim_start : ℕ → ℕ → Option ℕ
  unfolding is_whitespace
  trim_start start zero = none
  trim_start start (suc n) =
      let rest = trim_start (start + 1) n in
      if is_char_boundary text start && not (is_whitespace (code (char_at text start)))
      then some start
      else rest

  -- The next boundary from `next` on, with `n` bytes left.
  unfoldable pub step_forward : ℕ → ℕ → ℕ
  step_forward zero next = next
  step_forward (suc n) next =
      let rest = step_forward n (next + 1) in
      if not (is_char_boundary text next) then rest else next

  -- The end of the trimmed text: behind the last character that is not white space.
  unfoldable pub trim_end : ℕ → ℕ → Option ℕ → ℕ
  unfolding step_forward
  trim_end start end none = start
  trim_end start end (some p) = step_forward (end - (start + p + 1)) (start + p + 1)

  -- What is pushed for `text[start..end]`.
  unfoldable pub trimmed : ℕ → Option ℕ → List Chunk
  unfolding trim_end rfind is_whitespace
  trimmed end none = []
  trimmed end (some start) =
      let stop = trim_end start end (rfind (λ c. not (is_whitespace c)) start (end - start)) in
      record { text = slice text start stop; start = start; end = stop } ∷ []

  unfoldable pub break_at : ℕ → ℕ → Option ℕ → ℕ
  unfolding step_back
  break_at start end none = end
  break_at start end (some pos) = step_back start (start + pos + 1)

  -- The break before `end`, where the text goes on there.
  unfoldable pub end_within : ℕ → ℕ → ℕ
  unfolding step_back rfind break_at is_break
  end_within start end =
      if ltb end (len text)
      then (let boundary = step_back start end in
          break_at start boundary (rfind is_break start (boundary - start)))
      else end

  unfoldable pub chunk_end : ℕ → ℕ → Option ℕ
  unfolding end_within
  chunk_end limit start =
      if ltb (start + limit) usize_limit
      then some (end_within start (min (start + limit) (len text)))
      else none

  unfoldable pub next_start : ℕ → ℕ → ℕ → ℕ
  unfolding step_forward
  next_start overlap start end =
      let back = if leb overlap end then end - overlap else end in
      let next = if leb back start then end else back in step_forward (len text - next) next

  -- The loop `while start < text.len()`.
  unfoldable pub chunk_loop : ℕ → ℕ → ℕ → ℕ → Option (List Chunk)
  unfolding chunk_end trimmed trim_start next_start chunk_loop_rest
  chunk_loop zero limit overlap start = some []
  chunk_loop (suc fuel) limit overlap start =
      if ltb start (len text)
      then (chunk_end limit start >>=? λ end.
          chunk_loop_rest (trimmed end (trim_start start (end - start)))
            (leb (next_start overlap start end) start)
            (chunk_loop fuel limit overlap (next_start overlap start end)))
      else some []

unfoldable pub chunk : ChunkOptions → String → Option (List Chunk)
unfolding chunk_loop
chunk options text =
    let limit = max (options.max_chars) 1 in
    chunk_loop text (len text) limit (min (options.overlap) (limit - 1)) 0
