-- ===== src/Chunk/Progress.antt =====
-- The rounds of the loop of chunk.rs: enough fuel, and a text that it gives up on.
use Prim.Native.String.{len}
use text.Mathlib.Text.{is_char_boundary}
use veclite.Base.{
  ℕ, zero, suc, ◌+◌, ◌-◌, ◌≤◌, ◌<◌, ◌≡◌, refl, ap, min, String, Bool, true, false, leb, leb_of_le,
  lt→ltb, le→ltb, some, [], if◌then◌else◌, arith, usize_limit,
}
use veclite.Chunk.{
  is_break, step_back, rfind, trim_start, step_forward, trimmed, break_at, chunk_end, next_start,
  chunk_loop, chunk_loop_rest, end_within,
}

module _ (text : String) where
  step_back_here : (start : ℕ) → step_back text start start ≡ start
  unfolding step_back
  step_back_here zero = refl
  step_back_here (suc start) = rw (le→ltb (suc start) (suc start) (omega arith)) refl

  step_back_once :
      (start : ℕ)
      → is_char_boundary text (suc start) ≡ false
      → step_back text start (suc start) ≡ start
  unfolding step_back
  step_back_once start h = rw (lt→ltb start (suc start) (omega arith), h) (step_back_here start)

  step_forward_here :
      (n start : ℕ) → is_char_boundary text start ≡ true → step_forward text n start ≡ start
  unfolding step_forward
  step_forward_here zero start h = refl
  step_forward_here (suc n) start h = rw (h) refl

  no_chunk :
      (limit start : ℕ)
      → start + limit < len text
      → is_char_boundary text (suc start) ≡ false
      → rfind text (is_break text) start (step_back text start (start + limit) - start) ≡ some 0
      → len text ≤ usize_limit
      → chunk_end text limit start ≡ some start
  unfolding chunk_end end_within break_at
  no_chunk limit start inside there last small =
      let at_limit : min (start + limit) (len text) ≡ start + limit = omega arith in
      let one_more : start + 0 + 1 ≡ suc start = omega arith in
      rw
        (
          lt→ltb (start + limit) usize_limit (omega (arith, inside)),
          at_limit,
          lt→ltb (start + limit) (len text) inside,
          last,
          one_more,
        )
        (ap some (step_back_once start there))

  no_progress :
      (overlap start : ℕ)
      → is_char_boundary text start ≡ true
      → next_start text overlap start start ≡ start
  unfolding next_start
  no_progress overlap start here =
      let back : leb (if leb overlap start then start - overlap else start) start ≡ true =
        leb_of_le _ start (at_most (leb overlap start)) in
      rw (back) (step_forward_here (len text - start) start here)
    where
      at_most : (b : Bool) → (if b then start - overlap else start) ≤ start
      at_most true = omega arith
      at_most false = omega arith

  -- Where the text, of a length that fits a `usize`, goes on behind the limit, and the last break in reach is a character of several
  -- bytes at the start of the chunk, the loop ends without a chunk and drops the rest of the text.
  pub chunk_loop-drops :
      (fuel limit overlap start : ℕ)
      → len text ≤ usize_limit
      → start + limit < len text
      → is_char_boundary text start ≡ true
      → is_char_boundary text (suc start) ≡ false
      → rfind text (is_break text) start (step_back text start (start + limit) - start) ≡ some 0
      → chunk_loop text fuel limit overlap start ≡ some []
  unfolding chunk_loop chunk_loop_rest trimmed trim_start
  chunk_loop-drops zero limit overlap start small inside here there last = refl
  chunk_loop-drops (suc fuel) limit overlap start small inside here there last =
      let none_left : start - start ≡ 0 = omega arith in
      rw
        (
          no_chunk limit start inside there last small,
          lt→ltb start (len text) (omega (arith, inside)),
          none_left,
          no_progress overlap start here,
          leb_of_le start start (omega arith),
        )
        refl
