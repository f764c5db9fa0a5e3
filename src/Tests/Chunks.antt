-- ===== src/Tests/Chunks.antt =====
-- The theorems on the chunker, on two short texts.
use veclite.Base.{ℕ, ◌≡◌, ◌-◌, refl, String, none, some, List, [], ◌∷◌, arith, usize_limit}
use veclite.Chunk.{
  Chunk, ChunkOptions, chunk, chunk_loop, chunk_loop_rest, step_back, rfind, is_break,
}
use veclite.Chunk.Bounds.{AllChunks, chunk-AllChunks}
use veclite.Chunk.Progress.{chunk_loop-drops}
use veclite.Point.{is_whitespace}

abbrev options : ChunkOptions
options = record { max_chars = 10; overlap = 2 }

abbrev words : String
words = "the quick brown fox"

abbrev one_chunk : ℕ → ℕ → String → Chunk
one_chunk start end text = record { text = text; start = start; end = end }

words_chunks :
    chunk options words
    ≡ some (
        one_chunk 0 9 "the quick"
        ∷ one_chunk 8 15 "k brown"
        ∷ one_chunk 14 19 "n fox"
        ∷ one_chunk 17 19 "ox"
        ∷ [])
unfolding chunk chunk_loop chunk_loop_rest
words_chunks = refl

-- In the second round, `start + max` overflows.
words_overflow : chunk (record { max_chars = usize_limit - 1; overlap = 2 }) words ≡ none
unfolding chunk chunk_loop chunk_loop_rest
words_overflow = refl

chunk-AllChunks_example :
    (cs : List Chunk) × (chunk options words ≡ some cs) × AllChunks words 10 cs
chunk-AllChunks_example = chunk-AllChunks options words (omega arith)

-- An em space before a long word.
abbrev spaced : String
spaced = "\u{2003}aaaaaaaaaaaaaaa"

spaced_break : rfind spaced (is_break spaced) 0 8 ≡ some 0
unfolding rfind is_break is_whitespace
spaced_break = refl

chunk_loop-drops_example : chunk_loop spaced 18 8 0 0 ≡ some []
unfolding step_back
chunk_loop-drops_example =
    chunk_loop-drops spaced 18 8 0 0 (omega arith) (omega arith) refl refl spaced_break
