-- ===== src/Chunk/Bounds.antt =====
-- Bounds of the chunks of chunk.rs, and the end of its loop.
use Prim.Native.Char.{code}
use Prim.Native.String.{len, char_at, slice}
use text.Mathlib.Text.{is_char_boundary}
use veclite.Base.{
  ℕ, zero, suc, ◌+◌, ◌-◌, ◌≤◌, ◌<◌, ◌≡◌, refl, ap, sym, ◌∙◌, min, max, String, Bool, true, false,
  not, ◌&&◌, ltb, leb, ltb→lt, lt→ltb, Option, none, some, List, [], ◌∷◌, ◌++◌, if◌then◌else◌,
  Bool-cases, some_inj, inl, inr, arith, usize_limit,
}
use veclite.Point.{is_whitespace}
use veclite.Chunk.{
  Chunk, ChunkOptions, end_within, chunk_loop_rest, is_break, step_back, rfind, trim_start,
  step_forward, trim_end, trimmed, break_at, chunk_end, next_start, chunk_loop, chunk,
}

module _ (text : String) where
  step_back-le :
      (start end : ℕ)
      → start ≤ end
      → (start ≤ step_back text start end) × (step_back text start end ≤ end)
  unfolding step_back
  step_back-le start zero h = (h, omega arith)
  step_back-le start (suc end) h =
      elim (Bool-cases (ltb start (suc end) && not (is_char_boundary text (suc end)))) [
        | inl e ↦ let r = step_back-le start end (ground arith) in rw (e) (r.0, omega (arith, r.1))
        | inr e ↦ rw (e) (h, omega arith)
      ]

  rfind-lt : (test : ℕ → Bool) (start n p : ℕ) → rfind text test start n ≡ some p → p < n
  unfolding rfind
  rfind-lt test start zero p h = cc
  rfind-lt test start (suc n) p h =
      elim (Bool-cases
        (is_char_boundary text (start + n) && test (code (char_at text (start + n))))) [
          | inl e ↦
              let q =
                some_inj (sym (ap (λ b. if b then some n else rfind text test start n) e) ∙ h) in
              omega (arith, q)
          | inr e ↦
              let r =
                rfind-lt test start n p
                  (sym (ap (λ b. if b then some n else rfind text test start n) e) ∙ h) in
              omega (arith, r)
        ]

  trim_start-le : (start n a : ℕ) → trim_start text start n ≡ some a → (start ≤ a) × (a < start + n)
  unfolding trim_start
  trim_start-le start zero a h = cc
  trim_start-le start (suc n) a h =
      elim (Bool-cases
        (is_char_boundary text start && not (is_whitespace (code (char_at text start))))) [
          | inl e ↦
              let q =
                some_inj
                  (sym (ap (λ b. if b then some start else trim_start text (start + 1) n) e) ∙ h) in
              (omega (arith, q), omega (arith, q))
          | inr e ↦
              let r =
                trim_start-le (start + 1) n a
                  (sym (ap (λ b. if b then some start else trim_start text (start + 1) n) e) ∙ h) in
              (omega (arith, r.0), omega (arith, r.1))
        ]

  step_forward-le :
      (n next : ℕ) → (next ≤ step_forward text n next) × (step_forward text n next ≤ next + n)
  unfolding step_forward
  step_forward-le zero next = (omega arith, omega arith)
  step_forward-le (suc n) next = elim (Bool-cases (not (is_char_boundary text next))) [
    | inl e ↦
        let r = step_forward-le n (next + 1) in rw (e) (omega (arith, r.0), omega (arith, r.1))
    | inr e ↦ rw (e) (omega arith, omega arith)
  ]

  break_at-le :
      (start end : ℕ) (o : Option ℕ)
      → start ≤ end
      → ((p : ℕ) → o ≡ some p → p < end - start)
      → (start ≤ break_at text start end o) × (break_at text start end o ≤ end)
  unfolding break_at
  break_at-le start end none h lt = (h, omega arith)
  break_at-le start end (some p) h lt =
      let q = lt p refl in
      let r = step_back-le start (start + p + 1) (omega arith) in (r.0, omega (arith, r.1, q))

  end_within-le :
      (start end : ℕ)
      → start ≤ end
      → (start ≤ end_within text start end) × (end_within text start end ≤ end)
  unfolding end_within
  end_within-le start end le = elim (Bool-cases (ltb end (len text))) [
    | inl e ↦
        let b = step_back-le start end le in
        let r =
          break_at-le start (step_back text start end)
            (rfind text (is_break text) start (step_back text start end - start)) (b.0)
            (λ p q. rfind-lt (is_break text) start (step_back text start end - start) p q) in
        rw (e) (r.0, omega (arith, r.1, b.1))
    | inr e ↦ rw (e) (le, omega arith)
  ]

  -- The end of a chunk is there where no sum overflows, and lies between its start and what the options
  -- and the text allow.
  pub chunk_end-le :
      (limit start : ℕ)
      → limit + len text ≤ usize_limit
      → start < len text
      → (end : ℕ) × (chunk_end text limit start ≡ some end)
        × (start ≤ end)
        × (end ≤ start + limit)
        × (end ≤ len text)
  unfolding chunk_end
  chunk_end-le limit start small h =
      let r = end_within-le start (min (start + limit) (len text)) (omega arith) in
      (
        end_within text start (min (start + limit) (len text)),
        rw (lt→ltb (start + limit) usize_limit (omega arith)) refl,
        r.0,
        omega (arith, r.1),
        omega (arith, r.1),
      )

  -- A chunk is the text of its range, which lies in the text and is not longer than the limit.
  pub record IsChunk (limit : ℕ) (c : Chunk) : Type 0 where
    pub ordered : c.start ≤ c.end
    pub inside : c.end ≤ len text
    pub short : c.end ≤ c.start + limit
    pub sliced : c.text ≡ slice text (c.start) (c.end)

  unfoldable pub AllChunks : ℕ → List Chunk → Type 0
  AllChunks limit [] = Unit
  AllChunks limit (c ∷ cs) = IsChunk limit c × AllChunks limit cs

  AllChunks-append :
      (limit : ℕ) (cs ds : List Chunk)
      → AllChunks limit cs
      → AllChunks limit ds
      → AllChunks limit (cs ++ ds)
  unfolding AllChunks
  AllChunks-append limit [] ds h k = k
  AllChunks-append limit (c ∷ cs) ds h k = (h.0, AllChunks-append limit cs ds (h.1) k)

  trim_end-le :
      (start end : ℕ) (o : Option ℕ)
      → start ≤ end
      → ((p : ℕ) → o ≡ some p → p < end - start)
      → (start ≤ trim_end text start end o) × (trim_end text start end o ≤ end)
  unfolding trim_end
  trim_end-le start end none h lt = (omega arith, h)
  trim_end-le start end (some p) h lt =
      let q = lt p refl in
      let r = step_forward-le (end - (start + p + 1)) (start + p + 1) in
      (omega (arith, r.0), omega (arith, r.1, q))

  trimmed-AllChunks :
      (limit start end : ℕ) (o : Option ℕ)
      → start ≤ end
      → end ≤ start + limit
      → end ≤ len text
      → ((a : ℕ) → o ≡ some a → (start ≤ a) × (a < start + (end - start)))
      → AllChunks limit (trimmed text end o)
  unfolding AllChunks trimmed
  trimmed-AllChunks limit start end none h k l in_range = tt
  trimmed-AllChunks limit start end (some a) h k l in_range =
      let q = in_range a refl in
      let test = λ (c : ℕ). not (is_whitespace c) in
      let r =
        trim_end-le a end (rfind text test a (end - a)) (omega (arith, q.1))
          (λ p e. rfind-lt test a (end - a) p e) in
      (
        record {
          ordered = r.0;
          inside = omega (arith, r.1);
          short = omega (arith, r.1, q.0);
          sliced = refl;
        },
        tt,
      )

  -- A round that goes on, where the further rounds return chunks.
  rest-AllChunks :
      (limit : ℕ) (here : List Chunk) (stop : Bool) (rest : Option (List Chunk))
      → AllChunks limit here
      → (cs : List Chunk) × (rest ≡ some cs) × AllChunks limit cs
      → (cs : List Chunk) × (chunk_loop_rest here stop rest ≡ some cs) × AllChunks limit cs
  unfolding chunk_loop_rest
  rest-AllChunks limit here true rest h k = (here, refl, h)
  rest-AllChunks limit here false rest h (cs, e, all) =
      (here ++ cs, rw e refl, AllChunks-append limit here cs h all)

  chunk_loop-AllChunks :
      (fuel limit overlap start : ℕ)
      → limit + len text ≤ usize_limit
      → (cs : List Chunk) × (chunk_loop text fuel limit overlap start ≡ some cs)
        × AllChunks limit cs
  unfolding chunk_loop
  chunk_loop-AllChunks zero limit overlap start small = ([], refl, unfold AllChunks in tt)
  chunk_loop-AllChunks (suc fuel) limit overlap start small =
      elim (Bool-cases (ltb start (len text))) [
        | inl e ↦
            let (end, found, low, short, inside) =
              chunk_end-le limit start small (ltb→lt start (len text) e) in
            let (cs, eq, all) =
              rest-AllChunks limit (trimmed text end (trim_start text start (end - start)))
                (leb (next_start text overlap start end) start)
                (chunk_loop text fuel limit overlap (next_start text overlap start end))
                (trimmed-AllChunks limit start end (trim_start text start (end - start)) low short
                  inside (λ a h. trim_start-le start (end - start) a h))
                (chunk_loop-AllChunks fuel limit overlap (next_start text overlap start end)
                  small) in
            (cs, rw (e, found) eq, all)
        | inr e ↦ ([], rw (e) refl, unfold AllChunks in tt)
      ]

-- Where `max_chars`, or 1 instead of 0, and the length of the text together are at most 2^64, the chunker
-- returns, and every chunk is the text of its range, which lies in the text and is not longer than
-- `max_chars`, or than one byte where that is 0.
pub chunk-AllChunks :
    (options : ChunkOptions) (text : String)
    → max (options.max_chars) 1 + len text ≤ usize_limit
    → (cs : List Chunk) × (chunk options text ≡ some cs)
      × AllChunks text (max (options.max_chars) 1) cs
unfolding chunk
chunk-AllChunks options text small =
    chunk_loop-AllChunks text (len text) (max (options.max_chars) 1)
      (min (options.overlap) (max (options.max_chars) 1 - 1)) 0 small
