-- ===== src/Storage/Body/Sparse.antt =====
-- `SparsePostings` of storage/body.rs: slots and weights by term.
use veclite.Base.{
  ℕ, ◌+◌, ◌^◌, ◌<◌, ◌≡◌, refl, sym, ap, ◌∙◌, List, [], ◌++◌, append_assoc, append-nil, arith, Bytes,
  All, length, drop, ltb, length-append, inl, inr,
}
use veclite.Error.{Result, ok, corrupt, ◌>>=◌, ◌>>◌, guard, Result-cases}
use veclite.Storage.Le.{to_le, u32, u64, u32_at, u64_at, length-to_le}
use veclite.Storage.Body.{FloatBits}
use veclite.Storage.Body.Fields.{drop_le}
use veclite.Storage.Body.Loops.{
  write_each, concat_each, read_each, write_each-Written, concat_each-Written, read_each-Written,
}

module _ {F : Type 0} (bits : FloatBits F) where
  unfoldable pub write_weight : ℕ × F → Bytes
  write_weight (slot, weight) = to_le 8 slot ++ to_le 4 (bits.to_bits weight)

  unfoldable pub write_term : ℕ × List (ℕ × F) → Result Bytes
  unfolding write_weight
  write_term (term_id, postings) = do
    guard (ltb (length postings) (2 ^ 32)) (corrupt "sparse: too many postings")
    ok (to_le 4 term_id ++ (to_le 4 (length postings) ++ concat_each write_weight postings))

  unfoldable pub encode : List (ℕ × List (ℕ × F)) → Result Bytes
  unfolding write_term
  encode terms = do
    guard (ltb (length terms) (2 ^ 32)) (corrupt "sparse: too many terms")
    body ← write_each write_term terms
    ok (to_le 4 (length terms) ++ body)

  unfoldable pub read_weight : Bytes → ℕ → Result ((ℕ × F) × ℕ)
  read_weight b at = do
    slot ← u64 b at "sparse"
    weight ← u32 b (at + 8) "sparse"
    ok ((slot, bits.from_bits weight), at + 8 + 4)

  unfoldable pub read_term : Bytes → ℕ → Result ((ℕ × List (ℕ × F)) × ℕ)
  unfolding read_weight
  read_term b at = do
    term_id ← u32 b at "sparse"
    pc ← u32 b (at + 4) "sparse"
    r ← read_each read_weight pc b (at + 4 + 4)
    ok ((term_id, r.0), r.1)

  unfoldable pub decode : Bytes → Result (List (ℕ × List (ℕ × F)))
  unfolding read_term
  decode b = do tc ← u32 b 0 "sparse"; r ← read_each read_term tc b 4; ok (r.0)

  -- Terms are u32, slots u64.
  abbrev pub TermInRange : ℕ × List (ℕ × F) → Type 0
  TermInRange (term_id, postings) = (term_id < 2 ^ 32) × All (λ p. p.0 < 2 ^ 64) postings

  reads_weight :
      (p : ℕ × F) (item buf rest : Bytes) (at : ℕ)
      → (p.0 < 2 ^ 64) × (item ≡ write_weight p)
      → drop at buf ≡ item ++ rest
      → read_weight buf at ≡ ok (p, at + length item)
  unfolding read_weight write_weight
  reads_weight (slot, weight) item buf rest at (r, e) h =
      let here : drop at buf ≡ to_le 8 slot ++ (to_le 4 (bits.to_bits weight) ++ rest) =
        h ∙ ap (λ t. t ++ rest) e ∙ append_assoc (to_le 8 slot) _ rest in
      let end : at + 8 + 4 ≡ at + length item = omega (
        arith,
        ap length e,
        length-append (to_le 8 slot) (to_le 4 (bits.to_bits weight)),
        length-to_le 8 slot,
        length-to_le 4 (bits.to_bits weight),
      ) in
      rw
        (
          u64_at buf _ at slot "sparse" here r,
          u32_at buf rest (at + 8) (bits.to_bits weight) "sparse"
              (drop_le buf _ at 8 slot (at + 8) here refl) (bits.to_bits_lt weight),
          bits.from_bits-to_bits weight,
          end,
        )
        refl

  write_term_inv :
      (term_id : ℕ) (postings : List (ℕ × F)) (item : Bytes)
      → write_term (term_id, postings) ≡ ok item
      → (length postings < 2 ^ 32)
        × (item
            ≡ to_le 4 term_id ++ (to_le 4 (length postings) ++ concat_each write_weight postings))
  unfolding write_term
  write_term_inv term_id postings item h = (ground arith, ground arith)

  reads_term :
      (t : ℕ × List (ℕ × F)) (item buf rest : Bytes) (at : ℕ)
      → TermInRange t × (write_term t ≡ ok item)
      → drop at buf ≡ item ++ rest
      → read_term buf at ≡ ok (t, at + length item)
  unfolding read_term
  reads_term (term_id, ps) item buf rest at (r, w) h =
      let (lp, shape) = write_term_inv term_id ps item w in
      let body : Bytes = concat_each write_weight ps in
      let here : drop at buf ≡ to_le 4 term_id ++ (to_le 4 (length ps) ++ (body ++ rest)) =
        h ∙ ap (λ t. t ++ rest) shape ∙ simp append_assoc in
      let count = drop_le buf _ at 4 term_id (at + 4) here refl in
      let behind = drop_le buf _ (at + 4) 4 (length ps) (at + 4 + 4) count refl in
      let all =
        read_each-Written read_weight (λ p b. (p.0 < 2 ^ 64) × (b ≡ write_weight p)) reads_weight ps
          body buf rest (at + 4 + 4) (concat_each-Written (λ p. p.0 < 2 ^ 64) write_weight ps (r.1))
          behind in
      let end : at + 4 + 4 + length body ≡ at + length item = omega (
        arith,
        ap length shape,
        length-append (to_le 4 term_id) (to_le 4 (length ps) ++ body),
        length-append (to_le 4 (length ps)) body,
        length-to_le 4 term_id,
        length-to_le 4 (length ps),
      ) in
      rw
        (
          u32_at buf _ at term_id "sparse" here (r.0),
          u32_at buf _ (at + 4) (length ps) "sparse" count lp,
          all,
          end,
        )
        refl

  encode_inv :
      (terms : List (ℕ × List (ℕ × F))) (bytes : Bytes)
      → encode terms ≡ ok bytes
      → (body : Bytes) × (write_each write_term terms ≡ ok body)
        × (length terms < 2 ^ 32)
        × (bytes ≡ to_le 4 (length terms) ++ body)
  unfolding encode
  encode_inv terms bytes h = elim (Result-cases (write_each write_term terms)) [
    | inl (body, e) ↦ (body, e, ground arith, ground arith)
    | inr (_, e) ↦ ground arith
  ]

  -- Postings that were encoded decode to themselves.
  pub decode-encode_postings :
      (terms : List (ℕ × List (ℕ × F))) (bytes : Bytes)
      → encode terms ≡ ok bytes
      → All TermInRange terms
      → decode bytes ≡ ok terms
  unfolding decode
  decode-encode_postings terms bytes h r =
      let (body, w, lt, shape) = encode_inv terms bytes h in
      let here : drop 0 bytes ≡ to_le 4 (length terms) ++ (body ++ []) =
        shape ∙ ap (λ t. to_le 4 (length terms) ++ t) (sym (append-nil body)) in
      let all =
        read_each-Written read_term (λ t b. TermInRange t × (write_term t ≡ ok b)) reads_term terms
          body bytes [] 4 (write_each-Written TermInRange write_term terms body w r)
          (drop_le bytes _ 0 4 (length terms) 4 here refl) in
      rw (u32_at bytes _ 0 (length terms) "sparse" here lt, all) refl
