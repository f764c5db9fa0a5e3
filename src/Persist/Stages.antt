-- ===== src/Persist/Stages.antt =====
-- The loop of `load` in crates/veclite/src/persist/seal.rs over the segments that `seal` wrote, kind by kind.
use veclite.Base.{
  ℕ, ◌≡◌, refl, sym, ap, ◌∙◌, String, Option, none, some, List, [], ◌∷◌, ◌++◌, append_assoc,
  append-nil, Bytes, All,
}
use veclite.Error.{ok, ◌>>=◌, >>=-eq-ok, ok_inj}
use veclite.Filter.{Numbers, Value}
use veclite.Filter.Postings.{Bitmaps}
use veclite.Filter.KeyIndex.{PayloadIndexKind}
use veclite.Filter.Index.{PayloadIndexes}
use veclite.Storage.Body.{StoredConfig, decode_vocab, encode_vocab}
use veclite.Storage.Body.Payload
use veclite.Storage.Body.Payload.RoundTrip.{AreShallow, InRange, decode-encode_payload}
use veclite.Storage.Body.Pidx
use veclite.Storage.Body.Pidx.{decode-encode_index}
use veclite.Storage.Body.Sparse
use veclite.Storage.Body.Sparse.{TermInRange, decode-encode_postings}
use veclite.Storage.Iddir.{IdDir}
use veclite.Storage.Vectors.{VectorsBody}
use veclite.Storage.Segment.{Segment, payload, pidx, sparse}
use veclite.Persist.Config.{pidx_kind_from-pidx_kind_byte}
use veclite.Persist.Seal.{
  Crates, segment, payload_segments, pidx_body, pidx_segments, sparse_segments, vocab_segments,
}
use veclite.Persist.Load.{Parts, load_body, load_each}

abbrev pub or_none : {A : Type 0} → List A → Option (List A)
or_none [] = none
or_none (x ∷ xs) = some (x ∷ xs)

-- An empty vocabulary is not written.
unfoldable pub kept_vocab : Option Bytes → Option Bytes
kept_vocab none = none
kept_vocab (some []) = none
kept_vocab (some (b ∷ bs)) = some (b ∷ bs)

module _ {num : Numbers} {bits : Bitmaps} {F : Type 0} (crates : Crates num bits F) where
  open num use {Number}
  open crates use {float_bits, value_coder, roaring}

  abbrev pub parts :
      Option StoredConfig
      → Option (VectorsBody F)
      → Option IdDir
      → List (ℕ × Value Number)
      → List (String × PayloadIndexKind)
      → Option Bytes
      → Option (List (ℕ × List (ℕ × F)))
      → Parts F (Value Number)
  parts c v d es ks w s = record {
    stored = c;
    vectors = v;
    iddir = d;
    payload = es;
    declared = ks;
    vocab = w;
    sparse_postings = s;
  }

  module _ (c : Option StoredConfig) (v : Option (VectorsBody F)) (d : Option IdDir)
      (coll_id : ℕ) where
    pub load-payload_segments :
        (es : List (ℕ × Value Number)) (segs rest : List Segment)
        → payload_segments crates coll_id es ≡ ok segs
        → InRange value_coder es
        → AreShallow value_coder es
        → load_each crates (segs ++ rest) (parts c v d [] [] none none)
          ≡ load_each crates rest (parts c v d es [] none none)
    unfolding payload_segments load_each load_body
    load-payload_segments [] segs rest h r s =
        ap (λ t. load_each crates (t ++ rest) (parts c v d [] [] none none)) (sym (ok_inj h))
    load-payload_segments (e ∷ es) segs rest h r s =
        let (body, written, h₁) =
          >>=-eq-ok (Payload.encode value_coder (e ∷ es)) (λ b. ok (segment payload coll_id b ∷ []))
            h in
        ap (λ t. load_each crates (t ++ rest) (parts c v d [] [] none none)) (sym (ok_inj h₁))
        ∙ rw (decode-encode_payload value_coder (e ∷ es) body written r s) refl

    pub load-pidx_segments :
        (es : List (ℕ × Value Number)) (indexes : PayloadIndexes num bits)
        (ks done all : List (String × PayloadIndexKind)) (segs rest : List Segment)
        → pidx_segments crates coll_id indexes ks ≡ ok segs
        → all ≡ done ++ ks
        → load_each crates (segs ++ rest) (parts c v d es done none none)
          ≡ load_each crates rest (parts c v d es all none none)
    unfolding pidx_segments load_each load_body pidx_body
    load-pidx_segments es indexes [] done all segs rest h a =
        ap (λ t. load_each crates (t ++ rest) (parts c v d es done none none)) (sym (ok_inj h))
        ∙ ap (λ t. load_each crates rest (parts c v d es t none none))
            (sym (append-nil done) ∙ sym a)
    load-pidx_segments es indexes ((key, kind) ∷ ks) done all segs rest h a =
        let (body, written, h₁) =
          >>=-eq-ok (Pidx.encode roaring (pidx_body crates indexes key kind))
            (λ b. pidx_segments crates coll_id indexes ks >>= λ more.
              ok (segment pidx coll_id b ∷ more))
            h in
        let (more, others, h₂) =
          >>=-eq-ok (pidx_segments crates coll_id indexes ks)
            (λ more. ok (segment pidx coll_id body ∷ more)) h₁ in
        ap (λ t. load_each crates (t ++ rest) (parts c v d es done none none)) (sym (ok_inj h₂))
        ∙ rw
            (
              decode-encode_index roaring (pidx_body crates indexes key kind) body written,
              pidx_kind_from-pidx_kind_byte kind,
            )
            (load-pidx_segments es indexes ks (done ++ (key, kind) ∷ []) all more rest others
              (a ∙ sym (append_assoc done ((key, kind) ∷ []) ks)))

    module _ (es : List (ℕ × Value Number)) (ks : List (String × PayloadIndexKind)) where
      pub load-sparse_segments :
          (ts : List (ℕ × List (ℕ × F))) (segs rest : List Segment)
          → sparse_segments crates coll_id ts ≡ ok segs
          → All (TermInRange float_bits) ts
          → load_each crates (segs ++ rest) (parts c v d es ks none none)
            ≡ load_each crates rest (parts c v d es ks none (or_none ts))
      unfolding sparse_segments load_each load_body
      load-sparse_segments [] segs rest h r =
          ap (λ t. load_each crates (t ++ rest) (parts c v d es ks none none)) (sym (ok_inj h))
      load-sparse_segments (t ∷ ts) segs rest h r =
          let (body, written, h₁) =
            >>=-eq-ok (Sparse.encode float_bits (t ∷ ts)) (λ b. ok (segment sparse coll_id b ∷ []))
              h in
          ap (λ x. load_each crates (x ++ rest) (parts c v d es ks none none)) (sym (ok_inj h₁))
          ∙ rw (decode-encode_postings float_bits (t ∷ ts) body written r) refl

      pub load-vocab_segments :
          (s : Option (List (ℕ × List (ℕ × F)))) (state : Option Bytes)
          → load_each crates (vocab_segments crates coll_id state) (parts c v d es ks none s)
            ≡ ok (parts c v d es ks (kept_vocab state) s)
      unfolding vocab_segments load_each load_body encode_vocab decode_vocab kept_vocab
      load-vocab_segments s none = refl
      load-vocab_segments s (some []) = refl
      load-vocab_segments s (some (b ∷ bs)) = refl
