-- ===== src/Persist/Restored.antt =====
-- What `seal` of crates/veclite/src/persist/seal.rs writes, `load` reads back.
use veclite.Base.{
  ℕ, ◌*◌, ◌^◌, ◌≡◌, refl, sym, ap, ◌∙◌, String, inl, Option, none, some, List, [], ◌∷◌, ◌++◌, map,
  arith, Bytes, All, length, get_or, get_elem?, replicate, lt→ltb, get_elem?-lt, length-replicate,
  get_or-replicate, All_weaken,
}
use veclite.Error.{ok, ◌>>=◌, >>=-eq-ok, ok_inj}
use veclite.Options.{CollectionOptions}
use veclite.Filter.{Numbers, Value}
use veclite.Filter.Postings.{Bitmaps}
use veclite.Filter.KeyIndex.{PayloadIndexKind}
use veclite.Filter.Index
use veclite.Storage.Body.{StoredConfig, encode_config, decode-encode_config}
use veclite.Storage.Body.Sparse.{TermInRange}
use veclite.Storage.Iddir
use veclite.Storage.Iddir.{IdDir, entries}
use veclite.Storage.Vectors
use veclite.Storage.Vectors.{VectorsBody, f32, stride_for, record_of}
use veclite.Storage.Vectors.RoundTrip.{decode-encode_vectors}
use veclite.Storage.Segment.{Segment, config, vectors, iddir}
use veclite.Storage.Pager.{CheckpointColl}
use veclite.Persist.Config.{to_stored, as_stored, from_stored-to_stored}
use veclite.Persist.Lanes.{sparse_to_postings, postings_to_sparse}
use veclite.Persist.Seal.{
  Crates, LivePoint, segment, vectors_body, directory, payload_entries, payload_segments, index_all,
  pidx_segments, sparse_segments, vocab_segments, seal_segments, seal,
}
use veclite.Persist.Load.{
  LoadedCollection, load_body, load_each, assemble, load, fill_payloads, lanes_of, no_parts,
}
use veclite.Persist.Directory.{decode-directory, entries-Placed, entries_whole}
use veclite.Persist.Ids.{fill_ids_lem}
use veclite.Persist.Lanes.Restored.{sparse_to_postings_range, postings_to_sparse-sparse_to_postings}
use veclite.Persist.Tables.{fill_payloads_lem, read_points_lem}
use veclite.Persist.Sealable.{
  IsSealable, Points, body, whole, record_of_lem, payload_slots, lanes_of-or_none_lem, length-map,
  get_elem?-map,
}
use veclite.Persist.Stages.{
  or_none, kept_vocab, parts, load-payload_segments, load-pidx_segments, load-sparse_segments,
  load-vocab_segments,
}

module _ {num : Numbers} {bits : Bitmaps} {F : Type 0} (crates : Crates num bits F) where
  open num use {Number}
  open crates use {float_bits, config_coder, value_coder}

  module _ (coll_id : ℕ) (options : CollectionOptions) (declared : List (String × PayloadIndexKind))
      (state : Option Bytes) (live : Points crates) (created_epoch_s : ℕ)
      (s : IsSealable crates options live) where
    abbrev stored : StoredConfig
    stored = to_stored options created_epoch_s

    abbrev terms : List (ℕ × List (ℕ × F))
    terms = sparse_to_postings (map LivePoint.sparse live)

    -- The collection that comes back: the thresholds of compression at their default, the rest as it was.
    abbrev restored : LoadedCollection F (Value Number)
    restored = record {
      options = record (as_stored options) { payload_indexes = declared };
      points = live;
      vocab = kept_vocab state;
    }

    load_head :
        (config_body : Bytes) (rest : List Segment)
        → encode_config config_coder stored ≡ ok config_body
        → load_each crates
            (segment config coll_id config_body
              ∷ segment vectors coll_id (Vectors.encode float_bits (body crates options live s))
              ∷ segment iddir coll_id (Iddir.encode (directory crates live))
              ∷ rest)
            no_parts
          ≡ load_each crates rest (
              parts crates
                (some stored)
                (some (body crates options live s))
                (some (directory crates live))
                []
                []
                none
                none)
    unfolding load_each load_body no_parts
    load_head config_body rest e =
        rw
          (
            decode-encode_config config_coder stored config_body e
                (s.shallow_config stored config_body),
            decode-encode_vectors float_bits (body crates options live s) (options.dimension * 4)
                (whole crates options live s),
            decode-directory crates live s.few s.short_ids,
          )
          refl

    lanes_of-or_none :
        lanes_of (or_none terms) (length live) ≡ postings_to_sparse terms (length live)
    lanes_of-or_none = lanes_of-or_none_lem crates terms (length live)

    assemble_lem :
        ((n : ℕ) (p : LivePoint F (Value Number))
          → get_elem? live n ≡ some p
          → get_or (postings_to_sparse terms (length live)) n none ≡ LivePoint.sparse p)
        → assemble crates (
            parts crates
              (some stored)
              (some (body crates options live s))
              (some (directory crates live))
              (payload_entries crates 0 live)
              declared
              (kept_vocab state)
              (or_none terms))
          ≡ ok restored
    unfolding assemble
    assemble_lem lanes =
        let (filled, done, full_ids) =
          fill_ids_lem (map LivePoint.id live) (entries (directory crates live))
            (replicate (length live) none)
            (All_weaken _ _ (λ e x. x.1) (entries (directory crates live))
              (entries-Placed crates live s.few s.short_ids))
            (length-replicate (length live) none ∙ sym (length-map LivePoint.id live)) in
        let points =
          read_points_lem crates (body crates options live s) filled
            (fill_payloads (payload_entries crates 0 live) (replicate (length live) none))
            (postings_to_sparse terms (length live)) live
            (λ n p e. (
              full_ids n
                  (inl (entries_whole crates live s.few s.short_ids n (get_elem?-lt live n e)))
                  (LivePoint.id p) (get_elem?-map LivePoint.id live n e),
              record_of_lem crates options live s n p e,
              fill_payloads_lem crates live 0 live (replicate (length live) none) refl
                  (length-replicate (length live) none)
                  (λ n p e l. absurd (omega arith), λ n l. get_or-replicate (length live) n none) n
                  p e,
              lanes n p e,
            ))
            0 live refl in
        rw
          (from_stored-to_stored options created_epoch_s s.in_range, done, lanes_of-or_none, points)
          refl

    vectors_body_lem : vectors_body crates options.dimension live ≡ ok (body crates options live s)
    unfolding vectors_body
    vectors_body_lem = rw (lt→ltb options.dimension (2 ^ 32) s.in_range.dimension_lt) refl

    -- Of what the steps of `seal` gave, the loop of `load` makes the parts.
    load_parts :
        (config_body : Bytes) (payloads pidxs lanes : List Segment)
        → encode_config config_coder stored ≡ ok config_body
        → payload_segments crates coll_id (payload_entries crates 0 live) ≡ ok payloads
        → pidx_segments crates coll_id
            (index_all crates 0 live (Index.new num bits declared))
            declared
          ≡ ok pidxs
        → sparse_segments crates coll_id terms ≡ ok lanes
        → All (TermInRange float_bits) terms
        → load_each crates
            (segment config coll_id config_body
              ∷ segment vectors coll_id (Vectors.encode float_bits (body crates options live s))
              ∷ segment iddir coll_id (Iddir.encode (directory crates live))
              ∷ (payloads ++ (pidxs ++ (lanes ++ vocab_segments crates coll_id state))))
            no_parts
          ≡ ok (
              parts crates
                (some stored)
                (some (body crates options live s))
                (some (directory crates live))
                (payload_entries crates 0 live)
                declared
                (kept_vocab state)
                (or_none terms))
    load_parts config_body payloads pidxs lanes e₁ e₂ e₃ e₄ r =
        let c = some stored in
        let v = some (body crates options live s) in
        let d = some (directory crates live) in
        load_head config_body
          (payloads ++ (pidxs ++ (lanes ++ vocab_segments crates coll_id state))) e₁
        ∙ load-payload_segments crates c v d coll_id (payload_entries crates 0 live) payloads
            (pidxs ++ (lanes ++ vocab_segments crates coll_id state)) e₂
            (payload_slots crates 0 live (omega (arith, s.few))) s.shallow_payloads
        ∙ load-pidx_segments crates c v d coll_id (payload_entries crates 0 live)
            (index_all crates 0 live (Index.new num bits declared)) declared [] declared pidxs
            (lanes ++ vocab_segments crates coll_id state) e₃ refl
        ∙ load-sparse_segments crates c v d coll_id (payload_entries crates 0 live) declared terms
            lanes (vocab_segments crates coll_id state) e₄ r
        ∙ load-vocab_segments crates c v d coll_id (payload_entries crates 0 live) declared
            (or_none terms) state

    load-seal_lanes :
        (segments : List Segment)
        → seal_segments crates coll_id options declared state live created_epoch_s ≡ ok segments
        → All (TermInRange float_bits) terms
        → ((n : ℕ) (p : LivePoint F (Value Number))
            → get_elem? live n ≡ some p
            → get_or (postings_to_sparse terms (length live)) n none ≡ LivePoint.sparse p)
        → load crates segments ≡ ok restored
    unfolding seal_segments load
    load-seal_lanes segments h r back =
        let (config_body, e₁, h₁) = >>=-eq-ok (encode_config config_coder stored) _ h in
        let (b, e, h₂) = >>=-eq-ok (vectors_body crates options.dimension live) _ h₁ in
        let (payloads, e₂, h₃) =
          >>=-eq-ok (payload_segments crates coll_id (payload_entries crates 0 live)) _ h₂ in
        let (pidxs, e₃, h₄) =
          >>=-eq-ok
            (pidx_segments crates coll_id (index_all crates 0 live (Index.new num bits declared))
              declared)
            _ h₃ in
        let (lanes, e₄, h₅) = >>=-eq-ok (sparse_segments crates coll_id terms) _ h₄ in
        let same : b ≡ body crates options live s = ok_inj (sym e ∙ vectors_body_lem) in
        let shape : (segment config coll_id config_body
              ∷ segment vectors coll_id (Vectors.encode float_bits (body crates options live s))
              ∷ segment iddir coll_id (Iddir.encode (directory crates live))
              ∷ (payloads ++ (pidxs ++ (lanes ++ vocab_segments crates coll_id state))))
            ≡ segments =
          ap
            (λ w.
              segment config coll_id config_body
              ∷ segment vectors coll_id (Vectors.encode float_bits w)
              ∷ segment iddir coll_id (Iddir.encode (directory crates live))
              ∷ (payloads ++ (pidxs ++ (lanes ++ vocab_segments crates coll_id state))))
            (sym same)
          ∙ ok_inj h₅ in
        ap (λ t. load_each crates t no_parts >>= assemble crates) (sym shape)
        ∙ ap (λ r. r >>= assemble crates)
            (load_parts config_body payloads pidxs lanes e₁ e₂ e₃ e₄ r)
        ∙ assemble_lem back

    -- Whatever `seal` returns for a sealable collection, `load` reads its live points back from the
    -- segments, with the options but for the thresholds of compression, the declared indexes and a
    -- vocabulary that is not empty.
    pub load-seal :
        (name : String) (aliases : List String) (sealed : CheckpointColl)
        → seal crates coll_id name aliases options declared state live created_epoch_s ≡ ok sealed
        → load crates sealed.segments ≡ ok restored
    unfolding seal
    load-seal name aliases sealed h =
        let (segments, e, h₁) =
          >>=-eq-ok (seal_segments crates coll_id options declared state live created_epoch_s) _
            h in
        ap (λ c. load crates (CheckpointColl.segments c)) (sym (ok_inj h₁))
        ∙ load-seal_lanes segments e
            (sparse_to_postings_range (map LivePoint.sparse live)
              (omega (arith, s.few, length-map LivePoint.sparse live)) s.lanes)
            (λ n p q.
              postings_to_sparse-sparse_to_postings (map LivePoint.sparse live) (length live) n
                (LivePoint.sparse p) (length-map LivePoint.sparse live) s.lanes
                (get_elem?-map LivePoint.sparse live n q))
