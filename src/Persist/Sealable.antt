-- ===== src/Persist/Sealable.antt =====
-- The collections of crates/veclite/src/persist/seal.rs that can be sealed, and what their vectors and
-- payloads are then.
use veclite.Base.{
  ℕ, zero, suc, ◌+◌, ◌*◌, ◌^◌, ◌<◌, ◌≡◌, refl, ap, ◌∙◌, Option, none, some, List, [], ◌∷◌, map,
  arith, Bytes, All, length, get_elem?, take, drop, get_elem?-lt, some_inj, All_weaken,
}
use veclite.Error.{ok}
use veclite.Utf8.{as_bytes}
use veclite.Options.{CollectionOptions}
use veclite.Filter.{Numbers, Value}
use veclite.Filter.Postings.{Bitmaps}
use veclite.Storage.Le.{length-to_le}
use veclite.Storage.Msgpack.{guard_msgpack_depth}
use veclite.Storage.Body.{StoredConfig}
use veclite.Storage.Body.Loops.{concat_each}
use veclite.Storage.Body.Payload.RoundTrip.{AreShallow}
use veclite.Storage.Vectors
use veclite.Storage.Vectors.{VectorsBody, f32, stride_for, record_of}
use veclite.Storage.Vectors.RoundTrip.{IsWhole, record_at_lem, stride_for-f32}
use veclite.Persist.Config
use veclite.Persist.Config.{to_stored, as_stored, from_stored-to_stored}
use veclite.Persist.Lanes.{postings_to_sparse, spread_all}
use veclite.Persist.Seal.{Crates, LivePoint, float_bytes, records_of, payload_entries, entry_then}
use veclite.Persist.Load.{lanes_of}
use veclite.Persist.Lanes.Restored.{IsLane}
use veclite.Persist.Tables.{block_at, length-blocks}
use veclite.Persist.Stages.{or_none}

pub length-map : {A B : Type 0} (f : A → B) (xs : List A) → length (map f xs) ≡ length xs
length-map f [] = refl
length-map f (x ∷ xs) = ap suc (length-map f xs)

pub get_elem?-map :
    {A B : Type 0} (f : A → B) (xs : List A) (n : ℕ) {a : A}
    → get_elem? xs n ≡ some a
    → get_elem? (map f xs) n ≡ some (f a)
get_elem?-map f [] n h = cc
get_elem?-map f (x ∷ xs) zero h = ap (λ b. some (f b)) (some_inj h)
get_elem?-map f (x ∷ xs) (suc n) h = get_elem?-map f xs n h

module _ {num : Numbers} {bits : Bitmaps} {F : Type 0} (crates : Crates num bits F) where
  open num use {Number}
  open crates use {float_bits, config_coder, value_coder}

  floats_of_4 : (xs : List F) → All (λ x. length (float_bytes crates x) ≡ 4) xs
  unfolding float_bytes
  floats_of_4 [] = tt
  floats_of_4 (x ∷ xs) = (length-to_le 4 (float_bits.to_bits x), floats_of_4 xs)

  entry_then_slots :
      (slot : ℕ) (o : Option (Value Number)) (rest : List (ℕ × Value Number))
      → slot < 2 ^ 64
      → All (λ e. e.0 < 2 ^ 64) rest
      → All (λ e. e.0 < 2 ^ 64) (entry_then crates slot o rest)
  unfolding entry_then
  entry_then_slots slot none rest l r = r
  entry_then_slots slot (some v) rest l r = (l, r)

  pub lanes_of-or_none_lem :
      (ts : List (ℕ × List (ℕ × F))) (n : ℕ) → lanes_of (or_none ts) n ≡ postings_to_sparse ts n
  unfolding lanes_of postings_to_sparse spread_all
  lanes_of-or_none_lem [] n = refl
  lanes_of-or_none_lem (t ∷ ts) n = refl

  abbrev pub Points : Type 0
  Points = List (LivePoint F (Value Number))

  -- What a collection in memory satisfies: numbers that fit, vectors of its dimension, ids of the
  -- permitted length, and MessagePack that the guard on the nesting accepts.
  pub record IsSealable (options : CollectionOptions) (live : Points) : Type 0 where
    pub in_range : Config.InRange options
    pub positive : 0 < options.dimension
    pub few : length live < 2 ^ 31
    pub small : options.dimension * 4 * length live < 2 ^ 64
    pub same_dimension : All (λ p. length (LivePoint.vector p) ≡ options.dimension) live
    pub short_ids : All (λ p. length (as_bytes (LivePoint.id p)) < 2 ^ 16) live
    pub shallow_config :
        (c : StoredConfig) (b : Bytes)
        → config_coder.write c ≡ some b
        → guard_msgpack_depth b ≡ ok tt
    pub shallow_payloads : AreShallow value_coder (payload_entries crates 0 live)
    pub lanes : All IsLane (map LivePoint.sparse live)

  module _ (options : CollectionOptions) (live : Points) (s : IsSealable options live) where
    abbrev pub body : VectorsBody F
    body = record {
      encoding = f32;
      dimension = options.dimension;
      first_slot = 0;
      count = length live;
      sq_params = none;
      records = records_of crates live;
    }

    record_length :
        All
          (λ p.
            length (concat_each (float_bytes crates) (LivePoint.vector p)) ≡ options.dimension * 4)
          live
    record_length =
        All_weaken (λ p. length (LivePoint.vector p) ≡ options.dimension)
          (λ p.
            length (concat_each (float_bytes crates) (LivePoint.vector p)) ≡ options.dimension * 4)
          (λ p e. omega (
            arith,
            length-blocks (float_bytes crates) 4 (LivePoint.vector p)
                (floats_of_4 (LivePoint.vector p)),
            e,
          ))
          live s.same_dimension

    full : length (records_of crates live) ≡ options.dimension * 4 * length live
    unfolding records_of
    full =
        length-blocks (λ p. concat_each (float_bytes crates) (LivePoint.vector p))
          (options.dimension * 4) live record_length

    stride_lem : stride_for f32 options.dimension ≡ ok (options.dimension * 4)
    stride_lem =
        stride_for-f32 options.dimension s.positive (omega (arith, s.in_range.dimension_lt))

    pub whole : IsWhole body (options.dimension * 4)
    unfolding Vectors.is_pq Vectors.has_sq_params
    whole = record {
      decodable = refl;
      dimension_lt = s.in_range.dimension_lt;
      count_lt = omega (arith, s.few);
      first_slot_lt = omega arith;
      params = refl;
      strided = stride_lem;
      records_lt = s.small;
      full = full;
    }

    pub record_of_lem :
        (n : ℕ) (p : LivePoint F (Value Number))
        → get_elem? live n ≡ some p
        → record_of body n ≡ some (concat_each (float_bytes crates) (LivePoint.vector p))
    unfolding record_of Vectors.stride records_of
    record_of_lem n p e = rw (stride_lem) (
        record_at_lem (options.dimension * 4) 0 (length live) n (records_of crates live) full
          s.small (omega arith) (omega (arith, get_elem?-lt live n e))
        ∙ ap
            (λ i. some (
              take (options.dimension * 4)
                (drop (i * (options.dimension * 4)) (records_of crates live))))
            {y = n} (omega arith)
        ∙ ap some (
            block_at (λ q. concat_each (float_bytes crates) (LivePoint.vector q))
              (options.dimension * 4) n live p record_length e))

  pub payload_slots :
      (slot : ℕ) (ps : Points)
      → slot + length ps < 2 ^ 64
      → All (λ e. e.0 < 2 ^ 64) (payload_entries crates slot ps)
  unfolding payload_entries
  payload_slots slot [] l = tt
  payload_slots slot (p ∷ ps) l =
      entry_then_slots slot (LivePoint.payload p) (payload_entries crates (slot + 1) ps)
        (omega arith) (payload_slots (slot + 1) ps (omega arith))
