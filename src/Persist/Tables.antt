-- ===== src/Persist/Tables.antt =====
-- The vectors and payloads that `seal` of crates/veclite/src/persist/seal.rs writes, as `load` reads them.
use veclite.Base.{
  ℕ, zero, suc, ◌+◌, ◌*◌, ◌-◌, ◌≤◌, ◌<◌, ◌≡◌, ◌≢◌, refl, sym, ap, ◌∙◌, String, ◌==◌, Bool-cases,
  inl, inr, Option, none, some, List, [], ◌∷◌, ◌++◌, arith, Bytes, All, length, get_or, get_elem?,
  set, take, drop, ==_iff, length-set, length-append, length-drop, get_elem?-lt, drop-suc,
  take-append, drop-append_ge, some_inj,
}
use veclite.Error.{ok}
use veclite.Sparse.{SparseVector}
use veclite.Filter.{Numbers, Value}
use veclite.Filter.Postings.{Bitmaps}
use veclite.Storage.Le.{to_le, from_le, from_le-to_le}
use veclite.Storage.Body.Loops.{concat_each}
use veclite.Storage.Iddir.Lookup.{get_or-set, get_or-set_ne}
use veclite.Storage.Vectors.{VectorsBody, record_of}
use veclite.Storage.Vectors.View.{chunks_of_4}
use veclite.Persist.Seal.{Crates, LivePoint, float_bytes, payload_entries, entry_then}
use veclite.Persist.Load.{fill_payloads, read_points}

module _ {A : Type 0} (write : A → Bytes) (k : ℕ) where
  -- Of items of equal size, each stands at its multiple.
  pub block_at :
      (n : ℕ) (xs : List A) (x : A)
      → All (λ a. length (write a) ≡ k) xs
      → get_elem? xs n ≡ some x
      → take k (drop (n * k) (concat_each write xs)) ≡ write x
  unfolding concat_each
  block_at n [] x p h = cc
  block_at zero (y ∷ xs) x p h =
      ap (λ m. take k (drop m (write y ++ concat_each write xs))) {y = 0} (omega arith)
      ∙ ap (λ n. take n (write y ++ concat_each write xs)) (sym (p.0))
      ∙ take-append (write y) (concat_each write xs)
      ∙ ap write (some_inj h)
  block_at (suc n) (y ∷ xs) x p h =
      ap (take k) (
        drop-append_ge (suc n * k) (write y) (concat_each write xs) (one_block n (p.0))
        ∙ ap (λ m. drop m (concat_each write xs)) (next_block n (p.0)))
      ∙ block_at n xs x (p.1) h
    where
      one_block : (n : ℕ) {l : ℕ} → l ≡ k → l ≤ suc n * k
      one_block n e = grind arith

      next_block : (n : ℕ) {l : ℕ} → l ≡ k → suc n * k - l ≡ n * k
      next_block n e = grind arith

  pub length-blocks :
      (xs : List A)
      → All (λ a. length (write a) ≡ k) xs
      → length (concat_each write xs) ≡ k * length xs
  unfolding concat_each
  length-blocks [] p = omega arith
  length-blocks (x ∷ xs) p =
      grind (arith, length-append (write x) (concat_each write xs), length-blocks xs (p.1), p.0)

pub get_elem?-drop :
    {A : Type 0} (n : ℕ) (xs : List A) {y : A} {ys : List A}
    → drop n xs ≡ y ∷ ys
    → get_elem? xs n ≡ some y
get_elem?-drop zero [] h = cc
get_elem?-drop (suc n) [] h = cc
get_elem?-drop zero (x ∷ xs) h = cc
get_elem?-drop (suc n) (x ∷ xs) h = get_elem?-drop n xs h

pub drop_plus_one : {A : Type 0} (n : ℕ) (xs : List A) → drop (n + 1) xs ≡ drop (suc n) xs
drop_plus_one n xs = ap (λ k. drop k xs) {y = suc n} (omega arith)

module _ {num : Numbers} {bits : Bitmaps} {F : Type 0} (crates : Crates num bits F) where
  open num use {Number}
  open crates use {float_bits}

  -- The floats of a vector come back from its bytes.
  pub chunks_of_4-float_bytes :
      (xs : List F) → chunks_of_4 float_bits (concat_each (float_bytes crates) xs) ≡ xs
  unfolding chunks_of_4 concat_each float_bytes to_le from_le
  chunks_of_4-float_bytes [] = refl
  chunks_of_4-float_bytes (x ∷ xs) =
      ap (λ v. v ∷ chunks_of_4 float_bits (concat_each (float_bytes crates) xs))
        (ap float_bits.from_bits
            (from_le-to_le 4 (float_bits.to_bits x) (omega (arith, float_bits.to_bits_lt x)))
          ∙ float_bits.from_bits-to_bits x)
      ∙ ap (λ vs. x ∷ vs) (chunks_of_4-float_bytes xs)

  abbrev Points : Type 0
  Points = List (LivePoint F (Value Number))

  -- The table of payloads when the slots below `slot` are done.
  abbrev Done : Points → ℕ → List (Option (Value Number)) → Type 0
  Done live slot table =
      ((s : ℕ) (p : LivePoint F (Value Number))
        → get_elem? live s ≡ some p
        → s < slot
        → get_or table s none ≡ LivePoint.payload p)
      × ((s : ℕ) → slot ≤ s → get_or table s none ≡ none)

  abbrev put :
      ℕ → Option (Value Number) → List (Option (Value Number)) → List (Option (Value Number))
  put slot none table = table
  put slot (some v) table = set table slot (some v)

  put_found :
      (slot : ℕ) (o : Option (Value Number)) (table : List (Option (Value Number)))
      → slot < length table
      → get_or table slot none ≡ none
      → get_or (put slot o table) slot none ≡ o
  put_found slot none table l h = h
  put_found slot (some v) table l h = get_or-set table slot (some v) none l

  put_other :
      (slot s : ℕ) (o : Option (Value Number)) (table : List (Option (Value Number)))
      → s ≢ slot
      → get_or (put slot o table) s none ≡ get_or table s none
  put_other slot s none table h = refl
  put_other slot s (some v) table h = get_or-set_ne table slot s (some v) none h

  length-put :
      (slot : ℕ) (o : Option (Value Number)) (table : List (Option (Value Number)))
      → length (put slot o table) ≡ length table
  length-put slot none table = refl
  length-put slot (some v) table = length-set table slot (some v)

  fill-entry_then :
      (slot : ℕ) (o : Option (Value Number)) (rest : List (ℕ × Value Number))
      (table : List (Option (Value Number)))
      → fill_payloads (entry_then crates slot o rest) table ≡ fill_payloads rest (put slot o table)
  unfolding fill_payloads entry_then
  fill-entry_then slot none rest table = refl
  fill-entry_then slot (some v) rest table = refl

  put-Done :
      (live : Points) (slot : ℕ) (q : LivePoint F (Value Number))
      (table : List (Option (Value Number)))
      → get_elem? live slot ≡ some q
      → length table ≡ length live
      → Done live slot table
      → Done live (slot + 1) (put slot (LivePoint.payload q) table)
  put-Done live slot q table e l (below, above) = (
    λ s p f t. elim (Bool-cases (s == slot)) [
      | inl same ↦
          let k : s ≡ slot = (==_iff s slot).0 same in
          ap (λ n. get_or (put slot (LivePoint.payload q) table) n none) k
          ∙ put_found slot (LivePoint.payload q) table (omega (arith, l, get_elem?-lt live slot e))
              (above slot (omega arith))
          ∙ ap LivePoint.payload (some_inj (sym e ∙ ap (get_elem? live) (sym k) ∙ f))
      | inr apart ↦
          put_other slot s (LivePoint.payload q) table (λ k. ground arith)
          ∙ below s p f (ground arith)
    ],
    λ s t. put_other slot s (LivePoint.payload q) table (λ k. omega arith) ∙ above s (omega arith),
  )

  -- The table that `load` fills has the payload of each point.
  pub fill_payloads_lem :
      (live : Points) (slot : ℕ) (ps : Points) (table : List (Option (Value Number)))
      → drop slot live ≡ ps
      → length table ≡ length live
      → Done live slot table
      → (s : ℕ) (p : LivePoint F (Value Number)) → get_elem? live s ≡ some p
      → get_or (fill_payloads (payload_entries crates slot ps) table) s none ≡ LivePoint.payload p
  unfolding fill_payloads payload_entries
  fill_payloads_lem live slot [] table h l d s p e =
      d.0 s p e (omega (arith, get_elem?-lt live s e, length-drop slot live, ap length h))
  fill_payloads_lem live slot (q ∷ ps) table h l d s p e =
      ap (λ t. get_or t s none)
        (fill-entry_then slot (LivePoint.payload q) (payload_entries crates (slot + 1) ps) table)
      ∙ fill_payloads_lem live (slot + 1) ps (put slot (LivePoint.payload q) table)
          (drop_plus_one slot live ∙ drop-suc slot live ps q h)
          (length-put slot (LivePoint.payload q) table ∙ l)
          (put-Done live slot q table (get_elem?-drop slot live h) l d) s p e

  -- Where the tables have what each point has, the loop over the slots gives the points.
  pub read_points_lem :
      (body : VectorsBody F) (ids : List (Option String)) (payloads : List (Option (Value Number)))
      (sparses : List (Option (SparseVector F))) (live : Points)
      → ((s : ℕ) (p : LivePoint F (Value Number))
          → get_elem? live s ≡ some p
          → (get_or ids s none ≡ some (LivePoint.id p))
            × (record_of body s ≡ some (concat_each (float_bytes crates) (LivePoint.vector p)))
            × (get_or payloads s none ≡ LivePoint.payload p)
            × (get_or sparses s none ≡ LivePoint.sparse p))
      → (slot : ℕ) (ps : Points) → drop slot live ≡ ps
      → read_points crates body ids payloads sparses (length ps) slot ≡ ok ps
  unfolding read_points
  read_points_lem body ids payloads sparses live h slot [] d = refl
  read_points_lem body ids payloads sparses live h slot (p ∷ ps) d =
      let (i, v, j, k) = h slot p (get_elem?-drop slot live d) in
      let rest =
        read_points_lem body ids payloads sparses live h (slot + 1) ps
          (drop_plus_one slot live ∙ drop-suc slot live ps p d) in
      rw (i, v, rest, chunks_of_4-float_bytes (LivePoint.vector p), j, k) refl
