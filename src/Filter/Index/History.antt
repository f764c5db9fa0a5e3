-- ===== src/Filter/Index/History.antt =====
-- The payload indexes of filter/index.rs after any writes.
use veclite.Base.{ℕ, ◌≡◌, ◌==◌, true, false, Option, some}
use veclite.Filter.{Numbers, Value, Filter}
use veclite.Filter.Eval.{matches}
use veclite.Filter.Postings.{Bitmaps}
use veclite.Filter.Index.{PayloadIndexes, insert, remove, candidates}
use veclite.Filter.Index.Holds.{Covers, insert-Covers, insert-keeps, remove_other-keeps}
use veclite.Filter.Index.Superset.{ExactAt}
use veclite.Filter.Index.Candidates.{candidates-superset}

module _ (num : Numbers) (bits : Bitmaps) where
  open num use {Number, Int, Float}
  open bits use {Bitmap}

  -- Since the slot `t` was inserted, further slots were, and others than `t` removed.
  pub data Since (t : ℕ) (payload : Option (Value Number)) : PayloadIndexes num bits → Type 0 where
    inserted : (ix : PayloadIndexes num bits) → Since t payload (insert num bits ix t payload)
    then_insert :
        {ix : PayloadIndexes num bits} (s : ℕ) (other : Option (Value Number))
        → Since t payload ix
        → Since t payload (insert num bits ix s other)
    then_remove :
        {ix : PayloadIndexes num bits} (s : ℕ) (other : Option (Value Number))
        → Since t payload ix
        → (s == t) ≡ false
        → Since t payload (remove num bits ix s other)

  Since-Covers :
      (t : ℕ) (payload : Option (Value Number)) (ix : PayloadIndexes num bits)
      → Since t payload ix
      → Covers num bits ix t payload
  Since-Covers t payload _ (inserted ix) = insert-Covers num bits ix t payload
  Since-Covers t payload _ (then_insert {ix = ix} s other h) =
      insert-keeps num bits ix s t other payload (Since-Covers t payload ix h)
  Since-Covers t payload _ (then_remove {ix = ix} s other h d) =
      remove_other-keeps num bits ix s t other payload d (Since-Covers t payload ix h)

  -- After the insertion of a slot with its payload, whatever is inserted and whichever other slots are
  -- removed since: where each indexed value of the payload is of the kind of its index, and its
  -- comparison as a float with any integer that evaluation may compare it with is exact, the candidates
  -- of a filter that matches the payload have the slot.
  pub candidates-Since :
      (ix : PayloadIndexes num bits) (t : ℕ) (payload : Option (Value Number))
      (f : Filter Int Float) (b : Bitmap)
      → Since t payload ix
      → ExactAt num bits ix payload
      → matches num f payload ≡ true
      → candidates num bits ix f ≡ some b
      → bits.contains t b ≡ true
  candidates-Since ix t payload f b s x m c =
      candidates-superset num bits ix t payload f b (Since-Covers t payload ix s) x m c
