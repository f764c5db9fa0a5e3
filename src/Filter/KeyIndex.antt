-- ===== src/Filter/KeyIndex.antt =====
-- `KeyIndex` of filter/index.rs: the index of one key, and what it answers.
use veclite.Base.{ℕ, String, true, Option, none, some, List, [], ◌∷◌, same}
use veclite.Filter.{Numbers, Value, MatchValue, keyword, integer, Range, as_str}
use veclite.Filter.Eval.{value_as_i64, value_as_f64, range_contains}
use veclite.Filter.Postings.{Bitmaps, slots_at, add_slot, remove_slot, union}

-- `PayloadIndexKind` of options.rs.
pub data PayloadIndexKind : Type 0 where
  keyword_kind integer_kind float_kind : PayloadIndexKind

pub data KeyIndex (Int Float Bitmap : Type 0) : Type 0 where
  keywords : List (String × Bitmap) → KeyIndex Int Float Bitmap
  integers : List (Int × Bitmap) → KeyIndex Int Float Bitmap
  floats : List (Float × Bitmap) → KeyIndex Int Float Bitmap

module _ {Int Float Bitmap : Type 0} where
  unfoldable pub empty : PayloadIndexKind → KeyIndex Int Float Bitmap
  empty keyword_kind = keywords []
  empty integer_kind = integers []
  empty float_kind = floats []

  unfoldable pub kind : KeyIndex Int Float Bitmap → PayloadIndexKind
  kind (keywords m) = keyword_kind
  kind (integers m) = integer_kind
  kind (floats m) = float_kind

module _ (num : Numbers) (bits : Bitmaps) where
  open num use {Number, Int, Float}
  open bits use {Bitmap}

  -- The value of a key map, if the stored value has one.
  abbrev pub on_value :
      {K : Type 0} → Option K → List (K × Bitmap) → (K → List (K × Bitmap)) → List (K × Bitmap)
  on_value none m change = m
  on_value (some k) m change = change k

  unfoldable pub add : KeyIndex Int Float Bitmap → Value Number → ℕ → KeyIndex Int Float Bitmap
  unfolding as_str value_as_i64 value_as_f64 add_slot
  add (keywords m) value slot =
      keywords (on_value (as_str value) m (λ s. add_slot bits same s slot m))
  add (integers m) value slot =
      integers (on_value (value_as_i64 num value) m (λ i. add_slot bits (num.int_eq) i slot m))
  add (floats m) value slot =
      floats (on_value (value_as_f64 num value) m (λ x. add_slot bits (num.total_eq) x slot m))

  unfoldable pub remove : KeyIndex Int Float Bitmap → Value Number → ℕ → KeyIndex Int Float Bitmap
  unfolding as_str value_as_i64 value_as_f64 remove_slot
  remove (keywords m) value slot =
      keywords (on_value (as_str value) m (λ s. remove_slot bits same s slot m))
  remove (integers m) value slot =
      integers (on_value (value_as_i64 num value) m (λ i. remove_slot bits (num.int_eq) i slot m))
  remove (floats m) value slot =
      floats (on_value (value_as_f64 num value) m (λ x. remove_slot bits (num.total_eq) x slot m))

  unfoldable pub all_slots : KeyIndex Int Float Bitmap → Bitmap
  unfolding union
  all_slots (keywords m) = union bits (λ _. true) m (bits.new)
  all_slots (integers m) = union bits (λ _. true) m (bits.new)
  all_slots (floats m) = union bits (λ _. true) m (bits.new)

  unfoldable pub eq_bitmap : KeyIndex Int Float Bitmap → MatchValue Int → Bitmap
  unfolding slots_at
  eq_bitmap (keywords m) (keyword s) = slots_at bits same s m
  eq_bitmap (integers m) (integer i) = slots_at bits (num.int_eq) i m
  eq_bitmap (floats m) (integer i) = slots_at bits (num.total_eq) (num.of_i64 i) m
  eq_bitmap _ _ = bits.new

  unfoldable pub range_bitmap : KeyIndex Int Float Bitmap → Range Float → Option Bitmap
  unfolding union range_contains
  range_bitmap (integers m) range =
      some (union bits (λ k. range_contains num range (num.of_i64 k)) m (bits.new))
  range_bitmap (floats m) range = some (union bits (λ k. range_contains num range k) m (bits.new))
  range_bitmap (keywords m) range = none

  -- `out |= eq_bitmap(idx, v)` for every value.
  unfoldable pub in_bitmap : KeyIndex Int Float Bitmap → List (MatchValue Int) → Bitmap → Bitmap
  unfolding eq_bitmap
  in_bitmap idx [] out = out
  in_bitmap idx (v ∷ vs) out = in_bitmap idx vs (bits.or out (eq_bitmap idx v))
