-- ===== src/Filter/Index.antt =====
-- `PayloadIndexes` of filter/index.rs: the indexes of a collection by key.
pub mod Holds
pub mod Superset
pub mod Candidates
pub mod History
use veclite.Base.{
  ℕ, ◌≡◌, ◌↔◌, refl, ap, sym, ◌∙◌, String, Bool, true, false, Option, none, some, List, [], ◌∷◌,
  same, if◌then◌else◌, map, ◌>>=?◌,
}
use veclite.Dict
use veclite.Filter.{
  Numbers, Value, Fields, Condition, is_eq, is_in, in_range, exists, nested, Conditions, none_left,
  cond_then, Filter, filter, as_object, get_field,
}
use veclite.Filter.Postings.{Bitmaps}
use veclite.Filter.KeyIndex.{
  PayloadIndexKind, KeyIndex, empty, kind, all_slots, eq_bitmap, in_bitmap, range_bitmap,
}
use veclite.Filter.KeyIndex

module _ (num : Numbers) (bits : Bitmaps) where
  open num use {Number, Int, Float}
  open bits use {Bitmap}

  abbrev pub PayloadIndexes : Type 0
  PayloadIndexes = List (String × KeyIndex Int Float Bitmap)

  -- A key that is declared twice gets its last kind.
  unfoldable pub collect : List (String × PayloadIndexKind) → PayloadIndexes → PayloadIndexes
  unfolding empty Dict.insert
  collect [] by_key = by_key
  collect ((key, kind) ∷ rest) by_key = collect rest (Dict.insert key (empty kind) by_key)

  unfoldable pub new : List (String × PayloadIndexKind) → PayloadIndexes
  unfolding collect
  new declared = collect declared []

  unfoldable pub index_of : String → PayloadIndexes → Option (KeyIndex Int Float Bitmap)
  index_of key [] = none
  index_of key ((k, idx) ∷ rest) = if same k key then some idx else index_of key rest

  -- The indexes, and whether the key was new.
  unfoldable pub declare : PayloadIndexes → String → PayloadIndexKind → PayloadIndexes × Bool
  unfolding index_of empty
  declare by_key key kind = elim (index_of key by_key) [
    | some idx ↦ (by_key, false)
    | none ↦ ((key, empty kind) ∷ by_key, true)
  ]

  unfoldable pub kind_of : PayloadIndexes → String → Option PayloadIndexKind
  unfolding index_of kind
  kind_of by_key key = index_of key by_key >>=? λ idx. some (kind idx)

  abbrev pub change_at :
      (KeyIndex Int Float Bitmap → Value Number → KeyIndex Int Float Bitmap)
      → Option (Value Number)
      → KeyIndex Int Float Bitmap
      → KeyIndex Int Float Bitmap
  change_at change none idx = idx
  change_at change (some v) idx = change idx v

  -- The loop of `insert` and of `remove` over the indexes.
  unfoldable pub each_indexed :
      (KeyIndex Int Float Bitmap → Value Number → KeyIndex Int Float Bitmap)
      → Fields Number
      → PayloadIndexes
      → PayloadIndexes
  unfolding get_field
  each_indexed change obj [] = []
  each_indexed change obj ((key, idx) ∷ rest) =
      (key, change_at change (get_field key obj) idx) ∷ each_indexed change obj rest

  abbrev pub on_object :
      Option (Fields Number) → PayloadIndexes → (Fields Number → PayloadIndexes) → PayloadIndexes
  on_object none by_key change = by_key
  on_object (some obj) by_key change = change obj

  unfoldable pub insert : PayloadIndexes → ℕ → Option (Value Number) → PayloadIndexes
  unfolding each_indexed as_object KeyIndex.add
  insert by_key slot payload =
      on_object (payload >>=? as_object) by_key
        (λ obj. each_indexed (λ idx v. KeyIndex.add num bits idx v slot) obj by_key)

  unfoldable pub remove : PayloadIndexes → ℕ → Option (Value Number) → PayloadIndexes
  unfolding each_indexed as_object KeyIndex.remove
  remove by_key slot payload =
      on_object (payload >>=? as_object) by_key
        (λ obj. each_indexed (λ idx v. KeyIndex.remove num bits idx v slot) obj by_key)

  unfoldable pub answer : PayloadIndexes → Condition Int Float → Option Bitmap
  unfolding index_of eq_bitmap in_bitmap range_bitmap all_slots
  answer by_key (is_eq key value) =
      index_of key by_key >>=? λ idx. some (eq_bitmap num bits idx value)
  answer by_key (is_in key values) =
      index_of key by_key >>=? λ idx. some (in_bitmap num bits idx values (bits.new))
  answer by_key (in_range key range) =
      index_of key by_key >>=? λ idx. range_bitmap num bits idx range
  answer by_key (exists key) = index_of key by_key >>=? λ idx. some (all_slots num bits idx)
  answer by_key (nested inner) = none

  abbrev pub meet : Option Bitmap → Option Bitmap → Option Bitmap
  meet acc none = acc
  meet none (some bitmap) = some bitmap
  meet (some a) (some bitmap) = some (bits.and a bitmap)

  -- The loop of `candidates` over the conditions of `must`.
  unfoldable pub candidates_from :
      PayloadIndexes → Conditions Int Float → Option Bitmap → Option Bitmap
  unfolding answer
  candidates_from by_key none_left acc = acc
  candidates_from by_key (cond_then c cs) acc =
      candidates_from by_key cs (meet acc (answer by_key c))

  unfoldable pub candidates : PayloadIndexes → Filter Int Float → Option Bitmap
  unfolding candidates_from
  candidates by_key (filter must should must_not) = candidates_from by_key must none
