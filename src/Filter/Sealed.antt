-- ===== src/Filter/Sealed.antt =====
-- `PostingValue` and `PayloadIndexes::postings` of filter/index.rs: an index as sorted lists for the
-- file. A `BTreeMap` iterates in ascending order; here its list is sorted for it.
use veclite.Base.{ℕ, String, Bool, Option, some, List, [], ◌∷◌, map, if◌then◌else◌, ◌>>=?◌}
use veclite.Filter.{Numbers}
use veclite.Filter.Postings.{Bitmaps}
use veclite.Filter.KeyIndex.{KeyIndex, keywords, integers, floats}
use veclite.Filter.Index.{PayloadIndexes, index_of}

pub data PostingValue (Int Float : Type 0) : Type 0 where
  keyword : String → PostingValue Int Float
  integer : Int → PostingValue Int Float
  float : Float → PostingValue Int Float

-- The orders of the values, and the conversions of bitmaps from and to ascending lists of slots.
pub record Orders (num : Numbers) (bits : Bitmaps) : Type 0 where
  pub text_le : String → String → Bool
  pub int_le : num.Int → num.Int → Bool
  pub total_le : num.Float → num.Float → Bool
  pub slots : bits.Bitmap → List ℕ
  pub of_slots : List ℕ → bits.Bitmap

module _ {K B : Type 0} (le : K → K → Bool) where
  insert_entry : K × B → List (K × B) → List (K × B)
  insert_entry e [] = e ∷ []
  insert_entry e (f ∷ fs) = if le (e.0) (f.0) then e ∷ f ∷ fs else f ∷ insert_entry e fs

  unfoldable pub sort_entries : List (K × B) → List (K × B)
  unfolding insert_entry
  sort_entries [] = []
  sort_entries (e ∷ es) = insert_entry e (sort_entries es)

module _ (num : Numbers) (bits : Bitmaps) (orders : Orders num bits) where
  open num use {Int, Float}
  open bits use {Bitmap}

  -- The entries with their values as posting values and their bitmaps as lists.
  listed :
      {K : Type 0}
      → (K → PostingValue Int Float)
      → List (K × Bitmap)
      → List (PostingValue Int Float × List ℕ)
  listed value m = map (λ e. (value (e.0), orders.slots (e.1))) m

  unfoldable pub postings_of : KeyIndex Int Float Bitmap → List (PostingValue Int Float × List ℕ)
  unfolding listed sort_entries
  postings_of (keywords m) = listed keyword (sort_entries orders.text_le m)
  postings_of (integers m) = listed integer (sort_entries orders.int_le m)
  postings_of (floats m) = listed float (sort_entries orders.total_le m)

  unfoldable pub postings :
      PayloadIndexes num bits → String → Option (List (PostingValue Int Float × List ℕ))
  unfolding index_of postings_of
  postings by_key key = index_of num bits key by_key >>=? λ idx. some (postings_of idx)
