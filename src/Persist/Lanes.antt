-- ===== src/Persist/Lanes.antt =====
-- `sparse_to_postings` and `postings_to_sparse` of crates/veclite/src/persist/seal.rs. The `BTreeMap` is
-- an association list in ascending order.
pub mod Collect
pub mod Pushes
pub mod Restored
use veclite.Base.{
  ℕ, zero, suc, ◌+◌, ◌==◌, Option, none, some, List, [], ◌∷◌, ◌++◌, length, get_or, set, replicate,
  ltb, if◌then◌else◌,
}
use veclite.Sparse.{SparseVector}

module _ {F : Type 0} where
  -- `entry(idx).or_default().push(..)`
  unfoldable pub push_at : ℕ → ℕ × F → List (ℕ × List (ℕ × F)) → List (ℕ × List (ℕ × F))
  push_at term p [] = (term, p ∷ []) ∷ []
  push_at term p ((t, ps) ∷ rest) =
      if term == t
      then (t, ps ++ p ∷ []) ∷ rest
      else if ltb term t
      then (term, p ∷ []) ∷ (t, ps) ∷ rest
      else (t, ps) ∷ push_at term p rest

  -- The loop over the indices of a vector, zipped with its values.
  unfoldable pub push_vector :
      ℕ → List ℕ → List F → List (ℕ × List (ℕ × F)) → List (ℕ × List (ℕ × F))
  unfolding push_at
  push_vector slot [] values m = m
  push_vector slot (i ∷ is) [] m = m
  push_vector slot (i ∷ is) (v ∷ vs) m = push_vector slot is vs (push_at i (slot, v) m)

  -- The loop over the live points from a slot on.
  unfoldable pub push_lanes :
      ℕ → List (Option (SparseVector F)) → List (ℕ × List (ℕ × F)) → List (ℕ × List (ℕ × F))
  unfolding push_vector
  push_lanes slot [] m = m
  push_lanes slot (none ∷ lanes) m = push_lanes (slot + 1) lanes m
  push_lanes slot (some s ∷ lanes) m =
      push_lanes (slot + 1) lanes (push_vector slot s.indices s.values m)

  unfoldable pub sparse_to_postings : List (Option (SparseVector F)) → List (ℕ × List (ℕ × F))
  unfolding push_lanes
  sparse_to_postings lanes = push_lanes 0 lanes []

  -- `get_or_insert_with(..)`, and the two pushes.
  unfoldable pub grow : ℕ → F → Option (SparseVector F) → SparseVector F
  grow term weight none = record { indices = term ∷ []; values = weight ∷ [] }
  grow term weight (some s) = record {
    indices = s.indices ++ term ∷ [];
    values = s.values ++ weight ∷ [];
  }

  -- A slot behind the end is passed over: `set` leaves the list as it is.
  unfoldable pub spread :
      ℕ → List (ℕ × F) → List (Option (SparseVector F)) → List (Option (SparseVector F))
  unfolding grow
  spread term [] acc = acc
  spread term ((slot, weight) ∷ ps) acc =
      spread term ps (set acc slot (some (grow term weight (get_or acc slot none))))

  unfoldable pub spread_all :
      List (ℕ × List (ℕ × F)) → List (Option (SparseVector F)) → List (Option (SparseVector F))
  unfolding spread
  spread_all [] acc = acc
  spread_all ((term, ps) ∷ rest) acc = spread_all rest (spread term ps acc)

  unfoldable pub postings_to_sparse : List (ℕ × List (ℕ × F)) → ℕ → List (Option (SparseVector F))
  unfolding spread_all
  postings_to_sparse postings count = spread_all postings (replicate count none)
