-- ===== src/Collection/Reached.antt =====
-- collection.rs: the slots that batches of writes and seals lead to from the empty collection.
use veclite.Base.{ℕ, ◌≡◌, ◌≢◌, String, none, List, All, length}
use veclite.Collection.{
  CollectionData, Point, base_count, empty, apply_prepared, delete_batch, get, mark_sealed,
}
use veclite.Storage.Toc.{SegRef}
use veclite.Collection.WellFormed.{IsWellFormed}
use veclite.Collection.Refinement.{get_total}
use veclite.Collection.Batches.{
  empty-IsWellFormed, apply_prepared-IsWellFormed, delete_batch-IsWellFormed,
}

module _ {V J S : Type 0} (dim : ℕ) where
  -- One batch of upserts with vectors of the collection's dimension, one batch of deletions, or a seal.
  pub data Step : CollectionData V J S → CollectionData V J S → Type 0 where
    upserts :
        (d : CollectionData V J S) (ps : List (Point V J S))
        → All (λ (p : Point V J S). length p.vector ≡ dim) ps
        → Step d (apply_prepared d ps)
    deletes : (d : CollectionData V J S) (ids : List String) → Step d (delete_batch d ids).0
    seals :
        (d : CollectionData V J S) (refs : List SegRef) (n m : ℕ) → Step d (mark_sealed d refs n m)

  pub data Reached : CollectionData V J S → Type 0 where
    at_first : Reached empty
    then_step : {d d' : CollectionData V J S} → Reached d → Step d d' → Reached d'

  mark_sealed-IsWellFormed :
      (d : CollectionData V J S) (refs : List SegRef) (n m : ℕ)
      → IsWellFormed dim d
      → IsWellFormed dim (mark_sealed d refs n m)
  unfolding mark_sealed base_count
  mark_sealed-IsWellFormed d refs n m w = record {
    payloads_len = w.payloads_len;
    sparses_len = w.sparses_len;
    base_le = w.base_le;
    vectors_len = w.vectors_len;
    carries = w.carries;
    not_dead = w.not_dead;
    dead_or_live = w.dead_or_live;
    dead_inside = w.dead_inside;
  }

  Step-IsWellFormed :
      {d d' : CollectionData V J S} → Step d d' → IsWellFormed dim d → IsWellFormed dim d'
  Step-IsWellFormed (upserts d ps l) w = apply_prepared-IsWellFormed dim d ps w l
  Step-IsWellFormed (deletes d ids) w = delete_batch-IsWellFormed dim d ids w
  Step-IsWellFormed (seals d refs n m) w = mark_sealed-IsWellFormed d refs n m w

  Reached-slots : {d : CollectionData V J S} → Reached d → IsWellFormed dim d
  Reached-slots at_first = empty-IsWellFormed dim
  Reached-slots (then_step r s) = Step-IsWellFormed s (Reached-slots r)

  -- Slots that batches of upserts with vectors of the right length, batches of deletions and seals lead
  -- to from the empty collection are well formed, and no lookup reads outside them.
  pub Reached-IsWellFormed :
      {d : CollectionData V J S}
      → Reached d
      → IsWellFormed dim d × ((x : String) → get d x dim ≢ none)
  Reached-IsWellFormed {d} r = (Reached-slots r, λ x. get_total dim d x (Reached-slots r))
