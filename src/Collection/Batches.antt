-- ===== src/Collection/Batches.antt =====
-- collection.rs: batches of writes from the empty collection on, and the reuse of sealed segments.
use veclite.Base.{ℕ, ◌*◌, ◌≡◌, refl, String, none, some, List, [], ◌∷◌, arith, All, length}
use veclite.Collection.{
  CollectionData, Point, base_count, contains, empty, tombstone, apply_upsert, apply_prepared,
  delete_batch, clean_reuse, mark_sealed,
}
use veclite.Storage.Toc.{SegRef}
use veclite.Collection.WellFormed.{IsWellFormed}
use veclite.Collection.Refinement.{
  apply_upsert-IsWellFormed, tombstone-IsWellFormed, tombstone-some,
}

zero_mul : (dim : ℕ) → 0 ≡ 0 * dim
zero_mul dim = omega arith

module _ {V J S : Type 0} where
  pub empty-IsWellFormed : (dim : ℕ) → IsWellFormed dim (empty {V = V} {J = J} {S = S})
  unfolding empty base_count contains
  empty-IsWellFormed dim = record {
    payloads_len = refl;
    sparses_len = refl;
    base_le = omega arith;
    vectors_len = zero_mul dim;
    carries = λ x t k. cc;
    not_dead = λ x t k. cc;
    dead_or_live = λ x t k. cc;
    dead_inside = λ t k. absurd (cc k);
  }

  -- Applying a batch of points with vectors of the right length keeps the slots well formed.
  pub apply_prepared-IsWellFormed :
      (dim : ℕ) (d : CollectionData V J S) (ps : List (Point V J S))
      → IsWellFormed dim d
      → All (λ (p : Point V J S). length p.vector ≡ dim) ps
      → IsWellFormed dim (apply_prepared d ps)
  unfolding apply_prepared
  apply_prepared-IsWellFormed dim d [] w l = w
  apply_prepared-IsWellFormed dim d (p ∷ ps) w (l, ls) =
      apply_prepared-IsWellFormed dim (apply_upsert d p) ps (apply_upsert-IsWellFormed dim d p w l)
        ls

  -- A batch of deletions keeps the slots well formed.
  pub delete_batch-IsWellFormed :
      (dim : ℕ) (d : CollectionData V J S) (ids : List String)
      → IsWellFormed dim d
      → IsWellFormed dim (delete_batch d ids).0
  unfolding delete_batch
  delete_batch-IsWellFormed dim d [] w = w
  delete_batch-IsWellFormed dim d (id ∷ ids) w =
      delete_batch-IsWellFormed dim (tombstone d id).0 ids (tombstone-IsWellFormed dim d id w)

  -- A collection that was just sealed offers its segments for reuse unless it has a mapped tier, and
  -- any upsert, or any deletion of an id that is there, withdraws the offer.
  pub clean_reuse_lem :
      (d : CollectionData V J S) (refs : List SegRef) (n m : ℕ) (p : Point V J S) (id : String)
      (slot : ℕ)
      → d.base ≡ none
      → d.id_to_slot id ≡ some slot
      → (clean_reuse (mark_sealed d refs n m) ≡ some (refs, n, m))
        × (clean_reuse (apply_upsert d p) ≡ none)
        × (clean_reuse (tombstone d id).0 ≡ none)
  unfolding clean_reuse mark_sealed apply_upsert
  clean_reuse_lem d refs n m p id slot h k = (rw h refl, refl, rw (tombstone-some d id slot k) refl)
