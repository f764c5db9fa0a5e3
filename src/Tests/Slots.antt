-- ===== src/Tests/Slots.antt =====
-- The theorems on the slots of a collection, on three upserts and a deletion.
use veclite.Base.{
  ℕ, ◌≡◌, ◌≢◌, ◌↔◌, refl, String, true, none, some, List, [], ◌∷◌, if◌then◌else◌, same,
}
use veclite.Storage.Toc.{SegRef}
use veclite.Collection.{
  CollectionData, Point, empty, apply_upsert, apply_prepared, tombstone, delete_batch, get,
  clean_reuse, mark_sealed,
}
use veclite.Collection.WellFormed.{IsWellFormed}
use veclite.Collection.Refinement.{get-apply_upsert, get-tombstone}
use veclite.Collection.Reached.{at_first, then_step, upserts, deletes, Reached-IsWellFormed}
use veclite.Collection.Batches.{empty-IsWellFormed, apply_prepared-IsWellFormed, clean_reuse_lem}

abbrev Data : Type 0
Data = CollectionData ℕ ℕ ℕ

abbrev point : String → ℕ → Point ℕ ℕ ℕ
point id v = record { id = id; vector = v ∷ v ∷ []; sparse = none; payload = some v }

abbrev points : List (Point ℕ ℕ ℕ)
points = point "a" 1 ∷ point "b" 2 ∷ point "a" 3 ∷ []

abbrev slots : Data
slots = apply_prepared empty points

slots-IsWellFormed : IsWellFormed 2 slots
slots-IsWellFormed =
    apply_prepared-IsWellFormed 2 empty points (empty-IsWellFormed 2) (refl, (refl, (refl, tt)))

Reached-IsWellFormed_example :
    IsWellFormed 2 (delete_batch slots ("a" ∷ "c" ∷ [])).0
    × ((x : String) → get (delete_batch slots ("a" ∷ "c" ∷ [])).0 x 2 ≢ none)
Reached-IsWellFormed_example = Reached-IsWellFormed 2 (
    then_step (then_step at_first (upserts empty points (refl, (refl, (refl, tt)))))
      (deletes slots ("a" ∷ "c" ∷ [])))

get-apply_upsert_example :
    get (apply_upsert slots (point "b" 9)) "a" 2
    ≡ (if same "a" "b" then some (some (point "b" 9)) else get slots "a" 2)
get-apply_upsert_example = get-apply_upsert 2 slots (point "b" 9) "a" slots-IsWellFormed refl

get-tombstone_example :
    (get (tombstone slots "a").0 "a" 2 ≡ (if same "a" "a" then some none else get slots "a" 2))
    × ((tombstone slots "a").1 ≡ true ↔ slots.id_to_slot "a" ≢ none)
get-tombstone_example = get-tombstone 2 slots "a" "a" slots-IsWellFormed

slot_of_a : slots.id_to_slot "a" ≡ some 2
unfolding apply_prepared empty same
slot_of_a = refl

no_base : slots.base ≡ none
unfolding apply_prepared empty same
no_base = refl

abbrev refs : List SegRef
refs = record { seg_type = 2; offset = 4096; len = 40 } ∷ []

clean_reuse_lem_example :
    (clean_reuse (mark_sealed slots refs 2 1) ≡ some (refs, 2, 1))
    × (clean_reuse (apply_upsert slots (point "b" 9)) ≡ none)
    × (clean_reuse (tombstone slots "a").0 ≡ none)
clean_reuse_lem_example = clean_reuse_lem slots refs 2 1 (point "b" 9) "a" 2 no_base slot_of_a
